-- ===== src/Prelude/Results.antt =====
-- What a fallible call comes back with: a value, an error, or a panic. A method that takes
-- `&mut self` is a `Method`: it also returns the object, whatever the outcome.
use mathlib.Core.Path.{◌≡◌, refl}
use native.Mathlib.Omega.{arith}
use mathlib.Core.Logic.{◌⊎◌, inl, inr}

pub data Outcome (E A : Type 0) : Type 0 where
  ok : A → Outcome E A
  err : E → Outcome E A
  panic : Outcome E A

abbrev pub Method : Type 0 → Type 0 → Type 0 → Type 0
Method E S A = S → S × Outcome E A

module _ {E S : Type 0} where
  abbrev pub return : {A : Type 0} → A → Method E S A
  return a s = (s, ok a)

  abbrev pub settle : {A : Type 0} → Outcome E A → Method E S A
  settle r s = (s, r)

  -- `?`: an error or a panic ends the method, and what was written stays written.
  abbrev pub resume : {A B : Type 0} → Outcome E A → (A → Method E S B) → Method E S B
  resume (ok a) f s = f a s
  resume (err e) f s = (s, err e)
  resume panic f s = (s, panic)

  infixl 5 ◌>>=◌ ◌>>◌
  abbrev pub ◌>>=◌ : {A B : Type 0} → Method E S A → (A → Method E S B) → Method E S B
  ◌>>=◌ m f s = resume (m s).1 f (m s).0

  abbrev pub ◌>>◌ : {A B : Type 0} → Method E S A → Method E S B → Method E S B
  m >> n = m >>= λ _. n

-- `map_err` with `From`: an error of one type reported as an error of another.
abbrev pub map_err : {E F A : Type 0} → (E → F) → Outcome E A → Outcome F A
map_err f (ok a) = ok a
map_err f (err e) = err (f e)
map_err f panic = panic

pub Outcome-cases :
    {E A : Type 0} (r : Outcome E A)
    → ((a : A) × (r ≡ ok a)) ⊎ ((e : E) × (r ≡ err e)) ⊎ (r ≡ panic)
Outcome-cases (ok a) = inl (a, refl)
Outcome-cases (err e) = inr (inl (e, refl))
Outcome-cases panic = inr (inr refl)

pub ok-injective : {E A : Type 0} {r : Outcome E A} {a b : A} → r ≡ ok a → r ≡ ok b → a ≡ b
ok-injective h k = ground (arith, h, k)
