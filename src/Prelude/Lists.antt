-- ===== src/Prelude/Lists.antt =====
-- Lists measured by native numbers, and a predicate on every element.
use Prim.Native.Nat.{ℕ, suc, ◌+◌}
use mathlib.Core.Path.{ap, refl, ◌≡◌}
use mathlib.Core.Bool.{Bool, true}
use mathlib.Core.Logic.{inl, inr}
use mathlib.Core.List.{List, [], ◌∷◌, ◌++◌}
use native.Mathlib.Omega.{arith}
use raft_log.Prelude.Tests.{Bool-cases, if◌then◌else◌}

module _ {ℓ} {A : Type ℓ} where
  abbrev pub length : List A → ℕ
  length [] = 0
  length (x ∷ xs) = suc (length xs)

  pub length-append : (xs ys : List A) → length (xs ++ ys) ≡ length xs + length ys
  length-append [] ys = omega arith
  length-append (x ∷ xs) ys = omega (arith, length-append xs ys)

  abbrev pub All {κ} : (A → Type κ) → List A → Type κ
  All P [] = Unit
  All P (x ∷ xs) = P x × All P xs

  pub All-imp {κ μ} :
      {P : A → Type κ} {Q : A → Type μ}
      → ((x : A) → P x → Q x)
      → (xs : List A) → All P xs
      → All Q xs
  All-imp f [] h = tt
  All-imp f (x ∷ xs) h = (f x h.0, All-imp f xs h.1)

  pub All-and {κ μ} :
      (P : A → Type κ) (Q : A → Type μ) (xs : List A)
      → All P xs
      → All Q xs
      → All (λ x. P x × Q x) xs
  All-and P Q [] h k = tt
  All-and P Q (x ∷ xs) h k = ((h.0, k.0), All-and P Q xs h.1 k.1)

  pub All-append {κ} : (P : A → Type κ) (xs ys : List A) → All P xs → All P ys → All P (xs ++ ys)
  All-append P [] ys h k = k
  All-append P (x ∷ xs) ys h k = (h.0, All-append P xs ys h.1 k)

  pub All-suffix {κ} : (P : A → Type κ) (xs ys : List A) → All P (xs ++ ys) → All P ys
  All-suffix P [] ys h = h
  All-suffix P (x ∷ xs) ys h = All-suffix P xs ys h.1

  -- The elements that pass a Boolean test, in order.
  unfoldable pub keep : (A → Bool) → List A → List A
  keep p [] = []
  keep p (x ∷ xs) = let rest = keep p xs in if p x then x ∷ rest else rest

  pub All-keep {κ} : (P : A → Type κ) (p : A → Bool) (xs : List A) → All P xs → All P (keep p xs)
  unfolding keep
  All-keep P p [] h = tt
  All-keep P p (x ∷ xs) h = ground (arith, All-keep P p xs h.1)

  pub keep_holds : (p : A → Bool) (xs : List A) → All (λ x. p x ≡ true) (keep p xs)
  unfolding keep
  keep_holds p [] = tt
  keep_holds p (x ∷ xs) = elim (Bool-cases (p x)) [
    | inl h ↦ rw h (h, keep_holds p xs)
    | inr h ↦ rw h (keep_holds p xs)
  ]

-- Two lists of one length, related element by element.
module _ {ℓ κ} {A : Type ℓ} {B : Type κ} where
  abbrev pub All2 : (A → B → Type 0) → List A → List B → Type 0
  All2 R [] [] = Unit
  All2 R [] (y ∷ ys) = ⊥
  All2 R (x ∷ xs) [] = ⊥
  All2 R (x ∷ xs) (y ∷ ys) = R x y × All2 R xs ys

  pub All2-imp {μ} :
      {R S : A → B → Type 0} (P : A → Type μ)
      → ((x : A) (y : B) → P x → R x y → S x y)
      → (xs : List A) (ys : List B) → All P xs
      → All2 R xs ys
      → All2 S xs ys
  All2-imp P f [] [] a h = tt
  All2-imp P f [] (y ∷ ys) a h = absurd h
  All2-imp P f (x ∷ xs) [] a h = absurd h
  All2-imp P f (x ∷ xs) (y ∷ ys) a h = (f x y a.0 h.0, All2-imp P f xs ys a.1 h.1)

  pub All2-right {μ ν} :
      {R : A → B → Type 0} (P : A → Type μ) (Q : B → Type ν)
      → ((x : A) (y : B) → P x → R x y → Q y)
      → (xs : List A) (ys : List B) → All P xs
      → All2 R xs ys
      → All Q ys
  All2-right P Q f [] [] a h = tt
  All2-right P Q f [] (y ∷ ys) a h = absurd h
  All2-right P Q f (x ∷ xs) [] a h = absurd h
  All2-right P Q f (x ∷ xs) (y ∷ ys) a h = (f x y a.0 h.0, All2-right P Q f xs ys a.1 h.1)

  pub All2-snoc :
      (R : A → B → Type 0) (xs : List A) (ys : List B) (x : A) (y : B)
      → All2 R xs ys
      → R x y
      → All2 R (xs ++ x ∷ []) (ys ++ y ∷ [])
  All2-snoc R [] [] x y h r = (r, tt)
  All2-snoc R [] (y' ∷ ys) x y h r = absurd h
  All2-snoc R (x' ∷ xs) [] x y h r = absurd h
  All2-snoc R (x' ∷ xs) (y' ∷ ys) x y h r = (h.0, All2-snoc R xs ys x y h.1 r)

  pub length-All2 :
      (R : A → B → Type 0) (xs : List A) (ys : List B) → All2 R xs ys → length xs ≡ length ys
  length-All2 R [] [] h = refl
  length-All2 R [] (y ∷ ys) h = absurd h
  length-All2 R (x ∷ xs) [] h = absurd h
  length-All2 R (x ∷ xs) (y ∷ ys) h = ap suc (length-All2 R xs ys h.1)

  -- Tests that agree on related elements keep related lists.
  pub All2-keep :
      (R : A → B → Type 0) (p : A → Bool) (q : B → Bool)
      → ((x : A) (y : B) → R x y → p x ≡ q y)
      → (xs : List A) (ys : List B) → All2 R xs ys
      → All2 R (keep p xs) (keep q ys)
  unfolding keep
  All2-keep R p q f [] [] h = tt
  All2-keep R p q f [] (y ∷ ys) h = absurd h
  All2-keep R p q f (x ∷ xs) [] h = absurd h
  All2-keep R p q f (x ∷ xs) (y ∷ ys) h = ground (arith, f x y h.0, All2-keep R p q f xs ys h.1)

pub All-trivial {ℓ} : {A : Type ℓ} (xs : List A) → All (λ x. Unit {0}) xs
All-trivial [] = tt
All-trivial (x ∷ xs) = (tt, All-trivial xs)
