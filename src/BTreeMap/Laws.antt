-- ===== src/BTreeMap/Laws.antt =====
-- What a lookup finds after each operation, and what the operations do on sorted maps.
use raft_log.Prelude.{
  ◌≡◌, refl, true, false, List, [], ◌∷◌, ◌++◌, Bool, none, some, keep, All, All-keep, sym, subst,
  arith, if◌then◌else◌, ap,
}
use raft_log.Prelude.Ord.{Ord, lt, le, equal}
use raft_log.BTreeMap.Sorted.{AllAbove, AllAbove-trans, IsSorted}
use raft_log.BTreeMap.{
  BTreeMap, insert, get, split_below, split_off, last_key_value, without_last, pop_last,
}

module _ {K V : Type 0} (o : Ord K) where
  pub get-insert :
      (j k : K) (v : V) (m : BTreeMap K V)
      → get o j (insert o k v m) ≡ (if equal o j k then some v else get o j m)
  unfolding get insert equal
  get-insert j k v [] = ground arith
  get-insert j k v ((i, w) ∷ m) =
      ground (arith, get-insert j k v m, o.eq_of_cmp k i, o.eq_of_cmp j k, o.cmp_swap k i)

  pub get-keep :
      (j : K) (p : K → Bool) (m : BTreeMap K V)
      → get o j (keep (λ e. p e.0) m) ≡ (if p j then get o j m else none)
  unfolding get keep
  get-keep j p [] = ground arith
  get-keep j p ((i, w) ∷ m) = ground (arith, get-keep j p m, o.eq_of_cmp j i)

  pub get-split_off :
      (j k : K) (m : BTreeMap K V)
      → get o j (split_off o k m) ≡ (if le o k j then get o j m else none)
  unfolding split_off
  get-split_off j k m = get-keep j (λ i. le o k i) m

  pub get-split_below :
      (j k : K) (m : BTreeMap K V)
      → get o j (split_below o k m) ≡ (if lt o j k then get o j m else none)
  unfolding split_below
  get-split_below j k m = get-keep j (λ i. lt o i k) m

  abbrev pub AllBelow : K → BTreeMap K V → Type 0
  AllBelow k m = All (λ e. lt o e.0 k ≡ true) m

  -- A key above all others goes to the end.
  pub insert-last :
      (k : K) (v : V) (m : BTreeMap K V) → AllBelow k m → insert o k v m ≡ m ++ (k, v) ∷ []
  unfolding insert lt
  insert-last k v [] h = refl
  insert-last k v ((j, w) ∷ m) h = ground (arith, insert-last k v m h.1, o.cmp_swap k j)

  -- A key below all others goes to the front, and is not found among them.
  pub insert-first :
      (k : K) (v : V) (m : BTreeMap K V) → AllAbove o k m → insert o k v m ≡ (k, v) ∷ m
  unfolding insert lt
  insert-first k v [] h = refl
  insert-first k v ((j, w) ∷ m) h = ground arith

  -- An entry that passes a test may be inserted before the test or after it.
  pub keep-insert :
      (p : K × V → Bool) (k : K) (v : V) (m : BTreeMap K V)
      → p (k, v) ≡ true
      → IsSorted o m
      → keep p (insert o k v m) ≡ insert o k v (keep p m)
  unfolding insert keep lt
  keep-insert p k v [] h s = ground (arith, h)
  keep-insert p k v ((j, w) ∷ m) h s =
      let above = λ (g : lt o k j ≡ true).
        insert-first k v (keep p m) (All-keep _ p m (AllAbove-trans o k j m g s.0)) in
      let front = λ (g : k ≡ j).
        insert-first k v (keep p m) (All-keep _ p m (subst (λ i. AllAbove o i m) (sym g) s.0)) in
      ground (arith, h, keep-insert p k v m h s.1, above, front, o.eq_of_cmp k j)

  pub get-above : (k : K) (m : BTreeMap K V) → AllAbove o k m → get o k m ≡ none
  unfolding get lt
  get-above k [] h = refl
  get-above k ((j, w) ∷ m) h = ground (arith, get-above k m h.1)

  pub get-below : (k : K) (m : BTreeMap K V) → AllBelow k m → get o k m ≡ none
  unfolding get lt
  get-below k [] h = refl
  get-below k ((j, w) ∷ m) h = ground (arith, get-below k m h.1, o.cmp_swap k j)

module _ {A : Type 0} where
  pub keep-append : (p : A → Bool) (xs ys : List A) → keep p (xs ++ ys) ≡ keep p xs ++ keep p ys
  unfolding keep
  keep-append p [] ys = refl
  keep-append p (x ∷ xs) ys = ground (arith, keep-append p xs ys)

  pub keep-All : (p : A → Bool) (xs : List A) → All (λ x. p x ≡ true) xs → keep p xs ≡ xs
  unfolding keep
  keep-All p [] h = refl
  keep-All p (x ∷ xs) h = ground (arith, keep-All p xs h.1)

  pub keep_none : (p : A → Bool) (xs : List A) → All (λ x. p x ≡ false) xs → keep p xs ≡ []
  unfolding keep
  keep_none p [] h = refl
  keep_none p (x ∷ xs) h = ground (arith, keep_none p xs h.1)

module _ {K V : Type 0} where
  pub last-append : (m : BTreeMap K V) (e : K × V) → last_key_value (m ++ e ∷ []) ≡ some e
  unfolding last_key_value
  last-append [] e = refl
  last-append (d ∷ []) e = refl
  last-append (d ∷ d' ∷ m) e = last-append (d' ∷ m) e

  pub without-append : (m : BTreeMap K V) (e : K × V) → without_last (m ++ e ∷ []) ≡ m
  unfolding without_last
  without-append [] e = refl
  without-append (d ∷ []) e = refl
  without-append (d ∷ d' ∷ m) e = ap (◌∷◌ d) (without-append (d' ∷ m) e)

  -- A map is empty, or ends with its last entry.
  pub last-split :
      (d : K × V) (m : BTreeMap K V)
      → (e : K × V) × (last_key_value (d ∷ m) ≡ some e) × (d ∷ m ≡ without_last (d ∷ m) ++ e ∷ [])
  unfolding last_key_value without_last
  last-split d [] = (d, refl, refl)
  last-split d (d' ∷ m) = let (e, found, split) = last-split d' m in (e, found, ap (◌∷◌ d) split)

  pub pop_last-cons :
      (d : K × V) (m : BTreeMap K V)
      → (e : K × V) × (pop_last (d ∷ m) ≡ some (e, without_last (d ∷ m)))
        × (d ∷ m ≡ without_last (d ∷ m) ++ e ∷ [])
  unfolding pop_last
  pop_last-cons d m = let (e, found, split) = last-split d m in (e, ground arith, split)
