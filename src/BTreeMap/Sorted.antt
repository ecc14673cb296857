-- ===== src/BTreeMap/Sorted.antt =====
-- Keys in strictly increasing order, which every operation of a `BTreeMap` keeps.
use raft_log.Prelude.{◌≡◌, true, [], ◌∷◌, Bool, keep, All, All-keep, All-imp, arith}
use raft_log.Prelude.Ord.{Ord, lt, lt_trans}
use raft_log.BTreeMap.{BTreeMap, insert}

module _ {K V : Type 0} (o : Ord K) where
  abbrev pub AllAbove : K → BTreeMap K V → Type 0
  AllAbove k m = All (λ e. lt o k e.0 ≡ true) m

  abbrev pub IsSorted : BTreeMap K V → Type 0
  IsSorted [] = Unit
  IsSorted (e ∷ m) = AllAbove e.0 m × IsSorted m

  pub keep-IsSorted : (p : K × V → Bool) (m : BTreeMap K V) → IsSorted m → IsSorted (keep p m)
  unfolding keep
  keep-IsSorted p [] s = tt
  keep-IsSorted p (e ∷ m) s = ground (arith, keep-IsSorted p m s.1, All-keep _ p m s.0)

  pub AllAbove-trans : (k j : K) (m : BTreeMap K V) → lt o k j ≡ true → AllAbove j m → AllAbove k m
  AllAbove-trans k j m h = All-imp (λ e. lt_trans o k j e.0 h) m

  pub All-insert :
      (P : K × V → Type 0) (k : K) (v : V) (m : BTreeMap K V)
      → P (k, v)
      → All P m
      → All P (insert o k v m)
  unfolding insert
  All-insert P k v [] h a = (h, tt)
  All-insert P k v ((j, w) ∷ m) h a = ground (arith, All-insert P k v m h a.1, o.eq_of_cmp k j)

  pub insert-IsSorted : (k : K) (v : V) (m : BTreeMap K V) → IsSorted m → IsSorted (insert o k v m)
  unfolding insert lt
  insert-IsSorted k v [] s = (tt, tt)
  insert-IsSorted k v ((j, w) ∷ m) s = ground (
    arith,
    insert-IsSorted k v m s.1,
    All-insert (λ e. lt o j e.0 ≡ true) k v m,
    AllAbove-trans k j m,
    o.cmp_swap k j,
    o.eq_of_cmp k j,
  )
