-- ===== src/BTreeMap.antt =====
-- `std::collections::BTreeMap`: the entries in key order. A range from above to below panics, as
-- the library's does.
pub mod Laws
pub mod Sorted
use Prim.Native.Nat.{Ordering}
use raft_log.Prelude.{
  Option, none, some, List, [], ◌∷◌, Bool, not, ◌&&◌, keep, map, Outcome, ok, panic, if◌then◌else◌,
}
use raft_log.Prelude.Ord.{Ord, lt, le}

abbrev pub BTreeMap : Type 0 → Type 0 → Type 0
BTreeMap K V = List (K × V)

module _ {K V : Type 0} where
  unfoldable pub first_key_value : BTreeMap K V → Option (K × V)
  first_key_value [] = none
  first_key_value (e ∷ m) = some e

  unfoldable pub last_key_value : BTreeMap K V → Option (K × V)
  last_key_value [] = none
  last_key_value (e ∷ []) = some e
  last_key_value (e ∷ f ∷ m) = last_key_value (f ∷ m)

  -- The map without its last entry.
  unfoldable pub without_last : BTreeMap K V → BTreeMap K V
  without_last [] = []
  without_last (e ∷ []) = []
  without_last (e ∷ f ∷ m) = e ∷ without_last (f ∷ m)

  unfoldable pub pop_last : BTreeMap K V → Option ((K × V) × BTreeMap K V)
  pop_last m = elim (last_key_value m) [ none ↦ none | some e ↦ some (e, without_last m) ]

  unfoldable pub pop_first : BTreeMap K V → Option ((K × V) × BTreeMap K V)
  pop_first [] = none
  pop_first (e ∷ m) = some (e, m)

  abbrev pub values : BTreeMap K V → List V
  values m = map (λ e. e.1) m

module _ {K V : Type 0} (o : Ord K) where
  unfoldable pub insert : K → V → BTreeMap K V → BTreeMap K V
  insert k v [] = (k, v) ∷ []
  insert k v ((j, w) ∷ m) = elim (o.cmp k j) [
    | Ordering.lt ↦ (k, v) ∷ (j, w) ∷ m
    | Ordering.eq ↦ (j, v) ∷ m
    | Ordering.gt ↦ (j, w) ∷ insert k v m
  ]

  unfoldable pub get : K → BTreeMap K V → Option V
  get k [] = none
  get k ((j, w) ∷ m) = elim (o.cmp k j) [
    | Ordering.lt ↦ get k m
    | Ordering.eq ↦ some w
    | Ordering.gt ↦ get k m
  ]

  -- What `split_off(&k)` leaves behind: the entries below `k`.
  unfoldable pub split_below : K → BTreeMap K V → BTreeMap K V
  unfolding keep
  split_below k m = keep (λ e. lt o e.0 k) m

  -- What `split_off(&k)` returns: the entries from `k` on.
  unfoldable pub split_off : K → BTreeMap K V → BTreeMap K V
  unfolding keep
  split_off k m = keep (λ e. le o k e.0) m

  -- The entries with a key in `from..to`.
  unfoldable pub range : {E : Type 0} → K → K → BTreeMap K V → Outcome E (BTreeMap K V)
  unfolding keep
  range from to m = if lt o to from then panic else ok (keep (λ e. le o from e.0 && lt o e.0 to) m)
