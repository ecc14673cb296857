-- ===== src/Cache/Exact.antt =====
-- Which entries are left when a loop of the cache ends.
use raft_log.Prelude.{
  ◌≡◌, ◌∙◌, ◌⊎◌, inl, inr, some, none, Bool, true, false, ◌&&◌, [], ◌∷◌, All, All-imp, arith,
  Bool-cases, refl, if◌then◌else◌,
}
use raft_log.Prelude.Ord.{Ord, lt, le, le_trans, le_of_lt, le-some}
use raft_log.Types.{Types, ids}
use raft_log.BTreeMap
use raft_log.BTreeMap.{BTreeMap}
use raft_log.BTreeMap.Sorted.{IsSorted, AllAbove}
use raft_log.BTreeMap.Laws.{insert-first}
use raft_log.Cache.{
  PayloadCache, Payloads, need_evict, evictable, evict_first, evict_while, try_evict, drain_while,
  drain_evictable, purge_while, purge_upto, get,
}
use raft_log.Cache.Loops.{Drops, purgeable, drain_evictable-Popped, purge_upto-Popped}

module _ {K V : Type 0} (o : Ord K) where
  -- With a test that holds of everything below what it holds of, one refusal refuses all behind.
  pub refused_behind :
      (q : K → Bool)
      → ((i j : K) → lt o i j ≡ true → q j ≡ true → q i ≡ true)
      → (k : K) (rest : BTreeMap K V) → AllAbove o k rest
      → q k ≡ false
      → All (λ e. q e.0 ≡ false) rest
  refused_behind q down k rest above h = All-imp (λ e a. ground (arith, down k e.0 a)) rest above

  pub get_refused :
      (q : K → Bool) (j : K) (m : BTreeMap K V)
      → All (λ e. q e.0 ≡ false) m
      → q j ≡ true
      → BTreeMap.get o j m ≡ none
  unfolding BTreeMap.get
  get_refused q j [] a h = refl
  get_refused q j ((i, w) ∷ m) a h = ground (arith, get_refused q j m a.1 h, o.eq_of_cmp j i)

  -- A loop that drops only what `q` holds of, and leaves nothing of which it holds, is a filter.
  pub dropped_exactly :
      (q : K → Bool) (m m' : BTreeMap K V)
      → Drops o q m m'
      → All (λ e. q e.0 ≡ false) m'
      → (j : K) → BTreeMap.get o j m' ≡ (if q j then none else BTreeMap.get o j m)
  dropped_exactly q m m' d a j = ground (arith, d j, get_refused q j m' a)

module _ {T : Types} where
  -- Nothing behind an entry that must stay is evictable.
  evictable_down :
      (c : PayloadCache T) (id j : T.LogId)
      → lt T.log_id_ord id j ≡ true
      → evictable c j ≡ true
      → evictable c id ≡ true
  unfolding evictable
  evictable_down c id j h e =
      le_trans (ids T) (some id) (some j) c.last_evictable
        (le-some T.log_id_ord id j ∙ le_of_lt T.log_id_ord id j h) e

  purgeable_down :
      (c : PayloadCache T) (key id j : T.LogId)
      → lt T.log_id_ord id j ≡ true
      → purgeable c key j ≡ true
      → purgeable c key id ≡ true
  purgeable_down c key id j h e =
      ground (
        arith,
        evictable_down c id j h,
        le_of_lt T.log_id_ord id j h,
        le_trans T.log_id_ord id j key,
      )

  evict_while_done :
      (c : PayloadCache T) (m : Payloads T)
      → IsSorted T.log_id_ord m
      → (need_evict (evict_while c m) ≡ false)
        ⊎ All (λ e. evictable c e.0 ≡ false) (evict_while c m).cache
  unfolding evict_while evict_first evictable
  evict_while_done c [] s = inr tt
  evict_while_done c ((id, p) ∷ rest) s =
      let here = record c { cache = (id, p) ∷ rest } in
      elim (Bool-cases (need_evict here && evictable here id)) [
        | inl h ↦ rw h (evict_while_done (evict_first c p rest) rest s.1)
        | inr h ↦ rw h (elim (Bool-cases (need_evict here)) [
          | inl n ↦
              let stays : evictable c id ≡ false = ground arith in
              inr (
                stays,
                refused_behind T.log_id_ord (evictable c) (evictable_down c) id rest s.0 stays,
              )
          | inr n ↦ inl n
        ])
      ]

  -- After `try_evict` on a cache whose entries are sorted, the cache is within its limits or none
  -- of its entries may be evicted.
  pub try_evict_done :
      (c : PayloadCache T)
      → IsSorted T.log_id_ord c.cache
      → (need_evict (try_evict c) ≡ false) ⊎ All (λ e. evictable c e.0 ≡ false) (try_evict c).cache
  unfolding try_evict
  try_evict_done c s = evict_while_done c c.cache s

  drain_while_done :
      (c : PayloadCache T) (m : Payloads T)
      → IsSorted T.log_id_ord m
      → All (λ e. evictable c e.0 ≡ false) (drain_while c m).cache
  unfolding drain_while evict_first evictable
  drain_while_done c [] s = tt
  drain_while_done c ((id, p) ∷ rest) s = elim (Bool-cases (evictable c id)) [
    | inl h ↦ rw h (drain_while_done (evict_first c p rest) rest s.1)
    | inr h ↦ rw h (h, refused_behind T.log_id_ord (evictable c) (evictable_down c) id rest s.0 h)
  ]

  purge_while_done :
      (c : PayloadCache T) (key : T.LogId) (m : Payloads T)
      → IsSorted T.log_id_ord m
      → All (λ e. purgeable c key e.0 ≡ false) (purge_while c key m).cache
  unfolding purge_while evict_first evictable
  purge_while_done c key [] s = tt
  purge_while_done c key ((id, p) ∷ rest) s = elim (Bool-cases (purgeable c key id)) [
    | inl h ↦ rw h (purge_while_done (evict_first c p rest) key rest s.1)
    | inr h ↦
        rw (h, insert-first T.log_id_ord id p rest s.0)
          (h, refused_behind T.log_id_ord (purgeable c key) (purgeable_down c key) id rest s.0 h)
  ]

  -- On a cache whose entries are sorted, `drain_evictable` removes exactly the entries that may be
  -- evicted: a lookup of any other key finds what it found before.
  pub get-drain_evictable :
      (c : PayloadCache T) (j : T.LogId)
      → IsSorted T.log_id_ord c.cache
      → get (drain_evictable c) j ≡ (if evictable c j then none else get c j)
  unfolding get
  get-drain_evictable c j s =
      dropped_exactly T.log_id_ord (evictable c) c.cache (drain_evictable c).cache
        (drain_evictable-Popped c s).drops (unfold drain_evictable in drain_while_done c c.cache s)
        j

  -- On a cache whose entries are sorted, `purge_upto` removes exactly the entries up to the key
  -- that may be evicted: a lookup of any other key finds what it found before.
  pub get-purge_upto :
      (c : PayloadCache T) (key j : T.LogId)
      → IsSorted T.log_id_ord c.cache
      → get (purge_upto c key) j
        ≡ (if le T.log_id_ord j key && evictable c j then none else get c j)
  unfolding get
  get-purge_upto c key j s =
      dropped_exactly T.log_id_ord (purgeable c key) c.cache (purge_upto c key).cache
        (purge_upto-Popped c key s).drops (unfold purge_upto in purge_while_done c key c.cache s) j
