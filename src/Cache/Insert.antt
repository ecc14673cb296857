-- ===== src/Cache/Insert.antt =====
-- `insert`: the entry is added, its size is counted, and the eviction loop runs.
use raft_log.Prelude.{
  ◌+◌, ◌%◌, ◌≡◌, ◌⊎◌, none, some, true, [], ◌∷◌, arith, if◌then◌else◌, false, refl,
}
use raft_log.Prelude.Ord.{lt, equal}
use raft_log.Types.{Types, u64_mod}
use raft_log.BTreeMap
use raft_log.BTreeMap.Sorted.{IsSorted, AllAbove-trans, insert-IsSorted}
use raft_log.BTreeMap.Laws.{get-insert, get-above}
use raft_log.Cache.{
  PayloadCache, Payloads, evictable, try_evict, insert, get, add_usize, need_evict, evict_while,
}
use raft_log.Cache.Loops.{Popped, total, try_evict-Popped}

module _ (T : Types) where
  total-insert :
      (key : T.LogId) (value : T.LogPayload) (m : Payloads T)
      → BTreeMap.get T.log_id_ord key m ≡ none
      → total T (BTreeMap.insert T.log_id_ord key value m) ≡ T.payload_size value + total T m
  unfolding total BTreeMap.insert BTreeMap.get
  total-insert key value [] h = omega arith
  total-insert key value ((j, w) ∷ m) h = ground (arith, total-insert key value m)

  total-insert_again :
      (key : T.LogId) (value old : T.LogPayload) (m : Payloads T)
      → IsSorted T.log_id_ord m
      → BTreeMap.get T.log_id_ord key m ≡ some old
      → total T (BTreeMap.insert T.log_id_ord key value m) + T.payload_size old
        ≡ T.payload_size value + total T m
  unfolding total BTreeMap.insert BTreeMap.get lt
  total-insert_again key value old [] s h = absurd (cc h)
  total-insert_again key value old ((j, w) ∷ m) s h = ground (
    arith,
    total-insert_again key value old m s.1,
    get-above T.log_id_ord key m,
    AllAbove-trans T.log_id_ord key j m,
  )

module _ {T : Types} where
  -- The cache that the eviction loop of `insert` starts from.
  abbrev pub inserted : PayloadCache T → T.LogId → T.LogPayload → PayloadCache T
  inserted c key value = record c {
    cache = BTreeMap.insert T.log_id_ord key value c.cache;
    size = add_usize c.size (T.payload_size value);
  }

  pub insert-Popped :
      (c : PayloadCache T) (key : T.LogId) (value : T.LogPayload)
      → IsSorted T.log_id_ord c.cache
      → Popped
          (evictable c)
          (inserted c key value).cache
          (inserted c key value)
          (insert c key value)
  unfolding insert evictable
  insert-Popped c key value s =
      try_evict-Popped (inserted c key value) (insert-IsSorted T.log_id_ord key value c.cache s)

  -- If the cache is sorted, its size is the sum of its payloads' sizes modulo 2^64, and it does not
  -- hold the key, then `insert` leaves the size equal to the sum of the payloads' sizes modulo
  -- 2^64, the evictions included.
  pub insert_sized :
      (c : PayloadCache T) (key : T.LogId) (value : T.LogPayload)
      → IsSorted T.log_id_ord c.cache
      → c.size ≡ total T c.cache % u64_mod
      → get c key ≡ none
      → (insert c key value).size ≡ total T (insert c key value).cache % u64_mod
  unfolding get
  insert_sized c key value s h fresh =
      (insert-Popped c key value s).sized (omega (arith, total-insert T key value c.cache fresh))

  -- If the cache is sorted, a lookup after `insert` finds the new payload at the key and what was
  -- there before elsewhere, or finds nothing at a key that may be evicted.
  pub insert_found :
      (c : PayloadCache T) (key : T.LogId) (value : T.LogPayload) (j : T.LogId)
      → IsSorted T.log_id_ord c.cache
      → (get (insert c key value) j ≡ (if equal T.log_id_ord j key then some value else get c j))
        ⊎ ((get (insert c key value) j ≡ none) × (evictable c j ≡ true))
  unfolding get
  insert_found c key value j s =
      ground
        (arith, (insert-Popped c key value s).drops j, get-insert T.log_id_ord j key value c.cache)

  evict_while_idle :
      (c : PayloadCache T) (m : Payloads T)
      → need_evict (record c { cache = m }) ≡ false
      → evict_while c m ≡ record c { cache = m }
  unfolding evict_while
  evict_while_idle c [] h = refl
  evict_while_idle c (e ∷ m) h = ground arith

  try_evict_idle : (c : PayloadCache T) → need_evict c ≡ false → try_evict c ≡ c
  unfolding try_evict
  try_evict_idle c h = evict_while_idle c c.cache h

  -- If the cache is sorted, its size is the sum of its payloads' sizes modulo 2^64, it holds the
  -- key already, and no eviction is due after the insert, then `insert` leaves a size that is too
  -- large by the size of the payload it replaced.
  pub insert_again_sized :
      (c : PayloadCache T) (key : T.LogId) (value old : T.LogPayload)
      → IsSorted T.log_id_ord c.cache
      → c.size ≡ total T c.cache % u64_mod
      → get c key ≡ some old
      → need_evict (inserted c key value) ≡ false
      → (insert c key value).size
        ≡ (total T (insert c key value).cache + T.payload_size old) % u64_mod
  unfolding get insert
  insert_again_sized c key value old s h held idle =
      rw (try_evict_idle (inserted c key value) idle)
        (omega (arith, total-insert_again T key value old c.cache s held))
