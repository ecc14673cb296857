-- ===== src/StateMachine/CacheInv.antt =====
-- What holds of the payload cache beside the log map: it is counted, it holds nothing past the last
-- entry, and every entry of the map that may not be evicted is in it.
use raft_log.Prelude.{◌%◌, ◌≡◌, ◌⊎◌, Option, none, some, Bool, true, All, arith, refl}
use raft_log.Prelude.Ord.{
  lt, le, equal, equal-eq, lt_self, lt_trans, le-not-lt, le-lt_trans, le_trans, lt-some, le-some,
}
use raft_log.Types.{Types, ids, u64_mod}
use raft_log.BTreeMap
use raft_log.BTreeMap.Sorted.{IsSorted}
use raft_log.Cache
use raft_log.Cache.{
  PayloadCache, evictable, get, set_last_evictable, try_evict, drain_evictable, truncate_after,
  purge_upto, clear,
}
use raft_log.Cache.Loops.{Popped, total}
use raft_log.Cache.Truncate.{Truncated}
use raft_log.Cache.Insert.{insert-Popped, insert_sized, insert_found}
use raft_log.StateMachine.{Log}

module _ {T : Types} where
  pub record CacheInv (c : PayloadCache T) (last : Option T.LogId) : Type 0 where
    pub sorted : IsSorted T.log_id_ord c.cache
    pub sized : c.size ≡ total T c.cache % u64_mod
    pub within : (j : T.LogId) → lt (ids T) last (some j) ≡ true → get c j ≡ none

  -- In the cache, or evictable, and then readable from its chunk.
  abbrev pub Covered : PayloadCache T → T.LogId → Type 0
  Covered c id = (evictable c id ≡ true) ⊎ ((p : T.LogPayload) × (get c id ≡ some p))

  abbrev pub Covers : PayloadCache T → Log T → Type 0
  Covers c log = All (λ e. Covered c e.1.log_id) log

  -- A loop that pops evictable entries keeps what it must.
  pub Popped-CacheInv :
      (q : T.LogId → Bool) (c d : PayloadCache T) (last : Option T.LogId)
      → Popped q c.cache c d
      → CacheInv c last
      → CacheInv d last
  unfolding get
  Popped-CacheInv q c d last p v = record {
    sorted = p.sorted;
    sized = p.sized v.sized;
    within = λ j h. ground (arith, p.drops j, v.within j h);
  }

  pub Popped-Covered :
      (q : T.LogId → Bool) (c d : PayloadCache T) (id : T.LogId)
      → Popped q c.cache c d
      → (q id ≡ true → evictable c id ≡ true)
      → Covered c id
      → Covered d id
  unfolding get evictable
  Popped-Covered q c d id p down h = ground (arith, p.drops id, p.boundary)

  pub append-CacheInv :
      (c : PayloadCache T) (last : Option T.LogId) (id : T.LogId) (p : T.LogPayload)
      → lt (ids T) last (some id) ≡ true
      → CacheInv c last
      → CacheInv (Cache.insert c id p) (some id)
  append-CacheInv c last id p up v = record {
    sorted = (insert-Popped c id p v.sorted).sorted;
    sized = insert_sized c id p v.sorted v.sized (v.within id up);
    within = λ j h. ground (
      arith,
      insert_found c id p j v.sorted,
      v.within j (lt_trans (ids T) last (some id) (some j) up h),
      equal-eq T.log_id_ord j id,
      lt_self (ids T) (some id),
      h,
    );
  }

  pub append-Covered :
      (c : PayloadCache T) (id j : T.LogId) (p : T.LogPayload)
      → IsSorted T.log_id_ord c.cache
      → (equal T.log_id_ord j id ≡ true) ⊎ Covered c j
      → Covered (Cache.insert c id p) j
  unfolding evictable
  append-Covered c id j p s h =
      ground (arith, insert_found c id p j s, (insert-Popped c id p s).boundary)

  pub truncate-CacheInv :
      (c d : PayloadCache T) (last : Option T.LogId) (key : T.LogId)
      → Truncated key c.cache c d
      → CacheInv c last
      → CacheInv d (some key)
  unfolding get
  truncate-CacheInv c d last key t v = record {
    sorted = t.sorted;
    sized = t.sized v.sized;
    within = λ j h. ground (arith, t.found j, lt-some T.log_id_ord key j);
  }

  pub truncate-Covered :
      (c d : PayloadCache T) (key id : T.LogId)
      → Truncated key c.cache c d
      → le (ids T) (some id) (some key) ≡ true
      → Covered c id
      → Covered d id
  unfolding get evictable
  truncate-Covered c d key id t h k =
      ground
        (arith, t.found id, t.boundary, le-some T.log_id_ord id key, le-not-lt T.log_id_ord id key)

  pub clear-CacheInv : (c : PayloadCache T) (last : Option T.LogId) → CacheInv (clear c) last
  unfolding clear get BTreeMap.get total
  clear-CacheInv c last = record { sorted = tt; sized = refl; within = λ j h. refl }

  -- Nothing is past a later last entry either.
  pub raise-CacheInv :
      (c : PayloadCache T) (last last' : Option T.LogId)
      → le (ids T) last last' ≡ true
      → CacheInv c last
      → CacheInv c last'
  raise-CacheInv c last last' up v = record {
    sorted = v.sorted;
    sized = v.sized;
    within = λ j h. v.within j (le-lt_trans (ids T) last last' (some j) up h);
  }

  pub boundary-CacheInv :
      (c : PayloadCache T) (last boundary : Option T.LogId)
      → CacheInv c last
      → CacheInv (set_last_evictable c boundary) last
  unfolding set_last_evictable get
  boundary-CacheInv c last boundary v = record {
    sorted = v.sorted;
    sized = v.sized;
    within = v.within;
  }

  -- Raising the boundary lets more be evicted and takes nothing away.
  pub boundary-Covered :
      (c : PayloadCache T) (boundary : Option T.LogId) (id : T.LogId)
      → le (ids T) c.last_evictable boundary ≡ true
      → Covered c id
      → Covered (set_last_evictable c boundary) id
  unfolding set_last_evictable get evictable
  boundary-Covered c boundary id up h =
      ground (arith, le_trans (ids T) (some id) c.last_evictable boundary)
