-- ===== src/StateMachine/Thinned.antt =====
-- Two state machines that take the same records, one of which evicts payloads meanwhile: it lacks
-- only what may be evicted.
use raft_log.Prelude.{◌≡◌, ◌⊎◌, refl, inl, Option, none, some, true, arith}
use raft_log.Prelude.Ord.{le, le_trans}
use raft_log.Types.{Types, ids, ChunkId, Segment}
use raft_log.BTreeMap
use raft_log.BTreeMap.Sorted.{IsSorted}
use raft_log.Cache
use raft_log.Cache.{PayloadCache, evictable}
use raft_log.Cache.Loops.{purge_upto-Popped}
use raft_log.Cache.Truncate.{truncate_after-Truncated}
use raft_log.Cache.Insert.{insert-Popped, insert_found}
use raft_log.State.{RaftLogAction, RaftLogRecord, action, checkpoint}
use raft_log.StateMachine.{RaftLogStateMachine, absorb}
use raft_log.StateMachine.Alike.{Unevictable, absorb-Unevictable, found_after, get-absorb}

module _ {T : Types} where
  abbrev Lacks : PayloadCache T → Option T.LogPayload → T.LogId → Type 0
  Lacks d r j = (Cache.get d j ≡ r) ⊎ ((Cache.get d j ≡ none) × (evictable d j ≡ true))

  pub record Thinned (a b : RaftLogStateMachine T) : Type 0 where
    pub here : Unevictable a.payload_cache
    pub sorted : IsSorted T.log_id_ord b.payload_cache.cache
    pub thin : (j : T.LogId) → Lacks b.payload_cache (Cache.get a.payload_cache j) j

  pub boundary-IsSorted :
      (b : RaftLogStateMachine T) (rec : RaftLogRecord T) (chunk : ChunkId) (segment : Segment)
      → IsSorted T.log_id_ord b.payload_cache.cache
      → ((absorb b rec chunk segment).payload_cache.last_evictable ≡ b.payload_cache.last_evictable)
        × IsSorted T.log_id_ord (absorb b rec chunk segment).payload_cache.cache
  unfolding absorb Cache.clear
  boundary-IsSorted b (action (RaftLogAction.append id p)) chunk segment s =
      let q = insert-Popped b.payload_cache id p s in (q.boundary, q.sorted)
  boundary-IsSorted b (action (RaftLogAction.truncate_after none)) chunk segment s = (refl, tt)
  boundary-IsSorted b (action (RaftLogAction.truncate_after (some id))) chunk segment s =
      let q = truncate_after-Truncated b.payload_cache id s in (q.boundary, q.sorted)
  boundary-IsSorted b (action (RaftLogAction.purge_upto id)) chunk segment s =
      let q = purge_upto-Popped b.payload_cache id s in (q.boundary, q.sorted)
  boundary-IsSorted b (action (RaftLogAction.save_vote vote)) chunk segment s = (refl, s)
  boundary-IsSorted b (action (RaftLogAction.commit id)) chunk segment s = (refl, s)
  boundary-IsSorted b (checkpoint state) chunk segment s = (refl, s)

  thin-absorb :
      (b : RaftLogStateMachine T) (rec : RaftLogRecord T) (chunk : ChunkId) (segment : Segment)
      (j : T.LogId) (r : Option T.LogPayload)
      → IsSorted T.log_id_ord b.payload_cache.cache
      → Lacks b.payload_cache r j
      → Lacks (absorb b rec chunk segment).payload_cache (found_after rec j r) j
  unfolding absorb found_after Cache.get Cache.clear BTreeMap.get evictable
  thin-absorb b (action (RaftLogAction.append id p)) chunk segment j r s h = ground (
    arith,
    h,
    insert_found b.payload_cache id p j s,
    (insert-Popped b.payload_cache id p s).boundary,
  )
  thin-absorb b (action (RaftLogAction.truncate_after none)) chunk segment j r s h = inl refl
  thin-absorb b (action (RaftLogAction.truncate_after (some id))) chunk segment j r s h =
      let q = truncate_after-Truncated b.payload_cache id s in
      ground (arith, h, q.found j, q.boundary)
  thin-absorb b (action (RaftLogAction.purge_upto id)) chunk segment j r s h =
      let q = purge_upto-Popped b.payload_cache id s in ground (arith, h, q.drops j, q.boundary)
  thin-absorb b (action (RaftLogAction.save_vote vote)) chunk segment j r s h = h
  thin-absorb b (action (RaftLogAction.commit id)) chunk segment j r s h = h
  thin-absorb b (checkpoint state) chunk segment j r s h = h

  pub absorb-Thinned :
      (a b : RaftLogStateMachine T) (rec : RaftLogRecord T) (chunk : ChunkId) (segment : Segment)
      → Thinned a b
      → Thinned (absorb a rec chunk segment) (absorb b rec chunk segment)
  absorb-Thinned a b rec chunk segment x = record {
    here = absorb-Unevictable a rec chunk segment x.here;
    sorted = (boundary-IsSorted b rec chunk segment x.sorted).1;
    thin = λ j.
        rw (get-absorb a rec chunk segment j x.here)
          (thin-absorb b rec chunk segment j _ x.sorted (x.thin j));
  }

  pub boundary-Thinned :
      (a b : RaftLogStateMachine T) (last : Option T.LogId)
      → le (ids T) b.payload_cache.last_evictable last ≡ true
      → Thinned a b
      → Thinned a (record b { payload_cache = Cache.set_last_evictable b.payload_cache last })
  unfolding Cache.set_last_evictable Cache.get evictable
  boundary-Thinned a b last up x = record {
    here = x.here;
    sorted = x.sorted;
    thin = λ j.
        let far = le_trans (ids T) (some j) b.payload_cache.last_evictable last in
        ground (arith, x.thin j, far, up);
  }
