-- ===== src/StateMachine/Alike.antt =====
-- Two state machines from whose caches nothing may be evicted, and to which the same records are
-- applied: where they hold the same payloads they go on doing so.
use raft_log.Prelude.{
  ◌≡◌, ◌∙◌, refl, sym, false, Option, none, some, All, All-imp, All-keep, arith, if◌then◌else◌,
}
use raft_log.Prelude.Ord.{lt, equal, equal_self, not-le-none, u64_ord}
use raft_log.Types.{Types, ChunkId, Segment}
use raft_log.BTreeMap
use raft_log.BTreeMap.{split_below, split_off}
use raft_log.BTreeMap.Sorted
use raft_log.BTreeMap.Sorted.{All-insert}
use raft_log.State.{RaftLogAction, RaftLogRecord, action, checkpoint}
use raft_log.Cache
use raft_log.Cache.{PayloadCache, evictable}
use raft_log.Cache.Loops.{purge_upto-Popped}
use raft_log.Cache.Exact.{get-purge_upto}
use raft_log.Cache.Insert.{insert_found, insert-Popped}
use raft_log.Cache.Truncate.{truncate_after-Truncated}
use raft_log.StateMachine.{RaftLogStateMachine, LogData, absorb}

module _ {T : Types} where
  -- A cache in order, from which nothing may be evicted.
  pub record Unevictable (c : PayloadCache T) : Type 0 where
    pub sorted : BTreeMap.Sorted.IsSorted T.log_id_ord c.cache
    pub lone : c.last_evictable ≡ none

  stays : (c : PayloadCache T) (j : T.LogId) → Unevictable c → evictable c j ≡ false
  unfolding evictable
  stays c j u = rw u.lone (not-le-none T.log_id_ord j)

  pub absorb-Unevictable :
      (sm : RaftLogStateMachine T) (rec : RaftLogRecord T) (chunk : ChunkId) (segment : Segment)
      → Unevictable sm.payload_cache
      → Unevictable (absorb sm rec chunk segment).payload_cache
  unfolding absorb Cache.clear
  absorb-Unevictable sm (action (RaftLogAction.append id p)) chunk segment u =
      let q = insert-Popped sm.payload_cache id p u.sorted in
      record { sorted = q.sorted; lone = q.boundary ∙ u.lone }
  absorb-Unevictable sm (action (RaftLogAction.truncate_after none)) chunk segment u = record {
    sorted = tt;
    lone = u.lone;
  }
  absorb-Unevictable sm (action (RaftLogAction.truncate_after (some id))) chunk segment u =
      let q = truncate_after-Truncated sm.payload_cache id u.sorted in
      record { sorted = q.sorted; lone = q.boundary ∙ u.lone }
  absorb-Unevictable sm (action (RaftLogAction.purge_upto id)) chunk segment u =
      let q = purge_upto-Popped sm.payload_cache id u.sorted in
      record { sorted = q.sorted; lone = q.boundary ∙ u.lone }
  absorb-Unevictable sm (action (RaftLogAction.save_vote vote)) chunk segment u = u
  absorb-Unevictable sm (action (RaftLogAction.commit id)) chunk segment u = u
  absorb-Unevictable sm (checkpoint state) chunk segment u = u

  -- What a lookup finds after a record, by what it found before.
  unfoldable pub found_after : RaftLogRecord T → T.LogId → Option T.LogPayload → Option T.LogPayload
  found_after (action (RaftLogAction.append id p)) j r =
      if equal T.log_id_ord j id then some p else r
  found_after (action (RaftLogAction.truncate_after none)) j r = none
  found_after (action (RaftLogAction.truncate_after (some id))) j r =
      if lt T.log_id_ord id j then none else r
  found_after _ j r = r

  pub get-absorb :
      (sm : RaftLogStateMachine T) (rec : RaftLogRecord T) (chunk : ChunkId) (segment : Segment)
      (j : T.LogId)
      → Unevictable sm.payload_cache
      → Cache.get (absorb sm rec chunk segment).payload_cache j
        ≡ found_after rec j (Cache.get sm.payload_cache j)
  unfolding absorb found_after Cache.get Cache.clear BTreeMap.get
  get-absorb sm (action (RaftLogAction.append id p)) chunk segment j u =
      ground (arith, insert_found sm.payload_cache id p j u.sorted, stays sm.payload_cache j u)
  get-absorb sm (action (RaftLogAction.truncate_after none)) chunk segment j u = refl
  get-absorb sm (action (RaftLogAction.truncate_after (some id))) chunk segment j u =
      (truncate_after-Truncated sm.payload_cache id u.sorted).found j
  get-absorb sm (action (RaftLogAction.purge_upto id)) chunk segment j u =
      ground (arith, get-purge_upto sm.payload_cache id j u.sorted, stays sm.payload_cache j u)
  get-absorb sm (action (RaftLogAction.save_vote vote)) chunk segment j u = refl
  get-absorb sm (action (RaftLogAction.commit id)) chunk segment j u = refl
  get-absorb sm (checkpoint state) chunk segment j u = refl

  -- The caches agree on an entry.
  abbrev pub Agrees : PayloadCache T → PayloadCache T → LogData T → Type 0
  Agrees c c' d = Cache.get c d.log_id ≡ Cache.get c' d.log_id

  pub record Alike (a b : RaftLogStateMachine T) : Type 0 where
    pub here : Unevictable a.payload_cache
    pub there : Unevictable b.payload_cache
    pub agree : All (λ e. Agrees b.payload_cache a.payload_cache e.1) b.log

  agree-absorb :
      (a b : RaftLogStateMachine T) (rec : RaftLogRecord T) (chunk : ChunkId) (segment : Segment)
      → Alike a b
      → All
          (λ e.
            found_after rec e.1.log_id (Cache.get b.payload_cache e.1.log_id)
            ≡ found_after rec e.1.log_id (Cache.get a.payload_cache e.1.log_id))
          (absorb b rec chunk segment).log
  unfolding absorb split_below split_off found_after
  agree-absorb a b (action (RaftLogAction.append id p)) chunk segment x =
      All-insert u64_ord _ (T.log_index id) _ b.log (ground (arith, equal_self T.log_id_ord id))
        (All-imp (λ e h. ground (arith, h)) b.log x.agree)
  agree-absorb a b (action (RaftLogAction.truncate_after none)) chunk segment x =
      All-keep _ _ b.log (All-imp (λ e h. refl) b.log x.agree)
  agree-absorb a b (action (RaftLogAction.truncate_after (some id))) chunk segment x =
      All-keep _ _ b.log (All-imp (λ e h. ground (arith, h)) b.log x.agree)
  agree-absorb a b (action (RaftLogAction.purge_upto id)) chunk segment x =
      All-keep _ _ b.log x.agree
  agree-absorb a b (action (RaftLogAction.save_vote vote)) chunk segment x = x.agree
  agree-absorb a b (action (RaftLogAction.commit id)) chunk segment x = x.agree
  agree-absorb a b (checkpoint state) chunk segment x = x.agree

  pub absorb-Alike :
      (a b : RaftLogStateMachine T) (rec : RaftLogRecord T) (chunk : ChunkId) (segment : Segment)
      → Alike a b
      → Alike (absorb a rec chunk segment) (absorb b rec chunk segment)
  absorb-Alike a b rec chunk segment x = record {
    here = absorb-Unevictable a rec chunk segment x.here;
    there = absorb-Unevictable b rec chunk segment x.there;
    agree =
        All-imp
          (λ e h.
            get-absorb b rec chunk segment e.1.log_id x.there
            ∙ h
            ∙ sym (get-absorb a rec chunk segment e.1.log_id x.here))
          (absorb b rec chunk segment).log (agree-absorb a b rec chunk segment x);
  }
