-- ===== src/StateMachine/Keeps.antt =====
-- Every accepted record keeps the invariant of the state machine: the map, the state and the cache
-- go on describing one log.
use raft_log.Prelude.{
  ◌≡◌, ◌∙◌, inl, inr, Option, none, some, true, All-imp, All-keep, All-and, arith, refl, ap, ok,
}
use raft_log.Prelude.Ord.{le, le_self, le_of_lt, le-not-lt, not-le-none, equal_self, u64_ord}
use raft_log.Types.{Types, ids, InRange, next_log_index, ChunkId, Segment}
use raft_log.BTreeMap.{split_below, split_off}
use raft_log.State
use raft_log.State.{
  RaftLogState, RaftLogRecord, action, checkpoint, save_vote, append, commit, truncate_after,
  purge_upto, advance, check_append, check_commit, check_truncate, truncate_state, purge_state,
}
use raft_log.State.Order.{apply-outcome}
use raft_log.BTreeMap.Sorted.{All-insert}
use raft_log.Cache
use raft_log.Cache.{PayloadCache, clear}
use raft_log.Cache.Loops.{purge_upto-Popped, purgeable}
use raft_log.Cache.Truncate.{truncate_after-Truncated}
use raft_log.StateMachine.{RaftLogStateMachine, LogData, check, absorb, apply}
use raft_log.StateMachine.Inv.{LogInv, restate, entries_upto_last}
use raft_log.StateMachine.Inv.Append.{append-LogInv, check_append_facts}
use raft_log.StateMachine.Inv.Truncate.{Keepable, truncate-LogInv, truncate_last}
use raft_log.StateMachine.Inv.Purge.{Purgeable, purge-LogInv}
use raft_log.StateMachine.CacheInv.{
  CacheInv, Covered, Covers, append-CacheInv, append-Covered, truncate-CacheInv, truncate-Covered,
  clear-CacheInv, Popped-CacheInv, Popped-Covered, raise-CacheInv,
}

module _ {T : Types} where
  pub record SmInv (sm : RaftLogStateMachine T) : Type 0 where
    pub log : LogInv sm.log sm.log_state
    pub cache : CacheInv sm.payload_cache sm.log_state.last
    pub covers : Covers sm.payload_cache sm.log

  -- What the caller sees to beside the check: indexes below the largest one, a truncation to an
  -- entry of the log or to the purge point, a purge point that does not conflict with the log, and
  -- a checkpoint that describes the log and the cache.
  abbrev pub Admissible : RaftLogStateMachine T → RaftLogRecord T → Type 0
  Admissible sm (action (save_vote _)) = Unit
  Admissible sm (action (append id _)) = InRange T id
  Admissible sm (action (commit _)) = Unit
  Admissible sm (action (truncate_after upto)) = Keepable sm.log sm.log_state.purged upto
  Admissible sm (action (purge_upto id)) = Purgeable sm.log sm.log_state id
  Admissible sm (checkpoint state) = LogInv sm.log state × CacheInv sm.payload_cache state.last

  -- What an accepted record makes of the state machine.
  abbrev pub changed :
      RaftLogStateMachine T → RaftLogRecord T → ChunkId → Segment → RaftLogStateMachine T
  changed sm rec chunk segment = record (absorb sm rec chunk segment) {
    log_state = advance sm.log_state rec;
  }

  pub absorb-log_state :
      (sm : RaftLogStateMachine T) (rec : RaftLogRecord T) (chunk : ChunkId) (segment : Segment)
      → (absorb sm rec chunk segment).log_state ≡ sm.log_state
  unfolding absorb
  absorb-log_state sm (action (truncate_after none)) chunk segment = refl
  absorb-log_state sm (action (truncate_after (some id))) chunk segment = refl
  absorb-log_state sm (action _) chunk segment = refl
  absorb-log_state sm (checkpoint state) chunk segment = refl

  -- An accepted record is applied in full, and `apply` reports what `check` does.
  pub apply_accepted :
      (sm : RaftLogStateMachine T) (rec : RaftLogRecord T) (chunk : ChunkId) (segment : Segment)
      → check sm rec ≡ ok tt
      → apply rec chunk segment sm ≡ (changed sm rec chunk segment, ok tt)
  unfolding apply check State.apply
  apply_accepted sm rec chunk segment h = ground (arith, absorb-log_state sm rec chunk segment)

  -- Applying a record to the state machine reports exactly what checking it beforehand reports,
  -- although the map and the cache have changed by then.
  pub apply-check :
      (sm : RaftLogStateMachine T) (rec : RaftLogRecord T) (chunk : ChunkId) (segment : Segment)
      → (apply rec chunk segment sm).1 ≡ check sm rec
  unfolding apply check
  apply-check sm rec chunk segment =
      apply-outcome rec (absorb sm rec chunk segment).log_state
      ∙ ap (λ st. State.check st rec) (absorb-log_state sm rec chunk segment)

  append-SmInv :
      (sm : RaftLogStateMachine T) (id : T.LogId) (p : T.LogPayload) (chunk : ChunkId)
      (segment : Segment)
      → SmInv sm
      → InRange T id
      → check_append sm.log_state id ≡ ok tt
      → SmInv (changed sm (action (append id p)) chunk segment)
  unfolding absorb advance
  append-SmInv sm id p chunk segment v r h =
      let d : LogData T = record { log_id = id; chunk_id = chunk; record_segment = segment } in
      let up = (check_append_facts sm.log_state id h).0 in
      record {
        log = append-LogInv sm.log sm.log_state id d v.log r refl h;
        cache = append-CacheInv sm.payload_cache sm.log_state.last id p up v.cache;
        covers =
            All-insert u64_ord (λ e. Covered (Cache.insert sm.payload_cache id p) e.1.log_id)
              (T.log_index id) d sm.log
              (append-Covered sm.payload_cache id id p v.cache.sorted
                (inl (equal_self T.log_id_ord id)))
              (All-imp
                (λ e c. append-Covered sm.payload_cache id e.1.log_id p v.cache.sorted (inr c))
                sm.log v.covers);
      }

  truncate-SmInv :
      (sm : RaftLogStateMachine T) (upto : Option T.LogId) (chunk : ChunkId) (segment : Segment)
      → SmInv sm
      → Keepable sm.log sm.log_state.purged upto
      → check_truncate sm.log_state upto ≡ ok tt
      → SmInv (changed sm (action (truncate_after upto)) chunk segment)
  unfolding absorb advance
  truncate-SmInv sm none chunk segment v k h =
      let log = truncate-LogInv sm.log sm.log_state none v.log k h in
      let ends = truncate_last sm.log sm.log_state none v.log k in
      record {
        log = log;
        cache = clear-CacheInv sm.payload_cache _;
        covers =
            All-imp (λ e b. absurd (ground (arith, b, ends, not-le-none T.log_id_ord e.1.log_id)))
              (split_below u64_ord (next_log_index T none) sm.log) (entries_upto_last _ _ log);
      }
  truncate-SmInv sm (some key) chunk segment v k h =
      let log = truncate-LogInv sm.log sm.log_state (some key) v.log k h in
      let t = truncate_after-Truncated sm.payload_cache key v.cache.sorted in
      let ends = truncate_last sm.log sm.log_state (some key) v.log k in
      let kept = split_below u64_ord (next_log_index T (some key)) sm.log in
      let before : Covers sm.payload_cache kept =
        unfold split_below in
        All-keep (λ e. Covered sm.payload_cache e.1.log_id) _ sm.log v.covers in
      record {
        log = log;
        cache = rw ends (truncate-CacheInv sm.payload_cache _ sm.log_state.last key t v.cache);
        covers =
            All-imp
              (λ e b. truncate-Covered sm.payload_cache _ key e.1.log_id t (rw ends at (b.0)) b.1)
              kept (All-and _ _ kept (entries_upto_last _ _ log) before);
      }

  purge_up :
      (st : RaftLogState T) (id : T.LogId) → le (ids T) st.last (purge_state st id).last ≡ true
  unfolding purge_state
  purge_up st id = ground (arith, le_self (ids T) st.last, le_of_lt (ids T) st.last (some id))

  purge-SmInv :
      (sm : RaftLogStateMachine T) (id : T.LogId) (chunk : ChunkId) (segment : Segment)
      → SmInv sm
      → Purgeable sm.log sm.log_state id
      → SmInv (changed sm (action (purge_upto id)) chunk segment)
  unfolding absorb advance
  purge-SmInv sm id chunk segment v p =
      let popped = purge_upto-Popped sm.payload_cache id v.cache.sorted in
      let last' = (purge_state sm.log_state id).last in
      record {
        log = purge-LogInv sm.log sm.log_state id v.log p;
        cache = Popped-CacheInv _ sm.payload_cache _ last' popped (
            raise-CacheInv sm.payload_cache sm.log_state.last last' (purge_up sm.log_state id)
              v.cache);
        covers =
            All-imp
              (λ e c.
                Popped-Covered (purgeable sm.payload_cache id) sm.payload_cache _ e.1.log_id popped
                  (λ q. ground arith) c)
              (split_off u64_ord (next_log_index T (some id)) sm.log)
              (unfold split_off in All-keep _ _ sm.log v.covers);
      }

  commit-SmInv :
      (sm : RaftLogStateMachine T) (id : T.LogId) (chunk : ChunkId) (segment : Segment)
      → SmInv sm
      → check_commit sm.log_state id ≡ ok tt
      → SmInv (changed sm (action (commit id)) chunk segment)
  unfolding absorb advance check_commit
  commit-SmInv sm id chunk segment v h = record {
    log =
        restate sm.log sm.log_state _ v.log refl refl
          (ground (arith, le-not-lt (ids T) (some id) sm.log_state.last));
    cache = v.cache;
    covers = v.covers;
  }

  changed-SmInv :
      (sm : RaftLogStateMachine T) (rec : RaftLogRecord T) (chunk : ChunkId) (segment : Segment)
      → SmInv sm
      → Admissible sm rec
      → check sm rec ≡ ok tt
      → SmInv (changed sm rec chunk segment)
  unfolding check State.check
  changed-SmInv sm (action (append id p)) chunk segment v a h =
      append-SmInv sm id p chunk segment v a h
  changed-SmInv sm (action (commit id)) chunk segment v a h = commit-SmInv sm id chunk segment v h
  changed-SmInv sm (action (truncate_after upto)) chunk segment v a h =
      truncate-SmInv sm upto chunk segment v a h
  changed-SmInv sm (action (purge_upto id)) chunk segment v a h =
      purge-SmInv sm id chunk segment v a
  changed-SmInv sm (action (save_vote vote)) chunk segment v a h =
      unfold absorb advance in
      record {
        log = restate sm.log sm.log_state _ v.log refl refl v.log.ordered.committed_le;
        cache = v.cache;
        covers = v.covers;
      }
  changed-SmInv sm (checkpoint state) chunk segment v a h =
      unfold absorb advance in record { log = a.0; cache = a.1; covers = v.covers }

  -- Applying a record that the check accepts and that is `Admissible` keeps the invariant of the
  -- state machine, the one that `IsSound` states of a store. Admissible is: an appended log id is
  -- below the largest index, a truncation goes to the purge point or to an entry of the map, a
  -- purge point agrees with the order of the entries, and a checkpoint's state satisfies the
  -- invariant beside the log map and the cache.
  pub apply-SmInv :
      (sm : RaftLogStateMachine T) (rec : RaftLogRecord T) (chunk : ChunkId) (segment : Segment)
      → SmInv sm
      → Admissible sm rec
      → check sm rec ≡ ok tt
      → SmInv (apply rec chunk segment sm).0
  apply-SmInv sm rec chunk segment v a h =
      rw (apply_accepted sm rec chunk segment h) (changed-SmInv sm rec chunk segment v a h)
