-- ===== src/StateMachine/Entries.antt =====
-- The entries of the log map after a record.
use raft_log.Prelude.{none, some, All, All-keep}
use raft_log.Prelude.Ord.{u64_ord}
use raft_log.Types.{Types, ChunkId, Segment}
use raft_log.BTreeMap.{split_below, split_off}
use raft_log.BTreeMap.Sorted.{IsSorted, insert-IsSorted, keep-IsSorted, All-insert}
use raft_log.State.{RaftLogAction, RaftLogRecord, action, checkpoint}
use raft_log.StateMachine.{RaftLogStateMachine, LogData, absorb}

module _ {T : Types} where
  pub absorb-IsSorted :
      (sm : RaftLogStateMachine T) (rec : RaftLogRecord T) (c : ChunkId) (s : Segment)
      → IsSorted u64_ord sm.log
      → IsSorted u64_ord (absorb sm rec c s).log
  unfolding absorb split_below split_off
  absorb-IsSorted sm (action (RaftLogAction.append id p)) c s h =
      insert-IsSorted u64_ord (T.log_index id) _ sm.log h
  absorb-IsSorted sm (action (RaftLogAction.truncate_after none)) c s h =
      keep-IsSorted u64_ord _ sm.log h
  absorb-IsSorted sm (action (RaftLogAction.truncate_after (some id))) c s h =
      keep-IsSorted u64_ord _ sm.log h
  absorb-IsSorted sm (action (RaftLogAction.purge_upto id)) c s h = keep-IsSorted u64_ord _ sm.log h
  absorb-IsSorted sm (action (RaftLogAction.save_vote vote)) c s h = h
  absorb-IsSorted sm (action (RaftLogAction.commit id)) c s h = h
  absorb-IsSorted sm (checkpoint state) c s h = h

  -- Entries are new, with the place of the record, or were there before.
  pub absorb-All :
      (P : LogData T → Type 0) (sm : RaftLogStateMachine T) (rec : RaftLogRecord T) (c : ChunkId)
      (s : Segment)
      → ((id : T.LogId) → P (record { log_id = id; chunk_id = c; record_segment = s }))
      → All (λ e. P e.1) sm.log
      → All (λ e. P e.1) (absorb sm rec c s).log
  unfolding absorb split_below split_off
  absorb-All P sm (action (RaftLogAction.append id p)) c s h a =
      All-insert u64_ord (λ e. P e.1) (T.log_index id) _ sm.log (h id) a
  absorb-All P sm (action (RaftLogAction.truncate_after none)) c s h a = All-keep _ _ sm.log a
  absorb-All P sm (action (RaftLogAction.truncate_after (some id))) c s h a = All-keep _ _ sm.log a
  absorb-All P sm (action (RaftLogAction.purge_upto id)) c s h a = All-keep _ _ sm.log a
  absorb-All P sm (action (RaftLogAction.save_vote vote)) c s h a = a
  absorb-All P sm (action (RaftLogAction.commit id)) c s h a = a
  absorb-All P sm (checkpoint state) c s h a = a
