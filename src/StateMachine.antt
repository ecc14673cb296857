-- ===== src/StateMachine.antt =====
-- src/raft_log/state_machine/mod.rs and src/raft_log/log_data.rs: the log map, the payload cache and
-- the state, and how a record changes the three.
pub mod Chain
pub mod Inv
pub mod CacheInv
pub mod Entries
pub mod Alike
pub mod Thinned
pub mod Keeps
pub mod Checkpoint
use raft_log.Prelude.{
  ℕ, Option, none, some, Bool, [], Outcome, ok, err, panic, Method, ◌==◌, ◌&&◌, if◌then◌else◌,
}
use raft_log.Prelude.Ord.{lt, equal, u64_ord}
use raft_log.Types.{Types, ids, next_log_index, ChunkId, Segment}
use raft_log.Errors.{RaftLogStateError, checkpoint_log_mismatch}
use raft_log.Config
use raft_log.Config.{Config}
use raft_log.BTreeMap
use raft_log.BTreeMap.{BTreeMap}
use raft_log.State
use raft_log.State.{
  RaftLogState, RaftLogRecord, action, checkpoint, save_vote, append, commit, truncate_after,
  purge_upto, default_state, Checked,
}
use raft_log.Cache
use raft_log.Cache.{PayloadCache}

pub record LogData (T : Types) : Type 0 where
  pub log_id : T.LogId
  pub chunk_id : ChunkId
  pub record_segment : Segment

abbrev pub Log : Types → Type 0
Log T = BTreeMap ℕ (LogData T)

pub record RaftLogStateMachine (T : Types) : Type 0 where
  pub log : Log T
  pub payload_cache : PayloadCache T
  pub log_state : RaftLogState T

module _ {T : Types} where
  unfoldable pub new : {C : Type 0} → Config C → RaftLogStateMachine T
  unfolding Config.max_items Config.capacity
  new config = record {
    log = [];
    payload_cache = Cache.new (Config.max_items config) (Config.capacity config);
    log_state = default_state;
  }

  unfoldable pub check : RaftLogStateMachine T → RaftLogRecord T → Checked T
  check sm rec = State.check sm.log_state rec

  -- A checkpoint must describe the entries in the map: the first lies right after `purged`, and the
  -- last is `last`. An empty map matches any state.
  unfoldable pub check_checkpoint : RaftLogStateMachine T → RaftLogState T → Checked T
  check_checkpoint sm state = elim (BTreeMap.first_key_value sm.log) [
    | none ↦ ok tt
    | some (_, first) ↦ elim (BTreeMap.last_key_value sm.log) [
      | none ↦ panic
      | some (_, last) ↦
          let starts_at_right_index = T.log_index first.log_id == next_log_index T state.purged in
          let starts_above_purged = lt (ids T) state.purged (some first.log_id) in
          let ends_at_last = equal (ids T) (some last.log_id) state.last in
          if starts_at_right_index && starts_above_purged && ends_at_last
          then ok tt
          else err (
              checkpoint_log_mismatch (record {
                first = first.log_id;
                last = last.log_id;
                purged = state.purged;
                declared_last = state.last;
              }))
    ]
  ]

  -- What `apply` does to the log map and the cache before it turns to the state.
  unfoldable pub absorb :
      RaftLogStateMachine T → RaftLogRecord T → ChunkId → Segment → RaftLogStateMachine T
  absorb sm (action (save_vote _)) chunk_id segment = sm
  absorb sm (action (append log_id payload)) chunk_id segment = record sm {
    log =
        BTreeMap.insert u64_ord (T.log_index log_id)
          (record { log_id = log_id; chunk_id = chunk_id; record_segment = segment }) sm.log;
    payload_cache = Cache.insert sm.payload_cache log_id payload;
  }
  absorb sm (action (commit _)) chunk_id segment = sm
  absorb sm (action (truncate_after (some log_id))) chunk_id segment = record sm {
    log = BTreeMap.split_below u64_ord (next_log_index T (some log_id)) sm.log;
    payload_cache = Cache.truncate_after sm.payload_cache log_id;
  }
  absorb sm (action (truncate_after none)) chunk_id segment = record sm {
    log = BTreeMap.split_below u64_ord (next_log_index T none) sm.log;
    payload_cache = Cache.clear sm.payload_cache;
  }
  absorb sm (action (purge_upto log_id)) chunk_id segment = record sm {
    log = BTreeMap.split_off u64_ord (next_log_index T (some log_id)) sm.log;
    payload_cache = Cache.purge_upto sm.payload_cache log_id;
  }
  absorb sm (checkpoint _) chunk_id segment = sm

  -- `StateMachine::apply`. The map and the cache have changed even if the state refuses the record.
  unfoldable pub apply :
      RaftLogRecord T
      → ChunkId
      → Segment
      → Method (RaftLogStateError T) (RaftLogStateMachine T) (Unit {0})
  apply rec chunk_id segment sm =
      let changed = absorb sm rec chunk_id segment in
      let (state, outcome) = State.apply rec changed.log_state in
      (record changed { log_state = state }, outcome)

  -- `StateMachine::checkpoint`, the state as a record's content.
  abbrev pub checkpoint_of : RaftLogStateMachine T → RaftLogState T
  checkpoint_of sm = sm.log_state
