-- ===== src/RaftLog.antt =====
-- src/raft_log/raft_log.rs, with the trait of src/api/raft_log_writer.rs and the counters of
-- src/raft_log/access_state.rs: the store. A method returns the store beside its outcome. Logging
-- is not modelled.
pub mod Write
pub mod Safe
pub mod Run
pub mod Read
pub mod Removal
pub mod Open
pub mod Places
pub mod Refines
pub mod Serves
pub mod Kept
pub mod History
pub mod Steps
pub mod FairSteps
pub mod Mirror
pub mod Twin
pub mod SideBySide
pub mod Origins
pub mod Evicting
pub mod Reread
pub mod Restart
pub mod Cleared
pub mod Steady
pub mod Advances
pub mod Crash
pub mod Blocking
pub mod Durable
pub mod Survives
pub mod Reduced
pub mod Reopen
pub mod Recorded
pub mod RoundTrip
use raft_log.Prelude.{
  ℕ, zero, suc, ◌+◌, ◌%◌, Option, none, some, Bool, true, false, not, ◌&&◌, List, [], ◌∷◌, ◌++◌,
  map, Outcome, ok, err, panic, Method, return, settle, resume, map_err, ◌>>=◌, ◌>>◌, ltb, ◌==◌,
  if◌then◌else◌,
}
use raft_log.Prelude.Ord.{le, u64_ord}
use raft_log.Types.{Types, ids, next_log_index, ChunkId, Segment, u64_mod}
use raft_log.Errors.{IoError, invalid_input, log_index_not_found, RaftLogStateError}
use raft_log.Config.{Config}
use raft_log.BTreeMap
use raft_log.State.{RaftLogState, RaftLogAction, RaftLogRecord, action, checkpoint}
use raft_log.Cache
use raft_log.Cache.{PayloadCache}
use raft_log.StateMachine
use raft_log.StateMachine.{RaftLogStateMachine, LogData, checkpoint_of}
use raft_log.Wal.{Wal}

pub record RaftLog (T : Types) (W : Wal T) : Type 0 where
  pub config : Config W.WalConfig
  pub wal : W.Store
  pub state_machine : RaftLogStateMachine T
  pub removed_chunks : List ChunkId
  pub cache_hit : ℕ
  pub cache_miss : ℕ

abbrev pub is_some : {A : Type 0} → Option A → Bool
is_some none = false
is_some (some a) = true

abbrev pub is_empty : {A : Type 0} → List A → Bool
is_empty [] = true
is_empty (a ∷ l) = false

-- The payload of a record that must be an append; any other panics.
unfoldable pub appended_payload :
    {T : Types} (log_id : T.LogId) → RaftLogRecord T → Outcome (IoError T) (T.LogId × T.LogPayload)
appended_payload log_id (action (RaftLogAction.append _ payload)) = ok (log_id, payload)
appended_payload log_id (action _) = panic
appended_payload log_id (checkpoint _) = panic

abbrev pub is_panic : {E A : Type 0} → Outcome E A → Bool
is_panic (ok a) = false
is_panic (err e) = false
is_panic panic = true

module _ {T : Types} where
  -- The callback that `open` gives the WAL, which is called when a chunk's file is synced, with the
  -- checkpoint that the chunk before it ended with. It holds the cache that the state machine has,
  -- during the replay as later from the flush worker.
  abbrev pub set_boundary : Option (RaftLogState T) → RaftLogStateMachine T → RaftLogStateMachine T
  set_boundary none sm = sm
  set_boundary (some prev_chunk_checkpoint) sm = record sm {
    payload_cache = Cache.set_last_evictable sm.payload_cache prev_chunk_checkpoint.last;
  }

module _ {T : Types} {W : Wal T} where
  -- A call on the WAL, or on the state machine, as a step of a method of the store.
  abbrev pub on_wal :
      {A : Type 0} → Method (IoError T) W.Store A → Method (IoError T) (RaftLog T W) A
  on_wal m rl = let (w, r) = m rl.wal in (record rl { wal = w }, r)

  abbrev pub on_state_machine :
      {A : Type 0}
      → Method (RaftLogStateError T) (RaftLogStateMachine T) A
      → Method (IoError T) (RaftLog T W) A
  on_state_machine m rl =
      let (sm, r) = m rl.state_machine in
      (record rl { state_machine = sm }, map_err invalid_input r)

  abbrev pub log_state : RaftLog T W → RaftLogState T
  log_state rl = rl.state_machine.log_state

  abbrev pub last_segment : Method (IoError T) (RaftLog T W) Segment
  last_segment rl = return (W.last_segment rl.wal) rl

  unfoldable pub buffer_removable_chunks : RaftLog T W → RaftLog T W
  buffer_removable_chunks rl = elim rl.state_machine.log_state.purged [
    | none ↦ rl
    | some purged ↦
        let (w, chunk_ids) =
          W.drain_closed_chunks_while (λ state. le (ids T) state.last (some purged)) rl.wal in
        record rl { wal = w; removed_chunks = rl.removed_chunks ++ chunk_ids }
  ]

  -- `if closed.is_some() { self.buffer_removable_chunks(); }`
  unfoldable pub after_close : Option ChunkId → Method (IoError T) (RaftLog T W) (Unit {0})
  after_close closed rl = return tt (if is_some closed then buffer_removable_chunks rl else rl)

  unfoldable pub append_and_apply : RaftLogRecord T → Method (IoError T) (RaftLog T W) Segment
  unfolding after_close
  append_and_apply rec = do
    λ rl. settle (map_err invalid_input (StateMachine.check rl.state_machine rec)) rl
    on_wal (W.append rec)
    λ rl.
        on_state_machine (StateMachine.apply rec (W.open_chunk_id rl.wal) (W.last_segment rl.wal))
          rl
    closed ← λ rl. on_wal (W.try_close_full_chunk (checkpoint_of rl.state_machine)) rl
    after_close closed
    last_segment

  unfoldable pub save_user_data : Option T.UserData → Method (IoError T) (RaftLog T W) Segment
  save_user_data user_data rl =
      append_and_apply
        (checkpoint (record (checkpoint_of rl.state_machine) { user_data = user_data })) rl

  unfoldable pub save_vote : T.Vote → Method (IoError T) (RaftLog T W) Segment
  save_vote vote = append_and_apply (action (RaftLogAction.save_vote vote))

  -- An entry that is refused ends the batch; the entries before it stay appended.
  unfoldable pub append : List (T.LogId × T.LogPayload) → Method (IoError T) (RaftLog T W) Segment
  append [] = last_segment
  append ((log_id, payload) ∷ entries) = do
    append_and_apply (action (RaftLogAction.append log_id payload))
    append entries

  unfoldable pub get_log_id : RaftLog T W → ℕ → Outcome (RaftLogStateError T) T.LogId
  get_log_id rl index = elim (BTreeMap.get u64_ord index rl.state_machine.log) [
    | none ↦ err (log_index_not_found (record { index = index }))
    | some entry ↦ ok entry.log_id
  ]

  -- `index.checked_sub(1)`, and a truncation after the entry at the index before.
  unfoldable pub truncate_before : ℕ → Method (IoError T) (RaftLog T W) Segment
  truncate_before zero = settle (err (invalid_input (log_index_not_found (record { index = 0 }))))
  truncate_before (suc prev_index) = do
    log_id ← λ rl. settle (map_err invalid_input (get_log_id rl prev_index)) rl
    append_and_apply (action (RaftLogAction.truncate_after (some log_id)))

  unfoldable pub truncate : ℕ → Method (IoError T) (RaftLog T W) Segment
  unfolding truncate_before
  truncate index rl =
      let purged = rl.state_machine.log_state.purged in
      if index == next_log_index T purged
      then append_and_apply (action (RaftLogAction.truncate_after purged)) rl
      else truncate_before index rl

  unfoldable pub purge : T.LogId → Method (IoError T) (RaftLog T W) Segment
  purge upto rl =
      if ltb (T.log_index upto) (next_log_index T rl.state_machine.log_state.purged)
      then last_segment rl
      else (append_and_apply (action (RaftLogAction.purge_upto upto)) >>= λ res rl'.
            return res (buffer_removable_chunks rl'))
          rl

  unfoldable pub commit : T.LogId → Method (IoError T) (RaftLog T W) Segment
  commit log_id = append_and_apply (action (RaftLogAction.commit log_id))

  -- The chunks to remove are handed over behind a sync, and only then.
  unfoldable pub remove_after_sync : Bool → Method (IoError T) (RaftLog T W) (Unit {0})
  remove_after_sync sync rl =
      if sync && not (is_empty rl.removed_chunks)
      then on_wal (W.send_remove_chunks rl.removed_chunks) (record rl { removed_chunks = [] })
      else return tt rl

  unfoldable pub flush : Bool → Option W.Callback → Method (IoError T) (RaftLog T W) (Unit {0})
  unfolding remove_after_sync
  flush sync callback = do on_wal (W.send_pending sync callback); remove_after_sync sync

  unfoldable pub update_state : RaftLogState T → Method (IoError T) (RaftLog T W) Segment
  update_state state = do
    λ rl. settle (map_err invalid_input (StateMachine.check_checkpoint rl.state_machine state)) rl
    append_and_apply (checkpoint state)

  abbrev pub on_cache : (PayloadCache T → PayloadCache T) → RaftLog T W → RaftLog T W
  on_cache f rl = record rl {
    state_machine = record rl.state_machine { payload_cache = f rl.state_machine.payload_cache };
  }

  unfoldable pub drain_cache_evictable : RaftLog T W → RaftLog T W
  drain_cache_evictable = on_cache Cache.drain_evictable

  unfoldable pub on_chunk_persisted : Option (RaftLogState T) → RaftLog T W → RaftLog T W
  on_chunk_persisted none rl = rl
  on_chunk_persisted (some prev_chunk_checkpoint) rl = record rl {
    state_machine = set_boundary (some prev_chunk_checkpoint) rl.state_machine;
  }

  -- The WAL replays its records into a fresh state machine; the first refusal fails the open.
  unfoldable pub open_log : Config W.WalConfig → Outcome (IoError T) (RaftLog T W)
  open_log config =
      let (sm, opened) =
        W.open_wal config.wal
          (λ rec chunk segment sm.
            let (sm', r) = StateMachine.apply rec chunk segment sm in
            (sm', map_err invalid_input r))
          set_boundary (StateMachine.new config) in
      elim opened [
        | ok wal ↦ ok (
            buffer_removable_chunks (record {
              config = config;
              wal = wal;
              state_machine = sm;
              removed_chunks = [];
              cache_hit = 0;
              cache_miss = 0;
            }))
        | err e ↦ err e
        | panic ↦ panic
      ]

  -- One item of `read`: from the cache, or else from the WAL, with the counter that goes with it.
  unfoldable pub read_entry : LogData T → Method (IoError T) (RaftLog T W) (T.LogId × T.LogPayload)
  unfolding appended_payload
  read_entry entry rl = elim (Cache.get rl.state_machine.payload_cache entry.log_id) [
    | some payload ↦
        (record rl { cache_hit = (rl.cache_hit + 1) % u64_mod }, ok (entry.log_id, payload))
    | none ↦ (
      record rl { cache_miss = (rl.cache_miss + 1) % u64_mod },
      elim (W.load_record rl.wal entry.chunk_id entry.record_segment) [
        | ok rec ↦ appended_payload entry.log_id rec
        | err e ↦ err e
        | panic ↦ panic
      ],
    )
  ]

  -- The iterator of `read`, run to its end. A panic ends it: what it unwound from is the last item.
  unfoldable pub read_entries :
      List (LogData T)
      → RaftLog T W
      → RaftLog T W × List (Outcome (IoError T) (T.LogId × T.LogPayload))
  read_entries [] rl = (rl, [])
  read_entries (entry ∷ rest) rl =
      let (rl', item) = read_entry entry rl in
      let (rl'', items) = read_entries rest rl' in
      if is_panic item then (rl', item ∷ []) else (rl'', item ∷ items)

  unfoldable pub read :
      ℕ → ℕ → Method (IoError T) (RaftLog T W) (List (Outcome (IoError T) (T.LogId × T.LogPayload)))
  unfolding read_entries
  read from to rl = elim (BTreeMap.range u64_ord {E = IoError T} from to rl.state_machine.log) [
    | ok entries ↦ let (rl', items) = read_entries (BTreeMap.values entries) rl in (rl', ok items)
    | err e ↦ (rl, err e)
    | panic ↦ (rl, panic)
  ]

  unfoldable pub on_disk_size : RaftLog T W → ℕ
  on_disk_size rl = W.on_disk_size rl.wal
