-- ===== src/Wal.antt =====
-- The crate `chunked_wal`, which the store writes to and which is not part of this repository: its
-- operations are a parameter. `src/api/wal.rs`, `wal_types.rs` and `state_machine.rs` re-export it.
pub mod Laws
use raft_log.Prelude.{ℕ, Option, Bool, List, Outcome, Method}
use raft_log.Types.{Types, ChunkId, Segment}
use raft_log.Errors.{IoError}
use raft_log.State.{RaftLogState, RaftLogRecord}
use raft_log.StateMachine.{RaftLogStateMachine}

-- `ChunkedWal<RaftWalTypes<T>>`. Nothing is assumed of what the operations do: a theorem that needs
-- more says so. The WAL sees a state machine through `StateMachine::checkpoint` when it closes a
-- chunk, and through `StateMachine::apply` when it replays its records.
pub record Wal (T : Types) : Type 1 where
  pub Store : Type 0
  pub WalConfig : Type 0
  pub Callback : Type 0
  pub append : RaftLogRecord T → Method (IoError T) Store (Unit {0})
  pub open_chunk_id : Store → ChunkId
  pub last_segment : Store → Segment
  pub try_close_full_chunk : RaftLogState T → Method (IoError T) Store (Option ChunkId)
  pub drain_closed_chunks_while : (RaftLogState T → Bool) → Store → Store × List ChunkId
  pub send_pending : Bool → Option Callback → Method (IoError T) Store (Unit {0})
  pub send_remove_chunks : List ChunkId → Method (IoError T) Store (Unit {0})
  pub load_record : Store → ChunkId → Segment → Outcome (IoError T) (RaftLogRecord T)
  pub on_disk_size : Store → ℕ
  pub open_wal :
      WalConfig
      → (RaftLogRecord T
          → ChunkId
          → Segment
          → Method (IoError T) (RaftLogStateMachine T) (Unit {0}))
      → (Option (RaftLogState T) → RaftLogStateMachine T → RaftLogStateMachine T)
      → Method (IoError T) (RaftLogStateMachine T) Store
