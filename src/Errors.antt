-- ===== src/Errors.antt =====
-- src/errors.rs: why a record is refused. The messages are not modelled.
use raft_log.Prelude.{ℕ, Option, String}
use raft_log.Types.{Types}

pub record VoteReversal (T : Types) : Type 0 where
  pub current : T.Vote
  pub attempted : T.Vote

pub record LogIdReversal (T : Types) : Type 0 where
  pub current : T.LogId
  pub attempted : T.LogId
  pub when : String

pub record LogIdNonConsecutive (T : Types) : Type 0 where
  pub last : Option T.LogId
  pub attempted : T.LogId

pub record CommitBeyondLast (T : Types) : Type 0 where
  pub last : Option T.LogId
  pub attempted : T.LogId

pub record TruncateCommitted (T : Types) : Type 0 where
  pub committed : T.LogId
  pub keep_upto : Option T.LogId

pub record CheckpointLogMismatch (T : Types) : Type 0 where
  pub first : T.LogId
  pub last : T.LogId
  pub purged : Option T.LogId
  pub declared_last : Option T.LogId

pub record LogIndexNotFound : Type 0 where
  pub index : ℕ

pub data RaftLogStateError (T : Types) : Type 0 where
  vote_reversal : VoteReversal T → RaftLogStateError T
  log_id_reversal : LogIdReversal T → RaftLogStateError T
  log_id_non_consecutive : LogIdNonConsecutive T → RaftLogStateError T
  commit_beyond_last : CommitBeyondLast T → RaftLogStateError T
  truncate_committed : TruncateCommitted T → RaftLogStateError T
  checkpoint_log_mismatch : CheckpointLogMismatch T → RaftLogStateError T
  log_index_not_found : LogIndexNotFound → RaftLogStateError T

-- `io::Error`: a refusal keeps its value here, where the source keeps its message under
-- `ErrorKind::InvalidInput`; any other error is one that the WAL reports.
pub data IoError (T : Types) : Type 0 where
  invalid_input : RaftLogStateError T → IoError T
  other : String → IoError T
