-- ===== src/RaftLog/Blocking.antt =====
-- `blocking_flush` of src/api/raft_log_writer.rs: a flush with sync that waits until the worker of
-- the WAL reports on a channel.
use raft_log.Prelude.{◌≡◌, Option, none, some, true, Outcome, ok, err, Method, ◌>>◌, arith}
use raft_log.Types.{Types}
use raft_log.Errors.{IoError, other}
use raft_log.Wal.{Wal}
use raft_log.RaftLog.{RaftLog, on_wal, flush, remove_after_sync}

-- The two ends of `sync_channel(1)`. The sender goes to the worker as the callback. The receiver
-- waits, while the worker goes on: it finds what the worker has sent, or the sender dropped.
pub record Channel {T : Types} (W : Wal T) : Type 0 where
  pub tx : W.Callback
  pub recv : W.Store → W.Store × Option (Outcome (IoError T) (Unit {0}))

module _ {T : Types} where
  -- `rx.recv().map_err(..)??`
  abbrev pub received : Option (Outcome (IoError T) (Unit {0})) → Outcome (IoError T) (Unit {0})
  received none = err (other "Failed to receive flush completion")
  received (some result) = result

module _ {T : Types} {W : Wal T} where
  unfoldable pub blocking_flush : Channel W → Method (IoError T) (RaftLog T W) (Unit {0})
  blocking_flush channel = do
    flush true (some channel.tx)
    on_wal (λ w. let (w', sent) = channel.recv w in (w', received sent))

  pub blocking_flush_steps :
      (channel : Channel W) (rl : RaftLog T W)
      → (blocking_flush channel rl).1 ≡ ok tt
      → (let w = (flush true (some channel.tx) rl).0.wal in
          ((flush true (some channel.tx) rl).1 ≡ ok tt)
          × ((blocking_flush channel rl).0.wal ≡ (channel.recv w).0)
          × ((channel.recv w).1 ≡ some (ok tt)))
  unfolding blocking_flush flush remove_after_sync
  blocking_flush_steps channel rl h = ground arith
