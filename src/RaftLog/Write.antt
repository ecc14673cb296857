-- ===== src/RaftLog/Write.antt =====
-- What a write leaves behind: all of it, or nothing of it but what the WAL did.
use raft_log.Prelude.{◌≡◌, Option, ok, err, arith}
use raft_log.Types.{Types, ChunkId, Segment}
use raft_log.Errors.{RaftLogStateError, invalid_input}
use raft_log.State.{RaftLogRecord}
use raft_log.StateMachine
use raft_log.StateMachine.{RaftLogStateMachine, checkpoint_of}
use raft_log.Wal.{Wal}
use raft_log.RaftLog.{RaftLog, append_and_apply, buffer_removable_chunks, after_close}

module _ {T : Types} {W : Wal T} where
  pub state_machine-buffer :
      (rl : RaftLog T W) → (buffer_removable_chunks rl).state_machine ≡ rl.state_machine
  unfolding buffer_removable_chunks
  state_machine-buffer rl = ground arith

  state_machine-after_close :
      (closed : Option ChunkId) (rl : RaftLog T W)
      → (after_close closed rl).0.state_machine ≡ rl.state_machine
  unfolding after_close
  state_machine-after_close closed rl = ground (arith, state_machine-buffer rl)

  -- A record that the state machine's check refuses leaves the whole store as it was, the WAL
  -- included, and the write returns the refusal as an `InvalidInput` error.
  pub append_and_apply_refused :
      (rec : RaftLogRecord T) (rl : RaftLog T W) (e : RaftLogStateError T)
      → StateMachine.check rl.state_machine rec ≡ err e
      → append_and_apply rec rl ≡ (rl, err (invalid_input e))
  unfolding append_and_apply
  append_and_apply_refused rec rl e h = ground arith

  -- Whatever the WAL does, the state machine after a write is the one before it, or the record
  -- passed the check and was applied to it.
  pub append_and_apply_cases :
      (P : RaftLogStateMachine T → Type 0) (rec : RaftLogRecord T) (rl : RaftLog T W)
      → P rl.state_machine
      → ((chunk : ChunkId) (segment : Segment)
          → StateMachine.check rl.state_machine rec ≡ ok tt
          → P (StateMachine.apply rec chunk segment rl.state_machine).0)
      → P (append_and_apply rec rl).0.state_machine
  unfolding append_and_apply after_close buffer_removable_chunks
  append_and_apply_cases P rec rl kept written = ground (
    arith,
    written (W.open_chunk_id (W.append rec rl.wal).0) (W.last_segment (W.append rec rl.wal).0),
  )

  -- If a write returns a segment, then the record passed the check, the WAL took it, the state
  -- machine has become what applying the record with the place that the WAL gave it makes of the
  -- old one, and the segment is the last one of the WAL.
  pub append_and_apply_returned :
      (rec : RaftLogRecord T) (rl : RaftLog T W) (segment : Segment)
      → (append_and_apply rec rl).1 ≡ ok segment
      → (StateMachine.check rl.state_machine rec ≡ ok tt)
        × ((W.append rec rl.wal).1 ≡ ok tt)
        × ((append_and_apply rec rl).0.state_machine
            ≡ (StateMachine.apply rec
                (W.open_chunk_id (W.append rec rl.wal).0)
                (W.last_segment (W.append rec rl.wal).0)
                rl.state_machine).0)
        × (segment ≡ W.last_segment (append_and_apply rec rl).0.wal)
  unfolding append_and_apply after_close buffer_removable_chunks
  append_and_apply_returned rec rl segment h = ground arith
