-- ===== src/RaftLog/Steps.antt =====
-- The steps that requests are made of: what each step keeps, each request keeps, whatever the
-- outcome.
use raft_log.Prelude.{
  ℕ, zero, suc, ◌+◌, ◌%◌, Option, none, some, Bool, List, [], ◌∷◌, ok, err, panic, arith, Outcome,
  Outcome-cases, resume, map_err, inl, inr,
}
use raft_log.Prelude.Ord.{u64_ord}
use raft_log.Types.{Types, u64_mod}
use raft_log.Errors.{IoError, RaftLogStateError, invalid_input}
use raft_log.BTreeMap
use raft_log.State.{RaftLogState, RaftLogAction, RaftLogRecord, action, checkpoint}
use raft_log.Cache.{PayloadCache}
use raft_log.StateMachine.{LogData}
use raft_log.Wal.{Wal}
use raft_log.RaftLog.{
  RaftLog, append_and_apply, buffer_removable_chunks, save_user_data, save_vote, append, get_log_id,
  truncate_before, truncate, purge, commit, flush, update_state, drain_cache_evictable,
  on_chunk_persisted, read, read_entry, read_entries,
}
use raft_log.RaftLog.Run.{
  Request, serve, serve_write, written, user_data_saved, vote_saved, appended, truncated, purged,
  committed, flushed, state_updated, range_read, cache_drained, chunk_persisted,
}
use raft_log.RaftLog.Safe.{read_entries_kept}

module _ {T : Types} {W : Wal T} where
  -- A predicate on stores that no step breaks.
  pub record Stable (P : RaftLog T W → Type 0) : Type 0 where
    pub write_step :
        (rec : RaftLogRecord T) (rl : RaftLog T W) → P rl → P (append_and_apply rec rl).0
    pub buffer_step : (rl : RaftLog T W) → P rl → P (buffer_removable_chunks rl)
    pub flush_step :
        (sync : Bool) (callback : Option W.Callback) (rl : RaftLog T W)
        → P rl
        → P (flush sync callback rl).0
    pub cache_step :
        (c : PayloadCache T) (rl : RaftLog T W)
        → P rl
        → P (record rl { state_machine = record rl.state_machine { payload_cache = c } })
    pub count_step :
        (hit miss : ℕ) (rl : RaftLog T W)
        → P rl
        → P (record rl { cache_hit = hit; cache_miss = miss })

module _ {T : Types} {W : Wal T} {P : RaftLog T W → Type 0} (k : Stable P) where
  append-Stable :
      (entries : List (T.LogId × T.LogPayload)) (rl : RaftLog T W) → P rl → P (append entries rl).0
  unfolding append
  append-Stable [] rl h = h
  append-Stable (e ∷ entries) rl h =
      let rl' = (append_and_apply (action (RaftLogAction.append e.0 e.1)) rl).0 in
      let first = k.write_step (action (RaftLogAction.append e.0 e.1)) rl h in
      let rest = append-Stable entries rl' first in
      elim (Outcome-cases (append_and_apply (action (RaftLogAction.append e.0 e.1)) rl).1) [
        | inl (s, n) ↦ rw (n, append) rest
        | inr (inl (x, n)) ↦ rw (n, append) first
        | inr (inr n) ↦ rw (n, append) first
      ]

  truncate_found-Stable :
      (r : Outcome (RaftLogStateError T) T.LogId) (rl : RaftLog T W)
      → P rl
      → P
          (resume
            (map_err invalid_input r)
            (λ id. append_and_apply (action (RaftLogAction.truncate_after (some id))))
            rl).0
  truncate_found-Stable (ok id) rl h =
      k.write_step (action (RaftLogAction.truncate_after (some id))) rl h
  truncate_found-Stable (err e) rl h = h
  truncate_found-Stable panic rl h = h

  truncate_before-Stable : (index : ℕ) (rl : RaftLog T W) → P rl → P (truncate_before index rl).0
  unfolding truncate_before
  truncate_before-Stable zero rl h = h
  truncate_before-Stable (suc i) rl h = truncate_found-Stable (get_log_id rl i) rl h

  truncate-Stable : (index : ℕ) (rl : RaftLog T W) → P rl → P (truncate index rl).0
  unfolding truncate
  truncate-Stable index rl h = ground (
    arith,
    k.write_step (action (RaftLogAction.truncate_after rl.state_machine.log_state.purged)) rl h,
    truncate_before-Stable index rl h,
  )

  purge-Stable : (upto : T.LogId) (rl : RaftLog T W) → P rl → P (purge upto rl).0
  unfolding purge
  purge-Stable upto rl h =
      let rl' = (append_and_apply (action (RaftLogAction.purge_upto upto)) rl).0 in
      let written = k.write_step (action (RaftLogAction.purge_upto upto)) rl h in
      ground (arith, h, written, k.buffer_step rl' written)

  update_state-Stable :
      (state : RaftLogState T) (rl : RaftLog T W) → P rl → P (update_state state rl).0
  unfolding update_state
  update_state-Stable state rl h = ground (arith, h, k.write_step (checkpoint state) rl h)

  read_entries-Stable : (es : List (LogData T)) (rl : RaftLog T W) → P rl → P (read_entries es rl).0
  unfolding read_entry
  read_entries-Stable = read_entries_kept P (λ e rl h. ground (
    arith,
    k.count_step ((rl.cache_hit + 1) % u64_mod) rl.cache_miss rl h,
    k.count_step rl.cache_hit ((rl.cache_miss + 1) % u64_mod) rl h,
  ))

  read-Stable : (from to : ℕ) (rl : RaftLog T W) → P rl → P (read from to rl).0
  unfolding read
  read-Stable from to rl h =
      elim (Outcome-cases (BTreeMap.range u64_ord {E = IoError T} from to rl.state_machine.log)) [
        | inl (m, n) ↦ rw (n, read) (read_entries-Stable (BTreeMap.values m) rl h)
        | inr (inl (e, n)) ↦ rw (n, read) h
        | inr (inr n) ↦ rw (n, read) h
      ]

  pub serve-Stable : (q : Request T W) (rl : RaftLog T W) → P rl → P (serve q rl)
  unfolding serve serve_write save_user_data save_vote commit drain_cache_evictable
      on_chunk_persisted
  serve-Stable (written (user_data_saved user_data)) rl h = k.write_step _ rl h
  serve-Stable (written (vote_saved vote)) rl h = k.write_step _ rl h
  serve-Stable (written (appended entries)) rl h = append-Stable entries rl h
  serve-Stable (written (truncated index)) rl h = truncate-Stable index rl h
  serve-Stable (written (purged upto)) rl h = purge-Stable upto rl h
  serve-Stable (written (committed log_id)) rl h = k.write_step _ rl h
  serve-Stable (written (flushed sync callback)) rl h = k.flush_step sync callback rl h
  serve-Stable (state_updated state) rl h = update_state-Stable state rl h
  serve-Stable (range_read from to) rl h = read-Stable from to rl h
  serve-Stable cache_drained rl h = k.cache_step _ rl h
  serve-Stable (chunk_persisted none) rl h = h
  serve-Stable (chunk_persisted (some state)) rl h = k.cache_step _ rl h
