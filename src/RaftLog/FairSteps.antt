-- ===== src/RaftLog/FairSteps.antt =====
-- The steps that fair and safe requests are made of: what each step keeps of a sound store, each
-- such request keeps, whatever the outcome.
use raft_log.Prelude.{
  ℕ, zero, suc, ◌+◌, ◌%◌, ◌≡◌, inl, inr, refl, sym, subst, Option, none, some, Bool, true, List, [],
  ◌∷◌, All, ok, err, panic, arith, Outcome, Outcome-cases, resume, map_err,
}
use raft_log.Prelude.Ord.{lt, le, le_self, u64_ord}
use raft_log.Types.{Types, ids, InRange, u64_mod}
use raft_log.Errors.{IoError, RaftLogStateError, invalid_input}
use raft_log.BTreeMap
use raft_log.State.{RaftLogState, RaftLogAction, RaftLogRecord, action, checkpoint}
use raft_log.StateMachine
use raft_log.StateMachine.{RaftLogStateMachine, LogData, checkpoint_of}
use raft_log.StateMachine.Inv.{LogInv, restate}
use raft_log.StateMachine.Inv.Truncate.{Keepable}
use raft_log.StateMachine.CacheInv.{raise-CacheInv}
use raft_log.StateMachine.Checkpoint.{check_checkpoint-LogInv}
use raft_log.StateMachine.Keeps.{SmInv, Admissible}
use raft_log.Contents.Effects.{IsFresh}
use raft_log.Wal.{Wal}
use raft_log.RaftLog.{
  RaftLog, append_and_apply, buffer_removable_chunks, save_user_data, save_vote, append, get_log_id,
  truncate_before, truncate, purge, commit, flush, update_state, drain_cache_evictable,
  on_chunk_persisted, read, read_entry, read_entries,
}
use raft_log.RaftLog.Run.{
  Request, serve, serve_write, IsFair, written, user_data_saved, vote_saved, appended, truncated,
  purged, committed, flushed, state_updated, range_read, cache_drained, chunk_persisted,
}
use raft_log.RaftLog.Safe.{read_entries_kept, IsSound, get_log_id-ok}
use raft_log.RaftLog.Kept.{IsSafe}
use raft_log.RaftLog.Serves.{boundary-append_and_apply}

module _ {T : Types} where
  -- Admissible in any sound state machine with this log map and this state, whatever its cache.
  abbrev pub Proper : RaftLogStateMachine T → RaftLogRecord T → Type 0
  Proper sm (action a) = Admissible sm (action a)
  Proper sm (checkpoint state) =
      LogInv sm.log state × (le (ids T) sm.log_state.last state.last ≡ true)

  pub Proper-Admissible :
      (sm : RaftLogStateMachine T) (rec : RaftLogRecord T)
      → SmInv sm
      → Proper sm rec
      → Admissible sm rec
  Proper-Admissible sm (action a) v p = p
  Proper-Admissible sm (checkpoint state) v p =
      (p.0, raise-CacheInv _ sm.log_state.last state.last p.1 v.cache)

module _ {T : Types} {W : Wal T} where
  -- A predicate on sound stores that no such step breaks.
  pub record FairStable (P : RaftLog T W → Type 0) : Type 0 where
    pub sound : (rl : RaftLog T W) → P rl → IsSound rl
    pub write_step :
        (rec : RaftLogRecord T) (rl : RaftLog T W)
        → Proper rl.state_machine rec
        → IsFresh rl.state_machine.payload_cache rec
        → P rl
        → P (append_and_apply rec rl).0
    pub buffer_step : (rl : RaftLog T W) → P rl → P (buffer_removable_chunks rl)
    pub flush_step :
        (sync : Bool) (callback : Option W.Callback) (rl : RaftLog T W)
        → P rl
        → P (flush sync callback rl).0
    pub drain_step : (rl : RaftLog T W) → P rl → P (drain_cache_evictable rl)
    pub persist_step :
        (state : RaftLogState T) (rl : RaftLog T W)
        → le (ids T) rl.state_machine.payload_cache.last_evictable state.last ≡ true
        → IsSafe (chunk_persisted (some state)) rl
        → P rl
        → P (on_chunk_persisted (some state) rl)
    pub count_step :
        (hit miss : ℕ) (rl : RaftLog T W)
        → P rl
        → P (record rl { cache_hit = hit; cache_miss = miss })

module _ {T : Types} {W : Wal T} {P : RaftLog T W → Type 0} (k : FairStable P) where
  append-Fair :
      (entries : List (T.LogId × T.LogPayload)) (rl : RaftLog T W)
      → All (λ e. InRange T e.0) entries
      → All
          (λ e. lt (ids T) rl.state_machine.payload_cache.last_evictable (some e.0) ≡ true)
          entries
      → P rl
      → P (append entries rl).0
  unfolding append
  append-Fair [] rl r f h = h
  append-Fair (e ∷ entries) rl r f h =
      let rec : RaftLogRecord T = action (RaftLogAction.append e.0 e.1) in
      let rl' = (append_and_apply rec rl).0 in
      let first = k.write_step rec rl r.0 f.0 h in
      let f' =
        subst (λ b. All (λ e. lt (ids T) b (some e.0) ≡ true) entries)
          (sym (boundary-append_and_apply rec rl (k.sound rl h))) f.1 in
      let rest = append-Fair entries rl' r.1 f' first in
      elim (Outcome-cases (append_and_apply rec rl).1) [
        | inl (s, n) ↦ rw (n, append) rest
        | inr (inl (x, n)) ↦ rw (n, append) first
        | inr (inr n) ↦ rw (n, append) first
      ]

  truncate_found-Fair :
      (r : Outcome (RaftLogStateError T) T.LogId) (rl : RaftLog T W)
      → ((id : T.LogId)
          → r ≡ ok id
          → Keepable rl.state_machine.log rl.state_machine.log_state.purged (some id))
      → P rl
      → P
          (resume
            (map_err invalid_input r)
            (λ id. append_and_apply (action (RaftLogAction.truncate_after (some id))))
            rl).0
  truncate_found-Fair (ok id) rl f h =
      k.write_step (action (RaftLogAction.truncate_after (some id))) rl (f id refl) tt h
  truncate_found-Fair (err e) rl f h = h
  truncate_found-Fair panic rl f h = h

  truncate_before-Fair : (index : ℕ) (rl : RaftLog T W) → P rl → P (truncate_before index rl).0
  unfolding truncate_before
  truncate_before-Fair zero rl h = h
  truncate_before-Fair (suc i) rl h =
      truncate_found-Fair (get_log_id rl i) rl
        (λ id g. let (d, found, same) = get_log_id-ok rl i id g in inr (i, d, found, same)) h

  truncate-Fair : (index : ℕ) (rl : RaftLog T W) → P rl → P (truncate index rl).0
  unfolding truncate
  truncate-Fair index rl h =
      let rec : RaftLogRecord T =
        action (RaftLogAction.truncate_after rl.state_machine.log_state.purged) in
      ground (arith, k.write_step rec rl (inl refl) tt h, truncate_before-Fair index rl h)

  purge-Fair :
      (upto : T.LogId) (rl : RaftLog T W)
      → IsFair (written (purged upto)) rl
      → P rl
      → P (purge upto rl).0
  unfolding purge
  purge-Fair upto rl f h =
      let rl' = (append_and_apply (action (RaftLogAction.purge_upto upto)) rl).0 in
      let written = k.write_step (action (RaftLogAction.purge_upto upto)) rl f tt h in
      ground (arith, h, written, k.buffer_step rl' written)

  update_state-Fair :
      (state : RaftLogState T) (rl : RaftLog T W)
      → IsFair (state_updated state) rl
      → P rl
      → P (update_state state rl).0
  unfolding update_state
  update_state-Fair state rl a h =
      elim (Outcome-cases (StateMachine.check_checkpoint rl.state_machine state)) [
        | inl (_, g) ↦
            let kept = check_checkpoint-LogInv rl.state_machine state (k.sound rl h).log a.0 g in
            rw g (k.write_step (checkpoint state) rl (kept, a.1) tt h)
        | inr (inl (e, g)) ↦ rw g h
        | inr (inr g) ↦ rw g h
      ]

  save_user_data-Fair :
      (user_data : Option T.UserData) (rl : RaftLog T W) → P rl → P (save_user_data user_data rl).0
  unfolding save_user_data
  save_user_data-Fair user_data rl h =
      let v = (k.sound rl h).log in
      k.write_step _ rl
        (
          restate _ rl.state_machine.log_state _ v refl refl v.ordered.committed_le,
          le_self (ids T) rl.state_machine.log_state.last,
        )
        tt h

  read_entries-Fair : (es : List (LogData T)) (rl : RaftLog T W) → P rl → P (read_entries es rl).0
  unfolding read_entry
  read_entries-Fair = read_entries_kept P (λ e rl h. ground (
    arith,
    k.count_step ((rl.cache_hit + 1) % u64_mod) rl.cache_miss rl h,
    k.count_step rl.cache_hit ((rl.cache_miss + 1) % u64_mod) rl h,
  ))

  read-Fair : (from to : ℕ) (rl : RaftLog T W) → P rl → P (read from to rl).0
  unfolding read
  read-Fair from to rl h =
      elim (Outcome-cases (BTreeMap.range u64_ord {E = IoError T} from to rl.state_machine.log)) [
        | inl (m, n) ↦ rw (n, read) (read_entries-Fair (BTreeMap.values m) rl h)
        | inr (inl (e, n)) ↦ rw (n, read) h
        | inr (inr n) ↦ rw (n, read) h
      ]

  pub serve-Fair :
      (q : Request T W) (rl : RaftLog T W) → IsFair q rl → IsSafe q rl → P rl → P (serve q rl)
  unfolding serve serve_write save_vote commit on_chunk_persisted
  serve-Fair (written (user_data_saved user_data)) rl f s h = save_user_data-Fair user_data rl h
  serve-Fair (written (vote_saved vote)) rl f s h =
      k.write_step (action (RaftLogAction.save_vote vote)) rl tt tt h
  serve-Fair (written (appended entries)) rl f s h = append-Fair entries rl f s h
  serve-Fair (written (truncated index)) rl f s h = truncate-Fair index rl h
  serve-Fair (written (purged upto)) rl f s h = purge-Fair upto rl f h
  serve-Fair (written (committed id)) rl f s h =
      k.write_step (action (RaftLogAction.commit id)) rl tt tt h
  serve-Fair (written (flushed sync callback)) rl f s h = k.flush_step sync callback rl h
  serve-Fair (state_updated state) rl f s h = update_state-Fair state rl f h
  serve-Fair (range_read from to) rl f s h = read-Fair from to rl h
  serve-Fair cache_drained rl f s h = k.drain_step rl h
  serve-Fair (chunk_persisted none) rl f s h = h
  serve-Fair (chunk_persisted (some state)) rl f s h = k.persist_step state rl f s h
