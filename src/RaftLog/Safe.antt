-- ===== src/RaftLog/Safe.antt =====
-- Every operation of the store keeps the invariant of the state machine, whatever the WAL does and
-- whatever the operation returns.
use raft_log.Prelude.{
  Bool-cases, ℕ, zero, suc, ◌≡◌, ◌∙◌, inl, inr, refl, sym, subst, Option, some, Bool, true, List,
  [], ◌∷◌, All, All-imp, ok, err, panic, arith, Outcome, Outcome-cases, resume, map_err,
  Option-cases,
}
use raft_log.Prelude.Ord.{le, u64_ord}
use raft_log.Types.{Types, ids, InRange}
use raft_log.BTreeMap
use raft_log.State.{RaftLogState, RaftLogAction, RaftLogRecord, action, checkpoint}
use raft_log.Errors.{IoError, RaftLogStateError, invalid_input}
use raft_log.Cache.{evictable}
use raft_log.Cache.Loops.{drain_evictable-Popped}
use raft_log.StateMachine
use raft_log.StateMachine.{RaftLogStateMachine, checkpoint_of}
use raft_log.StateMachine.Inv.{IsOrdered, restate}
use raft_log.StateMachine.Inv.Truncate.{Keepable}
use raft_log.StateMachine.Inv.Purge.{Purgeable}
use raft_log.StateMachine.CacheInv.{
  raise-CacheInv, Popped-CacheInv, Popped-Covered, boundary-CacheInv, boundary-Covered,
}
use raft_log.StateMachine.Keeps.{SmInv, Admissible, apply-SmInv}
use raft_log.StateMachine.Checkpoint.{check_checkpoint-LogInv}
use raft_log.Wal.{Wal}
use raft_log.RaftLog.{
  RaftLog, append_and_apply, save_user_data, append, get_log_id, truncate_before, truncate, purge,
  flush, remove_after_sync, update_state, drain_cache_evictable, on_chunk_persisted, read,
  read_entry, read_entries, is_panic,
}
use raft_log.RaftLog.Write.{append_and_apply_cases, state_machine-buffer}

module _ {T : Types} {W : Wal T} where
  abbrev pub IsSound : RaftLog T W → Type 0
  IsSound rl = SmInv rl.state_machine

  pub record-IsSound :
      (rec : RaftLogRecord T) (rl : RaftLog T W)
      → IsSound rl
      → Admissible rl.state_machine rec
      → IsSound (append_and_apply rec rl).0
  record-IsSound rec rl v a =
      append_and_apply_cases SmInv rec rl v
        (λ chunk segment h. apply-SmInv rl.state_machine rec chunk segment v a h)

  pub append-IsSound :
      (entries : List (T.LogId × T.LogPayload)) (rl : RaftLog T W)
      → IsSound rl
      → All (λ e. InRange T e.0) entries
      → IsSound (append entries rl).0
  unfolding append
  append-IsSound [] rl v r = v
  append-IsSound (e ∷ entries) rl v r =
      let first = record-IsSound (action (RaftLogAction.append e.0 e.1)) rl v r.0 in
      ground (
        arith,
        first,
        append-IsSound entries (append_and_apply (action (RaftLogAction.append e.0 e.1)) rl).0 first
            r.1,
      )

  pub get_log_id-ok :
      (rl : RaftLog T W) (i : ℕ) (id : T.LogId)
      → get_log_id rl i ≡ ok id
      → (d : StateMachine.LogData T) × (BTreeMap.get u64_ord i rl.state_machine.log ≡ some d)
        × (some id ≡ some d.log_id)
  unfolding get_log_id
  get_log_id-ok rl i id h = elim (Option-cases (BTreeMap.get u64_ord i rl.state_machine.log)) [
    | inl n ↦ absurd (ground (arith, n, h))
    | inr (d, n) ↦ (d, n, ground (arith, n, h))
  ]

  truncate_found-IsSound :
      (r : Outcome (RaftLogStateError T) T.LogId) (rl : RaftLog T W)
      → IsSound rl
      → ((id : T.LogId)
          → r ≡ ok id
          → Keepable rl.state_machine.log rl.state_machine.log_state.purged (some id))
      → IsSound
          (resume
            (map_err invalid_input r)
            (λ id. append_and_apply (action (RaftLogAction.truncate_after (some id))))
            rl).0
  truncate_found-IsSound (ok id) rl v k =
      record-IsSound (action (RaftLogAction.truncate_after (some id))) rl v (k id refl)
  truncate_found-IsSound (err e) rl v k = v
  truncate_found-IsSound panic rl v k = v

  truncate_before-IsSound :
      (index : ℕ) (rl : RaftLog T W) → IsSound rl → IsSound (truncate_before index rl).0
  unfolding truncate_before
  truncate_before-IsSound zero rl v = v
  truncate_before-IsSound (suc i) rl v =
      truncate_found-IsSound (get_log_id rl i) rl v
        (λ id h. let (d, found, same) = get_log_id-ok rl i id h in inr (i, d, found, same))

  -- The entry that a truncation keeps comes from the purge point or from the map, so the index may
  -- be any.
  pub truncate-IsSound : (index : ℕ) (rl : RaftLog T W) → IsSound rl → IsSound (truncate index rl).0
  unfolding truncate
  truncate-IsSound index rl v =
      let purged = rl.state_machine.log_state.purged in
      let to_purged =
        record-IsSound (action (RaftLogAction.truncate_after purged)) rl v (inl refl) in
      ground (arith, to_purged, truncate_before-IsSound index rl v)

  pub purge-IsSound :
      (upto : T.LogId) (rl : RaftLog T W)
      → IsSound rl
      → Purgeable rl.state_machine.log rl.state_machine.log_state upto
      → IsSound (purge upto rl).0
  unfolding purge
  purge-IsSound upto rl v p =
      let rec : RaftLogRecord T = action (RaftLogAction.purge_upto upto) in
      let written = record-IsSound rec rl v p in
      ground (arith, written, state_machine-buffer (append_and_apply rec rl).0)

  pub save_user_data-IsSound :
      (user_data : Option T.UserData) (rl : RaftLog T W)
      → IsSound rl
      → IsSound (save_user_data user_data rl).0
  unfolding save_user_data
  save_user_data-IsSound user_data rl v =
      record-IsSound _ rl v
        (restate _ rl.state_machine.log_state _ v.log refl refl v.log.ordered.committed_le, v.cache)

  -- The state's own boundaries are in order, and it does not lower `last`.
  abbrev pub Adoptable : RaftLog T W → RaftLogState T → Type 0
  Adoptable rl state =
      IsOrdered state × (le (ids T) rl.state_machine.log_state.last state.last ≡ true)

  -- A state that the check accepts is admissible as a checkpoint.
  pub update_state-Admissible :
      (state : RaftLogState T) (rl : RaftLog T W)
      → IsSound rl
      → Adoptable rl state
      → StateMachine.check_checkpoint rl.state_machine state ≡ ok tt
      → Admissible rl.state_machine (checkpoint state)
  update_state-Admissible state rl v a h = (
    check_checkpoint-LogInv rl.state_machine state v.log a.0 h,
    raise-CacheInv _ rl.state_machine.log_state.last state.last a.1 v.cache,
  )

  pub update_state-IsSound :
      (state : RaftLogState T) (rl : RaftLog T W)
      → IsSound rl
      → Adoptable rl state
      → IsSound (update_state state rl).0
  unfolding update_state
  update_state-IsSound state rl v a =
      elim (Outcome-cases (StateMachine.check_checkpoint rl.state_machine state)) [
        | inl (_, h) ↦
            rw h (record-IsSound (checkpoint state) rl v (update_state-Admissible state rl v a h))
        | inr (inl (e, h)) ↦ rw h v
        | inr (inr h) ↦ rw h v
      ]

  pub flush-IsSound :
      (sync : Bool) (callback : Option W.Callback) (rl : RaftLog T W)
      → IsSound rl
      → IsSound (flush sync callback rl).0
  unfolding flush remove_after_sync
  flush-IsSound sync callback rl v = ground arith

  pub drain_cache_evictable-IsSound :
      (rl : RaftLog T W) → IsSound rl → IsSound (drain_cache_evictable rl)
  unfolding drain_cache_evictable
  drain_cache_evictable-IsSound rl v =
      let c = rl.state_machine.payload_cache in
      let popped = drain_evictable-Popped c v.cache.sorted in
      record {
        log = v.log;
        cache = Popped-CacheInv _ c _ rl.state_machine.log_state.last popped v.cache;
        covers =
            All-imp (λ e k. Popped-Covered (evictable c) c _ e.1.log_id popped (λ h. h) k) _
              v.covers;
      }

  pub on_chunk_persisted-IsSound :
      (state : RaftLogState T) (rl : RaftLog T W)
      → IsSound rl
      → le (ids T) rl.state_machine.payload_cache.last_evictable state.last ≡ true
      → IsSound (on_chunk_persisted (some state) rl)
  unfolding on_chunk_persisted
  on_chunk_persisted-IsSound state rl v h = record {
    log = v.log;
    cache = boundary-CacheInv _ _ state.last v.cache;
    covers = All-imp (λ e c. boundary-Covered _ state.last e.1.log_id h c) _ v.covers;
  }

  pub state_machine-read_entry :
      (e : StateMachine.LogData T) (rl : RaftLog T W)
      → (read_entry e rl).0.state_machine ≡ rl.state_machine
  unfolding read_entry
  state_machine-read_entry e rl = ground arith

  -- What the reading of an entry keeps, the reading of a range keeps, ended by a panic or not.
  pub read_entries_kept :
      (P : RaftLog T W → Type 0)
      → ((e : StateMachine.LogData T) (rl : RaftLog T W) → P rl → P (read_entry e rl).0)
      → (es : List (StateMachine.LogData T)) (rl : RaftLog T W) → P rl
      → P (read_entries es rl).0
  unfolding read_entries
  read_entries_kept P step [] rl h = h
  read_entries_kept P step (e ∷ es) rl h =
      let first = step e rl h in
      elim (Bool-cases (is_panic (read_entry e rl).1)) [
        | inl p ↦ rw p first
        | inr p ↦ rw p (read_entries_kept P step es (read_entry e rl).0 first)
      ]

  pub state_machine-read_entries :
      (es : List (StateMachine.LogData T)) (rl : RaftLog T W)
      → (read_entries es rl).0.state_machine ≡ rl.state_machine
  state_machine-read_entries es rl =
      read_entries_kept (λ r. r.state_machine ≡ rl.state_machine)
        (λ e r h. state_machine-read_entry e r ∙ h) es rl refl

  pub read-IsSound : (from to : ℕ) (rl : RaftLog T W) → IsSound rl → IsSound (read from to rl).0
  unfolding read
  read-IsSound from to rl v =
      elim (Outcome-cases (BTreeMap.range u64_ord {E = IoError T} from to rl.state_machine.log)) [
        | inl (m, h) ↦
            rw (h, read) (subst SmInv (sym (state_machine-read_entries (BTreeMap.values m) rl)) v)
        | inr (inl (e, h)) ↦ rw (h, read) v
        | inr (inr h) ↦ rw (h, read) v
      ]
