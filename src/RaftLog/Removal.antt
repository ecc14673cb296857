-- ===== src/RaftLog/Removal.antt =====
-- When chunks are handed over for removal: never but behind a sync.
use mathlib.Core.List.{append-nil, append_assoc}
use raft_log.Prelude.{
  ◌≡◌, ◌∙◌, refl, sym, ap, Option, none, some, Bool, true, false, List, [], ◌∷◌, ◌++◌, ok, err,
  panic, arith, if◌then◌else◌, Option-cases, Outcome-cases, Outcome, resume, map_err, inl, inr, ℕ,
  zero, suc,
}
use raft_log.Prelude.Ord.{le, u64_ord}
use raft_log.Types.{Types, ids, ChunkId}
use raft_log.Errors.{IoError, RaftLogStateError, invalid_input}
use raft_log.BTreeMap
use raft_log.State.{RaftLogState, RaftLogAction, RaftLogRecord, action, checkpoint}
use raft_log.StateMachine
use raft_log.StateMachine.{RaftLogStateMachine, LogData}
use raft_log.Wal.{Wal}
use raft_log.RaftLog.{
  RaftLog, append_and_apply, after_close, buffer_removable_chunks, save_user_data, save_vote,
  append, get_log_id, truncate_before, truncate, purge, commit, flush, remove_after_sync,
  update_state, drain_cache_evictable, on_chunk_persisted, read, read_entry, read_entries, is_empty,
}
use raft_log.RaftLog.Run.{
  Request, serve, written, user_data_saved, vote_saved, appended, truncated, purged, committed,
  flushed, state_updated, range_read, cache_drained, chunk_persisted,
}
use raft_log.RaftLog.Safe.{read_entries_kept}

-- The second list is the first with more chunks at its end.
pub record Extends (before after : List ChunkId) : Type 0 where
  pub more : List ChunkId
  pub split : after ≡ before ++ more

pub Extends-self : (cs : List ChunkId) → Extends cs cs
Extends-self cs = record { more = []; split = sym (append-nil cs) }

pub Extends-trans : (cs ds es : List ChunkId) → Extends cs ds → Extends ds es → Extends cs es
Extends-trans cs ds es h k = record {
  more = h.more ++ k.more;
  split = k.split ∙ ap (λ xs. xs ++ k.more) h.split ∙ append_assoc cs h.more k.more;
}

module _ {T : Types} {W : Wal T} where
  abbrev Waits : RaftLog T W → RaftLog T W → Type 0
  Waits rl rl' = Extends rl.removed_chunks rl'.removed_chunks

  buffer-Waits : (rl : RaftLog T W) → Waits rl (buffer_removable_chunks rl)
  unfolding buffer_removable_chunks
  buffer-Waits rl = elim (Option-cases rl.state_machine.log_state.purged) [
    | inl n ↦ rw n (Extends-self rl.removed_chunks)
    | inr (id, n) ↦ rw n (record {
      more = (W.drain_closed_chunks_while (λ state. le (ids T) state.last (some id)) rl.wal).1;
      split = refl;
    })
  ]

  append_and_apply-removed :
      (Q : List ChunkId → Type 0) (rec : RaftLogRecord T) (rl : RaftLog T W)
      → Q rl.removed_chunks
      → ((w : W.Store) (sm : RaftLogStateMachine T)
          → Q (buffer_removable_chunks (record rl { wal = w; state_machine = sm })).removed_chunks)
      → Q (append_and_apply rec rl).0.removed_chunks
  unfolding append_and_apply after_close
  append_and_apply-removed Q rec rl kept buffered =
      let w = (W.append rec rl.wal).0 in
      let sm = (StateMachine.apply rec (W.open_chunk_id w) (W.last_segment w) rl.state_machine).0 in
      ground (arith, buffered (W.try_close_full_chunk sm.log_state w).0 sm)

  record-Waits : (rec : RaftLogRecord T) (rl : RaftLog T W) → Waits rl (append_and_apply rec rl).0
  record-Waits rec rl =
      append_and_apply-removed (Extends rl.removed_chunks) rec rl (Extends-self rl.removed_chunks)
        (λ w sm. buffer-Waits (record rl { wal = w; state_machine = sm }))

  append-Waits :
      (entries : List (T.LogId × T.LogPayload)) (rl : RaftLog T W) → Waits rl (append entries rl).0
  unfolding append
  append-Waits [] rl = Extends-self rl.removed_chunks
  append-Waits (e ∷ entries) rl =
      let rl' = (append_and_apply (action (RaftLogAction.append e.0 e.1)) rl).0 in
      let first = record-Waits (action (RaftLogAction.append e.0 e.1)) rl in
      ground (
        arith,
        first,
        Extends-trans rl.removed_chunks rl'.removed_chunks (append entries rl').0.removed_chunks
            first (append-Waits entries rl'),
      )

  truncate_found-Waits :
      (r : Outcome (RaftLogStateError T) T.LogId) (rl : RaftLog T W)
      → Waits rl
          (resume
            (map_err invalid_input r)
            (λ id. append_and_apply (action (RaftLogAction.truncate_after (some id))))
            rl).0
  truncate_found-Waits (ok id) rl =
      record-Waits (action (RaftLogAction.truncate_after (some id))) rl
  truncate_found-Waits (err e) rl = Extends-self rl.removed_chunks
  truncate_found-Waits panic rl = Extends-self rl.removed_chunks

  truncate_before-Waits : (index : ℕ) (rl : RaftLog T W) → Waits rl (truncate_before index rl).0
  unfolding truncate_before
  truncate_before-Waits zero rl = Extends-self rl.removed_chunks
  truncate_before-Waits (suc i) rl = truncate_found-Waits (get_log_id rl i) rl

  truncate-Waits : (index : ℕ) (rl : RaftLog T W) → Waits rl (truncate index rl).0
  unfolding truncate
  truncate-Waits index rl = ground (
    arith,
    record-Waits (action (RaftLogAction.truncate_after rl.state_machine.log_state.purged)) rl,
    truncate_before-Waits index rl,
  )

  purge-Waits : (upto : T.LogId) (rl : RaftLog T W) → Waits rl (purge upto rl).0
  unfolding purge
  purge-Waits upto rl =
      let rl' = (append_and_apply (action (RaftLogAction.purge_upto upto)) rl).0 in
      let written = record-Waits (action (RaftLogAction.purge_upto upto)) rl in
      ground (
        arith,
        written,
        Extends-self rl.removed_chunks,
        Extends-trans rl.removed_chunks rl'.removed_chunks
            (buffer_removable_chunks rl').removed_chunks written (buffer-Waits rl'),
      )

  update_state-Waits :
      (state : RaftLogState T) (rl : RaftLog T W) → Waits rl (update_state state rl).0
  unfolding update_state
  update_state-Waits state rl =
      ground (arith, Extends-self rl.removed_chunks, record-Waits (checkpoint state) rl)

  removed-read_entries :
      (es : List (LogData T)) (rl : RaftLog T W)
      → (read_entries es rl).0.removed_chunks ≡ rl.removed_chunks
  unfolding read_entry
  removed-read_entries es rl =
      read_entries_kept (λ r. r.removed_chunks ≡ rl.removed_chunks) (λ e r h. ground (arith, h)) es
        rl refl

  read-Waits : (from to : ℕ) (rl : RaftLog T W) → Waits rl (read from to rl).0
  unfolding read
  read-Waits from to rl =
      elim (Outcome-cases (BTreeMap.range u64_ord {E = IoError T} from to rl.state_machine.log)) [
        | inl (m, h) ↦
            rw (h, read)
              (rw (removed-read_entries (BTreeMap.values m) rl) (Extends-self rl.removed_chunks))
        | inr (inl (e, h)) ↦ rw (h, read) (Extends-self rl.removed_chunks)
        | inr (inr h) ↦ rw (h, read) (Extends-self rl.removed_chunks)
      ]

  abbrev pub is_sync : Request T W → Bool
  is_sync (written (flushed sync callback)) = sync
  is_sync _ = false

  -- No request but a flush with sync takes a chunk off the buffer of chunks to remove: the buffer
  -- afterwards is the one before with chunks added at its end.
  pub serve-Extends :
      (q : Request T W) (rl : RaftLog T W)
      → is_sync q ≡ false
      → Extends rl.removed_chunks (serve q rl).removed_chunks
  unfolding serve save_user_data save_vote commit drain_cache_evictable on_chunk_persisted flush
      remove_after_sync
  serve-Extends (written (user_data_saved user_data)) rl h = record-Waits _ rl
  serve-Extends (written (vote_saved vote)) rl h = record-Waits _ rl
  serve-Extends (written (appended entries)) rl h = append-Waits entries rl
  serve-Extends (written (truncated index)) rl h = truncate-Waits index rl
  serve-Extends (written (purged upto)) rl h = purge-Waits upto rl
  serve-Extends (written (committed log_id)) rl h = record-Waits _ rl
  serve-Extends (written (flushed sync callback)) rl h =
      ground (arith, Extends-self rl.removed_chunks)
  serve-Extends (state_updated state) rl h = update_state-Waits state rl
  serve-Extends (range_read from to) rl h = read-Waits from to rl
  serve-Extends cache_drained rl h = Extends-self rl.removed_chunks
  serve-Extends (chunk_persisted none) rl h = Extends-self rl.removed_chunks
  serve-Extends (chunk_persisted (some state)) rl h = Extends-self rl.removed_chunks

  -- If a flush with sync succeeds, then the sync was sent first and without an error, the buffer of
  -- chunks to remove is empty, and the WAL was then told to remove exactly the chunks that were in
  -- it, if there were any.
  pub flush-handed_over :
      (callback : Option W.Callback) (rl : RaftLog T W)
      → (flush true callback rl).1 ≡ ok tt
      → ((W.send_pending true callback rl.wal).1 ≡ ok tt)
        × ((flush true callback rl).0.removed_chunks ≡ [])
        × ((flush true callback rl).0.wal ≡ (
            if is_empty rl.removed_chunks
            then (W.send_pending true callback rl.wal).0
            else (W.send_remove_chunks rl.removed_chunks
                (W.send_pending true callback rl.wal).0).0))
  unfolding flush remove_after_sync
  flush-handed_over callback rl h = ground arith
