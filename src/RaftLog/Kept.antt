-- ===== src/RaftLog/Kept.antt =====
-- The requests that leave the entries as they are, and what makes them safe.
use raft_log.Prelude.{
  ℕ, ◌≡◌, inl, inr, refl, subst, Option, some, Bool, true, List, [], All, All-trivial, All2-imp, ok,
  arith, Outcome-cases,
}
use raft_log.Prelude.Ord.{lt, le, le_trans, u64_ord}
use raft_log.Types.{Types, ids, ChunkId}
use raft_log.Errors.{IoError}
use raft_log.BTreeMap
use raft_log.State.{RaftLogState, RaftLogAction, RaftLogRecord, action, checkpoint}
use raft_log.Cache
use raft_log.Cache.{PayloadCache, evictable, set_last_evictable, drain_evictable}
use raft_log.Cache.Loops.{drain_evictable-Popped}
use raft_log.StateMachine
use raft_log.StateMachine.{RaftLogStateMachine, LogData, Log, checkpoint_of}
use raft_log.StateMachine.Inv.{restate}
use raft_log.StateMachine.Keeps.{Admissible}
use raft_log.Contents.{Entries, Load, Shows, effect}
use raft_log.Contents.Effects.{Popped-Shows}
use raft_log.Wal.{Wal}
use raft_log.Wal.Laws.{Chunked}
use raft_log.RaftLog.{
  RaftLog, append_and_apply, save_user_data, flush, remove_after_sync, update_state,
  drain_cache_evictable, on_chunk_persisted, read, read_entry, read_entries,
}
use raft_log.RaftLog.Safe.{
  Adoptable, update_state-Admissible, drain_cache_evictable-IsSound, on_chunk_persisted-IsSound,
  read_entries_kept,
}
use raft_log.RaftLog.Run.{Request, written, appended, chunk_persisted}
use raft_log.RaftLog.Places.{After-removed}
use raft_log.RaftLog.Refines.{Good, Ends, Ends-any, append_and_apply-Good, same-Good}
use raft_log.RaftLog.Serves.{Holds}

module _ {T : Types} {W : Wal T} where
  -- What the caller, or the worker, sees to beside `IsFair`: a log id is appended above the eviction
  -- boundary, and what a new boundary allows to be evicted can be loaded.
  abbrev pub IsSafe : Request T W → RaftLog T W → Type 0
  IsSafe (written (appended entries)) rl =
      All (λ e. lt (ids T) rl.state_machine.payload_cache.last_evictable (some e.0) ≡ true) entries
  IsSafe (chunk_persisted (some state)) rl =
      All
        (λ e.
          (p : T.LogPayload)
          → le (ids T) (some e.1.log_id) state.last ≡ true
          → Cache.get rl.state_machine.payload_cache e.1.log_id ≡ some p
          → W.load_record rl.wal e.1.chunk_id e.1.record_segment
            ≡ ok (action (RaftLogAction.append e.1.log_id p)))
        rl.state_machine.log
  IsSafe _ rl = Unit

module _ {T : Types} {W : Wal T} (k : Chunked W) where
  -- A record that has no effect on the entries leaves them.
  pub still-Holds :
      (rec : RaftLogRecord T) (rl : RaftLog T W) (es : Entries T)
      → effect T rec es ≡ es
      → Ends k es (effect T rec es) (append_and_apply rec rl)
      → Holds k (append_and_apply rec rl).0 es
  still-Holds rec rl es same h =
      elim (Ends-any k es (effect T rec es) (append_and_apply rec rl) h) [
        | inl g ↦ g
        | inr g ↦ rw same at g
      ]

  pub update_state-Holds :
      (state : RaftLogState T) (rl : RaftLog T W) (es : Entries T)
      → Adoptable rl state
      → Holds k rl es
      → Holds k (update_state state rl).0 es
  unfolding update_state effect
  update_state-Holds state rl es a g =
      elim (Outcome-cases (StateMachine.check_checkpoint rl.state_machine state)) [
        | inl (_, h) ↦ rw h (
            still-Holds (checkpoint state) rl es refl (
              append_and_apply-Good k (checkpoint state) rl es
                (update_state-Admissible state rl g.sound a h) tt g))
        | inr (inl (e, h)) ↦ rw h g
        | inr (inr h) ↦ rw h g
      ]

  pub flush-Holds :
      (sync : Bool) (callback : Option W.Callback) (rl : RaftLog T W) (es : Entries T)
      → Holds k rl es
      → Holds k (flush sync callback rl).0 es
  unfolding flush remove_after_sync
  flush-Holds sync callback rl es g =
      let w = (W.send_pending sync callback rl.wal).0 in
      let sent =
        same-Good k (λ c. Unit) rl.wal w rl.state_machine rl.removed_chunks es
          (k.send_step sync callback rl.wal) (All-trivial rl.state_machine.log) g in
      let removed =
        same-Good k _ w (W.send_remove_chunks rl.removed_chunks w).0 rl.state_machine
          rl.removed_chunks es (k.remove_step rl.removed_chunks w)
          (After-removed (k.closed w) (W.open_chunk_id w) rl.removed_chunks rl.state_machine.log
            sent.laid)
          sent in
      let emptied : Good k (W.send_remove_chunks rl.removed_chunks w).0 rl.state_machine [] es =
        record {
          sound = removed.sound;
          shown = removed.shown;
          laid = record { rising = removed.laid.rising; placed = removed.laid.placed; gone = tt };
        } in
      ground (arith, sent, emptied)

  pub drain_cache_evictable-Holds :
      (rl : RaftLog T W) (es : Entries T) → Holds k rl es → Holds k (drain_cache_evictable rl) es
  drain_cache_evictable-Holds rl es g =
      let c = rl.state_machine.payload_cache in
      let popped = drain_evictable-Popped c g.sound.cache.sorted in
      let sound = drain_cache_evictable-IsSound rl g.sound in
      unfold drain_cache_evictable in
      record {
        sound = unfold drain_cache_evictable in sound;
        shown =
            All2-imp (λ e. Unit {0})
              (λ e a u s.
                Popped-Shows (W.load_record rl.wal) (evictable c) c _ e a popped (λ h. h) s)
              rl.state_machine.log es (All-trivial _) g.shown;
        laid = g.laid;
      }

  raised-Shows :
      (load : Load T) (c : PayloadCache T) (boundary : Option T.LogId) (e : ℕ × LogData T)
      (a : T.LogId × T.LogPayload)
      → le (ids T) c.last_evictable boundary ≡ true
      → ((p : T.LogPayload)
          → le (ids T) (some e.1.log_id) boundary ≡ true
          → Cache.get c e.1.log_id ≡ some p
          → load e.1.chunk_id e.1.record_segment ≡ ok (action (RaftLogAction.append e.1.log_id p)))
      → Shows T load c e a
      → Shows T load (set_last_evictable c boundary) e a
  unfolding set_last_evictable evictable Cache.get
  raised-Shows load c boundary e a up backed s =
      let at : (p : T.LogPayload)
          → le (ids T) (some a.0) boundary ≡ true
          → BTreeMap.get T.log_id_ord a.0 c.cache ≡ some p
          → load e.1.chunk_id e.1.record_segment ≡ ok (action (RaftLogAction.append a.0 p)) =
        subst
          (λ id.
            (p : T.LogPayload)
            → le (ids T) (some id) boundary ≡ true
            → BTreeMap.get T.log_id_ord id c.cache ≡ some p
            → load e.1.chunk_id e.1.record_segment ≡ ok (action (RaftLogAction.append id p)))
          s.same backed in
      record {
        index = s.index;
        same = s.same;
        found = ground (arith, s.found, le_trans (ids T) (some a.0) c.last_evictable boundary, up);
        stored = λ h. elim s.found [ inl f ↦ at a.1 h f | inr (n, v) ↦ s.stored v ];
      }

  pub on_chunk_persisted-Holds :
      (state : RaftLogState T) (rl : RaftLog T W) (es : Entries T)
      → le (ids T) rl.state_machine.payload_cache.last_evictable state.last ≡ true
      → IsSafe (chunk_persisted (some state)) rl
      → Holds k rl es
      → Holds k (on_chunk_persisted (some state) rl) es
  on_chunk_persisted-Holds state rl es up safe g =
      let c = rl.state_machine.payload_cache in
      let sound = on_chunk_persisted-IsSound state rl g.sound up in
      unfold on_chunk_persisted in
      record {
        sound = unfold on_chunk_persisted in sound;
        shown =
            All2-imp
              (λ e.
                (p : T.LogPayload)
                → le (ids T) (some e.1.log_id) state.last ≡ true
                → Cache.get c e.1.log_id ≡ some p
                → W.load_record rl.wal e.1.chunk_id e.1.record_segment
                  ≡ ok (action (RaftLogAction.append e.1.log_id p)))
              (λ e a b s. raised-Shows (W.load_record rl.wal) c state.last e a up b s)
              rl.state_machine.log es safe g.shown;
        laid = g.laid;
      }

  -- Reading changes the counters alone.
  read_entries-keeps :
      (P : W.Store → RaftLogStateMachine T → List ChunkId → Type 0) (ds : List (LogData T))
      (rl : RaftLog T W)
      → P rl.wal rl.state_machine rl.removed_chunks
      → P
          (read_entries ds rl).0.wal
          (read_entries ds rl).0.state_machine
          (read_entries ds rl).0.removed_chunks
  unfolding read_entry
  read_entries-keeps P ds rl h =
      read_entries_kept (λ rl. P rl.wal rl.state_machine rl.removed_chunks)
        (λ d rl h. ground (arith, h)) ds rl h

  pub read-Holds :
      (from to : ℕ) (rl : RaftLog T W) (es : Entries T)
      → Holds k rl es
      → Holds k (read from to rl).0 es
  unfolding read
  read-Holds from to rl es g =
      elim (Outcome-cases (BTreeMap.range u64_ord {E = IoError T} from to rl.state_machine.log)) [
        | inl (m, h) ↦
            rw (h, read)
              (read_entries-keeps (λ w sm removed. Good k w sm removed es) (BTreeMap.values m) rl g)
        | inr (inl (e, h)) ↦ rw (h, read) g
        | inr (inr h) ↦ rw (h, read) g
      ]

  pub save_user_data-Holds :
      (user_data : Option T.UserData) (rl : RaftLog T W) (es : Entries T)
      → Holds k rl es
      → Holds k (save_user_data user_data rl).0 es
  unfolding save_user_data effect
  save_user_data-Holds user_data rl es g =
      let rec : RaftLogRecord T =
        checkpoint (record (checkpoint_of rl.state_machine) { user_data = user_data }) in
      let v = g.sound in
      let admissible : Admissible rl.state_machine rec = (
        restate _ rl.state_machine.log_state _ v.log refl refl v.log.ordered.committed_le,
        v.cache,
      ) in
      still-Holds rec rl es refl (append_and_apply-Good k rec rl es admissible tt g)
