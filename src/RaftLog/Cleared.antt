-- ===== src/RaftLog/Cleared.antt =====
-- What a purge and the next flush with sync leave of the closed chunks.
use mathlib.Core.List.{append_assoc}
use raft_log.Prelude.{
  ◌≤◌, ◌<◌, ◌⊎◌, ◌≡◌, ◌∙◌, refl, sym, ap, inl, inr, Option, if◌then◌else◌, some, Bool, true, false,
  List, [], ◌∷◌, ◌++◌, ok, arith, Option-cases,
}
use raft_log.Prelude.Ord.{le, le_self, le-not-lt, le_trans, not-le-none}
use raft_log.Types.{Types, ids, ChunkId, Segment, next_log_index}
use raft_log.State.{RaftLogState, RaftLogAction, RaftLogRecord, action, advance, purge_state}
use raft_log.StateMachine
use raft_log.StateMachine.{RaftLogStateMachine}
use raft_log.Wal.{Wal}
use raft_log.Wal.Laws.{Chunked, ids_of}
use raft_log.RaftLog.{
  RaftLog, append_and_apply, is_empty, after_close, buffer_removable_chunks, purge, flush,
}
use raft_log.StateMachine.Keeps.{apply_accepted}
use raft_log.RaftLog.Write.{append_and_apply_returned}
use raft_log.RaftLog.Removal.{flush-handed_over}

module _ {T : Types} where
  -- The oldest of the closed chunks does not pass the test.
  abbrev pub Halts : (RaftLogState T → Bool) → List (ChunkId × RaftLogState T) → Type 0
  Halts p [] = Unit
  Halts p (x ∷ closed) = p x.1 ≡ false

  map-ids : (xs ys : List (ChunkId × RaftLogState T)) → ids_of (xs ++ ys) ≡ ids_of xs ++ ids_of ys
  map-ids [] ys = refl
  map-ids (x ∷ xs) ys = ap (λ zs. x.0 ∷ zs) (map-ids xs ys)

module _ {T : Types} {W : Wal T} (k : Chunked W) where
  -- `drain_closed_chunks_while` goes on to the first chunk that fails the test.
  pub record Thorough : Type 0 where
    pub drain_halts :
        (p : RaftLogState T → Bool) (w : W.Store)
        → Halts p (k.closed (W.drain_closed_chunks_while p w).0)

  -- The chunks that wait to be removed, and behind them those that are closed.
  abbrev pub line : RaftLog T W → List ChunkId
  line rl = rl.removed_chunks ++ ids_of (k.closed rl.wal)

  -- The same chunks in line, and the same one open behind them.
  abbrev Same : RaftLog T W → RaftLog T W → Type 0
  Same rl rl' = (line rl' ≡ line rl) × (W.open_chunk_id rl'.wal ≡ W.open_chunk_id rl.wal)

  buffer-Same : (rl : RaftLog T W) → Same rl (buffer_removable_chunks rl)
  unfolding buffer_removable_chunks
  buffer-Same rl = elim (Option-cases rl.state_machine.log_state.purged) [
    | inl n ↦ rw n (refl, refl)
    | inr (id, n) ↦
        let p : RaftLogState T → Bool = λ state. le (ids T) state.last (some id) in
        let d = k.drain_step p rl.wal in
        let left = ids_of (k.closed (W.drain_closed_chunks_while p rl.wal).0) in
        rw n (
          append_assoc rl.removed_chunks (W.drain_closed_chunks_while p rl.wal).1 left
              ∙ ap (λ xs. rl.removed_chunks ++ xs)
                  (ap (λ xs. xs ++ left) d.names
                    ∙ sym (map-ids d.taken (k.closed (W.drain_closed_chunks_while p rl.wal).0))
                    ∙ sym (ap (λ xs. ids_of xs) d.splits)),
          d.same_open,
        )
  ]

  -- The same chunks, or the one that was open as well, if one that lies behind it is open now.
  abbrev pub InLine : RaftLog T W → RaftLog T W → Type 0
  InLine rl rl' =
      Same rl rl'
      ⊎ ((line rl' ≡ line rl ++ W.open_chunk_id rl.wal ∷ [])
          × ((W.open_chunk_id rl.wal).offset < (W.open_chunk_id rl'.wal).offset))

  InLine-between : (a b c d : RaftLog T W) → Same a b → InLine b c → Same c d → InLine a d
  InLine-between a b c d (p, q) (inl (r, s)) (t, u) = inl (t ∙ r ∙ p, u ∙ s ∙ q)
  InLine-between a b c d (p, q) (inr (r, s)) (t, u) = inr (
    t ∙ r ∙ ap (λ xs. xs ++ W.open_chunk_id b.wal ∷ []) p ∙ ap (λ c. line a ++ c ∷ []) q,
    rw u (rw q at s),
  )

  append-Same :
      (rec : RaftLogRecord T) (rl : RaftLog T W)
      → Same rl (record rl { wal = (W.append rec rl.wal).0 })
  append-Same rec rl = (
    ap (λ cs. rl.removed_chunks ++ ids_of cs) (k.append_step rec rl.wal).same_closed,
    (k.append_step rec rl.wal).same_open,
  )

  close-InLine :
      (state : RaftLogState T) (rl : RaftLog T W)
      → InLine rl (record rl { wal = (W.try_close_full_chunk state rl.wal).0 })
  close-InLine state rl = elim (k.close_step state rl.wal) [
    | inl s ↦ inl (ap (λ cs. rl.removed_chunks ++ ids_of cs) s.same_closed, s.same_open)
    | inr c ↦
        let last : ChunkId × RaftLogState T = (W.open_chunk_id rl.wal, state) in
        inr (
          ap (λ cs. rl.removed_chunks ++ ids_of cs) c.adds
              ∙ ap (λ ids. rl.removed_chunks ++ ids) (map-ids (k.closed rl.wal) (last ∷ []))
              ∙ sym (append_assoc rl.removed_chunks (ids_of (k.closed rl.wal)) (last.0 ∷ [])),
          c.opens,
        )
  ]

  -- A write closes one chunk at most, and nothing leaves the line.
  append_and_apply-InLine :
      (rec : RaftLogRecord T) (rl : RaftLog T W) → InLine rl (append_and_apply rec rl).0
  unfolding append_and_apply after_close
  append_and_apply-InLine rec rl =
      let w = (W.append rec rl.wal).0 in
      let sm = (StateMachine.apply rec (W.open_chunk_id w) (W.last_segment w) rl.state_machine).0 in
      let rl1 = record rl { wal = w } in
      let rl2 = record rl { wal = (W.try_close_full_chunk sm.log_state w).0 } in
      let rl3 = record rl2 { state_machine = sm } in
      let unchanged : InLine rl rl = inl (refl, refl) in
      let first : InLine rl rl1 = inl (append-Same rec rl) in
      let second : InLine rl rl2 =
        InLine-between rl rl1 rl2 rl2 (append-Same rec rl) (close-InLine sm.log_state rl1)
          (refl, refl) in
      let third : InLine rl (buffer_removable_chunks rl3) =
        InLine-between rl rl rl3 (buffer_removable_chunks rl3) (refl, refl) second
          (buffer-Same rl3) in
      ground (arith, unchanged, first, second, third)

  -- A flush with sync after `purged`, the store that a purge of `rl` leaves: the WAL has synced and
  -- has then been told to remove the chunks that waited in `purged`. These and the chunks still
  -- closed at the end are the line of `rl`, with the chunk that was open in `rl` if the purge has
  -- closed it.
  pub record Cleared (upto : T.LogId) (callback : Option W.Callback) (rl purged end : RaftLog T W)
      : Type 0 where
    pub synced : (W.send_pending true callback purged.wal).1 ≡ ok tt
    pub handed : end.wal ≡ (
        let w = (W.send_pending true callback purged.wal).0 in
        if is_empty purged.removed_chunks
        then w
        else (W.send_remove_chunks purged.removed_chunks w).0)
    pub in_line : InLine rl (record end { removed_chunks = purged.removed_chunks })
    pub none_wait : end.removed_chunks ≡ []
    pub halts : Halts (λ state. le (ids T) state.last (some upto)) (k.closed end.wal)

  Halts-below :
      (p q : RaftLogState T → Bool) (closed : List (ChunkId × RaftLogState T))
      → ((state : RaftLogState T) → p state ≡ false → q state ≡ false)
      → Halts p closed
      → Halts q closed
  Halts-below p q [] h x = tt
  Halts-below p q (c ∷ closed) h x = h c.1 x

  Halts-buffer :
      (upto : T.LogId) (rl : RaftLog T W)
      → Thorough
      → le (ids T) (some upto) rl.state_machine.log_state.purged ≡ true
      → Halts
          (λ state. le (ids T) state.last (some upto))
          (k.closed (buffer_removable_chunks rl).wal)
  unfolding buffer_removable_chunks
  Halts-buffer upto rl t h = elim (Option-cases rl.state_machine.log_state.purged) [
    | inl n ↦ absurd (ground (arith, rw n at h, not-le-none T.log_id_ord upto))
    | inr (id, n) ↦
        let p : RaftLogState T → Bool = λ state. le (ids T) state.last (some id) in
        let above : le (ids T) (some upto) (some id) ≡ true = rw n at h in
        rw n (
          Halts-below p (λ state. le (ids T) state.last (some upto)) _
            (λ state f. ground (arith, f, above, le_trans (ids T) state.last (some upto) (some id)))
            (t.drain_halts p rl.wal))
  ]

  purged_upto :
      (upto : T.LogId) (rl : RaftLog T W) (segment : Segment)
      → (append_and_apply (action (RaftLogAction.purge_upto upto)) rl).1 ≡ ok segment
      → le
          (ids T)
          (some upto)
          (append_and_apply
            (action (RaftLogAction.purge_upto upto))
            rl).0.state_machine.log_state.purged
        ≡ true
  unfolding advance purge_state
  purged_upto upto rl segment h =
      let rec : RaftLogRecord T = action (RaftLogAction.purge_upto upto) in
      let (checked, taken, kept, same) = append_and_apply_returned rec rl segment h in
      let w = (W.append rec rl.wal).0 in
      let purged = rl.state_machine.log_state.purged in
      let done =
        kept
        ∙ ap (λ x. x.0)
            (apply_accepted rl.state_machine rec (W.open_chunk_id w) (W.last_segment w) checked) in
      rw done (ground (arith, le_self (ids T) (some upto), le-not-lt (ids T) (some upto) purged))

  told_kept :
      (told : List ChunkId) (w : W.Store)
      → (let w' = if is_empty told then w else (W.send_remove_chunks told w).0 in
          (k.closed w' ≡ k.closed w) × (W.open_chunk_id w' ≡ W.open_chunk_id w))
  told_kept [] w = (refl, refl)
  told_kept (c ∷ told) w =
      ((k.remove_step (c ∷ told) w).same_closed, (k.remove_step (c ∷ told) w).same_open)

  -- A purge that is not below the purge point, step by step.
  purge_steps :
      (upto : T.LogId) (rl : RaftLog T W) (segment : Segment)
      → next_log_index T rl.state_machine.log_state.purged ≤ T.log_index upto
      → (purge upto rl).1 ≡ ok segment
      → (let r = append_and_apply (action (RaftLogAction.purge_upto upto)) rl in
          ((purge upto rl).0 ≡ buffer_removable_chunks r.0) × (r.1 ≡ ok segment))
  unfolding purge
  purge_steps upto rl segment h e = ground arith

  -- If the WAL satisfies the laws `Chunked`, and its drain of closed chunks goes on to the first
  -- that fails the test, then after a `purge(upto)` that is not below the purge point and returns,
  -- and a flush with sync that returns, no chunk waits to be removed, the oldest chunk that is
  -- still closed ends with a log id above `upto`, and the WAL was told, behind the sync, to remove
  -- the chunks that waited after the purge, if any. These chunks and the ones still closed are, in
  -- this order, exactly those that waited and those that were closed before the purge, and behind
  -- them the chunk that was open if the purge has closed it, in which case the open chunk lies
  -- after it.
  pub purge-flush :
      (upto : T.LogId) (rl : RaftLog T W) (segment : Segment) (callback : Option W.Callback)
      → Thorough
      → next_log_index T rl.state_machine.log_state.purged ≤ T.log_index upto
      → (purge upto rl).1 ≡ ok segment
      → (flush true callback (purge upto rl).0).1 ≡ ok tt
      → Cleared upto callback rl (purge upto rl).0 (flush true callback (purge upto rl).0).0
  purge-flush upto rl segment callback t h e f =
      let rec : RaftLogRecord T = action (RaftLogAction.purge_upto upto) in
      let rl0 = (append_and_apply rec rl).0 in
      let rl1 = (purge upto rl).0 in
      let w = (W.send_pending true callback rl1.wal).0 in
      let end = (flush true callback rl1).0 in
      let (steps, done) = purge_steps upto rl segment h e in
      let (sent, none_wait, handed) = flush-handed_over callback rl1 f in
      let halts0 = Halts-buffer upto rl0 t (purged_upto upto rl segment done) in
      let (told_closed, told_open) = told_kept rl1.removed_chunks w in
      let sync = k.send_step true callback rl1.wal in
      let same : k.closed end.wal ≡ k.closed rl1.wal =
        ap (λ w. k.closed w) handed ∙ told_closed ∙ sync.same_closed in
      let whole : Same rl0 (record end { removed_chunks = rl1.removed_chunks }) = (
        ap (λ cs. rl1.removed_chunks ++ ids_of cs) same
            ∙ ap (λ x. line x) steps
            ∙ (buffer-Same rl0).0,
        ap (λ w. W.open_chunk_id w) handed
            ∙ told_open
            ∙ sync.same_open
            ∙ ap (λ x. W.open_chunk_id x.wal) steps
            ∙ (buffer-Same rl0).1,
      ) in
      record {
        synced = sent;
        handed = handed;
        in_line =
            InLine-between rl rl rl0 (record end { removed_chunks = rl1.removed_chunks })
              (refl, refl) (append_and_apply-InLine rec rl) whole;
        none_wait = none_wait;
        halts = rw (same ∙ ap (λ x. k.closed x.wal) steps) halts0;
      }
