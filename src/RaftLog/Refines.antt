-- ===== src/RaftLog/Refines.antt =====
-- The store refines a list of entries: each operation does to what the store shows what its
-- documentation says, and no entry that can be read is lost to an eviction or a removed chunk.
use raft_log.Prelude.{
  ◌≡◌, ◌⊎◌, inl, inr, refl, sym, subst, some, Bool, true, List, ◌++◌, All, All-imp, All2-imp,
  All-suffix, All-trivial, Outcome, ok, err, panic, arith, Option-cases, Outcome-cases,
}
use raft_log.Prelude.Ord.{lt, le}
use raft_log.Types.{Types, ids, ChunkId, Segment}
use raft_log.Errors.{IoError}
use raft_log.State.{RaftLogState, RaftLogRecord}
use raft_log.Cache.{PayloadCache}
use raft_log.StateMachine
use raft_log.StateMachine.{RaftLogStateMachine, LogData, Log, absorb, check}
use raft_log.StateMachine.Inv.{entries_upto_last}
use raft_log.StateMachine.Entries.{absorb-All}
use raft_log.StateMachine.Keeps.{SmInv, Admissible, apply_accepted, apply-SmInv}
use raft_log.Contents.{Entries, AllShown, effect}
use raft_log.Contents.Effects.{IsFresh, effect-Shown}
use raft_log.Wal.{Wal}
use raft_log.Wal.Laws.{Chunked, SameChunks, ChunksDrained, Loads, After}
use raft_log.RaftLog.{RaftLog, append_and_apply, after_close, buffer_removable_chunks}
use raft_log.RaftLog.Places.{Laid, Placed, close-Laid, drain-Laid, After-removed}

module _ {T : Types} {W : Wal T} (k : Chunked W) where
  -- A WAL, a state machine and the chunks that wait to be removed show the entries.
  pub record Good (w : W.Store) (sm : RaftLogStateMachine T) (removed : List ChunkId)
      (es : Entries T) : Type 0 where
    pub sound : SmInv sm
    pub shown : AllShown T (W.load_record w) sm.payload_cache sm.log es
    pub laid : Laid (k.closed w) (W.open_chunk_id w) removed sm.log

  -- The entries go on being shown when what could be loaded still can.
  Loads-Shown :
      (P : ChunkId → Type 0) (w w' : W.Store) (c : PayloadCache T) (log : Log T) (es : Entries T)
      → Loads W k.closed P w w'
      → All (λ e. P e.1.chunk_id) log
      → AllShown T (W.load_record w) c log es
      → AllShown T (W.load_record w') c log es
  Loads-Shown P w w' c log es loads live shown =
      All2-imp (λ e. P e.1.chunk_id)
        (λ e a h s. record {
          index = s.index;
          same = s.same;
          found = s.found;
          stored = λ v. loads e.1.chunk_id e.1.record_segment _ h (s.stored v);
        })
        log es live shown

  pub same-Good :
      (P : ChunkId → Type 0) (w w' : W.Store) (sm : RaftLogStateMachine T) (removed : List ChunkId)
      (es : Entries T)
      → SameChunks W k.closed P w w'
      → All (λ e. P e.1.chunk_id) sm.log
      → Good w sm removed es
      → Good w' sm removed es
  same-Good P w w' sm removed es s live g = record {
    sound = g.sound;
    shown = Loads-Shown P w w' sm.payload_cache sm.log es s.loads live g.shown;
    laid = rw (s.same_closed, s.same_open) g.laid;
  }

  pub close-Good :
      (w : W.Store) (sm : RaftLogStateMachine T) (removed : List ChunkId) (es : Entries T)
      → Good w sm removed es
      → Good (W.try_close_full_chunk sm.log_state w).0 sm removed es
  close-Good w sm removed es g = elim (k.close_step sm.log_state w) [
    | inl s ↦ same-Good (λ c. Unit) w _ sm removed es s (All-trivial sm.log) g
    | inr s ↦ record {
      sound = g.sound;
      shown =
          Loads-Shown (λ c. Unit) w _ sm.payload_cache sm.log es s.loads (All-trivial sm.log)
            g.shown;
      laid = rw s.adds (
          close-Laid (k.closed w) (W.open_chunk_id w) _ sm.log_state removed sm.log s.opens
            (entries_upto_last sm.log sm.log_state g.sound.log) g.laid);
    }
  ]

  -- The entries that are live lie above the purge point, and the chunks drained do not.
  drained-Good :
      (w w' : W.Store) (ids' : List ChunkId) (sm : RaftLogStateMachine T) (removed : List ChunkId)
      (es : Entries T) (purged : T.LogId)
      → sm.log_state.purged ≡ some purged
      → ChunksDrained W k.closed (λ state. le (ids T) state.last (some purged)) w w' ids'
      → Good w sm removed es
      → Good w' sm (removed ++ ids') es
  drained-Good w w' ids' sm removed es purged at d g =
      let above : All (λ e. lt (ids T) (some purged) (some e.1.log_id) ≡ true) sm.log =
        All-imp (λ e a. rw at at (a.0)) sm.log g.sound.log.above in
      let laid =
        drain-Laid d.taken (k.closed w') (W.open_chunk_id w) removed sm.log purged d.pass above
          (rw d.splits at g.laid) in
      let live : All (λ e. After ids' e.1.chunk_id) sm.log =
        All-imp (λ e h. rw d.names (All-suffix _ removed _ h)) sm.log
          (After-removed (k.closed w') (W.open_chunk_id w) _ sm.log laid) in
      record {
        sound = g.sound;
        shown = Loads-Shown (After ids') w w' sm.payload_cache sm.log es d.loads live g.shown;
        laid = rw (d.same_open, d.names) laid;
      }

  pub buffer-Good :
      (rl : RaftLog T W) (es : Entries T)
      → Good rl.wal rl.state_machine rl.removed_chunks es
      → Good
          (buffer_removable_chunks rl).wal
          (buffer_removable_chunks rl).state_machine
          (buffer_removable_chunks rl).removed_chunks
          es
  unfolding buffer_removable_chunks
  buffer-Good rl es g = elim (Option-cases rl.state_machine.log_state.purged) [
    | inl n ↦ ground (arith, n, g)
    | inr (purged, n) ↦
        let p : RaftLogState T → Bool = λ state. le (ids T) state.last (some purged) in
        let (w', ids') = W.drain_closed_chunks_while p rl.wal in
        ground (
          arith,
          n,
          drained-Good rl.wal w' ids' rl.state_machine rl.removed_chunks es purged n
              (k.drain_step p rl.wal) g,
        )
  ]

  pub apply-Good :
      (w : W.Store) (sm : RaftLogStateMachine T) (removed : List ChunkId) (es : Entries T)
      (rec : RaftLogRecord T) (segment : Segment)
      → Admissible sm rec
      → IsFresh sm.payload_cache rec
      → check sm rec ≡ ok tt
      → Good w sm removed es
      → Good w (StateMachine.apply rec (W.open_chunk_id w) segment sm).0 removed (effect T rec es)
  apply-Good w sm removed es rec segment a f h g =
      let o = W.open_chunk_id w in
      let applied = apply_accepted sm rec o segment h in
      let sound = apply-SmInv sm rec o segment g.sound a h in
      subst (λ r. Good w r.0 removed (effect T rec es)) (sym applied)
        (record {
          sound = subst (λ r. SmInv r.0) applied sound;
          shown = effect-Shown (W.load_record w) sm rec es o segment g.sound a f h g.shown;
          laid = record {
            rising = g.laid.rising;
            placed =
                absorb-All (Placed (k.closed w) o) sm rec o segment (λ id. inl refl) g.laid.placed;
            gone = g.laid.gone;
          };
        })

  -- How far a call got: all the way to the entries `target` if it returns, and there or nowhere if it
  -- does not.
  abbrev pub Ends :
      {A : Type 0} → Entries T → Entries T → RaftLog T W × Outcome (IoError T) A → Type 0
  Ends es target (rl, ok _) = Good rl.wal rl.state_machine rl.removed_chunks target
  Ends es target (rl, err _) =
      Good rl.wal rl.state_machine rl.removed_chunks es
      ⊎ Good rl.wal rl.state_machine rl.removed_chunks target
  Ends es target (rl, panic) =
      Good rl.wal rl.state_machine rl.removed_chunks es
      ⊎ Good rl.wal rl.state_machine rl.removed_chunks target

  -- If the WAL satisfies the laws `Chunked` on its chunks, a store shows a list of entries, and a
  -- record is `Admissible`, and above the eviction boundary if it is an append, then after the
  -- store's write of the record it shows the entries as the record changes them if the write
  -- returns, and these or the entries before if it fails, with a chunk closed and chunks taken off
  -- the WAL on the way or not.
  pub append_and_apply-Good :
      (rec : RaftLogRecord T) (rl : RaftLog T W) (es : Entries T)
      → Admissible rl.state_machine rec
      → IsFresh rl.state_machine.payload_cache rec
      → Good rl.wal rl.state_machine rl.removed_chunks es
      → Ends es (effect T rec es) (append_and_apply rec rl)
  unfolding append_and_apply after_close
  append_and_apply-Good rec rl es a f g =
      let sm = rl.state_machine in
      let w1 = (W.append rec rl.wal).0 in
      let g1 =
        same-Good (λ c. Unit) rl.wal w1 sm rl.removed_chunks es (k.append_step rec rl.wal)
          (All-trivial sm.log) g in
      elim (Outcome-cases (check sm rec)) [
        | inl (_, h) ↦
            let sm' = (StateMachine.apply rec (W.open_chunk_id w1) (W.last_segment w1) sm).0 in
            let g2 = apply-Good w1 sm rl.removed_chunks es rec (W.last_segment w1) a f h g1 in
            let w2 = (W.try_close_full_chunk sm'.log_state w1).0 in
            let g3 = close-Good w1 sm' rl.removed_chunks (effect T rec es) g2 in
            let g4 =
              buffer-Good (record rl { wal = w2; state_machine = sm' }) (effect T rec es) g3 in
            ground (arith, h, g1, g2, g3, g4)
        | inr (inl (e, h)) ↦ ground (arith, h, g)
        | inr (inr h) ↦ ground (arith, h, g)
      ]

  pub Ends-ok :
      {A : Type 0} (es target : Entries T) (p : RaftLog T W × Outcome (IoError T) A) (a : A)
      → p.1 ≡ ok a
      → Ends es target p
      → Good p.0.wal p.0.state_machine p.0.removed_chunks target
  Ends-ok es target (rl, ok b) a h w = w
  Ends-ok es target (rl, err e) a h w = absurd (ground (arith, h))
  Ends-ok es target (rl, panic) a h w = absurd (ground (arith, h))

  pub Ends-any :
      {A : Type 0} (es target : Entries T) (p : RaftLog T W × Outcome (IoError T) A)
      → Ends es target p
      → Good p.0.wal p.0.state_machine p.0.removed_chunks es
        ⊎ Good p.0.wal p.0.state_machine p.0.removed_chunks target
  Ends-any es target (rl, ok b) w = inr w
  Ends-any es target (rl, err e) w = w
  Ends-any es target (rl, panic) w = w
