-- ===== src/RaftLog/Reread.antt =====
-- The records of a WAL of which the chunks before an offset may be gone, replayed again: the store
-- that opens shows what all of them lead to.
use raft_log.Prelude.{
  refl, inl, inr, none, true, All2, All2-imp, ◌≤◌, ◌≡◌, ◌∙◌, sym, ap, subst, List, [], ◌∷◌, ◌++◌,
  ok, All, ◌<◌,
}
use raft_log.Types.{Types, ChunkId}
use raft_log.Config.{Config}
use raft_log.StateMachine
use raft_log.State.{checkpoint, RaftLogAction, action}
use raft_log.StateMachine.{RaftLogStateMachine, LogData, Log, apply}
use raft_log.RaftLog.Reopen.{Removed, open_log-replay_later, replay_saved}
use raft_log.RaftLog.Open.{
  replayed-Abreast, opened_on, opened_state_machine, Stored, replay, apply_record, Replays,
}
use raft_log.Contents.{Entries, Load, AllShown}
use raft_log.Wal.{Wal}
use raft_log.Wal.Laws.{Chunked}
use raft_log.RaftLog.{RaftLog, open_log}
use raft_log.RaftLog.Recorded.{Traced, Written-equal, replayed}
use raft_log.RaftLog.RoundTrip.{replay_prefix}
use raft_log.RaftLog.Mirror.{nowhere, Mirrors}
use raft_log.RaftLog.Steady.{AllProper-prefix, Cached-replay, Steady, effects}
use raft_log.RaftLog.Advances.{held, advances, shown-equal, new-Cached, log_state-replay}
use raft_log.RaftLog.SideBySide.{Removed-AllShown}
use raft_log.RaftLog.Evicting.{Rises, run-Thinned}
use raft_log.RaftLog.Origins.{SourceIn, Sourced, SourceIn-left, replay-Sourced}
use raft_log.StateMachine.Thinned.{Thinned}
use raft_log.Cache
use raft_log.Cache.{evictable}
use raft_log.RaftLog.Twin.{Twins}

module _ {T : Types} where
  thinned-AllShown :
      (load : Load T) (rs : List (Stored T)) (a b : RaftLogStateMachine T) (log : Log T)
      (es : Entries T)
      → Thinned a b
      → AllShown T nowhere a.payload_cache log es
      → All2 (λ e x. SourceIn rs e x) log es
      → All
          (λ e.
            evictable b.payload_cache e.1.log_id ≡ true
            → (x : T.LogId × T.LogPayload) → SourceIn rs e x
            → load e.1.chunk_id e.1.record_segment ≡ ok (action (RaftLogAction.append x.0 x.1)))
          log
      → AllShown T load b.payload_cache log es
  thinned-AllShown load rs a b [] [] t x y z = tt
  thinned-AllShown load rs a b [] (q ∷ es) t x y z = absurd x
  thinned-AllShown load rs a b (e ∷ log) [] t x y z = absurd x
  thinned-AllShown load rs a b (e ∷ log) (q ∷ es) t x y z = (
    record {
      index = x.0.index;
      same = x.0.same;
      found = elim (t.thin q.0) [ inl f ↦ inl (f ∙ held a.payload_cache e q x.0) | inr g ↦ inr g ];
      stored = λ v. z.0 (rw x.0.same v) q y.0;
    },
    thinned-AllShown load rs a b log es t x.1 y.1 z.1,
  )

module _ {T : Types} {W : Wal T} (k : Chunked W) (t : Traced W) (config : Config W.WalConfig) where
  -- The entries that a store shows are what its records do, the one after the other.
  pub entries-trace :
      (rl : RaftLog T W) (x : Twins k t config rl) → x.entries ≡ effects (t.trace rl.wal) []
  entries-trace rl x =
      let written = Written-equal t config (t.trace rl.wal) rl.state_machine x.written in
      let sm = replayed t config (t.trace rl.wal) in
      let c =
        Cached-replay (t.trace rl.wal) (StateMachine.new config) [] x.steady written.0
          (new-Cached config) in
      shown-equal sm.payload_cache sm.log x.entries (effects (t.trace rl.wal) []) x.mirrors.shown
        c.shown

  -- So is its state.
  pub log_state-trace :
      (rl : RaftLog T W)
      → Twins k t config rl
      → rl.state_machine.log_state
        ≡ advances (t.trace rl.wal) (StateMachine.new {T = T} config).log_state
  log_state-trace rl x =
      let (accepted, log, state) =
        Written-equal t config (t.trace rl.wal) rl.state_machine x.written in
      state ∙ log_state-replay (t.trace rl.wal) (StateMachine.new config) accepted

  -- The records that are in the WAL still.
  pub durable-Cached :
      (end : RaftLog T W) (durable lost : List (Stored T))
      → Twins k t config end
      → t.trace end.wal ≡ durable ++ lost
      → ((replay apply_record durable (StateMachine.new config)).1 ≡ ok tt)
        × Mirrors t config durable (effects durable [])
        × All2 (Sourced durable) (replayed t config durable).log (effects durable [])
  unfolding StateMachine.new
  durable-Cached end durable lost x split =
      let new = StateMachine.new {T = T} config in
      let written = Written-equal t config (t.trace end.wal) end.state_machine x.written in
      let steady : Steady t config (durable ++ lost) = subst (Steady t config) split x.steady in
      let accepted = replay_prefix durable lost new (rw split at written.0) in
      let proper = AllProper-prefix durable lost new steady in
      (
        accepted,
        Cached-replay durable new [] proper accepted (new-Cached config),
        replay-Sourced durable durable new [] (λ e a s. s) proper accepted (new-Cached config) tt,
      )

  -- Of the records of a list, those in the chunks before an offset are gone, and the first chunk
  -- that is left begins with a checkpoint. No entry that the list leads to lies in a chunk that is
  -- gone.
  pub record InPlace (durable : List (Stored T)) (head : Stored T) (after : List (Stored T))
      : Type 0 where
    pub first : ChunkId
    pub before : List (Stored T)
    pub split : durable ≡ before ++ head ∷ after
    pub earlier : All (λ r. r.chunk_id.offset < first.offset) before
    pub later : All (λ r. first.offset ≤ r.chunk_id.offset) after
    pub saved : head.rec ≡ checkpoint (replayed t config before).log_state
    pub live : All (λ e. first.offset ≤ e.1.chunk_id.offset) (replayed t config durable).log

  InPlace-Removed :
      (durable : List (Stored T)) (head : Stored T) (after : List (Stored T))
      → (replay apply_record durable (StateMachine.new config)).1 ≡ ok tt
      → (g : InPlace durable head after) → Removed config g.first g.before after head
  InPlace-Removed durable head after h g =
      let first = replay_prefix g.before (head ∷ after) _ (rw g.split at h) in
      record {
        accepted = first;
        saved = g.saved;
        earlier = g.earlier;
        later = g.later;
        live =
            subst (λ m. All (λ e. g.first.offset ≤ e.1.chunk_id.offset) m)
              (ap (λ rs. (replayed t config rs).log) g.split
                ∙ ap (λ r. r.0.log) (replay_saved config g.before after head first g.saved))
              g.live;
      }

  -- What the WAL does for the payloads that are evicted while it opens: it says that chunks are
  -- synced in their order, and afterwards it loads what it has read at the place of an entry that
  -- may be evicted.
  pub record Restores {records : List (Stored T)} (p : Replays W config records) : Type 0 where
    pub rises : Rises none p.steps
    pub loads :
        (rl : RaftLog T W)
        → open_log config ≡ ok rl
        → All
            (λ e.
              evictable rl.state_machine.payload_cache e.1.log_id ≡ true
              → (a : T.LogId × T.LogPayload) → SourceIn records e a
              → W.load_record rl.wal e.1.chunk_id e.1.record_segment
                ≡ ok (action (RaftLogAction.append a.0 a.1)))
            rl.state_machine.log

  -- The store that opens on what is left shows what all the records lead to.
  pub reopened :
      (durable : List (Stored T)) (head : Stored T) (after : List (Stored T)) (es : Entries T)
      (w : W.Store) (p : Replays W config (head ∷ after))
      → (replay apply_record durable (StateMachine.new config)).1 ≡ ok tt
      → Mirrors t config durable es
      → All2 (Sourced durable) (replayed t config durable).log es
      → InPlace durable head after
      → Restores p
      → p.opened ≡ ok w
      → (rl : RaftLog T W) × (open_log config ≡ ok rl)
        × (rl.state_machine.log ≡ (replayed t config durable).log)
        × (rl.state_machine.log_state ≡ (replayed t config durable).log_state)
        × AllShown T (W.load_record rl.wal) rl.state_machine.payload_cache rl.state_machine.log es
  unfolding StateMachine.new Cache.new
  reopened durable head after es w p h c d g q o =
      let new = StateMachine.new {T = T} config in
      let r = InPlace-Removed durable head after h g in
      let whole : replay apply_record durable new ≡ replay apply_record (g.before ++ after) new =
        ap (λ rs. replay apply_record rs new) g.split
        ∙ replay_saved config g.before after head r.accepted g.saved in
      let (rl, opened, log, state) =
        open_log-replay_later config g.first g.before after head w p o r
          (sym (ap (λ x. x.1) whole) ∙ h) in
      let same = log ∙ sym (ap (λ x. x.0.log) whole) in
      let machine = (opened_state_machine config (head ∷ after) rl p opened).1 in
      let plain = (replay apply_record (head ∷ after) new).0 in
      let abreast = (replayed-Abreast config (head ∷ after) p).1 in
      let levels : rl.state_machine.log ≡ plain.log = ap (λ sm. sm.log) machine ∙ abreast.log in
      let of = λ (rs : List (Stored T)). replayed t config rs in
      let shown : AllShown T nowhere plain.payload_cache plain.log es =
        Removed-AllShown config g.first g.before after head nowhere es r
          (subst (λ rs. AllShown T nowhere (of rs).payload_cache (of rs).log es) g.split c.shown)
          (sym levels ∙ same ∙ ap (λ rs. (of rs).log) g.split) in
      let thinned : Thinned plain (opened_on p) =
        subst (λ rs. Thinned (replay apply_record rs new).0 (opened_on p)) p.order
          (run-Thinned p.steps new new q.rises (record { log = refl; state = refl })
            (record {
              here = record { sorted = tt; lone = refl };
              sorted = tt;
              thin = λ j. inl refl;
            })) in
      let sources : All2 (λ e a. SourceIn (head ∷ after) e a) (of durable).log es =
        All2-imp (λ e. g.first.offset ≤ e.1.chunk_id.offset)
          (λ e a up s.
            SourceIn-left g.first g.before (head ∷ after) e a g.earlier up
              (subst (λ rs. SourceIn rs e a) g.split s.source))
          (of durable).log es g.live d in
      (
        rl,
        opened,
        same,
        state ∙ sym (ap (λ x. x.0.log_state) whole),
        thinned-AllShown (W.load_record rl.wal) (head ∷ after) plain rl.state_machine
            rl.state_machine.log es (rw machine thinned) (rw levels shown) (rw same sources)
            (q.loads rl opened),
      )
