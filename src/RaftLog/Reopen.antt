-- ===== src/RaftLog/Reopen.antt =====
-- Opening a store whose first chunks have been removed. A chunk begins with a checkpoint of the
-- state, and the entries of the chunks before it are not there to replay.
use raft_log.Prelude.{
  ◌≡◌, ◌∙◌, sym, ap, ok, Bool, true, ◌++◌, List, [], ◌∷◌, All, All-imp, arith, leb, Option-cases,
  inl, inr, ◌<◌, ◌≤◌,
}
use raft_log.Types.{Types, ChunkId}
use raft_log.Config.{Config}
use raft_log.BTreeMap.Laws.{keep-All}
use raft_log.State.{checkpoint}
use raft_log.StateMachine
use raft_log.StateMachine.{RaftLogStateMachine, LogData, Log, absorb, apply}
use raft_log.RaftLog.Open.{Stored, replay, apply_record, Replays, opened_on, replayed-Abreast}
use raft_log.Wal.{Wal}
use raft_log.RaftLog.{RaftLog, open_log, buffer_removable_chunks}
use raft_log.RaftLog.Reduced.{replay-Reduced, replay-append, begun-Reduced, replay_head}

module _ {T : Types} where
  -- The records of one store, of which those `before` lie in chunks that have been removed.
  pub record Removed {C : Type 0} (config : Config C) (first : ChunkId)
      (before after : List (Stored T)) (head : Stored T) : Type 0 where
    pub accepted : (replay apply_record before (StateMachine.new config)).1 ≡ ok tt
    pub saved :
        head.rec ≡ checkpoint (replay apply_record before (StateMachine.new config)).0.log_state
    pub earlier : All (λ r. r.chunk_id.offset < first.offset) before
    pub later : All (λ r. first.offset ≤ r.chunk_id.offset) after
    pub live :
        All
          (λ e. first.offset ≤ e.1.chunk_id.offset)
          (replay apply_record (before ++ after) (StateMachine.new config)).0.log

  -- With the checkpoint or without it, the records lead to the same.
  pub replay_saved :
      {C : Type 0} (config : Config C) (before after : List (Stored T)) (head : Stored T)
      → (let new = StateMachine.new {T = T} config in
          (replay apply_record before new).1 ≡ ok tt
          → head.rec ≡ checkpoint (replay apply_record before new).0.log_state
          → replay apply_record (before ++ head ∷ after) new
            ≡ replay apply_record (before ++ after) new)
  replay_saved config before after head accepted saved =
      let new = StateMachine.new {T = T} config in
      replay-append before (head ∷ after) new accepted
      ∙ replay_head head after _ (replay apply_record before new).0 saved
      ∙ sym (replay-append before after new accepted)

  pub replay_later :
      {C : Type 0} (config : Config C) (first : ChunkId) (before after : List (Stored T))
      (head : Stored T)
      → Removed config first before after head
      → ((replay apply_record (head ∷ after) (StateMachine.new config)).1
          ≡ (replay apply_record (before ++ after) (StateMachine.new config)).1)
        × ((replay apply_record (head ∷ after) (StateMachine.new config)).0.log
            ≡ (replay apply_record (before ++ after) (StateMachine.new config)).0.log)
        × ((replay apply_record (head ∷ after) (StateMachine.new config)).0.log_state
            ≡ (replay apply_record (before ++ after) (StateMachine.new config)).0.log_state)
  unfolding StateMachine.new
  replay_later config first before after head r =
      let q : ChunkId → Bool = λ c. leb first.offset c.offset in
      let new = StateMachine.new {T = T} config in
      let sm = (replay apply_record before new).0 in
      let whole = replay-append before after new r.accepted in
      let begun = begun-Reduced config first before r.earlier in
      let (end, out) =
        replay-Reduced q after sm (record new { log_state = sm.log_state })
          (All-imp (λ x h. ground (arith, h)) after r.later) begun in
      let live : All (λ e. q e.1.chunk_id ≡ true) (replay apply_record after sm).0.log =
        All-imp (λ e h. ground (arith, h)) (replay apply_record after sm).0.log
          (rw whole at r.live) in
      let opened = replay_head head after sm.log_state new r.saved in
      rw (whole, opened) (out, end.kept ∙ keep-All _ _ live, end.same)

module _ {T : Types} {W : Wal T} where
  pub open_log_returns :
      (config : Config W.WalConfig) (records : List (Stored T)) (w : W.Store)
      (p : Replays W config records)
      → p.opened ≡ ok w
      → (replay apply_record records (StateMachine.new config)).1 ≡ ok tt
      → (rl : RaftLog T W) × (open_log config ≡ ok rl) × (rl.state_machine ≡ opened_on p)
  unfolding open_log buffer_removable_chunks
  open_log_returns config records w p o h =
      let run_ok = (replayed-Abreast config records p).0 ∙ h in
      let sm = opened_on p in
      let rl : RaftLog T W = buffer_removable_chunks (record {
        config = config;
        wal = w;
        state_machine = sm;
        removed_chunks = [];
        cache_hit = 0;
        cache_miss = 0;
      }) in
      (
        rl,
        ground (arith, p.runs, run_ok, o),
        elim (Option-cases sm.log_state.purged) [
          | inl n ↦ ground (arith, n)
          | inr (id, n) ↦ ground (arith, n)
        ],
      )

  -- Take a store that wrote some records `before`, then, at the head of a new chunk, a checkpoint
  -- of the state that they led to, then records `after`, whose chunks lie at or after an offset
  -- that all chunks of `before` lie below. If every one of these records but the checkpoint is
  -- accepted in turn by a new state machine, each entry of the log map that they lead to lies in a
  -- chunk at or after the offset, and the WAL replays the checkpoint and `after` alone and opens,
  -- then `open` returns a store whose log map and state are those that `before` and `after`
  -- together lead to: removing the chunks of `before` has lost nothing.
  pub open_log-replay_later :
      (config : Config W.WalConfig) (first : ChunkId) (before after : List (Stored T))
      (head : Stored T) (w : W.Store) (p : Replays W config (head ∷ after))
      → p.opened ≡ ok w
      → Removed config first before after head
      → (replay apply_record (before ++ after) (StateMachine.new config)).1 ≡ ok tt
      → (rl : RaftLog T W) × (open_log config ≡ ok rl)
        × (rl.state_machine.log
            ≡ (replay apply_record (before ++ after) (StateMachine.new config)).0.log)
        × (rl.state_machine.log_state
            ≡ (replay apply_record (before ++ after) (StateMachine.new config)).0.log_state)
  open_log-replay_later config first before after head w p o r h =
      let (out, log, state) = replay_later config first before after head r in
      let (rl, opened, same) = open_log_returns config (head ∷ after) w p o (out ∙ h) in
      let x = (replayed-Abreast config (head ∷ after) p).1 in
      (
        rl,
        opened,
        ap (λ sm. sm.log) same ∙ x.log ∙ log,
        ap (λ sm. sm.log_state) same ∙ x.state ∙ state,
      )
