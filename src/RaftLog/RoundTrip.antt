-- ===== src/RaftLog/RoundTrip.antt =====
-- A history of requests, and then an open: the store comes back.
use raft_log.Prelude.{
  ◌≡◌, ◌∙◌, sym, ap, subst, List, [], ◌∷◌, ◌++◌, All, ok, arith, Outcome-cases, inl, inr, ◌<◌, ◌≤◌,
  refl,
}
use raft_log.Types.{Types, ChunkId}
use raft_log.Config.{Config}
use raft_log.State.{checkpoint}
use raft_log.StateMachine.{RaftLogStateMachine, apply}
use raft_log.Wal.{Wal}
use raft_log.RaftLog.{RaftLog, open_log}
use raft_log.RaftLog.Open.{Stored, replay, apply_record, Replays}
use raft_log.RaftLog.Reopen.{Removed, open_log-replay_later, replay_saved}
use raft_log.RaftLog.Run.{Request}
use raft_log.RaftLog.History.{serve_all}
use raft_log.RaftLog.Recorded.{
  Traced, Recorded, Written, replayed, serve_all-Recorded, Written-equal,
}

module _ {T : Types} where
  -- The first records of a list that is accepted are accepted.
  pub replay_prefix :
      (rs qs : List (Stored T)) (sm : RaftLogStateMachine T)
      → (replay apply_record (rs ++ qs) sm).1 ≡ ok tt
      → (replay apply_record rs sm).1 ≡ ok tt
  replay_prefix [] qs sm h = refl
  replay_prefix (x ∷ rs) qs sm h = elim (Outcome-cases (apply x.rec x.chunk_id x.segment sm).1) [
    | inl (_, e) ↦ rw e (replay_prefix rs qs (apply x.rec x.chunk_id x.segment sm).0 (rw e at h))
    | inr (inl (y, e)) ↦ absurd (ground (arith, e, h))
    | inr (inr e) ↦ absurd (ground (arith, e, h))
  ]

module _ {T : Types} {W : Wal T} (k : Traced W) (config : Config W.WalConfig) where
  -- What lies in the WAL at the end: the chunks before an offset are gone, and no entry of the log
  -- map was in them. The first chunk that is left begins with a checkpoint.
  pub record Left (end : RaftLog T W) (head : Stored T) (after : List (Stored T)) : Type 0 where
    pub first : ChunkId
    pub before : List (Stored T)
    pub split : k.trace end.wal ≡ before ++ head ∷ after
    pub earlier : All (λ r. r.chunk_id.offset < first.offset) before
    pub later : All (λ r. first.offset ≤ r.chunk_id.offset) after
    pub saved : head.rec ≡ checkpoint (replayed k config before).log_state
    pub live : All (λ e. first.offset ≤ e.1.chunk_id.offset) end.state_machine.log

  pub Left-Removed :
      (end : RaftLog T W) (head : Stored T) (after : List (Stored T))
      → Recorded k config end
      → (l : Left end head after) → Removed config l.first l.before after head
  Left-Removed end head after v l =
      let (accepted, log, state) = Written-equal k config (k.trace end.wal) end.state_machine v in
      let first = replay_prefix l.before (head ∷ after) _ (rw l.split at accepted) in
      record {
        accepted = first;
        saved = l.saved;
        earlier = l.earlier;
        later = l.later;
        live =
            subst (λ m. All (λ e. l.first.offset ≤ e.1.chunk_id.offset) m)
              (log
                ∙ ap (λ rs. (replayed k config rs).log) l.split
                ∙ ap (λ r. r.0.log) (replay_saved config l.before after head first l.saved))
              l.live;
      }

  -- If the WAL satisfies the laws `Traced` on the records that it writes, then take any history of
  -- requests from a store whose records, replayed, lead to its log map and state, as those of a new
  -- store do. Suppose that at its end the chunks below some offset are gone, that the first chunk
  -- left begins with a checkpoint of the state that the records before it lead to, that no entry of
  -- the log map lies in a chunk that is gone, and that the WAL, when it opens, hands over the
  -- records left, in order, up to the first that is refused, calls the boundary callback between
  -- them as it may, and opens. Then `open` returns a store with the same log map and the same state
  -- as the store had after the history, be its requests accepted, refused or broken off by an
  -- error.
  pub open_log-serve_all :
      (qs : List (Request T W)) (start : RaftLog T W) (head : Stored T) (after : List (Stored T))
      (w : W.Store) (p : Replays W config (head ∷ after))
      → Recorded k config start
      → Left (serve_all qs start) head after
      → p.opened ≡ ok w
      → (rl : RaftLog T W) × (open_log config ≡ ok rl)
        × (rl.state_machine.log ≡ (serve_all qs start).state_machine.log)
        × (rl.state_machine.log_state ≡ (serve_all qs start).state_machine.log_state)
  open_log-serve_all qs start head after w p v l o =
      let end = serve_all qs start in
      let written : Written k config (l.before ++ head ∷ after) end.state_machine =
        rw l.split at (serve_all-Recorded k config qs start v) in
      let (accepted, log, state) = Written-equal k config _ end.state_machine written in
      let removed = Left-Removed end head after (serve_all-Recorded k config qs start v) l in
      let whole = replay_saved config l.before after head removed.accepted l.saved in
      let (rl, opened, log', state') =
        open_log-replay_later config l.first l.before after head w p o removed
          (sym (ap (λ r. r.1) whole) ∙ accepted) in
      (
        rl,
        opened,
        log' ∙ sym (log ∙ ap (λ r. r.0.log) whole),
        state' ∙ sym (state ∙ ap (λ r. r.0.log_state) whole),
      )
