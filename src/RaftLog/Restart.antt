-- ===== src/RaftLog/Restart.antt =====
-- A history of requests, and then an open: the store that opens reads the same entries.
use raft_log.Prelude.{
  ℕ, ◌≤◌, ◌<◌, ◌≡◌, ◌∙◌, sym, subst, List, [], ◌∷◌, ◌++◌, All, All-imp, ok, inl, inr,
}
use raft_log.Types.{Types, ChunkId}
use raft_log.Config.{Config}
use raft_log.State.{checkpoint}
use raft_log.StateMachine.{LogData}
use raft_log.Contents.{AllShown}
use raft_log.Wal.{Wal}
use raft_log.Wal.Laws.{Chunked}
use raft_log.RaftLog.{RaftLog, open_log, read}
use raft_log.RaftLog.Open.{Stored, Replays}
use raft_log.RaftLog.Run.{Request}
use raft_log.RaftLog.History.{serve_all, AllSafe, read-AllShown}
use raft_log.RaftLog.Recorded.{Traced, Written-equal, replayed}
use raft_log.RaftLog.RoundTrip.{Left}
use raft_log.RaftLog.Places.{ClosedChunks, LiesIn, Placed}
use mathlib.Core.List.{append-nil}
use raft_log.RaftLog.Steady.{effects}
use raft_log.RaftLog.Reread.{InPlace, Restores, reopened, durable-Cached, entries-trace}
use raft_log.RaftLog.Twin.{Twins, serve_all-Twins}

module _ {T : Types} where
  LiesIn-left :
      (cl : ClosedChunks T) (first : ChunkId) (d : LogData T)
      → All (λ x. first.offset ≤ x.0.offset) cl
      → LiesIn cl d
      → first.offset ≤ d.chunk_id.offset
  LiesIn-left [] first d h l = absurd l
  LiesIn-left (x ∷ cl) first d h (inl (same, up)) = rw same h.0
  LiesIn-left (x ∷ cl) first d h (inr l) = LiesIn-left cl first d h.1 l

  Placed-left :
      (cl : ClosedChunks T) (o first : ChunkId) (d : LogData T)
      → All (λ x. first.offset ≤ x.0.offset) cl
      → first.offset ≤ o.offset
      → Placed cl o d
      → first.offset ≤ d.chunk_id.offset
  Placed-left cl o first d h g (inl same) = rw same g
  Placed-left cl o first d h g (inr l) = LiesIn-left cl first d h l

module _ {T : Types} {W : Wal T} (k : Chunked W) (t : Traced W) (config : Config W.WalConfig) where
  -- What lies in the WAL at the end: the chunks before an offset are gone, and the store's own
  -- chunks lie behind it. The first chunk that is left begins with a checkpoint.
  pub record Remains (end : RaftLog T W) (head : Stored T) (after : List (Stored T)) : Type 0 where
    pub first : ChunkId
    pub before : List (Stored T)
    pub split : t.trace end.wal ≡ before ++ head ∷ after
    pub earlier : All (λ r. r.chunk_id.offset < first.offset) before
    pub later : All (λ r. first.offset ≤ r.chunk_id.offset) after
    pub saved : head.rec ≡ checkpoint (replayed t config before).log_state
    pub closed_left : All (λ x. first.offset ≤ x.0.offset) (k.closed end.wal)
    pub open_left : first.offset ≤ (W.open_chunk_id end.wal).offset

  -- No entry lies in a chunk that is gone, since each lies in a chunk of the store.
  Remains-Left :
      (end : RaftLog T W) (head : Stored T) (after : List (Stored T))
      → Twins k t config end
      → Remains end head after
      → Left t config end head after
  Remains-Left end head after x r = record {
    first = r.first;
    before = r.before;
    split = r.split;
    earlier = r.earlier;
    later = r.later;
    saved = r.saved;
    live =
        All-imp
          (λ e.
            Placed-left (k.closed end.wal) (W.open_chunk_id end.wal) r.first e.1 r.closed_left
              r.open_left)
          end.state_machine.log x.good.laid.placed;
  }

  Left-InPlace :
      (end : RaftLog T W) (head : Stored T) (after : List (Stored T))
      → Twins k t config end
      → Left t config end head after
      → InPlace k t config (t.trace end.wal) head after
  Left-InPlace end head after x l =
      let (accepted, log, state) =
        Written-equal t config (t.trace end.wal) end.state_machine x.written in
      record {
        first = l.first;
        before = l.before;
        split = l.split;
        earlier = l.earlier;
        later = l.later;
        saved = l.saved;
        live = subst (λ m. All (λ e. l.first.offset ≤ e.1.chunk_id.offset) m) log l.live;
      }

  -- If the WAL satisfies the laws `Chunked` and `Traced`, then take any history of requests, each
  -- fair and safe where it is served, from a store of which `Twins` holds, as it does of a new
  -- store. Suppose that at its end the chunks below some offset are gone, none of which the store
  -- holds as closed or open, that the first chunk left begins with a checkpoint of the state that
  -- the records before it lead to; that the WAL, when it opens, hands over the records left, in
  -- order, up to the first that is refused, calls the boundary callback between them with states
  -- whose `last` never goes back, and opens; and that the opened WAL loads, for an entry of the log
  -- map that may be evicted, the append record that it handed over with the entry's place. Then
  -- `open` returns a store in which `read` of every range gives exactly what it gives in the store
  -- at the end of the history, entries, payloads and order.
  pub read-open_log :
      (qs : List (Request T W)) (start : RaftLog T W) (head : Stored T) (after : List (Stored T))
      (w : W.Store) (p : Replays W config (head ∷ after))
      → Twins k t config start
      → AllSafe qs start
      → Remains (serve_all qs start) head after
      → Restores k t config p
      → p.opened ≡ ok w
      → (rl : RaftLog T W) × (open_log config ≡ ok rl)
        × ((from to : ℕ) → from ≤ to → (read from to rl).1 ≡ (read from to (serve_all qs start)).1)
  read-open_log qs start head after w p x safe r q o =
      let end = serve_all qs start in
      let y = serve_all-Twins k t config qs start safe x in
      let l = Remains-Left end head after y r in
      let (accepted, c, d) =
        durable-Cached k t config end (t.trace end.wal) [] y (sym (append-nil (t.trace end.wal))) in
      let (rl, opened, log, state, shown) =
        reopened k t config (t.trace end.wal) head after (effects (t.trace end.wal) []) w p accepted
          c d (Left-InPlace end head after y l) q o in
      (
        rl,
        opened,
        λ from to h.
            read-AllShown from to rl (effects (t.trace end.wal) []) h shown
            ∙ sym (
                read-AllShown from to end (effects (t.trace end.wal) []) h (
                  subst
                    (AllShown T (W.load_record end.wal) end.state_machine.payload_cache
                      end.state_machine.log)
                    (entries-trace k t config end y) y.good.shown)),
      )
