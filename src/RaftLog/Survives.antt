-- ===== src/RaftLog/Survives.antt =====
-- A history, a `blocking_flush`, more requests, a crash, and then an open: what was there at the
-- flush is there again.
use raft_log.Prelude.{
  ℕ, ◌≤◌, ◌≡◌, ◌∙◌, sym, ap, Option, some, Bool, true, List, [], ◌∷◌, ◌++◌, map, ok, arith,
  All-trivial, Option-cases, inl, inr,
}
use raft_log.Prelude.Ord.{le}
use raft_log.Types.{Types, ids}
use raft_log.Config.{Config}
use raft_log.State.{RaftLogRecord}
use raft_log.StateMachine
use raft_log.Contents.{Entries}
use raft_log.Wal.{Wal}
use raft_log.Wal.Laws.{Chunked}
use raft_log.RaftLog.{
  RaftLog, open_log, read, append_and_apply, after_close, buffer_removable_chunks, flush,
  remove_after_sync,
}
use raft_log.RaftLog.Blocking.{Channel, blocking_flush}
use raft_log.RaftLog.Durable.{Begins, Begins-self, Begins-trans, Syncs, durable-blocking_flush}
use raft_log.RaftLog.Open.{Stored, Replays}
use raft_log.RaftLog.Steps.{Stable, serve-Stable}
use raft_log.RaftLog.Run.{Request, serve}
use raft_log.RaftLog.History.{serve_all, AllSafe, read-AllShown}
use raft_log.RaftLog.Recorded.{Traced}
use raft_log.RaftLog.Refines.{same-Good}
use raft_log.RaftLog.Steady.{effects, effects-append}
use raft_log.RaftLog.Twin.{Twins, moved, flush-Twins, serve_all-Twins}
use raft_log.RaftLog.Crash.{crash-open_log}
use raft_log.RaftLog.Reread.{InPlace, Restores, entries-trace, log_state-trace}
use raft_log.RaftLog.Advances.{advances, advances-append, between}

module _ {T : Types} {W : Wal T} {k : Chunked W} {t : Traced W} {channel : Channel W}
    (s : Syncs k t channel) where
  buffer-Leaves :
      (rs : List (Stored T)) (rl : RaftLog T W)
      → Begins rs (s.durable rl.wal)
      → Begins rs (s.durable (buffer_removable_chunks rl).wal)
  unfolding buffer_removable_chunks
  buffer-Leaves rs rl b = elim (Option-cases rl.state_machine.log_state.purged) [
    | inl n ↦ rw n b
    | inr (id, n) ↦ rw n (
        Begins-trans rs (s.durable rl.wal) _ b
          (s.drain_keeps (λ state. le (ids T) state.last (some id)) rl.wal))
  ]

  write-Leaves :
      (rs : List (Stored T)) (rec : RaftLogRecord T) (rl : RaftLog T W)
      → Begins rs (s.durable rl.wal)
      → Begins rs (s.durable (append_and_apply rec rl).0.wal)
  unfolding append_and_apply after_close
  write-Leaves rs rec rl b =
      let w = (W.append rec rl.wal).0 in
      let sm = (StateMachine.apply rec (W.open_chunk_id w) (W.last_segment w) rl.state_machine).0 in
      let w' = (W.try_close_full_chunk sm.log_state w).0 in
      let b1 = Begins-trans rs (s.durable rl.wal) (s.durable w) b (s.append_keeps rec rl.wal) in
      let b2 = Begins-trans rs (s.durable w) (s.durable w') b1 (s.close_keeps sm.log_state w) in
      let b3 = buffer-Leaves rs (record rl { wal = w'; state_machine = sm }) b2 in
      ground (arith, b, b1, b2, b3)

  flush-Leaves :
      (rs : List (Stored T)) (sync : Bool) (callback : Option W.Callback) (rl : RaftLog T W)
      → Begins rs (s.durable rl.wal)
      → Begins rs (s.durable (flush sync callback rl).0.wal)
  unfolding flush remove_after_sync
  flush-Leaves rs sync callback rl b =
      let w = (W.send_pending sync callback rl.wal).0 in
      let b1 =
        Begins-trans rs (s.durable rl.wal) (s.durable w) b (s.send_keeps sync callback rl.wal) in
      let b2 = Begins-trans rs (s.durable w) _ b1 (s.remove_keeps rl.removed_chunks w) in
      ground (arith, b1, b2)

  Leaves-Stable :
      (rs : List (Stored T)) → Stable {T = T} {W = W} (λ rl. Begins rs (s.durable rl.wal))
  Leaves-Stable rs = record {
    write_step = write-Leaves rs;
    buffer_step = buffer-Leaves rs;
    flush_step = flush-Leaves rs;
    cache_step = λ c rl b. b;
    count_step = λ hit miss rl b. b;
  }

  serve_all-Leaves :
      (rs : List (Stored T)) (qs : List (Request T W)) (rl : RaftLog T W)
      → Begins rs (s.durable rl.wal)
      → Begins rs (s.durable (serve_all qs rl).wal)
  serve_all-Leaves rs [] rl b = b
  serve_all-Leaves rs (q ∷ qs) rl b =
      serve_all-Leaves rs qs (serve q rl) (serve-Stable (Leaves-Stable rs) q rl b)

module _ {T : Types} {W : Wal T} (k : Chunked W) (t : Traced W) (config : Config W.WalConfig)
    (channel : Channel W) (s : Syncs k t channel) where
  waited-Twins :
      (rl : RaftLog T W)
      → Twins k t config rl
      → Twins k t config (record rl { wal = (channel.recv rl.wal).0 })
  waited-Twins rl x =
      let w = (channel.recv rl.wal).0 in
      moved k t config rl.wal w rl.state_machine rl.state_machine rl.removed_chunks
        rl.removed_chunks (s.recv_traced rl.wal) x
        (same-Good k (λ c. Unit) rl.wal w rl.state_machine rl.removed_chunks x.entries
          (s.recv_step rl.wal) (All-trivial rl.state_machine.log) x.good)
        x.written

  blocking_flush-Twins :
      (rl : RaftLog T W) → Twins k t config rl → Twins k t config (blocking_flush channel rl).0
  unfolding blocking_flush
  blocking_flush-Twins rl x =
      let x1 = flush-Twins k t config true (some channel.tx) rl x in
      let x2 = waited-Twins (flush true (some channel.tx) rl).0 x1 in ground (arith, x1, x2)

  -- What an open finds, beside the store as it was at the flush: its state and its entries, and on
  -- top of them the effects of the first records that were written later.
  pub record Survives (rl end now : RaftLog T W) : Type 0 where
    pub more : List (Stored T)
    pub lost : List (Stored T)
    pub written : t.trace end.wal ≡ t.trace rl.wal ++ more ++ lost
    pub state : now.state_machine.log_state ≡ advances more rl.state_machine.log_state
    pub entries : Entries T
    pub shown :
        (from to : ℕ)
        → from ≤ to
        → (read from to rl).1 ≡ ok (map (λ a. ok a) (between T from to entries))
    pub shown_now :
        (from to : ℕ)
        → from ≤ to
        → (read from to now).1 ≡ ok (map (λ a. ok a) (between T from to (effects more entries)))

  -- If the WAL satisfies the laws `Chunked` and `Traced`, and with a channel the laws `Syncs` (a
  -- request to sync asks for the records written before it, the worker reports success only after
  -- they are durable, and what is durable stays so), then take any history of requests from a store
  -- of which `Twins` holds, a `blocking_flush` that returns without an error, more requests, and
  -- then a crash at any point among them, each request being fair and safe where it is served.
  -- Suppose that of the durable records the chunks below some offset are gone, in which no entry
  -- lies that they lead to, that the first chunk left begins with a checkpoint of the state that
  -- the records before it lead to, that the WAL, when it opens, hands over the records that are
  -- durable and left, in order, up to the first that is refused, calls the boundary callback
  -- between them with states whose `last` never goes back, and opens; and that the opened WAL
  -- loads, for an entry of the log map that may be evicted, the append record that it handed over
  -- with the entry's place. Then `open` returns a store whose state and whose entries, as `read`
  -- gives them, are those that the store had when `blocking_flush` was called, changed by the first
  -- of the records written later and by nothing else.
  pub blocking_flush-Survives :
      (qs later : List (Request T W)) (start : RaftLog T W) (head : Stored T)
      (after : List (Stored T)) (w : W.Store) (p : Replays W config (head ∷ after))
      → Twins k t config start
      → AllSafe qs start
      → (blocking_flush channel (serve_all qs start)).1 ≡ ok tt
      → AllSafe later (blocking_flush channel (serve_all qs start)).0
      → (let end = serve_all later (blocking_flush channel (serve_all qs start)).0 in
          InPlace k t config (s.durable end.wal) head after
          → Restores k t config p
          → p.opened ≡ ok w
          → (now : RaftLog T W) × (open_log config ≡ ok now)
            × Survives (serve_all qs start) end now)
  unfolding StateMachine.new
  blocking_flush-Survives qs later start head after w p x safe h safe' g q o =
      let rl = serve_all qs start in
      let flushed = (blocking_flush channel rl).0 in
      let end = serve_all later flushed in
      let y = serve_all-Twins k t config qs start safe x in
      let (synced, traced) = durable-blocking_flush k t channel s rl h in
      let b =
        serve_all-Leaves s (t.trace rl.wal) later flushed
          (rw synced (Begins-self (t.trace rl.wal))) in
      let l = s.durable_begins end.wal in
      let (now, opened, r) =
        crash-open_log k t config later flushed (s.durable end.wal) l.more head after w p
          (blocking_flush-Twins rl y) safe' l.split g q o in
      let first = StateMachine.new {T = T} config in
      let shows : effects (s.durable end.wal) [] ≡ effects b.more y.entries =
        ap (λ rs. effects rs []) b.split
        ∙ effects-append (t.trace rl.wal) b.more []
        ∙ ap (effects b.more) (sym (entries-trace k t config rl y)) in
      (
        now,
        opened,
        record {
          more = b.more;
          lost = l.more;
          written = l.split ∙ ap (λ rs. rs ++ l.more) b.split;
          state =
              r.state
              ∙ ap (λ rs. advances rs first.log_state) b.split
              ∙ advances-append (t.trace rl.wal) b.more first.log_state
              ∙ ap (advances b.more) (sym (log_state-trace k t config rl y));
          entries = y.entries;
          shown = λ from to f. read-AllShown from to rl y.entries f y.good.shown;
          shown_now = λ from to f.
              r.entries from to f ∙ ap (λ es. ok (map (λ a. ok a) (between T from to es))) shows;
        },
      )
