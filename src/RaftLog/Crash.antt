-- ===== src/RaftLog/Crash.antt =====
-- A history of requests, a crash that loses the last records, and then an open.
use raft_log.Prelude.{ℕ, ◌≤◌, ◌≡◌, ◌∙◌, sym, ap, List, [], ◌∷◌, ◌++◌, ok, map}
use raft_log.Types.{Types}
use raft_log.Config.{Config}
use raft_log.StateMachine
use raft_log.State
use raft_log.State.{RaftLogState, checkpoint}
use raft_log.StateMachine.{RaftLogStateMachine, LogData, Log, apply}
use raft_log.RaftLog.Open.{Stored, Replays}
use raft_log.Wal.{Wal}
use raft_log.Wal.Laws.{Chunked}
use raft_log.RaftLog.{RaftLog, open_log, read}
use raft_log.RaftLog.Run.{Request}
use raft_log.RaftLog.History.{serve_all, AllSafe, read-AllShown}
use raft_log.RaftLog.Recorded.{Traced}
use raft_log.RaftLog.Steady.{effects, effects-append}
use raft_log.RaftLog.Advances.{between, advances, advances-append, log_state-replay}
use raft_log.RaftLog.Reread.{
  InPlace, Restores, reopened, durable-Cached, entries-trace, log_state-trace,
}
use raft_log.RaftLog.Twin.{Twins, serve_all-Twins}

module _ {T : Types} {W : Wal T} (k : Chunked W) (t : Traced W) (config : Config W.WalConfig) where
  -- What an open finds when the WAL has kept the records `durable` and lost the records after them:
  -- the state and the entries that those lead to. The lost ones make the difference to the end.
  pub record Recovered (durable lost : List (Stored T)) (end rl : RaftLog T W) : Type 0 where
    pub state : rl.state_machine.log_state ≡ advances durable (State.default_state {T = T})
    pub missed_state : end.state_machine.log_state ≡ advances lost rl.state_machine.log_state
    pub entries :
        (from to : ℕ)
        → from ≤ to
        → (read from to rl).1 ≡ ok (map (λ a. ok a) (between T from to (effects durable [])))
    pub missed_entries :
        (from to : ℕ)
        → from ≤ to
        → (read from to end).1
          ≡ ok (map (λ a. ok a) (between T from to (effects lost (effects durable []))))

  -- If the WAL satisfies the laws `Chunked` on its chunks and `Traced` on the records that it
  -- writes, then take any history of requests, each fair and safe where it is served, from a store
  -- of which `Twins` holds, as it does of a new store. Suppose that a crash at its end leaves the
  -- first records `durable` of those written and loses the others, `lost`; that of `durable` the
  -- chunks below some offset are gone, in which no entry lies that `durable` leads to; that the
  -- first chunk left begins with a checkpoint of the state that the records before it lead to; that
  -- the WAL, when it opens, hands over the records of `durable` that are left, in order, up to the
  -- first that is refused, calls the boundary callback between them with states whose `last` never
  -- goes back, and opens; and that the opened WAL loads, for an entry of the log map that may be
  -- evicted, the append record that it handed over with the entry's place. Then `open` returns a
  -- store whose state is what the records in `durable` make of the default state, one after the
  -- other, and `read` gives there exactly the entries that they lead to, without an error. What the
  -- crash has cost is the effect of `lost` alone: with it, the state and the entries are those that
  -- the store had at the end of the history.
  pub crash-open_log :
      (qs : List (Request T W)) (start : RaftLog T W) (durable lost : List (Stored T))
      (head : Stored T) (after : List (Stored T)) (w : W.Store)
      (p : Replays W config (head ∷ after))
      → Twins k t config start
      → AllSafe qs start
      → t.trace (serve_all qs start).wal ≡ durable ++ lost
      → InPlace k t config durable head after
      → Restores k t config p
      → p.opened ≡ ok w
      → (rl : RaftLog T W) × (open_log config ≡ ok rl)
        × Recovered durable lost (serve_all qs start) rl
  unfolding StateMachine.new
  crash-open_log qs start durable lost head after w p x safe split g q o =
      let end = serve_all qs start in
      let new = StateMachine.new {T = T} config in
      let y = serve_all-Twins k t config qs start safe x in
      let (accepted, c, d) = durable-Cached k t config end durable lost y split in
      let (rl, opened, log, state, shown) =
        reopened k t config durable head after (effects durable []) w p accepted c d g q o in
      let kept : rl.state_machine.log_state ≡ advances durable new.log_state =
        state ∙ log_state-replay durable new accepted in
      let whole : end.state_machine.log_state ≡ advances (durable ++ lost) new.log_state =
        log_state-trace k t config end y ∙ ap (λ rs. advances rs new.log_state) split in
      let ends : y.entries ≡ effects lost (effects durable []) =
        entries-trace k t config end y
        ∙ ap (λ rs. effects rs []) split
        ∙ effects-append durable lost [] in
      (
        rl,
        opened,
        record {
          state = kept;
          missed_state =
              whole ∙ advances-append durable lost new.log_state ∙ ap (advances lost) (sym kept);
          entries = λ from to h. read-AllShown from to rl (effects durable []) h shown;
          missed_entries = λ from to h.
              read-AllShown from to end y.entries h y.good.shown
              ∙ ap (λ es. ok (map (λ a. ok a) (between T from to es))) ends;
        },
      )
