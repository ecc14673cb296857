-- ===== src/RaftLog/Twin.antt =====
-- The store and its mirror hold the same entries after every fair and safe request.
use raft_log.Prelude.{
  ◌≡◌, ◌≢◌, ◌∙◌, refl, inl, inr, Option, some, Bool, true, List, [], ◌∷◌, All-trivial, ok, arith,
  Outcome-cases, Option-cases,
}
use raft_log.Prelude.Ord.{le, le_self}
use raft_log.Types.{Types, ids, ChunkId}
use raft_log.Config.{Config}
use raft_log.State.{RaftLogState, RaftLogRecord, checkpoint}
use raft_log.StateMachine.{RaftLogStateMachine, check, apply}
use raft_log.Contents.{Entries, effect}
use raft_log.Contents.Effects.{IsFresh}
use raft_log.Wal.{Wal}
use raft_log.Wal.Laws.{Chunked}
use raft_log.RaftLog.{
  RaftLog, append_and_apply, after_close, buffer_removable_chunks, flush, remove_after_sync,
  drain_cache_evictable, on_chunk_persisted,
}
use raft_log.RaftLog.Open.{Stored}
use raft_log.RaftLog.Run.{Request, serve, chunk_persisted}
use raft_log.RaftLog.Refines.{Good, same-Good, close-Good, apply-Good, buffer-Good}
use raft_log.RaftLog.Kept.{
  IsSafe, flush-Holds, drain_cache_evictable-Holds, on_chunk_persisted-Holds,
}
use raft_log.RaftLog.History.{serve_all, AllSafe}
use raft_log.RaftLog.Recorded.{
  Traced, Written, Recorded-Stable, Written-snoc, Written-checkpoint, check_first,
}
use raft_log.RaftLog.FairSteps.{Proper, Proper-Admissible, FairStable, serve-Fair}
use raft_log.RaftLog.Mirror.{Mirrors, Mirrors-snoc}
use raft_log.RaftLog.Steady.{Steady, Steady-snoc}

module _ {T : Types} {W : Wal T} (k : Chunked W) (t : Traced W) (config : Config W.WalConfig) where
  -- The store shows the entries, its records lead to its log map and state, and a state machine to
  -- which they are applied one by one shows the entries too.
  pub record Twin (w : W.Store) (sm : RaftLogStateMachine T) (removed : List ChunkId) : Type 0 where
    pub entries : Entries T
    pub good : Good k w sm removed entries
    pub written : Written t config (t.trace w) sm
    pub mirrors : Mirrors t config (t.trace w) entries
    pub steady : Steady t config (t.trace w)

  abbrev pub Twins : RaftLog T W → Type 0
  Twins rl = Twin rl.wal rl.state_machine rl.removed_chunks

  -- The same records, elsewhere.
  pub moved :
      (w w' : W.Store) (sm sm' : RaftLogStateMachine T) (removed removed' : List ChunkId)
      → t.trace w' ≡ t.trace w
      → (x : Twin w sm removed) → Good k w' sm' removed' x.entries
      → Written t config (t.trace w) sm'
      → Twin w' sm' removed'
  moved w w' sm sm' removed removed' same x g v = record {
    entries = x.entries;
    good = g;
    written = rw same v;
    mirrors = rw same x.mirrors;
    steady = rw same x.steady;
  }

  applied-Twin :
      (rec : RaftLogRecord T) (w : W.Store) (sm : RaftLogStateMachine T) (removed : List ChunkId)
      → Proper sm rec
      → IsFresh sm.payload_cache rec
      → check sm rec ≡ ok tt
      → (W.append rec w).1 ≡ ok tt
      → Twin w sm removed
      → (let w1 = (W.append rec w).0 in
          Twin w1 (apply rec (W.open_chunk_id w1) (W.last_segment w1) sm).0 removed)
  applied-Twin rec w sm removed p f h a x =
      let w1 = (W.append rec w).0 in
      let r : Stored T = record {
        rec = rec;
        chunk_id = W.open_chunk_id w1;
        segment = W.last_segment w1;
      } in
      let g1 =
        same-Good k (λ c. Unit) w w1 sm removed x.entries (k.append_step rec w) (All-trivial sm.log)
          x.good in
      let adm = Proper-Admissible sm rec x.good.sound p in
      record {
        entries = effect T rec x.entries;
        good = apply-Good k w1 sm removed x.entries rec (W.last_segment w1) adm f h g1;
        written = rw (t.append_traced rec w a) (Written-snoc t config (t.trace w) sm r h x.written);
        mirrors =
            rw (t.append_traced rec w a)
              (Mirrors-snoc t config (t.trace w) sm r x.entries p h x.written x.mirrors);
        steady =
            rw (t.append_traced rec w a)
              (Steady-snoc t config (t.trace w) sm r p x.written x.steady);
      }

  failed-Twin :
      (rec : RaftLogRecord T) (w : W.Store) (sm : RaftLogStateMachine T) (removed : List ChunkId)
      → (W.append rec w).1 ≢ ok tt
      → Twin w sm removed
      → Twin (W.append rec w).0 sm removed
  failed-Twin rec w sm removed h x =
      moved w (W.append rec w).0 sm sm removed removed (t.append_failed rec w h) x
        (same-Good k (λ c. Unit) w (W.append rec w).0 sm removed x.entries (k.append_step rec w)
          (All-trivial sm.log) x.good)
        x.written

  closed-Twin :
      (w : W.Store) (sm : RaftLogStateMachine T) (removed : List ChunkId)
      → Twin w sm removed
      → Twin (W.try_close_full_chunk sm.log_state w).0 sm removed
  closed-Twin w sm removed x =
      let g = close-Good k w sm removed x.entries x.good in
      elim (t.close_traced sm.log_state w) [
        | inl same ↦ moved w _ sm sm removed removed same x g x.written
        | inr (c, s, more) ↦
            let r : Stored T = record {
              rec = checkpoint sm.log_state;
              chunk_id = c;
              segment = s;
            } in
            let p : Proper sm r.rec = (x.good.sound.log, le_self (ids T) sm.log_state.last) in
            record {
              entries = x.entries;
              good = g;
              written = rw more (Written-checkpoint t config (t.trace w) sm c s x.written);
              mirrors = rw more (
                  unfold effect in
                  Mirrors-snoc t config (t.trace w) sm r x.entries p (check_first t config sm)
                    x.written x.mirrors);
              steady = rw more (Steady-snoc t config (t.trace w) sm r p x.written x.steady);
            }
      ]

  buffer_step :
      (rl : RaftLog T W)
      → (t.trace (buffer_removable_chunks rl).wal ≡ t.trace rl.wal)
        × ((buffer_removable_chunks rl).state_machine ≡ rl.state_machine)
  unfolding buffer_removable_chunks
  buffer_step rl = elim (Option-cases rl.state_machine.log_state.purged) [
    | inl n ↦ rw n (refl, refl)
    | inr (id, n) ↦ rw n (t.drain_traced (λ state. le (ids T) state.last (some id)) rl.wal, refl)
  ]

  buffer-Twins : (rl : RaftLog T W) → Twins rl → Twins (buffer_removable_chunks rl)
  buffer-Twins rl x =
      let (same, kept) = buffer_step rl in
      moved rl.wal (buffer_removable_chunks rl).wal rl.state_machine _ rl.removed_chunks _ same x
        (buffer-Good k rl x.entries x.good) (rw kept x.written)

  append_and_apply-Twins :
      (rec : RaftLogRecord T) (rl : RaftLog T W)
      → Proper rl.state_machine rec
      → IsFresh rl.state_machine.payload_cache rec
      → Twins rl
      → Twins (append_and_apply rec rl).0
  unfolding append_and_apply after_close
  append_and_apply-Twins rec rl p f x =
      let sm = rl.state_machine in
      let w1 = (W.append rec rl.wal).0 in
      let sm' = (apply rec (W.open_chunk_id w1) (W.last_segment w1) sm).0 in
      let w2 = (W.try_close_full_chunk sm'.log_state w1).0 in
      elim (Outcome-cases (check sm rec)) [
        | inl (_, h) ↦ elim (Outcome-cases (W.append rec rl.wal).1) [
          | inl (_, a) ↦
              let x1 = applied-Twin rec rl.wal sm rl.removed_chunks p f h a x in
              let x2 = closed-Twin w1 sm' rl.removed_chunks x1 in
              let x3 = buffer-Twins (record rl { wal = w2; state_machine = sm' }) x2 in
              ground (arith, h, a, x1, x2, x3)
          | inr (inl (e, a)) ↦
              let kept =
                failed-Twin rec rl.wal sm rl.removed_chunks (λ b. ground (arith, a, b)) x in
              ground (arith, h, a, kept)
          | inr (inr a) ↦
              let kept =
                failed-Twin rec rl.wal sm rl.removed_chunks (λ b. ground (arith, a, b)) x in
              ground (arith, h, a, kept)
        ]
        | inr (inl (e, h)) ↦ ground (arith, h, x)
        | inr (inr h) ↦ ground (arith, h, x)
      ]

  trace-flush :
      (sync : Bool) (callback : Option W.Callback) (rl : RaftLog T W)
      → (t.trace (flush sync callback rl).0.wal ≡ t.trace rl.wal)
        × ((flush sync callback rl).0.state_machine ≡ rl.state_machine)
  unfolding flush remove_after_sync
  trace-flush sync callback rl =
      let w = (W.send_pending sync callback rl.wal).0 in
      let sent = t.send_traced sync callback rl.wal in
      let removed = t.remove_traced rl.removed_chunks w ∙ sent in
      (ground (arith, sent, removed), ground arith)

  pub flush-Twins :
      (sync : Bool) (callback : Option W.Callback) (rl : RaftLog T W)
      → Twins rl
      → Twins (flush sync callback rl).0
  flush-Twins sync callback rl x =
      let (same, kept) = trace-flush sync callback rl in
      moved rl.wal (flush sync callback rl).0.wal rl.state_machine _ rl.removed_chunks _ same x
        (flush-Holds k sync callback rl x.entries x.good) (rw kept x.written)

  drain-Twins : (rl : RaftLog T W) → Twins rl → Twins (drain_cache_evictable rl)
  drain-Twins rl x =
      let g = drain_cache_evictable-Holds k rl x.entries x.good in
      unfold drain_cache_evictable in
      moved rl.wal rl.wal rl.state_machine _ rl.removed_chunks rl.removed_chunks refl x
        (unfold drain_cache_evictable in g) ((Recorded-Stable t config).cache_step _ rl x.written)

  persisted-Twins :
      (state : RaftLogState T) (rl : RaftLog T W)
      → le (ids T) rl.state_machine.payload_cache.last_evictable state.last ≡ true
      → IsSafe (chunk_persisted (some state)) rl
      → Twins rl
      → Twins (on_chunk_persisted (some state) rl)
  persisted-Twins state rl up safe x =
      let g = on_chunk_persisted-Holds k state rl x.entries up safe x.good in
      unfold on_chunk_persisted in
      moved rl.wal rl.wal rl.state_machine _ rl.removed_chunks rl.removed_chunks refl x
        (unfold on_chunk_persisted in g) ((Recorded-Stable t config).cache_step _ rl x.written)

  Twins-Stable : FairStable Twins
  Twins-Stable = record {
    sound = λ rl x. x.good.sound;
    write_step = append_and_apply-Twins;
    buffer_step = buffer-Twins;
    flush_step = flush-Twins;
    drain_step = drain-Twins;
    persist_step = persisted-Twins;
    count_step = λ hit miss rl x. x;
  }

  pub serve_all-Twins :
      (qs : List (Request T W)) (rl : RaftLog T W)
      → AllSafe qs rl
      → Twins rl
      → Twins (serve_all qs rl)
  serve_all-Twins [] rl s x = x
  serve_all-Twins (q ∷ qs) rl s x =
      serve_all-Twins qs (serve q rl) s.2 (serve-Fair Twins-Stable q rl s.0 s.1 x)
