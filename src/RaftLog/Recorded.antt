-- ===== src/RaftLog/Recorded.antt =====
-- The records that the store has written, replayed, lead to the store's log map and state.
use raft_log.Prelude.{
  ◌≡◌, ◌≢◌, ◌⊎◌, ◌∙◌, refl, sym, ap, subst, inl, inr, Option, some, Bool, true, List, [], ◌∷◌, ◌++◌,
  All-trivial, All-imp, ok, arith, Outcome-cases, Option-cases,
}
use raft_log.Prelude.Ord.{le}
use raft_log.Types.{Types, ChunkId, Segment, ids}
use raft_log.Config.{Config}
use raft_log.BTreeMap.Laws.{keep-All}
use raft_log.State.{RaftLogState, RaftLogAction, RaftLogRecord, action, checkpoint}
use raft_log.State
use raft_log.StateMachine
use raft_log.StateMachine.{RaftLogStateMachine, check, apply, checkpoint_of}
use raft_log.StateMachine.Keeps.{apply-check}
use raft_log.Cache.{PayloadCache}
use raft_log.Wal.{Wal}
use raft_log.RaftLog.{
  RaftLog, append_and_apply, after_close, buffer_removable_chunks, flush, remove_after_sync,
}
use raft_log.RaftLog.Open.{Stored, replay, apply_record}
use raft_log.RaftLog.Reduced.{Reduced, apply-Reduced, replay-append, apply_first}
use raft_log.RaftLog.Run.{Request, serve}
use raft_log.RaftLog.Steps.{Stable, serve-Stable}
use raft_log.RaftLog.History.{serve_all}

-- The records written to a WAL, in order, those of removed chunks among them: an append that
-- succeeds writes its record, and a chunk that opens begins with a checkpoint of the state.
pub record Traced {T : Types} (W : Wal T) : Type 0 where
  pub trace : W.Store → List (Stored T)
  pub append_traced :
      (rec : RaftLogRecord T) (w : W.Store)
      → (W.append rec w).1 ≡ ok tt
      → trace (W.append rec w).0
        ≡ trace w
          ++ record {
            rec = rec;
            chunk_id = W.open_chunk_id (W.append rec w).0;
            segment = W.last_segment (W.append rec w).0;
          }
            ∷ []
  pub append_failed :
      (rec : RaftLogRecord T) (w : W.Store)
      → (W.append rec w).1 ≢ ok tt
      → trace (W.append rec w).0 ≡ trace w
  pub close_traced :
      (state : RaftLogState T) (w : W.Store)
      → (trace (W.try_close_full_chunk state w).0 ≡ trace w)
        ⊎ ((c : ChunkId) × (s : Segment) × (trace (W.try_close_full_chunk state w).0
              ≡ trace w ++ record { rec = checkpoint state; chunk_id = c; segment = s } ∷ []))
  pub drain_traced :
      (p : RaftLogState T → Bool) (w : W.Store)
      → trace (W.drain_closed_chunks_while p w).0 ≡ trace w
  pub send_traced :
      (sync : Bool) (callback : Option W.Callback) (w : W.Store)
      → trace (W.send_pending sync callback w).0 ≡ trace w
  pub remove_traced :
      (chunks : List ChunkId) (w : W.Store) → trace (W.send_remove_chunks chunks w).0 ≡ trace w

module _ {T : Types} {W : Wal T} (k : Traced W) (config : Config W.WalConfig) where
  abbrev pub replayed : List (Stored T) → RaftLogStateMachine T
  replayed rs = (replay apply_record rs (StateMachine.new config)).0

  pub record Written (rs : List (Stored T)) (sm : RaftLogStateMachine T) : Type 0 where
    pub accepted : (replay apply_record rs (StateMachine.new config)).1 ≡ ok tt
    pub equal : Reduced (λ c. true) (replayed rs) sm

  pub Written-snoc :
      (rs : List (Stored T)) (sm : RaftLogStateMachine T) (r : Stored T)
      → check sm r.rec ≡ ok tt
      → Written rs sm
      → Written (rs ++ r ∷ []) (apply r.rec r.chunk_id r.segment sm).0
  Written-snoc rs sm r h v =
      let run = replay-append rs (r ∷ []) (StateMachine.new config) v.accepted in
      let (reduced, out) =
        apply-Reduced (λ c. true) (replayed rs) sm r.rec r.chunk_id r.segment refl v.equal in
      let passed : (apply r.rec r.chunk_id r.segment (replayed rs)).1 ≡ ok tt =
        sym out ∙ apply-check sm r.rec r.chunk_id r.segment ∙ h in
      record {
        accepted = ap (λ p. p.1) run ∙ rw passed refl;
        equal =
            subst (λ a. Reduced (λ c. true) a (apply r.rec r.chunk_id r.segment sm).0)
              (sym (ap (λ p. p.0) run ∙ rw passed refl)) reduced;
      }

  pub check_first : (sm : RaftLogStateMachine T) → check sm (checkpoint sm.log_state) ≡ ok tt
  unfolding check State.check
  check_first sm = refl

  pub Written-checkpoint :
      (rs : List (Stored T)) (sm : RaftLogStateMachine T) (c : ChunkId) (s : Segment)
      → Written rs sm
      → Written (rs ++ record { rec = checkpoint sm.log_state; chunk_id = c; segment = s } ∷ []) sm
  Written-checkpoint rs sm c s v =
      let r : Stored T = record { rec = checkpoint sm.log_state; chunk_id = c; segment = s } in
      subst (Written (rs ++ r ∷ [])) (ap (λ p. p.0) (apply_first sm.log_state c s sm))
        (Written-snoc rs sm r (check_first sm) v)

  abbrev pub Recorded : RaftLog T W → Type 0
  Recorded rl = Written (k.trace rl.wal) rl.state_machine

  -- A full chunk that is closed, and the chunks that are drained then, leave the records.
  pub closed-Written :
      (w : W.Store) (sm : RaftLogStateMachine T)
      → Written (k.trace w) sm
      → Written (k.trace (W.try_close_full_chunk sm.log_state w).0) sm
  closed-Written w sm v = elim (k.close_traced sm.log_state w) [
    | inl same ↦ rw same v
    | inr (c, s, more) ↦ rw more (Written-checkpoint (k.trace w) sm c s v)
  ]

  buffer-Recorded : (rl : RaftLog T W) → Recorded rl → Recorded (buffer_removable_chunks rl)
  unfolding buffer_removable_chunks
  buffer-Recorded rl v = elim (Option-cases rl.state_machine.log_state.purged) [
    | inl n ↦ ground (arith, n, v)
    | inr (id, n) ↦
        let p : RaftLogState T → Bool = λ state. le (ids T) state.last (some id) in
        let same : Written (k.trace (W.drain_closed_chunks_while p rl.wal).0) rl.state_machine =
          rw (k.drain_traced p rl.wal) v in
        ground (arith, n, same)
  ]

  append_and_apply-Recorded :
      (rec : RaftLogRecord T) (rl : RaftLog T W)
      → Recorded rl
      → Recorded (append_and_apply rec rl).0
  unfolding append_and_apply after_close
  append_and_apply-Recorded rec rl v =
      let sm = rl.state_machine in
      let w1 = (W.append rec rl.wal).0 in
      let sm' = (apply rec (W.open_chunk_id w1) (W.last_segment w1) sm).0 in
      let failed = λ (h : (W.append rec rl.wal).1 ≢ ok tt).
        subst (λ t. Written t sm) (sym (k.append_failed rec rl.wal h)) v in
      elim (Outcome-cases (check sm rec)) [
        | inl (_, h) ↦ elim (Outcome-cases (W.append rec rl.wal).1) [
          | inl (_, a) ↦
              let v1 : Written (k.trace w1) sm' = rw (k.append_traced rec rl.wal a) (
                Written-snoc (k.trace rl.wal) sm
                  (record { rec = rec; chunk_id = W.open_chunk_id w1; segment = W.last_segment w1 })
                  h v) in
              let w2 = (W.try_close_full_chunk sm'.log_state w1).0 in
              let v2 = closed-Written w1 sm' v1 in
              let v3 = buffer-Recorded (record rl { wal = w2; state_machine = sm' }) v2 in
              ground (arith, h, a, v1, v2, v3)
          | inr (inl (e, a)) ↦
              let kept = failed (λ b. ground (arith, a, b)) in ground (arith, h, a, kept)
          | inr (inr a) ↦
              let kept = failed (λ b. ground (arith, a, b)) in ground (arith, h, a, kept)
        ]
        | inr (inl (e, h)) ↦ ground (arith, h, v)
        | inr (inr h) ↦ ground (arith, h, v)
      ]

  flush-Recorded :
      (sync : Bool) (callback : Option W.Callback) (rl : RaftLog T W)
      → Recorded rl
      → Recorded (flush sync callback rl).0
  unfolding flush remove_after_sync
  flush-Recorded sync callback rl v =
      let w = (W.send_pending sync callback rl.wal).0 in
      let sent : Written (k.trace w) rl.state_machine = rw (k.send_traced sync callback rl.wal) v in
      let removed : Written (k.trace (W.send_remove_chunks rl.removed_chunks w).0)
          rl.state_machine =
        rw (k.remove_traced rl.removed_chunks w) sent in
      ground (arith, sent, removed)

  cached-Written :
      (rs : List (Stored T)) (sm : RaftLogStateMachine T) (c : PayloadCache T)
      → Written rs sm
      → Written rs (record sm { payload_cache = c })
  cached-Written rs sm c v = record {
    accepted = v.accepted;
    equal = record { sorted = v.equal.sorted; same = v.equal.same; kept = v.equal.kept };
  }

  pub Recorded-Stable : Stable Recorded
  Recorded-Stable = record {
    write_step = append_and_apply-Recorded;
    buffer_step = buffer-Recorded;
    flush_step = flush-Recorded;
    cache_step = λ c rl v. cached-Written (k.trace rl.wal) rl.state_machine c v;
    count_step = λ hit miss rl v. v;
  }

  pub serve_all-Recorded :
      (qs : List (Request T W)) (rl : RaftLog T W) → Recorded rl → Recorded (serve_all qs rl)
  serve_all-Recorded [] rl v = v
  serve_all-Recorded (q ∷ qs) rl v =
      serve_all-Recorded qs (serve q rl) (serve-Stable Recorded-Stable q rl v)

  pub Written-equal :
      (rs : List (Stored T)) (sm : RaftLogStateMachine T)
      → Written rs sm
      → ((replay apply_record rs (StateMachine.new config)).1 ≡ ok tt)
        × (sm.log ≡ (replayed rs).log)
        × (sm.log_state ≡ (replayed rs).log_state)
  Written-equal rs sm v = (
    v.accepted,
    v.equal.kept
        ∙ keep-All _ (replayed rs).log
            (All-imp (λ e u. refl) (replayed rs).log (All-trivial (replayed rs).log)),
    v.equal.same,
  )
