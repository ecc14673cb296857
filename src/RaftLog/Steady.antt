-- ===== src/RaftLog/Steady.antt =====
-- Lists of records each of which is proper where it is applied, as those that a store has written.
use raft_log.Prelude.{
  ◌≡◌, ◌∙◌, refl, sym, subst, List, [], ◌∷◌, ◌++◌, ok, arith, inl, inr, Outcome-cases,
}
use raft_log.Types.{Types}
use raft_log.Config.{Config}
use raft_log.StateMachine
use raft_log.StateMachine.{RaftLogStateMachine, check, apply}
use raft_log.StateMachine.Keeps.{apply_accepted, apply-check}
use raft_log.Contents.{Entries, effect}
use raft_log.Wal.{Wal}
use raft_log.RaftLog.Open.{Stored, replay, apply_record}
use raft_log.RaftLog.Recorded.{Traced, Written, Written-equal, replayed}
use raft_log.RaftLog.FairSteps.{Proper}
use raft_log.RaftLog.Mirror.{Cached, Cached-changed, Proper-same}

module _ {T : Types} where
  abbrev pub AllProper : List (Stored T) → RaftLogStateMachine T → Type 0
  AllProper [] sm = Unit
  AllProper (r ∷ rs) sm = Proper sm r.rec × AllProper rs (apply r.rec r.chunk_id r.segment sm).0

  -- What records do to a list of entries, in turn.
  abbrev pub effects : List (Stored T) → Entries T → Entries T
  effects [] es = es
  effects (r ∷ rs) es = effects rs (effect T r.rec es)

  pub effects-append :
      (rs qs : List (Stored T)) (es : Entries T)
      → effects (rs ++ qs) es ≡ effects qs (effects rs es)
  effects-append [] qs es = refl
  effects-append (r ∷ rs) qs es = effects-append rs qs (effect T r.rec es)

  AllProper-snoc :
      (rs : List (Stored T)) (r : Stored T) (sm : RaftLogStateMachine T)
      → (replay apply_record rs sm).1 ≡ ok tt
      → Proper (replay apply_record rs sm).0 r.rec
      → AllProper rs sm
      → AllProper (rs ++ r ∷ []) sm
  AllProper-snoc [] r sm h p a = (p, tt)
  AllProper-snoc (x ∷ rs) r sm h p a =
      elim (Outcome-cases (apply x.rec x.chunk_id x.segment sm).1) [
        | inl (_, e) ↦ (
          a.0,
          AllProper-snoc rs r (apply x.rec x.chunk_id x.segment sm).0 (rw e at h) (rw e at p) a.1,
        )
        | inr (inl (y, e)) ↦ absurd (ground (arith, e, h))
        | inr (inr e) ↦ absurd (ground (arith, e, h))
      ]

  pub AllProper-prefix :
      (rs qs : List (Stored T)) (sm : RaftLogStateMachine T)
      → AllProper (rs ++ qs) sm
      → AllProper rs sm
  AllProper-prefix [] qs sm a = tt
  AllProper-prefix (x ∷ rs) qs sm a =
      (a.0, AllProper-prefix rs qs (apply x.rec x.chunk_id x.segment sm).0 a.1)

  -- A state machine that holds everything in its cache goes on to, record after record.
  pub Cached-replay :
      (rs : List (Stored T)) (sm : RaftLogStateMachine T) (es : Entries T)
      → AllProper rs sm
      → (replay apply_record rs sm).1 ≡ ok tt
      → Cached sm es
      → Cached (replay apply_record rs sm).0 (effects rs es)
  Cached-replay [] sm es a h c = c
  Cached-replay (x ∷ rs) sm es a h c =
      let sm' = (apply x.rec x.chunk_id x.segment sm).0 in
      let reported = apply-check sm x.rec x.chunk_id x.segment in
      elim (Outcome-cases (apply x.rec x.chunk_id x.segment sm).1) [
        | inl (_, e) ↦
            let passed : check sm x.rec ≡ ok tt = sym reported ∙ e in
            let c' : Cached sm' (effect T x.rec es) =
              subst (λ p. Cached p.0 (effect T x.rec es))
                (sym (apply_accepted sm x.rec x.chunk_id x.segment passed))
                (Cached-changed sm x es a.0 passed c) in
            rw e (Cached-replay rs sm' (effect T x.rec es) a.1 (rw e at h) c')
        | inr (inl (y, e)) ↦ absurd (ground (arith, e, h))
        | inr (inr e) ↦ absurd (ground (arith, e, h))
      ]

module _ {T : Types} {W : Wal T} (k : Traced W) (config : Config W.WalConfig) where
  -- The records written so far, each proper where it was applied.
  abbrev pub Steady : List (Stored T) → Type 0
  Steady rs = AllProper rs (StateMachine.new config)

  pub Steady-snoc :
      (rs : List (Stored T)) (sm : RaftLogStateMachine T) (r : Stored T)
      → Proper sm r.rec
      → Written k config rs sm
      → Steady rs
      → Steady (rs ++ r ∷ [])
  Steady-snoc rs sm r p v a =
      let (accepted, log, state) = Written-equal k config rs sm v in
      AllProper-snoc rs r (StateMachine.new config) accepted
        (Proper-same (replayed k config rs) sm r.rec log state p) a
