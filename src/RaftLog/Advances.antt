-- ===== src/RaftLog/Advances.antt =====
-- What records do to a state, one after the other, and what settles the entries that a state machine
-- shows from its cache alone.
use raft_log.Prelude.{
  ℕ, ◌≡◌, ◌∙◌, refl, sym, ap, some, List, [], ◌∷◌, ◌++◌, ok, arith, Outcome-cases, leb, ltb, ◌&&◌,
  inl, inr, keep,
}
use raft_log.Types.{Types}
use raft_log.Config.{Config}
use raft_log.Cache
use raft_log.Cache.{PayloadCache, evictable}
use raft_log.StateMachine
use raft_log.State
use raft_log.State.{RaftLogState, checkpoint}
use raft_log.StateMachine.{RaftLogStateMachine, LogData, Log, apply}
use raft_log.StateMachine.Keeps.{apply_accepted, apply-check}
use raft_log.RaftLog.Open.{Stored, replay, apply_record}
use raft_log.Contents.{Entries, Shows, AllShown}
use raft_log.RaftLog.Run.{new-SmInv}
use raft_log.RaftLog.Mirror.{nowhere, Cached}

module _ (T : Types) where
  -- The entries with an index in `from..to`.
  abbrev pub between : ℕ → ℕ → Entries T → Entries T
  between from to es = keep (λ a. leb from (T.log_index a.0) && ltb (T.log_index a.0) to) es

module _ {T : Types} where
  -- Where everything is in the cache, what is shown is settled by the log map and the cache.
  pub held :
      (c : PayloadCache T) (e : ℕ × LogData T) (a : T.LogId × T.LogPayload)
      → Shows T nowhere c e a
      → Cache.get c a.0 ≡ some a.1
  held c e a x = elim x.found [ inl f ↦ f | inr (f, v) ↦ absurd (ground (arith, x.stored v)) ]

  alone-equal :
      (c : PayloadCache T) (e : ℕ × LogData T) (a b : T.LogId × T.LogPayload)
      → Shows T nowhere c e a
      → Shows T nowhere c e b
      → a ≡ b
  alone-equal c e a b x y =
      let ids : a.0 ≡ b.0 = sym x.same ∙ y.same in
      let payloads : some a.1 ≡ some b.1 =
        sym (held c e a x) ∙ ap (λ id. Cache.get c id) ids ∙ held c e b y in
      let payload : a.1 ≡ b.1 = ground (arith, payloads) in λ i. (ids i, payload i)

  pub shown-equal :
      (c : PayloadCache T) (log : Log T) (es fs : Entries T)
      → AllShown T nowhere c log es
      → AllShown T nowhere c log fs
      → es ≡ fs
  shown-equal c [] [] [] x y = refl
  shown-equal c [] (a ∷ es) fs x y = absurd x
  shown-equal c [] [] (b ∷ fs) x y = absurd y
  shown-equal c (e ∷ log) [] fs x y = absurd x
  shown-equal c (e ∷ log) (a ∷ es) [] x y = absurd y
  shown-equal c (e ∷ log) (a ∷ es) (b ∷ fs) x y =
      let first = alone-equal c e a b x.0 y.0 in
      let rest = shown-equal c log es fs x.1 y.1 in λ i. first i ∷ rest i

  pub new-Cached : {C : Type 0} (config : Config C) → Cached {T = T} (StateMachine.new config) []
  new-Cached config = record {
    sound = new-SmInv config;
    lone = unfold StateMachine.new Cache.new in refl;
    shown = unfold StateMachine.new in tt;
  }

  -- What records do to a state, in turn.
  abbrev pub advances : List (Stored T) → RaftLogState T → RaftLogState T
  advances [] st = st
  advances (r ∷ rs) st = advances rs (State.advance st r.rec)

  pub advances-append :
      (rs qs : List (Stored T)) (st : RaftLogState T)
      → advances (rs ++ qs) st ≡ advances qs (advances rs st)
  advances-append [] qs st = refl
  advances-append (r ∷ rs) qs st = advances-append rs qs (State.advance st r.rec)

  pub log_state-replay :
      (rs : List (Stored T)) (sm : RaftLogStateMachine T)
      → (replay apply_record rs sm).1 ≡ ok tt
      → (replay apply_record rs sm).0.log_state ≡ advances rs sm.log_state
  log_state-replay [] sm h = refl
  log_state-replay (x ∷ rs) sm h =
      let sm' = (apply x.rec x.chunk_id x.segment sm).0 in
      elim (Outcome-cases (apply x.rec x.chunk_id x.segment sm).1) [
        | inl (_, e) ↦
            let passed = sym (apply-check sm x.rec x.chunk_id x.segment) ∙ e in
            let step = apply_accepted sm x.rec x.chunk_id x.segment passed in
            rw e (log_state-replay rs sm' (rw e at h) ∙ ap (λ x. advances rs x.0.log_state) step)
        | inr (inl (y, e)) ↦ absurd (ground (arith, e, h))
        | inr (inr e) ↦ absurd (ground (arith, e, h))
      ]
