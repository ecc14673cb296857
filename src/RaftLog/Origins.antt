-- ===== src/RaftLog/Origins.antt =====
-- The records that the entries of a log map come from, after a replay.
use raft_log.Prelude.{
  ℕ, ◌≡◌, ◌⊎◌, ◌∙◌, refl, sym, subst, inl, inr, List, [], ◌∷◌, ◌++◌, All, All2, ok, arith,
  Outcome-cases, ◌<◌, ◌≤◌,
}
use raft_log.Types.{Types, ChunkId}
use raft_log.State.{RaftLogAction, action}
use raft_log.StateMachine.{RaftLogStateMachine, LogData, check, apply}
use raft_log.StateMachine.Keeps.{apply_accepted, apply-check}
use raft_log.Contents.{Entries, effect}
use raft_log.Contents.Sources.{effect-All2}
use raft_log.RaftLog.Open.{Stored, replay, apply_record}
use raft_log.RaftLog.Mirror.{Cached, Cached-changed}
use raft_log.RaftLog.Steady.{AllProper, effects}

module _ {T : Types} where
  -- The record that appended an entry, at the place that the log map has for it.
  pub record IsSource (r : Stored T) (e : ℕ × LogData T) (a : T.LogId × T.LogPayload) : Type 0 where
    pub appended : r.rec ≡ action (RaftLogAction.append a.0 a.1)
    pub chunk : r.chunk_id ≡ e.1.chunk_id
    pub segment : r.segment ≡ e.1.record_segment

  abbrev pub SourceIn : List (Stored T) → ℕ × LogData T → T.LogId × T.LogPayload → Type 0
  SourceIn [] e a = ⊥
  SourceIn (r ∷ rs) e a = IsSource r e a ⊎ SourceIn rs e a

  pub record Sourced (rs : List (Stored T)) (e : ℕ × LogData T) (a : T.LogId × T.LogPayload)
      : Type 0 where
    pub index : e.0 ≡ T.log_index a.0
    pub source : SourceIn rs e a

  apply-Sourced :
      (whole : List (Stored T)) (r : Stored T) (sm : RaftLogStateMachine T) (es : Entries T)
      → ((e : ℕ × LogData T) (a : T.LogId × T.LogPayload) → IsSource r e a → SourceIn whole e a)
      → check sm r.rec ≡ ok tt
      → Cached sm es
      → All2 (Sourced whole) sm.log es
      → All2 (Sourced whole) (apply r.rec r.chunk_id r.segment sm).0.log (effect T r.rec es)
  unfolding apply
  apply-Sourced whole r sm es has h c x =
      effect-All2 (Sourced whole) (λ e a s. s.index) sm r.rec es r.chunk_id r.segment c.sound h
        (λ id p same. record {
          index = refl;
          source = has _ _ (record { appended = same; chunk = refl; segment = refl });
        })
        x

  pub replay-Sourced :
      (whole rs : List (Stored T)) (sm : RaftLogStateMachine T) (es : Entries T)
      → ((e : ℕ × LogData T) (a : T.LogId × T.LogPayload) → SourceIn rs e a → SourceIn whole e a)
      → AllProper rs sm
      → (replay apply_record rs sm).1 ≡ ok tt
      → Cached sm es
      → All2 (Sourced whole) sm.log es
      → All2 (Sourced whole) (replay apply_record rs sm).0.log (effects rs es)
  replay-Sourced whole [] sm es has a h c x = x
  replay-Sourced whole (r ∷ rs) sm es has a h c x =
      let sm' = (apply r.rec r.chunk_id r.segment sm).0 in
      let reported = apply-check sm r.rec r.chunk_id r.segment in
      elim (Outcome-cases (apply r.rec r.chunk_id r.segment sm).1) [
        | inl (_, e) ↦
            let passed : check sm r.rec ≡ ok tt = sym reported ∙ e in
            let c' : Cached sm' (effect T r.rec es) =
              subst (λ p. Cached p.0 (effect T r.rec es))
                (sym (apply_accepted sm r.rec r.chunk_id r.segment passed))
                (Cached-changed sm r es a.0 passed c) in
            let x' = apply-Sourced whole r sm es (λ e a s. has e a (inl s)) passed c x in
            rw e (
              replay-Sourced whole rs sm' (effect T r.rec es) (λ e a s. has e a (inr s)) a.1
                (rw e at h) c' x')
        | inr (inl (y, e)) ↦ absurd (ground (arith, e, h))
        | inr (inr e) ↦ absurd (ground (arith, e, h))
      ]

  -- The source of an entry in the chunks that are left is left.
  pub SourceIn-left :
      (first : ChunkId) (before rs : List (Stored T)) (e : ℕ × LogData T)
      (a : T.LogId × T.LogPayload)
      → All (λ r. r.chunk_id.offset < first.offset) before
      → first.offset ≤ e.1.chunk_id.offset
      → SourceIn (before ++ rs) e a
      → SourceIn rs e a
  SourceIn-left first [] rs e a h up s = s
  SourceIn-left first (r ∷ before) rs e a h up (inl s) = absurd (ground (arith, h.0, up, s.chunk))
  SourceIn-left first (r ∷ before) rs e a h up (inr s) = SourceIn-left first before rs e a h.1 up s
