-- ===== src/RaftLog/Evicting.antt =====
-- The eviction boundary moves while the WAL opens, and payloads are evicted: the store that opens
-- lacks those alone that the boundary covers.
use raft_log.Prelude.{
  ◌≡◌, sym, subst, inl, inr, Option, none, some, true, List, [], ◌∷◌, Outcome-cases,
}
use raft_log.Prelude.Ord.{le}
use raft_log.Types.{Types, ids}
use raft_log.StateMachine.{RaftLogStateMachine, apply}
use raft_log.StateMachine.Thinned.{Thinned, absorb-Thinned, boundary-Thinned, boundary-IsSorted}
use raft_log.RaftLog.{set_boundary}
use raft_log.RaftLog.Open.{
  Stored, Opening, record_read, chunk_synced, replay, apply_record, records_of, run, Abreast,
  apply-Abreast,
}

module _ {T : Types} where
  -- Chunks are synced in order: the boundary never goes back.
  abbrev pub Rises : Option T.LogId → List (Opening T) → Type 0
  Rises boundary [] = Unit
  Rises boundary (record_read r ∷ steps) = Rises boundary steps
  Rises boundary (chunk_synced none ∷ steps) = Rises boundary steps
  Rises boundary (chunk_synced (some state) ∷ steps) =
      (le (ids T) boundary state.last ≡ true) × Rises state.last steps

  apply-Thinned :
      (a b : RaftLogStateMachine T) (r : Stored T)
      → Thinned a b
      → Thinned (apply r.rec r.chunk_id r.segment a).0 (apply r.rec r.chunk_id r.segment b).0
  unfolding apply
  apply-Thinned a b r x =
      let y = absorb-Thinned a b r.rec r.chunk_id r.segment x in
      record { here = y.here; sorted = y.sorted; thin = y.thin }

  boundary-apply :
      (a b : RaftLogStateMachine T) (r : Stored T)
      → Thinned a b
      → (apply r.rec r.chunk_id r.segment b).0.payload_cache.last_evictable
        ≡ b.payload_cache.last_evictable
  unfolding apply
  boundary-apply a b r x = (boundary-IsSorted b r.rec r.chunk_id r.segment x.sorted).0

  pub run-Thinned :
      (steps : List (Opening T)) (a b : RaftLogStateMachine T)
      → Rises b.payload_cache.last_evictable steps
      → Abreast a b
      → Thinned a b
      → Thinned (replay apply_record (records_of steps) a).0 (run steps b).0
  run-Thinned [] a b up x y = y
  run-Thinned (record_read r ∷ steps) a b up x y =
      let (out, x') = apply-Abreast a b r x in
      let y' = apply-Thinned a b r y in
      elim (Outcome-cases (apply r.rec r.chunk_id r.segment a).1) [
        | inl (_, e) ↦
            rw (out, e)
              (run-Thinned steps (apply r.rec r.chunk_id r.segment a).0
                (apply r.rec r.chunk_id r.segment b).0
                (subst (λ m. Rises m steps) (sym (boundary-apply a b r y)) up) x' y')
        | inr (inl (z, e)) ↦ rw (out, e) y'
        | inr (inr e) ↦ rw (out, e) y'
      ]
  run-Thinned (chunk_synced none ∷ steps) a b up x y = run-Thinned steps a b up x y
  run-Thinned (chunk_synced (some state) ∷ steps) a b up x y =
      run-Thinned steps a (set_boundary (some state) b)
        (unfold raft_log.Cache.set_last_evictable in up.1) (record { log = x.log; state = x.state })
        (boundary-Thinned a b state.last up.0 y)
