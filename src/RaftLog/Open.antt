-- ===== src/RaftLog/Open.antt =====
-- What `open` gives, if the WAL replays the records that it holds.
use raft_log.Prelude.{
  refl, subst, Option, none, some, true, All-imp, ◌≡◌, ◌∙◌, sym, List, [], ◌∷◌, ok, arith, Outcome,
  Outcome-cases, Method, return, settle, map_err, ◌>>◌, inl, inr,
}
use raft_log.Types.{Types, ids, ChunkId, Segment}
use raft_log.Errors.{IoError, invalid_input}
use raft_log.Config.{Config}
use raft_log.Cache.{PayloadCache}
use raft_log.Prelude.Ord.{le}
use raft_log.State.{RaftLogState, RaftLogAction, RaftLogRecord, action, checkpoint}
use raft_log.StateMachine.CacheInv.{boundary-CacheInv, boundary-Covered}
use raft_log.StateMachine
use raft_log.StateMachine.{RaftLogStateMachine}
use raft_log.StateMachine.Keeps.{SmInv, Admissible, apply-SmInv, apply-check}
use raft_log.Wal.{Wal}
use raft_log.RaftLog.{RaftLog, open_log, set_boundary, buffer_removable_chunks}
use raft_log.RaftLog.Safe.{IsSound}
use raft_log.RaftLog.Run.{new-SmInv}

-- A record as the WAL holds it, with its place.
pub record Stored (T : Types) : Type 0 where
  pub rec : RaftLogRecord T
  pub chunk_id : ChunkId
  pub segment : Segment

-- What the WAL does while it opens: it hands over a record, or says that a chunk's file is synced,
-- with the checkpoint of the chunk before it.
pub data Opening (T : Types) : Type 0 where
  record_read : Stored T → Opening T
  chunk_synced : Option (RaftLogState T) → Opening T

abbrev pub Apply : Types → Type 0
Apply T =
    RaftLogRecord T → ChunkId → Segment → Method (IoError T) (RaftLogStateMachine T) (Unit {0})

module _ {T : Types} where
  -- The records applied one after the other, up to the first that is refused.
  abbrev pub replay :
      Apply T → List (Stored T) → Method (IoError T) (RaftLogStateMachine T) (Unit {0})
  replay f [] = return tt
  replay f (r ∷ rs) = f r.rec r.chunk_id r.segment >> replay f rs

  -- The callback that `open` gives the WAL.
  abbrev pub apply_record : Apply T
  apply_record rec chunk segment sm =
      let (sm', r) = StateMachine.apply rec chunk segment sm in (sm', map_err invalid_input r)

  abbrev pub records_of : List (Opening T) → List (Stored T)
  records_of [] = []
  records_of (record_read r ∷ steps) = r ∷ records_of steps
  records_of (chunk_synced state ∷ steps) = records_of steps

  -- The callbacks, called in this order up to the first record that is refused.
  abbrev pub run : List (Opening T) → Method (IoError T) (RaftLogStateMachine T) (Unit {0})
  run [] = return tt
  run (record_read r ∷ steps) = apply_record r.rec r.chunk_id r.segment >> run steps
  run (chunk_synced state ∷ steps) = λ sm. run steps (set_boundary state sm)

  -- Each record is admissible where it is applied, and the eviction boundary never goes back.
  abbrev pub AllAdmissible : List (Opening T) → RaftLogStateMachine T → Type 0
  AllAdmissible [] sm = Unit
  AllAdmissible (record_read r ∷ steps) sm =
      Admissible sm r.rec × AllAdmissible steps (StateMachine.apply r.rec r.chunk_id r.segment sm).0
  AllAdmissible (chunk_synced none ∷ steps) sm = AllAdmissible steps sm
  AllAdmissible (chunk_synced (some state) ∷ steps) sm =
      (le (ids T) sm.payload_cache.last_evictable state.last ≡ true)
      × AllAdmissible steps (set_boundary (some state) sm)

  run-SmInv :
      (steps : List (Opening T)) (sm : RaftLogStateMachine T)
      → SmInv sm
      → AllAdmissible steps sm
      → (run steps sm).1 ≡ ok tt
      → SmInv (run steps sm).0
  run-SmInv [] sm v a h = v
  run-SmInv (record_read r ∷ steps) sm v a h =
      let sm' = (StateMachine.apply r.rec r.chunk_id r.segment sm).0 in
      let reported = apply-check sm r.rec r.chunk_id r.segment in
      elim (Outcome-cases (StateMachine.apply r.rec r.chunk_id r.segment sm).1) [
        | inl (_, e) ↦
            let v' : SmInv sm' =
              apply-SmInv sm r.rec r.chunk_id r.segment v a.0 (sym reported ∙ e) in
            rw e (run-SmInv steps sm' v' a.1 (rw e at h))
        | inr (inl (x, e)) ↦ absurd (ground (arith, e, h))
        | inr (inr e) ↦ absurd (ground (arith, e, h))
      ]
  run-SmInv (chunk_synced none ∷ steps) sm v a h = run-SmInv steps sm v a h
  run-SmInv (chunk_synced (some state) ∷ steps) sm v a h =
      run-SmInv steps (set_boundary (some state) sm)
        (record {
          log = v.log;
          cache = boundary-CacheInv _ _ state.last v.cache;
          covers = All-imp (λ e c. boundary-Covered _ state.last e.1.log_id a.0 c) _ v.covers;
        })
        a.1 h

  -- The same log map and the same state, whatever the caches.
  pub record Abreast (a b : RaftLogStateMachine T) : Type 0 where
    pub log : b.log ≡ a.log
    pub state : b.log_state ≡ a.log_state

  recached :
      (a : RaftLogStateMachine T) (c : PayloadCache T) (rec : RaftLogRecord T) (chunk : ChunkId)
      (segment : Segment)
      → (let b = record a { payload_cache = c } in
          ((StateMachine.apply rec chunk segment b).1 ≡ (StateMachine.apply rec chunk segment a).1)
          × Abreast
              (StateMachine.apply rec chunk segment a).0
              (StateMachine.apply rec chunk segment b).0)
  unfolding StateMachine.apply StateMachine.absorb
  recached a c (action (RaftLogAction.append id p)) chunk segment =
      (refl, record { log = refl; state = refl })
  recached a c (action (RaftLogAction.truncate_after none)) chunk segment =
      (refl, record { log = refl; state = refl })
  recached a c (action (RaftLogAction.truncate_after (some id))) chunk segment =
      (refl, record { log = refl; state = refl })
  recached a c (action (RaftLogAction.purge_upto id)) chunk segment =
      (refl, record { log = refl; state = refl })
  recached a c (action (RaftLogAction.save_vote vote)) chunk segment =
      (refl, record { log = refl; state = refl })
  recached a c (action (RaftLogAction.commit id)) chunk segment =
      (refl, record { log = refl; state = refl })
  recached a c (checkpoint state) chunk segment = (refl, record { log = refl; state = refl })

  pub apply-Abreast :
      (a b : RaftLogStateMachine T) (r : Stored T)
      → Abreast a b
      → ((StateMachine.apply r.rec r.chunk_id r.segment b).1
          ≡ (StateMachine.apply r.rec r.chunk_id r.segment a).1)
        × Abreast
            (StateMachine.apply r.rec r.chunk_id r.segment a).0
            (StateMachine.apply r.rec r.chunk_id r.segment b).0
  apply-Abreast a b r x =
      subst
        (λ b.
          ((StateMachine.apply r.rec r.chunk_id r.segment b).1
            ≡ (StateMachine.apply r.rec r.chunk_id r.segment a).1)
          × Abreast (StateMachine.apply r.rec r.chunk_id r.segment a).0
              (StateMachine.apply r.rec r.chunk_id r.segment b).0)
        (λ i. record {
          log = sym x.log i;
          payload_cache = b.payload_cache;
          log_state = sym x.state i;
        })
        (recached a b.payload_cache r.rec r.chunk_id r.segment)

  -- Opening leads to the log map and the state that the records lead to.
  pub run-Abreast :
      (steps : List (Opening T)) (a b : RaftLogStateMachine T)
      → Abreast a b
      → ((run steps b).1 ≡ (replay apply_record (records_of steps) a).1)
        × Abreast (replay apply_record (records_of steps) a).0 (run steps b).0
  run-Abreast [] a b x = (refl, x)
  run-Abreast (record_read r ∷ steps) a b x =
      let (out, y) = apply-Abreast a b r x in
      elim (Outcome-cases (StateMachine.apply r.rec r.chunk_id r.segment a).1) [
        | inl (_, e) ↦
            rw (out, e)
              (run-Abreast steps (StateMachine.apply r.rec r.chunk_id r.segment a).0
                (StateMachine.apply r.rec r.chunk_id r.segment b).0 y)
        | inr (inl (z, e)) ↦ rw (out, e) (refl, y)
        | inr (inr e) ↦ rw (out, e) (refl, y)
      ]
  run-Abreast (chunk_synced none ∷ steps) a b x = run-Abreast steps a b x
  run-Abreast (chunk_synced (some state) ∷ steps) a b x =
      run-Abreast steps a (set_boundary (some state) b) (record { log = x.log; state = x.state })

-- When the store opens, the WAL hands over these records, in order and up to the first that is
-- refused, and says meanwhile which chunks are synced; then the rest of its opening comes out as
-- `opened`.
pub record Replays {T : Types} (W : Wal T) (config : Config W.WalConfig) (records : List (Stored T))
    : Type 0 where
  pub steps : List (Opening T)
  pub order : records_of steps ≡ records
  pub opened : Outcome (IoError T) W.Store
  pub runs :
      W.open_wal config.wal apply_record set_boundary (StateMachine.new config)
      ≡ (run steps >> settle opened) (StateMachine.new config)

module _ {T : Types} {W : Wal T} where
  -- The state machine that opening leads to.
  abbrev pub opened_on :
      {config : Config W.WalConfig} {records : List (Stored T)}
      → Replays W config records
      → RaftLogStateMachine T
  opened_on {config} p = (run p.steps (StateMachine.new config)).0

  pub opened_state_machine :
      (config : Config W.WalConfig) (records : List (Stored T)) (rl : RaftLog T W)
      (p : Replays W config records)
      → open_log config ≡ ok rl
      → ((run p.steps (StateMachine.new config)).1 ≡ ok tt) × (rl.state_machine ≡ opened_on p)
  unfolding open_log buffer_removable_chunks
  opened_state_machine config records rl p h = ground (arith, p.runs)

  pub replayed-Abreast :
      (config : Config W.WalConfig) (records : List (Stored T)) (p : Replays W config records)
      → ((run p.steps (StateMachine.new config)).1
          ≡ (replay apply_record records (StateMachine.new config)).1)
        × Abreast (replay apply_record records (StateMachine.new config)).0 (opened_on p)
  replayed-Abreast config records p =
      subst
        (λ rs.
          ((run p.steps (StateMachine.new config)).1
            ≡ (replay apply_record rs (StateMachine.new config)).1)
          × Abreast (replay apply_record rs (StateMachine.new config)).0 (opened_on p))
        p.order
        (run-Abreast p.steps (StateMachine.new config) (StateMachine.new config)
          (record { log = refl; state = refl }))

  -- If the WAL, when it opens, hands over a list of records in order, up to the first that is
  -- refused, and calls the boundary callback between them, each record is `Admissible` where it is
  -- applied, the boundary never goes back, and `open` succeeds, then the opened store has the log
  -- map and the state that applying the records one after the other to a new state machine gives,
  -- and the invariant `IsSound` holds of the store, with its cache and its boundary.
  pub open_log-IsSound :
      (config : Config W.WalConfig) (records : List (Stored T)) (rl : RaftLog T W)
      (p : Replays W config records)
      → AllAdmissible p.steps (StateMachine.new config)
      → open_log config ≡ ok rl
      → Abreast (replay apply_record records (StateMachine.new config)).0 rl.state_machine
        × IsSound rl
  open_log-IsSound config records rl p a h =
      let (accepted, same) = opened_state_machine config records rl p h in
      let (out, x) = replayed-Abreast config records p in
      (
        rw same x,
        rw same (run-SmInv p.steps (StateMachine.new config) (new-SmInv config) a accepted),
      )
