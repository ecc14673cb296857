-- ===== src/RaftLog/Reduced.antt =====
-- Two state machines side by side, one of which lacks the entries of the chunks that are gone: what
-- records do to both.
use raft_log.Prelude.{
  ◌≡◌, ◌∙◌, refl, sym, ap, ok, Bool, true, ◌++◌, List, [], ◌∷◌, keep, All, All-imp, arith, leb,
  Outcome-cases, inl, inr, none, some, ◌<◌,
}
use raft_log.Prelude.Ord.{u64_ord}
use raft_log.Types.{Types, ChunkId, Segment}
use raft_log.Config.{Config}
use raft_log.BTreeMap
use raft_log.BTreeMap.{split_below, split_off}
use raft_log.BTreeMap.Sorted.{IsSorted}
use raft_log.BTreeMap.Laws.{keep-insert, keep_none}
use raft_log.State
use raft_log.State.{RaftLogState, RaftLogAction, RaftLogRecord, action, checkpoint, advance}
use raft_log.StateMachine
use raft_log.StateMachine.{RaftLogStateMachine, LogData, Log, absorb, apply}
use raft_log.StateMachine.Keeps.{absorb-log_state}
use raft_log.StateMachine.Entries.{absorb-IsSorted, absorb-All}
use raft_log.RaftLog.Open.{Stored, replay, apply_record}

-- Two tests, one after the other.
keep_swap : {A : Type 0} (p r : A → Bool) (xs : List A) → keep p (keep r xs) ≡ keep r (keep p xs)
unfolding keep
keep_swap p r [] = refl
keep_swap p r (x ∷ xs) = ground (arith, keep_swap p r xs)

module _ {T : Types} (q : ChunkId → Bool) where
  -- `b` has the entries of `a` that lie in the chunks that are left, and the same state.
  pub record Reduced (a b : RaftLogStateMachine T) : Type 0 where
    pub sorted : IsSorted u64_ord a.log
    pub same : b.log_state ≡ a.log_state
    pub kept : b.log ≡ keep (λ e. q e.1.chunk_id) a.log

  absorb-kept :
      (a b : RaftLogStateMachine T) (rec : RaftLogRecord T) (c : ChunkId) (s : Segment)
      → q c ≡ true
      → Reduced a b
      → (absorb b rec c s).log ≡ keep (λ e. q e.1.chunk_id) (absorb a rec c s).log
  unfolding absorb split_below split_off
  absorb-kept a b (action (RaftLogAction.append id p)) c s h r =
      ap (BTreeMap.insert u64_ord (T.log_index id) _) r.kept
      ∙ sym (keep-insert u64_ord (λ e. q e.1.chunk_id) (T.log_index id) _ a.log h r.sorted)
  absorb-kept a b (action (RaftLogAction.truncate_after none)) c s h r =
      ap (keep _) r.kept ∙ keep_swap _ _ a.log
  absorb-kept a b (action (RaftLogAction.truncate_after (some id))) c s h r =
      ap (keep _) r.kept ∙ keep_swap _ _ a.log
  absorb-kept a b (action (RaftLogAction.purge_upto id)) c s h r =
      ap (keep _) r.kept ∙ keep_swap _ _ a.log
  absorb-kept a b (action (RaftLogAction.save_vote vote)) c s h r = r.kept
  absorb-kept a b (action (RaftLogAction.commit id)) c s h r = r.kept
  absorb-kept a b (checkpoint state) c s h r = r.kept

  pub apply-Reduced :
      (a b : RaftLogStateMachine T) (rec : RaftLogRecord T) (c : ChunkId) (s : Segment)
      → q c ≡ true
      → Reduced a b
      → Reduced (apply rec c s a).0 (apply rec c s b).0
        × ((apply rec c s b).1 ≡ (apply rec c s a).1)
  unfolding apply
  apply-Reduced a b rec c s h r =
      let same : (absorb b rec c s).log_state ≡ (absorb a rec c s).log_state =
        absorb-log_state b rec c s ∙ r.same ∙ sym (absorb-log_state a rec c s) in
      (
        record {
          sorted = absorb-IsSorted a rec c s r.sorted;
          same = ap (λ st. (State.apply rec st).0) same;
          kept = absorb-kept a b rec c s h r;
        },
        ap (λ st. (State.apply rec st).1) same,
      )

  pub replay-Reduced :
      (rs : List (Stored T)) (a b : RaftLogStateMachine T)
      → All (λ r. q r.chunk_id ≡ true) rs
      → Reduced a b
      → Reduced (replay apply_record rs a).0 (replay apply_record rs b).0
        × ((replay apply_record rs b).1 ≡ (replay apply_record rs a).1)
  replay-Reduced [] a b h r = (r, refl)
  replay-Reduced (x ∷ rs) a b h r =
      let (r', out) = apply-Reduced a b x.rec x.chunk_id x.segment h.0 r in
      let (r'', out') =
        replay-Reduced rs (apply x.rec x.chunk_id x.segment a).0
          (apply x.rec x.chunk_id x.segment b).0 h.1 r' in
      elim (Outcome-cases (apply x.rec x.chunk_id x.segment a).1) [
        | inl (_, e) ↦ rw (out, e) (r'', out')
        | inr (inl (y, e)) ↦ rw (out, e) (r', refl)
        | inr (inr e) ↦ rw (out, e) (r', refl)
      ]

module _ {T : Types} where
  pub replay-append :
      (rs qs : List (Stored T)) (sm : RaftLogStateMachine T)
      → (replay apply_record rs sm).1 ≡ ok tt
      → replay apply_record (rs ++ qs) sm ≡ replay apply_record qs (replay apply_record rs sm).0
  replay-append [] qs sm h = refl
  replay-append (x ∷ rs) qs sm h = elim (Outcome-cases (apply x.rec x.chunk_id x.segment sm).1) [
    | inl (_, e) ↦ rw e (replay-append rs qs (apply x.rec x.chunk_id x.segment sm).0 (rw e at h))
    | inr (inl (y, e)) ↦ absurd (ground (arith, e, h))
    | inr (inr e) ↦ absurd (ground (arith, e, h))
  ]

  apply-log :
      (rec : RaftLogRecord T) (c : ChunkId) (s : Segment) (sm : RaftLogStateMachine T)
      → (apply rec c s sm).0.log ≡ (absorb sm rec c s).log
  unfolding apply
  apply-log rec c s sm = refl

  -- What holds of the places of all records holds of those of the entries, and the map is sorted.
  pub replay-places :
      (P : ChunkId → Type 0) (rs : List (Stored T)) (sm : RaftLogStateMachine T)
      → All (λ r. P r.chunk_id) rs
      → IsSorted u64_ord sm.log × All (λ e. P e.1.chunk_id) sm.log
      → IsSorted u64_ord (replay apply_record rs sm).0.log
        × All (λ e. P e.1.chunk_id) (replay apply_record rs sm).0.log
  replay-places P [] sm h a = a
  replay-places P (x ∷ rs) sm h a =
      let changed = apply-log x.rec x.chunk_id x.segment sm in
      let log' = (apply x.rec x.chunk_id x.segment sm).0.log in
      let a' : IsSorted u64_ord log' × All (λ e. P e.1.chunk_id) log' = rw changed (
        absorb-IsSorted sm x.rec x.chunk_id x.segment a.0,
        absorb-All (λ d. P d.chunk_id) sm x.rec x.chunk_id x.segment (λ id. h.0) a.1,
      ) in
      elim (Outcome-cases (apply x.rec x.chunk_id x.segment sm).1) [
        | inl (_, e) ↦ rw e (replay-places P rs (apply x.rec x.chunk_id x.segment sm).0 h.1 a')
        | inr (inl (y, e)) ↦ rw e a'
        | inr (inr e) ↦ rw e a'
      ]

  -- A checkpoint sets the state of a new state machine, which has no entries.
  pub apply_first :
      (state : RaftLogState T) (c : ChunkId) (s : Segment) (sm : RaftLogStateMachine T)
      → apply (checkpoint state) c s sm ≡ (record sm { log_state = state }, ok tt)
  unfolding apply absorb State.apply State.check advance
  apply_first state c s sm = refl

  -- Where the replay of the chunks that are left begins: with the state, and without an entry.
  pub begun-Reduced :
      {C : Type 0} (config : Config C) (first : ChunkId) (before : List (Stored T))
      → All (λ r. r.chunk_id.offset < first.offset) before
      → (let sm = (replay apply_record before (StateMachine.new config)).0 in
          Reduced
            (λ c. leb first.offset c.offset)
            sm
            (record (StateMachine.new config) { log_state = sm.log_state }))
  unfolding StateMachine.new
  begun-Reduced config first before earlier =
      let new = StateMachine.new {T = T} config in
      let sm = (replay apply_record before new).0 in
      let (sorted, places) =
        replay-places (λ c. c.offset < first.offset) before new earlier (tt, tt) in
      let empty : keep (λ e. leb first.offset e.1.chunk_id.offset) sm.log ≡ [] =
        keep_none _ sm.log (All-imp (λ e h. ground (arith, h)) sm.log places) in
      record { sorted = sorted; same = refl; kept = sym empty }

  pub replay_head :
      (head : Stored T) (rs : List (Stored T)) (state : RaftLogState T) (sm : RaftLogStateMachine T)
      → head.rec ≡ checkpoint state
      → replay apply_record (head ∷ rs) sm
        ≡ replay apply_record rs (record sm { log_state = state })
  replay_head head rs state sm h = rw (h, apply_first state head.chunk_id head.segment sm) refl
