-- ===== src/RaftLog/SideBySide.antt =====
-- A state machine that replays all the records of a store, and one that replays those in the chunks
-- that are left: they show the same entries.
use raft_log.Prelude.{
  ℕ, ◌≡◌, ◌∙◌, refl, sym, subst, none, Bool, true, List, [], ◌∷◌, ◌++◌, All, All-imp, All2-imp,
  arith, leb, inl, inr, Outcome-cases,
}
use raft_log.Prelude.Ord.{not-le-none}
use raft_log.Types.{Types, ChunkId}
use raft_log.Config.{Config}
use raft_log.Cache
use raft_log.Cache.{PayloadCache, evictable}
use raft_log.StateMachine
use raft_log.StateMachine.{RaftLogStateMachine, LogData, Log, apply, absorb}
use raft_log.StateMachine.Alike.{Alike, Unevictable, Agrees, absorb-Alike, absorb-Unevictable}
use raft_log.Contents.{Entries, Load, Shows, AllShown}
use raft_log.RaftLog.Open.{Stored, replay, apply_record}
use raft_log.RaftLog.Reduced.{Reduced, apply-Reduced, replay-append, replay_head, begun-Reduced}
use raft_log.RaftLog.Reopen.{Removed}
use raft_log.RaftLog.Mirror.{nowhere}

module _ {T : Types} where
  apply-Unevictable :
      (sm : RaftLogStateMachine T) (r : Stored T)
      → Unevictable sm.payload_cache
      → Unevictable (apply r.rec r.chunk_id r.segment sm).0.payload_cache
  unfolding apply
  apply-Unevictable sm r u = absorb-Unevictable sm r.rec r.chunk_id r.segment u

  replay-Unevictable :
      (rs : List (Stored T)) (sm : RaftLogStateMachine T)
      → Unevictable sm.payload_cache
      → Unevictable (replay apply_record rs sm).0.payload_cache
  replay-Unevictable [] sm u = u
  replay-Unevictable (x ∷ rs) sm u =
      let u' = apply-Unevictable sm x u in
      elim (Outcome-cases (apply x.rec x.chunk_id x.segment sm).1) [
        | inl (_, e) ↦ rw e (replay-Unevictable rs (apply x.rec x.chunk_id x.segment sm).0 u')
        | inr (inl (y, e)) ↦ rw e u'
        | inr (inr e) ↦ rw e u'
      ]

  apply-Alike :
      (a b : RaftLogStateMachine T) (r : Stored T)
      → Alike a b
      → Alike (apply r.rec r.chunk_id r.segment a).0 (apply r.rec r.chunk_id r.segment b).0
  unfolding apply
  apply-Alike a b r x =
      let y = absorb-Alike a b r.rec r.chunk_id r.segment x in
      record { here = y.here; there = y.there; agree = y.agree }

  replay-Alike :
      (q : ChunkId → Bool) (rs : List (Stored T)) (a b : RaftLogStateMachine T)
      → All (λ r. q r.chunk_id ≡ true) rs
      → Reduced q a b
      → Alike a b
      → Alike (replay apply_record rs a).0 (replay apply_record rs b).0
  replay-Alike q [] a b h r x = x
  replay-Alike q (s ∷ rs) a b h r x =
      let (r', out) = apply-Reduced q a b s.rec s.chunk_id s.segment h.0 r in
      let x' = apply-Alike a b s x in
      elim (Outcome-cases (apply s.rec s.chunk_id s.segment a).1) [
        | inl (_, e) ↦
            rw (out, e)
              (replay-Alike q rs (apply s.rec s.chunk_id s.segment a).0
                (apply s.rec s.chunk_id s.segment b).0 h.1 r' x')
        | inr (inl (y, e)) ↦ rw (out, e) x'
        | inr (inr e) ↦ rw (out, e) x'
      ]

  new-Unevictable :
      {C : Type 0} (config : Config C) → Unevictable {T = T} (StateMachine.new config).payload_cache
  unfolding StateMachine.new Cache.new
  new-Unevictable config = record { sorted = tt; lone = refl }

  -- A new state machine, given a state, has no entry to disagree on.
  begun-Alike :
      {C : Type 0} (config : Config C) (sm : RaftLogStateMachine T)
      → Unevictable sm.payload_cache
      → Alike sm (record (StateMachine.new config) { log_state = sm.log_state })
  unfolding StateMachine.new Cache.new
  begun-Alike config sm u = record {
    here = u;
    there = record { sorted = tt; lone = refl };
    agree = tt;
  }

  -- Entries that one cache shows by itself, the other shows too.
  agreed-Shows :
      (load : Load T) (c d : PayloadCache T) (e : ℕ × LogData T) (a : T.LogId × T.LogPayload)
      → c.last_evictable ≡ none
      → d.last_evictable ≡ none
      → Agrees d c e.1
      → Shows T nowhere c e a
      → Shows T load d e a
  unfolding evictable
  agreed-Shows load c d e a m n g s =
      let never = not-le-none T.log_id_ord a.0 in
      let agreed : Cache.get d a.0 ≡ Cache.get c a.0 =
        subst (λ id. Cache.get d id ≡ Cache.get c id) s.same g in
      record {
        index = s.index;
        same = s.same;
        found = elim s.found [
          | inl f ↦ inl (agreed ∙ f)
          | inr (f, v) ↦ absurd (ground (arith, rw m at v, never))
        ];
        stored = λ v. absurd (ground (arith, rw n at v, never));
      }

  Alike-AllShown :
      (load : Load T) (a b : RaftLogStateMachine T) (es : Entries T)
      → b.log ≡ a.log
      → Alike a b
      → AllShown T nowhere a.payload_cache a.log es
      → AllShown T load b.payload_cache b.log es
  Alike-AllShown load a b es same x shown =
      All2-imp (λ e. Agrees b.payload_cache a.payload_cache e.1)
        (λ e p g s.
          agreed-Shows load a.payload_cache b.payload_cache e p x.here.lone x.there.lone g s)
        b.log es x.agree (rw same shown)

module _ {T : Types} {C : Type 0} (config : Config C) where
  -- A state machine that replays the checkpoint and the records behind it shows the entries that one
  -- shows from its cache alone that replays all the records.
  pub Removed-AllShown :
      (first : ChunkId) (before after : List (Stored T)) (head : Stored T) (load : Load T)
      (es : Entries T)
      → Removed config first before after head
      → (let whole = (replay apply_record (before ++ head ∷ after) (StateMachine.new config)).0 in
          let b = (replay apply_record (head ∷ after) (StateMachine.new config)).0 in
          AllShown T nowhere whole.payload_cache whole.log es
          → b.log ≡ whole.log
          → AllShown T load b.payload_cache b.log es)
  Removed-AllShown first before after head load es r shown same =
      let new = StateMachine.new {T = T} config in
      let sm = (replay apply_record before new).0 in
      let begun = begun-Reduced config first before r.earlier in
      let whole : replay apply_record (before ++ head ∷ after) new ≡ replay apply_record after sm =
        replay-append before (head ∷ after) new r.accepted ∙ replay_head head after _ sm r.saved in
      let left = replay_head head after sm.log_state new r.saved in
      let start = begun-Alike config sm (replay-Unevictable before new (new-Unevictable config)) in
      let alike =
        replay-Alike (λ c. leb first.offset c.offset) after sm
          (record new { log_state = sm.log_state })
          (All-imp (λ r h. ground (arith, h)) after r.later) begun start in
      Alike-AllShown load (replay apply_record (before ++ head ∷ after) new).0
        (replay apply_record (head ∷ after) new).0 es same
        (subst (λ (p : RaftLogStateMachine T × RaftLogStateMachine T). Alike p.0 p.1)
          (λ i. ((sym whole i).0, (sym left i).0)) alike)
        shown
