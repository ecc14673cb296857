-- ===== src/StateMachine/Inv/Truncate.antt =====
-- A truncation to the purge point or to an entry of the map leaves the entries up to there.
use raft_log.Prelude.{
  ℕ, ◌+◌, ◌≡◌, ◌⊎◌, ◌∙◌, ap, sym, subst, Option, some, true, [], All-imp, All-keep, arith, ok, inl,
  inr, Option-cases, Bool-cases,
}
use raft_log.Prelude.Ord.{
  lt, le, le_self, le-not-lt, le_of_lt, eq_of_le-le, le-some, u64_ord, lt_u64,
}
use mathlib.Core.Option.{some-injective}
use raft_log.Types.{Types, ids, next_log_index, InRange}
use raft_log.BTreeMap
use raft_log.BTreeMap.{last_key_value, split_below}
use raft_log.BTreeMap.Laws.{keep_none}
use raft_log.State.{RaftLogState, check_truncate, truncate_state}
use raft_log.StateMachine.{LogData, Log}
use raft_log.StateMachine.Chain.{chain-Upto_last, split_below-IsChain, last-split_below}
use raft_log.StateMachine.Inv.{
  AbovePurged, BoundInRange, LogInv, next-in_range, last_none, chain_keyed, last_holds, get_holds,
}

module _ {T : Types} where
  -- What a truncation may keep: everything up to the purge point, or up to an entry of the map.
  abbrev pub Keepable : Log T → Option T.LogId → Option T.LogId → Type 0
  Keepable log purged upto =
      (upto ≡ purged)
      ⊎ ((i : ℕ) × (d : LogData T) × (BTreeMap.get u64_ord i log ≡ some d) × (upto ≡ some d.log_id))

  pub truncate_to :
      (st : RaftLogState T) (upto : Option T.LogId)
      → le (ids T) upto st.last ≡ true
      → truncate_state st upto ≡ record st { last = upto }
  unfolding truncate_state
  truncate_to st upto h = elim (Bool-cases (lt (ids T) upto st.last)) [
    | inl t ↦ rw t
    | inr f ↦
        let back : st.last ≡ upto =
          eq_of_le-le (ids T) st.last upto (ground (arith, le-not-lt (ids T) st.last upto)) h in
        rw f (λ i. record st { last = back i })
  ]

  check_truncate_facts :
      (st : RaftLogState T) (upto : Option T.LogId)
      → check_truncate st upto ≡ ok tt
      → le (ids T) st.committed upto ≡ true
  unfolding check_truncate
  check_truncate_facts st upto h = ground arith

  -- An entry of the map lies at or before the last one, and its index is in range.
  pub entry_facts :
      (log : Log T) (st : RaftLogState T) (i : ℕ) (d : LogData T)
      → LogInv log st
      → BTreeMap.get u64_ord i log ≡ some d
      → (le (ids T) (some d.log_id) st.last ≡ true)
        × (i ≡ T.log_index d.log_id)
        × InRange T d.log_id
        × AbovePurged st.purged (i, d)
  entry_facts log st i d v g = elim (Option-cases (last_key_value log)) [
    | inl n ↦ absurd (get_holds (λ _. ⊥) i [] d tt (rw (last_none log n) at g))
    | inr (l, n) ↦
        let at_last = v.ends l n in
        let range : BoundInRange T (some l.1.log_id) =
          subst (BoundInRange T) at_last v.ordered.last_range in
        let l_keyed = last_holds _ log l (chain_keyed log v.chain) n in
        let keyed = get_holds _ i log d (chain_keyed log v.chain) g in
        let upto = get_holds _ i log d (chain-Upto_last T log l v.chain n) g in
        (
          rw at_last (le-some T.log_id_ord d.log_id l.1.log_id ∙ upto.1),
          keyed,
          omega arith,
          get_holds _ i log d v.above g,
        )
  ]

  truncate_purged-LogInv :
      (log : Log T) (st : RaftLogState T)
      → LogInv log st
      → check_truncate st st.purged ≡ ok tt
      → LogInv (split_below u64_ord (next_log_index T st.purged) log) (truncate_state st st.purged)
  truncate_purged-LogInv log st v h =
      let o = v.ordered in
      rw (empty, truncate_to st st.purged o.purged_le)
        (record {
          chain = tt;
          ends = λ l n. absurd (unfold last_key_value in cc n);
          above = tt;
          ordered = record {
            purged_le = le_self (ids T) st.purged;
            purged_index = omega arith;
            committed_le = check_truncate_facts st st.purged h;
            purged_range = o.purged_range;
            last_range = o.purged_range;
          };
        })
    where
      empty : split_below u64_ord (next_log_index T st.purged) log ≡ []
      empty =
          unfold split_below in
          keep_none (λ x. lt u64_ord x.0 (next_log_index T st.purged)) log
            (All-imp (λ x a. ground (arith, a.1, lt_u64 x.0 (next_log_index T st.purged))) log
              v.above)

  truncate_entry-LogInv :
      (log : Log T) (st : RaftLogState T) (i : ℕ) (d : LogData T)
      → LogInv log st
      → BTreeMap.get u64_ord i log ≡ some d
      → check_truncate st (some d.log_id) ≡ ok tt
      → LogInv
          (split_below u64_ord (next_log_index T (some d.log_id)) log)
          (truncate_state st (some d.log_id))
  truncate_entry-LogInv log st i d v g h =
      let (at_most, keyed, range, above) = entry_facts log st i d v g in
      let next : next_log_index T (some d.log_id) ≡ i + 1 =
        omega (arith, next-in_range T d.log_id range) in
      let ends_at = last-split_below T i log d v.chain g in
      rw (truncate_to st (some d.log_id) at_most) (record {
        chain = split_below-IsChain T _ log v.chain;
        ends = λ l n.
            let same = some-injective (i, d) l (sym ends_at ∙ (rw next at n)) in
            ap some (ap (λ x. x.1.log_id) same);
        above = unfold split_below in All-keep (AbovePurged st.purged) _ log v.above;
        ordered = record {
          purged_le = le_of_lt (ids T) st.purged (some d.log_id) above.0;
          purged_index = omega (arith, above.1, next);
          committed_le = check_truncate_facts st (some d.log_id) h;
          purged_range = v.ordered.purged_range;
          last_range = range;
        };
      })

  pub truncate-LogInv :
      (log : Log T) (st : RaftLogState T) (upto : Option T.LogId)
      → LogInv log st
      → Keepable log st.purged upto
      → check_truncate st upto ≡ ok tt
      → LogInv (split_below u64_ord (next_log_index T upto) log) (truncate_state st upto)
  truncate-LogInv log st upto v (inl e) h = rw e (truncate_purged-LogInv log st v (rw e at h))
  truncate-LogInv log st upto v (inr (i, d, g, e)) h =
      rw e (truncate_entry-LogInv log st i d v g (rw e at h))

  -- After the truncation the last entry is the one it keeps.
  pub truncate_last :
      (log : Log T) (st : RaftLogState T) (upto : Option T.LogId)
      → LogInv log st
      → Keepable log st.purged upto
      → (truncate_state st upto).last ≡ upto
  truncate_last log st upto v k = ap (λ s. s.last) (truncate_to st upto (at_most k))
    where
      at_most : Keepable log st.purged upto → le (ids T) upto st.last ≡ true
      at_most (inl e) = rw e v.ordered.purged_le
      at_most (inr (i, d, g, e)) = rw e (entry_facts log st i d v g).0
