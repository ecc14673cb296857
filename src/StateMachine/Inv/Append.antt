-- ===== src/StateMachine/Inv/Append.antt =====
-- An accepted append goes to the end of the map.
use raft_log.Prelude.{
  ℕ, ◌≤◌, ◌≡◌, ◌∙◌, refl, ap, sym, subst, some, true, [], ◌∷◌, ◌++◌, All-imp, All-append, arith, ok,
  inl, inr, Option-cases,
}
use mathlib.Core.Option.{some-injective}
use raft_log.Prelude.Ord.{lt, lt-not-le, le_of_lt, le_trans, le-lt_trans, lt-some, u64_ord, lt_u64}
use raft_log.Types.{Types, ids, next_log_index, InRange}
use raft_log.BTreeMap
use raft_log.BTreeMap.{last_key_value}
use raft_log.BTreeMap.Laws.{insert-last, last-append}
use raft_log.State.{RaftLogState, check_append}
use raft_log.StateMachine.{LogData, Log}
use raft_log.StateMachine.Chain.{IsChain, Linked, chain-Upto_last, IsChain-snoc}
use raft_log.StateMachine.Inv.{
  AbovePurged, BoundInRange, IsOrdered, LogInv, next-in_range, next-none, last_none, chain_keyed,
  last_holds,
}

module _ {T : Types} where
  -- What an accepted append tells: it is above the last entry and not before the next index.
  pub check_append_facts :
      (st : RaftLogState T) (id : T.LogId)
      → check_append st id ≡ ok tt
      → (lt (ids T) st.last (some id) ≡ true) × (next_log_index T st.last ≤ T.log_index id)
  unfolding check_append
  check_append_facts st id h = ground (arith, lt-not-le (ids T) st.last (some id), next-none T)

  check_append_next :
      (st : RaftLogState T) (id l : T.LogId)
      → st.last ≡ some l
      → check_append st id ≡ ok tt
      → next_log_index T (some l) ≡ T.log_index id
  unfolding check_append
  check_append_next st id l e h = ground arith

  append-IsOrdered :
      (st : RaftLogState T) (id : T.LogId)
      → IsOrdered st
      → InRange T id
      → check_append st id ≡ ok tt
      → IsOrdered (record st { last = some id })
  append-IsOrdered st id o r h =
      let (up, next) = check_append_facts st id h in
      let below = le_of_lt (ids T) st.last (some id) up in
      record {
        purged_le = le_trans (ids T) st.purged st.last (some id) o.purged_le below;
        purged_index = omega (arith, o.purged_index, next, next-in_range T id r);
        committed_le = le_trans (ids T) st.committed st.last (some id) o.committed_le below;
        purged_range = o.purged_range;
        last_range = r;
      }

  -- The new entry is linked to the last one.
  append-Linked :
      (log : Log T) (st : RaftLogState T) (id : T.LogId) (d : LogData T) (l : ℕ × LogData T)
      → LogInv log st
      → d.log_id ≡ id
      → check_append st id ≡ ok tt
      → last_key_value log ≡ some l
      → Linked T l ((T.log_index id, d) ∷ [])
  append-Linked log st id d l v e h n =
      let at_last = v.ends l n in
      let (up, _) = check_append_facts st id h in
      let range : BoundInRange T (some l.1.log_id) =
        subst (BoundInRange T) at_last v.ordered.last_range in
      let keyed = last_holds _ log l (chain_keyed log v.chain) n in
      (
        omega
            (arith, check_append_next st id l.1.log_id at_last h, next-in_range T l.1.log_id range),
        ground (arith, lt-some T.log_id_ord l.1.log_id id),
      )

  -- The map with the entry at its end, which is where `insert` puts it.
  pub append_at_end :
      (log : Log T) (st : RaftLogState T) (id : T.LogId) (d : LogData T)
      → LogInv log st
      → d.log_id ≡ id
      → check_append st id ≡ ok tt
      → (BTreeMap.insert u64_ord (T.log_index id) d log ≡ log ++ (T.log_index id, d) ∷ [])
        × IsChain T (log ++ (T.log_index id, d) ∷ [])
  append_at_end log st id d v e h = elim (Option-cases (last_key_value log)) [
    | inl n ↦
        rw (last_none log n) (unfold BTreeMap.insert in refl, (ap T.log_index (sym e), tt, tt))
    | inr (l, n) ↦
        let link = append-Linked log st id d l v e h n in
        let upto = chain-Upto_last T log l v.chain n in
        (
          insert-last u64_ord (T.log_index id) d log
              (All-imp (λ x u. (lt_u64 x.0 (T.log_index id)).1 (omega arith)) log upto),
          IsChain-snoc T log l (T.log_index id, d) v.chain n (ap T.log_index (sym e)) link,
        )
  ]

  pub append-LogInv :
      (log : Log T) (st : RaftLogState T) (id : T.LogId) (d : LogData T)
      → LogInv log st
      → InRange T id
      → d.log_id ≡ id
      → check_append st id ≡ ok tt
      → LogInv (BTreeMap.insert u64_ord (T.log_index id) d log) (record st { last = some id })
  append-LogInv log st id d v r e h =
      let (at_end, chain) = append_at_end log st id d v e h in
      let (up, next) = check_append_facts st id h in
      let o = v.ordered in
      rw at_end (record {
        chain = chain;
        ends = λ l n.
            let same = some-injective (T.log_index id, d) l (sym (last-append log _) ∙ n) in
            rw (← same) (ap some (sym e));
        above = All-append (AbovePurged st.purged) log _ v.above (
          (
            rw e (le-lt_trans (ids T) st.purged st.last (some id) o.purged_le up),
            omega (arith, o.purged_index, next),
          ),
          tt,
        );
        ordered = append-IsOrdered st id o r h;
      })
