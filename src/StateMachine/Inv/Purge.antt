-- ===== src/StateMachine/Inv/Purge.antt =====
-- A purge leaves the entries above the purge point, if log ids and indexes agree about it.
use raft_log.Prelude.{
  ℕ, ◌≤◌, ◌<◌, ◌≡◌, ◌↔◌, Option, none, some, true, false, All, All-imp, All-keep, All-and, keep,
  keep_holds, arith, Bool, if◌then◌else◌,
}
use raft_log.Prelude.Ord.{
  lt, le, lt_self, lt_trans, le_self, le-not-lt, lt-not-le, le_of_lt, le_trans, le-lt_trans,
  lt-some, lt-none-some, lt_or_eq, u64_ord, le_u64,
}
use raft_log.Types.{Types, ids, next_log_index, InRange}
use raft_log.BTreeMap.{split_off}
use raft_log.State.{RaftLogState, purge_state}
use raft_log.StateMachine.{LogData, Log}
use raft_log.StateMachine.Chain.{split_off-IsChain, last-split_off}
use raft_log.StateMachine.Inv.{
  AbovePurged, BoundInRange, IsOrdered, LogInv, next-in_range, chain_keyed, last_holds,
}

-- The order of log ids and the order of indexes say the same of `id` and `upto`.
abbrev pub Agrees : (T : Types) → T.LogId → T.LogId → Type 0
Agrees T upto id = (le T.log_id_ord id upto ≡ true) ↔ (T.log_index id ≤ T.log_index upto)

abbrev pub AgreesWithLast : (T : Types) → T.LogId → Option T.LogId → Type 0
AgreesWithLast T upto none = Unit
AgreesWithLast T upto (some id) = Agrees T upto id

module _ (T : Types) where
  -- If the last entry is not before the purge point, neither is its index.
  purge_index :
      (last : Option T.LogId) (id : T.LogId)
      → BoundInRange T last
      → InRange T id
      → AgreesWithLast T id last
      → lt (ids T) last (some id) ≡ false
      → next_log_index T (some id) ≤ next_log_index T last
  purge_index none id b r a h = absurd (ground (arith, lt-none-some T.log_id_ord id))
  purge_index (some l) id b r a h =
      let o = T.log_id_ord in
      let above : le o id l ≡ true = ground (arith, lt-some o l id, le-not-lt o id l) in
      let indexes : T.log_index id ≤ T.log_index l =
        ground (arith, lt_or_eq o id l above, lt-not-le o id l, a.0, a.1) in
      omega (arith, next-in_range T id r, next-in_range T l b)

  BoundInRange-if :
      (b : Bool) (x y : Option T.LogId)
      → BoundInRange T x
      → BoundInRange T y
      → BoundInRange T (if b then x else y)
  BoundInRange-if true x y h k = h
  BoundInRange-if false x y h k = k

module _ {T : Types} where
  -- A purge point that does not conflict with the log: it agrees with each entry and with the last.
  pub record Purgeable (log : Log T) (st : RaftLogState T) (upto : T.LogId) : Type 0 where
    pub range : InRange T upto
    pub entries : All (λ e. Agrees T upto e.1.log_id) log
    pub last : AgreesWithLast T upto st.last

  purge-IsOrdered :
      (st : RaftLogState T) (id : T.LogId)
      → IsOrdered st
      → InRange T id
      → AgreesWithLast T id st.last
      → IsOrdered (purge_state st id)
  unfolding purge_state
  purge-IsOrdered st id o r a = record {
    purged_le = ground (
      arith,
      le_self (ids T) (some id),
      le-not-lt (ids T) (some id) st.last,
      le-lt_trans (ids T) st.purged st.last (some id),
    );
    purged_index = ground (
      arith,
      purge_index T st.last id o.last_range r a,
      le-lt_trans (ids T) st.purged st.last (some id),
    );
    committed_le = ground (
      arith,
      le_of_lt (ids T) st.last (some id),
      le_trans (ids T) st.committed st.last (some id),
    );
    purged_range = BoundInRange-if T (lt (ids T) st.purged (some id)) _ _ r o.purged_range;
    last_range = BoundInRange-if T (lt (ids T) st.last (some id)) _ _ r o.last_range;
  }

  -- What is known of an entry that the purge leaves.
  abbrev Stays : RaftLogState T → T.LogId → ℕ × LogData T → Type 0
  Stays st id e =
      ((AbovePurged st.purged e × Agrees T id e.1.log_id) × (e.0 ≡ T.log_index e.1.log_id))
      × (le u64_ord (next_log_index T (some id)) e.0 ≡ true)

  Stays-above :
      (st : RaftLogState T) (id : T.LogId) (e : ℕ × LogData T)
      → InRange T id
      → Stays st id e
      → lt T.log_id_ord id e.1.log_id ≡ true
  Stays-above st id e r (((_, agrees), keyed), from) =
      let o = T.log_id_ord in
      let index : T.log_index id < T.log_index e.1.log_id =
        omega (arith, (le_u64 _ e.0).0 from, next-in_range T id r) in
      ground (arith, lt-not-le o id e.1.log_id, agrees.0)

  All-stay :
      (log : Log T) (st : RaftLogState T) (id : T.LogId)
      → LogInv log st
      → Purgeable log st id
      → All (Stays st id) (split_off u64_ord (next_log_index T (some id)) log)
  unfolding split_off
  All-stay log st id v p =
      let k = next_log_index T (some id) in
      All-and _ _ (keep (λ e. le u64_ord k e.0) log)
        (All-keep _ _ log
          (All-and _ _ log (All-and _ _ log v.above p.entries) (chain_keyed log v.chain)))
        (keep_holds (λ e. le u64_ord k e.0) log)

  pub purge-LogInv :
      (log : Log T) (st : RaftLogState T) (id : T.LogId)
      → LogInv log st
      → Purgeable log st id
      → LogInv (split_off u64_ord (next_log_index T (some id)) log) (purge_state st id)
  unfolding purge_state
  purge-LogInv log st id v p =
      let k = next_log_index T (some id) in
      let stay = All-stay log st id v p in
      record {
        chain = split_off-IsChain T k log v.chain;
        ends = λ l n.
            let at_last = v.ends l (last-split_off T k log l v.chain n) in
            let up = Stays-above st id l p.range (last_holds (Stays st id) _ l stay n) in
            ground (
              arith,
              lt-some T.log_id_ord l.1.log_id id,
              lt_trans T.log_id_ord l.1.log_id id l.1.log_id,
              lt_self T.log_id_ord l.1.log_id,
            );
        above =
            All-imp
              (λ e x.
                let up = Stays-above st id e p.range x in
                ground (arith, lt-some T.log_id_ord id e.1.log_id, le_u64 k e.0))
              _ stay;
        ordered = unfold purge_state in purge-IsOrdered st id v.ordered p.range p.last;
      }
