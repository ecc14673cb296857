-- ===== src/StateMachine/Inv.antt =====
-- What holds of the log map and the state between two records.
pub mod Append
pub mod Truncate
pub mod Purge
use raft_log.Prelude.{
  ℕ, ◌+◌, ◌≤◌, ◌≡◌, none, some, true, [], ◌∷◌, All, arith, Option, ok, refl, ap, sym, subst, inl,
  inr, All-imp, ◌∙◌, Option-cases, Bool-cases, ◌==◌,
}
use mathlib.Core.Option.{some-injective}
use raft_log.Prelude.Ord.{lt, le, le-some, u64_ord}
use raft_log.Types.{Types, ids, next_log_index, InRange}
use raft_log.BTreeMap
use raft_log.BTreeMap.{last_key_value}
use raft_log.State.{RaftLogState, default_state}
use raft_log.StateMachine.{LogData, Log}
use raft_log.StateMachine.Chain.{IsChain, Upto, chain-Upto_last, get_step}

-- A boundary, if there is one, is not at the largest index.
abbrev pub BoundInRange : (T : Types) → Option T.LogId → Type 0
BoundInRange T none = Unit
BoundInRange T (some id) = InRange T id

pub next-in_range :
    (T : Types) (id : T.LogId) → InRange T id → next_log_index T (some id) ≡ T.log_index id + 1
unfolding next_log_index
next-in_range T id h = omega arith

pub next-none : (T : Types) → next_log_index T none ≡ 0
unfolding next_log_index
next-none T = refl

module _ {T : Types} where
  -- An entry lies above the purge point, by log id and by index.
  abbrev pub AbovePurged : Option T.LogId → ℕ × LogData T → Type 0
  AbovePurged purged e =
      (lt (ids T) purged (some e.1.log_id) ≡ true) × (next_log_index T purged ≤ e.0)

  -- The boundaries of a state are in order: purged and committed are at or before last.
  pub record IsOrdered (st : RaftLogState T) : Type 0 where
    pub purged_le : le (ids T) st.purged st.last ≡ true
    pub purged_index : next_log_index T st.purged ≤ next_log_index T st.last
    pub committed_le : le (ids T) st.committed st.last ≡ true
    pub purged_range : BoundInRange T st.purged
    pub last_range : BoundInRange T st.last

  -- The map is a chain above the purge point that ends with the last entry.
  pub record LogInv (log : Log T) (st : RaftLogState T) : Type 0 where
    pub chain : IsChain T log
    pub ends : (l : ℕ × LogData T) → last_key_value log ≡ some l → st.last ≡ some l.1.log_id
    pub above : All (AbovePurged st.purged) log
    pub ordered : IsOrdered st

  pub last_none : (log : Log T) → last_key_value log ≡ none → log ≡ []
  unfolding last_key_value
  last_none [] h = refl
  last_none (e ∷ []) h = absurd (ground arith)
  last_none (e ∷ f ∷ m) h = absurd (ground (arith, last_none (f ∷ m) h))

  -- Every key is the index of its entry's log id.
  pub chain_keyed : (log : Log T) → IsChain T log → All (λ e. e.0 ≡ T.log_index e.1.log_id) log
  chain_keyed [] c = tt
  chain_keyed (e ∷ m) c = (c.0, chain_keyed m c.2)

  pub last_holds :
      (P : ℕ × LogData T → Type 0) (log : Log T) (l : ℕ × LogData T)
      → All P log
      → last_key_value log ≡ some l
      → P l
  unfolding last_key_value
  last_holds P [] l a h = absurd (ground arith)
  last_holds P (e ∷ []) l a h = subst P (some-injective e l h) a.0
  last_holds P (e ∷ f ∷ m) l a h = last_holds P (f ∷ m) l a.1 h

  pub get_holds :
      (P : ℕ × LogData T → Type 0) (i : ℕ) (log : Log T) (d : LogData T)
      → All P log
      → BTreeMap.get u64_ord i log ≡ some d
      → P (i, d)
  get_holds P i [] d a h = absurd (unfold BTreeMap.get in cc h)
  get_holds P i (e ∷ m) d a h = elim (Bool-cases (e.0 == i)) [
    | inl t ↦
        let same : (e.0 ≡ i) × (e.1 ≡ d) = ground (arith, get_step T i e m) in
        subst {A = ℕ × LogData T} P (λ j. (same.0 j, same.1 j)) a.0
    | inr f ↦ get_holds P i m d a.1 (ground (arith, get_step T i e m))
  ]

  -- The invariant of the log says nothing of the vote and the user data, and of the committed entry
  -- only that it is not past the last.
  pub restate :
      (log : Log T) (st st' : RaftLogState T)
      → LogInv log st
      → st'.last ≡ st.last
      → st'.purged ≡ st.purged
      → le (ids T) st'.committed st.last ≡ true
      → LogInv log st'
  restate log st st' v same_last same_purged committed = record {
    chain = v.chain;
    ends = λ l n. same_last ∙ v.ends l n;
    above = subst (λ p. All (AbovePurged p) log) (sym same_purged) v.above;
    ordered = record {
      purged_le = rw (same_last, same_purged) v.ordered.purged_le;
      purged_index = rw (same_last, same_purged) v.ordered.purged_index;
      committed_le = rw same_last committed;
      purged_range = rw same_purged v.ordered.purged_range;
      last_range = rw same_last v.ordered.last_range;
    };
  }

  -- No entry of the map is past the last one of the state.
  pub entries_upto_last :
      (log : Log T) (st : RaftLogState T)
      → LogInv log st
      → All (λ e. le (ids T) (some e.1.log_id) st.last ≡ true) log
  entries_upto_last log st v = elim (Option-cases (last_key_value log)) [
    | inl n ↦ rw (last_none log n) tt
    | inr (l, n) ↦ rw (v.ends l n) (
        All-imp (λ e u. le-some T.log_id_ord e.1.log_id l.1.log_id ∙ u.1) log
          (chain-Upto_last T log l v.chain n))
  ]
