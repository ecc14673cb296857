-- ===== src/StateMachine/Checkpoint.antt =====
-- A checkpoint that `check_checkpoint` accepts describes the log map it is stored beside.
use raft_log.Prelude.{
  ℕ, ◌≡◌, ◌⊎◌, ◌∙◌, inl, inr, Option, none, some, true, [], ◌∷◌, All, All-imp, arith, refl, sym, ok,
  Option-cases,
}
use raft_log.Prelude.Ord.{lt, lt_trans, equal-eq, lt-some}
use raft_log.Types.{Types, ids, next_log_index}
use raft_log.BTreeMap.{first_key_value, last_key_value}
use raft_log.State.{RaftLogState}
use raft_log.StateMachine.{RaftLogStateMachine, LogData, Log, check_checkpoint}
use raft_log.StateMachine.Chain.{IsChain, chain-Before}
use raft_log.StateMachine.Inv.{AbovePurged, IsOrdered, LogInv, last_none}

module _ {T : Types} where
  -- What an accepted checkpoint says of the first and the last entry of the map.
  pub record Describes (state : RaftLogState T) (first last : LogData T) : Type 0 where
    pub starts : T.log_index first.log_id ≡ next_log_index T state.purged
    pub above : lt (ids T) state.purged (some first.log_id) ≡ true
    pub ends : state.last ≡ some last.log_id

  pub check_checkpoint-some :
      (sm : RaftLogStateMachine T) (state : RaftLogState T) (f l : ℕ × LogData T)
      → first_key_value sm.log ≡ some f
      → last_key_value sm.log ≡ some l
      → check_checkpoint sm state ≡ ok tt
      → Describes state f.1 l.1
  unfolding check_checkpoint
  check_checkpoint-some sm state f l hf hl h = record {
    starts = ground arith;
    above = ground arith;
    ends = sym (equal-eq (ids T) (some l.1.log_id) state.last (ground arith));
  }

  first_none : (log : Log T) → first_key_value log ≡ none → log ≡ []
  unfolding first_key_value
  first_none [] h = refl
  first_none (e ∷ m) h = absurd (ground arith)

  chain-AbovePurged :
      (e : ℕ × LogData T) (m : Log T) (purged : Option T.LogId)
      → IsChain T (e ∷ m)
      → T.log_index e.1.log_id ≡ next_log_index T purged
      → lt (ids T) purged (some e.1.log_id) ≡ true
      → All (AbovePurged purged) (e ∷ m)
  chain-AbovePurged e m purged c starts above = (
    (above, omega arith),
    All-imp
        (λ f b. (
          lt_trans (ids T) purged (some e.1.log_id) (some f.1.log_id) above
              (lt-some T.log_id_ord e.1.log_id f.1.log_id ∙ b.1),
          omega arith,
        ))
        m (chain-Before T e m c.1 c.2),
  )

  described-LogInv :
      (log : Log T) (st state : RaftLogState T)
      → LogInv log st
      → IsOrdered state
      → ((f l : ℕ × LogData T)
          → first_key_value log ≡ some f
          → last_key_value log ≡ some l
          → Describes state f.1 l.1)
      → LogInv log state
  unfolding first_key_value last_key_value
  described-LogInv [] st state v o d = record {
    chain = tt;
    ends = λ l n. absurd (ground arith);
    above = tt;
    ordered = o;
  }
  described-LogInv (e ∷ m) st state v o d = elim (Option-cases (last_key_value (e ∷ m))) [
    | inl n ↦ absurd (ground (arith, last_none (e ∷ m) n))
    | inr (l, n) ↦ record {
      chain = v.chain;
      ends = λ l' n'. (d e l' refl n').ends;
      above = chain-AbovePurged e m state.purged v.chain (d e l refl n).starts (d e l refl n).above;
      ordered = o;
    }
  ]

  -- If the log map and the state satisfy the invariant of the log, then they do so with a
  -- checkpoint's state in place of the old one, if `check_checkpoint` accepts it and its own
  -- boundaries are in order.
  pub check_checkpoint-LogInv :
      (sm : RaftLogStateMachine T) (state : RaftLogState T)
      → LogInv sm.log sm.log_state
      → IsOrdered state
      → check_checkpoint sm state ≡ ok tt
      → LogInv sm.log state
  check_checkpoint-LogInv sm state v o h =
      described-LogInv sm.log sm.log_state state v o
        (λ f l hf hl. check_checkpoint-some sm state f l hf hl h)

  -- Once the map holds an entry, an accepted checkpoint has the last entry that the state has.
  pub check_checkpoint-last :
      (sm : RaftLogStateMachine T) (state : RaftLogState T)
      → LogInv sm.log sm.log_state
      → check_checkpoint sm state ≡ ok tt
      → (sm.log ≡ []) ⊎ (state.last ≡ sm.log_state.last)
  check_checkpoint-last sm state v h = elim (Option-cases (last_key_value sm.log)) [
    | inl n ↦ inl (last_none sm.log n)
    | inr (l, n) ↦ elim (Option-cases (first_key_value sm.log)) [
      | inl n' ↦ inl (first_none sm.log n')
      | inr (f, n') ↦ inr ((check_checkpoint-some sm state f l n' n h).ends ∙ sym (v.ends l n))
    ]
  ]
