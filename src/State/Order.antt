-- ===== src/State/Order.antt =====
-- The order of the boundaries: what every accepted record keeps, and what never goes back.
use raft_log.Prelude.{◌≡◌, refl, ◌⊎◌, inl, inr, some, true, List, [], ◌∷◌, ok, arith, Outcome-cases}
use raft_log.Prelude.Ord.{le, le_self, le_trans, le_of_lt, lt-not-le, le-not-lt}
use raft_log.Types.{Types, ids}
use raft_log.State.{
  RaftLogState, RaftLogAction, RaftLogRecord, save_vote, append, commit, truncate_after, purge_upto,
  action, checkpoint, vote_at_least, check_vote, check_append, check_commit, check_truncate, check,
  advance, apply,
}

module _ {T : Types} where
  -- To prove something of the state after `apply`: of the old state, and of the written one if the
  -- record passes its check.
  pub apply_cases :
      (P : RaftLogState T → Type 0) (rec : RaftLogRecord T) (s : RaftLogState T)
      → P s
      → (check s rec ≡ ok tt → P (advance s rec))
      → P (apply rec s).0
  unfolding apply
  apply_cases P rec s kept written = elim (Outcome-cases (check s rec)) [
    | inl (_, e) ↦ ground (arith, written)
    | inr (inl (_, e)) ↦ ground arith
    | inr (inr e) ↦ ground arith
  ]

  -- `apply` reports exactly what the check reports.
  pub apply-outcome : (rec : RaftLogRecord T) (s : RaftLogState T) → (apply rec s).1 ≡ check s rec
  unfolding apply
  apply-outcome rec s = elim (Outcome-cases (check s rec)) [
    | inl (_, e) ↦ ground arith
    | inr (inl (_, e)) ↦ ground arith
    | inr (inr e) ↦ ground arith
  ]

  -- The committed entry is not past the last one.
  abbrev pub CommittedWithin : RaftLogState T → Type 0
  CommittedWithin s = le (ids T) s.committed s.last ≡ true

  -- What a checkpoint record must itself bring; the actions bring nothing.
  abbrev pub Brings : (RaftLogState T → Type 0) → RaftLogRecord T → Type 0
  Brings P (checkpoint state) = P state
  Brings P (action _) = Unit

  advance-CommittedWithin :
      (s : RaftLogState T) (rec : RaftLogRecord T)
      → CommittedWithin s
      → Brings CommittedWithin rec
      → check s rec ≡ ok tt
      → CommittedWithin (advance s rec)
  unfolding advance check check_append check_commit check_truncate
  advance-CommittedWithin s (action (save_vote v)) w b h = w
  advance-CommittedWithin s (action (append id p)) w b h = ground (
    arith,
    lt-not-le (ids T) s.last (some id),
    le_of_lt (ids T) s.last (some id),
    le_trans (ids T) s.committed s.last (some id),
  )
  advance-CommittedWithin s (action (commit id)) w b h =
      ground (arith, le-not-lt (ids T) (some id) s.last)
  advance-CommittedWithin s (action (truncate_after upto)) w b h = ground arith
  advance-CommittedWithin s (action (purge_upto id)) w b h =
      ground
        (arith, le_of_lt (ids T) s.last (some id), le_trans (ids T) s.committed s.last (some id))
  advance-CommittedWithin s (checkpoint state) w b h = b

  -- Applying a record, accepted or refused, keeps the committed entry at or before the last one, if
  -- it was so before and is so in the state that a checkpoint record carries.
  pub apply-CommittedWithin :
      (rec : RaftLogRecord T) (s : RaftLogState T)
      → CommittedWithin s
      → Brings CommittedWithin rec
      → CommittedWithin (apply rec s).0
  apply-CommittedWithin rec s w b =
      apply_cases CommittedWithin rec s w (advance-CommittedWithin s rec w b)

  -- `t` is `s` or later: the committed and the purged entry have not gone back.
  pub record Later (s t : RaftLogState T) : Type 0 where
    pub committed : le (ids T) s.committed t.committed ≡ true
    pub purged : le (ids T) s.purged t.purged ≡ true

  pub Later-refl : (s : RaftLogState T) → Later s s
  Later-refl s = record {
    committed = le_self (ids T) s.committed;
    purged = le_self (ids T) s.purged;
  }

  pub Later-trans : {s t u : RaftLogState T} → Later s t → Later t u → Later s u
  Later-trans {s} {t} {u} h k = record {
    committed = le_trans (ids T) s.committed t.committed u.committed h.committed k.committed;
    purged = le_trans (ids T) s.purged t.purged u.purged h.purged k.purged;
  }

  advance-Later :
      (s : RaftLogState T) (a : RaftLogAction T)
      → check s (action a) ≡ ok tt
      → Later s (advance s (action a))
  unfolding advance check check_commit
  advance-Later s (commit id) h = record {
    committed = ground (arith, le-not-lt (ids T) s.committed (some id));
    purged = le_self (ids T) s.purged;
  }
  advance-Later s (truncate_after upto) h =
      ground (arith, le_self (ids T) s.committed, le_self (ids T) s.purged)
  advance-Later s (purge_upto id) h = ground (
    arith,
    le_self (ids T) s.committed,
    le_self (ids T) s.purged,
    le_of_lt (ids T) s.purged (some id),
  )
  advance-Later s _ h = record {
    committed = le_self (ids T) s.committed;
    purged = le_self (ids T) s.purged;
  }

  -- The states that applying a list of actions goes through, refusals included.
  pub apply_all : List (RaftLogAction T) → RaftLogState T → RaftLogState T
  apply_all [] s = s
  apply_all (a ∷ acts) s = apply_all acts (apply (action a) s).0

  -- No sequence of actions, refused ones among them, moves the committed or the purged entry back.
  pub apply_all-Later :
      (acts : List (RaftLogAction T)) (s : RaftLogState T) → Later s (apply_all acts s)
  unfolding apply_all
  apply_all-Later [] s = Later-refl s
  apply_all-Later (a ∷ acts) s =
      Later-trans (apply_cases (Later s) (action a) s (Later-refl s) (advance-Later s a))
        (apply_all-Later acts (apply (action a) s).0)

  -- The vote of `t` is the vote of `s`, or one that compares at or above it.
  abbrev pub VoteKept : RaftLogState T → RaftLogState T → Type 0
  VoteKept s t =
      (t.vote ≡ s.vote) ⊎ ((v : T.Vote) × (t.vote ≡ some v) × (vote_at_least T v s.vote ≡ true))

  advance-VoteKept :
      (s : RaftLogState T) (a : RaftLogAction T)
      → check s (action a) ≡ ok tt
      → VoteKept s (advance s (action a))
  unfolding advance check check_vote
  advance-VoteKept s (save_vote v) h = inr (v, refl, ground arith)
  advance-VoteKept s (truncate_after upto) h = inl (ground arith)
  advance-VoteKept s _ h = inl refl

  -- Applying an action leaves the vote as it was, or replaces it by one that compares at or above
  -- it.
  pub apply-VoteKept :
      (a : RaftLogAction T) (s : RaftLogState T) → VoteKept s (apply (action a) s).0
  apply-VoteKept a s = apply_cases (VoteKept s) (action a) s (inl refl) (advance-VoteKept s a)
