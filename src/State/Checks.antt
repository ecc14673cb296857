-- ===== src/State/Checks.antt =====
-- When a check passes, stated without the code's tests, and that no check panics.
use Prim.Native.Nat.{Ordering}
use raft_log.Prelude.{
  ◌≡◌, ◌≢◌, ◌↔◌, ◌⊎◌, inl, inr, none, some, true, ok, panic, ◌+◌, ◌%◌, arith, Option-cases,
}
use raft_log.Prelude.Ord.{lt, le, le-not-lt, le-some, le-none, not-le-none, not-lt-none}
use raft_log.Types.{Types, ids, next_log_index, u64_mod}
use raft_log.State.{
  RaftLogState, RaftLogRecord, save_vote, append, commit, truncate_after, purge_upto, action,
  checkpoint, vote_at_least, check_vote, check_append, check_commit, check_truncate, check,
}

module _ {T : Types} where
  abbrev pub Accepts : RaftLogState T → RaftLogRecord T → Type 0
  Accepts s (action (save_vote vote)) =
      (s.vote ≡ none)
      ⊎ ((current : T.Vote) × (s.vote ≡ some current)
          × ((T.vote_partial_cmp vote current ≡ some Ordering.gt)
              ⊎ (T.vote_partial_cmp vote current ≡ some Ordering.eq)))
  Accepts s (action (append id _)) =
      (s.last ≡ none)
      ⊎ ((l : T.LogId) × (s.last ≡ some l)
          × (lt T.log_id_ord l id ≡ true)
          × (T.log_index id ≡ (T.log_index l + 1) % u64_mod))
  Accepts s (action (commit id)) =
      (le (ids T) s.committed (some id) ≡ true) × (le (ids T) (some id) s.last ≡ true)
  Accepts s (action (truncate_after upto)) = le (ids T) s.committed upto ≡ true
  Accepts s (action (purge_upto _)) = Unit
  Accepts s (checkpoint _) = Unit

  -- A record passes the check of the state exactly when: a vote compares at or above the current
  -- one, or there is none; an appended log id is above the last one and at the index after it
  -- modulo 2^64, or there is no last one; a committed log id is at or above the committed one and
  -- at or before the last; a truncation keeps the committed entry. A purge and a checkpoint always
  -- pass.
  pub check_iff :
      (s : RaftLogState T) (rec : RaftLogRecord T) → (check s rec ≡ ok tt) ↔ Accepts s rec
  unfolding check check_vote check_append check_commit check_truncate vote_at_least next_log_index
  check_iff s (action (save_vote vote)) = ground arith
  check_iff s (action (append id p)) = elim (Option-cases s.last) [
    | inl e ↦ ground (arith, not-le-none T.log_id_ord id)
    | inr (l, e) ↦ ground (arith, le-some T.log_id_ord id l, le-not-lt T.log_id_ord id l)
  ]
  check_iff s (action (commit id)) =
      ground (arith, le-not-lt (ids T) s.committed (some id), le-not-lt (ids T) (some id) s.last)
  check_iff s (action (truncate_after upto)) = ground arith
  check_iff s (action (purge_upto id)) = ground arith
  check_iff s (checkpoint st) = ground arith

  -- No check of a record panics, in any state: each value that an error path unwraps is there.
  pub check-ne-panic : (s : RaftLogState T) (rec : RaftLogRecord T) → check s rec ≢ panic
  unfolding check check_vote check_append check_commit check_truncate vote_at_least
  check-ne-panic s (action (save_vote vote)) = ground arith
  check-ne-panic s (action (append id p)) = ground (arith, not-le-none T.log_id_ord id)
  check-ne-panic s (action (commit id)) = ground (arith, not-lt-none T.log_id_ord (some id))
  check-ne-panic s (action (truncate_after upto)) = ground (arith, le-none T.log_id_ord upto)
  check-ne-panic s rec = ground arith
