-- ===== src/State.antt =====
-- src/raft_log/state_machine/raft_log_state.rs and src/raft_log/raft_log_action.rs: the state that
-- the WAL records build, the records, and the checks that a record must pass.
pub mod Order
pub mod Checks
use Prim.Native.Nat.{Ordering}
use raft_log.Prelude.{
  Option, none, some, Bool, true, false, Outcome, ok, err, panic, Method, ◌==◌, if◌then◌else◌,
}
use raft_log.Prelude.Ord.{lt, le}
use raft_log.Types.{Types, ids, next_log_index}
use raft_log.Errors.{
  RaftLogStateError, vote_reversal, log_id_reversal, log_id_non_consecutive, commit_beyond_last,
  truncate_committed,
}

pub record RaftLogState (T : Types) : Type 0 where
  pub vote : Option T.Vote
  pub last : Option T.LogId
  pub committed : Option T.LogId
  pub purged : Option T.LogId
  pub user_data : Option T.UserData

-- `enum RaftLogAction`.
pub data RaftLogAction (T : Types) : Type 0 where
  save_vote : T.Vote → RaftLogAction T
  append : T.LogId → T.LogPayload → RaftLogAction T
  commit : T.LogId → RaftLogAction T
  truncate_after : Option T.LogId → RaftLogAction T
  purge_upto : T.LogId → RaftLogAction T

-- `RaftLogRecord<T>`, an action or a checkpoint.
pub data RaftLogRecord (T : Types) : Type 0 where
  action : RaftLogAction T → RaftLogRecord T
  checkpoint : RaftLogState T → RaftLogRecord T

-- `Some(a) >= b` of a partial order: a vote that cannot be compared is not above.
unfoldable pub vote_at_least : (T : Types) → T.Vote → Option T.Vote → Bool
vote_at_least T a none = true
vote_at_least T a (some b) = elim (T.vote_partial_cmp a b) [
  | none ↦ false
  | some c ↦ elim c [ Ordering.lt ↦ false | Ordering.eq ↦ true | Ordering.gt ↦ true ]
]

abbrev pub Checked : Types → Type 0
Checked T = Outcome (RaftLogStateError T) (Unit {0})

module _ {T : Types} where
  unfoldable pub default_state : RaftLogState T
  default_state = record {
    vote = none;
    last = none;
    committed = none;
    purged = none;
    user_data = none;
  }

  -- `.clone().unwrap()` panics at `None`.
  abbrev pub unwrap : {A : Type 0} → Option A → (A → RaftLogStateError T) → Checked T
  unwrap none f = panic
  unwrap (some a) f = err (f a)

  unfoldable pub check_vote : RaftLogState T → T.Vote → Checked T
  unfolding vote_at_least
  check_vote s vote =
      if vote_at_least T vote s.vote
      then ok tt
      else unwrap s.vote (λ current. vote_reversal (record { current = current; attempted = vote }))

  unfoldable pub check_append : RaftLogState T → T.LogId → Checked T
  check_append s log_id =
      if le (ids T) (some log_id) s.last
      then unwrap s.last (λ current.
        log_id_reversal (record { current = current; attempted = log_id; when = "append" }))
      else elim s.last [
        | none ↦ ok tt
        | some _ ↦
            if next_log_index T s.last == T.log_index log_id
            then ok tt
            else err (log_id_non_consecutive (record { last = s.last; attempted = log_id }))
      ]

  unfoldable pub check_commit : RaftLogState T → T.LogId → Checked T
  check_commit s log_id =
      if lt (ids T) (some log_id) s.committed
      then unwrap s.committed (λ current.
        log_id_reversal (record { current = current; attempted = log_id; when = "commit" }))
      else if lt (ids T) s.last (some log_id)
      then err (commit_beyond_last (record { last = s.last; attempted = log_id }))
      else ok tt

  unfoldable pub check_truncate : RaftLogState T → Option T.LogId → Checked T
  check_truncate s keep_upto =
      if le (ids T) s.committed keep_upto
      then ok tt
      else unwrap s.committed (λ committed.
        truncate_committed (record { committed = committed; keep_upto = keep_upto }))

  unfoldable pub check : RaftLogState T → RaftLogRecord T → Checked T
  check s (action (save_vote vote)) = check_vote s vote
  check s (action (append log_id _)) = check_append s log_id
  check s (action (commit log_id)) = check_commit s log_id
  check s (action (truncate_after log_id)) = check_truncate s log_id
  check s (action (purge_upto _)) = ok tt
  check s (checkpoint _) = ok tt

  unfoldable pub truncate_state : RaftLogState T → Option T.LogId → RaftLogState T
  truncate_state s log_id = if lt (ids T) log_id s.last then record s { last = log_id } else s

  -- The two tests of `purge`, one after the other.
  unfoldable pub purge_state : RaftLogState T → T.LogId → RaftLogState T
  purge_state s log_id =
      let purged = if lt (ids T) s.purged (some log_id) then some log_id else s.purged in
      let last = if lt (ids T) s.last (some log_id) then some log_id else s.last in
      record s { purged = purged; last = last }

  -- What `apply` writes once the check has passed.
  unfoldable pub advance : RaftLogState T → RaftLogRecord T → RaftLogState T
  unfolding truncate_state purge_state
  advance s (action (save_vote vote)) = record s { vote = some vote }
  advance s (action (append log_id _)) = record s { last = some log_id }
  advance s (action (commit log_id)) = record s { committed = some log_id }
  advance s (action (truncate_after log_id)) = truncate_state s log_id
  advance s (action (purge_upto log_id)) = purge_state s log_id
  advance s (checkpoint state) = state

  unfoldable pub apply : RaftLogRecord T → Method (RaftLogStateError T) (RaftLogState T) (Unit {0})
  apply rec s = elim (check s rec) [
    | ok _ ↦ (advance s rec, ok tt)
    | err e ↦ (s, err e)
    | panic ↦ (s, panic)
  ]
