-- ===== src/Types.antt =====
-- src/api/types.rs and src/types.rs: the trait `Types`, by which a user names the log id, the
-- payload, the vote and the user data, and the identifiers that the WAL crate gives to chunks and
-- records.
use Prim.Native.Nat.{Ordering}
use raft_log.Prelude.{ℕ, ◌+◌, ◌%◌, ◌^◌, ◌<◌, Option, none, some}
use raft_log.Prelude.Ord.{Ord, option_ord}

-- The number of values of a `u64`, and of a `usize` on a 64-bit target.
abbrev pub u64_mod : ℕ
u64_mod = 2 ^ 64

-- `trait Types`. A log id is totally ordered, a vote only partially: `partial_cmp` may be `None`.
pub record Types : Type 1 where
  pub LogId : Type 0
  pub LogPayload : Type 0
  pub Vote : Type 0
  pub UserData : Type 0
  pub log_id_ord : Ord LogId
  pub vote_partial_cmp : Vote → Vote → Option Ordering
  pub log_index : LogId → ℕ
  pub payload_size : LogPayload → ℕ
  pub log_index_u64 : (id : LogId) → log_index id < u64_mod
  pub payload_size_u64 : (p : LogPayload) → payload_size p < u64_mod

-- The order of `Option<LogId>`, by which every boundary is compared.
abbrev pub ids : (T : Types) → Ord (Option T.LogId)
ids T = option_ord T.log_id_ord

-- The default `next_log_index`. The addition wraps, as it does in a release build.
unfoldable pub next_log_index : (T : Types) → Option T.LogId → ℕ
next_log_index T (some log_id) = (T.log_index log_id + 1) % u64_mod
next_log_index T none = 0

-- A log id that is not at the largest index.
abbrev pub InRange : (T : Types) → T.LogId → Type 0
InRange T id = T.log_index id + 1 < u64_mod

-- `ChunkId(u64)`: the offset at which a chunk starts.
pub record ChunkId : Type 0 where
  pub offset : ℕ

-- `Segment`: where a record's bytes lie.
pub record Segment : Type 0 where
  pub offset : ℕ
  pub size : ℕ
