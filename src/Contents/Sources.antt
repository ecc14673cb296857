-- ===== src/Contents/Sources.antt =====
-- Where the entries that are shown come from: each from a record that appended it, which lies where
-- the log map says.
use raft_log.Prelude.{ℕ, ◌≡◌, ◌∙◌, refl, ap, none, some, All2, All2-snoc, All2-keep, ok, ltb, leb}
use raft_log.Prelude.Ord.{lt, le, u64_ord}
use raft_log.Types.{Types, next_log_index, ChunkId, Segment}
use raft_log.BTreeMap.{split_below, split_off}
use raft_log.State
use raft_log.State.{
  RaftLogState, RaftLogAction, RaftLogRecord, action, checkpoint, save_vote, append, commit,
  truncate_after, purge_upto,
}
use raft_log.StateMachine.{RaftLogStateMachine, LogData, Log, check, absorb}
use raft_log.StateMachine.Inv.Append.{append_at_end}
use raft_log.StateMachine.Keeps.{SmInv}
use raft_log.Contents.{Entries, below, effect}
use raft_log.Contents.Effects.{below_test, from_test}

module _ {T : Types} where
  below-All2 :
      (R : ℕ × LogData T → T.LogId × T.LogPayload → Type 0)
      → ((e : ℕ × LogData T) (a : T.LogId × T.LogPayload) → R e a → e.0 ≡ T.log_index a.0)
      → (k : ℕ) (log : Log T) (es : Entries T) → All2 R log es
      → All2 R (split_below u64_ord k log) (below T k es)
  unfolding split_below
  below-All2 R index k log es x =
      All2-keep R (λ e. lt u64_ord e.0 k) (λ a. ltb (T.log_index a.0) k)
        (λ e a r. ap (λ i. lt u64_ord i k) (index e a r) ∙ below_test (T.log_index a.0) k) log es x

  -- What holds of the entries before a record and of the one that it appends, holds afterwards.
  pub effect-All2 :
      (R : ℕ × LogData T → T.LogId × T.LogPayload → Type 0)
      → ((e : ℕ × LogData T) (a : T.LogId × T.LogPayload) → R e a → e.0 ≡ T.log_index a.0)
      → (sm : RaftLogStateMachine T) (rec : RaftLogRecord T) (es : Entries T) (chunk : ChunkId)
        (segment : Segment)
      → SmInv sm
      → check sm rec ≡ ok tt
      → ((id : T.LogId) (p : T.LogPayload)
          → rec ≡ action (append id p)
          → R
              (T.log_index id, record { log_id = id; chunk_id = chunk; record_segment = segment })
              (id, p))
      → All2 R sm.log es
      → All2 R (absorb sm rec chunk segment).log (effect T rec es)
  unfolding check State.check effect absorb split_below split_off
  effect-All2 R index sm (action (append id p)) es chunk segment v h new x =
      let d : LogData T = record { log_id = id; chunk_id = chunk; record_segment = segment } in
      rw (append_at_end sm.log sm.log_state id d v.log refl h).0
        (All2-snoc R sm.log es (T.log_index id, d) (id, p) x (new id p refl))
  effect-All2 R index sm (action (truncate_after none)) es chunk segment v h new x =
      below-All2 R index (next_log_index T none) sm.log es x
  effect-All2 R index sm (action (truncate_after (some upto))) es chunk segment v h new x =
      below-All2 R index (next_log_index T (some upto)) sm.log es x
  effect-All2 R index sm (action (purge_upto id)) es chunk segment v h new x =
      let k = next_log_index T (some id) in
      All2-keep R (λ e. le u64_ord k e.0) (λ a. leb k (T.log_index a.0))
        (λ e a r. ap (λ i. le u64_ord k i) (index e a r) ∙ from_test k (T.log_index a.0)) sm.log es
        x
  effect-All2 R index sm (action (save_vote vote)) es chunk segment v h new x = x
  effect-All2 R index sm (action (commit id)) es chunk segment v h new x = x
  effect-All2 R index sm (checkpoint state) es chunk segment v h new x = x
