-- ===== src/Contents/Effects.antt =====
-- A record does to the entries that are shown what it does to the log map and the cache.
use raft_log.Prelude.{
  ℕ, ◌≡◌, ◌∙◌, refl, ap, Option, none, some, true, false, [], ◌∷◌, ◌++◌, All2-imp, All2-snoc,
  All2-keep, All-trivial, ok, arith, ltb, leb,
}
use raft_log.Prelude.Ord.{
  lt, le, equal, equal-eq, equal_self, le-not-lt, lt-not-le, le-some, not-le-none, u64_ord,
}
use raft_log.Types.{Types, ids, next_log_index, ChunkId, Segment}
use raft_log.BTreeMap
use raft_log.BTreeMap.{split_below, split_off}
use raft_log.State
use raft_log.State.{
  RaftLogState, RaftLogAction, RaftLogRecord, action, checkpoint, save_vote, append, commit,
  truncate_after, purge_upto, check_append, check_truncate, advance,
}
use raft_log.Cache
use raft_log.Cache.{PayloadCache, evictable, clear}
use raft_log.Cache.Loops.{Popped, purgeable, purge_upto-Popped}
use raft_log.Cache.Truncate.{Truncated, truncate_after-Truncated}
use raft_log.Cache.Insert.{insert-Popped, insert_found}
use raft_log.StateMachine.{RaftLogStateMachine, LogData, Log, check, absorb}
use raft_log.StateMachine.Inv.{entries_upto_last}
use raft_log.StateMachine.Inv.Append.{append_at_end, check_append_facts}
use raft_log.StateMachine.Inv.Truncate.{Keepable, truncate-LogInv, truncate_last}
use raft_log.StateMachine.Keeps.{SmInv, Admissible}
use raft_log.Contents.{Entries, Load, below, from_on, effect, Shows, AllShown}

pub below_test : (i k : ℕ) → lt u64_ord i k ≡ ltb i k
unfolding lt u64_ord
below_test i k = ground arith

pub from_test : (k i : ℕ) → le u64_ord k i ≡ leb k i
unfolding le u64_ord
from_test k i = ground arith

module _ {T : Types} where
  -- An appended log id must lie above the eviction boundary.
  abbrev pub IsFresh : PayloadCache T → RaftLogRecord T → Type 0
  IsFresh c (action (append id _)) = lt (ids T) c.last_evictable (some id) ≡ true
  IsFresh c _ = Unit

  pub Popped-Shows :
      (load : Load T) (q : T.LogId → _) (c d : PayloadCache T) (e : ℕ × LogData T)
      (a : T.LogId × T.LogPayload)
      → Popped q c.cache c d
      → (q a.0 ≡ true → evictable c a.0 ≡ true)
      → Shows T load c e a
      → Shows T load d e a
  unfolding Cache.get evictable
  Popped-Shows load q c d e a p down s = record {
    index = s.index;
    same = s.same;
    found = ground (arith, p.drops a.0, p.boundary, s.found);
    stored = λ h. s.stored (ground (arith, p.boundary));
  }

  insert-Shows :
      (load : Load T) (c : PayloadCache T) (id : T.LogId) (p : T.LogPayload) (e : ℕ × LogData T)
      (a : T.LogId × T.LogPayload)
      → BTreeMap.Sorted.IsSorted T.log_id_ord c.cache
      → equal T.log_id_ord a.0 id ≡ false
      → Shows T load c e a
      → Shows T load (Cache.insert c id p) e a
  unfolding evictable
  insert-Shows load c id p e a s ne h = record {
    index = h.index;
    same = h.same;
    found = ground (arith, insert_found c id p a.0 s, (insert-Popped c id p s).boundary, h.found);
    stored = λ k. h.stored (ground (arith, (insert-Popped c id p s).boundary));
  }

  new-Shows :
      (load : Load T) (c : PayloadCache T) (id : T.LogId) (p : T.LogPayload) (d : LogData T)
      → BTreeMap.Sorted.IsSorted T.log_id_ord c.cache
      → lt (ids T) c.last_evictable (some id) ≡ true
      → d.log_id ≡ id
      → Shows T load (Cache.insert c id p) (T.log_index id, d) (id, p)
  unfolding evictable
  new-Shows load c id p d s fresh same =
      let boundary = (insert-Popped c id p s).boundary in
      let stays : evictable (Cache.insert c id p) id ≡ false =
        ground (arith, boundary, lt-not-le (ids T) c.last_evictable (some id)) in
      record {
        index = refl;
        same = same;
        found =
            ground (arith, insert_found c id p id s, equal_self T.log_id_ord id, stays, boundary);
        stored = λ k. absurd (ground (arith, stays, k));
      }

  Truncated-Shows :
      (load : Load T) (c d : PayloadCache T) (key : T.LogId) (e : ℕ × LogData T)
      (a : T.LogId × T.LogPayload)
      → Truncated key c.cache c d
      → le (ids T) (some e.1.log_id) (some key) ≡ true
      → Shows T load c e a
      → Shows T load d e a
  unfolding Cache.get evictable
  Truncated-Shows load c d key e a t upto s =
      let kept : lt T.log_id_ord key a.0 ≡ false =
        ground
          (arith, s.same, le-some T.log_id_ord a.0 key, le-not-lt T.log_id_ord a.0 key, upto) in
      record {
        index = s.index;
        same = s.same;
        found = ground (arith, t.found a.0, t.boundary, kept, s.found);
        stored = λ h. s.stored (ground (arith, t.boundary));
      }

  append-Shown :
      (load : Load T) (sm : RaftLogStateMachine T) (id : T.LogId) (p : T.LogPayload)
      (es : Entries T) (chunk : ChunkId) (segment : Segment)
      → SmInv sm
      → lt (ids T) sm.payload_cache.last_evictable (some id) ≡ true
      → check_append sm.log_state id ≡ ok tt
      → AllShown T load sm.payload_cache sm.log es
      → (let d : LogData T = record { log_id = id; chunk_id = chunk; record_segment = segment } in
          AllShown T load
            (Cache.insert sm.payload_cache id p)
            (BTreeMap.insert u64_ord (T.log_index id) d sm.log)
            (es ++ (id, p) ∷ []))
  append-Shown load sm id p es chunk segment v fresh h shown =
      let d : LogData T = record { log_id = id; chunk_id = chunk; record_segment = segment } in
      let at_end = (append_at_end sm.log sm.log_state id d v.log refl h).0 in
      let c = sm.payload_cache in
      let up = (check_append_facts sm.log_state id h).0 in
      let not_new : (e : ℕ × LogData T) (a : T.LogId × T.LogPayload)
          → le (ids T) (some e.1.log_id) sm.log_state.last ≡ true
          → Shows T load c e a
          → equal T.log_id_ord a.0 id ≡ false =
        λ e a upto s. ground (
          arith,
          s.same,
          upto,
          up,
          equal-eq T.log_id_ord a.0 id,
          le-not-lt (ids T) (some e.1.log_id) sm.log_state.last,
        ) in
      rw at_end (
        All2-snoc (Shows T load (Cache.insert c id p)) sm.log es (T.log_index id, d) (id, p)
          (All2-imp (λ e. le (ids T) (some e.1.log_id) sm.log_state.last ≡ true)
            (λ e a upto s. insert-Shows load c id p e a v.cache.sorted (not_new e a upto s) s)
            sm.log es (entries_upto_last sm.log sm.log_state v.log) shown)
          (new-Shows load c id p d v.cache.sorted fresh refl))

  keep_below-Shown :
      (load : Load T) (c : PayloadCache T) (k : ℕ) (log : Log T) (es : Entries T)
      → AllShown T load c log es
      → AllShown T load c (split_below u64_ord k log) (below T k es)
  unfolding split_below
  keep_below-Shown load c k log es shown =
      All2-keep (Shows T load c) (λ e. lt u64_ord e.0 k) (λ a. ltb (T.log_index a.0) k)
        (λ e a s. ap (λ i. lt u64_ord i k) s.index ∙ below_test (T.log_index a.0) k) log es shown

  truncate-Shown :
      (load : Load T) (sm : RaftLogStateMachine T) (upto : Option T.LogId) (es : Entries T)
      (chunk : ChunkId) (segment : Segment)
      → SmInv sm
      → Keepable sm.log sm.log_state.purged upto
      → check_truncate sm.log_state upto ≡ ok tt
      → AllShown T load sm.payload_cache sm.log es
      → AllShown T load
          (absorb sm (action (truncate_after upto)) chunk segment).payload_cache
          (absorb sm (action (truncate_after upto)) chunk segment).log
          (below T (next_log_index T upto) es)
  unfolding absorb
  truncate-Shown load sm none es chunk segment v k h shown =
      let log = truncate-LogInv sm.log sm.log_state none v.log k h in
      let ends = truncate_last sm.log sm.log_state none v.log k in
      All2-imp (λ e. le (ids T) (some e.1.log_id) none ≡ true)
        (λ e a b s. absurd (ground (arith, b, not-le-none T.log_id_ord e.1.log_id)))
        (split_below u64_ord (next_log_index T none) sm.log) _
        (rw ends at (entries_upto_last _ _ log))
        (keep_below-Shown load sm.payload_cache _ sm.log es shown)
  truncate-Shown load sm (some key) es chunk segment v k h shown =
      let log = truncate-LogInv sm.log sm.log_state (some key) v.log k h in
      let ends = truncate_last sm.log sm.log_state (some key) v.log k in
      let t = truncate_after-Truncated sm.payload_cache key v.cache.sorted in
      All2-imp (λ e. le (ids T) (some e.1.log_id) (some key) ≡ true)
        (λ e a b s. Truncated-Shows load sm.payload_cache _ key e a t b s)
        (split_below u64_ord (next_log_index T (some key)) sm.log) _
        (rw ends at (entries_upto_last _ _ log))
        (keep_below-Shown load sm.payload_cache _ sm.log es shown)

  purge-Shown :
      (load : Load T) (sm : RaftLogStateMachine T) (id : T.LogId) (es : Entries T)
      → SmInv sm
      → AllShown T load sm.payload_cache sm.log es
      → AllShown T load
          (Cache.purge_upto sm.payload_cache id)
          (split_off u64_ord (next_log_index T (some id)) sm.log)
          (from_on T (next_log_index T (some id)) es)
  unfolding split_off
  purge-Shown load sm id es v shown =
      let k = next_log_index T (some id) in
      let c = sm.payload_cache in
      let popped = purge_upto-Popped c id v.cache.sorted in
      let kept =
        All2-keep (Shows T load c) (λ e. le u64_ord k e.0) (λ a. leb k (T.log_index a.0))
          (λ e a s. ap (λ i. le u64_ord k i) s.index ∙ from_test k (T.log_index a.0)) sm.log es
          shown in
      All2-imp (λ e. Unit {0})
        (λ e a u s. Popped-Shows load (purgeable c id) c _ e a popped (λ q. ground arith) s)
        (split_off u64_ord k sm.log) _ (All-trivial _) kept

  -- An accepted record that is admissible and fresh does to the entries what `effect` says.
  pub effect-Shown :
      (load : Load T) (sm : RaftLogStateMachine T) (rec : RaftLogRecord T) (es : Entries T)
      (chunk : ChunkId) (segment : Segment)
      → SmInv sm
      → Admissible sm rec
      → IsFresh sm.payload_cache rec
      → check sm rec ≡ ok tt
      → AllShown T load sm.payload_cache sm.log es
      → AllShown T load
          (absorb sm rec chunk segment).payload_cache
          (absorb sm rec chunk segment).log
          (effect T rec es)
  unfolding check State.check effect absorb
  effect-Shown load sm (action (append id p)) es chunk segment v a f h shown =
      append-Shown load sm id p es chunk segment v f h shown
  effect-Shown load sm (action (truncate_after upto)) es chunk segment v a f h shown =
      truncate-Shown load sm upto es chunk segment v a h shown
  effect-Shown load sm (action (purge_upto id)) es chunk segment v a f h shown =
      purge-Shown load sm id es v shown
  effect-Shown load sm (action (save_vote vote)) es chunk segment v a f h shown = shown
  effect-Shown load sm (action (commit id)) es chunk segment v a f h shown = shown
  effect-Shown load sm (checkpoint state) es chunk segment v a f h shown = shown
