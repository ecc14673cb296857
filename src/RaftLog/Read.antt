-- ===== src/RaftLog/Read.antt =====
-- What `read` gives back, and what it counts.
use raft_log.Prelude.{
  Bool-cases, Outcome-cases, inl, inr, panic, ◌++◌, ℕ, ◌+◌, ◌%◌, ◌≤◌, ◌≡◌, ◌⊎◌, ◌∙◌, refl, ap, none,
  some, Bool, ◌&&◌, List, [], ◌∷◌, length, map, keep, All, All-keep, ok, Outcome, arith, ltb, leb,
}
use raft_log.Prelude.Ord.{lt, le, u64_ord, lt_u64}
use raft_log.Types.{Types, u64_mod}
use raft_log.Errors.{IoError}
use raft_log.BTreeMap
use raft_log.BTreeMap.{BTreeMap, values}
use raft_log.State.{RaftLogAction, action}
use raft_log.Cache
use raft_log.StateMachine.{RaftLogStateMachine, LogData, Log}
use raft_log.Wal.{Wal}
use raft_log.RaftLog.{RaftLog, read, read_entry, read_entries, is_panic, appended_payload}
use raft_log.RaftLog.Safe.{state_machine-read_entry}

module _ {T : Types} where
  -- The payload of an entry can be had: from the cache, or else from the record in its chunk.
  abbrev pub IsReadable :
      (W : Wal T) → (T.LogId → T.LogPayload) → RaftLogStateMachine T → W.Store → LogData T → Type 0
  IsReadable W content sm wal e =
      (Cache.get sm.payload_cache e.log_id ≡ some (content e.log_id))
      ⊎ ((Cache.get sm.payload_cache e.log_id ≡ none)
          × (W.load_record wal e.chunk_id e.record_segment
              ≡ ok (action (RaftLogAction.append e.log_id (content e.log_id)))))

  -- The pair that `read` gives for an entry.
  abbrev pub item :
      (T.LogId → T.LogPayload) → LogData T → Outcome (IoError T) (T.LogId × T.LogPayload)
  item content e = ok (e.log_id, content e.log_id)

pub in_range : (from to i : ℕ) → (le u64_ord from i && lt u64_ord i to) ≡ (leb from i && ltb i to)
unfolding lt le u64_ord
in_range from to i = ground arith

abbrev pub in_bounds : {A : Type 0} → ℕ → ℕ → ℕ × A → Bool
in_bounds from to e = le u64_ord from e.0 && lt u64_ord e.0 to

map-values : {K A B : Type 0} (f : A → B) (m : BTreeMap K A) → map f (values m) ≡ map (λ e. f e.1) m
map-values f [] = refl
map-values f (e ∷ m) = ap (◌∷◌ (f e.1)) (map-values f m)

All-values :
    {K A : Type 0} (P : A → Type 0) (m : BTreeMap K A) → All (λ e. P e.1) m → All P (values m)
All-values P [] h = tt
All-values P (e ∷ m) h = (h.0, All-values P m h.1)

-- The last of the items is the panic that ended the loop.
pub record Unwound {E A : Type 0} (items : List (Outcome E A)) : Type 0 where
  pub front : List (Outcome E A)
  pub split : items ≡ front ++ panic ∷ []

pub Unwound-more :
    {E A : Type 0} (x : Outcome E A) (items : List (Outcome E A))
    → Unwound items
    → Unwound (x ∷ items)
Unwound-more x items u = record { front = x ∷ u.front; split = ap (λ l. x ∷ l) u.split }

module _ {T : Types} {W : Wal T} where
  pub wal-read_entry : (e : LogData T) (rl : RaftLog T W) → (read_entry e rl).0.wal ≡ rl.wal
  unfolding read_entry
  wal-read_entry e rl = ground arith

  read_entry-item :
      (content : T.LogId → T.LogPayload) (e : LogData T) (rl : RaftLog T W)
      → IsReadable W content rl.state_machine rl.wal e
      → (read_entry e rl).1 ≡ item content e
  unfolding read_entry appended_payload
  read_entry-item content e rl h = ground arith

  read_entries_items :
      (content : T.LogId → T.LogPayload) (es : List (LogData T)) (rl : RaftLog T W)
      → All (IsReadable W content rl.state_machine rl.wal) es
      → (read_entries es rl).1 ≡ map (item content) es
  unfolding read_entries
  read_entries_items content [] rl h = refl
  read_entries_items content (e ∷ es) rl h = ground (
    arith,
    read_entry-item content e rl h.0,
    read_entries_items content es (read_entry e rl).0
        (rw (state_machine-read_entry e rl, wal-read_entry e rl) h.1),
  )

  pub read_ordered :
      (from to : ℕ) (rl : RaftLog T W)
      → from ≤ to
      → read from to rl ≡ (
        (read_entries (values (keep (in_bounds from to) rl.state_machine.log)) rl).0,
        ok (read_entries (values (keep (in_bounds from to) rl.state_machine.log)) rl).1,
      )
  unfolding read BTreeMap.range
  read_ordered from to rl h = ground (arith, lt_u64 to from)

  -- If `from` is at most `to` and the payload of each entry of the log map is in the cache or else
  -- in the record that the WAL loads for it, `read` gives exactly the entries of the map with an
  -- index in `from..to`, in order, each with its payload.
  pub read_items :
      (content : T.LogId → T.LogPayload) (from to : ℕ) (rl : RaftLog T W)
      → from ≤ to
      → All (λ e. IsReadable W content rl.state_machine rl.wal e.1) rl.state_machine.log
      → (read from to rl).1
        ≡ ok (
            map
              (λ e. item content e.1)
              (keep (λ e. leb from e.0 && ltb e.0 to) rl.state_machine.log))
  read_items content from to rl h a =
      let p : ℕ × LogData T → Bool = in_bounds from to in
      let es : Log T = keep p rl.state_machine.log in
      let items =
        read_entries_items content (values es) rl
          (All-values (IsReadable W content rl.state_machine rl.wal) es (All-keep _ p _ a)) in
      let tests : p ≡ (λ e. leb from e.0 && ltb e.0 to) = λ i e. in_range from to e.0 i in
      ap (λ r. r.1) (read_ordered from to rl h)
      ∙ ap ok (items ∙ map-values (item content) es)
      ∙ ap (λ q. ok (map (λ e. item content e.1) (keep q rl.state_machine.log))) tests

  -- Each item that is read adds one to the sum of the two cache counters, modulo 2^64, be it a hit, a
  -- miss, a failed load or the panic that ends the loop.
  pub read_entries_counted :
      (es : List (LogData T)) (rl : RaftLog T W)
      → ((read_entries es rl).0.cache_hit + (read_entries es rl).0.cache_miss) % u64_mod
        ≡ (rl.cache_hit + rl.cache_miss + length (read_entries es rl).1) % u64_mod
  unfolding read_entries read_entry
  read_entries_counted [] rl = omega arith
  read_entries_counted (e ∷ es) rl =
      let rest = read_entries_counted es (read_entry e rl).0 in
      elim (Bool-cases (is_panic (read_entry e rl).1)) [
        | inl p ↦ ground (arith, p)
        | inr p ↦ ground (arith, p, rest)
      ]

  -- One item for each entry, unless a panic is the last.
  pub read_entries_ended :
      (es : List (LogData T)) (rl : RaftLog T W)
      → (length (read_entries es rl).1 ≡ length es) ⊎ Unwound (read_entries es rl).1
  unfolding read_entries
  read_entries_ended [] rl = inl refl
  read_entries_ended (e ∷ es) rl = elim (Outcome-cases (read_entry e rl).1) [
    | inl (a, n) ↦ elim (read_entries_ended es (read_entry e rl).0) [
      | inl h ↦ inl (ground (arith, n, h))
      | inr u ↦ inr (ground (arith, n, Unwound-more (read_entry e rl).1 _ u))
    ]
    | inr (inl (x, n)) ↦ elim (read_entries_ended es (read_entry e rl).0) [
      | inl h ↦ inl (ground (arith, n, h))
      | inr u ↦ inr (ground (arith, n, Unwound-more (read_entry e rl).1 _ u))
    ]
    | inr (inr n) ↦ inr (rw n (record { front = []; split = refl }))
  ]
