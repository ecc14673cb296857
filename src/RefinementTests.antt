-- ===== src/RefinementTests.antt =====
-- The refinement theorems at work on a store whose first chunk is closed and evicted.
use raft_log.Prelude.{
  ◌≡◌, refl, none, some, true, ◌&&◌, List, [], ◌∷◌, map, keep, ok, arith, ltb, leb, Bool,
  Bool-cases, inl, inr,
}
use raft_log.Prelude.Ord.{le, lt, option_ord, u64_ord}
use raft_log.Types.{next_log_index, ChunkId}
use raft_log.BTreeMap
use raft_log.State.{RaftLogRecord, purge_state}
use raft_log.Cache
use raft_log.Cache.{evictable}
use raft_log.StateMachine.Inv.Purge.{Purgeable}
use raft_log.Contents.{Entries, from_on, below}
use raft_log.RaftLog.{
  append_and_apply, read_entries, read_entry, appended_payload, append, truncate, purge, read,
  flush, remove_after_sync, after_close, buffer_removable_chunks,
}
use raft_log.RaftLog.Run.{
  Request, serve, written, appended, truncated, committed, flushed, range_read, cache_drained,
}
use raft_log.RaftLog.Refines.{Ends}
use raft_log.RaftLog.Cleared.{Halts, Thorough, Cleared, purge-flush}
use raft_log.StateMachine
use raft_log.State
use raft_log.ChunkSamples.{State, drop_while, InChunks, chunk_laws}
use raft_log.RaftLog.Serves.{Holds, Appended, append-Appended, truncate-Ends, purge-Ends}
use raft_log.RaftLog.History.{AllAllowed, AllSafe, serve_all, serve_all-Allowed, read-shown}
use raft_log.Samples.{Numbers, log_id, record_of}
use raft_log.FourEntries.{state_upto, four_entries, four_log, four, four-Holds}

-- A history of requests from that store on.
abbrev two_more : Entries Numbers
two_more = (log_id 1 4, 50) ∷ (log_id 1 5, 60) ∷ []

abbrev history : List (Request Numbers InChunks)
history =
    range_read 0 9
    ∷ written (appended two_more)
    ∷ written (truncated 5)
    ∷ written (committed (log_id 1 3))
    ∷ cache_drained
    ∷ written (flushed true none)
    ∷ []

four_safe : AllSafe history four
unfolding read read_entries read_entry appended_payload BTreeMap.range serve lt le option_ord
    u64_ord Cache.get BTreeMap.get
four_safe = (
  tt,
  tt,
  (
    (omega arith, (omega arith, tt)),
    (refl, (refl, tt)),
    (tt, tt, (tt, tt, (tt, tt, (tt, tt, tt)))),
  ),
)

serve_all-Allowed_example :
    (end : Entries Numbers) × AllAllowed history four_entries end
    × Holds chunk_laws (serve_all history four) end
serve_all-Allowed_example =
    serve_all-Allowed chunk_laws history four four_entries four-Holds four_safe

read-shown_example :
    (read 1 4 four).1
    ≡ ok (
        map
          (λ a. ok a)
          (keep (λ a. leb 1 (Numbers.log_index a.0) && ltb (Numbers.log_index a.0) 4) four_entries))
read-shown_example = read-shown chunk_laws 1 4 four four_entries (omega arith) four-Holds

append-Appended_example :
    Appended chunk_laws two_more four_entries (append two_more four).0 (append two_more four).1
unfolding lt option_ord u64_ord
append-Appended_example =
    append-Appended chunk_laws two_more four four_entries (omega arith, (omega arith, tt))
      (refl, (refl, tt)) four-Holds

truncate-Ends_example :
    Ends {W = InChunks} chunk_laws four_entries (below Numbers 3 four_entries) (truncate 3 four)
truncate-Ends_example = truncate-Ends chunk_laws 3 four four_entries four-Holds

four-Purgeable : Purgeable {T = Numbers} four_log (state_upto 3) (log_id 1 2)
unfolding le u64_ord
four-Purgeable = record {
  range = omega arith;
  entries = (ground arith, (ground arith, (ground arith, (ground arith, tt))));
  last = ground arith;
}

purge-Ends_example :
    Ends {W = InChunks} chunk_laws four_entries
      (from_on Numbers (next_log_index Numbers (some (log_id 1 2))) four_entries)
      (purge (log_id 1 2) four)
purge-Ends_example = purge-Ends chunk_laws (log_id 1 2) four four_entries four-Purgeable four-Holds

abbrev entry_4 : RaftLogRecord Numbers
entry_4 = record_of 4 50

Halts-while : (p : State → Bool) (xs : List (ChunkId × State)) → Halts p (drop_while p xs)
Halts-while p [] = tt
Halts-while p (x ∷ xs) = elim (Bool-cases (p x.1)) [
  | inl h ↦ rw h (Halts-while p xs)
  | inr h ↦ rw h h
]

chunks-Thorough : Thorough chunk_laws
chunks-Thorough = record { drain_halts = λ p w. Halts-while p w.chunks }

purge_returned :
    (purge {T = Numbers} {W = InChunks} (log_id 1 2) four).1 ≡ ok (record { offset = 4; size = 1 })
unfolding purge append_and_apply after_close buffer_removable_chunks StateMachine.check
    StateMachine.apply StateMachine.absorb State.apply State.advance State.check purge_state le lt
    option_ord u64_ord next_log_index BTreeMap.split_off
purge_returned = refl

flush_returned :
    (flush {T = Numbers} {W = InChunks} true none (purge (log_id 1 2) four).0).1 ≡ ok tt
unfolding flush remove_after_sync purge append_and_apply after_close buffer_removable_chunks
    StateMachine.check StateMachine.apply StateMachine.absorb State.apply State.advance State.check
    purge_state le lt option_ord u64_ord next_log_index BTreeMap.split_off
flush_returned = refl

purge-flush_example :
    Cleared {W = InChunks} chunk_laws
      (log_id 1 2)
      none
      four
      (purge (log_id 1 2) four).0
      (flush true none (purge (log_id 1 2) four).0).0
unfolding next_log_index
purge-flush_example =
    purge-flush chunk_laws (log_id 1 2) four (record { offset = 4; size = 1 }) none chunks-Thorough
      (omega arith) purge_returned flush_returned
