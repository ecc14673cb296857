-- ===== src/DumpTests.antt =====
-- The iterator of a dump on a store whose first chunk is evicted from the cache.
use raft_log.Prelude.{
  ap, Bool-cases, ◌==◌, if◌then◌else◌, err, ◌≢◌, length, ◌+◌, ◌%◌, ℕ, ◌≡◌, inl, inr, some, List, [],
  ◌∷◌, map, ok, arith, ◌⊎◌,
}
use raft_log.Prelude.Ord.{u64_ord}
use raft_log.BTreeMap
use raft_log.Contents.{Load}
use raft_log.Types.{u64_mod}
use raft_log.Errors.{other}
use raft_log.Dump.{DumpRaftLog, Item, dump_data, iter, collect}
use raft_log.RaftLog.Read.{Unwound}
use raft_log.Dump.Iter.{ReadsClosed, OpenIsCached, dump-shown, collect_ends}
use raft_log.Samples.{Numbers, log_id}
use raft_log.ChunkSamples.{InChunks, ChunkStore, chunk_laws}
use raft_log.FourEntries.{state_upto, in_chunk, four_entries, four, four-Holds}

-- A reader of the closed chunks that refuses the open one.
abbrev closed_only : ChunkStore → Load Numbers
closed_only w c s =
    if c.offset == w.open_offset then err (other "not closed") else InChunks.load_record w c s

closed_only-ReadsClosed : ReadsClosed chunk_laws closed_only
closed_only-ReadsClosed w c s r n h = elim (Bool-cases (c.offset == w.open_offset)) [
  | inl e ↦
      let same : c.offset ≡ w.open_offset = ground (arith, e) in
      absurd (n (ap (λ o. record { offset = o }) same))
  | inr e ↦ rw e h
]

three_ne_zero : ◌≢◌ {A = ℕ} 0 3
three_ne_zero h = omega (arith, h)

four-OpenIsCached : OpenIsCached chunk_laws four
unfolding BTreeMap.get u64_ord
four-OpenIsCached = (
  λ n h. three_ne_zero (ap (λ c. c.offset) h),
  (
    λ n h. three_ne_zero (ap (λ c. c.offset) h),
    (λ n h. three_ne_zero (ap (λ c. c.offset) h), (λ n. absurd (ground (arith, n)), tt)),
  ),
)

dump-shown_example :
    (collect 9 (iter (dump_data {W = InChunks} closed_only four))).1
    ≡ some (map (λ a. ok a) four_entries)
dump-shown_example =
    dump-shown chunk_laws closed_only 9 four four_entries closed_only-ReadsClosed four-OpenIsCached
      four-Holds (omega arith) (omega arith)

abbrev four_dump : DumpRaftLog Numbers
four_dump = record {
  state = state_upto 3;
  logs = in_chunk 0 0 ∷ in_chunk 1 0 ∷ in_chunk 2 0 ∷ in_chunk 3 3 ∷ [];
  cache = (log_id 1 3, 40) ∷ [];
  record_reader = closed_only four.wal;
  cache_hit = 0;
  cache_miss = 0;
}

collect_ends_example :
    (items : List (Item Numbers)) × ((collect 5 (iter four_dump)).1 ≡ some items)
    × (((collect 5 (iter four_dump)).0.dump.cache_hit
            + (collect 5 (iter four_dump)).0.dump.cache_miss)
          % u64_mod
        ≡ (four_dump.cache_hit + four_dump.cache_miss + length items) % u64_mod)
    × ((length items ≡ 4) ⊎ Unwound items)
collect_ends_example = collect_ends 5 four_dump (omega arith) (omega arith)
