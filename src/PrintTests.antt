-- ===== src/PrintTests.antt =====
-- Numbers, a dump and the statistics as they are printed.
use raft_log.RaftLog.Read.{Unwound, in_bounds}
use raft_log.Errors.{IoError}
use raft_log.Prelude.{
  ◌⊎◌, Outcome, Method, ◌>>◌, return, length, ◌+◌, ◌%◌, ℕ, ◌≡◌, inr, List, [], ◌∷◌, map, ok, arith,
  ◌++◌, keep, refl,
}
use raft_log.Types.{u64_mod}
use raft_log.Samples.{Numbers}
use raft_log.ChunkSamples.{InChunks}
use raft_log.FourEntries.{four, four_log}
use raft_log.State.{RaftLogAction, RaftLogRecord, action}
use raft_log.RaftLog.{read}
use raft_log.Num.{Text, decimal, zeros, padded, fold_chars, format_grouped, format_pad9_u64}
use raft_log.Num.Grouping.{Formatted, format_grouped-Formatted}
use raft_log.Dump.Write.{
  codes, Printing, Visit, Walk, to_buffer, write, write_record, write_ok, write_to_string,
}
use raft_log.Stat.{WalStats, stat, uncounted, stat-read}

-- Numbers, as the source's own test prints them.
million : format_pad9_u64 1200000 ≡ codes "001_200_000"
unfolding format_pad9_u64 format_grouped padded decimal zeros fold_chars
million = refl

largest : format_pad9_u64 18446744073709551615 ≡ codes "18_446_744_073_709_551_615"
unfolding format_pad9_u64 format_grouped padded decimal zeros fold_chars
largest = refl

format_grouped-Formatted_example : Formatted 1200000 9 (format_grouped 1200000 9)
format_grouped-Formatted_example = format_grouped-Formatted 1200000 9 (omega arith)

abbrev print_action : RaftLogRecord Numbers → Text
print_action (action (RaftLogAction.save_vote vote)) =
    codes "SaveVote(" ++ decimal 20 vote ++ codes ")"
print_action _ = codes "another record"

abbrev printing : Printing Numbers
printing = record {
  chunk_id = λ c. codes "ChunkId(" ++ format_grouped c.offset 20 ++ codes ")";
  size = λ n. codes "Size(" ++ decimal 20 n ++ codes ")";
  debug = print_action;
  display = print_action;
  error = λ e. codes "failed";
}

abbrev for_each :
    (Visit Numbers → Method (IoError Numbers) Text (Unit {0}))
    → List (Visit Numbers)
    → Method (IoError Numbers) Text (Unit {0})
for_each f [] = return tt
for_each f (v ∷ vs) = f v >> for_each f vs

abbrev one_visit : List (Visit Numbers)
one_visit =
    record {
      chunk_id = record { offset = 0 };
      index = 0;
      found = inr (record { offset = 0; size = 10 }, action (RaftLogAction.save_vote 1));
    }
    ∷ []

abbrev walk_one : Walk printing (to_buffer printing)
walk_one f = for_each f one_visit

-- The dump of the source's own test.
vote_dumped :
    write_to_string printing walk_one
    ≡ ok (
        codes
          "RaftLog:\nChunkId(00_000_000_000_000_000_000)\n  R-00000: [000_000_000, 000_000_010) Size(10): SaveVote(1)\n")
unfolding write_to_string write write_record write_ok format_pad9_u64 format_grouped padded decimal
    zeros fold_chars
vote_dumped = refl

abbrev no_metrics : WalStats InChunks
no_metrics = record {
  ChunkStat = ℕ;
  FlushMetrics = Unit;
  closed_chunk_stats = λ w. map (λ x. x.0.offset) w.chunks;
  open_chunk_stat = λ st w. w.open_offset;
  flush_metrics = λ w. tt;
}

stat-read_example :
    (uncounted no_metrics (stat no_metrics (read 1 4 four).0)
      ≡ uncounted no_metrics (stat no_metrics four))
    × ((items : List (Outcome (IoError Numbers) (ℕ × ℕ))) × ((read 1 4 four).1 ≡ ok items)
        × (((stat no_metrics (read 1 4 four).0).payload_cache_hit
                + (stat no_metrics (read 1 4 four).0).payload_cache_miss)
              % u64_mod
            ≡ ((stat no_metrics four).payload_cache_hit
                + (stat no_metrics four).payload_cache_miss
                + length items)
              % u64_mod)
        × ((length items ≡ length (keep (in_bounds 1 4) four_log)) ⊎ Unwound items))
stat-read_example = stat-read no_metrics 1 4 four (omega arith)
