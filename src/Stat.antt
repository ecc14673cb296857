-- ===== src/Stat.antt =====
-- src/raft_log/stat.rs, with `stat` of src/raft_log/raft_log.rs: a snapshot of the counters. What
-- the WAL reports of itself is a parameter.
use raft_log.Prelude.{
  inl, inr, ◌⊎◌, Outcome, ok, ℕ, ◌+◌, ◌%◌, ◌≤◌, ◌≡◌, ◌∙◌, refl, ap, Option, List, length, keep,
  arith, [], ◌∷◌,
}
use raft_log.Types.{Types, u64_mod}
use raft_log.BTreeMap.{BTreeMap, values}
use raft_log.Errors.{IoError}
use raft_log.State.{RaftLogState}
use raft_log.Cache
use raft_log.StateMachine.{LogData, RaftLogStateMachine, checkpoint_of}
use raft_log.Wal.{Wal}
use raft_log.RaftLog.{RaftLog, read, read_entries, read_entry}
use raft_log.RaftLog.Safe.{read_entries_kept, state_machine-read_entry}
use raft_log.RaftLog.Read.{
  wal-read_entry, read_ordered, read_entries_counted, read_entries_ended, Unwound, in_bounds,
}

-- The statistics of the crate `chunked_wal`.
pub record WalStats {T : Types} (W : Wal T) : Type 1 where
  pub ChunkStat : Type 0
  pub FlushMetrics : Type 0
  pub closed_chunk_stats : W.Store → List ChunkStat
  pub open_chunk_stat : RaftLogState T → W.Store → ChunkStat
  pub flush_metrics : W.Store → FlushMetrics

pub record Stat (T : Types) (ChunkStat FlushMetrics : Type 0) : Type 0 where
  pub closed_chunks : List ChunkStat
  pub open_chunk : ChunkStat
  pub payload_cache_last_evictable : Option T.LogId
  pub payload_cache_item_count : ℕ
  pub payload_cache_max_item : ℕ
  pub payload_cache_size : ℕ
  pub payload_cache_capacity : ℕ
  pub payload_cache_miss : ℕ
  pub payload_cache_hit : ℕ
  pub flush_metrics : FlushMetrics

module _ {T : Types} {W : Wal T} (s : WalStats W) where
  unfoldable pub stat : RaftLog T W → Stat T s.ChunkStat s.FlushMetrics
  stat rl =
      let cache = rl.state_machine.payload_cache in
      record {
        closed_chunks = s.closed_chunk_stats rl.wal;
        open_chunk = s.open_chunk_stat (checkpoint_of rl.state_machine) rl.wal;
        payload_cache_last_evictable = cache.last_evictable;
        payload_cache_item_count = Cache.item_count cache;
        payload_cache_max_item = cache.max_items;
        payload_cache_size = cache.size;
        payload_cache_capacity = cache.capacity;
        payload_cache_miss = rl.cache_miss;
        payload_cache_hit = rl.cache_hit;
        flush_metrics = s.flush_metrics rl.wal;
      }

  -- The statistics but for the two counters.
  abbrev pub uncounted : Stat T s.ChunkStat s.FlushMetrics → Stat T s.ChunkStat s.FlushMetrics
  uncounted st = record st { payload_cache_miss = 0; payload_cache_hit = 0 }

  stat-same :
      (a b : RaftLog T W)
      → a.wal ≡ b.wal
      → a.state_machine ≡ b.state_machine
      → uncounted (stat a) ≡ uncounted (stat b)
  unfolding stat
  stat-same a b w m =
      ap
        (λ (p : W.Store × RaftLogStateMachine T).
          uncounted (stat (record a { wal = p.0; state_machine = p.1 })))
        (λ i. (w i, m i))

  stat-read_entries :
      (es : List (LogData T)) (rl : RaftLog T W)
      → uncounted (stat (read_entries es rl).0) ≡ uncounted (stat rl)
  stat-read_entries es rl =
      read_entries_kept (λ r. uncounted (stat r) ≡ uncounted (stat rl))
        (λ e r h.
          stat-same (read_entry e r).0 r (wal-read_entry e r) (state_machine-read_entry e r) ∙ h)
        es rl refl

  length-values : {K A : Type 0} (m : BTreeMap K A) → length (values m) ≡ length m
  length-values [] = refl
  length-values (e ∷ m) = omega (arith, length-values m)

  -- If `from` is at most `to`, then a `read` of `from..to` changes nothing that `stat` reports but
  -- the two counters of the cache, and adds to their sum the number of its items, modulo 2^64.
  -- There are as many items as entries in the range, be each a payload or an error, or the last
  -- item is a panic, which ends the iteration.
  pub stat-read :
      (from to : ℕ) (rl : RaftLog T W)
      → from ≤ to
      → (uncounted (stat (read from to rl).0) ≡ uncounted (stat rl))
        × ((items : List (Outcome (IoError T) (T.LogId × T.LogPayload))) × ((read from to rl).1
              ≡ ok items)
            × (((stat (read from to rl).0).payload_cache_hit
                    + (stat (read from to rl).0).payload_cache_miss)
                  % u64_mod
                ≡ ((stat rl).payload_cache_hit + (stat rl).payload_cache_miss + length items)
                  % u64_mod)
            × ((length items ≡ length (keep (in_bounds from to) rl.state_machine.log))
                ⊎ Unwound items))
  unfolding stat
  stat-read from to rl h =
      let es = keep (in_bounds from to) rl.state_machine.log in
      let run = read_ordered from to rl h in
      let ended = read_entries_ended (values es) rl in
      (
        ap (λ r. uncounted (stat r.0)) run ∙ stat-read_entries (values es) rl,
        (
          (read_entries (values es) rl).1,
          ap (λ r. r.1) run,
          ap (λ r. (r.0.cache_hit + r.0.cache_miss) % u64_mod) run
              ∙ read_entries_counted (values es) rl,
          elim ended [ inl n ↦ inl (n ∙ length-values es) | inr u ↦ inr u ],
        ),
      )
