-- ===== src/RoundTripTests.antt =====
-- A history that closes two chunks, purges, and removes the first chunk; then the store is opened,
-- and one of its two payloads is evicted.
use raft_log.Prelude.{
  Outcome, All, inl, inr, ap, subst, ok-injective, ◌≡◌, refl, sym, some, none, true, List, [], ◌∷◌,
  ok, arith, keep, ℕ, ◌≤◌,
}
use raft_log.Prelude.Ord.{le, le_self, lt, option_ord, u64_ord}
use raft_log.Types.{ids, next_log_index}
use raft_log.Config.{Config}
use raft_log.BTreeMap
use raft_log.State
use raft_log.State.{RaftLogRecord, RaftLogAction, action, checkpoint, purge_state}
use raft_log.StateMachine
use raft_log.RaftLog.{
  append_and_apply, after_close, append, purge, flush, remove_after_sync, buffer_removable_chunks,
  open_log, read, read_entries, read_entry, appended_payload,
}
use raft_log.RaftLog.Open.{Stored, Replays, record_read, chunk_synced, run}
use raft_log.RaftLog.Reread.{Restores}
use raft_log.RaftLog.Origins.{SourceIn}
use raft_log.Errors.{IoError}
use raft_log.StateMachine.{LogData}
use raft_log.Cache.{evictable}
use raft_log.RaftLog.Run.{
  Request, serve, serve_write, written, appended, purged, flushed, new-SmInv,
}
use raft_log.RaftLog.History.{serve_all, AllSafe}
use raft_log.RaftLog.Recorded.{Recorded}
use raft_log.RaftLog.RoundTrip.{Left, open_log-serve_all}
use raft_log.RaftLog.Twin.{Twins}
use raft_log.RaftLog.Restart.{Remains, read-open_log}
use raft_log.ChunkSamples.{chunk_laws, InChunks, State, chunk_trace, placed, ChunkStore, kept_of}
use raft_log.Cache
use raft_log.Samples.{Numbers, log_id, record_of}
use raft_log.FourEntries.{ChunkLog}

abbrev state_at : State
state_at = record {
  vote = none;
  last = some (log_id 1 1);
  committed = none;
  purged = none;
  user_data = none;
}

abbrev first_chunk : List (Stored Numbers)
first_chunk =
    placed 0 0 (checkpoint State.default_state)
    ∷ placed 0 1 (record_of 0 10)
    ∷ placed 0 2 (record_of 1 20)
    ∷ []

abbrev head : Stored Numbers
head = placed 3 3 (checkpoint state_at)

abbrev rest : List (Stored Numbers)
rest =
    placed 3 4 (record_of 2 30)
    ∷ placed 3 5 (action (RaftLogAction.purge_upto (log_id 1 1)))
    ∷ placed 6 6
        (checkpoint (record state_at { last = some (log_id 1 2); purged = some (log_id 1 1) }))
    ∷ placed 6 7 (record_of 3 40)
    ∷ []

abbrev config : Config (List (Stored Numbers))
config = record { wal = head ∷ rest; log_cache_max_items = some 1; log_cache_capacity = some 100 }

abbrev start : ChunkLog
start = record {
  config = config;
  wal = record {
    chunks = [];
    open_offset = 0;
    next = 1;
    kept = record { chunk = 0; offset = 0; rec = checkpoint State.default_state } ∷ [];
    written = placed 0 0 (checkpoint State.default_state) ∷ [];
  };
  state_machine = StateMachine.new config;
  removed_chunks = [];
  cache_hit = 0;
  cache_miss = 0;
}

abbrev requests : List (Request Numbers InChunks)
requests =
    written (appended ((log_id 1 0, 10) ∷ (log_id 1 1, 20) ∷ (log_id 1 2, 30) ∷ []))
    ∷ written (purged (log_id 1 1))
    ∷ written (appended ((log_id 1 3, 40) ∷ []))
    ∷ written (flushed true none)
    ∷ []

-- The state at the end of the chunk that closes while the WAL opens.
abbrev state_then : State
state_then = record state_at { last = some (log_id 1 2); purged = some (log_id 1 1) }

abbrev reopened_chunks : ChunkStore
reopened_chunks = record {
  chunks = (record { offset = 3 }, state_then) ∷ [];
  open_offset = 6;
  next = 8;
  kept =
      kept_of head
      ∷ kept_of (placed 3 4 (record_of 2 30))
      ∷ kept_of (placed 3 5 (action (RaftLogAction.purge_upto (log_id 1 1))))
      ∷ kept_of (placed 6 6 (checkpoint state_then))
      ∷ kept_of (placed 6 7 (record_of 3 40))
      ∷ [];
  written = head ∷ rest;
}

reopening : Replays InChunks config (head ∷ rest)
unfolding StateMachine.check StateMachine.apply StateMachine.absorb StateMachine.new State.apply
    State.advance State.check State.check_append State.default_state le lt option_ord u64_ord
    next_log_index BTreeMap.insert BTreeMap.split_off purge_state Cache.new Cache.insert
    Cache.try_evict Cache.purge_upto Cache.set_last_evictable keep
reopening = record {
  steps =
      record_read head
      ∷ record_read (placed 3 4 (record_of 2 30))
      ∷ record_read (placed 3 5 (action (RaftLogAction.purge_upto (log_id 1 1))))
      ∷ chunk_synced (some state_then)
      ∷ record_read (placed 6 6 (checkpoint state_then))
      ∷ record_read (placed 6 7 (record_of 3 40))
      ∷ [];
  order = refl;
  opened = ok reopened_chunks;
  runs = refl;
}

reopening_ok : reopening.opened ≡ ok reopened_chunks
unfolding reopening
reopening_ok = refl

-- The store that opens: the eviction boundary is restored, and the entry at offset 4 is evicted
-- when the one at offset 7 comes in.
abbrev reopened_log : ChunkLog
reopened_log = record {
  config = config;
  wal = reopened_chunks;
  state_machine = (run reopening.steps (StateMachine.new config)).0;
  removed_chunks = [];
  cache_hit = 0;
  cache_miss = 0;
}

reopened_as : open_log {T = Numbers} {W = InChunks} config ≡ ok reopened_log
unfolding reopening open_log buffer_removable_chunks StateMachine.check StateMachine.apply
    StateMachine.absorb StateMachine.new State.apply State.advance State.check State.check_append
    State.default_state le lt option_ord u64_ord next_log_index BTreeMap.insert BTreeMap.split_off
    purge_state Cache.new Cache.insert Cache.try_evict Cache.purge_upto Cache.set_last_evictable
    keep
reopened_as = refl

-- As in the source's own test of a reopened store, one payload is left in the cache, and reading
-- both entries is a hit and a miss.
evicted_then_read :
    (reopened_log.state_machine.payload_cache.cache ≡ (log_id 1 3, 40) ∷ [])
    × ((read 2 4 reopened_log).0.cache_hit ≡ 1)
    × ((read 2 4 reopened_log).0.cache_miss ≡ 1)
unfolding reopening read read_entries read_entry appended_payload Cache.get BTreeMap.range
    StateMachine.check StateMachine.apply StateMachine.absorb StateMachine.new State.apply
    State.advance State.check State.check_append State.default_state le lt option_ord u64_ord
    next_log_index BTreeMap.insert BTreeMap.split_off purge_state Cache.new Cache.insert
    Cache.try_evict Cache.purge_upto Cache.set_last_evictable keep BTreeMap.get
evicted_then_read = (refl, refl, refl)

-- Every entry is loaded from the one record that it can come from.
abbrev found : LogData Numbers → Outcome (IoError Numbers) (RaftLogRecord Numbers)
found d = InChunks.load_record reopened_chunks d.chunk_id d.record_segment

source_loads :
    (e : ℕ × LogData Numbers) (a : ℕ × ℕ)
    → SourceIn (head ∷ rest) e a
    → found e.1 ≡ ok (action (RaftLogAction.append a.0 a.1))
source_loads e a (inl s) = absurd (ground (arith, s.appended))
source_loads e a (inr (inl s)) = rw (sym s.chunk, sym s.segment) (ap (λ r. ok r) s.appended)
source_loads e a (inr (inr (inl s))) = absurd (ground (arith, s.appended))
source_loads e a (inr (inr (inr (inl s)))) = absurd (ground (arith, s.appended))
source_loads e a (inr (inr (inr (inr (inl s))))) =
    rw (sym s.chunk, sym s.segment) (ap (λ r. ok r) s.appended)
source_loads e a (inr (inr (inr (inr (inr s))))) = absurd s

reopened_loads :
    All
      (λ e.
        evictable reopened_log.state_machine.payload_cache e.1.log_id ≡ true
        → (a : ℕ × ℕ) → SourceIn (head ∷ rest) e a
        → InChunks.load_record reopened_log.wal e.1.chunk_id e.1.record_segment
          ≡ ok (action (RaftLogAction.append a.0 a.1)))
      reopened_log.state_machine.log
unfolding reopening open_log buffer_removable_chunks StateMachine.check StateMachine.apply
    StateMachine.absorb StateMachine.new State.apply State.advance State.check State.check_append
    State.default_state le lt option_ord u64_ord next_log_index BTreeMap.insert BTreeMap.split_off
    purge_state Cache.new Cache.insert Cache.try_evict Cache.purge_upto Cache.set_last_evictable
    keep
reopened_loads = (λ v a s. source_loads _ a s, (λ v a s. source_loads _ a s, tt))

reopening-Restores : Restores chunk_laws chunk_trace config reopening
unfolding reopening le option_ord u64_ord StateMachine.new Cache.new
reopening-Restores = record {
  rises = (refl, tt);
  loads = λ rl h.
      let is : reopened_log ≡ rl = ok-injective reopened_as h in
      subst
        (λ (rl : ChunkLog).
          All
            (λ e.
              evictable rl.state_machine.payload_cache e.1.log_id ≡ true
              → (a : ℕ × ℕ) → SourceIn (head ∷ rest) e a
              → InChunks.load_record rl.wal e.1.chunk_id e.1.record_segment
                ≡ ok (action (RaftLogAction.append a.0 a.1)))
            rl.state_machine.log)
        is reopened_loads;
}

start-Recorded : Recorded {W = InChunks} chunk_trace config start
unfolding StateMachine.apply StateMachine.absorb StateMachine.new State.apply State.advance
    State.check State.default_state keep
start-Recorded = record {
  accepted = refl;
  equal = record { sorted = tt; same = refl; kept = refl };
}

requests-Left : Left {W = InChunks} chunk_trace config (serve_all requests start) head rest
unfolding serve serve_write append purge flush remove_after_sync append_and_apply after_close
    buffer_removable_chunks StateMachine.check StateMachine.apply StateMachine.absorb
    StateMachine.new State.apply State.advance State.check State.check_append State.default_state le
    lt option_ord u64_ord next_log_index BTreeMap.insert BTreeMap.split_off purge_state
requests-Left = record {
  first = record { offset = 3 };
  before = first_chunk;
  split = refl;
  earlier = (omega arith, (omega arith, (omega arith, tt)));
  later = (omega arith, (omega arith, (omega arith, (omega arith, tt))));
  saved = refl;
  live = (omega arith, (omega arith, tt));
}

open_log-serve_all_example :
    (rl : ChunkLog) × (open_log {T = Numbers} {W = InChunks} config ≡ ok rl)
    × (rl.state_machine.log ≡ (serve_all requests start).state_machine.log)
    × (rl.state_machine.log_state ≡ (serve_all requests start).state_machine.log_state)
open_log-serve_all_example =
    open_log-serve_all chunk_trace config requests start head rest reopened_chunks reopening
      start-Recorded requests-Left reopening_ok

start-Twins : Twins {W = InChunks} chunk_laws chunk_trace config start
unfolding StateMachine.new StateMachine.apply StateMachine.absorb State.apply State.advance
    State.check State.default_state Cache.new
start-Twins = record {
  entries = [];
  good = record {
    sound = unfold StateMachine.new State.default_state in new-SmInv config;
    shown = tt;
    laid = record { rising = tt; placed = tt; gone = tt };
  };
  written = start-Recorded;
  mirrors = record {
    sound = unfold StateMachine.new State.default_state in new-SmInv config;
    lone = refl;
    shown = tt;
  };
  steady = (
    (
      unfold StateMachine.new State.default_state in (new-SmInv config).log,
      le_self (ids Numbers) none,
    ),
    tt,
  );
}

requests-AllSafe : AllSafe {W = InChunks} requests start
unfolding serve serve_write append purge append_and_apply after_close buffer_removable_chunks
    StateMachine.check StateMachine.apply StateMachine.absorb StateMachine.new State.apply
    State.advance State.check State.check_append State.default_state le lt option_ord u64_ord
    next_log_index BTreeMap.insert BTreeMap.split_off purge_state Cache.new Cache.insert
    Cache.try_evict Cache.purge_upto keep
requests-AllSafe = (
  (omega arith, (omega arith, (omega arith, tt))),
  (refl, (refl, (refl, tt))),
  (
    record {
      range = omega arith;
      entries = (ground arith, (ground arith, (ground arith, tt)));
      last = ground arith;
    },
    tt,
    ((omega arith, tt), (refl, tt), (tt, tt, tt)),
  ),
)

requests-Remains :
    Remains {W = InChunks} chunk_laws chunk_trace config (serve_all requests start) head rest
unfolding serve serve_write append purge flush remove_after_sync append_and_apply after_close
    buffer_removable_chunks StateMachine.check StateMachine.apply StateMachine.absorb
    StateMachine.new State.apply State.advance State.check State.check_append State.default_state le
    lt option_ord u64_ord next_log_index BTreeMap.insert BTreeMap.split_off purge_state
requests-Remains = record {
  first = record { offset = 3 };
  before = first_chunk;
  split = refl;
  earlier = (omega arith, (omega arith, (omega arith, tt)));
  later = (omega arith, (omega arith, (omega arith, (omega arith, tt))));
  saved = refl;
  closed_left = (omega arith, tt);
  open_left = omega arith;
}

read-open_log_example :
    (rl : ChunkLog) × (open_log {T = Numbers} {W = InChunks} config ≡ ok rl)
    × ((from to : ℕ)
        → from ≤ to
        → (read from to rl).1 ≡ (read from to (serve_all requests start)).1)
read-open_log_example =
    read-open_log chunk_laws chunk_trace config requests start head rest reopened_chunks reopening
      start-Twins requests-AllSafe requests-Remains reopening-Restores reopening_ok
