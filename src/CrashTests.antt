-- ===== src/CrashTests.antt =====
-- Histories that end with a crash: the records that were not synced are lost.
use raft_log.Prelude.{
  ℕ, Outcome, All, inl, inr, ap, subst, ok-injective, true, ◌≡◌, ◌++◌, refl, some, none, List, [],
  ◌∷◌, ok, arith, keep,
}
use raft_log.Prelude.Ord.{le, le_self, lt, option_ord, u64_ord}
use raft_log.Types.{ids, next_log_index}
use raft_log.Config.{Config}
use raft_log.BTreeMap
use raft_log.Cache
use raft_log.State
use raft_log.State.{RaftLogRecord, RaftLogAction, action, checkpoint, purge_state}
use raft_log.StateMachine
use raft_log.RaftLog.{
  RaftLog, purge, append_and_apply, after_close, append, flush, remove_after_sync,
  buffer_removable_chunks, open_log,
}
use raft_log.RaftLog.Blocking.{blocking_flush}
use raft_log.RaftLog.Open.{Stored, Replays, record_read, chunk_synced, run}
use raft_log.RaftLog.Run.{
  Request, serve, serve_write, written, purged, flushed, appended, new-SmInv,
}
use raft_log.RaftLog.History.{serve_all, AllSafe}
use raft_log.RaftLog.Twin.{Twins}
use raft_log.RaftLog.Reread.{InPlace, Restores}
use raft_log.RaftLog.Origins.{SourceIn}
use raft_log.Errors.{IoError}
use raft_log.StateMachine.{LogData}
use raft_log.Cache.{evictable}
use raft_log.RaftLog.Crash.{Recovered, crash-open_log}
use raft_log.RaftLog.Survives.{Survives, blocking_flush-Survives}
use raft_log.Samples.{Numbers, log_id, record_of}
use raft_log.ChunkSamples.{State, placed, ChunkStore, kept_of}
use raft_log.BufferSamples.{
  Buffered, InBuffers, buffer_channel, buffer_laws, buffer_trace, buffer_syncs,
}

abbrev BufferLog : Type 0
BufferLog = RaftLog Numbers InBuffers

abbrev state_at : State
state_at = record (State.default_state {T = Numbers}) { last = some (log_id 1 1) }

-- The chunk that is removed behind the sync.
abbrev before : List (Stored Numbers)
before =
    placed 0 0 (checkpoint State.default_state)
    ∷ placed 0 1 (record_of 0 10)
    ∷ placed 0 2 (record_of 1 20)
    ∷ []

abbrev head : Stored Numbers
head = placed 3 3 (checkpoint state_at)

abbrev after : List (Stored Numbers)
after =
    placed 3 4 (record_of 2 30)
    ∷ placed 3 5 (action (RaftLogAction.purge_upto (log_id 1 1)))
    ∷ placed 6 6
        (checkpoint (record state_at { last = some (log_id 1 2); purged = some (log_id 1 1) }))
    ∷ []

-- The record that is lost.
abbrev lost : List (Stored Numbers)
lost = placed 6 7 (record_of 3 40) ∷ []

abbrev config : Config (List (Stored Numbers))
config = record { wal = head ∷ after; log_cache_max_items = some 2; log_cache_capacity = some 100 }

abbrev start : BufferLog
start = record {
  config = config;
  wal = record {
    inner = record {
      chunks = [];
      open_offset = 0;
      next = 1;
      kept = kept_of (placed 0 0 (checkpoint State.default_state)) ∷ [];
      written = placed 0 0 (checkpoint State.default_state) ∷ [];
    };
    asked = 0;
    synced = 0;
  };
  state_machine = StateMachine.new config;
  removed_chunks = [];
  cache_hit = 0;
  cache_miss = 0;
}

abbrev three : List (Request Numbers InBuffers)
three =
    written (appended ((log_id 1 0, 10) ∷ (log_id 1 1, 20) ∷ (log_id 1 2, 30) ∷ []))
    ∷ written (purged (log_id 1 1))
    ∷ []

abbrev fourth : List (Request Numbers InBuffers)
fourth = written (appended ((log_id 1 3, 40) ∷ [])) ∷ []

start-Twins : Twins {W = InBuffers} buffer_laws buffer_trace config start
unfolding StateMachine.new StateMachine.apply StateMachine.absorb State.apply State.advance
    State.check State.default_state Cache.new keep
start-Twins = record {
  entries = [];
  good = record {
    sound = unfold StateMachine.new State.default_state in new-SmInv config;
    shown = tt;
    laid = record { rising = tt; placed = tt; gone = tt };
  };
  written = record { accepted = refl; equal = record { sorted = tt; same = refl; kept = refl } };
  mirrors = record {
    sound = unfold StateMachine.new State.default_state in new-SmInv config;
    lone = refl;
    shown = tt;
  };
  steady = (
    (
      unfold StateMachine.new State.default_state in (new-SmInv config).log,
      le_self (ids Numbers) none,
    ),
    tt,
  );
}

three-AllSafe : AllSafe {W = InBuffers} three start
unfolding blocking_flush flush remove_after_sync serve serve_write append append_and_apply
    after_close buffer_removable_chunks purge StateMachine.check StateMachine.apply
    StateMachine.absorb StateMachine.new State.apply State.advance State.check State.check_append
    State.default_state le lt option_ord u64_ord next_log_index BTreeMap.insert BTreeMap.split_off
    purge_state Cache.new Cache.insert Cache.try_evict Cache.purge_upto
three-AllSafe = (
  (omega arith, (omega arith, (omega arith, tt))),
  (refl, (refl, (refl, tt))),
  (
    record {
      range = omega arith;
      entries = (ground arith, (ground arith, (ground arith, tt)));
      last = ground arith;
    },
    tt,
    tt,
  ),
)

fourth-AllSafe :
    AllSafe {W = InBuffers} fourth (blocking_flush buffer_channel (serve_all three start)).0
unfolding blocking_flush flush remove_after_sync serve serve_write append append_and_apply
    after_close buffer_removable_chunks purge StateMachine.check StateMachine.apply
    StateMachine.absorb StateMachine.new State.apply State.advance State.check State.check_append
    State.default_state le lt option_ord u64_ord next_log_index BTreeMap.insert BTreeMap.split_off
    purge_state Cache.new Cache.insert Cache.try_evict Cache.purge_upto
fourth-AllSafe = ((omega arith, tt), (refl, tt), tt)

abbrev stopped : BufferLog
stopped = serve_all fourth (blocking_flush buffer_channel (serve_all three start)).0

-- The state at the end of the chunk that closes while the WAL opens.
abbrev state_then : State
state_then = record state_at { last = some (log_id 1 2); purged = some (log_id 1 1) }

abbrev reopened_chunks : ChunkStore
reopened_chunks = record {
  chunks = (record { offset = 3 }, state_then) ∷ [];
  open_offset = 6;
  next = 7;
  kept =
      kept_of head
      ∷ kept_of (placed 3 4 (record_of 2 30))
      ∷ kept_of (placed 3 5 (action (RaftLogAction.purge_upto (log_id 1 1))))
      ∷ kept_of (placed 6 6 (checkpoint state_then))
      ∷ [];
  written = head ∷ after;
}

-- The WAL that opens on what is left.
abbrev reopened : Buffered
reopened = record { inner = reopened_chunks; asked = 0; synced = 4 }

reopening : Replays InBuffers config (head ∷ after)
unfolding StateMachine.check StateMachine.apply StateMachine.absorb StateMachine.new State.apply
    State.advance State.check State.check_append State.default_state le lt option_ord u64_ord
    next_log_index BTreeMap.insert BTreeMap.split_off purge_state Cache.new Cache.insert
    Cache.try_evict Cache.purge_upto Cache.set_last_evictable keep
reopening = record {
  steps =
      record_read head
      ∷ record_read (placed 3 4 (record_of 2 30))
      ∷ record_read (placed 3 5 (action (RaftLogAction.purge_upto (log_id 1 1))))
      ∷ chunk_synced (some state_then)
      ∷ record_read (placed 6 6 (checkpoint state_then))
      ∷ [];
  order = refl;
  opened = ok reopened;
  runs = refl;
}

reopening_ok : reopening.opened ≡ ok reopened
unfolding reopening
reopening_ok = refl

-- The store that opens, with its one entry left at offset 4, and the eviction boundary restored.
abbrev reopened_log : BufferLog
reopened_log = record {
  config = config;
  wal = reopened;
  state_machine = (run reopening.steps (StateMachine.new config)).0;
  removed_chunks = [];
  cache_hit = 0;
  cache_miss = 0;
}

reopened_as : open_log {T = Numbers} {W = InBuffers} config ≡ ok reopened_log
unfolding reopening open_log buffer_removable_chunks StateMachine.check StateMachine.apply
    StateMachine.absorb StateMachine.new State.apply State.advance State.check State.check_append
    State.default_state le lt option_ord u64_ord next_log_index BTreeMap.insert BTreeMap.split_off
    purge_state Cache.new Cache.insert Cache.try_evict Cache.purge_upto Cache.set_last_evictable
    keep
reopened_as = refl

abbrev found_third : Outcome (IoError Numbers) (RaftLogRecord Numbers)
found_third = ok (record_of 2 30)

-- The one record that an entry at offset 4 can come from.
source_loads :
    (e : ℕ × LogData Numbers) (a : ℕ × ℕ)
    → SourceIn (head ∷ after) e a
    → found_third ≡ ok (action (RaftLogAction.append a.0 a.1))
source_loads e a (inl s) = absurd (ground (arith, s.appended))
source_loads e a (inr (inl s)) = ap (λ r. ok r) s.appended
source_loads e a (inr (inr (inl s))) = absurd (ground (arith, s.appended))
source_loads e a (inr (inr (inr (inl s)))) = absurd (ground (arith, s.appended))
source_loads e a (inr (inr (inr (inr s)))) = absurd s

reopened_loads :
    All
      (λ e.
        evictable reopened_log.state_machine.payload_cache e.1.log_id ≡ true
        → (a : ℕ × ℕ) → SourceIn (head ∷ after) e a
        → InBuffers.load_record reopened_log.wal e.1.chunk_id e.1.record_segment
          ≡ ok (action (RaftLogAction.append a.0 a.1)))
      reopened_log.state_machine.log
unfolding reopening open_log buffer_removable_chunks StateMachine.check StateMachine.apply
    StateMachine.absorb StateMachine.new State.apply State.advance State.check State.check_append
    State.default_state le lt option_ord u64_ord next_log_index BTreeMap.insert BTreeMap.split_off
    purge_state Cache.new Cache.insert Cache.try_evict Cache.purge_upto Cache.set_last_evictable
    keep
reopened_loads = (λ v a s. source_loads _ a s, tt)

reopening-Restores : Restores buffer_laws buffer_trace config reopening
unfolding reopening le option_ord u64_ord StateMachine.new Cache.new
reopening-Restores = record {
  rises = (refl, tt);
  loads = λ rl h.
      let is : reopened_log ≡ rl = ok-injective reopened_as h in
      subst
        (λ (rl : BufferLog).
          All
            (λ e.
              evictable rl.state_machine.payload_cache e.1.log_id ≡ true
              → (a : ℕ × ℕ) → SourceIn (head ∷ after) e a
              → InBuffers.load_record rl.wal e.1.chunk_id e.1.record_segment
                ≡ ok (action (RaftLogAction.append a.0 a.1)))
            rl.state_machine.log)
        is reopened_loads;
}

returned : (blocking_flush buffer_channel (serve_all three start)).1 ≡ ok tt
unfolding blocking_flush flush remove_after_sync serve serve_write append append_and_apply
    after_close buffer_removable_chunks purge StateMachine.check StateMachine.apply
    StateMachine.absorb StateMachine.new State.apply State.advance State.check State.check_append
    State.default_state le lt option_ord u64_ord next_log_index BTreeMap.insert BTreeMap.split_off
    purge_state Cache.new Cache.insert Cache.try_evict Cache.purge_upto
returned = refl

left-InPlace :
    InPlace {W = InBuffers} buffer_laws buffer_trace config (before ++ head ∷ after) head after
unfolding blocking_flush flush remove_after_sync serve serve_write append append_and_apply
    after_close buffer_removable_chunks purge StateMachine.check StateMachine.apply
    StateMachine.absorb StateMachine.new State.apply State.advance State.check State.check_append
    State.default_state le lt option_ord u64_ord next_log_index BTreeMap.insert BTreeMap.split_off
    purge_state Cache.new Cache.insert Cache.try_evict Cache.purge_upto
left-InPlace = record {
  first = record { offset = 3 };
  before = before;
  split = refl;
  earlier = (omega arith, (omega arith, (omega arith, tt)));
  later = (omega arith, (omega arith, (omega arith, tt)));
  saved = refl;
  live = (omega arith, tt);
}

blocking_flush-Survives_example :
    (now : BufferLog) × (open_log {T = Numbers} {W = InBuffers} config ≡ ok now)
    × Survives buffer_laws buffer_trace config buffer_channel buffer_syncs
        (serve_all three start)
        stopped
        now
unfolding blocking_flush flush remove_after_sync serve serve_write append append_and_apply
    after_close buffer_removable_chunks purge StateMachine.check StateMachine.apply
    StateMachine.absorb StateMachine.new State.apply State.advance State.check State.check_append
    State.default_state le lt option_ord u64_ord next_log_index BTreeMap.insert BTreeMap.split_off
    purge_state Cache.new Cache.insert Cache.try_evict Cache.purge_upto
blocking_flush-Survives_example =
    blocking_flush-Survives buffer_laws buffer_trace config buffer_channel buffer_syncs three fourth
      start head after reopened reopening start-Twins three-AllSafe returned fourth-AllSafe
      left-InPlace reopening-Restores reopening_ok

abbrev whole_history : List (Request Numbers InBuffers)
whole_history = three ++ written (flushed true none) ∷ fourth

whole_history-AllSafe : AllSafe {W = InBuffers} whole_history start
unfolding blocking_flush flush remove_after_sync serve serve_write append append_and_apply
    after_close buffer_removable_chunks purge StateMachine.check StateMachine.apply
    StateMachine.absorb StateMachine.new State.apply State.advance State.check State.check_append
    State.default_state le lt option_ord u64_ord next_log_index BTreeMap.insert BTreeMap.split_off
    purge_state Cache.new Cache.insert Cache.try_evict Cache.purge_upto
whole_history-AllSafe = (
  (omega arith, (omega arith, (omega arith, tt))),
  (refl, (refl, (refl, tt))),
  (
    record {
      range = omega arith;
      entries = (ground arith, (ground arith, (ground arith, tt)));
      last = ground arith;
    },
    tt,
    (tt, tt, ((omega arith, tt), (refl, tt), tt)),
  ),
)

-- The same crash, after a flush that nobody waits for.
crash-open_log_example :
    (now : BufferLog) × (open_log {T = Numbers} {W = InBuffers} config ≡ ok now)
    × Recovered buffer_laws buffer_trace config
        (before ++ head ∷ after)
        lost
        (serve_all whole_history start)
        now
unfolding blocking_flush flush remove_after_sync serve serve_write append append_and_apply
    after_close buffer_removable_chunks purge StateMachine.check StateMachine.apply
    StateMachine.absorb StateMachine.new State.apply State.advance State.check State.check_append
    State.default_state le lt option_ord u64_ord next_log_index BTreeMap.insert BTreeMap.split_off
    purge_state Cache.new Cache.insert Cache.try_evict Cache.purge_upto
crash-open_log_example =
    crash-open_log buffer_laws buffer_trace config whole_history start (before ++ head ∷ after) lost
      head after reopened reopening start-Twins whole_history-AllSafe refl left-InPlace
      reopening-Restores reopening_ok
