-- ===== src/Lib.antt =====
-- raft-log, a write-ahead log for the Raft consensus protocol: what its store does, and that it is
-- right to do so.
--
-- The program. `RaftLog` (src/raft_log/raft_log.rs) is the store that an application writes to
-- through the trait `RaftLogWriter` (src/api/raft_log_writer.rs). It owns a `ChunkedWal`, of the
-- crate `chunked_wal`, which keeps records in chunk files, and a `RaftLogStateMachine`
-- (src/raft_log/state_machine/mod.rs), which keeps the log map (an entry's place in the WAL by its
-- index), a payload cache (payload_cache.rs), and the state (raft_log_state.rs: vote, last,
-- committed, purged, user data). A write is a record: it is checked against the state, appended to
-- the WAL, applied to the state machine; then a full chunk is closed and chunks that hold only
-- purged entries are buffered, to be removed behind the next sync. `read` looks in the cache and
-- then in the WAL. The WAL's flush worker moves the cache's eviction boundary when a chunk is
-- persisted. `open` replays the records into a fresh state machine.
--
-- The files.
-- - Types.antt, Config.antt, Errors.antt: src/api/types.rs, src/config.rs, src/errors.rs. The
--   user's types are the record `Types`, with the laws that Rust's `Ord` asks of an order. A vote
--   is only partially ordered, as in the source.
-- - State.antt: `RaftLogState`, `RaftLogAction` and `RaftLogRecord`; `check` and `apply` with the
--   checks they are made of. State/Checks.antt says when a check passes, State/Order.antt what
--   never goes back.
-- - Cache.antt: `PayloadCache`. A loop that pops from the front is a recursion on the entries
--   (`evict_while`, `drain_while`, `purge_while`), the one that pops from the back is on fuel, and
--   the number of entries is enough of it. Cache/Loops.antt, Cache/Exact.antt, Cache/Truncate.antt
--   and Cache/Insert.antt have what each operation removes and that the size follows.
-- - StateMachine.antt: `RaftLogStateMachine`, with `apply` split into what it does to the map and
--   the cache (`absorb`) and to the state. StateMachine/Inv.antt and its children have the
--   invariant of the map and the state, StateMachine/CacheInv.antt that of the cache,
--   StateMachine/Keeps.antt that records keep both, StateMachine/Checkpoint.antt that
--   `check_checkpoint` does its work.
-- - Wal.antt: the operations of `chunked_wal`, as a parameter. Wal/Laws.antt states what is relied
--   on in its chunks (`Chunked`, from docs/architecture.md): closed chunks in order, a new open
--   chunk behind them, and records that can be loaded until their chunk is removed. The refinement
--   theorems assume it; RaftLog/Open.antt names what opening does (`Replays`: the WAL hands over
--   its records in order and calls the boundary callback between them), RaftLog/Reread.antt what
--   the opened WAL can load (`Restores`); RaftLog/Recorded.antt names what it relies on in the
--   records that are written (`Traced`: an append that succeeds writes its record, a chunk begins
--   with a checkpoint). The laws `Syncs` and `Thorough` stand where they are used, below. Nothing
--   else is assumed.
-- - Contents.antt: the abstract view, a list of entries, with what each record does to it and when
--   a log map, a cache and a WAL show it; Contents/Effects.antt, that records do that to what is
--   shown.
-- - RaftLog.antt: the store, every method of `RaftLogWriter`, `open`, `update_state`, `read`,
--   `drain_cache_evictable` and the callback of the flush worker. A method returns the store beside
--   its outcome, which is a value, an error or a panic (`Method` of Prelude/Results.antt); what was
--   written before an error stays written. A panic of an iterator is its last item. `open` gives
--   the WAL two callbacks, as in the source: one that applies a record and one that sets the
--   eviction boundary (`set_boundary`), which the flush worker calls later. RaftLog/Write.antt has
--   what a write leaves behind, RaftLog/Safe.antt that each operation keeps the invariant,
--   RaftLog/Run.antt runs of requests, RaftLog/Read.antt what `read` returns, RaftLog/Removal.antt
--   when chunks are handed over for removal, RaftLog/Open.antt what `open` rebuilds.
--   RaftLog/Places.antt has where entries lie among the chunks, RaftLog/Refines.antt that a write
--   refines its effect on the list of entries, RaftLog/Serves.antt and RaftLog/Kept.antt that each
--   request does, RaftLog/History.antt the same for a list of requests, and RaftLog/Reopen.antt the
--   opening of a store whose first chunks are gone, by replaying both versions side by side
--   (RaftLog/Reduced.antt). RaftLog/Steps.antt has the steps that requests are made of,
--   RaftLog/Recorded.antt that the records written, replayed, lead to the store, and
--   RaftLog/RoundTrip.antt puts a history and an open together. RaftLog/FairSteps.antt has the
--   steps of fair and safe requests. RaftLog/Mirror.antt sets a second state machine beside the
--   store, one that replays its records with everything in its cache, RaftLog/Steady.antt has the
--   lists of records for which that works and what they come to, and RaftLog/Twin.antt keeps the
--   two together (`Twins`), so that RaftLog/Restart.antt can say what is read after a history and
--   an open, and RaftLog/Crash.antt what is read when a crash has lost the last records
--   (RaftLog/Advances.antt has what these do to a state). An open moves the eviction boundary and
--   evicts while it replays. RaftLog/Evicting.antt runs it beside a plain replay,
--   RaftLog/Origins.antt finds the record that each entry comes from (with Contents/Sources.antt),
--   and RaftLog/Reread.antt shows with them what can be read after an open. StateMachine/Alike.antt
--   (with RaftLog/SideBySide.antt) and StateMachine/Thinned.antt compare the caches of two state
--   machines that take the same records.
-- - RaftLog/Blocking.antt: `blocking_flush` (src/api/raft_log_writer.rs), with the receiving end of
--   the channel as a parameter that the flush worker acts behind. RaftLog/Durable.antt names what
--   is relied on in the worker (`Syncs`), RaftLog/Survives.antt has what a crash after a
--   `blocking_flush` leaves, RaftLog/Cleared.antt the chunks that a purge and the next flush with
--   sync remove (with the law `Thorough`: the drain of closed chunks goes on to the first that
--   fails the test).
-- - Dump.antt: `DumpRaftLog` and its iterator (src/raft_log/dump_raft_log.rs), on fuel, of which
--   one more than the number of entries is enough (Dump/Iter.antt). Dump/Write.antt: the text of a
--   dump (src/dump_writer.rs, src/raft_log/dump_api.rs), with the walk over the chunks, the
--   printing of records and the writer as parameters; PrintTests.antt prints the dump of the
--   source's own test.
-- - Num.antt: src/num.rs, on fuel of twenty digits, which is enough for a `u64`. Stat.antt: `Stat`
--   and `stat`.
-- - Codec.antt: how actions and states are written and read (raft_log_action.rs and
--   raft_log_state.rs). A writer is the bytes written so far, a reader those that are left. The
--   codecs of the user's types, of the crates `codeq` and `byteorder`, the checksum, and the
--   constant of the record type reserved for checkpoints are parameters; Codec/Laws.antt names what
--   is relied on in them: bytes that are written are read back, and nothing after them, and the
--   reserved type is 5. An error message that prints a number keeps its words here and not the
--   number.
-- - BTreeMap.antt: `std::collections::BTreeMap` as an association list in key order.
-- - Prelude.antt and its children: shared names, tests on native numbers, lists, outcomes, orders.
-- - Samples.antt, ChunkSamples.antt, BufferSamples.antt, FourEntries.antt, CodecSamples.antt: WALs
--   in memory, stores, codecs of numbers; Tests.antt, RefinementTests.antt, DumpTests.antt,
--   PrintTests.antt, RoundTripTests.antt and CrashTests.antt: the theorems at work on them.
--
-- Numbers. A `u64` is a natural number; `next_log_index` wraps at 2 ^ 64, and the cache's `usize`
-- size is added and subtracted modulo 2 ^ 64, as in a release build. The two access counters wrap.
--
-- Concurrency. The methods of `RaftLogWriter` take `&mut self`, so they follow one another. The
-- payload cache is shared with the flush worker behind a lock; its only write, the boundary, is a
-- step of its own (`on_chunk_persisted`), which may come between any two requests.
--
-- Not modelled: the WAL crate itself and its files, Display and Debug but for the text of a dump,
-- `Dump` and `RefDump`, which pass a call on to the crate, logging, the benchmark, the test types.
-- The debug assertions of `read` and of the dump's iterator are left out, as a release build leaves
-- them out.
pub mod Prelude
pub mod BTreeMap
pub mod Types
pub mod Errors
pub mod State
pub mod Cache
pub mod Config
pub mod StateMachine
pub mod Wal
pub mod Codec
pub mod Contents
pub mod RaftLog
pub mod Num
pub mod Stat
pub mod Dump
pub mod Samples
pub mod CodecSamples
pub mod ChunkSamples
pub mod BufferSamples
pub mod FourEntries
pub mod Tests
pub mod RefinementTests
pub mod DumpTests
pub mod PrintTests
pub mod CrashTests
pub mod RoundTripTests
