-- ===== src/Dump.antt =====
-- src/raft_log/dump_raft_log.rs, with `dump_data` of src/raft_log/raft_log.rs: a snapshot of the
-- store, and an iterator over its entries. The reader of closed chunks belongs to `chunked_wal` and
-- is a parameter; the `debug_assert_eq!` of a debug build is left out.
pub mod Iter
pub mod Write
use raft_log.Prelude.{
  ℕ, zero, suc, ◌+◌, ◌%◌, Option, none, some, List, [], ◌∷◌, length, Outcome, ok, err, panic, leb,
  if◌then◌else◌,
}
use raft_log.Types.{Types, u64_mod}
use raft_log.Errors.{IoError}
use raft_log.BTreeMap
use raft_log.BTreeMap.{BTreeMap}
use raft_log.State.{RaftLogState}
use raft_log.StateMachine.{LogData, checkpoint_of}
use raft_log.Contents.{Load}
use raft_log.Wal.{Wal}
use raft_log.RaftLog.{is_panic, RaftLog, appended_payload}

pub record DumpRaftLog (T : Types) : Type 0 where
  pub state : RaftLogState T
  pub logs : List (LogData T)
  pub cache : BTreeMap T.LogId T.LogPayload
  pub record_reader : Load T
  pub cache_hit : ℕ
  pub cache_miss : ℕ

pub record DumpRaftLogIter (T : Types) : Type 0 where
  pub i : ℕ
  pub dump : DumpRaftLog T

abbrev pub Item : Types → Type 0
Item T = Outcome (IoError T) (T.LogId × T.LogPayload)

-- `logs[i]`; past the end the source panics.
abbrev pub get_elem? : {A : Type 0} → List A → ℕ → Option A
get_elem? [] i = none
get_elem? (a ∷ l) zero = some a
get_elem? (a ∷ l) (suc i) = get_elem? l i

-- `RaftLog::dump_data`, with what `closed_chunk_reader` gives for the store's WAL.
unfoldable pub dump_data :
    {T : Types} {W : Wal T} (closed_chunk_reader : W.Store → Load T) → RaftLog T W → DumpRaftLog T
dump_data closed_chunk_reader rl = record {
  state = checkpoint_of rl.state_machine;
  logs = BTreeMap.values rl.state_machine.log;
  cache = rl.state_machine.payload_cache.cache;
  record_reader = closed_chunk_reader rl.wal;
  cache_hit = 0;
  cache_miss = 0;
}

module _ {T : Types} where
  unfoldable pub iter : DumpRaftLog T → DumpRaftLogIter T
  iter dump = record { i = 0; dump = dump }

  -- With the log id of the entry beside the payload, as `next` returns it.
  unfoldable pub read_log_payload : DumpRaftLog T → LogData T → Item T
  unfolding appended_payload
  read_log_payload dump d = elim (dump.record_reader d.chunk_id d.record_segment) [
    | ok rec ↦ appended_payload d.log_id rec
    | err e ↦ err e
    | panic ↦ panic
  ]

  -- The item of an entry: from the copy of the cache, or else from the closed chunks.
  unfoldable pub next_entry : LogData T → DumpRaftLogIter T → DumpRaftLogIter T × Item T
  unfolding read_log_payload
  next_entry d it = elim (BTreeMap.get T.log_id_ord d.log_id it.dump.cache) [
    | some payload ↦ (
      record it {
        i = (it.i + 1) % u64_mod;
        dump = record it.dump { cache_hit = (it.dump.cache_hit + 1) % u64_mod };
      },
      ok (d.log_id, payload),
    )
    | none ↦ (
      record it {
        i = (it.i + 1) % u64_mod;
        dump = record it.dump { cache_miss = (it.dump.cache_miss + 1) % u64_mod };
      },
      read_log_payload it.dump d,
    )
  ]

  unfoldable pub next : DumpRaftLogIter T → DumpRaftLogIter T × Option (Item T)
  unfolding next_entry
  next it =
      if leb (length it.dump.logs) it.i then (it, none) else elim (get_elem? it.dump.logs it.i) [
        | some d ↦ let (it', item) = next_entry d it in (it', some item)
        | none ↦ (it, some panic)
      ]

  -- A `for` loop over the iterator: its items, if it ends in as many calls as the fuel. A panic ends
  -- it: what it unwound from is the last item.
  unfoldable pub collect : ℕ → DumpRaftLogIter T → DumpRaftLogIter T × Option (List (Item T))
  unfolding next
  collect zero it = (it, none)
  collect (suc fuel) it =
      let (it', item) = next it in
      let (it'', items) = collect fuel it' in
      elim item [
        | none ↦ (it', some [])
        | some x ↦
            if is_panic x
            then (it', some (x ∷ []))
            else (it'', elim items [ none ↦ none | some xs ↦ some (x ∷ xs) ])
      ]
