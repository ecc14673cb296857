-- ===== src/Samples.antt =====
-- Concrete stores: log ids as `term * 2 ^ 64 + index`, so that their order is that of terms and then
-- indexes, and a WAL that keeps its records in memory.
use Prim.Native.Nat.{compare}
use native.Mathlib.Omega.{arith}
use raft_log.Prelude.{
  ℕ, zero, suc, ◌+◌, ◌-◌, ◌*◌, ◌%◌, ◌<◌, none, some, List, [], ◌∷◌, ◌++◌, length, ok, err, Outcome,
  ◌>>◌,
}
use raft_log.Prelude.Ord.{u64_ord}
use raft_log.Types.{Types, u64_mod}
use raft_log.Errors.{IoError, other}
use raft_log.Config.{Config}
use raft_log.State.{RaftLogState, RaftLogAction, RaftLogRecord, action}
use raft_log.Cache.{PayloadCache}
use raft_log.StateMachine
use raft_log.StateMachine.{RaftLogStateMachine, LogData, Log}
use raft_log.Wal.{Wal}
use raft_log.RaftLog.{RaftLog}
use raft_log.RaftLog.Open.{Stored, replay}
use raft_log.RaftLog.Run.{Request, written, appended, serve}

pub wrapped : (n : ℕ) → n % u64_mod < u64_mod
wrapped n = omega arith

abbrev pub Numbers : Types
Numbers = record {
  LogId = ℕ;
  LogPayload = ℕ;
  Vote = ℕ;
  UserData = ℕ;
  log_id_ord = u64_ord;
  vote_partial_cmp = λ a b. some (compare a b);
  log_index = λ id. id % u64_mod;
  payload_size = λ p. p % u64_mod;
  log_index_u64 = wrapped;
  payload_size_u64 = wrapped;
}

abbrev pub log_id : ℕ → ℕ → ℕ
log_id term index = term * u64_mod + index

abbrev pub Records : Type 0
Records = List (RaftLogRecord Numbers)

abbrev pub nth : ℕ → Records → Outcome (IoError Numbers) (RaftLogRecord Numbers)
nth n [] = err (other "no such record")
nth zero (r ∷ rs) = ok r
nth (suc n) (r ∷ rs) = nth n rs

-- The records with their places, from the place `n` on.
abbrev pub places : ℕ → Records → List (Stored Numbers)
places n [] = []
places n (r ∷ rs) =
    record { rec = r; chunk_id = record { offset = 0 }; segment = record { offset = n; size = 1 } }
    ∷ places (suc n) rs

-- One chunk that is never full; a record's segment is its place in the list.
abbrev pub InMemory : Wal Numbers
InMemory = record {
  Store = Records;
  WalConfig = Records;
  Callback = Unit;
  append = λ r rs. (rs ++ r ∷ [], ok tt);
  open_chunk_id = λ rs. record { offset = 0 };
  last_segment = λ rs. record { offset = length rs - 1; size = 1 };
  try_close_full_chunk = λ st rs. (rs, ok none);
  drain_closed_chunks_while = λ p rs. (rs, []);
  send_pending = λ sync callback rs. (rs, ok tt);
  send_remove_chunks = λ chunks rs. (rs, ok tt);
  load_record = λ rs chunk segment. nth segment.offset rs;
  on_disk_size = λ rs. length rs;
  open_wal =
      λ records f g. replay f (places 0 records) >> (λ sm. (g (some sm.log_state) sm, ok records));
}

abbrev pub small_config : Config Records
small_config = record { wal = []; log_cache_max_items = some 2; log_cache_capacity = some 100 }

abbrev pub Store : Type 0
Store = RaftLog Numbers InMemory

abbrev pub empty_store : Store
empty_store = record {
  config = small_config;
  wal = [];
  state_machine = StateMachine.new small_config;
  removed_chunks = [];
  cache_hit = 0;
  cache_miss = 0;
}

-- Three entries of term 1, with payloads 10, 20 and 30.
abbrev pub three_requests : Request Numbers InMemory
three_requests = written (appended ((log_id 1 0, 10) ∷ (log_id 1 1, 20) ∷ (log_id 1 2, 30) ∷ []))

abbrev pub three_entries : Store
three_entries = serve three_requests empty_store

-- A cache with room for two payloads that holds three, of which the first two may be evicted.
abbrev pub full_cache : PayloadCache Numbers
full_cache = record {
  max_items = 2;
  capacity = 100;
  size = 60;
  cache = (log_id 1 0, 10) ∷ (log_id 1 1, 20) ∷ (log_id 1 2, 30) ∷ [];
  last_evictable = some (log_id 1 1);
}

-- A state that holds entries up to index 5, committed up to 3 and purged up to 1.
abbrev pub busy_state : RaftLogState Numbers
busy_state = record {
  vote = some 2;
  last = some (log_id 1 5);
  committed = some (log_id 1 3);
  purged = some (log_id 1 1);
  user_data = none;
}

abbrev pub record_of : ℕ → ℕ → RaftLogRecord Numbers
record_of index payload = action (RaftLogAction.append (log_id 1 index) payload)

abbrev pub data_of : ℕ → LogData Numbers
data_of index = record {
  log_id = log_id 1 index;
  chunk_id = record { offset = 0 };
  record_segment = record { offset = index; size = 1 };
}

abbrev pub stored_log : Log Numbers
stored_log = (0, data_of 0) ∷ (1, data_of 1) ∷ (2, data_of 2) ∷ []

-- The same entries, of which the cache holds the last two.
abbrev pub stored : Store
stored = record {
  config = small_config;
  wal = record_of 0 10 ∷ record_of 1 20 ∷ record_of 2 30 ∷ [];
  state_machine = record {
    log = stored_log;
    payload_cache = record {
      max_items = 2;
      capacity = 100;
      size = 50;
      cache = (log_id 1 1, 20) ∷ (log_id 1 2, 30) ∷ [];
      last_evictable = some (log_id 1 2);
    };
    log_state = record {
      vote = some 2;
      last = some (log_id 1 2);
      committed = none;
      purged = none;
      user_data = none;
    };
  };
  removed_chunks = [];
  cache_hit = 0;
  cache_miss = 0;
}
