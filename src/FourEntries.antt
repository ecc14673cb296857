-- ===== src/FourEntries.antt =====
-- A store with four entries, whose first chunk is closed and evicted from the cache.
use raft_log.Prelude.{ℕ, inl, inr, refl, none, some, List, [], ◌∷◌, arith}
use raft_log.Prelude.Ord.{le, lt, option_ord, u64_ord}
use raft_log.Types.{next_log_index}
use raft_log.Config.{Config}
use raft_log.BTreeMap
use raft_log.Cache
use raft_log.Cache.{evictable}
use raft_log.Cache.Loops.{total}
use raft_log.StateMachine.{LogData, Log}
use raft_log.Contents.{Entries}
use raft_log.RaftLog.{RaftLog}
use raft_log.RaftLog.Serves.{Holds}
use raft_log.RaftLog.Open.{Stored}
use raft_log.Samples.{Numbers, log_id, record_of}
use raft_log.ChunkSamples.{InChunks, Kept, State, chunk_laws}

abbrev pub ChunkLog : Type 0
ChunkLog = RaftLog Numbers InChunks

abbrev pub chunk_config : Config (List (Stored Numbers))
chunk_config = record { wal = []; log_cache_max_items = some 2; log_cache_capacity = some 100 }

abbrev pub state_upto : ℕ → State
state_upto index = record {
  vote = none;
  last = some (log_id 1 index);
  committed = some (log_id 1 1);
  purged = none;
  user_data = none;
}

abbrev pub in_chunk : ℕ → ℕ → LogData Numbers
in_chunk index chunk = record {
  log_id = log_id 1 index;
  chunk_id = record { offset = chunk };
  record_segment = record { offset = index; size = 1 };
}

abbrev pub kept_in : ℕ → ℕ → ℕ → Kept
kept_in chunk index payload = record {
  chunk = chunk;
  offset = index;
  rec = record_of index payload;
}

-- Four entries; the payloads of the first three have been evicted from the cache.
abbrev pub four_entries : Entries Numbers
four_entries = (log_id 1 0, 10) ∷ (log_id 1 1, 20) ∷ (log_id 1 2, 30) ∷ (log_id 1 3, 40) ∷ []

abbrev pub four_log : Log Numbers
four_log = (0, in_chunk 0 0) ∷ (1, in_chunk 1 0) ∷ (2, in_chunk 2 0) ∷ (3, in_chunk 3 3) ∷ []

abbrev pub four : ChunkLog
four = record {
  config = chunk_config;
  wal = record {
    chunks = (record { offset = 0 }, state_upto 2) ∷ [];
    open_offset = 3;
    next = 4;
    kept = kept_in 0 0 10 ∷ kept_in 0 1 20 ∷ kept_in 0 2 30 ∷ kept_in 3 3 40 ∷ [];
    written = [];
  };
  state_machine = record {
    log = four_log;
    payload_cache = record {
      max_items = 2;
      capacity = 100;
      size = 40;
      cache = (log_id 1 3, 40) ∷ [];
      last_evictable = some (log_id 1 2);
    };
    log_state = state_upto 3;
  };
  removed_chunks = [];
  cache_hit = 0;
  cache_miss = 0;
}

pub four-Holds : Holds chunk_laws four four_entries
unfolding BTreeMap.last_key_value lt le option_ord u64_ord next_log_index Cache.get BTreeMap.get
    evictable total
four-Holds = record {
  sound = record {
    log = record {
      chain = (refl, (refl, refl), (refl, (refl, refl), (refl, (refl, refl), (refl, tt, tt))));
      ends = λ l h. ground arith;
      above = (
        (refl, omega arith),
        ((refl, omega arith), ((refl, omega arith), ((refl, omega arith), tt))),
      );
      ordered = record {
        purged_le = refl;
        purged_index = omega arith;
        committed_le = refl;
        purged_range = tt;
        last_range = omega arith;
      };
    };
    cache = record { sorted = (tt, tt); sized = refl; within = λ j h. ground arith };
    covers = (inl refl, (inl refl, (inl refl, (inr (40, refl), tt))));
  };
  shown = (
    record { index = refl; same = refl; found = inr (refl, refl); stored = λ v. refl },
    (
      record { index = refl; same = refl; found = inr (refl, refl); stored = λ v. refl },
      (
        record { index = refl; same = refl; found = inr (refl, refl); stored = λ v. refl },
        (record { index = refl; same = refl; found = inl refl; stored = λ v. refl }, tt),
      ),
    ),
  );
  laid = record {
    rising = (tt, omega arith, tt);
    placed = (
      inr (inl (refl, refl)),
      (inr (inl (refl, refl)), (inr (inl (refl, refl)), (inl refl, tt))),
    );
    gone = tt;
  };
}
