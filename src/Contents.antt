-- ===== src/Contents.antt =====
-- What the store holds, seen from outside: a list of entries, each a log id with its payload. The
-- operations of `RaftLogWriter` as its documentation describes them (src/api/raft_log_writer.rs),
-- and when a log map, a cache and a WAL show such a list.
pub mod Effects
pub mod Sources
use raft_log.Prelude.{
  ℕ, ◌≡◌, ◌⊎◌, none, some, true, List, [], ◌∷◌, ◌++◌, keep, Outcome, ok, Option, All2, ltb, leb,
}
use raft_log.Types.{Types, ids, next_log_index, ChunkId, Segment}
use raft_log.Errors.{IoError}
use raft_log.State.{
  RaftLogState, RaftLogAction, RaftLogRecord, action, checkpoint, save_vote, append, commit,
  truncate_after, purge_upto,
}
use raft_log.Cache
use raft_log.Cache.{PayloadCache, evictable}
use raft_log.StateMachine.{LogData, Log}

-- The entries, in order.
abbrev pub Entries : Types → Type 0
Entries T = List (T.LogId × T.LogPayload)

abbrev pub Load : Types → Type 0
Load T = ChunkId → Segment → Outcome (IoError T) (RaftLogRecord T)

module _ (T : Types) where
  abbrev pub below : ℕ → Entries T → Entries T
  below i es = keep (λ e. ltb (T.log_index e.0) i) es

  abbrev pub from_on : ℕ → Entries T → Entries T
  from_on i es = keep (λ e. leb i (T.log_index e.0)) es

  -- What a record does to the entries.
  unfoldable pub effect : RaftLogRecord T → Entries T → Entries T
  effect (action (append id p)) es = es ++ (id, p) ∷ []
  effect (action (truncate_after upto)) es = below (next_log_index T upto) es
  effect (action (purge_upto id)) es = from_on (next_log_index T (some id)) es
  effect (action _) es = es
  effect (checkpoint _) es = es

  -- An entry of the map shows an entry: it has its log id, and the payload is in the cache or has
  -- been evicted. A payload that may be evicted can be loaded.
  pub record Shows (load : Load T) (c : PayloadCache T) (e : ℕ × LogData T)
      (a : T.LogId × T.LogPayload) : Type 0 where
    pub index : e.0 ≡ T.log_index a.0
    pub same : e.1.log_id ≡ a.0
    pub found : (Cache.get c a.0 ≡ some a.1) ⊎ ((Cache.get c a.0 ≡ none) × (evictable c a.0 ≡ true))
    pub stored :
        evictable c a.0 ≡ true → load e.1.chunk_id e.1.record_segment ≡ ok (action (append a.0 a.1))

  abbrev pub AllShown : Load T → PayloadCache T → Log T → Entries T → Type 0
  AllShown load c log es = All2 (Shows load c) log es
