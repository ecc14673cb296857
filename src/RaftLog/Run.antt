-- ===== src/RaftLog/Run.antt =====
-- Runs of the store: requests served one after the other, the flush worker's callback among them.
use raft_log.Prelude.{ℕ, ◌≡◌, refl, Option, none, some, Bool, true, List, All, arith}
use raft_log.Prelude.Ord.{le, le_self}
use raft_log.Types.{Types, ids, InRange}
use raft_log.BTreeMap
use raft_log.State.{RaftLogState, RaftLogAction, action, default_state}
use raft_log.Config.{Config}
use raft_log.Cache
use raft_log.Cache.{set_last_evictable, drain_evictable, evictable}
use raft_log.Cache.Loops.{drain_evictable-Popped}
use raft_log.StateMachine
use raft_log.StateMachine.{RaftLogStateMachine, checkpoint_of}
use raft_log.StateMachine.Inv.Purge.{Purgeable}
use raft_log.StateMachine.Keeps.{SmInv}
use raft_log.Wal.{Wal}
use raft_log.RaftLog.{
  RaftLog, save_user_data, save_vote, append, truncate, purge, commit, flush, update_state,
  drain_cache_evictable, on_chunk_persisted, read,
}
use raft_log.RaftLog.Safe.{
  IsSound, Adoptable, record-IsSound, append-IsSound, truncate-IsSound, purge-IsSound,
  save_user_data-IsSound, update_state-IsSound, flush-IsSound, drain_cache_evictable-IsSound,
  on_chunk_persisted-IsSound, read-IsSound,
}

-- The calls of the trait `RaftLogWriter`.
pub data WriterCall (T : Types) (W : Wal T) : Type 0 where
  user_data_saved : Option T.UserData → WriterCall T W
  vote_saved : T.Vote → WriterCall T W
  appended : List (T.LogId × T.LogPayload) → WriterCall T W
  truncated : ℕ → WriterCall T W
  purged : T.LogId → WriterCall T W
  committed : T.LogId → WriterCall T W
  flushed : Bool → Option W.Callback → WriterCall T W

-- The requests that reach a store while it is open, the flush worker's callback among them.
pub data Request (T : Types) (W : Wal T) : Type 0 where
  written : WriterCall T W → Request T W
  state_updated : RaftLogState T → Request T W
  range_read : ℕ → ℕ → Request T W
  cache_drained : Request T W
  chunk_persisted : Option (RaftLogState T) → Request T W

module _ {T : Types} {W : Wal T} where
  -- The store after a call of the writer, be it accepted, refused or broken off by an error.
  unfoldable pub serve_write : WriterCall T W → RaftLog T W → RaftLog T W
  serve_write (user_data_saved user_data) rl = (save_user_data user_data rl).0
  serve_write (vote_saved vote) rl = (save_vote vote rl).0
  serve_write (appended entries) rl = (append entries rl).0
  serve_write (truncated index) rl = (truncate index rl).0
  serve_write (purged upto) rl = (purge upto rl).0
  serve_write (committed log_id) rl = (commit log_id rl).0
  serve_write (flushed sync callback) rl = (flush sync callback rl).0

  -- The store after a request.
  unfoldable pub serve : Request T W → RaftLog T W → RaftLog T W
  unfolding serve_write
  serve (written call) rl = serve_write call rl
  serve (state_updated state) rl = (update_state state rl).0
  serve (range_read from to) rl = (read from to rl).0
  serve cache_drained rl = drain_cache_evictable rl
  serve (chunk_persisted state) rl = on_chunk_persisted state rl

  -- What the caller, or the worker, sees to.
  abbrev pub IsFair : Request T W → RaftLog T W → Type 0
  IsFair (written (appended entries)) rl = All (λ e. InRange T e.0) entries
  IsFair (written (purged upto)) rl = Purgeable rl.state_machine.log rl.state_machine.log_state upto
  IsFair (state_updated state) rl = Adoptable rl state
  IsFair (chunk_persisted (some state)) rl =
      le (ids T) rl.state_machine.payload_cache.last_evictable state.last ≡ true
  IsFair _ rl = Unit

  -- A run of the store: fair requests, one after the other.
  pub data Run : RaftLog T W → RaftLog T W → Type 0 where
    idle : {rl : RaftLog T W} → Run rl rl
    served :
        {rl end : RaftLog T W} (q : Request T W) → IsFair q rl → Run (serve q rl) end → Run rl end

  -- One request keeps the invariant `IsSound` of the store, whatever the WAL answers and whether
  -- the request is accepted, refused or broken off by an error. The invariant: the log map is a
  -- chain of consecutive indexes and growing log ids above the purge point that ends with the last
  -- entry, the purged and the committed entry are at or before the last, the cache is sorted, its
  -- size is the sum of its payloads' sizes modulo 2^64, it holds nothing past the last entry, and
  -- each entry of the map is in the cache or evictable. The condition `IsFair`: appended log ids
  -- are below the largest index, a purge point agrees with the order of the log's entries, a state
  -- given to `update_state` has its own boundaries in order and does not lower `last`, and the
  -- flush worker does not lower the eviction boundary.
  pub serve-IsSound :
      (q : Request T W) (rl : RaftLog T W) → IsSound rl → IsFair q rl → IsSound (serve q rl)
  unfolding serve on_chunk_persisted save_vote commit
  serve-IsSound (written (user_data_saved user_data)) rl v f = save_user_data-IsSound user_data rl v
  serve-IsSound (written (vote_saved vote)) rl v f =
      record-IsSound (action (RaftLogAction.save_vote vote)) rl v tt
  serve-IsSound (written (appended entries)) rl v f = append-IsSound entries rl v f
  serve-IsSound (written (truncated index)) rl v f = truncate-IsSound index rl v
  serve-IsSound (written (purged upto)) rl v f = purge-IsSound upto rl v f
  serve-IsSound (written (committed log_id)) rl v f =
      record-IsSound (action (RaftLogAction.commit log_id)) rl v tt
  serve-IsSound (written (flushed sync callback)) rl v f = flush-IsSound sync callback rl v
  serve-IsSound (state_updated state) rl v f = update_state-IsSound state rl v f
  serve-IsSound (range_read from to) rl v f = read-IsSound from to rl v
  serve-IsSound cache_drained rl v f = drain_cache_evictable-IsSound rl v
  serve-IsSound (chunk_persisted none) rl v f = v
  serve-IsSound (chunk_persisted (some state)) rl v f = on_chunk_persisted-IsSound state rl v f

  -- The invariant `IsSound` holds at the end of every run of fair requests that starts in a store
  -- where it holds.
  pub Run-IsSound : {rl end : RaftLog T W} → Run rl end → IsSound rl → IsSound end
  Run-IsSound idle v = v
  Run-IsSound {rl} (served q f run) v = Run-IsSound run (serve-IsSound q rl v f)

module _ {T : Types} {C : Type 0} where
  -- A new state machine satisfies the invariant, whatever the configuration.
  pub new-SmInv : (config : Config C) → SmInv {T = T} (StateMachine.new config)
  unfolding StateMachine.new default_state Cache.new BTreeMap.last_key_value Cache.Loops.total
      Cache.get BTreeMap.get
  new-SmInv config = record {
    log = record {
      chain = tt;
      ends = λ l n. absurd (ground arith);
      above = tt;
      ordered = record {
        purged_le = le_self (ids T) none;
        purged_index = omega arith;
        committed_le = le_self (ids T) none;
        purged_range = tt;
        last_range = tt;
      };
    };
    cache = record { sorted = tt; sized = refl; within = λ j h. refl };
    covers = tt;
  }
