-- ===== src/Tests.antt =====
-- The theorems at work on concrete stores, states and caches.
use raft_log.Prelude.{
  map, ◌++◌, ℕ, ◌+◌, ◌*◌, ◌%◌, ◌≡◌, ◌≢◌, ◌↔◌, ◌⊎◌, inl, inr, refl, none, some, true, false, ◌&&◌,
  List, [], ◌∷◌, map, All, keep, ok, err, panic, arith, ltb, leb, if◌then◌else◌, ◌++◌, length,
}
use raft_log.Prelude.Ord.{le, lt, equal, option_ord, u64_ord}
use raft_log.Types.{u64_mod, InRange, next_log_index}
use raft_log.Errors.{invalid_input, vote_reversal}
use raft_log.State
use raft_log.State.{RaftLogState, RaftLogAction, RaftLogRecord, action, checkpoint}
use raft_log.State.Checks.{Accepts, check_iff, check-ne-panic}
use raft_log.State.Order.{
  CommittedWithin, Later, VoteKept, apply_all, apply-CommittedWithin, apply_all-Later,
  apply-VoteKept,
}
use raft_log.BTreeMap
use raft_log.BTreeMap.Sorted.{IsSorted}
use raft_log.Cache
use raft_log.Cache.{PayloadCache, evictable}
use raft_log.Cache.Loops.{total}
use raft_log.Cache.Exact.{try_evict_done, get-purge_upto}
use raft_log.Cache.Truncate.{Truncated, truncate_after-Truncated}
use raft_log.Cache.Insert.{insert_sized, insert_found, insert_again_sized, inserted}
use raft_log.StateMachine
use raft_log.StateMachine.{RaftLogStateMachine, LogData}
use raft_log.StateMachine.Inv.{LogInv, IsOrdered}
use raft_log.StateMachine.Keeps.{SmInv, apply-SmInv, apply-check}
use raft_log.StateMachine.Checkpoint.{check_checkpoint-LogInv}
use raft_log.RaftLog.{append_and_apply, read, open_log, buffer_removable_chunks}
use raft_log.RaftLog.Write.{append_and_apply_refused}
use raft_log.RaftLog.Read.{IsReadable, item, read_items}
use raft_log.RaftLog.Safe.{IsSound}
use raft_log.RaftLog.Run.{
  serve, serve-IsSound, idle, served, Run-IsSound, new-SmInv, written, truncated, committed,
}
use raft_log.RaftLog.Open.{
  Opening, record_read, chunk_synced, run, AllAdmissible, Abreast, Replays, replay, apply_record,
  open_log-IsSound,
}
use raft_log.Config.{Config}
use raft_log.RaftLog.Removal.{Extends, serve-Extends}
use raft_log.Codec.{encode_action, decode_action, encode_state, decode_state}
use raft_log.Codec.Laws.{action_bytes, action_encodes, action_decode-encode, state_decode-encode}
use raft_log.CodecSamples.{codecs, codecs-AreLawful}
use raft_log.Samples.{
  record_of, places, Store, Numbers, log_id, InMemory, small_config, empty_store, three_requests,
  three_entries, full_cache, busy_state, stored, stored_log,
}

-- States and caches.
check_iff_example :
    (State.check busy_state (action (RaftLogAction.append (log_id 1 6) 7)) ≡ ok tt)
    ↔ Accepts {T = Numbers} busy_state (action (RaftLogAction.append (log_id 1 6) 7))
check_iff_example = check_iff busy_state (action (RaftLogAction.append (log_id 1 6) 7))

check-ne-panic_example :
    State.check busy_state (action (RaftLogAction.append (log_id 1 2) 7)) ≢ panic
check-ne-panic_example = check-ne-panic busy_state (action (RaftLogAction.append (log_id 1 2) 7))

apply-CommittedWithin_example :
    CommittedWithin {T = Numbers}
      (State.apply (action (RaftLogAction.truncate_after (some (log_id 1 4)))) busy_state).0
unfolding le option_ord u64_ord
apply-CommittedWithin_example =
    apply-CommittedWithin (action (RaftLogAction.truncate_after (some (log_id 1 4)))) busy_state
      refl tt

abbrev busy_actions : List (RaftLogAction Numbers)
busy_actions =
    RaftLogAction.commit (log_id 1 5)
    ∷ RaftLogAction.commit (log_id 1 2)
    ∷ RaftLogAction.purge_upto (log_id 1 4)
    ∷ []

apply_all-Later_example : Later busy_state (apply_all busy_actions busy_state)
apply_all-Later_example = apply_all-Later busy_actions busy_state

apply-VoteKept_example :
    VoteKept {T = Numbers} busy_state
      (State.apply (action (RaftLogAction.save_vote 3)) busy_state).0
apply-VoteKept_example = apply-VoteKept (RaftLogAction.save_vote 3) busy_state

full_cache-IsSorted : IsSorted u64_ord full_cache.cache
unfolding lt u64_ord
full_cache-IsSorted = ((refl, (refl, tt)), ((refl, tt), (tt, tt)))

full_cache-sized : full_cache.size ≡ total Numbers full_cache.cache % u64_mod
unfolding total
full_cache-sized = refl

try_evict_done_example :
    (Cache.need_evict (Cache.try_evict full_cache) ≡ false)
    ⊎ All (λ e. evictable full_cache e.0 ≡ false) (Cache.try_evict full_cache).cache
try_evict_done_example = try_evict_done full_cache full_cache-IsSorted

get-purge_upto_example : Cache.get (Cache.purge_upto full_cache (log_id 1 0)) (log_id 1 1) ≡ (
    if le u64_ord (log_id 1 1) (log_id 1 0) && evictable full_cache (log_id 1 1)
    then none
    else Cache.get full_cache (log_id 1 1))
get-purge_upto_example = get-purge_upto full_cache (log_id 1 0) (log_id 1 1) full_cache-IsSorted

truncate_after-Truncated_example :
    Truncated {T = Numbers}
      (log_id 1 0)
      full_cache.cache
      full_cache
      (Cache.truncate_after full_cache (log_id 1 0))
truncate_after-Truncated_example =
    truncate_after-Truncated full_cache (log_id 1 0) full_cache-IsSorted

no_entry_3 : Cache.get full_cache (log_id 1 3) ≡ none
unfolding Cache.get BTreeMap.get u64_ord
no_entry_3 = refl

insert_sized_example :
    (Cache.insert full_cache (log_id 1 3) 40).size
    ≡ total Numbers (Cache.insert full_cache (log_id 1 3) 40).cache % u64_mod
insert_sized_example =
    insert_sized full_cache (log_id 1 3) 40 full_cache-IsSorted full_cache-sized no_entry_3

insert_found_example :
    (Cache.get (Cache.insert full_cache (log_id 1 3) 40) (log_id 1 2) ≡ (
      if equal u64_ord (log_id 1 2) (log_id 1 3)
      then some 40
      else Cache.get full_cache (log_id 1 2)))
    ⊎ ((Cache.get (Cache.insert full_cache (log_id 1 3) 40) (log_id 1 2) ≡ none)
        × (evictable full_cache (log_id 1 2) ≡ true))
insert_found_example = insert_found full_cache (log_id 1 3) 40 (log_id 1 2) full_cache-IsSorted

-- With room for more, so that the insert evicts nothing.
abbrev roomy_cache : PayloadCache Numbers
roomy_cache = record full_cache { max_items = 9 }

entry_2 : Cache.get roomy_cache (log_id 1 2) ≡ some 30
unfolding Cache.get BTreeMap.get u64_ord
entry_2 = refl

room_for_2 : Cache.need_evict (inserted roomy_cache (log_id 1 2) 40) ≡ false
unfolding Cache.need_evict BTreeMap.insert u64_ord
room_for_2 = refl

insert_again_sized_example :
    (Cache.insert roomy_cache (log_id 1 2) 40).size
    ≡ (total Numbers (Cache.insert roomy_cache (log_id 1 2) 40).cache + 30) % u64_mod
insert_again_sized_example =
    insert_again_sized roomy_cache (log_id 1 2) 40 30 full_cache-IsSorted full_cache-sized entry_2
      room_for_2

-- The state machine and the store.
empty_store-IsSound : IsSound empty_store
empty_store-IsSound = new-SmInv small_config

three-InRange :
    All {A = ℕ × ℕ}
      (λ e. InRange Numbers e.0)
      ((log_id 1 0, 10) ∷ (log_id 1 1, 20) ∷ (log_id 1 2, 30) ∷ [])
three-InRange = (omega arith, (omega arith, (omega arith, tt)))

three_entries-IsSound : IsSound three_entries
three_entries-IsSound = Run-IsSound (served three_requests three-InRange idle) empty_store-IsSound

serve-IsSound_example : IsSound (serve (written (truncated 2)) three_entries)
serve-IsSound_example = serve-IsSound (written (truncated 2)) three_entries three_entries-IsSound tt

Run-IsSound_example :
    IsSound (serve (written (committed (log_id 1 1))) (serve three_requests empty_store))
Run-IsSound_example =
    Run-IsSound
      (served three_requests three-InRange (served (written (committed (log_id 1 1))) tt idle))
      empty_store-IsSound

abbrev first_record : RaftLogRecord Numbers
first_record = action (RaftLogAction.append (log_id 1 0) 10)

first_passes : StateMachine.check empty_store.state_machine first_record ≡ ok tt
unfolding StateMachine.check StateMachine.new State.check State.check_append State.default_state le
    option_ord
first_passes = refl

apply-SmInv_example :
    SmInv {T = Numbers}
      (StateMachine.apply first_record
        (record { offset = 0 })
        (record { offset = 0; size = 1 })
        empty_store.state_machine).0
apply-SmInv_example =
    apply-SmInv empty_store.state_machine first_record (record { offset = 0 })
      (record { offset = 0; size = 1 }) empty_store-IsSound (omega arith) first_passes

apply-check_example :
    (StateMachine.apply first_record
      (record { offset = 0 })
      (record { offset = 0; size = 1 })
      empty_store.state_machine).1
    ≡ StateMachine.check empty_store.state_machine first_record
apply-check_example =
    apply-check empty_store.state_machine first_record (record { offset = 0 })
      (record { offset = 0; size = 1 })

vote_refused :
    StateMachine.check stored.state_machine (action (RaftLogAction.save_vote 1))
    ≡ err (vote_reversal (record { current = 2; attempted = 1 }))
unfolding StateMachine.check State.check State.check_vote State.vote_at_least
vote_refused = refl

append_and_apply_refused_example :
    append_and_apply {T = Numbers} {W = InMemory} (action (RaftLogAction.save_vote 1)) stored
    ≡ (stored, err (invalid_input (vote_reversal (record { current = 2; attempted = 1 }))))
append_and_apply_refused_example =
    append_and_apply_refused (action (RaftLogAction.save_vote 1)) stored
      (vote_reversal (record { current = 2; attempted = 1 })) vote_refused

abbrev ten_times : ℕ → ℕ
ten_times id = (id % u64_mod + 1) * 10

stored-IsReadable :
    All {A = ℕ × LogData Numbers}
      (λ e. IsReadable InMemory ten_times stored.state_machine stored.wal e.1)
      stored_log
unfolding Cache.get BTreeMap.get u64_ord
stored-IsReadable = (inr (refl, refl), (inl refl, (inl refl, tt)))

read_items_example :
    (read 0 2 stored).1
    ≡ ok (
        map (λ e. item {T = Numbers} ten_times e.1) (keep (λ e. leb 0 e.0 && ltb e.0 2) stored_log))
read_items_example = read_items ten_times 0 2 stored (omega arith) stored-IsReadable

stored-LogInv : LogInv stored_log stored.state_machine.log_state
unfolding BTreeMap.last_key_value lt le option_ord u64_ord next_log_index
stored-LogInv = record {
  chain = (refl, (refl, refl), (refl, (refl, refl), (refl, tt, tt)));
  ends = λ l h. ground arith;
  above = ((refl, omega arith), ((refl, omega arith), ((refl, omega arith), tt)));
  ordered = record {
    purged_le = refl;
    purged_index = omega arith;
    committed_le = refl;
    purged_range = tt;
    last_range = omega arith;
  };
}

-- The checkpoint of a user that stores its data beside the log.
abbrev user_state : RaftLogState Numbers
user_state = record stored.state_machine.log_state {
  user_data = some 9;
  committed = some (log_id 1 1);
}

user_state-IsOrdered : IsOrdered user_state
unfolding le option_ord u64_ord next_log_index
user_state-IsOrdered = record {
  purged_le = refl;
  purged_index = omega arith;
  committed_le = refl;
  purged_range = tt;
  last_range = omega arith;
}

user_state_passes : StateMachine.check_checkpoint stored.state_machine user_state ≡ ok tt
unfolding StateMachine.check_checkpoint BTreeMap.last_key_value BTreeMap.first_key_value lt equal
    option_ord u64_ord next_log_index
user_state_passes = refl

check_checkpoint-LogInv_example : LogInv stored_log user_state
check_checkpoint-LogInv_example =
    check_checkpoint-LogInv stored.state_machine user_state stored-LogInv user_state-IsOrdered
      user_state_passes

serve-Extends_example :
    Extends three_entries.removed_chunks
      (serve (written (truncated 2)) three_entries).removed_chunks
serve-Extends_example = serve-Extends (written (truncated 2)) three_entries refl

-- The codecs.
abbrev an_append : RaftLogAction Numbers
an_append = RaftLogAction.append (log_id 1 6) 7

action_decode-encode_example :
    decode_action codecs ((encode_action codecs an_append []).0 ++ 8 ∷ 9 ∷ [])
    ≡ (8 ∷ 9 ∷ [], ok an_append)
action_decode-encode_example = action_decode-encode codecs-AreLawful an_append (8 ∷ 9 ∷ [])

state_decode-encode_example :
    decode_state codecs ((encode_state codecs busy_state []).0 ++ 8 ∷ 9 ∷ [])
    ≡ (8 ∷ 9 ∷ [], ok busy_state)
state_decode-encode_example = state_decode-encode codecs-AreLawful busy_state (8 ∷ 9 ∷ [])

action_encodes_example : encode_action codecs an_append (5 ∷ []) ≡ (
  5 ∷ action_bytes codecs-AreLawful an_append,
  ok (length (action_bytes codecs-AreLawful an_append) % u64_mod),
)
action_encodes_example = action_encodes codecs-AreLawful an_append (5 ∷ [])

-- A store that opens on two records.
abbrev two_records : List (RaftLogRecord Numbers)
two_records = record_of 0 10 ∷ record_of 1 20 ∷ []

abbrev config_of_two : Config (List (RaftLogRecord Numbers))
config_of_two = record small_config { wal = two_records }

abbrev steps_of_two : List (Opening Numbers)
steps_of_two =
    map (λ r. record_read r) (places 0 two_records)
    ++ chunk_synced (some (record (State.default_state {T = Numbers}) { last = some (log_id 1 1) }))
      ∷ []

abbrev opened_on_two : Store
opened_on_two = record {
  config = config_of_two;
  wal = two_records;
  state_machine = (run {T = Numbers} steps_of_two (StateMachine.new config_of_two)).0;
  removed_chunks = [];
  cache_hit = 0;
  cache_miss = 0;
}

two_opened : open_log {T = Numbers} {W = InMemory} config_of_two ≡ ok opened_on_two
unfolding open_log buffer_removable_chunks StateMachine.apply StateMachine.absorb StateMachine.new
    State.apply State.advance State.check State.check_append State.default_state le lt option_ord
    u64_ord next_log_index
two_opened = refl

two_replayed : Replays InMemory config_of_two (places 0 two_records)
unfolding StateMachine.check StateMachine.apply StateMachine.absorb StateMachine.new State.apply
    State.advance State.check State.check_append State.default_state le lt option_ord u64_ord
    next_log_index BTreeMap.insert Cache.new Cache.insert Cache.try_evict
two_replayed = record { steps = steps_of_two; order = refl; opened = ok two_records; runs = refl }

two-AllAdmissible : AllAdmissible two_replayed.steps (StateMachine.new config_of_two)
unfolding two_replayed StateMachine.check StateMachine.apply StateMachine.absorb StateMachine.new
    State.apply State.advance State.check State.check_append State.default_state le lt option_ord
    u64_ord next_log_index BTreeMap.insert Cache.new Cache.insert Cache.try_evict
two-AllAdmissible = (omega arith, (omega arith, (refl, tt)))

open_log-IsSound_example :
    Abreast
      (replay {T = Numbers} apply_record (places 0 two_records) (StateMachine.new config_of_two)).0
      opened_on_two.state_machine
    × IsSound opened_on_two
open_log-IsSound_example =
    open_log-IsSound config_of_two (places 0 two_records) opened_on_two two_replayed
      two-AllAdmissible two_opened
