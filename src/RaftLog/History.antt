-- ===== src/RaftLog/History.antt =====
-- A history of requests: what the store shows at its end is what the requests allow.
use raft_log.Prelude.{
  ℕ, ◌≤◌, ◌≡◌, ◌⊎◌, ◌∙◌, inl, inr, refl, ap, none, some, List, [], ◌∷◌, ◌++◌, keep, map, All2-keep,
  ok, arith, ltb, leb, ◌&&◌,
}
use raft_log.Prelude.Ord.{lt, le, u64_ord}
use raft_log.Types.{Types, next_log_index}
use raft_log.BTreeMap
use raft_log.State.{RaftLogAction, RaftLogRecord, action}
use raft_log.StateMachine.{LogData, Log}
use raft_log.Contents.{Entries, Shows, AllShown, effect, below, from_on}
use raft_log.Wal.{Wal}
use raft_log.Wal.Laws.{Chunked}
use raft_log.RaftLog.{
  RaftLog, save_user_data, save_vote, truncate, purge, commit, on_chunk_persisted, read, read_entry,
  read_entries, appended_payload,
}
use raft_log.RaftLog.Safe.{state_machine-read_entry}
use raft_log.RaftLog.Run.{
  Request, serve, serve_write, IsFair, written, user_data_saved, vote_saved, appended, truncated,
  purged, committed, flushed, state_updated, range_read, cache_drained, chunk_persisted,
}
use raft_log.RaftLog.Refines.{Ends-any, append_and_apply-Good}
use raft_log.RaftLog.Serves.{Holds, append-Appended, truncate-Ends, purge-Ends}
use raft_log.RaftLog.Kept.{
  IsSafe, still-Holds, update_state-Holds, flush-Holds, drain_cache_evictable-Holds,
  on_chunk_persisted-Holds, read-Holds, save_user_data-Holds,
}
use raft_log.RaftLog.Read.{read_ordered, in_bounds, in_range, wal-read_entry}

module _ {T : Types} {W : Wal T} where
  -- What a request may do to the entries, by the documentation of the writer: a batch appends its
  -- first entries, a truncation at an index keeps the entries below it, a purge keeps those after
  -- the log id, and both may fail and do nothing. No other request changes an entry.
  abbrev pub Allowed : Request T W → Entries T → Entries T → Type 0
  Allowed (written (appended entries)) es es' =
      (done : Entries T) × (rest : Entries T) × (entries ≡ done ++ rest) × (es' ≡ es ++ done)
  Allowed (written (truncated index)) es es' = (es' ≡ es) ⊎ (es' ≡ below T index es)
  Allowed (written (purged upto)) es es' =
      (es' ≡ es) ⊎ (es' ≡ from_on T (next_log_index T (some upto)) es)
  Allowed _ es es' = es' ≡ es

  abbrev pub serve_all : List (Request T W) → RaftLog T W → RaftLog T W
  serve_all [] rl = rl
  serve_all (q ∷ qs) rl = serve_all qs (serve q rl)

  -- Each request is fair and safe where it is served.
  abbrev pub AllSafe : List (Request T W) → RaftLog T W → Type 0
  AllSafe [] rl = Unit
  AllSafe (q ∷ qs) rl = IsFair q rl × IsSafe q rl × AllSafe qs (serve q rl)

  -- The entries at the end are reached by what each request allows in turn.
  abbrev pub AllAllowed : List (Request T W) → Entries T → Entries T → Type 0
  AllAllowed [] es end = end ≡ es
  AllAllowed (q ∷ qs) es end = (es' : Entries T) × Allowed q es es' × AllAllowed qs es' end

module _ {T : Types} {W : Wal T} (k : Chunked W) where
  pub serve-Allowed :
      (q : Request T W) (rl : RaftLog T W) (es : Entries T)
      → Holds k rl es
      → IsFair q rl
      → IsSafe q rl
      → (es' : Entries T) × Allowed q es es' × Holds k (serve q rl) es'
  unfolding serve serve_write on_chunk_persisted save_vote commit save_user_data effect
  serve-Allowed (written (appended entries)) rl es g f s =
      let a = append-Appended k entries rl es f s g in
      (es ++ a.done, (a.done, a.rest, a.split, refl), a.holds)
  serve-Allowed (written (truncated index)) rl es g f s =
      elim (Ends-any k es (below T index es) (truncate index rl) (truncate-Ends k index rl es g)) [
        | inl g' ↦ (es, inl refl, g')
        | inr g' ↦ (below T index es, inr refl, g')
      ]
  serve-Allowed (written (purged upto)) rl es g f s =
      let target = from_on T (next_log_index T (some upto)) es in
      elim (Ends-any k es target (purge upto rl) (purge-Ends k upto rl es f g)) [
        | inl g' ↦ (es, inl refl, g')
        | inr g' ↦ (target, inr refl, g')
      ]
  serve-Allowed (written (user_data_saved user_data)) rl es g f s =
      (es, refl, save_user_data-Holds k user_data rl es g)
  serve-Allowed (written (vote_saved vote)) rl es g f s =
      let rec : RaftLogRecord T = action (RaftLogAction.save_vote vote) in
      (es, refl, still-Holds k rec rl es refl (append_and_apply-Good k rec rl es tt tt g))
  serve-Allowed (written (committed id)) rl es g f s =
      let rec : RaftLogRecord T = action (RaftLogAction.commit id) in
      (es, refl, still-Holds k rec rl es refl (append_and_apply-Good k rec rl es tt tt g))
  serve-Allowed (written (flushed sync callback)) rl es g f s =
      (es, refl, flush-Holds k sync callback rl es g)
  serve-Allowed (state_updated state) rl es g f s = (es, refl, update_state-Holds k state rl es f g)
  serve-Allowed (range_read from to) rl es g f s = (es, refl, read-Holds k from to rl es g)
  serve-Allowed cache_drained rl es g f s = (es, refl, drain_cache_evictable-Holds k rl es g)
  serve-Allowed (chunk_persisted none) rl es g f s = (es, refl, g)
  serve-Allowed (chunk_persisted (some state)) rl es g f s =
      (es, refl, on_chunk_persisted-Holds k state rl es f s g)

  -- If the WAL satisfies the laws `Chunked` on its chunks and a store shows a list of entries, then
  -- after any list of requests, each fair and safe where it is served, it shows a list that is
  -- reached from the first one by what each request allows in turn: a batch appends its first
  -- entries, a truncation at an index keeps those below it or does nothing, a purge keeps those
  -- after its log id or does nothing, and any other request leaves them. A store shows a list if
  -- its log map has the same log ids, each payload is in the cache or else evictable, an evictable
  -- payload can be loaded from the WAL, the invariant of the state machine holds, and every entry
  -- lies in a chunk that does not wait to be removed. A request is fair as `IsFair` says; it is
  -- safe if what it appends has log ids above the eviction boundary, and if what the boundary of a
  -- persisted chunk makes evictable can be loaded.
  pub serve_all-Allowed :
      (qs : List (Request T W)) (rl : RaftLog T W) (es : Entries T)
      → Holds k rl es
      → AllSafe qs rl
      → (end : Entries T) × AllAllowed qs es end × Holds k (serve_all qs rl) end
  serve_all-Allowed [] rl es g s = (es, refl, g)
  serve_all-Allowed (q ∷ qs) rl es g s =
      let (es', allowed, g') = serve-Allowed q rl es g s.0 s.1 in
      let (end, all, g'') = serve_all-Allowed qs (serve q rl) es' g' s.2 in
      (end, (es', allowed, all), g'')

module _ {T : Types} {W : Wal T} where
  read_entry-shown :
      (e : ℕ × LogData T) (a : T.LogId × T.LogPayload) (rl : RaftLog T W)
      → Shows T (W.load_record rl.wal) rl.state_machine.payload_cache e a
      → (read_entry e.1 rl).1 ≡ ok a
  unfolding read_entry appended_payload
  read_entry-shown e a rl s = ground (arith, s.same, s.found, s.stored)

  -- Reading the entries of the map, one after the other.
  read_entries-shown :
      (log : Log T) (es : Entries T) (rl : RaftLog T W)
      → AllShown T (W.load_record rl.wal) rl.state_machine.payload_cache log es
      → (read_entries (BTreeMap.values log) rl).1 ≡ map (λ a. ok a) es
  unfolding read_entries
  read_entries-shown [] [] rl h = refl
  read_entries-shown [] (a ∷ es) rl h = absurd h
  read_entries-shown (e ∷ log) [] rl h = absurd h
  read_entries-shown (e ∷ log) (a ∷ es) rl h = ground (
    arith,
    read_entry-shown e a rl h.0,
    read_entries-shown log es (read_entry e.1 rl).0
        (rw (state_machine-read_entry e.1 rl, wal-read_entry e.1 rl) h.1),
  )

  -- What is read is what the log map and the cache show.
  pub read-AllShown :
      (from to : ℕ) (rl : RaftLog T W) (es : Entries T)
      → from ≤ to
      → AllShown T (W.load_record rl.wal) rl.state_machine.payload_cache rl.state_machine.log es
      → (read from to rl).1
        ≡ ok (
            map (λ a. ok a) (keep (λ a. leb from (T.log_index a.0) && ltb (T.log_index a.0) to) es))
  read-AllShown from to rl es h shown =
      let kept =
        All2-keep (Shows T (W.load_record rl.wal) rl.state_machine.payload_cache)
          (in_bounds from to) (λ a. leb from (T.log_index a.0) && ltb (T.log_index a.0) to)
          (λ e a s.
            ap (λ i. le u64_ord from i && lt u64_ord i to) s.index
            ∙ in_range from to (T.log_index a.0))
          rl.state_machine.log es shown in
      ap (λ r. r.1) (read_ordered from to rl h)
      ∙ ap ok (read_entries-shown (keep (in_bounds from to) rl.state_machine.log) _ rl kept)

module _ {T : Types} {W : Wal T} (k : Chunked W) where
  -- If the WAL satisfies the laws `Chunked` on its chunks, a store shows a list of entries, and
  -- `from` is at most `to`, then `read` gives exactly the entries of the list with an index in
  -- `from..to`, in order, each with its payload and without an error, wherever the payloads are.
  pub read-shown :
      (from to : ℕ) (rl : RaftLog T W) (es : Entries T)
      → from ≤ to
      → Holds k rl es
      → (read from to rl).1
        ≡ ok (
            map (λ a. ok a) (keep (λ a. leb from (T.log_index a.0) && ltb (T.log_index a.0) to) es))
  read-shown from to rl es h g = read-AllShown from to rl es h g.shown
