-- ===== src/Dump/Iter.antt =====
-- The iterator of a dump ends, and what it yields.
use mathlib.Core.List.{append_assoc}
use raft_log.Prelude.{
  Bool-cases, Outcome-cases, if◌then◌else◌, ℕ, zero, suc, ◌+◌, ◌%◌, ◌<◌, ◌≡◌, ◌∙◌, ◌⊎◌, inl, inr,
  refl, sym, ap, none, some, List, [], ◌∷◌, ◌++◌, length, length-append, map, ok, arith,
  Option-cases, All, All-imp, length-All2, ◌≢◌,
}
use raft_log.Types.{Types, u64_mod, ChunkId, Segment}
use raft_log.BTreeMap
use raft_log.BTreeMap.{BTreeMap, values}
use raft_log.State.{RaftLogAction, RaftLogRecord, action}
use raft_log.Cache
use raft_log.StateMachine.{LogData, Log}
use raft_log.Contents.{Entries, Load, Shows, AllShown}
use raft_log.Wal.{Wal}
use raft_log.Wal.Laws.{Chunked}
use raft_log.RaftLog.{RaftLog, appended_payload, is_panic}
use raft_log.RaftLog.Serves.{Holds}
use raft_log.RaftLog.Read.{Unwound, Unwound-more}
use raft_log.Dump.{
  DumpRaftLog, DumpRaftLogIter, Item, get_elem?, dump_data, iter, read_log_payload, next_entry,
  next, collect,
}

get_elem?-append :
    {A : Type 0} (pre rest : List A) (a : A) → get_elem? (pre ++ a ∷ rest) (length pre) ≡ some a
get_elem?-append [] rest a = refl
get_elem?-append (x ∷ pre) rest a = get_elem?-append pre rest a

length-values : {K A : Type 0} (m : BTreeMap K A) → length (values m) ≡ length m
length-values [] = refl
length-values (e ∷ m) = ap suc (length-values m)

module _ {T : Types} where
  next_entry-keeps :
      (d : LogData T) (it : DumpRaftLogIter T)
      → ((next_entry d it).0.dump.cache ≡ it.dump.cache)
        × ((next_entry d it).0.dump.record_reader ≡ it.dump.record_reader)
  unfolding next_entry
  next_entry-keeps d it = (ground arith, ground arith)

  -- The iterator stands before the entries `rest`.
  record Stands (it : DumpRaftLogIter T) (pre rest : List (LogData T)) : Type 0 where
    split : it.dump.logs ≡ pre ++ rest
    at : it.i ≡ length pre
    fits : length it.dump.logs < u64_mod

  -- What the calls of `next` on the entries come to.
  walk : List (LogData T) → DumpRaftLogIter T → DumpRaftLogIter T × List (Item T)
  walk [] it = (it, [])
  walk (d ∷ ds) it =
      let (it', x) = next_entry d it in
      let (it'', xs) = walk ds it' in if is_panic x then (it', x ∷ []) else (it'', x ∷ xs)

  next_entry-Stands :
      (it : DumpRaftLogIter T) (pre : List (LogData T)) (d : LogData T) (rest : List (LogData T))
      → Stands it pre (d ∷ rest)
      → Stands (next_entry d it).0 (pre ++ d ∷ []) rest
  unfolding next_entry
  next_entry-Stands it pre d rest a =
      let long = length-append pre (d ∷ rest) in
      let short = length-append pre (d ∷ []) in
      let whole = ap length a.split in
      elim (Option-cases (BTreeMap.get T.log_id_ord d.log_id it.dump.cache)) [
        | inl n ↦
            rw (n, next_entry)
              (record {
                split = a.split ∙ sym (append_assoc pre (d ∷ []) rest);
                at = omega (arith, a.at, a.fits, long, short, whole);
                fits = a.fits;
              })
        | inr (p, n) ↦
            rw (n, next_entry)
              (record {
                split = a.split ∙ sym (append_assoc pre (d ∷ []) rest);
                at = omega (arith, a.at, a.fits, long, short, whole);
                fits = a.fits;
              })
      ]

  next_at_end :
      (it : DumpRaftLogIter T) (pre : List (LogData T)) → Stands it pre [] → next it ≡ (it, none)
  unfolding next
  next_at_end it pre a =
      let long = length-append pre [] in
      let whole = ap length a.split in ground (arith, a.at, long, whole)

  next_at_entry :
      (it : DumpRaftLogIter T) (pre : List (LogData T)) (d : LogData T) (rest : List (LogData T))
      → Stands it pre (d ∷ rest)
      → next it ≡ ((next_entry d it).0, some (next_entry d it).1)
  unfolding next
  next_at_entry it pre d rest a =
      let long = length-append pre (d ∷ rest) in
      let whole = ap length a.split in
      let found : get_elem? it.dump.logs it.i ≡ some d =
        rw (a.split, a.at) (get_elem?-append pre rest d) in
      ground (arith, a.at, long, whole, found)

  collect-walk :
      (fuel : ℕ) (it : DumpRaftLogIter T) (pre rest : List (LogData T))
      → length rest < fuel
      → Stands it pre rest
      → collect fuel it ≡ ((walk rest it).0, some (walk rest it).1)
  unfolding collect walk
  collect-walk zero it pre rest h a = absurd (omega (arith, h))
  collect-walk (suc fuel) it pre [] h a = ground (arith, next_at_end it pre a)
  collect-walk (suc fuel) it pre (d ∷ rest) h a = ground (
    arith,
    next_at_entry it pre d rest a,
    collect-walk fuel (next_entry d it).0 (pre ++ d ∷ []) rest (omega (arith, h))
        (next_entry-Stands it pre d rest a),
  )

  walk_counted :
      (ds : List (LogData T)) (it : DumpRaftLogIter T)
      → ((walk ds it).0.dump.cache_hit + (walk ds it).0.dump.cache_miss) % u64_mod
        ≡ (it.dump.cache_hit + it.dump.cache_miss + length (walk ds it).1) % u64_mod
  unfolding walk next_entry
  walk_counted [] it = omega arith
  walk_counted (d ∷ ds) it =
      let rest = walk_counted ds (next_entry d it).0 in
      elim (Bool-cases (is_panic (next_entry d it).1)) [
        | inl p ↦ ground (arith, p)
        | inr p ↦ ground (arith, p, rest)
      ]

  walk_ended :
      (ds : List (LogData T)) (it : DumpRaftLogIter T)
      → (length (walk ds it).1 ≡ length ds) ⊎ Unwound (walk ds it).1
  unfolding walk
  walk_ended [] it = inl refl
  walk_ended (d ∷ ds) it = elim (Outcome-cases (next_entry d it).1) [
    | inl (a, n) ↦ elim (walk_ended ds (next_entry d it).0) [
      | inl h ↦ inl (ground (arith, n, h))
      | inr u ↦ inr (ground (arith, n, Unwound-more (next_entry d it).1 _ u))
    ]
    | inr (inl (x, n)) ↦ elim (walk_ended ds (next_entry d it).0) [
      | inl h ↦ inl (ground (arith, n, h))
      | inr u ↦ inr (ground (arith, n, Unwound-more (next_entry d it).1 _ u))
    ]
    | inr (inr n) ↦ inr (rw n (record { front = []; split = refl }))
  ]

  -- If a dump has fewer entries than the fuel and 2^64, a loop over its iterator ends, whatever can
  -- be read: after as many items as it has entries, or with a panic as its last item. Its two
  -- counters have grown together by the number of items, modulo 2^64.
  pub collect_ends :
      (fuel : ℕ) (dump : DumpRaftLog T)
      → length dump.logs < fuel
      → length dump.logs < u64_mod
      → (items : List (Item T)) × ((collect fuel (iter dump)).1 ≡ some items)
        × (((collect fuel (iter dump)).0.dump.cache_hit
                + (collect fuel (iter dump)).0.dump.cache_miss)
              % u64_mod
            ≡ (dump.cache_hit + dump.cache_miss + length items) % u64_mod)
        × ((length items ≡ length dump.logs) ⊎ Unwound items)
  unfolding iter
  collect_ends fuel dump h f =
      let walked =
        collect-walk fuel (record { i = 0; dump = dump }) [] dump.logs h
          (record { split = refl; at = refl; fits = f }) in
      let counted = walk_counted dump.logs (record { i = 0; dump = dump }) in
      (
        (walk dump.logs (record { i = 0; dump = dump })).1,
        ap (λ r. r.1) walked,
        rw walked counted,
        walk_ended dump.logs (record { i = 0; dump = dump }),
      )

  next_entry-read :
      (e : ℕ × LogData T) (a : T.LogId × T.LogPayload) (it : DumpRaftLogIter T)
      → e.1.log_id ≡ a.0
      → (BTreeMap.get T.log_id_ord a.0 it.dump.cache ≡ some a.1)
        ⊎ ((BTreeMap.get T.log_id_ord a.0 it.dump.cache ≡ none)
            × (it.dump.record_reader e.1.chunk_id e.1.record_segment
                ≡ ok (action (RaftLogAction.append a.0 a.1))))
      → (next_entry e.1 it).1 ≡ ok a
  unfolding next_entry read_log_payload appended_payload
  next_entry-read e a it same (inl h) = ground (arith, same, h)
  next_entry-read e a it same (inr (h, r)) = ground (arith, same, h, r)

  -- What is not in the cache can be read from the closed chunks.
  abbrev pub Readable : Load T → Load T → BTreeMap T.LogId T.LogPayload → LogData T → Type 0
  Readable load reader cache d =
      BTreeMap.get T.log_id_ord d.log_id cache ≡ none
      → (r : RaftLogRecord T) → load d.chunk_id d.record_segment ≡ ok r
      → reader d.chunk_id d.record_segment ≡ ok r

  next_entry-shown :
      (load : Load T) (c : Cache.PayloadCache T) (e : ℕ × LogData T) (a : T.LogId × T.LogPayload)
      (it : DumpRaftLogIter T)
      → it.dump.cache ≡ c.cache
      → Readable load it.dump.record_reader c.cache e.1
      → Shows T load c e a
      → (next_entry e.1 it).1 ≡ ok a
  unfolding Cache.get
  next_entry-shown load c e a it same reads s = next_entry-read e a it s.same (
      rw same
        (elim s.found [ inl h ↦ inl h | inr (h, v) ↦ inr (h, reads (rw s.same h) _ (s.stored v)) ]))

  walk-shown :
      (load : Load T) (c : Cache.PayloadCache T) (log : Log T) (es : Entries T)
      (it : DumpRaftLogIter T)
      → it.dump.cache ≡ c.cache
      → All (λ e. Readable load it.dump.record_reader c.cache e.1) log
      → AllShown T load c log es
      → (walk (values log) it).1 ≡ map (λ a. ok a) es
  unfolding walk
  walk-shown load c [] [] it same reads s = refl
  walk-shown load c [] (a ∷ es) it same reads s = absurd s
  walk-shown load c (e ∷ log) [] it same reads s = absurd s
  walk-shown load c (e ∷ log) (a ∷ es) it same reads s =
      let it' = (next_entry e.1 it).0 in
      let (cache, reader) = next_entry-keeps e.1 it in
      cc (
        next_entry-shown load c e a it same reads.0 s.0,
        walk-shown load c log es it' (cache ∙ same) (rw reader reads.1) s.1,
      )

module _ {T : Types} {W : Wal T} (k : Chunked W) where
  -- The reader of closed chunks reads what the WAL can load from any chunk but the open one.
  abbrev pub ReadsClosed : (W.Store → Load T) → Type 0
  ReadsClosed reader =
      (w : W.Store) (c : ChunkId) (s : Segment) (r : RaftLogRecord T)
      → c ≢ W.open_chunk_id w
      → W.load_record w c s ≡ ok r
      → reader w c s ≡ ok r

  -- Nothing of the open chunk has been evicted.
  abbrev pub OpenIsCached : RaftLog T W → Type 0
  OpenIsCached rl =
      All
        (λ e.
          BTreeMap.get T.log_id_ord e.1.log_id rl.state_machine.payload_cache.cache ≡ none
          → e.1.chunk_id ≢ W.open_chunk_id rl.wal)
        rl.state_machine.log

  -- If the WAL satisfies the laws `Chunked` on its chunks, a store shows a list of entries, no
  -- entry of the open chunk has been evicted, the reader of closed chunks reads what the WAL can
  -- load from any chunk but the open one, and the entries are fewer than the fuel and 2^64, then
  -- the iterator of the store's dump yields exactly these entries, in order, each with its payload
  -- and without an error, and then ends.
  pub dump-shown :
      (reader : W.Store → Load T) (fuel : ℕ) (rl : RaftLog T W) (es : Entries T)
      → ReadsClosed reader
      → OpenIsCached rl
      → Holds k rl es
      → length es < fuel
      → length es < u64_mod
      → (collect fuel (iter (dump_data reader rl))).1 ≡ some (map (λ a. ok a) es)
  unfolding iter dump_data
  dump-shown reader fuel rl es reads cached g short fits =
      let c = rl.state_machine.payload_cache in
      let log = rl.state_machine.log in
      let dump = dump_data reader rl in
      let same : length (values log) ≡ length es =
        length-values log ∙ length-All2 _ log es g.shown in
      let walked =
        collect-walk fuel (record { i = 0; dump = dump }) [] (values log)
          (omega (arith, same, short))
          (record { split = refl; at = refl; fits = omega (arith, same, fits) }) in
      let shown =
        walk-shown (W.load_record rl.wal) c log es (record { i = 0; dump = dump }) refl
          (All-imp (λ e h n r l. reads rl.wal e.1.chunk_id e.1.record_segment r (h n) l) log cached)
          g.shown in
      ap (λ r. r.1) walked ∙ ap some shown
