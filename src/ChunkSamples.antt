-- ===== src/ChunkSamples.antt =====
-- A WAL in memory that closes a chunk after three records, with its chunks' laws.
use raft_log.Prelude.{
  ap, ℕ, ◌+◌, ◌-◌, ◌≡◌, ◌⊎◌, inl, inr, refl, Option, none, some, Bool, true, ◌&&◌, List, [], ◌∷◌,
  ◌++◌, keep, All, Outcome, ok, err, Method, Bool-cases, arith, ltb, ◌==◌, if◌then◌else◌, ◌>>◌,
  settle,
}
use raft_log.Types.{ChunkId, Segment}
use raft_log.Errors.{IoError, other}
use raft_log.State.{RaftLogState, RaftLogRecord, checkpoint}
use raft_log.Wal.{Wal}
use raft_log.Wal.Laws.{Chunked, SameChunks, ChunkClosed, After, ids_of}
use raft_log.RaftLog.Open.{Stored, Apply}
use raft_log.StateMachine.{RaftLogStateMachine}
use raft_log.RaftLog.Recorded.{Traced}
use raft_log.Samples.{Numbers}

abbrev pub Rec : Type 0
Rec = RaftLogRecord Numbers

abbrev pub State : Type 0
State = RaftLogState Numbers

-- A record with the offsets of its chunk and of itself.
pub record Kept : Type 0 where
  pub chunk : ℕ
  pub offset : ℕ
  pub rec : Rec

pub record ChunkStore : Type 0 where
  pub chunks : List (ChunkId × State)
  pub open_offset : ℕ
  pub next : ℕ
  pub kept : List Kept
  pub written : List (Stored Numbers)

abbrev pub find : ℕ → ℕ → List Kept → Outcome (IoError Numbers) Rec
find c s [] = err (other "no such record")
find c s (r ∷ rs) = if (r.chunk == c) && (r.offset == s) then ok r.rec else find c s rs

abbrev pub take_while : (State → Bool) → List (ChunkId × State) → List (ChunkId × State)
take_while p [] = []
take_while p (x ∷ xs) = let rest = take_while p xs in if p x.1 then x ∷ rest else []

abbrev pub drop_while : (State → Bool) → List (ChunkId × State) → List (ChunkId × State)
drop_while p [] = []
drop_while p (x ∷ xs) = let rest = drop_while p xs in if p x.1 then rest else x ∷ xs

abbrev pub is_after : List ChunkId → ℕ → Bool
is_after [] n = true
is_after (c ∷ cs) n = ltb c.offset n && is_after cs n

-- A record with its place, the `n`th of all.
abbrev pub placed : ℕ → ℕ → Rec → Stored Numbers
placed chunk n rec = record {
  rec = rec;
  chunk_id = record { offset = chunk };
  segment = record { offset = n; size = 1 };
}

-- The next chunk begins with a checkpoint.
abbrev pub close_chunk : State → Method (IoError Numbers) ChunkStore (Option ChunkId)
close_chunk st w =
    if ltb 2 (w.next - w.open_offset)
    then (
      record {
        chunks = w.chunks ++ (record { offset = w.open_offset }, st) ∷ [];
        open_offset = w.next;
        next = w.next + 1;
        kept = w.kept ++ record { chunk = w.next; offset = w.next; rec = checkpoint st } ∷ [];
        written = w.written ++ placed w.next w.next (checkpoint st) ∷ [];
      },
      ok (some (record { offset = w.open_offset })),
    )
    else (w, ok none)

abbrev pub first_offset : List (Stored Numbers) → ℕ
first_offset [] = 0
first_offset (r ∷ rs) = r.chunk_id.offset

abbrev pub kept_of : Stored Numbers → Kept
kept_of r = record { chunk = r.chunk_id.offset; offset = r.segment.offset; rec = r.rec }

-- The store with a record more, which the WAL has read from a file.
abbrev pub with_read : Stored Numbers → ChunkStore → ChunkStore
with_read r w = record w {
  next = r.segment.offset + 1;
  kept = w.kept ++ kept_of r ∷ [];
  written = w.written ++ r ∷ [];
}

-- The chunk that was open ends, and another one is read.
abbrev pub next_chunk : ℕ → State → ChunkStore → ChunkStore
next_chunk offset st w = record w {
  chunks = w.chunks ++ (record { offset = w.open_offset }, st) ∷ [];
  open_offset = offset;
}

-- The files are read in order. A chunk ends with the state that was reached, and is synced when the
-- next one begins.
abbrev pub read_all :
    List (Stored Numbers)
    → Apply Numbers
    → (Option State → RaftLogStateMachine Numbers → RaftLogStateMachine Numbers)
    → ChunkStore
    → Method (IoError Numbers) (RaftLogStateMachine Numbers) ChunkStore
read_all [] f g w sm = settle (ok w) sm
read_all (r ∷ rs) f g w sm =
    let same = r.chunk_id.offset == w.open_offset in
    let w' = if same then w else next_chunk r.chunk_id.offset sm.log_state w in
    let sm' = if same then sm else g (some sm.log_state) sm in
    (f r.rec r.chunk_id r.segment >> read_all rs f g (with_read r w')) sm'

abbrev pub unread : ℕ → ChunkStore
unread offset = record { chunks = []; open_offset = offset; next = offset; kept = []; written = [] }

abbrev pub InChunks : Wal Numbers
InChunks = record {
  Store = ChunkStore;
  WalConfig = List (Stored Numbers);
  Callback = Unit;
  append = λ r w. (
    record w {
      next = w.next + 1;
      kept = w.kept ++ record { chunk = w.open_offset; offset = w.next; rec = r } ∷ [];
      written = w.written ++ placed w.open_offset w.next r ∷ [];
    },
    ok tt,
  );
  open_chunk_id = λ w. record { offset = w.open_offset };
  last_segment = λ w. record { offset = w.next - 1; size = 1 };
  try_close_full_chunk = close_chunk;
  drain_closed_chunks_while =
      λ p w. (record w { chunks = drop_while p w.chunks }, ids_of (take_while p w.chunks));
  send_pending = λ sync callback w. (w, ok tt);
  send_remove_chunks = λ cs w. (record w { kept = keep (λ r. is_after cs r.chunk) w.kept }, ok tt);
  load_record = λ w c s. find c.offset s.offset w.kept;
  on_disk_size = λ w. w.next;
  open_wal = λ rs f g. read_all rs f g (unread (first_offset rs));
}

pub find-append :
    (c s : ℕ) (rs qs : List Kept) (r : Rec) → find c s rs ≡ ok r → find c s (rs ++ qs) ≡ ok r
find-append c s [] qs r h = absurd (ground (arith, h))
find-append c s (x ∷ rs) qs r h = ground (arith, h, find-append c s rs qs r)

pub find-keep :
    (c s : ℕ) (q : ℕ → Bool) (rs : List Kept)
    → q c ≡ true
    → find c s (keep (λ r. q r.chunk) rs) ≡ find c s rs
unfolding keep
find-keep c s q [] h = refl
find-keep c s q (x ∷ rs) h = elim (Bool-cases (x.chunk == c)) [
  | inl e ↦
      let same : x.chunk ≡ c = ground (arith, e) in
      let holds : q x.chunk ≡ true = rw same h in ground (arith, holds, e, find-keep c s q rs h)
  | inr e ↦ ground (arith, e, find-keep c s q rs h)
]

pub is_after-After : (cs : List ChunkId) (c : ChunkId) → After cs c → is_after cs c.offset ≡ true
is_after-After [] c a = refl
is_after-After (x ∷ cs) c a = ground (arith, a.0, is_after-After cs c a.1)

pub split_while :
    (p : State → Bool) (xs : List (ChunkId × State)) → xs ≡ take_while p xs ++ drop_while p xs
split_while p [] = refl
split_while p (x ∷ xs) = ground (arith, split_while p xs)

pub pass_while :
    (p : State → Bool) (xs : List (ChunkId × State)) → All (λ x. p x.1 ≡ true) (take_while p xs)
pass_while p [] = tt
pass_while p (x ∷ xs) = elim (Bool-cases (p x.1)) [
  | inl h ↦ rw h (h, pass_while p xs)
  | inr h ↦ rw h tt
]

pub close_law :
    (st : State) (w : ChunkStore)
    → SameChunks InChunks (λ w. w.chunks) (λ c. Unit) w (close_chunk st w).0
      ⊎ ChunkClosed InChunks (λ w. w.chunks) st w (close_chunk st w).0
close_law st w = elim (Bool-cases (ltb 2 (w.next - w.open_offset))) [
  | inl h ↦ inr (record {
    adds = ground (arith, h);
    opens = ground (arith, h);
    loads = λ c s r u l. rw h (find-append c.offset s.offset w.kept _ r l);
  })
  | inr h ↦ inl (record {
    same_closed = ground (arith, h);
    same_open = ground (arith, h);
    loads = λ c s r u l. ground (arith, h, l);
  })
]

abbrev pub chunk_laws : Chunked InChunks
chunk_laws = record {
  closed = λ w. w.chunks;
  append_step = λ rec w. record {
    same_closed = refl;
    same_open = refl;
    loads = λ c s r u l. find-append c.offset s.offset w.kept _ r l;
  };
  close_step = close_law;
  drain_step = λ p w. record {
    taken = take_while p w.chunks;
    splits = split_while p w.chunks;
    names = refl;
    pass = pass_while p w.chunks;
    same_open = refl;
    loads = λ c s r u l. l;
  };
  send_step =
      λ sync callback w. record { same_closed = refl; same_open = refl; loads = λ c s r u l. l };
  remove_step = λ cs w. record {
    same_closed = refl;
    same_open = refl;
    loads = λ c s r a l.
        rw (find-keep c.offset s.offset (is_after cs) w.kept (is_after-After cs c a)) l;
  };
}

pub close_trace :
    (st : State) (w : ChunkStore)
    → ((close_chunk st w).0.written ≡ w.written)
      ⊎ ((c : ChunkId) × (s : Segment) × ((close_chunk st w).0.written
            ≡ w.written ++ record { rec = checkpoint st; chunk_id = c; segment = s } ∷ []))
close_trace st w = elim (Bool-cases (ltb 2 (w.next - w.open_offset))) [
  | inl h ↦
      inr (record { offset = w.next }, record { offset = w.next; size = 1 }, ground (arith, h))
  | inr h ↦ inl (ground (arith, h))
]

pub last_place : (n : ℕ) → n ≡ n + 1 - 1
last_place n = omega arith

abbrev pub chunk_trace : Traced InChunks
chunk_trace = record {
  trace = λ w. w.written;
  append_traced =
      λ rec w h. ap (λ n. w.written ++ placed w.open_offset n rec ∷ []) (last_place w.next);
  append_failed = λ rec w h. absurd (h refl);
  close_traced = close_trace;
  drain_traced = λ p w. refl;
  send_traced = λ sync callback w. refl;
  remove_traced = λ chunks w. refl;
}
