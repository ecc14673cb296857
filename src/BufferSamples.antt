-- ===== src/BufferSamples.antt =====
-- A WAL in memory of which a crash leaves the first records alone: a request to sync notes how many
-- there are, and the worker syncs those when the caller waits for it.
use raft_log.Prelude.{
  ℕ, ◌≡◌, refl, ap, zero, suc, inl, inr, some, List, [], ◌∷◌, ◌++◌, ok, if◌then◌else◌, ◌>>=◌,
  return, length, Method,
}
use raft_log.Errors.{IoError}
use raft_log.State.{RaftLogState}
use raft_log.Wal.{Wal}
use raft_log.Wal.Laws.{Chunked}
use raft_log.RaftLog.Open.{Stored}
use raft_log.RaftLog.Recorded.{Traced}
use raft_log.RaftLog.Blocking.{Channel}
use raft_log.RaftLog.Durable.{Begins, Begins-self, Syncs}
use raft_log.Samples.{Numbers}
use raft_log.ChunkSamples.{
  ChunkStore, InChunks, chunk_laws, chunk_trace, read_all, unread, first_offset, close_chunk,
}

pub record Buffered : Type 0 where
  pub inner : ChunkStore
  pub asked : ℕ
  pub synced : ℕ

abbrev pub first_of : ℕ → List (Stored Numbers) → List (Stored Numbers)
first_of zero rs = []
first_of (suc n) [] = []
first_of (suc n) (r ∷ rs) = r ∷ first_of n rs

-- A call on the WAL inside.
abbrev inside :
    {A : Type 0} → Method (IoError Numbers) ChunkStore A → Method (IoError Numbers) Buffered A
inside m b = let (w, r) = m b.inner in (record b { inner = w }, r)

abbrev pub InBuffers : Wal Numbers
InBuffers = record {
  Store = Buffered;
  WalConfig = List (Stored Numbers);
  Callback = Unit;
  append = λ r. inside (InChunks.append r);
  open_chunk_id = λ b. InChunks.open_chunk_id b.inner;
  last_segment = λ b. InChunks.last_segment b.inner;
  try_close_full_chunk = λ st. inside (close_chunk st);
  drain_closed_chunks_while = λ p b.
      let (w, ids) = InChunks.drain_closed_chunks_while p b.inner in (record b { inner = w }, ids);
  send_pending = λ sync callback b.
      (record b { asked = if sync then length b.inner.written else b.asked }, ok tt);
  send_remove_chunks = λ cs. inside (InChunks.send_remove_chunks cs);
  load_record = λ b. InChunks.load_record b.inner;
  on_disk_size = λ b. InChunks.on_disk_size b.inner;
  open_wal = λ rs f g. read_all rs f g (unread (first_offset rs)) >>= λ w.
      return (record { inner = w; asked = 0; synced = length rs });
}

abbrev pub buffer_channel : Channel InBuffers
buffer_channel = record { tx = tt; recv = λ b. (record b { synced = b.asked }, some (ok tt)) }

abbrev pub buffer_laws : Chunked InBuffers
buffer_laws = record {
  closed = λ b. b.inner.chunks;
  append_step = λ rec b.
      let s = chunk_laws.append_step rec b.inner in
      record { same_closed = s.same_closed; same_open = s.same_open; loads = s.loads };
  close_step = λ state b. elim (chunk_laws.close_step state b.inner) [
    | inl s ↦ inl (record { same_closed = s.same_closed; same_open = s.same_open; loads = s.loads })
    | inr s ↦ inr (record { adds = s.adds; opens = s.opens; loads = s.loads })
  ];
  drain_step = λ p b.
      let s = chunk_laws.drain_step p b.inner in
      record {
        taken = s.taken;
        splits = s.splits;
        names = s.names;
        pass = s.pass;
        same_open = s.same_open;
        loads = s.loads;
      };
  send_step =
      λ sync callback b. record { same_closed = refl; same_open = refl; loads = λ c s r u l. l };
  remove_step = λ cs b.
      let s = chunk_laws.remove_step cs b.inner in
      record { same_closed = s.same_closed; same_open = s.same_open; loads = s.loads };
}

abbrev pub buffer_trace : Traced InBuffers
buffer_trace = record {
  trace = λ b. b.inner.written;
  append_traced = λ rec b h. chunk_trace.append_traced rec b.inner h;
  append_failed = λ rec b h. absurd (h refl);
  close_traced = λ state b. chunk_trace.close_traced state b.inner;
  drain_traced = λ p b. refl;
  send_traced = λ sync callback b. refl;
  remove_traced = λ chunks b. refl;
}

pub first_of-Begins : (n : ℕ) (rs : List (Stored Numbers)) → Begins (first_of n rs) rs
first_of-Begins zero rs = record { more = rs; split = refl }
first_of-Begins (suc n) [] = record { more = []; split = refl }
first_of-Begins (suc n) (r ∷ rs) =
    let b = first_of-Begins n rs in record { more = b.more; split = ap (λ l. r ∷ l) b.split }

pub first_of-length : (rs : List (Stored Numbers)) → first_of (length rs) rs ≡ rs
first_of-length [] = refl
first_of-length (r ∷ rs) = ap (λ l. r ∷ l) (first_of-length rs)

pub first_of-append :
    (n : ℕ) (rs qs : List (Stored Numbers)) → Begins (first_of n rs) (first_of n (rs ++ qs))
first_of-append zero rs qs = record { more = []; split = refl }
first_of-append (suc n) [] qs = record { more = first_of (suc n) qs; split = refl }
first_of-append (suc n) (r ∷ rs) qs =
    let b = first_of-append n rs qs in record { more = b.more; split = ap (λ l. r ∷ l) b.split }

pub close_grows :
    (state : RaftLogState Numbers) (n : ℕ) (w : ChunkStore)
    → Begins (first_of n w.written) (first_of n (close_chunk state w).0.written)
close_grows state n w = elim (chunk_trace.close_traced state w) [
  | inl same ↦ rw same (Begins-self (first_of n w.written))
  | inr (c, s, more) ↦ rw more (first_of-append n w.written _)
]

abbrev pub buffer_syncs : Syncs buffer_laws buffer_trace buffer_channel
buffer_syncs = record {
  durable = λ b. first_of b.synced b.inner.written;
  asked = λ b. first_of b.asked b.inner.written;
  durable_begins = λ b. first_of-Begins b.synced b.inner.written;
  send_asks = λ b h. first_of-length b.inner.written;
  remove_asks = λ chunks b. refl;
  recv_traced = λ b. refl;
  recv_synced = λ b h. Begins-self (first_of b.asked b.inner.written);
  recv_step = λ b. record { same_closed = refl; same_open = refl; loads = λ c s r u l. l };
  append_keeps = λ rec b. first_of-append b.synced b.inner.written _;
  close_keeps = λ state b. close_grows state b.synced b.inner;
  drain_keeps = λ p b. Begins-self (first_of b.synced b.inner.written);
  send_keeps = λ sync callback b. Begins-self (first_of b.synced b.inner.written);
  remove_keeps = λ chunks b. Begins-self (first_of b.synced b.inner.written);
}
