-- ===== src/RaftLog/Durable.antt =====
-- What `blocking_flush` promises when it returns: whatever happens then, the records are there.
use mathlib.Core.List.{append-nil, append_assoc, append_cancel_left}
use raft_log.Prelude.{
  ◌≡◌, ◌∙◌, refl, sym, ap, Option, some, Bool, true, List, [], ◌∷◌, ◌++◌, ok, arith, if◌then◌else◌,
}
use raft_log.Types.{Types, ChunkId}
use raft_log.State.{RaftLogState, RaftLogRecord}
use raft_log.Wal.{Wal}
use raft_log.Wal.Laws.{Chunked, SameChunks}
use raft_log.RaftLog.{RaftLog, flush, is_empty}
use raft_log.RaftLog.Blocking.{Channel, blocking_flush, blocking_flush_steps}
use raft_log.RaftLog.Open.{Stored}
use raft_log.RaftLog.Recorded.{Traced}
use raft_log.RaftLog.Removal.{flush-handed_over}

-- The second list is the first with more at its end.
pub record Begins {A : Type 0} (xs ys : List A) : Type 0 where
  pub more : List A
  pub split : ys ≡ xs ++ more

pub Begins-self : {A : Type 0} (xs : List A) → Begins xs xs
Begins-self xs = record { more = []; split = sym (append-nil xs) }

pub Begins-trans : {A : Type 0} (xs ys zs : List A) → Begins xs ys → Begins ys zs → Begins xs zs
Begins-trans xs ys zs a b = record {
  more = a.more ++ b.more;
  split = b.split ∙ ap (λ l. l ++ b.more) a.split ∙ append_assoc xs a.more b.more;
}

front_empty : {A : Type 0} (xs ys : List A) → xs ++ ys ≡ [] → xs ≡ []
front_empty [] ys h = refl
front_empty (x ∷ xs) ys h = absurd (ground (arith, h))

-- Between two lists, each of which begins the next, of which the first and the last are the same.
Begins-equal : {A : Type 0} (xs ys : List A) → Begins xs ys → Begins ys xs → ys ≡ xs
Begins-equal xs ys a b =
    let whole : xs ++ (a.more ++ b.more) ≡ xs =
      sym (append_assoc xs a.more b.more) ∙ ap (λ l. l ++ b.more) (sym a.split) ∙ sym b.split in
    a.split
    ∙ ap (λ l. xs ++ l)
        (front_empty a.more b.more
          (append_cancel_left xs (a.more ++ b.more) [] (whole ∙ sym (append-nil xs))))
    ∙ append-nil xs

module _ {T : Types} {W : Wal T} (k : Chunked W) (t : Traced W) (channel : Channel W) where
  -- What the WAL and its worker do for durability: a request to sync, sent with the sender of the
  -- channel, asks for all the records written before it; removing chunks asks for nothing; and when
  -- the worker reports success on the channel, a crash leaves what was asked for. What a crash leaves never
  -- gets less, the records of removed chunks counted.
  pub record Syncs : Type 0 where
    pub durable : W.Store → List (Stored T)
    pub asked : W.Store → List (Stored T)
    pub durable_begins : (w : W.Store) → Begins (durable w) (t.trace w)
    pub send_asks :
        (w : W.Store)
        → (W.send_pending true (some channel.tx) w).1 ≡ ok tt
        → asked (W.send_pending true (some channel.tx) w).0 ≡ t.trace w
    pub remove_asks :
        (chunks : List ChunkId) (w : W.Store) → asked (W.send_remove_chunks chunks w).0 ≡ asked w
    pub recv_traced : (w : W.Store) → t.trace (channel.recv w).0 ≡ t.trace w
    pub recv_synced :
        (w : W.Store)
        → (channel.recv w).1 ≡ some (ok tt)
        → Begins (asked w) (durable (channel.recv w).0)
    pub recv_step : (w : W.Store) → SameChunks W k.closed (λ c. Unit) w (channel.recv w).0
    pub append_keeps :
        (rec : RaftLogRecord T) (w : W.Store) → Begins (durable w) (durable (W.append rec w).0)
    pub close_keeps :
        (state : RaftLogState T) (w : W.Store)
        → Begins (durable w) (durable (W.try_close_full_chunk state w).0)
    pub drain_keeps :
        (p : RaftLogState T → Bool) (w : W.Store)
        → Begins (durable w) (durable (W.drain_closed_chunks_while p w).0)
    pub send_keeps :
        (sync : Bool) (callback : Option W.Callback) (w : W.Store)
        → Begins (durable w) (durable (W.send_pending sync callback w).0)
    pub remove_keeps :
        (chunks : List ChunkId) (w : W.Store)
        → Begins (durable w) (durable (W.send_remove_chunks chunks w).0)

  module _ (s : Syncs) where
    told_asks :
        (told : List ChunkId) (w : W.Store)
        → s.asked (if is_empty told then w else (W.send_remove_chunks told w).0) ≡ s.asked w
    told_asks [] w = refl
    told_asks (c ∷ told) w = s.remove_asks (c ∷ told) w

    told_traced :
        (told : List ChunkId) (w : W.Store)
        → t.trace (if is_empty told then w else (W.send_remove_chunks told w).0) ≡ t.trace w
    told_traced [] w = refl
    told_traced (c ∷ told) w = t.remove_traced (c ∷ told) w

    pub durable-blocking_flush :
        (rl : RaftLog T W)
        → (blocking_flush channel rl).1 ≡ ok tt
        → (s.durable (blocking_flush channel rl).0.wal ≡ t.trace rl.wal)
          × (t.trace (blocking_flush channel rl).0.wal ≡ t.trace rl.wal)
    durable-blocking_flush rl h =
        let told = rl.removed_chunks in
        let (flushed, waited, heard) = blocking_flush_steps channel rl h in
        let (sent, none_wait, handed) = flush-handed_over (some channel.tx) rl flushed in
        let w1 = (W.send_pending true (some channel.tx) rl.wal).0 in
        let w2 = (flush true (some channel.tx) rl).0.wal in
        let w3 = (channel.recv w2).0 in
        let asked : s.asked w2 ≡ t.trace rl.wal =
          ap s.asked handed ∙ told_asks told w1 ∙ s.send_asks rl.wal sent in
        let traced : t.trace w3 ≡ t.trace rl.wal =
          s.recv_traced w2
          ∙ ap t.trace handed
          ∙ told_traced told w1
          ∙ t.send_traced true (some channel.tx) rl.wal in
        let synced = rw asked at (s.recv_synced w2 heard) in
        (
          ap s.durable waited
              ∙ Begins-equal (t.trace rl.wal) (s.durable w3) synced
                  (rw traced at (s.durable_begins w3)),
          ap t.trace waited ∙ traced,
        )
