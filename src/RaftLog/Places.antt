-- ===== src/RaftLog/Places.antt =====
-- Where the entries of the log map lie: in the open chunk, or in a closed chunk that ended with a
-- state whose last entry is not before them. Chunks that wait to be removed lie before all these.
use raft_log.Prelude.{
  ◌<◌, ◌≡◌, ◌⊎◌, inl, inr, some, true, List, [], ◌∷◌, ◌++◌, All, All-imp, All-and, All-append,
  All-suffix, arith,
}
use raft_log.Prelude.Ord.{lt, le, le_trans, le-not-lt}
use raft_log.Types.{Types, ids, ChunkId}
use raft_log.State.{RaftLogState}
use raft_log.StateMachine.{LogData, Log}
use raft_log.Wal.Laws.{After, ids_of}

abbrev pub ClosedChunks : Types → Type 0
ClosedChunks T = List (ChunkId × RaftLogState T)

module _ {T : Types} where
  -- The offsets rise from chunk to chunk, and the open chunk is the last.
  abbrev pub Rising : ClosedChunks T → ChunkId → Type 0
  Rising [] open_chunk = Unit
  Rising (x ∷ cl) open_chunk =
      All (λ y. x.0.offset < y.0.offset) cl
      × (x.0.offset < open_chunk.offset)
      × Rising cl open_chunk

  -- The entry lies in a closed chunk whose state reaches up to it.
  abbrev pub LiesIn : ClosedChunks T → LogData T → Type 0
  LiesIn [] d = ⊥
  LiesIn (x ∷ cl) d =
      ((d.chunk_id ≡ x.0) × (le (ids T) (some d.log_id) x.1.last ≡ true)) ⊎ LiesIn cl d

  abbrev pub Placed : ClosedChunks T → ChunkId → LogData T → Type 0
  Placed cl open_chunk d = (d.chunk_id ≡ open_chunk) ⊎ LiesIn cl d

  abbrev pub Gone : ClosedChunks T → ChunkId → ChunkId → Type 0
  Gone cl open_chunk c = (c.offset < open_chunk.offset) × All (λ x. c.offset < x.0.offset) cl

  pub record Laid (cl : ClosedChunks T) (open_chunk : ChunkId) (removed : List ChunkId)
      (log : Log T) : Type 0 where
    pub rising : Rising cl open_chunk
    pub placed : All (λ e. Placed cl open_chunk e.1) log
    pub gone : All (Gone cl open_chunk) removed

  Rising-snoc :
      (cl : ClosedChunks T) (o o' : ChunkId) (st : RaftLogState T)
      → o.offset < o'.offset
      → Rising cl o
      → Rising (cl ++ (o, st) ∷ []) o'
  Rising-snoc [] o o' st h r = (tt, h, tt)
  Rising-snoc (x ∷ cl) o o' st h r =
      (All-append _ cl _ r.0 (r.1, tt), omega arith, Rising-snoc cl o o' st h r.2)

  LiesIn-snoc :
      (cl : ClosedChunks T) (x : ChunkId × RaftLogState T) (d : LogData T)
      → LiesIn cl d ⊎ ((d.chunk_id ≡ x.0) × (le (ids T) (some d.log_id) x.1.last ≡ true))
      → LiesIn (cl ++ x ∷ []) d
  LiesIn-snoc [] x d (inl h) = absurd h
  LiesIn-snoc [] x d (inr h) = inl h
  LiesIn-snoc (y ∷ cl) x d (inl (inl h)) = inl h
  LiesIn-snoc (y ∷ cl) x d (inl (inr h)) = inr (LiesIn-snoc cl x d (inl h))
  LiesIn-snoc (y ∷ cl) x d (inr h) = inr (LiesIn-snoc cl x d (inr h))

  Placed-closed :
      (cl : ClosedChunks T) (o o' : ChunkId) (st : RaftLogState T) (d : LogData T)
      → le (ids T) (some d.log_id) st.last ≡ true
      → Placed cl o d
      → Placed (cl ++ (o, st) ∷ []) o' d
  Placed-closed cl o o' st d h (inl at_open) = inr (LiesIn-snoc cl (o, st) d (inr (at_open, h)))
  Placed-closed cl o o' st d h (inr at) = inr (LiesIn-snoc cl (o, st) d (inl at))

  pub close-Laid :
      (cl : ClosedChunks T) (o o' : ChunkId) (st : RaftLogState T) (removed : List ChunkId)
      (log : Log T)
      → o.offset < o'.offset
      → All (λ e. le (ids T) (some e.1.log_id) st.last ≡ true) log
      → Laid cl o removed log
      → Laid (cl ++ (o, st) ∷ []) o' removed log
  close-Laid cl o o' st removed log h upto l = record {
    rising = Rising-snoc cl o o' st h l.rising;
    placed =
        All-imp (λ e b. Placed-closed cl o o' st e.1 b.0 b.1) log (All-and _ _ log upto l.placed);
    gone = All-imp (λ c g. (omega arith, All-append _ cl _ g.1 (g.0, tt))) removed l.gone;
  }

  -- The chunk of a placed entry lies after every chunk that is gone.
  Gone-before :
      (cl : ClosedChunks T) (o : ChunkId) (c : ChunkId) (d : LogData T)
      → Gone cl o c
      → Placed cl o d
      → c.offset < d.chunk_id.offset
  Gone-before cl o c d g (inl e) = rw e g.0
  Gone-before [] o c d g (inr h) = absurd h
  Gone-before (x ∷ cl) o c d g (inr (inl (e, _))) = rw e g.1.0
  Gone-before (x ∷ cl) o c d g (inr (inr h)) = Gone-before cl o c d (g.0, g.1.1) (inr h)

  pub After-removed :
      (cl : ClosedChunks T) (o : ChunkId) (removed : List ChunkId) (log : Log T)
      → Laid cl o removed log
      → All (λ e. After removed e.1.chunk_id) log
  After-removed cl o removed log l =
      All-imp (λ e p. All-imp (λ c g. Gone-before cl o c e.1 g p) removed l.gone) log l.placed

  Rising-rest :
      (taken rest : ClosedChunks T) (o : ChunkId)
      → Rising (taken ++ rest) o
      → Rising rest o × All (Gone rest o) (ids_of taken)
  Rising-rest [] rest o r = (r, tt)
  Rising-rest (x ∷ taken) rest o r =
      let (rising, gone) = Rising-rest taken rest o r.2 in
      (rising, ((r.1, All-suffix _ taken rest r.0), gone))

  -- An entry past the state of each chunk taken lies in none of them.
  Placed-rest :
      (taken rest : ClosedChunks T) (o : ChunkId) (d : LogData T) (purged : T.LogId)
      → All (λ x. le (ids T) x.1.last (some purged) ≡ true) taken
      → lt (ids T) (some purged) (some d.log_id) ≡ true
      → Placed (taken ++ rest) o d
      → Placed rest o d
  Placed-rest taken rest o d purged a h (inl e) = inl e
  Placed-rest [] rest o d purged a h (inr at) = inr at
  Placed-rest (x ∷ taken) rest o d purged a h (inr (inl (e, upto))) = absurd (
      ground (
        arith,
        le_trans (ids T) (some d.log_id) x.1.last (some purged) upto a.0,
        le-not-lt (ids T) (some d.log_id) (some purged),
        h,
      ))
  Placed-rest (x ∷ taken) rest o d purged a h (inr (inr at)) =
      Placed-rest taken rest o d purged a.1 h (inr at)

  Gone-rest :
      (taken rest : ClosedChunks T) (o : ChunkId) (c : ChunkId)
      → Gone (taken ++ rest) o c
      → Gone rest o c
  Gone-rest taken rest o c g = (g.0, All-suffix _ taken rest g.1)

  pub drain-Laid :
      (taken rest : ClosedChunks T) (o : ChunkId) (removed : List ChunkId) (log : Log T)
      (purged : T.LogId)
      → All (λ x. le (ids T) x.1.last (some purged) ≡ true) taken
      → All (λ e. lt (ids T) (some purged) (some e.1.log_id) ≡ true) log
      → Laid (taken ++ rest) o removed log
      → Laid rest o (removed ++ ids_of taken) log
  drain-Laid taken rest o removed log purged a above l =
      let (rising, gone) = Rising-rest taken rest o l.rising in
      record {
        rising = rising;
        placed =
            All-imp (λ e b. Placed-rest taken rest o e.1 purged a b.0 b.1) log
              (All-and _ _ log above l.placed);
        gone =
            All-append _ removed _ (All-imp (λ c g. Gone-rest taken rest o c g) removed l.gone)
              gone;
      }
