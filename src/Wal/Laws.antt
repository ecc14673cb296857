-- ===== src/Wal/Laws.antt =====
-- What the store relies on in the chunks of the WAL: `docs/architecture.md`, "Chunk Lifecycle" and
-- "Threading Model". Nothing is said of when a record can be loaded at first.
use raft_log.Prelude.{◌<◌, ◌≡◌, ◌⊎◌, true, Option, Bool, List, [], ◌∷◌, ◌++◌, map, All, ok}
use raft_log.Types.{Types, ChunkId, Segment}
use raft_log.State.{RaftLogState, RaftLogRecord}
use raft_log.Wal.{Wal}

-- A chunk that lies after all those of a list, by its offset.
abbrev pub After : List ChunkId → ChunkId → Type 0
After chunks c = All (λ i. i.offset < c.offset) chunks

abbrev pub ids_of : {T : Types} → List (ChunkId × RaftLogState T) → List ChunkId
ids_of closed = map (λ x. x.0) closed

module _ {T : Types} (W : Wal T) (closed : W.Store → List (ChunkId × RaftLogState T)) where
  -- What could be loaded from the chunks of which `P` holds still can.
  abbrev pub Loads : (ChunkId → Type 0) → W.Store → W.Store → Type 0
  Loads P w w' =
      (c : ChunkId) (s : Segment) (r : RaftLogRecord T)
      → P c
      → W.load_record w c s ≡ ok r
      → W.load_record w' c s ≡ ok r

  -- The chunks are as before.
  pub record SameChunks (P : ChunkId → Type 0) (w w' : W.Store) : Type 0 where
    pub same_closed : closed w' ≡ closed w
    pub same_open : W.open_chunk_id w' ≡ W.open_chunk_id w
    pub loads : Loads P w w'

  -- The open chunk has been closed with `state`, and another one opened behind it.
  pub record ChunkClosed (state : RaftLogState T) (w w' : W.Store) : Type 0 where
    pub adds : closed w' ≡ closed w ++ (W.open_chunk_id w, state) ∷ []
    pub opens : (W.open_chunk_id w).offset < (W.open_chunk_id w').offset
    pub loads : Loads (λ c. Unit) w w'

  -- The oldest closed chunks that pass the test have been taken out.
  pub record ChunksDrained (p : RaftLogState T → Bool) (w w' : W.Store) (ids : List ChunkId)
      : Type 0 where
    pub taken : List (ChunkId × RaftLogState T)
    pub splits : closed w ≡ taken ++ closed w'
    pub names : ids ≡ ids_of taken
    pub pass : All (λ x. p x.1 ≡ true) taken
    pub same_open : W.open_chunk_id w' ≡ W.open_chunk_id w
    pub loads : Loads (After ids) w w'

-- The closed chunks of a store, oldest first, each with the state that it ended with, and what each
-- operation does to them, whatever its outcome.
pub record Chunked {T : Types} (W : Wal T) : Type 0 where
  pub closed : W.Store → List (ChunkId × RaftLogState T)
  pub append_step :
      (rec : RaftLogRecord T) (w : W.Store) → SameChunks W closed (λ c. Unit) w (W.append rec w).0
  pub close_step :
      (state : RaftLogState T) (w : W.Store)
      → SameChunks W closed (λ c. Unit) w (W.try_close_full_chunk state w).0
        ⊎ ChunkClosed W closed state w (W.try_close_full_chunk state w).0
  pub drain_step :
      (p : RaftLogState T → Bool) (w : W.Store)
      → ChunksDrained W closed p w
          (W.drain_closed_chunks_while p w).0
          (W.drain_closed_chunks_while p w).1
  pub send_step :
      (sync : Bool) (callback : Option W.Callback) (w : W.Store)
      → SameChunks W closed (λ c. Unit) w (W.send_pending sync callback w).0
  pub remove_step :
      (chunks : List ChunkId) (w : W.Store)
      → SameChunks W closed (After chunks) w (W.send_remove_chunks chunks w).0
