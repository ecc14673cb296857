-- ===== src/Dump/Write.antt =====
-- src/dump_writer.rs and src/raft_log/dump_api.rs: the records of a store as lines of text. The
-- walk over the chunks, and how their ids, their sizes and the records print, belong to
-- `chunked_wal` and to the standard library, and are parameters.
use Prim.Native.Char.{code}
use Prim.Native.String.{String}
use raft_log.Prelude.{
  ℕ, ◌+◌, [], ◌∷◌, ◌++◌, ◌==◌, if◌then◌else◌, Outcome, ok, err, panic, Method, ◌>>◌, return, ◌⊎◌,
  inl, inr,
}
use raft_log.Types.{Types, ChunkId, Segment}
use raft_log.Errors.{IoError}
use raft_log.State.{RaftLogRecord}
use raft_log.Num.{Text, padded, format_pad9_u64}

abbrev pub codes : String → Text
codes String.[] = []
codes (String.◌∷◌ c s) = code c ∷ codes s

-- The printing that is not of this repository.
pub record Printing (T : Types) : Type 0 where
  pub chunk_id : ChunkId → Text
  pub size : ℕ → Text
  pub debug : RaftLogRecord T → Text
  pub display : RaftLogRecord T → Text
  pub error : IoError T → Text

abbrev pub Found : Types → Type 0
Found T = IoError T ⊎ (Segment × RaftLogRecord T)

-- A record as the walk over the chunks finds it, with its chunk and its number in the chunk.
pub record Visit (T : Types) : Type 0 where
  pub chunk_id : ChunkId
  pub index : ℕ
  pub found : Found T

-- `io::Write`, whose `writeln!` may fail.
abbrev pub WriteLine : Types → Type 0 → Type 0
WriteLine T Out = Text → Method (IoError T) Out (Unit {0})

module _ {T : Types} (print : Printing T) {Out : Type 0} (writeln : WriteLine T Out) where
  abbrev pub record_line : ℕ → Segment → Text → Text
  record_line index seg rec =
      codes "  R-"
      ++ padded index 5
      ++ codes ": ["
      ++ format_pad9_u64 seg.offset
      ++ codes ", "
      ++ format_pad9_u64 (seg.offset + seg.size)
      ++ codes ") "
      ++ print.size seg.size
      ++ codes ": "
      ++ rec

  unfoldable pub write_ok : ChunkId → ℕ → Segment → Text → Method (IoError T) Out (Unit {0})
  write_ok chunk_id index seg rec =
      (if seg.offset == 0 then writeln (print.chunk_id chunk_id) else return tt)
      >> writeln (record_line index seg rec)

  unfoldable pub write_record :
      (RaftLogRecord T → Text) → ChunkId → ℕ → Found T → Method (IoError T) Out (Unit {0})
  unfolding write_ok
  write_record format chunk_id index (inr (seg, rec)) = write_ok chunk_id index seg (format rec)
  write_record format chunk_id index (inl e) = writeln (codes "Error: " ++ print.error e)

  abbrev pub write_visit : (RaftLogRecord T → Text) → Visit T → Method (IoError T) Out (Unit {0})
  write_visit format v = write_record format v.chunk_id v.index v.found

  -- The walk of `write_with` over the records, which calls back for each.
  abbrev pub Walk : Type 0
  Walk = (Visit T → Method (IoError T) Out (Unit {0})) → Method (IoError T) Out (Unit {0})

  unfoldable pub write : Walk → Method (IoError T) Out (Unit {0})
  unfolding write_record
  write write_with = do writeln (codes "RaftLog:"); write_with (write_visit print.debug)

  unfoldable pub write_display : Walk → Method (IoError T) Out (Unit {0})
  unfolding write_record
  write_display write_with = do writeln (codes "RaftLog:"); write_with (write_visit print.display)

module _ {T : Types} (print : Printing T) where
  -- A line at the end of a buffer.
  abbrev pub to_buffer : WriteLine T Text
  to_buffer line buf = (buf ++ (line ++ codes "\n"), ok tt)

  -- The buffer, if all has been written to it.
  abbrev pub filled : Text × Outcome (IoError T) (Unit {0}) → Outcome (IoError T) Text
  filled (buf, ok _) = ok buf
  filled (buf, err e) = err e
  filled (buf, panic) = panic

  unfoldable pub write_to_string : Walk print to_buffer → Outcome (IoError T) Text
  unfolding write
  write_to_string write_with = filled (write print to_buffer write_with [])
