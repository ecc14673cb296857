-- ===== src/Codec.antt =====
-- The codecs of src/raft_log/raft_log_action.rs and src/raft_log/state_machine/raft_log_state.rs.
-- A writer is the bytes written to it so far, a reader the bytes that are left in it.
pub mod Laws
use raft_log.Prelude.{
  ℕ, zero, suc, ◌+◌, ◌-◌, ◌%◌, Option, none, some, List, [], ◌∷◌, ◌++◌, length, Method, return,
  settle, resume, err, ok, panic, ◌>>=◌, ◌>>◌, ◌==◌, if◌then◌else◌,
}
use raft_log.Types.{Types, u64_mod}
use raft_log.Errors.{IoError, other}
use raft_log.State
use raft_log.State.{RaftLogState, RaftLogAction}

abbrev pub Bytes : Type 0
Bytes = List ℕ

-- `codeq::Encode` and `codeq::Decode` of one type. `encode` returns the number of bytes written.
pub record Codec (T : Types) (A : Type 0) : Type 0 where
  pub encode : A → Method (IoError T) Bytes ℕ
  pub decode : Method (IoError T) Bytes A

-- What the codecs here call and do not define: the codecs of the user's types and those of the
-- crates `codeq` and `byteorder`, the checksum of the bytes that passed, and the constant
-- `CHECKPOINT_RECORD_TYPE` of `chunked_wal`.
pub record Codecs (T : Types) : Type 0 where
  pub u8 : Codec T ℕ
  pub u32_big_endian : Codec T ℕ
  pub vote : Codec T T.Vote
  pub log_id : Codec T T.LogId
  pub log_payload : Codec T T.LogPayload
  pub option_vote : Codec T (Option T.Vote)
  pub option_log_id : Codec T (Option T.LogId)
  pub option_user_data : Codec T (Option T.UserData)
  pub write_checksum : Bytes → Method (IoError T) Bytes ℕ
  pub verify_checksum : Bytes → Method (IoError T) Bytes (Unit {0})
  pub checkpoint_record_type : ℕ

abbrev pub drop : ℕ → Bytes → Bytes
drop zero bs = bs
drop (suc n) [] = []
drop (suc n) (b ∷ bs) = drop n bs

abbrev pub take : ℕ → Bytes → Bytes
take zero bs = []
take (suc n) [] = []
take (suc n) (b ∷ bs) = b ∷ take n bs

-- What a checksummed writer has passed on since it was made, and what a checksummed reader has read.
abbrev pub written_since : Bytes → Bytes → Bytes
written_since before now = drop (length before) now

abbrev pub read_since : Bytes → Bytes → Bytes
read_since before now = take (length before - length now) before

module _ {T : Types} where
  unfoldable pub record_type : RaftLogAction T → ℕ
  record_type (RaftLogAction.save_vote _) = 0
  record_type (RaftLogAction.append _ _) = 1
  record_type (RaftLogAction.commit _) = 2
  record_type (RaftLogAction.truncate_after _) = 3
  record_type (RaftLogAction.purge_upto _) = 4

  -- One part after another, with the sum of the bytes written.
  abbrev pub then_encode : {A : Type 0} → ℕ → Codec T A → A → Method (IoError T) Bytes ℕ
  then_encode n c a = c.encode a >>= λ m. return ((n + m) % u64_mod)

module _ {T : Types} (c : Codecs T) where
  unfoldable pub encode_payload : RaftLogAction T → Method (IoError T) Bytes ℕ
  encode_payload (RaftLogAction.save_vote vote) = c.vote.encode vote
  encode_payload (RaftLogAction.append log_id payload) = do
    n ← c.log_id.encode log_id
    then_encode n c.log_payload payload
  encode_payload (RaftLogAction.commit log_id) = c.log_id.encode log_id
  encode_payload (RaftLogAction.truncate_after log_id) = c.option_log_id.encode log_id
  encode_payload (RaftLogAction.purge_upto log_id) = c.log_id.encode log_id

  unfoldable pub decode_payload : ℕ → Method (IoError T) Bytes (RaftLogAction T)
  decode_payload t =
      if t == 0
      then (c.vote.decode >>= λ vote. return (RaftLogAction.save_vote vote))
      else if t == 1
      then (c.log_id.decode >>= λ log_id.
          c.log_payload.decode >>= λ payload. return (RaftLogAction.append log_id payload))
      else if t == 2
      then (c.log_id.decode >>= λ log_id. return (RaftLogAction.commit log_id))
      else if t == 3
      then (c.option_log_id.decode >>= λ log_id. return (RaftLogAction.truncate_after log_id))
      else if t == 4
      then (c.log_id.decode >>= λ log_id. return (RaftLogAction.purge_upto log_id))
      else settle (err (other "Unknown record type"))

  unfoldable pub encode_action : RaftLogAction T → Method (IoError T) Bytes ℕ
  unfolding record_type encode_payload
  encode_action a w =
      let typ = record_type a in
      if typ == c.checkpoint_record_type
      then (w, err (other "Action record type is reserved for checkpoint"))
      else (do
        c.u32_big_endian.encode typ
        n ← encode_payload a
        λ w'.
            (c.write_checksum (written_since w w') >>= λ m.
            return (((4 + n) % u64_mod + m) % u64_mod))
              w')
          w

  unfoldable pub decode_action : Method (IoError T) Bytes (RaftLogAction T)
  unfolding decode_payload
  decode_action r =
      (do
        typ ← c.u32_big_endian.decode
        a ← decode_payload typ
        λ r'. c.verify_checksum (read_since r r') r'
        return a)
        r

  unfoldable pub encode_state : RaftLogState T → Method (IoError T) Bytes ℕ
  encode_state s = do
    n0 ← c.u8.encode 1
    n1 ← then_encode n0 c.option_vote s.vote
    n2 ← then_encode n1 c.option_log_id s.last
    n3 ← then_encode n2 c.option_log_id s.committed
    n4 ← then_encode n3 c.option_log_id s.purged
    then_encode n4 c.option_user_data s.user_data

  -- The fields behind the version byte.
  unfoldable pub decode_fields : Method (IoError T) Bytes (RaftLogState T)
  decode_fields = do
    vote ← c.option_vote.decode
    last ← c.option_log_id.decode
    committed ← c.option_log_id.decode
    purged ← c.option_log_id.decode
    user_data ← c.option_user_data.decode
    return (record {
      vote = vote;
      last = last;
      committed = committed;
      purged = purged;
      user_data = user_data;
    })

  unfoldable pub decode_state : Method (IoError T) Bytes (RaftLogState T)
  unfolding decode_fields
  decode_state = do
    ver ← c.u8.decode
    if ver == 1 then decode_fields else settle (err (other "Unsupported RaftLogState version"))
