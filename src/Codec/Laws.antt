-- ===== src/Codec/Laws.antt =====
-- What the codecs rely on in the crates that they call, and that decoding undoes encoding.
use mathlib.Core.List.{append_assoc}
use raft_log.Prelude.{
  ℕ, ◌+◌, ◌%◌, ◌^◌, ◌<◌, ◌≡◌, ◌∙◌, refl, sym, ap, false, [], ◌∷◌, ◌++◌, length, length-append,
  return, ok, ◌==◌, arith,
}
use raft_log.Types.{Types, u64_mod}
use raft_log.Errors.{IoError}
use raft_log.State.{RaftLogState, RaftLogAction}
use raft_log.Codec.{
  Bytes, Codec, Codecs, take, drop, written_since, read_since, record_type, encode_payload,
  decode_payload, encode_action, decode_action, encode_state, decode_fields, decode_state,
  then_encode,
}

-- A codec appends the bytes of a value and counts them, and reads the value back from them and
-- nothing more. A number's codec does so for the numbers that fit.
pub record IsLawful {T : Types} {A : Type 0} (Fits : A → Type 0) (c : Codec T A) : Type 0 where
  pub bytes : A → Bytes
  pub encodes :
      (a : A) (w : Bytes) → Fits a → c.encode a w ≡ (w ++ bytes a, ok (length (bytes a) % u64_mod))
  pub decodes : (a : A) (rest : Bytes) → Fits a → c.decode (bytes a ++ rest) ≡ (rest, ok a)

abbrev pub Any : {A : Type 0} → A → Type 0
Any a = Unit

pub record AreLawful {T : Types} (c : Codecs T) : Type 0 where
  pub u8 : IsLawful (λ n. n < 2 ^ 8) c.u8
  pub u32 : IsLawful (λ n. n < 2 ^ 32) c.u32_big_endian
  pub vote : IsLawful Any c.vote
  pub log_id : IsLawful Any c.log_id
  pub log_payload : IsLawful Any c.log_payload
  pub option_vote : IsLawful Any c.option_vote
  pub option_log_id : IsLawful Any c.option_log_id
  pub option_user_data : IsLawful Any c.option_user_data
  pub four : (n : ℕ) → length (u32.bytes n) ≡ 4
  pub checksum : Bytes → Bytes
  pub writes :
      (seen w : Bytes)
      → c.write_checksum seen w ≡ (w ++ checksum seen, ok (length (checksum seen) % u64_mod))
  pub verifies :
      (seen rest : Bytes) → c.verify_checksum seen (checksum seen ++ rest) ≡ (rest, ok tt)
  pub reserved : c.checkpoint_record_type ≡ 5

pub drop-append : (xs ys : Bytes) → drop (length xs) (xs ++ ys) ≡ ys
drop-append [] ys = refl
drop-append (x ∷ xs) ys = drop-append xs ys

take-append : (xs ys : Bytes) → take (length xs) (xs ++ ys) ≡ xs
take-append [] ys = refl
take-append (x ∷ xs) ys = ap (◌∷◌ x) (take-append xs ys)

pub read_since-append : (xs ys : Bytes) → read_since (xs ++ ys) ys ≡ xs
read_since-append xs ys =
    ap (λ n. take n (xs ++ ys)) (omega (arith, length-append xs ys)) ∙ take-append xs ys

module _ {T : Types} where
  -- Two parts written one after the other are counted together.
  counted :
      (w x y : Bytes)
      → return {E = IoError T} ((length x % u64_mod + length y % u64_mod) % u64_mod) (w ++ x ++ y)
        ≡ return (length (x ++ y) % u64_mod) (w ++ (x ++ y))
  counted w x y =
      let sum : (length x % u64_mod + length y % u64_mod) % u64_mod ≡ length (x ++ y) % u64_mod =
        omega (arith, length-append x y) in
      λ i. return (sum i) (append_assoc w x y i)

  then_encodes :
      {A : Type 0} {c : Codec T A} (l : IsLawful Any c) (w x : Bytes) (a : A)
      → then_encode (length x % u64_mod) c a (w ++ x)
        ≡ (w ++ (x ++ l.bytes a), ok (length (x ++ l.bytes a) % u64_mod))
  then_encodes l w x a = rw (l.encodes a (w ++ x) tt) (counted w x (l.bytes a))

module _ {T : Types} {c : Codecs T} (l : AreLawful c) where
  abbrev pub payload_bytes : RaftLogAction T → Bytes
  payload_bytes (RaftLogAction.save_vote vote) = l.vote.bytes vote
  payload_bytes (RaftLogAction.append log_id payload) =
      l.log_id.bytes log_id ++ l.log_payload.bytes payload
  payload_bytes (RaftLogAction.commit log_id) = l.log_id.bytes log_id
  payload_bytes (RaftLogAction.truncate_after log_id) = l.option_log_id.bytes log_id
  payload_bytes (RaftLogAction.purge_upto log_id) = l.log_id.bytes log_id

  payload_encodes :
      (a : RaftLogAction T) (w : Bytes)
      → encode_payload c a w ≡ (w ++ payload_bytes a, ok (length (payload_bytes a) % u64_mod))
  unfolding encode_payload
  payload_encodes (RaftLogAction.save_vote vote) w = l.vote.encodes vote w tt
  payload_encodes (RaftLogAction.append id p) w =
      rw (l.log_id.encodes id w tt) (then_encodes l.log_payload w (l.log_id.bytes id) p)
  payload_encodes (RaftLogAction.commit id) w = l.log_id.encodes id w tt
  payload_encodes (RaftLogAction.truncate_after id) w = l.option_log_id.encodes id w tt
  payload_encodes (RaftLogAction.purge_upto id) w = l.log_id.encodes id w tt

  payload_decodes :
      (a : RaftLogAction T) (rest : Bytes)
      → decode_payload c (record_type a) (payload_bytes a ++ rest) ≡ (rest, ok a)
  unfolding decode_payload record_type
  payload_decodes (RaftLogAction.save_vote vote) rest = rw (l.vote.decodes vote rest tt) refl
  payload_decodes (RaftLogAction.append id p) rest =
      rw (append_assoc (l.log_id.bytes id) (l.log_payload.bytes p) rest) (
        rw (l.log_id.decodes id (l.log_payload.bytes p ++ rest) tt)
          (rw (l.log_payload.decodes p rest tt) refl))
  payload_decodes (RaftLogAction.commit id) rest = rw (l.log_id.decodes id rest tt) refl
  payload_decodes (RaftLogAction.truncate_after id) rest =
      rw (l.option_log_id.decodes id rest tt) refl
  payload_decodes (RaftLogAction.purge_upto id) rest = rw (l.log_id.decodes id rest tt) refl

  -- The record type, the payload, and the checksum of both.
  abbrev pub action_body : RaftLogAction T → Bytes
  action_body a = l.u32.bytes (record_type a) ++ payload_bytes a

  abbrev pub action_bytes : RaftLogAction T → Bytes
  action_bytes a = action_body a ++ l.checksum (action_body a)

  record_type-fits : (a : RaftLogAction T) → record_type a < 5
  unfolding record_type
  record_type-fits (RaftLogAction.save_vote vote) = omega arith
  record_type-fits (RaftLogAction.append id p) = omega arith
  record_type-fits (RaftLogAction.commit id) = omega arith
  record_type-fits (RaftLogAction.truncate_after id) = omega arith
  record_type-fits (RaftLogAction.purge_upto id) = omega arith

  not_reserved : (a : RaftLogAction T) → (record_type a == c.checkpoint_record_type) ≡ false
  not_reserved a = ground (arith, record_type-fits a, l.reserved)

  written-body :
      (a : RaftLogAction T) (w : Bytes)
      → written_since w (w ++ l.u32.bytes (record_type a) ++ payload_bytes a) ≡ action_body a
  written-body a w =
      ap (written_since w) (append_assoc w (l.u32.bytes (record_type a)) (payload_bytes a))
      ∙ drop-append w (action_body a)

  -- If the codecs of the user's types, of the crates and the checksum are lawful, then encoding an
  -- action adds to the writer the bytes of its record type, of its payload and of the checksum of
  -- both, in this order, and returns how many they are, modulo 2^64. No action has the record type
  -- that is reserved for checkpoints.
  pub action_encodes :
      (a : RaftLogAction T) (w : Bytes)
      → encode_action c a w ≡ (w ++ action_bytes a, ok (length (action_bytes a) % u64_mod))
  unfolding encode_action
  action_encodes a w =
      let t = l.u32.bytes (record_type a) in
      let body = action_body a in
      let fits : record_type a < 2 ^ 32 = omega (arith, record_type-fits a) in
      let check = l.checksum body in
      let sum : ((4 + length (payload_bytes a) % u64_mod) % u64_mod + length check % u64_mod)
            % u64_mod
          ≡ length (action_bytes a) % u64_mod =
        omega (
          arith,
          length-append t (payload_bytes a),
          length-append body check,
          l.four (record_type a),
        ) in
      let place : w ++ t ++ payload_bytes a ++ check ≡ w ++ action_bytes a =
        ap (λ bs. bs ++ check) (append_assoc w t (payload_bytes a)) ∙ append_assoc w body check in
      rw (not_reserved a) (
        rw (l.u32.encodes (record_type a) w fits) (
          rw (payload_encodes a (w ++ t)) (
            rw (written-body a w)
              (rw (l.writes body (w ++ t ++ payload_bytes a)) (λ i. return (sum i) (place i))))))

  pub action_decodes :
      (a : RaftLogAction T) (rest : Bytes) → decode_action c (action_bytes a ++ rest) ≡ (rest, ok a)
  unfolding decode_action
  action_decodes a rest =
      let t = l.u32.bytes (record_type a) in
      let body = action_body a in
      let tail = l.checksum body ++ rest in
      let fits : record_type a < 2 ^ 32 = omega (arith, record_type-fits a) in
      let split : action_bytes a ++ rest ≡ t ++ (payload_bytes a ++ tail) =
        append_assoc body (l.checksum body) rest ∙ append_assoc t (payload_bytes a) tail in
      let seen : read_since (t ++ (payload_bytes a ++ tail)) tail ≡ body =
        ap (λ bs. read_since bs tail) (sym (append_assoc t (payload_bytes a) tail))
        ∙ read_since-append body tail in
      rw split (
        rw (l.u32.decodes (record_type a) (payload_bytes a ++ tail) fits)
          (rw (payload_decodes a tail) (rw seen (rw (l.verifies body rest) refl))))

  abbrev pub state_bytes : RaftLogState T → Bytes
  state_bytes s =
      l.u8.bytes 1
      ++ l.option_vote.bytes s.vote
      ++ l.option_log_id.bytes s.last
      ++ l.option_log_id.bytes s.committed
      ++ l.option_log_id.bytes s.purged
      ++ l.option_user_data.bytes s.user_data

  pub state_encodes :
      (s : RaftLogState T) (w : Bytes)
      → encode_state c s w ≡ (w ++ state_bytes s, ok (length (state_bytes s) % u64_mod))
  unfolding encode_state
  state_encodes s w =
      let b0 = l.u8.bytes 1 in
      let b1 = b0 ++ l.option_vote.bytes s.vote in
      let b2 = b1 ++ l.option_log_id.bytes s.last in
      let b3 = b2 ++ l.option_log_id.bytes s.committed in
      let b4 = b3 ++ l.option_log_id.bytes s.purged in
      let fits : 1 < 2 ^ 8 = omega arith in
      rw (l.u8.encodes 1 w fits) (
        rw (then_encodes l.option_vote w b0 s.vote) (
          rw (then_encodes l.option_log_id w b1 s.last) (
            rw (then_encodes l.option_log_id w b2 s.committed) (
              rw (then_encodes l.option_log_id w b3 s.purged)
                (then_encodes l.option_user_data w b4 s.user_data)))))

  pub state_decodes :
      (s : RaftLogState T) (rest : Bytes) → decode_state c (state_bytes s ++ rest) ≡ (rest, ok s)
  unfolding decode_state decode_fields
  state_decodes s rest =
      let v = l.option_vote.bytes s.vote in
      let a = l.option_log_id.bytes s.last in
      let b = l.option_log_id.bytes s.committed in
      let p = l.option_log_id.bytes s.purged in
      let u = l.option_user_data.bytes s.user_data in
      let fits : 1 < 2 ^ 8 = omega arith in
      let split : state_bytes s ++ rest ≡ l.u8.bytes 1 ++ (v ++ (a ++ (b ++ (p ++ (u ++ rest))))) =
        simp append_assoc in
      rw split (
        rw (l.u8.decodes 1 (v ++ (a ++ (b ++ (p ++ (u ++ rest))))) fits) (
          rw (l.option_vote.decodes s.vote (a ++ (b ++ (p ++ (u ++ rest)))) tt) (
            rw (l.option_log_id.decodes s.last (b ++ (p ++ (u ++ rest))) tt) (
              rw (l.option_log_id.decodes s.committed (p ++ (u ++ rest)) tt) (
                rw (l.option_log_id.decodes s.purged (u ++ rest) tt)
                  (rw (l.option_user_data.decodes s.user_data rest tt) refl))))))

  -- If the codecs of the user's types, of the crates and the checksum are lawful, then decoding an
  -- action from what encoding it wrote, followed by any bytes, gives the action back and leaves
  -- those bytes in the reader.
  pub action_decode-encode :
      (a : RaftLogAction T) (rest : Bytes)
      → decode_action c ((encode_action c a []).0 ++ rest) ≡ (rest, ok a)
  action_decode-encode a rest =
      ap (λ r. decode_action c (r.0 ++ rest)) (action_encodes a []) ∙ action_decodes a rest

  -- If the codecs of the user's types, of the crates and the checksum are lawful, then decoding a
  -- state from what encoding it wrote, followed by any bytes, gives the state back and leaves those
  -- bytes in the reader.
  pub state_decode-encode :
      (s : RaftLogState T) (rest : Bytes)
      → decode_state c ((encode_state c s []).0 ++ rest) ≡ (rest, ok s)
  state_decode-encode s rest =
      ap (λ r. decode_state c (r.0 ++ rest)) (state_encodes s []) ∙ state_decodes s rest
