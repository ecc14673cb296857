-- ===== src/CodecSamples.antt =====
-- Concrete codecs for numbers: a number is one byte of any size, a type code four bytes, and the
-- checksum is the sum of the bytes.
use native.Mathlib.Omega.{arith}
use raft_log.Prelude.{
  ℕ, zero, suc, ◌+◌, ◌*◌, ◌/◌, ◌%◌, ◌^◌, ◌≡◌, refl, Option, none, some, [], ◌∷◌, ◌++◌, length, ok,
  err, Method, ◌==◌, if◌then◌else◌,
}
use raft_log.Types.{u64_mod}
use raft_log.Errors.{IoError, other}
use raft_log.Codec.{Bytes, Codec, Codecs}
use raft_log.Codec.Laws.{IsLawful, AreLawful, Any}
use raft_log.Samples.{Numbers}

abbrev pub split_code : ℕ → Bytes
split_code n = n / 2 ^ 24 ∷ n / 2 ^ 16 % 256 ∷ n / 2 ^ 8 % 256 ∷ n % 256 ∷ []

abbrev pub join_code : Method (IoError Numbers) Bytes ℕ
join_code (a ∷ b ∷ c ∷ d ∷ r) = (r, ok (a * 2 ^ 24 + b * 2 ^ 16 + c * 2 ^ 8 + d))
join_code r = (r, err (other "too short"))

abbrev pub code : Codec Numbers ℕ
code = record { encode = λ n w. (w ++ split_code n, ok 4); decode = join_code }

abbrev pub first : Method (IoError Numbers) Bytes ℕ
first [] = ([], err (other "too short"))
first (b ∷ bs) = (bs, ok b)

abbrev pub number : Codec Numbers ℕ
number = record { encode = λ n w. (w ++ n ∷ [], ok 1); decode = first }

abbrev pub option_bytes : Option ℕ → Bytes
option_bytes none = 0 ∷ []
option_bytes (some n) = 1 ∷ n ∷ []

abbrev pub first_option : Method (IoError Numbers) Bytes (Option ℕ)
first_option (zero ∷ bs) = (bs, ok none)
first_option (suc k ∷ n ∷ bs) = (bs, ok (some n))
first_option bs = (bs, err (other "too short"))

abbrev pub option_number : Codec Numbers (Option ℕ)
option_number = record {
  encode = λ o w. (w ++ option_bytes o, ok (length (option_bytes o)));
  decode = first_option;
}

abbrev pub sum : Bytes → ℕ
sum [] = 0
sum (b ∷ bs) = b + sum bs

abbrev pub check_sum : Bytes → Method (IoError Numbers) Bytes (Unit {0})
check_sum seen [] = ([], err (other "too short"))
check_sum seen (b ∷ bs) = (bs, if b == sum seen then ok tt else err (other "bad checksum"))

abbrev pub codecs : Codecs Numbers
codecs = record {
  u8 = number;
  u32_big_endian = code;
  vote = number;
  log_id = number;
  log_payload = number;
  option_vote = option_number;
  option_log_id = option_number;
  option_user_data = option_number;
  write_checksum = λ seen w. (w ++ sum seen ∷ [], ok 1);
  verify_checksum = check_sum;
  checkpoint_record_type = 5;
}

joined :
    (n : ℕ)
    → n / 2 ^ 24 * 2 ^ 24 + n / 2 ^ 16 % 256 * 2 ^ 16 + n / 2 ^ 8 % 256 * 2 ^ 8 + n % 256 ≡ n
joined n = omega arith

number-IsLawful : {F : ℕ → Type 0} → IsLawful F number
number-IsLawful = record {
  bytes = λ n. n ∷ [];
  encodes = λ a w f. refl;
  decodes = λ a rest f. refl;
}

option_encodes :
    (o : Option ℕ) (w : Bytes)
    → option_number.encode o w ≡ (w ++ option_bytes o, ok (length (option_bytes o) % u64_mod))
option_encodes none w = refl
option_encodes (some n) w = refl

option_decodes :
    (o : Option ℕ) (rest : Bytes) → first_option (option_bytes o ++ rest) ≡ (rest, ok o)
option_decodes none rest = refl
option_decodes (some n) rest = refl

option-IsLawful : IsLawful Any option_number
option-IsLawful = record {
  bytes = option_bytes;
  encodes = λ a w f. option_encodes a w;
  decodes = λ a rest f. option_decodes a rest;
}

summed : (seen rest : Bytes) → check_sum seen (sum seen ∷ rest) ≡ (rest, ok tt)
summed seen rest = ground arith

pub codecs-AreLawful : AreLawful codecs
codecs-AreLawful = record {
  u8 = number-IsLawful;
  u32 = record {
    bytes = split_code;
    encodes = λ a w f. refl;
    decodes = λ a rest f i. (rest, ok (joined a i));
  };
  vote = number-IsLawful;
  log_id = number-IsLawful;
  log_payload = number-IsLawful;
  option_vote = option-IsLawful;
  option_log_id = option-IsLawful;
  option_user_data = option-IsLawful;
  four = λ n. refl;
  checksum = λ seen. sum seen ∷ [];
  writes = λ seen w. refl;
  verifies = summed;
  reserved = refl;
}
