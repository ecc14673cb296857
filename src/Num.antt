-- ===== src/Num.antt =====
-- src/num.rs: numbers with an underscore before each group of three digits.
pub mod Grouping
use raft_log.Prelude.{
  ℕ, zero, suc, ◌+◌, ◌-◌, ◌/◌, ◌%◌, ◌&&◌, List, [], ◌∷◌, ◌++◌, length, ltb, ◌==◌, if◌then◌else◌,
}

abbrev pub Text : Type 0
Text = List ℕ

-- The decimal digits of a number; a `u64` has at most twenty.
unfoldable pub decimal : ℕ → ℕ → Text
decimal zero n = []
decimal (suc fuel) n =
    let rest = decimal fuel (n / 10) in (if n / 10 == 0 then [] else rest) ++ (b'0' + n % 10) ∷ []

unfoldable pub zeros : ℕ → Text
zeros zero = []
zeros (suc n) = b'0' ∷ zeros n

-- `format!("{:0width$}", n, width = min_width)`
unfoldable pub padded : ℕ → ℕ → Text
padded n min_width = let s = decimal 20 n in zeros (min_width - length s) ++ s

-- The `fold` over the characters with their positions.
unfoldable pub fold_chars : ℕ → ℕ → Text → Text → Text
fold_chars len i [] acc = acc
fold_chars len i (c ∷ cs) acc =
    fold_chars len (i + 1) cs
      ((if ltb 0 i && ((len - i) % 3 == 0) then acc ++ b'_' ∷ [] else acc) ++ c ∷ [])

unfoldable pub format_grouped : ℕ → ℕ → Text
format_grouped n min_width = let s = padded n min_width in fold_chars (length s) 0 s []

unfoldable pub format_pad9_u64 : ℕ → Text
format_pad9_u64 n = format_grouped n 9
