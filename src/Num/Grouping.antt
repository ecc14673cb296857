-- ===== src/Num/Grouping.antt =====
-- What a formatted number looks like, and that it can be read back.
use mathlib.Core.List.{append_assoc, append-nil}
use raft_log.Prelude.{
  ℕ, zero, suc, ◌+◌, ◌-◌, ◌*◌, ◌/◌, ◌%◌, ◌^◌, ◌<◌, ◌≤◌, ◌≡◌, ◌↔◌, ◌∙◌, inl, inr, refl, sym, ap, not,
  Bool-cases, [], ◌∷◌, ◌++◌, keep, length, length-append, All, All-append, arith, ◌==◌,
  if◌then◌else◌,
}
use raft_log.Types.{u64_mod}
use raft_log.Num.{Text, decimal, zeros, padded, fold_chars, format_grouped}

abbrev pub IsDigit : ℕ → Type 0
IsDigit c = (b'0' ≤ c) × (c ≤ b'9')

abbrev pub value_from : ℕ → Text → ℕ
value_from v [] = v
value_from v (c ∷ cs) = value_from (v * 10 + (c - b'0')) cs

-- The digits of a text, without the underscores.
abbrev pub ungroup : Text → Text
ungroup s = keep (λ c. not (c == b'_')) s

-- A character is an underscore exactly if the text has three more characters after it, or seven, or
-- eleven, and so on.
abbrev pub IsGrouped : Text → Type 0
IsGrouped [] = Unit
IsGrouped (c ∷ cs) = ((c ≡ b'_') ↔ (length cs % 4 ≡ 3)) × IsGrouped cs

value_from-append :
    (v : ℕ) (s : Text) (c : ℕ) → value_from v (s ++ c ∷ []) ≡ value_from v s * 10 + (c - b'0')
value_from-append v [] c = refl
value_from-append v (d ∷ s) c = value_from-append (v * 10 + (d - b'0')) s c

value_from-zeros : (n : ℕ) (s : Text) → value_from 0 (zeros n ++ s) ≡ value_from 0 s
unfolding zeros
value_from-zeros zero s = refl
value_from-zeros (suc n) s = value_from-zeros n s

value_from-decimal : (fuel n : ℕ) → n < 10 ^ fuel → value_from 0 (decimal fuel n) ≡ n
unfolding decimal
value_from-decimal zero n h = omega (arith, h)
value_from-decimal (suc fuel) n h =
    let step = value_from-append 0 (decimal fuel (n / 10)) (b'0' + n % 10) in
    elim (Bool-cases (n / 10 == 0)) [
      | inl z ↦ rw z (ground (arith, z))
      | inr z ↦ rw z (omega (arith, step, value_from-decimal fuel (n / 10) (omega (arith, h))))
    ]

zeros-IsDigit : (n : ℕ) → All IsDigit (zeros n)
unfolding zeros
zeros-IsDigit zero = tt
zeros-IsDigit (suc n) = ((omega arith, omega arith), zeros-IsDigit n)

decimal-IsDigit : (fuel n : ℕ) → All IsDigit (decimal fuel n)
unfolding decimal
decimal-IsDigit zero n = tt
decimal-IsDigit (suc fuel) n =
    let last : IsDigit (b'0' + n % 10) = (omega arith, omega arith) in
    elim (Bool-cases (n / 10 == 0)) [
      | inl z ↦ rw z (last, tt)
      | inr z ↦
          rw z (
            All-append IsDigit (decimal fuel (n / 10)) _ (decimal-IsDigit fuel (n / 10)) (last, tt))
    ]

-- The characters after the first, each with the underscore that stands before it.
grouped_rest : Text → Text
grouped_rest [] = []
grouped_rest (c ∷ cs) =
    let rest = grouped_rest cs in if length (c ∷ cs) % 3 == 0 then b'_' ∷ c ∷ rest else c ∷ rest

fold_chars_rest :
    (len i : ℕ) (s acc : Text)
    → 0 < i
    → len ≡ i + length s
    → fold_chars len i s acc ≡ acc ++ grouped_rest s
unfolding fold_chars grouped_rest
fold_chars_rest len i [] acc p h = sym (append-nil acc)
fold_chars_rest len i (c ∷ cs) acc p h =
    let left : len - i ≡ length (c ∷ cs) = omega (arith, h) in
    let ih = λ (t : Text). fold_chars_rest len (i + 1) cs t (omega arith) (omega (arith, h)) in
    elim (Bool-cases (length (c ∷ cs) % 3 == 0)) [
      | inl z ↦ ground (
        arith,
        p,
        left,
        z,
        ih ((acc ++ b'_' ∷ []) ++ c ∷ []),
        append_assoc acc (b'_' ∷ []) (c ∷ []),
        append_assoc acc (b'_' ∷ c ∷ []) (grouped_rest cs),
      )
      | inr z ↦
          ground
            (arith, p, left, z, ih (acc ++ c ∷ []), append_assoc acc (c ∷ []) (grouped_rest cs))
    ]

-- What the fold makes of a text.
grouped : Text → Text
unfolding grouped_rest
grouped [] = []
grouped (c ∷ cs) = c ∷ grouped_rest cs

fold_chars-grouped : (s : Text) → fold_chars (length s) 0 s [] ≡ grouped s
unfolding fold_chars grouped
fold_chars-grouped [] = refl
fold_chars-grouped (c ∷ cs) =
    fold_chars_rest (suc (length cs)) 1 cs (c ∷ []) (omega arith) (omega arith)

length-grouped_rest : (s : Text) → length (grouped_rest s) ≡ length s + length s / 3
unfolding grouped_rest
length-grouped_rest [] = omega arith
length-grouped_rest (c ∷ cs) = ground (arith, length-grouped_rest cs)

grouped_rest-IsGrouped : (s : Text) → All IsDigit s → IsGrouped (grouped_rest s)
unfolding grouped_rest
grouped_rest-IsGrouped [] d = tt
grouped_rest-IsGrouped (c ∷ cs) d =
    let long = length-grouped_rest cs in
    let ih = grouped_rest-IsGrouped cs d.1 in
    elim (Bool-cases (length (c ∷ cs) % 3 == 0)) [
      | inl z ↦ rw z (
        (λ e. ground (arith, z, long), λ e. refl),
        ((λ e. ground (arith, e, d.0), λ e. ground (arith, long, e, z)), ih),
      )
      | inr z ↦ rw z ((λ e. ground (arith, e, d.0), λ e. ground (arith, long, e, z)), ih)
    ]

grouped-IsGrouped : (s : Text) → All IsDigit s → IsGrouped (grouped s)
unfolding grouped
grouped-IsGrouped [] d = tt
grouped-IsGrouped (c ∷ cs) d =
    let long = length-grouped_rest cs in
    ((λ e. ground (arith, e, d.0), λ e. ground (arith, long, e)), grouped_rest-IsGrouped cs d.1)

ungroup-grouped_rest : (s : Text) → All IsDigit s → ungroup (grouped_rest s) ≡ s
unfolding grouped_rest keep
ungroup-grouped_rest [] d = refl
ungroup-grouped_rest (c ∷ cs) d = ground (arith, d.0, ungroup-grouped_rest cs d.1)

ungroup-grouped : (s : Text) → All IsDigit s → ungroup (grouped s) ≡ s
unfolding grouped keep
ungroup-grouped [] d = refl
ungroup-grouped (c ∷ cs) d = ground (arith, d.0, ungroup-grouped_rest cs d.1)

length-zeros : (n : ℕ) → length (zeros n) ≡ n
unfolding zeros
length-zeros zero = refl
length-zeros (suc n) = ap suc (length-zeros n)

-- A number in groups of three digits, at least `min_width` of them.
pub record Formatted (n min_width : ℕ) (s : Text) : Type 0 where
  pub digits : All IsDigit (ungroup s)
  pub value : value_from 0 (ungroup s) ≡ n
  pub wide : min_width ≤ length (ungroup s)
  pub in_groups : IsGrouped s

-- A number below 2^64 is formatted as its decimal digits, padded to the minimal width, with
-- underscores: without the underscores there are digits alone, at least `min_width` of them, they
-- read as the number, and a character is an underscore exactly if 3, 7, 11 or so on characters come
-- after it.
pub format_grouped-Formatted :
    (n min_width : ℕ) → n < u64_mod → Formatted n min_width (format_grouped n min_width)
unfolding format_grouped padded
format_grouped-Formatted n min_width h =
    let s = padded n min_width in
    let ds = decimal 20 n in
    let digits =
      All-append IsDigit (zeros (min_width - length ds)) ds (zeros-IsDigit (min_width - length ds))
        (decimal-IsDigit 20 n) in
    let plain = ap ungroup (fold_chars-grouped s) ∙ ungroup-grouped s digits in
    record {
      digits = rw plain digits;
      value =
          ap (value_from 0) plain
          ∙ value_from-zeros (min_width - length ds) ds
          ∙ value_from-decimal 20 n (omega (arith, h));
      wide = rw plain (
          omega (
            arith,
            length-append (zeros (min_width - length ds)) ds,
            length-zeros (min_width - length ds),
          ));
      in_groups = rw (fold_chars-grouped s) (grouped-IsGrouped s digits);
    }
