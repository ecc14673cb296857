-- ===== src/Prelude/Ord.antt =====
-- Rust's `Ord` with the laws that the trait asks of `cmp`; the tests that `<`, `<=` and `==` are;
-- the order of `Option`, where `None` is below every `Some`; and the order of `u64`.
use Prim.Native.Nat.{ℕ, ◌<◌, ◌≤◌, compare, Ordering}
use mathlib.Core.Path.{◌≡◌}
use mathlib.Core.Logic.{◌⊎◌, ◌↔◌}
use mathlib.Core.Bool.{Bool, true, false, not}
use mathlib.Core.Option.{Option, none, some}
use native.Mathlib.Omega.{arith}

abbrev pub reversed : Ordering → Ordering
reversed Ordering.lt = Ordering.gt
reversed Ordering.eq = Ordering.eq
reversed Ordering.gt = Ordering.lt

pub record Ord (K : Type 0) : Type 0 where
  pub cmp : K → K → Ordering
  pub cmp_self : (a : K) → cmp a a ≡ Ordering.eq
  pub eq_of_cmp : (a b : K) → cmp a b ≡ Ordering.eq → a ≡ b
  pub cmp_swap : (a b : K) → cmp b a ≡ reversed (cmp a b)
  pub cmp_trans :
      (a b c : K) → cmp a b ≡ Ordering.lt → cmp b c ≡ Ordering.lt → cmp a c ≡ Ordering.lt

abbrev pub is_lt : Ordering → Bool
is_lt Ordering.lt = true
is_lt Ordering.eq = false
is_lt Ordering.gt = false

abbrev pub is_le : Ordering → Bool
is_le Ordering.lt = true
is_le Ordering.eq = true
is_le Ordering.gt = false

abbrev pub is_eq : Ordering → Bool
is_eq Ordering.lt = false
is_eq Ordering.eq = true
is_eq Ordering.gt = false

module _ {K : Type 0} (o : Ord K) where
  unfoldable pub lt : K → K → Bool
  lt a b = is_lt (o.cmp a b)

  unfoldable pub le : K → K → Bool
  le a b = is_le (o.cmp a b)

  unfoldable pub equal : K → K → Bool
  equal a b = is_eq (o.cmp a b)

  pub lt_self : (a : K) → lt a a ≡ false
  unfolding lt
  lt_self a = ground (arith, o.cmp_self a)

  pub le_self : (a : K) → le a a ≡ true
  unfolding le
  le_self a = ground (arith, o.cmp_self a)

  pub le-not-lt : (a b : K) → le a b ≡ not (lt b a)
  unfolding lt le
  le-not-lt a b = ground (arith, o.cmp_swap a b)

  pub lt-not-le : (a b : K) → lt a b ≡ not (le b a)
  unfolding lt le
  lt-not-le a b = ground (arith, o.cmp_swap a b)

  pub lt_trans : (a b c : K) → lt a b ≡ true → lt b c ≡ true → lt a c ≡ true
  unfolding lt
  lt_trans a b c h k = ground (arith, o.cmp_trans a b c)

  pub le_of_lt : (a b : K) → lt a b ≡ true → le a b ≡ true
  unfolding lt le
  le_of_lt a b h = ground arith

  pub lt_or_eq : (a b : K) → le a b ≡ true → (lt a b ≡ true) ⊎ (a ≡ b)
  unfolding lt le
  lt_or_eq a b h = ground (arith, o.eq_of_cmp a b)

  pub eq_of_le-le : (a b : K) → le a b ≡ true → le b a ≡ true → a ≡ b
  unfolding le
  eq_of_le-le a b h k = ground (arith, o.eq_of_cmp a b, o.cmp_swap a b)

  pub lt-le_trans : (a b c : K) → lt a b ≡ true → le b c ≡ true → lt a c ≡ true
  lt-le_trans a b c h k = ground (arith, lt_or_eq b c k, lt_trans a b c)

  pub le-lt_trans : (a b c : K) → le a b ≡ true → lt b c ≡ true → lt a c ≡ true
  le-lt_trans a b c h k = ground (arith, lt_or_eq a b h, lt_trans a b c)

  pub le_trans : (a b c : K) → le a b ≡ true → le b c ≡ true → le a c ≡ true
  le_trans a b c h k = ground (arith, lt_or_eq a b h, lt-le_trans a b c, le_of_lt a c)

  pub equal-eq : (a b : K) → equal a b ≡ true → a ≡ b
  unfolding equal
  equal-eq a b h = ground (arith, o.eq_of_cmp a b)

  pub equal_self : (a : K) → equal a a ≡ true
  unfolding equal
  equal_self a = ground (arith, o.cmp_self a)

  unfoldable pub option_cmp : Option K → Option K → Ordering
  option_cmp none none = Ordering.eq
  option_cmp none (some b) = Ordering.lt
  option_cmp (some a) none = Ordering.gt
  option_cmp (some a) (some b) = o.cmp a b

  pub option_self : (a : Option K) → option_cmp a a ≡ Ordering.eq
  unfolding option_cmp
  option_self none = ground arith
  option_self (some a) = o.cmp_self a

  pub option_eq : (a b : Option K) → option_cmp a b ≡ Ordering.eq → a ≡ b
  unfolding option_cmp
  option_eq none none h = ground arith
  option_eq none (some b) h = ground arith
  option_eq (some a) none h = ground arith
  option_eq (some a) (some b) h = ground (arith, o.eq_of_cmp a b)

  pub option_swap : (a b : Option K) → option_cmp b a ≡ reversed (option_cmp a b)
  unfolding option_cmp
  option_swap none none = ground arith
  option_swap none (some b) = ground arith
  option_swap (some a) none = ground arith
  option_swap (some a) (some b) = o.cmp_swap a b

  pub option_trans :
      (a b c : Option K)
      → option_cmp a b ≡ Ordering.lt
      → option_cmp b c ≡ Ordering.lt
      → option_cmp a c ≡ Ordering.lt
  unfolding option_cmp
  option_trans none none c h k = ground arith
  option_trans (some a) none c h k = ground arith
  option_trans none (some b) none h k = ground arith
  option_trans (some a) (some b) none h k = ground arith
  option_trans none (some b) (some c) h k = ground arith
  option_trans (some a) (some b) (some c) h k = o.cmp_trans a b c h k

module _ {K : Type 0} (o : Ord K) where
  unfoldable pub option_ord : Ord (Option K)
  unfolding option_cmp
  option_ord = record {
    cmp = option_cmp o;
    cmp_self = option_self o;
    eq_of_cmp = option_eq o;
    cmp_swap = option_swap o;
    cmp_trans = option_trans o;
  }

  -- `Some` keeps the order, and `None` is below everything.
  pub le-some : (a b : K) → le option_ord (some a) (some b) ≡ le o a b
  unfolding le option_ord option_cmp
  le-some a b = ground arith

  pub lt-some : (a b : K) → lt option_ord (some a) (some b) ≡ lt o a b
  unfolding lt option_ord option_cmp
  lt-some a b = ground arith

  pub lt-none-some : (a : K) → lt option_ord none (some a) ≡ true
  unfolding lt option_ord option_cmp
  lt-none-some a = ground arith

  pub not-le-none : (a : K) → le option_ord (some a) none ≡ false
  unfolding le option_ord option_cmp
  not-le-none a = ground arith

  pub le-none : (a : Option K) → le option_ord none a ≡ true
  unfolding le option_ord option_cmp
  le-none none = ground arith
  le-none (some a) = ground arith

  pub not-lt-none : (a : Option K) → lt option_ord a none ≡ false
  unfolding lt option_ord option_cmp
  not-lt-none none = ground arith
  not-lt-none (some a) = ground arith

-- `u64` compares as a number.
pub u64_self : (a : ℕ) → compare a a ≡ Ordering.eq
u64_self a = ground arith

pub u64_eq : (a b : ℕ) → compare a b ≡ Ordering.eq → a ≡ b
u64_eq a b h = ground arith

pub u64_swap : (a b : ℕ) → compare b a ≡ reversed (compare a b)
u64_swap a b = ground arith

pub u64_trans :
    (a b c : ℕ) → compare a b ≡ Ordering.lt → compare b c ≡ Ordering.lt → compare a c ≡ Ordering.lt
u64_trans a b c h k = ground arith

unfoldable pub u64_ord : Ord ℕ
u64_ord = record {
  cmp = compare;
  cmp_self = u64_self;
  eq_of_cmp = u64_eq;
  cmp_swap = u64_swap;
  cmp_trans = u64_trans;
}

pub lt_u64 : (a b : ℕ) → (lt u64_ord a b ≡ true) ↔ (a < b)
unfolding lt u64_ord
lt_u64 a b = ground arith

pub le_u64 : (a b : ℕ) → (le u64_ord a b ≡ true) ↔ (a ≤ b)
unfolding le u64_ord
le_u64 a b = ground arith
