-- ===== src/Float.antt =====
-- Python's floats, which the signals, the activity scores and the event rows compute with, as an
-- interface: the operations that the source uses, and of IEEE 754 only what the proofs need, all of
-- which holds with NaN and the infinities among the values.
pub mod Clamp
use panoptic.Common.{
  ℕ, zero, suc, ◌+◌, ◌-◌, ◌*◌, ◌/◌, ◌^◌, ◌≤◌, ◌<◌, ◌≡◌, refl, Bool, true, false, ltb, leb,
  if◌then◌else◌, arith,
}

pub record Float : Type 1 where
  pub Num : Type 0
  pub lt : Num → Num → Bool
  pub le : Num → Num → Bool
  pub add : Num → Num → Num
  pub sub : Num → Num → Num
  pub mul : Num → Num → Num
  pub div : Num → Num → Num
  -- float(n) of a whole number, and the literal a / 10 ** i
  pub of_nat : ℕ → Num
  pub literal : ℕ → ℕ → Num

pub record FloatLaws (F : Float) : Type 0 where
  pub lt_asymm : (a b : F.Num) → F.lt a b ≡ true → F.lt b a ≡ false
  pub lt_trans : (a b c : F.Num) → F.lt a b ≡ true → F.lt b c ≡ true → F.lt a c ≡ true
  pub lt_of_lt_of_le : (a b c : F.Num) → F.lt a b ≡ true → F.le b c ≡ true → F.lt a c ≡ true
  -- short decimals are told apart
  pub literal_lt :
      (a i b j : ℕ)
      → a ≤ 1000
      → b ≤ 1000
      → i ≤ 3
      → j ≤ 3
      → a * 10 ^ j < b * 10 ^ i
      → F.lt (F.literal a i) (F.literal b j) ≡ true

module _ (F : Float) where
  open F use {Num, lt, literal}

  -- max(a, b) and min(a, b): the first argument, unless the second is beyond it.
  unfoldable pub py_max : Num → Num → Num
  py_max a b = if lt a b then b else a

  unfoldable pub py_min : Num → Num → Num
  py_min a b = if lt b a then b else a

  -- Not below the one and not above the other.
  abbrev pub Within : Num → Num → Num → Type 0
  Within lo hi x = (lt x lo ≡ false) × (lt hi x ≡ false)

  -- Between 0.0 and 1.0.
  abbrev pub InUnit : Num → Type 0
  InUnit = Within (literal 0 0) (literal 1 0)

-- The decimals with three places, by which the laws can hold.
abbrev pub milli : Float
milli = record {
  Num = ℕ;
  lt = ltb;
  le = leb;
  add = λ a b. a + b;
  sub = λ a b. a - b;
  mul = λ a b. a * b / 1000;
  div = λ a b. a * 1000 / b;
  of_nat = λ n. n * 1000;
  literal = λ a i. a * 10 ^ (3 - i);
}
