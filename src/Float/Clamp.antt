-- ===== src/Float/Clamp.antt =====
-- Clamping puts any float into the range, NaN included.
use panoptic.Common.{
  ℕ, zero, suc, ◌-◌, ◌*◌, ◌^◌, ◌≤◌, ◌<◌, ◌≡◌, sym, ◌∙◌, true, false, arith, Bool-cases, inl, inr,
}
use panoptic.Float.{Float, FloatLaws, py_max, py_min, Within, InUnit, milli}

module _ (F : Float) (L : FloatLaws F) where
  pub lt_irrefl : (a : F.Num) → F.lt a a ≡ false
  lt_irrefl a = elim (Bool-cases (F.lt a a)) [ inl e ↦ L.lt_asymm a a e | inr e ↦ e ]

  -- max(lo, min(hi, x))
  pub clamp-Within :
      (lo hi x : F.Num) → F.lt lo hi ≡ true → Within F lo hi (py_max F lo (py_min F hi x))
  unfolding py_max py_min
  clamp-Within lo hi x h =
      ground
        (arith, L.lt_asymm x hi, L.lt_asymm lo x, L.lt_asymm lo hi h, lt_irrefl lo, lt_irrefl hi)

  pub literal-Within :
      (a i b j c k : ℕ)
      → a ≤ 1000
      → b ≤ 1000
      → c ≤ 1000
      → i ≤ 3
      → j ≤ 3
      → k ≤ 3
      → a * 10 ^ k < c * 10 ^ i
      → c * 10 ^ j < b * 10 ^ k
      → Within F (F.literal a i) (F.literal b j) (F.literal c k)
  literal-Within a i b j c k ha hb hc hi hj hk lo hi' = (
    L.lt_asymm _ _ (L.literal_lt a i c k ha hc hi hk lo),
    L.lt_asymm _ _ (L.literal_lt c k b j hc hb hk hj hi'),
  )

-- A range that starts at one to nine tenths and ends at one lies in the unit range.
pub tenths-InUnit :
    (F : Float)
    → FloatLaws F
    → (a : ℕ) (x : F.Num) → 0 < a
    → a < 10
    → Within F (F.literal a 1) (F.literal 1 0) x
    → InUnit F x
tenths-InUnit F L a x p h w = elim (Bool-cases (F.lt x (F.literal 0 0))) [
  | inl below ↦ absurd (
      cc (
        sym w.0
        ∙ L.lt_trans x (F.literal 0 0) (F.literal a 1) below (
            L.literal_lt 0 0 a 1 (omega arith) (omega arith) (omega arith) (omega arith)
              (omega arith))))
  | inr above ↦ (above, w.1)
]

scale :
    (a b i j : ℕ) → i ≤ 3 → j ≤ 3 → a * 10 ^ j < b * 10 ^ i → a * 10 ^ (3 - i) < b * 10 ^ (3 - j)
scale a b zero zero p q h = omega arith
scale a b zero (suc zero) p q h = omega arith
scale a b zero (suc (suc zero)) p q h = omega arith
scale a b zero (suc (suc (suc zero))) p q h = omega arith
scale a b (suc zero) zero p q h = omega arith
scale a b (suc zero) (suc zero) p q h = omega arith
scale a b (suc zero) (suc (suc zero)) p q h = omega arith
scale a b (suc zero) (suc (suc (suc zero))) p q h = omega arith
scale a b (suc (suc zero)) zero p q h = omega arith
scale a b (suc (suc zero)) (suc zero) p q h = omega arith
scale a b (suc (suc zero)) (suc (suc zero)) p q h = omega arith
scale a b (suc (suc zero)) (suc (suc (suc zero))) p q h = omega arith
scale a b (suc (suc (suc zero))) zero p q h = omega arith
scale a b (suc (suc (suc zero))) (suc zero) p q h = omega arith
scale a b (suc (suc (suc zero))) (suc (suc zero)) p q h = omega arith
scale a b (suc (suc (suc zero))) (suc (suc (suc zero))) p q h = omega arith
scale a b (suc (suc (suc (suc i)))) j p q h = absurd (omega arith)
scale a b i (suc (suc (suc (suc j)))) p q h = absurd (omega arith)

pub milli-FloatLaws : FloatLaws milli
milli-FloatLaws = record {
  lt_asymm = λ a b h. ground arith;
  lt_trans = λ a b c h k. ground arith;
  lt_of_lt_of_le = λ a b c h k. ground arith;
  literal_lt = λ a i b j ha hb hi hj h. ground (arith, scale a b i j hi hj h);
}
