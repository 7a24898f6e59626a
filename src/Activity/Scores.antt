-- ===== src/Activity/Scores.antt =====
-- The scores stay in their range, and an empty scene scores nothing.
use panoptic.Common.{
  ◌≡◌, refl, ◌⊎◌, Bool, true, false, ◌&&◌, if◌then◌else◌, Bool-cases, inl, inr, arith, ◌==◌,
}
use panoptic.Float.{Float, FloatLaws, InUnit}
use panoptic.Float.Clamp.{clamp-Within, lt_irrefl}
use panoptic.Activity.{
  ActivityComponents, CameraStats, clamp_to, bounded_zscore, compute_activity_score,
  raw_activity_score, is_zero,
}

module _ (F : Float) (L : FloatLaws F) where
  zero_lt_one : F.lt (F.literal 0 0) (F.literal 1 0) ≡ true
  zero_lt_one =
      L.literal_lt 0 0 1 0 (omega arith) (omega arith) (omega arith) (omega arith) (omega arith)

  clamp_to-InUnit : (x : F.Num) → InUnit F (clamp_to F x (F.literal 0 0) (F.literal 1 0))
  unfolding clamp_to
  clamp_to-InUnit x = clamp-Within F L _ _ x zero_lt_one

  zero-InUnit : InUnit F (F.literal 0 0)
  zero-InUnit = (lt_irrefl F L _, L.lt_asymm _ _ zero_lt_one)

  computed-InUnit :
      (c : ActivityComponents F) (s : CameraStats F) (covered : Bool)
      → InUnit F (compute_activity_score F c s covered)
  unfolding compute_activity_score
  computed-InUnit c s covered = elim (Bool-cases (c.object_count_total == 0 && covered)) [
    | inl e ↦ rw e zero-InUnit
    | inr e ↦ rw e (clamp_to-InUnit _)
  ]

  raw-InUnit :
      (c1 c2 c3 : F.Num) (covered : Bool) → InUnit F (raw_activity_score F c1 c2 c3 covered)
  unfolding raw_activity_score
  raw-InUnit c1 c2 c3 covered = elim (Bool-cases (is_zero F c1 && covered)) [
    | inl e ↦ rw e zero-InUnit
    | inr e ↦ rw e (clamp-Within F L _ _ _ zero_lt_one)
  ]

  -- The score of an empty scene whose stream was covered, if the scene is one.
  empty_or : {A : Type 0} (b : Bool) (x y : A) → (b ≡ false) ⊎ ((if b then x else y) ≡ x)
  empty_or true x y = inr refl
  empty_or false x y = inl refl

  -- Under the laws of Float, every z-score and both activity scores lie between 0.0 and 1.0,
  -- whatever the components, the means and the deviations are; and either score is exactly 0.0,
  -- unless its scene is not empty or its stream was not covered.
  pub scores_lem :
      (value mean std : F.Num) (c : ActivityComponents F) (s : CameraStats F) (c1 c2 c3 : F.Num)
      (covered : Bool)
      → InUnit F (bounded_zscore F value mean std)
        × InUnit F (compute_activity_score F c s covered)
        × InUnit F (raw_activity_score F c1 c2 c3 covered)
        × (((c.object_count_total == 0 && covered) ≡ false)
            ⊎ (compute_activity_score F c s covered ≡ F.literal 0 0))
        × (((is_zero F c1 && covered) ≡ false)
            ⊎ (raw_activity_score F c1 c2 c3 covered ≡ F.literal 0 0))
  unfolding bounded_zscore compute_activity_score raw_activity_score
  scores_lem value mean std c s c1 c2 c3 covered = (
    clamp_to-InUnit _,
    computed-InUnit c s covered,
    raw-InUnit c1 c2 c3 covered,
    empty_or (c.object_count_total == 0 && covered) (F.literal 0 0) _,
    empty_or (is_zero F c1 && covered) (F.literal 0 0) _,
  )
