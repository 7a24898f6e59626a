-- ===== src/Activity.antt =====
-- The activity score (shared/utils/activity.py) and the score of a camera without history
-- (_raw_activity_score of shared/clients/cognia.py).
pub mod Scores
use panoptic.Common.{ℕ, Bool, true, false, ◌&&◌, if◌then◌else◌, ◌==◌}
use panoptic.Float.{Float, py_max, py_min}

module _ (F : Float) where
  open F use {Num, lt, le, add, sub, mul, div, of_nat, literal}

  pub record ActivityComponents : Type 0 where
    pub object_count_total : ℕ
    pub unique_object_classes : ℕ
    pub temporal_variance : Num

  pub record CameraStats : Type 0 where
    pub mean_object_count : Num
    pub std_object_count : Num
    pub mean_unique_classes : Num
    pub std_unique_classes : Num
    pub mean_temporal_variance : Num
    pub std_temporal_variance : Num

  -- `epsilon` is the literal 1e-9.
  abbrev pub epsilon : Num
  epsilon = literal 1 9

  unfoldable pub clamp_to : Num → Num → Num → Num
  clamp_to value lo hi = py_max F lo (py_min F hi value)

  unfoldable pub bounded_zscore : Num → Num → Num → Num
  bounded_zscore value mean std =
      let z = div (sub value mean) (py_max F std epsilon) in
      clamp_to (div (add z (literal 3 0)) (literal 6 0)) (literal 0 0) (literal 1 0)

  -- 0.5 * n + 0.2 * u + 0.3 * v
  unfoldable pub weighted : Num → Num → Num → Num
  weighted n u v = add (add (mul (literal 5 1) n) (mul (literal 2 1) u)) (mul (literal 3 1) v)

  unfoldable pub compute_activity_score : ActivityComponents → CameraStats → Bool → Num
  compute_activity_score components camera_stats stream_coverage_ok =
      if components.object_count_total == 0 && stream_coverage_ok
      then literal 0 0
      else clamp_to
          (weighted
            (bounded_zscore (of_nat components.object_count_total) camera_stats.mean_object_count
              camera_stats.std_object_count)
            (bounded_zscore (of_nat components.unique_object_classes)
              camera_stats.mean_unique_classes camera_stats.std_unique_classes)
            (bounded_zscore components.temporal_variance camera_stats.mean_temporal_variance
              camera_stats.std_temporal_variance))
          (literal 0 0) (literal 1 0)

  -- The test `c1 == 0.0` on floats.
  abbrev pub is_zero : Num → Bool
  is_zero x = le x (literal 0 0) && le (literal 0 0) x

  unfoldable pub raw_activity_score : Num → Num → Num → Bool → Num
  raw_activity_score c1 c2 c3 stream_coverage_ok =
      if is_zero c1 && stream_coverage_ok
      then literal 0 0
      else py_max F (literal 0 0) (py_min F (literal 1 0) (weighted c1 c2 c3))
