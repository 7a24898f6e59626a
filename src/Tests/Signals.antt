-- ===== src/Tests/Signals.antt =====
-- Markers and scores at concrete inputs, over the decimals with three places.
use panoptic.Common.{ℕ, Bool, true, none, some, List, All}
use panoptic.Float.{milli, InUnit}
use panoptic.Float.Clamp.{milli-FloatLaws}
use panoptic.Signals.{Marker, MarkerKey, Fragment, BucketHistory, derive_history_markers}
use panoptic.Signals.Bounds.{derive_history_markers_bounded}
use panoptic.Activity.{ActivityComponents, CameraStats}

abbrev anomalous : Fragment milli
anomalous = record {
  total_detections = 4;
  anomaly_flag = 1;
  anomaly_score = some 800;
  max_count_at = none;
}

-- A camera with a long history, a quiet night and no activity yet today.
abbrev quiet_until_now : BucketHistory milli
quiet_until_now = record {
  rolling_mean_total_detections = 20000;
  rolling_std_total_detections = 2000;
  rolling_bucket_sample_size = 60;
  first_active_bucket_start_today = none;
  recent_quiet_run_minutes = 300;
  typical_first_active_hour_utc = some 7;
  day_baseline_days_considered = 7;
  day_baseline_days_with_activity = 6;
}

-- 11:00 and 22:00 UTC
abbrev late_morning : ℕ
late_morning = 39600

abbrev night : ℕ
night = 79200

abbrev every_key : MarkerKey → Bool
every_key k = true

derive_history_markers_bounded_example :
    All
      (λ m. InUnit milli m.confidence)
      (derive_history_markers milli 6 late_morning quiet_until_now (some every_key))
derive_history_markers_bounded_example =
    derive_history_markers_bounded milli milli-FloatLaws 6 late_morning quiet_until_now
      (some every_key)

abbrev markers_late : List (Marker milli)
markers_late = derive_history_markers milli 6 late_morning quiet_until_now (some every_key)

abbrev empty_scene : ActivityComponents milli
empty_scene = record { object_count_total = 0; unique_object_classes = 0; temporal_variance = 0 }

abbrev usual : CameraStats milli
usual = record {
  mean_object_count = 9000;
  std_object_count = 2000;
  mean_unique_classes = 2000;
  std_unique_classes = 1000;
  mean_temporal_variance = 500;
  std_temporal_variance = 100;
}
