-- ===== src/Signals.antt =====
-- Marker derivation (shared/signals/derive.py). Times are whole seconds UTC; a marker keeps the
-- time whose ISO form it carries. Floats are those of an interface.
pub mod Bounds
pub mod Families
pub mod Gates
use Prim.Native.String.{String}
use panoptic.Common.{
  ℕ, ◌+◌, ◌-◌, ◌*◌, ◌/◌, ◌%◌, Bool, true, false, ◌&&◌, ◌||◌, Option, none, some, List, [], ◌∷◌,
  ◌++◌, if◌then◌else◌, ltb, leb, ◌==◌, any, is_some,
}
use panoptic.Float.{Float, py_max, py_min}

pub data MarkerKey : Type 0 where
  spike after_hours drop start late_start underperforming : MarkerKey

abbrev pub key_eq : MarkerKey → MarkerKey → Bool
key_eq spike spike = true
key_eq after_hours after_hours = true
key_eq drop drop = true
key_eq start start = true
key_eq late_start late_start = true
key_eq underperforming underperforming = true
key_eq _ _ = false

-- datetime.hour
abbrev pub hour_of : ℕ → ℕ
hour_of t = t / 3600 % 24

abbrev pub after_hours_start_hour : ℕ
after_hours_start_hour = 21

abbrev pub after_hours_end_hour : ℕ
after_hours_end_hour = 6

abbrev pub is_after_hours : ℕ → Bool
is_after_hours hour = ltb hour after_hours_end_hour || leb after_hours_start_hour hour

-- PRODUCED_HISTORY_MARKERS
abbrev pub produced_history_markers : MarkerKey → Bool
produced_history_markers drop = true
produced_history_markers start = true
produced_history_markers late_start = true
produced_history_markers _ = false

module _ (F : Float) where
  open F use {Num, lt, le, sub, mul, div, of_nat, literal}
  open F use {add}

  pub record Marker : Type 0 where
    pub ts : ℕ
    pub event_type : MarkerKey
    pub label : String
    pub confidence : Num

  -- The fields of a TrailerBucketData that the derivation reads.
  pub record Fragment : Type 0 where
    pub total_detections : ℕ
    pub anomaly_flag : ℕ
    pub anomaly_score : Option Num
    pub max_count_at : Option ℕ

  pub record BucketHistory : Type 0 where
    pub rolling_mean_total_detections : Num
    pub rolling_std_total_detections : Num
    pub rolling_bucket_sample_size : ℕ
    pub first_active_bucket_start_today : Option ℕ
    pub recent_quiet_run_minutes : ℕ
    pub typical_first_active_hour_utc : Option ℕ
    pub day_baseline_days_considered : ℕ
    pub day_baseline_days_with_activity : ℕ

  abbrev pub clamp : Num → Num → Num → Num
  clamp lo hi x = py_max F lo (py_min F hi x)

  abbrev or_time : Option ℕ → ℕ → ℕ
  or_time none t = t
  or_time (some s) t = s

  unfoldable pub spike_of : ℕ → Fragment → Option Num → List Marker
  spike_of bucket_start frag none = []
  spike_of bucket_start frag (some score) =
      if frag.anomaly_flag == 1 && le (literal 7 1) score
      then record {
        ts = or_time frag.max_count_at bucket_start;
        event_type = spike;
        label = "activity_spike";
        confidence = py_min F score (literal 1 0);
      }
        ∷ []
      else []

  unfoldable pub spikes : ℕ → List Fragment → List Marker
  spikes bucket_start [] = []
  spikes bucket_start (frag ∷ frags) =
      spike_of bucket_start frag frag.anomaly_score ++ spikes bucket_start frags

  unfoldable pub derive_markers : List Fragment → ℕ → List Marker
  derive_markers fragments bucket_start =
      spikes bucket_start fragments
      ++ (if is_after_hours (hour_of bucket_start) && any (λ f. ltb 0 f.total_detections) fragments
          then record {
            ts = bucket_start;
            event_type = after_hours;
            label = "after hours activity";
            confidence = literal 9 1;
          }
            ∷ []
          else [])

  unfoldable pub drop_confidence : ℕ → BucketHistory → Num
  drop_confidence total history = clamp (literal 0 0) (literal 1 0) (
      div (sub history.rolling_mean_total_detections (of_nat total))
        (add history.rolling_std_total_detections (literal 1 0)))

  unfoldable pub derive_drop : ℕ → ℕ → BucketHistory → Option Marker
  derive_drop total bucket_start history =
      let threshold =
        sub history.rolling_mean_total_detections
          (mul (literal 2 0) history.rolling_std_total_detections) in
      if ltb history.rolling_bucket_sample_size 16
      then none
      else if lt history.rolling_mean_total_detections (literal 5 0)
      then none
      else if is_after_hours (hour_of bucket_start)
      then none
      else if lt threshold (literal 1 0)
      then none
      else if le threshold (of_nat total)
      then none
      else some (record {
        ts = bucket_start;
        event_type = drop;
        label = "activity_drop";
        confidence = drop_confidence total history;
      })

  unfoldable pub derive_start : ℕ → ℕ → BucketHistory → Option Marker
  derive_start total bucket_start history =
      if ltb history.recent_quiet_run_minutes 120
      then none
      else if ltb total 5
      then none
      else if is_some history.first_active_bucket_start_today
      then none
      else some (record {
        ts = bucket_start;
        event_type = start;
        label = "start of activity";
        confidence = literal 9 1;
      })

  -- `delay` is hour_delay - _LATE_START_HOUR_DELAY_THRESHOLD, which is not negative here.
  unfoldable pub late_start_confidence : ℕ → Num
  late_start_confidence delay = clamp (literal 5 1) (literal 1 0) (div (of_nat delay) (literal 6 0))

  unfoldable pub late_start_after : ℕ → ℕ → BucketHistory → Option ℕ → Option Marker
  late_start_after total bucket_start history none = none
  late_start_after total bucket_start history (some typical) =
      if ltb history.day_baseline_days_with_activity 5
      then none
      else if is_some history.first_active_bucket_start_today
      then none
      else if ltb total 5
      then none
      else if ltb (hour_of bucket_start) (typical + 2)
      then none
      else some (record {
        ts = bucket_start;
        event_type = late_start;
        label = "late start";
        confidence = late_start_confidence (hour_of bucket_start - typical - 2);
      })

  unfoldable pub derive_late_start : ℕ → ℕ → BucketHistory → Option Marker
  derive_late_start total bucket_start history =
      late_start_after total bucket_start history history.typical_first_active_hour_utc

  unfoldable pub underperforming_confidence : ℕ → BucketHistory → Num
  underperforming_confidence total history = clamp (literal 3 1) (literal 1 0) (
      div (sub history.rolling_mean_total_detections (of_nat total))
        (add (mul history.rolling_std_total_detections (literal 3 0)) (literal 1 0)))

  -- The gates on the hour and on the warm-up.
  unfoldable pub is_in_work_window : ℕ → Option ℕ → Option ℕ → Bool
  is_in_work_window bucket_start none first = false
  is_in_work_window bucket_start (some typical) none = false
  is_in_work_window bucket_start (some typical) (some first) =
      leb typical (hour_of bucket_start)
      && ltb (hour_of bucket_start) (typical + 10)
      && leb 30 ((bucket_start - first) / 60)

  unfoldable pub derive_underperforming : ℕ → ℕ → BucketHistory → Option Marker
  derive_underperforming total bucket_start history =
      let threshold =
        sub history.rolling_mean_total_detections
          (mul (literal 15 1) history.rolling_std_total_detections) in
      if ltb history.rolling_bucket_sample_size 40
      then none
      else if lt history.rolling_mean_total_detections (literal 10 0)
      then none
      else if leb total 0
      then none
      else if le threshold (of_nat total)
      then none
      else if is_in_work_window bucket_start history.typical_first_active_hour_utc
          history.first_active_bucket_start_today
      then some (record {
        ts = bucket_start;
        event_type = underperforming;
        label = "site underperforming";
        confidence = underperforming_confidence total history;
      })
      else none

  -- A marker family that is attempted adds its marker, if it fires.
  abbrev pub attempted : Bool → Option Marker → List Marker
  attempted false m = []
  attempted true none = []
  attempted true (some m) = m ∷ []

  abbrev pub allowed_markers : Option (MarkerKey → Bool) → MarkerKey → Bool
  allowed_markers none = produced_history_markers
  allowed_markers (some produce) = produce

  unfoldable pub derive_history_markers :
      ℕ → ℕ → BucketHistory → Option (MarkerKey → Bool) → List Marker
  derive_history_markers total bucket_start history produce =
      let allowed = allowed_markers produce in
      attempted (allowed drop) (derive_drop total bucket_start history)
      ++ (attempted (allowed start) (derive_start total bucket_start history)
          ++ (attempted (allowed late_start) (derive_late_start total bucket_start history)
              ++ attempted (allowed underperforming)
                  (derive_underperforming total bucket_start history)))
