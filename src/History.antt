-- ===== src/History.antt =====
-- The history of a camera before a bucket (shared/signals/history.py): its queries, over the rows of
-- panoptic_buckets. The mean and the standard deviation of Python's statistics are parameters.
pub mod Past
use panoptic.Common.{
  ℕ, ◌+◌, ◌-◌, ◌*◌, ◌/◌, ◌%◌, Bool, true, false, ◌&&◌, Option, none, some, List, [], ◌∷◌,
  if◌then◌else◌, ltb, leb, ◌==◌, length, take, select, map, min,
}
use panoptic.Float.{Float}
use panoptic.Signals.{BucketHistory, hour_of}
use panoptic.Buckets.{BucketRecord}

abbrev pub rolling_window_buckets : ℕ
rolling_window_buckets = 96

abbrev pub day_baseline_window_days : ℕ
day_baseline_window_days = 14

abbrev pub quiet_floor_detections : ℕ
quiet_floor_detections = 1

abbrev pub quiet_run_cap_minutes : ℕ
quiet_run_cap_minutes = 1440

abbrev pub day_seconds : ℕ
day_seconds = 86400

-- _utc_day_floor
abbrev pub utc_day_floor : ℕ → ℕ
utc_day_floor ts = ts - ts % day_seconds

-- MIN and MAX of a column; NULL over no row.
unfoldable pub earliest : List ℕ → Option ℕ
earliest [] = none
earliest (t ∷ ts) = elim (earliest ts) [ none ↦ some t | some s ↦ some (if leb t s then t else s) ]

unfoldable pub latest : List ℕ → Option ℕ
latest [] = none
latest (t ∷ ts) = elim (latest ts) [ none ↦ some t | some s ↦ some (if leb s t then t else s) ]

-- GROUP BY day, with the MIN of each group.
unfoldable pub add_to_day : ℕ → List (ℕ × ℕ) → List (ℕ × ℕ)
add_to_day t [] = (t / day_seconds, t) ∷ []
add_to_day t ((day, first) ∷ days) =
    if day == t / day_seconds
    then (day, if leb t first then t else first) ∷ days
    else (day, first) ∷ add_to_day t days

unfoldable pub first_of_days : List ℕ → List (ℕ × ℕ)
first_of_days [] = []
first_of_days (t ∷ ts) = add_to_day t (first_of_days ts)

unfoldable pub insert_number : ℕ → List ℕ → List ℕ
insert_number n [] = n ∷ []
insert_number n (m ∷ ms) = if leb n m then n ∷ m ∷ ms else m ∷ insert_number n ms

unfoldable pub sort_numbers : List ℕ → List ℕ
sort_numbers [] = []
sort_numbers (n ∷ ns) = insert_number n (sort_numbers ns)

-- An index into a list that is not empty there; past the end it is 0.
unfoldable pub number_at : ℕ → List ℕ → ℕ
number_at i [] = 0
number_at i (n ∷ ns) = if i == 0 then n else number_at (i - 1) ns

-- int(statistics.median(ns)): the middle of the sorted numbers, or half the sum of the middle two.
unfoldable pub median : List ℕ → ℕ
median ns =
    let sorted = sort_numbers ns in
    let half = length ns / 2 in
    if length ns % 2 == 1
    then number_at half sorted
    else (number_at (half - 1) sorted + number_at half sorted) / 2

module _ (F : Float) (mean stdev : List F.Num → F.Num) where
  open F use {Num, of_nat, literal}

  -- WHERE serial_number = :sn AND camera_id = :cam
  abbrev pub is_of_camera : ℕ → ℕ → BucketRecord F → Bool
  is_of_camera serial camera b = b.serial_number == serial && b.camera_id == camera

  abbrev pub is_before : ℕ → ℕ → ℕ → BucketRecord F → Bool
  is_before serial camera t b = is_of_camera serial camera b && ltb b.bucket_start_utc t

  abbrev pub detections : BucketRecord F → ℕ
  detections b = b.activity_components.base.object_count_total

  abbrev pub is_active_row : BucketRecord F → Bool
  is_active_row b = leb quiet_floor_detections (detections b)

  -- ORDER BY bucket_start_utc DESC
  unfoldable pub insert_latest : BucketRecord F → List (BucketRecord F) → List (BucketRecord F)
  insert_latest b [] = b ∷ []
  insert_latest b (c ∷ rows) =
      if leb c.bucket_start_utc b.bucket_start_utc then b ∷ c ∷ rows else c ∷ insert_latest b rows

  unfoldable pub latest_first : List (BucketRecord F) → List (BucketRecord F)
  latest_first [] = []
  latest_first (b ∷ rows) = insert_latest b (latest_first rows)

  unfoldable pub rolling_stats : List Num → Num × Num × ℕ
  rolling_stats [] = (literal 0 0, literal 0 0, 0)
  rolling_stats (c ∷ []) = (mean (c ∷ []), literal 0 0, 1)
  rolling_stats (c ∷ d ∷ counts) =
      (mean (c ∷ d ∷ counts), stdev (c ∷ d ∷ counts), length (c ∷ d ∷ counts))

  -- _fetch_rolling_stats
  unfoldable pub fetch_rolling_stats : ℕ → ℕ → ℕ → List (BucketRecord F) → Num × Num × ℕ
  fetch_rolling_stats serial camera t rows = rolling_stats (
      map (λ b. of_nat (detections b))
        (take rolling_window_buckets (latest_first (select (is_before serial camera t) rows))))

  abbrev pub quiet_minutes : ℕ → Option ℕ → ℕ
  quiet_minutes t none = quiet_run_cap_minutes
  quiet_minutes t (some last_end) = min quiet_run_cap_minutes ((t - last_end) / 60)

  -- WHERE ... AND bucket_start_utc >= :low AND bucket_start_utc < :high AND active
  abbrev pub is_active_between : ℕ → ℕ → ℕ → ℕ → BucketRecord F → Bool
  is_active_between serial camera low high b =
      is_before serial camera high b && (leb low b.bucket_start_utc && is_active_row b)

  -- _fetch_same_day_context
  unfoldable pub fetch_same_day_context : ℕ → ℕ → ℕ → List (BucketRecord F) → Option ℕ × ℕ
  fetch_same_day_context serial camera t rows = (
    earliest (
        map (λ b. b.bucket_start_utc)
          (select (is_active_between serial camera (utc_day_floor t) t) rows)),
    quiet_minutes t
        (latest (map (λ b. b.bucket_end_utc) (select (is_active_between serial camera 0 t) rows))),
  )

  abbrev pub typical_hour : List (ℕ × ℕ) → Option ℕ
  typical_hour [] = none
  typical_hour (d ∷ days) = some (median (map (λ x. hour_of x.1) (d ∷ days)))

  -- _fetch_day_baseline, without the number of days considered
  unfoldable pub fetch_day_baseline : ℕ → ℕ → ℕ → List (BucketRecord F) → Option ℕ × ℕ
  fetch_day_baseline serial camera t rows =
      let low = utc_day_floor t - day_baseline_window_days * day_seconds in
      let days = first_of_days (
        map (λ b. b.bucket_start_utc)
          (select (is_active_between serial camera low (utc_day_floor t)) rows)) in
      (typical_hour days, length days)

  unfoldable pub fetch_bucket_history : ℕ → ℕ → ℕ → List (BucketRecord F) → BucketHistory F
  fetch_bucket_history serial camera t rows =
      let (rolling_mean, rolling_std, rolling_n) = fetch_rolling_stats serial camera t rows in
      let (first_active_today, quiet_run_minutes) = fetch_same_day_context serial camera t rows in
      let (typical, days_with_activity) = fetch_day_baseline serial camera t rows in
      record {
        rolling_mean_total_detections = rolling_mean;
        rolling_std_total_detections = rolling_std;
        rolling_bucket_sample_size = rolling_n;
        first_active_bucket_start_today = first_active_today;
        recent_quiet_run_minutes = quiet_run_minutes;
        typical_first_active_hour_utc = typical;
        day_baseline_days_considered = day_baseline_window_days;
        day_baseline_days_with_activity = days_with_activity;
      }
