-- ===== src/Intake/Transform.antt =====
-- transform_to_bucket_record (shared/clients/trailer_intake.py) of a window's fragments
-- (TrailerBucketData of shared/schemas/trailer_webhook.py). The digests, Python's sum of floats,
-- round(x, 4) and max(0, int(x)) are parameters.
use panoptic.Common.{
  ℕ, ◌+◌, ◌*◌, suc, Bool, true, false, Option, none, some, List, [], ◌∷◌, if◌then◌else◌, ltb, map,
}
use panoptic.Jobs.Model.{Text}
use panoptic.Auth.{text_eq, contains}
use panoptic.Float.{Float, py_max, py_min}
use panoptic.Signals.{Fragment, derive_markers}
use panoptic.Buckets.{
  BucketIdentity, BucketRecord, BucketCompleteness, StoredComponents, KeyframeCandidates, complete,
}

abbrev pub schema_version : ℕ
schema_version = 2

-- An element of the list that _compute_detection_hash serializes.
pub record Detection : Type 0 where
  pub object_type : Text
  pub total_detections : ℕ
  pub unique_tracker_ids : ℕ
  pub bucket_start : ℕ
  pub bucket_end : ℕ

-- s < t on Python's strings
abbrev pub text_lt : Text → Text → Bool
text_lt [] [] = false
text_lt [] (d ∷ t) = true
text_lt (c ∷ s) [] = false
text_lt (c ∷ s) (d ∷ t) = if ltb c d then true else if ltb d c then false else text_lt s t

-- sorted(..., key=lambda x: x["object_type"]), which is stable
abbrev pub insert_detection : Detection → List Detection → List Detection
insert_detection d [] = d ∷ []
insert_detection d (e ∷ es) =
    if text_lt e.object_type d.object_type then e ∷ insert_detection d es else d ∷ e ∷ es

abbrev pub sort_detections : List Detection → List Detection
sort_detections [] = []
sort_detections (d ∷ ds) = insert_detection d (sort_detections ds)

-- d[key] = value, on a dict in its insertion order
abbrev pub put {ℓ} : {A : Type ℓ} → Text → A → List (Text × A) → List (Text × A)
put t x [] = (t, x) ∷ []
put t x (e ∷ es) = if text_eq t e.0 then (e.0, x) ∷ es else e ∷ put t x es

abbrev pub total : List ℕ → ℕ
total [] = 0
total (n ∷ ns) = n + total ns

-- len(set(...))
abbrev pub count_distinct : List Text → ℕ
count_distinct [] = 0
count_distinct (t ∷ ts) = if contains t ts then count_distinct ts else suc (count_distinct ts)

-- The values that are not None.
abbrev pub present {ℓ} : {A : Type ℓ} → List (Option A) → List A
present [] = []
present (none ∷ xs) = present xs
present (some x ∷ xs) = x ∷ present xs

abbrev pub earliest_or : ℕ → List ℕ → ℕ
earliest_or t [] = t
earliest_or t (s ∷ ss) = if ltb s t then earliest_or s ss else earliest_or t ss

-- min(..., default)
abbrev pub earliest_default : ℕ → List ℕ → ℕ
earliest_default t [] = t
earliest_default t (s ∷ ss) = earliest_or s ss

abbrev pub default_time : ℕ → Option ℕ → ℕ
default_time t none = t
default_time t (some s) = s

module _ (F : Float) where
  open F use {Num, lt, sub, mul, div, of_nat, literal}

  pub record BucketData : Type 0 where
    pub bucket_start : ℕ
    pub bucket_end : ℕ
    pub bucket_minutes : ℕ
    pub object_type : Text
    pub unique_tracker_ids : ℕ
    pub total_detections : ℕ
    pub max_count : ℕ
    pub mean_count : Option Num
    pub std_dev_count : Option Num
    pub max_count_at : Option ℕ
    pub first_detection_at : Option ℕ
    pub duty_cycle : Num
    pub anomaly_score : Option Num
    pub anomaly_flag : ℕ

  -- What derive_markers reads.
  unfoldable pub signal_of : BucketData → Fragment F
  signal_of f = record {
    total_detections = f.total_detections;
    anomaly_flag = f.anomaly_flag;
    anomaly_score = f.anomaly_score;
    max_count_at = f.max_count_at;
  }

  unfoldable pub detection_of : BucketData → Detection
  detection_of f = record {
    object_type = f.object_type;
    total_detections = f.total_detections;
    unique_tracker_ids = f.unique_tracker_ids;
    bucket_start = f.bucket_start;
    bucket_end = f.bucket_end;
  }

  -- max over a list that starts with x
  abbrev pub max_from : Num → List Num → Num
  max_from x [] = x
  max_from x (y ∷ ys) = max_from (py_max F x y) ys

  abbrev pub max_default : List Num → Num
  max_default [] = literal 0 0
  max_default (x ∷ xs) = max_from x xs

  -- mean_count or 0.0
  abbrev pub or_zero : Option Num → Num
  or_zero none = literal 0 0
  or_zero (some x) = x

  -- max(fragments, key=lambda f: f.max_count)
  abbrev pub peak_from : BucketData → List BucketData → BucketData
  peak_from f [] = f
  peak_from f (g ∷ gs) = peak_from (if ltb f.max_count g.max_count then g else f) gs

  abbrev pub counts_from : List (Text × ℕ) → List BucketData → List (Text × ℕ)
  counts_from counts [] = counts
  counts_from counts (f ∷ fs) = counts_from (put f.object_type f.unique_tracker_ids counts) fs

  unfoldable pub keyframes_of : BucketData → List BucketData → KeyframeCandidates
  keyframes_of first rest = record {
    baseline_ts = first.bucket_start;
    peak_ts = default_time first.bucket_start (peak_from first rest).max_count_at;
    change_ts =
        earliest_default first.bucket_start
          (present (map (λ f. f.first_detection_at) (first ∷ rest)));
  }

  module _ (sum_floats : List Num → Num) (round4 : Num → Num) (whole : Num → ℕ)
      (detection_digest : List Detection → ℕ) (digest : BucketIdentity → ℕ) where
    unfoldable pub components_of : BucketData → List BucketData → StoredComponents F
    components_of first rest =
        let max_std_dev = max_default (present (map (λ f. f.std_dev_count) (first ∷ rest))) in
        record {
          base = record {
            object_count_total = total (map (λ f. f.total_detections) (first ∷ rest));
            unique_object_classes = count_distinct (map (λ f. f.object_type) (first ∷ rest));
            temporal_variance = max_std_dev;
          };
          c1 =
              round4
                (div (sum_floats (map (λ f. or_zero f.mean_count) (first ∷ rest))) (literal 30 0));
          c2 = round4 (max_from first.duty_cycle (map (λ f. f.duty_cycle) rest));
          c3 = round4 (div max_std_dev (literal 15 0));
        }

    unfoldable pub completeness_of : BucketData → List BucketData → BucketCompleteness F
    completeness_of first rest =
        let coverage =
          py_min F (literal 1 0)
            (py_max F (literal 0 0) (max_from first.duty_cycle (map (λ f. f.duty_cycle) rest))) in
        record {
          detection_coverage = coverage;
          stream_interrupted_seconds =
              whole (mul (of_nat (first.bucket_minutes * 60)) (sub (of_nat 1) coverage));
          aggregator_restart_seen = false;
        }

    unfoldable pub compute_detection_hash : List BucketData → ℕ
    compute_detection_hash fragments =
        detection_digest (sort_detections (map detection_of fragments))

    unfoldable pub bucket_id_of : ℕ → ℕ → BucketData → List BucketData → ℕ
    bucket_id_of serial_number camera_id first rest = digest (record {
      camera_id = camera_id;
      detection_hash = compute_detection_hash (first ∷ rest);
      end_utc = first.bucket_end;
      schema_version = schema_version;
      serial_number = serial_number;
      start_utc = first.bucket_start;
    })

    unfoldable pub transform_to_bucket_record :
        BucketData → List BucketData → ℕ → ℕ → BucketRecord F
    transform_to_bucket_record first rest serial_number camera_id = record {
      bucket_id = bucket_id_of serial_number camera_id first rest;
      serial_number = serial_number;
      camera_id = camera_id;
      bucket_start_utc = first.bucket_start;
      bucket_end_utc = first.bucket_end;
      bucket_status = complete;
      schema_version = schema_version;
      detection_hash = compute_detection_hash (first ∷ rest);
      activity_score = literal 0 0;
      activity_components = components_of first rest;
      object_counts = counts_from [] (first ∷ rest);
      keyframe_candidates = keyframes_of first rest;
      event_markers = derive_markers F (map signal_of (first ∷ rest)) first.bucket_start;
      completeness = completeness_of first rest;
    }
