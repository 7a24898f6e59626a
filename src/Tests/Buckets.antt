-- ===== src/Tests/Buckets.antt =====
-- Buckets at concrete inputs.
use panoptic.Common.{ℕ, ◌+◌, false, List, [], ◌∷◌}
use panoptic.Float.{milli}
use panoptic.Buckets.{BucketIdentity, BucketRecord, complete}

abbrev pub mean : List ℕ → ℕ
mean [] = 0
mean (x ∷ xs) = x

abbrev pub stdev : List ℕ → ℕ
stdev xs = 1000

abbrev pub digest : BucketIdentity → ℕ
digest i = i.detection_hash + i.start_utc

-- A bucket of camera 2 that starts at a time, with its number of detections.
abbrev pub bucket : ℕ → ℕ → BucketRecord milli
bucket t n = record {
  bucket_id = 5 + t;
  serial_number = 1422;
  camera_id = 2;
  bucket_start_utc = t;
  bucket_end_utc = t + 900;
  bucket_status = complete;
  schema_version = 2;
  detection_hash = 5;
  activity_score = 0;
  activity_components = record {
    base = record { object_count_total = n; unique_object_classes = 1; temporal_variance = 500 };
    c1 = 100;
    c2 = 200;
    c3 = 300;
  };
  object_counts = [];
  keyframe_candidates = record { baseline_ts = t; peak_ts = t; change_ts = t };
  event_markers = [];
  completeness = record {
    detection_coverage = 1000;
    stream_interrupted_seconds = 0;
    aggregator_restart_seen = false;
  };
}
