-- ===== src/Buckets.antt =====
-- The bucket record (shared/schemas/bucket.py), which is also a row of panoptic_buckets.
-- Ids and hashes are opaque strings that are only compared, so they are numbers. Times are whole
-- seconds. The SHA-256 of an identity's JSON is a parameter, a function of the identity.
use panoptic.Common.{ℕ, Bool, List}
use panoptic.Jobs.Model.{Text}
use panoptic.Float.{Float}
use panoptic.Activity.{ActivityComponents}
use panoptic.Signals.{Marker}

pub data BucketStatus : Type 0 where
  complete partial late_finalized : BucketStatus

-- What generate_bucket_id hashes.
pub record BucketIdentity : Type 0 where
  pub camera_id : ℕ
  pub detection_hash : ℕ
  pub end_utc : ℕ
  pub schema_version : ℕ
  pub serial_number : ℕ
  pub start_utc : ℕ

pub record KeyframeCandidates : Type 0 where
  pub baseline_ts : ℕ
  pub peak_ts : ℕ
  pub change_ts : ℕ

module _ (F : Float) where
  pub record BucketCompleteness : Type 0 where
    pub detection_coverage : F.Num
    pub stream_interrupted_seconds : ℕ
    pub aggregator_restart_seen : Bool

  -- The keys of the dict activity_components.
  pub record StoredComponents : Type 0 where
    pub base : ActivityComponents F
    pub c1 : F.Num
    pub c2 : F.Num
    pub c3 : F.Num

  pub record BucketRecord : Type 0 where
    pub bucket_id : ℕ
    pub serial_number : ℕ
    pub camera_id : ℕ
    pub bucket_start_utc : ℕ
    pub bucket_end_utc : ℕ
    pub bucket_status : BucketStatus
    pub schema_version : ℕ
    pub detection_hash : ℕ
    pub activity_score : F.Num
    pub activity_components : StoredComponents
    pub object_counts : List (Text × ℕ)
    pub keyframe_candidates : KeyframeCandidates
    pub event_markers : List (Marker F)
    pub completeness : BucketCompleteness

  -- generate_bucket_id of the record's own fields
  unfoldable pub identity_of : BucketRecord → BucketIdentity
  identity_of b = record {
    camera_id = b.camera_id;
    detection_hash = b.detection_hash;
    end_utc = b.bucket_end_utc;
    schema_version = b.schema_version;
    serial_number = b.serial_number;
    start_utc = b.bucket_start_utc;
  }
