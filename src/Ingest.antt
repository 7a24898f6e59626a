-- ===== src/Ingest.antt =====
-- ingest_bucket (shared/clients/cognia.py): the activity score, the history's markers, the upsert of
-- the bucket, the jobs by their keys, and the messages after the commit. The payload is one that the
-- schema accepts; `none` is the BucketIdMismatchError. The mean and the standard deviation of
-- Python's statistics, and the SHA-256 of an identity, are parameters.
pub mod Score
pub mod Tables
pub mod Rerun
pub mod Created
use panoptic.Common.{
  ℕ, Bool, true, false, not, ◌&&◌, ◌||◌, Option, none, some, List, [], ◌∷◌, ◌++◌, if◌then◌else◌,
  ◌==◌, any,
}
use panoptic.Jobs.Model.{Job, JobType, bucket_summary, event_produce}
use panoptic.Streams.{StreamEntry, enqueue_job}
use panoptic.Float.{Float}
use panoptic.Signals.{Marker, derive_history_markers}
use panoptic.Buckets.{BucketIdentity, BucketRecord, BucketStatus, late_finalized, identity_of}
use panoptic.History.{fetch_bucket_history}
use panoptic.Ingest.Score.{bucket_score}
use panoptic.Ingest.Tables.{
  JobKey, bucket_summary_key, event_produce_bucket_key, KeyedJob, pending_job, insert_job,
  BucketAction, inserted, duplicate, late_finalized_update, bucket_action, upsert_bucket,
  merge_markers,
}

pub record IngestResult (F : Float) : Type 0 where
  pub bucket_id : ℕ
  pub job_id : Option ℕ
  pub activity_score : F.Num
  pub bucket_action : BucketAction
  pub was_duplicate_job : Bool

-- The tables panoptic_buckets and panoptic_jobs.
pub record Store (F : Float) : Type 0 where
  pub buckets : List (BucketRecord F)
  pub jobs : List KeyedJob

-- The committed tables, the messages added to the streams, and the value returned.
pub record Ingested (F : Float) : Type 0 where
  pub store : Store F
  pub added : List StreamEntry
  pub result : IngestResult F

abbrev pub is_duplicate : BucketAction → Bool
is_duplicate duplicate = true
is_duplicate inserted = false
is_duplicate late_finalized_update = false

abbrev pub is_empty {ℓ} : {A : Type ℓ} → List A → Bool
is_empty [] = true
is_empty (x ∷ xs) = false

-- Step 7, for one job: `up` says whether the XADD goes through.
unfoldable pub enqueue_new : Bool → (JobType → Bool) → JobType → ℕ → ℕ → List StreamEntry
enqueue_new created up t job_id serial =
    if created && up t then enqueue_job t job_id serial ∷ [] else []

module _ (F : Float) (mean stdev : List F.Num → F.Num) (digest : BucketIdentity → ℕ)
    (model_profile prompt_version max_attempts : ℕ) where
  -- Step 3: the record with its score and with the history's markers.
  unfoldable pub prepared : BucketRecord F → List (BucketRecord F) → BucketRecord F
  prepared b rows = record b {
    activity_score = bucket_score F mean stdev b rows;
    event_markers = merge_markers F b.event_markers (
        derive_history_markers F b.activity_components.base.object_count_total b.bucket_start_utc
          (fetch_bucket_history F mean stdev b.serial_number b.camera_id b.bucket_start_utc rows)
          none);
  }

  unfoldable pub summary_job : ℕ → BucketRecord F → KeyedJob
  summary_job job_id b = record {
    job_key = bucket_summary_key b.bucket_id model_profile prompt_version;
    job = pending_job job_id bucket_summary b.serial_number max_attempts;
  }

  unfoldable pub event_job : ℕ → BucketRecord F → KeyedJob
  event_job job_id b = record {
    job_key = event_produce_bucket_key b.bucket_id;
    job = pending_job job_id event_produce b.serial_number max_attempts;
  }

  -- Step 5b
  unfoldable pub insert_event_job :
      ℕ → BucketRecord F → BucketAction → List KeyedJob → List KeyedJob × Bool
  insert_event_job job_id b action jobs =
      if is_empty b.event_markers || is_duplicate action
      then (jobs, false)
      else insert_job (event_job job_id b) jobs

  -- Steps 4 to 7, for the prepared record.
  unfoldable pub ingest_prepared : (JobType → Bool) → ℕ → ℕ → BucketRecord F → Store F → Ingested F
  ingest_prepared up job_id event_job_id b st =
      let action = bucket_action F b st.buckets in
      let with_summary = insert_job (summary_job job_id b) st.jobs in
      let with_event = insert_event_job event_job_id b action with_summary.0 in
      record {
        store = record { buckets = upsert_bucket F b action st.buckets; jobs = with_event.0 };
        added =
            enqueue_new with_summary.1 up bucket_summary job_id b.serial_number
            ++ enqueue_new with_event.1 up event_produce event_job_id b.serial_number;
        result = record {
          bucket_id = b.bucket_id;
          job_id = if with_summary.1 then some job_id else none;
          activity_score = b.activity_score;
          bucket_action = action;
          was_duplicate_job = not with_summary.1;
        };
      }

  unfoldable pub ingest_bucket :
      (JobType → Bool) → ℕ → ℕ → BucketRecord F → Store F → Option (Ingested F)
  ingest_bucket up job_id event_job_id b st =
      if digest (identity_of F b) == b.bucket_id
      then some (ingest_prepared up job_id event_job_id (prepared b st.buckets) st)
      else none
