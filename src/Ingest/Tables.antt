-- ===== src/Ingest/Tables.antt =====
-- The statements of ingest_bucket on its two tables, and the merge of the markers.
use panoptic.Common.{
  ℕ, Bool, true, false, ◌&&◌, none, List, [], ◌∷◌, ◌++◌, if◌then◌else◌, ◌==◌, any, map,
}
use panoptic.Jobs.Model.{Job, JobType, pending}
use panoptic.Float.{Float}
use panoptic.Signals.{Marker, MarkerKey, key_eq}
use panoptic.Buckets.{BucketRecord, BucketStatus, complete, partial, late_finalized}

-- The job keys (shared/schemas/job.py), whose parts the source joins by colons.
pub data JobKey : Type 0 where
  bucket_summary_key : ℕ → ℕ → ℕ → JobKey
  event_produce_bucket_key image_caption_key event_produce_image_key : ℕ → JobKey

abbrev pub job_key_eq : JobKey → JobKey → Bool
job_key_eq (bucket_summary_key b m v) (bucket_summary_key b' m' v') =
    b == b' && (m == m' && v == v')
job_key_eq (event_produce_bucket_key b) (event_produce_bucket_key b') = b == b'
job_key_eq (image_caption_key i) (image_caption_key i') = i == i'
job_key_eq (event_produce_image_key i) (event_produce_image_key i') = i == i'
job_key_eq _ _ = false

-- A row of panoptic_jobs with its job_key.
pub record KeyedJob : Type 0 where
  pub job_key : JobKey
  pub job : Job

-- The columns that the INSERTs write.
unfoldable pub pending_job : ℕ → JobType → ℕ → ℕ → Job
pending_job job_id t serial max_attempts = record {
  job_id = job_id;
  job_type = t;
  serial_number = serial;
  state = pending;
  lease_owner = none;
  lease_expires_at = none;
  attempt_count = 0;
  max_attempts = max_attempts;
  last_error = none;
}

abbrev pub has_key : JobKey → List KeyedJob → Bool
has_key k jobs = any (λ j. job_key_eq j.job_key k) jobs

-- INSERT ... ON CONFLICT (job_key) DO NOTHING RETURNING job_id
unfoldable pub insert_job : KeyedJob → List KeyedJob → List KeyedJob × Bool
insert_job j jobs = if has_key j.job_key jobs then (jobs, false) else (jobs ++ j ∷ [], true)

pub data BucketAction : Type 0 where
  inserted late_finalized_update duplicate : BucketAction

abbrev pub is_late : BucketStatus → Bool
is_late late_finalized = true
is_late complete = false
is_late partial = false

module _ (F : Float) where
  abbrev pub has_bucket : ℕ → List (BucketRecord F) → Bool
  has_bucket k rows = any (λ b. b.bucket_id == k) rows

  unfoldable pub bucket_action : BucketRecord F → List (BucketRecord F) → BucketAction
  bucket_action b rows =
      if has_bucket b.bucket_id rows
      then (if is_late b.bucket_status then late_finalized_update else duplicate)
      else inserted

  -- The columns that ON CONFLICT ... DO UPDATE sets.
  abbrev pub overwrite : BucketRecord F → BucketRecord F → BucketRecord F
  overwrite b row =
      if row.bucket_id == b.bucket_id
      then record row {
        bucket_status = b.bucket_status;
        activity_score = b.activity_score;
        activity_components = b.activity_components;
        object_counts = b.object_counts;
        keyframe_candidates = b.keyframe_candidates;
        event_markers = b.event_markers;
        completeness = b.completeness;
      }
      else row

  unfoldable pub upsert_bucket :
      BucketRecord F → BucketAction → List (BucketRecord F) → List (BucketRecord F)
  upsert_bucket b inserted rows = rows ++ b ∷ []
  upsert_bucket b late_finalized_update rows = map (overwrite b) rows
  upsert_bucket b duplicate rows = rows

  abbrev pub has_marker : MarkerKey → ℕ → List (Marker F) → Bool
  has_marker k t ms = any (λ m. key_eq m.event_type k && m.ts == t) ms

  -- The loop over history_markers.
  unfoldable pub merge_markers : List (Marker F) → List (Marker F) → List (Marker F)
  merge_markers markers [] = markers
  merge_markers markers (m ∷ history) =
      merge_markers (if has_marker m.event_type m.ts markers then markers else markers ++ m ∷ [])
        history
