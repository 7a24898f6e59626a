-- ===== src/Jobs/Model.antt =====
-- The rows of panoptic_jobs and panoptic_job_history (shared/schemas/job.py, and the columns that
-- the statements of shared/utils/leases.py read and write).
-- Job ids are UUIDs and worker ids are opaque strings: both are only compared, so they are numbers.
-- Times are whole seconds. A note keeps the values that the source formats into its text.
use panoptic.Common.{
  ℕ, Bool, true, false, ◌&&◌, Option, none, some, List, [], ◌∷◌, ltb, ◌==◌, if◌then◌else◌,
}

pub data JobType : Type 0 where
  bucket_summary rollup_summary embedding_upsert recompute_summary image_caption : JobType
  caption_embed image_embed event_produce report_generate : JobType

pub data JobState : Type 0 where
  pending leased running succeeded degraded retry_wait failed_terminal cancelled : JobState

-- Error texts, as code points.
abbrev pub Text : Type 0
Text = List ℕ

pub record Job : Type 0 where
  pub job_id : ℕ
  pub job_type : JobType
  pub serial_number : ℕ
  pub state : JobState
  pub lease_owner : Option ℕ
  pub lease_expires_at : Option ℕ
  pub attempt_count : ℕ
  pub max_attempts : ℕ
  pub last_error : Option Text

pub data Writer : Type 0 where
  worker : ℕ → Writer
  reclaimer : Writer

pub data Note : Type 0 where
  attempt : ℕ → ℕ → Note
  attempts_exhausted : ℕ → ℕ → Note
  lease_expired : Note
  error_text : Text → Note

pub record HistoryRow : Type 0 where
  pub job_id : ℕ
  pub serial_number : ℕ
  pub from_state : Option JobState
  pub to_state : JobState
  pub worker_id : Writer
  pub note : Option Note

pub record Db : Type 0 where
  pub jobs : List Job
  pub history : List HistoryRow

-- state IN ('leased', 'running')
abbrev pub holds_lease : JobState → Bool
holds_lease leased = true
holds_lease running = true
holds_lease _ = false

-- state IN ('leased', 'running', 'retry_wait')
abbrev pub is_reclaimable : JobState → Bool
is_reclaimable leased = true
is_reclaimable running = true
is_reclaimable retry_wait = true
is_reclaimable _ = false

abbrev pub is_pending : JobState → Bool
is_pending pending = true
is_pending _ = false

abbrev pub is_leased : JobState → Bool
is_leased leased = true
is_leased _ = false

-- lease_owner = :worker_id, which NULL never meets
abbrev pub owned_by : ℕ → Option ℕ → Bool
owned_by w none = false
owned_by w (some o) = o == w

-- lease_expires_at < now(), which NULL never meets
abbrev pub expired : ℕ → Option ℕ → Bool
expired now none = false
expired now (some t) = ltb t now

-- UPDATE panoptic_jobs SET ... WHERE job_id = :job_id AND q
abbrev pub update_job : ℕ → (Job → Bool) → (Job → Job) → List Job → List Job
update_job k q f [] = []
update_job k q f (j ∷ js) = (if j.job_id == k && q j then f j else j) ∷ update_job k q f js

-- ... RETURNING, and fetchone
abbrev pub updated_row : ℕ → (Job → Bool) → (Job → Job) → List Job → Option Job
updated_row k q f [] = none
updated_row k q f (j ∷ js) = if j.job_id == k && q j then some (f j) else updated_row k q f js

-- SELECT ... WHERE job_id = :job_id, and fetchone
abbrev pub find_job : ℕ → List Job → Option Job
find_job k [] = none
find_job k (j ∷ js) = if j.job_id == k then some j else find_job k js

-- INSERT INTO panoptic_job_history
unfoldable pub append_job_history : HistoryRow → List HistoryRow → List HistoryRow
append_job_history row [] = row ∷ []
append_job_history row (h ∷ hs) = h ∷ append_job_history row hs
