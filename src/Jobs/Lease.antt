-- ===== src/Jobs/Lease.antt =====
-- claim_job, renew_lease, mark_running, release_job and compute_retry_delay
-- (shared/utils/leases.py). Each is one transaction over the table; `now` is the clock it reads.
use panoptic.Common.{
  ℕ, zero, suc, ◌+◌, ◌*◌, ◌^◌, min, Bool, true, false, ◌&&◌, Option, none, some, [], ◌∷◌, take,
  is_some,
}
use panoptic.Jobs.Model.{
  JobType, pending, leased, running, succeeded, degraded, retry_wait, failed_terminal, cancelled,
  Text, Job, worker, Note, attempt, error_text, HistoryRow, Db, holds_lease, is_pending, is_leased,
  owned_by, update_job, updated_row, append_job_history,
}

abbrev pub lease_ttl_seconds : ℕ
lease_ttl_seconds = 120

abbrev pub max_retry_delay_seconds : ℕ
max_retry_delay_seconds = 600

pub record ClaimResult : Type 0 where
  pub job_id : ℕ
  pub serial_number : ℕ
  pub job_type : JobType
  pub attempt_count : ℕ
  pub max_attempts : ℕ

-- The SET clause of claim_job.
abbrev pub set_claimed : ℕ → ℕ → Job → Job
set_claimed now w j = record j {
  state = leased;
  lease_owner = some w;
  lease_expires_at = some (now + lease_ttl_seconds);
  attempt_count = j.attempt_count + 1;
}

abbrev pub claim_history : ℕ → Job → HistoryRow
claim_history w row = record {
  job_id = row.job_id;
  serial_number = row.serial_number;
  from_state = some pending;
  to_state = leased;
  worker_id = worker w;
  note = some (attempt row.attempt_count row.max_attempts);
}

abbrev pub claim_result : Job → ClaimResult
claim_result row = record {
  job_id = row.job_id;
  serial_number = row.serial_number;
  job_type = row.job_type;
  attempt_count = row.attempt_count;
  max_attempts = row.max_attempts;
}

-- The job id comes before the worker id in every operation.
unfoldable pub claim_job : ℕ → ℕ → ℕ → Db → Db × Option ClaimResult
claim_job now k w db = elim (updated_row k (λ j. is_pending j.state) (set_claimed now w) db.jobs) [
  | none ↦ (db, none)
  | some row ↦ (
    record {
      jobs = update_job k (λ j. is_pending j.state) (set_claimed now w) db.jobs;
      history = append_job_history (claim_history w row) db.history;
    },
    some (claim_result row),
  )
]

abbrev pub set_renewed : ℕ → Job → Job
set_renewed now j = record j { lease_expires_at = some (now + lease_ttl_seconds) }

abbrev pub may_renew : ℕ → Job → Bool
may_renew w j = owned_by w j.lease_owner && holds_lease j.state

unfoldable pub renew_lease : ℕ → ℕ → ℕ → Db → Db × Bool
renew_lease now k w db = (
  record db { jobs = update_job k (may_renew w) (set_renewed now) db.jobs },
  is_some (updated_row k (may_renew w) (set_renewed now) db.jobs),
)

abbrev pub set_running : Job → Job
set_running j = record j { state = running }

abbrev pub may_run : ℕ → Job → Bool
may_run w j = owned_by w j.lease_owner && is_leased j.state

abbrev pub running_history : ℕ → Job → HistoryRow
running_history w row = record {
  job_id = row.job_id;
  serial_number = row.serial_number;
  from_state = some leased;
  to_state = running;
  worker_id = worker w;
  note = none;
}

unfoldable pub mark_running : ℕ → ℕ → Db → Db
mark_running k w db = elim (updated_row k (may_run w) set_running db.jobs) [
  | none ↦ db
  | some row ↦ record {
    jobs = update_job k (may_run w) set_running db.jobs;
    history = append_job_history (running_history w row) db.history;
  }
]

-- The states that `new_state` ranges over; `waits` is 'retry_wait' with its retry_after_seconds.
pub data NewState : Type 0 where
  succeeds degrades fails cancels : NewState
  waits : Option ℕ → NewState

-- `None` is the ValueError for a retry_wait without its delay.
abbrev pub set_released : ℕ → NewState → Option Text → Option (Job → Job)
set_released now (waits none) error = none
set_released now (waits (some seconds)) error = some λ j. record j {
  state = retry_wait;
  lease_owner = none;
  lease_expires_at = some (now + seconds);
  last_error = error;
}
set_released now succeeds error = some λ j. record j {
  state = succeeded;
  lease_owner = none;
  lease_expires_at = none;
  last_error = error;
}
set_released now degrades error = some λ j. record j {
  state = degraded;
  lease_owner = none;
  lease_expires_at = none;
  last_error = error;
}
set_released now fails error = some λ j. record j {
  state = failed_terminal;
  lease_owner = none;
  lease_expires_at = none;
  last_error = error;
}
set_released now cancels error = some λ j. record j {
  state = cancelled;
  lease_owner = none;
  lease_expires_at = none;
  last_error = error;
}

abbrev pub error_note : Option Text → Option Note
error_note none = none
error_note (some []) = none
error_note (some (c ∷ cs)) = some (error_text (take 500 (c ∷ cs)))

abbrev pub release_history : ℕ → Option Text → Job → HistoryRow
release_history w error row = record {
  job_id = row.job_id;
  serial_number = row.serial_number;
  from_state = none;
  to_state = row.state;
  worker_id = worker w;
  note = error_note error;
}

abbrev pub release_with : ℕ → ℕ → Option Text → (Job → Job) → Db → Db × Bool
release_with k w error f db = elim (updated_row k (λ j. owned_by w j.lease_owner) f db.jobs) [
  | none ↦ (db, false)
  | some row ↦ (
    record {
      jobs = update_job k (λ j. owned_by w j.lease_owner) f db.jobs;
      history = append_job_history (release_history w error row) db.history;
    },
    true,
  )
]

-- `none` is the exception.
unfoldable pub release_job : ℕ → ℕ → ℕ → NewState → Option Text → Db → Option (Db × Bool)
release_job now k w new_state error db = elim (set_released now new_state error) [
  | none ↦ none
  | some f ↦ some (release_with k w error f db)
]

-- 30 * 2 ** (attempt_count - 1), capped; at an attempt count of 0 the power is one half.
unfoldable pub compute_retry_delay : ℕ → ℕ
compute_retry_delay zero = 15
compute_retry_delay (suc n) = min (30 * 2 ^ n) max_retry_delay_seconds
