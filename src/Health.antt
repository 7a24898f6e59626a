-- ===== src/Health.antt =====
-- The health of one process (shared/health/state.py). The lock is held by every method, so that each
-- is one step. Times are whole seconds; the service's name and the worker's id do not change.
pub mod Severity
use panoptic.Common.{
  ℕ, ◌+◌, ◌-◌, Bool, true, false, not, ◌||◌, Option, none, some, List, [], ◌∷◌, if◌then◌else◌, ltb,
  select, any, is_some, take,
}
use panoptic.Jobs.Model.{Text}
use panoptic.Auth.{text_eq, contains}
use panoptic.Intake.Transform.{put}

pub record DepStatus : Type 0 where
  pub ok : Bool
  pub latency_ms : Option ℕ
  pub reason : Option Text
  pub checked_at : Option ℕ

pub record ConsumerStats : Type 0 where
  pub stream : Option Text
  pub group : Option Text
  pub pending_pel : ℕ
  pub xlen : ℕ
  pub lag_sec : Option ℕ
  pub updated_at : Option ℕ

pub record JobStats : Type 0 where
  pub last_claim_at : Option ℕ
  pub last_success_at : Option ℕ
  pub last_failure_at : Option ℕ
  pub attempts : ℕ

pub record ReclaimStatsSnapshot : Type 0 where
  pub last_run_at : Option ℕ
  pub last_run_reset : ℕ
  pub last_run_dlq : ℕ
  pub last_run_pel_acked : ℕ
  pub totals_reset : ℕ
  pub totals_dlq : ℕ
  pub totals_pel_acked : ℕ
  pub last_error : Option Text
  pub last_error_at : Option ℕ

pub record HealthState : Type 0 where
  pub start_ts : ℕ
  pub deps : List (Text × DepStatus)
  pub consumer : ConsumerStats
  pub jobs : JobStats
  pub reclaim : ReclaimStatsSnapshot
  pub reclaim_has_data : Bool
  pub critical_deps : List Text

unfoldable pub new_health_state : ℕ → Option Text → Option Text → HealthState
new_health_state now consumer_stream consumer_group = record {
  start_ts = now;
  deps = [];
  consumer = record {
    stream = consumer_stream;
    group = consumer_group;
    pending_pel = 0;
    xlen = 0;
    lag_sec = none;
    updated_at = none;
  };
  jobs = record {
    last_claim_at = none;
    last_success_at = none;
    last_failure_at = none;
    attempts = 0;
  };
  reclaim = record {
    last_run_at = none;
    last_run_reset = 0;
    last_run_dlq = 0;
    last_run_pel_acked = 0;
    totals_reset = 0;
    totals_dlq = 0;
    totals_pel_acked = 0;
    last_error = none;
    last_error_at = none;
  };
  reclaim_has_data = false;
  critical_deps = [];
}

-- set.update and set.difference_update
abbrev pub add_names : List Text → List Text → List Text
add_names [] names = names
add_names (d ∷ ds) names = add_names ds (if contains d names then names else d ∷ names)

abbrev pub remove_names : List Text → List Text → List Text
remove_names ds names = select (λ n. not (contains n ds)) names

unfoldable pub mark_critical : List Text → HealthState → HealthState
mark_critical ds h = record h { critical_deps = add_names ds h.critical_deps }

unfoldable pub mark_non_critical : List Text → HealthState → HealthState
mark_non_critical ds h = record h { critical_deps = remove_names ds h.critical_deps }

unfoldable pub record_job_claim : ℕ → HealthState → HealthState
record_job_claim now h = record h {
  jobs = record h.jobs { last_claim_at = some now; attempts = h.jobs.attempts + 1 };
}

unfoldable pub record_job_success : ℕ → HealthState → HealthState
record_job_success now h = record h { jobs = record h.jobs { last_success_at = some now } }

unfoldable pub record_job_failure : ℕ → HealthState → HealthState
record_job_failure now h = record h { jobs = record h.jobs { last_failure_at = some now } }

unfoldable pub set_consumer_stats : ℕ → ℕ → ℕ → Option ℕ → HealthState → HealthState
set_consumer_stats now pending_pel xlen lag_sec h = record h {
  consumer = record h.consumer {
    pending_pel = pending_pel;
    xlen = xlen;
    lag_sec = lag_sec;
    updated_at = some now;
  };
}

unfoldable pub set_dep : Text → DepStatus → HealthState → HealthState
set_dep name status h = record h { deps = put name status h.deps }

-- The numbers of a run are 0 where the object has no such attribute.
unfoldable pub record_reclaim : ℕ → ℕ → ℕ → ℕ → HealthState → HealthState
record_reclaim now reset dlq pel_acked h = record h {
  reclaim_has_data = true;
  reclaim = record h.reclaim {
    last_run_at = some now;
    last_run_reset = reset;
    last_run_dlq = dlq;
    last_run_pel_acked = pel_acked;
    totals_reset = h.reclaim.totals_reset + reset;
    totals_dlq = h.reclaim.totals_dlq + dlq;
    totals_pel_acked = h.reclaim.totals_pel_acked + pel_acked;
  };
}

unfoldable pub record_failure : ℕ → Text → HealthState → HealthState
record_failure now err h = record h {
  reclaim = record h.reclaim { last_error = some (take 200 err); last_error_at = some now };
}

pub data Status : Type 0 where
  ok degraded error : Status

abbrev pub worse : Status → Status
worse ok = degraded
worse degraded = degraded
worse error = error

-- The loop over the dependencies.
unfoldable pub status_from : List Text → Status → List (Text × DepStatus) → Status
status_from critical status [] = status
status_from critical status (d ∷ ds) =
    if d.1.ok
    then status_from critical status ds
    else if contains d.0 critical
    then error
    else status_from critical (worse status) ds

pub record Snapshot : Type 0 where
  pub status : Status
  pub uptime_sec : ℕ
  pub dependencies : List (Text × DepStatus)
  pub consumer : Option ConsumerStats
  pub jobs : Option JobStats
  pub reclaim : Option ReclaimStatsSnapshot

abbrev pub shown {ℓ} : {A : Type ℓ} → Bool → A → Option A
shown true x = some x
shown false x = none

unfoldable pub snapshot : ℕ → HealthState → Snapshot
snapshot now h = record {
  status = status_from h.critical_deps ok h.deps;
  uptime_sec = now - h.start_ts;
  dependencies = h.deps;
  consumer = shown (is_some h.consumer.stream) h.consumer;
  jobs =
      shown
        (is_some h.jobs.last_claim_at || is_some h.jobs.last_success_at || ltb 0 h.jobs.attempts)
        h.jobs;
  reclaim = shown h.reclaim_has_data h.reclaim;
}
