-- ===== src/Jobs/Reclaim.antt =====
-- reclaim_expired_leases (shared/utils/leases.py): the rows it selects, what it does to each in a
-- transaction of its own, and the dead-letter entry that follows the commit.
use panoptic.Common.{
  ℕ, ◌+◌, Bool, true, false, ◌&&◌, Option, none, some, List, [], ◌∷◌, ◌++◌, take, select, leb,
  if◌then◌else◌,
}
use panoptic.Jobs.Model.{
  JobType, pending, failed_terminal, Job, reclaimer, Note, attempts_exhausted, lease_expired,
  JobState, HistoryRow, Db, is_reclaimable, expired, update_job, append_job_history,
}

abbrev pub reclaim_limit : ℕ
reclaim_limit = 100

-- The WHERE clause of the SELECT.
abbrev pub is_stale : ℕ → Job → Bool
is_stale now j = is_reclaimable j.state && expired now j.lease_expires_at

-- ORDER BY lease_expires_at; a NULL sorts last.
abbrev pub expires_before : Job → Job → Bool
expires_before a b = elim a.lease_expires_at [
  | none ↦ false
  | some s ↦ elim b.lease_expires_at [ none ↦ true | some t ↦ leb s t ]
]

unfoldable pub insert_by_expiry : Job → List Job → List Job
insert_by_expiry j [] = j ∷ []
insert_by_expiry j (x ∷ xs) = if expires_before j x then j ∷ x ∷ xs else x ∷ insert_by_expiry j xs

unfoldable pub order_by_expiry : List Job → List Job
order_by_expiry [] = []
order_by_expiry (j ∷ js) = insert_by_expiry j (order_by_expiry js)

-- The SELECT of phase 1. Its locks end with the commit that follows it.
unfoldable pub select_expired : ℕ → Db → List Job
select_expired now db = take reclaim_limit (order_by_expiry (select (is_stale now) db.jobs))

pub record ReclaimedJob : Type 0 where
  pub job_id : ℕ
  pub job_type : JobType
  pub serial_number : ℕ

pub record ReclaimStats : Type 0 where
  pub reset_to_pending : ℕ
  pub sent_to_dlq : ℕ
  pub stale_pel_acked : ℕ
  pub reset_jobs : List ReclaimedJob

abbrev pub no_stats : ReclaimStats
no_stats = record { reset_to_pending = 0; sent_to_dlq = 0; stale_pel_acked = 0; reset_jobs = [] }

pub record DlqEntry : Type 0 where
  pub job_type : JobType
  pub job_id : ℕ
  pub serial_number : ℕ
  pub reason : Note

-- The table, the dead-letter streams (newest last) and the statistics of the tick.
pub record Tick : Type 0 where
  pub db : Db
  pub dlq : List DlqEntry
  pub stats : ReclaimStats

-- Both statements set these three columns, WHERE job_id = :job_id alone.
abbrev pub set_reclaimed : JobState → Job → Job
set_reclaimed s j = record j { state = s; lease_owner = none; lease_expires_at = none }

abbrev pub is_exhausted : Job → Bool
is_exhausted row = leb row.max_attempts row.attempt_count

abbrev pub reclaimed_state : Job → JobState
reclaimed_state row = if is_exhausted row then failed_terminal else pending

abbrev pub reclaim_history : Job → HistoryRow
reclaim_history row = record {
  job_id = row.job_id;
  serial_number = row.serial_number;
  from_state = none;
  to_state = reclaimed_state row;
  worker_id = reclaimer;
  note = some (
      if is_exhausted row
      then attempts_exhausted row.attempt_count row.max_attempts
      else lease_expired);
}

-- One row's transaction, up to its commit.
unfoldable pub reclaim_row : Job → Db → Db
reclaim_row row db = record {
  jobs = update_job row.job_id (λ _. true) (set_reclaimed (reclaimed_state row)) db.jobs;
  history = append_job_history (reclaim_history row) db.history;
}

abbrev pub dlq_entry : Job → DlqEntry
dlq_entry row = record {
  job_type = row.job_type;
  job_id = row.job_id;
  serial_number = row.serial_number;
  reason = attempts_exhausted row.attempt_count row.max_attempts;
}

abbrev pub reclaimed_job : Job → ReclaimedJob
reclaimed_job row = record {
  job_id = row.job_id;
  job_type = row.job_type;
  serial_number = row.serial_number;
}

-- The body of the loop. `dlq_up` says for which rows the write to Redis goes through.
unfoldable pub reclaim_one : (Job → Bool) → Job → Tick → Tick
reclaim_one dlq_up row t =
    if is_exhausted row
    then record {
      db = reclaim_row row t.db;
      dlq = if dlq_up row then t.dlq ++ dlq_entry row ∷ [] else t.dlq;
      stats = record (t.stats) { sent_to_dlq = t.stats.sent_to_dlq + 1 };
    }
    else record {
      db = reclaim_row row t.db;
      dlq = t.dlq;
      stats = record (t.stats) {
        reset_to_pending = t.stats.reset_to_pending + 1;
        reset_jobs = t.stats.reset_jobs ++ reclaimed_job row ∷ [];
      };
    }

unfoldable pub reclaim_rows : (Job → Bool) → List Job → Tick → Tick
reclaim_rows dlq_up [] t = t
reclaim_rows dlq_up (row ∷ rows) t = reclaim_rows dlq_up rows (reclaim_one dlq_up row t)

-- Phase 2: for each stream the number of entries that it acknowledged, or none where it raised.
unfoldable pub clean_pels : List (Option ℕ) → ReclaimStats → ReclaimStats
clean_pels [] s = s
clean_pels (none ∷ acks) s = clean_pels acks s
clean_pels (some n ∷ acks) s =
    clean_pels acks (record s { stale_pel_acked = s.stale_pel_acked + n })

unfoldable pub reclaim_expired_leases :
    ℕ → (Job → Bool) → List (Option ℕ) → Db → List DlqEntry → Tick
reclaim_expired_leases now dlq_up acks db dlq =
    let t =
      reclaim_rows dlq_up (select_expired now db)
        (record { db = db; dlq = dlq; stats = no_stats }) in
    record t { stats = clean_pels acks t.stats }
