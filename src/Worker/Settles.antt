-- ===== src/Worker/Settles.antt =====
-- What a completed message leaves in the job table.
use panoptic.Common.{
  ℕ, ◌+◌, ◌≤◌, ◌<◌, take, ◌≡◌, refl, sym, ◌∙◌, ap, some-injective, inl, inr, Bool, Option, none,
  some, List, arith,
}
use panoptic.Jobs.Model.{
  JobState, Job, Db, find_job, succeeded, degraded, retry_wait, failed_terminal,
}
use panoptic.Jobs.Table.{IsUnique}
use panoptic.Jobs.Lease.{compute_retry_delay, claim_job, set_released}
use panoptic.Jobs.Ownership.{released_owned, release_settles}
use panoptic.Worker.{
  Surroundings, StreamMessage, ExecState, Attempt, raised, completed, attempted_state,
  attempted_error, new_state_of, process_message,
}
use panoptic.Worker.Acks.{Commits, process_message_cases}

-- The state in the table for the state that the executor reached.
abbrev pub state_of : ExecState → JobState
state_of ExecState.succeeded = succeeded
state_of ExecState.degraded = degraded
state_of ExecState.retry_wait = retry_wait
state_of ExecState.failed_terminal = failed_terminal

-- The expiry that goes with it: for a retry, the time before which it does not start.
abbrev pub expiry_of : ℕ → Job → ExecState → Option ℕ
expiry_of now row ExecState.retry_wait = some (now + compute_retry_delay row.attempt_count)
expiry_of now row ExecState.succeeded = none
expiry_of now row ExecState.degraded = none
expiry_of now row ExecState.failed_terminal = none

abbrev released_row : ℕ → Job → ExecState → Option (List ℕ) → Job → Job
released_row now row s error j = record j {
  state = state_of s;
  lease_owner = none;
  lease_expires_at = expiry_of now row s;
  last_error = error;
}

set_released-row :
    (now : ℕ) (row : Job) (s : ExecState) (error : Option (List ℕ))
    → set_released now (new_state_of row s) error ≡ some (released_row now row s error)
unfolding new_state_of
set_released-row now row ExecState.succeeded error = refl
set_released-row now row ExecState.degraded error = refl
set_released-row now row ExecState.retry_wait error = refl
set_released-row now row ExecState.failed_terminal error = refl

-- The job row after the message: in the state that the attempt led to, with no owner, its expiry
-- and its error set, and its attempts as they were.
abbrev pub IsSettled : {W : Type 0} → ℕ → Surroundings W → Job → Db → Type 0
IsSettled k env row db =
    let s = attempted_state row env.attempt in
    (j : Job) × (find_job k db.jobs ≡ some j)
    × (j.state ≡ state_of s)
    × (j.lease_owner ≡ none)
    × (j.lease_expires_at ≡ expiry_of env.release_time row s)
    × (j.last_error ≡ attempted_error env.attempt)

raised_exhausted :
    (row : Job) (a : Attempt) (error : List ℕ)
    → a ≡ raised error
    → row.max_attempts ≤ row.attempt_count
    → attempted_state row a ≡ ExecState.failed_terminal
unfolding attempted_state
raised_exhausted row a error e h = rw (e, attempted_state) (ground arith)

raised_retried :
    (row : Job) (a : Attempt) (error : List ℕ)
    → a ≡ raised error
    → row.attempt_count < row.max_attempts
    → attempted_state row a ≡ ExecState.retry_wait
unfolding attempted_state
raised_retried row a error e h = rw (e, attempted_state) (ground arith)

module _ {W : Type 0} (m : StreamMessage) (worker_id : ℕ) (env : Surroundings W) (db : Db) where
  completed-IsSettled :
      IsUnique
        (env.while_executing
          (env.before_select (claim_job env.claim_time m.job_id worker_id db).0)).jobs
      → Commits m worker_id env db (process_message m worker_id env db)
      → (row : Job) × (find_job m.job_id
            (env.before_select (claim_job env.claim_time m.job_id worker_id db).0).jobs
          ≡ some row)
        × IsSettled m.job_id env row (process_message m worker_id env db).db
  completed-IsSettled unique (claim, claimed_db, row, e, f, _, released, _, _) =
      let u : IsUnique (env.while_executing (env.before_select claimed_db)).jobs = rw e at unique in
      let (j, found, owned) = released_owned _ m.job_id worker_id _ _ _ _ u released in
      let (d, ok, settled, _, _) =
        release_settles env.release_time m.job_id worker_id _ (attempted_error env.attempt) _ _ j
          (set_released-row env.release_time row (attempted_state row env.attempt)
            (attempted_error env.attempt))
          u found owned in
      let same : d ≡ (process_message m worker_id env db).db =
        ap (λ (x : Db × Bool). x.0) (some-injective _ _ (sym ok ∙ released)) in
      (
        row,
        rw e f,
        (
          released_row env.release_time row (attempted_state row env.attempt)
              (attempted_error env.attempt) j,
          rw same at (settled.0),
          refl,
          refl,
          refl,
          refl,
        ),
      )

  module _
      (unique : IsUnique
        (env.while_executing
          (env.before_select (claim_job env.claim_time m.job_id worker_id db).0)).jobs)
      (done : (process_message m worker_id env db).ending ≡ completed) where
    -- Where the ids in the table are distinct at the release, a completed message leaves the job in
    -- the state that the attempt led to, with no owner and the attempt's error; its expiry is set
    -- for a retry only.
    pub completed_message-IsSettled :
        (row : Job) × (find_job m.job_id
            (env.before_select (claim_job env.claim_time m.job_id worker_id db).0).jobs
          ≡ some row)
        × IsSettled m.job_id env row (process_message m worker_id env db).db
    completed_message-IsSettled = elim (process_message_cases m worker_id env db) [
      | inl complete ↦ completed-IsSettled unique complete
      | inr (left, _) ↦ absurd (left.0 done)
    ]

    -- Where the ids are distinct at the release and the executor raised, the completed message
    -- leaves the job failed_terminal where the attempts of the row that the worker read were used up,
    -- and otherwise in retry_wait until the backoff delay of its attempt has passed since the release; the first 1000
    -- characters of the error are kept.
    pub raised_message_settled :
        (error : List ℕ)
        → env.attempt ≡ raised error
        → (row : Job) × (find_job m.job_id
              (env.before_select (claim_job env.claim_time m.job_id worker_id db).0).jobs
            ≡ some row)
          × (j : Job) × (find_job m.job_id (process_message m worker_id env db).db.jobs ≡ some j)
          × (j.lease_owner ≡ none)
          × (j.last_error ≡ some (take 1000 error))
          × (row.max_attempts ≤ row.attempt_count
              → (j.state ≡ failed_terminal) × (j.lease_expires_at ≡ none))
          × (row.attempt_count < row.max_attempts
              → (j.state ≡ retry_wait)
                × (j.lease_expires_at
                    ≡ some (env.release_time + compute_retry_delay row.attempt_count)))
    raised_message_settled error e =
        let (row, read, (j, found, state, owner, expiry, last)) = completed_message-IsSettled in
        (
          row,
          read,
          j,
          found,
          owner,
          last ∙ unfold attempted_error in rw e,
          (λ h.
              let s = raised_exhausted row env.attempt error e h in
              (state ∙ ap state_of s, expiry ∙ ap (expiry_of env.release_time row) s)),
          λ h.
              let s = raised_retried row env.attempt error e h in
              (state ∙ ap state_of s, expiry ∙ ap (expiry_of env.release_time row) s),
        )
