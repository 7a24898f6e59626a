-- ===== src/Worker.antt =====
-- A worker's handling of one stream message: _process_message of
-- services/panoptic_image_embed_worker/worker.py, the skeleton that the other workers share.
-- What the rest of the fleet commits while the worker runs enters as two functions on the table, and
-- the executor's writes to other tables as a list that is committed or rolled back as a whole.
pub mod Acks
pub mod Settles
use panoptic.Common.{
  ℕ, Bool, true, false, Option, none, some, List, [], ◌∷◌, ◌++◌, take, if◌then◌else◌, leb,
}
use panoptic.Jobs.Model.{Text, Job, JobType, image_embed, Db, find_job}
use panoptic.Jobs.Lease.{
  NewState, succeeds, degrades, fails, waits, ClaimResult, claim_job, release_job,
  compute_retry_delay,
}
use panoptic.Jobs.Reclaim.{is_exhausted}

-- What an executor returns as the job's state.
pub data ExecState : Type 0 where
  succeeded degraded retry_wait failed_terminal : ExecState

pub data Attempt : Type 0 where
  finished : ExecState → Attempt
  raised : Text → Attempt

pub record StreamMessage : Type 0 where
  pub entry_id : ℕ
  pub job_id : ℕ

pub record DeadLetter : Type 0 where
  pub job_type : JobType
  pub job_id : ℕ
  pub serial_number : ℕ
  pub reason : Option Text

-- What the message's handling did that others can see, oldest first.
pub data Effect (W : Type 0) : Type 0 where
  claim_committed : Effect W
  results_committed : ExecState → List W → Effect W
  dead_lettered : DeadLetter → Effect W
  acked : ℕ → Effect W

-- `completed` is the return value True, `aborted` is False, `crashed` an exception.
pub data Ending : Type 0 where
  completed aborted crashed : Ending

pub record Handled (W : Type 0) : Type 0 where
  pub ending : Ending
  pub db : Db
  pub effects : List (Effect W)

-- What the worker meets on the way. The switches say which of its calls go through: the claim with its
-- commit, the SELECT of the row, the release, the commit of the results, the dead letter's XADD and the
-- XACK. The others raise, and have no effect.
pub record Surroundings (W : Type 0) : Type 0 where
  pub claim_time : ℕ
  pub before_select : Db → Db
  pub attempt : Attempt
  pub writes : List W
  pub while_executing : Db → Db
  pub release_time : ℕ
  pub heartbeat_valid : Bool
  pub claim_up : Bool
  pub select_up : Bool
  pub release_up : Bool
  pub commit_up : Bool
  pub dlq_up : Bool
  pub ack_up : Bool

-- The state after the executor, its exception handled.
unfoldable pub attempted_state : Job → Attempt → ExecState
attempted_state row (finished s) = s
attempted_state row (raised error) = if is_exhausted row then failed_terminal else retry_wait

unfoldable pub attempted_error : Attempt → Option Text
attempted_error (finished s) = none
attempted_error (raised error) = some (take 1000 error)

-- `last_error or "unknown error"`, with none for the words "unknown error".
abbrev pub stated_reason : Option Text → Option Text
stated_reason none = none
stated_reason (some []) = none
stated_reason (some (c ∷ error)) = some (c ∷ error)

unfoldable pub new_state_of : Job → ExecState → NewState
new_state_of row succeeded = succeeds
new_state_of row degraded = degrades
new_state_of row failed_terminal = fails
new_state_of row retry_wait = waits (some (compute_retry_delay row.attempt_count))

module _ {W : Type 0} (m : StreamMessage) (worker_id : ℕ) (env : Surroundings W) where
  -- After the commit: the dead letter of a job that failed for good, unless its XADD raises.
  unfoldable pub dead_letters : ClaimResult → ExecState → List (Effect W)
  dead_letters claim failed_terminal =
      if env.dlq_up
      then dead_lettered (record {
        job_type = image_embed;
        job_id = m.job_id;
        serial_number = claim.serial_number;
        reason = stated_reason (attempted_error env.attempt);
      })
        ∷ []
      else []
  dead_letters claim succeeded = []
  dead_letters claim degraded = []
  dead_letters claim retry_wait = []

  -- And then the ACK, unless it raises.
  unfoldable pub after_commit : ClaimResult → ExecState → List (Effect W)
  after_commit claim s = dead_letters claim s ++ (if env.ack_up then acked m.entry_id ∷ [] else [])

  -- An exception that nothing here catches; what the connection has not committed is rolled back.
  unfoldable pub crash : Db → List (Effect W) → Handled W
  crash db effects = record { ending = crashed; db = db; effects = effects }

  -- From the release to the end. `db` is the table as the others have left it by then.
  unfoldable pub finish_message : ClaimResult → ExecState → Db → Option (Db × Bool) → Handled W
  unfolding crash
  finish_message claim s db none = crash db (claim_committed ∷ [])
  finish_message claim s db (some (released_db, false)) = record {
    ending = aborted;
    db = db;
    effects = claim_committed ∷ [];
  }
  finish_message claim s db (some (released_db, true)) =
      if env.heartbeat_valid
      then (if env.commit_up
          then record {
            ending = if env.ack_up then completed else crashed;
            db = released_db;
            effects = claim_committed ∷ results_committed s env.writes ∷ after_commit claim s;
          }
          else crash db (claim_committed ∷ []))
      else record { ending = aborted; db = db; effects = claim_committed ∷ [] }

  -- From the SELECT of the job row.
  unfoldable pub execute_message : ClaimResult → Db → Option Job → Handled W
  unfolding attempted_state attempted_error new_state_of
  execute_message claim db none = record {
    ending = aborted;
    db = db;
    effects = claim_committed ∷ [];
  }
  execute_message claim db (some row) =
      let s = attempted_state row env.attempt in
      let later = env.while_executing db in
      finish_message claim s later (
        if env.release_up
        then release_job env.release_time m.job_id worker_id (new_state_of row s)
            (attempted_error env.attempt) later
        else none)

  -- The SELECT, if it goes through.
  unfoldable pub select_message : Bool → ClaimResult → Db → Handled W
  unfolding crash
  select_message true claim db = execute_message claim db (find_job m.job_id db.jobs)
  select_message false claim db = crash db (claim_committed ∷ [])

  unfoldable pub claimed_message : Db × Option ClaimResult → Handled W
  claimed_message (db, none) = record { ending = aborted; db = db; effects = [] }
  claimed_message (db, some claim) = select_message env.select_up claim (env.before_select db)

  -- The claim, if it goes through.
  unfoldable pub start_message : Bool → Db → Handled W
  unfolding crash
  start_message true db = claimed_message (claim_job env.claim_time m.job_id worker_id db)
  start_message false db = crash db []

  unfoldable pub process_message : Db → Handled W
  process_message db = start_message env.claim_up db
