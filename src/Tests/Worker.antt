-- ===== src/Tests/Worker.antt =====
-- The worker on a message whose executor raises.
use panoptic.Common.{ℕ, ◌+◌, ◌≤◌, ◌<◌, ◌≡◌, refl, ◌⊎◌, true, none, some, [], ◌∷◌}
use panoptic.Jobs.Model.{Job, find_job, retry_wait, failed_terminal}
use panoptic.Jobs.Lease.{claim_job, release_job, compute_retry_delay}
use panoptic.Worker.{
  Surroundings, StreamMessage, raised, completed, process_message, start_message, claimed_message,
  select_message, execute_message, finish_message, attempted_state, attempted_error, new_state_of,
  after_commit,
}
use panoptic.Worker.Acks.{Commits, LeavesPending, LeftAlone, process_message_cases}
use panoptic.Worker.Settles.{IsSettled, completed_message-IsSettled, raised_message_settled}
use panoptic.Tests.Jobs.{two_queued, one_claimed, one_claimed-IsValid}

abbrev message : StreamMessage
message = record { entry_id = 31; job_id = 7 }

-- The executor raises an error of three characters, and nobody else writes.
abbrev raising : Surroundings ℕ
raising = record {
  claim_time = 1000;
  before_select = λ db. db;
  attempt = raised (101 ∷ 114 ∷ 114 ∷ []);
  writes = [];
  while_executing = λ db. db;
  release_time = 1050;
  heartbeat_valid = true;
  claim_up = true;
  select_up = true;
  release_up = true;
  commit_up = true;
  dlq_up = true;
  ack_up = true;
}

raising_completed : (process_message message 5 raising two_queued).ending ≡ completed
unfolding process_message start_message claimed_message select_message execute_message
    finish_message claim_job release_job attempted_state attempted_error new_state_of after_commit
raising_completed = refl

process_message_cases_example :
    let h = process_message message 5 raising two_queued in
    Commits message 5 raising two_queued h
    ⊎ (LeavesPending message 5 raising h × LeftAlone message 5 raising two_queued h)
process_message_cases_example = process_message_cases message 5 raising two_queued

completed_message-IsSettled_example :
    (row : Job) × (find_job 7 one_claimed.jobs ≡ some row)
    × IsSettled 7 raising row (process_message message 5 raising two_queued).db
completed_message-IsSettled_example =
    completed_message-IsSettled message 5 raising two_queued one_claimed-IsValid.unique
      raising_completed

raised_message_settled_example :
    (row : Job) × (find_job 7 one_claimed.jobs ≡ some row)
    × (j : Job) × (find_job 7 (process_message message 5 raising two_queued).db.jobs ≡ some j)
    × (j.lease_owner ≡ none)
    × (j.last_error ≡ some (101 ∷ 114 ∷ 114 ∷ []))
    × (row.max_attempts ≤ row.attempt_count
        → (j.state ≡ failed_terminal) × (j.lease_expires_at ≡ none))
    × (row.attempt_count < row.max_attempts
        → (j.state ≡ retry_wait)
          × (j.lease_expires_at ≡ some (1050 + compute_retry_delay row.attempt_count)))
raised_message_settled_example =
    raised_message_settled message 5 raising two_queued one_claimed-IsValid.unique raising_completed
      (101 ∷ 114 ∷ 114 ∷ []) refl
