-- ===== src/Tests/Lease.antt =====
-- The lease operations at concrete inputs.
use panoptic.Common.{ℕ, ◌≡◌, refl, ◌⊎◌, true, false, Option, none, some, List, [], ◌∷◌}
use panoptic.Jobs.Model.{append_job_history, Job, Db, find_job, succeeded}
use panoptic.Jobs.Lease.{
  NewState, fails, succeeds, claim_job, claim_result, set_claimed, release_job, release_history,
  renew_lease,
}
use panoptic.Jobs.Reclaim.{reclaim_row}
use panoptic.Jobs.System.Steps.{claims, renews}
use panoptic.Jobs.System.Exclusive.{LeaseRun, stays, goes, IsHeld, claim_exclusive}
use panoptic.Jobs.Ownership.{release_settles, reclaimed_lease_lost, Settled}
use panoptic.Tests.Jobs.{
  queued, two_queued, one_claimed, both_claimed, two_queued-Reach, in_world, both_claimed-IsValid,
}

abbrev leased_7 : Job
leased_7 = set_claimed 1000 5 (queued 7 3)

-- Worker 6 claims another job, and worker 5 renews its lease.
abbrev renewed_7 : Db
renewed_7 = (renew_lease 1050 7 5 both_claimed).0

renewed_7-LeaseRun : LeaseRun 7 5 (in_world one_claimed []) (in_world renewed_7 [])
renewed_7-LeaseRun = goes (goes stays (claims 1010 8 6) refl) (renews 1050 7 5) refl

claim_exclusive_example :
    IsHeld 7 5 renewed_7.jobs × (claim_job 1100 7 6 renewed_7 ≡ (renewed_7, none))
unfolding claim_job
claim_exclusive_example =
    claim_exclusive 7 5 1000 1100 6 (in_world two_queued []) (in_world renewed_7 [])
      (claim_result leased_7) two_queued-Reach refl renewed_7-LeaseRun

abbrev succeeded_row : Job → Job
succeeded_row j = record j {
  state = succeeded;
  lease_owner = none;
  lease_expires_at = none;
  last_error = none;
}

release_settles_example :
    (db' : Db) × (release_job 1100 7 5 succeeds none both_claimed ≡ some (db', true))
    × Settled 7 leased_7 succeeded_row both_claimed db'
    × ((later v : ℕ) → (renew_lease later 7 v db').1 ≡ false)
    × ((later v : ℕ) (s' : NewState) (error' : Option (List ℕ))
        → (release_job later 7 v s' error' db' ≡ none)
          ⊎ (release_job later 7 v s' error' db' ≡ some (db', false)))
unfolding claim_job
release_settles_example =
    release_settles 1100 7 5 succeeds none succeeded_row both_claimed leased_7 refl
      both_claimed-IsValid.unique refl refl

abbrev after_release : Db
after_release = record {
  jobs = succeeded_row leased_7 ∷ set_claimed 1010 6 (queued 8 1) ∷ [];
  history =
      append_job_history (release_history 5 none (succeeded_row leased_7)) both_claimed.history;
}

released_7 : release_job 1100 7 5 succeeds none both_claimed ≡ some (after_release, true)
unfolding release_job claim_job
released_7 = refl

reclaimed_lease_lost_example :
    let db' = reclaim_row leased_7 both_claimed in
    ((renew_lease 1200 7 5 db').1 ≡ false)
    × (find_job 7 (renew_lease 1200 7 5 db').0.jobs ≡ find_job 7 db'.jobs)
    × ((release_job 1200 7 5 fails none db' ≡ none)
        ⊎ (release_job 1200 7 5 fails none db' ≡ some (db', false)))
unfolding claim_job
reclaimed_lease_lost_example =
    reclaimed_lease_lost leased_7 leased_7 both_claimed both_claimed-IsValid.unique refl 1200 5
      fails none
