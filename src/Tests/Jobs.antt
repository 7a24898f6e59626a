-- ===== src/Tests/Jobs.antt =====
-- Jobs at concrete inputs: the tables and the runs of the processes that the examples share, and the
-- theorems on the whole system.
use panoptic.Common.{
  ℕ, ◌≡◌, refl, ◌+◌, ◌≤◌, Bool, true, none, some, List, [], ◌∷◌, ◌++◌, All, map, length, select,
  ◌&&◌, arith, ◌<◌, not, ◌==◌,
}
use panoptic.Jobs.Model.{bucket_summary, pending, Job, Db, find_job}
use panoptic.Jobs.Table.{IsFresh}
use panoptic.Jobs.Lease.{succeeds, claim_job, claim_result, set_claimed, release_job}
use panoptic.Jobs.Reclaim.{
  is_stale, select_expired, set_reclaimed, reclaimed_state, is_exhausted, reclaimed_job, dlq_entry,
  reclaim_row, reclaim_expired_leases, order_by_expiry, insert_by_expiry,
}
use panoptic.Jobs.Invariant.{IsValid}
use panoptic.Jobs.System.Steps.{World, IsNew, Reach, starts, steps, inserts, claims, selects}
use panoptic.Jobs.System.Safety.{Reach-IsValid}
use panoptic.Jobs.Sweep.{reclaim_sweeps}
use panoptic.Jobs.Accounts.{reclaim_accounts, has_attempt_left}
use panoptic.Jobs.Orphans.{pending_never_reclaimed}
use panoptic.Jobs.Race.{succeeded_job_reopened}

-- A job as it is inserted, with its id and its max_attempts.
abbrev pub queued : ℕ → ℕ → Job
queued k m = record {
  job_id = k;
  job_type = bucket_summary;
  serial_number = 1422;
  state = pending;
  lease_owner = none;
  lease_expires_at = none;
  attempt_count = 0;
  max_attempts = m;
  last_error = none;
}

queued-IsNew : (k m : ℕ) → 0 < m → IsNew (queued k m)
queued-IsNew k m h = record {
  state = refl;
  owner = refl;
  expiry = refl;
  attempts = refl;
  allowed = h;
}

abbrev pub two_queued : Db
two_queued = record { jobs = queued 7 3 ∷ queued 8 1 ∷ []; history = [] }

-- Worker 5 claims job 7 at time 1000, and worker 6 claims job 8 at time 1010.
abbrev pub one_claimed : Db
one_claimed = (claim_job 1000 7 5 two_queued).0

abbrev pub both_claimed : Db
both_claimed = (claim_job 1010 8 6 one_claimed).0

abbrev pub in_world : Db → List Job → World
in_world db selected = record { db = db; selected = selected }

pub two_queued-Reach : Reach (in_world two_queued [])
two_queued-Reach =
    steps (steps starts (inserts (queued 8 1) (queued-IsNew 8 1 (omega arith)) tt tt))
      (inserts (queued 7 3) (queued-IsNew 7 3 (omega arith)) ((λ e. omega arith), tt) tt)

both_claimed-Reach : Reach (in_world both_claimed [])
unfolding claim_job
both_claimed-Reach = steps (steps two_queued-Reach (claims 1000 7 5)) (claims 1010 8 6)

pub one_claimed-IsValid : IsValid one_claimed
one_claimed-IsValid = Reach-IsValid (steps two_queued-Reach (claims 1000 7 5))

pub two_queued-IsValid : IsValid two_queued
two_queued-IsValid = Reach-IsValid two_queued-Reach

pub both_claimed-IsValid : IsValid both_claimed
both_claimed-IsValid = Reach-IsValid both_claimed-Reach

Reach-IsValid_example : IsValid both_claimed
Reach-IsValid_example = Reach-IsValid both_claimed-Reach

-- The dead-letter streams are up for every job but those with the id 9.
abbrev dlq_up : Job → Bool
dlq_up j = not (j.job_id == 9)

abbrev both_expired : List Job
both_expired = select_expired 2000 both_claimed

reclaim_sweeps_example :
    let t = reclaim_expired_leases 2000 dlq_up (some 2 ∷ none ∷ []) both_claimed [] in
    All
      (λ r.
        (is_stale 2000 r ≡ true)
        × (find_job r.job_id t.db.jobs ≡ some (set_reclaimed (reclaimed_state r) r)))
      both_expired
    × ((k : ℕ) → IsFresh k both_expired → find_job k t.db.jobs ≡ find_job k both_claimed.jobs)
reclaim_sweeps_example =
    reclaim_sweeps 2000 dlq_up (some 2 ∷ none ∷ []) both_claimed [] both_claimed-IsValid

reclaim_accounts_example :
    let t = reclaim_expired_leases 2000 dlq_up (some 2 ∷ none ∷ []) both_claimed [] in
    (t.stats.reset_to_pending + t.stats.sent_to_dlq ≡ length both_expired)
    × (length both_expired ≤ 100)
    × (t.stats.reset_to_pending ≡ length t.stats.reset_jobs)
    × (t.stats.reset_jobs ≡ map reclaimed_job (select has_attempt_left both_expired))
    × (t.dlq ≡ [] ++ map dlq_entry (select (λ r. is_exhausted r && dlq_up r) both_expired))
reclaim_accounts_example = reclaim_accounts 2000 dlq_up (some 2 ∷ none ∷ []) both_claimed []

pending_never_reclaimed_example :
    IsFresh 7 (select_expired 2000 two_queued)
    × (find_job 7 (reclaim_expired_leases 2000 dlq_up [] two_queued []).db.jobs ≡ some (queued 7 3))
pending_never_reclaimed_example =
    pending_never_reclaimed 2000 7 dlq_up [] two_queued [] (queued 7 3) two_queued-IsValid refl refl

-- The rows of the two jobs as they are claimed.
abbrev leased_7 : Job
leased_7 = set_claimed 1000 5 (queued 7 3)

abbrev leased_8 : Job
leased_8 = set_claimed 1010 6 (queued 8 1)

selected-Reach : Reach (in_world both_claimed (leased_7 ∷ leased_8 ∷ []))
unfolding claim_job select_expired order_by_expiry insert_by_expiry
selected-Reach = steps both_claimed-Reach (selects 2000 refl)

succeeded_job_reopened_example :
    (done : Db) × (u : World) × (release_job 1500 7 5 succeeds none both_claimed
      ≡ some (done, true))
    × Reach u
    × (u.db ≡ reclaim_row leased_7 done)
    × ((x : Job) × (find_job 7 u.db.jobs ≡ some x)
        × (x.state ≡ pending)
        × ((claim_job 2010 7 6 u.db).1 ≡ some (claim_result (set_claimed 2010 6 x))))
unfolding claim_job
succeeded_job_reopened_example =
    succeeded_job_reopened (in_world both_claimed (leased_7 ∷ leased_8 ∷ [])) leased_7
      (leased_8 ∷ []) 1500 5 2010 6 none leased_7 selected-Reach refl refl refl refl
