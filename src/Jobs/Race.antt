-- ===== src/Jobs/Race.antt =====
-- What the reset does to a job whose worker finished between the reclaimer's SELECT and its UPDATE.
use panoptic.Common.{◌∷◌, ◌≡◌, refl, ◌∙◌, ℕ, true, false, Option, none, some, List}
use panoptic.Jobs.Model.{Text, pending, succeeded, Job, Db, owned_by, find_job}
use panoptic.Jobs.Table.{find-update_self}
use panoptic.Jobs.Lease.{succeeds, release_job, claim_job, claim_result, set_claimed}
use panoptic.Jobs.Reclaim.{reclaim_row, set_reclaimed, reclaimed_state, is_exhausted}
use panoptic.Jobs.System.Steps.{World, Reach, steps, releases, reclaims}
use panoptic.Jobs.System.Safety.{Reach-IsValid}
use panoptic.Jobs.Ownership.{release_settles, claim_pending}

abbrev succeeded_row : Option Text → Job → Job
succeeded_row error j = record j {
  state = succeeded;
  lease_owner = none;
  lease_expires_at = none;
  last_error = error;
}

reclaimed_row :
    (row j : Job) (db : Db)
    → find_job row.job_id db.jobs ≡ some j
    → find_job row.job_id (reclaim_row row db).jobs ≡ some (set_reclaimed (reclaimed_state row) j)
unfolding reclaim_row
reclaimed_row row j db found = find-update_self _ _ (λ _. refl) row.job_id db.jobs ∙ rw found

-- While the reclaimer holds a selected row with an attempt left, its owner can release the job as
-- succeeded, be told that it did, and yet the reset that follows puts the job back to pending and
-- any worker that then claims it gets it a second time.
pub succeeded_job_reopened :
    (w : World) (row : Job) (rows : List Job) (now o later v : ℕ) (error : Option Text) (j : Job)
    → Reach w
    → w.selected ≡ row ∷ rows
    → find_job row.job_id w.db.jobs ≡ some j
    → owned_by o j.lease_owner ≡ true
    → is_exhausted row ≡ false
    → (done : Db) × (u : World) × (release_job now row.job_id o succeeds error w.db
        ≡ some (done, true))
      × Reach u
      × (u.db ≡ reclaim_row row done)
      × ((x : Job) × (find_job row.job_id u.db.jobs ≡ some x)
          × (x.state ≡ pending)
          × ((claim_job later row.job_id v u.db).1 ≡ some (claim_result (set_claimed later v x))))
succeeded_job_reopened w row rows now o later v error j r e found owned left =
    let (done, ok, settled, _, _) =
      release_settles now row.job_id o succeeds error (succeeded_row error) w.db j refl
        (Reach-IsValid r).unique found owned in
    let u : World = record { db = reclaim_row row done; selected = rows } in
    let reached : Reach u =
      steps (steps r (releases now row.job_id o succeeds error done true ok))
        (reclaims row rows e) in
    let x : Job = set_reclaimed (reclaimed_state row) (succeeded_row error j) in
    let back : find_job row.job_id u.db.jobs ≡ some x =
      reclaimed_row row (succeeded_row error j) done settled.0 in
    let reopened : x.state ≡ pending = rw left in
    (
      done,
      u,
      ok,
      reached,
      refl,
      (
        x,
        back,
        reopened,
        (claim_pending later row.job_id v u.db x (Reach-IsValid reached).unique back reopened).0,
      ),
    )
