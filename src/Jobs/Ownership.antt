-- ===== src/Jobs/Ownership.antt =====
-- Who may write to a job: the claim is exclusive, and every later write belongs to the owner.
use mathlib.Core.Option
use panoptic.Common.{
  ℕ, ◌≡◌, ◌≢◌, refl, sym, ap, ◌⊎◌, ◌∙◌, Bool, true, false, Option, none, some, arith, Option-cases,
  Bool-cases, inl, inr,
}
use panoptic.Jobs.Model.{
  Text, JobState, pending, Job, Db, is_pending, owned_by, updated_row, find_job,
}
use panoptic.Jobs.Table.{
  IsUnique, returned, KeepsId, find-update_self, find-update_ne, updated-find, update-IsUnique,
}
use panoptic.Jobs.Lease.{
  NewState, set_claimed, set_released, claim_result, claim_job, renew_lease, release_job,
  release_with,
}
use panoptic.Jobs.Reclaim.{reclaim_row, set_reclaimed, reclaimed_state}
use panoptic.Jobs.Invariant.{set_released-Releases}

module _ (now k w : ℕ) (db : Db) (u : IsUnique db.jobs) where
  -- The row that the UPDATE of claim_job returns.
  claimed_row :
      updated_row k (λ j. is_pending j.state) (set_claimed now w) db.jobs
      ≡ returned (λ j. is_pending j.state) (set_claimed now w) (find_job k db.jobs)
  claimed_row = updated-find _ _ k db.jobs u

  pub claim_missing : find_job k db.jobs ≡ none → claim_job now k w db ≡ (db, none)
  unfolding claim_job
  claim_missing e = rw (claimed_row, e, claim_job)

  -- A job that is not pending is not claimed, and nothing is written.
  pub claim_refused :
      (j : Job)
      → find_job k db.jobs ≡ some j
      → is_pending j.state ≡ false
      → claim_job now k w db ≡ (db, none)
  unfolding claim_job
  claim_refused j e p = rw (claimed_row, e, p, claim_job)

  claim-IsUnique : IsUnique (claim_job now k w db).0.jobs
  unfolding claim_job
  claim-IsUnique =
      elim (Option-cases (updated_row k (λ j. is_pending j.state) (set_claimed now w) db.jobs)) [
        | inl e ↦ rw (e, claim_job) u
        | inr (row, e) ↦ rw (e, claim_job) (update-IsUnique _ _ (λ _. refl) k db.jobs u)
      ]

pub pending_of : (s : JobState) → is_pending s ≡ true → s ≡ pending
pending_of s p = ground arith

-- A claim of a pending job succeeds: it returns the row with one more attempt, and in the table the
-- row, and no other, is leased to the worker until the lease's time to live has passed.
pub claim_pending :
    (now k w : ℕ) (db : Db) (j : Job)
    → IsUnique db.jobs
    → find_job k db.jobs ≡ some j
    → j.state ≡ pending
    → ((claim_job now k w db).1 ≡ some (claim_result (set_claimed now w j)))
      × (find_job k (claim_job now k w db).0.jobs ≡ some (set_claimed now w j))
      × ((i : ℕ) → i ≢ k → find_job i (claim_job now k w db).0.jobs ≡ find_job i db.jobs)
unfolding claim_job
claim_pending now k w db j u e p =
    rw (claimed_row now k w db u, e, p, claim_job)
      (
        refl,
        find-update_self _ _ (λ _. refl) k db.jobs ∙ rw (e, p),
        λ i ne. find-update_ne _ _ (λ _. refl) k i db.jobs ne,
      )

module _ (k w : ℕ) (db : Db) (u : IsUnique db.jobs) (j : Job)
    (found : find_job k db.jobs ≡ some j) where
  -- A worker that is not the owner renews nothing: it is told so and the row stays as it is.
  renew_refused :
      (now : ℕ)
      → owned_by w j.lease_owner ≡ false
      → ((renew_lease now k w db).1 ≡ false) × (find_job k (renew_lease now k w db).0.jobs ≡ some j)
  unfolding renew_lease
  renew_refused now o = (
    rw (updated-find _ _ k db.jobs u, found, o) refl,
    find-update_self _ _ (λ _. refl) k db.jobs ∙ rw (found, o),
  )

  -- A worker that is not the owner releases nothing: it is told so and nothing is written.
  release_refused :
      (now : ℕ) (s : NewState) (error : Option Text)
      → owned_by w j.lease_owner ≡ false
      → (release_job now k w s error db ≡ none)
        ⊎ (release_job now k w s error db ≡ some (db, false))
  unfolding release_job
  release_refused now s error o = elim (Option-cases (set_released now s error)) [
    | inl n ↦ inl (rw (n, release_job))
    | inr (f, n) ↦ inr (
        rw (n, release_job)
          (ap some (
            rw (updated-find (λ x. owned_by w x.lease_owner) f k db.jobs u, found, o, release_with)
              refl)))
  ]

release_missing :
    (now k w : ℕ) (s : NewState) (error : Option Text) (db : Db)
    → IsUnique db.jobs
    → find_job k db.jobs ≡ none
    → (release_job now k w s error db ≡ none) ⊎ (release_job now k w s error db ≡ some (db, false))
unfolding release_job
release_missing now k w s error db u missing = elim (Option-cases (set_released now s error)) [
  | inl n ↦ inl (rw (n, release_job))
  | inr (f, n) ↦ inr (
      rw (n, release_job)
        (ap some (
          rw (updated-find (λ x. owned_by w x.lease_owner) f k db.jobs u, missing, release_with)
            refl)))
]

not_released :
    (r : Option (Db × Bool)) (db db' : Db)
    → r ≡ some (db', true)
    → ¬ ((r ≡ none) ⊎ (r ≡ some (db, false)))
not_released r db db' e (inl n) = cc
not_released r db db' e (inr n) =
    cc (ap (λ (x : Option (Db × Bool)). Option.map (λ (y : Db × Bool). y.1) x) (sym e ∙ n))

-- A release that reports success found the job owned by the worker that released it.
pub released_owned :
    (now k w : ℕ) (s : NewState) (error : Option Text) (db db' : Db)
    → IsUnique db.jobs
    → release_job now k w s error db ≡ some (db', true)
    → (j : Job) × (find_job k db.jobs ≡ some j) × (owned_by w j.lease_owner ≡ true)
released_owned now k w s error db db' u e = elim (Option-cases (find_job k db.jobs)) [
  | inl missing ↦ absurd (not_released _ db db' e (release_missing now k w s error db u missing))
  | inr (j, found) ↦ elim (Bool-cases (owned_by w j.lease_owner)) [
    | inl o ↦ (j, found, o)
    | inr o ↦ absurd (not_released _ db db' e (release_refused k w db u j found now s error o))
  ]
]

-- What a release leaves in the table.
abbrev pub Settled : ℕ → Job → (Job → Job) → Db → Db → Type 0
Settled k j f db db' =
    (find_job k db'.jobs ≡ some (f j))
    × ((i : ℕ) → i ≢ k → find_job i db'.jobs ≡ find_job i db.jobs)
    × IsUnique db'.jobs

release_with_owned :
    (k w : ℕ) (error : Option Text) (f : Job → Job) (db : Db) (j : Job)
    → KeepsId f
    → IsUnique db.jobs
    → find_job k db.jobs ≡ some j
    → owned_by w j.lease_owner ≡ true
    → ((release_with k w error f db).1 ≡ true) × Settled k j f db (release_with k w error f db).0
release_with_owned k w error f db j keep u found o =
    rw (updated-find (λ x. owned_by w x.lease_owner) f k db.jobs u, found, o, release_with)
      (
        refl,
        (
          find-update_self _ f keep k db.jobs ∙ rw (found, o),
          (λ i ne. find-update_ne _ f keep k i db.jobs ne),
          update-IsUnique _ f keep k db.jobs u,
        ),
      )

-- The owner's release, with any new state but a retry_wait without its delay, succeeds: it changes
-- the row as the UPDATE says and no other row, and after it nobody renews or releases the job.
pub release_settles :
    (now k w : ℕ) (s : NewState) (error : Option Text) (f : Job → Job) (db : Db) (j : Job)
    → set_released now s error ≡ some f
    → IsUnique db.jobs
    → find_job k db.jobs ≡ some j
    → owned_by w j.lease_owner ≡ true
    → (db' : Db) × (release_job now k w s error db ≡ some (db', true))
      × Settled k j f db db'
      × ((later v : ℕ) → (renew_lease later k v db').1 ≡ false)
      × ((later v : ℕ) (s' : NewState) (error' : Option Text)
          → (release_job later k v s' error' db' ≡ none)
            ⊎ (release_job later k v s' error' db' ≡ some (db', false)))
unfolding release_job
release_settles now k w s error f db j n u found o =
    let r = set_released-Releases now s error f n in
    let done = release_with_owned k w error f db j r.keeps_id u found o in
    let gone : (v : ℕ) → owned_by v (f j).lease_owner ≡ false = λ v. rw (r.unowned j) in
    (
      (release_with k w error f db).0,
      rw (n, release_job) (ap (λ (b : Bool). some ((release_with k w error f db).0, b)) done.0),
      done.1,
      (λ later v. (renew_refused k v _ done.1.2 (f j) done.1.0 later (gone v)).0),
      λ later v s' error'. release_refused k v _ done.1.2 (f j) done.1.0 later s' error' (gone v),
    )

-- Once the reclaimer has reset a job, no worker renews or releases it on the strength of a lease it
-- held before: renewal and release both report that the lease is lost, and the row stays as reset.
pub reclaimed_lease_lost :
    (row j : Job) (db : Db)
    → IsUnique db.jobs
    → find_job row.job_id db.jobs ≡ some j
    → (now w : ℕ) (s : NewState) (error : Option Text)
    → let db' = reclaim_row row db in
      ((renew_lease now row.job_id w db').1 ≡ false)
      × (find_job row.job_id (renew_lease now row.job_id w db').0.jobs
          ≡ find_job row.job_id db'.jobs)
      × ((release_job now row.job_id w s error db' ≡ none)
          ⊎ (release_job now row.job_id w s error db' ≡ some (db', false)))
unfolding reclaim_row
reclaimed_lease_lost row j db u found now w s error =
    let after : find_job row.job_id (reclaim_row row db).jobs
        ≡ some (set_reclaimed (reclaimed_state row) j) =
      find-update_self _ _ (λ _. refl) row.job_id db.jobs ∙ rw found in
    let u' : IsUnique (reclaim_row row db).jobs =
      update-IsUnique _ _ (λ _. refl) row.job_id db.jobs u in
    let renewal = renew_refused row.job_id w (reclaim_row row db) u' _ after now refl in
    (
      renewal.0,
      renewal.1 ∙ sym after,
      release_refused row.job_id w (reclaim_row row db) u' _ after now s error refl,
    )
