-- ===== src/Jobs/System/Resets.antt =====
-- Every step leaves the rows that the reclaimer holds fit to be reset.
use panoptic.Common.{
  ℕ, ◌≡◌, refl, sym, Bool, true, Option, some, List, All, All-map, All-map₂, subst, some-injective,
  ◌∙◌, Option-cases, Bool-cases, inl, inr,
}
use panoptic.Jobs.Model.{Text, updated_row, owned_by, Job, Db, is_pending, update_job}
use panoptic.Jobs.Table.{IsFresh, update-IsUnique, All-update, All-update_to}
use panoptic.Jobs.Lease.{
  NewState, set_claimed, set_renewed, set_running, set_released, may_renew, may_run, release_with,
  claim_job, mark_running, release_job,
}
use panoptic.Jobs.Reclaim.{reclaim_row, is_exhausted, reclaimed_state, set_reclaimed}
use panoptic.Jobs.Invariant.{
  IsLeaseConsistent, IsWithinAttempts, IsValid, Releases, set_released-Releases,
}
use panoptic.Jobs.System.Snapshot.{HasRoom, CanReset}

-- An update keeps the selected rows resettable if it does so at each row that it meets.
pub CanReset-update :
    (k : ℕ) (q : Job → Bool) (f : Job → Job)
    → ((row j : Job) → q j ≡ true → HasRoom row j → HasRoom row (f j))
    → (js rows : List Job) → All (CanReset js) rows
    → All (CanReset (update_job k q f js)) rows
CanReset-update k q f step js rows h =
    All-map _ _ (λ row r. All-update q f (HasRoom row) k (λ j _. step row j) js r) rows h

pub claim-HasRoom :
    (now o : ℕ) (row j : Job)
    → is_pending j.state ≡ true
    → HasRoom row j
    → HasRoom row (set_claimed now o j)
claim-HasRoom now o row j p h left e = absurd (cc (sym p ∙ (h left e).1))

pub renew-HasRoom :
    (now o : ℕ) (row j : Job)
    → may_renew o j ≡ true
    → HasRoom row j
    → HasRoom row (set_renewed now j)
renew-HasRoom now o row j p h left e = h left e

pub run-HasRoom :
    (o : ℕ) (row j : Job) → may_run o j ≡ true → HasRoom row j → HasRoom row (set_running j)
run-HasRoom o row j p h left e = ((h left e).0, refl)

pub release-HasRoom :
    (f : Job → Job) → Releases f → (row j : Job) → HasRoom row j → HasRoom row (f j)
release-HasRoom f r row j h left e =
    (rw (r.attempts j, r.allowed j) (h left (sym (r.keeps_id j) ∙ e)).0, r.settled j)

pub claim-CanReset :
    (now k o : ℕ) (db : Db) (rows : List Job)
    → All (CanReset db.jobs) rows
    → All (CanReset (claim_job now k o db).0.jobs) rows
unfolding claim_job
claim-CanReset now k o db rows h =
    elim (Option-cases (updated_row k (λ j. is_pending j.state) (set_claimed now o) db.jobs)) [
      | inl e ↦ rw (e, claim_job) h
      | inr (row, e) ↦
          rw (e, claim_job) (CanReset-update k _ _ (claim-HasRoom now o) db.jobs rows h)
    ]

pub mark_running-CanReset :
    (k o : ℕ) (db : Db) (rows : List Job)
    → All (CanReset db.jobs) rows
    → All (CanReset (mark_running k o db).jobs) rows
unfolding mark_running
mark_running-CanReset k o db rows h =
    elim (Option-cases (updated_row k (may_run o) set_running db.jobs)) [
      | inl e ↦ rw (e, mark_running) h
      | inr (row, e) ↦ rw (e, mark_running) (CanReset-update k _ _ (run-HasRoom o) db.jobs rows h)
    ]

pub release_with-CanReset :
    (k o : ℕ) (error : Option Text) (f : Job → Job) (db : Db) (rows : List Job)
    → Releases f
    → All (CanReset db.jobs) rows
    → All (CanReset (release_with k o error f db).0.jobs) rows
release_with-CanReset k o error f db rows r h =
    elim (Option-cases (updated_row k (λ j. owned_by o j.lease_owner) f db.jobs)) [
      | inl e ↦ rw (e, release_with) h
      | inr (row, e) ↦
          rw (e, release_with)
            (CanReset-update k _ _ (λ row j _. release-HasRoom f r row j) db.jobs rows h)
    ]

pub release-CanReset :
    (now k o : ℕ) (s : NewState) (error : Option Text) (db db' : Db) (done : Bool) (rows : List Job)
    → release_job now k o s error db ≡ some (db', done)
    → All (CanReset db.jobs) rows
    → All (CanReset db'.jobs) rows
unfolding release_job
release-CanReset now k o s error db db' done rows e h =
    elim (Option-cases (set_released now s error)) [
      | inl n ↦ absurd (cc (rw (n, release_job) at e))
      | inr (f, n) ↦
          let back : release_with k o error f db ≡ (db', done) =
            some-injective _ _ (rw (n, release_job) at e) in
          subst (λ (r : Db × Bool). All (CanReset r.0.jobs) rows) back
            (release_with-CanReset k o error f db rows (set_released-Releases now s error f n) h)
    ]

pub reclaimed-within :
    (row j : Job)
    → HasRoom row j × IsWithinAttempts j
    → j.job_id ≡ row.job_id
    → IsWithinAttempts (set_reclaimed (reclaimed_state row) j)
reclaimed-within row j h e = elim (Bool-cases (is_exhausted row)) [
  | inl x ↦ record { bounded = h.1.bounded; one_left = λ s. absurd (cc (rw x at s)) }
  | inr x ↦ record { bounded = h.1.bounded; one_left = λ s. (h.0 x e).0 }
]

pub reclaimed-consistent : (row j : Job) → IsLeaseConsistent (set_reclaimed (reclaimed_state row) j)
reclaimed-consistent row j = elim (Bool-cases (is_exhausted row)) [
  | inl x ↦ record { owner = rw x; expiry = rw x }
  | inr x ↦ record { owner = rw x; expiry = rw x }
]

-- The reset of a selected row keeps the invariant, also where other processes ran since the SELECT.
pub reclaim_row-IsValid :
    (row : Job) (db : Db) → CanReset db.jobs row → IsValid db → IsValid (reclaim_row row db)
unfolding reclaim_row
reclaim_row-IsValid row db r v = record {
  unique = update-IsUnique _ _ (λ j. refl) row.job_id db.jobs v.unique;
  consistent =
      All-update _ _ IsLeaseConsistent row.job_id (λ j _ _ _. reclaimed-consistent row j) db.jobs
        v.consistent;
  within =
      All-update_to _ _ (λ j. HasRoom row j × IsWithinAttempts j) IsWithinAttempts row.job_id
        (λ j h. h.1) (λ j e _ h. reclaimed-within row j h e) db.jobs
        (All-map₂ _ _ _ (λ j a b. (a, b)) db.jobs r v.within);
}

-- The reset of one row leaves the others that are selected resettable: they are other rows.
pub reclaim_row-CanReset :
    (row : Job) (db : Db) (rows : List Job)
    → IsFresh row.job_id rows
    → All (CanReset db.jobs) rows
    → All (CanReset (reclaim_row row db).jobs) rows
unfolding reclaim_row
reclaim_row-CanReset row db rows fresh h =
    All-map₂ _ _ _
      (λ other ne r.
        All-update _ _ (HasRoom other) row.job_id (λ j at _ _ left e. absurd (ne (sym e ∙ at)))
          db.jobs r)
      rows fresh h
