-- ===== src/Jobs/Invariant.antt =====
-- The invariant of the job table, kept by every lease operation and by the reclaimer.
use panoptic.Common.{
  subst, some-injective, ℕ, ◌≤◌, ◌<◌, ◌≡◌, refl, Bool, true, false, Option, none, some, List, arith,
  All, is_some, Option-cases, inl, inr,
}
use panoptic.Jobs.Model.{
  Text, HistoryRow, update_job, pending, Job, Db, holds_lease, is_reclaimable, is_pending, owned_by,
  updated_row,
}
use panoptic.Jobs.Table.{KeepsId, IsUnique, update-IsUnique, All-update}
use panoptic.Jobs.Lease.{
  NewState, succeeds, degrades, fails, cancels, waits, set_claimed, set_renewed, set_running,
  set_released, may_renew, may_run, release_with, claim_job, renew_lease, mark_running, release_job,
}

-- A row has an owner exactly while it is leased or running, and an expiry exactly while the
-- reclaimer may take it up.
pub record IsLeaseConsistent (j : Job) : Type 0 where
  pub owner : is_some j.lease_owner ≡ holds_lease j.state
  pub expiry : is_some j.lease_expires_at ≡ is_reclaimable j.state

-- No row has more attempts than it is allowed, and a pending row has one left.
pub record IsWithinAttempts (j : Job) : Type 0 where
  pub bounded : j.attempt_count ≤ j.max_attempts
  pub one_left : j.state ≡ pending → j.attempt_count < j.max_attempts

pub record IsValid (db : Db) : Type 0 where
  pub unique : IsUnique db.jobs
  pub consistent : All IsLeaseConsistent db.jobs
  pub within : All IsWithinAttempts db.jobs

claimed-within :
    (now w : ℕ) (j : Job)
    → is_pending j.state ≡ true
    → IsWithinAttempts j
    → IsWithinAttempts (set_claimed now w j)
claimed-within now w j p h = ground arith

renewed-consistent :
    (now w : ℕ) (j : Job)
    → may_renew w j ≡ true
    → IsLeaseConsistent j
    → IsLeaseConsistent (set_renewed now j)
renewed-consistent now w j p h = ground arith

running-consistent :
    (w : ℕ) (j : Job) → may_run w j ≡ true → IsLeaseConsistent j → IsLeaseConsistent (set_running j)
running-consistent w j p h = ground arith

-- What every release does to a row.
pub record Releases (f : Job → Job) : Type 0 where
  pub keeps_id : (j : Job) → (f j).job_id ≡ j.job_id
  pub consistent : (j : Job) → IsLeaseConsistent (f j)
  pub attempts : (j : Job) → (f j).attempt_count ≡ j.attempt_count
  pub allowed : (j : Job) → (f j).max_attempts ≡ j.max_attempts
  pub settled : (j : Job) → is_pending (f j).state ≡ false
  pub unowned : (j : Job) → (f j).lease_owner ≡ none

pub set_released-Releases :
    (now : ℕ) (s : NewState) (error : Option Text) (f : Job → Job)
    → set_released now s error ≡ some f
    → Releases f
set_released-Releases now succeeds error f e = subst Releases (some-injective _ _ e) (record {
  keeps_id = λ j. refl;
  consistent = λ j. record { owner = refl; expiry = refl };
  attempts = λ j. refl;
  allowed = λ j. refl;
  settled = λ j. refl;
  unowned = λ j. refl;
})
set_released-Releases now degrades error f e = subst Releases (some-injective _ _ e) (record {
  keeps_id = λ j. refl;
  consistent = λ j. record { owner = refl; expiry = refl };
  attempts = λ j. refl;
  allowed = λ j. refl;
  settled = λ j. refl;
  unowned = λ j. refl;
})
set_released-Releases now fails error f e = subst Releases (some-injective _ _ e) (record {
  keeps_id = λ j. refl;
  consistent = λ j. record { owner = refl; expiry = refl };
  attempts = λ j. refl;
  allowed = λ j. refl;
  settled = λ j. refl;
  unowned = λ j. refl;
})
set_released-Releases now cancels error f e = subst Releases (some-injective _ _ e) (record {
  keeps_id = λ j. refl;
  consistent = λ j. record { owner = refl; expiry = refl };
  attempts = λ j. refl;
  allowed = λ j. refl;
  settled = λ j. refl;
  unowned = λ j. refl;
})
set_released-Releases now (waits none) error f e = cc
set_released-Releases now (waits (some t)) error f e =
    subst Releases (some-injective _ _ e) (record {
      keeps_id = λ j. refl;
      consistent = λ j. record { owner = refl; expiry = refl };
      attempts = λ j. refl;
      allowed = λ j. refl;
      settled = λ j. refl;
      unowned = λ j. refl;
    })

-- An update keeps the invariant if it does so at each row that it meets.
pub update-IsValid :
    (k : ℕ) (q : Job → Bool) (f : Job → Job) (db : Db) (hs : List HistoryRow)
    → KeepsId f
    → ((j : Job) → q j ≡ true → IsLeaseConsistent j → IsLeaseConsistent (f j))
    → ((j : Job) → q j ≡ true → IsWithinAttempts j → IsWithinAttempts (f j))
    → IsValid db
    → IsValid (record { jobs = update_job k q f db.jobs; history = hs })
update-IsValid k q f db hs keep c a v = record {
  unique = update-IsUnique q f keep k db.jobs v.unique;
  consistent = All-update q f IsLeaseConsistent k (λ j _. c j) db.jobs v.consistent;
  within = All-update q f IsWithinAttempts k (λ j _. a j) db.jobs v.within;
}

pub claim-IsValid : (now k w : ℕ) (db : Db) → IsValid db → IsValid (claim_job now k w db).0
unfolding claim_job
claim-IsValid now k w db v =
    elim (Option-cases (updated_row k (λ j. is_pending j.state) (set_claimed now w) db.jobs)) [
      | inl e ↦ rw (e, claim_job) v
      | inr (row, e) ↦
          rw (e, claim_job)
            (update-IsValid k _ _ db _ (λ j. refl) (λ j p h. record { owner = refl; expiry = refl })
              (claimed-within now w) v)
    ]

pub renew-IsValid : (now k w : ℕ) (db : Db) → IsValid db → IsValid (renew_lease now k w db).0
unfolding renew_lease
renew-IsValid now k w db v =
    update-IsValid k _ _ db _ (λ j. refl) (renewed-consistent now w)
      (λ j p h. record { bounded = h.bounded; one_left = h.one_left }) v

pub mark_running-IsValid : (k w : ℕ) (db : Db) → IsValid db → IsValid (mark_running k w db)
unfolding mark_running
mark_running-IsValid k w db v =
    elim (Option-cases (updated_row k (may_run w) set_running db.jobs)) [
      | inl e ↦ rw (e, mark_running) v
      | inr (row, e) ↦
          rw (e, mark_running)
            (update-IsValid k _ _ db _ (λ j. refl) (running-consistent w) (λ j p h. ground arith) v)
    ]

released-within :
    (f : Job → Job) → Releases f → (j : Job) → IsWithinAttempts j → IsWithinAttempts (f j)
released-within f r j h = record {
  bounded = rw (r.attempts j, r.allowed j) h.bounded;
  one_left = λ e. ground (arith, r.settled j);
}

release_with-IsValid :
    (k w : ℕ) (error : Option Text) (f : Job → Job) (db : Db)
    → Releases f
    → IsValid db
    → IsValid (release_with k w error f db).0
release_with-IsValid k w error f db r v =
    elim (Option-cases (updated_row k (λ j. owned_by w j.lease_owner) f db.jobs)) [
      | inl e ↦ rw (e, release_with) v
      | inr (row, e) ↦
          rw (e, release_with)
            (update-IsValid k _ _ db _ r.keeps_id (λ j p h. r.consistent j)
              (λ j p h. released-within f r j h) v)
    ]

pub release-IsValid :
    (now k w : ℕ) (s : NewState) (error : Option Text) (db db' : Db) (done : Bool)
    → release_job now k w s error db ≡ some (db', done)
    → IsValid db
    → IsValid db'
unfolding release_job
release-IsValid now k w s error db db' done e v = elim (Option-cases (set_released now s error)) [
  | inl n ↦ absurd (cc (rw (n, release_job) at e))
  | inr (f, n) ↦
      let back : release_with k w error f db ≡ (db', done) =
        some-injective _ _ (rw (n, release_job) at e) in
      subst (λ (r : Db × Bool). IsValid r.0) back
        (release_with-IsValid k w error f db (set_released-Releases now s error f n) v)
]
