-- ===== src/Jobs/System/Exclusive.antt =====
-- A claimed job while its lease is neither released by its owner nor reset.
use mathlib.Core.Bool.{true≢false}
use panoptic.Common.{
  ℕ, ◌≡◌, refl, sym, ap, ◌∙◌, subst, some-injective, Bool, true, false, ◌&&◌, Option, none, some,
  List, ◌∷◌, ◌==◌, ==_iff, arith, Option-cases, Bool-cases, inl, inr,
}
use panoptic.Jobs.Model.{
  Text, Job, Db, holds_lease, is_pending, owned_by, update_job, updated_row, find_job,
}
use panoptic.Jobs.Table.{IsFresh, IsUnique, KeepsId, find-update_self, find-update_ne, find-IsFresh}
use panoptic.Jobs.Lease.{
  NewState, ClaimResult, set_claimed, set_running, may_run, set_released, claim_job, renew_lease,
  mark_running, release_with, release_job,
}
use panoptic.Jobs.Reclaim.{reclaim_row}
use panoptic.Jobs.Invariant.{set_released-Releases}
use panoptic.Jobs.Ownership.{claim_missing, claim_refused, claim_pending, pending_of}
use panoptic.Jobs.System.Steps.{
  World, Step, inserts, claims, renews, runs, releases, selects, reclaims, Reach, steps,
}
use panoptic.Jobs.System.Safety.{Reach-IsValid}

-- A step that ends the lease of worker v on job k: v's own release of it, or its reset.
abbrev pub ends_lease : ℕ → ℕ → {w u : World} → Step w u → Bool
ends_lease k v (inserts j n fresh apart) = false
ends_lease k v (claims now i o) = false
ends_lease k v (renews now i o) = false
ends_lease k v (runs i o) = false
ends_lease k v (releases now i o s error db' done e) = i == k && v == o
ends_lease k v (selects now e) = false
ends_lease k v (reclaims row rows e) = row.job_id == k

-- Steps of any process, none of which ends that lease.
pub data LeaseRun (k v : ℕ) (w : World) : World → Type 0 where
  stays : LeaseRun k v w w
  goes :
      {u x : World}
      → LeaseRun k v w u
      → (s : Step u x) → ends_lease k v s ≡ false
      → LeaseRun k v w x

-- The job is leased or running, and the worker is its owner.
abbrev pub IsHeld : ℕ → ℕ → List Job → Type 0
IsHeld k v js =
    (j : Job) × (find_job k js ≡ some j) × (j.lease_owner ≡ some v) × (holds_lease j.state ≡ true)

module _ (k v : ℕ) where
  update-IsHeld :
      (i : ℕ) (q : Job → Bool) (f : Job → Job)
      → KeepsId f
      → ((j : Job)
          → i ≡ k
          → q j ≡ true
          → j.lease_owner ≡ some v
          → holds_lease j.state ≡ true
          → ((f j).lease_owner ≡ some v) × (holds_lease (f j).state ≡ true))
      → (js : List Job) → IsHeld k v js
      → IsHeld k v (update_job i q f js)
  update-IsHeld i q f keep step js (j, found, owner, holds) = elim (Bool-cases (i == k)) [
    | inl e ↦
        let same : i ≡ k = (==_iff _ _).0 e in
        let own : find_job k (update_job i q f js) ≡ (find_job k (update_job k q f js)) =
          ap (λ n. find_job k (update_job n q f js)) same in
        elim (Bool-cases (q j)) [
          | inl p ↦
              let (a, b) = step j same p owner holds in
              (f j, own ∙ find-update_self q f keep k js ∙ rw (found, p) refl, a, b)
          | inr p ↦ (j, own ∙ find-update_self q f keep k js ∙ rw (found, p) refl, owner, holds)
        ]
    | inr e ↦ (j, find-update_ne q f keep i k js (λ s. ground (arith, s, e)) ∙ found, owner, holds)
  ]

  claim-IsHeld :
      (now i o : ℕ) (db : Db) → IsHeld k v db.jobs → IsHeld k v (claim_job now i o db).0.jobs
  unfolding claim_job
  claim-IsHeld now i o db h =
      elim (Option-cases (updated_row i (λ j. is_pending j.state) (set_claimed now o) db.jobs)) [
        | inl e ↦ rw (e, claim_job) h
        | inr (row, e) ↦
            rw (e, claim_job)
              (update-IsHeld i _ _ (λ j. refl)
                (λ j _ p _ holds.
                  absurd (true≢false (sym holds ∙ ap holds_lease (pending_of j.state p))))
                db.jobs h)
      ]

  run-IsHeld : (i o : ℕ) (db : Db) → IsHeld k v db.jobs → IsHeld k v (mark_running i o db).jobs
  unfolding mark_running
  run-IsHeld i o db h = elim (Option-cases (updated_row i (may_run o) set_running db.jobs)) [
    | inl e ↦ rw (e, mark_running) h
    | inr (row, e) ↦
        rw (e, mark_running)
          (update-IsHeld i _ _ (λ j. refl) (λ j _ _ owner _. (owner, refl)) db.jobs h)
  ]

  release_with-IsHeld :
      (i o : ℕ) (error : Option Text) (f : Job → Job) (db : Db)
      → KeepsId f
      → (i == k && v == o) ≡ false
      → IsHeld k v db.jobs
      → IsHeld k v (release_with i o error f db).0.jobs
  release_with-IsHeld i o error f db keep other h =
      elim (Option-cases (updated_row i (λ j. owned_by o j.lease_owner) f db.jobs)) [
        | inl e ↦ rw (e, release_with) h
        | inr (row, e) ↦
            rw (e, release_with)
              (update-IsHeld i _ f keep
                (λ j same owned owner _. absurd (ground (arith, same, owner, owned, other))) db.jobs
                h)
      ]

  release-IsHeld :
      (now i o : ℕ) (s : NewState) (error : Option Text) (db db' : Db) (done : Bool)
      → release_job now i o s error db ≡ some (db', done)
      → (i == k && v == o) ≡ false
      → IsHeld k v db.jobs
      → IsHeld k v db'.jobs
  unfolding release_job
  release-IsHeld now i o s error db db' done e other h =
      elim (Option-cases (set_released now s error)) [
        | inl n ↦ absurd (cc (rw (n, release_job) at e))
        | inr (f, n) ↦
            let back : release_with i o error f db ≡ (db', done) =
              some-injective _ _ (rw (n, release_job) at e) in
            subst (λ (r : Db × Bool). IsHeld k v r.0.jobs) back
              (release_with-IsHeld i o error f db (set_released-Releases now s error f n).keeps_id
                other h)
      ]

  insert-IsHeld :
      (j : Job) (js : List Job) → IsFresh j.job_id js → IsHeld k v js → IsHeld k v (j ∷ js)
  insert-IsHeld j js fresh (x, found, owner, holds) = elim (Bool-cases (j.job_id == k)) [
    | inl e ↦
        let same : j.job_id ≡ k = (==_iff _ _).0 e in
        absurd (cc (sym (find-IsFresh k js (rw same at fresh)) ∙ found))
    | inr e ↦ (x, rw e found, owner, holds)
  ]

  step-IsHeld :
      {w u : World} (s : Step w u)
      → ends_lease k v s ≡ false
      → IsHeld k v w.db.jobs
      → IsHeld k v u.db.jobs
  step-IsHeld {w} (inserts j n fresh apart) other h = insert-IsHeld j w.db.jobs fresh h
  step-IsHeld {w} (claims now i o) other h = claim-IsHeld now i o w.db h
  step-IsHeld {w} (renews now i o) other h =
      unfold renew_lease in
      update-IsHeld i _ _ (λ j. refl) (λ j _ _ owner holds. (owner, holds)) w.db.jobs h
  step-IsHeld {w} (runs i o) other h = run-IsHeld i o w.db h
  step-IsHeld {w} (releases now i o s error db' done e) other h =
      release-IsHeld now i o s error w.db db' done e other h
  step-IsHeld {w} (selects now e) other h = h
  step-IsHeld {w} (reclaims row rows e) other h =
      unfold reclaim_row in
      update-IsHeld row.job_id _ _ (λ j. refl)
        (λ j same _ _ _. absurd (ground (arith, same, other))) w.db.jobs h

  run_lem :
      {w u : World}
      → LeaseRun k v w u
      → Reach w
      → IsHeld k v w.db.jobs
      → Reach u × IsHeld k v u.db.jobs
  run_lem stays r h = (r, h)
  run_lem (goes run s other) r h =
      let (r', h') = run_lem run r h in (steps r' s, step-IsHeld s other h')

  claimed-IsHeld :
      (now : ℕ) (db : Db) (c : ClaimResult)
      → IsUnique db.jobs
      → (claim_job now k v db).1 ≡ some c
      → IsHeld k v (claim_job now k v db).0.jobs
  claimed-IsHeld now db c u e = elim (Option-cases (find_job k db.jobs)) [
    | inl missing ↦ absurd (
        cc (
          sym (ap (λ (r : Db × Option ClaimResult). r.1) (claim_missing now k v db u missing)) ∙ e))
    | inr (j, found) ↦ elim (Bool-cases (is_pending j.state)) [
      | inl p ↦ (
        set_claimed now v j,
        (claim_pending now k v db j u found (pending_of j.state p)).1,
        refl,
        refl,
      )
      | inr p ↦ absurd (
          cc (
            sym (ap (λ (r : Db × Option ClaimResult). r.1) (claim_refused now k v db u j found p))
            ∙ e))
    ]
  ]

  held_refused :
      (later o : ℕ) (db : Db)
      → IsUnique db.jobs
      → IsHeld k v db.jobs
      → claim_job later k o db ≡ (db, none)
  held_refused later o db u (j, found, owner, holds) =
      claim_refused later k o db u j found (ground (arith, holds))

  -- After a worker's successful claim of a job, in a table that the processes reach, and after any
  -- further steps among which the worker does not release the job and the reclaimer does not reset it,
  -- the job is still leased or running with that worker as its owner, and no claim of it, by whichever
  -- worker and at whatever time, succeeds or changes anything.
  pub claim_exclusive :
      (now later o : ℕ) (w u : World) (c : ClaimResult)
      → Reach w
      → (claim_job now k v w.db).1 ≡ some c
      → LeaseRun k v (record w { db = (claim_job now k v w.db).0 }) u
      → IsHeld k v u.db.jobs × (claim_job later k o u.db ≡ (u.db, none))
  claim_exclusive now later o w u c r e run =
      let (reached, held) =
        run_lem run (steps r (claims now k v))
          (claimed-IsHeld now w.db c (Reach-IsValid r).unique e) in
      (held, held_refused later o u.db (Reach-IsValid reached).unique held)
