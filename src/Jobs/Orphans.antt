-- ===== src/Jobs/Orphans.antt =====
-- Which rows the reclaimer never takes up.
use panoptic.Common.{
  ℕ, ◌≡◌, ◌≢◌, sym, ◌∙◌, ap, Bool, true, Option, some, some-injective, List, arith, All-map₂,
}
use panoptic.Jobs.Model.{pending, Job, Db, find_job}
use panoptic.Jobs.Table.{IsFresh}
use panoptic.Jobs.Reclaim.{is_stale, select_expired, reclaim_expired_leases, DlqEntry}
use panoptic.Jobs.Invariant.{IsValid}
use panoptic.Jobs.System.Snapshot.{select_expired-stale}
use panoptic.Jobs.Sweep.{select_expired-find, reclaim_sweeps}

stale_not_pending : (now : ℕ) (r : Job) → is_stale now r ≡ true → r.state ≢ pending
stale_not_pending now r s = ground arith

pub pending-IsFresh :
    (now k : ℕ) (db : Db) (j : Job)
    → IsValid db
    → find_job k db.jobs ≡ some j
    → j.state ≡ pending
    → IsFresh k (select_expired now db)
pending-IsFresh now k db j v found p =
    All-map₂ _ _ _ (λ r s e. apart r s e) (select_expired now db) (select_expired-stale now db)
      (select_expired-find now db v)
  where
    apart : (r : Job) → is_stale now r ≡ true → find_job r.job_id db.jobs ≡ some r → r.job_id ≢ k
    apart r s own same = stale_not_pending now r s (
        ap (λ (x : Job). x.state)
          (some-injective _ _ (sym own ∙ ap (λ (i : ℕ). find_job i db.jobs) same ∙ found))
        ∙ p)

-- The reclaimer never takes up a pending job: no tick selects it, so none hands it on for
-- re-enqueueing, and the tick leaves it as it was. A job whose message was never enqueued stays so.
pub pending_never_reclaimed :
    (now k : ℕ) (up : Job → Bool) (acks : List (Option ℕ)) (db : Db) (dlq : List DlqEntry) (j : Job)
    → IsValid db
    → find_job k db.jobs ≡ some j
    → j.state ≡ pending
    → IsFresh k (select_expired now db)
      × (find_job k (reclaim_expired_leases now up acks db dlq).db.jobs ≡ some j)
pending_never_reclaimed now k up acks db dlq j v found p =
    let fresh = pending-IsFresh now k db j v found p in
    (fresh, (reclaim_sweeps now up acks db dlq v).1 k fresh ∙ found)
