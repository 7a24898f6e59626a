-- ===== src/Jobs/Sweep.antt =====
-- One tick of the reclaimer with nobody in between: what becomes of the table, of the dead-letter
-- streams and of the statistics.
use panoptic.Common.{
  ℕ, ◌≡◌, ◌≢◌, refl, sym, ◌∙◌, Bool, true, Option, some, List, [], ◌∷◌, All, All-map₂, All-take,
  All-select, Bool-cases, inl, inr, ◌==◌, ==_iff, ==_refl,
}
use panoptic.Jobs.Model.{Job, Db, find_job}
use panoptic.Jobs.Table.{IsFresh, IsUnique, find-update_self, find-update_ne}
use panoptic.Jobs.Reclaim.{
  reclaim_limit, is_stale, is_exhausted, set_reclaimed, reclaimed_state, reclaim_row, reclaim_one,
  reclaim_rows, select_expired, Tick, DlqEntry, reclaim_expired_leases,
}
use panoptic.Jobs.Invariant.{IsValid}
use panoptic.Jobs.System.Snapshot.{All-order, select_expired-IsUnique, select_expired-stale}

one-find_self :
    (up : Job → Bool) (row j : Job) (t : Tick)
    → find_job row.job_id t.db.jobs ≡ some j
    → find_job row.job_id (reclaim_one up row t).db.jobs
      ≡ some (set_reclaimed (reclaimed_state row) j)
unfolding reclaim_one reclaim_row
one-find_self up row j t e = elim (Bool-cases (is_exhausted row)) [
  | inl x ↦ rw x (find-update_self _ _ (λ _. refl) row.job_id t.db.jobs ∙ rw e)
  | inr x ↦ rw x (find-update_self _ _ (λ _. refl) row.job_id t.db.jobs ∙ rw e)
]

one-find_ne :
    (up : Job → Bool) (row : Job) (t : Tick) (k : ℕ)
    → row.job_id ≢ k
    → find_job k (reclaim_one up row t).db.jobs ≡ find_job k t.db.jobs
unfolding reclaim_one reclaim_row
one-find_ne up row t k ne = elim (Bool-cases (is_exhausted row)) [
  | inl x ↦ rw x (find-update_ne _ _ (λ _. refl) row.job_id k t.db.jobs (λ e. ne (sym e)))
  | inr x ↦ rw x (find-update_ne _ _ (λ _. refl) row.job_id k t.db.jobs (λ e. ne (sym e)))
]

pub rows-find_ne :
    (up : Job → Bool) (rows : List Job) (t : Tick) (k : ℕ)
    → IsFresh k rows
    → find_job k (reclaim_rows up rows t).db.jobs ≡ find_job k t.db.jobs
unfolding reclaim_rows
rows-find_ne up [] t k f = refl
rows-find_ne up (row ∷ rows) t k f =
    rows-find_ne up rows (reclaim_one up row t) k f.1 ∙ one-find_ne up row t k f.0

pub rows-find_self :
    (up : Job → Bool) (rows : List Job) (t : Tick)
    → IsUnique rows
    → All (λ r. find_job r.job_id t.db.jobs ≡ some r) rows
    → All
        (λ r.
          find_job r.job_id (reclaim_rows up rows t).db.jobs
          ≡ some (set_reclaimed (reclaimed_state r) r))
        rows
unfolding reclaim_rows
rows-find_self up [] t u h = tt
rows-find_self up (row ∷ rows) t u h = (
  rows-find_ne up rows (reclaim_one up row t) row.job_id u.0 ∙ one-find_self up row row t h.0,
  rows-find_self up rows (reclaim_one up row t) u.1
      (All-map₂ _ _ _ (λ r ne e. one-find_ne up row t r.job_id (λ q. ne (sym q)) ∙ e) rows u.0 h.1),
)

-- In a table with distinct ids a row is found by its id.
find_own : (js : List Job) → IsUnique js → All (λ r. find_job r.job_id js ≡ some r) js
find_own [] u = tt
find_own (x ∷ xs) u =
    (rw (==_refl x.job_id), All-map₂ _ _ _ (λ r ne e. find_tail r ne e) xs u.0 (find_own xs u.1))
  where
    find_tail :
        (r : Job)
        → r.job_id ≢ x.job_id
        → find_job r.job_id xs ≡ some r
        → find_job r.job_id (x ∷ xs) ≡ some r
    find_tail r ne e = elim (Bool-cases (x.job_id == r.job_id)) [
      | inl same ↦ absurd (ne (sym ((==_iff _ _).0 same)))
      | inr other ↦ rw other e
    ]

pub select_expired-find :
    (now : ℕ) (db : Db)
    → IsValid db
    → All (λ r. find_job r.job_id db.jobs ≡ some r) (select_expired now db)
unfolding select_expired
select_expired-find now db v =
    All-take _ reclaim_limit _
      (All-order _ _ (All-select _ (is_stale now) db.jobs (find_own db.jobs v.unique)))

-- In a tick that nothing interrupts every selected row is stale, and is found failed_terminal if
-- its attempts are used up and pending if not, with no owner and no expiry and otherwise as it was;
-- every job that was not selected is found as it was.
pub reclaim_sweeps :
    (now : ℕ) (up : Job → Bool) (acks : List (Option ℕ)) (db : Db) (dlq : List DlqEntry)
    → IsValid db
    → let t = reclaim_expired_leases now up acks db dlq in
      All
        (λ r.
          (is_stale now r ≡ true)
          × (find_job r.job_id t.db.jobs ≡ some (set_reclaimed (reclaimed_state r) r)))
        (select_expired now db)
      × ((k : ℕ) → IsFresh k (select_expired now db) → find_job k t.db.jobs ≡ find_job k db.jobs)
unfolding reclaim_expired_leases
reclaim_sweeps now up acks db dlq v = (
  All-map₂ _ _ _ (λ r s e. (s, e)) (select_expired now db) (select_expired-stale now db)
      (rows-find_self up (select_expired now db) _ (select_expired-IsUnique now db v)
        (select_expired-find now db v)),
  λ k f. rows-find_ne up (select_expired now db) _ k f,
)
