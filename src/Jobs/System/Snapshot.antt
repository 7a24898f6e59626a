-- ===== src/Jobs/System/Snapshot.antt =====
-- What the reclaimer's SELECT gives: distinct rows, each of them a row of the table as it stands.
use panoptic.Common.{
  ℕ, zero, suc, ◌<◌, ◌≡◌, ◌≢◌, refl, sym, subst, Bool, true, false, List, [], ◌∷◌, arith, inl, inr,
  All, All-map, All-map₂, All-take, All-select, select-All, select, take, Bool-cases,
}
use panoptic.Jobs.Model.{Job, Db, is_pending}
use panoptic.Jobs.Table.{IsFresh, IsUnique}
use panoptic.Jobs.Reclaim.{
  reclaim_limit, is_stale, is_exhausted, expires_before, insert_by_expiry, order_by_expiry,
  select_expired,
}
use panoptic.Jobs.Invariant.{IsValid}

-- Every row of the table that has the selected row's id still has an attempt left and is not
-- pending, if the selected row had an attempt left.
abbrev pub HasRoom : Job → Job → Type 0
HasRoom row j =
    is_exhausted row ≡ false
    → j.job_id ≡ row.job_id
    → (j.attempt_count < j.max_attempts) × (is_pending j.state ≡ false)

abbrev pub CanReset : List Job → Job → Type 0
CanReset jobs row = All (HasRoom row) jobs

All-insert {κ} :
    (P : Job → Type κ) (j : Job) (js : List Job) → P j → All P js → All P (insert_by_expiry j js)
unfolding insert_by_expiry
All-insert P j [] p h = (p, tt)
All-insert P j (x ∷ xs) p h = elim (Bool-cases (expires_before j x)) [
  | inl e ↦ rw e (p, h)
  | inr e ↦ rw e (h.0, All-insert P j xs p h.1)
]

pub All-order {κ} : (P : Job → Type κ) (js : List Job) → All P js → All P (order_by_expiry js)
unfolding order_by_expiry
All-order P [] h = tt
All-order P (j ∷ js) h = All-insert P j (order_by_expiry js) h.0 (All-order P js h.1)

insert-IsUnique :
    (j : Job) (js : List Job) → IsFresh j.job_id js → IsUnique js → IsUnique (insert_by_expiry j js)
unfolding insert_by_expiry
insert-IsUnique j [] f u = (tt, tt)
insert-IsUnique j (x ∷ xs) f u = elim (Bool-cases (expires_before j x)) [
  | inl e ↦ rw e (f, u)
  | inr e ↦ rw e (
    All-insert (λ y. y.job_id ≢ x.job_id) j xs (λ q. f.0 (sym q)) u.0,
    insert-IsUnique j xs f.1 u.1,
  )
]

order-IsUnique : (js : List Job) → IsUnique js → IsUnique (order_by_expiry js)
unfolding order_by_expiry
order-IsUnique [] u = tt
order-IsUnique (j ∷ js) u =
    insert-IsUnique j (order_by_expiry js) (All-order _ js u.0) (order-IsUnique js u.1)

select-IsUnique : (p : Job → Bool) (js : List Job) → IsUnique js → IsUnique (select p js)
select-IsUnique p [] u = tt
select-IsUnique p (j ∷ js) u = elim (Bool-cases (p j)) [
  | inl e ↦ rw e (All-select _ p js u.0, select-IsUnique p js u.1)
  | inr e ↦ rw e (select-IsUnique p js u.1)
]

take-IsUnique : (n : ℕ) (js : List Job) → IsUnique js → IsUnique (take n js)
take-IsUnique zero js u = tt
take-IsUnique (suc n) [] u = tt
take-IsUnique (suc n) (j ∷ js) u = (All-take _ n js u.0, take-IsUnique n js u.1)

pub select_expired-IsUnique : (now : ℕ) (db : Db) → IsValid db → IsUnique (select_expired now db)
unfolding select_expired
select_expired-IsUnique now db v =
    take-IsUnique reclaim_limit _
      (order-IsUnique _ (select-IsUnique (is_stale now) db.jobs v.unique))

-- Rows of one table with one id are one row.
same_row : (js : List Job) → IsUnique js → All (λ r. All (λ j. j.job_id ≡ r.job_id → j ≡ r) js) js
same_row [] u = tt
same_row (x ∷ xs) u = (
  (λ _. refl, All-map _ _ (λ j f e. absurd (f e)) xs u.0),
  All-map₂ _ _ _ (λ r f h. (λ e. absurd (f (sym e)), h)) xs u.0 (same_row xs u.1),
)

stale-HasRoom :
    (now : ℕ) (row j : Job)
    → is_stale now row ≡ true
    → (j.job_id ≡ row.job_id → j ≡ row)
    → HasRoom row j
stale-HasRoom now row j s same left e =
    subst (λ (x : Job). (x.attempt_count < x.max_attempts) × (is_pending x.state ≡ false))
      (sym (same e)) (room row s left)
  where
    room :
        (r : Job)
        → is_stale now r ≡ true
        → is_exhausted r ≡ false
        → (r.attempt_count < r.max_attempts) × (is_pending r.state ≡ false)
    room r s left = ground arith

pub select_expired-CanReset :
    (now : ℕ) (db : Db) → IsValid db → All (CanReset db.jobs) (select_expired now db)
unfolding select_expired
select_expired-CanReset now db v = All-take _ reclaim_limit _ (
    All-order _ _ (
      All-map₂ _ _ _ (λ row s h. All-map _ _ (λ j. stale-HasRoom now row j s) db.jobs h)
        (select (is_stale now) db.jobs) (select-All (is_stale now) db.jobs)
        (All-select _ (is_stale now) db.jobs (same_row db.jobs v.unique))))

pub select_expired-stale :
    (now : ℕ) (db : Db) → All (λ r. is_stale now r ≡ true) (select_expired now db)
unfolding select_expired
select_expired-stale now db =
    All-take _ reclaim_limit _ (All-order _ _ (select-All (is_stale now) db.jobs))
