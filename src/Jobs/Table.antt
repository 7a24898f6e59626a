-- ===== src/Jobs/Table.antt =====
-- Laws of the guarded UPDATE on the job table: what it returns, what it leaves alone, and what it
-- preserves.
use panoptic.Common.{
  subst, some-injective, ℕ, ◌≡◌, ◌≢◌, refl, Bool, true, Option, none, some, List, [], ◌∷◌, arith,
  ◌==◌, if◌then◌else◌, ==_iff, All, inl, inr, Bool-cases,
}
use panoptic.Jobs.Model.{Job, update_job, updated_row, find_job}

-- No two rows have one id.
abbrev pub IsFresh : ℕ → List Job → Type 0
IsFresh k = All (λ j. j.job_id ≢ k)

abbrev pub IsUnique : List Job → Type 0
IsUnique [] = Unit
IsUnique (j ∷ js) = IsFresh j.job_id js × IsUnique js

abbrev pub KeepsId : (Job → Job) → Type 0
KeepsId f = (j : Job) → (f j).job_id ≡ j.job_id

-- What the guarded update does to the row that has the id.
abbrev pub guarded : (Job → Bool) → (Job → Job) → Option Job → Option Job
guarded q f none = none
guarded q f (some j) = some (if q j then f j else j)

abbrev pub returned : (Job → Bool) → (Job → Job) → Option Job → Option Job
returned q f none = none
returned q f (some j) = if q j then some (f j) else none

module _ (q : Job → Bool) (f : Job → Job) (keep : KeepsId f) where
  pub find-update_self :
      (k : ℕ) (js : List Job) → find_job k (update_job k q f js) ≡ guarded q f (find_job k js)
  find-update_self k [] = refl
  find-update_self k (j ∷ js) = ground (arith, keep j, find-update_self k js)

  pub find-update_ne :
      (k i : ℕ) (js : List Job) → i ≢ k → find_job i (update_job k q f js) ≡ find_job i js
  find-update_ne k i [] h = refl
  find-update_ne k i (j ∷ js) h = ground (arith, keep j, find-update_ne k i js h)

  pub update-IsFresh : (k i : ℕ) (js : List Job) → IsFresh i js → IsFresh i (update_job k q f js)
  update-IsFresh k i [] h = tt
  update-IsFresh k i (j ∷ js) h = ground (arith, keep j, update-IsFresh k i js h.1)

  pub update-IsUnique : (k : ℕ) (js : List Job) → IsUnique js → IsUnique (update_job k q f js)
  update-IsUnique k [] h = tt
  update-IsUnique k (j ∷ js) h =
      ground (arith, keep j, update-IsFresh k j.job_id js h.0, update-IsUnique k js h.1)

pub find-IsFresh : (k : ℕ) (js : List Job) → IsFresh k js → find_job k js ≡ none
find-IsFresh k [] h = refl
find-IsFresh k (j ∷ js) h = ground (arith, find-IsFresh k js h.1)

pub find-job_id : (k : ℕ) (js : List Job) {j : Job} → find_job k js ≡ some j → j.job_id ≡ k
find-job_id k [] e = cc
find-job_id k (x ∷ js) {j} e = ground (arith, find-job_id k js {j = j})

module _ (q : Job → Bool) (f : Job → Job) where
  updated-IsFresh : (k : ℕ) (js : List Job) → IsFresh k js → updated_row k q f js ≡ none
  updated-IsFresh k [] h = refl
  updated-IsFresh k (j ∷ js) h = ground (arith, updated-IsFresh k js h.1)

  -- The row that RETURNING gives is the one with the id, updated, if it passes the guard.
  pub updated-find :
      (k : ℕ) (js : List Job) → IsUnique js → updated_row k q f js ≡ returned q f (find_job k js)
  updated-find k [] h = refl
  updated-find k (j ∷ js) h = elim (Bool-cases (j.job_id == k)) [
    | inl e ↦
        let same : j.job_id ≡ k = (==_iff j.job_id k).0 e in
        elim (Bool-cases (q j)) [
          | inl p ↦ rw (e, p)
          | inr p ↦ rw (e, p) (updated-IsFresh k js (rw same at h.0))
        ]
    | inr e ↦ rw e (updated-find k js h.1)
  ]

  -- A row that is updated passes from P to Q by `step`, and any other by `skip`.
  pub All-update_to {κ κ'} :
      (P : Job → Type κ) (Q : Job → Type κ') (k : ℕ)
      → ((j : Job) → P j → Q j)
      → ((j : Job) → j.job_id ≡ k → q j ≡ true → P j → Q (f j))
      → (js : List Job) → All P js
      → All Q (update_job k q f js)
  All-update_to P Q k skip step [] h = tt
  All-update_to P Q k skip step (j ∷ js) h = elim (Bool-cases (j.job_id == k)) [
    | inl e ↦ elim (Bool-cases (q j)) [
      | inl p ↦ rw (e, p) (step j ((==_iff _ _).0 e) p h.0, All-update_to P Q k skip step js h.1)
      | inr p ↦ rw (e, p) (skip j h.0, All-update_to P Q k skip step js h.1)
    ]
    | inr e ↦ rw e (skip j h.0, All-update_to P Q k skip step js h.1)
  ]

  pub All-update {κ} :
      (P : Job → Type κ) (k : ℕ)
      → ((j : Job) → j.job_id ≡ k → q j ≡ true → P j → P (f j))
      → (js : List Job) → All P js
      → All P (update_job k q f js)
  All-update P k step js = All-update_to P P k (λ j h. h) step js

pub All-find {κ} :
    (P : Job → Type κ) (k : ℕ) (js : List Job) {j : Job} → All P js → find_job k js ≡ some j → P j
All-find P k [] h e = cc
All-find P k (x ∷ js) {j} h e = elim (Bool-cases (x.job_id == k)) [
  | inl t ↦ subst P (some-injective _ _ (rw t at e)) h.0
  | inr t ↦ All-find P k js h.1 (rw t at e)
]
