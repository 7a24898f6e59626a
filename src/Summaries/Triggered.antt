-- ===== src/Summaries/Triggered.antt =====
-- When a rollup job is created, and what it carries.
use panoptic.Common.{
  ℕ, ◌≤◌, ◌≡◌, refl, sym, ap, ◌∙◌, Bool, true, false, ◌&&◌, Option, none, some, some-injective,
  List, [], ◌∷◌, ◌++◌, if◌then◌else◌, ◌==◌, any, map, select, All, All-map, is_some, leb, leb→le,
  Bool-cases, inl, inr, arith,
}
use mathlib.Core.Option.{none-ne-some}
use panoptic.Float.{Float}
use panoptic.Jobs.System.Steps.{IsNew}
use panoptic.Ingest.Created.{pending_job-IsNew}
use panoptic.Ingest.Tables.{pending_job}
use panoptic.Jobs.Model.{rollup_summary}
use panoptic.Summaries.{SummaryRecord}
use panoptic.Summaries.Rollup.{
  SummaryJob, has_job, insert_summary_job, insert_id, sort_ids, RollupTarget, RollupState,
  find_state, is_child, child_ids, parent_eq, parent_key, ParentKey, put_state, put_row,
  count_child, new_state, SummaryStore, rollup_job, insert_rollup_job,
  upsert_rollup_state_and_maybe_enqueue,
}

-- Each id is at most the ones behind it.
abbrev pub IsSorted : List ℕ → Type 0
IsSorted [] = Unit
IsSorted (i ∷ is) = All (λ j. i ≤ j) is × IsSorted is

abbrev pub has_id : ℕ → List ℕ → Bool
has_id k ids = any (λ i. i == k) ids

and_false : (b : Bool) → (b && false) ≡ false
and_false true = refl
and_false false = refl

insert_id-All : (P : ℕ → Type 0) (i : ℕ) (ids : List ℕ) → P i → All P ids → All P (insert_id i ids)
insert_id-All P i [] p h = (p, tt)
insert_id-All P i (j ∷ js) p h = elim (Bool-cases (leb i j)) [
  | inl e ↦ rw e (p, h)
  | inr e ↦ rw e (h.0, insert_id-All P i js p h.1)
]

insert_id-IsSorted : (i : ℕ) (ids : List ℕ) → IsSorted ids → IsSorted (insert_id i ids)
insert_id-IsSorted i [] h = (tt, tt)
insert_id-IsSorted i (j ∷ js) h = elim (Bool-cases (leb i j)) [
  | inl e ↦
      let low = leb→le i j e in
      rw e ((low, All-map (λ k. j ≤ k) (λ k. i ≤ k) (λ k g. omega arith) js h.0), h)
  | inr e ↦ rw e (insert_id-All (λ k. j ≤ k) i js (ground arith) h.0, insert_id-IsSorted i js h.1)
]

sort_ids-IsSorted : (ids : List ℕ) → IsSorted (sort_ids ids)
unfolding sort_ids
sort_ids-IsSorted [] = tt
sort_ids-IsSorted (i ∷ is) = insert_id-IsSorted i (sort_ids is) (sort_ids-IsSorted is)

pub has_id-insert_id :
    (k i : ℕ) (ids : List ℕ) → has_id k (insert_id i ids) ≡ (if i == k then true else has_id k ids)
has_id-insert_id k i [] = refl
has_id-insert_id k i (j ∷ js) = ground (arith, has_id-insert_id k i js)

pub has_id-sort_ids : (k : ℕ) (ids : List ℕ) → has_id k (sort_ids ids) ≡ has_id k ids
unfolding sort_ids
has_id-sort_ids k [] = refl
has_id-sort_ids k (i ∷ is) =
    ground (arith, has_id-insert_id k i (sort_ids is), has_id-sort_ids k is)

-- The table after an INSERT that returned this id.
abbrev pub Inserts : List SummaryJob → SummaryJob → Option ℕ → List SummaryJob → Type 0
Inserts jobs j none after = after ≡ jobs
Inserts jobs j (some id) after =
    (after ≡ jobs ++ j ∷ []) × (j.job.job_id ≡ id) × (has_job j.job_key jobs ≡ false)

pub insert_summary_job-Inserts :
    (j : SummaryJob) (jobs : List SummaryJob)
    → Inserts jobs j (insert_summary_job j jobs).1 (insert_summary_job j jobs).0
unfolding insert_summary_job
insert_summary_job-Inserts j jobs = elim (Bool-cases (has_job j.job_key jobs)) [
  | inl e ↦ rw e refl
  | inr e ↦ rw e (refl, refl, e)
]

module _ (F : Float) where
  has_id-select :
      (k : ℕ) (t : RollupTarget) (rows : List (SummaryRecord F))
      → has_id k (map (λ r. r.summary_id) (select (is_child F t) rows))
        ≡ any (λ r. is_child F t r && r.summary_id == k) rows
  has_id-select k t [] = refl
  has_id-select k t (r ∷ rows) = ground (arith, has_id-select k t rows)

  -- The job's children are sorted and are the ids of the camera's latest summaries of that hour.
  abbrev pub IsOfChildren : RollupTarget → List (SummaryRecord F) → List ℕ → Type 0
  IsOfChildren t rows ids =
      IsSorted ids × ((k : ℕ) → has_id k ids ≡ any (λ r. is_child F t r && r.summary_id == k) rows)

  child_ids-IsOfChildren :
      (t : RollupTarget) (rows : List (SummaryRecord F)) → IsOfChildren t rows (child_ids F t rows)
  unfolding child_ids
  child_ids-IsOfChildren t rows = (
    sort_ids-IsSorted (map (λ r. r.summary_id) (select (is_child F t) rows)),
    λ k.
        has_id-sort_ids k (map (λ r. r.summary_id) (select (is_child F t) rows))
        ∙ has_id-select k t rows,
  )

  module _ (digest : List ℕ → ℕ) (job_id : ℕ) (t : RollupTarget) where
    -- What the call leaves in the table of jobs: the rows that were there, and behind them the job of the
    -- id that it returns.
    abbrev pub Triggers :
        List (SummaryRecord F) → List SummaryJob → Option ℕ → List SummaryJob → Type 0
    Triggers rows jobs none after = after ≡ jobs
    Triggers rows jobs (some id) after =
        (i : ℕ) × (ids : List ℕ) × (after ≡ jobs ++ rollup_job F digest job_id t (i ∷ ids) ∷ [])
        × (id ≡ job_id)
        × (has_job (rollup_job F digest job_id t (i ∷ ids)).job_key jobs ≡ false)
        × IsNew (rollup_job F digest job_id t (i ∷ ids)).job
        × IsOfChildren t rows (i ∷ ids)

    inserted-Triggers :
        (rows : List (SummaryRecord F)) (jobs after : List SummaryJob) (i : ℕ) (ids : List ℕ)
        (o : Option ℕ)
        → IsOfChildren t rows (i ∷ ids)
        → Inserts jobs (rollup_job F digest job_id t (i ∷ ids)) o after
        → Triggers rows jobs o after
    inserted-Triggers rows jobs after i ids none c h = h
    inserted-Triggers rows jobs after i ids (some id) c (h, own, new) = (
      i,
      ids,
      h,
      sym own ∙ (unfold rollup_job in (unfold pending_job in refl)),
      new,
      (unfold rollup_job in
          pending_job-IsNew job_id rollup_summary t.serial_number 3 (omega arith)),
      c,
    )

    insert_rollup_job-Triggers :
        (rows : List (SummaryRecord F)) (ids : List ℕ) (jobs : List SummaryJob)
        → IsOfChildren t rows ids
        → Triggers rows jobs
            (insert_rollup_job F digest job_id t ids jobs).1
            (insert_rollup_job F digest job_id t ids jobs).0
    unfolding insert_rollup_job
    insert_rollup_job-Triggers rows [] jobs c = refl
    insert_rollup_job-Triggers rows (i ∷ ids) jobs c =
        inserted-Triggers rows jobs _ i ids _ c
          (insert_summary_job-Inserts (rollup_job F digest job_id t (i ∷ ids)) jobs)

  parent_eq_refl : (k : ParentKey) → parent_eq k k ≡ true
  unfolding parent_eq
  parent_eq_refl k = ground arith

  find_state-last :
      (k : ParentKey) (states : List (RollupState F)) (s : RollupState F)
      → find_state F k states ≡ none
      → parent_eq s.parent_key k ≡ true
      → find_state F k (states ++ s ∷ []) ≡ some s
  unfolding find_state
  find_state-last k [] s h e = rw e refl
  find_state-last k (x ∷ states) s h e = elim (Bool-cases (parent_eq x.parent_key k)) [
    | inl it ↦ absurd (none-ne-some x (sym (rw it at h)))
    | inr other ↦ rw other (find_state-last k states s (rw other at h) e)
  ]

  find_state-count :
      (k : ParentKey) (states : List (RollupState F)) (s : RollupState F)
      → find_state F k states ≡ some s
      → find_state F k (map (λ x. if parent_eq x.parent_key k then count_child F x else x) states)
        ≡ some (count_child F s)
  unfolding find_state count_child
  find_state-count k [] s h = cc
  find_state-count k (x ∷ states) s h = elim (Bool-cases (parent_eq x.parent_key k)) [
    | inl it ↦ rw (it, it) (ap (λ y. some (count_child F y)) (some-injective _ _ (rw it at h)))
    | inr other ↦ rw (other, other) (find_state-count k states s (rw other at h))
  ]

  find_state-put :
      (t : RollupTarget) (states : List (RollupState F)) (o : Option (RollupState F))
      → find_state F (parent_key t) states ≡ o
      → find_state F (parent_key t) (put_state F t o states) ≡ some (put_row F t o)
  unfolding put_state put_row
  find_state-put t states none h =
      find_state-last (parent_key t) states (new_state F t) h
        (unfold new_state in parent_eq_refl (parent_key t))
  find_state-put t states (some s) h = find_state-count (parent_key t) states s h

  module _ (digest : List ℕ → ℕ) (job_id : ℕ) (t : RollupTarget) (st : SummaryStore F) where
    -- upsert_rollup_state_and_maybe_enqueue changes no summary. The hour's row counts one child more, or
    -- one if it is new. Where it returns no id, no job is added, and so it is where the ratio of that
    -- row is below 0.5; where it returns one, one job is added, which may enter the queue, under a key
    -- that the table did not hold, and whose children, at least one, are sorted and are exactly the
    -- trailer's latest camera summaries that start within the hour and have the camera id for a scope id.
    pub rollup-Triggers :
        let o = upsert_rollup_state_and_maybe_enqueue F digest job_id t st in
        let row = put_row F t (find_state F (parent_key t) st.states) in
        (o.0.summaries ≡ st.summaries)
        × (find_state F (parent_key t) o.0.states ≡ some row)
        × ((is_some o.1 && F.lt row.coverage_ratio (F.literal 5 1)) ≡ false)
        × Triggers digest job_id t st.summaries st.jobs o.1 o.0.jobs
    unfolding upsert_rollup_state_and_maybe_enqueue
    rollup-Triggers =
        let row = put_row F t (find_state F (parent_key t) st.states) in
        elim (Bool-cases (F.lt row.coverage_ratio (F.literal 5 1))) [
          | inl e ↦ rw e (
            refl,
            find_state-put t st.states (find_state F (parent_key t) st.states) refl,
            refl,
            refl,
          )
          | inr e ↦ rw e (
            refl,
            find_state-put t st.states (find_state F (parent_key t) st.states) refl,
            and_false _,
            insert_rollup_job-Triggers digest job_id t st.summaries (child_ids F t st.summaries)
                st.jobs (child_ids-IsOfChildren t st.summaries),
          )
        ]
