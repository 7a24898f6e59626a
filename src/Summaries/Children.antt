-- ===== src/Summaries/Children.antt =====
-- The children of an hour, in whatever order the job lists them.
use mathlib.Core.Path.{fun_ext, ap₂}
use mathlib.Core.HLevel.{hedberg}
use mathlib.Core.Logic.{∥∥₁_elim}
use mathlib.Core.List.{Perm, Permᴰ}
use native.Mathlib.Decide.{ℕ_discrete}
use panoptic.Common.{
  ℕ, ◌+◌, ◌≡◌, refl, sym, ap, ◌∙◌, ◌&&◌, Option, none, some, List, [], ◌∷◌, if◌then◌else◌, length,
  select, arith,
}
use panoptic.Float.{Float}
use panoptic.Summaries.{SummaryRecord}
use panoptic.Summaries.Rollup.{insert_id, sort_ids, RollupPayload, SummaryStore}
use panoptic.Summaries.Triggered.{has_id, has_id-sort_ids}
use panoptic.Summaries.Llm.{LlmSummaryOutput, call_and_validate}
use panoptic.Summaries.Execute.{retry_wait}
use panoptic.Summaries.Hourly.{
  RollupAgent, not_run, rollup_window, order_by_start, store_rollup, is_listed, fetch_children,
  rollup_summary_id, rollup_record, rolled_up, waits, roll_up_found, run_rollup_ids, run_rollup_job,
}

insert_id_comm :
    (a b : ℕ) (ids : List ℕ) → insert_id a (insert_id b ids) ≡ insert_id b (insert_id a ids)
insert_id_comm a b [] = ground arith
insert_id_comm a b (i ∷ ids) = ground (arith, insert_id_comm a b ids)

sort_ids-permᴰ : {xs ys : List ℕ} → Permᴰ xs ys → sort_ids xs ≡ sort_ids ys
unfolding sort_ids
sort_ids-permᴰ Permᴰ.nil = refl
sort_ids-permᴰ (Permᴰ.cons {a = a} {l₂ = l₂} e p) =
    ap (insert_id a) (sort_ids-permᴰ p) ∙ ap (λ x. insert_id x (sort_ids l₂)) e
sort_ids-permᴰ (Permᴰ.swap {a = a} {b = b} {l = l} e e') =
    insert_id_comm a b (sort_ids l) ∙ ap₂ (λ x y. insert_id x (insert_id y (sort_ids l))) e' e
sort_ids-permᴰ (Permᴰ.trans p q) = sort_ids-permᴰ p ∙ sort_ids-permᴰ q

ids_discrete : Discrete (List ℕ)
ids_discrete = hlevel ℕ_discrete

sort_ids-perm : (xs ys : List ℕ) → Perm xs ys → sort_ids xs ≡ sort_ids ys
sort_ids-perm xs ys p = ∥∥₁_elim p (hedberg ids_discrete _ _) (λ q. sort_ids-permᴰ q)

length-insert_id : (i : ℕ) (ids : List ℕ) → length (insert_id i ids) ≡ length ids + 1
length-insert_id i [] = omega arith
length-insert_id i (j ∷ js) = ground (arith, length-insert_id i js)

length-sort_ids : (ids : List ℕ) → length (sort_ids ids) ≡ length ids
unfolding sort_ids
length-sort_ids [] = refl
length-sort_ids (i ∷ is) = omega (arith, length-insert_id i (sort_ids is), length-sort_ids is)

-- What two lists of the same ids have in common.
module _ (xs ys : List ℕ) (same : sort_ids xs ≡ sort_ids ys) where
  same_length : length xs ≡ length ys
  same_length = sym (length-sort_ids xs) ∙ ap length same ∙ length-sort_ids ys

  same_ids : (k : ℕ) → has_id k xs ≡ has_id k ys
  same_ids k = sym (has_id-sort_ids k xs) ∙ ap (has_id k) same ∙ has_id-sort_ids k ys

  module _ (F : Float) where
    same_children :
        (rows : List (SummaryRecord F)) → fetch_children F xs rows ≡ fetch_children F ys rows
    unfolding fetch_children is_listed
    same_children rows =
        ap (λ listed. order_by_start F (select listed rows))
          (fun_ext (λ r. ap (λ b. b && r.is_latest) (same_ids r.summary_id)))

    module _ (A : RollupAgent F) (now job_id : ℕ) (p : RollupPayload) where
      abbrev listing : List ℕ → RollupPayload
      listing ids = record p { child_ids = ids }

      same_record :
          (children : List (SummaryRecord F)) (out : LlmSummaryOutput F)
          → rollup_record F A now (listing xs) (sort_ids xs) (length xs) children out
            ≡ rollup_record F A now (listing ys) (sort_ids ys) (length ys) children out
      unfolding rollup_record rollup_summary_id rollup_window
      same_record children out =
          λ i. rollup_record F A now (listing xs) (same i) (same_length i) children out

      same_rolled_up :
          (children : List (SummaryRecord F)) (o : Option (LlmSummaryOutput F))
          (st : SummaryStore F)
          → rolled_up F A now job_id (listing xs) children o st
            ≡ rolled_up F A now job_id (listing ys) children o st
      unfolding rolled_up store_rollup
      same_rolled_up children none st = refl
      same_rolled_up children (some out) st =
          ap (λ r. some (store_rollup F A now job_id (listing xs) r st)) (same_record children out)

      same_found :
          (children : List (SummaryRecord F)) (st : SummaryStore F)
          → roll_up_found F A now job_id (listing xs) children st
            ≡ roll_up_found F A now job_id (listing ys) children st
      unfolding roll_up_found
      same_found [] st = refl
      same_found (c ∷ children) st = λ i.
          if waits F A now p.window_end (length (c ∷ children)) (same_length i)
          then some (not_run retry_wait, st)
          else same_rolled_up (c ∷ children)
              (call_and_validate F A.call_llm_stub
                (A.build_prompt p.camera_id p.window_start p.window_end (c ∷ children)) []
                A.vlm_client)
              st i

module _ (F : Float) (A : RollupAgent F) (now job_id : ℕ) (p : RollupPayload)
    (st : SummaryStore F) where
  same_run :
      (xs ys : List ℕ)
      → sort_ids xs ≡ sort_ids ys
      → run_rollup_ids F A now job_id (record p { child_ids = xs }) xs st
        ≡ run_rollup_ids F A now job_id (record p { child_ids = ys }) ys st
  unfolding run_rollup_ids
  same_run [] [] same = refl
  same_run [] (y ∷ ys) same = absurd (omega (arith, same_length [] (y ∷ ys) same))
  same_run (x ∷ xs) [] same = absurd (omega (arith, same_length (x ∷ xs) [] same))
  same_run (x ∷ xs) (y ∷ ys) same =
      ap (λ children. roll_up_found F A now job_id (record p { child_ids = x ∷ xs }) children st)
        (same_children (x ∷ xs) (y ∷ ys) same F st.summaries)
      ∙ same_found (x ∷ xs) (y ∷ ys) same F A now job_id p (fetch_children F (y ∷ ys) st.summaries)
          st

  -- A rollup job does the same, whatever the order in which it lists its children: the same result, the
  -- same summary, under the same id, and the same embedding job.
  pub run_rollup_job-perm :
      (ids : List ℕ)
      → Perm ids p.child_ids
      → run_rollup_job F A now job_id (record p { child_ids = ids }) st
        ≡ run_rollup_job F A now job_id p st
  unfolding run_rollup_job
  run_rollup_job-perm ids perm = same_run ids p.child_ids (sort_ids-perm ids p.child_ids perm)
