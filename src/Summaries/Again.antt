-- ===== src/Summaries/Again.antt =====
-- A bucket that is summarised a second time.
use mathlib.Core.Bool.{true≢false}
use mathlib.Core.Option.{none-ne-some}
use panoptic.Common.{
  ℕ, ◌+◌, ◌≡◌, refl, sym, ap, ◌∙◌, true, Option, none, some, some-injective, List, inl, inr, arith,
  ◌==◌, ==_refl, subst,
}
use panoptic.Float.{Float}
use panoptic.Summaries.{SummaryRecord, find_latest, upsert_found, upsert_summary}
use panoptic.Summaries.Rollup.{
  SummaryJob, SummaryStore, embedding_upsert_key, embedding_job, has_job, RollupState, RollupTarget,
  find_state, parent_key, put_row, new_state, count_child,
}
use panoptic.Summaries.Triggered.{Inserts}
use panoptic.Summaries.Outcome.{IsRecordOf, IsStored, run_bucket_summary-cases}
use panoptic.Summaries.Frames.{SummaryBucket, SummaryTask}
use panoptic.Summaries.Execute.{
  ExecutionResult, find_summary_bucket, Agent, camera_window, bucket_summary_id, rollup_target,
  run_bucket_summary,
}

module _ (F : Float) where
  -- present_children, where the hour has a row.
  abbrev pub children_in : Option (RollupState F) → ℕ
  children_in none = 0
  children_in (some s) = s.present_children

  put_row-present :
      (t : RollupTarget) (o : Option (RollupState F))
      → (put_row F t o).present_children ≡ children_in o + 1
  unfolding put_row new_state count_child
  put_row-present t none = omega arith
  put_row-present t (some s) = refl

  upsert_own :
      (now : ℕ) (r s : SummaryRecord F) (rows : List (SummaryRecord F))
      → find_latest F r.window rows ≡ some s
      → s.summary_id ≡ r.summary_id
      → (upsert_summary F now r rows).0 ≡ rows
  unfolding upsert_summary upsert_found
  upsert_own now r s rows found same =
      rw (found, ap (λ i. i == r.summary_id) same ∙ ==_refl r.summary_id) refl

  no_second_job :
      (jobs after : List SummaryJob) (e id serial : ℕ) (o : Option ℕ)
      → has_job (embedding_upsert_key id) jobs ≡ true
      → Inserts jobs (embedding_job e id serial) o after
      → o ≡ none
  unfolding embedding_job
  no_second_job jobs after e id serial none h i = refl
  no_second_job jobs after e id serial (some k) h (_, _, new) = absurd (true≢false (sym h ∙ new))

  module _ (A : Agent F) (now e k : ℕ) (task : SummaryTask) (b : SummaryBucket)
      (s : SummaryRecord F) (st : SummaryStore F)
      (latest : find_latest F (camera_window F A task b) st.summaries ≡ some s)
      (own : s.summary_id ≡ bucket_summary_id F A task b)
      (queued : has_job (embedding_upsert_key (bucket_summary_id F A task b)) st.jobs ≡ true) where
    again_stored :
        (r : SummaryRecord F) (out : ExecutionResult × SummaryStore F)
        → IsRecordOf F A now e k task b r
        → IsStored F A now e k task b r st out
        → (out.1.summaries ≡ st.summaries)
          × (out.0.summary_id ≡ some s.summary_id)
          × (out.0.embedding_job_id ≡ none)
          × (children_in (find_state F (parent_key (rollup_target F A task b)) out.1.states)
              ≡ children_in (find_state F (parent_key (rollup_target F A task b)) st.states) + 1)
    again_stored r out made done = (
      done.summaries
          ∙ upsert_own now r s st.summaries
              (ap (λ w. find_latest F w st.summaries) made.window ∙ latest) (own ∙ sym made.id),
      done.summary_id ∙ ap some (made.id ∙ sym own),
      no_second_job st.jobs done.between e r.summary_id task.serial_number _
          (ap (λ i. has_job (embedding_upsert_key i) st.jobs) made.id ∙ queued) done.embedding,
      ap children_in done.states ∙ put_row-present (rollup_target F A task b) _,
    )

    -- Where the latest summary of the bucket's window is the one with the bucket's summary id and its
    -- embedding job is there, a run of the bucket's job that ends writes no summary and adds no
    -- embedding job, whatever the frames and the model answer now, and returns that id. But it counts the
    -- bucket in the hour's present_children once more.
    pub summarised_again :
        (buckets : List SummaryBucket) (out : ExecutionResult × SummaryStore F)
        → find_summary_bucket task.bucket_id buckets ≡ some b
        → run_bucket_summary F A now e k task buckets st ≡ some out
        → (out.1.summaries ≡ st.summaries)
          × (out.0.summary_id ≡ some s.summary_id)
          × (out.0.embedding_job_id ≡ none)
          × (children_in (find_state F (parent_key (rollup_target F A task b)) out.1.states)
              ≡ children_in (find_state F (parent_key (rollup_target F A task b)) st.states) + 1)
    summarised_again buckets out found h =
        elim (run_bucket_summary-cases F A now e k task buckets st out h) [
          | inl (lost, _) ↦ absurd (none-ne-some b (sym lost ∙ found))
          | inr (b', found', (r, made, done)) ↦
              let same : b' ≡ b = some-injective _ _ (sym found' ∙ found) in
              again_stored r out (subst (λ x. IsRecordOf F A now e k task x r) same made)
                (subst (λ x. IsStored F A now e k task x r st out) same done)
        ]
