-- ===== src/Summaries/Unrolled.antt =====
-- Runs of run_bucket_summary one after the other, of any buckets.
use mathlib.Core.Bool.{true≢false}
use panoptic.Common.{
  ℕ, ◌+◌, ◌≡◌, refl, sym, ap, ◌∙◌, Bool, true, false, ◌&&◌, Option, none, some, List, [], ◌∷◌, ◌==◌,
  ==_refl, ==_iff, any, All, All-append, Bool-cases, inl, inr, arith, subst,
}
use panoptic.Float.{Float}
use panoptic.Summaries.{
  SummaryRecord, find_latest, has_summary, stored, insert_summary, supersede, upsert_found,
  upsert_summary,
}
use panoptic.Summaries.Rollup.{
  SummaryJob, SummaryJobKey, embedding_upsert_key, rollup_summary_key, embedding_job, RollupTarget,
  SummaryStore, is_child,
}
use panoptic.Summaries.Triggered.{Inserts, Triggers}
use panoptic.Summaries.Frames.{SummaryBucket, SummaryTask}
use panoptic.Summaries.Execute.{
  ExecutionResult, Agent, camera_window, rollup_target, run_bucket_summary,
}
use panoptic.Summaries.Outcome.{IsRecordOf, IsStored, run_bucket_summary-cases}

abbrev pub is_rollup : SummaryJobKey → Bool
is_rollup (embedding_upsert_key id) = false
is_rollup (rollup_summary_key c w m v h) = true

abbrev pub NoRollups : List SummaryJob → Type 0
NoRollups jobs = All (λ j. is_rollup j.job_key ≡ false) jobs

embedding-NoRollups :
    (jobs after : List SummaryJob) (e id serial : ℕ) (o : Option ℕ)
    → NoRollups jobs
    → Inserts jobs (embedding_job e id serial) o after
    → NoRollups after
unfolding embedding_job
embedding-NoRollups jobs after e id serial none h i = subst NoRollups (sym i) h
embedding-NoRollups jobs after e id serial (some k) h (i, _, _) =
    subst NoRollups (sym i) (All-append _ jobs _ h (refl, tt))

module _ (F : Float) where
  -- A run, with the clients of its worker.
  pub record BucketRun : Type 0 where
    pub agent : Agent F
    pub now : ℕ
    pub embedding_id : ℕ
    pub rollup_id : ℕ
    pub task : SummaryTask
    pub buckets : List SummaryBucket

  -- A run that raises is rolled back.
  abbrev pub committed : SummaryStore F → Option (ExecutionResult × SummaryStore F) → SummaryStore F
  committed st none = st
  committed st (some out) = out.1

  unfoldable pub run_all : List BucketRun → SummaryStore F → SummaryStore F
  run_all [] st = st
  run_all (u ∷ runs) st = run_all runs (
      committed st
        (run_bucket_summary F u.agent u.now u.embedding_id u.rollup_id u.task u.buckets st))

  module _ (joined : ℕ → Bool) where
    abbrev pub AllJoined : List (SummaryRecord F) → Type 0
    AllJoined rows = All (λ r. joined r.window.scope_id ≡ true) rows

    -- Joined texts are told from camera ids.
    abbrev pub IsPlain : BucketRun → Type 0
    IsPlain u =
        ((serial cam : ℕ) → joined (u.agent.scope_text serial cam) ≡ true)
        × (joined u.task.camera_id ≡ false)

    supersede-AllJoined :
        (now new_id old_id : ℕ) (rows : List (SummaryRecord F))
        → AllJoined rows
        → AllJoined (supersede F now new_id old_id rows)
    unfolding supersede
    supersede-AllJoined now new_id old_id [] h = h
    supersede-AllJoined now new_id old_id (r ∷ rows) h =
        elim (Bool-cases (r.summary_id == old_id)) [
          | inl e ↦ rw e (h.0, supersede-AllJoined now new_id old_id rows h.1)
          | inr e ↦ rw e (h.0, supersede-AllJoined now new_id old_id rows h.1)
        ]

    module _ (now : ℕ) (r : SummaryRecord F) (own : joined r.window.scope_id ≡ true) where
      insert-AllJoined :
          (version : ℕ) (rows : List (SummaryRecord F))
          → AllJoined rows
          → AllJoined (insert_summary F now version r rows)
      unfolding insert_summary
      insert-AllJoined version rows h = elim (Bool-cases (has_summary F r.summary_id rows)) [
        | inl e ↦ rw e h
        | inr e ↦ rw e (All-append _ rows _ h ((unfold stored in own), tt))
      ]

      found-AllJoined :
          (rows : List (SummaryRecord F)) (o : Option (SummaryRecord F))
          → AllJoined rows
          → AllJoined (upsert_found F now r o rows).0
      unfolding upsert_found
      found-AllJoined rows none h = insert-AllJoined 1 rows h
      found-AllJoined rows (some s) h = elim (Bool-cases (s.summary_id == r.summary_id)) [
        | inl e ↦ rw e h
        | inr e ↦ rw e (
            supersede-AllJoined now r.summary_id s.summary_id _
              (insert-AllJoined (s.version + 1) rows h))
      ]

      upsert-AllJoined :
          (rows : List (SummaryRecord F))
          → AllJoined rows
          → AllJoined (upsert_summary F now r rows).0
      unfolding upsert_summary
      upsert-AllJoined rows h = found-AllJoined rows (find_latest F r.window rows) h

    module _ (t : RollupTarget) (plain : joined t.camera_id ≡ false) where
      not_child : (r : SummaryRecord F) → joined r.window.scope_id ≡ true → is_child F t r ≡ false
      unfolding is_child
      not_child r h = elim (Bool-cases (r.window.scope_id == t.camera_id)) [
        | inl e ↦ absurd (true≢false (sym h ∙ ap joined ((==_iff _ _).0 e) ∙ plain))
        | inr e ↦ ground (arith, e)
      ]

      no_children :
          (k : ℕ) (rows : List (SummaryRecord F))
          → AllJoined rows
          → any (λ r. is_child F t r && r.summary_id == k) rows ≡ false
      no_children k [] h = refl
      no_children k (r ∷ rows) h = rw (not_child r h.0) (no_children k rows h.1)

      not_triggered :
          (digest : List ℕ → ℕ) (job_id : ℕ) (rows : List (SummaryRecord F))
          (jobs after : List SummaryJob) (o : Option ℕ)
          → AllJoined rows
          → Triggers F digest job_id t rows jobs o after
          → after ≡ jobs
      not_triggered digest job_id rows jobs after none h c = c
      not_triggered digest job_id rows jobs after (some id) h (i, ids, _, _, _, _, own) =
          absurd (true≢false (sym (rw (==_refl i) refl) ∙ own.1 i ∙ no_children i rows h))

    module _ (u : BucketRun) (plain : IsPlain u) (st : SummaryStore F) (h : AllJoined st.summaries)
        (c : NoRollups st.jobs) where
      stored-NoRollups :
          (b : SummaryBucket) (r : SummaryRecord F) (out : ExecutionResult × SummaryStore F)
          → IsRecordOf F u.agent u.now u.embedding_id u.rollup_id u.task b r
          → IsStored F u.agent u.now u.embedding_id u.rollup_id u.task b r st out
          → AllJoined out.1.summaries × NoRollups out.1.jobs
      unfolding rollup_target camera_window
      stored-NoRollups b r out made done =
          let own : joined r.window.scope_id ≡ true =
            ap (λ w. joined w.scope_id) made.window
            ∙ plain.0 u.task.serial_number u.task.camera_id in
          let rows = upsert-AllJoined u.now r own st.summaries h in
          let between = embedding-NoRollups st.jobs _ _ _ _ _ c done.embedding in
          (
            subst AllJoined (sym done.summaries) rows,
            subst NoRollups
                (sym (
                  not_triggered (rollup_target F u.agent u.task b) plain.1 _ _ _ _ _ _ rows
                    done.rollup))
                between,
          )

      committed-NoRollups :
          (o : Option (ExecutionResult × SummaryStore F))
          → run_bucket_summary F u.agent u.now u.embedding_id u.rollup_id u.task u.buckets st ≡ o
          → AllJoined (committed st o).summaries × NoRollups (committed st o).jobs
      committed-NoRollups none e = (h, c)
      committed-NoRollups (some out) e =
          elim (run_bucket_summary-cases F u.agent u.now u.embedding_id u.rollup_id u.task u.buckets
            st out e) [
              | inl (_, same) ↦ rw same (h, c)
              | inr (b, _, (r, made, done)) ↦ stored-NoRollups b r out made done
            ]

    -- Where a joined text can be told from a camera's id, as by its colon, and every scope id of the
    -- table is joined, runs of bucket_summary jobs, of whatever buckets and with whatever clients, keep
    -- this so and never add a rollup job, even where every bucket of an hour is summarised.
    pub never_rolled_up :
        (runs : List BucketRun) (st : SummaryStore F)
        → All IsPlain runs
        → AllJoined st.summaries
        → NoRollups st.jobs
        → AllJoined (run_all runs st).summaries × NoRollups (run_all runs st).jobs
    unfolding run_all
    never_rolled_up [] st plain h c = (h, c)
    never_rolled_up (u ∷ runs) st plain h c =
        let (h', c') = committed-NoRollups u plain.0 st h c _ refl in
        never_rolled_up runs _ plain.1 h' c'
