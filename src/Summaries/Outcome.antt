-- ===== src/Summaries/Outcome.antt =====
-- What a run of run_bucket_summary leaves.
use mathlib.Core.Option.{none-ne-some}
use panoptic.Common.{
  ℕ, ◌≤◌, ◌≡◌, refl, sym, ap, ◌∙◌, ◌⊎◌, true, Option, none, some, some-injective, List, subst,
  if◌then◌else◌, ◌==◌, every, length, inl, inr, any, Bool-cases,
}
use panoptic.Float.{Float}
use panoptic.Summaries.{SummaryRecord, upsert_summary}
use panoptic.Summaries.Rollup.{
  SummaryJob, SummaryStore, embedding_job, insert_embedding_job, find_state, parent_key, put_row,
}
use panoptic.Summaries.Llm.{signals, injected, inject, is_unhashable, LlmSummaryOutput}
use panoptic.Summaries.Confirmed.{is_confirmed, injected-Confirms}
use panoptic.Summaries.Triggered.{Inserts, insert_summary_job-Inserts, Triggers, rollup-Triggers}
use panoptic.Summaries.FrameCounts.{
  IsFew, fetch_with-IsFew, fetched_times, fetch_with-times, resolve_candidates-le, state_of_decided,
}
use panoptic.Summaries.Frames.{
  SummaryBucket, SummaryTask, resolve_candidates, decide_summary_mode, Frames,
}
use panoptic.Summaries.Execute.{
  succeeded, degraded, ExecutionResult, find_summary_bucket, Agent, camera_window,
  bucket_summary_id, bucket_summary_record, rollup_target, state_of_mode, store_summary, summarised,
  framed, bucket_not_found, summarise_found, run_bucket_summary,
}

module _ (F : Float) (A : Agent F) (now e k : ℕ) (task : SummaryTask) where
  -- A record made for the bucket.
  abbrev pub bucket_times : SummaryBucket → List ℕ
  bucket_times b =
      fetched_times F A A.continuum_client A.keyframe_client task (resolve_candidates b)

  -- Frames that were fetched for the bucket.
  abbrev pub IsFetched : SummaryBucket → Frames F → Type 0
  IsFetched b frames = IsFew F A frames × (frames.timestamps ≡ bucket_times b)

  pub record IsRecordOf (b : SummaryBucket) (r : SummaryRecord F) : Type 0 where
    pub window : r.window ≡ camera_window F A task b
    pub id : r.summary_id ≡ bucket_summary_id F A task b
    pub frames : r.frames_used ≤ 3
    pub times : r.frame_timestamps ≡ bucket_times b
    pub used : r.frames_used ≡ length (bucket_times b)
    pub mode : r.summary_mode ≡ decide_summary_mode r.frames_used
    pub confirmed : every (is_confirmed b.event_markers r.key_events) signals ≡ true

  -- What the run did with the record.
  pub record IsStored (b : SummaryBucket) (r : SummaryRecord F) (st : SummaryStore F)
      (out : ExecutionResult × SummaryStore F) : Type 0 where
    pub summary_id : out.0.summary_id ≡ some r.summary_id
    pub state : out.0.job_state ≡ (if r.frames_used == 0 then degraded else succeeded)
    pub summaries : out.1.summaries ≡ (upsert_summary F now r st.summaries).0
    pub states :
        find_state F (parent_key (rollup_target F A task b)) out.1.states
        ≡ some (
            put_row F
              (rollup_target F A task b)
              (find_state F (parent_key (rollup_target F A task b)) st.states))
    pub between : List SummaryJob
    pub embedding :
        Inserts st.jobs
          (embedding_job e r.summary_id task.serial_number)
          out.0.embedding_job_id
          between
    pub rollup :
        Triggers F A.children_digest k
          (rollup_target F A task b)
          (upsert_summary F now r st.summaries).0
          between
          out.0.rollup_job_id
          out.1.jobs

  bucket_summary_record-IsRecordOf :
      (b : SummaryBucket) (frames : Frames F) (out : LlmSummaryOutput F)
      → IsFetched b frames
      → IsRecordOf b
          (bucket_summary_record F A now task b frames (injected F A.lower b.event_markers out))
  unfolding bucket_summary_record
  bucket_summary_record-IsRecordOf b frames out few = record {
    window = refl;
    id = refl;
    frames = few.0.1;
    times = few.1;
    used = sym few.0.0 ∙ ap length few.1;
    mode = refl;
    confirmed = (injected-Confirms F A.lower b.event_markers out).0;
  }

  store_summary-IsStored :
      (b : SummaryBucket) (r : SummaryRecord F) (st : SummaryStore F)
      → IsRecordOf b r
      → IsStored b r st (store_summary F A now e k task b r st)
  unfolding store_summary insert_embedding_job
  store_summary-IsStored b r st made =
      let summaries = (upsert_summary F now r st.summaries).0 in
      let new = insert_embedding_job e r.summary_id task.serial_number st.jobs in
      let between = record st { summaries = summaries; jobs = new.0 } in
      let rolled = rollup-Triggers F A.children_digest k (rollup_target F A task b) between in
      record {
        summary_id = refl;
        state = ap state_of_mode made.mode ∙ state_of_decided r.frames_used;
        summaries = rolled.0;
        states = rolled.1;
        between = new.0;
        embedding =
            insert_summary_job-Inserts (embedding_job e r.summary_id task.serial_number) st.jobs;
        rollup = rolled.3;
      }

  -- The record, and what was done with it.
  abbrev pub Summarises : SummaryBucket → SummaryStore F → ExecutionResult × SummaryStore F → Type 0
  Summarises b st out = (r : SummaryRecord F) × IsRecordOf b r × IsStored b r st out

  summarised-Summarises :
      (b : SummaryBucket) (frames : Frames F) (o : Option (LlmSummaryOutput F))
      (st : SummaryStore F) (out : ExecutionResult × SummaryStore F)
      → IsFetched b frames
      → summarised F A now e k task b frames o st ≡ some out
      → Summarises b st out
  unfolding summarised inject
  summarised-Summarises b frames none st out few h = absurd (none-ne-some out h)
  summarised-Summarises b frames (some llm) st out few h =
      elim (Bool-cases (any is_unhashable llm.key_events)) [
        | inl e ↦ absurd (none-ne-some out (rw e at h))
        | inr e ↦
            let r =
              bucket_summary_record F A now task b frames
                (injected F A.lower b.event_markers llm) in
            let made = bucket_summary_record-IsRecordOf b frames llm few in
            (
              r,
              made,
              subst (IsStored b r st) (some-injective _ _ (rw e at h))
                  (store_summary-IsStored b r st made),
            )
      ]

  framed-Summarises :
      (b : SummaryBucket) (o : Option (Frames F)) (st : SummaryStore F)
      (out : ExecutionResult × SummaryStore F)
      → ((frames : Frames F) → o ≡ some frames → IsFetched b frames)
      → framed F A now e k task b o st ≡ some out
      → Summarises b st out
  unfolding framed
  framed-Summarises b none st out few h = absurd (none-ne-some out h)
  framed-Summarises b (some frames) st out few h =
      summarised-Summarises b frames _ st out (few frames refl) h

  summarise_found-cases :
      (o : Option SummaryBucket) (st : SummaryStore F) (out : ExecutionResult × SummaryStore F)
      → summarise_found F A now e k task o st ≡ some out
      → ((o ≡ none) × (out ≡ (bucket_not_found, st)))
        ⊎ ((b : SummaryBucket) × (o ≡ some b) × Summarises b st out)
  unfolding summarise_found
  summarise_found-cases none st out h = inl (refl, sym (some-injective _ _ h))
  summarise_found-cases (some b) st out h = inr (
    b,
    refl,
    framed-Summarises b _ st out
        (λ frames e. (
          fetch_with-IsFew F A A.continuum_client A.keyframe_client task (resolve_candidates b)
              frames (resolve_candidates-le b) e,
          fetch_with-times F A A.continuum_client A.keyframe_client task (resolve_candidates b)
              frames e,
        ))
        h,
  )

  -- A bucket_summary job that ends without an exception either does not find its bucket, and then is
  -- failed_terminal and changes no table; or it makes a record for the bucket, whose id and window
  -- depend on the job and on the bucket alone, with the times of the bucket's candidates for which the
  -- client gave a frame that can be used, in their order, at most 3, the mode that their number gives and
  -- every signal of the bucket among its key events, upserts it, and is degraded without frames and
  -- succeeded with some. The jobs are those that were there, then the embedding job of that summary,
  -- where the table had none, and then the rollup job of the hour where one is triggered; the ids that
  -- it returns are those of the jobs added.
  pub run_bucket_summary-cases :
      (buckets : List SummaryBucket) (st : SummaryStore F) (out : ExecutionResult × SummaryStore F)
      → run_bucket_summary F A now e k task buckets st ≡ some out
      → ((find_summary_bucket task.bucket_id buckets ≡ none) × (out ≡ (bucket_not_found, st)))
        ⊎ ((b : SummaryBucket) × (find_summary_bucket task.bucket_id buckets ≡ some b)
            × Summarises b st out)
  unfolding run_bucket_summary
  run_bucket_summary-cases buckets st out h =
      summarise_found-cases (find_summary_bucket task.bucket_id buckets) st out h
