-- ===== src/Summaries/Hourly.antt =====
-- run_rollup_job (services/panoptic_rollup_worker/executor.py): the summary of an hour from those of
-- its buckets. `none` is an exception. The prompt's text is a parameter.
use panoptic.Common.{
  ℕ, ◌+◌, Bool, true, false, ◌&&◌, ◌||◌, Option, none, some, List, [], ◌∷◌, if◌then◌else◌, ltb, leb,
  ◌==◌, length, any, map, select,
}
use panoptic.Float.{Float, py_min}
use panoptic.Jobs.Model.{Text}
use panoptic.Summaries.{
  hour, SummaryMode, full, partial, metadata_only, pending, SummaryIdentity, SummaryWindow,
  SummaryRecord, upsert_summary,
}
use panoptic.Summaries.Rollup.{
  RollupPayload, SummaryStore, sort_ids, compute_child_set_hash, insert_embedding_job,
}
use panoptic.Summaries.Llm.{Model, LlmSummaryOutput, call_and_validate}
use panoptic.Summaries.Execute.{SummaryJobState, succeeded, degraded, failed_terminal, retry_wait}

-- In seconds: _RECENT_WINDOW_HOURS is 2.
abbrev pub recent_window : ℕ
recent_window = 7200

pub record RollupResult : Type 0 where
  pub job_state : SummaryJobState
  pub embedding_job_id : Option ℕ

abbrev pub not_run : SummaryJobState → RollupResult
not_run s = record { job_state = s; embedding_job_id = none }

module _ (F : Float) where
  pub record RollupAgent : Type 0 where
    pub vlm_client : Option (Model F)
    -- on the camera, the hour's start and end, and the children
    pub build_prompt : ℕ → ℕ → ℕ → List (SummaryRecord F) → Text
    -- call_llm_stub on no frames
    pub call_llm_stub : LlmSummaryOutput F
    -- f"{serial_number}:{camera_id}"
    pub scope_text : ℕ → ℕ → ℕ
    pub children_digest : List ℕ → ℕ
    pub summary_digest : SummaryIdentity → ℕ

  -- ORDER BY start_time
  unfoldable pub insert_by_start : SummaryRecord F → List (SummaryRecord F) → List (SummaryRecord F)
  insert_by_start r [] = r ∷ []
  insert_by_start r (s ∷ rows) =
      if leb r.window.start_time s.window.start_time
      then r ∷ s ∷ rows
      else s ∷ insert_by_start r rows

  unfoldable pub order_by_start : List (SummaryRecord F) → List (SummaryRecord F)
  order_by_start [] = []
  order_by_start (r ∷ rows) = insert_by_start r (order_by_start rows)

  -- summary_id IN (...) AND is_latest = true
  unfoldable pub is_listed : List ℕ → SummaryRecord F → Bool
  is_listed ids r = any (λ i. i == r.summary_id) ids && r.is_latest

  unfoldable pub fetch_children : List ℕ → List (SummaryRecord F) → List (SummaryRecord F)
  fetch_children ids rows = order_by_start (select (is_listed ids) rows)

  -- confidence == 0.0
  abbrev pub is_zero_confidence : F.Num → Bool
  is_zero_confidence c = F.le c (F.literal 0 0) && F.le (F.literal 0 0) c

  abbrev pub is_partial : SummaryMode → Bool
  is_partial full = false
  is_partial partial = true
  is_partial metadata_only = false

  unfoldable pub hour_state : SummaryMode → F.Num → SummaryJobState
  hour_state mode confidence =
      if is_partial mode || is_zero_confidence confidence then degraded else succeeded

  module _ (A : RollupAgent) where
    unfoldable pub rollup_window : RollupPayload → SummaryWindow
    rollup_window p = record {
      serial_number = p.serial_number;
      level = hour;
      scope_id = A.scope_text p.serial_number p.camera_id;
      start_time = p.window_start;
      end_time = p.window_end;
    }

    -- On the sorted ids.
    unfoldable pub rollup_summary_id : RollupPayload → List ℕ → ℕ
    rollup_summary_id p sorted = A.summary_digest (record {
      child_set_hash = compute_child_set_hash A.children_digest sorted;
      level = hour;
      model_profile = p.model_profile;
      prompt_version = p.prompt_version;
      scope_id = A.scope_text p.serial_number p.camera_id;
      serial_number = p.serial_number;
      window_end = p.window_end;
      window_start = p.window_start;
    })

    -- found / expected
    unfoldable pub rollup_coverage : ℕ → ℕ → F.Num
    rollup_coverage found expected = F.div (F.of_nat found) (F.of_nat expected)

    unfoldable pub rollup_record :
        ℕ
        → RollupPayload
        → List ℕ
        → ℕ
        → List (SummaryRecord F)
        → LlmSummaryOutput F
        → SummaryRecord F
    rollup_record now p sorted expected children out = record {
      summary_id = rollup_summary_id p sorted;
      window = rollup_window p;
      summary = out.summary;
      key_events = out.key_events;
      coverage = record {
        expected = expected;
        present = length children;
        ratio = py_min F (rollup_coverage (length children) expected) (F.literal 1 0);
        missing = [];
      };
      summary_mode = if length children == expected then full else partial;
      frames_used = 0;
      frame_timestamps = [];
      confidence = out.confidence;
      embedding_status = pending;
      version = 1;
      is_latest = true;
      superseded_by = none;
      model_profile = p.model_profile;
      prompt_version = p.prompt_version;
      source_refs = map (λ r. r.summary_id) children;
      created_at = now;
      updated_at = now;
    }

    unfoldable pub store_rollup :
        ℕ → ℕ → RollupPayload → SummaryRecord F → SummaryStore F → RollupResult × SummaryStore F
    store_rollup now job_id p r st =
        let new_jobs = insert_embedding_job job_id r.summary_id p.serial_number st.jobs in
        (
          record {
            job_state = hour_state r.summary_mode r.confidence;
            embedding_job_id = new_jobs.1;
          },
          record st { summaries = (upsert_summary F now r st.summaries).0; jobs = new_jobs.0 },
        )

    unfoldable pub rolled_up :
        ℕ
        → ℕ
        → RollupPayload
        → List (SummaryRecord F)
        → Option (LlmSummaryOutput F)
        → SummaryStore F
        → Option (RollupResult × SummaryStore F)
    rolled_up now job_id p children none st = none
    rolled_up now job_id p children (some out) st = some (
        store_rollup now job_id p
          (rollup_record now p (sort_ids p.child_ids) (length p.child_ids) children out) st)

    -- Whether too few children are there and more can still arrive.
    unfoldable pub waits : ℕ → ℕ → ℕ → ℕ → Bool
    waits now window_end found expected =
        F.lt (rollup_coverage found expected) (F.literal 5 1)
        && ltb now (window_end + recent_window)

    unfoldable pub roll_up_found :
        ℕ
        → ℕ
        → RollupPayload
        → List (SummaryRecord F)
        → SummaryStore F
        → Option (RollupResult × SummaryStore F)
    roll_up_found now job_id p [] st = some (not_run failed_terminal, st)
    roll_up_found now job_id p (c ∷ children) st =
        if waits now p.window_end (length (c ∷ children)) (length p.child_ids)
        then some (not_run retry_wait, st)
        else rolled_up now job_id p (c ∷ children)
            (call_and_validate F A.call_llm_stub
              (A.build_prompt p.camera_id p.window_start p.window_end (c ∷ children)) []
              A.vlm_client)
            st

    -- With no ids the SELECT is not valid SQL.
    unfoldable pub run_rollup_ids :
        ℕ → ℕ → RollupPayload → List ℕ → SummaryStore F → Option (RollupResult × SummaryStore F)
    run_rollup_ids now job_id p [] st = none
    run_rollup_ids now job_id p (i ∷ ids) st =
        roll_up_found now job_id p (fetch_children (i ∷ ids) st.summaries) st

    unfoldable pub run_rollup_job :
        ℕ → ℕ → RollupPayload → SummaryStore F → Option (RollupResult × SummaryStore F)
    run_rollup_job now job_id p st = run_rollup_ids now job_id p p.child_ids st
