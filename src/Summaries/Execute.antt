-- ===== src/Summaries/Execute.antt =====
-- run_bucket_summary (services/panoptic_summary_agent/executor.py) on the tables of summaries, rollup
-- states and jobs. `none` is an exception, after which the worker rolls the transaction back. The
-- clients of frames and the prompt's text are parameters.
use panoptic.Common.{ℕ, true, Option, none, some, List, [], ◌∷◌, if◌then◌else◌, ◌==◌, length}
use panoptic.Float.{Float}
use panoptic.Jobs.Model.{Text}
use panoptic.Summaries.{
  camera, SummaryMode, full, partial, metadata_only, pending, SummaryIdentity, SummaryWindow,
  SummaryRecord, upsert_summary,
}
use panoptic.Summaries.Rollup.{
  SummaryStore, RollupTarget, compute_child_set_hash, insert_embedding_job,
  upsert_rollup_state_and_maybe_enqueue,
}
use panoptic.Summaries.Frames.{
  option_map, SummaryBucket, SummaryTask, resolve_candidates, decide_summary_mode, Fetched,
  ContinuumFrame, FrameResponse, Frames, fetch_with,
}
use panoptic.Summaries.Llm.{Model, LlmSummaryOutput, call_and_validate, inject}

pub data SummaryJobState : Type 0 where
  succeeded degraded failed_terminal retry_wait : SummaryJobState

pub record ExecutionResult : Type 0 where
  pub job_state : SummaryJobState
  -- none is the empty string
  pub summary_id : Option ℕ
  pub embedding_job_id : Option ℕ
  pub rollup_job_id : Option ℕ
  pub rollup_serial_number : Option ℕ

unfoldable pub find_summary_bucket : ℕ → List SummaryBucket → Option SummaryBucket
find_summary_bucket id [] = none
find_summary_bucket id (b ∷ rows) =
    if b.bucket_id == id then some b else find_summary_bucket id rows

abbrev pub mirrored : ℕ → Option ℕ → Option ℕ
mirrored serial none = none
mirrored serial (some id) = some serial

abbrev pub state_of_mode : SummaryMode → SummaryJobState
state_of_mode full = succeeded
state_of_mode partial = succeeded
state_of_mode metadata_only = degraded

abbrev pub bucket_not_found : ExecutionResult
bucket_not_found = record {
  job_state = failed_terminal;
  summary_id = none;
  embedding_job_id = none;
  rollup_job_id = none;
  rollup_serial_number = none;
}

module _ (F : Float) where
  pub record Agent : Type 0 where
    -- fetch_thumbnail and fetch_frame of the clients that are configured
    pub keyframe_client : Option (ℕ → ℕ → Fetched (FrameResponse F))
    pub continuum_client : Option (ℕ → ℕ → ℕ → Fetched ContinuumFrame)
    pub vlm_client : Option (Model F)
    pub build_prompt : SummaryBucket → List (FrameResponse F) → Text
    -- call_llm_stub, on the number of frames
    pub call_llm_stub : SummaryBucket → ℕ → LlmSummaryOutput F
    pub lower : Text → Text
    -- f"{serial_number}:{camera_id}"
    pub scope_text : ℕ → ℕ → ℕ
    pub children_digest : List ℕ → ℕ
    pub summary_digest : SummaryIdentity → ℕ

  module _ (A : Agent) where
    unfoldable pub camera_window : SummaryTask → SummaryBucket → SummaryWindow
    camera_window task b = record {
      serial_number = task.serial_number;
      level = camera;
      scope_id = A.scope_text task.serial_number task.camera_id;
      start_time = b.bucket_start_utc;
      end_time = b.bucket_end_utc;
    }

    unfoldable pub bucket_summary_id : SummaryTask → SummaryBucket → ℕ
    bucket_summary_id task b = A.summary_digest (record {
      child_set_hash = compute_child_set_hash A.children_digest (task.bucket_id ∷ []);
      level = camera;
      model_profile = task.model_profile;
      prompt_version = task.prompt_version;
      scope_id = A.scope_text task.serial_number task.camera_id;
      serial_number = task.serial_number;
      window_end = b.bucket_end_utc;
      window_start = b.bucket_start_utc;
    })

    unfoldable pub bucket_summary_record :
        ℕ → SummaryTask → SummaryBucket → Frames F → LlmSummaryOutput F → SummaryRecord F
    bucket_summary_record now task b frames out = record {
      summary_id = bucket_summary_id task b;
      window = camera_window task b;
      summary = out.summary;
      key_events = out.key_events;
      coverage = record { expected = 1; present = 1; ratio = F.literal 1 0; missing = [] };
      summary_mode = decide_summary_mode (length frames.uris);
      frames_used = length frames.uris;
      frame_timestamps = frames.timestamps;
      confidence = out.confidence;
      embedding_status = pending;
      version = 1;
      is_latest = true;
      superseded_by = none;
      model_profile = task.model_profile;
      prompt_version = task.prompt_version;
      source_refs = task.bucket_id ∷ [];
      created_at = now;
      updated_at = now;
    }

    unfoldable pub rollup_target : SummaryTask → SummaryBucket → RollupTarget
    rollup_target task b = record {
      serial_number = task.serial_number;
      camera_id = task.camera_id;
      bucket_start_utc = b.bucket_start_utc;
      bucket_end_utc = b.bucket_end_utc;
      model_profile = task.model_profile;
      prompt_version = task.prompt_version;
    }

    -- Steps 11 to 14. The new ids are those of the two jobs.
    unfoldable pub store_summary :
        ℕ
        → ℕ
        → ℕ
        → SummaryTask
        → SummaryBucket
        → SummaryRecord F
        → SummaryStore F
        → ExecutionResult × SummaryStore F
    store_summary now embedding_id rollup_id task b r st =
        let summaries = (upsert_summary F now r st.summaries).0 in
        let embedding = insert_embedding_job embedding_id r.summary_id task.serial_number st.jobs in
        let rolled =
          upsert_rollup_state_and_maybe_enqueue F A.children_digest rollup_id (rollup_target task b)
            (record st { summaries = summaries; jobs = embedding.0 }) in
        (
          record {
            job_state = state_of_mode r.summary_mode;
            summary_id = some r.summary_id;
            embedding_job_id = embedding.1;
            rollup_job_id = rolled.1;
            rollup_serial_number = mirrored task.serial_number rolled.1;
          },
          rolled.0,
        )

    unfoldable pub summarised :
        ℕ
        → ℕ
        → ℕ
        → SummaryTask
        → SummaryBucket
        → Frames F
        → Option (LlmSummaryOutput F)
        → SummaryStore F
        → Option (ExecutionResult × SummaryStore F)
    summarised now e k task b frames none st = none
    summarised now e k task b frames (some out) st =
        option_map
          (λ o. store_summary now e k task b (bucket_summary_record now task b frames o) st)
          (inject F A.lower b.event_markers out)

    unfoldable pub framed :
        ℕ
        → ℕ
        → ℕ
        → SummaryTask
        → SummaryBucket
        → Option (Frames F)
        → SummaryStore F
        → Option (ExecutionResult × SummaryStore F)
    framed now e k task b none st = none
    framed now e k task b (some frames) st =
        summarised now e k task b frames
          (call_and_validate F (A.call_llm_stub b (length frames.uris))
            (A.build_prompt b frames.listed) frames.uris A.vlm_client)
          st

    unfoldable pub summarise_found :
        ℕ
        → ℕ
        → ℕ
        → SummaryTask
        → Option SummaryBucket
        → SummaryStore F
        → Option (ExecutionResult × SummaryStore F)
    summarise_found now e k task none st = some (bucket_not_found, st)
    summarise_found now e k task (some b) st =
        framed now e k task b
          (fetch_with F A.continuum_client A.keyframe_client task (resolve_candidates b)) st

    unfoldable pub run_bucket_summary :
        ℕ
        → ℕ
        → ℕ
        → SummaryTask
        → List SummaryBucket
        → SummaryStore F
        → Option (ExecutionResult × SummaryStore F)
    run_bucket_summary now e k task buckets st =
        summarise_found now e k task (find_summary_bucket task.bucket_id buckets) st
