-- ===== src/Tests/Executors.antt =====
-- The theorems on the executors of summaries at concrete inputs.
use mathlib.Core.List.Perm
use panoptic.Common.{
  ℕ, ◌+◌, ◌*◌, ◌≡◌, refl, ◌⊎◌, Bool, true, not, ◌||◌, Option, none, some, is_some, [], ◌∷◌, any,
  arith, leb,
}
use panoptic.Float.{milli}
use panoptic.Signals.{spike, drop}
use panoptic.Summaries.{camera, SummaryWindow, SummaryRecord, window_eq, is_latest_in, find_latest}
use panoptic.Summaries.Rollup.{
  RollupPayload, SummaryStore, find_state, parent_key, embedding_job, embedding_upsert_key, has_job,
  summary_key_eq, compute_child_set_hash, sort_ids,
}
use panoptic.Summaries.Unrolled.{BucketRun, run_all, IsPlain, AllJoined, NoRollups, never_rolled_up}
use panoptic.Summaries.Llm.{inject, Model, call_and_validate, first_attempt}
use panoptic.Summaries.Frames.{
  SummaryTask, SummaryBucket, frame, fetch_with, resolve_candidates, fetch_continuum_frames,
  fetch_frames,
}
use panoptic.Summaries.Execute.{
  Agent, find_summary_bucket, bucket_not_found, run_bucket_summary, ExecutionResult, camera_window,
  bucket_summary_id, rollup_target, summarise_found, framed, summarised, store_summary,
  bucket_summary_record,
}
use panoptic.Summaries.Again.{children_in, summarised_again}
use panoptic.Summaries.Outcome.{Summarises, run_bucket_summary-cases}
use panoptic.Summaries.Embed.{Embedder, find_summary, run_embedding_job, is_complete}
use panoptic.Summaries.Embedded.{is_mislabelled, Settles}
use panoptic.Summaries.Chain.{summary_then_embed}
use panoptic.Summaries.Hourly.{RollupAgent, run_rollup_job}
use panoptic.Summaries.Children.{run_rollup_job-perm}
use panoptic.Tests.Summaries.{row_of, sum_digest, stored_two}

abbrev model : Model milli
model = record {
  call = λ prompt uris. some prompt;
  validate = λ raw. some (record { summary = raw; key_events = []; confidence = 800 });
  repair_prompt = λ raw. raw;
}

abbrev agent : Agent milli
agent = record {
  keyframe_client = none;
  continuum_client = some (λ serial cam t. frame (record { requested_ts = t; data_uri = [] }));
  vlm_client = some model;
  build_prompt = λ b frames. 72 ∷ [];
  call_llm_stub = λ b n. record { summary = []; key_events = []; confidence = 300 };
  lower = λ t. t;
  scope_text = λ serial cam. serial + 64 * cam;
  children_digest = sum_digest;
  summary_digest = λ i. i.child_set_hash + 1000;
}

abbrev task : SummaryTask
task = record {
  bucket_id = 5;
  serial_number = 7;
  camera_id = 1;
  model_profile = 1;
  prompt_version = 1;
}

abbrev bucket : SummaryBucket
bucket = record {
  bucket_id = 5;
  bucket_start_utc = 32400;
  bucket_end_utc = 34200;
  baseline_ts = some 32400;
  peak_ts = none;
  change_ts = some 33000;
  event_markers = spike ∷ drop ∷ [];
}

abbrev empty_store : SummaryStore milli
empty_store = record { summaries = []; states = []; jobs = [] }

abbrev half_past : SummaryWindow
half_past = record {
  serial_number = 7;
  level = camera;
  scope_id = 71;
  start_time = 32400;
  end_time = 34200;
}

abbrev done_before : SummaryStore milli
done_before = record {
  summaries = record (row_of 1005 true) { window = half_past } ∷ [];
  states = [];
  jobs = embedding_job 80 1005 7 ∷ [];
}

abbrev value_or {ℓ} : {A : Type ℓ} → A → Option A → A
value_or d none = d
value_or d (some a) = a

abbrev run_on : SummaryStore milli → Option (ExecutionResult × SummaryStore milli)
run_on st = run_bucket_summary milli agent 60 81 90 task (bucket ∷ []) st

abbrev first_out : ExecutionResult × SummaryStore milli
first_out = value_or (bucket_not_found, empty_store) (run_on empty_store)

abbrev second_out : ExecutionResult × SummaryStore milli
second_out = value_or (bucket_not_found, done_before) (run_on done_before)

first_ran : run_on empty_store ≡ some first_out
unfolding inject run_bucket_summary summarise_found find_summary_bucket framed fetch_with
    resolve_candidates fetch_continuum_frames fetch_frames summarised call_and_validate
    first_attempt
first_ran = refl

second_ran : run_on done_before ≡ some second_out
unfolding inject run_bucket_summary summarise_found find_summary_bucket framed fetch_with
    resolve_candidates fetch_continuum_frames fetch_frames summarised call_and_validate
    first_attempt
second_ran = refl

run_bucket_summary-cases_example :
    ((find_summary_bucket 5 (bucket ∷ []) ≡ none) × (first_out ≡ (bucket_not_found, empty_store)))
    ⊎ ((b : SummaryBucket) × (find_summary_bucket 5 (bucket ∷ []) ≡ some b)
        × Summarises milli agent 60 81 90 task b empty_store first_out)
run_bucket_summary-cases_example =
    run_bucket_summary-cases milli agent 60 81 90 task (bucket ∷ []) empty_store first_out first_ran

bucket_found : find_summary_bucket 5 (bucket ∷ []) ≡ some bucket
unfolding find_summary_bucket
bucket_found = refl

latest_there :
    find_latest milli (camera_window milli agent task bucket) done_before.summaries
    ≡ some (record (row_of 1005 true) { window = half_past })
unfolding find_latest is_latest_in window_eq camera_window
latest_there = refl

same_id : 1005 ≡ bucket_summary_id milli agent task bucket
unfolding bucket_summary_id compute_child_set_hash sort_ids
same_id = refl

queued :
    has_job (embedding_upsert_key (bucket_summary_id milli agent task bucket)) done_before.jobs
    ≡ true
unfolding bucket_summary_id compute_child_set_hash sort_ids has_job embedding_job summary_key_eq
queued = refl

-- A second run, after the first.
summarised_again_example :
    (second_out.1.summaries ≡ done_before.summaries)
    × (second_out.0.summary_id ≡ some 1005)
    × (second_out.0.embedding_job_id ≡ none)
    × (children_in milli (
          find_state milli (parent_key (rollup_target milli agent task bucket)) second_out.1.states)
        ≡ children_in milli (
            find_state milli
              (parent_key (rollup_target milli agent task bucket))
              done_before.states)
          + 1)
summarised_again_example =
    summarised_again milli agent 60 81 90 task bucket
      (record (row_of 1005 true) { window = half_past }) done_before latest_there same_id queued
      (bucket ∷ []) second_out bucket_found second_ran

abbrev embedder : Embedder milli
embedder = record {
  lower = λ t. t;
  list_of_set = λ ts. ts;
  embed = λ t. some 4;
  upsert = λ i v p. true;
}

first_id : first_out.0.summary_id ≡ some 1005
unfolding inject run_bucket_summary summarise_found find_summary_bucket framed fetch_with
    resolve_candidates fetch_continuum_frames fetch_frames summarised call_and_validate
    first_attempt store_summary bucket_summary_record bucket_summary_id compute_child_set_hash
    sort_ids
first_id = refl

summary_then_embed_example :
    (r : SummaryRecord milli) × (find_summary milli 1005 first_out.1.summaries ≡ some r)
    × (is_some (run_embedding_job milli embedder 99 1005 first_out.1.summaries)
        ≡ (is_complete r.embedding_status || not (any is_mislabelled r.key_events)))
    × Settles milli 1005 (run_embedding_job milli embedder 99 1005 first_out.1.summaries)
summary_then_embed_example =
    summary_then_embed milli agent 60 81 90 task (bucket ∷ []) empty_store first_out 1005 embedder
      99 first_ran first_id (λ t. refl) (λ i v p. refl)

abbrev rollup_agent : RollupAgent milli
rollup_agent = record {
  vlm_client = some model;
  build_prompt = λ c w e rows. 72 ∷ [];
  call_llm_stub = record { summary = []; key_events = []; confidence = 300 };
  scope_text = λ serial cam. serial + 64 * cam;
  children_digest = sum_digest;
  summary_digest = λ i. i.child_set_hash + 1000;
}

abbrev hour_payload : RollupPayload
hour_payload = record {
  serial_number = 7;
  camera_id = 1;
  window_start = 32400;
  window_end = 36000;
  child_ids = 2 ∷ 3 ∷ [];
  child_set_hash = 5;
  model_profile = 1;
  prompt_version = 1;
}

run_rollup_job-perm_example :
    run_rollup_job milli rollup_agent 60 91
      (record hour_payload { child_ids = 3 ∷ 2 ∷ [] })
      stored_two
    ≡ run_rollup_job milli rollup_agent 60 91 hour_payload stored_two
run_rollup_job-perm_example =
    run_rollup_job-perm milli rollup_agent 60 91 hour_payload stored_two (3 ∷ 2 ∷ [])
      (Perm.swap 2 3 [])

-- With these clients a joined text is at least 1000.
abbrev is_joined : ℕ → Bool
is_joined id = leb 1000 id

abbrev half_run : ℕ → BucketRun milli
half_run start = record {
  agent = record agent { scope_text = λ serial cam. 1000 + serial + cam };
  now = start + 1900;
  embedding_id = start;
  rollup_id = start + 1;
  task = record task { bucket_id = start };
  buckets =
      record bucket { bucket_id = start; bucket_start_utc = start; bucket_end_utc = start + 1800 }
      ∷ [];
}

half_run-IsPlain : (start : ℕ) → IsPlain milli is_joined (half_run start)
half_run-IsPlain start = (λ serial cam. ground arith, refl)

-- Both halves of an hour.
never_rolled_up_example :
    let after = run_all milli (half_run 32400 ∷ half_run 34200 ∷ []) empty_store in
    AllJoined milli is_joined after.summaries × NoRollups after.jobs
never_rolled_up_example =
    never_rolled_up milli is_joined (half_run 32400 ∷ half_run 34200 ∷ []) empty_store
      (half_run-IsPlain 32400, (half_run-IsPlain 34200, tt)) tt tt
