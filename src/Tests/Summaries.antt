-- ===== src/Tests/Summaries.antt =====
-- The theorems on the tables of summaries and rollup states at concrete inputs.
use panoptic.Common.{
  ℕ, ◌+◌, ◌≡◌, refl, Bool, true, false, none, some, is_some, List, [], ◌∷◌, if◌then◌else◌, ◌&&◌,
  arith,
}
use panoptic.Float.{milli}
use panoptic.Summaries.{
  camera, metadata_only, pending, labelled, SummaryWindow, SummaryRecord, window_eq, is_latest_in,
  find_latest, has_summary, upsert_summary, upsert_found, supersede, insert_summary,
}
use panoptic.Summaries.Latest.{IsSound}
use panoptic.Summaries.Upsert.{latest_after, upsert_summary_latest}
use panoptic.Summaries.Rollup.{
  RollupTarget, SummaryStore, find_state, parent_key, put_row,
  upsert_rollup_state_and_maybe_enqueue,
}
use panoptic.Summaries.Triggered.{Triggers, rollup-Triggers}

abbrev nine : SummaryWindow
nine = record {
  serial_number = 7;
  level = camera;
  scope_id = 71;
  start_time = 32400;
  end_time = 33300;
}

abbrev pub row_of : ℕ → Bool → SummaryRecord milli
row_of id latest = record {
  summary_id = id;
  window = nine;
  summary = [];
  key_events = labelled (104 ∷ []) ∷ [];
  coverage = record { expected = 1; present = 1; ratio = 1000; missing = [] };
  summary_mode = metadata_only;
  frames_used = 0;
  frame_timestamps = [];
  confidence = 300;
  embedding_status = pending;
  version = 1;
  is_latest = latest;
  superseded_by = none;
  model_profile = 1;
  prompt_version = 1;
  source_refs = [];
  created_at = 0;
  updated_at = 0;
}

-- An older summary, and the one that superseded it.
abbrev two_versions : List (SummaryRecord milli)
two_versions = row_of 1 false ∷ row_of 2 true ∷ []

two_versions-IsSound : IsSound milli two_versions
unfolding is_latest_in
two_versions-IsSound = record { ids = λ k. ground arith; latest = λ w. ground arith }

upsert_summary_latest_example :
    IsSound milli (upsert_summary milli 50 (row_of 1 true) two_versions).0
    × (find_latest milli nine (upsert_summary milli 50 (row_of 1 true) two_versions).0 ≡ (
        if window_eq nine nine
        then latest_after milli 50
            (row_of 1 true)
            (has_summary milli 1 two_versions)
            (find_latest milli nine two_versions)
        else find_latest milli nine two_versions))
upsert_summary_latest_example =
    upsert_summary_latest milli 50 (row_of 1 true) two_versions two_versions-IsSound nine

-- The older summary comes again, and none is the latest.
reissued_lost :
    find_latest milli nine (upsert_summary milli 50 (row_of 1 true) two_versions).0 ≡ none
unfolding upsert_summary find_latest upsert_found is_latest_in window_eq supersede insert_summary
    has_summary
reissued_lost = refl

abbrev pub sum_digest : List ℕ → ℕ
sum_digest [] = 0
sum_digest (i ∷ is) = i + sum_digest is

abbrev target : RollupTarget
target = record {
  serial_number = 7;
  camera_id = 1;
  bucket_start_utc = 32400;
  bucket_end_utc = 34200;
  model_profile = 1;
  prompt_version = 1;
}

abbrev pub stored_two : SummaryStore milli
stored_two = record { summaries = two_versions; states = []; jobs = [] }

-- A camera whose id is the scope id of the rows.
abbrev scope_target : RollupTarget
scope_target = record target { camera_id = 71 }

-- Of two half hours one is there, which is enough.
rollup-Triggers_example :
    let o = upsert_rollup_state_and_maybe_enqueue milli sum_digest 90 scope_target stored_two in
    let row =
      put_row milli scope_target (find_state milli (parent_key scope_target) stored_two.states) in
    (o.0.summaries ≡ two_versions)
    × (find_state milli (parent_key scope_target) o.0.states ≡ some row)
    × ((is_some o.1 && milli.lt row.coverage_ratio (milli.literal 5 1)) ≡ false)
    × Triggers milli sum_digest 90 scope_target two_versions [] o.1 o.0.jobs
rollup-Triggers_example = rollup-Triggers milli sum_digest 90 scope_target stored_two
