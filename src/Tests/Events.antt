-- ===== src/Tests/Events.antt =====
-- An event_produce job that is delivered twice.
use panoptic.Common.{ℕ, ◌+◌, ◌*◌, ◌≡◌, refl, none, some, [], ◌∷◌}
use panoptic.Float.{milli}
use panoptic.Signals.{spike}
use panoptic.Events.{
  Identity, of_image, of_marker, bucket, activity_spike, Alias, EventRow, BucketRow,
  resolve_canonical_camera_id, cached_camera, load_cache, build_event_row_from_bucket_marker,
  marker_event_type, clamp_unit, insert_event, insert_events, find_bucket,
}
use panoptic.Events.Execute.{
  of_bucket_id, succeeded, Store, Tables, produce_found_bucket, produce_markers, marker_events,
  known_event, run_event_produce_job,
}
use panoptic.Events.Rerun.{ChangesNothing, event_job_rerun}

abbrev digest : Identity → ℕ
digest (of_image k) = 2 * k
digest (of_marker b key t) = 2 * (b + t) + 1

-- A bucket with a spike marker and one of an unknown kind.
abbrev marked : BucketRow milli
marked = record {
  bucket_id = 4;
  serial_number = 1422;
  camera_id = 2;
  bucket_start_utc = 900;
  bucket_end_utc = 1800;
  event_markers =
      record {
        ts = 1000;
        event_type = some spike;
        label = some "activity_spike";
        confidence = some 800;
      }
      ∷ record { ts = 1000; event_type = none; label = none; confidence = none }
      ∷ [];
}

abbrev tables : Tables milli digest
tables = record { images = []; buckets = marked ∷ [] }

abbrev empty_store : Store milli digest
empty_store = record { events = []; cache = record { aliases = []; loaded_at = 0 } }

-- The alias of the camera that the second run finds.
abbrev alias : Alias
alias = record {
  serial_number = 1422;
  raw_camera_id = 2;
  payload_type = bucket;
  canonical_camera_id = 9;
}

abbrev spike_event : EventRow milli
spike_event = record {
  event_id = 2009;
  serial_number = 1422;
  camera_id = 2;
  scope_id = (1422, 2);
  event_type = activity_spike;
  source = bucket;
  severity = some 800;
  confidence = some 800;
  start_time_utc = 900;
  end_time_utc = 1800;
  event_time_utc = 1000;
  bucket_id = some 4;
  image_id = none;
  title = some "activity_spike";
}

abbrev run_store : Store milli digest
run_store = record empty_store { events = spike_event ∷ [] }

first_run :
    run_event_produce_job milli digest 100 none tables (of_bucket_id (some 4)) empty_store
    ≡ some (run_store, succeeded)
unfolding run_event_produce_job find_bucket produce_found_bucket produce_markers marker_events
    known_event resolve_canonical_camera_id cached_camera load_cache
    build_event_row_from_bucket_marker marker_event_type clamp_unit insert_event insert_events
first_run = refl

event_job_rerun_example : ChangesNothing milli digest run_store succeeded (
    run_event_produce_job milli digest 500
      (some (alias ∷ []))
      tables
      (of_bucket_id (some 4))
      run_store)
event_job_rerun_example =
    event_job_rerun milli digest 100 500 none (some (alias ∷ [])) tables (of_bucket_id (some 4))
      empty_store run_store run_store succeeded first_run (λ k there. there)
