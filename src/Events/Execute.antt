-- ===== src/Events/Execute.antt =====
-- run_event_produce_job (services/panoptic_event_producer/executor.py): one job over the tables.
use panoptic.Common.{ℕ, Option, none, some, List, [], ◌∷◌}
use panoptic.Float.{Float}
use panoptic.Signals.{MarkerKey}
use panoptic.Events.{
  Identity, Trigger, alert, anomaly, novelty, baseline, bucket, image, Alias, AliasCache,
  resolve_canonical_camera_id, EventRow, ImageRow, BucketMarker, BucketRow,
  build_event_row_from_image, build_event_row_from_bucket_marker, insert_event, insert_events,
  find_image, find_bucket,
}

-- The payload's source_type with its id; `none` is a missing or empty id.
pub data Payload : Type 0 where
  of_image_id : Option ℕ → Payload
  of_bucket_id : Option ℕ → Payload
  of_unknown : Payload

pub data JobResult : Type 0 where
  succeeded failed_terminal : JobResult

module _ (F : Float) (digest : Identity → ℕ) where
  -- The events and the cache of camera aliases.
  pub record Store : Type 0 where
    pub events : List (EventRow F)
    pub cache : AliasCache

  pub record Tables : Type 0 where
    pub images : List (ImageRow F)
    pub buckets : List (BucketRow F)

  module _ (now : ℕ) (aliases : Option (List Alias)) where
    unfoldable pub insert_built : Option (EventRow F) → Store → Option (Store × JobResult)
    insert_built none st = none
    insert_built (some row) st =
        some (record st { events = insert_event F row st.events }, succeeded)

    unfoldable pub produce_from_image_row : ImageRow F → Store → Option (Store × JobResult)
    produce_from_image_row row st =
        let resolved =
          resolve_canonical_camera_id now aliases row.serial_number row.camera_id image st.cache in
        insert_built (build_event_row_from_image F digest row resolved.1)
          (record st { cache = resolved.0 })

    -- `row.trigger not in ("alert", "anomaly")`
    unfoldable pub produce_if_triggered : ImageRow F → Trigger → Store → Option (Store × JobResult)
    produce_if_triggered row alert st = produce_from_image_row row st
    produce_if_triggered row anomaly st = produce_from_image_row row st
    produce_if_triggered row novelty st = some (st, succeeded)
    produce_if_triggered row baseline st = some (st, succeeded)

    unfoldable pub produce_found_image : Option (ImageRow F) → Store → Option (Store × JobResult)
    produce_found_image none st = some (st, failed_terminal)
    produce_found_image (some row) st = produce_if_triggered row row.trigger st

    unfoldable pub known_event :
        BucketRow F → ℕ → BucketMarker F → Option MarkerKey → List (EventRow F) → List (EventRow F)
    known_event row camera marker none rest = rest
    known_event row camera marker (some key) rest =
        build_event_row_from_bucket_marker F digest row camera marker key ∷ rest

    -- The events of the markers whose keys are known.
    unfoldable pub marker_events : BucketRow F → ℕ → List (BucketMarker F) → List (EventRow F)
    marker_events row camera [] = []
    marker_events row camera (marker ∷ markers) =
        known_event row camera marker marker.event_type (marker_events row camera markers)

    unfoldable pub produce_markers : BucketRow F → List (BucketMarker F) → Store → Store
    produce_markers row [] st = st
    produce_markers row (marker ∷ markers) st =
        let resolved =
          resolve_canonical_camera_id now aliases row.serial_number row.camera_id bucket st.cache in
        record {
          events = insert_events F (marker_events row resolved.1 (marker ∷ markers)) st.events;
          cache = resolved.0;
        }

    unfoldable pub produce_found_bucket : Option (BucketRow F) → Store → Option (Store × JobResult)
    produce_found_bucket none st = some (st, failed_terminal)
    produce_found_bucket (some row) st = some (produce_markers row row.event_markers st, succeeded)

    -- `none` is an exception.
    unfoldable pub run_event_produce_job : Tables → Payload → Store → Option (Store × JobResult)
    run_event_produce_job t (of_image_id none) st = some (st, failed_terminal)
    run_event_produce_job t (of_image_id (some k)) st =
        produce_found_image (find_image F k t.images) st
    run_event_produce_job t (of_bucket_id none) st = some (st, failed_terminal)
    run_event_produce_job t (of_bucket_id (some k)) st =
        produce_found_bucket (find_bucket F k t.buckets) st
    run_event_produce_job t of_unknown st = some (st, failed_terminal)
