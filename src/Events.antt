-- ===== src/Events.antt =====
-- Event rows (shared/events/build.py), the camera aliases that they use (shared/canonical/camera.py)
-- and the event_produce executor (services/panoptic_event_producer/executor.py).
-- Ids are opaque strings that are only compared, so they are numbers; `none` is a missing or empty
-- one. The SHA-256 of an identity's JSON is a parameter, a function of the identity.
pub mod Execute
pub mod Rows
pub mod Rerun
use Prim.Native.String.{String}
use panoptic.Common.{
  ℕ, ◌+◌, ◌-◌, Bool, true, false, ◌&&◌, Option, none, some, List, [], ◌∷◌, ◌++◌, if◌then◌else◌, ltb,
  ◌==◌, any,
}
use panoptic.Float.{Float, py_max, py_min}
use panoptic.Signals.{MarkerKey}

pub data EventType : Type 0 where
  alert_created anomaly_detected activity_spike after_hours_activity activity_drop : EventType
  activity_start late_start underperforming scene_change : EventType

pub data Trigger : Type 0 where
  alert anomaly novelty baseline : Trigger

-- What the hash of an event id is taken over.
pub data Identity : Type 0 where
  of_image : ℕ → Identity
  of_marker : ℕ → MarkerKey → ℕ → Identity

-- _MARKER_TO_EVENT_TYPE
unfoldable pub marker_event_type : MarkerKey → EventType
marker_event_type MarkerKey.spike = activity_spike
marker_event_type MarkerKey.after_hours = after_hours_activity
marker_event_type MarkerKey.drop = activity_drop
marker_event_type MarkerKey.start = activity_start
marker_event_type MarkerKey.late_start = EventType.late_start
marker_event_type MarkerKey.underperforming = EventType.underperforming

-- _TRIGGER_TO_EVENT_TYPE
unfoldable pub trigger_event_type : Trigger → Option EventType
trigger_event_type alert = some alert_created
trigger_event_type anomaly = some anomaly_detected
trigger_event_type novelty = some scene_change
trigger_event_type baseline = none

-- _image_title
unfoldable pub image_title : EventType → String
image_title alert_created = "Alert created"
image_title anomaly_detected = "Anomaly detected"
image_title scene_change = "Scene change"
image_title activity_spike = "activity_spike"
image_title after_hours_activity = "after_hours_activity"
image_title activity_drop = "activity_drop"
image_title activity_start = "activity_start"
image_title EventType.late_start = "late_start"
image_title EventType.underperforming = "underperforming"

pub data PayloadType : Type 0 where
  bucket image : PayloadType

abbrev pub payload_eq : PayloadType → PayloadType → Bool
payload_eq bucket bucket = true
payload_eq image image = true
payload_eq _ _ = false

pub record Alias : Type 0 where
  pub serial_number : ℕ
  pub raw_camera_id : ℕ
  pub payload_type : PayloadType
  pub canonical_camera_id : ℕ

-- The cache of aliases, with the time of its load.
pub record AliasCache : Type 0 where
  pub aliases : List Alias
  pub loaded_at : ℕ

-- _CACHE.get(key, raw_camera_id). The columns of the key are the table's primary key.
unfoldable pub cached_camera : ℕ → ℕ → PayloadType → List Alias → ℕ
cached_camera serial raw payload [] = raw
cached_camera serial raw payload (a ∷ aliases) =
    if a.serial_number == serial && a.raw_camera_id == raw && payload_eq a.payload_type payload
    then a.canonical_camera_id
    else cached_camera serial raw payload aliases

-- _load_cache; `none` is the exception, which leaves the cache.
unfoldable pub load_cache : ℕ → Option (List Alias) → AliasCache → AliasCache
load_cache now none cache = cache
load_cache now (some rows) cache = record { aliases = rows; loaded_at = now }

-- resolve_canonical_camera_id, with the answer of the SELECT that it may make.
unfoldable pub resolve_canonical_camera_id :
    ℕ → Option (List Alias) → ℕ → ℕ → PayloadType → AliasCache → AliasCache × ℕ
resolve_canonical_camera_id now rows serial raw payload cache =
    let fresh = if ltb 300 (now - cache.loaded_at) then load_cache now rows cache else cache in
    (fresh, cached_camera serial raw payload fresh.aliases)

module _ (F : Float) where
  open F use {Num, lt, sub, literal}

  pub record EventRow : Type 0 where
    pub event_id : ℕ
    pub serial_number : ℕ
    pub camera_id : ℕ
    pub scope_id : ℕ × ℕ
    pub event_type : EventType
    pub source : PayloadType
    pub severity : Option Num
    pub confidence : Option Num
    pub start_time_utc : ℕ
    pub end_time_utc : ℕ
    pub event_time_utc : ℕ
    pub bucket_id : Option ℕ
    pub image_id : Option ℕ
    pub title : Option String

  pub record ImageRow : Type 0 where
    pub image_id : ℕ
    pub serial_number : ℕ
    pub camera_id : ℕ
    pub trigger : Trigger
    pub bucket_start_utc : ℕ
    pub bucket_end_utc : ℕ
    pub captured_at_utc : Option ℕ
    pub similarity : Option Num
    pub max_anomaly_score : Option Num

  -- A marker as the bucket row holds it; `none` is a key that the executor does not know.
  pub record BucketMarker : Type 0 where
    pub ts : ℕ
    pub event_type : Option MarkerKey
    pub label : Option String
    pub confidence : Option Num

  pub record BucketRow : Type 0 where
    pub bucket_id : ℕ
    pub serial_number : ℕ
    pub camera_id : ℕ
    pub bucket_start_utc : ℕ
    pub bucket_end_utc : ℕ
    pub event_markers : List BucketMarker

  unfoldable pub clamp_unit : Option Num → Option Num
  clamp_unit none = none
  clamp_unit (some v) =
      if lt v (literal 0 0)
      then some (literal 0 0)
      else (if lt (literal 1 0) v then some (literal 1 0) else some v)

  unfoldable pub dissimilarity : Option Num → Option Num
  dissimilarity none = none
  dissimilarity (some sim) =
      some (py_max F (literal 0 0) (py_min F (literal 1 0) (sub (literal 1 0) sim)))

  unfoldable pub image_severity : ImageRow → Trigger → Option Num
  image_severity row novelty = dissimilarity row.similarity
  image_severity row alert = row.max_anomaly_score
  image_severity row anomaly = row.max_anomaly_score
  image_severity row baseline = row.max_anomaly_score

  abbrev or_start : Option ℕ → ℕ → ℕ
  or_start none t = t
  or_start (some s) t = s

  module _ (digest : Identity → ℕ) where
    unfoldable pub image_event : ImageRow → ℕ → EventType → EventRow
    image_event row camera type = record {
      event_id = digest (of_image row.image_id);
      serial_number = row.serial_number;
      camera_id = camera;
      scope_id = (row.serial_number, camera);
      event_type = type;
      source = image;
      severity = clamp_unit (image_severity row row.trigger);
      confidence = clamp_unit (image_severity row row.trigger);
      start_time_utc = row.bucket_start_utc;
      end_time_utc = row.bucket_end_utc;
      event_time_utc = or_start row.captured_at_utc row.bucket_start_utc;
      bucket_id = none;
      image_id = some row.image_id;
      title = some (image_title type);
    }

    unfoldable pub built : ImageRow → ℕ → Option EventType → Option EventRow
    built row camera none = none
    built row camera (some type) = some (image_event row camera type)

    -- `none` is the ValueError. The camera is the canonical one.
    unfoldable pub build_event_row_from_image : ImageRow → ℕ → Option EventRow
    build_event_row_from_image row camera = built row camera (trigger_event_type row.trigger)

    unfoldable pub build_event_row_from_bucket_marker :
        BucketRow → ℕ → BucketMarker → MarkerKey → EventRow
    build_event_row_from_bucket_marker row camera marker key = record {
      event_id = digest (of_marker row.bucket_id key marker.ts);
      serial_number = row.serial_number;
      camera_id = camera;
      scope_id = (row.serial_number, camera);
      event_type = marker_event_type key;
      source = bucket;
      severity = clamp_unit marker.confidence;
      confidence = clamp_unit marker.confidence;
      start_time_utc = row.bucket_start_utc;
      end_time_utc = row.bucket_end_utc;
      event_time_utc = marker.ts;
      bucket_id = some row.bucket_id;
      image_id = none;
      title = marker.label;
    }

  -- INSERT ... ON CONFLICT (event_id) DO NOTHING
  unfoldable pub insert_event : EventRow → List EventRow → List EventRow
  insert_event row events =
      if any (λ e. e.event_id == row.event_id) events then events else events ++ row ∷ []

  unfoldable pub insert_events : List EventRow → List EventRow → List EventRow
  insert_events [] events = events
  insert_events (row ∷ rows) events = insert_events rows (insert_event row events)

  unfoldable pub find_image : ℕ → List ImageRow → Option ImageRow
  find_image k [] = none
  find_image k (row ∷ rows) = if row.image_id == k then some row else find_image k rows

  unfoldable pub find_bucket : ℕ → List BucketRow → Option BucketRow
  find_bucket k [] = none
  find_bucket k (row ∷ rows) = if row.bucket_id == k then some row else find_bucket k rows
