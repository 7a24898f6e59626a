-- ===== src/Webhook/Images.antt =====
-- receive_image (services/trailer_webhook/app.py) and generate_image_id (shared/schemas/image.py).
-- Ids are numbers, and the SHA-256 of an identity is a parameter. A file is its path and its bytes.
-- The statements on Postgres and the write of the file go through or raise.
use panoptic.Common.{
  ℕ, ◌/◌, Bool, true, false, not, Option, none, some, List, [], ◌∷◌, ◌++◌, if◌then◌else◌, ltb, ◌==◌,
  any, select, length,
}
use panoptic.Jobs.Model.{Text, JobType, image_caption, event_produce}
use panoptic.Streams.{StreamEntry}
use panoptic.Ingest.{enqueue_new}
use panoptic.Ingest.Tables.{
  KeyedJob, image_caption_key, event_produce_image_key, pending_job, insert_job,
}

pub data Trigger : Type 0 where
  alert anomaly baseline novelty : Trigger

-- `trigger in ("alert", "anomaly")`
abbrev pub makes_event : Trigger → Bool
makes_event alert = true
makes_event anomaly = true
makes_event baseline = false
makes_event novelty = false

pub record ImageMetadata : Type 0 where
  pub event_id : ℕ
  pub serial_number : ℕ
  pub camera_id : ℕ
  pub bucket_start : ℕ
  pub bucket_end : ℕ
  pub trigger : Trigger
  pub timestamp_ms : Option ℕ
  pub captured_at_utc : Option ℕ
  pub selection_policy_version : ℕ
  pub context : ℕ

-- What generate_image_id hashes: `none` is the literal "baseline".
pub record ImageIdentity : Type 0 where
  pub bucket_end : ℕ
  pub bucket_start : ℕ
  pub camera_id : ℕ
  pub serial_number : ℕ
  pub timestamp_ms : Option ℕ
  pub trigger : Trigger

-- <root>/<serial>/<camera>/<year>/<month>/<day>/<image_id>.jpg, with the day as a number.
pub record StoragePath : Type 0 where
  pub serial_number : ℕ
  pub camera_id : ℕ
  pub day : ℕ
  pub image_id : ℕ

pub data ImageStatus : Type 0 where
  pending success failed : ImageStatus

-- A row of panoptic_images.
pub record ImageRow : Type 0 where
  pub image_id : ℕ
  pub metadata : ImageMetadata
  pub storage_path : StoragePath
  pub dimensions : Option (ℕ × ℕ)
  pub size_bytes : ℕ
  pub caption_status : ImageStatus
  pub caption_text : Option Text
  pub caption_embedding_status : ImageStatus
  pub caption_embedding_vector_id : Option ℕ
  pub image_embedding_status : ImageStatus
  pub image_embedding_vector_id : Option ℕ
  pub is_searchable : Bool

-- The form: the metadata (none where it is no JSON, and then none where the schema refuses it), and
-- the upload with its content type.
pub record Upload : Type 0 where
  pub metadata : Option (Option ImageMetadata)
  pub is_jpeg : Bool
  pub bytes : List ℕ

pub record Images : Type 0 where
  pub rows : List ImageRow
  pub jobs : List KeyedJob
  pub files : List (StoragePath × List ℕ)

pub data ImageResponse : Type 0 where
  invalid_metadata_json metadata_invalid not_jpeg empty_image too_large store_failed server_error :
      ImageResponse
  duplicate_image accepted_image : ℕ → ImageResponse

abbrev pub date_ref : ImageMetadata → Option ℕ → ℕ
date_ref m none = m.bucket_start
date_ref m (some captured) = captured

unfoldable pub storage_path_of : ImageMetadata → ℕ → StoragePath
storage_path_of m image_id = record {
  serial_number = m.serial_number;
  camera_id = m.camera_id;
  day = date_ref m m.captured_at_utc / 86400;
  image_id = image_id;
}

abbrev pub has_image : ℕ → List ImageRow → Bool
has_image id rows = any (λ r. r.image_id == id) rows

-- makedirs, open and write: open in the mode wb leaves a file, and a write that raises may have left some
-- of the bytes in it.
pub data FileWrite : Type 0 where
  written unopened : FileWrite
  cut : List ℕ → FileWrite

-- Which calls go through: the INSERT of the image, the write, the DELETE with its commit, and the
-- INSERTs of the jobs with theirs.
pub record ImageCalls : Type 0 where
  pub insert_up : Bool
  pub write : FileWrite
  pub delete_up : Bool
  pub jobs_up : Bool

-- DELETE FROM panoptic_images WHERE image_id = ...
abbrev pub delete_image : ℕ → List ImageRow → List ImageRow
delete_image id rows = select (λ r. not (r.image_id == id)) rows

abbrev pub is_void : List ℕ → Bool
is_void [] = true
is_void (b ∷ bs) = false

-- The images with what the handler adds to the streams, and its response.
pub record Handled : Type 0 where
  pub images : Images
  pub added : List StreamEntry
  pub response : ImageResponse

unfoldable pub refused : Images → ImageResponse → Handled
refused st response = record { images = st; added = []; response = response }

unfoldable pub add_file : StoragePath → List ℕ → Images → Images
add_file path bytes st = record st { files = (path, bytes) ∷ st.files }

module _ (digest : ImageIdentity → ℕ) (dimensions_of : List ℕ → Option (ℕ × ℕ))
    (max_size max_attempts : ℕ) where
  unfoldable pub generate_image_id : ImageMetadata → ℕ
  generate_image_id m = digest (record {
    bucket_end = m.bucket_end;
    bucket_start = m.bucket_start;
    camera_id = m.camera_id;
    serial_number = m.serial_number;
    timestamp_ms = m.timestamp_ms;
    trigger = m.trigger;
  })

  unfoldable pub image_row : ImageMetadata → List ℕ → ImageRow
  image_row m bytes =
      let id = generate_image_id m in
      record {
        image_id = id;
        metadata = m;
        storage_path = storage_path_of m id;
        dimensions = dimensions_of bytes;
        size_bytes = length bytes;
        caption_status = pending;
        caption_text = none;
        caption_embedding_status = pending;
        caption_embedding_vector_id = none;
        image_embedding_status = pending;
        image_embedding_vector_id = none;
        is_searchable = true;
      }

  unfoldable pub caption_job : ℕ → ImageMetadata → KeyedJob
  caption_job job_id m = record {
    job_key = image_caption_key (generate_image_id m);
    job = pending_job job_id image_caption m.serial_number max_attempts;
  }

  unfoldable pub image_event_job : ℕ → ImageMetadata → KeyedJob
  image_event_job job_id m = record {
    job_key = event_produce_image_key (generate_image_id m);
    job = pending_job job_id event_produce m.serial_number max_attempts;
  }

  unfoldable pub insert_image_event_job : ℕ → ImageMetadata → List KeyedJob → List KeyedJob × Bool
  insert_image_event_job job_id m jobs =
      if makes_event m.trigger then insert_job (image_event_job job_id m) jobs else (jobs, false)

  -- The two jobs, the commit, and the messages: `up` says whether the XADD goes through.
  unfoldable pub enqueue_image :
      (JobType → Bool) → ℕ → ℕ → ImageMetadata → List ℕ → List ImageRow → Images → Handled
  enqueue_image up job_id event_job_id m bytes rows st =
      let with_caption = insert_job (caption_job job_id m) st.jobs in
      let with_event = insert_image_event_job event_job_id m with_caption.0 in
      record {
        images = record {
          rows = rows;
          jobs = with_event.0;
          files = (storage_path_of m (generate_image_id m), bytes) ∷ st.files;
        };
        added =
            enqueue_new with_caption.1 up image_caption job_id m.serial_number
            ++ enqueue_new with_event.1 up event_produce event_job_id m.serial_number;
        response = accepted_image (generate_image_id m);
      }

  -- The except branch of the write, on the files that the write has left.
  unfoldable pub unwritten : ImageCalls → ImageMetadata → List ℕ → Images → Handled
  unwritten calls m bytes st =
      if calls.delete_up
      then refused
          (record st {
            rows = delete_image (generate_image_id m) (st.rows ++ image_row m bytes ∷ []);
          })
          store_failed
      else refused st server_error

  -- From the write on.
  unfoldable pub write_image :
      (JobType → Bool) → ImageCalls → FileWrite → ℕ → ℕ → ImageMetadata → List ℕ → Images → Handled
  write_image up calls written job_id event_job_id m bytes st =
      if calls.jobs_up
      then enqueue_image up job_id event_job_id m bytes (st.rows ++ image_row m bytes ∷ []) st
      else refused (add_file (storage_path_of m (generate_image_id m)) bytes st) server_error
  write_image up calls unopened job_id event_job_id m bytes st = unwritten calls m bytes st
  write_image up calls (cut left) job_id event_job_id m bytes st =
      unwritten calls m bytes (add_file (storage_path_of m (generate_image_id m)) left st)

  -- From the INSERT on. A raised error that is not caught rolls the transaction back.
  unfoldable pub store_image :
      (JobType → Bool) → ImageCalls → ℕ → ℕ → ImageMetadata → List ℕ → Images → Handled
  store_image up calls job_id event_job_id m bytes st =
      if not calls.insert_up
      then refused st server_error
      else if has_image (generate_image_id m) st.rows
      then refused st (duplicate_image (generate_image_id m))
      else write_image up calls calls.write job_id event_job_id m bytes st

  unfoldable pub check_image :
      (JobType → Bool) → ImageCalls → ℕ → ℕ → Upload → ImageMetadata → Images → Handled
  check_image up calls job_id event_job_id u m st =
      if not u.is_jpeg
      then refused st not_jpeg
      else if is_void u.bytes
      then refused st empty_image
      else if ltb max_size (length u.bytes)
      then refused st too_large
      else store_image up calls job_id event_job_id m u.bytes st

  unfoldable pub receive_metadata :
      (JobType → Bool)
      → ImageCalls
      → ℕ
      → ℕ
      → Upload
      → Option (Option ImageMetadata)
      → Images
      → Handled
  receive_metadata up calls job_id event_job_id u none st = refused st invalid_metadata_json
  receive_metadata up calls job_id event_job_id u (some none) st = refused st metadata_invalid
  receive_metadata up calls job_id event_job_id u (some (some m)) st =
      check_image up calls job_id event_job_id u m st

  unfoldable pub receive_image : (JobType → Bool) → ImageCalls → ℕ → ℕ → Upload → Images → Handled
  receive_image up calls job_id event_job_id u st =
      receive_metadata up calls job_id event_job_id u u.metadata st
