-- ===== src/Captions.antt =====
-- The executors of the image jobs on the rows of panoptic_images: run_image_caption_job
-- (services/panoptic_image_caption_worker/executor.py), run_caption_embed_job
-- (services/panoptic_caption_embed_worker/executor.py) and run_image_embed_job
-- (services/panoptic_image_embed_worker/executor.py). `none` is an exception that leaves the
-- executor. The files, the models, json.loads and Qdrant are parameters: each answers, or raises.
-- The models' names and the payload of a Qdrant point are left out.
pub mod Chain
use panoptic.Common.{
  ℕ, Bool, true, false, ◌&&◌, Option, none, some, List, [], ◌∷◌, if◌then◌else◌, ◌==◌, map,
}
use panoptic.Jobs.Model.{Text}
use panoptic.Webhook.Images.{StoragePath, ImageStatus, pending, success, failed, ImageRow}

pub data ImageJobResult : Type 0 where
  succeeded failed_terminal : ImageJobResult

-- json.loads(...)["caption"]: not there, on the errors that the executor catches; a value of JSON, as the
-- column caption_text stores it, null as NULL; or one that the driver or the column refuses.
pub data ParsedCaption : Type 0 where
  no_caption unstorable : ParsedCaption
  stored_as : Option Text → ParsedCaption

pub record Surroundings : Type 0 where
  -- the bytes of a file, none where it is missing
  pub read_file : StoragePath → Option (List ℕ)
  -- VLMClient.call on an image
  pub call_vlm : List ℕ → Option Text
  pub parse_caption : Text → ParsedCaption
  pub strip : Text → Text
  -- EmbeddingClient.embed, and VLEmbeddingClient.embed_image_bytes with the caption
  pub embed_text : Text → Option ℕ
  pub embed_image : List ℕ → Text → Option ℕ
  -- the upsert of an image's point with a vector: the point's id
  pub upsert_caption_point : ℕ → ℕ → Option ℕ
  pub upsert_vector_point : ℕ → ℕ → Option ℕ

abbrev pub is_success : ImageStatus → Bool
is_success success = true
is_success pending = false
is_success failed = false

abbrev pub has_text : Option Text → Bool
has_text none = false
has_text (some []) = false
has_text (some (c ∷ t)) = true

abbrev pub text_of : Option Text → Text
text_of none = []
text_of (some t) = t

unfoldable pub find_row : ℕ → List ImageRow → Option ImageRow
find_row id [] = none
find_row id (r ∷ rows) = if r.image_id == id then some r else find_row id rows

-- UPDATE panoptic_images SET ... WHERE image_id = :image_id
unfoldable pub update_row : ℕ → (ImageRow → ImageRow) → List ImageRow → List ImageRow
update_row id f rows = map (λ r. if r.image_id == id then f r else r) rows

abbrev pub set_caption_failed : ImageRow → ImageRow
set_caption_failed r = record r { caption_status = failed }

abbrev pub set_caption : Option Text → ImageRow → ImageRow
set_caption caption r = record r { caption_status = success; caption_text = caption }

abbrev pub set_caption_embedding : ℕ → ImageRow → ImageRow
set_caption_embedding point r = record r {
  caption_embedding_status = success;
  caption_embedding_vector_id = some point;
}

abbrev pub set_image_embedding : ℕ → ImageRow → ImageRow
set_image_embedding point r = record r {
  image_embedding_status = success;
  image_embedding_vector_id = some point;
}

module _ (S : Surroundings) where
  unfoldable pub store_caption :
      ℕ → Option Text → List ImageRow → ImageJobResult × Bool × List ImageRow
  store_caption id caption rows = (succeeded, true, update_row id (set_caption caption) rows)

  -- The text itself, where it is no JSON with a caption.
  unfoldable pub store_fallback : ℕ → Text → List ImageRow → ImageJobResult × Bool × List ImageRow
  store_fallback id [] rows = (failed_terminal, false, update_row id set_caption_failed rows)
  store_fallback id (c ∷ t) rows = store_caption id (some (c ∷ t)) rows

  unfoldable pub store_parsed :
      ℕ → Text → ParsedCaption → List ImageRow → Option (ImageJobResult × Bool × List ImageRow)
  store_parsed id raw no_caption rows = some (store_fallback id (S.strip raw) rows)
  store_parsed id raw unstorable rows = none
  store_parsed id raw (stored_as caption) rows = some (store_caption id caption rows)

  unfoldable pub caption_called :
      ℕ → Option Text → List ImageRow → Option (ImageJobResult × Bool × List ImageRow)
  caption_called id none rows = none
  caption_called id (some raw) rows = store_parsed id raw (S.parse_caption raw) rows

  unfoldable pub caption_file :
      ℕ → Option (List ℕ) → List ImageRow → Option (ImageJobResult × Bool × List ImageRow)
  caption_file id none rows = some (failed_terminal, false, rows)
  caption_file id (some jpeg) rows = caption_called id (S.call_vlm jpeg) rows

  unfoldable pub caption_row :
      ℕ → Option ImageRow → List ImageRow → Option (ImageJobResult × Bool × List ImageRow)
  caption_row id none rows = some (failed_terminal, false, rows)
  caption_row id (some r) rows =
      if is_success r.caption_status
      then some (succeeded, false, rows)
      else caption_file id (S.read_file r.storage_path) rows

  -- The result, should_chain, and the rows.
  unfoldable pub run_image_caption_job :
      ℕ → List ImageRow → Option (ImageJobResult × Bool × List ImageRow)
  run_image_caption_job id rows = caption_row id (find_row id rows) rows

  unfoldable pub caption_upserted :
      ℕ → Option ℕ → List ImageRow → Option (ImageJobResult × List ImageRow)
  caption_upserted id none rows = none
  caption_upserted id (some point) rows =
      some (succeeded, update_row id (set_caption_embedding point) rows)

  unfoldable pub caption_embedded :
      ℕ → Option ℕ → List ImageRow → Option (ImageJobResult × List ImageRow)
  caption_embedded id none rows = none
  caption_embedded id (some vector) rows =
      caption_upserted id (S.upsert_caption_point id vector) rows

  unfoldable pub embed_row :
      ℕ → Option ImageRow → List ImageRow → Option (ImageJobResult × List ImageRow)
  embed_row id none rows = some (failed_terminal, rows)
  embed_row id (some r) rows =
      if is_success r.caption_embedding_status
      then some (succeeded, rows)
      else if is_success r.caption_status && has_text r.caption_text
      then caption_embedded id (S.embed_text (text_of r.caption_text)) rows
      else some (failed_terminal, rows)

  unfoldable pub run_caption_embed_job : ℕ → List ImageRow → Option (ImageJobResult × List ImageRow)
  run_caption_embed_job id rows = embed_row id (find_row id rows) rows

  unfoldable pub image_upserted :
      ℕ → Option ℕ → List ImageRow → Option (ImageJobResult × List ImageRow)
  image_upserted id none rows = none
  image_upserted id (some point) rows =
      some (succeeded, update_row id (set_image_embedding point) rows)

  unfoldable pub image_embedded :
      ℕ → Option ℕ → List ImageRow → Option (ImageJobResult × List ImageRow)
  image_embedded id none rows = none
  image_embedded id (some vector) rows = image_upserted id (S.upsert_vector_point id vector) rows

  unfoldable pub embed_file :
      ℕ → Option Text → Option (List ℕ) → List ImageRow → Option (ImageJobResult × List ImageRow)
  embed_file id caption none rows = some (failed_terminal, rows)
  embed_file id caption (some bytes) rows =
      image_embedded id (S.embed_image bytes (text_of caption)) rows

  unfoldable pub embed_image_row :
      ℕ → Option ImageRow → List ImageRow → Option (ImageJobResult × List ImageRow)
  embed_image_row id none rows = some (failed_terminal, rows)
  embed_image_row id (some r) rows =
      if is_success r.image_embedding_status
      then some (succeeded, rows)
      else embed_file id r.caption_text (S.read_file r.storage_path) rows

  unfoldable pub run_image_embed_job : ℕ → List ImageRow → Option (ImageJobResult × List ImageRow)
  run_image_embed_job id rows = embed_image_row id (find_row id rows) rows
