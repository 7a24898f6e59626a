-- ===== src/Tests/Captions.antt =====
-- An image whose caption is null, and its embedding.
use panoptic.Common.{true, none, some, List, [], ◌∷◌}
use panoptic.Webhook.Images.{pending, baseline, ImageRow}
use panoptic.Captions.{stored_as, Surroundings, set_caption}

abbrev answers : Surroundings
answers = record {
  read_file = λ path. some (255 ∷ []);
  call_vlm = λ bytes. some (123 ∷ 125 ∷ []);
  parse_caption = λ raw. stored_as none;
  strip = λ t. t;
  embed_text = λ t. some 1;
  embed_image = λ bytes t. some 2;
  upsert_caption_point = λ id v. some 3;
  upsert_vector_point = λ id v. some 4;
}

abbrev image : ImageRow
image = record {
  image_id = 7;
  metadata = record {
    event_id = 1;
    serial_number = 1422;
    camera_id = 2;
    bucket_start = 900;
    bucket_end = 1800;
    trigger = baseline;
    timestamp_ms = none;
    captured_at_utc = none;
    selection_policy_version = 1;
    context = 0;
  };
  storage_path = record { serial_number = 1422; camera_id = 2; day = 0; image_id = 7 };
  dimensions = none;
  size_bytes = 1;
  caption_status = pending;
  caption_text = none;
  caption_embedding_status = pending;
  caption_embedding_vector_id = none;
  image_embedding_status = pending;
  image_embedding_vector_id = none;
  is_searchable = true;
}

abbrev captioned : List ImageRow
captioned = set_caption none image ∷ []
