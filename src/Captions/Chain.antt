-- ===== src/Captions/Chain.antt =====
-- An image's caption and then its embedding.
use panoptic.Common.{ℕ, ◌≡◌, Bool, Option, none, some, List, [], ◌∷◌}
use panoptic.Jobs.Model.{Text}
use panoptic.Webhook.Images.{ImageRow}
use panoptic.Captions.{
  ImageJobResult, failed_terminal, Surroundings, update_row, set_caption, caption_embedded,
}

module _ (S : Surroundings) (id : ℕ) (rows rows' : List ImageRow) where
  -- The rows are those in which the caption is set.
  abbrev Captioned : Type 0
  Captioned = (caption : Option Text) × (update_row id (set_caption caption) rows ≡ rows')

  -- What the embedding makes of a caption.
  abbrev pub embedding_outcome : Option Text → Option (ImageJobResult × List ImageRow)
  embedding_outcome none = some (failed_terminal, rows')
  embedding_outcome (some []) = some (failed_terminal, rows')
  embedding_outcome (some (c ∷ t)) = caption_embedded S id (S.embed_text (c ∷ t)) rows'
