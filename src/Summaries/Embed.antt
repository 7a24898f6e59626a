-- ===== src/Summaries/Embed.antt =====
-- run_embedding_job (services/panoptic_embedding_worker/executor.py). `none` is an exception. The
-- embedding, the point store, str.lower and the order in which a set is listed are parameters.
use panoptic.Common.{
  ℕ, Bool, true, false, Option, none, some, List, [], ◌∷◌, ◌++◌, if◌then◌else◌, ◌==◌, map, codes,
}
use panoptic.Float.{Float}
use panoptic.Jobs.Model.{Text}
use panoptic.Citations.{add_once}
use panoptic.Summaries.{
  SummaryWindow, KeyEvent, labelled, unlabelled, mislabelled, unhashable, EmbeddingStatus, pending,
  success, failed, complete, SummaryRecord,
}
use panoptic.Summaries.Llm.{is_infix}
use panoptic.Summaries.Execute.{SummaryJobState, succeeded, failed_terminal}

-- _LABEL_CONTAINS
abbrev pub label_contains : List (Text × Text)
label_contains =
    (codes "underperform", codes "underperforming")
    ∷ (codes "late", codes "late start")
    ∷ (codes "after", codes "after hours activity")
    ∷ (codes "start", codes "start of activity")
    ∷ (codes "spike", codes "spike in activity")
    ∷ (codes "drop", codes "drop in activity")
    ∷ []

unfoldable pub normalize_label : List (Text × Text) → Text → Option Text
normalize_label [] lowered = none
normalize_label ((keyword, canonical) ∷ table) lowered =
    if is_infix keyword lowered then some canonical else normalize_label table lowered

-- e.get("label", str(e)); a label that is no text has no lower(), which raises.
unfoldable pub event_label : KeyEvent → Option Text
event_label (labelled l) = some l
event_label (unlabelled shown) = some shown
event_label mislabelled = none
event_label unhashable = none

abbrev pub add_label : Text → Option (List Text) → Option (List Text)
add_label l none = none
add_label l (some ls) = some (l ∷ ls)

abbrev pub with_label : Option Text → Option (List Text) → Option (List Text)
with_label none rest = none
with_label (some l) rest = add_label l rest

unfoldable pub event_labels : List KeyEvent → Option (List Text)
event_labels [] = some []
event_labels (e ∷ events) = with_label (event_label e) (event_labels events)

abbrev pub add_normalized : Option Text → List Text → List Text
add_normalized none ls = ls
add_normalized (some c) ls = add_once c ls

-- The set of the canonical labels, by their first occurrence.
unfoldable pub normalized_labels : (Text → Text) → List Text → List Text → List Text
normalized_labels lower [] found = found
normalized_labels lower (l ∷ ls) found =
    normalized_labels lower ls (add_normalized (normalize_label label_contains (lower l)) found)

-- " ".join
abbrev pub join_spaced : List Text → Text
join_spaced [] = []
join_spaced (t ∷ []) = t
join_spaced (t ∷ u ∷ ts) = t ++ (codes " " ++ join_spaced (u ∷ ts))

abbrev pub is_complete : EmbeddingStatus → Bool
is_complete complete = true
is_complete pending = false
is_complete success = false
is_complete failed = false

module _ (F : Float) where
  pub record QdrantPayload : Type 0 where
    pub window : SummaryWindow
    pub summary : Text
    pub key_events : List Text
    pub key_events_labels : List Text
    pub confidence : F.Num

  pub record Embedder : Type 0 where
    pub lower : Text → Text
    pub list_of_set : List Text → List Text
    -- none is an exception
    pub embed : Text → Option ℕ
    -- whether the point's upsert goes through
    pub upsert : ℕ → ℕ → QdrantPayload → Bool

  unfoldable pub find_summary : ℕ → List (SummaryRecord F) → Option (SummaryRecord F)
  find_summary id [] = none
  find_summary id (r ∷ rows) = if r.summary_id == id then some r else find_summary id rows

  abbrev pub set_complete : ℕ → SummaryRecord F → SummaryRecord F
  set_complete now r = record r { embedding_status = complete; updated_at = now }

  -- UPDATE ... WHERE summary_id = :summary_id
  unfoldable pub mark_complete : ℕ → ℕ → List (SummaryRecord F) → List (SummaryRecord F)
  mark_complete now id rows = map (λ r. if r.summary_id == id then set_complete now r else r) rows

  module _ (E : Embedder) where
    unfoldable pub summary_payload : SummaryRecord F → List Text → List Text → QdrantPayload
    summary_payload r labels normalized = record {
      window = r.window;
      summary = r.summary;
      key_events = labels;
      key_events_labels = normalized;
      confidence = r.confidence;
    }

    unfoldable pub embedded :
        ℕ
        → ℕ
        → QdrantPayload
        → Option ℕ
        → List (SummaryRecord F)
        → Option (SummaryJobState × List (SummaryRecord F))
    embedded now id payload none rows = none
    embedded now id payload (some vector) rows =
        if E.upsert id vector payload then some (succeeded, mark_complete now id rows) else none

    unfoldable pub embed_labels :
        ℕ
        → ℕ
        → SummaryRecord F
        → Option (List Text)
        → List (SummaryRecord F)
        → Option (SummaryJobState × List (SummaryRecord F))
    embed_labels now id r none rows = none
    embed_labels now id r (some labels) rows =
        let normalized = E.list_of_set (normalized_labels E.lower labels []) in
        embedded now id (summary_payload r labels normalized)
          (E.embed (join_spaced normalized ++ (codes " " ++ r.summary))) rows

    unfoldable pub embed_found :
        ℕ
        → ℕ
        → Option (SummaryRecord F)
        → List (SummaryRecord F)
        → Option (SummaryJobState × List (SummaryRecord F))
    embed_found now id none rows = some (failed_terminal, rows)
    embed_found now id (some r) rows =
        if is_complete r.embedding_status
        then some (succeeded, rows)
        else embed_labels now id r (event_labels r.key_events) rows

    unfoldable pub run_embedding_job :
        ℕ → ℕ → List (SummaryRecord F) → Option (SummaryJobState × List (SummaryRecord F))
    run_embedding_job now id rows = embed_found now id (find_summary id rows) rows
