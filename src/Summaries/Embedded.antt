-- ===== src/Summaries/Embedded.antt =====
-- The embedding of a summary that a bucket_summary job has stored.
use panoptic.Common.{
  ℕ, ◌≡◌, refl, ap, ◌∙◌, Bool, true, false, not, ◌||◌, Option, none, some, some-injective, is_some,
  List, [], ◌∷◌, ◌==◌, any, Bool-cases, inl, inr, arith,
}
use panoptic.Float.{Float}
use panoptic.Jobs.Model.{Text}
use panoptic.Summaries.{KeyEvent, labelled, unlabelled, mislabelled, unhashable, SummaryRecord}
use panoptic.Summaries.Execute.{SummaryJobState, succeeded}
use panoptic.Summaries.Embed.{
  event_label, event_labels, is_complete, QdrantPayload, Embedder, find_summary, set_complete,
  mark_complete, embedded, embed_labels, embed_found, run_embedding_job,
}

-- A label that is no text.
abbrev pub is_mislabelled : KeyEvent → Bool
is_mislabelled (labelled l) = false
is_mislabelled (unlabelled shown) = false
is_mislabelled mislabelled = true
is_mislabelled unhashable = true

event_labels-some :
    (events : List KeyEvent) → is_some (event_labels events) ≡ not (any is_mislabelled events)
unfolding event_labels event_label
event_labels-some [] = refl
event_labels-some (labelled l ∷ events) = ground (arith, event_labels-some events)
event_labels-some (unlabelled l ∷ events) = ground (arith, event_labels-some events)
event_labels-some (mislabelled ∷ events) = refl
event_labels-some (unhashable ∷ events) = refl

module _ (F : Float) where
  find_summary_complete :
      (now id : ℕ) (rows : List (SummaryRecord F)) (r : SummaryRecord F)
      → find_summary F id rows ≡ some r
      → find_summary F id (mark_complete F now id rows) ≡ some (set_complete F now r)
  unfolding find_summary mark_complete
  find_summary_complete now id [] r h = cc
  find_summary_complete now id (x ∷ rows) r h = elim (Bool-cases (x.summary_id == id)) [
    | inl e ↦ rw (e, e) (ap (λ y. some (set_complete F now y)) (some-injective _ _ (rw e at h)))
    | inr e ↦ rw (e, e) (find_summary_complete now id rows r (rw e at h))
  ]

  module _ (id : ℕ) where
    -- The summary is found and embedded, so the job run again at any time, with any clients, succeeds and
    -- changes nothing.
    abbrev pub IsEmbedded : List (SummaryRecord F) → Type 0
    IsEmbedded rows =
        (r : SummaryRecord F) × (find_summary F id rows ≡ some r)
        × (is_complete r.embedding_status ≡ true)
        × ((E : Embedder F) (now : ℕ) → run_embedding_job F E now id rows ≡ some (succeeded, rows))

    complete-IsEmbedded :
        (rows : List (SummaryRecord F)) (r : SummaryRecord F)
        → find_summary F id rows ≡ some r
        → is_complete r.embedding_status ≡ true
        → IsEmbedded rows
    unfolding run_embedding_job embed_found
    complete-IsEmbedded rows r found done = (r, found, done, λ E now. rw (found, done) refl)

    -- The rows that a successful run leaves.
    abbrev pub Settles : Option (SummaryJobState × List (SummaryRecord F)) → Type 0
    Settles none = Unit
    Settles (some (state, rows)) = (state ≡ succeeded) × IsEmbedded rows

    module _ (E : Embedder F) (now : ℕ) (rows : List (SummaryRecord F)) (r : SummaryRecord F)
        (found : find_summary F id rows ≡ some r) where
      embedded-Settles :
          (payload : QdrantPayload F) (o : Option ℕ) → Settles (embedded F E now id payload o rows)
      unfolding embedded
      embedded-Settles payload none = tt
      embedded-Settles payload (some vector) = elim (Bool-cases (E.upsert id vector payload)) [
        | inl e ↦ rw e (
          refl,
          complete-IsEmbedded (mark_complete F now id rows) (set_complete F now r)
              (find_summary_complete now id rows r found) refl,
        )
        | inr e ↦ rw e tt
      ]

      embed_labels-Settles : (o : Option (List Text)) → Settles (embed_labels F E now id r o rows)
      unfolding embed_labels
      embed_labels-Settles none = tt
      embed_labels-Settles (some labels) = embedded-Settles _ _

      pub embed_found-Settles : Settles (embed_found F E now id (some r) rows)
      unfolding embed_found
      embed_found-Settles = elim (Bool-cases (is_complete r.embedding_status)) [
        | inl e ↦ rw e (refl, complete-IsEmbedded rows r found e)
        | inr e ↦ rw e (embed_labels-Settles (event_labels r.key_events))
      ]

      module _ (answers : (t : Text) → is_some (E.embed t) ≡ true)
          (stores : (i v : ℕ) (p : QdrantPayload F) → E.upsert i v p ≡ true) where
        embedded-some :
            (payload : QdrantPayload F) (o : Option ℕ)
            → is_some o ≡ true
            → is_some (embedded F E now id payload o rows) ≡ true
        unfolding embedded
        embedded-some payload none h = h
        embedded-some payload (some vector) h = rw (stores id vector payload) refl

        embed_labels-some :
            (o : Option (List Text)) → is_some (embed_labels F E now id r o rows) ≡ is_some o
        unfolding embed_labels
        embed_labels-some none = refl
        embed_labels-some (some labels) = embedded-some _ _ (answers _)

        pub embed_found-some :
            is_some (embed_found F E now id (some r) rows)
            ≡ (is_complete r.embedding_status || not (any is_mislabelled r.key_events))
        unfolding embed_found
        embed_found-some = elim (Bool-cases (is_complete r.embedding_status)) [
          | inl e ↦ rw e refl
          | inr e ↦
              rw e (embed_labels-some (event_labels r.key_events) ∙ event_labels-some r.key_events)
        ]
