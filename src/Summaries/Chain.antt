-- ===== src/Summaries/Chain.antt =====
-- From a bucket's summary to its embedding.
use mathlib.Core.Option.{none-ne-some}
use panoptic.Common.{
  ℕ, ◌+◌, ◌≡◌, refl, sym, ap, ◌∙◌, true, not, ◌||◌, Option, none, some, some-injective, is_some,
  List, [], ◌∷◌, ◌++◌, ◌==◌, ==_refl, ==_iff, any, Bool-cases, inl, inr, arith, subst,
}
use panoptic.Float.{Float}
use panoptic.Jobs.Model.{Text}
use panoptic.Summaries.{
  SummaryRecord, SummaryWindow, find_latest, has_summary, stored, insert_summary, supersede,
  upsert_found, upsert_summary,
}
use panoptic.Summaries.Rollup.{SummaryStore}
use panoptic.Summaries.Frames.{SummaryBucket, SummaryTask}
use panoptic.Summaries.Execute.{ExecutionResult, Agent, run_bucket_summary}
use panoptic.Summaries.Outcome.{run_bucket_summary-cases}
use panoptic.Summaries.Embed.{
  is_complete, QdrantPayload, Embedder, find_summary, embed_found, run_embedding_job,
}
use panoptic.Summaries.Embedded.{is_mislabelled, Settles, embed_found-Settles, embed_found-some}

module _ (F : Float) where
  module _ (id : ℕ) where
    find_summary-some :
        (rows : List (SummaryRecord F))
        → has_summary F id rows ≡ true
        → (r : SummaryRecord F) × (find_summary F id rows ≡ some r)
    unfolding has_summary find_summary
    find_summary-some [] h = cc
    find_summary-some (x ∷ rows) h = elim (Bool-cases (x.summary_id == id)) [
      | inl e ↦ (x, rw e refl)
      | inr e ↦ let (r, found) = find_summary-some rows (rw e at h) in (r, rw e found)
    ]

    has_summary-last :
        (rows : List (SummaryRecord F)) (x : SummaryRecord F)
        → x.summary_id ≡ id
        → has_summary F id (rows ++ x ∷ []) ≡ true
    unfolding has_summary
    has_summary-last [] x h = rw (ap (λ i. i == id) h ∙ ==_refl id) refl
    has_summary-last (y ∷ rows) x h = ground (arith, has_summary-last rows x h)

    has_summary-supersede :
        (now new_id old_id : ℕ) (rows : List (SummaryRecord F))
        → has_summary F id (supersede F now new_id old_id rows) ≡ has_summary F id rows
    unfolding has_summary supersede
    has_summary-supersede now new_id old_id [] = refl
    has_summary-supersede now new_id old_id (x ∷ rows) =
        ground (arith, has_summary-supersede now new_id old_id rows)

    has_summary-latest :
        (w : SummaryWindow) (rows : List (SummaryRecord F)) (s : SummaryRecord F)
        → find_latest F w rows ≡ some s
        → s.summary_id ≡ id
        → has_summary F id rows ≡ true
    unfolding find_latest has_summary
    has_summary-latest w [] s found same = cc
    has_summary-latest w (x ∷ rows) s found same =
        ground (arith, has_summary-latest w rows s, ==_refl id)

  module _ (now : ℕ) (r : SummaryRecord F) where
    has_summary-insert :
        (version : ℕ) (rows : List (SummaryRecord F))
        → has_summary F r.summary_id (insert_summary F now version r rows) ≡ true
    unfolding insert_summary
    has_summary-insert version rows = elim (Bool-cases (has_summary F r.summary_id rows)) [
      | inl e ↦ rw e e
      | inr e ↦
          rw e (has_summary-last r.summary_id rows (stored F now version r) (unfold stored in refl))
    ]

    has_summary-found :
        (rows : List (SummaryRecord F)) (o : Option (SummaryRecord F))
        → find_latest F r.window rows ≡ o
        → has_summary F r.summary_id (upsert_found F now r o rows).0 ≡ true
    unfolding upsert_found
    has_summary-found rows none h = has_summary-insert 1 rows
    has_summary-found rows (some s) h = elim (Bool-cases (s.summary_id == r.summary_id)) [
      | inl e ↦ rw e (has_summary-latest r.summary_id r.window rows s h ((==_iff _ _).0 e))
      | inr e ↦ rw e (
          has_summary-supersede r.summary_id now r.summary_id s.summary_id
            (insert_summary F now (s.version + 1) r rows)
          ∙ has_summary-insert (s.version + 1) rows)
    ]

    has_summary-upsert :
        (rows : List (SummaryRecord F))
        → has_summary F r.summary_id (upsert_summary F now r rows).0 ≡ true
    unfolding upsert_summary
    has_summary-upsert rows = has_summary-found rows (find_latest F r.window rows) refl

  module _ (A : Agent F) (now e k : ℕ) (task : SummaryTask) (buckets : List SummaryBucket)
      (st : SummaryStore F) (out : ExecutionResult × SummaryStore F) (id : ℕ) where
    summary_stored :
        run_bucket_summary F A now e k task buckets st ≡ some out
        → out.0.summary_id ≡ some id
        → has_summary F id out.1.summaries ≡ true
    summary_stored h named = elim (run_bucket_summary-cases F A now e k task buckets st out h) [
      | inl (_, same) ↦ absurd (
          none-ne-some id
            (sym (ap (λ (o : ExecutionResult × SummaryStore F). o.0.summary_id) same) ∙ named))
      | inr (b, found, (r, made, done)) ↦
          let own : r.summary_id ≡ id = some-injective _ _ (sym done.summary_id ∙ named) in
          subst (λ rows. has_summary F id rows ≡ true) (sym done.summaries)
            (subst (λ i. has_summary F i (upsert_summary F now r st.summaries).0 ≡ true) own
              (has_summary-upsert now r st.summaries))
    ]

    -- After a bucket_summary job that ends with a summary's id, an embedding job for that id finds the
    -- summary. With an embedding model that answers and a point store that works, it ends, at any time,
    -- exactly if the summary is embedded already or no label among its key events is a value of JSON
    -- other than a text; and otherwise it raises, and would at every attempt. If it ends it has
    -- succeeded, the summary is embedded, and a further run, with any clients, succeeds and changes no
    -- row.
    pub summary_then_embed :
        (E : Embedder F) (later : ℕ)
        → run_bucket_summary F A now e k task buckets st ≡ some out
        → out.0.summary_id ≡ some id
        → ((t : Text) → is_some (E.embed t) ≡ true)
        → ((i v : ℕ) (p : QdrantPayload F) → E.upsert i v p ≡ true)
        → (r : SummaryRecord F) × (find_summary F id out.1.summaries ≡ some r)
          × (is_some (run_embedding_job F E later id out.1.summaries)
              ≡ (is_complete r.embedding_status || not (any is_mislabelled r.key_events)))
          × Settles F id (run_embedding_job F E later id out.1.summaries)
    unfolding run_embedding_job
    summary_then_embed E later h named answers stores =
        let (r, found) = find_summary-some id out.1.summaries (summary_stored h named) in
        (
          r,
          found,
          ap (λ o. is_some (embed_found F E later id o out.1.summaries)) found
              ∙ embed_found-some F id E later out.1.summaries r found answers stores,
          subst (λ o. Settles F id (embed_found F E later id o out.1.summaries)) (sym found)
              (embed_found-Settles F id E later out.1.summaries r found),
        )
