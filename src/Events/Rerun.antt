-- ===== src/Events/Rerun.antt =====
-- A second run of a job, and the range of the severities.
use panoptic.Common.{
  ℕ, ◌≡◌, refl, sym, ap, true, Option, none, some, some-injective, List, [], ◌∷◌, All, All-map,
  arith, subst,
}
use panoptic.Float.{Float}
use panoptic.Signals.{MarkerKey}
use panoptic.Events.{
  Identity, of_image, EventType, built, Trigger, alert, anomaly, novelty, baseline, Alias, EventRow,
  ImageRow, BucketMarker, BucketRow, image_event, build_event_row_from_image,
  build_event_row_from_bucket_marker, insert_event, find_image, find_bucket,
}
use panoptic.Events.Rows.{
  has_event, insert_event-own, insert_present, insert_events-own, insert_events_present,
}
use panoptic.Events.Execute.{
  Payload, of_image_id, of_bucket_id, of_unknown, JobResult, Store, Tables, insert_built,
  produce_from_image_row, produce_if_triggered, produce_found_image, known_event, marker_events,
  produce_markers, produce_found_bucket, run_event_produce_job,
}

module _ (F : Float) (digest : Identity → ℕ) where
  -- Every id of an event in the one table is one of an event in the other.
  abbrev pub Covers : List (EventRow F) → List (EventRow F) → Type 0
  Covers es es' = (k : ℕ) → has_event F k es ≡ true → has_event F k es' ≡ true

  -- The run ends with the result and leaves the events as they are.
  abbrev pub ChangesNothing :
      Store F digest → JobResult → Option (Store F digest × JobResult) → Type 0
  ChangesNothing st r out =
      (st' : Store F digest) × (out ≡ some (st', r)) × (st'.events ≡ st.events)

  result_of :
      {st st₁ : Store F digest} {a r : JobResult}
      → ◌≡◌ {A = Option (Store F digest × JobResult)} (some (st, a)) (some (st₁, r))
      → a ≡ r
  result_of e = ap (λ (x : Store F digest × JobResult). x.1) (some-injective _ _ e)

  store_of :
      {st st₁ : Store F digest} {a r : JobResult}
      → ◌≡◌ {A = Option (Store F digest × JobResult)} (some (st, a)) (some (st₁, r))
      → st ≡ st₁
  store_of e = ap (λ (x : Store F digest × JobResult). x.0) (some-injective _ _ e)

  idle : (st : Store F digest) {a r : JobResult} → a ≡ r → ChangesNothing st r (some (st, a))
  idle st e = (st, ap (λ (x : JobResult). some (st, x)) e, refl)

  module _ (now now' : ℕ) (aliases aliases' : Option (List Alias)) where
    known_ids :
        (row : BucketRow F) (c c' : ℕ) (m : BucketMarker F) (k : Option MarkerKey) (P : ℕ → Type 0)
        (rest rest' : List (EventRow F))
        → (All (λ (r : EventRow F). P r.event_id) rest
            → All (λ (r : EventRow F). P r.event_id) rest')
        → All (λ (r : EventRow F). P r.event_id) (known_event F digest now aliases row c m k rest)
        → All
            (λ (r : EventRow F). P r.event_id)
            (known_event F digest now' aliases' row c' m k rest')
    unfolding known_event build_event_row_from_bucket_marker
    known_ids row c c' m none P rest rest' f h = f h
    known_ids row c c' m (some k) P rest rest' f h = (h.0, f h.1)

    -- The ids do not depend on the camera.
    marker_ids :
        (row : BucketRow F) (c c' : ℕ) (ms : List (BucketMarker F)) (P : ℕ → Type 0)
        → All (λ (r : EventRow F). P r.event_id) (marker_events F digest now aliases row c ms)
        → All (λ (r : EventRow F). P r.event_id) (marker_events F digest now' aliases' row c' ms)
    unfolding marker_events
    marker_ids row c c' [] P h = tt
    marker_ids row c c' (m ∷ ms) P h =
        known_ids row c c' m m.event_type P _ _ (marker_ids row c c' ms P) h

    image_rerun :
        (row : ImageRow F) (o : Option EventType) (c c' : ℕ) (st st₁ st' : Store F digest)
        (r : JobResult)
        → insert_built F digest now aliases (built F digest row c o) st ≡ some (st₁, r)
        → Covers st₁.events st'.events
        → ChangesNothing st' r (insert_built F digest now' aliases' (built F digest row c' o) st')
    unfolding insert_built built image_event
    image_rerun row none c c' st st₁ st' r e h = ground arith
    image_rerun row (some type) c c' st st₁ st' r e h =
        let q = some-injective _ _ e in
        let there : has_event F (digest (of_image row.image_id)) st₁.events ≡ true =
          subst
            (λ (x : Store F digest). has_event F (digest (of_image row.image_id)) x.events ≡ true)
            (ap (λ (x : Store F digest × JobResult). x.0) q)
            (insert_event-own F (image_event F digest row c type) st.events) in
        let st₂ : Store F digest = record st' {
          events = insert_event F (image_event F digest row c' type) st'.events;
        } in
        (
          st₂,
          ap (λ (x : JobResult). some (st₂, x)) (ap (λ (x : Store F digest × JobResult). x.1) q),
          insert_present F (image_event F digest row c' type) st'.events (h _ there),
        )

    triggered_rerun :
        (row : ImageRow F) (t : Trigger) (st st₁ st' : Store F digest) (r : JobResult)
        → produce_if_triggered F digest now aliases row t st ≡ some (st₁, r)
        → Covers st₁.events st'.events
        → ChangesNothing st' r (produce_if_triggered F digest now' aliases' row t st')
    unfolding produce_if_triggered produce_from_image_row build_event_row_from_image
    triggered_rerun row alert st st₁ st' r e h = image_rerun row _ _ _ _ st₁ _ r e h
    triggered_rerun row anomaly st st₁ st' r e h = image_rerun row _ _ _ _ st₁ _ r e h
    triggered_rerun row novelty st st₁ st' r e h = idle st' (result_of e)
    triggered_rerun row baseline st st₁ st' r e h = idle st' (result_of e)

    found_image_rerun :
        (o : Option (ImageRow F)) (st st₁ st' : Store F digest) (r : JobResult)
        → produce_found_image F digest now aliases o st ≡ some (st₁, r)
        → Covers st₁.events st'.events
        → ChangesNothing st' r (produce_found_image F digest now' aliases' o st')
    unfolding produce_found_image
    found_image_rerun none st st₁ st' r e h = idle st' (result_of e)
    found_image_rerun (some row) st st₁ st' r e h = triggered_rerun row row.trigger st st₁ st' r e h

    markers_rerun :
        (row : BucketRow F) (ms : List (BucketMarker F)) (st st' : Store F digest)
        → Covers (produce_markers F digest now aliases row ms st).events st'.events
        → (produce_markers F digest now' aliases' row ms st').events ≡ st'.events
    unfolding produce_markers
    markers_rerun row [] st st' h = refl
    markers_rerun row (m ∷ ms) st st' h = insert_events_present F _ st'.events (
        marker_ids row _ _ (m ∷ ms) (λ k. has_event F k st'.events ≡ true)
          (All-map _ _ (λ x there. h x.event_id there) _ (insert_events-own F _ st.events)))

    found_bucket_rerun :
        (o : Option (BucketRow F)) (st st₁ st' : Store F digest) (r : JobResult)
        → produce_found_bucket F digest now aliases o st ≡ some (st₁, r)
        → Covers st₁.events st'.events
        → ChangesNothing st' r (produce_found_bucket F digest now' aliases' o st')
    unfolding produce_found_bucket
    found_bucket_rerun none st st₁ st' r e h = idle st' (result_of e)
    found_bucket_rerun (some row) st st₁ st' r e h =
        let st₂ = produce_markers F digest now' aliases' row row.event_markers st' in
        (
          st₂,
          ap (λ (x : JobResult). some (st₂, x)) (result_of e),
          markers_rerun row row.event_markers st st'
              (subst (λ (x : Store F digest). Covers x.events st'.events) (sym (store_of e)) h),
        )

    -- A job that has run without an exception can be run again at any later time, with other aliases,
    -- on a table that still has an event for every id that the first run left: it ends with the same
    -- result and changes no event, so a delivery twice over leaves what one delivery leaves.
    pub event_job_rerun :
        (t : Tables F digest) (p : Payload) (st st₁ st' : Store F digest) (r : JobResult)
        → run_event_produce_job F digest now aliases t p st ≡ some (st₁, r)
        → Covers st₁.events st'.events
        → ChangesNothing st' r (run_event_produce_job F digest now' aliases' t p st')
    unfolding run_event_produce_job
    event_job_rerun t (of_image_id none) st st₁ st' r e h = idle st' (result_of e)
    event_job_rerun t (of_image_id (some k)) st st₁ st' r e h =
        found_image_rerun (find_image F k t.images) st st₁ st' r e h
    event_job_rerun t (of_bucket_id none) st st₁ st' r e h = idle st' (result_of e)
    event_job_rerun t (of_bucket_id (some k)) st st₁ st' r e h =
        found_bucket_rerun (find_bucket F k t.buckets) st st₁ st' r e h
    event_job_rerun t of_unknown st st₁ st' r e h = idle st' (result_of e)
