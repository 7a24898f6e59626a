-- ===== src/Reports/Cited.antt =====
-- What a daily report names.
use panoptic.Common.{
  ℕ, ◌*◌, ◌≤◌, ◌≡◌, refl, sym, ap, ◌∙◌, true, ◌||◌, Option, none, some, List, [], ◌∷◌, ◌++◌, ◌==◌,
  ==_iff, ==_refl, every, map, take, length, length-map, length-take-le, All, All-select,
  Bool-cases, inl, inr, arith,
}
use panoptic.Float.{Float}
use panoptic.Reports.{is_seen, dedup_images}
use panoptic.Reports.Grounded.{Subset, is_seen-last}
use panoptic.Reports.Named.{
  IsSupported, fuse-IsSupported, IsOfEvidence, synthesize_camera_summary-IsOfEvidence,
}
use panoptic.Reports.Synthesis.{
  CameraSummary, Evidence, Writer, add_id, set_of, synthesize_camera_summary, fuse,
}
use panoptic.Reports.Daily.{
  concat_map, sum_of, Queries, gather, has_evidence, gather_all, add_summary, synthesize_all,
  generate_daily,
}

is_seen-add_id : (k i : ℕ) (ids : List ℕ) → is_seen k (add_id i ids) ≡ (is_seen k ids || i == k)
is_seen-add_id k i ids = elim (Bool-cases (is_seen i ids)) [
  | inl e ↦ elim (Bool-cases (i == k)) [
    | inl same ↦
        let seen : is_seen k ids ≡ true = ap (λ j. is_seen j ids) (sym ((==_iff i k).0 same)) ∙ e in
        rw (e, same, seen) refl
    | inr apart ↦ rw (e, apart) (ground arith)
  ]
  | inr e ↦ rw e (ground (arith, is_seen-last k i ids))
]

is_seen-set_of :
    (k : ℕ) (ids out : List ℕ) → is_seen k (set_of ids out) ≡ (is_seen k out || is_seen k ids)
unfolding set_of
is_seen-set_of k [] out = ground arith
is_seen-set_of k (i ∷ ids) out =
    ground (arith, is_seen-set_of k ids (add_id i out), is_seen-add_id k i out)

is_seen-append : (k : ℕ) (xs ys : List ℕ) → is_seen k (xs ++ ys) ≡ (is_seen k xs || is_seen k ys)
is_seen-append k [] ys = refl
is_seen-append k (x ∷ xs) ys = ground (arith, is_seen-append k xs ys)

-- What is known stays so in a list that holds as much.
every-Subset :
    (known wide ids : List ℕ)
    → Subset known wide
    → every (λ i. is_seen i known) ids ≡ true
    → every (λ i. is_seen i wide) ids ≡ true
every-Subset known wide [] sub h = refl
every-Subset known wide (i ∷ ids) sub h =
    let own : is_seen i known ≡ true = ground arith in
    let rest : every (λ j. is_seen j known) ids ≡ true = ground arith in
    rw (sub i own) (every-Subset known wide ids sub rest)

Subset-set_of : (ids : List ℕ) → Subset ids (set_of ids [])
Subset-set_of ids k h = is_seen-set_of k ids [] ∙ h

module _ {ℓ} {A : Type ℓ} (f : A → List ℕ) where
  -- Each element's ids are among all ids.
  concat_map-Subset :
      (xs : List A) (wide : List ℕ)
      → Subset (concat_map f xs) wide
      → All (λ x. Subset (f x) wide) xs
  concat_map-Subset [] wide sub = tt
  concat_map-Subset (x ∷ xs) wide sub = (
    λ k h. sub k (is_seen-append k (f x) (concat_map f xs) ∙ rw h refl),
    concat_map-Subset xs wide
        (λ k h. sub k (is_seen-append k (f x) (concat_map f xs) ∙ rw h (ground arith))),
  )

module _ (F : Float) where
  map-Subset :
      (es : List (Evidence F)) (wide : List ℕ)
      → Subset (map (λ e. e.camera_id) es) wide
      → All (λ e. is_seen e.camera_id wide ≡ true) es
  map-Subset [] wide sub = tt
  map-Subset (e ∷ es) wide sub = (
    sub e.camera_id (rw (==_refl e.camera_id) refl),
    map-Subset es wide (λ k h. sub k (ground arith)),
  )

  module _ (W : Writer F) (cams sums imgs evts : List ℕ) where
    -- All that a camera's summary names is in the lists.
    pub record IsCited (c : CameraSummary F) : Type 0 where
      pub camera : is_seen c.camera_id cams ≡ true
      pub summaries : every (λ i. is_seen i sums) c.supporting_summary_ids ≡ true
      pub images : every (λ i. is_seen i imgs) c.supporting_image_ids ≡ true
      pub events : every (λ i. is_seen i evts) c.supporting_event_ids ≡ true

    module _ (e : Evidence F) (cam : is_seen e.camera_id cams ≡ true)
        (sum : Subset e.summary_ids sums) (img : Subset e.image_ids imgs)
        (evt : Subset e.event_ids evts) (rest : List (CameraSummary F))
        (ih : All IsCited rest) where
      of_evidence : (c : CameraSummary F) → IsOfEvidence F W e c → IsCited c
      of_evidence c o = record {
        camera = ap (λ i. is_seen i cams) o.camera ∙ cam;
        summaries = every-Subset e.summary_ids sums c.supporting_summary_ids sum o.summaries.0;
        images = every-Subset e.image_ids imgs c.supporting_image_ids img o.images.0;
        events = every-Subset e.event_ids evts c.supporting_event_ids evt o.events.0;
      }

      add_summary-IsCited :
          (o : Option (CameraSummary F))
          → synthesize_camera_summary F W e ≡ o
          → All IsCited (add_summary F o rest)
      add_summary-IsCited none h = ih
      add_summary-IsCited (some c) h =
          (of_evidence c (synthesize_camera_summary-IsOfEvidence F W e c h), ih)

    synthesize_all-IsCited :
        (es : List (Evidence F))
        → All (λ e. is_seen e.camera_id cams ≡ true) es
        → All (λ e. Subset e.summary_ids sums) es
        → All (λ e. Subset e.image_ids imgs) es
        → All (λ e. Subset e.event_ids evts) es
        → All IsCited (synthesize_all F W es)
    unfolding synthesize_all
    synthesize_all-IsCited [] c s i v = tt
    synthesize_all-IsCited (e ∷ es) c s i v =
        add_summary-IsCited e c.0 s.0 i.0 v.0 (synthesize_all F W es)
          (synthesize_all-IsCited es c.1 s.1 i.1 v.1) (synthesize_camera_summary F W e) refl

    -- The cameras of summaries are among the cameras.
    cameras-every :
        (cs : List (CameraSummary F)) → All IsCited cs → Subset (map (λ c. c.camera_id) cs) cams
    cameras-every [] h k seen = cc
    cameras-every (c ∷ cs) h k seen = elim (Bool-cases (c.camera_id == k)) [
      | inl e ↦ ap (λ i. is_seen i cams) (sym ((==_iff c.camera_id k).0 e)) ∙ h.0.camera
      | inr e ↦ cameras-every cs h.1 k (rw e at seen)
    ]

  gather-few : (q : Queries F) (cam : ℕ) → length (gather F q cam).image_ids ≤ 6
  unfolding gather
  gather-few q cam =
      let images = take 6 (dedup_images (q.fetch_images cam)) in
      rw (length-map (λ i. i.image_id) images)
        (length-take-le 6 (dedup_images (q.fetch_images cam)))

  gathered-few :
      (q : Queries F) (cams : List ℕ)
      → All (λ (e : Evidence F). length e.image_ids ≤ 6) (map (gather F q) cams)
  gathered-few q [] = tt
  gathered-few q (c ∷ cams) = (gather-few q c, gathered-few q cams)

  sum_of-le :
      (es : List (Evidence F))
      → All (λ (e : Evidence F). length e.image_ids ≤ 6) es
      → sum_of (λ (e : Evidence F). length e.image_ids) es ≤ 6 * length es
  sum_of-le [] h = omega arith
  sum_of-le (e ∷ es) h = omega (arith, sum_of-le es h.1, h.0)

  module _ (W : Writer F) (q : Queries F) (cams : List ℕ) where
    narratives-IsCited :
        let d = generate_daily F W q cams in
        All
          (IsCited W d.cited_camera_ids d.cited_summary_ids d.cited_image_ids d.cited_event_ids)
          d.narratives
    unfolding generate_daily
    narratives-IsCited =
        let es = gather_all F q cams in
        synthesize_all-IsCited W _ _ _ _ es
          (map-Subset es _ (Subset-set_of (map (λ e. e.camera_id) es)))
          (concat_map-Subset (λ (e : Evidence F). e.summary_ids) es _
            (Subset-set_of (concat_map (λ (e : Evidence F). e.summary_ids) es)))
          (concat_map-Subset (λ (e : Evidence F). e.image_ids) es _
            (Subset-set_of (concat_map (λ (e : Evidence F). e.image_ids) es)))
          (concat_map-Subset (λ (e : Evidence F). e.event_ids) es _
            (Subset-set_of (concat_map (λ (e : Evidence F). e.event_ids) es)))

    overall-IsSupported :
        let d = generate_daily F W q cams in IsSupported F d.cited_camera_ids 160 900 d.overall
    unfolding generate_daily
    overall-IsSupported =
        let d = generate_daily F W q cams in
        let cs = synthesize_all F W (gather_all F q cams) in
        let made = fuse-IsSupported F W cs in
        record {
          grounded = (
            every-Subset (map (λ c. c.camera_id) cs) d.cited_camera_ids (fuse F W cs).supporting_ids
                (cameras-every W d.cited_camera_ids d.cited_summary_ids d.cited_image_ids
                  d.cited_event_ids cs narratives-IsCited)
                made.grounded.0,
            made.grounded.1,
          );
          headline = made.headline;
          summary = made.summary;
        }

    image_count-le : let d = generate_daily F W q cams in d.image_count ≤ 6 * d.cameras_with_data
    unfolding generate_daily gather_all
    image_count-le =
        sum_of-le (gather_all F q cams)
          (All-select _ (has_evidence F) (map (gather F q) cams) (gathered-few q cams))

    -- A daily report names nothing that it does not cite, whatever the model answers: the camera of each
    -- narrative and the summaries, images and events that support it are among the cited ones, and so are
    -- the cameras that support the overall summary, each of them once. The overall headline has at most
    -- 160 characters and the overall summary at most 900, and the report counts at most 6 images for
    -- each camera with data.
    pub generate_daily-IsCited :
        let d = generate_daily F W q cams in
        All
          (IsCited W d.cited_camera_ids d.cited_summary_ids d.cited_image_ids d.cited_event_ids)
          d.narratives
        × IsSupported F d.cited_camera_ids 160 900 d.overall
        × (d.image_count ≤ 6 * d.cameras_with_data)
    generate_daily-IsCited = (narratives-IsCited, overall-IsSupported, image_count-le)
