-- ===== src/Reports/Daily.antt =====
-- _generate_daily (services/panoptic_report_generator/executor.py): the evidence of each camera, the
-- summaries of the cameras, the overall summary and the metadata. The queries are functions of the
-- camera; the HTML, its table of events and its file are left out.
use panoptic.Common.{
  ℕ, ◌+◌, Bool, true, false, Option, none, some, List, [], ◌∷◌, ◌++◌, if◌then◌else◌, ◌==◌, length,
  map, select, take,
}
use panoptic.Float.{Float}
use panoptic.Reports.{ReportImage, dedup_images}
use panoptic.Reports.Synthesis.{
  CameraSummary, OverallSummary, Evidence, Writer, set_of, synthesize_camera_summary, fuse,
}

abbrev pub daily_max_images_per_camera : ℕ
daily_max_images_per_camera = 6

abbrev pub concat_map {ℓ} : {A : Type ℓ} → (A → List ℕ) → List A → List ℕ
concat_map f [] = []
concat_map f (x ∷ xs) = f x ++ concat_map f xs

abbrev pub sum_of {ℓ} : {A : Type ℓ} → (A → ℕ) → List A → ℕ
sum_of f [] = 0
sum_of f (x ∷ xs) = f x + sum_of f xs

module _ (F : Float) where
  -- The queries, by camera: the ids of its summaries, its images and the ids of its events.
  pub record Queries : Type 0 where
    pub fetch_summaries : ℕ → List ℕ
    pub fetch_images : ℕ → List ReportImage
    pub fetch_events : ℕ → List ℕ

  unfoldable pub gather : Queries → ℕ → Evidence F
  gather q cam = record {
    camera_id = cam;
    summary_ids = q.fetch_summaries cam;
    image_ids =
        map (λ i. i.image_id)
          (take daily_max_images_per_camera (dedup_images (q.fetch_images cam)));
    event_ids = q.fetch_events cam;
  }

  abbrev pub is_nonempty : List ℕ → Bool
  is_nonempty [] = false
  is_nonempty (x ∷ xs) = true

  -- summaries or images or events
  unfoldable pub has_evidence : Evidence F → Bool
  has_evidence e =
      if is_nonempty e.summary_ids
      then true
      else if is_nonempty e.image_ids
      then true
      else is_nonempty e.event_ids

  unfoldable pub gather_all : Queries → List ℕ → List (Evidence F)
  gather_all q cams = select has_evidence (map (gather q) cams)

  abbrev pub add_summary :
      Option (CameraSummary F) → List (CameraSummary F) → List (CameraSummary F)
  add_summary none cs = cs
  add_summary (some c) cs = c ∷ cs

  -- One call of the model for each camera.
  unfoldable pub synthesize_all : Writer F → List (Evidence F) → List (CameraSummary F)
  synthesize_all W [] = []
  synthesize_all W (e ∷ es) = add_summary (synthesize_camera_summary F W e) (synthesize_all W es)

  -- cs_by_cam.get(cam), where a later summary of the camera takes the place of an earlier one
  unfoldable pub summary_by_camera : ℕ → List (CameraSummary F) → Option (CameraSummary F)
  summary_by_camera cam [] = none
  summary_by_camera cam (c ∷ cs) = elim (summary_by_camera cam cs) [
    | some later ↦ some later
    | none ↦ if c.camera_id == cam then some c else none
  ]

  pub record DailyReport : Type 0 where
    -- a block for each camera, with its summary, or a placeholder
    pub blocks : List (ℕ × Option (CameraSummary F))
    pub overall : OverallSummary F
    pub narratives : List (CameraSummary F)
    pub cited_image_ids : List ℕ
    pub cited_event_ids : List ℕ
    pub cited_summary_ids : List ℕ
    pub cited_camera_ids : List ℕ
    pub summary_count : ℕ
    pub image_count : ℕ
    pub event_count : ℕ
    pub cameras_with_data : ℕ
    pub cameras_total : ℕ

  unfoldable pub generate_daily : Writer F → Queries → List ℕ → DailyReport
  generate_daily W q cams =
      let evidence = gather_all q cams in
      let summaries = synthesize_all W evidence in
      record {
        blocks = map (λ e. (e.camera_id, summary_by_camera e.camera_id summaries)) evidence;
        overall = fuse F W summaries;
        narratives = summaries;
        cited_image_ids = set_of (concat_map (λ e. e.image_ids) evidence) [];
        cited_event_ids = set_of (concat_map (λ e. e.event_ids) evidence) [];
        cited_summary_ids = set_of (concat_map (λ e. e.summary_ids) evidence) [];
        cited_camera_ids = set_of (map (λ e. e.camera_id) evidence) [];
        summary_count = sum_of (λ e. length e.summary_ids) evidence;
        image_count = sum_of (λ e. length e.image_ids) evidence;
        event_count = sum_of (λ e. length e.event_ids) evidence;
        cameras_with_data = length evidence;
        cameras_total = length cams;
      }
