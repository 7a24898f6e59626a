-- ===== src/Reports/Synthesis.antt =====
-- synthesize_camera_summary, fuse and synthesize_weekly of shared/report/synthesis.py. The model's
-- call, the parsing and validation of its answer, the prompts and the names of labels are parameters;
-- the ids of cameras and days are numbers, in the order of their texts. The JPEGs are left out.
use panoptic.Common.{
  ℕ, suc, Option, none, some, List, [], ◌∷◌, ◌++◌, if◌then◌else◌, map, take, codes,
}
use panoptic.Float.{Float}
use panoptic.Jobs.Model.{Text}
use panoptic.Summaries.Rollup.{sort_ids}
use panoptic.Reports.{is_seen, translate_labels}

-- enumerate: a name for each id, from a number on
unfoldable pub labels_from : (ℕ → Text) → ℕ → List ℕ → List (Text × ℕ)
labels_from name n [] = []
labels_from name n (id ∷ ids) = (name n, id) ∷ labels_from name (suc n) ids

abbrev pub add_id : ℕ → List ℕ → List ℕ
add_id i ids = if is_seen i ids then ids else ids ++ i ∷ []

-- The known ones of the ids, each once, in order.
unfoldable pub keep_known : List ℕ → List ℕ → List ℕ → List ℕ
keep_known known [] out = out
keep_known known (i ∷ ids) out =
    keep_known known ids (if is_seen i known then add_id i out else out)

-- set(...)
unfoldable pub set_of : List ℕ → List ℕ → List ℕ
set_of [] out = out
set_of (i ∷ ids) out = set_of ids (add_id i out)

module _ (F : Float) where
  pub record CameraAnswer : Type 0 where
    pub headline : Text
    pub summary : Text
    pub summary_labels : List Text
    pub image_labels : List Text
    pub event_labels : List Text
    pub confidence : F.Num

  pub record CameraSummary : Type 0 where
    pub camera_id : ℕ
    pub headline : Text
    pub summary : Text
    pub supporting_summary_ids : List ℕ
    pub supporting_image_ids : List ℕ
    pub supporting_event_ids : List ℕ
    pub confidence : F.Num

  -- The answer of the fusion and of the weekly synthesis.
  pub record FusionAnswer : Type 0 where
    pub headline : Text
    pub summary : Text
    pub supporting_ids : List ℕ
    pub confidence : F.Num

  -- OverallSummary, and the dict of the weekly synthesis.
  pub record OverallSummary : Type 0 where
    pub headline : Text
    pub summary : Text
    pub supporting_ids : List ℕ
    pub confidence : F.Num

  -- The ids of a camera's evidence.
  pub record Evidence : Type 0 where
    pub camera_id : ℕ
    pub summary_ids : List ℕ
    pub image_ids : List ℕ
    pub event_ids : List ℕ

  pub record Writer : Type 0 where
    -- VLMClient.call, none on the errors that are caught
    pub call_camera : Evidence → Option Text
    pub call_fusion : List CameraSummary → Option Text
    pub call_weekly : List ℕ → Option Text
    -- json.loads and model_validate, none on an error of theirs
    pub parse_camera : Text → Option CameraAnswer
    pub parse_fusion : Text → Option FusionAnswer
    -- f"sum_{i}", f"img_{i}" and f"evt_{i}"
    pub sum_name : ℕ → Text
    pub img_name : ℕ → Text
    pub evt_name : ℕ → Text

  abbrev pub parsed {ℓ} : {A : Type ℓ} → (Text → Option A) → Option Text → Option A
  parsed parse none = none
  parsed parse (some raw) = parse raw

  unfoldable pub degraded_overall : List ℕ → OverallSummary
  degraded_overall known = record {
    headline = codes "Unable to generate overall summary.";
    summary =
        codes
          "Per-camera summaries were produced, but fusion failed. See individual camera_summaries for details.";
    supporting_ids = sort_ids (set_of known []);
    confidence = F.literal 0 0;
  }

  unfoldable pub no_overall : OverallSummary
  no_overall = record {
    headline = codes "Unable to generate overall summary.";
    summary = codes "No per-camera summaries were produced, so no fusion was performed.";
    supporting_ids = [];
    confidence = F.literal 0 0;
  }

  unfoldable pub degraded_weekly : List ℕ → OverallSummary
  degraded_weekly known = record {
    headline = codes "Unable to generate weekly summary.";
    summary =
        codes
          "Per-day summaries were available, but the weekly fusion VLM call failed. Aggregation counts are still shown above.";
    supporting_ids = sort_ids (set_of known []);
    confidence = F.literal 0 0;
  }

  unfoldable pub no_weekly : OverallSummary
  no_weekly = record {
    headline = codes "No per-day summaries available for this week.";
    summary =
        codes
          "The weekly report could not be assembled because no daily reports had successfully generated for this trailer in the requested window. Aggregation counts above still reflect raw data.";
    supporting_ids = [];
    confidence = F.literal 0 0;
  }

  -- The answer cut to its lengths, with the known ids, or the degraded summary without an answer.
  unfoldable pub fused : ℕ → ℕ → List ℕ → OverallSummary → Option FusionAnswer → OverallSummary
  fused headline_length summary_length known degraded none = degraded
  fused headline_length summary_length known degraded (some a) = record {
    headline = take headline_length a.headline;
    summary = take summary_length a.summary;
    supporting_ids = keep_known known a.supporting_ids [];
    confidence = a.confidence;
  }

  module _ (W : Writer) where
    unfoldable pub camera_summary : Evidence → Option CameraAnswer → Option CameraSummary
    camera_summary e none = none
    camera_summary e (some a) = some (record {
      camera_id = e.camera_id;
      headline = take 140 a.headline;
      summary = take 600 a.summary;
      supporting_summary_ids =
          translate_labels a.summary_labels (labels_from W.sum_name 0 e.summary_ids);
      supporting_image_ids = translate_labels a.image_labels (labels_from W.img_name 0 e.image_ids);
      supporting_event_ids = translate_labels a.event_labels (labels_from W.evt_name 0 e.event_ids);
      confidence = a.confidence;
    })

    unfoldable pub synthesize_camera_summary : Evidence → Option CameraSummary
    synthesize_camera_summary e = camera_summary e (parsed W.parse_camera (W.call_camera e))

    unfoldable pub fuse : List CameraSummary → OverallSummary
    fuse [] = no_overall
    fuse (c ∷ cs) =
        let known = map (λ s. s.camera_id) (c ∷ cs) in
        fused 160 900 known (degraded_overall known)
          (parsed W.parse_fusion (W.call_fusion (c ∷ cs)))

    unfoldable pub synthesize_weekly : List ℕ → OverallSummary
    synthesize_weekly [] = no_weekly
    synthesize_weekly (d ∷ days) =
        fused 180 1200 (d ∷ days) (degraded_weekly (d ∷ days))
          (parsed W.parse_fusion (W.call_weekly (d ∷ days)))
