-- ===== src/Reports/Named.antt =====
-- What the model can make of a synthesis.
use panoptic.Common.{
  ℕ, ◌≤◌, ◌≡◌, refl, Option, none, some, some-injective, List, [], ◌∷◌, map, length, length-take-le,
  arith, subst,
}
use mathlib.Core.Option.{none-ne-some}
use panoptic.Float.{Float}
use panoptic.Reports.Grounded.{
  IsGrounded, keep_known-IsGrounded, all_known, translate_labels-IsGrounded,
}
use panoptic.Reports.Synthesis.{
  CameraAnswer, CameraSummary, FusionAnswer, OverallSummary, Evidence, Writer, parsed,
  degraded_overall, no_overall, degraded_weekly, no_weekly, fused, camera_summary,
  synthesize_camera_summary, fuse, synthesize_weekly,
}

module _ (F : Float) where
  -- The supporting ids are known and different, and the texts keep to their lengths.
  pub record IsSupported (known : List ℕ) (h s : ℕ) (o : OverallSummary F) : Type 0 where
    pub grounded : IsGrounded known o.supporting_ids
    pub headline : length o.headline ≤ h
    pub summary : length o.summary ≤ s

  fused-IsSupported :
      (h s : ℕ) (known : List ℕ) (d : OverallSummary F) (a : Option (FusionAnswer F))
      → IsSupported known h s d
      → IsSupported known h s (fused F h s known d a)
  unfolding fused
  fused-IsSupported h s known d none sound = sound
  fused-IsSupported h s known d (some a) sound = record {
    grounded = keep_known-IsGrounded known a.supporting_ids [] (refl, tt);
    headline = length-take-le h a.headline;
    summary = length-take-le s a.summary;
  }

  degraded_overall-IsSupported :
      (known : List ℕ) → IsSupported known 160 900 (degraded_overall F known)
  unfolding degraded_overall
  degraded_overall-IsSupported known = record {
    grounded = all_known known;
    headline = omega arith;
    summary = omega arith;
  }

  degraded_weekly-IsSupported :
      (known : List ℕ) → IsSupported known 180 1200 (degraded_weekly F known)
  unfolding degraded_weekly
  degraded_weekly-IsSupported known = record {
    grounded = all_known known;
    headline = omega arith;
    summary = omega arith;
  }

  module _ (W : Writer F) where
    pub fuse-IsSupported :
        (cs : List (CameraSummary F))
        → IsSupported (map (λ s. s.camera_id) cs) 160 900 (fuse F W cs)
    unfolding fuse no_overall
    fuse-IsSupported [] = record {
      grounded = (refl, tt);
      headline = omega arith;
      summary = omega arith;
    }
    fuse-IsSupported (c ∷ cs) =
        let known = map (λ s. s.camera_id) (c ∷ cs) in
        fused-IsSupported 160 900 known (degraded_overall F known) _
          (degraded_overall-IsSupported known)

    pub synthesize_weekly-IsSupported :
        (days : List ℕ) → IsSupported days 180 1200 (synthesize_weekly F W days)
    unfolding synthesize_weekly no_weekly
    synthesize_weekly-IsSupported [] = record {
      grounded = (refl, tt);
      headline = omega arith;
      summary = omega arith;
    }
    synthesize_weekly-IsSupported (d ∷ days) =
        fused-IsSupported 180 1200 (d ∷ days) (degraded_weekly F (d ∷ days)) _
          (degraded_weekly-IsSupported (d ∷ days))

    -- A camera's summary names its evidence only.
    pub record IsOfEvidence (e : Evidence F) (c : CameraSummary F) : Type 0 where
      pub camera : c.camera_id ≡ e.camera_id
      pub summaries : IsGrounded e.summary_ids c.supporting_summary_ids
      pub images : IsGrounded e.image_ids c.supporting_image_ids
      pub events : IsGrounded e.event_ids c.supporting_event_ids
      pub headline : length c.headline ≤ 140
      pub summary : length c.summary ≤ 600

    made-IsOfEvidence :
        (e : Evidence F) (a : Option (CameraAnswer F)) (c : CameraSummary F)
        → camera_summary F W e a ≡ some c
        → IsOfEvidence e c
    unfolding camera_summary
    made-IsOfEvidence e none c h = absurd (none-ne-some c h)
    made-IsOfEvidence e (some a) c h = subst (IsOfEvidence e) (some-injective _ _ h) (record {
      camera = refl;
      summaries = translate_labels-IsGrounded W.sum_name e.summary_ids a.summary_labels;
      images = translate_labels-IsGrounded W.img_name e.image_ids a.image_labels;
      events = translate_labels-IsGrounded W.evt_name e.event_ids a.event_labels;
      headline = length-take-le 140 a.headline;
      summary = length-take-le 600 a.summary;
    })

    pub synthesize_camera_summary-IsOfEvidence :
        (e : Evidence F) (c : CameraSummary F)
        → synthesize_camera_summary F W e ≡ some c
        → IsOfEvidence e c
    unfolding synthesize_camera_summary
    synthesize_camera_summary-IsOfEvidence e c h =
        made-IsOfEvidence e (parsed F W.parse_camera (W.call_camera e)) c h
