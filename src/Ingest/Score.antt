-- ===== src/Ingest/Score.antt =====
-- Step 3 of ingest_bucket: the rolling statistics of the camera, and the score.
use panoptic.Common.{ℕ, Bool, not, ◌&&◌, Option, none, some, List, [], ◌∷◌, take, select, map}
use panoptic.Float.{Float, py_max}
use panoptic.Activity.{CameraStats, epsilon, compute_activity_score, raw_activity_score}
use panoptic.Buckets.{BucketRecord}
use panoptic.History.{is_of_camera, latest_first}

abbrev pub camera_stats_lookback : ℕ
camera_stats_lookback = 100

module _ (F : Float) (mean stdev : List F.Num → F.Num) where
  open F use {Num, le, of_nat, literal}

  abbrev pub spread : List Num → Num
  spread (x ∷ y ∷ vals) = stdev (x ∷ y ∷ vals)
  spread (x ∷ []) = literal 1 0
  spread [] = literal 1 0

  -- _ms
  unfoldable pub mean_and_std : List Num → Num × Num
  mean_and_std vals = (mean vals, py_max F (spread vals) (epsilon F))

  unfoldable pub stats_of_rows : List (BucketRecord F) → Option (CameraStats F)
  stats_of_rows [] = none
  stats_of_rows (row ∷ rows) =
      let (mc, sc) =
        mean_and_std
          (map (λ b. of_nat b.activity_components.base.object_count_total) (row ∷ rows)) in
      let (mu, su) =
        mean_and_std
          (map (λ b. of_nat b.activity_components.base.unique_object_classes) (row ∷ rows)) in
      let (mv, sv) =
        mean_and_std (map (λ b. b.activity_components.base.temporal_variance) (row ∷ rows)) in
      some (record {
        mean_object_count = mc;
        std_object_count = sc;
        mean_unique_classes = mu;
        std_unique_classes = su;
        mean_temporal_variance = mv;
        std_temporal_variance = sv;
      })

  -- _get_camera_stats
  unfoldable pub get_camera_stats : ℕ → ℕ → List (BucketRecord F) → Option (CameraStats F)
  get_camera_stats serial camera rows = stats_of_rows (
      take camera_stats_lookback
        (latest_first F mean stdev (select (is_of_camera F mean stdev serial camera) rows)))

  abbrev pub stream_ok : BucketRecord F → Bool
  stream_ok b =
      le (literal 5 1) b.completeness.detection_coverage
      && not b.completeness.aggregator_restart_seen

  unfoldable pub score_with : BucketRecord F → Option (CameraStats F) → Num
  score_with b none =
      raw_activity_score F (of_nat b.activity_components.base.object_count_total)
        (of_nat b.activity_components.base.unique_object_classes)
        b.activity_components.base.temporal_variance (stream_ok b)
  score_with b (some stats) =
      compute_activity_score F b.activity_components.base stats (stream_ok b)

  unfoldable pub bucket_score : BucketRecord F → List (BucketRecord F) → Num
  bucket_score b rows = score_with b (get_camera_stats b.serial_number b.camera_id rows)
