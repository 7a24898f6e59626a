-- ===== src/Tests/Intake.antt =====
-- A window of two object types that is delivered, finalized and delivered again.
use mathlib.Core.List.{Permᴰ, Pairwise-pair}
use mathlib.Core.HLevel.{¬_prop}
use panoptic.Common.{ℕ, ◌+◌, ◌≡◌, ◌≢◌, ap, refl, false, Option, none, some, List, [], ◌∷◌, arith}
use panoptic.Jobs.Model.{Text}
use panoptic.Float.{milli}
use panoptic.Buckets.{BucketRecord}
use panoptic.Intake.Transform.{
  Detection, BucketData, detection_of, compute_detection_hash, bucket_id_of,
  transform_to_bucket_record,
}
use panoptic.Intake.{
  Window, set_at, Redis, Payload, window_of, store_fragment, close_window, finish_one,
  finalize_fragments, finalize_one,
}
use panoptic.Intake.View.{closed, view, store_spec, is_open, store_fragment-refines}
use panoptic.Intake.Closed.{rests, finalized_window_refuses}
use panoptic.Intake.Order.{id_at, bucket_id_of-perm}
use panoptic.Tests.Buckets.{digest}

abbrev fragment : Text → ℕ → BucketData milli
fragment t n = record {
  bucket_start = 900;
  bucket_end = 1800;
  bucket_minutes = 15;
  object_type = t;
  unique_tracker_ids = n;
  total_detections = n;
  max_count = n;
  mean_count = some 1000;
  std_dev_count = none;
  max_count_at = none;
  first_detection_at = some 1000;
  duty_cycle = 1500;
  anomaly_score = none;
  anomaly_flag = 0;
}

abbrev car : BucketData milli
car = fragment (99 ∷ []) 4

abbrev person : BucketData milli
person = fragment (112 ∷ []) 2

-- The same fragment, with a later end.
abbrev late_person : BucketData milli
late_person = record person { bucket_end = 2000 }

abbrev payload : BucketData milli → Payload milli
payload f = record { serial_number = 1422; camera_id = 2; bucket = f }

abbrev window : Window
window = record { serial_number = 1422; camera_id = 2; bucket_start = 900 }

abbrev no_keys : Redis milli
no_keys = record { done = λ w. none; hashes = λ w. none; active = [] }

-- A car and then a person were delivered at 1900.
abbrev collected : Redis milli
collected = record {
  done = λ w. none;
  hashes =
      set_at window
        (some (record {
          fields = (99 ∷ [], car) ∷ (112 ∷ [], person) ∷ [];
          updated_at = 1900;
          expires_at = 5500;
        }))
        no_keys.hashes;
  active = window ∷ [];
}

store_fragment-refines_example :
    (view milli 1900 (store_fragment milli 1900 (payload car) no_keys).0
      ≡ store_spec milli (payload car) (view milli 1900 no_keys))
    × ((store_fragment milli 1900 (payload car) no_keys).1
        ≡ is_open milli (view milli 1900 no_keys (window_of milli (payload car))))
store_fragment-refines_example = store_fragment-refines milli 1900 (payload car) no_keys

abbrev first_of : List ℕ → ℕ
first_of [] = 0
first_of (x ∷ xs) = x

abbrev detections_digest : List Detection → ℕ
detections_digest [] = 0
detections_digest (d ∷ ds) = d.total_detections + detections_digest ds

abbrev transform : BucketData milli → List (BucketData milli) → ℕ → ℕ → BucketRecord milli
transform = transform_to_bucket_record milli first_of (λ x. x) (λ x. 0) detections_digest digest

abbrev ingest : BucketRecord milli → List (BucketRecord milli) → Option (List (BucketRecord milli))
ingest b rows = some (b ∷ rows)

abbrev finalized_rows : List (BucketRecord milli)
finalized_rows = transform car (person ∷ []) 1422 2 ∷ []

finalized_at :
    finalize_one milli transform ingest 1960 window collected []
    ≡ some (close_window milli 1960 window collected, finalized_rows)
unfolding finalize_one finalize_fragments finish_one
finalized_at = refl

finalized_window_refuses_example :
    (ingest (transform car (person ∷ []) 1422 2) [] ≡ some finalized_rows)
    × (view milli 1960 (close_window milli 1960 window collected)
        ≡ set_at window closed (view milli 1960 collected))
    × (store_fragment milli 2000 (payload car) (close_window milli 1960 window collected)
        ≡ (close_window milli 1960 window collected, false))
    × ((close_window milli 1960 window collected).hashes window ≡ none)
finalized_window_refuses_example =
    finalized_window_refuses milli transform ingest 1960 2000 window collected
      (close_window milli 1960 window collected) (close_window milli 1960 window collected) []
      finalized_rows finalized_rows car (person ∷ []) (payload car) refl finalized_at (rests _ _)
      (omega arith) refl

bucket_id_of-perm_example :
    (compute_detection_hash milli first_of
        (λ x. x)
        (λ x. 0)
        detections_digest
        digest
        (car ∷ late_person ∷ [])
      ≡ compute_detection_hash milli first_of
          (λ x. x)
          (λ x. 0)
          detections_digest
          digest
          (late_person ∷ car ∷ []))
    × (bucket_id_of milli first_of
          (λ x. x)
          (λ x. 0)
          detections_digest
          digest
          1422
          2
          car
          (late_person ∷ [])
        ≡ id_at milli first_of
            (λ x. x)
            (λ x. 0)
            detections_digest
            digest
            1422
            2
            1800
            late_person
            (car ∷ []))
unfolding detection_of
bucket_id_of-perm_example =
    bucket_id_of-perm milli first_of (λ x. x) (λ x. 0) detections_digest digest 1422 2 car
      late_person (late_person ∷ []) (car ∷ []) ∣ Permᴰ.swap refl refl ∣₁
      ((Pairwise-pair (λ a b. ¬_prop)).1 differ) refl
  where
    differ : car.object_type ≢ person.object_type
    differ e = ground (arith, ap first_of e)
