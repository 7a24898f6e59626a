-- ===== src/Intake/Order.antt =====
-- The order in which the fragments of a window are read back.
use panoptic.Buckets.{BucketIdentity}
use mathlib.Core.Path.{ap₂}
use mathlib.Core.Logic.{∥∥₁_elim}
use mathlib.Core.HLevel.{¬_prop}
use mathlib.Core.List.Permᴰ
use mathlib.Core.List.{Perm, Permᴰ, Pairwise, mem-cons_self}
use native.Mathlib.Nat.{ℕ_set}
use panoptic.Auth.Laws.{text_eq→≡}
use panoptic.Common.{
  ℕ, ◌≢◌, ◌≡◌, refl, sym, ap, ◌∙◌, true, false, List, [], ◌∷◌, map, Bool-cases, inl, inr, arith,
  ◌==◌, ==_iff, if◌then◌else◌,
}
use panoptic.Jobs.Model.{Text}
use panoptic.Auth.{text_eq}
use panoptic.Float.{Float}
use panoptic.Intake.Transform.{
  Detection, text_lt, insert_detection, sort_detections, BucketData, detection_of,
  compute_detection_hash, bucket_id_of,
}

text_lt_asymm : (s t : Text) → text_lt s t ≡ true → text_lt t s ≡ false
text_lt_asymm [] [] h = refl
text_lt_asymm [] (d ∷ t) h = refl
text_lt_asymm (c ∷ s) [] h = ground arith
text_lt_asymm (c ∷ s) (d ∷ t) h = let ih = text_lt_asymm s t in ground arith

text_lt_total : (s t : Text) → text_eq s t ≡ false → text_lt s t ≡ false → text_lt t s ≡ true
text_lt_total [] [] h k = ground arith
text_lt_total [] (d ∷ t) h k = ground arith
text_lt_total (c ∷ s) [] h k = refl
text_lt_total (c ∷ s) (d ∷ t) h k = let ih = text_lt_total s t in ground arith

text_lt_trans : (s t u : Text) → text_lt u s ≡ false → text_lt u t ≡ true → text_lt s t ≡ true
text_lt_trans (c ∷ s) t [] h k = ground arith
text_lt_trans s [] u h k = ground arith
text_lt_trans [] (d ∷ t) u h k = refl
text_lt_trans (c ∷ s) (d ∷ t) (e ∷ u) h k = let ih = text_lt_trans s t u in ground arith

abbrev Differ : Detection → Detection → Type 0
Differ a b = a.object_type ≢ b.object_type

text_lt-Differ :
    (a b : Detection)
    → Differ a b
    → text_lt a.object_type b.object_type ≡ false
    → text_lt b.object_type a.object_type ≡ true
text_lt-Differ a b n h = text_lt_total a.object_type b.object_type apart h
  where
    apart : text_eq a.object_type b.object_type ≡ false
    apart = elim (Bool-cases (text_eq a.object_type b.object_type)) [
      | inl e ↦ absurd (n (text_eq→≡ _ _ e))
      | inr e ↦ e
    ]

-- Two insertions of detections of different types commute.
insert_front :
    (a b : Detection) (es : List Detection)
    → text_lt a.object_type b.object_type ≡ true
    → insert_detection a (b ∷ es) ≡ a ∷ b ∷ es
insert_front a b es h = rw (text_lt_asymm a.object_type b.object_type h) refl

insert_detection_comm :
    (a b : Detection) (es : List Detection)
    → Differ a b
    → insert_detection a (insert_detection b es) ≡ insert_detection b (insert_detection a es)
insert_detection_comm a b [] n = elim (Bool-cases (text_lt a.object_type b.object_type)) [
  | inl h ↦ rw (h, text_lt_asymm a.object_type b.object_type h) refl
  | inr h ↦ rw (h, text_lt-Differ a b n h) refl
]
insert_detection_comm a b (z ∷ es) n = elim (Bool-cases (text_lt z.object_type a.object_type)) [
  | inl x ↦ elim (Bool-cases (text_lt z.object_type b.object_type)) [
    | inl y ↦ rw (x, y, x) (ap (λ l. z ∷ l) (insert_detection_comm a b es n))
    | inr y ↦ rw (x, y, text_lt_trans b.object_type a.object_type z.object_type y x, x) refl
  ]
  | inr x ↦ elim (Bool-cases (text_lt z.object_type b.object_type)) [
    | inl y ↦ rw (x, y, text_lt_trans a.object_type b.object_type z.object_type x y, x) refl
    | inr y ↦ elim (Bool-cases (text_lt a.object_type b.object_type)) [
      | inl h ↦ rw (x, y, h, text_lt_asymm a.object_type b.object_type h) refl
      | inr h ↦ rw (x, y, h, text_lt-Differ a b n h, x) refl
    ]
  ]
]

abbrev AllDiffer : List Detection → Type 0
AllDiffer = Pairwise Differ

sort_detections-perm :
    {ds es : List Detection} → Permᴰ ds es → AllDiffer ds → sort_detections ds ≡ sort_detections es
sort_detections-perm Permᴰ.nil h = refl
sort_detections-perm (Permᴰ.cons {a = a} {l₂ = l₂} e p) (Pairwise.cons n h) =
    ap (insert_detection a) (sort_detections-perm p h)
    ∙ ap (λ x. insert_detection x (sort_detections l₂)) e
sort_detections-perm (Permᴰ.swap {a = a} {b = b} {l = l} e e') (Pairwise.cons n h) =
    insert_detection_comm a b (sort_detections l) (n b mem-cons_self)
    ∙ ap₂ (λ x y. insert_detection x (insert_detection y (sort_detections l))) e' e
sort_detections-perm (Permᴰ.trans p q) h =
    sort_detections-perm p h
    ∙ sort_detections-perm q (Permᴰ.pairwise (λ a b. ¬_prop) (λ a b n e. n (sym e)) p h)

module _ (F : Float) (sum_floats : List F.Num → F.Num) (round4 : F.Num → F.Num) (whole : F.Num → ℕ)
    (detection_digest : List Detection → ℕ) (digest : BucketIdentity → ℕ) where
  -- The id of a window that ends then, from the start and the hash of these fragments.
  abbrev pub id_at : ℕ → ℕ → ℕ → BucketData F → List (BucketData F) → ℕ
  id_at serial_number camera_id end g gs = digest (record {
    camera_id = camera_id;
    detection_hash =
        compute_detection_hash F sum_floats round4 whole detection_digest digest (g ∷ gs);
    end_utc = end;
    schema_version = 2;
    serial_number = serial_number;
    start_utc = g.bucket_start;
  })

  hash-perm :
      (f g : BucketData F) (fs gs : List (BucketData F))
      → Perm (f ∷ fs) (g ∷ gs)
      → AllDiffer (map (detection_of F) (f ∷ fs))
      → compute_detection_hash F sum_floats round4 whole detection_digest digest (f ∷ fs)
        ≡ compute_detection_hash F sum_floats round4 whole detection_digest digest (g ∷ gs)
  unfolding compute_detection_hash
  hash-perm f g fs gs p d =
      ∥∥₁_elim p (ℕ_set _ _)
        (λ q. ap detection_digest (sort_detections-perm (Permᴰ.map (detection_of F) q) d))

  -- The hash of a window's fragments, one for each object type, does not depend on the order in which
  -- they are read back. The bucket's id, for fragments with one start, depends on that order only
  -- through the end of the fragment that is read first: where the first fragments of two orders have
  -- one end the ids are the same, and otherwise they hash the same texts except for that end.
  pub bucket_id_of-perm :
      (serial_number camera_id : ℕ) (f g : BucketData F) (fs gs : List (BucketData F))
      → Perm (f ∷ fs) (g ∷ gs)
      → AllDiffer (map (detection_of F) (f ∷ fs))
      → f.bucket_start ≡ g.bucket_start
      → (compute_detection_hash F sum_floats round4 whole detection_digest digest (f ∷ fs)
          ≡ compute_detection_hash F sum_floats round4 whole detection_digest digest (g ∷ gs))
        × (bucket_id_of F sum_floats round4 whole detection_digest digest serial_number camera_id f
              fs
            ≡ (if f.bucket_end == g.bucket_end
                then bucket_id_of F sum_floats round4 whole detection_digest digest serial_number
                    camera_id g gs
                else id_at serial_number camera_id f.bucket_end g gs))
  unfolding bucket_id_of
  bucket_id_of-perm serial camera f g fs gs p d start =
      let same = hash-perm f g fs gs p d in
      let moved : bucket_id_of F sum_floats round4 whole detection_digest digest serial camera f fs
          ≡ id_at serial camera f.bucket_end g gs =
        λ i. digest (record {
          camera_id = camera;
          detection_hash = same i;
          end_utc = f.bucket_end;
          schema_version = 2;
          serial_number = serial;
          start_utc = start i;
        }) in
      (
        same,
        elim (Bool-cases (f.bucket_end == g.bucket_end)) [
          | inl e ↦ rw e (moved ∙ ap (λ end. id_at serial camera end g gs) ((==_iff _ _).0 e))
          | inr e ↦ rw e moved
        ],
      )
