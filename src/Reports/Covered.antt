-- ===== src/Reports/Covered.antt =====
-- What dedup_images drops.
use mathlib.Core.Bool.{true≢false}
use panoptic.Common.{
  ℕ, ◌≡◌, refl, sym, ap, ◌∙◌, Bool, true, false, not, ◌&&◌, ◌||◌, Option, none, some, List, [], ◌∷◌,
  if◌then◌else◌, any, All, All-map, Bool-cases, inl, inr, arith, sort_by, sort_by-any,
  sort_by-InOrder,
}
use panoptic.Jobs.Model.{Text}
use panoptic.Auth.Laws.{text_eq_refl}
use panoptic.Reports.{
  ReportImage, starts_before, is_earlier, keep_at, keep_first, is_shown_before, dedup_ordered,
  dedup_images,
}
use panoptic.Reports.Apart.{AllApart, dedup_images-AllApart}
use panoptic.Reports.Rounds.{
  covers, covers_time_refl, is_recent, below, IsCovered, keep_first-IsCovered,
}

is_earlier_total : (x y : ReportImage) → is_earlier x y ≡ false → is_earlier y x ≡ true
unfolding is_earlier
is_earlier_total x y h = total x.bucket_start y.bucket_start h
  where
    total : (t u : Option ℕ) → starts_before t u ≡ false → starts_before u t ≡ true
    total none none h = refl
    total none (some u) h = ground arith
    total (some t) none h = refl
    total (some t) (some u) h = ground arith

is_earlier_trans :
    (x y z : ReportImage) → is_earlier x y ≡ true → is_earlier y z ≡ true → is_earlier x z ≡ true
unfolding is_earlier
is_earlier_trans x y z h k = trans x.bucket_start y.bucket_start z.bucket_start h k
  where
    trans :
        (t u v : Option ℕ)
        → starts_before t u ≡ true
        → starts_before u v ≡ true
        → starts_before t v ≡ true
    trans none u v h k = refl
    trans (some t) none v h k = ground arith
    trans (some t) (some u) none h k = k
    trans (some t) (some u) (some v) h k = ground arith

All-below : (xs : List ReportImage) → All (λ y. below [] y ≡ true) xs
All-below [] = tt
All-below (x ∷ xs) = (refl, All-below xs)

-- Nothing is made up.
keep_at-any :
    (p : ReportImage → Bool) (x : ReportImage) (last : List (Text × ℕ)) (o : Option ℕ)
    (rest : List (Text × ℕ) → List ReportImage) (b : Bool)
    → ((l : List (Text × ℕ)) → (any p (rest l) && not b) ≡ false)
    → (any p (keep_at x last o rest) && not (if p x then true else b)) ≡ false
unfolding keep_at
keep_at-any p x last none rest b h = let it = h last in ground arith
keep_at-any p x last (some ts) rest b h =
    let it = h last in let next = h ((x.trigger, ts) ∷ last) in ground arith

keep_first-any :
    (p : ReportImage → Bool) (last : List (Text × ℕ)) (xs : List ReportImage)
    → (any p (keep_first last xs) && not (any p xs)) ≡ false
unfolding keep_first
keep_first-any p last [] = refl
keep_first-any p last (x ∷ xs) =
    keep_at-any p x last x.bucket_start (λ l. keep_first l xs) (any p xs)
      (λ l. keep_first-any p l xs)

covered_alone : (x : ReportImage) → any (covers x) (x ∷ []) ≡ true
covered_alone x = rw (text_eq_refl x.trigger, covers_time_refl x.bucket_start) refl

module _ (xs : List ReportImage) where
  no_more : (x : ReportImage) → IsCovered [] xs x → any (covers x) xs ≡ true
  no_more x h = plain x.bucket_start (any (covers x) xs) h
    where
      plain : (t : Option ℕ) (b : Bool) → (b || is_recent t none) ≡ true → b ≡ true
      plain none b h = ground arith
      plain (some t) b h = ground arith

-- A test that holds of each element of a sorted list holds of each element of the list.
none_fails :
    (p : ReportImage → Bool) (xs : List ReportImage)
    → All (λ x. p x ≡ true) xs
    → any (λ x. not (p x)) xs ≡ false
none_fails p [] h = refl
none_fails p (x ∷ xs) h = rw (h.0) (none_fails p xs h.1)

All-hold :
    (p : ReportImage → Bool) (xs : List ReportImage)
    → any (λ x. not (p x)) xs ≡ false
    → All (λ x. p x ≡ true) xs
All-hold p [] h = tt
All-hold p (x ∷ xs) h = elim (Bool-cases (p x)) [
  | inl e ↦ (e, All-hold p xs (rw e at h))
  | inr e ↦ absurd (true≢false (rw e at h))
]

unsorted :
    (le : ReportImage → ReportImage → Bool) (p : ReportImage → Bool) (xs : List ReportImage)
    → All (λ x. p x ≡ true) (sort_by le xs)
    → All (λ x. p x ≡ true) xs
unsorted le p xs h =
    All-hold p xs (sym (sort_by-any le (λ x. not (p x)) xs) ∙ none_fails p (sort_by le xs) h)

module _ (images : List ReportImage) where
  ordered_covered :
      All
        (λ x. any (covers x) (keep_first [] (sort_by is_earlier images)) ≡ true)
        (sort_by is_earlier images)
  ordered_covered =
      let ordered = sort_by is_earlier images in
      All-map _ _ (no_more (keep_first [] ordered)) ordered (
        keep_first-IsCovered [] ordered
          (sort_by-InOrder is_earlier is_earlier_total is_earlier_trans images) (All-below ordered))

  dedup_ordered-covers : All (λ x. any (covers x) (dedup_ordered images) ≡ true) images
  unfolding dedup_ordered
  dedup_ordered-covers =
      let kept = keep_first [] (sort_by is_earlier images) in
      unsorted is_earlier (λ x. any (covers x) (sort_by is_shown_before kept)) images
        (All-map _ _ (λ x h. sort_by-any is_shown_before (covers x) kept ∙ h)
          (sort_by is_earlier images) ordered_covered)

  dedup_ordered-any :
      (p : ReportImage → Bool) → (any p (dedup_ordered images) && not (any p images)) ≡ false
  unfolding dedup_ordered
  dedup_ordered-any p =
      let ordered = sort_by is_earlier images in
      ap (λ b. b && not (any p images)) (sort_by-any is_shown_before p (keep_first [] ordered))
      ∙ ap (λ b. any p (keep_first [] ordered) && not b) (sym (sort_by-any is_earlier p images))
      ∙ keep_first-any p [] ordered

dedup_images-covers :
    (images : List ReportImage) → All (λ x. any (covers x) (dedup_images images) ≡ true) images
unfolding dedup_images
dedup_images-covers [] = tt
dedup_images-covers (x ∷ []) = (covered_alone x, tt)
dedup_images-covers (x ∷ y ∷ xs) = dedup_ordered-covers (x ∷ y ∷ xs)

itself : (b : Bool) → (b && not b) ≡ false
itself true = refl
itself false = refl

dedup_images-any :
    (images : List ReportImage) (p : ReportImage → Bool)
    → (any p (dedup_images images) && not (any p images)) ≡ false
unfolding dedup_images
dedup_images-any [] p = refl
dedup_images-any (x ∷ []) p = itself (any p (x ∷ []))
dedup_images-any (x ∷ y ∷ xs) p = dedup_ordered-any (x ∷ y ∷ xs) p

-- Of a report's images dedup_images keeps some, and makes none up: no test holds of a kept image and of
-- none of the images. Two kept images of one trigger are at least 300 seconds apart, unless one has no
-- time. And for each image one of its trigger is kept with its time or one less than 300 seconds before
-- it; for an image without a time, one without a time.
pub dedup_images_lem :
    (images : List ReportImage) (p : ReportImage → Bool)
    → AllApart (dedup_images images)
      × All (λ x. any (covers x) (dedup_images images) ≡ true) images
      × ((any p (dedup_images images) && not (any p images)) ≡ false)
dedup_images_lem images p =
    (dedup_images-AllApart images, dedup_images-covers images, dedup_images-any images p)
