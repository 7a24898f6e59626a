-- ===== src/Reports/Rounds.antt =====
-- The rounds of dedup_images on images in the order of time.
use panoptic.Common.{
  ℕ, ◌+◌, ◌≡◌, refl, sym, ap, ◌∙◌, Bool, true, false, ◌&&◌, ◌||◌, Option, none, some, List, [], ◌∷◌,
  ltb, leb, any, All, All-map, All-map₂, Pairs, Bool-cases, inl, inr, arith, subst,
}
use panoptic.Jobs.Model.{Text}
use panoptic.Auth.{text_eq}
use panoptic.Auth.Laws.{text_eq_refl}
use panoptic.Reports.{ReportImage, starts_before, is_earlier, last_of, is_near, keep_at, keep_first}

-- The second image's time is at most the first's, and less than the window before it.
abbrev pub covers_time : Option ℕ → Option ℕ → Bool
covers_time none none = true
covers_time none (some u) = false
covers_time (some t) none = false
covers_time (some t) (some u) = leb u t && ltb t (u + 300)

-- The second image stands for the first: it has its trigger, and its time or one shortly before.
abbrev pub covers : ReportImage → ReportImage → Bool
covers x k = text_eq k.trigger x.trigger && covers_time x.bucket_start k.bucket_start

pub covers_time_refl : (o : Option ℕ) → covers_time o o ≡ true
covers_time_refl none = refl
covers_time_refl (some t) = ground arith

-- The last kept time covers the image's.
abbrev pub is_recent : Option ℕ → Option ℕ → Bool
is_recent none prev = false
is_recent (some t) none = false
is_recent (some t) (some p) = leb p t && ltb t (p + 300)

-- The last kept time is not behind the image's.
abbrev pub is_below : Option ℕ → Option ℕ → Bool
is_below none t = true
is_below (some p) none = false
is_below (some p) (some t) = leb p t

abbrev pub below : List (Text × ℕ) → ReportImage → Bool
below last x = is_below (last_of x.trigger last) x.bucket_start

abbrev pub IsCovered : List (Text × ℕ) → List ReportImage → ReportImage → Type 0
IsCovered last kept x =
    (any (covers x) kept || is_recent x.bucket_start (last_of x.trigger last)) ≡ true

near-recent :
    (ts : ℕ) (prev : Option ℕ)
    → is_near ts prev ≡ true
    → is_below prev (some ts) ≡ true
    → is_recent (some ts) prev ≡ true
near-recent ts none h k = h
near-recent ts (some p) h k = ground arith

recent-covers : (t : Option ℕ) (p : ℕ) → is_recent t (some p) ≡ true → covers_time t (some p) ≡ true
recent-covers none p h = cc
recent-covers (some t) p h = h

or_left : (a b : Bool) → a ≡ true → (a || b) ≡ true
or_left a b h = ground arith

or_right : (a b : Bool) → b ≡ true → (a || b) ≡ true
or_right a b h = ground arith

IsCovered-more :
    (x : ReportImage) (last : List (Text × ℕ)) (kept : List ReportImage) (y : ReportImage)
    → IsCovered last kept y
    → IsCovered last (x ∷ kept) y
IsCovered-more x last kept y h = ground arith

IsCovered-by :
    (x : ReportImage) (last : List (Text × ℕ)) (kept : List ReportImage)
    → IsCovered last (x ∷ kept) x
IsCovered-by x last kept = rw (text_eq_refl x.trigger, covers_time_refl x.bucket_start) refl

-- What the image just kept covers.
IsCovered-later :
    (x : ReportImage) (ts : ℕ) (last : List (Text × ℕ)) (kept : List ReportImage) (y : ReportImage)
    → x.bucket_start ≡ some ts
    → IsCovered ((x.trigger, ts) ∷ last) kept y
    → IsCovered last (x ∷ kept) y
IsCovered-later x ts last kept y e h = elim (Bool-cases (text_eq x.trigger y.trigger)) [
  | inl same ↦ elim (Bool-cases (is_recent y.bucket_start (some ts))) [
    | inl near ↦
        let cover : covers_time y.bucket_start x.bucket_start ≡ true =
          ap (covers_time y.bucket_start) e ∙ recent-covers y.bucket_start ts near in
        rw (same, cover) refl
    | inr far ↦
        let there : (any (covers y) kept || false) ≡ true = (rw (same, far) at h) in
        IsCovered-more x last kept y (
          or_left (any (covers y) kept) (is_recent y.bucket_start (last_of y.trigger last))
            (ground arith))
  ]
  | inr other ↦ IsCovered-more x last kept y (rw other at h)
]

below_later :
    (x : ReportImage) (ts : ℕ) (last : List (Text × ℕ)) (y : ReportImage)
    → x.bucket_start ≡ some ts
    → is_earlier x y ≡ true
    → below last y ≡ true
    → below ((x.trigger, ts) ∷ last) y ≡ true
unfolding is_earlier
below_later x ts last y e first low = elim (Bool-cases (text_eq x.trigger y.trigger)) [
  | inl same ↦ rw same (starts-below ts y.bucket_start (rw e at first))
  | inr other ↦ rw other low
]
  where
    starts-below :
        (ts : ℕ) (t : Option ℕ) → starts_before (some ts) t ≡ true → is_below (some ts) t ≡ true
    starts-below ts none h = h
    starts-below ts (some t) h = h

module _ (x : ReportImage) (last : List (Text × ℕ)) (ts : ℕ)
    (rest : List (Text × ℕ) → List ReportImage) where
  keep_at_near :
      is_near ts (last_of x.trigger last) ≡ true → keep_at x last (some ts) rest ≡ rest last
  unfolding keep_at
  keep_at_near near = rw near refl

  keep_at_far :
      is_near ts (last_of x.trigger last) ≡ false
      → keep_at x last (some ts) rest ≡ x ∷ rest ((x.trigger, ts) ∷ last)
  unfolding keep_at
  keep_at_far far = rw far refl

module _ (x : ReportImage) (xs : List ReportImage) (last : List (Text × ℕ))
    (rest : List (Text × ℕ) → List ReportImage) (first : All (λ y. is_earlier x y ≡ true) xs)
    (low : All (λ y. below last y ≡ true) (x ∷ xs))
    (ih : (l : List (Text × ℕ))
      → All (λ y. below l y ≡ true) xs
      → All (IsCovered l (rest l)) xs) where
  keep_at-IsCovered :
      (o : Option ℕ) → x.bucket_start ≡ o → All (IsCovered last (keep_at x last o rest)) (x ∷ xs)
  unfolding keep_at
  keep_at-IsCovered none e = (
    IsCovered-by x last (rest last),
    All-map _ _ (λ y. IsCovered-more x last (rest last) y) xs (ih last low.1),
  )
  keep_at-IsCovered (some ts) e = elim (Bool-cases (is_near ts (last_of x.trigger last))) [
    | inl near ↦
        let recent : is_recent x.bucket_start (last_of x.trigger last) ≡ true =
          ap (λ t. is_recent t (last_of x.trigger last)) e
          ∙ near-recent ts (last_of x.trigger last) near
              (sym (ap (is_below (last_of x.trigger last)) e) ∙ low.0) in
        subst (λ kept. All (IsCovered last kept) (x ∷ xs)) (sym (keep_at_near x last ts rest near))
          (or_right (any (covers x) (rest last)) _ recent, ih last low.1)
    | inr far ↦
        let next = (x.trigger, ts) ∷ last in
        subst (λ kept. All (IsCovered last kept) (x ∷ xs)) (sym (keep_at_far x last ts rest far))
          (
            IsCovered-by x last (rest next),
            All-map _ _ (λ y. IsCovered-later x ts last (rest next) y e) xs
                (ih next (All-map₂ _ _ _ (λ y. below_later x ts last y e) xs first low.1)),
          )
  ]

pub keep_first-IsCovered :
    (last : List (Text × ℕ)) (xs : List ReportImage)
    → Pairs (λ x y. is_earlier x y ≡ true) xs
    → All (λ y. below last y ≡ true) xs
    → All (IsCovered last (keep_first last xs)) xs
unfolding keep_first
keep_first-IsCovered last [] p low = tt
keep_first-IsCovered last (x ∷ xs) p low =
    keep_at-IsCovered x xs last (λ l. keep_first l xs) p.0 low
      (λ l h. keep_first-IsCovered l xs p.1 h) x.bucket_start refl
