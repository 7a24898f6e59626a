-- ===== src/Reports/Apart.antt =====
-- What dedup_images keeps.
use panoptic.Common.{
  ℕ, ◌+◌, ◌≡◌, refl, sym, ap, ◌∙◌, Bool, true, false, not, ◌||◌, Option, none, some, List, [], ◌∷◌,
  leb, All, All-map, Pairs, Bool-cases, inl, inr, arith, sort_by, sort_by-Pairs,
}
use panoptic.Jobs.Model.{Text}
use panoptic.Auth.{text_eq}
use panoptic.Auth.Laws.{text_eq→≡}
use panoptic.Reports.{
  ReportImage, is_earlier, last_of, is_near, keep_at, keep_first, is_shown_before, dedup_ordered,
  dedup_images,
}

text_eq_symm : (s t : Text) → text_eq s t ≡ text_eq t s
text_eq_symm [] [] = refl
text_eq_symm [] (d ∷ t) = refl
text_eq_symm (c ∷ s) [] = refl
text_eq_symm (c ∷ s) (d ∷ t) = let ih = text_eq_symm s t in ground arith

-- Not within the window of one another.
abbrev pub times_apart : Option ℕ → Option ℕ → Bool
times_apart none _ = true
times_apart (some t) none = true
times_apart (some t) (some u) = leb (t + 300) u || leb (u + 300) t

abbrev pub are_apart : ReportImage → ReportImage → Bool
are_apart x y = not (text_eq x.trigger y.trigger) || times_apart x.bucket_start y.bucket_start

times_apart_symm : (t u : Option ℕ) → times_apart t u ≡ times_apart u t
times_apart_symm none none = refl
times_apart_symm none (some u) = refl
times_apart_symm (some t) none = refl
times_apart_symm (some t) (some u) = ground arith

are_apart_symm : (x y : ReportImage) → are_apart x y ≡ true → are_apart y x ≡ true
are_apart_symm x y h =
    rw (text_eq_symm y.trigger x.trigger, times_apart_symm y.bucket_start x.bucket_start) h

-- Not near the last kept time of its trigger.
abbrev is_far : Option ℕ → Option ℕ → Bool
is_far none prev = true
is_far (some t) prev = not (is_near t prev)

abbrev far_from : List (Text × ℕ) → ReportImage → Bool
far_from last k = is_far k.bucket_start (last_of k.trigger last)

is_far_trans :
    (ts : ℕ) (k prev : Option ℕ)
    → is_near ts prev ≡ false
    → is_far k (some ts) ≡ true
    → is_far k prev ≡ true
is_far_trans ts none prev h g = refl
is_far_trans ts (some t) none h g = refl
is_far_trans ts (some t) (some p) h g = ground arith

far_from-older :
    (trigger : Text) (ts : ℕ) (last : List (Text × ℕ)) (k : ReportImage)
    → is_near ts (last_of trigger last) ≡ false
    → far_from ((trigger, ts) ∷ last) k ≡ true
    → far_from last k ≡ true
far_from-older trigger ts last k h g = elim (Bool-cases (text_eq trigger k.trigger)) [
  | inl e ↦
      is_far_trans ts k.bucket_start (last_of k.trigger last)
        (ap (λ t. is_near ts (last_of t last)) (sym (text_eq→≡ trigger k.trigger e)) ∙ h)
        (rw e at g)
  | inr e ↦ (rw e at g)
]

is_far-apart : (ts : ℕ) (k : Option ℕ) → is_far k (some ts) ≡ true → times_apart (some ts) k ≡ true
is_far-apart ts none h = refl
is_far-apart ts (some t) h = ground arith

far_from-apart :
    (x : ReportImage) (ts : ℕ) (last : List (Text × ℕ)) (k : ReportImage)
    → x.bucket_start ≡ some ts
    → far_from ((x.trigger, ts) ∷ last) k ≡ true
    → are_apart x k ≡ true
far_from-apart x ts last k at_ts g = elim (Bool-cases (text_eq x.trigger k.trigger)) [
  | inl e ↦ rw (e, at_ts) (is_far-apart ts k.bucket_start (rw e at g))
  | inr e ↦ rw e refl
]

-- What a round adds is far from what was kept before, if the rest is far from what it is given.
keep_at-far :
    (x : ReportImage) (last : List (Text × ℕ)) (o : Option ℕ)
    (rest : List (Text × ℕ) → List ReportImage)
    → x.bucket_start ≡ o
    → ((l : List (Text × ℕ)) → All (λ k. far_from l k ≡ true) (rest l))
    → All (λ k. far_from last k ≡ true) (keep_at x last o rest)
unfolding keep_at
keep_at-far x last none rest e ih = (rw e refl, ih last)
keep_at-far x last (some ts) rest e ih = elim (Bool-cases (is_near ts (last_of x.trigger last))) [
  | inl near ↦ rw near (ih last)
  | inr far ↦ rw far (
    rw (e, far) refl,
    All-map _ _ (λ k. far_from-older x.trigger ts last k far) (rest ((x.trigger, ts) ∷ last))
        (ih ((x.trigger, ts) ∷ last)),
  )
]

keep_first-far :
    (last : List (Text × ℕ)) (xs : List ReportImage)
    → All (λ k. far_from last k ≡ true) (keep_first last xs)
unfolding keep_first
keep_first-far last [] = tt
keep_first-far last (x ∷ xs) =
    keep_at-far x last x.bucket_start (λ l. keep_first l xs) refl (λ l. keep_first-far l xs)

abbrev pub AllApart : List ReportImage → Type 0
AllApart = Pairs (λ x y. are_apart x y ≡ true)

without_time-apart :
    (x : ReportImage) (xs : List ReportImage)
    → x.bucket_start ≡ none
    → All (λ y. are_apart x y ≡ true) xs
without_time-apart x [] e = tt
without_time-apart x (y ∷ xs) e = (rw e (ground arith), without_time-apart x xs e)

keep_at-AllApart :
    (x : ReportImage) (last : List (Text × ℕ)) (o : Option ℕ)
    (rest : List (Text × ℕ) → List ReportImage)
    → x.bucket_start ≡ o
    → ((l : List (Text × ℕ)) → All (λ k. far_from l k ≡ true) (rest l))
    → ((l : List (Text × ℕ)) → AllApart (rest l))
    → AllApart (keep_at x last o rest)
unfolding keep_at
keep_at-AllApart x last none rest e far ih = (without_time-apart x (rest last) e, ih last)
keep_at-AllApart x last (some ts) rest e far ih =
    elim (Bool-cases (is_near ts (last_of x.trigger last))) [
      | inl near ↦ rw near (ih last)
      | inr new ↦
          let next = (x.trigger, ts) ∷ last in
          rw new (All-map _ _ (λ k. far_from-apart x ts last k e) (rest next) (far next), ih next)
    ]

keep_first-AllApart :
    (last : List (Text × ℕ)) (xs : List ReportImage) → AllApart (keep_first last xs)
unfolding keep_first
keep_first-AllApart last [] = tt
keep_first-AllApart last (x ∷ xs) =
    keep_at-AllApart x last x.bucket_start (λ l. keep_first l xs) refl (λ l. keep_first-far l xs)
      (λ l. keep_first-AllApart l xs)

pub dedup_images-AllApart : (images : List ReportImage) → AllApart (dedup_images images)
unfolding dedup_images dedup_ordered
dedup_images-AllApart [] = tt
dedup_images-AllApart (x ∷ []) = (tt, tt)
dedup_images-AllApart (x ∷ y ∷ xs) =
    sort_by-Pairs is_shown_before (λ x y. are_apart x y ≡ true) _ are_apart_symm
      (keep_first-AllApart [] (sort_by is_earlier (x ∷ y ∷ xs)))
