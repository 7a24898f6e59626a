-- ===== src/History/Past.antt =====
-- The history depends on the camera's earlier rows only, and its numbers are bounded.
use panoptic.Common.{
  ℕ, ◌-◌, ◌*◌, ◌/◌, ◌≤◌, ◌<◌, ◌≡◌, refl, sym, ap, ◌∙◌, Bool, true, false, Option, none, some, List,
  [], ◌∷◌, leb, ◌==◌, length, take, select, map, Bool-cases, Option-cases, inl, inr, arith,
  length-map, length-take-le, All,
}
use panoptic.Float.{Float}
use panoptic.Signals.{hour_of}
use panoptic.Buckets.{BucketRecord}
use panoptic.History.{
  is_before, is_active_between, utc_day_floor, day_seconds, fetch_rolling_stats, rolling_stats,
  fetch_same_day_context, fetch_day_baseline, fetch_bucket_history, quiet_minutes, latest_first,
  detections, typical_hour, median, sort_numbers, insert_number, number_at,
}

module _ {ℓ} {A : Type ℓ} where
  -- A stricter selection may be made from a looser one.
  select-select :
      (p q : A → Bool)
      → ((x : A) → q x ≡ true → p x ≡ true)
      → (xs : List A) → select q (select p xs) ≡ select q xs
  select-select p q h [] = refl
  select-select p q h (x ∷ xs) = elim (Bool-cases (p x)) [
    | inl e ↦ rw (e, select-select p q h xs) refl
    | inr e ↦ elim (Bool-cases (q x)) [
      | inl k ↦ absurd (apart (h x k) e)
      | inr k ↦ rw (e, k, select-select p q h xs) refl
    ]
  ]
    where
      apart : p x ≡ true → p x ≡ false → ⊥
      apart a b = ground arith

  select_agree :
      (p q : A → Bool)
      → ((x : A) → q x ≡ true → p x ≡ true)
      → (xs ys : List A) → select p xs ≡ select p ys
      → select q xs ≡ select q ys
  select_agree p q h xs ys same =
      sym (select-select p q h xs) ∙ ap (select q) same ∙ select-select p q h ys

module _ (F : Float) (mean stdev : List F.Num → F.Num) where
  between-before :
      (serial camera low high t : ℕ) (b : BucketRecord F)
      → high ≤ t
      → is_active_between F mean stdev serial camera low high b ≡ true
      → is_before F mean stdev serial camera t b ≡ true
  between-before serial camera low high t b h e = ground arith

  module _ (serial camera t : ℕ) (rows rows' : List (BucketRecord F))
      (same : select (is_before F mean stdev serial camera t) rows
        ≡ select (is_before F mean stdev serial camera t) rows') where
    between_agrees :
        (low high : ℕ)
        → high ≤ t
        → select (is_active_between F mean stdev serial camera low high) rows
          ≡ select (is_active_between F mean stdev serial camera low high) rows'
    between_agrees low high h =
        select_agree (is_before F mean stdev serial camera t)
          (is_active_between F mean stdev serial camera low high)
          (λ b. between-before serial camera low high t b h) rows rows' same

    rolling_agrees :
        fetch_rolling_stats F mean stdev serial camera t rows
        ≡ fetch_rolling_stats F mean stdev serial camera t rows'
    unfolding fetch_rolling_stats
    rolling_agrees = rw same refl

    same_day_agrees :
        fetch_same_day_context F mean stdev serial camera t rows
        ≡ fetch_same_day_context F mean stdev serial camera t rows'
    unfolding fetch_same_day_context
    same_day_agrees =
        rw (between_agrees (utc_day_floor t) t (omega arith), between_agrees 0 t (omega arith)) refl

    baseline_agrees :
        fetch_day_baseline F mean stdev serial camera t rows
        ≡ fetch_day_baseline F mean stdev serial camera t rows'
    unfolding fetch_day_baseline
    baseline_agrees =
        rw (between_agrees (utc_day_floor t - 14 * day_seconds) (utc_day_floor t) (omega arith))
          refl

    history_agrees :
        fetch_bucket_history F mean stdev serial camera t rows
        ≡ fetch_bucket_history F mean stdev serial camera t rows'
    unfolding fetch_bucket_history
    history_agrees = rw (rolling_agrees, same_day_agrees, baseline_agrees) refl

  rolling_size : (counts : List F.Num) → (rolling_stats F mean stdev counts).2 ≡ length counts
  unfolding rolling_stats
  rolling_size [] = refl
  rolling_size (c ∷ []) = refl
  rolling_size (c ∷ d ∷ counts) = refl

IsBelow : ℕ → List ℕ → Type 0
IsBelow n = All (λ m. m < n)

insert_number-IsBelow :
    (n m : ℕ) (ms : List ℕ) → m < n → IsBelow n ms → IsBelow n (insert_number m ms)
unfolding IsBelow insert_number
insert_number-IsBelow n m [] h k = (h, tt)
insert_number-IsBelow n m (x ∷ xs) h k = elim (Bool-cases (leb m x)) [
  | inl e ↦ rw e (h, k)
  | inr e ↦ rw e (k.0, insert_number-IsBelow n m xs h k.1)
]

sort_numbers-IsBelow : (n : ℕ) (ms : List ℕ) → IsBelow n ms → IsBelow n (sort_numbers ms)
unfolding IsBelow sort_numbers
sort_numbers-IsBelow n [] k = tt
sort_numbers-IsBelow n (m ∷ ms) k =
    insert_number-IsBelow n m (sort_numbers ms) k.0 (sort_numbers-IsBelow n ms k.1)

number_at_below : (n i : ℕ) (ms : List ℕ) → 0 < n → IsBelow n ms → number_at i ms < n
unfolding IsBelow number_at
number_at_below n i [] h k = h
number_at_below n i (m ∷ ms) h k = elim (Bool-cases (i == 0)) [
  | inl e ↦ rw e k.0
  | inr e ↦ rw e (number_at_below n (i - 1) ms h k.1)
]

median_below : (n : ℕ) (ms : List ℕ) → 0 < n → IsBelow n ms → median ms < n
unfolding median
median_below n ms h k =
    let below : (i : ℕ) → number_at i (sort_numbers ms) < n =
      λ i. number_at_below n i (sort_numbers ms) h (sort_numbers-IsBelow n ms k) in
    ground (arith, below (length ms / 2), below (length ms / 2 - 1))

hours-IsBelow : (days : List (ℕ × ℕ)) → IsBelow 24 (map (λ x. hour_of x.1) days)
unfolding IsBelow
hours-IsBelow [] = tt
hours-IsBelow (d ∷ days) = (omega arith, hours-IsBelow days)

typical_hour_below :
    (F : Float) (mean stdev : List F.Num → F.Num) (days : List (ℕ × ℕ)) (hour : ℕ)
    → typical_hour F mean stdev days ≡ some hour
    → hour < 24
typical_hour_below F mean stdev [] hour e = ground arith
typical_hour_below F mean stdev (d ∷ days) hour e =
    let below =
      median_below 24 (map (λ x. hour_of x.1) (d ∷ days)) (omega arith)
        (hours-IsBelow (d ∷ days)) in
    ground (arith, below)

abbrev pub IsHourIfAny : Option ℕ → Type 0
IsHourIfAny none = Unit
IsHourIfAny (some hour) = hour < 24

module _ (F : Float) (mean stdev : List F.Num → F.Num) (serial camera t : ℕ) where
  typical_hour-IsHourIfAny : (days : List (ℕ × ℕ)) → IsHourIfAny (typical_hour F mean stdev days)
  typical_hour-IsHourIfAny days = elim (Option-cases (typical_hour F mean stdev days)) [
    | inl e ↦ rw e tt
    | inr (hour, e) ↦ rw e (typical_hour_below F mean stdev days hour e)
  ]

  quiet_below : (o : Option ℕ) → quiet_minutes F mean stdev t o ≤ 1440
  quiet_below none = omega arith
  quiet_below (some e) = omega arith

  -- The history of a camera as of a time depends only on that camera's buckets that start before the
  -- time: two tables with the same such rows, in the same order, give the same history. At most 96
  -- buckets enter the rolling statistics, the quiet run is at most 1440 minutes, and the typical
  -- first hour is below 24.
  pub fetch_bucket_history_lem :
      (rows rows' : List (BucketRecord F))
      → select (is_before F mean stdev serial camera t) rows
        ≡ select (is_before F mean stdev serial camera t) rows'
      → let h = fetch_bucket_history F mean stdev serial camera t rows in
        (h ≡ fetch_bucket_history F mean stdev serial camera t rows')
        × (h.rolling_bucket_sample_size ≤ 96)
        × (h.recent_quiet_run_minutes ≤ 1440)
        × IsHourIfAny h.typical_first_active_hour_utc
  unfolding fetch_bucket_history fetch_rolling_stats fetch_same_day_context fetch_day_baseline
  fetch_bucket_history_lem rows rows' same =
      let newest =
        take 96
          (latest_first F mean stdev (select (is_before F mean stdev serial camera t) rows)) in
      (
        history_agrees F mean stdev serial camera t rows rows' same,
        omega (
          arith,
          rolling_size F mean stdev (map (λ b. F.of_nat (detections F mean stdev b)) newest),
          length-map (λ b. F.of_nat (detections F mean stdev b)) newest,
          length-take-le 96
              (latest_first F mean stdev (select (is_before F mean stdev serial camera t) rows)),
        ),
        quiet_below _,
        typical_hour-IsHourIfAny _,
      )
