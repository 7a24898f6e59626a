-- ===== src/Signals/Families.antt =====
-- The marker that each derivation gives, and when it gives none.
use panoptic.Common.{
  ℕ, ◌≡◌, refl, sym, ◌∙◌, Bool, true, false, ◌||◌, Option, none, some, List, [], ◌∷◌, ◌++◌, arith,
  Bool-cases, inl, inr, any,
}
use panoptic.Float.{Float}
use panoptic.Signals.{
  Marker, MarkerKey, key_eq, after_hours, drop, start, late_start, underperforming, Fragment,
  BucketHistory, spike_of, spikes, derive_markers, derive_drop, derive_start, derive_late_start,
  late_start_after, derive_underperforming, attempted, is_after_hours, is_in_work_window, hour_of,
}

module _ (F : Float) where
  abbrev pub has_key : MarkerKey → List (Marker F) → Bool
  has_key k = any (λ m. key_eq m.event_type k)

  -- A marker of the given family at the given time, if there is one.
  abbrev pub IsOf : MarkerKey → ℕ → Option (Marker F) → Type 0
  IsOf k t none = Unit
  IsOf k t (some m) = (m.event_type ≡ k) × (m.ts ≡ t)

  pub drop-IsOf : (n t : ℕ) (h : BucketHistory F) → IsOf drop t (derive_drop F n t h)
  unfolding derive_drop
  drop-IsOf n t h = ground arith

  pub start-IsOf : (n t : ℕ) (h : BucketHistory F) → IsOf start t (derive_start F n t h)
  unfolding derive_start
  start-IsOf n t h = ground arith

  late_start_after-IsOf :
      (n t : ℕ) (h : BucketHistory F) (o : Option ℕ)
      → IsOf late_start t (late_start_after F n t h o)
  unfolding late_start_after
  late_start_after-IsOf n t h none = tt
  late_start_after-IsOf n t h (some typical) = ground arith

  pub late_start-IsOf :
      (n t : ℕ) (h : BucketHistory F) → IsOf late_start t (derive_late_start F n t h)
  unfolding derive_late_start
  late_start-IsOf n t h = late_start_after-IsOf n t h h.typical_first_active_hour_utc

  pub underperforming-IsOf :
      (n t : ℕ) (h : BucketHistory F) → IsOf underperforming t (derive_underperforming F n t h)
  unfolding derive_underperforming
  underperforming-IsOf n t h = ground arith

  pub any-append :
      (k : MarkerKey) (xs ys : List (Marker F))
      → has_key k (xs ++ ys) ≡ (has_key k xs || has_key k ys)
  any-append k [] ys = refl
  any-append k (x ∷ xs) ys = ground (arith, any-append k xs ys)

  pub has_attempted :
      (k j : MarkerKey) (t : ℕ) (b : Bool) (o : Option (Marker F))
      → IsOf j t o
      → key_eq j k ≡ false
      → has_key k (attempted F b o) ≡ false
  has_attempted k j t false o h e = refl
  has_attempted k j t true none h e = refl
  has_attempted k j t true (some m) h e = rw (h.0, e)

  spike_of-has :
      (t : ℕ) (f : Fragment F) (s : Option F.Num) → has_key after_hours (spike_of F t f s) ≡ false
  unfolding spike_of
  spike_of-has t f none = refl
  spike_of-has t f (some score) = ground arith

  spikes-has : (t : ℕ) (fs : List (Fragment F)) → has_key after_hours (spikes F t fs) ≡ false
  unfolding spikes
  spikes-has t [] = refl
  spikes-has t (f ∷ fs) =
      any-append after_hours (spike_of F t f f.anomaly_score) (spikes F t fs)
      ∙ ground (arith, spike_of-has t f f.anomaly_score, spikes-has t fs)

  none_before :
      (t : ℕ) (fs : List (Fragment F)) → (has_key after_hours (spikes F t fs) || false) ≡ false
  none_before t fs = ground (arith, spikes-has t fs)

  pub after_hours_at_night :
      (fs : List (Fragment F)) (t : ℕ)
      → has_key after_hours (derive_markers F fs t) ≡ true
      → is_after_hours (hour_of t) ≡ true
  unfolding derive_markers
  after_hours_at_night fs t h = elim (Bool-cases (is_after_hours (hour_of t))) [
    | inl e ↦ e
    | inr e ↦
        absurd
          (cc (sym (rw e at h) ∙ (any-append after_hours (spikes F t fs) [] ∙ none_before t fs)))
  ]

  pub drop_at_day :
      (n t : ℕ) (h : BucketHistory F)
      → is_after_hours (hour_of t) ≡ true
      → derive_drop F n t h ≡ none
  unfolding derive_drop
  drop_at_day n t h night = ground arith

  pub start_before_first :
      (n t : ℕ) (h : BucketHistory F) (first : ℕ)
      → h.first_active_bucket_start_today ≡ some first
      → derive_start F n t h ≡ none
  unfolding derive_start
  start_before_first n t h first e = ground arith

  pub late_start_after_first :
      (n t : ℕ) (h : BucketHistory F) (first : ℕ) (typical : Option ℕ)
      → h.first_active_bucket_start_today ≡ some first
      → late_start_after F n t h typical ≡ none
  unfolding late_start_after
  late_start_after_first n t h first none e = refl
  late_start_after_first n t h first (some typical) e = ground arith

  window_needs_first :
      (t : ℕ) (typical first : Option ℕ)
      → first ≡ none
      → is_in_work_window F t typical first ≡ false
  unfolding is_in_work_window
  window_needs_first t none first e = refl
  window_needs_first t (some typical) none e = refl
  window_needs_first t (some typical) (some first) e = cc

  pub underperforming_needs_first :
      (n t : ℕ) (h : BucketHistory F)
      → h.first_active_bucket_start_today ≡ none
      → derive_underperforming F n t h ≡ none
  unfolding derive_underperforming
  underperforming_needs_first n t h e = ground (
    arith,
    window_needs_first t h.typical_first_active_hour_utc h.first_active_bucket_start_today e,
  )

  pub has_none : (k : MarkerKey) (b : Bool) → has_key k (attempted F b none) ≡ false
  has_none k false = refl
  has_none k true = refl
