-- ===== src/Signals/Gates.antt =====
-- Which markers can stand together, and which are produced at all.
use panoptic.Common.{
  ℕ, ◌≡◌, refl, ap, ◌∙◌, Bool, true, false, ◌||◌, Option, none, some, List, All, All-append, arith,
  Bool-cases, inl, inr,
}
use panoptic.Float.{Float}
use panoptic.Signals.{
  Marker, MarkerKey, key_eq, after_hours, drop, start, late_start, underperforming, Fragment,
  BucketHistory, derive_markers, derive_drop, derive_start, derive_late_start,
  derive_underperforming, attempted, allowed_markers, derive_history_markers,
}
use panoptic.Signals.Families.{
  has_key, IsOf, drop-IsOf, start-IsOf, late_start-IsOf, underperforming-IsOf, any-append,
  has_attempted, after_hours_at_night, drop_at_day, start_before_first, late_start_after_first,
  underperforming_needs_first, has_none,
}

module _ (F : Float) where
  module _ (n t : ℕ) (h : BucketHistory F) (produce : Option (MarkerKey → Bool)) where
    -- The markers of a history, by family.
    abbrev family : MarkerKey → Option (Marker F) → List (Marker F)
    family k o = attempted F (allowed_markers F produce k) o

    has_history :
        (k : MarkerKey)
        → has_key F k (derive_history_markers F n t h produce) ≡ (
            has_key F k (family drop (derive_drop F n t h))
            || (has_key F k (family start (derive_start F n t h))
                || (has_key F k (family late_start (derive_late_start F n t h))
                    || has_key F k (family underperforming (derive_underperforming F n t h)))))
    unfolding derive_history_markers
    has_history k =
        any-append F k (family drop (derive_drop F n t h)) _
        ∙ ap (◌||◌ (has_key F k (family drop (derive_drop F n t h)))) (
            any-append F k (family start (derive_start F n t h)) _
            ∙ ap (◌||◌ (has_key F k (family start (derive_start F n t h))))
                (any-append F k (family late_start (derive_late_start F n t h)) _))

    absent :
        (k : MarkerKey)
        → has_key F k (family drop (derive_drop F n t h)) ≡ false
        → has_key F k (family start (derive_start F n t h)) ≡ false
        → has_key F k (family late_start (derive_late_start F n t h)) ≡ false
        → has_key F k (family underperforming (derive_underperforming F n t h)) ≡ false
        → has_key F k (derive_history_markers F n t h produce) ≡ false
    absent k a b c d = has_history k ∙ ground arith

    no_drop :
        (k : MarkerKey)
        → key_eq drop k ≡ false
        → has_key F k (family drop (derive_drop F n t h)) ≡ false
    no_drop k = has_attempted F k drop t _ _ (drop-IsOf F n t h)

    no_start :
        (k : MarkerKey)
        → key_eq start k ≡ false
        → has_key F k (family start (derive_start F n t h)) ≡ false
    no_start k = has_attempted F k start t _ _ (start-IsOf F n t h)

    no_late_start :
        (k : MarkerKey)
        → key_eq late_start k ≡ false
        → has_key F k (family late_start (derive_late_start F n t h)) ≡ false
    no_late_start k = has_attempted F k late_start t _ _ (late_start-IsOf F n t h)

    no_underperforming :
        (k : MarkerKey)
        → key_eq underperforming k ≡ false
        → has_key F k (family underperforming (derive_underperforming F n t h)) ≡ false
    no_underperforming k = has_attempted F k underperforming t _ _ (underperforming-IsOf F n t h)

    unfired : (k : MarkerKey) (o : Option (Marker F)) → o ≡ none → has_key F k (family k o) ≡ false
    unfired k o e = ap (λ (x : Option (Marker F)). has_key F k (family k x)) e ∙ has_none F k _

    -- A bucket whose fragments give an after_hours marker gets no drop marker from its history,
    -- whichever families are produced.
    pub after_hours_excludes_drop :
        (fragments : List (Fragment F))
        → has_key F after_hours (derive_markers F fragments t) ≡ true
        → has_key F drop (derive_history_markers F n t h produce) ≡ false
    after_hours_excludes_drop fragments e =
        absent drop (unfired drop _ (drop_at_day F n t h (after_hours_at_night F fragments t e)))
          (no_start drop refl) (no_late_start drop refl) (no_underperforming drop refl)

    -- The markers for the first activity of a day and the marker for a slack day exclude one
    -- another: with an earlier active bucket on that day there is no start and no late_start, and
    -- without one there is no underperforming.
    pub first_of_day_gates :
        ((first : ℕ)
          → h.first_active_bucket_start_today ≡ some first
          → (has_key F start (derive_history_markers F n t h produce) ≡ false)
            × (has_key F late_start (derive_history_markers F n t h produce) ≡ false))
        × (h.first_active_bucket_start_today ≡ none
            → has_key F underperforming (derive_history_markers F n t h produce) ≡ false)
    first_of_day_gates = (
      (λ first e. (
        absent start (no_drop start refl) (unfired start _ (start_before_first F n t h first e))
            (no_late_start start refl) (no_underperforming start refl),
        absent late_start (no_drop late_start refl) (no_start late_start refl)
            (unfired late_start _
              (unfold derive_late_start in late_start_after_first F n t h first _ e))
            (no_underperforming late_start refl),
      )),
      λ e.
          absent underperforming (no_drop underperforming refl) (no_start underperforming refl)
            (no_late_start underperforming refl)
            (unfired underperforming _ (underperforming_needs_first F n t h e)),
    )

    allowed_family :
        (k : MarkerKey) (o : Option (Marker F))
        → IsOf F k t o
        → All (λ m. (allowed_markers F produce m.event_type ≡ true) × (m.ts ≡ t)) (family k o)
    allowed_family k none h = split (allowed_markers F produce k)
      where
        split :
            (b : Bool)
            → All
                (λ m. (allowed_markers F produce m.event_type ≡ true) × (m.ts ≡ t))
                (attempted F b none)
        split false = tt
        split true = tt
    allowed_family k (some m) h = elim (Bool-cases (allowed_markers F produce k)) [
      | inl e ↦ rw e ((rw h.0 e, h.1), tt)
      | inr e ↦ rw e tt
    ]

    -- Only families that are to be produced give markers, and every marker carries the bucket's start
    -- as its time.
    pub history_markers_allowed :
        All
          (λ m. (allowed_markers F produce m.event_type ≡ true) × (m.ts ≡ t))
          (derive_history_markers F n t h produce)
    unfolding derive_history_markers
    history_markers_allowed =
        All-append _ (family drop (derive_drop F n t h)) _
          (allowed_family drop _ (drop-IsOf F n t h))
          (All-append _ (family start (derive_start F n t h)) _
            (allowed_family start _ (start-IsOf F n t h))
            (All-append _ (family late_start (derive_late_start F n t h)) _
              (allowed_family late_start _ (late_start-IsOf F n t h))
              (allowed_family underperforming _ (underperforming-IsOf F n t h))))

  -- With no choice of families there is never an underperforming marker.
  pub default_without_underperforming :
      (n t : ℕ) (h : BucketHistory F)
      → has_key F underperforming (derive_history_markers F n t h none) ≡ false
  default_without_underperforming n t h =
      absent n t h none underperforming (no_drop n t h none underperforming refl)
        (no_start n t h none underperforming refl) (no_late_start n t h none underperforming refl)
        refl
