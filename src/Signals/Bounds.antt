-- ===== src/Signals/Bounds.antt =====
-- The confidence of every derived marker.
use panoptic.Common.{
  ℕ, ◌-◌, ◌^◌, ◌<◌, ◌≤◌, ◌≡◌, Bool, true, false, Option, none, some, List, [], ◌∷◌, All, All-append,
  arith,
}
use panoptic.Float.{Float, FloatLaws, py_min, InUnit}
use panoptic.Float.Clamp.{clamp-Within, literal-Within, lt_irrefl, tenths-InUnit}
use panoptic.Signals.{
  Marker, MarkerKey, drop, start, late_start, underperforming, Fragment, BucketHistory, spike_of,
  spikes, derive_markers, derive_drop, drop_confidence, derive_start, derive_late_start,
  late_start_after, late_start_confidence, derive_underperforming, underperforming_confidence,
  attempted, allowed_markers, derive_history_markers, hour_of,
}

module _ (F : Float) (L : FloatLaws F) where
  abbrev IsSound : Marker F → Type 0
  IsSound m = InUnit F m.confidence

  abbrev IsSoundIfAny : Option (Marker F) → Type 0
  IsSoundIfAny none = Unit
  IsSoundIfAny (some m) = IsSound m

  tenths : (a : ℕ) → a < 10 → 0 < a → InUnit F (F.literal a 1)
  tenths a h p =
      literal-Within F L 0 0 1 0 a 1 (omega arith) (omega arith) (omega arith) (omega arith)
        (omega arith) (omega arith) (omega arith) (omega arith)

  below_one :
      (a i : ℕ) → i ≤ 3 → a < 10 ^ i → a ≤ 1000 → F.lt (F.literal a i) (F.literal 1 0) ≡ true
  below_one a i hi h ha = L.literal_lt a i 1 0 ha (omega arith) hi (omega arith) (omega arith)

  spike-IsSound :
      (t : ℕ) (f : Fragment F) (score : Option F.Num) → All IsSound (spike_of F t f score)
  unfolding spike_of py_min
  spike-IsSound t f none = tt
  spike-IsSound t f (some score) = ground (
    arith,
    L.lt_of_lt_of_le (F.literal 0 0) (F.literal 7 1) score
        (tenths_above 7 (omega arith) (omega arith)),
    L.lt_asymm (F.literal 0 0) score,
    L.lt_asymm (F.literal 0 0) (F.literal 1 0)
        (below_one 0 0 (omega arith) (omega arith) (omega arith)),
    lt_irrefl F L (F.literal 1 0),
  )
    where
      tenths_above : (a : ℕ) → a < 10 → 0 < a → F.lt (F.literal 0 0) (F.literal a 1) ≡ true
      tenths_above a h p =
          L.literal_lt 0 0 a 1 (omega arith) (omega arith) (omega arith) (omega arith) (omega arith)

  spikes-IsSound : (t : ℕ) (fs : List (Fragment F)) → All IsSound (spikes F t fs)
  unfolding spikes
  spikes-IsSound t [] = tt
  spikes-IsSound t (f ∷ fs) =
      All-append IsSound _ (spikes F t fs) (spike-IsSound t f f.anomaly_score) (spikes-IsSound t fs)

  drop_confidence-InUnit : (n : ℕ) (h : BucketHistory F) → InUnit F (drop_confidence F n h)
  unfolding drop_confidence
  drop_confidence-InUnit n h =
      clamp-Within F L _ _ _ (below_one 0 0 (omega arith) (omega arith) (omega arith))

  late_start_confidence-InUnit : (d : ℕ) → InUnit F (late_start_confidence F d)
  unfolding late_start_confidence
  late_start_confidence-InUnit d =
      tenths-InUnit F L 5 _ (omega arith) (omega arith)
        (clamp-Within F L _ _ _ (below_one 5 1 (omega arith) (omega arith) (omega arith)))

  underperforming_confidence-InUnit :
      (n : ℕ) (h : BucketHistory F) → InUnit F (underperforming_confidence F n h)
  unfolding underperforming_confidence
  underperforming_confidence-InUnit n h =
      tenths-InUnit F L 3 _ (omega arith) (omega arith)
        (clamp-Within F L _ _ _ (below_one 3 1 (omega arith) (omega arith) (omega arith)))

  drop_sound : (n t : ℕ) (h : BucketHistory F) → IsSoundIfAny (derive_drop F n t h)
  unfolding derive_drop
  drop_sound n t h = ground (arith, drop_confidence-InUnit n h)

  start_sound : (n t : ℕ) (h : BucketHistory F) → IsSoundIfAny (derive_start F n t h)
  unfolding derive_start
  start_sound n t h = ground (arith, tenths 9 (omega arith) (omega arith))

  late_start_after_sound :
      (n t : ℕ) (h : BucketHistory F) (typical : Option ℕ)
      → IsSoundIfAny (late_start_after F n t h typical)
  unfolding late_start_after
  late_start_after_sound n t h none = tt
  late_start_after_sound n t h (some typical) =
      ground (arith, late_start_confidence-InUnit (hour_of t - typical - 2))

  underperforming_sound :
      (n t : ℕ) (h : BucketHistory F) → IsSoundIfAny (derive_underperforming F n t h)
  unfolding derive_underperforming
  underperforming_sound n t h = ground (arith, underperforming_confidence-InUnit n h)

  attempted-IsSound :
      (b : Bool) (m : Option (Marker F)) → IsSoundIfAny m → All IsSound (attempted F b m)
  attempted-IsSound false m h = tt
  attempted-IsSound true none h = tt
  attempted-IsSound true (some m) h = (h, tt)

  -- Under the laws of Float, every marker that is derived from a bucket's fragments has a
  -- confidence from 0.0 to 1.0.
  pub derive_markers_bounded :
      (fragments : List (Fragment F)) (bucket_start : ℕ)
      → All (λ m. InUnit F m.confidence) (derive_markers F fragments bucket_start)
  unfolding derive_markers
  derive_markers_bounded fragments t =
      All-append IsSound (spikes F t fragments) _ (spikes-IsSound t fragments)
        (ground (arith, tenths 9 (omega arith) (omega arith)))

  -- Under the laws of Float, every marker that is derived from a bucket's history has a confidence
  -- from 0.0 to 1.0, whatever the history's means and deviations are and whichever markers are
  -- produced.
  pub derive_history_markers_bounded :
      (total bucket_start : ℕ) (history : BucketHistory F) (produce : Option (MarkerKey → Bool))
      → All
          (λ m. InUnit F m.confidence)
          (derive_history_markers F total bucket_start history produce)
  unfolding derive_history_markers
  derive_history_markers_bounded n t h produce =
      All-append IsSound (attempted F (allowed_markers F produce drop) (derive_drop F n t h)) _
        (attempted-IsSound _ _ (drop_sound n t h))
        (All-append IsSound (attempted F (allowed_markers F produce start) (derive_start F n t h)) _
          (attempted-IsSound _ _ (start_sound n t h))
          (All-append IsSound
            (attempted F (allowed_markers F produce late_start) (derive_late_start F n t h)) _
            (attempted-IsSound _ _ (
              unfold derive_late_start in
              late_start_after_sound n t h h.typical_first_active_hour_utc))
            (attempted-IsSound (allowed_markers F produce underperforming) _
              (underperforming_sound n t h))))
