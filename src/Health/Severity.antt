-- ===== src/Health/Severity.antt =====
-- The overall status.
use panoptic.Common.{
  ℕ, ◌≡◌, refl, Bool, not, ◌&&◌, List, [], ◌∷◌, if◌then◌else◌, any, Bool-cases, inl, inr,
}
use panoptic.Jobs.Model.{Text}
use panoptic.Auth.{contains}
use panoptic.Health.{DepStatus, HealthState, Status, ok, degraded, error, status_from, snapshot}

abbrev pub is_down : Text × DepStatus → Bool
is_down d = not d.1.ok

abbrev pub is_down_critical : List Text → Text × DepStatus → Bool
is_down_critical critical d = not d.1.ok && contains d.0 critical

-- error if a critical dependency is down, else degraded if any is, else ok
abbrev pub expected_status : HealthState → Status
expected_status h =
    if any (is_down_critical h.critical_deps) h.deps
    then error
    else if any is_down h.deps
    then degraded
    else ok

status_from_degraded :
    (critical : List Text) (ds : List (Text × DepStatus))
    → status_from critical degraded ds
      ≡ (if any (is_down_critical critical) ds then error else degraded)
unfolding status_from
status_from_degraded critical [] = refl
status_from_degraded critical (d ∷ ds) = elim (Bool-cases d.1.ok) [
  | inl h ↦ rw h (status_from_degraded critical ds)
  | inr h ↦ elim (Bool-cases (contains d.0 critical)) [
    | inl c ↦ rw (h, c) refl
    | inr c ↦ rw (h, c) (status_from_degraded critical ds)
  ]
]

status_from_ok :
    (critical : List Text) (ds : List (Text × DepStatus))
    → status_from critical ok ds ≡ (
        if any (is_down_critical critical) ds
        then error
        else if any is_down ds
        then degraded
        else ok)
unfolding status_from
status_from_ok critical [] = refl
status_from_ok critical (d ∷ ds) = elim (Bool-cases d.1.ok) [
  | inl h ↦ rw h (status_from_ok critical ds)
  | inr h ↦ elim (Bool-cases (contains d.0 critical)) [
    | inl c ↦ rw (h, c) refl
    | inr c ↦ rw (h, c) (status_from_degraded critical ds)
  ]
]

-- The status of a snapshot is error if and only if a critical dependency is down, and otherwise
-- degraded if and only if some dependency is down, in whichever order they were reported.
pub snapshot-status : (now : ℕ) (h : HealthState) → (snapshot now h).status ≡ expected_status h
unfolding snapshot
snapshot-status now h = status_from_ok h.critical_deps h.deps
