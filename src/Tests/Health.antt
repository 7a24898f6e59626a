-- ===== src/Tests/Health.antt =====
-- The health of a process at concrete inputs, and the citations of an answer.
use panoptic.Common.{ℕ, zero, suc, true, false, none, some, [], ◌∷◌, All}
use panoptic.Jobs.Model.{Text}
use panoptic.Health.{HealthState, new_health_state, mark_critical, set_dep}
use panoptic.Citations.{Answer, text, verify_citations, collect_known_ids, markers_of}
use panoptic.Citations.Sound.{IsSound, IsAccounted, verify_citations-IsSound}

-- One dependency is down, and another, which is critical, is up.
abbrev half_up : HealthState
half_up = mark_critical ((112 ∷ []) ∷ []) (
    set_dep (112 ∷ [])
      (record { ok = true; latency_ms = some 2; reason = none; checked_at = some 9 })
      (set_dep (113 ∷ [])
        (record { ok = false; latency_ms = none; reason = none; checked_at = some 9 })
        (new_health_state 3 none none)))

-- The letter a, n times.
abbrev letters : ℕ → Text
letters zero = []
letters (suc n) = 97 ∷ letters n

-- An answer that cites one id by a prefix, and a marker that no id has.
abbrev answer : Answer
answer = record {
  narrative = 91 ∷ letters 6;
  evidence_bullets = (49 ∷ 50 ∷ 51 ∷ 52 ∷ 53 ∷ 54 ∷ []) ∷ [];
  artifact_id = none;
}

verify_citations-IsSound_example :
    let calls = some (text (letters 64)) ∷ none ∷ [] in
    let out = verify_citations answer calls in
    IsSound (collect_known_ids calls []) (out.cited, out.unverified_citations)
    × All
        (IsAccounted (collect_known_ids calls []) (out.cited, out.unverified_citations))
        (markers_of answer)
verify_citations-IsSound_example =
    verify_citations-IsSound answer (some (text (letters 64)) ∷ none ∷ [])
