-- ===== src/Tests/Agent.antt =====
-- A model that asks for the write tool without leave and then answers.
use panoptic.Common.{ℕ, zero, suc, true, false, Option, none, some, List, [], ◌∷◌, map}
use panoptic.Citations.{scalar, collect_known_ids}
use panoptic.Citations.Sound.{IsSound}
use panoptic.Agent.{generate_daily_report, Action, tool_call, answer, Message, Backend, run_agent}
use panoptic.Agent.Gated.{IsWithin, run_agent-IsWithin}

-- The first turn is 1, the later ones are 2.
abbrev next_turn : List Message → Option ℕ
next_turn (m ∷ []) = some 1
next_turn _ = some 2

abbrev action_of : ℕ → Option Action
action_of (suc zero) = some (tool_call generate_daily_report 5)
action_of _ =
    some (answer (some (record { narrative = []; evidence_bullets = []; artifact_id = none })))

abbrev backend : Backend
backend = record {
  generate = next_turn;
  parse_action = action_of;
  degraded = λ r. [];
  strip = λ t. t;
  has_keys = λ t i. true;
  respond = λ t i rs. some scalar;
  error_of = λ t i. [];
  error_json = λ e. scalar;
}

run_agent-IsWithin_example :
    let result = run_agent backend false 8 3 in
    IsWithin backend false 8 result.session
    × IsSound
        (collect_known_ids (map (λ c. c.output_json) result.session.trace.tool_calls) [])
        (result.citations.cited, result.citations.unverified_citations)
run_agent-IsWithin_example = run_agent-IsWithin backend false 8 3
