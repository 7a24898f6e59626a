-- ===== src/Agent.antt =====
-- The agent's loop (services/panoptic_agent/agent.py) and the dispatch of its tools
-- (services/panoptic_agent/tools.py). The model, the parsing of its turns and the search API are
-- parameters; a turn's content and a tool's input are opaque, and a tool's output is JSON. Left out
-- are the latencies, tokens and costs of the trace, the types of the citations and the truncation of
-- an output in its message. `allow_write` says that the question asks for a report.
pub mod Gated
use panoptic.Common.{
  ℕ, zero, suc, ◌+◌, Bool, true, false, not, ◌&&◌, ◌||◌, Option, none, some, List, [], ◌∷◌, ◌++◌,
  if◌then◌else◌, map, take,
}
use panoptic.Jobs.Model.{Text}
use panoptic.Citations.{Json, Answer, Citations, verify_citations}

pub data Tool : Type 0 where
  search verify summarize_period get_trailer_day get_fleet_overview get_event : Tool
  get_summary get_image list_reports get_report pull_frame generate_daily_report : Tool
  unknown_tool : Tool

abbrev pub is_write : Tool → Bool
is_write generate_daily_report = true
is_write _ = false

abbrev pub is_known : Tool → Bool
is_known unknown_tool = false
is_known _ = true

pub data Reason : Type 0 where
  backend_rejected no_final_answer not_an_object : Reason

-- What a turn asks for; the answer is none where it is no JSON object.
pub data Action : Type 0 where
  tool_call : Tool → ℕ → Action
  answer : Option Answer → Action
  unknown_action : Action

pub data Message : Type 0 where
  question : ℕ → Message
  assistant : ℕ → Message
  parse_error unknown_value : Message
  tool_error : Tool → Text → Message
  tool_output : Tool → Json → Message

pub record ToolCallRecord : Type 0 where
  pub name : Tool
  pub input : ℕ
  pub output_json : Option Json
  pub error : Option Text

pub record AgentTrace : Type 0 where
  pub tool_calls : List ToolCallRecord
  pub iterations : ℕ
  pub tool_call_count : ℕ
  pub llm_calls : ℕ
  pub parse_failures : ℕ

-- The conversation, the trace, and the requests that the search API has received.
pub record Session : Type 0 where
  pub messages : List Message
  pub trace : AgentTrace
  pub requests : List (Tool × ℕ)

pub record Backend : Type 0 where
  pub generate : List Message → Option ℕ
  pub parse_action : ℕ → Option Action
  pub degraded : Reason → Text
  pub strip : Text → Text
  -- the keys that the tool needs are in the input
  pub has_keys : Tool → ℕ → Bool
  -- the search API's response to a request after earlier ones, none where the client raises
  pub respond : Tool → ℕ → List (Tool × ℕ) → Option Json
  pub error_of : Tool → ℕ → Text
  pub error_json : Text → Json

unfoldable pub new_trace : AgentTrace
new_trace = record {
  tool_calls = [];
  iterations = 0;
  tool_call_count = 0;
  llm_calls = 0;
  parse_failures = 0;
}

module _ (B : Backend) (allow_write : Bool) where
  unfoldable pub degraded_answer : Reason → Answer
  degraded_answer reason = record {
    narrative = B.degraded reason;
    evidence_bullets = [];
    artifact_id = none;
  }

  unfoldable pub normalize_answer : Option Answer → Answer
  normalize_answer none = degraded_answer not_an_object
  normalize_answer (some a) = record a {
    narrative = B.strip a.narrative;
    evidence_bullets = take 6 a.evidence_bullets;
  }

  -- dispatch_tool calls the client only for a tool that it knows, with the keys it needs, and for the
  -- write tool only where that is allowed; otherwise it raises.
  unfoldable pub dispatches : Tool → ℕ → Bool
  dispatches tool input =
      is_known tool && (B.has_keys tool input && (not (is_write tool) || allow_write))

  unfoldable pub failed_record : Tool → ℕ → ToolCallRecord
  failed_record tool input = record {
    name = tool;
    input = input;
    output_json = some (B.error_json (B.error_of tool input));
    error = some (B.error_of tool input);
  }

  unfoldable pub record_of : Tool → ℕ → Option Json → ToolCallRecord
  record_of tool input none = failed_record tool input
  record_of tool input (some out) = record {
    name = tool;
    input = input;
    output_json = some out;
    error = none;
  }

  -- _dispatch_one: the record, and the requests received.
  unfoldable pub dispatch_one : Tool → ℕ → List (Tool × ℕ) → ToolCallRecord × List (Tool × ℕ)
  dispatch_one tool input requests =
      if dispatches tool input
      then (record_of tool input (B.respond tool input requests), requests ++ (tool, input) ∷ [])
      else (failed_record tool input, requests)

  unfoldable pub result_message : Tool → Option Json → Option Text → Message
  result_message tool output (some e) = tool_error tool e
  result_message tool (some out) none = tool_output tool out
  result_message tool none none = tool_error tool []

  unfoldable pub note_failure : Message → Session → Session
  note_failure nudge s = record s {
    messages = s.messages ++ nudge ∷ [];
    trace = record s.trace { parse_failures = s.trace.parse_failures + 1 };
  }

  unfoldable pub use_tool : Tool → ℕ → Session → Session
  use_tool tool input s =
      let (call, requests) = dispatch_one tool input s.requests in
      record s {
        messages = s.messages ++ result_message tool call.output_json call.error ∷ [];
        trace = record s.trace {
          tool_calls = s.trace.tool_calls ++ call ∷ [];
          tool_call_count = s.trace.tool_call_count + 1;
        };
        requests = requests;
      }

  unfoldable pub act :
      (Session → Option Answer × Session) → Option Action → Session → Option Answer × Session
  act turns none s = turns (note_failure parse_error s)
  act turns (some (tool_call tool input)) s = turns (use_tool tool input s)
  act turns (some (answer a)) s = (some (normalize_answer a), s)
  act turns (some unknown_action) s = turns (note_failure unknown_value s)

  unfoldable pub take_turn :
      (Session → Option Answer × Session) → Option ℕ → Session → Option Answer × Session
  take_turn turns none s = (some (degraded_answer backend_rejected), s)
  take_turn turns (some content) s =
      act turns (B.parse_action content)
        (record s { messages = s.messages ++ assistant content ∷ [] })

  unfoldable pub start_turn : Session → Session
  start_turn s = record s {
    trace = record s.trace {
      iterations = s.trace.iterations + 1;
      llm_calls = s.trace.llm_calls + 1;
    };
  }

  -- The loop, for as many iterations as are left.
  unfoldable pub agent_loop : ℕ → Session → Option Answer × Session
  agent_loop zero s = (none, s)
  agent_loop (suc n) s = take_turn (agent_loop n) (B.generate s.messages) (start_turn s)

  unfoldable pub final_answer : Option Answer → Answer
  final_answer none = degraded_answer no_final_answer
  final_answer (some a) = a

  pub record AgentResult : Type 0 where
    pub answer_given : Answer
    pub citations : Citations
    pub session : Session

  unfoldable pub run_agent : ℕ → ℕ → AgentResult
  run_agent max_iterations q =
      let (parsed, s) =
        agent_loop max_iterations
          (record { messages = question q ∷ []; trace = new_trace; requests = [] }) in
      record {
        answer_given = final_answer parsed;
        citations =
            verify_citations (final_answer parsed) (map (λ c. c.output_json) s.trace.tool_calls);
        session = s;
      }
