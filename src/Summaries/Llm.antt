-- ===== src/Summaries/Llm.antt =====
-- The language model's output (shared/schemas/llm.py), _call_and_validate and the injection of the
-- bucket's signals (services/panoptic_summary_agent/executor.py). The call of the model, the parsing
-- and validation of its answer, str.lower and the texts of the prompts and of the stub are parameters.
use panoptic.Common.{
  Bool, true, false, not, ◌&&◌, Option, none, some, List, [], ◌∷◌, ◌++◌, if◌then◌else◌, any, codes,
}
use panoptic.Float.{Float}
use panoptic.Jobs.Model.{Text}
use panoptic.Auth.{text_eq}
use panoptic.Webhook.Middleware.{starts_with}
use panoptic.Signals.{
  MarkerKey, spike, drop, after_hours, start, late_start, underperforming, key_eq,
}
use panoptic.Summaries.{KeyEvent, labelled, unlabelled, mislabelled, unhashable}

-- `part in whole`
unfoldable pub is_infix : Text → Text → Bool
is_infix part [] = starts_with [] part
is_infix part (c ∷ whole) = if starts_with (c ∷ whole) part then true else is_infix part whole

-- A signal's family, its label, and what is put before a summary that does not mention it.
pub record Signal : Type 0 where
  pub family : MarkerKey
  pub label : Text
  pub sentence : Option Text

-- In the order of the source's tests.
abbrev pub signals : List Signal
signals =
    record { family = spike; label = codes "spike in activity"; sentence = none }
    ∷ record {
      family = drop;
      label = codes "drop in activity";
      sentence = some (codes "Drop in activity observed. ");
    }
    ∷ record {
      family = after_hours;
      label = codes "after hours activity";
      sentence = some (codes "After hours activity detected. ");
    }
    ∷ record {
      family = start;
      label = codes "start of activity";
      sentence = some (codes "Start of activity detected. ");
    }
    ∷ record {
      family = late_start;
      label = codes "late start";
      sentence = some (codes "Late start detected. ");
    }
    ∷ record {
      family = underperforming;
      label = codes "site underperforming";
      sentence = some (codes "Site underperforming. ");
    }
    ∷ []

unfoldable pub has_family : MarkerKey → List MarkerKey → Bool
has_family k markers = any (λ m. key_eq m k) markers

abbrev pub is_labelled : Text → KeyEvent → Bool
is_labelled l (labelled l') = text_eq l' l
is_labelled l (unlabelled _) = false
is_labelled l mislabelled = false
is_labelled l unhashable = false

abbrev pub is_unhashable : KeyEvent → Bool
is_unhashable (labelled l) = false
is_unhashable (unlabelled shown) = false
is_unhashable mislabelled = false
is_unhashable unhashable = true

-- label in existing_labels
unfoldable pub has_label : Text → List KeyEvent → Bool
has_label l events = any (is_labelled l) events

unfoldable pub inject_event :
    List MarkerKey → List KeyEvent → Signal → List KeyEvent → List KeyEvent
inject_event markers existing s events =
    if has_family s.family markers && not (has_label s.label existing)
    then labelled s.label ∷ events
    else events

-- The tests in order; existing_labels is what the model's own events gave.
unfoldable pub inject_events :
    List MarkerKey → List KeyEvent → List Signal → List KeyEvent → List KeyEvent
inject_events markers existing [] events = events
inject_events markers existing (s ∷ rest) events =
    inject_events markers existing rest (inject_event markers existing s events)

module _ (lower : Text → Text) where
  unfoldable pub inject_sentence : List MarkerKey → Signal → Option Text → Text → Text
  inject_sentence markers s none summary = summary
  inject_sentence markers s (some sentence) summary =
      if has_family s.family markers && not (is_infix s.label (lower summary))
      then sentence ++ summary
      else summary

  unfoldable pub inject_sentences : List MarkerKey → List Signal → Text → Text
  inject_sentences markers [] summary = summary
  inject_sentences markers (s ∷ rest) summary =
      inject_sentences markers rest (inject_sentence markers s s.sentence summary)

module _ (F : Float) where
  pub record LlmSummaryOutput : Type 0 where
    pub summary : Text
    pub key_events : List KeyEvent
    pub confidence : F.Num

  pub record Model : Type 0 where
    -- VLMClient.call on a prompt and the uris of frames; none is an exception
    pub call : Text → List Text → Option Text
    -- json.loads and model_validate, none on any error of theirs
    pub validate : Text → Option LlmSummaryOutput
    pub repair_prompt : Text → Text

  unfoldable pub degraded_output : LlmSummaryOutput
  degraded_output = record {
    summary = codes "Unable to parse LLM output after repair attempt. Degraded summary.";
    key_events = [];
    confidence = F.literal 0 0;
  }

  unfoldable pub second_attempt : Model → Option Text → Option LlmSummaryOutput
  second_attempt m none = none
  second_attempt m (some raw) = elim (m.validate raw) [
    | none ↦ some degraded_output
    | some out ↦ some out
  ]

  unfoldable pub first_attempt : Model → Option Text → Option LlmSummaryOutput
  first_attempt m none = none
  first_attempt m (some raw) = elim (m.validate raw) [
    | none ↦ second_attempt m (m.call (m.repair_prompt raw) [])
    | some out ↦ some out
  ]

  -- `stub` is the output of call_llm_stub.
  unfoldable pub call_and_validate :
      LlmSummaryOutput → Text → List Text → Option Model → Option LlmSummaryOutput
  call_and_validate stub prompt uris none = some stub
  call_and_validate stub prompt uris (some m) = first_attempt m (m.call prompt uris)

  -- The output that run_bucket_summary stores.
  unfoldable pub injected : (Text → Text) → List MarkerKey → LlmSummaryOutput → LlmSummaryOutput
  injected lower markers out = record {
    summary = inject_sentences lower markers signals out.summary;
    key_events = inject_events markers out.key_events signals out.key_events;
    confidence = out.confidence;
  }

  -- The set of the existing labels raises on one that it cannot hold.
  unfoldable pub inject :
      (Text → Text) → List MarkerKey → LlmSummaryOutput → Option LlmSummaryOutput
  inject lower markers out =
      if any is_unhashable out.key_events then none else some (injected lower markers out)
