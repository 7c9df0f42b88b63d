-- ===== src/Classifier.antt =====
-- src/gateway/services/classifier.py: the features of a request. Whether a regular expression occurs in a text
-- is a parameter; the confidence, a float, is not represented.
pub mod Floor
use Prim.Native.String.{count, ◌++◌ as str_append}
use llm_token_balancing_gate.Prelude.{
  ℕ, ◌+◌, ◌/◌, String, Bool, true, false, ◌&&◌, not, Option, none, some, List, [], ◌∷◌, ◌++◌, ltb,
  leb, str_eq, is_some, if◌then◌else◌, length,
}
use llm_token_balancing_gate.Domain.Enums.{Quality, Risk, TaskClass, Capability}
use llm_token_balancing_gate.Domain.Requests.{CanonicalRequest, Message, requires_schema_validation}
use llm_token_balancing_gate.Domain.Routing.{RequestFeatures}
use llm_token_balancing_gate.Policy.{has_capability}
use llm_token_balancing_gate.Domain.Strictest.{
  or_default, resolve_strictest_quality, resolve_strictest_risk,
}

-- The compiled expressions: one for a task class of _TASK_SIGNALS, and _FRESHNESS.
pub data Signal : Type 0 where
  task : TaskClass → Signal
  freshness : Signal

-- The classes of _TASK_SIGNALS, in its order.
abbrev pub task_signals : List TaskClass
task_signals =
    TaskClass.sql_review ∷ TaskClass.code_review ∷ TaskClass.code_generation ∷ TaskClass.grounded_qa
    ∷ TaskClass.extraction ∷ TaskClass.summarization ∷ TaskClass.transformation
    ∷ TaskClass.classification ∷ TaskClass.rewriting ∷ TaskClass.creative_writing
    ∷ TaskClass.factual_qa ∷ []

-- `_ELEVATED_RISK.get(task_class, FALLBACK_RISK)`
unfoldable pub elevated_risk : TaskClass → Risk
elevated_risk TaskClass.sql_review = Risk.high
elevated_risk TaskClass.code_review = Risk.high
elevated_risk TaskClass.code_generation = Risk.medium
elevated_risk TaskClass.grounded_qa = Risk.high
elevated_risk TaskClass.structured_data = Risk.medium
elevated_risk TaskClass.tool_selection = Risk.high
elevated_risk TaskClass.creative_writing = Risk.low
elevated_risk TaskClass.classification = Risk.low
elevated_risk _ = Risk.medium

-- _VERIFIABILITY
unfoldable pub verifiability_of : TaskClass → String
verifiability_of TaskClass.sql_review = "deterministic"
verifiability_of TaskClass.code_generation = "deterministic"
verifiability_of TaskClass.code_review = "semi_deterministic"
verifiability_of TaskClass.structured_data = "deterministic"
verifiability_of TaskClass.extraction = "deterministic"
verifiability_of TaskClass.tool_selection = "deterministic"
verifiability_of TaskClass.classification = "deterministic"
verifiability_of TaskClass.transformation = "deterministic"
verifiability_of TaskClass.grounded_qa = "grounded"
verifiability_of TaskClass.factual_qa = "grounded"
verifiability_of TaskClass.summarization = "semi_deterministic"
verifiability_of TaskClass.rewriting = "semi_deterministic"
verifiability_of TaskClass.creative_writing = "subjective"
verifiability_of TaskClass.general_reasoning = "subjective"

-- The content of the last turn of the user, from the front.
abbrev pub last_user : Option String → List Message → Option String
last_user found [] = found
last_user found (m ∷ ms) = last_user (if str_eq m.role "user" then some m.content else found) ms

abbrev pub with_turn : String → Option String → String
with_turn s none = s
with_turn s (some t) = str_append s (str_append "\n" t)

unfoldable pub classification_text : CanonicalRequest → String
classification_text r =
    with_turn (or_default r.system_instructions "") (last_user none r.conversation)

abbrev pub one_if : Bool → ℕ
one_if t = if t then 1 else 0

unfoldable pub infer_complexity : CanonicalRequest → String → ℕ
infer_complexity r text =
    let score =
      1
      + one_if (ltb 500 (count text))
      + one_if (ltb 4000 (count text))
      + one_if (ltb 4 (length r.conversation))
      + one_if (ltb 0 r.tool_count) in
    if ltb 5 score then 5 else score

-- `max(int(tokens * 0.5), 512)`, unless the caller set a ceiling.
abbrev pub output_or : Option ℕ → ℕ → ℕ
output_or (some n) tokens = n
output_or none tokens = if ltb (tokens / 2) 512 then 512 else tokens / 2

unfoldable pub controls_expected_output : CanonicalRequest → ℕ
controls_expected_output r = output_or r.max_output_tokens r.estimated_input_tokens

unfoldable pub floor_by_risk : Risk → Quality
floor_by_risk Risk.low = Quality.economy
floor_by_risk Risk.medium = Quality.standard
floor_by_risk Risk.high = Quality.high
floor_by_risk Risk.critical = Quality.critical

unfoldable pub quality_floor_for : Risk → Quality → Quality
unfolding floor_by_risk resolve_strictest_quality
quality_floor_for risk requested =
    resolve_strictest_quality (some (floor_by_risk risk) ∷ some requested ∷ [])

abbrev pub add_json_schema : TaskClass → List Capability → List Capability
add_json_schema TaskClass.structured_data cs =
    if has_capability Capability.json_schema cs then cs else Capability.json_schema ∷ cs
add_json_schema _ cs = cs

unfoldable pub required_capabilities_for : RequestFeatures → List Capability
required_capabilities_for f = add_json_schema f.task_class f.required_capabilities

abbrev pub is_fallback_class : TaskClass → Bool
is_fallback_class TaskClass.general_reasoning = true
is_fallback_class _ = false

module _ (occurs : Signal → String → Bool) where
  unfoldable pub first_signal : List TaskClass → String → TaskClass
  first_signal [] text = TaskClass.general_reasoning
  first_signal (c ∷ cs) text =
      let rest = first_signal cs text in if occurs (task c) text then c else rest

  unfoldable pub infer_task_class : String → Bool → TaskClass
  unfolding first_signal
  infer_task_class text structured =
      if structured then TaskClass.structured_data else first_signal task_signals text

  unfoldable pub classify : CanonicalRequest → RequestFeatures
  unfolding classification_text infer_task_class elevated_risk resolve_strictest_risk
      infer_complexity verifiability_of controls_expected_output
  classify r =
      let text = classification_text r in
      let inferred = infer_task_class text (requires_schema_validation r.output_format) in
      let task_class = or_default r.controls.task_class inferred in
      let risk =
        or_default (resolve_strictest_risk (some (elevated_risk task_class) ∷ r.controls.risk ∷ []))
          (elevated_risk task_class) in
      record {
        task_class = task_class;
        complexity = infer_complexity r text;
        risk = risk;
        privacy = r.controls.privacy;
        verifiability = verifiability_of task_class;
        freshness_sensitive = occurs freshness text;
        required_capabilities = r.controls.required_capabilities;
        expected_output_tokens = controls_expected_output r;
        classifier_name = "heuristic";
        classifier_version = "v0.1";
        used_fallback = not (is_some r.controls.task_class) && is_fallback_class inferred;
      }
