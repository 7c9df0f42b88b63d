-- ===== src/Planning.antt =====
-- src/gateway/services/planning.py with `PolicyRepository.active_for` of
-- src/gateway/persistence/repositories.py: classify, snapshot, gate and rank, over the tables of the
-- registry and of the routing policies. Of policies with the same version the database may take any; here
-- it is the first.
pub mod Validation
pub mod Served
use llm_token_balancing_gate.Prelude.{
  ℕ, zero, suc, String, Bool, true, false, ◌&&◌, ◌||◌, not, Option, none, some, List, [], ◌∷◌, ◌++◌,
  ltb, ◌==◌, str_eq, if◌then◌else◌, keep, str_elem,
}
use llm_token_balancing_gate.Domain.Enums.{Quality, Risk, TaskClass}
use llm_token_balancing_gate.Domain.Requests.{
  ValidationMode, CanonicalRequest, OutputFormat, requires_schema_validation,
}
use llm_token_balancing_gate.Domain.Routing.{RequestFeatures, RegistrySnapshot, RoutePlan}
use llm_token_balancing_gate.Domain.Strictest.{resolve_strictest_quality}
use llm_token_balancing_gate.Policy.{GateInput, evaluate}
use llm_token_balancing_gate.Registry.{Tables, snapshot}
use llm_token_balancing_gate.Router.{Floats}
use llm_token_balancing_gate.Router.Plan.{PolicyInput, plan}
use llm_token_balancing_gate.Classifier.{Signal, classify, quality_floor_for}

abbrev pub task_index : TaskClass → ℕ
task_index TaskClass.classification = 0
task_index TaskClass.extraction = 1
task_index TaskClass.transformation = 2
task_index TaskClass.summarization = 3
task_index TaskClass.rewriting = 4
task_index TaskClass.creative_writing = 5
task_index TaskClass.factual_qa = 6
task_index TaskClass.general_reasoning = 7
task_index TaskClass.code_generation = 8
task_index TaskClass.code_review = 9
task_index TaskClass.sql_review = 10
task_index TaskClass.structured_data = 11
task_index TaskClass.tool_selection = 12
task_index TaskClass.grounded_qa = 13

-- A row of `routing_policies`; the weights are floats.
pub record RoutingPolicy (F : Type 0) : Type 0 where
  pub policy_id : String
  pub version : ℕ
  pub task_class : Option TaskClass
  pub active : Bool
  pub quality_floor : Quality
  pub max_generation_attempts : ℕ
  pub max_same_model_repairs : ℕ
  pub weights : List (String × F)
  pub validation_plan : List String

abbrev pub is_for : TaskClass → Option TaskClass → Bool
is_for c none = false
is_for c (some d) = task_index d == task_index c

abbrev pub is_default : Option TaskClass → Bool
is_default none = true
is_default (some d) = false

module _ {F : Type 0} where
  -- The first row of a descending order by the version.
  abbrev pub newer : RoutingPolicy F → Option (RoutingPolicy F) → RoutingPolicy F
  newer p none = p
  newer p (some q) = if ltb p.version q.version then q else p

  unfoldable pub newest : List (RoutingPolicy F) → Option (RoutingPolicy F)
  newest [] = none
  newest (p ∷ ps) = some (newer p (newest ps))

  abbrev pub or_else :
      Option (RoutingPolicy F) → Option (RoutingPolicy F) → Option (RoutingPolicy F)
  or_else none fallback = fallback
  or_else (some p) fallback = some p

  unfoldable pub active_for : TaskClass → List (RoutingPolicy F) → Option (RoutingPolicy F)
  unfolding newest
  active_for c ps =
      or_else (newest (keep (λ p. p.active && is_for c p.task_class) ps))
        (newest (keep (λ p. p.active && is_default p.task_class) ps))

-- The names of `default_registry()`.
abbrev pub available_validators : List String
available_validators =
    "json_parse" ∷ "schema_check" ∷ "sql_parser" ∷ "sql_safety" ∷ "length_check" ∷ "label_check"
    ∷ "citation_check" ∷ "code_compile" ∷ "independent_review" ∷ "rubric_judge" ∷ []

abbrev pub is_schema : String → Bool
is_schema v = str_eq v "schema_check"

abbrev pub is_judge : String → Bool
is_judge v = str_eq v "independent_review" || str_eq v "rubric_judge"

abbrev pub with_schema : Bool → List String → List String
with_schema required planned =
    if required && not (str_elem "schema_check" planned) then "schema_check" ∷ planned else planned

abbrev pub with_review : List String → List String
with_review planned =
    if str_elem "independent_review" planned then planned else planned ++ "independent_review" ∷ []

unfoldable pub by_mode : ValidationMode → List String → List String
by_mode ValidationMode.none planned = keep is_schema planned
by_mode ValidationMode.deterministic planned = keep (λ v. not (is_judge v)) planned
by_mode ValidationMode.independent planned = with_review planned
by_mode ValidationMode.auto planned = planned

abbrev pub is_serious : Risk → Bool
is_serious Risk.high = true
is_serious Risk.critical = true
is_serious _ = false

abbrev pub may_review : ValidationMode → Bool
may_review ValidationMode.auto = true
may_review ValidationMode.independent = true
may_review _ = false

-- `_validation_plan_for`
unfoldable pub validation_plan_for : CanonicalRequest → RequestFeatures → List String → List String
unfolding by_mode
validation_plan_for r f policy_plan =
    let planned =
      by_mode r.controls.validation
        (with_schema (requires_schema_validation r.output_format) policy_plan) in
    if is_serious f.risk && may_review r.controls.validation then with_review planned else planned

pub record PlanningResult : Type 0 where
  pub features : RequestFeatures
  pub snapshot : RegistrySnapshot
  pub plan : RoutePlan
  pub quality_floor : Quality

-- The values that a policy sets, and those without one.
abbrev pub policy_input : {F : Type 0} → Option (RoutingPolicy F) → PolicyInput F
policy_input none = record {
  policy_id = "none";
  policy_version = 0;
  policy_weights = none;
  max_generation_attempts = 3;
  max_same_model_repairs = 1;
}
policy_input (some p) = record {
  policy_id = p.policy_id;
  policy_version = p.version;
  policy_weights = some p.weights;
  max_generation_attempts = p.max_generation_attempts;
  max_same_model_repairs = p.max_same_model_repairs;
}

abbrev pub policy_validators : {F : Type 0} → Option (RoutingPolicy F) → List String
policy_validators none = []
policy_validators (some p) = p.validation_plan

abbrev pub policy_floor : {F : Type 0} → Option (RoutingPolicy F) → Quality
policy_floor none = Quality.standard
policy_floor (some p) = p.quality_floor

-- `at or datetime.now(UTC)`
abbrev pub at_or : Option ℕ → ℕ → ℕ
at_or none clock = clock
at_or (some at) clock = at

-- The strictest of the policy's floor, the caller's and the risk's.
unfoldable pub planned_floor : Risk → Quality → Quality → Quality
unfolding quality_floor_for resolve_strictest_quality
planned_floor risk requested floor =
    resolve_strictest_quality (some (quality_floor_for risk requested) ∷ some floor ∷ [])

module _ (fl : Floats) (occurs : Signal → String → Bool) where
  -- What the gates are given: planning knows of no remaining budget, no health and no quota.
  abbrev pub gates_for : CanonicalRequest → Quality → List String → GateInput
  gates_for r floor validators = record {
    request = r;
    features = classify occurs r;
    quality_floor = floor;
    available_validators = available_validators;
    required_validators = validators;
    remaining_budget = none;
    unhealthy_models = [];
    exhausted_models = [];
  }

  -- With the two readings of the clock, for the snapshot and for the deadline.
  unfoldable pub build_plan :
      Tables → List (RoutingPolicy fl.F) → CanonicalRequest → Option ℕ → ℕ → ℕ → PlanningResult
  build_plan t ps r at taken now =
      let f = classify occurs r in
      let s = snapshot t (at_or at taken) in
      let policy = active_for f.task_class ps in
      let floor = planned_floor f.risk r.controls.quality (policy_floor policy) in
      let validators = validation_plan_for r f (policy_validators policy) in
      let e = evaluate (gates_for r floor validators) s in
      record {
        features = f;
        snapshot = s;
        plan = plan fl r f s e (policy_input policy) validators (at_or at now);
        quality_floor = floor;
      }
