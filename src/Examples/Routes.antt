-- ===== src/Examples/Routes.antt =====
-- A request and a registry of two models, of which one is private enough, and validators over numbers.
use llm_token_balancing_gate.Prelude.{
  ℕ, String, List, ◌≡◌, refl, ◌↔◌, true, false, Option, none, some, [], ◌∷◌, map, keep, All, ltb,
  if◌then◌else◌, pos,
}
use llm_token_balancing_gate.Domain.Enums.{
  Quality, Privacy, Risk, TaskClass, Endpoint, DataHandlingTier, ValidationResult,
}
use llm_token_balancing_gate.Domain.Requests.{ValidationMode, GatewayControls, CanonicalRequest}
use llm_token_balancing_gate.Domain.Routing.{RequestFeatures, ModelSnapshot, RegistrySnapshot}
use llm_token_balancing_gate.Policy.{GateInput, reasons, evaluate}
use llm_token_balancing_gate.Policy.Gates.{Serves, reasons_iff}
use llm_token_balancing_gate.Policy.Partition.{serves, refused, exclusion, evaluate-splits}
use llm_token_balancing_gate.Validators.{
  ValidationOutcome, ValidatorRegistry, get_validator, run_plan,
}
use llm_token_balancing_gate.Validators.Gate.{run_passes, AllAdmit, run_plan_passes_iff}
use llm_token_balancing_gate.Validators.Stop.{Agrees, run_all, run_plan-agrees}

abbrev pub controls : GatewayControls
controls = record {
  quality = Quality.standard;
  privacy = Privacy.confidential;
  max_cost = some (pos 1000);
  max_latency_ms = none;
  provider_allow = [];
  provider_deny = "blocked" ∷ [];
  required_capabilities = [];
  allow_fallback = true;
  max_attempts = 3;
  validation = ValidationMode.auto;
  task_class = Option.none;
  risk = Option.none;
  dry_run = false;
  metadata = [];
  debug = false;
}

abbrev pub request : CanonicalRequest
request = record {
  request_id = "req_1";
  endpoint = Endpoint.responses;
  requested_model = "auto";
  conversation = [];
  controls = controls;
  client_id = "alice";
  system_instructions = Option.none;
  tool_count = 0;
  output_format = record { kind = "text"; has_json_schema = false; strict = false };
  max_output_tokens = some 200;
  stream = false;
  input_hash = "h1";
  estimated_input_tokens = 100;
  idempotency_key = Option.none;
  ignored_fields = [];
}

abbrev pub features : RequestFeatures
features = record {
  task_class = TaskClass.factual_qa;
  complexity = 1;
  risk = Risk.low;
  privacy = Privacy.confidential;
  verifiability = "low";
  freshness_sensitive = false;
  required_capabilities = [];
  expected_output_tokens = 200;
  classifier_name = "deterministic";
  classifier_version = "1";
  used_fallback = false;
}

abbrev pub model : String → DataHandlingTier → ModelSnapshot
model id tier = record {
  model_id = id;
  provider = "openai";
  data_handling_tier = tier;
  quality_tier = Quality.high;
  capabilities = [];
  supported_endpoints = Endpoint.responses ∷ [];
  context_window_tokens = 8000;
  max_output_tokens = 1000;
  input_per_1k = 100;
  output_per_1k = 200;
  request_fee = 0;
  latency_prior_ms = 500;
}

abbrev registry : RegistrySnapshot
registry = record {
  taken_at = 0;
  models =
      model "openai/small" DataHandlingTier.public_only
      ∷ model "openai/safe" DataHandlingTier.zdr
      ∷ [];
}

abbrev gates : GateInput
gates = record {
  request = request;
  features = features;
  quality_floor = Quality.standard;
  available_validators = "schema" ∷ [];
  required_validators = "schema" ∷ [];
  remaining_budget = Option.none;
  unhealthy_models = [];
  exhausted_models = [];
}

reasons_iff_example :
    (reasons gates (model "openai/safe" DataHandlingTier.zdr) ≡ [])
    ↔ Serves gates (model "openai/safe" DataHandlingTier.zdr)
reasons_iff_example = reasons_iff gates (model "openai/safe" DataHandlingTier.zdr)

evaluate-splits_example :
    ((evaluate gates registry).eligible ≡ keep (serves gates) registry.models)
    × ((evaluate gates registry).excluded
        ≡ map (exclusion gates) (keep (refused gates) registry.models))
    × All (Serves gates) (evaluate gates registry).eligible
evaluate-splits_example = evaluate-splits gates registry

-- A validator that a number below ten passes, and that raises on zero.
abbrev small : ℕ → Option ValidationOutcome
small n =
    if ltb 0 n
    then some (record {
      validator = "small";
      result = if ltb n 10 then ValidationResult.pass else ValidationResult.fail_repairable;
      detail_codes = [];
      required = true;
      duration_ms = Option.none;
      repair_hint = Option.none;
    })
    else Option.none

abbrev numbers : ValidatorRegistry ℕ
numbers = ("small", small) ∷ []

-- A validator that raises leaves no report.
zero_raises : run_plan numbers 0 ("other" ∷ "small" ∷ []) ≡ Option.none
unfolding run_plan
zero_raises = refl

run_plan_passes_iff_example :
    (run_passes (run_plan numbers 3 ("small" ∷ "other" ∷ [])) ≡ true)
    ↔ AllAdmit numbers 3 ("small" ∷ "other" ∷ [])
run_plan_passes_iff_example = run_plan_passes_iff numbers 3 ("small" ∷ "other" ∷ [])

abbrev three : List ValidationOutcome
three =
    record {
      validator = "small";
      result = ValidationResult.pass;
      detail_codes = [];
      required = true;
      duration_ms = Option.none;
      repair_hint = Option.none;
    }
    ∷ []

run_plan-agrees_example : Agrees (run_plan numbers 3 ("small" ∷ [])) (record { outcomes = three })
unfolding run_all get_validator
run_plan-agrees_example = run_plan-agrees numbers 3 ("small" ∷ []) three refl
