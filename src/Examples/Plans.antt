-- ===== src/Examples/Plans.antt =====
-- Plans over a registry of three models, with exact millionths in the place of floats.
use llm_token_balancing_gate.Prelude.{
  ℕ, ◌+◌, ◌-◌, ◌*◌, ◌/◌, String, Bool, ◌≡◌, ◌≢◌, refl, ◌↔◌, inr, true, false, none, List, [], ◌∷◌,
  map, All, Elem, ltb, ◌+ℤ◌, pos, negsuc, str_eq, eq_iff, arith,
}
use llm_token_balancing_gate.Prelude.Sort.{swap, sort}
use llm_token_balancing_gate.Domain.Enums.{Quality, Risk, Endpoint, DataHandlingTier}
use llm_token_balancing_gate.Domain.Requests.{
  ValidationMode, CanonicalRequest, requires_schema_validation, is_selector,
}
use llm_token_balancing_gate.Domain.Routing.{RegistrySnapshot, Candidate, Eligibility}
use llm_token_balancing_gate.Policy.{evaluate}
use llm_token_balancing_gate.Registry.{Model, ModelPrice, Tables, snapshot}
use llm_token_balancing_gate.Router.{Floats}
use llm_token_balancing_gate.Router.Plan.{PolicyInput, plan, descending, route_upper_bound}
use llm_token_balancing_gate.Router.Bound.{◌<ℤ◌, attempts_at, route_upper_bound-lt}
use llm_token_balancing_gate.Router.Cut.{plan-explicit_replaced}
use llm_token_balancing_gate.Classifier.{Signal, classify}
use llm_token_balancing_gate.Planning.{
  RoutingPolicy, active_for, is_serious, validation_plan_for, planned_floor, gates_for, build_plan,
}
use llm_token_balancing_gate.Planning.Validation.{IsWanted, validation_plan_for_iff}
use llm_token_balancing_gate.Planning.Served.{Stands, build_plan-Serves, build_plan-Rearranged}
use llm_token_balancing_gate.Examples.Routes.{controls, request, features, model}

-- Fixed-point numbers of six places.
abbrev pub fixed : Floats
fixed = record {
  F = ℕ;
  add = ◌+◌;
  sub = ◌-◌;
  mul = λ a b. a * b / 1000000;
  div = λ a b. a * 1000000 / b;
  lt = ltb;
  hundredths = λ n. n * 10000;
  of_nat = λ n. n * 1000000;
  of_money = λ a. elim a [ pos n ↦ n | negsuc n ↦ 0 ];
  billionths = λ x. pos (x * 1000);
  millionths = λ x. x;
  hundredth_of_dollar = λ x. pos (x * 10);
  pass_rate_prior = λ m. 800000;
  failure_rate_prior = λ m. 20000;
}

abbrev row : String → DataHandlingTier → Bool → Model
row id tier enabled = record {
  id = id;
  provider = "openai";
  provider_model_id = id;
  display_name = id;
  data_handling_tier = tier;
  quality_tier = Quality.high;
  capabilities = [];
  supported_endpoints = Endpoint.responses ∷ [];
  context_window_tokens = 8000;
  max_output_tokens = 1000;
  enabled = enabled;
  latency_prior_ms = 500;
}

abbrev price : String → ℕ → ℕ → ModelPrice
price id amount start = record {
  model_id = id;
  currency = "USD";
  input_per_1k_tokens = amount;
  output_per_1k_tokens = 2 * amount;
  request_fee = 0;
  effective_from = start;
  effective_to = none;
}

abbrev pub tables : Tables
tables = record {
  models =
      row "m/cheap" DataHandlingTier.zdr true
      ∷ row "m/dear" DataHandlingTier.zdr true
      ∷ row "m/open" DataHandlingTier.public_only true
      ∷ row "m/off" DataHandlingTier.zdr false
      ∷ [];
  prices =
      price "m/cheap" 100 0
      ∷ price "m/cheap" 90 10
      ∷ price "m/dear" 300 0
      ∷ price "m/open" 50 0
      ∷ price "m/off" 50 0
      ∷ [];
}

abbrev turned : List Model
turned =
    row "m/dear" DataHandlingTier.zdr true
    ∷ row "m/cheap" DataHandlingTier.zdr true
    ∷ row "m/open" DataHandlingTier.public_only true
    ∷ row "m/off" DataHandlingTier.zdr false
    ∷ []

abbrev pub silent : Signal → String → Bool
silent signal text = false

abbrev pub policies : List (RoutingPolicy ℕ)
policies =
    record {
      policy_id = "default";
      version = 2;
      task_class = none;
      active = true;
      quality_floor = Quality.standard;
      max_generation_attempts = 2;
      max_same_model_repairs = 1;
      weights = ("cost", 500000) ∷ [];
      validation_plan = "length_check" ∷ [];
    }
    ∷ []

-- The candidates come in the order of their cost, and the cheap one at the later price.
planned_ids :
    map
      (λ c. c.model_id)
      (build_plan fixed silent tables policies request none 20 21).plan.candidates
    ≡ "m/cheap" ∷ "m/dear" ∷ []
unfolding build_plan classify snapshot plan sort evaluate planned_floor active_for
    validation_plan_for ◌+ℤ◌
planned_ids = refl

abbrev eligible : Eligibility
eligible = record {
  eligible = model "m/b" DataHandlingTier.zdr ∷ model "m/a" DataHandlingTier.zdr ∷ [];
  excluded = [];
}

-- A request for one model, without a fallback.
abbrev explicit : String → CanonicalRequest
explicit name = record request {
  requested_model = name;
  controls = record controls { allow_fallback = false };
}

abbrev registry_at : RegistrySnapshot
registry_at = record { taken_at = 20; models = [] }

abbrev input : PolicyInput ℕ
input = record {
  policy_id = "default";
  policy_version = 2;
  policy_weights = none;
  max_generation_attempts = 2;
  max_same_model_repairs = 1;
}

explicit_no_selector : is_selector (explicit "m/a") ≡ false
unfolding is_selector
explicit_no_selector = refl

absent_no_selector : is_selector (explicit "m/c") ≡ false
unfolding is_selector
absent_no_selector = refl

names_differ : (a b : String) → str_eq a b ≡ false → a ≢ b
names_differ a b e q = cc ((eq_iff a b).1 q)

plan-explicit_replaced_example :
    (c : Candidate) × ((plan fixed
        (explicit "m/c")
        features
        registry_at
        eligible
        input
        []
        21).candidates
      ≡ c ∷ [])
    × (c.model_id ≢ "m/c")
plan-explicit_replaced_example =
    plan-explicit_replaced fixed (explicit "m/c") features registry_at eligible input [] 21
      absent_no_selector refl (names_differ "m/b" "m/c" refl, (names_differ "m/a" "m/c" refl, tt))
      (omega arith)

abbrev candidate : String → ℕ → Candidate
candidate id cost = record {
  model_id = id;
  provider = "openai";
  rank = 1;
  estimated_cost = pos cost;
  effective_cost = pos cost;
  predicted_latency_ms = 500;
}

abbrev two : List Candidate
two = candidate "m/a" 1 ∷ candidate "m/b" 10 ∷ []

costs_sorted : sort descending (map (λ c. c.estimated_cost) two) ≡ pos 10 ∷ pos 1 ∷ []
unfolding sort
costs_sorted = refl

-- Two attempts on the dear one cost 20, and the bound is 11.
route_upper_bound-two : route_upper_bound two 2 ≡ pos 11
unfolding route_upper_bound sort ◌+ℤ◌
route_upper_bound-two = refl

route_upper_bound-lt_example : route_upper_bound two 2 <ℤ attempts_at 2 (pos 10) (pos 0)
route_upper_bound-lt_example =
    route_upper_bound-lt two 0 (pos 10) (pos 1) [] costs_sorted (omega arith)

validation_plan_for_iff_example :
    Elem "length_check" (validation_plan_for request features ("length_check" ∷ []))
    ↔ IsWanted ValidationMode.auto
        (requires_schema_validation request.output_format)
        (is_serious Risk.low)
        ("length_check" ∷ [])
        "length_check"
validation_plan_for_iff_example =
    validation_plan_for_iff request features ("length_check" ∷ []) "length_check"

build_plan-Serves_example :
    All
      (Stands tables 20 (
        gates_for fixed silent request
          (build_plan fixed silent tables policies request none 20 21).quality_floor
          (build_plan fixed silent tables policies request none 20 21).plan.validation_plan))
      (build_plan fixed silent tables policies request none 20 21).plan.candidates
build_plan-Serves_example = build_plan-Serves fixed silent tables policies request none 20 21

build_plan-Rearranged_example :
    build_plan fixed silent tables policies request none 20 21
    ≡ build_plan fixed silent (record tables { models = turned }) policies request none 20 21
build_plan-Rearranged_example =
    build_plan-Rearranged fixed silent tables policies request none 20 21 turned (
      swap (row "m/cheap" DataHandlingTier.zdr true) (row "m/dear" DataHandlingTier.zdr true)
        (row "m/open" DataHandlingTier.public_only true
          ∷ row "m/off" DataHandlingTier.zdr false
          ∷ [])
        (inr refl))
