-- ===== src/Domain/Routing.antt =====
-- src/gateway/domain/routing.py: the frozen inputs and results of routing. Scores and probabilities, which
-- are floats there, are not represented; all money is.
use llm_token_balancing_gate.Prelude.{
  ℕ, String, Bool, Option, none, some, List, [], ◌∷◌, str_eq, if◌then◌else◌, ℤ,
}
use llm_token_balancing_gate.Domain.Enums.{
  Quality, Privacy, Risk, TaskClass, Capability, Endpoint, DataHandlingTier,
}

pub data ExclusionReason : Type 0 where
  privacy_mismatch missing_capability endpoint_unsupported context_too_small : ExclusionReason
  output_window_too_small below_quality_floor validator_unavailable : ExclusionReason
  provider_denied provider_not_allowed model_disabled unhealthy quota_exhausted : ExclusionReason
  quota_stale over_request_budget over_scoped_budget deadline_infeasible no_price : ExclusionReason

pub data RationaleCode : Type 0 where
  selector_applied explicit_model fallback_disabled quality_floor_raised : RationaleCode
  privacy_floor_applied classifier_fallback no_eligible_candidates : RationaleCode

pub record RequestFeatures : Type 0 where
  pub task_class : TaskClass
  pub complexity : ℕ
  pub risk : Risk
  pub privacy : Privacy
  pub verifiability : String
  pub freshness_sensitive : Bool
  pub required_capabilities : List Capability
  pub expected_output_tokens : ℕ
  pub classifier_name : String
  pub classifier_version : String
  pub used_fallback : Bool

-- Prices are nanodollars for a thousand tokens, as they are stored.
pub record ModelSnapshot : Type 0 where
  pub model_id : String
  pub provider : String
  pub data_handling_tier : DataHandlingTier
  pub quality_tier : Quality
  pub capabilities : List Capability
  pub supported_endpoints : List Endpoint
  pub context_window_tokens : ℕ
  pub max_output_tokens : ℕ
  pub input_per_1k : ℕ
  pub output_per_1k : ℕ
  pub request_fee : ℕ
  pub latency_prior_ms : ℕ

pub record RegistrySnapshot : Type 0 where
  pub taken_at : ℕ
  pub models : List ModelSnapshot

abbrev pub find_model : String → List ModelSnapshot → Option ModelSnapshot
find_model k [] = none
find_model k (m ∷ ms) = if str_eq m.model_id k then some m else find_model k ms

-- `RegistrySnapshot.by_id`
abbrev pub by_id : RegistrySnapshot → String → Option ModelSnapshot
by_id s k = find_model k s.models

pub record ExcludedModel : Type 0 where
  pub model_id : String
  pub reasons : List ExclusionReason

pub record Candidate : Type 0 where
  pub model_id : String
  pub provider : String
  pub rank : ℕ
  pub estimated_cost : ℤ
  pub effective_cost : ℤ
  pub predicted_latency_ms : ℕ

pub record Eligibility : Type 0 where
  pub eligible : List ModelSnapshot
  pub excluded : List ExcludedModel

pub record RoutePlan : Type 0 where
  pub policy_id : String
  pub policy_version : ℕ
  pub registry_snapshot_at : ℕ
  pub candidates : List Candidate
  pub excluded : List ExcludedModel
  pub validation_plan : List String
  pub max_generation_attempts : ℕ
  pub max_same_model_repairs : ℕ
  pub estimated_route_upper_bound : ℤ
  pub deadline_at : ℕ
  pub rationale_codes : List RationaleCode
