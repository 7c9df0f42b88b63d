-- ===== src/Policy.antt =====
-- src/gateway/services/policy.py: the ordered eligibility pipeline. Every gate is tried on every model, so
-- that an exclusion carries all its reasons.
pub mod Membership
pub mod Gates
pub mod Partition
use llm_token_balancing_gate.Prelude.{
  ℕ, ◌+◌, ◌*◌, ◌/◌, ◌%◌, String, Bool, true, false, not, ◌&&◌, ◌||◌, Option, none, some, List, [],
  ◌∷◌, ◌++◌, ltb, leb, ◌==◌, str_eq, if◌then◌else◌, any, all, str_elem, keep, ℤ, pos, ltb_ℤ,
}
use llm_token_balancing_gate.Domain.Enums.{
  Quality, Capability, Endpoint, quality_index, tier_eligible,
}
use llm_token_balancing_gate.Domain.Requests.{CanonicalRequest, non_empty}
use llm_token_balancing_gate.Domain.Routing.{
  ExclusionReason, RequestFeatures, ModelSnapshot, RegistrySnapshot, ExcludedModel, Eligibility,
}

abbrev pub context_safety_margin : ℕ
context_safety_margin = 256

-- `quantize` to nine places: half-even rounding of thousandths of a nanodollar.
unfoldable pub round_thousandths : ℕ → ℕ
round_thousandths n =
    let whole = n / 1000 in
    let part = n % 1000 in
    if ltb part 500 then whole else if ltb 500 part then whole + 1 else whole + whole % 2

-- The sum is exact: tokens / 1000 times a price in nanodollars, in thousandths of a nanodollar.
unfoldable pub estimate_cost : ModelSnapshot → ℕ → ℕ → ℤ
unfolding round_thousandths
estimate_cost m input_tokens output_tokens = pos (
    round_thousandths
      (input_tokens * m.input_per_1k + output_tokens * m.output_per_1k + m.request_fee * 1000))

unfoldable pub quality_satisfies : Quality → Quality → Bool
unfolding quality_index
quality_satisfies model floor = leb (quality_index floor) (quality_index model)

abbrev pub capability_index : Capability → ℕ
capability_index Capability.tools = 0
capability_index Capability.json_schema = 1
capability_index Capability.vision = 2
capability_index Capability.streaming = 3
capability_index Capability.reasoning = 4

-- `capability in capabilities`
abbrev pub has_capability : Capability → List Capability → Bool
has_capability c = any λ d. capability_index d == capability_index c

abbrev pub same_endpoint : Endpoint → Endpoint → Bool
same_endpoint Endpoint.chat_completions Endpoint.chat_completions = true
same_endpoint Endpoint.responses Endpoint.responses = true
same_endpoint _ _ = false

abbrev pub has_endpoint : Endpoint → List Endpoint → Bool
has_endpoint e = any (same_endpoint e)

-- The arguments of `evaluate` beside the model.
pub record GateInput : Type 0 where
  pub request : CanonicalRequest
  pub features : RequestFeatures
  pub quality_floor : Quality
  pub available_validators : List String
  pub required_validators : List String
  pub remaining_budget : Option ℤ
  pub unhealthy_models : List String
  pub exhausted_models : List String

abbrev pub over : Option ℤ → ℤ → Bool
over none cost = false
over (some limit) cost = ltb_ℤ limit cost

abbrev pub too_slow : Option ℕ → ℕ → Bool
too_slow none latency = false
too_slow (some limit) latency = ltb limit latency

abbrev pub cost_of : GateInput → ModelSnapshot → ℤ
cost_of g m = estimate_cost m g.request.estimated_input_tokens g.features.expected_output_tokens

-- The tests of the gates, in the order of the pipeline, each with the reason that it gives.
abbrev pub fails_privacy : GateInput → ModelSnapshot → Bool
fails_privacy g m = not (tier_eligible g.features.privacy m.data_handling_tier)

abbrev pub fails_capability : GateInput → ModelSnapshot → Bool
fails_capability g m =
    any (λ c. not (has_capability c m.capabilities)) g.features.required_capabilities

abbrev pub fails_endpoint : GateInput → ModelSnapshot → Bool
fails_endpoint g m = not (has_endpoint g.request.endpoint m.supported_endpoints)

abbrev pub fails_context : GateInput → ModelSnapshot → Bool
fails_context g m =
    ltb m.context_window_tokens
      (g.request.estimated_input_tokens + g.features.expected_output_tokens + context_safety_margin)

abbrev pub fails_output : GateInput → ModelSnapshot → Bool
fails_output g m = ltb m.max_output_tokens g.features.expected_output_tokens

abbrev pub fails_quality : GateInput → ModelSnapshot → Bool
fails_quality g m = not (quality_satisfies m.quality_tier g.quality_floor)

abbrev pub fails_validators : GateInput → Bool
fails_validators g = any (λ v. not (str_elem v g.available_validators)) g.required_validators

abbrev pub denied : GateInput → ModelSnapshot → Bool
denied g m = str_elem m.provider g.request.controls.provider_deny

abbrev pub not_allowed : GateInput → ModelSnapshot → Bool
not_allowed g m =
    non_empty g.request.controls.provider_allow
    && not (str_elem m.provider g.request.controls.provider_allow)

abbrev pub reason_if : Bool → ExclusionReason → List ExclusionReason → List ExclusionReason
reason_if t r rest = if t then r ∷ rest else rest

-- Gates 2 to 6, before the reasons of the later ones.
unfoldable pub early_reasons :
    GateInput → ModelSnapshot → List ExclusionReason → List ExclusionReason
unfolding tier_eligible quality_satisfies
early_reasons g m rest = reason_if (fails_privacy g m) ExclusionReason.privacy_mismatch (
    reason_if (fails_capability g m) ExclusionReason.missing_capability (
      reason_if (fails_endpoint g m) ExclusionReason.endpoint_unsupported (
        reason_if (fails_context g m) ExclusionReason.context_too_small (
          reason_if (fails_output g m) ExclusionReason.output_window_too_small (
            reason_if (fails_quality g m) ExclusionReason.below_quality_floor (
              reason_if (fails_validators g) ExclusionReason.validator_unavailable (
                if denied g m
                then ExclusionReason.provider_denied ∷ rest
                else reason_if (not_allowed g m) ExclusionReason.provider_not_allowed rest)))))))

-- Gates 7 to 9.
unfoldable pub late_reasons : GateInput → ModelSnapshot → List ExclusionReason
unfolding estimate_cost
late_reasons g m = reason_if (str_elem m.model_id g.unhealthy_models) ExclusionReason.unhealthy (
    reason_if (str_elem m.model_id g.exhausted_models) ExclusionReason.quota_exhausted (
      reason_if (over g.request.controls.max_cost (cost_of g m)) ExclusionReason.over_request_budget
        (reason_if (over g.remaining_budget (cost_of g m)) ExclusionReason.over_scoped_budget (
          reason_if (too_slow g.request.controls.max_latency_ms m.latency_prior_ms)
            ExclusionReason.deadline_infeasible []))))

unfoldable pub reasons : GateInput → ModelSnapshot → List ExclusionReason
unfolding early_reasons late_reasons
reasons g m = early_reasons g m (late_reasons g m)

abbrev pub sort_model : ModelSnapshot → List ExclusionReason → Eligibility → Eligibility
sort_model m [] e = record e { eligible = m ∷ e.eligible }
sort_model m (r ∷ rs) e = record e {
  excluded = record { model_id = m.model_id; reasons = r ∷ rs } ∷ e.excluded;
}

unfoldable pub evaluate_models : GateInput → List ModelSnapshot → Eligibility
unfolding reasons
evaluate_models g [] = record { eligible = []; excluded = [] }
evaluate_models g (m ∷ ms) = sort_model m (reasons g m) (evaluate_models g ms)

unfoldable pub evaluate : GateInput → RegistrySnapshot → Eligibility
unfolding evaluate_models
evaluate g s = evaluate_models g s.models
