-- ===== src/Errors/Rendered.antt =====
-- `error_for`, `gateway_block` and `_usage` of src/gateway/api/serializers.py, and the envelope of an error
-- in src/gateway/api/errors.py, without its header of the request's id.
use llm_token_balancing_gate.Prelude.{
  ℕ, String, Bool, true, false, Option, none, some, length, ℤ, if◌then◌else◌,
}
use llm_token_balancing_gate.Domain.Enums.{RequestState, ValidationResult}
use llm_token_balancing_gate.Validators.{ValidationReport, aggregate}
use llm_token_balancing_gate.Lifecycle.{OrchestrationResult}
use llm_token_balancing_gate.Errors.{
  ErrorClass, GatewayError, status_code, error_type, code, retryable,
}

-- _FAILURE_ERRORS, with the default of `error_for`.
unfoldable pub failure_error : RequestState → ErrorClass
failure_error RequestState.rejected_no_route = ErrorClass.no_eligible_route_error
failure_error RequestState.expired = ErrorClass.deadline_exceeded_error
failure_error RequestState.failed_exhausted = ErrorClass.provider_error
failure_error RequestState.failed_partial = ErrorClass.provider_error
failure_error RequestState.failed = ErrorClass.provider_error
failure_error _ = ErrorClass.internal_error

-- _FAILURE_MESSAGES
abbrev pub failure_message : RequestState → String
failure_message RequestState.rejected_no_route =
    "No model satisfies this request's privacy, capability, quality, cost, and deadline constraints."
failure_message RequestState.expired = "The request deadline elapsed before completion."
failure_message RequestState.failed_exhausted =
    "Every eligible model failed to produce a response that passed validation."
failure_message RequestState.failed_partial =
    "The response failed after output had already been sent, so it could not be retried on another model."
failure_message _ = "The request failed."

abbrev is_rejected_budget : RequestState → Bool
is_rejected_budget RequestState.rejected_budget = true
is_rejected_budget _ = false

unfoldable pub error_for : OrchestrationResult → GatewayError
unfolding failure_error
error_for o =
    if is_rejected_budget o.state
    then record {
      class = ErrorClass.budget_exceeded_error;
      message = "This request would exceed its cost ceiling or a scoped budget.";
      param = some "gateway.max_cost";
      retry_after = none;
    }
    else record {
      class = failure_error o.state;
      message = failure_message o.state;
      param = none;
      retry_after = none;
    }

-- The JSON response of `error_response`, and its header Retry-After.
pub record ErrorResponse : Type 0 where
  pub status_code : ℕ
  pub message : String
  pub error_type : String
  pub param : Option String
  pub code : String
  pub request_id : String
  pub retryable : Bool
  pub retry_after : Option ℕ

unfoldable pub handle_gateway_error : String → GatewayError → ErrorResponse
unfolding status_code error_type code retryable
handle_gateway_error request_id e = record {
  status_code = status_code e.class;
  message = e.message;
  error_type = error_type e.class;
  param = e.param;
  code = code e.class;
  request_id = request_id;
  retryable = retryable e.class;
  retry_after = e.retry_after;
}

-- What a caller with the scope sees of a result, but for the latency; another one sees the request's id only.
pub record Disclosed : Type 0 where
  pub resolved_model : Option String
  pub attempts : ℕ
  pub validation : Option ValidationResult
  pub cost : ℤ

pub record GatewayBlock : Type 0 where
  pub request_id : String
  pub disclosed : Option Disclosed

abbrev aggregate_of_report : Option ValidationReport → Option ValidationResult
aggregate_of_report none = none
aggregate_of_report (some report) = some (aggregate report)

abbrev pub gateway_block : OrchestrationResult → String → Bool → GatewayBlock
gateway_block o request_id disclose = record {
  request_id = request_id;
  disclosed =
      if disclose
      then some (record {
        resolved_model = o.resolved_model;
        attempts = length o.attempts;
        validation = aggregate_of_report o.validation;
        cost = o.total_cost;
      })
      else none;
}
