-- ===== src/Errors.antt =====
-- The taxonomy of src/gateway/domain/errors.py: one constructor for each class, and what a class says.
pub mod Rendered
pub mod Told
use llm_token_balancing_gate.Prelude.{ℕ, String, Bool, true, false, Option}

pub data ErrorClass : Type 0 where
  gateway_error invalid_request_error invalid_gateway_control_error
        validation_requires_buffering_error :
      ErrorClass
  invalid_api_key_error policy_denied_error model_not_allowed_error model_not_found_error :
      ErrorClass
  request_not_found_error idempotency_conflict_error request_in_progress_error
        context_too_large_error :
      ErrorClass
  request_too_large_error unsupported_media_type_error no_eligible_route_error
        budget_exceeded_error :
      ErrorClass
  quota_exhausted_error rate_limited_error internal_error persistence_error : ErrorClass
  provider_error invalid_provider_response_error no_provider_available_error not_ready_error :
      ErrorClass
  deadline_exceeded_error : ErrorClass

unfoldable pub status_code : ErrorClass → ℕ
status_code ErrorClass.gateway_error = 500
status_code ErrorClass.invalid_request_error = 400
status_code ErrorClass.invalid_gateway_control_error = 400
status_code ErrorClass.validation_requires_buffering_error = 400
status_code ErrorClass.invalid_api_key_error = 401
status_code ErrorClass.policy_denied_error = 403
status_code ErrorClass.model_not_allowed_error = 403
status_code ErrorClass.model_not_found_error = 404
status_code ErrorClass.request_not_found_error = 404
status_code ErrorClass.idempotency_conflict_error = 409
status_code ErrorClass.request_in_progress_error = 409
status_code ErrorClass.context_too_large_error = 413
status_code ErrorClass.request_too_large_error = 413
status_code ErrorClass.unsupported_media_type_error = 415
status_code ErrorClass.no_eligible_route_error = 422
status_code ErrorClass.budget_exceeded_error = 429
status_code ErrorClass.quota_exhausted_error = 429
status_code ErrorClass.rate_limited_error = 429
status_code ErrorClass.internal_error = 500
status_code ErrorClass.persistence_error = 500
status_code ErrorClass.provider_error = 502
status_code ErrorClass.invalid_provider_response_error = 502
status_code ErrorClass.no_provider_available_error = 503
status_code ErrorClass.not_ready_error = 503
status_code ErrorClass.deadline_exceeded_error = 504

unfoldable pub error_type : ErrorClass → String
error_type ErrorClass.gateway_error = "gateway_internal_error"
error_type ErrorClass.invalid_request_error = "invalid_request_error"
error_type ErrorClass.invalid_gateway_control_error = "invalid_request_error"
error_type ErrorClass.validation_requires_buffering_error = "invalid_request_error"
error_type ErrorClass.invalid_api_key_error = "authentication_error"
error_type ErrorClass.policy_denied_error = "gateway_policy_error"
error_type ErrorClass.model_not_allowed_error = "gateway_policy_error"
error_type ErrorClass.model_not_found_error = "invalid_request_error"
error_type ErrorClass.request_not_found_error = "invalid_request_error"
error_type ErrorClass.idempotency_conflict_error = "invalid_request_error"
error_type ErrorClass.request_in_progress_error = "invalid_request_error"
error_type ErrorClass.context_too_large_error = "invalid_request_error"
error_type ErrorClass.request_too_large_error = "invalid_request_error"
error_type ErrorClass.unsupported_media_type_error = "invalid_request_error"
error_type ErrorClass.no_eligible_route_error = "gateway_policy_error"
error_type ErrorClass.budget_exceeded_error = "gateway_budget_error"
error_type ErrorClass.quota_exhausted_error = "gateway_capacity_error"
error_type ErrorClass.rate_limited_error = "gateway_capacity_error"
error_type ErrorClass.internal_error = "gateway_internal_error"
error_type ErrorClass.persistence_error = "gateway_internal_error"
error_type ErrorClass.provider_error = "gateway_provider_error"
error_type ErrorClass.invalid_provider_response_error = "gateway_provider_error"
error_type ErrorClass.no_provider_available_error = "gateway_availability_error"
error_type ErrorClass.not_ready_error = "gateway_availability_error"
error_type ErrorClass.deadline_exceeded_error = "gateway_timeout_error"

unfoldable pub code : ErrorClass → String
code ErrorClass.gateway_error = "internal_error"
code ErrorClass.invalid_request_error = "invalid_request"
code ErrorClass.invalid_gateway_control_error = "invalid_gateway_control"
code ErrorClass.validation_requires_buffering_error = "validation_requires_buffering"
code ErrorClass.invalid_api_key_error = "invalid_api_key"
code ErrorClass.policy_denied_error = "policy_denied"
code ErrorClass.model_not_allowed_error = "model_not_allowed"
code ErrorClass.model_not_found_error = "model_not_found"
code ErrorClass.request_not_found_error = "request_not_found"
code ErrorClass.idempotency_conflict_error = "idempotency_conflict"
code ErrorClass.request_in_progress_error = "request_in_progress"
code ErrorClass.context_too_large_error = "context_too_large"
code ErrorClass.request_too_large_error = "request_too_large"
code ErrorClass.unsupported_media_type_error = "unsupported_media_type"
code ErrorClass.no_eligible_route_error = "no_eligible_route"
code ErrorClass.budget_exceeded_error = "budget_exceeded"
code ErrorClass.quota_exhausted_error = "quota_exhausted"
code ErrorClass.rate_limited_error = "rate_limited"
code ErrorClass.internal_error = "internal_error"
code ErrorClass.persistence_error = "persistence_error"
code ErrorClass.provider_error = "provider_error"
code ErrorClass.invalid_provider_response_error = "invalid_provider_response"
code ErrorClass.no_provider_available_error = "no_provider_available"
code ErrorClass.not_ready_error = "not_ready"
code ErrorClass.deadline_exceeded_error = "deadline_exceeded"

unfoldable pub retryable : ErrorClass → Bool
retryable ErrorClass.request_in_progress_error = true
retryable ErrorClass.quota_exhausted_error = true
retryable ErrorClass.rate_limited_error = true
retryable ErrorClass.no_provider_available_error = true
retryable ErrorClass.not_ready_error = true
retryable _ = false

-- `GatewayError.__init__`
pub record GatewayError : Type 0 where
  pub class : ErrorClass
  pub message : String
  pub param : Option String
  pub retry_after : Option ℕ
