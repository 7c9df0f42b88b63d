-- ===== src/Attempts.antt =====
-- One attempt of src/gateway/services/orchestrator.py: its row, its reservation, the provider's call,
-- the settlement, and the validation. Each transaction is a function on the database.
use Prim.Native.String.{◌++◌ as str_append}
use llm_token_balancing_gate.Prelude.{
  ℕ, zero, suc, ◌+◌, ◌/◌, ◌%◌, String, Bool, false, not, ◌&&◌, ◌||◌, Option, none, some, List, [],
  ◌∷◌, ◌++◌, ltb, if◌then◌else◌, ℤ, is_some,
}
use llm_token_balancing_gate.Domain.Enums.{
  RequestState, AttemptKind, AttemptOutcome, ValidationResult,
}
use llm_token_balancing_gate.Domain.Requests.{CanonicalRequest}
use llm_token_balancing_gate.Domain.Routing.{Candidate}
use llm_token_balancing_gate.Persistence.{
  Attempt, Validation, Database, update_attempt, update_request,
}
use llm_token_balancing_gate.Providers.{ProviderResult, total_tokens}
use llm_token_balancing_gate.Validators.{
  ValidationOutcome, ValidationReport, aggregate, same_result,
}

-- `str` of a digit, and of a number: `n + 1` rounds are enough for its digits.
abbrev digit : ℕ → String
digit zero = "0"
digit (suc zero) = "1"
digit (suc (suc zero)) = "2"
digit (suc (suc (suc zero))) = "3"
digit (suc (suc (suc (suc zero)))) = "4"
digit (suc (suc (suc (suc (suc zero))))) = "5"
digit (suc (suc (suc (suc (suc (suc zero)))))) = "6"
digit (suc (suc (suc (suc (suc (suc (suc zero))))))) = "7"
digit (suc (suc (suc (suc (suc (suc (suc (suc zero)))))))) = "8"
digit _ = "9"

digits : ℕ → ℕ → String
digits zero n = ""
digits (suc fuel) n =
    let rest = digits fuel (n / 10) in
    if ltb n 10 then digit n else str_append rest (digit (n % 10))

unfoldable pub attempt_id_of : String → ℕ → String
unfolding digits
attempt_id_of request_id sequence =
    str_append "att_" (str_append request_id (str_append "_" (digits (suc sequence) sequence)))

-- `AttemptRecord`
pub record AttemptRecord : Type 0 where
  pub sequence : ℕ
  pub model_id : String
  pub kind : AttemptKind
  pub outcome : AttemptOutcome
  pub cost : ℤ
  pub latency_ms : ℕ
  pub validation : Option ValidationReport

-- `_set_state`; a missing row changes nothing.
unfoldable pub set_state : String → RequestState → Option String → Database → Database
set_state request_id state terminal_reason db = record db {
  requests =
      update_request request_id
        (λ r. record r {
          state = state;
          terminal_reason = if is_some terminal_reason then terminal_reason else r.terminal_reason;
        })
        db.requests;
}

pub record NewAttempt : Type 0 where
  pub request : CanonicalRequest
  pub candidate : Candidate
  pub sequence : ℕ
  pub kind : AttemptKind
  pub started_at : ℕ

-- `_record_attempt`
unfoldable pub record_attempt : NewAttempt → Database → Database
unfolding attempt_id_of
record_attempt n db = record db {
  attempts =
      db.attempts
      ++ (record {
        id = attempt_id_of n.request.request_id n.sequence;
        request_id = n.request.request_id;
        sequence = n.sequence;
        model_id = n.candidate.model_id;
        route_rank = n.candidate.rank;
        attempt_kind = n.kind;
        emitted_output = false;
        outcome = none;
        error_code = none;
        finish_reason = none;
        prompt_tokens = none;
        completion_tokens = none;
        cost_estimated = n.candidate.estimated_cost;
        cost_actual = none;
        started_at = n.started_at;
        finished_at = none;
        latency_ms = none;
        output_hash = none;
      })
        ∷ [];
}

pub record Finish : Type 0 where
  pub outcome : AttemptOutcome
  pub result : Option ProviderResult
  pub actual_cost : ℤ
  pub emitted_output : Bool
  pub error_code : Option String
  pub finished_at : ℕ

-- The columns that a result fills. `digest` is the keyed digest of the telemetry.
abbrev pub with_result : (String → String) → Option ProviderResult → Attempt → Attempt
with_result digest none a = a
with_result digest (some r) a = record a {
  prompt_tokens = r.usage.prompt_tokens;
  completion_tokens = r.usage.completion_tokens;
  latency_ms = some r.latency_ms;
  finish_reason = some r.finish_reason;
  output_hash = some (digest r.text);
}

-- `_finish_attempt`
unfoldable pub finish_attempt : (String → String) → String → Finish → Database → Database
finish_attempt digest attempt_id f db = record db {
  attempts =
      update_attempt attempt_id
        (λ a. with_result digest f.result (record a {
          outcome = some f.outcome;
          cost_actual = some f.actual_cost;
          finished_at = some f.finished_at;
          emitted_output = f.emitted_output;
          error_code = f.error_code;
        }))
        db.attempts;
}

-- `_actual_cost`: the two branches of the code return the same.
unfoldable pub actual_cost : Candidate → Option ProviderResult → ℤ
unfolding total_tokens
actual_cost c none = c.estimated_cost
actual_cost c (some r) =
    if is_some (total_tokens r.usage) then c.estimated_cost else c.estimated_cost

-- The rows of `_persist_validations`: the first outcome that is required and bears the aggregate is the
-- deciding one.
unfoldable pub validation_rows :
    String → String → ValidationResult → Bool → ℕ → List ValidationOutcome → List Validation
unfolding same_result
validation_rows request_id attempt_id verdict decided index [] = []
validation_rows request_id attempt_id verdict decided index (o ∷ os) =
    let decides = not decided && (o.required && same_result o.result verdict) in
    record {
      request_id = request_id;
      attempt_id = attempt_id;
      validator_name = o.validator;
      sequence = index;
      required = o.required;
      result = o.result;
      aggregate_effect = decides;
      detail_codes = o.detail_codes;
      duration_ms = o.duration_ms;
    }
    ∷ validation_rows request_id attempt_id verdict (decided || decides) (index + 1) os

unfoldable pub persist_validations : String → String → ValidationReport → Database → Database
unfolding validation_rows aggregate
persist_validations request_id attempt_id report db = record db {
  validations =
      db.validations
      ++ validation_rows request_id attempt_id (aggregate report) false 1 report.outcomes;
}

-- `AttemptOutcome.value`
abbrev pub outcome_value : AttemptOutcome → String
outcome_value AttemptOutcome.success = "SUCCESS"
outcome_value AttemptOutcome.timeout = "TIMEOUT"
outcome_value AttemptOutcome.rate_limited = "RATE_LIMITED"
outcome_value AttemptOutcome.provider_error = "PROVIDER_ERROR"
outcome_value AttemptOutcome.auth_error = "AUTH_ERROR"
outcome_value AttemptOutcome.capability_rejected = "CAPABILITY_REJECTED"
outcome_value AttemptOutcome.context_rejected = "CONTEXT_REJECTED"
outcome_value AttemptOutcome.invalid_response = "INVALID_RESPONSE"
outcome_value AttemptOutcome.cancelled = "CANCELLED"
outcome_value AttemptOutcome.partial = "PARTIAL"
