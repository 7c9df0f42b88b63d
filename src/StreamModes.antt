-- ===== src/StreamModes.antt =====
-- `decide` of src/gateway/services/streaming.py: whether a stream is forwarded, buffered, or refused.
pub mod Passthrough
use Prim.Native.String.{count, ◌++◌ as str_append}
use llm_token_balancing_gate.Prelude.{
  ℕ, zero, suc, ◌+◌, ◌-◌, ◌*◌, ◌/◌, String, Bool, true, false, not, ◌&&◌, ◌||◌, Option, none, some,
  List, [], ◌∷◌, ◌++◌, ltb, if◌then◌else◌, keep, any, str_elem, str_eq, ℤ, pos,
}
use llm_token_balancing_gate.Domain.Enums.{RequestState, Risk, AttemptKind, AttemptOutcome}
use llm_token_balancing_gate.Domain.Requests.{non_empty}
use llm_token_balancing_gate.Domain.Routing.{Candidate, RequestFeatures}
use llm_token_balancing_gate.Controls.{sorted_set}
use llm_token_balancing_gate.Persistence.{Database}
use llm_token_balancing_gate.Budget.{Ledger, Reservation, Result, ok, err, reserve}
use llm_token_balancing_gate.Resilience.{
  ProviderFailure, CircuitBreaker, record_failure, record_success,
}
use llm_token_balancing_gate.Providers.{ProviderResult, ProviderInvocation}
use llm_token_balancing_gate.Validators.{ValidationReport, passed}
use llm_token_balancing_gate.Attempts.{
  AttemptRecord, Finish, outcome_value, record_attempt, finish_attempt, persist_validations,
}
use llm_token_balancing_gate.Orchestrator.{
  Moment, Setting, AttemptArgs, resolve_hold, on_ledger, attempt_id, reserve_request, record_of,
  validate,
}
use llm_token_balancing_gate.Lifecycle.{Run, Ended, terminal, add_attempt, start, with_report}

-- FULL_OUTPUT_VALIDATORS and JUDGE_VALIDATORS
abbrev pub full_output_validators : List String
full_output_validators =
    "schema_check" ∷ "json_parse" ∷ "sql_parser" ∷ "sql_safety" ∷ "code_compile" ∷ "citation_check"
    ∷ []

abbrev pub judge_validators : List String
judge_validators = "independent_review" ∷ "rubric_judge" ∷ []

-- `StreamPlan`, or the ValidationRequiresBufferingError.
pub data StreamDecision : Type 0 where
  passthrough_mode : StreamDecision
  buffered_mode : List String → StreamDecision
  requires_buffering : StreamDecision

abbrev pub is_high : Risk → Bool
is_high Risk.high = true
is_high Risk.critical = true
is_high _ = false

unfoldable pub decide : RequestFeatures → List String → StreamDecision
unfolding sorted_set
decide features plan =
    let full = keep (λ v. str_elem v full_output_validators) plan in
    if any (λ v. str_elem v judge_validators) plan
    then requires_buffering
    else if non_empty full
    then buffered_mode (sorted_set full)
    else if is_high features.risk
    then buffered_mode ("risk_floor" ∷ [])
    else passthrough_mode
