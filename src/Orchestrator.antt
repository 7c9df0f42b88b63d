-- ===== src/Orchestrator.antt =====
-- `_attempt` of src/gateway/services/orchestrator.py, over the rows of Attempts.antt.
-- One round of the loop takes its clock readings and the adapter's answer from a `Moment`; the breaker's
-- readings are those of its own monotonic clock. Times are microseconds. The elapsed time and the log
-- are not represented, and what `_wait` is told to sleep is a list of milliseconds.
pub mod Effects
pub mod Charges
use llm_token_balancing_gate.Prelude.{
  ℕ, zero, suc, ◌+◌, ◌-◌, ◌*◌, ◌≤◌, String, Bool, true, false, not, ◌&&◌, ◌||◌, Option, none, some,
  List, [], ◌∷◌, ◌++◌, ltb, leb, if◌then◌else◌, length, get_elem?, str_elem, ℤ, pos, ◌+ℤ◌, ltb_ℤ,
  is_some, sub_ℕ,
}
use llm_token_balancing_gate.Domain.Enums.{
  RequestState, AttemptKind, AttemptOutcome, ValidationResult,
}
use llm_token_balancing_gate.Domain.Requests.{CanonicalRequest, non_empty}
use llm_token_balancing_gate.Domain.Routing.{Candidate, RoutePlan}
use llm_token_balancing_gate.Persistence.{Database}
use llm_token_balancing_gate.Budget.{
  Ledger, Reservation, ReserveRequest, Result, ok, err, default_reservation_ttl, reserve, settle,
  release,
}
use llm_token_balancing_gate.Resilience.{
  ProviderFailure, RetryPolicy, CircuitBreaker, fallback_outcome, delay_for, may_retry, is_open,
  record_success, record_failure,
}
use llm_token_balancing_gate.Providers.{ProviderResult, ProviderInvocation, Reply}
use llm_token_balancing_gate.Validators.{
  ValidationReport, ValidatorRegistry, aggregate, passed, same_result, run_plan,
}
use llm_token_balancing_gate.Attempts.{
  AttemptRecord, Finish, attempt_id_of, outcome_value, set_state, record_attempt, finish_attempt,
  actual_cost, persist_validations,
}

-- VALIDATION_MARGIN_MS, in milliseconds.
abbrev pub validation_margin_ms : ℕ
validation_margin_ms = 500

-- What a validator sees: the request, the candidate output, and `ValidationContext`.
pub record ValidatorInput : Type 0 where
  pub request : CanonicalRequest
  pub candidate : ProviderResult
  pub attempt_number : ℕ
  pub is_repair : Bool

-- The readings and the answer of one round.
pub record Moment : Type 0 where
  pub checked_at : ℕ
  pub breaker_at : ℕ
  pub started_at : ℕ
  pub reserved_at : ℕ
  pub invoked_at : ℕ
  pub reply : ProviderInvocation → Reply
  pub resolved_at : ℕ
  pub finished_at : ℕ
  pub failed_at : ℕ
  pub retry_checked_at : ℕ
  pub retry_breaker_at : ℕ
  pub uniform : ℕ → ℕ
  pub is_wait_cancelled : Bool

-- The orchestrator's fields and the arguments of `run`. `adapters` are the names that have one.
pub record Setting : Type 0 where
  pub adapters : List String
  pub validators : ValidatorRegistry ValidatorInput
  pub retry_policy : RetryPolicy
  pub digest : String → String
  pub request : CanonicalRequest
  pub plan : RoutePlan
  pub scopes : List String
  pub deadline_at : ℕ

-- `_Step`
pub record Step : Type 0 where
  pub attempt : AttemptRecord
  pub result : Option ProviderResult
  pub validation : Option ValidationReport
  pub failure : Option ProviderFailure

-- How `_attempt` ends: it raises `BudgetExceededError`, it is cancelled, a validator's exception leaves it
-- after the cost was settled, or it returns a step.
pub data Attempted : Type 0 where
  denied interrupted : Database → Attempted
  raised : ℤ → Database → Attempted
  stepped : Step → Database → Attempted

pub record AttemptArgs : Type 0 where
  pub candidate : Candidate
  pub sequence : ℕ
  pub kind : AttemptKind
  pub is_repair : Bool
  pub cost_so_far : ℤ

abbrev pub crash_failure : ProviderFailure
crash_failure = record {
  outcome = AttemptOutcome.provider_error;
  retryable = false;
  emitted_output = false;
  retry_after_ms = none;
}

-- The finally block: a positive cost is settled, any other releases.
unfoldable pub resolve_hold : Reservation → ℤ → ℕ → Ledger → Ledger
unfolding settle release
resolve_hold r settled at l =
    if ltb_ℤ (pos 0) settled then settle r settled at l else release r at l

abbrev pub on_ledger : (Ledger → Ledger) → Database → Database
on_ledger f db = record db { ledger = f db.ledger }

module _ (w : Setting) (m : Moment) (a : AttemptArgs) where
  abbrev pub attempt_id : String
  attempt_id = attempt_id_of w.request.request_id a.sequence

  abbrev pub reserve_request : ReserveRequest
  reserve_request = record {
    request_id = w.request.request_id;
    attempt_id = attempt_id;
    scopes = w.scopes;
    estimate = a.candidate.estimated_cost;
    request_cost_so_far = a.cost_so_far;
    effective_max_cost = w.request.controls.max_cost;
    at = m.reserved_at;
    ttl = default_reservation_ttl;
  }

  -- The time left, less the margin, but a tenth of a second at least.
  abbrev pub invocation : ProviderInvocation
  invocation =
      let left = w.deadline_at - m.invoked_at - validation_margin_ms * 1000 in
      record {
        request = w.request;
        gateway_model_id = a.candidate.model_id;
        max_output_tokens = w.request.max_output_tokens;
        timeout = if ltb left 100_000 then 100_000 else left;
        estimated_cost = a.candidate.estimated_cost;
      }

  abbrev pub record_of : AttemptOutcome → ℤ → ℕ → Option ValidationReport → AttemptRecord
  record_of outcome cost latency_ms validation = record {
    sequence = a.sequence;
    model_id = a.candidate.model_id;
    kind = a.kind;
    outcome = outcome;
    cost = cost;
    latency_ms = latency_ms;
    validation = validation;
  }

  -- The provider failed, and `settled` was charged.
  abbrev pub failed_step : ProviderFailure → ℤ → Database → Attempted
  failed_step f settled db =
      Attempted.stepped
        (record {
          attempt = record_of f.outcome settled 0 none;
          result = none;
          validation = none;
          failure = some f;
        })
        (finish_attempt w.digest attempt_id
          (record {
            outcome = f.outcome;
            result = none;
            actual_cost = settled;
            emitted_output = f.emitted_output;
            error_code = some (outcome_value f.outcome);
            finished_at = m.finished_at;
          })
          db)

  -- None if a validator raises.
  unfoldable pub validate : ProviderResult → Option ValidationReport
  unfolding run_plan
  validate result =
      run_plan w.validators
        (record {
          request = w.request;
          candidate = result;
          attempt_number = a.sequence;
          is_repair = a.is_repair;
        })
        w.plan.validation_plan

  -- The row of the attempt is finished before the validators run.
  abbrev pub finished_row : ProviderResult → ℤ → Database → Database
  finished_row result settled db =
      finish_attempt w.digest attempt_id
        (record {
          outcome = AttemptOutcome.success;
          result = some result;
          actual_cost = settled;
          emitted_output = false;
          error_code = none;
          finished_at = m.finished_at;
        })
        db

  abbrev pub after_validation : ProviderResult → ℤ → Option ValidationReport → Database → Attempted
  after_validation result settled none db = Attempted.raised settled db
  after_validation result settled (some report) db =
      Attempted.stepped
        (record {
          attempt = record_of AttemptOutcome.success settled result.latency_ms (some report);
          result = some result;
          validation = some report;
          failure = none;
        })
        (persist_validations w.request.request_id attempt_id report db)

  abbrev pub completed_step : ProviderResult → ℤ → Database → Attempted
  completed_step result settled db =
      after_validation result settled (validate result) (finished_row result settled db)

  abbrev pub failure_cost : ProviderFailure → ℤ
  failure_cost f = if f.emitted_output then a.candidate.estimated_cost else pos 0

  abbrev pub resolved : Reservation → ℤ → Database → Database
  resolved r settled = on_ledger (resolve_hold r settled m.resolved_at)

  -- After the provider's answer: the reservation is resolved first, whatever the answer is.
  unfoldable pub answered : Reservation → Reply → Database → Attempted
  unfolding resolve_hold actual_cost finish_attempt persist_validations validate
  answered r (Reply.completed result) db =
      let settled = actual_cost a.candidate (some result) in
      completed_step result settled (resolved r settled db)
  answered r (Reply.failed f) db = failed_step f (failure_cost f) (resolved r (failure_cost f) db)
  answered r Reply.crashed db = failed_step crash_failure (pos 0) (resolved r (pos 0) db)
  answered r Reply.interrupted db = Attempted.interrupted (resolved r (pos 0) db)

  abbrev pub after_reserve : Result (Reservation × Ledger) → Database → Attempted
  after_reserve (ok (r, l)) db = answered r (m.reply invocation) (on_ledger (λ _. l) db)
  after_reserve (err e) db = Attempted.denied (
      finish_attempt w.digest attempt_id
        (record {
          outcome = AttemptOutcome.cancelled;
          result = none;
          actual_cost = pos 0;
          emitted_output = false;
          error_code = some "budget_exceeded";
          finished_at = m.finished_at;
        })
        db)

  unfoldable pub attempt : Database → Attempted
  unfolding record_attempt reserve answered finish_attempt
  attempt db =
      let db' =
        record_attempt
          (record {
            request = w.request;
            candidate = a.candidate;
            sequence = a.sequence;
            kind = a.kind;
            started_at = m.started_at;
          })
          db in
      after_reserve (reserve reserve_request db'.ledger) db'
