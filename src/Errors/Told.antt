-- ===== src/Errors/Told.antt =====
-- What a client is told of a run of src/gateway/services/orchestrator.py that has failed.
use llm_token_balancing_gate.Prelude.{
  ℕ, String, false, some, ◌⊎◌, ◌≡◌, refl, ◌||◌, ◌==◌, str_eq, if◌then◌else◌, inl, inr,
}
use llm_token_balancing_gate.Domain.Enums.{RequestState}
use llm_token_balancing_gate.Persistence.{Database}
use llm_token_balancing_gate.Resilience.{CircuitBreaker}
use llm_token_balancing_gate.Orchestrator.{Moment, Setting}
use llm_token_balancing_gate.Lifecycle.{OrchestrationResult, Run, Ended, Next, terminal, run}
use llm_token_balancing_gate.Lifecycle.Cases.{round-Rounds}
use llm_token_balancing_gate.Lifecycle.Rounds.{Attempting, Rounds}
use llm_token_balancing_gate.Lifecycle.Induction.{After, run-After}
use llm_token_balancing_gate.Errors.Rendered.{
  ErrorResponse, failure_error, error_for, handle_gateway_error,
}

-- The code of a response by the reason of the end.
abbrev pub code_by_reason : String → String
code_by_reason reason =
    if str_eq reason "partial_output" || str_eq reason "attempts_exhausted"
    then "provider_error"
    else reason

-- The response gives the reason, is no internal error, and does not ask for a retry.
pub record IsExplained (reason : String) (e : ErrorResponse) : Type 0 where
  pub by_reason : e.code ≡ code_by_reason reason
  pub not_internal : (e.status_code == 500) ≡ false
  pub final : e.retryable ≡ false

module _ (request_id : String) where
  -- A run that finished has succeeded or is explained.
  abbrev pub IsTold : Ended → Type 0
  IsTold (Ended.finished s) =
      (s.outcome.state ≡ RequestState.succeeded)
      ⊎ IsExplained s.outcome.terminal_reason
          (handle_gateway_error request_id (error_for s.outcome))
  IsTold (Ended.cancelled s) = Unit
  IsTold (Ended.raised cost s) = Unit

  abbrev response : RequestState → OrchestrationResult → ErrorResponse
  response state o = handle_gateway_error request_id (error_for (record o { state = state }))

  terminal-IsTold :
      (w : Setting) (state : RequestState) (reason : String) (s : Run)
      → (response state s.outcome).code ≡ code_by_reason reason
      → ((response state s.outcome).status_code == 500) ≡ false
      → (response state s.outcome).retryable ≡ false
      → IsTold (terminal w state reason s)
  unfolding terminal error_for handle_gateway_error
  terminal-IsTold w state reason s a b c =
      inr (record { by_reason = a; not_internal = b; final = c })

  success-IsTold :
      (w : Setting) (reason : String) (s : Run)
      → IsTold (terminal w RequestState.succeeded reason s)
  unfolding terminal
  success-IsTold w reason s = inl refl

  Rounds-IsTold :
      (w : Setting) (m : Moment) (s : Run) {n : Next} → Rounds w m s n → After (λ _. Unit) IsTold n
  unfolding error_for failure_error handle_gateway_error
  Rounds-IsTold w m s (Rounds.exhausted n) = rw n (terminal-IsTold w _ _ _ refl refl refl)
  Rounds-IsTold w m s (Rounds.expired _ n) = rw n (terminal-IsTold w _ _ _ refl refl refl)
  Rounds-IsTold w m s (Rounds.passed_over c s' _ _ e n) = rw n tt
  Rounds-IsTold w m s (Rounds.tried c b _ _ _ (Attempting.denied db e n)) =
      rw n (terminal-IsTold w _ _ _ refl refl refl)
  Rounds-IsTold w m s (Rounds.tried c b _ _ _ (Attempting.interrupted db e n)) = rw n tt
  Rounds-IsTold w m s (Rounds.tried c b _ _ _ (Attempting.raised cost db e n)) = rw n tt
  Rounds-IsTold w m s (Rounds.tried c b _ _ _ (Attempting.gave_up st db f s' e _ _ _ n)) = rw n tt
  Rounds-IsTold w m s (Rounds.tried c b _ _ _ (Attempting.failed_visibly st db f s' e _ _ _ n)) =
      rw n (terminal-IsTold w _ _ _ refl refl refl)
  Rounds-IsTold w m s (Rounds.tried c b _ _ _ (Attempting.failed st db f s' e _ _ _ n)) = rw n tt
  Rounds-IsTold w m s
        (Rounds.tried c b _ _ _ (Attempting.validated st db r v s' e _ _ _ _ _ _ _ n)) =
      rw n (success-IsTold w _ _)
  Rounds-IsTold w m s (Rounds.tried c b _ _ _ (Attempting.refused st db s' e _ _ n)) = rw n tt

-- A run that finishes without success is told as an error whose code is the persisted reason, or
-- `provider_error` where the attempts were exhausted or output was already visible; it is never an
-- internal error, and it does not ask the client to try again.
pub run-IsTold :
    (request_id : String) (w : Setting) (moments : ℕ → Moment) (db : Database)
    (breaker : CircuitBreaker) {e : Ended}
    → run w moments db breaker ≡ some e
    → IsTold request_id e
unfolding error_for failure_error handle_gateway_error
run-IsTold request_id w moments db breaker h =
    run-After w (λ _. Unit) (IsTold request_id)
      (λ m s _. Rounds-IsTold request_id w m s (round-Rounds w m s)) moments db breaker tt
      (terminal-IsTold request_id w _ _ _ refl refl refl) h
