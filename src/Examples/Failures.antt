-- ===== src/Examples/Failures.antt =====
-- Runs that fail: without an adapter, by the exception of a validator, and by a client that goes away.
use llm_token_balancing_gate.Prelude.{
  Bool, true, false, ◌≡◌, refl, Option, none, some, [], ◌∷◌, ◌+ℤ◌, ◌-ℤ◌,
}
use llm_token_balancing_gate.Domain.Enums.{AttemptOutcome}
use llm_token_balancing_gate.Providers.{Reply}
use llm_token_balancing_gate.Budget.{
  lock_budgets, in_lock_order, applicable, insert_locked, locks_before, headroom,
}
use llm_token_balancing_gate.Orchestrator.{Setting, Moment}
use llm_token_balancing_gate.Lifecycle.{Run, Ended, start, run}
use llm_token_balancing_gate.Errors.Rendered.{error_for, handle_gateway_error}
use llm_token_balancing_gate.Errors.Told.{IsTold, run-IsTold}
use llm_token_balancing_gate.Examples.Runs.{setting, moment, database, breaker}

abbrev bare : Setting
bare = record (setting) { adapters = [] }

abbrev run_or_start : Option Ended → Run
run_or_start (some (Ended.finished s)) = s
run_or_start _ = start bare database breaker

abbrev failed : Run
unfolding run
failed = run_or_start (run bare (λ _. moment) database breaker)

failed-run : run bare (λ _. moment) database breaker ≡ some (Ended.finished failed)
unfolding run
failed-run = refl

-- The code of the response.
told_code : (handle_gateway_error "req_1" (error_for failed.outcome)).code ≡ "provider_error"
unfolding run error_for handle_gateway_error
told_code = refl

-- A run whose validator raises, and one whose client goes away in the wait before a retry.
abbrev raising : Setting
raising = record (setting) { validators = ("short", λ _. none) ∷ [] }

abbrev failing : Moment
failing = record (moment) {
  reply = λ _. Reply.failed (record {
    outcome = AttemptOutcome.timeout;
    retryable = true;
    emitted_output = false;
    retry_after_ms = none;
  });
  is_wait_cancelled = true;
}

abbrev is_raised : Option Ended → Bool
is_raised (some (Ended.raised cost s)) = true
is_raised _ = false

abbrev is_cancelled : Option Ended → Bool
is_cancelled (some (Ended.cancelled s)) = true
is_cancelled _ = false

validator_raises : is_raised (run raising (λ _. moment) database breaker) ≡ true
unfolding run lock_budgets in_lock_order applicable insert_locked locks_before headroom ◌+ℤ◌ ◌-ℤ◌
validator_raises = refl

wait_cancelled : is_cancelled (run setting (λ _. failing) database breaker) ≡ true
unfolding run lock_budgets in_lock_order applicable insert_locked locks_before headroom ◌+ℤ◌ ◌-ℤ◌
wait_cancelled = refl

run-IsTold_example : IsTold "req_1" (Ended.finished failed)
run-IsTold_example = run-IsTold "req_1" bare (λ _. moment) database breaker failed-run
