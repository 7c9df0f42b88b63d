-- ===== src/Examples/Circuits.antt =====
-- A breaker with a threshold of three and a cooldown of thirty, a transient failure and a fault.
use llm_token_balancing_gate.Prelude.{◌≡◌, refl, true, false, none, some, [], ◌∷◌, arith, pos}
use llm_token_balancing_gate.Domain.Enums.{AttemptOutcome}
use llm_token_balancing_gate.Resilience.{
  ProviderFailure, RetryPolicy, RetryQuestion, CircuitBreaker, get_state, is_open,
}
use llm_token_balancing_gate.Resilience.Circuit.{view}
use llm_token_balancing_gate.Resilience.Probe.{ask_times, probes_unlimited}

abbrev closed : CircuitBreaker
closed = record { failure_threshold = 3; cooldown = 30; states = [] }

abbrev tripped : CircuitBreaker
tripped = record closed { states = ("openai", record { failures = 3; opened_at = some 100 }) ∷ [] }

abbrev failure_of : AttemptOutcome → ProviderFailure
failure_of outcome = record {
  outcome = outcome;
  retryable = true;
  emitted_output = false;
  retry_after_ms = none;
}

abbrev question : RetryQuestion
question = record {
  attempts_used = 1;
  max_attempts = 3;
  remaining_deadline = pos 10_000;
  predicted_attempt = pos 2_000;
  circuit_open = false;
}

abbrev policy : RetryPolicy
policy = record { base_delay_ms = 250; max_delay_ms = 8000; multiplier = 2 }

probes_unlimited_example : (is_open "openai" 140 (ask_times 2 "openai" 140 tripped)).0 ≡ false
unfolding view get_state
probes_unlimited_example = probes_unlimited 2 "openai" 100 140 tripped refl (omega arith)
