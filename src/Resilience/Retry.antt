-- ===== src/Resilience/Retry.antt =====
-- When a failed attempt may be retried, and how long the wait is.
use Prim.Native.Nat.{min}
use llm_token_balancing_gate.Prelude.{
  ℕ, ◌-◌, ◌*◌, ◌^◌, ◌≤◌, ◌<◌, ◌≡◌, ◌↔◌, refl, ◌⊎◌, true, false, none, some, arith, ◌≤ℤ◌,
}
use llm_token_balancing_gate.Domain.Enums.{AttemptOutcome}
use llm_token_balancing_gate.Resilience.{
  ProviderFailure, RetryPolicy, RetryQuestion, may_retry, delay_for,
}

-- The rules for a retry, each a hard stop.
pub record RetryAllowed (f : ProviderFailure) (q : RetryQuestion) : Type 0 where
  pub nothing_visible : f.emitted_output ≡ false
  pub marked_retryable : f.retryable ≡ true
  pub transient :
      (f.outcome ≡ AttemptOutcome.rate_limited)
      ⊎ ((f.outcome ≡ AttemptOutcome.provider_error) ⊎ (f.outcome ≡ AttemptOutcome.timeout))
  pub circuit_closed : q.circuit_open ≡ false
  pub attempts_left : q.attempts_used < q.max_attempts
  pub time_left : ¬ (q.remaining_deadline ≤ℤ q.predicted_attempt)

may_retry-allowed :
    (f : ProviderFailure) (q : RetryQuestion) → may_retry f q ≡ true → RetryAllowed f q
unfolding may_retry
may_retry-allowed f q h = ground arith

allowed-may_retry :
    (f : ProviderFailure) (q : RetryQuestion) → RetryAllowed f q → may_retry f q ≡ true
unfolding may_retry
allowed-may_retry f q a = ground arith

-- A retry is permitted exactly if no output was visible, the failure is marked retryable and is one
-- of the three transient outcomes, the circuit is closed, and attempts and time are left.
pub may_retry_iff :
    (f : ProviderFailure) (q : RetryQuestion) → (may_retry f q ≡ true) ↔ RetryAllowed f q
may_retry_iff f q = (may_retry-allowed f q, allowed-may_retry f q)

-- For any generator that draws within its range, the wait is at most the exponential ceiling and at
-- most the maximal delay, except that it is exactly the provider's `Retry-After` if it gave one.
pub delay_for-bounds :
    (p : RetryPolicy) (uniform : ℕ → ℕ) (attempt retry_after : ℕ)
    → ((c : ℕ) → uniform c ≤ c)
    → (delay_for p uniform attempt none ≤ p.max_delay_ms)
      × (delay_for p uniform attempt none ≤ p.base_delay_ms * p.multiplier ^ (attempt - 1))
      × (delay_for p uniform attempt (some retry_after) ≡ retry_after)
unfolding delay_for
delay_for-bounds p uniform attempt retry_after within =
    let w = within (min (p.base_delay_ms * p.multiplier ^ (attempt - 1)) p.max_delay_ms) in
    (omega arith, omega arith, refl)
