-- ===== src/Resilience/Threshold.antt =====
-- Failures, faults and successes at the breaker of src/gateway/services/resilience.py.
use llm_token_balancing_gate.Prelude.{
  ℕ, zero, suc, ◌+◌, ◌<◌, String, ◌≡◌, refl, ap, ap₂, sym, ◌∙◌, true, false, none, some, arith,
  str_eq, leb, if◌then◌else◌,
}
use text.Mathlib.TextPositions.{eq_refl}
use llm_token_balancing_gate.Resilience.{
  ProviderFailure, CircuitState, CircuitBreaker, fresh, blocks, is_open, record_success,
  record_failure, after_failure, circuit_opening_outcome,
}
use llm_token_balancing_gate.Resilience.Circuit.{
  view, is_open-view, view-record_success, view-record_failure,
}

-- `n` failures of one provider in a row, at one time.
unfoldable pub fail_times : ℕ → String → ProviderFailure → ℕ → CircuitBreaker → CircuitBreaker
fail_times zero k f at b = b
fail_times (suc n) k f at b = record_failure k f at (fail_times n k f at b)

threshold-fail_times :
    (n : ℕ) (k : String) (f : ProviderFailure) (at : ℕ) (b : CircuitBreaker)
    → (fail_times n k f at b).failure_threshold ≡ b.failure_threshold
unfolding fail_times record_failure
threshold-fail_times zero k f at b = refl
threshold-fail_times (suc n) k f at b = threshold-fail_times n k f at b

cooldown-fail_times :
    (n : ℕ) (k : String) (f : ProviderFailure) (at : ℕ) (b : CircuitBreaker)
    → (fail_times n k f at b).cooldown ≡ b.cooldown
unfolding fail_times record_failure
cooldown-fail_times zero k f at b = refl
cooldown-fail_times (suc n) k f at b = cooldown-fail_times n k f at b

-- The state after `n` transient failures in a row, from a closed circuit with no failures.
after : ℕ → ℕ → ℕ → CircuitState
after threshold at n = record {
  failures = n;
  opened_at = if leb threshold n then some at else none;
}

if_self {ℓ} : {A : Type ℓ} (k : String) (x y : A) → (if str_eq k k then x else y) ≡ x
if_self k x y = rw (eq_refl k) refl

after_step :
    (n threshold at : ℕ) (f : ProviderFailure)
    → circuit_opening_outcome f.outcome ≡ false
    → after_failure threshold f at (after threshold at n) ≡ after threshold at (suc n)
unfolding after
after_step n threshold at f soft = ground arith

view-fail_times :
    (n : ℕ) (k : String) (f : ProviderFailure) (at : ℕ) (b : CircuitBreaker)
    → circuit_opening_outcome f.outcome ≡ false
    → 0 < b.failure_threshold
    → view b k ≡ fresh
    → view (fail_times n k f at b) k ≡ after b.failure_threshold at n
unfolding fail_times after
view-fail_times zero k f at b soft pos h = h ∙ ground arith
view-fail_times (suc n) k f at b soft pos h =
    let b' = fail_times n k f at b in
    view-record_failure k k f at b'
    ∙ if_self k (after_failure b'.failure_threshold f at (view b' k)) (view b' k)
    ∙ ap₂ (λ t s. after_failure t f at s) (threshold-fail_times n k f at b)
        (view-fail_times n k f at b soft pos h)
    ∙ after_step n b.failure_threshold at f soft

-- From a closed circuit with no failures, `n` transient failures in a row open the circuit of that
-- provider exactly when `n` has reached the threshold, and an open one blocks exactly until the
-- cooldown has elapsed.
pub opens_at_threshold :
    (n : ℕ) (k : String) (f : ProviderFailure) (at now : ℕ) (b : CircuitBreaker)
    → circuit_opening_outcome f.outcome ≡ false
    → 0 < b.failure_threshold
    → view b k ≡ fresh
    → (is_open k now (fail_times n k f at b)).0 ≡ (
        if leb b.failure_threshold n
        then (if leb (at + b.cooldown) now then false else true)
        else false)
opens_at_threshold n k f at now b soft pos h =
    (is_open-view k k now (fail_times n k f at b)).0
    ∙ ap₂ (λ c (s : CircuitState). blocks c now s.opened_at) (cooldown-fail_times n k f at b)
        (view-fail_times n k f at b soft pos h)
    ∙ unfold after in ground arith

open_after_failure :
    (j k : String) (f : ProviderFailure) (at now : ℕ) (b : CircuitBreaker)
    → (is_open j now (record_failure k f at b)).0
      ≡ blocks b.cooldown now
          (if str_eq k j
            then after_failure b.failure_threshold f at (view b k)
            else view b j).opened_at
unfolding record_failure
open_after_failure j k f at now b =
    (is_open-view j j now (record_failure k f at b)).0
    ∙ ap (λ (s : CircuitState). blocks b.cooldown now s.opened_at) (view-record_failure j k f at b)

open_after_success :
    (j k : String) (now : ℕ) (b : CircuitBreaker)
    → (is_open j now (record_success k b)).0
      ≡ blocks b.cooldown now (if str_eq k j then fresh else view b j).opened_at
unfolding record_success
open_after_success j k now b =
    (is_open-view j j now (record_success k b)).0
    ∙ ap (λ (s : CircuitState). blocks b.cooldown now s.opened_at) (view-record_success j k b)

-- A configuration fault opens the circuit of its provider at once, whatever the threshold is, until
-- the cooldown has elapsed; a success closes it; and neither changes what another provider's
-- circuit answers.
pub opens_on_fault :
    (j k : String) (f : ProviderFailure) (at now : ℕ) (b : CircuitBreaker)
    → circuit_opening_outcome f.outcome ≡ true
    → str_eq k j ≡ false
    → ((is_open k now (record_failure k f at b)).0
        ≡ (if leb (at + b.cooldown) now then false else true))
      × ((is_open k now (record_success k b)).0 ≡ false)
      × ((is_open j now (record_failure k f at b)).0 ≡ (is_open j now b).0)
      × ((is_open j now (record_success k b)).0 ≡ (is_open j now b).0)
opens_on_fault j k f at now b hard other = (
  open_after_failure k k f at now b ∙ rw (eq_refl k, hard) refl,
  open_after_success k k now b ∙ rw (eq_refl k) refl,
  open_after_failure j k f at now b ∙ rw other (sym (is_open-view j j now b).0),
  open_after_success j k now b ∙ rw other (sym (is_open-view j j now b).0),
)
