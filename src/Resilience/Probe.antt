-- ===== src/Resilience/Probe.antt =====
-- Calls after the cooldown of the breaker of src/gateway/services/resilience.py.
use llm_token_balancing_gate.Prelude.{
  ℕ, zero, suc, ◌+◌, ◌≤◌, String, ◌≡◌, refl, ap₂, ◌∙◌, false, some, arith,
}
use llm_token_balancing_gate.Resilience.{CircuitState, CircuitBreaker, blocks, is_open}
use llm_token_balancing_gate.Resilience.Circuit.{view, is_open-view}

-- The breaker after `n` calls of `is_open` for one provider.
unfoldable pub ask_times : ℕ → String → ℕ → CircuitBreaker → CircuitBreaker
ask_times zero k at b = b
ask_times (suc n) k at b = (is_open k at (ask_times n k at b)).1

cooldown-ask_times :
    (n : ℕ) (k : String) (at : ℕ) (b : CircuitBreaker) → (ask_times n k at b).cooldown ≡ b.cooldown
unfolding ask_times is_open
cooldown-ask_times zero k at b = refl
cooldown-ask_times (suc n) k at b = cooldown-ask_times n k at b

view-ask_times :
    (n : ℕ) (k : String) (at : ℕ) (b : CircuitBreaker) → view (ask_times n k at b) k ≡ view b k
unfolding ask_times
view-ask_times zero k at b = refl
view-ask_times (suc n) k at b =
    (is_open-view k k at (ask_times n k at b)).1 ∙ view-ask_times n k at b

-- Once the cooldown of an opened circuit has elapsed, every one of any number of calls in a row is
-- let through, not only the first: nothing records that a probe is under way.
pub probes_unlimited :
    (n : ℕ) (k : String) (opened_at now : ℕ) (b : CircuitBreaker)
    → (view b k).opened_at ≡ some opened_at
    → opened_at + b.cooldown ≤ now
    → (is_open k now (ask_times n k now b)).0 ≡ false
probes_unlimited n k opened_at now b opened elapsed =
    (is_open-view k k now (ask_times n k now b)).0
    ∙ ap₂ (λ c (s : CircuitState). blocks c now s.opened_at) (cooldown-ask_times n k now b)
        (view-ask_times n k now b)
    ∙ rw opened (ground arith)
