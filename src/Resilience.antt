-- ===== src/Resilience.antt =====
-- src/gateway/services/resilience.py: retries, backoff and the circuit breaker, with `ProviderFailure` of
-- src/gateway/providers/base.py. Delays are milliseconds, other times microseconds. The breaker's dict
-- is an association list in the order of insertion.
pub mod Retry
pub mod Circuit
pub mod Threshold
pub mod Probe
use llm_token_balancing_gate.Prelude.{
  ℕ, zero, suc, ◌+◌, ◌-◌, ◌*◌, ◌^◌, String, Bool, true, false, not, ◌&&◌, ◌||◌, Option, none, some,
  List, [], ◌∷◌, map, ltb, leb, str_eq, if◌then◌else◌, is_some, keep, ℤ, leb_ℤ,
}
use Prim.Native.Nat.{min}
use llm_token_balancing_gate.Domain.Enums.{AttemptOutcome}

pub record ProviderFailure : Type 0 where
  pub outcome : AttemptOutcome
  pub retryable : Bool
  pub emitted_output : Bool
  pub retry_after_ms : Option ℕ

-- `outcome in RETRYABLE_OUTCOMES`
unfoldable pub retryable_outcome : AttemptOutcome → Bool
retryable_outcome AttemptOutcome.rate_limited = true
retryable_outcome AttemptOutcome.provider_error = true
retryable_outcome AttemptOutcome.timeout = true
retryable_outcome _ = false

-- `outcome in FALLBACK_OUTCOMES`
unfoldable pub fallback_outcome : AttemptOutcome → Bool
fallback_outcome AttemptOutcome.capability_rejected = true
fallback_outcome AttemptOutcome.context_rejected = true
fallback_outcome _ = false

-- `outcome in CIRCUIT_OPENING_OUTCOMES`
unfoldable pub circuit_opening_outcome : AttemptOutcome → Bool
circuit_opening_outcome AttemptOutcome.auth_error = true
circuit_opening_outcome _ = false

pub record RetryPolicy : Type 0 where
  pub base_delay_ms : ℕ
  pub max_delay_ms : ℕ
  pub multiplier : ℕ

-- `uniform c` is the generator's draw from 0 to `c`. A negative `Retry-After` is not represented.
unfoldable pub delay_for : RetryPolicy → (ℕ → ℕ) → ℕ → Option ℕ → ℕ
delay_for p uniform attempt_number (some retry_after) = retry_after
delay_for p uniform attempt_number none =
    uniform (min (p.base_delay_ms * p.multiplier ^ (attempt_number - 1)) p.max_delay_ms)

pub record RetryQuestion : Type 0 where
  pub attempts_used : ℕ
  pub max_attempts : ℕ
  pub remaining_deadline : ℤ
  pub predicted_attempt : ℤ
  pub circuit_open : Bool

unfoldable pub may_retry : ProviderFailure → RetryQuestion → Bool
unfolding retryable_outcome
may_retry f q =
    if f.emitted_output
    then false
    else if not f.retryable || not (retryable_outcome f.outcome)
    then false
    else if q.circuit_open
    then false
    else if leb q.max_attempts q.attempts_used
    then false
    else if leb_ℤ q.remaining_deadline q.predicted_attempt
    then false
    else true

pub record CircuitState : Type 0 where
  pub failures : ℕ
  pub opened_at : Option ℕ

-- `CircuitState.is_open`
abbrev pub was_opened : CircuitState → Bool
was_opened s = is_some s.opened_at

abbrev pub fresh : CircuitState
fresh = record { failures = 0; opened_at = none }

pub record CircuitBreaker : Type 0 where
  pub failure_threshold : ℕ
  pub cooldown : ℕ
  pub states : List (String × CircuitState)

unfoldable pub get_state : String → List (String × CircuitState) → Option CircuitState
get_state k [] = none
get_state k ((j, s) ∷ states) = if str_eq j k then some s else get_state k states

unfoldable pub set_state :
    String → CircuitState → List (String × CircuitState) → List (String × CircuitState)
set_state k v [] = (k, v) ∷ []
set_state k v ((j, s) ∷ states) =
    if str_eq j k then (j, v) ∷ states else (j, s) ∷ set_state k v states

-- `self._states.setdefault(provider, CircuitState())`: the state, and the dict with it.
abbrev pub or_insert :
    String
    → Option CircuitState
    → List (String × CircuitState)
    → CircuitState × List (String × CircuitState)
or_insert k none states = (fresh, set_state k fresh states)
or_insert k (some s) states = (s, states)

unfoldable pub state_of : String → CircuitBreaker → CircuitState × CircuitBreaker
unfolding get_state set_state
state_of k b =
    let (s, states) = or_insert k (get_state k b.states) b.states in
    (s, record b { states = states })

-- A circuit that was opened blocks until the cooldown has elapsed.
abbrev pub blocks : ℕ → ℕ → Option ℕ → Bool
blocks cooldown at none = false
blocks cooldown at (some opened_at) = if leb (opened_at + cooldown) at then false else true

unfoldable pub is_open : String → ℕ → CircuitBreaker → Bool × CircuitBreaker
unfolding state_of
is_open k at b = let (s, b') = state_of k b in (blocks b.cooldown at s.opened_at, b')

unfoldable pub record_success : String → CircuitBreaker → CircuitBreaker
unfolding set_state
record_success k b = record b { states = set_state k fresh b.states }

abbrev pub after_failure : ℕ → ProviderFailure → ℕ → CircuitState → CircuitState
after_failure threshold f at s =
    if circuit_opening_outcome f.outcome
    then record { failures = s.failures + 1; opened_at = some at }
    else record {
      failures = s.failures + 1;
      opened_at = if leb threshold (s.failures + 1) then some at else s.opened_at;
    }

unfoldable pub record_failure : String → ProviderFailure → ℕ → CircuitBreaker → CircuitBreaker
unfolding state_of circuit_opening_outcome
record_failure k f at b =
    let (s, b') = state_of k b in
    record b' { states = set_state k (after_failure b.failure_threshold f at s) b'.states }

-- The keys are those of the dict, so `is_open` inserts none of them.
unfoldable pub open_providers : ℕ → CircuitBreaker → List String
unfolding is_open
open_providers at b = keep (λ k. (is_open k at b).0) (map (λ e. e.0) b.states)

abbrev pub reset : CircuitBreaker → CircuitBreaker
reset b = record b { states = [] }
