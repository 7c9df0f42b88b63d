-- ===== src/Resilience/Circuit.antt =====
-- The breaker as a map from providers to states: what each operation does to every provider.
use llm_token_balancing_gate.Prelude.{
  ℕ, String, ◌≡◌, refl, ap, ap₂, ◌∙◌, Bool, true, false, Option, none, some, List, [], ◌∷◌, arith,
  str_eq, eq_iff, if◌then◌else◌, Option-cases, inl, inr,
}
use llm_token_balancing_gate.Resilience.{
  ProviderFailure, CircuitState, CircuitBreaker, fresh, get_state, set_state, state_of, blocks,
  is_open, record_success, record_failure, after_failure,
}

pub get_state-set_state :
    (j k : String) (v : CircuitState) (states : List (String × CircuitState))
    → get_state j (set_state k v states) ≡ (if str_eq k j then some v else get_state j states)
unfolding get_state set_state
get_state-set_state j k v [] = refl
get_state-set_state j k v ((i, s) ∷ states) =
    ground (arith, eq_iff k j, eq_iff i k, eq_iff i j, get_state-set_state j k v states)

-- The state of a provider, where a missing one is a fresh one.
abbrev pub or_fresh : Option CircuitState → CircuitState
or_fresh none = fresh
or_fresh (some s) = s

unfoldable pub view : CircuitBreaker → String → CircuitState
view b k = or_fresh (get_state k b.states)

state_of-eq-view : (k : String) (b : CircuitBreaker) → (state_of k b).0 ≡ view b k
unfolding state_of view
state_of-eq-view k b = ground arith

-- Asking for a state changes no state.
view-state_of : (j k : String) (b : CircuitBreaker) → view (state_of k b).1 j ≡ view b j
unfolding state_of view
view-state_of j k b = elim (Option-cases (get_state k b.states)) [
  | inl e ↦ rw e (ground (arith, get_state-set_state j k fresh b.states, eq_iff k j))
  | inr (s, e) ↦ rw e refl
]

-- `is_open` answers by the provider's own state, and changes no state.
pub is_open-view :
    (j k : String) (at : ℕ) (b : CircuitBreaker)
    → ((is_open k at b).0 ≡ blocks b.cooldown at (view b k).opened_at)
      × (view (is_open k at b).1 j ≡ view b j)
unfolding is_open
is_open-view j k at b = (
  ap (λ (s : CircuitState). blocks b.cooldown at s.opened_at) (state_of-eq-view k b),
  view-state_of j k b,
)

or_fresh-if :
    (t : Bool) (v : CircuitState) (o : Option CircuitState)
    → or_fresh (if t then some v else o) ≡ (if t then v else or_fresh o)
or_fresh-if true v o = refl
or_fresh-if false v o = refl

pub view-record_success :
    (j k : String) (b : CircuitBreaker)
    → view (record_success k b) j ≡ (if str_eq k j then fresh else view b j)
unfolding record_success view
view-record_success j k b = rw (get_state-set_state j k fresh b.states) (ground arith)

pub view-record_failure :
    (j k : String) (f : ProviderFailure) (at : ℕ) (b : CircuitBreaker)
    → view (record_failure k f at b) j
      ≡ (if str_eq k j then after_failure b.failure_threshold f at (view b k) else view b j)
unfolding record_failure view
view-record_failure j k f at b =
    let (s, b') = state_of k b in
    ap or_fresh (get_state-set_state j k (after_failure b.failure_threshold f at s) b'.states)
    ∙ or_fresh-if (str_eq k j) _ (get_state j b'.states)
    ∙ ap₂ (λ t u. if str_eq k j then after_failure b.failure_threshold f at t else u)
        (state_of-eq-view k b) (view-state_of j k b)
