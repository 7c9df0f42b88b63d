-- ===== src/Lifecycle/Outcome.antt =====
-- The ends of `run` in src/gateway/services/orchestrator.py: what is persisted and returned.
use llm_token_balancing_gate.Prelude.{
  ℕ, String, Bool, true, false, some, List, ◌≡◌, refl, sym, ap, ◌∙◌, subst, arith,
}
use llm_token_balancing_gate.Domain.Enums.{RequestState, is_terminal}
use llm_token_balancing_gate.Persistence.{Request, Database, update_request}
use llm_token_balancing_gate.Resilience.{CircuitBreaker}
use llm_token_balancing_gate.Providers.{ProviderResult}
use llm_token_balancing_gate.Validators.{ValidationReport, passed}
use llm_token_balancing_gate.Validators.Gate.{AllAdmit, run_passes, run_plan_passes_iff}
use llm_token_balancing_gate.Attempts.{set_state}
use llm_token_balancing_gate.Orchestrator.{
  Moment, Setting, ValidatorInput, Attempted, AttemptArgs, validate,
}
use llm_token_balancing_gate.Orchestrator.Effects.{db_of, attempt-requests, Steps, attempt-Steps}
use llm_token_balancing_gate.Lifecycle.{Run, Ended, Next, terminal, run}
use llm_token_balancing_gate.Lifecycle.Cases.{round-Rounds}
use llm_token_balancing_gate.Lifecycle.Rounds.{Moves, Attempting, Rounds}
use llm_token_balancing_gate.Lifecycle.Induction.{After, run-After}

-- The row of the request after an end with this state and reason.
abbrev pub with_end : RequestState → String → Request → Request
with_end state reason r = record r { state = state; terminal_reason = some reason }

module _ (w : Setting) (requests : List Request) where
  -- A run that finishes has written the request's row, and that row only; one that is cancelled, or that
  -- an exception leaves, has written none.
  abbrev pub IsPersisted : Ended → Type 0
  IsPersisted (Ended.finished s) =
      (is_terminal s.outcome.state ≡ true)
      × (s.db.requests
          ≡ update_request w.request.request_id (with_end s.outcome.state s.outcome.terminal_reason)
              requests)
  IsPersisted (Ended.cancelled s) = s.db.requests ≡ requests
  IsPersisted (Ended.raised cost s) = s.db.requests ≡ requests

  terminal-IsPersisted :
      (state : RequestState) (reason : String) (s : Run)
      → is_terminal state ≡ true
      → s.db.requests ≡ requests
      → IsPersisted (terminal w state reason s)
  unfolding terminal set_state
  terminal-IsPersisted state reason s t e =
      (t, ap (update_request w.request.request_id (with_end state reason)) e)

  same_requests :
      {a a' : Attempted} → a ≡ a' → (db_of a).requests ≡ requests → (db_of a').requests ≡ requests
  same_requests e h = subst (λ x. (db_of x).requests ≡ requests) e h

  moved_requests : {s s' : Run} → Moves s s' → s.db.requests ≡ requests → s'.db.requests ≡ requests
  moved_requests moves h = ap (λ (d : Database). d.requests) moves.db ∙ h

  Attempting-requests :
      (s : Run) (a : Attempted) {n : Next}
      → (db_of a).requests ≡ requests
      → Attempting w s a n
      → After (λ s'. s'.db.requests ≡ requests) IsPersisted n
  unfolding is_terminal
  Attempting-requests s a h (Attempting.denied db e n) =
      rw n (terminal-IsPersisted _ _ _ refl (same_requests e h))
  Attempting-requests s a h (Attempting.interrupted db e n) = rw n (same_requests e h)
  Attempting-requests s a h (Attempting.raised cost db e n) = rw n (same_requests e h)
  Attempting-requests s a h (Attempting.failed_visibly st db f s' e _ _ moves n) =
      rw n (terminal-IsPersisted _ _ _ refl (moved_requests moves (same_requests e h)))
  Attempting-requests s a h (Attempting.failed st db f s' e _ _ moves n) =
      rw n (moved_requests moves (same_requests e h))
  Attempting-requests s a h (Attempting.gave_up st db f s' e _ _ moves n) =
      rw n (moved_requests moves (same_requests e h))
  Attempting-requests s a h (Attempting.validated st db r v s' e _ _ _ _ _ _ moves n) =
      rw n (terminal-IsPersisted _ _ _ refl (moved_requests moves (same_requests e h)))
  Attempting-requests s a h (Attempting.refused st db s' e _ moves n) =
      rw n (moved_requests moves (same_requests e h))

  Rounds-requests :
      (m : Moment) (s : Run) {n : Next}
      → s.db.requests ≡ requests
      → Rounds w m s n
      → After (λ s'. s'.db.requests ≡ requests) IsPersisted n
  unfolding is_terminal
  Rounds-requests m s h (Rounds.exhausted n) = rw n (terminal-IsPersisted _ _ _ refl h)
  Rounds-requests m s h (Rounds.expired _ n) = rw n (terminal-IsPersisted _ _ _ refl h)
  Rounds-requests m s h (Rounds.passed_over c s' _ _ e n) =
      rw n (ap (λ (t : Run). t.db.requests) e ∙ h)
  Rounds-requests m s h (Rounds.tried c b _ _ _ attempting) =
      Attempting-requests _ _ (attempt-requests w m _ s.db ∙ h) attempting

-- A run that finishes has persisted its end: the request's row bears the outcome's state, which is a
-- terminal one, and its reason, and no other row has changed. A run that was cancelled, in the provider's
-- call or in a wait, or that a validator's exception left, has written no request row.
pub run-IsPersisted :
    (w : Setting) (moments : ℕ → Moment) (db : Database) (breaker : CircuitBreaker) {e : Ended}
    → run w moments db breaker ≡ some e
    → IsPersisted w db.requests e
unfolding is_terminal
run-IsPersisted w moments db breaker h =
    run-After w (λ s. s.db.requests ≡ db.requests) (IsPersisted w db.requests)
      (λ m s p. Rounds-requests w db.requests m s p (round-Rounds w m s)) moments db breaker refl
      (terminal-IsPersisted w db.requests _ _ _ refl refl) h

-- The outcome's result is one that every validator of the plan admits.
pub record IsValidated (w : Setting) (s : Run) : Type 0 where
  pub input : ValidatorInput
  pub of_request : input.request ≡ w.request
  pub result : s.outcome.result ≡ some input.candidate
  pub admitted : AllAdmit w.validators input w.plan.validation_plan

module _ (w : Setting) where
  abbrev pub SucceedsValidated : Ended → Type 0
  SucceedsValidated (Ended.finished s) = s.outcome.state ≡ RequestState.succeeded → IsValidated w s
  SucceedsValidated (Ended.cancelled s) = Unit
  SucceedsValidated (Ended.raised cost s) = Unit

  abbrev is_succeeded : RequestState → Bool
  is_succeeded RequestState.succeeded = true
  is_succeeded _ = false

  terminal-fails :
      (state : RequestState) (reason : String) (s : Run)
      → is_succeeded state ≡ false
      → SucceedsValidated (terminal w state reason s)
  unfolding terminal
  terminal-fails state reason s f =
      λ e. let e' : is_succeeded state ≡ true = ap is_succeeded e in ground arith

  step-IsValidated :
      (m : Moment) (a : AttemptArgs) (o : Attempted) (s : Run) {st : _} {db : Database}
      {result : ProviderResult} {report : ValidationReport}
      → Steps w m a o
      → o ≡ Attempted.stepped st db
      → st.result ≡ some result
      → st.validation ≡ some report
      → passed report ≡ true
      → s.outcome.result ≡ some result
      → SucceedsValidated (terminal w RequestState.succeeded "validated" s)
  unfolding terminal validate
  step-IsValidated m a o s {st} {db} {result} {report} h e r v p r' = λ _.
      let h' = subst (Steps w m a) e h in
      let same : some report ≡ validate w m a result = sym v ∙ h'.validated result r in
      record {
        input = record {
          request = w.request;
          candidate = result;
          attempt_number = a.sequence;
          is_repair = a.is_repair;
        };
        of_request = refl;
        result = r';
        admitted =
            (run_plan_passes_iff w.validators _ w.plan.validation_plan).0
              (subst (λ y. run_passes y ≡ true) same p);
      }

  Rounds-validated :
      (m : Moment) (s : Run) {n : Next} → Rounds w m s n → After (λ _. Unit) SucceedsValidated n
  Rounds-validated m s (Rounds.exhausted n) = rw n (terminal-fails _ _ _ refl)
  Rounds-validated m s (Rounds.expired _ n) = rw n (terminal-fails _ _ _ refl)
  Rounds-validated m s (Rounds.passed_over c s' _ _ e n) = rw n tt
  Rounds-validated m s (Rounds.tried c b _ _ _ (Attempting.denied db e n)) =
      rw n (terminal-fails _ _ _ refl)
  Rounds-validated m s (Rounds.tried c b _ _ _ (Attempting.interrupted db e n)) = rw n tt
  Rounds-validated m s (Rounds.tried c b _ _ _ (Attempting.raised cost db e n)) = rw n tt
  Rounds-validated m s (Rounds.tried c b _ _ _ (Attempting.gave_up st db f s' e _ _ _ n)) = rw n tt
  Rounds-validated m s (Rounds.tried c b _ _ _ (Attempting.failed_visibly st db f s' e _ _ _ n)) =
      rw n (terminal-fails _ _ _ refl)
  Rounds-validated m s (Rounds.tried c b _ _ _ (Attempting.failed st db f s' e _ _ _ n)) = rw n tt
  Rounds-validated m s
        (Rounds.tried c b _ _ _ (Attempting.validated st db r v s' e x y _ p x' _ _ n)) =
      rw n (step-IsValidated m _ _ s' (attempt-Steps w m _ s.db) e x y p x')
  Rounds-validated m s (Rounds.tried c b _ _ _ (Attempting.refused st db s' e _ _ n)) = rw n tt

-- A run that ends as SUCCEEDED has a result, and each validator of the plan is registered and admits
-- that result for this request.
pub run-IsValidated :
    (w : Setting) (moments : ℕ → Moment) (db : Database) (breaker : CircuitBreaker) {s : Run}
    → run w moments db breaker ≡ some (Ended.finished s)
    → s.outcome.state ≡ RequestState.succeeded
    → IsValidated w s
run-IsValidated w moments db breaker h =
    run-After w (λ _. Unit) (SucceedsValidated w)
      (λ m s _. Rounds-validated w m s (round-Rounds w m s)) moments db breaker tt
      (terminal-fails w _ _ _ refl) h
