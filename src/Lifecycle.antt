-- ===== src/Lifecycle.antt =====
-- `run` and `_terminal` of src/gateway/services/orchestrator.py: the loop that walks the frozen
-- candidates. One round of it is a function to the next state or to an end, and the loop is recursion
-- on fuel: a round either uses an attempt or passes a candidate, so their numbers and one are enough.
pub mod Rounds
pub mod Cases
pub mod Induction
pub mod Termination
pub mod Outcome
pub mod Spending
pub mod Funds
use llm_token_balancing_gate.Prelude.{
  ℕ, zero, suc, ◌+◌, ◌-◌, ◌*◌, ◌≤◌, String, Bool, true, false, not, ◌&&◌, ◌||◌, Option, none, some,
  List, [], ◌∷◌, ◌++◌, ltb, leb, if◌then◌else◌, length, get_elem?, str_elem, ℤ, pos, ◌+ℤ◌, ltb_ℤ,
  is_some, sub_ℕ,
}
use llm_token_balancing_gate.Domain.Enums.{
  RequestState, AttemptKind, AttemptOutcome, ValidationResult,
}
use llm_token_balancing_gate.Domain.Requests.{non_empty}
use llm_token_balancing_gate.Domain.Routing.{Candidate, RoutePlan}
use llm_token_balancing_gate.Persistence.{Database}
use llm_token_balancing_gate.Resilience.{
  ProviderFailure, RetryQuestion, CircuitBreaker, fallback_outcome, delay_for, may_retry, is_open,
  record_success, record_failure,
}
use llm_token_balancing_gate.Providers.{ProviderResult}
use llm_token_balancing_gate.Validators.{ValidationReport, aggregate, passed, same_result}
use llm_token_balancing_gate.Attempts.{AttemptRecord, set_state}
use llm_token_balancing_gate.Orchestrator.{
  Moment, Setting, Step, Attempted, AttemptArgs, attempt, validation_margin_ms,
}

pub record OrchestrationResult : Type 0 where
  pub state : RequestState
  pub terminal_reason : String
  pub result : Option ProviderResult
  pub validation : Option ValidationReport
  pub attempts : List AttemptRecord
  pub total_cost : ℤ
  pub resolved_model : Option String

-- The variables of `run`, and the two stores that it changes.
pub record Run : Type 0 where
  pub db : Database
  pub breaker : CircuitBreaker
  pub outcome : OrchestrationResult
  pub attempts_used : ℕ
  pub sequence : ℕ
  pub repairs_on_current_model : ℕ
  pub candidate_index : ℕ
  pub pending_repair : Option ValidationReport
  pub waits : List ℕ

-- `run` returns its outcome, is cancelled in the provider's call or in a wait, or is left by the exception
-- of a validator, after the cost of the attempt was settled.
pub data Ended : Type 0 where
  finished cancelled : Run → Ended
  raised : ℤ → Run → Ended

pub data Next : Type 0 where
  continue : Run → Next
  stop : Ended → Next

-- `RoutePlan.has_route`
abbrev pub has_route : RoutePlan → Bool
has_route p = non_empty p.candidates

abbrev pub kind_of : Option ValidationReport → ℕ → AttemptKind
kind_of (some _) i = AttemptKind.repair
kind_of none zero = AttemptKind.generation
kind_of none (suc i) = AttemptKind.escalation

abbrev pub next_candidate : Run → Run
next_candidate s = record s { candidate_index = s.candidate_index + 1 }

abbrev pub with_report : Candidate → ProviderResult → ValidationReport → Run → Run
with_report c result report s = record s {
  outcome = record s.outcome {
    result = some result;
    validation = some report;
    resolved_model = some c.model_id;
  };
}

abbrev pub add_attempt : AttemptRecord → Run → Run
add_attempt a s = record s {
  outcome = record s.outcome {
    attempts = s.outcome.attempts ++ a ∷ [];
    total_cost = s.outcome.total_cost +ℤ a.cost;
  };
}

abbrev pub attempt_args : Candidate → Run → AttemptArgs
attempt_args c s = record {
  candidate = c;
  sequence = s.sequence;
  kind = kind_of s.pending_repair s.candidate_index;
  is_repair = is_some s.pending_repair;
  cost_so_far = s.outcome.total_cost;
}

abbrev pub count_attempt : Run → Run
count_attempt s = record s { sequence = s.sequence + 1; attempts_used = s.attempts_used + 1 }

module _ (w : Setting) where
  -- `_terminal`
  unfoldable pub terminal : RequestState → String → Run → Ended
  unfolding set_state
  terminal state reason s = Ended.finished (record s {
    db = set_state w.request.request_id state (some reason) s.db;
    outcome = record s.outcome { state = state; terminal_reason = reason };
  })

  abbrev pub retry_question : Moment → Candidate → Run → Bool → RetryQuestion
  retry_question m c s tripped = record {
    attempts_used = s.attempts_used;
    max_attempts = w.plan.max_generation_attempts;
    remaining_deadline = sub_ℕ w.deadline_at m.retry_checked_at;
    predicted_attempt = pos ((c.predicted_latency_ms + validation_margin_ms) * 1000);
    circuit_open = tripped;
  }

  -- `await self._wait(delay)`, in which the request can be cancelled.
  abbrev pub after_wait : Moment → Run → Next
  after_wait m s =
      if m.is_wait_cancelled
      then Next.stop (Ended.cancelled s)
      else Next.continue (record s { pending_repair = none })

  -- A failure without visible output, the breaker's answer given.
  abbrev pub retry_or_pass : Moment → Candidate → ProviderFailure → Bool → Run → Next
  retry_or_pass m c f tripped s =
      if may_retry f (retry_question m c s tripped)
      then after_wait m (record s {
        waits = s.waits ++ delay_for w.retry_policy m.uniform s.attempts_used f.retry_after_ms ∷ [];
      })
      else if fallback_outcome f.outcome || f.retryable
      then Next.continue (record s {
        candidate_index = s.candidate_index + 1;
        repairs_on_current_model = 0;
        pending_repair = none;
      })
      else Next.continue
          (record s { candidate_index = s.candidate_index + 1; pending_repair = none })

  unfoldable pub after_failed : Moment → Candidate → ProviderFailure → Run → Next
  unfolding terminal may_retry delay_for fallback_outcome record_failure is_open
  after_failed m c f s =
      let breaker = record_failure c.provider f m.failed_at s.breaker in
      if f.emitted_output
      then Next.stop
          (terminal RequestState.failed_partial "partial_output" (record s { breaker = breaker }))
      else let (tripped, breaker') = is_open c.provider m.retry_breaker_at breaker in
        retry_or_pass m c f tripped (record s { breaker = breaker' })

  -- The next-action table for the verdict on a provider's success.
  unfoldable pub after_verdict : Candidate → ProviderResult → ValidationReport → Run → Next
  unfolding terminal passed aggregate same_result
  after_verdict c result report s =
      if passed report
      then Next.stop (terminal RequestState.succeeded "validated" (with_report c result report s))
      else if same_result (aggregate report) ValidationResult.fail_repairable
          && (ltb s.repairs_on_current_model w.plan.max_same_model_repairs
              && ltb s.attempts_used w.plan.max_generation_attempts)
      then Next.continue (record (with_report c result report s) {
        repairs_on_current_model = s.repairs_on_current_model + 1;
        pending_repair = some report;
      })
      else Next.continue (record (with_report c result report s) {
        candidate_index = s.candidate_index + 1;
        repairs_on_current_model = 0;
        pending_repair = none;
      })

  abbrev pub after_success :
      Candidate → Option ProviderResult → Option ValidationReport → Run → Next
  after_success c (some result) (some report) s = after_verdict c result report s
  after_success c _ _ s = Next.continue (next_candidate s)

  abbrev pub after_step : Moment → Candidate → Step → Option ProviderFailure → Run → Next
  after_step m c st (some f) s = after_failed m c f s
  after_step m c st none s =
      after_success c st.result st.validation
        (record s { breaker = record_success c.provider s.breaker })

  unfoldable pub after_attempt : Moment → Candidate → Attempted → Run → Next
  unfolding terminal after_failed after_verdict record_success
  after_attempt m c (Attempted.denied db) s =
      Next.stop (terminal RequestState.rejected_budget "budget_exceeded" (record s { db = db }))
  after_attempt m c (Attempted.interrupted db) s =
      Next.stop (Ended.cancelled (record s { db = db }))
  after_attempt m c (Attempted.raised cost db) s =
      Next.stop (Ended.raised cost (record s { db = db }))
  after_attempt m c (Attempted.stepped st db) s =
      after_step m c st st.failure (add_attempt st.attempt (record s { db = db }))

  -- The candidate has an adapter: the breaker is asked, and the attempt is made.
  abbrev pub try_candidate : Moment → Candidate → Run → Next
  try_candidate m c s =
      let (tripped, breaker) = is_open c.provider m.breaker_at s.breaker in
      let s' = count_attempt (record s { breaker = breaker }) in
      if tripped
      then Next.continue (next_candidate (record s { breaker = breaker }))
      else after_attempt m c (attempt w m (attempt_args c s') s'.db) s'

  abbrev pub visit : Moment → Option Candidate → Run → Next
  visit m none s = Next.stop (terminal RequestState.failed_exhausted "attempts_exhausted" s)
  visit m (some c) s =
      if leb w.plan.max_generation_attempts s.attempts_used
      then Next.stop (terminal RequestState.failed_exhausted "attempts_exhausted" s)
      else if leb w.deadline_at (m.checked_at + validation_margin_ms * 1000)
      then Next.stop (terminal RequestState.expired "deadline_exceeded" s)
      else if not (str_elem c.provider w.adapters)
      then Next.continue (next_candidate s)
      else try_candidate m c s

  unfoldable pub round : Moment → Run → Next
  unfolding terminal is_open after_attempt attempt
  round m s = visit m (get_elem? w.plan.candidates s.candidate_index) s

  unfoldable pub loop : (ℕ → Moment) → ℕ → ℕ → Run → Option Ended
  unfolding round
  loop moments zero n s = none
  loop moments (suc fuel) n s = elim (round (moments n) s) [
    | Next.continue s' ↦ loop moments fuel (n + 1) s'
    | Next.stop e ↦ some e
  ]

  abbrev pub enough_rounds : ℕ
  enough_rounds = w.plan.max_generation_attempts + length w.plan.candidates + 1

  abbrev pub start : Database → CircuitBreaker → Run
  start db breaker = record {
    db = db;
    breaker = breaker;
    outcome = record {
      state = RequestState.ready;
      terminal_reason = "";
      result = none;
      validation = none;
      attempts = [];
      total_cost = pos 0;
      resolved_model = none;
    };
    attempts_used = 0;
    sequence = 0;
    repairs_on_current_model = 0;
    candidate_index = 0;
    pending_repair = none;
    waits = [];
  }

  unfoldable pub run : (ℕ → Moment) → Database → CircuitBreaker → Option Ended
  unfolding loop terminal
  run moments db breaker =
      if has_route w.plan
      then loop moments enough_rounds 0 (start db breaker)
      else some (terminal RequestState.rejected_no_route "no_eligible_route" (start db breaker))
