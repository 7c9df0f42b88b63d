-- ===== src/Lifecycle/Rounds.antt =====
-- A round of `run` as a relation: the ways it can go, each with what it knows and where it leads. The
-- proofs about the loop go by cases on it.
use llm_token_balancing_gate.Prelude.{
  ◌+◌, ◌*◌, ◌≤◌, ◌<◌, true, false, none, some, ℤ, ◌≡◌, get_elem?,
}
use llm_token_balancing_gate.Domain.Enums.{RequestState}
use llm_token_balancing_gate.Domain.Routing.{Candidate}
use llm_token_balancing_gate.Persistence.{Database}
use llm_token_balancing_gate.Resilience.{ProviderFailure, CircuitBreaker}
use llm_token_balancing_gate.Providers.{ProviderResult}
use llm_token_balancing_gate.Validators.{ValidationReport, passed}
use llm_token_balancing_gate.Orchestrator.{
  Moment, Setting, Step, Attempted, attempt, validation_margin_ms,
}
use llm_token_balancing_gate.Lifecycle.{
  Run, Ended, Next, next_candidate, terminal, add_attempt, attempt_args, count_attempt,
}

-- `s'` goes on from `s` with the same database and attempts, at the same candidate or a later one.
pub record Moves (s s' : Run) : Type 0 where
  pub db : s'.db ≡ s.db
  pub attempts : s'.outcome.attempts ≡ s.outcome.attempts
  pub total_cost : s'.outcome.total_cost ≡ s.outcome.total_cost
  pub attempts_used : s'.attempts_used ≡ s.attempts_used
  pub sequence : s'.sequence ≡ s.sequence
  pub candidate_index : s.candidate_index ≤ s'.candidate_index

-- The run after an attempt that returned a step.
abbrev pub stepped_to : Run → Step → Database → Run
stepped_to s st db = add_attempt st.attempt (record s { db = db })

module _ (w : Setting) where
  -- `s` is the state in which the attempt was made, and `a` is how the attempt ended.
  pub data Attempting (s : Run) (a : Attempted) (n : Next) : Type 0 where
    denied :
        (db : Database)
        → a ≡ Attempted.denied db
        → n
          ≡ Next.stop
              (terminal w RequestState.rejected_budget "budget_exceeded" (record s { db = db }))
        → Attempting s a n
    interrupted :
        (db : Database)
        → a ≡ Attempted.interrupted db
        → n ≡ Next.stop (Ended.cancelled (record s { db = db }))
        → Attempting s a n
    raised :
        (cost : ℤ) (db : Database)
        → a ≡ Attempted.raised cost db
        → n ≡ Next.stop (Ended.raised cost (record s { db = db }))
        → Attempting s a n
    failed_visibly :
        (st : Step) (db : Database) (f : ProviderFailure) (s' : Run)
        → a ≡ Attempted.stepped st db
        → st.failure ≡ some f
        → f.emitted_output ≡ true
        → Moves (stepped_to s st db) s'
        → n ≡ Next.stop (terminal w RequestState.failed_partial "partial_output" s')
        → Attempting s a n
    failed :
        (st : Step) (db : Database) (f : ProviderFailure) (s' : Run)
        → a ≡ Attempted.stepped st db
        → st.failure ≡ some f
        → f.emitted_output ≡ false
        → Moves (stepped_to s st db) s'
        → n ≡ Next.continue s'
        → Attempting s a n
    gave_up :
        (st : Step) (db : Database) (f : ProviderFailure) (s' : Run)
        → a ≡ Attempted.stepped st db
        → st.failure ≡ some f
        → f.emitted_output ≡ false
        → Moves (stepped_to s st db) s'
        → n ≡ Next.stop (Ended.cancelled s')
        → Attempting s a n
    validated :
        (st : Step) (db : Database) (result : ProviderResult) (report : ValidationReport) (s' : Run)
        → a ≡ Attempted.stepped st db
        → st.result ≡ some result
        → st.validation ≡ some report
        → st.failure ≡ none
        → passed report ≡ true
        → s'.outcome.result ≡ some result
        → s'.outcome.validation ≡ some report
        → Moves (stepped_to s st db) s'
        → n ≡ Next.stop (terminal w RequestState.succeeded "validated" s')
        → Attempting s a n
    refused :
        (st : Step) (db : Database) (s' : Run)
        → a ≡ Attempted.stepped st db
        → st.failure ≡ none
        → Moves (stepped_to s st db) s'
        → n ≡ Next.continue s'
        → Attempting s a n

  pub data Rounds (m : Moment) (s : Run) (n : Next) : Type 0 where
    exhausted :
        n ≡ Next.stop (terminal w RequestState.failed_exhausted "attempts_exhausted" s)
        → Rounds m s n
    expired :
        w.deadline_at ≤ m.checked_at + validation_margin_ms * 1000
        → n ≡ Next.stop (terminal w RequestState.expired "deadline_exceeded" s)
        → Rounds m s n
    passed_over :
        (c : Candidate) (s' : Run)
        → get_elem? w.plan.candidates s.candidate_index ≡ some c
        → s.attempts_used < w.plan.max_generation_attempts
        → s' ≡ next_candidate (record s { breaker = s'.breaker })
        → n ≡ Next.continue s'
        → Rounds m s n
    tried :
        (c : Candidate) (breaker : CircuitBreaker)
        → get_elem? w.plan.candidates s.candidate_index ≡ some c
        → s.attempts_used < w.plan.max_generation_attempts
        → m.checked_at + validation_margin_ms * 1000 < w.deadline_at
        → Attempting
            (count_attempt (record s { breaker = breaker }))
            (attempt w m (attempt_args c (count_attempt (record s { breaker = breaker }))) s.db)
            n
        → Rounds m s n
