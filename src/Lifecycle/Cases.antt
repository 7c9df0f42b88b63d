-- ===== src/Lifecycle/Cases.antt =====
-- The rounds of `run` in src/gateway/services/orchestrator.py, by the relation in Rounds.antt.
use llm_token_balancing_gate.Prelude.{
  ◌+◌, ◌*◌, ◌≤◌, ◌<◌, Bool, true, false, not, ◌||◌, Option, none, some, ◌≡◌, refl, ◌⊎◌, inl, inr,
  leb, if◌then◌else◌, get_elem?, str_elem, leb→le, arith,
}
use llm_token_balancing_gate.Domain.Enums.{RequestState}
use llm_token_balancing_gate.Domain.Routing.{Candidate}
use llm_token_balancing_gate.Persistence.{Database}
use llm_token_balancing_gate.Resilience.{
  ProviderFailure, CircuitBreaker, fallback_outcome, may_retry, is_open, record_success,
  record_failure,
}
use llm_token_balancing_gate.Providers.{ProviderResult}
use llm_token_balancing_gate.Validators.{ValidationReport, passed}
use llm_token_balancing_gate.Orchestrator.{
  Moment, Setting, Step, Attempted, attempt, validation_margin_ms,
}
use llm_token_balancing_gate.Lifecycle.{
  Run, Ended, Next, after_wait, next_candidate, terminal, retry_question, retry_or_pass,
  after_failed, with_report, after_verdict, after_success, after_step, attempt_args, after_attempt,
  count_attempt, try_candidate, visit, round,
}
use llm_token_balancing_gate.Lifecycle.Rounds.{
  Moves, stepped_to, Attempting, denied, interrupted, raised, failed_visibly, failed, gave_up,
  validated, refused, Rounds, exhausted, expired, passed_over, tried,
}

at_once :
    (s s' : Run)
    → s'.db ≡ s.db
    → s'.outcome.attempts ≡ s.outcome.attempts
    → s'.outcome.total_cost ≡ s.outcome.total_cost
    → s'.attempts_used ≡ s.attempts_used
    → s'.sequence ≡ s.sequence
    → s.candidate_index ≤ s'.candidate_index
    → Moves s s'
at_once s s' a b c d e f = record {
  db = a;
  attempts = b;
  total_cost = c;
  attempts_used = d;
  sequence = e;
  candidate_index = f;
}

module _ (w : Setting) where
  -- A failure goes on, or is cancelled in the wait.
  abbrev Goes : Run → Next → Type 0
  Goes s n =
      (s' : Run) × Moves s s' × ((n ≡ Next.continue s') ⊎ (n ≡ Next.stop (Ended.cancelled s')))

  after_wait-Goes : (m : Moment) (s s' : Run) → Moves s s' → Goes s (after_wait w m s')
  after_wait-Goes m s s' moves = if_cancelled m.is_wait_cancelled
    where
      if_cancelled :
          (t : Bool)
          → Goes s (
              if t
              then Next.stop (Ended.cancelled s')
              else Next.continue (record s' { pending_repair = none }))
      if_cancelled true = (s', moves, inr refl)
      if_cancelled false = (
        record s' { pending_repair = none },
        at_once s _ moves.db moves.attempts moves.total_cost moves.attempts_used moves.sequence
            moves.candidate_index,
        inl refl,
      )

  if-Goes : (s : Run) (t : Bool) (x y : Next) → Goes s x → Goes s y → Goes s (if t then x else y)
  if-Goes s true x y h g = h
  if-Goes s false x y h g = g

  retry_or_pass-Goes :
      (m : Moment) (c : Candidate) (f : ProviderFailure) (is_tripped : Bool) (s : Run)
      → Goes s (retry_or_pass w m c f is_tripped s)
  retry_or_pass-Goes m c f is_tripped s =
      if-Goes s (may_retry f (retry_question w m c s is_tripped)) _ _
        (after_wait-Goes m s _ (at_once s _ refl refl refl refl refl (omega arith)))
        (if-Goes s (fallback_outcome f.outcome || f.retryable) _ _
          (_, at_once s _ refl refl refl refl refl (omega arith), inl refl)
          (_, at_once s _ refl refl refl refl refl (omega arith), inl refl))

  failed-Attempting :
      (s s₁ : Run) (st : Step) (db : Database) (f : ProviderFailure) {n : Next}
      → st.failure ≡ some f
      → f.emitted_output ≡ false
      → ((s' : Run) → Moves s₁ s' → Moves (stepped_to s st db) s')
      → Goes s₁ n
      → Attempting w s (Attempted.stepped st db) n
  failed-Attempting s s₁ st db f e h back (s', moves, inl next) =
      failed st db f s' refl e h (back s' moves) next
  failed-Attempting s s₁ st db f e h back (s', moves, inr next) =
      gave_up st db f s' refl e h (back s' moves) next

  after_failed-Attempting :
      (m : Moment) (c : Candidate) (s : Run) (st : Step) (db : Database) (f : ProviderFailure)
      → st.failure ≡ some f
      → Attempting w s (Attempted.stepped st db) (after_failed w m c f (stepped_to s st db))
  unfolding after_failed
  after_failed-Attempting m c s st db f e = if_visible f.emitted_output refl
    where
      if_visible :
          (t : Bool)
          → f.emitted_output ≡ t
          → Attempting w s (Attempted.stepped st db) (
              let breaker = record_failure c.provider f m.failed_at s.breaker in
              let s₁ = stepped_to s st db in
              if t
              then Next.stop (
                  terminal w RequestState.failed_partial "partial_output"
                    (record s₁ { breaker = breaker }))
              else let (is_tripped, breaker') = is_open c.provider m.retry_breaker_at breaker in
                retry_or_pass w m c f is_tripped (record s₁ { breaker = breaker' }))
      if_visible true h =
          failed_visibly st db f
            (record (stepped_to s st db) {
              breaker = record_failure c.provider f m.failed_at s.breaker;
            })
            refl e h (at_once _ _ refl refl refl refl refl (omega arith)) refl
      if_visible false h =
          let (is_tripped, breaker) =
            is_open c.provider m.retry_breaker_at
              (record_failure c.provider f m.failed_at s.breaker) in
          failed-Attempting s (record (stepped_to s st db) { breaker = breaker }) st db f e h
            (λ s' moves.
              at_once _ _ moves.db moves.attempts moves.total_cost moves.attempts_used
                moves.sequence moves.candidate_index)
            (retry_or_pass-Goes m c f is_tripped
              (record (stepped_to s st db) { breaker = breaker }))

  after_verdict-Attempting :
      (c : Candidate) (s : Run) (st : Step) (db : Database) (breaker : CircuitBreaker)
      (result : ProviderResult) (report : ValidationReport)
      → st.failure ≡ none
      → st.result ≡ some result
      → st.validation ≡ some report
      → Attempting w s
          (Attempted.stepped st db)
          (after_verdict w c result report (record (stepped_to s st db) { breaker = breaker }))
  unfolding after_verdict
  after_verdict-Attempting c s st db breaker result report e r v = if_passed (passed report) refl _
    where
      if_passed :
          (t : Bool)
          → passed report ≡ t
          → (u : Bool)
          → Attempting w s (Attempted.stepped st db) (
              let s₁ = record (stepped_to s st db) { breaker = breaker } in
              if t
              then Next.stop
                  (terminal w RequestState.succeeded "validated" (with_report c result report s₁))
              else if u
              then Next.continue (record (with_report c result report s₁) {
                repairs_on_current_model = s.repairs_on_current_model + 1;
                pending_repair = some report;
              })
              else Next.continue (record (with_report c result report s₁) {
                candidate_index = s.candidate_index + 1;
                repairs_on_current_model = 0;
                pending_repair = none;
              }))
      if_passed true h u =
          validated st db result report
            (with_report c result report (record (stepped_to s st db) { breaker = breaker })) refl r
            v e h refl refl (at_once _ _ refl refl refl refl refl (omega arith)) refl
      if_passed false h true =
          refused st db _ refl e (at_once _ _ refl refl refl refl refl (omega arith)) refl
      if_passed false h false =
          refused st db _ refl e (at_once _ _ refl refl refl refl refl (omega arith)) refl

  after_success-Attempting :
      (c : Candidate) (s : Run) (st : Step) (db : Database) (breaker : CircuitBreaker)
      (result : Option ProviderResult) (report : Option ValidationReport)
      → st.failure ≡ none
      → st.result ≡ result
      → st.validation ≡ report
      → Attempting w s
          (Attempted.stepped st db)
          (after_success w c result report (record (stepped_to s st db) { breaker = breaker }))
  after_success-Attempting c s st db breaker (some result) (some report) e r v =
      after_verdict-Attempting c s st db breaker result report e r v
  after_success-Attempting c s st db breaker none report e r v =
      refused st db _ refl e (at_once _ _ refl refl refl refl refl (omega arith)) refl
  after_success-Attempting c s st db breaker (some result) none e r v =
      refused st db _ refl e (at_once _ _ refl refl refl refl refl (omega arith)) refl

  after_step-Attempting :
      (m : Moment) (c : Candidate) (s : Run) (st : Step) (db : Database)
      (failure : Option ProviderFailure)
      → st.failure ≡ failure
      → Attempting w s (Attempted.stepped st db) (after_step w m c st failure (stepped_to s st db))
  after_step-Attempting m c s st db (some f) e = after_failed-Attempting m c s st db f e
  after_step-Attempting m c s st db none e =
      after_success-Attempting c s st db (record_success c.provider s.breaker) st.result
        st.validation e refl refl

  after_attempt-Attempting :
      (m : Moment) (c : Candidate) (s : Run) (a : Attempted)
      → Attempting w s a (after_attempt w m c a s)
  unfolding after_attempt
  after_attempt-Attempting m c s (Attempted.denied db) = denied db refl refl
  after_attempt-Attempting m c s (Attempted.interrupted db) = interrupted db refl refl
  after_attempt-Attempting m c s (Attempted.raised cost db) = raised cost db refl refl
  after_attempt-Attempting m c s (Attempted.stepped st db) =
      after_step-Attempting m c s st db st.failure refl

  try_candidate-Rounds :
      (m : Moment) (c : Candidate) (s : Run)
      → get_elem? w.plan.candidates s.candidate_index ≡ some c
      → s.attempts_used < w.plan.max_generation_attempts
      → m.checked_at + validation_margin_ms * 1000 < w.deadline_at
      → Rounds w m s (try_candidate w m c s)
  try_candidate-Rounds m c s e used time =
      let (is_tripped, breaker) = is_open c.provider m.breaker_at s.breaker in
      if_tripped breaker is_tripped
    where
      if_tripped :
          (breaker : CircuitBreaker) (t : Bool)
          → Rounds w m s (
              let s' = count_attempt (record s { breaker = breaker }) in
              if t
              then Next.continue (next_candidate (record s { breaker = breaker }))
              else after_attempt w m c (attempt w m (attempt_args c s') s'.db) s')
      if_tripped breaker true = passed_over c _ e used refl refl
      if_tripped breaker false =
          let s' = count_attempt (record s { breaker = breaker }) in
          tried c breaker e used time
            (after_attempt-Attempting m c s' (attempt w m (attempt_args c s') s.db))

  visit-Rounds :
      (m : Moment) (s : Run) (o : Option Candidate)
      → get_elem? w.plan.candidates s.candidate_index ≡ o
      → Rounds w m s (visit w m o s)
  visit-Rounds m s none e = exhausted refl
  visit-Rounds m s (some c) e =
      visited (leb w.plan.max_generation_attempts s.attempts_used)
        (leb w.deadline_at (m.checked_at + validation_margin_ms * 1000))
        (not (str_elem c.provider w.adapters)) refl refl
    where
      visited :
          (t u v : Bool)
          → leb w.plan.max_generation_attempts s.attempts_used ≡ t
          → leb w.deadline_at (m.checked_at + validation_margin_ms * 1000) ≡ u
          → Rounds w m s (
              if t
              then Next.stop (terminal w RequestState.failed_exhausted "attempts_exhausted" s)
              else if u
              then Next.stop (terminal w RequestState.expired "deadline_exceeded" s)
              else if v
              then Next.continue (next_candidate s)
              else try_candidate w m c s)
      visited true u v a b = exhausted refl
      visited false true v a b = expired (leb→le _ _ b) refl
      visited false false true a b = passed_over c _ e (ground arith) refl refl
      visited false false false a b = try_candidate-Rounds m c s e (ground arith) (ground arith)

  -- A round goes one of the ways of the relation.
  pub round-Rounds : (m : Moment) (s : Run) → Rounds w m s (round w m s)
  unfolding round
  round-Rounds m s = visit-Rounds m s (get_elem? w.plan.candidates s.candidate_index) refl
