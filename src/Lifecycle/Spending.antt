-- ===== src/Lifecycle/Spending.antt =====
-- The attempts of `run` in src/gateway/services/orchestrator.py: how many, and what they cost.
use llm_token_balancing_gate.Prelude.{
  ℕ, ◌≤◌, ◌<◌, String, Option, none, some, List, [], ◌∷◌, ◌++◌, ◌≡◌, refl, sym, ap, ◌∙◌, subst,
  length, length-append, ℤ, pos, ◌+ℤ◌, int_laws, arith, Within, ◌⊎◌, inl, inr,
}
use llm_token_balancing_gate.Domain.Enums.{RequestState}
use llm_token_balancing_gate.Persistence.{Database}
use llm_token_balancing_gate.Orchestrator.Effects.{Steps, attempt-Steps}
use llm_token_balancing_gate.Resilience.{CircuitBreaker}
use llm_token_balancing_gate.Attempts.{AttemptRecord}
use llm_token_balancing_gate.Orchestrator.{Moment, Setting, Step, Attempted, AttemptArgs}
use llm_token_balancing_gate.Lifecycle.{
  Run, Ended, Next, round, terminal, count_attempt, attempt_args, start, run,
}
use llm_token_balancing_gate.Lifecycle.Cases.{round-Rounds}
use llm_token_balancing_gate.Lifecycle.Rounds.{Moves, stepped_to, Attempting, Rounds}
use llm_token_balancing_gate.Lifecycle.Induction.{
  run_of, After, run-After, Left, round-keeps, run-keeps,
}

-- The costs of the attempts, added up in their order.
abbrev pub total_of : List AttemptRecord → ℤ
total_of [] = pos 0
total_of (a ∷ rest) = a.cost +ℤ total_of rest

total_of-append :
    (xs : List AttemptRecord) (x : AttemptRecord) → total_of (xs ++ x ∷ []) ≡ total_of xs +ℤ x.cost
total_of-append [] x = omega int_laws
total_of-append (y ∷ ys) x = rw (total_of-append ys x) (omega int_laws)

module _ (w : Setting) where
  -- No more attempts are recorded than were used, and no more are used than are allowed.
  pub record IsCounted (s : Run) : Type 0 where
    pub recorded : length s.outcome.attempts ≤ s.attempts_used
    pub allowed : s.attempts_used ≤ w.plan.max_generation_attempts
    pub total : s.outcome.total_cost ≡ total_of s.outcome.attempts

  -- The bookkeeping alone, which the other fields do not touch.
  counted :
      (s s' : Run)
      → s'.outcome.attempts ≡ s.outcome.attempts
      → s'.outcome.total_cost ≡ s.outcome.total_cost
      → s'.attempts_used ≡ s.attempts_used
      → IsCounted s
      → IsCounted s'
  counted s s' a t u h = record {
    recorded = rw (a, u) h.recorded;
    allowed = rw u h.allowed;
    total = t ∙ h.total ∙ ap total_of (sym a);
  }

  terminal-counted :
      (state : RequestState) (reason : String) (s : Run)
      → IsCounted s
      → IsCounted (run_of (terminal w state reason s))
  unfolding terminal
  terminal-counted state reason s h = counted s _ refl refl refl h

  -- `s` is the state before the attempt was counted.
  stepped-counted :
      (s s' : Run) (breaker : CircuitBreaker) (st : Step) (db : Database)
      → s.attempts_used < w.plan.max_generation_attempts
      → IsCounted s
      → Moves (stepped_to (count_attempt (record s { breaker = breaker })) st db) s'
      → IsCounted s'
  stepped-counted s s' breaker st db u h moves =
      counted (stepped_to (count_attempt (record s { breaker = breaker })) st db) s' moves.attempts
        moves.total_cost moves.attempts_used
        (record {
          recorded =
              let r = h.recorded in
              omega (arith, length-append s.outcome.attempts (st.attempt ∷ []));
          allowed = omega arith;
          total = rw h.total (sym (total_of-append s.outcome.attempts st.attempt));
        })

  unstepped-counted :
      (s : Run) (breaker : CircuitBreaker) (db : Database)
      → s.attempts_used < w.plan.max_generation_attempts
      → IsCounted s
      → IsCounted (record (count_attempt (record s { breaker = breaker })) { db = db })
  unstepped-counted s breaker db u h = record {
    recorded = let r = h.recorded in omega arith;
    allowed = omega arith;
    total = h.total;
  }

  attempt-counted :
      (s : Run) (b : CircuitBreaker) (o : Attempted)
      → s.attempts_used < w.plan.max_generation_attempts
      → IsCounted s
      → Left w IsCounted terminal-counted (count_attempt (record s { breaker = b })) o
  attempt-counted s b (Attempted.denied db) u h = unstepped-counted s b db u h
  attempt-counted s b (Attempted.interrupted db) u h = unstepped-counted s b db u h
  attempt-counted s b (Attempted.raised cost db) u h = unstepped-counted s b db u h
  attempt-counted s b (Attempted.stepped st db) u h =
      λ s' moves. stepped-counted s s' b st db u h moves

-- At every end, at most as many attempts were made as the plan allows, no more are recorded than were
-- made, and the total cost is the sum of the costs that the records bear.
pub run-IsCounted :
    (w : Setting) (moments : ℕ → Moment) (db : Database) (breaker : CircuitBreaker) {e : Ended}
    → run w moments db breaker ≡ some e
    → IsCounted w (run_of e)
run-IsCounted w moments db breaker h =
    run-keeps w (IsCounted w) (terminal-counted w) moments db breaker start_counted
      (λ m s p.
        round-keeps w (IsCounted w) (terminal-counted w) m s
          (λ s' moves. counted w s s' moves.attempts moves.total_cost moves.attempts_used p)
          (λ c b _ u. attempt-counted w s b _ u p))
      h
  where
    start_counted : IsCounted w (start w db breaker)
    start_counted = record { recorded = omega arith; allowed = omega arith; total = refl }

module _ (w : Setting) where
  -- The total stays within the ceiling of the request, if it has one.
  abbrev pub IsUnderCeiling : Run → Type 0
  IsUnderCeiling s = Within w.request.controls.max_cost s.outcome.total_cost

  charged :
      (ceiling : Option ℤ) (total : ℤ) {estimate cost : ℤ}
      → Within ceiling total
      → Within ceiling (total +ℤ estimate)
      → (cost ≡ pos 0) ⊎ (cost ≡ estimate)
      → Within ceiling (total +ℤ cost)
  charged none total h u c = tt
  charged (some ceiling) total h u (inl e) = rw e (omega int_laws)
  charged (some ceiling) total h u (inr e) = rw e u

  terminal-under :
      (state : RequestState) (reason : String) (s : Run)
      → IsUnderCeiling s
      → IsUnderCeiling (run_of (terminal w state reason s))
  unfolding terminal
  terminal-under state reason s h = h

  attempt-under :
      (m : Moment) (a : AttemptArgs) (o : Attempted) (s : Run)
      → a.cost_so_far ≡ s.outcome.total_cost
      → IsUnderCeiling s
      → Steps w m a o
      → Left w IsUnderCeiling terminal-under s o
  attempt-under m a (Attempted.denied db) s c h steps = h
  attempt-under m a (Attempted.interrupted db) s c h steps = h
  attempt-under m a (Attempted.raised cost db) s c h steps = h
  attempt-under m a (Attempted.stepped st db) s c h steps = λ s' moves. rw moves.total_cost (
      charged w.request.controls.max_cost s.outcome.total_cost h
        (subst (λ x. Within w.request.controls.max_cost (x +ℤ a.candidate.estimated_cost)) c
          steps.under)
        steps.cost)

-- The total is within the ceiling, and where a validator raised, it is with what was settled then.
abbrev pub EndsUnderCeiling : Setting → Ended → Type 0
EndsUnderCeiling w (Ended.finished s) = IsUnderCeiling w s
EndsUnderCeiling w (Ended.cancelled s) = IsUnderCeiling w s
EndsUnderCeiling w (Ended.raised cost s) =
    IsUnderCeiling w s × Within w.request.controls.max_cost (s.outcome.total_cost +ℤ cost)

module _ (w : Setting) where
  -- What the end of a round settled and no record bears.
  abbrev Unrecorded : Next → Type 0
  Unrecorded (Next.continue s) = Unit
  Unrecorded (Next.stop (Ended.finished s)) = Unit
  Unrecorded (Next.stop (Ended.cancelled s)) = Unit
  Unrecorded (Next.stop (Ended.raised cost s)) =
      Within w.request.controls.max_cost (s.outcome.total_cost +ℤ cost)

  Attempting-Unrecorded :
      (m : Moment) (a : AttemptArgs) (s : Run) (o : Attempted) {n : Next}
      → a.cost_so_far ≡ s.outcome.total_cost
      → Steps w m a o
      → Attempting w s o n
      → Unrecorded n
  unfolding terminal
  Attempting-Unrecorded m a s o c steps (Attempting.raised cost db e n) =
      let (same, under) = subst (Steps w m a) e steps in
      rw (n, same)
        (subst (λ x. Within w.request.controls.max_cost (x +ℤ a.candidate.estimated_cost)) c under)
  Attempting-Unrecorded m a s o c steps (Attempting.denied db e n) = rw n tt
  Attempting-Unrecorded m a s o c steps (Attempting.interrupted db e n) = rw n tt
  Attempting-Unrecorded m a s o c steps (Attempting.failed_visibly st db f s' e _ _ _ n) = rw n tt
  Attempting-Unrecorded m a s o c steps (Attempting.failed st db f s' e _ _ _ n) = rw n tt
  Attempting-Unrecorded m a s o c steps (Attempting.gave_up st db f s' e _ _ _ n) = rw n tt
  Attempting-Unrecorded m a s o c steps (Attempting.validated st db r v s' e _ _ _ _ _ _ _ n) =
      rw n tt
  Attempting-Unrecorded m a s o c steps (Attempting.refused st db s' e _ _ n) = rw n tt

  Rounds-Unrecorded : (m : Moment) (s : Run) {n : Next} → Rounds w m s n → Unrecorded n
  unfolding terminal
  Rounds-Unrecorded m s (Rounds.exhausted n) = rw n tt
  Rounds-Unrecorded m s (Rounds.expired _ n) = rw n tt
  Rounds-Unrecorded m s (Rounds.passed_over c s' _ _ e n) = rw n tt
  Rounds-Unrecorded m s (Rounds.tried c b _ _ _ attempting) =
      Attempting-Unrecorded m _ _ _ refl (attempt-Steps w m _ s.db) attempting

  with-Unrecorded :
      (n : Next)
      → After (IsUnderCeiling w) (λ e. IsUnderCeiling w (run_of e)) n
      → Unrecorded n
      → After (IsUnderCeiling w) (EndsUnderCeiling w) n
  with-Unrecorded (Next.continue s) h u = h
  with-Unrecorded (Next.stop (Ended.finished s)) h u = h
  with-Unrecorded (Next.stop (Ended.cancelled s)) h u = h
  with-Unrecorded (Next.stop (Ended.raised cost s)) h u = (h, u)

  no_route-under :
      (s : Run)
      → IsUnderCeiling w s
      → EndsUnderCeiling w (terminal w RequestState.rejected_no_route "no_eligible_route" s)
  unfolding terminal
  no_route-under s h = h

-- At every end the total cost of the attempts is within the cost ceiling of the request, whatever the
-- providers answer; where the exception of a validator ends the run, what was settled for that attempt is
-- counted too. The ceiling, where there is one, is not negative.
pub run-IsUnderCeiling :
    (w : Setting) (moments : ℕ → Moment) (db : Database) (breaker : CircuitBreaker) {e : Ended}
    → Within w.request.controls.max_cost (pos 0)
    → run w moments db breaker ≡ some e
    → EndsUnderCeiling w e
run-IsUnderCeiling w moments db breaker c h =
    run-After w (IsUnderCeiling w) (EndsUnderCeiling w)
      (λ m s p.
        with-Unrecorded w (round w m s)
          (round-keeps w (IsUnderCeiling w) (terminal-under w) m s
            (λ s' moves. rw moves.total_cost p)
            (λ k b _ _.
              let s' = count_attempt (record s { breaker = b }) in
              attempt-under w m (attempt_args k s') _ s' refl p (attempt-Steps w m _ s.db)))
          (Rounds-Unrecorded w m s (round-Rounds w m s)))
      moments db breaker c (no_route-under w _ c) h
