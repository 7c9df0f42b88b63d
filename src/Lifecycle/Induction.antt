-- ===== src/Lifecycle/Induction.antt =====
-- Induction over the loop of `run` in src/gateway/services/orchestrator.py.
use llm_token_balancing_gate.Prelude.{
  ℕ, zero, suc, ◌+◌, ◌<◌, String, some, ◌≡◌, refl, sym, subst, get_elem?, some_eq, arith, Bool,
  true, false, if◌then◌else◌,
}
use llm_token_balancing_gate.Domain.Enums.{RequestState}
use llm_token_balancing_gate.Domain.Routing.{Candidate}
use llm_token_balancing_gate.Persistence.{Database}
use llm_token_balancing_gate.Resilience.{CircuitBreaker}
use llm_token_balancing_gate.Orchestrator.{Moment, Setting, Attempted, attempt}
use llm_token_balancing_gate.Lifecycle.{
  Run, Ended, Next, has_route, terminal, next_candidate, count_attempt, attempt_args, round, loop,
  enough_rounds, start, run,
}
use llm_token_balancing_gate.Lifecycle.Cases.{round-Rounds}
use llm_token_balancing_gate.Lifecycle.Rounds.{Moves, Attempting, Rounds, stepped_to}

-- What holds after a round: of the next state, or of the end.
abbrev pub After : (Run → Type 0) → (Ended → Type 0) → Next → Type 0
After P Q (Next.continue s) = P s
After P Q (Next.stop e) = Q e

-- The run that an end leaves.
abbrev pub run_of : Ended → Run
run_of (Ended.finished s) = s
run_of (Ended.cancelled s) = s
run_of (Ended.raised cost s) = s

module _ (w : Setting) where
  pub After-mono :
      {P P' : Run → Type 0} {Q Q' : Ended → Type 0} (n : Next)
      → ((s : Run) → P s → P' s)
      → ((e : Ended) → Q e → Q' e)
      → After P Q n
      → After P' Q' n
  After-mono (Next.continue s) f g h = f s h
  After-mono (Next.stop e) f g h = g e h

  -- What every round keeps until it ends holds of every end.
  pub loop-After :
      (P : Run → Type 0) (Q : Ended → Type 0)
      → ((m : Moment) (s : Run) → P s → After P Q (round w m s))
      → (moments : ℕ → Moment) (fuel n : ℕ) (s : Run) {e : Ended} → P s
      → loop w moments fuel n s ≡ some e
      → Q e
  unfolding loop
  loop-After P Q keeps moments zero n s p h = ground arith
  loop-After P Q keeps moments (suc fuel) n s {e} p h =
      next (round w (moments n) s) (keeps (moments n) s p)
        (λ s' p'. loop-After P Q keeps moments fuel (n + 1) s' p') h
    where
      next :
          (r : Next)
          → After P Q r
          → ((s' : Run) → P s' → loop w moments fuel (n + 1) s' ≡ some e → Q e)
          → elim r [ Next.continue s' ↦ loop w moments fuel (n + 1) s' | Next.stop e' ↦ some e' ]
            ≡ some e
          → Q e
      next (Next.continue s') p' rest h' = rest s' p' h'
      next (Next.stop e') q rest h' = subst Q (some_eq h') q

  -- The same for `run`, which has an end of its own where the plan has no route.
  pub run-After :
      (P : Run → Type 0) (Q : Ended → Type 0)
      → ((m : Moment) (s : Run) → P s → After P Q (round w m s))
      → (moments : ℕ → Moment) (db : Database) (breaker : CircuitBreaker) {e : Ended}
      → P (start w db breaker)
      → Q (terminal w RequestState.rejected_no_route "no_eligible_route" (start w db breaker))
      → run w moments db breaker ≡ some e
      → Q e
  unfolding run
  run-After P Q keeps moments db breaker {e} p q h = routed (has_route w.plan) h
    where
      routed :
          (t : Bool)
          → (if t
              then loop w moments (enough_rounds w) 0 (start w db breaker)
              else some (
                  terminal w RequestState.rejected_no_route "no_eligible_route"
                    (start w db breaker)))
            ≡ some e
          → Q e
      routed true h' = loop-After P Q keeps moments (enough_rounds w) 0 (start w db breaker) p h'
      routed false h' = subst Q (some_eq h') q

unmoved : (s : Run) → Moves s s
unmoved s = record {
  db = refl;
  attempts = refl;
  total_cost = refl;
  attempts_used = refl;
  sequence = refl;
  candidate_index = omega arith;
}

passed : (s : Run) (b : CircuitBreaker) → Moves s (next_candidate (record s { breaker = b }))
passed s b = record {
  db = refl;
  attempts = refl;
  total_cost = refl;
  attempts_used = refl;
  sequence = refl;
  candidate_index = omega arith;
}

-- A property of runs that an end does not touch.
module _ (w : Setting) (P : Run → Type 0)
    (at_end : (state : RequestState) (reason : String) (s : Run)
      → P s
      → P (run_of (terminal w state reason s))) where
  -- What has to hold of the run in which an attempt was made, by how it ended.
  abbrev pub Left : Run → Attempted → Type 0
  Left s (Attempted.denied db) = P (record s { db = db })
  Left s (Attempted.interrupted db) = P (record s { db = db })
  Left s (Attempted.raised cost db) = P (record s { db = db })
  Left s (Attempted.stepped st db) = (s' : Run) → Moves (stepped_to s st db) s' → P s'

  Attempting-keeps :
      (s : Run) (a : Attempted) {n : Next}
      → Left s a
      → Attempting w s a n
      → After P (λ e. P (run_of e)) n
  Attempting-keeps s a h (Attempting.denied db e n) = rw n (at_end _ _ _ (subst (Left s) e h))
  Attempting-keeps s a h (Attempting.interrupted db e n) = rw n (subst (Left s) e h)
  Attempting-keeps s a h (Attempting.raised cost db e n) = rw n (subst (Left s) e h)
  Attempting-keeps s a h (Attempting.failed_visibly st db f s' e _ _ moves n) =
      rw n (at_end _ _ s' (subst (Left s) e h s' moves))
  Attempting-keeps s a h (Attempting.failed st db f s' e _ _ moves n) =
      rw n (subst (Left s) e h s' moves)
  Attempting-keeps s a h (Attempting.gave_up st db f s' e _ _ moves n) =
      rw n (subst (Left s) e h s' moves)
  Attempting-keeps s a h (Attempting.validated st db r v s' e _ _ _ _ _ _ moves n) =
      rw n (at_end _ _ s' (subst (Left s) e h s' moves))
  Attempting-keeps s a h (Attempting.refused st db s' e _ moves n) =
      rw n (subst (Left s) e h s' moves)

  -- A round keeps the property if moving on keeps it and each attempt does.
  pub round-keeps :
      (m : Moment) (s : Run)
      → ((s' : Run) → Moves s s' → P s')
      → ((c : Candidate) (b : CircuitBreaker)
          → get_elem? w.plan.candidates s.candidate_index ≡ some c
          → s.attempts_used < w.plan.max_generation_attempts
          → Left
              (count_attempt (record s { breaker = b }))
              (attempt w m (attempt_args c (count_attempt (record s { breaker = b }))) s.db))
      → After P (λ e. P (run_of e)) (round w m s)
  round-keeps m s stay try = by_cases (round-Rounds w m s)
    where
      by_cases : {n : Next} → Rounds w m s n → After P (λ e. P (run_of e)) n
      by_cases (Rounds.exhausted n) = rw n (at_end _ _ s (stay s (unmoved s)))
      by_cases (Rounds.expired _ n) = rw n (at_end _ _ s (stay s (unmoved s)))
      by_cases (Rounds.passed_over c s' _ _ e n) =
          rw n (subst P (sym e) (stay _ (passed s s'.breaker)))
      by_cases (Rounds.tried c b e u _ attempting) = Attempting-keeps _ _ (try c b e u) attempting

  -- A property that the start has and every round keeps holds of every end.
  pub run-keeps :
      (moments : ℕ → Moment) (db : Database) (breaker : CircuitBreaker) {e : Ended}
      → P (start w db breaker)
      → ((m : Moment) (s : Run) → P s → After P (λ e. P (run_of e)) (round w m s))
      → run w moments db breaker ≡ some e
      → P (run_of e)
  run-keeps moments db breaker p keeps h =
      run-After w P (λ e. P (run_of e)) keeps moments db breaker p
        (at_end _ _ (start w db breaker) p) h
