-- ===== src/Lifecycle/Termination.antt =====
-- The fuel of the loop of `run` in src/gateway/services/orchestrator.py.
use llm_token_balancing_gate.Prelude.{
  ℕ, zero, suc, ◌+◌, ◌-◌, ◌≤◌, ◌<◌, some, List, [], ◌∷◌, ◌≡◌, refl, length, get_elem?, arith, Bool,
  true, false, if◌then◌else◌,
}
use llm_token_balancing_gate.Domain.Enums.{RequestState}
use llm_token_balancing_gate.Persistence.{Database}
use llm_token_balancing_gate.Resilience.{CircuitBreaker}
use llm_token_balancing_gate.Orchestrator.{Moment, Setting, Attempted}
use llm_token_balancing_gate.Lifecycle.{
  Run, Ended, Next, has_route, terminal, round, loop, enough_rounds, start, run,
}
use llm_token_balancing_gate.Lifecycle.Cases.{round-Rounds}
use llm_token_balancing_gate.Lifecycle.Rounds.{Attempting, Rounds}
use llm_token_balancing_gate.Lifecycle.Induction.{After, After-mono}

pub get_elem?-below :
    {A : Type 0} (xs : List A) (i : ℕ) {x : A} → get_elem? xs i ≡ some x → i < length xs
get_elem?-below [] i e = ground arith
get_elem?-below (y ∷ xs) zero e = omega arith
get_elem?-below (y ∷ xs) (suc i) e = omega (arith, get_elem?-below xs i e)

module _ (w : Setting) where
  -- The attempts and candidates that are left.
  abbrev pub left : Run → ℕ
  left s =
      (w.plan.max_generation_attempts - s.attempts_used)
      + (length w.plan.candidates - s.candidate_index)

  -- After an attempt, one attempt fewer is left.
  Attempting-left :
      (s : Run) {a : Attempted} {n : Next}
      → Attempting w s a n
      → After
          (λ s'. (s'.attempts_used ≡ s.attempts_used) × (s.candidate_index ≤ s'.candidate_index))
          (λ _. Unit)
          n
  Attempting-left s (Attempting.denied db a e) = rw e tt
  Attempting-left s (Attempting.interrupted db a e) = rw e tt
  Attempting-left s (Attempting.raised cost db a e) = rw e tt
  Attempting-left s (Attempting.failed_visibly st db f s' a b c d e) = rw e tt
  Attempting-left s (Attempting.failed st db f s' a b c d e) =
      rw e (d.attempts_used, d.candidate_index)
  Attempting-left s (Attempting.gave_up st db f s' a b c d e) = rw e tt
  Attempting-left s (Attempting.validated st db r v s' a b c d e f g h i) = rw i tt
  Attempting-left s (Attempting.refused st db s' a b d e) =
      rw e (d.attempts_used, d.candidate_index)

  Rounds-left :
      (m : Moment) (s : Run) (n : Next)
      → Rounds w m s n
      → After (λ s'. left s' < left s) (λ _. Unit) n
  Rounds-left m s n (Rounds.exhausted e) = rw e tt
  Rounds-left m s n (Rounds.expired h e) = rw e tt
  Rounds-left m s n (Rounds.passed_over c s' e used h next) =
      let below = get_elem?-below w.plan.candidates s.candidate_index e in
      let same : s'.attempts_used ≡ s.attempts_used = rw h refl in
      let later : s'.candidate_index ≡ s.candidate_index + 1 = rw h refl in rw next (omega arith)
  Rounds-left m s n (Rounds.tried c b e used time attempting) =
      let below = get_elem?-below w.plan.candidates s.candidate_index e in
      After-mono w n
        (λ s'
            (h : (s'.attempts_used ≡ s.attempts_used + 1)
              × (s.candidate_index ≤ s'.candidate_index)).
          omega arith)
        (λ _ h. h) (Attempting-left _ attempting)

  loop-ends :
      (moments : ℕ → Moment) (fuel n : ℕ) (s : Run)
      → left s < fuel
      → ((e : Ended) × (loop w moments fuel n s ≡ some e))
  unfolding loop
  loop-ends moments zero n s h = ground arith
  loop-ends moments (suc fuel) n s h =
      next (round w (moments n) s) (Rounds-left (moments n) s _ (round-Rounds w (moments n) s))
        (λ s' h'. loop-ends moments fuel (n + 1) s' (omega arith))
    where
      next :
          (r : Next)
          → After (λ s'. left s' < left s) (λ _. Unit) r
          → ((s' : Run)
              → left s' < left s
              → ((e : Ended) × (loop w moments fuel (n + 1) s' ≡ some e)))
          → ((e : Ended) × (elim r [
            | Next.continue s' ↦ loop w moments fuel (n + 1) s'
            | Next.stop e ↦ some e
          ]
                ≡ some e))
      next (Next.continue s') h' rest = rest s' h'
      next (Next.stop e) h' rest = (e, refl)

-- Whatever the clocks read and the providers answer, `run` comes to an end: a round for each attempt
-- that the plan allows, for each candidate, and one more, is enough.
pub run-ends :
    (w : Setting) (moments : ℕ → Moment) (db : Database) (breaker : CircuitBreaker)
    → ((e : Ended) × (run w moments db breaker ≡ some e))
unfolding run
run-ends w moments db breaker = routed (has_route w.plan)
  where
    routed :
        (t : Bool)
        → ((e : Ended) × ((if t
                then loop w moments (enough_rounds w) 0 (start w db breaker)
                else some (
                    terminal w RequestState.rejected_no_route "no_eligible_route"
                      (start w db breaker)))
              ≡ some e))
    routed true = loop-ends w moments (enough_rounds w) 0 (start w db breaker) (omega arith)
    routed false = (_, refl)
