-- ===== src/Lifecycle/Funds.antt =====
-- The ledger over a whole `run` of src/gateway/services/orchestrator.py.
use llm_token_balancing_gate.Prelude.{
  ℕ, zero, suc, some_eq, String, Bool, true, false, some, List, [], ◌∷◌, ◌≡◌, refl, sym, ap, ap₂,
  ◌∙◌, subst, map, get_elem?, All, Distinct, if◌then◌else◌, ℤ, pos, ◌≤ℤ◌, arith,
}
use llm_token_balancing_gate.Domain.Enums.{RequestState}
use llm_token_balancing_gate.Persistence.{Database}
use llm_token_balancing_gate.Budget.{Budget, Ledger, budget_ids_of}
use llm_token_balancing_gate.Budget.Held.{IsConsistent}
use llm_token_balancing_gate.Budget.Updates.{update_where}
use llm_token_balancing_gate.Budget.RoundTrip.{charge}
use llm_token_balancing_gate.Resilience.{CircuitBreaker}
use llm_token_balancing_gate.Orchestrator.{Moment, Setting, Attempted, AttemptArgs, attempt}
use llm_token_balancing_gate.Orchestrator.Effects.{db_of}
use llm_token_balancing_gate.Orchestrator.Charges.{attempt-Charges}
use llm_token_balancing_gate.Lifecycle.{Run, Ended, terminal, count_attempt, run}
use llm_token_balancing_gate.Lifecycle.Induction.{run_of, Left, round-keeps, run-keeps}

-- A budget as it is but for what was spent of it.
abbrev pub but_spent : Budget → Budget
but_spent b = record b { spent = pos 0 }

pub update_where-but_spent :
    (p : Budget → Bool) (cost : ℤ) (bs : List Budget)
    → map but_spent (update_where p (charge cost) bs) ≡ map but_spent bs
update_where-but_spent p cost [] = refl
update_where-but_spent p cost (b ∷ bs) =
    ap₂ ◌∷◌ (charged_or_not (p b)) (update_where-but_spent p cost bs)
  where
    charged_or_not : (t : Bool) → but_spent (if t then charge cost b else b) ≡ but_spent b
    charged_or_not true = refl
    charged_or_not false = refl

ids-but_spent : (bs : List Budget) → budget_ids_of bs ≡ budget_ids_of (map but_spent bs)
ids-but_spent [] = refl
ids-but_spent (b ∷ bs) = ap (λ ks. b.id ∷ ks) (ids-but_spent bs)

All-get_elem? :
    {A : Type 0} (P : A → Type 0) (xs : List A) (i : ℕ) {x : A}
    → All P xs
    → get_elem? xs i ≡ some x
    → P x
All-get_elem? P [] i h e = ground arith
All-get_elem? P (y ∷ ys) zero h e = subst P (some_eq e) h.0
All-get_elem? P (y ∷ ys) (suc i) h e = All-get_elem? P ys i h.1 e

-- The ledger is consistent, and no budget differs from `before` but in what was spent.
pub record IsUnheld (before : List Budget) (l : Ledger) : Type 0 where
  pub consistent : IsConsistent l
  pub same : map but_spent l.budgets ≡ map but_spent before

module _ (w : Setting) (before : List Budget) where
  abbrev HoldsNothing : Run → Type 0
  HoldsNothing s = IsUnheld before s.db.ledger

  terminal-unheld :
      (state : RequestState) (reason : String) (s : Run)
      → HoldsNothing s
      → HoldsNothing (run_of (terminal w state reason s))
  unfolding terminal
  terminal-unheld state reason s h = h

  attempt-IsUnheld :
      (m : Moment) (a : AttemptArgs) (db : Database)
      → Distinct (budget_ids_of before)
      → pos 0 ≤ℤ a.candidate.estimated_cost
      → IsUnheld before db.ledger
      → IsUnheld before (db_of (attempt w m a db)).ledger
  attempt-IsUnheld m a db d est h =
      let ids : budget_ids_of before ≡ budget_ids_of db.ledger.budgets =
        ids-but_spent before
        ∙ ap budget_ids_of (sym h.same)
        ∙ sym (ids-but_spent db.ledger.budgets) in
      let c = attempt-Charges w m a db h.consistent (subst Distinct ids d) est in
      record {
        consistent = c.consistent;
        same = ap (map but_spent) c.budgets ∙ update_where-but_spent _ _ db.ledger.budgets ∙ h.same;
      }

  Left-unheld :
      (s : Run) (o : Attempted)
      → IsUnheld before (db_of o).ledger
      → Left w HoldsNothing terminal-unheld s o
  Left-unheld s (Attempted.denied db) h = h
  Left-unheld s (Attempted.interrupted db) h = h
  Left-unheld s (Attempted.raised cost db) h = h
  Left-unheld s (Attempted.stepped st db) h =
      λ s' moves. subst (λ (d : Database). IsUnheld before d.ledger) (sym moves.db) h

-- A run strands no money, however it ends, a cancelled one included: from a consistent ledger it comes to a
-- consistent ledger, and every budget holds in reserve exactly what it held before; only what was spent
-- has changed. The budgets' ids are distinct, and no candidate's estimate is negative.
pub run-IsUnheld :
    (w : Setting) (moments : ℕ → Moment) (db : Database) (breaker : CircuitBreaker) {e : Ended}
    → IsConsistent db.ledger
    → Distinct (budget_ids_of db.ledger.budgets)
    → All (λ c. pos 0 ≤ℤ c.estimated_cost) w.plan.candidates
    → run w moments db breaker ≡ some e
    → IsUnheld db.ledger.budgets (run_of e).db.ledger
run-IsUnheld w moments db breaker c d est h =
    let before = db.ledger.budgets in
    run-keeps w (HoldsNothing w before) (terminal-unheld w before) moments db breaker
      (record { consistent = c; same = refl })
      (λ m s p.
        round-keeps w (HoldsNothing w before) (terminal-unheld w before) m s
          (λ s' moves. subst (λ (x : Database). IsUnheld before x.ledger) (sym moves.db) p)
          (λ k b e _. Left-unheld w before (count_attempt (record s { breaker = b })) _ (
            attempt-IsUnheld w before m _ s.db d
              (All-get_elem? (λ c. pos 0 ≤ℤ c.estimated_cost) w.plan.candidates s.candidate_index
                est e)
              p)))
      h
