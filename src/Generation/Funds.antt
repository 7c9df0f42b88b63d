-- ===== src/Generation/Funds.antt =====
-- The ledger over a whole call of `_run` in src/gateway/api/generation.py.
use llm_token_balancing_gate.Prelude.{
  ℕ, String, Bool, true, false, none, some, List, refl, sym, subst, All, All-mono, pos, ◌≤ℤ◌, arith,
  if◌then◌else◌, is_some, Distinct,
}
use llm_token_balancing_gate.Domain.Requests.{CanonicalRequest}
use llm_token_balancing_gate.Domain.Routing.{ModelSnapshot, Candidate}
use llm_token_balancing_gate.Persistence.{get_request}
use llm_token_balancing_gate.Budget.{budget_ids_of}
use llm_token_balancing_gate.Budget.Held.{IsConsistent}
use llm_token_balancing_gate.Policy.{GateInput, cost_of, estimate_cost}
use llm_token_balancing_gate.Registry.{Tables}
use llm_token_balancing_gate.Router.{Floats}
use llm_token_balancing_gate.Classifier.{Signal}
use llm_token_balancing_gate.Planning.{RoutingPolicy, gates_for}
use llm_token_balancing_gate.Planning.Served.{Stands, build_plan-Serves}
use llm_token_balancing_gate.Orchestrator.{Setting}
use llm_token_balancing_gate.Lifecycle.{Ended}
use llm_token_balancing_gate.Lifecycle.Termination.{run-ends}
use llm_token_balancing_gate.Lifecycle.Funds.{IsUnheld, run-IsUnheld}
use llm_token_balancing_gate.Lifecycle.Induction.{run_of}
use llm_token_balancing_gate.Generation.{
  Stores, Session, open_session, Answer, refused, answered, crashed, cancelled, out_of_rounds,
  get_session, with_row, run_request, Clocks, Claimed, unclaimed, holds, rejected, persist_request,
  claim_key, Held, after_run, planned, setting_for, plan_and_run, after_claim, generate,
}

cost_of-nonneg : (g : GateInput) (m : ModelSnapshot) → pos 0 ≤ℤ cost_of g m
unfolding estimate_cost
cost_of-nonneg g m = omega arith

Stands-nonneg :
    (t : Tables) (at : ℕ) (g : GateInput) (c : Candidate)
    → Stands t at g c
    → pos 0 ≤ℤ c.estimated_cost
Stands-nonneg t at g c s = subst (λ x. pos 0 ≤ℤ x) (sym s.5) (cost_of-nonneg g s.0)

module _ (fl : Floats) (occurs : Signal → String → Bool) (t : Tables)
    (ps : List (RoutingPolicy fl.F)) (base : Setting) (r : CanonicalRequest) (k : Clocks) where
  planned-nonneg :
      All (λ c. pos 0 ≤ℤ c.estimated_cost) (planned fl occurs t ps base r k).plan.candidates
  planned-nonneg =
      let p = planned fl occurs t ps base r k in
      All-mono _ (λ c. pos 0 ≤ℤ c.estimated_cost) (planned fl occurs t ps base r k).plan.candidates
        (Stands-nonneg t k.taken_at (gates_for fl occurs r p.quality_floor p.plan.validation_plan))
        (build_plan-Serves fl occurs t ps r none k.taken_at k.planned_at)

  module _ (s : Stores) (c : IsConsistent s.db.ledger)
      (d : Distinct (budget_ids_of s.db.ledger.budgets)) where
    abbrev Unheld : Stores → Type 0
    Unheld s' = IsUnheld s.db.ledger.budgets s'.db.ledger

    -- Whether the session is committed or rolled back.
    BothUnheld : Answer × Session → Type 0
    BothUnheld a = Unheld a.1.committed × Unheld a.1.working

    unchanged : IsUnheld s.db.ledger.budgets s.db.ledger
    unchanged = record { consistent = c; same = refl }

    after_run-Unheld :
        (h : Held) (s' : Stores) (e : Ended)
        → IsUnheld s.db.ledger.budgets (run_of e).db.ledger
        → BothUnheld (after_run r h s' (some e))
    unfolding BothUnheld
    after_run-Unheld h s' (Ended.finished x) u = (u, u)
    after_run-Unheld h s' (Ended.cancelled x) u = (u, u)
    after_run-Unheld h s' (Ended.raised cost x) u = (u, u)

    abbrev written : Session
    written = with_row fl occurs t ps base r k (open_session s)

    plan_and_run-Unheld : (h : Held) → BothUnheld (plan_and_run fl occurs t ps base r k h written)
    unfolding plan_and_run persist_request
    plan_and_run-Unheld h =
        let s' : Stores = record (written.working) { records = h.1 } in
        let w = setting_for fl occurs t ps base r k in
        let end = run-ends w k.moments s'.db s.breaker in
        subst (λ o. BothUnheld (after_run r h s' o)) (sym end.1)
          (after_run-Unheld h s' end.0
            (run-IsUnheld w k.moments s'.db s.breaker c d planned-nonneg end.1))

    after_claim-Unheld : (q : Claimed) → BothUnheld (after_claim fl occurs t ps base r k written q)
    unfolding after_claim persist_request BothUnheld
    after_claim-Unheld unclaimed = plan_and_run-Unheld (none, s.records)
    after_claim-Unheld (holds row records) = plan_and_run-Unheld (some row, records)
    after_claim-Unheld (rejected why records) = (unchanged, unchanged)

    if-Unheld :
        (b : Bool) (x y : Answer × Session)
        → BothUnheld x
        → BothUnheld y
        → BothUnheld (if b then x else y)
    if-Unheld true x y h g = h
    if-Unheld false x y h g = g

    get_session-Unheld : (a : Answer × Session) → BothUnheld a → Unheld (get_session a).1
    unfolding get_session BothUnheld
    get_session-Unheld (answered o, x) h = h.1
    get_session-Unheld (refused why, x) h = h.0
    get_session-Unheld (crashed, x) h = h.0
    get_session-Unheld (cancelled, x) h = h.0
    get_session-Unheld (out_of_rounds, x) h = h.0

    -- A request that is planned and run strands no money, whatever is in the registry and the policies and
    -- whatever the providers answer, a request that is refused, cancelled or left by an exception
    -- included: the ledger stays consistent, and every budget holds in reserve exactly what it held
    -- before. The ledger was consistent, and the budgets' ids are distinct.
    pub generate-IsUnheld :
        (ready : Bool)
        → IsUnheld s.db.ledger.budgets (generate fl occurs t ps base ready r k s).1.db.ledger
    unfolding generate run_request BothUnheld
    generate-IsUnheld ready =
        get_session-Unheld (run_request fl occurs t ps base ready r k (open_session s)) (
          if-Unheld ready _ _
            (if-Unheld (is_some (get_request r.request_id s.db.requests)) _ _ (unchanged, unchanged)
              (after_claim-Unheld (claim_key r k.claimed_at s.records)))
            (unchanged, unchanged))
