-- ===== src/Planning/Served.antt =====
-- What `build_plan` of src/gateway/services/planning.py promises of its plan.
use llm_token_balancing_gate.Prelude.{
  ℕ, ◌≤◌, String, Bool, Option, List, ◌≡◌, refl, ap, sym, subst, ◌∙◌, ◌⊎◌, inl, inr, All, All-mono,
  All-keep, All-at, arith,
}
use llm_token_balancing_gate.Prelude.Sort.{Rearranged}
use llm_token_balancing_gate.Domain.Enums.{Quality, Risk, quality_index}
use llm_token_balancing_gate.Domain.Requests.{CanonicalRequest}
use llm_token_balancing_gate.Domain.Routing.{ModelSnapshot, RegistrySnapshot, Candidate}
use llm_token_balancing_gate.Policy.{GateInput, cost_of, estimate_cost, evaluate}
use llm_token_balancing_gate.Policy.Gates.{Serves}
use llm_token_balancing_gate.Policy.Partition.{serves, evaluate-splits}
use llm_token_balancing_gate.Registry.{Model, Tables, id_leb, snapshot}
use llm_token_balancing_gate.Registry.Frozen.{IsListed, snapshot-IsListed, snapshot-Rearranged}
use llm_token_balancing_gate.Router.{Floats, weights_for, rank}
use llm_token_balancing_gate.Router.Plan.{PolicyInput, fewest, plan}
use llm_token_balancing_gate.Router.Ranking.{rank-IsOf}
use llm_token_balancing_gate.Router.Cut.{plan-All}
use llm_token_balancing_gate.Classifier.{Signal, classify, quality_floor_for, floor_by_risk}
use llm_token_balancing_gate.Classifier.Floor.{resolve_two-IsStricter}
use llm_token_balancing_gate.Planning.{
  RoutingPolicy, PlanningResult, active_for, validation_plan_for, policy_input, policy_validators,
  policy_floor, at_or, planned_floor, gates_for, build_plan,
}

-- The floor is no lower than what the risk, the caller and the policy ask for, and one of the three.
pub planned_floor-IsLeast :
    (risk : Risk) (requested floor : Quality)
    → (quality_index (floor_by_risk risk) ≤ quality_index (planned_floor risk requested floor))
      × (quality_index requested ≤ quality_index (planned_floor risk requested floor))
      × (quality_index floor ≤ quality_index (planned_floor risk requested floor))
      × ((planned_floor risk requested floor ≡ floor_by_risk risk)
          ⊎ ((planned_floor risk requested floor ≡ requested)
              ⊎ (planned_floor risk requested floor ≡ floor)))
unfolding planned_floor quality_floor_for
planned_floor-IsLeast risk requested floor =
    let two = resolve_two-IsStricter (floor_by_risk risk) requested in
    let all = resolve_two-IsStricter (quality_floor_for risk requested) floor in
    (
      omega (arith, two.0, all.0),
      omega (arith, two.1, all.0),
      all.1,
      elim all.2 [
        | inl q ↦ elim two.2 [ inl k ↦ inl (q ∙ k) | inr k ↦ inr (inl (q ∙ k)) ]
        | inr q ↦ inr (inr q)
      ],
    )

-- The candidate stands for a model that is enabled and priced in the tables and that serves the request.
abbrev pub Stands : Tables → ℕ → GateInput → Candidate → Type 0
Stands t at g c =
    (m : ModelSnapshot) × IsListed t at m
    × Serves g m
    × (c.model_id ≡ m.model_id)
    × (c.provider ≡ m.provider)
    × (c.estimated_cost ≡ cost_of g m)

module _ (fl : Floats) (occurs : Signal → String → Bool) (t : Tables)
    (ps : List (RoutingPolicy fl.F)) (r : CanonicalRequest) (at : Option ℕ) (taken now : ℕ) where
  abbrev frozen : RegistrySnapshot
  frozen = snapshot t (at_or at taken)

  evaluate-IsListed :
      (g : GateInput) → All (IsListed t (at_or at taken)) (evaluate g frozen).eligible
  evaluate-IsListed g =
      subst (All (IsListed t (at_or at taken))) (sym (evaluate-splits g frozen).0) (
        All-keep (IsListed t (at_or at taken)) (IsListed t (at_or at taken)) (serves g)
          frozen.models (λ m h _. h) (snapshot-IsListed t (at_or at taken)))

  plan-Stands :
      (g : GateInput) (p : PolicyInput fl.F) (vs : List String) (start : ℕ)
      → g.request ≡ r
      → All
          (Stands t (at_or at taken) g)
          (plan fl r g.features frozen (evaluate g frozen) p vs start).candidates
  plan-Stands g p vs start same =
      let w = weights_for fl r.requested_model p.policy_weights in
      let n = fewest p.max_generation_attempts r.controls.max_attempts in
      let e = evaluate g frozen in
      plan-All fl r g.features frozen e p vs start (Stands t (at_or at taken) g) (
        All-mono _ (Stands t (at_or at taken) g) (rank fl e g.features r w n)
          (λ c found. (
            found.0,
            All-at (IsListed t (at_or at taken)) found.0 e.eligible found.1 (evaluate-IsListed g),
            All-at (Serves g) found.0 e.eligible found.1 (evaluate-splits g frozen).2,
            found.2.0,
            found.2.1,
            found.2.2
                ∙ ap
                    (λ q.
                      estimate_cost found.0 q.estimated_input_tokens
                        g.features.expected_output_tokens)
                    (sym same),
          ))
          (rank-IsOf fl e g.features r w n))

  -- Every candidate of a plan stands for a model that is enabled and priced in the tables and that serves
  -- the request, with the floor and the validators of that plan, at the cost that is estimated for it.
  pub build_plan-Serves :
      All
        (Stands t (at_or at taken) (
          gates_for fl occurs r
            (build_plan fl occurs t ps r at taken now).quality_floor
            (build_plan fl occurs t ps r at taken now).plan.validation_plan))
        (build_plan fl occurs t ps r at taken now).plan.candidates
  unfolding build_plan plan
  build_plan-Serves =
      let f = classify occurs r in
      let policy = active_for f.task_class ps in
      let floor = planned_floor f.risk r.controls.quality (policy_floor policy) in
      let vs = validation_plan_for r f (policy_validators policy) in
      plan-Stands (gates_for fl occurs r floor vs) (policy_input policy) vs (at_or at now) refl

  -- The order of the rows of the table of models does not matter to a plan, as long as their ids differ.
  pub build_plan-Rearranged :
      (models : List Model)
      → Rearranged id_leb t.models models
      → build_plan fl occurs t ps r at taken now
        ≡ build_plan fl occurs (record t { models = models }) ps r at taken now
  unfolding build_plan
  build_plan-Rearranged models h = ap finish (snapshot-Rearranged models t (at_or at taken) h)
    where
      finish : RegistrySnapshot → PlanningResult
      finish s =
          let f = classify occurs r in
          let policy = active_for f.task_class ps in
          let floor = planned_floor f.risk r.controls.quality (policy_floor policy) in
          let vs = validation_plan_for r f (policy_validators policy) in
          record {
            features = f;
            snapshot = s;
            plan =
                plan fl r f s (evaluate (gates_for fl occurs r floor vs) s) (policy_input policy) vs
                  (at_or at now);
            quality_floor = floor;
          }
