-- ===== src/Policy/Partition.antt =====
-- The two lists of `evaluate` in src/gateway/services/policy.py against the registry.
use llm_token_balancing_gate.Prelude.{
  Bool, true, false, List, [], ◌∷◌, ◌≡◌, refl, ap, ap₂, keep, map, All, Elem, not, All-Elem,
  All-keep, subst, sym, if◌then◌else◌, arith,
}
use llm_token_balancing_gate.Domain.Routing.{
  ExclusionReason, ModelSnapshot, RegistrySnapshot, ExcludedModel, Eligibility,
}
use llm_token_balancing_gate.Policy.Gates.{Serves, reasons_iff}
use llm_token_balancing_gate.Policy.{GateInput, reasons, sort_model, evaluate_models, evaluate}

abbrev pub no_reason : List ExclusionReason → Bool
no_reason [] = true
no_reason (_ ∷ _) = false

abbrev pub serves : GateInput → ModelSnapshot → Bool
serves g m = no_reason (reasons g m)

abbrev pub refused : GateInput → ModelSnapshot → Bool
refused g m = not (serves g m)

abbrev pub exclusion : GateInput → ModelSnapshot → ExcludedModel
exclusion g m = record { model_id = m.model_id; reasons = reasons g m }

-- One model, with its reasons as a variable.
sort_model-eligible :
    (m : ModelSnapshot) (rs : List ExclusionReason) (e : Eligibility) (ms : List ModelSnapshot)
    → e.eligible ≡ ms
    → (sort_model m rs e).eligible ≡ (if no_reason rs then m ∷ ms else ms)
sort_model-eligible m [] e ms h = ap (λ xs. m ∷ xs) h
sort_model-eligible m (r ∷ rs) e ms h = h

sort_model-excluded :
    (f : ModelSnapshot → ExcludedModel) (m : ModelSnapshot) (rs : List ExclusionReason)
    (e : Eligibility) (ms : List ModelSnapshot)
    → f m ≡ record { model_id = m.model_id; reasons = rs }
    → e.excluded ≡ map f ms
    → (sort_model m rs e).excluded ≡ map f (if not (no_reason rs) then m ∷ ms else ms)
sort_model-excluded f m [] e ms h ih = ih
sort_model-excluded f m (r ∷ rs) e ms h ih = ap₂ ◌∷◌ (sym h) ih

evaluate_models-eligible :
    (g : GateInput) (ms : List ModelSnapshot) → (evaluate_models g ms).eligible ≡ keep (serves g) ms
unfolding evaluate_models
evaluate_models-eligible g [] = refl
evaluate_models-eligible g (m ∷ ms) =
    sort_model-eligible m (reasons g m) (evaluate_models g ms) (keep (serves g) ms)
      (evaluate_models-eligible g ms)

evaluate_models-excluded :
    (g : GateInput) (ms : List ModelSnapshot)
    → (evaluate_models g ms).excluded ≡ map (exclusion g) (keep (refused g) ms)
unfolding evaluate_models
evaluate_models-excluded g [] = refl
evaluate_models-excluded g (m ∷ ms) =
    sort_model-excluded (exclusion g) m (reasons g m) (evaluate_models g ms) (keep (refused g) ms)
      refl (evaluate_models-excluded g ms)

no_reason→empty : (rs : List ExclusionReason) → no_reason rs ≡ true → rs ≡ []
no_reason→empty [] e = refl
no_reason→empty (r ∷ rs) e = ground arith

serves-Serves : (g : GateInput) (ms : List ModelSnapshot) → All (Serves g) (keep (serves g) ms)
serves-Serves g ms =
    All-keep (λ m. Elem m ms) (Serves g) (serves g) ms
      (λ m _ e. (reasons_iff g m).0 (no_reason→empty (reasons g m) e)) (All-Elem ms)

-- Evaluating a registry keeps, in the registry's order, the models with no reason against them as
-- eligible, each of which serves the request, and excludes every other model, in the same order and
-- with all of its reasons: no model is lost or stands on both sides.
pub evaluate-splits :
    (g : GateInput) (s : RegistrySnapshot)
    → ((evaluate g s).eligible ≡ keep (serves g) s.models)
      × ((evaluate g s).excluded ≡ map (exclusion g) (keep (refused g) s.models))
      × All (Serves g) (evaluate g s).eligible
unfolding evaluate
evaluate-splits g s =
    let h = evaluate_models-eligible g s.models in
    (
      h,
      evaluate_models-excluded g s.models,
      subst (All (Serves g)) (sym h) (serves-Serves g s.models),
    )
