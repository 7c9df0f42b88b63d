-- ===== src/Validators.antt =====
-- src/gateway/validators/base.py: verdicts, their aggregation, the registry and the validation run. A
-- validator is a function of the request, the candidate output and the context, of types that a
-- section's parameter stands for; the validators themselves are entries of the registry.
pub mod Aggregate
pub mod Gate
pub mod Stop
pub use mathlib.Core.Option.{map as map_some}
use llm_token_balancing_gate.Prelude.{
  ℕ, String, Bool, true, false, not, ◌&&◌, ◌||◌, Option, none, some, List, [], ◌∷◌, ltb, ◌==◌,
  str_eq, if◌then◌else◌, keep, map, str_elem,
}
use llm_token_balancing_gate.Domain.Enums.{ValidationResult, severity_index}

pub record ValidationOutcome : Type 0 where
  pub validator : String
  pub result : ValidationResult
  pub detail_codes : List String
  pub required : Bool
  pub duration_ms : Option ℕ
  pub repair_hint : Option String

pub record ValidationReport : Type 0 where
  pub outcomes : List ValidationOutcome

-- `a is b`: distinct verdicts have distinct places in the order of severity.
unfoldable pub same_result : ValidationResult → ValidationResult → Bool
unfolding severity_index
same_result a b = severity_index a == severity_index b

-- `ValidationOutcome.passed`
unfoldable pub outcome_passed : ValidationOutcome → Bool
unfolding same_result
outcome_passed o = same_result o.result ValidationResult.pass

-- `min(results, key=VALIDATION_SEVERITY.index)` keeps the first of the most severe.
unfoldable pub most_severe : ValidationResult → List ValidationOutcome → ValidationResult
unfolding severity_index
most_severe worst [] = worst
most_severe worst (o ∷ os) =
    most_severe (if ltb (severity_index o.result) (severity_index worst) then o.result else worst)
      os

unfoldable pub aggregate_of : List ValidationOutcome → ValidationResult
unfolding most_severe
aggregate_of [] = ValidationResult.pass
aggregate_of (o ∷ os) = most_severe o.result os

unfoldable pub aggregate : ValidationReport → ValidationResult
unfolding aggregate_of
aggregate r = aggregate_of (keep (λ o. o.required) r.outcomes)

unfoldable pub passed : ValidationReport → Bool
unfolding aggregate same_result
passed r = same_result (aggregate r) ValidationResult.pass

unfoldable pub first_deciding : ValidationResult → List ValidationOutcome → Option ValidationOutcome
unfolding same_result
first_deciding a [] = none
first_deciding a (o ∷ os) =
    if o.required && same_result o.result a then some o else first_deciding a os

unfoldable pub deciding : ValidationReport → Option ValidationOutcome
unfolding first_deciding aggregate
deciding r = first_deciding (aggregate r) r.outcomes

-- `outcome.repair_hint and not outcome.passed`: an empty hint counts as none.
abbrev pub hint_of : Option String → Bool → List String → List String
hint_of none failed rest = rest
hint_of (some h) failed rest = if failed && not (str_eq h "") then h ∷ rest else rest

unfoldable pub repair_hints : List ValidationOutcome → List String
unfolding outcome_passed
repair_hints [] = []
repair_hints (o ∷ os) = hint_of o.repair_hint (not (outcome_passed o)) (repair_hints os)

-- The registry over the input of a validator: the request, the candidate and the context. A validator that
-- raises has no outcome.
module _ (Input : Type 0) where
  abbrev pub Validator : Type 0
  Validator = Input → Option ValidationOutcome

  abbrev pub ValidatorRegistry : Type 0
  ValidatorRegistry = List (String × Validator)

module _ {Input : Type 0} where
  unfoldable pub register :
      String
      → (Input → Option ValidationOutcome)
      → ValidatorRegistry Input
      → ValidatorRegistry Input
  register k v [] = (k, v) ∷ []
  register k v ((j, w) ∷ reg) = if str_eq j k then (j, v) ∷ reg else (j, w) ∷ register k v reg

  unfoldable pub get_validator :
      String → ValidatorRegistry Input → Option (Input → Option ValidationOutcome)
  get_validator k [] = none
  get_validator k ((j, v) ∷ reg) = if str_eq j k then some v else get_validator k reg

  unfoldable pub names : ValidatorRegistry Input → List String
  names reg = map (λ e. e.0) reg

  -- `required - self.names()`
  unfoldable pub missing : List String → ValidatorRegistry Input → List String
  unfolding names
  missing required reg = keep (λ k. not (str_elem k (names reg))) required

-- The verdict for a planned validator that is not registered.
abbrev pub unavailable : String → ValidationOutcome
unavailable name = record {
  validator = name;
  result = ValidationResult.indeterminate;
  detail_codes = "validator_unavailable" ∷ [];
  required = true;
  duration_ms = none;
  repair_hint = none;
}

-- A required grounding or capability failure ends the run.
unfoldable pub stops : ValidationOutcome → Bool
stops o = o.required && elim o.result [
  | ValidationResult.fail_grounding ↦ true
  | ValidationResult.fail_capability ↦ true
  | _ ↦ false
]

-- The outcomes of the rest after this one, which may end the run or be missing: what raises leaves the run.
abbrev pub before_rest :
    Option ValidationOutcome → Option (List ValidationOutcome) → Option (List ValidationOutcome)
before_rest none rest = none
before_rest (some o) rest = if stops o then some (o ∷ []) else map_some (λ os. o ∷ os) rest

module _ {Input : Type 0} (registry : ValidatorRegistry Input) (input : Input) where
  -- The verdict of one name of the plan.
  abbrev pub judge : Option (Input → Option ValidationOutcome) → String → Option ValidationOutcome
  judge none name = some (unavailable name)
  judge (some validate) name = validate input

  unfoldable pub run_names : List String → Option (List ValidationOutcome)
  unfolding stops get_validator
  run_names [] = some []
  run_names (name ∷ plan) = before_rest (judge (get_validator name registry) name) (run_names plan)

  -- An exception of a validator leaves the run, which has no report then.
  unfoldable pub run_plan : List String → Option ValidationReport
  unfolding run_names
  run_plan plan = map_some (λ os. record { outcomes = os }) (run_names plan)
