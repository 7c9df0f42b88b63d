-- ===== src/Validators/Stop.antt =====
-- Stopping at the first required grounding or capability failure, against a run of the whole plan.
use llm_token_balancing_gate.Prelude.{
  ℕ, ◌≤◌, String, ◌≡◌, refl, ◌∙◌, ◌⊎◌, inl, inr, true, Option, none, some, List, [], ◌∷◌, arith,
  Bool-cases, subst, some_eq,
}
use llm_token_balancing_gate.Domain.Enums.{ValidationResult, severity_index}
use llm_token_balancing_gate.Validators.{
  ValidationOutcome, ValidationReport, ValidatorRegistry, aggregate, aggregate_of, get_validator,
  stops, before_rest, judge, map_some, run_names, run_plan,
}
use llm_token_balancing_gate.Validators.Aggregate.{
  severity_of, severity_of-cons, severity_of-le_pass,
}

abbrev pub before_all :
    Option ValidationOutcome → Option (List ValidationOutcome) → Option (List ValidationOutcome)
before_all none rest = none
before_all (some o) rest = map_some (λ os. o ∷ os) rest

module _ {Input : Type 0} (registry : ValidatorRegistry Input) (input : Input) where
  -- Every planned validator is run, and none may raise.
  unfoldable pub run_all : List String → Option (List ValidationOutcome)
  run_all [] = some []
  run_all (name ∷ plan) =
      before_all (judge registry input (get_validator name registry) name) (run_all plan)

-- The two severities agree, or the stopped run ended in a capability failure where the whole run has
-- a grounding failure.
abbrev Agree : ℕ → ℕ → Type 0
Agree stopped full = (stopped ≡ full) ⊎ ((stopped ≡ 1) × (full ≡ 0))

stops-severity :
    (o : ValidationOutcome) → stops o ≡ true → (o.required ≡ true) × (severity_index o.result ≤ 1)
unfolding stops severity_index
stops-severity o h = ground arith

Agree-cons :
    (o : ValidationOutcome) (stopped full : List ValidationOutcome)
    → Agree (severity_of stopped) (severity_of full)
    → Agree (severity_of (o ∷ stopped)) (severity_of (o ∷ full))
Agree-cons o stopped full h = ground (arith, severity_of-cons o stopped, severity_of-cons o full)

severity_of_nil : severity_of [] ≡ 5
unfolding severity_index aggregate_of
severity_of_nil = refl

Agree-stop :
    (o : ValidationOutcome) (full : List ValidationOutcome)
    → stops o ≡ true
    → Agree (severity_of (o ∷ [])) (severity_of (o ∷ full))
Agree-stop o full h = ground (
  arith,
  severity_of-cons o [],
  severity_of-cons o full,
  stops-severity o h,
  severity_of-le_pass full,
  severity_of_nil,
)

-- The stopped run has outcomes too, and they agree with those of the whole plan.
abbrev Follows : Option (List ValidationOutcome) → List ValidationOutcome → Type 0
Follows none full = ⊥
Follows (some stopped) full = Agree (severity_of stopped) (severity_of full)

Follows-one :
    (o : ValidationOutcome) (stopped : Option (List ValidationOutcome))
    (full : List ValidationOutcome)
    → Follows stopped full
    → Follows (before_rest (some o) stopped) (o ∷ full)
Follows-one o none full h = absurd h
Follows-one o (some stopped) full h = elim (Bool-cases (stops o)) [
  | inl e ↦ rw e (Agree-stop o full e)
  | inr e ↦ rw e (Agree-cons o stopped full h)
]

Follows-before :
    (v : Option ValidationOutcome) (stopped all : Option (List ValidationOutcome))
    (full : List ValidationOutcome)
    → ((rest : List ValidationOutcome) → all ≡ some rest → Follows stopped rest)
    → before_all v all ≡ some full
    → Follows (before_rest v stopped) full
Follows-before none stopped all full ih e = absurd (ground arith)
Follows-before (some o) stopped none full ih e = absurd (ground arith)
Follows-before (some o) stopped (some rest) full ih e =
    subst (Follows (before_rest (some o) stopped)) (some_eq e)
      (Follows-one o stopped rest (ih rest refl))

module _ {Input : Type 0} (registry : ValidatorRegistry Input) (input : Input) where
  Follows-names :
      (plan : List String) (full : List ValidationOutcome)
      → run_all registry input plan ≡ some full
      → Follows (run_names registry input plan) full
  unfolding run_names run_all
  Follows-names [] full e = subst (Follows (some [])) (some_eq e) (inl refl)
  Follows-names (name ∷ plan) full e =
      Follows-before (judge registry input (get_validator name registry) name)
        (run_names registry input plan) (run_all registry input plan) full
        (λ rest h. Follows-names plan rest h) e

index_injective : (a b : ValidationResult) → severity_index a ≡ severity_index b → a ≡ b
unfolding severity_index
index_injective a b h = ground arith

at_one : 1 ≡ severity_index ValidationResult.fail_capability
unfolding severity_index
at_one = refl

at_zero : 0 ≡ severity_index ValidationResult.fail_grounding
unfolding severity_index
at_zero = refl

-- The report of the stopped run against that of the whole plan.
abbrev pub Agrees : Option ValidationReport → ValidationReport → Type 0
Agrees none full = ⊥
Agrees (some report) full =
    (aggregate report ≡ aggregate full)
    ⊎ ((aggregate report ≡ ValidationResult.fail_capability)
        × (aggregate full ≡ ValidationResult.fail_grounding))

conclude :
    (stopped full : List ValidationOutcome)
    → Agree (severity_of stopped) (severity_of full)
    → Agrees (some (record { outcomes = stopped })) (record { outcomes = full })
unfolding aggregate
conclude stopped full (inl e) = inl (index_injective _ _ e)
conclude stopped full (inr (c, g)) =
    inr (index_injective _ _ (c ∙ at_one), index_injective _ _ (g ∙ at_zero))

reported :
    (stopped : Option (List ValidationOutcome)) (full : List ValidationOutcome)
    → Follows stopped full
    → Agrees (map_some (λ xs. record { outcomes = xs }) stopped) (record { outcomes = full })
reported none full h = absurd h
reported (some stopped) full h = conclude stopped full h

-- Where no validator of the plan raises, ending the run at the first required grounding or capability
-- failure comes to a report with the aggregate of the whole plan, except that a capability failure may
-- stand where the whole plan would have reached a grounding failure. So a run passes, or is repairable,
-- exactly if the whole plan is.
pub run_plan-agrees :
    {Input : Type 0} (registry : ValidatorRegistry Input) (input : Input) (plan : List String)
    (full : List ValidationOutcome)
    → run_all registry input plan ≡ some full
    → Agrees (run_plan registry input plan) (record { outcomes = full })
unfolding run_plan
run_plan-agrees registry input plan full e =
    reported (run_names registry input plan) full (Follows-names registry input plan full e)
