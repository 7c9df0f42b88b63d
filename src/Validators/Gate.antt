-- ===== src/Validators/Gate.antt =====
-- What it takes for a validation run of src/gateway/validators/base.py to pass.
use llm_token_balancing_gate.Prelude.{
  String, ◌≡◌, refl, ◌↔◌, Bool, true, false, Option, none, some, List, [], ◌∷◌, arith,
  if◌then◌else◌, All,
}
use llm_token_balancing_gate.Domain.Enums.{ValidationResult}
use llm_token_balancing_gate.Validators.{
  ValidationOutcome, ValidationReport, ValidatorRegistry, passed, get_validator, stops, before_rest,
  judge, map_some, run_names, run_plan,
}
use llm_token_balancing_gate.Validators.Aggregate.{AllPass, passed_iff}

abbrev Passes : ValidationOutcome → Type 0
Passes o = o.required ≡ true → o.result ≡ ValidationResult.pass

Passes-goes_on : (o : ValidationOutcome) → Passes o → stops o ≡ false
unfolding stops
Passes-goes_on o h = ground arith

-- A verdict was given, and it passes where it is a required one.
abbrev pub IsAdmitted : Option ValidationOutcome → Type 0
IsAdmitted none = ⊥
IsAdmitted (some o) = o.required ≡ true → o.result ≡ ValidationResult.pass

abbrev AllGiven : Option (List ValidationOutcome) → Type 0
AllGiven none = ⊥
AllGiven (some os) = AllPass os

-- A run that no validator left by an exception, and whose report passes.
abbrev pub run_passes : Option ValidationReport → Bool
run_passes none = false
run_passes (some report) = passed report

before_rest-split :
    (o : ValidationOutcome) (rest : Option (List ValidationOutcome)) (t : Bool)
    → stops o ≡ t
    → AllGiven (if t then some (o ∷ []) else map_some (λ os. o ∷ os) rest)
    → Passes o × AllGiven rest
before_rest-split o rest true e h = cc (Passes-goes_on o h.0)
before_rest-split o none false e h = absurd h
before_rest-split o (some os) false e h = h

before_rest-IsAdmitted :
    (v : Option ValidationOutcome) (rest : Option (List ValidationOutcome))
    → AllGiven (before_rest v rest)
    → IsAdmitted v × AllGiven rest
unfolding stops
before_rest-IsAdmitted none rest h = absurd h
before_rest-IsAdmitted (some o) rest h = before_rest-split o rest (stops o) refl h

IsAdmitted-before_rest :
    (v : Option ValidationOutcome) (rest : Option (List ValidationOutcome))
    → IsAdmitted v
    → AllGiven rest
    → AllGiven (before_rest v rest)
unfolding stops
IsAdmitted-before_rest none rest a h = absurd a
IsAdmitted-before_rest (some o) none a h = absurd h
IsAdmitted-before_rest (some o) (some os) a h = rw (Passes-goes_on o a) (a, h)

module _ {Input : Type 0} (registry : ValidatorRegistry Input) (input : Input) where
  -- The named validator exists, raises nothing, and what it requires of the input holds.
  abbrev pub Admits : Option (Input → Option ValidationOutcome) → Type 0
  Admits none = ⊥
  Admits (some validate) = IsAdmitted (validate input)

  judge-Admits :
      (found : Option (Input → Option ValidationOutcome)) (name : String)
      → IsAdmitted (judge registry input found name)
      → Admits found
  judge-Admits none name h = cc (h refl)
  judge-Admits (some validate) name h = h

  Admits-judge :
      (found : Option (Input → Option ValidationOutcome)) (name : String)
      → Admits found
      → IsAdmitted (judge registry input found name)
  Admits-judge none name h = absurd h
  Admits-judge (some validate) name h = h

  abbrev pub AllAdmit : List String → Type 0
  AllAdmit = All (λ name. Admits (get_validator name registry))

  run_names-AllAdmit :
      (plan : List String) → AllGiven (run_names registry input plan) ↔ AllAdmit plan
  unfolding run_names
  run_names-AllAdmit [] = (λ _. tt, λ _. tt)
  run_names-AllAdmit (name ∷ plan) =
      let ih = run_names-AllAdmit plan in
      let found = get_validator name registry in
      let v = judge registry input found name in
      let rest = run_names registry input plan in
      (
        λ h. let (a, r) = before_rest-IsAdmitted v rest h in (judge-Admits found name a, ih.0 r),
        λ h. IsAdmitted-before_rest v rest (Admits-judge found name h.0) (ih.1 h.1),
      )

given_iff :
    (os : Option (List ValidationOutcome))
    → (run_passes (map_some (λ xs. record { outcomes = xs }) os) ≡ true) ↔ AllGiven os
given_iff none = (λ e. ground arith, λ h. absurd h)
given_iff (some os) = passed_iff (record { outcomes = os })

-- A validation run comes to a report that passes exactly if each planned validator is registered, raises
-- nothing, and its verdict, where it is a required one, is a pass.
pub run_plan_passes_iff :
    {Input : Type 0} (registry : ValidatorRegistry Input) (input : Input) (plan : List String)
    → (run_passes (run_plan registry input plan) ≡ true) ↔ AllAdmit registry input plan
unfolding run_plan
run_plan_passes_iff registry input plan =
    let p = given_iff (run_names registry input plan) in
    let g = run_names-AllAdmit registry input plan in (λ h. g.0 (p.0 h), λ h. p.1 (g.1 h))
