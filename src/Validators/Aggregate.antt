-- ===== src/Validators/Aggregate.antt =====
-- The aggregate of src/gateway/validators/base.py over the required verdicts.
use Prim.Native.Nat.{min}
use llm_token_balancing_gate.Prelude.{
  ℕ, ◌≤◌, ◌≡◌, refl, subst, ◌↔◌, inl, inr, true, List, [], ◌∷◌, arith, ltb, if◌then◌else◌, keep,
  All, All-keep, All-mono, Bool-cases, ==_self,
}
use llm_token_balancing_gate.Domain.Enums.{ValidationResult, severity_index}
use llm_token_balancing_gate.Validators.{
  ValidationOutcome, ValidationReport, same_result, most_severe, aggregate_of, aggregate, passed,
}

abbrev pub AtMost : ValidationResult → ValidationOutcome → Type 0
AtMost worst o = severity_index worst ≤ severity_index o.result

most_severe-le :
    (worst : ValidationResult) (os : List ValidationOutcome)
    → (severity_index (most_severe worst os) ≤ severity_index worst)
      × All (AtMost (most_severe worst os)) os
unfolding most_severe
most_severe-le worst [] = (omega arith, tt)
most_severe-le worst (o ∷ os) = ground (
  arith,
  most_severe-le (if ltb (severity_index o.result) (severity_index worst) then o.result else worst)
      os,
)

pub aggregate_of-AtMost : (os : List ValidationOutcome) → All (AtMost (aggregate_of os)) os
unfolding aggregate_of
aggregate_of-AtMost [] = tt
aggregate_of-AtMost (o ∷ os) = most_severe-le o.result os

-- Two verdicts in one place of the order are one.
pub same_result-eq : (a b : ValidationResult) → same_result a b ≡ true → a ≡ b
unfolding same_result
same_result-eq a b h = ground arith

same_result_self : (a : ValidationResult) → same_result a a ≡ true
unfolding same_result
same_result_self a = ==_self (severity_index a)

pass_is_last :
    (a : ValidationResult)
    → severity_index ValidationResult.pass ≤ severity_index a
    → a ≡ ValidationResult.pass
unfolding severity_index
pass_is_last a h = ground arith

le_pass : (a : ValidationResult) → severity_index a ≤ severity_index ValidationResult.pass
unfolding severity_index
le_pass a = ground arith

-- Every required verdict is a pass.
abbrev pub AllPass : List ValidationOutcome → Type 0
AllPass = All (λ o. o.required ≡ true → o.result ≡ ValidationResult.pass)

most_severe-pass :
    (os : List ValidationOutcome)
    → All (λ o. o.result ≡ ValidationResult.pass) os
    → most_severe ValidationResult.pass os ≡ ValidationResult.pass
unfolding most_severe
most_severe-pass [] h = refl
most_severe-pass (o ∷ os) h = rw h.0 (most_severe-pass os h.1)

aggregate_of-pass :
    (os : List ValidationOutcome)
    → All (λ o. o.result ≡ ValidationResult.pass) os
    → aggregate_of os ≡ ValidationResult.pass
unfolding aggregate_of
aggregate_of-pass [] h = refl
aggregate_of-pass (o ∷ os) h = rw h.0 (most_severe-pass os h.1)

of_kept :
    (os : List ValidationOutcome)
    → All (λ o. o.result ≡ ValidationResult.pass) (keep (λ o. o.required) os)
    → AllPass os
of_kept [] h = tt
of_kept (o ∷ os) h = ground (arith, of_kept os)

-- A report passes exactly if every required verdict in it is a pass; advisory verdicts do not count.
pub passed_iff : (r : ValidationReport) → (passed r ≡ true) ↔ AllPass r.outcomes
unfolding passed aggregate
passed_iff r = (
  λ h. of_kept r.outcomes (
      All-mono _ _ (keep (λ o. o.required) r.outcomes)
        (λ o le. pass_is_last o.result (
          subst (λ a. severity_index a ≤ severity_index o.result)
            (same_result-eq (aggregate r) ValidationResult.pass h) le))
        (aggregate_of-AtMost (keep (λ o. o.required) r.outcomes))),
  λ h.
      rw
        (aggregate_of-pass (keep (λ o. o.required) r.outcomes)
          (All-keep _ _ (λ o. o.required) r.outcomes (λ o p e. p e) h))
        (same_result_self ValidationResult.pass),
)

-- The place of an aggregate is the least place of a required verdict.
index-most_severe :
    (worst : ValidationResult) (os : List ValidationOutcome)
    → severity_index (most_severe worst os)
      ≡ min (severity_index worst) (severity_index (aggregate_of os))
unfolding most_severe aggregate_of
index-most_severe worst [] = let top = le_pass worst in omega arith
index-most_severe worst (o ∷ os) = ground (
  arith,
  index-most_severe o.result os,
  index-most_severe
      (if ltb (severity_index o.result) (severity_index worst) then o.result else worst) os,
)

abbrev pub severity_of : List ValidationOutcome → ℕ
severity_of os = severity_index (aggregate_of (keep (λ o. o.required) os))

pub severity_of-cons :
    (o : ValidationOutcome) (os : List ValidationOutcome)
    → severity_of (o ∷ os)
      ≡ (if o.required then min (severity_index o.result) (severity_of os) else severity_of os)
unfolding aggregate_of
severity_of-cons o os = elim (Bool-cases o.required) [
  | inl e ↦ rw e (index-most_severe o.result (keep (λ x. x.required) os))
  | inr e ↦ rw e refl
]

pub severity_of-le_pass : (os : List ValidationOutcome) → severity_of os ≤ 5
unfolding severity_index
severity_of-le_pass os = le_pass (aggregate_of (keep (λ o. o.required) os))
