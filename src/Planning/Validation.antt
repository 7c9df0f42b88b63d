-- ===== src/Planning/Validation.antt =====
-- `_validation_plan_for` of src/gateway/services/planning.py against the validators that a mode asks for.
use mathlib.Core.Logic.Iff
use llm_token_balancing_gate.Prelude.{
  String, Bool, true, false, ◌&&◌, ◌||◌, not, List, [], ◌∷◌, ◌++◌, ◌≡◌, ◌≢◌, refl, ◌↔◌, ◌⊎◌, inl,
  inr, Elem, Elem-keep, keep, str_elem, str_eq, eq_iff, if◌then◌else◌, sym, arith, subst,
}
use llm_token_balancing_gate.Domain.Requests.{
  ValidationMode, CanonicalRequest, requires_schema_validation,
}
use llm_token_balancing_gate.Domain.Routing.{RequestFeatures}
use llm_token_balancing_gate.Policy.Membership.{str_elem→Elem}
use llm_token_balancing_gate.Planning.{
  is_schema, is_judge, with_schema, with_review, by_mode, is_serious, may_review,
  validation_plan_for,
}

-- A validator of the policy, or the schema check where the caller's schema requires it.
abbrev pub IsBase : Bool → List String → String → Type 0
IsBase required policy v = Elem v policy ⊎ ((required ≡ true) × (v ≡ "schema_check"))

-- What each mode makes of these, for a request whose risk is serious or not.
abbrev pub IsWanted : ValidationMode → Bool → Bool → List String → String → Type 0
IsWanted ValidationMode.none required serious policy v =
    IsBase required policy v × (v ≡ "schema_check")
IsWanted ValidationMode.deterministic required serious policy v =
    IsBase required policy v × ((v ≢ "independent_review") × (v ≢ "rubric_judge"))
IsWanted ValidationMode.independent required serious policy v =
    IsBase required policy v ⊎ (v ≡ "independent_review")
IsWanted ValidationMode.auto required serious policy v =
    IsBase required policy v ⊎ ((serious ≡ true) × (v ≡ "independent_review"))

Elem-kept :
    (p : String → Bool) (v : String) (xs : List String)
    → Elem v (keep p xs)
    → Elem v xs × (p v ≡ true)
Elem-kept p v [] h = absurd h
Elem-kept p v (x ∷ xs) h = by_test (p x) refl (Elem-kept p v xs) h
  where
    by_test :
        (t : Bool)
        → p x ≡ t
        → (Elem v (keep p xs) → Elem v xs × (p v ≡ true))
        → Elem v (if t then x ∷ keep p xs else keep p xs)
        → Elem v (x ∷ xs) × (p v ≡ true)
    by_test true e ih (inl q) = (inl q, subst (λ y. p y ≡ true) (sym q) e)
    by_test true e ih (inr k) = let r = ih k in (inr r.0, r.1)
    by_test false e ih k = let r = ih k in (inr r.0, r.1)

Elem-snoc : (v w : String) (xs : List String) → Elem v (xs ++ w ∷ []) ↔ (Elem v xs ⊎ (v ≡ w))
Elem-snoc v w xs = (to xs, from xs)
  where
    to : (ys : List String) → Elem v (ys ++ w ∷ []) → Elem v ys ⊎ (v ≡ w)
    to [] (inl q) = inr q
    to [] (inr h) = absurd h
    to (y ∷ ys) (inl q) = inl (inl q)
    to (y ∷ ys) (inr h) = elim (to ys h) [ inl k ↦ inl (inr k) | inr k ↦ inr k ]

    from : (ys : List String) → Elem v ys ⊎ (v ≡ w) → Elem v (ys ++ w ∷ [])
    from [] (inl h) = absurd h
    from [] (inr q) = inl q
    from (y ∷ ys) (inl (inl q)) = inl q
    from (y ∷ ys) (inl (inr h)) = inr (from ys (inl h))
    from (y ∷ ys) (inr q) = inr (from ys (inr q))

with_review_iff :
    (v : String) (xs : List String)
    → Elem v (with_review xs) ↔ (Elem v xs ⊎ (v ≡ "independent_review"))
with_review_iff v xs = by_test (str_elem "independent_review" xs) refl
  where
    by_test :
        (t : Bool)
        → str_elem "independent_review" xs ≡ t
        → Elem v (if t then xs else xs ++ "independent_review" ∷ [])
          ↔ (Elem v xs ⊎ (v ≡ "independent_review"))
    by_test true e = (
      inl,
      λ h. elim h [
        | inl k ↦ k
        | inr q ↦ subst (λ w. Elem w xs) (sym q) (str_elem→Elem "independent_review" xs e)
      ],
    )
    by_test false e = Elem-snoc v "independent_review" xs

with_schema_iff :
    (required : Bool) (policy : List String) (v : String)
    → Elem v (with_schema required policy) ↔ IsBase required policy v
with_schema_iff required policy v = by_test required (str_elem "schema_check" policy) refl
  where
    by_test :
        (q t : Bool)
        → str_elem "schema_check" policy ≡ t
        → Elem v (if q && not t then "schema_check" ∷ policy else policy) ↔ IsBase q policy v
    by_test true true e = (
      inl,
      λ h. elim h [
        | inl k ↦ k
        | inr k ↦ subst (λ w. Elem w policy) (sym k.1) (str_elem→Elem "schema_check" policy e)
      ],
    )
    by_test true false e = (
      λ h. elim h [ inl k ↦ inr (refl, k) | inr k ↦ inl k ],
      λ h. elim h [ inl k ↦ inr k | inr k ↦ inl k.1 ],
    )
    by_test false t e = (inl, λ h. elim h [ inl k ↦ k | inr k ↦ cc (k.0) ])

not_judge_iff :
    (v : String) → (not (is_judge v) ≡ true) ↔ ((v ≢ "independent_review") × (v ≢ "rubric_judge"))
not_judge_iff v = (
  λ e. (
    λ q. ground (arith, (eq_iff v "independent_review").1 q),
    λ q. ground (arith, (eq_iff v "rubric_judge").1 q),
  ),
  λ h. by_tests (str_eq v "independent_review") (str_eq v "rubric_judge") refl refl h,
)
  where
    by_tests :
        (a b : Bool)
        → str_eq v "independent_review" ≡ a
        → str_eq v "rubric_judge" ≡ b
        → (v ≢ "independent_review") × (v ≢ "rubric_judge")
        → not (a || b) ≡ true
    by_tests true b e f h = absurd (h.0 ((eq_iff v "independent_review").0 e))
    by_tests false true e f h = absurd (h.1 ((eq_iff v "rubric_judge").0 f))
    by_tests false false e f h = refl

module _ (required : Bool) (policy : List String) (v : String) where
  abbrev base : List String
  base = with_schema required policy

  kept_iff :
      (p : String → Bool) (P : Type 0)
      → (p v ≡ true) ↔ P
      → Elem v (keep p base) ↔ (IsBase required policy v × P)
  kept_iff p P h = (
    λ k. let r = Elem-kept p v base k in ((with_schema_iff required policy v).0 r.0, h.0 r.1),
    λ k. Elem-keep p v base ((with_schema_iff required policy v).1 k.0) (h.1 k.1),
  )

  reviewed_iff :
      (planned : List String)
      → Elem v planned ↔ (IsBase required policy v ⊎ (v ≡ "independent_review"))
      → Elem v (with_review planned) ↔ (IsBase required policy v ⊎ (v ≡ "independent_review"))
  reviewed_iff planned h =
      Iff.trans (with_review_iff v planned)
        (λ k. elim k [ inl m ↦ h.0 m | inr q ↦ inr q ], λ k. inl (h.1 k))

  review_iff : Elem v (with_review base) ↔ (IsBase required policy v ⊎ (v ≡ "independent_review"))
  review_iff = Iff.trans (with_review_iff v base) (
    λ k. elim k [ inl m ↦ inl ((with_schema_iff required policy v).0 m) | inr q ↦ inr q ],
    λ k. elim k [ inl b ↦ inl ((with_schema_iff required policy v).1 b) | inr q ↦ inr q ],
  )

  abbrev planned_by : ValidationMode → Bool → List String
  planned_by mode serious =
      if serious && may_review mode then with_review (by_mode mode base) else by_mode mode base

  planned_iff :
      (mode : ValidationMode) (serious : Bool)
      → Elem v (planned_by mode serious) ↔ IsWanted mode required serious policy v
  unfolding by_mode
  planned_iff ValidationMode.none true = kept_iff is_schema _ (eq_iff v "schema_check")
  planned_iff ValidationMode.none false = kept_iff is_schema _ (eq_iff v "schema_check")
  planned_iff ValidationMode.deterministic true =
      kept_iff (λ w. not (is_judge w)) _ (not_judge_iff v)
  planned_iff ValidationMode.deterministic false =
      kept_iff (λ w. not (is_judge w)) _ (not_judge_iff v)
  planned_iff ValidationMode.independent true = reviewed_iff (with_review base) review_iff
  planned_iff ValidationMode.independent false = review_iff
  planned_iff ValidationMode.auto true = Iff.trans review_iff (
    λ k. elim k [ inl b ↦ inl b | inr q ↦ inr (refl, q) ],
    λ k. elim k [ inl b ↦ inl b | inr q ↦ inr q.1 ],
  )
  planned_iff ValidationMode.auto false =
      Iff.trans (with_schema_iff required policy v)
        (inl, λ k. elim k [ inl b ↦ b | inr q ↦ cc (q.0) ])

-- The plan has exactly these validators: those of the policy, and the schema check where the caller
-- gave a schema; of them only the schema check if validation is off, at a high or critical risk too, and
-- all but the two judges if it is deterministic; and the independent review if it was asked for, or if
-- the mode is automatic and the risk is high or critical.
pub validation_plan_for_iff :
    (r : CanonicalRequest) (f : RequestFeatures) (policy : List String) (v : String)
    → Elem v (validation_plan_for r f policy)
      ↔ IsWanted r.controls.validation
          (requires_schema_validation r.output_format)
          (is_serious f.risk)
          policy
          v
unfolding validation_plan_for
validation_plan_for_iff r f policy v =
    planned_iff (requires_schema_validation r.output_format) policy v r.controls.validation
      (is_serious f.risk)
