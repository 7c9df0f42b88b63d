-- ===== src/Policy/Gates.antt =====
-- The gates of src/gateway/services/policy.py against the conditions that they stand for.
use llm_token_balancing_gate.Prelude.{
  ℕ, ◌+◌, ◌≤◌, String, Bool, true, false, Option, none, some, List, [], ◌∷◌, ltb_false→le, leb→le,
  le→ltb_false, Bool-cases, ◌≡◌, refl, ◌↔◌, inl, inr, if◌then◌else◌, All, Elem, str_elem, ℤ, Within,
  arith,
}
use llm_token_balancing_gate.Domain.Enums.{quality_index, tier_eligible}
use llm_token_balancing_gate.Domain.Requests.{provider_allowed}
use llm_token_balancing_gate.Domain.Routing.{ExclusionReason, ModelSnapshot}
use llm_token_balancing_gate.Policy.{
  context_safety_margin, quality_satisfies, has_capability, GateInput, over, too_slow, cost_of,
  reason_if, early_reasons, late_reasons, reasons, denied, not_allowed,
}
use llm_token_balancing_gate.Policy.Membership.{
  not-false, str_elem→Elem, Elem→str-Elem, has_capability→Elem, Elem→has_capability,
  has_endpoint→Elem, Elem→has_endpoint, any_missing→All, All→any_missing,
}

-- An absent limit admits any latency.
abbrev pub InTime : Option ℕ → ℕ → Type 0
InTime none latency = Unit
InTime (some limit) latency = latency ≤ limit

-- What a model must be to serve the request.
pub record Serves (g : GateInput) (m : ModelSnapshot) : Type 0 where
  pub private_enough : tier_eligible g.features.privacy m.data_handling_tier ≡ true
  pub capable : All (λ c. Elem c m.capabilities) g.features.required_capabilities
  pub endpoint : Elem g.request.endpoint m.supported_endpoints
  pub fits :
      g.request.estimated_input_tokens + g.features.expected_output_tokens + context_safety_margin
      ≤ m.context_window_tokens
  pub output : g.features.expected_output_tokens ≤ m.max_output_tokens
  pub good_enough : quality_index g.quality_floor ≤ quality_index m.quality_tier
  pub checkable : All (λ v. Elem v g.available_validators) g.required_validators
  pub allowed : provider_allowed g.request.controls m.provider ≡ true
  pub healthy : Elem m.model_id g.unhealthy_models → ⊥
  pub in_quota : Elem m.model_id g.exhausted_models → ⊥
  pub affordable : Within g.request.controls.max_cost (cost_of g m)
  pub in_budget : Within g.remaining_budget (cost_of g m)
  pub in_time : InTime g.request.controls.max_latency_ms m.latency_prior_ms

reason_if-none :
    (t : Bool) (r : ExclusionReason) (rest : List ExclusionReason)
    → reason_if t r rest ≡ []
    → (t ≡ false) × (rest ≡ [])
reason_if-none true r rest e = ground arith
reason_if-none false r rest e = (refl, e)

reason_if-skip :
    {t : Bool} (r : ExclusionReason) {rest : List ExclusionReason}
    → t ≡ false
    → rest ≡ []
    → reason_if t r rest ≡ []
reason_if-skip r e h = rw (e, h) refl

over→Within : (limit : Option ℤ) (cost : ℤ) → (over limit cost ≡ false) ↔ Within limit cost
over→Within none cost = ((λ _. tt), λ _. refl)
over→Within (some l) cost = ((λ e. ground arith), λ h. ground arith)

too_slow→InTime : (limit : Option ℕ) (ms : ℕ) → (too_slow limit ms ≡ false) ↔ InTime limit ms
too_slow→InTime none ms = ((λ _. tt), λ _. refl)
too_slow→InTime (some l) ms = ((λ e. ground arith), λ h. ground arith)

not_listed : (k : String) (xs : List String) → (str_elem k xs ≡ false) ↔ (Elem k xs → ⊥)
not_listed k xs = (
  (λ e h. let e' : str_elem k xs ≡ true = Elem→str-Elem k xs h in ground arith),
  λ f. elim (Bool-cases (str_elem k xs)) [
    | inl e ↦ elim (f (str_elem→Elem k xs e)) [ ]
    | inr e ↦ e
  ],
)

-- Both branches of the gate on providers against `provider_allowed`.
provider_gate :
    (g : GateInput) (m : ModelSnapshot) (rest : List ExclusionReason)
    → (if denied g m
        then ExclusionReason.provider_denied ∷ rest
        else reason_if (not_allowed g m) ExclusionReason.provider_not_allowed rest)
      ≡ []
    → (provider_allowed g.request.controls m.provider ≡ true) × (rest ≡ [])
unfolding provider_allowed
provider_gate g m rest e = (ground arith, ground arith)

provider_gate-skip :
    (g : GateInput) (m : ModelSnapshot) (rest : List ExclusionReason)
    → provider_allowed g.request.controls m.provider ≡ true
    → rest ≡ []
    → (if denied g m
        then ExclusionReason.provider_denied ∷ rest
        else reason_if (not_allowed g m) ExclusionReason.provider_not_allowed rest)
      ≡ []
unfolding provider_allowed
provider_gate-skip g m rest e h = ground arith

late_reasons-Serves :
    (g : GateInput) (m : ModelSnapshot)
    → late_reasons g m ≡ []
    → (Elem m.model_id g.unhealthy_models → ⊥)
      × (Elem m.model_id g.exhausted_models → ⊥)
      × Within g.request.controls.max_cost (cost_of g m)
      × Within g.remaining_budget (cost_of g m)
      × InTime g.request.controls.max_latency_ms m.latency_prior_ms
unfolding late_reasons
late_reasons-Serves g m e =
    let h₁ = reason_if-none _ _ _ e in
    let h₂ = reason_if-none _ _ _ h₁.1 in
    let h₃ = reason_if-none _ _ _ h₂.1 in
    let h₄ = reason_if-none _ _ _ h₃.1 in
    let h₅ = reason_if-none _ _ _ h₄.1 in
    (
      (not_listed m.model_id g.unhealthy_models).0 h₁.0,
      (not_listed m.model_id g.exhausted_models).0 h₂.0,
      (over→Within g.request.controls.max_cost (cost_of g m)).0 h₃.0,
      (over→Within g.remaining_budget (cost_of g m)).0 h₄.0,
      (too_slow→InTime g.request.controls.max_latency_ms m.latency_prior_ms).0 h₅.0,
    )

Serves-late_reasons : (g : GateInput) (m : ModelSnapshot) → Serves g m → late_reasons g m ≡ []
unfolding late_reasons
Serves-late_reasons g m h =
    reason_if-skip _ ((not_listed m.model_id g.unhealthy_models).1 h.healthy) (
      reason_if-skip _ ((not_listed m.model_id g.exhausted_models).1 h.in_quota) (
        reason_if-skip _ ((over→Within g.request.controls.max_cost (cost_of g m)).1 h.affordable) (
          reason_if-skip _ ((over→Within g.remaining_budget (cost_of g m)).1 h.in_budget) (
            reason_if-skip _
              ((too_slow→InTime g.request.controls.max_latency_ms m.latency_prior_ms).1 h.in_time)
              refl))))

-- The pipeline gives no reason against a model exactly when the model serves the request: it is private
-- enough, has every capability and the endpoint, fits the context with the margin of 256 tokens and the
-- output, is good enough, every required validator is there, its provider is allowed by the controls,
-- it is neither unhealthy nor out of quota, and its estimated cost and its latency are within limits.
pub reasons_iff : (g : GateInput) (m : ModelSnapshot) → (reasons g m ≡ []) ↔ Serves g m
unfolding reasons early_reasons quality_satisfies
reasons_iff g m = (
  λ e.
      let h₁ = reason_if-none _ _ _ e in
      let h₂ = reason_if-none _ _ _ h₁.1 in
      let h₃ = reason_if-none _ _ _ h₂.1 in
      let h₄ = reason_if-none _ _ _ h₃.1 in
      let h₅ = reason_if-none _ _ _ h₄.1 in
      let h₆ = reason_if-none _ _ _ h₅.1 in
      let h₇ = reason_if-none _ _ _ h₆.1 in
      let h₈ = provider_gate g m (late_reasons g m) h₇.1 in
      let (healthy, in_quota, affordable, in_budget, in_time) = late_reasons-Serves g m h₈.1 in
      record {
        private_enough = not-false _ h₁.0;
        capable =
            any_missing→All has_capability m.capabilities
              (λ c. has_capability→Elem c m.capabilities) g.features.required_capabilities h₂.0;
        endpoint = has_endpoint→Elem g.request.endpoint m.supported_endpoints (not-false _ h₃.0);
        fits = ltb_false→le _ _ h₄.0;
        output = ltb_false→le _ _ h₅.0;
        good_enough = leb→le _ _ (not-false _ h₆.0);
        checkable =
            any_missing→All str_elem g.available_validators
              (λ v. str_elem→Elem v g.available_validators) g.required_validators h₇.0;
        allowed = h₈.0;
        healthy = healthy;
        in_quota = in_quota;
        affordable = affordable;
        in_budget = in_budget;
        in_time = in_time;
      },
  λ h. reason_if-skip _ (rw h.private_enough refl) (
      reason_if-skip _
        (All→any_missing has_capability m.capabilities (λ c. Elem→has_capability c m.capabilities)
          g.features.required_capabilities h.capable)
        (reason_if-skip _
          (rw (Elem→has_endpoint g.request.endpoint m.supported_endpoints h.endpoint) refl)
          (reason_if-skip _ (le→ltb_false _ _ h.fits) (
            reason_if-skip _ (le→ltb_false _ _ h.output) (
              reason_if-skip _ (let e = h.good_enough in ground arith) (
                reason_if-skip _
                  (All→any_missing str_elem g.available_validators
                    (λ v. Elem→str-Elem v g.available_validators) g.required_validators h.checkable)
                  (provider_gate-skip g m (late_reasons g m) h.allowed
                    (Serves-late_reasons g m h)))))))),
)
