-- ===== src/Domain/Strictest.antt =====
-- `strictest` of src/gateway/domain/enums.py and the three resolvers of src/gateway/domain/requests.py.
use llm_token_balancing_gate.Prelude.{
  ℕ, ◌≤◌, Bool, Option, none, some, List, [], ◌∷◌, ltb, if◌then◌else◌,
}
use llm_token_balancing_gate.Domain.Enums.{
  Quality, Privacy, Risk, quality_index, privacy_index, risk_index,
}
pub mod Laws

module _ {ℓ} {A : Type ℓ} (index : A → ℕ) where
  -- `max(members, key=order.index)` keeps the first of the greatest members.
  unfoldable pub strictest_from : A → List A → A
  strictest_from best [] = best
  strictest_from best (x ∷ xs) = strictest_from (if ltb (index best) (index x) then x else best) xs

  -- `none` is the ValueError on an empty sequence. A typed member is never outside the order.
  unfoldable pub strictest : List A → Option A
  unfolding strictest_from
  strictest [] = none
  strictest (x ∷ xs) = some (strictest_from x xs)

-- `[value for value in values if value is not None]`
abbrev pub present {ℓ} : {A : Type ℓ} → List (Option A) → List A
present [] = []
present (none ∷ xs) = present xs
present (some x ∷ xs) = x ∷ present xs

abbrev pub or_default {ℓ} : {A : Type ℓ} → Option A → A → A
or_default none d = d
or_default (some x) d = x

unfoldable pub resolve_strictest_privacy : List (Option Privacy) → Privacy
unfolding strictest privacy_index
resolve_strictest_privacy values =
    or_default (strictest privacy_index (present values)) Privacy.confidential

unfoldable pub resolve_strictest_quality : List (Option Quality) → Quality
unfolding strictest quality_index
resolve_strictest_quality values =
    or_default (strictest quality_index (present values)) Quality.standard

unfoldable pub resolve_strictest_risk : List (Option Risk) → Option Risk
unfolding strictest risk_index
resolve_strictest_risk values = strictest risk_index (present values)
