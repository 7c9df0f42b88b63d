-- ===== src/Classifier/Floor.antt =====
-- The quality floor and the risk that src/gateway/services/classifier.py derives.
use llm_token_balancing_gate.Prelude.{
  ℕ, ◌≤◌, [], ◌∷◌, Option, none, some, ◌≡◌, refl, ◌⊎◌, inl, inr, String, Bool, true, false, ltb,
  if◌then◌else◌, arith,
}
use llm_token_balancing_gate.Domain.Enums.{Quality, Risk, quality_index, risk_index}
use llm_token_balancing_gate.Domain.Requests.{CanonicalRequest}
use llm_token_balancing_gate.Domain.Strictest.{
  or_default, strictest_from, resolve_strictest_quality, resolve_strictest_risk,
}
use llm_token_balancing_gate.Classifier.{Signal, elevated_risk, classify}

-- The stricter of two is no lower than either, and one of them.
abbrev pub IsStricter : {A : Type 0} → (A → ℕ) → A → A → A → Type 0
IsStricter index a b c = (index a ≤ index c) × (index b ≤ index c) × ((c ≡ a) ⊎ (c ≡ b))

if-either :
    {A : Type 0} (a b : A) (t : Bool) → ((if t then b else a) ≡ a) ⊎ ((if t then b else a) ≡ b)
if-either a b true = inr refl
if-either a b false = inl refl

module _ {A : Type 0} (index : A → ℕ) where
  strictest_from-IsStricter : (a b : A) → IsStricter index a b (strictest_from index a (b ∷ []))
  unfolding strictest_from
  strictest_from-IsStricter a b =
      (ground arith, ground arith, if-either a b (ltb (index a) (index b)))

pub resolve_two-IsStricter :
    (a b : Quality)
    → IsStricter quality_index a b (resolve_strictest_quality (some a ∷ some b ∷ []))
unfolding resolve_strictest_quality
resolve_two-IsStricter a b = strictest_from-IsStricter quality_index a b

-- What a caller declares raises the level, and never lowers it.
abbrev pub IsRaised : Risk → Option Risk → Risk → Type 0
IsRaised inferred none risk = risk ≡ inferred
IsRaised inferred (some declared) risk = IsStricter risk_index inferred declared risk

resolve_risk-IsRaised :
    (inferred : Risk) (declared : Option Risk)
    → IsRaised inferred declared
        (or_default (resolve_strictest_risk (some inferred ∷ declared ∷ [])) inferred)
unfolding resolve_strictest_risk
resolve_risk-IsRaised inferred none = refl
resolve_risk-IsRaised inferred (some declared) =
    strictest_from-IsStricter risk_index inferred declared

-- The risk of a classified request is that of its class; where the caller declares one too, it is one of
-- the two, and no lower than either.
pub classify-IsRaised :
    (occurs : Signal → String → Bool) (r : CanonicalRequest)
    → IsRaised
        (elevated_risk (classify occurs r).task_class)
        r.controls.risk
        (classify occurs r).risk
unfolding classify
classify-IsRaised occurs r =
    resolve_risk-IsRaised (elevated_risk (classify occurs r).task_class) r.controls.risk
