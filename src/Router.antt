-- ===== src/Router.antt =====
-- src/gateway/services/router.py: scores, ranking and the route plan. There are no floats here: their type,
-- their operations and the roundings that turn them into numbers are a parameter, and the priors of a
-- model, which are floats, are functions of its snapshot. Money is exact.
pub mod Plan
pub mod Ranking
pub mod Bound
pub mod Cut
use llm_token_balancing_gate.Prelude.{
  ℕ, zero, suc, ◌+◌, ◌-◌, ◌*◌, ◌/◌, ◌%◌, String, Bool, true, false, not, Option, none, some, List,
  [], ◌∷◌, ◌++◌, ltb, leb, str_eq, if◌then◌else◌, keep, take, length, map, str_leb, ℤ, pos, negsuc,
  ◌+ℤ◌, ltb_ℤ, leb_ℤ,
}
use llm_token_balancing_gate.Prelude.Sort.{sort}
use llm_token_balancing_gate.Domain.Requests.{CanonicalRequest, GatewayControls, is_selector}
use llm_token_balancing_gate.Domain.Routing.{
  RationaleCode, RequestFeatures, ModelSnapshot, RegistrySnapshot, Candidate, Eligibility,
  RoutePlan,
}
use llm_token_balancing_gate.Policy.{estimate_cost}

-- Floats: `hundredths n` is the literal n / 100, and the roundings answer whole numbers of their units.
pub record Floats : Type 1 where
  pub F : Type 0
  pub add : F → F → F
  pub sub : F → F → F
  pub mul : F → F → F
  pub div : F → F → F
  pub lt : F → F → Bool
  pub hundredths : ℕ → F
  -- `float(n)` and `float(amount)`
  pub of_nat : ℕ → F
  pub of_money : ℤ → F
  -- `round(x, 9)` in units of 1e-9, and `Decimal(str(round(x, 6)))` in units of 1e-6
  pub billionths : F → ℤ
  pub millionths : F → ℕ
  -- `(Decimal(str(x)) / 100).quantize(...)` in nanodollars
  pub hundredth_of_dollar : F → ℤ
  pub pass_rate_prior : ModelSnapshot → F
  pub failure_rate_prior : ModelSnapshot → F

-- Half-even rounding of n / d.
unfoldable pub half_even : ℕ → ℕ → ℕ
half_even n d =
    let whole = n / d in
    let part = n % d in
    if ltb (2 * part) d then whole else if ltb d (2 * part) then whole + 1 else whole + whole % 2

abbrev pub negate : ℕ → ℤ
negate zero = pos 0
negate (suc n) = negsuc n

-- `(cost * multiplier).quantize(...)`, the multiplier in millionths.
unfoldable pub times_millionths : ℤ → ℕ → ℤ
unfolding half_even
times_millionths (pos n) m = pos (half_even (n * m) 1000000)
times_millionths (negsuc n) m = negate (half_even (suc n * m) 1000000)

module _ (fl : Floats) where
  open fl use {
    F, add, sub, mul, div, lt, hundredths, of_nat, of_money, billionths, millionths,
    hundredth_of_dollar, pass_rate_prior, failure_rate_prior,
  }

  -- The weights of the four components.
  pub record Weights : Type 0 where
    pub cost : F
    pub latency : F
    pub quality_shortfall : F
    pub failure_risk : F

  abbrev pub weights_of : ℕ → ℕ → ℕ → ℕ → Weights
  weights_of c l q f = record {
    cost = hundredths c;
    latency = hundredths l;
    quality_shortfall = hundredths q;
    failure_risk = hundredths f;
  }

  -- DEFAULT_WEIGHTS
  abbrev pub default_weights : Weights
  default_weights = weights_of 40 20 30 10

  -- SELECTOR_WEIGHTS
  unfoldable pub selector_weights : String → Option Weights
  selector_weights model =
      if str_eq model "auto-cheap"
      then some (weights_of 80 5 10 5)
      else if str_eq model "auto-fast"
      then some (weights_of 10 70 15 5)
      else if str_eq model "auto-quality"
      then some (weights_of 5 5 80 10)
      else none

  -- `weights.update(policy_weights)`, read at one component.
  abbrev pub updated : String → F → List (String × F) → F
  updated k w [] = w
  updated k w ((j, v) ∷ ws) = updated k (if str_eq j k then v else w) ws

  abbrev pub policy_balance : Option (List (String × F)) → Weights
  policy_balance none = default_weights
  policy_balance (some ws) = record {
    cost = updated "cost" default_weights.cost ws;
    latency = updated "latency" default_weights.latency ws;
    quality_shortfall = updated "quality_shortfall" default_weights.quality_shortfall ws;
    failure_risk = updated "failure_risk" default_weights.failure_risk ws;
  }

  abbrev pub or_policy : Option Weights → Option (List (String × F)) → Weights
  or_policy (some w) ws = w
  or_policy none ws = policy_balance ws

  unfoldable pub weights_for : String → Option (List (String × F)) → Weights
  unfolding selector_weights
  weights_for requested_model policy_weights =
      or_policy (selector_weights requested_model) policy_weights

  -- `max(min(x, 1.0), 0.0)`
  abbrev pub clamp : F → F
  clamp x =
      let low = if lt (hundredths 100) x then hundredths 100 else x in
      if lt low (hundredths 0) then hundredths 0 else low

  -- The loop over the further attempts: the expected number, and the probability of reaching one.
  unfoldable pub expected_attempts : ℕ → F → F → F → F
  expected_attempts zero expected reach miss = expected
  expected_attempts (suc n) expected reach miss =
      expected_attempts n (add expected reach) (mul reach miss) miss

  unfoldable pub expected_total_cost : ModelSnapshot → ℤ → ℕ → ℤ
  unfolding expected_attempts times_millionths
  expected_total_cost m single max_attempts =
      let miss = sub (hundredths 100) (clamp (pass_rate_prior m)) in
      times_millionths single
        (millionths (expected_attempts (max_attempts - 1) (hundredths 100) miss miss))

  unfoldable pub quota_scarcity_penalty : F → ℤ
  quota_scarcity_penalty scarcity =
      if lt (hundredths 0) scarcity
      then hundredth_of_dollar (if lt (hundredths 100) scarcity then hundredths 100 else scarcity)
      else pos 0

  abbrev pub quality_shortfall_of : ModelSnapshot → F
  quality_shortfall_of m = sub (hundredths 100) (clamp (pass_rate_prior m))

  unfoldable pub effective_cost_for : ModelSnapshot → ℤ → ℕ → F → ℤ
  unfolding expected_total_cost quota_scarcity_penalty
  effective_cost_for m single max_attempts scarcity =
      expected_total_cost m single max_attempts +ℤ quota_scarcity_penalty scarcity

  -- `min(values)` and `max(values)`: the first of the least and of the greatest.
  unfoldable pub least : F → List F → F
  least best [] = best
  least best (x ∷ xs) = least (if lt x best then x else best) xs

  unfoldable pub greatest : F → List F → F
  greatest best [] = best
  greatest best (x ∷ xs) = greatest (if lt best x then x else best) xs

  -- Two floats of which none is less are equal: there is no NaN among the components.
  unfoldable pub scale_from : F → F → F → F
  scale_from low high v = if lt low high then div (sub v low) (sub high low) else hundredths 0

  -- The place of a value in `_min_max(values)`.
  unfoldable pub min_max : List F → F → F
  unfolding least greatest scale_from
  min_max [] v = hundredths 0
  min_max (x ∷ xs) v = scale_from (least x xs) (greatest x xs) v

  -- A model with its costs, as `rank` computes them before it scores.
  pub record Priced : Type 0 where
    pub model : ModelSnapshot
    pub single : ℤ
    pub effective : ℤ

  abbrev pub price_model : RequestFeatures → CanonicalRequest → ℕ → ModelSnapshot → Priced
  price_model f r max_attempts m =
      let single = estimate_cost m r.estimated_input_tokens f.expected_output_tokens in
      record {
        model = m;
        single = single;
        effective = effective_cost_for m single max_attempts (hundredths 0);
      }

  -- An entry of `scored`.
  pub record Row : Type 0 where
    pub score : F
    pub priced : Priced

  unfoldable pub score_model : Weights → List Priced → Priced → Row
  unfolding min_max
  score_model w ps p =
      let cost = min_max (map (λ q. of_money q.effective) ps) (of_money p.effective) in
      let latency =
        min_max (map (λ q. of_nat q.model.latency_prior_ms) ps) (of_nat p.model.latency_prior_ms) in
      let shortfall =
        min_max (map (λ q. quality_shortfall_of q.model) ps) (quality_shortfall_of p.model) in
      let failure =
        min_max (map (λ q. failure_rate_prior q.model) ps) (failure_rate_prior p.model) in
      record {
        score =
            add
              (add (add (add (hundredths 0) (mul w.cost cost)) (mul w.latency latency))
                (mul w.quality_shortfall shortfall))
              (mul w.failure_risk failure);
        priced = p;
      }

  -- `key=lambda row: (round(row[0], 9), row[1], row[2])`, compared entry by entry.
  abbrev pub by_cost : Row → Row → Bool
  by_cost a b =
      if ltb_ℤ a.priced.single b.priced.single
      then true
      else if ltb_ℤ b.priced.single a.priced.single
      then false
      else str_leb a.priced.model.model_id b.priced.model.model_id

  abbrev pub key_leb : Row → Row → Bool
  key_leb a b =
      if ltb_ℤ (billionths a.score) (billionths b.score)
      then true
      else if ltb_ℤ (billionths b.score) (billionths a.score)
      then false
      else by_cost a b

  abbrev pub candidate_of : ℕ → Row → Candidate
  candidate_of rank row = record {
    model_id = row.priced.model.model_id;
    provider = row.priced.model.provider;
    rank = rank;
    estimated_cost = row.priced.single;
    effective_cost = row.priced.effective;
    predicted_latency_ms = row.priced.model.latency_prior_ms;
  }

  unfoldable pub number_from : ℕ → List Row → List Candidate
  number_from n [] = []
  number_from n (row ∷ rows) = candidate_of n row ∷ number_from (n + 1) rows

  unfoldable pub scored : Eligibility → RequestFeatures → CanonicalRequest → Weights → ℕ → List Row
  unfolding score_model effective_cost_for
  scored e f r w max_attempts =
      let ps = map (price_model f r max_attempts) e.eligible in
      sort key_leb (map (score_model w ps) ps)

  unfoldable pub rank :
      Eligibility → RequestFeatures → CanonicalRequest → Weights → ℕ → List Candidate
  unfolding scored number_from
  rank e f r w max_attempts = number_from 1 (scored e f r w max_attempts)
