-- ===== src/Router/Plan.antt =====
-- src/gateway/services/router.py: the advisory bound and the frozen plan. Times are microseconds.
use llm_token_balancing_gate.Prelude.{
  ℕ, zero, suc, ◌+◌, ◌*◌, String, Bool, Option, none, some, List, [], ◌∷◌, ◌++◌, leb, str_eq,
  if◌then◌else◌, keep, take, map, ℤ, pos, ◌+ℤ◌, leb_ℤ,
}
use llm_token_balancing_gate.Prelude.Sort.{sort}
use llm_token_balancing_gate.Domain.Requests.{CanonicalRequest, is_selector}
use llm_token_balancing_gate.Domain.Routing.{
  RationaleCode, RequestFeatures, RegistrySnapshot, Candidate, Eligibility, RoutePlan,
}
use llm_token_balancing_gate.Router.{Floats, weights_for, rank}

abbrev pub sum_from : ℤ → List ℤ → ℤ
sum_from acc [] = acc
sum_from acc (x ∷ xs) = sum_from (acc +ℤ x) xs

abbrev pub descending : ℤ → ℤ → Bool
descending a b = leb_ℤ b a

-- `costs[:max_attempts] or [costs[0]]`, its last entry repeated up to `max_attempts`.
unfoldable pub padded : ℕ → ℤ → List ℤ → List ℤ
padded zero x xs = x ∷ []
padded (suc zero) x xs = x ∷ []
padded (suc (suc n)) x [] = x ∷ padded (suc n) x []
padded (suc (suc n)) x (y ∷ ys) = x ∷ padded (suc n) y ys

abbrev pub bound_of : ℕ → List ℤ → ℤ
bound_of n [] = pos 0
bound_of n (x ∷ xs) = sum_from (pos 0) (padded n x xs)

unfoldable pub route_upper_bound : List Candidate → ℕ → ℤ
unfolding padded
route_upper_bound cs max_attempts =
    bound_of max_attempts (sort descending (map (λ c. c.estimated_cost) cs))

-- `matching or candidates`
abbrev pub or_all : List Candidate → List Candidate → List Candidate
or_all [] all = all
or_all (c ∷ cs) all = c ∷ cs

-- An explicit model, if it survived the gates; with the fallback disabled, the first candidate only.
unfoldable pub explicit_candidates : CanonicalRequest → List Candidate → List Candidate
explicit_candidates r cs =
    let chosen = or_all (keep (λ c. str_eq c.model_id r.requested_model) cs) cs in
    if r.controls.allow_fallback then chosen else take 1 chosen

unfoldable pub select_candidates : CanonicalRequest → List Candidate → List Candidate
unfolding explicit_candidates is_selector
select_candidates r cs = if is_selector r then cs else explicit_candidates r cs

abbrev pub no_candidates : List Candidate → List RationaleCode
no_candidates [] = RationaleCode.no_eligible_candidates ∷ []
no_candidates (c ∷ cs) = []

unfoldable pub rationale : CanonicalRequest → RequestFeatures → List Candidate → List RationaleCode
unfolding is_selector
rationale r f cs =
    (if is_selector r
      then RationaleCode.selector_applied ∷ []
      else RationaleCode.explicit_model
        ∷ (if r.controls.allow_fallback then [] else RationaleCode.fallback_disabled ∷ []))
    ++ (if f.used_fallback then RationaleCode.classifier_fallback ∷ [] else [])
    ++ no_candidates cs

-- `max_latency_ms or 60_000`
abbrev pub latency_budget : Option ℕ → ℕ
latency_budget none = 60000
latency_budget (some zero) = 60000
latency_budget (some (suc n)) = suc n

-- The arguments of `plan` that come from the routing policy.
pub record PolicyInput (F : Type 0) : Type 0 where
  pub policy_id : String
  pub policy_version : ℕ
  pub policy_weights : Option (List (String × F))
  pub max_generation_attempts : ℕ
  pub max_same_model_repairs : ℕ

-- `min(max_generation_attempts, controls.max_attempts)`
abbrev pub fewest : ℕ → ℕ → ℕ
fewest a b = if leb a b then a else b

module _ (fl : Floats) where
  unfoldable pub plan :
      CanonicalRequest
      → RequestFeatures
      → RegistrySnapshot
      → Eligibility
      → PolicyInput fl.F
      → List String
      → ℕ
      → RoutePlan
  unfolding rank select_candidates rationale route_upper_bound weights_for
  plan r f s e p validation_plan now =
      let max_attempts = fewest p.max_generation_attempts r.controls.max_attempts in
      let ranked = rank fl e f r (weights_for fl r.requested_model p.policy_weights) max_attempts in
      let candidates = select_candidates r ranked in
      record {
        policy_id = p.policy_id;
        policy_version = p.policy_version;
        registry_snapshot_at = s.taken_at;
        candidates = candidates;
        excluded = e.excluded;
        validation_plan = validation_plan;
        max_generation_attempts = max_attempts;
        max_same_model_repairs = p.max_same_model_repairs;
        estimated_route_upper_bound = route_upper_bound candidates max_attempts;
        deadline_at = now + 1000 * latency_budget r.controls.max_latency_ms;
        rationale_codes = rationale r f candidates;
      }
