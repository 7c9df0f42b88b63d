-- ===== src/Router/Cut.antt =====
-- The candidates that `plan` of src/gateway/services/router.py keeps from the ranking.
use llm_token_balancing_gate.Prelude.{
  ℕ, ◌≤◌, ◌<◌, String, Bool, true, false, List, [], ◌∷◌, ◌≡◌, ◌≢◌, refl, sym, ◌∙◌, length, All,
  All-mono, All-keep, All-take, All-at, Elem, Elem-keep, inl, inr, if◌then◌else◌, keep, take,
  str_eq, eq_iff, arith, Bool-cases, subst,
}
use llm_token_balancing_gate.Domain.Requests.{CanonicalRequest, is_selector}
use llm_token_balancing_gate.Domain.Routing.{
  RequestFeatures, ModelSnapshot, RegistrySnapshot, Candidate, Eligibility,
}
use llm_token_balancing_gate.Router.{Floats, weights_for, rank}
use llm_token_balancing_gate.Router.Plan.{
  or_all, explicit_candidates, select_candidates, PolicyInput, fewest, plan,
}
use llm_token_balancing_gate.Router.Ranking.{IsOf, rank-IsOf, rank-length, rank-Elem}

or_all-All {κ} :
    (P : Candidate → Type κ) (cs all : List Candidate)
    → All P cs
    → All P all
    → All P (or_all cs all)
or_all-All P [] all h k = k
or_all-All P (c ∷ cs) all h k = h

module _ (r : CanonicalRequest) where
  abbrev is_requested : Candidate → Bool
  is_requested c = str_eq c.model_id r.requested_model

  if-All {κ} :
      (P : Candidate → Type κ) (t : Bool) (xs ys : List Candidate)
      → All P xs
      → All P ys
      → All P (if t then xs else ys)
  if-All P true xs ys h k = h
  if-All P false xs ys h k = k

  explicit_candidates-All {κ} :
      (P : Candidate → Type κ) (cs : List Candidate) → All P cs → All P (explicit_candidates r cs)
  unfolding explicit_candidates
  explicit_candidates-All P cs h =
      let chosen =
        or_all-All P (keep is_requested cs) cs (All-keep P P is_requested cs (λ c p _. p) h) h in
      if-All P r.controls.allow_fallback (or_all (keep is_requested cs) cs)
        (take 1 (or_all (keep is_requested cs) cs)) chosen
        (All-take P 1 (or_all (keep is_requested cs) cs) chosen)

  -- What holds of each ranked candidate holds of each candidate of the plan.
  pub select_candidates-All {κ} :
      (P : Candidate → Type κ) (cs : List Candidate) → All P cs → All P (select_candidates r cs)
  unfolding select_candidates
  select_candidates-All P cs h =
      if-All P (is_selector r) cs (explicit_candidates r cs) h (explicit_candidates-All P cs h)

  take_one-length : (cs : List Candidate) → length (take 1 cs) ≤ 1
  take_one-length [] = omega arith
  take_one-length (c ∷ cs) = omega arith

  pub select_candidates-one :
      (cs : List Candidate)
      → is_selector r ≡ false
      → r.controls.allow_fallback ≡ false
      → length (select_candidates r cs) ≤ 1
  unfolding select_candidates explicit_candidates
  select_candidates-one cs e f = rw (e, f) (take_one-length (or_all (keep is_requested cs) cs))

  keep_requested :
      (cs : List Candidate) → All (λ c. c.model_id ≡ r.requested_model) (keep is_requested cs)
  keep_requested [] = tt
  keep_requested (c ∷ cs) = elim (Bool-cases (is_requested c)) [
    | inl e ↦ rw e ((eq_iff c.model_id r.requested_model).0 e, keep_requested cs)
    | inr e ↦ rw e (keep_requested cs)
  ]

  keep_none :
      (cs : List Candidate)
      → All (λ c. c.model_id ≢ r.requested_model) cs
      → keep is_requested cs ≡ []
  keep_none [] h = refl
  keep_none (c ∷ cs) h = elim (Bool-cases (is_requested c)) [
    | inl e ↦ absurd (h.0 ((eq_iff c.model_id r.requested_model).0 e))
    | inr e ↦ rw e (keep_none cs h.1)
  ]

  or_all-kept :
      (c : Candidate) (kept cs : List Candidate)
      → Elem c kept
      → All (λ d. d.model_id ≡ r.requested_model) kept
      → All (λ d. d.model_id ≡ r.requested_model) (or_all kept cs) × (0 < length (or_all kept cs))
  or_all-kept c [] cs m h = absurd m
  or_all-kept c (d ∷ kept) cs m h = (h, omega arith)

  take_one-kept :
      (P : Candidate → Type 0) (t : Bool) (cs : List Candidate)
      → All P cs × (0 < length cs)
      → All P (if t then cs else take 1 cs) × (0 < length (if t then cs else take 1 cs))
  take_one-kept P true cs h = h
  take_one-kept P false [] h = h
  take_one-kept P false (c ∷ cs) h = ((h.0.0, tt), omega arith)

  pub select_candidates-kept :
      (c : Candidate) (cs : List Candidate)
      → is_selector r ≡ false
      → Elem c cs
      → c.model_id ≡ r.requested_model
      → All (λ d. d.model_id ≡ r.requested_model) (select_candidates r cs)
        × (0 < length (select_candidates r cs))
  unfolding select_candidates explicit_candidates
  select_candidates-kept c cs e m h = rw e (
      take_one-kept _ r.controls.allow_fallback (or_all (keep is_requested cs) cs) (
        or_all-kept c (keep is_requested cs) cs
          (Elem-keep is_requested c cs m ((eq_iff c.model_id r.requested_model).1 h))
          (keep_requested cs)))

  -- Without a requested one among them, all are taken, or with the fallback disabled the first.
  pub select_candidates-replaced :
      (c : Candidate) (cs : List Candidate)
      → is_selector r ≡ false
      → r.controls.allow_fallback ≡ false
      → All (λ d. d.model_id ≢ r.requested_model) (c ∷ cs)
      → select_candidates r (c ∷ cs) ≡ c ∷ []
  unfolding select_candidates explicit_candidates
  select_candidates-replaced c cs e f h = rw (e, f, keep_none (c ∷ cs) h) refl

fewest_bounds : (a b : ℕ) → (fewest a b ≤ a) × (fewest a b ≤ b)
fewest_bounds a b = ground arith

module _ (fl : Floats) (r : CanonicalRequest) (f : RequestFeatures) (s : RegistrySnapshot)
    (e : Eligibility) (p : PolicyInput fl.F) (vs : List String) (now : ℕ) where
  abbrev ranked : List Candidate
  ranked =
      rank fl e f r (weights_for fl r.requested_model p.policy_weights)
        (fewest p.max_generation_attempts r.controls.max_attempts)

  pub plan-All {κ} :
      (P : Candidate → Type κ) → All P ranked → All P (plan fl r f s e p vs now).candidates
  unfolding plan
  plan-All P h = select_candidates-All r P ranked h

  ranked-IsOf : All (λ c. (m : ModelSnapshot) × Elem m e.eligible × IsOf r f m c) ranked
  ranked-IsOf =
      rank-IsOf fl e f r (weights_for fl r.requested_model p.policy_weights)
        (fewest p.max_generation_attempts r.controls.max_attempts)

  -- A plan allows no more attempts than the policy and than the caller do, and with an explicit model
  -- and the fallback disabled it has at most one candidate.
  pub plan-IsCapped :
      ((plan fl r f s e p vs now).max_generation_attempts ≤ p.max_generation_attempts)
      × ((plan fl r f s e p vs now).max_generation_attempts ≤ r.controls.max_attempts)
      × (is_selector r ≡ false
          → r.controls.allow_fallback ≡ false
          → length (plan fl r f s e p vs now).candidates ≤ 1)
  unfolding plan
  plan-IsCapped =
      let b = fewest_bounds p.max_generation_attempts r.controls.max_attempts in
      (b.0, b.1, select_candidates-one r ranked)

  -- If the request names an eligible model, the plan has candidates, and each of them is that model.
  pub plan-explicit :
      (m : ModelSnapshot)
      → is_selector r ≡ false
      → Elem m e.eligible
      → m.model_id ≡ r.requested_model
      → All (λ c. c.model_id ≡ r.requested_model) (plan fl r f s e p vs now).candidates
        × (0 < length (plan fl r f s e p vs now).candidates)
  unfolding plan
  plan-explicit m sel h q =
      let found =
        rank-Elem fl e f r (weights_for fl r.requested_model p.policy_weights)
          (fewest p.max_generation_attempts r.controls.max_attempts) m h in
      select_candidates-kept r found.0 ranked sel found.1 (found.2 ∙ q)

  -- If the request names a model that is not eligible, with the fallback disabled, and another model is
  -- eligible, then the plan has one candidate, and that is another model than the requested one.
  pub plan-explicit_replaced :
      is_selector r ≡ false
      → r.controls.allow_fallback ≡ false
      → All (λ m. m.model_id ≢ r.requested_model) e.eligible
      → 0 < length e.eligible
      → (c : Candidate) × ((plan fl r f s e p vs now).candidates ≡ c ∷ [])
        × (c.model_id ≢ r.requested_model)
  unfolding plan
  plan-explicit_replaced sel off h some_left =
      first ranked
        (All-mono _ (λ c. c.model_id ≢ r.requested_model) ranked
          (λ c found q.
            All-at (λ m. m.model_id ≢ r.requested_model) found.0 e.eligible found.1 h
              (sym found.2.0 ∙ q))
          ranked-IsOf)
        (subst (λ n. 0 < n)
          (sym (
            rank-length fl e f r (weights_for fl r.requested_model p.policy_weights)
              (fewest p.max_generation_attempts r.controls.max_attempts)))
          some_left)
    where
      first :
          (cs : List Candidate)
          → All (λ c. c.model_id ≢ r.requested_model) cs
          → 0 < length cs
          → (c : Candidate) × (select_candidates r cs ≡ c ∷ []) × (c.model_id ≢ r.requested_model)
      first [] k n = absurd (omega arith)
      first (c ∷ cs) k n = (c, select_candidates-replaced r c cs sel off k, k.0)
