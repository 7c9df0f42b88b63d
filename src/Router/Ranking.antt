-- ===== src/Router/Ranking.antt =====
-- The ranking of src/gateway/services/router.py against the eligible models.
use mathlib.Core.List.{Perm}
use mathlib.Core.List.Perm
use llm_token_balancing_gate.Prelude.{
  ℕ, zero, suc, ◌+◌, String, Bool, true, false, List, [], ◌∷◌, map, ◌≡◌, refl, ap, ◌∙◌, sym, length,
  All, All-mono, All-Elem, Elem, inl, inr, All-map, length-map, Elem-map, if◌then◌else◌, ℤ, ltb_ℤ,
  str_leb, str_leb_total, str_leb_trans, arith, subst,
}
use llm_token_balancing_gate.Prelude.Sort.{
  IsOrder, IsSorted, sort, sort-IsSorted, sort-perm, All-sort, length-sort, Elem-sort,
}
use llm_token_balancing_gate.Domain.Requests.{CanonicalRequest}
use llm_token_balancing_gate.Domain.Routing.{RequestFeatures, ModelSnapshot, Candidate, Eligibility}
use llm_token_balancing_gate.Policy.{estimate_cost}
use llm_token_balancing_gate.Router.{
  Floats, Weights, Priced, Row, price_model, score_model, by_cost, key_leb, candidate_of,
  number_from, scored, rank,
}

-- n numbers from a start on
abbrev pub count_from : ℕ → ℕ → List ℕ
count_from start zero = []
count_from start (suc n) = start ∷ count_from (start + 1) n

-- A test on two integers, and then another: what a comparison of tuples does at each entry.
module _ {ℓ} {A : Type ℓ} (key : A → ℤ) (next : A → A → Bool) where
  abbrev lexicographic : A → A → Bool
  lexicographic a b =
      if ltb_ℤ (key a) (key b) then true else if ltb_ℤ (key b) (key a) then false else next a b

  lexicographic-IsOrder : IsOrder next → IsOrder lexicographic
  lexicographic-IsOrder o = record {
    total = λ a b e. ground (arith, o.total a b);
    trans = λ a b c e f. ground (arith, o.trans a b c);
  }

-- The candidate stands for the model, at its estimated cost for the request.
abbrev pub IsOf : CanonicalRequest → RequestFeatures → ModelSnapshot → Candidate → Type 0
IsOf r f m c =
    (c.model_id ≡ m.model_id)
    × (c.provider ≡ m.provider)
    × (c.estimated_cost ≡ estimate_cost m r.estimated_input_tokens f.expected_output_tokens)

module _ (fl : Floats) where
  key_leb-IsOrder : IsOrder (key_leb fl)
  key_leb-IsOrder =
      lexicographic-IsOrder (λ (a : Row fl). fl.billionths a.score) (by_cost fl)
        (lexicographic-IsOrder (λ (a : Row fl). a.priced.single)
          (λ a b. str_leb a.priced.model.model_id b.priced.model.model_id)
          (record {
            total = λ a b. str_leb_total a.priced.model.model_id b.priced.model.model_id;
            trans = λ a b c.
                str_leb_trans a.priced.model.model_id b.priced.model.model_id
                  c.priced.model.model_id;
          }))

  abbrev pub row_id : Row fl → String
  row_id row = row.priced.model.model_id

  number_from-ids :
      (n : ℕ) (rows : List (Row fl))
      → map (λ c. c.model_id) (number_from fl n rows) ≡ map row_id rows
  unfolding number_from
  number_from-ids n [] = refl
  number_from-ids n (row ∷ rows) = ap (◌∷◌ (row_id row)) (number_from-ids (n + 1) rows)

  number_from-ranks :
      (n : ℕ) (rows : List (Row fl))
      → map (λ c. c.rank) (number_from fl n rows) ≡ count_from n (length rows)
  unfolding number_from
  number_from-ranks n [] = refl
  number_from-ranks n (row ∷ rows) = ap (◌∷◌ n) (number_from-ranks (n + 1) rows)

  number_from-All {κ} :
      (P : Candidate → Type κ) (n : ℕ) (rows : List (Row fl))
      → All (λ row. (k : ℕ) → P (candidate_of fl k row)) rows
      → All P (number_from fl n rows)
  unfolding number_from
  number_from-All P n [] h = tt
  number_from-All P n (row ∷ rows) h = (h.0 n, number_from-All P (n + 1) rows h.1)

  module _ (e : Eligibility) (f : RequestFeatures) (r : CanonicalRequest) (w : Weights fl)
      (max_attempts : ℕ) where
    scored-IsOf :
        All
          (λ (row : Row fl).
            (k : ℕ) → (m : ModelSnapshot) × Elem m e.eligible × IsOf r f m (candidate_of fl k row))
          (scored fl e f r w max_attempts)
    unfolding scored score_model
    scored-IsOf =
        let ps = map (price_model fl f r max_attempts) e.eligible in
        All-sort (key_leb fl) _ (map (score_model fl w ps) ps) (
          All-map _ (score_model fl w ps) ps (
            All-map _ (price_model fl f r max_attempts) e.eligible (
              All-mono (λ m. Elem m e.eligible) _ e.eligible (λ m h k. (m, h, (refl, refl, refl)))
                (All-Elem e.eligible))))

    pub rank-IsOf :
        All
          (λ c. (m : ModelSnapshot) × Elem m e.eligible × IsOf r f m c)
          (rank fl e f r w max_attempts)
    unfolding rank
    rank-IsOf = number_from-All _ 1 (scored fl e f r w max_attempts) scored-IsOf

    map-score_model :
        (qs ps : List (Priced fl))
        → map row_id (map (score_model fl w qs) ps) ≡ map (λ p. p.model.model_id) ps
    unfolding score_model
    map-score_model qs [] = refl
    map-score_model qs (p ∷ ps) = ap (◌∷◌ p.model.model_id) (map-score_model qs ps)

    map-price_model :
        (ms : List ModelSnapshot)
        → map (λ p. p.model.model_id) (map (price_model fl f r max_attempts) ms)
          ≡ map (λ m. m.model_id) ms
    map-price_model [] = refl
    map-price_model (m ∷ ms) = ap (◌∷◌ m.model_id) (map-price_model ms)

    -- The ranking stands in the order of the rounded score, then of the estimated cost, then of the
    -- model's id; it numbers the candidates from 1 on, and it has every eligible model once, none else.
    pub rank_lem :
        IsSorted (key_leb fl) (scored fl e f r w max_attempts)
        × (map (λ c. c.model_id) (rank fl e f r w max_attempts)
            ≡ map row_id (scored fl e f r w max_attempts))
        × (map (λ c. c.rank) (rank fl e f r w max_attempts) ≡ count_from 1 (length e.eligible))
        × Perm
            (map (λ c. c.model_id) (rank fl e f r w max_attempts))
            (map (λ m. m.model_id) e.eligible)
    unfolding rank scored
    rank_lem =
        let ps = map (price_model fl f r max_attempts) e.eligible in
        let rows = map (score_model fl w ps) ps in
        let ids = number_from-ids 1 (sort (key_leb fl) rows) in
        (
          sort-IsSorted (key_leb fl) key_leb-IsOrder rows,
          ids,
          number_from-ranks 1 (sort (key_leb fl) rows)
              ∙ ap (count_from 1) (
                  length-sort (key_leb fl) rows
                  ∙ length-map (score_model fl w ps) ps
                  ∙ length-map (price_model fl f r max_attempts) e.eligible),
          subst (λ xs. Perm xs (map (λ m. m.model_id) e.eligible)) (sym ids)
              (subst (λ xs. Perm (map row_id (sort (key_leb fl) rows)) xs)
                (map-score_model ps ps ∙ map-price_model e.eligible)
                (Perm.map row_id (sort-perm (key_leb fl) rows))),
        )

    number_from-length :
        (n : ℕ) (rows : List (Row fl)) → length (number_from fl n rows) ≡ length rows
    unfolding number_from
    number_from-length n [] = refl
    number_from-length n (row ∷ rows) = ap suc (number_from-length (n + 1) rows)

    pub rank-length : length (rank fl e f r w max_attempts) ≡ length e.eligible
    unfolding rank scored
    rank-length =
        let ps = map (price_model fl f r max_attempts) e.eligible in
        number_from-length 1 (sort (key_leb fl) (map (score_model fl w ps) ps))
        ∙ length-sort (key_leb fl) (map (score_model fl w ps) ps)
        ∙ length-map (score_model fl w ps) ps
        ∙ length-map (price_model fl f r max_attempts) e.eligible

    Elem-number_from :
        (row : Row fl) (n : ℕ) (rows : List (Row fl))
        → Elem row rows
        → (c : Candidate) × Elem c (number_from fl n rows) × (c.model_id ≡ row_id row)
    unfolding number_from
    Elem-number_from row n [] h = absurd h
    Elem-number_from row n (x ∷ rows) (inl q) = (candidate_of fl n x, inl refl, ap row_id (sym q))
    Elem-number_from row n (x ∷ rows) (inr h) =
        let found = Elem-number_from row (n + 1) rows h in (found.0, inr found.1, found.2)

    -- Each eligible model has a candidate.
    pub rank-Elem :
        (m : ModelSnapshot)
        → Elem m e.eligible
        → (c : Candidate) × Elem c (rank fl e f r w max_attempts) × (c.model_id ≡ m.model_id)
    unfolding rank scored score_model
    rank-Elem m h =
        let ps = map (price_model fl f r max_attempts) e.eligible in
        Elem-number_from (score_model fl w ps (price_model fl f r max_attempts m)) 1
          (sort (key_leb fl) (map (score_model fl w ps) ps))
          (Elem-sort (key_leb fl) (score_model fl w ps (price_model fl f r max_attempts m))
            (map (score_model fl w ps) ps)
            (Elem-map (score_model fl w ps) (price_model fl f r max_attempts m) ps
              (Elem-map (price_model fl f r max_attempts) m e.eligible h)))
