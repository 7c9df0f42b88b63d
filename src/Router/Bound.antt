-- ===== src/Router/Bound.antt =====
-- The advisory bound of src/gateway/services/router.py against attempts on one candidate.
use llm_token_balancing_gate.Prelude.{
  ℕ, zero, suc, ◌+◌, ◌<◌, List, [], ◌∷◌, map, ◌≡◌, refl, ap, length, All, All-mono, arith, ℤ, pos,
  pos_part, neg_part, ◌+ℤ◌, ◌≤ℤ◌, int_laws, subst, sym,
}
use llm_token_balancing_gate.Prelude.Sort.{IsOrder, IsSorted, sort, sort-IsSorted}
use llm_token_balancing_gate.Domain.Routing.{Candidate}
use llm_token_balancing_gate.Router.Plan.{sum_from, descending, padded, bound_of, route_upper_bound}

infix 50 ◌<ℤ◌
abbrev pub ◌<ℤ◌ : ℤ → ℤ → Type 0
a <ℤ b = pos_part a + neg_part b < pos_part b + neg_part a

-- The cost of n attempts that cost the same.
abbrev pub attempts_at : ℕ → ℤ → ℤ → ℤ
attempts_at zero cost acc = acc
attempts_at (suc n) cost acc = attempts_at n cost (acc +ℤ cost)

sum_from-lt :
    (a acc acc' : ℤ) (xs : List ℤ)
    → acc <ℤ acc'
    → All (λ x. x ≤ℤ a) xs
    → sum_from acc xs <ℤ attempts_at (length xs) a acc'
sum_from-lt a acc acc' [] l h = l
sum_from-lt a acc acc' (x ∷ xs) l h =
    sum_from-lt a (acc +ℤ x) (acc' +ℤ a) xs (omega (int_laws, h.0)) h.1

padded-All : (P : ℤ → Type 0) (n : ℕ) (x : ℤ) (xs : List ℤ) → P x → All P xs → All P (padded n x xs)
unfolding padded
padded-All P zero x xs p h = (p, tt)
padded-All P (suc zero) x xs p h = (p, tt)
padded-All P (suc (suc n)) x [] p h = (p, padded-All P (suc n) x [] p tt)
padded-All P (suc (suc n)) x (y ∷ ys) p h = (p, padded-All P (suc n) y ys h.0 h.1)

padded-length : (n : ℕ) (x : ℤ) (xs : List ℤ) → length (padded (suc n) x xs) ≡ suc n
unfolding padded
padded-length zero x xs = refl
padded-length (suc n) x [] = ap suc (padded-length n x [])
padded-length (suc n) x (y ∷ ys) = ap suc (padded-length n y ys)

descending-IsOrder : IsOrder descending
descending-IsOrder = record { total = λ a b e. ground arith; trans = λ a b c e f. ground arith }

-- At the second entry the sum falls behind.
padded-lt :
    (n : ℕ) (a b acc acc' : ℤ) (xs : List ℤ)
    → acc ≤ℤ acc'
    → b <ℤ a
    → All (λ x. x ≤ℤ a) xs
    → sum_from acc (padded (suc n) b xs) <ℤ attempts_at (suc n) a acc'
unfolding padded
padded-lt zero a b acc acc' xs l s h = omega int_laws
padded-lt (suc n) a b acc acc' [] l s h =
    subst (λ k. sum_from (acc +ℤ b) (padded (suc n) b []) <ℤ attempts_at k a (acc' +ℤ a))
      (padded-length n b [])
      (sum_from-lt a (acc +ℤ b) (acc' +ℤ a) (padded (suc n) b []) (omega int_laws)
        (padded-All (λ x. x ≤ℤ a) (suc n) b [] (omega int_laws) tt))
padded-lt (suc n) a b acc acc' (y ∷ ys) l s h =
    subst (λ k. sum_from (acc +ℤ b) (padded (suc n) y ys) <ℤ attempts_at k a (acc' +ℤ a))
      (padded-length n y ys)
      (sum_from-lt a (acc +ℤ b) (acc' +ℤ a) (padded (suc n) y ys) (omega int_laws)
        (padded-All (λ x. x ≤ℤ a) (suc n) y ys h.0 h.1))

-- Where the costliest candidate has no equal and two attempts or more are allowed, the bound of the
-- route is less than what that many attempts on that candidate cost.
pub route_upper_bound-lt :
    (cs : List Candidate) (n : ℕ) (a b : ℤ) (rest : List ℤ)
    → sort descending (map (λ c. c.estimated_cost) cs) ≡ a ∷ b ∷ rest
    → b <ℤ a
    → route_upper_bound cs (suc (suc n)) <ℤ attempts_at (suc (suc n)) a (pos 0)
unfolding route_upper_bound padded
route_upper_bound-lt cs n a b rest e s =
    let sorted =
      subst (IsSorted descending) e
        (sort-IsSorted descending descending-IsOrder (map (λ c. c.estimated_cost) cs)) in
    subst (λ xs. bound_of (suc (suc n)) xs <ℤ attempts_at (suc (suc n)) a (pos 0)) (sym e)
      (padded-lt n a b (pos 0 +ℤ a) (pos 0 +ℤ a) rest (omega arith) s
        (All-mono _ (λ x. x ≤ℤ a) rest (λ x h. ground arith) sorted.0.1))
