-- ===== src/Domain/Strictest/Laws.antt =====
-- `strictest` of src/gateway/domain/enums.py and the order that it is given.
use mathlib.Core.Path.{subst}
use llm_token_balancing_gate.Prelude.{
  ℕ, ◌≤◌, ◌≡◌, refl, inl, some, List, [], ◌∷◌, arith, ltb, if◌then◌else◌, All, Elem,
}
use llm_token_balancing_gate.Domain.Strictest.{strictest_from, strictest}

module _ {A : Type 0} (index : A → ℕ) where
  strictest_from-grows :
      (best : A) (xs : List A) → index best ≤ index (strictest_from index best xs)
  unfolding strictest_from
  strictest_from-grows best [] = omega arith
  strictest_from-grows best (x ∷ xs) =
      ground (arith, strictest_from-grows (if ltb (index best) (index x) then x else best) xs)

  pub strictest_from-bounds :
      (best : A) (xs : List A) → All (λ x. index x ≤ index (strictest_from index best xs)) xs
  unfolding strictest_from
  strictest_from-bounds best [] = tt
  strictest_from-bounds best (x ∷ xs) =
      let next = if ltb (index best) (index x) then x else best in
      (ground (arith, strictest_from-grows next xs), strictest_from-bounds next xs)

  pub strictest-bounds :
      (xs : List A) {m : A} → strictest index xs ≡ some m → All (λ x. index x ≤ index m) xs
  unfolding strictest
  strictest-bounds [] h = tt
  strictest-bounds (x ∷ xs) {m} h =
      let e : strictest_from index x xs ≡ m = cc in
      subst (λ m'. All (λ y. index y ≤ index m') (x ∷ xs)) e
        (strictest_from-grows x xs, strictest_from-bounds x xs)

  strictest_from-Elem : (best : A) (xs : List A) → Elem (strictest_from index best xs) (best ∷ xs)
  unfolding strictest_from
  strictest_from-Elem best [] = inl refl
  strictest_from-Elem best (x ∷ xs) =
      ground (arith, strictest_from-Elem best xs, strictest_from-Elem x xs)

  pub strictest-Elem : (xs : List A) {m : A} → strictest index xs ≡ some m → Elem m xs
  unfolding strictest
  strictest-Elem [] h = cc
  strictest-Elem (x ∷ xs) {m} h =
      let e : strictest_from index x xs ≡ m = cc in
      subst (λ m'. Elem m' (x ∷ xs)) e (strictest_from-Elem x xs)
