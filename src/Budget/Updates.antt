-- ===== src/Budget/Updates.antt =====
-- Updates of the budget table, one row at a time, as one update of every row that a test selects.
use llm_token_balancing_gate.Prelude.{
  ℕ, ◌≡◌, refl, ap, ◌∙◌, Bool, false, List, [], ◌∷◌, arith, ◌==◌, if◌then◌else◌, elem, Distinct,
}
use llm_token_balancing_gate.Budget.{Budget, update_budget}

-- UPDATE budgets SET f WHERE p
abbrev pub update_where : (Budget → Bool) → (Budget → Budget) → List Budget → List Budget
update_where p f [] = []
update_where p f (b ∷ bs) = (if p b then f b else b) ∷ update_where p f bs

unfoldable pub update_all : List ℕ → (Budget → Budget) → List Budget → List Budget
update_all [] f bs = bs
update_all (k ∷ ks) f bs = update_all ks f (update_budget k f bs)

module _ (f : Budget → Budget) (keeps_id : (b : Budget) → (f b).id ≡ b.id) where
  step_one :
      (k : ℕ) (ks : List ℕ) (b : Budget)
      → elem k ks ≡ false
      → (if elem (if b.id == k then f b else b).id ks
          then f (if b.id == k then f b else b)
          else if b.id == k
          then f b
          else b)
        ≡ (if elem b.id (k ∷ ks) then f b else b)
  step_one k ks b h = ground (arith, keeps_id b)

  merge_step :
      (k : ℕ) (ks : List ℕ) (bs : List Budget)
      → elem k ks ≡ false
      → update_where (λ b. elem b.id ks) f (update_budget k f bs)
        ≡ update_where (λ b. elem b.id (k ∷ ks)) f bs
  unfolding update_budget
  merge_step k ks [] h = refl
  merge_step k ks (b ∷ bs) h = rw (step_one k ks b h, merge_step k ks bs h)

  update_where_none : (bs : List Budget) → bs ≡ update_where (λ _. false) f bs
  update_where_none [] = refl
  update_where_none (b ∷ bs) = ap (λ r. b ∷ r) (update_where_none bs)

  pub update_all-eq-update_where :
      (ks : List ℕ) (bs : List Budget)
      → Distinct ks
      → update_all ks f bs ≡ update_where (λ b. elem b.id ks) f bs
  unfolding update_all
  update_all-eq-update_where [] bs h = update_where_none bs
  update_all-eq-update_where (k ∷ ks) bs h =
      update_all-eq-update_where ks (update_budget k f bs) h.1 ∙ merge_step k ks bs h.0
