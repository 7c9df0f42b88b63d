-- ===== src/Budget/Selection.antt =====
-- The budgets that `_lock_budgets` of src/gateway/services/budget.py selects, whatever their order.
use llm_token_balancing_gate.Prelude.{
  ℕ, String, ◌≡◌, refl, ap, ap₂, ◌∙◌, Bool, true, false, ◌||◌, List, [], ◌∷◌, arith, ◌==◌,
  if◌then◌else◌, keep, elem, Bool-cases, inl, inr, true, Distinct, All,
}
use llm_token_balancing_gate.Budget.{
  Budget, Ledger, applicable, insert_locked, in_lock_order, lock_budgets, budget_ids_of,
}
use llm_token_balancing_gate.Budget.Updates.{update_where}

-- Membership of an id is not changed by the order.
elem-insert_locked :
    (k : ℕ) (b : Budget) (bs : List Budget)
    → elem k (budget_ids_of (insert_locked b bs)) ≡ (b.id == k || elem k (budget_ids_of bs))
unfolding insert_locked
elem-insert_locked k b [] = refl
elem-insert_locked k b (c ∷ cs) = ground (arith, elem-insert_locked k b cs)

elem-in_lock_order :
    (k : ℕ) (bs : List Budget)
    → elem k (budget_ids_of (in_lock_order bs)) ≡ elem k (budget_ids_of bs)
unfolding in_lock_order
elem-in_lock_order k [] = refl
elem-in_lock_order k (b ∷ bs) =
    elem-insert_locked k b (in_lock_order bs) ∙ ap (λ t. b.id == k || t) (elem-in_lock_order k bs)

Distinct-insert_locked :
    (b : Budget) (bs : List Budget)
    → elem b.id (budget_ids_of bs) ≡ false
    → Distinct (budget_ids_of bs)
    → Distinct (budget_ids_of (insert_locked b bs))
unfolding insert_locked
Distinct-insert_locked b [] h d = (refl, tt)
Distinct-insert_locked b (c ∷ cs) h d =
    ground (arith, Distinct-insert_locked b cs, elem-insert_locked c.id b cs)

Distinct-in_lock_order :
    (bs : List Budget) → Distinct (budget_ids_of bs) → Distinct (budget_ids_of (in_lock_order bs))
unfolding in_lock_order
Distinct-in_lock_order [] d = tt
Distinct-in_lock_order (b ∷ bs) d =
    Distinct-insert_locked b (in_lock_order bs) (elem-in_lock_order b.id bs ∙ d.0)
      (Distinct-in_lock_order bs d.1)

module _ (p : Budget → Bool) where
  elem-keep-false :
      (k : ℕ) (bs : List Budget)
      → elem k (budget_ids_of bs) ≡ false
      → elem k (budget_ids_of (keep p bs)) ≡ false
  elem-keep-false k [] h = refl
  elem-keep-false k (b ∷ bs) h = ground (arith, elem-keep-false k bs)

  Distinct-keep :
      (bs : List Budget) → Distinct (budget_ids_of bs) → Distinct (budget_ids_of (keep p bs))
  Distinct-keep [] d = tt
  Distinct-keep (b ∷ bs) d = ground (arith, Distinct-keep bs d.1, elem-keep-false b.id bs)

update_where_congr :
    (p q : Budget → Bool) (f : Budget → Budget) (bs : List Budget)
    → All (λ b. p b ≡ q b) bs
    → update_where p f bs ≡ update_where q f bs
update_where_congr p q f [] h = refl
update_where_congr p q f (b ∷ bs) h =
    ap₂ ◌∷◌ (ap (λ t. if t then f b else b) h.0) (update_where_congr p q f bs h.1)

-- In a table of distinct ids, an id is kept exactly if its row is.
module _ (p : Budget → Bool) where
  others_kept :
      (c : Budget) (bs : List Budget) (ks : List ℕ)
      → elem c.id (budget_ids_of bs) ≡ false
      → All (λ b. elem b.id (c.id ∷ ks) ≡ elem b.id ks) bs
  others_kept c [] ks h = tt
  others_kept c (b ∷ bs) ks h = (ground arith, others_kept c bs ks (ground arith))

  chain :
      (c : Budget) (bs : List Budget) (ks : List ℕ)
      → All (λ b. elem b.id (c.id ∷ ks) ≡ elem b.id ks) bs
      → All (λ b. elem b.id ks ≡ p b) bs
      → All (λ b. elem b.id (c.id ∷ ks) ≡ p b) bs
  chain c [] ks h k = tt
  chain c (b ∷ bs) ks h k = (h.0 ∙ k.0, chain c bs ks h.1 k.1)

  -- Whether the head is kept does not matter to the rows behind it.
  behind_head :
      (t : Bool) (b : Budget) (bs : List Budget)
      → elem b.id (budget_ids_of bs) ≡ false
      → All (λ c. elem c.id (budget_ids_of (keep p bs)) ≡ p c) bs
      → All (λ c. elem c.id (budget_ids_of (if t then b ∷ keep p bs else keep p bs)) ≡ p c) bs
  behind_head true b bs h k =
      chain b bs (budget_ids_of (keep p bs)) (others_kept b bs (budget_ids_of (keep p bs)) h) k
  behind_head false b bs h k = k

  kept_ids :
      (bs : List Budget)
      → Distinct (budget_ids_of bs)
      → All (λ b. elem b.id (budget_ids_of (keep p bs)) ≡ p b) bs
  kept_ids [] d = tt
  kept_ids (b ∷ bs) d =
      (ground (arith, elem-keep-false p b.id bs d.0), behind_head (p b) b bs d.0 (kept_ids bs d.1))

-- The rows that the locked ids select are the rows that apply.
pub update_where-lock_budgets :
    (l : Ledger) (scopes : List String) (at : ℕ) (f : Budget → Budget)
    → Distinct (budget_ids_of l.budgets)
    → update_where (λ b. elem b.id (budget_ids_of (lock_budgets l scopes at))) f l.budgets
      ≡ update_where (applicable scopes at) f l.budgets
unfolding lock_budgets
update_where-lock_budgets l scopes at f d =
    update_where_congr _ _ f l.budgets
      (in_order l.budgets (kept_ids (applicable scopes at) l.budgets d))
  where
    kept : List Budget
    kept = keep (applicable scopes at) l.budgets

    in_order :
        (bs : List Budget)
        → All (λ b. elem b.id (budget_ids_of kept) ≡ applicable scopes at b) bs
        → All (λ b. elem b.id (budget_ids_of (in_lock_order kept)) ≡ applicable scopes at b) bs
    in_order [] h = tt
    in_order (b ∷ bs) h = (elem-in_lock_order b.id kept ∙ h.0, in_order bs h.1)

pub Distinct-lock_budgets :
    (l : Ledger) (scopes : List String) (at : ℕ)
    → Distinct (budget_ids_of l.budgets)
    → Distinct (budget_ids_of (lock_budgets l scopes at))
unfolding lock_budgets
Distinct-lock_budgets l scopes at d =
    Distinct-in_lock_order (keep (applicable scopes at) l.budgets)
      (Distinct-keep (applicable scopes at) l.budgets d)

-- A locked id is the id of a row of the table.
pub elem-lock_budgets :
    (k : ℕ) (l : Ledger) (scopes : List String) (at : ℕ)
    → elem k (budget_ids_of (lock_budgets l scopes at)) ≡ true
    → elem k (budget_ids_of l.budgets) ≡ true
unfolding lock_budgets
elem-lock_budgets k l scopes at h = elim (Bool-cases (elem k (budget_ids_of l.budgets))) [
  | inl e ↦ e
  | inr e ↦ cc (
    elem-keep-false (applicable scopes at) k l.budgets e,
    elem-in_lock_order k (keep (applicable scopes at) l.budgets),
  )
]
