-- ===== src/Budget/Reserve.antt =====
-- What `reserve` of src/gateway/services/budget.py makes of the ledger when it grants a hold.
use mathlib.Core.List.{append-nil, append_assoc}
use llm_token_balancing_gate.Prelude.{
  ℕ, ◌+◌, ◌≡◌, refl, sym, ap, ◌∙◌, false, List, [], ◌∷◌, ◌++◌, arith, any, Distinct, All-append,
  All-mono, pos, ◌≤ℤ◌, int_laws,
}
use llm_token_balancing_gate.Budget.{
  Budget, BudgetReservation, Ledger, ok, Reservation, Hold, ReserveRequest, update_budget,
  add_reserved, active_row, hold_one, hold_all, over_ceiling, lacks_headroom, hold_of,
  budget_ids_of, lock_budgets, reserve, applicable,
}
use llm_token_balancing_gate.Budget.Held.{
  Balanced, IsConsistent, held-append, elem-below, Distinct-append,
}
use llm_token_balancing_gate.Budget.Updates.{update_where, update_all, update_all-eq-update_where}
use llm_token_balancing_gate.Budget.Selection.{update_where-lock_budgets, Distinct-lock_budgets}

-- The rows that a hold inserts.
unfoldable pub new_rows : Hold → ℕ → List Budget → List BudgetReservation
new_rows h n [] = []
new_rows h n (b ∷ bs) = active_row h n b.id ∷ new_rows h (n + 1) bs

-- Their ids.
unfoldable pub new_ids : ℕ → List Budget → List ℕ
new_ids n [] = []
new_ids n (b ∷ bs) = n ∷ new_ids (n + 1) bs

module _ (h : Hold) where
  pub budgets-hold_all :
      (bs : List Budget) (l : Ledger)
      → (hold_all h bs l).1.budgets
        ≡ update_all (budget_ids_of bs) (add_reserved h.amount) l.budgets
  unfolding hold_all update_all hold_one
  budgets-hold_all [] l = refl
  budgets-hold_all (b ∷ bs) l = budgets-hold_all bs (hold_one h b.id l)

  pub reservations-hold_all :
      (bs : List Budget) (l : Ledger)
      → (hold_all h bs l).1.reservations ≡ l.reservations ++ new_rows h l.next_id bs
  unfolding hold_all hold_one new_rows
  reservations-hold_all [] l = sym (append-nil l.reservations)
  reservations-hold_all (b ∷ bs) l =
      reservations-hold_all bs (hold_one h b.id l)
      ∙ append_assoc l.reservations (active_row h l.next_id b.id ∷ [])
          (new_rows h (l.next_id + 1) bs)

  pub ids-hold_all : (bs : List Budget) (l : Ledger) → (hold_all h bs l).0 ≡ new_ids l.next_id bs
  unfolding hold_all hold_one new_ids
  ids-hold_all [] l = refl
  ids-hold_all (b ∷ bs) l = ap (λ ids. l.next_id ∷ ids) (ids-hold_all bs (hold_one h b.id l))

  -- A hold on `k` is counted once in `reserved` and once in the rows.
  hold_one-Balanced :
      (k n : ℕ) (rows : List BudgetReservation) (bs : List Budget)
      → Balanced (λ _. pos 0) rows bs
      → Balanced
          (λ _. pos 0)
          (rows ++ active_row h n k ∷ [])
          (update_budget k (add_reserved h.amount) bs)
  unfolding update_budget
  hold_one-Balanced k n rows [] p = tt
  hold_one-Balanced k n rows (b ∷ bs) p = (
    grind (int_laws, held-append b.id rows (active_row h n k ∷ []), p.0),
    hold_one-Balanced k n rows bs p.1,
  )

  hold_one-IsConsistent :
      (k : ℕ) (l : Ledger) → pos 0 ≤ℤ h.amount → IsConsistent l → IsConsistent (hold_one h k l)
  unfolding hold_one
  hold_one-IsConsistent k l a c = record {
    balanced = hold_one-Balanced k l.next_id l.reservations l.budgets c.balanced;
    amounts = All-append _ l.reservations _ c.amounts (a, tt);
    ids =
        All-append _ l.reservations _ (All-mono _ _ l.reservations (λ row p. omega arith) c.ids)
          (omega arith, tt);
    distinct =
        Distinct-append _ l.reservations (elem-below l.next_id l.reservations c.ids) c.distinct;
  }

  pub hold_all-IsConsistent :
      (bs : List Budget) (l : Ledger)
      → pos 0 ≤ℤ h.amount
      → IsConsistent l
      → IsConsistent (hold_all h bs l).1
  unfolding hold_all
  hold_all-IsConsistent [] l a c = c
  hold_all-IsConsistent (b ∷ bs) l a c =
      hold_all-IsConsistent bs (hold_one h b.id l) a (hold_one-IsConsistent b.id l a c)

-- What a granted request went through.
pub record IsGranted (q : ReserveRequest) (l : Ledger) (r : Reservation) (l' : Ledger)
    : Type 0 where
  pub under_ceiling : over_ceiling q ≡ false
  pub has_headroom : any (lacks_headroom q.estimate) (lock_budgets l q.scopes q.at) ≡ false
  pub amount : r.amount ≡ q.estimate
  pub row_ids : r.reservation_ids ≡ new_ids l.next_id (lock_budgets l q.scopes q.at)
  pub ledger : l' ≡ (hold_all (hold_of q) (lock_budgets l q.scopes q.at) l).1

pub reserve-IsGranted :
    (q : ReserveRequest) (l : Ledger) {r : Reservation} {l' : Ledger}
    → reserve q l ≡ ok (r, l')
    → IsGranted q l r l'
unfolding reserve
reserve-IsGranted q l h =
    let bs = lock_budgets l q.scopes q.at in ground (arith, ids-hold_all (hold_of q) bs l)

-- A granted hold of a non-negative amount keeps the ledger consistent.
pub reserve-IsConsistent :
    (q : ReserveRequest) (l : Ledger) {r : Reservation} {l' : Ledger}
    → pos 0 ≤ℤ q.estimate
    → IsConsistent l
    → reserve q l ≡ ok (r, l')
    → IsConsistent l'
reserve-IsConsistent q l a c h =
    let g = reserve-IsGranted q l h in
    rw g.ledger (hold_all-IsConsistent (hold_of q) (lock_budgets l q.scopes q.at) l a c)

-- A granted hold adds the estimate to `reserved` of every budget that applies, and of no other.
pub reserve_exact :
    (q : ReserveRequest) (l : Ledger) {r : Reservation} {l' : Ledger}
    → Distinct (budget_ids_of l.budgets)
    → reserve q l ≡ ok (r, l')
    → l'.budgets ≡ update_where (applicable q.scopes q.at) (add_reserved q.estimate) l.budgets
reserve_exact q l d h =
    let g = reserve-IsGranted q l h in
    let bs = lock_budgets l q.scopes q.at in
    ap (λ (m : Ledger). m.budgets) g.ledger
    ∙ budgets-hold_all (hold_of q) bs l
    ∙ update_all-eq-update_where (add_reserved q.estimate) (λ b. refl) (budget_ids_of bs) l.budgets
        (Distinct-lock_budgets l q.scopes q.at d)
    ∙ update_where-lock_budgets l q.scopes q.at (add_reserved q.estimate) d
