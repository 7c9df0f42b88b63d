-- ===== src/Budget/Once.antt =====
-- A second resolution of the same reservation, in src/gateway/services/budget.py.
use llm_token_balancing_gate.Prelude.{
  ℕ, ◌≡◌, refl, ap, ◌∙◌, Bool, true, false, ◌&&◌, List, [], ◌∷◌, arith, if◌then◌else◌, elem, All, ℤ,
}
use llm_token_balancing_gate.Budget.{
  Budget, BudgetReservation, Ledger, Reservation, Resolution, is_active, update_budget,
  apply_resolution, has_budget, resolve_rows, resolve,
}

pub has_budget-update_budget :
    (k j : ℕ) (f : Budget → Budget) (bs : List Budget)
    → ((b : Budget) → (f b).id ≡ b.id)
    → has_budget k (update_budget j f bs) ≡ has_budget k bs
unfolding update_budget
has_budget-update_budget k j f [] keeps = refl
has_budget-update_budget k j f (b ∷ bs) keeps =
    ground (arith, keeps b, has_budget-update_budget k j f bs keeps)

module _ (ids : List ℕ) (present : ℕ → Bool) where
  -- The row is not due: not of this reservation, or resolved, or of a budget that is gone.
  abbrev NotDue : BudgetReservation → Type 0
  NotDue row = (elem row.id ids && is_active row.status && present row.budget_id) ≡ false

  abbrev HasBudgets : List Budget → Type 0
  HasBudgets bs = (k : ℕ) → has_budget k bs ≡ present k

  still_there :
      (due : Bool) (k : ℕ) (held settled : ℤ) (bs : List Budget)
      → HasBudgets bs
      → HasBudgets (if due then update_budget k (apply_resolution held settled) bs else bs)
  still_there true k held settled bs h j =
      has_budget-update_budget j k (apply_resolution held settled) bs (λ b. refl) ∙ h j
  still_there false k held settled bs h j = h j

  resolve_rows-HasBudgets :
      (z : Resolution) (rows : List BudgetReservation) (bs : List Budget)
      → HasBudgets bs
      → HasBudgets (resolve_rows ids z rows bs).1
  unfolding resolve_rows
  resolve_rows-HasBudgets z [] bs h = h
  resolve_rows-HasBudgets z (row ∷ rows) bs h =
      resolve_rows-HasBudgets z rows _
        (still_there _ row.budget_id row.reserved_amount z.settled bs h)

  resolve_rows-NotDue :
      (z : Resolution) (rows : List BudgetReservation) (bs : List Budget)
      → is_active z.status ≡ false
      → HasBudgets bs
      → All NotDue (resolve_rows ids z rows bs).0
  unfolding resolve_rows
  resolve_rows-NotDue z [] bs dead h = tt
  resolve_rows-NotDue z (row ∷ rows) bs dead h = (
    ground (arith, h row.budget_id),
    resolve_rows-NotDue z rows _ dead
        (still_there _ row.budget_id row.reserved_amount z.settled bs h),
  )

  resolve_rows_idle :
      (z : Resolution) (rows : List BudgetReservation) (bs : List Budget)
      → HasBudgets bs
      → All NotDue rows
      → resolve_rows ids z rows bs ≡ (rows, bs)
  unfolding resolve_rows
  resolve_rows_idle z [] bs h d = refl
  resolve_rows_idle z (row ∷ rows) bs h d =
      rw (h row.budget_id, d.0) (rw (resolve_rows_idle z rows bs h d.1) refl)

-- Once a reservation has been settled or released, resolving it again, whatever the second status,
-- cost and time are, changes nothing in the ledger.
pub resolve_once :
    (r : Reservation) (first second : Resolution) (l : Ledger)
    → is_active first.status ≡ false
    → resolve r second (resolve r first l) ≡ resolve r first l
unfolding resolve
resolve_once r first second l dead =
    let ids = r.reservation_ids in
    let there = λ (k : ℕ). has_budget k l.budgets in
    ap
      (λ (t : List BudgetReservation × List Budget). record l { reservations = t.0; budgets = t.1 })
      (resolve_rows_idle ids there second _ _
        (resolve_rows-HasBudgets ids there first l.reservations l.budgets (λ k. refl))
        (resolve_rows-NotDue ids there first l.reservations l.budgets dead (λ k. refl)))
