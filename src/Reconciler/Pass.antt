-- ===== src/Reconciler/Pass.antt =====
-- A whole pass of src/gateway/services/reconciler.py.
use llm_token_balancing_gate.Prelude.{
  ℕ, ◌≡◌, subst, true, false, inl, inr, List, [], ◌∷◌, arith, ◌==◌, elem, Elem, Distinct, All,
  All-mono, Bool-cases,
}
use llm_token_balancing_gate.Budget.{BudgetReservation, is_active, has_budget, expire_orphans}
use llm_token_balancing_gate.Budget.Held.{IsConsistent, row_ids_of}
use llm_token_balancing_gate.Persistence.{Database}
use llm_token_balancing_gate.Reconciler.{
  Pass, update_reservation, reconcile_one, reconcile_all, reconcile_reservations, empty_report,
}
use llm_token_balancing_gate.Reconciler.Consistency.{reconcile_found-IsConsistent}
use llm_token_balancing_gate.Reconciler.Orphans.{
  orphan_is_active, expire_orphans-IsDue, expire_orphans-Distinct,
}

-- A row that is still to be reconciled stands in the table as it was selected.
abbrev Waits : List BudgetReservation → BudgetReservation → Type 0
Waits rows r = Elem r rows × (is_active r.status ≡ true)

Elem-update_reservation :
    (s : BudgetReservation) (k : ℕ) (f : BudgetReservation → BudgetReservation)
    (rows : List BudgetReservation)
    → (s.id == k) ≡ false
    → Elem s rows
    → Elem s (update_reservation k f rows)
unfolding update_reservation
Elem-update_reservation s k f [] h m = m
Elem-update_reservation s k f (x ∷ rows) h (inl e) =
    let other : (x.id == k) ≡ false = subst (λ (y : BudgetReservation). (y.id == k) ≡ false) e h in
    inl (rw other e)
Elem-update_reservation s k f (x ∷ rows) h (inr m) = inr (Elem-update_reservation s k f rows h m)

module _ (now : ℕ) where
  reconcile_one-IsConsistent :
      (r : BudgetReservation) (s : Pass)
      → Waits s.1.ledger.reservations r
      → IsConsistent s.1.ledger
      → IsConsistent (reconcile_one now r s).1.ledger
  unfolding reconcile_one
  reconcile_one-IsConsistent r s w c =
      elim (Bool-cases (has_budget r.budget_id s.1.ledger.budgets)) [
        | inl e ↦ rw e (reconcile_found-IsConsistent now r _ s w.0 w.1 c)
        | inr e ↦ rw e c
      ]

  one-Waits :
      (r : BudgetReservation) (s : Pass) (x : BudgetReservation)
      → (x.id == r.id) ≡ false
      → Waits s.1.ledger.reservations x
      → Waits (reconcile_one now r s).1.ledger.reservations x
  unfolding reconcile_one
  one-Waits r s x h w = elim (Bool-cases (has_budget r.budget_id s.1.ledger.budgets)) [
    | inl e ↦ rw e (Elem-update_reservation x r.id _ s.1.ledger.reservations h w.0, w.1)
    | inr e ↦ rw e w
  ]

  others_wait :
      (r : BudgetReservation) (s : Pass) (rows : List BudgetReservation)
      → elem r.id (row_ids_of rows) ≡ false
      → All (Waits s.1.ledger.reservations) rows
      → All (Waits (reconcile_one now r s).1.ledger.reservations) rows
  others_wait r s [] h w = tt
  others_wait r s (x ∷ rows) h w =
      (one-Waits r s x (ground arith) w.0, others_wait r s rows (ground arith) w.1)

  reconcile_all-IsConsistent :
      (rows : List BudgetReservation) (s : Pass)
      → Distinct (row_ids_of rows)
      → All (Waits s.1.ledger.reservations) rows
      → IsConsistent s.1.ledger
      → IsConsistent (reconcile_all now rows s).1.ledger
  unfolding reconcile_all
  reconcile_all-IsConsistent [] s d w c = c
  reconcile_all-IsConsistent (r ∷ rows) s d w c =
      reconcile_all-IsConsistent rows (reconcile_one now r s) d.1 (others_wait r s rows d.0 w.1)
        (reconcile_one-IsConsistent r s w.0 c)

-- A pass of the reconciler keeps the ledger consistent, whatever its time and its limit are.
pub reconcile_reservations-IsConsistent :
    (now limit : ℕ) (db : Database)
    → IsConsistent db.ledger
    → IsConsistent (reconcile_reservations now limit db).1.ledger
unfolding reconcile_reservations
reconcile_reservations-IsConsistent now limit db c =
    reconcile_all-IsConsistent now (expire_orphans now limit db.ledger) (empty_report, db)
      (expire_orphans-Distinct now limit db.ledger c.distinct)
      (All-mono _ _ _ (λ r d. (d.0, orphan_is_active now r d.1))
        (expire_orphans-IsDue now limit db.ledger))
      c
