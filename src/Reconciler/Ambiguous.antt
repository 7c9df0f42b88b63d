-- ===== src/Reconciler/Ambiguous.antt =====
-- Attempts with several reservations in a pass of src/gateway/services/reconciler.py.
use llm_token_balancing_gate.Prelude.{
  ℕ, String, ◌≡◌, refl, true, false, Option, none, some, List, [], ◌∷◌, arith,
}
use llm_token_balancing_gate.Budget.{BudgetReservation, update_budget, has_budget}
use llm_token_balancing_gate.Persistence.{Attempt, get_attempt, update_attempt}
use llm_token_balancing_gate.Reconciler.{
  in_flight, attempt_ambiguous, abandon, abandon_attempt, Pass, reconcile_found, reconcile_one,
  reconcile_all, return_hold,
}

abandoned :
    (k : String) (rows : List Attempt)
    → in_flight (get_attempt k (update_attempt k abandon rows)) ≡ false
abandoned k [] = refl
abandoned k (a ∷ rows) = ground (arith, abandoned k rows)

stays_known :
    (j k : String) (rows : List Attempt)
    → in_flight (get_attempt k rows) ≡ false
    → in_flight (get_attempt k (update_attempt j abandon rows)) ≡ false
stays_known j k [] h = refl
stays_known j k (a ∷ rows) h = ground (arith, stays_known j k rows)

abandon_attempt-known :
    (o p : Option String) (rows : List Attempt)
    → attempt_ambiguous rows p ≡ false
    → attempt_ambiguous (abandon_attempt o rows) p ≡ false
unfolding attempt_ambiguous
abandon_attempt-known none p rows h = h
abandon_attempt-known (some j) none rows h = refl
abandon_attempt-known (some j) (some k) rows h = stays_known j k rows h

abandon_attempt_self :
    (o : Option String) (rows : List Attempt) → attempt_ambiguous (abandon_attempt o rows) o ≡ false
unfolding attempt_ambiguous
abandon_attempt_self none rows = refl
abandon_attempt_self (some k) rows = abandoned k rows

module _ (now : ℕ) (p : Option String) where
  -- What is known of an attempt stays known.
  reconcile_one-known :
      (r : BudgetReservation) (s : Pass)
      → attempt_ambiguous s.1.attempts p ≡ false
      → attempt_ambiguous (reconcile_one now r s).1.attempts p ≡ false
  unfolding reconcile_one reconcile_found
  reconcile_one-known r s h = ground (arith, abandon_attempt-known r.attempt_id p s.1.attempts h)

  reconcile_all-known :
      (rows : List BudgetReservation) (s : Pass)
      → attempt_ambiguous s.1.attempts p ≡ false
      → attempt_ambiguous (reconcile_all now rows s).1.attempts p ≡ false
  unfolding reconcile_all
  reconcile_all-known [] s h = h
  reconcile_all-known (r ∷ rows) s h =
      reconcile_all-known rows (reconcile_one now r s) (reconcile_one-known r s h)

reconciled_is_known :
    (now : ℕ) (r : BudgetReservation) (s : Pass)
    → has_budget r.budget_id s.1.ledger.budgets ≡ true
    → attempt_ambiguous (reconcile_one now r s).1.attempts r.attempt_id ≡ false
unfolding reconcile_one reconcile_found
reconciled_is_known now r s h = ground (arith, abandon_attempt_self r.attempt_id s.1.attempts)

-- The budgets' and the attempts' part of a round on a row whose attempt is not ambiguous.
released_round :
    (now : ℕ) (r : BudgetReservation) (s : Pass)
    → attempt_ambiguous s.1.attempts r.attempt_id ≡ false
    → has_budget r.budget_id s.1.ledger.budgets ≡ true
    → (reconcile_one now r s).1.ledger.budgets
      ≡ update_budget r.budget_id (return_hold false r.reserved_amount) s.1.ledger.budgets
unfolding reconcile_one reconcile_found
released_round now r s known there = ground arith

-- Of the reservations of one attempt, a pass charges at most the first that it meets: every later
-- one, on whatever budget, is returned and not charged, also where the attempt was in flight and
-- the provider may have been called.
pub charged_once :
    (now : ℕ) (first second : BudgetReservation) (between : List BudgetReservation) (s : Pass)
    → has_budget first.budget_id s.1.ledger.budgets ≡ true
    → second.attempt_id ≡ first.attempt_id
    → has_budget second.budget_id
        (reconcile_all now between (reconcile_one now first s)).1.ledger.budgets
      ≡ true
    → let s' = reconcile_all now between (reconcile_one now first s) in
      (reconcile_one now second s').1.ledger.budgets
      ≡ update_budget second.budget_id
          (return_hold false second.reserved_amount)
          s'.1.ledger.budgets
charged_once now first second between s there same there' =
    released_round now second (reconcile_all now between (reconcile_one now first s))
      (rw same (
        reconcile_all-known now first.attempt_id between (reconcile_one now first s)
          (reconciled_is_known now first s there)))
      there'
