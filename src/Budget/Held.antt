-- ===== src/Budget/Held.antt =====
-- The invariant of the ledger of src/gateway/services/budget.py: `reserved` against the active holds.
use llm_token_balancing_gate.Prelude.{
  ℕ, ◌<◌, ◌≡◌, ◌&&◌, List, [], ◌∷◌, ◌++◌, arith, ◌==◌, if◌then◌else◌, All, elem, Distinct, map,
  refl, false, ◌||◌, ℤ, pos, ◌+ℤ◌, ◌≤ℤ◌, int_laws,
}
use llm_token_balancing_gate.Budget.{Budget, BudgetReservation, Ledger, is_active}

-- What a row holds of the budget `k`.
abbrev pub contribution : ℕ → BudgetReservation → ℤ
contribution k row =
    if is_active row.status && row.budget_id == k then row.reserved_amount else pos 0

abbrev pub held : ℕ → List BudgetReservation → ℤ
held k [] = pos 0
held k (row ∷ rows) = contribution k row +ℤ held k rows

-- `offset` is what rows that are not listed hold.
abbrev pub Balanced : (ℕ → ℤ) → List BudgetReservation → List Budget → Type 0
Balanced offset rows = All (λ b. b.reserved ≡ offset b.id +ℤ held b.id rows)

abbrev pub AmountsNonneg : List BudgetReservation → Type 0
AmountsNonneg = All (λ row. pos 0 ≤ℤ row.reserved_amount)

-- Every row was given its id by the database's counter.
abbrev pub IdsBelow : ℕ → List BudgetReservation → Type 0
IdsBelow n = All (λ row. row.id < n)

abbrev pub row_ids_of : List BudgetReservation → List ℕ
row_ids_of = map λ row. row.id

pub record IsConsistent (l : Ledger) : Type 0 where
  pub balanced : Balanced (λ _. pos 0) l.reservations l.budgets
  pub amounts : AmountsNonneg l.reservations
  pub ids : IdsBelow l.next_id l.reservations
  pub distinct : Distinct (row_ids_of l.reservations)

pub held-append :
    (k : ℕ) (xs ys : List BudgetReservation) → held k (xs ++ ys) ≡ held k xs +ℤ held k ys
held-append k [] ys = omega int_laws
held-append k (x ∷ xs) ys = rw (held-append k xs ys) (omega int_laws)

pub contribution_nonneg :
    (k : ℕ) (row : BudgetReservation) → pos 0 ≤ℤ row.reserved_amount → pos 0 ≤ℤ contribution k row
contribution_nonneg k row h = ground arith

pub held_nonneg :
    (k : ℕ) (rows : List BudgetReservation) → AmountsNonneg rows → pos 0 ≤ℤ held k rows
held_nonneg k [] h = omega arith
held_nonneg k (row ∷ rows) h =
    omega (int_laws, contribution_nonneg k row h.0, held_nonneg k rows h.1)

pub elem-below :
    (n : ℕ) (rows : List BudgetReservation) → IdsBelow n rows → elem n (row_ids_of rows) ≡ false
elem-below n [] h = refl
elem-below n (row ∷ rows) h = ground (arith, elem-below n rows h.1)

elem-row_ids-append :
    (k : ℕ) (row : BudgetReservation) (rows : List BudgetReservation)
    → elem k (row_ids_of (rows ++ row ∷ [])) ≡ (elem k (row_ids_of rows) || row.id == k)
elem-row_ids-append k row [] = ground arith
elem-row_ids-append k row (r ∷ rows) = ground (arith, elem-row_ids-append k row rows)

-- A new id at the end keeps the ids distinct.
pub Distinct-append :
    (row : BudgetReservation) (rows : List BudgetReservation)
    → elem row.id (row_ids_of rows) ≡ false
    → Distinct (row_ids_of rows)
    → Distinct (row_ids_of (rows ++ row ∷ []))
Distinct-append row [] h d = (refl, tt)
Distinct-append row (r ∷ rows) h d =
    (ground (arith, elem-row_ids-append r.id row rows), Distinct-append row rows (ground arith) d.1)
