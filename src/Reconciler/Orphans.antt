-- ===== src/Reconciler/Orphans.antt =====
-- The rows that `expire_orphans` of src/gateway/services/budget.py lists.
use llm_token_balancing_gate.Prelude.{
  ℕ, zero, suc, ◌≡◌, refl, ap, ◌∙◌, Bool, true, false, ◌||◌, List, [], ◌∷◌, arith, ◌==◌, leb,
  if◌then◌else◌, elem, Elem, Distinct, All, All-keep, All-take, All-Elem, take, keep,
}
use llm_token_balancing_gate.Budget.{
  BudgetReservation, Ledger, is_active, is_orphan, insert_by_expiry, in_expiry_order,
  expire_orphans,
}
use llm_token_balancing_gate.Budget.Held.{row_ids_of}

module _ {κ} (P : BudgetReservation → Type κ) where
  All-insert_by_expiry :
      (r : BudgetReservation) (rows : List BudgetReservation)
      → P r
      → All P rows
      → All P (insert_by_expiry r rows)
  unfolding insert_by_expiry
  All-insert_by_expiry r [] p h = (p, tt)
  All-insert_by_expiry r (s ∷ rows) p h =
      place (All-insert_by_expiry r rows p h.1) (leb r.expires_at s.expires_at)
    where
      place :
          All P (insert_by_expiry r rows)
          → (t : Bool) → All P (if t then r ∷ s ∷ rows else s ∷ insert_by_expiry r rows)
      place rest true = (p, h)
      place rest false = (h.0, rest)

  All-in_expiry_order : (rows : List BudgetReservation) → All P rows → All P (in_expiry_order rows)
  unfolding in_expiry_order
  All-in_expiry_order [] h = tt
  All-in_expiry_order (r ∷ rows) h = All-insert_by_expiry r _ h.0 (All-in_expiry_order rows h.1)

-- Membership of an id under each step of the query.
elem-insert_by_expiry :
    (k : ℕ) (r : BudgetReservation) (rows : List BudgetReservation)
    → elem k (row_ids_of (insert_by_expiry r rows)) ≡ (r.id == k || elem k (row_ids_of rows))
unfolding insert_by_expiry
elem-insert_by_expiry k r [] = refl
elem-insert_by_expiry k r (s ∷ rows) = ground (arith, elem-insert_by_expiry k r rows)

elem-in_expiry_order :
    (k : ℕ) (rows : List BudgetReservation)
    → elem k (row_ids_of (in_expiry_order rows)) ≡ elem k (row_ids_of rows)
unfolding in_expiry_order
elem-in_expiry_order k [] = refl
elem-in_expiry_order k (r ∷ rows) =
    elem-insert_by_expiry k r (in_expiry_order rows)
    ∙ ap (λ t. r.id == k || t) (elem-in_expiry_order k rows)

Distinct-insert_by_expiry :
    (r : BudgetReservation) (rows : List BudgetReservation)
    → elem r.id (row_ids_of rows) ≡ false
    → Distinct (row_ids_of rows)
    → Distinct (row_ids_of (insert_by_expiry r rows))
unfolding insert_by_expiry
Distinct-insert_by_expiry r [] h d = (refl, tt)
Distinct-insert_by_expiry r (s ∷ rows) h d =
    ground (arith, Distinct-insert_by_expiry r rows, elem-insert_by_expiry s.id r rows)

Distinct-in_expiry_order :
    (rows : List BudgetReservation)
    → Distinct (row_ids_of rows)
    → Distinct (row_ids_of (in_expiry_order rows))
unfolding in_expiry_order
Distinct-in_expiry_order [] d = tt
Distinct-in_expiry_order (r ∷ rows) d =
    Distinct-insert_by_expiry r (in_expiry_order rows) (elem-in_expiry_order r.id rows ∙ d.0)
      (Distinct-in_expiry_order rows d.1)

module _ (p : BudgetReservation → Bool) where
  elem-keep-false :
      (k : ℕ) (rows : List BudgetReservation)
      → elem k (row_ids_of rows) ≡ false
      → elem k (row_ids_of (keep p rows)) ≡ false
  elem-keep-false k [] h = refl
  elem-keep-false k (r ∷ rows) h = ground (arith, elem-keep-false k rows)

  Distinct-keep :
      (rows : List BudgetReservation)
      → Distinct (row_ids_of rows)
      → Distinct (row_ids_of (keep p rows))
  Distinct-keep [] d = tt
  Distinct-keep (r ∷ rows) d = ground (arith, Distinct-keep rows d.1, elem-keep-false r.id rows)

elem-take-false :
    (k n : ℕ) (rows : List BudgetReservation)
    → elem k (row_ids_of rows) ≡ false
    → elem k (row_ids_of (take n rows)) ≡ false
elem-take-false k zero rows h = refl
elem-take-false k (suc n) [] h = refl
elem-take-false k (suc n) (r ∷ rows) h = ground (arith, elem-take-false k n rows)

Distinct-take :
    (n : ℕ) (rows : List BudgetReservation)
    → Distinct (row_ids_of rows)
    → Distinct (row_ids_of (take n rows))
Distinct-take zero rows d = tt
Distinct-take (suc n) [] d = tt
Distinct-take (suc n) (r ∷ rows) d = (elem-take-false r.id n rows d.0, Distinct-take n rows d.1)

-- A row of the table that is active and past its expiry.
abbrev pub IsDue : ℕ → List BudgetReservation → BudgetReservation → Type 0
IsDue now rows r = Elem r rows × (is_orphan now r ≡ true)

pub orphan_is_active :
    (now : ℕ) (r : BudgetReservation) → is_orphan now r ≡ true → is_active r.status ≡ true
unfolding is_orphan
orphan_is_active now r h = ground arith

-- Every reservation that is listed for recovery is a row of the table that is active and past its
-- expiry.
pub expire_orphans-IsDue :
    (now limit : ℕ) (l : Ledger) → All (IsDue now l.reservations) (expire_orphans now limit l)
unfolding expire_orphans
expire_orphans-IsDue now limit l = All-take _ limit _ (
    All-in_expiry_order (IsDue now l.reservations) _
      (All-keep _ _ (is_orphan now) l.reservations (λ r m e. (m, e)) (All-Elem l.reservations)))

pub expire_orphans-Distinct :
    (now limit : ℕ) (l : Ledger)
    → Distinct (row_ids_of l.reservations)
    → Distinct (row_ids_of (expire_orphans now limit l))
unfolding expire_orphans
expire_orphans-Distinct now limit l d =
    Distinct-take limit _
      (Distinct-in_expiry_order _ (Distinct-keep (is_orphan now) l.reservations d))
