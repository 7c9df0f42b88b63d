-- ===== src/Budget/Resolve.antt =====
-- `_resolve` of src/gateway/services/budget.py and the invariant of the ledger.
use llm_token_balancing_gate.Prelude.{
  ℕ, ◌≡◌, refl, ap₂, ◌∙◌, Bool, true, false, ◌&&◌, List, [], ◌∷◌, arith, if◌then◌else◌, elem, ℤ,
  pos, ◌+ℤ◌, ◌-ℤ◌, ◌≤ℤ◌, int_laws, +ℤ-zero_left,
}
use llm_token_balancing_gate.Budget.{
  Budget, BudgetReservation, Ledger, Reservation, Resolution, is_active, update_budget,
  apply_resolution, resolved_row, has_budget, resolve_rows, resolve, settle, release, clamp_zero,
}
use llm_token_balancing_gate.Budget.Held.{
  contribution, held, Balanced, AmountsNonneg, IdsBelow, row_ids_of, IsConsistent,
  contribution_nonneg, held_nonneg,
}

abbrev Nonneg : (ℕ → ℤ) → Type 0
Nonneg offset = (k : ℕ) → pos 0 ≤ℤ offset k

pub clamp_nonneg : (x : ℤ) → pos 0 ≤ℤ x → clamp_zero x ≡ x
clamp_nonneg x h = ground arith

pub reserved_after :
    (reserved offset amount rest : ℤ)
    → pos 0 ≤ℤ offset
    → pos 0 ≤ℤ rest
    → reserved ≡ offset +ℤ (amount +ℤ rest)
    → clamp_zero (reserved -ℤ amount) ≡ offset +ℤ rest
reserved_after reserved offset amount rest o r e =
    let left : reserved -ℤ amount ≡ offset +ℤ rest = rw e (omega int_laws) in
    rw left (clamp_nonneg (offset +ℤ rest) (omega int_laws))

-- The active row at the head gives back what it held.
give_back :
    (offset : ℕ → ℤ) (row : BudgetReservation) (rows : List BudgetReservation) (settled : ℤ)
    (bs : List Budget)
    → Nonneg offset
    → AmountsNonneg rows
    → is_active row.status ≡ true
    → Balanced offset (row ∷ rows) bs
    → Balanced offset rows
        (update_budget row.budget_id (apply_resolution row.reserved_amount settled) bs)
unfolding update_budget
give_back offset row rows settled [] n a live p = tt
give_back offset row rows settled (b ∷ bs) n a live p = (
  ground (
    arith,
    reserved_after b.reserved (offset b.id) row.reserved_amount (held b.id rows) (n b.id)
        (held_nonneg b.id rows a),
    +ℤ-zero_left (held b.id rows),
  ),
  give_back offset row rows settled bs n a live p.1,
)

not_active_holds_nothing :
    (k : ℕ) (row : BudgetReservation) → is_active row.status ≡ false → contribution k row ≡ pos 0
not_active_holds_nothing k row h = rw h

-- Once the head has given back its hold, it may be put back in its new state.
restore_resolved :
    (offset : ℕ → ℤ) (z : Resolution) (row : BudgetReservation) (rows : List BudgetReservation)
    (bs : List Budget)
    → is_active z.status ≡ false
    → Balanced offset rows bs
    → Balanced offset (resolved_row z row ∷ rows) bs
restore_resolved offset z row rows [] dead p = tt
restore_resolved offset z row rows (b ∷ bs) dead p = (
  rw (not_active_holds_nothing b.id (resolved_row z row) dead, +ℤ-zero_left) p.0,
  restore_resolved offset z row rows bs dead p.1,
)

-- A row that is left alone counts with what the rows outside the list hold.
set_aside :
    (offset : ℕ → ℤ) (row : BudgetReservation) (rows : List BudgetReservation) (bs : List Budget)
    → Balanced offset (row ∷ rows) bs
    → Balanced (λ k. offset k +ℤ contribution k row) rows bs
set_aside offset row rows [] p = tt
set_aside offset row rows (b ∷ bs) p = (p.0 ∙ omega int_laws, set_aside offset row rows bs p.1)

put_back :
    (offset : ℕ → ℤ) (row : BudgetReservation) (rows : List BudgetReservation) (bs : List Budget)
    → Balanced (λ k. offset k +ℤ contribution k row) rows bs
    → Balanced offset (row ∷ rows) bs
put_back offset row rows [] p = tt
put_back offset row rows (b ∷ bs) p = (p.0 ∙ omega int_laws, put_back offset row rows bs p.1)

module _ (ids : List ℕ) (z : Resolution) (dead : is_active z.status ≡ false) where
  -- One round of the loop, given the rounds behind it.
  resolve_round :
      (offset : ℕ → ℤ) (row : BudgetReservation) (rows : List BudgetReservation) (bs : List Budget)
      → Nonneg offset
      → AmountsNonneg (row ∷ rows)
      → Balanced offset (row ∷ rows) bs
      → ((offset' : ℕ → ℤ) (bs' : List Budget)
          → Nonneg offset'
          → Balanced offset' rows bs'
          → Balanced offset' (resolve_rows ids z rows bs').0 (resolve_rows ids z rows bs').1)
      → (due : Bool) → (due ≡ true → is_active row.status ≡ true)
      → let (rows', bs') = resolve_rows ids z rows (
          if due
          then update_budget row.budget_id (apply_resolution row.reserved_amount z.settled) bs
          else bs) in
        Balanced offset ((if due then resolved_row z row else row) ∷ rows') bs'
  resolve_round offset row rows bs n a p rest true live =
      restore_resolved offset z row _ _ dead
        (rest offset _ n (give_back offset row rows z.settled bs n a.1 (live refl) p))
  resolve_round offset row rows bs n a p rest false live = put_back offset row _ _ (
      rest (λ k. offset k +ℤ contribution k row) bs
        (λ k. omega (int_laws, n k, contribution_nonneg k row a.0))
        (set_aside offset row rows bs p))

  resolve_rows-Balanced :
      (offset : ℕ → ℤ) (rows : List BudgetReservation) (bs : List Budget)
      → Nonneg offset
      → AmountsNonneg rows
      → Balanced offset rows bs
      → let (rows', bs') = resolve_rows ids z rows bs in Balanced offset rows' bs'
  unfolding resolve_rows
  resolve_rows-Balanced offset [] bs n a p = p
  resolve_rows-Balanced offset (row ∷ rows) bs n a p =
      resolve_round offset row rows bs n a p
        (λ offset' bs' n' p'. resolve_rows-Balanced offset' rows bs' n' a.1 p')
        (elem row.id ids && is_active row.status && has_budget row.budget_id bs) (λ e. ground arith)

  resolve_rows-AmountsNonneg :
      (rows : List BudgetReservation) (bs : List Budget)
      → AmountsNonneg rows
      → AmountsNonneg (resolve_rows ids z rows bs).0
  unfolding resolve_rows
  resolve_rows-AmountsNonneg [] bs a = tt
  resolve_rows-AmountsNonneg (row ∷ rows) bs a =
      (ground arith, resolve_rows-AmountsNonneg rows _ a.1)

  resolve_rows-IdsBelow :
      (n : ℕ) (rows : List BudgetReservation) (bs : List Budget)
      → IdsBelow n rows
      → IdsBelow n (resolve_rows ids z rows bs).0
  unfolding resolve_rows
  resolve_rows-IdsBelow n [] bs a = tt
  resolve_rows-IdsBelow n (row ∷ rows) bs a = (ground arith, resolve_rows-IdsBelow n rows _ a.1)

row_ids-resolve_rows :
    (ids : List ℕ) (z : Resolution) (rows : List BudgetReservation) (bs : List Budget)
    → row_ids_of (resolve_rows ids z rows bs).0 ≡ row_ids_of rows
unfolding resolve_rows
row_ids-resolve_rows ids z [] bs = refl
row_ids-resolve_rows ids z (row ∷ rows) bs =
    ap₂ ◌∷◌ (ground arith) (row_ids-resolve_rows ids z rows _)

pub resolve-IsConsistent :
    (r : Reservation) (z : Resolution) (l : Ledger)
    → is_active z.status ≡ false
    → IsConsistent l
    → IsConsistent (resolve r z l)
unfolding resolve
resolve-IsConsistent r z l dead c = record {
  balanced =
      resolve_rows-Balanced r.reservation_ids z dead (λ _. pos 0) l.reservations l.budgets
        (λ k. omega arith) c.amounts c.balanced;
  amounts = resolve_rows-AmountsNonneg r.reservation_ids z dead l.reservations l.budgets c.amounts;
  ids = resolve_rows-IdsBelow r.reservation_ids z dead l.next_id l.reservations l.budgets c.ids;
  distinct = rw (row_ids-resolve_rows r.reservation_ids z l.reservations l.budgets) c.distinct;
}

-- Settling a reservation, whatever it cost, and releasing it keep the ledger consistent: `reserved`
-- stays the sum of the active holds.
pub settle-release-IsConsistent :
    (r : Reservation) (actual_cost : ℤ) (at : ℕ) (l : Ledger)
    → IsConsistent l
    → IsConsistent (settle r actual_cost at l) × IsConsistent (release r at l)
unfolding settle release
settle-release-IsConsistent r actual_cost at l c =
    (resolve-IsConsistent r _ l refl c, resolve-IsConsistent r _ l refl c)
