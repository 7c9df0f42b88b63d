-- ===== src/Reconciler/Consistency.antt =====
-- One reconciled row of src/gateway/services/reconciler.py and the invariant of the ledger.
use llm_token_balancing_gate.Prelude.{
  ℕ, ◌≡◌, refl, sym, ap, ap₂, subst, inl, inr, Bool, true, false, List, [], ◌∷◌, arith, ◌==◌, elem,
  Elem, Distinct, pos, ◌+ℤ◌, int_laws, +ℤ-zero_left, ==_self,
}
use llm_token_balancing_gate.Budget.{Budget, BudgetReservation, is_active, update_budget}
use llm_token_balancing_gate.Budget.Held.{
  contribution, held, Balanced, AmountsNonneg, IdsBelow, IsConsistent, held_nonneg, row_ids_of,
}
use llm_token_balancing_gate.Budget.Resolve.{reserved_after}
use llm_token_balancing_gate.Reconciler.{
  update_reservation, return_hold, reconciled_row, reconcile_found, Pass,
}

update_reservation_absent :
    (k : ℕ) (f : BudgetReservation → BudgetReservation) (rows : List BudgetReservation)
    → elem k (row_ids_of rows) ≡ false
    → update_reservation k f rows ≡ rows
unfolding update_reservation
update_reservation_absent k f [] h = refl
update_reservation_absent k f (r ∷ rows) h =
    ap₂ ◌∷◌ (ground arith) (update_reservation_absent k f rows (ground arith))

Elem-elem :
    (r : BudgetReservation) (rows : List BudgetReservation)
    → Elem r rows
    → elem r.id (row_ids_of rows) ≡ true
Elem-elem r [] h = absurd h
Elem-elem r (x ∷ rows) (inl e) = rw e (ground arith)
Elem-elem r (x ∷ rows) (inr m) = ground (arith, Elem-elem r rows m)

others_differ :
    (r x : BudgetReservation) (rows : List BudgetReservation)
    → Elem r rows
    → elem x.id (row_ids_of rows) ≡ false
    → (x.id == r.id) ≡ false
others_differ r x rows m h = let there = Elem-elem r rows m in ground arith

module _ (f : BudgetReservation → BudgetReservation) (k : ℕ) where
  held_head :
      (x : BudgetReservation) (rows : List BudgetReservation)
      → elem x.id (row_ids_of rows) ≡ false
      → is_active (f x).status ≡ false
      → held k (x ∷ rows) ≡ contribution k x +ℤ held k (update_reservation x.id f (x ∷ rows))
  unfolding update_reservation
  held_head x rows h dead =
      rw (==_self x.id, update_reservation_absent x.id f rows h, dead)
        (ap (λ t. contribution k x +ℤ t) (sym (+ℤ-zero_left (held k rows))))

  -- An update by id hits the one row with that id.
  held-update_reservation :
      (r : BudgetReservation) (rows : List BudgetReservation)
      → Elem r rows
      → Distinct (row_ids_of rows)
      → is_active (f r).status ≡ false
      → held k rows ≡ contribution k r +ℤ held k (update_reservation r.id f rows)
  unfolding update_reservation
  held-update_reservation r [] m d dead = absurd m
  held-update_reservation r (x ∷ rows) (inl e) d dead =
      subst
        (λ y. held k (x ∷ rows) ≡ contribution k y +ℤ held k (update_reservation y.id f (x ∷ rows)))
        (sym e) (held_head x rows d.0 (subst (λ y. is_active (f y).status ≡ false) e dead))
  held-update_reservation r (x ∷ rows) (inr m) d dead =
      rw (others_differ r x rows m d.0, held-update_reservation r rows m d.1 dead) (omega int_laws)

module _ (now : ℕ) (r : BudgetReservation) (ambiguous : Bool) where
  reconciled_dead : is_active (reconciled_row ambiguous now r).status ≡ false
  reconciled_dead = ground arith

  AmountsNonneg-reconciled :
      (rows : List BudgetReservation)
      → AmountsNonneg rows
      → AmountsNonneg (update_reservation r.id (reconciled_row ambiguous now) rows)
  unfolding update_reservation
  AmountsNonneg-reconciled [] a = tt
  AmountsNonneg-reconciled (x ∷ rows) a = (ground arith, AmountsNonneg-reconciled rows a.1)

  IdsBelow-reconciled :
      (n : ℕ) (rows : List BudgetReservation)
      → IdsBelow n rows
      → IdsBelow n (update_reservation r.id (reconciled_row ambiguous now) rows)
  unfolding update_reservation
  IdsBelow-reconciled n [] a = tt
  IdsBelow-reconciled n (x ∷ rows) a = (ground arith, IdsBelow-reconciled n rows a.1)

  pub row_ids-reconciled :
      (rows : List BudgetReservation)
      → row_ids_of (update_reservation r.id (reconciled_row ambiguous now) rows) ≡ row_ids_of rows
  unfolding update_reservation
  row_ids-reconciled [] = refl
  row_ids-reconciled (x ∷ rows) = ap₂ ◌∷◌ (ground arith) (row_ids-reconciled rows)

  module _ (rows : List BudgetReservation) (amounts : AmountsNonneg rows)
      (distinct : Distinct (row_ids_of rows)) (mine : Elem r rows)
      (live : is_active r.status ≡ true) where
    Balanced-reconciled :
        (bs : List Budget)
        → Balanced (λ _. pos 0) rows bs
        → Balanced
            (λ _. pos 0)
            (update_reservation r.id (reconciled_row ambiguous now) rows)
            (update_budget r.budget_id (return_hold ambiguous r.reserved_amount) bs)
    unfolding update_budget
    Balanced-reconciled [] p = tt
    Balanced-reconciled (b ∷ bs) p =
        let rows' = update_reservation r.id (reconciled_row ambiguous now) rows in
        (
          ground (
            arith,
            held-update_reservation (reconciled_row ambiguous now) b.id r rows mine distinct
                reconciled_dead,
            reserved_after b.reserved (pos 0) r.reserved_amount (held b.id rows') (omega arith)
                (held_nonneg b.id rows' (AmountsNonneg-reconciled rows amounts)),
            +ℤ-zero_left (held b.id rows'),
          ),
          Balanced-reconciled bs p.1,
        )

-- One reconciled row keeps the ledger consistent, whether it is released or settled as ambiguous.
pub reconcile_found-IsConsistent :
    (now : ℕ) (r : BudgetReservation) (ambiguous : Bool) (s : Pass)
    → Elem r s.1.ledger.reservations
    → is_active r.status ≡ true
    → IsConsistent s.1.ledger
    → IsConsistent (reconcile_found now r ambiguous s).1.ledger
unfolding reconcile_found
reconcile_found-IsConsistent now r ambiguous s m live c =
    let rows = s.1.ledger.reservations in
    record {
      balanced =
          Balanced-reconciled now r ambiguous rows c.amounts c.distinct m live s.1.ledger.budgets
            c.balanced;
      amounts = AmountsNonneg-reconciled now r ambiguous rows c.amounts;
      ids = IdsBelow-reconciled now r ambiguous s.1.ledger.next_id rows c.ids;
      distinct = rw (row_ids-reconciled now r ambiguous rows) c.distinct;
    }
