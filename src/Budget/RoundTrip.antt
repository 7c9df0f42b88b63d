-- ===== src/Budget/RoundTrip.antt =====
-- A reservation of src/gateway/services/budget.py and its end, taken together.
use llm_token_balancing_gate.Prelude.{
  ℕ, ◌+◌, ◌<◌, ◌≡◌, refl, sym, ap, ap₂, ◌∙◌, Bool, true, false, ◌||◌, List, [], ◌∷◌, ◌++◌, arith,
  ◌==◌, if◌then◌else◌, elem, Distinct, All, ℤ, pos, ◌+ℤ◌, ◌-ℤ◌, ◌≤ℤ◌, int_laws, +ℤ-zero_left,
}
use llm_token_balancing_gate.Budget.{
  Budget, BudgetReservation, Ledger, ok, Reservation, ReserveRequest, Hold, Resolution,
  update_budget, applicable, apply_resolution, add_reserved, has_budget, resolve_rows, resolve,
  settle, release, budget_ids_of, hold_of, lock_budgets, reserve, clamp_zero,
}
use llm_token_balancing_gate.Budget.Held.{
  IdsBelow, IsConsistent, held_nonneg, Balanced, AmountsNonneg,
}
use llm_token_balancing_gate.Budget.Updates.{update_where, update_all, update_all-eq-update_where}
use llm_token_balancing_gate.Budget.Selection.{
  update_where-lock_budgets, Distinct-lock_budgets, elem-lock_budgets,
}
use llm_token_balancing_gate.Budget.Reserve.{
  new_rows, new_ids, reserve-IsGranted, reserve_exact, reservations-hold_all,
}
use llm_token_balancing_gate.Budget.Once.{has_budget-update_budget}
use llm_token_balancing_gate.Budget.Resolve.{clamp_nonneg}

-- Ids that are counted up from `n` are none of the earlier ones.
elem-new_ids_below : (k n : ℕ) (bs : List Budget) → k < n → elem k (new_ids n bs) ≡ false
unfolding new_ids
elem-new_ids_below k n [] h = refl
elem-new_ids_below k n (b ∷ bs) h = ground (arith, elem-new_ids_below k (n + 1) bs)

elem-cons_true : (k j : ℕ) (ks : List ℕ) → elem k ks ≡ true → elem k (j ∷ ks) ≡ true
elem-cons_true k j ks h = ground arith

AllIn-cons :
    (j : ℕ) (ids ks : List ℕ)
    → All (λ k. elem k ids ≡ true) ks
    → All (λ k. elem k (j ∷ ids) ≡ true) ks
AllIn-cons j ids [] h = tt
AllIn-cons j ids (k ∷ ks) h = (elem-cons_true k j ids h.0, AllIn-cons j ids ks h.1)

All-in_self : (ks : List ℕ) → All (λ k. elem k ks ≡ true) ks
All-in_self [] = tt
All-in_self (k ∷ ks) = (ground arith, AllIn-cons k ks ks (All-in_self ks))

module _ (z : Resolution) (ids : List ℕ) where
  -- Rows of other reservations are passed over.
  resolve_rows_others :
      (n : ℕ) (rows new : List BudgetReservation) (bs : List Budget)
      → IdsBelow n rows
      → ((k : ℕ) → k < n → elem k ids ≡ false)
      → (resolve_rows ids z (rows ++ new) bs).1 ≡ (resolve_rows ids z new bs).1
  unfolding resolve_rows
  resolve_rows_others n [] new bs below others = refl
  resolve_rows_others n (row ∷ rows) new bs below others =
      rw (resolve_rows, others row.id below.0) (resolve_rows_others n rows new bs below.1 others)

  -- Each new row gives back its hold.
  resolve_rows-new_rows :
      (h : Hold) (n : ℕ) (locked bs : List Budget)
      → All (λ k. elem k ids ≡ true) (new_ids n locked)
      → All (λ k. has_budget k bs ≡ true) (budget_ids_of locked)
      → (resolve_rows ids z (new_rows h n locked) bs).1
        ≡ update_all (budget_ids_of locked) (apply_resolution h.amount z.settled) bs
  unfolding resolve_rows new_rows new_ids update_all
  resolve_rows-new_rows h n [] bs mine there = refl
  resolve_rows-new_rows h n (b ∷ locked) bs mine there =
      rw (resolve_rows, mine.0, there.0)
        (resolve_rows-new_rows h (n + 1) locked _ mine.1 (
          still b.id (apply_resolution h.amount z.settled) bs (budget_ids_of locked) (λ b'. refl)
            there.1))
    where
      still :
          (j : ℕ) (f : Budget → Budget) (bs : List Budget) (ks : List ℕ)
          → ((b : Budget) → (f b).id ≡ b.id)
          → All (λ k. has_budget k bs ≡ true) ks
          → All (λ k. has_budget k (update_budget j f bs) ≡ true) ks
      still j f bs [] keeps h = tt
      still j f bs (k ∷ ks) keeps h =
          (has_budget-update_budget k j f bs keeps ∙ h.0, still j f bs ks keeps h.1)

has_budget-update_where :
    (k : ℕ) (p : Budget → Bool) (amount : ℤ) (bs : List Budget)
    → has_budget k (update_where p (add_reserved amount) bs) ≡ has_budget k bs
has_budget-update_where k p amount [] = refl
has_budget-update_where k p amount (b ∷ bs) = ground (arith, has_budget-update_where k p amount bs)

has_budget-eq-elem : (k : ℕ) (bs : List Budget) → has_budget k bs ≡ elem k (budget_ids_of bs)
has_budget-eq-elem k [] = refl
has_budget-eq-elem k (b ∷ bs) = ap (λ t. b.id == k || t) (has_budget-eq-elem k bs)

-- The cost is added to what is spent, and nothing else changes.
abbrev pub charge : ℤ → Budget → Budget
charge cost b = record b { spent = b.spent +ℤ cost }

net_effect :
    (amount cost : ℤ) (b : Budget)
    → pos 0 ≤ℤ b.reserved
    → apply_resolution amount cost (add_reserved amount b) ≡ charge cost b
net_effect amount cost b h =
    let back : b.reserved +ℤ amount -ℤ amount ≡ b.reserved = omega int_laws in
    ap (λ x. record b { reserved = x; spent = b.spent +ℤ cost })
      (ap clamp_zero back ∙ clamp_nonneg b.reserved h)

update_where_net :
    (p : Budget → Bool) (amount cost : ℤ) (bs : List Budget)
    → All (λ b. pos 0 ≤ℤ b.reserved) bs
    → update_where p (λ b. apply_resolution amount cost (add_reserved amount b)) bs
      ≡ update_where p (charge cost) bs
update_where_net p amount cost [] h = refl
update_where_net p amount cost (b ∷ bs) h =
    ap₂ ◌∷◌ (ap (λ c. if p b then c else b) (net_effect amount cost b h.0))
      (update_where_net p amount cost bs h.1)

update_where_twice :
    (ks : List ℕ) (amount : ℤ) (g : Budget → Budget) (bs : List Budget)
    → let p = λ (b : Budget). elem b.id ks in
      update_where p g (update_where p (add_reserved amount) bs)
      ≡ update_where p (λ b. g (add_reserved amount b)) bs
update_where_twice ks amount g [] = refl
update_where_twice ks amount g (b ∷ bs) = ap₂ ◌∷◌ (ground arith) (update_where_twice ks amount g bs)

reserved_nonneg :
    (rows : List BudgetReservation) (bs : List Budget)
    → AmountsNonneg rows
    → Balanced (λ _. pos 0) rows bs
    → All (λ b. pos 0 ≤ℤ b.reserved) bs
reserved_nonneg rows [] a p = tt
reserved_nonneg rows (b ∷ bs) a p =
    (rw p.0 (rw +ℤ-zero_left (held_nonneg b.id rows a)), reserved_nonneg rows bs a p.1)

module _ (q : ReserveRequest) (l : Ledger) {r : Reservation} {l' : Ledger}
    (consistent : IsConsistent l) (distinct : Distinct (budget_ids_of l.budgets))
    (granted : reserve q l ≡ ok (r, l')) where
  locked : List Budget
  locked = lock_budgets l q.scopes q.at

  locked_there :
      (ks : List ℕ)
      → All (λ k. elem k (budget_ids_of locked) ≡ true) ks
      → All (λ k. has_budget k l'.budgets ≡ true) ks
  unfolding locked
  locked_there [] h = tt
  locked_there (k ∷ ks) h = (
    rw (reserve_exact q l distinct granted) (
        has_budget-update_where k _ q.estimate l.budgets
        ∙ has_budget-eq-elem k l.budgets
        ∙ elem-lock_budgets k l q.scopes q.at h.0),
    locked_there ks h.1,
  )

  resolve_new :
      (z : Resolution)
      → (resolve r z l').budgets
        ≡ update_all (budget_ids_of locked) (apply_resolution q.estimate z.settled) l'.budgets
  unfolding resolve locked
  resolve_new z =
      let g = reserve-IsGranted q l granted in
      let n = l.next_id in
      let rows =
        ap (λ (m : Ledger). m.reservations) g.ledger ∙ reservations-hold_all (hold_of q) locked l in
      ap₂ (λ ids rs. (resolve_rows ids z rs l'.budgets).1) g.row_ids rows
      ∙ resolve_rows_others z (new_ids n locked) n l.reservations (new_rows (hold_of q) n locked)
          l'.budgets consistent.ids (λ k lt. elem-new_ids_below k n locked lt)
      ∙ resolve_rows-new_rows z (new_ids n locked) (hold_of q) n locked l'.budgets
          (All-in_self (new_ids n locked)) (locked_there (budget_ids_of locked) (All-in_self _))

  resolve_charges :
      (z : Resolution)
      → (resolve r z l').budgets
        ≡ update_where (applicable q.scopes q.at) (charge z.settled) l.budgets
  unfolding locked
  resolve_charges z =
      let ks = budget_ids_of locked in
      let once = Distinct-lock_budgets l q.scopes q.at distinct in
      let back = apply_resolution q.estimate z.settled in
      resolve_new z
      ∙ update_all-eq-update_where back (λ b. refl) ks l'.budgets once
      ∙ ap (update_where (λ b. elem b.id ks) back) (
          reserve_exact q l distinct granted
          ∙ sym (update_where-lock_budgets l q.scopes q.at (add_reserved q.estimate) distinct))
      ∙ update_where_twice ks q.estimate back l.budgets
      ∙ update_where-lock_budgets l q.scopes q.at (λ b. back (add_reserved q.estimate b)) distinct
      ∙ update_where_net (applicable q.scopes q.at) q.estimate z.settled l.budgets
          (reserved_nonneg l.reservations l.budgets consistent.amounts consistent.balanced)

charge_nothing_one : (t : Bool) (b : Budget) → (if t then charge (pos 0) b else b) ≡ b
charge_nothing_one true b =
    let same : b.spent +ℤ pos 0 ≡ b.spent = omega int_laws in ap (λ x. record b { spent = x }) same
charge_nothing_one false b = refl

pub charge_nothing :
    (p : Budget → Bool) (bs : List Budget) → update_where p (charge (pos 0)) bs ≡ bs
charge_nothing p [] = refl
charge_nothing p (b ∷ bs) = ap₂ ◌∷◌ (charge_nothing_one (p b) b) (charge_nothing p bs)

-- On a consistent ledger, a reservation that is settled has the effect of adding the actual cost to
-- `spent` of every budget that applied, and one that is released leaves every budget as it was.
pub settle-release-reserve :
    (q : ReserveRequest) (l : Ledger) {r : Reservation} {l' : Ledger} (actual_cost : ℤ) (at : ℕ)
    → IsConsistent l
    → Distinct (budget_ids_of l.budgets)
    → reserve q l ≡ ok (r, l')
    → ((settle r actual_cost at l').budgets
        ≡ update_where (applicable q.scopes q.at) (charge actual_cost) l.budgets)
      × ((release r at l').budgets ≡ l.budgets)
unfolding settle release
settle-release-reserve q l actual_cost at c d h =
    (resolve_charges q l c d h _, resolve_charges q l c d h _ ∙ charge_nothing _ l.budgets)
