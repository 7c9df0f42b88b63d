-- ===== src/Budget/Limits.antt =====
-- `reserve` of src/gateway/services/budget.py against the ceiling and the limits of the budgets.
use llm_token_balancing_gate.Prelude.{
  ℕ, String, ◌≡◌, refl, sym, ap, ◌∙◌, ◌↔◌, Bool, true, false, ◌||◌, List, [], ◌∷◌, arith,
  if◌then◌else◌, Option, none, some, keep, any, Distinct, All, ℤ, pos, ◌+ℤ◌, ltb_false→le,
  le→ltb_false, ◌≤ℤ◌, Within, int_laws,
}
use llm_token_balancing_gate.Budget.{
  Budget, Ledger, ok, Reservation, ReserveRequest, applicable, insert_locked, in_lock_order,
  lock_budgets, budget_ids_of, exceeds, over_ceiling, lacks_headroom, headroom, add_reserved,
  reserve, take_holds,
}
use llm_token_balancing_gate.Budget.Updates.{update_where}
use llm_token_balancing_gate.Budget.Reserve.{reserve-IsGranted, reserve_exact}

module _ (f : Budget → Bool) where
  any-insert_locked :
      (b : Budget) (bs : List Budget) → any f (insert_locked b bs) ≡ (f b || any f bs)
  unfolding insert_locked
  any-insert_locked b [] = refl
  any-insert_locked b (c ∷ cs) = ground (arith, any-insert_locked b cs)

  any-in_lock_order : (bs : List Budget) → any f (in_lock_order bs) ≡ any f bs
  unfolding in_lock_order
  any-in_lock_order [] = refl
  any-in_lock_order (b ∷ bs) =
      any-insert_locked b (in_lock_order bs) ∙ ap (λ t. f b || t) (any-in_lock_order bs)

-- There is room for the amount in the budget.
abbrev pub HasRoom : ℤ → Budget → Type 0
HasRoom amount b = b.spent +ℤ b.reserved +ℤ amount ≤ℤ b.hard_limit

abbrev pub AllHaveRoom : List String → ℕ → ℤ → List Budget → Type 0
AllHaveRoom scopes at amount = All (λ b. applicable scopes at b ≡ true → HasRoom amount b)

abbrev pub UnderCeiling : ReserveRequest → Type 0
UnderCeiling q = Within q.effective_max_cost (q.request_cost_so_far +ℤ q.estimate)

lacks_headroom_sound :
    (amount : ℤ) (b : Budget) → lacks_headroom amount b ≡ false → HasRoom amount b
unfolding headroom
lacks_headroom_sound amount b h = omega (int_laws, ltb_false→le _ _ h)

lacks_headroom_complete :
    (amount : ℤ) (b : Budget) → HasRoom amount b → lacks_headroom amount b ≡ false
unfolding headroom
lacks_headroom_complete amount b h = le→ltb_false _ _ (omega int_laws)

room_of_any :
    (p : Budget → Bool) (amount : ℤ) (bs : List Budget)
    → any (lacks_headroom amount) (keep p bs) ≡ false
    → All (λ b. p b ≡ true → HasRoom amount b) bs
room_of_any p amount [] h = tt
room_of_any p amount (b ∷ bs) h =
    ground (arith, room_of_any p amount bs, lacks_headroom_sound amount b)

any_of_room :
    (p : Budget → Bool) (amount : ℤ) (bs : List Budget)
    → All (λ b. p b ≡ true → HasRoom amount b) bs
    → any (lacks_headroom amount) (keep p bs) ≡ false
any_of_room p amount [] h = refl
any_of_room p amount (b ∷ bs) h =
    ground (arith, any_of_room p amount bs, lacks_headroom_complete amount b)

any-lock_budgets :
    (f : Budget → Bool) (l : Ledger) (scopes : List String) (at : ℕ)
    → any f (lock_budgets l scopes at) ≡ any f (keep (applicable scopes at) l.budgets)
unfolding lock_budgets
any-lock_budgets f l scopes at = any-in_lock_order f (keep (applicable scopes at) l.budgets)

exceeds_iff : (o : Option ℤ) (x : ℤ) → (exceeds o x ≡ false) ↔ Within o x
exceeds_iff none x = ((λ _. tt), λ _. refl)
exceeds_iff (some ceiling) x = ((λ h. ltb_false→le _ _ h), λ h. le→ltb_false _ _ h)

reserve_granted :
    (q : ReserveRequest) (l : Ledger)
    → over_ceiling q ≡ false
    → any (lacks_headroom q.estimate) (lock_budgets l q.scopes q.at) ≡ false
    → reserve q l ≡ ok (take_holds q (lock_budgets l q.scopes q.at) l)
unfolding reserve
reserve_granted q l under room = rw (under, room) refl

-- A reservation is granted exactly when the request stays within its cost ceiling and every budget
-- that applies has room for the estimate.
pub reserve_iff :
    (q : ReserveRequest) (l : Ledger)
    → ((r : Reservation) × (l' : Ledger) × (reserve q l ≡ ok (r, l')))
      ↔ (UnderCeiling q × AllHaveRoom q.scopes q.at q.estimate l.budgets)
reserve_iff q l = (
  λ (r, l', h).
      let g = reserve-IsGranted q l h in
      (
        (exceeds_iff q.effective_max_cost _).0 g.under_ceiling,
        room_of_any _ _ _ (sym (any-lock_budgets _ l q.scopes q.at) ∙ g.has_headroom),
      ),
  λ (under, room).
      let (r, l') = take_holds q (lock_budgets l q.scopes q.at) l in
      (
        r,
        l',
        reserve_granted q l ((exceeds_iff q.effective_max_cost _).1 under)
            (any-lock_budgets _ l q.scopes q.at ∙ any_of_room _ _ _ room),
      ),
)

module _ (scopes : List String) (at : ℕ) (amount : ℤ) (b : Budget) where
  room_after_one :
      (t : Bool)
      → applicable scopes at b ≡ t
      → (t ≡ true → HasRoom amount b)
      → applicable scopes at (if t then add_reserved amount b else b) ≡ true
      → HasRoom (pos 0) (if t then add_reserved amount b else b)
  room_after_one true e h a = let room = h refl in omega int_laws
  room_after_one false e h a = cc

room_after :
    (scopes : List String) (at : ℕ) (amount : ℤ) (bs : List Budget)
    → AllHaveRoom scopes at amount bs
    → AllHaveRoom scopes at (pos 0) (update_where (applicable scopes at) (add_reserved amount) bs)
room_after scopes at amount [] h = tt
room_after scopes at amount (b ∷ bs) h = (
  room_after_one scopes at amount b (applicable scopes at b) refl h.0,
  room_after scopes at amount bs h.1,
)

-- After a granted reservation no budget that applies is overcommitted: what is spent and held fits
-- its hard limit.
pub reserve-AllHaveRoom :
    (q : ReserveRequest) (l : Ledger) {r : Reservation} {l' : Ledger}
    → Distinct (budget_ids_of l.budgets)
    → reserve q l ≡ ok (r, l')
    → AllHaveRoom q.scopes q.at (pos 0) l'.budgets
reserve-AllHaveRoom q l {r} {l'} d h =
    rw (reserve_exact q l d h)
      (room_after q.scopes q.at q.estimate l.budgets ((reserve_iff q l).0 (r, l', h)).1)
