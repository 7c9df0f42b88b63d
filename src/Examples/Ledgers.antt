-- ===== src/Examples/Ledgers.antt =====
-- A ledger with a global budget and one of a client, and a hold on both.
use llm_token_balancing_gate.Prelude.{
  ℕ, String, ◌≡◌, refl, ◌↔◌, none, some, [], ◌∷◌, Distinct, pos, ◌+ℤ◌, ◌-ℤ◌, arith,
}
use llm_token_balancing_gate.Domain.Enums.{ReservationStatus}
use llm_token_balancing_gate.Budget.{
  Budget, BudgetReservation, Ledger, Result, ok, err, Reservation, ReserveRequest, Resolution,
  reserve, settle, release, resolve, applicable, lock_budgets, in_lock_order, insert_locked,
  locks_before, headroom, hold_all, hold_one, update_budget,
}
use llm_token_balancing_gate.Budget.Held.{IsConsistent}
use llm_token_balancing_gate.Budget.Updates.{update_where}
use llm_token_balancing_gate.Budget.Limits.{UnderCeiling, AllHaveRoom, reserve_iff}
use llm_token_balancing_gate.Budget.Once.{resolve_once}
use llm_token_balancing_gate.Budget.RoundTrip.{charge, settle-release-reserve}

abbrev pub budget_row : ℕ → String → ℕ → ℕ → Budget
budget_row id scope limit reserved = record {
  id = id;
  scope = scope;
  window_start = 0;
  window_end = none;
  hard_limit = pos limit;
  spent = pos 0;
  reserved = pos reserved;
}

-- One attempt of an earlier request holds five of the client's budget.
abbrev pub old_row : BudgetReservation
old_row = record {
  id = 1;
  request_id = "req_0";
  attempt_id = some "att_req_0_1";
  budget_id = 2;
  reserved_amount = pos 5;
  settled_amount = none;
  status = ReservationStatus.active;
  expires_at = 900;
  resolved_at = none;
}

abbrev pub two_budgets : Ledger
two_budgets = record {
  budgets = budget_row 1 "global" 100 0 ∷ budget_row 2 "client:alice" 50 5 ∷ [];
  reservations = old_row ∷ [];
  next_id = 2;
}

abbrev pub two_budgets-IsConsistent : IsConsistent two_budgets
unfolding ◌+ℤ◌
two_budgets-IsConsistent = record {
  balanced = (refl, (refl, tt));
  amounts = (omega arith, tt);
  ids = (omega arith, tt);
  distinct = (refl, tt);
}

abbrev pub two_budgets-Distinct : Distinct (1 ∷ 2 ∷ [])
two_budgets-Distinct = (refl, (refl, tt))

abbrev pub request : ReserveRequest
request = record {
  request_id = "req_1";
  attempt_id = "att_req_1_1";
  scopes = "global" ∷ "client:alice" ∷ [];
  estimate = pos 10;
  request_cost_so_far = pos 0;
  effective_max_cost = some (pos 40);
  at = 100;
  ttl = 900;
}

abbrev no_reservation : Reservation
no_reservation = record {
  request_id = "";
  attempt_id = "";
  amount = pos 0;
  reservation_ids = [];
  budget_ids = [];
  expires_at = 0;
}

abbrev granted_or : Result (Reservation × Ledger) → Reservation × Ledger
granted_or (ok p) = p
granted_or (err e) = (no_reservation, two_budgets)

abbrev granted : Reservation × Ledger
unfolding reserve
granted = granted_or (reserve request two_budgets)

is_granted : reserve request two_budgets ≡ ok granted
unfolding reserve ◌+ℤ◌ lock_budgets in_lock_order applicable insert_locked locks_before headroom
    ◌-ℤ◌
is_granted = refl

abbrev later : Resolution
later = record { status = ReservationStatus.settled; settled = pos 7; now = 200 }

abbrev late_release : Resolution
late_release = record { status = ReservationStatus.released; settled = pos 0; now = 300 }

test_reserved :
    granted.1.budgets ≡ budget_row 1 "global" 100 10 ∷ budget_row 2 "client:alice" 50 15 ∷ []
unfolding ◌+ℤ◌ ◌-ℤ◌ reserve lock_budgets in_lock_order applicable insert_locked locks_before
    headroom hold_all hold_one update_budget
test_reserved = refl

reserve_iff_example :
    ((r : Reservation) × (l' : Ledger) × (reserve request two_budgets ≡ ok (r, l')))
    ↔ (UnderCeiling request × AllHaveRoom request.scopes 100 (pos 10) two_budgets.budgets)
reserve_iff_example = reserve_iff request two_budgets

resolve_once_example :
    resolve granted.0 late_release (resolve granted.0 later granted.1)
    ≡ resolve granted.0 later granted.1
resolve_once_example = resolve_once granted.0 later late_release granted.1 refl

settle-release-reserve_example :
    ((settle granted.0 (pos 7) 200 granted.1).budgets
      ≡ update_where (applicable request.scopes 100) (charge (pos 7)) two_budgets.budgets)
    × ((release granted.0 200 granted.1).budgets ≡ two_budgets.budgets)
settle-release-reserve_example =
    settle-release-reserve request two_budgets (pos 7) 200 two_budgets-IsConsistent
      two_budgets-Distinct is_granted
