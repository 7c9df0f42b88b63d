-- ===== src/Reconciler.antt =====
-- src/gateway/services/reconciler.py: what is done about reservations and requests that a stopped process
-- left behind. One call is one transaction on the database.
pub mod Consistency
pub mod Ambiguous
pub mod Orphans
pub mod Pass
pub mod Stale
use llm_token_balancing_gate.Prelude.{
  ℕ, ◌+◌, String, Bool, true, false, not, ◌&&◌, ◌||◌, Option, none, some, List, [], ◌∷◌, ltb, leb,
  ◌==◌, if◌then◌else◌, is_some, keep, map, ℤ, pos, ◌+ℤ◌, ◌-ℤ◌, length,
}
use llm_token_balancing_gate.Domain.Enums.{
  RequestState, AttemptOutcome, ReservationStatus, is_terminal,
}
use llm_token_balancing_gate.Budget.{
  Budget, BudgetReservation, Ledger, update_budget, has_budget, clamp_zero, expire_orphans,
}
use llm_token_balancing_gate.Persistence.{
  Database, Attempt, Request, IdempotencyRecord, get_attempt, update_attempt, get_request,
  update_request,
}

pub record ReconciliationReport : Type 0 where
  pub released : ℕ
  pub settled_ambiguous : ℕ
  pub idempotency_purged : ℕ

-- `ReconciliationReport.total`
abbrev pub total : ReconciliationReport → ℕ
total r = r.released + r.settled_ambiguous

-- The second part of `_attempt_started`: the provider may have been called.
abbrev pub in_flight : Option Attempt → Bool
in_flight none = false
in_flight (some a) = not (is_some a.outcome)

unfoldable pub attempt_ambiguous : List Attempt → Option String → Bool
attempt_ambiguous attempts none = false
attempt_ambiguous attempts (some k) = in_flight (get_attempt k attempts)

-- The row with this id is changed.
unfoldable pub update_reservation :
    ℕ → (BudgetReservation → BudgetReservation) → List BudgetReservation → List BudgetReservation
update_reservation k f [] = []
update_reservation k f (r ∷ rows) = (if r.id == k then f r else r) ∷ update_reservation k f rows

-- `budget.reserved = max(budget.reserved - amount, 0)`, and in the ambiguous case the charge.
abbrev pub return_hold : Bool → ℤ → Budget → Budget
return_hold ambiguous amount b = record b {
  reserved = clamp_zero (b.reserved -ℤ amount);
  spent = if ambiguous then b.spent +ℤ amount else b.spent;
}

abbrev pub reconciled_row : Bool → ℕ → BudgetReservation → BudgetReservation
reconciled_row ambiguous now r = record r {
  settled_amount = some (if ambiguous then r.reserved_amount else pos 0);
  status = if ambiguous then ReservationStatus.expired else ReservationStatus.released;
  resolved_at = some now;
}

abbrev pub abandon : Attempt → Attempt
abandon a = record a { outcome = some AttemptOutcome.cancelled; error_code = some "abandoned" }

abbrev pub abandon_attempt : Option String → List Attempt → List Attempt
abandon_attempt none attempts = attempts
abandon_attempt (some k) attempts = update_attempt k abandon attempts

abbrev pub count_row : Bool → ReconciliationReport → ReconciliationReport
count_row ambiguous t =
    if ambiguous
    then record t { settled_ambiguous = t.settled_ambiguous + 1 }
    else record t { released = t.released + 1 }

abbrev pub Pass : Type 0
Pass = ReconciliationReport × Database

-- One round of the loop, once the budget has been found.
unfoldable pub reconcile_found : ℕ → BudgetReservation → Bool → Pass → Pass
unfolding update_reservation
reconcile_found now r ambiguous (t, db) = (
  count_row ambiguous t,
  record db {
    ledger = record db.ledger {
      budgets =
          update_budget r.budget_id (return_hold ambiguous r.reserved_amount) db.ledger.budgets;
      reservations = update_reservation r.id (reconciled_row ambiguous now) db.ledger.reservations;
    };
    attempts = if ambiguous then abandon_attempt r.attempt_id db.attempts else db.attempts;
  },
)

unfoldable pub reconcile_one : ℕ → BudgetReservation → Pass → Pass
unfolding reconcile_found attempt_ambiguous
reconcile_one now r (t, db) =
    if has_budget r.budget_id db.ledger.budgets
    then reconcile_found now r (attempt_ambiguous db.attempts r.attempt_id) (t, db)
    else (t, db)

unfoldable pub reconcile_all : ℕ → List BudgetReservation → Pass → Pass
unfolding reconcile_one
reconcile_all now [] p = p
reconcile_all now (r ∷ rows) p = reconcile_all now rows (reconcile_one now r p)

abbrev pub empty_report : ReconciliationReport
empty_report = record { released = 0; settled_ambiguous = 0; idempotency_purged = 0 }

unfoldable pub reconcile_reservations : ℕ → ℕ → Database → Pass
unfolding reconcile_all expire_orphans
reconcile_reservations now limit db =
    reconcile_all now (expire_orphans now limit db.ledger) (empty_report, db)

-- The records past their retention are deleted, and counted.
unfoldable pub purge_expired_idempotency : ℕ → List IdempotencyRecord → ℕ × List IdempotencyRecord
purge_expired_idempotency now records =
    (length (keep (λ r. leb r.expires_at now) records), keep (λ r. ltb now r.expires_at) records)

unfoldable pub is_stale : ℕ → Request → Bool
is_stale now r = leb r.deadline_at now && not (is_terminal r.state)

unfoldable pub stale_requests : ℕ → List Request → List String
unfolding is_stale
stale_requests now rows = map (λ r. r.id) (keep (is_stale now) rows)

abbrev pub expire : Request → Request
expire r = record r {
  state = RequestState.expired;
  terminal_reason = some "deadline_exceeded_reconciled";
}

unfoldable pub expire_each : List String → List Request → List Request
expire_each [] rows = rows
expire_each (k ∷ ks) rows = expire_each ks (update_request k expire rows)

unfoldable pub expire_stale_requests : ℕ → List Request → ℕ × List Request
unfolding stale_requests expire_each
expire_stale_requests now rows =
    let ids = stale_requests now rows in (length ids, expire_each ids rows)
