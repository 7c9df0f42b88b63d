-- ===== src/Examples/Recovery.antt =====
-- A database after a crash: one attempt was in flight, with a hold on each of two budgets.
use llm_token_balancing_gate.Prelude.{
  ℕ, String, ◌≡◌, refl, false, none, some, List, [], ◌∷◌, pos, ◌+ℤ◌, arith,
}
use llm_token_balancing_gate.Domain.Enums.{RequestState, AttemptKind, ReservationStatus}
use llm_token_balancing_gate.Budget.{BudgetReservation, Ledger, update_budget}
use llm_token_balancing_gate.Budget.Held.{IsConsistent}
use llm_token_balancing_gate.Persistence.{Request, Attempt, Database}
use llm_token_balancing_gate.Reconciler.{
  empty_report, return_hold, reconcile_one, reconcile_all, reconcile_reservations,
}
use llm_token_balancing_gate.Reconciler.Pass.{reconcile_reservations-IsConsistent}
use llm_token_balancing_gate.Reconciler.Ambiguous.{charged_once}
use llm_token_balancing_gate.Reconciler.Stale.{DistinctRequests}
use llm_token_balancing_gate.Examples.Ledgers.{budget_row}

abbrev hold_row : ℕ → ℕ → BudgetReservation
hold_row id budget_id = record {
  id = id;
  request_id = "req_1";
  attempt_id = some "att_req_1_1";
  budget_id = budget_id;
  reserved_amount = pos 10;
  settled_amount = none;
  status = ReservationStatus.active;
  expires_at = 1000;
  resolved_at = none;
}

abbrev crashed_ledger : Ledger
crashed_ledger = record {
  budgets = budget_row 1 "global" 100 10 ∷ budget_row 2 "client:alice" 50 10 ∷ [];
  reservations = hold_row 1 1 ∷ hold_row 2 2 ∷ [];
  next_id = 3;
}

abbrev crashed_ledger-IsConsistent : IsConsistent crashed_ledger
unfolding ◌+ℤ◌
crashed_ledger-IsConsistent = record {
  balanced = (refl, (refl, tt));
  amounts = (omega arith, (omega arith, tt));
  ids = (omega arith, (omega arith, tt));
  distinct = (refl, (refl, tt));
}

abbrev open_request : String → RequestState → Request
open_request id state = record {
  id = id;
  client_id = "alice";
  state = state;
  terminal_reason = none;
  deadline_at = 500;
}

abbrev two_requests : List Request
two_requests =
    open_request "req_1" RequestState.invoking ∷ open_request "req_2" RequestState.succeeded ∷ []

abbrev two_requests-Distinct : DistinctRequests two_requests
two_requests-Distinct = (refl, (refl, tt))

abbrev in_flight_attempt : Attempt
in_flight_attempt = record {
  id = "att_req_1_1";
  request_id = "req_1";
  sequence = 1;
  model_id = "openai/small";
  route_rank = 1;
  attempt_kind = AttemptKind.generation;
  emitted_output = false;
  outcome = none;
  error_code = none;
  finish_reason = none;
  prompt_tokens = none;
  completion_tokens = none;
  cost_estimated = pos 10;
  cost_actual = none;
  started_at = 90;
  finished_at = none;
  latency_ms = none;
  output_hash = none;
}

abbrev crashed : Database
crashed = record {
  ledger = crashed_ledger;
  requests = two_requests;
  attempts = in_flight_attempt ∷ [];
  validations = [];
}

reconcile_reservations-IsConsistent_example :
    IsConsistent (reconcile_reservations 2000 100 crashed).1.ledger
reconcile_reservations-IsConsistent_example =
    reconcile_reservations-IsConsistent 2000 100 crashed crashed_ledger-IsConsistent

charged_once_example :
    (reconcile_one 2000
      (hold_row 2 2)
      (reconcile_one 2000 (hold_row 1 1) (empty_report, crashed))).1.ledger.budgets
    ≡ update_budget 2
        (return_hold false (pos 10))
        (reconcile_one 2000 (hold_row 1 1) (empty_report, crashed)).1.ledger.budgets
unfolding reconcile_one reconcile_all update_budget
charged_once_example =
    charged_once 2000 (hold_row 1 1) (hold_row 2 2) [] (empty_report, crashed) refl refl refl
