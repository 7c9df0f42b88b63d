-- ===== src/Examples/Calls.antt =====
-- Whole calls of `_run` over the registry of Plans.antt and the providers of Runs.antt.
use llm_token_balancing_gate.Prelude.{refl, true, some, [], arith, ◌+ℤ◌}
use llm_token_balancing_gate.Domain.Requests.{CanonicalRequest}
use llm_token_balancing_gate.Idempotency.{find, claim}
use llm_token_balancing_gate.Prelude.Sort.{sort}
use llm_token_balancing_gate.Policy.{evaluate}
use llm_token_balancing_gate.Registry.{snapshot}
use llm_token_balancing_gate.Classifier.{classify}
use llm_token_balancing_gate.Planning.{build_plan, planned_floor, active_for, validation_plan_for}
use llm_token_balancing_gate.Router.Plan.{plan}
use llm_token_balancing_gate.Lifecycle.{run}
use llm_token_balancing_gate.Lifecycle.Funds.{IsUnheld}
use llm_token_balancing_gate.Generation.{Stores, Clocks, generate}
use llm_token_balancing_gate.Generation.Settled.{IsOrderly, generate-IsOrderly}
use llm_token_balancing_gate.Generation.Repeated.{Repeats, generate-again}
use llm_token_balancing_gate.Generation.Funds.{generate-IsUnheld}
use llm_token_balancing_gate.Examples.Ledgers.{
  two_budgets, two_budgets-IsConsistent, two_budgets-Distinct,
}
use llm_token_balancing_gate.Examples.Routes.{request}
use llm_token_balancing_gate.Examples.Plans.{fixed, tables, silent, policies}
use llm_token_balancing_gate.Examples.Runs.{setting, moment, database, breaker}

abbrev keyed : CanonicalRequest
keyed = record request { request_id = "req_2"; idempotency_key = some "k1" }

abbrev stores : Stores
stores = record { db = database; records = record { rows = []; next_id = 7 }; breaker = breaker }

abbrev clocks : Clocks
clocks = record {
  received_at = 0;
  claimed_at = 1;
  taken_at = 20;
  planned_at = 21;
  moments = λ _. moment;
}

generate-IsOrderly_example :
    IsOrderly "req_2" stores
      (generate fixed silent tables policies setting true keyed clocks stores)
generate-IsOrderly_example =
    generate-IsOrderly fixed silent tables policies setting keyed clocks stores true

generate-IsUnheld_example :
    IsUnheld two_budgets.budgets
      (generate fixed silent tables policies setting true keyed clocks stores).1.db.ledger
generate-IsUnheld_example =
    generate-IsUnheld fixed silent tables policies setting keyed clocks stores
      two_budgets-IsConsistent two_budgets-Distinct true

-- The same client comes again with the key, in another request.
abbrev keyed_again : CanonicalRequest
keyed_again = record request { request_id = "req_3"; idempotency_key = some "k1" }

abbrev later : Clocks
later = record clocks { claimed_at = 100 }

generate-again_example :
    Repeats
      (generate fixed silent tables policies setting true keyed clocks stores).0
      (generate fixed silent tables policies setting true keyed_again later
        (generate fixed silent tables policies setting true keyed clocks stores).1).0
unfolding find generate claim run build_plan plan sort evaluate snapshot classify planned_floor
    active_for validation_plan_for ◌+ℤ◌
generate-again_example =
    generate-again fixed silent tables policies setting keyed keyed_again clocks later stores "k1"
      refl refl refl refl refl refl refl (omega arith) refl
