-- ===== src/Examples/Runs.antt =====
-- Runs over two candidates: the first has no adapter, and the second answers with a valid text.
use llm_token_balancing_gate.Prelude.{
  ℕ, String, ◌≡◌, refl, true, false, Option, none, some, [], ◌∷◌, pos, ◌+ℤ◌, ◌-ℤ◌, arith, ltb,
  if◌then◌else◌,
}
use Prim.Native.String.{len}
use llm_token_balancing_gate.Domain.Enums.{RequestState, AttemptKind, ValidationResult}
use llm_token_balancing_gate.Domain.Routing.{Candidate, RoutePlan}
use llm_token_balancing_gate.Persistence.{Database}
use llm_token_balancing_gate.Budget.{
  lock_budgets, in_lock_order, applicable, insert_locked, locks_before, headroom,
}
use llm_token_balancing_gate.Resilience.{CircuitBreaker}
use llm_token_balancing_gate.Providers.{ProviderInvocation, Reply}
use llm_token_balancing_gate.Validators.{ValidationOutcome}
use llm_token_balancing_gate.Orchestrator.{Moment, Setting, ValidatorInput, AttemptArgs, attempt}
use llm_token_balancing_gate.Orchestrator.Effects.{db_of}
use llm_token_balancing_gate.Orchestrator.Charges.{Charges, cost_of, attempt-Charges}
use llm_token_balancing_gate.Lifecycle.{Run, Ended, start, run}
use llm_token_balancing_gate.Lifecycle.Termination.{run-ends}
use llm_token_balancing_gate.Lifecycle.Outcome.{
  IsPersisted, run-IsPersisted, IsValidated, run-IsValidated,
}
use llm_token_balancing_gate.Lifecycle.Spending.{
  IsCounted, EndsUnderCeiling, run-IsCounted, run-IsUnderCeiling,
}
use llm_token_balancing_gate.Lifecycle.Funds.{IsUnheld, run-IsUnheld}
use llm_token_balancing_gate.Examples.Ledgers.{
  two_budgets, two_budgets-IsConsistent, two_budgets-Distinct,
}
use llm_token_balancing_gate.Examples.Routes.{request}

abbrev pub candidate : String → String → ℕ → Candidate
candidate model provider rank = record {
  model_id = model;
  provider = provider;
  rank = rank;
  estimated_cost = pos 10;
  effective_cost = pos 12;
  predicted_latency_ms = 800;
}

abbrev pub plan : RoutePlan
plan = record {
  policy_id = "default";
  policy_version = 1;
  registry_snapshot_at = 0;
  candidates = candidate "missing/m" "missing" 1 ∷ candidate "fake/m" "fake" 2 ∷ [];
  excluded = [];
  validation_plan = "short" ∷ [];
  max_generation_attempts = 3;
  max_same_model_repairs = 1;
  estimated_route_upper_bound = pos 20;
  deadline_at = 60_000_000;
  rationale_codes = [];
}

-- A text of fewer than ten bytes is valid.
abbrev pub short : ValidatorInput → Option ValidationOutcome
short i = some (record {
  validator = "short";
  result =
      if ltb (len i.candidate.text) 10
      then ValidationResult.pass
      else ValidationResult.fail_repairable;
  detail_codes = [];
  required = true;
  duration_ms = none;
  repair_hint = none;
})

abbrev pub setting : Setting
setting = record {
  adapters = "fake" ∷ [];
  validators = ("short", short) ∷ [];
  retry_policy = record { base_delay_ms = 250; max_delay_ms = 8000; multiplier = 2 };
  digest = λ t. t;
  request = request;
  plan = plan;
  scopes = "global" ∷ "client:alice" ∷ [];
  deadline_at = 60_000_000;
}

abbrev pub answer : ProviderInvocation → Reply
answer i = Reply.completed (record {
  text = "hello";
  finish_reason = "stop";
  usage = record { prompt_tokens = some 100; completion_tokens = some 2 };
  model_id = i.gateway_model_id;
  latency_ms = 700;
  emitted_output = false;
})

abbrev pub moment : Moment
moment = record {
  checked_at = 100;
  breaker_at = 100;
  started_at = 100;
  reserved_at = 110;
  invoked_at = 120;
  reply = answer;
  resolved_at = 700_000;
  finished_at = 700_010;
  failed_at = 700_020;
  retry_checked_at = 700_030;
  retry_breaker_at = 700_040;
  uniform = λ c. c;
  is_wait_cancelled = false;
}

abbrev pub database : Database
database = record {
  ledger = two_budgets;
  requests =
      record {
        id = "req_1";
        client_id = "alice";
        state = RequestState.ready;
        terminal_reason = none;
        deadline_at = 60_000_000;
      }
      ∷ [];
  attempts = [];
  validations = [];
}

abbrev pub breaker : CircuitBreaker
breaker = record { failure_threshold = 5; cooldown = 30_000_000; states = [] }

abbrev run_or_start : Option Ended → Run
run_or_start (some (Ended.finished s)) = s
run_or_start _ = start setting database breaker

abbrev final : Run
unfolding run
final = run_or_start (run setting (λ _. moment) database breaker)

final-run : run setting (λ _. moment) database breaker ≡ some (Ended.finished final)
unfolding run ◌+ℤ◌ lock_budgets in_lock_order applicable insert_locked locks_before headroom ◌-ℤ◌
final-run = refl

abbrev args : AttemptArgs
args = record {
  candidate = candidate "fake/m" "fake" 2;
  sequence = 1;
  kind = AttemptKind.escalation;
  is_repair = false;
  cost_so_far = pos 0;
}

run-ends_example : (e : Ended) × (run setting (λ _. moment) database breaker ≡ some e)
run-ends_example = run-ends setting (λ _. moment) database breaker

run-IsUnheld_example : IsUnheld two_budgets.budgets final.db.ledger
run-IsUnheld_example =
    run-IsUnheld setting (λ _. moment) database breaker two_budgets-IsConsistent
      two_budgets-Distinct (omega arith, (omega arith, tt)) final-run

run-IsUnderCeiling_example : EndsUnderCeiling setting (Ended.finished final)
run-IsUnderCeiling_example =
    run-IsUnderCeiling setting (λ _. moment) database breaker (omega arith) final-run

run-IsCounted_example : IsCounted setting final
run-IsCounted_example = run-IsCounted setting (λ _. moment) database breaker final-run

run-IsPersisted_example : IsPersisted setting database.requests (Ended.finished final)
run-IsPersisted_example = run-IsPersisted setting (λ _. moment) database breaker final-run

run-IsValidated_example : IsValidated setting final
unfolding final ◌+ℤ◌ lock_budgets in_lock_order applicable insert_locked locks_before headroom ◌-ℤ◌
run-IsValidated_example = run-IsValidated setting (λ _. moment) database breaker final-run refl

attempt-Charges_example :
    Charges setting moment two_budgets
      (db_of (attempt setting moment args database)).ledger
      (cost_of (attempt setting moment args database))
attempt-Charges_example =
    attempt-Charges setting moment args database two_budgets-IsConsistent two_budgets-Distinct
      (omega arith)
