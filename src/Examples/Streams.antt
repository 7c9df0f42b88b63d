-- ===== src/Examples/Streams.antt =====
-- Streams of one provider: two deltas, and then the end, a lost client, or an unexpected exception.
use llm_token_balancing_gate.Prelude.{◌≡◌, refl, true, none, some, [], ◌∷◌, pos, ◌+ℤ◌, ◌-ℤ◌, arith}
use llm_token_balancing_gate.Budget.{
  Ledger, Result, ok, err, Reservation, reserve, lock_budgets, in_lock_order, applicable,
  insert_locked, locks_before, headroom,
}
use llm_token_balancing_gate.Providers.{ProviderInvocation}
use llm_token_balancing_gate.Orchestrator.{Setting, reserve_request}
use llm_token_balancing_gate.Lifecycle.{Run, start}
use llm_token_balancing_gate.Lifecycle.Induction.{run_of}
use llm_token_balancing_gate.Lifecycle.Funds.{IsUnheld}
use llm_token_balancing_gate.Streaming.{
  Stream, StreamEnd, crashed, cancelled, deltas_of, first_args, streamed, passthrough,
}
use llm_token_balancing_gate.Streaming.Funds.{ledger_of, passthrough-IsUnheld}
use llm_token_balancing_gate.Streaming.Visible.{IsFinalEnd, passthrough-IsFinalEnd, crash-Uncharged}
use llm_token_balancing_gate.Examples.Ledgers.{
  two_budgets, two_budgets-IsConsistent, two_budgets-Distinct,
}
use llm_token_balancing_gate.Examples.Runs.{candidate, plan, setting, moment, database, breaker}

abbrev served : Setting
served = record setting { plan = record plan { candidates = candidate "fake/m" "fake" 1 ∷ [] } }

abbrev stream_to : StreamEnd → ProviderInvocation → Stream
stream_to end i = record {
  chunks =
      record { delta = "hel"; finish_reason = none }
      ∷ record { delta = "lo"; finish_reason = some "stop" }
      ∷ [];
  end = end;
}

passthrough-IsUnheld_example :
    IsUnheld two_budgets.budgets
      (ledger_of (passthrough served moment 500 (stream_to cancelled) database breaker))
passthrough-IsUnheld_example =
    passthrough-IsUnheld served moment 500 (stream_to cancelled) database breaker
      two_budgets-IsConsistent two_budgets-Distinct (omega arith, tt)

passthrough-IsFinalEnd_example :
    IsFinalEnd
      (passthrough served moment 500 (stream_to cancelled) database breaker)
      (passthrough served moment 500 (stream_to cancelled) database breaker).ended
unfolding passthrough deltas_of ◌+ℤ◌ ◌-ℤ◌ reserve lock_budgets in_lock_order applicable
    insert_locked locks_before headroom
passthrough-IsFinalEnd_example =
    passthrough-IsFinalEnd served moment 500 (stream_to cancelled) database breaker refl

abbrev first : Run
first = start served database breaker

abbrev no_reservation : Reservation × Ledger
no_reservation = (
  record {
    request_id = "";
    attempt_id = "";
    amount = pos 0;
    reservation_ids = [];
    budget_ids = [];
    expires_at = 0;
  },
  two_budgets,
)

abbrev granted_or : Result (Reservation × Ledger) → Reservation × Ledger
granted_or (ok p) = p
granted_or (err e) = no_reservation

abbrev granted : Reservation × Ledger
unfolding reserve
granted =
    granted_or (
      reserve (reserve_request served moment (first_args (candidate "fake/m" "fake" 1)))
        two_budgets)

crash-Uncharged_example :
    ((ledger_of (
        streamed served moment
          (candidate "fake/m" "fake" 1)
          500
          (stream_to crashed)
          (ok granted)
          first)).budgets
      ≡ two_budgets.budgets)
    × ((run_of
          (streamed served moment
            (candidate "fake/m" "fake" 1)
            500
            (stream_to crashed)
            (ok granted)
            first).ended).db.requests
        ≡ database.requests)
    × ((streamed served moment
          (candidate "fake/m" "fake" 1)
          500
          (stream_to crashed)
          (ok granted)
          first).raises
        ≡ true)
unfolding reserve lock_budgets in_lock_order applicable insert_locked locks_before headroom ◌+ℤ◌
    ◌-ℤ◌
crash-Uncharged_example =
    crash-Uncharged served moment (candidate "fake/m" "fake" 1) 500 (stream_to crashed) first
      two_budgets-IsConsistent two_budgets-Distinct (omega arith) refl refl
