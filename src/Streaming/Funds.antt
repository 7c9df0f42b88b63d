-- ===== src/Streaming/Funds.antt =====
-- The ledger over a streamed run of src/gateway/services/orchestrator.py.
use llm_token_balancing_gate.Prelude.{
  ℕ, String, Option, none, some, ◌≡◌, refl, sym, ap, ◌∙◌, subst, ◌⊎◌, inl, inr, Bool, true, false,
  not, List, [], ◌∷◌, Distinct, All, if◌then◌else◌, map, str_elem, pos, ◌≤ℤ◌, arith,
}
use llm_token_balancing_gate.Domain.Enums.{RequestState}
use llm_token_balancing_gate.Domain.Requests.{non_empty}
use llm_token_balancing_gate.Domain.Routing.{Candidate}
use llm_token_balancing_gate.Persistence.{Database}
use llm_token_balancing_gate.Budget.{Ledger, Reservation, Result, ok, err, reserve, budget_ids_of}
use llm_token_balancing_gate.Budget.Held.{IsConsistent}
use llm_token_balancing_gate.Resilience.{CircuitBreaker}
use llm_token_balancing_gate.Providers.{ProviderInvocation, ProviderResult}
use llm_token_balancing_gate.Validators.{ValidationReport}
use llm_token_balancing_gate.Attempts.{record_attempt, finish_attempt, persist_validations}
use llm_token_balancing_gate.Orchestrator.{Moment, Setting, resolve_hold, reserve_request, validate}
use llm_token_balancing_gate.Orchestrator.Charges.{Charges, resolve_hold-Charges, cost_nonneg}
use llm_token_balancing_gate.Lifecycle.{Run, terminal, start}
use llm_token_balancing_gate.Lifecycle.Induction.{run_of}
use llm_token_balancing_gate.Lifecycle.Funds.{but_spent, update_where-but_spent, IsUnheld}
use llm_token_balancing_gate.Streaming.{
  Stream, StreamEnd, used_up, failed, cancelled, crashed, Streamed, deltas_of, end_cost, first_args,
  stream_invocation, close_stream, without_failure, first_row, assembled, reported, with_stream,
  after_stream, by_end, streamed, first_candidate, passthrough,
}

-- The ledger that a streamed run leaves.
abbrev pub ledger_of : Streamed → Ledger
ledger_of x = (run_of x.ended).db.ledger

module _ (w : Setting) (m : Moment) (c : Candidate) (latency_ms : ℕ) where
  reported-ledger :
      (deltas : List String) (result : ProviderResult) (o : Option ValidationReport) (s : Run)
      → ledger_of (reported w m deltas c result o s) ≡ s.db.ledger
  unfolding with_stream terminal persist_validations
  reported-ledger deltas result none s = refl
  reported-ledger deltas result (some report) s = ground arith

  by_end-ledger :
      (stream : Stream) (e : StreamEnd) (s : Run)
      → ledger_of (by_end w m c latency_ms stream e s) ≡ s.db.ledger
  unfolding after_stream with_stream terminal persist_validations
  by_end-ledger stream used_up s =
      let result = assembled w m c latency_ms stream.chunks in
      reported-ledger (deltas_of stream.chunks) result (validate w m (first_args c) result) s
  by_end-ledger stream (failed f) s = ground arith
  by_end-ledger stream cancelled s = refl
  by_end-ledger stream crashed s = refl

  end_cost-cases :
      (e : StreamEnd) (emitted : Bool)
      → (end_cost e emitted c.estimated_cost ≡ pos 0)
        ⊎ (end_cost e emitted c.estimated_cost ≡ c.estimated_cost)
  end_cost-cases used_up emitted = inr refl
  end_cost-cases (failed f) true = inr refl
  end_cost-cases (failed f) false = inl refl
  end_cost-cases cancelled true = inr refl
  end_cost-cases cancelled false = inl refl
  end_cost-cases crashed emitted = inl refl

  -- Once the reservation was granted, the ledger is charged what the finally block settles.
  pub granted-Charges :
      (l : Ledger) {r : Reservation} {l' : Ledger} (stream : Stream) (s : Run)
      → IsConsistent l
      → Distinct (budget_ids_of l.budgets)
      → pos 0 ≤ℤ c.estimated_cost
      → reserve (reserve_request w m (first_args c)) l ≡ ok (r, l')
      → s.db.ledger ≡ l'
      → Charges w m l
          (ledger_of (by_end w m c latency_ms stream stream.end (close_stream w m c r stream s)))
          (end_cost stream.end (non_empty (deltas_of stream.chunks)) c.estimated_cost)
  unfolding close_stream finish_attempt
  granted-Charges l {r} {l'} stream s k d est h e =
      let settled = end_cost stream.end (non_empty (deltas_of stream.chunks)) c.estimated_cost in
      subst (λ x. Charges w m l x settled)
        (sym (
          by_end-ledger stream stream.end (close_stream w m c r stream s)
          ∙ ap (resolve_hold r settled m.resolved_at) e))
        (resolve_hold-Charges w m (first_args c) l settled k d est
          (cost_nonneg w m (first_args c) est
            (end_cost-cases stream.end (non_empty (deltas_of stream.chunks))))
          h)

  streamed-IsUnheld :
      (provider : ProviderInvocation → Stream) (o : Result (Reservation × Ledger)) (s : Run)
      → reserve (reserve_request w m (first_args c)) s.db.ledger ≡ o
      → IsConsistent s.db.ledger
      → Distinct (budget_ids_of s.db.ledger.budgets)
      → pos 0 ≤ℤ c.estimated_cost
      → IsUnheld s.db.ledger.budgets (ledger_of (streamed w m c latency_ms provider o s))
  unfolding streamed terminal finish_attempt
  streamed-IsUnheld provider (ok (r, l)) s h k d est =
      let stream = provider (stream_invocation w m c) in
      let x =
        granted-Charges s.db.ledger stream (record s { db = record s.db { ledger = l } }) k d est h
          refl in
      record {
        consistent = x.consistent;
        same = ap (map but_spent) x.budgets ∙ update_where-but_spent _ _ s.db.ledger.budgets;
      }
  streamed-IsUnheld provider (err e) s h k d est = record { consistent = k; same = refl }

module _ (w : Setting) (m : Moment) (latency_ms : ℕ) (provider : ProviderInvocation → Stream) where
  first_candidate-IsUnheld :
      (cs : List Candidate) (s : Run)
      → IsConsistent s.db.ledger
      → Distinct (budget_ids_of s.db.ledger.budgets)
      → All (λ c. pos 0 ≤ℤ c.estimated_cost) cs
      → IsUnheld s.db.ledger.budgets (ledger_of (first_candidate w m cs latency_ms provider s))
  unfolding terminal record_attempt
  first_candidate-IsUnheld [] s k d est = record { consistent = k; same = refl }
  first_candidate-IsUnheld (c ∷ cs) s k d est = served (not (str_elem c.provider w.adapters))
    where
      served :
          (t : Bool)
          → IsUnheld s.db.ledger.budgets (
              ledger_of (
                if t
                then without_failure [] (terminal w RequestState.failed_exhausted "no_adapter" s)
                else streamed w m c latency_ms provider
                    (reserve (reserve_request w m (first_args c)) (first_row w m c s.db).ledger)
                    (record s { db = first_row w m c s.db })))
      served true = record { consistent = k; same = refl }
      served false = streamed-IsUnheld w m c latency_ms provider _ _ refl k d est.0

-- A streamed run strands no money, however the stream ends, a client that went away and an unexpected
-- exception included: the ledger stays consistent, and every budget holds in reserve exactly what it
-- held before. The budgets' ids are distinct, and no candidate's estimate is negative.
pub passthrough-IsUnheld :
    (w : Setting) (m : Moment) (latency_ms : ℕ) (provider : ProviderInvocation → Stream)
    (db : Database) (breaker : CircuitBreaker)
    → IsConsistent db.ledger
    → Distinct (budget_ids_of db.ledger.budgets)
    → All (λ c. pos 0 ≤ℤ c.estimated_cost) w.plan.candidates
    → IsUnheld db.ledger.budgets (ledger_of (passthrough w m latency_ms provider db breaker))
unfolding passthrough
passthrough-IsUnheld w m latency_ms provider db breaker k d est =
    first_candidate-IsUnheld w m latency_ms provider w.plan.candidates (start w db breaker) k d est
