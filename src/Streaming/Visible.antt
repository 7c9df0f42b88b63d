-- ===== src/Streaming/Visible.antt =====
-- A streamed run of src/gateway/services/orchestrator.py once output was visible.
use llm_token_balancing_gate.Prelude.{
  ℕ, String, Option, none, some, ◌≡◌, refl, ap, ◌∙◌, subst, ◌⊎◌, inl, inr, Bool, true, false, not,
  List, [], ◌∷◌, Distinct, if◌then◌else◌, str_elem, pos, ◌≤ℤ◌, arith,
}
use llm_token_balancing_gate.Domain.Enums.{RequestState}
use llm_token_balancing_gate.Domain.Requests.{non_empty}
use llm_token_balancing_gate.Domain.Routing.{Candidate}
use llm_token_balancing_gate.Persistence.{Database}
use llm_token_balancing_gate.Budget.{Ledger, Reservation, Result, ok, err, reserve, budget_ids_of}
use llm_token_balancing_gate.Budget.Held.{IsConsistent}
use llm_token_balancing_gate.Budget.RoundTrip.{charge_nothing}
use llm_token_balancing_gate.Resilience.{CircuitBreaker, record_success}
use llm_token_balancing_gate.Providers.{ProviderInvocation}
use llm_token_balancing_gate.Providers.{ProviderResult}
use llm_token_balancing_gate.Validators.{ValidationReport, passed}
use llm_token_balancing_gate.Attempts.{finish_attempt}
use llm_token_balancing_gate.Orchestrator.{Moment, Setting, reserve_request, validate}
use llm_token_balancing_gate.Lifecycle.{Run, Ended, terminal, start}
use llm_token_balancing_gate.Lifecycle.Induction.{run_of}
use llm_token_balancing_gate.Streaming.{
  Stream, StreamEnd, used_up, failed, cancelled, crashed, Streamed, deltas_of, end_cost, first_args,
  stream_invocation, close_stream, without_failure, assembled, reported, verdict_on, with_stream,
  first_row, after_stream, by_end, streamed, first_candidate, passthrough,
}
use llm_token_balancing_gate.Streaming.Funds.{ledger_of, granted-Charges}

-- The ends that are left once output was visible.
abbrev pub IsFinalEnd : Streamed → Ended → Type 0
IsFinalEnd x (Ended.finished s) =
    (s.outcome.state ≡ RequestState.succeeded)
    ⊎ ((s.outcome.state ≡ RequestState.failed_partial) ⊎ (s.outcome.state ≡ RequestState.cancelled))
IsFinalEnd x (Ended.cancelled s) = x.raises ≡ true
IsFinalEnd x (Ended.raised cost s) = x.raises ≡ true

either_end :
    (t : Bool) (x y : Streamed)
    → IsFinalEnd x x.ended
    → IsFinalEnd y y.ended
    → IsFinalEnd (if t then x else y) (if t then x else y).ended
either_end true x y h k = h
either_end false x y h k = k

module _ (w : Setting) (m : Moment) (c : Candidate) (latency_ms : ℕ) where
  verdict-IsFinalEnd :
      (deltas : List String) (report : ValidationReport) (s : Run)
      → IsFinalEnd (verdict_on w m deltas report c s) (verdict_on w m deltas report c s).ended
  unfolding terminal
  verdict-IsFinalEnd deltas report s =
      either_end (passed report)
        (without_failure deltas (
          terminal w RequestState.succeeded "validated"
            (record s { breaker = record_success c.provider s.breaker })))
        (record {
          deltas = deltas;
          ended = terminal w RequestState.failed_partial "validation_failed_after_output" s;
          has_failure = true;
          raises = false;
        })
        (inl refl) (inr (inl refl))

  reported-IsFinalEnd :
      (deltas : List String) (result : ProviderResult) (o : Option ValidationReport) (s : Run)
      → IsFinalEnd (reported w m deltas c result o s) (reported w m deltas c result o s).ended
  reported-IsFinalEnd deltas result none s = refl
  reported-IsFinalEnd deltas result (some report) s =
      verdict-IsFinalEnd deltas report (with_stream w m c result report s)

  reported-deltas :
      (deltas : List String) (result : ProviderResult) (o : Option ValidationReport) (s : Run)
      → (reported w m deltas c result o s).deltas ≡ deltas
  reported-deltas deltas result none s = refl
  reported-deltas deltas result (some report) s = ground arith

  by_end-IsFinalEnd :
      (stream : Stream) (e : StreamEnd) (s : Run)
      → non_empty (deltas_of stream.chunks) ≡ true
      → let x = by_end w m c latency_ms stream e s in IsFinalEnd x x.ended
  unfolding after_stream terminal
  by_end-IsFinalEnd stream used_up s v =
      let result = assembled w m c latency_ms stream.chunks in
      reported-IsFinalEnd (deltas_of stream.chunks) result (validate w m (first_args c) result) s
  by_end-IsFinalEnd stream (failed f) s v = rw v (inr (inl refl))
  by_end-IsFinalEnd stream cancelled s v = inr (inr refl)
  by_end-IsFinalEnd stream crashed s v = refl

  by_end-deltas :
      (stream : Stream) (e : StreamEnd) (s : Run)
      → (by_end w m c latency_ms stream e s).deltas ≡ deltas_of stream.chunks
  unfolding after_stream
  by_end-deltas stream used_up s =
      let result = assembled w m c latency_ms stream.chunks in
      reported-deltas (deltas_of stream.chunks) result (validate w m (first_args c) result) s
  by_end-deltas stream (failed f) s = ground arith
  by_end-deltas stream cancelled s = refl
  by_end-deltas stream crashed s = refl

  streamed-IsFinalEnd :
      (provider : ProviderInvocation → Stream) (o : Result (Reservation × Ledger)) (s : Run)
      → non_empty (streamed w m c latency_ms provider o s).deltas ≡ true
      → let x = streamed w m c latency_ms provider o s in IsFinalEnd x x.ended
  unfolding streamed
  streamed-IsFinalEnd provider (ok (r, l)) s v =
      let stream = provider (stream_invocation w m c) in
      let s' = close_stream w m c r stream (record s { db = record s.db { ledger = l } }) in
      by_end-IsFinalEnd stream stream.end s'
        (subst (λ ds. non_empty ds ≡ true) (by_end-deltas stream stream.end s') v)
  streamed-IsFinalEnd provider (err e) s v = ground arith

  by_end-requests :
      (stream : Stream) (r : Reservation) (s : Run)
      → stream.end ≡ crashed
      → (run_of
          (by_end w m c latency_ms stream stream.end
            (close_stream w m c r stream s)).ended).db.requests
        ≡ s.db.requests
  unfolding close_stream finish_attempt
  by_end-requests stream r s e = rw e refl

  crashed-raises :
      (stream : Stream) (s : Run) (e : StreamEnd)
      → e ≡ crashed
      → (by_end w m c latency_ms stream e s).raises ≡ true
  crashed-raises stream s e h = rw h refl

module _ (w : Setting) (m : Moment) (latency_ms : ℕ) (provider : ProviderInvocation → Stream) where
  first_candidate-IsFinalEnd :
      (cs : List Candidate) (s : Run)
      → non_empty (first_candidate w m cs latency_ms provider s).deltas ≡ true
      → let x = first_candidate w m cs latency_ms provider s in IsFinalEnd x x.ended
  first_candidate-IsFinalEnd [] s v = ground arith
  first_candidate-IsFinalEnd (c ∷ cs) s v = served (str_elem c.provider w.adapters) v
    where
      served :
          (t : Bool)
          → non_empty
              (if not t
                then without_failure [] (terminal w RequestState.failed_exhausted "no_adapter" s)
                else streamed w m c latency_ms provider
                    (reserve (reserve_request w m (first_args c)) (first_row w m c s.db).ledger)
                    (record s { db = first_row w m c s.db })).deltas
            ≡ true
          → let x =
              if not t
              then without_failure [] (terminal w RequestState.failed_exhausted "no_adapter" s)
              else streamed w m c latency_ms provider
                  (reserve (reserve_request w m (first_args c)) (first_row w m c s.db).ledger)
                  (record s { db = first_row w m c s.db }) in
            IsFinalEnd x x.ended
      served true v = streamed-IsFinalEnd w m c latency_ms provider _ _ v
      served false v = ground arith

-- Once output was visible, a streamed run ends as SUCCEEDED, as FAILED_PARTIAL, or as CANCELLED, or it
-- raises: it is never left to be tried again.
pub passthrough-IsFinalEnd :
    (w : Setting) (m : Moment) (latency_ms : ℕ) (provider : ProviderInvocation → Stream)
    (db : Database) (breaker : CircuitBreaker)
    → non_empty (passthrough w m latency_ms provider db breaker).deltas ≡ true
    → let x = passthrough w m latency_ms provider db breaker in IsFinalEnd x x.ended
unfolding passthrough
passthrough-IsFinalEnd w m latency_ms provider db breaker v =
    first_candidate-IsFinalEnd w m latency_ms provider w.plan.candidates (start w db breaker) v

-- A stream that an unexpected exception ends is neither charged nor brought to a terminal state, however
-- much output was visible by then: the reservation was granted, and in the end every budget is as it was
-- before, no request row has been written, and the generator raises.
pub crash-Uncharged :
    (w : Setting) (m : Moment) (c : Candidate) (latency_ms : ℕ)
    (provider : ProviderInvocation → Stream) (s : Run) {r : Reservation} {l : Ledger}
    → IsConsistent s.db.ledger
    → Distinct (budget_ids_of s.db.ledger.budgets)
    → pos 0 ≤ℤ c.estimated_cost
    → reserve (reserve_request w m (first_args c)) s.db.ledger ≡ ok (r, l)
    → (provider (stream_invocation w m c)).end ≡ crashed
    → let x = streamed w m c latency_ms provider (ok (r, l)) s in
      ((ledger_of x).budgets ≡ s.db.ledger.budgets)
      × ((run_of x.ended).db.requests ≡ s.db.requests)
      × (x.raises ≡ true)
unfolding streamed
crash-Uncharged w m c latency_ms provider s {r} {l} k d est h e =
    let stream = provider (stream_invocation w m c) in
    let s' : Run = record s { db = record s.db { ledger = l } } in
    let emitted = non_empty (deltas_of stream.chunks) in
    let x = granted-Charges w m c latency_ms s.db.ledger stream s' k d est h refl in
    let free : end_cost stream.end emitted c.estimated_cost ≡ pos 0 =
      ap (λ y. end_cost y emitted c.estimated_cost) e in
    (
      x.budgets ∙ rw free (charge_nothing _ s.db.ledger.budgets),
      by_end-requests w m c latency_ms stream r s' e,
      crashed-raises w m c latency_ms stream (close_stream w m c r stream s') stream.end e,
    )
