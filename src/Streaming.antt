-- ===== src/Streaming.antt =====
-- `_passthrough` of src/gateway/services/orchestrator.py: the deltas of one provider are forwarded as they
-- come, and the first visible one fixes the route. A stream is the chunks that it gave and how it ended.
-- The state of a run is that of Lifecycle.antt, whose variables of the loop stay at their start here.
pub mod Funds
pub mod Visible
use Prim.Native.String.{count, ◌++◌ as str_append}
use llm_token_balancing_gate.Prelude.{
  ℕ, zero, suc, ◌+◌, ◌-◌, ◌*◌, ◌/◌, String, Bool, true, false, not, ◌&&◌, ◌||◌, Option, none, some,
  List, [], ◌∷◌, ◌++◌, ltb, if◌then◌else◌, keep, any, str_elem, str_eq, ℤ, pos,
}
use llm_token_balancing_gate.Domain.Enums.{RequestState, Risk, AttemptKind, AttemptOutcome}
use llm_token_balancing_gate.Domain.Requests.{non_empty}
use llm_token_balancing_gate.Domain.Routing.{Candidate, RequestFeatures}
use llm_token_balancing_gate.Controls.{sorted_set}
use llm_token_balancing_gate.Persistence.{Database}
use llm_token_balancing_gate.Budget.{Ledger, Reservation, Result, ok, err, reserve}
use llm_token_balancing_gate.Resilience.{
  ProviderFailure, CircuitBreaker, record_failure, record_success,
}
use llm_token_balancing_gate.Providers.{ProviderResult, ProviderInvocation}
use llm_token_balancing_gate.Validators.{ValidationReport, passed}
use llm_token_balancing_gate.Attempts.{
  AttemptRecord, Finish, outcome_value, record_attempt, finish_attempt, persist_validations,
}
use llm_token_balancing_gate.Orchestrator.{
  Moment, Setting, AttemptArgs, resolve_hold, on_ledger, attempt_id, reserve_request, record_of,
  validate,
}
use llm_token_balancing_gate.Lifecycle.{Run, Ended, terminal, add_attempt, start, with_report}

-- `StreamChunk`, without its usage, which is not read.
pub record StreamChunk : Type 0 where
  pub delta : String
  pub finish_reason : Option String

-- How the iteration over `adapter.stream` ends: it is used up, raises a `ProviderFailure`, is cancelled
-- as the client goes away, or raises any other exception.
pub data StreamEnd : Type 0 where
  used_up : StreamEnd
  failed : ProviderFailure → StreamEnd
  cancelled crashed : StreamEnd

pub record Stream : Type 0 where
  pub chunks : List StreamChunk
  pub end : StreamEnd

-- What the client saw, how the run stands, whether the last event bears a failure, and whether the
-- generator raised instead of giving a last event.
pub record Streamed : Type 0 where
  pub deltas : List String
  pub ended : Ended
  pub has_failure : Bool
  pub raises : Bool

-- The deltas that are not empty.
unfoldable pub deltas_of : List StreamChunk → List String
deltas_of [] = []
deltas_of (c ∷ cs) = if str_eq c.delta "" then deltas_of cs else c.delta ∷ deltas_of cs

unfoldable pub join : List String → String
join [] = ""
join (d ∷ ds) = str_append d (join ds)

abbrev or_last : Option String → String → String
or_last none last = last
or_last (some r) last = if str_eq r "" then last else r

unfoldable pub finish_of : String → List StreamChunk → String
finish_of last [] = last
finish_of last (c ∷ cs) = finish_of (or_last c.finish_reason last) cs

abbrev pub end_outcome : StreamEnd → AttemptOutcome
end_outcome used_up = AttemptOutcome.success
end_outcome (failed f) = f.outcome
end_outcome cancelled = AttemptOutcome.cancelled
end_outcome crashed = AttemptOutcome.success

abbrev pub end_code : StreamEnd → Option String
end_code (failed f) = some (outcome_value f.outcome)
end_code _ = none

-- `settled` as the finally block finds it: zero until the stream was used up or an except branch ran.
abbrev pub end_cost : StreamEnd → Bool → ℤ → ℤ
end_cost used_up emitted estimate = estimate
end_cost (failed f) emitted estimate = if emitted then estimate else pos 0
end_cost cancelled emitted estimate = if emitted then estimate else pos 0
end_cost crashed emitted estimate = pos 0

abbrev pub first_args : Candidate → AttemptArgs
first_args c = record {
  candidate = c;
  sequence = 1;
  kind = AttemptKind.generation;
  is_repair = false;
  cost_so_far = pos 0;
}

abbrev pub without_failure : List String → Ended → Streamed
without_failure deltas e = record {
  deltas = deltas;
  ended = e;
  has_failure = false;
  raises = false;
}

-- An exception that no branch catches leaves the generator.
abbrev pub by_exception : List String → ℤ → Run → Streamed
by_exception deltas cost s = record {
  deltas = deltas;
  ended = Ended.raised cost s;
  has_failure = false;
  raises = true;
}

module _ (w : Setting) (m : Moment) where
  -- The time left, but a tenth of a second at least.
  abbrev pub stream_invocation : Candidate → ProviderInvocation
  stream_invocation c =
      let left = w.deadline_at - m.invoked_at in
      record {
        request = w.request;
        gateway_model_id = c.model_id;
        max_output_tokens = w.request.max_output_tokens;
        timeout = if ltb left 100_000 then 100_000 else left;
        estimated_cost = c.estimated_cost;
      }

  abbrev pub tokens_of : String → ℕ
  tokens_of text = if ltb (count text / 4) 1 then 1 else count text / 4

  -- The result that is assembled from the deltas.
  abbrev pub assembled : Candidate → ℕ → List StreamChunk → ProviderResult
  assembled c latency_ms chunks =
      let text = join (deltas_of chunks) in
      record {
        text = text;
        finish_reason = finish_of "stop" chunks;
        usage = record {
          prompt_tokens = some w.request.estimated_input_tokens;
          completion_tokens = some (tokens_of text);
        };
        model_id = c.model_id;
        latency_ms = latency_ms;
        emitted_output = true;
      }

  -- The finally block, before a cancellation writes its terminal state.
  unfoldable pub close_stream : Candidate → Reservation → Stream → Run → Run
  unfolding resolve_hold finish_attempt deltas_of
  close_stream c r stream s =
      let emitted = non_empty (deltas_of stream.chunks) in
      let settled = end_cost stream.end emitted c.estimated_cost in
      record s {
        db =
            finish_attempt w.digest (attempt_id w m (first_args c))
              (record {
                outcome = end_outcome stream.end;
                result = none;
                actual_cost = settled;
                emitted_output = emitted;
                error_code = end_code stream.end;
                finished_at = m.finished_at;
              })
              (on_ledger (resolve_hold r settled m.resolved_at) s.db);
      }

  abbrev pub verdict_on : List String → ValidationReport → Candidate → Run → Streamed
  verdict_on deltas report c s =
      if passed report
      then without_failure deltas (
          terminal w RequestState.succeeded "validated"
            (record s { breaker = record_success c.provider s.breaker }))
      else record {
        deltas = deltas;
        ended = terminal w RequestState.failed_partial "validation_failed_after_output" s;
        has_failure = true;
        raises = false;
      }

  -- The run with the assembled result, its report and the one attempt.
  unfoldable pub with_stream : Candidate → ProviderResult → ValidationReport → Run → Run
  unfolding persist_validations
  with_stream c result report s =
      let s' = record s {
        db = persist_validations w.request.request_id (attempt_id w m (first_args c)) report s.db;
      } in
      add_attempt
        (record_of w m (first_args c) AttemptOutcome.success c.estimated_cost result.latency_ms
          (some report))
        (with_report c result report s')

  abbrev pub reported :
      List String → Candidate → ProviderResult → Option ValidationReport → Run → Streamed
  reported deltas c result none s = by_exception deltas c.estimated_cost s
  reported deltas c result (some report) s =
      verdict_on deltas report c (with_stream c result report s)

  -- The stream was used up: the assembled output is validated.
  unfoldable pub after_stream : Candidate → ℕ → Stream → Run → Streamed
  unfolding validate passed terminal record_success join finish_of with_stream
  after_stream c latency_ms stream s =
      let result = assembled c latency_ms stream.chunks in
      reported (deltas_of stream.chunks) c result (validate w m (first_args c) result) s

  abbrev pub by_end : Candidate → ℕ → Stream → StreamEnd → Run → Streamed
  by_end c latency_ms stream used_up s = after_stream c latency_ms stream s
  by_end c latency_ms stream (failed f) s =
      if non_empty (deltas_of stream.chunks)
      then record {
        deltas = deltas_of stream.chunks;
        ended = terminal w RequestState.failed_partial "partial_output" s;
        has_failure = true;
        raises = false;
      }
      else record {
        deltas = deltas_of stream.chunks;
        ended =
            terminal w RequestState.failed_exhausted "stream_failed"
              (record s { breaker = record_failure c.provider f m.failed_at s.breaker });
        has_failure = true;
        raises = false;
      }
  by_end c latency_ms stream cancelled s = record {
    deltas = deltas_of stream.chunks;
    ended = terminal w RequestState.cancelled "client_disconnected" s;
    has_failure = false;
    raises = true;
  }
  by_end c latency_ms stream crashed s = by_exception (deltas_of stream.chunks) (pos 0) s

  unfoldable pub streamed :
      Candidate → ℕ → (ProviderInvocation → Stream) → Result (Reservation × Ledger) → Run → Streamed
  unfolding close_stream after_stream terminal record_failure finish_attempt
  streamed c latency_ms provider (ok (r, l)) s =
      let stream = provider (stream_invocation c) in
      by_end c latency_ms stream stream.end
        (close_stream c r stream (record s { db = on_ledger (λ _. l) s.db }))
  streamed c latency_ms provider (err e) s = without_failure [] (
      terminal w RequestState.rejected_budget "budget_exceeded" (record s {
        db =
            finish_attempt w.digest (attempt_id w m (first_args c))
              (record {
                outcome = AttemptOutcome.cancelled;
                result = none;
                actual_cost = pos 0;
                emitted_output = false;
                error_code = some "budget_exceeded";
                finished_at = m.finished_at;
              })
              s.db;
      }))

  abbrev pub first_row : Candidate → Database → Database
  first_row c = record_attempt (record {
    request = w.request;
    candidate = c;
    sequence = 1;
    kind = AttemptKind.generation;
    started_at = m.started_at;
  })

  abbrev pub first_candidate : List Candidate → ℕ → (ProviderInvocation → Stream) → Run → Streamed
  first_candidate [] latency_ms provider s =
      without_failure [] (terminal w RequestState.rejected_no_route "no_eligible_route" s)
  first_candidate (c ∷ cs) latency_ms provider s =
      if not (str_elem c.provider w.adapters)
      then without_failure [] (terminal w RequestState.failed_exhausted "no_adapter" s)
      else streamed c latency_ms provider
          (reserve (reserve_request w m (first_args c)) (first_row c s.db).ledger)
          (record s { db = first_row c s.db })

  -- `_passthrough`
  unfoldable pub passthrough :
      ℕ → (ProviderInvocation → Stream) → Database → CircuitBreaker → Streamed
  unfolding terminal record_attempt reserve streamed
  passthrough latency_ms provider db breaker =
      first_candidate w.plan.candidates latency_ms provider (start w db breaker)
