-- ===== src/Generation/Reclaim.antt =====
-- The claim of a key in src/gateway/api/generation.py after a call that has claimed it.
use text.Mathlib.TextPositions.{eq_refl}
use llm_token_balancing_gate.Prelude.{
  ℕ, ◌+◌, ◌<◌, String, Bool, true, false, none, some, [], ◌∷◌, ◌++◌, ◌≡◌, refl, ap, ◌∙◌, str_eq,
  if◌then◌else◌,
}
use llm_token_balancing_gate.Domain.Requests.{CanonicalRequest}
use llm_token_balancing_gate.Persistence.{IdempotencyRecord}
use llm_token_balancing_gate.Idempotency.{
  Records, ClaimRequest, Outcome, claimed, default_ttl, find, new_record, resolve_existing, claim,
  complete, fail,
}
use llm_token_balancing_gate.Idempotency.Table.{find-new_record}
use llm_token_balancing_gate.Idempotency.Replay.{claim_live, claim-complete, claim-fail}
use llm_token_balancing_gate.Lifecycle.{OrchestrationResult, Ended}
use llm_token_balancing_gate.Generation.{
  Stores, Answer, answered, claim_request, is_succeeded, settle_claim, after_run,
}

-- The table after the insert of a new record.
abbrev pub inserted : ClaimRequest → Records → Records
inserted q t = record { rows = t.rows ++ new_record t.next_id q ∷ []; next_id = t.next_id + 1 }

pub claim_fresh :
    (q : ClaimRequest) (t : Records)
    → find q.client_id q.key t.rows ≡ none
    → claim q t ≡ (
      claimed (record {
        record_id = t.next_id;
        request_id = q.request_id;
        replayed_response_ref = none;
      }),
      inserted q t,
    )
unfolding claim
claim_fresh q t e = rw (e, e) refl

-- The same client comes again with the key and the input, in a request of its own.
abbrev pub again : CanonicalRequest → String → String → ℕ → ClaimRequest
again r key other at = record (claim_request r key at) { request_id = other }

-- The claim finds the response of a success, proceeds after a failure, and is refused as in progress after
-- an exception or a cancellation.
abbrev pub answer_again : ℕ → CanonicalRequest → String → Answer → Outcome
answer_again n r other (answered o) = claimed (record {
  record_id = n;
  request_id = if is_succeeded o.state then r.request_id else other;
  replayed_response_ref = if is_succeeded o.state then some r.request_id else none;
})
answer_again n r other _ = Outcome.request_in_progress

module _ (r : CanonicalRequest) (key other : String) (start at : ℕ) (t : Records)
    (fresh : find r.client_id key t.rows ≡ none) (live : at < start + default_ttl) where
  abbrev row : IdempotencyRecord
  row = new_record t.next_id (claim_request r key start)

  abbrev pub table : Records
  table = inserted (claim_request r key start) t

  found : find r.client_id key table.rows ≡ some row
  found = find-new_record t.next_id (claim_request r key start) t.rows fresh

  -- The claim is in progress for as long as nothing settles it.
  in_progress : (claim (again r key other at) table).0 ≡ Outcome.request_in_progress
  unfolding resolve_existing
  in_progress =
      ap (λ (x : Outcome × Records). x.0) (claim_live (again r key other at) table row found live)
      ∙ rw (eq_refl r.input_hash) refl

  after_failure :
      (claim (again r key other at) (fail t.next_id table)).0
      ≡ claimed (record { record_id = t.next_id; request_id = other; replayed_response_ref = none })
  after_failure =
      ap (λ (x : Outcome × Records). x.0)
        (claim-fail table (again r key other at) row found live (eq_refl r.input_hash))

  after_success :
      str_eq r.request_id "" ≡ false
      → (claim (again r key other at) (complete t.next_id r.request_id table)).0
        ≡ claimed (record {
          record_id = t.next_id;
          request_id = r.request_id;
          replayed_response_ref = some r.request_id;
        })
  after_success named =
      ap (λ (x : Outcome × Records). x.0)
        (claim-complete table (again r key other at) row r.request_id found live named)
      ∙ rw (eq_refl r.input_hash, named) refl

  settled :
      str_eq r.request_id "" ≡ false
      → (o : OrchestrationResult)
      → (claim (again r key other at) (settle_claim r o (some t.next_id, table))).0
        ≡ answer_again t.next_id r other (answered o)
  unfolding settle_claim
  settled named o = by_test (is_succeeded o.state)
    where
      by_test :
          (b : Bool)
          → (claim
              (again r key other at)
              (if b then complete t.next_id r.request_id table else fail t.next_id table)).0
            ≡ claimed (record {
              record_id = t.next_id;
              request_id = if b then r.request_id else other;
              replayed_response_ref = if b then some r.request_id else none;
            })
      by_test true = after_success named
      by_test false = after_failure

  pub by_end :
      str_eq r.request_id "" ≡ false
      → (s : Stores) (e : Ended)
      → (claim
          (again r key other at)
          (after_run r (some t.next_id, table) s (some e)).1.working.records).0
        ≡ answer_again t.next_id r other (after_run r (some t.next_id, table) s (some e)).0
  by_end named s (Ended.finished x) = settled named x.outcome
  by_end named s (Ended.cancelled x) = in_progress
  by_end named s (Ended.raised cost x) = in_progress
