-- ===== src/Generation/Repeated.antt =====
-- A call of `_run` in src/gateway/api/generation.py that repeats the key of an earlier one.
use llm_token_balancing_gate.Prelude.{
  ℕ, ◌+◌, ◌<◌, String, Bool, true, false, none, some, List, ◌≡◌, refl, sym, subst, ap, ◌∙◌, str_eq,
  if◌then◌else◌,
}
use llm_token_balancing_gate.Domain.Requests.{CanonicalRequest}
use llm_token_balancing_gate.Persistence.{get_request}
use llm_token_balancing_gate.Idempotency.{Records, claimed, default_ttl, find, claim}
use llm_token_balancing_gate.Registry.{Tables}
use llm_token_balancing_gate.Router.{Floats}
use llm_token_balancing_gate.Classifier.{Signal}
use llm_token_balancing_gate.Planning.{RoutingPolicy}
use llm_token_balancing_gate.Orchestrator.{Setting}
use llm_token_balancing_gate.Lifecycle.{OrchestrationResult, Ended}
use llm_token_balancing_gate.Generation.{
  Stores, Session, get_session, Refusal, Answer, refused, answered, crashed, cancelled,
  out_of_rounds, Clocks, claim_request, key_of, is_succeeded, Held, after_run, generate,
}
use llm_token_balancing_gate.Generation.Reclaim.{inserted, again, answer_again, by_end}
use llm_token_balancing_gate.Generation.Settled.{
  is_refused, Decides, run-answered, generate_fresh, generate-Decides, started,
}

-- The answer `a` to the second call, by the answer to the first: it is refused as completed after a
-- success, is run after a failure, and is refused as in progress after an exception or a cancellation.
abbrev pub Repeats : Answer → Answer → Type 0
Repeats (answered o) a =
    if is_succeeded o.state then a ≡ refused Refusal.already_completed else is_refused a ≡ false
Repeats crashed a = a ≡ refused Refusal.request_in_progress
Repeats cancelled a = a ≡ refused Refusal.request_in_progress
Repeats (refused why) a = ⊥
Repeats out_of_rounds a = ⊥

answered-Repeats :
    (n : ℕ) (r : CanonicalRequest) (other : String) (o : OrchestrationResult) (a : Answer)
    → Decides (answer_again n r other (answered o)) a
    → Repeats (answered o) a
answered-Repeats n r other o a = by_test (is_succeeded o.state)
  where
    by_test :
        (b : Bool)
        → Decides
            (claimed (record {
              record_id = n;
              request_id = if b then r.request_id else other;
              replayed_response_ref = if b then some r.request_id else none;
            }))
            a
        → if b then a ≡ refused Refusal.already_completed else is_refused a ≡ false
    by_test true h = h
    by_test false h = h

module _ (r r' : CanonicalRequest) (key : String) (start at : ℕ) (t : Records)
    (fresh : find r.client_id key t.rows ≡ none) (live : at < start + default_ttl)
    (named : str_eq r.request_id "" ≡ false) (same_client : r'.client_id ≡ r.client_id)
    (same_input : r'.input_hash ≡ r.input_hash) where
  abbrev first : Stores → Ended → Answer × Session
  first s e = after_run r (some t.next_id, inserted (claim_request r key start) t) s (some e)

  reclaimed :
      (s : Stores) (e : Ended)
      → (claim (claim_request r' key at) (first s e).1.working.records).0
        ≡ answer_again t.next_id r r'.request_id (first s e).0
  reclaimed s e =
      let same : claim_request r' key at ≡ again r key r'.request_id at =
        rw (same_client, same_input) refl in
      ap (λ q. (claim q (first s e).1.working.records).0) same
      ∙ by_end r key r'.request_id start at t fresh live named s e

  ended-Repeats :
      (s : Stores) (e : Ended) (a : Answer)
      → Decides (claim (claim_request r' key at) (get_session (first s e)).1.records).0 a
      → Repeats (get_session (first s e)).0 a
  unfolding get_session
  ended-Repeats s (Ended.finished x) a d =
      answered-Repeats t.next_id r r'.request_id x.outcome a
        (subst (λ o. Decides o a) (reclaimed s (Ended.finished x)) d)
  ended-Repeats s (Ended.cancelled x) a d =
      subst (λ o. Decides o a) (reclaimed s (Ended.cancelled x)) d
  ended-Repeats s (Ended.raised cost x) a d =
      subst (λ o. Decides o a) (reclaimed s (Ended.raised cost x)) d

-- A client that repeats a key with the same input before the record expires, in a new request, while the
-- first request with that key has ended: after a success the second call is refused as already completed,
-- since responses are not retained; after a failure it is run; and after a cancellation or the exception
-- of a validator it is refused as in progress. The first request's key and id were new, its id is not
-- empty, neither request is a stream, and there is an orchestrator.
pub generate-again :
    (fl : Floats) (occurs : Signal → String → Bool) (t : Tables) (ps : List (RoutingPolicy fl.F))
    (base : Setting) (r r' : CanonicalRequest) (k k' : Clocks) (s : Stores) (key : String)
    → get_request r.request_id s.db.requests ≡ none
    → key_of r ≡ some key
    → find r.client_id key s.records.rows ≡ none
    → str_eq r.request_id "" ≡ false
    → r'.client_id ≡ r.client_id
    → r'.input_hash ≡ r.input_hash
    → key_of r' ≡ some key
    → k'.claimed_at < k.claimed_at + default_ttl
    → let (a, s') = generate fl occurs t ps base true r k s in
      get_request r'.request_id s'.db.requests ≡ none
      → Repeats a (generate fl occurs t ps base true r' k' s').0
generate-again fl occurs t ps base r r' k k' s key absent keyed fresh named client input keyed' live
      absent' =
    let h : Held =
      (some s.records.next_id, inserted (claim_request r key k.claimed_at) s.records) in
    let (e, ends, same) = run-answered fl occurs t ps base r k s h in
    let start = started fl occurs t ps base r k s h in
    let first =
      generate_fresh fl occurs t ps base r k s key absent keyed fresh ∙ ap get_session same in
    subst
      (λ (x : Answer × Stores).
        get_request r'.request_id x.1.db.requests ≡ none
        → Repeats x.0 (generate fl occurs t ps base true r' k' x.1).0)
      (sym first)
      (λ absent''.
        ended-Repeats r r' key k.claimed_at k'.claimed_at s.records fresh live named client input
          start e _
          (generate-Decides fl occurs t ps base r' k' (get_session (after_run r h start (some e))).1
            key absent'' keyed'))
      absent'
