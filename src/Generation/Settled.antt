-- ===== src/Generation/Settled.antt =====
-- The answers of `_run` in src/gateway/api/generation.py, and what they leave in the stores.
use text.Mathlib.TextPositions.{eq_refl}
use llm_token_balancing_gate.Prelude.{
  String, Bool, true, false, none, some, List, [], ◌∷◌, ◌++◌, ◌≡◌, refl, sym, subst, ap, ◌∙◌,
  str_eq, if◌then◌else◌, is_some, arith,
}
use llm_token_balancing_gate.Domain.Enums.{RequestState}
use llm_token_balancing_gate.Domain.Requests.{CanonicalRequest}
use llm_token_balancing_gate.Persistence.{Request, get_request, update_request}
use llm_token_balancing_gate.Idempotency.{Records, Outcome, find, is_replay, claim}
use llm_token_balancing_gate.Registry.{Tables}
use llm_token_balancing_gate.Router.{Floats}
use llm_token_balancing_gate.Classifier.{Signal}
use llm_token_balancing_gate.Planning.{RoutingPolicy}
use llm_token_balancing_gate.Orchestrator.{Setting}
use llm_token_balancing_gate.Lifecycle.{Ended, run}
use llm_token_balancing_gate.Lifecycle.Induction.{run_of}
use llm_token_balancing_gate.Lifecycle.Outcome.{IsPersisted, run-IsPersisted, with_end}
use llm_token_balancing_gate.Lifecycle.Termination.{run-ends}
use llm_token_balancing_gate.Generation.{
  Stores, Session, open_session, get_session, with_row, run_request, claimed_by, Refusal, Answer,
  refused, answered, crashed, cancelled, out_of_rounds, Clocks, Claimed, unclaimed, holds, rejected,
  persist_request, claim_request, key_of, claim_key, Held, after_run, setting_for, plan_and_run,
  after_claim, generate,
}
use llm_token_balancing_gate.Generation.Reclaim.{inserted, claim_fresh}

-- A refused call leaves the stores as they were, and after any other one the request has its row.
abbrev pub IsOrderly : String → Stores → Answer × Stores → Type 0
IsOrderly id s (refused why, s') = s' ≡ s
IsOrderly id s (answered o, s') = is_some (get_request id s'.db.requests) ≡ true
IsOrderly id s (crashed, s') = is_some (get_request id s'.db.requests) ≡ true
IsOrderly id s (cancelled, s') = is_some (get_request id s'.db.requests) ≡ true
IsOrderly id s (out_of_rounds, s') = ⊥

get_request-append :
    (id : String) (r : Request) (rows : List Request)
    → str_eq r.id id ≡ true
    → is_some (get_request id (rows ++ r ∷ [])) ≡ true
get_request-append id r [] e = rw e refl
get_request-append id r (x ∷ rows) e = ground (arith, get_request-append id r rows)

get_request-with_end :
    (id : String) (state : RequestState) (reason : String) (rows : List Request)
    → is_some (get_request id (update_request id (with_end state reason) rows))
      ≡ is_some (get_request id rows)
get_request-with_end id state reason [] = refl
get_request-with_end id state reason (x ∷ rows) =
    ground (arith, get_request-with_end id state reason rows)

-- However a run ends, a request that had a row still has one.
row-kept :
    (w : Setting) (rows : List Request) (e : Ended)
    → IsPersisted w rows e
    → is_some (get_request w.request.request_id rows) ≡ true
    → is_some (get_request w.request.request_id (run_of e).db.requests) ≡ true
row-kept w rows (Ended.finished x) p h =
    ap (λ y. is_some (get_request w.request.request_id y)) p.1
    ∙ get_request-with_end w.request.request_id x.outcome.state x.outcome.terminal_reason rows
    ∙ h
row-kept w rows (Ended.cancelled x) p h =
    ap (λ y. is_some (get_request w.request.request_id y)) p ∙ h
row-kept w rows (Ended.raised cost x) p h =
    ap (λ y. is_some (get_request w.request.request_id y)) p ∙ h

abbrev pub is_refused : Answer → Bool
is_refused (refused why) = true
is_refused _ = false

-- What the claim's outcome makes of a call whose request is new and has the key.
abbrev pub Decides : Outcome → Answer → Type 0
Decides (Outcome.claimed c) a =
    if is_replay c then a ≡ refused Refusal.already_completed else is_refused a ≡ false
Decides Outcome.idempotency_conflict a = a ≡ refused Refusal.idempotency_conflict
Decides Outcome.request_in_progress a = a ≡ refused Refusal.request_in_progress

module _ (fl : Floats) (occurs : Signal → String → Bool) (t : Tables)
    (ps : List (RoutingPolicy fl.F)) (base : Setting) (r : CanonicalRequest) (k : Clocks)
    (s : Stores) where
  abbrev pub written : Session
  written = with_row fl occurs t ps base r k (open_session s)

  -- The stores that the run starts from.
  abbrev pub started : Held → Stores
  started h = record (written.working) { records = h.1 }

  pub run-answered :
      (h : Held)
      → (e : Ended) × (run
            (setting_for fl occurs t ps base r k)
            k.moments
            (started h).db
            (started h).breaker
          ≡ some e)
        × (plan_and_run fl occurs t ps base r k h written ≡ after_run r h (started h) (some e))
  unfolding plan_and_run
  run-answered h =
      let end =
        run-ends (setting_for fl occurs t ps base r k) k.moments (started h).db
          (started h).breaker in
      (end.0, end.1, ap (after_run r h (started h)) end.1)

  after_run-IsOrderly :
      (h : Held) (s' : Stores) (e : Ended)
      → is_some (get_request r.request_id (run_of e).db.requests) ≡ true
      → IsOrderly r.request_id s (get_session (after_run r h s' (some e)))
  unfolding get_session
  after_run-IsOrderly h s' (Ended.finished x) e = e
  after_run-IsOrderly h s' (Ended.cancelled x) e = e
  after_run-IsOrderly h s' (Ended.raised cost x) e = e

  plan_and_run-IsOrderly :
      (h : Held)
      → IsOrderly r.request_id s (get_session (plan_and_run fl occurs t ps base r k h written))
  unfolding persist_request
  plan_and_run-IsOrderly h =
      let w = setting_for fl occurs t ps base r k in
      let (e, ends, same) = run-answered h in
      subst (λ a. IsOrderly r.request_id s (get_session a)) (sym same)
        (after_run-IsOrderly h (started h) e (
          row-kept w (started h).db.requests e
            (run-IsPersisted w k.moments (started h).db (started h).breaker ends)
            (get_request-append r.request_id _ s.db.requests (eq_refl r.request_id))))

  after_claim-IsOrderly :
      (q : Claimed)
      → IsOrderly r.request_id s (get_session (after_claim fl occurs t ps base r k written q))
  unfolding after_claim get_session
  after_claim-IsOrderly unclaimed = plan_and_run-IsOrderly (none, s.records)
  after_claim-IsOrderly (holds row records) = plan_and_run-IsOrderly (some row, records)
  after_claim-IsOrderly (rejected why records) = refl

  if-IsOrderly :
      (b : Bool) (x y : Answer × Session)
      → IsOrderly r.request_id s (get_session x)
      → IsOrderly r.request_id s (get_session y)
      → IsOrderly r.request_id s (get_session (if b then x else y))
  if-IsOrderly true x y h g = h
  if-IsOrderly false x y h g = g

  -- Whatever the clocks read, the providers answer and the validators raise, a call comes to an answer, an
  -- exception or a cancellation. Where it is refused, for whatever reason, the rollback of its session
  -- leaves nothing of it, though the row of the request was written before the claim; in every other
  -- case the row of the request stays.
  pub generate-IsOrderly :
      (ready : Bool) → IsOrderly r.request_id s (generate fl occurs t ps base ready r k s)
  unfolding generate run_request get_session
  generate-IsOrderly ready =
      if-IsOrderly ready _ _
        (if-IsOrderly (is_some (get_request r.request_id s.db.requests)) _ _ refl
          (after_claim-IsOrderly (claim_key r k.claimed_at s.records)))
        refl

  -- A request with a key that no record has claims it, plans and runs.
  pub generate_fresh :
      (key : String)
      → get_request r.request_id s.db.requests ≡ none
      → key_of r ≡ some key
      → find r.client_id key s.records.rows ≡ none
      → generate fl occurs t ps base true r k s
        ≡ get_session (
            plan_and_run fl occurs t ps base r k
              (some s.records.next_id, inserted (claim_request r key k.claimed_at) s.records)
              written)
  unfolding generate run_request claim_key after_claim
  generate_fresh key absent keyed fresh =
      rw (absent, keyed, claim_fresh (claim_request r key k.claimed_at) s.records fresh) refl

  ended-unrefused :
      (h : Held) (s' : Stores) (e : Ended)
      → is_refused (get_session (after_run r h s' (some e))).0 ≡ false
  unfolding get_session
  ended-unrefused h s' (Ended.finished x) = refl
  ended-unrefused h s' (Ended.cancelled x) = refl
  ended-unrefused h s' (Ended.raised cost x) = refl

  run-unrefused :
      (h : Held)
      → is_refused (get_session (plan_and_run fl occurs t ps base r k h written)).0 ≡ false
  run-unrefused h =
      let (e, ends, same) = run-answered h in
      subst (λ a. is_refused (get_session a).0 ≡ false) (sym same) (ended-unrefused h (started h) e)

  claimed_by-Decides :
      (o : Outcome × Records)
      → Decides o.0 (get_session (after_claim fl occurs t ps base r k written (claimed_by o))).0
  unfolding after_claim get_session
  claimed_by-Decides (Outcome.claimed c, x) = by_replay (is_replay c)
    where
      by_replay :
          (b : Bool)
          → let a =
              (get_session (
                after_claim fl occurs t ps base r k written
                  (if b then rejected Refusal.already_completed x else holds c.record_id x))).0 in
            if b then a ≡ refused Refusal.already_completed else is_refused a ≡ false
      by_replay true = refl
      by_replay false = run-unrefused (some c.record_id, x)
  claimed_by-Decides (Outcome.idempotency_conflict, x) = refl
  claimed_by-Decides (Outcome.request_in_progress, x) = refl

  pub generate-Decides :
      (key : String)
      → get_request r.request_id s.db.requests ≡ none
      → key_of r ≡ some key
      → Decides
          (claim (claim_request r key k.claimed_at) s.records).0
          (generate fl occurs t ps base true r k s).0
  unfolding generate run_request claim_key
  generate-Decides key absent keyed =
      rw (absent, keyed) (claimed_by-Decides (claim (claim_request r key k.claimed_at) s.records))
