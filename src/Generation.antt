-- ===== src/Generation.antt =====
-- `_run` of src/gateway/api/generation.py, which composes the services: it persists the request, claims its
-- idempotency key, plans, runs, and settles the claim. A refusal before the commit is rolled back.
pub mod Reclaim
pub mod Settled
pub mod Repeated
pub mod Funds
use llm_token_balancing_gate.Prelude.{
  ℕ, ◌+◌, ◌*◌, String, Bool, true, false, not, ◌&&◌, Option, none, some, List, [], ◌∷◌, ◌++◌,
  str_eq, if◌then◌else◌, is_some,
}
use Prim.Native.String.{◌++◌ as str_append}
use llm_token_balancing_gate.Domain.Enums.{RequestState}
use llm_token_balancing_gate.Domain.Requests.{CanonicalRequest}
use llm_token_balancing_gate.Persistence.{Request, Database, get_request}
use llm_token_balancing_gate.Idempotency.{
  Records, Claim, ClaimRequest, Outcome, is_replay, default_ttl, claim, complete, fail,
}
use llm_token_balancing_gate.Resilience.{CircuitBreaker}
use llm_token_balancing_gate.Registry.{Tables}
use llm_token_balancing_gate.Router.{Floats}
use llm_token_balancing_gate.Router.Plan.{latency_budget}
use llm_token_balancing_gate.Classifier.{Signal}
use llm_token_balancing_gate.Planning.{RoutingPolicy, PlanningResult, build_plan}
use llm_token_balancing_gate.Orchestrator.{Moment, Setting}
use llm_token_balancing_gate.Lifecycle.{OrchestrationResult, Run, Ended, run}

-- The tables that a request writes, and the breaker that the orchestrator keeps.
pub record Stores : Type 0 where
  pub db : Database
  pub records : Records
  pub breaker : CircuitBreaker

-- Why a request is refused before it runs; `duplicate_request` is the primary key's IntegrityError.
pub data Refusal : Type 0 where
  no_provider_available duplicate_request : Refusal
  idempotency_conflict request_in_progress already_completed : Refusal

-- What comes of a call: an outcome, one of the exceptions above, the exception of a validator, or the
-- cancellation. `out_of_rounds` is the end of the fuel of `run`.
pub data Answer : Type 0 where
  refused : Refusal → Answer
  answered : OrchestrationResult → Answer
  crashed cancelled out_of_rounds : Answer

-- The session of the request: what is committed, and what the request sees.
pub record Session : Type 0 where
  pub committed : Stores
  pub working : Stores

abbrev pub open_session : Stores → Session
open_session s = record { committed = s; working = s }

abbrev pub commit : Session → Session
commit x = open_session x.working

-- `get_session`: an answer is committed; after a failed run the endpoint raises, but `_run` has committed
-- all by then. An exception rolls back, and a cancellation closes the session, so that both leave what was
-- committed.
unfoldable pub get_session : Answer × Session → Answer × Stores
get_session (answered o, x) = (answered o, (commit x).committed)
get_session (refused why, x) = (refused why, x.committed)
get_session (crashed, x) = (crashed, x.committed)
get_session (cancelled, x) = (cancelled, x.committed)
get_session (out_of_rounds, x) = (out_of_rounds, x.committed)

-- The readings of the clock, and what happens in each round of the run.
pub record Clocks : Type 0 where
  pub received_at : ℕ
  pub claimed_at : ℕ
  pub taken_at : ℕ
  pub planned_at : ℕ
  pub moments : ℕ → Moment

-- `_persist_request`
abbrev pub request_row : CanonicalRequest → ℕ → Request
request_row r deadline_at = record {
  id = r.request_id;
  client_id = r.client_id;
  state = RequestState.ready;
  terminal_reason = none;
  deadline_at = deadline_at;
}

unfoldable pub persist_request : CanonicalRequest → ℕ → Database → Database
persist_request r deadline_at db = record db {
  requests = db.requests ++ request_row r deadline_at ∷ [];
}

-- `_budget_scopes`
abbrev pub budget_scopes : CanonicalRequest → List String
budget_scopes r = "global" ∷ str_append "client:" r.client_id ∷ []

abbrev pub claim_request : CanonicalRequest → String → ℕ → ClaimRequest
claim_request r key at = record {
  client_id = r.client_id;
  key = key;
  input_hash = r.input_hash;
  request_id = r.request_id;
  at = at;
  ttl = default_ttl;
}

-- What the claim comes to, with the table that it leaves: no claim is made without a key, or for a stream.
pub data Claimed : Type 0 where
  unclaimed : Claimed
  holds : ℕ → Records → Claimed
  rejected : Refusal → Records → Claimed

abbrev pub or_completed : Claim → Records → Claimed
or_completed c t = if is_replay c then rejected Refusal.already_completed t else holds c.record_id t

abbrev pub claimed_by : Outcome × Records → Claimed
claimed_by (Outcome.claimed c, t) = or_completed c t
claimed_by (Outcome.idempotency_conflict, t) = rejected Refusal.idempotency_conflict t
claimed_by (Outcome.request_in_progress, t) = rejected Refusal.request_in_progress t

abbrev pub key_of : CanonicalRequest → Option String
key_of r = elim r.idempotency_key [
  | none ↦ none
  | some key ↦ if str_eq key "" then none else if r.stream then none else some key
]

abbrev pub claim_with : CanonicalRequest → Option String → ℕ → Records → Claimed
claim_with r none at t = unclaimed
claim_with r (some key) at t = claimed_by (claim (claim_request r key at) t)

unfoldable pub claim_key : CanonicalRequest → ℕ → Records → Claimed
claim_key r at t = claim_with r (key_of r) at t

-- `OrchestrationResult.succeeded`
abbrev pub is_succeeded : RequestState → Bool
is_succeeded RequestState.succeeded = true
is_succeeded _ = false

-- The claim that is held, with the table after the insert.
abbrev pub Held : Type 0
Held = Option ℕ × Records

unfoldable pub settle_claim : CanonicalRequest → OrchestrationResult → Held → Records
settle_claim r o (none, t) = t
settle_claim r o (some k, t) = if is_succeeded o.state then complete k r.request_id t else fail k t

-- The run writes in sessions of its own. Its end comes back to the session of the request.
abbrev pub after_run : CanonicalRequest → Held → Stores → Option Ended → Answer × Session
after_run r h s none = (out_of_rounds, open_session s)
after_run r h s (some (Ended.finished x)) = (
  answered x.outcome,
  commit (record {
    committed = record { db = x.db; records = h.1; breaker = x.breaker };
    working = record { db = x.db; records = settle_claim r x.outcome h; breaker = x.breaker };
  }),
)
after_run r h s (some (Ended.cancelled x)) =
    (cancelled, open_session (record { db = x.db; records = h.1; breaker = x.breaker }))
after_run r h s (some (Ended.raised cost x)) =
    (crashed, open_session (record { db = x.db; records = h.1; breaker = x.breaker }))

module _ (fl : Floats) (occurs : Signal → String → Bool) (t : Tables)
    (ps : List (RoutingPolicy fl.F)) (base : Setting) where
  abbrev pub planned : CanonicalRequest → Clocks → PlanningResult
  planned r k = build_plan fl occurs t ps r none k.taken_at k.planned_at

  abbrev pub deadline_of : CanonicalRequest → Clocks → ℕ
  deadline_of r k = k.received_at + 1000 * latency_budget r.controls.max_latency_ms

  -- The orchestrator, with the arguments of this call.
  abbrev pub setting_for : CanonicalRequest → Clocks → Setting
  setting_for r k = record base {
    request = r;
    plan = (planned r k).plan;
    scopes = budget_scopes r;
    deadline_at = deadline_of r k;
  }

  -- The row of the request and the claim are committed before the run.
  unfoldable pub plan_and_run : CanonicalRequest → Clocks → Held → Session → Answer × Session
  plan_and_run r k h x =
      let s = (commit (record x { working = record x.working { records = h.1 } })).committed in
      after_run r h s (run (setting_for r k) k.moments s.db s.breaker)

  unfoldable pub after_claim : CanonicalRequest → Clocks → Session → Claimed → Answer × Session
  unfolding plan_and_run
  after_claim r k x unclaimed = plan_and_run r k (none, x.working.records) x
  after_claim r k x (holds row records) = plan_and_run r k (some row, records) x
  after_claim r k x (rejected why records) =
      (refused why, record x { working = record x.working { records = records } })

  -- The row of the request is written first, and a second one of its id violates the primary key.
  abbrev pub with_row : CanonicalRequest → Clocks → Session → Session
  with_row r k x = record x {
    working = record x.working { db = persist_request r (deadline_of r k) x.working.db };
  }

  -- `_run`; `ready` says that there is an orchestrator.
  unfoldable pub run_request : Bool → CanonicalRequest → Clocks → Session → Answer × Session
  unfolding claim_key after_claim persist_request
  run_request ready r k x =
      if ready
      then if is_some (get_request r.request_id x.working.db.requests)
        then (refused Refusal.duplicate_request, x)
        else after_claim r k (with_row r k x) (claim_key r k.claimed_at x.working.records)
      else (refused Refusal.no_provider_available, x)

  unfoldable pub generate : Bool → CanonicalRequest → Clocks → Stores → Answer × Stores
  unfolding get_session run_request
  generate ready r k s = get_session (run_request ready r k (open_session s))
