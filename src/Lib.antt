-- ===== src/Lib.antt =====
-- A model of the LLM token balancing gateway (src/gateway), a service that routes a request to one of
-- several language model providers, keeps a ledger of budgets, retries and repairs, and validates what
-- it returns, with proofs of what its services promise.
--
-- How the parts interact. A body is normalized to a canonical request. A call persists it and
-- claims its idempotency key. The request is classified and planned: the registry is frozen, the
-- policy pipeline keeps the models that may serve it, and the router ranks them. The lifecycle
-- walks the frozen candidates of the plan: for each attempt it reserves money in the ledger, calls
-- the provider's adapter, settles or releases the hold, runs the validation plan on the result, and
-- asks the retry rules and the circuit breaker what to do next. The idempotency table lets one
-- request through for a key, and the reconciler clears up after a process that stopped.
--
-- What models what:
--   Prelude      shared names: tests on numbers, lists, exact money as an integer of nanodollars
--   Domain       src/gateway/domain: enumerations and their orders (Enums), `strictest` (Strictest),
--                controls and the canonical request (Requests), snapshots and plans (Routing)
--   Controls     `resolve_controls` of src/gateway/services/controls.py
--   Budget       src/gateway/services/budget.py: `_lock_budgets`, `headroom`, `reserve`, `_resolve`,
--                `settle`, `release`, `settle_partial`, `expire_orphans`, by the same names
--   Persistence  the tables of src/gateway/persistence/models.py that the lifecycle writes
--   Reconciler   src/gateway/services/reconciler.py, one function for each of its passes
--   Policy       src/gateway/services/policy.py: `estimate_cost` and `evaluate`, gate by gate
--   Normalizer   src/gateway/services/normalizer.py: both endpoints (Endpoints) and what they share
--   Errors       src/gateway/domain/errors.py, and what src/gateway/api makes of a failure (Rendered)
--   Registry     src/gateway/services/registry.py with the queries of ModelRepository (Prices: `price_at`)
--   Router       src/gateway/services/router.py: `rank` with its scores; Router.Plan is `plan` and
--                `route_upper_bound`
--   Classifier   src/gateway/services/classifier.py: `classify` and `quality_floor_for`
--   Planning     src/gateway/services/planning.py: `_validation_plan_for` and `build_plan`, with
--                `PolicyRepository.active_for`
--   Resilience   src/gateway/services/resilience.py: `RetryPolicy`, `may_retry`, `CircuitBreaker`
--   Validators   src/gateway/validators/base.py: aggregation and `run_plan`
--   Json, Schema the values of `json.loads`, and `_check_schema` of src/gateway/validators/deterministic.py
--   Deterministic the validators of the same file
--   Idempotency  src/gateway/services/idempotency.py: `claim`, `complete`, `fail`
--   Providers    the data of src/gateway/providers/base.py
--   Attempts     the rows that an attempt writes in src/gateway/services/orchestrator.py
--   Orchestrator `_attempt` of the same file; Lifecycle is its `run` and `_terminal`
--   StreamModes  `decide` of src/gateway/services/streaming.py
--   Streaming    `_passthrough` of the orchestrator
--   Generation   `_run` of src/gateway/api/generation.py, the composition of the services
--   Examples     concrete inputs, with the theorems applied to them
-- The children of a module hold its proofs, named for what they prove.
--
-- State. A transaction is one function from a ledger or a database to the next: it runs alone, as BEGIN
-- IMMEDIATE and the row locks make it do, and a raise leaves the tables as they were. A ledger is
-- consistent if each budget's `reserved` is the sum of the active holds on it, no hold is negative, and
-- the ids of the holds are distinct and were given out by the counter. A claim of an idempotency key
-- reads the table at one time and inserts at another, so the row that was read is an argument. A call of
-- `_run` has a session with the committed stores and those that it sees: a commit makes the first of the
-- second, and an exception rolls back to the first.
--
-- Parameters. What an adapter answers, what each clock reads and what the generator of the backoff draws
-- are the fields of a `Moment`, one for each round of the loop; the keyed digest and the validators are
-- fields of the `Setting`. There are no floats: their type, their operations and the roundings that make
-- numbers of them are the record `Floats`, and which regular expressions occur in a text is a function.
-- What the standard library does to a text that is validated is the record `TextTools`. Nothing is
-- assumed of any of these. A validator may raise, and a wait may be cancelled.
--
-- Bounds and fuel. Money is exact: a Decimal of nine places is a whole number of nanodollars. Times are
-- natural numbers of microseconds, and no integer is of a fixed width. The loop of `run` is recursion on
-- fuel, with a round for each attempt that the plan allows, for each candidate, and one more: a round
-- either uses an attempt, passes a candidate, or ends the run.
--
-- Not modelled: the endpoints of the HTTP API around `_run`, authentication and the bodies of results,
-- telemetry, the engine, the seed and the migrations, and the adapters, which are input and output
-- or generated; the checks of a body by its pydantic schema, and the parsing of headers and bodies
-- into layers of controls; the replay of a buffered result as a stream. Scores, confidences and
-- probabilities are in no record, since they are floats. What other processes do between two
-- transactions of one call is not represented, except for the claims of idempotency keys, and neither
-- are errors of the database.
pub mod Prelude
pub mod Domain
pub mod Controls
pub mod Budget
pub mod Persistence
pub mod Policy
pub mod Registry
pub mod Router
pub mod Classifier
pub mod Planning
pub mod Reconciler
pub mod Resilience
pub mod Validators
pub mod Json
pub mod Schema
pub mod Deterministic
pub mod Normalizer
pub mod Idempotency
pub mod Providers
pub mod Attempts
pub mod Orchestrator
pub mod Lifecycle
pub mod StreamModes
pub mod Streaming
pub mod Generation
pub mod Errors
pub mod Examples
