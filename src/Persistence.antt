-- ===== src/Persistence.antt =====
-- src/gateway/persistence/models.py: the tables that a request goes through, beside those of Budget.antt.
-- Rows are found by their primary keys. Times are microseconds, and an id is a text where the column
-- is one. The constraint that a reserved amount is not negative is a hypothesis of the theorems.
use llm_token_balancing_gate.Prelude.{
  ℕ, String, Bool, Option, none, some, List, [], ◌∷◌, str_eq, if◌then◌else◌, ℤ,
}
use llm_token_balancing_gate.Domain.Enums.{
  RequestState, AttemptKind, AttemptOutcome, ValidationResult, IdempotencyState,
}
use llm_token_balancing_gate.Budget.{Ledger}

-- The row of the request lifecycle, as far as it changes after it was inserted.
pub record Request : Type 0 where
  pub id : String
  pub client_id : String
  pub state : RequestState
  pub terminal_reason : Option String
  pub deadline_at : ℕ

pub record Attempt : Type 0 where
  pub id : String
  pub request_id : String
  pub sequence : ℕ
  pub model_id : String
  pub route_rank : ℕ
  pub attempt_kind : AttemptKind
  pub emitted_output : Bool
  pub outcome : Option AttemptOutcome
  pub error_code : Option String
  pub finish_reason : Option String
  pub prompt_tokens : Option ℕ
  pub completion_tokens : Option ℕ
  pub cost_estimated : ℤ
  pub cost_actual : Option ℤ
  pub started_at : ℕ
  pub finished_at : Option ℕ
  pub latency_ms : Option ℕ
  pub output_hash : Option String

pub record Validation : Type 0 where
  pub request_id : String
  pub attempt_id : String
  pub validator_name : String
  pub sequence : ℕ
  pub required : Bool
  pub result : ValidationResult
  pub aggregate_effect : Bool
  pub detail_codes : List String
  pub duration_ms : Option ℕ

pub record IdempotencyRecord : Type 0 where
  pub id : ℕ
  pub client_id : String
  pub idempotency_key : String
  pub input_hash : String
  pub request_id : Option String
  pub state : IdempotencyState
  pub response_ref : Option String
  pub expires_at : ℕ

pub record Database : Type 0 where
  pub ledger : Ledger
  pub requests : List Request
  pub attempts : List Attempt
  pub validations : List Validation

-- `session.get(Attempt, attempt_id)`
abbrev pub get_attempt : String → List Attempt → Option Attempt
get_attempt k [] = none
get_attempt k (a ∷ rows) = if str_eq a.id k then some a else get_attempt k rows

abbrev pub update_attempt : String → (Attempt → Attempt) → List Attempt → List Attempt
update_attempt k f [] = []
update_attempt k f (a ∷ rows) = if str_eq a.id k then f a ∷ rows else a ∷ update_attempt k f rows

-- `session.get(Request, request_id)`
abbrev pub get_request : String → List Request → Option Request
get_request k [] = none
get_request k (r ∷ rows) = if str_eq r.id k then some r else get_request k rows

abbrev pub update_request : String → (Request → Request) → List Request → List Request
update_request k f [] = []
update_request k f (r ∷ rows) = if str_eq r.id k then f r ∷ rows else r ∷ update_request k f rows
