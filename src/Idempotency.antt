-- ===== src/Idempotency.antt =====
-- src/gateway/services/idempotency.py over the table `idempotency_records`. A claim reads the table first
-- and inserts later; other requests may write in between, so the row that was read and the table at
-- the insert are two arguments, and `claim` is the case where nothing came in between.
pub mod Table
pub mod Replay
pub mod Race
pub mod Keyed
pub mod Refined
use llm_token_balancing_gate.Prelude.{
  ℕ, ◌+◌, String, Bool, true, false, not, ◌&&◌, Option, none, some, List, [], ◌∷◌, ◌++◌, ltb, ◌==◌,
  str_eq, if◌then◌else◌, keep,
}
use llm_token_balancing_gate.Domain.Enums.{IdempotencyState}
use llm_token_balancing_gate.Persistence.{IdempotencyRecord}

pub record Records : Type 0 where
  pub rows : List IdempotencyRecord
  pub next_id : ℕ

pub record Claim : Type 0 where
  pub record_id : ℕ
  pub request_id : String
  pub replayed_response_ref : Option String

-- `Claim.is_replay`
abbrev pub is_replay : Claim → Bool
is_replay c = elim c.replayed_response_ref [ none ↦ false | some _ ↦ true ]

pub data Outcome : Type 0 where
  claimed : Claim → Outcome
  idempotency_conflict request_in_progress : Outcome

pub record ClaimRequest : Type 0 where
  pub client_id : String
  pub key : String
  pub input_hash : String
  pub request_id : String
  pub at : ℕ
  pub ttl : ℕ

-- DEFAULT_TTL, 24 hours.
abbrev pub default_ttl : ℕ
default_ttl = 86_400_000_000

unfoldable pub is_for : String → String → IdempotencyRecord → Bool
is_for client key r = str_eq r.client_id client && str_eq r.idempotency_key key

-- `IdempotencyRepository.find`
unfoldable pub find : String → String → List IdempotencyRecord → Option IdempotencyRecord
unfolding is_for
find client key [] = none
find client key (r ∷ rows) = if is_for client key r then some r else find client key rows

abbrev pub or_else : Option String → String → String
or_else none d = d
or_else (some s) d = if str_eq s "" then d else s

-- A completed record with a response replays it; an empty reference counts as none.
abbrev pub replay_or : IdempotencyRecord → String → Option String → Outcome → Outcome
replay_or r request_id none other = other
replay_or r request_id (some ref) other =
    if str_eq ref ""
    then other
    else claimed (record {
      record_id = r.id;
      request_id = or_else r.request_id request_id;
      replayed_response_ref = some ref;
    })

abbrev pub proceed : IdempotencyRecord → String → Outcome
proceed r request_id =
    claimed (record { record_id = r.id; request_id = request_id; replayed_response_ref = none })

abbrev pub by_state : IdempotencyState → IdempotencyRecord → String → Outcome
by_state IdempotencyState.completed r request_id =
    replay_or r request_id r.response_ref (proceed r request_id)
by_state IdempotencyState.in_progress r request_id = request_in_progress
by_state IdempotencyState.failed r request_id = proceed r request_id

unfoldable pub resolve_existing : IdempotencyRecord → ClaimRequest → Outcome
resolve_existing r q =
    if not (str_eq r.input_hash q.input_hash)
    then idempotency_conflict
    else by_state r.state r q.request_id

abbrev pub new_record : ℕ → ClaimRequest → IdempotencyRecord
new_record row_id q = record {
  id = row_id;
  client_id = q.client_id;
  idempotency_key = q.key;
  input_hash = q.input_hash;
  request_id = some q.request_id;
  state = IdempotencyState.in_progress;
  response_ref = none;
  expires_at = q.at + q.ttl;
}

-- The insert under the unique constraint: on a conflict the transaction is rolled back, the delete
-- with it, and the winner decides.
abbrev pub insert_or_lose :
    Option IdempotencyRecord → List IdempotencyRecord → ClaimRequest → Records → Outcome × Records
insert_or_lose (some winner) rows q t = (resolve_existing winner q, t)
insert_or_lose none rows q t = (
  claimed
      (record { record_id = t.next_id; request_id = q.request_id; replayed_response_ref = none }),
  record { rows = rows ++ new_record t.next_id q ∷ []; next_id = t.next_id + 1 },
)

-- `session.delete`, by the primary key.
abbrev pub delete_row : ℕ → List IdempotencyRecord → List IdempotencyRecord
delete_row k rows = keep (λ r. not (r.id == k)) rows

abbrev pub claim_rows : ClaimRequest → List IdempotencyRecord → Records → Outcome × Records
claim_rows q rows t = insert_or_lose (find q.client_id q.key rows) rows q t

unfoldable pub claim_after : Option IdempotencyRecord → ClaimRequest → Records → Outcome × Records
unfolding find resolve_existing
claim_after none q t = claim_rows q t.rows t
claim_after (some seen) q t =
    if ltb q.at seen.expires_at
    then (resolve_existing seen q, t)
    else claim_rows q (delete_row seen.id t.rows) t

unfoldable pub claim : ClaimRequest → Records → Outcome × Records
unfolding claim_after
claim q t = claim_after (find q.client_id q.key t.rows) q t

abbrev pub update_row :
    ℕ → (IdempotencyRecord → IdempotencyRecord) → List IdempotencyRecord → List IdempotencyRecord
update_row k f [] = []
update_row k f (r ∷ rows) = (if r.id == k then f r else r) ∷ update_row k f rows

unfoldable pub complete : ℕ → String → Records → Records
complete k response_ref t = record t {
  rows =
      update_row k
        (λ r. record r { state = IdempotencyState.completed; response_ref = some response_ref })
        t.rows;
}

unfoldable pub fail : ℕ → Records → Records
fail k t = record t {
  rows = update_row k (λ r. record r { state = IdempotencyState.failed }) t.rows;
}
