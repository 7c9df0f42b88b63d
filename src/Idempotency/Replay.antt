-- ===== src/Idempotency/Replay.antt =====
-- What a later request with the key gets, once the first has completed or failed.
use llm_token_balancing_gate.Prelude.{
  ℕ, ◌<◌, String, ◌≡◌, refl, ap, ◌∙◌, true, false, not, none, some, List, [], ◌∷◌, arith, str_eq,
  if◌then◌else◌, ltb,
}
use llm_token_balancing_gate.Domain.Enums.{IdempotencyState}
use llm_token_balancing_gate.Persistence.{IdempotencyRecord}
use llm_token_balancing_gate.Idempotency.{
  ClaimRequest, Records, Outcome, claimed, idempotency_conflict, is_for, find, or_else,
  resolve_existing, claim, complete, fail, update_row,
}

lt_live : (a b : ℕ) → a < b → ltb a b ≡ true
lt_live a b h = ground arith

-- A live record that is found decides the claim, and nothing is written.
pub claim_live :
    (q : ClaimRequest) (t : Records) (r : IdempotencyRecord)
    → find q.client_id q.key t.rows ≡ some r
    → q.at < r.expires_at
    → claim q t ≡ (resolve_existing r q, t)
unfolding claim
claim_live q t r e live = rw (e, lt_live q.at r.expires_at live) refl

module _ (k : ℕ) (f : IdempotencyRecord → IdempotencyRecord)
    (keeps : (client key : String) (r : IdempotencyRecord)
      → is_for client key (f r) ≡ is_for client key r) where
  -- A change of the found row, which keeps its key, is found.
  find-update_row :
      (client key : String) (r : IdempotencyRecord) (rows : List IdempotencyRecord)
      → find client key rows ≡ some r
      → r.id ≡ k
      → find client key (update_row k f rows) ≡ some (f r)
  unfolding find
  find-update_row client key r [] e same = cc
  find-update_row client key r (x ∷ rows) e same =
      ground (arith, keeps client key x, find-update_row client key r rows)

-- The answer to a request with the key of a completed record.
abbrev pub answer_completed : IdempotencyRecord → String → ClaimRequest → Outcome
answer_completed r ref p =
    if not (str_eq r.input_hash p.input_hash)
    then idempotency_conflict
    else claimed (record {
      record_id = r.id;
      request_id = or_else r.request_id p.request_id;
      replayed_response_ref = some ref;
    })

abbrev completed_row : String → IdempotencyRecord → IdempotencyRecord
completed_row ref r = record r { state = IdempotencyState.completed; response_ref = some ref }

abbrev failed_row : IdempotencyRecord → IdempotencyRecord
failed_row r = record r { state = IdempotencyState.failed }

resolve-completed_row :
    (ref : String) (r : IdempotencyRecord) (p : ClaimRequest)
    → str_eq ref "" ≡ false
    → resolve_existing (completed_row ref r) p ≡ answer_completed r ref p
unfolding resolve_existing
resolve-completed_row ref r p filled = rw filled refl

-- After the record of a key was completed with a response, and until it expires, a claim of that key
-- replays the stored response if its input is the same, is a conflict if it is not, and writes
-- nothing in either case.
pub claim-complete :
    (t : Records) (p : ClaimRequest) (r : IdempotencyRecord) (ref : String)
    → find p.client_id p.key t.rows ≡ some r
    → p.at < r.expires_at
    → str_eq ref "" ≡ false
    → claim p (complete r.id ref t) ≡ (answer_completed r ref p, complete r.id ref t)
unfolding complete is_for
claim-complete t p r ref e live filled =
    claim_live p (complete r.id ref t) (completed_row ref r)
      (find-update_row r.id (completed_row ref) (λ c k x. refl) p.client_id p.key r t.rows e refl)
      live
    ∙ ap (λ (o : Outcome). (o, complete r.id ref t)) (resolve-completed_row ref r p filled)

-- After the claim of a key failed, and until its record expires, every claim of that key with the
-- same input proceeds and leaves the table as it was: so any number of them proceed at a time.
pub claim-fail :
    (t : Records) (p : ClaimRequest) (r : IdempotencyRecord)
    → find p.client_id p.key t.rows ≡ some r
    → p.at < r.expires_at
    → str_eq r.input_hash p.input_hash ≡ true
    → claim p (fail r.id t) ≡ (
      claimed
          (record { record_id = r.id; request_id = p.request_id; replayed_response_ref = none }),
      fail r.id t,
    )
unfolding fail is_for resolve_existing
claim-fail t p r e live same =
    claim_live p (fail r.id t) (failed_row r)
      (find-update_row r.id failed_row (λ c k x. refl) p.client_id p.key r t.rows e refl) live
    ∙ rw same refl
