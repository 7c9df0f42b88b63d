-- ===== src/Examples/Keys.antt =====
-- A table of idempotency records with one key claimed, and two requests that race for another.
use llm_token_balancing_gate.Prelude.{String, ◌≡◌, refl, none, some, [], ◌∷◌, arith}
use llm_token_balancing_gate.Domain.Enums.{IdempotencyState}
use llm_token_balancing_gate.Persistence.{IdempotencyRecord}
use llm_token_balancing_gate.Idempotency.{
  Records, ClaimRequest, claimed, find, is_for, claim_after, claim, fail,
}
use llm_token_balancing_gate.Idempotency.Race.{lost_to, one_winner}
use llm_token_balancing_gate.Idempotency.Replay.{claim-fail}
use llm_token_balancing_gate.Idempotency.Refined.{Refines, claim_entry, claim-Refines}

abbrev first_record : IdempotencyRecord
first_record = record {
  id = 1;
  client_id = "alice";
  idempotency_key = "k1";
  input_hash = "h1";
  request_id = some "req_1";
  state = IdempotencyState.in_progress;
  response_ref = none;
  expires_at = 1000;
}

abbrev one_record : Records
one_record = record { rows = first_record ∷ []; next_id = 2 }

abbrev claim_of : String → String → String → ClaimRequest
claim_of key input request_id = record {
  client_id = "alice";
  key = key;
  input_hash = input;
  request_id = request_id;
  at = 100;
  ttl = 1000;
}

one_winner_example :
    claim_after none
      (claim_of "k2" "h2" "req_3")
      (claim_after none (claim_of "k2" "h2" "req_2") one_record).1
    ≡ (
      lost_to (claim_of "k2" "h2" "req_2") (claim_of "k2" "h2" "req_3"),
      (claim_after none (claim_of "k2" "h2" "req_2") one_record).1,
    )
unfolding claim_after find is_for
one_winner_example =
    one_winner one_record (claim_of "k2" "h2" "req_2") (claim_of "k2" "h2" "req_3") none none
      (omega arith) (record { client = refl; key = refl }) tt (λ r e. cc)

claim-fail_example : claim (claim_of "k1" "h1" "req_2") (fail 1 one_record) ≡ (
  claimed (record { record_id = 1; request_id = "req_2"; replayed_response_ref = none }),
  fail 1 one_record,
)
unfolding find is_for
claim-fail_example =
    claim-fail one_record (claim_of "k1" "h1" "req_2") first_record refl (omega arith) refl

-- A claim of a key whose record has expired.
abbrev late : ClaimRequest
late = record {
  client_id = "alice";
  key = "k1";
  input_hash = "h2";
  request_id = "req_2";
  at = 2000;
  ttl = 1000;
}

claim-Refines_example :
    Refines late one_record
      (claim_entry 2 late (find "alice" "k1" one_record.rows))
      (claim late one_record).0
      (claim late one_record).1
unfolding find
claim-Refines_example =
    claim-Refines late one_record (record { unique = (refl, tt, tt); below = (omega arith, tt) })
