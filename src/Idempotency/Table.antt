-- ===== src/Idempotency/Table.antt =====
-- Finding a record after an insert or a change.
use text.Mathlib.TextPositions.{eq_refl}
use llm_token_balancing_gate.Prelude.{
  ℕ, String, ◌≡◌, refl, true, false, none, some, List, [], ◌∷◌, ◌++◌, arith, ◌==◌,
}
use llm_token_balancing_gate.Persistence.{IdempotencyRecord}
use llm_token_balancing_gate.Idempotency.{ClaimRequest, is_for, find, new_record, delete_row}

new_record-is_for : (n : ℕ) (q : ClaimRequest) → is_for q.client_id q.key (new_record n q) ≡ true
unfolding is_for
new_record-is_for n q = rw (eq_refl q.client_id, eq_refl q.key) refl

pub find-append :
    (client key : String) (r : IdempotencyRecord) (rows : List IdempotencyRecord)
    → find client key rows ≡ none
    → is_for client key r ≡ true
    → find client key (rows ++ r ∷ []) ≡ some r
unfolding find
find-append client key r [] h e = rw e refl
find-append client key r (x ∷ rows) h e = ground (arith, find-append client key r rows)

-- An inserted record is found under its key.
pub find-new_record :
    (n : ℕ) (q : ClaimRequest) (rows : List IdempotencyRecord)
    → find q.client_id q.key rows ≡ none
    → find q.client_id q.key (rows ++ new_record n q ∷ []) ≡ some (new_record n q)
find-new_record n q rows h =
    find-append q.client_id q.key (new_record n q) rows h (new_record-is_for n q)

pub find-delete_row :
    (client key : String) (k : ℕ) (r : IdempotencyRecord) (rows : List IdempotencyRecord)
    → find client key rows ≡ some r
    → (r.id == k) ≡ false
    → find client key (delete_row k rows) ≡ some r
unfolding find
find-delete_row client key k r [] h e = cc
find-delete_row client key k r (x ∷ rows) h e = ground (arith, find-delete_row client key k r rows)
