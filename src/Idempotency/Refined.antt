-- ===== src/Idempotency/Refined.antt =====
-- `claim` of src/gateway/services/idempotency.py as a step of one entry of a map from keys to records.
use llm_token_balancing_gate.Prelude.{
  ℕ, ◌+◌, ◌<◌, String, ◌≡◌, refl, sym, ◌∙◌, subst, Bool, true, false, Option, none, some, List, [],
  ◌∷◌, ◌++◌, All, All-append, All-mono, All-keep, arith, ◌==◌, ltb, str_eq, ◌&&◌, if◌then◌else◌,
  not,
}
use llm_token_balancing_gate.Persistence.{IdempotencyRecord}
use llm_token_balancing_gate.Idempotency.{
  ClaimRequest, Records, Outcome, claimed, is_for, find, new_record, delete_row, insert_or_lose,
  claim_rows, resolve_existing, claim_after, claim,
}
use llm_token_balancing_gate.Idempotency.Table.{find-new_record}
use llm_token_balancing_gate.Idempotency.Keyed.{
  IsUnique, is_for-sym, is_for-key, found-is_for, find-deleted, find-undeleted, delete_row-IsUnique,
}

-- The unique constraint, and a counter that is above every id.
pub record IsKeyed (t : Records) : Type 0 where
  pub unique : IsUnique t.rows
  pub below : All (λ (x : IdempotencyRecord). x.id < t.next_id) t.rows

abbrev fresh_claim : ℕ → ClaimRequest → Outcome × Option IdempotencyRecord
fresh_claim n q = (
  claimed (record { record_id = n; request_id = q.request_id; replayed_response_ref = none }),
  some (new_record n q),
)

-- The abstract claim: of the whole table it sees the entry of its key, and changes only that.
abbrev pub claim_entry :
    ℕ → ClaimRequest → Option IdempotencyRecord → Outcome × Option IdempotencyRecord
claim_entry n q none = fresh_claim n q
claim_entry n q (some r) =
    if ltb q.at r.expires_at then (resolve_existing r q, some r) else fresh_claim n q

-- The answer and the table `t'` are those that are wanted of the entry, and no other key sees a change.
pub record Refines (q : ClaimRequest) (t : Records) (want : Outcome × Option IdempotencyRecord)
    (o : Outcome) (t' : Records) : Type 0 where
  pub answer : o ≡ want.0
  pub entry : find q.client_id q.key t'.rows ≡ want.1
  pub others :
      (client key : String)
      → is_for client key (new_record t.next_id q) ≡ false
      → find client key t'.rows ≡ find client key t.rows
  pub keyed : IsKeyed t'

find-append_other :
    (c k : String) (n : IdempotencyRecord) (rows : List IdempotencyRecord)
    → is_for c k n ≡ false
    → find c k (rows ++ n ∷ []) ≡ find c k rows
unfolding find
find-append_other c k n [] h = rw h refl
find-append_other c k n (x ∷ rows) h = ground (arith, find-append_other c k n rows h)

head_apart :
    (c k : String) (x : IdempotencyRecord) (rows : List IdempotencyRecord)
    → find c k (x ∷ rows) ≡ none
    → (is_for c k x ≡ false) × (find c k rows ≡ none)
unfolding find
head_apart c k x rows e = by_test (is_for c k x) e
  where
    by_test :
        (t : Bool)
        → (if t then some x else find c k rows) ≡ none
        → (t ≡ false) × (find c k rows ≡ none)
    by_test true q = absurd (ground arith)
    by_test false q = (refl, q)

append-IsUnique :
    (n : IdempotencyRecord) (rows : List IdempotencyRecord)
    → IsUnique rows
    → find n.client_id n.idempotency_key rows ≡ none
    → All (λ (x : IdempotencyRecord). x.id < n.id) rows
    → IsUnique (rows ++ n ∷ [])
unfolding find
append-IsUnique n [] u e b = (refl, tt, tt)
append-IsUnique n (x ∷ rows) u e b =
    let apart = head_apart n.client_id n.idempotency_key x rows e in
    (
      find-append_other x.client_id x.idempotency_key n rows (is_for-sym x n ∙ apart.0) ∙ u.0,
      All-append _ rows (n ∷ []) u.1 (ground arith, tt),
      append-IsUnique n rows u.2 apart.1 b.1,
    )

-- An insert into rows where the key is free.
inserted-IsKeyed :
    (q : ClaimRequest) (n : ℕ) (rows : List IdempotencyRecord)
    → IsUnique rows
    → All (λ (x : IdempotencyRecord). x.id < n) rows
    → find q.client_id q.key rows ≡ none
    → IsKeyed (record { rows = rows ++ new_record n q ∷ []; next_id = n + 1 })
inserted-IsKeyed q n rows u b e = record {
  unique = append-IsUnique (new_record n q) rows u e b;
  below =
      All-append _ rows (new_record n q ∷ []) (All-mono _ _ rows (λ x h. omega arith) b)
        (omega arith, tt);
}

-- The key is free in the rows that are left, and they answer to other keys as before.
insert-Refines :
    (q : ClaimRequest) (t : Records) (rows : List IdempotencyRecord)
    → IsUnique rows
    → All (λ (x : IdempotencyRecord). x.id < t.next_id) rows
    → find q.client_id q.key rows ≡ none
    → ((client key : String)
        → is_for client key (new_record t.next_id q) ≡ false
        → find client key rows ≡ find client key t.rows)
    → Refines q t (fresh_claim t.next_id q) (claim_rows q rows t).0 (claim_rows q rows t).1
insert-Refines q t rows u b e same =
    subst
      (λ (w : Option IdempotencyRecord).
        Refines q t (fresh_claim t.next_id q) (insert_or_lose w rows q t).0
          (insert_or_lose w rows q t).1)
      (sym e)
      (record {
        answer = refl;
        entry = find-new_record t.next_id q rows e;
        others = λ c k h. find-append_other c k (new_record t.next_id q) rows h ∙ same c k h;
        keyed = inserted-IsKeyed q t.next_id rows u b e;
      })

-- A key that the new record is not for is not the found row's either.
other-found :
    (q : ClaimRequest) (n : ℕ) (r : IdempotencyRecord) (c k : String)
    → is_for q.client_id q.key r ≡ true
    → is_for c k (new_record n q) ≡ false
    → is_for c k r ≡ false
unfolding is_for
other-found q n r c k m =
    is_for-key q.client_id q.key r
      (λ a b. (str_eq a c && str_eq b k) ≡ false → is_for c k r ≡ false) m (λ h. h)

claim_after-Refines :
    (q : ClaimRequest) (t : Records) (seen : Option IdempotencyRecord)
    → IsKeyed t
    → find q.client_id q.key t.rows ≡ seen
    → Refines q t (claim_entry t.next_id q seen) (claim_after seen q t).0 (claim_after seen q t).1
unfolding claim_after
claim_after-Refines q t none i e = insert-Refines q t t.rows i.unique i.below e (λ c k h. refl)
claim_after-Refines q t (some r) i e = by_test (ltb q.at r.expires_at)
  where
    left : List IdempotencyRecord
    left = delete_row r.id t.rows

    by_test :
        (live : Bool)
        → Refines q t
            (if live then (resolve_existing r q, some r) else fresh_claim t.next_id q)
            (if live then (resolve_existing r q, t) else claim_rows q left t).0
            (if live then (resolve_existing r q, t) else claim_rows q left t).1
    by_test true = record { answer = refl; entry = e; others = λ c k h. refl; keyed = i }
    by_test false =
        insert-Refines q t left (delete_row-IsUnique r.id t.rows i.unique)
          (All-keep _ _ (λ y. not (y.id == r.id)) t.rows (λ y h e. h) i.below)
          (find-deleted q.client_id q.key r t.rows i.unique e)
          (λ c k h.
            find-undeleted q.client_id q.key c k r t.rows i.unique e
              (other-found q t.next_id r c k (found-is_for q.client_id q.key r t.rows e) h))

-- On a table with unique keys and ids, a claim refines a step of a map from keys to records: it answers
-- and leaves behind what the entry of its key alone decides (a new record where there was none or it had
-- expired, and else what the live record answers, which stays), every other key keeps its entry, and the
-- table's keys and ids are unique again.
pub claim-Refines :
    (q : ClaimRequest) (t : Records)
    → IsKeyed t
    → Refines q t
        (claim_entry t.next_id q (find q.client_id q.key t.rows))
        (claim q t).0
        (claim q t).1
unfolding claim
claim-Refines q t i = claim_after-Refines q t (find q.client_id q.key t.rows) i refl
