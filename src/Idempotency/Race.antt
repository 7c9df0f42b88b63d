-- ===== src/Idempotency/Race.antt =====
-- Requests that race for one key, and what the claims let through.
use llm_token_balancing_gate.Prelude.{
  ℕ, ◌+◌, ◌<◌, ◌≤◌, ◌≡◌, refl, sym, subst, ap, ap₂, ◌∙◌, Bool, true, false, not, Option, none, some,
  List, [], ◌∷◌, ◌++◌, arith, str_eq, if◌then◌else◌, ltb, le→ltb_false,
}
use llm_token_balancing_gate.Persistence.{IdempotencyRecord}
use llm_token_balancing_gate.Idempotency.{
  ClaimRequest, Records, Outcome, idempotency_conflict, request_in_progress, find, new_record,
  delete_row, insert_or_lose, claim_rows, resolve_existing, claim_after,
}
use llm_token_balancing_gate.Idempotency.Table.{find-new_record, find-delete_row}

-- What a request that meets the new record of `q` gets.
pub lost_to : ClaimRequest → ClaimRequest → Outcome
lost_to q p =
    if not (str_eq q.input_hash p.input_hash) then idempotency_conflict else request_in_progress

resolve-new_record :
    (n : ℕ) (q p : ClaimRequest) → resolve_existing (new_record n q) p ≡ lost_to q p
unfolding resolve_existing lost_to
resolve-new_record n q p = refl

-- Two requests share a key.
pub record SameKey (q p : ClaimRequest) : Type 0 where
  pub client : p.client_id ≡ q.client_id
  pub key : p.key ≡ q.key

-- The row that the loser read is not the winner's: it was read before the winner's insert.
abbrev pub ReadBefore : Option IdempotencyRecord → ℕ → Type 0
ReadBefore none n = Unit
ReadBefore (some r) n = r.id < n

-- The claim that a request made by inserting a row.
abbrev pub inserted : Records → ClaimRequest → List IdempotencyRecord → Records
inserted t q rows = record { rows = rows ++ new_record t.next_id q ∷ []; next_id = t.next_id + 1 }

-- What an insert leaves behind: the key was free in the rows that it added to.
record HasInserted (t : Records) (q : ClaimRequest) (t' : Records) : Type 0 where
  rows : List IdempotencyRecord
  free : find q.client_id q.key rows ≡ none
  table : t' ≡ inserted t q rows

insert_or_lose-inserted :
    (o : Option IdempotencyRecord) (rows : List IdempotencyRecord) (q : ClaimRequest) (t : Records)
    → find q.client_id q.key rows ≡ o
    → t.next_id < (insert_or_lose o rows q t).1.next_id
    → HasInserted t q (insert_or_lose o rows q t).1
insert_or_lose-inserted none rows q t e h = record { rows = rows; free = e; table = refl }
insert_or_lose-inserted (some winner) rows q t e h = absurd (omega arith)

claim_after-inserted :
    (seen : Option IdempotencyRecord) (q : ClaimRequest) (t : Records)
    → t.next_id < (claim_after seen q t).1.next_id
    → HasInserted t q (claim_after seen q t).1
unfolding claim_after
claim_after-inserted none q t h =
    insert_or_lose-inserted (find q.client_id q.key t.rows) t.rows q t refl h
claim_after-inserted (some r) q t h = by_expiry (ltb q.at r.expires_at) h
  where
    left : List IdempotencyRecord
    left = delete_row r.id t.rows

    by_expiry :
        (live : Bool)
        → t.next_id < (if live then (resolve_existing r q, t) else claim_rows q left t).1.next_id
        → HasInserted t q (if live then (resolve_existing r q, t) else claim_rows q left t).1
    by_expiry true h = absurd (omega arith)
    by_expiry false h = insert_or_lose-inserted (find q.client_id q.key left) left q t refl h

module _ (n : ℕ) (q p : ClaimRequest) (same : SameKey q p) where
  lose :
      (rows : List IdempotencyRecord) (t : Records)
      → find q.client_id q.key rows ≡ some (new_record n q)
      → claim_rows p rows t ≡ (lost_to q p, t)
  lose rows t e =
      ap (λ o. insert_or_lose o rows p t) (ap₂ (λ c k. find c k rows) same.client same.key ∙ e)
      ∙ ap (λ (o : Outcome). (o, t)) (resolve-new_record n q p)

lose_race :
    (t : Records) (rows : List IdempotencyRecord) (q p : ClaimRequest)
    (seen : Option IdempotencyRecord)
    → find q.client_id q.key rows ≡ none
    → SameKey q p
    → ReadBefore seen t.next_id
    → ((r : IdempotencyRecord) → seen ≡ some r → r.expires_at ≤ p.at)
    → claim_after seen p (inserted t q rows) ≡ (lost_to q p, inserted t q rows)
unfolding claim_after
lose_race t rows q p none free same before dead =
    lose t.next_id q p same (rows ++ new_record t.next_id q ∷ []) (inserted t q rows)
      (find-new_record t.next_id q rows free)
lose_race t rows q p (some r) free same before dead = rw (le→ltb_false _ _ (dead r refl)) (
    lose t.next_id q p same (delete_row r.id (rows ++ new_record t.next_id q ∷ []))
      (inserted t q rows)
      (find-delete_row q.client_id q.key r.id (new_record t.next_id q)
        (rows ++ new_record t.next_id q ∷ []) (find-new_record t.next_id q rows free)
        (ground arith)))

-- Of the requests that race for a key, one inserts its record. Every other one with that key that
-- had read the table before the insert, and found no record or an expired one, is refused without
-- a write: as a conflict if its input differs, and as still in progress if it is the same.
pub one_winner :
    (t : Records) (q p : ClaimRequest) (seen_q seen_p : Option IdempotencyRecord)
    → t.next_id < (claim_after seen_q q t).1.next_id
    → SameKey q p
    → ReadBefore seen_p t.next_id
    → ((r : IdempotencyRecord) → seen_p ≡ some r → r.expires_at ≤ p.at)
    → claim_after seen_p p (claim_after seen_q q t).1 ≡ (lost_to q p, (claim_after seen_q q t).1)
one_winner t q p seen_q seen_p grew same before dead =
    let won = claim_after-inserted seen_q q t grew in
    subst (λ t'. claim_after seen_p p t' ≡ (lost_to q p, t')) (sym won.table)
      (lose_race t won.rows q p seen_p won.free same before dead)
