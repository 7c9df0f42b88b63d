-- ===== src/Reconciler/Stale.antt =====
-- `expire_stale_requests` of src/gateway/services/reconciler.py against its declarative form.
use text.Mathlib.TextPositions.{eq_refl}
use llm_token_balancing_gate.Prelude.{
  ℕ, String, suc, ◌≡◌, refl, ap, ap₂, ◌∙◌, Bool, true, false, List, [], ◌∷◌, map, arith,
  if◌then◌else◌, str_eq, eq_iff, str_elem, keep, length,
}
use llm_token_balancing_gate.Domain.Enums.{is_terminal}
use llm_token_balancing_gate.Persistence.{Request, update_request}
use llm_token_balancing_gate.Reconciler.{
  is_stale, stale_requests, expire, expire_each, expire_stale_requests,
}

abbrev request_ids_of : List Request → List String
request_ids_of = map λ r. r.id

-- The primary key: no id stands twice.
abbrev pub DistinctRequests : List Request → Type 0
DistinctRequests [] = Unit
DistinctRequests (r ∷ rows) = (str_elem r.id (request_ids_of rows) ≡ false) × DistinctRequests rows

-- UPDATE requests SET state = EXPIRED … WHERE stale
abbrev pub expire_where : ℕ → List Request → List Request
expire_where now [] = []
expire_where now (r ∷ rows) = (if is_stale now r then expire r else r) ∷ expire_where now rows

expire_each-skip :
    (ks : List String) (r : Request) (rows : List Request)
    → str_elem r.id ks ≡ false
    → expire_each ks (r ∷ rows) ≡ r ∷ expire_each ks rows
unfolding expire_each
expire_each-skip [] r rows h = refl
expire_each-skip (k ∷ ks) r rows h =
    let other : str_eq r.id k ≡ false = ground (arith, eq_iff r.id k, eq_iff k r.id) in
    rw other (expire_each-skip ks r (update_request k expire rows) (ground arith))

stale_absent :
    (now : ℕ) (k : String) (rows : List Request)
    → str_elem k (request_ids_of rows) ≡ false
    → str_elem k (stale_requests now rows) ≡ false
unfolding stale_requests
stale_absent now k [] h = refl
stale_absent now k (r ∷ rows) h = ground (arith, stale_absent now k rows)

update_request_head :
    (r : Request) (rows : List Request) → update_request r.id expire (r ∷ rows) ≡ expire r ∷ rows
update_request_head r rows = rw (eq_refl r.id) refl

expire_head :
    (now : ℕ) (r : Request) (rows : List Request)
    → str_elem r.id (request_ids_of rows) ≡ false
    → expire_each (stale_requests now rows) rows ≡ expire_where now rows
    → (stale : Bool)
    → expire_each
        (request_ids_of (if stale then r ∷ keep (is_stale now) rows else keep (is_stale now) rows))
        (r ∷ rows)
      ≡ (if stale then expire r else r) ∷ expire_where now rows
unfolding stale_requests expire_each
expire_head now r rows h ih true =
    ap (expire_each (stale_requests now rows)) (update_request_head r rows)
    ∙ expire_each-skip (stale_requests now rows) (expire r) rows (stale_absent now r.id rows h)
    ∙ ap (λ t. expire r ∷ t) ih
expire_head now r rows h ih false =
    expire_each-skip (stale_requests now rows) r rows (stale_absent now r.id rows h)
    ∙ ap (λ t. r ∷ t) ih

expire_each-stale :
    (now : ℕ) (rows : List Request)
    → DistinctRequests rows
    → expire_each (stale_requests now rows) rows ≡ expire_where now rows
unfolding stale_requests expire_each
expire_each-stale now [] d = refl
expire_each-stale now (r ∷ rows) d =
    expire_head now r rows d.0 (expire_each-stale now rows d.1) (is_stale now r)

length-request_ids : (rows : List Request) → length (request_ids_of rows) ≡ length rows
length-request_ids [] = refl
length-request_ids (r ∷ rows) = ap suc (length-request_ids rows)

-- Exactly the requests that are past their deadline and not terminal are moved to EXPIRED, every
-- other request is left as it is, and the count is that of the stale ones.
pub expire_stale_requests_exact :
    (now : ℕ) (rows : List Request)
    → DistinctRequests rows
    → expire_stale_requests now rows ≡ (length (keep (is_stale now) rows), expire_where now rows)
unfolding expire_stale_requests
expire_stale_requests_exact now rows d =
    ap₂ (λ n t. (n, t)) (length-request_ids (keep (is_stale now) rows))
      (expire_each-stale now rows d)

not_stale_after :
    (now : ℕ) (r : Request) (stale : Bool)
    → is_stale now r ≡ stale
    → is_stale now (if stale then expire r else r) ≡ false
unfolding is_stale is_terminal
not_stale_after now r true e = ground arith
not_stale_after now r false e = e

none_stale_after :
    (now : ℕ) (rows : List Request) → keep (is_stale now) (expire_where now rows) ≡ []
none_stale_after now [] = refl
none_stale_after now (r ∷ rows) =
    rw (not_stale_after now r (is_stale now r) refl) (none_stale_after now rows)

-- Once a pass has expired the stale requests, a second pass at the same time finds none.
pub expire_stale_requests_twice :
    (now : ℕ) (rows : List Request)
    → DistinctRequests rows
    → stale_requests now (expire_stale_requests now rows).1 ≡ []
unfolding stale_requests
expire_stale_requests_twice now rows d =
    ap (λ t. request_ids_of (keep (is_stale now) t.1)) (expire_stale_requests_exact now rows d)
    ∙ ap request_ids_of (none_stale_after now rows)
