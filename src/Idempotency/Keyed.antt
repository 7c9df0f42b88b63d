-- ===== src/Idempotency/Keyed.antt =====
-- The unique constraint of the table `idempotency_records`, and what a delete does to each key.
use llm_token_balancing_gate.Prelude.{
  ℕ, String, ◌≡◌, refl, sym, subst, Bool, true, false, none, some, List, [], ◌∷◌, All, All-mono,
  All-keep, arith, ◌==◌, str_eq, eq_iff, keep, not, if◌then◌else◌,
}
use llm_token_balancing_gate.Persistence.{IdempotencyRecord}
use llm_token_balancing_gate.Idempotency.{is_for, find, delete_row}

-- No two rows share a client and a key, and none share an id.
abbrev pub IsUnique : List IdempotencyRecord → Type 0
IsUnique [] = Unit
IsUnique (r ∷ rows) =
    (find r.client_id r.idempotency_key rows ≡ none)
    × All (λ (x : IdempotencyRecord). (x.id == r.id) ≡ false) rows
    × IsUnique rows

same_truth : (t u : Bool) → (t ≡ true → u ≡ true) → (u ≡ true → t ≡ true) → t ≡ u
same_truth true true f g = refl
same_truth true false f g = sym (f refl)
same_truth false true f g = g refl
same_truth false false f g = refl

str_eq-sym : (a b : String) → str_eq a b ≡ str_eq b a
str_eq-sym a b =
    same_truth (str_eq a b) (str_eq b a) (λ e. (eq_iff b a).1 (sym ((eq_iff a b).0 e)))
      (λ e. (eq_iff a b).1 (sym ((eq_iff b a).0 e)))

pub is_for-sym :
    (r s : IdempotencyRecord)
    → is_for r.client_id r.idempotency_key s ≡ is_for s.client_id s.idempotency_key r
unfolding is_for
is_for-sym r s =
    rw (str_eq-sym s.client_id r.client_id, str_eq-sym s.idempotency_key r.idempotency_key) refl

-- The key of a row that is found is the key that was looked for.
pub is_for-key :
    (c k : String) (r : IdempotencyRecord) (P : String → String → Type 0)
    → is_for c k r ≡ true
    → P r.client_id r.idempotency_key
    → P c k
unfolding is_for
is_for-key c k r P e h =
    let e0 : str_eq r.client_id c ≡ true = ground arith in
    let e1 : str_eq r.idempotency_key k ≡ true = ground arith in
    subst (λ x. P x k) ((eq_iff r.client_id c).0 e0)
      (subst (λ y. P r.client_id y) ((eq_iff r.idempotency_key k).0 e1) h)

find-keep_none :
    (c k : String) (p : IdempotencyRecord → Bool) (rows : List IdempotencyRecord)
    → find c k rows ≡ none
    → find c k (keep p rows) ≡ none
unfolding find
find-keep_none c k p [] e = e
find-keep_none c k p (x ∷ rows) e = ground (arith, find-keep_none c k p rows)

-- The deleted row is the only one of its key.
pub find-deleted :
    (c k : String) (r : IdempotencyRecord) (rows : List IdempotencyRecord)
    → IsUnique rows
    → find c k rows ≡ some r
    → find c k (delete_row r.id rows) ≡ none
unfolding find
find-deleted c k r [] u e = cc
find-deleted c k r (x ∷ rows) u e =
    by_test (is_for c k x) refl (λ q. find-deleted c k r rows u.2 q) e
  where
    gone : is_for c k x ≡ true → find c k (delete_row r.id rows) ≡ none
    gone m =
        find-keep_none c k (λ y. not (y.id == r.id)) rows
          (is_for-key c k x (λ a b. find a b rows ≡ none) m u.0)

    by_test :
        (t : Bool)
        → is_for c k x ≡ t
        → (find c k rows ≡ some r → find c k (delete_row r.id rows) ≡ none)
        → (if t then some x else find c k rows) ≡ some r
        → find c k (delete_row r.id (x ∷ rows)) ≡ none
    by_test true m rest q =
        let same : x ≡ r = cc in
        let self : (x.id == r.id) ≡ true =
          subst (λ (y : IdempotencyRecord). (x.id == y.id) ≡ true) same (ground arith) in
        rw self (gone m)
    by_test false m rest q = ground (arith, rest q)

-- What holds of all rows holds of one that is found.
All-found {κ} :
    (P : IdempotencyRecord → Type κ) (c k : String) (r : IdempotencyRecord)
    (rows : List IdempotencyRecord)
    → All P rows
    → find c k rows ≡ some r
    → P r
unfolding find
All-found P c k r [] h e = absurd (ground arith)
All-found P c k r (x ∷ rows) h e = by_test (is_for c k x) (λ q. All-found P c k r rows h.1 q) e
  where
    by_test :
        (t : Bool)
        → (find c k rows ≡ some r → P r)
        → (if t then some x else find c k rows) ≡ some r
        → P r
    by_test true rest q = let same : x ≡ r = cc in subst P same h.0
    by_test false rest q = rest q

-- A row that is found is for the key.
pub found-is_for :
    (c k : String) (r : IdempotencyRecord) (rows : List IdempotencyRecord)
    → find c k rows ≡ some r
    → is_for c k r ≡ true
unfolding find
found-is_for c k r [] e = absurd (ground arith)
found-is_for c k r (x ∷ rows) e = by_test (is_for c k x) refl (λ q. found-is_for c k r rows q) e
  where
    by_test :
        (t : Bool)
        → is_for c k x ≡ t
        → (find c k rows ≡ some r → is_for c k r ≡ true)
        → (if t then some x else find c k rows) ≡ some r
        → is_for c k r ≡ true
    by_test true m rest q =
        let same : x ≡ r = cc in subst (λ (y : IdempotencyRecord). is_for c k y ≡ true) same m
    by_test false m rest q = rest q

-- A delete leaves the rows that are not deleted to a key.
find-keep :
    (c k : String) (i : ℕ) (rows : List IdempotencyRecord)
    → All (λ (x : IdempotencyRecord). (x.id == i) ≡ true → is_for c k x ≡ false) rows
    → find c k (delete_row i rows) ≡ find c k rows
unfolding find
find-keep c k i [] h = refl
find-keep c k i (x ∷ rows) h = ground (arith, find-keep c k i rows h.1, h.0)

OnlyFound : String → String → ℕ → List IdempotencyRecord → Type 0
OnlyFound c k i rows =
    All (λ (x : IdempotencyRecord). (x.id == i) ≡ true → is_for c k x ≡ false) rows

only_found :
    (c k c' k' : String) (r : IdempotencyRecord) (rows : List IdempotencyRecord)
    → IsUnique rows
    → find c k rows ≡ some r
    → is_for c' k' r ≡ false
    → OnlyFound c' k' r.id rows
unfolding find OnlyFound
only_found c k c' k' r [] u e other = tt
only_found c k c' k' r (x ∷ rows) u e other =
    by_test (is_for c k x) (λ q. only_found c k c' k' r rows u.2 q other) e
  where
    by_test :
        (t : Bool)
        → (find c k rows ≡ some r → OnlyFound c' k' r.id rows)
        → (if t then some x else find c k rows) ≡ some r
        → OnlyFound c' k' r.id (x ∷ rows)
    by_test true rest q =
        let same : x ≡ r = cc in
        (
          λ h. subst (λ (y : IdempotencyRecord). is_for c' k' y ≡ false) (sym same) other,
          All-mono _ _ rows
              (λ y h i.
                let i' : (y.id == x.id) ≡ true =
                  subst (λ (z : IdempotencyRecord). (y.id == z.id) ≡ true) (sym same) i in
                absurd (ground arith))
              u.1,
        )
    by_test false rest q =
        let apart =
          All-found (λ (y : IdempotencyRecord). (y.id == x.id) ≡ false) c k r rows u.1 q in
        (λ h. absurd (ground arith), rest q)

-- Another key than the deleted row's finds what it found before.
pub find-undeleted :
    (c k c' k' : String) (r : IdempotencyRecord) (rows : List IdempotencyRecord)
    → IsUnique rows
    → find c k rows ≡ some r
    → is_for c' k' r ≡ false
    → find c' k' (delete_row r.id rows) ≡ find c' k' rows
unfolding OnlyFound
find-undeleted c k c' k' r rows u e other =
    find-keep c' k' r.id rows (only_found c k c' k' r rows u e other)

pub delete_row-IsUnique :
    (i : ℕ) (rows : List IdempotencyRecord) → IsUnique rows → IsUnique (delete_row i rows)
delete_row-IsUnique i [] u = tt
delete_row-IsUnique i (x ∷ rows) u = by_test (x.id == i) (delete_row-IsUnique i rows u.2)
  where
    kept : List IdempotencyRecord
    kept = delete_row i rows

    by_test : (t : Bool) → IsUnique kept → IsUnique (if not t then x ∷ kept else kept)
    by_test true rest = rest
    by_test false rest = (
      find-keep_none x.client_id x.idempotency_key (λ y. not (y.id == i)) rows u.0,
      All-keep _ _ (λ y. not (y.id == i)) rows (λ y h e. h) u.1,
      rest,
    )
