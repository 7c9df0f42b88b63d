-- ===== src/Registry/Prices.antt =====
-- The price that src/gateway/persistence/repositories.py takes for a model at a time.
use llm_token_balancing_gate.Prelude.{
  ℕ, ◌≤◌, ◌<◌, String, Bool, true, false, Option, none, some, List, [], ◌∷◌, ◌≡◌, refl, inl, inr,
  ltb, All, Elem, keep, if◌then◌else◌, Bool-cases, arith, eq_iff, All-mono,
}
use llm_token_balancing_gate.Registry.{
  ModelPrice, Tables, ends_after, is_effective, later_start, latest_start, price_at,
}

abbrev pub EndsAfter : Option ℕ → ℕ → Type 0
EndsAfter none at = Unit
EndsAfter (some end) at = at < end

-- The price is the model's, and its window holds the time.
pub record IsEffective (model_id : String) (at : ℕ) (p : ModelPrice) : Type 0 where
  pub of_model : p.model_id ≡ model_id
  pub started : p.effective_from ≤ at
  pub not_ended : EndsAfter p.effective_to at

-- What a query for the price of a model at a time must answer.
abbrev pub Answers : String → ℕ → List ModelPrice → Option ModelPrice → Type 0
Answers model_id at ps none = All (λ p. IsEffective model_id at p → ⊥) ps
Answers model_id at ps (some p) =
    Elem p ps
    × IsEffective model_id at p
    × All (λ q. IsEffective model_id at q → q.effective_from ≤ p.effective_from) ps

ends_after→EndsAfter : (e : Option ℕ) (at : ℕ) → ends_after e at ≡ true → EndsAfter e at
ends_after→EndsAfter none at h = tt
ends_after→EndsAfter (some e) at h = ground arith

EndsAfter→ends_after : (e : Option ℕ) (at : ℕ) → EndsAfter e at → ends_after e at ≡ true
EndsAfter→ends_after none at h = refl
EndsAfter→ends_after (some e) at h = ground arith

is_effective→IsEffective :
    (k : String) (at : ℕ) (p : ModelPrice) → is_effective k at p ≡ true → IsEffective k at p
is_effective→IsEffective k at p h = record {
  of_model = ground (arith, eq_iff p.model_id k);
  started = ground arith;
  not_ended = ends_after→EndsAfter p.effective_to at (ground arith);
}

IsEffective→is_effective :
    (k : String) (at : ℕ) (p : ModelPrice) → IsEffective k at p → is_effective k at p ≡ true
IsEffective→is_effective k at p h = ground (
  arith,
  (eq_iff p.model_id k).1 h.of_model,
  h.started,
  EndsAfter→ends_after p.effective_to at h.not_ended,
)

-- One more price in front of an answered list.
answer_skip :
    (k : String) (at : ℕ) (p : ModelPrice) (ps : List ModelPrice) (o : Option ModelPrice)
    → is_effective k at p ≡ false
    → Answers k at ps o
    → Answers k at (p ∷ ps) o
answer_skip k at p ps none e a = ((λ h. cc (IsEffective→is_effective k at p h)), a)
answer_skip k at p ps (some q) e a =
    (inr a.0, a.1, ((λ h. absurd (cc (IsEffective→is_effective k at p h))), a.2))

answer_take :
    (k : String) (at : ℕ) (p : ModelPrice) (ps : List ModelPrice) (o : Option ModelPrice)
    → is_effective k at p ≡ true
    → Answers k at ps o
    → Answers k at (p ∷ ps) (some (later_start p o))
answer_take k at p ps none e a = (
  inl refl,
  is_effective→IsEffective k at p e,
  ((λ h. omega arith), All-mono _ _ ps (λ q no h. absurd (no h)) a),
)
answer_take k at p ps (some q) e a = by_start (ltb p.effective_from q.effective_from) refl
  where
    by_start :
        (t : Bool)
        → ltb p.effective_from q.effective_from ≡ t
        → Answers k at (p ∷ ps) (some (if t then q else p))
    by_start true l = (inr a.0, a.1, ((λ h. ground arith), a.2))
    by_start false l = (
      inl refl,
      is_effective→IsEffective k at p e,
      ((λ h. omega arith), All-mono _ _ ps (λ r le h. ground (arith, le h)) a.2),
    )

answers :
    (k : String) (at : ℕ) (ps : List ModelPrice)
    → Answers k at ps (latest_start (keep (is_effective k at) ps))
unfolding latest_start
answers k at [] = tt
answers k at (p ∷ ps) = elim (Bool-cases (is_effective k at p)) [
  | inl e ↦
      rw e (answer_take k at p ps (latest_start (keep (is_effective k at) ps)) e (answers k at ps))
  | inr e ↦
      rw e (answer_skip k at p ps (latest_start (keep (is_effective k at) ps)) e (answers k at ps))
]

-- The price that is taken for a model at a time is a row of the table that is the model's and is in
-- effect then, and no other such row has started later; if none is taken, no row is in effect.
pub price_at-Answers :
    (t : Tables) (model_id : String) (at : ℕ)
    → Answers model_id at t.prices (price_at t model_id at)
unfolding price_at
price_at-Answers t model_id at = answers model_id at t.prices
