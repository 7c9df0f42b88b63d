-- ===== src/Orchestrator/Effects.antt =====
-- What one `_attempt` of src/gateway/services/orchestrator.py leaves behind, by how it ends.
use llm_token_balancing_gate.Prelude.{
  Bool, true, false, Option, none, some, ◌≡◌, some_eq, ◌⊎◌, inl, inr, refl, sym, ◌∙◌, ap, ℤ,
  if◌then◌else◌, pos, arith,
}
use llm_token_balancing_gate.Persistence.{Database}
use llm_token_balancing_gate.Budget.{Ledger, Reservation, Result, ok, err, reserve}
use llm_token_balancing_gate.Budget.Limits.{UnderCeiling, reserve_iff}
use llm_token_balancing_gate.Resilience.{ProviderFailure}
use llm_token_balancing_gate.Providers.{ProviderResult, Reply}
use llm_token_balancing_gate.Validators.{ValidationReport}
use llm_token_balancing_gate.Attempts.{
  record_attempt, finish_attempt, actual_cost, persist_validations,
}
use llm_token_balancing_gate.Orchestrator.{
  Moment, Setting, Step, Attempted, AttemptArgs, reserve_request, validate, finished_row, resolved,
  after_validation, failure_cost, answered, after_reserve, attempt, invocation,
}

-- The database that an attempt leaves.
abbrev pub db_of : Attempted → Database
db_of (Attempted.denied db) = db
db_of (Attempted.interrupted db) = db
db_of (Attempted.raised cost db) = db
db_of (Attempted.stepped st db) = db

module _ (w : Setting) (m : Moment) (a : AttemptArgs) where
  after_validation-requests :
      (result : ProviderResult) (settled : ℤ) (o : Option ValidationReport) (db : Database)
      → (db_of (after_validation w m a result settled o db)).requests ≡ db.requests
  unfolding persist_validations
  after_validation-requests result settled none db = refl
  after_validation-requests result settled (some report) db = refl

  answered-requests :
      (r : Reservation) (reply : Reply) (db : Database)
      → (db_of (answered w m a r reply db)).requests ≡ db.requests
  unfolding answered finish_attempt persist_validations
  answered-requests r (Reply.completed result) db =
      after_validation-requests result (actual_cost a.candidate (some result))
        (validate w m a result) (finished_row w m a result _ (resolved w m a r _ db))
  answered-requests r (Reply.failed f) db = refl
  answered-requests r Reply.crashed db = refl
  answered-requests r Reply.interrupted db = refl

  after_reserve-requests :
      (o : Result (Reservation × Ledger)) (db : Database)
      → (db_of (after_reserve w m a o db)).requests ≡ db.requests
  unfolding finish_attempt
  after_reserve-requests (ok (r, l)) db = answered-requests r (m.reply (invocation w m a)) _
  after_reserve-requests (err e) db = refl

  -- An attempt writes no request row.
  pub attempt-requests : (db : Database) → (db_of (attempt w m a db)).requests ≡ db.requests
  unfolding attempt record_attempt
  attempt-requests db = after_reserve-requests _ _

-- What the step of an attempt says of it: no more than the estimate is charged, a failed provider call
-- leaves no result, and a result comes with the report of the plan's validators on it.
pub record IsStepOf (w : Setting) (m : Moment) (a : AttemptArgs) (st : Step) : Type 0 where
  pub sequence : st.attempt.sequence ≡ a.sequence
  pub model_id : st.attempt.model_id ≡ a.candidate.model_id
  pub cost : (st.attempt.cost ≡ pos 0) ⊎ (st.attempt.cost ≡ a.candidate.estimated_cost)
  pub under : UnderCeiling (reserve_request w m a)
  pub validated :
      (result : ProviderResult) → st.result ≡ some result → st.validation ≡ validate w m a result

-- A step is described. What raises has none; but a validator that raises leaves the estimate charged.
abbrev pub Steps : Setting → Moment → AttemptArgs → Attempted → Type 0
Steps w m a (Attempted.denied db) = Unit
Steps w m a (Attempted.interrupted db) = Unit
Steps w m a (Attempted.raised cost db) =
    (cost ≡ a.candidate.estimated_cost) × UnderCeiling (reserve_request w m a)
Steps w m a (Attempted.stepped st db) = IsStepOf w m a st

module _ (w : Setting) (m : Moment) (a : AttemptArgs) where
  pub actual_cost-estimate :
      (result : Option ProviderResult) → actual_cost a.candidate result ≡ a.candidate.estimated_cost
  unfolding actual_cost
  actual_cost-estimate none = refl
  actual_cost-estimate (some r) = ground arith

  pub failure_cost-cases :
      (f : ProviderFailure)
      → (failure_cost w m a f ≡ pos 0) ⊎ (failure_cost w m a f ≡ a.candidate.estimated_cost)
  failure_cost-cases f = if_visible f.emitted_output
    where
      if_visible :
          (t : Bool)
          → ((if t then a.candidate.estimated_cost else pos 0) ≡ pos 0)
            ⊎ ((if t then a.candidate.estimated_cost else pos 0) ≡ a.candidate.estimated_cost)
      if_visible true = inr refl
      if_visible false = inl refl

  after_validation-Steps :
      (result : ProviderResult) (settled : ℤ) (o : Option ValidationReport) (db : Database)
      → settled ≡ a.candidate.estimated_cost
      → validate w m a result ≡ o
      → UnderCeiling (reserve_request w m a)
      → Steps w m a (after_validation w m a result settled o db)
  after_validation-Steps result settled none db c v under = (c, under)
  after_validation-Steps result settled (some report) db c v under = record {
    sequence = refl;
    model_id = refl;
    cost = inr c;
    under = under;
    validated = λ x e. sym v ∙ ap (λ y. validate w m a y) (some_eq e);
  }

  answered-Steps :
      (r : Reservation) (reply : Reply) (db : Database)
      → UnderCeiling (reserve_request w m a)
      → Steps w m a (answered w m a r reply db)
  unfolding answered
  answered-Steps r (Reply.completed result) db under =
      after_validation-Steps result (actual_cost a.candidate (some result)) (validate w m a result)
        _ (actual_cost-estimate (some result)) refl under
  answered-Steps r (Reply.failed f) db under = record {
    sequence = refl;
    model_id = refl;
    cost = failure_cost-cases f;
    under = under;
    validated = λ x e. ground arith;
  }
  answered-Steps r Reply.crashed db under = record {
    sequence = refl;
    model_id = refl;
    cost = inl refl;
    under = under;
    validated = λ x e. ground arith;
  }
  answered-Steps r Reply.interrupted db under = tt

  after_reserve-Steps :
      (o : Result (Reservation × Ledger)) (db : Database)
      → reserve (reserve_request w m a) db.ledger ≡ o
      → Steps w m a (after_reserve w m a o db)
  after_reserve-Steps (ok (r, l)) db e =
      answered-Steps r (m.reply (invocation w m a)) _
        ((reserve_iff (reserve_request w m a) db.ledger).0 (r, l, e)).0
  after_reserve-Steps (err e) db h = tt

  pub attempt-Steps : (db : Database) → Steps w m a (attempt w m a db)
  unfolding attempt
  attempt-Steps db = after_reserve-Steps _ _ refl
