-- ===== src/Orchestrator/Charges.antt =====
-- `_attempt` of src/gateway/services/orchestrator.py and the ledger.
use llm_token_balancing_gate.Prelude.{
  Bool, true, false, Option, none, some, ◌≡◌, ◌⊎◌, inl, inr, refl, sym, ◌∙◌, if◌then◌else◌,
  Distinct, ℤ, pos, ◌≤ℤ◌, ltb_ℤ, arith,
}
use llm_token_balancing_gate.Persistence.{Database}
use llm_token_balancing_gate.Budget.{
  Ledger, Reservation, Result, ok, err, reserve, settle, release, budget_ids_of, applicable,
}
use llm_token_balancing_gate.Budget.Held.{IsConsistent}
use llm_token_balancing_gate.Budget.Updates.{update_where}
use llm_token_balancing_gate.Budget.Reserve.{reserve-IsConsistent}
use llm_token_balancing_gate.Budget.Resolve.{settle-release-IsConsistent}
use llm_token_balancing_gate.Budget.RoundTrip.{charge, charge_nothing, settle-release-reserve}
use llm_token_balancing_gate.Providers.{ProviderResult, Reply}
use llm_token_balancing_gate.Validators.{ValidationReport}
use llm_token_balancing_gate.Attempts.{
  actual_cost, record_attempt, finish_attempt, persist_validations,
}
use llm_token_balancing_gate.Orchestrator.{
  Moment, Setting, Attempted, AttemptArgs, resolve_hold, reserve_request, answered, after_reserve,
  attempt, invocation, validate, finished_row, resolved, after_validation,
}
use llm_token_balancing_gate.Orchestrator.Effects.{db_of, actual_cost-estimate, failure_cost-cases}

-- What an attempt costs the budgets.
abbrev pub cost_of : Attempted → ℤ
cost_of (Attempted.denied db) = pos 0
cost_of (Attempted.interrupted db) = pos 0
cost_of (Attempted.raised cost db) = cost
cost_of (Attempted.stepped st db) = st.attempt.cost

-- The ledger is consistent, and the budgets that applied are charged the cost, and hold nothing more.
pub record Charges (w : Setting) (m : Moment) (l : Ledger) (l' : Ledger) (cost : ℤ) : Type 0 where
  pub consistent : IsConsistent l'
  pub budgets :
      l'.budgets ≡ update_where (applicable w.scopes m.reserved_at) (charge cost) l.budgets

module _ (w : Setting) (m : Moment) (a : AttemptArgs) where
  pub resolve_hold-Charges :
      (l : Ledger) {r : Reservation} {l' : Ledger} (settled : ℤ)
      → IsConsistent l
      → Distinct (budget_ids_of l.budgets)
      → pos 0 ≤ℤ a.candidate.estimated_cost
      → pos 0 ≤ℤ settled
      → reserve (reserve_request w m a) l ≡ ok (r, l')
      → Charges w m l (resolve_hold r settled m.resolved_at l') settled
  unfolding resolve_hold
  resolve_hold-Charges l {r} {l'} settled c d est nonneg h =
      settled_or_released (ltb_ℤ (pos 0) settled) refl
    where
      settled_or_released :
          (t : Bool)
          → ltb_ℤ (pos 0) settled ≡ t
          → Charges w m l
              (if t then settle r settled m.resolved_at l' else release r m.resolved_at l')
              settled
      settled_or_released true e = record {
        consistent =
            (settle-release-IsConsistent r settled m.resolved_at l'
              (reserve-IsConsistent (reserve_request w m a) l est c h)).0;
        budgets = (settle-release-reserve (reserve_request w m a) l settled m.resolved_at c d h).0;
      }
      settled_or_released false e =
          let zero : settled ≡ pos 0 = ground arith in
          record {
            consistent =
                (settle-release-IsConsistent r settled m.resolved_at l'
                  (reserve-IsConsistent (reserve_request w m a) l est c h)).1;
            budgets =
                (settle-release-reserve (reserve_request w m a) l settled m.resolved_at c d h).1
                ∙ rw zero (sym (charge_nothing _ l.budgets));
          }

  pub cost_nonneg :
      {cost : ℤ}
      → pos 0 ≤ℤ a.candidate.estimated_cost
      → (cost ≡ pos 0) ⊎ (cost ≡ a.candidate.estimated_cost)
      → pos 0 ≤ℤ cost
  cost_nonneg est (inl e) = rw e (omega arith)
  cost_nonneg est (inr e) = rw e est

  after_validation-Charges :
      (l : Ledger) (result : ProviderResult) (settled : ℤ) (o : Option ValidationReport)
      (db : Database)
      → Charges w m l db.ledger settled
      → Charges w m l
          (db_of (after_validation w m a result settled o db)).ledger
          (cost_of (after_validation w m a result settled o db))
  unfolding persist_validations
  after_validation-Charges l result settled none db h = h
  after_validation-Charges l result settled (some report) db h = h

  answered-Charges :
      (l : Ledger) {r : Reservation} {l' : Ledger} (reply : Reply) (db : Database)
      → IsConsistent l
      → Distinct (budget_ids_of l.budgets)
      → pos 0 ≤ℤ a.candidate.estimated_cost
      → reserve (reserve_request w m a) l ≡ ok (r, l')
      → db.ledger ≡ l'
      → Charges w m l
          (db_of (answered w m a r reply db)).ledger
          (cost_of (answered w m a r reply db))
  unfolding answered finish_attempt persist_validations
  answered-Charges l {r} {l'} (Reply.completed result) db c d est h e =
      after_validation-Charges l result (actual_cost a.candidate (some result))
        (validate w m a result) (finished_row w m a result _ (resolved w m a r _ db))
        (rw e (
          resolve_hold-Charges l _ c d est
            (cost_nonneg est (inr (actual_cost-estimate w m a (some result)))) h))
  answered-Charges l (Reply.failed f) db c d est h e =
      rw e (resolve_hold-Charges l _ c d est (cost_nonneg est (failure_cost-cases w m a f)) h)
  answered-Charges l Reply.crashed db c d est h e =
      rw e (resolve_hold-Charges l _ c d est (omega arith) h)
  answered-Charges l Reply.interrupted db c d est h e =
      rw e (resolve_hold-Charges l _ c d est (omega arith) h)

  after_reserve-Charges :
      (o : Result (Reservation × Ledger)) (db : Database)
      → reserve (reserve_request w m a) db.ledger ≡ o
      → IsConsistent db.ledger
      → Distinct (budget_ids_of db.ledger.budgets)
      → pos 0 ≤ℤ a.candidate.estimated_cost
      → Charges w m db.ledger
          (db_of (after_reserve w m a o db)).ledger
          (cost_of (after_reserve w m a o db))
  unfolding finish_attempt
  after_reserve-Charges (ok (r, l)) db h c d est =
      answered-Charges db.ledger (m.reply (invocation w m a)) _ c d est h refl
  after_reserve-Charges (err e) db h c d est = record {
    consistent = c;
    budgets = sym (charge_nothing _ db.ledger.budgets);
  }

  -- An attempt leaves a consistent ledger, whatever the provider answers: each budget that applied is
  -- charged what the attempt's record says, what was settled where a validator raises, nothing where the
  -- attempt was denied or cancelled, and no budget holds more than before. The estimate is not negative,
  -- and the budgets' ids are distinct.
  pub attempt-Charges :
      (db : Database)
      → IsConsistent db.ledger
      → Distinct (budget_ids_of db.ledger.budgets)
      → pos 0 ≤ℤ a.candidate.estimated_cost
      → Charges w m db.ledger (db_of (attempt w m a db)).ledger (cost_of (attempt w m a db))
  unfolding attempt record_attempt
  attempt-Charges db c d est = after_reserve-Charges _ _ refl c d est
