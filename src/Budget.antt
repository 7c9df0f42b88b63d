-- ===== src/Budget.antt =====
-- src/gateway/services/budget.py over the tables `budgets` and `budget_reservations` of
-- src/gateway/persistence/models.py. A transaction is one function from a ledger to a ledger: it runs
-- alone, as BEGIN IMMEDIATE and the row locks make it do, and a raise leaves the ledger as it was.
-- Times are numbers of microseconds. The reservations stand in the order of their ids, which the
-- database counts up.
pub mod Held
pub mod Updates
pub mod Selection
pub mod Reserve
pub mod Limits
pub mod Resolve
pub mod Once
pub mod RoundTrip
use Prim.Native.Nat.{Ordering}
use Prim.Native.String.{compare}
use llm_token_balancing_gate.Prelude.{
  ℕ, ◌+◌, String, Bool, true, false, ◌&&◌, ◌||◌, Option, none, some, List, [], ◌∷◌, ◌++◌, map, ltb,
  leb, ◌==◌, if◌then◌else◌, take, keep, any, elem, str_elem, ℤ, pos, ◌+ℤ◌, ◌-ℤ◌, ltb_ℤ,
}
use llm_token_balancing_gate.Domain.Enums.{ReservationStatus}

pub record Budget : Type 0 where
  pub id : ℕ
  pub scope : String
  pub window_start : ℕ
  pub window_end : Option ℕ
  pub hard_limit : ℤ
  pub spent : ℤ
  pub reserved : ℤ

pub record BudgetReservation : Type 0 where
  pub id : ℕ
  pub request_id : String
  pub attempt_id : Option String
  pub budget_id : ℕ
  pub reserved_amount : ℤ
  pub settled_amount : Option ℤ
  pub status : ReservationStatus
  pub expires_at : ℕ
  pub resolved_at : Option ℕ

pub record Ledger : Type 0 where
  pub budgets : List Budget
  pub reservations : List BudgetReservation
  pub next_id : ℕ

pub data BudgetError : Type 0 where
  over_request_ceiling insufficient_headroom : BudgetError

pub data Result (A : Type 0) : Type 0 where
  ok : A → Result A
  err : BudgetError → Result A

-- The frozen dataclass that `reserve` returns.
pub record Reservation : Type 0 where
  pub request_id : String
  pub attempt_id : String
  pub amount : ℤ
  pub reservation_ids : List ℕ
  pub budget_ids : List ℕ
  pub expires_at : ℕ

-- DEFAULT_RESERVATION_TTL, fifteen minutes.
abbrev pub default_reservation_ttl : ℕ
default_reservation_ttl = 900_000_000

-- The WHERE clause of `_lock_budgets`.
unfoldable pub applicable : List String → ℕ → Budget → Bool
applicable scopes at b =
    str_elem b.scope scopes
    && leb b.window_start at
    && elim b.window_end [ none ↦ true | some end_at ↦ ltb at end_at ]

-- ORDER BY scope, window_start, id: `a` does not stand after `b`.
unfoldable pub locks_before : Budget → Budget → Bool
locks_before a b = elim (compare a.scope b.scope) [
  | Ordering.lt ↦ true
  | Ordering.gt ↦ false
  | Ordering.eq ↦
      if ltb a.window_start b.window_start
      then true
      else a.window_start == b.window_start && leb a.id b.id
]

unfoldable pub insert_locked : Budget → List Budget → List Budget
insert_locked b [] = b ∷ []
insert_locked b (c ∷ cs) = if locks_before b c then b ∷ c ∷ cs else c ∷ insert_locked b cs

unfoldable pub in_lock_order : List Budget → List Budget
in_lock_order [] = []
in_lock_order (b ∷ bs) = insert_locked b (in_lock_order bs)

unfoldable pub lock_budgets : Ledger → List String → ℕ → List Budget
lock_budgets l scopes at = in_lock_order (keep (applicable scopes at) l.budgets)

-- What may still be spent. It is negative once a settled cost has passed its estimate.
unfoldable pub headroom : Budget → ℤ
headroom b = b.hard_limit -ℤ b.spent -ℤ b.reserved

-- The row with this id is changed, and all others are left.
unfoldable pub update_budget : ℕ → (Budget → Budget) → List Budget → List Budget
update_budget k f [] = []
update_budget k f (b ∷ bs) = (if b.id == k then f b else b) ∷ update_budget k f bs

pub record Hold : Type 0 where
  pub request_id : String
  pub attempt_id : String
  pub amount : ℤ
  pub expires_at : ℕ

abbrev pub add_reserved : ℤ → Budget → Budget
add_reserved amount b = record b { reserved = b.reserved +ℤ amount }

abbrev pub active_row : Hold → ℕ → ℕ → BudgetReservation
active_row h row_id budget_id = record {
  id = row_id;
  request_id = h.request_id;
  attempt_id = some h.attempt_id;
  budget_id = budget_id;
  reserved_amount = h.amount;
  settled_amount = none;
  status = ReservationStatus.active;
  expires_at = h.expires_at;
  resolved_at = none;
}

-- One round of the loop that takes the hold on one budget.
unfoldable pub hold_one : Hold → ℕ → Ledger → Ledger
hold_one h budget_id l = record {
  budgets = update_budget budget_id (add_reserved h.amount) l.budgets;
  reservations = l.reservations ++ active_row h l.next_id budget_id ∷ [];
  next_id = l.next_id + 1;
}

-- The loop, and the ids of the rows that it inserted.
unfoldable pub hold_all : Hold → List Budget → Ledger → List ℕ × Ledger
hold_all h [] l = ([], l)
hold_all h (b ∷ bs) l = let (ids, l') = hold_all h bs (hold_one h b.id l) in (l.next_id ∷ ids, l')

pub record ReserveRequest : Type 0 where
  pub request_id : String
  pub attempt_id : String
  pub scopes : List String
  pub estimate : ℤ
  pub request_cost_so_far : ℤ
  pub effective_max_cost : Option ℤ
  pub at : ℕ
  pub ttl : ℕ

-- No ceiling is exceeded by nothing.
abbrev pub exceeds : Option ℤ → ℤ → Bool
exceeds none projected = false
exceeds (some ceiling) projected = ltb_ℤ ceiling projected

abbrev pub over_ceiling : ReserveRequest → Bool
over_ceiling q = exceeds q.effective_max_cost (q.request_cost_so_far +ℤ q.estimate)

abbrev pub lacks_headroom : ℤ → Budget → Bool
lacks_headroom amount b = ltb_ℤ (headroom b) amount

abbrev pub hold_of : ReserveRequest → Hold
hold_of q = record {
  request_id = q.request_id;
  attempt_id = q.attempt_id;
  amount = q.estimate;
  expires_at = q.at + q.ttl;
}

abbrev pub budget_ids_of : List Budget → List ℕ
budget_ids_of = map λ b. b.id

-- The holds on the locked budgets, and the reservation that names them.
unfoldable pub take_holds : ReserveRequest → List Budget → Ledger → Reservation × Ledger
take_holds q budgets l =
    let (ids, l') = hold_all (hold_of q) budgets l in
    (
      record {
        request_id = q.request_id;
        attempt_id = q.attempt_id;
        amount = q.estimate;
        reservation_ids = ids;
        budget_ids = budget_ids_of budgets;
        expires_at = q.at + q.ttl;
      },
      l',
    )

unfoldable pub reserve : ReserveRequest → Ledger → Result (Reservation × Ledger)
unfolding take_holds
reserve q l =
    if over_ceiling q
    then err BudgetError.over_request_ceiling
    else let budgets = lock_budgets l q.scopes q.at in
      if any (lacks_headroom q.estimate) budgets
      then err BudgetError.insufficient_headroom
      else ok (take_holds q budgets l)

abbrev pub is_active : ReservationStatus → Bool
is_active ReservationStatus.active = true
is_active _ = false

pub record Resolution : Type 0 where
  pub status : ReservationStatus
  pub settled : ℤ
  pub now : ℕ

-- `if budget.reserved < 0: budget.reserved = Decimal("0")`
abbrev pub clamp_zero : ℤ → ℤ
clamp_zero x = if ltb_ℤ x (pos 0) then pos 0 else x

-- Release exactly what was held, then charge exactly what was billed.
abbrev pub apply_resolution : ℤ → ℤ → Budget → Budget
apply_resolution held settled b = record b {
  reserved = clamp_zero (b.reserved -ℤ held);
  spent = b.spent +ℤ settled;
}

abbrev pub resolved_row : Resolution → BudgetReservation → BudgetReservation
resolved_row z row = record row {
  status = z.status;
  settled_amount = some z.settled;
  resolved_at = some z.now;
}

abbrev pub has_budget : ℕ → List Budget → Bool
has_budget k = any λ b. b.id == k

-- The loop of `_resolve` over the rows of the reservation, in the order of their ids.
unfoldable pub resolve_rows :
    List ℕ
    → Resolution
    → List BudgetReservation
    → List Budget
    → List BudgetReservation × List Budget
resolve_rows ids z [] bs = ([], bs)
resolve_rows ids z (row ∷ rows) bs =
    let due = elem row.id ids && is_active row.status && has_budget row.budget_id bs in
    let (rows', bs') = resolve_rows ids z rows (
      if due
      then update_budget row.budget_id (apply_resolution row.reserved_amount z.settled) bs
      else bs) in
    ((if due then resolved_row z row else row) ∷ rows', bs')

unfoldable pub resolve : Reservation → Resolution → Ledger → Ledger
resolve r z l =
    let (rows, bs) = resolve_rows r.reservation_ids z l.reservations l.budgets in
    record l { reservations = rows; budgets = bs }

unfoldable pub settle : Reservation → ℤ → ℕ → Ledger → Ledger
unfolding resolve
settle r actual_cost at l =
    resolve r (record { status = ReservationStatus.settled; settled = actual_cost; now = at }) l

unfoldable pub release : Reservation → ℕ → Ledger → Ledger
unfolding resolve
release r at l =
    resolve r (record { status = ReservationStatus.released; settled = pos 0; now = at }) l

unfoldable pub settle_partial : Reservation → ℤ → ℕ → Ledger → Ledger
unfolding settle
settle_partial r actual_cost at l = settle r actual_cost at l

-- WHERE status = 'ACTIVE' AND expires_at <= at
unfoldable pub is_orphan : ℕ → BudgetReservation → Bool
is_orphan at row = is_active row.status && leb row.expires_at at

unfoldable pub insert_by_expiry :
    BudgetReservation → List BudgetReservation → List BudgetReservation
insert_by_expiry r [] = r ∷ []
insert_by_expiry r (s ∷ ss) =
    if leb r.expires_at s.expires_at then r ∷ s ∷ ss else s ∷ insert_by_expiry r ss

-- ORDER BY expires_at
unfoldable pub in_expiry_order : List BudgetReservation → List BudgetReservation
in_expiry_order [] = []
in_expiry_order (r ∷ rs) = insert_by_expiry r (in_expiry_order rs)

unfoldable pub expire_orphans : ℕ → ℕ → Ledger → List BudgetReservation
expire_orphans now limit l = take limit (in_expiry_order (keep (is_orphan now) l.reservations))
