-- ===== src/Store/Attempts.antt =====
-- `begin_submission_attempt` of app/cd90_live_copy.py.
use Prim.Native.String.{String}
use text.Mathlib.Text.{◌==◌}
use polymarket_live_copy.Prelude.{
  ℕ, ◌+◌, Bool, true, false, not, ◌&&◌, ◌||◌, Option, none, some, List, [], ◌∷◌, ◌++◌, Result, ok,
  raise_if, or_raise, ◌>>=◌, ◌>>◌, if◌then◌else◌, is_some, max,
}
use polymarket_live_copy.Prelude.Int.{leb_ℤ, ltb_ℤ}
use polymarket_live_copy.Prelude.Table.{Table, lookup, upsert, update}
use polymarket_live_copy.Decimal.{decimal_zero}
use polymarket_live_copy.Sizing.{is_buy}
use polymarket_live_copy.Sizing.Plan.{ActionPlan}
use polymarket_live_copy.Store.{
  StoreError, invalid_submission_attempt_reservation, action_has_unresolved_attempt,
  action_has_active_reservation, action_target_not_found, integrity_error, SourceAction,
  Reservation, Attempt, AttemptState, Target, ActionStatus, Ledger, append_transition,
  is_unresolved,
}

-- SELECT attempt_id … WHERE action_id = ? AND state IN ('SUBMIT_STARTED', …)
unfoldable pub has_unresolved : String → List Attempt → Bool
has_unresolved action [] = false
has_unresolved action (a ∷ rest) =
    (a.action_id == action && is_unresolved a.state) || has_unresolved action rest

-- SELECT COALESCE(MAX(attempt_number), 0) … WHERE action_id = ?
unfoldable pub last_number : String → List Attempt → ℕ
last_number action [] = 0
last_number action (a ∷ rest) =
    if a.action_id == action
    then max a.attempt_number (last_number action rest)
    else last_number action rest

unfoldable pub has_attempt : String → List Attempt → Bool
has_attempt key [] = false
has_attempt key (a ∷ rest) = a.attempt_id == key || has_attempt key rest

-- INSERT … ON CONFLICT(action_id) DO UPDATE … WHERE active = 0, with no row changed as `none`
unfoldable pub reserve : String → Reservation → Table Reservation → Option (Table Reservation)
reserve action new rows = elim (lookup action rows) [
  | none ↦ some (upsert action new rows)
  | some old ↦ if old.active then none else some (upsert action new rows)
]

-- What the caller prepared: the reason and the texts of its JSON values, with the digest that
-- names an attempt of an action.
pub record Submission : Type 0 where
  pub attempt_digest : String → ℕ → String
  pub condition_id : String
  pub reason : String
  pub order_id : Option String
  pub prepared_order_json : String
  pub snapshot_json : String
  pub details_json : String
  pub created_at_ms : ℕ

unfoldable pub new_reservation : SourceAction → ActionPlan → Submission → Reservation
new_reservation source plan s = record {
  token_id = source.token_id;
  side = plan.side;
  quantity = plan.requested_quantity;
  cash_reserved_usd = if is_buy plan.side then plan.reserved_cash_usd else decimal_zero;
  condition_id = s.condition_id;
  active = true;
  created_at_ms = s.created_at_ms;
}

unfoldable pub new_attempt : SourceAction → ActionPlan → Submission → ℕ → Attempt
new_attempt source plan s number = record {
  attempt_id = s.attempt_digest source.action_id number;
  action_id = source.action_id;
  attempt_number = number;
  order_id = s.order_id;
  prepared_order_json = s.prepared_order_json;
  state = AttemptState.submit_started;
  requested_quantity = plan.requested_quantity;
  snapshot_json = s.snapshot_json;
  response_json = "{}";
  created_at_ms = s.created_at_ms;
  updated_at_ms = s.created_at_ms;
}

abbrev pub restate : ActionStatus → String → ℕ → Target → Target
restate status reason now t = record t { state = status; reason = reason; updated_at_ms = now }

-- The writes of the transaction, once the reservation has gone through.
unfoldable pub write_attempt :
    SourceAction → ActionPlan → Submission → Table Reservation → Ledger → Ledger
write_attempt source plan s rows l =
    append_transition source.action_id ActionStatus.submit_started s.reason s.created_at_ms
      s.details_json
      (record l {
        reservations = rows;
        attempts =
            l.attempts
            ++ new_attempt source plan s (last_number source.action_id l.attempts + 1) ∷ [];
        targets =
            update source.action_id (restate ActionStatus.submit_started s.reason s.created_at_ms)
              l.targets;
      })

abbrev pub is_order : String → Option String → Bool
is_order order none = false
is_order order (some found) = found == order

-- UNIQUE(order_id): the order is that of another attempt than the one with this key.
unfoldable pub has_order_elsewhere : (key order : String) → List Attempt → Bool
has_order_elsewhere key order [] = false
has_order_elsewhere key order (a ∷ rest) =
    not (a.attempt_id == key) && is_order order a.order_id || has_order_elsewhere key order rest

abbrev pub is_order_taken : (key : String) → Option String → List Attempt → Bool
is_order_taken key none attempts = false
is_order_taken key (some order) attempts = has_order_elsewhere key order attempts

unfoldable pub begin_submission_attempt :
    SourceAction → ActionPlan → Submission → Ledger → Result StoreError Ledger
begin_submission_attempt source plan s l = do
  raise_if
      (leb_ℤ plan.requested_quantity decimal_zero
        || is_buy plan.side && ltb_ℤ plan.reserved_cash_usd decimal_zero)
      invalid_submission_attempt_reservation
  raise_if (has_unresolved source.action_id l.attempts) action_has_unresolved_attempt
  rows ←
      or_raise (reserve source.action_id (new_reservation source plan s) l.reservations)
        action_has_active_reservation
  let key = s.attempt_digest source.action_id (last_number source.action_id l.attempts + 1)
  raise_if (has_attempt key l.attempts || is_order_taken key s.order_id l.attempts) integrity_error
  raise_if (not (is_some (lookup source.action_id l.targets))) action_target_not_found
  ok (write_attempt source plan s rows l)
