-- ===== src/Store.antt =====
-- `LiveStore` of app/cd90_live_copy.py: the SQLite ledger of one strategy. Here its tables, as far
-- as the orders and the fills use them, and its errors.
pub mod Attempts
pub mod Marks
pub mod Fills
pub mod Finalize
pub mod Release
pub mod Closing
pub mod Positions
pub mod Accounting
pub mod Opened
pub mod Marked
pub mod Retained
pub mod Exclusive
pub mod Aims
pub mod Frozen
pub mod Frame
pub mod Targets
pub mod Rejection
mod Tests
use Prim.Native.String.{String}
use text.Mathlib.Text.{◌==◌}
use polymarket_live_copy.Prelude.{
  ℕ, Bool, true, false, Option, none, some, List, [], ◌∷◌, ◌++◌, if◌then◌else◌, ◌&&◌, is_some,
}
use polymarket_live_copy.Prelude.Table.{Table, lookup}
use polymarket_live_copy.Decimal.{Decimal, decimal_zero}
use polymarket_live_copy.Sizing.{Side}

-- The messages of the exceptions that the modelled operations raise.
pub data StoreError : Type 0 where
  invalid_submission_attempt_reservation action_has_unresolved_attempt : StoreError
  action_has_active_reservation action_target_not_found integrity_error : StoreError
  invalid_reconciled_fill invalid_reconciled_fill_price invalid_reconciled_fill_notional :
      StoreError
  account_not_initialized position_condition_ownership_mismatch position_ledger_underflow :
      StoreError
  unsupported_fill_side unsupported_fill_state cumulative_fill_exceeds_action_target : StoreError
  buy_price_improvement_notional_missing buy_price_improvement_exceeds_frozen_cash_bound :
      StoreError
  buy_cash_order_completion_not_proven external_unfillable_requires_unfilled_remainder : StoreError
  attempt_not_found_for_fill unsupported_reservation_release_state attempt_state_required :
      StoreError
  attempt_not_found missing_historical_transition not_definitive_rejection invalid_operation :
      StoreError
  invalid_action_target_quantity frozen_action_target_conflict action_target_not_persisted :
      StoreError
  missing_attempt_order_id attempt_order_id_state_conflict missing_attempt_id : StoreError
  attempt_not_found_for_recovery attempt_state_conflict attempt_order_id_appeared : StoreError
  missing_transition terminal_action_conflict target_not_found_for_recovery : StoreError
  terminal_target_conflict : StoreError

-- The texts of an action's state and of a transition's status; `failed` is the text ERROR, and
-- `other_status` is any other text.
pub data ActionStatus : Type 0 where
  observed submit_started unknown_submission filled partial partial_pending : ActionStatus
  external_unfillable skipped pending_liquidity pending_confirmed_zero_fill : ActionStatus
  pending_price_protection pending_capital pending_minimum_unwind : ActionStatus
  pending_minimum_remainder error_internal expired_retry_window : ActionStatus
  failed superseded_unfilled pending_external_retry pending_causal_order : ActionStatus
  other_status : String → ActionStatus

-- The texts of an attempt's state.
pub data AttemptState : Type 0 where
  submit_started submitted_unreconciled unknown_submission filled partial_filled : AttemptState
  other_state : String → AttemptState

-- What the ledger reads of a `SourceAction`; its `action_id` is a digest of its identity.
pub record SourceAction : Type 0 where
  pub action_id : String
  pub token_id : String
  pub side : Side
  pub discovered_at_ms : ℕ

-- The row of account_state.
pub record Account : Type 0 where
  pub initial_capital_usd : Decimal
  pub cash_usd : Decimal
  pub realized_pnl_usd : Decimal
  pub fees_usd : Decimal

-- A row of positions; no condition is the empty text.
pub record Position : Type 0 where
  pub quantity : Decimal
  pub cost_basis_usd : Decimal
  pub condition_id : String

-- A row of order_reservations.
pub record Reservation : Type 0 where
  pub token_id : String
  pub side : Side
  pub quantity : Decimal
  pub cash_reserved_usd : Decimal
  pub condition_id : String
  pub active : Bool
  pub created_at_ms : ℕ

-- A row of submission_attempts.
pub record Attempt : Type 0 where
  pub attempt_id : String
  pub action_id : String
  pub attempt_number : ℕ
  pub order_id : Option String
  pub prepared_order_json : String
  pub state : AttemptState
  pub requested_quantity : Decimal
  pub snapshot_json : String
  pub response_json : String
  pub created_at_ms : ℕ
  pub updated_at_ms : ℕ

-- A row of action_targets.
pub record Target : Type 0 where
  pub proportional_quantity : Decimal
  pub target_quantity : Decimal
  pub cumulative_filled_quantity : Decimal
  pub state : ActionStatus
  pub reason : String
  pub created_at_ms : ℕ
  pub updated_at_ms : ℕ

-- A row of action_transitions.
pub record ActionTransition : Type 0 where
  pub action_id : String
  pub status : ActionStatus
  pub reason : String
  pub created_at_ms : ℕ
  pub details_json : String

-- The tables; the newest transition stands first.
pub record Ledger : Type 0 where
  pub account : Option Account
  pub positions : Table Position
  pub reservations : Table Reservation
  pub attempts : List Attempt
  pub targets : Table Target
  pub transitions : List ActionTransition

-- INSERT INTO action_transitions
unfoldable pub append_transition : String → ActionStatus → String → ℕ → String → Ledger → Ledger
append_transition action status reason now details l = record l {
  transitions =
      record {
        action_id = action;
        status = status;
        reason = reason;
        created_at_ms = now;
        details_json = details;
      }
      ∷ l.transitions;
}

-- SELECT … WHERE action_id = ? ORDER BY id DESC LIMIT 1
unfoldable pub latest_transition : String → List ActionTransition → Option ActionTransition
latest_transition action [] = none
latest_transition action (t ∷ rest) =
    if t.action_id == action then some t else latest_transition action rest

abbrev pub is_unresolved : AttemptState → Bool
is_unresolved submit_started = true
is_unresolved submitted_unreconciled = true
is_unresolved unknown_submission = true
is_unresolved _ = false

-- UPDATE order_reservations SET active = 0 WHERE action_id = ?
abbrev pub release : Reservation → Reservation
release r = record r { active = false }
