-- ===== src/Shared.antt =====
-- app/live_wallet_coordinator.py: the wallet that several strategy ledgers share. Here the states
-- of the redemption of a shared condition, and the errors.
pub mod Redemption
pub mod Moves
pub mod Steps
pub mod Lifecycle
pub mod Settled
mod Tests
use polymarket_live_copy.Prelude.{Bool, true, false}

-- The keys of `_SHARED_REDEMPTION_TRANSITIONS`.
pub data RedemptionState : Type 0 where
  ready not_submitted_retryable submit_started submitted_unreconciled pending : RedemptionState
  unknown_submission distributing platform_distributing loss_distributing : RedemptionState
  redeemed redeemed_platform_settlement_verified loss_resolved_no_payout error : RedemptionState

-- `target in _SHARED_REDEMPTION_TRANSITIONS[current]`
unfoldable pub allowed : RedemptionState → RedemptionState → Bool
allowed ready submit_started = true
allowed ready loss_distributing = true
allowed ready platform_distributing = true
allowed not_submitted_retryable submit_started = true
allowed submit_started submitted_unreconciled = true
allowed submit_started unknown_submission = true
allowed submit_started not_submitted_retryable = true
allowed submitted_unreconciled pending = true
allowed submitted_unreconciled unknown_submission = true
allowed submitted_unreconciled distributing = true
allowed submitted_unreconciled error = true
allowed pending pending = true
allowed pending unknown_submission = true
allowed pending distributing = true
allowed pending error = true
allowed unknown_submission unknown_submission = true
allowed unknown_submission pending = true
allowed unknown_submission distributing = true
allowed unknown_submission platform_distributing = true
allowed unknown_submission error = true
allowed distributing redeemed = true
allowed platform_distributing redeemed_platform_settlement_verified = true
allowed loss_distributing loss_resolved_no_payout = true
allowed _ _ = false

-- `_SHARED_DISTRIBUTION_STATES`
unfoldable pub is_distribution : RedemptionState → Bool
is_distribution distributing = true
is_distribution platform_distributing = true
is_distribution loss_distributing = true
is_distribution _ = false

-- The states without a successor that a distribution ends in.
unfoldable pub is_settled : RedemptionState → Bool
is_settled redeemed = true
is_settled redeemed_platform_settlement_verified = true
is_settled loss_resolved_no_payout = true
is_settled _ = false

-- The messages of `SharedWalletCoordinatorError` that the redemption operations and the reading of
-- the inventory raise, and the
-- database's refusal of a second row under one primary key.
pub data CoordinatorError : Type 0 where
  redemption_winner_changed active_order_reservation active_local_redemption : CoordinatorError
  winner_token_mismatch receipt_not_persisted missing_receipt : CoordinatorError
  retryable_has_transaction_evidence missing_transaction_id : CoordinatorError
  invalid_state_transition transaction_id_changed transaction_hash_changed : CoordinatorError
  apply_outside_distribution allocation_not_found integrity_error : CoordinatorError
  invalid_shared_condition_id ledger_not_found missing_condition_mapping : CoordinatorError
  condition_mapping_mismatch invalid_primary_quantity invalid_secondary_quantity : CoordinatorError
  invalid_primary_cost invalid_secondary_cost requires_multiple_owners : CoordinatorError
