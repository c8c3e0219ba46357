-- ===== src/Settlement.antt =====
-- The redemptions in the ledger of one strategy, `LiveStore` of app/cd90_live_copy.py: its tables,
-- beside those of the orders, and `condition_inventory`. Identifiers come as the source normalises
-- them, with an empty one as `none`; the texts of the tables denote decimals.
pub mod Receipts
pub mod Settle
pub mod Handoff
pub mod Booked
pub mod Conserved
pub mod Share
pub mod Repeat
pub mod Once
pub mod Kept
pub mod History
pub mod Reopened
mod Tests
use Prim.Native.String.{String}
use text.Mathlib.Text.{◌==◌}
use polymarket_live_copy.Prelude.{
  ℕ, Bool, true, false, ◌&&◌, Option, none, some, List, [], ◌∷◌, if◌then◌else◌, ◌==◌ as nat_eq,
}
use polymarket_live_copy.Prelude.Table.{Table, lookup, upsert}
use polymarket_live_copy.Decimal.{Decimal, decimal_zero, magnitude}
use polymarket_live_copy.Store.{Position, Ledger}
use polymarket_live_copy.Store.Fills.{position_of}

-- The messages of the exceptions, and the database's refusal of a second row under one key.
pub data SettlementError : Type 0 where
  missing_redemption_receipt nonpositive_redemption_payout : SettlementError
  retryable_has_transaction_id retryable_payout_changed : SettlementError
  invalid_cash_credit_payout quarantine_missing_transaction_id : SettlementError
  invalid_quarantine_time quarantine_identity_conflict : SettlementError
  quarantine_requires_redeemed_receipt quarantine_payout_mismatch : SettlementError
  invalid_external_transaction_hash nonpositive_external_payout : SettlementError
  missing_official_activity_proof missing_zero_balance_proof : SettlementError
  missing_condition_inventory external_state_not_repairable : SettlementError
  external_has_relayer_transaction retryable_external_has_hash payout_mismatch : SettlementError
  account_not_initialized missing_exact_inventory_proof winner_balance_not_zero : SettlementError
  invalid_loss_payout_numerators loss_winner_token_mismatch : SettlementError
  condition_is_not_a_local_loss loss_state_not_repairable : SettlementError
  loss_has_transaction_id missing_redemption_transaction_id : SettlementError
  invalid_confirmed_payout state_not_reconcilable pending_without_transaction_id : SettlementError
  integrity_error incomplete_allocation invalid_allocation : SettlementError
  loss_has_nonzero_payout win_has_nonpositive_payout mapping_mismatch : SettlementError
  terminal_conflict hash_conflict idempotence_position_mismatch : SettlementError
  local_redemption_blocks primary_inventory_changed : SettlementError
  secondary_inventory_changed active_order_blocks : SettlementError

-- The state of a redemption receipt; `other_state` is any other text.
pub data LocalState : Type 0 where
  submit_started submitted_unreconciled pending unknown_submission : LocalState
  not_submitted_retryable block_pre_submission_revalidation : LocalState
  block_ambiguous_onchain_inventory redeemed redeemed_external_verified : LocalState
  loss_resolved_no_payout redeemed_shared_wallet : LocalState
  redeemed_shared_platform_settlement loss_resolved_shared_wallet : LocalState
  other_state : String → LocalState

-- A row of condition_mappings.
pub record Mapping : Type 0 where
  pub primary_token_id : String
  pub secondary_token_id : String

-- A row of redemption_receipts.
pub record LocalReceipt : Type 0 where
  pub state : LocalState
  pub expected_payout_usd : Decimal
  pub transaction_id : Option String
  pub transaction_hash : Option String
  pub created_at_ms : ℕ
  pub updated_at_ms : ℕ

-- A row of redeemed_cash_credit_quarantines.
pub record Quarantine : Type 0 where
  pub payout_usd : Decimal
  pub transaction_id : String
  pub transaction_hash : Option String
  pub created_at_ms : ℕ

-- A row of redemption_transitions. Of the details the source reads back the inventory's hash alone.
pub record LocalTransition : Type 0 where
  pub condition_id : String
  pub state : LocalState
  pub reason : String
  pub created_at_ms : ℕ
  pub inventory_hash : String
  pub details : String

-- The tables; the newest transition stands first.
pub record Register : Type 0 where
  pub ledger : Ledger
  pub mappings : Table Mapping
  pub receipts : Table LocalReceipt
  pub quarantines : Table Quarantine
  pub history : List LocalTransition

-- A row of `condition_inventory`.
pub record Holding : Type 0 where
  pub primary_token_id : String
  pub secondary_token_id : String
  pub primary_quantity : Decimal
  pub primary_cost_basis_usd : Decimal
  pub secondary_quantity : Decimal
  pub secondary_cost_basis_usd : Decimal

abbrev pub is_zero : Decimal → Bool
is_zero d = nat_eq (magnitude d) 0

unfoldable pub holding_of : Mapping → Table Position → Holding
holding_of m rows = record {
  primary_token_id = m.primary_token_id;
  secondary_token_id = m.secondary_token_id;
  primary_quantity = (position_of (lookup m.primary_token_id rows)).quantity;
  primary_cost_basis_usd = (position_of (lookup m.primary_token_id rows)).cost_basis_usd;
  secondary_quantity = (position_of (lookup m.secondary_token_id rows)).quantity;
  secondary_cost_basis_usd = (position_of (lookup m.secondary_token_id rows)).cost_basis_usd;
}

-- `condition_inventory` of one condition: it has one row or none.
unfoldable pub condition_inventory : String → Register → Option Holding
condition_inventory condition w = elim (lookup condition w.mappings) [
  | none ↦ none
  | some m ↦
      let h = holding_of m w.ledger.positions in
      if is_zero h.primary_quantity && is_zero h.secondary_quantity then none else some h
]

-- `_append_redemption_transition`
unfoldable pub append_redemption_transition :
    String → LocalState → String → ℕ → String → String → Register → Register
append_redemption_transition condition state reason now hash details w = record w {
  history =
      record {
        condition_id = condition;
        state = state;
        reason = reason;
        created_at_ms = now;
        inventory_hash = hash;
        details = details;
      }
      ∷ w.history;
}

unfoldable pub latest_history : String → List LocalTransition → Option LocalTransition
latest_history condition [] = none
latest_history condition (t ∷ rest) =
    if t.condition_id == condition then some t else latest_history condition rest
