-- ===== src/Settlement/Handoff.antt =====
-- `apply_shared_condition_settlement` of app/cd90_live_copy.py: a sleeve's share of a redemption
-- that the coordinator has frozen.
use Prim.Native.String.{String}
use text.Mathlib.Text.{◌==◌}
use polymarket_live_copy.Prelude.{
  ℕ, ◌+◌, Bool, true, false, not, ◌&&◌, ◌||◌, Option, none, some, [], ◌∷◌, Result, ok, raise_if,
  or_raise, ◌>>=◌, ◌>>◌, if◌then◌else◌, is_some, ◌==◌ as nat_eq,
}
use polymarket_live_copy.Prelude.Int.{leb_ℤ, ltb_ℤ}
use polymarket_live_copy.Prelude.Table.{Table, lookup}
use polymarket_live_copy.Decimal.{Context, Decimal, decimal_zero, add}
use polymarket_live_copy.Store.{Position, Reservation, Ledger}
use polymarket_live_copy.Store.Fills.{position_of}
use polymarket_live_copy.Settlement.{
  SettlementError, incomplete_allocation, invalid_allocation, loss_has_nonzero_payout,
  win_has_nonpositive_payout, mapping_mismatch, terminal_conflict, hash_conflict,
  idempotence_position_mismatch, local_redemption_blocks, primary_inventory_changed,
  secondary_inventory_changed, active_order_blocks, account_not_initialized, LocalState,
  not_submitted_retryable, block_pre_submission_revalidation, block_ambiguous_onchain_inventory,
  redeemed_shared_wallet, redeemed_shared_platform_settlement, loss_resolved_shared_wallet,
  LocalReceipt, LocalTransition, Register, is_zero, append_redemption_transition, latest_history,
}
use polymarket_live_copy.Settlement.Receipts.{same_value, insert_receipt}
use polymarket_live_copy.Settlement.Settle.{close_receipt, credit, write_settlement}

-- The terminal states that the first guard lets through.
pub data SharedTerminal : Type 0 where
  wallet platform loss : SharedTerminal

abbrev pub state_of : SharedTerminal → LocalState
state_of wallet = redeemed_shared_wallet
state_of platform = redeemed_shared_platform_settlement
state_of loss = loss_resolved_shared_wallet

abbrev pub terminal_of : LocalState → Option SharedTerminal
terminal_of redeemed_shared_wallet = some wallet
terminal_of redeemed_shared_platform_settlement = some platform
terminal_of loss_resolved_shared_wallet = some loss
terminal_of _ = none

abbrev pub is_loss : SharedTerminal → Bool
is_loss loss = true
is_loss _ = false

abbrev pub same_terminal : SharedTerminal → SharedTerminal → Bool
same_terminal wallet wallet = true
same_terminal platform platform = true
same_terminal loss loss = true
same_terminal _ _ = false

abbrev pub is_handoff : LocalState → Bool
is_handoff not_submitted_retryable = true
is_handoff block_pre_submission_revalidation = true
is_handoff block_ambiguous_onchain_inventory = true
is_handoff _ = false

-- The argument `allocation`.
pub record SharedAllocation : Type 0 where
  pub primary_token_id : String
  pub secondary_token_id : String
  pub inventory_hash : String
  pub primary_quantity : Decimal
  pub secondary_quantity : Decimal
  pub primary_cost_basis_usd : Decimal
  pub secondary_cost_basis_usd : Decimal
  pub payout_usd : Decimal

abbrev pub is_blank : String → Bool
is_blank s = s == ""

unfoldable pub check_allocation :
    String → SharedTerminal → SharedAllocation → Result SettlementError (Unit {0})
check_allocation condition terminal a = do
  raise_if
      (is_blank condition
        || is_blank a.primary_token_id
        || is_blank a.secondary_token_id
        || is_blank a.inventory_hash)
      incomplete_allocation
  raise_if
      (ltb_ℤ a.primary_quantity decimal_zero
        || ltb_ℤ a.secondary_quantity decimal_zero
        || ltb_ℤ a.primary_cost_basis_usd decimal_zero
        || ltb_ℤ a.secondary_cost_basis_usd decimal_zero
        || ltb_ℤ a.payout_usd decimal_zero)
      invalid_allocation
  raise_if (is_loss terminal && not (is_zero a.payout_usd)) loss_has_nonzero_payout
  raise_if (not (is_loss terminal) && leb_ℤ a.payout_usd decimal_zero) win_has_nonpositive_payout

unfoldable pub check_mapping :
    String → SharedAllocation → Register → Result SettlementError (Unit {0})
check_mapping condition a w = do
  mapping ← or_raise (lookup condition w.mappings) mapping_mismatch
  raise_if
      (not (
        mapping.primary_token_id == a.primary_token_id
        && mapping.secondary_token_id == a.secondary_token_id))
      mapping_mismatch

-- Nothing is left of a position, if it is there.
unfoldable pub is_empty_position : String → Table Position → Bool
is_empty_position token rows =
    is_zero (position_of (lookup token rows)).quantity
    && is_zero (position_of (lookup token rows)).cost_basis_usd

abbrev pub hash_of : Option LocalTransition → String
hash_of none = ""
hash_of (some t) = t.inventory_hash

-- The settlement is there already: the same one, with nothing left.
unfoldable pub confirm_settlement :
    String
    → SharedTerminal
    → SharedTerminal
    → SharedAllocation
    → Register
    → Result SettlementError (Bool × Register)
confirm_settlement condition found terminal a w = do
  raise_if (not (same_terminal found terminal)) terminal_conflict
  raise_if (not (hash_of (latest_history condition w.history) == a.inventory_hash)) hash_conflict
  raise_if
      (not (
        is_empty_position a.primary_token_id w.ledger.positions
        && is_empty_position a.secondary_token_id w.ledger.positions))
      idempotence_position_mismatch
  ok (false, w)

-- SELECT COUNT(*) … WHERE active = 1 AND (condition_id = ? OR token_id IN (?, ?))
unfoldable pub active_orders : String → (primary secondary : String) → Table Reservation → ℕ
active_orders condition primary secondary [] = 0
active_orders condition primary secondary ((_, r) ∷ rest) =
    (if r.active
        && (r.condition_id == condition || r.token_id == primary || r.token_id == secondary)
      then 1
      else 0)
    + active_orders condition primary secondary rest

unfoldable pub matches : Decimal → Decimal → String → Table Position → Bool
matches quantity cost token rows =
    same_value (position_of (lookup token rows)).quantity quantity
    && same_value (position_of (lookup token rows)).cost_basis_usd cost

unfoldable pub check_inventory :
    String → SharedAllocation → Ledger → Result SettlementError (Unit {0})
check_inventory condition a l = do
  raise_if
      (not (matches a.primary_quantity a.primary_cost_basis_usd a.primary_token_id l.positions))
      primary_inventory_changed
  raise_if
      (not
        (matches a.secondary_quantity a.secondary_cost_basis_usd a.secondary_token_id l.positions))
      secondary_inventory_changed
  raise_if
      (not
        (nat_eq (active_orders condition a.primary_token_id a.secondary_token_id l.reservations) 0))
      active_order_blocks

-- A receipt that a transaction or its state takes out of the hand-off.
abbrev pub blocks_handoff : Option LocalReceipt → Bool
blocks_handoff none = false
blocks_handoff (some r) =
    is_some r.transaction_id || is_some r.transaction_hash || not (is_handoff r.state)

unfoldable pub write_receipt :
    String → SharedTerminal → Decimal → Option String → ℕ → Register → Register
write_receipt condition terminal payout hash now w =
    if is_some (lookup condition w.receipts)
    then close_receipt condition (state_of terminal) (some payout) hash now w
    else insert_receipt condition (state_of terminal) payout hash now w

module _ (c : Context) where
  unfoldable pub settle_share :
      String
      → SharedTerminal
      → SharedAllocation
      → Option String
      → ℕ
      → String
      → Register
      → Result SettlementError (Bool × Register)
  settle_share condition terminal a hash now details w = do
    raise_if (blocks_handoff (lookup condition w.receipts)) local_redemption_blocks
    check_inventory condition a w.ledger
    account ← or_raise w.ledger.account account_not_initialized
    ok (
      true,
      append_redemption_transition condition (state_of terminal)
          "COORDINATOR_FROZEN_SHARED_WALLET_ALLOCATION" now a.inventory_hash details
          (write_receipt condition terminal a.payout_usd hash now (
            write_settlement condition a.primary_token_id a.secondary_token_id
              (credit c a.payout_usd (add c a.primary_cost_basis_usd a.secondary_cost_basis_usd)
                account)
              w)),
    )

  abbrev pub found_terminal : Option LocalReceipt → Option SharedTerminal
  found_terminal none = none
  found_terminal (some r) = terminal_of r.state

  unfoldable pub apply_shared_condition_settlement :
      String
      → SharedTerminal
      → SharedAllocation
      → Option String
      → ℕ
      → String
      → Register
      → Result SettlementError (Bool × Register)
  apply_shared_condition_settlement condition terminal a hash now details w = do
    check_allocation condition terminal a
    check_mapping condition a w
    elim (found_terminal (lookup condition w.receipts)) [
      | some found ↦ confirm_settlement condition found terminal a w
      | none ↦ settle_share condition terminal a hash now details w
    ]
