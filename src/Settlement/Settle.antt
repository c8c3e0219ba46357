-- ===== src/Settlement/Settle.antt =====
-- The settlements of app/cd90_live_copy.py: each one writes the positions of a condition off and
-- books its payout. The inventory is what `condition_inventory` returned before the transaction.
-- What the source looks up in the details is a field of `Proof`, the check of a hash's form
-- included.
use Prim.Native.String.{String}
use text.Mathlib.Text.{◌==◌}
use polymarket_live_copy.Prelude.{
  ℕ, Bool, true, false, not, ◌&&◌, ◌||◌, Option, none, some, Result, ok, raise_if, or_raise, ◌>>=◌,
  ◌>>◌, if◌then◌else◌, is_some,
}
use polymarket_live_copy.Prelude.Int.{ℤ, leb_ℤ, ltb_ℤ}
use polymarket_live_copy.Prelude.Table.{Table, lookup, upsert, update}
use polymarket_live_copy.Decimal.{Context, Decimal, decimal_zero, add, sub}
use polymarket_live_copy.Store.{Account, Position}
use polymarket_live_copy.Settlement.{
  SettlementError, invalid_external_transaction_hash, nonpositive_external_payout,
  missing_official_activity_proof, missing_zero_balance_proof, missing_condition_inventory,
  external_state_not_repairable, external_has_relayer_transaction, retryable_external_has_hash,
  payout_mismatch, account_not_initialized, missing_exact_inventory_proof, winner_balance_not_zero,
  invalid_loss_payout_numerators, loss_winner_token_mismatch, condition_is_not_a_local_loss,
  loss_state_not_repairable, loss_has_transaction_id, invalid_confirmed_payout,
  state_not_reconcilable, pending_without_transaction_id, integrity_error, LocalState,
  submitted_unreconciled, pending, unknown_submission, redeemed, redeemed_external_verified,
  loss_resolved_no_payout, LocalReceipt, Register, Holding, is_zero, append_redemption_transition,
}
use polymarket_live_copy.Settlement.Receipts.{
  same_value, coalesce_text, is_retryable, insert_receipt, insert_quarantine,
}

-- INSERT … VALUES(?, '0', '0') ON CONFLICT(token_id) DO UPDATE SET quantity = '0', …
unfoldable pub written_off : String → Option Position → Position
written_off condition none = record {
  quantity = decimal_zero;
  cost_basis_usd = decimal_zero;
  condition_id = condition;
}
written_off condition (some p) = record p { quantity = decimal_zero; cost_basis_usd = decimal_zero }

unfoldable pub write_off : String → String → Table Position → Table Position
write_off condition token rows = upsert token (written_off condition (lookup token rows)) rows

-- The loop over the two tokens, and the row of the account.
unfoldable pub write_settlement :
    String → (primary secondary : String) → Account → Register → Register
write_settlement condition primary secondary account w = record w {
  ledger = record w.ledger {
    account = some account;
    positions = write_off condition secondary (write_off condition primary w.ledger.positions);
  };
}

-- UPDATE redemption_receipts SET state = ?, …
unfoldable pub close_receipt :
    String → LocalState → Option Decimal → Option String → ℕ → Register → Register
close_receipt condition state payout hash now w = record w {
  receipts =
      update condition
        (λ r. record r {
          state = state;
          expected_payout_usd = elim payout [ none ↦ r.expected_payout_usd | some p ↦ p ];
          transaction_hash = coalesce_text hash r.transaction_hash;
          updated_at_ms = now;
        })
        w.receipts;
}

abbrev pub is_reconcilable : LocalState → Bool
is_reconcilable submitted_unreconciled = true
is_reconcilable pending = true
is_reconcilable unknown_submission = true
is_reconcilable _ = false

abbrev pub is_unknown : LocalState → Bool
is_unknown unknown_submission = true
is_unknown _ = false

-- What the details prove, and the form of the hash.
pub record Proof : Type 0 where
  pub hash_is_valid : Bool
  pub official_activity_is_redeem : Bool
  pub onchain_balances_zero : Bool
  pub onchain_inventory_exact : Bool
  pub onchain_winner_balance_raw : ℤ
  pub payout_numerators : Option (ℤ × ℤ)
  pub winner_token_id : String

module _ (c : Context) where
  unfoldable pub total_cost : Holding → Decimal
  total_cost h = add c h.primary_cost_basis_usd h.secondary_cost_basis_usd

  -- `cash + payout` and `realized + payout - total_cost`
  unfoldable pub credit : Decimal → Decimal → Account → Account
  credit payout cost a = record a {
    cash_usd = add c a.cash_usd payout;
    realized_pnl_usd = sub c (add c a.realized_pnl_usd payout) cost;
  }

  unfoldable pub write_down : Decimal → Account → Account
  write_down cost a = record a { realized_pnl_usd = sub c a.realized_pnl_usd cost }

  unfoldable pub settle_holding : String → Holding → Account → Register → Register
  settle_holding condition h account w =
      write_settlement condition h.primary_token_id h.secondary_token_id account w

  -- The hold of a credit that is quarantined.
  unfoldable pub hold_credit :
      Bool
      → String
      → Decimal
      → (transaction_id transaction_hash : Option String) → ℕ
      → Register
      → Result SettlementError Register
  hold_credit wanted condition payout transaction_id transaction_hash now w =
      if not (wanted && ltb_ℤ decimal_zero payout) then ok w else do
        inserted ←
            insert_quarantine condition payout transaction_id transaction_hash now w.quarantines
        ok (record w { quarantines = inserted.1 })

  unfoldable pub settled_state : Decimal → LocalState
  settled_state payout = if ltb_ℤ decimal_zero payout then redeemed else loss_resolved_no_payout

  -- The source reads the receipt and the account before its write transaction opens; here the reads
  -- and the writes are one transaction.
  unfoldable pub settle_redeemed_condition :
      String
      → Decimal
      → ℕ
      → String
      → Option String
      → Bool
      → Option Holding
      → Register
      → Result SettlementError Register
  settle_redeemed_condition condition payout now details hash quarantined inventory w = do
    raise_if (ltb_ℤ payout decimal_zero) invalid_confirmed_payout
    holding ← or_raise inventory missing_condition_inventory
    receipt ← or_raise (lookup condition w.receipts) state_not_reconcilable
    raise_if (not (is_reconcilable receipt.state)) state_not_reconcilable
    raise_if (not (is_some receipt.transaction_id)) pending_without_transaction_id
    account ← or_raise w.ledger.account account_not_initialized
    held ←
        hold_credit quarantined condition payout receipt.transaction_id
          (coalesce_text hash receipt.transaction_hash) now
          (close_receipt condition (settled_state payout) (some payout) hash now
            (settle_holding "" holding (credit payout (total_cost holding) account) w))
    ok (
        append_redemption_transition condition (settled_state payout)
          "EXACT_OFFICIAL_REDEEM_TRANSACTION_PAYOUT" now "" details held)

  unfoldable pub check_external : Proof → Decimal → Result SettlementError (Unit {0})
  check_external proof payout = do
    raise_if (not proof.hash_is_valid) invalid_external_transaction_hash
    raise_if (leb_ℤ payout decimal_zero) nonpositive_external_payout
    raise_if (not proof.official_activity_is_redeem) missing_official_activity_proof
    raise_if (not proof.onchain_balances_zero) missing_zero_balance_proof

  unfoldable pub check_external_receipt : LocalReceipt → Decimal → Result SettlementError (Unit {0})
  check_external_receipt r payout = do
    raise_if (not (is_unknown r.state || is_retryable r.state)) external_state_not_repairable
    raise_if (is_some r.transaction_id) external_has_relayer_transaction
    raise_if (is_retryable r.state && is_some r.transaction_hash) retryable_external_has_hash
    raise_if (not (same_value r.expected_payout_usd payout)) payout_mismatch

  unfoldable pub settle_externally_verified_redemption :
      String
      → Decimal
      → String
      → ℕ
      → String
      → Proof
      → Option Holding
      → Register
      → Result SettlementError Register
  settle_externally_verified_redemption condition payout hash now details proof inventory w = do
    check_external proof payout
    holding ← or_raise inventory missing_condition_inventory
    receipt ← or_raise (lookup condition w.receipts) external_state_not_repairable
    check_external_receipt receipt payout
    account ← or_raise w.ledger.account account_not_initialized
    ok (
        append_redemption_transition condition redeemed_external_verified
          "OFFICIAL_ACTIVITY_AND_ONCHAIN_BALANCE_PROOF" now "" details
          (close_receipt condition redeemed_external_verified none (some hash) now
            (settle_holding "" holding (credit payout (total_cost holding) account) w)))

  -- One numerator is zero, and the other is positive.
  abbrev pub is_binary : ℤ → ℤ → Bool
  is_binary x y = is_zero x && ltb_ℤ decimal_zero y || is_zero y && ltb_ℤ decimal_zero x

  unfoldable pub check_loss : Proof → Result SettlementError (ℤ × ℤ)
  check_loss proof = do
    raise_if (not proof.onchain_inventory_exact) missing_exact_inventory_proof
    raise_if (not (is_zero proof.onchain_winner_balance_raw)) winner_balance_not_zero
    numerators ← or_raise proof.payout_numerators invalid_loss_payout_numerators
    raise_if (not (is_binary numerators.0 numerators.1)) invalid_loss_payout_numerators
    ok numerators

  -- The winner is the token with the positive numerator; this ledger holds none of it.
  unfoldable pub check_loser : Proof → ℤ → Holding → Result SettlementError (Unit {0})
  check_loser proof first h = do
    raise_if
        (not (
          proof.winner_token_id
          == (if ltb_ℤ decimal_zero first then h.primary_token_id else h.secondary_token_id)))
        loss_winner_token_mismatch
    raise_if
        (not
          (is_zero (if ltb_ℤ decimal_zero first then h.primary_quantity else h.secondary_quantity)))
        condition_is_not_a_local_loss

  unfoldable pub settle_verified_losing_condition_from_terminal :
      String → ℕ → String → Proof → Option Holding → Register → Result SettlementError Register
  settle_verified_losing_condition_from_terminal condition now details proof inventory w = do
    numerators ← check_loss proof
    holding ← or_raise inventory missing_condition_inventory
    check_loser proof numerators.0 holding
    receipt ← or_raise (lookup condition w.receipts) loss_state_not_repairable
    raise_if (not (is_unknown receipt.state)) loss_state_not_repairable
    raise_if (is_some receipt.transaction_id || is_some receipt.transaction_hash)
        loss_has_transaction_id
    account ← or_raise w.ledger.account account_not_initialized
    ok (
        append_redemption_transition condition loss_resolved_no_payout
          "OFFICIAL_PAYOUT_AND_EXACT_ONCHAIN_INVENTORY_PROOF" now "" details
          (close_receipt condition loss_resolved_no_payout (some decimal_zero) none now
            (settle_holding "" holding (write_down (total_cost holding) account) w)))

  -- The account is read before the write transaction too, and the reads and the writes are one
  -- transaction here.
  unfoldable pub settle_losing_condition :
      String → ℕ → String → Option Holding → Register → Result SettlementError Register
  settle_losing_condition condition now details inventory w = do
    holding ← or_raise inventory missing_condition_inventory
    account ← or_raise w.ledger.account account_not_initialized
    raise_if (is_some (lookup condition w.receipts)) integrity_error
    ok (
        append_redemption_transition condition loss_resolved_no_payout "" now "" details (
          insert_receipt condition loss_resolved_no_payout decimal_zero none now
            (settle_holding "" holding (write_down (total_cost holding) account) w)))
