-- ===== src/Settlement/Receipts.antt =====
-- The operations of app/cd90_live_copy.py on a redemption receipt that move no money: its start,
-- its marks, and the quarantine of a payout.
use Prim.Native.String.{String}
use text.Mathlib.Text.{◌==◌}
use polymarket_live_copy.Prelude.{
  ℕ, Bool, true, false, not, ◌&&◌, ◌||◌, Option, none, some, Result, ok, raise, raise_if, or_raise,
  ◌>>=◌, ◌>>◌, if◌then◌else◌, is_some,
}
use polymarket_live_copy.Prelude.Int.{leb_ℤ}
use polymarket_live_copy.Prelude.Table.{Table, lookup, upsert, update}
use polymarket_live_copy.Decimal.{Decimal, decimal_zero}
use polymarket_live_copy.Settlement.{
  SettlementError, missing_redemption_receipt, nonpositive_redemption_payout,
  retryable_has_transaction_id, retryable_payout_changed, invalid_cash_credit_payout,
  quarantine_missing_transaction_id, quarantine_identity_conflict,
  quarantine_requires_redeemed_receipt, quarantine_payout_mismatch,
  missing_redemption_transaction_id, LocalState, submit_started, submitted_unreconciled,
  not_submitted_retryable, redeemed, other_state, Quarantine, Register,
  append_redemption_transition,
}

-- Two values are equal.
abbrev pub same_value : Decimal → Decimal → Bool
same_value x y = leb_ℤ x y && leb_ℤ y x

abbrev pub same_text : Option String → Option String → Bool
same_text none none = true
same_text (some a) (some b) = a == b
same_text _ _ = false

-- `COALESCE(new, old)`
abbrev pub coalesce_text : Option String → Option String → Option String
coalesce_text none old = old
coalesce_text (some new) old = some new

abbrev pub is_retryable : LocalState → Bool
is_retryable not_submitted_retryable = true
is_retryable _ = false

abbrev pub is_redeemed : LocalState → Bool
is_redeemed redeemed = true
is_redeemed _ = false

-- INSERT of a receipt.
unfoldable pub insert_receipt :
    String → LocalState → Decimal → Option String → ℕ → Register → Register
insert_receipt condition state payout hash now w = record w {
  receipts =
      upsert condition
        (record {
          state = state;
          expected_payout_usd = payout;
          transaction_id = none;
          transaction_hash = hash;
          created_at_ms = now;
          updated_at_ms = now;
        })
        w.receipts;
}

unfoldable pub start_redemption_submission :
    String → Decimal → ℕ → String → Register → Result SettlementError (Bool × Register)
start_redemption_submission condition payout now details w = do
  raise_if (leb_ℤ payout decimal_zero) nonpositive_redemption_payout
  elim (lookup condition w.receipts) [
    | none ↦ ok (
      true,
      append_redemption_transition condition submit_started "" now "" details
          (insert_receipt condition submit_started payout none now w),
    )
    | some r ↦ if not (is_retryable r.state) then ok (false, w) else do
      raise_if (is_some r.transaction_id || is_some r.transaction_hash) retryable_has_transaction_id
      raise_if (not (same_value r.expected_payout_usd payout)) retryable_payout_changed
      ok (
        true,
        append_redemption_transition condition submit_started "RETRY_AFTER_PROVEN_NO_SUBMISSION" now
            "" details
            (record w {
              receipts =
                  update condition (λ x. record x { state = submit_started; updated_at_ms = now })
                    w.receipts;
            }),
      )
  ]

unfoldable pub record_redemption_terminal_without_submission :
    String → LocalState → String → Decimal → ℕ → String → Option String → Register → Bool × Register
record_redemption_terminal_without_submission condition state reason payout now details hash w =
    if is_some (lookup condition w.receipts) then (false, w) else (
      true,
      append_redemption_transition condition state reason now "" details
          (insert_receipt condition state payout hash now w),
    )

-- `_set_redemption_state`; `mark_redemption_terminal` is the case of no transaction id. The source
-- reads the receipt before its write transaction opens; here the read and the writes are one
-- transaction. No state is refused: a mark of a settled receipt succeeds.
unfoldable pub set_redemption_state :
    (condition : String)
    → LocalState
    → (reason : String) → ℕ
    → (details : String) → (transaction_id transaction_hash : Option String) → Register
    → Result SettlementError Register
set_redemption_state condition state reason now details transaction_id transaction_hash w = do
  raise_if (not (is_some (lookup condition w.receipts))) missing_redemption_receipt
  ok (
      append_redemption_transition condition state reason now "" details (record w {
        receipts =
            update condition
              (λ r. record r {
                state = state;
                transaction_id = coalesce_text transaction_id r.transaction_id;
                transaction_hash = coalesce_text transaction_hash r.transaction_hash;
                updated_at_ms = now;
              })
              w.receipts;
      }))

unfoldable pub mark_redemption_submission :
    String
    → (transaction_id transaction_hash : Option String) → ℕ
    → String
    → Register
    → Result SettlementError Register
mark_redemption_submission condition none hash now details w =
    raise missing_redemption_transaction_id
mark_redemption_submission condition (some transaction) hash now details w =
    set_redemption_state condition submitted_unreconciled "" now details (some transaction) hash w

unfoldable pub mark_redemption_terminal :
    (condition : String)
    → LocalState
    → (reason : String) → ℕ
    → (details : String) → Option String
    → Register
    → Result SettlementError Register
mark_redemption_terminal condition state reason now details hash w =
    set_redemption_state condition state reason now details none hash w

-- `_insert_redeemed_cash_credit_quarantine`: whether a row was inserted, and the table.
unfoldable pub insert_quarantine :
    String
    → Decimal
    → (transaction_id transaction_hash : Option String) → ℕ
    → Table Quarantine
    → Result SettlementError (Bool × Table Quarantine)
insert_quarantine condition payout transaction_id transaction_hash now rows = do
  raise_if (leb_ℤ payout decimal_zero) invalid_cash_credit_payout
  transaction ← or_raise transaction_id quarantine_missing_transaction_id
  elim (lookup condition rows) [
    | some q ↦
        if same_value q.payout_usd payout
          && q.transaction_id == transaction
          && same_text q.transaction_hash transaction_hash
        then ok (false, rows)
        else raise quarantine_identity_conflict
    | none ↦ ok (
      true,
      upsert condition
          (record {
            payout_usd = payout;
            transaction_id = transaction;
            transaction_hash = transaction_hash;
            created_at_ms = now;
          })
          rows,
    )
  ]

-- The transition of a new quarantine.
unfoldable pub log_quarantine : String → ℕ → String → Bool × Table Quarantine → Register → Register
log_quarantine condition now details (false, rows) w = w
log_quarantine condition now details (true, rows) w =
    append_redemption_transition condition (other_state "REDEEMED_CASH_CREDIT_QUARANTINED")
      "CONFIRMED_REDEEM_AWAITING_AUTHENTICATED_CLOB_CREDIT" now "" details
      (record w { quarantines = rows })

unfoldable pub record_redeemed_cash_credit_quarantine :
    String → Decimal → ℕ → String → Register → Result SettlementError (Bool × Register)
record_redeemed_cash_credit_quarantine condition payout now details w = do
  raise_if (leb_ℤ payout decimal_zero) invalid_cash_credit_payout
  receipt ← or_raise (lookup condition w.receipts) quarantine_requires_redeemed_receipt
  raise_if (not (is_redeemed receipt.state)) quarantine_requires_redeemed_receipt
  raise_if (not (same_value receipt.expected_payout_usd payout)) quarantine_payout_mismatch
  inserted ←
      insert_quarantine condition payout receipt.transaction_id receipt.transaction_hash now
        w.quarantines
  ok (inserted.0, log_quarantine condition now details inserted w)
