-- ===== src/Settlement/Kept.antt =====
-- A settled receipt under the operations of app/cd90_live_copy.py that settle nothing.
use Prim.Native.String.{String}
use text.Mathlib.Text.{◌==◌}
use text.Mathlib.TextEquality.{eq_iff}
use polymarket_live_copy.Prelude.{
  ℕ, ◌≡◌, refl, inl, inr, Bool, true, false, Option, none, ok, arith, Bool-cases, Option-cases,
  Result-cases,
}
use polymarket_live_copy.Prelude.Table.{Table, lookup, upsert, update, lookup-update, lookup-upsert}
use polymarket_live_copy.Decimal.{Decimal}
use polymarket_live_copy.Settlement.{
  LocalState, LocalReceipt, Register, append_redemption_transition,
}
use polymarket_live_copy.Settlement.Receipts.{insert_receipt, insert_quarantine, coalesce_text}
use polymarket_live_copy.Settlement.{Quarantine}
use polymarket_live_copy.Settlement.{submit_started}
use polymarket_live_copy.Settlement.Receipts.{
  start_redemption_submission, record_redemption_terminal_without_submission, set_redemption_state,
  record_redeemed_cash_credit_quarantine, log_quarantine, is_retryable,
}
use polymarket_live_copy.Settlement.Once.{is_settled_receipt}

-- The receipt of a condition is settled.
abbrev pub IsSettledAt : String → Register → Type 0
IsSettledAt k w = is_settled_receipt (lookup k w.receipts) ≡ true

-- A write to a receipt that is not settled leaves the settled ones.
keep-update :
    (k condition : String) (f : LocalReceipt → LocalReceipt) (w w' : Register)
    → is_settled_receipt (lookup condition w.receipts) ≡ false
    → w'.receipts ≡ update condition f w.receipts
    → IsSettledAt k w
    → IsSettledAt k w'
keep-update k condition f w w' unsettled e h =
    ground (arith, e, lookup-update condition k f w.receipts, eq_iff condition k)

keep-upsert :
    (k condition : String) (r : LocalReceipt) (w w' : Register)
    → lookup condition w.receipts ≡ none
    → w'.receipts ≡ upsert condition r w.receipts
    → IsSettledAt k w
    → IsSettledAt k w'
keep-upsert k condition r w w' absent e h =
    ground (arith, e, lookup-upsert condition k r w.receipts, eq_iff condition k)

pub keep-same :
    (k : String) (w w' : Register) → w'.receipts ≡ w.receipts → IsSettledAt k w → IsSettledAt k w'
keep-same k w w' e h = rw e h

keep-insert :
    (k condition : String) (state : LocalState) (payout : Decimal) (hash : Option String) (now : ℕ)
    (w w' : Register)
    → lookup condition w.receipts ≡ none
    → w'.receipts ≡ (insert_receipt condition state payout hash now w).receipts
    → IsSettledAt k w
    → IsSettledAt k w'
unfolding insert_receipt
keep-insert k condition state payout hash now w w' absent e h =
    keep-upsert k condition _ w w' absent e h

started : ℕ → LocalReceipt → LocalReceipt
started now r = record r { state = submit_started; updated_at_ms = now }

pub start-IsSettledAt :
    (k condition : String) (payout : Decimal) (now : ℕ) (details : String) (b : Bool)
    (w w' : Register)
    → start_redemption_submission condition payout now details w ≡ ok (b, w')
    → IsSettledAt k w
    → IsSettledAt k w'
unfolding start_redemption_submission append_redemption_transition started
start-IsSettledAt k condition payout now details b w w' e h =
    elim (Option-cases (lookup condition w.receipts)) [
      | inl absent ↦
          keep-insert k condition submit_started payout none now w w' absent (ground arith) h
      | inr (r, there) ↦ elim (Bool-cases (is_retryable r.state)) [
        | inl retryable ↦ keep-update k condition (started now) w w' (ground arith) (ground arith) h
        | inr other ↦ keep-same k w w' (ground arith) h
      ]
    ]

pub terminal-IsSettledAt :
    (k condition : String) (state : LocalState) (reason : String) (payout : Decimal) (now : ℕ)
    (details : String) (hash : Option String) (b : Bool) (w w' : Register)
    → record_redemption_terminal_without_submission condition state reason payout now details hash w
      ≡ (b, w')
    → IsSettledAt k w
    → IsSettledAt k w'
unfolding record_redemption_terminal_without_submission append_redemption_transition
terminal-IsSettledAt k condition state reason payout now details hash b w w' e h =
    elim (Option-cases (lookup condition w.receipts)) [
      | inl absent ↦ keep-insert k condition state payout hash now w w' absent (ground arith) h
      | inr (r, there) ↦ keep-same k w w' (ground arith) h
    ]

marked : LocalState → (id hash : Option String) → ℕ → LocalReceipt → LocalReceipt
marked state id hash now r = record r {
  state = state;
  transaction_id = coalesce_text id r.transaction_id;
  transaction_hash = coalesce_text hash r.transaction_hash;
  updated_at_ms = now;
}

pub mark-IsSettledAt :
    (k condition : String) (state : LocalState) (reason : String) (now : ℕ) (details : String)
    (id hash : Option String) (w w' : Register)
    → is_settled_receipt (lookup condition w.receipts) ≡ false
    → set_redemption_state condition state reason now details id hash w ≡ ok w'
    → IsSettledAt k w
    → IsSettledAt k w'
unfolding set_redemption_state append_redemption_transition marked
mark-IsSettledAt k condition state reason now details id hash w w' unsettled e h =
    keep-update k condition (marked state id hash now) w w' unsettled (ground arith) h

-- A mark of another condition leaves the receipt.
pub mark-other :
    (k condition : String) (state : LocalState) (reason : String) (now : ℕ) (details : String)
    (id hash : Option String) (w w' : Register)
    → (k == condition) ≡ false
    → set_redemption_state condition state reason now details id hash w ≡ ok w'
    → IsSettledAt k w
    → IsSettledAt k w'
unfolding set_redemption_state append_redemption_transition marked
mark-other k condition state reason now details id hash w w' other e h = ground (
  arith,
  lookup-update condition k (marked state id hash now) w.receipts,
  eq_iff condition k,
  eq_iff k condition,
)

log_quarantine-receipts :
    (condition : String) (now : ℕ) (details : String) (t : Bool × Table Quarantine) (w : Register)
    → (log_quarantine condition now details t w).receipts ≡ w.receipts
unfolding log_quarantine append_redemption_transition
log_quarantine-receipts condition now details (true, rows) w = refl
log_quarantine-receipts condition now details (false, rows) w = refl

pub quarantine-IsSettledAt :
    (k condition : String) (payout : Decimal) (now : ℕ) (details : String) (b : Bool)
    (w w' : Register)
    → record_redeemed_cash_credit_quarantine condition payout now details w ≡ ok (b, w')
    → IsSettledAt k w
    → IsSettledAt k w'
unfolding record_redeemed_cash_credit_quarantine
quarantine-IsSettledAt k condition payout now details b w w' e h =
    elim (Option-cases (lookup condition w.receipts)) [
      | inl absent ↦ absurd (ground arith)
      | inr (r, there) ↦
          elim (Result-cases (
            insert_quarantine condition payout r.transaction_id r.transaction_hash now
              w.quarantines)) [
                | inl (x, refused) ↦ absurd (ground arith)
                | inr (t, inserted) ↦
                    keep-same k w w'
                      (ground (arith, log_quarantine-receipts condition now details t w)) h
              ]
    ]
