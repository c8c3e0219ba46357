-- ===== src/Cash/Reconcile.antt =====
-- `reconcile_redeemed_cash_credit_quarantines` and `observe_authenticated_account_cash` of
-- app/live_wallet_coordinator.py. A quarantine is
-- pending until its payout is verified, voided or blocked; the rows that verify the payouts are
-- written here in the order of the quarantines, in the source in that of their keys.
use polymarket_live_copy.Prelude.{
  ℕ, ◌+◌, List, [], ◌∷◌, ◌++◌, length, Result, ok, raise_if, ◌>>=◌, ◌>>◌, if◌then◌else◌,
  ◌==◌ as nat_eq,
}
use polymarket_live_copy.Prelude.Int.{ℤ, ltb_ℤ}
use polymarket_live_copy.Prelude.Table.{Table}
use polymarket_live_copy.Decimal.{Context, Decimal, decimal_zero, add, sub}
use polymarket_live_copy.Cash.{
  CashError, invalid_cash_adjustment, invalid_authenticated_collateral,
  invalid_authenticated_collateral_observation, Verification, Sleeve, natural, ledger_cash,
  pending_among, pending_quarantine, permanent_block,
}
use polymarket_live_copy.Cash.Snapshot.{CashSnapshot, authenticated_account_cash_snapshot}

pub data CreditState : Type 0 where
  no_pending_redeemed_cash_credit pending_physical_cash_credit : CreditState
  physical_cash_credit_verified : CreditState

-- The dictionary that is returned.
pub record CreditReport : Type 0 where
  pub state : CreditState
  pub pending_receipt_count : ℕ
  pub pending_payout_usd : Decimal
  pub verified_receipt_count : ℕ

-- The sums of the first loop.
pub record CreditTally : Type 0 where
  pub raw_high : Decimal
  pub pending_count : ℕ
  pub pending_payout : Decimal

abbrev pub no_credit : CreditTally
no_credit = record { raw_high = decimal_zero; pending_count = 0; pending_payout = decimal_zero }

unfoldable pub pending_receipts : Sleeve → Table Decimal
pending_receipts s = pending_among s s.quarantines

-- INSERT INTO redeemed_cash_credit_quarantine_verifications, for each row
unfoldable pub verify_rows : Decimal → ℤ → Table Decimal → List Verification
verify_rows physical at [] = []
verify_rows physical at ((k, _) ∷ rest) =
    record { condition_id = k; authenticated_collateral_usd = physical; verified_at_ms = at }
    ∷ verify_rows physical at rest

unfoldable pub verify_sleeve : Decimal → ℤ → Sleeve → Sleeve
verify_sleeve physical at s = record s {
  verifications = s.verifications ++ verify_rows physical at (pending_receipts s);
}

unfoldable pub verify_sleeves : Decimal → ℤ → List Sleeve → List Sleeve
verify_sleeves physical at [] = []
verify_sleeves physical at (s ∷ rest) =
    verify_sleeve physical at s ∷ verify_sleeves physical at rest

unfoldable pub count_pending : List Sleeve → ℕ
count_pending [] = 0
count_pending (s ∷ rest) = length (pending_receipts s) + count_pending rest

module _ (c : Context) where
  unfoldable pub add_credit : CreditTally → Sleeve → Result CashError CreditTally
  add_credit t s = do
    adjustment ← natural invalid_cash_adjustment s.cash_adjustment_usd
    permanent ← permanent_block c s
    cash ← ledger_cash s.ledger
    pending ← pending_quarantine c s
    ok (record {
      raw_high = add c t.raw_high (sub c (sub c cash adjustment) permanent);
      pending_count = t.pending_count + length (pending_receipts s);
      pending_payout = add c t.pending_payout pending;
    })

  unfoldable pub add_credits : CreditTally → List Sleeve → Result CashError CreditTally
  add_credits t [] = ok t
  add_credits t (s ∷ rest) = do u ← add_credit t s; add_credits u rest

  -- What follows the first loop. The source reads the pending rows of each ledger again, in a write
  -- transaction of its own, and counts what it inserts; here no other writer comes in between.
  unfoldable pub settle_credits :
      Decimal → ℤ → CreditTally → List Sleeve → CreditReport × List Sleeve
  settle_credits physical at t sleeves =
      if nat_eq t.pending_count 0
      then (
        record {
          state = no_pending_redeemed_cash_credit;
          pending_receipt_count = 0;
          pending_payout_usd = decimal_zero;
          verified_receipt_count = 0;
        },
        sleeves,
      )
      else if ltb_ℤ physical t.raw_high
      then (
        record {
          state = pending_physical_cash_credit;
          pending_receipt_count = t.pending_count;
          pending_payout_usd = t.pending_payout;
          verified_receipt_count = 0;
        },
        sleeves,
      )
      else (
        record {
          state = physical_cash_credit_verified;
          pending_receipt_count = t.pending_count;
          pending_payout_usd = t.pending_payout;
          verified_receipt_count = count_pending sleeves;
        },
        verify_sleeves physical at sleeves,
      )

  unfoldable pub reconcile_redeemed_cash_credit_quarantines :
      Decimal → ℤ → List Sleeve → Result CashError (CreditReport × List Sleeve)
  reconcile_redeemed_cash_credit_quarantines collateral at sleeves = do
    physical ← natural invalid_authenticated_collateral collateral
    raise_if (ltb_ℤ at decimal_zero) invalid_authenticated_collateral_observation
    tally ← add_credits no_credit sleeves
    ok (settle_credits physical at tally sleeves)

  -- The reconciliation first, and then the snapshot of what it leaves.
  unfoldable pub observe_authenticated_account_cash :
      Decimal → ℤ → List Sleeve → Result CashError (CashSnapshot × List Sleeve)
  observe_authenticated_account_cash collateral at sleeves = do
    reconciled ← reconcile_redeemed_cash_credit_quarantines collateral at sleeves
    snapshot ← authenticated_account_cash_snapshot c collateral reconciled.1
    ok (snapshot, reconciled.1)
