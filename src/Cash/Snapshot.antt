-- ===== src/Cash/Snapshot.antt =====
-- `authenticated_account_cash_snapshot` of app/live_wallet_coordinator.py.
use polymarket_live_copy.Prelude.{ℕ, ◌+◌, ltb, List, [], ◌∷◌, Result, ok, ◌>>=◌, if◌then◌else◌}
use polymarket_live_copy.Prelude.Int.{ltb_ℤ}
use polymarket_live_copy.Decimal
use polymarket_live_copy.Decimal.{Context, Decimal, decimal_zero, add, sub}
use polymarket_live_copy.Cash.{
  CashError, invalid_cash_adjustment, invalid_authenticated_collateral, Sleeve, natural,
  ledger_cash, active_sell_reservation_count, active_redemption_reservation_count,
  active_buy_reservation, pending_quarantine, permanent_block,
}

pub data CashState : Type 0 where
  permanently_blocked_redeemed_cash_credit quarantined_redeemed_cash_credit : CashState
  active_buy_reservations active_sell_reservations active_redemptions : CashState
  no_active_cash_holds : CashState

-- `AuthenticatedAccountCashSnapshot`
pub record CashSnapshot : Type 0 where
  pub authenticated_collateral_usd : Decimal
  pub expected_accounting_cash_low_usd : Decimal
  pub expected_accounting_cash_high_usd : Decimal
  pub active_buy_reservations_usd : Decimal
  pub active_sell_reservation_count : ℕ
  pub active_redemption_reservation_count : ℕ
  pub redeemed_cash_credit_quarantine_usd : Decimal
  pub permanent_redeemed_cash_credit_block_usd : Decimal
  pub available_for_new_buy_usd : Decimal
  pub unallocated_account_cash_usd : Decimal
  pub state : CashState

-- The running sums of the loop over the sleeves.
pub record Tally : Type 0 where
  pub accounting_cash : Decimal
  pub reservations : Decimal
  pub sells : ℕ
  pub redemptions : ℕ
  pub pending : Decimal
  pub permanent : Decimal

abbrev pub no_tally : Tally
no_tally = record {
  accounting_cash = decimal_zero;
  reservations = decimal_zero;
  sells = 0;
  redemptions = 0;
  pending = decimal_zero;
  permanent = decimal_zero;
}

module _ (c : Context) where
  -- The body of the loop.
  unfoldable pub add_sleeve : Tally → Sleeve → Result CashError Tally
  add_sleeve t s = do
    cash ← ledger_cash s.ledger
    adjustment ← natural invalid_cash_adjustment s.cash_adjustment_usd
    holds ← active_buy_reservation c s.ledger
    pending ← pending_quarantine c s
    permanent ← permanent_block c s
    ok (record {
      accounting_cash = add c t.accounting_cash (sub c cash adjustment);
      reservations = add c t.reservations holds;
      sells = t.sells + active_sell_reservation_count s.ledger.reservations;
      redemptions = t.redemptions + active_redemption_reservation_count s.redemptions;
      pending = add c t.pending pending;
      permanent = add c t.permanent permanent;
    })

  unfoldable pub add_sleeves : Tally → List Sleeve → Result CashError Tally
  add_sleeves t [] = ok t
  add_sleeves t (s ∷ rest) = do u ← add_sleeve t s; add_sleeves u rest

  unfoldable pub cash_state :
      (permanent quarantine holds : Decimal) → (sells redemptions : ℕ) → CashState
  cash_state permanent quarantine holds sells redemptions =
      if ltb_ℤ decimal_zero permanent
      then permanently_blocked_redeemed_cash_credit
      else if ltb_ℤ decimal_zero quarantine
      then quarantined_redeemed_cash_credit
      else if ltb_ℤ decimal_zero holds
      then active_buy_reservations
      else if ltb 0 sells
      then active_sell_reservations
      else if ltb 0 redemptions
      then active_redemptions
      else no_active_cash_holds

  -- What follows the loop.
  unfoldable pub take_snapshot : Decimal → Tally → CashSnapshot
  take_snapshot physical t =
      let quarantine = if ltb_ℤ physical t.accounting_cash then t.pending else decimal_zero in
      let expected_high = sub c (sub c t.accounting_cash quarantine) t.permanent in
      record {
        authenticated_collateral_usd = physical;
        expected_accounting_cash_low_usd = sub c expected_high t.reservations;
        expected_accounting_cash_high_usd = expected_high;
        active_buy_reservations_usd = t.reservations;
        active_sell_reservation_count = t.sells;
        active_redemption_reservation_count = t.redemptions;
        redeemed_cash_credit_quarantine_usd = quarantine;
        permanent_redeemed_cash_credit_block_usd = t.permanent;
        available_for_new_buy_usd = Decimal.max (sub c physical t.reservations) decimal_zero;
        unallocated_account_cash_usd = Decimal.max (sub c physical expected_high) decimal_zero;
        state = cash_state t.permanent quarantine t.reservations t.sells t.redemptions;
      }

  unfoldable pub authenticated_account_cash_snapshot :
      Decimal → List Sleeve → Result CashError CashSnapshot
  authenticated_account_cash_snapshot collateral sleeves = do
    physical ← natural invalid_authenticated_collateral collateral
    tally ← add_sleeves no_tally sleeves
    ok (take_snapshot physical tally)
