-- ===== src/Cash.antt =====
-- The cash of the shared wallet in app/live_wallet_coordinator.py: what it reads of each strategy's
-- ledger. Amounts come as the decimals that the stored texts denote; each text here denotes one.
pub mod Snapshot
pub mod Holds
pub mod Covered
pub mod Reconcile
pub mod Verified
mod Tests
use Prim.Native.String.{String}
use text.Mathlib.Text.{◌==◌}
use polymarket_live_copy.Prelude.{
  ℕ, ◌+◌, Bool, true, false, not, ◌&&◌, ◌||◌, Option, none, some, List, [], ◌∷◌, Result, ok, raise,
  or_raise, ◌>>=◌, if◌then◌else◌,
}
use polymarket_live_copy.Prelude.Int.{ℤ, ltb_ℤ}
use polymarket_live_copy.Prelude.Table.{Table}
use polymarket_live_copy.Decimal.{Context, Decimal, decimal_zero, add}
use polymarket_live_copy.Sizing.{is_buy, is_sell}
use polymarket_live_copy.Store.{Reservation, Ledger}

-- The messages of `SharedWalletCoordinatorError`.
pub data CashError : Type 0 where
  ledger_account_state_missing invalid_cash_adjustment invalid_buy_reservation : CashError
  invalid_redeemed_cash_credit_quarantine invalid_permanent_block : CashError
  invalid_authenticated_collateral invalid_authenticated_collateral_observation : CashError

-- The state of a redemption in a strategy's own ledger; `closed` is any other text.
pub data LocalRedemption : Type 0 where
  submit_started submitted_unreconciled pending unknown_submission closed : LocalRedemption

-- A row of redeemed_cash_credit_quarantine_verifications.
pub record Verification : Type 0 where
  pub condition_id : String
  pub authenticated_collateral_usd : Decimal
  pub verified_at_ms : ℤ

-- A sleeve, and the rows of its ledger that the coordinator reads beside the ledger's own.
pub record Sleeve : Type 0 where
  pub cash_adjustment_usd : Decimal
  pub ledger : Ledger
  pub redemptions : List LocalRedemption
  pub quarantines : Table Decimal
  pub verifications : List Verification
  pub voids : List String
  pub permanent_blocks : Table Decimal

-- `_decimal`: a value that is finite and not negative.
unfoldable pub natural : CashError → Decimal → Result CashError Decimal
natural e d = if ltb_ℤ d decimal_zero then raise e else ok d

-- `_ledger_cash`
unfoldable pub ledger_cash : Ledger → Result CashError Decimal
ledger_cash l = do account ← or_raise l.account ledger_account_state_missing; ok account.cash_usd

-- WHERE side = 'BUY' AND active = 1
unfoldable pub buy_holds : Table Reservation → List Decimal
buy_holds [] = []
buy_holds ((_, r) ∷ rest) =
    if is_buy r.side && r.active then r.cash_reserved_usd ∷ buy_holds rest else buy_holds rest

-- `_active_sell_reservation_count`
unfoldable pub active_sell_reservation_count : Table Reservation → ℕ
active_sell_reservation_count [] = 0
active_sell_reservation_count ((_, r) ∷ rest) =
    (if is_sell r.side && r.active then 1 else 0) + active_sell_reservation_count rest

abbrev pub is_in_flight : LocalRedemption → Bool
is_in_flight closed = false
is_in_flight _ = true

-- `_active_redemption_reservation_count`
unfoldable pub active_redemption_reservation_count : List LocalRedemption → ℕ
active_redemption_reservation_count [] = 0
active_redemption_reservation_count (s ∷ rest) =
    (if is_in_flight s then 1 else 0) + active_redemption_reservation_count rest

unfoldable pub is_verified : String → List Verification → Bool
is_verified k [] = false
is_verified k (v ∷ rest) = v.condition_id == k || is_verified k rest

unfoldable pub is_listed : String → List String → Bool
is_listed k [] = false
is_listed k (j ∷ rest) = j == k || is_listed k rest

unfoldable pub is_blocked : String → Table Decimal → Bool
is_blocked k [] = false
is_blocked k ((j, _) ∷ rest) = j == k || is_blocked k rest

-- The three outer joins, each with no partner.
unfoldable pub is_pending : Sleeve → String → Bool
is_pending s k =
    not (is_verified k s.verifications || is_listed k s.voids || is_blocked k s.permanent_blocks)

unfoldable pub pending_among : Sleeve → Table Decimal → Table Decimal
pending_among s [] = []
pending_among s ((k, payout) ∷ rest) =
    if is_pending s k then (k, payout) ∷ pending_among s rest else pending_among s rest

abbrev pub payouts : Table Decimal → List Decimal
payouts [] = []
payouts ((_, payout) ∷ rest) = payout ∷ payouts rest

module _ (c : Context) where
  -- `sum((_decimal(x, error) for x in rows), total)`
  unfoldable pub sum_natural : CashError → Decimal → List Decimal → Result CashError Decimal
  sum_natural e total [] = ok total
  sum_natural e total (x ∷ rest) = do d ← natural e x; sum_natural e (add c total d) rest

  -- `_active_buy_reservation`
  unfoldable pub active_buy_reservation : Ledger → Result CashError Decimal
  active_buy_reservation l =
      sum_natural invalid_buy_reservation decimal_zero (buy_holds l.reservations)

  -- `_pending_redeemed_cash_credit_quarantine`
  unfoldable pub pending_quarantine : Sleeve → Result CashError Decimal
  pending_quarantine s =
      sum_natural invalid_redeemed_cash_credit_quarantine decimal_zero
        (payouts (pending_among s s.quarantines))

  -- `_permanent_redeemed_cash_credit_block`
  unfoldable pub permanent_block : Sleeve → Result CashError Decimal
  permanent_block s = sum_natural invalid_permanent_block decimal_zero (payouts s.permanent_blocks)
