-- ===== src/Sizing/FeeBound.antt =====
-- The sign of the fee bound of a BUY, and the bounds of the price that it is taken at.
use polymarket_live_copy.Prelude.{ℕ, zero, suc, ◌≡◌, Option, none, some, ok, arith}
use polymarket_live_copy.Prelude.Int.{◌≤ℤ◌}
use polymarket_live_copy.Decimal.{Context, Decimal, decimal_zero, of_ℕ, div}
use polymarket_live_copy.Decimal.Laws.{mul_nonneg, div_nonneg, pow_nonneg, sub_nonneg}
use polymarket_live_copy.Sizing.{Input, finite, decimal}
use polymarket_live_copy.Sizing.Fee.{
  one, ten_thousand, int, pow_pred, maximizing_price, fee_factor, interval_fee, unbounded_fee,
  fee_at_rate, maximum_buy_fee_usd,
}

module _ (c : Context) where
  of_ℕ_nonneg : (n : ℕ) → decimal_zero ≤ℤ of_ℕ c n
  of_ℕ_nonneg n = omega arith

  pow_pred_nonneg :
      (p : Decimal) (e : ℕ) {z : Decimal}
      → decimal_zero ≤ℤ p
      → pow_pred c p e ≡ ok z
      → decimal_zero ≤ℤ z
  unfolding pow_pred
  pow_pred_nonneg p zero {z} hp h =
      ground (arith, div_nonneg c (one c) p {z = z} (of_ℕ_nonneg 1) hp)
  pow_pred_nonneg p (suc n) {z} hp h = ground (arith, pow_nonneg c p n {z = z} hp)

  fee_factor_nonneg :
      (p : Decimal) (e : ℕ) {z : Decimal}
      → decimal_zero ≤ℤ p
      → p ≤ℤ one c
      → fee_factor c p e ≡ ok z
      → decimal_zero ≤ℤ z
  unfolding fee_factor
  fee_factor_nonneg p e {z} hp h1 h =
      grind (arith, pow_pred_nonneg, pow_nonneg, mul_nonneg, sub_nonneg)

  -- The price is taken from the executable interval.
  pub maximizing_price_bounds :
      (e : ℕ) (low high : Decimal) {z : Decimal}
      → low ≤ℤ high
      → maximizing_price c e low high ≡ ok z
      → (low ≤ℤ z) × (z ≤ℤ high)
  unfolding maximizing_price
  maximizing_price_bounds e low high hl h = ground arith

  rate_nonneg :
      (fee_bps : Decimal) {r : Decimal}
      → decimal_zero ≤ℤ fee_bps
      → div c fee_bps (ten_thousand c) ≡ some r
      → decimal_zero ≤ℤ r
  rate_nonneg fee_bps h e = div_nonneg c fee_bps (ten_thousand c) h (of_ℕ_nonneg 10000) e

  interval_fee_nonneg :
      (amount rate : Decimal) (e : ℕ) (low high : Decimal) {z : Decimal}
      → decimal_zero ≤ℤ amount
      → decimal_zero ≤ℤ rate
      → high ≤ℤ one c
      → interval_fee c amount rate e low high ≡ ok z
      → decimal_zero ≤ℤ z
  unfolding interval_fee
  interval_fee_nonneg amount rate e low high ha hr hh h =
      grind (arith, maximizing_price_bounds, fee_factor_nonneg, mul_nonneg)

  fee_at_rate_nonneg :
      (amount rate exponent : Decimal) (minimum : Option Input) (high : Decimal) {z : Decimal}
      → decimal_zero ≤ℤ amount
      → decimal_zero ≤ℤ rate
      → high ≤ℤ one c
      → fee_at_rate c amount rate exponent minimum high ≡ ok z
      → decimal_zero ≤ℤ z
  unfolding fee_at_rate unbounded_fee decimal
  fee_at_rate_nonneg amount rate exponent none high {z} ha hr hh h =
      ground (arith, mul_nonneg c amount rate ha hr)
  fee_at_rate_nonneg amount rate exponent (some (finite low)) high ha hr hh h =
      interval_fee_nonneg amount rate (int c exponent) low high ha hr hh h
  fee_at_rate_nonneg amount rate exponent (some Input.unreadable) high ha hr hh h = cc
  fee_at_rate_nonneg amount rate exponent (some Input.non_finite) high ha hr hh h = cc

  abbrev value_or_zero : Option Decimal → Decimal
  value_or_zero none = decimal_zero
  value_or_zero (some x) = x

  -- The bound that `maximum_buy_fee_usd` returns is never negative.
  pub maximum_buy_fee_usd_nonneg :
      (order_amount_usd taker_fee_bps fee_exponent : Input)
      → (minimum_fill_price : Option Input) → (maximum_fill_price : Input) → {fee : Decimal}
      → maximum_buy_fee_usd c order_amount_usd taker_fee_bps fee_exponent minimum_fill_price
          maximum_fill_price
        ≡ ok fee
      → decimal_zero ≤ℤ fee
  unfolding maximum_buy_fee_usd decimal
  maximum_buy_fee_usd_nonneg (finite amount) (finite bps) (finite exponent) minimum (finite high)
        {fee} h =
      ground (
        arith,
        rate_nonneg bps {r = value_or_zero (div c bps (ten_thousand c))},
        fee_at_rate_nonneg amount (value_or_zero (div c bps (ten_thousand c))) exponent minimum high
            {z = fee},
      )
  maximum_buy_fee_usd_nonneg _ _ _ _ _ h = ground arith
