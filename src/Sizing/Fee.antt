-- ===== src/Sizing/Fee.antt =====
-- `maximum_buy_fee_usd` and `derive_fixed_share_scale` of app/cd90_live_sizing.py.
use polymarket_live_copy.Prelude.{
  ℕ, zero, suc, ◌-◌, ◌*◌, ◌/◌, not, ◌||◌, Option, some, none, Result, ok, raise_if, or_raise, ◌>>=◌,
  ◌>>◌, if◌then◌else◌, ltb, leb, ◌==◌,
}
use polymarket_live_copy.Prelude.Int.{leb_ℤ, ltb_ℤ}
use polymarket_live_copy.Decimal
use polymarket_live_copy.Decimal.{
  Context, Decimal, decimal_zero, of_ℕ, mul, sub, div, pow, is_integral, unit, magnitude,
}
use polymarket_live_copy.Sizing.{ScaleError, Input, decimal}

module _ (c : Context) where
  abbrev pub one : Decimal
  one = of_ℕ c 1

  abbrev pub ten_thousand : Decimal
  ten_thousand = of_ℕ c 10000

  -- `int(exponent)`, read where the exponent is integral and not negative
  unfoldable pub int : Decimal → ℕ
  int x = magnitude x / unit c

  -- A division or a power of decimals that raises.
  abbrev pub arithmetic : Option Decimal → Result ScaleError Decimal
  arithmetic o = or_raise o ScaleError.invalid_operation

  -- `p ** (e - 1)`, where e - 1 may be -1
  unfoldable pub pow_pred : Decimal → ℕ → Result ScaleError Decimal
  pow_pred p zero = arithmetic (div c one p)
  pow_pred p (suc n) = arithmetic (pow c p n)

  -- The price at which the fee of a fixed cash amount is largest.
  unfoldable pub maximizing_price : ℕ → Decimal → Decimal → Result ScaleError Decimal
  maximizing_price exponent low high = if leb exponent 1 then ok low else do
    critical ← arithmetic (div c (of_ℕ c (exponent - 1)) (of_ℕ c (2 * exponent - 1)))
    ok (Decimal.min (Decimal.max critical low) high)

  unfoldable pub fee_factor : Decimal → ℕ → Result ScaleError Decimal
  fee_factor p exponent = do
    a ← pow_pred p exponent
    b ← arithmetic (pow c (sub c one p) exponent)
    ok (mul c a b)

  -- The bound where a minimum fill price is known.
  unfoldable pub interval_fee :
      Decimal → Decimal → ℕ → Decimal → Decimal → Result ScaleError Decimal
  interval_fee amount rate exponent low high = do
    raise_if (leb_ℤ low decimal_zero || ltb_ℤ high low) ScaleError.minimum_price_out_of_range
    price ← maximizing_price exponent low high
    factor ← fee_factor price exponent
    ok (mul c (mul c amount rate) factor)

  -- The bound where none is known.
  unfoldable pub unbounded_fee : Decimal → Decimal → ℕ → Result ScaleError Decimal
  unbounded_fee amount rate exponent = do
    raise_if (ltb exponent 1) ScaleError.minimum_price_required
    ok (mul c amount rate)

  unfoldable pub fee_at_rate :
      Decimal → Decimal → Decimal → Option Input → Decimal → Result ScaleError Decimal
  fee_at_rate amount rate exponent none high = unbounded_fee amount rate (int exponent)
  fee_at_rate amount rate exponent (some minimum) high = do
    low ← decimal minimum
    interval_fee amount rate (int exponent) low high

  unfoldable pub maximum_buy_fee_usd :
      (order_amount_usd taker_fee_bps fee_exponent : Input)
      → (minimum_fill_price : Option Input) → (maximum_fill_price : Input)
      → Result ScaleError Decimal
  maximum_buy_fee_usd order_amount_usd taker_fee_bps fee_exponent minimum_fill_price
        maximum_fill_price =
      do
        amount ← decimal order_amount_usd
        fee_bps ← decimal taker_fee_bps
        exponent ← decimal fee_exponent
        high ← decimal maximum_fill_price
        raise_if (ltb_ℤ amount decimal_zero || ltb_ℤ fee_bps decimal_zero)
            ScaleError.negative_amount_or_fee
        raise_if (ltb_ℤ exponent decimal_zero || not (is_integral c exponent))
            ScaleError.nonintegral_fee_exponent
        raise_if (leb_ℤ high decimal_zero || ltb_ℤ one high) ScaleError.maximum_price_out_of_range
        if magnitude amount == 0 || magnitude fee_bps == 0 then ok decimal_zero else do
          rate ← arithmetic (div c fee_bps ten_thousand)
          fee_at_rate amount rate exponent minimum_fill_price high

  unfoldable pub derive_fixed_share_scale :
      (allocation_usd source_open_position_value_usd : Input) → Result ScaleError Decimal
  derive_fixed_share_scale allocation_usd source_open_position_value_usd = do
    allocation ← decimal allocation_usd
    denominator ← decimal source_open_position_value_usd
    raise_if (leb_ℤ allocation decimal_zero) ScaleError.allocation_not_positive
    raise_if (leb_ℤ denominator decimal_zero) ScaleError.position_value_not_positive
    arithmetic (div c allocation denominator)
