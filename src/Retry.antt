-- ===== src/Retry.antt =====
-- The bounded retry policy of app/cd90_live_copy.py: `bounded_retry_phase` and
-- `bounded_retry_price_boundary`. The arguments of the second are finite, and decimal.Overflow,
-- which a tick far below the digits of the context raises, is not modelled.
pub mod Phases
pub mod Boundary
mod Tests
use polymarket_live_copy.Prelude.{
  ℕ, ◌+◌, ◌-◌, ◌*◌, ◌/◌, Bool, true, false, ◌||◌, Option, none, some, Result, ok, raise, raise_if,
  or_raise, ◌>>=◌, ◌>>◌, if◌then◌else◌,
}
use polymarket_live_copy.Prelude.Int.{ℤ, pos, leb_ℤ, ltb_ℤ}
use polymarket_live_copy.Decimal
use polymarket_live_copy.Decimal.{
  Context, Decimal, decimal_zero, literal, unit, magnitude, is_negative, with_sign, add, sub, mul,
  div,
}
use polymarket_live_copy.Sizing.{Side, buy, sell, other_side}
use polymarket_live_copy.Sizing.Fee.{one}

pub data RetryPhase : Type 0 where
  normal_follow adverse_price_protected expired_retry_window : RetryPhase

pub data RetryError : Type 0 where
  negative_source_action_age invalid_bounded_retry_side : RetryError
  invalid_bounded_retry_price_input invalid_operation : RetryError

abbrev pub bounded_retry_normal_window_ms : ℤ
bounded_retry_normal_window_ms = pos 5000

abbrev pub bounded_retry_deadline_ms : ℤ
bounded_retry_deadline_ms = pos 86400000

unfoldable pub bounded_retry_phase : ℤ → Result RetryError RetryPhase
bounded_retry_phase age =
    if ltb_ℤ age decimal_zero
    then raise negative_source_action_age
    else if leb_ℤ age bounded_retry_normal_window_ms
    then ok normal_follow
    else if leb_ℤ age bounded_retry_deadline_ms
    then ok adverse_price_protected
    else ok expired_retry_window

module _ (c : Context) where
  abbrev pub bounded_retry_max_adverse_slippage : Decimal
  bounded_retry_max_adverse_slippage = literal c 104842 6

  abbrev round_down : ℕ → ℕ
  round_down m = m / unit c * unit c

  abbrev round_up : ℕ → ℕ
  round_up m = (m + (unit c - 1)) / unit c * unit c

  -- `x.to_integral_value(rounding=ROUND_FLOOR)`
  unfoldable pub floor_value : Decimal → Decimal
  floor_value x =
      with_sign (is_negative x)
        (if is_negative x then round_up (magnitude x) else round_down (magnitude x))

  -- `x.to_integral_value(rounding=ROUND_CEILING)`
  unfoldable pub ceiling_value : Decimal → Decimal
  ceiling_value x =
      with_sign (is_negative x)
        (if is_negative x then round_down (magnitude x) else round_up (magnitude x))

  -- The most that a BUY pays, and the least that a SELL takes, before the tick.
  unfoldable pub highest_price : Decimal → Decimal
  highest_price price =
      Decimal.min (mul c price (add c (one c) bounded_retry_max_adverse_slippage)) (one c)

  unfoldable pub lowest_price : Decimal → Decimal
  lowest_price price =
      Decimal.max (mul c price (sub c (one c) bounded_retry_max_adverse_slippage)) decimal_zero

  unfoldable pub check_price_input : (price tick : Decimal) → Result RetryError (Unit {0})
  check_price_input price tick =
      raise_if (leb_ℤ price decimal_zero || ltb_ℤ (one c) price || leb_ℤ tick decimal_zero)
        invalid_bounded_retry_price_input

  unfoldable pub bounded_retry_price_boundary :
      Side → (source_average_price tick_size : Decimal) → Result RetryError Decimal
  bounded_retry_price_boundary other_side price tick = raise invalid_bounded_retry_side
  bounded_retry_price_boundary buy price tick = do
    check_price_input price tick
    ticks ← or_raise (div c (highest_price price) tick) invalid_operation
    ok (mul c (floor_value ticks) tick)
  bounded_retry_price_boundary sell price tick = do
    check_price_input price tick
    ticks ← or_raise (div c (lowest_price price) tick) invalid_operation
    ok (mul c (ceiling_value ticks) tick)
