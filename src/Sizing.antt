-- ===== src/Sizing.antt =====
-- app/cd90_live_sizing.py: the pure sizing rules. Here the errors, the inputs and `_decimal`.
pub mod Fee
pub mod Plan
pub mod Read
pub mod FeeBound
pub mod Target
pub mod Safety
pub mod Scale
pub mod ZeroPower
mod Tests
use polymarket_live_copy.Prelude.{Bool, Option, some, none, Result, ok, raise}
use polymarket_live_copy.Decimal.{Decimal}

-- The messages of `ScaleInputError`; `invalid_operation` is what `decimal` itself raises for 0 **
-- 0.
pub data ScaleError : Type 0 where
  invalid_decimal_input non_finite_decimal_input negative_amount_or_fee nonintegral_fee_exponent :
      ScaleError
  maximum_price_out_of_range minimum_price_required minimum_price_out_of_range : ScaleError
  allocation_not_positive position_value_not_positive : ScaleError
  unsupported_side quantity_or_scale_not_positive invalid_market_input negative_fee_or_cash :
      ScaleError
  invalid_operation : ScaleError

-- What `Decimal(str(value))` makes of an argument: it raises, it is an infinity or a NaN, or it is
-- a finite value.
pub data Input : Type 0 where
  unreadable non_finite : Input
  finite : Decimal → Input

-- `_decimal`
unfoldable pub decimal : Input → Result ScaleError Decimal
decimal unreadable = raise ScaleError.invalid_decimal_input
decimal non_finite = raise ScaleError.non_finite_decimal_input
decimal (finite x) = ok x

-- `str(side).upper()`, as far as the code tells it apart.
pub data Side : Type 0 where
  buy sell other_side : Side

abbrev pub is_buy : Side → Bool
is_buy Side.buy = Bool.true
is_buy _ = Bool.false

abbrev pub is_sell : Side → Bool
is_sell Side.sell = Bool.true
is_sell _ = Bool.false
