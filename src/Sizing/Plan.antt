-- ===== src/Sizing/Plan.antt =====
-- `plan_action` of app/cd90_live_sizing.py, cut at its early returns.
use polymarket_live_copy.Prelude.{
  Bool, false, not, ◌&&◌, ◌||◌, Option, none, some, Result, ok, raise_if, ◌>>=◌, ◌>>◌,
  if◌then◌else◌,
}
use polymarket_live_copy.Prelude.Int.{leb_ℤ, ltb_ℤ}
use polymarket_live_copy.Decimal
use polymarket_live_copy.Decimal.{
  Context, Decimal, decimal_zero, add, sub, mul, div, pow, is_integral,
}
use polymarket_live_copy.Sizing.{ScaleError, Input, finite, decimal, Side, is_buy, is_sell}
use polymarket_live_copy.Sizing.Fee.{one, ten_thousand, int, arithmetic, maximum_buy_fee_usd}

pub data PlanStatus : Type 0 where
  skipped pending_minimum_unwind pending_liquidity pending_capital ready : PlanStatus

pub data PlanReason : Type 0 where
  no_reason quantity_below_market_minimum buy_notional_below_marketable_minimum : PlanReason
  sell_quantity_below_market_minimum local_inventory_below_market_minimum : PlanReason
  insufficient_best_level_depth insufficient_available_cash fak_partial_attempt : PlanReason
  sell_available_inventory_cap minimum_marketable_buy_notional_upscale minimum_order_size_upscale :
      PlanReason

pub record ActionPlan : Type 0 where
  pub terminal_status : PlanStatus
  pub reason : PlanReason
  pub side : Side
  pub proportional_quantity : Decimal
  pub requested_quantity : Decimal
  pub order_amount_usd : Decimal
  pub worst_price : Decimal
  pub reserved_cash_usd : Decimal

-- The arguments as they come in.
pub record PlanInput : Type 0 where
  pub side : Side
  pub source_quantity : Input
  pub scale : Input
  pub held_quantity : Input
  pub minimum_order_size : Input
  pub minimum_marketable_buy_notional_usd : Input
  pub best_price : Input
  pub minimum_fill_price : Option Input
  pub visible_best_level_size : Input
  pub taker_fee_bps : Input
  pub available_cash : Input
  pub fee_exponent : Input
  pub allow_minimum_upscale : Bool

-- The locals that the conversions bind.
pub record Order : Type 0 where
  pub side : Side
  pub quantity : Decimal
  pub share_scale : Decimal
  pub held : Decimal
  pub minimum : Decimal
  pub minimum_buy_notional : Decimal
  pub price : Decimal
  pub visible : Decimal
  pub fee_bps : Decimal
  pub exponent : Decimal
  pub cash : Decimal
  pub minimum_fill_price : Option Input
  pub allow_minimum_upscale : Bool

unfoldable pub read_order : PlanInput → Result ScaleError Order
read_order i = do
  raise_if (not (is_buy i.side || is_sell i.side)) ScaleError.unsupported_side
  quantity ← decimal i.source_quantity
  share_scale ← decimal i.scale
  held ← decimal i.held_quantity
  minimum ← decimal i.minimum_order_size
  minimum_buy_notional ← decimal i.minimum_marketable_buy_notional_usd
  price ← decimal i.best_price
  visible ← decimal i.visible_best_level_size
  fee_bps ← decimal i.taker_fee_bps
  exponent ← decimal i.fee_exponent
  cash ← decimal i.available_cash
  ok (record {
    side = i.side;
    quantity = quantity;
    share_scale = share_scale;
    held = held;
    minimum = minimum;
    minimum_buy_notional = minimum_buy_notional;
    price = price;
    visible = visible;
    fee_bps = fee_bps;
    exponent = exponent;
    cash = cash;
    minimum_fill_price = i.minimum_fill_price;
    allow_minimum_upscale = i.allow_minimum_upscale;
  })

-- What is asked for before the inventory of a SELL is looked at, and why it is more than the
-- proportional quantity.
pub record Target : Type 0 where
  pub requested : Decimal
  pub share_minimum_override : Bool
  pub buy_notional_override : Bool

module _ (c : Context) where
  unfoldable pub check_order : Order → Result ScaleError (Unit {0})
  check_order o = do
    raise_if (leb_ℤ o.quantity decimal_zero || leb_ℤ o.share_scale decimal_zero)
        ScaleError.quantity_or_scale_not_positive
    raise_if
        (ltb_ℤ o.held decimal_zero
          || leb_ℤ o.minimum decimal_zero
          || ltb_ℤ o.minimum_buy_notional decimal_zero
          || leb_ℤ o.price decimal_zero
          || ltb_ℤ o.visible decimal_zero)
        ScaleError.invalid_market_input
    raise_if (ltb_ℤ o.fee_bps decimal_zero || ltb_ℤ o.cash decimal_zero)
        ScaleError.negative_fee_or_cash
    raise_if (ltb_ℤ o.exponent decimal_zero || not (is_integral c o.exponent))
        ScaleError.nonintegral_fee_exponent

  -- `_skipped` and `_pending`: a plan that orders nothing
  unfoldable pub no_order :
      Order → PlanStatus → PlanReason → Decimal → Decimal → Decimal → ActionPlan
  no_order o status reason proportional requested reserved = record {
    terminal_status = status;
    reason = reason;
    side = o.side;
    proportional_quantity = proportional;
    requested_quantity = requested;
    order_amount_usd = decimal_zero;
    worst_price = o.price;
    reserved_cash_usd = reserved;
  }

  unfoldable pub notional_minimum_quantity : Order → Result ScaleError Decimal
  notional_minimum_quantity o =
      if is_buy o.side then arithmetic c (div c o.minimum_buy_notional o.price) else ok decimal_zero

  -- The quantity where upscaling is allowed: a BUY is raised to the minimum, a SELL never.
  unfoldable pub upscaled : Order → Decimal → Decimal → Target
  upscaled o proportional notional_minimum =
      if is_buy o.side
      then record {
        requested = Decimal.max (Decimal.max proportional o.minimum) notional_minimum;
        share_minimum_override = ltb_ℤ proportional o.minimum && leb_ℤ notional_minimum o.minimum;
        buy_notional_override =
            ltb_ℤ proportional notional_minimum && ltb_ℤ o.minimum notional_minimum;
      }
      else record {
        requested = proportional;
        share_minimum_override = false;
        buy_notional_override = false;
      }

  unfoldable pub ready_reason : (shallow capped notional share : Bool) → PlanReason
  ready_reason shallow capped notional share =
      if shallow
      then fak_partial_attempt
      else if capped
      then sell_available_inventory_cap
      else if notional
      then minimum_marketable_buy_notional_upscale
      else if share
      then minimum_order_size_upscale
      else no_reason

  unfoldable pub sell_fee : Order → Decimal → Result ScaleError Decimal
  sell_fee o requested = do
    rate ← arithmetic c (div c o.fee_bps (ten_thousand c))
    curve ← arithmetic c (pow c (mul c o.price (sub c (one c) o.price)) (int c o.exponent))
    ok (mul c (mul c requested rate) curve)

  unfoldable pub fee_bound : Order → Decimal → Decimal → Result ScaleError Decimal
  fee_bound o requested amount =
      if is_buy o.side
      then maximum_buy_fee_usd c (finite amount) (finite o.fee_bps) (finite o.exponent)
          o.minimum_fill_price (finite o.price)
      else sell_fee o requested

  -- The last part, with the fee bound at hand: cash, and the order itself.
  unfoldable pub fund_order : Order → Decimal → Target → Decimal → Bool → Decimal → ActionPlan
  fund_order o proportional target requested capped fee =
      let amount = mul c requested o.price in
      let reserved = add c amount fee in
      if is_buy o.side && ltb_ℤ o.cash reserved
      then no_order o pending_capital insufficient_available_cash proportional requested reserved
      else record {
        terminal_status = ready;
        reason =
            ready_reason (ltb_ℤ o.visible requested) capped target.buy_notional_override
              target.share_minimum_override;
        side = o.side;
        proportional_quantity = proportional;
        requested_quantity = requested;
        order_amount_usd = amount;
        worst_price = o.price;
        reserved_cash_usd = if is_buy o.side then reserved else decimal_zero;
      }

  unfoldable pub price_order :
      Order → Decimal → Target → Decimal → Bool → Result ScaleError ActionPlan
  price_order o proportional target requested capped = do
    fee ← fee_bound o requested (mul c requested o.price)
    ok (fund_order o proportional target requested capped fee)

  -- A SELL asks for no more than is held.
  unfoldable pub capped_quantity : Order → Target → Decimal
  capped_quantity o target =
      if is_sell o.side then Decimal.min target.requested o.held else target.requested

  -- The two guards of a SELL, with the plan that each returns.
  unfoldable pub sell_guard : Order → Decimal → Decimal → Option ActionPlan
  sell_guard o proportional requested =
      if is_sell o.side && ltb_ℤ requested o.minimum
      then some (
          no_order o pending_minimum_unwind
            (if ltb_ℤ proportional o.minimum && leb_ℤ proportional o.held
              then sell_quantity_below_market_minimum
              else local_inventory_below_market_minimum)
            proportional requested decimal_zero)
      else if is_sell o.side && ltb_ℤ o.visible o.minimum
      then some (
          no_order o pending_liquidity insufficient_best_level_depth proportional requested
            decimal_zero)
      else none

  unfoldable pub cap_and_price : Order → Decimal → Target → Result ScaleError ActionPlan
  cap_and_price o proportional target =
      let requested = capped_quantity o target in
      elim (sell_guard o proportional requested) [
        | some plan ↦ ok plan
        | none ↦ price_order o proportional target requested (ltb_ℤ requested target.requested)
      ]

  -- With no upscaling a target below a minimum is skipped.
  unfoldable pub skip_guard : Order → Decimal → Decimal → Option ActionPlan
  skip_guard o proportional notional_minimum =
      if ltb_ℤ proportional o.minimum
      then some
          (no_order o skipped quantity_below_market_minimum proportional proportional decimal_zero)
      else if is_buy o.side && ltb_ℤ proportional notional_minimum
      then some (
          no_order o skipped buy_notional_below_marketable_minimum proportional proportional
            decimal_zero)
      else none

  abbrev pub unchanged : Decimal → Target
  unchanged proportional = record {
    requested = proportional;
    share_minimum_override = false;
    buy_notional_override = false;
  }

  unfoldable pub size_target : Order → Decimal → Decimal → Result ScaleError ActionPlan
  size_target o proportional notional_minimum =
      if o.allow_minimum_upscale
      then cap_and_price o proportional (upscaled o proportional notional_minimum)
      else elim (skip_guard o proportional notional_minimum) [
        | some plan ↦ ok plan
        | none ↦ cap_and_price o proportional (unchanged proportional)
      ]

  unfoldable pub size_order : Order → Result ScaleError ActionPlan
  size_order o = do
    notional_minimum ← notional_minimum_quantity o
    size_target o (mul c o.quantity o.share_scale) notional_minimum

  unfoldable pub plan_action : PlanInput → Result ScaleError ActionPlan
  plan_action i = do o ← read_order i; check_order o; size_order o
