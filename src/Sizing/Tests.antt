-- ===== src/Sizing/Tests.antt =====
-- Runs of the sizing rules, and the theorems at inputs where their hypotheses hold.
use polymarket_live_copy.Prelude.{
  ℕ, ◌*◌, ◌^◌, ◌≡◌, refl, true, false, none, some, Result, ok, raise, arith, ◌⊎◌,
}
use polymarket_live_copy.Prelude.Int.{pos, ◌≤ℤ◌, ◌+ℤ◌, ◌-ℤ◌}
use polymarket_live_copy.Decimal.{
  Context, Decimal, decimal_zero, mul, sub, div, pow, add, round, round_ratio, unit, is_integral,
}
use polymarket_live_copy.Sizing.{ScaleError, invalid_operation, sell, buy, finite, decimal}
use polymarket_live_copy.Sizing.Fee.{
  one, int, pow_pred, maximizing_price, fee_factor, interval_fee, unbounded_fee, fee_at_rate,
  maximum_buy_fee_usd,
}
use polymarket_live_copy.Sizing.Plan.{
  PlanInput, Order, ActionPlan, ready, no_reason, pending_capital, minimum_order_size_upscale,
  sell_available_inventory_cap, pending_minimum_unwind, local_inventory_below_market_minimum,
  read_order, check_order, no_order, notional_minimum_quantity, upscaled, ready_reason, sell_fee,
  fee_bound, fund_order, price_order, capped_quantity, sell_guard, cap_and_price, skip_guard,
  size_target, size_order, plan_action,
}
use polymarket_live_copy.Sizing.Read.{IsReadOf, IsChecked}
use polymarket_live_copy.Sizing.Target.{proportional}
use polymarket_live_copy.Sizing.Safety.{ready_buy_within_cash, ready_sell_within_inventory}
use polymarket_live_copy.Sizing.Scale.{
  unready_orders_nothing, ready_buy_keeps_scale, ready_buy_upscaled,
}
use polymarket_live_copy.Sizing.FeeBound.{maximum_buy_fee_usd_nonneg}
use polymarket_live_copy.Sizing.ZeroPower.{sell_at_one_raises}

-- 28 digits, as in the default context, and 40 places.
abbrev context : Context
context = record { prec = 28; places = 40; prec_pos = omega arith }

-- n hundredths
abbrev cents : ℕ → Decimal
cents n = pos (n * 10 ^ 38)

abbrev sample : Order
sample = record {
  side = buy;
  quantity = cents 10000;
  share_scale = cents 5;
  held = cents 300;
  minimum = cents 500;
  minimum_buy_notional = cents 100;
  price = cents 50;
  visible = cents 10000;
  fee_bps = cents 10000;
  exponent = cents 100;
  cash = cents 1000;
  minimum_fill_price = some (finite (cents 1));
  allow_minimum_upscale = false;
}

abbrev input : Order → PlanInput
input o = record {
  side = o.side;
  source_quantity = finite o.quantity;
  scale = finite o.share_scale;
  held_quantity = finite o.held;
  minimum_order_size = finite o.minimum;
  minimum_marketable_buy_notional_usd = finite o.minimum_buy_notional;
  best_price = finite o.price;
  minimum_fill_price = o.minimum_fill_price;
  visible_best_level_size = finite o.visible;
  taker_fee_bps = finite o.fee_bps;
  available_cash = finite o.cash;
  fee_exponent = finite o.exponent;
  allow_minimum_upscale = o.allow_minimum_upscale;
}

planned : Order → Result ScaleError ActionPlan
unfolding plan_action read_order decimal check_order is_integral unit size_order
    notional_minimum_quantity div round_ratio size_target skip_guard no_order upscaled cap_and_price
    capped_quantity sell_guard price_order fee_bound sell_fee maximum_buy_fee_usd fee_at_rate
    unbounded_fee interval_fee fee_factor maximizing_price pow_pred pow mul sub add round ◌+ℤ◌ ◌-ℤ◌
    int fund_order ready_reason
planned o = plan_action context (input o)

abbrev bought : ActionPlan
bought = record {
  terminal_status = ready;
  reason = no_reason;
  side = buy;
  proportional_quantity = cents 500;
  requested_quantity = cents 500;
  order_amount_usd = cents 250;
  worst_price = cents 50;
  reserved_cash_usd = pos (252475 * 10 ^ 35);
}

run_buy : plan_action context (input sample) ≡ ok bought
unfolding planned
run_buy = refl

-- 2.50 and a fee of at most 0.02475 are reserved out of 10.
ready_buy_within_cash_example :
    (cents 250 ≤ℤ pos (252475 * 10 ^ 35)) × (pos (252475 * 10 ^ 35) ≤ℤ cents 1000)
ready_buy_within_cash_example =
    ready_buy_within_cash context (input sample) {p = bought} run_buy refl refl refl

ready_buy_keeps_scale_example :
    (cents 500 ≡ mul context (cents 10000) (cents 5))
    × (cents 500 ≤ℤ mul context (cents 10000) (cents 5))
    × ((low : Decimal) × (div context (cents 100) (cents 50) ≡ some low)
        × (low ≤ℤ mul context (cents 10000) (cents 5)))
ready_buy_keeps_scale_example =
    ready_buy_keeps_scale context (input sample) {p = bought} run_buy refl refl refl refl refl refl
      refl refl

-- A scaled quantity of 1 share is raised to the market's minimum of 5.
abbrev small_buy : Order
small_buy = record sample { quantity = cents 2000; allow_minimum_upscale = true }

abbrev raised : ActionPlan
raised = record bought { proportional_quantity = cents 100; reason = minimum_order_size_upscale }

run_raised : plan_action context (input small_buy) ≡ ok raised
unfolding planned
run_raised = refl

ready_buy_upscaled_example :
    (low : Decimal) × (div context (cents 100) (cents 50) ≡ some low)
    × (mul context (cents 2000) (cents 5) ≤ℤ cents 500)
    × (cents 500 ≤ℤ cents 500)
    × (low ≤ℤ cents 500)
    × ((cents 500 ≡ mul context (cents 2000) (cents 5))
        ⊎ (cents 500 ≡ cents 500)
        ⊎ (cents 500 ≡ low))
ready_buy_upscaled_example =
    ready_buy_upscaled context (input small_buy) {p = raised} run_raised refl refl refl refl refl
      refl refl refl

-- Three shares are held, and the minimum is one.
abbrev sale : Order
sale = record sample { side = sell; minimum = cents 100 }

abbrev sold : ActionPlan
sold = record bought {
  side = sell;
  reason = sell_available_inventory_cap;
  requested_quantity = cents 300;
  order_amount_usd = cents 150;
  reserved_cash_usd = decimal_zero;
}

run_sell : plan_action context (input sale) ≡ ok sold
unfolding planned
run_sell = refl

ready_sell_within_inventory_example :
    (cents 300 ≤ℤ cents 300)
    × (cents 300 ≤ℤ mul context (cents 10000) (cents 5))
    × (cents 100 ≤ℤ cents 300)
    × (cents 100 ≤ℤ cents 10000)
    × (decimal_zero ≡ decimal_zero)
ready_sell_within_inventory_example =
    ready_sell_within_inventory context (input sale) {p = sold} run_sell refl refl refl refl refl
      refl refl

abbrev waiting : ActionPlan
waiting = record bought {
  terminal_status = pending_minimum_unwind;
  side = sell;
  reason = local_inventory_below_market_minimum;
  requested_quantity = cents 300;
  order_amount_usd = decimal_zero;
  reserved_cash_usd = decimal_zero;
}

run_waiting : plan_action context (input (record sample { side = sell })) ≡ ok waiting
unfolding planned
run_waiting = refl

unready_orders_nothing_example :
    (cents 500 ≡ mul context (cents 10000) (cents 5))
    × (decimal_zero ≡ decimal_zero)
    × ((pending_minimum_unwind ≡ pending_capital) ⊎ (decimal_zero ≡ decimal_zero))
unready_orders_nothing_example =
    unready_orders_nothing context (input (record sample { side = sell })) {p = waiting} run_waiting
      refl refl (λ e. cc)

sample-IsReadOf : (o : Order) → IsReadOf (input o) o
sample-IsReadOf o = record {
  side = refl;
  quantity = refl;
  share_scale = refl;
  held = refl;
  minimum = refl;
  minimum_buy_notional = refl;
  price = refl;
  visible = refl;
  fee_bps = refl;
  exponent = refl;
  cash = refl;
  minimum_fill_price = refl;
  allow_minimum_upscale = refl;
}

sample-IsChecked : IsChecked context sample
unfolding is_integral unit
sample-IsChecked = ground arith

-- A SELL at the price one, with the exponent zero.
abbrev sale_at_one : Order
sale_at_one = record sale { price = cents 100; exponent = decimal_zero }

sale_at_one-IsChecked : IsChecked context sale_at_one
unfolding is_integral unit
sale_at_one-IsChecked = ground arith

enough : sale_at_one.minimum ≤ℤ proportional context sale_at_one
unfolding planned
enough = omega arith

at_one : sale_at_one.price ≡ one context
unfolding unit
at_one = refl

sell_at_one_raises_example : plan_action context (input sale_at_one) ≡ raise invalid_operation
sell_at_one_raises_example =
    sell_at_one_raises context sale_at_one refl at_one refl enough (omega arith) (omega arith)
      (input sale_at_one) (sample-IsReadOf sale_at_one) sale_at_one-IsChecked

fee_run :
    maximum_buy_fee_usd context
      (finite (cents 100))
      (finite (cents 10000))
      (finite (cents 100))
      none
      (finite (cents 50))
    ≡ ok (cents 1)
unfolding planned
fee_run = refl

maximum_buy_fee_usd_nonneg_example : decimal_zero ≤ℤ cents 1
maximum_buy_fee_usd_nonneg_example =
    maximum_buy_fee_usd_nonneg context (finite (cents 100)) (finite (cents 10000))
      (finite (cents 100)) none (finite (cents 50)) {fee = cents 1} fee_run
