-- ===== src/Sizing/ZeroPower.antt =====
-- A power of zero in `plan_action`: the fee of a SELL at the price one.
use polymarket_live_copy.Prelude.{◌≡◌, refl, Bool, none, some, raise, arith, inr}
use native.Mathlib.Nat.{zero-div}
use polymarket_live_copy.Prelude.Int.{◌≤ℤ◌, ltb_ℤ}
use polymarket_live_copy.Decimal
use polymarket_live_copy.Decimal.{Context, Decimal, decimal_zero, mul, sub, div, pow}
use polymarket_live_copy.Decimal.Laws.{div_total, unit_pos, sub_self, mul-zero_right}
use polymarket_live_copy.Sizing.{invalid_operation, sell}
use polymarket_live_copy.Sizing.Fee.{one, ten_thousand, int}
use polymarket_live_copy.Sizing.Plan.{
  PlanInput, Order, Target, price_order, cap_and_price, sell_guard, capped_quantity, skip_guard,
  unchanged, upscaled, notional_minimum_quantity, size_target, size_order, plan_action, fee_bound,
  sell_fee,
}
use polymarket_live_copy.Sizing.Target.{proportional}
use polymarket_live_copy.Sizing.Read.{IsReadOf, IsChecked, check_order_passes, read_order_passes}

rate_total : (c : Context) (bps : Decimal) → (r : Decimal) × (div c bps (ten_thousand c) ≡ some r)
rate_total c bps = div_total c bps (ten_thousand c) (λ e. grind (arith, unit_pos c))

module _ (c : Context) (o : Order) (is_sell : o.side ≡ sell) (at_one : o.price ≡ one c)
    (flat : o.exponent ≡ decimal_zero) where
  int-zero : int c decimal_zero ≡ 0
  unfolding int
  int-zero = zero-div _

  pow-zero-zero : pow c decimal_zero 0 ≡ none
  unfolding pow
  pow-zero-zero = refl

  zero_curve : mul c o.price (sub c (one c) o.price) ≡ decimal_zero
  zero_curve = rw at_one (rw (sub_self c (one c)) (mul-zero_right c (one c)))

  sell_fee_raises : (req : Decimal) → sell_fee c o req ≡ raise invalid_operation
  unfolding sell_fee
  sell_fee_raises req =
      let (r, e) = rate_total c o.fee_bps in
      rw e (rw zero_curve (rw flat (rw int-zero (rw pow-zero-zero))))

  price_order_raises :
      (prop : Decimal) (t : Target) (req : Decimal) (capped : Bool)
      → price_order c o prop t req capped ≡ raise invalid_operation
  unfolding price_order fee_bound
  price_order_raises prop t req capped = ground (arith, sell_fee_raises req)

  module _ (enough : o.minimum ≤ℤ proportional c o) (held : o.minimum ≤ℤ o.held)
      (deep : o.minimum ≤ℤ o.visible) where
    cap_and_price_raises :
        (t : Target)
        → t.requested ≡ proportional c o
        → cap_and_price c o (proportional c o) t ≡ raise invalid_operation
    unfolding cap_and_price sell_guard capped_quantity
    cap_and_price_raises t e = ground (
      arith,
      price_order_raises (proportional c o) t (Decimal.min t.requested o.held)
          (ltb_ℤ (Decimal.min t.requested o.held) t.requested),
    )

    size_target_raises :
        (low : Decimal) → size_target c o (proportional c o) low ≡ raise invalid_operation
    unfolding size_target skip_guard upscaled
    size_target_raises low = ground (
      arith,
      cap_and_price_raises (upscaled c o (proportional c o) low),
      cap_and_price_raises (unchanged c (proportional c o)),
    )

    -- A SELL at the price one under a fee curve of exponent zero, that passes every guard and asks
    -- for the minimum or more, raises InvalidOperation: its fee is a power 0 ** 0.
    pub sell_at_one_raises :
        (i : PlanInput) → IsReadOf i o → IsChecked c o → plan_action c i ≡ raise invalid_operation
    unfolding plan_action size_order notional_minimum_quantity
    sell_at_one_raises i r k =
        rw (read_order_passes i o r (inr is_sell), check_order_passes c o k)
          (ground (arith, size_target_raises decimal_zero))
