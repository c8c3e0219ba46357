-- ===== src/Sizing/Safety.antt =====
-- READY plans of `plan_action` against cash, inventory and the market minimum.
use polymarket_live_copy.Prelude.{◌≡◌, Bool, none, ok, arith, ◌∙◌}
use polymarket_live_copy.Prelude.Int.{◌≤ℤ◌}
use polymarket_live_copy.Decimal.{Context, Decimal, decimal_zero, mul}
use polymarket_live_copy.Decimal.Laws.{mul_nonneg}
use polymarket_live_copy.Sizing.{finite, buy, sell}
use polymarket_live_copy.Sizing.Plan.{
  ActionPlan, ready, PlanInput, Order, Target, no_order, fund_order, sell_guard, capped_quantity,
  upscaled, plan_action,
}
use polymarket_live_copy.Sizing.Read.{IsChecked, plan_action-IsPlanned}
use polymarket_live_copy.Sizing.Target.{
  IsTargeted, proportional, size_order-IsTargeted, fund_order_buy, fee_bound_nonneg,
}

finite_injective : {x y : Decimal} → finite x ≡ finite y → x ≡ y
finite_injective h = cc

module _ (c : Context) (o : Order) where
  sell_guard_passed :
      (prop req : Decimal)
      → o.side ≡ sell
      → sell_guard c o prop req ≡ none
      → (o.minimum ≤ℤ req) × (o.minimum ≤ℤ o.visible)
  unfolding sell_guard
  sell_guard_passed prop req b h = ground arith

  capped_quantity_bounds :
      (t : Target)
      → o.side ≡ sell
      → (capped_quantity c o t ≤ℤ o.held) × (capped_quantity c o t ≤ℤ t.requested)
  unfolding capped_quantity
  capped_quantity_bounds t b = ground arith

  pub fund_order_fields :
      (prop : Decimal) (t : Target) (req : Decimal) (capped : Bool) (fee : Decimal)
      → let p = fund_order c o prop t req capped fee in
        (p.requested_quantity ≡ req) × (p.proportional_quantity ≡ prop) × (p.worst_price ≡ o.price)
  unfolding fund_order no_order
  fund_order_fields prop t req capped fee = ground arith

  fund_order_sell :
      (prop : Decimal) (t : Target) (req : Decimal) (capped : Bool) (fee : Decimal)
      → o.side ≡ sell
      → (fund_order c o prop t req capped fee).reserved_cash_usd ≡ decimal_zero
  unfolding fund_order no_order
  fund_order_sell prop t req capped fee b = ground arith

module _ (c : Context) (o : Order) (checked : IsChecked c o) where
  pub proportional_nonneg : decimal_zero ≤ℤ proportional c o
  proportional_nonneg =
      mul_nonneg c o.quantity o.share_scale (omega (arith, checked.quantity))
        (omega (arith, checked.share_scale))

  target_nonneg : {p : ActionPlan} (t : IsTargeted c o p) → decimal_zero ≤ℤ t.target.requested
  unfolding upscaled
  target_nonneg t = ground (arith, t.choice, proportional_nonneg)

  funded_buy :
      {p : ActionPlan}
      → o.side ≡ buy
      → IsTargeted c o p
      → p.terminal_status ≡ ready
      → (p.order_amount_usd ≤ℤ p.reserved_cash_usd) × (p.reserved_cash_usd ≤ℤ o.cash)
  unfolding capped_quantity
  funded_buy b t r =
      let f = t.funded in
      ground (
        arith,
        f.funded,
        target_nonneg t,
        checked.price,
        fee_bound_nonneg c o (capped_quantity c o t.target)
            (mul c (capped_quantity c o t.target) o.price) b f.fee_value,
        fund_order_buy c o (proportional c o) t.target (capped_quantity c o t.target) f.capped f.fee
            b,
      )

  target_sell :
      {p : ActionPlan} (t : IsTargeted c o p)
      → o.side ≡ sell
      → t.target.requested ≡ proportional c o
  unfolding upscaled
  target_sell t b = ground (arith, t.choice)

  funded_sell :
      {p : ActionPlan}
      → o.side ≡ sell
      → IsTargeted c o p
      → (p.requested_quantity ≤ℤ o.held)
        × (p.requested_quantity ≤ℤ proportional c o)
        × (o.minimum ≤ℤ p.requested_quantity)
        × (o.minimum ≤ℤ o.visible)
        × (p.reserved_cash_usd ≡ decimal_zero)
  funded_sell b t =
      let f = t.funded in
      let q = capped_quantity c o t.target in
      ground (
        arith,
        f.funded,
        target_sell t b,
        capped_quantity_bounds c o t.target b,
        sell_guard_passed c o (proportional c o) q b f.guarded,
        fund_order_fields c o (proportional c o) t.target q f.capped f.fee,
        fund_order_sell c o (proportional c o) t.target q f.capped f.fee b,
      )

module _ (c : Context) (i : PlanInput) {p : ActionPlan} (planned : plan_action c i ≡ ok p) where
  -- A READY plan for a BUY reserves at least the order's amount, and at most the available cash.
  pub ready_buy_within_cash :
      {cash : Decimal}
      → i.side ≡ buy
      → p.terminal_status ≡ ready
      → i.available_cash ≡ finite cash
      → (p.order_amount_usd ≤ℤ p.reserved_cash_usd) × (p.reserved_cash_usd ≤ℤ cash)
  ready_buy_within_cash {cash} b r e =
      let w = plan_action-IsPlanned c i planned in
      ground (
        arith,
        finite_injective {x = cash} {y = w.order.cash},
        w.read.side,
        w.read.cash,
        funded_buy c w.order w.checked {p = p} (w.read.side ∙ b)
            (size_order-IsTargeted c w.order w.sized r) r,
      )

  -- A READY plan for a SELL asks for no more than is held, no more than the scaled source quantity
  -- and no less than the market minimum, at a level that shows the minimum; it reserves no cash.
  pub ready_sell_within_inventory :
      {quantity scale held minimum visible : Decimal}
      → i.side ≡ sell
      → p.terminal_status ≡ ready
      → i.source_quantity ≡ finite quantity
      → i.scale ≡ finite scale
      → i.held_quantity ≡ finite held
      → i.minimum_order_size ≡ finite minimum
      → i.visible_best_level_size ≡ finite visible
      → (p.requested_quantity ≤ℤ held)
        × (p.requested_quantity ≤ℤ mul c quantity scale)
        × (minimum ≤ℤ p.requested_quantity)
        × (minimum ≤ℤ visible)
        × (p.reserved_cash_usd ≡ decimal_zero)
  ready_sell_within_inventory {quantity} {scale} {held} {minimum} {visible} b r eq es eh em ev =
      let w = plan_action-IsPlanned c i planned in
      ground (
        arith,
        w.read.quantity,
        w.read.share_scale,
        w.read.held,
        w.read.minimum,
        w.read.visible,
        funded_sell c w.order w.checked {p = p} (w.read.side ∙ b)
            (size_order-IsTargeted c w.order w.sized r),
      )
