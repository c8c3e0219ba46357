-- ===== src/Sizing/Scale.antt =====
-- The fixed proportional scale: what `plan_action` does to the quantity, with upscaling and
-- without, and the plans that order nothing.
use polymarket_live_copy.Prelude.{
  bind_returns, ◌≡◌, ◌≢◌, refl, ◌⊎◌, inl, inr, Bool, true, false, some, Option-cases, Bool-cases,
  ok, arith, ◌∙◌, sym, subst,
}
use polymarket_live_copy.Prelude.Int.{◌≤ℤ◌}
use polymarket_live_copy.Decimal.{Context, Decimal, decimal_zero, mul, div}
use polymarket_live_copy.Sizing.{finite, buy}
use polymarket_live_copy.Sizing.Plan.{
  ActionPlan, PlanStatus, skipped, ready, pending_capital, PlanInput, Order, Target, no_order,
  fund_order, cap_and_price, sell_guard, capped_quantity, skip_guard, unchanged, upscaled,
  notional_minimum_quantity, size_target, size_order, plan_action,
}
use polymarket_live_copy.Sizing.Read.{plan_action-IsPlanned}
use polymarket_live_copy.Sizing.Target.{
  IsTargeted, proportional, size_order-IsTargeted, price_order-eq-ok,
}
use polymarket_live_copy.Sizing.Safety.{fund_order_fields}

-- What holds of every plan, READY or not.
abbrev pub Sound : Context → Order → ActionPlan → Type 0
Sound c o p =
    (p.proportional_quantity ≡ proportional c o)
    × (p.terminal_status ≢ ready → p.order_amount_usd ≡ decimal_zero)
    × (p.terminal_status ≢ ready
        → p.terminal_status ≢ pending_capital
        → p.reserved_cash_usd ≡ decimal_zero)

module _ (c : Context) (o : Order) where
  fund_order-Sound :
      (t : Target) (req : Decimal) (capped : Bool) (fee : Decimal)
      → Sound c o (fund_order c o (proportional c o) t req capped fee)
  unfolding fund_order no_order
  fund_order-Sound t req capped fee = ground arith

  sell_guard-Sound :
      (req : Decimal) {p : ActionPlan}
      → sell_guard c o (proportional c o) req ≡ some p
      → Sound c o p
  unfolding sell_guard no_order
  sell_guard-Sound req h = ground arith

  skip_guard-Sound :
      (low : Decimal) {p : ActionPlan}
      → skip_guard c o (proportional c o) low ≡ some p
      → Sound c o p
  unfolding skip_guard no_order
  skip_guard-Sound low h = ground arith

  cap_and_price-Sound :
      (t : Target) {p : ActionPlan} → cap_and_price c o (proportional c o) t ≡ ok p → Sound c o p
  unfolding cap_and_price
  cap_and_price-Sound t {p} h =
      elim (Option-cases (sell_guard c o (proportional c o) (capped_quantity c o t))) [
        | inl passed ↦
            let (fee, e, out) =
              price_order-eq-ok c o (proportional c o) t (capped_quantity c o t) _
                (rw (passed, cap_and_price) at h) in
            subst (Sound c o) (sym out) (fund_order-Sound t _ _ fee)
        | inr (q, stopped) ↦ sell_guard-Sound (capped_quantity c o t) {p = p} (ground arith)
      ]

  size_target-Sound :
      (low : Decimal) {p : ActionPlan} → size_target c o (proportional c o) low ≡ ok p → Sound c o p
  unfolding size_target
  size_target-Sound low {p} h = elim (Bool-cases o.allow_minimum_upscale) [
    | inl up ↦ cap_and_price-Sound (upscaled c o (proportional c o) low) {p = p} (ground arith)
    | inr flat ↦ elim (Option-cases (skip_guard c o (proportional c o) low)) [
      | inl passed ↦ cap_and_price-Sound (unchanged c (proportional c o)) {p = p} (ground arith)
      | inr (q, stopped) ↦ skip_guard-Sound low {p = p} (ground arith)
    ]
  ]

  size_order-Sound : {p : ActionPlan} → size_order c o ≡ ok p → Sound c o p
  unfolding size_order
  size_order-Sound {p} h =
      let (low, e, rest) =
        bind_returns (notional_minimum_quantity c o) (size_target c o (proportional c o)) h in
      size_target-Sound low {p = p} rest

  -- The quantity of a READY plan for a BUY is the target, with no inventory cap.
  buy_requested :
      {p : ActionPlan} (t : IsTargeted c o p)
      → o.side ≡ buy
      → p.requested_quantity ≡ t.target.requested
  unfolding capped_quantity
  buy_requested t b =
      let f = t.funded in
      ground (
        arith,
        f.funded,
        fund_order_fields c o (proportional c o) t.target (capped_quantity c o t.target) f.capped
            f.fee,
      )

  buy_notional :
      {p : ActionPlan} (t : IsTargeted c o p)
      → o.side ≡ buy
      → div c o.minimum_buy_notional o.price ≡ some t.notional_minimum
  unfolding notional_minimum_quantity
  buy_notional t b = ground (arith, t.notional_value)

  flat_target :
      {p : ActionPlan} (t : IsTargeted c o p)
      → o.side ≡ buy
      → o.allow_minimum_upscale ≡ false
      → (t.target.requested ≡ proportional c o)
        × (o.minimum ≤ℤ proportional c o)
        × (t.notional_minimum ≤ℤ proportional c o)
  unfolding skip_guard
  flat_target t b flat = ground (arith, t.choice)

  upscaled_target :
      {p : ActionPlan} (t : IsTargeted c o p)
      → o.side ≡ buy
      → o.allow_minimum_upscale ≡ true
      → (proportional c o ≤ℤ t.target.requested)
        × (o.minimum ≤ℤ t.target.requested)
        × (t.notional_minimum ≤ℤ t.target.requested)
        × ((t.target.requested ≡ proportional c o)
            ⊎ (t.target.requested ≡ o.minimum)
            ⊎ (t.target.requested ≡ t.notional_minimum))
  unfolding upscaled
  upscaled_target t b up = ground (arith, t.choice)

waits_or_free :
    (s : PlanStatus) (reserved : Decimal)
    → (s ≢ pending_capital → reserved ≡ decimal_zero)
    → (s ≡ pending_capital) ⊎ (reserved ≡ decimal_zero)
waits_or_free pending_capital reserved h = inl refl
waits_or_free skipped reserved h = inr (h (λ e. cc))
waits_or_free _ reserved h = inr (h (λ e. cc))

module _ (c : Context) (i : PlanInput) {p : ActionPlan} (planned : plan_action c i ≡ ok p) where
  -- A plan that is not READY records the scaled source quantity and orders nothing, and it reserves
  -- cash only if it waits for capital.
  pub unready_orders_nothing :
      {quantity scale : Decimal}
      → i.source_quantity ≡ finite quantity
      → i.scale ≡ finite scale
      → p.terminal_status ≢ ready
      → (p.proportional_quantity ≡ mul c quantity scale)
        × (p.order_amount_usd ≡ decimal_zero)
        × ((p.terminal_status ≡ pending_capital) ⊎ (p.reserved_cash_usd ≡ decimal_zero))
  unready_orders_nothing {quantity} {scale} eq es unready =
      let w = plan_action-IsPlanned c i planned in
      let sound = size_order-Sound c w.order {p = p} w.sized in
      (
        ground (arith, w.read.quantity, w.read.share_scale, sound.0),
        sound.1 unready,
        waits_or_free p.terminal_status p.reserved_cash_usd (sound.2 unready),
      )

  module _ {quantity scale minimum notional price : Decimal} (is_buy : i.side ≡ buy)
      (is_ready : p.terminal_status ≡ ready) (eq : i.source_quantity ≡ finite quantity)
      (es : i.scale ≡ finite scale) (em : i.minimum_order_size ≡ finite minimum)
      (en : i.minimum_marketable_buy_notional_usd ≡ finite notional)
      (ep : i.best_price ≡ finite price) where
    -- Without upscaling a READY plan for a BUY asks for the scaled source quantity, which then
    -- meets the market minimum and the least marketable notional.
    pub ready_buy_keeps_scale :
        i.allow_minimum_upscale ≡ false
        → (p.requested_quantity ≡ mul c quantity scale)
          × (minimum ≤ℤ mul c quantity scale)
          × ((low : Decimal) × (div c notional price ≡ some low) × (low ≤ℤ mul c quantity scale))
    ready_buy_keeps_scale flat =
        let w = plan_action-IsPlanned c i planned in
        let t = size_order-IsTargeted c w.order w.sized is_ready in
        let b = w.read.side ∙ is_buy in
        let facts = flat_target c w.order t b (w.read.allow_minimum_upscale ∙ flat) in
        let low = buy_notional c w.order t b in
        (
          ground (arith, w.read.quantity, w.read.share_scale, buy_requested c w.order t b, facts.0),
          ground (arith, w.read.quantity, w.read.share_scale, w.read.minimum, facts.1),
          (
            t.notional_minimum,
            ground (arith, w.read.minimum_buy_notional, w.read.price),
            ground (arith, w.read.quantity, w.read.share_scale, facts.2),
          ),
        )

    -- With upscaling a READY plan for a BUY asks for at least the scaled source quantity and both
    -- minimums, and for one of the three.
    pub ready_buy_upscaled :
        i.allow_minimum_upscale ≡ true
        → (low : Decimal) × (div c notional price ≡ some low)
          × (mul c quantity scale ≤ℤ p.requested_quantity)
          × (minimum ≤ℤ p.requested_quantity)
          × (low ≤ℤ p.requested_quantity)
          × ((p.requested_quantity ≡ mul c quantity scale)
              ⊎ (p.requested_quantity ≡ minimum)
              ⊎ (p.requested_quantity ≡ low))
    ready_buy_upscaled up =
        let w = plan_action-IsPlanned c i planned in
        let t = size_order-IsTargeted c w.order w.sized is_ready in
        let b = w.read.side ∙ is_buy in
        let facts = upscaled_target c w.order t b (w.read.allow_minimum_upscale ∙ up) in
        let low = buy_notional c w.order t b in
        let req = buy_requested c w.order t b in
        (
          t.notional_minimum,
          ground (arith, w.read.minimum_buy_notional, w.read.price),
          ground (arith, w.read.quantity, w.read.share_scale, req, facts.0),
          ground (arith, w.read.minimum, req, facts.1),
          ground (arith, req, facts.2),
          ground (arith, w.read.quantity, w.read.share_scale, w.read.minimum, req, facts.3),
        )
