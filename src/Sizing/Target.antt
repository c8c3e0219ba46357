-- ===== src/Sizing/Target.antt =====
-- How a READY plan of `plan_action` came about: its target, the guards that it passed, its fee.
use polymarket_live_copy.Prelude.{
  bind_returns, ◌≡◌, ◌≢◌, refl, ◌⊎◌, inl, inr, Bool, true, false, none, some, Option-cases,
  Bool-cases, ok, arith,
}
use polymarket_live_copy.Prelude.Int.{◌≤ℤ◌}
use polymarket_live_copy.Decimal.{Context, Decimal, decimal_zero, mul}
use polymarket_live_copy.Decimal.Laws.{mul_nonneg, mul-Held, add_ge}
use polymarket_live_copy.Sizing.{finite, buy}
use polymarket_live_copy.Sizing.FeeBound.{maximum_buy_fee_usd_nonneg}
use polymarket_live_copy.Sizing.Plan.{
  ActionPlan, ready, Order, Target, no_order, upscaled, fee_bound, fund_order, sell_guard,
  capped_quantity, skip_guard, unchanged, size_target, price_order, cap_and_price,
  notional_minimum_quantity, size_order,
}

module _ (c : Context) (o : Order) where
  pub fee_bound_nonneg :
      (req amount : Decimal) {fee : Decimal}
      → o.side ≡ buy
      → fee_bound c o req amount ≡ ok fee
      → decimal_zero ≤ℤ fee
  unfolding fee_bound
  fee_bound_nonneg req amount b h =
      maximum_buy_fee_usd_nonneg c (finite amount) (finite o.fee_bps) (finite o.exponent)
        o.minimum_fill_price (finite o.price) (rw b at h)

  pub fund_order_buy :
      (prop : Decimal) (t : Target) (req : Decimal) (capped : Bool) (fee : Decimal)
      → o.side ≡ buy
      → decimal_zero ≤ℤ req
      → decimal_zero ≤ℤ o.price
      → decimal_zero ≤ℤ fee
      → let p = fund_order c o prop t req capped fee in
        p.terminal_status ≡ ready
        → (p.order_amount_usd ≤ℤ p.reserved_cash_usd) × (p.reserved_cash_usd ≤ℤ o.cash)
  unfolding fund_order no_order
  fund_order_buy prop t req capped fee b hr hp hf r = ground (
    arith,
    mul_nonneg c req o.price hr hp,
    add_ge c (mul c req o.price) fee (mul-Held c req o.price),
  )

  -- A READY plan is one that was funded, for a quantity that the guards let through.
  pub record IsFunded (p : ActionPlan) (prop : Decimal) (t : Target) : Type 0 where
    pub fee : Decimal
    pub fee_value :
        fee_bound c o (capped_quantity c o t) (mul c (capped_quantity c o t) o.price) ≡ ok fee
    pub capped : Bool
    pub funded : p ≡ fund_order c o prop t (capped_quantity c o t) capped fee
    pub guarded : sell_guard c o prop (capped_quantity c o t) ≡ none

  pub price_order-eq-ok :
      (prop : Decimal) (t : Target) (req : Decimal) (capped : Bool) {p : ActionPlan}
      → price_order c o prop t req capped ≡ ok p
      → (fee : Decimal) × (fee_bound c o req (mul c req o.price) ≡ ok fee)
        × (p ≡ fund_order c o prop t req capped fee)
  unfolding price_order
  price_order-eq-ok prop t req capped h =
      let (fee, e, out) =
        bind_returns (fee_bound c o req (mul c req o.price))
          (λ x. ok (fund_order c o prop t req capped x)) h in
      (fee, e, cc)

  sell_guard-not-ready :
      (prop req : Decimal) {p : ActionPlan}
      → sell_guard c o prop req ≡ some p
      → p.terminal_status ≢ ready
  unfolding sell_guard no_order
  sell_guard-not-ready prop req h = ground arith

  cap_and_price-IsFunded :
      (prop : Decimal) (t : Target) {p : ActionPlan}
      → cap_and_price c o prop t ≡ ok p
      → p.terminal_status ≡ ready
      → IsFunded p prop t
  unfolding cap_and_price
  cap_and_price-IsFunded prop t {p} h r =
      elim (Option-cases (sell_guard c o prop (capped_quantity c o t))) [
        | inl passed ↦
            let (fee, e, out) =
              price_order-eq-ok prop t (capped_quantity c o t) _
                (rw (passed, cap_and_price) at h) in
            record { fee = fee; fee_value = e; capped = _; funded = out; guarded = passed }
        | inr (q, stopped) ↦
            absurd (ground (arith, sell_guard-not-ready prop (capped_quantity c o t) {p = q}))
      ]

  abbrev pub proportional : Decimal
  proportional = mul c o.quantity o.share_scale

  -- Which target a READY plan is for.
  pub record IsTargeted (p : ActionPlan) : Type 0 where
    pub target : Target
    pub notional_minimum : Decimal
    pub notional_value : notional_minimum_quantity c o ≡ ok notional_minimum
    pub funded : IsFunded p proportional target
    pub choice :
        ((o.allow_minimum_upscale ≡ true) × (target ≡ upscaled c o proportional notional_minimum))
        ⊎ ((o.allow_minimum_upscale ≡ false)
            × (target ≡ unchanged c proportional)
            × (skip_guard c o proportional notional_minimum ≡ none))

  skip_guard-not-ready :
      (prop low : Decimal) {p : ActionPlan}
      → skip_guard c o prop low ≡ some p
      → p.terminal_status ≢ ready
  unfolding skip_guard no_order
  skip_guard-not-ready prop low h = ground arith

  size_target-IsTargeted :
      (low : Decimal) {p : ActionPlan}
      → notional_minimum_quantity c o ≡ ok low
      → size_target c o proportional low ≡ ok p
      → p.terminal_status ≡ ready
      → IsTargeted p
  unfolding size_target
  size_target-IsTargeted low {p} e h r = elim (Bool-cases o.allow_minimum_upscale) [
    | inl up ↦ record {
      target = upscaled c o proportional low;
      notional_minimum = low;
      notional_value = e;
      funded = cap_and_price-IsFunded proportional _ (ground arith) r;
      choice = inl (up, refl);
    }
    | inr flat ↦ elim (Option-cases (skip_guard c o proportional low)) [
      | inl passed ↦ record {
        target = unchanged c proportional;
        notional_minimum = low;
        notional_value = e;
        funded = cap_and_price-IsFunded proportional _ (ground arith) r;
        choice = inr (flat, refl, passed);
      }
      | inr (q, stopped) ↦ absurd (ground (arith, skip_guard-not-ready proportional low {p = q}))
    ]
  ]

  pub size_order-IsTargeted :
      {p : ActionPlan} → size_order c o ≡ ok p → p.terminal_status ≡ ready → IsTargeted p
  unfolding size_order
  size_order-IsTargeted h r =
      let (low, e, rest) =
        bind_returns (notional_minimum_quantity c o) (size_target c o proportional) h in
      size_target-IsTargeted low e rest r
