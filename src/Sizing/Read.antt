-- ===== src/Sizing/Read.antt =====
-- What a plan that is returned says of the arguments of `plan_action`, and what the guards let
-- through.
use polymarket_live_copy.Prelude.{bind_returns, ◌≡◌, ◌⊎◌, true, ok, ◌>>◌, arith}
use polymarket_live_copy.Prelude.Int.{◌≤ℤ◌, ◌<ℤ◌}
use polymarket_live_copy.Decimal.{Context, Decimal, decimal_zero, is_integral}
use polymarket_live_copy.Sizing.{Input, finite, decimal, buy, sell}
use polymarket_live_copy.Sizing.Plan.{
  ActionPlan, PlanInput, Order, read_order, check_order, size_order, plan_action,
}

-- The conversions hand every argument on as it came.
pub record IsReadOf (i : PlanInput) (o : Order) : Type 0 where
  pub side : o.side ≡ i.side
  pub quantity : i.source_quantity ≡ finite o.quantity
  pub share_scale : i.scale ≡ finite o.share_scale
  pub held : i.held_quantity ≡ finite o.held
  pub minimum : i.minimum_order_size ≡ finite o.minimum
  pub minimum_buy_notional : i.minimum_marketable_buy_notional_usd ≡ finite o.minimum_buy_notional
  pub price : i.best_price ≡ finite o.price
  pub visible : i.visible_best_level_size ≡ finite o.visible
  pub fee_bps : i.taker_fee_bps ≡ finite o.fee_bps
  pub exponent : i.fee_exponent ≡ finite o.exponent
  pub cash : i.available_cash ≡ finite o.cash
  pub minimum_fill_price : o.minimum_fill_price ≡ i.minimum_fill_price
  pub allow_minimum_upscale : o.allow_minimum_upscale ≡ i.allow_minimum_upscale

-- What the guards of `plan_action` let through.
pub record IsChecked (c : Context) (o : Order) : Type 0 where
  pub quantity : decimal_zero <ℤ o.quantity
  pub share_scale : decimal_zero <ℤ o.share_scale
  pub held : decimal_zero ≤ℤ o.held
  pub minimum : decimal_zero <ℤ o.minimum
  pub minimum_buy_notional : decimal_zero ≤ℤ o.minimum_buy_notional
  pub price : decimal_zero <ℤ o.price
  pub visible : decimal_zero ≤ℤ o.visible
  pub fee_bps : decimal_zero ≤ℤ o.fee_bps
  pub cash : decimal_zero ≤ℤ o.cash
  pub exponent : decimal_zero ≤ℤ o.exponent
  pub integral : is_integral c o.exponent ≡ true

decimal-eq-ok : (x : Input) {d : Decimal} → decimal x ≡ ok d → x ≡ finite d
unfolding decimal
decimal-eq-ok x h = ground arith

read_order-IsReadOf : (i : PlanInput) {o : Order} → read_order i ≡ ok o → IsReadOf i o
unfolding read_order decimal
read_order-IsReadOf i h = ground arith

read_order-side :
    (i : PlanInput) {o : Order} → read_order i ≡ ok o → (o.side ≡ buy) ⊎ (o.side ≡ sell)
unfolding read_order decimal
read_order-side i h = ground arith

check_order-IsChecked : (c : Context) (o : Order) → check_order c o ≡ ok tt → IsChecked c o
unfolding check_order
check_order-IsChecked c o h = ground arith

pub check_order_passes : (c : Context) (o : Order) → IsChecked c o → check_order c o ≡ ok tt
unfolding check_order
check_order_passes c o h = ground arith

pub read_order_passes :
    (i : PlanInput) (o : Order)
    → IsReadOf i o
    → (o.side ≡ buy) ⊎ (o.side ≡ sell)
    → read_order i ≡ ok o
unfolding read_order decimal
read_order_passes i o r s = grind arith

-- A plan comes from a checked reading of the arguments.
pub record IsPlanned (c : Context) (i : PlanInput) (p : ActionPlan) : Type 0 where
  pub order : Order
  pub read : IsReadOf i order
  pub side : (order.side ≡ buy) ⊎ (order.side ≡ sell)
  pub checked : IsChecked c order
  pub sized : size_order c order ≡ ok p

pub plan_action-IsPlanned :
    (c : Context) (i : PlanInput) {p : ActionPlan} → plan_action c i ≡ ok p → IsPlanned c i p
unfolding plan_action
plan_action-IsPlanned c i {p} h =
    let (o, read, rest) = bind_returns (read_order i) (λ o. check_order c o >> size_order c o) h in
    let (u, checked, sized) = bind_returns (check_order c o) (λ _. size_order c o) rest in
    record {
      order = o;
      read = read_order-IsReadOf i read;
      side = read_order-side i read;
      checked = check_order-IsChecked c o checked;
      sized = sized;
    }
