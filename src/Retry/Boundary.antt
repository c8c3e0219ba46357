-- ===== src/Retry/Boundary.antt =====
-- The price boundary of app/cd90_live_copy.py at a tick that is a power of ten.
use native.Mathlib.Nat.{
  div-add-mod', mod-lt, one-le-pow, le_of_mul-le-mul_right, pow-le-pow_right, le_trans,
  mul-le-mul_right,
}
use native.Mathlib.Decide.{dec_le}
use polymarket_live_copy.Prelude.{
  ℕ, ◌+◌, ◌-◌, ◌*◌, ◌/◌, ◌^◌, ◌≤◌, ◌<◌, ◌≡◌, ◌∙◌, ap, subst, sym, refl, some, ok, ltb, arith,
  if◌then◌else◌, ◌⊎◌, inl, inr, Bool-cases,
}
use polymarket_live_copy.Prelude.Int.{pos, ◌+ℤ◌, ◌-ℤ◌, int_laws, eq_of_parts}
use polymarket_live_copy.Decimal.{Context, add, sub, mul, div, unit, literal, round_ratio}
use polymarket_live_copy.Decimal.Rounding.{IsHeld, round_ratio_ge, round_ratio_le, pow_add}
use polymarket_live_copy.Decimal.Laws.{Held, unit_pos, add_exact, sub_exact}
use polymarket_live_copy.Sizing.{Side, buy, sell, other_side}
use polymarket_live_copy.Sizing.Fee.{one}
use polymarket_live_copy.Retry.{
  bounded_retry_price_boundary, check_price_input, highest_price, lowest_price,
  bounded_retry_max_adverse_slippage, floor_value, ceiling_value,
}

-- The slipped price of m million least values of the context, in least values: 1.104842 times the
-- price for a BUY, and 0.895158 times the price for a SELL. What a BUY pays is at most one.
abbrev pub slipped_price : Side → ℕ → ℕ
slipped_price buy m = 1104842 * m
slipped_price sell m = 895158 * m
slipped_price other_side m = 0

abbrev pub price_limit : Context → Side → ℕ → ℕ
price_limit c buy m = if ltb (unit c) (1104842 * m) then unit c else 1104842 * m
price_limit c sell m = 895158 * m
price_limit c other_side m = 0

-- The last tick at or below the limit of a BUY, and the first at or above that of a SELL.
abbrev pub IsNearest : Side → (limit tick b : ℕ) → Type 0
IsNearest buy limit tick b = (b ≤ limit) × (limit < b + tick)
IsNearest sell limit tick b = (limit ≤ b) × (b < limit + tick)
IsNearest other_side limit tick b = b ≡ 0

round_ratio-mul : (c : Context) (x q : ℕ) → 0 < q → IsHeld c x → round_ratio c (x * q) q ≡ x
round_ratio-mul c x q hq h = omega (
  arith,
  round_ratio_ge c (x * q) q hq h (omega arith),
  round_ratio_le c (x * q) q hq h (omega arith),
)

power_pos : (n : ℕ) → 0 < 10 ^ n
power_pos n = one-le-pow n 10 (omega arith)

million : (places : ℕ) → 6 ≤ places → 10 ^ places ≡ 10 ^ (places - 6) * 1000000
million places h = ap (λ n. 10 ^ n) (omega arith) ∙ pow_add (places - 6) 6

quotient_bounds : (x u : ℕ) → 0 < u → (x / u * u ≤ x) × (x < x / u * u + u)
quotient_bounds x u h =
    (omega (arith, div-add-mod' x u), omega (arith, div-add-mod' x u, mod-lt x h))

cancel : (z x y : ℕ) → 0 < z → x * z ≤ y * z → x ≤ y
cancel z x y hz h = le_of_mul-le-mul_right h hz

cancel_lt : (z x y : ℕ) → x * z < y * z → x < y
cancel_lt z x y h = elim (dec_le y x) [
  | yes le ↦ absurd (omega (arith, mul-le-mul_right z le))
  | no gt ↦ omega arith
]

held_pos : (c : Context) (x : ℕ) → IsHeld c x → Held c (pos x)
held_pos c x h = subst (IsHeld c) (omega arith) h

literal-IsHeld : (c : Context) (f e : ℕ) → 7 ≤ c.prec → f ≤ 10000000 → IsHeld c (f * 10 ^ e)
literal-IsHeld c f e h k = record {
  shift = e;
  coefficient = f;
  value = omega arith;
  within = le_trans {m = 10 ^ 7} k (pow-le-pow_right (omega arith) h);
}

module _ (c : Context) (six : 6 ≤ c.places) (digits : 7 ≤ c.prec) where
  step : ℕ
  step = 10 ^ (c.places - 6)

  unit-step : unit c ≡ step * 1000000
  unfolding unit step
  unit-step = million c.places six

  slippage-step : bounded_retry_max_adverse_slippage c ≡ pos (104842 * step)
  unfolding literal
  slippage-step = ap pos (omega (arith, unit-step))

  factor-IsHeld : (f : ℕ) → f ≤ 10000000 → IsHeld c (f * step)
  unfolding step
  factor-IsHeld f h = literal-IsHeld c f (c.places - 6) digits h

  above : add c (one c) (bounded_retry_max_adverse_slippage c) ≡ pos (1104842 * step)
  above =
      let sum : one c +ℤ bounded_retry_max_adverse_slippage c ≡ pos (1104842 * step) =
        rw slippage-step (
          eq_of_parts (one c +ℤ pos (104842 * step)) (pos (1104842 * step))
            (omega (int_laws, unit-step))) in
      add_exact c (one c) (bounded_retry_max_adverse_slippage c) (
        subst (Held c) (sym sum)
          (held_pos c (1104842 * step) (factor-IsHeld 1104842 (omega arith))))
      ∙ sum

  below : sub c (one c) (bounded_retry_max_adverse_slippage c) ≡ pos (895158 * step)
  below =
      let rest : one c -ℤ bounded_retry_max_adverse_slippage c ≡ pos (895158 * step) =
        rw slippage-step (
          eq_of_parts (one c -ℤ pos (104842 * step)) (pos (895158 * step))
            (omega (int_laws, unit-step))) in
      sub_exact c (one c) (bounded_retry_max_adverse_slippage c) (
        subst (Held c) (sym rest) (held_pos c (895158 * step) (factor-IsHeld 895158 (omega arith))))
      ∙ rest

  scaled : (m f : ℕ) → IsHeld c (f * m) → mul c (pos (m * 1000000)) (pos (f * step)) ≡ pos (f * m)
  unfolding mul
  scaled m f h =
      let product : (m * 1000000 + 0) * (f * step + 0) ≡ f * m * unit c =
        rw unit-step (omega arith) in
      ap pos (
        ap (λ p. round_ratio c p (unit c)) product
        ∙ round_ratio-mul c (f * m) (unit c) (unit_pos c) h)

  highest_price-limit :
      (m : ℕ)
      → IsHeld c (1104842 * m)
      → highest_price c (pos (m * 1000000)) ≡ pos (price_limit c buy m)
  unfolding highest_price
  highest_price-limit m h = rw (above, scaled m 1104842 h) (ground arith)

  lowest_price-limit :
      (m : ℕ)
      → IsHeld c (895158 * m)
      → lowest_price c (pos (m * 1000000)) ≡ pos (price_limit c sell m)
  unfolding lowest_price
  lowest_price-limit m h = rw (below, scaled m 895158 h) (ground arith)

limit-IsHeld : (c : Context) (m : ℕ) → IsHeld c (1104842 * m) → IsHeld c (price_limit c buy m)
unfolding unit
limit-IsHeld c m h = elim (Bool-cases (ltb (unit c) (1104842 * m))) [
  | inl over ↦
      rw over (record {
        shift = c.places;
        coefficient = 1;
        value = omega arith;
        within = power_pos c.prec;
      })
  | inr under ↦ rw under h
]

limit_le : (c : Context) (m : ℕ) → price_limit c buy m ≤ unit c
limit_le c m = ground arith

module _ (c : Context) (j k : ℕ) (whole : j + k ≡ c.places) (digits : k ≤ c.prec) where
  unit-split : unit c ≡ 10 ^ j * 10 ^ k
  unfolding unit
  unit-split = ap (λ n. 10 ^ n) (sym whole) ∙ pow_add j k

  -- The number of ticks of a value, in the least values of the context.
  ticks_of : (w : ℕ) → IsHeld c w → div c (pos w) (pos (10 ^ j)) ≡ some (pos (w * 10 ^ k))
  unfolding div
  ticks_of w h =
      let product : (w + 0) * unit c ≡ w * 10 ^ k * (10 ^ j + 0) = rw unit-split (omega arith) in
      let held : IsHeld c (w * 10 ^ k) = record {
        shift = h.shift + k;
        coefficient = h.coefficient;
        value = ap (λ x. x * 10 ^ k) h.value ∙ (rw (pow_add h.shift k) (omega arith));
        within = h.within;
      } in
      let exact : round_ratio c ((w + 0) * unit c) (10 ^ j + 0) ≡ w * 10 ^ k =
        ap (λ p. round_ratio c p (10 ^ j + 0)) product
        ∙ round_ratio-mul c (w * 10 ^ k) (10 ^ j + 0) (omega (arith, power_pos j)) held in
      ground (arith, power_pos j, exact)

  -- A whole number of ticks, up to one.
  ticks-mul : (n : ℕ) → n ≤ 10 ^ k → mul c (pos (n * unit c)) (pos (10 ^ j)) ≡ pos (n * 10 ^ j)
  unfolding mul
  ticks-mul n h =
      let product : (n * unit c + 0) * (10 ^ j + 0) ≡ n * 10 ^ j * unit c = omega arith in
      let held : IsHeld c (n * 10 ^ j) = record {
        shift = j;
        coefficient = n;
        value = refl;
        within = le_trans h (pow-le-pow_right (omega arith) digits);
      } in
      ap pos (
        ap (λ p. round_ratio c p (unit c)) product
        ∙ round_ratio-mul c (n * 10 ^ j) (unit c) (unit_pos c) held)

  floored :
      (w : ℕ)
      → w ≤ unit c
      → (n : ℕ) × (floor_value c (pos (w * 10 ^ k)) ≡ pos (n * unit c))
        × (n ≤ 10 ^ k)
        × IsNearest buy w (10 ^ j) (n * 10 ^ j)
  unfolding floor_value
  floored w h =
      let n = (w * 10 ^ k + 0) / unit c in
      let (up, down) = quotient_bounds (w * 10 ^ k + 0) (unit c) (unit_pos c) in
      (
        n,
        refl,
        cancel (unit c) n (10 ^ k) (unit_pos c)
            (le_trans up (omega (arith, mul-le-mul_right (10 ^ k) h))),
        (
          cancel (10 ^ k) (n * 10 ^ j) w (power_pos k)
              (omega (arith, up, ap (λ u. n * u) unit-split)),
          cancel_lt (10 ^ k) w (n * 10 ^ j + 10 ^ j)
              (omega (arith, down, ap (λ u. n * u) unit-split, unit-split)),
        ),
      )

  small : (n : ℕ) → n < 10 ^ k + 1 → n ≤ 10 ^ k
  small n h = omega arith

  ceiled :
      (w : ℕ)
      → w ≤ unit c
      → (n : ℕ) × (ceiling_value c (pos (w * 10 ^ k)) ≡ pos (n * unit c))
        × (n ≤ 10 ^ k)
        × IsNearest sell w (10 ^ j) (n * 10 ^ j)
  unfolding ceiling_value
  ceiled w h =
      let n = (w * 10 ^ k + 0 + (unit c - 1)) / unit c in
      let (up, down) = quotient_bounds (w * 10 ^ k + 0 + (unit c - 1)) (unit c) (unit_pos c) in
      (
        n,
        refl,
        small n (
            cancel_lt (unit c) n (10 ^ k + 1)
              (omega (arith, up, mul-le-mul_right (10 ^ k) h, unit_pos c))),
        (
          cancel (10 ^ k) w (n * 10 ^ j) (power_pos k)
              (omega (arith, down, ap (λ u. n * u) unit-split, unit_pos c)),
          cancel_lt (10 ^ k) (n * 10 ^ j) (w + 10 ^ j)
              (omega (arith, up, ap (λ u. n * u) unit-split, unit-split, unit_pos c)),
        ),
      )

-- The boundary of a BUY or SELL at a price in (0, 1] that is a multiple of 10 ^ 6 least values of
-- the context, and at a tick of 10 ^ -k, where the context has six places, seven digits and k
-- digits at least, and holds the slipped price exactly: it is returned, a whole number of ticks,
-- and exactly the last tick that is not above the lesser of 1.104842 times the price and one
-- (BUY), or the first that is not below 0.895158 times the price (SELL).
pub price_boundary_pinned :
    (c : Context) (side : Side) (m j k : ℕ)
    → (side ≡ buy) ⊎ (side ≡ sell)
    → 0 < m
    → m * 1000000 ≤ unit c
    → j + k ≡ c.places
    → 6 ≤ c.places
    → 7 ≤ c.prec
    → k ≤ c.prec
    → IsHeld c (slipped_price side m)
    → (n : ℕ) × (bounded_retry_price_boundary c side (pos (m * 1000000)) (pos (10 ^ j))
        ≡ ok (pos (n * 10 ^ j)))
      × IsNearest side (price_limit c side m) (10 ^ j) (n * 10 ^ j)
unfolding bounded_retry_price_boundary check_price_input
price_boundary_pinned c buy m j k s hm h1 whole six seven digits held =
    let limit = price_limit c buy m in
    let raw = highest_price-limit c six seven m held in
    let ticks = ticks_of c j k whole digits limit (limit-IsHeld c m held) in
    let (n, en, hn, nearest) = floored c j k whole digits limit (limit_le c m) in
    let value : mul c (floor_value c (pos (limit * 10 ^ k))) (pos (10 ^ j)) ≡ pos (n * 10 ^ j) =
      ap (λ v. mul c v (pos (10 ^ j))) en ∙ ticks-mul c j k whole digits n hn in
    (n, rw raw (ground (arith, ticks, value, power_pos j)), nearest)
price_boundary_pinned c sell m j k s hm h1 whole six seven digits held =
    let limit = price_limit c sell m in
    let raw = lowest_price-limit c six seven m held in
    let ticks = ticks_of c j k whole digits limit held in
    let (n, en, hn, nearest) = ceiled c j k whole digits limit (omega arith) in
    let value : mul c (ceiling_value c (pos (limit * 10 ^ k))) (pos (10 ^ j)) ≡ pos (n * 10 ^ j) =
      ap (λ v. mul c v (pos (10 ^ j))) en ∙ ticks-mul c j k whole digits n hn in
    (n, rw raw (ground (arith, ticks, value, power_pos j)), nearest)
price_boundary_pinned c other_side m j k s hm h1 whole six seven digits held = absurd (ground arith)
