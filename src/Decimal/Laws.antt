-- ===== src/Decimal/Laws.antt =====
-- The signed operations of Decimal: sums and products of values that are not negative, and when an
-- operation is exact.
use native.Mathlib.Nat.{one-le-pow, mul-le-mul_left}
use polymarket_live_copy.Prelude.{
  ℕ, zero, suc, ◌*◌, ◌≤◌, ◌<◌, ◌≡◌, ◌≢◌, refl, sym, ap, Bool, some, arith, subst,
}
use polymarket_live_copy.Prelude.Int.{pos, negsuc, ◌+ℤ◌, ◌-ℤ◌, ◌≤ℤ◌, int_laws, eq_of_parts}
use polymarket_live_copy.Decimal.{
  Context, Decimal, round_ratio, magnitude, is_negative, with_sign, xor, unit, round, add, sub, mul,
  div, pow, decimal_zero,
}
use polymarket_live_copy.Decimal.Rounding.{
  IsHeld, round_ratio_ge, round_ratio_le, round_ratio-IsHeld,
}

-- The context holds the value with no rounding.
abbrev pub Held : Context → Decimal → Type 0
Held c x = IsHeld c (magnitude x)

pub unit_pos : (c : Context) → 0 < unit c
unfolding unit
unit_pos c = one-le-pow c.places 10 (omega arith)

magnitude-with_sign : (b : Bool) (n : ℕ) → magnitude (with_sign b n) ≡ n
magnitude-with_sign b n = ground arith

with_sign-magnitude : (x : Decimal) → with_sign (is_negative x) (magnitude x) ≡ x
with_sign-magnitude x = ground arith

magnitude_le : (x : Decimal) (n : ℕ) → decimal_zero ≤ℤ x → x ≤ℤ pos n → magnitude x ≤ n
magnitude_le x n h k = ground arith

module _ (c : Context) where
  with_sign-Held : (b : Bool) (p q : ℕ) → 0 < q → Held c (with_sign b (round_ratio c p q))
  with_sign-Held b p q h =
      subst (IsHeld c) (sym (magnitude-with_sign b (round_ratio c p q)))
        (round_ratio-IsHeld c p q h)

  round_ratio_exact : (x : ℕ) → IsHeld c x → round_ratio c x 1 ≡ x
  round_ratio_exact x h = omega (
    arith,
    round_ratio_ge c x 1 (omega arith) h (omega arith),
    round_ratio_le c x 1 (omega arith) h (omega arith),
  )

  -- A value that the context holds is not changed.
  pub round_exact : (x : Decimal) → Held c x → round c x ≡ x
  unfolding round
  round_exact x h = rw (round_ratio_exact (magnitude x) h) (with_sign-magnitude x)

  pub round-Held : (x : Decimal) → Held c (round c x)
  unfolding round
  round-Held x = with_sign-Held (is_negative x) (magnitude x) 1 (omega arith)

  pub add-Held : (x y : Decimal) → Held c (add c x y)
  unfolding add
  add-Held x y = round-Held (x +ℤ y)

  pub sub-Held : (x y : Decimal) → Held c (sub c x y)
  unfolding sub
  sub-Held x y = round-Held (x -ℤ y)

  pub mul-Held : (x y : Decimal) → Held c (mul c x y)
  unfolding mul
  mul-Held x y = with_sign-Held _ _ (unit c) (unit_pos c)

  pub add_exact : (x y : Decimal) → Held c (x +ℤ y) → add c x y ≡ x +ℤ y
  unfolding add
  add_exact x y h = round_exact (x +ℤ y) h

  pub sub_exact : (x y : Decimal) → Held c (x -ℤ y) → sub c x y ≡ x -ℤ y
  unfolding sub
  sub_exact x y h = round_exact (x -ℤ y) h

  round_ge : (x y : Decimal) → Held c x → decimal_zero ≤ℤ x → x ≤ℤ y → x ≤ℤ round c y
  unfolding round
  round_ge x y h hx hy = ground (arith, round_ratio_ge c (magnitude y) 1 (omega arith) h)

  round_le : (x y : Decimal) → Held c x → decimal_zero ≤ℤ y → y ≤ℤ x → round c y ≤ℤ x
  unfolding round
  round_le x y h hy hx = ground (arith, round_ratio_le c (magnitude y) 1 (omega arith) h)

  pub round_nonneg : (x : Decimal) → decimal_zero ≤ℤ x → decimal_zero ≤ℤ round c x
  unfolding round
  round_nonneg x h = ground arith

  -- Adding what is not negative never lowers a value that the context holds.
  pub add_ge : (x y : Decimal) → Held c x → decimal_zero ≤ℤ x → decimal_zero ≤ℤ y → x ≤ℤ add c x y
  unfolding add
  add_ge x y h hx hy = round_ge x (x +ℤ y) h hx (omega int_laws)

  pub add_nonneg :
      (x y : Decimal) → decimal_zero ≤ℤ x → decimal_zero ≤ℤ y → decimal_zero ≤ℤ add c x y
  unfolding add
  add_nonneg x y hx hy = round_nonneg (x +ℤ y) (omega int_laws)

  pub sub_le : (x y : Decimal) → Held c x → decimal_zero ≤ℤ y → y ≤ℤ x → sub c x y ≤ℤ x
  unfolding sub
  sub_le x y h hy hx = round_le x (x -ℤ y) h (omega int_laws) (omega int_laws)

  pub sub_nonneg : (x y : Decimal) → y ≤ℤ x → decimal_zero ≤ℤ sub c x y
  unfolding sub
  sub_nonneg x y hx = round_nonneg (x -ℤ y) (omega int_laws)

  pub mul_nonneg :
      (x y : Decimal) → decimal_zero ≤ℤ x → decimal_zero ≤ℤ y → decimal_zero ≤ℤ mul c x y
  unfolding mul
  mul_nonneg x y hx hy = ground arith

  pub mul_one_bound :
      (x y : Decimal)
      → Held c x
      → decimal_zero ≤ℤ x
      → decimal_zero ≤ℤ y
      → y ≤ℤ pos (unit c)
      → mul c x y ≤ℤ x
  unfolding mul
  mul_one_bound x y h hx hy hu = ground (
    arith,
    round_ratio_le c (magnitude x * magnitude y) (unit c) (unit_pos c) h,
    mul-le-mul_left {m = magnitude y} {n = unit c} (magnitude x) (magnitude_le y (unit c) hy hu),
  )

  -- A quotient of two values that are not negative is not negative.
  pub div_nonneg :
      (x y : Decimal) {z : Decimal}
      → decimal_zero ≤ℤ x
      → decimal_zero ≤ℤ y
      → div c x y ≡ some z
      → decimal_zero ≤ℤ z
  unfolding div
  div_nonneg x y hx hy e = ground arith

  pub pow_nonneg :
      (x : Decimal) (n : ℕ) {z : Decimal}
      → decimal_zero ≤ℤ x
      → pow c x n ≡ some z
      → decimal_zero ≤ℤ z
  unfolding pow
  pow_nonneg x n hx e = ground arith

  quotient : Decimal → Decimal → Decimal
  quotient x y =
      with_sign (xor (is_negative x) (is_negative y))
        (round_ratio c (magnitude x * unit c) (magnitude y))

  -- Division by a value other than zero never fails.
  pub div_total : (x y : Decimal) → y ≢ decimal_zero → (z : Decimal) × (div c x y ≡ some z)
  unfolding div quotient
  div_total x (pos zero) h = absurd (h refl)
  div_total x (pos (suc n)) h = (quotient x (pos (suc n)), ground arith)
  div_total x (negsuc n) h = (quotient x (negsuc n), ground arith)

  zero-IsHeld : IsHeld c 0
  zero-IsHeld = record { shift = 0; coefficient = 0; value = omega arith; within = omega arith }

  round_ratio-zero : (q : ℕ) → 0 < q → round_ratio c 0 q ≡ 0
  round_ratio-zero q h = omega (arith, round_ratio_le c 0 q h zero-IsHeld (omega arith))

  pub sub_self : (x : Decimal) → sub c x x ≡ decimal_zero
  unfolding sub round
  sub_self x =
      rw (eq_of_parts (x -ℤ x) decimal_zero (omega int_laws))
        (ap pos (round_ratio-zero 1 (omega arith)))

  pub mul-zero_right : (x : Decimal) → mul c x decimal_zero ≡ decimal_zero
  unfolding mul
  mul-zero_right x = ground (arith, round_ratio-zero (unit c) (unit_pos c))
