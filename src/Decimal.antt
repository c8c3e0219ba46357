-- ===== src/Decimal.antt =====
-- Python's `decimal.Decimal`, as app/ uses it: finite values under a context, whose exponents are
-- unbounded: decimal.Overflow is not modelled.
pub mod Rounding
pub mod Laws
use polymarket_live_copy.Prelude.{
  ℕ, zero, suc, ◌+◌, ◌*◌, ◌/◌, ◌%◌, ◌^◌, ◌<◌, Bool, true, false, ltb, leb, ◌==◌, if◌then◌else◌,
  Option, none, some,
}
use polymarket_live_copy.Prelude.Int.{
  ℤ, pos, negsuc, pos_part, neg_part, sub_ℕ, ◌+ℤ◌, ◌-ℤ◌, leb_ℤ, ltb_ℤ,
}

-- `getcontext()`: `prec` significant digits, and 10 ^ -`places` for the least positive value. (The
-- default context has 28 and 1000026.)
pub record Context : Type 0 where
  pub prec : ℕ
  pub places : ℕ
  pub prec_pos : 0 < prec

-- A finite value, as a multiple of 10 ^ -places. Two Decimals with one value and other exponents
-- compare as equal in Python, and are one value here.
abbrev pub Decimal : Type 0
Decimal = ℤ

-- The power of ten that the last kept digit of p / q stands for, t or more.
digit_weight : ℕ → ℕ → ℕ → ℕ → ℕ → ℕ
digit_weight zero bound p q t = t
digit_weight (suc f) bound p q t =
    let rest = digit_weight f bound p q (t * 10) in if ltb p (q * t * bound) then t else rest

-- ROUND_HALF_EVEN of n + r / d.
half_even : ℕ → ℕ → ℕ → ℕ
half_even n r d =
    if ltb (2 * r) d then n else if ltb d (2 * r) then n + 1 else if n % 2 == 0 then n else n + 1

-- p / q, rounded to the context's digits.
unfoldable pub round_ratio : Context → ℕ → ℕ → ℕ
unfolding digit_weight half_even
round_ratio c p q =
    let t = digit_weight p (10 ^ c.prec) p q 1 in half_even (p / (q * t)) (p % (q * t)) (q * t) * t

abbrev pub magnitude : Decimal → ℕ
magnitude x = pos_part x + neg_part x

abbrev pub is_negative : Decimal → Bool
is_negative (pos _) = false
is_negative (negsuc _) = true

abbrev pub with_sign : Bool → ℕ → Decimal
with_sign true n = sub_ℕ 0 n
with_sign false n = pos n

abbrev pub xor : Bool → Bool → Bool
xor true b = if b then false else true
xor false b = b

-- The value 1, in multiples of the least positive value.
unfoldable pub unit : Context → ℕ
unit c = 10 ^ c.places

abbrev pub decimal_zero : Decimal
decimal_zero = pos 0

-- `Decimal(n)` of an integer
abbrev pub of_ℕ : Context → ℕ → Decimal
of_ℕ c n = pos (n * unit c)

-- `Decimal("n / 10 ^ k")`, a literal with k digits behind the point
unfoldable pub literal : Context → ℕ → ℕ → Decimal
literal c n k = pos (n * unit c / 10 ^ k)

unfoldable pub round : Context → Decimal → Decimal
round c x = with_sign (is_negative x) (round_ratio c (magnitude x) 1)

unfoldable pub add : Context → Decimal → Decimal → Decimal
add c x y = round c (x +ℤ y)

unfoldable pub sub : Context → Decimal → Decimal → Decimal
sub c x y = round c (x -ℤ y)

unfoldable pub mul : Context → Decimal → Decimal → Decimal
mul c x y =
    with_sign (xor (is_negative x) (is_negative y))
      (round_ratio c (magnitude x * magnitude y) (unit c))

-- `none` where Python raises DivisionByZero or InvalidOperation.
unfoldable pub div : Context → Decimal → Decimal → Option Decimal
div c x y =
    if magnitude y == 0
    then none
    else some (
        with_sign (xor (is_negative x) (is_negative y))
          (round_ratio c (magnitude x * unit c) (magnitude y)))

-- `x ** n` for a number n; 0 ** 0 is an InvalidOperation.
unfoldable pub pow : Context → Decimal → ℕ → Option Decimal
pow c x n =
    if magnitude x == 0
    then if n == 0 then none else some decimal_zero
    else some (
        with_sign (if n % 2 == 0 then false else is_negative x)
          (round_ratio c (magnitude x ^ n * unit c) (unit c ^ n)))

-- `x == x.to_integral_value()`
unfoldable pub is_integral : Context → Decimal → Bool
is_integral c x = magnitude x % unit c == 0

-- `min(x, y)` and `max(x, y)` return one of the two.
abbrev pub min : Decimal → Decimal → Decimal
min x y = if ltb_ℤ y x then y else x

abbrev pub max : Decimal → Decimal → Decimal
max x y = if ltb_ℤ x y then y else x
