-- ===== src/Decimal/Rounding.antt =====
-- `round_ratio` of Decimal is a rounding: values that the context holds bound it from both sides.
use polymarket_live_copy.Prelude.{
  ℕ, zero, suc, ◌+◌, ◌-◌, ◌*◌, ◌/◌, ◌%◌, ◌^◌, ◌≤◌, ◌<◌, ◌≡◌, refl, sym, ap, ◌∙◌, ◌⊎◌, inl, inr, ltb,
  arith, Bool-cases,
}
use Prim.Native.Nat.add
use native.Mathlib.Nat.{
  pow-suc, pow-zero, mul-le-mul_right, mul-le-mul, le-div_iff_mul-le, div-add-mod', mod-lt,
  one-le-pow, le_of_mul-le-mul_right, one-le-mul, pow-le-pow_right, le_trans,
}
use native.Mathlib.Decide.{dec_le}
use polymarket_live_copy.Decimal.{Context, digit_weight, half_even, round_ratio}

half_even_bounds : (n r d : ℕ) → (n ≤ half_even n r d) × (half_even n r d ≤ n + 1)
unfolding half_even
half_even_bounds n r d = ground arith

half_even_exact : (n r d : ℕ) → 0 < d → r ≡ 0 → half_even n r d ≡ n
unfolding half_even
half_even_exact n r d hd h = ground arith

-- What `digit_weight` returns: a power of ten, and one digit fewer would not have been enough.
record IsWeight (bound p q w : ℕ) : Type 0 where
  exponent : ℕ
  power : w ≡ 10 ^ exponent
  least : (exponent ≡ 0) ⊎ ((e : ℕ) × (exponent ≡ suc e) × (q * 10 ^ e * bound ≤ p))

pow_suc : (e : ℕ) → 10 ^ suc e ≡ 10 ^ e * 10
pow_suc e = pow-suc 10 e

digit_weight-IsWeight :
    (f bound p q t e : ℕ)
    → t ≡ 10 ^ e
    → (e ≡ 0) ⊎ ((d : ℕ) × (e ≡ suc d) × (q * 10 ^ d * bound ≤ p))
    → IsWeight bound p q (digit_weight f bound p q t)
unfolding digit_weight
digit_weight-IsWeight zero bound p q t e ht hl = record { exponent = e; power = ht; least = hl }
digit_weight-IsWeight (suc f) bound p q t e ht hl = elim (Bool-cases (ltb p (q * t * bound))) [
  | inl done ↦ rw done (record { exponent = e; power = ht; least = hl })
  | inr more ↦ rw more (
      digit_weight-IsWeight f bound p q (t * 10) (suc e) (ground (arith, pow_suc e))
        (inr (e, refl, ground arith)))
]

mul_pos_le : (a b : ℕ) → 0 < a → b ≤ a * b
mul_pos_le a b h = grind arith

mul_pos_le' : (a b : ℕ) → 0 < b → a ≤ a * b
mul_pos_le' a b h = grind arith

-- With the fuel that `round_ratio` gives, the digits kept are enough.
digit_weight_enough :
    (f bound p q t : ℕ)
    → 0 < q
    → 0 < t
    → 0 < bound
    → p < f + t
    → p < q * digit_weight f bound p q t * bound
unfolding digit_weight
digit_weight_enough zero bound p q t hq ht hb h =
    omega (arith, mul_pos_le q t hq, mul_pos_le' (q * t) bound hb)
digit_weight_enough (suc f) bound p q t hq ht hb h = elim (Bool-cases (ltb p (q * t * bound))) [
  | inl done ↦ rw done (ground arith)
  | inr more ↦ rw more (digit_weight_enough f bound p q (t * 10) hq (omega arith) hb (omega arith))
]

-- A value that the context holds: a power of ten times a coefficient of the context's digits.
pub record IsHeld (c : Context) (x : ℕ) : Type 0 where
  pub shift : ℕ
  pub coefficient : ℕ
  pub value : x ≡ coefficient * 10 ^ shift
  pub within : coefficient ≤ 10 ^ c.prec

half_even_le : (p d m : ℕ) → 0 < d → p ≤ m * d → half_even (p / d) (p % d) d ≤ m
half_even_le p d m hd h = grind (
  arith,
  half_even_bounds (p / d) (p % d) d,
  half_even_exact (p / d) (p % d) d hd,
  div-add-mod' p d,
  mod-lt p hd,
)

half_even_ge : (p d m : ℕ) → 0 < d → m * d ≤ p → m ≤ half_even (p / d) (p % d) d
half_even_ge p d m hd h =
    le_trans ((le-div_iff_mul-le hd).1 h) (half_even_bounds (p / d) (p % d) d).0

pub pow_add : (n j : ℕ) → 10 ^ (n + j) ≡ 10 ^ n * 10 ^ j
pow_add zero j = rw (add.zero, pow-zero) (omega arith)
pow_add (suc n) j = rw (add.suc, pow-suc, pow-suc, pow_add n j) (omega arith)

pow_split : (k j : ℕ) → j ≤ k → 10 ^ k ≡ 10 ^ (k - j) * 10 ^ j
pow_split k j h = rw (← pow_add (k - j) j) (ap (λ n. 10 ^ n) (omega arith))

-- A coefficient at one weight, read at a weight that divides it.
regroup : (m k j q : ℕ) → j ≤ k → m * 10 ^ k * q ≡ m * 10 ^ (k - j) * (q * 10 ^ j)
regroup m k j q h = rw (pow_split k j h) (omega arith)

-- With fewer digits than the last kept one a held value is below what is kept in any case.
short_held : (m k e b : ℕ) → m ≤ b → k ≤ e → m * 10 ^ k ≤ b * 10 ^ e
short_held m k e b hm hk = mul-le-mul hm (pow-le-pow_right (omega arith) hk)

module _ (b p q w : ℕ) (hq : 0 < q) (weight : IsWeight (b * 10) p q w) where
  -- p / q with the digits at w and above kept.
  kept : ℕ
  kept = half_even (p / (q * w)) (p % (q * w)) (q * w)

  base_pos : 0 < q * w
  base_pos = rw weight.power (one-le-mul hq (one-le-pow weight.exponent 10 (omega arith)))

  -- A held value is a multiple of w, or lies below the least value that keeps all digits at w.
  held_position :
      (m k x : ℕ)
      → x ≡ m * 10 ^ k
      → m ≤ b * 10
      → ((n : ℕ) × (x ≡ n * w))
        ⊎ ((v : ℕ) × (w ≡ v * 10) × (x ≤ b * 10 * v) × (q * v * (b * 10) ≤ p))
  held_position m k x hx hm = elim (dec_le weight.exponent k) [
    | yes le ↦ inl (m * 10 ^ (k - weight.exponent), whole le)
    | no gt ↦ elim weight.least [
      | inl flat ↦ absurd (omega arith)
      | inr (e, last, fewer) ↦ inr (
        10 ^ e,
        weight.power ∙ rw last (pow_suc e),
        rw hx (short_held m k e (b * 10) hm (omega arith)),
        fewer,
      )
    ]
  ]
    where
      whole : weight.exponent ≤ k → x ≡ m * 10 ^ (k - weight.exponent) * w
      whole le = rw (hx, weight.power, pow_split k weight.exponent le) (omega arith)

  kept_ge : (m k x : ℕ) → x ≡ m * 10 ^ k → m ≤ b * 10 → x * q ≤ p → x ≤ kept * w
  unfolding kept
  kept_ge m k x hx hm h = elim (held_position m k x hx hm) [
    | inl (n, e) ↦
        rw e (mul-le-mul_right w (half_even_ge p (q * w) n base_pos (omega (arith, rw e at h))))
    | inr (v, ten, below, fewer) ↦ le_trans below (
        le_trans (omega (arith, ap (λ z. b * z) ten)) (
          mul-le-mul_right w
            (half_even_ge p (q * w) b base_pos (omega (arith, ap (λ z. b * (q * z)) ten)))))
  ]

  kept_le : (m k x : ℕ) → x ≡ m * 10 ^ k → m ≤ b * 10 → p ≤ x * q → kept * w ≤ x
  unfolding kept
  kept_le m k x hx hm h = elim (held_position m k x hx hm) [
    | inl (n, e) ↦
        rw e (mul-le-mul_right w (half_even_le p (q * w) n base_pos (omega (arith, rw e at h))))
    | inr (v, ten, below, fewer) ↦
        le_trans
          (mul-le-mul_right w (
            half_even_le p (q * w) b base_pos
              (omega (arith, ap (λ z. b * (q * z)) ten, mul-le-mul_right q below))))
          (le_trans {m = b * 10 * v} (omega (arith, ap (λ z. b * z) ten))
            (le_of_mul-le-mul_right (omega (arith, fewer, h)) hq))
  ]

  -- What is kept is a value that the context holds, if p / q has no digit above the last kept one.
  kept-IsHeld : p < q * w * (b * 10) → (k : ℕ) × (m : ℕ) × (kept * w ≡ m * 10 ^ k) × (m ≤ b * 10)
  unfolding kept
  kept-IsHeld h = (
    weight.exponent,
    kept,
    ap (λ z. kept * z) weight.power,
    half_even_le p (q * w) (b * 10) base_pos (omega arith),
  )

bound_ten : (c : Context) → 10 ^ c.prec ≡ 10 ^ (c.prec - 1) * 10
bound_ten c = rw (pow_split c.prec 1 c.prec_pos) refl

module _ (c : Context) (p q : ℕ) (hq : 0 < q) where
  power-IsWeight : (b : ℕ) → b ≡ 10 ^ c.prec → IsWeight b p q (digit_weight p b p q 1)
  power-IsWeight b e = digit_weight-IsWeight p b p q 1 0 refl (inl refl)

  -- Rounding never passes a held value: what is at least x before it is at least x after it.
  pub round_ratio_ge : {x : ℕ} → IsHeld c x → x * q ≤ p → x ≤ round_ratio c p q
  unfolding round_ratio kept
  round_ratio_ge {x} held h = rw (bound_ten c) (
      kept_ge (10 ^ (c.prec - 1)) p q _ hq (power-IsWeight _ (sym (bound_ten c))) held.coefficient
        held.shift x held.value (rw (bound_ten c) at held.within) h)

  pub round_ratio_le : {x : ℕ} → IsHeld c x → p ≤ x * q → round_ratio c p q ≤ x
  unfolding round_ratio kept
  round_ratio_le {x} held h = rw (bound_ten c) (
      kept_le (10 ^ (c.prec - 1)) p q _ hq (power-IsWeight _ (sym (bound_ten c))) held.coefficient
        held.shift x held.value (rw (bound_ten c) at held.within) h)

  pub round_ratio-IsHeld : IsHeld c (round_ratio c p q)
  unfolding round_ratio kept
  round_ratio-IsHeld =
      let (k, m, e, h) =
        kept-IsHeld (10 ^ (c.prec - 1)) p q (digit_weight p (10 ^ (c.prec - 1) * 10) p q 1) hq
          (power-IsWeight _ (sym (bound_ten c)))
          (digit_weight_enough p _ p q 1 hq (omega arith)
            (omega (arith, one-le-pow (c.prec - 1) 10 (omega arith))) (omega arith)) in
      record { shift = k; coefficient = m; value = rw (bound_ten c) e; within = rw (bound_ten c) h }
