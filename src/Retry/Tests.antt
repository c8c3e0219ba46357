-- ===== src/Retry/Tests.antt =====
-- Runs of the bounded retry policy.
use polymarket_live_copy.Prelude.{ℕ, ◌*◌, ◌^◌, ◌≤◌, ◌≡◌, refl, Result, ok, arith, ◌⊎◌, inl, raise}
use polymarket_live_copy.Prelude.Int.{pos, ◌<ℤ◌, ◌+ℤ◌, ◌-ℤ◌}
use polymarket_live_copy.Decimal.{
  Context, Decimal, literal, unit, mul, div, add, sub, round, round_ratio,
}
use polymarket_live_copy.Decimal.Rounding.{IsHeld}
use polymarket_live_copy.Sizing.{buy}
use polymarket_live_copy.Retry.{
  RetryError, negative_source_action_age, RetryPhase, bounded_retry_phase, floor_value,
  ceiling_value, highest_price, lowest_price, check_price_input, bounded_retry_price_boundary,
}
use polymarket_live_copy.Retry.Phases.{rank, InWindow, retry_phase_advances}
use polymarket_live_copy.Retry.Boundary.{
  slipped_price, price_limit, IsNearest, price_boundary_pinned,
}

-- 28 digits, as in the default context, and 40 places.
abbrev context : Context
context = record { prec = 28; places = 40; prec_pos = omega arith }

abbrev cents : ℕ → Decimal
cents n = pos (n * 10 ^ 38)

run : Result RetryError Decimal
unfolding bounded_retry_price_boundary check_price_input highest_price lowest_price floor_value
    ceiling_value mul div add sub round round_ratio ◌+ℤ◌ ◌-ℤ◌ literal unit
run = bounded_retry_price_boundary context buy (cents 50) (cents 1)

-- 0.50 with the slippage is 0.552421, which the tick brings down to 0.55.
boundary_run : bounded_retry_price_boundary context buy (cents 50) (cents 1) ≡ ok (cents 55)
unfolding run
boundary_run = refl

retry_phase_advances_example :
    ((pos 4000 <ℤ pos 0) × (bounded_retry_phase (pos 4000) ≡ raise negative_source_action_age))
    ⊎ ((p : RetryPhase) × (bounded_retry_phase (pos 4000) ≡ ok p)
        × InWindow p (pos 4000)
        × ((q : RetryPhase) × (bounded_retry_phase (pos 6000) ≡ ok q)
            × InWindow q (pos 6000)
            × (rank p ≤ rank q)))
retry_phase_advances_example = retry_phase_advances (pos 4000) (pos 6000) (omega arith)

-- 0.50 is 5 * 10 ^ 33 million least values.
abbrev half : ℕ
half = 5 * 10 ^ 33

half_one : half * 1000000 ≤ unit context
unfolding unit
half_one = omega arith

half-IsHeld : IsHeld context (slipped_price buy half)
half-IsHeld = record {
  shift = 33;
  coefficient = 5524210;
  value = omega arith;
  within = omega arith;
}

price_boundary_pinned_example :
    (n : ℕ) × (bounded_retry_price_boundary context buy (pos (half * 1000000)) (pos (10 ^ 38))
      ≡ ok (pos (n * 10 ^ 38)))
    × IsNearest buy (price_limit context buy half) (10 ^ 38) (n * 10 ^ 38)
price_boundary_pinned_example =
    price_boundary_pinned context buy half 38 2 (inl refl) (omega arith) half_one refl (omega arith)
      (omega arith) (omega arith) half-IsHeld
