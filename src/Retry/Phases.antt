-- ===== src/Retry/Phases.antt =====
-- The phases of a bounded retry of app/cd90_live_copy.py over time.
use polymarket_live_copy.Prelude.{ℕ, ◌≤◌, ◌≡◌, ◌⊎◌, inl, inr, ok, raise, arith, Bool-cases}
use polymarket_live_copy.Prelude.Int.{ℤ, pos, ◌≤ℤ◌, ◌<ℤ◌, leb_ℤ, ltb_ℤ}
use polymarket_live_copy.Retry.{
  RetryPhase, normal_follow, adverse_price_protected, expired_retry_window,
  negative_source_action_age, bounded_retry_phase,
}

-- The order of the phases.
abbrev pub rank : RetryPhase → ℕ
rank normal_follow = 0
rank adverse_price_protected = 1
rank expired_retry_window = 2

-- The ages of a phase, in milliseconds: the first five seconds, the rest of the first day, and all
-- that is older.
abbrev pub InWindow : RetryPhase → ℤ → Type 0
InWindow normal_follow age = (pos 0 ≤ℤ age) × (age ≤ℤ pos 5000)
InWindow adverse_price_protected age = (pos 5000 <ℤ age) × (age ≤ℤ pos 86400000)
InWindow expired_retry_window age = pos 86400000 <ℤ age

phase_of :
    (age : ℤ) → pos 0 ≤ℤ age → (p : RetryPhase) × (bounded_retry_phase age ≡ ok p) × InWindow p age
unfolding bounded_retry_phase
phase_of age h = elim (Bool-cases (leb_ℤ age (pos 5000))) [
  | inl early ↦ (normal_follow, ground arith, (h, ground arith))
  | inr old ↦ elim (Bool-cases (leb_ℤ age (pos 86400000))) [
    | inl within ↦ (adverse_price_protected, ground arith, (ground arith, ground arith))
    | inr out ↦ (expired_retry_window, ground arith, ground arith)
  ]
]

rank_le :
    (p q : RetryPhase) (age later : ℤ)
    → age ≤ℤ later
    → InWindow p age
    → InWindow q later
    → rank p ≤ rank q
rank_le normal_follow q age later h a b = omega arith
rank_le adverse_price_protected normal_follow age later h a b = omega arith
rank_le adverse_price_protected adverse_price_protected age later h a b = omega arith
rank_le adverse_price_protected expired_retry_window age later h a b = omega arith
rank_le expired_retry_window normal_follow age later h a b = omega arith
rank_le expired_retry_window adverse_price_protected age later h a b = omega arith
rank_le expired_retry_window expired_retry_window age later h a b = omega arith

-- A negative age is refused. Any other age is in exactly the phase of its window, normal up to 5
-- seconds, price protected up to 24 hours and expired after them, and so is any later age, in the
-- same phase or a later one.
pub retry_phase_advances :
    (age later : ℤ)
    → age ≤ℤ later
    → ((age <ℤ pos 0) × (bounded_retry_phase age ≡ raise negative_source_action_age))
      ⊎ ((p : RetryPhase) × (bounded_retry_phase age ≡ ok p)
          × InWindow p age
          × ((q : RetryPhase) × (bounded_retry_phase later ≡ ok q)
              × InWindow q later
              × (rank p ≤ rank q)))
unfolding bounded_retry_phase
retry_phase_advances age later h = elim (Bool-cases (ltb_ℤ age (pos 0))) [
  | inl early ↦ inl (ground arith, ground arith)
  | inr started ↦
      let (p, ep, wp) = phase_of age (ground arith) in
      let (q, eq, wq) = phase_of later (ground arith) in
      inr (p, ep, wp, (q, eq, wq, rank_le p q age later h wp wq))
]
