-- ===== src/Cash/Verified.antt =====
-- The sleeves after a reconciliation of the quarantined payouts.
use Prim.Native.String.{String}
use text.Mathlib.TextEquality.{eq_iff}
use polymarket_live_copy.Prelude.{
  ◌≡◌, refl, ap, inl, inr, true, false, ◌||◌, List, [], ◌∷◌, ◌++◌, ok, arith, Result-cases,
}
use polymarket_live_copy.Prelude.Int.{ℤ, ◌≤ℤ◌}
use polymarket_live_copy.Prelude.Table.{Table}
use polymarket_live_copy.Decimal.{Context, Decimal}
use polymarket_live_copy.Store.{Ledger}
use polymarket_live_copy.Cash.{
  invalid_authenticated_collateral, Verification, Sleeve, natural, is_verified, is_blocked,
  is_pending, pending_among,
}
use polymarket_live_copy.Cash.Covered.{natural-eq-ok}
use polymarket_live_copy.Cash.Reconcile.{
  CreditReport, CreditTally, no_credit, physical_cash_credit_verified, pending_receipts,
  verify_rows, verify_sleeve, verify_sleeves, count_pending, add_credits, settle_credits,
  reconcile_redeemed_cash_credit_quarantines,
}

is_verified-append :
    (k : String) (vs ws : List Verification)
    → is_verified k (vs ++ ws) ≡ (is_verified k vs || is_verified k ws)
unfolding is_verified
is_verified-append k [] ws = refl
is_verified-append k (v ∷ vs) ws = ground (arith, is_verified-append k vs ws)

-- Each row that is pending gets its verification.
verify_rows-covers :
    (physical : Decimal) (at : ℤ) (s : Sleeve) (rows : Table Decimal) (k : String)
    → is_blocked k rows ≡ true
    → is_pending s k ≡ true
    → is_verified k (verify_rows physical at (pending_among s rows)) ≡ true
unfolding is_blocked is_verified verify_rows pending_among
verify_rows-covers physical at s [] k here p = cc
verify_rows-covers physical at s ((j, x) ∷ rest) k here p =
    ground (arith, eq_iff j k, verify_rows-covers physical at s rest k)

module _ (physical : Decimal) (at : ℤ) (s : Sleeve) where
  verified_key :
      (k : String)
      → is_blocked k s.quarantines ≡ true
      → is_pending (verify_sleeve physical at s) k ≡ false
  unfolding is_pending verify_sleeve pending_receipts
  verified_key k here = ground (
    arith,
    is_verified-append k s.verifications (verify_rows physical at (pending_among s s.quarantines)),
    verify_rows-covers physical at s s.quarantines k here,
  )

  pending_among-verified :
      (rows : Table Decimal)
      → ((k : String) → is_blocked k rows ≡ true → is_blocked k s.quarantines ≡ true)
      → pending_among (verify_sleeve physical at s) rows ≡ []
  unfolding pending_among is_blocked
  pending_among-verified [] h = refl
  pending_among-verified ((k, x) ∷ rest) h =
      rw
        (
          verified_key k (h k (ground (arith, eq_iff k k))),
          pending_among-verified rest (λ j there. h j (ground arith)),
        )
        refl

  verify_sleeve-pending : pending_receipts (verify_sleeve physical at s) ≡ []
  unfolding pending_receipts verify_sleeve
  verify_sleeve-pending = pending_among-verified s.quarantines (λ k h. h)

verify_sleeves-pending :
    (physical : Decimal) (at : ℤ) (sleeves : List Sleeve)
    → count_pending (verify_sleeves physical at sleeves) ≡ 0
unfolding count_pending verify_sleeves
verify_sleeves-pending physical at [] = refl
verify_sleeves-pending physical at (s ∷ rest) =
    rw (verify_sleeve-pending physical at s, verify_sleeves-pending physical at rest) refl

-- The ledgers of the sleeves.
unfoldable pub ledgers : List Sleeve → List Ledger
ledgers [] = []
ledgers (s ∷ rest) = s.ledger ∷ ledgers rest

verify_sleeves-ledgers :
    (physical : Decimal) (at : ℤ) (sleeves : List Sleeve)
    → ledgers (verify_sleeves physical at sleeves) ≡ ledgers sleeves
unfolding ledgers verify_sleeves verify_sleeve
verify_sleeves-ledgers physical at [] = refl
verify_sleeves-ledgers physical at (s ∷ rest) =
    ap (λ t. s.ledger ∷ t) (verify_sleeves-ledgers physical at rest)

-- A reconciliation that reports its payouts as verified was read from sleeves whose cash, less the
-- adjustments and the permanent blocks, the authenticated collateral covers; it leaves no payout
-- pending in any sleeve, counts each one that was, and changes no ledger.
pub verified_credits_are_covered :
    (c : Context) (collateral : Decimal) (at : ℤ) (sleeves after : List Sleeve) (t : CreditTally)
    (r : CreditReport)
    → reconcile_redeemed_cash_credit_quarantines c collateral at sleeves ≡ ok (r, after)
    → add_credits c no_credit sleeves ≡ ok t
    → r.state ≡ physical_cash_credit_verified
    → (t.raw_high ≤ℤ collateral)
      × (count_pending after ≡ 0)
      × (r.verified_receipt_count ≡ count_pending sleeves)
      × (ledgers after ≡ ledgers sleeves)
unfolding reconcile_redeemed_cash_credit_quarantines settle_credits
verified_credits_are_covered c collateral at sleeves after t r h ht hs =
    elim (Result-cases (natural invalid_authenticated_collateral collateral)) [
      | inl (e, refused) ↦ absurd (ground arith)
      | inr (physical, ep) ↦ ground (
        arith,
        natural-eq-ok invalid_authenticated_collateral collateral ep,
        verify_sleeves-pending physical at sleeves,
        verify_sleeves-ledgers physical at sleeves,
      )
    ]
