-- ===== src/Cash/Covered.antt =====
-- What the cash snapshot of app/live_wallet_coordinator.py offers to a new BUY.
use polymarket_live_copy.Prelude.{
  ◌≡◌, ◌∙◌, inl, inr, List, [], ◌∷◌, ok, bind_returns, arith, sym, ap, subst, Result-cases,
  Bool-cases,
}
use polymarket_live_copy.Prelude.Int.{◌≤ℤ◌, ◌-ℤ◌, ltb_ℤ, int_laws}
use polymarket_live_copy.Decimal
use polymarket_live_copy.Decimal.{Context, Decimal, decimal_zero, add, sub}
use polymarket_live_copy.Decimal.Laws.{Held, add_nonneg, sub_exact}
use polymarket_live_copy.Cash.{
  CashError, invalid_buy_reservation, invalid_authenticated_collateral, invalid_cash_adjustment,
  Sleeve, natural, ledger_cash, buy_holds, sum_natural, active_buy_reservation, pending_quarantine,
  permanent_block,
}
use polymarket_live_copy.Cash.Holds.{HoldsSleeves, held_by_all, zero_plus, add_sleeves-held_by_all}
use polymarket_live_copy.Cash.Snapshot.{
  CashSnapshot, Tally, no_tally, add_sleeve, add_sleeves, take_snapshot,
  authenticated_account_cash_snapshot,
}

pub natural-eq-ok :
    (e : CashError) (d : Decimal) {x : Decimal} → natural e d ≡ ok x → (x ≡ d) × (decimal_zero ≤ℤ d)
unfolding natural
natural-eq-ok e d h = ground arith

module _ (c : Context) where
  pub sum_natural-nonneg :
      (e : CashError) (total : Decimal) (rows : List Decimal) {x : Decimal}
      → decimal_zero ≤ℤ total
      → sum_natural c e total rows ≡ ok x
      → decimal_zero ≤ℤ x
  unfolding sum_natural
  sum_natural-nonneg e total [] h r = ground arith
  sum_natural-nonneg e total (d ∷ rest) {x} h r =
      let (n, en, er) = bind_returns (natural e d) (λ n. sum_natural c e (add c total n) rest) r in
      let (same, pos) = natural-eq-ok e d en in
      sum_natural-nonneg e (add c total n) rest {x = x} (ground (arith, add_nonneg c total n)) er

  add_sleeve-reservations :
      (t : Tally) (s : Sleeve) {u : Tally}
      → decimal_zero ≤ℤ t.reservations
      → add_sleeve c t s ≡ ok u
      → decimal_zero ≤ℤ u.reservations
  unfolding add_sleeve active_buy_reservation
  add_sleeve-reservations t s {u} h r = elim (Result-cases (ledger_cash s.ledger)) [
    | inl (e, refused) ↦ absurd (ground arith)
    | inr (cash, e0) ↦ elim (Result-cases (natural invalid_cash_adjustment s.cash_adjustment_usd)) [
      | inl (e, refused) ↦ absurd (ground arith)
      | inr (adjustment, e1) ↦
          elim (Result-cases (
            sum_natural c invalid_buy_reservation decimal_zero (buy_holds s.ledger.reservations))) [
              | inl (e, refused) ↦ absurd (ground arith)
              | inr (holds, e2) ↦ elim (Result-cases (pending_quarantine c s)) [
                | inl (e, refused) ↦ absurd (ground arith)
                | inr (pending, e3) ↦ elim (Result-cases (permanent_block c s)) [
                  | inl (e, refused) ↦ absurd (ground arith)
                  | inr (permanent, e4) ↦
                      let n =
                        sum_natural-nonneg invalid_buy_reservation decimal_zero
                          (buy_holds s.ledger.reservations) {x = holds} (omega arith) e2 in
                      ground (arith, add_nonneg c t.reservations holds h n)
                ]
              ]
            ]
    ]
  ]

  add_sleeves-reservations :
      (t : Tally) (sleeves : List Sleeve) {u : Tally}
      → decimal_zero ≤ℤ t.reservations
      → add_sleeves c t sleeves ≡ ok u
      → decimal_zero ≤ℤ u.reservations
  unfolding add_sleeves
  add_sleeves-reservations t [] h r = ground arith
  add_sleeves-reservations t (s ∷ rest) {u} h r =
      let (v, ev, er) = bind_returns (add_sleeve c t s) (λ v. add_sleeves c v rest) r in
      add_sleeves-reservations v rest {u = u} (add_sleeve-reservations t s {u = v} h ev) er

offer :
    (collateral held : Decimal)
    → decimal_zero ≤ℤ collateral
    → decimal_zero ≤ℤ held
    → (decimal_zero ≤ℤ Decimal.max (collateral -ℤ held) decimal_zero)
      × (Decimal.max (collateral -ℤ held) decimal_zero ≤ℤ collateral)
offer collateral held nonneg holds = elim (Bool-cases (ltb_ℤ (collateral -ℤ held) decimal_zero)) [
  | inl over ↦ (ground arith, ground arith)
  | inr under ↦
      let z : Decimal.max (collateral -ℤ held) decimal_zero ≡ collateral -ℤ held = ground arith in
      (ground arith, rw z (omega int_laws))
]

-- Where the context holds the sums of the holds and what they leave exactly: a snapshot's
-- reservations are the cash that the active BUY orders of all ledgers hold, and it offers a new
-- BUY the authenticated collateral less that cash, or zero where the orders hold more. Neither the
-- offer nor the reservations are negative, and the offer is at most the collateral.
pub available_covers_reservations :
    (c : Context) (collateral : Decimal) (sleeves : List Sleeve) (s : CashSnapshot)
    → authenticated_account_cash_snapshot c collateral sleeves ≡ ok s
    → HoldsSleeves c decimal_zero sleeves
    → Held c (collateral -ℤ held_by_all sleeves)
    → (s.active_buy_reservations_usd ≡ held_by_all sleeves)
      × (s.available_for_new_buy_usd ≡ Decimal.max (collateral -ℤ held_by_all sleeves) decimal_zero)
      × (decimal_zero ≤ℤ s.active_buy_reservations_usd)
      × (decimal_zero ≤ℤ s.available_for_new_buy_usd)
      × (s.available_for_new_buy_usd ≤ℤ collateral)
unfolding authenticated_account_cash_snapshot take_snapshot
available_covers_reservations c collateral sleeves s h sums x =
    elim (Result-cases (natural invalid_authenticated_collateral collateral)) [
      | inl (e, refused) ↦ absurd (ground arith)
      | inr (physical, ep) ↦ elim (Result-cases (add_sleeves c no_tally sleeves)) [
        | inl (e, refused) ↦ absurd (ground arith)
        | inr (t, et) ↦
            let (same, nonneg) = natural-eq-ok invalid_authenticated_collateral collateral ep in
            let holds = add_sleeves-reservations c no_tally sleeves {u = t} (omega arith) et in
            let total : t.reservations ≡ held_by_all sleeves =
              add_sleeves-held_by_all c no_tally sleeves t sums et
              ∙ zero_plus c (held_by_all sleeves) in
            let es : take_snapshot c physical t ≡ s = ground arith in
            let er : s.active_buy_reservations_usd ≡ held_by_all sleeves =
              sym (ap (λ s. s.active_buy_reservations_usd) es) ∙ total in
            let ea : s.available_for_new_buy_usd
                ≡ Decimal.max (sub c physical t.reservations) decimal_zero =
              sym (ap (λ s. s.available_for_new_buy_usd) es) in
            let left : sub c physical t.reservations ≡ collateral -ℤ held_by_all sleeves =
              ap (λ v. sub c v t.reservations) same
              ∙ ap (sub c collateral) total
              ∙ sub_exact c collateral (held_by_all sleeves) x in
            let offered = ea ∙ ap (λ v. Decimal.max v decimal_zero) left in
            let held_nonneg = subst (λ v. decimal_zero ≤ℤ v) total holds in
            let bounds = offer collateral (held_by_all sleeves) nonneg held_nonneg in
            (
              er,
              offered,
              subst (λ v. decimal_zero ≤ℤ v) (sym er) held_nonneg,
              subst (λ v. decimal_zero ≤ℤ v) (sym offered) bounds.0,
              subst (λ v. v ≤ℤ collateral) (sym offered) bounds.1,
            )
      ]
    ]
