-- ===== src/Cash/Holds.antt =====
-- The cash that the active BUY orders of the ledgers hold, as exact integers, and the sums of
-- app/live_wallet_coordinator.py over them.
use polymarket_live_copy.Prelude.{
  ◌≡◌, sym, subst, ap, ◌&&◌, ◌∙◌, Bool, true, false, List, [], ◌∷◌, ok, bind_returns, arith,
  Result-cases, Bool-cases, inl, inr,
}
use polymarket_live_copy.Prelude.Int.{ℤ, ◌+ℤ◌, int_laws, eq_of_parts}
use polymarket_live_copy.Prelude.Table.{Table}
use polymarket_live_copy.Decimal.{Context, Decimal, decimal_zero, add}
use polymarket_live_copy.Decimal.Laws.{Held, add_exact}
use polymarket_live_copy.Sizing.{Side, buy, sell, other_side, is_buy}
use polymarket_live_copy.Store.{Reservation}
use polymarket_live_copy.Cash.{
  CashError, invalid_buy_reservation, invalid_cash_adjustment, Sleeve, natural, ledger_cash,
  buy_holds, sum_natural, active_buy_reservation, pending_quarantine, permanent_block,
}
use polymarket_live_copy.Cash.Snapshot.{Tally, add_sleeve, add_sleeves}

-- The cash that an order holds: that of an active BUY, and none of a SELL or of a closed order.
abbrev pub hold : Side → Bool → Decimal → ℤ
hold buy true cash = cash
hold buy false cash = decimal_zero
hold sell active cash = decimal_zero
hold other_side active cash = decimal_zero

unfoldable pub held_cash : Table Reservation → ℤ
held_cash [] = decimal_zero
held_cash ((_, r) ∷ rest) = hold r.side r.active r.cash_reserved_usd +ℤ held_cash rest

unfoldable pub held_by_all : List Sleeve → ℤ
held_by_all [] = decimal_zero
held_by_all (s ∷ rest) = held_cash s.ledger.reservations +ℤ held_by_all rest

module _ (c : Context) where
  -- The context holds the running sums over the orders of a ledger, and over the ledgers.
  abbrev pub HoldsOrders : ℤ → Table Reservation → Type 0
  HoldsOrders total [] = Unit
  HoldsOrders total ((_, r) ∷ rest) =
      Held c (total +ℤ hold r.side r.active r.cash_reserved_usd)
      × HoldsOrders (total +ℤ hold r.side r.active r.cash_reserved_usd) rest

  abbrev pub HoldsSleeves : ℤ → List Sleeve → Type 0
  HoldsSleeves total [] = Unit
  HoldsSleeves total (s ∷ rest) =
      HoldsOrders decimal_zero s.ledger.reservations
      × Held c (total +ℤ held_cash s.ledger.reservations)
      × HoldsSleeves (total +ℤ held_cash s.ledger.reservations) rest

  plus_zero : (x : ℤ) → x +ℤ decimal_zero ≡ x
  plus_zero x = omega int_laws

  pub zero_plus : (x : ℤ) → decimal_zero +ℤ x ≡ x
  zero_plus x = eq_of_parts (decimal_zero +ℤ x) x (omega int_laws)

  plus_assoc : (x y z : ℤ) → x +ℤ y +ℤ z ≡ x +ℤ (y +ℤ z)
  plus_assoc x y z = omega int_laws

  natural-eq : (e : CashError) (d x : Decimal) → natural e d ≡ ok x → x ≡ d
  unfolding natural
  natural-eq e d x h = ground arith

  hold-taken : (s : Side) (a : Bool) (x : Decimal) → is_buy s && a ≡ true → hold s a x ≡ x
  hold-taken s a x h = ground arith

  hold-skipped :
      (s : Side) (a : Bool) (x : Decimal) → is_buy s && a ≡ false → hold s a x ≡ decimal_zero
  hold-skipped s a x h = ground arith

  sum_natural-held_cash :
      (e : CashError) (total : ℤ) (rows : Table Reservation) (x : Decimal)
      → HoldsOrders total rows
      → sum_natural c e total (buy_holds rows) ≡ ok x
      → x ≡ total +ℤ held_cash rows
  unfolding sum_natural buy_holds held_cash
  sum_natural-held_cash e total [] x exact h = ground (arith, plus_zero total)
  sum_natural-held_cash e total ((k, r) ∷ rest) x (first, others) h =
      elim (Bool-cases (is_buy r.side && r.active)) [
        | inl taken ↦
            let cash = hold-taken r.side r.active r.cash_reserved_usd taken in
            let (n, en, er) =
              bind_returns (natural e r.cash_reserved_usd)
                (λ n. sum_natural c e (add c total n) (buy_holds rest)) (rw taken at h) in
            let same : n ≡ hold r.side r.active r.cash_reserved_usd =
              natural-eq e r.cash_reserved_usd n en ∙ sym cash in
            let sum : add c total n ≡ total +ℤ hold r.side r.active r.cash_reserved_usd =
              ap (add c total) same ∙ add_exact c total _ first in
            sum_natural-held_cash e (total +ℤ hold r.side r.active r.cash_reserved_usd) rest x
              others (sym (ap (λ t. sum_natural c e t (buy_holds rest)) sum) ∙ er)
            ∙ plus_assoc total _ _
        | inr skipped ↦
            let none_held : total ≡ total +ℤ hold r.side r.active r.cash_reserved_usd = sym (
              ap (λ v. total +ℤ v) (hold-skipped r.side r.active r.cash_reserved_usd skipped)
              ∙ plus_zero total) in
            sum_natural-held_cash e (total +ℤ hold r.side r.active r.cash_reserved_usd) rest x
              others
              (sym (ap (λ t. sum_natural c e t (buy_holds rest)) none_held) ∙ (rw skipped at h))
            ∙ plus_assoc total _ _
      ]

  add_sleeve-held_cash :
      (t : Tally) (s : Sleeve) (u : Tally)
      → HoldsOrders decimal_zero s.ledger.reservations
      → Held c (t.reservations +ℤ held_cash s.ledger.reservations)
      → add_sleeve c t s ≡ ok u
      → u.reservations ≡ t.reservations +ℤ held_cash s.ledger.reservations
  unfolding add_sleeve active_buy_reservation
  add_sleeve-held_cash t s u orders sum r = elim (Result-cases (ledger_cash s.ledger)) [
    | inl (e, refused) ↦ absurd (ground arith)
    | inr (cash, e0) ↦ elim (Result-cases (natural invalid_cash_adjustment s.cash_adjustment_usd)) [
      | inl (e, refused) ↦ absurd (ground arith)
      | inr (adjustment, e1) ↦
          elim (Result-cases (
            sum_natural c invalid_buy_reservation decimal_zero (buy_holds s.ledger.reservations))) [
              | inl (e, refused) ↦ absurd (ground arith)
              | inr (holds, e2) ↦ elim (Result-cases (pending_quarantine c s)) [
                | inl (e, refused) ↦ absurd (ground arith)
                | inr (pending, e3) ↦ elim (Result-cases (permanent_block c s)) [
                  | inl (e, refused) ↦ absurd (ground arith)
                  | inr (permanent, e4) ↦
                      let exact : holds ≡ held_cash s.ledger.reservations =
                        sum_natural-held_cash invalid_buy_reservation decimal_zero
                          s.ledger.reservations holds orders e2
                        ∙ zero_plus (held_cash s.ledger.reservations) in
                      let added : u.reservations ≡ add c t.reservations holds = ground arith in
                      added
                      ∙ ap (add c t.reservations) exact
                      ∙ add_exact c t.reservations (held_cash s.ledger.reservations) sum
                ]
              ]
            ]
    ]
  ]

  pub add_sleeves-held_by_all :
      (t : Tally) (sleeves : List Sleeve) (u : Tally)
      → HoldsSleeves t.reservations sleeves
      → add_sleeves c t sleeves ≡ ok u
      → u.reservations ≡ t.reservations +ℤ held_by_all sleeves
  unfolding add_sleeves held_by_all
  add_sleeves-held_by_all t [] u exact r = ground (arith, plus_zero t.reservations)
  add_sleeves-held_by_all t (s ∷ rest) u (orders, sum, others) r =
      let (v, ev, er) = bind_returns (add_sleeve c t s) (λ v. add_sleeves c v rest) r in
      let first = add_sleeve-held_cash t s v orders sum ev in
      add_sleeves-held_by_all v rest u (subst (λ x. HoldsSleeves x rest) (sym first) others) er
      ∙ ap (λ x. x +ℤ held_by_all rest) first
      ∙ plus_assoc t.reservations _ _
