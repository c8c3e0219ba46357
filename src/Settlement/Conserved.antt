-- ===== src/Settlement/Conserved.antt =====
-- Cash, cost basis and realised profit in four settlements of app/cd90_live_copy.py.
use Prim.Native.String.{String}
use polymarket_live_copy.Prelude.{◌≡◌, sym, subst, ◌⊎◌, inl, inr, some, arith}
use polymarket_live_copy.Prelude.Int.{◌+ℤ◌, ◌-ℤ◌, int_laws}
use polymarket_live_copy.Decimal.{Context, Decimal}
use polymarket_live_copy.Decimal.Laws.{Held, add_exact, sub_exact}
use polymarket_live_copy.Store.{Account}
use polymarket_live_copy.Settlement.{Register, Holding}
use polymarket_live_copy.Settlement.Settle.{write_off, total_cost, credit, write_down}
use polymarket_live_copy.Settlement.Booked.{
  Settles, Settles-IsBooked, IsEmptyAt, write_off-empty, write_off-keeps,
}

-- The context holds every sum and difference of a settlement.
pub record IsExactSettlement (c : Context) (h : Holding) (payout : Decimal) (a : Account)
    : Type 0 where
  pub cost : Held c (h.primary_cost_basis_usd +ℤ h.secondary_cost_basis_usd)
  pub cash : Held c (a.cash_usd +ℤ payout)
  pub gross : Held c (a.realized_pnl_usd +ℤ payout)
  pub net :
      Held c
        (a.realized_pnl_usd +ℤ payout -ℤ (h.primary_cost_basis_usd +ℤ h.secondary_cost_basis_usd))
  pub loss : Held c (a.realized_pnl_usd -ℤ (h.primary_cost_basis_usd +ℤ h.secondary_cost_basis_usd))

pub booked-worth :
    (c : Context) (h : Holding) (payout : Decimal) (a after : Account)
    → IsExactSettlement c h payout a
    → (after ≡ credit c payout (total_cost c h) a) ⊎ (after ≡ write_down c (total_cost c h) a)
    → after.cash_usd -ℤ after.realized_pnl_usd
      ≡ a.cash_usd +ℤ (h.primary_cost_basis_usd +ℤ h.secondary_cost_basis_usd) -ℤ a.realized_pnl_usd
unfolding credit write_down total_cost
booked-worth c h payout a after x (inl e) =
    rw
      (
        e,
        add_exact c _ _ x.cost,
        add_exact c _ _ x.cash,
        add_exact c _ _ x.gross,
        sub_exact c _ _ x.net,
      )
      (omega int_laws)
booked-worth c h payout a after x (inr e) =
    rw (e, add_exact c _ _ x.cost, sub_exact c _ _ x.loss) (omega int_laws)

-- Where the context holds the sums exactly, a settlement that succeeds, by
-- settle_redeemed_condition, settle_externally_verified_redemption,
-- settle_verified_losing_condition_from_terminal or settle_losing_condition, keeps the cash plus
-- the cost basis less the realised profit, with the cost basis that was read before it and none
-- after it, and leaves nothing of either position.
pub settlement_conserves_cost :
    (c : Context) (condition : String) (h : Holding) (payout : Decimal) (w w' : Register)
    (a : Account)
    → Settles c condition h payout w w'
    → w.ledger.account ≡ some a
    → IsExactSettlement c h payout a
    → (after : Account) × (w'.ledger.account ≡ some after)
      × (after.cash_usd -ℤ after.realized_pnl_usd
          ≡ a.cash_usd
            +ℤ (h.primary_cost_basis_usd +ℤ h.secondary_cost_basis_usd)
            -ℤ a.realized_pnl_usd)
      × IsEmptyAt h.primary_token_id w'.ledger.positions
      × IsEmptyAt h.secondary_token_id w'.ledger.positions
settlement_conserves_cost c condition h payout w w' a s found x =
    let b = Settles-IsBooked c condition h payout w w' s in
    let same : b.account ≡ a = ground (arith, b.found) in
    let first = write_off "" h.primary_token_id w.ledger.positions in
    (
      b.account_after,
      b.account_value,
      booked-worth c h payout a b.account_after x (rw same at b.booked),
      subst (IsEmptyAt h.primary_token_id) (sym b.positions) (
          write_off-keeps "" h.secondary_token_id h.primary_token_id first
            (write_off-empty "" h.primary_token_id w.ledger.positions)),
      subst (IsEmptyAt h.secondary_token_id) (sym b.positions)
          (write_off-empty "" h.secondary_token_id first),
    )
