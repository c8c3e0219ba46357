-- ===== src/Settlement/Share.antt =====
-- `apply_shared_condition_settlement` of app/cd90_live_copy.py: its books, and a second call.
use Prim.Native.String.{String}
use polymarket_live_copy.Prelude.{
  ℕ, ◌≡◌, ◌≢◌, refl, ap, sym, subst, ◌∙◌, ◌⊎◌, inl, inr, true, false, Option, none, some, Result,
  ok, raise, arith, Option-cases,
}
use polymarket_live_copy.Prelude.Int.{◌+ℤ◌, ◌-ℤ◌, eq_of_parts}
use polymarket_live_copy.Prelude.Table.{Table, lookup}
use polymarket_live_copy.Decimal.{Context, Decimal, add}
use polymarket_live_copy.Decimal.Laws.{add_exact}
use polymarket_live_copy.Store.{Account, Position, Ledger}
use polymarket_live_copy.Store.Fills.{position_of}
use polymarket_live_copy.Settlement.{
  SettlementError, Register, Holding, append_redemption_transition,
}
use polymarket_live_copy.Settlement.Receipts.{insert_receipt}
use polymarket_live_copy.Settlement.Settle.{
  write_off, write_settlement, close_receipt, total_cost, credit,
}
use polymarket_live_copy.Settlement.Handoff.{
  SharedTerminal, SharedAllocation, apply_shared_condition_settlement, settle_share,
  check_allocation, check_mapping, check_inventory, matches, confirm_settlement, found_terminal,
  blocks_handoff, write_receipt, state_of,
}
use polymarket_live_copy.Settlement.Booked.{IsEmptyAt, write_off-empty, write_off-keeps}
use polymarket_live_copy.Settlement.{holding_of}
use polymarket_live_copy.Settlement.Receipts.{same_value}
use polymarket_live_copy.Settlement.Conserved.{IsExactSettlement, booked-worth}

-- How a share is settled.
pub record IsBookedShare (c : Context) (condition : String) (terminal : SharedTerminal)
    (a : SharedAllocation) (hash : Option String) (now : ℕ) (details : String) (w w' : Register)
    : Type 0 where
  pub account : Account
  pub allocated : check_allocation condition terminal a ≡ ok tt
  pub mapped : check_mapping condition a w ≡ ok tt
  pub held : check_inventory condition a w.ledger ≡ ok tt
  pub fresh : found_terminal c (lookup condition w.receipts) ≡ none
  pub free : blocks_handoff (lookup condition w.receipts) ≡ false
  pub found : w.ledger.account ≡ some account
  pub result :
      w'
      ≡ append_redemption_transition condition
          (state_of terminal)
          "COORDINATOR_FROZEN_SHARED_WALLET_ALLOCATION"
          now
          a.inventory_hash
          details
          (write_receipt condition terminal a.payout_usd hash now (
            write_settlement condition a.primary_token_id a.secondary_token_id
              (credit c a.payout_usd
                (add c a.primary_cost_basis_usd a.secondary_cost_basis_usd)
                account)
              w))

pub unit_cases :
    (m : Result SettlementError (Unit {0})) → ((e : SettlementError) × (m ≡ raise e)) ⊎ (m ≡ ok tt)
unit_cases (raise e) = inl (e, refl)
unit_cases (ok tt) = inr refl

confirm_settlement-false :
    (condition : String) (f t : SharedTerminal) (a : SharedAllocation) (w w' : Register)
    → confirm_settlement condition f t a w ≢ ok (true, w')
unfolding confirm_settlement
confirm_settlement-false condition f t a w w' h = ground arith

pub apply_shared-IsBookedShare :
    (c : Context) (condition : String) (terminal : SharedTerminal) (a : SharedAllocation)
    (hash : Option String) (now : ℕ) (details : String) (w w' : Register)
    → apply_shared_condition_settlement c condition terminal a hash now details w ≡ ok (true, w')
    → IsBookedShare c condition terminal a hash now details w w'
unfolding apply_shared_condition_settlement settle_share
apply_shared-IsBookedShare c condition terminal a hash now details w w' h =
    elim (unit_cases (check_allocation condition terminal a)) [
      | inl (e, refused) ↦ absurd (ground arith)
      | inr allocated ↦ elim (unit_cases (check_mapping condition a w)) [
        | inl (e, refused) ↦ absurd (ground arith)
        | inr mapped ↦ elim (Option-cases (found_terminal c (lookup condition w.receipts))) [
          | inr (t, there) ↦
              absurd (ground (arith, confirm_settlement-false condition t terminal a w w'))
          | inl fresh ↦ elim (unit_cases (check_inventory condition a w.ledger)) [
            | inl (e, refused) ↦ absurd (ground arith)
            | inr held ↦ elim (Option-cases w.ledger.account) [
              | inl missing ↦ absurd (ground arith)
              | inr (account, found) ↦ record {
                account = account;
                allocated = allocated;
                mapped = mapped;
                held = held;
                fresh = fresh;
                free = ground arith;
                found = found;
                result = ground arith;
              }
            ]
          ]
        ]
      ]
    ]

write_receipt-ledger :
    (condition : String) (terminal : SharedTerminal) (payout : Decimal) (hash : Option String)
    (now : ℕ) (w : Register)
    → (write_receipt condition terminal payout hash now w).ledger ≡ w.ledger
unfolding write_receipt close_receipt insert_receipt
write_receipt-ledger condition terminal payout hash now w = ground arith

-- The books that a share writes.
pub shared-ledger :
    (c : Context) (condition : String) (terminal : SharedTerminal) (a : SharedAllocation)
    (hash : Option String) (now : ℕ) (details : String) (w w' : Register)
    (s : IsBookedShare c condition terminal a hash now details w w')
    → (w'.ledger.account
        ≡ some (
            credit c a.payout_usd
              (add c a.primary_cost_basis_usd a.secondary_cost_basis_usd)
              s.account))
      × (w'.ledger.positions
          ≡ write_off condition a.secondary_token_id
              (write_off condition a.primary_token_id w.ledger.positions))
unfolding append_redemption_transition write_settlement
shared-ledger c condition terminal a hash now details w w' s =
    let written =
      write_settlement condition a.primary_token_id a.secondary_token_id
        (credit c a.payout_usd (add c a.primary_cost_basis_usd a.secondary_cost_basis_usd)
          s.account)
        w in
    let e = write_receipt-ledger condition terminal a.payout_usd hash now written in
    (
      ap (λ v. v.ledger.account) s.result ∙ ap (λ l. l.account) e,
      ap (λ v. v.ledger.positions) s.result ∙ ap (λ l. l.positions) e,
    )

same_value-eq : (x y : Decimal) → same_value x y ≡ true → x ≡ y
same_value-eq x y h = eq_of_parts x y (ground arith)

-- The allocation is what the ledger holds.
abbrev pub HoldsShare : SharedAllocation → Table Position → Type 0
HoldsShare a rows =
    ((position_of (lookup a.primary_token_id rows)).cost_basis_usd ≡ a.primary_cost_basis_usd)
    × ((position_of (lookup a.secondary_token_id rows)).cost_basis_usd ≡ a.secondary_cost_basis_usd)

check_inventory-HoldsShare :
    (condition : String) (a : SharedAllocation) (l : Ledger)
    → check_inventory condition a l ≡ ok tt
    → HoldsShare a l.positions
unfolding check_inventory matches
check_inventory-HoldsShare condition a l h = ground (
  arith,
  same_value-eq (position_of (lookup a.primary_token_id l.positions)).cost_basis_usd
      a.primary_cost_basis_usd,
  same_value-eq (position_of (lookup a.secondary_token_id l.positions)).cost_basis_usd
      a.secondary_cost_basis_usd,
)

pub shared-empty :
    (condition : String) (a : SharedAllocation) (rows : Table Position)
    → IsEmptyAt a.primary_token_id
        (write_off condition a.secondary_token_id (write_off condition a.primary_token_id rows))
      × IsEmptyAt a.secondary_token_id
          (write_off condition a.secondary_token_id (write_off condition a.primary_token_id rows))
shared-empty condition a rows =
    let first = write_off condition a.primary_token_id rows in
    (
      write_off-keeps condition a.secondary_token_id a.primary_token_id first
          (write_off-empty condition a.primary_token_id rows),
      write_off-empty condition a.secondary_token_id first,
    )

-- Where the context holds the sums exactly, a share that is applied keeps the cash plus the cost
-- basis of the condition's two positions less the realised profit, adds exactly the allocated
-- payout to the cash, and leaves nothing of either position.
pub shared_share_conserves_cost :
    (c : Context) (condition : String) (terminal : SharedTerminal) (a : SharedAllocation)
    (hash : Option String) (now : ℕ) (details : String) (w w' : Register) (account : Account)
    (h : Holding)
    → apply_shared_condition_settlement c condition terminal a hash now details w ≡ ok (true, w')
    → w.ledger.account ≡ some account
    → h
      ≡ holding_of
          (record {
            primary_token_id = a.primary_token_id;
            secondary_token_id = a.secondary_token_id;
          })
          w.ledger.positions
    → IsExactSettlement c h a.payout_usd account
    → (after : Account) × (w'.ledger.account ≡ some after)
      × (after.cash_usd ≡ account.cash_usd +ℤ a.payout_usd)
      × (after.cash_usd -ℤ after.realized_pnl_usd
          ≡ account.cash_usd
            +ℤ (h.primary_cost_basis_usd +ℤ h.secondary_cost_basis_usd)
            -ℤ account.realized_pnl_usd)
      × IsEmptyAt a.primary_token_id w'.ledger.positions
      × IsEmptyAt a.secondary_token_id w'.ledger.positions
unfolding holding_of credit total_cost
shared_share_conserves_cost c condition terminal a hash now details w w' account h e found read x =
    let s = apply_shared-IsBookedShare c condition terminal a hash now details w w' e in
    let (money, rows) = shared-ledger c condition terminal a hash now details w w' s in
    let (first, second) = check_inventory-HoldsShare condition a w.ledger s.held in
    let (one, two) = shared-empty condition a w.ledger.positions in
    let same : s.account ≡ account = ground (arith, s.found) in
    let total = add c a.primary_cost_basis_usd a.secondary_cost_basis_usd in
    let after = credit c a.payout_usd total account in
    let primary : a.primary_cost_basis_usd ≡ h.primary_cost_basis_usd =
      sym first ∙ sym (ap (λ v. v.primary_cost_basis_usd) read) in
    let secondary : a.secondary_cost_basis_usd ≡ h.secondary_cost_basis_usd =
      sym second ∙ sym (ap (λ v. v.secondary_cost_basis_usd) read) in
    let cost : total ≡ total_cost c h = rw (primary, secondary) refl in
    (
      after,
      money ∙ ap (λ b. some (credit c a.payout_usd total b)) same,
      add_exact c account.cash_usd a.payout_usd x.cash,
      booked-worth c h a.payout_usd account after x
          (inl (ap (λ t. credit c a.payout_usd t account) cost)),
      subst (IsEmptyAt a.primary_token_id) (sym rows) one,
      subst (IsEmptyAt a.secondary_token_id) (sym rows) two,
    )
