-- ===== src/Settlement/Repeat.antt =====
-- A share of a redemption, `apply_shared_condition_settlement` of app/cd90_live_copy.py, called
-- again after it was applied.
use Prim.Native.String.{String}
use text.Mathlib.TextEquality.{eq_iff}
use polymarket_live_copy.Prelude.{
  ℕ, ◌≡◌, refl, ap, sym, subst, ◌∙◌, inl, inr, true, false, Option, some, ok, arith, Option-cases,
}
use polymarket_live_copy.Prelude.Table.{
  Table, lookup, lookup-upsert_self, lookup-update_self, on_some,
}
use polymarket_live_copy.Decimal.{Context, Decimal, add}
use polymarket_live_copy.Store.{Account, Position}
use polymarket_live_copy.Settlement.{LocalState, Register, append_redemption_transition}
use polymarket_live_copy.Settlement.Receipts.{insert_receipt}
use polymarket_live_copy.Settlement.Settle.{write_settlement, close_receipt, credit}
use polymarket_live_copy.Settlement.Handoff.{
  SharedTerminal, wallet, platform, loss, SharedAllocation, apply_shared_condition_settlement,
  check_mapping, confirm_settlement, found_terminal, write_receipt, state_of,
}
use polymarket_live_copy.Settlement.Booked.{IsEmptyAt}
use polymarket_live_copy.Settlement.{latest_history}
use polymarket_live_copy.Settlement.Handoff.{is_empty_position, same_terminal, hash_of, terminal_of}
use polymarket_live_copy.Settlement.Share.{
  IsBookedShare, apply_shared-IsBookedShare, shared-ledger, shared-empty,
}

IsEmptyAt-is_empty :
    (token : String) (rows : Table Position)
    → IsEmptyAt token rows
    → is_empty_position token rows ≡ true
unfolding is_empty_position
IsEmptyAt-is_empty token rows (p, there, q, k) = ground arith

same_terminal_self : (t : SharedTerminal) → same_terminal t t ≡ true
same_terminal_self wallet = refl
same_terminal_self platform = refl
same_terminal_self loss = refl

terminal_of-state : (t : SharedTerminal) → terminal_of (state_of t) ≡ some t
terminal_of-state wallet = refl
terminal_of-state platform = refl
terminal_of-state loss = refl

write_receipt-found :
    (c : Context) (condition : String) (terminal : SharedTerminal) (payout : Decimal)
    (hash : Option String) (now : ℕ) (w : Register)
    → found_terminal c
        (lookup condition (write_receipt condition terminal payout hash now w).receipts)
      ≡ some terminal
unfolding write_receipt close_receipt insert_receipt
write_receipt-found c condition terminal payout hash now w =
    elim (Option-cases (lookup condition w.receipts)) [
      | inl fresh ↦ rw fresh (
          ap (found_terminal c) (lookup-upsert_self condition _ w.receipts)
          ∙ terminal_of-state terminal)
      | inr (r, there) ↦ rw there (
          ap (found_terminal c) (lookup-update_self condition _ w.receipts ∙ ap (on_some _) there)
          ∙ terminal_of-state terminal)
    ]

module _ (condition : String) (state : LocalState) (now : ℕ) (hash details : String)
    (w : Register) where
  abbrev logged : Register
  logged =
      append_redemption_transition condition state "COORDINATOR_FROZEN_SHARED_WALLET_ALLOCATION" now
        hash details w

  append-mappings : logged.mappings ≡ w.mappings
  unfolding append_redemption_transition
  append-mappings = refl

  append-receipts : logged.receipts ≡ w.receipts
  unfolding append_redemption_transition
  append-receipts = refl

  append-hash : hash_of (latest_history condition logged.history) ≡ hash
  unfolding append_redemption_transition latest_history
  append-hash = ground (arith, eq_iff condition condition)

write_receipt-mappings :
    (condition : String) (terminal : SharedTerminal) (payout : Decimal) (hash : Option String)
    (now : ℕ) (w : Register)
    → (write_receipt condition terminal payout hash now w).mappings ≡ w.mappings
unfolding write_receipt close_receipt insert_receipt
write_receipt-mappings condition terminal payout hash now w = ground arith

write_settlement-mappings :
    (condition primary secondary : String) (a : Account) (w : Register)
    → (write_settlement condition primary secondary a w).mappings ≡ w.mappings
unfolding write_settlement
write_settlement-mappings condition primary secondary a w = refl

-- What the share leaves in the other tables.
pub shared-tables :
    (c : Context) (condition : String) (terminal : SharedTerminal) (a : SharedAllocation)
    (hash : Option String) (now : ℕ) (details : String) (w w' : Register)
    → IsBookedShare c condition terminal a hash now details w w'
    → (w'.mappings ≡ w.mappings)
      × (found_terminal c (lookup condition w'.receipts) ≡ some terminal)
      × (hash_of (latest_history condition w'.history) ≡ a.inventory_hash)
shared-tables c condition terminal a hash now details w w' s =
    let written =
      write_settlement condition a.primary_token_id a.secondary_token_id
        (credit c a.payout_usd (add c a.primary_cost_basis_usd a.secondary_cost_basis_usd)
          s.account)
        w in
    let closed = write_receipt condition terminal a.payout_usd hash now written in
    (
      ap (λ v. v.mappings) s.result
          ∙ append-mappings condition (state_of terminal) now a.inventory_hash details closed
          ∙ write_receipt-mappings condition terminal a.payout_usd hash now written
          ∙ write_settlement-mappings condition a.primary_token_id a.secondary_token_id _ w,
      ap (λ v. found_terminal c (lookup condition v.receipts)) s.result
          ∙ ap (λ t. found_terminal c (lookup condition t))
              (append-receipts condition (state_of terminal) now a.inventory_hash details closed)
          ∙ write_receipt-found c condition terminal a.payout_usd hash now written,
      ap (λ v. hash_of (latest_history condition v.history)) s.result
          ∙ append-hash condition (state_of terminal) now a.inventory_hash details closed,
    )

shared-second :
    (c : Context) (condition : String) (terminal : SharedTerminal) (a : SharedAllocation)
    (hash : Option String) (now : ℕ) (details : String) (w w' : Register)
    → IsBookedShare c condition terminal a hash now details w w'
    → confirm_settlement condition terminal terminal a w' ≡ ok (false, w')
unfolding confirm_settlement
shared-second c condition terminal a hash now details w w' s =
    let (maps, there, same) = shared-tables c condition terminal a hash now details w w' s in
    let (money, rows) = shared-ledger c condition terminal a hash now details w w' s in
    let (one, two) = shared-empty condition a w.ledger.positions in
    ground (
      arith,
      same_terminal_self terminal,
      same,
      eq_iff (hash_of (latest_history condition w'.history)) a.inventory_hash,
      IsEmptyAt-is_empty a.primary_token_id w'.ledger.positions
          (subst (IsEmptyAt a.primary_token_id) (sym rows) one),
      IsEmptyAt-is_empty a.secondary_token_id w'.ledger.positions
          (subst (IsEmptyAt a.secondary_token_id) (sym rows) two),
    )

check_mapping-same :
    (condition : String) (a : SharedAllocation) (w w' : Register)
    → w'.mappings ≡ w.mappings
    → check_mapping condition a w' ≡ check_mapping condition a w
unfolding check_mapping
check_mapping-same condition a w w' e = rw e refl

-- A share that is applied is applied once: whatever the hash, the time and the details, the same
-- call declines afterwards, and changes nothing.
pub shared_share_applied_once :
    (c : Context) (condition : String) (terminal : SharedTerminal) (a : SharedAllocation)
    (hash again : Option String) (now later : ℕ) (details others : String) (w w' : Register)
    → apply_shared_condition_settlement c condition terminal a hash now details w ≡ ok (true, w')
    → apply_shared_condition_settlement c condition terminal a again later others w'
      ≡ ok (false, w')
unfolding apply_shared_condition_settlement
shared_share_applied_once c condition terminal a hash again now later details others w w' e =
    let s = apply_shared-IsBookedShare c condition terminal a hash now details w w' e in
    let (maps, there, same) = shared-tables c condition terminal a hash now details w w' s in
    let second = shared-second c condition terminal a hash now details w w' s in
    ground (arith, s.allocated, s.mapped, check_mapping-same condition a w w' maps, there, second)
