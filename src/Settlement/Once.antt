-- ===== src/Settlement/Once.antt =====
-- The state of a receipt over the operations of app/cd90_live_copy.py in any order.
use Prim.Native.String.{String}
use text.Mathlib.TextEquality.{eq_iff}
use polymarket_live_copy.Prelude.{
  ℕ, ◌≡◌, ◌≢◌, refl, ap, ◌∙◌, inl, inr, Bool, true, false, Option, none, some, ok, arith,
  Option-cases, Result-cases,
}
use polymarket_live_copy.Prelude.Table.{lookup, upsert, update, lookup-update, lookup-upsert}
use polymarket_live_copy.Decimal.{Context, Decimal, decimal_zero, add}
use polymarket_live_copy.Settlement.{
  LocalState, LocalReceipt, Register, Holding, append_redemption_transition,
}
use polymarket_live_copy.Settlement.Receipts.{insert_receipt, coalesce_text}
use polymarket_live_copy.Settlement.Settle.{
  Proof, write_settlement, close_receipt, total_cost, credit, write_down, settle_holding,
  hold_credit, settled_state, settle_redeemed_condition, check_external, check_external_receipt,
  settle_externally_verified_redemption, check_loss, check_loser,
  settle_verified_losing_condition_from_terminal, settle_losing_condition, is_reconcilable,
}
use polymarket_live_copy.Settlement.Handoff.{
  SharedTerminal, SharedAllocation, blocks_handoff, write_receipt, state_of,
}
use polymarket_live_copy.Settlement.Booked.{
  hold_credit-ledger, by_redemption, by_external_redemption, by_verified_loss, by_loss, Settles,
}
use polymarket_live_copy.Settlement.{
  redeemed, redeemed_external_verified, loss_resolved_no_payout, redeemed_shared_wallet,
  redeemed_shared_platform_settlement, loss_resolved_shared_wallet,
}
use polymarket_live_copy.Settlement.Share.{IsBookedShare}

-- The money of the condition is booked.
abbrev pub is_settled : LocalState → Bool
is_settled redeemed = true
is_settled redeemed_external_verified = true
is_settled loss_resolved_no_payout = true
is_settled redeemed_shared_wallet = true
is_settled redeemed_shared_platform_settlement = true
is_settled loss_resolved_shared_wallet = true
is_settled _ = false

abbrev pub is_settled_receipt : Option LocalReceipt → Bool
is_settled_receipt none = false
is_settled_receipt (some r) = is_settled r.state

-- What an operation on `condition` may do to the receipts.
pub record Settled (condition : String) (w w' : Register) : Type 0 where
  pub own : is_settled_receipt (lookup condition w'.receipts) ≡ true
  pub fresh : is_settled_receipt (lookup condition w.receipts) ≡ false
  pub others : (k : String) → k ≢ condition → lookup k w'.receipts ≡ lookup k w.receipts

update-Settled :
    (condition : String) (f : LocalReceipt → LocalReceipt) (r : LocalReceipt) (w w' : Register)
    → lookup condition w.receipts ≡ some r
    → is_settled r.state ≡ false
    → is_settled (f r).state ≡ true
    → w'.receipts ≡ update condition f w.receipts
    → Settled condition w w'
update-Settled condition f r w w' there unsettled closed e = record {
  own = ground (arith, lookup-update condition condition f w.receipts, eq_iff condition condition);
  fresh = ground arith;
  others = λ k other. ground (arith, lookup-update condition k f w.receipts, eq_iff condition k);
}

insert-Settled :
    (condition : String) (r : LocalReceipt) (w w' : Register)
    → lookup condition w.receipts ≡ none
    → is_settled r.state ≡ true
    → w'.receipts ≡ upsert condition r w.receipts
    → Settled condition w w'
insert-Settled condition r w w' absent closed e = record {
  own = ground (arith, lookup-upsert condition condition r w.receipts, eq_iff condition condition);
  fresh = ground arith;
  others = λ k other. ground (arith, lookup-upsert condition k r w.receipts, eq_iff condition k);
}

close_receipt-Settled :
    (condition : String) (state : LocalState) (payout : Option Decimal) (hash : Option String)
    (now : ℕ) (r : LocalReceipt) (w v w' : Register)
    → lookup condition w.receipts ≡ some r
    → is_settled r.state ≡ false
    → is_settled state ≡ true
    → v.receipts ≡ w.receipts
    → w'.receipts ≡ (close_receipt condition state payout hash now v).receipts
    → Settled condition w w'
unfolding close_receipt
close_receipt-Settled condition state payout hash now r w v w' there unsettled closed same e =
    update-Settled condition _ r w w' there unsettled closed (e ∙ ap (update condition _) same)

insert_receipt-Settled :
    (condition : String) (state : LocalState) (payout : Decimal) (hash : Option String) (now : ℕ)
    (w v w' : Register)
    → lookup condition w.receipts ≡ none
    → is_settled state ≡ true
    → v.receipts ≡ w.receipts
    → w'.receipts ≡ (insert_receipt condition state payout hash now v).receipts
    → Settled condition w w'
unfolding insert_receipt
insert_receipt-Settled condition state payout hash now w v w' absent closed same e =
    insert-Settled condition _ w w' absent closed (e ∙ ap (upsert condition _) same)

reconcilable-open : (s : LocalState) → is_reconcilable s ≡ true → is_settled s ≡ false
reconcilable-open s h = ground arith

settled_state-settled :
    (c : Context) (payout : Decimal) → is_settled (settled_state c payout) ≡ true
unfolding settled_state
settled_state-settled c payout = ground arith

settle_redeemed-Settled :
    (c : Context) (condition : String) (payout : Decimal) (now : ℕ) (details : String)
    (hash : Option String) (quarantined : Bool) (h : Holding) (w w' : Register)
    → settle_redeemed_condition c condition payout now details hash quarantined (some h) w ≡ ok w'
    → Settled condition w w'
unfolding settle_redeemed_condition append_redemption_transition settle_holding write_settlement
settle_redeemed-Settled c condition payout now details hash quarantined h w w' e =
    elim (Option-cases (lookup condition w.receipts)) [
      | inl missing ↦ absurd (ground arith)
      | inr (r, there) ↦ elim (Option-cases w.ledger.account) [
        | inl missing ↦ absurd (ground arith)
        | inr (a, found) ↦
            let after = settle_holding c "" h (credit c payout (total_cost c h) a) w in
            let closed =
              close_receipt condition (settled_state c payout) (some payout) hash now after in
            elim (Result-cases (
              hold_credit c quarantined condition payout r.transaction_id
                (coalesce_text hash r.transaction_hash) now closed)) [
                  | inl (x, refused) ↦ absurd (ground arith)
                  | inr (held, eh) ↦
                      close_receipt-Settled condition (settled_state c payout) (some payout) hash
                        now r w after w' there (ground (arith, reconcilable-open r.state))
                        (settled_state-settled c payout) refl
                        (ground (
                          arith,
                          hold_credit-ledger c quarantined condition payout r.transaction_id
                              (coalesce_text hash r.transaction_hash) now closed held eh,
                        ))
                ]
      ]
    ]

settle_external-Settled :
    (c : Context) (condition : String) (payout : Decimal) (hash : String) (now : ℕ)
    (details : String) (proof : Proof) (h : Holding) (w w' : Register)
    → settle_externally_verified_redemption c condition payout hash now details proof (some h) w
      ≡ ok w'
    → Settled condition w w'
unfolding settle_externally_verified_redemption append_redemption_transition settle_holding
    write_settlement check_external_receipt
settle_external-Settled c condition payout hash now details proof h w w' e =
    elim (Result-cases (check_external c proof payout)) [
      | inl (x, refused) ↦ absurd (ground arith)
      | inr (u, checked) ↦ elim (Option-cases (lookup condition w.receipts)) [
        | inl missing ↦ absurd (ground arith)
        | inr (r, there) ↦ elim (Option-cases w.ledger.account) [
          | inl missing ↦ absurd (ground arith)
          | inr (a, found) ↦
              close_receipt-Settled condition redeemed_external_verified none (some hash) now r w
                (settle_holding c "" h (credit c payout (total_cost c h) a) w) w' there
                (ground arith) refl refl (ground arith)
        ]
      ]
    ]

settle_verified_loss-Settled :
    (c : Context) (condition : String) (now : ℕ) (details : String) (proof : Proof) (h : Holding)
    (w w' : Register)
    → settle_verified_losing_condition_from_terminal c condition now details proof (some h) w
      ≡ ok w'
    → Settled condition w w'
unfolding settle_verified_losing_condition_from_terminal append_redemption_transition settle_holding
    write_settlement
settle_verified_loss-Settled c condition now details proof h w w' e =
    elim (Result-cases (check_loss c proof)) [
      | inl (x, refused) ↦ absurd (ground arith)
      | inr (n, checked) ↦ elim (Result-cases (check_loser c proof n.0 h)) [
        | inl (x, refused) ↦ absurd (ground arith)
        | inr (v, valid) ↦ elim (Option-cases (lookup condition w.receipts)) [
          | inl missing ↦ absurd (ground arith)
          | inr (r, there) ↦ elim (Option-cases w.ledger.account) [
            | inl missing ↦ absurd (ground arith)
            | inr (a, found) ↦
                close_receipt-Settled condition loss_resolved_no_payout (some decimal_zero) none now
                  r w (settle_holding c "" h (write_down c (total_cost c h) a) w) w' there
                  (ground arith) refl refl (ground arith)
          ]
        ]
      ]
    ]

settle_losing-Settled :
    (c : Context) (condition : String) (now : ℕ) (details : String) (h : Holding) (w w' : Register)
    → settle_losing_condition c condition now details (some h) w ≡ ok w'
    → Settled condition w w'
unfolding settle_losing_condition append_redemption_transition settle_holding write_settlement
settle_losing-Settled c condition now details h w w' e = elim (Option-cases w.ledger.account) [
  | inl missing ↦ absurd (ground arith)
  | inr (a, found) ↦ elim (Option-cases (lookup condition w.receipts)) [
    | inr (r, there) ↦ absurd (ground arith)
    | inl absent ↦
        insert_receipt-Settled condition loss_resolved_no_payout decimal_zero none now w
          (settle_holding c "" h (write_down c (total_cost c h) a) w) w' absent refl refl
          (ground arith)
  ]
]

free-unsettled : (r : Option LocalReceipt) → blocks_handoff r ≡ false → is_settled_receipt r ≡ false
free-unsettled none h = refl
free-unsettled (some r) h = ground arith

state_of-settled : (t : SharedTerminal) → is_settled (state_of t) ≡ true
state_of-settled t = ground arith

pub share-Settled :
    (c : Context) (condition : String) (terminal : SharedTerminal) (a : SharedAllocation)
    (hash : Option String) (now : ℕ) (details : String) (w w' : Register)
    → IsBookedShare c condition terminal a hash now details w w'
    → Settled condition w w'
unfolding write_receipt append_redemption_transition write_settlement
share-Settled c condition terminal a hash now details w w' s =
    let b =
      credit c a.payout_usd (add c a.primary_cost_basis_usd a.secondary_cost_basis_usd) s.account in
    let v = write_settlement condition a.primary_token_id a.secondary_token_id b w in
    elim (Option-cases (lookup condition w.receipts)) [
      | inl absent ↦
          insert_receipt-Settled condition (state_of terminal) a.payout_usd hash now w v w' absent
            (state_of-settled terminal) refl (ground (arith, s.result))
      | inr (r, there) ↦
          close_receipt-Settled condition (state_of terminal) (some a.payout_usd) hash now r w v w'
            there (ground (arith, free-unsettled (some r), s.free)) (state_of-settled terminal) refl
            (ground (arith, s.result))
    ]

pub Settles-Settled :
    (c : Context) (condition : String) (h : Holding) (payout : Decimal) (w w' : Register)
    → Settles c condition h payout w w'
    → Settled condition w w'
Settles-Settled c condition h payout w w' (by_redemption now details hash quarantined e) =
    settle_redeemed-Settled c condition payout now details hash quarantined h w w' e
Settles-Settled c condition h payout w w' (by_external_redemption hash now details proof e) =
    settle_external-Settled c condition payout hash now details proof h w w' e
Settles-Settled c condition h payout w w' (by_verified_loss now details proof none_paid e) =
    settle_verified_loss-Settled c condition now details proof h w w' e
Settles-Settled c condition h payout w w' (by_loss now details none_paid e) =
    settle_losing-Settled c condition now details h w w' e
