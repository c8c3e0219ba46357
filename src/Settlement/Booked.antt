-- ===== src/Settlement/Booked.antt =====
-- What a settlement does to the account and to the positions of its condition.
use Prim.Native.String.{String}
use text.Mathlib.Text.{◌==◌}
use text.Mathlib.TextEquality.{eq_iff}
use polymarket_live_copy.Prelude.{
  ℕ, ◌≡◌, refl, ap, sym, subst, ◌⊎◌, inl, inr, Bool, ◌&&◌, Option, none, some, ok, arith,
  Bool-cases, Option-cases, Result-cases,
}
use polymarket_live_copy.Prelude.Int.{ltb_ℤ}
use polymarket_live_copy.Prelude.Table.{Table, lookup, lookup-upsert}
use polymarket_live_copy.Decimal.{Context, Decimal, decimal_zero}
use polymarket_live_copy.Store.{Account, Position}
use polymarket_live_copy.Settlement.{LocalState, Register, Holding, append_redemption_transition}
use polymarket_live_copy.Settlement.Receipts.{insert_receipt, insert_quarantine, coalesce_text}
use polymarket_live_copy.Settlement.Settle.{
  Proof, written_off, write_off, write_settlement, close_receipt, total_cost, credit, write_down,
  settle_holding, hold_credit, settled_state, settle_redeemed_condition, check_external,
  check_external_receipt, settle_externally_verified_redemption, check_loss, check_loser,
  settle_verified_losing_condition_from_terminal, settle_losing_condition,
}

-- A settlement of a condition that succeeds, with the inventory that was read for it.
pub data Settles (c : Context) (condition : String) (h : Holding) (payout : Decimal)
    (w w' : Register) : Type 0 where
  by_redemption :
      (now : ℕ) (details : String) (hash : Option String) (quarantined : Bool)
      → settle_redeemed_condition c condition payout now details hash quarantined (some h) w ≡ ok w'
      → Settles c condition h payout w w'
  by_external_redemption :
      (hash : String) (now : ℕ) (details : String) (proof : Proof)
      → settle_externally_verified_redemption c condition payout hash now details proof (some h) w
        ≡ ok w'
      → Settles c condition h payout w w'
  by_verified_loss :
      (now : ℕ) (details : String) (proof : Proof)
      → payout ≡ decimal_zero
      → settle_verified_losing_condition_from_terminal c condition now details proof (some h) w
        ≡ ok w'
      → Settles c condition h payout w w'
  by_loss :
      (now : ℕ) (details : String)
      → payout ≡ decimal_zero
      → settle_losing_condition c condition now details (some h) w ≡ ok w'
      → Settles c condition h payout w w'

-- The books of a settlement: the account before it, and the one that it writes.
pub record IsBooked (c : Context) (h : Holding) (payout : Decimal) (w w' : Register) : Type 0 where
  pub account : Account
  pub account_after : Account
  pub found : w.ledger.account ≡ some account
  pub booked :
      (account_after ≡ credit c payout (total_cost c h) account)
      ⊎ (account_after ≡ write_down c (total_cost c h) account)
  pub account_value : w'.ledger.account ≡ some account_after
  pub positions :
      w'.ledger.positions
      ≡ write_off "" h.secondary_token_id (write_off "" h.primary_token_id w.ledger.positions)

pub hold_credit-ledger :
    (c : Context) (wanted : Bool) (condition : String) (payout : Decimal) (id hash : Option String)
    (now : ℕ) (w w' : Register)
    → hold_credit c wanted condition payout id hash now w ≡ ok w'
    → (w'.ledger ≡ w.ledger) × (w'.receipts ≡ w.receipts)
unfolding hold_credit
hold_credit-ledger c wanted condition payout id hash now w w' e =
    elim (Bool-cases (wanted && ltb_ℤ decimal_zero payout)) [
      | inr unwanted ↦ ground arith
      | inl asked ↦
          elim (Result-cases (insert_quarantine condition payout id hash now w.quarantines)) [
            | inl (x, refused) ↦ absurd (ground arith)
            | inr (t, there) ↦ ground arith
          ]
    ]

-- The receipt and the history are other tables.
close_receipt-ledger :
    (condition : String) (state : LocalState) (payout : Option Decimal) (hash : Option String)
    (now : ℕ) (w : Register)
    → (close_receipt condition state payout hash now w).ledger ≡ w.ledger
unfolding close_receipt
close_receipt-ledger condition state payout hash now w = refl

insert_receipt-ledger :
    (condition : String) (state : LocalState) (payout : Decimal) (hash : Option String) (now : ℕ)
    (w : Register)
    → (insert_receipt condition state payout hash now w).ledger ≡ w.ledger
unfolding insert_receipt
insert_receipt-ledger condition state payout hash now w = refl

append-ledger :
    (condition : String) (state : LocalState) (reason : String) (now : ℕ) (hash details : String)
    (w : Register)
    → (append_redemption_transition condition state reason now hash details w).ledger ≡ w.ledger
unfolding append_redemption_transition
append-ledger condition state reason now hash details w = refl

holding-IsBooked :
    (c : Context) (h : Holding) (a after : Account) (payout : Decimal) (w w' : Register)
    → w.ledger.account ≡ some a
    → (after ≡ credit c payout (total_cost c h) a) ⊎ (after ≡ write_down c (total_cost c h) a)
    → w'.ledger ≡ (settle_holding c "" h after w).ledger
    → IsBooked c h payout w w'
unfolding settle_holding write_settlement
holding-IsBooked c h a after payout w w' found booked e = record {
  account = a;
  account_after = after;
  found = found;
  booked = booked;
  account_value = ap (λ l. l.account) e;
  positions = ap (λ l. l.positions) e;
}

settle_redeemed-IsBooked :
    (c : Context) (condition : String) (payout : Decimal) (now : ℕ) (details : String)
    (hash : Option String) (quarantined : Bool) (h : Holding) (w w' : Register)
    → settle_redeemed_condition c condition payout now details hash quarantined (some h) w ≡ ok w'
    → IsBooked c h payout w w'
unfolding settle_redeemed_condition
settle_redeemed-IsBooked c condition payout now details hash quarantined h w w' e =
    elim (Option-cases (lookup condition w.receipts)) [
      | inl missing ↦ absurd (ground arith)
      | inr (r, there) ↦ elim (Option-cases w.ledger.account) [
        | inl missing ↦ absurd (ground arith)
        | inr (a, found) ↦
            let after = credit c payout (total_cost c h) a in
            let closed =
              close_receipt condition (settled_state c payout) (some payout) hash now
                (settle_holding c "" h after w) in
            elim (Result-cases (
              hold_credit c quarantined condition payout r.transaction_id
                (coalesce_text hash r.transaction_hash) now closed)) [
                  | inl (x, refused) ↦ absurd (ground arith)
                  | inr (held, eh) ↦ holding-IsBooked c h a after payout w w' found (inl refl) (
                      ground (
                        arith,
                        append-ledger condition (settled_state c payout)
                            "EXACT_OFFICIAL_REDEEM_TRANSACTION_PAYOUT" now "" details held,
                        hold_credit-ledger c quarantined condition payout r.transaction_id
                            (coalesce_text hash r.transaction_hash) now closed held eh,
                        close_receipt-ledger condition (settled_state c payout) (some payout) hash
                            now (settle_holding c "" h after w),
                      ))
                ]
      ]
    ]

settle_external-IsBooked :
    (c : Context) (condition : String) (payout : Decimal) (hash : String) (now : ℕ)
    (details : String) (proof : Proof) (h : Holding) (w w' : Register)
    → settle_externally_verified_redemption c condition payout hash now details proof (some h) w
      ≡ ok w'
    → IsBooked c h payout w w'
unfolding settle_externally_verified_redemption append_redemption_transition close_receipt
settle_external-IsBooked c condition payout hash now details proof h w w' e =
    elim (Result-cases (check_external c proof payout)) [
      | inl (x, refused) ↦ absurd (ground arith)
      | inr (u, checked) ↦ elim (Option-cases (lookup condition w.receipts)) [
        | inl missing ↦ absurd (ground arith)
        | inr (r, there) ↦ elim (Result-cases (check_external_receipt c r payout)) [
          | inl (x, refused) ↦ absurd (ground arith)
          | inr (v, valid) ↦ elim (Option-cases w.ledger.account) [
            | inl missing ↦ absurd (ground arith)
            | inr (a, found) ↦
                holding-IsBooked c h a (credit c payout (total_cost c h) a) payout w w' found
                  (inl refl) (ground arith)
          ]
        ]
      ]
    ]

settle_verified_loss-IsBooked :
    (c : Context) (condition : String) (now : ℕ) (details : String) (proof : Proof) (h : Holding)
    (w w' : Register)
    → settle_verified_losing_condition_from_terminal c condition now details proof (some h) w
      ≡ ok w'
    → IsBooked c h decimal_zero w w'
unfolding settle_verified_losing_condition_from_terminal append_redemption_transition close_receipt
settle_verified_loss-IsBooked c condition now details proof h w w' e =
    elim (Result-cases (check_loss c proof)) [
      | inl (x, refused) ↦ absurd (ground arith)
      | inr (n, checked) ↦ elim (Result-cases (check_loser c proof n.0 h)) [
        | inl (x, refused) ↦ absurd (ground arith)
        | inr (v, valid) ↦ elim (Option-cases (lookup condition w.receipts)) [
          | inl missing ↦ absurd (ground arith)
          | inr (r, there) ↦ elim (Option-cases w.ledger.account) [
            | inl missing ↦ absurd (ground arith)
            | inr (a, found) ↦
                holding-IsBooked c h a (write_down c (total_cost c h) a) decimal_zero w w' found
                  (inr refl) (ground arith)
          ]
        ]
      ]
    ]

settle_losing-IsBooked :
    (c : Context) (condition : String) (now : ℕ) (details : String) (h : Holding) (w w' : Register)
    → settle_losing_condition c condition now details (some h) w ≡ ok w'
    → IsBooked c h decimal_zero w w'
unfolding settle_losing_condition append_redemption_transition insert_receipt
settle_losing-IsBooked c condition now details h w w' e = elim (Option-cases w.ledger.account) [
  | inl missing ↦ absurd (ground arith)
  | inr (a, found) ↦
      holding-IsBooked c h a (write_down c (total_cost c h) a) decimal_zero w w' found (inr refl)
        (ground arith)
]

pub Settles-IsBooked :
    (c : Context) (condition : String) (h : Holding) (payout : Decimal) (w w' : Register)
    → Settles c condition h payout w w'
    → IsBooked c h payout w w'
Settles-IsBooked c condition h payout w w' (by_redemption now details hash quarantined e) =
    settle_redeemed-IsBooked c condition payout now details hash quarantined h w w' e
Settles-IsBooked c condition h payout w w' (by_external_redemption hash now details proof e) =
    settle_external-IsBooked c condition payout hash now details proof h w w' e
Settles-IsBooked c condition h payout w w' (by_verified_loss now details proof none_paid e) =
    subst (λ x. IsBooked c h x w w') (sym none_paid)
      (settle_verified_loss-IsBooked c condition now details proof h w w' e)
Settles-IsBooked c condition h payout w w' (by_loss now details none_paid e) =
    subst (λ x. IsBooked c h x w w') (sym none_paid)
      (settle_losing-IsBooked c condition now details h w w' e)

-- Nothing is left of a position that is written off.
abbrev pub IsEmptyAt : String → Table Position → Type 0
IsEmptyAt token rows =
    (p : Position) × (lookup token rows ≡ some p)
    × (p.quantity ≡ decimal_zero)
    × (p.cost_basis_usd ≡ decimal_zero)

written_off-empty :
    (condition : String) (p : Option Position)
    → ((written_off condition p).quantity ≡ decimal_zero)
      × ((written_off condition p).cost_basis_usd ≡ decimal_zero)
unfolding written_off
written_off-empty condition none = (refl, refl)
written_off-empty condition (some p) = (refl, refl)

pub write_off-empty :
    (condition token : String) (rows : Table Position)
    → IsEmptyAt token (write_off condition token rows)
unfolding write_off
write_off-empty condition token rows =
    let (q, k) = written_off-empty condition (lookup token rows) in
    (
      written_off condition (lookup token rows),
      ground (
        arith,
        lookup-upsert token token (written_off condition (lookup token rows)) rows,
        eq_iff token token,
      ),
      q,
      k,
    )

pub write_off-keeps :
    (condition token other : String) (rows : Table Position)
    → IsEmptyAt other rows
    → IsEmptyAt other (write_off condition token rows)
unfolding write_off
write_off-keeps condition token other rows (p, there, q, k) = elim (Bool-cases (token == other)) [
  | inl same ↦
      let (q', k') = written_off-empty condition (lookup token rows) in
      (
        written_off condition (lookup token rows),
        ground (arith, lookup-upsert token other (written_off condition (lookup token rows)) rows),
        q',
        k',
      )
  | inr differ ↦ (
    p,
    ground (arith, lookup-upsert token other (written_off condition (lookup token rows)) rows),
    q,
    k,
  )
]
