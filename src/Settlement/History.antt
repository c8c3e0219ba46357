-- ===== src/Settlement/History.antt =====
-- The settlements of a condition over the modelled operations of app/cd90_live_copy.py in any
-- order.
use Prim.Native.String.{String}
use text.Mathlib.Text.{◌==◌}
use text.Mathlib.TextEquality.{eq_iff}
use polymarket_live_copy.Prelude.{
  ℕ, ◌≡◌, ◌≢◌, ap, inl, inr, Bool, true, false, Option, ok, arith, Bool-cases, Option-cases,
}
use polymarket_live_copy.Prelude.Table.{lookup}
use polymarket_live_copy.Decimal.{Context, Decimal}
use polymarket_live_copy.Settlement.{LocalState, Register, Holding}
use polymarket_live_copy.Settlement.Handoff.{
  SharedTerminal, SharedAllocation, apply_shared_condition_settlement, settle_share,
  check_allocation, check_mapping, check_inventory, confirm_settlement, found_terminal,
}
use polymarket_live_copy.Settlement.Booked.{Settles}
use polymarket_live_copy.Settlement.Receipts.{
  start_redemption_submission, record_redemption_terminal_without_submission, set_redemption_state,
  record_redeemed_cash_credit_quarantine,
}
use polymarket_live_copy.Settlement.Share.{unit_cases, apply_shared-IsBookedShare}
use polymarket_live_copy.Settlement.Once.{
  is_settled_receipt, Settled, Settles-Settled, share-Settled,
}
use polymarket_live_copy.Settlement.Kept.{
  IsSettledAt, start-IsSettledAt, terminal-IsSettledAt, mark-IsSettledAt, quarantine-IsSettledAt,
  keep-same,
}

-- One of the modelled operations on a register. Inventories were read before, and may be out of
-- date by then. A mark here meets no settled receipt, as with the callers of
-- `_set_redemption_state`.
pub data Step (c : Context) (w w' : Register) : Type 0 where
  start :
      (condition : String) (payout : Decimal) (now : ℕ) (details : String) (started : Bool)
      → start_redemption_submission condition payout now details w ≡ ok (started, w')
      → Step c w w'
  terminal :
      (condition : String) (state : LocalState) (reason : String) (payout : Decimal) (now : ℕ)
      (details : String) (hash : Option String) (written : Bool)
      → record_redemption_terminal_without_submission condition state reason payout now details hash
          w
        ≡ (written, w')
      → Step c w w'
  mark :
      (condition : String) (state : LocalState) (reason : String) (now : ℕ) (details : String)
      (id hash : Option String)
      → is_settled_receipt (lookup condition w.receipts) ≡ false
      → set_redemption_state condition state reason now details id hash w ≡ ok w'
      → Step c w w'
  quarantine :
      (condition : String) (payout : Decimal) (now : ℕ) (details : String) (inserted : Bool)
      → record_redeemed_cash_credit_quarantine condition payout now details w ≡ ok (inserted, w')
      → Step c w w'
  settle :
      (condition : String) (h : Holding) (payout : Decimal)
      → Settles c condition h payout w w'
      → Step c w w'
  share :
      (condition : String) (t : SharedTerminal) (a : SharedAllocation) (hash : Option String)
      (now : ℕ) (details : String) (applied : Bool)
      → apply_shared_condition_settlement c condition t a hash now details w ≡ ok (applied, w')
      → Step c w w'

pub data Reach (c : Context) (w : Register) : Register → Type 0 where
  here : Reach c w w
  next : {v u : Register} → Reach c w v → Step c v u → Reach c w u

pub Settled-IsSettledAt :
    (k condition : String) (w w' : Register)
    → Settled condition w w'
    → IsSettledAt k w
    → IsSettledAt k w'
Settled-IsSettledAt k condition w w' s h = elim (Bool-cases (k == condition)) [
  | inl same ↦ ground (arith, s.own, eq_iff k condition)
  | inr other ↦ ground (arith, s.others k, eq_iff k condition)
]

apply_shared-declined :
    (c : Context) (condition : String) (t : SharedTerminal) (a : SharedAllocation)
    (hash : Option String) (now : ℕ) (details : String) (w w' : Register)
    → apply_shared_condition_settlement c condition t a hash now details w ≡ ok (false, w')
    → w' ≡ w
unfolding apply_shared_condition_settlement confirm_settlement settle_share
apply_shared-declined c condition t a hash now details w w' e =
    elim (unit_cases (check_allocation condition t a)) [
      | inl (x, refused) ↦ absurd (ground arith)
      | inr allocated ↦ elim (unit_cases (check_mapping condition a w)) [
        | inl (x, refused) ↦ absurd (ground arith)
        | inr mapped ↦ elim (Option-cases (found_terminal c (lookup condition w.receipts))) [
          | inr (f, there) ↦ ground arith
          | inl fresh ↦ elim (unit_cases (check_inventory condition a w.ledger)) [
            | inl (x, refused) ↦ absurd (ground arith)
            | inr held ↦ elim (Option-cases w.ledger.account) [
              | inl missing ↦ absurd (ground arith)
              | inr (account, found) ↦ absurd (ground arith)
            ]
          ]
        ]
      ]
    ]

pub Step-IsSettledAt :
    (c : Context) (k : String) (w w' : Register) → Step c w w' → IsSettledAt k w → IsSettledAt k w'
Step-IsSettledAt c k w w' (start condition payout now details b e) h =
    start-IsSettledAt k condition payout now details b w w' e h
Step-IsSettledAt c k w w' (terminal condition state reason payout now details hash b e) h =
    terminal-IsSettledAt k condition state reason payout now details hash b w w' e h
Step-IsSettledAt c k w w' (mark condition state reason now details id hash unsettled e) h =
    mark-IsSettledAt k condition state reason now details id hash w w' unsettled e h
Step-IsSettledAt c k w w' (quarantine condition payout now details b e) h =
    quarantine-IsSettledAt k condition payout now details b w w' e h
Step-IsSettledAt c k w w' (settle condition h payout s) x =
    Settled-IsSettledAt k condition w w' (Settles-Settled c condition h payout w w' s) x
Step-IsSettledAt c k w w' (share condition t a hash now details true e) x =
    Settled-IsSettledAt k condition w w'
      (share-Settled c condition t a hash now details w w'
        (apply_shared-IsBookedShare c condition t a hash now details w w' e))
      x
Step-IsSettledAt c k w w' (share condition t a hash now details false e) x =
    keep-same k w w'
      (ap (λ v. v.receipts) (apply_shared-declined c condition t a hash now details w w' e)) x

Reach-IsSettledAt :
    (c : Context) (k : String) (w w' : Register) → Reach c w w' → IsSettledAt k w → IsSettledAt k w'
Reach-IsSettledAt c k w w' here h = h
Reach-IsSettledAt c k w w' (next {v} {u} reach step) h =
    Step-IsSettledAt c k v w' step (Reach-IsSettledAt c k w v reach h)

-- Once a sleeve's share of a condition has been applied, no settlement of the condition succeeds
-- in any register that the operations reach from there, where none marks a settled receipt, and no
-- share of it is applied.
pub share_closes_condition :
    (c : Context) (condition : String) (t t' : SharedTerminal) (a b : SharedAllocation)
    (hash hash' : Option String) (now later : ℕ) (details details' : String) (h : Holding)
    (payout : Decimal) (w applied v v' : Register)
    → apply_shared_condition_settlement c condition t a hash now details w ≡ ok (true, applied)
    → Reach c applied v
    → (¬ Settles c condition h payout v v')
      × (apply_shared_condition_settlement c condition t' b hash' later details' v ≢ ok (true, v'))
share_closes_condition c condition t t' a b hash hash' now later details details' h payout w applied
      v v' e reach =
    let before =
      share-Settled c condition t a hash now details w applied
        (apply_shared-IsBookedShare c condition t a hash now details w applied e) in
    let kept = Reach-IsSettledAt c condition applied v reach before.own in
    (
      λ s. ground (arith, kept, (Settles-Settled c condition h payout v v' s).fresh),
      λ x. ground (
        arith,
        kept,
        (share-Settled c condition t' b hash' later details' v v'
            (apply_shared-IsBookedShare c condition t' b hash' later details' v v' x)).fresh,
      ),
    )
