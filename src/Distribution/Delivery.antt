-- ===== src/Distribution/Delivery.antt =====
-- The ledgers of a distribution: `apply_shared_condition_settlement` of app/cd90_live_copy.py,
-- called on one ledger after the other.
use Prim.Native.String.{String}
use text.Mathlib.Text.{◌==◌}
use text.Mathlib.TextEquality.{eq_iff}
use polymarket_live_copy.Prelude.{
  ℕ, ◌≡◌, refl, ap, ◌∙◌, inl, inr, Bool, true, false, not, ◌&&◌, Option, some, List, [], ◌∷◌, ok,
  arith, Option-cases,
}
use polymarket_live_copy.Prelude.Table.{Table, lookup, upsert, lookup-upsert, lookup-upsert_self}
use polymarket_live_copy.Decimal.{Context}
use polymarket_live_copy.Shared.Redemption.{Receipt, Allocation}
use polymarket_live_copy.Settlement.{Register}
use polymarket_live_copy.Settlement.Handoff.{
  SharedTerminal, wallet, platform, loss, SharedAllocation, apply_shared_condition_settlement,
  check_allocation, check_mapping, found_terminal, confirm_settlement, settle_share, same_terminal,
  check_inventory,
}
use polymarket_live_copy.Settlement.Share.{unit_cases, apply_shared-IsBookedShare}
use polymarket_live_copy.Settlement.Repeat.{shared-tables}
use polymarket_live_copy.Distribution.{settle_ledger, ledger_at, share_of}

same_terminal-eq : (f t : SharedTerminal) → same_terminal f t ≡ true → f ≡ t
same_terminal-eq wallet wallet h = refl
same_terminal-eq platform platform h = refl
same_terminal-eq loss loss h = refl
same_terminal-eq wallet platform h = absurd (ground arith)
same_terminal-eq wallet loss h = absurd (ground arith)
same_terminal-eq platform wallet h = absurd (ground arith)
same_terminal-eq platform loss h = absurd (ground arith)
same_terminal-eq loss wallet h = absurd (ground arith)
same_terminal-eq loss platform h = absurd (ground arith)

confirm_settlement-found :
    (k : String) (f t : SharedTerminal) (a : SharedAllocation) (w w' : Register)
    → confirm_settlement k f t a w ≡ ok (false, w')
    → (w' ≡ w) × (f ≡ t)
unfolding confirm_settlement
confirm_settlement-found k f t a w w' h = (ground arith, same_terminal-eq f t (ground arith))

declined-found :
    (c : Context) (k : String) (t : SharedTerminal) (a : SharedAllocation) (hash : Option String)
    (now : ℕ) (details : String) (w w' : Register)
    → apply_shared_condition_settlement c k t a hash now details w ≡ ok (false, w')
    → found_terminal c (lookup k w'.receipts) ≡ some t
unfolding apply_shared_condition_settlement settle_share
declined-found c k t a hash now details w w' e = elim (unit_cases (check_allocation k t a)) [
  | inl (x, refused) ↦ absurd (ground arith)
  | inr allocated ↦ elim (unit_cases (check_mapping k a w)) [
    | inl (x, refused) ↦ absurd (ground arith)
    | inr mapped ↦ elim (Option-cases (found_terminal c (lookup k w.receipts))) [
      | inr (f, there) ↦
          let (same, terminal) = confirm_settlement-found k f t a w w' (ground arith) in
          ap (λ v. found_terminal c (lookup k v.receipts)) same ∙ there ∙ ap some terminal
      | inl fresh ↦ elim (unit_cases (check_inventory k a w.ledger)) [
        | inl (x, refused) ↦ absurd (ground arith)
        | inr held ↦ elim (Option-cases w.ledger.account) [
          | inl missing ↦ absurd (ground arith)
          | inr (account, found) ↦ absurd (ground arith)
        ]
      ]
    ]
  ]
]

-- A share that is applied, or found applied, leaves the receipt in its terminal state.
pub apply_shared-found :
    (c : Context) (k : String) (t : SharedTerminal) (a : SharedAllocation) (hash : Option String)
    (now : ℕ) (details : String) (b : Bool) (w w' : Register)
    → apply_shared_condition_settlement c k t a hash now details w ≡ ok (b, w')
    → found_terminal c (lookup k w'.receipts) ≡ some t
apply_shared-found c k t a hash now details true w w' e =
    (shared-tables c k t a hash now details w w'
      (apply_shared-IsBookedShare c k t a hash now details w w' e)).1
apply_shared-found c k t a hash now details false w w' e =
    declined-found c k t a hash now details w w' e

-- No allocation is of the ledger at this path.
unfoldable pub is_fresh : String → List Allocation → Bool
is_fresh path [] = true
is_fresh path (a ∷ rest) = not (a.ledger_path == path) && is_fresh path rest

-- Each allocation is of a ledger of its own.
unfoldable pub is_placed : List Allocation → Bool
is_placed [] = true
is_placed (a ∷ rest) = is_fresh a.ledger_path rest && is_placed rest

module _ (c : Context) (k : String) (t : SharedTerminal) (now : ℕ) (json : Allocation → String)
    (r : Receipt) where
  -- The ledger of the allocation takes its share.
  abbrev pub IsAccepted : Allocation → Table Register → Type 0
  IsAccepted a ledgers =
      (b : Bool) × (s : Register) × (settle_ledger c k t now json r a ledgers ≡ ok (b, s))

  -- Every ledger whose share is not marked takes it.
  abbrev pub AcceptsAll : List Allocation → Table Register → Type 0
  AcceptsAll [] ledgers = Unit
  AcceptsAll (a ∷ rest) ledgers =
      (a.applied ≡ false → IsAccepted a ledgers) × AcceptsAll rest ledgers

  -- The receipt of the condition in the ledger of the allocation is in the terminal state.
  abbrev pub IsDelivered : Allocation → Table Register → Type 0
  IsDelivered a ledgers =
      (s : Register) × (lookup a.ledger_path ledgers ≡ some s)
      × (found_terminal c (lookup k s.receipts) ≡ some t)

  -- Every share that was not marked is delivered.
  abbrev pub DeliversAll : List Allocation → Table Register → Type 0
  DeliversAll [] ledgers = Unit
  DeliversAll (a ∷ rest) ledgers =
      (a.applied ≡ false → IsDelivered a ledgers) × DeliversAll rest ledgers

  settle_ledger-upsert :
      (path : String) (s : Register) (a : Allocation) (ledgers : Table Register)
      → (a.ledger_path == path) ≡ false
      → settle_ledger c k t now json r a (upsert path s ledgers)
        ≡ settle_ledger c k t now json r a ledgers
  unfolding settle_ledger ledger_at
  settle_ledger-upsert path s a ledgers other =
      let same : lookup a.ledger_path (upsert path s ledgers) ≡ lookup a.ledger_path ledgers =
        ground (
          arith,
          lookup-upsert path a.ledger_path s ledgers,
          eq_iff path a.ledger_path,
          eq_iff a.ledger_path path,
        ) in
      rw same refl

  pub upsert-AcceptsAll :
      (path : String) (s : Register) (rest : List Allocation) (ledgers : Table Register)
      → is_fresh path rest ≡ true
      → AcceptsAll rest ledgers
      → AcceptsAll rest (upsert path s ledgers)
  unfolding is_fresh
  upsert-AcceptsAll path s [] ledgers fresh x = tt
  upsert-AcceptsAll path s (a ∷ rest) ledgers fresh (first, others) = (
    λ pending.
        let (b, s', e) = first pending in
        (b, s', settle_ledger-upsert path s a ledgers (ground arith) ∙ e),
    upsert-AcceptsAll path s rest ledgers (ground arith) others,
  )

  pub settle_ledger-IsDelivered :
      (a : Allocation) (b : Bool) (s : Register) (ledgers : Table Register)
      → settle_ledger c k t now json r a ledgers ≡ ok (b, s)
      → IsDelivered a (upsert a.ledger_path s ledgers)
  unfolding settle_ledger
  settle_ledger-IsDelivered a b s ledgers e = (
    s,
    lookup-upsert_self a.ledger_path s ledgers,
    apply_shared-found c k t (share_of r a) r.transaction_hash now (json a) b
        (ledger_at a.ledger_path ledgers) s e,
  )
