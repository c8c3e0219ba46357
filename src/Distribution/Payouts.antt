-- ===== src/Distribution/Payouts.antt =====
-- The payouts that `freeze_shared_condition_redemption` of app/live_wallet_coordinator.py
-- allocates, from the inventory that `_shared_condition_inventory` reads.
use Prim.Native.String.{String}
use text.Mathlib.Text.{◌==◌}
use text.Mathlib.TextPositions.{eq_refl}
use polymarket_live_copy.Prelude.{
  ℕ, ◌≡◌, refl, ap, sym, ◌∙◌, inl, inr, Bool, true, false, none, some, List, [], ◌∷◌, ◌++◌, Result,
  ok, arith, Bool-cases, Option-cases, Result-cases, bind_returns,
}
use polymarket_live_copy.Prelude.Table.{Table, lookup-upsert_self}
use polymarket_live_copy.Decimal.{Context, Decimal, decimal_zero, add}
use polymarket_live_copy.Settlement.{Mapping, Register}
use polymarket_live_copy.Shared.{ready, CoordinatorError}
use polymarket_live_copy.Shared.Redemption.{
  Receipt, Allocation, Share, Inventory, Wallet, shared_redemption_receipt, insert_allocation,
  allocate, insert_shares, new_receipt, check_inventory, commit_freeze,
  freeze_shared_condition_redemption, append_transition,
}
use polymarket_live_copy.Distribution.{shared_condition_allocations}
use polymarket_live_copy.Distribution.Inventory.{
  Sleeve, Gathered, nothing_gathered, gather_sleeves, has_two, sum_primary, sum_secondary,
  inventory_of, shared_condition_inventory,
}

-- The allocations of these shares.
unfoldable pub allocate_all : String → Bool → List Share → List Allocation
allocate_all k p [] = []
allocate_all k p (s ∷ rest) = allocate k p s ∷ allocate_all k p rest

append_assoc :
    (rows : List Allocation) (a : Allocation) (more : List Allocation)
    → (rows ++ a ∷ []) ++ more ≡ rows ++ a ∷ more
append_assoc [] a more = refl
append_assoc (b ∷ rows) a more = ap (λ t. b ∷ t) (append_assoc rows a more)

append_none : (rows : List Allocation) → rows ++ [] ≡ rows
append_none [] = refl
append_none (b ∷ rows) = ap (λ t. b ∷ t) (append_none rows)

insert_allocation-rows :
    (a : Allocation) (rows rows' : List Allocation)
    → insert_allocation a rows ≡ ok rows'
    → rows' ≡ rows ++ a ∷ []
unfolding insert_allocation
insert_allocation-rows a rows rows' h = ground arith

insert_shares-rows :
    (k : String) (p : Bool) (shares : List Share) (rows rows' : List Allocation)
    → insert_shares k p shares rows ≡ ok rows'
    → rows' ≡ rows ++ allocate_all k p shares
unfolding insert_shares allocate_all
insert_shares-rows k p [] rows rows' h = ground (arith, append_none rows)
insert_shares-rows k p (s ∷ rest) rows rows' h =
    let (first, e, more) =
      bind_returns (insert_allocation (allocate k p s) rows) (insert_shares k p rest) h in
    insert_shares-rows k p rest first rows' more
    ∙ ap (λ t. t ++ allocate_all k p rest) (insert_allocation-rows (allocate k p s) rows first e)
    ∙ append_assoc rows (allocate k p s) (allocate_all k p rest)

-- The rows of the condition behind rows of others.
allocations-append :
    (k : String) (rows more : List Allocation)
    → shared_condition_allocations k rows ≡ []
    → shared_condition_allocations k (rows ++ more) ≡ shared_condition_allocations k more
unfolding shared_condition_allocations
allocations-append k [] more h = refl
allocations-append k (b ∷ rows) more h = ground (arith, allocations-append k rows more)

allocations-all :
    (k : String) (p : Bool) (shares : List Share)
    → shared_condition_allocations k (allocate_all k p shares) ≡ allocate_all k p shares
unfolding shared_condition_allocations allocate_all allocate
allocations-all k p [] = refl
allocations-all k p (s ∷ rest) = ground (arith, allocations-all k p rest, eq_refl k)

has_two-allocate_all :
    (k : String) (p : Bool) (shares : List Share)
    → has_two (allocate_all k p shares) ≡ has_two shares
unfolding allocate_all
has_two-allocate_all k p [] = refl
has_two-allocate_all k p (s ∷ []) = refl
has_two-allocate_all k p (s ∷ u ∷ rest) = refl

module _ (c : Context) where
  -- The payouts of the allocations, added as the quantities of the shares are.
  unfoldable pub sum_payouts : Decimal → List Allocation → Decimal
  sum_payouts total [] = total
  sum_payouts total (a ∷ rest) = sum_payouts (add c total a.payout_usd) rest

  sum_payouts-primary :
      (k : String) (total : Decimal) (shares : List Share)
      → sum_payouts total (allocate_all k true shares) ≡ sum_primary c total shares
  unfolding sum_payouts allocate_all allocate sum_primary
  sum_payouts-primary k total [] = refl
  sum_payouts-primary k total (s ∷ rest) =
      sum_payouts-primary k (add c total s.primary_quantity) rest

  sum_payouts-secondary :
      (k : String) (total : Decimal) (shares : List Share)
      → sum_payouts total (allocate_all k false shares) ≡ sum_secondary c total shares
  unfolding sum_payouts allocate_all allocate sum_secondary
  sum_payouts-secondary k total [] = refl
  sum_payouts-secondary k total (s ∷ rest) =
      sum_payouts-secondary k (add c total s.secondary_quantity) rest

  -- How an inventory is read that a freeze may use.
  record IsRead (digest : Mapping → List Share → String) (i : Inventory) : Type 0 where
    pub primary : i.primary_quantity ≡ sum_primary c decimal_zero i.shares
    pub secondary : i.secondary_quantity ≡ sum_secondary c decimal_zero i.shares
    pub shared :
        i.active_order_reservation_count ≡ 0
        → i.active_local_redemption_count ≡ 0
        → has_two i.shares ≡ true

  inventory_of-IsRead :
      (digest : Mapping → List Share → String) (g : Gathered) (i : Inventory)
      → inventory_of c digest g ≡ ok i
      → IsRead digest i
  unfolding inventory_of
  inventory_of-IsRead digest g i h = elim (Option-cases g.mapping) [
    | inl absent ↦ absurd (ground arith)
    | inr (m, there) ↦ record {
      primary = ground arith;
      secondary = ground arith;
      shared = λ orders redemptions. ground arith;
    }
  ]

  inventory-IsRead :
      (digest : Mapping → List Share → String) (k : String) (sleeves : List Sleeve)
      (ledgers : Table Register) (i : Inventory)
      → shared_condition_inventory c digest k sleeves ledgers ≡ ok i
      → IsRead digest i
  unfolding shared_condition_inventory
  inventory-IsRead digest k sleeves ledgers i h =
      elim (Result-cases (gather_sleeves k ledgers sleeves nothing_gathered)) [
        | inl (e, refused) ↦ absurd (ground arith)
        | inr (g, gathered) ↦ inventory_of-IsRead digest g i (ground arith)
      ]

  -- What a freeze writes.
  record IsFrozen (k : String) (i : Inventory) (winner : String) (now : ℕ) (w w' : Wallet)
      : Type 0 where
    pub orders : i.active_order_reservation_count ≡ 0
    pub redemptions : i.active_local_redemption_count ≡ 0
    pub receipt : shared_redemption_receipt k w' ≡ some (new_receipt i winner now)
    pub rows :
        w'.allocations ≡ w.allocations ++ allocate_all k (winner == i.primary_token_id) i.shares

  commit-IsFrozen :
      (k : String) (i : Inventory) (winner : String) (now : ℕ) (details : String) (w w' : Wallet)
      → check_inventory i winner ≡ ok tt
      → shared_redemption_receipt k w ≡ none
      → commit_freeze k i winner now details w ≡ ok w'
      → IsFrozen k i winner now w w'
  unfolding check_inventory commit_freeze shared_redemption_receipt append_transition
  commit-IsFrozen k i winner now details w w' checked absent h =
      elim (Result-cases (insert_shares k (winner == i.primary_token_id) i.shares w.allocations)) [
        | inl (e, refused) ↦ absurd (ground arith)
        | inr (rows, inserted) ↦ record {
          orders = ground arith;
          redemptions = ground arith;
          receipt = ground (arith, lookup-upsert_self k (new_receipt i winner now) w.redemptions);
          rows = ground (
            arith,
            insert_shares-rows k (winner == i.primary_token_id) i.shares w.allocations rows
                inserted,
          );
        }
      ]

  freeze-IsFrozen :
      (k : String) (read : Result CoordinatorError Inventory) (winner : String) (now : ℕ)
      (details : String) (w w' : Wallet)
      → shared_redemption_receipt k w ≡ none
      → freeze_shared_condition_redemption k read winner now details w ≡ ok w'
      → (i : Inventory) × (read ≡ ok i) × IsFrozen k i winner now w w'
  unfolding freeze_shared_condition_redemption
  freeze-IsFrozen k read winner now details w w' absent h = elim (Result-cases read) [
    | inl (e, refused) ↦ absurd (ground arith)
    | inr (i, given) ↦ elim (Result-cases (check_inventory i winner)) [
      | inl (e, refused) ↦ absurd (ground arith)
      | inr (u, checked) ↦
          (i, given, commit-IsFrozen k i winner now details w w' checked absent (ground arith))
    ]
  ]

  new_receipt-payout :
      (digest : Mapping → List Share → String) (k winner : String) (now : ℕ) (i : Inventory)
      → IsRead digest i
      → (new_receipt i winner now).expected_payout_usd
        ≡ sum_payouts decimal_zero (allocate_all k (winner == i.primary_token_id) i.shares)
  unfolding new_receipt
  new_receipt-payout digest k winner now i x = elim (Bool-cases (winner == i.primary_token_id)) [
    | inl won ↦ rw won (x.primary ∙ sym (sum_payouts-primary k decimal_zero i.shares))
    | inr lost ↦ rw lost (x.secondary ∙ sym (sum_payouts-secondary k decimal_zero i.shares))
  ]

-- A condition without a receipt and without allocations that is frozen with the inventory of the
-- ledgers gets a receipt that is ready, at least two allocations, and an expected payout that is
-- the sum of the payouts of its allocations.
pub frozen_payout_is_allocated :
    (c : Context) (digest : Mapping → List Share → String) (k : String) (sleeves : List Sleeve)
    (ledgers : Table Register) (winner : String) (now : ℕ) (details : String) (w w' : Wallet)
    → shared_redemption_receipt k w ≡ none
    → shared_condition_allocations k w.allocations ≡ []
    → freeze_shared_condition_redemption k
        (shared_condition_inventory c digest k sleeves ledgers)
        winner
        now
        details
        w
      ≡ ok w'
    → (r : Receipt) × (shared_redemption_receipt k w' ≡ some r)
      × (r.state ≡ ready)
      × (has_two (shared_condition_allocations k w'.allocations) ≡ true)
      × (r.expected_payout_usd
          ≡ sum_payouts c decimal_zero (shared_condition_allocations k w'.allocations))
unfolding new_receipt
frozen_payout_is_allocated c digest k sleeves ledgers winner now details w w' absent none_there h =
    let (i, read, f) =
      freeze-IsFrozen c k (shared_condition_inventory c digest k sleeves ledgers) winner now details
        w w' absent h in
    let x = inventory-IsRead c digest k sleeves ledgers i read in
    let p = winner == i.primary_token_id in
    let rows : shared_condition_allocations k w'.allocations ≡ allocate_all k p i.shares =
      ap (shared_condition_allocations k) f.rows
      ∙ allocations-append k w.allocations (allocate_all k p i.shares) none_there
      ∙ allocations-all k p i.shares in
    (
      new_receipt i winner now,
      f.receipt,
      refl,
      ap has_two rows ∙ has_two-allocate_all k p i.shares ∙ x.shared f.orders f.redemptions,
      new_receipt-payout c digest k winner now i x ∙ ap (sum_payouts c decimal_zero) (sym rows),
    )
