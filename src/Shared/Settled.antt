-- ===== src/Shared/Settled.antt =====
-- The allocations of a distribution in app/live_wallet_coordinator.py once it is over.
use Prim.Native.String.{String}
use text.Mathlib.Text.{◌==◌}
use text.Mathlib.TextEquality.{eq_iff}
use text.Mathlib.TextPositions.{eq_refl}
use polymarket_live_copy.Prelude.{
  bind_returns, ℕ, ◌+◌, ◌≤◌, ◌≡◌, refl, ap, ◌⊎◌, inl, inr, Bool, true, false, some, List, [], ◌∷◌,
  ◌++◌, ok, arith, ◌∙◌, Bool-cases,
}
use polymarket_live_copy.Prelude.Table.{lookup-upsert, upsert, lookup}
use polymarket_live_copy.Shared.{is_settled, submit_started}
use polymarket_live_copy.Shared.Redemption.{
  Receipt, Allocation, Share, Wallet, Inventory, insert_allocation, allocate, insert_shares,
  new_receipt, shared_redemption_receipt, pending_count, set_applied, move,
}
use polymarket_live_copy.Shared.Moves.{
  IsMove, receipt-move, start-IsMove, mark-IsMove, complete-IsMove,
}
use polymarket_live_copy.Shared.Steps.{
  Step, freeze, start, mark, apply, complete, Reach, here, next, commit_freeze-cases,
  mark_shared_allocation_applied-cases,
}

-- Every receipt in a settled state has no allocation that is still to be applied.
pub record IsSound (w : Wallet) : Type 0 where
  pub settled :
      (k : String) (r : Receipt)
      → shared_redemption_receipt k w ≡ some r
      → is_settled r.state ≡ true
      → pending_count k w.allocations ≡ 0

pending_count-append :
    (k : String) (rows : List Allocation) (a : Allocation)
    → pending_count k (rows ++ a ∷ []) ≡ pending_count k rows + pending_count k (a ∷ [])
unfolding pending_count
pending_count-append k [] a = omega arith
pending_count-append k (b ∷ rows) a = omega (arith, pending_count-append k rows a)

-- The rows of a freeze count for its own condition only.
insert_allocation-eq-ok :
    (a : Allocation) (rows : List Allocation) {rows' : List Allocation}
    → insert_allocation a rows ≡ ok rows'
    → rows' ≡ rows ++ a ∷ []
unfolding insert_allocation
insert_allocation-eq-ok a rows h = ground arith

allocate-pending :
    (k condition : String) (p : Bool) (s : Share)
    → (condition == k) ≡ false
    → pending_count k (allocate condition p s ∷ []) ≡ 0
unfolding pending_count allocate
allocate-pending k condition p s other = ground arith

insert_shares-pending :
    (k condition : String) (p : Bool) (shares : List Share) (rows : List Allocation)
    {rows' : List Allocation}
    → (condition == k) ≡ false
    → insert_shares condition p shares rows ≡ ok rows'
    → pending_count k rows' ≡ pending_count k rows
unfolding insert_shares
insert_shares-pending k condition p [] rows other h = ground arith
insert_shares-pending k condition p (s ∷ rest) rows {rows'} other h =
    let (rows1, e, more) =
      bind_returns (insert_allocation (allocate condition p s) rows)
        (insert_shares condition p rest) h in
    omega (
      arith,
      insert_shares-pending k condition p rest rows1 {rows' = rows'} other more,
      ap (pending_count k) (insert_allocation-eq-ok (allocate condition p s) rows e),
      pending_count-append k rows (allocate condition p s),
      allocate-pending k condition p s other,
    )

set_applied-pending :
    (k condition profile : String) (now : ℕ) (rows : List Allocation)
    → pending_count k (set_applied condition profile now rows) ≤ pending_count k rows
unfolding set_applied pending_count
set_applied-pending k condition profile now [] = omega arith
set_applied-pending k condition profile now (a ∷ rows) =
    ground (arith, set_applied-pending k condition profile now rows)

module _ {w w' : Wallet} (sound : IsSound w) where
  -- Where the receipts and the counts are as before.
  same-IsSound : w' ≡ w → IsSound w'
  same-IsSound e = record { settled = λ k r found s. ground (arith, sound.settled k r) }

  moved_state :
      (condition : String) (m : IsMove condition w w') (r : Receipt)
      → shared_redemption_receipt condition w' ≡ some r
      → r.state ≡ m.target
  moved_state condition m r found = ground (
    arith,
    m.result,
    m.found,
    eq_refl condition,
    receipt-move condition condition m.change m.target m.reason m.now m.details w,
  )

  move_allocations :
      (condition : String) (m : IsMove condition w w') → w'.allocations ≡ w.allocations
  unfolding move
  move_allocations condition m = ground (arith, m.result)

  -- A move to a state that is not settled, or of a condition with nothing left to apply.
  move-IsSound :
      (condition : String) (m : IsMove condition w w')
      → (is_settled m.target ≡ false) ⊎ (pending_count condition w.allocations ≡ 0)
      → IsSound w'
  move-IsSound condition m free = record {
    settled = λ k r found s.
        let seen = receipt-move k condition m.change m.target m.reason m.now m.details w in
        let rows = ap (pending_count k) (move_allocations condition m) in
        elim (Bool-cases (condition == k)) [
          | inl same ↦
              let e = (eq_iff condition k).0 same in
              ground (arith, rows, free, moved_state condition m r, e)
          | inr other ↦ ground (arith, rows, m.result, sound.settled k r)
        ];
  }

  freeze-IsSound :
      (condition : String) (inventory : Inventory) (winner : String) (now : ℕ)
      (rows : List Allocation)
      → insert_shares condition
          (winner == inventory.primary_token_id)
          inventory.shares
          w.allocations
        ≡ ok rows
      → w'.allocations ≡ rows
      → w'.redemptions ≡ upsert condition (new_receipt inventory winner now) w.redemptions
      → IsSound w'
  unfolding shared_redemption_receipt new_receipt is_settled
  freeze-IsSound condition inventory winner now rows inserted ea er = record {
    settled = λ k r found s.
        let seen = lookup-upsert condition k (new_receipt inventory winner now) w.redemptions in
        elim (Bool-cases (condition == k)) [
          | inl same ↦ absurd (ground (arith, er))
          | inr other ↦ ground (
            arith,
            er,
            ea,
            insert_shares-pending k condition (winner == inventory.primary_token_id)
                inventory.shares w.allocations {rows' = rows} other inserted,
            sound.settled k r,
          )
        ];
  }

  apply-IsSound :
      (condition profile : String) (now : ℕ)
      → w' ≡ record w { allocations = set_applied condition profile now w.allocations }
      → IsSound w'
  unfolding shared_redemption_receipt
  apply-IsSound condition profile now e = record {
    settled = λ k r found s.
        ground
          (arith, e, sound.settled k r, set_applied-pending k condition profile now w.allocations);
  }

submit_started_not_settled : is_settled submit_started ≡ false
unfolding is_settled
submit_started_not_settled = refl

Step-IsSound : {w w' : Wallet} → IsSound w → Step w w' → IsSound w'
Step-IsSound sound (freeze condition inventory winner now details checked h) =
    elim (commit_freeze-cases condition inventory winner now details h) [
      | inl same ↦ same-IsSound sound same
      | inr (absent, (rows, inserted, ea, er)) ↦
          freeze-IsSound sound condition inventory winner now rows inserted ea er
    ]
Step-IsSound sound (start condition now b h) = elim (start-IsMove condition now b h) [
  | inl (_, same) ↦ same-IsSound sound same
  | inr (_, (m, e)) ↦
      move-IsSound sound condition m (inl (ap is_settled e ∙ submit_started_not_settled))
]
Step-IsSound sound (mark condition named reason now details i j guard h) =
    let (m, e) = mark-IsMove condition named reason now details i j h in
    move-IsSound sound condition m (inl (rw e at guard))
Step-IsSound sound (apply condition profile now h) =
    elim (mark_shared_allocation_applied-cases condition profile now h) [
      | inl same ↦ same-IsSound sound same
      | inr (_, e) ↦ apply-IsSound sound condition profile now e
    ]
Step-IsSound sound (complete condition named now details b h) =
    elim (complete-IsMove condition named now details b h) [
      | inl (_, same) ↦ same-IsSound sound same
      | inr (_, none_left, m) ↦ move-IsSound sound condition m (inr none_left)
    ]

abbrev pub empty : Wallet
empty = record { redemptions = []; allocations = []; transitions = [] }

empty-IsSound : IsSound empty
unfolding shared_redemption_receipt lookup
empty-IsSound = record { settled = λ k r found s. cc }

Reach-IsSound : {w w' : Wallet} → IsSound w → Reach w w' → IsSound w'
Reach-IsSound sound here = sound
Reach-IsSound sound (next reach step) = Step-IsSound (Reach-IsSound sound reach) step

-- In every wallet that the processes reach from an empty one, where they mark no settled state, a
-- condition in a settled state has no allocation that is still to be applied.
pub settled_is_applied :
    {w : Wallet} (k : String) (r : Receipt)
    → Reach empty w
    → shared_redemption_receipt k w ≡ some r
    → is_settled r.state ≡ true
    → pending_count k w.allocations ≡ 0
settled_is_applied k r reach found s = (Reach-IsSound empty-IsSound reach).settled k r found s
