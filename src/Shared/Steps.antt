-- ===== src/Shared/Steps.antt =====
-- The processes that share the wallet, as a relation: each step is one transaction that commits.
use Prim.Native.String.{String}
use text.Mathlib.Text.{◌==◌}
use text.Mathlib.TextEquality.{eq_iff}
use polymarket_live_copy.Prelude.{
  ℕ, ◌≡◌, ◌⊎◌, inl, inr, Bool, true, false, Option, none, some, List, ok, arith, Bool-cases,
  Option-cases, Result-cases,
}
use polymarket_live_copy.Prelude.Table.{upsert, lookup-upsert}
use polymarket_live_copy.Shared.{RedemptionState, is_distribution, is_settled}
use polymarket_live_copy.Shared.Redemption.{
  Receipt, Allocation, Wallet, Inventory, append_transition, shared_redemption_receipt,
  check_inventory, commit_freeze, new_receipt, insert_shares, start_shared_redemption_submission,
  mark_shared_redemption_state, mark_shared_allocation_applied, set_applied, find_allocation,
  complete_shared_redemption_distribution,
}
use polymarket_live_copy.Shared.Moves.{
  Follows, Follows-refl, IsMove-Follows, start-IsMove, mark-IsMove, complete-IsMove,
}

abbrev pub names_settled : Option RedemptionState → Bool
names_settled none = false
names_settled (some s) = is_settled s

-- The callers (app/cd90_live_copy.py) mark no settled state; they go there by `complete`.
-- The inventory of a freeze was read before its transaction, and may be out of date by then.
pub data Step (w w' : Wallet) : Type 0 where
  freeze :
      (condition : String) (inventory : Inventory) (winner : String) (now : ℕ) (details : String)
      → check_inventory inventory winner ≡ ok tt
      → commit_freeze condition inventory winner now details w ≡ ok w'
      → Step w w'
  start :
      (condition : String) (now : ℕ) (started : Bool)
      → start_shared_redemption_submission condition now w ≡ ok (started, w')
      → Step w w'
  mark :
      (condition : String) (target : Option RedemptionState) (reason : String) (now : ℕ)
      (details : String) (transaction_id transaction_hash : Option String)
      → names_settled target ≡ false
      → mark_shared_redemption_state condition target reason now details transaction_id
          transaction_hash w
        ≡ ok w'
      → Step w w'
  apply :
      (condition profile : String) (now : ℕ)
      → mark_shared_allocation_applied condition profile now w ≡ ok w'
      → Step w w'
  complete :
      (condition : String) (target : Option RedemptionState) (now : ℕ) (details : String)
      (done : Bool)
      → complete_shared_redemption_distribution condition target now details w ≡ ok (done, w')
      → Step w w'

pub data Reach (w : Wallet) : Wallet → Type 0 where
  here : Reach w w
  next : {v u : Wallet} → Reach w v → Step v u → Reach w u

pub commit_freeze-cases :
    (condition : String) (inventory : Inventory) (winner : String) (now : ℕ) (details : String)
    {w w' : Wallet}
    → commit_freeze condition inventory winner now details w ≡ ok w'
    → (w' ≡ w)
      ⊎ ((shared_redemption_receipt condition w ≡ none)
          × ((rows : List Allocation) × (insert_shares condition
                  (winner == inventory.primary_token_id)
                  inventory.shares
                  w.allocations
                ≡ ok rows)
              × (w'.allocations ≡ rows)
              × (w'.redemptions
                  ≡ upsert condition (new_receipt inventory winner now) w.redemptions)))
unfolding commit_freeze append_transition
commit_freeze-cases condition inventory winner now details {w} {w'} h =
    elim (Option-cases (shared_redemption_receipt condition w)) [
      | inr (r, there) ↦ inl (ground arith)
      | inl absent ↦
          elim (Result-cases (
            insert_shares condition (winner == inventory.primary_token_id) inventory.shares
              w.allocations)) [
                | inl (e, refused) ↦ absurd (ground arith)
                | inr (rows, inserted) ↦ inr (absent, (rows, inserted, ground arith, ground arith))
              ]
    ]

pub mark_shared_allocation_applied-cases :
    (condition profile : String) (now : ℕ) {w w' : Wallet}
    → mark_shared_allocation_applied condition profile now w ≡ ok w'
    → (w' ≡ w)
      ⊎ (((r : Receipt) × (shared_redemption_receipt condition w ≡ some r)
            × (is_distribution r.state ≡ true))
          × (w' ≡ record w { allocations = set_applied condition profile now w.allocations }))
unfolding mark_shared_allocation_applied
mark_shared_allocation_applied-cases condition profile now {w} {w'} h =
    elim (Option-cases (shared_redemption_receipt condition w)) [
      | inl missing ↦ absurd (ground arith)
      | inr (r, found) ↦ elim (Bool-cases (is_distribution r.state)) [
        | inr outside ↦ absurd (ground arith)
        | inl inside ↦ elim (Option-cases (find_allocation condition profile w.allocations)) [
          | inl none_there ↦ absurd (ground arith)
          | inr (a, there) ↦ elim (Bool-cases a.applied) [
            | inl done ↦ inl (ground arith)
            | inr not_done ↦ inr ((r, found, inside), ground arith)
          ]
        ]
      ]
    ]

-- A receipt is never removed, and follows the table of transitions in each step.
pub Step-Follows :
    (k : String) (r : Receipt) {w w' : Wallet}
    → Step w w'
    → shared_redemption_receipt k w ≡ some r
    → (r' : Receipt) × (shared_redemption_receipt k w' ≡ some r') × Follows r r'
unfolding shared_redemption_receipt
Step-Follows k r {w} {w'} (freeze condition inventory winner now details checked h) found =
    elim (commit_freeze-cases condition inventory winner now details h) [
      | inl same ↦ (r, ground arith, Follows-refl r)
      | inr (absent, (rows, inserted, ea, er)) ↦ (
        r,
        ground (
          arith,
          er,
          lookup-upsert condition k (new_receipt inventory winner now) w.redemptions,
          eq_iff condition k,
        ),
        Follows-refl r,
      )
    ]
Step-Follows k r (start condition now b h) found = elim (start-IsMove condition now b h) [
  | inl (_, same) ↦ (r, ground arith, Follows-refl r)
  | inr (_, (m, _)) ↦ IsMove-Follows k condition r m found
]
Step-Follows k r (mark condition named reason now details i j _ h) found =
    IsMove-Follows k condition r (mark-IsMove condition named reason now details i j h).0 found
Step-Follows k r (apply condition profile now h) found =
    elim (mark_shared_allocation_applied-cases condition profile now h) [
      | inl same ↦ (r, ground arith, Follows-refl r)
      | inr (_, changed) ↦ (r, ground arith, Follows-refl r)
    ]
Step-Follows k r (complete condition named now details b h) found =
    elim (complete-IsMove condition named now details b h) [
      | inl (_, same) ↦ (r, ground arith, Follows-refl r)
      | inr (_, _, m) ↦ IsMove-Follows k condition r m found
    ]
