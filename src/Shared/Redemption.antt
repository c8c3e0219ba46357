-- ===== src/Shared/Redemption.antt =====
-- The redemption receipts of app/live_wallet_coordinator.py: the tables, and each operation as one
-- transaction. Identifiers come as the source normalises them, with an empty one as `none`.
use Prim.Native.String.{String}
use text.Mathlib.Text.{◌==◌}
use polymarket_live_copy.Prelude.{
  ℕ, ◌+◌, Bool, true, false, not, ◌&&◌, ◌||◌, Option, none, some, List, [], ◌∷◌, ◌++◌, Result, ok,
  raise, raise_if, or_raise, ◌>>=◌, ◌>>◌, if◌then◌else◌, is_some, ◌==◌ as nat_eq,
}
use polymarket_live_copy.Prelude.Table.{Table, lookup, upsert, update}
use polymarket_live_copy.Decimal.{Decimal}
use polymarket_live_copy.Shared.{
  RedemptionState, ready, not_submitted_retryable, submit_started, submitted_unreconciled, allowed,
  is_distribution, CoordinatorError, redemption_winner_changed, active_order_reservation,
  active_local_redemption, winner_token_mismatch, missing_receipt,
  retryable_has_transaction_evidence, missing_transaction_id, invalid_state_transition,
  transaction_id_changed, transaction_hash_changed, apply_outside_distribution,
  allocation_not_found, integrity_error,
}

-- A row of shared_condition_redemptions.
pub record Receipt : Type 0 where
  pub state : RedemptionState
  pub primary_token_id : String
  pub secondary_token_id : String
  pub winner_token_id : String
  pub primary_quantity : Decimal
  pub secondary_quantity : Decimal
  pub expected_payout_usd : Decimal
  pub inventory_hash : String
  pub transaction_id : Option String
  pub transaction_hash : Option String
  pub created_at_ms : ℕ
  pub updated_at_ms : ℕ

-- A row of shared_condition_allocations; `applied` is apply_state = 'APPLIED'.
pub record Allocation : Type 0 where
  pub condition_id : String
  pub profile_key : String
  pub ledger_path : String
  pub primary_quantity : Decimal
  pub primary_cost_basis_usd : Decimal
  pub secondary_quantity : Decimal
  pub secondary_cost_basis_usd : Decimal
  pub payout_usd : Decimal
  pub applied : Bool
  pub applied_at_ms : Option ℕ

-- A row of shared_condition_transitions.
pub record Transition : Type 0 where
  pub condition_id : String
  pub state : RedemptionState
  pub reason : String
  pub created_at_ms : ℕ
  pub details : String

-- The tables; the newest transition stands first.
pub record Wallet : Type 0 where
  pub redemptions : Table Receipt
  pub allocations : List Allocation
  pub transitions : List Transition

-- What `_shared_condition_inventory` returns, as far as the redemption uses it.
pub record Share : Type 0 where
  pub profile_key : String
  pub ledger_path : String
  pub primary_quantity : Decimal
  pub primary_cost_basis_usd : Decimal
  pub secondary_quantity : Decimal
  pub secondary_cost_basis_usd : Decimal

pub record Inventory : Type 0 where
  pub primary_token_id : String
  pub secondary_token_id : String
  pub primary_quantity : Decimal
  pub secondary_quantity : Decimal
  pub shares : List Share
  pub inventory_hash : String
  pub active_order_reservation_count : ℕ
  pub active_local_redemption_count : ℕ

-- `_append_shared_condition_transition`
unfoldable pub append_transition : String → RedemptionState → String → ℕ → String → Wallet → Wallet
append_transition condition state reason now details w = record w {
  transitions =
      record {
        condition_id = condition;
        state = state;
        reason = reason;
        created_at_ms = now;
        details = details;
      }
      ∷ w.transitions;
}

-- SELECT … WHERE condition_id = ?
unfoldable pub shared_redemption_receipt : String → Wallet → Option Receipt
shared_redemption_receipt condition w = lookup condition w.redemptions

abbrev pub is_row : String → String → Allocation → Bool
is_row condition profile a = a.condition_id == condition && a.profile_key == profile

unfoldable pub find_allocation : String → String → List Allocation → Option Allocation
find_allocation condition profile [] = none
find_allocation condition profile (a ∷ as') =
    if is_row condition profile a then some a else find_allocation condition profile as'

-- INSERT of one allocation, which fails if its primary key is there.
unfoldable pub insert_allocation :
    Allocation → List Allocation → Result CoordinatorError (List Allocation)
insert_allocation a rows = do
  raise_if (is_some (find_allocation a.condition_id a.profile_key rows)) integrity_error
  ok (rows ++ a ∷ [])

unfoldable pub allocate : String → Bool → Share → Allocation
allocate condition is_primary s = record {
  condition_id = condition;
  profile_key = s.profile_key;
  ledger_path = s.ledger_path;
  primary_quantity = s.primary_quantity;
  primary_cost_basis_usd = s.primary_cost_basis_usd;
  secondary_quantity = s.secondary_quantity;
  secondary_cost_basis_usd = s.secondary_cost_basis_usd;
  payout_usd = if is_primary then s.primary_quantity else s.secondary_quantity;
  applied = false;
  applied_at_ms = none;
}

unfoldable pub insert_shares :
    String → Bool → List Share → List Allocation → Result CoordinatorError (List Allocation)
insert_shares condition is_primary [] rows = ok rows
insert_shares condition is_primary (s ∷ rest) rows =
    insert_allocation (allocate condition is_primary s) rows
    >>= insert_shares condition is_primary rest

unfoldable pub new_receipt : Inventory → String → ℕ → Receipt
new_receipt inventory winner now = record {
  state = ready;
  primary_token_id = inventory.primary_token_id;
  secondary_token_id = inventory.secondary_token_id;
  winner_token_id = winner;
  primary_quantity = inventory.primary_quantity;
  secondary_quantity = inventory.secondary_quantity;
  expected_payout_usd =
      if winner == inventory.primary_token_id
      then inventory.primary_quantity
      else inventory.secondary_quantity;
  inventory_hash = inventory.inventory_hash;
  transaction_id = none;
  transaction_hash = none;
  created_at_ms = now;
  updated_at_ms = now;
}

-- The guards between the reading of the inventory and the transaction.
unfoldable pub check_inventory : Inventory → String → Result CoordinatorError (Unit {0})
check_inventory inventory winner = do
  raise_if (not (nat_eq inventory.active_order_reservation_count 0)) active_order_reservation
  raise_if (not (nat_eq inventory.active_local_redemption_count 0)) active_local_redemption
  raise_if (not (winner == inventory.primary_token_id || winner == inventory.secondary_token_id))
      winner_token_mismatch

-- The transaction of `freeze_shared_condition_redemption`: a receipt that another process has
-- written meanwhile is left as it is. `details` is the JSON of the hash and the owners.
unfoldable pub commit_freeze :
    String → Inventory → String → ℕ → String → Wallet → Result CoordinatorError Wallet
commit_freeze condition inventory winner now details w =
    if is_some (shared_redemption_receipt condition w) then ok w else do
      rows ←
          insert_shares condition (winner == inventory.primary_token_id) inventory.shares
            w.allocations
      ok (
          append_transition condition ready "EXACT_MULTI_SLEEVE_INVENTORY_FROZEN" now details
            (record w {
              redemptions = upsert condition (new_receipt inventory winner now) w.redemptions;
              allocations = rows;
            }))

-- A receipt that is there is returned, unless the winner has changed. The inventory is the result
-- of `_shared_condition_inventory`, which may raise.
unfoldable pub freeze_shared_condition_redemption :
    String
    → Result CoordinatorError Inventory
    → String
    → ℕ
    → String
    → Wallet
    → Result CoordinatorError Wallet
freeze_shared_condition_redemption condition read winner now details w =
    elim (shared_redemption_receipt condition w) [
      | some existing ↦
          if existing.winner_token_id == winner then ok w else raise redemption_winner_changed
      | none ↦ do
        inventory ← read
        check_inventory inventory winner
        commit_freeze condition inventory winner now details w
    ]

abbrev pub may_start : RedemptionState → Bool
may_start ready = true
may_start not_submitted_retryable = true
may_start _ = false

-- The two statements that every move of a receipt makes.
unfoldable pub move :
    String → (Receipt → Receipt) → RedemptionState → String → ℕ → String → Wallet → Wallet
unfolding append_transition
move condition change target reason now details w =
    append_transition condition target reason now details (record w {
      redemptions =
          update condition (λ r. record (change r) { state = target; updated_at_ms = now })
            w.redemptions;
    })

abbrev pub unchanged : Receipt → Receipt
unchanged r = r

unfoldable pub start_shared_redemption_submission :
    String → ℕ → Wallet → Result CoordinatorError (Bool × Wallet)
start_shared_redemption_submission condition now w = do
  row ← or_raise (shared_redemption_receipt condition w) missing_receipt
  if not (may_start row.state) then ok (false, w) else do
    raise_if (is_some row.transaction_id || is_some row.transaction_hash)
        retryable_has_transaction_evidence
    ok (true, move condition unchanged submit_started "" now "{}" w)

-- Both are given, and they differ.
abbrev pub differs : Option String → Option String → Bool
differs (some a) (some b) = not (a == b)
differs _ _ = false

-- `incoming or existing or None`
abbrev pub or_else : Option String → Option String → Option String
or_else (some a) _ = some a
or_else none b = b

-- `_validate_shared_redemption_transition`; `none` is a text that names no state.
unfoldable pub validate_transition :
    RedemptionState → Option RedemptionState → Result CoordinatorError RedemptionState
validate_transition current none = raise invalid_state_transition
validate_transition current (some target) =
    if allowed current target then ok target else raise invalid_state_transition

unfoldable pub mark_shared_redemption_state :
    (condition : String)
    → Option RedemptionState
    → (reason : String) → ℕ
    → (details : String) → (transaction_id transaction_hash : Option String) → Wallet
    → Result CoordinatorError Wallet
mark_shared_redemption_state condition named reason now details transaction_id transaction_hash w =
    do
      row ← or_raise (shared_redemption_receipt condition w) missing_receipt
      target ← validate_transition row.state named
      raise_if (differs row.transaction_id transaction_id) transaction_id_changed
      raise_if (differs row.transaction_hash transaction_hash) transaction_hash_changed
      ok (
          move condition
            (λ r. record r {
              transaction_id = or_else transaction_id row.transaction_id;
              transaction_hash = or_else transaction_hash row.transaction_hash;
            })
            target reason now details w)

unfoldable pub mark_shared_redemption_submission :
    (condition : String)
    → (transaction_id transaction_hash : Option String) → ℕ
    → Wallet
    → Result CoordinatorError Wallet
mark_shared_redemption_submission condition none transaction_hash now w =
    raise missing_transaction_id
mark_shared_redemption_submission condition (some transaction) transaction_hash now w =
    mark_shared_redemption_state condition (some submitted_unreconciled) "" now "{}"
      (some transaction) transaction_hash w

abbrev pub coalesce : Option ℕ → ℕ → Option ℕ
coalesce (some t) _ = some t
coalesce none t = some t

unfoldable pub set_applied : String → String → ℕ → List Allocation → List Allocation
set_applied condition profile now [] = []
set_applied condition profile now (a ∷ rest) =
    if is_row condition profile a
    then record a { applied = true; applied_at_ms = coalesce a.applied_at_ms now } ∷ rest
    else a ∷ set_applied condition profile now rest

unfoldable pub mark_shared_allocation_applied :
    (condition profile : String) → ℕ → Wallet → Result CoordinatorError Wallet
mark_shared_allocation_applied condition profile now w = do
  receipt ← or_raise (shared_redemption_receipt condition w) missing_receipt
  raise_if (not (is_distribution receipt.state)) apply_outside_distribution
  allocation ← or_raise (find_allocation condition profile w.allocations) allocation_not_found
  ok (
      if allocation.applied
      then w
      else record w { allocations = set_applied condition profile now w.allocations })

-- SELECT COUNT(*) … WHERE condition_id = ? AND apply_state <> 'APPLIED'
unfoldable pub pending_count : String → List Allocation → ℕ
pending_count condition [] = 0
pending_count condition (a ∷ rest) =
    (if a.condition_id == condition && not a.applied then 1 else 0) + pending_count condition rest

unfoldable pub complete_shared_redemption_distribution :
    (condition : String)
    → Option RedemptionState
    → ℕ
    → (details : String) → Wallet
    → Result CoordinatorError (Bool × Wallet)
complete_shared_redemption_distribution condition named now details w = do
  receipt ← or_raise (shared_redemption_receipt condition w) missing_receipt
  target ← validate_transition receipt.state named
  if not (nat_eq (pending_count condition w.allocations) 0)
      then ok (false, w)
      else ok (true, move condition unchanged target "" now details w)
