-- ===== src/Distribution.antt =====
-- The distribution of a shared redemption in app/cd90_live_copy.py:
-- `_apply_shared_redemption_allocations` calls the ledgers of the strategies and the wallet's
-- coordinator in turn, each in a transaction of its own, so that an exception leaves what was
-- committed before it.

pub mod Inventory
pub mod Payouts
pub mod Rows
pub mod Marking
pub mod Delivery
pub mod Completion
pub mod Crash
mod Tests
use Prim.Native.String.{String}
use text.Mathlib.Text.{◌==◌}
use polymarket_live_copy.Prelude.{
  ℕ, Bool, true, false, Option, none, some, List, [], ◌∷◌, Result, ok, raise, if◌then◌else◌,
}
use polymarket_live_copy.Prelude.Table.{Table, lookup, upsert}
use polymarket_live_copy.Decimal.{Context}
use polymarket_live_copy.Shared.{RedemptionState, CoordinatorError}
use polymarket_live_copy.Shared.Redemption.{
  Receipt, Allocation, Wallet, shared_redemption_receipt, mark_shared_allocation_applied,
  complete_shared_redemption_distribution,
}
use polymarket_live_copy.Settlement.{SettlementError, Register}
use polymarket_live_copy.Settlement.Handoff.{
  SharedTerminal, SharedAllocation, apply_shared_condition_settlement,
}

-- What the loop raises, or one of its callees.
pub data DistributionError : Type 0 where
  missing_shared_redemption_receipt missing_shared_redemption_allocations : DistributionError
  ledger_error : SettlementError → DistributionError
  coordinator_error : CoordinatorError → DistributionError

-- The database of the coordinator, and the ledgers by their paths.
pub record World : Type 0 where
  pub wallet : Wallet
  pub ledgers : Table Register

-- What a call has done to the world, and the exception that ended it.
pub data Progress : Type 0 where
  finished : World → Progress
  stopped : DistributionError → World → Progress

abbrev pub ◌>>=◌ : Progress → (World → Progress) → Progress
finished w >>= rest = rest w
stopped e w >>= rest = stopped e w

infixl 5 ◌>>=◌
-- The ledger that is opened when no file is there.
abbrev pub empty_ledger : Register
empty_ledger = record {
  ledger = record {
    account = none;
    positions = [];
    reservations = [];
    attempts = [];
    targets = [];
    transitions = [];
  };
  mappings = [];
  receipts = [];
  quarantines = [];
  history = [];
}

abbrev pub or_empty : Option Register → Register
or_empty none = empty_ledger
or_empty (some r) = r

unfoldable pub ledger_at : String → Table Register → Register
ledger_at path ledgers = or_empty (lookup path ledgers)

-- SELECT * … WHERE condition_id = ? ORDER BY profile_key. The rows of a condition are inserted in
-- the order of their profiles.
unfoldable pub shared_condition_allocations : String → List Allocation → List Allocation
shared_condition_allocations condition [] = []
shared_condition_allocations condition (a ∷ rest) =
    if a.condition_id == condition
    then a ∷ shared_condition_allocations condition rest
    else shared_condition_allocations condition rest

-- The argument `allocation` of the ledger's operation.
unfoldable pub share_of : Receipt → Allocation → SharedAllocation
share_of receipt a = record {
  primary_token_id = receipt.primary_token_id;
  secondary_token_id = receipt.secondary_token_id;
  inventory_hash = receipt.inventory_hash;
  primary_quantity = a.primary_quantity;
  secondary_quantity = a.secondary_quantity;
  primary_cost_basis_usd = a.primary_cost_basis_usd;
  secondary_cost_basis_usd = a.secondary_cost_basis_usd;
  payout_usd = a.payout_usd;
}

module _ (c : Context) (condition : String) (terminal : SharedTerminal) (now : ℕ)
    (json : Allocation → String) where
  -- The call of the ledger.
  unfoldable pub settle_ledger :
      Receipt → Allocation → Table Register → Result SettlementError (Bool × Register)
  settle_ledger receipt a ledgers =
      apply_shared_condition_settlement c condition terminal (share_of receipt a)
        receipt.transaction_hash now (json a) (ledger_at a.ledger_path ledgers)

  -- The call of the coordinator, after the ledger has committed.
  unfoldable pub mark_applied : Allocation → World → Progress
  mark_applied a w = elim (mark_shared_allocation_applied condition a.profile_key now w.wallet) [
    | raise e ↦ stopped (coordinator_error e) w
    | ok wallet ↦ finished (record w { wallet = wallet })
  ]

  -- The body of the loop.
  unfoldable pub apply_allocation : Receipt → Allocation → World → Progress
  apply_allocation receipt a w =
      if a.applied then finished w else elim (settle_ledger receipt a w.ledgers) [
        | raise e ↦ stopped (ledger_error e) w
        | ok settled ↦
            mark_applied a (record w { ledgers = upsert a.ledger_path settled.1 w.ledgers })
      ]

  unfoldable pub apply_allocations : Receipt → List Allocation → World → Progress
  apply_allocations receipt [] w = finished w
  apply_allocations receipt (a ∷ rest) w =
      apply_allocation receipt a w >>= apply_allocations receipt rest

  -- The end of the loop: whether the distribution is complete, and the world.
  unfoldable pub complete_distribution :
      Option RedemptionState → String → Progress → Result (DistributionError × World) (Bool × World)
  complete_distribution target details (stopped e w) = raise (e, w)
  complete_distribution target details (finished w) =
      elim (complete_shared_redemption_distribution condition target now details w.wallet) [
        | raise e ↦ raise (coordinator_error e, w)
        | ok ended ↦ ok (ended.0, record w { wallet = ended.1 })
      ]

  unfoldable pub apply_shared_redemption_allocations :
      Option RedemptionState → String → World → Result (DistributionError × World) (Bool × World)
  apply_shared_redemption_allocations target details w =
      elim (shared_redemption_receipt condition w.wallet) [
        | none ↦ raise (missing_shared_redemption_receipt, w)
        | some receipt ↦ elim (shared_condition_allocations condition w.wallet.allocations) [
          | [] ↦ raise (missing_shared_redemption_allocations, w)
          | a ∷ [] ↦ raise (missing_shared_redemption_allocations, w)
          | a ∷ b ∷ rest ↦
              complete_distribution target details (apply_allocations receipt (a ∷ b ∷ rest) w)
        ]
      ]
