-- ===== src/Distribution/Inventory.antt =====
-- `_shared_condition_inventory` of app/live_wallet_coordinator.py: what the ledgers of the
-- strategies hold of a condition. The ledgers are read one after the other, in the order of their
-- profiles.
use Prim.Native.String.{String}
use text.Mathlib.Text.{◌==◌}
use polymarket_live_copy.Prelude.{
  ℕ, ◌+◌, Bool, true, false, not, ◌&&◌, ◌||◌, Option, none, some, List, [], ◌∷◌, ◌++◌, Result, ok,
  raise, raise_if, or_raise, ◌>>=◌, ◌>>◌, if◌then◌else◌, is_some, ◌==◌ as nat_eq,
}
use polymarket_live_copy.Prelude.Int.{ltb_ℤ}
use polymarket_live_copy.Prelude.Table.{Table, lookup}
use polymarket_live_copy.Decimal.{Context, Decimal, decimal_zero, add}
use polymarket_live_copy.Sizing.{is_buy}
use polymarket_live_copy.Store.{Position, Reservation}
use polymarket_live_copy.Settlement.{Mapping, Holding, Register, is_zero, holding_of}
use polymarket_live_copy.Settlement.Handoff.{active_orders, blocks_handoff, is_blank}
use polymarket_live_copy.Shared.{
  CoordinatorError, invalid_shared_condition_id, ledger_not_found, missing_condition_mapping,
  condition_mapping_mismatch, invalid_primary_quantity, invalid_secondary_quantity,
  invalid_primary_cost, invalid_secondary_cost, requires_multiple_owners,
}
use polymarket_live_copy.Shared.Redemption.{Share, Inventory}

-- What is read of a row of sleeves; the profile is the primary key.
pub record Sleeve : Type 0 where
  pub profile_key : String
  pub ledger_path : String

-- What the loop has gathered.
pub record Gathered : Type 0 where
  pub mapping : Option Mapping
  pub shares : List Share
  pub active_order_reservations : ℕ
  pub active_local_redemptions : ℕ
  pub exposed_profiles : List String

abbrev pub nothing_gathered : Gathered
nothing_gathered = record {
  mapping = none;
  shares = [];
  active_order_reservations = 0;
  active_local_redemptions = 0;
  exposed_profiles = [];
}

-- `_decimal`: a value that is finite and not negative.
unfoldable pub natural : CoordinatorError → Decimal → Result CoordinatorError Decimal
natural e d = if ltb_ℤ d decimal_zero then raise e else ok d

-- SELECT COUNT(*) FROM positions WHERE condition_id = ? AND CAST(quantity AS REAL) > 0, above zero
unfoldable pub holds_condition : String → Table Position → Bool
holds_condition condition [] = false
holds_condition condition ((_, p) ∷ rest) =
    (p.condition_id == condition && ltb_ℤ decimal_zero p.quantity) || holds_condition condition rest

-- SELECT COUNT(*) … WHERE active = 1 AND side = 'BUY' AND condition_id = ?, above zero
unfoldable pub reserves_condition : String → Table Reservation → Bool
reserves_condition condition [] = false
reserves_condition condition ((_, r) ∷ rest) =
    (r.active && is_buy r.side && r.condition_id == condition) || reserves_condition condition rest

abbrev pub clashes : Option Mapping → Mapping → Bool
clashes none m = false
clashes (some n) m =
    not (n.primary_token_id == m.primary_token_id && n.secondary_token_id == m.secondary_token_id)

abbrev pub add_if : Bool → ℕ → ℕ
add_if true n = n + 1
add_if false n = n

-- The order reservations and the receipt of one ledger.
unfoldable pub gather_activity :
    String → Sleeve → Mapping → Holding → Register → Gathered → Gathered
gather_activity condition sleeve m h ledger g =
    let count =
      active_orders condition m.primary_token_id m.secondary_token_id ledger.ledger.reservations in
    let receipt = lookup condition ledger.receipts in
    record g {
      mapping = some m;
      active_order_reservations = g.active_order_reservations + count;
      active_local_redemptions = add_if (blocks_handoff receipt) g.active_local_redemptions;
      exposed_profiles =
          if ltb_ℤ decimal_zero h.primary_quantity
            || ltb_ℤ decimal_zero h.secondary_quantity
            || not (nat_eq count 0)
            || is_some receipt
          then sleeve.profile_key ∷ g.exposed_profiles
          else g.exposed_profiles;
    }

-- The share of one ledger, unless it holds neither token.
unfoldable pub gather_share : Sleeve → Holding → Gathered → Result CoordinatorError Gathered
gather_share sleeve h g =
    if is_zero h.primary_quantity && is_zero h.secondary_quantity then ok g else do
      primary_cost ← natural invalid_primary_cost h.primary_cost_basis_usd
      secondary_cost ← natural invalid_secondary_cost h.secondary_cost_basis_usd
      ok (record g {
        shares =
            g.shares
            ++ record {
              profile_key = sleeve.profile_key;
              ledger_path = sleeve.ledger_path;
              primary_quantity = h.primary_quantity;
              primary_cost_basis_usd = primary_cost;
              secondary_quantity = h.secondary_quantity;
              secondary_cost_basis_usd = secondary_cost;
            }
              ∷ [];
      })

-- A ledger without a row of condition_mappings.
unfoldable pub check_unmapped : String → Register → Gathered → Result CoordinatorError Gathered
check_unmapped condition ledger g = do
  raise_if
      (holds_condition condition ledger.ledger.positions
        || reserves_condition condition ledger.ledger.reservations
        || is_some (lookup condition ledger.receipts))
      missing_condition_mapping
  ok g

unfoldable pub gather_mapped :
    String → Sleeve → Mapping → Register → Gathered → Result CoordinatorError Gathered
gather_mapped condition sleeve m ledger g = do
  raise_if (clashes g.mapping m) condition_mapping_mismatch
  let h = holding_of m ledger.ledger.positions
  primary ← natural invalid_primary_quantity h.primary_quantity
  secondary ← natural invalid_secondary_quantity h.secondary_quantity
  gather_share sleeve h (gather_activity condition sleeve m h ledger g)

-- The body of the loop over the sleeves.
unfoldable pub gather_sleeve :
    String → Table Register → Sleeve → Gathered → Result CoordinatorError Gathered
gather_sleeve condition ledgers sleeve g = do
  ledger ← or_raise (lookup sleeve.ledger_path ledgers) ledger_not_found
  elim (lookup condition ledger.mappings) [
    | none ↦ check_unmapped condition ledger g
    | some m ↦ gather_mapped condition sleeve m ledger g
  ]

-- The sleeves come in the order of their profiles, as `_sleeves` selects them.
unfoldable pub gather_sleeves :
    String → Table Register → List Sleeve → Gathered → Result CoordinatorError Gathered
gather_sleeves condition ledgers [] g = ok g
gather_sleeves condition ledgers (s ∷ rest) g =
    gather_sleeve condition ledgers s g >>= gather_sleeves condition ledgers rest

abbrev pub has_two {ℓ} : {A : Type ℓ} → List A → Bool
has_two (_ ∷ _ ∷ _) = true
has_two _ = false

module _ (c : Context) where
  -- `sum((item[…] for item in allocations), ZERO)`
  unfoldable pub sum_primary : Decimal → List Share → Decimal
  sum_primary total [] = total
  sum_primary total (s ∷ rest) = sum_primary (add c total s.primary_quantity) rest

  unfoldable pub sum_secondary : Decimal → List Share → Decimal
  sum_secondary total [] = total
  sum_secondary total (s ∷ rest) = sum_secondary (add c total s.secondary_quantity) rest

  -- The tests behind the loop, and the result. `digest` is the hash of the canonical JSON.
  unfoldable pub inventory_of :
      (Mapping → List Share → String) → Gathered → Result CoordinatorError Inventory
  inventory_of digest g = do
    m ← or_raise g.mapping requires_multiple_owners
    raise_if (not (has_two g.exposed_profiles)) requires_multiple_owners
    raise_if
        (not (has_two g.shares)
          && nat_eq g.active_order_reservations 0
          && nat_eq g.active_local_redemptions 0)
        requires_multiple_owners
    ok (record {
      primary_token_id = m.primary_token_id;
      secondary_token_id = m.secondary_token_id;
      primary_quantity = sum_primary decimal_zero g.shares;
      secondary_quantity = sum_secondary decimal_zero g.shares;
      shares = g.shares;
      inventory_hash = digest m g.shares;
      active_order_reservation_count = g.active_order_reservations;
      active_local_redemption_count = g.active_local_redemptions;
    })

  unfoldable pub shared_condition_inventory :
      (Mapping → List Share → String)
      → String
      → List Sleeve
      → Table Register
      → Result CoordinatorError Inventory
  shared_condition_inventory digest condition sleeves ledgers = do
    raise_if (is_blank condition) invalid_shared_condition_id
    g ← gather_sleeves condition ledgers sleeves nothing_gathered
    inventory_of digest g
