-- ===== src/Distribution/Tests.antt =====
-- Runs of a distribution to two ledgers, and the theorems where their hypotheses hold.
use Prim.Native.String.{String}
use polymarket_live_copy.Prelude.{
  ℕ, ◌*◌, ◌^◌, ◌≡◌, refl, Bool, true, false, none, some, [], ◌∷◌, Result, ok, raise, arith,
}
use polymarket_live_copy.Prelude.Int.{pos, ◌+ℤ◌, ◌-ℤ◌}
use polymarket_live_copy.Prelude.Table.{lookup, upsert, update}
use polymarket_live_copy.Decimal.{
  Context, Decimal, decimal_zero, add, sub, unit, literal, round, round_ratio,
}
use polymarket_live_copy.Shared.{distributing, redeemed, allowed, is_distribution}
use polymarket_live_copy.Shared.Redemption.{
  Receipt, Allocation, shared_redemption_receipt, find_allocation, pending_count,
}
use polymarket_live_copy.Store.{Account}
use polymarket_live_copy.Settlement.{
  SettlementError, Register, append_redemption_transition, latest_history,
}
use polymarket_live_copy.Settlement.Receipts.{insert_receipt}
use polymarket_live_copy.Settlement.Settle.{
  written_off, write_off, write_settlement, close_receipt, credit,
}
use polymarket_live_copy.Settlement.Handoff.{
  wallet as redeemed_share, check_allocation, check_mapping, is_empty_position, confirm_settlement,
  active_orders, matches, check_inventory, write_receipt, settle_share,
  apply_shared_condition_settlement,
}
use polymarket_live_copy.Distribution.{
  World, ledger_at, shared_condition_allocations, share_of, settle_ledger, mark_applied,
  apply_allocation, apply_shared_redemption_allocations,
}
use polymarket_live_copy.Shared.{CoordinatorError, ready}
use polymarket_live_copy.Shared.Redemption.{
  Share, insert_allocation, allocate, insert_shares, new_receipt,
  check_inventory as checks_of_freeze, commit_freeze, freeze_shared_condition_redemption,
  append_transition,
}
use polymarket_live_copy.Prelude.{List}
use polymarket_live_copy.Shared.Redemption.{Wallet}
use polymarket_live_copy.Settlement.{holding_of, Mapping}
use polymarket_live_copy.Distribution.Inventory.{
  Sleeve, natural, gather_activity, gather_share, gather_mapped, gather_sleeve, gather_sleeves,
  has_two, sum_primary, sum_secondary, inventory_of, shared_condition_inventory,
}
use polymarket_live_copy.Distribution.Payouts.{sum_payouts, frozen_payout_is_allocated}
use polymarket_live_copy.Distribution.Rows.{is_keyed}
use polymarket_live_copy.Distribution.Delivery.{is_fresh, is_placed, AcceptsAll, DeliversAll}
use polymarket_live_copy.Distribution.Completion.{IsEnded, distribution_completes}
use polymarket_live_copy.Distribution.Crash.{crash_credits_once}

abbrev context : Context
context = record { prec = 28; places = 40; prec_pos = omega arith }

-- n hundredths
abbrev cents : ℕ → Decimal
cents n = pos (n * 10 ^ 38)

abbrev bank : Account
bank = record {
  initial_capital_usd = cents 1200;
  cash_usd = cents 1000;
  realized_pnl_usd = cents 500;
  fees_usd = decimal_zero;
}

-- A ledger with this many shares of the winner, at fifty cents each.
abbrev owner : ℕ → Register
owner n = record {
  ledger = record {
    account = some bank;
    positions =
        (
          "p",
          record {
            quantity = cents (n * 100);
            cost_basis_usd = cents (n * 50);
            condition_id = "c";
          },
        )
        ∷ [];
    reservations = [];
    attempts = [];
    targets = [];
    transitions = [];
  };
  mappings = ("c", record { primary_token_id = "p"; secondary_token_id = "q" }) ∷ [];
  receipts = [];
  quarantines = [];
  history = [];
}

abbrev allocation : String → ℕ → Allocation
allocation profile n = record {
  condition_id = "c";
  profile_key = profile;
  ledger_path = profile;
  primary_quantity = cents (n * 100);
  primary_cost_basis_usd = cents (n * 50);
  secondary_quantity = decimal_zero;
  secondary_cost_basis_usd = decimal_zero;
  payout_usd = cents (n * 100);
  applied = false;
  applied_at_ms = none;
}

abbrev receipt : Receipt
receipt = record {
  state = distributing;
  primary_token_id = "p";
  secondary_token_id = "q";
  winner_token_id = "p";
  primary_quantity = cents 700;
  secondary_quantity = decimal_zero;
  expected_payout_usd = cents 700;
  inventory_hash = "h";
  transaction_id = some "x";
  transaction_hash = some "y";
  created_at_ms = 1;
  updated_at_ms = 5;
}

abbrev world : World
world = record {
  wallet = record {
    redemptions = ("c", receipt) ∷ [];
    allocations = allocation "a" 4 ∷ allocation "b" 3 ∷ [];
    transitions = [];
  };
  ledgers = ("a", owner 4) ∷ ("b", owner 3) ∷ [];
}

abbrev json : Allocation → String
json a = "{}"

abbrev register_of : Result SettlementError (Bool × Register) → Register
register_of (ok (b, w)) = w
register_of (raise e) = owner 0

abbrev settled : Allocation → Register
settled a = register_of (settle_ledger context "c" redeemed_share 9 json receipt a world.ledgers)

-- What the runs compute with.
run : Allocation → Register
unfolding lookup upsert update add sub unit literal round round_ratio ◌+ℤ◌ ◌-ℤ◌
    append_redemption_transition latest_history insert_receipt written_off write_off
    write_settlement close_receipt credit check_allocation check_mapping is_empty_position
    confirm_settlement active_orders matches check_inventory write_receipt settle_share
    apply_shared_condition_settlement ledger_at share_of settle_ledger
run = settled

first_run :
    settle_ledger context "c" redeemed_share 9 json receipt (allocation "a" 4) world.ledgers
    ≡ ok (true, settled (allocation "a" 4))
unfolding run
first_run = refl

second_run :
    settle_ledger context "c" redeemed_share 9 json receipt (allocation "b" 3) world.ledgers
    ≡ ok (true, settled (allocation "b" 3))
unfolding run
second_run = refl

found_run : shared_redemption_receipt "c" world.wallet ≡ some receipt
unfolding shared_redemption_receipt lookup
found_run = refl

running : is_distribution distributing ≡ true
unfolding is_distribution
running = refl

admitted : allowed distributing redeemed ≡ true
unfolding allowed
admitted = refl

keyed_run : is_keyed world.wallet.allocations ≡ true
unfolding is_keyed find_allocation
keyed_run = refl

listed_run :
    shared_condition_allocations "c" world.wallet.allocations
    ≡ allocation "a" 4 ∷ allocation "b" 3 ∷ []
unfolding shared_condition_allocations
listed_run = refl

placed_run : is_placed (allocation "a" 4 ∷ allocation "b" 3 ∷ []) ≡ true
unfolding is_placed is_fresh
placed_run = refl

accepts_run :
    AcceptsAll context "c" redeemed_share 9 json receipt
      (allocation "a" 4 ∷ allocation "b" 3 ∷ [])
      world.ledgers
accepts_run = (
  λ pending. (true, settled (allocation "a" 4), first_run),
  (λ pending. (true, settled (allocation "b" 3), second_run), tt),
)

distribution_completes_example :
    (w' : World) × (apply_shared_redemption_allocations context "c" redeemed_share 9 json
        (some redeemed)
        "{}"
        world
      ≡ ok (true, w'))
    × IsEnded context "c" redeemed_share 9 json receipt redeemed w'.wallet
    × (pending_count "c" w'.wallet.allocations ≡ 0)
    × DeliversAll context "c" redeemed_share 9 json receipt
        (allocation "a" 4 ∷ allocation "b" 3 ∷ [])
        w'.ledgers
distribution_completes_example =
    distribution_completes context "c" redeemed_share 9 json receipt redeemed "{}" world
      (allocation "a" 4) (allocation "b" 3) [] found_run running admitted keyed_run listed_run
      placed_run accepts_run

crash_credits_once_example :
    (apply_allocation context "c" redeemed_share 9 json receipt (allocation "a" 4) world
      ≡ mark_applied context "c" redeemed_share 9 json
          (allocation "a" 4)
          (record world { ledgers = upsert "a" (settled (allocation "a" 4)) world.ledgers }))
    × (apply_allocation context "c" redeemed_share 12 json receipt
          (allocation "a" 4)
          (record world { ledgers = upsert "a" (settled (allocation "a" 4)) world.ledgers })
        ≡ mark_applied context "c" redeemed_share 12 json
            (allocation "a" 4)
            (record world { ledgers = upsert "a" (settled (allocation "a" 4)) world.ledgers }))
crash_credits_once_example =
    crash_credits_once context "c" redeemed_share json json 9 12 receipt (allocation "a" 4)
      (settled (allocation "a" 4)) world refl first_run

abbrev sleeves : List Sleeve
sleeves =
    record { profile_key = "a"; ledger_path = "a" }
    ∷ record { profile_key = "b"; ledger_path = "b" }
    ∷ []

abbrev digest : Mapping → List Share → String
digest m shares = "h"

abbrev blank : Wallet
blank = record { redemptions = []; allocations = []; transitions = [] }

abbrev wallet_of : Result CoordinatorError Wallet → Wallet
wallet_of (ok w) = w
wallet_of (raise e) = blank

abbrev frozen : Wallet
frozen = wallet_of (
    freeze_shared_condition_redemption "c"
      (shared_condition_inventory context digest "c" sleeves world.ledgers) "p" 1 "{}" blank)

blank_run : shared_redemption_receipt "c" blank ≡ none
unfolding shared_redemption_receipt lookup
blank_run = refl

none_run : shared_condition_allocations "c" blank.allocations ≡ []
unfolding shared_condition_allocations
none_run = refl

frozen_run :
    freeze_shared_condition_redemption "c"
      (shared_condition_inventory context digest "c" sleeves world.ledgers)
      "p"
      1
      "{}"
      blank
    ≡ ok frozen
unfolding run holding_of natural gather_activity gather_share gather_mapped gather_sleeve
    gather_sleeves sum_primary sum_secondary inventory_of shared_condition_inventory
    freeze_shared_condition_redemption commit_freeze insert_allocation allocate insert_shares
    new_receipt checks_of_freeze append_transition shared_redemption_receipt find_allocation
frozen_run = refl

-- Four shares and three, so that seven dollars are paid out.
frozen_payout_is_allocated_example :
    (r : Receipt) × (shared_redemption_receipt "c" frozen ≡ some r)
    × (r.state ≡ ready)
    × (has_two (shared_condition_allocations "c" frozen.allocations) ≡ true)
    × (r.expected_payout_usd
        ≡ sum_payouts context decimal_zero (shared_condition_allocations "c" frozen.allocations))
frozen_payout_is_allocated_example =
    frozen_payout_is_allocated context digest "c" sleeves world.ledgers "p" 1 "{}" blank frozen
      blank_run none_run frozen_run
