-- ===== src/Settlement/Tests.antt =====
-- Runs of the settlements, and the theorems at registers where their hypotheses hold.
use Prim.Native.String.{String}
use polymarket_live_copy.Prelude.{
  ℕ, ◌≤◌, ◌*◌, ◌^◌, ◌≡◌, ◌≢◌, refl, Bool, true, false, Option, none, some, [], ◌∷◌, Result, ok,
  raise, arith,
}
use polymarket_live_copy.Prelude.Int.{pos, ◌+ℤ◌, ◌-ℤ◌}
use polymarket_live_copy.Prelude.Table.{lookup, upsert, update}
use polymarket_live_copy.Decimal.{
  Context, Decimal, decimal_zero, add, sub, unit, literal, round, round_ratio,
}
use polymarket_live_copy.Decimal.Laws.{Held}
use polymarket_live_copy.Store.{Account, Ledger}
use polymarket_live_copy.Settlement.{
  SettlementError, LocalState, pending, not_submitted_retryable, Mapping, LocalReceipt, Register,
  Holding, holding_of, condition_inventory, append_redemption_transition, latest_history,
}
use polymarket_live_copy.Settlement.Receipts.{
  insert_quarantine, log_quarantine, record_redeemed_cash_credit_quarantine, insert_receipt,
  set_redemption_state,
}
use polymarket_live_copy.Settlement.Settle.{
  written_off, write_off, write_settlement, close_receipt, total_cost, credit, settle_holding,
  hold_credit, settled_state, settle_redeemed_condition,
}
use polymarket_live_copy.Settlement.Handoff.{
  wallet, SharedAllocation, check_allocation, check_mapping, is_empty_position, confirm_settlement,
  active_orders, matches, check_inventory, write_receipt, settle_share,
  apply_shared_condition_settlement,
}
use polymarket_live_copy.Settlement.Booked.{by_redemption, Settles, IsEmptyAt}
use polymarket_live_copy.Settlement.Conserved.{IsExactSettlement, settlement_conserves_cost}
use polymarket_live_copy.Settlement.Share.{shared_share_conserves_cost}
use polymarket_live_copy.Settlement.Repeat.{shared_share_applied_once}
use polymarket_live_copy.Settlement.History.{here, next, share, share_closes_condition}
use polymarket_live_copy.Settlement.Reopened.{Marks, Reopened, remark, begin, after, settled_once}

abbrev context : Context
context = record { prec = 28; places = 40; prec_pos = omega arith }

-- n hundredths
abbrev cents : ℕ → Decimal
cents n = pos (n * 10 ^ 38)

abbrev bank : Account
bank = record {
  initial_capital_usd = cents 1200;
  cash_usd = cents 1000;
  realized_pnl_usd = cents 500;
  fees_usd = decimal_zero;
}

abbrev mapping : Mapping
mapping = record { primary_token_id = "p"; secondary_token_id = "q" }

-- Four shares of the first token, bought for two dollars.
abbrev books : Ledger
books = record {
  account = some bank;
  positions =
      ("p", record { quantity = cents 400; cost_basis_usd = cents 200; condition_id = "c" }) ∷ [];
  reservations = [];
  attempts = [];
  targets = [];
  transitions = [];
}

abbrev receipt : LocalState → Option String → LocalReceipt
receipt state id = record {
  state = state;
  expected_payout_usd = cents 400;
  transaction_id = id;
  transaction_hash = none;
  created_at_ms = 1;
  updated_at_ms = 1;
}

-- The redemption is submitted, and pending.
abbrev submitted : Register
submitted = record {
  ledger = books;
  mappings = ("c", mapping) ∷ [];
  receipts = ("c", receipt pending (some "x")) ∷ [];
  quarantines = [];
  history = [];
}

-- The redemption is left to the coordinator.
abbrev handed_off : Register
handed_off = record submitted { receipts = ("c", receipt not_submitted_retryable none) ∷ [] }

abbrev holding : Holding
holding = record {
  primary_token_id = "p";
  secondary_token_id = "q";
  primary_quantity = cents 400;
  primary_cost_basis_usd = cents 200;
  secondary_quantity = decimal_zero;
  secondary_cost_basis_usd = decimal_zero;
}

abbrev allocation : SharedAllocation
allocation = record {
  primary_token_id = "p";
  secondary_token_id = "q";
  inventory_hash = "h";
  primary_quantity = cents 400;
  secondary_quantity = decimal_zero;
  primary_cost_basis_usd = cents 200;
  secondary_cost_basis_usd = decimal_zero;
  payout_usd = cents 400;
}

abbrev register_of : Result SettlementError Register → Register
register_of (ok w) = w
register_of (raise e) = submitted

abbrev pair_of : Result SettlementError (Bool × Register) → Register
pair_of (ok (b, w)) = w
pair_of (raise e) = submitted

abbrev settled : Register
settled =
    register_of
      (settle_redeemed_condition context "c" (cents 400) 9 "{}" none false (some holding) submitted)

abbrev quarantined : Register
quarantined = pair_of (record_redeemed_cash_credit_quarantine "c" (cents 400) 10 "{}" settled)

abbrev reopened : Register
reopened = register_of (set_redemption_state "c" pending "" 11 "{}" none none settled)

abbrev settled_again : Register
settled_again =
    register_of
      (settle_redeemed_condition context "c" (cents 400) 12 "{}" none false (some holding) reopened)

abbrev applied : Register
applied =
    pair_of
      (apply_shared_condition_settlement context "c" wallet allocation (some "x") 9 "{}" handed_off)

-- What the runs compute with.
run : Register × Register
unfolding lookup upsert update add sub unit literal round round_ratio ◌+ℤ◌ ◌-ℤ◌ holding_of
    condition_inventory append_redemption_transition latest_history insert_quarantine log_quarantine
    record_redeemed_cash_credit_quarantine insert_receipt written_off write_off write_settlement
    close_receipt total_cost credit settle_holding hold_credit settled_state
    settle_redeemed_condition check_allocation check_mapping is_empty_position confirm_settlement
    active_orders matches check_inventory write_receipt settle_share
    apply_shared_condition_settlement
run = (quarantined, applied)

inventory_run : condition_inventory "c" submitted ≡ some holding
unfolding run
inventory_run = refl

settled_run :
    settle_redeemed_condition context "c" (cents 400) 9 "{}" none false (some holding) submitted
    ≡ ok settled
unfolding run
settled_run = refl

quarantined_run :
    record_redeemed_cash_credit_quarantine "c" (cents 400) 10 "{}" settled ≡ ok (true, quarantined)
unfolding run
quarantined_run = refl

applied_run :
    apply_shared_condition_settlement context "c" wallet allocation (some "x") 9 "{}" handed_off
    ≡ ok (true, applied)
unfolding run
applied_run = refl

-- A multiple of a hundredth, of at most 28 digits, is held.
held : (m : ℕ) → m ≤ 10 ^ 28 → Held context (cents m)
held m h = record { shift = 38; coefficient = m; value = omega arith; within = h }

holding-IsExactSettlement : IsExactSettlement context holding (cents 400) bank
unfolding run
holding-IsExactSettlement = record {
  cost = held 200 (omega arith);
  cash = held 1400 (omega arith);
  gross = held 900 (omega arith);
  net = held 700 (omega arith);
  loss = held 300 (omega arith);
}

-- 10 + 2 - 5 before, and 14 - 7 after.
settlement_conserves_cost_example :
    (after : Account) × (settled.ledger.account ≡ some after)
    × (after.cash_usd -ℤ after.realized_pnl_usd
        ≡ cents 1000 +ℤ (cents 200 +ℤ decimal_zero) -ℤ cents 500)
    × IsEmptyAt "p" settled.ledger.positions
    × IsEmptyAt "q" settled.ledger.positions
settlement_conserves_cost_example =
    settlement_conserves_cost context "c" holding (cents 400) submitted settled bank
      (by_redemption 9 "{}" none false settled_run) refl holding-IsExactSettlement

read : holding ≡ holding_of mapping handed_off.ledger.positions
unfolding run
read = refl

shared_share_conserves_cost_example :
    (after : Account) × (applied.ledger.account ≡ some after)
    × (after.cash_usd ≡ cents 1000 +ℤ cents 400)
    × (after.cash_usd -ℤ after.realized_pnl_usd
        ≡ cents 1000 +ℤ (cents 200 +ℤ decimal_zero) -ℤ cents 500)
    × IsEmptyAt "p" applied.ledger.positions
    × IsEmptyAt "q" applied.ledger.positions
shared_share_conserves_cost_example =
    shared_share_conserves_cost context "c" wallet allocation (some "x") 9 "{}" handed_off applied
      bank holding applied_run refl read holding-IsExactSettlement

shared_share_applied_once_example :
    apply_shared_condition_settlement context "c" wallet allocation none 12 "again" applied
    ≡ ok (false, applied)
shared_share_applied_once_example =
    shared_share_applied_once context "c" wallet allocation (some "x") none 9 12 "{}" "again"
      handed_off applied applied_run

-- A mark of the settled receipt that no caller makes, after which a settlement would run again.
reopening : Marks "c" settled reopened
unfolding run set_redemption_state
reopening = record {
  state = pending;
  reason = "";
  now = 11;
  details = "{}";
  transaction_id = none;
  transaction_hash = none;
  done = refl;
}

second_run :
    settle_redeemed_condition context "c" (cents 400) 12 "{}" none false (some holding) reopened
    ≡ ok settled_again
unfolding run set_redemption_state
second_run = refl

settled_once_example : Reopened context "c" settled reopened
settled_once_example =
    settled_once context "c" holding holding (cents 400) (cents 400) submitted settled reopened
      settled_again (by_redemption 9 "{}" none false settled_run)
      (after begin (remark "c" reopening)) (by_redemption 12 "{}" none false second_run)

share_closes_condition_example :
    (¬ Settles context "c" holding (cents 400) applied handed_off)
    × (apply_shared_condition_settlement context "c" wallet allocation none 12 "{}" applied
        ≢ ok (true, handed_off))
share_closes_condition_example =
    share_closes_condition context "c" wallet wallet allocation allocation (some "x") none 9 12 "{}"
      "{}" holding (cents 400) handed_off applied applied handed_off applied_run
      (next here
        (share "c" wallet allocation none 12 "again" false shared_share_applied_once_example))
