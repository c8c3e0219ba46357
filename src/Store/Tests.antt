-- ===== src/Store/Tests.antt =====
-- Runs of the ledger's operations, and the theorems at ledgers where their hypotheses hold.
use Prim.Native.String.{String}
use text.Mathlib.TextEquality.{eq_iff}
use polymarket_live_copy.Prelude.{
  ℕ, ◌≤◌, ◌*◌, ◌^◌, ◌≡◌, ◌≢◌, refl, Bool, true, false, Option, none, some, [], ◌∷◌, Result, ok,
  raise, arith,
}
use polymarket_live_copy.Prelude.Int.{pos, ◌≤ℤ◌, ◌+ℤ◌, ◌-ℤ◌}
use polymarket_live_copy.Prelude.Table.{lookup, upsert, update, Each, on_some}
use polymarket_live_copy.Decimal.{
  Context, Decimal, decimal_zero, add, sub, mul, div, unit, literal, round, round_ratio,
}
use polymarket_live_copy.Decimal.Laws.{Held}
use polymarket_live_copy.Sizing.{sell}
use polymarket_live_copy.Sizing.Plan.{ActionPlan, ready, no_reason}
use polymarket_live_copy.Store.{
  StoreError, SourceAction, Account, Position, Target, ActionStatus, Ledger, append_transition,
  latest_transition, release,
}
use polymarket_live_copy.Store.Attempts.{
  Submission, has_unresolved, last_number, has_attempt, reserve, new_reservation, new_attempt,
  has_order_elsewhere, write_attempt, begin_submission_attempt,
}
use polymarket_live_copy.Store.Fills.{
  Fill, position_of, conditions_clash, owner_condition, fill_notional, book_buy, average_cost,
  write_sale, book_sell, book, write_books, open_books, post_fill, apply_fill,
}
use polymarket_live_copy.Store.Finalize.{
  Closing, update_attempt, prove_buy_cash, close_buy_cash, close_target, finalize_target,
  finalize_attempt, apply_fill_and_finalize,
}
use polymarket_live_copy.Store.Release.{
  ReleaseRequest, check_attempt_state, close_attempt, write_release,
  release_reservation_and_finalize,
}
use polymarket_live_copy.Store.Positions.{HasStock, fill_keeps_inventory, sale_is_covered}
use polymarket_live_copy.Store.Accounting.{IsExact, cost_sold, HasWorth, fill_conserves_cost}
use polymarket_live_copy.Store.Marks.{
  TargetView, view, action_target, insert_target, ensure_action_target, find_attempt,
  find_attempt_of, write_unknown, retain_attempt, retain_missing_order_id_as_unknown,
}
use polymarket_live_copy.Store.Retained.{recovery_retained}
use polymarket_live_copy.Store.Aims.{SameTarget}
use polymarket_live_copy.Store.Frozen.{target_is_frozen}
use polymarket_live_copy.Store.Opened.{open_attempts, IsExclusive}
use polymarket_live_copy.Store.Exclusive.{here, next, begin, fill, finish, one_open_attempt}
use polymarket_live_copy.Store.Rejection.{
  reconcile_definitive_submission_rejection, rejection_reconciled_once,
}
use polymarket_live_copy.Store.Frame.{fill_frame, release_frame}
use polymarket_live_copy.Store.Targets.{IsSaleStatus, sale_stays_within_target}

-- 28 digits, as in the default context, and 40 places.
abbrev context : Context
context = record { prec = 28; places = 40; prec_pos = omega arith }

-- n hundredths
abbrev cents : ℕ → Decimal
cents n = pos (n * 10 ^ 38)

abbrev source : SourceAction
source = record { action_id = "a"; token_id = "t"; side = sell; discovered_at_ms = 1 }

abbrev bank : Account
bank = record {
  initial_capital_usd = cents 1200;
  cash_usd = cents 1000;
  realized_pnl_usd = decimal_zero;
  fees_usd = decimal_zero;
}

-- The row of the action once it has begun.
abbrev target : Target
target = record {
  proportional_quantity = cents 300;
  target_quantity = cents 300;
  cumulative_filled_quantity = decimal_zero;
  state = ActionStatus.submit_started;
  reason = "";
  created_at_ms = 1;
  updated_at_ms = 2;
}

-- Four shares, bought for two dollars, and ten dollars in cash.
abbrev opened : Ledger
opened = record {
  account = some bank;
  positions =
      ("t", record { quantity = cents 400; cost_basis_usd = cents 200; condition_id = "c" }) ∷ [];
  reservations = [];
  attempts = [];
  targets = ("a", record target { state = ActionStatus.observed; updated_at_ms = 1 }) ∷ [];
  transitions = [];
}

abbrev plan : ActionPlan
plan = record {
  terminal_status = ready;
  reason = no_reason;
  side = sell;
  proportional_quantity = cents 300;
  requested_quantity = cents 300;
  order_amount_usd = cents 180;
  worst_price = cents 60;
  reserved_cash_usd = decimal_zero;
}

abbrev submission : Submission
submission = record {
  attempt_digest = λ action number. action;
  condition_id = "c";
  reason = "";
  order_id = none;
  prepared_order_json = "{}";
  snapshot_json = "{}";
  details_json = "{}";
  created_at_ms = 2;
}

-- Two of the three shares are sold, at 0.60 and a fee of 0.01.
abbrev part : Fill
part = record {
  quantity = cents 200;
  price = some (cents 60);
  fee_usd = cents 1;
  notional_usd = none;
}

abbrev closing : Closing
closing = record {
  terminal_status = ActionStatus.partial;
  reason = "";
  created_at_ms = 3;
  details = "{}";
  attempt_id = some "a";
  maximum_buy_notional_usd = none;
  maximum_buy_total_cost_usd = none;
  buy_cash_order_complete = false;
}

abbrev request : ReleaseRequest
request = record {
  terminal_status = ActionStatus.pending_liquidity;
  reason = "";
  created_at_ms = 4;
  details = "{}";
  attempt_id = none;
  attempt_state = none;
  attempt_response = "{}";
}

abbrev ledger_of : Result StoreError Ledger → Ledger
ledger_of (ok l) = l
ledger_of (raise e) = opened

abbrev begun : Ledger
begun = ledger_of (begin_submission_attempt source plan submission opened)

abbrev sold : Ledger
sold = ledger_of (apply_fill_and_finalize context source part closing begun)

abbrev released : Ledger
released = ledger_of (release_reservation_and_finalize source request sold)

-- What the runs compute with.
run : Ledger
unfolding lookup upsert update add sub mul div unit literal round round_ratio ◌+ℤ◌ ◌-ℤ◌
    append_transition has_unresolved last_number has_attempt reserve new_reservation new_attempt
    has_order_elsewhere write_attempt begin_submission_attempt conditions_clash owner_condition
    fill_notional book_buy average_cost write_sale book_sell book write_books open_books post_fill
    apply_fill update_attempt prove_buy_cash close_buy_cash close_target finalize_target
    finalize_attempt apply_fill_and_finalize check_attempt_state close_attempt write_release
    release_reservation_and_finalize cost_sold open_attempts
run = released

begun_run : begin_submission_attempt source plan submission opened ≡ ok begun
unfolding run
begun_run = refl

sold_run : apply_fill_and_finalize context source part closing begun ≡ ok sold
unfolding run
sold_run = refl

released_run : release_reservation_and_finalize source request sold ≡ ok released
unfolding run
released_run = refl

begun_stock : Each HasStock begun.positions
unfolding run
begun_stock = ground arith

fill_keeps_inventory_example : Each HasStock sold.positions
fill_keeps_inventory_example =
    fill_keeps_inventory context source part closing begun sold begun_stock sold_run

sale_is_covered_example :
    (cents 200 ≤ℤ (position_of (lookup "t" begun.positions)).quantity)
    × ((p : Position) × (lookup "t" sold.positions ≡ some p)
        × (p.quantity
            ≡ sub context (position_of (lookup "t" begun.positions)).quantity (cents 200)))
sale_is_covered_example = sale_is_covered context source part closing begun sold refl sold_run

-- A multiple of a hundredth, of at most 28 digits, is held.
held : (m : ℕ) → m ≤ 10 ^ 28 → Held context (pos (m * 10 ^ 38))
held m h = record { shift = 38; coefficient = m; value = omega arith; within = h }

part-IsExact :
    IsExact context (cents 120) (cents 1) (cents 100) (open_books context source bank begun)
unfolding run
part-IsExact = record {
  total = held 121 (omega arith);
  cash_out = held 879 (omega arith);
  cost_in = held 321 (omega arith);
  proceeds = held 119 (omega arith);
  cash_in = held 1119 (omega arith);
  profit = held 19 (omega arith);
  realized = held 19 (omega arith);
  cost_out = held 100 (omega arith);
}

part_notional : fill_notional context part ≡ ok (cents 120)
unfolding run
part_notional = refl

part_cost : cost_sold context sell part (position_of (lookup "t" begun.positions)) ≡ ok (cents 100)
unfolding run
part_cost = refl

begun_account : begun.account ≡ some bank
unfolding run
begun_account = refl

-- 10 + 2 - 0 before, and 11.19 + 1 - 0.19 after.
fill_conserves_cost_example :
    HasWorth "t"
      (cents 1000 +ℤ (position_of (lookup "t" begun.positions)).cost_basis_usd -ℤ decimal_zero)
      sold
fill_conserves_cost_example =
    fill_conserves_cost context source part closing begun sold bank (cents 120) (cents 100)
      begun_account part_notional part_cost part-IsExact sold_run

opened-IsExclusive : IsExclusive opened
unfolding run
opened-IsExclusive k = omega arith

one_open_attempt_example : IsExclusive released
one_open_attempt_example = one_open_attempt context opened opened-IsExclusive {l' = released} (
    next
      (next (next here (begin source plan submission begun_run))
        (fill source part closing sold_run))
      (finish source request refl released_run))

abbrev other : String
other = "b"

abbrev other_token : String
other_token = "u"

not_a : other ≢ source.action_id
not_a e = ground (arith, eq_iff "b" "a")

not_t : other_token ≢ source.token_id
not_t e = ground (arith, eq_iff "u" "t")

fill_frame_example :
    (lookup "a" sold.reservations ≡ on_some release (lookup "a" begun.reservations))
    × (lookup "b" sold.reservations ≡ lookup "b" begun.reservations)
    × (lookup "u" sold.positions ≡ lookup "u" begun.positions)
fill_frame_example = fill_frame context source part closing begun sold "b" "u" not_a not_t sold_run

release_frame_example :
    (released.account ≡ sold.account)
    × (released.positions ≡ sold.positions)
    × (lookup "a" released.reservations ≡ on_some release (lookup "a" sold.reservations))
    × (lookup "b" released.reservations ≡ lookup "b" sold.reservations)
release_frame_example = release_frame source request sold released "b" not_a released_run

begun_target : lookup "a" begun.targets ≡ some target
unfolding run
begun_target = refl

sale_stays_within_target_example :
    (t' : Target) × (lookup "a" sold.targets ≡ some t')
    × (t'.target_quantity ≡ cents 300)
    × (t'.cumulative_filled_quantity ≡ add context decimal_zero (cents 200))
    × (t'.cumulative_filled_quantity ≤ℤ cents 300)
    × IsSaleStatus t'.cumulative_filled_quantity (cents 300) t'.state
sale_stays_within_target_example =
    sale_stays_within_target context source part closing begun sold target begun_target refl
      sold_run

-- The submission of the action is unknown.
abbrev unknown : Ledger
unknown = record begun {
  transitions =
      (record {
        action_id = "a";
        status = ActionStatus.unknown_submission;
        reason = "order rejected";
        created_at_ms = 5;
        details_json = "{}";
      })
      ∷ [];
}

abbrev classify : String → Option String
classify reason = some "CLOB_REJECTED"

abbrev reconciled : Result StoreError (Bool × Ledger)
reconciled = reconcile_definitive_submission_rejection classify source 6 "{}" unknown

abbrev rejected : Ledger
rejected = record unknown {
  reservations = update "a" release unknown.reservations;
  transitions =
      (record {
        action_id = "a";
        status = ActionStatus.skipped;
        reason = "CLOB_REJECTED";
        created_at_ms = 6;
        details_json = "{}";
      })
      ∷ unknown.transitions;
}

reconciled_run : reconciled ≡ ok (true, rejected)
unfolding run reconcile_definitive_submission_rejection latest_transition append_transition
reconciled_run = refl

rejection_reconciled_once_example :
    (rejected.account ≡ unknown.account)
    × (rejected.positions ≡ unknown.positions)
    × (reconcile_definitive_submission_rejection (λ r. none) source 7 "{}" rejected
        ≡ ok (false, rejected))
rejection_reconciled_once_example =
    rejection_reconciled_once classify (λ r. none) source 6 7 "{}" "{}" unknown rejected
      reconciled_run

-- The same target is ensured again while the submission is open.
abbrev ensured : TargetView × Ledger
ensured = (view context target, begun)

ensured_run :
    ensure_action_target context source (cents 300) (cents 300) ActionStatus.observed "" 9 begun
    ≡ ok ensured
unfolding run view action_target insert_target ensure_action_target
ensured_run = refl

opened_target :
    lookup "a" opened.targets
    ≡ some (record target { state = ActionStatus.observed; updated_at_ms = 1 })
unfolding run
opened_target = refl

target_is_frozen_example :
    (cents 300 ≡ cents 300)
    × (cents 300 ≡ cents 300)
    × (begun ≡ begun)
    × SameTarget (record target { state = ActionStatus.observed; updated_at_ms = 1 }) target
unfolding view
target_is_frozen_example =
    target_is_frozen context source (cents 300) (cents 300) ActionStatus.observed "" 9
      (view context target) (record target { state = ActionStatus.observed; updated_at_ms = 1 })
      opened begun begun opened_target (next here (begin source plan submission begun_run))
      ensured_run

-- The submission is kept as unknown.
abbrev recovered : Ledger
recovered =
    ledger_of (retain_missing_order_id_as_unknown source (some "a") 7 (λ number. "{}") begun)

recovered_run :
    retain_missing_order_id_as_unknown source (some "a") 7 (λ number. "{}") begun ≡ ok recovered
unfolding run latest_transition find_attempt find_attempt_of write_unknown retain_attempt
    retain_missing_order_id_as_unknown
recovered_run = refl

recovery_retained_example :
    (recovered.account ≡ begun.account)
    × (recovered.positions ≡ begun.positions)
    × (recovered.reservations ≡ begun.reservations)
    × (retain_missing_order_id_as_unknown source (some "a") 8 (λ number. "") recovered
        ≡ ok recovered)
    × ((plan : ActionPlan) (s : Submission) (l'' : Ledger)
        → begin_submission_attempt source plan s recovered ≢ ok l'')
recovery_retained_example =
    recovery_retained source (some "a") 7 8 (λ number. "{}") (λ number. "") begun recovered
      recovered_run
