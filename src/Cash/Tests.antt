-- ===== src/Cash/Tests.antt =====
-- Runs of the cash snapshot and of the reconciliation over two sleeves.
use polymarket_live_copy.Prelude.{
  ℕ, ◌*◌, ◌^◌, ◌≤◌, ◌≡◌, refl, true, some, List, [], ◌∷◌, Result, ok, arith,
}
use polymarket_live_copy.Prelude.Int.{pos, ◌≤ℤ◌, ◌+ℤ◌, ◌-ℤ◌}
use polymarket_live_copy.Decimal
use polymarket_live_copy.Decimal.{Context, Decimal, decimal_zero, add, sub, round, round_ratio}
use polymarket_live_copy.Decimal.Laws.{Held}
use polymarket_live_copy.Sizing.{buy}
use polymarket_live_copy.Store.{Ledger}
use polymarket_live_copy.Cash.{
  CashError, Sleeve, natural, ledger_cash, buy_holds, active_sell_reservation_count,
  active_redemption_reservation_count, is_verified, is_listed, is_blocked, is_pending,
  pending_among, sum_natural, active_buy_reservation, pending_quarantine, permanent_block,
}
use polymarket_live_copy.Cash.Snapshot.{
  CashSnapshot, quarantined_redeemed_cash_credit, add_sleeve, add_sleeves, cash_state,
  take_snapshot, authenticated_account_cash_snapshot,
}
use polymarket_live_copy.Cash.Holds.{held_cash, held_by_all, HoldsSleeves}
use polymarket_live_copy.Cash.Covered.{available_covers_reservations}
use polymarket_live_copy.Cash.Reconcile.{
  CreditReport, CreditTally, physical_cash_credit_verified, no_credit, pending_receipts,
  verify_rows, verify_sleeve, verify_sleeves, count_pending, add_credit, add_credits,
  settle_credits, reconcile_redeemed_cash_credit_quarantines,
}
use polymarket_live_copy.Cash.Verified.{ledgers, verified_credits_are_covered}

-- 28 digits, as in the default context, and 40 places.
abbrev context : Context
context = record { prec = 28; places = 40; prec_pos = omega arith }

abbrev dollars : ℕ → Decimal
dollars n = pos (n * 10 ^ 40)

-- A ledger with some cash, and a BUY that holds three dollars.
abbrev ledger : ℕ → Ledger
ledger cash = record {
  account = some (record {
    initial_capital_usd = dollars cash;
    cash_usd = dollars cash;
    realized_pnl_usd = decimal_zero;
    fees_usd = decimal_zero;
  });
  positions = [];
  reservations =
      (
        "a",
        record {
          token_id = "t";
          side = buy;
          quantity = dollars 6;
          cash_reserved_usd = dollars 3;
          condition_id = "c";
          active = true;
          created_at_ms = 1;
        },
      )
      ∷ [];
  attempts = [];
  targets = [];
  transitions = [];
}

abbrev sleeve : ℕ → Sleeve
sleeve cash = record {
  cash_adjustment_usd = decimal_zero;
  ledger = ledger cash;
  redemptions = [];
  quarantines = ("c", dollars 2) ∷ [];
  verifications = [];
  voids = [];
  permanent_blocks = [];
}

abbrev sleeves : List Sleeve
sleeves = sleeve 10 ∷ sleeve 5 ∷ []

-- The collateral of fourteen dollars does not cover the fifteen of the ledgers.
abbrev expected : CashSnapshot
expected = record {
  authenticated_collateral_usd = dollars 14;
  expected_accounting_cash_low_usd = dollars 5;
  expected_accounting_cash_high_usd = dollars 11;
  active_buy_reservations_usd = dollars 6;
  active_sell_reservation_count = 0;
  active_redemption_reservation_count = 0;
  redeemed_cash_credit_quarantine_usd = dollars 4;
  permanent_redeemed_cash_credit_block_usd = decimal_zero;
  available_for_new_buy_usd = dollars 8;
  unallocated_account_cash_usd = dollars 3;
  state = quarantined_redeemed_cash_credit;
}

abbrev tally : CreditTally
tally = record { raw_high = dollars 15; pending_count = 2; pending_payout = dollars 4 }

abbrev report : CreditReport
report = record {
  state = physical_cash_credit_verified;
  pending_receipt_count = 2;
  pending_payout_usd = dollars 4;
  verified_receipt_count = 2;
}

-- What the runs compute with.
run : Result CashError CashSnapshot
unfolding natural ledger_cash buy_holds active_sell_reservation_count
    active_redemption_reservation_count is_verified is_listed is_blocked is_pending pending_among
    sum_natural active_buy_reservation pending_quarantine permanent_block add_sleeve add_sleeves
    cash_state take_snapshot authenticated_account_cash_snapshot pending_receipts verify_rows
    verify_sleeve verify_sleeves count_pending add_credit add_credits settle_credits
    reconcile_redeemed_cash_credit_quarantines add sub round round_ratio ◌+ℤ◌ ◌-ℤ◌ ledgers
run = authenticated_account_cash_snapshot context (dollars 14) sleeves

snapshot_run : authenticated_account_cash_snapshot context (dollars 14) sleeves ≡ ok expected
unfolding run
snapshot_run = refl

zero-Held : Held context decimal_zero
zero-Held = record { shift = 0; coefficient = 0; value = omega arith; within = omega arith }

dollars-Held : (n : ℕ) → n ≤ 100 → Held context (dollars n)
dollars-Held n h = record { shift = 40; coefficient = n; value = omega arith; within = omega arith }

holds_exactly : HoldsSleeves context decimal_zero sleeves
unfolding run held_cash
holds_exactly = (
  (dollars-Held 3 (omega arith), tt),
  dollars-Held 3 (omega arith),
  ((dollars-Held 3 (omega arith), tt), dollars-Held 6 (omega arith), tt),
)

holds_run : held_by_all sleeves ≡ dollars 6
unfolding run held_cash held_by_all
holds_run = refl

eight-Held : Held context (dollars 14 -ℤ held_by_all sleeves)
unfolding run held_cash held_by_all
eight-Held = dollars-Held 8 (omega arith)

available_covers_reservations_example :
    (dollars 6 ≡ held_by_all sleeves)
    × (dollars 8 ≡ Decimal.max (dollars 14 -ℤ held_by_all sleeves) decimal_zero)
    × (decimal_zero ≤ℤ dollars 6)
    × (decimal_zero ≤ℤ dollars 8)
    × (dollars 8 ≤ℤ dollars 14)
available_covers_reservations_example =
    available_covers_reservations context (dollars 14) sleeves expected snapshot_run holds_exactly
      eight-Held

tally_run : add_credits context no_credit sleeves ≡ ok tally
unfolding run
tally_run = refl

abbrev verified : List Sleeve
verified = verify_sleeves (dollars 15) (pos 9) sleeves

reconcile_run :
    reconcile_redeemed_cash_credit_quarantines context (dollars 15) (pos 9) sleeves
    ≡ ok (report, verified)
unfolding run
reconcile_run = refl

verified_credits_are_covered_example :
    (dollars 15 ≤ℤ dollars 15)
    × (count_pending verified ≡ 0)
    × (2 ≡ count_pending sleeves)
    × (ledgers verified ≡ ledgers sleeves)
verified_credits_are_covered_example =
    verified_credits_are_covered context (dollars 15) (pos 9) sleeves verified tally report
      reconcile_run tally_run refl
