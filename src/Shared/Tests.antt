-- ===== src/Shared/Tests.antt =====
-- A shared redemption from its freeze to its end, and the theorems along that run.
use Prim.Native.String.{String}
use polymarket_live_copy.Prelude.{
  ℕ, ◌*◌, ◌^◌, ◌≡◌, refl, Bool, true, false, Option, none, some, [], ◌∷◌, Result, ok, raise,
}
use polymarket_live_copy.Prelude.Int.{pos}
use polymarket_live_copy.Prelude.Table.{lookup, upsert, update}
use polymarket_live_copy.Decimal.{Decimal}
use polymarket_live_copy.Shared.{
  RedemptionState, not_submitted_retryable, submitted_unreconciled, distributing, redeemed, allowed,
  is_distribution, is_settled, CoordinatorError,
}
use polymarket_live_copy.Shared.Redemption.{
  Receipt, Wallet, Inventory, Share, append_transition, shared_redemption_receipt, find_allocation,
  insert_allocation, allocate, insert_shares, new_receipt, check_inventory, commit_freeze, move,
  start_shared_redemption_submission, validate_transition, mark_shared_redemption_state,
  set_applied, mark_shared_allocation_applied, pending_count,
  complete_shared_redemption_distribution,
}
use polymarket_live_copy.Shared.Steps.{freeze, start, mark, apply, complete, Reach, here, next}
use polymarket_live_copy.Shared.Lifecycle.{
  is_past_submission, is_final, never_resubmitted, transaction_kept, final_state_stays,
}
use polymarket_live_copy.Shared.Settled.{empty, settled_is_applied}

-- n dollars or shares, at six places
abbrev units : ℕ → Decimal
units n = pos (n * 10 ^ 6)

abbrev share : String → ℕ → ℕ → Share
share profile won lost = record {
  profile_key = profile;
  ledger_path = profile;
  primary_quantity = units won;
  primary_cost_basis_usd = units 1;
  secondary_quantity = units lost;
  secondary_cost_basis_usd = units 1;
}

abbrev inventory : Inventory
inventory = record {
  primary_token_id = "yes";
  secondary_token_id = "no";
  primary_quantity = units 5;
  secondary_quantity = units 1;
  shares = share "cd90" 3 0 ∷ share "zockdo" 2 1 ∷ [];
  inventory_hash = "hash";
  active_order_reservation_count = 0;
  active_local_redemption_count = 0;
}

abbrev wallet_of : Result CoordinatorError Wallet → Wallet
wallet_of (ok w) = w
wallet_of (raise e) = empty

abbrev second_of : Result CoordinatorError (Bool × Wallet) → Wallet
second_of (ok (_, w)) = w
second_of (raise e) = empty

abbrev marked : RedemptionState → Option String → Wallet → Result CoordinatorError Wallet
marked target transaction w =
    mark_shared_redemption_state "c" (some target) "" 3 "{}" transaction none w

abbrev frozen : Wallet
frozen = wallet_of (commit_freeze "c" inventory "yes" 1 "{}" empty)

abbrev started : Wallet
started = second_of (start_shared_redemption_submission "c" 2 frozen)

abbrev submitted : Wallet
submitted = wallet_of (marked submitted_unreconciled (some "tx") started)

abbrev shared_out : Wallet
shared_out = wallet_of (marked distributing none submitted)

abbrev half_applied : Wallet
half_applied = wallet_of (mark_shared_allocation_applied "c" "cd90" 5 shared_out)

abbrev all_applied : Wallet
all_applied = wallet_of (mark_shared_allocation_applied "c" "zockdo" 6 half_applied)

abbrev finished : Wallet
finished =
    second_of (complete_shared_redemption_distribution "c" (some redeemed) 7 "{}" all_applied)

-- Nothing but a name for what the run computes with.
run : Wallet
unfolding allowed is_distribution is_settled append_transition shared_redemption_receipt
    find_allocation insert_allocation allocate insert_shares new_receipt check_inventory
    commit_freeze move start_shared_redemption_submission validate_transition
    mark_shared_redemption_state set_applied mark_shared_allocation_applied pending_count
    complete_shared_redemption_distribution is_past_submission is_final lookup upsert update
run = finished

abbrev receipt : RedemptionState → Option String → ℕ → Receipt
receipt s transaction now = record {
  state = s;
  primary_token_id = "yes";
  secondary_token_id = "no";
  winner_token_id = "yes";
  primary_quantity = units 5;
  secondary_quantity = units 1;
  expected_payout_usd = units 5;
  inventory_hash = "hash";
  transaction_id = transaction;
  transaction_hash = none;
  created_at_ms = 1;
  updated_at_ms = now;
}

to_submitted : Reach empty submitted
unfolding run
to_submitted =
    next (next (next here (freeze "c" inventory "yes" 1 "{}" refl refl)) (start "c" 2 true refl))
      (mark "c" (some submitted_unreconciled) "" 3 "{}" (some "tx") none refl refl)

from_submitted : Reach submitted finished
unfolding run
from_submitted =
    next
      (next
        (next (next here (mark "c" (some distributing) "" 3 "{}" none none refl refl))
          (apply "c" "cd90" 5 refl))
        (apply "c" "zockdo" 6 refl))
      (complete "c" (some redeemed) 7 "{}" true refl)

append-Reach : {w v u : Wallet} → Reach w v → Reach v u → Reach w u
append-Reach a here = a
append-Reach a (next b s) = next (append-Reach a b) s

submitted-receipt :
    shared_redemption_receipt "c" submitted ≡ some (receipt submitted_unreconciled (some "tx") 3)
unfolding run
submitted-receipt = refl

finished-receipt : shared_redemption_receipt "c" finished ≡ some (receipt redeemed (some "tx") 7)
unfolding run
finished-receipt = refl

redeemed_is_settled : is_settled redeemed ≡ true
unfolding run
redeemed_is_settled = refl

redeemed_is_final : is_final redeemed ≡ true
unfolding run
redeemed_is_final = refl

declined : Reach finished finished
unfolding run
declined = next here (start "c" 8 false refl)

-- The submission was refused, and is started again.
abbrev refused : Wallet
refused = wallet_of (marked not_submitted_retryable none started)

abbrev restarted : Wallet
restarted = second_of (start_shared_redemption_submission "c" 4 refused)

started_run : start_shared_redemption_submission "c" 2 frozen ≡ ok (true, started)
unfolding run
started_run = refl

restarted_run : start_shared_redemption_submission "c" 4 refused ≡ ok (true, restarted)
unfolding run
restarted_run = refl

to_refused : Reach started refused
unfolding run
to_refused = next here (mark "c" (some not_submitted_retryable) "" 3 "{}" none none refl refl)

never_resubmitted_example :
    ((r : Receipt) × (shared_redemption_receipt "c" started ≡ some r)
      × (is_past_submission r.state ≡ false))
    × ((r : Receipt) × (shared_redemption_receipt "c" refused ≡ some r)
        × (r.state ≡ not_submitted_retryable)
        × (r.transaction_id ≡ none)
        × (r.transaction_hash ≡ none))
never_resubmitted_example =
    never_resubmitted "c" 2 4 frozen started started refused restarted started_run here to_refused
      restarted_run

transaction_kept_example :
    (r' : Receipt) × (shared_redemption_receipt "c" finished ≡ some r')
    × (r'.transaction_id ≡ some "tx")
    × (r'.winner_token_id ≡ "yes")
    × (r'.expected_payout_usd ≡ units 5)
transaction_kept_example =
    transaction_kept "c" (receipt submitted_unreconciled (some "tx") 3) {w = submitted}
      submitted-receipt "tx" refl {w' = finished} from_submitted

final_state_stays_example :
    (r' : Receipt) × (shared_redemption_receipt "c" finished ≡ some r') × (r'.state ≡ redeemed)
final_state_stays_example =
    final_state_stays "c" (receipt redeemed (some "tx") 7) {w = finished} finished-receipt
      redeemed_is_final {w' = finished} declined

settled_is_applied_example : pending_count "c" finished.allocations ≡ 0
settled_is_applied_example =
    settled_is_applied {w = finished} "c" (receipt redeemed (some "tx") 7)
      (append-Reach to_submitted from_submitted) finished-receipt redeemed_is_settled
