-- ===== src/Store/Finalize.antt =====
-- `apply_fill_and_finalize` of app/cd90_live_copy.py.
use Prim.Native.String.{String}
use text.Mathlib.Text.{◌==◌}
use polymarket_live_copy.Prelude.{
  ℕ, Bool, true, false, not, ◌&&◌, ◌||◌, Option, none, some, List, [], ◌∷◌, Result, ok, raise,
  raise_if, or_raise, ◌>>=◌, ◌>>◌, if◌then◌else◌,
}
use polymarket_live_copy.Prelude.Int.{leb_ℤ, ltb_ℤ}
use polymarket_live_copy.Prelude.Table.{lookup, update}
use polymarket_live_copy.Decimal.{Context, Decimal, decimal_zero, add, sub, literal}
use polymarket_live_copy.Sizing.{is_buy}
use polymarket_live_copy.Store.{
  StoreError, unsupported_fill_state, cumulative_fill_exceeds_action_target,
  buy_price_improvement_notional_missing, buy_price_improvement_exceeds_frozen_cash_bound,
  buy_cash_order_completion_not_proven, external_unfillable_requires_unfilled_remainder,
  attempt_not_found_for_fill, SourceAction, Reservation, Attempt, AttemptState, Target,
  ActionStatus, Ledger, append_transition,
}
use polymarket_live_copy.Store.Attempts.{has_attempt}
use polymarket_live_copy.Store.Fills.{Fill, apply_fill}

-- The arguments beside the source and the fill; `details` is the JSON text, `attempt_id` its entry.
pub record Closing : Type 0 where
  pub terminal_status : ActionStatus
  pub reason : String
  pub created_at_ms : ℕ
  pub details : String
  pub attempt_id : Option String
  pub maximum_buy_notional_usd : Option Decimal
  pub maximum_buy_total_cost_usd : Option Decimal
  pub buy_cash_order_complete : Bool

abbrev pub is_fill_status : ActionStatus → Bool
is_fill_status ActionStatus.filled = true
is_fill_status ActionStatus.partial = true
is_fill_status ActionStatus.partial_pending = true
is_fill_status ActionStatus.external_unfillable = true
is_fill_status _ = false

abbrev pub is_external : ActionStatus → Bool
is_external ActionStatus.external_unfillable = true
is_external _ = false

abbrev pub is_filled : ActionStatus → Bool
is_filled ActionStatus.filled = true
is_filled _ = false

-- An active reservation of a BUY.
abbrev pub holds_buy : Option Reservation → Bool
holds_buy none = false
holds_buy (some r) = is_buy r.side && r.active

-- UPDATE submission_attempts SET … WHERE attempt_id = ?
unfoldable pub update_attempt : String → (Attempt → Attempt) → List Attempt → List Attempt
update_attempt key change [] = []
update_attempt key change (a ∷ rest) =
    if a.attempt_id == key then change a ∷ rest else a ∷ update_attempt key change rest

abbrev pub answered : AttemptState → String → ℕ → Attempt → Attempt
answered state response now a = record a {
  state = state;
  response_json = response;
  updated_at_ms = now;
}

module _ (c : Context) where
  -- One millionth of a token.
  abbrev pub token_raw_unit : Decimal
  token_raw_unit = literal c 1 6

  -- The proof that a BUY at better prices stayed within its frozen cash.
  unfoldable pub prove_buy_cash :
      Fill
      → Closing
      → Option Reservation
      → (maximum_notional maximum_total_cost actual : Decimal) → Result StoreError ActionStatus
  prove_buy_cash f k reservation maximum_notional maximum_total_cost actual = do
    raise_if
        (leb_ℤ maximum_notional decimal_zero
          || ltb_ℤ maximum_notional actual
          || not (holds_buy reservation)
          || ltb_ℤ maximum_total_cost (add c actual f.fee_usd))
        buy_price_improvement_exceeds_frozen_cash_bound
    raise_if (k.buy_cash_order_complete && ltb_ℤ token_raw_unit (sub c maximum_notional actual))
        buy_cash_order_completion_not_proven
    ok ActionStatus.filled

  unfoldable pub close_buy_cash :
      SourceAction → Fill → Closing → Option Reservation → Result StoreError ActionStatus
  close_buy_cash source f k reservation = do
    raise_if (not (is_buy source.side)) cumulative_fill_exceeds_action_target
    maximum_notional ← or_raise k.maximum_buy_notional_usd cumulative_fill_exceeds_action_target
    maximum_total_cost ← or_raise k.maximum_buy_total_cost_usd cumulative_fill_exceeds_action_target
    actual ← or_raise f.notional_usd buy_price_improvement_notional_missing
    prove_buy_cash f k reservation maximum_notional maximum_total_cost actual

  -- The status that a fill gives to its target.
  unfoldable pub close_target :
      SourceAction
      → Fill
      → Closing
      → Option Reservation
      → (target cumulative : Decimal) → Result StoreError ActionStatus
  close_target source f k reservation target cumulative =
      if ltb_ℤ target cumulative || k.buy_cash_order_complete
      then close_buy_cash source f k reservation
      else if is_external k.terminal_status
      then if leb_ℤ target cumulative
        then raise external_unfillable_requires_unfilled_remainder
        else ok ActionStatus.external_unfillable
      else ok
          (if ltb_ℤ cumulative target then ActionStatus.partial_pending else ActionStatus.filled)

  abbrev pub fill_target : Decimal → ActionStatus → String → ℕ → Target → Target
  fill_target cumulative status reason now t = record t {
    cumulative_filled_quantity = cumulative;
    state = status;
    reason = reason;
    updated_at_ms = now;
  }

  -- The first part: the target, where the action has one.
  unfoldable pub finalize_target :
      SourceAction → Fill → Closing → Ledger → Result StoreError (ActionStatus × Ledger)
  finalize_target source f k l = elim (lookup source.action_id l.targets) [
    | none ↦ ok (k.terminal_status, l)
    | some t ↦ do
      let cumulative = add c t.cumulative_filled_quantity f.quantity
      status ←
          close_target source f k (lookup source.action_id l.reservations) t.target_quantity
            cumulative
      ok (
        status,
        record l {
          targets =
              update source.action_id (fill_target cumulative status k.reason k.created_at_ms)
                l.targets;
        },
      )
  ]

  -- The last part: the attempt, where the details name one.
  unfoldable pub finalize_attempt : Closing → ActionStatus → Ledger → Result StoreError Ledger
  finalize_attempt k status l = elim k.attempt_id [
    | none ↦ ok l
    | some key ↦ do
      raise_if (not (has_attempt key l.attempts)) attempt_not_found_for_fill
      ok (record l {
        attempts =
            update_attempt key
              (answered
                (if is_filled status then AttemptState.filled else AttemptState.partial_filled)
                k.details k.created_at_ms)
              l.attempts;
      })
  ]

  unfoldable pub apply_fill_and_finalize :
      SourceAction → Fill → Closing → Ledger → Result StoreError Ledger
  apply_fill_and_finalize source f k l = do
    raise_if (not (is_fill_status k.terminal_status)) unsupported_fill_state
    closed ← finalize_target source f k l
    filled ← apply_fill c source f closed.1
    finalize_attempt k closed.0
        (append_transition source.action_id closed.0 k.reason k.created_at_ms k.details filled)
