-- ===== src/Store/Marks.antt =====
-- The marks of app/cd90_live_copy.py on an attempt and on a target between a submission and its
-- end, and `append_transition`. The reasons and the JSON texts come redacted, as the source writes
-- them.
use Prim.Native.String.{String}
use text.Mathlib.Text.{◌==◌}
use polymarket_live_copy.Prelude.{
  ℕ, Bool, true, false, not, ◌&&◌, ◌||◌, Option, none, some, List, [], ◌∷◌, Result, ok, raise_if,
  or_raise, ◌>>=◌, ◌>>◌, if◌then◌else◌, is_some,
}
use polymarket_live_copy.Prelude.Int.{leb_ℤ}
use polymarket_live_copy.Prelude.Table.{lookup, upsert, update}
use polymarket_live_copy.Decimal.{Context, Decimal, decimal_zero, sub}
use polymarket_live_copy.Store.{
  StoreError, integrity_error, action_target_not_found, attempt_not_found,
  invalid_action_target_quantity, frozen_action_target_conflict, action_target_not_persisted,
  missing_attempt_order_id, attempt_order_id_state_conflict, missing_attempt_id,
  attempt_not_found_for_recovery, attempt_state_conflict, attempt_order_id_appeared,
  missing_transition, terminal_action_conflict, target_not_found_for_recovery,
  terminal_target_conflict, SourceAction, Attempt, AttemptState, Target, ActionStatus,
  ActionTransition, Ledger, append_transition, latest_transition, is_unresolved,
}
use polymarket_live_copy.Store.Attempts.{restate, has_attempt, has_order_elsewhere}
use polymarket_live_copy.Store.Finalize.{update_attempt, answered, is_filled}
use polymarket_live_copy.Store.Rejection.{is_unknown_submission}

-- Two values are equal.
abbrev pub same_value : Decimal → Decimal → Bool
same_value x y = leb_ℤ x y && leb_ℤ y x

-- What `action_target` returns of a row, with its three differences.
pub record TargetView : Type 0 where
  pub row : Target
  pub remaining_quantity : Decimal
  pub fill_surplus_quantity : Decimal
  pub fill_shortfall_quantity : Decimal

-- `max(value, ZERO)`
abbrev pub at_least_zero : Decimal → Decimal
at_least_zero d = if leb_ℤ decimal_zero d then d else decimal_zero

module _ (c : Context) where
  unfoldable pub view : Target → TargetView
  view t = record {
    row = t;
    remaining_quantity =
        if is_filled t.state
        then decimal_zero
        else at_least_zero (sub c t.target_quantity t.cumulative_filled_quantity);
    fill_surplus_quantity = at_least_zero (sub c t.cumulative_filled_quantity t.target_quantity);
    fill_shortfall_quantity =
        if is_filled t.state
        then at_least_zero (sub c t.target_quantity t.cumulative_filled_quantity)
        else decimal_zero;
  }

  unfoldable pub action_target : String → Ledger → Option TargetView
  action_target action l = elim (lookup action l.targets) [ none ↦ none | some t ↦ some (view t) ]

  -- The row that a new target gets.
  unfoldable pub new_target : (proportional target : Decimal) → ActionStatus → String → ℕ → Target
  new_target proportional target state reason now = record {
    proportional_quantity = proportional;
    target_quantity = target;
    cumulative_filled_quantity = decimal_zero;
    state = state;
    reason = reason;
    created_at_ms = now;
    updated_at_ms = now;
  }

  -- The transaction: a new row, or the test of the old one.
  unfoldable pub insert_target :
      SourceAction
      → (proportional target : Decimal) → ActionStatus
      → String
      → ℕ
      → Ledger
      → Result StoreError Ledger
  insert_target source proportional target state reason now l =
      elim (lookup source.action_id l.targets) [
        | none ↦ ok (record l {
          targets =
              upsert source.action_id (new_target proportional target state reason now) l.targets;
        })
        | some t ↦ do
          raise_if
              (not (
                same_value t.proportional_quantity proportional
                && same_value t.target_quantity target))
              frozen_action_target_conflict
          ok l
      ]

  unfoldable pub ensure_action_target :
      SourceAction
      → (proportional target : Decimal) → ActionStatus
      → String
      → ℕ
      → Ledger
      → Result StoreError (TargetView × Ledger)
  ensure_action_target source proportional target state reason now l = do
    raise_if (leb_ℤ proportional decimal_zero || leb_ℤ target decimal_zero)
        invalid_action_target_quantity
    kept ← insert_target source proportional target state reason now l
    found ← or_raise (action_target source.action_id kept) action_target_not_persisted
    ok (found, kept)

unfoldable pub set_action_target_state :
    SourceAction → ActionStatus → String → ℕ → Ledger → Result StoreError Ledger
set_action_target_state source state reason now l = do
  raise_if (not (is_some (lookup source.action_id l.targets))) action_target_not_found
  ok (record l { targets = update source.action_id (restate state reason now) l.targets })

-- SELECT … WHERE attempt_id = ?
unfoldable pub find_attempt : String → List Attempt → Option Attempt
find_attempt key [] = none
find_attempt key (a ∷ rest) = if a.attempt_id == key then some a else find_attempt key rest

abbrev pub is_submit_started : AttemptState → Bool
is_submit_started AttemptState.submit_started = true
is_submit_started _ = false

abbrev pub is_unknown_attempt : AttemptState → Bool
is_unknown_attempt AttemptState.unknown_submission = true
is_unknown_attempt _ = false

abbrev pub identified : String → String → ℕ → Attempt → Attempt
identified order response now a = record a {
  order_id = some order;
  state = AttemptState.submitted_unreconciled;
  response_json = response;
  updated_at_ms = now;
}

-- An order id that is blank is `none`.
unfoldable pub set_attempt_order_id :
    String → Option String → String → ℕ → Ledger → Result StoreError Ledger
set_attempt_order_id key order response now l = do
  found ← or_raise order missing_attempt_order_id
  attempt ← or_raise (find_attempt key l.attempts) attempt_order_id_state_conflict
  raise_if (not (is_submit_started attempt.state)) attempt_order_id_state_conflict
  raise_if (has_order_elsewhere key found l.attempts) integrity_error
  ok (record l { attempts = update_attempt key (identified found response now) l.attempts })

unfoldable pub update_attempt_state :
    String → AttemptState → String → ℕ → Ledger → Result StoreError Ledger
update_attempt_state key state response now l = do
  raise_if (not (has_attempt key l.attempts)) attempt_not_found
  ok (record l { attempts = update_attempt key (answered state response now) l.attempts })

abbrev pub doubted : ℕ → Attempt → Attempt
doubted now a = record a { state = AttemptState.unknown_submission; updated_at_ms = now }

-- The writes that keep a submission as unknown.
unfoldable pub write_unknown : SourceAction → String → String → ℕ → String → Ledger → Ledger
write_unknown source key reason now details l =
    append_transition source.action_id ActionStatus.unknown_submission reason now details
      (record l {
        attempts = update_attempt key (doubted now) l.attempts;
        targets =
            update source.action_id (restate ActionStatus.unknown_submission reason now) l.targets;
      })

-- The latest transition of an action is UNKNOWN_SUBMISSION for this reason.
abbrev pub is_unknown_for : String → Option ActionTransition → Bool
is_unknown_for reason none = false
is_unknown_for reason (some t) = is_unknown_submission t.status && t.reason == reason

unfoldable pub mark_official_order_absent_as_unknown :
    SourceAction → String → ℕ → String → Ledger → Result StoreError (Bool × Ledger)
mark_official_order_absent_as_unknown source key now details l =
    if is_unknown_for "OFFICIAL_ORDER_NOT_FOUND" (latest_transition source.action_id l.transitions)
    then ok (false, l)
    else do
      raise_if (not (has_attempt key l.attempts)) attempt_not_found
      raise_if (not (is_some (lookup source.action_id l.targets))) action_target_not_found
      ok (true, write_unknown source key "OFFICIAL_ORDER_NOT_FOUND" now details l)

-- `terminal_states` of `retain_missing_order_id_as_unknown`
abbrev pub is_terminal : ActionStatus → Bool
is_terminal ActionStatus.skipped = true
is_terminal ActionStatus.filled = true
is_terminal ActionStatus.partial = true
is_terminal ActionStatus.failed = true
is_terminal ActionStatus.error_internal = true
is_terminal ActionStatus.external_unfillable = true
is_terminal ActionStatus.superseded_unfilled = true
is_terminal _ = false

-- SELECT … WHERE attempt_id = ? AND action_id = ?, where attempt_id is the primary key
unfoldable pub find_attempt_of : String → String → List Attempt → Option Attempt
find_attempt_of key action rows = elim (find_attempt key rows) [
  | none ↦ none
  | some a ↦ if a.action_id == action then some a else none
]

abbrev pub is_retained : String → Attempt → ActionTransition → Target → Bool
is_retained reason attempt latest target =
    is_unknown_attempt attempt.state
    && is_unknown_submission target.state
    && is_unknown_submission latest.status
    && latest.reason == reason

-- The part of the recovery behind the tests of the attempt.
unfoldable pub retain_attempt :
    SourceAction → String → Attempt → ℕ → (ℕ → String) → Ledger → Result StoreError Ledger
retain_attempt source key attempt now details l = do
  latest ← or_raise (latest_transition source.action_id l.transitions) missing_transition
  raise_if (is_terminal latest.status) terminal_action_conflict
  target ← or_raise (lookup source.action_id l.targets) target_not_found_for_recovery
  raise_if (is_terminal target.state) terminal_target_conflict
  if is_retained "MISSING_ORDER_ID_FOR_RECONCILIATION" attempt latest target
      then ok l
      else ok (
          write_unknown source key "MISSING_ORDER_ID_FOR_RECONCILIATION" now
            (details attempt.attempt_number) l)

-- A blank id of an attempt is `none`; the details name the number of the attempt.
unfoldable pub retain_missing_order_id_as_unknown :
    SourceAction → Option String → ℕ → (ℕ → String) → Ledger → Result StoreError Ledger
retain_missing_order_id_as_unknown source attempt_id now details l = do
  key ← or_raise attempt_id missing_attempt_id
  attempt ←
      or_raise (find_attempt_of key source.action_id l.attempts) attempt_not_found_for_recovery
  raise_if (not (is_unresolved attempt.state)) attempt_state_conflict
  raise_if (is_some attempt.order_id) attempt_order_id_appeared
  retain_attempt source key attempt now details l

-- The two statuses that are written again only when something has changed.
abbrev pub same_pending : ActionStatus → ActionStatus → Bool
same_pending ActionStatus.pending_external_retry ActionStatus.pending_external_retry = true
same_pending ActionStatus.pending_causal_order ActionStatus.pending_causal_order = true
same_pending _ _ = false

abbrev pub is_repeated : ActionStatus → String → String → Option ActionTransition → Bool
is_repeated status reason details none = false
is_repeated status reason details (some t) =
    same_pending t.status status && t.reason == reason && t.details_json == details

abbrev pub is_pending_status : ActionStatus → Bool
is_pending_status ActionStatus.pending_external_retry = true
is_pending_status ActionStatus.pending_causal_order = true
is_pending_status _ = false

-- `append_transition`; `clock` is the time of the call.
unfoldable pub log_transition :
    SourceAction → ActionStatus → String → Option ℕ → ℕ → String → Ledger → Ledger
log_transition source status reason created clock details l =
    if is_repeated status reason details (latest_transition source.action_id l.transitions)
    then l
    else append_transition source.action_id status reason
        (elim created [
          | some given ↦ given
          | none ↦ if is_pending_status status then clock else source.discovered_at_ms
        ])
        details l
