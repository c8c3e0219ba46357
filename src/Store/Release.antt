-- ===== src/Store/Release.antt =====
-- `release_reservation_and_finalize` of app/cd90_live_copy.py. The reasons and the JSON texts come
-- redacted, as the source writes them.
use Prim.Native.String.{String}
use polymarket_live_copy.Prelude.{
  ℕ, Bool, true, false, not, ◌&&◌, Option, none, some, Result, ok, raise, raise_if, ◌>>=◌, ◌>>◌,
  is_some,
}
use polymarket_live_copy.Prelude.Table.{update}
use polymarket_live_copy.Store.{
  StoreError, unsupported_reservation_release_state, attempt_state_required, attempt_not_found,
  SourceAction, AttemptState, ActionStatus, Ledger, append_transition, release,
}
use polymarket_live_copy.Store.Attempts.{restate, has_attempt}
use polymarket_live_copy.Store.Finalize.{update_attempt, answered}

abbrev pub is_release_status : ActionStatus → Bool
is_release_status ActionStatus.skipped = true
is_release_status ActionStatus.pending_liquidity = true
is_release_status ActionStatus.pending_confirmed_zero_fill = true
is_release_status ActionStatus.pending_price_protection = true
is_release_status ActionStatus.pending_capital = true
is_release_status ActionStatus.pending_minimum_unwind = true
is_release_status ActionStatus.pending_minimum_remainder = true
is_release_status ActionStatus.error_internal = true
is_release_status ActionStatus.external_unfillable = true
is_release_status ActionStatus.expired_retry_window = true
is_release_status _ = false

-- The arguments beside the source; an attempt that is named comes with the state that it gets, or
-- with none.
pub record ReleaseRequest : Type 0 where
  pub terminal_status : ActionStatus
  pub reason : String
  pub created_at_ms : ℕ
  pub details : String
  pub attempt_id : Option String
  pub attempt_state : Option AttemptState
  pub attempt_response : String

unfoldable pub check_attempt_state : ReleaseRequest → Result StoreError (Unit {0})
check_attempt_state q =
    raise_if (is_some q.attempt_id && not (is_some q.attempt_state)) attempt_state_required

unfoldable pub close_attempt : ReleaseRequest → Ledger → Result StoreError Ledger
close_attempt q l = elim q.attempt_id [
  | none ↦ ok l
  | some key ↦ elim q.attempt_state [
    | none ↦ raise attempt_state_required
    | some state ↦ do
      raise_if (not (has_attempt key l.attempts)) attempt_not_found
      ok (record l {
        attempts =
            update_attempt key (answered state q.attempt_response q.created_at_ms) l.attempts;
      })
  ]
]

unfoldable pub write_release : SourceAction → ReleaseRequest → Ledger → Ledger
write_release source q l =
    append_transition source.action_id q.terminal_status q.reason q.created_at_ms q.details
      (record l {
        reservations = update source.action_id release l.reservations;
        targets =
            update source.action_id (restate q.terminal_status q.reason q.created_at_ms) l.targets;
      })

unfoldable pub release_reservation_and_finalize :
    SourceAction → ReleaseRequest → Ledger → Result StoreError Ledger
release_reservation_and_finalize source q l = do
  raise_if (not (is_release_status q.terminal_status)) unsupported_reservation_release_state
  check_attempt_state q
  closed ← close_attempt q l
  ok (write_release source q closed)
