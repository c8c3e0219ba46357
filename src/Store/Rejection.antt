-- ===== src/Store/Rejection.antt =====
-- `reconcile_definitive_submission_rejection` of app/cd90_live_copy.py. The classifier of a reason,
-- `_definitive_clob_rejection_reason`, and the JSON of the details are arguments.
use Prim.Native.String.{String}
use text.Mathlib.TextEquality.{eq_iff}
use polymarket_live_copy.Prelude.{
  ℕ, ◌≡◌, Bool, true, false, not, Option, Result, ok, or_raise, ◌>>=◌, if◌then◌else◌, arith, inl,
  inr, Option-cases, Bool-cases,
}
use polymarket_live_copy.Prelude.Table.{update}
use polymarket_live_copy.Store.{
  StoreError, missing_historical_transition, not_definitive_rejection, SourceAction, ActionStatus,
  Ledger, append_transition, latest_transition, release,
}

abbrev pub is_unknown_submission : ActionStatus → Bool
is_unknown_submission ActionStatus.unknown_submission = true
is_unknown_submission _ = false

unfoldable pub reconcile_definitive_submission_rejection :
    (String → Option String)
    → SourceAction
    → ℕ
    → String
    → Ledger
    → Result StoreError (Bool × Ledger)
reconcile_definitive_submission_rejection classify source now details l = do
  terminal ←
      or_raise (latest_transition source.action_id l.transitions) missing_historical_transition
  if not (is_unknown_submission terminal.status) then ok (false, l) else do
    reason ← or_raise (classify terminal.reason) not_definitive_rejection
    ok (
      true,
      append_transition source.action_id ActionStatus.skipped reason now details
          (record l { reservations = update source.action_id release l.reservations }),
    )

pub reject-kept :
    (classify : String → Option String) (source : SourceAction) (now : ℕ) (details : String)
    (b : Bool) (l l' : Ledger)
    → reconcile_definitive_submission_rejection classify source now details l ≡ ok (b, l')
    → (l'.attempts ≡ l.attempts) × (l'.targets ≡ l.targets)
unfolding reconcile_definitive_submission_rejection append_transition
reject-kept classify source now details b l l' h =
    elim (Option-cases (latest_transition source.action_id l.transitions)) [
      | inl missing ↦ absurd (ground arith)
      | inr (t, found) ↦ elim (Bool-cases (is_unknown_submission t.status)) [
        | inr other ↦ ground arith
        | inl unknown ↦ elim (Option-cases (classify t.reason)) [
          | inl unclassified ↦ absurd (ground arith)
          | inr (reason, definitive) ↦ ground arith
        ]
      ]
    ]

-- A submission that is reconciled as rejected leaves the account and the positions as they are,
-- and is reconciled once: whatever the classifier and the details, a second call for the action
-- declines and changes nothing.
pub rejection_reconciled_once :
    (classify again : String → Option String) (source : SourceAction) (now later : ℕ)
    (details others : String) (l l' : Ledger)
    → reconcile_definitive_submission_rejection classify source now details l ≡ ok (true, l')
    → (l'.account ≡ l.account)
      × (l'.positions ≡ l.positions)
      × (reconcile_definitive_submission_rejection again source later others l' ≡ ok (false, l'))
unfolding reconcile_definitive_submission_rejection append_transition latest_transition
rejection_reconciled_once classify again source now later details others l l' h =
    elim (Option-cases (latest_transition source.action_id l.transitions)) [
      | inl missing ↦ absurd (ground arith)
      | inr (t, found) ↦ elim (Bool-cases (is_unknown_submission t.status)) [
        | inr other ↦ absurd (ground arith)
        | inl unknown ↦ elim (Option-cases (classify t.reason)) [
          | inl unclassified ↦ absurd (ground arith)
          | inr (reason, definitive) ↦ ground (arith, eq_iff source.action_id source.action_id)
        ]
      ]
    ]
