-- ===== src/Store/Exclusive.antt =====
-- The open submission attempts of an action, over the operations on a ledger in any order.
use Prim.Native.String.{String}
use text.Mathlib.Text.{◌==◌}
use text.Mathlib.TextEquality.{eq_iff}
use polymarket_live_copy.Prelude.{
  ℕ, ◌+◌, ◌≡◌, ap, ◌∙◌, inl, inr, Bool, true, false, Option, none, some, [], ◌∷◌, ◌++◌, ok, arith,
  Bool-cases, Option-cases, Result-cases, if◌then◌else◌,
}
use polymarket_live_copy.Prelude.Table.{lookup}
use polymarket_live_copy.Decimal.{Context, add}
use polymarket_live_copy.Sizing.Plan.{ActionPlan}
use polymarket_live_copy.Store.{
  SourceAction, AttemptState, filled, partial_filled, ActionStatus, Ledger, append_transition,
  is_unresolved,
}
use polymarket_live_copy.Store.Attempts.{
  Submission, has_unresolved, last_number, reserve, new_reservation, new_attempt, write_attempt,
  begin_submission_attempt,
}
use polymarket_live_copy.Store.Fills.{Fill, apply_fill, write_books}
use polymarket_live_copy.Store.Finalize.{
  Closing, apply_fill_and_finalize, finalize_target, finalize_attempt, is_filled, close_target,
}
use polymarket_live_copy.Store.Release.{
  ReleaseRequest, release_reservation_and_finalize, close_attempt, write_release,
}
use polymarket_live_copy.Store.Closing.{apply_fill_and_finalize-IsClosed}
use polymarket_live_copy.Store.Positions.{apply_fill-IsFilled}
use polymarket_live_copy.Decimal.{Decimal}
use polymarket_live_copy.Store.Marks.{
  TargetView, ensure_action_target, set_action_target_state, set_attempt_order_id,
  update_attempt_state, mark_official_order_absent_as_unknown, retain_missing_order_id_as_unknown,
  log_transition,
}
use polymarket_live_copy.Store.Marked.{
  ensure-IsExclusive, set_target-IsExclusive, identify-IsExclusive, reopens_at, update-IsExclusive,
  absent-IsExclusive, log_transition-attempts,
}
use polymarket_live_copy.Store.Retained.{retain-IsExclusive}
use polymarket_live_copy.Store.Rejection.{reconcile_definitive_submission_rejection, reject-kept}
use polymarket_live_copy.Store.Opened.{
  is_open_at, IsExclusive, open_attempts-none, open_attempts-append, close-IsExclusive,
  same-IsExclusive,
}

begin-attempts :
    (source : SourceAction) (plan : ActionPlan) (s : Submission) (l : Ledger) {l' : Ledger}
    → begin_submission_attempt source plan s l ≡ ok l'
    → (has_unresolved source.action_id l.attempts ≡ false)
      × (l'.attempts
          ≡ l.attempts
            ++ new_attempt source plan s (last_number source.action_id l.attempts + 1) ∷ [])
unfolding begin_submission_attempt write_attempt append_transition
begin-attempts source plan s l {l'} h =
    elim (Option-cases (reserve source.action_id (new_reservation source plan s) l.reservations)) [
      | inl held ↦ absurd (ground arith)
      | inr (rows, er) ↦ ground arith
    ]

begin-IsExclusive :
    (source : SourceAction) (plan : ActionPlan) (s : Submission) (l : Ledger) {l' : Ledger}
    → begin_submission_attempt source plan s l ≡ ok l'
    → IsExclusive l
    → IsExclusive l'
unfolding new_attempt
begin-IsExclusive source plan s l {l'} h x k =
    let (free, rows) = begin-attempts source plan s l h in
    let new = new_attempt source plan s (last_number source.action_id l.attempts + 1) in
    rw (rows, open_attempts-append k l.attempts new)
      (elim (Bool-cases (source.action_id == k)) [
        | inl same ↦
            ground (
              arith,
              open_attempts-none source.action_id l.attempts free,
              eq_iff source.action_id k,
            )
        | inr other ↦ ground (arith, x k)
      ])

apply_fill-attempts :
    (c : Context) (source : SourceAction) (f : Fill) (l l' : Ledger)
    → apply_fill c source f l ≡ ok l'
    → l'.attempts ≡ l.attempts
unfolding write_books
apply_fill-attempts c source f l l' h =
    ap (λ w. w.attempts) (apply_fill-IsFilled c source f h).result

finalize_target-attempts :
    (c : Context) (source : SourceAction) (f : Fill) (k : Closing) (l : Ledger) (s : ActionStatus)
    (l' : Ledger)
    → finalize_target c source f k l ≡ ok (s, l')
    → l'.attempts ≡ l.attempts
unfolding finalize_target
finalize_target-attempts c source f k l s l' h =
    elim (Option-cases (lookup source.action_id l.targets)) [
      | inl no_target ↦ ground arith
      | inr (t, there) ↦
          elim (Result-cases (
            close_target c source f k (lookup source.action_id l.reservations) t.target_quantity
              (add c t.cumulative_filled_quantity f.quantity))) [
                | inl (e, refused) ↦ absurd (ground arith)
                | inr (u, eu) ↦ ground arith
              ]
    ]

finalize_attempt-IsExclusive :
    (c : Context) (k : Closing) (s : ActionStatus) (l l' : Ledger)
    → finalize_attempt c k s l ≡ ok l'
    → IsExclusive l
    → IsExclusive l'
unfolding finalize_attempt
finalize_attempt-IsExclusive c k s l l' h x = elim (Option-cases k.attempt_id) [
  | inl none_named ↦ same-IsExclusive l l' (ground arith) x
  | inr (key, named) ↦
      close-IsExclusive key (if is_filled s then filled else partial_filled) k.details
        k.created_at_ms l l' (ground arith) (ground arith) x
]

fill-IsExclusive :
    (c : Context) (source : SourceAction) (f : Fill) (k : Closing) (l l' : Ledger)
    → apply_fill_and_finalize c source f k l ≡ ok l'
    → IsExclusive l
    → IsExclusive l'
unfolding append_transition
fill-IsExclusive c source f k l l' h x =
    let w = apply_fill_and_finalize-IsClosed c source f k h in
    let posted =
      same-IsExclusive l w.filled
        (apply_fill-attempts c source f w.aimed w.filled w.fill_step
          ∙ finalize_target-attempts c source f k l w.status w.aimed w.target_step)
        x in
    finalize_attempt-IsExclusive c k w.status
      (append_transition source.action_id w.status k.reason k.created_at_ms k.details w.filled) l'
      w.attempt_step posted

abbrev pub reopens : Option AttemptState → Bool
reopens none = false
reopens (some s) = is_unresolved s

release-IsExclusive :
    (source : SourceAction) (q : ReleaseRequest) (l l' : Ledger)
    → reopens q.attempt_state ≡ false
    → release_reservation_and_finalize source q l ≡ ok l'
    → IsExclusive l
    → IsExclusive l'
unfolding release_reservation_and_finalize close_attempt write_release append_transition
release-IsExclusive source q l l' closed h x = elim (Option-cases q.attempt_id) [
  | inl none_named ↦ same-IsExclusive l l' (ground arith) x
  | inr (key, named) ↦ elim (Option-cases q.attempt_state) [
    | inl no_state ↦ absurd (ground arith)
    | inr (state, given) ↦
        close-IsExclusive key state q.attempt_response q.created_at_ms l l' (ground arith)
          (ground arith) x
  ]
]

-- The transactions of the processes on a ledger. A release here closes the attempt that it names,
-- or names none; a state that is written opens no attempt that is closed; and an order that is
-- absent belongs to an open attempt.
pub data Step (c : Context) (l l' : Ledger) : Type 0 where
  begin :
      (source : SourceAction) (plan : ActionPlan) (s : Submission)
      → begin_submission_attempt source plan s l ≡ ok l'
      → Step c l l'
  fill :
      (source : SourceAction) (f : Fill) (k : Closing)
      → apply_fill_and_finalize c source f k l ≡ ok l'
      → Step c l l'
  finish :
      (source : SourceAction) (q : ReleaseRequest)
      → reopens q.attempt_state ≡ false
      → release_reservation_and_finalize source q l ≡ ok l'
      → Step c l l'
  ensure :
      (source : SourceAction) (proportional target : Decimal) (state : ActionStatus)
      (reason : String) (now : ℕ) (v : TargetView)
      → ensure_action_target c source proportional target state reason now l ≡ ok (v, l')
      → Step c l l'
  set_target :
      (source : SourceAction) (state : ActionStatus) (reason : String) (now : ℕ)
      → set_action_target_state source state reason now l ≡ ok l'
      → Step c l l'
  identify :
      (key : String) (order : Option String) (response : String) (now : ℕ)
      → set_attempt_order_id key order response now l ≡ ok l'
      → Step c l l'
  set_attempt :
      (key : String) (state : AttemptState) (response : String) (now : ℕ)
      → reopens_at key state l ≡ false
      → update_attempt_state key state response now l ≡ ok l'
      → Step c l l'
  order_absent :
      (source : SourceAction) (key : String) (now : ℕ) (details : String) (marked : Bool)
      → is_open_at key l.attempts ≡ true
      → mark_official_order_absent_as_unknown source key now details l ≡ ok (marked, l')
      → Step c l l'
  retain :
      (source : SourceAction) (attempt_id : Option String) (now : ℕ) (details : ℕ → String)
      → retain_missing_order_id_as_unknown source attempt_id now details l ≡ ok l'
      → Step c l l'
  log :
      (source : SourceAction) (status : ActionStatus) (reason : String) (created : Option ℕ)
      (clock : ℕ) (details : String)
      → l' ≡ log_transition source status reason created clock details l
      → Step c l l'
  reject :
      (classify : String → Option String) (source : SourceAction) (now : ℕ) (details : String)
      (reconciled : Bool)
      → reconcile_definitive_submission_rejection classify source now details l
        ≡ ok (reconciled, l')
      → Step c l l'

pub data Reach (c : Context) (l : Ledger) : Ledger → Type 0 where
  here : Reach c l l
  next : {m n : Ledger} → Reach c l m → Step c m n → Reach c l n

Step-IsExclusive : (c : Context) (l l' : Ledger) → Step c l l' → IsExclusive l → IsExclusive l'
Step-IsExclusive c l l' (begin source plan s h) x = begin-IsExclusive source plan s l h x
Step-IsExclusive c l l' (fill source f k h) x = fill-IsExclusive c source f k l l' h x
Step-IsExclusive c l l' (finish source q closed h) x = release-IsExclusive source q l l' closed h x
Step-IsExclusive c l l' (ensure source proportional target state reason now v h) x =
    ensure-IsExclusive c source proportional target state reason now v l l' h x
Step-IsExclusive c l l' (set_target source state reason now h) x =
    set_target-IsExclusive source state reason now l l' h x
Step-IsExclusive c l l' (identify key order response now h) x =
    identify-IsExclusive key order response now l l' h x
Step-IsExclusive c l l' (set_attempt key state response now kept h) x =
    update-IsExclusive key state response now l l' kept h x
Step-IsExclusive c l l' (order_absent source key now details marked opened h) x =
    absent-IsExclusive source key now details marked l l' opened h x
Step-IsExclusive c l l' (retain source attempt_id now details h) x =
    retain-IsExclusive source attempt_id now details l l' h x
Step-IsExclusive c l l' (log source status reason created clock details e) x =
    same-IsExclusive l l'
      (ap (λ v. v.attempts) e
        ∙ log_transition-attempts source status reason created clock details l)
      x
Step-IsExclusive c l l' (reject classify source now details reconciled h) x =
    same-IsExclusive l l' (reject-kept classify source now details reconciled l l' h).0 x

-- From a ledger in which no action has two open submission attempts, every sequence of
-- submissions, fills, releases, rejections, recoveries and marks, where no release and no mark
-- opens a closed attempt, leads to one in which no action has.
pub one_open_attempt :
    (c : Context) (l : Ledger) → IsExclusive l → {l' : Ledger} → Reach c l l' → IsExclusive l'
one_open_attempt c l x here = x
one_open_attempt c l x (next {m} {n} reach step) =
    Step-IsExclusive c m n step (one_open_attempt c l x reach)
