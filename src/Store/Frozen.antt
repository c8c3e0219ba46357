-- ===== src/Store/Frozen.antt =====
-- The quantities of an action's target, over the operations of app/cd90_live_copy.py in any order.
use Prim.Native.String.{String}
use polymarket_live_copy.Prelude.{
  ℕ, ◌≡◌, refl, ap, sym, subst, ◌∙◌, inl, inr, Bool, true, Option, some, ok, arith, Bool-cases,
  Option-cases, Result-cases,
}
use polymarket_live_copy.Prelude.Int.{eq_of_parts}
use polymarket_live_copy.Prelude.Table.{lookup}
use polymarket_live_copy.Decimal.{Context, Decimal}
use polymarket_live_copy.Store.{
  SourceAction, AttemptState, ActionStatus, Target, Ledger, append_transition, latest_transition,
}
use polymarket_live_copy.Store.Attempts.{restate}
use polymarket_live_copy.Store.Marks.{
  same_value, insert_target, ensure_action_target, action_target, new_target, view,
  set_action_target_state, set_attempt_order_id, update_attempt_state, find_attempt, write_unknown,
  mark_official_order_absent_as_unknown, is_unknown_for, retain_missing_order_id_as_unknown,
  log_transition, TargetView, is_repeated,
}
use polymarket_live_copy.Store.Retained.{retain-IsRecovered}
use polymarket_live_copy.Store.Rejection.{reject-kept}
use polymarket_live_copy.Store.Exclusive.{
  Step, begin, fill, finish, ensure, set_target, identify, set_attempt, order_absent, retain, log,
  reject, Reach, here, next,
}
use polymarket_live_copy.Store.Aims.{
  SameTarget, KeepsTargets, same-KeepsTargets, update-KeepsTargets, insert-KeepsTargets,
  next-KeepsTargets, restate-SameTarget, begin-KeepsTargets, fill-KeepsTargets,
  release-KeepsTargets,
}

insert_target-KeepsTargets :
    (c : Context) (source : SourceAction) (proportional target : Decimal) (state : ActionStatus)
    (reason : String) (now : ℕ) (l l' : Ledger)
    → insert_target c source proportional target state reason now l ≡ ok l'
    → KeepsTargets l l'
unfolding insert_target
insert_target-KeepsTargets c source proportional target state reason now l l' h =
    elim (Option-cases (lookup source.action_id l.targets)) [
      | inl absent ↦
          insert-KeepsTargets source.action_id (new_target c proportional target state reason now) l
            l' absent (ground arith)
      | inr (t, there) ↦ same-KeepsTargets l l' (ground arith)
    ]

-- The row is there afterwards, and it is the one that is returned.
record IsEnsured (c : Context) (source : SourceAction) (proportional target : Decimal)
    (state : ActionStatus) (reason : String) (now : ℕ) (v : TargetView) (l l' : Ledger)
    : Type 0 where
  pub written : insert_target c source proportional target state reason now l ≡ ok l'
  pub found : action_target c source.action_id l' ≡ some v

ensure-IsEnsured :
    (c : Context) (source : SourceAction) (proportional target : Decimal) (state : ActionStatus)
    (reason : String) (now : ℕ) (v : TargetView) (l l' : Ledger)
    → ensure_action_target c source proportional target state reason now l ≡ ok (v, l')
    → IsEnsured c source proportional target state reason now v l l'
unfolding ensure_action_target
ensure-IsEnsured c source proportional target state reason now v l l' h =
    elim (Result-cases (insert_target c source proportional target state reason now l)) [
      | inl (e, refused) ↦ absurd (ground arith)
      | inr (m, written) ↦ elim (Option-cases (action_target c source.action_id m)) [
        | inl absent ↦ absurd (ground arith)
        | inr (found, there) ↦
            let same : m ≡ l' = ground arith in
            record {
              written = written ∙ ap ok same;
              found =
                  ap (action_target c source.action_id) (sym same) ∙ there ∙ ap some (ground arith);
            }
      ]
    ]

write_unknown-KeepsTargets :
    (source : SourceAction) (key reason : String) (now : ℕ) (details : String) (l l' : Ledger)
    → l' ≡ write_unknown source key reason now details l
    → KeepsTargets l l'
unfolding write_unknown append_transition
write_unknown-KeepsTargets source key reason now details l l' e =
    update-KeepsTargets source.action_id (restate ActionStatus.unknown_submission reason now) l l'
      (restate-SameTarget ActionStatus.unknown_submission reason now) (ap (λ v. v.targets) e)

absent-KeepsTargets :
    (source : SourceAction) (key : String) (now : ℕ) (details : String) (b : Bool) (l l' : Ledger)
    → mark_official_order_absent_as_unknown source key now details l ≡ ok (b, l')
    → KeepsTargets l l'
unfolding mark_official_order_absent_as_unknown
absent-KeepsTargets source key now details b l l' h =
    elim (Bool-cases (
      is_unknown_for "OFFICIAL_ORDER_NOT_FOUND"
        (latest_transition source.action_id l.transitions))) [
          | inl again ↦ same-KeepsTargets l l' (ground arith)
          | inr first ↦
              write_unknown-KeepsTargets source key "OFFICIAL_ORDER_NOT_FOUND" now details l l'
                (ground arith)
        ]

retain-KeepsTargets :
    (source : SourceAction) (attempt_id : Option String) (now : ℕ) (details : ℕ → String)
    (l l' : Ledger)
    → retain_missing_order_id_as_unknown source attempt_id now details l ≡ ok l'
    → KeepsTargets l l'
retain-KeepsTargets source attempt_id now details l l' h =
    let r = retain-IsRecovered source attempt_id now details l l' h in
    elim r.result [
      | inl (again, same) ↦ same-KeepsTargets l l' (ap (λ v. v.targets) same)
      | inr written ↦ write_unknown-KeepsTargets source r.key _ now _ l l' written
    ]

set_target-KeepsTargets :
    (source : SourceAction) (state : ActionStatus) (reason : String) (now : ℕ) (l l' : Ledger)
    → set_action_target_state source state reason now l ≡ ok l'
    → KeepsTargets l l'
unfolding set_action_target_state
set_target-KeepsTargets source state reason now l l' h =
    update-KeepsTargets source.action_id (restate state reason now) l l'
      (restate-SameTarget state reason now) (ground arith)

identify-targets :
    (key : String) (order : Option String) (response : String) (now : ℕ) (l l' : Ledger)
    → set_attempt_order_id key order response now l ≡ ok l'
    → l'.targets ≡ l.targets
unfolding set_attempt_order_id
identify-targets key order response now l l' h = elim (Option-cases order) [
  | inl blank ↦ absurd (ground arith)
  | inr (o, given) ↦ elim (Option-cases (find_attempt key l.attempts)) [
    | inl absent ↦ absurd (ground arith)
    | inr (a, there) ↦ ground arith
  ]
]

update_attempt_state-targets :
    (key : String) (state : AttemptState) (response : String) (now : ℕ) (l l' : Ledger)
    → update_attempt_state key state response now l ≡ ok l'
    → l'.targets ≡ l.targets
unfolding update_attempt_state
update_attempt_state-targets key state response now l l' h = ground arith

log_transition-targets :
    (source : SourceAction) (status : ActionStatus) (reason : String) (created : Option ℕ)
    (clock : ℕ) (details : String) (l : Ledger)
    → (log_transition source status reason created clock details l).targets ≡ l.targets
unfolding log_transition append_transition
log_transition-targets source status reason created clock details l =
    elim (Bool-cases
      (is_repeated status reason details (latest_transition source.action_id l.transitions))) [
        | inl repeated ↦ rw repeated refl
        | inr fresh ↦ rw fresh refl
      ]

Step-KeepsTargets : (c : Context) (l l' : Ledger) → Step c l l' → KeepsTargets l l'
Step-KeepsTargets c l l' (begin source plan s h) = begin-KeepsTargets source plan s l l' h
Step-KeepsTargets c l l' (fill source f k h) = fill-KeepsTargets c source f k l l' h
Step-KeepsTargets c l l' (finish source q closed h) = release-KeepsTargets source q l l' h
Step-KeepsTargets c l l' (ensure source proportional target state reason now v h) =
    insert_target-KeepsTargets c source proportional target state reason now l l'
      (ensure-IsEnsured c source proportional target state reason now v l l' h).written
Step-KeepsTargets c l l' (set_target source state reason now h) =
    set_target-KeepsTargets source state reason now l l' h
Step-KeepsTargets c l l' (identify key order response now h) =
    same-KeepsTargets l l' (identify-targets key order response now l l' h)
Step-KeepsTargets c l l' (set_attempt key state response now kept h) =
    same-KeepsTargets l l' (update_attempt_state-targets key state response now l l' h)
Step-KeepsTargets c l l' (order_absent source key now details marked opened h) =
    absent-KeepsTargets source key now details marked l l' h
Step-KeepsTargets c l l' (retain source attempt_id now details h) =
    retain-KeepsTargets source attempt_id now details l l' h
Step-KeepsTargets c l l' (log source status reason created clock details e) =
    same-KeepsTargets l l'
      (ap (λ v. v.targets) e ∙ log_transition-targets source status reason created clock details l)
Step-KeepsTargets c l l' (reject classify source now details reconciled h) =
    same-KeepsTargets l l' (reject-kept classify source now details reconciled l l' h).1

Reach-KeepsTargets : (c : Context) (l l' : Ledger) → Reach c l l' → KeepsTargets l l'
Reach-KeepsTargets c l l' here = same-KeepsTargets l l refl
Reach-KeepsTargets c l l' (next {m} {n} reach step) =
    next-KeepsTargets l m l' (Reach-KeepsTargets c l m reach) (Step-KeepsTargets c m l' step)

same_value-eq : (x y : Decimal) → same_value x y ≡ true → x ≡ y
same_value-eq x y h = eq_of_parts x y (ground arith)

insert_target-again :
    (c : Context) (source : SourceAction) (proportional target : Decimal) (state : ActionStatus)
    (reason : String) (now : ℕ) (t : Target) (l l' : Ledger)
    → lookup source.action_id l.targets ≡ some t
    → insert_target c source proportional target state reason now l ≡ ok l'
    → (l' ≡ l) × (t.proportional_quantity ≡ proportional) × (t.target_quantity ≡ target)
unfolding insert_target
insert_target-again c source proportional target state reason now t l l' there h = (
  ground arith,
  same_value-eq t.proportional_quantity proportional (ground arith),
  same_value-eq t.target_quantity target (ground arith),
)

-- Once an action has a target, every sequence of the operations keeps its two quantities and its
-- time of creation, whatever is filled meanwhile; and a later call that ensures a target for the
-- action succeeds only with these two quantities, changes nothing, and returns them.
pub target_is_frozen :
    (c : Context) (source : SourceAction) (proportional target : Decimal) (state : ActionStatus)
    (reason : String) (now : ℕ) (v : TargetView) (t : Target) (l m m' : Ledger)
    → lookup source.action_id l.targets ≡ some t
    → Reach c l m
    → ensure_action_target c source proportional target state reason now m ≡ ok (v, m')
    → (proportional ≡ t.proportional_quantity)
      × (target ≡ t.target_quantity)
      × (m' ≡ m)
      × SameTarget t v.row
unfolding action_target view
target_is_frozen c source proportional target state reason now v t l m m' there reach h =
    let e = ensure-IsEnsured c source proportional target state reason now v m m' h in
    let (u, kept, same) = Reach-KeepsTargets c l m reach source.action_id t there in
    let (unchanged, p, q) =
      insert_target-again c source proportional target state reason now u m m' kept e.written in
    let row : v.row ≡ u = ground (arith, unchanged, kept, e.found) in
    (
      sym p ∙ same.proportional,
      sym q ∙ same.quantity,
      unchanged,
      subst (SameTarget t) (sym row) same,
    )
