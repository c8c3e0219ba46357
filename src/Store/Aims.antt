-- ===== src/Store/Aims.antt =====
-- The quantities of an action's target under a submission, a fill and a release.
use Prim.Native.String.{String}
use text.Mathlib.Text.{◌==◌}
use text.Mathlib.TextEquality.{eq_iff}
use polymarket_live_copy.Prelude.{
  ℕ, ◌≡◌, refl, ap, ◌∙◌, inl, inr, none, some, ok, arith, Bool-cases, Option-cases, Result-cases,
}
use polymarket_live_copy.Prelude.Table.{lookup, update, upsert, lookup-update, lookup-upsert}
use polymarket_live_copy.Decimal.{Context, add}
use polymarket_live_copy.Sizing.Plan.{ActionPlan}
use polymarket_live_copy.Store.{SourceAction, ActionStatus, Target, Ledger, append_transition}
use polymarket_live_copy.Store.Fills.{Fill, apply_fill, write_books}
use polymarket_live_copy.Store.Finalize.{
  Closing, apply_fill_and_finalize, finalize_target, finalize_attempt, close_target, fill_target,
}
use polymarket_live_copy.Store.Closing.{apply_fill_and_finalize-IsClosed}
use polymarket_live_copy.Store.Positions.{apply_fill-IsFilled}
use polymarket_live_copy.Store.Release.{
  ReleaseRequest, release_reservation_and_finalize, close_attempt, write_release,
}
use polymarket_live_copy.Store.Attempts.{
  Submission, begin_submission_attempt, reserve, new_reservation, write_attempt, restate,
}

-- The part of a target that never changes.
pub record SameTarget (t t' : Target) : Type 0 where
  pub proportional : t'.proportional_quantity ≡ t.proportional_quantity
  pub quantity : t'.target_quantity ≡ t.target_quantity
  pub created : t'.created_at_ms ≡ t.created_at_ms

-- Every target is kept.
abbrev pub KeepsTargets : (l l' : Ledger) → Type 0
KeepsTargets l l' =
    (k : String) (t : Target)
    → lookup k l.targets ≡ some t
    → (t' : Target) × (lookup k l'.targets ≡ some t') × SameTarget t t'

pub same-KeepsTargets : (l l' : Ledger) → l'.targets ≡ l.targets → KeepsTargets l l'
same-KeepsTargets l l' e k t h =
    (t, ap (lookup k) e ∙ h, record { proportional = refl; quantity = refl; created = refl })

pub update-KeepsTargets :
    (key : String) (f : Target → Target) (l l' : Ledger)
    → ((t : Target) → SameTarget t (f t))
    → l'.targets ≡ update key f l.targets
    → KeepsTargets l l'
update-KeepsTargets key f l l' same e k t h = elim (Bool-cases (key == k)) [
  | inl hit ↦ (f t, ground (arith, e, lookup-update key k f l.targets), same t)
  | inr other ↦ (
    t,
    ground (arith, e, lookup-update key k f l.targets),
    record { proportional = refl; quantity = refl; created = refl },
  )
]

pub insert-KeepsTargets :
    (key : String) (v : Target) (l l' : Ledger)
    → lookup key l.targets ≡ none
    → l'.targets ≡ upsert key v l.targets
    → KeepsTargets l l'
insert-KeepsTargets key v l l' absent e k t h = (
  t,
  ground (arith, e, lookup-upsert key k v l.targets, eq_iff key k),
  record { proportional = refl; quantity = refl; created = refl },
)

pub next-KeepsTargets : (l m n : Ledger) → KeepsTargets l m → KeepsTargets m n → KeepsTargets l n
next-KeepsTargets l m n x y k t h =
    let (u, there, s) = x k t h in
    let (v, found, r) = y k u there in
    (
      v,
      found,
      record {
        proportional = r.proportional ∙ s.proportional;
        quantity = r.quantity ∙ s.quantity;
        created = r.created ∙ s.created;
      },
    )

pub restate-SameTarget :
    (state : ActionStatus) (reason : String) (now : ℕ) (t : Target)
    → SameTarget t (restate state reason now t)
restate-SameTarget state reason now t = record {
  proportional = refl;
  quantity = refl;
  created = refl;
}

pub begin-KeepsTargets :
    (source : SourceAction) (plan : ActionPlan) (s : Submission) (l l' : Ledger)
    → begin_submission_attempt source plan s l ≡ ok l'
    → KeepsTargets l l'
unfolding begin_submission_attempt write_attempt append_transition
begin-KeepsTargets source plan s l l' h =
    elim (Option-cases (reserve source.action_id (new_reservation source plan s) l.reservations)) [
      | inl held ↦ absurd (ground arith)
      | inr (rows, er) ↦
          update-KeepsTargets source.action_id
            (restate ActionStatus.submit_started s.reason s.created_at_ms) l l'
            (restate-SameTarget ActionStatus.submit_started s.reason s.created_at_ms) (ground arith)
    ]

finalize_target-KeepsTargets :
    (c : Context) (source : SourceAction) (f : Fill) (k : Closing) (l : Ledger) (s : ActionStatus)
    (l' : Ledger)
    → finalize_target c source f k l ≡ ok (s, l')
    → KeepsTargets l l'
unfolding finalize_target
finalize_target-KeepsTargets c source f k l s l' h =
    elim (Option-cases (lookup source.action_id l.targets)) [
      | inl no_target ↦ same-KeepsTargets l l' (ground arith)
      | inr (t, there) ↦
          let cumulative = add c t.cumulative_filled_quantity f.quantity in
          elim (Result-cases (
            close_target c source f k (lookup source.action_id l.reservations) t.target_quantity
              cumulative)) [
                | inl (e, refused) ↦ absurd (ground arith)
                | inr (u, eu) ↦
                    update-KeepsTargets source.action_id
                      (fill_target c cumulative u k.reason k.created_at_ms) l l'
                      (λ x. record { proportional = refl; quantity = refl; created = refl })
                      (ground arith)
              ]
    ]

finalize_attempt-targets :
    (c : Context) (k : Closing) (s : ActionStatus) (l l' : Ledger)
    → finalize_attempt c k s l ≡ ok l'
    → l'.targets ≡ l.targets
unfolding finalize_attempt
finalize_attempt-targets c k s l l' h = elim (Option-cases k.attempt_id) [
  | inl none_named ↦ ground arith
  | inr (key, named) ↦ ground arith
]

apply_fill-targets :
    (c : Context) (source : SourceAction) (f : Fill) (l l' : Ledger)
    → apply_fill c source f l ≡ ok l'
    → l'.targets ≡ l.targets
unfolding write_books
apply_fill-targets c source f l l' h = ap (λ w. w.targets) (apply_fill-IsFilled c source f h).result

pub fill-KeepsTargets :
    (c : Context) (source : SourceAction) (f : Fill) (k : Closing) (l l' : Ledger)
    → apply_fill_and_finalize c source f k l ≡ ok l'
    → KeepsTargets l l'
unfolding append_transition
fill-KeepsTargets c source f k l l' h =
    let w = apply_fill_and_finalize-IsClosed c source f k h in
    next-KeepsTargets l w.aimed l'
      (finalize_target-KeepsTargets c source f k l w.status w.aimed w.target_step)
      (same-KeepsTargets w.aimed l' (
        finalize_attempt-targets c k w.status _ l' w.attempt_step
        ∙ apply_fill-targets c source f w.aimed w.filled w.fill_step))

pub release-KeepsTargets :
    (source : SourceAction) (q : ReleaseRequest) (l l' : Ledger)
    → release_reservation_and_finalize source q l ≡ ok l'
    → KeepsTargets l l'
unfolding release_reservation_and_finalize close_attempt write_release append_transition
release-KeepsTargets source q l l' h =
    let same = restate-SameTarget q.terminal_status q.reason q.created_at_ms in
    let change = restate q.terminal_status q.reason q.created_at_ms in
    elim (Option-cases q.attempt_id) [
      | inl none_named ↦ update-KeepsTargets source.action_id change l l' same (ground arith)
      | inr (key, named) ↦ elim (Option-cases q.attempt_state) [
        | inl no_state ↦ absurd (ground arith)
        | inr (state, given) ↦ update-KeepsTargets source.action_id change l l' same (ground arith)
      ]
    ]
