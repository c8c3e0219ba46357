-- ===== src/Store/Retained.antt =====
-- `retain_missing_order_id_as_unknown` of app/cd90_live_copy.py: the recovery of a submission
-- without an order id, run again and followed by a submission.
use Prim.Native.String.{String}
use text.Mathlib.Text.{◌==◌}
use text.Mathlib.TextEquality.{eq_iff}
use polymarket_live_copy.Prelude.{
  ℕ, ◌≡◌, ◌≢◌, ◌⊎◌, refl, ap, ◌∙◌, inl, inr, true, false, Option, some, List, [], ◌∷◌, ok, arith,
  Bool-cases, Option-cases, is_some,
}
use polymarket_live_copy.Prelude.Table.{lookup, lookup-update_self, on_some}
use polymarket_live_copy.Sizing.Plan.{ActionPlan}
use polymarket_live_copy.Store.{
  SourceAction, Attempt, ActionStatus, ActionTransition, Target, Ledger, append_transition,
  is_unresolved, latest_transition,
}
use polymarket_live_copy.Store.Finalize.{update_attempt}
use polymarket_live_copy.Store.Attempts.{
  has_unresolved, Submission, begin_submission_attempt, restate,
}
use polymarket_live_copy.Store.Marks.{
  write_unknown, retain_attempt, retain_missing_order_id_as_unknown, find_attempt, find_attempt_of,
  doubted, is_retained, is_terminal,
}
use polymarket_live_copy.Store.Opened.{IsExclusive, change-IsExclusive, same-IsExclusive}

-- How a recovery succeeds.
pub record IsRecovered (source : SourceAction) (attempt_id : Option String) (now : ℕ)
    (details : ℕ → String) (l l' : Ledger) : Type 0 where
  pub key : String
  pub attempt : Attempt
  pub latest : ActionTransition
  pub target : Target
  pub named : attempt_id ≡ some key
  pub found : find_attempt_of key source.action_id l.attempts ≡ some attempt
  pub opened : is_unresolved attempt.state ≡ true
  pub unnamed : is_some attempt.order_id ≡ false
  pub latest_value : latest_transition source.action_id l.transitions ≡ some latest
  pub latest_open : is_terminal latest.status ≡ false
  pub target_value : lookup source.action_id l.targets ≡ some target
  pub target_open : is_terminal target.state ≡ false
  pub result :
      ((is_retained "MISSING_ORDER_ID_FOR_RECONCILIATION" attempt latest target ≡ true) × (l' ≡ l))
      ⊎ (l'
          ≡ write_unknown source key "MISSING_ORDER_ID_FOR_RECONCILIATION" now
              (details attempt.attempt_number)
              l)

module _ (source : SourceAction) (key : String) (a : Attempt) (now : ℕ) (details : ℕ → String)
    (l l' : Ledger) where
  -- What the tests of the transition and of the target let through.
  record PassesTests : Type 0 where
    pub latest : ActionTransition
    pub target : Target
    pub latest_value : latest_transition source.action_id l.transitions ≡ some latest
    pub latest_open : is_terminal latest.status ≡ false
    pub target_value : lookup source.action_id l.targets ≡ some target
    pub target_open : is_terminal target.state ≡ false

  retain_attempt-PassesTests : retain_attempt source key a now details l ≡ ok l' → PassesTests
  unfolding retain_attempt
  retain_attempt-PassesTests h =
      elim (Option-cases (latest_transition source.action_id l.transitions)) [
        | inl absent ↦ absurd (ground arith)
        | inr (t, latest) ↦ elim (Option-cases (lookup source.action_id l.targets)) [
          | inl absent ↦ absurd (ground arith)
          | inr (g, aimed) ↦ record {
            latest = t;
            target = g;
            latest_value = latest;
            latest_open = ground arith;
            target_value = aimed;
            target_open = ground arith;
          }
        ]
      ]

  retain_attempt-result :
      (p : PassesTests)
      → retain_attempt source key a now details l ≡ ok l'
      → ((is_retained "MISSING_ORDER_ID_FOR_RECONCILIATION" a p.latest p.target ≡ true) × (l' ≡ l))
        ⊎ (l'
            ≡ write_unknown source key "MISSING_ORDER_ID_FOR_RECONCILIATION" now
                (details a.attempt_number)
                l)
  unfolding retain_attempt
  retain_attempt-result p h =
      let e = rw (p.latest_value, p.latest_open, p.target_value, p.target_open) at h in
      elim (Bool-cases (is_retained "MISSING_ORDER_ID_FOR_RECONCILIATION" a p.latest p.target)) [
        | inl again ↦ inl (again, ground arith)
        | inr first ↦ inr (ground arith)
      ]

pub retain-IsRecovered :
    (source : SourceAction) (attempt_id : Option String) (now : ℕ) (details : ℕ → String)
    (l l' : Ledger)
    → retain_missing_order_id_as_unknown source attempt_id now details l ≡ ok l'
    → IsRecovered source attempt_id now details l l'
unfolding retain_missing_order_id_as_unknown
retain-IsRecovered source attempt_id now details l l' h = elim (Option-cases attempt_id) [
  | inl blank ↦ absurd (ground arith)
  | inr (key, named) ↦ elim (Option-cases (find_attempt_of key source.action_id l.attempts)) [
    | inl absent ↦ absurd (ground arith)
    | inr (a, found) ↦
        let kept : retain_attempt source key a now details l ≡ ok l' = ground arith in
        let p = retain_attempt-PassesTests source key a now details l l' kept in
        record {
          key = key;
          attempt = a;
          latest = p.latest;
          target = p.target;
          named = named;
          found = found;
          opened = ground arith;
          unnamed = ground arith;
          latest_value = p.latest_value;
          latest_open = p.latest_open;
          target_value = p.target_value;
          target_open = p.target_open;
          result = retain_attempt-result source key a now details l l' p kept;
        }
  ]
]

find_attempt-key :
    (key : String) (rows : List Attempt) (a : Attempt)
    → find_attempt key rows ≡ some a
    → a.attempt_id == key ≡ true
unfolding find_attempt
find_attempt-key key [] a h = absurd (ground arith)
find_attempt-key key (b ∷ rest) a h = ground (arith, find_attempt-key key rest a)

find_attempt-doubted :
    (key : String) (now : ℕ) (rows : List Attempt) (a : Attempt)
    → find_attempt key rows ≡ some a
    → find_attempt key (update_attempt key (doubted now) rows) ≡ some (doubted now a)
unfolding find_attempt update_attempt
find_attempt-doubted key now [] a h = absurd (ground arith)
find_attempt-doubted key now (b ∷ rest) a h = ground (arith, find_attempt-doubted key now rest a)

-- The attempt belongs to the action.
find_attempt_of-find :
    (key action : String) (rows : List Attempt) (a : Attempt)
    → find_attempt_of key action rows ≡ some a
    → (find_attempt key rows ≡ some a) × (a.action_id == action ≡ true)
unfolding find_attempt_of
find_attempt_of-find key action rows a h = elim (Option-cases (find_attempt key rows)) [
  | inl absent ↦ absurd (ground arith)
  | inr (b, there) ↦ ground arith
]

find_attempt_of-doubted :
    (key action : String) (now : ℕ) (rows : List Attempt) (a : Attempt)
    → find_attempt_of key action rows ≡ some a
    → find_attempt_of key action (update_attempt key (doubted now) rows) ≡ some (doubted now a)
unfolding find_attempt_of
find_attempt_of-doubted key action now rows a h =
    let (there, own) = find_attempt_of-find key action rows a h in
    ground (arith, find_attempt-doubted key now rows a there)

find_attempt-has_unresolved :
    (key action : String) (rows : List Attempt) (a : Attempt)
    → find_attempt key rows ≡ some a
    → a.action_id == action ≡ true
    → is_unresolved a.state ≡ true
    → has_unresolved action rows ≡ true
unfolding find_attempt has_unresolved
find_attempt-has_unresolved key action [] a h own opened = absurd (ground arith)
find_attempt-has_unresolved key action (b ∷ rest) a h own opened =
    ground (arith, find_attempt-has_unresolved key action rest a)

pub retain-IsExclusive :
    (source : SourceAction) (attempt_id : Option String) (now : ℕ) (details : ℕ → String)
    (l l' : Ledger)
    → retain_missing_order_id_as_unknown source attempt_id now details l ≡ ok l'
    → IsExclusive l
    → IsExclusive l'
unfolding write_unknown append_transition
retain-IsExclusive source attempt_id now details l l' h x =
    let r = retain-IsRecovered source attempt_id now details l l' h in
    let (there, own) = find_attempt_of-find r.key source.action_id l.attempts r.attempt r.found in
    elim r.result [
      | inl (again, same) ↦ same-IsExclusive l l' (ap (λ v. v.attempts) same) x
      | inr written ↦
          change-IsExclusive r.key (doubted now) l l' (λ b. refl) (ground (arith, r.opened))
            (ap (λ v. v.attempts) written) x
    ]

-- The state that a recovery leaves is one that it finds again.
recovered-again :
    (source : SourceAction) (attempt_id : Option String) (now : ℕ) (details : ℕ → String)
    (l l' : Ledger)
    → IsRecovered source attempt_id now details l l'
    → (a : Attempt) × (t : ActionTransition) × (g : Target) × (key : String) × (attempt_id
        ≡ some key)
      × (find_attempt_of key source.action_id l'.attempts ≡ some a)
      × (is_some a.order_id ≡ false)
      × (latest_transition source.action_id l'.transitions ≡ some t)
      × (lookup source.action_id l'.targets ≡ some g)
      × (is_retained "MISSING_ORDER_ID_FOR_RECONCILIATION" a t g ≡ true)
unfolding write_unknown append_transition latest_transition
recovered-again source attempt_id now details l l' r = elim r.result [
  | inl (again, same) ↦ (
    r.attempt,
    r.latest,
    r.target,
    r.key,
    r.named,
    rw same r.found,
    r.unnamed,
    rw same r.latest_value,
    rw same r.target_value,
    again,
  )
  | inr written ↦ (
    doubted now r.attempt,
    record {
      action_id = source.action_id;
      status = ActionStatus.unknown_submission;
      reason = "MISSING_ORDER_ID_FOR_RECONCILIATION";
      created_at_ms = now;
      details_json = details r.attempt.attempt_number;
    },
    restate ActionStatus.unknown_submission "MISSING_ORDER_ID_FOR_RECONCILIATION" now r.target,
    r.key,
    r.named,
    ap (λ v. find_attempt_of r.key source.action_id v.attempts) written
        ∙ find_attempt_of-doubted r.key source.action_id now l.attempts r.attempt r.found,
    r.unnamed,
    ap (λ v. latest_transition source.action_id v.transitions) written
        ∙ ground (arith, eq_iff source.action_id source.action_id),
    ap (λ v. lookup source.action_id v.targets) written
        ∙ lookup-update_self source.action_id _ l.targets
        ∙ ap (on_some _) r.target_value,
    ground
        (arith, eq_iff "MISSING_ORDER_ID_FOR_RECONCILIATION" "MISSING_ORDER_ID_FOR_RECONCILIATION"),
  )
]

is_retained-open :
    (reason : String) (a : Attempt) (t : ActionTransition) (g : Target)
    → is_retained reason a t g ≡ true
    → (is_unresolved a.state ≡ true)
      × (is_terminal t.status ≡ false)
      × (is_terminal g.state ≡ false)
is_retained-open reason a t g h = ground arith

retained-again :
    (source : SourceAction) (key : String) (a : Attempt) (t : ActionTransition) (g : Target)
    (later : ℕ) (others : ℕ → String) (l : Ledger)
    → latest_transition source.action_id l.transitions ≡ some t
    → lookup source.action_id l.targets ≡ some g
    → is_retained "MISSING_ORDER_ID_FOR_RECONCILIATION" a t g ≡ true
    → retain_attempt source key a later others l ≡ ok l
unfolding retain_attempt
retained-again source key a t g later others l latest aimed again =
    let (opened, running, going) = is_retained-open _ a t g again in
    rw (latest, running, aimed, going, again) refl

module _ (source : SourceAction) (attempt_id : Option String) (now : ℕ) (details : ℕ → String)
    (l l' : Ledger) where
  recovered-account :
      IsRecovered source attempt_id now details l l'
      → (l'.account ≡ l.account) × (l'.positions ≡ l.positions) × (l'.reservations ≡ l.reservations)
  unfolding write_unknown append_transition
  recovered-account r = elim r.result [
    | inl (again, same) ↦ rw same (refl, refl, refl)
    | inr written ↦ rw written (refl, refl, refl)
  ]

-- A recovery that succeeds keeps the account, the positions and the reservations; the same recovery
-- succeeds again, whatever its time and its details, and changes nothing more; and no submission of
-- the action begins in the ledger that it leaves.
pub recovery_retained :
    (source : SourceAction) (attempt_id : Option String) (now later : ℕ)
    (details others : ℕ → String) (l l' : Ledger)
    → retain_missing_order_id_as_unknown source attempt_id now details l ≡ ok l'
    → (l'.account ≡ l.account)
      × (l'.positions ≡ l.positions)
      × (l'.reservations ≡ l.reservations)
      × (retain_missing_order_id_as_unknown source attempt_id later others l' ≡ ok l')
      × ((plan : ActionPlan) (s : Submission) (l'' : Ledger)
          → begin_submission_attempt source plan s l' ≢ ok l'')
unfolding retain_missing_order_id_as_unknown begin_submission_attempt
recovery_retained source attempt_id now later details others l l' h =
    let r = retain-IsRecovered source attempt_id now details l l' h in
    let (a, t, g, key, named, found, unnamed, latest, aimed, again) =
      recovered-again source attempt_id now details l l' r in
    let (there, own) = find_attempt_of-find key source.action_id l'.attempts a found in
    let opened = (is_retained-open _ a t g again).0 in
    let (account, positions, reservations) =
      recovered-account source attempt_id now details l l' r in
    (
      account,
      positions,
      reservations,
      rw (named, found, opened, unnamed)
          (retained-again source key a t g later others l' latest aimed again),
      λ plan s l'' e.
          ground (
            arith,
            find_attempt-has_unresolved key source.action_id l'.attempts a there own opened,
          ),
    )
