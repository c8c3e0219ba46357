-- ===== src/Store/Marked.antt =====
-- The marks of app/cd90_live_copy.py and the open submission attempts of an action.
use Prim.Native.String.{String}
use polymarket_live_copy.Prelude.{
  ℕ, ◌≡◌, refl, inl, inr, Bool, true, false, not, ◌&&◌, Option, ok, arith, Bool-cases, Option-cases,
  Result-cases,
}
use polymarket_live_copy.Prelude.Table.{lookup}
use polymarket_live_copy.Decimal.{Context, Decimal}
use polymarket_live_copy.Store.{
  SourceAction, AttemptState, ActionStatus, Ledger, append_transition, is_unresolved,
  latest_transition,
}
use polymarket_live_copy.Store.Finalize.{update_attempt, answered}
use polymarket_live_copy.Store.Marks.{
  insert_target, ensure_action_target, action_target, set_action_target_state, set_attempt_order_id,
  update_attempt_state, write_unknown, mark_official_order_absent_as_unknown, log_transition,
  find_attempt, identified, doubted, is_unknown_for, TargetView, is_repeated,
}
use polymarket_live_copy.Store.Opened.{
  IsExclusive, is_open_at, change-IsExclusive, close-IsExclusive, same-IsExclusive,
}

insert_target-attempts :
    (c : Context) (source : SourceAction) (proportional target : Decimal) (state : ActionStatus)
    (reason : String) (now : ℕ) (l l' : Ledger)
    → insert_target c source proportional target state reason now l ≡ ok l'
    → l'.attempts ≡ l.attempts
unfolding insert_target
insert_target-attempts c source proportional target state reason now l l' h =
    elim (Option-cases (lookup source.action_id l.targets)) [
      | inl absent ↦ ground arith
      | inr (t, there) ↦ ground arith
    ]

pub ensure-IsExclusive :
    (c : Context) (source : SourceAction) (proportional target : Decimal) (state : ActionStatus)
    (reason : String) (now : ℕ) (v : TargetView) (l l' : Ledger)
    → ensure_action_target c source proportional target state reason now l ≡ ok (v, l')
    → IsExclusive l
    → IsExclusive l'
unfolding ensure_action_target
ensure-IsExclusive c source proportional target state reason now v l l' h x =
    elim (Result-cases (insert_target c source proportional target state reason now l)) [
      | inl (e, refused) ↦ absurd (ground arith)
      | inr (m, written) ↦ elim (Option-cases (action_target c source.action_id m)) [
        | inl absent ↦ absurd (ground arith)
        | inr (found, there) ↦
            same-IsExclusive l l'
              (ground (
                arith,
                insert_target-attempts c source proportional target state reason now l m written,
              ))
              x
      ]
    ]

pub set_target-IsExclusive :
    (source : SourceAction) (state : ActionStatus) (reason : String) (now : ℕ) (l l' : Ledger)
    → set_action_target_state source state reason now l ≡ ok l'
    → IsExclusive l
    → IsExclusive l'
unfolding set_action_target_state
set_target-IsExclusive source state reason now l l' h x = same-IsExclusive l l' (ground arith) x

pub identify-IsExclusive :
    (key : String) (order : Option String) (response : String) (now : ℕ) (l l' : Ledger)
    → set_attempt_order_id key order response now l ≡ ok l'
    → IsExclusive l
    → IsExclusive l'
unfolding set_attempt_order_id
identify-IsExclusive key order response now l l' h x = elim (Option-cases order) [
  | inl blank ↦ absurd (ground arith)
  | inr (o, given) ↦ elim (Option-cases (find_attempt key l.attempts)) [
    | inl absent ↦ absurd (ground arith)
    | inr (a, there) ↦
        change-IsExclusive key (identified o response now) l l' (λ b. refl) (ground arith)
          (ground arith) x
  ]
]

-- A state that is written opens no attempt that is closed.
abbrev pub reopens_at : String → AttemptState → Ledger → Bool
reopens_at key state l = is_unresolved state && not (is_open_at key l.attempts)

pub update-IsExclusive :
    (key : String) (state : AttemptState) (response : String) (now : ℕ) (l l' : Ledger)
    → reopens_at key state l ≡ false
    → update_attempt_state key state response now l ≡ ok l'
    → IsExclusive l
    → IsExclusive l'
unfolding update_attempt_state
update-IsExclusive key state response now l l' kept h x = elim (Bool-cases (is_unresolved state)) [
  | inl open_state ↦
      change-IsExclusive key (answered state response now) l l' (λ b. refl) (ground arith)
        (ground arith) x
  | inr closed ↦ close-IsExclusive key state response now l l' closed (ground arith) x
]

write_unknown-attempts :
    (source : SourceAction) (key reason : String) (now : ℕ) (details : String) (l : Ledger)
    → (write_unknown source key reason now details l).attempts
      ≡ update_attempt key (doubted now) l.attempts
unfolding write_unknown append_transition
write_unknown-attempts source key reason now details l = refl

pub absent-IsExclusive :
    (source : SourceAction) (key : String) (now : ℕ) (details : String) (b : Bool) (l l' : Ledger)
    → is_open_at key l.attempts ≡ true
    → mark_official_order_absent_as_unknown source key now details l ≡ ok (b, l')
    → IsExclusive l
    → IsExclusive l'
unfolding mark_official_order_absent_as_unknown
absent-IsExclusive source key now details b l l' opened h x =
    elim (Bool-cases (
      is_unknown_for "OFFICIAL_ORDER_NOT_FOUND"
        (latest_transition source.action_id l.transitions))) [
          | inl again ↦ same-IsExclusive l l' (ground arith) x
          | inr first ↦
              change-IsExclusive key (doubted now) l l' (λ a. refl) opened
                (ground (
                  arith,
                  write_unknown-attempts source key "OFFICIAL_ORDER_NOT_FOUND" now details l,
                ))
                x
        ]

pub log_transition-attempts :
    (source : SourceAction) (status : ActionStatus) (reason : String) (created : Option ℕ)
    (clock : ℕ) (details : String) (l : Ledger)
    → (log_transition source status reason created clock details l).attempts ≡ l.attempts
unfolding log_transition append_transition
log_transition-attempts source status reason created clock details l =
    elim (Bool-cases
      (is_repeated status reason details (latest_transition source.action_id l.transitions))) [
        | inl repeated ↦ rw repeated refl
        | inr fresh ↦ rw fresh refl
      ]
