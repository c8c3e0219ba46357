-- ===== src/Store/Closing.antt =====
-- How `apply_fill_and_finalize` succeeds: the target, the fill and the attempt, one after the
-- other.
use polymarket_live_copy.Prelude.{◌≡◌, inl, inr, ok, arith, Option-cases, Result-cases}
use polymarket_live_copy.Prelude.Table.{lookup}
use polymarket_live_copy.Decimal.{Context, add}
use polymarket_live_copy.Store.{SourceAction, ActionStatus, Ledger, append_transition}
use polymarket_live_copy.Store.Fills.{Fill, apply_fill}
use polymarket_live_copy.Store.Finalize.{
  Closing, finalize_target, finalize_attempt, close_target, apply_fill_and_finalize,
}

pub record IsClosed (c : Context) (source : SourceAction) (f : Fill) (k : Closing) (l l' : Ledger)
    : Type 0 where
  pub status : ActionStatus
  pub aimed : Ledger
  pub filled : Ledger
  pub target_step : finalize_target c source f k l ≡ ok (status, aimed)
  pub fill_step : apply_fill c source f aimed ≡ ok filled
  pub attempt_step :
      finalize_attempt c k status
        (append_transition source.action_id status k.reason k.created_at_ms k.details filled)
      ≡ ok l'

pub apply_fill_and_finalize-IsClosed :
    (c : Context) (source : SourceAction) (f : Fill) (k : Closing) {l l' : Ledger}
    → apply_fill_and_finalize c source f k l ≡ ok l'
    → IsClosed c source f k l l'
unfolding apply_fill_and_finalize
apply_fill_and_finalize-IsClosed c source f k {l} {l'} h =
    elim (Result-cases (finalize_target c source f k l)) [
      | inl (e, refused) ↦ absurd (ground arith)
      | inr (closed, ec) ↦ elim (Result-cases (apply_fill c source f closed.1)) [
        | inl (e, refused) ↦ absurd (ground arith)
        | inr (filled, ef) ↦ record {
          status = closed.0;
          aimed = closed.1;
          filled = filled;
          target_step = ec;
          fill_step = ef;
          attempt_step = ground arith;
        }
      ]
    ]

-- The first part changes the target alone.
pub record SameBooks (l l' : Ledger) : Type 0 where
  pub account : l'.account ≡ l.account
  pub positions : l'.positions ≡ l.positions
  pub reservations : l'.reservations ≡ l.reservations

pub finalize_target-SameBooks :
    (c : Context) (source : SourceAction) (f : Fill) (k : Closing) (l : Ledger) {s : ActionStatus}
    {l' : Ledger}
    → finalize_target c source f k l ≡ ok (s, l')
    → SameBooks l l'
unfolding finalize_target
finalize_target-SameBooks c source f k l h =
    elim (Option-cases (lookup source.action_id l.targets)) [
      | inl no_target ↦ ground arith
      | inr (t, there) ↦
          elim (Result-cases (
            close_target c source f k (lookup source.action_id l.reservations) t.target_quantity
              (add c t.cumulative_filled_quantity f.quantity))) [
                | inl (e, refused) ↦ absurd (ground arith)
                | inr (s, es) ↦ ground arith
              ]
    ]

pub finalize_attempt-SameBooks :
    (c : Context) (k : Closing) (s : ActionStatus) (l : Ledger) {l' : Ledger}
    → finalize_attempt c k s l ≡ ok l'
    → SameBooks l l' × (l'.targets ≡ l.targets)
unfolding finalize_attempt
finalize_attempt-SameBooks c k s l {l'} h = elim (Option-cases k.attempt_id) [
  | inl none_named ↦ ground arith
  | inr (key, named) ↦ ground arith
]

-- The fill alone changes the account, the positions and the reservations.
pub record IsPosted (c : Context) (source : SourceAction) (f : Fill) (l l' : Ledger) : Type 0 where
  pub before : Ledger
  pub after : Ledger
  pub opened : SameBooks l before
  pub posted : apply_fill c source f before ≡ ok after
  pub closed : SameBooks after l'

pub apply_fill_and_finalize-IsPosted :
    (c : Context) (source : SourceAction) (f : Fill) (k : Closing) {l l' : Ledger}
    → apply_fill_and_finalize c source f k l ≡ ok l'
    → IsPosted c source f l l'
unfolding append_transition
apply_fill_and_finalize-IsPosted c source f k {l} {l'} h =
    let w = apply_fill_and_finalize-IsClosed c source f k h in
    let (same, _) =
      finalize_attempt-SameBooks c k w.status
        (append_transition source.action_id w.status k.reason k.created_at_ms k.details w.filled)
        w.attempt_step in
    record {
      before = w.aimed;
      after = w.filled;
      opened = finalize_target-SameBooks c source f k l w.target_step;
      posted = w.fill_step;
      closed = record {
        account = same.account;
        positions = same.positions;
        reservations = same.reservations;
      };
    }
