-- ===== src/Store/Frame.antt =====
-- What the operations on a ledger do to other tokens, to other reservations and to the money.
use Prim.Native.String.{String}
use text.Mathlib.TextEquality.{eq_iff}
use polymarket_live_copy.Prelude.{◌≡◌, ◌≢◌, ap, ◌∙◌, inl, inr, ok, arith, Result-cases}
use polymarket_live_copy.Prelude.Table.{Table, lookup, update, lookup-update, on_some}
use polymarket_live_copy.Decimal.{Context}
use polymarket_live_copy.Store.{SourceAction, Reservation, Ledger, append_transition, release}
use polymarket_live_copy.Store.Fills.{Fill, apply_fill, write_books}
use polymarket_live_copy.Store.Finalize.{Closing, apply_fill_and_finalize}
use polymarket_live_copy.Store.Release.{
  ReleaseRequest, release_reservation_and_finalize, close_attempt, write_release,
}
use polymarket_live_copy.Store.Closing.{apply_fill_and_finalize-IsPosted}
use polymarket_live_copy.Store.Positions.{apply_fill-IsFilled, posted_position}

update-release :
    (action other : String) (rows : Table Reservation)
    → other ≢ action
    → (lookup action (update action release rows) ≡ on_some release (lookup action rows))
      × (lookup other (update action release rows) ≡ lookup other rows)
update-release action other rows h = (
  ground (arith, lookup-update action action release rows, eq_iff action action),
  ground (arith, lookup-update action other release rows, eq_iff action other),
)

apply_fill-reservations :
    (c : Context) (source : SourceAction) (f : Fill) (l l' : Ledger)
    → apply_fill c source f l ≡ ok l'
    → l'.reservations ≡ update source.action_id release l.reservations
unfolding write_books
apply_fill-reservations c source f l l' h =
    ap (λ w. w.reservations) (apply_fill-IsFilled c source f h).result

-- A fill that is applied releases the reservation of its action and leaves those of the other
-- actions, and the positions in the other tokens, as they are.
pub fill_frame :
    (c : Context) (source : SourceAction) (f : Fill) (k : Closing) (l l' : Ledger)
    (other token : String)
    → other ≢ source.action_id
    → token ≢ source.token_id
    → apply_fill_and_finalize c source f k l ≡ ok l'
    → (lookup source.action_id l'.reservations
        ≡ on_some release (lookup source.action_id l.reservations))
      × (lookup other l'.reservations ≡ lookup other l.reservations)
      × (lookup token l'.positions ≡ lookup token l.positions)
fill_frame c source f k l l' other token ho ht h =
    let w = apply_fill_and_finalize-IsPosted c source f k h in
    let rows =
      w.closed.reservations
      ∙ apply_fill-reservations c source f w.before w.after w.posted
      ∙ ap (update source.action_id release) w.opened.reservations in
    let (own, others) = update-release source.action_id other l.reservations ho in
    (
      ap (lookup source.action_id) rows ∙ own,
      ap (lookup other) rows ∙ others,
      ap (lookup token) w.closed.positions
          ∙ posted_position c source f (apply_fill-IsFilled c source f w.posted) token
          ∙ ground (arith, eq_iff source.token_id token, w.opened.positions),
    )

-- A release changes neither the account nor a position; it releases the reservation of its action
-- and leaves those of the other actions as they are.
pub release_frame :
    (source : SourceAction) (q : ReleaseRequest) (l l' : Ledger) (other : String)
    → other ≢ source.action_id
    → release_reservation_and_finalize source q l ≡ ok l'
    → (l'.account ≡ l.account)
      × (l'.positions ≡ l.positions)
      × (lookup source.action_id l'.reservations
          ≡ on_some release (lookup source.action_id l.reservations))
      × (lookup other l'.reservations ≡ lookup other l.reservations)
unfolding release_reservation_and_finalize write_release close_attempt append_transition
release_frame source q l l' other ho h =
    let (own, others) = update-release source.action_id other l.reservations ho in
    elim (Result-cases (close_attempt q l)) [
      | inl (e, refused) ↦ absurd (ground arith)
      | inr (closed, done) ↦
          let rows : l'.reservations ≡ update source.action_id release l.reservations =
            ground arith in
          (
            ground arith,
            ground arith,
            ap (lookup source.action_id) rows ∙ own,
            ap (lookup other) rows ∙ others,
          )
    ]
