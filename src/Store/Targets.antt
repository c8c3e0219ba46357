-- ===== src/Store/Targets.antt =====
-- What a fill does to the target of a SELL action.
use polymarket_live_copy.Prelude.{
  ◌≡◌, refl, ap, ◌∙◌, inl, inr, ◌||◌, Option, some, ok, arith, Bool-cases, Result-cases, subst,
}
use polymarket_live_copy.Prelude.Int.{◌≤ℤ◌, ◌<ℤ◌, ltb_ℤ}
use polymarket_live_copy.Prelude.Table.{lookup, update, lookup-update_self, on_some}
use polymarket_live_copy.Decimal.{Context, Decimal, add}
use polymarket_live_copy.Sizing.{sell}
use polymarket_live_copy.Store.{
  SourceAction, Reservation, Target, ActionStatus, Ledger, append_transition,
}
use polymarket_live_copy.Store.Fills.{Fill, apply_fill, write_books}
use polymarket_live_copy.Store.Finalize.{
  Closing, apply_fill_and_finalize, finalize_target, close_target, close_buy_cash, fill_target,
  is_external,
}
use polymarket_live_copy.Store.Closing.{
  IsClosed, apply_fill_and_finalize-IsClosed, finalize_attempt-SameBooks,
}
use polymarket_live_copy.Store.Positions.{apply_fill-IsFilled}

-- The statuses that a SELL fill may give to a target, with what they say of its quantities.
pub data IsSaleStatus (cumulative target : Decimal) : ActionStatus → Type 0 where
  complete : cumulative ≡ target → IsSaleStatus cumulative target ActionStatus.filled
  incomplete : cumulative <ℤ target → IsSaleStatus cumulative target ActionStatus.partial_pending
  abandoned : cumulative <ℤ target → IsSaleStatus cumulative target ActionStatus.external_unfillable

close_target-sale :
    (c : Context) (source : SourceAction) (f : Fill) (k : Closing) (r : Option Reservation)
    (target cumulative : Decimal) (s : ActionStatus)
    → source.side ≡ sell
    → close_target c source f k r target cumulative ≡ ok s
    → IsSaleStatus cumulative target s × (cumulative ≤ℤ target)
unfolding close_target close_buy_cash
close_target-sale c source f k r target cumulative s side h =
    elim (Bool-cases (ltb_ℤ target cumulative || k.buy_cash_order_complete)) [
      | inl over ↦ absurd (ground arith)
      | inr within ↦ elim (Bool-cases (is_external k.terminal_status)) [
        | inl out ↦
            let e : ActionStatus.external_unfillable ≡ s = ground arith in
            (subst (IsSaleStatus cumulative target) e (abandoned (ground arith)), ground arith)
        | inr not_out ↦ elim (Bool-cases (ltb_ℤ cumulative target)) [
          | inl less ↦
              let e : ActionStatus.partial_pending ≡ s = ground arith in
              (subst (IsSaleStatus cumulative target) e (incomplete (ground arith)), ground arith)
          | inr equal ↦
              let e : ActionStatus.filled ≡ s = ground arith in
              (subst (IsSaleStatus cumulative target) e (complete (ground arith)), ground arith)
        ]
      ]
    ]

finalize_target-sale :
    (c : Context) (source : SourceAction) (f : Fill) (k : Closing) (l l' : Ledger) (t : Target)
    (s : ActionStatus)
    → lookup source.action_id l.targets ≡ some t
    → source.side ≡ sell
    → finalize_target c source f k l ≡ ok (s, l')
    → (close_target c source f k
          (lookup source.action_id l.reservations)
          t.target_quantity
          (add c t.cumulative_filled_quantity f.quantity)
        ≡ ok s)
      × (l'.targets
          ≡ update source.action_id
              (fill_target c
                (add c t.cumulative_filled_quantity f.quantity)
                s
                k.reason
                k.created_at_ms)
              l.targets)
unfolding finalize_target
finalize_target-sale c source f k l l' t s there side h =
    elim (Result-cases (
      close_target c source f k (lookup source.action_id l.reservations) t.target_quantity
        (add c t.cumulative_filled_quantity f.quantity))) [
          | inl (e, refused) ↦ absurd (ground arith)
          | inr (u, eu) ↦ ground arith
        ]

apply_fill-targets :
    (c : Context) (source : SourceAction) (f : Fill) (l l' : Ledger)
    → apply_fill c source f l ≡ ok l'
    → l'.targets ≡ l.targets
unfolding write_books
apply_fill-targets c source f l l' h = ap (λ w. w.targets) (apply_fill-IsFilled c source f h).result

closing-targets :
    (c : Context) (source : SourceAction) (f : Fill) (k : Closing) {l l' : Ledger}
    (w : IsClosed c source f k l l')
    → l'.targets ≡ w.aimed.targets
unfolding append_transition
closing-targets c source f k w =
    (finalize_attempt-SameBooks c k w.status
      (append_transition source.action_id w.status k.reason k.created_at_ms k.details w.filled)
      w.attempt_step).1
    ∙ apply_fill-targets c source f w.aimed w.filled w.fill_step

-- A SELL fill that is applied adds its quantity to what its target has filled and stays within the
-- target; the target becomes FILLED if nothing is left, and PARTIAL_PENDING or EXTERNAL_UNFILLABLE
-- if something is.
pub sale_stays_within_target :
    (c : Context) (source : SourceAction) (f : Fill) (k : Closing) (l l' : Ledger) (t : Target)
    → lookup source.action_id l.targets ≡ some t
    → source.side ≡ sell
    → apply_fill_and_finalize c source f k l ≡ ok l'
    → (t' : Target) × (lookup source.action_id l'.targets ≡ some t')
      × (t'.target_quantity ≡ t.target_quantity)
      × (t'.cumulative_filled_quantity ≡ add c t.cumulative_filled_quantity f.quantity)
      × (t'.cumulative_filled_quantity ≤ℤ t.target_quantity)
      × IsSaleStatus t'.cumulative_filled_quantity t.target_quantity t'.state
sale_stays_within_target c source f k l l' t there side h =
    let w = apply_fill_and_finalize-IsClosed c source f k h in
    let total = add c t.cumulative_filled_quantity f.quantity in
    let (closed, rows) =
      finalize_target-sale c source f k l w.aimed t w.status there side w.target_step in
    let (status, bound) =
      close_target-sale c source f k (lookup source.action_id l.reservations) t.target_quantity
        total w.status side closed in
    (
      fill_target c total w.status k.reason k.created_at_ms t,
      ap (lookup source.action_id) (closing-targets c source f k w ∙ rows)
          ∙ lookup-update_self source.action_id
              (fill_target c total w.status k.reason k.created_at_ms) l.targets
          ∙ ap (on_some (fill_target c total w.status k.reason k.created_at_ms)) there,
      refl,
      refl,
      bound,
      status,
    )
