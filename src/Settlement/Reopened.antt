-- ===== src/Settlement/Reopened.antt =====
-- What comes between two settlements of one condition in app/cd90_live_copy.py, where the marks of
-- `_set_redemption_state` are unrestricted, as in its code.
use Prim.Native.String.{String}
use text.Mathlib.Text.{◌==◌}
use text.Mathlib.TextEquality.{eq_iff}
use polymarket_live_copy.Prelude.{ℕ, ◌≡◌, ◌⊎◌, inl, inr, subst, sym, Option, ok, arith, Bool-cases}
use polymarket_live_copy.Decimal.{Context, Decimal}
use polymarket_live_copy.Settlement.{LocalState, Register, Holding}
use polymarket_live_copy.Settlement.Booked.{Settles}
use polymarket_live_copy.Settlement.Receipts.{set_redemption_state}
use polymarket_live_copy.Settlement.Once.{Settles-Settled}
use polymarket_live_copy.Settlement.Kept.{IsSettledAt, mark-other}
use polymarket_live_copy.Settlement.History.{Step, Step-IsSettledAt}

-- The marks of a condition, whatever their state, reason, time and identity.
pub record Marks (condition : String) (w w' : Register) : Type 0 where
  pub state : LocalState
  pub reason : String
  pub now : ℕ
  pub details : String
  pub transaction_id : Option String
  pub transaction_hash : Option String
  pub done :
      set_redemption_state condition state reason now details transaction_id transaction_hash w
      ≡ ok w'

-- An operation of History, or a mark of any receipt, a settled one too.
pub data AnyStep (c : Context) (w w' : Register) : Type 0 where
  usual : Step c w w' → AnyStep c w w'
  remark : (condition : String) → Marks condition w w' → AnyStep c w w'

pub data Run (c : Context) (w : Register) : Register → Type 0 where
  begin : Run c w w
  after : {v u : Register} → Run c w v → AnyStep c v u → Run c w u

-- A mark met the settled receipt of the condition on the way.
pub record Reopened (c : Context) (condition : String) (w w' : Register) : Type 0 where
  pub before : Register
  pub marked : Register
  pub reached : Run c w before
  pub settled : IsSettledAt condition before
  pub mark : Marks condition before marked
  pub onwards : Run c marked w'

remark-cases :
    (c : Context) (k condition : String) (w v u : Register)
    → Run c w v
    → Marks condition v u
    → IsSettledAt k v
    → IsSettledAt k u ⊎ Reopened c k w u
remark-cases c k condition w v u run m h = elim (Bool-cases (k == condition)) [
  | inl same ↦ inr (record {
    before = v;
    marked = u;
    reached = run;
    settled = h;
    mark = subst (λ x. Marks x v u) (sym ((eq_iff k condition).0 same)) m;
    onwards = begin;
  })
  | inr other ↦ inl (
      mark-other k condition m.state m.reason m.now m.details m.transaction_id m.transaction_hash v
        u other m.done h)
]

step-cases :
    (c : Context) (k : String) (w v u : Register)
    → Run c w v
    → AnyStep c v u
    → IsSettledAt k v
    → IsSettledAt k u ⊎ Reopened c k w u
step-cases c k w v u run (usual step) h = inl (Step-IsSettledAt c k v u step h)
step-cases c k w v u run (remark condition m) h = remark-cases c k condition w v u run m h

Reopened-after :
    (c : Context) (k : String) (w v u : Register)
    → Reopened c k w v
    → AnyStep c v u
    → Reopened c k w u
Reopened-after c k w v u r step = record {
  before = r.before;
  marked = r.marked;
  reached = r.reached;
  settled = r.settled;
  mark = r.mark;
  onwards = after r.onwards step;
}

Run-IsSettledAt :
    (c : Context) (k : String) (w w' : Register)
    → Run c w w'
    → IsSettledAt k w
    → IsSettledAt k w' ⊎ Reopened c k w w'
Run-IsSettledAt c k w w' begin h = inl h
Run-IsSettledAt c k w w' (after {v} {u} run step) h = elim (Run-IsSettledAt c k w v run h) [
  | inr r ↦ inr (Reopened-after c k w v w' r step)
  | inl kept ↦ step-cases c k w v w' run step kept
]

-- Two settlements of one condition, each one of settle_redeemed_condition,
-- settle_externally_verified_redemption, settle_verified_losing_condition_from_terminal and
-- settle_losing_condition, with any inventories and payouts, and with any run of the modelled
-- operations between them, where the marks of receipts are unrestricted: on the way a mark of
-- `_set_redemption_state` met the settled receipt of that condition. Without such a mark the
-- condition is not settled again.
pub settled_once :
    (c : Context) (condition : String) (h again : Holding) (payout later : Decimal)
    (w settled v v' : Register)
    → Settles c condition h payout w settled
    → Run c settled v
    → Settles c condition again later v v'
    → Reopened c condition settled v
settled_once c condition h again payout later w settled v v' s run t =
    let first = Settles-Settled c condition h payout w settled s in
    let second = Settles-Settled c condition again later v v' t in
    elim (Run-IsSettledAt c condition settled v run first.own) [
      | inl kept ↦ absurd (ground (arith, second.fresh))
      | inr r ↦ r
    ]
