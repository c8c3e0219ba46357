-- ===== src/Shared/Moves.antt =====
-- What the operations on a receipt do to it: each one that succeeds leaves the wallet as it is, or
-- makes one move along the table of transitions.
use Prim.Native.String.{String}
use text.Mathlib.Text.{◌==◌}
use text.Mathlib.TextEquality.{eq_iff}
use polymarket_live_copy.Prelude.{
  ℕ, ◌≡◌, ◌≢◌, refl, ◌⊎◌, inl, inr, Bool, true, false, Option, none, some, ok, arith, Bool-cases,
  Option-cases, Result-cases, if◌then◌else◌, ◌==◌ as nat_eq, subst,
}
use polymarket_live_copy.Prelude.Table.{lookup-update, on_some}
use polymarket_live_copy.Shared.{RedemptionState, submit_started, allowed}
use polymarket_live_copy.Shared.Redemption.{
  Receipt, Wallet, move, unchanged, shared_redemption_receipt, may_start, differs, or_else,
  start_shared_redemption_submission, mark_shared_redemption_state, validate_transition,
  complete_shared_redemption_distribution, pending_count,
}

-- How a receipt may change in one step: not at all, or along the table of transitions, keeping the
-- transaction that it names.
pub record Follows (r r' : Receipt) : Type 0 where
  pub state : (r'.state ≡ r.state) ⊎ (allowed r.state r'.state ≡ true)
  pub transaction_id : r.transaction_id ≢ none → r'.transaction_id ≡ r.transaction_id
  pub transaction_hash : r.transaction_hash ≢ none → r'.transaction_hash ≡ r.transaction_hash
  pub payout : r'.expected_payout_usd ≡ r.expected_payout_usd
  pub winner : r'.winner_token_id ≡ r.winner_token_id

pub Follows-refl : (r : Receipt) → Follows r r
Follows-refl r = ground arith

abbrev pub FollowsIn : Wallet → String → Receipt → Type 0
FollowsIn w k r = (r' : Receipt) × (shared_redemption_receipt k w ≡ some r') × Follows r r'

abbrev pub moved : (Receipt → Receipt) → RedemptionState → ℕ → Receipt → Receipt
moved change target now r = record (change r) { state = target; updated_at_ms = now }

-- A move of the receipt of `condition` from w to w'.
pub record IsMove (condition : String) (w w' : Wallet) : Type 0 where
  pub row : Receipt
  pub change : Receipt → Receipt
  pub target : RedemptionState
  pub reason : String
  pub now : ℕ
  pub details : String
  pub found : shared_redemption_receipt condition w ≡ some row
  pub permitted : allowed row.state target ≡ true
  pub follows : Follows row (moved change target now row)
  pub result : w' ≡ move condition change target reason now details w

validate_transition-eq-ok :
    (s : RedemptionState) (named : Option RedemptionState) {t : RedemptionState}
    → validate_transition s named ≡ ok t
    → (named ≡ some t) × (allowed s t ≡ true)
unfolding validate_transition
validate_transition-eq-ok s none h = cc
validate_transition-eq-ok s (some u) h = ground arith

may_start-allowed : (s : RedemptionState) → may_start s ≡ true → allowed s submit_started ≡ true
unfolding allowed
may_start-allowed s h = ground arith

pub start-IsMove :
    (condition : String) (now : ℕ) (b : Bool) {w w' : Wallet}
    → start_shared_redemption_submission condition now w ≡ ok (b, w')
    → ((b ≡ false) × (w' ≡ w))
      ⊎ ((b ≡ true) × ((m : IsMove condition w w') × (m.target ≡ submit_started)))
unfolding start_shared_redemption_submission
start-IsMove condition now b {w} {w'} h =
    elim (Option-cases (shared_redemption_receipt condition w)) [
      | inl missing ↦ absurd (ground arith)
      | inr (row, found) ↦ elim (Bool-cases (may_start row.state)) [
        | inl may ↦ inr (
          ground arith,
          (
            record {
              row = row;
              change = unchanged;
              target = submit_started;
              reason = "";
              now = now;
              details = "{}";
              found = found;
              permitted = may_start-allowed row.state may;
              follows = ground (arith, may_start-allowed row.state may);
              result = ground arith;
            },
            refl,
          ),
        )
        | inr not_now ↦ inl (ground arith)
      ]
    ]

or_else_keeps :
    (old new : Option String) → differs old new ≡ false → old ≢ none → or_else new old ≡ old
or_else_keeps none new h k = absurd (k refl)
or_else_keeps (some a) none h k = refl
or_else_keeps (some a) (some b) h k = ground (arith, eq_iff a b)

pub mark-IsMove :
    (condition : String) (named : Option RedemptionState) (reason : String) (now : ℕ)
    (details : String) (transaction_id transaction_hash : Option String) {w w' : Wallet}
    → mark_shared_redemption_state condition named reason now details transaction_id
        transaction_hash w
      ≡ ok w'
    → (m : IsMove condition w w') × (named ≡ some m.target)
unfolding mark_shared_redemption_state
mark-IsMove condition named reason now details transaction_id transaction_hash {w} {w'} h =
    elim (Option-cases (shared_redemption_receipt condition w)) [
      | inl missing ↦ absurd (ground arith)
      | inr (row, found) ↦ elim (Result-cases (validate_transition row.state named)) [
        | inl (e, refused) ↦ absurd (ground arith)
        | inr (target, valid) ↦
            let facts = validate_transition-eq-ok row.state named valid in
            (
              record {
                row = row;
                change = λ r. record r {
                  transaction_id = or_else transaction_id row.transaction_id;
                  transaction_hash = or_else transaction_hash row.transaction_hash;
                };
                target = target;
                reason = reason;
                now = now;
                details = details;
                found = found;
                permitted = facts.1;
                follows = ground (
                  arith,
                  facts.1,
                  or_else_keeps row.transaction_id transaction_id,
                  or_else_keeps row.transaction_hash transaction_hash,
                );
                result = ground arith;
              },
              facts.0,
            )
      ]
    ]

pub complete-IsMove :
    (condition : String) (named : Option RedemptionState) (now : ℕ) (details : String) (b : Bool)
    {w w' : Wallet}
    → complete_shared_redemption_distribution condition named now details w ≡ ok (b, w')
    → ((b ≡ false) × (w' ≡ w))
      ⊎ ((b ≡ true) × (pending_count condition w.allocations ≡ 0) × IsMove condition w w')
unfolding complete_shared_redemption_distribution
complete-IsMove condition named now details b {w} {w'} h =
    elim (Option-cases (shared_redemption_receipt condition w)) [
      | inl missing ↦ absurd (ground arith)
      | inr (row, found) ↦ elim (Result-cases (validate_transition row.state named)) [
        | inl (e, refused) ↦ absurd (ground arith)
        | inr (target, valid) ↦
            elim (Bool-cases (nat_eq (pending_count condition w.allocations) 0)) [
              | inl all_applied ↦
                  let facts = validate_transition-eq-ok row.state named valid in
                  inr (
                    ground arith,
                    ground arith,
                    record {
                      row = row;
                      change = unchanged;
                      target = target;
                      reason = "";
                      now = now;
                      details = details;
                      found = found;
                      permitted = facts.1;
                      follows = ground (arith, facts.1);
                      result = ground arith;
                    },
                  )
              | inr waiting ↦ inl (ground arith)
            ]
      ]
    ]

-- A move is seen at its own condition, and at no other.
pub receipt-move :
    (k condition : String) (change : Receipt → Receipt) (target : RedemptionState) (reason : String)
    (now : ℕ) (details : String) (w : Wallet)
    → shared_redemption_receipt k (move condition change target reason now details w) ≡ (
        if condition == k
        then on_some (moved change target now) (shared_redemption_receipt k w)
        else shared_redemption_receipt k w)
unfolding shared_redemption_receipt move
receipt-move k condition change target reason now details w =
    lookup-update condition k (moved change target now) w.redemptions

pub IsMove-Follows :
    (k condition : String) (r : Receipt) {w w' : Wallet}
    → IsMove condition w w'
    → shared_redemption_receipt k w ≡ some r
    → (r' : Receipt) × (shared_redemption_receipt k w' ≡ some r') × Follows r r'
IsMove-Follows k condition r {w} {w'} m found =
    let seen = receipt-move k condition m.change m.target m.reason m.now m.details w in
    elim (Bool-cases (condition == k)) [
      | inl same ↦
          let e = (eq_iff condition k).0 same in
          let row_is : m.row ≡ r = cc (m.found, found, e) in
          (
            moved m.change m.target m.now r,
            ground (arith, m.result),
            subst (λ x. Follows x (moved m.change m.target m.now x)) row_is m.follows,
          )
      | inr other ↦ (r, ground (arith, m.result), Follows-refl r)
    ]
