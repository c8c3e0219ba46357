-- ===== src/Shared/Lifecycle.antt =====
-- The life of a shared redemption, over every interleaving of the processes' transactions.
use Prim.Native.String.{String}
use polymarket_live_copy.Prelude.{
  ℕ, ◌≡◌, ◌≢◌, refl, ap, Bool, true, false, none, some, ok, arith, ◌∙◌, inl, inr, Option-cases,
}
use polymarket_live_copy.Prelude.Table.{lookup, lookup-update_self}
use polymarket_live_copy.Shared.{
  RedemptionState, ready, not_submitted_retryable, submit_started, allowed, is_settled, error,
}
use polymarket_live_copy.Shared.Redemption.{
  Receipt, Wallet, shared_redemption_receipt, start_shared_redemption_submission, may_start, move,
  append_transition,
}
use polymarket_live_copy.Shared.Moves.{Follows}
use polymarket_live_copy.Shared.Steps.{Reach, here, next, Step-Follows}

-- A redemption call for the condition is out, or was never needed.
unfoldable pub is_past_submission : RedemptionState → Bool
is_past_submission ready = false
is_past_submission not_submitted_retryable = false
is_past_submission submit_started = false
is_past_submission _ = true

unfoldable pub is_final : RedemptionState → Bool
unfolding is_settled
is_final error = true
is_final s = is_settled s

allowed-past :
    (s t : RedemptionState)
    → allowed s t ≡ true
    → is_past_submission s ≡ true
    → is_past_submission t ≡ true
unfolding allowed is_past_submission
allowed-past s t h k = ground arith

allowed-final : (s t : RedemptionState) → is_final s ≡ true → allowed s t ≡ false
unfolding allowed is_final
allowed-final s t h = ground arith

-- A submission has been started.
unfoldable pub is_begun : RedemptionState → Bool
is_begun ready = false
is_begun _ = true

allowed-begun : (s t : RedemptionState) → allowed s t ≡ true → is_begun s ≡ true → is_begun t ≡ true
unfolding allowed is_begun
allowed-begun s t h k = ground arith

-- What a later wallet still says of a receipt.
pub record Kept (r r' : Receipt) : Type 0 where
  pub transaction_id : r.transaction_id ≢ none → r'.transaction_id ≡ r.transaction_id
  pub transaction_hash : r.transaction_hash ≢ none → r'.transaction_hash ≡ r.transaction_hash
  pub payout : r'.expected_payout_usd ≡ r.expected_payout_usd
  pub winner : r'.winner_token_id ≡ r.winner_token_id
  pub past : is_past_submission r.state ≡ true → is_past_submission r'.state ≡ true
  pub begun : is_begun r.state ≡ true → is_begun r'.state ≡ true
  pub final : is_final r.state ≡ true → r'.state ≡ r.state

Kept-refl : (r : Receipt) → Kept r r
Kept-refl r = record {
  transaction_id = λ h. refl;
  transaction_hash = λ h. refl;
  payout = refl;
  winner = refl;
  past = λ h. h;
  begun = λ h. h;
  final = λ h. refl;
}

Kept-Follows : (r s t : Receipt) → Kept r s → Follows s t → Kept r t
Kept-Follows r s t k f = record {
  transaction_id = λ h. ground (arith, k.transaction_id h, f.transaction_id);
  transaction_hash = λ h. ground (arith, k.transaction_hash h, f.transaction_hash);
  payout = f.payout ∙ k.payout;
  winner = f.winner ∙ k.winner;
  past = λ h. ground (arith, k.past h, f.state, allowed-past s.state t.state);
  begun = λ h. ground (arith, k.begun h, f.state, allowed-begun s.state t.state);
  final = λ h. ground (arith, k.final h, f.state, allowed-final s.state t.state);
}

-- A start that succeeds, in front: the receipt may start, and names no transaction.
start-before :
    (k : String) (now : ℕ) (w v : Wallet)
    → start_shared_redemption_submission k now w ≡ ok (true, v)
    → (r : Receipt) × (shared_redemption_receipt k w ≡ some r)
      × (may_start r.state ≡ true)
      × (r.transaction_id ≡ none)
      × (r.transaction_hash ≡ none)
unfolding start_shared_redemption_submission
start-before k now w v h = elim (Option-cases (shared_redemption_receipt k w)) [
  | inl missing ↦ absurd (ground arith)
  | inr (r, there) ↦ (r, there, ground arith, ground arith, ground arith)
]

-- And behind: the receipt is in SUBMIT_STARTED.
start-after :
    (k : String) (now : ℕ) (w v : Wallet)
    → start_shared_redemption_submission k now w ≡ ok (true, v)
    → (r : Receipt) × (shared_redemption_receipt k v ≡ some r) × (r.state ≡ submit_started)
unfolding start_shared_redemption_submission move shared_redemption_receipt append_transition
start-after k now w v h = elim (Option-cases (lookup k w.redemptions)) [
  | inl missing ↦ absurd (ground arith)
  | inr (r, there) ↦ (
    record r { state = submit_started; updated_at_ms = now },
    ground (
      arith,
      lookup-update_self k (λ r. record r { state = submit_started; updated_at_ms = now })
          w.redemptions,
    ),
    refl,
  )
]

begun-may_start :
    (s : RedemptionState)
    → is_begun s ≡ true
    → may_start s ≡ true
    → (s ≡ not_submitted_retryable) × (is_past_submission s ≡ false)
unfolding is_begun is_past_submission
begun-may_start s b m = ground arith

module _ (k : String) (r : Receipt) {w : Wallet}
    (found : shared_redemption_receipt k w ≡ some r) where
  receipt-Kept :
      {w' : Wallet}
      → Reach w w'
      → (r' : Receipt) × (shared_redemption_receipt k w' ≡ some r') × Kept r r'
  receipt-Kept here = (r, found, Kept-refl r)
  receipt-Kept (next reach step) =
      let (s, there, kept) = receipt-Kept reach in
      let (t, later, follows) = Step-Follows k s step there in
      (t, later, Kept-Follows r s t kept follows)

  -- A receipt that names a transaction names it in every wallet that the processes reach from
  -- there, where they mark no settled state, with the same winner and the same payout.
  pub transaction_kept :
      (t : String)
      → r.transaction_id ≡ some t
      → {w' : Wallet} → Reach w w'
      → (r' : Receipt) × (shared_redemption_receipt k w' ≡ some r')
        × (r'.transaction_id ≡ some t)
        × (r'.winner_token_id ≡ r.winner_token_id)
        × (r'.expected_payout_usd ≡ r.expected_payout_usd)
  transaction_kept t e reach =
      let (r', there, kept) = receipt-Kept reach in
      (r', there, kept.transaction_id (λ z. cc) ∙ e, kept.winner, kept.payout)

  -- A receipt in a settled state, or in the state ERROR, has that state in every wallet that the
  -- processes reach from there, where they mark no settled state.
  pub final_state_stays :
      is_final r.state ≡ true
      → {w' : Wallet} → Reach w w'
      → (r' : Receipt) × (shared_redemption_receipt k w' ≡ some r') × (r'.state ≡ r.state)
  final_state_stays final reach =
      let (r', there, kept) = receipt-Kept reach in (r', there, kept.final final)

-- Between two starts that succeed for one condition, over every interleaving of the processes in
-- which they mark no settled state: no receipt on the way is past its submission, that is sent,
-- unknown, distributed, settled or in ERROR, and the second start finds the receipt in
-- NOT_SUBMITTED_RETRYABLE, and without a transaction. In particular a second process does not
-- start what has been started.
pub never_resubmitted :
    (k : String) (now later : ℕ) (w v x u u' : Wallet)
    → start_shared_redemption_submission k now w ≡ ok (true, v)
    → Reach v x
    → Reach x u
    → start_shared_redemption_submission k later u ≡ ok (true, u')
    → ((r : Receipt) × (shared_redemption_receipt k x ≡ some r)
        × (is_past_submission r.state ≡ false))
      × ((r : Receipt) × (shared_redemption_receipt k u ≡ some r)
          × (r.state ≡ not_submitted_retryable)
          × (r.transaction_id ≡ none)
          × (r.transaction_hash ≡ none))
unfolding is_begun
never_resubmitted k now later w v x u u' first before after second =
    let (a, there, started) = start-after k now w v first in
    let (b, on_the_way, kept) = receipt-Kept k a {w = v} there {w' = x} before in
    let (d, finally, kept') = receipt-Kept k b {w = x} on_the_way {w' = u} after in
    let (e, found, may, no_id, no_hash) = start-before k later u u' second in
    let same : e ≡ d = ground (arith, found, finally) in
    let begun = kept'.begun (kept.begun (rw started refl)) in
    let (state, not_past) = begun-may_start d.state begun (rw same at may) in
    (
      (b, on_the_way, ground (arith, not_past, kept'.past)),
      (e, found, ap (λ r. r.state) same ∙ state, no_id, no_hash),
    )
