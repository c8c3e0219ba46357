-- ===== src/Distribution/Completion.antt =====
-- `_apply_shared_redemption_allocations` of app/cd90_live_copy.py over the whole list of
-- allocations.
use Prim.Native.String.{String}
use text.Mathlib.TextPositions.{eq_refl}
use polymarket_live_copy.Prelude.{
  ℕ, ◌≡◌, refl, ap, sym, subst, ◌∙◌, inl, inr, Bool, true, false, some, List, [], ◌∷◌, ok, arith,
  Bool-cases,
}
use polymarket_live_copy.Prelude.Table.{
  Table, lookup, upsert, lookup-upsert, lookup-update_self, on_some,
}
use polymarket_live_copy.Decimal.{Context}
use polymarket_live_copy.Shared.{RedemptionState, allowed, is_distribution}
use polymarket_live_copy.Shared.Redemption.{
  Receipt, Allocation, Wallet, shared_redemption_receipt, find_allocation, pending_count,
  complete_shared_redemption_distribution, validate_transition, move, unchanged,
  mark_shared_allocation_applied,
}
use polymarket_live_copy.Settlement.{Register}
use polymarket_live_copy.Settlement.Handoff.{SharedTerminal}
use polymarket_live_copy.Distribution.{
  World, finished, shared_condition_allocations, settle_ledger, mark_applied, apply_allocation,
  apply_allocations, complete_distribution, apply_shared_redemption_allocations,
}
use polymarket_live_copy.Distribution.Rows.{
  is_keyed, is_covered-skip, is_covered-start, is_covered-end, is_present,
}
use polymarket_live_copy.Distribution.Marking.{IsOpen, mark-IsOpen}
use polymarket_live_copy.Distribution.Delivery.{
  is_fresh, is_placed, AcceptsAll, IsDelivered, DeliversAll, upsert-AcceptsAll,
  settle_ledger-IsDelivered,
}

is_present-cons :
    (k : String) (b : Allocation) (rest rows : List Allocation)
    → is_present k rest rows ≡ true
    → is_present k rest (b ∷ rows) ≡ true
unfolding is_present find_allocation
is_present-cons k b [] rows h = refl
is_present-cons k b (a ∷ rest) rows h = ground (arith, is_present-cons k b rest rows)

is_present-start :
    (k : String) (rows : List Allocation)
    → is_present k (shared_condition_allocations k rows) rows ≡ true
unfolding is_present shared_condition_allocations find_allocation
is_present-start k [] = refl
is_present-start k (a ∷ rows) = ground (
  arith,
  is_present-start k rows,
  is_present-cons k a (shared_condition_allocations k rows) rows,
  eq_refl a.profile_key,
)

start-IsOpen :
    (k : String) (r : Receipt) (w : Wallet)
    → shared_redemption_receipt k w ≡ some r
    → is_keyed w.allocations ≡ true
    → IsOpen k r (shared_condition_allocations k w.allocations) w
start-IsOpen k r w found keyed = record {
  found = found;
  keyed = keyed;
  covered = is_covered-start k w.allocations;
  present = is_present-start k w.allocations;
}

skip-IsOpen :
    (k : String) (r : Receipt) (a : Allocation) (rest : List Allocation) (w : Wallet)
    → a.applied ≡ true
    → IsOpen k r (a ∷ rest) w
    → IsOpen k r rest w
unfolding is_present
skip-IsOpen k r a rest w applied x = record {
  found = x.found;
  keyed = x.keyed;
  covered = sym (is_covered-skip k a rest w.allocations applied) ∙ x.covered;
  present = ground (arith, x.present);
}

module _ (c : Context) (k : String) (t : SharedTerminal) (now : ℕ) (json : Allocation → String)
    (r : Receipt) where
  -- What a loop over these allocations has done.
  record IsOver (rest : List Allocation) (w w' : World) : Type 0 where
    pub run : apply_allocations c k t now json r rest w ≡ finished w'
    pub opened : IsOpen k r [] w'.wallet
    pub delivered : DeliversAll c k t now json r rest w'.ledgers
    pub frame :
        (path : String) → is_fresh path rest ≡ true → lookup path w'.ledgers ≡ lookup path w.ledgers

  apply_allocation-skip :
      (a : Allocation) (w : World)
      → a.applied ≡ true
      → apply_allocation c k t now json r a w ≡ finished w
  unfolding apply_allocation
  apply_allocation-skip a w applied = rw applied refl

  mark_applied-done :
      (a : Allocation) (w : World) (v : Wallet)
      → mark_shared_allocation_applied k a.profile_key now w.wallet ≡ ok v
      → mark_applied c k t now json a w ≡ finished (record w { wallet = v })
  unfolding mark_applied
  mark_applied-done a w v marked = ground arith

  apply_allocation-done :
      (a : Allocation) (w : World) (b : Bool) (s : Register) (v : Wallet)
      → a.applied ≡ false
      → settle_ledger c k t now json r a w.ledgers ≡ ok (b, s)
      → mark_shared_allocation_applied k a.profile_key now w.wallet ≡ ok v
      → apply_allocation c k t now json r a w
        ≡ finished (record { wallet = v; ledgers = upsert a.ledger_path s w.ledgers })
  unfolding apply_allocation
  apply_allocation-done a w b s v pending settled marked = rw settled (
      ground (
        arith,
        pending,
        mark_applied-done a
            (record { wallet = w.wallet; ledgers = upsert a.ledger_path s w.ledgers }) v marked,
      ))

  frame-IsDelivered :
      (a : Allocation) (rest : List Allocation) (ledgers ledgers' : Table Register)
      → is_fresh a.ledger_path rest ≡ true
      → ((path : String) → is_fresh path rest ≡ true → lookup path ledgers' ≡ lookup path ledgers)
      → IsDelivered c k t now json r a ledgers
      → IsDelivered c k t now json r a ledgers'
  frame-IsDelivered a rest ledgers ledgers' fresh frame (s, there, terminal) =
      (s, frame a.ledger_path fresh ∙ there, terminal)

  upsert-frame :
      (a : Allocation) (rest : List Allocation) (s : Register) (path : String)
      (ledgers ledgers' : Table Register)
      → is_fresh path (a ∷ rest) ≡ true
      → (is_fresh path rest ≡ true
          → lookup path ledgers' ≡ lookup path (upsert a.ledger_path s ledgers))
      → lookup path ledgers' ≡ lookup path ledgers
  unfolding is_fresh
  upsert-frame a rest s path ledgers ledgers' fresh later =
      later (ground arith) ∙ ground (arith, lookup-upsert a.ledger_path path s ledgers)

  apply_allocations-IsOver :
      (rest : List Allocation) (w : World)
      → is_distribution r.state ≡ true
      → IsOpen k r rest w.wallet
      → AcceptsAll c k t now json r rest w.ledgers
      → is_placed rest ≡ true
      → (w' : World) × IsOver rest w w'
  unfolding apply_allocations is_placed is_fresh
  apply_allocations-IsOver [] w running x accepts placed =
      (w, record { run = refl; opened = x; delivered = tt; frame = λ path fresh. refl })
  apply_allocations-IsOver (a ∷ rest) w running x (first, others) placed =
      elim (Bool-cases a.applied) [
        | inl applied ↦
            let (w', o) =
              apply_allocations-IsOver rest w running (skip-IsOpen k r a rest w.wallet applied x)
                others (ground arith) in
            (
              w',
              record {
                run = rw (apply_allocation-skip a w applied) o.run;
                opened = o.opened;
                delivered = (λ pending. absurd (ground arith), o.delivered);
                frame = λ path fresh. o.frame path (ground arith);
              },
            )
        | inr pending ↦
            let (b, s, settled) = first pending in
            let (v, marked, y) = mark-IsOpen k r a rest now w.wallet running pending x in
            let fresh_path : is_fresh a.ledger_path rest ≡ true = ground arith in
            let u : World = record { wallet = v; ledgers = upsert a.ledger_path s w.ledgers } in
            let (w', o) =
              apply_allocations-IsOver rest u running y
                (upsert-AcceptsAll c k t now json r a.ledger_path s rest w.ledgers fresh_path
                  others)
                (ground arith) in
            (
              w',
              record {
                run = rw (apply_allocation-done a w b s v pending settled marked) o.run;
                opened = o.opened;
                delivered = (
                  λ p.
                      frame-IsDelivered a rest u.ledgers w'.ledgers fresh_path o.frame
                        (settle_ledger-IsDelivered c k t now json r a b s w.ledgers settled),
                  o.delivered,
                );
                frame = λ path fresh.
                    upsert-frame a rest s path w.ledgers w'.ledgers fresh (o.frame path);
              },
            )
      ]

  -- The receipt has left the distribution for its terminal state.
  abbrev pub IsEnded : RedemptionState → Wallet → Type 0
  IsEnded target w =
      (r' : Receipt) × (shared_redemption_receipt k w ≡ some r') × (r'.state ≡ target)

  complete-IsEnded :
      (target : RedemptionState) (details : String) (w : Wallet)
      → IsOpen k r [] w
      → allowed r.state target ≡ true
      → (w' : Wallet) × (complete_shared_redemption_distribution k (some target) now details w
          ≡ ok (true, w'))
        × IsEnded target w'
        × (pending_count k w'.allocations ≡ 0)
  unfolding complete_shared_redemption_distribution validate_transition move
      shared_redemption_receipt
  complete-IsEnded target details w x admitted =
      let none_left = is_covered-end k w.allocations x.covered in
      (
        move k unchanged target "" now details w,
        ground (arith, x.found, none_left),
        (
          record r { state = target; updated_at_ms = now },
          lookup-update_self k _ w.redemptions ∙ ap (on_some _) x.found,
          refl,
        ),
        none_left,
      )

  distribution_run :
      (target : RedemptionState) (details : String) (w u : World) (v : Wallet) (a b : Allocation)
      (rest : List Allocation)
      → shared_redemption_receipt k w.wallet ≡ some r
      → shared_condition_allocations k w.wallet.allocations ≡ a ∷ b ∷ rest
      → apply_allocations c k t now json r (a ∷ b ∷ rest) w ≡ finished u
      → complete_shared_redemption_distribution k (some target) now details u.wallet ≡ ok (true, v)
      → apply_shared_redemption_allocations c k t now json (some target) details w
        ≡ ok (true, record u { wallet = v })
  unfolding apply_shared_redemption_allocations complete_distribution
  distribution_run target details w u v a b rest found listed run ended = ground arith

-- Where the receipt of a condition is in a distribution that may end in the target state, the rows
-- of the allocations keep their primary key, the condition has at least two of them, each of a
-- ledger of its own, and every ledger whose share is not marked takes it or has taken it before,
-- the loop raises nothing and completes: the receipt reaches the target state, no allocation of
-- the condition is left, and the ledger of every share that was not marked has its terminal state.
pub distribution_completes :
    (c : Context) (k : String) (t : SharedTerminal) (now : ℕ) (json : Allocation → String)
    (r : Receipt) (target : RedemptionState) (details : String) (w : World) (a b : Allocation)
    (rest : List Allocation)
    → shared_redemption_receipt k w.wallet ≡ some r
    → is_distribution r.state ≡ true
    → allowed r.state target ≡ true
    → is_keyed w.wallet.allocations ≡ true
    → shared_condition_allocations k w.wallet.allocations ≡ a ∷ b ∷ rest
    → is_placed (a ∷ b ∷ rest) ≡ true
    → AcceptsAll c k t now json r (a ∷ b ∷ rest) w.ledgers
    → (w' : World) × (apply_shared_redemption_allocations c k t now json (some target) details w
        ≡ ok (true, w'))
      × IsEnded c k t now json r target w'.wallet
      × (pending_count k w'.wallet.allocations ≡ 0)
      × DeliversAll c k t now json r (a ∷ b ∷ rest) w'.ledgers
distribution_completes c k t now json r target details w a b rest found running admitted keyed
      listed placed accepts =
    let opened =
      subst (λ rows. IsOpen k r rows w.wallet) listed (start-IsOpen k r w.wallet found keyed) in
    let (u, o) =
      apply_allocations-IsOver c k t now json r (a ∷ b ∷ rest) w running opened accepts placed in
    let (v, ended, over, none_left) =
      complete-IsEnded c k t now json r target details u.wallet o.opened admitted in
    (
      record u { wallet = v },
      distribution_run c k t now json r target details w u v a b rest found listed o.run ended,
      over,
      none_left,
      o.delivered,
    )
