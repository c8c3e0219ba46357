-- ===== src/Distribution/Marking.antt =====
-- `mark_shared_allocation_applied` of app/live_wallet_coordinator.py as a step of the loop.
use Prim.Native.String.{String}
use polymarket_live_copy.Prelude.{
  ℕ, ◌≡◌, refl, ◌∙◌, inl, inr, true, false, some, List, [], ◌∷◌, ok, arith, Bool-cases,
  Option-cases, is_some,
}
use polymarket_live_copy.Shared.{is_distribution}
use polymarket_live_copy.Shared.Redemption.{
  Receipt, Allocation, Wallet, find_allocation, set_applied, shared_redemption_receipt,
  mark_shared_allocation_applied,
}
use polymarket_live_copy.Distribution.Rows.{
  is_keyed, is_pending, is_covered, is_covered-drop, is_present,
}

module _ (k p : String) (now : ℕ) where
  find-set_applied :
      (j q : String) (rows : List Allocation)
      → is_some (find_allocation j q (set_applied k p now rows))
        ≡ is_some (find_allocation j q rows)
  unfolding find_allocation set_applied
  find-set_applied j q [] = refl
  find-set_applied j q (b ∷ rows) = ground (arith, find-set_applied j q rows)

  set_applied-done :
      (rows : List Allocation) → is_pending (find_allocation k p (set_applied k p now rows)) ≡ false
  unfolding find_allocation set_applied
  set_applied-done [] = refl
  set_applied-done (b ∷ rows) = ground (arith, set_applied-done rows)

  set_applied-keyed : (rows : List Allocation) → is_keyed (set_applied k p now rows) ≡ is_keyed rows
  unfolding is_keyed set_applied
  set_applied-keyed [] = refl
  set_applied-keyed (b ∷ rows) =
      ground (arith, set_applied-keyed rows, find-set_applied b.condition_id b.profile_key rows)

  set_applied-covered :
      (rest rows : List Allocation)
      → is_covered k rest rows ≡ true
      → is_covered k rest (set_applied k p now rows) ≡ true
  unfolding is_covered set_applied
  set_applied-covered rest [] h = refl
  set_applied-covered rest (b ∷ rows) h = ground (arith, set_applied-covered rest rows)

  set_applied-present :
      (rest rows : List Allocation)
      → is_present k rest (set_applied k p now rows) ≡ is_present k rest rows
  unfolding is_present
  set_applied-present [] rows = refl
  set_applied-present (a ∷ rest) rows =
      ground (arith, set_applied-present rest rows, find-set_applied k a.profile_key rows)

-- The state of the coordinator in front of the rest of the loop.
pub record IsOpen (k : String) (r : Receipt) (rest : List Allocation) (w : Wallet) : Type 0 where
  pub found : shared_redemption_receipt k w ≡ some r
  pub keyed : is_keyed w.allocations ≡ true
  pub covered : is_covered k rest w.allocations ≡ true
  pub present : is_present k rest w.allocations ≡ true

drop-IsOpen :
    (k : String) (r : Receipt) (a : Allocation) (rest : List Allocation) (now : ℕ) (w : Wallet)
    → IsOpen k r (a ∷ rest) w
    → IsOpen k r rest (record w { allocations = set_applied k a.profile_key now w.allocations })
unfolding shared_redemption_receipt is_present
drop-IsOpen k r a rest now w x = record {
  found = x.found;
  keyed = set_applied-keyed k a.profile_key now w.allocations ∙ x.keyed;
  covered =
      is_covered-drop k a rest (set_applied k a.profile_key now w.allocations)
        (set_applied-keyed k a.profile_key now w.allocations ∙ x.keyed)
        (set_applied-done k a.profile_key now w.allocations)
        (set_applied-covered k a.profile_key now (a ∷ rest) w.allocations x.covered);
  present = set_applied-present k a.profile_key now rest w.allocations ∙ ground (arith, x.present);
}

done-IsOpen :
    (k : String) (r : Receipt) (a : Allocation) (rest : List Allocation) (w : Wallet)
    → is_pending (find_allocation k a.profile_key w.allocations) ≡ false
    → IsOpen k r (a ∷ rest) w
    → IsOpen k r rest w
unfolding is_present
done-IsOpen k r a rest w done x = record {
  found = x.found;
  keyed = x.keyed;
  covered = is_covered-drop k a rest w.allocations x.keyed done x.covered;
  present = ground (arith, x.present);
}

-- A row that is to be applied is marked, and the rest of the loop is in front.
pub mark-IsOpen :
    (k : String) (r : Receipt) (a : Allocation) (rest : List Allocation) (now : ℕ) (w : Wallet)
    → is_distribution r.state ≡ true
    → a.applied ≡ false
    → IsOpen k r (a ∷ rest) w
    → (w' : Wallet) × (mark_shared_allocation_applied k a.profile_key now w ≡ ok w')
      × IsOpen k r rest w'
unfolding mark_shared_allocation_applied is_present
mark-IsOpen k r a rest now w running fresh x =
    elim (Option-cases (find_allocation k a.profile_key w.allocations)) [
      | inl absent ↦ absurd (ground (arith, x.present))
      | inr (b, there) ↦ elim (Bool-cases b.applied) [
        | inl applied ↦ (w, ground (arith, x.found), done-IsOpen k r a rest w (ground arith) x)
        | inr pending ↦ (
          record w { allocations = set_applied k a.profile_key now w.allocations },
          ground (arith, x.found),
          drop-IsOpen k r a rest now w x,
        )
      ]
    ]
