-- ===== src/Distribution/Crash.antt =====
-- The loop of `_apply_shared_redemption_allocations` of app/cd90_live_copy.py when the process ends
-- between the commit of a ledger and the commit of the coordinator.
use Prim.Native.String.{String}
use text.Mathlib.TextPositions.{eq_refl}
use polymarket_live_copy.Prelude.{ℕ, ◌≡◌, true, false, [], ◌∷◌, ok, arith}
use polymarket_live_copy.Prelude.Table.{Table, upsert, lookup-upsert_self}
use polymarket_live_copy.Decimal.{Context}
use polymarket_live_copy.Shared.Redemption.{Receipt, Allocation}
use polymarket_live_copy.Settlement.{Register}
use polymarket_live_copy.Settlement.Handoff.{SharedTerminal}
use polymarket_live_copy.Settlement.Repeat.{shared_share_applied_once}
use polymarket_live_copy.Distribution.{
  World, ledger_at, share_of, settle_ledger, mark_applied, apply_allocation,
}

upsert_again :
    (k : String) (v : Register) (t : Table Register) → upsert k v (upsert k v t) ≡ upsert k v t
unfolding upsert
upsert_again k v [] = ground (arith, eq_refl k)
upsert_again k v ((j, w) ∷ t) = ground (arith, upsert_again k v t)

module _ (c : Context) (k : String) (t : SharedTerminal) (json others : Allocation → String)
    (now later : ℕ) (r : Receipt) (a : Allocation) (s : Register) where
  settle_ledger-again :
      (ledgers : Table Register)
      → settle_ledger c k t now json r a ledgers ≡ ok (true, s)
      → settle_ledger c k t later others r a (upsert a.ledger_path s ledgers) ≡ ok (false, s)
  unfolding settle_ledger ledger_at
  settle_ledger-again ledgers e =
      let again =
        shared_share_applied_once c k t (share_of r a) r.transaction_hash r.transaction_hash now
          later (json a) (others a) (ledger_at a.ledger_path ledgers) s e in
      rw (lookup-upsert_self a.ledger_path s ledgers) again

  -- The world after the commit of the ledger.
  abbrev committed : World → World
  committed w = record w { ledgers = upsert a.ledger_path s w.ledgers }

  apply_allocation-ledger :
      (w : World)
      → a.applied ≡ false
      → settle_ledger c k t now json r a w.ledgers ≡ ok (true, s)
      → apply_allocation c k t now json r a w ≡ mark_applied c k t now json a (committed w)
  unfolding apply_allocation
  apply_allocation-ledger w pending e = ground arith

  apply_allocation-again :
      (w : World)
      → a.applied ≡ false
      → settle_ledger c k t now json r a w.ledgers ≡ ok (true, s)
      → apply_allocation c k t later others r a (committed w)
        ≡ mark_applied c k t later others a (committed w)
  unfolding apply_allocation
  apply_allocation-again w pending e =
      ground (arith, settle_ledger-again w.ledgers e, upsert_again a.ledger_path s w.ledgers)

-- Where a ledger takes the share of an allocation that is not marked, the body of the loop is its
-- commit followed by the mark of the coordinator; and when the process ends between the two, the
-- body run again, at any time, is that mark alone: the ledger is not credited a second time.
pub crash_credits_once :
    (c : Context) (k : String) (t : SharedTerminal) (json others : Allocation → String)
    (now later : ℕ) (r : Receipt) (a : Allocation) (s : Register) (w : World)
    → a.applied ≡ false
    → settle_ledger c k t now json r a w.ledgers ≡ ok (true, s)
    → (apply_allocation c k t now json r a w
        ≡ mark_applied c k t now json a (record w { ledgers = upsert a.ledger_path s w.ledgers }))
      × (apply_allocation c k t later others r a
            (record w { ledgers = upsert a.ledger_path s w.ledgers })
          ≡ mark_applied c k t later others a
              (record w { ledgers = upsert a.ledger_path s w.ledgers }))
crash_credits_once c k t json others now later r a s w pending e = (
  apply_allocation-ledger c k t json others now later r a s w pending e,
  apply_allocation-again c k t json others now later r a s w pending e,
)
