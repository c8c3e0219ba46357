-- ===== src/Distribution/Rows.antt =====
-- The rows of shared_condition_allocations while a loop applies them one after the other.
use Prim.Native.String.{String}
use text.Mathlib.Text.{◌==◌}
use text.Mathlib.TextEquality.{eq_iff}
use text.Mathlib.TextPositions.{eq_refl}
use polymarket_live_copy.Prelude.{
  ◌≡◌, refl, inl, inr, Bool, true, false, not, ◌&&◌, ◌||◌, Option, none, some, List, [], ◌∷◌, arith,
  Bool-cases, is_some,
}
use polymarket_live_copy.Shared.Redemption.{Allocation, is_row, find_allocation, pending_count}
use polymarket_live_copy.Distribution.{shared_condition_allocations}

-- The primary key: no two rows of a condition have one profile.
unfoldable pub is_keyed : List Allocation → Bool
is_keyed [] = true
is_keyed (a ∷ rest) =
    not (is_some (find_allocation a.condition_id a.profile_key rest)) && is_keyed rest

abbrev pub is_pending : Option Allocation → Bool
is_pending none = false
is_pending (some a) = not a.applied

-- The loop has still to apply a row of this profile.
unfoldable pub names : String → List Allocation → Bool
names profile [] = false
names profile (a ∷ rest) = (a.profile_key == profile && not a.applied) || names profile rest

-- Every row of the condition that is not applied is named by the rest of the loop.
unfoldable pub is_covered : String → List Allocation → List Allocation → Bool
is_covered condition rest [] = true
is_covered condition rest (b ∷ rows) =
    (not (b.condition_id == condition && not b.applied) || names b.profile_key rest)
    && is_covered condition rest rows

-- Every row that the rest of the loop has to apply is there.
unfoldable pub is_present : String → List Allocation → List Allocation → Bool
is_present condition [] rows = true
is_present condition (a ∷ rest) rows =
    (a.applied || is_some (find_allocation condition a.profile_key rows))
    && is_present condition rest rows

pub is_covered-skip :
    (k : String) (a : Allocation) (rest rows : List Allocation)
    → a.applied ≡ true
    → is_covered k (a ∷ rest) rows ≡ is_covered k rest rows
unfolding is_covered names
is_covered-skip k a rest [] h = refl
is_covered-skip k a rest (b ∷ rows) h = ground (arith, is_covered-skip k a rest rows h)

is_covered-cons :
    (k : String) (a : Allocation) (rest rows : List Allocation)
    → is_covered k rest rows ≡ true
    → is_covered k (a ∷ rest) rows ≡ true
unfolding is_covered names
is_covered-cons k a rest [] h = refl
is_covered-cons k a rest (b ∷ rows) h = ground (arith, is_covered-cons k a rest rows)

-- At the beginning of the loop.
pub is_covered-start :
    (k : String) (rows : List Allocation)
    → is_covered k (shared_condition_allocations k rows) rows ≡ true
unfolding is_covered shared_condition_allocations names
is_covered-start k [] = refl
is_covered-start k (a ∷ rows) = ground (
  arith,
  is_covered-start k rows,
  is_covered-cons k a (shared_condition_allocations k rows) rows,
  eq_refl a.profile_key,
)

pub is_covered-end :
    (k : String) (rows : List Allocation) → is_covered k [] rows ≡ true → pending_count k rows ≡ 0
unfolding is_covered names pending_count
is_covered-end k [] h = refl
is_covered-end k (b ∷ rows) h = ground (arith, is_covered-end k rows)

-- A row that is not there, or applied, need not be named.
is_covered-absent :
    (k : String) (a : Allocation) (rest rows : List Allocation)
    → find_allocation k a.profile_key rows ≡ none
    → is_covered k (a ∷ rest) rows ≡ true
    → is_covered k rest rows ≡ true
unfolding is_covered names find_allocation
is_covered-absent k a rest [] absent h = refl
is_covered-absent k a rest (b ∷ rows) absent h = ground (
  arith,
  is_covered-absent k a rest rows,
  eq_iff a.profile_key b.profile_key,
  eq_iff b.profile_key a.profile_key,
)

pub is_covered-drop :
    (k : String) (a : Allocation) (rest rows : List Allocation)
    → is_keyed rows ≡ true
    → is_pending (find_allocation k a.profile_key rows) ≡ false
    → is_covered k (a ∷ rest) rows ≡ true
    → is_covered k rest rows ≡ true
unfolding is_covered names find_allocation is_keyed
is_covered-drop k a rest [] keyed done h = refl
is_covered-drop k a rest (b ∷ rows) keyed done h = elim (Bool-cases (is_row k a.profile_key b)) [
  | inl own ↦ ground (
    arith,
    is_covered-absent k a rest rows,
    eq_iff b.condition_id k,
    eq_iff b.profile_key a.profile_key,
  )
  | inr other ↦ ground (
    arith,
    is_covered-drop k a rest rows,
    eq_iff a.profile_key b.profile_key,
    eq_iff b.profile_key a.profile_key,
  )
]
