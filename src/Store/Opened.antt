-- ===== src/Store/Opened.antt =====
-- How many submission attempts of an action are open, when rows of attempts are added and changed.
use Prim.Native.String.{String}
use text.Mathlib.Text.{◌==◌}
use polymarket_live_copy.Prelude.{
  ℕ, ◌+◌, ◌≤◌, ◌≡◌, refl, inl, inr, Bool, true, false, ◌&&◌, none, some, List, [], ◌∷◌, ◌++◌, arith,
  Bool-cases,
}
use polymarket_live_copy.Store.{Attempt, AttemptState, Ledger, is_unresolved}
use polymarket_live_copy.Store.Attempts.{has_unresolved}
use polymarket_live_copy.Store.Finalize.{update_attempt, answered}
use polymarket_live_copy.Store.Marks.{find_attempt}

abbrev pub one_if : Bool → ℕ
one_if true = 1
one_if false = 0

-- How many attempts of an action are open.
unfoldable pub open_attempts : String → List Attempt → ℕ
open_attempts action [] = 0
open_attempts action (a ∷ rest) =
    one_if (a.action_id == action && is_unresolved a.state) + open_attempts action rest

pub open_attempts-none :
    (k : String) (rows : List Attempt) → has_unresolved k rows ≡ false → open_attempts k rows ≡ 0
unfolding has_unresolved open_attempts
open_attempts-none k [] h = refl
open_attempts-none k (a ∷ rest) h = ground (arith, open_attempts-none k rest)

pub open_attempts-append :
    (k : String) (rows : List Attempt) (a : Attempt)
    → open_attempts k (rows ++ a ∷ [])
      ≡ open_attempts k rows + one_if (a.action_id == k && is_unresolved a.state)
unfolding open_attempts
open_attempts-append k [] a = omega arith
open_attempts-append k (b ∷ rest) a = rw (open_attempts-append k rest a) (omega arith)

open_attempts-update :
    (k key : String) (state : AttemptState) (response : String) (now : ℕ) (rows : List Attempt)
    → is_unresolved state ≡ false
    → open_attempts k (update_attempt key (answered state response now) rows) ≤ open_attempts k rows
unfolding open_attempts update_attempt
open_attempts-update k key state response now [] h = omega arith
open_attempts-update k key state response now (a ∷ rest) h =
    ground (arith, open_attempts-update k key state response now rest h)

one_if_bound : (b : Bool) → one_if b ≤ 1
one_if_bound b = ground arith

-- No action has two attempts open.
abbrev pub IsExclusive : Ledger → Type 0
IsExclusive l = (k : String) → open_attempts k l.attempts ≤ 1

pub close-IsExclusive :
    (key : String) (state : AttemptState) (response : String) (now : ℕ) (l l' : Ledger)
    → is_unresolved state ≡ false
    → l'.attempts ≡ update_attempt key (answered state response now) l.attempts
    → IsExclusive l
    → IsExclusive l'
close-IsExclusive key state response now l l' closed rows x k =
    ground (arith, rows, x k, open_attempts-update k key state response now l.attempts closed)

pub same-IsExclusive : (l l' : Ledger) → l'.attempts ≡ l.attempts → IsExclusive l → IsExclusive l'
same-IsExclusive l l' rows x k = ground (arith, rows, x k)

-- The attempt with this id is open.
abbrev pub is_open_at : String → List Attempt → Bool
is_open_at key rows = elim (find_attempt key rows) [ none ↦ false | some a ↦ is_unresolved a.state ]

-- A change of an open attempt that keeps its action opens no other.
open_attempts-change :
    (k key : String) (f : Attempt → Attempt) (rows : List Attempt)
    → ((a : Attempt) → (f a).action_id ≡ a.action_id)
    → is_open_at key rows ≡ true
    → open_attempts k (update_attempt key f rows) ≤ open_attempts k rows
unfolding open_attempts update_attempt find_attempt
open_attempts-change k key f [] same h = omega arith
open_attempts-change k key f (a ∷ rest) same h = elim (Bool-cases (a.attempt_id == key)) [
  | inl here ↦ ground (arith, same a)
  | inr later ↦ ground (arith, open_attempts-change k key f rest same)
]

pub change-IsExclusive :
    (key : String) (f : Attempt → Attempt) (l l' : Ledger)
    → ((a : Attempt) → (f a).action_id ≡ a.action_id)
    → is_open_at key l.attempts ≡ true
    → l'.attempts ≡ update_attempt key f l.attempts
    → IsExclusive l
    → IsExclusive l'
change-IsExclusive key f l l' same opened rows x k =
    ground (arith, rows, x k, open_attempts-change k key f l.attempts same opened)
