-- ===== src/Prelude/Table.antt =====
-- A table of the ledger database with a text primary key: its rows in the order of insertion.
use Prim.Native.String.{String}
use text.Mathlib.Text.{◌==◌}
use text.Mathlib.TextEquality.{eq_iff}
use text.Mathlib.TextPositions.{eq_refl}
use polymarket_live_copy.Prelude.{
  ◌≡◌, refl, Option, none, some, List, [], ◌∷◌, arith, if◌then◌else◌, Bool-cases, inl, inr, subst,
}

abbrev pub Table {ℓ} : Type ℓ → Type ℓ
Table V = List (String × V)

module _ {ℓ} {V : Type ℓ} where
  -- SELECT … WHERE key = ?
  unfoldable pub lookup : String → Table V → Option V
  lookup k [] = none
  lookup k ((j, v) ∷ t) = if j == k then some v else lookup k t

  -- INSERT … ON CONFLICT DO UPDATE
  unfoldable pub upsert : String → V → Table V → Table V
  upsert k v [] = (k, v) ∷ []
  upsert k v ((j, w) ∷ t) = if j == k then (j, v) ∷ t else (j, w) ∷ upsert k v t

  -- UPDATE … WHERE key = ?
  unfoldable pub update : String → (V → V) → Table V → Table V
  update k f [] = []
  update k f ((j, w) ∷ t) = if j == k then (j, f w) ∷ t else (j, w) ∷ update k f t

  pub lookup-upsert :
      (k j : String) (v : V) (t : Table V)
      → lookup j (upsert k v t) ≡ (if k == j then some v else lookup j t)
  unfolding lookup upsert
  lookup-upsert k j v [] = refl
  lookup-upsert k j v ((i, w) ∷ t) =
      ground (arith, eq_iff k j, eq_iff i k, eq_iff i j, lookup-upsert k j v t)

  abbrev pub on_some : (V → V) → Option V → Option V
  on_some f none = none
  on_some f (some v) = some (f v)

  pub lookup-update :
      (k j : String) (f : V → V) (t : Table V)
      → lookup j (update k f t) ≡ (if k == j then on_some f (lookup j t) else lookup j t)
  unfolding lookup update
  lookup-update k j f [] = ground arith
  lookup-update k j f ((i, w) ∷ t) =
      ground (arith, eq_iff k j, eq_iff i k, eq_iff i j, lookup-update k j f t)

  pub lookup-upsert_self : (k : String) (v : V) (t : Table V) → lookup k (upsert k v t) ≡ some v
  lookup-upsert_self k v t = simp (lookup-upsert, eq_refl)

  pub lookup-update_self :
      (k : String) (f : V → V) (t : Table V) → lookup k (update k f t) ≡ on_some f (lookup k t)
  lookup-update_self k f t = simp (lookup-update, eq_refl)

some_injective {ℓ} : {A : Type ℓ} {a b : A} → some a ≡ some b → a ≡ b
some_injective h = cc

-- Every value of a table.
abbrev pub Each {ℓ κ} : {V : Type ℓ} → (V → Type κ) → Table V → Type κ
Each P [] = Unit
Each P ((_, v) ∷ t) = P v × Each P t

module _ {ℓ κ} {V : Type ℓ} (P : V → Type κ) where
  pub Each-lookup : (k : String) (t : Table V) {v : V} → Each P t → lookup k t ≡ some v → P v
  unfolding lookup
  Each-lookup k [] h e = absurd (ground arith)
  Each-lookup k ((j, w) ∷ t) {v} h e = elim (Bool-cases (j == k)) [
    | inl here ↦ subst P (some_injective (rw here at e)) h.0
    | inr later ↦ Each-lookup k t h.1 (rw later at e)
  ]

  pub Each-upsert : (k : String) (v : V) (t : Table V) → Each P t → P v → Each P (upsert k v t)
  unfolding upsert
  Each-upsert k v [] h p = (p, tt)
  Each-upsert k v ((j, w) ∷ t) h p = elim (Bool-cases (j == k)) [
    | inl here ↦ rw here (p, h.1)
    | inr later ↦ rw later (h.0, Each-upsert k v t h.1 p)
  ]
