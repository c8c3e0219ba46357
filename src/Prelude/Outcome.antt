-- ===== src/Prelude/Outcome.antt =====
-- A Python function that may raise returns a `Result`; a transaction that raises is rolled back,
-- so the state is inside the result.
use mathlib.Core.Path.{◌≡◌, refl}
use mathlib.Core.Bool.{Bool, true, false}
use mathlib.Core.Option.{Option, none, some}
use mathlib.Core.Logic.{◌⊎◌, inl, inr}

pub data Result {ℓ} (E : Type 0) (A : Type ℓ) : Type ℓ where
  ok : A → Result E A
  raise : E → Result E A

infixl 5 ◌>>=◌ ◌>>◌
abbrev pub ◌>>=◌ {ℓ κ} :
    {E : Type 0} {A : Type ℓ} {B : Type κ} → Result E A → (A → Result E B) → Result E B
raise e >>= rest = raise e
ok a >>= rest = rest a

-- A check, and what follows it.
abbrev pub ◌>>◌ {ℓ} : {E : Type 0} {B : Type ℓ} → Result E (Unit {0}) → Result E B → Result E B
check >> rest = check >>= λ _. rest

-- `if bad: raise e`
abbrev pub raise_if : {E : Type 0} → Bool → E → Result E (Unit {0})
raise_if true e = raise e
raise_if false e = ok tt

abbrev pub or_raise {ℓ} : {E : Type 0} {A : Type ℓ} → Option A → E → Result E A
or_raise none e = raise e
or_raise (some a) e = ok a

pub Result-cases {ℓ} :
    {E : Type 0} {A : Type ℓ} (m : Result E A) → ((e : E) × (m ≡ raise e)) ⊎ ((a : A) × (m ≡ ok a))
Result-cases (ok a) = inr (a, refl)
Result-cases (raise e) = inl (e, refl)

-- A chain that returns has an action that returns, and a rest that returns from there.
pub bind_returns {ℓ κ} :
    {E : Type 0} {A : Type ℓ} {B : Type κ} (action : Result E A) (rest : A → Result E B) {b : B}
    → (action >>= rest) ≡ ok b
    → (a : A) × (action ≡ ok a) × (rest a ≡ ok b)
bind_returns (raise e) rest h = cc
bind_returns (ok a) rest h = (a, refl, h)
