-- ===== src/Base/Results.antt =====
-- The outcome of running C code: a value, undefined behaviour or an abort, or a loop cut short.
use mathlib.Core.Path.{◌≡◌, refl}
use mathlib.Core.Option.{Option, none, some}

-- `fault` stands for undefined behaviour (a bad access, a division by zero);
-- `out_of_fuel` for a loop that has made all the rounds it was given.
pub data Exec {ℓ} (A : Type ℓ) : Type ℓ where
  ok : A → Exec A
  fault : Exec A
  out_of_fuel : Exec A

infixl 5 ◌>>=◌
abbrev pub ◌>>=◌ {ℓ κ} : {A : Type ℓ} {B : Type κ} → Exec A → (A → Exec B) → Exec B
ok a >>= k = k a
fault >>= k = fault
out_of_fuel >>= k = out_of_fuel

-- An access that is undefined where the value is missing.
abbrev pub access {ℓ} : {A : Type ℓ} → Option A → Exec A
access none = fault
access (some a) = ok a

-- Total correctness of a run: no fault, enough fuel, and the postcondition.
pub data Returns {ℓ κ} {A : Type ℓ} (P : A → Type κ) : Exec A → Type (ℓ ⊔ κ) where
  returns : {a : A} → P a → Returns P (ok a)

module _ {ℓ κ} {A : Type ℓ} {P : A → Type κ} where
  pub Returns-mono :
      {Q : A → Type κ} {r : Exec A} → Returns P r → ((a : A) → P a → Q a) → Returns Q r
  Returns-mono (returns p) weaken = returns (weaken _ p)

  pub Returns-bind :
      {B : Type ℓ} {Q : B → Type κ} {r : Exec A} {k : A → Exec B}
      → Returns P r
      → ((a : A) → P a → Returns Q (k a))
      → Returns Q (r >>= k)
  Returns-bind (returns p) next = next _ p

  -- A run that returns, whatever it is.
  pub Returns-value : {r : Exec A} → Returns P r → (a : A) × (r ≡ ok a) × P a
  Returns-value (returns {a} p) = (a, refl, p)

-- The parts of a chain that returns.
pub bind_ok {ℓ} :
    {A B : Type ℓ} (r : Exec A) (k : A → Exec B) (b : B)
    → (r >>= k) ≡ ok b
    → (a : A) × (r ≡ ok a) × (k a ≡ ok b)
bind_ok (ok a) k b e = (a, refl, e)
bind_ok fault k b e = absurd cc
bind_ok out_of_fuel k b e = absurd cc
