-- ===== src/Prelude/Results.antt =====
-- Calls that may throw: a value or an error.
use mathlib.Core.Path.{◌≡◌}

pub data Result {ℓ κ} (E : Type ℓ) (A : Type κ) : Type (ℓ ⊔ κ) where
  ok : A → Result E A
  err : E → Result E A

-- The call returns, and its value satisfies `P`.
abbrev pub Returns {ℓ κ μ} :
    {E : Type ℓ} {A : Type κ} → Result E A → (A → Type μ) → Type (ℓ ⊔ κ ⊔ μ)
Returns {A} r P = (a : A) × (r ≡ ok a) × P a
