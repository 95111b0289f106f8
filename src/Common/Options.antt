-- ===== src/Common/Options.antt =====
-- Computations that may fail, one after the other.
use mathlib.Core.Path.{◌≡◌, ap}
use mathlib.Core.Option.{Option, none, some}

infixl 5 ◌>>=◌
abbrev pub ◌>>=◌ {ℓ κ} : {A : Type ℓ} {B : Type κ} → Option A → (A → Option B) → Option B
none >>= k = none
some a >>= k = k a

-- A computation whose first part succeeds.
pub onward {ℓ κ} :
    {A : Type ℓ} {B : Type κ} {m : Option A} {a : A} (k : A → Option B)
    → m ≡ some a
    → (m >>= k) ≡ k a
onward k e = ap (λ (m : Option _). m >>= k) e
