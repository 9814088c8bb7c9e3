-- ===== src/Base/Partial.antt =====
-- Code that may panic, and has no other failure: `none` is the panic.
use mathlib.Core.Path.{◌≡◌, refl}
use mathlib.Core.Option.{Option, none, some}

infixl 5 ◌>>=◌
abbrev pub ◌>>=◌ {ℓ κ} : {A : Type ℓ} {B : Type κ} → Option A → (A → Option B) → Option B
none >>= f = none
some a >>= f = f a

-- A run that went well passed through its first part.
pub >>=-eq-some {ℓ κ} :
    {A : Type ℓ} {B : Type κ} {m : Option A} {f : A → Option B} {b : B}
    → (m >>= f) ≡ some b
    → (a : A) × (m ≡ some a) × (f a ≡ some b)
>>=-eq-some {m = none} h = cc
>>=-eq-some {m = some a} h = (a, refl, h)
