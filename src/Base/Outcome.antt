-- ===== src/Base/Outcome.antt =====
-- The result of code that can fail: a value, an error of type `E`, or a panic (an `unwrap` of
-- nothing, an index out of bounds, a checked overflow), which ends the run.
use mathlib.Core.Path.{◌≡◌, refl, ap, ◌∙◌}
use mathlib.Core.Logic.{◌≢◌, ◌⊎◌, inl, inr}
use mathlib.Core.Option.{Option, none, some}

pub data Run {ℓ κ} (E : Type ℓ) (A : Type κ) : Type (ℓ ⊔ κ) where
  ok : A → Run E A
  err : E → Run E A
  panic : Run E A

infixl 5 ◌>>=◌ ◌>>◌
abbrev pub ◌>>=◌ {ℓ κ ν} :
    {E : Type ℓ} {A : Type κ} {B : Type ν} → Run E A → (A → Run E B) → Run E B
panic >>= next = panic
err fault >>= next = err fault
ok value >>= next = next value

abbrev pub ◌>>◌ {ℓ κ ν} : {E : Type ℓ} {A : Type κ} {B : Type ν} → Run E A → Run E B → Run E B
m >> k = m >>= λ _. k

-- `Option::unwrap`.
abbrev pub unwrap {ℓ κ} : {E : Type ℓ} {A : Type κ} → Option A → Run E A
unwrap none = panic
unwrap (some a) = ok a

-- `Option::ok_or`.
abbrev pub ok_or {ℓ κ} : {E : Type ℓ} {A : Type κ} → Option A → E → Run E A
ok_or none e = err e
ok_or (some a) e = ok a

-- A run that went well passed through its first part.
pub >>=-eq-ok {ℓ κ ν} :
    {E : Type ℓ} {A : Type κ} {B : Type ν} (first : Run E A) (next : A → Run E B) {out : B}
    → (first >>= next) ≡ ok out
    → (mid : A) × (first ≡ ok mid) × (next mid ≡ ok out)
>>=-eq-ok panic next e = cc
>>=-eq-ok (ok mid) next e = (mid, refl, e)
>>=-eq-ok (err fault) next e = cc

-- To split on a run that is computed, and keep the equation.
pub Run-cases {ℓ κ} :
    {E : Type ℓ} {A : Type κ} (m : Run E A)
    → ((a : A) × (m ≡ ok a)) ⊎ (((e : E) × (m ≡ err e)) ⊎ (m ≡ panic))
Run-cases (ok a) = inl (a, refl)
Run-cases (err e) = inr (inl (e, refl))
Run-cases panic = inr (inr refl)

-- A run that cannot panic at its first part, nor behind it.
pub >>=-ne-panic {ℓ κ ν} :
    {E : Type ℓ} {A : Type κ} {B : Type ν} (first : Run E A) (next : A → Run E B)
    → first ≢ panic
    → ((mid : A) → first ≡ ok mid → next mid ≢ panic)
    → (first >>= next) ≢ panic
>>=-ne-panic panic next safe on = absurd (safe refl)
>>=-ne-panic (ok mid) next safe on = on mid refl
>>=-ne-panic (err fault) next safe on = λ e. cc

pub unwrap-ne-panic {ℓ κ ν} :
    {E : Type ℓ} {A : Type κ} {B : Type ν} (o : Option A) (next : A → Run E B) {a : A}
    → o ≡ some a
    → next a ≢ panic
    → (unwrap o >>= next) ≢ panic
unwrap-ne-panic none next e safe = cc
unwrap-ne-panic (some b) next {a} e safe = let same : a ≡ b = cc in λ f. safe (ap next same ∙ f)

pub ok-ne-panic {ℓ κ} : {E : Type ℓ} {A : Type κ} {a : A} → ◌≢◌ {A = Run E A} (ok a) panic
ok-ne-panic e = cc
