-- ===== src/Bits/Step.antt =====
-- `&` and `|` by their lowest digit. The two share one recursion, over the digits of the first
-- number, so the facts are stated for any such operation.
use Prim.Native.Nat.{
  bit_or, bit_or-bitwise, bit_and, bit_and-bitwise, bitwise, digits, max, min, ◌%◌, ◌/◌, ◌*◌, ◌+◌,
  ◌≤◌, suc, zero, ℕ,
}
use mathlib.Core.Path.{◌≡◌, refl}
use native.Mathlib.Omega.{arith}

module _ (tail : ℕ → ℕ) (op : ℕ → ℕ → ℕ) where
  -- Any two amounts of fuel that cover the first number give the same result.
  digits-enough : (m n a b : ℕ) → a ≤ m → a ≤ n → digits tail op m a b ≡ digits tail op n a b
  digits-enough (suc m) (suc n) (suc a) b hm hn =
      omega (arith, digits-enough m n (suc a / 2) (b / 2) (omega arith) (omega arith))
  digits-enough (suc m) (suc n) zero b hm hn = refl
  digits-enough (suc m) zero a b hm hn = ground arith
  digits-enough zero (suc n) a b hm hn = ground arith
  digits-enough zero zero a b hm hn = refl

  pub digits-half :
      (a b : ℕ)
      → bitwise tail op (suc a) b ≡ bitwise tail op (suc a / 2) (b / 2) * 2 + op (suc a % 2) (b % 2)
  digits-half a b =
      let e = digits-enough a (suc a / 2) (suc a / 2) (b / 2) (omega arith) (omega arith) in
      omega arith

pub bit_and_step : (x y : ℕ) → bit_and x y ≡ bit_and (x / 2) (y / 2) * 2 + min (x % 2) (y % 2)
bit_and_step zero y = omega (arith, bit_and-bitwise 0 y, bit_and-bitwise 0 (y / 2))
bit_and_step (suc x) y = omega (
  arith,
  bit_and-bitwise (suc x) y,
  bit_and-bitwise (suc x / 2) (y / 2),
  digits-half (λ d. zero) min x y,
)

pub bit_or_step : (x y : ℕ) → bit_or x y ≡ bit_or (x / 2) (y / 2) * 2 + max (x % 2) (y % 2)
bit_or_step zero y = omega (arith, bit_or-bitwise 0 y, bit_or-bitwise 0 (y / 2))
bit_or_step (suc x) y = omega (
  arith,
  bit_or-bitwise (suc x) y,
  bit_or-bitwise (suc x / 2) (y / 2),
  digits-half (λ d. d) max x y,
)

bit_and-zero_below : (k n : ℕ) → n ≤ k → bit_and n 0 ≡ 0
bit_and-zero_below k zero h = bit_and-bitwise 0 0
bit_and-zero_below zero (suc n) h = absurd (omega arith)
bit_and-zero_below (suc k) (suc n) h =
    omega (arith, bit_and_step (suc n) 0, bit_and-zero_below k (suc n / 2) (omega arith))

pub bit_and-zero : (n : ℕ) → bit_and n 0 ≡ 0
bit_and-zero n = bit_and-zero_below n n (omega arith)
