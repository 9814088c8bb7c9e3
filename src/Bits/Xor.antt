-- ===== src/Bits/Xor.antt =====
-- The exclusive or, by which ardain/src/arh.rs and ardain/src/fs.rs find a node's children.
use Prim.Native.Nat.{
  ℕ, zero, suc, ◌+◌, ◌*◌, ◌/◌, ◌%◌, ◌≤◌, ◌<◌, ◌^◌, bit_xor, bit_xor-bitwise, differ,
}
use mathlib.Core.Path.{◌≡◌, refl, ap}
use native.Mathlib.Omega.{arith}
use ard_tools.Bits.Step.{digits-half}
use ard_tools.Bits.{bit, bit-le, bit-zero, pow_double}

differ-add : (a b : ℕ) → a < 2 → b < 2 → differ a b ≡ (a + b) % 2
differ-add zero b ha hb = omega arith
differ-add (suc zero) zero ha hb = refl
differ-add (suc zero) (suc zero) ha hb = refl
differ-add (suc zero) (suc (suc b)) ha hb = absurd (omega arith)
differ-add (suc (suc a)) b ha hb = absurd (omega arith)

bit_xor_step : (x y : ℕ) → bit_xor x y ≡ bit_xor (x / 2) (y / 2) * 2 + (x % 2 + y % 2) % 2
bit_xor_step zero y = omega (arith, bit_xor-bitwise 0 y, bit_xor-bitwise 0 (y / 2))
bit_xor_step (suc x) y = omega (
  arith,
  bit_xor-bitwise (suc x) y,
  bit_xor-bitwise (suc x / 2) (y / 2),
  digits-half (λ d. d) differ x y,
  differ-add (suc x % 2) (y % 2) (omega arith) (omega arith),
)

bit-bit_xor : (k x y : ℕ) → bit (bit_xor x y) k ≡ (bit x k + bit y k) % 2
bit-bit_xor zero x y = omega (arith, bit_xor_step x y)
bit-bit_xor (suc k) x y =
    let half : bit_xor x y / 2 ≡ bit_xor (x / 2) (y / 2) = omega (arith, bit_xor_step x y) in
    rw half (bit-bit_xor k (x / 2) (y / 2))

eq_of_bits_below : (m x y : ℕ) → x ≤ m → y ≤ m → ((k : ℕ) → bit x k ≡ bit y k) → x ≡ y
eq_of_bits_below zero x y hx hy h = omega arith
eq_of_bits_below (suc m) x y hx hy h =
    omega
      (arith, h 0, eq_of_bits_below m (x / 2) (y / 2) (omega arith) (omega arith) (λ k. h (suc k)))

eq_of_bits : (x y : ℕ) → ((k : ℕ) → bit x k ≡ bit y k) → x ≡ y
eq_of_bits x y h = eq_of_bits_below (x + y) x y (omega arith) (omega arith) h

pub bit_xor_comm : (x y : ℕ) → bit_xor x y ≡ bit_xor y x
bit_xor_comm x y = eq_of_bits _ _ (λ k. omega (arith, bit-bit_xor k x y, bit-bit_xor k y x))

pub bit_xor_assoc : (x y z : ℕ) → bit_xor (bit_xor x y) z ≡ bit_xor x (bit_xor y z)
bit_xor_assoc x y z = eq_of_bits _ _ (λ k. omega (
  arith,
  bit-bit_xor k (bit_xor x y) z,
  bit-bit_xor k x y,
  bit-bit_xor k x (bit_xor y z),
  bit-bit_xor k y z,
))

pub bit_xor-cancel : (x y : ℕ) → bit_xor x (bit_xor x y) ≡ y
bit_xor-cancel x y =
    eq_of_bits _ _
      (λ k. omega (arith, bit-bit_xor k x (bit_xor x y), bit-bit_xor k x y, bit-le y k))

pub bit_xor-zero_left : (x : ℕ) → bit_xor 0 x ≡ x
bit_xor-zero_left x = eq_of_bits _ _ (λ k. omega (arith, bit-bit_xor k 0 x, bit-zero k, bit-le x k))

bit_xor-zero : (x : ℕ) → bit_xor x 0 ≡ x
bit_xor-zero x = eq_of_bits _ _ (λ k. omega (arith, bit-bit_xor k x 0, bit-zero k, bit-le x k))

bit_xor-lt_pow : (k x y : ℕ) → x < 2 ^ k → y < 2 ^ k → bit_xor x y < 2 ^ k
bit_xor-lt_pow zero x y hx hy =
    let hx' : x ≡ 0 = omega arith in let hy' : y ≡ 0 = omega arith in rw (hx', hy') (omega arith)
bit_xor-lt_pow (suc k) x y hx hy = omega (
  arith,
  pow_double k,
  bit_xor_step x y,
  bit_xor-lt_pow k (x / 2) (y / 2) (omega (arith, pow_double k)) (omega (arith, pow_double k)),
)

-- Seven bits stay seven bits.
pub bit_xor-lt : (x y : ℕ) → x < 128 → y < 128 → bit_xor x y < 128
bit_xor-lt x y hx hy = bit_xor-lt_pow 7 x y hx hy

halves : ℕ → ℕ → ℕ
halves zero x = x
halves (suc k) x = halves k (x / 2)

bit_xor-halves : (k x y : ℕ) → halves k (bit_xor x y) ≡ bit_xor (halves k x) (halves k y)
unfolding halves
bit_xor-halves zero x y = refl
bit_xor-halves (suc k) x y =
    let half : bit_xor x y / 2 ≡ bit_xor (x / 2) (y / 2) = omega (arith, bit_xor_step x y) in
    rw half (bit_xor-halves k (x / 2) (y / 2))

halves-div : (x : ℕ) → halves 7 x ≡ x / 128
unfolding halves
halves-div x = omega arith

-- The block of 128 in which a number stands is kept.
pub bit_xor-block : (x y : ℕ) → y < 128 → bit_xor x y / 128 ≡ x / 128
bit_xor-block x y h =
    let low : halves 7 y ≡ 0 = omega (arith, halves-div y) in
    omega (
      arith,
      halves-div (bit_xor x y),
      bit_xor-halves 7 x y,
      halves-div x,
      bit_xor-zero (halves 7 x),
      ap (bit_xor (halves 7 x)) low,
    )

bit_xor_self : (x : ℕ) → bit_xor x x ≡ 0
bit_xor_self x = eq_of_bits _ _ (λ k. omega (arith, bit-bit_xor k x x, bit-zero k, bit-le x k))

-- Two numbers of one block differ in their seven lowest bits alone.
pub bit_xor-same_block : (x y : ℕ) → x / 128 ≡ y / 128 → bit_xor x y < 128
bit_xor-same_block x y h =
    let same : halves 7 y ≡ halves 7 x = omega (arith, halves-div x, halves-div y) in
    omega (
      arith,
      halves-div (bit_xor x y),
      bit_xor-halves 7 x y,
      bit_xor_self (halves 7 x),
      ap (bit_xor (halves 7 x)) same,
    )
