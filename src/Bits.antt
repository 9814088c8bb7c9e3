-- ===== src/Bits.antt =====
-- Machine words as natural numbers: the bits of a word, the shifts, masks and counts of zeros that
-- ardain/src/arh.rs and ardain/src/arh_ext.rs use, and their laws bit by bit.
mod Step
pub mod Xor
pub mod Zeros
use mathlib.Core.Path.{ap, refl, sym, ◌≡◌, ◌∙◌}
use Prim.Native.Nat.{
  bit_and, bit_or, bit_xor, max, min, ◌%◌, ◌*◌, ◌+◌, ◌-◌, ◌/◌, ◌<◌, ◌^◌, ◌≤◌, suc, zero, ℕ,
}
use native.Mathlib.Omega.{arith}
use native.Mathlib.Nat.{pow-suc, one-le-pow}
use ard_tools.Base.{ltb, leb, ◌==◌, if◌then◌else◌}
use Step.{bit_and_step, bit_or_step, bit_and-zero}

-- `(n >> k) & 1`.
abbrev pub bit : ℕ → ℕ → ℕ
bit n zero = n % 2
bit n (suc k) = bit (n / 2) k

-- `!n` on a word of `w` bits.
abbrev pub complement : ℕ → ℕ → ℕ
complement w n = 2 ^ w - 1 - n

-- `leading_zeros` and `trailing_zeros` of the `w` lowest bits.
unfoldable pub leading_zeros : ℕ → ℕ → ℕ
leading_zeros zero n = 0
leading_zeros (suc w) n = if bit n w == 0 then 1 + leading_zeros w n else 0

unfoldable pub trailing_zeros : ℕ → ℕ → ℕ
trailing_zeros zero n = 0
trailing_zeros (suc w) n = if n % 2 == 0 then 1 + trailing_zeros w (n / 2) else 0

pub bit-le : (n k : ℕ) → bit n k ≤ 1
bit-le n zero = omega arith
bit-le n (suc k) = bit-le (n / 2) k

pub bit-bit_and : (k a b : ℕ) → bit (bit_and a b) k ≡ min (bit a k) (bit b k)
bit-bit_and zero a b = omega (arith, bit_and_step a b)
bit-bit_and (suc k) a b =
    let half : bit_and a b / 2 ≡ bit_and (a / 2) (b / 2) = omega (arith, bit_and_step a b) in
    rw half (bit-bit_and k (a / 2) (b / 2))

pub bit-bit_or : (k a b : ℕ) → bit (bit_or a b) k ≡ max (bit a k) (bit b k)
bit-bit_or zero a b = omega (arith, bit_or_step a b)
bit-bit_or (suc k) a b =
    let half : bit_or a b / 2 ≡ bit_or (a / 2) (b / 2) = omega (arith, bit_or_step a b) in
    rw half (bit-bit_or k (a / 2) (b / 2))

pub bit-zero : (k : ℕ) → bit 0 k ≡ 0
bit-zero zero = refl
bit-zero (suc k) = bit-zero k

-- `2 ^ suc k` in the form that the arithmetic reads.
pub pow_double : (k : ℕ) → 2 ^ suc k ≡ 2 * 2 ^ k
pow_double k = omega (arith, pow-suc 2 k)

pub pow_pos : (k : ℕ) → 1 ≤ 2 ^ k
pow_pos k = one-le-pow k 2 (omega arith)

-- The bits of a complement.
pub bit-complement : (k w n : ℕ) → n < 2 ^ w → k < w → bit (complement w n) k + bit n k ≡ 1
bit-complement k zero n h lt = absurd (omega arith)
bit-complement zero (suc w) n h lt = omega (arith, pow_double w, pow_pos w)
bit-complement (suc k) (suc w) n h lt =
    let half : complement (suc w) n / 2 ≡ complement w (n / 2) =
      omega (arith, pow_double w, pow_pos w) in
    rw half (bit-complement k w (n / 2) (omega (arith, pow_double w)) (omega arith))

-- The bits of `1 << j`.
pub bit-pow : (j k : ℕ) → bit (2 ^ j) k ≡ (if j == k then 1 else 0)
bit-pow zero zero = refl
bit-pow zero (suc k) = bit-zero k ∙ ground arith
bit-pow (suc j) zero = ground (arith, pow_double j)
bit-pow (suc j) (suc k) =
    let half : 2 ^ suc j / 2 ≡ 2 ^ j = omega (arith, pow_double j) in
    rw half (bit-pow j k ∙ ground arith)

-- The bits of `((1 << d) - 1) << s`.
pub bit-mask :
    (s d k : ℕ)
    → bit ((2 ^ d - 1) * 2 ^ s) k ≡ (if leb s k then (if ltb k (s + d) then 1 else 0) else 0)
bit-mask zero zero k = bit-zero k ∙ ground arith
bit-mask zero (suc d) zero = ground (arith, pow_double d, pow_pos d)
bit-mask zero (suc d) (suc k) =
    let half : (2 ^ suc d - 1) * 1 / 2 ≡ (2 ^ d - 1) * 1 = omega (arith, pow_double d, pow_pos d) in
    rw half (bit-mask zero d k ∙ ground arith)
bit-mask (suc s) d zero =
    ground (arith, pow_double s, ap (λ (t : ℕ). (2 ^ d - 1) * t) (pow_double s))
bit-mask (suc s) d (suc k) =
    let half : (2 ^ d - 1) * 2 ^ suc s / 2 ≡ (2 ^ d - 1) * 2 ^ s =
      omega (arith, ap (λ (t : ℕ). (2 ^ d - 1) * t) (pow_double s)) in
    rw half (bit-mask s d k ∙ ground arith)

-- `n & (1 << j)`.
pub bit_and-pow : (j n : ℕ) → bit_and n (2 ^ j) ≡ bit n j * 2 ^ j
bit_and-pow zero n = omega (arith, bit_and_step n 1, bit_and-zero (n / 2))
bit_and-pow (suc j) n =
    let half : 2 ^ suc j / 2 ≡ 2 ^ j = omega (arith, pow_double j) in
    let even : 2 ^ suc j % 2 ≡ 0 = omega (arith, pow_double j) in
    let rest : bit_and (n / 2) (2 ^ suc j / 2) ≡ bit (n / 2) j * 2 ^ j =
      rw half (bit_and-pow j (n / 2)) in
    omega (arith, bit_and_step n (2 ^ suc j), ap (λ (t : ℕ). bit (n / 2) j * t) (pow_double j))

pub pow_lt : (j w : ℕ) → j < w → 2 ^ j < 2 ^ w
pow_lt zero (suc w) h = omega (arith, pow_double w, pow_pos w)
pow_lt (suc j) (suc w) h = omega (arith, pow_double j, pow_double w, pow_lt j w (omega arith))
pow_lt j zero h = absurd (omega arith)

pub pow_le : (j w : ℕ) → j ≤ w → 2 ^ j ≤ 2 ^ w
pow_le zero w h = pow_pos w
pow_le (suc j) zero h = absurd (omega arith)
pow_le (suc j) (suc w) h = omega (arith, pow_double j, pow_double w, pow_le j w (omega arith))

pub pow_add : (s d : ℕ) → 2 ^ (s + d) ≡ 2 ^ d * 2 ^ s
pow_add zero d = let e : 0 + d ≡ d = omega arith in rw e (omega arith)
pow_add (suc s) d =
    let e : suc s + d ≡ suc (s + d) = omega arith in
    rw e (omega (arith, pow_double (s + d), pow_add s d, ap (λ (t : ℕ). 2 ^ d * t) (pow_double s)))
