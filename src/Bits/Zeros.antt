-- ===== src/Bits/Zeros.antt =====
-- What `leading_zeros` and `trailing_zeros` say of the bits.
use Prim.Native.Nat.{ℕ, zero, suc, ◌+◌, ◌-◌, ◌*◌, ◌/◌, ◌^◌, ◌≤◌, ◌<◌}
use mathlib.Core.Path.{◌≡◌}
use mathlib.Core.Logic.{inl, inr}
use native.Mathlib.Omega.{arith}
use ard_tools.Base.{◌==◌, Bool-cases}
use ard_tools.Bits.{bit, bit-mask, leading_zeros, trailing_zeros}

pub leading_zeros-le : (w n : ℕ) → leading_zeros w n ≤ w
unfolding leading_zeros
leading_zeros-le zero n = omega arith
leading_zeros-le (suc w) n = ground (arith, leading_zeros-le w n)

pub trailing_zeros-le : (w n : ℕ) → trailing_zeros w n ≤ w
unfolding trailing_zeros
trailing_zeros-le zero n = omega arith
trailing_zeros-le (suc w) n = ground (arith, trailing_zeros-le w (n / 2))

-- The bits that are counted are zero.
pub leading_zeros_clear : (w n k : ℕ) → k < w → w ≤ k + leading_zeros w n → bit n k ≡ 0
unfolding leading_zeros
leading_zeros_clear zero n k h e = absurd (omega arith)
leading_zeros_clear (suc w) n k h e = elim (Bool-cases (k == w)) [
  | inl top ↦ let same : k ≡ w = ground arith in rw same (ground arith)
  | inr below ↦ leading_zeros_clear w n k (ground arith) (ground arith)
]

pub trailing_zeros_clear : (w n k : ℕ) → k < trailing_zeros w n → bit n k ≡ 0
unfolding trailing_zeros
trailing_zeros_clear zero n k h = absurd (omega arith)
trailing_zeros_clear (suc w) n zero h = ground arith
trailing_zeros_clear (suc w) n (suc k) h = trailing_zeros_clear w (n / 2) k (ground arith)

-- A mask of `d` ones above `s` zeros.
pub leading_zeros-mask :
    (w s d : ℕ) → 0 < d → s + d ≤ w → leading_zeros w ((2 ^ d - 1) * 2 ^ s) ≡ w - s - d
unfolding leading_zeros
leading_zeros-mask zero s d pos h = absurd (omega arith)
leading_zeros-mask (suc w) s d pos h = ground (arith, bit-mask s d w, leading_zeros-mask w s d pos)
