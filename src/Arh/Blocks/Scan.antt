-- ===== src/Arh/Blocks/Scan.antt =====
-- ardain/src/arh_ext.rs: the search for free blocks within one slot.
use ard_tools.Base.{
  ℕ, zero, suc, ◌+◌, ◌-◌, ◌*◌, ◌%◌, ◌^◌, ◌≤◌, ◌<◌, ◌≡◌, ◌≢◌, inl, inr, sym, ◌∙◌, ap, none, some,
  arith, ltb, ◌==◌, bit_and, Bool-cases,
}
use native.Mathlib.Nat.{mod-eq_of_lt}
use ard_tools.Bits.{
  bit, complement, bit-le, bit-mask, bit-bit_and, bit-complement, leading_zeros, pow_pos,
  pow_double, pow_le, pow_add,
}
use ard_tools.Bits.Zeros.{leading_zeros-mask}
use ard_tools.Arh.Blocks.{scan_slot}

-- The mask `((1 << d) - 1) << s`.
abbrev pub mask_at : ℕ → ℕ → ℕ
mask_at d s = (2 ^ d - 1) * 2 ^ s

-- What `scan_slot` finds: a shift of the mask that fits in the word and lies in the free blocks.
abbrev pub Scanned : ℕ → ℕ → ℕ → Type 0
Scanned n d z = (s : ℕ) × (s + d ≤ 64) × (z ≡ 64 - s - d) × (bit_and n (mask_at d s) ≡ mask_at d s)

mask_all : (a b : ℕ) → 1 ≤ a → (a - 1) * b + b ≡ a * b
mask_all (suc a) b h = ground arith
mask_all zero b h = absurd (omega arith)

mask_at-lt : (d s : ℕ) → s + d ≤ 64 → mask_at d s < 2 ^ 64
mask_at-lt d s h =
    let all : mask_at d s + 2 ^ s ≡ 2 ^ d * 2 ^ s = mask_all (2 ^ d) (2 ^ s) (pow_pos d) in
    omega (arith, pow_le (s + d) 64 h, pow_add s d, pow_pos s)

mask_at-next : (d s : ℕ) → suc s + d ≤ 64 → mask_at d s * 2 % 2 ^ 64 ≡ mask_at d (suc s)
mask_at-next d s h =
    let twice : mask_at d s * 2 ≡ mask_at d (suc s) =
      omega (arith, ap (λ (t : ℕ). (2 ^ d - 1) * t) (pow_double s)) in
    rw twice (mod-eq_of_lt (mask_at-lt d (suc s) h))

module _ (fuel n d s : ℕ) (inside : s + d < 64) where
  bit_free : bit (mask_at d s) 63 ≡ 0
  bit_free = bit-mask s d 63 ∙ ground arith

  scan_slot_hit :
      bit_and n (mask_at d s) ≡ mask_at d s
      → scan_slot (suc fuel) n (mask_at d s) ≡ some (leading_zeros 64 (mask_at d s))
  unfolding scan_slot
  scan_slot_hit hit = ground (arith, bit_free)

  scan_slot_miss :
      bit_and n (mask_at d s) ≢ mask_at d s
      → scan_slot (suc fuel) n (mask_at d s) ≡ scan_slot fuel n (mask_at d (suc s))
  unfolding scan_slot
  scan_slot_miss miss = rw (← mask_at-next d s (omega arith)) (ground (arith, bit_free))

scan_slot_full : (fuel n d s : ℕ) → 0 < d → s + d ≡ 64 → scan_slot (suc fuel) n (mask_at d s) ≡ none
unfolding scan_slot
scan_slot_full fuel n d s pos full =
    let last : bit (mask_at d s) 63 ≡ 1 = bit-mask s d 63 ∙ ground arith in ground (arith, last)

pub scan_slot_sound :
    (fuel n d s : ℕ) {z : ℕ}
    → 0 < d
    → s + d ≤ 64
    → scan_slot fuel n (mask_at d s) ≡ some z
    → Scanned n d z
unfolding scan_slot
scan_slot_sound zero n d s pos fits e = cc
scan_slot_sound (suc fuel) n d s {z} pos fits e = elim (Bool-cases (ltb (s + d) 64)) [
  | inr full ↦ cc (scan_slot_full fuel n d s pos (ground arith))
  | inl room ↦
      let inside : s + d < 64 = ground arith in
      elim (Bool-cases (bit_and n (mask_at d s) == mask_at d s)) [
        | inl hit ↦
            let here : bit_and n (mask_at d s) ≡ mask_at d s = ground arith in
            (
              s,
              fits,
              ground
                  (arith, scan_slot_hit fuel n d s inside here, leading_zeros-mask 64 s d pos fits),
              here,
            )
        | inr miss ↦
            scan_slot_sound fuel n d (suc s) pos (omega arith)
              (sym (scan_slot_miss fuel n d s inside (ground arith)) ∙ e)
      ]
]

-- The blocks of one slot that a scan has found are free in it.
pub Scanned-free :
    (slot d z k : ℕ)
    → slot < 2 ^ 64
    → Scanned (complement 64 slot) d z
    → z ≤ k
    → k < z + d
    → bit slot (63 - k) ≡ 0
Scanned-free slot d z k word (s, fits, place, inside) lo hi =
    let at = 63 - k in
    let both = ap (λ (t : ℕ). bit t at) inside in
    omega (
      arith,
      bit-bit_and at (complement 64 slot) (mask_at d s),
      bit-complement at 64 slot word (omega arith),
      both,
      mask_bit,
      bit-le slot at,
    )
  where
    mask_bit : bit (mask_at d s) (63 - k) ≡ 1
    mask_bit = bit-mask s d (63 - k) ∙ ground arith
