-- ===== src/Arh/Blocks/Space.antt =====
-- ardain/src/arh_ext.rs: `find_free_space` gives free space, and none without slots.
use ard_tools.Base.{
  ℕ, zero, suc, ◌+◌, ◌-◌, ◌*◌, ◌%◌, ◌/◌, ◌^◌, ◌≤◌, ◌<◌, ◌≡◌, inl, inr, refl, ap, true, ◌&&◌, List,
  [], ◌∷◌, arith, ltb, leb, ◌==◌, if◌then◌else◌, length, Bool-cases, Run-cases, All, ok, panic,
}
use native.Mathlib.Nat.{mul-mod_left, mul-div_cancel, mod-add-div', mod-lt}
use ard_tools.Bits.{bit-zero, trailing_zeros, pow_pos}
use ard_tools.Bits.Zeros.{trailing_zeros-le, trailing_zeros_clear}
use ard_tools.Arh.Blocks.{
  BlockAllocTable, slot_at, find_loop, find_at_end, find_blocks, find_free_space_inner,
  find_free_space, last_slot, div_ceil,
}
use ard_tools.Arh.Blocks.Mark.{occupied_at, div_ceil_lem}
use ard_tools.Arh.Blocks.Find.{IsFree, find_loop_sound}

slot_at_past : (blocks : List ℕ) (i : ℕ) → length blocks ≤ i → slot_at blocks i ≡ 0
slot_at_past [] i h = refl
slot_at_past (b ∷ bs) zero h = absurd (omega arith)
slot_at_past (b ∷ bs) (suc i) h = slot_at_past bs i (omega arith)

slot_at_last :
    (blocks : List ℕ) (i : ℕ) → suc i ≡ length blocks → slot_at blocks i ≡ last_slot blocks
slot_at_last [] i h = refl
slot_at_last (b ∷ []) zero h = refl
slot_at_last (b ∷ []) (suc i) h = absurd (omega arith)
slot_at_last (b ∷ c ∷ bs) zero h = absurd (omega arith)
slot_at_last (b ∷ c ∷ bs) (suc i) h = slot_at_last (c ∷ bs) i (omega arith)

-- Past the table everything is free.
past-IsFree : (blocks : List ℕ) (b : ℕ) → IsFree blocks (length blocks * 64) b
past-IsFree blocks b k lo hi =
    let outside : slot_at blocks (k / 64) ≡ 0 = slot_at_past blocks (k / 64) (omega arith) in
    rw outside (bit-zero (63 - k % 64))

-- An empty table has no last slot: `0 * 64 - 64` overflows.
pub at_end_empty : find_at_end [] ≡ panic
unfolding find_at_end trailing_zeros
at_end_empty = refl

-- What the code returns at the end of the table is free, however far.
find_at_end_sound :
    (blocks : List ℕ) (b : ℕ) {r : ℕ} → find_at_end blocks ≡ ok r → IsFree blocks r b
unfolding find_at_end
find_at_end_sound [] b {r} e k lo hi = cc at_end_empty
find_at_end_sound (w ∷ ws) b {r} e k lo hi =
    let blocks = w ∷ ws in
    let trailing = trailing_zeros 64 (last_slot blocks) in
    let few : trailing ≤ 64 = trailing_zeros-le 64 (last_slot blocks) in
    let place : r ≡ length blocks * 64 - trailing = ground arith in
    elim (Bool-cases (ltb k (length blocks * 64))) [
      | inr past ↦ past-IsFree blocks (suc k) k (ground arith) (omega arith)
      | inl inside ↦
          let below : k < length blocks * 64 = ground arith in
          let there : k / 64 ≡ length ws = omega arith in
          let slot : slot_at blocks (k / 64) ≡ last_slot blocks =
            slot_at_last blocks (k / 64) (omega arith) in
          rw slot (trailing_zeros_clear 64 (last_slot blocks) (63 - k % 64) (omega arith))
    ]

div_ceil_covers : (n b : ℕ) → 0 < b → n ≤ div_ceil n b * b
div_ceil_covers n b h = elim (Bool-cases (n % b == 0)) [
  | inl even ↦ rw (div_ceil_lem n b h, even) (omega (arith, mod-add-div' n b, exact even))
  | inr odd ↦ rw (div_ceil_lem n b h, odd) (omega (arith, mod-add-div' n b, mod-lt n h))
]
  where
    exact : (n % b == 0) ≡ true → n % b ≡ 0
    exact e = ground arith

div_ceil_pos : (n b : ℕ) → 0 < n → 0 < b → 0 < div_ceil n b
div_ceil_pos n b pos h = elim (Bool-cases (ltb 0 (div_ceil n b))) [
  | inl some_blocks ↦ ground arith
  | inr none_left ↦
      let nothing : div_ceil n b ≡ 0 = ground arith in
      absurd (omega (arith, div_ceil_covers n b h, ap (λ (t : ℕ). t * b) nothing))
]

lt_of_mul-lt : (a c b : ℕ) → a * b < c * b → a < c
lt_of_mul-lt a c b h = elim (Bool-cases (ltb a c)) [
  | inl less ↦ ground arith
  | inr more ↦ let le : c ≤ a = ground arith in absurd (grind arith)
]

find_blocks_sound :
    (blocks : List ℕ) (desired : ℕ) {r : ℕ}
    → 0 < desired
    → All (λ w. w < 2 ^ 64) blocks
    → find_blocks (λ j slot. slot) blocks desired ≡ ok r
    → IsFree blocks r (r + desired)
unfolding find_blocks
find_blocks_sound blocks desired {r} pos words e =
    elim (Run-cases (find_loop (λ j slot. slot) desired blocks 0 0 0)) [
      | inl (block, hit) ↦
          let same : block ≡ r = ground arith in
          find_loop_sound blocks desired pos blocks 0 0 0 (λ m. ap (slot_at blocks) (omega arith))
            words refl (λ k lo hi. absurd (omega arith)) (rw same at hit)
      | inr (inl (_, done)) ↦ find_at_end_sound blocks (r + desired) (ground arith)
      | inr (inr broken) ↦ absurd (ground arith)
    ]

-- Where `find_free_space` returns an offset `r` for a size above 0, on slots that fit into 64 bits, the
-- offset is a block's start, and each block that one of the `size` bytes from `r` on lies in is free.
pub find_free_space_sound :
    (t : BlockAllocTable) (size k : ℕ) {r : ℕ}
    → 0 < size
    → All (λ w. w < 2 ^ 64) t.blocks
    → find_free_space t size ≡ ok r
    → let unit = 2 ^ t.block_size_pow in
      (r % unit ≡ 0)
      × ((if leb (r / unit) k && ltb (k * unit) (r + size) then occupied_at t.blocks k else 0) ≡ 0)
unfolding find_free_space find_free_space_inner
find_free_space_sound t size k {r} pos words e =
    let unit = 2 ^ t.block_size_pow in
    let desired = div_ceil size unit in
    elim (Run-cases (find_blocks (λ j slot. slot) t.blocks desired)) [
      | inl (block, hit) ↦
          let place : r ≡ block * unit = ground arith in
          let free =
            find_blocks_sound t.blocks desired
              (div_ceil_pos size unit pos (pow_pos t.block_size_pow)) words hit in
          rw place (
            mul-mod_left block unit,
            ground (
              arith,
              mul-div_cancel block {n = unit} (pow_pos t.block_size_pow),
              λ (lo : block ≤ k) (hi : k * unit < block * unit + size). free k lo (
                  lt_of_mul-lt k (block + desired) unit
                    (omega (arith, div_ceil_covers size unit (pow_pos t.block_size_pow)))),
            ),
          )
      | inr (inl (_, missed)) ↦ absurd (ground arith)
      | inr (inr broken) ↦ absurd (ground arith)
    ]

-- On a table without slots `find_free_space` panics, whatever the size.
pub find_free_space-empty :
    (t : BlockAllocTable) (size : ℕ) → t.blocks ≡ [] → find_free_space t size ≡ panic
unfolding find_free_space find_free_space_inner find_blocks find_loop
find_free_space-empty t size e = ground (arith, at_end_empty)
