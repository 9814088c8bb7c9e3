-- ===== src/Arh/Blocks/Mark.antt =====
-- ardain/src/arh_ext.rs: which blocks `mark` changes.
use ard_tools.Base.{
  ℕ, zero, suc, ◌+◌, ◌-◌, ◌*◌, ◌%◌, ◌/◌, ◌^◌, ◌≤◌, ◌<◌, ◌≡◌, inl, inr, refl, ◌∙◌, ap, Bool, true,
  false, ◌&&◌, List, [], ◌∷◌, ◌++◌, arith, ltb, leb, ◌==◌, if◌then◌else◌, length, length-append,
  length-replicate, set, replicate, bit_and, bit_or, Bool-cases,
}
use native.Mathlib.Nat.{le-div_iff_mul-le, div-eq_of_lt-le, div-mul-le_self, mod-add-div', mod-lt}
use ard_tools.Bits.{
  bit, complement, bit-le, bit-pow, bit-bit_and, bit-bit_or, bit-complement, pow_pos, pow_lt,
}
use ard_tools.Arh.Meta.{FileMeta}
use ard_tools.Arh.Blocks.{
  BlockAllocTable, slot_at, pad, mark_block, mark_range, mark_start, mark_end, mark, div_ceil,
}

-- Whether a block is occupied: 1 or 0. What is past the table is free.
abbrev pub occupied_at : List ℕ → ℕ → ℕ
occupied_at blocks k = bit (slot_at blocks (k / 64)) (63 - k % 64)

slot_at-append_zeros :
    (blocks : List ℕ) (n i : ℕ) → slot_at (blocks ++ replicate n 0) i ≡ slot_at blocks i
slot_at-append_zeros [] zero i = refl
slot_at-append_zeros [] (suc n) zero = refl
slot_at-append_zeros [] (suc n) (suc i) = slot_at-append_zeros [] n i
slot_at-append_zeros (b ∷ bs) n zero = refl
slot_at-append_zeros (b ∷ bs) n (suc i) = slot_at-append_zeros bs n i

slot_at-set :
    (blocks : List ℕ) (i j v : ℕ)
    → i < length blocks
    → slot_at (set blocks i v) j ≡ (if i == j then v else slot_at blocks j)
slot_at-set [] i j v h = absurd (omega arith)
slot_at-set (b ∷ bs) zero zero v h = refl
slot_at-set (b ∷ bs) zero (suc j) v h = ground arith
slot_at-set (b ∷ bs) (suc i) zero v h = ground arith
slot_at-set (b ∷ bs) (suc i) (suc j) v h = slot_at-set bs i j v (omega arith) ∙ ground arith

length-pad : (blocks : List ℕ) (item : ℕ) → item < length (pad blocks item)
length-pad blocks item = omega (
  arith,
  length-append blocks (replicate (item + 1 - length blocks) 0),
  length-replicate {A = ℕ} (item + 1 - length blocks) 0,
)

-- The slot that `mark_block` writes.
abbrev marked_slot : Bool → ℕ → ℕ → ℕ
marked_slot v slot mask = if v then bit_or slot mask else bit_and slot (complement 64 mask)

slot_at-mark_block :
    (v : Bool) (blocks : List ℕ) (b i : ℕ)
    → slot_at (mark_block v blocks b) i ≡ (
        if b / 64 == i
        then marked_slot v (slot_at blocks i) (2 ^ (63 - b % 64))
        else slot_at blocks i)
unfolding mark_block
slot_at-mark_block v blocks b i =
    let same : (j : ℕ) → slot_at (pad blocks (b / 64)) j ≡ slot_at blocks j =
      slot_at-append_zeros blocks (b / 64 + 1 - length blocks) in
    slot_at-set (pad blocks (b / 64)) (b / 64) i _ (length-pad blocks (b / 64))
    ∙ ground (arith, same i, same (b / 64))

bit-marked_slot :
    (v : Bool) (slot j k : ℕ)
    → j < 64
    → k < 64
    → bit (marked_slot v slot (2 ^ j)) k ≡ (if j == k then (if v then 1 else 0) else bit slot k)
bit-marked_slot true slot j k hj hk =
    bit-bit_or k slot (2 ^ j) ∙ ground (arith, bit-pow j k, bit-le slot k)
bit-marked_slot false slot j k hj hk =
    bit-bit_and k slot (complement 64 (2 ^ j))
    ∙ ground (arith, bit-pow j k, bit-le slot k, bit-complement k 64 (2 ^ j) (pow_lt j 64 hj) hk)

-- One round sets its block and no other.
occupied_at-mark_block :
    (v : Bool) (blocks : List ℕ) (b k : ℕ)
    → occupied_at (mark_block v blocks b) k
      ≡ (if b == k then (if v then 1 else 0) else occupied_at blocks k)
occupied_at-mark_block v blocks b k =
    ap (λ (w : ℕ). bit w (63 - k % 64)) (slot_at-mark_block v blocks b (k / 64))
    ∙ ground (
      arith,
      bit-marked_slot v (slot_at blocks (k / 64)) (63 - b % 64) (63 - k % 64) (omega arith)
          (omega arith),
    )

occupied_at-mark_range :
    (v : Bool) (blocks : List ℕ) (start n k : ℕ)
    → occupied_at (mark_range v blocks start n) k
      ≡ (if leb start k && ltb k (start + n) then (if v then 1 else 0) else occupied_at blocks k)
unfolding mark_range
occupied_at-mark_range v blocks start zero k = ground arith
occupied_at-mark_range v blocks start (suc n) k =
    occupied_at-mark_range v (mark_block v blocks start) (start + 1) n k
    ∙ ground (arith, occupied_at-mark_block v blocks start k)

-- `mark` sets exactly the blocks of its range.
occupied_at-mark :
    (t : BlockAllocTable) (f : FileMeta) (v : Bool) (k : ℕ)
    → 0 < f.compressed_size
    → occupied_at (mark t f v).blocks k ≡ (
        if leb (mark_start t.block_size_pow f v) k && leb k (mark_end t.block_size_pow f v)
        then (if v then 1 else 0)
        else occupied_at t.blocks k)
unfolding mark
occupied_at-mark t f v k h =
    let start = mark_start t.block_size_pow f v in
    let end = mark_end t.block_size_pow f v in
    ground (arith, occupied_at-mark_range v t.blocks start (end + 1 - start) k)

-- Rounding up, by the remainder.
pub div_ceil_lem : (e b : ℕ) → 0 < b → div_ceil e b ≡ (if e % b == 0 then e / b else e / b + 1)
div_ceil_lem e b h = elim (Bool-cases (e % b == 0)) [
  | inl even ↦
      let exact : e % b ≡ 0 = ground arith in
      rw even
        (div-eq_of_lt-le b (omega (arith, mod-add-div' e b)) (omega (arith, mod-add-div' e b)))
  | inr odd ↦
      let some_left : 0 < e % b = ground arith in
      rw odd (
        div-eq_of_lt-le b (omega (arith, mod-add-div' e b))
          (omega (arith, mod-add-div' e b, mod-lt e h)))
]

module _ (t : BlockAllocTable) (f : FileMeta) (k : ℕ) (some_bytes : 0 < f.compressed_size) where
  -- When a file of at least one byte is marked as occupied, every block that holds one of its bytes is
  -- occupied after, and no block that was occupied becomes free.
  pub mark_occupied :
      (if leb (f.offset / 2 ^ t.block_size_pow) k
          && ltb (k * 2 ^ t.block_size_pow) (f.offset + f.compressed_size)
        then 1
        else occupied_at t.blocks k)
      ≤ occupied_at (mark t f true).blocks k
  unfolding mark_start mark_end
  mark_occupied = ground (
    arith,
    occupied_at-mark t f true k some_bytes,
    bit-le (slot_at t.blocks (k / 64)) (63 - k % 64),
    last_block,
  )
    where
      last_block :
          k * 2 ^ t.block_size_pow < f.offset + f.compressed_size
          → k ≤ div_ceil (f.offset + f.compressed_size) (2 ^ t.block_size_pow)
      last_block hi =
          (le-div_iff_mul-le {k = 2 ^ t.block_size_pow} {x = k}
              {y = f.offset + f.compressed_size + 2 ^ t.block_size_pow - 1}
              (pow_pos t.block_size_pow)).1
            (omega arith)

  -- When a file of at least one byte is marked as free, the blocks that become free are those from its
  -- first full one up to and with the block in which the byte after the file's last one lies; all other
  -- blocks stay as they were.
  pub mark_freed : occupied_at (mark t f false).blocks k ≡ (
      let unit = 2 ^ t.block_size_pow in
      let first = if f.offset % unit == 0 then f.offset / unit else f.offset / unit + 1 in
      if leb first k && leb k ((f.offset + f.compressed_size) / unit)
      then 0
      else occupied_at t.blocks k)
  unfolding mark_start mark_end
  mark_freed = ground (
    arith,
    occupied_at-mark t f false k some_bytes,
    div_ceil_lem (f.offset + f.compressed_size) (2 ^ t.block_size_pow) (pow_pos t.block_size_pow),
  )

pub block_size_pow-mark :
    (t : BlockAllocTable) (f : FileMeta) (v : Bool) → (mark t f v).block_size_pow ≡ t.block_size_pow
unfolding mark
block_size_pow-mark t f v = ground arith

-- Of two files side by side, the first of at least one byte and at a block's start, with the second
-- marked as occupied: when the first is marked as free, the block in which the second begins is free.
pub mark_frees_neighbour :
    (t : BlockAllocTable) (f g : FileMeta)
    → 0 < f.compressed_size
    → f.offset % 2 ^ t.block_size_pow ≡ 0
    → g.offset ≡ f.offset + f.compressed_size
    → occupied_at (mark (mark t g true) f false).blocks (g.offset / 2 ^ t.block_size_pow) ≡ 0
mark_frees_neighbour t f g some_bytes aligned next =
    let unit = 2 ^ t.block_size_pow in
    let same : (mark t g true).block_size_pow ≡ t.block_size_pow = block_size_pow-mark t g true in
    let reaches : f.offset / unit ≤ g.offset / unit =
      (le-div_iff_mul-le (pow_pos t.block_size_pow)).1
        (omega (arith, div-mul-le_self f.offset unit)) in
    let freed = mark_freed (mark t g true) f (g.offset / unit) some_bytes in ground (arith, freed)
