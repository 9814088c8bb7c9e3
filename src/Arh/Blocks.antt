-- ===== src/Arh/Blocks.antt =====
-- ardain/src/arh_ext.rs: `BlockAllocTable`. A slot is a `u64`, a number below 2^64 whose highest bit
-- is the first block. The searches are `panic` where their arithmetic leaves its type, as in a build
-- that checks overflow. In `mark` it is assumed that it does not: `block_size_pow` is below 64, and a
-- file ends below 2^64.
pub mod Mark
pub mod Scan
pub mod Find
pub mod Space
use ard_tools.Base.{
  ℕ, zero, suc, ◌+◌, ◌-◌, ◌*◌, ◌%◌, ◌/◌, ◌^◌, ◌≤◌, ◌<◌, ◌≡◌, refl, ◌∙◌, ap, Bool, true, false, not,
  ◌&&◌, ◌||◌, Option, none, some, List, [], ◌∷◌, ◌++◌, arith, ltb, leb, ◌==◌, if◌then◌else◌, length,
  get_elem?, set, replicate, bit_and, bit_or, Run, ok, err, panic,
}
use ard_tools.Bits.{bit, complement, leading_zeros, trailing_zeros}
use ard_tools.Arh.Meta.{FileMeta}

pub record BlockAllocTable : Type 0 where
  pub block_size_pow : ℕ
  pub block_arr_count : ℕ
  pub blocks : List ℕ

-- `u64::MAX`.
abbrev pub max_slot : ℕ
max_slot = 2 ^ 64 - 1

-- `a.div_ceil(b)`.
abbrev pub div_ceil : ℕ → ℕ → ℕ
div_ceil a b = (a + b - 1) / b

abbrev pub slot_at : List ℕ → ℕ → ℕ
slot_at blocks i = elim (get_elem? blocks i) [ none ↦ 0 | some slot ↦ slot ]

-- `while item >= self.blocks.len() { self.blocks.push(0) }`.
abbrev pub pad : List ℕ → ℕ → List ℕ
pad blocks item = blocks ++ replicate (item + 1 - length blocks) 0

-- One round of the loop in `mark`.
unfoldable pub mark_block : Bool → List ℕ → ℕ → List ℕ
mark_block occupied blocks block =
    let item = block / 64 in
    let mask = 2 ^ (63 - block % 64) in
    let padded = pad blocks item in
    let slot = slot_at padded item in
    set padded item (if occupied then bit_or slot mask else bit_and slot (complement 64 mask))

-- The loop, over `rounds` blocks from `block` on.
unfoldable pub mark_range : Bool → List ℕ → ℕ → ℕ → List ℕ
mark_range occupied blocks block zero = blocks
mark_range occupied blocks block (suc rounds) =
    mark_range occupied (mark_block occupied blocks block) (block + 1) rounds

-- The first and the last block of the loop's range, `start..=end`.
unfoldable pub mark_start : ℕ → FileMeta → Bool → ℕ
mark_start pow file occupied =
    let start = file.offset / 2 ^ pow in
    if not occupied && not (file.offset % 2 ^ pow == 0) then start + 1 else start

unfoldable pub mark_end : ℕ → FileMeta → Bool → ℕ
mark_end pow file occupied =
    let file_end = file.offset + file.compressed_size in
    let end = div_ceil file_end (2 ^ pow) in
    if not occupied && not (file_end % 2 ^ pow == 0) then end - 1 else end

-- `BlockAllocTable::mark`.
unfoldable pub mark : BlockAllocTable → FileMeta → Bool → BlockAllocTable
mark table file occupied =
    let start = mark_start table.block_size_pow file occupied in
    let end = mark_end table.block_size_pow file occupied in
    let blocks = mark_range occupied table.blocks start (end + 1 - start) in
    if file.compressed_size == 0
    then table
    else record table { blocks = blocks; block_arr_count = length blocks }

-- The loop of `BlockAllocTable::new`.
unfoldable pub mark_all : BlockAllocTable → List FileMeta → BlockAllocTable
mark_all table [] = table
mark_all table (file ∷ files) = mark_all (mark table file true) files

-- `BlockAllocTable::new`, on the archive's file table.
unfoldable pub new : List FileMeta → ℕ → BlockAllocTable
new files pow = mark_all (record { block_size_pow = pow; block_arr_count = 0; blocks = [] }) files

-- The inner loop of `find_free_space_inner`, on fuel (64 rounds are enough): the leading zeros of the
-- first shift of the mask that fits into the free blocks `n_slot`.
unfoldable pub scan_slot : ℕ → ℕ → ℕ → Option ℕ
scan_slot zero n_slot mask = none
scan_slot (suc fuel) n_slot mask =
    let rest = scan_slot fuel n_slot (mask * 2 % 2 ^ 64) in
    if bit mask 63 == 0
    then (if bit_and n_slot mask == mask then some (leading_zeros 64 mask) else rest)
    else none

-- Case 2 in one slot: the block where a run of `desired` free blocks begins, if there is one.
-- `(1 << desired_blocks) - 1` overflows at 64.
unfoldable pub find_in_slot : ℕ → ℕ → ℕ → Run (Unit {0}) ℕ
find_in_slot slot first_block desired =
    if leb desired (64 - leading_zeros 64 slot - trailing_zeros 64 slot)
    then (if desired == 64
        then panic
        else elim (scan_slot 64 (complement 64 slot) (2 ^ desired - 1)) [
          | none ↦ err tt
          | some zeros ↦ ok (first_block + zeros)
        ])
    else err tt

-- The loop over the slots, from slot `i` on: `ok` is the block at which the code returns, `err` the
-- loop's normal end.
unfoldable pub find_loop : (ℕ → ℕ → ℕ) → ℕ → List ℕ → ℕ → ℕ → ℕ → Run (Unit {0}) ℕ
find_loop patch desired [] i carry start = err tt
find_loop patch desired (raw ∷ slots) i carry start =
    let slot = patch i raw in
    let first_block = i * 64 in
    let occupied = find_loop patch desired slots (i + 1) 0 (first_block + 64) in
    let free = find_loop patch desired slots (i + 1) (carry + 64) start in
    let trailing = trailing_zeros 64 slot in
    let mixed = find_loop patch desired slots (i + 1) trailing (first_block + 64 - trailing) in
    if slot == max_slot
    then occupied
    else if slot == 0
    then (if leb desired (carry + 64) then ok start else free)
    else if leb desired (carry + leading_zeros 64 slot)
    then ok start
    else elim (find_in_slot slot first_block desired) [
      | ok block ↦ ok block
      | panic ↦ panic
      | err _ ↦ mixed
    ]

abbrev pub last_slot : List ℕ → ℕ
last_slot [] = 0
last_slot (w ∷ []) = w
last_slot (w ∷ v ∷ ws) = last_slot (v ∷ ws)

-- "No free space": the first free block at the end, which underflows on an empty table.
unfoldable pub find_at_end : List ℕ → Run (Unit {0}) ℕ
find_at_end blocks =
    let all = length blocks * 64 in
    let trailing = trailing_zeros 64 (last_slot blocks) in
    if leb trailing all then ok (all - trailing) else panic

-- `find_free_space_inner`, in blocks.
unfoldable pub find_blocks : (ℕ → ℕ → ℕ) → List ℕ → ℕ → Run (Unit {0}) ℕ
find_blocks patch blocks desired = elim (find_loop patch desired blocks 0 0 0) [
  | ok block ↦ ok block
  | panic ↦ panic
  | err _ ↦ find_at_end blocks
]

-- `block * (1 << self.block_size_pow)`, which overflows if it does not fit into a `u64`.
abbrev pub block_offset : ℕ → ℕ → Run (Unit {0}) ℕ
block_offset pow block = if ltb (block * 2 ^ pow) (2 ^ 64) then ok (block * 2 ^ pow) else panic

-- `find_free_space_inner`. `1 << self.block_size_pow` overflows from 64 on.
unfoldable pub find_free_space_inner : BlockAllocTable → ℕ → (ℕ → ℕ → ℕ) → Run (Unit {0}) ℕ
find_free_space_inner table desired_size patch =
    if ltb table.block_size_pow 64
    then elim (find_blocks patch table.blocks (div_ceil desired_size (2 ^ table.block_size_pow))) [
      | ok block ↦ block_offset table.block_size_pow block
      | panic ↦ panic
      | err e ↦ err e
    ]
    else panic

-- `find_free_space`.
unfoldable pub find_free_space : BlockAllocTable → ℕ → Run (Unit {0}) ℕ
find_free_space table desired_size = find_free_space_inner table desired_size (λ i slot. slot)

-- The closure `patch` of `find_space_replace`.
unfoldable pub patch_old : ℕ → ℕ → ℕ → ℕ → ℕ
patch_old file_start_block file_end_block i slot =
    let first_block = i * 64 in
    let last_block = first_block + 63 in
    if leb file_start_block first_block && leb last_block file_end_block
    then 0
    else if leb first_block file_start_block && leb file_start_block last_block
    then bit_and slot (complement 64 (2 ^ (file_start_block - first_block) - 1))
    else if leb first_block file_end_block && leb file_end_block last_block
    then bit_and slot (2 ^ (last_block - file_end_block) - 1)
    else slot

-- `find_space_replace`.
unfoldable pub find_space_replace : BlockAllocTable → FileMeta → ℕ → Run (Unit {0}) ℕ
find_space_replace table old_file desired_size =
    let unit = 2 ^ table.block_size_pow in
    let file_start_block = div_ceil old_file.offset unit in
    let file_end_block = div_ceil (old_file.offset + old_file.compressed_size) unit - 1 in
    if old_file.compressed_size == 0
    then find_free_space table desired_size
    else if leb desired_size old_file.compressed_size
    then ok old_file.offset
    else if ltb (old_file.offset + old_file.compressed_size) (2 ^ 64)
    then find_free_space_inner table desired_size (patch_old file_start_block file_end_block)
    else panic

-- `size_on_wire`.
unfoldable pub size_on_wire : BlockAllocTable → ℕ
size_on_wire table = length table.blocks * 8 + 4 + 2
