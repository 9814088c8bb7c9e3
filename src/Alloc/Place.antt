-- ===== src/Alloc/Place.antt =====
-- ardain/src/file_alloc.rs: the blocks that a file takes, and what a replacement changes.
use ard_tools.Base.{
  ℕ, ◌+◌, ◌-◌, ◌*◌, ◌/◌, ◌%◌, ◌^◌, ◌<◌, ◌≤◌, ◌≡◌, inl, inr, ◌∙◌, Bool, true, false, ◌&&◌, some,
  List, arith, ltb, leb, ◌==◌, if◌then◌else◌, get_elem?, get_elem?-set_self, get_elem?-set_ne,
  lt_of_get_elem?, set, All, ℕ_discrete, Bool-cases, ok,
}
use ard_tools.Arh.Meta.{FileMeta}
use ard_tools.Arh.Blocks
use ard_tools.Bits.{bit-le}
use ard_tools.Arh.Blocks.{BlockAllocTable, slot_at, div_ceil, find_free_space, find_space_replace}
use ard_tools.Arh.Blocks.Mark.{occupied_at, mark_occupied, block_size_pow-mark}
use ard_tools.Arh.Blocks.Space.{find_free_space_sound}

-- Whether one of a file's bytes lies in the block `k`, on blocks of `unit` bytes.
abbrev pub touches : ℕ → FileMeta → ℕ → Bool
touches unit m k =
    ltb 0 m.compressed_size
    && leb (m.offset / unit) k
    && ltb (k * unit) (m.offset + m.compressed_size)

pub mark-empty :
    (t : BlockAllocTable) (m : FileMeta) (v : Bool) → m.compressed_size ≡ 0 → Blocks.mark t m v ≡ t
unfolding Blocks.mark
mark-empty t m v e = ground arith

pub mark-touches :
    (t : BlockAllocTable) (m : FileMeta) (k : ℕ)
    → (if touches (2 ^ t.block_size_pow) m k then 1 else occupied_at t.blocks k)
      ≤ occupied_at (Blocks.mark t m true).blocks k
mark-touches t m k = elim (Bool-cases (ltb 0 m.compressed_size)) [
  | inl some_bytes ↦ ground (arith, mark_occupied t m k (ground arith))
  | inr no_bytes ↦
      (let same : Blocks.mark t m true ≡ t = mark-empty t m true (ground arith) in
        rw same (ground arith))
]

pub free_place :
    (t : BlockAllocTable) (m : FileMeta) (k : ℕ)
    → All (λ w. w < 2 ^ 64) t.blocks
    → find_free_space t m.compressed_size ≡ ok m.offset
    → ((if ltb 0 m.compressed_size then m.offset % 2 ^ t.block_size_pow else 0) ≡ 0)
      × ((if touches (2 ^ t.block_size_pow) m k then occupied_at t.blocks k else 0) ≡ 0)
free_place t m k words e = elim (Bool-cases (ltb 0 m.compressed_size)) [
  | inl some_bytes ↦
      let (aligned, vacant) = find_free_space_sound t m.compressed_size k (ground arith) words e in
      (ground arith, ground (arith, vacant))
  | inr no_bytes ↦ (ground arith, ground arith)
]

pub set-at :
    (files : List FileMeta) (m : FileMeta) (id j : ℕ) {file : FileMeta}
    → get_elem? files id ≡ some file
    → get_elem? (set files id m) j ≡ (if j == id then some m else get_elem? files j)
set-at files m id j {file} found = elim (ℕ_discrete j id) [
  | yes here ↦
      rw here (get_elem?-set_self files id m (lt_of_get_elem? files id file found) ∙ ground arith)
  | no other ↦ get_elem?-set_ne files {i = id} {j = j} m (λ f. other (ground arith)) ∙ ground arith
]

-- What a replacement did: to the file table at `j`, and to the block `k`.
abbrev pub Replaced :
    BlockAllocTable
    → List FileMeta
    → BlockAllocTable
    → List FileMeta
    → ℕ
    → ℕ
    → ℕ
    → FileMeta
    → FileMeta
    → Type 0
Replaced t files t' files' id j k file m =
    (get_elem? files id ≡ some file)
    × (get_elem? files' j ≡ (if j == id then some m else get_elem? files j))
    × ((if touches (2 ^ t.block_size_pow) m k then 1 else 0) ≤ occupied_at t'.blocks k)
    × ((if leb m.compressed_size file.compressed_size then m.offset else file.offset) ≡ file.offset)
    × ((if leb m.compressed_size file.compressed_size then occupied_at t.blocks k else 0)
        ≤ occupied_at t'.blocks k)

pub Replaced-in_place :
    (t : BlockAllocTable) (files : List FileMeta) {t' : BlockAllocTable} {files' : List FileMeta}
    (id j k : ℕ) (file m : FileMeta)
    → get_elem? files id ≡ some file
    → m.offset ≡ file.offset
    → t' ≡ Blocks.mark t m true
    → files' ≡ set files id m
    → Replaced t files t' files' id j k file m
Replaced-in_place t files id j k file m found here table changed =
    let kept = mark-touches t m k in
    (
      found,
      rw changed (set-at files m id j found),
      rw table (ground (arith, kept, bit-le (slot_at t.blocks (k / 64)) (63 - k % 64))),
      ground arith,
      rw table (ground (arith, kept, bit-le (slot_at t.blocks (k / 64)) (63 - k % 64))),
    )

pub Replaced-moved :
    (t : BlockAllocTable) (files : List FileMeta) {t' : BlockAllocTable} {files' : List FileMeta}
    (id j k : ℕ) (file m : FileMeta)
    → get_elem? files id ≡ some file
    → file.compressed_size < m.compressed_size
    → t' ≡ Blocks.mark (Blocks.mark t file false) m true
    → files' ≡ set files id m
    → Replaced t files t' files' id j k file m
Replaced-moved t files id j k file m found longer table changed =
    let kept = mark-touches (Blocks.mark t file false) m k in
    let unit = block_size_pow-mark t file false in
    (
      found,
      rw changed (set-at files m id j found),
      rw table (ground (arith, rw unit at kept)),
      ground arith,
      ground arith,
    )
