-- ===== src/Arh/Meta.antt =====
-- ardain/src/arh.rs: `FileMeta`, its flags, and `FileTable`.
pub mod Flags
pub mod Table
use ard_tools.Base.{
  ℕ, zero, suc, ◌+◌, ◌-◌, ◌*◌, ◌^◌, ◌≤◌, ◌<◌, ◌≡◌, refl, ◌∙◌, ap, ◌≢◌, ◌⊎◌, inl, inr, Bool, true,
  false, not, ◌&&◌, ◌||◌, Option, none, some, List, [], ◌∷◌, ◌++◌, arith, ltb, leb, ◌==◌,
  if◌then◌else◌, length, get_elem?, set, bit_and, bit_or,
}
use ard_tools.Bits.{complement}
use ard_tools.Arh.Recycle
use ard_tools.Arh.Recycle.{FileRecycleBin}

pub record FileMeta : Type 0 where
  pub offset : ℕ
  pub compressed_size : ℕ
  pub uncompressed_size : ℕ
  pub flags : ℕ
  pub id : ℕ

pub data FileFlag : Type 0 where
  hidden has_xbc1_header : FileFlag

-- `flag as u32`.
abbrev pub flag_number : FileFlag → ℕ
flag_number hidden = 0
flag_number has_xbc1_header = 1

-- `FileMeta::new_invalid`, and the default that `mem::take` leaves.
abbrev pub new_invalid : FileMeta
new_invalid = record { offset = 0; compressed_size = 0; uncompressed_size = 0; flags = 0; id = 0 }

unfoldable pub actual_size : FileMeta → ℕ
actual_size m = if not (m.uncompressed_size == 0) then m.uncompressed_size else m.compressed_size

unfoldable pub is_flag : FileMeta → FileFlag → Bool
is_flag m flag = not (bit_and m.flags (2 ^ flag_number flag) == 0)

unfoldable pub set_flag : FileMeta → FileFlag → Bool → FileMeta
set_flag m flag value =
    if value
    then record m { flags = bit_or m.flags (2 ^ flag_number flag) }
    else record m { flags = bit_and m.flags (complement 32 (2 ^ flag_number flag)) }

-- `get_meta` and `get_meta_mut` of a file table.
abbrev pub get_meta : List FileMeta → ℕ → Option FileMeta
get_meta files file_id = get_elem? files file_id

-- `FileTable::push_entry` behind `recycle_bin.and_then(FileRecycleBin::pop)`: the table and the new
-- entry's id. `none` is a panic: a recycled id out of the table, or a table that is full.
abbrev pub place_entry : List FileMeta → FileMeta → Option ℕ → Option (List FileMeta × ℕ)
place_entry files meta (some id) =
    if ltb id (length files) then some (set files id meta, id) else none
place_entry files meta none =
    let id = length files in
    if ltb id (2 ^ 32) then some (files ++ record meta { id = id } ∷ [], id) else none

abbrev pub pop_bin : Option FileRecycleBin → Option ℕ × Option FileRecycleBin
pop_bin none = (none, none)
pop_bin (some bin) = let (id, rest) = Recycle.pop bin in (id, some rest)

-- `FileTable::push_entry`, with the bin that it leaves.
unfoldable pub push_entry :
    List FileMeta
    → FileMeta
    → Option FileRecycleBin
    → Option (List FileMeta × Option FileRecycleBin × ℕ)
push_entry files meta bin =
    let (recycled, rest) = pop_bin bin in
    elim (place_entry files meta recycled) [
      | none ↦ none
      | some (table, id) ↦ some (table, rest, id)
    ]

-- `FileTable::delete_entry`: the table with the entry blanked, and what the entry was.
unfoldable pub delete_entry : List FileMeta → ℕ → List FileMeta × Option FileMeta
delete_entry files file_id = (set files file_id new_invalid, get_elem? files file_id)
