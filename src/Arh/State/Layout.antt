-- ===== src/Arh/State/Layout.antt =====
-- ardain/src/arh.rs: where `prepare_for_write` places the parts of the file. docs/arh.md and the
-- types of ardain/src/arh_ext.rs say how many bytes each part takes.
use ard_tools.Base.{
  ℕ, ◌+◌, ◌-◌, ◌*◌, ◌%◌, ◌/◌, ◌≤◌, ◌≡◌, Option, none, some, arith, ltb, ◌==◌, length,
}
use ard_tools.Arh.Blocks
use ard_tools.Arh.Recycle
use ard_tools.Arh.State.{
  Arh, ArhExtSection, add_and_align, calc_size, place_section, prepare_for_write,
}

add_and_align-eq :
    (ofs n size : ℕ) {r : ℕ} → add_and_align ofs n size ≡ some r → r ≡ (ofs + size + n - 1) / n * n
unfolding add_and_align
add_and_align-eq ofs n size e = ground arith

-- What holds of an archive that is ready to be written.
pub record IsLaidOut (arh : Arh) : Type 0 where
  pub strings_len : arh.offsets.str_table_len ≡ length arh.string_table
  pub dict_len : arh.offsets.path_dict_len ≡ length arh.path_dict * 8
  pub node_count : arh.offsets.path_dict_node_count ≡ length arh.path_dict
  pub file_count : arh.offsets.file_table_len ≡ length arh.file_table
  pub after_header : 0x30 ≤ arh.offsets.str_table_offset
  pub strings_fit :
      arh.offsets.str_table_offset + length arh.string_table ≤ arh.offsets.path_dict_offset
  pub dict_fits :
      arh.offsets.path_dict_offset + length arh.path_dict * 8 ≤ arh.offsets.file_table_offset
  pub dict_aligned : arh.offsets.path_dict_offset % 32 ≡ 0
  pub files_aligned : arh.offsets.file_table_offset % 32 ≡ 0

place_section-le :
    (old : Option ℕ) (ext : Option ArhExtSection) (offset : ℕ) {placed : Option ℕ} {next : ℕ}
    → place_section old ext offset ≡ some (placed, next)
    → offset ≤ next
unfolding add_and_align
place_section-le old none offset e = ground arith
place_section-le old (some ext) offset {placed} {next} e = ground arith

layout_of_write : (arh : Arh) {w : Arh} → prepare_for_write arh ≡ some w → IsLaidOut w
unfolding prepare_for_write add_and_align
layout_of_write arh {w} e = record {
  strings_len = ground arith;
  dict_len = ground arith;
  node_count = ground arith;
  file_count = ground arith;
  after_header = ground arith;
  strings_fit = ground arith;
  dict_fits = ground arith;
  dict_aligned = ground arith;
  files_aligned = ground arith;
}

-- Where `prepare_for_write` succeeds, it keeps the tables and the section, and lays the file out: the lengths in the header are those
-- of the tables, and string table, path dictionary and file table follow the 48 bytes of the header
-- in this order without touching each other, the latter two at multiples of 32.
pub prepare_layout :
    (arh : Arh) {w : Arh}
    → prepare_for_write arh ≡ some w
    → IsLaidOut w
      × (w.string_table ≡ arh.string_table)
      × (w.path_dict ≡ arh.path_dict)
      × (w.file_table ≡ arh.file_table)
      × (w.arh_ext_section ≡ arh.arh_ext_section)
unfolding prepare_for_write
prepare_layout arh e =
    (layout_of_write arh e, ground arith, ground arith, ground arith, ground arith)

-- The bytes of the extended section in the file: its magic, a `u16` and a `u64`,
-- the slots, a `u32` and the recycled ids.
abbrev pub wire_len : ArhExtSection → ℕ
wire_len ext =
    4
    + (2 + 8 + 8 * length ext.allocated_blocks.blocks)
    + (4 + 4 * length ext.file_meta_recycle_bin.file_ids)

-- Where `prepare_for_write` succeeds with an extended section: the section, written after the header of
-- 48 bytes, ends behind the string table's start exactly if twice its slots plus its recycled ids is a
-- multiple of 4, and then at most two bytes behind. (`calc_size` counts 4 bytes less than the section
-- has. The gap up to the next multiple of 16 hides that in the other cases.)
pub section_overlap :
    (arh : Arh) (ext : ArhExtSection) {w : Arh}
    → arh.arh_ext_section ≡ some ext
    → prepare_for_write arh ≡ some w
    → let slots = length ext.allocated_blocks.blocks in
      let ids = length ext.file_meta_recycle_bin.file_ids in
      (ltb w.offsets.str_table_offset (0x30 + wire_len ext) ≡ ((2 * slots + ids) % 4 == 0))
      × (0x30 + wire_len ext ≤ w.offsets.str_table_offset + 2)
unfolding prepare_for_write add_and_align calc_size Blocks.size_on_wire Recycle.size_on_wire
section_overlap arh ext has e =
    let slots = length ext.allocated_blocks.blocks in
    let ids = length ext.file_meta_recycle_bin.file_ids in (ground arith, ground arith)
