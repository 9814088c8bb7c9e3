-- ===== src/Arh/State.antt =====
-- ardain/src/arh.rs: `Arh` and its offsets, `prepare_for_write` and `get_or_init_ext`; the section of
-- ardain/src/arh_ext.rs that it holds, and ardain/src/opts.rs. `none` is a panic.
pub mod Layout
use ard_tools.Base.{
  ℕ, zero, suc, ◌+◌, ◌-◌, ◌*◌, ◌%◌, ◌/◌, ◌^◌, ◌≤◌, ◌<◌, ◌≡◌, refl, ◌∙◌, ap, Bool, true, false, not,
  ◌&&◌, ◌||◌, Option, none, some, List, [], ◌∷◌, ◌++◌, arith, ltb, leb, ◌==◌, if◌then◌else◌, length,
}
use ard_tools.Arh.Node.{DictNode}
use ard_tools.Arh.Meta.{FileMeta}
use ard_tools.Arh.Recycle
use ard_tools.Arh.Recycle.{FileRecycleBin}
use ard_tools.Arh.Blocks
use ard_tools.Arh.Blocks.{BlockAllocTable}
use ard_tools.Base.Partial.{◌>>=◌}

pub record ArhExtSection : Type 0 where
  pub allocated_blocks : BlockAllocTable
  pub file_meta_recycle_bin : FileRecycleBin

pub record ArhOptions : Type 0 where
  pub ext_block_size_pow : ℕ
  pub ext_force_block_size : Bool

-- `ArhOptions::default`.
abbrev pub default_options : ArhOptions
default_options = record { ext_block_size_pow = 9; ext_force_block_size = false }

pub record ArhOffsets : Type 0 where
  pub path_dict_node_count : ℕ
  pub str_table_offset : ℕ
  pub str_table_len : ℕ
  pub path_dict_offset : ℕ
  pub path_dict_len : ℕ
  pub file_table_offset : ℕ
  pub file_table_len : ℕ

-- The archive: `string_table` and `path_dict` are the fields of its `EncryptedSection`.
pub record Arh : Type 0 where
  pub str_table_len_dup : ℕ
  pub offsets : ArhOffsets
  pub key : ℕ
  pub arh_ext_offset : Option ℕ
  pub string_table : List ℕ
  pub path_dict : List DictNode
  pub file_table : List FileMeta
  pub arh_ext_section : Option ArhExtSection

abbrev pub key_xor : ℕ
key_xor = 0xF3F35353

-- `try_into` a `u32`, with its `expect`.
abbrev pub as_u32 : ℕ → Option ℕ
as_u32 n = if ltb n (2 ^ 32) then some n else none

-- `ArhExtSection::new`.
unfoldable pub new_section : List FileMeta → ℕ → ArhExtSection
new_section files pow = record {
  allocated_blocks = Blocks.new files pow;
  file_meta_recycle_bin = Recycle.empty;
}

-- `ArhExtSection::calc_size`.
unfoldable pub calc_size : ArhExtSection → Option ℕ
calc_size ext =
    as_u32 (
      Blocks.size_on_wire ext.allocated_blocks + Recycle.size_on_wire ext.file_meta_recycle_bin + 4)

-- The condition under which `get_or_init_ext` keeps a section.
abbrev pub keeps_section : ArhOptions → ArhExtSection → Bool
keeps_section opts ext =
    not opts.ext_force_block_size && ext.allocated_blocks.block_size_pow == opts.ext_block_size_pow

abbrev pub init_section : List FileMeta → ArhOptions → Option ArhExtSection → ArhExtSection
init_section files opts none = new_section files opts.ext_block_size_pow
init_section files opts (some ext) =
    if keeps_section opts ext then ext else new_section files opts.ext_block_size_pow

-- `Arh::get_or_init_ext`: the section, which the archive then holds.
unfoldable pub get_or_init_ext : Arh → ArhOptions → ArhExtSection
get_or_init_ext arh opts = init_section arh.file_table opts arh.arh_ext_section

-- The closure `add_and_align`.
unfoldable pub add_and_align : ℕ → ℕ → ℕ → Option ℕ
add_and_align ofs n size = do sum ← as_u32 (ofs + size); as_u32 ((sum + n - 1) / n * n)

-- What `prepare_for_write` does for the extended section: its offset, and where the next part begins.
abbrev pub place_section : Option ℕ → Option ArhExtSection → ℕ → Option (Option ℕ × ℕ)
place_section old none offset = some (old, offset)
place_section old (some ext) offset = do
  size ← calc_size ext
  next ← add_and_align offset 16 size
  some (some offset, next)

-- `Arh::prepare_for_write`.
unfoldable pub prepare_for_write : Arh → Option Arh
prepare_for_write arh = do
  file_table_len ← as_u32 (length arh.file_table)
  str_table_len ← as_u32 (length arh.string_table)
  path_dict_len ← as_u32 (length arh.path_dict * 8)
  (ext_offset, str_table_offset) ← place_section arh.arh_ext_offset arh.arh_ext_section 0x30
  path_dict_offset ← add_and_align str_table_offset 32 str_table_len
  path_dict_node_count ← as_u32 (length arh.path_dict)
  file_table_offset ← add_and_align path_dict_offset 32 path_dict_len
  some (record arh {
    key = key_xor;
    arh_ext_offset = ext_offset;
    str_table_len_dup = str_table_len;
    offsets = record {
      path_dict_node_count = path_dict_node_count;
      str_table_offset = str_table_offset;
      str_table_len = str_table_len;
      path_dict_offset = path_dict_offset;
      path_dict_len = path_dict_len;
      file_table_offset = file_table_offset;
      file_table_len = file_table_len;
    };
  })
