-- ===== src/Arh/Checks.antt =====
-- ardain/src/arh.rs and ardain/src/arh_ext.rs: the model run on inputs, and the theorems at inputs.
use ard_tools.Base.{
  ℕ, zero, suc, ◌+◌, ◌*◌, ◌/◌, ◌%◌, ◌^◌, ◌≤◌, ◌≡◌, ◌⊎◌, refl, true, false, ◌&&◌, ◌||◌, none, some,
  List, [], ◌∷◌, ◌++◌, arith, ltb, leb, ◌==◌, if◌then◌else◌, length, get_elem?, take, ok,
  binary_search,
}
use ard_tools.Bits
use ard_tools.Arh.Node.{
  DictNode, free, root, occupied, leaf, from_raw, to_raw, is_lost, from_raw-to_raw,
}
use ard_tools.Arh.Strings
use ard_tools.Arh.Strings.{push, get_str_part_id}
use ard_tools.Arh.Strings.Laws.{get-push}
use ard_tools.Arh.Strings.Reader.{little_endian, read_four}
use ard_tools.Arh.Meta
use ard_tools.Arh.Meta.{FileMeta, FileFlag, hidden, has_xbc1_header, is_flag, set_flag, new_invalid}
use ard_tools.Arh.Recycle
use ard_tools.Arh.Recycle.{FileRecycleBin, push-IsValid, pop_cases}
use ard_tools.Arh.Dict
use ard_tools.Arh.Dict.Free.{IsLinked, IsFreed, free_node_recursive_total}
use ard_tools.Arh.Blocks
use ard_tools.Arh.Blocks.{BlockAllocTable}
use ard_tools.Arh.Blocks.Mark.{occupied_at, mark_occupied, mark_freed, mark_frees_neighbour}
use ard_tools.Arh.Blocks.Space.{find_free_space_sound}
use ard_tools.Arh.State
use ard_tools.Arh.State.{Arh, ArhExtSection}
use ard_tools.Arh.Decrypt
use ard_tools.Arh.Decrypt.{decrypt, decrypt_twice}
use ard_tools.Arh.State.Layout.{IsLaidOut, prepare_layout, section_overlap, wire_len}

program : Unit {0}
unfolding read_four binary_search Bits.leading_zeros Bits.trailing_zeros Strings.utf8_from
    Strings.until_nul Strings.push Strings.entry Strings.get_str_part_id Dict.any_child
    Dict.free_loop Dict.free_node_recursive Meta.push_entry Meta.delete_entry Recycle.push
    Recycle.pop Recycle.size_on_wire Blocks.size_on_wire Blocks.mark_block Blocks.mark_range
    Blocks.mark_start Blocks.mark_end Blocks.mark Blocks.mark_all Blocks.new Blocks.scan_slot
    Blocks.find_in_slot Blocks.find_loop Blocks.find_at_end Blocks.find_blocks
    Blocks.find_free_space_inner Blocks.find_free_space State.calc_size State.add_and_align
    State.prepare_for_write Decrypt.xor_chunks Decrypt.decrypt
program = tt

from_raw-to_raw_example :
    ((is_lost (leaf 5 7) ≡ false) × (from_raw (to_raw (leaf 5 7)) ≡ some (leaf 5 7)))
    ⊎ ((is_lost (leaf 5 7) ≡ true)
        × ((p : ℕ) × (leaf 5 7 ≡ leaf p 0) × (from_raw (to_raw (leaf 5 7)) ≡ some (occupied p 0))))
from_raw-to_raw_example = from_raw-to_raw (leaf 5 7) (omega arith, omega arith)

-- "b", of file 3, behind nothing, and then "c", of file 4.
abbrev strings_b : List ℕ
strings_b = b'b' ∷ 0 ∷ 3 ∷ 0 ∷ 0 ∷ 0 ∷ []

abbrev strings_bc : List ℕ
strings_bc = strings_b ++ b'c' ∷ 0 ∷ 4 ∷ 0 ∷ 0 ∷ 0 ∷ []

push_runs : push strings_b (b'c' ∷ []) 4 ≡ some (strings_bc, 6)
unfolding program
push_runs = refl

old_runs : get_str_part_id little_endian strings_b 0 ≡ some (b'b' ∷ [], 3)
unfolding program
old_runs = refl

get-push_example : get_str_part_id little_endian strings_bc 6 ≡ some (b'c' ∷ [], 4)
get-push_example =
    get-push little_endian strings_b (b'c' ∷ []) 4 ((omega arith, omega arith), tt) (omega arith)
      push_runs

abbrev small_file : FileMeta
small_file = record {
  offset = 512;
  compressed_size = 700;
  uncompressed_size = 0;
  flags = 2;
  id = 1;
}

abbrev next_file : FileMeta
next_file = record { offset = 1212; compressed_size = 10; uncompressed_size = 0; flags = 0; id = 2 }

abbrev bin_of_one : FileRecycleBin
bin_of_one = record { len = 1; file_ids = 1 ∷ [] }

abbrev two_metas : List FileMeta
two_metas = new_invalid ∷ new_invalid ∷ []

push_entry_runs :
    Meta.push_entry two_metas small_file (some bin_of_one)
    ≡ some (new_invalid ∷ small_file ∷ [], some Recycle.empty, 1)
unfolding program
push_entry_runs = refl

pop_runs : Recycle.pop bin_of_one ≡ (some 1, Recycle.empty)
unfolding program
pop_runs = refl

bin_of_one-IsValid : Recycle.IsValid bin_of_one
bin_of_one-IsValid = record { ascending = (tt, tt); counted = refl }

push-IsValid_example :
    Recycle.IsValid (Recycle.push bin_of_one 5)
    × (Recycle.contains 1 (Recycle.push bin_of_one 5).file_ids
        ≡ (1 == 5 || Recycle.contains 1 (1 ∷ [])))
push-IsValid_example = push-IsValid bin_of_one 5 1 bin_of_one-IsValid

abbrev two_nodes : List DictNode
two_nodes = root 0 ∷ leaf 0 1 ∷ []

two_nodes-IsLinked : IsLinked two_nodes
two_nodes-IsLinked zero p node here link = cc
two_nodes-IsLinked (suc zero) p node here link = ground arith
two_nodes-IsLinked (suc (suc i)) p node here link = cc

free_node_recursive_total_example :
    (freed : List DictNode) × (Dict.free_node_recursive two_nodes 1 ≡ some freed)
    × IsFreed two_nodes freed
    × (get_elem? freed 1 ≡ some free)
free_node_recursive_total_example =
    free_node_recursive_total two_nodes 1 (omega arith) two_nodes-IsLinked

free_runs : Dict.free_node_recursive two_nodes 1 ≡ some (free ∷ free ∷ [])
unfolding program
free_runs = refl

-- Blocks of 512 bytes, of which the first is occupied.
abbrev one_block : BlockAllocTable
one_block = record { block_size_pow = 9; block_arr_count = 1; blocks = 2 ^ 63 ∷ [] }

mark_occupied_example : 1 ≤ occupied_at (Blocks.mark one_block small_file true).blocks 2
mark_occupied_example = mark_occupied one_block small_file 2 (omega arith)

mark_freed_example : occupied_at (Blocks.mark one_block small_file false).blocks 2 ≡ 0
mark_freed_example = mark_freed one_block small_file 2 (omega arith)

mark_frees_neighbour_example :
    occupied_at (Blocks.mark (Blocks.mark one_block next_file true) small_file false).blocks 2 ≡ 0
mark_frees_neighbour_example =
    mark_frees_neighbour one_block small_file next_file (omega arith) refl refl

find_runs : Blocks.find_free_space one_block 600 ≡ ok 512
unfolding program
find_runs = refl

find_free_space_sound_example :
    (512 % 2 ^ 9 ≡ 0)
    × ((if leb (512 / 2 ^ 9) 2 && ltb (2 * 2 ^ 9) (512 + 600)
          then occupied_at (2 ^ 63 ∷ []) 2
          else 0)
        ≡ 0)
find_free_space_sound_example =
    find_free_space_sound one_block 600 2 (omega arith) (omega arith, tt) find_runs

-- An archive without data, with an extended section that was just made.
abbrev small_section : ArhExtSection
small_section = record {
  allocated_blocks = record { block_size_pow = 9; block_arr_count = 0; blocks = [] };
  file_meta_recycle_bin = Recycle.empty;
}

abbrev small_arh : Arh
small_arh = record {
  str_table_len_dup = 0;
  offsets = record {
    path_dict_node_count = 0;
    str_table_offset = 0;
    str_table_len = 0;
    path_dict_offset = 0;
    path_dict_len = 0;
    file_table_offset = 0;
    file_table_len = 0;
  };
  key = 0;
  arh_ext_offset = none;
  string_table = 0 ∷ [];
  path_dict = root 0 ∷ [];
  file_table = [];
  arh_ext_section = some small_section;
}

abbrev written_arh : Arh
written_arh = record small_arh {
  str_table_len_dup = 1;
  offsets = record {
    path_dict_node_count = 1;
    str_table_offset = 64;
    str_table_len = 1;
    path_dict_offset = 96;
    path_dict_len = 8;
    file_table_offset = 128;
    file_table_len = 0;
  };
  key = 0xF3F35353;
  arh_ext_offset = some 0x30;
}

write_runs : State.prepare_for_write small_arh ≡ some written_arh
unfolding program
write_runs = refl

prepare_layout_example :
    IsLaidOut written_arh
    × (written_arh.string_table ≡ small_arh.string_table)
    × (written_arh.path_dict ≡ small_arh.path_dict)
    × (written_arh.file_table ≡ small_arh.file_table)
    × (written_arh.arh_ext_section ≡ small_arh.arh_ext_section)
prepare_layout_example = prepare_layout small_arh write_runs

section_overlap_example :
    (ltb 64 (0x30 + wire_len small_section) ≡ ((2 * 0 + 0) % 4 == 0))
    × (0x30 + wire_len small_section ≤ 64 + 2)
section_overlap_example = section_overlap small_arh small_section refl write_runs

-- Six bytes of a longer stream; the last two are no whole chunk.
abbrev masked_stream : List ℕ
masked_stream = 0x53 ∷ 0x52 ∷ 0xF1 ∷ 0xF0 ∷ 7 ∷ 8 ∷ 9 ∷ []

abbrev plain_bytes : List ℕ
plain_bytes = 0 ∷ 1 ∷ 2 ∷ 3 ∷ 7 ∷ 8 ∷ []

decrypt_runs : decrypt masked_stream 6 0 ≡ some plain_bytes
unfolding program
decrypt_runs = refl

decrypt_twice_example :
    (length plain_bytes ≡ 6)
    × (decrypt plain_bytes 6 0 ≡ some (take 6 masked_stream))
    × (decrypt masked_stream 6 State.key_xor ≡ some (take 6 masked_stream))
decrypt_twice_example = decrypt_twice masked_stream 6 0 decrypt_runs
