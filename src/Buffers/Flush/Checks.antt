-- ===== src/Buffers/Flush/Checks.antt =====
-- fuse-ard/src/write.rs: the flush run on inputs, and its theorems at inputs.
use ard_tools.Base.{
  ℕ, ◌≡◌, ◌⊎◌, refl, Bool, true, false, Option, none, some, List, [], ◌∷◌, arith, set, take, drop,
  Run, ok, err, panic, binary_search,
}
use ard_tools.Bits
use ard_tools.Arh.Meta
use ard_tools.Arh.Meta.{FileMeta, new_invalid, get_meta}
use ard_tools.Arh.Dict
use ard_tools.Arh.Blocks
use ard_tools.Arh.Recycle
use ard_tools.Arh.State
use ard_tools.Arh.Strings
use ard_tools.Arh.Strings.Reader.{little_endian, read_four}
use ard_tools.Fs.Tree
use ard_tools.Fs.Error.{Error, io}
use ard_tools.Fs.Lookup
use ard_tools.Fs.Create
use ard_tools.Fs.System
use ard_tools.Fs.System.{ArhFileSystem, file_id, get_file_info}
use ard_tools.Ard
use ard_tools.Ard.{skip_take, read_range}
use ard_tools.Alloc
use ard_tools.Buffers
use ard_tools.Buffers.{FileBuffer, run_all}
use ard_tools.Buffers.Flush
use ard_tools.Buffers.Flush.{ArdFile, Flushed, flush, flush_all}
use ard_tools.Buffers.Flush.Sample.{
  grown_file, grown-IsFile, counted_lib, counted, counted-IsFormat, path_ab, path_ac, one_fs,
  recycled_fs, greeting, buffer_of,
}
use ard_tools.Buffers.Flush.ReadBack.{flush_stale_id}
use ard_tools.Buffers.Flush.Errors.{
  flush_failed, flush_all-AllDrained, AllDrained, InOrder, SameFiles, IsUnflushed,
}

program : Unit {0}
unfolding read_four binary_search Bits.leading_zeros Bits.trailing_zeros Strings.utf8_from
    Strings.until_nul Strings.push Strings.entry Strings.get_str_part_id Dict.any_child
    Dict.free_loop Dict.free_node_recursive Dict.grow Dict.fix_links Dict.move_child
    Dict.move_children Dict.allocate_new_block Meta.push_entry Meta.delete_entry Meta.set_flag
    Recycle.push Recycle.pop Blocks.mark_block Blocks.mark_range Blocks.mark_start Blocks.mark_end
    Blocks.mark Blocks.mark_all Blocks.new Blocks.scan_slot Blocks.find_in_slot Blocks.find_loop
    Blocks.find_at_end Blocks.find_blocks Blocks.find_free_space_inner Blocks.find_free_space
    Blocks.find_space_replace Blocks.patch_old State.new_section State.get_or_init_ext
    Tree.compare_text Tree.search_child Tree.split_first Tree.insert_entry Tree.remove_entry
    Tree.insert_file_entry Tree.remove_file_entry Lookup.walk Lookup.walk_root Lookup.resolve
    Lookup.get_file_id Create.follow Create.attach_at Create.occupy_node Create.occupy_block
    Create.extend_path Create.share_path Create.part_names Create.split_leaf Create.diverge
    Create.find_place System.get_file_info System.add_leaf System.create_file System.delete_entry_of
    System.delete_file Alloc.size_on_disk Alloc.entry_bytes Alloc.compress_data Alloc.update_meta
    Alloc.replace_file Alloc.new Ard.read_plain Ard.read_at Ard.read_compressed Ard.read
    Ard.read_range Buffers.copy_at Buffers.run_write Buffers.run Buffers.run_all Flush.store
    Flush.flush Flush.flush_all
program = tt

abbrev of_ok : Run (Unit {0}) Flushed → Flushed
of_ok (ok now) = now
of_ok (err e) = record { buffer = buffer_of []; arh = one_fs; ard = []; result = none }
of_ok panic = record { buffer = buffer_of []; arh = one_fs; ard = []; result = none }

abbrev is_ok : Run (Unit {0}) Flushed → Bool
is_ok (ok now) = true
is_ok (err e) = false
is_ok panic = false

of_ok-ok : (r : Run (Unit {0}) Flushed) → is_ok r ≡ true → r ≡ ok (of_ok r)
of_ok-ok (ok now) h = refl
of_ok-ok (err e) h = cc
of_ok-ok panic h = cc

-- "/ac" of the archive with a recycled entry.
abbrev stale : Flushed
stale =
    of_ok (flush little_endian counted counted_lib grown_file (buffer_of path_ac) recycled_fs [])

stale_found :
    (file_id little_endian recycled_fs path_ac ≡ ok (1, 483))
    × (get_meta recycled_fs.arh.file_table 1 ≡ some new_invalid)
unfolding program
stale_found = (refl, refl)

stale_reads :
    (Ard.read counted [] (Ard.entry new_invalid) ≡ ok [])
    × (run_all (buffer_of path_ac).operations [] ≡ ok greeting)
unfolding program
stale_reads = (refl, refl)

stale_ends :
    is_ok (flush little_endian counted counted_lib grown_file (buffer_of path_ac) recycled_fs [])
    ≡ true
unfolding program
stale_ends = refl

stale_runs :
    flush little_endian counted counted_lib grown_file (buffer_of path_ac) recycled_fs [] ≡ ok stale
stale_runs =
    of_ok-ok (flush little_endian counted counted_lib grown_file (buffer_of path_ac) recycled_fs [])
      stale_ends

stale_result : stale.result ≡ none
unfolding program
stale_result = refl

flush_stale_id_example :
    (m : FileMeta) × (get_file_info little_endian stale.arh path_ac ≡ ok new_invalid)
    × (stale.buffer.operations ≡ [])
    × (stale.arh.arh.file_table ≡ set recycled_fs.arh.file_table 0 m)
    × (get_meta stale.arh.arh.file_table 0 ≡ some m)
    × (read_range counted stale.ard (skip_take (Ard.entry m) 1 2) ≡ ok (take 2 (drop 1 greeting)))
flush_stale_id_example =
    flush_stale_id little_endian counted counted_lib grown_file (buffer_of path_ac) recycled_fs []
      [] greeting stale_found.0 stale_found.1 stale_reads.0 stale_reads.1 1 2 grown-IsFile
      counted-IsFormat (λ e. cc) (omega arith) (omega arith) stale_runs stale_result

-- A file that cannot be written.
abbrev full_file : ArdFile
full_file = record grown_file { write_at = λ bytes offset payload. none }

abbrev refused : Flushed
refused = of_ok (flush little_endian counted counted_lib full_file (buffer_of path_ab) one_fs [])

refused_ends :
    is_ok (flush little_endian counted counted_lib full_file (buffer_of path_ab) one_fs []) ≡ true
unfolding program
refused_ends = refl

refused_runs :
    flush little_endian counted counted_lib full_file (buffer_of path_ab) one_fs [] ≡ ok refused
refused_runs =
    of_ok-ok (flush little_endian counted counted_lib full_file (buffer_of path_ab) one_fs [])
      refused_ends

refused_result : refused.result ≡ some io
unfolding program
refused_result = refl

flush_failed_example :
    ((refused.buffer ≡ buffer_of path_ab)
      × (refused.arh ≡ one_fs)
      × (refused.ard ≡ [])
      × ((meta : FileMeta) × (get_file_info little_endian one_fs path_ab ≡ ok meta)
          × (Ard.read counted [] (Ard.entry meta) ≡ err io)))
    ⊎ ((refused.buffer ≡ record { path = path_ab; operations = [] })
        × (SameFiles little_endian counted counted_lib full_file one_fs refused.arh
            ⊎ IsUnflushed little_endian counted counted_lib full_file
                (buffer_of path_ab)
                one_fs
                []
                refused))
flush_failed_example =
    flush_failed little_endian counted counted_lib full_file (buffer_of path_ab) one_fs []
      refused_runs refused_result

-- "/ac", and a path without a file.
abbrev open_files : List FileBuffer
open_files = buffer_of path_ac ∷ buffer_of (b'/' ∷ b'z' ∷ []) ∷ []

abbrev AllFlushed : Type 0
AllFlushed = List FileBuffer × ArhFileSystem × List ℕ × Option Error

abbrev of_all : Run (Unit {0}) AllFlushed → AllFlushed
of_all (ok all) = all
of_all (err e) = ([], one_fs, [], none)
of_all panic = ([], one_fs, [], none)

abbrev all_ended : Run (Unit {0}) AllFlushed → Bool
all_ended (ok (files, last, bytes, none)) = true
all_ended (ok (files, last, bytes, some e)) = false
all_ended (err e) = false
all_ended panic = false

of_all-ok :
    (r : Run (Unit {0}) AllFlushed)
    → all_ended r ≡ true
    → r ≡ ok ((of_all r).0, (of_all r).1, (of_all r).2, none)
of_all-ok (ok (files, last, bytes, none)) h = refl
of_all-ok (ok (files, last, bytes, some e)) h = cc
of_all-ok (err e) h = cc
of_all-ok panic h = cc

abbrev all_run : Run (Unit {0}) AllFlushed
all_run = flush_all little_endian counted counted_lib grown_file open_files recycled_fs []

all_ends : all_ended all_run ≡ true
unfolding program
all_ends = refl

flush_all-AllDrained_example :
    AllDrained little_endian counted counted_lib grown_file recycled_fs open_files
      (of_all all_run).0
    × InOrder little_endian counted counted_lib grown_file recycled_fs [] open_files
        (of_all all_run).1
        (of_all all_run).2
flush_all-AllDrained_example =
    flush_all-AllDrained little_endian counted counted_lib grown_file open_files recycled_fs []
      (of_all-ok all_run all_ends)
