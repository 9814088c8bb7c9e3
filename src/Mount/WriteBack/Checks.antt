-- ===== src/Mount/WriteBack/Checks.antt =====
-- fuse-ard/src/fs.rs: a write, a flush and a read, run on an archive of one file.
use ard_tools.Base.{
  ◌≡◌, refl, ap, inr, Bool, true, false, some, [], ◌∷◌, arith, ok, err, panic, binary_search,
}
use ard_tools.Bits
use ard_tools.Arh.Meta
use ard_tools.Arh.Meta.{new_invalid, get_meta}
use ard_tools.Arh.Dict
use ard_tools.Arh.Blocks
use ard_tools.Arh.Recycle
use ard_tools.Arh.State
use ard_tools.Arh.Strings
use ard_tools.Arh.Strings.Reader.{little_endian, read_four}
use ard_tools.Fs.Tree
use ard_tools.Fs.Lookup
use ard_tools.Fs.Create
use ard_tools.Fs.System
use ard_tools.Fs.System.{file_id}
use ard_tools.Ard
use ard_tools.Alloc
use ard_tools.Buffers
use ard_tools.Buffers.Flush
use ard_tools.Buffers.Flush.Sample.{
  grown_file, grown-IsFile, counted_lib, counted, counted-IsFormat, path_ab, one_fs, greeting,
}
use ard_tools.Mount
use ard_tools.Mount.{
  Mount, Reply, get_path, error, entry, attr, listing, contents, opened, written, stats, done,
  no_reply,
}
use ard_tools.Mount.Handlers
use ard_tools.Mount.Handlers.{Handled, write_file, read}
use ard_tools.Mount.Sync
use ard_tools.Mount.Sync.{flush_file}
use ard_tools.Mount.WriteBack.{read-flush_file-write_file}

program : Unit {0}
unfolding read_four binary_search Bits.leading_zeros Bits.trailing_zeros Strings.utf8_from
    Strings.until_nul Strings.push Strings.entry Strings.get_str_part_id Dict.any_child
    Dict.free_loop Dict.free_node_recursive Dict.grow Dict.fix_links Dict.move_child
    Dict.move_children Dict.allocate_new_block Meta.push_entry Meta.delete_entry Meta.set_flag
    Recycle.push Recycle.pop Blocks.mark_block Blocks.mark_range Blocks.mark_start Blocks.mark_end
    Blocks.mark Blocks.mark_all Blocks.new Blocks.scan_slot Blocks.find_in_slot Blocks.find_loop
    Blocks.find_at_end Blocks.find_blocks Blocks.find_free_space_inner Blocks.find_free_space
    Blocks.find_space_replace Blocks.patch_old State.new_section State.get_or_init_ext
    Tree.compare_text Tree.search_child Tree.split_first Tree.insert_entry Tree.insert_file_entry
    Lookup.walk Lookup.walk_root Lookup.resolve Lookup.get_file_id Create.follow Create.attach_at
    Create.occupy_node Create.occupy_block Create.extend_path Create.share_path Create.part_names
    Create.split_leaf Create.diverge Create.find_place System.get_file_info System.add_leaf
    System.create_file Alloc.size_on_disk Alloc.entry_bytes Alloc.compress_data Alloc.update_meta
    Alloc.replace_file Alloc.new Ard.read_plain Ard.read_at Ard.read_compressed Ard.read
    Ard.read_range Buffers.copy_at Buffers.run_write Buffers.run Buffers.run_all Flush.store
    Flush.flush Mount.find_inode Mount.get_path Handlers.write_file Sync.flush_file
program = tt

-- "/ab" is open for writing, as inode 2 and with handle 0.
abbrev mounted : Mount
mounted = record {
  arh = one_fs;
  ard = some [];
  inode_cache = record { number = 2; path = path_ab; count = 1 } ∷ [];
  write_buffers = record { path = path_ab; operations = [] } ∷ [];
  uid = 1000;
  gid = 1000;
}

abbrev state_of : Handled → Mount
state_of (ok (m, reply)) = m
state_of (err e) = mounted
state_of panic = mounted

abbrev is_done : Reply → Bool
is_done done = true
is_done _ = false

abbrev ends_done : Handled → Bool
ends_done (ok (m, reply)) = is_done reply
ends_done (err e) = false
ends_done panic = false

is_done-done : (reply : Reply) → is_done reply ≡ true → reply ≡ done
is_done-done done h = refl
is_done-done (error e) h = cc
is_done-done (entry a) h = cc
is_done-done (attr a) h = cc
is_done-done (listing es) h = cc
is_done-done (contents bs) h = cc
is_done-done (opened fd) h = cc
is_done-done (written n) h = cc
is_done-done (stats b s n) h = cc
is_done-done no_reply h = cc

ends_done-ok : (r : Handled) → ends_done r ≡ true → r ≡ ok (state_of r, done)
ends_done-ok (ok (m, reply)) h = ap (λ a. ok (m, a)) (is_done-done reply h)
ends_done-ok (err e) h = cc
ends_done-ok panic h = cc

abbrev held : Mount
held = state_of (write_file mounted 0 0 greeting)

write_runs : write_file mounted 0 0 greeting ≡ ok (held, written 3)
unfolding Handlers.write_file
write_runs = refl

abbrev stored : Handled
stored = flush_file little_endian counted counted_lib grown_file held 0

flush_ends : ends_done stored ≡ true
unfolding program
flush_ends = refl

found_runs :
    (file_id little_endian one_fs path_ab ≡ ok (0, 175))
    × (get_meta one_fs.arh.file_table 0 ≡ some new_invalid)
    × (Ard.read counted [] (Ard.entry new_invalid) ≡ ok [])
    × (get_path mounted 2 ≡ some path_ab)
unfolding program
found_runs = (refl, refl, refl, refl)

read-flush_file-write_file_example :
    read little_endian (λ t. 0) counted (state_of stored) 2 0 3
    ≡ ok (state_of stored, contents greeting)
read-flush_file-write_file_example =
    read-flush_file-write_file little_endian counted counted_lib grown_file (λ t. 0) mounted 2 0 0
      greeting [] [] grown-IsFile counted-IsFormat refl refl found_runs.3 refl found_runs.0
      found_runs.1 refl found_runs.2 (inr refl) (omega arith) write_runs
      (ends_done-ok stored flush_ends)
