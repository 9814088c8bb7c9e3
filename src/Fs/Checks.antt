-- ===== src/Fs/Checks.antt =====
-- ardain/src/fs.rs: the model run on inputs, and the theorems at inputs.
use ard_tools.Base.{
  ℕ, arith, length, All, none, ◌⊎◌, ◌≡◌, ◌==◌, true, false, refl, some, get_elem?, if◌then◌else◌,
  panic, List, [], ◌∷◌, Run, ok, err, ◌>>=◌, binary_search,
}
use ard_tools.Bits
use ard_tools.Arh.Meta.{FileMeta, new_invalid}
use ard_tools.Arh.State.{ArhExtSection, init_section}
use ard_tools.Arh.Strings.Reader.{little_endian, read_four}
use ard_tools.Arh.Strings
use ard_tools.Arh.Node.{DictNode, occupied, root}
use ard_tools.Arh.Strings.Laws.{IsNameByte}
use ard_tools.Fs.Grow.Walk.{is_ascii}
use ard_tools.Fs.Sound.{IsSound}
use ard_tools.Fs.Sound.Files.{file_at, create_file-IsSound, file_at-create_file}
use ard_tools.Fs.Sound.Delete.{delete_file-IsSound}
use ard_tools.Fs.Total.Delete.{id_at, id_at-delete_file}
use ard_tools.Fs.Total.Create.{create_file_returns}
use ard_tools.Fs.Sound.Rename.{file_at-rename_file, Calls-IsSound, start, created, renamed}
use ard_tools.Arh.Dict
use ard_tools.Arh.Meta
use ard_tools.Arh.Recycle
use ard_tools.Arh.Blocks
use ard_tools.Arh.State
use ard_tools.Arh.State.{Arh}
use ard_tools.Path.{Text}
use ard_tools.Fs.Error.{Error}
use ard_tools.Fs.Tree.{DirNode, dir_node, directory, nil}
use ard_tools.Fs.Tree
use ard_tools.Fs.Lookup
use ard_tools.Arh.Trie.Decide.{is_trie, is_trie-IsTrie}
use ard_tools.Fs.Grow.{file_after, file_id-allocate_new_block}
use ard_tools.Arh.Trie.{IsTrie}
use ard_tools.Fs.Lookup.Steps.{root_is_free}
use ard_tools.Fs.Delete.{get_file_id-delete_file, delete_file_lem}
use ard_tools.Fs.Create
use ard_tools.Fs.System
use ard_tools.Fs.System.{ArhFileSystem}
use ard_tools.Fs.Sample.{blank, blank-IsSound}
use ard_tools.Fs.Rename
use ard_tools.Fs.Names.{get_full_path-get_file_id}
use ard_tools.Arh.FullPath
use ard_tools.Arh.FullPath.{get_full_path}
use ard_tools.Fs.Load
use ard_tools.Fs.Rename.Paths.{children_paths-files, relative_files}

program : Unit {0}
unfolding read_four binary_search Bits.leading_zeros Bits.trailing_zeros Strings.utf8_from
    Strings.until_nul Strings.push Strings.entry Strings.get_str_part_id Dict.any_child
    Dict.free_loop Dict.free_node_recursive Dict.grow Dict.fix_links Dict.move_child
    Dict.move_children Dict.allocate_new_block Meta.push_entry Meta.delete_entry Recycle.push
    Recycle.pop Blocks.mark_block Blocks.mark_range Blocks.mark_start Blocks.mark_end Blocks.mark
    Blocks.mark_all Blocks.new State.new_section State.get_or_init_ext Tree.compare_text
    Tree.search_child Tree.split_first Tree.find_dir Tree.get_dir Tree.insert_entry
    Tree.remove_entry Tree.insert_file_entry Tree.remove_file_entry Lookup.walk Lookup.walk_root
    Lookup.resolve Lookup.get_file_id Create.follow Create.attach_at Create.occupy_node
    Create.occupy_block Create.extend_path Create.share_path Create.part_names Create.split_leaf
    Create.diverge Create.find_place System.get_file_info System.add_leaf System.create_file
    System.delete_entry_of System.delete_file System.rename_file FullPath.full_path_loop
    FullPath.leaf_path FullPath.get_full_path Load.insert_leaves Load.build Load.load_with_options
program = tt

-- "/ab", "/ac" and "/b"
abbrev path_ab : Text
path_ab = b'/' ∷ b'a' ∷ b'b' ∷ []

abbrev path_ac : Text
path_ac = b'/' ∷ b'a' ∷ b'c' ∷ []

abbrev path_b : Text
path_b = b'/' ∷ b'b' ∷ []

abbrev two_files : Run Error ArhFileSystem
two_files = do
  (one, _) ← System.create_file little_endian blank path_ab
  (two, _) ← System.create_file little_endian one path_ac
  ok two

abbrev lookups : Run Error (List (Run (Unit {0}) (ℕ × ℕ)))
lookups = do
  fs ← two_files
  gone ← System.delete_file little_endian fs path_ab
  ok (
      System.file_id little_endian fs path_ab
      ∷ System.file_id little_endian fs path_ac
      ∷ System.file_id little_endian fs path_b
      ∷ System.file_id little_endian gone path_ab
      ∷ System.file_id little_endian gone path_ac
      ∷ [])

lookups_run : lookups ≡ ok (ok (0, 354) ∷ ok (1, 355) ∷ err tt ∷ err tt ∷ ok (1, 355) ∷ [])
unfolding program
lookups_run = refl

-- The archive of "/ab" alone, and of "/ab" and "/ac".
abbrev with_one : Run Error ArhFileSystem
with_one = System.create_file little_endian blank path_ab >>= λ made. ok made.0

abbrev of_ok : Run Error ArhFileSystem → ArhFileSystem
of_ok (ok fs) = fs
of_ok (err e) = blank
of_ok panic = blank

abbrev one_fs : ArhFileSystem
one_fs = of_ok with_one

abbrev emptied_fs : ArhFileSystem
emptied_fs = of_ok (System.delete_file little_endian one_fs path_ab)

abbrev both_fs : ArhFileSystem
both_fs = of_ok two_files

abbrev one_left_fs : ArhFileSystem
one_left_fs = of_ok (System.delete_file little_endian both_fs path_ab)

delete_runs : System.delete_file little_endian both_fs path_ab ≡ ok one_left_fs
unfolding program
delete_runs = refl

get_file_id-delete_file_example :
    System.file_id little_endian one_left_fs path_ab
    ≡ (if root_is_free one_left_fs.arh.path_dict then panic else err tt)
get_file_id-delete_file_example =
    get_file_id-delete_file little_endian both_fs b'/' (b'a' ∷ b'b' ∷ []) delete_runs

found_runs : System.file_id little_endian both_fs path_ab ≡ ok (0, 354)
unfolding program
found_runs = refl

delete_file_lem_example :
    (file : FileMeta) × (after : ArhExtSection) × (get_elem? both_fs.arh.file_table 0 ≡ some file)
    × (get_elem? one_left_fs.arh.file_table 1
        ≡ (if 1 == 0 then some new_invalid else get_elem? both_fs.arh.file_table 1))
    × (one_left_fs.arh.arh_ext_section ≡ some after)
    × (after.allocated_blocks
        ≡ Blocks.mark
            (init_section one_left_fs.arh.file_table both_fs.opts
              both_fs.arh.arh_ext_section).allocated_blocks
            file
            false)
    × (Recycle.contains 0 after.file_meta_recycle_bin.file_ids ≡ true)
delete_file_lem_example = delete_file_lem little_endian both_fs path_ab 1 found_runs delete_runs

both_tries : is_trie both_fs.arh.path_dict ≡ true
unfolding program
both_tries = refl

found_other_runs : System.file_id little_endian both_fs path_ac ≡ ok (1, 355)
unfolding program
found_other_runs = refl

-- The node for "/a", whose children are the two leaves.
node_runs : get_elem? both_fs.arh.path_dict 225 ≡ some (occupied 175 256)
unfolding program
node_runs = refl

apart_runs :
    (Dict.child_at both_fs.arh.path_dict 225 225 ≡ false)
    × (Dict.child_at both_fs.arh.path_dict 0 225 ≡ false)
unfolding program
apart_runs = (refl, refl)

file_id-allocate_new_block_example :
    (r : List DictNode) × (Dict.allocate_new_block both_fs.arh.path_dict 225
      ≡ some (r, Dict.next_multiple (length both_fs.arh.path_dict)))
    × IsTrie r
    × (Lookup.get_file_id little_endian r both_fs.arh.string_table path_ac
        ≡ file_after both_fs.arh.path_dict 225 256 (
            Lookup.get_file_id little_endian both_fs.arh.path_dict both_fs.arh.string_table
              path_ac))
file_id-allocate_new_block_example =
    file_id-allocate_new_block little_endian both_fs.arh.path_dict both_fs.arh.string_table 225 256
      (occupied 175 256) path_ac (is_trie-IsTrie both_fs.arh.path_dict both_tries) apart_runs.0
      apart_runs.1 node_runs refl refl

moved_runs :
    file_after both_fs.arh.path_dict 225 256
      (Lookup.get_file_id little_endian both_fs.arh.path_dict both_fs.arh.string_table path_ac)
    ≡ ok (1, 483)
unfolding program
moved_runs = refl

-- A directory with a file "x" and a directory "d" that holds "y".
abbrev nested : Tree.DirNodes
nested =
    Tree.cons (dir_node (b'd' ∷ []) (directory (Tree.cons (dir_node (b'y' ∷ []) Tree.file) nil)))
      (Tree.cons (dir_node (b'x' ∷ []) Tree.file) nil)

children_paths-files_example :
    Rename.children_paths (dir_node [] (directory nested))
    ≡ some (relative_files (dir_node [] (directory nested)))
children_paths-files_example = children_paths-files (dir_node [] (directory nested))

first_runs : get_elem? both_fs.arh.path_dict 0 ≡ some (root 128)
unfolding program
first_runs = refl

get_full_path-get_file_id_example :
    get_full_path little_endian 3 both_fs.arh.path_dict both_fs.arh.string_table 355 ≡ some path_ac
get_full_path-get_file_id_example =
    get_full_path-get_file_id little_endian 3 128 both_fs.arh.path_dict both_fs.arh.string_table
      path_ac first_runs refl (omega arith) found_other_runs

path_bytes : All IsNameByte path_ab × All IsNameByte path_ac × All IsNameByte path_b
path_bytes = (
  ((omega arith, omega arith), ((omega arith, omega arith), ((omega arith, omega arith), tt))),
  ((omega arith, omega arith), ((omega arith, omega arith), ((omega arith, omega arith), tt))),
  ((omega arith, omega arith), ((omega arith, omega arith), tt)),
)

create_runs :
    (System.create_file little_endian blank path_ab ≡ ok (one_fs, 0))
    × (System.create_file little_endian one_fs path_ac ≡ ok (both_fs, 1))
unfolding program
create_runs = (refl, refl)

one-IsSound : IsSound little_endian one_fs
one-IsSound =
    create_file-IsSound little_endian blank path_ab blank-IsSound path_bytes.0 create_runs.0

both-IsSound : IsSound little_endian both_fs
both-IsSound =
    create_file-IsSound little_endian one_fs path_ac one-IsSound path_bytes.1 create_runs.1

-- The name of "/ac" parts from that of "/ab" at the last character, so the leaf of "/ab" moves.
file_at-create_file_example :
    file_at little_endian both_fs path_ab
    ≡ (if Lookup.text_eq path_ab path_ac then some 1 else file_at little_endian one_fs path_ab)
file_at-create_file_example =
    file_at-create_file little_endian one_fs path_ac path_ab one-IsSound path_bytes.1 refl
      create_runs.1

empty_runs : System.delete_file little_endian one_fs path_ab ≡ ok emptied_fs
unfolding program
empty_runs = refl

emptied_root : root_is_free emptied_fs.arh.path_dict ≡ true
unfolding program
emptied_root = refl

id_at-delete_file_example :
    (id_at little_endian emptied_fs path_b ≡ (
      if root_is_free emptied_fs.arh.path_dict
      then panic
      else if Lookup.text_eq path_b path_ab
      then err tt
      else id_at little_endian one_fs path_b))
    × (file_at little_endian emptied_fs path_b
        ≡ (if Lookup.text_eq path_b path_ab then none else file_at little_endian one_fs path_b))
id_at-delete_file_example =
    id_at-delete_file little_endian one_fs path_ab b'/' (b'b' ∷ []) one-IsSound empty_runs

abbrev renamed_fs : ArhFileSystem
renamed_fs = elim (System.rename_file little_endian both_fs path_ab path_b) [
  | ok (fs, e) ↦ fs
  | err e ↦ blank
  | panic ↦ blank
]

rename_runs : System.rename_file little_endian both_fs path_ab path_b ≡ ok (renamed_fs, none)
unfolding program
rename_runs = refl

file_at-rename_file_example :
    (id : ℕ) × ((other : Text)
      → is_ascii other ≡ true
      → file_at little_endian renamed_fs other ≡ (
          if Lookup.text_eq other path_b
          then some id
          else if Lookup.text_eq other path_ab
          then none
          else file_at little_endian both_fs other))
file_at-rename_file_example =
    file_at-rename_file little_endian both_fs path_ab path_b both-IsSound path_bytes.2 rename_runs

Calls-IsSound_example : IsSound little_endian renamed_fs
Calls-IsSound_example = Calls-IsSound little_endian blank-IsSound (
    renamed
      (created (created start path_ab path_bytes.0 create_runs.0) path_ac path_bytes.1
        create_runs.1)
      path_ab path_b path_bytes.0 path_bytes.2 rename_runs)

-- The tree that is built from an archive is that which the creations have kept.
load_runs :
    Load.load_with_options little_endian {Stream = Arh} some both_fs.arh both_fs.opts ≡ ok both_fs
unfolding program
load_runs = refl

one_left-IsSound : IsSound little_endian one_left_fs
one_left-IsSound = delete_file-IsSound little_endian both_fs path_ab both-IsSound delete_runs

one_left_runs :
    (length one_left_fs.arh.file_table ≡ 2)
    × (length one_left_fs.arh.string_table ≡ 18)
    × (get_elem? one_left_fs.arh.path_dict 0 ≡ some (root 128))
unfolding program
one_left_runs = (refl, refl, refl)

create_file_returns_example :
    ((made : ArhFileSystem) × (id : ℕ) × (System.create_file little_endian one_left_fs path_ab
        ≡ ok (made, id)))
    ⊎ ((why : Error) × (System.create_file little_endian one_left_fs path_ab ≡ err why))
create_file_returns_example =
    create_file_returns little_endian one_left_fs path_ab one_left-IsSound
      (rw one_left_runs.0 (omega arith)) (rw one_left_runs.1 (omega arith)) refl path_bytes.0
      (root 128, one_left_runs.2, refl)
