-- ===== src/Fs/System.antt =====
-- ardain/src/fs.rs: `ArhFileSystem` and its operations on files.
use ard_tools.Base.{
  ℕ, ◌^◌, Bool, true, false, Option, none, some, if◌then◌else◌, set, Run, ok, err, panic, ◌>>=◌,
  unwrap,
}
use ard_tools.Arh.Node.{leaf}
use ard_tools.Arh.Dict.{write_node, free_node_recursive}
use ard_tools.Arh.Strings.{ReadLe}
use ard_tools.Arh.Strings
use ard_tools.Arh.Meta.{FileMeta, get_meta, push_entry, delete_entry, new_invalid}
use ard_tools.Arh.Recycle
use ard_tools.Arh.Recycle.{FileRecycleBin}
use ard_tools.Arh.Blocks
use ard_tools.Arh.State.{Arh, ArhOptions, ArhExtSection, get_or_init_ext}
use ard_tools.Path.{Text}
use ard_tools.Fs.Error.{Error, fs_no_entry, fs_already_exists}
use ard_tools.Fs.Tree.{DirNode}
use ard_tools.Fs.Tree
use ard_tools.Fs.Lookup.{get_file_id}
use ard_tools.Fs.Create.{Place, find_place}

pub record ArhFileSystem : Type 0 where
  pub arh : Arh
  pub opts : ArhOptions
  pub dir_tree : DirNode

-- `block_size`.
unfoldable pub block_size : ArhFileSystem → ℕ
block_size fs = 2 ^ fs.opts.ext_block_size_pow

unfoldable pub is_dir : ArhFileSystem → Text → Bool
is_dir fs path = elim (Tree.get_dir fs.dir_tree path) [ none ↦ false | some dir ↦ true ]

-- The optional section's bin, and the section with another bin.
abbrev pub section_bin : Option ArhExtSection → Option FileRecycleBin
section_bin none = none
section_bin (some ext) = some ext.file_meta_recycle_bin

abbrev pub set_bin : Option ArhExtSection → Option FileRecycleBin → Option ArhExtSection
set_bin (some ext) (some bin) = some (record ext { file_meta_recycle_bin = bin })
set_bin ext bin = ext

module _ (reader : ReadLe) where
  -- `get_file_id(path)` in a file system; `err` is its `None`.
  abbrev pub file_id : ArhFileSystem → Text → Run (Unit {0}) (ℕ × ℕ)
  file_id fs path = get_file_id reader fs.arh.path_dict fs.arh.string_table path

  -- `get_file_info`: the meta at the file's id; `err` is its `None`.
  unfoldable pub get_file_info : ArhFileSystem → Text → Run (Unit {0}) FileMeta
  get_file_info fs path = elim (file_id fs path) [
    | ok (id, _) ↦ elim (get_meta fs.arh.file_table id) [ none ↦ err tt | some m ↦ ok m ]
    | err e ↦ err e
    | panic ↦ panic
  ]

  -- `is_file` and `exists`.
  unfoldable pub is_file : ArhFileSystem → Text → Run (Unit {0}) Bool
  is_file fs path = elim (get_file_info fs path) [
    | ok m ↦ ok true
    | err e ↦ ok false
    | panic ↦ panic
  ]

  unfoldable pub exists : ArhFileSystem → Text → Run (Unit {0}) Bool
  exists fs path = if is_dir fs path then ok true else is_file fs path

  -- The end of `create_file`: the entry, the leaf and the directory tree.
  unfoldable pub add_leaf : ArhFileSystem → Text → Place → Run Error (ArhFileSystem × ℕ)
  add_leaf fs full_path place = do
    (table, bin, id) ←
        unwrap (push_entry fs.arh.file_table new_invalid (section_bin fs.arh.arh_ext_section))
    (strings, str_offset) ← unwrap (Strings.push place.strings place.rest id)
    dict ← unwrap (write_node place.dict place.index (leaf place.parent str_offset))
    tree ← unwrap (Tree.insert_file_entry fs.dir_tree full_path)
    _ ← unwrap (get_meta table id)
    ok (
      record fs {
        arh = record (fs.arh) {
          string_table = strings;
          path_dict = dict;
          file_table = table;
          arh_ext_section = set_bin fs.arh.arh_ext_section bin;
        };
        dir_tree = tree;
      },
      id,
    )

  -- `create_file`: the file system and the id whose entry it returns. The code makes its changes on
  -- clones until nothing more can fail, so there is no changed state beside an error.
  unfoldable pub create_file : ArhFileSystem → Text → Run Error (ArhFileSystem × ℕ)
  create_file fs full_path = elim (get_file_info fs full_path) [
    | ok m ↦ err fs_already_exists
    | panic ↦ panic
    | err e ↦ do
      place ← find_place reader fs.arh.path_dict fs.arh.string_table full_path
      add_leaf fs full_path place
  ]

  -- `delete_file` behind its lookup.
  unfoldable pub delete_entry_of : ArhFileSystem → Text → ℕ → ℕ → Run Error ArhFileSystem
  delete_entry_of fs path id leaf_id = do
    dict ← unwrap (free_node_recursive fs.arh.path_dict leaf_id)
    let deleted = delete_entry fs.arh.file_table id
    file ← unwrap deleted.1
    let arh = record (fs.arh) { path_dict = dict; file_table = deleted.0 }
    let ext = get_or_init_ext arh fs.opts
    tree ← unwrap (Tree.remove_file_entry fs.dir_tree path)
    ok (record fs {
      arh = record arh {
        arh_ext_section = some (record {
          allocated_blocks = Blocks.mark ext.allocated_blocks file false;
          file_meta_recycle_bin = Recycle.push ext.file_meta_recycle_bin id;
        });
      };
      dir_tree = tree;
    })

  -- `delete_file`.
  unfoldable pub delete_file : ArhFileSystem → Text → Run Error ArhFileSystem
  delete_file fs path = elim (file_id fs path) [
    | ok (id, leaf_id) ↦ delete_entry_of fs path id leaf_id
    | err e ↦ err fs_no_entry
    | panic ↦ panic
  ]

  -- `*meta_of(id) = meta`, as `clone_from` does.
  abbrev pub store_meta : ArhFileSystem → ℕ → FileMeta → ArhFileSystem
  store_meta fs id meta = record fs {
    arh = record (fs.arh) { file_table = set fs.arh.file_table id meta };
  }

  -- `rename_file`: the file system that it leaves, and its result.
  unfoldable pub rename_file :
      ArhFileSystem → Text → Text → Run Error (ArhFileSystem × Option Error)
  rename_file fs path new_path = elim (get_file_info fs path) [
    | err e ↦ ok (fs, some fs_no_entry)
    | panic ↦ panic
    | ok meta ↦ elim (delete_file fs path) [
      | err e ↦ ok (fs, some e)
      | panic ↦ panic
      | ok deleted ↦ elim (create_file deleted new_path) [
        | ok (created, id) ↦ ok (store_meta created id meta, none)
        | panic ↦ panic
        | err e ↦ elim (create_file deleted path) [
          | ok (restored, id) ↦ ok (store_meta restored id meta, some e)
          | err e' ↦ panic
          | panic ↦ panic
        ]
      ]
    ]
  ]

-- `delete_empty_dir`.
unfoldable pub delete_empty_dir : ArhFileSystem → Text → Run Error ArhFileSystem
delete_empty_dir fs path = do
  tree ← unwrap (Tree.remove_empty_dir fs.dir_tree path)
  ok (record fs { dir_tree = tree })
