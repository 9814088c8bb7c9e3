-- ===== src/Remove.antt =====
-- ard-tools/src/rm.rs: the command that removes or hides files. An error ends the command before the file
-- system is written, so no state stands beside it.
mod Checks
use ard_tools.Base.{
  Bool, true, false, not, ◌&&◌, Option, none, some, List, [], ◌∷◌, if◌then◌else◌, Run, ok, err,
  panic, ◌>>=◌, unwrap,
}
use ard_tools.Arh.Meta.{get_meta, set_flag, hidden}
use ard_tools.Arh.Strings.{ReadLe}
use ard_tools.Path.{Text, join}
use ard_tools.Fs.Error.{Error}
use ard_tools.Fs.Tree.{DirNode, DirNodes, dir_node, file, directory, nil, cons}
use ard_tools.Fs.Tree
use ard_tools.Fs.System.{ArhFileSystem, file_id, is_file, store_meta, delete_file, delete_empty_dir}
use ard_tools.Fs.Rename.{children_paths}

-- The errors of the command: those of the file system, and its two own.
pub data CommandError : Type 0 where
  fs_error : Error → CommandError
  not_empty : Text → CommandError
  no_such_entry : Text → CommandError

pub record RemoveArgs : Type 0 where
  pub paths : List Text
  pub recursive : Bool
  pub soft : Bool
  pub restore : Bool

-- `?` on a result of the file system.
abbrev pub lift {ℓ} : {A : Type ℓ} → Run Error A → Run CommandError A
lift (ok a) = ok a
lift (err e) = err (fs_error e)
lift panic = panic

abbrev pub has_children : DirNode → Bool
has_children (dir_node n file) = false
has_children (dir_node n (directory nil)) = false
has_children (dir_node n (directory (cons c cs))) = true

module _ (reader : ReadLe) where
  abbrev pub is_file_at : ArhFileSystem → Text → Run CommandError Bool
  is_file_at fs path = elim (is_file reader fs path) [ ok b ↦ ok b | err e ↦ panic | panic ↦ panic ]

  -- The loop that deletes the files below a directory.
  unfoldable pub delete_children : ArhFileSystem → Text → List Text → Run CommandError ArhFileSystem
  delete_children fs path [] = ok fs
  delete_children fs path (child ∷ rest) = do
    full_path ← join path child
    deleted ← lift (delete_file reader fs full_path)
    delete_children deleted path rest

  -- `delete` of a directory.
  unfoldable pub delete_dir : ArhFileSystem → Bool → Text → DirNode → Run CommandError ArhFileSystem
  delete_dir fs recursive path dir =
      if not recursive && has_children dir then err (not_empty path) else (do
        children ← unwrap (children_paths dir)
        emptied ← if recursive then delete_children fs path children else ok fs
        lift (delete_empty_dir emptied path))

  -- `delete`.
  unfoldable pub delete : ArhFileSystem → RemoveArgs → Text → Run CommandError ArhFileSystem
  delete fs args path = do
    here ← is_file_at fs path
    if here then lift (delete_file reader fs path) else elim (Tree.get_dir fs.dir_tree path) [
      | some dir ↦ delete_dir fs args.recursive path dir
      | none ↦ err (no_such_entry path)
    ]

  -- `get_file_info_mut(path).unwrap().set_flag(FileFlag::Hidden, value)`.
  unfoldable pub hide_file : ArhFileSystem → Text → Bool → Run CommandError ArhFileSystem
  hide_file fs path value = elim (file_id reader fs path) [
    | err e ↦ panic
    | panic ↦ panic
    | ok (id, leaf_id) ↦ elim (get_meta fs.arh.file_table id) [
      | none ↦ panic
      | some meta ↦ ok (store_meta reader fs id (set_flag meta hidden value))
    ]
  ]

  unfoldable pub hide_children :
      ArhFileSystem → Text → Bool → List Text → Run CommandError ArhFileSystem
  hide_children fs path value [] = ok fs
  hide_children fs path value (child ∷ rest) = do
    full_path ← join path child
    marked ← hide_file fs full_path value
    hide_children marked path value rest

  -- `set_hidden_flag`: of a single file the code sets the flag, whatever `value` is.
  unfoldable pub set_hidden_flag : ArhFileSystem → Text → Bool → Run CommandError ArhFileSystem
  set_hidden_flag fs path value = do
    here ← is_file_at fs path
    if here then hide_file fs path true else elim (Tree.get_dir fs.dir_tree path) [
      | some dir ↦ do children ← unwrap (children_paths dir); hide_children fs path value children
      | none ↦ err (no_such_entry path)
    ]

  -- The loop of `run` over the paths, between the load and the write of the file system.
  unfoldable pub remove_all :
      ArhFileSystem → RemoveArgs → List Text → Run CommandError ArhFileSystem
  remove_all fs args [] = ok fs
  remove_all fs args (path ∷ rest) = do
    next ←
        (if args.soft
          then set_hidden_flag fs path true
          else if args.restore
          then set_hidden_flag fs path false
          else delete fs args path)
    remove_all next args rest
