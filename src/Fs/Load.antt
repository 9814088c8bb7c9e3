-- ===== src/Fs/Load.antt =====
-- ardain/src/fs.rs: `DirNode::build`, `load_with_options` and `sync`. The formats that `Arh::read` and
-- `Arh::write` derive are parameters, and so is the stream.
use ard_tools.Base.{
  ℕ, suc, Option, none, some, List, [], ◌∷◌, if◌then◌else◌, length, Run, ok, ◌>>=◌, ok_or, unwrap,
}
use ard_tools.Arh.Node.{DictNode, is_leaf}
use ard_tools.Arh.Strings.{ReadLe}
use ard_tools.Arh.FullPath.{get_full_path}
use ard_tools.Arh.State.{Arh, ArhOptions, prepare_for_write}
use ard_tools.Fs.Error.{Error, parse}
use ard_tools.Fs.Tree.{DirNode, dir_node, directory, nil, insert_file_entry}
use ard_tools.Fs.System.{ArhFileSystem}

module _ (reader : ReadLe) where
  -- The loop of `build` over the nodes from `idx` on; `none` is a panic, or a leaf whose path needs more
  -- rounds than there are nodes.
  unfoldable pub insert_leaves : Arh → ℕ → List DictNode → DirNode → Option DirNode
  insert_leaves arh idx [] tree = some tree
  insert_leaves arh idx (node ∷ rest) tree =
      if is_leaf node
      then elim (get_full_path reader (length arh.path_dict) arh.path_dict arh.string_table idx) [
        | none ↦ none
        | some path ↦ elim (insert_file_entry tree path) [
          | none ↦ none
          | some grown ↦ insert_leaves arh (suc idx) rest grown
        ]
      ]
      else insert_leaves arh (suc idx) rest tree

  -- `DirNode::build`.
  unfoldable pub build : Arh → Option DirNode
  build arh = insert_leaves arh 0 arh.path_dict (dir_node (b'/' ∷ []) (directory nil))

  module _ {Stream : Type 0} (read_arh : Stream → Option Arh) where
    -- `load_with_options`; `err` is the error of the read.
    unfoldable pub load_with_options : Stream → ArhOptions → Run (Unit {0}) ArhFileSystem
    load_with_options stream options = do
      arh ← ok_or (read_arh stream) tt
      tree ← unwrap (build arh)
      ok (record { arh = arh; opts = options; dir_tree = tree })

module _ {Stream : Type 0} (write_arh : Arh → Stream → Option Stream) where
  -- `ArhFileSystem::sync`: the file system with the archive as it was prepared, and what was written.
  unfoldable pub sync : ArhFileSystem → Stream → Run Error (ArhFileSystem × Stream)
  sync fs stream = do
    arh ← unwrap (prepare_for_write fs.arh)
    written ← ok_or (write_arh arh stream) parse
    ok (record fs { arh = arh }, written)
