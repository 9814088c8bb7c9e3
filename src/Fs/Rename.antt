-- ===== src/Fs/Rename.antt =====
-- ardain/src/fs.rs: `children_paths` and `rename_dir`.
pub mod Paths
use ard_tools.Base.{
  ℕ, zero, suc, ◌+◌, Option, none, some, List, [], ◌∷◌, ◌++◌, drop, Run, ok, err, panic, ◌>>=◌,
  unwrap,
}
use ard_tools.Arh.Strings.{ReadLe}
use ard_tools.Path.{Text, join}
use ard_tools.Fs.Error.{Error, fs_no_entry}
use ard_tools.Fs.Tree.{DirNode, DirNodes, dir_node, file, directory, nil, cons}
use ard_tools.Fs.Tree
use ard_tools.Fs.System.{ArhFileSystem, rename_file}

-- The nodes below a node and itself, which bound the rounds of `children_paths`.
unfoldable mutual
  pub tree_size : DirNode → ℕ
  tree_size (dir_node n file) = 1
  tree_size (dir_node n (directory children)) = suc (sum_size children)

  pub sum_size : DirNodes → ℕ
  sum_size nil = 0
  sum_size (cons c cs) = tree_size c + sum_size cs

-- `format!("{path}/{}", node.name)`.
abbrev pub sub_path : Text → Text → Text
sub_path path name = path ++ b'/' ∷ name

-- The loops that push the children of a node; the back of the deque stands first.
abbrev pub push_children : DirNodes → Text → List (DirNode × Text) → List (DirNode × Text)
push_children nil path stack = stack
push_children (cons c cs) path stack = push_children cs path ((c, path) ∷ stack)

-- The `while let` loop of `children_paths`, on fuel; `none` is a run that is out of fuel.
unfoldable pub paths_loop : ℕ → List (DirNode × Text) → Option (List Text)
paths_loop fuel [] = some []
paths_loop zero (top ∷ stack) = none
paths_loop (suc fuel) ((dir_node n file, path) ∷ stack) = elim (paths_loop fuel stack) [
  | none ↦ none
  | some paths ↦ some (sub_path path n ∷ paths)
]
paths_loop (suc fuel) ((dir_node n (directory children), path) ∷ stack) =
    paths_loop fuel (push_children children (sub_path path n) stack)

-- `children_paths`.
unfoldable pub children_paths : DirNode → Option (List Text)
children_paths (dir_node n file) = some (n ∷ [])
children_paths (dir_node n (directory children)) =
    paths_loop (sum_size children) (push_children children [] [])

module _ (reader : ReadLe) where
  -- The loop that renames back what was renamed.
  unfoldable pub roll_back : ArhFileSystem → Text → Text → List Text → Run Error ArhFileSystem
  roll_back fs path new_path [] = ok fs
  roll_back fs path new_path (child ∷ done) = do
    from ← join new_path child
    to ← join path child
    (back, failed) ← rename_file reader fs from to
    elim failed [ none ↦ roll_back back path new_path done | some e ↦ panic ]

  -- The loop of `rename_dir`: the file system that it leaves, and its result.
  unfoldable pub rename_children :
      ArhFileSystem → Text → Text → List Text → List Text → Run Error (ArhFileSystem × Option Error)
  rename_children fs path new_path done [] = ok (fs, none)
  rename_children fs path new_path done (child ∷ rest) = do
    from ← join path (drop 1 child)
    to ← join new_path (drop 1 child)
    (next, failed) ← rename_file reader fs from to
    elim failed [
      | none ↦ rename_children next path new_path (done ++ child ∷ []) rest
      | some e ↦ do back ← roll_back next path new_path done; ok (back, some e)
    ]

  -- `rename_dir`.
  unfoldable pub rename_dir : ArhFileSystem → Text → Text → Run Error (ArhFileSystem × Option Error)
  rename_dir fs path new_path = elim (Tree.get_dir fs.dir_tree path) [
    | none ↦ ok (fs, some fs_no_entry)
    | some dir ↦ do
      paths ← unwrap (children_paths dir)
      (moved, failed) ← rename_children fs path new_path [] paths
      elim failed [
        | some e ↦ ok (moved, some e)
        | none ↦ do
          tree ← unwrap (Tree.remove_empty_dir moved.dir_tree path)
          ok (record moved { dir_tree = tree }, none)
      ]
  ]
