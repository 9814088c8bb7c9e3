-- ===== src/Fs/Rename/Paths.antt =====
-- ardain/src/fs.rs: the order in which `children_paths` lists the files.
use ard_tools.Base.{
  ℕ, zero, suc, ◌+◌, ◌≤◌, ◌≡◌, refl, sym, ap, ◌∙◌, some, List, [], ◌∷◌, ◌++◌, arith,
}
use mathlib.Core.List.{append-nil, append_assoc}
use ard_tools.Path.{Text}
use ard_tools.Fs.Tree.{DirNode, DirNodes, dir_node, file, directory, nil, cons}
use ard_tools.Fs.Rename

-- The files below a node by recursion on the tree: of each directory the last child's first.
mutual
  pub files_below : DirNode → Text → List Text
  files_below (dir_node n file) path = Rename.sub_path path n ∷ []
  files_below (dir_node n (directory children)) path = files_of children (Rename.sub_path path n)

  pub files_of : DirNodes → Text → List Text
  files_of nil path = []
  files_of (cons c cs) path = files_of cs path ++ files_below c path

-- The files that `children_paths` lists, relative to the node.
abbrev pub relative_files : DirNode → List Text
relative_files (dir_node n file) = n ∷ []
relative_files (dir_node n (directory children)) = files_of children []

abbrev stack_files : List (DirNode × Text) → List Text
stack_files [] = []
stack_files ((node, path) ∷ stack) = files_below node path ++ stack_files stack

abbrev stack_size : List (DirNode × Text) → ℕ
stack_size [] = 0
stack_size ((node, path) ∷ stack) = Rename.tree_size node + stack_size stack

push_children-files :
    (children : DirNodes) (path : Text) (stack : List (DirNode × Text))
    → stack_files (Rename.push_children children path stack)
      ≡ files_of children path ++ stack_files stack
unfolding files_of
push_children-files nil path stack = refl
push_children-files (cons c cs) path stack =
    push_children-files cs path ((c, path) ∷ stack)
    ∙ sym (append_assoc (files_of cs path) (files_below c path) (stack_files stack))

push_children-size :
    (children : DirNodes) (path : Text) (stack : List (DirNode × Text))
    → stack_size (Rename.push_children children path stack)
      ≡ Rename.sum_size children + stack_size stack
unfolding Rename.sum_size
push_children-size nil path stack = omega arith
push_children-size (cons c cs) path stack =
    push_children-size cs path ((c, path) ∷ stack) ∙ omega arith

size_positive : (node : DirNode) → 1 ≤ Rename.tree_size node
unfolding Rename.tree_size
size_positive (dir_node n file) = omega arith
size_positive (dir_node n (directory children)) = omega arith

-- The loop ends with as much fuel as there are nodes, and lists their files.
paths_loop_lem :
    (fuel : ℕ) (stack : List (DirNode × Text))
    → stack_size stack ≤ fuel
    → Rename.paths_loop fuel stack ≡ some (stack_files stack)
unfolding Rename.paths_loop Rename.tree_size files_below
paths_loop_lem zero [] enough = refl
paths_loop_lem (suc fuel) [] enough = refl
paths_loop_lem zero ((node, path) ∷ stack) enough =
    absurd (omega (arith, size_positive node, enough))
paths_loop_lem (suc fuel) ((dir_node n file, path) ∷ stack) enough =
    rw (paths_loop_lem fuel stack (omega (arith, enough))) refl
paths_loop_lem (suc fuel) ((dir_node n (directory children), path) ∷ stack) enough =
    let next = Rename.sub_path path n in
    paths_loop_lem fuel (Rename.push_children children next stack)
      (omega (arith, enough, push_children-size children next stack))
    ∙ ap some (push_children-files children next stack)

-- `children_paths` ends, and lists the files below a node relative to it: of each directory the last
-- child's first.
pub children_paths-files :
    (node : DirNode) → Rename.children_paths node ≡ some (relative_files node)
unfolding Rename.children_paths files_of
children_paths-files (dir_node n file) = refl
children_paths-files (dir_node n (directory children)) =
    paths_loop_lem (Rename.sum_size children) (Rename.push_children children [] [])
      (omega (arith, push_children-size children [] []))
    ∙ ap some (push_children-files children [] [] ∙ append-nil (files_of children []))
