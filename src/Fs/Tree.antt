-- ===== src/Fs/Tree.antt =====
-- ardain/src/fs.rs: `DirNode` and `DirEntry`, the tree of directories that is kept in memory.
use Prim.Native.Nat.{compare, Ordering}
use ard_tools.Base.{
  ℕ, zero, suc, Bool, true, false, Option, none, some, List, [], ◌∷◌, ◌==◌, if◌then◌else◌, Search,
  found, missing, next_position,
}
use ard_tools.Path.{Text, starts_with_slash}

-- `children` is a vector of nodes; the last type is that vector.
mutual
  pub data DirNode : Type 0 where
    dir_node : Text → DirEntry → DirNode

  pub data DirEntry : Type 0 where
    file : DirEntry
    directory : DirNodes → DirEntry

  pub data DirNodes : Type 0 where
    nil : DirNodes
    cons : DirNode → DirNodes → DirNodes

abbrev pub name : DirNode → Text
name (dir_node n e) = n

abbrev pub is_directory : DirNode → Bool
is_directory (dir_node n (directory c)) = true
is_directory (dir_node n file) = false

-- The order of `str`: that of the bytes, which for ASCII text is that of the code points.
unfoldable pub compare_text : Text → Text → Ordering
compare_text [] [] = Ordering.eq
compare_text [] (d ∷ ds) = Ordering.lt
compare_text (c ∷ cs) [] = Ordering.gt
compare_text (c ∷ cs) (d ∷ ds) = elim (compare c d) [
  | Ordering.lt ↦ Ordering.lt
  | Ordering.eq ↦ compare_text cs ds
  | Ordering.gt ↦ Ordering.gt
]

-- `children.binary_search_by_key(comp, |c| &c.name)`, as `binary_search` of Base/Sorted.
unfoldable pub search_child : Text → DirNodes → Search
search_child comp nil = missing 0
search_child comp (cons c cs) = elim (compare_text (name c) comp) [
  | Ordering.lt ↦ next_position (search_child comp cs)
  | Ordering.eq ↦ found 0
  | Ordering.gt ↦ missing 0
]

abbrev pub get_child : DirNodes → ℕ → Option DirNode
get_child nil i = none
get_child (cons c cs) zero = some c
get_child (cons c cs) (suc i) = get_child cs i

abbrev pub set_child : DirNodes → ℕ → DirNode → DirNodes
set_child nil i d = nil
set_child (cons c cs) zero d = cons d cs
set_child (cons c cs) (suc i) d = cons c (set_child cs i d)

-- `children.insert(i, node)` and `children.remove(i)`.
abbrev pub insert_child : DirNodes → ℕ → DirNode → DirNodes
insert_child cs zero d = cons d cs
insert_child nil (suc i) d = cons d nil
insert_child (cons c cs) (suc i) d = cons c (insert_child cs i d)

abbrev pub remove_child : DirNodes → ℕ → DirNodes
remove_child nil i = nil
remove_child (cons c cs) zero = cs
remove_child (cons c cs) (suc i) = cons c (remove_child cs i)

-- `path.split('/')`: the part before the first slash, and the parts behind it.
unfoldable pub split_first : Text → Text × List Text
split_first [] = ([], [])
split_first (c ∷ cs) =
    let (part, parts) = split_first cs in
    if c == b'/' then ([], part ∷ parts) else (c ∷ part, parts)

-- `parts[1..]`.
abbrev pub components : Text → List Text
components path = (split_first path).1

abbrev pub is_empty {ℓ} : {A : Type ℓ} → List A → Bool
is_empty [] = true
is_empty (x ∷ xs) = false

-- The loop of `get_dir` over the components.
unfoldable pub find_dir : DirNode → List Text → Option DirNode
find_dir node [] = if is_directory node then some node else none
find_dir (dir_node n file) (comp ∷ rest) =
    let skipped = find_dir (dir_node n file) rest in if is_empty comp then skipped else none
find_dir (dir_node n (directory children)) (comp ∷ rest) =
    let skipped = find_dir (dir_node n (directory children)) rest in
    if is_empty comp then skipped else elim (search_child comp children) [
      | missing i ↦ none
      | found i ↦ elim (get_child children i) [ none ↦ none | some child ↦ find_dir child rest ]
    ]

-- `ArhFileSystem::get_dir`.
unfoldable pub get_dir : DirNode → Text → Option DirNode
get_dir tree path = if is_empty path then none else find_dir tree (components path)

-- The loop of `insert_file_entry`: the tree with an entry for the components.
unfoldable pub insert_entry : DirNode → List Text → DirNode
insert_entry node [] = node
insert_entry (dir_node n file) (comp ∷ rest) = dir_node n file
insert_entry (dir_node n (directory children)) (comp ∷ rest) = elim (search_child comp children) [
  | found i ↦ elim (get_child children i) [
    | none ↦ dir_node n (directory children)
    | some child ↦ dir_node n (directory (set_child children i (insert_entry child rest)))
  ]
  | missing i ↦
      let made = dir_node comp (if is_empty rest then file else directory nil) in
      dir_node n (directory (insert_child children i (insert_entry made rest)))
]

-- The loop of `remove_file_entry`.
unfoldable pub remove_entry : DirNode → List Text → DirNode
remove_entry node [] = node
remove_entry (dir_node n file) (comp ∷ rest) = dir_node n file
remove_entry (dir_node n (directory children)) (comp ∷ rest) = elim (search_child comp children) [
  | missing i ↦ dir_node n (directory children)
  | found i ↦ elim (get_child children i) [
    | none ↦ dir_node n (directory children)
    | some child ↦
        if is_directory child
        then dir_node n (directory (set_child children i (remove_entry child rest)))
        else dir_node n (directory (remove_child children i))
  ]
]

-- The loop of `remove_empty_dir`.
unfoldable pub remove_dir : DirNode → List Text → DirNode
remove_dir node [] = node
remove_dir (dir_node n file) (comp ∷ rest) = dir_node n file
remove_dir (dir_node n (directory children)) (comp ∷ rest) = elim (search_child comp children) [
  | missing i ↦ dir_node n (directory children)
  | found i ↦ elim (get_child children i) [
    | none ↦ dir_node n (directory children)
    | some child ↦
        if is_empty rest
        then dir_node n (directory (remove_child children i))
        else dir_node n (directory (set_child children i (remove_dir child rest)))
  ]
]

-- `insert_file_entry`, `remove_file_entry` and `remove_empty_dir`, with the `assert!` that each
-- begins with; `none` is its panic.
unfoldable pub insert_file_entry : DirNode → Text → Option DirNode
insert_file_entry tree path =
    if starts_with_slash path then some (insert_entry tree (components path)) else none

unfoldable pub remove_file_entry : DirNode → Text → Option DirNode
remove_file_entry tree path =
    if starts_with_slash path then some (remove_entry tree (components path)) else none

unfoldable pub remove_empty_dir : DirNode → Text → Option DirNode
remove_empty_dir tree path =
    if starts_with_slash path then some (remove_dir tree (components path)) else none
