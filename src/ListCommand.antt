-- ===== src/ListCommand.antt =====
-- ard-tools/src/ls.rs: the command that lists a directory, behind the load of the file system. What it prints
-- is a list of lines.
pub mod Columns
mod Checks
use ard_tools.Base.{
  ℕ, zero, suc, ◌+◌, ◌-◌, ◌/◌, ◌%◌, max, Bool, true, false, Option, none, some, List, [], ◌∷◌, ◌++◌,
  ltb, if◌then◌else◌, length, replicate, Run, ok, err, panic, ◌>>=◌, ok_or, unwrap,
}
use ard_tools.Arh.Meta.{FileMeta, actual_size, is_flag, hidden, has_xbc1_header}
use ard_tools.Arh.Strings.{ReadLe}
use ard_tools.Path.{Text, byte_len, join}
use ard_tools.Fs.Tree.{DirNode, DirNodes, dir_node, file, directory, nil, cons}
use ard_tools.Fs.Tree
use ard_tools.Fs.System.{ArhFileSystem, get_file_info}

pub record Table : Type 0 where
  pub rows : List (List Text)
  pub lens : List ℕ

abbrev pub empty_table : Table
empty_table = record { rows = []; lens = [] }

-- The loop of `push_row` over the cells.
unfoldable pub widen : List Text → List ℕ → List ℕ
widen [] lens = lens
widen (cell ∷ row) [] = byte_len cell ∷ widen row []
widen (cell ∷ row) (len ∷ lens) = max (byte_len cell) len ∷ widen row lens

unfoldable pub push_row : Table → List Text → Table
push_row table row = record { rows = table.rows ++ row ∷ []; lens = widen row table.lens }

-- `print!("{:<1$}  ", cell, self.lens[i])`: the formatter counts characters.
abbrev pub print_cell : Text → ℕ → Text
print_cell cell len = cell ++ replicate (len - length cell) b' ' ++ b' ' ∷ b' ' ∷ []

-- The inner loop of `print`; `none` is the index out of `lens`.
unfoldable pub print_row : List Text → List ℕ → Option Text
print_row [] lens = some []
print_row (cell ∷ row) [] = none
print_row (cell ∷ row) (len ∷ lens) = elim (print_row row lens) [
  | none ↦ none
  | some line ↦ some (print_cell cell len ++ line)
]

unfoldable pub print_rows : List (List Text) → List ℕ → Option (List Text)
print_rows [] lens = some []
print_rows (row ∷ rows) lens = elim (print_row row lens) [
  | none ↦ none
  | some line ↦ elim (print_rows rows lens) [ none ↦ none | some lines ↦ some (line ∷ lines) ]
]

unfoldable pub print : Table → Option (List Text)
print table = print_rows table.rows table.lens

unfoldable pub get_flags_display : FileMeta → Text
get_flags_display meta =
    (if is_flag meta hidden then b'H' ∷ [] else [])
    ++ (if is_flag meta has_xbc1_header then b'X' ∷ [] else [])

-- The digits that `{}` and `{:X}` print, as many as the fuel at most.
abbrev pub digit : ℕ → ℕ
digit d = if ltb d 10 then b'0' + d else b'A' + (d - 10)

unfoldable pub digits : ℕ → ℕ → ℕ → Text → Text
digits zero base n shown = shown
digits (suc fuel) base n shown =
    let rest = digits fuel base (n / base) (digit (n % base) ∷ shown) in
    if ltb n base then digit (n % base) ∷ shown else rest

-- A size has 32 bits and a count fewer, an offset has 64.
abbrev pub decimal : ℕ → Text
decimal n = digits 10 10 n []

abbrev pub hexadecimal : ℕ → Text
hexadecimal n = digits 16 16 n []

abbrev pub header_rows : Table → Table
header_rows table =
    push_row
      (push_row table (
        (b'N' ∷ b'a' ∷ b'm' ∷ b'e' ∷ [])
        ∷ (b'T' ∷ b'y' ∷ b'p' ∷ b'e' ∷ [])
        ∷ (b'F' ∷ b'l' ∷ b'a' ∷ b'g' ∷ b's' ∷ [])
        ∷ (b'S' ∷ b'i' ∷ b'z' ∷ b'e' ∷ [])
        ∷ (b'A' ∷ b'R' ∷ b'D' ∷ b' ' ∷ b'O' ∷ b'f' ∷ b'f' ∷ b's' ∷ b'e' ∷ b't' ∷ [])
        ∷ []))
      (replicate 4 b'-'
        ∷ replicate 4 b'-'
        ∷ replicate 5 b'-'
        ∷ replicate 4 b'-'
        ∷ replicate 10 b'-'
        ∷ [])

abbrev pub file_row : Text → FileMeta → List Text
file_row child meta =
    child
    ∷ (b'F' ∷ b'i' ∷ b'l' ∷ b'e' ∷ [])
    ∷ get_flags_display meta
    ∷ decimal (actual_size meta)
    ∷ hexadecimal meta.offset
    ∷ []

abbrev pub dir_row : Text → List Text
dir_row child =
    child
    ∷ (b'D' ∷ b'i' ∷ b'r' ∷ b'e' ∷ b'c' ∷ b't' ∷ b'o' ∷ b'r' ∷ b'y' ∷ [])
    ∷ []
    ∷ (b'-' ∷ b'-' ∷ [])
    ∷ []

-- The table, and the numbers of directories and of files.
pub record Listing : Type 0 where
  pub table : Table
  pub dirs : ℕ
  pub files : ℕ

module _ (reader : ReadLe) (fs : ArhFileSystem) (wd : Text) where
  abbrev pub file_meta : Text → Run (Unit {0}) FileMeta
  file_meta child = do
    path ← join wd child
    elim (get_file_info reader fs path) [ ok meta ↦ ok meta | err e ↦ panic | panic ↦ panic ]

  -- The loop over the children.
  unfoldable pub list_children : DirNodes → Listing → Run (Unit {0}) Listing
  list_children nil listing = ok listing
  list_children (cons (dir_node child file) rest) listing = do
    meta ← file_meta child
    list_children rest (record listing {
      table = push_row listing.table (file_row child meta);
      files = listing.files + 1;
    })
  list_children (cons (dir_node child (directory below)) rest) listing =
      list_children rest
        (record listing { table = push_row listing.table (dir_row child); dirs = listing.dirs + 1 })

  abbrev pub children_of : DirNode → Run (Unit {0}) DirNodes
  children_of (dir_node n file) = panic
  children_of (dir_node n (directory children)) = ok children

  -- `run`; `err` is "directory not found".
  unfoldable pub run : Bool → Run (Unit {0}) (List Text)
  run raw = do
    dir ← ok_or (Tree.get_dir fs.dir_tree wd) tt
    children ← children_of dir
    let table = if raw then empty_table else header_rows empty_table
    listing ← list_children children (record { table = table; dirs = 0; files = 0 })
    lines ← unwrap (print listing.table)
    ok (
        if raw
        then lines
        else (b'I' ∷ b'n' ∷ b' ' ∷ wd ++ b':' ∷ []) ∷ [] ∷ lines
          ++ []
            ∷ (decimal listing.dirs
                ++ b' '
                  ∷ b'd'
                  ∷ b'i'
                  ∷ b'r'
                  ∷ b'e'
                  ∷ b'c'
                  ∷ b't'
                  ∷ b'o'
                  ∷ b'r'
                  ∷ b'i'
                  ∷ b'e'
                  ∷ b's'
                  ∷ b','
                  ∷ b' '
                  ∷ decimal listing.files
                ++ b' ' ∷ b'f' ∷ b'i' ∷ b'l' ∷ b'e' ∷ b's' ∷ [])
            ∷ [])
