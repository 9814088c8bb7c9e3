-- ===== src/ListCommand/Columns.antt =====
-- ard-tools/src/ls.rs: a table has aligned columns.
use ard_tools.Base.{
  ℕ, ◌+◌, ◌-◌, ◌≤◌, ◌≡◌, refl, ◌∙◌, some, List, [], ◌∷◌, ◌++◌, arith, length, length-append,
  length-replicate, replicate, All, All-append,
}
use mathlib.Core.List.{map}
use ard_tools.Path.{Text, len_utf8, byte_len}
use ard_tools.ListCommand.{
  Table, empty_table, widen, push_row, print_cell, print_row, print_rows, print,
}

-- The row has no more cells than there are columns, and no cell is wider than its column.
abbrev pub IsFitted : List ℕ → List Text → Type 0
IsFitted lens [] = Unit {0}
IsFitted [] (cell ∷ row) = ⊥
IsFitted (len ∷ lens) (cell ∷ row) = (byte_len cell ≤ len) × IsFitted lens row

-- The width of a line of so many cells.
abbrev pub line_len : List ℕ → List Text → ℕ
line_len lens [] = 0
line_len [] (cell ∷ row) = 0
line_len (len ∷ lens) (cell ∷ row) = len + 2 + line_len lens row

length-byte_len : (text : Text) → length text ≤ byte_len text
length-byte_len [] = omega arith
length-byte_len (c ∷ cs) =
    let some_bytes : 1 ≤ len_utf8 c = ground arith in omega (arith, length-byte_len cs, some_bytes)

IsFitted-widen : (row : List Text) (lens : List ℕ) → IsFitted (widen row lens) row
unfolding widen
IsFitted-widen [] lens = tt
IsFitted-widen (cell ∷ row) [] = (omega arith, IsFitted-widen row [])
IsFitted-widen (cell ∷ row) (len ∷ lens) = (omega arith, IsFitted-widen row lens)

IsFitted-widen_old :
    (row : List Text) (lens : List ℕ) (old : List Text)
    → IsFitted lens old
    → IsFitted (widen row lens) old
unfolding widen
IsFitted-widen_old row lens [] h = tt
IsFitted-widen_old row [] (cell ∷ old) h = absurd h
IsFitted-widen_old [] (len ∷ lens) (cell ∷ old) h = h
IsFitted-widen_old (new ∷ row) (len ∷ lens) (cell ∷ old) h =
    (omega (arith, h.0), IsFitted-widen_old row lens old h.1)

length-print_cell :
    (cell : Text) (len : ℕ) → byte_len cell ≤ len → length (print_cell cell len) ≡ len + 2
length-print_cell cell len h =
    let space : ℕ = b' ' in
    let pad = replicate (len - length cell) space in
    length-append (cell ++ pad) (space ∷ space ∷ [])
    ∙ omega (
      arith,
      length-append cell pad,
      length-replicate (len - length cell) space,
      length-byte_len cell,
      h,
    )

print_row-IsFitted :
    (lens : List ℕ) (row : List Text)
    → IsFitted lens row
    → (line : Text) × (print_row row lens ≡ some line) × (length line ≡ line_len lens row)
unfolding print_row
print_row-IsFitted lens [] h = ([], refl, refl)
print_row-IsFitted [] (cell ∷ row) h = absurd h
print_row-IsFitted (len ∷ lens) (cell ∷ row) h =
    let (line, shown, size) = print_row-IsFitted lens row h.1 in
    (
      print_cell cell len ++ line,
      rw shown refl,
      length-append (print_cell cell len) line
          ∙ omega (arith, size, length-print_cell cell len h.0),
    )

print_rows-IsFitted :
    (lens : List ℕ) (rows : List (List Text))
    → All (IsFitted lens) rows
    → (lines : List Text) × (print_rows rows lens ≡ some lines)
      × (map length lines ≡ map (line_len lens) rows)
unfolding print_rows
print_rows-IsFitted lens [] h = ([], refl, refl)
print_rows-IsFitted lens (row ∷ rows) h =
    let (line, shown, size) = print_row-IsFitted lens row h.0 in
    let (lines, others, sizes) = print_rows-IsFitted lens rows h.1 in
    (line ∷ lines, rw (print_rows, shown, others) refl, cc (size, sizes))

-- The table of so many rows.
abbrev pub push_rows : Table → List (List Text) → Table
push_rows table [] = table
push_rows table (row ∷ rows) = push_rows (push_row table row) rows

All-widen :
    (row : List Text) (lens : List ℕ) (rows : List (List Text))
    → All (IsFitted lens) rows
    → All (IsFitted (widen row lens)) rows
All-widen row lens [] h = tt
All-widen row lens (old ∷ rows) h =
    (IsFitted-widen_old row lens old h.0, All-widen row lens rows h.1)

push_rows-IsFitted :
    (table : Table) (rows : List (List Text))
    → All (IsFitted table.lens) table.rows
    → All (IsFitted (push_rows table rows).lens) (push_rows table rows).rows
unfolding push_row
push_rows-IsFitted table [] h = h
push_rows-IsFitted table (row ∷ rows) h = push_rows-IsFitted (push_row table row) rows (
    All-append (IsFitted (widen row table.lens)) table.rows (row ∷ [])
      (All-widen row table.lens table.rows h) (IsFitted-widen row table.lens, tt))

-- A table that rows were pushed to is printed without a panic, and each line is as long as its row's columns are wide,
-- with two more characters for each.
pub print-push_row :
    (rows : List (List Text))
    → let table = push_rows empty_table rows in
      (lines : List Text) × (print table ≡ some lines)
      × (map length lines ≡ map (line_len table.lens) table.rows)
unfolding print
print-push_row rows =
    let table = push_rows empty_table rows in
    print_rows-IsFitted table.lens table.rows (push_rows-IsFitted empty_table rows tt)
