-- ===== src/ListCommand/Checks.antt =====
-- ard-tools/src/ls.rs: the command run on an archive.
use mathlib.Core.List.{map}
use ard_tools.Base.{length, panic, ◌≡◌, refl, true, false, [], ◌∷◌, ok, err, some}
use ard_tools.Arh.Strings.Reader.{little_endian}
use ard_tools.Fs.Sample.{blank}
use ard_tools.Fs.Tree
use ard_tools.ListCommand

-- The archive without files, bare and with the frame.
blank_runs : ListCommand.run little_endian blank (b'/' ∷ []) true ≡ ok []
unfolding ListCommand.run ListCommand.list_children ListCommand.print ListCommand.print_rows
    Tree.get_dir Tree.find_dir Tree.split_first
blank_runs = refl

missing_runs : ListCommand.run little_endian blank (b'/' ∷ b'd' ∷ []) true ≡ err tt
unfolding ListCommand.run Tree.get_dir Tree.find_dir Tree.split_first Tree.search_child
missing_runs = refl

-- 255 in decimal and in hexadecimal.
digits_run :
    (ListCommand.decimal 255 ≡ b'2' ∷ b'5' ∷ b'5' ∷ [])
    × (ListCommand.hexadecimal 255 ≡ b'F' ∷ b'F' ∷ [])
unfolding ListCommand.digits
digits_run = (refl, refl)

-- "ab" in a column of four.
cell_runs :
    ListCommand.print_row ((b'a' ∷ b'b' ∷ []) ∷ []) (4 ∷ [])
    ≡ some (b'a' ∷ b'b' ∷ b' ' ∷ b' ' ∷ b' ' ∷ b' ' ∷ [])
unfolding ListCommand.print_row
cell_runs = refl

-- How long the lines are that frame the table of an archive without files.
framed_runs :
    (elim (ListCommand.run little_endian blank (b'/' ∷ []) false) [
      | ok lines ↦ map length lines
      | err e ↦ []
      | panic ↦ []
    ])
    ≡ 5 ∷ 0 ∷ 37 ∷ 37 ∷ 0 ∷ 22 ∷ []
unfolding ListCommand.run ListCommand.list_children ListCommand.push_row ListCommand.widen
    ListCommand.print ListCommand.print_rows ListCommand.print_row ListCommand.digits Tree.get_dir
    Tree.find_dir Tree.split_first
framed_runs = refl
