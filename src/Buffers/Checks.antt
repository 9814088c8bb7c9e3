-- ===== src/Buffers/Checks.antt =====
-- fuse-ard/src/write.rs: the model run on inputs, and the theorems at inputs.
use ard_tools.Base.{ℕ, ◌≡◌, List, [], ◌∷◌, arith, length, binary_search, ok}
use ard_tools.Path.{Text}
use ard_tools.Fs.Tree
use ard_tools.Buffers
use ard_tools.Buffers.{FileBuffer, truncate, write, run, open_buffer, get_handle}
use ard_tools.Buffers.Laws.{run_write_across, open_buffer-moves}

abbrev four : List ℕ
four = 1 ∷ 2 ∷ 3 ∷ 4 ∷ []

-- Five bytes at offset 2: seven are wanted.
run_write_across_example :
    (r : List ℕ) × (run (write 2 (5 ∷ 6 ∷ 7 ∷ 8 ∷ 9 ∷ [])) four ≡ ok r) × (length r ≡ 5)
run_write_across_example =
    run_write_across 2 (5 ∷ 6 ∷ 7 ∷ 8 ∷ 9 ∷ []) four (omega arith) (omega arith)

-- "/b" is open with handle 0 when "/a" is opened.
abbrev path_a : Text
path_a = b'/' ∷ b'a' ∷ []

abbrev one_open : List FileBuffer
one_open = record { path = b'/' ∷ b'b' ∷ []; operations = [] } ∷ []

open_buffer-moves_example : get_handle (open_buffer one_open path_a).0 1 ≡ get_handle one_open 0
unfolding binary_search Tree.compare_text Buffers.open_buffer
open_buffer-moves_example = open_buffer-moves one_open path_a 0
