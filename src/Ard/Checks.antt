-- ===== src/Ard/Checks.antt =====
-- ardain/src/ard.rs: the readers at inputs.
use ard_tools.Base.{ℕ, ◌+◌, ◌≡◌, ◌++◌, refl, arith, List, [], ◌∷◌, length, ok, err}
use ard_tools.Arh.Meta.{FileMeta, new_invalid}
use ard_tools.Fs.Error.{io}
use ard_tools.Ard
use ard_tools.Ard.{Decompressor, entry, skip_take}
use ard_tools.Ard.Ranges.{read_range-append, read_compressed_cut}

-- A format whose entries stand for their bytes twice over.
abbrev twice : Decompressor
twice = record { decompress = λ bytes. ok (bytes ++ bytes, length bytes + length bytes) }

abbrev data_bytes : List ℕ
data_bytes = 9 ∷ 1 ∷ 2 ∷ 3 ∷ 4 ∷ []

abbrev plain_file : FileMeta
plain_file = record new_invalid { offset = 1; compressed_size = 4 }

abbrev packed_file : FileMeta
packed_file = record new_invalid { offset = 2; compressed_size = 3; uncompressed_size = 6 }

past_end : Ard.read twice data_bytes (entry (record plain_file { offset = 3 })) ≡ err io
unfolding Ard.read Ard.read_at Ard.read_plain
past_end = refl

read_range-append_example :
    (front : List ℕ) × (back : List ℕ) × (Ard.read_range twice data_bytes
        (skip_take (entry plain_file) 1 2)
      ≡ ok front)
    × (Ard.read_range twice data_bytes (skip_take (entry plain_file) (1 + 2) 5) ≡ ok back)
    × (Ard.read_range twice data_bytes (skip_take (entry plain_file) 1 (2 + 5))
        ≡ ok (front ++ back))
read_range-append_example =
    read_range-append twice data_bytes plain_file refl (omega arith) 1 2 5 (omega arith)

read_compressed_cut_example :
    (Ard.read twice data_bytes (entry packed_file) ≡ ok (2 ∷ 3 ∷ 4 ∷ []))
    × (Ard.read_range twice data_bytes (skip_take (entry packed_file) 0 6)
        ≡ ok (2 ∷ 3 ∷ 4 ∷ 2 ∷ 3 ∷ 4 ∷ []))
read_compressed_cut_example =
    read_compressed_cut twice data_bytes (2 ∷ 3 ∷ 4 ∷ 2 ∷ 3 ∷ 4 ∷ []) packed_file 6
      (λ e. ground arith) refl (omega arith) (omega arith) (omega arith)
