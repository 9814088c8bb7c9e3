-- ===== src/Alloc/Checks.antt =====
-- ardain/src/file_alloc.rs: the model run on inputs, and the theorems at inputs.
use ard_tools.Base.{
  ℕ, ◌+◌, ◌++◌, ◌∙◌, ◌%◌, ◌^◌, ◌≤◌, ◌≡◌, refl, Bool, true, false, some, List, [], ◌∷◌, arith, ltb,
  if◌then◌else◌, length, get_elem?, replicate, length-append, length-replicate, Run, ok, err, panic,
}
use ard_tools.Bits
use ard_tools.Arh.Meta.{FileMeta, new_invalid}
use ard_tools.Arh.Meta
use ard_tools.Arh.Blocks
use ard_tools.Arh.Blocks.{BlockAllocTable}
use ard_tools.Arh.Blocks.Mark.{occupied_at}
use ard_tools.Fs.Error.{Error}
use ard_tools.Alloc
use ard_tools.Alloc.{
  size_on_disk, Xbc1Lib, Output, Allocator, EntryFile, raw, best, no_compression, compress_data,
  entry_bytes, write_new_file, replace_file,
}
use ard_tools.Alloc.Place.{touches, Replaced}
use ard_tools.Alloc.Files.{write_new_file_lem, replace_file_lem}

-- A format that does not compress, and a file that logs what is written.
abbrev plain_lib : Xbc1Lib
plain_lib = record {
  CompressionType = Bool;
  zlib = true;
  uncompressed = false;
  Xbc1 = List ℕ;
  decompressed_size = λ xbc1. length xbc1;
  compressed_stream = λ xbc1. xbc1;
  from_decompressed = λ bytes type. some bytes;
  xbc1_bytes = λ xbc1. replicate 0x30 0 ++ xbc1;
}

abbrev log_output : Output
log_output = record {
  Sink = List (ℕ × List ℕ);
  write_at = λ sink offset bytes. some ((offset, bytes) ∷ sink);
}

program : Unit {0}
unfolding Bits.leading_zeros Bits.trailing_zeros Meta.set_flag Blocks.mark_block Blocks.mark_range
    Blocks.mark_start Blocks.mark_end Blocks.mark Blocks.scan_slot Blocks.find_in_slot
    Blocks.find_loop Blocks.find_at_end Blocks.find_blocks Blocks.find_free_space_inner
    Blocks.find_free_space Blocks.find_space_replace Blocks.patch_old Alloc.size_on_disk
    Alloc.entry_bytes Alloc.compress_data Alloc.update_meta Alloc.write_new_file Alloc.replace_file
program = tt

-- Blocks of 16 bytes, of which the first is occupied, and one file without data.
abbrev start : Allocator (List (ℕ × List ℕ))
start = record {
  block_table = record { block_size_pow = 4; block_arr_count = 1; blocks = 2 ^ 63 ∷ [] };
  file_table = new_invalid ∷ [];
  writer = [];
}

abbrev of_ok : Run Error (Allocator (List (ℕ × List ℕ))) → Allocator (List (ℕ × List ℕ))
of_ok (ok alloc) = alloc
of_ok (err e) = start
of_ok panic = start

abbrev twenty : List ℕ
twenty = replicate 20 7

abbrev written : Allocator (List (ℕ × List ℕ))
written = of_ok (write_new_file plain_lib log_output start 0 twenty best)

abbrev rewritten : Allocator (List (ℕ × List ℕ))
rewritten = of_ok (replace_file plain_lib log_output written 0 (replicate 40 8) no_compression)

write_runs : write_new_file plain_lib log_output start 0 twenty best ≡ ok written
unfolding program
write_runs = refl

written_offset : written.writer ≡ (16, twenty) ∷ []
unfolding program
written_offset = refl

replace_runs :
    replace_file plain_lib log_output written 0 (replicate 40 8) no_compression ≡ ok rewritten
unfolding program
replace_runs = refl

plain_wire :
    (x : List ℕ) → length (plain_lib.xbc1_bytes x) ≡ length (plain_lib.compressed_stream x) + 0x30
plain_wire x =
    length-append (replicate {A = ℕ} 0x30 0) x ∙ omega (arith, length-replicate {A = ℕ} 0x30 0)

write_new_file_lem_example :
    (entry : EntryFile (List ℕ)) × (payload : List ℕ) × (m : FileMeta) × (compress_data plain_lib
        twenty best
      ≡ ok entry)
    × (entry_bytes plain_lib entry ≡ ok payload)
    × (log_output.write_at [] m.offset payload ≡ some written.writer)
    × (length payload ≡ m.compressed_size)
    × (get_elem? written.file_table 0 ≡ some m)
    × ((if ltb 0 m.compressed_size then m.offset % 2 ^ 4 else 0) ≡ 0)
    × ((if touches (2 ^ 4) m 2 then occupied_at (2 ^ 63 ∷ []) 2 else 0) ≡ 0)
    × ((if touches (2 ^ 4) m 2 then 1 else occupied_at (2 ^ 63 ∷ []) 2)
        ≤ occupied_at written.block_table.blocks 2)
write_new_file_lem_example =
    write_new_file_lem plain_lib log_output start 0 twenty best 0 2 (omega arith, tt) plain_wire
      write_runs

replace_file_lem_example :
    (file : FileMeta) × (m : FileMeta) × (entry : EntryFile (List ℕ)) × (payload : List ℕ)
    × (compress_data plain_lib (replicate 40 8) no_compression ≡ ok entry)
    × (entry_bytes plain_lib entry ≡ ok payload)
    × (log_output.write_at written.writer m.offset payload ≡ some rewritten.writer)
    × (m.compressed_size ≡ size_on_disk plain_lib entry)
    × Replaced written.block_table written.file_table rewritten.block_table rewritten.file_table 0 0
        2 file m
replace_file_lem_example =
    replace_file_lem plain_lib log_output written 0 (replicate 40 8) no_compression 0 2 replace_runs
