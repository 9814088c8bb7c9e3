-- ===== src/Buffers/Flush.antt =====
-- fuse-ard/src/write.rs: `FileBuffer::flush` and `FileBuffers::flush_all`, which put what was written to a
-- file into the archives. The ARD file is the list of its bytes.
pub mod Stored
pub mod ReadBack
pub mod Errors
pub mod Sample
mod Checks
use ard_tools.Base.{ℕ, Option, none, some, List, [], ◌∷◌, Run, ok, err, panic}
use ard_tools.Arh.Meta.{FileMeta}
use ard_tools.Arh.State.{get_or_init_ext}
use ard_tools.Arh.Strings.{ReadLe}
use ard_tools.Fs.Error.{Error, io, size_convert}
use ard_tools.Fs.System.{ArhFileSystem, get_file_info}
use ard_tools.Ard
use ard_tools.Ard.{Decompressor}
use ard_tools.Alloc
use ard_tools.Alloc.{Xbc1Lib, Output, Allocator, best, replace_file}
use ard_tools.Buffers.{FileBuffer, run_all}

-- What the code relies on of the file behind `StandardArdFile`: writes at an offset, `BufWriter::flush`, and
-- what a write or a flush that fails leaves. `none` is an error.
pub record ArdFile : Type 0 where
  pub write_at : List ℕ → ℕ → List ℕ → Option (List ℕ)
  pub flush_output : List ℕ → Option (List ℕ)
  pub left : List ℕ → List ℕ

abbrev pub to_output : ArdFile → Output
to_output ard = record { Sink = List ℕ; write_at = ard.write_at }

-- What a flush leaves: the buffer, the file system, the bytes of the ARD file, and its result.
pub record Flushed : Type 0 where
  pub buffer : FileBuffer
  pub arh : ArhFileSystem
  pub ard : List ℕ
  pub result : Option Error

-- The file system whose section `ArdFileAllocator::new` has made if need be.
abbrev pub with_section : ArhFileSystem → ArhFileSystem
with_section fs = record fs {
  arh = record (fs.arh) { arh_ext_section = some (get_or_init_ext fs.arh fs.opts) };
}

-- The file system with the two tables that the allocator has borrowed.
abbrev pub with_tables : ArhFileSystem → Allocator (List ℕ) → ArhFileSystem
with_tables fs alloc = record fs {
  arh = record (fs.arh) {
    file_table = alloc.file_table;
    arh_ext_section =
        some (record (get_or_init_ext fs.arh fs.opts) { allocated_blocks = alloc.block_table });
  };
}

module _ (reader : ReadLe) (xbc1 : Decompressor) (lib : Xbc1Lib) (file : ArdFile) where
  -- The end of `flush`, once the operations have been drained.
  unfoldable pub store :
      FileBuffer → ArhFileSystem → List ℕ → FileMeta → List ℕ → Run (Unit {0}) Flushed
  store drained arh ard meta buf =
      elim (replace_file lib (to_output file) (Alloc.new arh ard) meta.id buf best) [
        | panic ↦ panic
        | err e ↦ ok (record {
          buffer = drained;
          arh = with_section arh;
          ard = file.left ard;
          result = some e;
        })
        | ok alloc ↦ elim (file.flush_output alloc.writer) [
          | none ↦ ok (record {
            buffer = drained;
            arh = with_tables arh alloc;
            ard = file.left alloc.writer;
            result = some io;
          })
          | some flushed ↦ ok (record {
            buffer = drained;
            arh = with_tables arh alloc;
            ard = flushed;
            result = none;
          })
        ]
      ]

  -- `FileBuffer::flush`. The operations are drained also where one of them fails.
  unfoldable pub flush : FileBuffer → ArhFileSystem → List ℕ → Run (Unit {0}) Flushed
  flush buffer arh ard = elim (get_file_info reader arh buffer.path) [
    | panic ↦ panic
    | err e ↦ ok (record { buffer = buffer; arh = arh; ard = ard; result = none })
    | ok meta ↦ elim (Ard.read xbc1 ard (Ard.entry meta)) [
      | panic ↦ panic
      | err e ↦ ok (record { buffer = buffer; arh = arh; ard = ard; result = some e })
      | ok buf ↦ elim (run_all buffer.operations buf) [
        | panic ↦ panic
        | err e ↦ ok (record {
          buffer = record buffer { operations = [] };
          arh = arh;
          ard = ard;
          result = some size_convert;
        })
        | ok changed ↦ store (record buffer { operations = [] }) arh ard meta changed
      ]
    ]
  ]

  -- `FileBuffers::flush_all`: the buffers, the file system, the bytes, and the first error.
  unfoldable pub flush_all :
      List FileBuffer
      → ArhFileSystem
      → List ℕ
      → Run (Unit {0}) (List FileBuffer × ArhFileSystem × List ℕ × Option Error)
  flush_all [] arh ard = ok ([], arh, ard, none)
  flush_all (buffer ∷ rest) arh ard = elim (flush buffer arh ard) [
    | panic ↦ panic
    | err e ↦ err e
    | ok now ↦ elim now.result [
      | some e ↦ ok (now.buffer ∷ rest, now.arh, now.ard, some e)
      | none ↦ elim (flush_all rest now.arh now.ard) [
        | panic ↦ panic
        | err e ↦ err e
        | ok (files, after, bytes, result) ↦ ok (now.buffer ∷ files, after, bytes, result)
      ]
    ]
  ]
