-- ===== src/Buffers.antt =====
-- fuse-ard/src/write.rs: `FileBuffers` and their operations, which a file keeps until it is flushed.
-- Offsets and sizes are 64-bit numbers on a 64-bit target, so the conversions between them do not fail.
pub mod Laws
pub mod Flush
mod Checks
use ard_tools.Base.{
  ℕ, zero, suc, ◌+◌, ◌-◌, ◌<◌, ◌≤◌, ◌≡◌, Bool, true, false, Option, none, some, List, [], ◌∷◌, ◌++◌,
  arith, ltb, leb, if◌then◌else◌, length, get_elem?, drop, insert_at, remove_at, Search, found,
  missing, binary_search, Run, ok, err, panic,
}
use ard_tools.Path.{Text}
use ard_tools.Fs.Tree.{compare_text}

pub data Operation : Type 0 where
  truncate : ℕ → Operation
  write : ℕ → List ℕ → Operation

pub record FileBuffer : Type 0 where
  pub path : Text
  pub operations : List Operation

-- `Vec::resize(_, 0)`.
unfoldable pub resize : List ℕ → ℕ → List ℕ
resize buffer zero = []
resize [] (suc n) = 0 ∷ resize [] n
resize (b ∷ bs) (suc n) = b ∷ resize bs n

-- `first_area.copy_from_slice(..)`: bytes over those of the buffer from `offset` on, as far as the
-- buffer reaches.
unfoldable pub copy_at : List ℕ → ℕ → List ℕ → List ℕ
copy_at [] offset bytes = []
copy_at (b ∷ bs) (suc offset) bytes = b ∷ copy_at bs offset bytes
copy_at (b ∷ bs) zero [] = b ∷ bs
copy_at (b ∷ bs) zero (d ∷ ds) = d ∷ copy_at bs zero ds

-- `Operation::run` of a write.
unfoldable pub run_write : ℕ → List ℕ → List ℕ → Run (Unit {0}) (List ℕ)
run_write offset bytes buffer =
    let end = offset + length bytes in
    let max_len = length buffer in
    let first_end = if leb end max_len then end else max_len in
    let copied = copy_at buffer offset bytes in
    if ltb offset max_len
    then (if ltb first_end end
        then (if leb first_end (length bytes) then ok (copied ++ drop first_end bytes) else panic)
        else ok copied)
    else ok (buffer ++ bytes)

-- `Operation::run`.
unfoldable pub run : Operation → List ℕ → Run (Unit {0}) (List ℕ)
run (truncate new_size) buffer = ok (resize buffer new_size)
run (write offset bytes) buffer = run_write offset bytes buffer

-- The loop of `FileBuffer::flush` over the operations.
unfoldable pub run_all : List Operation → List ℕ → Run (Unit {0}) (List ℕ)
run_all [] buffer = ok buffer
run_all (op ∷ ops) buffer = elim (run op buffer) [
  | ok next ↦ run_all ops next
  | err e ↦ err e
  | panic ↦ panic
]

-- `FileBuffers::open`: the buffers and the handle. The buffers are sorted by path.
abbrev pub open_at : List FileBuffer → Text → Search → List FileBuffer × ℕ
open_at files path (found i) = (files, i)
open_at files path (missing i) = (insert_at files i (record { path = path; operations = [] }), i)

unfoldable pub open_buffer : List FileBuffer → Text → List FileBuffer × ℕ
open_buffer files path =
    open_at files path (binary_search (λ (f : FileBuffer). compare_text f.path path) files)

-- `FileBuffers::get_handle`.
abbrev pub get_handle : List FileBuffer → ℕ → Option FileBuffer
get_handle files fd = get_elem? files fd

-- `FileBuffers::release`.
unfoldable pub release : List FileBuffer → ℕ → List FileBuffer
release files fd = if ltb fd (length files) then remove_at files fd else files
