-- ===== src/Mount/WriteBack.antt =====
-- fuse-ard/src/fs.rs, fuse-ard/src/write.rs: `write`, `flush` and `read` of the driver, one after the other.
mod Checks
use ard_tools.Base.{
  ℕ, zero, suc, ◌+◌, ◌^◌, ◌<◌, ◌≤◌, ◌≡◌, ◌⊎◌, refl, sym, ap, ◌∙◌, inl, inr, true, false, Option,
  none, some, List, [], ◌∷◌, ◌++◌, arith, ltb, leb, length, length-append, take, drop, drop-append,
  set, get_elem?, get_elem?-set_self, lt_of_get_elem?, dec_lt, ◌||◌, Bool-cases, Option-cases,
  Run-cases, Run, ok, err, panic,
}
use ard_tools.Arh.Meta.{FileMeta, get_meta}
use ard_tools.Arh.Strings.{ReadLe}
use ard_tools.Path.{Text}
use ard_tools.Fs.Error.{Error}
use ard_tools.Fs.System.{ArhFileSystem, file_id, get_file_info}
use ard_tools.Ard
use ard_tools.Ard.{Decompressor, skip_take, read_range}
use ard_tools.Ard.Ranges.{take_all}
use ard_tools.Alloc.{Xbc1Lib}
use ard_tools.Buffers
use ard_tools.Buffers.{FileBuffer, copy_at, run_write, run_all, get_handle}
use ard_tools.Buffers.Laws.{length-copy_at}
use ard_tools.Buffers.Flush.{ArdFile, Flushed, flush}
use ard_tools.Buffers.Flush.Stored.{IsFile, IsFormat}
use ard_tools.Buffers.Flush.ReadBack.{read_range-flush}
use ard_tools.Mount.{
  Mount, Reply, get_path, error, done, written, contents, eio, enotsup, find_inode,
}
use ard_tools.Mount.Handlers.{Handled, push_operation, write_file, read}
use ard_tools.Mount.Sync.{flush_reply, flush_file}

copy_at-range :
    (buffer : List ℕ) (offset : ℕ) (bytes : List ℕ)
    → offset + length bytes ≤ length buffer
    → take (length bytes) (drop offset (copy_at buffer offset bytes)) ≡ bytes
unfolding copy_at
copy_at-range [] zero [] fits = refl
copy_at-range [] zero (d ∷ ds) fits = absurd (omega (arith, fits))
copy_at-range [] (suc offset) bytes fits = absurd (omega (arith, fits))
copy_at-range (b ∷ bs) (suc offset) bytes fits = copy_at-range bs offset bytes (omega (arith, fits))
copy_at-range (b ∷ bs) zero [] fits = refl
copy_at-range (b ∷ bs) zero (d ∷ ds) fits =
    ap (λ t. d ∷ t) (copy_at-range bs zero ds (omega (arith, fits)))

-- What a write makes of the content, with its bytes where they were written.
abbrev IsWritten : ℕ → List ℕ → List ℕ → Type 0
IsWritten offset bytes content =
    (r : List ℕ) × (run_all (Buffers.write offset bytes ∷ []) content ≡ ok r)
    × (offset ≤ length r)
    × (take (length bytes) (drop offset r) ≡ bytes)

write_end :
    (offset : ℕ) (bytes content : List ℕ) → offset ≡ length content → IsWritten offset bytes content
unfolding run_all Buffers.run run_write
write_end offset bytes content at_end = (
  content ++ bytes,
  ground (arith, at_end),
  omega (arith, at_end, length-append content bytes),
  ap (λ n. take (length bytes) (drop n (content ++ bytes))) at_end
      ∙ ap (take (length bytes)) (drop-append content bytes)
      ∙ take_all (length bytes) bytes (omega arith),
)

-- A write within the content, or at its end.
write_cases :
    (offset : ℕ) (bytes content : List ℕ)
    → (offset + length bytes ≤ length content) ⊎ (offset ≡ length content)
    → IsWritten offset bytes content
unfolding run_all Buffers.run run_write
write_cases offset bytes content (inr at_end) = write_end offset bytes content at_end
write_cases offset bytes content (inl inside) = elim (dec_lt offset (length content)) [
  | yes front ↦ (
    copy_at content offset bytes,
    ground (arith, inside, front),
    omega (arith, inside, length-copy_at content offset bytes),
    copy_at-range content offset bytes inside,
  )
  | no past ↦ write_end offset bytes content (omega (arith, inside))
]

get_path-same :
    (m n : Mount) (ino : ℕ) → m.inode_cache ≡ n.inode_cache → get_path m ino ≡ get_path n ino
unfolding get_path
get_path-same m n ino same = rw same refl

module _ (reader : ReadLe) (xbc1 : Decompressor) (lib : Xbc1Lib) (file : ArdFile) where
  reply_done : (o : Option Error) → flush_reply reader xbc1 lib file o ≡ done → o ≡ none
  reply_done none e = refl
  reply_done (some why) e = cc

  -- What a `flush` of the driver that replies `done` has done, for a handle with a buffer.
  flush_file-done :
      (m : Mount) (fh : ℕ) (buffer : FileBuffer) (bytes : List ℕ) {after : Mount}
      → get_handle m.write_buffers fh ≡ some buffer
      → m.ard ≡ some bytes
      → flush_file reader xbc1 lib file m fh ≡ ok (after, done)
      → (now : Flushed) × (flush reader xbc1 lib file buffer m.arh bytes ≡ ok now)
        × (now.result ≡ none)
        × (after ≡ record m {
          arh = now.arh;
          ard = some now.ard;
          write_buffers = set m.write_buffers fh now.buffer;
        })
  unfolding flush_file
  flush_file-done m fh buffer bytes {after} handle stored e =
      elim (Run-cases (flush reader xbc1 lib file buffer m.arh bytes)) [
        | inr (inr broken) ↦ absurd (ground (arith, e, handle, stored))
        | inr (inl (why, refused)) ↦ absurd (ground (arith, e, handle, stored))
        | inl (now, flushes) ↦
            let reply : flush_reply reader xbc1 lib file now.result ≡ done =
              ground (arith, e, handle, stored, flushes) in
            let same : record m {
              arh = now.arh;
              ard = some now.ard;
              write_buffers = set m.write_buffers fh now.buffer;
            }
                ≡ after =
              ground (arith, e, handle, stored, flushes) in
            (now, flushes, reply_done now.result reply, sym same)
      ]

  read_found :
      (hash : Text → ℕ) (m : Mount) (ino offset size : ℕ) (path : Text) (bytes found : List ℕ)
      {meta : FileMeta}
      → get_path m ino ≡ some path
      → get_file_info reader m.arh path ≡ ok meta
      → m.ard ≡ some bytes
      → read_range xbc1 bytes (skip_take (Ard.entry meta) offset size) ≡ ok found
      → offset < 2 ^ 63
      → read reader hash xbc1 m ino offset size ≡ ok (m, contents found)
  unfolding read
  read_found hash m ino offset size path bytes found at there stored reads small =
      ground (arith, at, there, stored, reads)

  write_file-pushed :
      (m : Mount) (fh offset : ℕ) (bytes : List ℕ) (buffer : FileBuffer) {after : Mount}
      {reply : Reply}
      → get_handle m.write_buffers fh ≡ some buffer
      → write_file m fh offset bytes ≡ ok (after, reply)
      → after ≡ push_operation m fh buffer (Buffers.write offset bytes)
  unfolding write_file
  write_file-pushed m fh offset bytes buffer handle e =
      elim (Bool-cases (leb (2 ^ 63) offset || leb (2 ^ 32) (length bytes))) [
        | inl refused ↦ absurd (ground (arith, e, handle, refused))
        | inr taken ↦ ground (arith, e, handle, taken)
      ]

  -- For an open file whose buffer has no operations, whose metadata name the file's own id, and whose content
  -- can be read: after a `write` within the content or at its end, below 2 ^ 63, and a `flush` that replies `done`, a `read` of
  -- as many bytes at that offset replies with the bytes that were written.
  pub read-flush_file-write_file :
      (hash : Text → ℕ) (m : Mount) (ino fh offset : ℕ) (bytes ard content : List ℕ)
      {buffer : FileBuffer} {id leaf_id : ℕ} {meta : FileMeta} {held after : Mount} {reply : Reply}
      → IsFile file
      → IsFormat lib xbc1
      → get_handle m.write_buffers fh ≡ some buffer
      → buffer.operations ≡ []
      → get_path m ino ≡ some buffer.path
      → m.ard ≡ some ard
      → file_id reader m.arh buffer.path ≡ ok (id, leaf_id)
      → get_meta m.arh.arh.file_table id ≡ some meta
      → meta.id ≡ id
      → Ard.read xbc1 ard (Ard.entry meta) ≡ ok content
      → (offset + length bytes ≤ length content) ⊎ (offset ≡ length content)
      → offset + length bytes < 2 ^ 63
      → write_file m fh offset bytes ≡ ok (held, reply)
      → flush_file reader xbc1 lib file held fh ≡ ok (after, done)
      → read reader hash xbc1 after ino offset (length bytes) ≡ ok (after, contents bytes)
  read-flush_file-write_file hash m ino fh offset bytes ard content {buffer} {held = held}
        {after = after} is_file format handle fresh at stored found there own reads where_to small
        writes flushes =
      let op = Buffers.write offset bytes in
      let pending = record buffer { operations = buffer.operations ++ op ∷ [] } in
      let (changed, runs, inside, range) = write_cases offset bytes content where_to in
      let held_same = write_file-pushed m fh offset bytes buffer handle writes in
      let still : get_handle (push_operation m fh buffer op).write_buffers fh ≡ some pending =
        get_elem?-set_self m.write_buffers fh pending
          (lt_of_get_elem? m.write_buffers fh buffer handle) in
      let flushes' = ap (λ h. flush_file reader xbc1 lib file h fh) (sym held_same) ∙ flushes in
      let (now, run, success, same) =
        flush_file-done (push_operation m fh buffer op) fh pending ard still stored flushes' in
      let runs' : run_all pending.operations content ≡ ok changed =
        ap (λ ops. run_all (ops ++ op ∷ []) content) fresh ∙ runs in
      let (m', shown, drained, back) =
        read_range-flush reader xbc1 lib file pending m.arh ard content changed found there reads
          runs' offset (length bytes) is_file format own inside small run success in
      read_found hash after ino offset (length bytes) buffer.path now.ard bytes
        (get_path-same after m ino (ap (λ (n : Mount). n.inode_cache) same) ∙ at)
        (ap (λ (n : Mount). get_file_info reader n.arh buffer.path) same ∙ shown)
        (ap (λ (n : Mount). n.ard) same) (back ∙ ap (λ t. ok t) range) (omega (arith, small))
