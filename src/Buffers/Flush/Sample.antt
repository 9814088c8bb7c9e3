-- ===== src/Buffers/Flush/Sample.antt =====
-- fuse-ard/src/write.rs: a file, a format and archives for the runs of the model.
use ard_tools.Base.{
  ℕ, ◌+◌, ◌≡◌, sym, ap, ◌∙◌, Bool, true, false, some, List, [], ◌∷◌, ◌++◌, arith, length,
  length-append, length-replicate, length-take, take, drop, take-append, drop-append, replicate,
  Run, ok, err, panic,
}
use ard_tools.Path.{Text}
use ard_tools.Arh.Recycle
use ard_tools.Arh.Strings.Reader.{little_endian}
use ard_tools.Fs.Error.{Error, io}
use ard_tools.Fs.System
use ard_tools.Fs.System.{ArhFileSystem}
use ard_tools.Fs.Sample.{blank}
use ard_tools.Ard.{Decompressor}
use ard_tools.Alloc.{Xbc1Lib}
use ard_tools.Buffers.{FileBuffer, write}
use ard_tools.Buffers.Flush.{ArdFile}
use ard_tools.Buffers.Flush.Stored.{IsFile, IsFormat}

-- A file that grows by zeros up to where it is written.
abbrev patch : List ℕ → ℕ → List ℕ → List ℕ
patch bytes offset payload =
    take offset (bytes ++ replicate offset 0) ++ (payload ++ drop (offset + length payload) bytes)

abbrev pub grown_file : ArdFile
grown_file = record {
  write_at = λ bytes offset payload. some (patch bytes offset payload);
  flush_output = λ bytes. some bytes;
  left = λ bytes. bytes;
}

drop_at : (n : ℕ) (xs ys : List ℕ) → length xs ≡ n → drop n (xs ++ ys) ≡ ys
drop_at n xs ys e = ap (λ m. drop m (xs ++ ys)) (sym e) ∙ drop-append xs ys

pub grown-IsFile : IsFile grown_file
grown-IsFile = record {
  writes = λ bytes offset payload e.
      let front = take offset (bytes ++ replicate offset 0) in
      let behind = drop (offset + length payload) bytes in
      let size : length front ≡ offset = omega (
        arith,
        length-take offset (bytes ++ replicate offset 0),
        length-append bytes (replicate offset 0),
        length-replicate {A = ℕ} offset 0,
      ) in
      ap (λ t. take (length payload) (drop offset t)) (sym (some_same e))
      ∙ ap (take (length payload)) (drop_at offset front (payload ++ behind) size)
      ∙ take-append payload behind;
  flushes = λ bytes e. sym (some_same e);
}
  where
    some_same : {x y : List ℕ} → some x ≡ some y → x ≡ y
    some_same e = cc

-- A format that stores the number of bytes before them.
abbrev pub counted_lib : Xbc1Lib
counted_lib = record {
  CompressionType = Bool;
  zlib = true;
  uncompressed = false;
  Xbc1 = List ℕ;
  decompressed_size = λ xbc1. length xbc1;
  compressed_stream = λ xbc1. xbc1;
  from_decompressed = λ bytes type. some bytes;
  xbc1_bytes = λ xbc1. length xbc1 ∷ xbc1;
}

abbrev uncounted : List ℕ → Run Error (List ℕ × ℕ)
uncounted [] = err io
uncounted (n ∷ bytes) = ok (take n bytes, n)

abbrev pub counted : Decompressor
counted = record { decompress = uncounted }

pub counted-IsFormat : IsFormat counted_lib counted
counted-IsFormat = record {
  sizes = λ bytes e. ap length (sym (some_same e));
  unpacks = λ bytes more {x} e.
      ap (λ t. uncounted ((length t ∷ t) ++ more)) (sym (some_same e))
      ∙ ap (λ t. ok (t, length bytes)) (take-append bytes more);
}
  where
    some_same : {x y : List ℕ} → some x ≡ some y → x ≡ y
    some_same e = cc

abbrev pub path_ab : Text
path_ab = b'/' ∷ b'a' ∷ b'b' ∷ []

abbrev pub path_ac : Text
path_ac = b'/' ∷ b'a' ∷ b'c' ∷ []

abbrev pub of_made : Run Error (ArhFileSystem × ℕ) → ArhFileSystem
of_made (ok (fs, id)) = fs
of_made (err e) = blank
of_made panic = blank

abbrev of_deleted : Run Error ArhFileSystem → ArhFileSystem
of_deleted (ok fs) = fs
of_deleted (err e) = blank
of_deleted panic = blank

-- An archive without files, with a section of 64 free blocks.
abbrev empty_fs : ArhFileSystem
empty_fs = record blank {
  arh = record (blank.arh) {
    arh_ext_section = some (record {
      allocated_blocks = record { block_size_pow = 9; block_arr_count = 1; blocks = 0 ∷ [] };
      file_meta_recycle_bin = Recycle.empty;
    });
  };
}

-- The archive of "/ab", and one where "/ac" is in the entry of a file that was deleted.
abbrev pub one_fs : ArhFileSystem
one_fs = of_made (System.create_file little_endian empty_fs path_ab)

abbrev pub recycled_fs : ArhFileSystem
recycled_fs =
    let two = of_made (System.create_file little_endian one_fs path_ac) in
    of_made (
      System.create_file little_endian (of_deleted (System.delete_file little_endian two path_ac))
        path_ac)

-- "hi!" at the front of a file.
abbrev pub greeting : List ℕ
greeting = b'h' ∷ b'i' ∷ b'!' ∷ []

abbrev pub buffer_of : Text → FileBuffer
buffer_of path = record { path = path; operations = write 0 greeting ∷ [] }
