-- ===== src/Ard.antt =====
-- ardain/src/ard.rs: `ArdReader` and the readers of an entry. The ARD file is the list of its bytes,
-- shorter than 2^63; what `xc3_lib` reads from it and decompresses is a parameter.
pub mod Ranges
mod Checks
use ard_tools.Base.{
  ℕ, ◌+◌, ◌-◌, ◌^◌, ◌<◌, ◌≤◌, ◌≡◌, Bool, true, false, not, Option, none, some, List, arith, ltb,
  leb, min, ◌==◌, if◌then◌else◌, length, take, drop, Run, ok, err, panic, ◌>>=◌,
}
use ard_tools.Arh.Meta.{FileMeta}
use ard_tools.Fs.Error.{Error, io, size_convert}

-- `Xbc1::read` of the bytes from a position on, and `decompress`: the bytes, and the field
-- `decompressed_size`.
pub record Decompressor : Type 0 where
  pub decompress : List ℕ → Run Error (List ℕ × ℕ)

pub record EntryReader : Type 0 where
  pub offset : ℕ
  pub entry_size : ℕ
  pub compressed : Bool

pub record OffsetReader : Type 0 where
  pub entry : EntryReader
  pub offset : ℕ
  pub max_size : Option ℕ

-- `ArdReader::entry`.
abbrev pub entry : FileMeta → EntryReader
entry file = record {
  offset = file.offset;
  entry_size = file.compressed_size;
  compressed = not (file.uncompressed_size == 0);
}

-- `&buf[start..end]`, which panics out of range.
abbrev pub slice : List ℕ → ℕ → ℕ → Run Error (List ℕ)
slice buf start end =
    if leb start end
    then (if leb end (length buf) then ok (take (end - start) (drop start buf)) else panic)
    else panic

-- `u64::saturating_add`.
abbrev pub saturating_add : ℕ → ℕ → ℕ
saturating_add a b = min (a + b) (2 ^ 64 - 1)

-- `read_exact` of `size` bytes from a position of the file.
abbrev pub read_exact : List ℕ → ℕ → ℕ → Run Error (List ℕ)
read_exact bytes position size =
    if leb size (length (drop position bytes)) then ok (take size (drop position bytes)) else err io

module _ (xbc1 : Decompressor) (bytes : List ℕ) where
  -- `EntryReader::read_at`, of a compressed entry and of one that is not.
  unfoldable pub read_compressed : EntryReader → ℕ → ℕ → Run Error (List ℕ)
  read_compressed reader offset_in_entry max_size = do
    (buf, decompressed_size) ← xbc1.decompress (drop reader.offset bytes)
    slice buf offset_in_entry (min (saturating_add offset_in_entry max_size) decompressed_size)

  unfoldable pub read_plain : EntryReader → ℕ → ℕ → Run Error (List ℕ)
  read_plain reader offset_in_entry max_size =
      let size = min (reader.entry_size - offset_in_entry) max_size in
      if ltb offset_in_entry (2 ^ 63)
      then read_exact bytes (reader.offset + offset_in_entry) size
      else err size_convert

  unfoldable pub read_at : EntryReader → ℕ → ℕ → Run Error (List ℕ)
  read_at reader offset_in_entry max_size =
      if reader.compressed
      then read_compressed reader offset_in_entry max_size
      else read_plain reader offset_in_entry max_size

  -- `EntryReader::read`.
  unfoldable pub read : EntryReader → Run Error (List ℕ)
  read reader = read_at reader 0 reader.entry_size

  -- `OffsetReader::read`.
  unfoldable pub read_range : OffsetReader → Run Error (List ℕ)
  read_range reader = elim reader.max_size [
    | none ↦ read_at reader.entry reader.offset reader.entry.entry_size
    | some size ↦ read_at reader.entry reader.offset size
  ]

-- `EntryReader::skip_take`.
abbrev pub skip_take : EntryReader → ℕ → ℕ → OffsetReader
skip_take reader skip size = record { entry = reader; offset = skip; max_size = some size }
