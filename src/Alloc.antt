-- ===== src/Alloc.antt =====
-- ardain/src/file_alloc.rs. The XBC1 format is code of the `xc3_lib` crate, and the file that is
-- written is any `Write + Seek`: both are parameters, records of what the code uses of them.
pub mod Place
pub mod Files
pub mod Stored
mod Checks
use ard_tools.Base.{
  ℕ, ◌+◌, ◌^◌, ◌<◌, ◌≤◌, ◌≡◌, Bool, true, false, Option, none, some, List, [], ◌∷◌, arith, ltb, leb,
  if◌then◌else◌, length, set, Run, ok, err, panic, unwrap, ok_or, ◌>>=◌,
}
use ard_tools.Arh.Meta.{FileMeta, has_xbc1_header, set_flag, get_meta}
use ard_tools.Arh.Blocks
use ard_tools.Arh.Blocks.{BlockAllocTable}
use ard_tools.Arh.State.{get_or_init_ext}
use ard_tools.Fs.System.{ArhFileSystem}
use ard_tools.Fs.Error.{Error, io}

-- What the code uses of `xc3_lib`: the types `Xbc1` and `CompressionType`, two fields, and the
-- functions `from_decompressed` (`none` is its error) and `write`.
pub record Xbc1Lib : Type 1 where
  pub CompressionType : Type 0
  pub zlib : CompressionType
  pub uncompressed : CompressionType
  pub Xbc1 : Type 0
  pub decompressed_size : Xbc1 → ℕ
  pub compressed_stream : Xbc1 → List ℕ
  pub from_decompressed : List ℕ → CompressionType → Option Xbc1
  pub xbc1_bytes : Xbc1 → List ℕ

-- The file that an `ArdWriter` wraps: bytes are written at an offset, or there is an error.
pub record Output : Type 1 where
  pub Sink : Type 0
  pub write_at : Sink → ℕ → List ℕ → Option Sink

pub data CompressionStrategy (CompressionType : Type 0) : Type 0 where
  no_compression best : CompressionStrategy CompressionType
  standard : CompressionType → CompressionStrategy CompressionType

pub data EntryFile (Xbc1 : Type 0) : Type 0 where
  raw raw_wrapped : List ℕ → EntryFile Xbc1
  compressed : Xbc1 → EntryFile Xbc1

-- What an `ArdFileAllocator` borrows.
pub record Allocator (Sink : Type 0) : Type 0 where
  pub block_table : BlockAllocTable
  pub file_table : List FileMeta
  pub writer : Sink

-- `try_into().unwrap()` of a `usize` to a `u32`.
abbrev pub to_u32 : ℕ → Option ℕ
to_u32 n = if ltb n (2 ^ 32) then some n else none

-- The searches of the block table have no errors.
abbrev pub offset_of : Run (Unit {0}) ℕ → Run Error ℕ
offset_of (ok offset) = ok offset
offset_of (err e) = panic
offset_of panic = panic

-- `ArdFileAllocator::new`: the file system with its section made if need be, of which the allocator
-- borrows the tables.
unfoldable pub new : {Sink : Type 0} → ArhFileSystem → Sink → Allocator Sink
new fs writer =
    let section = get_or_init_ext fs.arh fs.opts in
    record {
      block_table = section.allocated_blocks;
      file_table = fs.arh.file_table;
      writer = writer;
    }

module _ (lib : Xbc1Lib) where
  unfoldable pub size_on_disk : EntryFile lib.Xbc1 → ℕ
  size_on_disk (raw bytes) = length bytes
  size_on_disk (raw_wrapped bytes) = length bytes + 0x30
  size_on_disk (compressed xbc1) = length (lib.compressed_stream xbc1) + 0x30

  -- What `EntryFile::write` writes.
  unfoldable pub entry_bytes : EntryFile lib.Xbc1 → Run Error (List ℕ)
  entry_bytes (raw bytes) = ok bytes
  entry_bytes (compressed xbc1) = ok (lib.xbc1_bytes xbc1)
  entry_bytes (raw_wrapped bytes) = elim (lib.from_decompressed bytes lib.uncompressed) [
    | none ↦ panic
    | some xbc1 ↦ ok (lib.xbc1_bytes xbc1)
  ]

  abbrev pub compression_type : CompressionStrategy lib.CompressionType → lib.CompressionType
  compression_type no_compression = lib.zlib
  compression_type best = lib.zlib
  compression_type (standard type) = type

  -- The last `match` of `compress_data`.
  abbrev pub choose_entry :
      List ℕ → CompressionStrategy lib.CompressionType → lib.Xbc1 → EntryFile lib.Xbc1
  choose_entry bytes no_compression xbc1 = raw bytes
  choose_entry bytes (standard type) xbc1 = compressed xbc1
  choose_entry bytes best xbc1 =
      if ltb (length bytes) (length (lib.compressed_stream xbc1) + 0x30)
      then raw bytes
      else compressed xbc1

  unfoldable pub compress_data :
      List ℕ → CompressionStrategy lib.CompressionType → Run Error (EntryFile lib.Xbc1)
  compress_data bytes no_compression = ok (raw bytes)
  compress_data bytes best = do
    xbc1 ← ok_or (lib.from_decompressed bytes (compression_type best)) io
    ok (choose_entry bytes best xbc1)
  compress_data bytes (standard type) = do
    xbc1 ← ok_or (lib.from_decompressed bytes (compression_type (standard type))) io
    ok (choose_entry bytes (standard type) xbc1)

  -- The flag and the uncompressed size that `update_meta` writes.
  abbrev pub entry_kind : EntryFile lib.Xbc1 → Bool × ℕ
  entry_kind (raw bytes) = (false, 0)
  entry_kind (raw_wrapped bytes) = (true, 0)
  entry_kind (compressed xbc1) = (true, lib.decompressed_size xbc1)

  -- `update_meta`: the table with the new file marked, and the file's new metadata.
  unfoldable pub update_meta :
      BlockAllocTable → EntryFile lib.Xbc1 → FileMeta → ℕ → Run Error (BlockAllocTable × FileMeta)
  update_meta alloc_table entry meta offset = do
    let (has_xbc1, unc_size) = entry_kind entry
    let flagged = set_flag (record meta { offset = offset }) has_xbc1_header has_xbc1
    size ← unwrap (to_u32 (size_on_disk entry))
    let file = record flagged { uncompressed_size = unc_size; compressed_size = size }
    ok (Blocks.mark alloc_table file true, file)

  module _ (output : Output) where
    -- `data.write(self.writer.entry(offset)?)?`.
    abbrev pub write_entry : output.Sink → ℕ → EntryFile lib.Xbc1 → Run Error output.Sink
    write_entry writer offset entry = do
      bytes ← entry_bytes entry
      ok_or (output.write_at writer offset bytes) io

    -- `write_new_file`.
    unfoldable pub write_new_file :
        Allocator output.Sink
        → ℕ
        → List ℕ
        → CompressionStrategy lib.CompressionType
        → Run Error (Allocator output.Sink)
    write_new_file alloc file_id bytes strategy = do
      file ← unwrap (get_meta alloc.file_table file_id)
      entry ← compress_data bytes strategy
      offset ← offset_of (Blocks.find_free_space alloc.block_table (size_on_disk entry))
      writer ← write_entry alloc.writer offset entry
      (table, meta) ← update_meta alloc.block_table entry file offset
      ok (record {
        block_table = table;
        file_table = set alloc.file_table file_id meta;
        writer = writer;
      })

    -- `replace_file` where the new data fits into the old file's place.
    abbrev pub replace_in_place :
        Allocator output.Sink
        → ℕ
        → FileMeta
        → EntryFile lib.Xbc1
        → Run Error (Allocator output.Sink)
    replace_in_place alloc file_id file entry = do
      writer ← write_entry alloc.writer file.offset entry
      (table, meta) ← update_meta alloc.block_table entry file file.offset
      ok (record {
        block_table = table;
        file_table = set alloc.file_table file_id meta;
        writer = writer;
      })

    -- `replace_file` where it does not fit.
    abbrev pub replace_moved :
        Allocator output.Sink
        → ℕ
        → FileMeta
        → EntryFile lib.Xbc1
        → Run Error (Allocator output.Sink)
    replace_moved alloc file_id file entry = do
      offset ← offset_of (Blocks.find_space_replace alloc.block_table file (size_on_disk entry))
      writer ← write_entry alloc.writer offset entry
      let freed = Blocks.mark alloc.block_table file false
      (table, meta) ← update_meta freed entry file offset
      ok (record {
        block_table = table;
        file_table = set alloc.file_table file_id meta;
        writer = writer;
      })

    -- `replace_file`.
    unfoldable pub replace_file :
        Allocator output.Sink
        → ℕ
        → List ℕ
        → CompressionStrategy lib.CompressionType
        → Run Error (Allocator output.Sink)
    replace_file alloc file_id new_data strategy = do
      file ← unwrap (get_meta alloc.file_table file_id)
      entry ← compress_data new_data strategy
      if leb (size_on_disk entry) file.compressed_size
          then replace_in_place alloc file_id file entry
          else replace_moved alloc file_id file entry
