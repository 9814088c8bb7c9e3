-- ===== src/Alloc/Stored.antt =====
-- ardain/src/file_alloc.rs: which bytes `replace_file` writes, and where the file's metadata say they are.
use ard_tools.Base.{
  ℕ, ◌≡◌, ◌∙◌, ap, inl, inr, refl, false, Option, some, List, arith, leb, set, Bool-cases, Run, ok,
  unwrap, ok_or, >>=-eq-ok,
}
use ard_tools.Arh.Meta.{FileMeta, get_meta, set_flag}
use ard_tools.Arh.Blocks
use ard_tools.Arh.Blocks.{BlockAllocTable, find_space_replace}
use ard_tools.Fs.Error.{Error, io}
use ard_tools.Alloc.{
  Xbc1Lib, Output, Allocator, EntryFile, raw, raw_wrapped, compressed, CompressionStrategy,
  size_on_disk, entry_bytes, entry_kind, compress_data, update_meta, write_entry, replace_in_place,
  replace_moved, replace_file, offset_of,
}

unwrap-eq-ok : {A : Type 0} (x : Option A) {a : A} → unwrap {E = Error} x ≡ ok a → x ≡ some a
unwrap-eq-ok x e = ground arith

pub ok_or-eq-ok : {A : Type 0} (x : Option A) {a : A} → ok_or x io ≡ ok a → x ≡ some a
ok_or-eq-ok x e = ground arith

ok_same : {A : Type 0} {a b : A} → ◌≡◌ {A = Run Error A} (ok a) (ok b) → a ≡ b
ok_same e = cc

module _ (lib : Xbc1Lib) (output : Output) where
  -- The entry that was made of the data, its bytes, and the metadata that point at them.
  pub record IsStored (alloc : Allocator output.Sink) (id : ℕ) (entry : EntryFile lib.Xbc1)
      (after : Allocator output.Sink) : Type 0 where
    pub payload : List ℕ
    pub packed : entry_bytes lib entry ≡ ok payload
    pub meta : FileMeta
    pub written : output.write_at alloc.writer meta.offset payload ≡ some after.writer
    pub files : after.file_table ≡ set alloc.file_table id meta
    pub size : meta.compressed_size ≡ size_on_disk lib entry
    pub kind : meta.uncompressed_size ≡ (entry_kind lib entry).1

  updated_meta :
      (t : BlockAllocTable) (entry : EntryFile lib.Xbc1) (file : FileMeta) (offset : ℕ)
      {after : BlockAllocTable} {m : FileMeta}
      → update_meta lib t entry file offset ≡ ok (after, m)
      → (m.offset ≡ offset)
        × (m.compressed_size ≡ size_on_disk lib entry)
        × (m.uncompressed_size ≡ (entry_kind lib entry).1)
  unfolding update_meta set_flag
  updated_meta t (raw bytes) file offset e = (ground arith, ground arith, ground arith)
  updated_meta t (raw_wrapped bytes) file offset e = (ground arith, ground arith, ground arith)
  updated_meta t (compressed xbc1) file offset e = (ground arith, ground arith, ground arith)

  -- The bytes are written, and then the metadata.
  written-IsStored :
      (alloc : Allocator output.Sink) (id : ℕ) (file : FileMeta) (entry : EntryFile lib.Xbc1)
      (t : BlockAllocTable) (offset : ℕ) {writer : output.Sink} {table : BlockAllocTable}
      {m : FileMeta}
      → write_entry lib output alloc.writer offset entry ≡ ok writer
      → update_meta lib t entry file offset ≡ ok (table, m)
      → IsStored alloc id entry
          (record { block_table = table; file_table = set alloc.file_table id m; writer = writer })
  written-IsStored alloc id file entry t offset {writer} {table} {m} writes updates =
      let (payload, packed, e1) = >>=-eq-ok (entry_bytes lib entry) _ writes in
      let (at, size, kind) = updated_meta t entry file offset updates in
      record {
        payload = payload;
        packed = packed;
        meta = m;
        written = ap (λ o. output.write_at alloc.writer o payload) at ∙ ok_or-eq-ok _ e1;
        files = refl;
        size = size;
        kind = kind;
      }

  -- The file that is replaced is in the table.
  pub replace_file-there :
      (alloc : Allocator output.Sink) (id : ℕ) (bytes : List ℕ)
      (strategy : CompressionStrategy lib.CompressionType) {after : Allocator output.Sink}
      → replace_file lib output alloc id bytes strategy ≡ ok after
      → (file : FileMeta) × (get_meta alloc.file_table id ≡ some file)
  unfolding replace_file
  replace_file-there alloc id bytes strategy e =
      let (file, found, e1) = >>=-eq-ok (unwrap (get_meta alloc.file_table id)) _ e in
      (file, unwrap-eq-ok _ found)

  pub replace_file-IsStored :
      (alloc : Allocator output.Sink) (id : ℕ) (bytes : List ℕ)
      (strategy : CompressionStrategy lib.CompressionType) {after : Allocator output.Sink}
      → replace_file lib output alloc id bytes strategy ≡ ok after
      → (entry : EntryFile lib.Xbc1) × (compress_data lib bytes strategy ≡ ok entry)
        × IsStored alloc id entry after
  unfolding replace_file
  replace_file-IsStored alloc id bytes strategy {after} e =
      let (file, found, e1) = >>=-eq-ok (unwrap (get_meta alloc.file_table id)) _ e in
      let (entry, packed, e2) = >>=-eq-ok (compress_data lib bytes strategy) _ e1 in
      elim (Bool-cases (leb (size_on_disk lib entry) file.compressed_size)) [
        | inl fits ↦
            let run : replace_in_place lib output alloc id file entry ≡ ok after =
              ground (arith, e2) in
            let (writer, writes, e3) =
              >>=-eq-ok (write_entry lib output alloc.writer file.offset entry) _ run in
            let ((table, m), updates, e4) =
              >>=-eq-ok (update_meta lib alloc.block_table entry file file.offset) _ e3 in
            rw (← ok_same e4) (
              entry,
              packed,
              written-IsStored alloc id file entry alloc.block_table file.offset writes updates,
            )
        | inr longer ↦
            let run : replace_moved lib output alloc id file entry ≡ ok after =
              ground (arith, e2) in
            let (offset, fits, e3) =
              >>=-eq-ok
                (offset_of (find_space_replace alloc.block_table file (size_on_disk lib entry))) _
                run in
            let (writer, writes, e4) =
              >>=-eq-ok (write_entry lib output alloc.writer offset entry) _ e3 in
            let freed = Blocks.mark alloc.block_table file false in
            let ((table, m), updates, e5) =
              >>=-eq-ok (update_meta lib freed entry file offset) _ e4 in
            rw (← ok_same e5)
              (entry, packed, written-IsStored alloc id file entry freed offset writes updates)
      ]
