-- ===== src/Buffers/Flush/ReadBack.antt =====
-- fuse-ard/src/write.rs, fuse-ard/src/fs.rs: where a flush puts the data of a file, and reads after it.
use ard_tools.Base.{
  ℕ, ◌+◌, ◌^◌, ◌<◌, ◌≤◌, ◌≡◌, ◌≢◌, refl, sym, ap, ◌∙◌, inl, inr, none, some, List, [], arith, ltb,
  length, take, drop, set, get_elem?, get_elem?-set_self, get_elem?-set_ne, lt_of_get_elem?,
  Bool-cases, Option-cases, ok,
}
use ard_tools.Arh.Meta.{FileMeta, get_meta}
use ard_tools.Arh.Strings.{ReadLe}
use ard_tools.Fs.System.{ArhFileSystem, file_id, get_file_info}
use ard_tools.Ard
use ard_tools.Ard.{Decompressor, skip_take, read_range}
use ard_tools.Alloc
use ard_tools.Alloc.{
  Xbc1Lib, Allocator, EntryFile, raw, raw_wrapped, compressed, best, size_on_disk, entry_bytes,
  entry_kind, compress_data, compression_type, choose_entry, replace_file,
}
use ard_tools.Alloc.Stored.{IsStored, replace_file-IsStored, replace_file-there}
use ard_tools.Buffers.{FileBuffer, run_all}
use ard_tools.Buffers.Flush.{ArdFile, Flushed, to_output, flush}
use ard_tools.Buffers.Flush.Stored.{
  IsFile, IsFormat, IsFlushed, flush-IsFlushed, read_raw, read_packed,
}

-- `compress_data` for the strategy that a flush asks for.
compress_data-best :
    (lib : Xbc1Lib) (bytes : List ℕ) {entry : EntryFile lib.Xbc1}
    → compress_data lib bytes best ≡ ok entry
    → (x : lib.Xbc1) × (lib.from_decompressed bytes lib.zlib ≡ some x)
      × (entry ≡ choose_entry lib bytes best x)
unfolding compress_data
compress_data-best lib bytes {entry} e =
    elim (Option-cases (lib.from_decompressed bytes lib.zlib)) [
      | inl fails ↦ absurd (ground (arith, e, fails))
      | inr (x, packs) ↦ (x, packs, ground (arith, e, packs))
    ]

payload_raw :
    (lib : Xbc1Lib) (bytes payload : List ℕ)
    → entry_bytes lib (raw bytes) ≡ ok payload
    → bytes ≡ payload
unfolding entry_bytes
payload_raw lib bytes payload e = ground (arith, e)

payload_compressed :
    (lib : Xbc1Lib) (x : lib.Xbc1) (payload : List ℕ)
    → entry_bytes lib (compressed x) ≡ ok payload
    → lib.xbc1_bytes x ≡ payload
unfolding entry_bytes
payload_compressed lib x payload e = ground (arith, e)

raw_size : (lib : Xbc1Lib) (bytes : List ℕ) → size_on_disk lib (raw bytes) ≡ length bytes
unfolding size_on_disk
raw_size lib bytes = refl

module _ (xbc1 : Decompressor) (lib : Xbc1Lib) (file : ArdFile) (is_file : IsFile file)
    (format : IsFormat lib xbc1) where
  -- Where the data is stored, it is read.
  read_stored :
      (alloc after : Allocator (List ℕ)) (id : ℕ) (entry : EntryFile lib.Xbc1) (buf : List ℕ)
      (offset size : ℕ)
      → compress_data lib buf best ≡ ok entry
      → (stored : IsStored lib (to_output file) alloc id entry after) → offset ≤ length buf
      → offset + size < 2 ^ 63
      → read_range xbc1 after.writer (skip_take (Ard.entry stored.meta) offset size)
        ≡ ok (take size (drop offset buf))
  read_stored alloc after id entry buf offset size packs stored inside small =
      let (x, packed, chosen) = compress_data-best lib buf packs in
      let stands = is_file.writes alloc.writer stored.meta.offset stored.payload stored.written in
      elim (Bool-cases (ltb (length buf) (length (lib.compressed_stream x) + 0x30))) [
        | inl short ↦
            let as_raw : entry ≡ raw buf = ground (arith, chosen) in
            let same =
              payload_raw lib buf stored.payload
                (ap (entry_bytes lib) (sym as_raw) ∙ stored.packed) in
            read_raw xbc1 lib format after.writer stored.meta buf offset size
              (stored.kind ∙ ap (λ e. (entry_kind lib e).1) as_raw)
              (stored.size ∙ ap (size_on_disk lib) as_raw ∙ raw_size lib buf) (rw same stands)
              inside (omega arith)
        | inr long ↦
            let as_packed : entry ≡ compressed x = ground (arith, chosen) in
            let same =
              payload_compressed lib x stored.payload
                (ap (entry_bytes lib) (sym as_packed) ∙ stored.packed) in
            read_packed xbc1 lib format after.writer stored.meta buf offset size packed
              (stored.kind ∙ ap (λ e. (entry_kind lib e).1) as_packed ∙ format.sizes buf packed)
              (ground arith) (rw same stands) inside small
      ]

Alloc_new-files :
    (arh : ArhFileSystem) (ard : List ℕ) → (Alloc.new arh ard).file_table ≡ arh.arh.file_table
unfolding Alloc.new
Alloc_new-files arh ard = refl

module _ (reader : ReadLe) where
  get_file_info-found :
      (fs : ArhFileSystem) (path : List ℕ) {id leaf_id : ℕ} {m : FileMeta}
      → file_id reader fs path ≡ ok (id, leaf_id)
      → get_meta fs.arh.file_table id ≡ some m
      → get_file_info reader fs path ≡ ok m
  unfolding get_file_info
  get_file_info-found fs path found there = ground (arith, found, there)

module _ (reader : ReadLe) (xbc1 : Decompressor) (lib : Xbc1Lib) (file : ArdFile)
    (buffer : FileBuffer) (arh : ArhFileSystem) (ard content changed : List ℕ) {id leaf_id : ℕ}
    {meta : FileMeta} {now : Flushed} (found : file_id reader arh buffer.path ≡ ok (id, leaf_id))
    (there : get_meta arh.arh.file_table id ≡ some meta)
    (reads : Ard.read xbc1 ard (Ard.entry meta) ≡ ok content)
    (runs : run_all buffer.operations content ≡ ok changed) where
  now-IsFlushed :
      flush reader xbc1 lib file buffer arh ard ≡ ok now
      → now.result ≡ none
      → IsFlushed reader xbc1 lib file buffer arh ard meta.id changed now
  now-IsFlushed e success =
      flush-IsFlushed reader xbc1 lib file buffer arh ard content changed
        (get_file_info-found reader arh buffer.path found there) reads runs e success

  -- A file keeps its id.
  still_found :
      IsFlushed reader xbc1 lib file buffer arh ard meta.id changed now
      → file_id reader now.arh buffer.path ≡ ok (id, leaf_id)
  still_found parts = ap (λ (f : ArhFileSystem). file_id reader f buffer.path) parts.tables ∙ found

  -- If the metadata of a file name the file's own id, the file is in the file table, its content can be read,
  -- and the operations of its buffer run on it: after a flush that succeeds, the buffer is empty, and a read of a range that
  -- begins within the new content, below 2 ^ 63, returns that range of the new content.
  pub read_range-flush :
      (offset size : ℕ)
      → IsFile file
      → IsFormat lib xbc1
      → meta.id ≡ id
      → offset ≤ length changed
      → offset + size < 2 ^ 63
      → flush reader xbc1 lib file buffer arh ard ≡ ok now
      → now.result ≡ none
      → (m : FileMeta) × (get_file_info reader now.arh buffer.path ≡ ok m)
        × (now.buffer.operations ≡ [])
        × (read_range xbc1 now.ard (skip_take (Ard.entry m) offset size)
            ≡ ok (take size (drop offset changed)))
  read_range-flush offset size is_file format own inside small e success =
      let parts = now-IsFlushed e success in
      let (entry, packs, stored) =
        replace_file-IsStored lib (to_output file) (Alloc.new arh ard) meta.id changed best
          parts.replaces in
      let table : now.arh.arh.file_table ≡ set arh.arh.file_table id stored.meta =
        ap (λ (f : ArhFileSystem). f.arh.file_table) parts.tables
        ∙ stored.files
        ∙ ap (λ t. set t meta.id stored.meta) (Alloc_new-files arh ard)
        ∙ ap (λ i. set arh.arh.file_table i stored.meta) own in
      let here : get_meta now.arh.arh.file_table id ≡ some stored.meta =
        ap (λ t. get_elem? t id) table
        ∙ get_elem?-set_self arh.arh.file_table id stored.meta
            (lt_of_get_elem? arh.arh.file_table id meta there) in
      (
        stored.meta,
        get_file_info-found reader now.arh buffer.path (still_found parts) here,
        ap (λ (b : FileBuffer). b.operations) parts.drained,
        ap (λ b. read_range xbc1 b (skip_take (Ard.entry stored.meta) offset size))
              (is_file.flushes parts.after.writer parts.flushed)
            ∙ read_stored xbc1 lib file is_file format (Alloc.new arh ard) parts.after meta.id entry
                changed offset size packs stored inside small,
      )

  -- Let the metadata of a file name another id than the file's, as those of a recycled entry do, its content be
  -- readable, and the operations of its buffer run on it, with an ARD file that holds what is written to it and a
  -- format that gives back what it has packed. A flush that succeeds empties the buffer and leaves the metadata of
  -- the file as they were, and gives the file with that other id metadata at which a read of a range that begins
  -- within the new content, below 2 ^ 63, returns that range of the new content; the entries of all other files
  -- stay.
  pub flush_stale_id :
      (offset size : ℕ)
      → IsFile file
      → IsFormat lib xbc1
      → meta.id ≢ id
      → offset ≤ length changed
      → offset + size < 2 ^ 63
      → flush reader xbc1 lib file buffer arh ard ≡ ok now
      → now.result ≡ none
      → (m : FileMeta) × (get_file_info reader now.arh buffer.path ≡ ok meta)
        × (now.buffer.operations ≡ [])
        × (now.arh.arh.file_table ≡ set arh.arh.file_table meta.id m)
        × (get_meta now.arh.arh.file_table meta.id ≡ some m)
        × (read_range xbc1 now.ard (skip_take (Ard.entry m) offset size)
            ≡ ok (take size (drop offset changed)))
  flush_stale_id offset size is_file format other inside small e success =
      let parts = now-IsFlushed e success in
      let (entry, packs, stored) =
        replace_file-IsStored lib (to_output file) (Alloc.new arh ard) meta.id changed best
          parts.replaces in
      let (old, known) =
        replace_file-there lib (to_output file) (Alloc.new arh ard) meta.id changed best
          parts.replaces in
      let table : now.arh.arh.file_table ≡ set arh.arh.file_table meta.id stored.meta =
        ap (λ (f : ArhFileSystem). f.arh.file_table) parts.tables
        ∙ stored.files
        ∙ ap (λ t. set t meta.id stored.meta) (Alloc_new-files arh ard) in
      let here : get_meta now.arh.arh.file_table id ≡ some meta =
        ap (λ t. get_elem? t id) table
        ∙ get_elem?-set_ne arh.arh.file_table {i = meta.id} {j = id} stored.meta other
        ∙ there in
      let place : get_meta arh.arh.file_table meta.id ≡ some old =
        ap (λ t. get_elem? t meta.id) (sym (Alloc_new-files arh ard)) ∙ known in
      (
        stored.meta,
        get_file_info-found reader now.arh buffer.path (still_found parts) here,
        ap (λ (b : FileBuffer). b.operations) parts.drained,
        table,
        ap (λ t. get_elem? t meta.id) table
            ∙ get_elem?-set_self arh.arh.file_table meta.id stored.meta
                (lt_of_get_elem? arh.arh.file_table meta.id old place),
        ap (λ b. read_range xbc1 b (skip_take (Ard.entry stored.meta) offset size))
              (is_file.flushes parts.after.writer parts.flushed)
            ∙ read_stored xbc1 lib file is_file format (Alloc.new arh ard) parts.after meta.id entry
                changed offset size packs stored inside small,
      )
