-- ===== src/Alloc/Files.antt =====
-- ardain/src/file_alloc.rs: what `write_new_file` and `replace_file` do.
use ard_tools.Base.{
  ℕ, ◌+◌, ◌%◌, ◌^◌, ◌<◌, ◌≤◌, ◌≡◌, inl, inr, sym, ap, ◌∙◌, true, false, Option, some, List, arith,
  ltb, leb, ◌==◌, if◌then◌else◌, length, get_elem?, get_elem?-set_self, lt_of_get_elem?, set, All,
  Bool-cases, Option-cases, Run, ok, unwrap, >>=-eq-ok,
}
use ard_tools.Arh.Meta.{FileMeta, get_meta, set_flag}
use ard_tools.Arh.Blocks
use ard_tools.Arh.Blocks.{BlockAllocTable, find_free_space, find_space_replace}
use ard_tools.Arh.Blocks.Mark.{occupied_at}
use ard_tools.Fs.Error.{Error}
use ard_tools.Alloc.{
  Xbc1Lib, Output, Allocator, EntryFile, raw, raw_wrapped, compressed, CompressionStrategy,
  no_compression, best, standard, size_on_disk, entry_bytes, compress_data, update_meta,
  write_entry, write_new_file, replace_in_place, replace_moved, replace_file, offset_of,
}
use ard_tools.Alloc.Stored.{IsStored, replace_file-IsStored, ok_or-eq-ok}
use ard_tools.Alloc.Place.{
  touches, mark-touches, free_place, set-at, Replaced, Replaced-in_place, Replaced-moved,
}

unwrap-eq-ok : {A : Type 0} (x : Option A) {a : A} → unwrap {E = Error} x ≡ ok a → x ≡ some a
unwrap-eq-ok x e = ground arith

offset_of-eq-ok : (r : Run (Unit {0}) ℕ) {offset : ℕ} → offset_of r ≡ ok offset → r ≡ ok offset
offset_of-eq-ok r e = ground arith

ok_same : {A : Type 0} {a b : A} → ◌≡◌ {A = Run Error A} (ok a) (ok b) → a ≡ b
ok_same e = cc

module _ (lib : Xbc1Lib) where
  update_meta-eq-ok :
      (t : BlockAllocTable) (entry : EntryFile lib.Xbc1) (file : FileMeta) (offset : ℕ)
      {after : BlockAllocTable} {m : FileMeta}
      → update_meta lib t entry file offset ≡ ok (after, m)
      → (after ≡ Blocks.mark t m true)
        × (m.offset ≡ offset)
        × (m.compressed_size ≡ size_on_disk lib entry)
  unfolding update_meta set_flag
  update_meta-eq-ok t (raw bytes) file offset e = (ground arith, ground arith, ground arith)
  update_meta-eq-ok t (raw_wrapped bytes) file offset e = (ground arith, ground arith, ground arith)
  update_meta-eq-ok t (compressed xbc1) file offset e = (ground arith, ground arith, ground arith)

  module _ (output : Output) where
    -- What a success of `write_new_file` went through.
    write_new_file-eq-ok :
        (alloc : Allocator output.Sink) (id : ℕ) (bytes : List ℕ)
        (strategy : CompressionStrategy lib.CompressionType) {after : Allocator output.Sink}
        → write_new_file lib output alloc id bytes strategy ≡ ok after
        → (file : FileMeta) × (entry : EntryFile lib.Xbc1) × (payload : List ℕ) × (m : FileMeta)
          × (get_elem? alloc.file_table id ≡ some file)
          × (compress_data lib bytes strategy ≡ ok entry)
          × (entry_bytes lib entry ≡ ok payload)
          × (output.write_at alloc.writer m.offset payload ≡ some after.writer)
          × (find_free_space alloc.block_table (size_on_disk lib entry) ≡ ok m.offset)
          × (m.compressed_size ≡ size_on_disk lib entry)
          × (after.block_table ≡ Blocks.mark alloc.block_table m true)
          × (after.file_table ≡ set alloc.file_table id m)
    unfolding write_new_file
    write_new_file-eq-ok alloc id bytes strategy {after} e =
        let (file, found, e1) = >>=-eq-ok (unwrap (get_meta alloc.file_table id)) _ e in
        let (entry, packed, e2) = >>=-eq-ok (compress_data lib bytes strategy) _ e1 in
        let (offset, fits, e3) =
          >>=-eq-ok (offset_of (find_free_space alloc.block_table (size_on_disk lib entry))) _ e2 in
        let (writer, written, e4) =
          >>=-eq-ok (write_entry lib output alloc.writer offset entry) _ e3 in
        let ((table, m), updated, e5) =
          >>=-eq-ok (update_meta lib alloc.block_table entry file offset) _ e4 in
        let (marked, at, size) = update_meta-eq-ok alloc.block_table entry file offset updated in
        let (payload, shown, e6) = >>=-eq-ok (entry_bytes lib entry) _ written in
        let sink : writer ≡ after.writer = ground arith in
        (
          file,
          entry,
          payload,
          m,
          unwrap-eq-ok _ found,
          packed,
          shown,
          ap (λ o. output.write_at alloc.writer o payload) at
              ∙ ok_or-eq-ok _ e6
              ∙ ap (λ w. some w) sink,
          offset_of-eq-ok _ fits ∙ ground arith,
          size,
          ground arith,
          ground arith,
        )

    -- The bytes of an entry that `compress_data` makes are as many as its size.
    payload_size :
        (bytes : List ℕ) (strategy : CompressionStrategy lib.CompressionType)
        (entry : EntryFile lib.Xbc1) (payload : List ℕ)
        → ((x : lib.Xbc1) → length (lib.xbc1_bytes x) ≡ length (lib.compressed_stream x) + 0x30)
        → compress_data lib bytes strategy ≡ ok entry
        → entry_bytes lib entry ≡ ok payload
        → length payload ≡ size_on_disk lib entry
    unfolding compress_data entry_bytes size_on_disk
    payload_size bytes strategy (raw held) payload wire e packed = ap length (sym (ok_same packed))
    payload_size bytes strategy (compressed x) payload wire e packed =
        ap length (sym (ok_same packed)) ∙ wire x
    payload_size bytes no_compression (raw_wrapped held) payload wire e packed =
        absurd (ground arith)
    payload_size bytes best (raw_wrapped held) payload wire e packed =
        elim (Option-cases (lib.from_decompressed bytes lib.zlib)) [
          | inl fails ↦ absurd (ground (arith, e, fails))
          | inr (x, packs) ↦ absurd (ground (arith, e, packs))
        ]
    payload_size bytes (standard type) (raw_wrapped held) payload wire e packed =
        elim (Option-cases (lib.from_decompressed bytes type)) [
          | inl fails ↦ absurd (ground (arith, e, fails))
          | inr (x, packs) ↦ absurd (ground (arith, e, packs))
        ]

    -- Where `write_new_file` succeeds, on slots that fit into 64 bits, and the bytes of an XBC1 entry are its stream
    -- and 48 more: the bytes of the entry that `compress_data` made are written at the offset that the file's new
    -- metadata name, and are as many as those say; the file table differs at the file's id only; the file begins at a
    -- block's start; every block in which one of its bytes lies was free before and is occupied after; and no block
    -- that was occupied has become free.
    pub write_new_file_lem :
        (alloc : Allocator output.Sink) (id : ℕ) (bytes : List ℕ)
        (strategy : CompressionStrategy lib.CompressionType) (j k : ℕ)
        {after : Allocator output.Sink}
        → All (λ w. w < 2 ^ 64) alloc.block_table.blocks
        → ((x : lib.Xbc1) → length (lib.xbc1_bytes x) ≡ length (lib.compressed_stream x) + 0x30)
        → write_new_file lib output alloc id bytes strategy ≡ ok after
        → let unit = 2 ^ alloc.block_table.block_size_pow in
          let before = occupied_at alloc.block_table.blocks k in
          (entry : EntryFile lib.Xbc1) × (payload : List ℕ) × (m : FileMeta) × (compress_data lib
              bytes strategy
            ≡ ok entry)
          × (entry_bytes lib entry ≡ ok payload)
          × (output.write_at alloc.writer m.offset payload ≡ some after.writer)
          × (length payload ≡ m.compressed_size)
          × (get_elem? after.file_table j
              ≡ (if j == id then some m else get_elem? alloc.file_table j))
          × ((if ltb 0 m.compressed_size then m.offset % unit else 0) ≡ 0)
          × ((if touches unit m k then before else 0) ≡ 0)
          × ((if touches unit m k then 1 else before) ≤ occupied_at after.block_table.blocks k)
    write_new_file_lem alloc id bytes strategy j k {after} words wire e =
        let (file, entry, payload, m, found, packed, shown, written, fits, size, table, files) =
          write_new_file-eq-ok alloc id bytes strategy e in
        let place : find_free_space alloc.block_table m.compressed_size ≡ ok m.offset =
          rw size fits in
        let (aligned, vacant) = free_place alloc.block_table m k words place in
        (
          entry,
          payload,
          m,
          packed,
          shown,
          written,
          payload_size bytes strategy entry payload wire packed shown ∙ sym size,
          rw files (set-at alloc.file_table m id j found),
          aligned,
          vacant,
          rw table (mark-touches alloc.block_table m k),
        )

    replace_in_place-eq-ok :
        (alloc : Allocator output.Sink) (id : ℕ) (file : FileMeta) (entry : EntryFile lib.Xbc1)
        {after : Allocator output.Sink}
        → replace_in_place lib output alloc id file entry ≡ ok after
        → (m : FileMeta) × (m.offset ≡ file.offset)
          × (m.compressed_size ≡ size_on_disk lib entry)
          × (after.block_table ≡ Blocks.mark alloc.block_table m true)
          × (after.file_table ≡ set alloc.file_table id m)
    replace_in_place-eq-ok alloc id file entry e =
        let (writer, written, e1) =
          >>=-eq-ok (write_entry lib output alloc.writer file.offset entry) _ e in
        let ((table, m), updated, e2) =
          >>=-eq-ok (update_meta lib alloc.block_table entry file file.offset) _ e1 in
        let (marked, at, size) =
          update_meta-eq-ok alloc.block_table entry file file.offset updated in
        (m, at, size, ground arith, ground arith)

    replace_moved-eq-ok :
        (alloc : Allocator output.Sink) (id : ℕ) (file : FileMeta) (entry : EntryFile lib.Xbc1)
        {after : Allocator output.Sink}
        → replace_moved lib output alloc id file entry ≡ ok after
        → (m : FileMeta) × (m.compressed_size ≡ size_on_disk lib entry)
          × (after.block_table ≡ Blocks.mark (Blocks.mark alloc.block_table file false) m true)
          × (after.file_table ≡ set alloc.file_table id m)
    replace_moved-eq-ok alloc id file entry e =
        let (offset, fits, e1) =
          >>=-eq-ok (offset_of (find_space_replace alloc.block_table file (size_on_disk lib entry)))
            _ e in
        let (writer, written, e2) =
          >>=-eq-ok (write_entry lib output alloc.writer offset entry) _ e1 in
        let freed = Blocks.mark alloc.block_table file false in
        let ((table, m), updated, e3) = >>=-eq-ok (update_meta lib freed entry file offset) _ e2 in
        let (marked, at, size) = update_meta-eq-ok freed entry file offset updated in
        (m, size, ground arith, ground arith)

    -- The metadata that the file table has after are those of the data.
    stored_meta :
        (alloc : Allocator output.Sink) (entry : EntryFile lib.Xbc1) (id : ℕ) (m : FileMeta)
        {after : Allocator output.Sink}
        → (stored : IsStored lib output alloc id entry after)
        → after.file_table ≡ set alloc.file_table id m
        → id < length alloc.file_table
        → m ≡ stored.meta
    stored_meta alloc entry id m stored files lies =
        let here : some m ≡ some stored.meta =
          sym (get_elem?-set_self alloc.file_table id m lies)
          ∙ ap (λ t. get_elem? t id) (sym files ∙ stored.files)
          ∙ get_elem?-set_self alloc.file_table id stored.meta lies in
        cc

    -- Where `replace_file` succeeds: the bytes of the entry that `compress_data` made are written at the offset that
    -- the file's new metadata name, and their size is the entry's; the file table differs at the file's id only, and
    -- every block in which one of the file's bytes lies is occupied after. If the new data are no longer than the old
    -- ones, the file also stays where it was, and no block that was occupied has become free.
    pub replace_file_lem :
        (alloc : Allocator output.Sink) (id : ℕ) (bytes : List ℕ)
        (strategy : CompressionStrategy lib.CompressionType) (j k : ℕ)
        {after : Allocator output.Sink}
        → replace_file lib output alloc id bytes strategy ≡ ok after
        → (file : FileMeta) × (m : FileMeta) × (entry : EntryFile lib.Xbc1) × (payload : List ℕ)
          × (compress_data lib bytes strategy ≡ ok entry)
          × (entry_bytes lib entry ≡ ok payload)
          × (output.write_at alloc.writer m.offset payload ≡ some after.writer)
          × (m.compressed_size ≡ size_on_disk lib entry)
          × Replaced alloc.block_table alloc.file_table after.block_table after.file_table id j k
              file m
    unfolding replace_file
    replace_file_lem alloc id bytes strategy j k {after} e =
        let (file, found, e1) = >>=-eq-ok (unwrap (get_meta alloc.file_table id)) _ e in
        let (entry, packed, e2) = >>=-eq-ok (compress_data lib bytes strategy) _ e1 in
        let (made, packs, stored) = replace_file-IsStored lib output alloc id bytes strategy e in
        let lies = lt_of_get_elem? alloc.file_table id file (unwrap-eq-ok _ found) in
        elim (Bool-cases (leb (size_on_disk lib entry) file.compressed_size)) [
          | inl fits ↦
              let (m, here, size, table, files) =
                replace_in_place-eq-ok alloc id file entry {after = after} (ground arith) in
              let own = stored_meta alloc made id m stored files lies in
              (
                file,
                m,
                made,
                stored.payload,
                packs,
                stored.packed,
                ap (λ (n : FileMeta). output.write_at alloc.writer n.offset stored.payload) own
                    ∙ stored.written,
                ap (λ (n : FileMeta). n.compressed_size) own ∙ stored.size,
                Replaced-in_place alloc.block_table alloc.file_table id j k file m
                    (unwrap-eq-ok _ found) here table files,
              )
          | inr longer ↦
              let (m, size, table, files) =
                replace_moved-eq-ok alloc id file entry {after = after} (ground arith) in
              let own = stored_meta alloc made id m stored files lies in
              (
                file,
                m,
                made,
                stored.payload,
                packs,
                stored.packed,
                ap (λ (n : FileMeta). output.write_at alloc.writer n.offset stored.payload) own
                    ∙ stored.written,
                ap (λ (n : FileMeta). n.compressed_size) own ∙ stored.size,
                Replaced-moved alloc.block_table alloc.file_table id j k file m
                    (unwrap-eq-ok _ found) (ground arith) table files,
              )
        ]
