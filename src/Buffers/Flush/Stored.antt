-- ===== src/Buffers/Flush/Stored.antt =====
-- fuse-ard/src/write.rs, fuse-ard/src/fs.rs: what was written to a file and flushed is read back from the
-- ARD file.
use ard_tools.Base.{
  ℕ, zero, suc, ◌+◌, ◌-◌, ◌^◌, ◌<◌, ◌≤◌, ◌≡◌, refl, sym, ap, ◌∙◌, inl, inr, Option, none, some,
  List, [], ◌∷◌, ◌++◌, arith, min, length, take, drop, length-take, length-drop, take-append-drop,
  Option-cases, Run-cases, ok,
}
use ard_tools.Arh.Meta.{FileMeta}
use ard_tools.Arh.Strings.{ReadLe}
use ard_tools.Fs.Error.{Error, io}
use ard_tools.Fs.System.{ArhFileSystem, get_file_info}
use ard_tools.Ard
use ard_tools.Ard.{Decompressor, skip_take, read_range, read_at, read_plain, read_compressed}
use ard_tools.Ard.Ranges.{take-min, drop_add}
use ard_tools.Alloc
use ard_tools.Alloc.{
  Xbc1Lib, Allocator, EntryFile, raw, raw_wrapped, compressed, best, size_on_disk, entry_bytes,
  entry_kind, compress_data, choose_entry, replace_file,
}
use ard_tools.Buffers.{FileBuffer, run_all}
use ard_tools.Buffers.Flush.{ArdFile, Flushed, to_output, with_tables, store, flush}

-- What the driver relies on of the file: the bytes that were written at an offset stand there, and a flush
-- of the `BufWriter` does not change them.
pub record IsFile (file : ArdFile) : Type 0 where
  pub writes :
      (bytes : List ℕ) (offset : ℕ) (payload : List ℕ) {after : List ℕ}
      → file.write_at bytes offset payload ≡ some after
      → take (length payload) (drop offset after) ≡ payload
  pub flushes :
      (bytes : List ℕ) {after : List ℕ} → file.flush_output bytes ≡ some after → after ≡ bytes

-- What it relies on of `xc3_lib`: the size that is stored is that of the data, and decompression, which does not look
-- behind the entry, gives the data back.
pub record IsFormat (lib : Xbc1Lib) (xbc1 : Decompressor) : Type 0 where
  pub sizes :
      (bytes : List ℕ) {x : lib.Xbc1}
      → lib.from_decompressed bytes lib.zlib ≡ some x
      → lib.decompressed_size x ≡ length bytes
  pub unpacks :
      (bytes more : List ℕ) {x : lib.Xbc1}
      → lib.from_decompressed bytes lib.zlib ≡ some x
      → xbc1.decompress (lib.xbc1_bytes x ++ more) ≡ ok (bytes, length bytes)

take-take : (a b : ℕ) (xs : List ℕ) → a ≤ b → take a (take b xs) ≡ take a xs
take-take zero b xs h = refl
take-take (suc a) zero xs h = absurd (omega (arith, h))
take-take (suc a) (suc b) [] h = refl
take-take (suc a) (suc b) (x ∷ xs) h = ap (λ t. x ∷ t) (take-take a b xs (omega (arith, h)))

drop-take : (k n : ℕ) (xs : List ℕ) → drop k (take n xs) ≡ take (n - k) (drop k xs)
drop-take zero n xs = ap (λ m. take m xs) (omega arith)
drop-take (suc k) zero xs = drop_nil ∙ ap (λ m. take m (drop (suc k) xs)) {x = 0} (omega arith)
  where
    drop_nil : drop {A = ℕ} (suc k) [] ≡ []
    drop_nil = refl
drop-take (suc k) (suc n) [] = sym (take_nil (suc n - suc k))
  where
    take_nil : (m : ℕ) → take {A = ℕ} m [] ≡ []
    take_nil zero = refl
    take_nil (suc m) = refl
drop-take (suc k) (suc n) (x ∷ xs) = drop-take k n xs ∙ ap (λ m. take m (drop k xs)) (omega arith)

-- Data at a position, and a range of them.
range_at :
    (bytes buf : List ℕ) (position offset size : ℕ)
    → take (length buf) (drop position bytes) ≡ buf
    → take (min (length buf - offset) size) (drop (position + offset) bytes)
      ≡ take size (drop offset buf)
range_at bytes buf position offset size at =
    let rest = drop offset (drop position bytes) in
    let cut : drop offset buf ≡ take (length buf - offset) rest =
      ap (drop offset) (sym at) ∙ drop-take offset (length buf) (drop position bytes) in
    ap (take (min (length buf - offset) size)) (sym (drop_add position offset bytes))
    ∙ sym (take-take (min (length buf - offset) size) (length buf - offset) rest (omega arith))
    ∙ ap (take (min (length buf - offset) size)) (sym cut)
    ∙ ap (λ n. take (min n size) (drop offset buf)) (sym (length-drop offset buf))
    ∙ min_take size (drop offset buf)
  where
    min_take : (n : ℕ) (xs : List ℕ) → take (min (length xs) n) xs ≡ take n xs
    min_take n xs = ap (λ m. take m xs) (omega arith) ∙ take-min n xs

module _ (xbc1 : Decompressor) (lib : Xbc1Lib) (format : IsFormat lib xbc1) (bytes : List ℕ)
    (m : FileMeta) where
  -- An entry that was stored as it is, and one that was compressed.
  pub read_raw :
      (buf : List ℕ) (offset size : ℕ)
      → m.uncompressed_size ≡ 0
      → m.compressed_size ≡ length buf
      → take (length buf) (drop m.offset bytes) ≡ buf
      → offset ≤ length buf
      → offset < 2 ^ 63
      → read_range xbc1 bytes (skip_take (Ard.entry m) offset size)
        ≡ ok (take size (drop offset buf))
  unfolding read_range read_at read_plain
  read_raw buf offset size plain whole at inside small =
      let there : length buf ≤ length (drop m.offset bytes) =
        omega (arith, length-take (length buf) (drop m.offset bytes), ap length at) in
      let found = range_at bytes buf m.offset offset size at in
      ground (
        arith,
        plain,
        whole,
        found,
        length-drop (m.offset + offset) bytes,
        length-drop m.offset bytes,
      )

  pub read_packed :
      (buf : List ℕ) (offset size : ℕ) {x : lib.Xbc1}
      → lib.from_decompressed buf lib.zlib ≡ some x
      → m.uncompressed_size ≡ length buf
      → 0 < length buf
      → take (length (lib.xbc1_bytes x)) (drop m.offset bytes) ≡ lib.xbc1_bytes x
      → offset ≤ length buf
      → offset + size < 2 ^ 63
      → read_range xbc1 bytes (skip_take (Ard.entry m) offset size)
        ≡ ok (take size (drop offset buf))
  unfolding read_range read_at read_compressed
  read_packed buf offset size {x} packs whole some_data at inside small =
      let behind = drop (length (lib.xbc1_bytes x)) (drop m.offset bytes) in
      let here : lib.xbc1_bytes x ++ behind ≡ drop m.offset bytes =
        ap (λ t. t ++ behind) (sym at)
        ∙ take-append-drop (length (lib.xbc1_bytes x)) (drop m.offset bytes) in
      let unpacked : xbc1.decompress (drop m.offset bytes) ≡ ok (buf, length buf) =
        ap xbc1.decompress (sym here) ∙ format.unpacks buf behind packs in
      let cut : take (min (offset + size) (length buf) - offset) (drop offset buf)
          ≡ take size (drop offset buf) =
        ap (λ n. take n (drop offset buf)) {y = min size (length (drop offset buf))}
          (omega (arith, length-drop offset buf))
        ∙ take-min size (drop offset buf) in
      ground (arith, whole, unpacked, cut)

some_result : {e : Error} → ◌≡◌ {A = Option Error} (some e) none → ⊥
some_result h = cc

module _ (reader : ReadLe) (xbc1 : Decompressor) (lib : Xbc1Lib) (file : ArdFile) where
  -- What a flush that succeeds has gone through.
  pub record IsFlushed (buffer : FileBuffer) (arh : ArhFileSystem) (ard : List ℕ) (id : ℕ)
      (changed : List ℕ) (now : Flushed) : Type 0 where
    pub after : Allocator (List ℕ)
    pub replaces : replace_file lib (to_output file) (Alloc.new arh ard) id changed best ≡ ok after
    pub flushed : file.flush_output after.writer ≡ some now.ard
    pub tables : now.arh ≡ with_tables arh after
    pub drained : now.buffer ≡ record buffer { operations = [] }

  store-IsFlushed :
      (buffer : FileBuffer) (arh : ArhFileSystem) (ard : List ℕ) (meta : FileMeta)
      (changed : List ℕ) {now : Flushed}
      → store reader xbc1 lib file (record buffer { operations = [] }) arh ard meta changed ≡ ok now
      → now.result ≡ none
      → IsFlushed buffer arh ard meta.id changed now
  unfolding store
  store-IsFlushed buffer arh ard meta changed {now} e success =
      elim (Run-cases
        (replace_file lib (to_output file) (Alloc.new arh ard) meta.id changed best)) [
          | inr (inr broken) ↦ absurd (ground (arith, e))
          | inr (inl (why, fails)) ↦
              let same : some why ≡ now.result = ground (arith, e, fails) in
              absurd (some_result (same ∙ success))
          | inl (after, replaces) ↦ elim (Option-cases (file.flush_output after.writer)) [
            | inl fails ↦
                let same : some io ≡ now.result = ground (arith, e, replaces, fails) in
                absurd (some_result (same ∙ success))
            | inr (bytes, flushes) ↦
                let same : record {
                  buffer = record buffer { operations = [] };
                  arh = with_tables arh after;
                  ard = bytes;
                  result = none;
                }
                    ≡ now =
                  ground (arith, e, replaces, flushes) in
                record {
                  after = after;
                  replaces = replaces;
                  flushed = flushes ∙ ap (λ (f : Flushed). some f.ard) same;
                  tables = sym (ap (λ (f : Flushed). f.arh) same);
                  drained = sym (ap (λ (f : Flushed). f.buffer) same);
                }
          ]
        ]

  pub flush-IsFlushed :
      (buffer : FileBuffer) (arh : ArhFileSystem) (ard content changed : List ℕ) {meta : FileMeta}
      {now : Flushed}
      → get_file_info reader arh buffer.path ≡ ok meta
      → Ard.read xbc1 ard (Ard.entry meta) ≡ ok content
      → run_all buffer.operations content ≡ ok changed
      → flush reader xbc1 lib file buffer arh ard ≡ ok now
      → now.result ≡ none
      → IsFlushed buffer arh ard meta.id changed now
  unfolding flush
  flush-IsFlushed buffer arh ard content changed {meta} {now} found reads runs e success =
      let run : store reader xbc1 lib file (record buffer { operations = [] }) arh ard meta changed
          ≡ ok now =
        ground (arith, e, found, reads, runs) in
      store-IsFlushed buffer arh ard meta changed run success
