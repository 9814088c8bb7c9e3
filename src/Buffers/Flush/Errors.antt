-- ===== src/Buffers/Flush/Errors.antt =====
-- fuse-ard/src/write.rs: what a flush that fails leaves, and where `flush_all` stops.
use ard_tools.Base.{
  ℕ, ◌≡◌, ◌⊎◌, refl, sym, ap, ◌∙◌, inl, inr, Option, none, some, List, [], ◌∷◌, arith, length,
  length-set, get_elem?-some, lt_of_get_elem?, Option-cases, Run-cases, Run, ok, err,
}
use ard_tools.Arh.Meta.{FileMeta, get_meta}
use ard_tools.Arh.Strings.{ReadLe}
use ard_tools.Fs.Error.{Error, io, size_convert}
use ard_tools.Fs.Lookup.{get_file_id}
use ard_tools.Fs.System.{ArhFileSystem, file_id, get_file_info}
use ard_tools.Ard
use ard_tools.Ard.{Decompressor}
use ard_tools.Alloc
use ard_tools.Alloc.{Xbc1Lib, Allocator, best, replace_file}
use ard_tools.Alloc.Stored.{replace_file-IsStored}
use ard_tools.Buffers.{FileBuffer, run_all}
use ard_tools.Buffers.Flush.{
  ArdFile, Flushed, to_output, with_section, with_tables, store, flush, flush_all,
}

some_same : {e why : Error} → ◌≡◌ {A = Option Error} (some e) (some why) → e ≡ why
some_same h = cc

none_result : {e : Error} → ◌≡◌ {A = Option Error} none (some e) → ⊥
none_result h = cc

module _ (reader : ReadLe) (xbc1 : Decompressor) (lib : Xbc1Lib) (file : ArdFile) where
  -- What is left where nothing has been stored: a path dictionary, a string table, a directory tree and
  -- file metadata as they were.
  abbrev pub SameFiles : ArhFileSystem → ArhFileSystem → Type 0
  SameFiles before after =
      (after.arh.path_dict ≡ before.arh.path_dict)
      × (after.arh.string_table ≡ before.arh.string_table)
      × (after.arh.file_table ≡ before.arh.file_table)
      × (after.dir_tree ≡ before.dir_tree)

  store-error :
      (drained : FileBuffer) (arh : ArhFileSystem) (ard : List ℕ) (meta : FileMeta) (buf : List ℕ)
      {now : Flushed} {why : Error}
      → store reader xbc1 lib file drained arh ard meta buf ≡ ok now
      → now.result ≡ some why
      → (now.buffer ≡ drained)
        × (SameFiles arh now.arh
            ⊎ ((alloc : Allocator (List ℕ)) × (replace_file lib
                    (to_output file)
                    (Alloc.new arh ard)
                    meta.id
                    buf
                    best
                  ≡ ok alloc)
                × (file.flush_output alloc.writer ≡ none)
                × (now.arh ≡ with_tables arh alloc)
                × (now.ard ≡ file.left alloc.writer)))
  unfolding store
  store-error drained arh ard meta buf {now} e fails =
      elim (Run-cases (replace_file lib (to_output file) (Alloc.new arh ard) meta.id buf best)) [
        | inr (inr broken) ↦ absurd (ground (arith, e))
        | inr (inl (why', refused)) ↦
            let same : record {
              buffer = drained;
              arh = with_section arh;
              ard = file.left ard;
              result = some why';
            }
                ≡ now =
              ground (arith, e, refused) in
            rw (← same) (refl, inl (refl, refl, refl, refl))
        | inl (alloc, replaces) ↦ elim (Option-cases (file.flush_output alloc.writer)) [
          | inr (bytes, flushes) ↦
              let same : none ≡ now.result = ground (arith, e, replaces, flushes) in
              absurd (none_result (same ∙ fails))
          | inl stuck ↦
              let same : record {
                buffer = drained;
                arh = with_tables arh alloc;
                ard = file.left alloc.writer;
                result = some io;
              }
                  ≡ now =
                ground (arith, e, replaces, stuck) in
              rw (← same) (refl, inr (alloc, replaces, stuck, refl, refl))
        ]
      ]

  -- The content has been stored by `replace_file`, but the flush of the output failed.
  abbrev pub IsUnflushed : FileBuffer → ArhFileSystem → List ℕ → Flushed → Type 0
  IsUnflushed buffer arh ard now =
      (meta : FileMeta) × (content : List ℕ) × (changed : List ℕ) × (alloc : Allocator (List ℕ))
      × (get_file_info reader arh buffer.path ≡ ok meta)
      × (Ard.read xbc1 ard (Ard.entry meta) ≡ ok content)
      × (run_all buffer.operations content ≡ ok changed)
      × (replace_file lib (to_output file) (Alloc.new arh ard) meta.id changed best ≡ ok alloc)
      × (file.flush_output alloc.writer ≡ none)
      × (now.arh ≡ with_tables arh alloc)
      × (now.ard ≡ file.left alloc.writer)

  -- Where a flush fails: the file's content could not be read, and the buffer, the archive and the ARD file are as they
  -- were; or the buffer has lost its operations, and the metadata of all files are as they were; or the buffer has
  -- lost them, `replace_file` of the file has succeeded, with the content on which they had been run, and the
  -- archive has its tables, but the flush of the output failed.
  pub flush_failed :
      (buffer : FileBuffer) (arh : ArhFileSystem) (ard : List ℕ) {now : Flushed} {why : Error}
      → flush reader xbc1 lib file buffer arh ard ≡ ok now
      → now.result ≡ some why
      → ((now.buffer ≡ buffer)
          × (now.arh ≡ arh)
          × (now.ard ≡ ard)
          × ((meta : FileMeta) × (get_file_info reader arh buffer.path ≡ ok meta)
              × (Ard.read xbc1 ard (Ard.entry meta) ≡ err why)))
        ⊎ ((now.buffer ≡ record buffer { operations = [] })
            × (SameFiles arh now.arh ⊎ IsUnflushed buffer arh ard now))
  unfolding flush
  flush_failed buffer arh ard {now} {why} e fails =
      elim (Run-cases (get_file_info reader arh buffer.path)) [
        | inr (inr broken) ↦ absurd (ground (arith, e))
        | inr (inl (_, gone)) ↦
            let same : none ≡ now.result = ground (arith, e, gone) in
            absurd (none_result (same ∙ fails))
        | inl (meta, found) ↦ elim (Run-cases (Ard.read xbc1 ard (Ard.entry meta))) [
          | inr (inr broken) ↦ absurd (ground (arith, e, found))
          | inr (inl (why', unread)) ↦
              let same : record { buffer = buffer; arh = arh; ard = ard; result = some why' }
                  ≡ now =
                ground (arith, e, found, unread) in
              let reason = some_same (ap (λ (f : Flushed). f.result) same ∙ fails) in
              inl (
                sym (ap (λ (f : Flushed). f.buffer) same),
                sym (ap (λ (f : Flushed). f.arh) same),
                sym (ap (λ (f : Flushed). f.ard) same),
                (meta, found, unread ∙ ap (λ w. err w) reason),
              )
          | inl (content, reads) ↦ elim (Run-cases (run_all buffer.operations content)) [
            | inr (inr broken) ↦ absurd (ground (arith, e, found, reads))
            | inr (inl (_, refused)) ↦
                let same : record {
                  buffer = record buffer { operations = [] };
                  arh = arh;
                  ard = ard;
                  result = some size_convert;
                }
                    ≡ now =
                  ground (arith, e, found, reads, refused) in
                inr (
                  sym (ap (λ (f : Flushed). f.buffer) same),
                  inl (rw (← same) (refl, refl, refl, refl)),
                )
            | inl (changed, runs) ↦
                let run : store reader xbc1 lib file (record buffer { operations = [] }) arh ard
                      meta changed
                    ≡ ok now =
                  ground (arith, e, found, reads, runs) in
                let (emptied, left) =
                  store-error (record buffer { operations = [] }) arh ard meta changed run fails in
                inr (
                  emptied,
                  elim left [
                    | inl same ↦ inl same
                    | inr (alloc, replaces, stuck, tables, bytes) ↦ inr (
                      meta, content, changed, alloc, found, reads, runs, replaces, stuck, tables,
                      bytes,
                    )
                  ],
                )
          ]
        ]
      ]

  -- File systems that have the same files, although the metadata of these may differ.
  abbrev HasSameFiles : ArhFileSystem → ArhFileSystem → Type 0
  HasSameFiles fs now =
      (now.arh.path_dict ≡ fs.arh.path_dict)
      × (now.arh.string_table ≡ fs.arh.string_table)
      × (length now.arh.file_table ≡ length fs.arh.file_table)

  file_id-same :
      (fs now : ArhFileSystem) (path : List ℕ)
      → HasSameFiles fs now
      → file_id reader now path ≡ file_id reader fs path
  file_id-same fs now path (dict, strings, size) =
      ap (λ d. get_file_id reader d now.arh.string_table path) dict
      ∙ ap (λ t. get_file_id reader fs.arh.path_dict t path) strings

  get_file_info-same :
      (fs now : ArhFileSystem) (path : List ℕ) {m : FileMeta}
      → HasSameFiles fs now
      → get_file_info reader now path ≡ ok m
      → (old : FileMeta) × (get_file_info reader fs path ≡ ok old)
  unfolding get_file_info
  get_file_info-same fs now path same there =
      let ids = file_id-same fs now path same in
      elim (Run-cases (file_id reader fs path)) [
        | inr (inr broken) ↦ absurd (ground (arith, there, ids, broken))
        | inr (inl (_, missed)) ↦ absurd (ground (arith, there, ids, missed))
        | inl ((id, leaf_id), found) ↦ elim (Option-cases (get_meta now.arh.file_table id)) [
          | inl out ↦ absurd (ground (arith, there, ids, found, out))
          | inr (m', within) ↦
              let (old, here) =
                get_elem?-some fs.arh.file_table id
                  (omega (arith, lt_of_get_elem? now.arh.file_table id m' within, same.2)) in
              (old, ground (arith, found, here))
        ]
      ]

  get_file_info-gone :
      (fs now : ArhFileSystem) (path : List ℕ)
      → HasSameFiles fs now
      → get_file_info reader now path ≡ err tt
      → get_file_info reader fs path ≡ err tt
  unfolding get_file_info
  get_file_info-gone fs now path same gone =
      let ids = file_id-same fs now path same in
      elim (Run-cases (file_id reader fs path)) [
        | inr (inr broken) ↦ absurd (ground (arith, gone, ids, broken))
        | inr (inl (_, missed)) ↦ ground (arith, missed)
        | inl ((id, leaf_id), found) ↦ elim (Option-cases (get_meta fs.arh.file_table id)) [
          | inl out ↦ ground (arith, found, out)
          | inr (m, within) ↦
              let (there, here) =
                get_elem?-some now.arh.file_table id
                  (omega (arith, lt_of_get_elem? fs.arh.file_table id m within, same.2)) in
              absurd (ground (arith, gone, ids, found, here))
        ]
      ]

  -- A buffer after its flush, and the file system it was flushed into: without operations, if there is a file for its
  -- path, and as it was, if there is none.
  abbrev pub IsDrained : ArhFileSystem → FileBuffer → FileBuffer → Type 0
  IsDrained fs buffer now =
      ((now ≡ record buffer { operations = [] })
        × ((meta : FileMeta) × (get_file_info reader fs buffer.path ≡ ok meta)))
      ⊎ ((now ≡ buffer) × (get_file_info reader fs buffer.path ≡ err tt))

  abbrev pub AllDrained : ArhFileSystem → List FileBuffer → List FileBuffer → Type 0
  AllDrained fs [] [] = Unit {0}
  AllDrained fs [] (b ∷ bs) = ⊥
  AllDrained fs (b ∷ bs) [] = ⊥
  AllDrained fs (b ∷ bs) (now ∷ rest) = IsDrained fs b now × AllDrained fs bs rest

  IsDrained-same :
      (fs now : ArhFileSystem) (b left : FileBuffer)
      → HasSameFiles fs now
      → IsDrained now b left
      → IsDrained fs b left
  IsDrained-same fs now b left same (inl (emptied, (m, there))) =
      inl (emptied, get_file_info-same fs now b.path same there)
  IsDrained-same fs now b left same (inr (kept, gone)) =
      inr (kept, get_file_info-gone fs now b.path same gone)

  AllDrained-same :
      (fs now : ArhFileSystem) (files after : List FileBuffer)
      → HasSameFiles fs now
      → AllDrained now files after
      → AllDrained fs files after
  AllDrained-same fs now [] [] same h = tt
  AllDrained-same fs now [] (b ∷ bs) same h = h
  AllDrained-same fs now (b ∷ bs) [] same h = h
  AllDrained-same fs now (b ∷ bs) (left ∷ rest) same h =
      (IsDrained-same fs now b left same h.0, AllDrained-same fs now bs rest same h.1)

  store-drained :
      (drained : FileBuffer) (arh : ArhFileSystem) (ard : List ℕ) (meta : FileMeta) (buf : List ℕ)
      {now : Flushed}
      → store reader xbc1 lib file drained arh ard meta buf ≡ ok now
      → (now.buffer ≡ drained) × HasSameFiles arh now.arh
  unfolding store Alloc.new
  store-drained drained arh ard meta buf {now} e =
      elim (Run-cases (replace_file lib (to_output file) (Alloc.new arh ard) meta.id buf best)) [
        | inr (inr broken) ↦ absurd (ground (arith, e))
        | inr (inl (why, refused)) ↦
            let same : record {
              buffer = drained;
              arh = with_section arh;
              ard = file.left ard;
              result = some why;
            }
                ≡ now =
              ground (arith, e, refused) in
            rw (← same) (refl, (refl, refl, refl))
        | inl (alloc, replaces) ↦
            let (entry, packs, stored) =
              replace_file-IsStored lib (to_output file) (Alloc.new arh ard) meta.id buf best
                replaces in
            let size : length alloc.file_table ≡ length arh.arh.file_table =
              ap length stored.files ∙ length-set arh.arh.file_table meta.id stored.meta in
            elim (Option-cases (file.flush_output alloc.writer)) [
              | inr (bytes, flushes) ↦
                  let same : record {
                    buffer = drained;
                    arh = with_tables arh alloc;
                    ard = bytes;
                    result = none;
                  }
                      ≡ now =
                    ground (arith, e, replaces, flushes) in
                  rw (← same) (refl, (refl, refl, size))
              | inl stuck ↦
                  let same : record {
                    buffer = drained;
                    arh = with_tables arh alloc;
                    ard = file.left alloc.writer;
                    result = some io;
                  }
                      ≡ now =
                    ground (arith, e, replaces, stuck) in
                  rw (← same) (refl, (refl, refl, size))
            ]
      ]

  flush-none :
      (buffer : FileBuffer) (arh : ArhFileSystem) (ard : List ℕ) {now : Flushed}
      → flush reader xbc1 lib file buffer arh ard ≡ ok now
      → now.result ≡ none
      → IsDrained arh buffer now.buffer × HasSameFiles arh now.arh
  unfolding flush
  flush-none buffer arh ard {now} e success =
      elim (Run-cases (get_file_info reader arh buffer.path)) [
        | inr (inr broken) ↦ absurd (ground (arith, e))
        | inr (inl (_, gone)) ↦
            let same : record { buffer = buffer; arh = arh; ard = ard; result = none } ≡ now =
              ground (arith, e, gone) in
            (inr (sym (ap (λ (f : Flushed). f.buffer) same), gone), rw (← same) (refl, refl, refl))
        | inl (meta, found) ↦ elim (Run-cases (Ard.read xbc1 ard (Ard.entry meta))) [
          | inr (inr broken) ↦ absurd (ground (arith, e, found))
          | inr (inl (why, unread)) ↦
              let same : some why ≡ now.result = ground (arith, e, found, unread) in
              absurd (none_result (sym success ∙ sym same))
          | inl (content, reads) ↦ elim (Run-cases (run_all buffer.operations content)) [
            | inr (inr broken) ↦ absurd (ground (arith, e, found, reads))
            | inr (inl (_, refused)) ↦
                let same : some size_convert ≡ now.result =
                  ground (arith, e, found, reads, refused) in
                absurd (none_result (sym success ∙ sym same))
            | inl (changed, runs) ↦
                let run : store reader xbc1 lib file (record buffer { operations = [] }) arh ard
                      meta changed
                    ≡ ok now =
                  ground (arith, e, found, reads, runs) in
                let (emptied, files) =
                  store-drained (record buffer { operations = [] }) arh ard meta changed run in
                (inl (emptied, (meta, found)), files)
          ]
        ]
      ]

  -- The buffers are flushed one after the other, each into the archives that the one before left, without an error.
  abbrev pub InOrder : ArhFileSystem → List ℕ → List FileBuffer → ArhFileSystem → List ℕ → Type 0
  InOrder fs ard [] last bytes = (last ≡ fs) × (bytes ≡ ard)
  InOrder fs ard (b ∷ bs) last bytes =
      (now : Flushed) × (flush reader xbc1 lib file b fs ard ≡ ok now)
      × (now.result ≡ none)
      × InOrder now.arh now.ard bs last bytes

  abbrev AllFlushed : Type 0
  AllFlushed = List FileBuffer × ArhFileSystem × List ℕ × Option Error

  all_same : {a b : AllFlushed} → ◌≡◌ {A = Run (Unit {0}) AllFlushed} (ok a) (ok b) → a ≡ b
  all_same e = cc

  -- Where `flush_all` succeeds, it has flushed every buffer, one after the other and each into the archives that the
  -- one before left, none of them with an error; those for whose path the file system it started from has a file are
  -- without operations after, and those for whose path it has none are as they were.
  pub flush_all-AllDrained :
      (files : List FileBuffer) (arh : ArhFileSystem) (ard : List ℕ) {after : List FileBuffer}
      {last : ArhFileSystem} {bytes : List ℕ}
      → flush_all reader xbc1 lib file files arh ard ≡ ok (after, last, bytes, none)
      → AllDrained arh files after × InOrder arh ard files last bytes
  unfolding flush_all
  flush_all-AllDrained [] arh ard {after} {last} {bytes} e =
      let same : [] ≡ after = cc (ap (λ (x : AllFlushed). x.0) (all_same e)) in
      let stays : arh ≡ last = cc (ap (λ (x : AllFlushed). x.1) (all_same e)) in
      let stored : ard ≡ bytes = cc (ap (λ (x : AllFlushed). x.2) (all_same e)) in
      (rw (← same) tt, (sym stays, sym stored))
  flush_all-AllDrained (b ∷ bs) arh ard {after} {last} {bytes} e =
      elim (Run-cases (flush reader xbc1 lib file b arh ard)) [
        | inr (inr broken) ↦ absurd (ground (arith, e))
        | inr (inl (_, refused)) ↦ absurd (ground (arith, e))
        | inl (now, flushes) ↦ elim (Option-cases now.result) [
          | inr (why, fails) ↦
              let same : some why ≡ none = ground (arith, e, flushes, fails) in
              absurd (none_result (sym same))
          | inl success ↦ elim (Run-cases (flush_all reader xbc1 lib file bs now.arh now.ard)) [
            | inr (inr broken) ↦ absurd (ground (arith, e, flushes, success))
            | inr (inl (_, refused)) ↦ absurd (ground (arith, e, flushes, success))
            | inl ((rest, last', bytes', result), goes) ↦
                let same : now.buffer ∷ rest ≡ after = ground (arith, e, flushes, success, goes) in
                let ends : result ≡ none = ground (arith, e, flushes, success, goes) in
                let lasts : last' ≡ last = ground (arith, e, flushes, success, goes) in
                let stored : bytes' ≡ bytes = ground (arith, e, flushes, success, goes) in
                let on =
                  goes
                  ∙ ap (λ o. ok (rest, last', bytes', o)) ends
                  ∙ ap (λ l. ok (rest, l, bytes', none)) lasts
                  ∙ ap (λ t. ok (rest, last, t, none)) stored in
                let (drained, files) = flush-none b arh ard flushes success in
                let (others, order) = flush_all-AllDrained bs now.arh now.ard on in
                (
                  rw (← same) (drained, AllDrained-same arh now.arh bs rest files others),
                  (now, flushes, success, order),
                )
          ]
        ]
      ]
