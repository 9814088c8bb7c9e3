-- ===== src/Fs/Sound/Made.antt =====
-- ardain/src/fs.rs: what a run of `create_file` that succeeds has done.
use ard_tools.Base.{
  ℕ, ◌^◌, ◌≤◌, ◌<◌, ◌≡◌, sym, ap, ◌∙◌, inl, inr, Option, none, some, List, [], ◌∷◌, ◌++◌, arith,
  length, length-append, length-set, set, ltb, Run-cases, Option-cases, Bool-cases, Run, ok, ◌>>=◌,
  >>=-eq-ok, unwrap,
}
use ard_tools.Arh.Node.{leaf}
use ard_tools.Arh.Dict.{write_node}
use ard_tools.Arh.Meta.{FileMeta, get_meta, place_entry, pop_bin, push_entry, new_invalid}
use ard_tools.Arh.Recycle.{FileRecycleBin}
use ard_tools.Arh.Strings.{ReadLe, get_str_part_id}
use ard_tools.Arh.Strings
use ard_tools.Path.{Text}
use ard_tools.Fs.Tree
use ard_tools.Fs.Error.{Error}
use ard_tools.Fs.Create.{Place, find_place}
use ard_tools.Fs.System.{ArhFileSystem, section_bin, set_bin, get_file_info, add_leaf, create_file}
use ard_tools.Fs.Recycled.{IsRecycled, IsRecycled-pop}
use ard_tools.Fs.Chain.Child.{write_node-eq-some, unwrap-eq-ok}

place_entry-size :
    (files : List FileMeta) (meta : FileMeta) (recycled : Option ℕ) {table : List FileMeta} {id : ℕ}
    → length files ≤ 2 ^ 32
    → place_entry files meta recycled ≡ some (table, id)
    → (length table ≤ 2 ^ 32) × (id < 2 ^ 32)
place_entry-size files meta none {table} {id} fits e =
    elim (Bool-cases (ltb (length files) (2 ^ 32))) [
      | inl room ↦
          let grown : files ++ record meta { id = length files } ∷ [] ≡ table = ground (arith, e) in
          let at_end : length files ≡ id = ground (arith, e) in
          (
            ground (
              arith,
              ap length grown,
              length-append files (record meta { id = length files } ∷ []),
            ),
            ground arith,
          )
      | inr full ↦ absurd (ground (arith, e))
    ]
place_entry-size files meta (some k) {table} {id} fits e =
    elim (Bool-cases (ltb k (length files))) [
      | inl inside ↦
          let same : set files k meta ≡ table = ground (arith, e) in
          let named : k ≡ id = ground (arith, e) in
          (ground (arith, ap length same, length-set files k meta), ground arith)
      | inr past ↦ absurd (ground (arith, e))
    ]

push_entry-size :
    (fs : ArhFileSystem) {table : List FileMeta} {id : ℕ} {bin : _}
    → length fs.arh.file_table ≤ 2 ^ 32
    → push_entry fs.arh.file_table new_invalid (section_bin fs.arh.arh_ext_section)
      ≡ some (table, bin, id)
    → (length table ≤ 2 ^ 32) × (id < 2 ^ 32)
unfolding push_entry
push_entry-size fs {table} {id} fits e =
    place_entry-size fs.arh.file_table new_invalid (pop_bin (section_bin fs.arh.arh_ext_section)).0
      fits (ground (arith, e))

place_entry_grows :
    (files : List FileMeta) (meta : FileMeta) (recycled : Option ℕ) {table : List FileMeta} {id : ℕ}
    → place_entry files meta recycled ≡ some (table, id)
    → length files ≤ length table
place_entry_grows files meta none {table} e = elim (Bool-cases (ltb (length files) (2 ^ 32))) [
  | inl room ↦
      let grown : files ++ record meta { id = length files } ∷ [] ≡ table = ground (arith, e) in
      ground (arith, ap length grown, length-append files (record meta { id = length files } ∷ []))
  | inr full ↦ absurd (ground (arith, e))
]
place_entry_grows files meta (some k) {table} e = elim (Bool-cases (ltb k (length files))) [
  | inl inside ↦
      let same : set files k meta ≡ table = ground (arith, e) in
      ground (arith, ap length same, length-set files k meta)
  | inr past ↦ absurd (ground (arith, e))
]

push_entry-IsRecycled :
    (fs : ArhFileSystem) {table : List FileMeta} {id : ℕ} {bin : Option FileRecycleBin}
    → push_entry fs.arh.file_table new_invalid (section_bin fs.arh.arh_ext_section)
      ≡ some (table, bin, id)
    → IsRecycled (length fs.arh.file_table) fs.arh.arh_ext_section
    → IsRecycled (length table) (set_bin fs.arh.arh_ext_section bin)
unfolding push_entry
push_entry-IsRecycled fs {table} {id} {bin} e h =
    let popped = pop_bin (section_bin fs.arh.arh_ext_section) in
    elim (Option-cases (place_entry fs.arh.file_table new_invalid popped.0)) [
      | inl out ↦ absurd (ground (arith, e, out))
      | inr ((grown, at), places) ↦
          let table_same : grown ≡ table = ground (arith, e, places) in
          let rest : popped.1 ≡ bin = ground (arith, e, places) in
          let more = place_entry_grows fs.arh.file_table new_invalid popped.0 places in
          rw (← table_same, ← rest)
            ((IsRecycled-pop (length fs.arh.file_table) (length grown) fs.arh.arh_ext_section more
              h).0)
    ]

ok_pair :
    {a b : ArhFileSystem} {i j : ℕ}
    → ◌≡◌ {A = Run Error (ArhFileSystem × ℕ)} (ok (a, i)) (ok (b, j))
    → (a ≡ b) × (i ≡ j)
ok_pair e = (cc, cc)

module _ (reader : ReadLe) where
  -- What `create_file` has done where it succeeds.
  pub record IsMade (fs : ArhFileSystem) (path : Text) (made : ArhFileSystem) (id : ℕ)
      : Type 0 where
    pub place : Place
    pub finds : find_place reader fs.arh.path_dict fs.arh.string_table path ≡ ok place
    pub offset : ℕ
    pub pushed : Strings.push place.strings place.rest id ≡ some (made.arh.string_table, offset)
    pub planted : made.arh.path_dict ≡ set place.dict place.index (leaf place.parent offset)
    pub recycled :
        IsRecycled (length fs.arh.file_table) fs.arh.arh_ext_section
        → IsRecycled (length made.arh.file_table) made.arh.arh_ext_section
    pub sizes :
        length fs.arh.file_table ≤ 2 ^ 32 → (length made.arh.file_table ≤ 2 ^ 32) × (id < 2 ^ 32)

  add_leaf-IsMade :
      (fs : ArhFileSystem) (path : Text) (place : Place) {made : ArhFileSystem} {id : ℕ}
      → find_place reader fs.arh.path_dict fs.arh.string_table path ≡ ok place
      → add_leaf reader fs path place ≡ ok (made, id)
      → IsMade fs path made id
  unfolding add_leaf
  add_leaf-IsMade fs path place {made} {id} finds e =
      let (entry, enters, e1) =
        >>=-eq-ok
          (unwrap (push_entry fs.arh.file_table new_invalid (section_bin fs.arh.arh_ext_section))) _
          e in
      let (pushed, pushes, e2) =
        >>=-eq-ok (unwrap (Strings.push place.strings place.rest entry.2)) _ e1 in
      let (dict, wrote, e3) =
        >>=-eq-ok (unwrap (write_node place.dict place.index (leaf place.parent pushed.1))) _ e2 in
      let (tree, inserts, e4) = >>=-eq-ok (unwrap (Tree.insert_file_entry fs.dir_tree path)) _ e3 in
      let (meta, shown, e5) = >>=-eq-ok (unwrap (get_meta entry.0 entry.2)) _ e4 in
      let (same, named) = ok_pair e5 in
      let strings : pushed.0 ≡ made.arh.string_table =
        ap (λ (f : ArhFileSystem). f.arh.string_table) same in
      let table : entry.0 ≡ made.arh.file_table =
        ap (λ (f : ArhFileSystem). f.arh.file_table) same in
      let section : set_bin fs.arh.arh_ext_section entry.1 ≡ made.arh.arh_ext_section =
        ap (λ (f : ArhFileSystem). f.arh.arh_ext_section) same in
      let nodes : dict ≡ made.arh.path_dict = ap (λ (f : ArhFileSystem). f.arh.path_dict) same in
      record {
        place = place;
        finds = finds;
        offset = pushed.1;
        pushed =
            ap (Strings.push place.strings place.rest) (sym named)
            ∙ unwrap-eq-ok _ pushes
            ∙ ap (λ t. some (t, pushed.1)) strings;
        planted =
            sym nodes
            ∙ write_node-eq-some place.dict place.index (leaf place.parent pushed.1)
                (unwrap-eq-ok _ wrote);
        recycled =
            λ h. rw (← table, ← section) (push_entry-IsRecycled fs (unwrap-eq-ok _ enters) h);
        sizes = λ fits. rw (← table, ← named) (push_entry-size fs fits (unwrap-eq-ok _ enters));
      }

  pub create_file-IsMade :
      (fs : ArhFileSystem) (path : Text) {made : ArhFileSystem} {id : ℕ}
      → create_file reader fs path ≡ ok (made, id)
      → IsMade fs path made id
  unfolding create_file
  create_file-IsMade fs path {made} {id} e = elim (Run-cases (get_file_info reader fs path)) [
    | inl (m, found) ↦ absurd (ground (arith, e))
    | inr (inr broken) ↦ absurd (ground (arith, e))
    | inr (inl (_, missed)) ↦
        let runs : (find_place reader fs.arh.path_dict fs.arh.string_table path
              >>= add_leaf reader fs path)
            ≡ ok (made, id) =
          ground (arith, e) in
        let (place, finds, e1) =
          >>=-eq-ok (find_place reader fs.arh.path_dict fs.arh.string_table path) _ runs in
        add_leaf-IsMade fs path place finds e1
  ]
