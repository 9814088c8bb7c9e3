-- ===== src/Fs/Total/Create.antt =====
-- ardain/src/fs.rs: `create_file` on a sound archive makes the file or returns an error.
use ard_tools.Base.{
  ℕ, ◌^◌, ◌≤◌, ◌<◌, ◌≡◌, ◌≢◌, ◌⊎◌, refl, inl, inr, true, Option, none, some, List, [], ◌∷◌, ◌++◌,
  arith, length, get_elem?-some, get_elem?-append_last, length-set, set, All, Run-cases, ok, err,
  panic, ◌>>=◌, unwrap-ne-panic, >>=-ne-panic, ok-ne-panic,
}
use ard_tools.Arh.Node.{leaf}
use ard_tools.Arh.Dict.{write_node}
use ard_tools.Arh.Meta.{FileMeta, get_meta, place_entry, pop_bin, push_entry, new_invalid}
use ard_tools.Arh.Recycle.{FileRecycleBin}
use ard_tools.Arh.Strings.{ReadLe}
use ard_tools.Arh.Strings
use ard_tools.Arh.Strings.Laws.{IsNameByte}
use ard_tools.Arh.Strings.Size.{push-room}
use ard_tools.Path.{Text, starts_with_slash}
use ard_tools.Fs.Tree
use ard_tools.Fs.Error.{Error}
use ard_tools.Fs.Create.{Place, find_place}
use ard_tools.Fs.System.{ArhFileSystem, section_bin, get_file_info, add_leaf, create_file}
use ard_tools.Fs.Chain.Back.{IsTaken}
use ard_tools.Fs.Place.{IsPlaced}
use ard_tools.Fs.Place.Leaf.{is_ascii-All}
use ard_tools.Fs.Place.Found.{find_place-IsPlaced}
use ard_tools.Fs.Recycled.{IsRecycled-pop}
use ard_tools.Fs.Sound.{IsSound}
use ard_tools.Fs.Total.Lookup.{get_file_info-ne-panic}
use ard_tools.Fs.Total.Extend.{write_node_there}
use ard_tools.Fs.Total.Find.{find_place-ne-panic}

-- There is an entry for the new file: one of the table, if the bin has an id, and else one behind it.
place_entry-room :
    (files : List FileMeta) (meta : FileMeta) (recycled : Option ℕ)
    → ((id : ℕ) → recycled ≡ some id → id < length files)
    → length files < 2 ^ 32
    → (table : List FileMeta) × (id : ℕ) × (m : FileMeta) × (place_entry files meta recycled
        ≡ some (table, id))
      × (get_meta table id ≡ some m)
place_entry-room files meta none ids room = (
  files ++ record meta { id = length files } ∷ [],
  length files,
  record meta { id = length files },
  ground arith,
  get_elem?-append_last files (record meta { id = length files }),
)
place_entry-room files meta (some k) ids room =
    let (m, there) =
      get_elem?-some (set files k meta) k (ground (arith, ids k refl, length-set files k meta)) in
    (set files k meta, k, m, ground (arith, ids k refl), there)

push_entry-room :
    (files : List FileMeta) (meta : FileMeta) (bin : Option FileRecycleBin)
    → ((id : ℕ) → (pop_bin bin).0 ≡ some id → id < length files)
    → length files < 2 ^ 32
    → (table : List FileMeta) × (id : ℕ) × (m : FileMeta) × (push_entry files meta bin
        ≡ some (table, (pop_bin bin).1, id))
      × (get_meta table id ≡ some m)
unfolding push_entry
push_entry-room files meta bin ids room =
    let (table, id, m, places, there) = place_entry-room files meta (pop_bin bin).0 ids room in
    (table, id, m, ground (arith, places), there)

insert_file_entry-room :
    (tree : Tree.DirNode) (path : Text)
    → starts_with_slash path ≡ true
    → (after : Tree.DirNode) × (Tree.insert_file_entry tree path ≡ some after)
unfolding Tree.insert_file_entry
insert_file_entry-room tree path slash =
    (Tree.insert_entry tree (Tree.components path), ground arith)

module _ (reader : ReadLe) (fs : ArhFileSystem) (path : Text) (sound : IsSound reader fs)
    (files : length fs.arh.file_table < 2 ^ 32) (bytes : length fs.arh.string_table ≤ 2 ^ 29)
    (slash : starts_with_slash path ≡ true) where
  ids :
      (id : ℕ)
      → (pop_bin (section_bin fs.arh.arh_ext_section)).0 ≡ some id
      → id < length fs.arh.file_table
  ids =
      (IsRecycled-pop (length fs.arh.file_table) (length fs.arh.file_table) fs.arh.arh_ext_section
        (omega arith) sound.recycled).1

  add_leaf-ne-panic :
      (place : Place)
      → IsPlaced reader fs.arh.path_dict fs.arh.string_table path place
      → add_leaf reader fs path place ≢ panic
  unfolding add_leaf
  add_leaf-ne-panic place placed =
      let bin = section_bin fs.arh.arh_ext_section in
      let (table, id, m, enters, meta_there) =
        push_entry-room fs.arh.file_table new_invalid bin ids files in
      let room : length place.strings < 2 ^ 31 = omega (arith, placed.table) in
      let x = leaf place.parent (length place.strings) in
      let (tree, inserts) = insert_file_entry-room fs.dir_tree path slash in
      unwrap-ne-panic (push_entry fs.arh.file_table new_invalid bin) _ enters (
        unwrap-ne-panic (Strings.push place.strings place.rest id) _
          (push-room place.strings place.rest id room)
          (unwrap-ne-panic (write_node place.dict place.index x) _
            (write_node_there place.dict place.index x placed.vacant)
            (unwrap-ne-panic (Tree.insert_file_entry fs.dir_tree path) _ inserts
              (unwrap-ne-panic (get_meta table id) _ meta_there ok-ne-panic))))

  create_file-ne-panic :
      All IsNameByte path → IsTaken fs.arh.path_dict 0 → create_file reader fs path ≢ panic
  unfolding create_file
  create_file-ne-panic name first e =
      let ascii = is_ascii-All path name in
      elim (Run-cases (get_file_info reader fs path)) [
        | inl (m, found) ↦ ground (arith, e)
        | inr (inr broken) ↦ get_file_info-ne-panic reader fs path first sound.named broken
        | inr (inl (_, missed)) ↦
            let run : (find_place reader fs.arh.path_dict fs.arh.string_table path
                  >>= add_leaf reader fs path)
                ≡ panic =
              ground (arith, e) in
            >>=-ne-panic (find_place reader fs.arh.path_dict fs.arh.string_table path) _
              (find_place-ne-panic reader fs.arh.path_dict fs.arh.string_table sound.trie sound.top
                sound.roomy sound.named (omega arith) path first ascii)
              (λ place finds. add_leaf-ne-panic place (
                find_place-IsPlaced reader fs.arh.path_dict fs.arh.string_table path sound.trie
                  sound.top sound.roomy sound.named ascii finds))
              run
      ]

  -- In a sound archive whose first node is taken, with fewer than 2 ^ 32 files and at most 2 ^ 29 bytes of
  -- strings: for a path of ASCII characters other than zero that begins with a slash, `create_file` returns the file's id or
  -- an error, and does not panic.
  pub create_file_returns :
      All IsNameByte path
      → IsTaken fs.arh.path_dict 0
      → ((made : ArhFileSystem) × (id : ℕ) × (create_file reader fs path ≡ ok (made, id)))
        ⊎ ((why : Error) × (create_file reader fs path ≡ err why))
  create_file_returns name first = elim (Run-cases (create_file reader fs path)) [
    | inl ((made, id), makes) ↦ inl (made, id, makes)
    | inr (inl (why, refuses)) ↦ inr (why, refuses)
    | inr (inr broken) ↦ absurd (create_file-ne-panic name first broken)
  ]
