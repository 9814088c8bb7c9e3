-- ===== src/Fs/Delete.antt =====
-- ardain/src/fs.rs: a deleted file is not found again, and lookups where the first node is free.
use ard_tools.Base.{
  ℕ, unwrap, ◌==◌, Option, ◌||◌, ◌≡◌, inl, inr, refl, sym, ◌∙◌, true, false, some, List, [], ◌∷◌,
  arith, if◌then◌else◌, get_elem?, bit_xor, ok, err, panic, >>=-eq-ok, Option-cases, Bool-cases,
  Run-cases,
}
use ard_tools.Arh.Meta.{FileMeta, new_invalid, delete_entry}
use ard_tools.Arh.Meta.Table.{delete_entry_lem}
use ard_tools.Arh.Recycle
use ard_tools.Arh.Blocks
use ard_tools.Arh.State.{ArhExtSection, get_or_init_ext, init_section}
use ard_tools.Fs.Tree
use ard_tools.Fs.Error.{Error}
use ard_tools.Arh.Node.{DictNode, free, is_child, is_leaf}
use ard_tools.Arh.Dict.{free_node_recursive}
use ard_tools.Arh.Dict.Free.{IsFreed, free_node_recursive_sound}
use ard_tools.Arh.Strings.{ReadLe}
use ard_tools.Path.{Text}
use ard_tools.Fs.Lookup.{Stop, walk, walk_root, resolve, get_file_id}
use ard_tools.Fs.Lookup.Steps.{
  walk_on, walk_astray, walk_cases, walk_nil, walk_root_at, walk_root_out, walk_root_free,
  walk_not_free, root_is_free,
}
use ard_tools.Fs.System.{ArhFileSystem, file_id, delete_file, delete_entry_of}

free_end : (i : ℕ) (node : DictNode) → node ≡ free → ¬ ((is_leaf node || is_child node i) ≡ true)
free_end i node e h = ground arith

free_leaf : (node : DictNode) → node ≡ free → ¬ (is_leaf node ≡ true)
free_leaf node e h = ground arith

-- A walk that ended at a node which is free now fails before it gets there.
walk-IsFreed :
    (nodes freed : List DictNode) (i : ℕ) (node : DictNode) (path : Text) {stop : Stop}
    → IsFreed nodes freed
    → get_elem? freed i ≡ some node
    → walk nodes i node path ≡ ok stop
    → get_elem? freed stop.index ≡ some free
    → walk freed i node path ≡ err tt
walk-IsFreed nodes freed i node [] {stop} f here e gone =
    let (at_end, shown) = walk_nil nodes i node e in
    let lost : node ≡ free = ground arith in absurd (free_end i node lost shown)
walk-IsFreed nodes freed i node (c ∷ cs) {stop} f here e gone =
    elim (walk_cases nodes i node c cs e) [
      | inl (l, at_leaf) ↦ let lost : node ≡ free = ground arith in absurd (free_leaf node lost l)
      | inr s ↦ elim (f.each (bit_xor s.next c)) [
        | inl kept ↦
            walk_on freed i node c cs s.inner s.on s.child (kept ∙ s.there) s.linked
            ∙ walk-IsFreed nodes freed (bit_xor s.next c) s.child cs f (kept ∙ s.there) s.ends gone
        | inr lost ↦ walk_astray freed i node c cs s.inner s.on free lost refl
      ]
    ]

walk_root-IsFreed :
    (nodes freed : List DictNode) (c : ℕ) (cs : Text) {stop : Stop}
    → IsFreed nodes freed
    → walk_root nodes (c ∷ cs) ≡ ok stop
    → get_elem? freed stop.index ≡ some free
    → walk_root freed (c ∷ cs) ≡ (if root_is_free freed then panic else err tt)
unfolding walk_root
walk_root-IsFreed nodes freed c cs {stop} f e gone = elim (Option-cases (get_elem? nodes 0)) [
  | inl out ↦ cc (walk_root_out nodes (c ∷ cs) out)
  | inr (node, here) ↦
      let whole = sym (walk_root_at nodes node (c ∷ cs) here) ∙ e in
      elim (f.each 0) [
        | inl kept ↦
            let same : get_elem? freed 0 ≡ some node = kept ∙ here in
            let used : root_is_free freed ≡ false =
              ground (arith, walk_not_free nodes 0 node c cs whole) in
            rw used (
              walk_root_at freed node (c ∷ cs) same
              ∙ walk-IsFreed nodes freed 0 node (c ∷ cs) f same whole gone)
        | inr lost ↦
            let vacant : root_is_free freed ≡ true = ground arith in
            rw vacant (walk_root_free freed c cs lost)
      ]
]

delete_entry_of-eq-ok :
    (reader : ReadLe) (fs : ArhFileSystem) (path : Text) (id leaf_id j : ℕ) {gone : ArhFileSystem}
    → delete_entry_of reader fs path id leaf_id ≡ ok gone
    → (file : FileMeta) × (after : ArhExtSection) × (get_elem? fs.arh.file_table id ≡ some file)
      × (get_elem? gone.arh.file_table j
          ≡ (if j == id then some new_invalid else get_elem? fs.arh.file_table j))
      × (gone.arh.arh_ext_section ≡ some after)
      × (after.allocated_blocks
          ≡ Blocks.mark
              (init_section gone.arh.file_table fs.opts fs.arh.arh_ext_section).allocated_blocks
              file
              false)
      × (Recycle.contains id after.file_meta_recycle_bin.file_ids ≡ true)
unfolding delete_entry_of get_or_init_ext
delete_entry_of-eq-ok reader fs path id leaf_id j {gone} e =
    let deleted = delete_entry fs.arh.file_table id in
    let (dict, freed, e1) = >>=-eq-ok (unwrap (free_node_recursive fs.arh.path_dict leaf_id)) _ e in
    let (file, taken, e2) = >>=-eq-ok (unwrap deleted.1) _ e1 in
    let (tree, cut, e3) = >>=-eq-ok (unwrap (Tree.remove_file_entry fs.dir_tree path)) _ e2 in
    let ext =
      get_or_init_ext (record (fs.arh) { path_dict = dict; file_table = deleted.0 }) fs.opts in
    let (stood, blank) = delete_entry_lem fs.arh.file_table id j (unwrap-some deleted.1 taken) in
    let table : gone.arh.file_table ≡ deleted.0 = ground arith in
    (
      file,
      record {
        allocated_blocks = Blocks.mark ext.allocated_blocks file false;
        file_meta_recycle_bin = Recycle.push ext.file_meta_recycle_bin id;
      },
      stood,
      rw table blank,
      ground arith,
      rw table refl,
      Recycle.contains-push ext.file_meta_recycle_bin id id ∙ ground arith,
    )
  where
    unwrap-some : (x : Option FileMeta) {m : FileMeta} → unwrap {E = Error} x ≡ ok m → x ≡ some m
    unwrap-some x h = ground arith

module _ (reader : ReadLe) where
  get_file_id-eq-ok :
      (nodes : List DictNode) (strings : List ℕ) (path : Text) {id : ℕ} {leaf_id : ℕ}
      → get_file_id reader nodes strings path ≡ ok (id, leaf_id)
      → (stop : Stop) × (walk_root nodes path ≡ ok stop) × (stop.index ≡ leaf_id)
  unfolding get_file_id resolve
  get_file_id-eq-ok nodes strings path e =
      let (stop, walked, resolved) = >>=-eq-ok (walk_root nodes path) _ e in
      (stop, walked, ground arith)

  get_file_id-err :
      (nodes : List DictNode) (strings : List ℕ) (path : Text)
      → walk_root nodes path ≡ err tt
      → get_file_id reader nodes strings path ≡ err tt
  unfolding get_file_id
  get_file_id-err nodes strings path e = rw e

  get_file_id-panic :
      (nodes : List DictNode) (strings : List ℕ) (path : Text)
      → walk_root nodes path ≡ panic
      → get_file_id reader nodes strings path ≡ panic
  unfolding get_file_id
  get_file_id-panic nodes strings path e = rw e

  -- What a deletion has found and done to the path dictionary.
  pub delete_file-eq-ok :
      (fs : ArhFileSystem) (path : Text) {gone : ArhFileSystem}
      → delete_file reader fs path ≡ ok gone
      → (id : ℕ) × (leaf_id : ℕ) × (file_id reader fs path ≡ ok (id, leaf_id))
        × (free_node_recursive fs.arh.path_dict leaf_id ≡ some gone.arh.path_dict)
        × (gone.arh.string_table ≡ fs.arh.string_table)
  unfolding delete_file delete_entry_of
  delete_file-eq-ok fs path {gone} e = elim (Run-cases (file_id reader fs path)) [
    | inl ((id, leaf_id), found) ↦ (id, leaf_id, found, ground arith, ground arith)
    | inr (inl (_, missed)) ↦ absurd (ground arith)
    | inr (inr broken) ↦ absurd (ground arith)
  ]

  -- Where `delete_file` succeeds, the lookup of the same path finds nothing, or panics if the deletion
  -- has freed the first node of the dictionary.
  pub get_file_id-delete_file :
      (fs : ArhFileSystem) (c : ℕ) (cs : Text) {gone : ArhFileSystem}
      → delete_file reader fs (c ∷ cs) ≡ ok gone
      → file_id reader gone (c ∷ cs) ≡ (if root_is_free gone.arh.path_dict then panic else err tt)
  get_file_id-delete_file fs c cs {gone} e =
      let (id, leaf_id, found, freed, _) = delete_file-eq-ok fs (c ∷ cs) e in
      let (stop, walked, here) =
        get_file_id-eq-ok fs.arh.path_dict fs.arh.string_table (c ∷ cs) found in
      let (parts, gone_there) = free_node_recursive_sound fs.arh.path_dict leaf_id freed in
      let walk_gone =
        walk_root-IsFreed fs.arh.path_dict gone.arh.path_dict c cs parts walked
          (rw here gone_there) in
      elim (Bool-cases (root_is_free gone.arh.path_dict)) [
        | inl vacant ↦
            rw vacant
              (get_file_id-panic gone.arh.path_dict gone.arh.string_table (c ∷ cs) (ground arith))
        | inr used ↦
            rw used
              (get_file_id-err gone.arh.path_dict gone.arh.string_table (c ∷ cs) (ground arith))
      ]

  -- Where a path is found with an id and `delete_file` of it succeeds, the entry at the id is blank after
  -- and every other is kept, the id is in the recycle bin, and the block table is that of the
  -- section that `get_or_init_ext` gave, with the file's blocks marked as free.
  pub delete_file_lem :
      (fs : ArhFileSystem) (path : Text) (j : ℕ) {gone : ArhFileSystem} {id leaf_id : ℕ}
      → file_id reader fs path ≡ ok (id, leaf_id)
      → delete_file reader fs path ≡ ok gone
      → (file : FileMeta) × (after : ArhExtSection) × (get_elem? fs.arh.file_table id ≡ some file)
        × (get_elem? gone.arh.file_table j
            ≡ (if j == id then some new_invalid else get_elem? fs.arh.file_table j))
        × (gone.arh.arh_ext_section ≡ some after)
        × (after.allocated_blocks
            ≡ Blocks.mark
                (init_section gone.arh.file_table fs.opts fs.arh.arh_ext_section).allocated_blocks
                file
                false)
        × (Recycle.contains id after.file_meta_recycle_bin.file_ids ≡ true)
  unfolding delete_file
  delete_file_lem fs path j {gone} {id} {leaf_id} found e =
      let e1 : delete_entry_of reader fs path id leaf_id ≡ ok gone = ground arith in
      delete_entry_of-eq-ok reader fs path id leaf_id j e1

  -- With a free first node every lookup panics, but that of the empty path.
  pub file_id-free_root :
      (fs : ArhFileSystem) (c : ℕ) (cs : Text)
      → get_elem? fs.arh.path_dict 0 ≡ some free
      → file_id reader fs (c ∷ cs) ≡ panic
  file_id-free_root fs c cs e =
      get_file_id-panic fs.arh.path_dict fs.arh.string_table (c ∷ cs)
        (walk_root_free fs.arh.path_dict c cs e)
