-- ===== src/Fs/Sound/Delete.antt =====
-- ardain/src/fs.rs: `delete_file` on an archive as a map from paths to file ids.
use ard_tools.Base.{
  ℕ, ◌≡◌, ◌≢◌, refl, sym, ap, ◌∙◌, inl, inr, none, some, List, [], ◌∷◌, ◌++◌, arith, if◌then◌else◌,
  length, length-set, get_elem?, set, Bool-cases, Run-cases, Run, lt_of_get_elem?, ok, >>=-eq-ok,
  unwrap,
}
use ard_tools.Arh.Node.{DictNode, free, leaf, get_next, is_child, is_leaf}
use ard_tools.Arh.Dict.{free_node_recursive}
use ard_tools.Arh.Dict.Free.{IsFreed, free_node_recursive_sound}
use ard_tools.Arh.Trie.Free.{free_node_recursive-keeps, leaf-NoChild}
use ard_tools.Arh.Trie.Room.{IsThere, IsRoomy, HasBlock-keeps}
use ard_tools.Arh.Meta.{delete_entry, new_invalid}
use ard_tools.Arh.State.{get_or_init_ext}
use ard_tools.Arh.Strings.{ReadLe}
use ard_tools.Arh.Strings
use ard_tools.Fs.Error.{Error}
use ard_tools.Fs.Recycled.{IsRecycled, IsRecycled-push}
use ard_tools.Fs.Chain.Child.{unwrap-eq-ok}
use ard_tools.Path.{Text}
use ard_tools.Fs.Tree
use ard_tools.Fs.Lookup.{text_eq}
use ard_tools.Fs.Lookup.Steps.{text_eq-eq}
use ard_tools.Fs.System.{ArhFileSystem, file_id, delete_file, delete_entry_of}
use ard_tools.Fs.Delete.{delete_file-eq-ok}
use ard_tools.Fs.Keep.{file_id-delete_file_ne}
use ard_tools.Fs.Chain.{Step, Chain}
use ard_tools.Fs.Chain.Unique.{Chain-unique}
use ard_tools.Fs.Held.{text_eq_self, IsHeld-get_file_id}
use ard_tools.Fs.Place.{IsTop}
use ard_tools.Fs.Place.Leaf.{leaf_offset, some_pair}
use ard_tools.Fs.Place.Diverge.{top_apart}
use ard_tools.Fs.Sound.{IsSound}
use ard_tools.Fs.Sound.Files.{file_at, Holds, file_id-Holds, file_at-same, file_at-none}

pub kept_node :
    (nodes freed : List DictNode) (i : ℕ) (n : DictNode)
    → IsFreed nodes freed
    → get_elem? freed i ≡ some n
    → n ≢ free
    → get_elem? nodes i ≡ some n
kept_node nodes freed i n parts there full = elim (parts.each i) [
  | inl same ↦ sym same ∙ there
  | inr lost ↦ let vacant : n ≡ free = cc in absurd (full vacant)
]

IsThere-freed :
    (nodes freed : List DictNode) (j : ℕ) → IsFreed nodes freed → IsThere nodes j → IsThere freed j
IsThere-freed nodes freed j parts (n, here) = elim (parts.each j) [
  | inl same ↦ (n, same ∙ here)
  | inr lost ↦ (free, lost)
]

IsRoomy-freed : (nodes freed : List DictNode) → IsFreed nodes freed → IsRoomy nodes → IsRoomy freed
IsRoomy-freed nodes freed parts roomy i n next here on =
    let before = kept_node nodes freed i n parts here (λ vacant. cc (ap get_next vacant)) in
    HasBlock-keeps nodes freed next (λ j. IsThere-freed nodes freed j parts)
      (roomy i n next before on)

Step-freed :
    (nodes freed : List DictNode) (i c j : ℕ)
    → IsFreed nodes freed
    → Step freed i c j
    → Step nodes i c j
Step-freed nodes freed i c j parts step = record {
  node = step.node;
  next = step.next;
  child = step.child;
  here =
      kept_node nodes freed i step.node parts step.here
        (λ vacant. cc (ap get_next vacant, step.on));
  on = step.on;
  there =
      kept_node nodes freed j step.child parts step.there
        (λ vacant. cc (ap (λ n. is_child n i) vacant, step.linked));
  linked = step.linked;
  at = step.at;
}

Chain-freed :
    (nodes freed : List DictNode) (i : ℕ) (path : Text) (j : ℕ)
    → IsFreed nodes freed
    → Chain freed i path j
    → Chain nodes i path j
Chain-freed nodes freed i [] j parts same = same
Chain-freed nodes freed i (c ∷ cs) j parts (k, step, rest) =
    (k, Step-freed nodes freed i c k parts step, Chain-freed nodes freed k cs j parts rest)

ok_same : {a b : ArhFileSystem} → ◌≡◌ {A = Run Error ArhFileSystem} (ok a) (ok b) → a ≡ b
ok_same e = cc

delete_entry_of-size :
    (reader : ReadLe) (fs : ArhFileSystem) (path : Text) (id leaf_id : ℕ) {gone : ArhFileSystem}
    → delete_entry_of reader fs path id leaf_id ≡ ok gone
    → IsRecycled (length fs.arh.file_table) fs.arh.arh_ext_section
    → (length gone.arh.file_table ≡ length fs.arh.file_table)
      × IsRecycled (length fs.arh.file_table) gone.arh.arh_ext_section
unfolding delete_entry_of delete_entry get_or_init_ext
delete_entry_of-size reader fs path id leaf_id {gone} e h =
    let (dict, freed, e1) = >>=-eq-ok (unwrap (free_node_recursive fs.arh.path_dict leaf_id)) _ e in
    let (file, taken, e2) = >>=-eq-ok (unwrap (delete_entry fs.arh.file_table id).1) _ e1 in
    let (tree, cut, e3) = >>=-eq-ok (unwrap (Tree.remove_file_entry fs.dir_tree path)) _ e2 in
    let table : gone.arh.file_table ≡ set fs.arh.file_table id new_invalid = ground arith in
    let size = length fs.arh.file_table in
    let ids =
      IsRecycled-push size (set fs.arh.file_table id new_invalid) fs.opts fs.arh.arh_ext_section id
        (lt_of_get_elem? fs.arh.file_table id file (unwrap-eq-ok _ taken)) h in
    (
      ap length table ∙ length-set fs.arh.file_table id new_invalid,
      rw (← ap (λ (f : ArhFileSystem). f.arh.arh_ext_section) (ok_same e3)) ids,
    )

module _ (reader : ReadLe) where
  delete_file-size :
      (fs : ArhFileSystem) (path : Text) {gone : ArhFileSystem}
      → delete_file reader fs path ≡ ok gone
      → IsRecycled (length fs.arh.file_table) fs.arh.arh_ext_section
      → (length gone.arh.file_table ≡ length fs.arh.file_table)
        × IsRecycled (length fs.arh.file_table) gone.arh.arh_ext_section
  unfolding delete_file
  delete_file-size fs path {gone} e h = elim (Run-cases (file_id reader fs path)) [
    | inl ((id, leaf_id), found) ↦
        let run : delete_entry_of reader fs path id leaf_id ≡ ok gone = ground (arith, e) in
        delete_entry_of-size reader fs path id leaf_id run h
    | inr (inl (_, missed)) ↦ absurd (ground (arith, e))
    | inr (inr broken) ↦ absurd (ground (arith, e))
  ]

  -- A leaf stands for one path.
  Holds-unique :
      (fs : ArhFileSystem) (path other : Text) (id id' leaf_id : ℕ)
      → IsTop fs.arh.path_dict
      → Holds reader fs path id leaf_id
      → Holds reader fs other id' leaf_id
      → other ≡ path
  Holds-unique fs path other id id' leaf_id top held held' =
      let offsets : held'.string_offset ≡ held.string_offset =
        leaf_offset (sym held'.there ∙ held.there) in
      let (rest_same, id_same) = some_pair (
        sym held'.part
        ∙ ap (Strings.get_str_part_id reader fs.arh.string_table) offsets
        ∙ held.part) in
      let pre_same =
        Chain-unique fs.arh.path_dict 0 held'.pre held.pre leaf_id
          (λ p. top_apart fs.arh.path_dict p top) held'.chain held.chain in
      held'.splits
      ∙ ap (λ t. t ++ held'.rest) pre_same
      ∙ ap (λ t. held.pre ++ t) rest_same
      ∙ sym held.splits

  module _ (fs : ArhFileSystem) (path : Text) {gone : ArhFileSystem} where
    Holds-gone :
        (other : Text) (id leaf_id : ℕ)
        → delete_file reader fs path ≡ ok gone
        → Holds reader gone other id leaf_id
        → Holds reader fs other id leaf_id
    Holds-gone other id leaf_id e held =
        let (id', gone_leaf, found, freed, strings) = delete_file-eq-ok reader fs path e in
        let (parts, vacant) = free_node_recursive_sound fs.arh.path_dict gone_leaf freed in
        record {
          pre = held.pre;
          rest = held.rest;
          previous = held.previous;
          string_offset = held.string_offset;
          splits = held.splits;
          chain =
              Chain-freed fs.arh.path_dict gone.arh.path_dict 0 held.pre leaf_id parts held.chain;
          there =
              kept_node fs.arh.path_dict gone.arh.path_dict leaf_id
                (leaf held.previous held.string_offset) parts held.there
                (λ lost. cc (ap is_leaf lost));
          part =
              ap (λ t. Strings.get_str_part_id reader t held.string_offset) (sym strings)
              ∙ held.part;
        }

    -- Where `delete_file` succeeds in a sound archive, the archive is sound after.
    pub delete_file-IsSound :
        IsSound reader fs → delete_file reader fs path ≡ ok gone → IsSound reader gone
    delete_file-IsSound sound e =
        let (id, leaf_id, found, freed, strings) = delete_file-eq-ok reader fs path e in
        let (parts, vacant) = free_node_recursive_sound fs.arh.path_dict leaf_id freed in
        let held = IsHeld-get_file_id reader fs.arh.path_dict fs.arh.string_table path found in
        let childless =
          leaf-NoChild fs.arh.path_dict leaf_id held.previous held.string_offset sound.trie
            held.there in
        let sizes = delete_file-size fs path e sound.recycled in
        let (trie, _) =
          free_node_recursive-keeps (λ ns. Unit {0}) (λ ns k node next there inner alone f. tt)
            fs.arh.path_dict leaf_id sound.trie childless tt freed in
        let (first, here, orphan) = sound.top in
        record {
          trie = trie;
          top = elim (parts.each 0) [
            | inl same ↦ (first, same ∙ here, orphan)
            | inr lost ↦ (free, lost, refl)
          ];
          roomy = IsRoomy-freed fs.arh.path_dict gone.arh.path_dict parts sound.roomy;
          named = λ j p s there. rw strings (
              sound.named j p s (
                kept_node fs.arh.path_dict gone.arh.path_dict j (leaf p s) parts there
                  (λ lost. cc (ap is_leaf lost))));
          recycled = rw sizes.0 sizes.1;
          size = rw sizes.0 sound.size;
        }

    -- Where `delete_file` succeeds in a sound archive, the path is not found after, and every other path is found
    -- with the id it had, or is not found as it was not found before.
    pub file_at-delete_file :
        (other : Text)
        → IsSound reader fs
        → delete_file reader fs path ≡ ok gone
        → file_at reader gone other ≡ (if text_eq other path then none else file_at reader fs other)
    file_at-delete_file other sound e =
        let (id, leaf_id, found, freed, strings) = delete_file-eq-ok reader fs path e in
        let (parts, vacant) = free_node_recursive_sound fs.arh.path_dict leaf_id freed in
        let held = IsHeld-get_file_id reader fs.arh.path_dict fs.arh.string_table path found in
        elim (Bool-cases (text_eq other path)) [
          | inl same ↦ rw same (
              file_at-none reader gone other (λ id' leaf_id' left.
                let before = Holds-gone other id' leaf_id' e left in
                let again : ok (id', leaf_id') ≡ ok (id, leaf_id) =
                  sym (file_id-Holds reader fs other id' leaf_id' before)
                  ∙ ap (file_id reader fs) (text_eq-eq other path same)
                  ∙ found in
                let leaf_same : leaf_id' ≡ leaf_id = cc in
                let lost : some (leaf left.previous left.string_offset) ≡ some free =
                  sym left.there ∙ ap (get_elem? gone.arh.path_dict) leaf_same ∙ vacant in
                cc))
          | inr apart ↦
              let unlike : other ≢ path =
                λ same. cc (text_eq_self path, ap (λ t. text_eq t path) same) in
              rw apart (
                file_at-same reader fs gone other
                  (λ id' leaf_id' other_held.
                    let leaf_apart : leaf_id' ≢ leaf_id = λ same. unlike (
                      Holds-unique fs path other id id' leaf_id sound.top held
                        (rw (← same) other_held)) in
                    let (_, kept) =
                      file_id-delete_file_ne reader fs path other sound.trie found
                        (file_id-Holds reader fs other id' leaf_id' other_held) leaf_apart e in
                    (
                      leaf_id',
                      IsHeld-get_file_id reader gone.arh.path_dict gone.arh.string_table other kept,
                    ))
                  (λ id' leaf_id' left. (leaf_id', Holds-gone other id' leaf_id' e left)))
        ]
