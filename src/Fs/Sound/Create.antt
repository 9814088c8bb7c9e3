-- ===== src/Fs/Sound/Create.antt =====
-- ardain/src/fs.rs: `create_file` keeps an archive sound, and every file of it.
use ard_tools.Base.{
  ℕ, ◌<◌, ◌≡◌, ◌≢◌, refl, sym, ap, ◌∙◌, true, false, some, List, [], ◌∷◌, ◌++◌, arith, get_elem?,
  bit_xor, All, All-append_right, ℕ_discrete,
}
use mathlib.Core.List.{append_assoc}
use ard_tools.Bits.Xor.{bit_xor-cancel}
use ard_tools.Arh.Node.{DictNode, free, leaf, get_next, is_free}
use ard_tools.Arh.Trie.{IsTrie, NoChild}
use ard_tools.Arh.Trie.Plant.{IsPlanted, IsPlanted-set, IsTrie-planted, NoChild-planted}
use ard_tools.Arh.Trie.Room.{IsRoomy-planted}
use ard_tools.Arh.Strings.{ReadLe, get_str_part_id}
use ard_tools.Arh.Strings.Laws.{IsNameByte, get-push, get-push_old}
use ard_tools.Path.{Text}
use ard_tools.Fs.System.{ArhFileSystem}
use ard_tools.Fs.Grow.Walk.{is_ascii}
use ard_tools.Fs.Chain.Back.{Chain-unplanted, Chain-planted}
use ard_tools.Fs.Chain.Unique.{Chain-unique}
use ard_tools.Fs.Place.Diverge.{top_apart}
use ard_tools.Fs.Chain.{Chain, Chain-snoc, Chain-update}
use ard_tools.Fs.Chain.Graft.{Offsets, IsUpdate-planted, Step-planted}
use ard_tools.Fs.Held.{IsHeld}
use ard_tools.Fs.Place.{IsTop, IsNamed, KeepsFiles, IsPlaced}
use ard_tools.Fs.Place.Leaf.{is_ascii-All, leaf_offset, some_pair, IsNamed-push, IsNamed-same}
use ard_tools.Fs.Place.Found.{find_place-IsPlaced}
use ard_tools.Fs.Sound.{IsSound}
use ard_tools.Fs.Sound.Made.{IsMade}

-- No way leads from a free node to an inner node.
free_start :
    (nodes : List DictNode) (i : ℕ) (pre : Text) (j : ℕ) (node : DictNode) (next : ℕ)
    → get_elem? nodes i ≡ some free
    → Chain nodes i pre j
    → get_elem? nodes j ≡ some node
    → get_next node ≡ some next
    → ⊥
free_start nodes i [] j node next vacant same there on =
    let at : node ≡ free = cc (ap (get_elem? nodes) same) in cc (ap get_next at)
free_start nodes i (c ∷ cs) j node next vacant (k, step, rest) there on =
    let at : step.node ≡ free = cc (step.here) in cc (ap get_next at, step.on)

module _ (reader : ReadLe) (fs : ArhFileSystem) (path : Text) (made : ArhFileSystem) (id : ℕ)
    (sound : IsSound reader fs) (bytes : All IsNameByte path)
    (run : IsMade reader fs path made id) where
  place_found : IsPlaced reader fs.arh.path_dict fs.arh.string_table path run.place
  place_found =
      find_place-IsPlaced reader fs.arh.path_dict fs.arh.string_table path sound.trie sound.top
        sound.roomy sound.named (is_ascii-All path bytes) run.finds

  abbrev new_leaf : DictNode
  new_leaf = leaf run.place.parent run.offset

  rest_bytes : All IsNameByte (place_found.chr ∷ run.place.rest)
  rest_bytes =
      All-append_right IsNameByte place_found.pre (place_found.chr ∷ run.place.rest)
        (rw (← place_found.splits) bytes)

  new_part : get_str_part_id reader made.arh.string_table run.offset ≡ some (run.place.rest, id)
  new_part =
      get-push reader run.place.strings run.place.rest id rest_bytes.1 (run.sizes sound.size).1
        run.pushed

  leaf-IsPlanted : IsPlanted run.place.dict made.arh.path_dict run.place.index new_leaf
  leaf-IsPlanted =
      rw run.planted (IsPlanted-set run.place.dict run.place.index new_leaf place_found.vacant)

  near : bit_xor place_found.next run.place.index < 128
  near = ground (
    arith,
    rest_bytes.0.1,
    ap (bit_xor place_found.next) place_found.at,
    bit_xor-cancel place_found.next place_found.chr,
  )

  new-IsTrie : IsTrie made.arh.path_dict
  new-IsTrie =
      IsTrie-planted run.place.dict made.arh.path_dict run.place.index new_leaf leaf-IsPlanted
        place_found.trie run.place.parent place_found.next place_found.parent refl place_found.there
        place_found.on near

  leaf_there : get_elem? made.arh.path_dict run.place.index ≡ some new_leaf
  leaf_there = leaf-IsPlanted.each run.place.index ∙ ground arith

  new_chains :
      (pre : Text) (j : ℕ) → Chain run.place.dict 0 pre j → Chain made.arh.path_dict 0 pre j
  new_chains pre j chain =
      Chain-update run.place.dict made.arh.path_dict run.place.index 0 pre j
        (IsUpdate-planted run.place.dict made.arh.path_dict run.place.index new_leaf leaf-IsPlanted
          place_found.trie)
        chain

  -- The new file is held, at the leaf that was planted.
  pub new-IsHeld : IsHeld reader made.arh.path_dict made.arh.string_table path id run.place.index
  new-IsHeld = record {
    pre = place_found.pre ++ place_found.chr ∷ [];
    rest = run.place.rest;
    previous = run.place.parent;
    string_offset = run.offset;
    splits =
        place_found.splits
        ∙ sym (append_assoc place_found.pre (place_found.chr ∷ []) run.place.rest);
    chain =
        Chain-snoc made.arh.path_dict 0 place_found.pre run.place.parent place_found.chr
          run.place.index (new_chains place_found.pre run.place.parent place_found.chain)
          (Step-planted run.place.dict made.arh.path_dict run.place.parent run.place.index
            place_found.chr place_found.next place_found.parent new_leaf leaf-IsPlanted
            place_found.there place_found.on (ground arith) place_found.at);
    there = leaf_there;
    part = new_part;
  }

  -- What another node is stays.
  other_there :
      (j : ℕ) (n : DictNode)
      → is_free n ≡ false
      → get_elem? run.place.dict j ≡ some n
      → get_elem? made.arh.path_dict j ≡ some n
  other_there j n full here =
      let apart : run.place.index ≢ j = λ same.
        let vacant : n ≡ free = cc (place_found.vacant, ap (get_elem? run.place.dict) same) in
        cc (ap is_free vacant) in
      leaf-IsPlanted.each j ∙ ground (arith, apart)

  pub new_keeps :
      KeepsFiles reader fs.arh.path_dict fs.arh.string_table made.arh.path_dict
        made.arh.string_table
  new_keeps other id' leaf_id ascii held =
      let (new, kept) = place_found.keep other id' leaf_id ascii held in
      (
        new,
        record {
          pre = kept.pre;
          rest = kept.rest;
          previous = kept.previous;
          string_offset = kept.string_offset;
          splits = kept.splits;
          chain = new_chains kept.pre new kept.chain;
          there = other_there new (leaf kept.previous kept.string_offset) refl kept.there;
          part =
              get-push_old reader run.place.strings run.place.rest id kept.string_offset kept.part
                run.pushed;
        },
      )

  index_apart : run.place.index ≢ 0
  index_apart same =
      free_start run.place.dict 0 place_found.pre run.place.parent place_found.parent
        place_found.next (ap (get_elem? run.place.dict) (sym same) ∙ place_found.vacant)
        place_found.chain place_found.there place_found.on

  new-IsTop : IsTop made.arh.path_dict
  new-IsTop =
      let (node, here, orphan) = place_found.top in
      (node, leaf-IsPlanted.each 0 ∙ ground (arith, index_apart, here), orphan)

  new-IsNamed : Offsets (IsNamed reader made.arh.string_table) made.arh.path_dict
  new-IsNamed j p s there = elim (ℕ_discrete run.place.index j) [
    | yes e ↦
        let offsets : run.offset ≡ s =
          cc (leaf-IsPlanted.each j, leaf_there, ap (get_elem? made.arh.path_dict) e) in
        rw (← offsets) (run.place.rest, id, new_part, rest_bytes.1, (run.sizes sound.size).1)
    | no e ↦
        IsNamed-push reader run.place.strings run.place.rest id run.pushed s
          (place_found.named j p s (ground (arith, leaf-IsPlanted.each j)))
  ]

  new_childless : NoChild made.arh.path_dict run.place.index
  new_childless =
      NoChild-planted run.place.dict made.arh.path_dict run.place.index new_leaf leaf-IsPlanted
        place_found.trie run.place.parent place_found.next place_found.parent refl place_found.there
        place_found.on

  -- A file at another leaf than the new one was held before.
  pub new_adds :
      (other : Text) (id' leaf_id : ℕ)
      → is_ascii other ≡ true
      → leaf_id ≢ run.place.index
      → IsHeld reader made.arh.path_dict made.arh.string_table other id' leaf_id
      → (old : ℕ) × IsHeld reader fs.arh.path_dict fs.arh.string_table other id' old
  new_adds other id' leaf_id ascii apart held =
      let there : get_elem? run.place.dict leaf_id ≡ some (leaf held.previous held.string_offset) =
        sym (leaf-IsPlanted.each leaf_id ∙ ground (arith, apart)) ∙ held.there in
      place_found.adds other id' leaf_id ascii (record {
        pre = held.pre;
        rest = held.rest;
        previous = held.previous;
        string_offset = held.string_offset;
        splits = held.splits;
        chain =
            (Chain-unplanted run.place.dict made.arh.path_dict run.place.index new_leaf
              leaf-IsPlanted new_childless 0 held.pre leaf_id apart held.chain).0;
        there = there;
        part =
            IsNamed-same reader run.place.strings run.place.rest id run.pushed held.string_offset
              (place_found.named leaf_id held.previous held.string_offset there) held.part;
      })

  -- The new leaf stands for no other path.
  pub new_only :
      (other : Text) (id' : ℕ)
      → is_ascii other ≡ true
      → IsHeld reader made.arh.path_dict made.arh.string_table other id' run.place.index
      → (other ≡ path) × (id' ≡ id)
  new_only other id' ascii held =
      let (start, splits, way) =
        Chain-planted run.place.dict made.arh.path_dict run.place.index new_leaf leaf-IsPlanted
          new_childless run.place.parent place_found.next place_found.chr place_found.parent refl
          place_found.there place_found.on place_found.at 0 held.pre
          (λ same. index_apart (sym same)) held.chain in
      let offsets : held.string_offset ≡ run.offset = leaf_offset (sym held.there ∙ leaf_there) in
      let (rest_same, id_same) =
        some_pair
          (sym held.part ∙ ap (get_str_part_id reader made.arh.string_table) offsets ∙ new_part) in
      let start_same : start ≡ place_found.pre =
        Chain-unique run.place.dict 0 start place_found.pre run.place.parent
          (λ p. top_apart run.place.dict p place_found.top) way place_found.chain in
      (
        held.splits
            ∙ ap (λ t. t ++ held.rest) (splits ∙ ap (λ t. t ++ place_found.chr ∷ []) start_same)
            ∙ ap (λ t. (place_found.pre ++ place_found.chr ∷ []) ++ t) rest_same
            ∙ append_assoc place_found.pre (place_found.chr ∷ []) run.place.rest
            ∙ sym place_found.splits,
        id_same,
      )

  pub new-IsSound : IsSound reader made
  new-IsSound = record {
    trie = new-IsTrie;
    top = new-IsTop;
    roomy =
        IsRoomy-planted run.place.dict made.arh.path_dict run.place.index new_leaf leaf-IsPlanted
          refl place_found.roomy;
    named = new-IsNamed;
    recycled = run.recycled sound.recycled;
    size = (run.sizes sound.size).0;
  }
