-- ===== src/Fs/Create.antt =====
-- ardain/src/fs.rs: the parts of `create_file` that change the path dictionary.
use ard_tools.Base.{
  ℕ, none, some, List, [], ◌∷◌, ◌==◌, if◌then◌else◌, bit_xor, Run, ok, err, panic, ◌>>=◌, unwrap,
}
use ard_tools.Arh.Node.{DictNode, occupied, leaf, get_next, is_child, is_leaf, is_free, attach_next}
use ard_tools.Arh.Dict.{get_node, write_node, allocate_new_block}
use ard_tools.Arh.Strings.{ReadLe, get_str_part_id}
use ard_tools.Arh.Strings
use ard_tools.Path.{Text}
use ard_tools.Fs.Error.{Error, fs_file_name_extended}

-- Where the existing path ends: the last common node, its parent and the rest of the path.
pub record Branch : Type 0 where
  pub index : ℕ
  pub node : DictNode
  pub last_parent : ℕ
  pub rest : Text

-- "Follow existing paths". Unlike `get_file_id` it indexes, and so panics past the end.
unfoldable pub follow : List DictNode → ℕ → DictNode → ℕ → Text → Run Error Branch
follow nodes i node last_parent [] =
    if is_leaf node
    then ok (record { index = i; node = node; last_parent = last_parent; rest = [] })
    else err fs_file_name_extended
follow nodes i node last_parent (c ∷ cs) =
    let here : Branch = record {
      index = i;
      node = node;
      last_parent = last_parent;
      rest = c ∷ cs;
    } in
    if is_leaf node then ok here else elim (get_next node) [
      | none ↦ panic
      | some n ↦
          let next = bit_xor n c in
          elim (get_node nodes next) [
            | none ↦ panic
            | some child ↦
                let on = follow nodes next child i cs in if is_child child i then on else ok here
          ]
    ]

-- `path_dict.node_mut(index).attach_next(next)`.
unfoldable pub attach_at {ℓ} : {E : Type ℓ} → List DictNode → ℕ → ℕ → Run E (List DictNode)
attach_at dict index next = do
  node ← unwrap (get_node dict index)
  unwrap (write_node dict index (attach_next node next))

-- The dictionary, the node that the path has reached, and the rests of the old and the new name.
pub record Split : Type 0 where
  pub dict : List DictNode
  pub last : ℕ
  pub old_rest : Text
  pub new_rest : Text

-- "Next node is free, occupy it", and "Otherwise, allocate a block": the dictionary, the node of the
-- character, and the block from which the next characters go on.
unfoldable pub occupy_node : List DictNode → ℕ → ℕ → ℕ → Run Error (List DictNode × ℕ × ℕ)
occupy_node dict node_block last node_idx = do
  taken ← unwrap (write_node dict node_idx (occupied last 0xFEFE))
  attached ← attach_at taken last node_block
  ok (attached, node_idx, node_block)

unfoldable pub occupy_block : List DictNode → ℕ → ℕ → Run Error (List DictNode × ℕ × ℕ)
occupy_block dict last chr = do
  (allocated, block) ← unwrap (allocate_new_block dict last)
  taken ← unwrap (write_node allocated (bit_xor block chr) (occupied last 0xBADD))
  ok (taken, bit_xor block chr, block)

-- One round of the loop that continues the path while the characters match.
unfoldable pub extend_path : List DictNode → ℕ → ℕ → ℕ → Run Error (List DictNode × ℕ × ℕ)
extend_path dict node_block last chr = do
  next_node ← unwrap (get_node dict (bit_xor node_block chr))
  if is_free next_node
      then occupy_node dict node_block last (bit_xor node_block chr)
      else occupy_block dict last chr

-- The loop, over the characters that the old and the new name share.
unfoldable pub share_path : List DictNode → ℕ → ℕ → Text → Text → Run Error Split
share_path dict node_block last (o ∷ os) (p ∷ ps) =
    let on = extend_path dict node_block last o >>= λ r. share_path r.0 r.2 r.1 os ps in
    if o == p
    then on
    else ok (record { dict = dict; last = last; old_rest = o ∷ os; new_rest = p ∷ ps })
share_path dict node_block last os ps =
    ok (record { dict = dict; last = last; old_rest = os; new_rest = ps })

-- The dictionary and the string table with room for a new leaf: the free node where it goes, its
-- parent, and the part of the name that is left for the string table.
pub record Place : Type 0 where
  pub dict : List DictNode
  pub strings : List ℕ
  pub index : ℕ
  pub node : DictNode
  pub parent : ℕ
  pub rest : Text

-- The level where the two names differ: a block for them, with the old leaf's copy. An empty rest
-- means that one name extends the other.
unfoldable pub part_names : List ℕ → ℕ → Split → Run Error Place
part_names strings old_file split = elim split.old_rest [
  | [] ↦ err fs_file_name_extended
  | o ∷ os ↦ elim split.new_rest [
    | [] ↦ err fs_file_name_extended
    | p ∷ ps ↦ do
      (allocated, next_block) ← unwrap (allocate_new_block split.dict split.last)
      attached ← attach_at allocated split.last next_block
      (table, id) ← unwrap (Strings.push strings os old_file)
      parted ← unwrap (write_node attached (bit_xor next_block o) (leaf split.last id))
      node ← unwrap (get_node parted (bit_xor next_block p))
      ok (record {
        dict = parted;
        strings = table;
        index = bit_xor next_block p;
        node = node;
        parent = split.last;
        rest = ps;
      })
  ]
]

module _ (reader : ReadLe) where
  -- "If the final common node is a leaf, we need to split the path".
  unfoldable pub split_leaf : List DictNode → List ℕ → Branch → Run Error Place
  split_leaf nodes strings branch = elim branch.node [
    | leaf previous string_offset ↦ do
      (old_str, old_file) ← unwrap (get_str_part_id reader strings string_offset)
      parent ← unwrap (get_node nodes previous)
      node_block ← unwrap (get_next parent)
      split ← share_path nodes node_block branch.index old_str branch.rest
      part_names strings old_file split
    | _ ↦ ok (record {
      dict = nodes;
      strings = strings;
      index = branch.index;
      node = branch.node;
      parent = branch.last_parent;
      rest = branch.rest;
    })
  ]

-- "We need to diverge from the existing path": where the node is taken, its children move to a new
-- block, which has room for the next character.
unfoldable pub diverge : Place → Run Error Place
diverge place = if is_free place.node then ok place else (do
  (allocated, block) ← unwrap (allocate_new_block place.dict place.index)
  elim place.rest [
    | [] ↦ panic
    | p ∷ ps ↦ do
      node ← unwrap (get_node allocated (bit_xor block p))
      ok (record place {
        dict = allocated;
        index = bit_xor block p;
        node = node;
        parent = place.index;
        rest = ps;
      })
  ])

module _ (reader : ReadLe) where
  -- `create_file` up to "`final_node` is now a free node".
  unfoldable pub find_place : List DictNode → List ℕ → Text → Run Error Place
  find_place nodes strings full_path = do
    first ← unwrap (get_node nodes 0)
    branch ← follow nodes 0 first 0 full_path
    place ← split_leaf reader nodes strings branch
    diverge place
