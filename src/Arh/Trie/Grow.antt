-- ===== src/Arh/Trie/Grow.antt =====
-- ardain/src/arh.rs: `allocate_new_block`, node by node.
use ard_tools.Base.{
  ℕ, zero, suc, ◌+◌, ◌-◌, ◌≡◌, refl, sym, ◌∙◌, inl, inr, true, false, Option, none, some, List, [],
  ◌∷◌, ◌++◌, arith, ltb, length, length-append, length-replicate, get_elem?, lt_of_get_elem?,
  replicate, set, Bool-cases, Option-cases, ◌==◌, if◌then◌else◌,
}
use ard_tools.Arh.Node.{DictNode, free, root, occupied, leaf, get_next, attach_next}
use ard_tools.Arh.Dict.{child_at, grow, next_multiple, move_children, allocate_new_block}
use ard_tools.Arh.Trie.{IsTrie}
use ard_tools.Arh.Trie.Links.{get_elem?-set}
use ard_tools.Arh.Trie.Move.{in_block, relabel, moved_node, IsReady, IsMoved}
use ard_tools.Arh.Trie.Take.{move_children-IsMoved}

get_elem?-replicate :
    (n j : ℕ) (v : DictNode) → get_elem? (replicate n v) j ≡ (if ltb j n then some v else none)
get_elem?-replicate zero j v = ground arith
get_elem?-replicate (suc n) zero v = ground arith
get_elem?-replicate (suc n) (suc j) v = get_elem?-replicate n j v ∙ ground arith

get_elem?-pad :
    (nodes : List DictNode) (n j : ℕ)
    → get_elem? (nodes ++ replicate n free) j ≡ (
        if ltb j (length nodes)
        then get_elem? nodes j
        else if ltb j (length nodes + n)
        then some free
        else none)
get_elem?-pad [] n j = get_elem?-replicate n j free ∙ ground arith
get_elem?-pad (x ∷ xs) n zero = ground arith
get_elem?-pad (x ∷ xs) n (suc j) = get_elem?-pad xs n j ∙ ground arith

module _ (nodes : List DictNode) where
  abbrev pub block_at : ℕ
  block_at = next_multiple (length nodes)

  length-padded :
      length (nodes ++ replicate (next_multiple (length nodes) - length nodes) free)
      ≡ next_multiple (length nodes)
  length-padded = omega (
    arith,
    length-append nodes (replicate (next_multiple (length nodes) - length nodes) free),
    length-replicate {A = DictNode} (next_multiple (length nodes) - length nodes) free,
  )

  pub get_elem?-grow :
      (j : ℕ)
      → get_elem? (grow nodes) j ≡ (
          if ltb j (length nodes)
          then get_elem? nodes j
          else if ltb j (block_at + 128)
          then some free
          else none)
  unfolding grow
  get_elem?-grow j = ground (
    arith,
    length-padded,
    get_elem?-pad (nodes ++ replicate (next_multiple (length nodes) - length nodes) free) 128 j,
    get_elem?-pad nodes (next_multiple (length nodes) - length nodes) j,
  )

  pub child_at-grow : (j q : ℕ) → child_at (grow nodes) j q ≡ child_at nodes j q
  child_at-grow j q = elim (Option-cases (get_elem? nodes j)) [
    | inl out ↦ ground (arith, get_elem?-grow j)
    | inr (node, here) ↦ ground (arith, get_elem?-grow j, lt_of_get_elem? nodes j node here)
  ]

  pub get_elem?-grow_old :
      (j : ℕ) {node : DictNode}
      → get_elem? nodes j ≡ some node
      → get_elem? (grow nodes) j ≡ some node
  get_elem?-grow_old j {node} here =
      ground (arith, get_elem?-grow j, lt_of_get_elem? nodes j node here)

  pub IsTrie-grow : IsTrie nodes → IsTrie (grow nodes)
  IsTrie-grow trie = record {
    linked = λ i q h.
        let at = trie.linked i q (sym (child_at-grow i q) ∙ h) in
        record {
          parent = at.parent;
          next = at.next;
          there = get_elem?-grow_old q at.there;
          inner = at.inner;
          near = at.near;
        };
  }

  -- The new block is free, and behind the old nodes.
  pub block_free : (j : ℕ) → in_block block_at j ≡ true → get_elem? (grow nodes) j ≡ some free
  block_free j h = ground (arith, get_elem?-grow j)

  pub old_outside :
      (j : ℕ) {node : DictNode} → get_elem? nodes j ≡ some node → in_block block_at j ≡ false
  old_outside j {node} here = ground (arith, lt_of_get_elem? nodes j node here)

  module _ (p next : ℕ) (parent : DictNode) (trie : IsTrie nodes)
      (apart : child_at nodes p p ≡ false) (there : get_elem? nodes p ≡ some parent)
      (inner : get_next parent ≡ some next) where
    pub ready : IsReady (grow nodes) p next block_at
    ready = record {
      trie = IsTrie-grow trie;
      apart = child_at-grow p p ∙ apart;
      parent = parent;
      there = get_elem?-grow_old p there;
      inner = inner;
      vacant = block_free;
    }

    start : IsMoved (grow nodes) p next block_at ready 0 (grow nodes)
    start j = elim (Bool-cases (in_block block_at j)) [
      | inl inside ↦ block_free j inside ∙ ground arith
      | inr outside ↦ elim (Option-cases (get_elem? (grow nodes) j)) [
        | inl out ↦ ground arith
        | inr (node, here) ↦ ground (arith, unmoved node)
      ]
    ]
      where
        unmoved : (node : DictNode) → relabel (grow nodes) p next block_at 0 node ≡ node
        unmoved free = refl
        unmoved (root n) = refl
        unmoved (occupied q n) = ground arith
        unmoved (leaf q s) = ground arith

    at_parent :
        (moved : List DictNode)
        → IsMoved (grow nodes) p next block_at ready 128 moved
        → get_elem? moved p ≡ some (relabel (grow nodes) p next block_at 128 parent)
    at_parent moved each =
        ground (
          arith,
          each p,
          old_outside p there,
          child_at-grow p p ∙ apart,
          get_elem?-grow_old p there,
        )

    finish :
        (moved : List DictNode) (last : DictNode)
        → move_children (grow nodes) p next block_at 128 0 ≡ some moved
        → get_elem? moved p ≡ some last
        → allocate_new_block nodes p ≡ some (set moved p (attach_next last block_at), block_at)
    unfolding allocate_new_block
    finish moved last run at_p = ground (arith, get_elem?-grow_old p there, inner)

    -- The dictionary that `allocate_new_block` leaves, node by node.
    abbrev pub allocated_node : ℕ → Option DictNode
    allocated_node j =
        if p == j
        then some (attach_next (relabel (grow nodes) p next block_at 128 parent) block_at)
        else moved_node (grow nodes) p next block_at 128 j

    pub allocate_new_block_nodes :
        (r : List DictNode) × (allocate_new_block nodes p ≡ some (r, block_at))
        × ((j : ℕ) → get_elem? r j ≡ allocated_node j)
    allocate_new_block_nodes =
        let (moved, run, each) =
          move_children-IsMoved (grow nodes) p next block_at ready 128 0 (grow nodes) (omega arith)
            start in
        let at_p = at_parent moved each in
        (
          set moved p (attach_next (relabel (grow nodes) p next block_at 128 parent) block_at),
          finish moved (relabel (grow nodes) p next block_at 128 parent) run at_p,
          λ j.
              get_elem?-set moved p j
                (attach_next (relabel (grow nodes) p next block_at 128 parent) block_at) at_p
              ∙ ground (arith, each j),
        )
