-- ===== src/Arh/Trie/Moved.antt =====
-- ardain/src/arh.rs: where `allocate_new_block` leaves each node, and with which links.
use ard_tools.Base.{
  ℕ, ◌≡◌, ◌≢◌, refl, sym, ap, ◌∙◌, inl, inr, true, false, none, some, List, arith, get_elem?,
  bit_xor, Bool-cases, Option-cases, ℕ_discrete, ◌==◌, if◌then◌else◌,
}
use ard_tools.Bits.Xor.{bit_xor-cancel, bit_xor-same_block}
use ard_tools.Arh.Node.{
  DictNode, free, root, occupied, leaf, get_next, is_child, is_leaf, attach_next,
}
use ard_tools.Arh.Dict.{child_at, grow}
use ard_tools.Arh.Trie.{IsTrie, IsChildOf}
use ard_tools.Arh.Trie.Move.{
  in_block, moves, place, relabel, IsReady, place_block, relabel-own, place-inj, only_parent,
  parent_outside, near,
}
use ard_tools.Arh.Trie.Grow.{
  block_at, child_at-grow, get_elem?-grow, get_elem?-grow_old, old_outside, ready, allocated_node,
}

pub attach_next-child : (n : DictNode) (k x : ℕ) → is_child (attach_next n k) x ≡ is_child n x
attach_next-child free k x = refl
attach_next-child (root m) k x = refl
attach_next-child (occupied q m) k x = refl
attach_next-child (leaf q s) k x = refl

pub attach_next-leaf : (n : DictNode) (k : ℕ) → is_leaf (attach_next n k) ≡ false
attach_next-leaf free k = refl
attach_next-leaf (root m) k = refl
attach_next-leaf (occupied q m) k = refl
attach_next-leaf (leaf q s) k = refl

pub attach_next-next : (n : DictNode) (k : ℕ) → get_next (attach_next n k) ≡ some k
attach_next-next free k = refl
attach_next-next (root m) k = refl
attach_next-next (occupied q m) k = refl
attach_next-next (leaf q s) k = refl

module _ (nodes : List DictNode) (p next : ℕ) (parent : DictNode) (trie : IsTrie nodes)
    (apart : child_at nodes p p ≡ false) (there : get_elem? nodes p ≡ some parent)
    (inner : get_next parent ≡ some next) where
  -- Where the node of index `i` is afterwards, and what it then is.
  abbrev pub place_after : ℕ → ℕ
  place_after i = place (grow nodes) p next (block_at nodes) 128 i

  abbrev pub relabeled : DictNode → DictNode
  relabeled node = relabel (grow nodes) p next (block_at nodes) 128 node

  abbrev pub label : ℕ → DictNode → DictNode
  label i node = if p == i then attach_next (relabeled node) (block_at nodes) else relabeled node

  abbrev is_ready : IsReady (grow nodes) p next (block_at nodes)
  is_ready = ready nodes p next parent trie apart there inner

  relabeled-leaf : (node : DictNode) → is_leaf (relabeled node) ≡ is_leaf node
  relabeled-leaf free = refl
  relabeled-leaf (root m) = refl
  relabeled-leaf (occupied q m) = refl
  relabeled-leaf (leaf q s) = refl

  relabeled-next : (node : DictNode) → get_next (relabeled node) ≡ get_next node
  relabeled-next free = refl
  relabeled-next (root m) = refl
  relabeled-next (occupied q m) = refl
  relabeled-next (leaf q s) = refl

  relabeled-child :
      (j : ℕ) (node : DictNode) (x : ℕ)
      → get_elem? nodes j ≡ some node
      → in_block (block_at nodes) x ≡ false
      → is_child (relabeled node) (place_after x) ≡ is_child node x
  relabeled-child j free x here out = refl
  relabeled-child j (root m) x here out = refl
  relabeled-child j (occupied q m) x here out =
      place-inj (grow nodes) p next (block_at nodes) is_ready 128 q x
        (parent_outside (grow nodes) p next (block_at nodes) is_ready j q
          (child_at-grow nodes j q ∙ ground arith))
        out
  relabeled-child j (leaf q s) x here out =
      place-inj (grow nodes) p next (block_at nodes) is_ready 128 q x
        (parent_outside (grow nodes) p next (block_at nodes) is_ready j q
          (child_at-grow nodes j q ∙ ground arith))
        out

  pub label-child :
      (i : ℕ) (node : DictNode) (x : ℕ)
      → get_elem? nodes i ≡ some node
      → in_block (block_at nodes) x ≡ false
      → is_child (label i node) (place_after x) ≡ is_child node x
  label-child i node x here out = ground (
    arith,
    relabeled-child i node x here out,
    attach_next-child (relabeled node) (block_at nodes) (place_after x),
  )

  pub label-leaf :
      (i : ℕ) (node : DictNode)
      → get_elem? nodes i ≡ some node
      → is_leaf (label i node) ≡ is_leaf node
  label-leaf i node here = elim (ℕ_discrete p i) [
    | no e ↦ ground (arith, relabeled-leaf node)
    | yes e ↦
        let same : parent ≡ node = ground arith in
        ground (
          arith,
          attach_next-leaf (relabeled node) (block_at nodes),
          not_leaf node (ap get_next (sym same) ∙ inner),
        )
  ]
    where
      not_leaf : (n : DictNode) → get_next n ≡ some next → is_leaf n ≡ false
      not_leaf free h = refl
      not_leaf (root m) h = refl
      not_leaf (occupied q m) h = refl
      not_leaf (leaf q s) h = cc

  pub label-next :
      (i : ℕ) (node : DictNode)
      → get_next (label i node) ≡ (if p == i then some (block_at nodes) else get_next node)
  label-next i node =
      ground (arith, relabeled-next node, attach_next-next (relabeled node) (block_at nodes))

  module _ (r : List DictNode)
      (each : (j : ℕ)
        → get_elem? r j ≡ allocated_node nodes p next parent trie apart there inner j) where
    pub label-there :
        (i : ℕ) (node : DictNode)
        → get_elem? nodes i ≡ some node
        → get_elem? r (place_after i) ≡ some (label i node)
    label-there i node here = elim (Bool-cases (moves (grow nodes) p next (block_at nodes) 128 i)) [
      | inr still ↦ elim (ℕ_discrete p i) [
        | yes e ↦ let same : parent ≡ node = ground arith in ground (arith, each i)
        | no e ↦ ground (arith, each i, old_outside nodes i here, get_elem?-grow_old nodes i here)
      ]
      | inl moved ↦
          let to_idx = bit_xor (block_at nodes) (bit_xor next i) in
          let inside = place_block (grow nodes) p next (block_at nodes) is_ready 128 i moved in
          let child : is_child node p ≡ true = ground (arith, get_elem?-grow_old nodes i here) in
          ground (
            arith,
            each to_idx,
            inside,
            bit_xor-cancel (block_at nodes) (bit_xor next i),
            bit_xor-cancel next i,
            get_elem?-grow_old nodes i here,
            relabel-own (grow nodes) p next (block_at nodes) is_ready 128 node child,
            old_outside nodes p there,
            apart,
          )
    ]

    away : (i : ℕ) {node : DictNode} → get_elem? nodes i ≡ some node → i ≢ p → p ≢ place_after i
    away i here other = elim (Bool-cases (moves (grow nodes) p next (block_at nodes) 128 i)) [
      | inr still ↦ ground arith
      | inl moved ↦ λ e.
          let inside = place_block (grow nodes) p next (block_at nodes) is_ready 128 i moved in
          ground (arith, old_outside nodes p there)
    ]

    -- What was not a child is none afterwards.
    pub child_at-stray :
        (i j : ℕ) (node : DictNode)
        → get_elem? nodes i ≡ some node
        → i ≢ p
        → child_at nodes j i ≡ false
        → child_at r j (place_after i) ≡ false
    child_at-stray i j node here other stray =
        let out = old_outside nodes i here in
        elim (ℕ_discrete p j) [
          | yes e ↦ ground (
            arith,
            each j,
            attach_next-child (relabeled parent) (block_at nodes) (place_after i),
            relabeled-child p parent i there out,
          )
          | no e ↦ elim (Bool-cases (in_block (block_at nodes) j)) [
            | inl inside ↦
                elim (Option-cases
                  (get_elem? (grow nodes) (bit_xor next (bit_xor (block_at nodes) j)))) [
                    | inl none_there ↦ ground (arith, each j)
                    | inr (child, origin) ↦
                        ground
                          (arith, each j, only_parent child p (place_after i), away i here other)
                  ]
            | inr outside ↦ elim (Option-cases (get_elem? nodes j)) [
              | inl past ↦ ground (arith, each j, get_elem?-grow nodes j)
              | inr (n, old) ↦
                  ground
                    (arith, each j, get_elem?-grow_old nodes j old, relabeled-child j n i old out)
            ]
          ]
        ]

    -- The parent of a node that has not moved, afterwards.
    parent_after :
        (x y : ℕ) (node : DictNode)
        → get_elem? nodes x ≡ some node
        → moves (grow nodes) p next (block_at nodes) 128 x ≡ false
        → is_child (label x node) y ≡ true
        → IsChildOf r x y
    parent_after x y node here still h =
        let (q, old, moved_to) =
          previous_after node
            (ground (arith, attach_next-child (relabeled node) (block_at nodes) y)) in
        let child : child_at nodes x q ≡ true = ground arith in
        let at = trie.linked x q child in
        let other : p ≢ q = λ e.
          ground (
            arith,
            child_at-grow nodes x p,
            near (grow nodes) p next (block_at nodes) is_ready x,
          ) in
        record {
          parent = label q at.parent;
          next = at.next;
          there = ap (get_elem? r) (sym moved_to) ∙ label-there q at.parent at.there;
          inner = label-next q at.parent ∙ ground (arith, at.inner);
          near = at.near;
        }
      where
        previous_after :
            (n : DictNode)
            → is_child (relabeled n) y ≡ true
            → (q : ℕ) × (is_child n q ≡ true) × (place_after q ≡ y)
        previous_after free e = cc
        previous_after (root k) e = cc
        previous_after (occupied q k) e = (q, ground arith, ground arith)
        previous_after (leaf q k) e = (q, ground arith, ground arith)

    past_free :
        (x y : ℕ)
        → in_block (block_at nodes) x ≡ false
        → get_elem? nodes x ≡ none
        → child_at r x y ≡ false
    past_free x y outside past = elim (ℕ_discrete p x) [
      | yes e ↦ cc
      | no e ↦
          let stays = child_at-grow nodes x p in
          ground (arith, each x, stays, get_elem?-grow nodes x)
    ]

    -- The parent of a node that has moved.
    parent_moved :
        (x y : ℕ) → in_block (block_at nodes) x ≡ true → child_at r x y ≡ true → IsChildOf r x y
    parent_moved x y inside h =
        let from_idx = bit_xor next (bit_xor (block_at nodes) x) in
        let out = old_outside nodes p there in
        let moved : child_at (grow nodes) from_idx p ≡ true =
          elim (Bool-cases (child_at (grow nodes) from_idx p)) [
            | inl e ↦ e
            | inr e ↦ absurd (ground (arith, each x))
          ] in
        let same : y ≡ p = elim (ℕ_discrete p y) [
          | yes e ↦ sym e
          | no e ↦ elim (Option-cases (get_elem? (grow nodes) from_idx)) [
            | inl gone ↦ absurd (ground arith)
            | inr (n, origin) ↦ absurd (ground (arith, each x, only_parent n p y))
          ]
        ] in
        record {
          parent = label p parent;
          next = block_at nodes;
          there = ap (get_elem? r) same ∙ each p ∙ ground arith;
          inner = label-next p parent ∙ ground arith;
          near = bit_xor-same_block (block_at nodes) x (ground arith);
        }

    pub IsTrie-allocated : IsTrie r
    IsTrie-allocated = record {
      linked = λ x y h. elim (Bool-cases (in_block (block_at nodes) x)) [
        | inl inside ↦ parent_moved x y inside h
        | inr outside ↦ elim (Option-cases (get_elem? nodes x)) [
          | inl past ↦ cc (past_free x y outside past)
          | inr (node, here) ↦
              elim (Bool-cases (moves (grow nodes) p next (block_at nodes) 128 x)) [
                | inl moved ↦ elim (ℕ_discrete p x) [
                  | yes e ↦ cc (
                    child_at-grow nodes x p,
                    ap (child_at nodes x) e,
                    ap (λ k. child_at nodes k p) e,
                  )
                  | no e ↦ absurd (ground (arith, each x))
                ]
                | inr still ↦
                    parent_after x y node here still (ground (arith, label-there x node here))
              ]
        ]
      ];
    }
