-- ===== src/Arh/Trie/Plant.antt =====
-- ardain/src/arh.rs, ardain/src/fs.rs: how a trie changes where a free node is taken for a child, and where
-- a node without children gets a block.
use ard_tools.Base.{
  ℕ, ◌<◌, ◌≡◌, ◌≢◌, refl, sym, ap, ◌∙◌, inl, inr, true, none, some, List, arith, get_elem?, set,
  bit_xor, Bool-cases, Option-cases, ℕ_discrete, if◌then◌else◌, ◌==◌,
}
use ard_tools.Arh.Node.{
  DictNode, free, root, occupied, leaf, get_previous, get_next, is_child, attach_next,
}
use ard_tools.Arh.Dict.{child_at, grow, allocate_new_block}
use ard_tools.Arh.Trie.{IsTrie, NoChild}
use ard_tools.Arh.Trie.Links.{get_elem?-set}
use ard_tools.Arh.Trie.Move.{in_block, relabel, moved_node}
use ard_tools.Arh.Trie.Grow.{
  block_at, block_free, child_at-grow, get_elem?-grow_old, allocate_new_block_nodes,
}
use ard_tools.Arh.Trie.Moved.{attach_next-child}

-- A node without `next` has no children.
pub NoChild-inner :
    (nodes : List DictNode) (k : ℕ) (node : DictNode)
    → IsTrie nodes
    → get_elem? nodes k ≡ some node
    → get_next node ≡ none
    → NoChild nodes k
NoChild-inner nodes k node trie here stuck j = elim (Bool-cases (child_at nodes j k)) [
  | inr e ↦ e
  | inl e ↦
      let at = trie.linked j k e in
      let same : at.parent ≡ node = cc (at.there) in cc (ap get_next same, at.inner)
]

-- The free node at `k` is taken by `x`.
pub record IsPlanted (nodes after : List DictNode) (k : ℕ) (x : DictNode) : Type 0 where
  pub vacant : get_elem? nodes k ≡ some free
  pub each : (j : ℕ) → get_elem? after j ≡ (if k == j then some x else get_elem? nodes j)

pub IsPlanted-set :
    (nodes : List DictNode) (k : ℕ) (x : DictNode)
    → get_elem? nodes k ≡ some free
    → IsPlanted nodes (set nodes k x) k x
IsPlanted-set nodes k x vacant = record {
  vacant = vacant;
  each = λ j. get_elem?-set nodes k j x vacant;
}

pub named_parent : (x : DictNode) (p q : ℕ) → get_previous x ≡ some p → is_child x q ≡ true → q ≡ p
named_parent free p q e h = cc
named_parent (root n) p q e h = cc
named_parent (occupied r n) p q e h = ground arith
named_parent (leaf r s) p q e h = ground arith

module _ (nodes after : List DictNode) (k : ℕ) (x : DictNode) (planted : IsPlanted nodes after k x)
    (trie : IsTrie nodes) (p next : ℕ) (parent : DictNode) (names : get_previous x ≡ some p)
    (there : get_elem? nodes p ≡ some parent) (inner : get_next parent ≡ some next) where
  parent_apart :
      (q : ℕ) (n : DictNode) (m : ℕ) → get_elem? nodes q ≡ some n → get_next n ≡ some m → k ≢ q
  parent_apart q n m at_q on same =
      let taken : n ≡ free = cc (planted.vacant, ap (get_elem? nodes) same) in
      cc (ap get_next taken)

  pub IsTrie-planted : bit_xor next k < 128 → IsTrie after
  IsTrie-planted near = record {
    linked = λ i q h. elim (ℕ_discrete k i) [
      | yes e ↦
          let named : q ≡ p = named_parent x p q names (ground (arith, planted.each i)) in
          record {
            parent = parent;
            next = next;
            there = planted.each q ∙ ground (arith, parent_apart p parent next there inner);
            inner = inner;
            near = ground arith;
          }
      | no e ↦
          let at = trie.linked i q (ground (arith, planted.each i)) in
          record {
            parent = at.parent;
            next = at.next;
            there =
                planted.each q
                ∙ ground (arith, parent_apart q at.parent at.next at.there at.inner, at.there);
            inner = at.inner;
            near = at.near;
          }
    ];
  }

  pub NoChild-planted : NoChild after k
  NoChild-planted j = elim (ℕ_discrete k j) [
    | yes e ↦ elim (Bool-cases (child_at after j k)) [
      | inr h ↦ h
      | inl h ↦
          let named : k ≡ p = named_parent x p k names (ground (arith, planted.each j)) in
          absurd (parent_apart p parent next there inner named)
    ]
    | no e ↦ ground (arith, planted.each j, NoChild-inner nodes k free trie planted.vacant refl j)
  ]

-- The node at `p`, which is `node`, gets `next` for its block.
pub record IsAttached (nodes after : List DictNode) (p : ℕ) (node : DictNode) (next : ℕ)
    : Type 0 where
  pub here : get_elem? nodes p ≡ some node
  pub each :
      (j : ℕ)
      → get_elem? after j ≡ (if p == j then some (attach_next node next) else get_elem? nodes j)

module _ (nodes after : List DictNode) (p : ℕ) (node : DictNode) (next : ℕ)
    (attached : IsAttached nodes after p node next) where
  pub child_at-attached : (i q : ℕ) → child_at after i q ≡ child_at nodes i q
  child_at-attached i q = elim (ℕ_discrete p i) [
    | yes e ↦
        let here : get_elem? nodes i ≡ some node = ap (get_elem? nodes) (sym e) ∙ attached.here in
        ground (arith, attached.each i, attach_next-child node next q, here)
    | no e ↦ ground (arith, attached.each i)
  ]

  pub NoChild-attached : (q : ℕ) → NoChild nodes q → NoChild after q
  NoChild-attached q childless j = child_at-attached j q ∙ childless j

  pub IsTrie-attached : IsTrie nodes → NoChild nodes p → IsTrie after
  IsTrie-attached trie childless = record {
    linked = λ i q h.
        let before = sym (child_at-attached i q) ∙ h in
        let at = trie.linked i q before in
        let other : p ≢ q = λ same. cc (childless i, ap (child_at nodes i) same) in
        record {
          parent = at.parent;
          next = at.next;
          there = attached.each q ∙ ground (arith, other, at.there);
          inner = at.inner;
          near = at.near;
        };
  }

-- What `allocate_new_block` does for a node without children.
module _ (nodes : List DictNode) (p : ℕ) (node : DictNode) (trie : IsTrie nodes)
    (childless : NoChild nodes p) (here : get_elem? nodes p ≡ some node) where
  unmoved : (next : ℕ) (n : DictNode) → relabel (grow nodes) p next (block_at nodes) 128 n ≡ n
  unmoved next free = refl
  unmoved next (root m) = refl
  unmoved next (occupied q m) = ground (arith, child_at-grow nodes q p, childless q)
  unmoved next (leaf q s) = ground (arith, child_at-grow nodes q p, childless q)

  unmoved_node :
      (next : ℕ) (j : ℕ)
      → moved_node (grow nodes) p next (block_at nodes) 128 j ≡ get_elem? (grow nodes) j
  unmoved_node next j =
      let origin = bit_xor next (bit_xor (block_at nodes) j) in
      let still = child_at-grow nodes j p ∙ childless j in
      let still_origin = child_at-grow nodes origin p ∙ childless origin in
      elim (Bool-cases (in_block (block_at nodes) j)) [
        | inl inside ↦ ground (arith, block_free nodes j inside, still_origin)
        | inr outside ↦ elim (Option-cases (get_elem? (grow nodes) j)) [
          | inl past ↦ ground (arith, still)
          | inr (n, old) ↦ ground (arith, still, unmoved next n)
        ]
      ]

  allocated_leaf :
      get_next node ≡ none
      → allocate_new_block nodes p
        ≡ some (set (grow nodes) p (attach_next node (block_at nodes)), block_at nodes)
  unfolding allocate_new_block
  allocated_leaf stuck = ground (arith, get_elem?-grow_old nodes p here)

  pub allocate_childless :
      (r : List DictNode) × (allocate_new_block nodes p ≡ some (r, block_at nodes))
      × IsAttached (grow nodes) r p node (block_at nodes)
  allocate_childless = elim (Option-cases (get_next node)) [
    | inl stuck ↦ (
      set (grow nodes) p (attach_next node (block_at nodes)),
      allocated_leaf stuck,
      record {
        here = get_elem?-grow_old nodes p here;
        each = λ j.
            get_elem?-set (grow nodes) p j (attach_next node (block_at nodes))
              (get_elem?-grow_old nodes p here);
      },
    )
    | inr (next, inner) ↦
        let (r, run, each) =
          allocate_new_block_nodes nodes p next node trie (childless p) here inner in
        (
          r,
          run,
          record {
            here = get_elem?-grow_old nodes p here;
            each = λ j. each j ∙ ground (arith, unmoved next node, unmoved_node next j);
          },
        )
  ]

  pub NoChild-grow : NoChild (grow nodes) p
  NoChild-grow j = child_at-grow nodes j p ∙ childless j
