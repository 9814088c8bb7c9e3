-- ===== src/Arh/Trie/Decide.antt =====
-- ardain/src/arh.rs: a test for whether a path dictionary is a trie.
use ard_tools.Base.{
  ℕ, zero, suc, ◌+◌, ◌≡◌, ap, ◌∙◌, sym, inl, inr, Bool, true, false, ◌&&◌, none, some, List, [],
  ◌∷◌, arith, ltb, get_elem?, bit_xor, Option-cases,
}
use ard_tools.Arh.Node.{DictNode, free, root, occupied, leaf, get_previous, get_next, is_child}
use ard_tools.Arh.Trie.{IsTrie, IsChildOf}

-- Whether the node `i` would stand in the block of its parent `q`.
abbrev stands : List DictNode → ℕ → ℕ → Bool
stands nodes i q = elim (get_elem? nodes q) [
  | none ↦ false
  | some parent ↦ elim (get_next parent) [ none ↦ false | some next ↦ ltb (bit_xor next i) 128 ]
]

abbrev node_stands : List DictNode → ℕ → DictNode → Bool
node_stands nodes i node = elim (get_previous node) [ none ↦ true | some q ↦ stands nodes i q ]

abbrev all_stand : List DictNode → ℕ → List DictNode → Bool
all_stand nodes i [] = true
all_stand nodes i (node ∷ rest) = node_stands nodes i node && all_stand nodes (suc i) rest

-- Whether every node that names a parent stands in its parent's block.
abbrev pub is_trie : List DictNode → Bool
is_trie nodes = all_stand nodes 0 nodes

all_stand-at :
    (nodes : List DictNode) (i : ℕ) (rest : List DictNode) (k : ℕ) {node : DictNode}
    → all_stand nodes i rest ≡ true
    → get_elem? rest k ≡ some node
    → node_stands nodes (i + k) node ≡ true
all_stand-at nodes i [] k h e = cc
all_stand-at nodes i (n ∷ rest) zero {node} h e =
    let same : i + 0 ≡ i = omega arith in
    let this : n ≡ node = ground arith in rw (same, sym this) (ground arith)
all_stand-at nodes i (n ∷ rest) (suc k) {node} h e =
    let same : i + suc k ≡ suc i + k = omega arith in
    rw same (all_stand-at nodes (suc i) rest k (ground arith) e)

stands-IsChildOf : (nodes : List DictNode) (i q : ℕ) → stands nodes i q ≡ true → IsChildOf nodes i q
stands-IsChildOf nodes i q h = elim (Option-cases (get_elem? nodes q)) [
  | inl out ↦ absurd (ground arith)
  | inr (parent, there) ↦ elim (Option-cases (get_next parent)) [
    | inl stuck ↦ absurd (ground arith)
    | inr (next, inner) ↦ record {
      parent = parent;
      next = next;
      there = there;
      inner = inner;
      near = ground arith;
    }
  ]
]

named :
    (nodes : List DictNode) (i p : ℕ) (node : DictNode)
    → node_stands nodes i node ≡ true
    → is_child node p ≡ true
    → stands nodes i p ≡ true
named nodes i p free h c = cc
named nodes i p (root n) h c = cc
named nodes i p (occupied q n) h c = ap (stands nodes i) (ground arith) ∙ h
named nodes i p (leaf q s) h c = ap (stands nodes i) (ground arith) ∙ h

pub is_trie-IsTrie : (nodes : List DictNode) → is_trie nodes ≡ true → IsTrie nodes
is_trie-IsTrie nodes h = record {
  linked = λ i p c. elim (Option-cases (get_elem? nodes i)) [
    | inl out ↦ absurd (ground arith)
    | inr (node, here) ↦
        stands-IsChildOf nodes i p (named nodes i p node (at_index i h here) (ground arith))
  ];
}
  where
    at_index :
        (i : ℕ) {node : DictNode}
        → is_trie nodes ≡ true
        → get_elem? nodes i ≡ some node
        → node_stands nodes i node ≡ true
    at_index i h here =
        let same : 0 + i ≡ i = omega arith in rw same at (all_stand-at nodes 0 nodes i h here)
