-- ===== src/Arh/Trie/Free.antt =====
-- ardain/src/arh.rs: `free_node_recursive` keeps the trie, and frees no node that has a child.
use ard_tools.Base.{
  ℕ, zero, suc, ◌+◌, ◌<◌, ◌≤◌, ◌≡◌, ◌≢◌, ◌||◌, refl, sym, ap, ◌∙◌, inl, inr, Bool, true, false,
  some, List, [], ◌∷◌, arith, length, get_elem?, get_elem?-set_ne, set, bit_xor, Bool-cases,
  Option-cases, ℕ_discrete, ◌==◌, if◌then◌else◌,
}
use ard_tools.Bits.Xor.{bit_xor_assoc, bit_xor_comm, bit_xor-cancel, bit_xor-lt}
use ard_tools.Arh.Node.{DictNode, free, leaf, get_previous, get_next}
use ard_tools.Arh.Dict.{any_child, child_at, block_size, free_loop, free_node_recursive}
use ard_tools.Arh.Dict.Free.{free_loop_root, free_loop_stop, free_loop_on}
use ard_tools.Arh.Trie.{IsTrie, NoChild}

-- The search over the characters finds every child in the block.
any_child-finds :
    (nodes : List DictNode) (index parent n c k : ℕ)
    → c ≤ k
    → k < c + n
    → child_at nodes (bit_xor index k) parent ≡ true
    → any_child nodes index parent n c ≡ true
unfolding any_child
any_child-finds nodes index parent zero c k lo hi e = absurd (omega arith)
any_child-finds nodes index parent (suc n) c k lo hi e = elim (ℕ_discrete c k) [
  | yes here ↦ rw (here, e) refl
  | no other ↦
      let rest = any_child-finds nodes index parent n (c + 1) k (ground arith) (omega arith) e in
      rw rest (or_true _)
]
  where
    or_true : (b : Bool) → (b || true) ≡ true
    or_true true = refl
    or_true false = refl

-- Two places in one block, by the index that leads from one to the other.
same_block :
    (next i j : ℕ)
    → bit_xor next i < 128
    → bit_xor next j < 128
    → (k : ℕ) × (k < 128) × (bit_xor i k ≡ j)
same_block next i j hi hj =
    (bit_xor (bit_xor next i) (bit_xor next j), bit_xor-lt _ _ hi hj, through)
  where
    through : bit_xor i (bit_xor (bit_xor next i) (bit_xor next j)) ≡ j
    through = cc (
      bit_xor_assoc (bit_xor next i) next j,
      bit_xor_comm (bit_xor next i) next,
      bit_xor-cancel next i,
      bit_xor-cancel i j,
    )

child_at-set :
    (nodes : List DictNode) (i j p : ℕ)
    → child_at (set nodes i free) j p ≡ (if i == j then false else child_at nodes j p)
child_at-set [] i j p = ground arith
child_at-set (n ∷ ns) zero zero p = refl
child_at-set (n ∷ ns) zero (suc j) p = ground arith
child_at-set (n ∷ ns) (suc i) zero p = ground arith
child_at-set (n ∷ ns) (suc i) (suc j) p = child_at-set ns i j p ∙ ground arith

NoChild-set : (nodes : List DictNode) (i p : ℕ) → NoChild nodes p → NoChild (set nodes i free) p
NoChild-set nodes i p none_of j = ground (arith, child_at-set nodes i j p, none_of j)

-- To free a node that has no children keeps the trie.
pub IsTrie-set :
    (nodes : List DictNode) (i : ℕ) → IsTrie nodes → NoChild nodes i → IsTrie (set nodes i free)
IsTrie-set nodes i trie childless = record {
  linked = λ j p h.
      let before : child_at nodes j p ≡ true = ground (arith, child_at-set nodes i j p) in
      let old = trie.linked j p before in
      let other : i ≢ p = λ same. ground (arith, childless j) in
      record {
        parent = old.parent;
        next = old.next;
        there = get_elem?-set_ne nodes {i = i} {j = p} free other ∙ old.there;
        inner = old.inner;
        near = old.near;
      };
}

-- Where the search finds no child of `p` in the block of one of its children, `p` has none but that.
NoChild-parent :
    (nodes : List DictNode) (i p : ℕ)
    → IsTrie nodes
    → child_at nodes i p ≡ true
    → any_child (set nodes i free) i p block_size 0 ≡ false
    → NoChild (set nodes i free) p
NoChild-parent nodes i p trie child missed j = elim (Bool-cases (child_at (set nodes i free) j p)) [
  | inr e ↦ e
  | inl e ↦
      let before : child_at nodes j p ≡ true = ground (arith, child_at-set nodes i j p) in
      let at_i = trie.linked i p child in
      let at_j = trie.linked j p before in
      let same_parent : at_i.parent ≡ at_j.parent = cc (at_i.there, at_j.there) in
      let same : at_j.next ≡ at_i.next = cc (at_i.inner, at_j.inner) in
      let (k, small, through) = same_block at_i.next i j at_i.near (rw same at (at_j.near)) in
      let found =
        any_child-finds (set nodes i free) i p block_size 0 k (omega arith) (omega arith)
          (rw through e) in
      cc
]

module _ (P : List DictNode → Type 0)
    (keep : (nodes : List DictNode) (i : ℕ) (node : DictNode) (next : ℕ)
      → get_elem? nodes i ≡ some node
      → get_next node ≡ some next
      → NoChild nodes i
      → P nodes
      → P (set nodes i free)) where
  -- What freeing one inner node without children keeps, the loop keeps.
  free_loop-keeps :
      (fuel : ℕ) (nodes : List DictNode) (i : ℕ) {r : List DictNode}
      → IsTrie nodes
      → NoChild nodes i
      → P (set nodes i free)
      → free_loop fuel nodes i ≡ some r
      → IsTrie r × P r
  unfolding free_loop
  free_loop-keeps zero nodes i trie childless p e = cc
  free_loop-keeps (suc fuel) nodes i {r} trie childless p e =
      elim (Option-cases (get_elem? nodes i)) [
        | inl out ↦ absurd (ground arith)
        | inr (node, here) ↦
            let trie' = IsTrie-set nodes i trie childless in
            elim (Option-cases (get_previous node)) [
              | inl top ↦
                  let same : set nodes i free ≡ r = cc (free_loop_root fuel nodes i here top, e) in
                  (rw same at trie', rw same at p)
              | inr (q, link) ↦ elim (Bool-cases (any_child (set nodes i free) i q block_size 0)) [
                | inl more ↦
                    let same : set nodes i free ≡ r =
                      cc (free_loop_stop fuel nodes i here q link more, e) in
                    (rw same at trie', rw same at p)
                | inr last ↦
                    let child : child_at nodes i q ≡ true = ground arith in
                    let at_i = trie.linked i q child in
                    let other : i ≢ q = λ same. ground (arith, childless i) in
                    let there : get_elem? (set nodes i free) q ≡ some at_i.parent =
                      get_elem?-set_ne nodes {i = i} {j = q} free other ∙ at_i.there in
                    let alone = NoChild-parent nodes i q trie child last in
                    free_loop-keeps fuel (set nodes i free) q trie' alone
                      (keep (set nodes i free) q at_i.parent at_i.next there at_i.inner alone p)
                      (sym (free_loop_on fuel nodes i here q link last) ∙ e)
              ]
            ]
      ]

  pub free_node_recursive-keeps :
      (nodes : List DictNode) (i : ℕ) {r : List DictNode}
      → IsTrie nodes
      → NoChild nodes i
      → P (set nodes i free)
      → free_node_recursive nodes i ≡ some r
      → IsTrie r × P r
  unfolding free_node_recursive
  free_node_recursive-keeps nodes i trie childless p e =
      free_loop-keeps (length nodes + 1) nodes i trie childless p e

-- A leaf has no children.
pub leaf-NoChild :
    (nodes : List DictNode) (i p s : ℕ)
    → IsTrie nodes
    → get_elem? nodes i ≡ some (leaf p s)
    → NoChild nodes i
leaf-NoChild nodes i p s trie here j = elim (Bool-cases (child_at nodes j i)) [
  | inr e ↦ e
  | inl e ↦
      let at_j = trie.linked j i e in
      let same : leaf p s ≡ at_j.parent = cc (at_j.there) in
      let inner : get_next (leaf p s) ≡ some at_j.next = ap get_next same ∙ at_j.inner in cc
]
