-- ===== src/Arh/Trie/Move.antt =====
-- ardain/src/arh.rs: the outer loop of `allocate_new_block`, which moves the children of a node to a
-- block of free nodes.
use ard_tools.Base.{
  ℕ, suc, ◌/◌, ◌<◌, ◌≡◌, ◌≢◌, ◌&&◌, refl, sym, ap, ◌∙◌, inl, inr, Bool, true, false, Option, none,
  some, List, arith, ltb, get_elem?, bit_xor, Bool-cases, Option-cases, ℕ_discrete, ◌==◌,
  if◌then◌else◌,
}
use ard_tools.Bits.Xor.{bit_xor-cancel, bit_xor-block, bit_xor-same_block}
use ard_tools.Arh.Node.{DictNode, free, root, occupied, leaf, get_previous, get_next, is_child}
use ard_tools.Arh.Dict.{child_at, move_child}
use ard_tools.Arh.Trie.{IsTrie}
use ard_tools.Arh.Trie.Links.{set_previous}

-- Whether `j` stands in the block at `offset`.
abbrev pub in_block : ℕ → ℕ → Bool
in_block offset j = j / 128 == offset / 128

pub only_parent :
    (node : DictNode) (p x : ℕ) → is_child node p ≡ true → p ≢ x → is_child node x ≡ false
only_parent free p x h other = refl
only_parent (root n) p x h other = refl
only_parent (occupied q n) p x h other = ground arith
only_parent (leaf q s) p x h other = ground arith

module _ (nodes : List DictNode) (p next offset : ℕ) where
  -- Whether the node at `i` is a child of `p` for a character below `m`, and where it then is.
  abbrev pub moves : ℕ → ℕ → Bool
  moves m i = child_at nodes i p && ltb (bit_xor next i) m

  abbrev pub place : ℕ → ℕ → ℕ
  place m i = if moves m i then bit_xor offset (bit_xor next i) else i

  abbrev pub relabel : ℕ → DictNode → DictNode
  relabel m node = elim (get_previous node) [ none ↦ node | some q ↦ set_previous node (place m q) ]

  abbrev pub relabel_opt : ℕ → Option DictNode → Option DictNode
  relabel_opt m none = none
  relabel_opt m (some node) = some (relabel m node)

  -- The node at `j` when the children for the characters below `m` have moved.
  abbrev pub moved_node : ℕ → ℕ → Option DictNode
  moved_node m j =
      if in_block offset j
      then (if moves m (bit_xor next (bit_xor offset j))
          then get_elem? nodes (bit_xor next (bit_xor offset j))
          else some free)
      else if moves m j
      then some free
      else relabel_opt m (get_elem? nodes j)

  -- What the move relies on: a trie in which `p` is an inner node and not its own child, and a block of
  -- free nodes.
  pub record IsReady : Type 0 where
    pub trie : IsTrie nodes
    pub apart : child_at nodes p p ≡ false
    pub parent : DictNode
    pub there : get_elem? nodes p ≡ some parent
    pub inner : get_next parent ≡ some next
    pub vacant : (j : ℕ) → in_block offset j ≡ true → get_elem? nodes j ≡ some free

  module _ (ready : IsReady) where
    pub child_outside : (i q : ℕ) → child_at nodes i q ≡ true → in_block offset i ≡ false
    child_outside i q h = elim (Bool-cases (in_block offset i)) [
      | inr e ↦ e
      | inl e ↦ absurd (ground (arith, ready.vacant i e))
    ]

    pub parent_outside : (i q : ℕ) → child_at nodes i q ≡ true → in_block offset q ≡ false
    parent_outside i q h = elim (Bool-cases (in_block offset q)) [
      | inr e ↦ e
      | inl e ↦
          let at = ready.trie.linked i q h in
          let same : at.parent ≡ free = cc (at.there, ready.vacant q e) in
          let wrong : get_next free ≡ some at.next = ap get_next (sym same) ∙ at.inner in cc
    ]

    pub p_outside : in_block offset p ≡ false
    p_outside = elim (Bool-cases (in_block offset p)) [
      | inr e ↦ e
      | inl e ↦
          let same : ready.parent ≡ free = cc (ready.there, ready.vacant p e) in
          let wrong : get_next free ≡ some next = ap get_next (sym same) ∙ ready.inner in cc
    ]

    pub near : (i : ℕ) → child_at nodes i p ≡ true → bit_xor next i < 128
    near i h =
        let at = ready.trie.linked i p h in
        let same : at.parent ≡ ready.parent = cc (at.there, ready.there) in
        let same_next : at.next ≡ next = cc (ap get_next same, at.inner, ready.inner) in
        rw same_next at at.near

    pub place_block : (m i : ℕ) → moves m i ≡ true → in_block offset (place m i) ≡ true
    place_block m i h =
        ground (arith, bit_xor-block offset (bit_xor next i) (near i (ground arith)))

    -- A node outside the block that has not moved is where it was, and nothing else is there.
    pub place_back :
        (m q x : ℕ) → in_block offset x ≡ false → moves m x ≡ false → (place m q == x) ≡ (q == x)
    place_back m q x out still = elim (Bool-cases (moves m q)) [
      | inl h ↦ let inside = place_block m q h in ground arith
      | inr h ↦ ground arith
    ]

    pub relabel-child :
        (m x : ℕ) (node : DictNode)
        → in_block offset x ≡ false
        → moves m x ≡ false
        → is_child (relabel m node) x ≡ is_child node x
    relabel-child m x free out still = refl
    relabel-child m x (root n) out still = refl
    relabel-child m x (occupied q n) out still = place_back m q x out still
    relabel-child m x (leaf q s) out still = place_back m q x out still

    -- Two nodes outside the block stand apart afterwards if they did before.
    pub place-inj :
        (m q x : ℕ)
        → in_block offset q ≡ false
        → in_block offset x ≡ false
        → (place m q == place m x) ≡ (q == x)
    place-inj m q x out out' = elim (Bool-cases (moves m x)) [
      | inr still ↦ ground (arith, place_back m q x out' still)
      | inl moved ↦ elim (Bool-cases (moves m q)) [
        | inr still ↦ ground (arith, place_block m x moved)
        | inl moved' ↦ elim (ℕ_discrete q x) [
          | yes e ↦ ground arith
          | no e ↦
              let far : bit_xor offset (bit_xor next q) ≢ bit_xor offset (bit_xor next x) = λ h. e (
                cc (
                  bit_xor-cancel offset (bit_xor next q),
                  bit_xor-cancel offset (bit_xor next x),
                  bit_xor-cancel next q,
                  bit_xor-cancel next x,
                )) in
              ground arith
        ]
      ]
    ]

    abbrev pub IsMoved : ℕ → List DictNode → Type 0
    IsMoved m moved = (j : ℕ) → get_elem? moved j ≡ moved_node m j

    -- Which nodes are children of a node that has not moved and is not `p`.
    pub child_moved :
        (m j x : ℕ) (moved : List DictNode)
        → IsMoved m moved
        → in_block offset x ≡ false
        → moves m x ≡ false
        → p ≢ x
        → child_at moved j x
          ≡ (if in_block offset j then false else if moves m j then false else child_at nodes j x)
    child_moved m j x moved each out still other = elim (Bool-cases (in_block offset j)) [
      | inl inside ↦ elim (Bool-cases (moves m (bit_xor next (bit_xor offset j)))) [
        | inl taken ↦ elim (Option-cases (get_elem? nodes (bit_xor next (bit_xor offset j)))) [
          | inl none_there ↦ absurd (ground arith)
          | inr (node, here) ↦ ground (arith, each j, only_parent node p x (ground arith) other)
        ]
        | inr vacant ↦ ground (arith, each j)
      ]
      | inr outside ↦ elim (Bool-cases (moves m j)) [
        | inl gone ↦ ground (arith, each j)
        | inr kept ↦ elim (Option-cases (get_elem? nodes j)) [
          | inl none_there ↦ ground (arith, each j)
          | inr (node, here) ↦ ground (arith, each j, relabel-child m x node out still)
        ]
      ]
    ]

    -- Whether the node for the character `m` is a child of `p` is as it was.
    pub child_next :
        (m : ℕ) (moved : List DictNode)
        → IsMoved m moved
        → m < 128
        → child_at moved (bit_xor next m) p ≡ child_at nodes (bit_xor next m) p
    child_next m moved each lt = elim (Bool-cases (in_block offset (bit_xor next m))) [
      | inl inside ↦
          let from_idx = bit_xor next m in
          let origin = bit_xor next (bit_xor offset from_idx) in
          let small = bit_xor-same_block offset from_idx (ground arith) in
          let origin_inside : in_block offset origin ≡ true =
            ground (
              arith,
              bit_xor-block next (bit_xor offset from_idx) small,
              bit_xor-block next m lt,
            ) in
          ground
            (arith, each from_idx, ready.vacant from_idx inside, ready.vacant origin origin_inside)
      | inr outside ↦
          let from_idx = bit_xor next m in
          let still : moves m from_idx ≡ false = ground (arith, bit_xor-cancel next m) in
          elim (Option-cases (get_elem? nodes from_idx)) [
            | inl none_there ↦ ground (arith, each from_idx)
            | inr (node, here) ↦ ground (
              arith,
              each from_idx,
              relabel-child m p node p_outside (ground (arith, ready.apart)),
            )
          ]
    ]

    pub moves-suc : (m i : ℕ) → bit_xor next m ≢ i → moves (suc m) i ≡ moves m i
    moves-suc m i other = elim (ℕ_discrete (bit_xor next i) m) [
      | yes e ↦ absurd (other (cc (bit_xor-cancel next i)))
      | no e ↦ ground arith
    ]

    -- The round for a character without a child changes nothing.
    moves-skip : (m i : ℕ) → child_at nodes (bit_xor next m) p ≡ false → moves (suc m) i ≡ moves m i
    moves-skip m i none_there = elim (ℕ_discrete (bit_xor next m) i) [
      | yes e ↦ ground arith
      | no e ↦ moves-suc m i e
    ]

    relabel-skip :
        (m : ℕ) (node : DictNode)
        → child_at nodes (bit_xor next m) p ≡ false
        → relabel (suc m) node ≡ relabel m node
    relabel-skip m free none_there = refl
    relabel-skip m (root n) none_there = refl
    relabel-skip m (occupied q n) none_there = ground (arith, moves-skip m q none_there)
    relabel-skip m (leaf q s) none_there = ground (arith, moves-skip m q none_there)

    pub moved_node-skip :
        (m j : ℕ)
        → child_at nodes (bit_xor next m) p ≡ false
        → moved_node (suc m) j ≡ moved_node m j
    moved_node-skip m j none_there = elim (Option-cases (get_elem? nodes j)) [
      | inl out ↦ ground (
        arith,
        moves-skip m j none_there,
        moves-skip m (bit_xor next (bit_xor offset j)) none_there,
      )
      | inr (node, here) ↦ ground (
        arith,
        moves-skip m j none_there,
        moves-skip m (bit_xor next (bit_xor offset j)) none_there,
        relabel-skip m node none_there,
      )
    ]

    pub move_child-skip :
        (m : ℕ) (moved : List DictNode)
        → child_at moved (bit_xor next m) p ≡ false
        → move_child moved p next offset m ≡ some moved
    unfolding move_child
    move_child-skip m moved none_there = ground arith

    -- A child of `p` keeps its parent.
    pub relabel-own : (m : ℕ) (node : DictNode) → is_child node p ≡ true → relabel m node ≡ node
    relabel-own m free h = refl
    relabel-own m (root k) h = refl
    relabel-own m (occupied q k) h = ground (arith, ready.apart)
    relabel-own m (leaf q k) h = ground (arith, ready.apart)

    -- The round for a character with a child.
    module _ (m : ℕ) (lt : m < 128) (node : DictNode)
        (here : get_elem? nodes (bit_xor next m) ≡ some node) (child : is_child node p ≡ true) where
      pub from_outside : in_block offset (bit_xor next m) ≡ false
      from_outside = child_outside (bit_xor next m) p (ground arith)

      pub from_still : moves m (bit_xor next m) ≡ false
      from_still = ground (arith, bit_xor-cancel next m)

      pub from_apart : p ≢ bit_xor next m
      from_apart e = ground (arith, ready.apart)

      pub to_inside : in_block offset (bit_xor offset m) ≡ true
      to_inside = ground (arith, bit_xor-block offset m lt)

      pub relabel-suc :
          (n : DictNode)
          → relabel (suc m) n ≡ (
              if is_child n (bit_xor next m)
              then set_previous (relabel m n) (bit_xor offset m)
              else relabel m n)
      relabel-suc free = refl
      relabel-suc (root k) = refl
      relabel-suc (occupied q k) = elim (ℕ_discrete (bit_xor next m) q) [
        | yes e ↦ ground (arith, bit_xor-cancel next m)
        | no e ↦ ground (arith, moves-suc m q e)
      ]
      relabel-suc (leaf q k) = elim (ℕ_discrete (bit_xor next m) q) [
        | yes e ↦ ground (arith, bit_xor-cancel next m)
        | no e ↦ ground (arith, moves-suc m q e)
      ]
