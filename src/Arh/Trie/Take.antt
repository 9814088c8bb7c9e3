-- ===== src/Arh/Trie/Take.antt =====
-- ardain/src/arh.rs: the round of `allocate_new_block` that moves one child, and the loop.
use ard_tools.Base.{
  ℕ, zero, suc, ◌+◌, ◌<◌, ◌≤◌, ◌≡◌, ◌≢◌, refl, sym, ap, ◌∙◌, inl, inr, true, false, Option, none,
  some, List, arith, get_elem?, lt_of_get_elem?, set, bit_xor, Bool-cases, Option-cases, ℕ_discrete,
  ◌==◌, if◌then◌else◌,
}
use ard_tools.Base.Partial.{◌>>=◌}
use ard_tools.Bits.Xor.{bit_xor-cancel}
use ard_tools.Arh.Node.{DictNode, free, get_next, is_child}
use ard_tools.Arh.Dict.{child_at, fix_links, write_node, move_child, move_children, block_size}
use ard_tools.Arh.Trie.Links.{set_previous_opt, fix_links-relinks, get_elem?-set}
use ard_tools.Arh.Trie.Move.{
  in_block, moves, moved_node, IsReady, IsMoved, child_moved, child_next, moved_node-skip,
  move_child-skip, relabel-own, from_outside, from_still, from_apart, to_inside, relabel-suc,
  moves-suc, only_parent,
}

write_node-set :
    (nodes : List DictNode) (i : ℕ) (v old : DictNode)
    → get_elem? nodes i ≡ some old
    → write_node nodes i v ≡ some (set nodes i v)
write_node-set nodes i v old e = ground (arith, lt_of_get_elem? nodes i old e)

-- What the round does to the children of the moved child.
abbrev relink : List DictNode → Option ℕ → ℕ → ℕ → Option (List DictNode)
relink copied none from_idx to_idx = some copied
relink copied (some below) from_idx to_idx = fix_links copied below from_idx to_idx block_size 0

module _ (moved : List DictNode) (p next offset m : ℕ) (node : DictNode)
    (here : get_elem? moved (bit_xor next m) ≡ some node) (child : is_child node p ≡ true)
    (copied fixed : List DictNode) (copies : write_node moved (bit_xor offset m) node ≡ some copied)
    (fixes : relink copied (get_next node) (bit_xor next m) (bit_xor offset m) ≡ some fixed) where
  move_child-take : move_child moved p next offset m ≡ write_node fixed (bit_xor next m) free
  unfolding move_child
  move_child-take = ground arith

module _ (nodes : List DictNode) (p next offset : ℕ) (ready : IsReady nodes p next offset) (m : ℕ)
    (lt : m < 128) (node : DictNode) (here : get_elem? nodes (bit_xor next m) ≡ some node)
    (child : is_child node p ≡ true) (moved : List DictNode)
    (each : IsMoved nodes p next offset ready m moved) where
  abbrev from_idx : ℕ
  from_idx = bit_xor next m

  abbrev to_idx : ℕ
  to_idx = bit_xor offset m

  out : in_block offset from_idx ≡ false
  out = from_outside nodes p next offset ready m lt node here child

  still : moves nodes p next offset m from_idx ≡ false
  still = from_still nodes p next offset ready m lt node here child

  other : p ≢ from_idx
  other = from_apart nodes p next offset ready m lt node here child

  inside : in_block offset to_idx ≡ true
  inside = to_inside nodes p next offset ready m lt node here child

  here_moved : get_elem? moved from_idx ≡ some node
  here_moved =
      ground (arith, each from_idx, out, still, relabel-own nodes p next offset ready m node child)

  to_free : get_elem? moved to_idx ≡ some free
  to_free = ground (arith, each to_idx, inside, bit_xor-cancel offset m, still)

  from_child : (j : ℕ) → child_at moved j from_idx ≡ true → child_at nodes j from_idx ≡ true
  from_child j h =
      ground
        (arith, h, child_moved nodes p next offset ready m j from_idx moved each out still other)

  -- A child of the moved node is near, and there is none if the node is a leaf.
  below_near :
      (j : ℕ)
      → child_at moved j from_idx ≡ true
      → (below : ℕ) × (get_next node ≡ some below) × (bit_xor below j < 128)
  below_near j h =
      let at = ready.trie.linked j from_idx (from_child j h) in
      let same : at.parent ≡ node = cc (at.there, here) in
      (at.next, ap get_next (sym same) ∙ at.inner, at.near)

  -- The node at `j` once the child is copied and its children have their new parent.
  abbrev fixed_node : ℕ → Option DictNode
  fixed_node j =
      if to_idx == j
      then some node
      else if child_at moved j from_idx
      then set_previous_opt (get_elem? moved j) to_idx
      else get_elem? moved j

  copied : List DictNode
  copied = set moved to_idx node

  copied_node :
      (j : ℕ) → get_elem? copied j ≡ (if to_idx == j then some node else get_elem? moved j)
  unfolding copied
  copied_node j = get_elem?-set moved to_idx j node to_free

  copied_child :
      (j : ℕ)
      → child_at copied j from_idx ≡ (if to_idx == j then false else child_at moved j from_idx)
  copied_child j = ground (arith, copied_node j, only_parent node p from_idx child other)

  relinks :
      (n : Option ℕ)
      → get_next node ≡ n
      → (fixed : List DictNode) × (relink copied n from_idx to_idx ≡ some fixed)
        × ((j : ℕ) → get_elem? fixed j ≡ fixed_node j)
  relinks none e = (
    copied,
    refl,
    λ j. elim (Bool-cases (child_at moved j from_idx)) [
      | inr h ↦ copied_node j ∙ ground arith
      | inl h ↦ let (below, wrong, _) = below_near j h in cc
    ],
  )
  relinks (some below) e =
      let (fixed, run, all) = fix_links-relinks copied below from_idx to_idx block_size 0 in
      (
        fixed,
        run,
        λ j. all j ∙ (elim (Bool-cases (child_at moved j from_idx)) [
          | inr h ↦ ground (arith, copied_node j, copied_child j)
          | inl h ↦
              let (below', same, close) = below_near j h in
              let same' : below' ≡ below = cc in
              let close' : bit_xor below j < 128 = rw same' at close in
              ground (arith, copied_node j, copied_child j)
        ]),
      )

  final_node :
      (j : ℕ)
      → (if from_idx == j then some free else fixed_node j)
        ≡ moved_node nodes p next offset (suc m) j
  final_node j = elim (ℕ_discrete from_idx j) [
    | yes e ↦ ground (arith, out, bit_xor-cancel next m)
    | no apart ↦ elim (ℕ_discrete to_idx j) [
      | yes e ↦ ground (arith, inside, bit_xor-cancel offset m, bit_xor-cancel next m)
      | no apart' ↦ elim (Bool-cases (in_block offset j)) [
        | inl within ↦
            let far : bit_xor next m ≢ bit_xor next (bit_xor offset j) = λ e. apart' (
              cc (
                bit_xor-cancel next m,
                bit_xor-cancel next (bit_xor offset j),
                bit_xor-cancel offset j,
              )) in
            ground (
              arith,
              each j,
              moves-suc nodes p next offset ready m (bit_xor next (bit_xor offset j)) far,
              child_moved nodes p next offset ready m j from_idx moved each out still other,
            )
        | inr outside ↦ elim (Option-cases (get_elem? nodes j)) [
          | inl past ↦ ground (
            arith,
            each j,
            moves-suc nodes p next offset ready m j apart,
            child_moved nodes p next offset ready m j from_idx moved each out still other,
          )
          | inr (n, there) ↦ ground (
            arith,
            each j,
            moves-suc nodes p next offset ready m j apart,
            relabel-suc nodes p next offset ready m lt node here child n,
            child_moved nodes p next offset ready m j from_idx moved each out still other,
          )
        ]
      ]
    ]
  ]

  move_child-IsMoved :
      (r : List DictNode) × (move_child moved p next offset m ≡ some r)
      × IsMoved nodes p next offset ready (suc m) r
  unfolding copied
  move_child-IsMoved =
      let (fixed, run, all) = relinks (get_next node) refl in
      let copies : write_node moved to_idx node ≡ some copied =
        write_node-set moved to_idx node free to_free in
      let far : to_idx ≢ from_idx = λ e. ground (arith, out, inside) in
      let at_from : get_elem? fixed from_idx ≡ some node =
        all from_idx ∙ ground (arith, here_moved, only_parent node p from_idx child other) in
      (
        set fixed from_idx free,
        move_child-take moved p next offset m node here_moved child copied fixed copies run
            ∙ write_node-set fixed from_idx free node at_from,
        λ j. get_elem?-set fixed from_idx j free at_from ∙ (ground (arith, all j) ∙ final_node j),
      )

module _ (nodes : List DictNode) (p next offset : ℕ) (ready : IsReady nodes p next offset) where
  -- One round, whether there is a child or not.
  move_child-round :
      (m : ℕ) (moved : List DictNode)
      → m < 128
      → IsMoved nodes p next offset ready m moved
      → (r : List DictNode) × (move_child moved p next offset m ≡ some r)
        × IsMoved nodes p next offset ready (suc m) r
  move_child-round m moved lt each = elim (Bool-cases (child_at nodes (bit_xor next m) p)) [
    | inr none_there ↦ (
      moved,
      move_child-skip nodes p next offset ready m moved
          (child_next nodes p next offset ready m moved each lt ∙ none_there),
      λ j. each j ∙ sym (moved_node-skip nodes p next offset ready m j none_there),
    )
    | inl taken ↦ elim (Option-cases (get_elem? nodes (bit_xor next m))) [
      | inl out ↦ absurd (ground arith)
      | inr (node, here) ↦
          move_child-IsMoved nodes p next offset ready m lt node here (ground arith) moved each
    ]
  ]

  pub move_children-IsMoved :
      (n m : ℕ) (moved : List DictNode)
      → m + n ≤ 128
      → IsMoved nodes p next offset ready m moved
      → (r : List DictNode) × (move_children moved p next offset n m ≡ some r)
        × IsMoved nodes p next offset ready (m + n) r
  unfolding move_children
  move_children-IsMoved zero m moved le each =
      (moved, refl, (let same : m + 0 ≡ m = omega arith in rw same each))
  move_children-IsMoved (suc n) m moved le each =
      let (r, run, each') = move_child-round m moved (omega arith) each in
      let (r', run', each'') = move_children-IsMoved n (suc m) r (omega arith) each' in
      let after : suc m ≡ m + 1 = omega arith in
      let total : suc m + n ≡ m + suc n = omega arith in
      (r', rw (run, ◌>>=◌) (rw after at run'), rw total at each'')
