-- ===== src/Arh/Trie/Links.antt =====
-- ardain/src/arh.rs: the inner loop of `allocate_new_block`, which gives the children of a node that has
-- moved their new parent.
use ard_tools.Base.{
  ℕ, zero, suc, ◌+◌, ◌≡◌, ◌≢◌, ◌&&◌, refl, ◌∙◌, inl, inr, true, false, Option, none, some, List, [],
  ◌∷◌, arith, ltb, leb, get_elem?, set, bit_xor, Bool-cases, Option-cases, ℕ_discrete, ◌==◌,
  if◌then◌else◌,
}
use ard_tools.Bits.Xor.{bit_xor-cancel}
use ard_tools.Arh.Node.{DictNode, free, root, occupied, leaf, is_child, attach_previous}
use ard_tools.Arh.Dict.{child_at, fix_links}

-- A node with another parent.
abbrev pub set_previous : DictNode → ℕ → DictNode
set_previous free k = free
set_previous (root n) k = occupied k n
set_previous (occupied p n) k = occupied k n
set_previous (leaf p s) k = leaf k s

abbrev pub set_previous_opt : Option DictNode → ℕ → Option DictNode
set_previous_opt none k = none
set_previous_opt (some node) k = some (set_previous node k)

attach_previous_child :
    (node : DictNode) (p k : ℕ)
    → is_child node p ≡ true
    → attach_previous node k ≡ some (set_previous node k)
attach_previous_child free p k h = cc
attach_previous_child (root n) p k h = refl
attach_previous_child (occupied q n) p k h = refl
attach_previous_child (leaf q s) p k h = refl

pub get_elem?-set :
    (nodes : List DictNode) (i j : ℕ) (v : DictNode) {old : DictNode}
    → get_elem? nodes i ≡ some old
    → get_elem? (set nodes i v) j ≡ (if i == j then some v else get_elem? nodes j)
get_elem?-set [] i j v h = cc
get_elem?-set (n ∷ ns) zero zero v h = refl
get_elem?-set (n ∷ ns) zero (suc j) v h = ground arith
get_elem?-set (n ∷ ns) (suc i) zero v h = ground arith
get_elem?-set (n ∷ ns) (suc i) (suc j) v h = get_elem?-set ns i j v h ∙ ground arith

-- The node at `j` after the loop over the characters from `c` on.
abbrev relinked : List DictNode → ℕ → ℕ → ℕ → ℕ → ℕ → ℕ → Option DictNode
relinked nodes next from_idx to_idx n c j =
    if leb c (bit_xor next j) && (ltb (bit_xor next j) (c + n) && child_at nodes j from_idx)
    then set_previous_opt (get_elem? nodes j) to_idx
    else get_elem? nodes j

module _ (nodes : List DictNode) (next from_idx to_idx n c : ℕ) where
  fix_links-skip :
      child_at nodes (bit_xor next c) from_idx ≡ false
      → fix_links nodes next from_idx to_idx (suc n) c
        ≡ fix_links nodes next from_idx to_idx n (c + 1)
  unfolding fix_links
  fix_links-skip h = ground arith

  fix_links-fix :
      (node : DictNode)
      → get_elem? nodes (bit_xor next c) ≡ some node
      → is_child node from_idx ≡ true
      → fix_links nodes next from_idx to_idx (suc n) c
        ≡ fix_links
            (set nodes (bit_xor next c) (set_previous node to_idx))
            next
            from_idx
            to_idx
            n
            (c + 1)
  unfolding fix_links
  fix_links-fix node here h = ground (arith, attach_previous_child node from_idx to_idx h)

  -- Only the place of the character `c` is at that distance.
  at_character : (j : ℕ) → bit_xor next j ≡ c → bit_xor next c ≡ j
  at_character j e = cc (bit_xor-cancel next j)

  relinked-skip :
      (j : ℕ)
      → child_at nodes (bit_xor next c) from_idx ≡ false
      → relinked nodes next from_idx to_idx n (c + 1) j
        ≡ relinked nodes next from_idx to_idx (suc n) c j
  relinked-skip j h = elim (ℕ_discrete (bit_xor next j) c) [
    | yes here ↦ let same = at_character j here in ground arith
    | no other ↦ ground arith
  ]

  relinked-fix :
      (j : ℕ) (node : DictNode)
      → get_elem? nodes (bit_xor next c) ≡ some node
      → is_child node from_idx ≡ true
      → relinked
          (set nodes (bit_xor next c) (set_previous node to_idx))
          next
          from_idx
          to_idx
          n
          (c + 1)
          j
        ≡ relinked nodes next from_idx to_idx (suc n) c j
  relinked-fix j node here h =
      let put = get_elem?-set nodes (bit_xor next c) j (set_previous node to_idx) here in
      elim (ℕ_discrete (bit_xor next j) c) [
        | yes e ↦ let same = at_character j e in ground arith
        | no other ↦
            let apart : bit_xor next c ≢ j = (λ e. other (cc (bit_xor-cancel next c))) in
            let kept : get_elem? (set nodes (bit_xor next c) (set_previous node to_idx)) j
                ≡ get_elem? nodes j =
              ground arith in
            ground arith
      ]

pub fix_links-relinks :
    (nodes : List DictNode) (next from_idx to_idx n c : ℕ)
    → (r : List DictNode) × (fix_links nodes next from_idx to_idx n c ≡ some r)
      × ((j : ℕ) → get_elem? r j ≡ relinked nodes next from_idx to_idx n c j)
unfolding fix_links
fix_links-relinks nodes next from_idx to_idx zero c = (nodes, refl, λ j. ground arith)
fix_links-relinks nodes next from_idx to_idx (suc n) c =
    elim (Bool-cases (child_at nodes (bit_xor next c) from_idx)) [
      | inr not_child ↦
          let (r, e, each) = fix_links-relinks nodes next from_idx to_idx n (c + 1) in
          (
            r,
            fix_links-skip nodes next from_idx to_idx n c not_child ∙ e,
            λ j. each j ∙ relinked-skip nodes next from_idx to_idx n c j not_child,
          )
      | inl child ↦ elim (Option-cases (get_elem? nodes (bit_xor next c))) [
        | inl out ↦ absurd (ground arith)
        | inr (node, here) ↦
            let is_one : is_child node from_idx ≡ true = ground arith in
            let (r, e, each) =
              fix_links-relinks (set nodes (bit_xor next c) (set_previous node to_idx)) next
                from_idx to_idx n (c + 1) in
            (
              r,
              fix_links-fix nodes next from_idx to_idx n c node here is_one ∙ e,
              λ j. each j ∙ relinked-fix nodes next from_idx to_idx n c j node here is_one,
            )
      ]
    ]
