-- ===== src/Arh/Dict/Free.antt =====
-- ardain/src/arh.rs: `free_node_recursive` ends, and only frees nodes.
use ard_tools.Base.{
  ℕ, zero, suc, ◌+◌, ◌≤◌, ◌<◌, ◌≡◌, ◌⊎◌, inl, inr, refl, sym, ◌∙◌, true, false, Option, none, some,
  List, [], ◌∷◌, arith, if◌then◌else◌, length, length-set, get_elem?, get_elem?-set_self,
  get_elem?-set_ne, get_elem?-some, lt_of_get_elem?, set, Bool-cases, Option-cases, ℕ_discrete,
}
use ard_tools.Arh.Node.{DictNode, free, root, occupied, leaf, get_previous, is_free}
use ard_tools.Arh.Dict.{any_child, free_loop, free_node_recursive, block_size}

-- The nodes that are in use.
used : List DictNode → ℕ
used [] = 0
used (n ∷ ns) = if is_free n then used ns else suc (used ns)

used-le : (nodes : List DictNode) → used nodes ≤ length nodes
unfolding used
used-le [] = omega arith
used-le (n ∷ ns) = ground (arith, used-le ns)

not_free : (node : DictNode) {p : ℕ} → get_previous node ≡ some p → is_free node ≡ false
not_free free h = cc
not_free (root n) h = refl
not_free (occupied q n) h = refl
not_free (leaf q s) h = refl

-- To free a node that has a parent takes one off the nodes in use.
used-set :
    (nodes : List DictNode) (i p : ℕ) {node : DictNode}
    → get_elem? nodes i ≡ some node
    → get_previous node ≡ some p
    → suc (used (set nodes i free)) ≡ used nodes
unfolding used
used-set [] i p e h = cc
used-set (n ∷ ns) zero p {node} e h = let same : n ≡ node = cc in rw (same, not_free node h)
used-set (n ∷ ns) (suc i) p e h = ground (arith, used-set ns i p e h)

-- Every link to a parent stays within the dictionary.
abbrev pub IsLinked : List DictNode → Type 0
IsLinked nodes =
    (i p : ℕ) (node : DictNode)
    → get_elem? nodes i ≡ some node
    → get_previous node ≡ some p
    → p < length nodes

-- A dictionary with some of its nodes freed: each node is as it was, or free.
pub record IsFreed (nodes freed : List DictNode) : Type 0 where
  pub same_length : length freed ≡ length nodes
  pub each : (i : ℕ) → (get_elem? freed i ≡ get_elem? nodes i) ⊎ (get_elem? freed i ≡ some free)

set-IsFreed : (nodes : List DictNode) (i : ℕ) → i < length nodes → IsFreed nodes (set nodes i free)
set-IsFreed nodes i h = record {
  same_length = length-set nodes i free;
  each = λ j. elim (ℕ_discrete i j) [
    | yes e ↦ inr (get_elem?-set_self_at e)
    | no e ↦ inl (get_elem?-set_ne nodes {i = i} {j = j} free e)
  ];
}
  where
    get_elem?-set_self_at : {j : ℕ} → i ≡ j → get_elem? (set nodes i free) j ≡ some free
    get_elem?-set_self_at e = rw (← e) (get_elem?-set_self nodes i free h)

trans-IsFreed : {a b c : List DictNode} → IsFreed a b → IsFreed b c → IsFreed a c
trans-IsFreed {a} {b} {c} f g = record {
  same_length = g.same_length ∙ f.same_length;
  each = λ j. ground (arith, f.each j, g.each j);
}

set-IsLinked :
    (nodes : List DictNode) (i : ℕ)
    → i < length nodes
    → IsLinked nodes
    → IsLinked (set nodes i free)
set-IsLinked nodes i h linked j p node e prev =
    let f = set-IsFreed nodes i h in ground (arith, f.same_length, f.each j, linked j p node)

-- What the loop promises at `i`: a result, with nodes freed, the one at `i` among them.
abbrev Frees : List DictNode → ℕ → Option (List DictNode) → Type 0
Frees nodes i r =
    (freed : List DictNode) × (r ≡ some freed)
    × IsFreed nodes freed
    × (get_elem? freed i ≡ some free)

Frees-set :
    (nodes : List DictNode) (i : ℕ) → i < length nodes → Frees nodes i (some (set nodes i free))
Frees-set nodes i h =
    (set nodes i free, refl, set-IsFreed nodes i h, get_elem?-set_self nodes i free h)

Frees-next :
    (nodes : List DictNode) (i p : ℕ) (r : Option (List DictNode))
    → i < length nodes
    → Frees (set nodes i free) p r
    → Frees nodes i r
Frees-next nodes i p r h (freed, e, f, _) = (
  freed,
  e,
  trans-IsFreed (set-IsFreed nodes i h) f,
  ground (arith, f.each i, get_elem?-set_self nodes i free h),
)

module _ (fuel : ℕ) (nodes : List DictNode) (i : ℕ) {node : DictNode}
    (here : get_elem? nodes i ≡ some node) where
  pub free_loop_root :
      get_previous node ≡ none → free_loop (suc fuel) nodes i ≡ some (set nodes i free)
  unfolding free_loop
  free_loop_root e = ground arith

  pub free_loop_stop :
      (p : ℕ)
      → get_previous node ≡ some p
      → any_child (set nodes i free) i p block_size 0 ≡ true
      → free_loop (suc fuel) nodes i ≡ some (set nodes i free)
  unfolding free_loop
  free_loop_stop p e more = ground arith

  pub free_loop_on :
      (p : ℕ)
      → get_previous node ≡ some p
      → any_child (set nodes i free) i p block_size 0 ≡ false
      → free_loop (suc fuel) nodes i ≡ free_loop fuel (set nodes i free) p
  unfolding free_loop
  free_loop_on p e last = ground arith

free_loop-Frees :
    (fuel : ℕ) (nodes : List DictNode) (i : ℕ)
    → used nodes < fuel
    → i < length nodes
    → IsLinked nodes
    → Frees nodes i (free_loop fuel nodes i)
free_loop-Frees zero nodes i enough inside linked = absurd (omega arith)
free_loop-Frees (suc fuel) nodes i enough inside linked =
    let (node, here) = get_elem?-some nodes i inside in
    elim (Option-cases (get_previous node)) [
      | inl top ↦ rw (free_loop_root fuel nodes i here top) (Frees-set nodes i inside)
      | inr (p, link) ↦ elim (Bool-cases (any_child (set nodes i free) i p block_size 0)) [
        | inl more ↦ rw (free_loop_stop fuel nodes i here p link more) (Frees-set nodes i inside)
        | inr last ↦ rw (free_loop_on fuel nodes i here p link last) (
            Frees-next nodes i p _ inside (
              free_loop-Frees fuel (set nodes i free) p
                (omega (arith, used-set nodes i p here link))
                (omega (arith, length-set nodes i free, linked i p node here link))
                (set-IsLinked nodes i inside linked)))
      ]
    ]

-- In a dictionary whose links to parents stay within it, `free_node_recursive` returns at every index
-- of the dictionary: the node there is free after, and each other node is as it was or free.
pub free_node_recursive_total :
    (nodes : List DictNode) (i : ℕ)
    → i < length nodes
    → IsLinked nodes
    → (freed : List DictNode) × (free_node_recursive nodes i ≡ some freed)
      × IsFreed nodes freed
      × (get_elem? freed i ≡ some free)
unfolding free_node_recursive
free_node_recursive_total nodes i inside linked =
    free_loop-Frees (length nodes + 1) nodes i (omega (arith, used-le nodes)) inside linked

free_loop_sound :
    (fuel : ℕ) (nodes : List DictNode) (i : ℕ) {r : List DictNode}
    → free_loop fuel nodes i ≡ some r
    → Frees nodes i (free_loop fuel nodes i)
unfolding free_loop
free_loop_sound zero nodes i e = cc
free_loop_sound (suc fuel) nodes i {r} e = elim (Option-cases (get_elem? nodes i)) [
  | inl out ↦ absurd (ground arith)
  | inr (node, here) ↦
      let inside = lt_of_get_elem? nodes i node here in
      elim (Option-cases (get_previous node)) [
        | inl top ↦ rw (free_loop_root fuel nodes i here top) (Frees-set nodes i inside)
        | inr (p, link) ↦ elim (Bool-cases (any_child (set nodes i free) i p block_size 0)) [
          | inl more ↦ rw (free_loop_stop fuel nodes i here p link more) (Frees-set nodes i inside)
          | inr last ↦
              let on = free_loop_on fuel nodes i here p link last in
              rw on (
                Frees-next nodes i p _ inside
                  (free_loop_sound fuel (set nodes i free) p (sym on ∙ e)))
        ]
      ]
]

-- Where `free_node_recursive` returns, whatever the dictionary, the node at its index is free after,
-- and each other node is as it was or free.
pub free_node_recursive_sound :
    (nodes : List DictNode) (i : ℕ) {r : List DictNode}
    → free_node_recursive nodes i ≡ some r
    → IsFreed nodes r × (get_elem? r i ≡ some free)
unfolding free_node_recursive
free_node_recursive_sound nodes i {r} e =
    let (freed, f, parts, here) = free_loop_sound (length nodes + 1) nodes i e in
    let same : freed ≡ r = cc in (rw same at parts, rw same at here)
