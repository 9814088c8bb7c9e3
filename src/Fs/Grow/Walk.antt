-- ===== src/Fs/Grow/Walk.antt =====
-- ardain/src/fs.rs: the walk of `get_file_id` after a block allocation.
use ard_tools.Base.{
  ℕ, ◌<◌, ◌≡◌, ◌≢◌, refl, sym, ap, ◌∙◌, inl, inr, Bool, true, false, none, some, List, [], ◌∷◌,
  arith, ltb, ◌&&◌, length, get_elem?, bit_xor, Bool-cases, Option-cases, ℕ_discrete, if◌then◌else◌,
  ok, err, panic, Run,
}
use ard_tools.Bits.Xor.{bit_xor-cancel, bit_xor-block}
use ard_tools.Arh.Node.{DictNode, free, root, occupied, leaf, get_next, is_child, is_leaf}
use ard_tools.Arh.Dict.{child_at, grow, next_multiple}
use ard_tools.Arh.Trie.{IsTrie}
use ard_tools.Arh.Trie.Move.{near, only_parent}
use ard_tools.Arh.Trie.Grow.{block_at, child_at-grow, old_outside, allocated_node, ready}
use ard_tools.Arh.Trie.Moved.{
  place_after, label, label-child, label-leaf, label-next, label-there, child_at-stray,
}
use ard_tools.Path.{Text}
use ard_tools.Fs.Lookup.{Stop, walk, walk_root}
use ard_tools.Fs.Lookup.Steps.{walk_out, walk_astray, walk_on, walk_stuck, walk_leaf, walk_root_at}

-- A walk for a character that leads to no child.
walk_miss :
    (nodes : List DictNode) (i : ℕ) (node : DictNode) (c : ℕ) (cs : Text) {next : ℕ}
    → is_leaf node ≡ false
    → get_next node ≡ some next
    → child_at nodes (bit_xor next c) i ≡ false
    → walk nodes i node (c ∷ cs) ≡ err tt
walk_miss nodes i node c cs {next} inner on stray =
    elim (Option-cases (get_elem? nodes (bit_xor next c))) [
      | inl out ↦ walk_out nodes i node c cs inner on out
      | inr (child, there) ↦ walk_astray nodes i node c cs inner on child there (ground arith)
    ]

-- A text of characters below 128, one for each node of a block.
abbrev pub is_ascii : Text → Bool
is_ascii [] = true
is_ascii (c ∷ cs) = ltb c 128 && is_ascii cs

pub inner_leaf : (n : DictNode) (next : ℕ) → get_next n ≡ some next → is_leaf n ≡ false
inner_leaf free next h = refl
inner_leaf (root m) next h = refl
inner_leaf (occupied q m) next h = refl
inner_leaf (leaf q s) next h = cc

not_empty :
    (xs : List DictNode) (p : ℕ) {parent : DictNode}
    → get_elem? xs 0 ≡ none
    → get_elem? xs p ≡ some parent
    → ⊥
not_empty [] p out at_p = cc
not_empty (x ∷ xs) p out at_p = cc

-- Where the node at `i` is after a new block for the children of `p`, which stood in the block of `next`.
abbrev pub index_after : List DictNode → ℕ → ℕ → ℕ → ℕ
index_after nodes p next i =
    if child_at nodes i p then bit_xor (next_multiple (length nodes)) (bit_xor next i) else i

module _ (nodes : List DictNode) (p next : ℕ) (parent : DictNode) (trie : IsTrie nodes)
    (apart : child_at nodes p p ≡ false) (there : get_elem? nodes p ≡ some parent)
    (inner : get_next parent ≡ some next) where
  abbrev pub at_after : ℕ → ℕ
  at_after i = place_after nodes p next parent trie apart there inner i

  abbrev pub label_after : ℕ → DictNode → DictNode
  label_after i node = label nodes p next parent trie apart there inner i node

  -- The same stop, at the index where its node is afterwards.
  abbrev pub stop_after : Run (Unit {0}) Stop → Run (Unit {0}) Stop
  stop_after (ok stop) = ok (record {
    index = at_after stop.index;
    node = label_after stop.index stop.node;
    rest = stop.rest;
  })
  stop_after (err tt) = err tt
  stop_after panic = panic

  pub at_after_self : at_after p ≡ p
  at_after_self = ground (arith, child_at-grow nodes p p)

  pub at_after_lem : (i : ℕ) → at_after i ≡ index_after nodes p next i
  at_after_lem i = elim (Bool-cases (child_at nodes i p)) [
    | inl h ↦ ground (
      arith,
      child_at-grow nodes i p,
      near (grow nodes) p next (block_at nodes) (ready nodes p next parent trie apart there inner)
          i,
    )
    | inr h ↦ ground (arith, child_at-grow nodes i p)
  ]

  module _ (r : List DictNode)
      (each : (j : ℕ)
        → get_elem? r j ≡ allocated_node nodes p next parent trie apart there inner j) where
    -- The step of a walk to a child, in both dictionaries.
    walk-child :
        (i : ℕ) (node : DictNode) (c : ℕ) (cs : Text) {n m : ℕ} (child : DictNode)
        → get_elem? nodes i ≡ some node
        → is_leaf node ≡ false
        → get_next node ≡ some n
        → get_elem? nodes (bit_xor n c) ≡ some child
        → is_child child i ≡ true
        → get_next (label_after i node) ≡ some m
        → bit_xor m c ≡ at_after (bit_xor n c)
        → walk r (at_after (bit_xor n c)) (label_after (bit_xor n c) child) cs
          ≡ stop_after (walk nodes (bit_xor n c) child cs)
        → walk r (at_after i) (label_after i node) (c ∷ cs)
          ≡ stop_after (walk nodes i node (c ∷ cs))
    walk-child i node c cs {n} {m} child here l on at_child linked on' target rest =
        walk_on r (at_after i) (label_after i node) c cs
          (label-leaf nodes p next parent trie apart there inner i node here ∙ l) on'
          (label_after (bit_xor n c) child)
          (ap (get_elem? r) target
            ∙ label-there nodes p next parent trie apart there inner r each (bit_xor n c) child
                at_child)
          (label-child nodes p next parent trie apart there inner (bit_xor n c) child i at_child
              (old_outside nodes i here)
            ∙ linked)
        ∙ ap (λ k. walk r k (label_after (bit_xor n c) child) cs) target
        ∙ rest
        ∙ ap stop_after (sym (walk_on nodes i node c cs l on child at_child linked))

    -- The step from the node that has a new block.
    walk-grown :
        (c : ℕ) (cs : Text)
        → c < 128
        → ((j : ℕ) (child : DictNode)
            → get_elem? nodes j ≡ some child
            → walk r (at_after j) (label_after j child) cs ≡ stop_after (walk nodes j child cs))
        → walk r (at_after p) (label_after p parent) (c ∷ cs)
          ≡ stop_after (walk nodes p parent (c ∷ cs))
    walk-grown c cs lt rest =
        let l : is_leaf parent ≡ false = inner_leaf parent next inner in
        let on : get_next (label_after p parent) ≡ some (block_at nodes) =
          label-next nodes p next parent trie apart there inner p parent ∙ ground arith in
        elim (Bool-cases (child_at nodes (bit_xor next c) p)) [
          | inl h ↦ elim (Option-cases (get_elem? nodes (bit_xor next c))) [
            | inl out ↦ absurd (ground arith)
            | inr (child, at_child) ↦
                walk-child p parent c cs child there l inner at_child (ground arith) on
                  (ground (arith, child_at-grow nodes (bit_xor next c) p, bit_xor-cancel next c))
                  (rest (bit_xor next c) child at_child)
          ]
          | inr h ↦
              walk_miss r (at_after p) (label_after p parent) c cs
                (label-leaf nodes p next parent trie apart there inner p parent there ∙ l) on
                (ground (
                  arith,
                  each (bit_xor (block_at nodes) c),
                  bit_xor-block (block_at nodes) c lt,
                  old_outside nodes p there,
                  bit_xor-cancel (block_at nodes) c,
                  child_at-grow nodes (bit_xor next c) p,
                ))
              ∙ ap stop_after (sym (walk_miss nodes p parent c cs l inner h))
        ]

    -- The step from any other node.
    walk-other :
        (i : ℕ) (node : DictNode) (c : ℕ) (cs : Text) {n : ℕ}
        → i ≢ p
        → get_elem? nodes i ≡ some node
        → is_leaf node ≡ false
        → get_next node ≡ some n
        → ((j : ℕ) (child : DictNode)
            → get_elem? nodes j ≡ some child
            → walk r (at_after j) (label_after j child) cs ≡ stop_after (walk nodes j child cs))
        → walk r (at_after i) (label_after i node) (c ∷ cs)
          ≡ stop_after (walk nodes i node (c ∷ cs))
    walk-other i node c cs {n} other here l on rest =
        let on' : get_next (label_after i node) ≡ some n =
          label-next nodes p next parent trie apart there inner i node ∙ ground arith in
        elim (Bool-cases (child_at nodes (bit_xor n c) i)) [
          | inl h ↦ elim (Option-cases (get_elem? nodes (bit_xor n c))) [
            | inl out ↦ absurd (ground arith)
            | inr (child, at_child) ↦
                walk-child i node c cs child here l on at_child (ground arith) on'
                  (ground (arith, child_at-grow nodes (bit_xor n c) p, only_parent child i p))
                  (rest (bit_xor n c) child at_child)
          ]
          | inr h ↦
              walk_miss r (at_after i) (label_after i node) c cs
                (label-leaf nodes p next parent trie apart there inner i node here ∙ l) on'
                (child_at-stray nodes p next parent trie apart there inner r each i (bit_xor n c)
                  node here other h)
              ∙ ap stop_after (sym (walk_miss nodes i node c cs l on h))
        ]

    walk-at_grown :
        (i : ℕ) (node : DictNode) (c : ℕ) (cs : Text)
        → i ≡ p
        → node ≡ parent
        → c < 128
        → ((j : ℕ) (child : DictNode)
            → get_elem? nodes j ≡ some child
            → walk r (at_after j) (label_after j child) cs ≡ stop_after (walk nodes j child cs))
        → walk r (at_after i) (label_after i node) (c ∷ cs)
          ≡ stop_after (walk nodes i node (c ∷ cs))
    walk-at_grown i node c cs at_p same lt rest = rw (at_p, same) (walk-grown c cs lt rest)

    -- Each walk that starts at a node ends as it did.
    walk-after :
        (i : ℕ) (node : DictNode) (path : Text)
        → is_ascii path ≡ true
        → get_elem? nodes i ≡ some node
        → walk r (at_after i) (label_after i node) path ≡ stop_after (walk nodes i node path)
    unfolding walk
    walk-after i node [] ascii here = ground (
      arith,
      label-leaf nodes p next parent trie apart there inner i node here,
      label-child nodes p next parent trie apart there inner i node i here
          (old_outside nodes i here),
    )
    walk-after i node (c ∷ cs) ascii here = elim (Bool-cases (is_leaf node)) [
      | inl l ↦
          walk_leaf r (at_after i) (label_after i node) (c ∷ cs)
            (label-leaf nodes p next parent trie apart there inner i node here ∙ l)
          ∙ ap stop_after (sym (walk_leaf nodes i node (c ∷ cs) l))
      | inr l ↦
          let rest = λ (j : ℕ) (child : DictNode) (at_child : get_elem? nodes j ≡ some child).
            walk-after j child cs (ground arith) at_child in
          elim (ℕ_discrete i p) [
            | yes e ↦
                let same : parent ≡ node = cc in
                walk-at_grown i node c cs e (sym same) (ground arith) rest
            | no other ↦ elim (Option-cases (get_next node)) [
              | inl stuck ↦
                  walk_stuck r (at_after i) (label_after i node) c cs
                    (label-leaf nodes p next parent trie apart there inner i node here ∙ l)
                    (label-next nodes p next parent trie apart there inner i node ∙ ground arith)
                  ∙ ap stop_after (sym (walk_stuck nodes i node c cs l stuck))
              | inr (n, on) ↦ walk-other i node c cs other here l on rest
            ]
          ]
    ]

    pub walk_root-after :
        (path : Text)
        → child_at nodes 0 p ≡ false
        → is_ascii path ≡ true
        → walk_root r path ≡ stop_after (walk_root nodes path)
    walk_root-after path root_apart ascii = elim (Option-cases (get_elem? nodes 0)) [
      | inl out ↦ absurd (not_empty nodes p out there)
      | inr (node, here) ↦
          let stays : at_after 0 ≡ 0 = at_after_lem 0 ∙ ground arith in
          walk_root_at r (label_after 0 node) path (
            ap (get_elem? r) (sym stays)
            ∙ label-there nodes p next parent trie apart there inner r each 0 node here)
          ∙ ap (λ k. walk r k (label_after 0 node) path) (sym stays)
          ∙ walk-after 0 node path ascii here
          ∙ ap stop_after (sym (walk_root_at nodes node path here))
    ]
