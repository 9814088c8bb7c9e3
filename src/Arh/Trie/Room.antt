-- ===== src/Arh/Trie/Room.antt =====
-- ardain/src/arh.rs, ardain/src/fs.rs: the blocks of nodes are in the dictionary, so that an index for a character
-- is not out of bounds.
use ard_tools.Base.{
  ℕ, ◌<◌, ◌≡◌, ◌≢◌, refl, sym, ap, ◌∙◌, inl, inr, false, none, some, List, arith, ltb, length,
  get_elem?, set, bit_xor, Bool-cases, Option-cases, ℕ_discrete,
}
use ard_tools.Bits.Xor.{bit_xor-block}
use ard_tools.Arh.Node.{DictNode, free, root, occupied, leaf, get_next, attach_next}
use ard_tools.Arh.Dict.{child_at, grow}
use ard_tools.Arh.Trie.{IsTrie}
use ard_tools.Arh.Trie.Links.{get_elem?-set}
use ard_tools.Arh.Trie.Move.{in_block, moves, relabel}
use ard_tools.Arh.Trie.Grow.{
  block_at, block_free, get_elem?-grow, get_elem?-grow_old, allocated_node,
}
use ard_tools.Arh.Trie.Moved.{attach_next-next}
use ard_tools.Arh.Trie.Plant.{IsPlanted, IsAttached}

abbrev pub IsThere : List DictNode → ℕ → Type 0
IsThere nodes j = (n : DictNode) × (get_elem? nodes j ≡ some n)

-- A node for each character.
abbrev pub HasBlock : List DictNode → ℕ → Type 0
HasBlock nodes next = (c : ℕ) → c < 128 → IsThere nodes (bit_xor next c)

abbrev pub IsRoomy : List DictNode → Type 0
IsRoomy nodes =
    (i : ℕ) (n : DictNode) (next : ℕ)
    → get_elem? nodes i ≡ some n
    → get_next n ≡ some next
    → HasBlock nodes next

-- The same, but for the node at `k`.
abbrev pub IsRoomyBut : List DictNode → ℕ → Type 0
IsRoomyBut nodes k =
    (i : ℕ) (n : DictNode) (next : ℕ)
    → i ≢ k
    → get_elem? nodes i ≡ some n
    → get_next n ≡ some next
    → HasBlock nodes next

pub HasBlock-keeps :
    (nodes after : List DictNode) (next : ℕ)
    → ((j : ℕ) → IsThere nodes j → IsThere after j)
    → HasBlock nodes next
    → HasBlock after next
HasBlock-keeps nodes after next keeps block c lt = keeps (bit_xor next c) (block c lt)

pub IsThere-grow : (nodes : List DictNode) (j : ℕ) → IsThere nodes j → IsThere (grow nodes) j
IsThere-grow nodes j (n, here) = (n, get_elem?-grow_old nodes j here)

pub HasBlock-grow : (nodes : List DictNode) → HasBlock (grow nodes) (block_at nodes)
HasBlock-grow nodes c lt = (
  free,
  block_free nodes (bit_xor (block_at nodes) c)
      (ground (arith, bit_xor-block (block_at nodes) c lt)),
)

pub IsThere-attached :
    (nodes after : List DictNode) (p : ℕ) (node : DictNode) (next : ℕ) (j : ℕ)
    → IsAttached nodes after p node next
    → IsThere nodes j
    → IsThere after j
IsThere-attached nodes after p node next j attached (n, here) = elim (ℕ_discrete p j) [
  | yes e ↦ (attach_next node next, attached.each j ∙ ground arith)
  | no e ↦ (n, attached.each j ∙ ground (arith, here))
]

pub IsThere-planted :
    (nodes after : List DictNode) (k : ℕ) (x : DictNode) (j : ℕ)
    → IsPlanted nodes after k x
    → IsThere nodes j
    → IsThere after j
IsThere-planted nodes after k x j planted (n, here) = elim (ℕ_discrete k j) [
  | yes e ↦ (x, planted.each j ∙ ground arith)
  | no e ↦ (n, planted.each j ∙ ground (arith, here))
]

pub IsThere-set :
    (nodes : List DictNode) (k : ℕ) (x : DictNode) (j : ℕ) {old : DictNode}
    → get_elem? nodes k ≡ some old
    → IsThere nodes j
    → IsThere (set nodes k x) j
IsThere-set nodes k x j before (n, here) = elim (ℕ_discrete k j) [
  | yes e ↦ (x, get_elem?-set nodes k j x before ∙ ground arith)
  | no e ↦ (n, get_elem?-set nodes k j x before ∙ ground (arith, here))
]

-- A node without a block of its own is planted.
pub IsRoomy-planted :
    (nodes after : List DictNode) (k : ℕ) (x : DictNode)
    → IsPlanted nodes after k x
    → get_next x ≡ none
    → IsRoomy nodes
    → IsRoomy after
IsRoomy-planted nodes after k x planted stuck roomy i n next here on = elim (ℕ_discrete k i) [
  | yes e ↦ let same : x ≡ n = ground (arith, planted.each i, here) in cc (ap get_next same, on)
  | no e ↦
      HasBlock-keeps nodes after next (λ j there. IsThere-planted nodes after k x j planted there)
        (roomy i n next (ground (arith, planted.each i, here)) on)
]

-- All but the node at `k` are, and it has no block.
pub IsRoomyBut-leaf :
    (nodes : List DictNode) (k : ℕ) (x : DictNode)
    → get_elem? nodes k ≡ some x
    → get_next x ≡ none
    → IsRoomyBut nodes k
    → IsRoomy nodes
IsRoomyBut-leaf nodes k x there stuck roomy i n next here on = elim (ℕ_discrete i k) [
  | yes e ↦ let same : n ≡ x = cc (ap (get_elem? nodes) e) in cc (ap get_next same)
  | no e ↦ roomy i n next e here on
]

grown_inner :
    (nodes : List DictNode) (j : ℕ) (n : DictNode) {next : ℕ}
    → get_elem? (grow nodes) j ≡ some n
    → get_next n ≡ some next
    → get_elem? nodes j ≡ some n
grown_inner nodes j free there on = cc
grown_inner nodes j (root m) there on = elim (Bool-cases (ltb j (length nodes))) [
  | inl inside ↦ ground (arith, get_elem?-grow nodes j)
  | inr outside ↦ absurd (ground (arith, get_elem?-grow nodes j))
]
grown_inner nodes j (occupied q m) there on = elim (Bool-cases (ltb j (length nodes))) [
  | inl inside ↦ ground (arith, get_elem?-grow nodes j)
  | inr outside ↦ absurd (ground (arith, get_elem?-grow nodes j))
]
grown_inner nodes j (leaf q s) there on = cc

pub IsRoomy-grow : (nodes : List DictNode) → IsRoomy nodes → IsRoomy (grow nodes)
IsRoomy-grow nodes roomy i n next here on =
    HasBlock-keeps nodes (grow nodes) next (IsThere-grow nodes)
      (roomy i n next (grown_inner nodes i n here on) on)

relabel-next :
    (nodes : List DictNode) (p next offset m : ℕ) (n : DictNode)
    → get_next (relabel nodes p next offset m n) ≡ get_next n
relabel-next nodes p next offset m free = refl
relabel-next nodes p next offset m (root k) = refl
relabel-next nodes p next offset m (occupied q k) = refl
relabel-next nodes p next offset m (leaf q s) = refl

module _ (nodes : List DictNode) (p next : ℕ) (parent : DictNode) (trie : IsTrie nodes)
    (apart : child_at nodes p p ≡ false) (there : get_elem? nodes p ≡ some parent)
    (inner : get_next parent ≡ some next) (r : List DictNode)
    (each : (j : ℕ)
      → get_elem? r j ≡ allocated_node nodes p next parent trie apart there inner j) where
  pub IsThere-allocated : (j : ℕ) → IsThere (grow nodes) j → IsThere r j
  IsThere-allocated j (n, here) = elim (ℕ_discrete p j) [
    | yes e ↦ (
      attach_next (relabel (grow nodes) p next (block_at nodes) 128 parent) (block_at nodes),
      each j ∙ ground arith,
    )
    | no e ↦ elim (Bool-cases (in_block (block_at nodes) j)) [
      | inl inside ↦
          let origin = bit_xor next (bit_xor (block_at nodes) j) in
          elim (Bool-cases (moves (grow nodes) p next (block_at nodes) 128 origin)) [
            | inr stays ↦ (free, each j ∙ ground arith)
            | inl moved ↦ elim (Option-cases (get_elem? (grow nodes) origin)) [
              | inl out ↦ absurd (ground (arith, out))
              | inr (m, at_origin) ↦ (m, each j ∙ ground (arith, at_origin))
            ]
          ]
      | inr outside ↦ elim (Bool-cases (moves (grow nodes) p next (block_at nodes) 128 j)) [
        | inl moved ↦ (free, each j ∙ ground arith)
        | inr stays ↦
            (relabel (grow nodes) p next (block_at nodes) 128 n, each j ∙ ground (arith, here))
      ]
    ]
  ]

  -- After `allocate_new_block` the blocks are there.
  pub IsRoomy-allocated : IsRoomy nodes → IsRoomy r
  IsRoomy-allocated roomy i n next' here on = elim (ℕ_discrete p i) [
    | yes e ↦
        let same : attach_next (relabel (grow nodes) p next (block_at nodes) 128 parent)
              (block_at nodes)
            ≡ n =
          ground (arith, each i, here) in
        let own : block_at nodes ≡ next' = cc (
          attach_next-next (relabel (grow nodes) p next (block_at nodes) 128 parent)
              (block_at nodes),
          ap get_next same,
        ) in
        rw (← own)
          (HasBlock-keeps (grow nodes) r (block_at nodes) IsThere-allocated (HasBlock-grow nodes))
    | no e ↦ elim (Bool-cases (in_block (block_at nodes) i)) [
      | inl inside ↦
          let origin = bit_xor next (bit_xor (block_at nodes) i) in
          elim (Bool-cases (moves (grow nodes) p next (block_at nodes) 128 origin)) [
            | inr stays ↦
                let same : free ≡ n = ground (arith, each i, here) in cc (ap get_next same)
            | inl moved ↦
                HasBlock-keeps (grow nodes) r next' IsThere-allocated
                  (IsRoomy-grow nodes roomy origin n next' (ground (arith, each i, here)) on)
          ]
      | inr outside ↦ elim (Bool-cases (moves (grow nodes) p next (block_at nodes) 128 i)) [
        | inl moved ↦ let same : free ≡ n = ground (arith, each i, here) in cc (ap get_next same)
        | inr stays ↦ elim (Option-cases (get_elem? (grow nodes) i)) [
          | inl out ↦ absurd (ground (arith, each i, here))
          | inr (m, old) ↦
              let same : relabel (grow nodes) p next (block_at nodes) 128 m ≡ n =
                ground (arith, each i, here) in
              let on_old : get_next m ≡ some next' =
                sym (relabel-next (grow nodes) p next (block_at nodes) 128 m)
                ∙ ap get_next same
                ∙ on in
              HasBlock-keeps (grow nodes) r next' IsThere-allocated
                (IsRoomy-grow nodes roomy i m next' old on_old)
        ]
      ]
    ]
  ]
