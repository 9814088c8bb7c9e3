-- ===== src/Arh/Dict.antt =====
-- ardain/src/arh.rs: `PathDictionary`. Indices are `i32`s that are not negative, held as naturals;
-- a dictionary has fewer than 2^31 nodes, so the casts between `usize` and `i32` change nothing.
-- A panic (an index out of bounds, `expect`, `unwrap`) is `none`.
pub mod Free
use ard_tools.Base.{
  ℕ, zero, suc, ◌+◌, ◌-◌, ◌*◌, ◌%◌, ◌/◌, ◌≤◌, ◌<◌, ◌≡◌, refl, ◌∙◌, ap, Bool, true, false, not, ◌&&◌,
  ◌||◌, Option, none, some, List, [], ◌∷◌, ◌++◌, arith, ltb, leb, ◌==◌, if◌then◌else◌, length,
  get_elem?, set, replicate, bit_xor,
}
use ard_tools.Base.Partial.{◌>>=◌}
use ard_tools.Arh.Node.{
  DictNode, free, root, occupied, leaf, get_previous, get_next, is_child, attach_next,
  attach_previous,
}

abbrev pub block_size : ℕ
block_size = 0x80

-- `get_node`, and `node` with its `expect`.
abbrev pub get_node : List DictNode → ℕ → Option DictNode
get_node nodes index = get_elem? nodes index

-- `*self.node_mut(index) = node`.
abbrev pub write_node : List DictNode → ℕ → DictNode → Option (List DictNode)
write_node nodes index node = if ltb index (length nodes) then some (set nodes index node) else none

-- Whether the node at `index` is a child of `parent`: `get_node(..).is_some_and(|c| c.is_child(..))`.
abbrev pub child_at : List DictNode → ℕ → ℕ → Bool
child_at nodes index parent = elim (get_node nodes index) [
  | none ↦ false
  | some c ↦ is_child c parent
]

-- The loop over `child in 0..BLOCK_SIZE` in `free_node_recursive`, for the characters from `c` on.
unfoldable pub any_child : List DictNode → ℕ → ℕ → ℕ → ℕ → Bool
any_child nodes index parent zero c = false
any_child nodes index parent (suc n) c =
    child_at nodes (bit_xor index c) parent || any_child nodes index parent n (c + 1)

-- The loop of `free_node_recursive`, on fuel; `none` also where the fuel runs out.
unfoldable pub free_loop : ℕ → List DictNode → ℕ → Option (List DictNode)
free_loop zero nodes index = none
free_loop (suc fuel) nodes index = elim (get_node nodes index) [
  | none ↦ none
  | some node ↦
      let freed = set nodes index free in
      elim (get_previous node) [
        | none ↦ some freed
        | some previous ↦ elim (any_child freed index previous block_size 0) [
          | true ↦ some freed
          | false ↦ free_loop fuel freed previous
        ]
      ]
]

-- `free_node_recursive`. Each round but the last frees a node that was not free, so one round more
-- than there are nodes is enough.
unfoldable pub free_node_recursive : List DictNode → ℕ → Option (List DictNode)
free_node_recursive nodes index = free_loop (length nodes + 1) nodes index

-- `checked_next_multiple_of(BLOCK_SIZE)`, for a length that is in memory.
abbrev pub next_multiple : ℕ → ℕ
next_multiple n = (n + 127) / 128 * 128

-- The dictionary with its new block: padded to a multiple of the block size, and one block more.
unfoldable pub grow : List DictNode → List DictNode
grow nodes =
    (nodes ++ replicate (next_multiple (length nodes) - length nodes) free)
    ++ replicate block_size free

-- The inner loop of `allocate_new_block`: the links of the children of a child that has moved from
-- `from_idx` to `to_idx`, for the characters from `c` on.
unfoldable pub fix_links : List DictNode → ℕ → ℕ → ℕ → ℕ → ℕ → Option (List DictNode)
fix_links nodes next from_idx to_idx zero c = some nodes
fix_links nodes next from_idx to_idx (suc n) c =
    let i = bit_xor next c in
    (elim (get_node nodes i) [
      | none ↦ some nodes
      | some node ↦
          if is_child node from_idx
          then (attach_previous node to_idx >>= λ moved. some (set nodes i moved))
          else some nodes
    ])
    >>= λ fixed. fix_links fixed next from_idx to_idx n (c + 1)

-- One round of the outer loop: the child of `previous_node` at `next ^ c`, if there is one, moves to
-- `offset ^ c`.
unfoldable pub move_child : List DictNode → ℕ → ℕ → ℕ → ℕ → Option (List DictNode)
move_child nodes previous_node next offset c =
    let from_idx = bit_xor next c in
    let to_idx = bit_xor offset c in
    elim (get_node nodes from_idx) [
      | none ↦ some nodes
      | some node ↦
          if is_child node previous_node
          then (do
            copied ← write_node nodes to_idx node
            fixed ← elim (get_next node) [
              | none ↦ some copied
              | some below ↦ fix_links copied below from_idx to_idx block_size 0
            ]
            write_node fixed from_idx free)
          else some nodes
    ]

unfoldable pub move_children : List DictNode → ℕ → ℕ → ℕ → ℕ → ℕ → Option (List DictNode)
move_children nodes previous_node next offset zero c = some nodes
move_children nodes previous_node next offset (suc n) c =
    move_child nodes previous_node next offset c >>= λ moved.
    move_children moved previous_node next offset n (c + 1)

-- `allocate_new_block`: the dictionary and the offset of the block.
unfoldable pub allocate_new_block : List DictNode → ℕ → Option (List DictNode × ℕ)
allocate_new_block nodes previous_node = do
  let offset = next_multiple (length nodes)
  let grown = grow nodes
  previous ← get_node grown previous_node
  moved ← elim (get_next previous) [
    | none ↦ some grown
    | some next ↦ move_children grown previous_node next offset block_size 0
  ]
  parent ← get_node moved previous_node
  some (set moved previous_node (attach_next parent offset), offset)
