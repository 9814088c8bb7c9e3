-- ===== src/Arh/FullPath.antt =====
-- ardain/src/arh.rs: `get_full_path`, the path of a leaf.
use ard_tools.Base.{
  ℕ, zero, suc, Option, none, some, List, [], ◌∷◌, get_elem?, bit_xor, ltb, if◌then◌else◌,
}
use ard_tools.Arh.Node.{DictNode, free, root, occupied, leaf, get_previous, get_next}
use ard_tools.Arh.Strings.{ReadLe, get_str_part_id, utf8_from}

-- The `while let` loop, on fuel, from the node at `i` and with the bytes of the path behind it; the code
-- keeps them in reverse. `none` is a panic or a run that is out of fuel.
unfoldable pub full_path_loop : ℕ → List DictNode → ℕ → DictNode → List ℕ → Option (List ℕ)
full_path_loop zero nodes i node path = elim (get_previous node) [
  | none ↦ some path
  | some prev ↦ none
]
full_path_loop (suc fuel) nodes i node path = elim (get_previous node) [
  | none ↦ some path
  | some prev ↦ elim (get_elem? nodes prev) [
    | none ↦ none
    | some parent ↦ elim (get_next parent) [
      | none ↦ none
      | some next ↦
          let c = bit_xor i next in
          let rest = full_path_loop fuel nodes prev parent (c ∷ path) in
          if ltb c 256 then rest else none
    ]
  ]
]

-- `String::from_utf8(path).unwrap()`.
abbrev pub from_utf8 : Option (List ℕ) → Option (List ℕ)
from_utf8 none = none
from_utf8 (some bytes) = if utf8_from [] bytes then some bytes else none

module _ (reader : ReadLe) where
  -- What `get_full_path` does with the node at `node_idx`.
  unfoldable pub leaf_path : ℕ → List DictNode → List ℕ → ℕ → DictNode → Option (List ℕ)
  leaf_path fuel nodes strings node_idx (leaf previous string_offset) =
      elim (get_str_part_id reader strings string_offset) [
        | none ↦ none
        | some (part, id) ↦
            from_utf8 (full_path_loop fuel nodes node_idx (leaf previous string_offset) part)
      ]
  leaf_path fuel nodes strings node_idx free = none
  leaf_path fuel nodes strings node_idx (root n) = none
  leaf_path fuel nodes strings node_idx (occupied p n) = none

  -- `get_full_path`.
  unfoldable pub get_full_path : ℕ → List DictNode → List ℕ → ℕ → Option (List ℕ)
  get_full_path fuel nodes strings node_idx = elim (get_elem? nodes node_idx) [
    | none ↦ none
    | some node ↦ leaf_path fuel nodes strings node_idx node
  ]
