-- ===== src/Fs/Lookup.antt =====
-- ardain/src/fs.rs: `get_file_id`, the walk through the path dictionary.
pub mod Steps
use ard_tools.Base.{
  ℕ, zero, suc, ◌+◌, ◌≤◌, ◌<◌, ◌≡◌, refl, Bool, true, false, Option, none, some, List, [], ◌∷◌,
  arith, ◌==◌, if◌then◌else◌, get_elem?, bit_xor, Run, ok, err, panic, ◌>>=◌, unwrap,
}
use ard_tools.Arh.Node.{
  DictNode, free, root, occupied, leaf, get_previous, get_next, is_child, is_leaf,
}
use ard_tools.Arh.Dict.{get_node}
use ard_tools.Arh.Strings.{ReadLe, get_str_part_id}
use ard_tools.Path.{Text}

-- `==` of `str`.
abbrev pub text_eq : Text → Text → Bool
text_eq [] [] = true
text_eq [] (d ∷ ds) = false
text_eq (c ∷ cs) [] = false
text_eq (c ∷ cs) (d ∷ ds) = if c == d then text_eq cs ds else false

-- Where a walk stops: a node, its index, and what is left of the path.
pub record Stop : Type 0 where
  pub index : ℕ
  pub node : DictNode
  pub rest : Text

-- The loop of `get_file_id`, from the node at `i`. `err tt` is `return None`, `panic` the `unwrap`
-- of a node that has no `next`.
unfoldable pub walk : List DictNode → ℕ → DictNode → Text → Run (Unit {0}) Stop
walk nodes i node [] =
    if is_leaf node
    then ok (record { index = i; node = node; rest = [] })
    else if is_child node i
    then ok (record { index = i; node = node; rest = [] })
    else err tt
walk nodes i node (c ∷ cs) =
    let here : Stop = record { index = i; node = node; rest = c ∷ cs } in
    if is_leaf node then ok here else elim (get_next node) [
      | none ↦ panic
      | some next ↦
          let next_id = bit_xor next c in
          elim (get_node nodes next_id) [
            | none ↦ err tt
            | some child ↦
                let on = walk nodes next_id child cs in if is_child child i then on else err tt
          ]
    ]

-- The walk from the first node, which `node(0)` expects to be there.
unfoldable pub walk_root : List DictNode → Text → Run (Unit {0}) Stop
walk_root nodes path = elim (get_node nodes 0) [ none ↦ panic | some node ↦ walk nodes 0 node path ]

module _ (reader : ReadLe) where
  -- What `get_file_id` does where the walk stops: the file's id and the leaf's index.
  unfoldable pub resolve : List ℕ → Stop → Run (Unit {0}) (ℕ × ℕ)
  resolve strings stop = elim stop.node [
    | leaf previous string_offset ↦ elim (get_str_part_id reader strings string_offset) [
      | none ↦ panic
      | some (remaining, file_id) ↦
          if text_eq remaining stop.rest then ok (file_id, stop.index) else err tt
    ]
    | _ ↦ err tt
  ]

  -- `get_file_id`.
  unfoldable pub get_file_id : List DictNode → List ℕ → Text → Run (Unit {0}) (ℕ × ℕ)
  get_file_id nodes strings path = do stop ← walk_root nodes path; resolve strings stop
