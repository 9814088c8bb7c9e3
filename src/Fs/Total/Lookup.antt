-- ===== src/Fs/Total/Lookup.antt =====
-- ardain/src/fs.rs: `get_file_id` and `get_file_info` do not panic.
use ard_tools.Base.{
  ℕ, ◌≡◌, ◌≢◌, refl, sym, ap, ◌∙◌, inl, inr, true, false, some, List, [], ◌∷◌, arith, get_elem?,
  bit_xor, Bool-cases, Option-cases, Run-cases, panic, >>=-ne-panic,
}
use ard_tools.Arh.Node.{DictNode, free, root, occupied, leaf, get_next, is_child, is_leaf, is_free}
use ard_tools.Arh.Meta.{get_meta}
use ard_tools.Arh.Strings.{ReadLe}
use ard_tools.Path.{Text}
use ard_tools.Fs.Lookup.{text_eq, walk, walk_root, resolve, get_file_id}
use ard_tools.Fs.Lookup.Steps.{walk_out, walk_astray, walk_on, walk_leaf, walk_root_at}
use ard_tools.Fs.System.{ArhFileSystem, file_id, get_file_info}
use ard_tools.Fs.Chain.Back.{IsTaken}
use ard_tools.Fs.Chain.{Chain-walk}
use ard_tools.Fs.Chain.Graft.{Offsets}
use ard_tools.Fs.Place.{IsNamed}

-- A node that is neither free nor a leaf has a block.
pub inner_next :
    (n : DictNode) → is_free n ≡ false → is_leaf n ≡ false → (next : ℕ) × (get_next n ≡ some next)
inner_next free full inner = cc
inner_next (root m) full inner = (m, refl)
inner_next (occupied q m) full inner = (m, refl)
inner_next (leaf q s) full inner = cc

pub child_taken : (n : DictNode) (p : ℕ) → is_child n p ≡ true → is_free n ≡ false
child_taken free p linked = cc
child_taken (root m) p linked = refl
child_taken (occupied q m) p linked = refl
child_taken (leaf q s) p linked = refl

walk_nil-ne-panic : (nodes : List DictNode) (i : ℕ) (node : DictNode) → walk nodes i node [] ≢ panic
unfolding walk
walk_nil-ne-panic nodes i node e = elim (Bool-cases (is_leaf node)) [
  | inl l ↦ ground (arith, e)
  | inr l ↦ elim (Bool-cases (is_child node i)) [
    | inl own ↦ ground (arith, e)
    | inr other ↦ ground (arith, e)
  ]
]

walk-ne-panic :
    (nodes : List DictNode) (i : ℕ) (node : DictNode) (path : Text)
    → is_free node ≡ false
    → walk nodes i node path ≢ panic
walk-ne-panic nodes i node [] full e = walk_nil-ne-panic nodes i node e
walk-ne-panic nodes i node (c ∷ cs) full e = elim (Bool-cases (is_leaf node)) [
  | inl l ↦ cc (walk_leaf nodes i node (c ∷ cs) l)
  | inr l ↦
      let (next, on) = inner_next node full l in
      elim (Option-cases (get_elem? nodes (bit_xor next c))) [
        | inl out ↦ cc (walk_out nodes i node c cs l on out)
        | inr (child, there) ↦ elim (Bool-cases (is_child child i)) [
          | inr stray ↦ cc (walk_astray nodes i node c cs l on child there stray)
          | inl linked ↦
              walk-ne-panic nodes (bit_xor next c) child cs (child_taken child i linked)
                (sym (walk_on nodes i node c cs l on child there linked) ∙ e)
        ]
      ]
]

module _ (reader : ReadLe) where
  resolve-ne-panic :
      (strings : List ℕ) (i : ℕ) (node : DictNode) (rest : Text)
      → ((q s : ℕ) → node ≡ leaf q s → IsNamed reader strings s)
      → resolve reader strings (record { index = i; node = node; rest = rest }) ≢ panic
  unfolding resolve
  resolve-ne-panic strings i free rest named e = cc
  resolve-ne-panic strings i (root m) rest named e = cc
  resolve-ne-panic strings i (occupied q m) rest named e = cc
  resolve-ne-panic strings i (leaf q s) rest named e =
      let (text, id, part, bytes, lt) = named q s refl in
      elim (Bool-cases (text_eq text rest)) [
        | inl same ↦ ground (arith, e, part)
        | inr other ↦ ground (arith, e, part)
      ]

  pub get_file_id-ne-panic :
      (nodes : List DictNode) (strings : List ℕ) (path : Text)
      → IsTaken nodes 0
      → Offsets (IsNamed reader strings) nodes
      → get_file_id reader nodes strings path ≢ panic
  unfolding get_file_id
  get_file_id-ne-panic nodes strings path (first, here, full) named =
      >>=-ne-panic (walk_root nodes path) _
        (λ e. walk-ne-panic nodes 0 first path full (sym (walk_root_at nodes first path here) ∙ e))
        (λ stop stops.
          let (pre, splits, chain, there) =
            Chain-walk nodes 0 first path here (sym (walk_root_at nodes first path here) ∙ stops) in
          resolve-ne-panic strings stop.index stop.node stop.rest
            (λ q s same. named stop.index q s (there ∙ ap some same)))

  pub get_file_info-ne-panic :
      (fs : ArhFileSystem) (path : Text)
      → IsTaken fs.arh.path_dict 0
      → Offsets (IsNamed reader fs.arh.string_table) fs.arh.path_dict
      → get_file_info reader fs path ≢ panic
  unfolding get_file_info
  get_file_info-ne-panic fs path first named e = elim (Run-cases (file_id reader fs path)) [
    | inl ((id, leaf_id), found) ↦ elim (Option-cases (get_meta fs.arh.file_table id)) [
      | inl out ↦ ground (arith, e)
      | inr (m, there) ↦ ground (arith, e)
    ]
    | inr (inl (_, missed)) ↦ ground (arith, e)
    | inr (inr broken) ↦
        get_file_id-ne-panic fs.arh.path_dict fs.arh.string_table path first named broken
  ]
