-- ===== src/Fs/Names.antt =====
-- ardain/src/arh.rs, ardain/src/fs.rs: `get_full_path` and `get_file_id`.
use ard_tools.Base.{
  ℕ, zero, suc, ◌+◌, ◌-◌, ◌≤◌, ◌<◌, ◌≡◌, refl, sym, ap, ◌∙◌, inl, inr, true, some, List, [], ◌∷◌,
  arith, length, get_elem?, bit_xor, ltb, ok, Option-cases, Bool-cases, >>=-eq-ok,
}
use ard_tools.Bits.Xor.{bit_xor_comm, bit_xor-cancel}
use ard_tools.Arh.Node.{DictNode, free, root, occupied, leaf, get_previous, get_next, is_child}
use ard_tools.Arh.Strings.{ReadLe, get_str_part_id, utf8_from}
use ard_tools.Arh.FullPath.{full_path_loop, leaf_path, get_full_path}
use ard_tools.Path.{Text}
use ard_tools.Fs.Lookup.{Stop, walk, walk_root, resolve, get_file_id, text_eq}
use ard_tools.Fs.Lookup.Steps.{walk_cases, walk_nil, walk_root_at, text_eq-eq}
use ard_tools.Fs.Grow.Walk.{is_ascii}
use ard_tools.Fs.Keep.{walk-node}

previous_of : (child : DictNode) (i : ℕ) → is_child child i ≡ true → get_previous child ≡ some i
previous_of free i h = cc
previous_of (root n) i h = cc
previous_of (occupied p n) i h = ground arith
previous_of (leaf p s) i h = ground arith

-- A round of the loop goes back the step to a child.
full_path_loop-step :
    (fuel : ℕ) (nodes : List DictNode) (i next c : ℕ) (node child : DictNode) (path : List ℕ)
    → get_elem? nodes i ≡ some node
    → get_next node ≡ some next
    → is_child child i ≡ true
    → c < 128
    → full_path_loop (suc fuel) nodes (bit_xor next c) child path
      ≡ full_path_loop fuel nodes i node (c ∷ path)
unfolding full_path_loop
full_path_loop-step fuel nodes i next c node child path here on linked small =
    let back : bit_xor (bit_xor next c) next ≡ c =
      bit_xor_comm (bit_xor next c) next ∙ bit_xor-cancel next c in
    let up = previous_of child i linked in
    let byte : ltb c 256 ≡ true = ground arith in rw (full_path_loop, up, here, on, back, byte) refl

at_stop :
    (nodes : List DictNode) (fuel i : ℕ) (node : DictNode) (path : Text) {stop : Stop}
    → stop ≡ record { index = i; node = node; rest = path }
    → full_path_loop (0 + fuel) nodes stop.index stop.node stop.rest
      ≡ full_path_loop fuel nodes i node path
at_stop nodes fuel i node path {stop} e =
    ap (λ f. full_path_loop f nodes stop.index stop.node stop.rest) {y = fuel} (omega arith)
    ∙ ap (λ (s : Stop). full_path_loop fuel nodes s.index s.node s.rest) e

-- The loop goes back every step of a walk.
full_path_loop-walk :
    (nodes : List DictNode) (i : ℕ) (node : DictNode) (path : Text) {stop : Stop}
    → get_elem? nodes i ≡ some node
    → is_ascii path ≡ true
    → walk nodes i node path ≡ ok stop
    → (k : ℕ) × (k ≤ length path)
      × ((fuel : ℕ)
          → full_path_loop (k + fuel) nodes stop.index stop.node stop.rest
            ≡ full_path_loop fuel nodes i node path)
full_path_loop-walk nodes i node [] {stop} here ascii e =
    let (at_end, shown) = walk_nil nodes i node e in
    (0, omega arith, λ fuel. at_stop nodes fuel i node [] at_end)
full_path_loop-walk nodes i node (c ∷ cs) {stop} here ascii e =
    elim (walk_cases nodes i node c cs e) [
      | inl (l, at_leaf) ↦ (0, omega arith, λ fuel. at_stop nodes fuel i node (c ∷ cs) at_leaf)
      | inr s ↦
          let (k, few, back) =
            full_path_loop-walk nodes (bit_xor s.next c) s.child cs s.there (ground arith) s.ends in
          (
            suc k,
            omega (arith, few),
            λ fuel.
                ap (λ f. full_path_loop f nodes stop.index stop.node stop.rest) {y = k + suc fuel}
                  (omega arith)
                ∙ back (suc fuel)
                ∙ full_path_loop-step fuel nodes i s.next c node s.child cs here s.on s.linked
                    (ground arith),
          )
    ]

utf8_from-is_ascii : (path : Text) → is_ascii path ≡ true → utf8_from [] path ≡ true
unfolding utf8_from
utf8_from-is_ascii [] ascii = refl
utf8_from-is_ascii (c ∷ cs) ascii = ground (arith, utf8_from-is_ascii cs (ground arith))

full_path_loop-root :
    (fuel : ℕ) (nodes : List DictNode) (n : ℕ) (path : List ℕ)
    → full_path_loop fuel nodes 0 (root n) path ≡ some path
unfolding full_path_loop
full_path_loop-root zero nodes n path = refl
full_path_loop-root (suc fuel) nodes n path = refl

module _ (reader : ReadLe) where
  leaf_path-resolve :
      (fuel : ℕ) (nodes : List DictNode) (strings path : List ℕ) (stop : Stop) (node : DictNode)
      {id leaf_id : ℕ}
      → stop.node ≡ node
      → is_ascii path ≡ true
      → full_path_loop fuel nodes stop.index stop.node stop.rest ≡ some path
      → resolve reader strings stop ≡ ok (id, leaf_id)
      → (leaf_path reader fuel nodes strings stop.index stop.node ≡ some path)
        × (stop.index ≡ leaf_id)
  unfolding resolve leaf_path
  leaf_path-resolve fuel nodes strings path stop (leaf p s) at_node ascii back e =
      elim (Option-cases (get_str_part_id reader strings s)) [
        | inl out ↦ absurd (ground (arith, out))
        | inr ((remaining, file_id), part) ↦ elim (Bool-cases (text_eq remaining stop.rest)) [
          | inr other ↦ absurd (ground (arith, part))
          | inl equal ↦
              let found : full_path_loop fuel nodes stop.index (leaf p s) remaining ≡ some path =
                ap (full_path_loop fuel nodes stop.index (leaf p s))
                  (text_eq-eq remaining stop.rest equal)
                ∙ ap (λ n. full_path_loop fuel nodes stop.index n stop.rest) (sym at_node)
                ∙ back in
              (
                ap (leaf_path reader fuel nodes strings stop.index) at_node
                    ∙ rw (leaf_path, part, found, utf8_from-is_ascii path ascii) refl,
                ground (arith, part),
              )
        ]
      ]
  leaf_path-resolve fuel nodes strings path stop free at_node ascii back e = absurd (ground arith)
  leaf_path-resolve fuel nodes strings path stop (root n) at_node ascii back e =
      absurd (ground arith)
  leaf_path-resolve fuel nodes strings path stop (occupied p n) at_node ascii back e =
      absurd (ground arith)

  -- Where a path of characters below 128 is found from a first node that is the root, `get_full_path` of the
  -- leaf is the path, with at least as many rounds as the path has characters.
  pub get_full_path-get_file_id :
      (fuel n : ℕ) (nodes : List DictNode) (strings : List ℕ) (path : Text) {id leaf_id : ℕ}
      → get_elem? nodes 0 ≡ some (root n)
      → is_ascii path ≡ true
      → length path ≤ fuel
      → get_file_id reader nodes strings path ≡ ok (id, leaf_id)
      → get_full_path reader fuel nodes strings leaf_id ≡ some path
  unfolding get_file_id get_full_path
  get_full_path-get_file_id fuel n nodes strings path {id} {leaf_id} here ascii enough e =
      let (stop, walked, resolved) = >>=-eq-ok (walk_root nodes path) _ e in
      let steps = sym (walk_root_at nodes (root n) path here) ∙ walked in
      let (k, few, back) = full_path_loop-walk nodes 0 (root n) path here ascii steps in
      let rounds : fuel ≡ k + (fuel - k) = omega (arith, few, enough) in
      let found =
        ap (λ f. full_path_loop f nodes stop.index stop.node stop.rest) rounds
        ∙ back (fuel - k)
        ∙ full_path_loop-root (fuel - k) nodes n path in
      let (shown, index) =
        leaf_path-resolve fuel nodes strings path stop stop.node refl ascii found resolved in
      let there = ap (get_elem? nodes) (sym index) ∙ walk-node nodes 0 (root n) path here steps in
      rw (get_full_path, there)
        (ap (λ j. leaf_path reader fuel nodes strings j stop.node) (sym index) ∙ shown)
