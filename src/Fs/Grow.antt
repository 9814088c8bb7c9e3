-- ===== src/Fs/Grow.antt =====
-- ardain/src/arh.rs, ardain/src/fs.rs: a block allocation keeps every lookup.
pub mod Walk
use ard_tools.Base.{
  ℕ, ◌<◌, ◌≡◌, ◌≢◌, refl, sym, ap, ◌∙◌, inl, inr, Bool, true, false, Option, none, some, List, [],
  ◌∷◌, arith, ltb, ◌&&◌, length, get_elem?, bit_xor, Bool-cases, Option-cases, ℕ_discrete, ◌==◌,
  if◌then◌else◌, ok, err, panic, Run, Run-cases, ◌>>=◌,
}
use ard_tools.Bits.Xor.{bit_xor-cancel, bit_xor-block}
use ard_tools.Arh.Node.{DictNode, free, root, occupied, leaf, get_next, is_child, is_leaf}
use ard_tools.Arh.Dict.{child_at, grow, next_multiple, allocate_new_block}
use ard_tools.Arh.Trie.{IsTrie}
use ard_tools.Arh.Trie.Move.{moves, near, only_parent}
use ard_tools.Arh.Trie.Grow.{
  block_at, child_at-grow, old_outside, allocated_node, allocate_new_block_nodes, ready,
}
use ard_tools.Arh.Trie.Moved.{
  place_after, label, label-child, label-leaf, label-next, label-there, child_at-stray,
  IsTrie-allocated,
}
use ard_tools.Arh.Strings.{ReadLe, get_str_part_id}
use ard_tools.Path.{Text}
use ard_tools.Fs.Lookup.{Stop, text_eq, walk, walk_root, resolve, get_file_id}
use ard_tools.Fs.Lookup.Steps.{
  walk_out, walk_astray, walk_on, walk_stuck, walk_leaf, walk_root_at, walk_root_out,
}
use ard_tools.Fs.Keep.{walk-node}
use ard_tools.Fs.Grow.Walk.{
  is_ascii, index_after, inner_leaf, at_after, at_after_lem, label_after, stop_after,
  walk_root-after,
}

-- What `get_file_id` then returns: the same file, at the index of its leaf.
abbrev pub file_after : List DictNode → ℕ → ℕ → Run (Unit {0}) (ℕ × ℕ) → Run (Unit {0}) (ℕ × ℕ)
file_after nodes p next (ok (file_id, leaf_id)) = ok (file_id, index_after nodes p next leaf_id)
file_after nodes p next (err tt) = err tt
file_after nodes p next panic = panic

module _ (nodes : List DictNode) (p next : ℕ) (parent : DictNode) (trie : IsTrie nodes)
    (apart : child_at nodes p p ≡ false) (there : get_elem? nodes p ≡ some parent)
    (inner : get_next parent ≡ some next) where
  module _ (reader : ReadLe) where
    resolve-inner :
        (strings : List ℕ) (stop : Stop)
        → is_leaf stop.node ≡ false
        → resolve reader strings stop ≡ err tt
    unfolding resolve
    resolve-inner strings stop h = ground arith

    resolve-leaf :
        (strings rest : List ℕ) (i j q q' s : ℕ)
        → j ≡ index_after nodes p next i
        → resolve reader strings (record { index = j; node = leaf q' s; rest = rest })
          ≡ file_after nodes p next
              (resolve reader strings (record { index = i; node = leaf q s; rest = rest }))
    unfolding resolve
    resolve-leaf strings rest i j q q' s at_j =
        elim (Option-cases (get_str_part_id reader strings s)) [
          | inl out ↦ ground arith
          | inr ((remaining, file_id), part) ↦ elim (Bool-cases (text_eq remaining rest)) [
            | inl e ↦ ground (arith, part)
            | inr e ↦ ground (arith, part)
          ]
        ]

    resolve-inner_after :
        (strings rest : List ℕ) (i : ℕ) (node : DictNode)
        → get_elem? nodes i ≡ some node
        → is_leaf node ≡ false
        → resolve reader strings (record {
          index = at_after nodes p next parent trie apart there inner i;
          node = label_after nodes p next parent trie apart there inner i node;
          rest = rest;
        })
          ≡ file_after nodes p next
              (resolve reader strings (record { index = i; node = node; rest = rest }))
    resolve-inner_after strings rest i node here l =
        resolve-inner strings
          (record {
            index = at_after nodes p next parent trie apart there inner i;
            node = label_after nodes p next parent trie apart there inner i node;
            rest = rest;
          })
          (label-leaf nodes p next parent trie apart there inner i node here ∙ l)
        ∙ ap (file_after nodes p next)
            (sym (resolve-inner strings (record { index = i; node = node; rest = rest }) l))

    resolve-after :
        (strings rest : List ℕ) (i : ℕ) (node : DictNode)
        → get_elem? nodes i ≡ some node
        → resolve reader strings (record {
          index = at_after nodes p next parent trie apart there inner i;
          node = label_after nodes p next parent trie apart there inner i node;
          rest = rest;
        })
          ≡ file_after nodes p next
              (resolve reader strings (record { index = i; node = node; rest = rest }))
    resolve-after strings rest i free here = resolve-inner_after strings rest i free here refl
    resolve-after strings rest i (root n) here =
        resolve-inner_after strings rest i (root n) here refl
    resolve-after strings rest i (occupied q n) here =
        resolve-inner_after strings rest i (occupied q n) here refl
    resolve-after strings rest i (leaf q s) here = elim (ℕ_discrete p i) [
      | yes e ↦
          let same : parent ≡ leaf q s = cc in
          cc (inner_leaf (leaf q s) next (ap get_next (sym same) ∙ inner))
      | no e ↦
          let shown : label_after nodes p next parent trie apart there inner i (leaf q s)
              ≡ leaf (at_after nodes p next parent trie apart there inner q) s =
            ground arith in
          ap
            (λ n. resolve reader strings (record {
              index = at_after nodes p next parent trie apart there inner i;
              node = n;
              rest = rest;
            }))
            shown
          ∙ resolve-leaf strings rest i (at_after nodes p next parent trie apart there inner i) q
              (at_after nodes p next parent trie apart there inner q) s
              (at_after_lem nodes p next parent trie apart there inner i)
    ]

  module _ (r : List DictNode)
      (each : (j : ℕ)
        → get_elem? r j ≡ allocated_node nodes p next parent trie apart there inner j) where
    pub file_id-after :
        (reader : ReadLe) (strings : List ℕ) (path : Text)
        → child_at nodes 0 p ≡ false
        → is_ascii path ≡ true
        → get_file_id reader r strings path
          ≡ file_after nodes p next (get_file_id reader nodes strings path)
    unfolding get_file_id
    file_id-after reader strings path root_apart ascii =
        let lookup : List ℕ → Run (Unit {0}) Stop → Run (Unit {0}) (ℕ × ℕ) =
          λ xs w. w >>= resolve reader xs in
        ap (lookup strings)
          (walk_root-after nodes p next parent trie apart there inner r each path root_apart ascii)
        ∙ elim (Run-cases (walk_root nodes path)) [
          | inl (stop, e) ↦
              ap (λ w. lookup strings (stop_after nodes p next parent trie apart there inner w)) e
              ∙ resolve-after reader strings stop.rest stop.index stop.node (stop_there stop e)
              ∙ ap (λ w. file_after nodes p next (lookup strings w)) (sym e)
          | inr (inl (tt, e)) ↦
              ap (λ w. lookup strings (stop_after nodes p next parent trie apart there inner w)) e
              ∙ ap (λ w. file_after nodes p next (lookup strings w)) (sym e)
          | inr (inr e) ↦
              ap (λ w. lookup strings (stop_after nodes p next parent trie apart there inner w)) e
              ∙ ap (λ w. file_after nodes p next (lookup strings w)) (sym e)
        ]
      where
        stop_there :
            (stop : Stop)
            → walk_root nodes path ≡ ok stop
            → get_elem? nodes stop.index ≡ some stop.node
        stop_there stop walked = elim (Option-cases (get_elem? nodes 0)) [
          | inl out ↦ cc (walk_root_out nodes path out)
          | inr (node, here) ↦
              walk-node nodes 0 node path here (sym (walk_root_at nodes node path here) ∙ walked)
        ]

-- In a trie, for an inner node `p` that is no child of itself and that is not the parent of the first node:
-- `allocate_new_block` succeeds, the dictionary is a trie after, and `get_file_id` of a path of characters
-- below 128 ends as before, with the same id, at the index where the leaf then is.
pub file_id-allocate_new_block :
    (reader : ReadLe) (nodes : List DictNode) (strings : List ℕ) (p next : ℕ) (parent : DictNode)
    (path : Text)
    → IsTrie nodes
    → child_at nodes p p ≡ false
    → child_at nodes 0 p ≡ false
    → get_elem? nodes p ≡ some parent
    → get_next parent ≡ some next
    → is_ascii path ≡ true
    → (r : List DictNode) × (allocate_new_block nodes p ≡ some (r, next_multiple (length nodes)))
      × IsTrie r
      × (get_file_id reader r strings path
          ≡ file_after nodes p next (get_file_id reader nodes strings path))
file_id-allocate_new_block reader nodes strings p next parent path trie apart root_apart there inner
      ascii =
    let (r, run, each) = allocate_new_block_nodes nodes p next parent trie apart there inner in
    (
      r,
      run,
      IsTrie-allocated nodes p next parent trie apart there inner r each,
      file_id-after nodes p next parent trie apart there inner r each reader strings path root_apart
          ascii,
    )
