-- ===== src/Fs/Held.antt =====
-- ardain/src/fs.rs: a file that the path dictionary and the string table hold, as `get_file_id` finds it.
use ard_tools.Base.{
  ℕ, ◌≡◌, refl, sym, ap, ◌∙◌, inl, inr, true, some, List, [], ◌∷◌, ◌++◌, arith, get_elem?,
  Bool-cases, Option-cases, ok, ◌>>=◌, >>=-eq-ok,
}
use ard_tools.Arh.Node.{DictNode, free, root, occupied, leaf}
use ard_tools.Arh.Strings.{ReadLe, get_str_part_id}
use ard_tools.Path.{Text}
use ard_tools.Fs.Lookup.{Stop, text_eq, walk, walk_root, resolve, get_file_id}
use ard_tools.Fs.Lookup.Steps.{walk_leaf, walk_root_at, walk_root_out, text_eq-eq}
use ard_tools.Fs.Chain.{Chain, walk-Chain, Chain-walk}

pub text_eq_self : (xs : Text) → text_eq xs xs ≡ true
text_eq_self [] = refl
text_eq_self (x ∷ xs) = ground (arith, text_eq_self xs)

-- The node that a way starts at.
pub Chain-start :
    (nodes : List DictNode) (i : ℕ) (path : Text) (j : ℕ) (last : DictNode)
    → Chain nodes i path j
    → get_elem? nodes j ≡ some last
    → (node : DictNode) × (get_elem? nodes i ≡ some node)
Chain-start nodes i [] j last same there = (last, ap (get_elem? nodes) same ∙ there)
Chain-start nodes i (c ∷ cs) j last (k, step, rest) there = (step.node, step.here)

module _ (reader : ReadLe) where
  -- The characters of `pre` lead to a leaf, whose entry of the string table is the rest of the path and the id.
  pub record IsHeld (nodes : List DictNode) (strings : List ℕ) (path : Text) (id leaf_id : ℕ)
      : Type 0 where
    pub pre : Text
    pub rest : Text
    pub previous : ℕ
    pub string_offset : ℕ
    pub splits : path ≡ pre ++ rest
    pub chain : Chain nodes 0 pre leaf_id
    pub there : get_elem? nodes leaf_id ≡ some (leaf previous string_offset)
    pub part : get_str_part_id reader strings string_offset ≡ some (rest, id)

  resolve_part :
      (strings rest : List ℕ) (i p s : ℕ) {id : ℕ}
      → get_str_part_id reader strings s ≡ some (rest, id)
      → resolve reader strings (record { index = i; node = leaf p s; rest = rest }) ≡ ok (id, i)
  unfolding resolve
  resolve_part strings rest i p s part = ground (arith, part, text_eq_self rest)

  resolve-eq-ok :
      (strings : List ℕ) (stop : Stop) (node : DictNode) {id leaf_id : ℕ}
      → stop.node ≡ node
      → resolve reader strings stop ≡ ok (id, leaf_id)
      → (p : ℕ) × (s : ℕ) × (stop.node ≡ leaf p s)
        × (stop.index ≡ leaf_id)
        × (get_str_part_id reader strings s ≡ some (stop.rest, id))
  unfolding resolve
  resolve-eq-ok strings stop free h e = absurd (ground arith)
  resolve-eq-ok strings stop (root n) h e = absurd (ground arith)
  resolve-eq-ok strings stop (occupied p n) h e = absurd (ground arith)
  resolve-eq-ok strings stop (leaf p s) h e =
      elim (Option-cases (get_str_part_id reader strings s)) [
        | inl out ↦ absurd (ground (arith, out))
        | inr ((remaining, file_id), part) ↦ elim (Bool-cases (text_eq remaining stop.rest)) [
          | inr other ↦ absurd (ground (arith, part))
          | inl equal ↦
              let same = text_eq-eq remaining stop.rest equal in
              let named : file_id ≡ _ = ground (arith, part) in
              (
                p,
                s,
                h,
                ground (arith, part),
                part ∙ ap (λ t. some (t, file_id)) same ∙ ap (λ n. some (stop.rest, n)) named,
              )
        ]
      ]

  pub get_file_id-IsHeld :
      (nodes : List DictNode) (strings : List ℕ) (path : Text) (id leaf_id : ℕ)
      → IsHeld nodes strings path id leaf_id
      → get_file_id reader nodes strings path ≡ ok (id, leaf_id)
  unfolding get_file_id
  get_file_id-IsHeld nodes strings path id leaf_id held =
      let at_leaf = leaf held.previous held.string_offset in
      let (node, here) = Chain-start nodes 0 held.pre leaf_id at_leaf held.chain held.there in
      let walked : walk_root nodes path
          ≡ ok (record { index = leaf_id; node = at_leaf; rest = held.rest }) =
        walk_root_at nodes node path here
        ∙ ap (walk nodes 0 node) held.splits
        ∙ walk-Chain nodes 0 node held.pre held.rest leaf_id at_leaf here held.chain held.there
        ∙ walk_leaf nodes leaf_id at_leaf held.rest refl in
      rw (walked, ◌>>=◌)
        (resolve_part strings held.rest leaf_id held.previous held.string_offset held.part)

  pub IsHeld-get_file_id :
      (nodes : List DictNode) (strings : List ℕ) (path : Text) {id leaf_id : ℕ}
      → get_file_id reader nodes strings path ≡ ok (id, leaf_id)
      → IsHeld nodes strings path id leaf_id
  unfolding get_file_id
  IsHeld-get_file_id nodes strings path {id} {leaf_id} e =
      let (stop, walked, resolved) = >>=-eq-ok (walk_root nodes path) _ e in
      let (p, s, at_leaf, index, part) = resolve-eq-ok strings stop stop.node refl resolved in
      elim (Option-cases (get_elem? nodes 0)) [
        | inl out ↦ cc (walk_root_out nodes path out)
        | inr (node, here) ↦
            let (pre, splits, chain, there) =
              Chain-walk nodes 0 node path here
                (sym (walk_root_at nodes node path here) ∙ walked) in
            record {
              pre = pre;
              rest = stop.rest;
              previous = p;
              string_offset = s;
              splits = splits;
              chain = rw (← index) chain;
              there = ap (get_elem? nodes) (sym index) ∙ there ∙ ap some at_leaf;
              part = part;
            }
      ]
