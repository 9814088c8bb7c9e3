-- ===== src/Fs/Keep.antt =====
-- ardain/src/fs.rs: a deletion keeps the lookups of all other files.
use ard_tools.Base.{
  ℕ, ◌≡◌, ◌≢◌, inl, inr, refl, sym, ap, ◌∙◌, true, some, List, [], ◌∷◌, arith, get_elem?,
  get_elem?-set_ne, set, bit_xor, ok, Option-cases, ◌>>=◌, >>=-eq-ok,
}
use ard_tools.Arh.Node.{DictNode, free, root, occupied, leaf, get_next}
use ard_tools.Arh.Dict.{child_at, free_node_recursive}
use ard_tools.Arh.Trie.{IsTrie, NoChild}
use ard_tools.Arh.Trie.Free.{free_node_recursive-keeps, leaf-NoChild}
use ard_tools.Arh.Strings.{ReadLe}
use ard_tools.Path.{Text}
use ard_tools.Fs.Lookup.{Stop, walk, walk_root, resolve, get_file_id}
use ard_tools.Fs.Lookup.Steps.{
  walk_on, walk_cases, walk_nil, walk_leaf, walk_root_at, walk_root_out,
}
use ard_tools.Fs.System.{ArhFileSystem, file_id, delete_file}
use ard_tools.Fs.Delete.{delete_file-eq-ok}

-- A walk that does not stop at a node without children does not pass it either.
walk-set :
    (nodes : List DictNode) (i k : ℕ) (node : DictNode) (path : Text) {stop : Stop}
    → NoChild nodes i
    → walk nodes k node path ≡ ok stop
    → stop.index ≢ i
    → (walk (set nodes i free) k node path ≡ ok stop) × (k ≢ i)
unfolding walk
walk-set nodes i k node [] {stop} childless e other =
    let (at_end, shown) = walk_nil nodes k node e in (e, λ same. other (ground arith))
walk-set nodes i k node (c ∷ cs) {stop} childless e other = elim (walk_cases nodes k node c cs e) [
  | inl (l, at_leaf) ↦
      (walk_leaf (set nodes i free) k node (c ∷ cs) l ∙ cc, λ same. other (ground arith))
  | inr s ↦
      let (rest, apart) = walk-set nodes i (bit_xor s.next c) s.child cs childless s.ends other in
      let kept =
        get_elem?-set_ne nodes {i = i} {j = bit_xor s.next c} free (λ f. apart (sym f)) ∙ s.there in
      let child : child_at nodes (bit_xor s.next c) k ≡ true = ground (arith, s.there, s.linked) in
      (
        walk_on (set nodes i free) k node c cs s.inner s.on s.child kept s.linked ∙ rest,
        λ same. ground (arith, childless (bit_xor s.next c)),
      )
]

-- The node of a stop is the one at its index.
pub walk-node :
    (nodes : List DictNode) (k : ℕ) (node : DictNode) (path : Text) {stop : Stop}
    → get_elem? nodes k ≡ some node
    → walk nodes k node path ≡ ok stop
    → get_elem? nodes stop.index ≡ some stop.node
walk-node nodes k node [] {stop} here e =
    let (at_end, shown) = walk_nil nodes k node e in ground arith
walk-node nodes k node (c ∷ cs) {stop} here e = elim (walk_cases nodes k node c cs e) [
  | inl (l, at_leaf) ↦ ground arith
  | inr s ↦ walk-node nodes (bit_xor s.next c) s.child cs s.there s.ends
]

-- What is kept of a lookup that stopped at a leaf.
abbrev Found : Text → Stop → List DictNode → Type 0
Found path stop nodes =
    (walk_root nodes path ≡ ok stop) × (get_elem? nodes stop.index ≡ some stop.node)

Found-set :
    (nodes : List DictNode) (i : ℕ) (path : Text) (stop : Stop)
    → NoChild nodes i
    → stop.index ≢ i
    → Found path stop nodes
    → Found path stop (set nodes i free)
Found-set nodes i path stop childless other (walked, there) =
    elim (Option-cases (get_elem? nodes 0)) [
      | inl out ↦ cc (walk_root_out nodes path out)
      | inr (node, here) ↦
          let (kept, apart) =
            walk-set nodes i 0 node path childless
              (sym (walk_root_at nodes node path here) ∙ walked) other in
          (
            walk_root_at (set nodes i free) node path
                  (get_elem?-set_ne nodes {i = i} {j = 0} free (λ f. apart (sym f)) ∙ here)
                ∙ kept,
            get_elem?-set_ne nodes {i = i} {j = stop.index} free (λ f. other (sym f)) ∙ there,
          )
    ]

-- A stop at a leaf is at no inner node.
inner_apart :
    (nodes : List DictNode) (i : ℕ) (node : DictNode) (next : ℕ) (stop : Stop) (p s : ℕ)
    → get_elem? nodes i ≡ some node
    → get_next node ≡ some next
    → get_elem? nodes stop.index ≡ some stop.node
    → stop.node ≡ leaf p s
    → stop.index ≢ i
inner_apart nodes i node next stop p s here inner there at_leaf hit =
    let same : leaf p s ≡ node = cc in
    let wrong : get_next (leaf p s) ≡ some next = ap get_next same ∙ inner in cc

module _ (reader : ReadLe) where
  -- A file that was found: the walk, and the leaf that it stopped at.
  record IsFoundAt (nodes : List DictNode) (strings : List ℕ) (path : Text) (id leaf_id : ℕ)
      : Type 0 where
    stop : Stop
    previous : ℕ
    string_offset : ℕ
    found : Found path stop nodes
    at_leaf : stop.node ≡ leaf previous string_offset
    index : stop.index ≡ leaf_id
    resolved : resolve reader strings stop ≡ ok (id, leaf_id)

  found_leaf :
      (nodes : List DictNode) (strings : List ℕ) (path : Text) (id leaf_id : ℕ)
      (at : IsFoundAt nodes strings path id leaf_id)
      → get_elem? nodes leaf_id ≡ some (leaf at.previous at.string_offset)
  found_leaf nodes strings path id leaf_id at = cc (at.found.1, at.at_leaf, at.index)

  resolve-eq-ok :
      (strings : List ℕ) (stop : Stop) (node : DictNode) {id leaf_id : ℕ}
      → stop.node ≡ node
      → resolve reader strings stop ≡ ok (id, leaf_id)
      → (p : ℕ) × (s : ℕ) × (stop.node ≡ leaf p s) × (stop.index ≡ leaf_id)
  unfolding resolve
  resolve-eq-ok strings stop free h e = absurd (ground arith)
  resolve-eq-ok strings stop (root n) h e = absurd (ground arith)
  resolve-eq-ok strings stop (occupied p n) h e = absurd (ground arith)
  resolve-eq-ok strings stop (leaf p s) h e = (p, s, h, ground arith)

  get_file_id-IsFoundAt :
      (nodes : List DictNode) (strings : List ℕ) (path : Text) {id leaf_id : ℕ}
      → get_file_id reader nodes strings path ≡ ok (id, leaf_id)
      → IsFoundAt nodes strings path id leaf_id
  unfolding get_file_id
  get_file_id-IsFoundAt nodes strings path e =
      let (stop, walked, resolved) = >>=-eq-ok (walk_root nodes path) _ e in
      let (p, s, at_leaf, index) = resolve-eq-ok strings stop stop.node refl resolved in
      record {
        stop = stop;
        previous = p;
        string_offset = s;
        found = (walked, there stop walked);
        at_leaf = at_leaf;
        index = index;
        resolved = resolved;
      }
    where
      there :
          (stop : Stop)
          → walk_root nodes path ≡ ok stop
          → get_elem? nodes stop.index ≡ some stop.node
      there stop walked = elim (Option-cases (get_elem? nodes 0)) [
        | inl out ↦ cc (walk_root_out nodes path out)
        | inr (node, here) ↦
            walk-node nodes 0 node path here (sym (walk_root_at nodes node path here) ∙ walked)
      ]

  get_file_id-free_ne :
      (nodes : List DictNode) (strings : List ℕ) (other : Text) (i p s id leaf_id : ℕ)
      {r : List DictNode}
      → IsTrie nodes
      → get_elem? nodes i ≡ some (leaf p s)
      → IsFoundAt nodes strings other id leaf_id
      → leaf_id ≢ i
      → free_node_recursive nodes i ≡ some r
      → IsTrie r × (get_file_id reader r strings other ≡ ok (id, leaf_id))
  unfolding get_file_id
  get_file_id-free_ne nodes strings other i p s id leaf_id {r} trie here at apart e =
      let childless = leaf-NoChild nodes i p s trie here in
      let (trie', kept) =
        free_node_recursive-keeps (Found other at.stop)
          (λ ns k node next there inner alone f.
            Found-set ns k other at.stop alone
              (inner_apart ns k node next at.stop at.previous at.string_offset there inner f.1
                at.at_leaf)
              f)
          nodes i trie childless
          (Found-set nodes i other at.stop childless (λ hit. apart (sym at.index ∙ hit)) (at.found))
          e in
      (trie', rw (kept.0, ◌>>=◌) at.resolved)

  -- In a trie, where `delete_file` of a path succeeds: the dictionary is a trie after, and every path
  -- that was found at another leaf than the deleted one's is found with the same id at the same leaf.
  pub file_id-delete_file_ne :
      (fs : ArhFileSystem) (path other : Text) {gone : ArhFileSystem} {id leaf_id id' leaf_id' : ℕ}
      → IsTrie fs.arh.path_dict
      → file_id reader fs path ≡ ok (id, leaf_id)
      → file_id reader fs other ≡ ok (id', leaf_id')
      → leaf_id' ≢ leaf_id
      → delete_file reader fs path ≡ ok gone
      → IsTrie gone.arh.path_dict × (file_id reader gone other ≡ ok (id', leaf_id'))
  file_id-delete_file_ne fs path other {gone} {id} {leaf_id} {id'} {leaf_id'} trie found found'
        apart e =
      let (id1, leaf1, again, freed, strings) = delete_file-eq-ok reader fs path e in
      let same : leaf1 ≡ leaf_id = cc in
      let at = get_file_id-IsFoundAt fs.arh.path_dict fs.arh.string_table path found in
      rw strings (
        get_file_id-free_ne fs.arh.path_dict fs.arh.string_table other leaf_id at.previous
          at.string_offset id' leaf_id' trie
          (found_leaf fs.arh.path_dict fs.arh.string_table path id leaf_id at)
          (get_file_id-IsFoundAt fs.arh.path_dict fs.arh.string_table other found') apart
          (rw same at freed))
