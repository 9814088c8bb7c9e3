-- ===== src/Fs/Place/Part.antt =====
-- ardain/src/fs.rs: how `create_file` splits the path at a leaf.
use ard_tools.Base.{
  ℕ, ◌<◌, ◌≡◌, ◌≢◌, ◌⊎◌, refl, sym, ap, ◌∙◌, inl, inr, true, some, List, [], ◌∷◌, arith, get_elem?,
  set, bit_xor, ok, >>=-eq-ok, unwrap,
}
use ard_tools.Bits.Xor.{bit_xor-cancel, bit_xor-block}
use ard_tools.Arh.Node.{DictNode, free, root, occupied, leaf, get_next, attach_next}
use ard_tools.Arh.Dict.{grow, get_node, write_node, allocate_new_block}
use ard_tools.Arh.Trie.{IsTrie, NoChild}
use ard_tools.Arh.Trie.Move.{in_block}
use ard_tools.Arh.Trie.Grow.{block_at, block_free, IsTrie-grow, old_outside}
use ard_tools.Arh.Trie.Moved.{attach_next-next}
use ard_tools.Arh.Trie.Plant.{
  IsPlanted, IsPlanted-set, IsAttached, NoChild-grow, allocate_childless,
}
use ard_tools.Arh.Strings.{ReadLe, get_str_part_id}
use ard_tools.Arh.Strings
use ard_tools.Arh.Trie.Room.{HasBlock-grow}
use ard_tools.Path.{Text}
use ard_tools.Fs.Error.{Error}
use ard_tools.Fs.Grow.Walk.{is_ascii}
use ard_tools.Fs.Create.{Split, Place, attach_at, part_names}
use ard_tools.Fs.Chain.Back.{old_node, Chain-ungrown}
use ard_tools.Fs.Chain.Graft.{IsUpdate-grow, IsExtended}
use ard_tools.Fs.Chain.Child.{write_node-eq-some, unwrap-eq-ok, attach_at-IsAttached, graft}

attach_twice : (n : DictNode) (k : ℕ) → attach_next (attach_next n k) k ≡ attach_next n k
attach_twice free k = refl
attach_twice (root m) k = refl
attach_twice (occupied q m) k = refl
attach_twice (leaf q s) k = refl

-- What `part_names` leaves: the old leaf at the end of its character, and a free node for the new one.
pub record IsParted (P : ℕ → Type 0) (strings : List ℕ) (old_file : ℕ) (split : Split)
    (place : Place) : Type 0 where
  pub o : ℕ
  pub os : Text
  pub old_more : split.old_rest ≡ o ∷ os
  pub p : ℕ
  pub new_more : split.new_rest ≡ p ∷ place.rest
  pub parent_same : place.parent ≡ split.last
  pub offset : ℕ
  pub pushed : Strings.push strings os old_file ≡ some (place.strings, offset)
  pub old_index : ℕ
  pub old_there : get_elem? place.dict old_index ≡ some (leaf split.last offset)
  pub extended : P offset → IsExtended P split.dict place.dict split.last old_index (o ∷ [])
  pub parent : DictNode
  pub there : get_elem? place.dict split.last ≡ some parent
  pub next : ℕ
  pub on : get_next parent ≡ some next
  pub at : bit_xor next p ≡ place.index
  pub node_there : get_elem? place.dict place.index ≡ some place.node
  pub vacant : p < 128 → o ≢ p → get_elem? place.dict place.index ≡ some free

-- The same block is attached to the node twice, in `allocate_new_block` and behind it.
IsAttached-twice :
    (nodes r : List DictNode) (p : ℕ) (node : DictNode) (next : ℕ) {s : List DictNode}
    → IsAttached nodes r p node next
    → attach_at {E = Error} r p next ≡ ok s
    → IsAttached nodes s p node next
IsAttached-twice nodes r p node next {s} first e =
    let there : get_elem? r p ≡ some (attach_next node next) = first.each p ∙ ground arith in
    let second = attach_at-IsAttached r p next (attach_next node next) there e in
    record {
      here = first.here;
      each = λ j. second.each j ∙ ground (arith, first.each j, attach_twice node next);
    }

module _ (P : ℕ → Type 0) (dict : List DictNode) (strings : List ℕ) (last old_file o p : ℕ)
    (os ps : Text) (node : DictNode) (trie : IsTrie dict) (childless : NoChild dict last)
    (here : get_elem? dict last ≡ some node) (small : o < 128) where
  abbrev both_rests : Split
  both_rests = record { dict = dict; last = last; old_rest = o ∷ os; new_rest = p ∷ ps }

  module _ (attached : List DictNode)
      (block : IsAttached (grow dict) attached last node (block_at dict)) where
    fresh : (c : ℕ) → c < 128 → get_elem? attached (bit_xor (block_at dict) c) ≡ some free
    fresh c lt =
        block.each (bit_xor (block_at dict) c)
        ∙ ground (
          arith,
          block_free dict (bit_xor (block_at dict) c),
          bit_xor-block (block_at dict) c lt,
          old_outside dict last here,
        )

    module _ (offset : ℕ) (table : List ℕ)
        (pushed : Strings.push strings os old_file ≡ some (table, offset)) where
      abbrev old_at : ℕ
      old_at = bit_xor (block_at dict) o

      abbrev parted : List DictNode
      parted = set attached old_at (leaf last offset)

      planted : IsPlanted attached parted old_at (leaf last offset)
      planted = IsPlanted-set attached old_at (leaf last offset) (fresh o small)

      beside : p < 128 → o ≢ p → old_at ≢ bit_xor (block_at dict) p
      beside lt other same = other (
          sym (bit_xor-cancel (block_at dict) o)
          ∙ ap (bit_xor (block_at dict)) same
          ∙ bit_xor-cancel (block_at dict) p)

      parent_there : get_elem? parted last ≡ some (attach_next node (block_at dict))
      parent_there =
          let outside : old_at ≢ last = λ same. ground (
            arith,
            bit_xor-block (block_at dict) o small,
            old_outside dict last here,
            ap (in_block (block_at dict)) same,
          ) in
          planted.each last ∙ ground (arith, outside, block.each last)

      parted_lem :
          (free_node : DictNode)
          → get_elem? parted (bit_xor (block_at dict) p) ≡ some free_node
          → IsParted P strings old_file both_rests (record {
            dict = parted;
            strings = table;
            index = bit_xor (block_at dict) p;
            node = free_node;
            parent = last;
            rest = ps;
          })
      parted_lem free_node got = record {
        o = o;
        os = os;
        old_more = refl;
        p = p;
        new_more = refl;
        parent_same = refl;
        offset = offset;
        pushed = pushed;
        old_index = old_at;
        old_there = planted.each old_at ∙ ground arith;
        extended = λ good.
            graft P dict (grow dict) attached parted last (block_at dict) o old_at node
              (leaf last offset) (IsUpdate-grow dict last childless) (IsTrie-grow dict trie)
              (NoChild-grow dict last node trie childless here) block planted refl refl small
              (λ j n full h. old_node dict j n h full) (HasBlock-grow dict) (Chain-ungrown dict)
              (λ q s same. let offsets : offset ≡ s = cc in rw (← offsets) good);
        parent = attach_next node (block_at dict);
        there = parent_there;
        next = block_at dict;
        on = attach_next-next node (block_at dict);
        at = refl;
        node_there = got;
        vacant = λ lt other.
            planted.each (bit_xor (block_at dict) p) ∙ ground (arith, beside lt other, fresh p lt);
      }

  part_names-both :
      {place : Place}
      → part_names strings old_file both_rests ≡ ok place
      → IsParted P strings old_file both_rests place
  unfolding part_names
  part_names-both {place} e =
      let (allocated, run, first) = allocate_childless dict last node trie childless here in
      let (pair, allocates, e1) = >>=-eq-ok (unwrap (allocate_new_block dict last)) _ e in
      let shown : (allocated, block_at dict) ≡ pair = cc (unwrap-eq-ok _ allocates, run) in
      let (attached, att, e2) = >>=-eq-ok (attach_at pair.0 last pair.1) _ e1 in
      let block =
        IsAttached-twice (grow dict) allocated last node (block_at dict) first
          (ap (λ (q : List DictNode × ℕ). attach_at q.0 last q.1) shown ∙ att) in
      let (pushed, pushes, e3) = >>=-eq-ok (unwrap (Strings.push strings os old_file)) _ e2 in
      let (written, wrote, e4) =
        >>=-eq-ok (unwrap (write_node attached (bit_xor pair.1 o) (leaf last pushed.1))) _ e3 in
      let (free_node, got, e5) = >>=-eq-ok (unwrap (get_node written (bit_xor pair.1 p))) _ e4 in
      let done =
        write_node-eq-some attached (bit_xor pair.1 o) (leaf last pushed.1)
          (unwrap-eq-ok _ wrote) in
      let made : Place = record {
        dict = parted attached block pushed.1 pushed.0 (unwrap-eq-ok _ pushes);
        strings = pushed.0;
        index = bit_xor (block_at dict) p;
        node = free_node;
        parent = last;
        rest = ps;
      } in
      let block_same : block_at dict ≡ pair.1 = ap (λ (q : List DictNode × ℕ). q.1) shown in
      let same : made ≡ place = cc in
      let last_there : get_elem? (set attached (bit_xor (block_at dict) o) (leaf last pushed.1))
            (bit_xor (block_at dict) p)
          ≡ some free_node =
        cc (unwrap-eq-ok _ got, done, block_same) in
      rw (← same)
        (parted_lem attached block pushed.1 pushed.0 (unwrap-eq-ok _ pushes) free_node last_there)

rest_cases : (xs : Text) → (xs ≡ []) ⊎ ((c : ℕ) × (cs : Text) × (xs ≡ c ∷ cs))
rest_cases [] = inl refl
rest_cases (c ∷ cs) = inr (c, cs, refl)

-- It fails where one name extends the other.
part_names-old :
    (strings : List ℕ) (old_file : ℕ) (split : Split) {place : Place}
    → split.old_rest ≡ []
    → part_names strings old_file split ≡ ok place
    → ⊥
unfolding part_names
part_names-old strings old_file split none_left e = ground (arith, e)

part_names-new :
    (strings : List ℕ) (old_file : ℕ) (split : Split) {place : Place}
    → split.new_rest ≡ []
    → part_names strings old_file split ≡ ok place
    → ⊥
unfolding part_names
part_names-new strings old_file split none_left e = elim (rest_cases split.old_rest) [
  | inl f ↦ ground (arith, e)
  | inr (o, os, f) ↦ ground (arith, e)
]

-- Where `part_names` succeeds, for a node without children.
pub part_names-IsParted :
    (P : ℕ → Type 0) (strings : List ℕ) (old_file : ℕ) (split : Split) (node : DictNode)
    {place : Place}
    → IsTrie split.dict
    → NoChild split.dict split.last
    → get_elem? split.dict split.last ≡ some node
    → is_ascii split.old_rest ≡ true
    → part_names strings old_file split ≡ ok place
    → IsParted P strings old_file split place
part_names-IsParted P strings old_file split node {place} trie childless here ascii e =
    elim (rest_cases split.old_rest) [
      | inl none_left ↦ absurd (part_names-old strings old_file split none_left e)
      | inr (o, os, old_more) ↦ elim (rest_cases split.new_rest) [
        | inl none_left ↦ absurd (part_names-new strings old_file split none_left e)
        | inr (p, ps, new_more) ↦
            let same : both_rests P split.dict strings split.last old_file o p os ps node trie
                  childless here (small o os old_more)
                ≡ split =
              ap
                (λ t. record {
                  dict = split.dict;
                  last = split.last;
                  old_rest = t;
                  new_rest = p ∷ ps;
                })
                (sym old_more)
              ∙ ap
                  (λ t. record {
                    dict = split.dict;
                    last = split.last;
                    old_rest = split.old_rest;
                    new_rest = t;
                  })
                  (sym new_more) in
            let run = ap (part_names strings old_file) same ∙ e in
            rw (← same) (
              part_names-both P split.dict strings split.last old_file o p os ps node trie childless
                here (small o os old_more) run)
      ]
    ]
  where
    small : (o : ℕ) (os : Text) → split.old_rest ≡ o ∷ os → o < 128
    small o os more = let shown = ap is_ascii (sym more) ∙ ascii in ground arith
