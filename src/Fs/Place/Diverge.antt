-- ===== src/Fs/Place/Diverge.antt =====
-- ardain/src/fs.rs: the place that `create_file` finds behind an inner node, whose children move.
use ard_tools.Base.{
  ℕ, ◌<◌, ◌≡◌, refl, sym, ap, ◌∙◌, inl, inr, true, false, none, some, List, [], ◌∷◌, ◌++◌, arith,
  get_elem?, bit_xor, Bool-cases, Option-cases, Run-cases, ℕ_discrete, ok,
}
use ard_tools.Bits.Xor.{bit_xor-cancel, bit_xor-block}
use ard_tools.Arh.Node.{
  DictNode, free, root, occupied, leaf, get_previous, get_next, is_child, is_leaf, attach_next,
}
use ard_tools.Arh.Dict.{child_at, grow}
use ard_tools.Arh.Trie.{IsTrie}
use ard_tools.Arh.Trie.Move.{in_block, relabel, moves, moved_node}
use ard_tools.Arh.Trie.Grow.{block_at, child_at-grow, old_outside, allocated_node}
use ard_tools.Arh.Trie.Moved.{label-next, label-there, attach_next-leaf, IsTrie-allocated}
use ard_tools.Arh.Strings.{ReadLe}
use ard_tools.Arh.Trie.Room.{IsRoomy, IsRoomy-allocated}
use ard_tools.Path.{Text}
use ard_tools.Fs.Grow.Walk.{is_ascii, at_after, at_after_self, at_after_lem, label_after}
use ard_tools.Fs.Chain.{Chain}
use ard_tools.Fs.Chain.Grown.{Chain-after}
use ard_tools.Fs.Chain.Graft.{Offsets}
use ard_tools.Fs.Chain.Child.{Offsets-grow}
use ard_tools.Fs.Held.{get_file_id-IsHeld, IsHeld-get_file_id}
use ard_tools.Fs.Lookup.{get_file_id}
use ard_tools.Fs.Grow.{file_after, file_id-after}
use ard_tools.Fs.Place.{IsTop, IsNamed, KeepsFiles, AddsNone, IsPlaced}

pub is_ascii-left : (xs ys : Text) → is_ascii (xs ++ ys) ≡ true → is_ascii xs ≡ true
is_ascii-left [] ys ascii = refl
is_ascii-left (x ∷ xs) ys ascii = ground (arith, is_ascii-left xs ys (ground arith))

orphan_child : (n : DictNode) (p : ℕ) → get_previous n ≡ none → is_child n p ≡ false
orphan_child free p e = refl
orphan_child (root m) p e = refl
orphan_child (occupied q m) p e = cc
orphan_child (leaf q s) p e = cc

pub top_apart : (nodes : List DictNode) (p : ℕ) → IsTop nodes → child_at nodes 0 p ≡ false
top_apart nodes p (node, here, orphan) = ground (arith, here, orphan_child node p orphan)

Chain-same :
    (nodes : List DictNode) (path : Text) {i i' j j' : ℕ}
    → i ≡ i'
    → j ≡ j'
    → Chain nodes i path j
    → Chain nodes i' path j'
Chain-same nodes path {i} {i'} {j} {j'} e f chain = rw (← e, ← f) chain

-- A leaf's offset is that of a leaf before.
relabel-leaf :
    (nodes : List DictNode) (p next offset m : ℕ) (n : DictNode) {q s : ℕ}
    → relabel nodes p next offset m n ≡ leaf q s
    → (q' : ℕ) × (n ≡ leaf q' s)
relabel-leaf nodes p next offset m free e = cc
relabel-leaf nodes p next offset m (root k) e = cc
relabel-leaf nodes p next offset m (occupied q k) e = cc
relabel-leaf nodes p next offset m (leaf q k) e = let same : k ≡ _ = cc in (q, ap (leaf q) same)

Offsets-moved :
    (P : ℕ → Type 0) (nodes : List DictNode) (p next offset j : ℕ) {q s : ℕ}
    → Offsets P nodes
    → moved_node nodes p next offset 128 j ≡ some (leaf q s)
    → P s
Offsets-moved P nodes p next offset j {q} {s} good here = elim (Bool-cases (in_block offset j)) [
  | inl inside ↦
      let origin = bit_xor next (bit_xor offset j) in
      elim (Bool-cases (moves nodes p next offset 128 origin)) [
        | inl moved ↦ good origin q s (ground (arith, here))
        | inr stays ↦ absurd (ground (arith, here))
      ]
  | inr outside ↦ elim (Bool-cases (moves nodes p next offset 128 j)) [
    | inl moved ↦ absurd (ground (arith, here))
    | inr stays ↦ elim (Option-cases (get_elem? nodes j)) [
      | inl out ↦ absurd (ground (arith, here))
      | inr (n, old) ↦
          let (q', same) =
            relabel-leaf nodes p next offset 128 n {q = q} {s = s} (ground (arith, here)) in
          good j q' s (old ∙ ap some same)
    ]
  ]
]

module _ (nodes : List DictNode) (p next : ℕ) (parent : DictNode) (trie : IsTrie nodes)
    (apart : child_at nodes p p ≡ false) (there : get_elem? nodes p ≡ some parent)
    (inner : get_next parent ≡ some next) (r : List DictNode)
    (each : (j : ℕ)
      → get_elem? r j ≡ allocated_node nodes p next parent trie apart there inner j) where
  Offsets-after : (P : ℕ → Type 0) → Offsets P nodes → Offsets P r
  Offsets-after P good j q s here = elim (ℕ_discrete p j) [
    | yes e ↦
        let same : attach_next (relabel (grow nodes) p next (block_at nodes) 128 parent)
              (block_at nodes)
            ≡ leaf q s =
          ground (arith, each j) in
        cc (
          attach_next-leaf (relabel (grow nodes) p next (block_at nodes) 128 parent)
              (block_at nodes),
          ap is_leaf same,
        )
    | no e ↦
        Offsets-moved P (grow nodes) p next (block_at nodes) j {q = q} {s = s}
          (Offsets-grow P nodes good) (ground (arith, each j))
  ]

  abbrev moved_to : ℕ → ℕ
  moved_to i = at_after nodes p next parent trie apart there inner i

  abbrev labeled : ℕ → DictNode → DictNode
  labeled i n = label_after nodes p next parent trie apart there inner i n

  labeled-there :
      (i : ℕ) (n : DictNode)
      → get_elem? nodes i ≡ some n
      → get_elem? r (moved_to i) ≡ some (labeled i n)
  labeled-there i n here = label-there nodes p next parent trie apart there inner r each i n here

  labeled-orphan :
      (i : ℕ) (n : DictNode) → get_previous n ≡ none → get_previous (labeled i n) ≡ none
  labeled-orphan i free orphan = elim (ℕ_discrete p i) [
    | yes e ↦ ground arith
    | no e ↦ ground arith
  ]
  labeled-orphan i (root m) orphan = elim (ℕ_discrete p i) [
    | yes e ↦ ground arith
    | no e ↦ ground arith
  ]
  labeled-orphan i (occupied q m) orphan = cc
  labeled-orphan i (leaf q s) orphan = cc

  labeled-leaf :
      (i q s : ℕ) → get_elem? nodes i ≡ some (leaf q s) → labeled i (leaf q s) ≡ leaf (moved_to q) s
  labeled-leaf i q s here = elim (ℕ_discrete p i) [
    | yes e ↦
        let same : parent ≡ leaf q s = cc (there, here, ap (get_elem? nodes) e) in
        cc (ap get_next same, inner)
    | no e ↦ ground arith
  ]

  module _ (top : IsTop nodes) where
    first_stays : moved_to 0 ≡ 0
    first_stays =
        at_after_lem nodes p next parent trie apart there inner 0
        ∙ ground (arith, top_apart nodes p top)

    IsTop-after : IsTop r
    IsTop-after =
        let (node, here, orphan) = top in
        (
          labeled 0 node,
          ap (get_elem? r) (sym first_stays) ∙ labeled-there 0 node here,
          labeled-orphan 0 node orphan,
        )

    Chain-top :
        (path : Text) (j : ℕ)
        → is_ascii path ≡ true
        → Chain nodes 0 path j
        → Chain r 0 path (moved_to j)
    Chain-top path j ascii chain =
        Chain-same r path first_stays refl
          (Chain-after nodes p next parent trie apart there inner r each 0 path j ascii chain)

    KeepsFiles-after :
        (reader : ReadLe) (strings : List ℕ) → KeepsFiles reader nodes strings r strings
    KeepsFiles-after reader strings other id leaf_id ascii held =
        let pre_ascii = is_ascii-left held.pre held.rest (ap is_ascii (sym held.splits) ∙ ascii) in
        (
          moved_to leaf_id,
          record {
            pre = held.pre;
            rest = held.rest;
            previous = moved_to held.previous;
            string_offset = held.string_offset;
            splits = held.splits;
            chain = Chain-top held.pre leaf_id pre_ascii held.chain;
            there =
                labeled-there leaf_id (leaf held.previous held.string_offset) held.there
                ∙ ap some (labeled-leaf leaf_id held.previous held.string_offset held.there);
            part = held.part;
          },
        )

    AddsNone-after : (reader : ReadLe) (strings : List ℕ) → AddsNone reader nodes strings r strings
    AddsNone-after reader strings other id leaf_id ascii held =
        let same =
          sym (
            file_id-after nodes p next parent trie apart there inner r each reader strings other
              (top_apart nodes p top) ascii)
          ∙ get_file_id-IsHeld reader r strings other id leaf_id held in
        elim (Run-cases (get_file_id reader nodes strings other)) [
          | inl ((id', old), found) ↦
              let ids : id' ≡ id = cc (ap (file_after nodes p next) found) in
              (
                old,
                IsHeld-get_file_id reader nodes strings other (found ∙ ap (λ n. ok (n, old)) ids),
              )
          | inr (inl (tt, missed)) ↦ cc (ap (file_after nodes p next) missed)
          | inr (inr broken) ↦ cc (ap (file_after nodes p next) broken)
        ]

    fresh_child :
        (c : ℕ)
        → c < 128
        → child_at nodes (bit_xor next c) p ≡ false
        → get_elem? r (bit_xor (block_at nodes) c) ≡ some free
    fresh_child c lt stray = ground (
      arith,
      each (bit_xor (block_at nodes) c),
      bit_xor-block (block_at nodes) c lt,
      old_outside nodes p there,
      bit_xor-cancel (block_at nodes) c,
      child_at-grow nodes (bit_xor next c) p,
    )

    -- The place that `diverge` finds there for the character `c`, which `p` has no child for.
    pub grown_place :
        (reader : ReadLe) (strings : List ℕ) (pre rest : Text) (c : ℕ) (node : DictNode)
        → IsRoomy nodes
        → Offsets (IsNamed reader strings) nodes
        → is_ascii pre ≡ true
        → c < 128
        → Chain nodes 0 pre p
        → child_at nodes (bit_xor next c) p ≡ false
        → IsPlaced reader nodes strings (pre ++ c ∷ rest) (record {
          dict = r;
          strings = strings;
          index = bit_xor (block_at nodes) c;
          node = node;
          parent = p;
          rest = rest;
        })
    grown_place reader strings pre rest c node blocks named ascii lt chain stray =
        let stays = at_after_self nodes p next parent trie apart there inner in
        record {
          trie = IsTrie-allocated nodes p next parent trie apart there inner r each;
          top = IsTop-after;
          vacant = fresh_child c lt stray;
          pre = pre;
          chr = c;
          splits = refl;
          chain = Chain-same r pre refl stays (Chain-top pre p ascii chain);
          parent = labeled p parent;
          there = ap (get_elem? r) (sym stays) ∙ labeled-there p parent there;
          next = block_at nodes;
          on = label-next nodes p next parent trie apart there inner p parent ∙ ground arith;
          at = refl;
          named = Offsets-after (IsNamed reader strings) named;
          roomy = IsRoomy-allocated nodes p next parent trie apart there inner r each blocks;
          table = omega arith;
          keep = KeepsFiles-after reader strings;
          adds = AddsNone-after reader strings;
        }
