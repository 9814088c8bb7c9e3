-- ===== src/Fs/Chain/Child.antt =====
-- ardain/src/fs.rs: a node without children gets a block, and a child in it.
use ard_tools.Base.{
  ℕ, ◌<◌, ◌≡◌, ◌≢◌, refl, sym, ap, ◌∙◌, inl, inr, true, false, Option, none, some, List, [], ◌∷◌,
  ◌++◌, arith, ltb, length, get_elem?, set, bit_xor, Bool-cases, ℕ_discrete, ok, >>=-eq-ok, unwrap,
}
use ard_tools.Bits.Xor.{bit_xor-cancel}
use ard_tools.Arh.Node.{
  DictNode, free, root, occupied, leaf, get_next, get_previous, is_child, is_leaf, is_free,
  attach_next,
}
use ard_tools.Arh.Dict.{grow, get_node, write_node}
use ard_tools.Arh.Trie.{IsTrie, NoChild}
use ard_tools.Arh.Trie.Links.{get_elem?-set}
use ard_tools.Arh.Trie.Grow.{get_elem?-grow}
use ard_tools.Arh.Trie.Moved.{attach_next-next, attach_next-leaf}
use ard_tools.Arh.Trie.Plant.{
  IsPlanted, IsTrie-planted, NoChild-planted, IsAttached, IsTrie-attached,
}
use ard_tools.Arh.Trie.Room.{
  IsThere, HasBlock, IsRoomyBut, HasBlock-keeps, IsThere-attached, IsThere-planted,
}
use ard_tools.Path.{Text}
use ard_tools.Fs.Error.{Error}
use ard_tools.Fs.Create.{attach_at}
use ard_tools.Fs.Chain.Back.{inner_taken, IsTaken, Chain-unattached, Chain-unplanted, Chain-planted}
use ard_tools.Fs.Chain.{Chain, Chain-snoc, IsUpdate, Chain-update}
use ard_tools.Fs.Chain.Graft.{
  IsUpdate-attached, IsUpdate-planted, Step-planted, Offsets, IsExtended,
}

pub write_node-eq-some :
    (nodes : List DictNode) (i : ℕ) (x : DictNode) {r : List DictNode}
    → write_node nodes i x ≡ some r
    → r ≡ set nodes i x
unfolding write_node
write_node-eq-some nodes i x e = ground arith

pub unwrap-eq-ok {ℓ κ} :
    {E : Type ℓ} {A : Type κ} (o : Option A) {a : A} → unwrap {E = E} o ≡ ok a → o ≡ some a
unwrap-eq-ok none e = cc
unwrap-eq-ok (some b) e = cc

pub attach_at-IsAttached :
    (nodes : List DictNode) (p next : ℕ) (node : DictNode) {r : List DictNode}
    → get_elem? nodes p ≡ some node
    → attach_at {E = Error} nodes p next ≡ ok r
    → IsAttached nodes r p node next
unfolding attach_at
attach_at-IsAttached nodes p next node {r} here e =
    let (found, there, e1) = >>=-eq-ok (unwrap (get_node nodes p)) _ e in
    let same : found ≡ node = cc (unwrap-eq-ok _ there, here) in
    let shown : r ≡ set nodes p (attach_next node next) =
      write_node-eq-some nodes p (attach_next found next) (unwrap-eq-ok _ e1)
      ∙ ap (λ n. set nodes p (attach_next n next)) same in
    record {
      here = here;
      each =
          λ j. ap (λ d. get_elem? d j) shown ∙ get_elem?-set nodes p j (attach_next node next) here;
    }

pub Offsets-grow :
    (P : ℕ → Type 0) (nodes : List DictNode) → Offsets P nodes → Offsets P (grow nodes)
Offsets-grow P nodes good j p s there = elim (Bool-cases (ltb j (length nodes))) [
  | inl inside ↦ good j p s (ground (arith, get_elem?-grow nodes j, inside))
  | inr outside ↦ absurd (ground (arith, get_elem?-grow nodes j, outside))
]

attach_next-taken : (n : DictNode) (k : ℕ) → is_free (attach_next n k) ≡ false
attach_next-taken free k = refl
attach_next-taken (root m) k = refl
attach_next-taken (occupied q m) k = refl
attach_next-taken (leaf q s) k = refl

previous_taken :
    (x : DictNode) {p : ℕ} → get_previous x ≡ some p → (is_free x ≡ false) × (is_child x p ≡ true)
previous_taken free e = cc
previous_taken (root n) e = cc
previous_taken (occupied q n) e = (refl, ground arith)
previous_taken (leaf q s) e = (refl, ground arith)

-- A node `last` without children gets a block, and there a child for `chr`.
module _ (P : ℕ → Type 0) (dict base mid after : List DictNode) (last next chr k : ℕ)
    (node x : DictNode) (grown : IsUpdate dict base last) (trie : IsTrie base)
    (childless : NoChild base last) (attached : IsAttached base mid last node next)
    (planted : IsPlanted mid after k x) (names : get_previous x ≡ some last)
    (at : bit_xor next chr ≡ k) (small : chr < 128)
    (old : (j : ℕ) (n : DictNode)
      → is_free n ≡ false
      → get_elem? base j ≡ some n
      → get_elem? dict j ≡ some n)
    (spare : HasBlock base next)
    (back : (i : ℕ) (path : Text) (j : ℕ) → Chain base i path j → Chain dict i path j)
    (own : (q s : ℕ) → x ≡ leaf q s → P s) where
  parent_there : get_elem? mid last ≡ some (attach_next node next)
  parent_there = attached.each last ∙ ground arith

  mid-IsTrie : IsTrie mid
  mid-IsTrie = IsTrie-attached base mid last node next attached trie childless

  graft_near : bit_xor next k < 128
  graft_near = ground (arith, bit_xor-cancel next chr)

  graft_chains : (i : ℕ) (path : Text) (j : ℕ) → Chain dict i path j → Chain after i path j
  graft_chains i path j chain =
      Chain-update mid after k i path j (IsUpdate-planted mid after k x planted mid-IsTrie) (
        Chain-update base mid last i path j
          (IsUpdate-attached base mid last node next attached childless)
          (Chain-update dict base last i path j grown chain))

  graft_keep :
      (j : ℕ) (n : DictNode)
      → j ≢ last
      → is_free n ≡ false
      → get_elem? dict j ≡ some n
      → (get_elem? after j ≡ some n) × (j ≢ k)
  graft_keep j n other full there =
      let in_base = grown.agree j n other there in
      let in_mid : get_elem? mid j ≡ some n = attached.each j ∙ ground (arith, in_base) in
      let apart : j ≢ k = λ same.
        let vacant : n ≡ free = cc (ap (get_elem? mid) same, planted.vacant) in
        cc (ap is_free vacant) in
      (planted.each j ∙ ground (arith, apart), apart)

  graft-Offsets : Offsets P dict → Offsets P after
  graft-Offsets good j q s there = elim (ℕ_discrete k j) [
    | yes e ↦ own q s (ground (arith, planted.each j))
    | no e ↦ elim (ℕ_discrete last j) [
      | yes e' ↦
          let same : attach_next node next ≡ leaf q s =
            ground (arith, planted.each j, attached.each j) in
          cc (attach_next-leaf node next, ap is_leaf same)
      | no e' ↦ good j q s (old j (leaf q s) refl (ground (arith, planted.each j, attached.each j)))
    ]
  ]

  IsTaken-mid : (i : ℕ) → IsTaken dict i → IsTaken mid i
  IsTaken-mid i (n, at_i, full) = elim (ℕ_discrete last i) [
    | yes e ↦ (attach_next node next, attached.each i ∙ ground arith, attach_next-taken node next)
    | no e ↦
        let in_base = grown.agree i n (λ f. e (sym f)) at_i in
        (n, attached.each i ∙ ground (arith, in_base), full)
  ]

  start_apart : (i : ℕ) → IsTaken dict i → i ≢ k
  start_apart i at_i same =
      let (n, there, full) = IsTaken-mid i at_i in
      let vacant : n ≡ free = cc (planted.vacant, ap (get_elem? mid) same) in cc (ap is_free vacant)

  graft_starts : (i : ℕ) → IsTaken dict i → IsTaken after i
  graft_starts i at_i =
      let (n, there, full) = IsTaken-mid i at_i in
      let apart = start_apart i at_i in (n, planted.each i ∙ ground (arith, apart, there), full)

  graft_childless : NoChild after k
  graft_childless =
      NoChild-planted mid after k x planted mid-IsTrie last next (attach_next node next) names
        parent_there (attach_next-next node next)

  mid_back : (i : ℕ) (path : Text) (j : ℕ) → Chain mid i path j → Chain dict i path j
  mid_back i path j chain =
      back i path j (Chain-unattached base mid last node next attached childless i path j chain)

  graft_end :
      (i : ℕ) (path : Text)
      → IsTaken dict i
      → Chain after i path k
      → (start : Text) × (path ≡ start ++ chr ∷ []) × Chain dict i start last
  graft_end i path at_i chain =
      let (start, splits, way) =
        Chain-planted mid after k x planted graft_childless last next chr (attach_next node next)
          names parent_there (attach_next-next node next) at i path (start_apart i at_i) chain in
      (start, splits, mid_back i start last way)

  graft_leaf :
      (i : ℕ) (path : Text) (j q s : ℕ)
      → IsTaken dict i
      → j ≢ k
      → get_elem? after j ≡ some (leaf q s)
      → Chain after i path j
      → (j ≢ last) × (get_elem? dict j ≡ some (leaf q s)) × Chain dict i path j
  graft_leaf i path j q s at_i other there chain =
      let in_mid : get_elem? mid j ≡ some (leaf q s) =
        sym (planted.each j ∙ ground (arith, other)) ∙ there in
      let apart : j ≢ last = λ same.
        let wrong : attach_next node next ≡ leaf q s = cc (parent_there, ap (get_elem? mid) same) in
        cc (attach_next-leaf node next, ap is_leaf wrong) in
      let in_base : get_elem? base j ≡ some (leaf q s) =
        sym (attached.each j ∙ ground (arith, apart)) ∙ in_mid in
      (
        apart,
        old j (leaf q s) refl in_base,
        mid_back i path j
            (Chain-unplanted mid after k x planted graft_childless i path j other chain).0,
      )

  room_after : (j : ℕ) → IsThere base j → IsThere after j
  room_after j at_j =
      IsThere-planted mid after k x j planted
        (IsThere-attached base mid last node next j attached at_j)

  graft_room : (j : ℕ) → IsThere dict j → IsThere after j
  graft_room j (n, here) = elim (ℕ_discrete j last) [
    | no e ↦ room_after j (n, grown.agree j n e here)
    | yes e ↦
        let (new, there, still) = grown.kept n (ap (get_elem? dict) (sym e) ∙ here) in
        room_after j (new, ap (get_elem? base) e ∙ there)
  ]

  graft_roomy : IsRoomyBut dict last → IsRoomyBut after k
  graft_roomy blocks i n next' other here on =
      let in_mid : get_elem? mid i ≡ some n = sym (planted.each i ∙ ground (arith, other)) ∙ here in
      elim (ℕ_discrete i last) [
        | yes e ↦
            let same : attach_next node next ≡ n = cc (parent_there, ap (get_elem? mid) e) in
            let own : next ≡ next' = cc (attach_next-next node next, ap get_next same) in
            rw (← own) (HasBlock-keeps base after next room_after spare)
        | no e ↦
            let in_base : get_elem? base i ≡ some n =
              sym (attached.each i ∙ ground (arith, e)) ∙ in_mid in
            HasBlock-keeps dict after next' graft_room
              (blocks i n next' e (old i n (inner_taken n on) in_base) on)
      ]

  pub graft : IsExtended P dict after last k (chr ∷ [])
  graft = record {
    trie =
        IsTrie-planted mid after k x planted mid-IsTrie last next (attach_next node next) names
          parent_there (attach_next-next node next) graft_near;
    childless = graft_childless;
    node = x;
    here = planted.each k ∙ ground arith;
    taken = (previous_taken x names).0;
    chains = graft_chains;
    reach = λ i path chain. Chain-snoc after i path last chr k (graft_chains i path last chain) (
        Step-planted mid after last k chr next (attach_next node next) x planted parent_there
          (attach_next-next node next) (previous_taken x names).1 at);
    keep = graft_keep;
    offsets = graft-Offsets;
    room = graft_room;
    roomy = graft_roomy;
    starts = graft_starts;
    back_end = graft_end;
    back_leaf = graft_leaf;
  }
