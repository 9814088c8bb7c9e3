-- ===== src/Fs/Place/Found.antt =====
-- ardain/src/fs.rs: `create_file` up to the free node for the new leaf.
use ard_tools.Base.{
  ℕ, ◌≡◌, refl, sym, ap, ◌∙◌, inl, inr, true, false, some, List, ◌∷◌, ◌++◌, arith, get_elem?,
  bit_xor, Option-cases, ok, >>=-eq-ok, unwrap,
}
use ard_tools.Arh.Node.{DictNode, free, root, occupied, leaf, get_next, is_leaf, is_free}
use ard_tools.Arh.Dict.{get_node, allocate_new_block}
use ard_tools.Arh.Trie.{IsTrie}
use ard_tools.Arh.Trie.Free.{leaf-NoChild}
use ard_tools.Arh.Trie.Grow.{block_at, allocate_new_block_nodes}
use ard_tools.Arh.Strings.{ReadLe, get_str_part_id}
use ard_tools.Arh.Trie.Room.{IsRoomy}
use ard_tools.Path.{Text}
use ard_tools.Fs.Grow.Walk.{is_ascii}
use ard_tools.Fs.Create.{
  Branch, Split, Place, follow, share_path, part_names, split_leaf, diverge, find_place,
}
use ard_tools.Fs.Chain.{Chain-apart}
use ard_tools.Fs.Chain.Graft.{Offsets}
use ard_tools.Fs.Chain.Child.{unwrap-eq-ok}
use ard_tools.Fs.Chain.Share.{share_path-IsShared}
use ard_tools.Fs.Place.{IsTop, IsNamed, IsPlaced}
use ard_tools.Fs.Place.Follow.{IsBranch, IsEnd, follow-IsBranch}
use ard_tools.Fs.Place.Part.{part_names-IsParted}
use ard_tools.Fs.Place.Leaf.{is_ascii-right, is_ascii-All, leaf_place}
use ard_tools.Fs.Place.Diverge.{is_ascii-left, top_apart, grown_place}

pub diverge_free : (place : Place) → place.node ≡ free → diverge place ≡ ok place
unfolding diverge
diverge_free place e = ground (arith, e)

pub leaf_of : (n : DictNode) → is_leaf n ≡ true → (p : ℕ) × (s : ℕ) × (n ≡ leaf p s)
leaf_of free h = cc
leaf_of (root m) h = cc
leaf_of (occupied q m) h = cc
leaf_of (leaf q s) h = (q, s, refl)

module _ (reader : ReadLe) (nodes : List DictNode) (strings : List ℕ) where
  -- What `split_leaf` reads and does for a leaf.
  record IsSplit (branch : Branch) (previous string_offset : ℕ) (place : Place) : Type 0 where
    old_str : Text
    old_file : ℕ
    part : get_str_part_id reader strings string_offset ≡ some (old_str, old_file)
    node_block : ℕ
    parent : DictNode
    parent_there : get_elem? nodes previous ≡ some parent
    parent_on : get_next parent ≡ some node_block
    split : Split
    shares : share_path nodes node_block branch.index old_str branch.rest ≡ ok split
    parts : part_names strings old_file split ≡ ok place

  IsSplit-leaf :
      (index last_parent previous string_offset : ℕ) (rest : Text) {place : Place}
      → split_leaf reader nodes strings (record {
        index = index;
        node = leaf previous string_offset;
        last_parent = last_parent;
        rest = rest;
      })
        ≡ ok place
      → IsSplit
          (record {
            index = index;
            node = leaf previous string_offset;
            last_parent = last_parent;
            rest = rest;
          })
          previous
          string_offset
          place
  unfolding split_leaf
  IsSplit-leaf index last_parent previous string_offset rest e =
      let (old, read, e1) = >>=-eq-ok (unwrap (get_str_part_id reader strings string_offset)) _ e in
      let (parent, got, e2) = >>=-eq-ok (unwrap (get_node nodes previous)) _ e1 in
      let (node_block, on, e3) = >>=-eq-ok (unwrap (get_next parent)) _ e2 in
      let (split, shares, e4) = >>=-eq-ok (share_path nodes node_block index old.0 rest) _ e3 in
      record {
        old_str = old.0;
        old_file = old.1;
        part = unwrap-eq-ok _ read;
        node_block = node_block;
        parent = parent;
        parent_there = unwrap-eq-ok _ got;
        parent_on = unwrap-eq-ok _ on;
        split = split;
        shares = shares;
        parts = e4;
      }

  pub split_leaf_inner :
      (index last_parent : ℕ) (rest : Text) (node : DictNode) (next : ℕ)
      → get_next node ≡ some next
      → split_leaf reader nodes strings
          (record { index = index; node = node; last_parent = last_parent; rest = rest })
        ≡ ok (record {
          dict = nodes;
          strings = strings;
          index = index;
          node = node;
          parent = last_parent;
          rest = rest;
        })
  unfolding split_leaf
  split_leaf_inner index last_parent rest free next on = refl
  split_leaf_inner index last_parent rest (root m) next on = refl
  split_leaf_inner index last_parent rest (occupied q m) next on = refl
  split_leaf_inner index last_parent rest (leaf q s) next on = cc

  module _ (trie : IsTrie nodes) (top : IsTop nodes) (blocks : IsRoomy nodes)
      (named : Offsets (IsNamed reader strings) nodes) (path : Text) (ascii : is_ascii path ≡ true)
      (branch : Branch) (at_branch : IsBranch nodes 0 path branch) where
    -- Behind a leaf the place is found before `diverge`, which has nothing to do.
    pub split_leaf-IsPlaced :
        (previous string_offset : ℕ) {mid : Place}
        → branch.node ≡ leaf previous string_offset
        → split_leaf reader nodes strings branch ≡ ok mid
        → IsPlaced reader nodes strings path mid × (mid.node ≡ free)
    split_leaf-IsPlaced previous string_offset {mid} at_leaf e =
        let same =
          ap
            (λ n. record {
              index = branch.index;
              node = n;
              last_parent = branch.last_parent;
              rest = branch.rest;
            })
            at_leaf in
        let split =
          IsSplit-leaf branch.index branch.last_parent previous string_offset branch.rest
            (ap (split_leaf reader nodes strings) (sym same) ∙ e) in
        let here = at_branch.there ∙ ap some at_leaf in
        let (text, id, read, bytes, lt) = named branch.index previous string_offset here in
        let text_same : text ≡ split.old_str = cc (split.part) in
        let old_ascii = ap is_ascii (sym text_same) ∙ is_ascii-All text bytes in
        let shared =
          share_path-IsShared (IsNamed reader mid.strings) nodes split.node_block branch.index
            split.old_str branch.rest (leaf previous string_offset) trie
            (leaf-NoChild nodes branch.index previous string_offset trie here) here refl old_ascii
            (blocks previous split.parent split.node_block split.parent_there split.parent_on)
            split.shares in
        let between = shared.extended in
        let old_rest_ascii =
          is_ascii-right shared.shared split.split.old_rest
            (ap is_ascii (sym shared.old_splits) ∙ old_ascii) in
        let parted =
          part_names-IsParted (IsNamed reader mid.strings) strings split.old_file split.split
            between.node between.trie between.childless between.here old_rest_ascii split.parts in
        let placed =
          leaf_place reader nodes strings path branch split.split mid previous string_offset
            split.old_file split.old_str trie top blocks named ascii at_branch here split.part
            shared parted in
        let vacant : mid.node ≡ free = cc (parted.node_there, placed.vacant) in (placed, vacant)

    diverge_taken :
        (last_parent : ℕ) (node : DictNode) (c : ℕ) (cs : Text) (r : List DictNode) {place : Place}
        → is_free node ≡ false
        → allocate_new_block nodes branch.index ≡ some (r, block_at nodes)
        → diverge (record {
          dict = nodes;
          strings = strings;
          index = branch.index;
          node = node;
          parent = last_parent;
          rest = c ∷ cs;
        })
          ≡ ok place
        → place ≡ record {
          dict = r;
          strings = strings;
          index = bit_xor (block_at nodes) c;
          node = place.node;
          parent = branch.index;
          rest = cs;
        }
    unfolding diverge
    diverge_taken last_parent node c cs r {place} taken run e =
        elim (Option-cases (get_elem? r (bit_xor (block_at nodes) c))) [
          | inl out ↦ absurd (ground (arith, e))
          | inr (n, got) ↦ ground (arith, e)
        ]

    place_inner :
        {mid place : Place}
        → IsEnd nodes branch.index branch.node branch.rest
        → split_leaf reader nodes strings branch ≡ ok mid
        → diverge mid ≡ ok place
        → IsPlaced reader nodes strings path place
    place_inner {mid} {place} stop e e' =
        let p = branch.index in
        let apart = Chain-apart nodes 0 at_branch.pre p (top_apart nodes 0 top) at_branch.chain in
        let (r, run, each) =
          allocate_new_block_nodes nodes p stop.next branch.node trie apart at_branch.there
            stop.on in
        let stays : ok mid
            ≡ ok (record {
              dict = nodes;
              strings = strings;
              index = p;
              node = branch.node;
              parent = branch.last_parent;
              rest = branch.rest;
            }) =
          sym e ∙ split_leaf_inner p branch.last_parent branch.rest branch.node stop.next stop.on in
        let mid_same : mid ≡ record {
          dict = nodes;
          strings = strings;
          index = p;
          node = branch.node;
          parent = branch.last_parent;
          rest = stop.chr ∷ stop.chrs;
        } =
          cc (stop.more) in
        let same =
          diverge_taken branch.last_parent branch.node stop.chr stop.chrs r
            (taken branch.node stop.on) run (ap diverge (sym mid_same) ∙ e') in
        let splits : path ≡ at_branch.pre ++ stop.chr ∷ stop.chrs =
          at_branch.splits ∙ ap (λ t. at_branch.pre ++ t) stop.more in
        let whole_ascii = ap is_ascii (sym splits) ∙ ascii in
        let last_ascii = is_ascii-right at_branch.pre (stop.chr ∷ stop.chrs) whole_ascii in
        rw (same, splits)
          (grown_place nodes p stop.next branch.node trie apart at_branch.there stop.on r each top
            reader strings at_branch.pre stop.chrs stop.chr place.node blocks named
            (is_ascii-left at_branch.pre (stop.chr ∷ stop.chrs) whole_ascii) (ground arith)
            at_branch.chain stop.vacant)
      where
        taken : (n : DictNode) {next : ℕ} → get_next n ≡ some next → is_free n ≡ false
        taken free on = cc
        taken (root m) on = refl
        taken (occupied q m) on = refl
        taken (leaf q s) on = refl

  pub find_place-IsPlaced :
      (path : Text) {place : Place}
      → IsTrie nodes
      → IsTop nodes
      → IsRoomy nodes
      → Offsets (IsNamed reader strings) nodes
      → is_ascii path ≡ true
      → find_place reader nodes strings path ≡ ok place
      → IsPlaced reader nodes strings path place
  unfolding find_place
  find_place-IsPlaced path {place} trie top blocks named ascii e =
      let (first, got, e1) = >>=-eq-ok (unwrap (get_node nodes 0)) _ e in
      let (branch, follows, e2) = >>=-eq-ok (follow nodes 0 first 0 path) _ e1 in
      let (mid, splits, e3) = >>=-eq-ok (split_leaf reader nodes strings branch) _ e2 in
      let at_branch = follow-IsBranch nodes 0 first 0 path (unwrap-eq-ok _ got) follows in
      elim (at_branch.stops) [
        | inl l ↦
            let (p, s, at_leaf) = leaf_of branch.node l in
            let (placed, vacant) =
              split_leaf-IsPlaced trie top blocks named path ascii branch at_branch p s at_leaf
                splits in
            let done : mid ≡ place = cc (diverge_free mid vacant) in rw (← done) placed
        | inr stop ↦ place_inner trie top blocks named path ascii branch at_branch stop splits e3
      ]
