-- ===== src/Fs/Place/Leaf.antt =====
-- ardain/src/fs.rs: the place that `create_file` finds behind a leaf.
use ard_tools.Base.{
  ℕ, ◌+◌, ◌≤◌, length, length-append, ◌^◌, ◌<◌, ◌≡◌, ◌≢◌, refl, sym, ap, ◌∙◌, true, false, Option,
  some, List, [], ◌∷◌, ◌++◌, arith, get_elem?, All, All-append_right, ℕ_discrete,
}
use mathlib.Core.List.{append_assoc}
use ard_tools.Arh.Node.{DictNode, free, root, occupied, leaf, get_previous, get_next, is_free}
use ard_tools.Arh.Trie.{IsTrie}
use ard_tools.Arh.Strings.{ReadLe, get_str_part_id}
use ard_tools.Arh.Strings
use ard_tools.Arh.Strings.Size.{length-push, get_str_part_id-size}
use ard_tools.Arh.Strings.Laws.{IsNameByte, get-push, get-push_old}
use ard_tools.Arh.Trie.Room.{IsRoomy, IsRoomyBut-leaf}
use ard_tools.Path.{Text}
use ard_tools.Fs.Grow.Walk.{is_ascii}
use ard_tools.Fs.Create.{Branch, Split, Place}
use ard_tools.Fs.Chain.{Chain}
use ard_tools.Fs.Chain.Back.{IsTaken}
use ard_tools.Fs.Chain.Graft.{Offsets, IsExtended, IsExtended-trans}
use ard_tools.Fs.Chain.Share.{IsShared}
use ard_tools.Fs.Held.{IsHeld}
use ard_tools.Fs.Place.{IsTop, IsNamed, KeepsFiles, AddsNone, IsPlaced}
use ard_tools.Fs.Place.Follow.{IsBranch}
use ard_tools.Fs.Place.Part.{IsParted}

pub is_ascii-right : (xs ys : Text) → is_ascii (xs ++ ys) ≡ true → is_ascii ys ≡ true
is_ascii-right [] ys ascii = ascii
is_ascii-right (x ∷ xs) ys ascii = is_ascii-right xs ys (ground arith)

pub is_ascii-All : (xs : Text) → All IsNameByte xs → is_ascii xs ≡ true
is_ascii-All [] h = refl
is_ascii-All (x ∷ xs) h = ground (arith, h.0.1, is_ascii-All xs h.1)

pub leaf_offset : {q q' s s' : ℕ} → some (leaf q s) ≡ some (leaf q' s') → s ≡ s'
leaf_offset e = cc

pub some_pair :
    {xs ys : Text} {i j : ℕ}
    → ◌≡◌ {A = Option (Text × ℕ)} (some (xs, i)) (some (ys, j))
    → (xs ≡ ys) × (i ≡ j)
some_pair e = (cc, cc)

module _ (reader : ReadLe) where
  pub IsNamed-push :
      (strings text : List ℕ) (id : ℕ) {table : List ℕ} {offset : ℕ}
      → Strings.push strings text id ≡ some (table, offset)
      → (s : ℕ) → IsNamed reader strings s
      → IsNamed reader table s
  IsNamed-push strings text id pushed s (old, n, part, bytes, lt) =
      (old, n, get-push_old reader strings text id s part pushed, bytes, lt)

  -- An entry that was there before is read as before.
  pub IsNamed-same :
      (strings text : List ℕ) (id : ℕ) {table : List ℕ} {offset : ℕ}
      → Strings.push strings text id ≡ some (table, offset)
      → (s : ℕ) {st : Text} {n : ℕ} → IsNamed reader strings s
      → get_str_part_id reader table s ≡ some (st, n)
      → get_str_part_id reader strings s ≡ some (st, n)
  IsNamed-same strings text id pushed s (old, m, part, bytes, lt) read =
      part ∙ sym (get-push_old reader strings text id s part pushed) ∙ read

  module _ (nodes : List DictNode) (strings : List ℕ) (path : Text) (branch : Branch)
      (split : Split) (place : Place) (previous string_offset old_file : ℕ) (old_str : Text)
      (trie : IsTrie nodes) (top : IsTop nodes) (blocks : IsRoomy nodes)
      (named : Offsets (IsNamed reader strings) nodes) (ascii : is_ascii path ≡ true)
      (at_branch : IsBranch nodes 0 path branch)
      (here : get_elem? nodes branch.index ≡ some (leaf previous string_offset))
      (part : get_str_part_id reader strings string_offset ≡ some (old_str, old_file))
      (shares : IsShared
        (IsNamed reader place.strings)
        nodes
        branch.index
        old_str
        branch.rest
        split)
      (parts : IsParted (IsNamed reader place.strings) strings old_file split place) where
    old_named : All IsNameByte old_str × (old_file < 2 ^ 32)
    old_named =
        let (text, id, read, bytes, lt) = named branch.index previous string_offset here in
        let same : text ≡ old_str = cc in
        let same_id : id ≡ old_file = cc in rw (← same, ← same_id) (bytes, lt)

    old_split : old_str ≡ shares.shared ++ parts.o ∷ parts.os
    old_split = shares.old_splits ∙ ap (λ t. shares.shared ++ t) parts.old_more

    old_bytes : All IsNameByte (parts.o ∷ parts.os)
    old_bytes =
        All-append_right IsNameByte shares.shared (parts.o ∷ parts.os)
          (rw (← old_split) old_named.0)

    new_part : get_str_part_id reader place.strings parts.offset ≡ some (parts.os, old_file)
    new_part = get-push reader strings parts.os old_file old_bytes.1 old_named.1 parts.pushed

    abbrev moved : Text
    moved = shares.shared ++ parts.o ∷ []

    second :
        IsExtended
          (IsNamed reader place.strings)
          split.dict
          place.dict
          split.last
          parts.old_index
          (parts.o ∷ [])
    second = parts.extended (parts.os, old_file, new_part, old_bytes.1, old_named.1)

    whole :
        IsExtended
          (IsNamed reader place.strings)
          nodes
          place.dict
          branch.index
          parts.old_index
          moved
    whole =
        IsExtended-trans (IsNamed reader place.strings) nodes split.dict place.dict branch.index
          split.last parts.old_index shares.shared (parts.o ∷ []) shares.extended second

    keeps_old :
        (other : Text) (id : ℕ)
        → IsHeld reader nodes strings other id branch.index
        → IsHeld reader place.dict place.strings other id parts.old_index
    keeps_old other id held =
        let offsets : held.string_offset ≡ string_offset = leaf_offset (sym held.there ∙ here) in
        let (rest_same, id_same) =
          some_pair (sym held.part ∙ ap (get_str_part_id reader strings) offsets ∙ part) in
        record {
          pre = held.pre ++ moved;
          rest = parts.os;
          previous = split.last;
          string_offset = parts.offset;
          splits =
              held.splits
              ∙ ap (λ t. held.pre ++ t)
                  (rest_same ∙ old_split ∙ sym (append_assoc shares.shared (parts.o ∷ []) parts.os))
              ∙ sym (append_assoc held.pre moved parts.os);
          chain = whole.reach 0 held.pre held.chain;
          there = parts.old_there;
          part = new_part ∙ ap (λ n. some (parts.os, n)) (sym id_same);
        }

    keeps_other :
        (other : Text) (id leaf_id : ℕ)
        → leaf_id ≢ branch.index
        → IsHeld reader nodes strings other id leaf_id
        → IsHeld reader place.dict place.strings other id leaf_id
    keeps_other other id leaf_id apart held = record {
      pre = held.pre;
      rest = held.rest;
      previous = held.previous;
      string_offset = held.string_offset;
      splits = held.splits;
      chain = whole.chains 0 held.pre leaf_id held.chain;
      there = (whole.keep leaf_id (leaf held.previous held.string_offset) apart refl held.there).0;
      part =
          get-push_old reader strings parts.os old_file held.string_offset held.part parts.pushed;
    }

    keeps : KeepsFiles reader nodes strings place.dict place.strings
    keeps other id leaf_id other_ascii held = elim (ℕ_discrete leaf_id branch.index) [
      | yes e ↦ (parts.old_index, keeps_old other id (rw (← e) held))
      | no e ↦ (leaf_id, keeps_other other id leaf_id e held)
    ]

    start_taken :
        (i : ℕ) (pre : Text) (node : DictNode)
        → Chain nodes i pre branch.index
        → i ≢ branch.index
        → get_elem? nodes i ≡ some node
        → is_free node ≡ false
    start_taken i [] node same apart at = absurd (apart same)
    start_taken i (c ∷ cs) free (k, step, rest) apart at =
        let same : step.node ≡ free = cc (step.here) in cc (ap get_next same, step.on)
    start_taken i (c ∷ cs) (root n) chain apart at = refl
    start_taken i (c ∷ cs) (occupied q n) chain apart at = refl
    start_taken i (c ∷ cs) (leaf q s) chain apart at = refl

    still-IsTop : IsTop place.dict
    still-IsTop =
        let (node, at, orphan) = top in
        let apart : 0 ≢ branch.index = λ same.
          let same_node : node ≡ leaf previous string_offset = cc (ap (get_elem? nodes) same) in
          cc (ap get_previous same_node) in
        let taken = start_taken 0 at_branch.pre node at_branch.chain apart at in
        (node, (whole.keep 0 node apart taken at).0, orphan)

    first-IsTaken : IsTaken nodes 0
    first-IsTaken =
        let (node, at, orphan) = top in
        let apart : 0 ≢ branch.index = λ same.
          let same_node : node ≡ leaf previous string_offset = cc (ap (get_elem? nodes) same) in
          cc (ap get_previous same_node) in
        (node, at, start_taken 0 at_branch.pre node at_branch.chain apart at)

    adds_old :
        (other : Text) (id : ℕ)
        → IsHeld reader place.dict place.strings other id parts.old_index
        → IsHeld reader nodes strings other id branch.index
    adds_old other id held =
        let (start, splits, way) = whole.back_end 0 held.pre first-IsTaken held.chain in
        let offsets : held.string_offset ≡ parts.offset =
          leaf_offset (sym held.there ∙ parts.old_there) in
        let (rest_same, id_same) =
          some_pair
            (sym held.part ∙ ap (get_str_part_id reader place.strings) offsets ∙ new_part) in
        record {
          pre = start;
          rest = old_str;
          previous = previous;
          string_offset = string_offset;
          splits =
              held.splits
              ∙ ap (λ t. t ++ held.rest) splits
              ∙ append_assoc start moved held.rest
              ∙ ap (λ t. start ++ t)
                  (ap (λ t. moved ++ t) rest_same
                    ∙ append_assoc shares.shared (parts.o ∷ []) parts.os
                    ∙ sym old_split);
          chain = way;
          there = here;
          part = part ∙ ap (λ n. some (old_str, n)) (sym id_same);
        }

    adds_other :
        (other : Text) (id leaf_id : ℕ)
        → leaf_id ≢ parts.old_index
        → IsHeld reader place.dict place.strings other id leaf_id
        → IsHeld reader nodes strings other id leaf_id
    adds_other other id leaf_id apart held =
        let (from_last, old_there, way) =
          whole.back_leaf 0 held.pre leaf_id held.previous held.string_offset first-IsTaken apart
            held.there held.chain in
        record {
          pre = held.pre;
          rest = held.rest;
          previous = held.previous;
          string_offset = held.string_offset;
          splits = held.splits;
          chain = way;
          there = old_there;
          part =
              IsNamed-same strings parts.os old_file parts.pushed held.string_offset
                (named leaf_id held.previous held.string_offset old_there) held.part;
        }

    adds : AddsNone reader nodes strings place.dict place.strings
    adds other id leaf_id other_ascii held = elim (ℕ_discrete leaf_id parts.old_index) [
      | yes e ↦ (branch.index, adds_old other id (rw (← e) held))
      | no e ↦ (leaf_id, adds_other other id leaf_id e held)
    ]

    new_split : branch.rest ≡ shares.shared ++ parts.p ∷ place.rest
    new_split = shares.new_splits ∙ ap (λ t. shares.shared ++ t) parts.new_more

    small : parts.p < 128
    small =
        let rest_ascii =
          is_ascii-right at_branch.pre branch.rest (ap is_ascii (sym at_branch.splits) ∙ ascii) in
        let tail =
          is_ascii-right shares.shared (parts.p ∷ place.rest)
            (ap is_ascii (sym new_split) ∙ rest_ascii) in
        ground arith

    new_table : length place.strings ≤ length strings + length strings + 5
    new_table = ground (
      arith,
      length-push strings parts.os old_file parts.pushed,
      get_str_part_id-size reader strings string_offset part,
      ap length old_split,
      length-append shares.shared (parts.o ∷ parts.os),
    )

    pub leaf_place : IsPlaced reader nodes strings path place
    leaf_place = record {
      trie = whole.trie;
      top = still-IsTop;
      vacant =
          parts.vacant small
            (shares.apart parts.o parts.os parts.p place.rest parts.old_more parts.new_more);
      pre = at_branch.pre ++ shares.shared;
      chr = parts.p;
      splits =
          at_branch.splits
          ∙ ap (λ t. at_branch.pre ++ t) new_split
          ∙ sym (append_assoc at_branch.pre shares.shared (parts.p ∷ place.rest));
      chain = rw parts.parent_same (
          second.chains 0 (at_branch.pre ++ shares.shared) split.last
            (shares.extended.reach 0 at_branch.pre at_branch.chain));
      parent = parts.parent;
      there = ap (get_elem? place.dict) parts.parent_same ∙ parts.there;
      next = parts.next;
      on = parts.on;
      at = parts.at;
      named = whole.offsets (λ j p s there'.
          IsNamed-push strings parts.os old_file parts.pushed s (named j p s there'));
      roomy =
          IsRoomyBut-leaf place.dict parts.old_index (leaf split.last parts.offset) parts.old_there
            refl (whole.roomy (λ i n next' other. blocks i n next'));
      table = new_table;
      keep = keeps;
      adds = adds;
    }
