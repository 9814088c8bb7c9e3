-- ===== src/Fs/Total/Find.antt =====
-- ardain/src/fs.rs: `create_file` finds a place or an error, and does not panic.
use ard_tools.Base.{
  ℕ, ◌^◌, ◌<◌, ◌≡◌, ◌≢◌, refl, sym, ap, ◌∙◌, inl, inr, true, false, some, List, [], ◌∷◌, arith,
  length, get_elem?, set, bit_xor, panic, ok-ne-panic, ◌>>=◌, unwrap-ne-panic, >>=-ne-panic,
}
use ard_tools.Arh.Node.{DictNode, leaf, get_next, attach_next}
use ard_tools.Arh.Dict.{grow, get_node, write_node, child_at, allocate_new_block}
use ard_tools.Arh.Trie.{IsTrie, NoChild}
use ard_tools.Arh.Trie.Free.{leaf-NoChild}
use ard_tools.Arh.Trie.Grow.{block_at, allocate_new_block_nodes}
use ard_tools.Arh.Trie.Plant.{allocate_childless}
use ard_tools.Arh.Trie.Room.{
  IsThere, IsRoomy, IsThere-set, IsThere-attached, IsThere-allocated, HasBlock-grow,
}
use ard_tools.Arh.Strings.{ReadLe, get_str_part_id}
use ard_tools.Arh.Strings
use ard_tools.Arh.Strings.Size.{push-room}
use ard_tools.Path.{Text}
use ard_tools.Fs.Grow.Walk.{is_ascii}
use ard_tools.Fs.Create.{
  Branch, attach_at, follow, share_path, part_names, split_leaf, diverge, find_place,
}
use ard_tools.Fs.Chain.{Chain-apart}
use ard_tools.Fs.Chain.Back.{IsTaken, inner_taken}
use ard_tools.Fs.Chain.Graft.{Offsets}
use ard_tools.Fs.Chain.Share.{share_path-IsShared}
use ard_tools.Fs.Place.{IsTop, IsNamed}
use ard_tools.Fs.Place.Diverge.{top_apart}
use ard_tools.Fs.Place.Follow.{IsBranch, follow-IsBranch}
use ard_tools.Fs.Place.Leaf.{is_ascii-right, is_ascii-All}
use ard_tools.Fs.Place.Found.{leaf_of, split_leaf_inner, split_leaf-IsPlaced, diverge_free}
use ard_tools.Fs.Total.Follow.{follow-ne-panic}
use ard_tools.Fs.Total.Extend.{write_node_there, attach_at_there, share_path-ne-panic}

pub part_names-ne-panic :
    (strings : List ℕ) (old_file : ℕ) (dict : List DictNode) (last : ℕ) (node : DictNode)
    (os ps : Text)
    → IsTrie dict
    → NoChild dict last
    → get_elem? dict last ≡ some node
    → is_ascii os ≡ true
    → is_ascii ps ≡ true
    → length strings < 2 ^ 31
    → part_names strings old_file
        (record { dict = dict; last = last; old_rest = os; new_rest = ps })
      ≢ panic
unfolding part_names
part_names-ne-panic strings old_file dict last node [] ps trie childless here old_ascii ascii room =
    λ e. cc
part_names-ne-panic strings old_file dict last node (o ∷ os) [] trie childless here old_ascii ascii
      room =
    λ e. cc
part_names-ne-panic strings old_file dict last node (o ∷ os) (p ∷ ps) trie childless here old_ascii
      ascii room =
    let (allocated, run, attached) = allocate_childless dict last node trie childless here in
    let block = block_at dict in
    let fresh : (c : ℕ) → c < 128 → IsThere allocated (bit_xor block c) = λ c lt.
      IsThere-attached (grow dict) allocated last node block (bit_xor block c) attached
        (HasBlock-grow dict c lt) in
    let last_there : get_elem? allocated last ≡ some (attach_next node block) =
      attached.each last ∙ ground arith in
    let second = set allocated last (attach_next (attach_next node block) block) in
    let (n, old_at) =
      IsThere-set allocated last (attach_next (attach_next node block) block) (bit_xor block o)
        last_there (fresh o (ground arith)) in
    let new_at =
      IsThere-set allocated last (attach_next (attach_next node block) block) (bit_xor block p)
        last_there (fresh p (ground arith)) in
    let x = leaf last (length strings) in
    let (m, found) = IsThere-set second (bit_xor block o) x (bit_xor block p) old_at new_at in
    unwrap-ne-panic (allocate_new_block dict last) _ run (
      >>=-ne-panic (attach_at allocated last block) _
        (λ e. cc (attach_at_there allocated last block last_there))
        (λ r attaches.
          let same : second ≡ r = cc (attach_at_there allocated last block last_there) in
          unwrap-ne-panic (Strings.push strings os old_file) _ (push-room strings os old_file room)
            (unwrap-ne-panic (write_node r (bit_xor block o) x) _
              (write_node_there r (bit_xor block o) x
                (ap (λ d. get_elem? d (bit_xor block o)) (sym same) ∙ old_at))
              (unwrap-ne-panic (get_node (set r (bit_xor block o) x) (bit_xor block p)) _
                (ap (λ d. get_elem? (set d (bit_xor block o) x) (bit_xor block p)) (sym same)
                  ∙ found)
                ok-ne-panic))))

module _ (reader : ReadLe) (nodes : List DictNode) (strings : List ℕ) (trie : IsTrie nodes)
    (top : IsTop nodes) (roomy : IsRoomy nodes) (named : Offsets (IsNamed reader strings) nodes)
    (small : length strings < 2 ^ 31) where
  split_leaf-ne-panic :
      (index last_parent previous string_offset : ℕ) (rest : Text)
      → get_elem? nodes index ≡ some (leaf previous string_offset)
      → is_ascii rest ≡ true
      → split_leaf reader nodes strings (record {
        index = index;
        node = leaf previous string_offset;
        last_parent = last_parent;
        rest = rest;
      })
        ≢ panic
  unfolding split_leaf
  split_leaf-ne-panic index last_parent previous string_offset rest here ascii =
      let (old_str, old_file, part, bytes, lt) = named index previous string_offset here in
      let at = trie.linked index previous (ground (arith, here)) in
      let childless = leaf-NoChild nodes index previous string_offset trie here in
      let old_ascii = is_ascii-All old_str bytes in
      let spare = roomy previous at.parent at.next at.there at.inner in
      unwrap-ne-panic (get_str_part_id reader strings string_offset) _ part (
        unwrap-ne-panic (get_node nodes previous) _ at.there (
          unwrap-ne-panic (get_next at.parent) _ at.inner (
            >>=-ne-panic (share_path nodes at.next index old_str rest) _
              (share_path-ne-panic nodes at.next index old_str rest (leaf previous string_offset)
                trie childless here refl old_ascii spare)
              (λ split shares.
                let shared =
                  share_path-IsShared (λ _. Unit {0}) nodes at.next index old_str rest
                    (leaf previous string_offset) trie childless here refl old_ascii spare shares in
                let between = shared.extended in
                part_names-ne-panic strings old_file split.dict split.last between.node
                  split.old_rest split.new_rest between.trie between.childless between.here
                  (is_ascii-right shared.shared split.old_rest
                    (ap is_ascii (sym shared.old_splits) ∙ old_ascii))
                  (is_ascii-right shared.shared split.new_rest
                    (ap is_ascii (sym shared.new_splits) ∙ ascii))
                  small))))

  diverge-ne-panic :
      (index parent : ℕ) (node : DictNode) (next c : ℕ) (cs : Text)
      → get_elem? nodes index ≡ some node
      → get_next node ≡ some next
      → child_at nodes index index ≡ false
      → c < 128
      → diverge (record {
        dict = nodes;
        strings = strings;
        index = index;
        node = node;
        parent = parent;
        rest = c ∷ cs;
      })
        ≢ panic
  unfolding diverge
  diverge-ne-panic index parent node next c cs here on apart lt e =
      let (r, run, each) = allocate_new_block_nodes nodes index next node trie apart here on in
      let (n, there) =
        IsThere-allocated nodes index next node trie apart here on r each
          (bit_xor (block_at nodes) c) (HasBlock-grow nodes c lt) in
      ground (arith, e, inner_taken node on)

  module _ (path : Text) (ascii : is_ascii path ≡ true) (branch : Branch)
      (at_branch : IsBranch nodes 0 path branch) where
    rest_ascii : is_ascii branch.rest ≡ true
    rest_ascii =
        is_ascii-right at_branch.pre branch.rest (ap is_ascii (sym at_branch.splits) ∙ ascii)

    branch-ne-panic : (split_leaf reader nodes strings branch >>= diverge) ≢ panic
    branch-ne-panic = elim (at_branch.stops) [
      | inl l ↦
          let (p, s, at_leaf) = leaf_of branch.node l in
          let same =
            ap
              (λ n. record {
                index = branch.index;
                node = n;
                last_parent = branch.last_parent;
                rest = branch.rest;
              })
              at_leaf in
          >>=-ne-panic (split_leaf reader nodes strings branch) diverge
            (λ e.
              split_leaf-ne-panic branch.index branch.last_parent p s branch.rest
                (at_branch.there ∙ ap some at_leaf) rest_ascii
                (ap (split_leaf reader nodes strings) (sym same) ∙ e))
            (λ mid splits.
              let (placed, vacant) =
                split_leaf-IsPlaced reader nodes strings trie top roomy named path ascii branch
                  at_branch p s at_leaf splits in
              λ e. cc (diverge_free mid vacant))
      | inr stop ↦
          let stays =
            split_leaf_inner reader nodes strings branch.index branch.last_parent branch.rest
              branch.node stop.next stop.on in
          let apart =
            Chain-apart nodes 0 at_branch.pre branch.index (top_apart nodes 0 top)
              at_branch.chain in
          let more_ascii = ap is_ascii (sym stop.more) ∙ rest_ascii in
          rw (stays, ◌>>=◌, stop.more)
            (diverge-ne-panic branch.index branch.last_parent branch.node stop.next stop.chr
              stop.chrs at_branch.there stop.on apart (ground arith))
    ]

  pub find_place-ne-panic :
      (path : Text)
      → IsTaken nodes 0
      → is_ascii path ≡ true
      → find_place reader nodes strings path ≢ panic
  unfolding find_place
  find_place-ne-panic path (first, here, full) ascii = unwrap-ne-panic (get_node nodes 0) _ here (
      >>=-ne-panic (follow nodes 0 first 0 path) _
        (follow-ne-panic nodes 0 first 0 path roomy here full ascii)
        (λ branch follows.
          branch-ne-panic path ascii branch (follow-IsBranch nodes 0 first 0 path here follows)))
