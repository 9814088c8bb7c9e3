-- ===== src/Fs/Chain/Extend.antt =====
-- ardain/src/fs.rs: a round of the loop of `create_file` that continues the path.
use ard_tools.Base.{
  ℕ, ◌<◌, ◌≡◌, ◌≢◌, refl, sym, ap, ◌∙◌, inl, inr, true, false, some, List, [], ◌∷◌, arith,
  get_elem?, set, bit_xor, Bool-cases, Run, ok, >>=-eq-ok, unwrap,
}
use ard_tools.Bits.Xor.{bit_xor-block}
use ard_tools.Arh.Node.{DictNode, free, root, occupied, leaf, is_free, attach_next}
use ard_tools.Arh.Dict.{grow, get_node, write_node, allocate_new_block}
use ard_tools.Arh.Trie.{IsTrie, NoChild}
use ard_tools.Arh.Trie.Links.{get_elem?-set}
use ard_tools.Arh.Trie.Grow.{block_at, block_free, IsTrie-grow, old_outside}
use ard_tools.Arh.Trie.Plant.{
  IsPlanted, IsPlanted-set, IsAttached, NoChild-grow, allocate_childless,
}
use ard_tools.Fs.Error.{Error}
use ard_tools.Arh.Trie.Room.{
  HasBlock, HasBlock-grow, HasBlock-keeps, IsThere-attached, IsThere-planted,
}
use ard_tools.Fs.Create.{attach_at, occupy_node, occupy_block, extend_path}
use ard_tools.Fs.Chain.Back.{old_node, Chain-ungrown}
use ard_tools.Fs.Chain.Graft.{IsUpdate-none, IsUpdate-grow, IsExtended}
use ard_tools.Fs.Chain.Child.{write_node-eq-some, unwrap-eq-ok, attach_at-IsAttached, graft}

ok_triple :
    {r s : List DictNode} {i j b c : ℕ}
    → ◌≡◌ {A = Run Error (List DictNode × ℕ × ℕ)} (ok (r, i, b)) (ok (s, j, c))
    → (r ≡ s) × (i ≡ j) × (b ≡ c)
ok_triple e = (cc, cc, cc)

pub only_free : (n : DictNode) → is_free n ≡ true → n ≡ free
only_free free h = refl
only_free (root m) h = cc
only_free (occupied q m) h = cc
only_free (leaf q t) h = cc

module _ (P : ℕ → Type 0) (dict : List DictNode) (last chr : ℕ) (node : DictNode)
    (trie : IsTrie dict) (childless : NoChild dict last) (here : get_elem? dict last ≡ some node)
    (taken : is_free node ≡ false) (small : chr < 128) where
  occupy_node-IsExtended :
      (node_block : ℕ) {r : List DictNode} {idx block : ℕ}
      → HasBlock dict node_block
      → get_elem? dict (bit_xor node_block chr) ≡ some free
      → occupy_node dict node_block last (bit_xor node_block chr) ≡ ok (r, idx, block)
      → IsExtended P dict r last idx (chr ∷ []) × HasBlock r block
  unfolding occupy_node attach_at
  occupy_node-IsExtended node_block {r} {idx} {block} spare vacant e =
      let k = bit_xor node_block chr in
      let apart : k ≢ last = λ same.
        let free_node : node ≡ free = cc (vacant, ap (get_elem? dict) same) in
        cc (ap is_free free_node) in
      let (first, wrote, e1) = >>=-eq-ok (unwrap (write_node dict k (occupied last 0xFEFE))) _ e in
      let shown = write_node-eq-some dict k (occupied last 0xFEFE) (unwrap-eq-ok _ wrote) in
      let last_there : get_elem? first last ≡ some node =
        ap (λ d. get_elem? d last) shown
        ∙ get_elem?-set dict k last (occupied last 0xFEFE) vacant
        ∙ ground arith in
      let (second, attached, e2) = >>=-eq-ok (attach_at first last node_block) _ e1 in
      let third = attach_at-IsAttached first last node_block node last_there attached in
      let mid = set dict last (attach_next node node_block) in
      let mid_each = λ (j : ℕ). get_elem?-set dict last j (attach_next node node_block) here in
      let first_each = λ (j : ℕ).
        ap (λ d. get_elem? d j) shown ∙ get_elem?-set dict k j (occupied last 0xFEFE) vacant in
      let planted : IsPlanted mid second k (occupied last 0xFEFE) = record {
        vacant = mid_each k ∙ ground (arith, apart, vacant);
        each = λ j. third.each j ∙ ground (arith, apart, mid_each j, first_each j);
      } in
      let (same, same_idx, same_block) = ok_triple e2 in
      let grafted =
        (graft P dict dict mid second last node_block chr k node (occupied last 0xFEFE)
          (IsUpdate-none dict last childless) trie childless
          (record { here = here; each = mid_each }) planted refl refl small (λ j n full h. h) spare
          (λ i path j chain. chain) (λ q s f. cc)) in
      rw (← same, ← same_idx, ← same_block)
        (grafted, HasBlock-keeps dict second node_block grafted.room spare)

  -- `occupy_block` plants a node in the block that it attaches.
  record IsOccupied (r : List DictNode) (idx block : ℕ) : Type 0 where
    allocated : List DictNode
    attached : IsAttached (grow dict) allocated last node (block_at dict)
    vacant : get_elem? allocated (bit_xor (block_at dict) chr) ≡ some free
    shown : r ≡ set allocated (bit_xor (block_at dict) chr) (occupied last 0xBADD)
    index : idx ≡ bit_xor (block_at dict) chr
    block_same : block ≡ block_at dict

  occupy_block-IsOccupied :
      {r : List DictNode} {idx block : ℕ}
      → occupy_block dict last chr ≡ ok (r, idx, block)
      → IsOccupied r idx block
  unfolding occupy_block
  occupy_block-IsOccupied {r} {idx} {block} e =
      let (allocated, run, attached) = allocate_childless dict last node trie childless here in
      let (pair, allocates, e1) = >>=-eq-ok (unwrap (allocate_new_block dict last)) _ e in
      let shown : pair ≡ (allocated, block_at dict) = cc (unwrap-eq-ok _ allocates, run) in
      let (second, wrote, e2) =
        >>=-eq-ok (unwrap (write_node pair.0 (bit_xor pair.1 chr) (occupied last 0xBADD))) _ e1 in
      let taken_block : second
          ≡ set allocated (bit_xor (block_at dict) chr) (occupied last 0xBADD) =
        write_node-eq-some pair.0 (bit_xor pair.1 chr) (occupied last 0xBADD) (unwrap-eq-ok _ wrote)
        ∙ ap (λ (q : List DictNode × ℕ). set q.0 (bit_xor q.1 chr) (occupied last 0xBADD)) shown in
      let (same, same_idx, same_block) = ok_triple e2 in
      record {
        allocated = allocated;
        attached = attached;
        vacant =
            attached.each (bit_xor (block_at dict) chr)
            ∙ ground (
              arith,
              block_free dict (bit_xor (block_at dict) chr),
              bit_xor-block (block_at dict) chr small,
              old_outside dict last here,
            );
        shown = sym same ∙ taken_block;
        index = sym same_idx ∙ ap (λ (q : List DictNode × ℕ). bit_xor q.1 chr) shown;
        block_same = sym same_block ∙ ap (λ (q : List DictNode × ℕ). q.1) shown;
      }

  occupy_block-IsExtended :
      {r : List DictNode} {idx block : ℕ}
      → IsOccupied r idx block
      → IsExtended P dict r last idx (chr ∷ [])
  occupy_block-IsExtended now =
      let k = bit_xor (block_at dict) chr in
      rw (now.shown, now.index)
        (graft P dict (grow dict) now.allocated (set now.allocated k (occupied last 0xBADD)) last
          (block_at dict) chr k node (occupied last 0xBADD) (IsUpdate-grow dict last childless)
          (IsTrie-grow dict trie) (NoChild-grow dict last node trie childless here) now.attached
          (IsPlanted-set now.allocated k (occupied last 0xBADD) now.vacant) refl refl small
          (λ j n full h. old_node dict j n h full) (HasBlock-grow dict) (Chain-ungrown dict)
          (λ q s f. cc))

  occupy_block-HasBlock :
      {r : List DictNode} {idx block : ℕ} → IsOccupied r idx block → HasBlock r block
  occupy_block-HasBlock now =
      let k = bit_xor (block_at dict) chr in
      let grown =
        HasBlock-keeps (grow dict) now.allocated (block_at dict)
          (λ j at.
            IsThere-attached (grow dict) now.allocated last node (block_at dict) j now.attached at)
          (HasBlock-grow dict) in
      rw (now.shown, now.block_same)
        (HasBlock-keeps now.allocated (set now.allocated k (occupied last 0xBADD)) (block_at dict)
          (λ j at.
            IsThere-planted now.allocated (set now.allocated k (occupied last 0xBADD)) k
              (occupied last 0xBADD) j
              (IsPlanted-set now.allocated k (occupied last 0xBADD) now.vacant) at)
          grown)

  -- And the block for the next character is there.
  pub extend_path-IsExtended :
      (node_block : ℕ) {r : List DictNode} {idx block : ℕ}
      → HasBlock dict node_block
      → extend_path dict node_block last chr ≡ ok (r, idx, block)
      → IsExtended P dict r last idx (chr ∷ []) × HasBlock r block
  unfolding extend_path
  extend_path-IsExtended node_block {r} {idx} {block} spare e =
      let (next_node, got, e1) = >>=-eq-ok (unwrap (get_node dict (bit_xor node_block chr))) _ e in
      let there : get_elem? dict (bit_xor node_block chr) ≡ some next_node = unwrap-eq-ok _ got in
      elim (Bool-cases (is_free next_node)) [
        | inl vacant ↦
            let run : occupy_node dict node_block last (bit_xor node_block chr)
                ≡ ok (r, idx, block) =
              ground (arith, e1) in
            occupy_node-IsExtended node_block spare (there ∙ ap some (only_free next_node vacant))
              run
        | inr full ↦
            let run : occupy_block dict last chr ≡ ok (r, idx, block) = ground (arith, e1) in
            let now = occupy_block-IsOccupied run in
            (occupy_block-IsExtended now, occupy_block-HasBlock now)
      ]
