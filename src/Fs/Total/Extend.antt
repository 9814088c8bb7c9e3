-- ===== src/Fs/Total/Extend.antt =====
-- ardain/src/fs.rs: the loop of `create_file` that continues the path does not panic.
use ard_tools.Base.{
  ℕ, ◌<◌, ◌≡◌, ◌≢◌, ap, ◌∙◌, inl, inr, true, false, some, List, [], ◌∷◌, arith, ltb, length,
  get_elem?, set, bit_xor, lt_of_get_elem?, Bool-cases, if◌then◌else◌, ok, panic, ℕ_discrete,
  unwrap-ne-panic, >>=-ne-panic, ◌>>=◌,
}
use ard_tools.Bits.Xor.{bit_xor-block}
use ard_tools.Arh.Node.{DictNode, free, occupied, is_free, attach_next}
use ard_tools.Arh.Dict.{get_node, write_node, allocate_new_block}
use ard_tools.Arh.Trie.{IsTrie, NoChild}
use ard_tools.Arh.Trie.Links.{get_elem?-set}
use ard_tools.Arh.Trie.Grow.{block_at, block_free, old_outside}
use ard_tools.Arh.Trie.Plant.{allocate_childless}
use ard_tools.Arh.Trie.Room.{HasBlock}
use ard_tools.Fs.Error.{Error}
use ard_tools.Path.{Text}
use ard_tools.Fs.Create.{attach_at, occupy_node, occupy_block, extend_path, share_path}
use ard_tools.Fs.Chain.Extend.{only_free, extend_path-IsExtended}
use ard_tools.Fs.Grow.Walk.{is_ascii}

pub write_node_there :
    (nodes : List DictNode) (i : ℕ) (x : DictNode) {n : DictNode}
    → get_elem? nodes i ≡ some n
    → write_node nodes i x ≡ some (set nodes i x)
write_node_there nodes i x {n} here = elim (Bool-cases (ltb i (length nodes))) [
  | inl inside ↦ ground arith
  | inr past ↦ absurd (ground (arith, lt_of_get_elem? nodes i n here))
]

pub attach_at_there :
    (nodes : List DictNode) (i next : ℕ) {n : DictNode}
    → get_elem? nodes i ≡ some n
    → attach_at {E = Error} nodes i next ≡ ok (set nodes i (attach_next n next))
unfolding attach_at
attach_at_there nodes i next {n} here =
    ground (arith, here, write_node_there nodes i (attach_next n next) here)

module _ (dict : List DictNode) (last chr : ℕ) (node : DictNode) (trie : IsTrie dict)
    (childless : NoChild dict last) (here : get_elem? dict last ≡ some node)
    (taken : is_free node ≡ false) (small : chr < 128) where
  occupy_node-ne-panic :
      (node_block i : ℕ) → get_elem? dict i ≡ some free → occupy_node dict node_block last i ≢ panic
  unfolding occupy_node
  occupy_node-ne-panic node_block i vacant =
      let apart : i ≢ last = λ same.
        let free_node : node ≡ free = cc (vacant, ap (get_elem? dict) same) in
        cc (ap is_free free_node) in
      let still : get_elem? (set dict i (occupied last 0xFEFE)) last ≡ some node =
        get_elem?-set dict i last (occupied last 0xFEFE) vacant ∙ ground arith in
      unwrap-ne-panic (write_node dict i (occupied last 0xFEFE)) _
        (write_node_there dict i (occupied last 0xFEFE) vacant)
        (λ e. cc (attach_at_there (set dict i (occupied last 0xFEFE)) last node_block still))

  occupy_block-ne-panic : occupy_block dict last chr ≢ panic
  unfolding occupy_block
  occupy_block-ne-panic =
      let (allocated, run, attached) = allocate_childless dict last node trie childless here in
      let vacant : get_elem? allocated (bit_xor (block_at dict) chr) ≡ some free =
        attached.each (bit_xor (block_at dict) chr)
        ∙ ground (
          arith,
          block_free dict (bit_xor (block_at dict) chr),
          bit_xor-block (block_at dict) chr small,
          old_outside dict last here,
        ) in
      unwrap-ne-panic (allocate_new_block dict last) _ run (
        unwrap-ne-panic (write_node allocated (bit_xor (block_at dict) chr) (occupied last 0xBADD))
          _ (write_node_there allocated (bit_xor (block_at dict) chr) (occupied last 0xBADD) vacant)
          (λ e. cc))

  pub extend_path-ne-panic :
      (node_block : ℕ) → HasBlock dict node_block → extend_path dict node_block last chr ≢ panic
  unfolding extend_path
  extend_path-ne-panic node_block spare =
      let (next_node, there) = spare chr small in
      let next : (if is_free next_node
            then occupy_node dict node_block last (bit_xor node_block chr)
            else occupy_block dict last chr)
          ≢ panic =
        elim (Bool-cases (is_free next_node)) [
          | inl vacant ↦ rw vacant (
              occupy_node-ne-panic node_block (bit_xor node_block chr)
                (there ∙ ap some (only_free next_node vacant)))
          | inr full ↦ rw full occupy_block-ne-panic
        ] in
      unwrap-ne-panic (get_node dict (bit_xor node_block chr)) _ there next

pub share_path-ne-panic :
    (dict : List DictNode) (node_block last : ℕ) (os ps : Text) (node : DictNode)
    → IsTrie dict
    → NoChild dict last
    → get_elem? dict last ≡ some node
    → is_free node ≡ false
    → is_ascii os ≡ true
    → HasBlock dict node_block
    → share_path dict node_block last os ps ≢ panic
unfolding share_path
share_path-ne-panic dict node_block last [] ps node trie childless here taken ascii spare e = cc
share_path-ne-panic dict node_block last (o ∷ os) [] node trie childless here taken ascii spare e =
    cc
share_path-ne-panic dict node_block last (o ∷ os) (p ∷ ps) node trie childless here taken ascii
      spare e =
    elim (ℕ_discrete o p) [
      | no other ↦ ground (arith, e)
      | yes same ↦
          let on : (extend_path dict node_block last o >>= λ r. share_path r.0 r.2 r.1 os ps)
              ≡ panic =
            ground (arith, e) in
          >>=-ne-panic (extend_path dict node_block last o) _
            (extend_path-ne-panic dict last o node trie childless here taken (ground arith)
              node_block spare)
            (λ next extends.
              let (first, on_spare) =
                extend_path-IsExtended (λ _. Unit {0}) dict last o node trie childless here taken
                  (ground arith) node_block spare extends in
              share_path-ne-panic next.0 next.2 next.1 os ps first.node first.trie first.childless
                first.here first.taken (ground arith) on_spare)
            on
    ]
