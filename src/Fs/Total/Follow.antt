-- ===== src/Fs/Total/Follow.antt =====
-- ardain/src/fs.rs: the loop of `create_file` that follows the path does not panic.
use ard_tools.Base.{
  ℕ, ◌≡◌, ◌≢◌, inl, inr, true, false, some, List, [], ◌∷◌, arith, get_elem?, bit_xor, Bool-cases,
  panic,
}
use ard_tools.Arh.Node.{DictNode, is_child, is_leaf, is_free}
use ard_tools.Arh.Trie.Room.{IsRoomy}
use ard_tools.Path.{Text}
use ard_tools.Fs.Grow.Walk.{is_ascii}
use ard_tools.Fs.Create.{follow}
use ard_tools.Fs.Total.Lookup.{inner_next, child_taken}

pub follow-ne-panic :
    (nodes : List DictNode) (i : ℕ) (node : DictNode) (last_parent : ℕ) (path : Text)
    → IsRoomy nodes
    → get_elem? nodes i ≡ some node
    → is_free node ≡ false
    → is_ascii path ≡ true
    → follow nodes i node last_parent path ≢ panic
unfolding follow
follow-ne-panic nodes i node last_parent [] roomy here full ascii e =
    elim (Bool-cases (is_leaf node)) [ inl l ↦ ground (arith, e) | inr l ↦ ground (arith, e) ]
follow-ne-panic nodes i node last_parent (c ∷ cs) roomy here full ascii e =
    elim (Bool-cases (is_leaf node)) [
      | inl l ↦ ground (arith, e)
      | inr l ↦
          let (next, on) = inner_next node full l in
          let (child, there) = roomy i node next here on c (ground arith) in
          elim (Bool-cases (is_child child i)) [
            | inr stray ↦ ground (arith, e)
            | inl linked ↦
                let goes : follow nodes (bit_xor next c) child i cs ≡ panic = ground (arith, e) in
                follow-ne-panic nodes (bit_xor next c) child i cs roomy there
                  (child_taken child i linked) (ground arith) goes
          ]
    ]
