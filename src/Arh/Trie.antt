-- ===== src/Arh/Trie.antt =====
-- ardain/src/arh.rs: the path dictionary as a trie, and what freeing a node does to it.
pub mod Decide
pub mod Free
pub mod Links
pub mod Move
pub mod Take
pub mod Grow
pub mod Moved
pub mod Plant
pub mod Room
use ard_tools.Base.{ℕ, ◌<◌, ◌≡◌, ◌≢◌, false, true, some, List, get_elem?, bit_xor}
use ard_tools.Arh.Node.{DictNode, get_previous, get_next}
use ard_tools.Arh.Dict.{child_at}

-- Where a parent's children stand: in the block of 128 nodes that its `next` names.
pub record IsChildOf (nodes : List DictNode) (i p : ℕ) : Type 0 where
  pub parent : DictNode
  pub next : ℕ
  pub there : get_elem? nodes p ≡ some parent
  pub inner : get_next parent ≡ some next
  pub near : bit_xor next i < 128

-- Every node that names a parent stands in its parent's block.
pub record IsTrie (nodes : List DictNode) : Type 0 where
  pub linked : (i p : ℕ) → child_at nodes i p ≡ true → IsChildOf nodes i p

abbrev pub NoChild : List DictNode → ℕ → Type 0
NoChild nodes i = (j : ℕ) → child_at nodes j i ≡ false
