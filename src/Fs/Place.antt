-- ===== src/Fs/Place.antt =====
-- ardain/src/fs.rs: what `create_file` finds, the place of a new leaf.
pub mod Follow
pub mod Part
pub mod Leaf
pub mod Diverge
pub mod Found
use ard_tools.Base.{
  ℕ, ◌+◌, ◌≤◌, length, ◌^◌, ◌<◌, ◌≡◌, List, [], ◌∷◌, ◌++◌, none, some, true, get_elem?, bit_xor,
  All,
}
use ard_tools.Arh.Node.{DictNode, free, get_previous, get_next}
use ard_tools.Arh.Trie.{IsTrie}
use ard_tools.Arh.Strings.{ReadLe, get_str_part_id}
use ard_tools.Arh.Strings.Laws.{IsNameByte}
use ard_tools.Arh.Trie.Room.{IsRoomy}
use ard_tools.Path.{Text}
use ard_tools.Fs.Grow.Walk.{is_ascii}
use ard_tools.Fs.Create.{Place}
use ard_tools.Fs.Chain.{Chain}
use ard_tools.Fs.Chain.Graft.{Offsets}
use ard_tools.Fs.Held.{IsHeld}

-- The first node is there, and is no child.
abbrev pub IsTop : List DictNode → Type 0
IsTop nodes = (node : DictNode) × (get_elem? nodes 0 ≡ some node) × (get_previous node ≡ none)

module _ (reader : ReadLe) where
  -- At the offset stand a text of name bytes and a 32-bit id.
  abbrev pub IsNamed : List ℕ → ℕ → Type 0
  IsNamed strings offset =
      (text : Text) × (id : ℕ) × (get_str_part_id reader strings offset ≡ some (text, id))
      × All IsNameByte text
      × (id < 2 ^ 32)

  -- Between two states of the dictionary and the string table, the files of ASCII paths are kept.
  abbrev pub KeepsFiles : List DictNode → List ℕ → List DictNode → List ℕ → Type 0
  KeepsFiles nodes strings after table =
      (other : Text) (id leaf_id : ℕ)
      → is_ascii other ≡ true
      → IsHeld reader nodes strings other id leaf_id
      → (new : ℕ) × IsHeld reader after table other id new

  -- And no file of an ASCII path is new.
  abbrev pub AddsNone : List DictNode → List ℕ → List DictNode → List ℕ → Type 0
  AddsNone nodes strings after table =
      (other : Text) (id leaf_id : ℕ)
      → is_ascii other ≡ true
      → IsHeld reader after table other id leaf_id
      → (old : ℕ) × IsHeld reader nodes strings other id old

  -- A free node for the leaf of the path, behind the node that the path up to its rest leads to.
  pub record IsPlaced (nodes : List DictNode) (strings : List ℕ) (path : Text) (place : Place)
      : Type 0 where
    pub trie : IsTrie place.dict
    pub top : IsTop place.dict
    pub vacant : get_elem? place.dict place.index ≡ some free
    pub pre : Text
    pub chr : ℕ
    pub splits : path ≡ pre ++ chr ∷ place.rest
    pub chain : Chain place.dict 0 pre place.parent
    pub parent : DictNode
    pub there : get_elem? place.dict place.parent ≡ some parent
    pub next : ℕ
    pub on : get_next parent ≡ some next
    pub at : bit_xor next chr ≡ place.index
    pub named : Offsets (IsNamed place.strings) place.dict
    pub roomy : IsRoomy place.dict
    pub table : length place.strings ≤ length strings + length strings + 5
    pub keep : KeepsFiles nodes strings place.dict place.strings
    pub adds : AddsNone nodes strings place.dict place.strings
