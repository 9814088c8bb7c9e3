-- ===== src/Fs/Sound.antt =====
-- ardain/src/fs.rs: what `create_file`, `delete_file` and `rename_file` keep of an archive.
pub mod Made
pub mod Create
pub mod Files
pub mod Delete
pub mod Rename
use ard_tools.Base.{ℕ, ◌^◌, ◌≤◌, ◌<◌, ◌≡◌, List, length}
use ard_tools.Arh.Trie.{IsTrie}
use ard_tools.Arh.Trie.Room.{IsRoomy}
use ard_tools.Arh.Strings.{ReadLe}
use ard_tools.Fs.Recycled.{IsRecycled}
use ard_tools.Fs.System.{ArhFileSystem}
use ard_tools.Fs.Chain.Graft.{Offsets}
use ard_tools.Fs.Place.{IsTop, IsNamed}

-- A path dictionary that is a trie from its first node and holds the blocks of all its nodes, whose leaves
-- name a text and an id in the string table, a file table whose ids have 32 bits,
-- and a recycle bin of ids of that table.
pub record IsSound (reader : ReadLe) (fs : ArhFileSystem) : Type 0 where
  pub trie : IsTrie fs.arh.path_dict
  pub top : IsTop fs.arh.path_dict
  pub roomy : IsRoomy fs.arh.path_dict
  pub named : Offsets (IsNamed reader fs.arh.string_table) fs.arh.path_dict
  pub recycled : IsRecycled (length fs.arh.file_table) fs.arh.arh_ext_section
  pub size : length fs.arh.file_table ≤ 2 ^ 32
