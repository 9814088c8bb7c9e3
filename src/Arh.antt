-- ===== src/Arh.antt =====
-- ardain/src/arh.rs, part by part, and ardain/src/arh_ext.rs, whose section it holds.
pub mod Node
pub mod Strings
pub mod Meta
pub mod Recycle
pub mod Dict
pub mod Trie
pub mod FullPath
pub mod Blocks
pub mod State
pub mod Decrypt
mod Checks
