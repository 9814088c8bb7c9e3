-- ===== src/Fs.antt =====
-- ardain/src/fs.rs, part by part, with the errors of ardain/src/error.rs.
pub mod Error
pub mod Tree
pub mod Lookup
pub mod Create
pub mod System
pub mod Delete
pub mod Keep
pub mod Grow
pub mod Held
pub mod Place
pub mod Recycled
pub mod Sound
pub mod Total
pub mod Rename
pub mod Names
pub mod Chain
pub mod Sample
pub mod Load
mod Checks
