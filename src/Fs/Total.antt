-- ===== src/Fs/Total.antt =====
-- ardain/src/fs.rs: on a sound archive the lookup and `create_file` do not panic, and when
-- lookups panic after `delete_file`.
pub mod Lookup
pub mod Follow
pub mod Extend
pub mod Find
pub mod Create
pub mod Delete
