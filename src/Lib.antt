-- ===== src/Lib.antt =====
-- Models and theorems for ardain, the library of this repository that reads and changes the archives
-- of the Xenoblade games: an ARH file (the file system) beside an ARD file (the data).
--
-- The program. An `Arh` (ardain/src/arh.rs) holds a string table, a path dictionary, a file table and,
-- written by this library alone, an extended section (ardain/src/arh_ext.rs) with a table of allocated
-- blocks of the ARD file and a bin of file ids that are free. The path dictionary is an XOR trie: a
-- node's child for a character `c` stands at `next ^ c` and names its parent; a leaf names an offset of
-- the string table, where the rest of the path and the file's id stand. `ArhFileSystem`
-- (ardain/src/fs.rs) looks files up by walking the trie, and creates, deletes and renames them; it also
-- keeps a tree of the directories. The layout of the file is described in docs/arh.md.
--
-- The files.
-- Base, Base/Outcome, Base/Partial, Base/Sorted, Base/Lists, Base/Tests: shared helpers. `Run` is a
--   result or an error or a panic; an `Option` stands for a result or a panic where there are no errors,
--   and each file says so. Base/Sorted has the binary search of sorted vectors.
-- Bits, Bits/Step, Bits/Xor, Bits/Zeros: bits of machine words, the laws of `^` on them, and their
--   leading and trailing zeros.
-- Path, Path/Valid, Path/Normalize: ardain/src/path.rs. A `str` is a list of code points, and
--   `from_str`, `normalize`, `try_join` and `join` are the functions of these names.
-- Arh/Node: `DictNode`, its raw form and its methods, of ardain/src/arh.rs.
-- Arh/Strings and below it Laws, Size, Reader: `StringTable` of ardain/src/arh.rs. The read of a `u32` is
--   code of the `binrw` crate, and the parameter `ReadLe`: it reads a number back from its bytes, and
--   more bytes behind do not change what it reads. Arh/Strings/Reader has one that does this. Size is
--   about the lengths of the table and of what it holds.
-- Arh/Meta, Arh/Meta/Flags, Arh/Meta/Table: `FileMeta` and `FileTable` of ardain/src/arh.rs.
-- Arh/Dict, Arh/Dict/Free: `PathDictionary` of ardain/src/arh.rs.
-- Arh/Trie: when a dictionary is a trie. Below it Decide tests for it; Free is about freeing nodes, and
--   Links, Move, Take, Grow and Moved are about `allocate_new_block`: the links below a child, the
--   children that have moved after so many rounds, one round, the new block, and the result. Plant is
--   about a free node that is taken and a node that gets its first block, and Room about the nodes of the
--   blocks, which an index must not be behind.
-- Arh/FullPath: `get_full_path`, on fuel. Fs/Names: its agreement with `get_file_id`.
-- Arh/Recycle: `FileRecycleBin` of ardain/src/arh_ext.rs.
-- Arh/Blocks and below it Mark, Scan, Find, Space: `BlockAllocTable` of ardain/src/arh_ext.rs.
-- Arh/State, Arh/State/Layout: `Arh` with `prepare_for_write` and `get_or_init_ext` of
--   ardain/src/arh.rs, and ardain/src/opts.rs.
-- Arh/Decrypt: `EncryptedSection::decrypt` of ardain/src/arh.rs, of the bytes that the stream has.
-- Fs/Error: ardain/src/error.rs. Fs/Tree: the directory tree of ardain/src/fs.rs.
-- Fs/Lookup, Fs/Lookup/Steps: `get_file_id`. Fs/Create: how `create_file` finds a place for its leaf.
-- Fs/System: the operations of `ArhFileSystem`. Fs/Delete: what a deletion does to lookups. Fs/Keep: to
--   those of other files. Fs/Grow, Fs/Grow/Walk: what a block allocation does to lookups.
-- Fs/Chain: the way of a path through the dictionary. Below it Back and Unique are about the ways there
--   were before a change and about the one way to a node, Grown about `allocate_new_block`, and Graft,
--   Child, Extend and Share about the loop of `create_file` over the characters that two names share.
-- Fs/Held: a file that is held, which `get_file_id` finds. Fs/Place: the free node that `create_file`
--   finds; below it Follow, Leaf, Part, Diverge and Found are about its parts `follow`, `split_leaf`,
--   `part_names`, `diverge` and `find_place`.
-- Fs/Recycled: the ids in the recycle bin. Fs/Sound: when an archive is sound. Below it Made and Create
--   are about `create_file`, Files about the map from paths to ids that an archive is, Delete about
--   `delete_file`, and Rename about `rename_file` and about runs of the three.
-- Fs/Total: when the code does not panic. Below it Lookup is about `get_file_info`, Follow, Extend, Find
--   and Create are about `create_file`, part by part, and Delete is about lookups after `delete_file`.
-- Fs/Rename, Fs/Rename/Paths: `children_paths` and `rename_dir`. Fs/Sample: an archive for the runs.
-- Fs/Load: `DirNode::build`, `load_with_options` and `sync` of ardain/src/fs.rs, with the reader and the
--   writer of the format as parameters.
-- Ard, Ard/Ranges: `ArdReader` and the readers of an entry, of ardain/src/ard.rs. The format XBC1 and its
--   decompression are code of the `xc3_lib` crate, and the parameter `Decompressor`.
-- Alloc, Alloc/Place, Alloc/Files, Alloc/Stored: `ArdFileAllocator` of ardain/src/file_alloc.rs. The
--   `xc3_lib` crate is the parameter `Xbc1Lib` and the file that is written the parameter `Output`; the
--   theorems assume nothing of either but what they state.
-- Buffers, Buffers/Laws: `FileBuffers` and `Operation` of fuse-ard/src/write.rs. Buffers/Flush: `flush` and
--   `flush_all`, which compose the lookup, the read, the operations and the allocator. The file behind
--   `StandardArdFile` is the parameter `ArdFile`: its bytes, written at an offset. Below it Stored and ReadBack
--   say where the data are after, on what `IsFile` and `IsFormat` state of the file and the format, and
--   Errors what a failure leaves; Sample has a file and a format for the runs.
-- Mount: the state, inodes and attributes of fuse-ard/src/fs.rs, and fuse-ard/src/error.rs; a handler's
--   use of its `reply` is the value `Reply`, and the hash of a name a parameter. Mount/Handlers: the
--   handlers. Mount/Listing: the pages of `readdir`. Mount/Inodes: `lookup` and `getattr`. Mount/Forget:
--   the counts of lookups. Mount/Sync: `flush`, `fsync`, `destroy` and the load.
--   Mount/WriteBack: a write, a flush and a read, one after the other.
-- Remove: the command of ard-tools/src/rm.rs that removes or hides files.
-- ListCommand: the command of ard-tools/src/ls.rs that lists a directory. ListCommand/Columns: its table.
-- CommandLine: ard-tools/src/main.rs, which loads the file system for a command and writes it after.
-- MountCommand: fuse-ard/src/main.rs, up to the mount.
-- Path/Checks, Arh/Checks, Fs/Checks, Alloc/Checks, Ard/Checks, Buffers/Checks, Mount/Checks,
--   Remove/Checks, ListCommand/Checks, Buffers/Flush/Checks, Mount/WriteBack/Checks: the model run on inputs.
--
-- State is passed explicitly: an operation takes the old value of what it changes and gives the new one.
-- Mutable borrows do not outlive the operations, so nothing is aliased. A number of `w` bits is a
-- natural number, with `% 2 ^ w` or a test of the bound where the code's value can leave its type;
-- overflows that a debug build traps are panics, with these exceptions: the indices of nodes are
-- assumed to be below 2 ^ 31 (Arh/Dict); `mark` is assumed to stay below 2 ^ 64, with a
-- `block_size_pow` below 64 (Arh/Blocks); and the count of an inode's lookups wraps (Mount), as in a
-- release build.
--
-- Loops. The walks over a path recurse on the path, those over slots and nodes on the list. These loops
-- have fuel: `free_node_recursive` has one round more than the dictionary has nodes, since each round
-- but the last frees one that was in use; the shifting of a mask within a slot has 64 rounds, since the
-- mask's highest bit is set by then; `children_paths` has a round for each node of the tree; the digits of
-- a size are 10 and those of an offset 16 at most, for 32 and 64 bits; `get_full_path` needs a round for each character of the path, and
-- `build` gives it one for each node of the dictionary.
--
-- Not modelled: the binary formats that the `binrw` crate derives; the parsing of arguments, which the
-- `clap` crate does; the mount itself, which the `fuser` crate does; logging and times; and the position
-- of a file, which the code sets before each read and write.
mod Base
mod Bits
pub mod Path
pub mod Arh
pub mod Fs
pub mod Alloc
pub mod Ard
pub mod Buffers
pub mod Mount
pub mod Remove
pub mod ListCommand
pub mod CommandLine
pub mod MountCommand
