-- ===== src/Mount/Checks.antt =====
-- fuse-ard/src/fs.rs: the handlers run on inputs, and the theorems at inputs.
use ard_tools.Base.{
  ℕ, ◌+◌, ◌*◌, ◌^◌, ◌≡◌, ◌≤◌, ◌<◌, refl, arith, true, Bool, none, some, List, [], ◌∷◌, length, suc,
  ltb, ok,
}
use ard_tools.Path
use ard_tools.Path.{Text}
use ard_tools.Arh.Strings.Reader.{little_endian}
use ard_tools.Fs.Tree
use ard_tools.Fs.Tree.{dir_node, file, directory, nil, cons}
use ard_tools.Fs.Lookup
use ard_tools.Fs.System
use ard_tools.Fs.Sample.{blank}
use ard_tools.Mount
use ard_tools.Mount.{Mount, Listed, FileAttr, error, entry, attr, enoent, directory_type}
use ard_tools.Mount.Handlers
use ard_tools.Mount.Handlers.{dir_entries}
use ard_tools.Mount.Listing
use ard_tools.Mount.Listing.{readdir_pages, readdir_pages-all}
use ard_tools.Mount.Inodes.{lookup-getattr}
use ard_tools.Mount.Forget.{forget-get_inode_and_save}

-- A hash without collisions.
abbrev number_of : Text → ℕ
number_of [] = 7
number_of (c ∷ cs) = c + 256 * number_of cs

-- The directory "/a" and the file "/b" in a tree, and nothing cached.
abbrev two_children : Tree.DirNodes
two_children = cons (dir_node (b'a' ∷ []) (directory nil)) (cons (dir_node (b'b' ∷ []) file) nil)

abbrev mounted : Mount
mounted = record {
  arh = record blank { dir_tree = dir_node (b'/' ∷ []) (directory two_children) };
  ard = none;
  inode_cache = [];
  write_buffers = [];
  uid = 1000;
  gid = 1000;
}

-- A page of two entries.
abbrev two_fit : List Listed → Listed → Bool
two_fit sent e = ltb 1 (length sent)

tree_runs :
    Tree.get_dir mounted.arh.dir_tree (b'/' ∷ [])
    ≡ some (dir_node (b'/' ∷ []) (directory two_children))
unfolding Tree.get_dir Tree.find_dir Tree.split_first
tree_runs = refl

path_runs : Mount.get_path mounted 1 ≡ some (b'/' ∷ [])
unfolding Mount.get_path
path_runs = refl

hash_runs :
    (Listing.all_apart (dir_entries number_of two_children) ≡ true)
    × (Listing.none_at 0 (dir_entries number_of two_children) ≡ true)
unfolding Handlers.dir_entries Mount.hash_name
hash_runs = (refl, refl)

readdir_pages-all_example :
    readdir_pages number_of two_fit mounted 1 (suc (length (dir_entries number_of two_children))) 0
    ≡ some (dir_entries number_of two_children)
readdir_pages-all_example =
    readdir_pages-all number_of two_fit mounted 1 (b'/' ∷ []) (b'/' ∷ []) two_children path_runs
      tree_runs (λ e. refl) hash_runs.0 hash_runs.1

-- "/a", as `lookup` builds it from the root and "A".
abbrev path_a : Text
path_a = b'/' ∷ b'a' ∷ []

build_runs : Mount.build_path mounted 1 (some (b'A' ∷ [])) ≡ some (ok path_a)
unfolding Mount.build_path Mount.get_path Path.normalize Path.from_str Path.normal_text
    Path.normalize_loop Path.find_illegal Path.has_consecutive
build_runs = refl

abbrev dir_found : FileAttr
dir_found = record {
  ino = 47 + 256 * (97 + 256 * 7);
  size = 0;
  kind = directory_type;
  perm = 509;
  nlink = 2;
  uid = 1000;
  gid = 1000;
}

abbrev looked_up : Mount
looked_up = record mounted {
  inode_cache = record { number = 47 + 256 * (97 + 256 * 7); path = path_a; count = 1 } ∷ [];
}

lookup_runs :
    Handlers.lookup little_endian number_of mounted 1 (some (b'A' ∷ []))
    ≡ ok (looked_up, entry dir_found)
unfolding Handlers.lookup Mount.build_path Mount.get_path Path.normalize Path.from_str
    Path.normal_text Path.normalize_loop Path.find_illegal Path.has_consecutive
    Mount.get_inode_and_save Mount.hash_name Mount.save_inode Mount.make_dir_attr Tree.get_dir
    Tree.find_dir Tree.split_first Tree.search_child Tree.compare_text
lookup_runs = refl

none_cached :
    (i : Mount.Inode)
    → Mount.find_inode mounted.inode_cache (Mount.hash_name number_of path_a) ≡ some i
    → i.path ≡ path_a
unfolding Mount.find_inode
none_cached i known = cc

lookup-getattr_example :
    Handlers.getattr little_endian number_of looked_up dir_found.ino
    ≡ ok (looked_up, attr dir_found)
lookup-getattr_example =
    lookup-getattr little_endian number_of mounted 1 (some (b'A' ∷ [])) path_a build_runs
      none_cached (λ e. ground arith) lookup_runs

-- A name that is not there.
unlink_runs :
    Handlers.unlink little_endian number_of mounted 1 (some (b'c' ∷ []))
    ≡ ok (mounted, error enoent)
unfolding Handlers.unlink Mount.build_path Mount.get_path Path.normalize Path.from_str
    Path.normal_text Path.normalize_loop Path.find_illegal Path.has_consecutive System.delete_file
    Lookup.get_file_id Lookup.walk_root Lookup.walk
unlink_runs = refl

counted_once :
    (i : Mount.Inode)
    → Mount.find_inode looked_up.inode_cache (Mount.hash_name number_of path_a) ≡ some i
    → (1 ≤ i.count) × (i.count + 1 < 2 ^ 64)
unfolding Mount.find_inode Mount.hash_name
counted_once i known =
    let count : 1 ≡ i.count = ground arith in (omega (arith, count), omega (arith, count))

forget-get_inode_and_save_example :
    Mount.forget
      ((Mount.get_inode_and_save number_of looked_up path_a).0)
      ((Mount.get_inode_and_save number_of looked_up path_a).1)
      1
    ≡ looked_up
forget-get_inode_and_save_example =
    forget-get_inode_and_save number_of looked_up path_a counted_once
