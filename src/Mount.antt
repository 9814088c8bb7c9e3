-- ===== src/Mount.antt =====
-- fuse-ard/src/fs.rs, fuse-ard/src/error.rs: the state of the mount driver, its inodes, attributes and
-- replies. Times are constants of the code and left out.
pub mod Handlers
pub mod Listing
pub mod Inodes
pub mod Forget
pub mod Sync
pub mod WriteBack
mod Checks
use ard_tools.Base.{
  ℕ, zero, suc, ◌+◌, ◌-◌, ◌/◌, ◌%◌, ◌^◌, Bool, true, false, not, ◌&&◌, Option, none, some, List, [],
  ◌∷◌, ◌++◌, ◌==◌, leb, if◌then◌else◌, Run, ok, err, panic,
}
use ard_tools.Arh.Meta.{FileMeta}
use ard_tools.Path.{Text, InvalidPathError, arh_path_root, arh_path_max_len, normalize}
use ard_tools.Fs.Error.{
  Error, path, parse, io, size_convert, ard_decompress, fs_no_entry, fs_already_exists,
  fs_file_name_extended,
}
use ard_tools.Fs.Tree.{DirNode, DirNodes, dir_node, file, directory, nil, cons}
use ard_tools.Fs.Tree
use ard_tools.Fs.Lookup.{text_eq}
use ard_tools.Fs.System.{ArhFileSystem, block_size}
use ard_tools.Buffers.{FileBuffer}

-- The constants of `libc` that the driver replies with.
pub data Errno : Type 0 where
  ebadfd eexist einval eio enoent enotdir enotempty enotsup : Errno

-- `errno` of an error.
abbrev pub errno : Error → Errno
errno (path e) = einval
errno parse = eio
errno io = eio
errno size_convert = eio
errno ard_decompress = eio
errno fs_no_entry = enoent
errno fs_already_exists = eexist
errno fs_file_name_extended = einval

pub data FileType : Type 0 where
  directory_type regular_file : FileType

pub record FileAttr : Type 0 where
  pub ino : ℕ
  pub size : ℕ
  pub kind : FileType
  pub perm : ℕ
  pub nlink : ℕ
  pub uid : ℕ
  pub gid : ℕ

-- An entry of a directory listing: the inode number, the offset, the kind and the name.
pub record Listed : Type 0 where
  pub ino : ℕ
  pub offset : ℕ
  pub kind : FileType
  pub name : Text

-- What a handler replies; `no_reply` is a `reply` that is dropped unused.
pub data Reply : Type 0 where
  error : Errno → Reply
  entry attr : FileAttr → Reply
  listing : List Listed → Reply
  contents : List ℕ → Reply
  opened written : ℕ → Reply
  stats : ℕ → ℕ → ℕ → Reply
  done no_reply : Reply

-- An entry of the inode cache: the key, the path and the count of lookups.
pub record Inode : Type 0 where
  pub number : ℕ
  pub path : Text
  pub count : ℕ

-- `ArhFuseSystem`; the ARD file is its bytes.
pub record Mount : Type 0 where
  pub arh : ArhFileSystem
  pub ard : Option (List ℕ)
  pub inode_cache : List Inode
  pub write_buffers : List FileBuffer
  pub uid : ℕ
  pub gid : ℕ

abbrev pub inode_root : ℕ
inode_root = 1

-- `inode_cache.get`.
unfoldable pub find_inode : List Inode → ℕ → Option Inode
find_inode [] number = none
find_inode (i ∷ is) number =
    let rest = find_inode is number in if i.number == number then some i else rest

-- `inode_cache.entry(hash).and_modify(..).or_insert_with(..)`. The count wraps as in a release build.
unfoldable pub save_inode : List Inode → ℕ → Text → List Inode
save_inode [] number full_path = record { number = number; path = full_path; count = 1 } ∷ []
save_inode (i ∷ is) number full_path =
    let rest = save_inode is number full_path in
    if i.number == number then record i { count = (i.count + 1) % 2 ^ 64 } ∷ is else i ∷ rest

-- `inode_cache.remove`, and the store through `get_mut`.
unfoldable pub remove_inode : List Inode → ℕ → List Inode
remove_inode [] number = []
remove_inode (i ∷ is) number =
    let rest = remove_inode is number in if i.number == number then is else i ∷ rest

unfoldable pub set_count : List Inode → ℕ → ℕ → List Inode
set_count [] number count = []
set_count (i ∷ is) number count =
    let rest = set_count is number count in
    if i.number == number then record i { count = count } ∷ is else i ∷ rest

-- `get_path`.
unfoldable pub get_path : Mount → ℕ → Option Text
get_path m inode =
    if inode == inode_root
    then some arh_path_root
    else elim (find_inode m.inode_cache inode) [ none ↦ none | some i ↦ some i.path ]

-- An `OsStr` by what `to_str` returns.
abbrev pub OsStr : Type 0
OsStr = Option Text

abbrev pub path_error : Run InvalidPathError Text → Run Error Text
path_error (ok p) = ok p
path_error (err e) = err (path e)
path_error panic = panic

-- `build_path`.
unfoldable pub build_path : Mount → ℕ → OsStr → Option (Run Error Text)
build_path m parent_inode name =
    let base = if parent_inode == inode_root then some [] else get_path m parent_inode in
    elim base [
      | none ↦ none
      | some parent ↦ elim name [
        | none ↦ none
        | some n ↦ some (path_error (normalize (parent ++ b'/' ∷ n)))
      ]
    ]

-- ".fuse_ard_dir"
abbrev pub placeholder_name : Text
placeholder_name =
    b'.' ∷ b'f' ∷ b'u' ∷ b's' ∷ b'e' ∷ b'_' ∷ b'a' ∷ b'r' ∷ b'd' ∷ b'_' ∷ b'd' ∷ b'i' ∷ b'r' ∷ []

-- `is_fuse_dir_empty`.
abbrev pub holds_placeholder : DirNodes → Bool
holds_placeholder nil = true
holds_placeholder (cons (dir_node n file) nil) = text_eq n placeholder_name
holds_placeholder (cons (dir_node n (directory children)) nil) = false
holds_placeholder (cons c (cons d cs)) = false

unfoldable pub is_fuse_dir_empty : Mount → Text → Run (Unit {0}) Bool
is_fuse_dir_empty m full_path = elim (Tree.get_dir m.arh.dir_tree full_path) [
  | none ↦ ok true
  | some dir ↦ empty_dir dir
]
  where
    empty_dir : DirNode → Run (Unit {0}) Bool
    empty_dir (dir_node n file) = panic
    empty_dir (dir_node n (directory children)) = ok (holds_placeholder children)

-- `make_dir_attr` and `make_file_attr`.
unfoldable pub make_dir_attr : Mount → ℕ → FileAttr
make_dir_attr m inode = record {
  ino = inode;
  size = 0;
  kind = directory_type;
  perm = 509;
  nlink = 2;
  uid = m.uid;
  gid = m.gid;
}

unfoldable pub make_file_attr : Mount → FileMeta → ℕ → FileAttr
make_file_attr m meta inode =
    let size =
      if meta.uncompressed_size == 0 && not (meta.compressed_size == 48)
      then meta.compressed_size
      else meta.uncompressed_size in
    record {
      ino = inode;
      size = size;
      kind = regular_file;
      perm = 436;
      nlink = 1;
      uid = m.uid;
      gid = m.gid;
    }

-- `fuse_err!`: the value, or a reply with the error's number from the state `m`.
abbrev pub fuse_err {ℓ} :
    {A : Type ℓ}
    → Mount
    → Run Error A
    → (A → Run (Unit {0}) (Mount × Reply))
    → Run (Unit {0}) (Mount × Reply)
fuse_err m (ok a) next = next a
fuse_err m (err e) next = ok (m, error (errno e))
fuse_err m panic next = panic

-- What the handlers of names begin with: the path, or a reply.
abbrev pub with_path :
    Mount → ℕ → OsStr → (Text → Run (Unit {0}) (Mount × Reply)) → Run (Unit {0}) (Mount × Reply)
with_path m parent name next = elim (build_path m parent name) [
  | none ↦ ok (m, error enoent)
  | some full_path ↦ fuse_err m full_path next
]

-- `statfs`: the block counts and file counts (all the same), the block size and the longest name.
unfoldable pub statfs : Mount → Mount × Reply
statfs m =
    let max_size = (2 ^ 32 - 1 + block_size m.arh - 1) / block_size m.arh in
    (m, stats max_size (block_size m.arh) arh_path_max_len)

-- The inodes of a path, where `hash` is what a `DefaultHasher` makes of a text.
module _ (hash : Text → ℕ) where
  -- `hash_name`.
  unfoldable pub hash_name : Text → ℕ
  hash_name name = if text_eq name arh_path_root then inode_root else hash name

  -- `get_inode_and_save`.
  unfoldable pub get_inode_and_save : Mount → Text → Mount × ℕ
  get_inode_and_save m full_path =
      let number = hash_name full_path in
      (record m { inode_cache = save_inode m.inode_cache number full_path }, number)

-- `forget`.
unfoldable pub forget : Mount → ℕ → ℕ → Mount
forget m ino nlookup = elim (find_inode m.inode_cache ino) [
  | none ↦ m
  | some i ↦
      let count = i.count - nlookup in
      let counted = set_count m.inode_cache ino count in
      record m { inode_cache = if count == 0 then remove_inode counted ino else counted }
]
