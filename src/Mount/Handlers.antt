-- ===== src/Mount/Handlers.antt =====
-- fuse-ard/src/fs.rs: the handlers of `Filesystem`, each with the state that it leaves and its reply.
use ard_tools.Base.{
  ℕ, ◌^◌, Bool, not, ◌||◌, Option, none, some, List, [], ◌∷◌, ◌++◌, ◌==◌, leb, bit_and,
  if◌then◌else◌, length, set, Run, ok, err, panic,
}
use ard_tools.Arh.Meta.{FileMeta, get_meta}
use ard_tools.Arh.Strings.{ReadLe}
use ard_tools.Path.{Text, join}
use ard_tools.Fs.Error.{Error}
use ard_tools.Fs.Tree.{DirNode, DirNodes, dir_node, file, directory, nil, cons}
use ard_tools.Fs.Tree
use ard_tools.Fs.System.{
  ArhFileSystem, get_file_info, exists, create_file, delete_file, rename_file, delete_empty_dir,
}
use ard_tools.Fs.Rename.{rename_dir}
use ard_tools.Ard
use ard_tools.Ard.{Decompressor, skip_take}
use ard_tools.Buffers.{FileBuffer, truncate, open_buffer, get_handle}
use ard_tools.Buffers
use ard_tools.Mount.{
  Mount, Reply, Listed, FileType, OsStr, errno, error, entry, attr, listing, contents, opened,
  written, done, no_reply, ebadfd, eexist, enoent, enotdir, enotempty, enotsup, directory_type,
  regular_file, with_path, fuse_err, get_path, make_dir_attr, make_file_attr, hash_name,
  get_inode_and_save, is_fuse_dir_empty, placeholder_name,
}

-- A state and a reply, or a panic.
abbrev pub Handled : Type 0
Handled = Run (Unit {0}) (Mount × Reply)

-- `position(|e| e.1 == offset)` and `skip`: what is listed behind the entry at `offset`.
abbrev pub behind : List Listed → ℕ → Option (List Listed)
behind [] offset = none
behind (e ∷ es) offset = let rest = behind es offset in if e.offset == offset then some es else rest

abbrev pub skip_sent : List Listed → ℕ → List Listed
skip_sent entries offset = elim (behind entries offset) [ none ↦ entries | some rest ↦ rest ]

-- The loop of `reply.add`, which returns whether an entry no longer fits behind those sent.
unfoldable pub add_all : (List Listed → Listed → Bool) → List Listed → List Listed → List Listed
add_all full sent [] = sent
add_all full sent (e ∷ es) =
    let rest = add_all full (sent ++ e ∷ []) es in if full sent e then sent else rest

-- `*buffer = ..` behind a handle.
abbrev pub push_operation : Mount → ℕ → FileBuffer → Buffers.Operation → Mount
push_operation m fh buffer op = record m {
  write_buffers =
      set m.write_buffers fh (record buffer { operations = buffer.operations ++ op ∷ [] });
}

abbrev pub type_of : DirNode → FileType
type_of (dir_node n file) = regular_file
type_of (dir_node n (directory children)) = directory_type

module _ (hash : Text → ℕ) where
  abbrev pub list_children : DirNodes → List Listed
  list_children nil = []
  list_children (cons c cs) =
      record {
        ino = 2;
        offset = hash_name hash (Tree.name c);
        kind = type_of c;
        name = Tree.name c;
      }
      ∷ list_children cs

  -- The entries of a directory: `.`, `..` and its children.
  unfoldable pub dir_entries : DirNodes → List Listed
  dir_entries children =
      record {
        ino = 1;
        offset = hash_name hash (b'.' ∷ []);
        kind = directory_type;
        name = b'.' ∷ [];
      }
      ∷ record {
        ino = 1;
        offset = hash_name hash (b'.' ∷ b'.' ∷ []);
        kind = directory_type;
        name = b'.' ∷ b'.' ∷ [];
      }
      ∷ list_children children

  unfoldable pub readdir : (List Listed → Listed → Bool) → Mount → ℕ → ℕ → Mount × Reply
  readdir full m ino offset = elim (get_path m ino) [
    | none ↦ (m, error enoent)
    | some full_path ↦ elim (Tree.get_dir m.arh.dir_tree full_path) [
      | none ↦ (m, error enoent)
      | some dir ↦ elim dir [
        | dir_node n entries ↦ elim entries [
          | file ↦ (m, error enotdir)
          | directory children ↦
              (m, listing (add_all full [] (skip_sent (dir_entries children) offset)))
        ]
      ]
    ]
  ]

module _ (reader : ReadLe) where
  -- The end of `lookup`, `getattr` and `setattr`.
  unfoldable pub file_reply : (FileMeta → Reply) → Mount → Text → Handled
  file_reply reply m full_path = elim (get_file_info reader m.arh full_path) [
    | ok meta ↦ ok (m, reply meta)
    | err e ↦ ok (m, error enoent)
    | panic ↦ panic
  ]

module _ (reader : ReadLe) (hash : Text → ℕ) where
  unfoldable pub lookup : Mount → ℕ → OsStr → Handled
  lookup m parent name = with_path m parent name (λ full_path.
      let (saved, ino) = get_inode_and_save hash m full_path in
      elim (Tree.get_dir saved.arh.dir_tree full_path) [
        | some dir ↦ ok (saved, entry (make_dir_attr saved ino))
        | none ↦ file_reply reader (λ meta. entry (make_file_attr saved meta ino)) saved full_path
      ])

  unfoldable pub getattr : Mount → ℕ → Handled
  getattr m ino = elim (get_path m ino) [
    | none ↦ ok (m, error enoent)
    | some full_path ↦ elim (Tree.get_dir m.arh.dir_tree full_path) [
      | some dir ↦ ok (m, attr (make_dir_attr m ino))
      | none ↦ file_reply reader (λ meta. attr (make_file_attr m meta ino)) m full_path
    ]
  ]

  -- `if let (Some(fh), Some(sz))` of `setattr`.
  unfoldable pub truncate_handle : Mount → Option ℕ → Option ℕ → Mount
  truncate_handle m (some fh) (some size) = elim (get_handle m.write_buffers fh) [
    | none ↦ m
    | some buffer ↦ push_operation m fh buffer (truncate size)
  ]
  truncate_handle m fh size = m

  unfoldable pub setattr : Mount → ℕ → Option ℕ → Option ℕ → Handled
  setattr m ino fh size =
      let cut = truncate_handle m fh size in
      elim (get_path cut ino) [
        | none ↦ ok (cut, error enoent)
        | some full_path ↦
            file_reply reader (λ meta. attr (make_file_attr cut meta ino)) cut full_path
      ]

  -- `read`: an `i64` below 0 is an offset of at least 2^63.
  unfoldable pub read : Decompressor → Mount → ℕ → ℕ → ℕ → Handled
  read xbc1 m ino offset size = elim (get_path m ino) [
    | none ↦ ok (m, error enoent)
    | some full_path ↦ elim (get_file_info reader m.arh full_path) [
      | err e ↦ ok (m, error enoent)
      | panic ↦ panic
      | ok meta ↦ if leb (2 ^ 63) offset then panic else elim m.ard [
        | none ↦ ok (m, error enotsup)
        | some bytes ↦
            fuse_err m (Ard.read_range xbc1 bytes (skip_take (Ard.entry meta) offset size))
              (λ found. ok (m, contents found))
      ]
    ]
  ]

  unfoldable pub mknod : Mount → ℕ → OsStr → Handled
  mknod m parent name = with_path m parent name (λ full_path.
      let (saved, inode) = get_inode_and_save hash m full_path in
      fuse_err saved (create_file reader saved.arh full_path) (λ created.
        let made = record saved { arh = created.0 } in
        elim (get_meta created.0.arh.file_table created.1) [
          | none ↦ panic
          | some meta ↦ ok (made, entry (make_file_attr made meta inode))
        ]))

  -- `mkdir` once the path of the hidden file is known.
  unfoldable pub make_placeholder : Mount → Text → Text → Handled
  make_placeholder m full_path placeholder =
      fuse_err m (create_file reader m.arh placeholder) (λ created.
        let (saved, inode) = get_inode_and_save hash (record m { arh = created.0 }) placeholder in
        elim (Tree.get_dir saved.arh.dir_tree full_path) [
          | none ↦ panic
          | some dir ↦ ok (saved, entry (make_dir_attr saved inode))
        ])

  -- `mkdir` behind its path.
  unfoldable pub make_dir : Mount → Text → Handled
  make_dir m full_path = elim (exists reader m.arh full_path) [
    | panic ↦ panic
    | err e ↦ panic
    | ok there ↦
        let made = fuse_err m (join full_path placeholder_name) (make_placeholder m full_path) in
        if there then ok (m, error eexist) else made
  ]

  unfoldable pub mkdir : Mount → ℕ → OsStr → Handled
  mkdir m parent name = with_path m parent name (make_dir m)

  unfoldable pub unlink : Mount → ℕ → OsStr → Handled
  unlink m parent name = with_path m parent name (λ full_path.
      fuse_err m (delete_file reader m.arh full_path)
        (λ deleted. ok (record m { arh = deleted }, done)))

  -- `delete_file(..).ok()`: the file system without the placeholder, if there was one.
  abbrev pub without : ArhFileSystem → Run Error ArhFileSystem → Run (Unit {0}) ArhFileSystem
  without fs (ok deleted) = ok deleted
  without fs (err e) = ok fs
  without fs panic = panic

  unfoldable pub clear_dir : Mount → Text → Text → Handled
  clear_dir m full_path placeholder = elim (without m.arh (delete_file reader m.arh placeholder)) [
    | panic ↦ panic
    | err e ↦ panic
    | ok cleared ↦
        fuse_err (record m { arh = cleared }) (delete_empty_dir cleared full_path)
          (λ gone. ok (record m { arh = gone }, done))
  ]

  unfoldable pub remove_dir : Mount → Text → Handled
  remove_dir m full_path = elim (is_fuse_dir_empty m full_path) [
    | panic ↦ panic
    | err e ↦ panic
    | ok empty ↦
        let removed = fuse_err m (join full_path placeholder_name) (clear_dir m full_path) in
        if empty then removed else ok (m, error enotempty)
  ]

  unfoldable pub rmdir : Mount → ℕ → OsStr → Handled
  rmdir m parent name = with_path m parent name (remove_dir m)

  -- `fuse_err!` of a rename, which leaves a file system also where it fails.
  abbrev pub renamed : Mount → Run Error (ArhFileSystem × Option Error) → Handled
  renamed m panic = panic
  renamed m (err e) = ok (m, error (errno e))
  renamed m (ok (fs, some e)) = ok (record m { arh = fs }, error (errno e))
  renamed m (ok (fs, none)) = ok (record m { arh = fs }, done)

  unfoldable pub rename_at : Mount → Text → Text → Handled
  rename_at m old_name new_name = elim (Tree.get_dir m.arh.dir_tree old_name) [
    | some dir ↦ renamed m (rename_dir reader m.arh old_name new_name)
    | none ↦ elim (get_file_info reader m.arh old_name) [
      | ok meta ↦ renamed m (rename_file reader m.arh old_name new_name)
      | err e ↦ ok (m, no_reply)
      | panic ↦ panic
    ]
  ]

  unfoldable pub rename : Mount → ℕ → OsStr → ℕ → OsStr → Handled
  rename m old_parent old_name new_parent new_name =
      with_path m old_parent old_name
        (λ old_path. with_path m new_parent new_name (rename_at m old_path))

  -- `open`: O_WRONLY is 1, O_RDWR is 2.
  unfoldable pub open_file : Mount → ℕ → ℕ → Handled
  open_file m ino flags =
      if not (bit_and flags 2 == 0) || not (bit_and flags 1 == 0)
      then elim (get_path m ino) [
        | none ↦ ok (m, error enoent)
        | some full_path ↦ elim (get_file_info reader m.arh full_path) [
          | err e ↦ ok (m, error enoent)
          | panic ↦ panic
          | ok meta ↦
              let (files, fd) = open_buffer m.write_buffers full_path in
              ok (record m { write_buffers = files }, opened fd)
        ]
      ]
      else ok (m, opened ino)

-- `write`: an `i64` below 0 is an offset of at least 2^63, and the length must fit a `u32`.
unfoldable pub write_file : Mount → ℕ → ℕ → List ℕ → Handled
write_file m fh offset bytes = elim (get_handle m.write_buffers fh) [
  | none ↦ ok (m, error ebadfd)
  | some buffer ↦
      if leb (2 ^ 63) offset || leb (2 ^ 32) (length bytes)
      then panic
      else ok (push_operation m fh buffer (Buffers.write offset bytes), written (length bytes))
]

-- `release`.
unfoldable pub release : Mount → ℕ → Mount × Reply
release m fh = (record m { write_buffers = Buffers.release m.write_buffers fh }, done)
