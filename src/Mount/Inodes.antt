-- ===== src/Mount/Inodes.antt =====
-- fuse-ard/src/fs.rs: what the inode of a reply stands for.
use ard_tools.Base.{
  ℕ, ◌+◌, ◌%◌, ◌^◌, ◌≡◌, ◌≢◌, refl, sym, ap, ◌∙◌, inl, inr, none, some, List, [], ◌∷◌, arith, ◌==◌,
  Bool-cases, Option-cases, Run-cases, ok,
}
use ard_tools.Arh.Strings.{ReadLe}
use ard_tools.Path.{Text, arh_path_root}
use ard_tools.Fs.Tree.{DirNode}
use ard_tools.Fs.Tree
use ard_tools.Fs.Lookup.{text_eq}
use ard_tools.Fs.Lookup.Steps.{text_eq-eq}
use ard_tools.Fs.System.{get_file_info}
use ard_tools.Mount.{
  Mount, Inode, Reply, OsStr, FileAttr, entry, attr, find_inode, save_inode, get_path, build_path,
  hash_name, get_inode_and_save, make_dir_attr, make_file_attr, with_path, fuse_err,
}
use ard_tools.Mount.Handlers.{Handled, lookup, getattr, file_reply}

-- No other path is cached under the number of `full_path`.
abbrev pub OwnNumber : (Text → ℕ) → Mount → Text → Type 0
OwnNumber hash m full_path =
    (i : Inode) → find_inode m.inode_cache (hash_name hash full_path) ≡ some i → i.path ≡ full_path

find_inode-save_inode :
    (cache : List Inode) (number : ℕ) (full_path : Text)
    → ((i : Inode) → find_inode cache number ≡ some i → i.path ≡ full_path)
    → (i : Inode) × (find_inode (save_inode cache number full_path) number ≡ some i)
      × (i.path ≡ full_path)
unfolding find_inode save_inode
find_inode-save_inode [] number full_path own =
    (record { number = number; path = full_path; count = 1 }, ground arith, refl)
find_inode-save_inode (i ∷ is) number full_path own = elim (Bool-cases (i.number == number)) [
  | inl e ↦ (record i { count = (i.count + 1) % 2 ^ 64 }, ground arith, own i (ground arith))
  | inr e ↦
      let (found, there, same) =
        find_inode-save_inode is number full_path (λ j h. own j (ground arith)) in
      (found, ground arith, same)
]

module _ (hash : Text → ℕ) (m : Mount) (full_path : Text) (own : OwnNumber hash m full_path)
    (no_root : hash full_path ≢ 1) where
  pub get_path-saved :
      get_path ((get_inode_and_save hash m full_path).0) ((get_inode_and_save hash m full_path).1)
      ≡ some full_path
  unfolding get_path get_inode_and_save hash_name
  get_path-saved = elim (Bool-cases (text_eq full_path arh_path_root)) [
    | inl root ↦
        let same = text_eq-eq full_path arh_path_root root in ground arith ∙ ap some (sym same)
    | inr other ↦
        let (i, there, same) =
          find_inode-save_inode m.inode_cache (hash_name hash full_path) full_path own in
        ground (arith, there) ∙ ap some same
  ]

-- What `getattr` replies where `lookup` replies with an entry.
abbrev pub as_attr : Reply → Reply
as_attr (entry a) = attr a
as_attr reply = reply

dir_ino : (m : Mount) (ino : ℕ) → (make_dir_attr m ino).ino ≡ ino
unfolding make_dir_attr
dir_ino m ino = refl

ok_entry :
    {m n : Mount} {a b : FileAttr}
    → ◌≡◌ {A = Handled} (ok (m, entry a)) (ok (n, entry b))
    → (m ≡ n) × (a ≡ b)
ok_entry e = (cc, cc)

module _ (reader : ReadLe) (hash : Text → ℕ) where
  file_reply-attr :
      (m : Mount) (full_path : Text) (ino : ℕ) {a : FileAttr} {after : Mount}
      → file_reply reader (λ meta. entry (make_file_attr m meta ino)) m full_path
        ≡ ok (after, entry a)
      → (after ≡ m)
        × (a.ino ≡ ino)
        × (file_reply reader (λ meta. attr (make_file_attr m meta ino)) m full_path
            ≡ ok (after, attr a))
  unfolding file_reply make_file_attr
  file_reply-attr m full_path ino e = elim (Run-cases (get_file_info reader m.arh full_path)) [
    | inl (meta, known) ↦ (ground (arith, known), ground (arith, known), ground (arith, known))
    | inr (inl (tt, unknown)) ↦ absurd (ground (arith, unknown))
    | inr (inr panics) ↦ absurd (ground (arith, panics))
  ]

  getattr_dir :
      (m : Mount) (ino : ℕ) {full_path : Text} {dir : DirNode}
      → get_path m ino ≡ some full_path
      → Tree.get_dir m.arh.dir_tree full_path ≡ some dir
      → getattr reader hash m ino ≡ ok (m, attr (make_dir_attr m ino))
  unfolding getattr
  getattr_dir m ino known there = rw (getattr, known, there) refl

  getattr_file :
      (m : Mount) (ino : ℕ) {full_path : Text}
      → get_path m ino ≡ some full_path
      → Tree.get_dir m.arh.dir_tree full_path ≡ none
      → getattr reader hash m ino
        ≡ file_reply reader (λ meta. attr (make_file_attr m meta ino)) m full_path
  unfolding getattr
  getattr_file m ino known no_dir = rw (getattr, known, no_dir) refl

  module _ (m : Mount) (parent : ℕ) (name : OsStr) (full_path : Text)
      (built : build_path m parent name ≡ some (ok full_path)) where
    abbrev kept : Mount
    kept = (get_inode_and_save hash m full_path).0

    abbrev number : ℕ
    number = (get_inode_and_save hash m full_path).1

    lookup_dir :
        {dir : DirNode}
        → Tree.get_dir kept.arh.dir_tree full_path ≡ some dir
        → lookup reader hash m parent name ≡ ok (kept, entry (make_dir_attr kept number))
    unfolding lookup
    lookup_dir there = rw (lookup, with_path, built, fuse_err, there) refl

    lookup_file :
        Tree.get_dir kept.arh.dir_tree full_path ≡ none
        → lookup reader hash m parent name
          ≡ file_reply reader (λ meta. entry (make_file_attr kept meta number)) kept full_path
    unfolding lookup
    lookup_file no_dir = rw (lookup, with_path, built, fuse_err, no_dir) refl

    -- Where `lookup` of a name replies with attributes, `getattr` of the inode that they name then replies
    -- with the same attributes, if no other path is cached under that number and the path's hash is not
    -- that of the root.
    pub lookup-getattr :
        {saved : Mount} {a : FileAttr}
        → OwnNumber hash m full_path
        → hash full_path ≢ 1
        → lookup reader hash m parent name ≡ ok (saved, entry a)
        → getattr reader hash saved a.ino ≡ ok (saved, attr a)
    lookup-getattr {saved} {a} own no_root e =
        let known = get_path-saved hash m full_path own no_root in
        elim (Option-cases (Tree.get_dir kept.arh.dir_tree full_path)) [
          | inl no_dir ↦
              let (same, same_ino, shown) =
                file_reply-attr kept full_path number (sym (lookup_file no_dir) ∙ e) in
              ap (λ n. getattr reader hash n a.ino) same
              ∙ ap (getattr reader hash kept) same_ino
              ∙ getattr_file kept number known no_dir
              ∙ shown
          | inr (dir, found) ↦
              let (same, shown) = ok_entry (sym e ∙ lookup_dir found) in
              ap (λ n. getattr reader hash n a.ino) same
              ∙ ap (getattr reader hash kept)
                  (ap (λ (b : FileAttr). b.ino) shown ∙ dir_ino kept number)
              ∙ getattr_dir kept number known found
              ∙ cc
        ]
