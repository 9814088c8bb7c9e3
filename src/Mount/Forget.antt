-- ===== src/Mount/Forget.antt =====
-- fuse-ard/src/fs.rs: `get_inode_and_save` and `forget` together.
use ard_tools.Base.{
  ℕ, ◌+◌, ◌-◌, ◌%◌, ◌^◌, ◌≤◌, ◌<◌, ◌≡◌, inl, inr, none, some, List, [], ◌∷◌, arith, ◌==◌,
  Bool-cases, Option-cases,
}
use ard_tools.Path.{Text}
use ard_tools.Mount.{
  Mount, Inode, find_inode, save_inode, set_count, remove_inode, hash_name, get_inode_and_save,
  forget,
}

-- Saving and then taking back the one lookup, in the cache.
saved_new :
    (cache : List Inode) (number : ℕ) (full_path : Text)
    → find_inode cache number ≡ none
    → (find_inode (save_inode cache number full_path) number
        ≡ some (record { number = number; path = full_path; count = 1 }))
      × (remove_inode (set_count (save_inode cache number full_path) number 0) number ≡ cache)
unfolding find_inode save_inode set_count remove_inode
saved_new [] number full_path new = (ground arith, ground arith)
saved_new (i ∷ is) number full_path new =
    let (there, back) = saved_new is number full_path (ground arith) in (ground arith, ground arith)

saved_again :
    (cache : List Inode) (number : ℕ) (full_path : Text) (i : Inode)
    → find_inode cache number ≡ some i
    → (find_inode (save_inode cache number full_path) number
        ≡ some (record i { count = (i.count + 1) % 2 ^ 64 }))
      × (set_count (save_inode cache number full_path) number i.count ≡ cache)
unfolding find_inode save_inode set_count
saved_again [] number full_path i known = absurd (ground arith)
saved_again (j ∷ js) number full_path i known = elim (Bool-cases (j.number == number)) [
  | inl e ↦ let same : j ≡ i = ground arith in (ground arith, ground arith)
  | inr e ↦
      let (there, back) = saved_again js number full_path i (ground arith) in
      (ground arith, ground arith)
]

-- A lookup that is counted for a path and then forgotten leaves the state as it was, if the count of a
-- cached inode with its number is at least 1 and not the greatest.
pub forget-get_inode_and_save :
    (hash : Text → ℕ) (m : Mount) (full_path : Text)
    → ((i : Inode)
        → find_inode m.inode_cache (hash_name hash full_path) ≡ some i
        → (1 ≤ i.count) × (i.count + 1 < 2 ^ 64))
    → forget ((get_inode_and_save hash m full_path).0) ((get_inode_and_save hash m full_path).1) 1
      ≡ m
unfolding forget get_inode_and_save
forget-get_inode_and_save hash m full_path counted =
    let number = hash_name hash full_path in
    elim (Option-cases (find_inode m.inode_cache number)) [
      | inl new ↦
          let (there, back) = saved_new m.inode_cache number full_path new in
          ground (arith, there, back)
      | inr (i, known) ↦
          let (there, back) = saved_again m.inode_cache number full_path i known in
          let (least, most) = counted i known in
          let count : (i.count + 1) % 2 ^ 64 - 1 ≡ i.count = omega arith in
          ground (arith, there, back, count)
    ]
