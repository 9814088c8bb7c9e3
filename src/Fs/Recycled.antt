-- ===== src/Fs/Recycled.antt =====
-- ardain/src/fs.rs: the ids in the recycle bin are ids of the file table.
use ard_tools.Base.{
  ℕ, ◌≤◌, ◌<◌, ◌≡◌, inl, inr, Option, none, some, List, [], ◌∷◌, arith, All, Bool-cases,
}
use ard_tools.Arh.Recycle
use ard_tools.Arh.Recycle.{FileRecycleBin, All-push, All-pop}
use ard_tools.Arh.Meta.{FileMeta, pop_bin}
use ard_tools.Arh.State.{ArhOptions, ArhExtSection, keeps_section, init_section, new_section}
use ard_tools.Fs.System.{section_bin, set_bin}

-- The ids that wait to be given back.
abbrev pub recycled_ids : Option ArhExtSection → List ℕ
recycled_ids none = []
recycled_ids (some ext) = ext.file_meta_recycle_bin.file_ids

-- They are below the size of the file table.
abbrev pub IsRecycled : ℕ → Option ArhExtSection → Type 0
IsRecycled size ext = All (λ id. id < size) (recycled_ids ext)

All-below : (a b : ℕ) (xs : List ℕ) → a ≤ b → All (λ x. x < a) xs → All (λ x. x < b) xs
All-below a b [] le h = tt
All-below a b (x ∷ xs) le h = (omega (arith, h.0), All-below a b xs le h.1)

-- An id that is given back is one of the table, and the others stay.
pub IsRecycled-pop :
    (size after : ℕ) (ext : Option ArhExtSection)
    → size ≤ after
    → IsRecycled size ext
    → IsRecycled after (set_bin ext (pop_bin (section_bin ext)).1)
      × ((id : ℕ) → (pop_bin (section_bin ext)).0 ≡ some id → id < size)
IsRecycled-pop size after none le h = (tt, λ id e. cc)
IsRecycled-pop size after (some ext) le h =
    let (rest, given) = All-pop (λ id. id < size) ext.file_meta_recycle_bin h in
    (All-below size after (Recycle.pop ext.file_meta_recycle_bin).1.file_ids le rest, given)

-- The section that `get_or_init_ext` gives, with one more id in its bin.
pub IsRecycled-push :
    (size : ℕ) (files : List FileMeta) (opts : ArhOptions) (ext : Option ArhExtSection) (id : ℕ)
    → id < size
    → IsRecycled size ext
    → All
        (λ k. k < size)
        (Recycle.push (init_section files opts ext).file_meta_recycle_bin id).file_ids
unfolding new_section
IsRecycled-push size files opts none id lt h = All-push (λ k. k < size) Recycle.empty id lt tt
IsRecycled-push size files opts (some ext) id lt h = elim (Bool-cases (keeps_section opts ext)) [
  | inl keeps ↦ rw keeps (All-push (λ k. k < size) ext.file_meta_recycle_bin id lt h)
  | inr other ↦ rw other (All-push (λ k. k < size) Recycle.empty id lt tt)
]
