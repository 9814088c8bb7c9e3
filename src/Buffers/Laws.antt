-- ===== src/Buffers/Laws.antt =====
-- fuse-ard/src/write.rs: what the operations on a buffer do.
use ard_tools.Base.{
  ℕ, zero, suc, ◌+◌, ◌-◌, ◌<◌, ◌≤◌, ◌≡◌, refl, ◌∙◌, Bool, true, ◌&&◌, none, some, List, [], ◌∷◌,
  ◌++◌, arith, ltb, leb, if◌then◌else◌, length, length-append, length-drop, get_elem?, drop,
  insert_at, Search, found, missing, binary_search, ok, panic,
}
use Prim.Native.Nat.{Ordering}
use ard_tools.Base.{next_position}
use ard_tools.Fs.Tree.{compare_text}
use ard_tools.Path.{Text}
use ard_tools.Buffers.{
  FileBuffer, truncate, write, resize, copy_at, run_write, run, open_buffer, open_at, get_handle,
}

get_elem?-copy_at :
    (buffer : List ℕ) (offset : ℕ) (bytes : List ℕ) (i : ℕ)
    → get_elem? (copy_at buffer offset bytes) i ≡ (
        if ltb i (length buffer) && leb offset i && ltb i (offset + length bytes)
        then get_elem? bytes (i - offset)
        else get_elem? buffer i)
unfolding copy_at
get_elem?-copy_at [] offset bytes i = ground arith
get_elem?-copy_at (b ∷ bs) (suc offset) bytes zero = ground arith
get_elem?-copy_at (b ∷ bs) (suc offset) bytes (suc i) =
    get_elem?-copy_at bs offset bytes i ∙ ground arith
get_elem?-copy_at (b ∷ bs) zero [] i = ground arith
get_elem?-copy_at (b ∷ bs) zero (d ∷ ds) zero = ground arith
get_elem?-copy_at (b ∷ bs) zero (d ∷ ds) (suc i) = get_elem?-copy_at bs zero ds i ∙ ground arith

pub length-copy_at :
    (buffer : List ℕ) (offset : ℕ) (bytes : List ℕ)
    → length (copy_at buffer offset bytes) ≡ length buffer
unfolding copy_at
length-copy_at [] offset bytes = refl
length-copy_at (b ∷ bs) (suc offset) bytes = omega (arith, length-copy_at bs offset bytes)
length-copy_at (b ∷ bs) zero [] = refl
length-copy_at (b ∷ bs) zero (d ∷ ds) = omega (arith, length-copy_at bs zero ds)

-- A write that begins and ends within the buffer succeeds and replaces the bytes at its offsets, and
-- no others; the length stays.
pub run_write_inside :
    (offset : ℕ) (bytes buffer : List ℕ) (i : ℕ)
    → offset < length buffer
    → offset + length bytes ≤ length buffer
    → (r : List ℕ) × (run (write offset bytes) buffer ≡ ok r)
      × (length r ≡ length buffer)
      × (get_elem? r i ≡ (
          if leb offset i && ltb i (offset + length bytes)
          then get_elem? bytes (i - offset)
          else get_elem? buffer i))
unfolding run run_write
run_write_inside offset bytes buffer i inside fits = (
  copy_at buffer offset bytes,
  ground arith,
  length-copy_at buffer offset bytes,
  get_elem?-copy_at buffer offset bytes i ∙ ground arith,
)

-- A write that begins within the buffer and ends behind it panics if it is shorter than the buffer,
-- and else leaves as many bytes as were written, whatever the offset at which they were.
pub run_write_across :
    (offset : ℕ) (bytes buffer : List ℕ)
    → offset < length buffer
    → length buffer < offset + length bytes
    → (r : List ℕ) × (run (write offset bytes) buffer
        ≡ (if leb (length buffer) (length bytes) then ok r else panic))
      × (length r ≡ length buffer + (length bytes - length buffer))
unfolding run run_write
run_write_across offset bytes buffer inside over = (
  copy_at buffer offset bytes ++ drop (length buffer) bytes,
  ground arith,
  omega (
    arith,
    length-append (copy_at buffer offset bytes) (drop (length buffer) bytes),
    length-copy_at buffer offset bytes,
    length-drop (length buffer) bytes,
  ),
)

get_elem?-resize :
    (buffer : List ℕ) (n i : ℕ)
    → get_elem? (resize buffer n) i
      ≡ (if ltb i n then (if ltb i (length buffer) then get_elem? buffer i else some 0) else none)
unfolding resize
get_elem?-resize buffer zero i = ground arith
get_elem?-resize [] (suc n) zero = ground arith
get_elem?-resize [] (suc n) (suc i) = get_elem?-resize [] n i ∙ ground arith
get_elem?-resize (b ∷ bs) (suc n) zero = ground arith
get_elem?-resize (b ∷ bs) (suc n) (suc i) = get_elem?-resize bs n i ∙ ground arith

length-resize : (buffer : List ℕ) (n : ℕ) → length (resize buffer n) ≡ n
unfolding resize
length-resize buffer zero = refl
length-resize [] (suc n) = omega (arith, length-resize [] n)
length-resize (b ∷ bs) (suc n) = omega (arith, length-resize bs n)

-- A truncation gives the buffer the new size: the bytes below both sizes are kept, and those from the
-- old size on are zero.
pub run_truncate :
    (n : ℕ) (buffer : List ℕ) (i : ℕ)
    → (r : List ℕ) × (run (truncate n) buffer ≡ ok r)
      × (length r ≡ n)
      × (get_elem? r i ≡ (
          if ltb i n then (if ltb i (length buffer) then get_elem? buffer i else some 0) else none))
unfolding run
run_truncate n buffer i =
    (resize buffer n, refl, length-resize buffer n, get_elem?-resize buffer n i)

-- The place of the buffer of a handle after another was inserted at `i`.
abbrev pub moved : Bool → ℕ → ℕ → ℕ
moved is_new i h = if is_new && leb i h then suc h else h

get_elem?-insert_at :
    (files : List FileBuffer) (i h : ℕ) (f : FileBuffer)
    → i ≤ length files
    → get_elem? (insert_at files i f) (moved true i h) ≡ get_elem? files h
get_elem?-insert_at [] zero h f le = ground arith
get_elem?-insert_at [] (suc i) h f le = absurd (omega arith)
get_elem?-insert_at (g ∷ gs) zero h f le = ground arith
get_elem?-insert_at (g ∷ gs) (suc i) zero f le = ground arith
get_elem?-insert_at (g ∷ gs) (suc i) (suc h) f le =
    ground (arith, get_elem?-insert_at gs i h f (omega arith))

length-insert_at :
    (files : List FileBuffer) (i : ℕ) (f : FileBuffer)
    → length (insert_at files i f) ≡ suc (length files)
length-insert_at [] zero f = refl
length-insert_at [] (suc i) f = refl
length-insert_at (g ∷ gs) zero f = refl
length-insert_at (g ∷ gs) (suc i) f = omega (arith, length-insert_at gs i f)

abbrev position : Search → ℕ
position (found i) = i
position (missing i) = i

next_position-le : (s : Search) (n : ℕ) → position s ≤ n → position (next_position s) ≤ suc n
next_position-le (found i) n h = omega arith
next_position-le (missing i) n h = omega arith

binary_search-le :
    (compare_key : FileBuffer → Ordering) (files : List FileBuffer)
    → position (binary_search compare_key files) ≤ length files
unfolding binary_search
binary_search-le compare_key [] = omega arith
binary_search-le compare_key (f ∷ fs) =
    search_cons (compare_key f) (binary_search compare_key fs) (binary_search-le compare_key fs)
  where
    search_cons :
        (o : Ordering) (s : Search)
        → position s ≤ length fs
        → position (elim o [
          | Ordering.lt ↦ next_position s
          | Ordering.eq ↦ found 0
          | Ordering.gt ↦ missing 0
        ])
          ≤ suc (length fs)
    search_cons Ordering.lt s h = next_position-le s (length fs) h
    search_cons Ordering.eq s h = omega arith
    search_cons Ordering.gt s h = omega arith

open_at-moves :
    (files : List FileBuffer) (path : Text) (s : Search) (h : ℕ)
    → position s ≤ length files
    → let after = open_at files path s in
      get_handle after.0 (moved (ltb (length files) (length after.0)) after.1 h)
      ≡ get_handle files h
open_at-moves files path (found i) h le = ground arith
open_at-moves files path (missing i) h le =
    let longer : ltb (length files)
          (length (insert_at files i (record { path = path; operations = [] })))
        ≡ true =
      ground (arith, length-insert_at files i (record { path = path; operations = [] })) in
    rw longer (get_elem?-insert_at files i h (record { path = path; operations = [] }) le)

-- `open` keeps every buffer, but where it adds one, the buffers of the handles from the new one on
-- stand behind the next greater handle afterwards.
pub open_buffer-moves :
    (files : List FileBuffer) (path : Text) (h : ℕ)
    → let after = open_buffer files path in
      get_handle after.0 (moved (ltb (length files) (length after.0)) after.1 h)
      ≡ get_handle files h
unfolding open_buffer
open_buffer-moves files path h =
    let compare_key = λ (f : FileBuffer). compare_text f.path path in
    open_at-moves files path (binary_search compare_key files) h
      (binary_search-le compare_key files)
