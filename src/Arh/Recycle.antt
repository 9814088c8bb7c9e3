-- ===== src/Arh/Recycle.antt =====
-- ardain/src/arh_ext.rs: `FileRecycleBin`. Its `len` is the length of a vector in memory, so the
-- `u32` does not run out.
use Prim.Native.Nat.{compare}
use ard_tools.Base.{
  ℕ, zero, suc, ◌+◌, ◌-◌, ◌*◌, ◌<◌, ◌≡◌, refl, ◌∙◌, ap, ◌⊎◌, inl, inr, Bool, false, ◌||◌, Option,
  none, some, List, [], ◌∷◌, ◌++◌, arith, ltb, ◌==◌, if◌then◌else◌, length, length-append,
  All-append_left, All-append_right, insert_at, All, binary_search, found, missing, Search,
}

pub record FileRecycleBin : Type 0 where
  pub len : ℕ
  pub file_ids : List ℕ

-- `FileRecycleBin::default`.
abbrev pub empty : FileRecycleBin
empty = record { len = 0; file_ids = [] }

-- `push` does nothing if the search succeeds, and inserts where it failed.
abbrev pub push_at : FileRecycleBin → ℕ → Search → FileRecycleBin
push_at bin file_id (found i) = bin
push_at bin file_id (missing i) = record {
  len = bin.len + 1;
  file_ids = insert_at bin.file_ids i file_id;
}

unfoldable pub push : FileRecycleBin → ℕ → FileRecycleBin
push bin file_id = push_at bin file_id (binary_search (λ x. compare x file_id) bin.file_ids)

-- `Vec::pop`: the last element, and the others.
abbrev pub split_last : List ℕ → Option (ℕ × List ℕ)
split_last [] = none
split_last (x ∷ xs) = elim (split_last xs) [ none ↦ some (x, []) | some (y, ys) ↦ some (y, x ∷ ys) ]

-- `pop`, from what `Vec::pop` gives.
abbrev pub popped : FileRecycleBin → Option (ℕ × List ℕ) → Option ℕ × FileRecycleBin
popped bin none = (none, record bin { len = bin.len - 1 })
popped bin (some (id, rest)) = (some id, record { len = bin.len - 1; file_ids = rest })

unfoldable pub pop : FileRecycleBin → Option ℕ × FileRecycleBin
pop bin = popped bin (split_last bin.file_ids)

-- `size_on_wire`.
unfoldable pub size_on_wire : FileRecycleBin → ℕ
size_on_wire bin = length bin.file_ids * 4 + 4

abbrev pub IsAscending : List ℕ → Type 0
IsAscending [] = Unit {0}
IsAscending (x ∷ xs) = All (λ y. x < y) xs × IsAscending xs

-- The ids ascend, as `docs/arh.md` says of the file, and `len` counts them.
pub record IsValid (bin : FileRecycleBin) : Type 0 where
  pub ascending : IsAscending bin.file_ids
  pub counted : bin.len ≡ length bin.file_ids

unfoldable pub contains : ℕ → List ℕ → Bool
contains k [] = false
contains k (x ∷ xs) = k == x || contains k xs

-- The list after `push`, by one recursion.
insert : ℕ → List ℕ → List ℕ
insert k [] = k ∷ []
insert k (x ∷ xs) = if ltb x k then x ∷ insert k xs else if x == k then x ∷ xs else k ∷ x ∷ xs

-- The list that `push` leaves, from the result of its search.
abbrev searched : Search → List ℕ → ℕ → List ℕ
searched (found i) xs k = xs
searched (missing i) xs k = insert_at xs i k

searched-insert :
    (k : ℕ) (xs : List ℕ) → searched (binary_search (λ x. compare x k) xs) xs k ≡ insert k xs
unfolding insert binary_search
searched-insert k [] = refl
searched-insert k (x ∷ xs) = ground (arith, searched-insert k xs)

push-searched :
    (bin : FileRecycleBin) (k : ℕ)
    → (push bin k).file_ids
      ≡ searched (binary_search (λ x. compare x k) bin.file_ids) bin.file_ids k
unfolding push
push-searched bin k = ground arith

push-insert : (bin : FileRecycleBin) (k : ℕ) → (push bin k).file_ids ≡ insert k bin.file_ids
push-insert bin k = push-searched bin k ∙ searched-insert k bin.file_ids

All-insert : (P : ℕ → Type 0) (k : ℕ) (xs : List ℕ) → P k → All P xs → All P (insert k xs)
unfolding insert
All-insert P k [] p h = (p, tt)
All-insert P k (x ∷ xs) p h = ground (arith, All-insert P k xs p h.1)

All-trans : {a b : ℕ} (xs : List ℕ) → a < b → All (λ y. b < y) xs → All (λ y. a < y) xs
All-trans [] h k = tt
All-trans (x ∷ xs) h k = (omega arith, All-trans xs h k.1)

insert-IsAscending : (k : ℕ) (xs : List ℕ) → IsAscending xs → IsAscending (insert k xs)
unfolding insert
insert-IsAscending k [] h = (tt, tt)
insert-IsAscending k (x ∷ xs) h =
    ground (
      arith,
      insert-IsAscending k xs h.1,
      All-insert (λ y. x < y) k xs,
      All-trans {a = k} {b = x} xs,
    )

contains-insert : (j k : ℕ) (xs : List ℕ) → contains j (insert k xs) ≡ (j == k || contains j xs)
unfolding insert contains
contains-insert j k [] = refl
contains-insert j k (x ∷ xs) = ground (arith, contains-insert j k xs)

length-insert_at : (xs : List ℕ) (i k : ℕ) → length (insert_at xs i k) ≡ length xs + 1
length-insert_at [] zero k = refl
length-insert_at [] (suc i) k = refl
length-insert_at (x ∷ xs) zero k = omega arith
length-insert_at (x ∷ xs) (suc i) k = omega (arith, length-insert_at xs i k)

push_at-counted :
    (bin : FileRecycleBin) (k : ℕ) (s : Search)
    → bin.len ≡ length bin.file_ids
    → (push_at bin k s).len ≡ length (push_at bin k s).file_ids
push_at-counted bin k (found i) e = e
push_at-counted bin k (missing i) e = omega (arith, length-insert_at bin.file_ids i k)

push-counted :
    (bin : FileRecycleBin) (k : ℕ)
    → bin.len ≡ length bin.file_ids
    → (push bin k).len ≡ length (push bin k).file_ids
unfolding push
push-counted bin k e = push_at-counted bin k _ e

pub contains-push :
    (bin : FileRecycleBin) (k j : ℕ)
    → contains j (push bin k).file_ids ≡ (j == k || contains j bin.file_ids)
contains-push bin k j = rw (push-insert bin k) (contains-insert j k bin.file_ids)

-- On a bin whose ids ascend and are counted by `len`, `push` keeps both so, and the ids in it after are
-- those before and the pushed one.
pub push-IsValid :
    (bin : FileRecycleBin) (k j : ℕ)
    → IsValid bin
    → IsValid (push bin k)
      × (contains j (push bin k).file_ids ≡ (j == k || contains j bin.file_ids))
push-IsValid bin k j v = (
  record {
    ascending = rw (push-insert bin k) (insert-IsAscending k _ v.ascending);
    counted = push-counted bin k v.counted;
  },
  contains-push bin k j,
)

-- What `split_last` gives.
abbrev IsSplit : List ℕ → Option (ℕ × List ℕ) → Type 0
IsSplit xs none = xs ≡ []
IsSplit xs (some (y, ys)) = xs ≡ ys ++ y ∷ []

split_last_lem : (xs : List ℕ) → IsSplit xs (split_last xs)
split_last_lem [] = refl
split_last_lem (x ∷ xs) = split_cons x xs (split_last xs) (split_last_lem xs)
  where
    split_cons :
        (x : ℕ) (xs : List ℕ) (r : Option (ℕ × List ℕ))
        → IsSplit xs r
        → IsSplit (x ∷ xs) (elim r [ none ↦ some (x, []) | some (y, ys) ↦ some (y, x ∷ ys) ])
    split_cons x xs none e = rw e
    split_cons x xs (some (y, ys)) e = rw e

IsAscending-last :
    (ys : List ℕ) (y : ℕ) → IsAscending (ys ++ y ∷ []) → IsAscending ys × All (λ x. x < y) ys
IsAscending-last [] y h = (tt, tt)
IsAscending-last (x ∷ ys) y h =
    let rest = IsAscending-last ys y h.1 in
    (
      (All-append_left (λ z. x < z) ys (y ∷ []) h.0, rest.0),
      ((All-append_right (λ z. x < z) ys (y ∷ []) h.0).0, rest.1),
    )

module _ (bin : FileRecycleBin) where
  -- What `pop` does: nothing on the empty bin; else it takes off the last id.
  abbrev pub Pops : Option ℕ × FileRecycleBin → Type 0
  Pops r =
      ((bin.file_ids ≡ []) × (r ≡ (none, bin)))
      ⊎ ((k : ℕ) × (rest : List ℕ) × (bin.file_ids ≡ rest ++ k ∷ [])
          × All (λ x. x < k) rest
          × (r ≡ (some k, record { len = bin.len - 1; file_ids = rest })))

  popped_cases :
      (r : Option (ℕ × List ℕ))
      → IsSplit bin.file_ids r
      → IsValid bin
      → Pops (popped bin r) × IsValid (popped bin r).1
  popped_cases none split v =
      let nothing : bin.len - 1 ≡ bin.len = omega (arith, v.counted, ap length split) in
      (inl (split, rw nothing), record { ascending = v.ascending; counted = rw nothing v.counted })
  popped_cases (some (k, rest)) split v =
      let parts = IsAscending-last rest k (rw split at v.ascending) in
      (
        inr (k, rest, split, parts.1, refl),
        record {
          ascending = parts.0;
          counted = omega (arith, v.counted, ap length split, length-append rest (k ∷ []));
        },
      )

  -- On a bin whose ids ascend and are counted by `len`, `pop` gives none and changes nothing if the bin
  -- is empty, and else takes off the greatest id and counts one less; the ids stay ascending and counted.
  pub pop_cases : IsValid bin → Pops (pop bin) × IsValid (pop bin).1
  unfolding pop
  pop_cases v = popped_cases (split_last bin.file_ids) (split_last_lem bin.file_ids) v

module _ (P : ℕ → Type 0) where
  -- What holds of the ids holds after `push` and `pop`, and of the id that `pop` gives.
  pub All-push :
      (bin : FileRecycleBin) (k : ℕ) → P k → All P bin.file_ids → All P (push bin k).file_ids
  All-push bin k p h = rw (push-insert bin k) (All-insert P k bin.file_ids p h)

  popped-All :
      (bin : FileRecycleBin) (r : Option (ℕ × List ℕ))
      → IsSplit bin.file_ids r
      → All P bin.file_ids
      → All P (popped bin r).1.file_ids × ((k : ℕ) → (popped bin r).0 ≡ some k → P k)
  popped-All bin none split h = (h, λ k e. cc)
  popped-All bin (some (y, ys)) split h =
      let parts : All P (ys ++ y ∷ []) = rw split at h in
      (
        All-append_left P ys (y ∷ []) parts,
        λ k e. let same : y ≡ k = cc in rw (← same) (All-append_right P ys (y ∷ []) parts).0,
      )

  pub All-pop :
      (bin : FileRecycleBin)
      → All P bin.file_ids
      → All P (pop bin).1.file_ids × ((k : ℕ) → (pop bin).0 ≡ some k → P k)
  unfolding pop
  All-pop bin h = popped-All bin (split_last bin.file_ids) (split_last_lem bin.file_ids) h
