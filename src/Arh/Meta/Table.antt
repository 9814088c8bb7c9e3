-- ===== src/Arh/Meta/Table.antt =====
-- ardain/src/arh.rs: `FileTable`.
use ard_tools.Base.{
  ℕ_discrete, ℕ, zero, suc, ◌<◌, ◌≡◌, refl, ◌∙◌, ◌≢◌, Option, none, some, List, [], ◌∷◌, ◌++◌,
  arith, ◌==◌, if◌then◌else◌, length, get_elem?, set, get_elem?-set_self, get_elem?-set_ne,
  lt_of_get_elem?,
}
use ard_tools.Arh.Recycle.{FileRecycleBin, Pops, IsValid, pop_cases}
use ard_tools.Arh.Recycle
use ard_tools.Arh.Meta.{FileMeta, push_entry, place_entry, pop_bin, delete_entry, new_invalid}

-- What stands at the id that `push_entry` returns: the meta as it was given if the id is recycled,
-- and the meta with the id filled in if the entry is new.
abbrev pub stored : FileMeta → Option ℕ → ℕ → FileMeta
stored meta none id = record meta { id = id }
stored meta (some k) id = meta

get_elem?-append_one :
    (files : List FileMeta) (m : FileMeta) (j : ℕ)
    → get_elem? (files ++ m ∷ []) j ≡ (if j == length files then some m else get_elem? files j)
get_elem?-append_one [] m zero = refl
get_elem?-append_one [] m (suc j) = ground arith
get_elem?-append_one (f ∷ fs) m zero = ground arith
get_elem?-append_one (f ∷ fs) m (suc j) = get_elem?-append_one fs m j ∙ ground arith

place_entry-at :
    (files : List FileMeta) (meta : FileMeta) (recycled : Option ℕ) (j : ℕ) {table : List FileMeta}
    {id : ℕ}
    → place_entry files meta recycled ≡ some (table, id)
    → get_elem? table j ≡ (if j == id then some (stored meta recycled id) else get_elem? files j)
place_entry-at files meta none j {table} {id} e =
    let here : id ≡ length files = ground arith in
    let whole : table ≡ files ++ record meta { id = id } ∷ [] = ground arith in
    rw whole (rw here (get_elem?-append_one files _ j))
place_entry-at files meta (some k) j {table} {id} e = elim (ℕ_discrete j k) [
  | yes here ↦
      let fits : k < length files = ground arith in
      let whole : table ≡ set files k meta = ground arith in
      rw (whole, here) (get_elem?-set_self files k meta fits ∙ ground arith)
  | no other ↦
      let whole : table ≡ set files k meta = ground arith in
      rw whole
        (get_elem?-set_ne files {i = k} {j = j} meta (λ f. other (ground arith)) ∙ ground arith)
]

push_entry-eq-some :
    (files : List FileMeta) (meta : FileMeta) (bin : Option FileRecycleBin) {table : List FileMeta}
    {rest : Option FileRecycleBin} {id : ℕ}
    → push_entry files meta bin ≡ some (table, rest, id)
    → (place_entry files meta (pop_bin bin).0 ≡ some (table, id)) × (rest ≡ (pop_bin bin).1)
unfolding push_entry
push_entry-eq-some files meta bin e = ground arith

-- Where `push_entry` does not panic, the new table differs from the old one at the returned id only,
-- where it holds the meta: as it was given if the bin gave the id, with the id filled in if the entry
-- is new. The bin is left as its `pop` leaves it.
pub push_entry_lem :
    (files : List FileMeta) (meta : FileMeta) (bin : Option FileRecycleBin) (j : ℕ)
    {table : List FileMeta} {rest : Option FileRecycleBin} {id : ℕ}
    → push_entry files meta bin ≡ some (table, rest, id)
    → (get_elem? table j
        ≡ (if j == id then some (stored meta (pop_bin bin).0 id) else get_elem? files j))
      × (rest ≡ (pop_bin bin).1)
push_entry_lem files meta bin j {table} {rest} {id} e =
    let (placed, left) = push_entry-eq-some files meta bin e in
    (place_entry-at files meta (pop_bin bin).0 j placed, left)

-- Where the bin gives an id above 0 that is in the table, `push_entry` of the blank meta that
-- `create_file` pushes returns that id, and the meta that then stands there has another one.
pub push_entry-stale_id :
    (files : List FileMeta) (bin : FileRecycleBin) (k : ℕ) {rest : FileRecycleBin}
    → Recycle.pop bin ≡ (some k, rest)
    → 0 < k
    → k < length files
    → (table : List FileMeta) × (m : FileMeta) × (push_entry files new_invalid (some bin)
        ≡ some (table, some rest, k))
      × (get_elem? table k ≡ some m)
      × (m.id ≢ k)
unfolding push_entry
push_entry-stale_id files bin k {rest} e pos fits = (
  set files k new_invalid,
  new_invalid,
  ground arith,
  get_elem?-set_self files k _ fits,
  omega arith,
)

-- Where `delete_entry` returns an entry, it is the one that stood at the id, which is blank after, and
-- every other entry is kept.
pub delete_entry_lem :
    (files : List FileMeta) (id j : ℕ) {m : FileMeta}
    → (delete_entry files id).1 ≡ some m
    → (get_elem? files id ≡ some m)
      × (get_elem? (delete_entry files id).0 j
          ≡ (if j == id then some new_invalid else get_elem? files j))
unfolding delete_entry
delete_entry_lem files id j {m} e = elim (ℕ_discrete j id) [
  | yes here ↦ (
    e,
    rw here
        (ground (arith, get_elem?-set_self files id new_invalid (lt_of_get_elem? files id m e))),
  )
  | no other ↦ (
    e,
    get_elem?-set_ne files {i = id} {j = j} new_invalid (λ f. other (ground arith)) ∙ ground arith,
  )
]
