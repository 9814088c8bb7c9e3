-- ===== src/Arh/Strings/Laws.antt =====
-- ardain/src/arh.rs: what `StringTable::push` stores, and that it keeps what was stored.
use ard_tools.Base.{
  ℕ, zero, suc, ◌+◌, ◌^◌, ◌≤◌, ◌<◌, ◌≡◌, refl, ◌∙◌, sym, inl, inr, true, some, List, [], ◌∷◌, ◌++◌,
  arith, length, drop, drop-append, length-append, All, Option-cases,
}
use mathlib.Core.List.{append_assoc}
use ard_tools.Arh.Strings.{
  ReadLe, to_le_bytes, utf8_from, tail_ranges, until_nul, slice_from, push, entry, get_str_part_id,
}

-- A byte of a stored name: ASCII, and not the terminator.
abbrev pub IsNameByte : ℕ → Type 0
IsNameByte b = (0 < b) × (b < 128)

pub utf8_ascii : (text : List ℕ) → All IsNameByte text → utf8_from [] text ≡ true
unfolding utf8_from
utf8_ascii [] h = refl
utf8_ascii (b ∷ bs) h =
    let e : tail_ranges b ≡ some [] = ground (arith, h.0.1) in rw (e, utf8_from) (utf8_ascii bs h.1)

until_nul-text :
    (text after : List ℕ) → All IsNameByte text → until_nul (text ++ 0 ∷ after) ≡ some text
unfolding until_nul
until_nul-text [] after h = refl
until_nul-text (b ∷ bs) after h = rw (until_nul-text bs after h.1) (ground (arith, h.0.0))

until_nul-more :
    (bytes after : List ℕ) {text : List ℕ}
    → until_nul bytes ≡ some text
    → until_nul (bytes ++ after) ≡ some text
unfolding until_nul
until_nul-more [] after e = cc
until_nul-more (b ∷ bs) after e = elim (Option-cases (until_nul bs)) [
  | inl f ↦ ground arith
  | inr (t, f) ↦ ground (arith, until_nul-more bs after f)
]

drop-more :
    (n : ℕ) (bytes after : List ℕ)
    → n ≤ length bytes
    → drop n (bytes ++ after) ≡ drop n bytes ++ after
drop-more zero bytes after h = refl
drop-more (suc n) [] after h = absurd (omega arith)
drop-more (suc n) (b ∷ bs) after h = drop-more n bs after (omega arith)

slice_from-more :
    (bytes after : List ℕ) (n : ℕ) {r : List ℕ}
    → slice_from bytes n ≡ some r
    → slice_from (bytes ++ after) n ≡ some (r ++ after)
slice_from-more bytes after n {r} e =
    let fits : n ≤ length bytes = ground arith in
    let rest : r ≡ drop n bytes = ground arith in
    rw (rest, ← drop-more n bytes after fits) (ground (arith, length-append bytes after))

slice_from-text : (text after : List ℕ) → slice_from (text ++ after) (length text) ≡ some after
slice_from-text text after = rw (drop-append text after) (ground (arith, length-append text after))

slice_from-text_nul :
    (text after : List ℕ) → slice_from (text ++ 0 ∷ after) (length text + 1) ≡ some after
slice_from-text_nul text after =
    let whole : text ++ 0 ∷ after ≡ (text ++ 0 ∷ []) ++ after =
      sym (append_assoc text (0 ∷ []) after) in
    let size : length text + 1 ≡ length (text ++ 0 ∷ []) =
      omega (arith, length-append text (0 ∷ [])) in
    rw (whole, size) (slice_from-text (text ++ 0 ∷ []) after)

module _ (reader : ReadLe) where
  entry_lem :
      (bytes st after : List ℕ) (id : ℕ)
      → until_nul bytes ≡ some st
      → utf8_from [] st ≡ true
      → slice_from bytes (length st + 1) ≡ some after
      → reader.read_le after ≡ some id
      → entry reader bytes ≡ some (st, id)
  unfolding entry
  entry_lem bytes st after id a b c d = ground arith

  entry-eq-some :
      (bytes st : List ℕ) (id : ℕ)
      → entry reader bytes ≡ some (st, id)
      → (until_nul bytes ≡ some st)
        × (utf8_from [] st ≡ true)
        × (slice_from bytes (length st + 1) ≡ some (drop (length st + 1) bytes))
        × (reader.read_le (drop (length st + 1) bytes) ≡ some id)
  unfolding entry
  entry-eq-some bytes st id e = ground arith

  entry-text :
      (text after : List ℕ) (id : ℕ)
      → All IsNameByte text
      → id < 2 ^ 32
      → entry reader (text ++ 0 ∷ (to_le_bytes id ++ after)) ≡ some (text, id)
  entry-text text after id h lt =
      entry_lem _ text (to_le_bytes id ++ after) id (until_nul-text text _ h) (utf8_ascii text h)
        (slice_from-text_nul text _) (reader.read_le_bytes id after lt)

  entry-more :
      (bytes more st : List ℕ) (id : ℕ)
      → entry reader bytes ≡ some (st, id)
      → entry reader (bytes ++ more) ≡ some (st, id)
  entry-more bytes more st id e =
      let (text, utf8, slice, read) = entry-eq-some bytes st id e in
      entry_lem _ st _ id (until_nul-more bytes more text) utf8 (slice_from-more bytes more _ slice)
        (reader.read_le_more _ more id read)

  get_lem :
      (strings bytes : List ℕ) (i : ℕ)
      → slice_from strings i ≡ some bytes
      → get_str_part_id reader strings i ≡ entry reader bytes
  unfolding get_str_part_id
  get_lem strings bytes i e = ground arith

  -- For a text of ASCII characters other than zero and an id of 32 bits: where `push` succeeds,
  -- `get_str_part_id` at the offset that it returns gives the text and the id.
  pub get-push :
      (strings text : List ℕ) (id : ℕ) {t : List ℕ} {offset : ℕ}
      → All IsNameByte text
      → id < 2 ^ 32
      → push strings text id ≡ some (t, offset)
      → get_str_part_id reader t offset ≡ some (text, id)
  unfolding get_str_part_id push
  get-push strings text id {t} {offset} h lt e =
      let at_end : offset ≡ length strings = ground arith in
      let whole : t ≡ strings ++ (text ++ 0 ∷ to_le_bytes id) = ground arith in
      let here : entry reader (text ++ 0 ∷ (to_le_bytes id ++ [])) ≡ some (text, id) =
        entry-text text [] id h lt in
      rw (whole, at_end) (get_lem _ _ _ (slice_from-text strings _) ∙ here)

  -- Where `push` succeeds, every offset at which a text and an id were read before reads the same.
  pub get-push_old :
      (strings text : List ℕ) (id i : ℕ) {t : List ℕ} {offset : ℕ} {st : List ℕ} {n : ℕ}
      → get_str_part_id reader strings i ≡ some (st, n)
      → push strings text id ≡ some (t, offset)
      → get_str_part_id reader t i ≡ some (st, n)
  unfolding get_str_part_id push
  get-push_old strings text id i {t} {offset} {st} {n} old e =
      let whole : t ≡ strings ++ (text ++ 0 ∷ to_le_bytes id) = ground arith in
      let slice : slice_from strings i ≡ some (drop i strings) = ground arith in
      let here : entry reader (drop i strings) ≡ some (st, n) = ground arith in
      rw whole (
        get_lem _ _ i (slice_from-more strings _ i slice) ∙ entry-more (drop i strings) _ st n here)
