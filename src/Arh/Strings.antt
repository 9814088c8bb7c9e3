-- ===== src/Arh/Strings.antt =====
-- ardain/src/arh.rs: `StringTable`. A string is the list of its bytes.
pub mod Laws
pub mod Reader
pub mod Size
use ard_tools.Base.{
  ℕ, zero, suc, ◌+◌, ◌*◌, ◌/◌, ◌%◌, ◌^◌, ◌≤◌, ◌<◌, ◌≡◌, refl, ◌∙◌, ap, sym, ◌≢◌, ◌⊎◌, inl, inr,
  Bool, true, false, ◌&&◌, Option, none, some, List, [], ◌∷◌, ◌++◌, arith, ltb, leb, ◌==◌,
  if◌then◌else◌, length, drop, drop-append, All, Bool-cases, Option-cases,
}
use mathlib.Core.List.{append_assoc}

-- `u32::to_le_bytes`.
abbrev pub to_le_bytes : ℕ → List ℕ
to_le_bytes n = (n % 256) ∷ (n / 0x100 % 256) ∷ (n / 0x10000 % 256) ∷ (n / 0x1000000 % 256) ∷ []

-- `binrw`'s `u32::read_le`, as the code relies on it: it reads a number from its little-endian bytes
-- at the front of its input, and does not look at what follows.
pub record ReadLe : Type 0 where
  pub read_le : List ℕ → Option ℕ
  pub read_le_bytes :
      (n : ℕ) (after : List ℕ) → n < 2 ^ 32 → read_le (to_le_bytes n ++ after) ≡ some n
  pub read_le_more :
      (bytes after : List ℕ) (n : ℕ) → read_le bytes ≡ some n → read_le (bytes ++ after) ≡ some n

-- The bytes that may follow the first byte of a UTF-8 sequence, as ranges, and `none` where no
-- sequence begins with it.
abbrev pub continuation : ℕ × ℕ
continuation = (0x80, 0xbf)

abbrev pub tail_ranges : ℕ → Option (List (ℕ × ℕ))
tail_ranges b =
    if ltb b 0x80
    then some []
    else if ltb b 0xc2
    then none
    else if ltb b 0xe0
    then some (continuation ∷ [])
    else if b == 0xe0
    then some ((0xa0, 0xbf) ∷ continuation ∷ [])
    else if b == 0xed
    then some ((0x80, 0x9f) ∷ continuation ∷ [])
    else if ltb b 0xf0
    then some (continuation ∷ continuation ∷ [])
    else if b == 0xf0
    then some ((0x90, 0xbf) ∷ continuation ∷ continuation ∷ [])
    else if ltb b 0xf4
    then some (continuation ∷ continuation ∷ continuation ∷ [])
    else if b == 0xf4
    then some ((0x80, 0x8f) ∷ continuation ∷ continuation ∷ [])
    else none

-- `str::from_utf8` succeeds on these bytes, behind the ranges that a sequence still wants.
unfoldable pub utf8_from : List (ℕ × ℕ) → List ℕ → Bool
utf8_from [] [] = true
utf8_from (r ∷ rs) [] = false
utf8_from (r ∷ rs) (b ∷ bs) = (leb r.0 b && leb b r.1) && utf8_from rs bs
utf8_from [] (b ∷ bs) = elim (tail_ranges b) [ none ↦ false | some rs ↦ utf8_from rs bs ]

-- `CStr::from_bytes_until_nul`: the bytes before the first zero; `none` where there is no zero.
unfoldable pub until_nul : List ℕ → Option (List ℕ)
until_nul [] = none
until_nul (b ∷ bs) =
    if b == 0 then some [] else elim (until_nul bs) [ none ↦ none | some t ↦ some (b ∷ t) ]

-- `&strings[offset..]`, which panics past the end.
abbrev pub slice_from : List ℕ → ℕ → Option (List ℕ)
slice_from bytes offset = if leb offset (length bytes) then some (drop offset bytes) else none

-- `StringTable::push`; `none` is the panic where the offset is no `i32`.
unfoldable pub push : List ℕ → List ℕ → ℕ → Option (List ℕ × ℕ)
push strings text id =
    let offset = length strings in
    if ltb offset (2 ^ 31) then some (strings ++ (text ++ 0 ∷ to_le_bytes id), offset) else none

module _ (reader : ReadLe) where
  -- An entry at the front of the bytes: a text, a zero, and its file's id.
  unfoldable pub entry : List ℕ → Option (List ℕ × ℕ)
  entry bytes = elim (until_nul bytes) [
    | none ↦ none
    | some st ↦ elim (utf8_from [] st) [
      | false ↦ none
      | true ↦ elim (slice_from bytes (length st + 1)) [
        | none ↦ none
        | some after ↦ elim (reader.read_le after) [ none ↦ none | some id ↦ some (st, id) ]
      ]
    ]
  ]

  -- `StringTable::get_str_part_id`; `none` is a panic.
  unfoldable pub get_str_part_id : List ℕ → ℕ → Option (List ℕ × ℕ)
  get_str_part_id strings offset = elim (slice_from strings offset) [
    | none ↦ none
    | some bytes ↦ entry bytes
  ]
