-- ===== src/Arh/Strings/Size.antt =====
-- ardain/src/arh.rs: how long the string table gets, and what its entries can be at most.
use ard_tools.Base.{
  ℕ, ◌+◌, ◌^◌, ◌≤◌, ◌<◌, ◌≡◌, ap, inl, inr, some, List, [], ◌∷◌, ◌++◌, arith, leb, ◌==◌, length,
  length-append, length-drop, drop, Option-cases, Bool-cases,
}
use ard_tools.Arh.Strings.{
  ReadLe, to_le_bytes, utf8_from, until_nul, slice_from, push, entry, get_str_part_id,
}

until_nul-size :
    (bytes : List ℕ) {text : List ℕ} → until_nul bytes ≡ some text → length text + 1 ≤ length bytes
unfolding until_nul
until_nul-size [] e = cc
until_nul-size (b ∷ bs) {text} e = elim (Bool-cases (b == 0)) [
  | inl zero_byte ↦ let same : [] ≡ text = ground (arith, e) in ground (arith, ap length same)
  | inr more ↦ elim (Option-cases (until_nul bs)) [
    | inl out ↦ absurd (ground (arith, e))
    | inr (t, rest) ↦
        let same : b ∷ t ≡ text = ground (arith, e) in
        ground (arith, ap length same, until_nul-size bs rest)
  ]
]

module _ (reader : ReadLe) where
  entry-size :
      (bytes : List ℕ) {text : List ℕ} {id : ℕ}
      → entry reader bytes ≡ some (text, id)
      → length text + 1 ≤ length bytes
  unfolding entry
  entry-size bytes {text} {id} e = elim (Option-cases (until_nul bytes)) [
    | inl out ↦ absurd (ground (arith, e))
    | inr (st, stops) ↦ elim (Bool-cases (utf8_from [] st)) [
      | inr broken ↦ absurd (ground (arith, e))
      | inl valid ↦ elim (Option-cases (slice_from bytes (length st + 1))) [
        | inl past ↦ absurd (ground (arith, e))
        | inr (after, cut) ↦ elim (Option-cases (reader.read_le after)) [
          | inl short ↦ absurd (ground (arith, e))
          | inr (n, reads) ↦
              let same : st ≡ text = ground (arith, e) in
              ground (arith, ap length same, until_nul-size bytes stops)
        ]
      ]
    ]
  ]

  pub get_str_part_id-size :
      (strings : List ℕ) (offset : ℕ) {text : List ℕ} {id : ℕ}
      → get_str_part_id reader strings offset ≡ some (text, id)
      → length text + 1 ≤ length strings
  unfolding get_str_part_id
  get_str_part_id-size strings offset {text} {id} e =
      elim (Bool-cases (leb offset (length strings))) [
        | inr past ↦ absurd (ground (arith, e))
        | inl inside ↦
            let run : entry reader (drop offset strings) ≡ some (text, id) = ground (arith, e) in
            ground (arith, entry-size (drop offset strings) run, length-drop offset strings)
      ]

-- A push adds the text, its terminator and an id of four bytes.
pub length-push :
    (strings text : List ℕ) (id : ℕ) {table : List ℕ} {offset : ℕ}
    → push strings text id ≡ some (table, offset)
    → length table ≡ length strings + length text + 5
unfolding push
length-push strings text id {table} {offset} e =
    let same : strings ++ (text ++ 0 ∷ to_le_bytes id) ≡ table = ground (arith, e) in
    ground (
      arith,
      ap length same,
      length-append strings (text ++ 0 ∷ to_le_bytes id),
      length-append text (0 ∷ to_le_bytes id),
    )

-- It does not panic on a table below 2 GiB.
pub push-room :
    (strings text : List ℕ) (id : ℕ)
    → length strings < 2 ^ 31
    → push strings text id ≡ some (strings ++ (text ++ 0 ∷ to_le_bytes id), length strings)
unfolding push
push-room strings text id room = ground arith
