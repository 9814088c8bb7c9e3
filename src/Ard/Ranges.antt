-- ===== src/Ard/Ranges.antt =====
-- ardain/src/ard.rs: what reads of ranges of an entry return.
use ard_tools.Base.{
  ℕ, zero, suc, ◌+◌, ◌-◌, ◌^◌, ◌<◌, ◌≤◌, ◌≡◌, refl, sym, ap, ◌∙◌, List, [], ◌∷◌, ◌++◌, arith, min,
  length, take, drop, ok, length-drop, dec_lt, ◌≢◌,
}
use mathlib.Core.List.{append-nil}
use ard_tools.Arh.Meta.{FileMeta}
use ard_tools.Ard.{
  Decompressor, entry, skip_take, saturating_add, read, read_at, read_range, read_plain,
  read_compressed,
}

take_nil : (n : ℕ) → take {A = ℕ} n [] ≡ []
take_nil zero = refl
take_nil (suc n) = refl

drop_nil : (n : ℕ) → drop {A = ℕ} n [] ≡ []
drop_nil zero = refl
drop_nil (suc n) = refl

take_add : (m n : ℕ) (xs : List ℕ) → take (m + n) xs ≡ take m xs ++ take n (drop m xs)
take_add zero n xs = ap (λ k. take k xs) (omega arith)
take_add (suc m) n [] = take_nil (suc m + n) ∙ sym (take_nil n)
take_add (suc m) n (x ∷ xs) =
    ap (λ k. take k (x ∷ xs)) {y = suc (m + n)} (omega arith) ∙ ap (λ t. x ∷ t) (take_add m n xs)

pub drop_add : (m n : ℕ) (xs : List ℕ) → drop n (drop m xs) ≡ drop (m + n) xs
drop_add zero n xs = ap (λ k. drop k xs) (omega arith)
drop_add (suc m) n [] = drop_nil n ∙ sym (drop_nil (suc m + n))
drop_add (suc m) n (x ∷ xs) =
    drop_add m n xs ∙ ap (λ k. drop k (x ∷ xs)) {x = suc (m + n)} (omega arith)

pub take_all : (n : ℕ) (xs : List ℕ) → length xs ≤ n → take n xs ≡ xs
take_all zero [] h = refl
take_all zero (x ∷ xs) h = absurd (omega (arith, h))
take_all (suc n) [] h = refl
take_all (suc n) (x ∷ xs) h = ap (λ t. x ∷ t) (take_all n xs (omega (arith, h)))

pub take-min : (n : ℕ) (xs : List ℕ) → take (min n (length xs)) xs ≡ take n xs
take-min n xs = elim (dec_lt n (length xs)) [
  | yes short ↦ ap (λ k. take k xs) (omega arith)
  | no long ↦
      ap (λ k. take k xs) {y = length xs} (omega arith)
      ∙ take_all (length xs) xs (omega arith)
      ∙ sym (take_all n xs (omega arith))
]

-- The bytes of an entry from `offset_in_entry` on, at most `size` of them.
abbrev pub entry_range : List ℕ → FileMeta → ℕ → ℕ → List ℕ
entry_range bytes file offset_in_entry size =
    take (min (file.compressed_size - offset_in_entry) size)
      (drop (file.offset + offset_in_entry) bytes)

module _ (xbc1 : Decompressor) (bytes : List ℕ) (file : FileMeta)
    (plain : file.uncompressed_size ≡ 0)
    (fits : file.offset + file.compressed_size ≤ length bytes) where
  read_range_plain :
      (offset_in_entry size : ℕ)
      → offset_in_entry < 2 ^ 63
      → read_range xbc1 bytes (skip_take (entry file) offset_in_entry size)
        ≡ ok (entry_range bytes file offset_in_entry size)
  unfolding read_range read_at read_plain
  read_range_plain offset_in_entry size small =
      ground (arith, length-drop (file.offset + offset_in_entry) bytes)

  entry_range_add :
      (offset_in_entry m n : ℕ)
      → entry_range bytes file offset_in_entry (m + n)
        ≡ entry_range bytes file offset_in_entry m ++ entry_range bytes file (offset_in_entry + m) n
  entry_range_add offset_in_entry m n =
      let rest = drop (file.offset + offset_in_entry) bytes in
      elim (dec_lt (file.compressed_size - offset_in_entry) m) [
        | yes past ↦
            let all : min (file.compressed_size - offset_in_entry) (m + n)
                ≡ min (file.compressed_size - offset_in_entry) m =
              omega arith in
            let nothing : min (file.compressed_size - (offset_in_entry + m)) n ≡ 0 = omega arith in
            ap (λ k. take k rest) all
            ∙ sym (append-nil (entry_range bytes file offset_in_entry m))
            ∙ ap
                (λ k.
                  entry_range bytes file offset_in_entry m
                  ++ take k (drop (file.offset + (offset_in_entry + m)) bytes))
                (sym nothing)
        | no within ↦
            let whole : min (file.compressed_size - offset_in_entry) m ≡ m = omega arith in
            let more : min (file.compressed_size - offset_in_entry) (m + n)
                ≡ m + min (file.compressed_size - (offset_in_entry + m)) n =
              omega arith in
            let position : file.offset + offset_in_entry + m ≡ file.offset + (offset_in_entry + m) =
              omega arith in
            ap (λ k. take k rest) more
            ∙ take_add m (min (file.compressed_size - (offset_in_entry + m)) n) rest
            ∙ ap (λ t. take m rest ++ take (min (file.compressed_size - (offset_in_entry + m)) n) t)
                (drop_add (file.offset + offset_in_entry) m bytes ∙ ap (λ k. drop k bytes) position)
            ∙ ap (λ k. take k rest ++ entry_range bytes file (offset_in_entry + m) n) (sym whole)
      ]

  -- For an entry that is not compressed and lies within the file, and offsets below 2^63: reads of a range
  -- in two parts return the bytes that a read of the range returns.
  pub read_range-append :
      (offset_in_entry m n : ℕ)
      → offset_in_entry + m < 2 ^ 63
      → (front : List ℕ) × (back : List ℕ) × (read_range xbc1 bytes
            (skip_take (entry file) offset_in_entry m)
          ≡ ok front)
        × (read_range xbc1 bytes (skip_take (entry file) (offset_in_entry + m) n) ≡ ok back)
        × (read_range xbc1 bytes (skip_take (entry file) offset_in_entry (m + n))
            ≡ ok (front ++ back))
  read_range-append offset_in_entry m n small = (
    entry_range bytes file offset_in_entry m,
    entry_range bytes file (offset_in_entry + m) n,
    read_range_plain offset_in_entry m (omega (arith, small)),
    read_range_plain (offset_in_entry + m) n small,
    read_range_plain offset_in_entry (m + n) (omega (arith, small))
        ∙ ap ok (entry_range_add offset_in_entry m n),
  )

-- For a compressed entry that decompresses to `buf`, with the size that its header states and sizes below
-- 2^32: `read`, the read in full, returns as many bytes as the compressed entry has, while a range from 0
-- of at least the decompressed size returns all of `buf`.
pub read_compressed_cut :
    (xbc1 : Decompressor) (bytes buf : List ℕ) (file : FileMeta) (size : ℕ)
    → file.uncompressed_size ≢ 0
    → xbc1.decompress (drop file.offset bytes) ≡ ok (buf, length buf)
    → length buf < 2 ^ 32
    → file.compressed_size < 2 ^ 32
    → length buf ≤ size
    → (read xbc1 bytes (entry file) ≡ ok (take file.compressed_size buf))
      × (read_range xbc1 bytes (skip_take (entry file) 0 size) ≡ ok buf)
unfolding read read_range read_at read_compressed
read_compressed_cut xbc1 bytes buf file size stored shown small small' enough =
    let whole : min (saturating_add 0 size) (length buf) ≡ length buf = omega arith in
    let cut : min (saturating_add 0 file.compressed_size) (length buf)
        ≡ min file.compressed_size (length buf) =
      omega arith in
    (ground (arith, take-min file.compressed_size buf), ground (arith, take_all (length buf) buf))
