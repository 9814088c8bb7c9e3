-- ===== src/Arh/Strings/Reader.antt =====
-- A reader that does what `u32::read_le` documents.
use ard_tools.Base.{ℕ, ◌+◌, ◌*◌, ◌^◌, ◌<◌, ◌≡◌, Option, none, some, List, [], ◌∷◌, ◌++◌, arith}
use ard_tools.Arh.Strings.{ReadLe, to_le_bytes}

unfoldable pub read_four : List ℕ → Option ℕ
read_four (a ∷ b ∷ c ∷ d ∷ bs) = some (a + b * 0x100 + c * 0x10000 + d * 0x1000000)
read_four _ = none

pub read_four-bytes :
    (n : ℕ) (after : List ℕ) → n < 2 ^ 32 → read_four (to_le_bytes n ++ after) ≡ some n
unfolding read_four
read_four-bytes n after h = ap_some _ n (omega arith)
  where
    ap_some : (a b : ℕ) → a ≡ b → some a ≡ some b
    ap_some a b e = cc

pub read_four-more :
    (bytes after : List ℕ) (n : ℕ) → read_four bytes ≡ some n → read_four (bytes ++ after) ≡ some n
unfolding read_four
read_four-more (a ∷ b ∷ c ∷ d ∷ bs) after n e = e
read_four-more [] after n e = cc
read_four-more (a ∷ []) after n e = cc
read_four-more (a ∷ b ∷ []) after n e = cc
read_four-more (a ∷ b ∷ c ∷ []) after n e = cc

abbrev pub little_endian : ReadLe
little_endian = record {
  read_le = read_four;
  read_le_bytes = read_four-bytes;
  read_le_more = read_four-more;
}
