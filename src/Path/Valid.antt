-- ===== src/Path/Valid.antt =====
-- ardain/src/path.rs: what an `ArhPath` may hold, and that `from_str` decides it.
use ard_tools.Base.{
  ℕ, ◌≤◌, ◌<◌, ◌≡◌, ◌∙◌, ap, refl, ◌≢◌, ◌↔◌, inl, inr, true, false, none, [], ◌∷◌, ◌++◌, ◌&&◌,
  length, map, arith, ◌==◌, if◌then◌else◌, ok, err, All, Bool-cases,
}
use ard_tools.Path.{
  Text, byte_len, to_ascii_lowercase, starts_with_slash, is_character_legal, find_illegal,
  has_consecutive, from_str, consecutive_slashes,
}

-- A character of an `ArhPath`: ASCII, no backslash, no capital.
pub record IsPathChar (c : ℕ) : Type 0 where
  pub ascii : c < 128
  pub no_backslash : c ≢ 0x5c
  pub lowercase : to_ascii_lowercase c ≡ c

-- A valid absolute path: at most 256 characters of those, a slash in front, and no two slashes in a row.
pub record IsArhPath (s : Text) : Type 0 where
  pub short : length s ≤ 256
  pub absolute : (rest : Text) × (s ≡ b'/' ∷ rest)
  pub chars : All IsPathChar s
  pub single : (pre post : Text) → s ≢ pre ++ b'/' ∷ b'/' ∷ post

-- What the tests of `from_str` say of it.
pub record IsAccepted (s : Text) : Type 0 where
  pub short : byte_len s ≤ 256
  pub absolute : starts_with_slash s ≡ true
  pub chars : All IsPathChar s
  pub single : has_consecutive s ≡ false

ascii-byte_len : (s : Text) → All IsPathChar s → byte_len s ≡ length s
ascii-byte_len [] h = refl
ascii-byte_len (c ∷ cs) h = ground (arith, h.0.ascii, ascii-byte_len cs h.1)

pair-consecutive : (pre post : Text) → has_consecutive (pre ++ b'/' ∷ b'/' ∷ post) ≡ true
unfolding has_consecutive
pair-consecutive [] post = refl
pair-consecutive (c ∷ []) post = ground arith
pair-consecutive (c ∷ d ∷ pre) post = ground (arith, pair-consecutive (d ∷ pre) post)

consecutive-pair :
    (s : Text)
    → has_consecutive s ≡ true
    → (pre : Text) × (post : Text) × (s ≡ pre ++ b'/' ∷ b'/' ∷ post)
unfolding has_consecutive
consecutive-pair [] h = cc
consecutive-pair (c ∷ []) h = cc
consecutive-pair (c ∷ d ∷ cs) h = elim (Bool-cases (c == d && c == b'/')) [
  | inl both ↦
      let first : c ≡ b'/' = ground arith in
      let second : d ≡ b'/' = ground arith in ([], cs, rw (first, second) refl)
  | inr apart ↦
      let (pre, post, splits) = consecutive-pair (d ∷ cs) (ground arith) in
      (c ∷ pre, post, ap (λ t. c ∷ t) splits)
]

starts_slash : (s : Text) → starts_with_slash s ≡ true → (rest : Text) × (s ≡ b'/' ∷ rest)
starts_slash [] h = cc
starts_slash (c ∷ cs) h = let slash : c ≡ b'/' = ground arith in (cs, ap (λ d. d ∷ cs) slash)

pub IsAccepted-IsArhPath : (s : Text) → IsAccepted s → IsArhPath s
IsAccepted-IsArhPath s v = record {
  short = rw (← ascii-byte_len s v.chars) v.short;
  absolute = starts_slash s v.absolute;
  chars = v.chars;
  single = λ pre post splits. cc (v.single, ap has_consecutive splits, pair-consecutive pre post);
}

pub IsArhPath-IsAccepted : (s : Text) → IsArhPath s → IsAccepted s
IsArhPath-IsAccepted s v = record {
  short = rw (ascii-byte_len s v.chars) v.short;
  absolute = ap starts_with_slash v.absolute.1;
  chars = v.chars;
  single = elim (Bool-cases (has_consecutive s)) [
    | inr one ↦ one
    | inl two ↦
        let (pre, post, splits) = consecutive-pair s two in absurd (v.single pre post splits)
  ];
}

lower_twice : (c : ℕ) → to_ascii_lowercase (to_ascii_lowercase c) ≡ to_ascii_lowercase c
lower_twice c = ground arith

legal-lower : (c : ℕ) → is_character_legal c ≡ true → IsPathChar (to_ascii_lowercase c)
legal-lower c h = record {
  ascii = ground arith;
  no_backslash = ground arith;
  lowercase = lower_twice c;
}

find_illegal-lower : (s : Text) → find_illegal s ≡ none → All IsPathChar (map to_ascii_lowercase s)
unfolding find_illegal
find_illegal-lower [] h = tt
find_illegal-lower (c ∷ cs) h = elim (Bool-cases (is_character_legal c)) [
  | inl e ↦ (legal-lower c e, find_illegal-lower cs (ground arith))
  | inr e ↦ absurd (ground arith)
]

byte_len-lower : (s : Text) → byte_len (map to_ascii_lowercase s) ≡ byte_len s
byte_len-lower [] = refl
byte_len-lower (c ∷ cs) = ground (arith, byte_len-lower cs)

lower_slash : (c : ℕ) → (to_ascii_lowercase c == b'/') ≡ (c == b'/')
lower_slash c = ground arith

consecutive-lower : (s : Text) → has_consecutive (map to_ascii_lowercase s) ≡ has_consecutive s
unfolding has_consecutive
consecutive-lower [] = refl
consecutive-lower (c ∷ []) = refl
consecutive-lower (c ∷ d ∷ cs) = ground (arith, consecutive-lower (d ∷ cs))

starts-lower : (s : Text) → starts_with_slash (map to_ascii_lowercase s) ≡ starts_with_slash s
starts-lower [] = refl
starts-lower (c ∷ cs) = lower_slash c

lower_valid : (s : Text) → All IsPathChar s → map to_ascii_lowercase s ≡ s
lower_valid [] h = refl
lower_valid (c ∷ cs) h = rw (h.0.lowercase, lower_valid cs h.1)

find_illegal-valid : (s : Text) → All IsPathChar s → find_illegal s ≡ none
unfolding find_illegal
find_illegal-valid [] h = refl
find_illegal-valid (c ∷ cs) h =
    ground (arith, h.0.ascii, h.0.no_backslash, find_illegal-valid cs h.1)

pub from_str-eq-ok :
    (s : Text) {p : Text}
    → from_str s ≡ ok p
    → (byte_len s ≤ 256)
      × (starts_with_slash s ≡ true)
      × (find_illegal s ≡ none)
      × (has_consecutive s ≡ false)
      × (p ≡ map to_ascii_lowercase s)
unfolding from_str
from_str-eq-ok s e = ground arith

pub from_str_lem :
    (s : Text)
    → byte_len s ≤ 256
    → starts_with_slash s ≡ true
    → find_illegal s ≡ none
    → from_str s ≡ (
        if has_consecutive s
        then err (record { path = s; desc = consecutive_slashes })
        else ok (map to_ascii_lowercase s))
unfolding from_str
from_str_lem s short absolute legal = rw legal (ground arith)

-- What `from_str` accepts is a valid path.
pub from_str-IsAccepted : (s : Text) {p : Text} → from_str s ≡ ok p → IsAccepted p
from_str-IsAccepted s {p} e =
    let f = from_str-eq-ok s e in
    rw (f.4) (record {
      short = rw (byte_len-lower s) f.0;
      absolute = starts-lower s ∙ f.1;
      chars = find_illegal-lower s f.2;
      single = consecutive-lower s ∙ f.3;
    })

-- A valid path is accepted, unchanged.
pub from_str-valid : (p : Text) → IsAccepted p → from_str p ≡ ok p
unfolding from_str
from_str-valid p v =
    rw (find_illegal-valid p v.chars, lower_valid p v.chars)
      (ground (arith, v.single, v.absolute, v.short))

-- `from_str` accepts a text and leaves it as it is exactly if the text has at most 256 characters, all of them ASCII,
-- no backslash and no capital, begins with a slash, and has no two slashes in a row.
pub from_str-valid_iff : (p : Text) → (from_str p ≡ ok p) ↔ IsArhPath p
from_str-valid_iff p = (
  λ e. IsAccepted-IsArhPath p (from_str-IsAccepted p e),
  λ v. from_str-valid p (IsArhPath-IsAccepted p v),
)
