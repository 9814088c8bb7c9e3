-- ===== src/Path/Normalize.antt =====
-- ardain/src/path.rs: `normalize` and `try_join`.
use ard_tools.Base.{
  ℕ, ◌+◌, ◌≤◌, ◌<◌, ◌≡◌, refl, ◌∙◌, ◌≢◌, ◌⊎◌, inl, inr, Bool, true, false, ◌&&◌, none, [], ◌∷◌,
  ◌++◌, map, arith, ◌==◌, if◌then◌else◌, ok, err, All, All-append, Bool-cases,
}
use ard_tools.Path.{
  Text, byte_len, to_ascii_lowercase, starts_with_slash, find_illegal, has_consecutive, normal_char,
  normalize_loop, normal_text, normalize, last?, is_some_slash, consecutive_slashes, strip_slash,
  try_join,
}
use ard_tools.Path.Valid.{
  IsPathChar, IsArhPath, IsAccepted, IsAccepted-IsArhPath, IsArhPath-IsAccepted,
  from_str-IsAccepted, from_str-valid, from_str_lem,
}

-- The loop of `normalize` never pushes two slashes in a row.
single_after : (last : ℕ) (cs : Text) → has_consecutive (last ∷ normalize_loop last cs) ≡ false
unfolding has_consecutive normalize_loop
single_after last [] = refl
single_after last (c ∷ cs) = elim (Bool-cases (normal_char c == b'/' && last == b'/')) [
  | inl e ↦ rw (e, normalize_loop) (single_after last cs)
  | inr e ↦ ground (arith, single_after (normal_char c) cs)
]

normalize_loop-valid :
    (last : ℕ) (p : Text)
    → All IsPathChar p
    → has_consecutive (last ∷ p) ≡ false
    → normalize_loop last p ≡ p
unfolding normalize_loop has_consecutive
normalize_loop-valid last [] v h = refl
normalize_loop-valid last (c ∷ cs) v h =
    ground (arith, v.0.no_backslash, v.0.lowercase, normalize_loop-valid c cs v.1)

normal_text-valid : (p : Text) → IsAccepted p → normal_text p ≡ p
unfolding normal_text has_consecutive
normal_text-valid [] v = cc
normal_text-valid (c ∷ cs) v =
    let first : (c == b'/') ≡ true = v.absolute in
    let kept : normalize_loop 0 (c ∷ cs) ≡ c ∷ cs =
      normalize_loop-valid 0 (c ∷ cs) v.chars (ground (arith, v.single)) in
    rw (first, kept)

-- A path that is valid already is kept.
pub normalize-valid : (p : Text) → IsAccepted p → normalize p ≡ ok p
unfolding normalize
normalize-valid p v = rw (normal_text-valid p v) (from_str-valid p v)

-- Where `normalize` succeeds, its result is a valid path, and normalizing that again changes nothing.
pub normalize_twice :
    (s : Text) {p : Text} → normalize s ≡ ok p → IsArhPath p × (normalize p ≡ ok p)
unfolding normalize
normalize_twice s {p} e =
    let v = from_str-IsAccepted (normal_text s) e in (IsAccepted-IsArhPath p v, normalize-valid p v)

find_illegal-loop :
    (last : ℕ) (cs : Text) → All (λ c. c < 128) cs → find_illegal (normalize_loop last cs) ≡ none
unfolding find_illegal normalize_loop
find_illegal-loop last [] h = refl
find_illegal-loop last (c ∷ cs) h =
    ground (arith, find_illegal-loop last cs h.1, find_illegal-loop (normal_char c) cs h.1)

byte_len-loop : (last : ℕ) (cs : Text) → byte_len (normalize_loop last cs) ≤ byte_len cs
unfolding normalize_loop
byte_len-loop last [] = omega arith
byte_len-loop last (c ∷ cs) =
    ground (arith, byte_len-loop last cs, byte_len-loop (normal_char c) cs)

-- Whether a text begins with a backslash.
unfoldable pub head_backslash : Text → Bool
head_backslash [] = false
head_backslash (c ∷ cs) = c == 0x5c

has_consecutive-normal_text : (s : Text) → has_consecutive (normal_text s) ≡ head_backslash s
unfolding normal_text normalize_loop has_consecutive head_backslash
has_consecutive-normal_text [] = refl
has_consecutive-normal_text (c ∷ cs) = ground (arith, single_after (normal_char c) cs)

find_illegal-normal_text : (s : Text) → All (λ c. c < 128) s → find_illegal (normal_text s) ≡ none
unfolding normal_text find_illegal
find_illegal-normal_text s h = ground (arith, find_illegal-loop 0 s h)

byte_len-normal_text : (s : Text) → byte_len (normal_text s) ≤ byte_len s + 1
unfolding normal_text
byte_len-normal_text s = ground (arith, byte_len-loop 0 s)

starts-normal_text : (s : Text) → starts_with_slash (normal_text s) ≡ true
unfolding normal_text normalize_loop
starts-normal_text [] = refl
starts-normal_text (c ∷ cs) = ground arith

normalize-if :
    (s : Text)
    → All (λ c. c < 128) s
    → byte_len s < 256
    → normalize s ≡ (
        if head_backslash s
        then err (record { path = normal_text s; desc = consecutive_slashes })
        else ok (map to_ascii_lowercase (normal_text s)))
unfolding normalize
normalize-if s legal short = rw (← has_consecutive-normal_text s) (
    from_str_lem (normal_text s) (omega (arith, byte_len-normal_text s)) (starts-normal_text s)
      (find_illegal-normal_text s legal))

-- On an ASCII text of fewer than 256 characters, `normalize` gives a valid path if the text does not
-- begin with a backslash, and fails with `consecutive_slashes` if it does.
pub normalize_cases :
    (s : Text)
    → All (λ c. c < 128) s
    → byte_len s < 256
    → ((head_backslash s ≡ false) × ((p : Text) × (normalize s ≡ ok p) × IsArhPath p))
      ⊎ ((head_backslash s ≡ true)
          × (normalize s ≡ err (record { path = normal_text s; desc = consecutive_slashes })))
normalize_cases s legal short = elim (Bool-cases (head_backslash s)) [
  | inl e ↦ inr (e, normalize-if s legal short ∙ rw e)
  | inr e ↦
      let done : normalize s ≡ ok (map to_ascii_lowercase (normal_text s)) =
        normalize-if s legal short ∙ rw e in
      inl (e, (map to_ascii_lowercase (normal_text s), done, (normalize_twice s done).0))
]

abbrev pub IsPlain : ℕ → Type 0
IsPlain c = IsPathChar c × (c ≢ b'/')

has_consecutive-plain : (d : ℕ) (cs : Text) → All IsPlain cs → has_consecutive (d ∷ cs) ≡ false
unfolding has_consecutive
has_consecutive-plain d [] h = refl
has_consecutive-plain d (c ∷ cs) h = ground (arith, h.0.1, has_consecutive-plain c cs h.1)

has_consecutive-append :
    (p cs : Text) → All IsPlain cs → has_consecutive p ≡ false → has_consecutive (p ++ cs) ≡ false
unfolding has_consecutive
has_consecutive-append [] [] h e = refl
has_consecutive-append [] (c ∷ cs) h e = has_consecutive-plain c cs h.1
has_consecutive-append (c ∷ []) cs h e = has_consecutive-plain c cs h
has_consecutive-append (c ∷ d ∷ p) cs h e = ground (arith, has_consecutive-append (d ∷ p) cs h)

has_consecutive-slash :
    (p : Text)
    → is_some_slash (last? p) ≡ false
    → has_consecutive p ≡ false
    → has_consecutive (p ++ b'/' ∷ []) ≡ false
unfolding has_consecutive
has_consecutive-slash [] h e = refl
has_consecutive-slash (c ∷ []) h e = ground arith
has_consecutive-slash (c ∷ d ∷ p) h e = ground (arith, has_consecutive-slash (d ∷ p) h)

byte_len-append : (p q : Text) → byte_len (p ++ q) ≡ byte_len p + byte_len q
byte_len-append [] q = omega arith
byte_len-append (c ∷ p) q = omega (arith, byte_len-append p q)

chars_of_plain : (cs : Text) → All IsPlain cs → All IsPathChar cs
chars_of_plain [] h = tt
chars_of_plain (c ∷ cs) h = (h.0.0, chars_of_plain cs h.1)

strip_plain : (cs : Text) → All IsPlain cs → strip_slash cs ≡ cs
strip_plain [] h = refl
strip_plain (c ∷ cs) h = ground (arith, h.0.1)

starts-append : (p q : Text) → starts_with_slash p ≡ true → starts_with_slash (p ++ q) ≡ true
starts-append [] q h = cc
starts-append (c ∷ p) q h = h

slash-IsPathChar : IsPathChar b'/'
slash-IsPathChar = record { ascii = omega arith; no_backslash = omega arith; lowercase = refl }

-- A directory's path with the slash that parts it from an entry.
abbrev pub dir_prefix : Text → Text
dir_prefix p = if is_some_slash (last? p) then p else p ++ b'/' ∷ []

dir_prefix-IsAccepted : (p : Text) → IsAccepted p → byte_len p < 256 → IsAccepted (dir_prefix p)
dir_prefix-IsAccepted p v short = elim (Bool-cases (is_some_slash (last? p))) [
  | inl e ↦ rw e v
  | inr e ↦ rw e (record {
    short = omega (arith, byte_len-append p (b'/' ∷ []));
    absolute = starts-append p _ v.absolute;
    chars = All-append IsPathChar p _ v.chars (slash-IsPathChar, tt);
    single = has_consecutive-slash p e v.single;
  })
]

append-IsAccepted :
    (p cs : Text)
    → IsAccepted p
    → All IsPlain cs
    → byte_len p + byte_len cs ≤ 256
    → IsAccepted (p ++ cs)
append-IsAccepted p cs v h short = record {
  short = omega (arith, byte_len-append p cs);
  absolute = starts-append p cs v.absolute;
  chars = All-append IsPathChar p cs v.chars (chars_of_plain cs h);
  single = has_consecutive-append p cs h v.single;
}

byte_len-dir_prefix : (p : Text) → byte_len (dir_prefix p) ≤ byte_len p + 1
byte_len-dir_prefix p = ground (arith, byte_len-append p (b'/' ∷ []))

-- If a valid path and a text of legal lower-case characters without slashes are together shorter than
-- 256 bytes, `try_join` gives the path, one slash if the path does not end in one, and the text.
pub try_join-append :
    (p cs : Text)
    → IsArhPath p
    → All IsPlain cs
    → byte_len p + byte_len cs < 256
    → try_join p cs ≡ ok (dir_prefix p ++ cs)
unfolding try_join
try_join-append p cs v h short = rw (strip_plain cs h) (
    normalize-valid (dir_prefix p ++ cs) (
      append-IsAccepted (dir_prefix p) cs
        (dir_prefix-IsAccepted p (IsArhPath-IsAccepted p v) (omega arith)) h
        (omega (arith, byte_len-dir_prefix p))))
