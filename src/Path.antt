-- ===== src/Path.antt =====
-- ardain/src/path.rs. A `str` is the list of its code points; an `ArhPath` is the text that it
-- wraps, and what its constructor guarantees of it is `IsArhPath` (Path/Valid).
pub mod Valid
pub mod Normalize
mod Checks
use ard_tools.Base.{
  ℕ, zero, suc, ◌+◌, Bool, true, false, not, ◌&&◌, ◌||◌, Option, none, some, List, [], ◌∷◌, ◌++◌,
  map, ltb, leb, ◌==◌, if◌then◌else◌, Run, ok, err, panic,
}

abbrev pub Text : Type 0
Text = List ℕ

abbrev pub arh_path_max_len : ℕ
arh_path_max_len = 256

abbrev pub arh_path_root : Text
arh_path_root = b'/' ∷ []

pub data PathErrorDesc : Type 0 where
  no_leading_slash consecutive_slashes too_long : PathErrorDesc
  illegal_character : ℕ → PathErrorDesc

pub record InvalidPathError : Type 0 where
  pub path : Text
  pub desc : PathErrorDesc

-- `char::len_utf8` and, summed, `str::len`.
abbrev pub len_utf8 : ℕ → ℕ
len_utf8 c = if ltb c 0x80 then 1 else if ltb c 0x800 then 2 else if ltb c 0x10000 then 3 else 4

abbrev pub byte_len : Text → ℕ
byte_len [] = 0
byte_len (c ∷ cs) = len_utf8 c + byte_len cs

-- `char::to_ascii_lowercase`.
abbrev pub to_ascii_lowercase : ℕ → ℕ
to_ascii_lowercase c = if leb b'A' c && leb c b'Z' then c + 32 else c

abbrev pub starts_with_slash : Text → Bool
starts_with_slash [] = false
starts_with_slash (c ∷ cs) = c == b'/'

abbrev pub is_character_legal : ℕ → Bool
is_character_legal c = ltb c 128 && not (c == 0x5c)

-- `path.chars().find(|&c| !Self::is_character_legal(c))`.
unfoldable pub find_illegal : Text → Option ℕ
find_illegal [] = none
find_illegal (c ∷ cs) = if is_character_legal c then find_illegal cs else some c

-- `windows(2).any(|w| w[0] == w[1] && w[0] == b'/')`. It runs on ASCII text alone, where a byte is
-- a character.
unfoldable pub has_consecutive : Text → Bool
has_consecutive [] = false
has_consecutive (c ∷ []) = false
has_consecutive (c ∷ d ∷ cs) = (c == d && c == b'/') || has_consecutive (d ∷ cs)

-- `ArhPath::from_str`.
unfoldable pub from_str : Text → Run InvalidPathError Text
unfolding find_illegal has_consecutive
from_str s =
    if ltb arh_path_max_len (byte_len s)
    then err (record { path = s; desc = too_long })
    else if not (starts_with_slash s)
    then err (record { path = s; desc = no_leading_slash })
    else elim (find_illegal s) [
      | some c ↦ err (record { path = s; desc = illegal_character c })
      | none ↦
          if has_consecutive s
          then err (record { path = s; desc = consecutive_slashes })
          else ok (map to_ascii_lowercase s)
    ]

-- One character of the loop in `normalize`.
abbrev pub normal_char : ℕ → ℕ
normal_char c = let ch = to_ascii_lowercase c in if ch == 0x5c then b'/' else ch

-- The loop of `normalize`: what it pushes after a character `last`.
unfoldable pub normalize_loop : ℕ → Text → Text
normalize_loop last [] = []
normalize_loop last (c ∷ cs) =
    let ch = normal_char c in
    let skip = normalize_loop last cs in
    let push = ch ∷ normalize_loop ch cs in if ch == b'/' && last == b'/' then skip else push

-- The text that `normalize` collects in `new`.
unfoldable pub normal_text : Text → Text
unfolding normalize_loop
normal_text value =
    let pushed = normalize_loop 0 value in if starts_with_slash value then pushed else b'/' ∷ pushed

-- `ArhPath::normalize`.
unfoldable pub normalize : Text → Run InvalidPathError Text
normalize value = from_str (normal_text value)

-- `as_bytes().last()`.
abbrev pub last? : Text → Option ℕ
last? [] = none
last? (c ∷ []) = some c
last? (c ∷ d ∷ cs) = last? (d ∷ cs)

abbrev pub is_some_slash : Option ℕ → Bool
is_some_slash none = false
is_some_slash (some c) = c == b'/'

-- `&child[1..]` where the child starts with a slash.
abbrev pub strip_slash : Text → Text
strip_slash [] = []
strip_slash (c ∷ cs) = if c == b'/' then cs else c ∷ cs

-- `ArhPath::try_join`.
unfoldable pub try_join : Text → Text → Run InvalidPathError Text
unfolding normalize
try_join path child =
    let new_str = if is_some_slash (last? path) then path else path ++ b'/' ∷ [] in
    normalize (new_str ++ strip_slash child)

-- `ArhPath::join` unwraps the result.
unfoldable pub join {ℓ} : {E : Type ℓ} → Text → Text → Run E Text
unfolding try_join
join path child = elim (try_join path child) [ ok p ↦ ok p | err e ↦ panic | panic ↦ panic ]
