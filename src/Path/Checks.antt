-- ===== src/Path/Checks.antt =====
-- ardain/src/path.rs: the model run on inputs, and the theorems at inputs.
use ard_tools.Base.{◌≡◌, ◌↔◌, ◌⊎◌, refl, true, false, [], ◌∷◌, arith, ok, err}
use ard_tools.Path.{Text, from_str, normalize, normal_text, consecutive_slashes}
use ard_tools.Path.Valid.{IsArhPath, from_str-valid_iff}
use ard_tools.Path.Normalize.{normalize_twice, normalize_cases, head_backslash}

-- "/a"
abbrev slash_a : Text
slash_a = b'/' ∷ b'a' ∷ []

-- "A\\//b"
abbrev mixed : Text
mixed = b'A' ∷ 0x5c ∷ b'/' ∷ b'/' ∷ b'b' ∷ []

-- "/a/b"
abbrev mixed_normal : Text
mixed_normal = b'/' ∷ b'a' ∷ b'/' ∷ b'b' ∷ []

mixed_runs : normalize mixed ≡ ok mixed_normal
unfolding normalize normal_text from_str
mixed_runs = refl

mixed_normal-IsArhPath : IsArhPath mixed_normal
mixed_normal-IsArhPath = (normalize_twice mixed mixed_runs).0

from_str-valid_iff_example : (from_str mixed_normal ≡ ok mixed_normal) ↔ IsArhPath mixed_normal
from_str-valid_iff_example = from_str-valid_iff mixed_normal

normalize_twice_example : IsArhPath mixed_normal × (normalize mixed_normal ≡ ok mixed_normal)
normalize_twice_example = normalize_twice mixed mixed_runs

normalize_cases_example :
    ((head_backslash (0x5c ∷ b'a' ∷ []) ≡ false)
      × ((p : Text) × (normalize (0x5c ∷ b'a' ∷ []) ≡ ok p) × IsArhPath p))
    ⊎ ((head_backslash (0x5c ∷ b'a' ∷ []) ≡ true)
        × (normalize (0x5c ∷ b'a' ∷ [])
            ≡ err (record { path = normal_text (0x5c ∷ b'a' ∷ []); desc = consecutive_slashes })))
normalize_cases_example = normalize_cases (0x5c ∷ b'a' ∷ []) (omega arith) (omega arith)
