-- ===== src/Arh/Meta/Flags.antt =====
-- ardain/src/arh.rs: `FileMeta::is_flag` and `FileMeta::set_flag`.
use ard_tools.Base.{ℕ, ◌^◌, ◌<◌, ◌≡◌, ◌∙◌, Bool, true, false, arith, ◌==◌, if◌then◌else◌}
use ard_tools.Bits.{
  complement, bit, bit_and-pow, bit-bit_and, bit-bit_or, bit-pow, bit-complement, bit-le, pow_pos,
}
use ard_tools.Arh.Meta.{FileMeta, FileFlag, hidden, has_xbc1_header, flag_number, is_flag, set_flag}

abbrev pub same_flag : FileFlag → FileFlag → Bool
same_flag f g = flag_number f == flag_number g

-- A flag is set if its bit is.
pub is_flag-bit : (m : FileMeta) (f : FileFlag) → is_flag m f ≡ (bit m.flags (flag_number f) == 1)
unfolding is_flag
is_flag-bit m f = ground (
  arith,
  bit_and-pow (flag_number f) m.flags,
  bit-le m.flags (flag_number f),
  pow_pos (flag_number f),
)

two_flags : (f : FileFlag) → flag_number f < 32
two_flags hidden = omega arith
two_flags has_xbc1_header = omega arith

flags-set_flag :
    (m : FileMeta) (f : FileFlag) (v : Bool) (j : ℕ)
    → j < 32
    → bit (set_flag m f v).flags j
      ≡ (if flag_number f == j then (if v then 1 else 0) else bit m.flags j)
unfolding set_flag
flags-set_flag m f true j lt =
    bit-bit_or j m.flags (2 ^ flag_number f)
    ∙ ground (arith, bit-pow (flag_number f) j, bit-le m.flags j)
flags-set_flag m f false j lt =
    bit-bit_and j m.flags (complement 32 (2 ^ flag_number f))
    ∙ ground (
      arith,
      bit-pow (flag_number f) j,
      bit-le m.flags j,
      bit-complement j 32 (2 ^ flag_number f) (below f) lt,
    )
  where
    below : (f : FileFlag) → 2 ^ flag_number f < 2 ^ 32
    below hidden = omega arith
    below has_xbc1_header = omega arith

-- After `set_flag`, `is_flag` gives the new value for that flag, and for the other flag what it gave.
pub is_flag-set_flag :
    (m : FileMeta) (f g : FileFlag) (v : Bool)
    → is_flag (set_flag m f v) g ≡ (if same_flag f g then v else is_flag m g)
is_flag-set_flag m f g v =
    is_flag-bit (set_flag m f v) g
    ∙ ground (arith, flags-set_flag m f v (flag_number g) (two_flags g), is_flag-bit m g)
