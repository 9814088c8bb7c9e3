-- ===== src/Base/Sorted.antt =====
-- `binary_search` of a vector. On a vector sorted by the key the standard library returns the
-- position of the match, or else the one at which the key can be inserted; keys here are unique, so
-- this is the first element that is not less than the key. On other vectors its result is not
-- specified; the program searches vectors that it keeps sorted.
use Prim.Native.Nat.{ℕ, suc, Ordering}
use mathlib.Core.List.{List, [], ◌∷◌}

pub data Search : Type 0 where
  found : ℕ → Search
  missing : ℕ → Search

abbrev pub next_position : Search → Search
next_position (found i) = found (suc i)
next_position (missing i) = missing (suc i)

-- `compare_key x` is how the element `x` compares to the key.
unfoldable pub binary_search {ℓ} : {A : Type ℓ} → (A → Ordering) → List A → Search
binary_search compare_key [] = missing 0
binary_search compare_key (x ∷ xs) = elim (compare_key x) [
  | Ordering.lt ↦ next_position (binary_search compare_key xs)
  | Ordering.eq ↦ found 0
  | Ordering.gt ↦ missing 0
]
