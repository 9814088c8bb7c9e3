-- ===== src/Arh/Node.antt =====
-- ardain/src/arh.rs: `DictNode`, `RawDictNode`, and the conversions between them. The enum holds
-- indices that are not negative: `From<RawDictNode>` sends a negative field to another variant, and
-- the code builds nodes of positions. So its fields are naturals; the raw fields are integers.
use ard_tools.Base.{
  ℕ, zero, suc, ◌^◌, ◌<◌, ◌≡◌, refl, ◌⊎◌, inl, inr, Bool, true, false, Option, none, some, arith,
  ◌==◌, if◌then◌else◌,
}

-- `negsuc n` is -(n + 1).
pub data ℤ : Type 0 where
  pos : ℕ → ℤ
  negsuc : ℕ → ℤ

pub data DictNode : Type 0 where
  free : DictNode
  root : ℕ → DictNode
  occupied : ℕ → ℕ → DictNode
  leaf : ℕ → ℕ → DictNode

pub record RawDictNode : Type 0 where
  pub next : ℤ
  pub prev : ℤ

abbrev pub neg : ℕ → ℤ
neg zero = pos 0
neg (suc n) = negsuc n

-- The fields `prev` and `next`. `none` is the overflow of `-value.next` at `i32::MIN`.
abbrev pub read_fields : ℤ → ℤ → Option DictNode
read_fields (negsuc p) (negsuc n) = some free
read_fields (negsuc p) (pos n) = some (root n)
read_fields (pos p) (negsuc n) = if suc n == 2 ^ 31 then none else some (leaf p (suc n))
read_fields (pos p) (pos n) = some (occupied p n)

-- `From<RawDictNode> for DictNode`.
unfoldable pub from_raw : RawDictNode → Option DictNode
from_raw value = read_fields value.prev value.next

-- `From<DictNode> for RawDictNode`.
unfoldable pub to_raw : DictNode → RawDictNode
to_raw free = record { next = negsuc 0; prev = negsuc 0 }
to_raw (root n) = record { next = pos n; prev = negsuc 0 }
to_raw (occupied p n) = record { next = pos n; prev = pos p }
to_raw (leaf p s) = record { next = neg s; prev = pos p }

abbrev pub is_leaf : DictNode → Bool
is_leaf (leaf p s) = true
is_leaf _ = false

abbrev pub is_free : DictNode → Bool
is_free free = true
is_free _ = false

abbrev pub get_previous : DictNode → Option ℕ
get_previous free = none
get_previous (root n) = none
get_previous (occupied p n) = some p
get_previous (leaf p s) = some p

abbrev pub get_next : DictNode → Option ℕ
get_next free = none
get_next (root n) = some n
get_next (occupied p n) = some n
get_next (leaf p s) = none

-- `is_child`.
abbrev pub is_some_eq : Option ℕ → ℕ → Bool
is_some_eq none k = false
is_some_eq (some p) k = p == k

abbrev pub is_child : DictNode → ℕ → Bool
is_child node parent = is_some_eq (get_previous node) parent

abbrev pub attach_next : DictNode → ℕ → DictNode
attach_next free k = root k
attach_next (root n) k = root k
attach_next (occupied p n) k = occupied p k
attach_next (leaf p s) k = occupied p k

-- `none` is the panic on a free node.
abbrev pub attach_previous : DictNode → ℕ → Option DictNode
attach_previous free k = none
attach_previous (root n) k = some (occupied k n)
attach_previous (occupied p n) k = some (occupied k n)
attach_previous (leaf p s) k = some (leaf k s)

-- A leaf's text does not stand at the start of the string table.
abbrev pub is_lost : DictNode → Bool
is_lost (leaf p zero) = true
is_lost _ = false

-- What an `i32` field can hold.
abbrev pub Fits : DictNode → Type 0
Fits free = Unit {0}
Fits (root n) = n < 2 ^ 31
Fits (occupied p n) = (p < 2 ^ 31) × (n < 2 ^ 31)
Fits (leaf p s) = (p < 2 ^ 31) × (s < 2 ^ 31)

-- A node whose links fit into their fields, written and read back, is the same, but for a leaf whose
-- text stands at offset 0 of the string table, which comes back as an occupied node.
pub from_raw-to_raw :
    (n : DictNode)
    → Fits n
    → ((is_lost n ≡ false) × (from_raw (to_raw n) ≡ some n))
      ⊎ ((is_lost n ≡ true)
          × ((p : ℕ) × (n ≡ leaf p 0) × (from_raw (to_raw n) ≡ some (occupied p 0))))
unfolding from_raw to_raw
from_raw-to_raw free h = inl (refl, refl)
from_raw-to_raw (root n) h = inl (refl, refl)
from_raw-to_raw (occupied p n) h = inl (refl, refl)
from_raw-to_raw (leaf p zero) h = inr (refl, (p, refl, refl))
from_raw-to_raw (leaf p (suc s)) h = inl (refl, ground arith)
