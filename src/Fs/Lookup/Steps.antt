-- ===== src/Fs/Lookup/Steps.antt =====
-- ardain/src/fs.rs: the walk of `get_file_id`, step by step.
use ard_tools.Base.{
  ℕ, ◌≡◌, ◌||◌, ◌⊎◌, inl, inr, refl, sym, ap, ◌∙◌, Bool, true, false, none, some, List, [], ◌∷◌,
  arith, get_elem?, bit_xor, ok, err, panic, Option-cases, Bool-cases,
}
use ard_tools.Arh.Node.{DictNode, free, root, occupied, leaf, get_next, is_child, is_leaf, is_free}
use ard_tools.Path.{Text}
use ard_tools.Fs.Lookup.{Stop, text_eq, walk, walk_root}

-- One step of a walk, from a node that is no leaf.
module _ (nodes : List DictNode) (i : ℕ) (node : DictNode) (c : ℕ) (cs : Text) {next : ℕ}
    (inner : is_leaf node ≡ false) (on : get_next node ≡ some next) where
  pub walk_out : get_elem? nodes (bit_xor next c) ≡ none → walk nodes i node (c ∷ cs) ≡ err tt
  unfolding walk
  walk_out e = ground arith

  pub walk_astray :
      (child : DictNode)
      → get_elem? nodes (bit_xor next c) ≡ some child
      → is_child child i ≡ false
      → walk nodes i node (c ∷ cs) ≡ err tt
  unfolding walk
  walk_astray child e f = ground arith

  pub walk_on :
      (child : DictNode)
      → get_elem? nodes (bit_xor next c) ≡ some child
      → is_child child i ≡ true
      → walk nodes i node (c ∷ cs) ≡ walk nodes (bit_xor next c) child cs
  unfolding walk
  walk_on child e f = ground arith

pub walk_leaf :
    (nodes : List DictNode) (i : ℕ) (node : DictNode) (path : Text)
    → is_leaf node ≡ true
    → walk nodes i node path ≡ ok (record { index = i; node = node; rest = path })
unfolding walk
walk_leaf nodes i node [] l = ground arith
walk_leaf nodes i node (c ∷ cs) l = ground arith

pub walk_stuck :
    (nodes : List DictNode) (i : ℕ) (node : DictNode) (c : ℕ) (cs : Text)
    → is_leaf node ≡ false
    → get_next node ≡ none
    → walk nodes i node (c ∷ cs) ≡ panic
unfolding walk
walk_stuck nodes i node c cs l e = ground arith

-- A walk that goes on for a character, to a child at `j`.
pub record Steps (nodes : List DictNode) (i : ℕ) (node : DictNode) (c : ℕ) (cs : Text) (stop : Stop)
    : Type 0 where
  pub inner : is_leaf node ≡ false
  pub next : ℕ
  pub on : get_next node ≡ some next
  pub child : DictNode
  pub there : get_elem? nodes (bit_xor next c) ≡ some child
  pub linked : is_child child i ≡ true
  pub ends : walk nodes (bit_xor next c) child cs ≡ ok stop

-- A walk that succeeds stops at a leaf, or goes on.
pub walk_cases :
    (nodes : List DictNode) (i : ℕ) (node : DictNode) (c : ℕ) (cs : Text) {stop : Stop}
    → walk nodes i node (c ∷ cs) ≡ ok stop
    → ((is_leaf node ≡ true) × (stop ≡ record { index = i; node = node; rest = c ∷ cs }))
      ⊎ Steps nodes i node c cs stop
walk_cases nodes i node c cs {stop} e = elim (Bool-cases (is_leaf node)) [
  | inl l ↦ inl (l, cc (walk_leaf nodes i node (c ∷ cs) l))
  | inr l ↦ elim (Option-cases (get_next node)) [
    | inl n ↦ cc (walk_stuck nodes i node c cs l n)
    | inr (next, on) ↦ elim (Option-cases (get_elem? nodes (bit_xor next c))) [
      | inl out ↦ cc (walk_out nodes i node c cs l on out)
      | inr (child, there) ↦ elim (Bool-cases (is_child child i)) [
        | inr astray ↦ cc (walk_astray nodes i node c cs l on child there astray)
        | inl linked ↦ inr (record {
          inner = l;
          next = next;
          on = on;
          child = child;
          there = there;
          linked = linked;
          ends = sym (walk_on nodes i node c cs l on child there linked) ∙ e;
        })
      ]
    ]
  ]
]

-- At the end of the path a walk succeeds at a leaf, or at a node that is its own child.
pub walk_nil :
    (nodes : List DictNode) (i : ℕ) (node : DictNode) {stop : Stop}
    → walk nodes i node [] ≡ ok stop
    → (stop ≡ record { index = i; node = node; rest = [] })
      × ((is_leaf node || is_child node i) ≡ true)
unfolding walk
walk_nil nodes i node e = ground arith

pub walk_root_at :
    (nodes : List DictNode) (node : DictNode) (path : Text)
    → get_elem? nodes 0 ≡ some node
    → walk_root nodes path ≡ walk nodes 0 node path
unfolding walk_root
walk_root_at nodes node path e = ground arith

pub walk_root_out :
    (nodes : List DictNode) (path : Text) → get_elem? nodes 0 ≡ none → walk_root nodes path ≡ panic
unfolding walk_root
walk_root_out nodes path e = ground arith

-- Whether the first node, from which every walk starts, is free.
abbrev pub root_is_free : List DictNode → Bool
root_is_free nodes = elim (get_elem? nodes 0) [ none ↦ false | some node ↦ is_free node ]

-- From a free root a walk panics at its first character.
pub walk_root_free :
    (nodes : List DictNode) (c : ℕ) (cs : Text)
    → get_elem? nodes 0 ≡ some free
    → walk_root nodes (c ∷ cs) ≡ panic
walk_root_free nodes c cs e =
    walk_root_at nodes free (c ∷ cs) e ∙ walk_stuck nodes 0 free c cs refl refl

-- A walk that succeeds with a character to go did not start at a free node.
pub walk_not_free :
    (nodes : List DictNode) (i : ℕ) (node : DictNode) (c : ℕ) (cs : Text) {stop : Stop}
    → walk nodes i node (c ∷ cs) ≡ ok stop
    → is_free node ≡ false
walk_not_free nodes i free c cs e = cc (walk_stuck nodes i free c cs refl refl)
walk_not_free nodes i (root n) c cs e = refl
walk_not_free nodes i (occupied p n) c cs e = refl
walk_not_free nodes i (leaf p s) c cs e = refl

pub text_eq-eq : (xs ys : Text) → text_eq xs ys ≡ true → xs ≡ ys
text_eq-eq [] [] h = refl
text_eq-eq [] (y ∷ ys) h = cc
text_eq-eq (x ∷ xs) [] h = cc
text_eq-eq (x ∷ xs) (y ∷ ys) h =
    let rest = text_eq-eq xs ys (ground arith) in
    let first : x ≡ y = ground arith in ap (λ c. c ∷ xs) first ∙ ap (λ t. y ∷ t) rest
