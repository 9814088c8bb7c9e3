-- ===== src/Fs/Place/Follow.antt =====
-- ardain/src/fs.rs: the loop of `create_file` that follows the existing path.
use ard_tools.Base.{
  ℕ, ◌≡◌, ◌⊎◌, refl, ap, inl, inr, true, false, some, List, [], ◌∷◌, ◌++◌, arith, get_elem?,
  bit_xor, Bool-cases, Option-cases, ok,
}
use ard_tools.Arh.Node.{DictNode, get_next, is_child, is_leaf}
use ard_tools.Arh.Dict.{child_at}
use ard_tools.Path.{Text}
use ard_tools.Fs.Create.{Branch, follow}
use ard_tools.Fs.Chain.{Step, Chain}

-- The node has no child for the next character.
pub record IsEnd (nodes : List DictNode) (index : ℕ) (node : DictNode) (rest : Text) : Type 0 where
  pub chr : ℕ
  pub chrs : Text
  pub next : ℕ
  pub more : rest ≡ chr ∷ chrs
  pub on : get_next node ≡ some next
  pub vacant : child_at nodes (bit_xor next chr) index ≡ false

-- From the node at `i` the path leads to the branch, which is a leaf or has no child for what follows.
pub record IsBranch (nodes : List DictNode) (i : ℕ) (path : Text) (branch : Branch) : Type 0 where
  pub pre : Text
  pub splits : path ≡ pre ++ branch.rest
  pub chain : Chain nodes i pre branch.index
  pub there : get_elem? nodes branch.index ≡ some branch.node
  pub stops : (is_leaf branch.node ≡ true) ⊎ IsEnd nodes branch.index branch.node branch.rest

IsBranch-here :
    (nodes : List DictNode) (i : ℕ) (path : Text) (node : DictNode) (last_parent : ℕ)
    {branch : Branch}
    → get_elem? nodes i ≡ some node
    → (is_leaf node ≡ true) ⊎ IsEnd nodes i node path
    → branch ≡ record { index = i; node = node; last_parent = last_parent; rest = path }
    → IsBranch nodes i path branch
IsBranch-here nodes i path node last_parent here stops same =
    rw same (record { pre = []; splits = refl; chain = refl; there = here; stops = stops })

IsBranch-Step :
    (nodes : List DictNode) (i c j : ℕ) (cs : Text) (branch : Branch)
    → Step nodes i c j
    → IsBranch nodes j cs branch
    → IsBranch nodes i (c ∷ cs) branch
IsBranch-Step nodes i c j cs branch step rest = record {
  pre = c ∷ rest.pre;
  splits = ap (λ t. c ∷ t) rest.splits;
  chain = (j, step, rest.chain);
  there = rest.there;
  stops = rest.stops;
}

pub follow-IsBranch :
    (nodes : List DictNode) (i : ℕ) (node : DictNode) (last_parent : ℕ) (path : Text)
    {branch : Branch}
    → get_elem? nodes i ≡ some node
    → follow nodes i node last_parent path ≡ ok branch
    → IsBranch nodes i path branch
unfolding follow
follow-IsBranch nodes i node last_parent [] here e = elim (Bool-cases (is_leaf node)) [
  | inl l ↦ IsBranch-here nodes i [] node last_parent here (inl l) (ground (arith, e))
  | inr l ↦ absurd (ground (arith, e))
]
follow-IsBranch nodes i node last_parent (c ∷ cs) {branch} here e =
    elim (Bool-cases (is_leaf node)) [
      | inl l ↦ IsBranch-here nodes i (c ∷ cs) node last_parent here (inl l) (ground (arith, e))
      | inr l ↦ elim (Option-cases (get_next node)) [
        | inl stuck ↦ absurd (ground (arith, e))
        | inr (n, on) ↦ elim (Option-cases (get_elem? nodes (bit_xor n c))) [
          | inl out ↦ absurd (ground (arith, e))
          | inr (child, there) ↦ elim (Bool-cases (is_child child i)) [
            | inr stray ↦
                let stops : IsEnd nodes i node (c ∷ cs) = record {
                  chr = c;
                  chrs = cs;
                  next = n;
                  more = refl;
                  on = on;
                  vacant = ground (arith, there, stray);
                } in
                IsBranch-here nodes i (c ∷ cs) node last_parent here (inr stops) (ground (arith, e))
            | inl linked ↦
                let goes : follow nodes (bit_xor n c) child i cs ≡ ok branch = ground (arith, e) in
                IsBranch-Step nodes i c (bit_xor n c) cs branch
                  (record {
                    node = node;
                    next = n;
                    child = child;
                    here = here;
                    on = on;
                    there = there;
                    linked = linked;
                    at = refl;
                  })
                  (follow-IsBranch nodes (bit_xor n c) child i cs there goes)
          ]
        ]
      ]
    ]
