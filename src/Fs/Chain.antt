-- ===== src/Fs/Chain.antt =====
-- ardain/src/fs.rs: the way that a path takes through the path dictionary.
pub mod Grown
pub mod Back
pub mod Unique
pub mod Graft
pub mod Child
pub mod Extend
pub mod Share
use ard_tools.Base.{
  ℕ, zero, suc, ◌+◌, ◌<◌, ◌≤◌, ◌≡◌, ◌≢◌, refl, sym, ap, ◌∙◌, inl, inr, Bool, true, false, Option,
  none, some, List, [], ◌∷◌, ◌++◌, arith, get_elem?, bit_xor, Bool-cases, Option-cases, ℕ_discrete,
  ok, err, panic, if◌then◌else◌, ◌==◌,
}
use ard_tools.Arh.Node.{
  DictNode, free, root, occupied, leaf, get_previous, get_next, is_child, is_leaf,
}
use ard_tools.Arh.Dict.{child_at}
use ard_tools.Arh.Trie.{NoChild}
use ard_tools.Path.{Text}
use ard_tools.Fs.Lookup.{Stop, walk}
use ard_tools.Fs.Lookup.Steps.{walk_on, walk_cases, walk_nil}

-- For the character `c` the way leads from the node at `i` to its child at `j`.
pub record Step (nodes : List DictNode) (i c j : ℕ) : Type 0 where
  pub node : DictNode
  pub next : ℕ
  pub child : DictNode
  pub here : get_elem? nodes i ≡ some node
  pub on : get_next node ≡ some next
  pub there : get_elem? nodes j ≡ some child
  pub linked : is_child child i ≡ true
  pub at : bit_xor next c ≡ j

-- For the characters of a text it leads from `i` to `j`.
abbrev pub Chain : List DictNode → ℕ → Text → ℕ → Type 0
Chain nodes i [] j = i ≡ j
Chain nodes i (c ∷ cs) j = (k : ℕ) × Step nodes i c k × Chain nodes k cs j

pub Chain-append :
    (nodes : List DictNode) (i : ℕ) (xs ys : Text) (j k : ℕ)
    → Chain nodes i xs j
    → Chain nodes j ys k
    → Chain nodes i (xs ++ ys) k
Chain-append nodes i [] ys j k e chain = rw e chain
Chain-append nodes i (x ∷ xs) ys j k (m, step, rest) chain =
    (m, step, Chain-append nodes m xs ys j k rest chain)

-- A step more.
pub Chain-snoc :
    (nodes : List DictNode) (i : ℕ) (xs : Text) (j c k : ℕ)
    → Chain nodes i xs j
    → Step nodes j c k
    → Chain nodes i (xs ++ c ∷ []) k
Chain-snoc nodes i xs j c k chain step = Chain-append nodes i xs (c ∷ []) j k chain (k, step, refl)

inner_leaf : (n : DictNode) (next : ℕ) → get_next n ≡ some next → is_leaf n ≡ false
inner_leaf free next h = refl
inner_leaf (root m) next h = refl
inner_leaf (occupied q m) next h = refl
inner_leaf (leaf q s) next h = cc

-- A walk follows the chain.
pub walk-Chain :
    (nodes : List DictNode) (i : ℕ) (node : DictNode) (xs ys : Text) (j : ℕ) (last : DictNode)
    → get_elem? nodes i ≡ some node
    → Chain nodes i xs j
    → get_elem? nodes j ≡ some last
    → walk nodes i node (xs ++ ys) ≡ walk nodes j last ys
walk-Chain nodes i node [] ys j last here same there =
    let nodes_same : node ≡ last = cc in
    ap (λ k. walk nodes k node ys) same ∙ ap (λ n. walk nodes j n ys) nodes_same
walk-Chain nodes i node (x ∷ xs) ys j last here (k, step, rest) there =
    let same : step.node ≡ node = cc (step.here) in
    let on : get_next node ≡ some step.next = ap get_next (sym same) ∙ step.on in
    walk_on nodes i node x (xs ++ ys) (inner_leaf node step.next on) on step.child
      (ap (get_elem? nodes) step.at ∙ step.there) step.linked
    ∙ ap (λ m. walk nodes m step.child (xs ++ ys)) step.at
    ∙ walk-Chain nodes k step.child xs ys j last step.there rest there

-- And a walk that succeeds has a chain to where it stops.
pub Chain-walk :
    (nodes : List DictNode) (i : ℕ) (node : DictNode) (path : Text) {stop : Stop}
    → get_elem? nodes i ≡ some node
    → walk nodes i node path ≡ ok stop
    → (pre : Text) × (path ≡ pre ++ stop.rest)
      × Chain nodes i pre stop.index
      × (get_elem? nodes stop.index ≡ some stop.node)
Chain-walk nodes i node [] {stop} here e =
    let (at_end, shown) = walk_nil nodes i node e in ([], ground arith, ground arith, ground arith)
Chain-walk nodes i node (c ∷ cs) {stop} here e = elim (walk_cases nodes i node c cs e) [
  | inl (l, at_leaf) ↦ ([], ground arith, ground arith, ground arith)
  | inr s ↦
      let (pre, splits, chain, there) =
        Chain-walk nodes (bit_xor s.next c) s.child cs s.there s.ends in
      (
        c ∷ pre,
        ap (λ t. c ∷ t) splits,
        (
          bit_xor s.next c,
          record {
            node = node;
            next = s.next;
            child = s.child;
            here = here;
            on = s.on;
            there = s.there;
            linked = s.linked;
            at = refl;
          },
          chain,
        ),
        there,
      )
]

-- A node on the way from one that is not its own child is not its own child.
pub Chain-apart :
    (nodes : List DictNode) (i : ℕ) (path : Text) (j : ℕ)
    → child_at nodes i i ≡ false
    → Chain nodes i path j
    → child_at nodes j j ≡ false
Chain-apart nodes i [] j apart same = rw same at apart
Chain-apart nodes i (c ∷ cs) j apart (k, step, rest) =
    Chain-apart nodes k cs j
      (elim (Bool-cases (child_at nodes k k)) [
        | inr e ↦ e
        | inl own ↦
            let same : k ≡ i = both step.child k i (ground (arith, step.there)) step.linked in
            cc (ap (λ m. child_at nodes m m) same)
      ])
      rest
  where
    both : (n : DictNode) (p q : ℕ) → is_child n p ≡ true → is_child n q ≡ true → p ≡ q
    both free p q h h' = cc
    both (root m) p q h h' = cc
    both (occupied r m) p q h h' = ground arith
    both (leaf r s) p q h h' = ground arith

-- One dictionary after another that differ in the node at `k`, which has no children, and is then still
-- the child of what it was the child of.
pub record IsUpdate (nodes after : List DictNode) (k : ℕ) : Type 0 where
  pub childless : NoChild nodes k
  pub agree :
      (j : ℕ) (n : DictNode) → j ≢ k → get_elem? nodes j ≡ some n → get_elem? after j ≡ some n
  pub kept :
      (old : DictNode)
      → get_elem? nodes k ≡ some old
      → (new : DictNode) × (get_elem? after k ≡ some new)
        × ((x : ℕ) → is_child old x ≡ true → is_child new x ≡ true)

Step-update :
    (nodes after : List DictNode) (k i c j : ℕ)
    → IsUpdate nodes after k
    → Step nodes i c j
    → Step after i c j
Step-update nodes after k i c j update step =
    let not_k : i ≢ k = λ same. cc (update.childless j, ap (child_at nodes j) same, child) in
    let here = update.agree i step.node not_k step.here in
    elim (ℕ_discrete j k) [
      | no other ↦ record {
        node = step.node;
        next = step.next;
        child = step.child;
        here = here;
        on = step.on;
        there = update.agree j step.child other step.there;
        linked = step.linked;
        at = step.at;
      }
      | yes same ↦
          let (new, there, still) =
            update.kept step.child (ap (get_elem? nodes) (sym same) ∙ step.there) in
          record {
            node = step.node;
            next = step.next;
            child = new;
            here = here;
            on = step.on;
            there = ap (get_elem? after) same ∙ there;
            linked = still i step.linked;
            at = step.at;
          }
    ]
  where
    child : child_at nodes j i ≡ true
    child = ground (arith, step.there, step.linked)

pub Chain-update :
    (nodes after : List DictNode) (k i : ℕ) (path : Text) (j : ℕ)
    → IsUpdate nodes after k
    → Chain nodes i path j
    → Chain after i path j
Chain-update nodes after k i [] j update same = same
Chain-update nodes after k i (c ∷ cs) j update (m, step, rest) =
    (m, Step-update nodes after k i c m update step, Chain-update nodes after k m cs j update rest)
