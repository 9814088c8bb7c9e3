-- ===== src/Fs/Chain/Back.antt =====
-- ardain/src/fs.rs: which ways there were before a node got a child.
use ard_tools.Base.{
  ℕ, ◌≡◌, ◌≢◌, refl, sym, ap, ◌∙◌, inl, inr, true, false, some, List, [], ◌∷◌, ◌++◌, arith, ltb,
  length, get_elem?, bit_xor, Bool-cases, Option-cases, ℕ_discrete,
}
use ard_tools.Bits.Xor.{bit_xor-cancel}
use ard_tools.Arh.Node.{
  DictNode, free, root, occupied, leaf, get_previous, get_next, is_child, is_free,
}
use ard_tools.Arh.Dict.{child_at, grow}
use ard_tools.Arh.Trie.{NoChild}
use ard_tools.Arh.Trie.Grow.{get_elem?-grow, child_at-grow}
use ard_tools.Arh.Trie.Plant.{IsPlanted, IsAttached, child_at-attached, named_parent}
use ard_tools.Path.{Text}
use ard_tools.Fs.Chain.{Step, Chain}

abbrev pub IsTaken : List DictNode → ℕ → Type 0
IsTaken nodes i = (n : DictNode) × (get_elem? nodes i ≡ some n) × (is_free n ≡ false)

-- A way, from a child's point of view.
Step-child :
    (nodes : List DictNode) (i c j : ℕ) (node : DictNode) (next : ℕ)
    → get_elem? nodes i ≡ some node
    → get_next node ≡ some next
    → child_at nodes j i ≡ true
    → bit_xor next c ≡ j
    → Step nodes i c j
Step-child nodes i c j node next here on child at = elim (Option-cases (get_elem? nodes j)) [
  | inl out ↦ absurd (ground arith)
  | inr (n, there) ↦ record {
    node = node;
    next = next;
    child = n;
    here = here;
    on = on;
    there = there;
    linked = ground arith;
    at = at;
  }
]

pub child_at-Step :
    (nodes : List DictNode) (i c j : ℕ) → Step nodes i c j → child_at nodes j i ≡ true
child_at-Step nodes i c j step = ground (arith, step.there, step.linked)

module _ (nodes after : List DictNode) (p : ℕ) (node : DictNode) (next : ℕ)
    (attached : IsAttached nodes after p node next) (childless : NoChild nodes p) where
  pub Chain-unattached : (i : ℕ) (path : Text) (j : ℕ) → Chain after i path j → Chain nodes i path j
  Chain-unattached i [] j same = same
  Chain-unattached i (c ∷ cs) j (k, step, rest) =
      let child : child_at nodes k i ≡ true =
        sym (child_at-attached nodes after p node next attached k i)
        ∙ child_at-Step after i c k step in
      let apart : p ≢ i = λ same. cc (childless k, ap (child_at nodes k) same) in
      (
        k,
        Step-child nodes i c k step.node step.next
            (ground (arith, attached.each i, apart, step.here)) step.on child step.at,
        Chain-unattached k cs j rest,
      )

pub old_node :
    (nodes : List DictNode) (j : ℕ) (n : DictNode)
    → get_elem? (grow nodes) j ≡ some n
    → is_free n ≡ false
    → get_elem? nodes j ≡ some n
old_node nodes j n there full = elim (Bool-cases (ltb j (length nodes))) [
  | inl inside ↦ ground (arith, get_elem?-grow nodes j)
  | inr outside ↦ absurd (ground (arith, get_elem?-grow nodes j))
]

pub inner_taken : (n : DictNode) {next : ℕ} → get_next n ≡ some next → is_free n ≡ false
inner_taken free on = cc
inner_taken (root m) on = refl
inner_taken (occupied q m) on = refl
inner_taken (leaf q s) on = refl

pub Chain-ungrown :
    (nodes : List DictNode) (i : ℕ) (path : Text) (j : ℕ)
    → Chain (grow nodes) i path j
    → Chain nodes i path j
Chain-ungrown nodes i [] j same = same
Chain-ungrown nodes i (c ∷ cs) j (k, step, rest) =
    let child = sym (child_at-grow nodes k i) ∙ child_at-Step (grow nodes) i c k step in
    (
      k,
      Step-child nodes i c k step.node step.next
          (old_node nodes i step.node step.here (inner_taken step.node step.on)) step.on child
          step.at,
      Chain-ungrown nodes k cs j rest,
    )

module _ (nodes after : List DictNode) (k : ℕ) (x : DictNode) (planted : IsPlanted nodes after k x)
    (childless : NoChild after k) where
  Step-unplanted : (i c j : ℕ) → i ≢ k → j ≢ k → Step after i c j → Step nodes i c j
  Step-unplanted i c j apart other step = record {
    node = step.node;
    next = step.next;
    child = step.child;
    here = sym (planted.each i ∙ ground (arith, apart)) ∙ step.here;
    on = step.on;
    there = sym (planted.each j ∙ ground (arith, other)) ∙ step.there;
    linked = step.linked;
    at = step.at;
  }

  Step-apart : (i c j : ℕ) → Step after i c j → i ≢ k
  Step-apart i c j step same =
      cc (childless j, child_at-Step after i c j step, ap (child_at after j) same)

  -- The new node is on no way to another one.
  pub Chain-unplanted :
      (i : ℕ) (path : Text) (j : ℕ) → j ≢ k → Chain after i path j → Chain nodes i path j × (i ≢ k)
  Chain-unplanted i [] j other same = (same, λ e. other (sym same ∙ e))
  Chain-unplanted i (c ∷ cs) j other (m, step, rest) =
      let (way, apart) = Chain-unplanted m cs j other rest in
      let start = Step-apart i c m step in ((m, Step-unplanted i c m start apart step, way), start)

  module _ (p next chr : ℕ) (parent : DictNode) (names : get_previous x ≡ some p)
      (there : get_elem? nodes p ≡ some parent) (inner : get_next parent ≡ some next)
      (at : bit_xor next chr ≡ k) where
    last-Step : (i c : ℕ) → i ≢ k → Step after i c k → (i ≡ p) × (c ≡ chr)
    last-Step i c apart step =
        let at_k : get_elem? after k ≡ some x = planted.each k ∙ ground arith in
        let at_i : get_elem? after i ≡ get_elem? nodes i = planted.each i ∙ ground (arith, apart) in
        let own : step.child ≡ x = cc (step.there) in
        let parent_same : i ≡ p =
          named_parent x p i names (ap (λ n. is_child n i) (sym own) ∙ step.linked) in
        let node_same : step.node ≡ parent =
          cc (step.here, ap (get_elem? nodes) parent_same, there) in
        let next_same : step.next ≡ next = cc (step.on, ap get_next node_same, inner) in
        (
          parent_same,
          sym (bit_xor-cancel next c)
              ∙ ap (bit_xor next) (ap (λ n. bit_xor n c) (sym next_same) ∙ step.at ∙ sym at)
              ∙ bit_xor-cancel next chr,
        )

    -- The ways to the new node go over its parent, by its character.
    pub Chain-planted :
        (i : ℕ) (path : Text)
        → i ≢ k
        → Chain after i path k
        → (start : Text) × (path ≡ start ++ chr ∷ []) × Chain nodes i start p
    Chain-planted i [] apart same = absurd (apart same)
    Chain-planted i (c ∷ cs) apart (m, step, rest) = elim (ℕ_discrete m k) [
      | no other ↦
          let (start, splits, way) = Chain-planted m cs other rest in
          (c ∷ start, ap (λ t. c ∷ t) splits, (m, Step-unplanted i c m apart other step, way))
      | yes same ↦
          let (parent_same, chr_same) = last-Step i c apart (rw (← same) step) in
          ([], ends m cs same rest ∙ ap (λ d. d ∷ []) chr_same, parent_same)
    ]
      where
        ends : (m : ℕ) (cs : Text) → m ≡ k → Chain after m cs k → c ∷ cs ≡ c ∷ []
        ends m [] same chain = refl
        ends m (d ∷ ds) same (l, step, rest) = absurd (Step-apart m d l step same)
