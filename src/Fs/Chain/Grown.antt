-- ===== src/Fs/Chain/Grown.antt =====
-- ardain/src/arh.rs, ardain/src/fs.rs: the ways of paths after `allocate_new_block`.
use ard_tools.Base.{
  ℕ, ◌<◌, ◌≡◌, sym, ap, ◌∙◌, true, false, some, List, [], ◌∷◌, arith, get_elem?, bit_xor,
  ℕ_discrete,
}
use ard_tools.Bits.Xor.{bit_xor-cancel}
use ard_tools.Arh.Node.{DictNode, get_next}
use ard_tools.Arh.Dict.{child_at}
use ard_tools.Arh.Trie.{IsTrie}
use ard_tools.Arh.Trie.Move.{only_parent}
use ard_tools.Arh.Trie.Grow.{block_at, child_at-grow, old_outside, allocated_node}
use ard_tools.Arh.Trie.Moved.{label-child, label-next, label-there}
use ard_tools.Path.{Text}
use ard_tools.Fs.Grow.Walk.{is_ascii, at_after, label_after}
use ard_tools.Fs.Chain.{Step, Chain}

module _ (nodes : List DictNode) (p next : ℕ) (parent : DictNode) (trie : IsTrie nodes)
    (apart : child_at nodes p p ≡ false) (there : get_elem? nodes p ≡ some parent)
    (inner : get_next parent ≡ some next) (r : List DictNode)
    (each : (j : ℕ)
      → get_elem? r j ≡ allocated_node nodes p next parent trie apart there inner j) where
  abbrev moved_to : ℕ → ℕ
  moved_to i = at_after nodes p next parent trie apart there inner i

  -- Where the step from the node at `i` then goes.
  Step-next :
      (i c j : ℕ) (step : Step nodes i c j)
      → c < 128
      → (m : ℕ) × (get_next (label_after nodes p next parent trie apart there inner i step.node)
          ≡ some m)
        × (bit_xor m c ≡ moved_to j)
  Step-next i c j step small = elim (ℕ_discrete p i) [
    | yes e ↦
        let same : step.node ≡ parent = cc (step.here, ap (get_elem? nodes) e) in
        let next_same : step.next ≡ next = cc (ap get_next same, step.on) in
        let own : child_at nodes j p ≡ true = ground (arith, step.there, step.linked) in
        let index : bit_xor next c ≡ j = ap (λ n. bit_xor n c) (sym next_same) ∙ step.at in
        let back : bit_xor next j ≡ c = ap (bit_xor next) (sym index) ∙ bit_xor-cancel next c in
        (
          block_at nodes,
          label-next nodes p next parent trie apart there inner i step.node ∙ ground arith,
          ground (arith, child_at-grow nodes j p, back),
        )
    | no e ↦
        let other = only_parent step.child i p step.linked (λ f. e (sym f)) in
        (
          step.next,
          label-next nodes p next parent trie apart there inner i step.node
              ∙ ground (arith, step.on),
          step.at ∙ ground (arith, child_at-grow nodes j p, step.there),
        )
  ]

  Step-after : (i c j : ℕ) → c < 128 → Step nodes i c j → Step r (moved_to i) c (moved_to j)
  Step-after i c j small step =
      let (m, on, at) = Step-next i c j step small in
      record {
        node = label_after nodes p next parent trie apart there inner i step.node;
        next = m;
        child = label_after nodes p next parent trie apart there inner j step.child;
        here = label-there nodes p next parent trie apart there inner r each i step.node step.here;
        on = on;
        there =
            label-there nodes p next parent trie apart there inner r each j step.child step.there;
        linked =
            label-child nodes p next parent trie apart there inner j step.child i step.there
              (old_outside nodes i step.here)
            ∙ step.linked;
        at = at;
      }

  -- A way leads from where its start then is to where its end is.
  pub Chain-after :
      (i : ℕ) (path : Text) (j : ℕ)
      → is_ascii path ≡ true
      → Chain nodes i path j
      → Chain r (moved_to i) path (moved_to j)
  Chain-after i [] j ascii same = ap moved_to same
  Chain-after i (c ∷ cs) j ascii (k, step, rest) =
      (moved_to k, Step-after i c k (ground arith) step, Chain-after k cs j (ground arith) rest)
