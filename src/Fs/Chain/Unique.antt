-- ===== src/Fs/Chain/Unique.antt =====
-- ardain/src/fs.rs: a node is on one way only.
use ard_tools.Base.{
  ℕ, zero, suc, ◌≤◌, ◌≡◌, refl, sym, ap, ◌∙◌, true, false, List, [], ◌∷◌, ◌++◌, arith, length,
  length-append, get_elem?, bit_xor,
}
use ard_tools.Bits.Xor.{bit_xor-cancel}
use ard_tools.Arh.Node.{DictNode, free, root, occupied, leaf, get_next, is_child}
use ard_tools.Arh.Dict.{child_at}
use ard_tools.Path.{Text}
use ard_tools.Fs.Chain.{Step, Chain}
use ard_tools.Fs.Chain.Back.{child_at-Step}

one_parent : (n : DictNode) (p q : ℕ) → is_child n p ≡ true → is_child n q ≡ true → p ≡ q
one_parent free p q h h' = cc
one_parent (root m) p q h h' = cc
one_parent (occupied r m) p q h h' = ground arith
one_parent (leaf r s) p q h h' = ground arith

-- Two steps to a node are the same.
Step-unique :
    (nodes : List DictNode) (i i' c c' j : ℕ)
    → Step nodes i c j
    → Step nodes i' c' j
    → (i ≡ i') × (c ≡ c')
Step-unique nodes i i' c c' j step step' =
    let child_same : step'.child ≡ step.child = cc (step.there, step'.there) in
    let index_same =
      one_parent step.child i i' step.linked
        (ap (λ n. is_child n i') (sym child_same) ∙ step'.linked) in
    let node_same : step.node ≡ step'.node =
      cc (step.here, step'.here, ap (get_elem? nodes) index_same) in
    let next_same : step.next ≡ step'.next = cc (step.on, step'.on, ap get_next node_same) in
    (
      index_same,
      sym (bit_xor-cancel step.next c)
          ∙ ap (bit_xor step.next) (step.at ∙ sym step'.at ∙ ap (λ n. bit_xor n c') (sym next_same))
          ∙ bit_xor-cancel step.next c',
    )

-- The last step of a way.
record Ends (nodes : List DictNode) (i : ℕ) (path : Text) (j : ℕ) : Type 0 where
  before : Text
  chr : ℕ
  at : ℕ
  splits : path ≡ before ++ chr ∷ []
  way : Chain nodes i before at
  step : Step nodes at chr j

Ends-Chain :
    (nodes : List DictNode) (i c : ℕ) (cs : Text) (j : ℕ)
    → Chain nodes i (c ∷ cs) j
    → Ends nodes i (c ∷ cs) j
Ends-Chain nodes i c [] j (k, step, same) = record {
  before = [];
  chr = c;
  at = i;
  splits = refl;
  way = refl;
  step = rw (← same) step;
}
Ends-Chain nodes i c (d ∷ ds) j (k, step, rest) =
    let e = Ends-Chain nodes k d ds j rest in
    record {
      before = c ∷ e.before;
      chr = e.chr;
      at = e.at;
      splits = ap (λ t. c ∷ t) e.splits;
      way = (k, step, e.way);
      step = e.step;
    }

Chain-unique_within :
    (n : ℕ) (nodes : List DictNode) (i : ℕ) (xs ys : Text) (j : ℕ)
    → length xs ≤ n
    → ((p : ℕ) → child_at nodes i p ≡ false)
    → Chain nodes i xs j
    → Chain nodes i ys j
    → xs ≡ ys
Chain-unique_within n nodes i [] [] j enough top way way' = refl
Chain-unique_within n nodes i [] (y ∷ ys) j enough top same way' =
    let e = Ends-Chain nodes i y ys j way' in
    cc (top e.at, child_at-Step nodes e.at e.chr j e.step, ap (λ k. child_at nodes k e.at) same)
Chain-unique_within n nodes i (x ∷ xs) [] j enough top way same =
    let e = Ends-Chain nodes i x xs j way in
    cc (top e.at, child_at-Step nodes e.at e.chr j e.step, ap (λ k. child_at nodes k e.at) same)
Chain-unique_within zero nodes i (x ∷ xs) (y ∷ ys) j enough top way way' = absurd (omega arith)
Chain-unique_within (suc n) nodes i (x ∷ xs) (y ∷ ys) j enough top way way' =
    let e = Ends-Chain nodes i x xs j way in
    let e' = Ends-Chain nodes i y ys j way' in
    let (at_same, chr_same) = Step-unique nodes e.at e'.at e.chr e'.chr j e.step e'.step in
    let shorter : length e.before ≤ n =
      omega (arith, enough, ap length e.splits, length-append e.before (e.chr ∷ [])) in
    let before_same =
      Chain-unique_within n nodes i e.before e'.before e'.at shorter top (rw (← at_same) e.way)
        e'.way in
    e.splits
    ∙ ap (λ t. t ++ e.chr ∷ []) before_same
    ∙ ap (λ c. e'.before ++ c ∷ []) chr_same
    ∙ sym e'.splits

-- From a node that is no child only one path leads to a node.
pub Chain-unique :
    (nodes : List DictNode) (i : ℕ) (xs ys : Text) (j : ℕ)
    → ((p : ℕ) → child_at nodes i p ≡ false)
    → Chain nodes i xs j
    → Chain nodes i ys j
    → xs ≡ ys
Chain-unique nodes i xs ys j = Chain-unique_within (length xs) nodes i xs ys j (omega arith)
