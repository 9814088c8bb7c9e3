-- ===== src/Fs/Chain/Graft.antt =====
-- ardain/src/fs.rs: the ways of paths after a node has got a child.
use ard_tools.Base.{
  ℕ, ◌≡◌, ◌≢◌, refl, sym, ap, ◌∙◌, true, false, some, List, [], ◌++◌, arith, get_elem?, bit_xor,
}
use mathlib.Core.List.{append-nil, append_assoc}
use ard_tools.Arh.Node.{DictNode, free, leaf, get_next, is_child, is_free, attach_next}
use ard_tools.Arh.Dict.{grow}
use ard_tools.Arh.Trie.{IsTrie, NoChild}
use ard_tools.Arh.Trie.Grow.{get_elem?-grow_old}
use ard_tools.Arh.Trie.Moved.{attach_next-child}
use ard_tools.Arh.Trie.Plant.{IsPlanted, IsAttached, NoChild-inner}
use ard_tools.Arh.Trie.Room.{IsThere, IsRoomyBut}
use ard_tools.Path.{Text}
use ard_tools.Fs.Chain.Back.{IsTaken}
use ard_tools.Fs.Chain.{Step, Chain, IsUpdate}

pub IsUpdate-none : (nodes : List DictNode) (p : ℕ) → NoChild nodes p → IsUpdate nodes nodes p
IsUpdate-none nodes p childless = record {
  childless = childless;
  agree = λ j n other here. here;
  kept = λ old here. (old, here, λ x h. h);
}

pub IsUpdate-grow :
    (nodes : List DictNode) (p : ℕ) → NoChild nodes p → IsUpdate nodes (grow nodes) p
IsUpdate-grow nodes p childless = record {
  childless = childless;
  agree = λ j n other here. get_elem?-grow_old nodes j here;
  kept = λ old here. (old, get_elem?-grow_old nodes p here, λ x h. h);
}

pub IsUpdate-attached :
    (nodes after : List DictNode) (p : ℕ) (node : DictNode) (next : ℕ)
    → IsAttached nodes after p node next
    → NoChild nodes p
    → IsUpdate nodes after p
IsUpdate-attached nodes after p node next attached childless = record {
  childless = childless;
  agree = λ j n other here. attached.each j ∙ ground (arith, here);
  kept = λ old here.
      let same : node ≡ old = cc (attached.here) in
      (
        attach_next node next,
        attached.each p ∙ ground arith,
        λ x h. attach_next-child node next x ∙ ap (λ n. is_child n x) same ∙ h,
      );
}

pub IsUpdate-planted :
    (nodes after : List DictNode) (k : ℕ) (x : DictNode)
    → IsPlanted nodes after k x
    → IsTrie nodes
    → IsUpdate nodes after k
IsUpdate-planted nodes after k x planted trie = record {
  childless = NoChild-inner nodes k free trie planted.vacant refl;
  agree = λ j n other here. planted.each j ∙ ground (arith, here);
  kept = λ old here.
      let same : old ≡ free = cc (planted.vacant) in
      (x, planted.each k ∙ ground arith, λ y h. cc (ap (λ n. is_child n y) same));
}

-- The step to a node that was planted below `p`.
pub Step-planted :
    (nodes after : List DictNode) (p k c next : ℕ) (parent x : DictNode)
    → IsPlanted nodes after k x
    → get_elem? nodes p ≡ some parent
    → get_next parent ≡ some next
    → is_child x p ≡ true
    → bit_xor next c ≡ k
    → Step after p c k
Step-planted nodes after p k c next parent x planted there inner linked at = record {
  node = parent;
  next = next;
  child = x;
  here = planted.each p ∙ ground (arith, apart, there);
  on = inner;
  there = planted.each k ∙ ground arith;
  linked = linked;
  at = at;
}
  where
    apart : k ≢ p
    apart same =
        let taken : parent ≡ free = cc (planted.vacant, ap (get_elem? nodes) same) in
        cc (ap get_next taken)

-- What holds of the string offsets of all leaves.
abbrev pub Offsets : (ℕ → Type 0) → List DictNode → Type 0
Offsets P nodes = (j p s : ℕ) → get_elem? nodes j ≡ some (leaf p s) → P s

-- One dictionary after another in which the paths that led to `last` lead on to `end`, a node without
-- children, for the characters of `shared`. `P` is kept of the string offsets, no leaf
-- is on a new way but `end`, and the blocks of all nodes but that one are there.
pub record IsExtended (P : ℕ → Type 0) (nodes after : List DictNode) (last end : ℕ) (shared : Text)
    : Type 0 where
  pub trie : IsTrie after
  pub childless : NoChild after end
  pub node : DictNode
  pub here : get_elem? after end ≡ some node
  pub taken : is_free node ≡ false
  pub chains : (i : ℕ) (path : Text) (j : ℕ) → Chain nodes i path j → Chain after i path j
  pub reach : (i : ℕ) (path : Text) → Chain nodes i path last → Chain after i (path ++ shared) end
  pub keep :
      (j : ℕ) (n : DictNode)
      → j ≢ last
      → is_free n ≡ false
      → get_elem? nodes j ≡ some n
      → (get_elem? after j ≡ some n) × (j ≢ end)
  pub offsets : Offsets P nodes → Offsets P after
  pub room : (j : ℕ) → IsThere nodes j → IsThere after j
  pub roomy : IsRoomyBut nodes last → IsRoomyBut after end
  pub starts : (i : ℕ) → IsTaken nodes i → IsTaken after i
  pub back_end :
      (i : ℕ) (path : Text)
      → IsTaken nodes i
      → Chain after i path end
      → (start : Text) × (path ≡ start ++ shared) × Chain nodes i start last
  pub back_leaf :
      (i : ℕ) (path : Text) (j q s : ℕ)
      → IsTaken nodes i
      → j ≢ end
      → get_elem? after j ≡ some (leaf q s)
      → Chain after i path j
      → (j ≢ last) × (get_elem? nodes j ≡ some (leaf q s)) × Chain nodes i path j

pub IsExtended-none :
    (P : ℕ → Type 0) (nodes : List DictNode) (last : ℕ) (node : DictNode)
    → IsTrie nodes
    → NoChild nodes last
    → get_elem? nodes last ≡ some node
    → is_free node ≡ false
    → IsExtended P nodes nodes last last []
IsExtended-none P nodes last node trie childless here taken = record {
  trie = trie;
  childless = childless;
  node = node;
  here = here;
  taken = taken;
  chains = λ i path j chain. chain;
  reach = λ i path chain. rw (append-nil path) chain;
  keep = λ j n other full there. (there, other);
  offsets = λ good. good;
  room = λ j at. at;
  roomy = λ blocks. blocks;
  starts = λ i at. at;
  back_end = λ i path at chain. (path, sym (append-nil path), chain);
  back_leaf = λ i path j q s at other there chain. (other, there, chain);
}

pub IsExtended-trans :
    (P : ℕ → Type 0) (nodes mid after : List DictNode) (last between end : ℕ) (xs ys : Text)
    → IsExtended P nodes mid last between xs
    → IsExtended P mid after between end ys
    → IsExtended P nodes after last end (xs ++ ys)
IsExtended-trans P nodes mid after last between end xs ys first second = record {
  trie = second.trie;
  childless = second.childless;
  node = second.node;
  here = second.here;
  taken = second.taken;
  chains = λ i path j chain. second.chains i path j (first.chains i path j chain);
  reach = λ i path chain.
      rw (sym (append_assoc path xs ys)) (second.reach i (path ++ xs) (first.reach i path chain));
  keep = λ j n other full there.
      let (there', other') = first.keep j n other full there in second.keep j n other' full there';
  offsets = λ good. second.offsets (first.offsets good);
  room = λ j at. second.room j (first.room j at);
  roomy = λ blocks. second.roomy (first.roomy blocks);
  starts = λ i at. second.starts i (first.starts i at);
  back_end = λ i path at chain.
      let (start, splits, way) = second.back_end i path (first.starts i at) chain in
      let (origin, splits', way') = first.back_end i start at way in
      (origin, splits ∙ ap (λ t. t ++ ys) splits' ∙ append_assoc origin xs ys, way');
  back_leaf = λ i path j q s at other there chain.
      let (between_apart, there', way) =
        second.back_leaf i path j q s (first.starts i at) other there chain in
      first.back_leaf i path j q s at between_apart there' way;
}
