-- ===== src/Fs/Chain/Share.antt =====
-- ardain/src/fs.rs: the loop of `create_file` that continues the path while the names match.
use ard_tools.Base.{
  ℕ, ◌≡◌, ◌≢◌, sym, ap, ◌∙◌, true, false, some, List, [], ◌∷◌, ◌++◌, arith, get_elem?, ℕ_discrete,
  ok, ◌>>=◌, >>=-eq-ok,
}
use ard_tools.Arh.Node.{DictNode, is_free}
use ard_tools.Arh.Trie.{IsTrie, NoChild}
use ard_tools.Arh.Trie.Room.{HasBlock}
use ard_tools.Path.{Text}
use ard_tools.Fs.Create.{Split, extend_path, share_path}
use ard_tools.Fs.Grow.Walk.{is_ascii}
use ard_tools.Fs.Chain.Graft.{IsExtended, IsExtended-none, IsExtended-trans}
use ard_tools.Fs.Chain.Extend.{extend_path-IsExtended}

-- What the loop of `create_file` does with two names: it goes on to where they part or one ends.
pub record IsShared (P : ℕ → Type 0) (dict : List DictNode) (last : ℕ) (os ps : Text)
    (split : Split) : Type 0 where
  pub shared : Text
  pub old_splits : os ≡ shared ++ split.old_rest
  pub new_splits : ps ≡ shared ++ split.new_rest
  pub apart :
      (o : ℕ) (old : Text) (p : ℕ) (new : Text)
      → split.old_rest ≡ o ∷ old
      → split.new_rest ≡ p ∷ new
      → o ≢ p
  pub extended : IsExtended P dict split.dict last split.last shared

IsShared-none :
    (P : ℕ → Type 0) (dict : List DictNode) (last : ℕ) (os ps : Text) (node : DictNode)
    {split : Split}
    → IsTrie dict
    → NoChild dict last
    → get_elem? dict last ≡ some node
    → is_free node ≡ false
    → ((o : ℕ) (old : Text) (p : ℕ) (new : Text) → os ≡ o ∷ old → ps ≡ p ∷ new → o ≢ p)
    → split ≡ record { dict = dict; last = last; old_rest = os; new_rest = ps }
    → IsShared P dict last os ps split
IsShared-none P dict last os ps node {split} trie childless here taken apart same = record {
  shared = [];
  old_splits = ap (λ (s : Split). s.old_rest) (sym same);
  new_splits = ap (λ (s : Split). s.new_rest) (sym same);
  apart = λ o old p new e f.
      apart o old p new (ap (λ (s : Split). s.old_rest) (sym same) ∙ e)
        (ap (λ (s : Split). s.new_rest) (sym same) ∙ f);
  extended = rw same (IsExtended-none P dict last node trie childless here taken);
}

pub share_path-IsShared :
    (P : ℕ → Type 0) (dict : List DictNode) (node_block last : ℕ) (os ps : Text) (node : DictNode)
    {split : Split}
    → IsTrie dict
    → NoChild dict last
    → get_elem? dict last ≡ some node
    → is_free node ≡ false
    → is_ascii os ≡ true
    → HasBlock dict node_block
    → share_path dict node_block last os ps ≡ ok split
    → IsShared P dict last os ps split
unfolding share_path
share_path-IsShared P dict node_block last [] ps node {split} trie childless here taken ascii spare
      e =
    IsShared-none P dict last [] ps node trie childless here taken (λ o old p new f g. cc) cc
share_path-IsShared P dict node_block last (o ∷ os) [] node {split} trie childless here taken ascii
      spare e =
    IsShared-none P dict last (o ∷ os) [] node trie childless here taken (λ o old p new f g. cc) cc
share_path-IsShared P dict node_block last (o ∷ os) (p ∷ ps) node {split} trie childless here taken
      ascii spare e =
    elim (ℕ_discrete o p) [
      | no other ↦
          IsShared-none P dict last (o ∷ os) (p ∷ ps) node trie childless here taken
            (λ o' old p' new f g same. other (cc)) (ground (arith, e))
      | yes same ↦
          let on : (extend_path dict node_block last o >>= λ r. share_path r.0 r.2 r.1 os ps)
              ≡ ok split =
            ground (arith, e) in
          let (next, extends, e1) = >>=-eq-ok (extend_path dict node_block last o) _ on in
          let (first, on_spare) =
            extend_path-IsExtended P dict last o node trie childless here taken (ground arith)
              node_block spare extends in
          let rest =
            share_path-IsShared P next.0 next.2 next.1 os ps first.node first.trie first.childless
              first.here first.taken (ground arith) on_spare e1 in
          record {
            shared = o ∷ rest.shared;
            old_splits = ap (λ t. o ∷ t) rest.old_splits;
            new_splits = ap (λ c. c ∷ ps) (sym same) ∙ ap (λ t. o ∷ t) rest.new_splits;
            apart = rest.apart;
            extended =
                IsExtended-trans P dict next.0 split.dict last next.1 split.last (o ∷ [])
                  rest.shared first rest.extended;
          }
    ]
