-- ===== src/Fs/Sample.antt =====
-- ardain/src/fs.rs: an archive for the runs of the model.
use ard_tools.Base.{
  ℕ, zero, suc, ◌<◌, ◌≡◌, refl, ap, true, none, some, [], ◌∷◌, replicate, arith, get_elem?, bit_xor,
}
use ard_tools.Bits.Xor.{bit_xor-zero_left}
use ard_tools.Arh.Node.{DictNode, free, root, leaf, get_next}
use ard_tools.Arh.Trie.Decide.{is_trie, is_trie-IsTrie}
use ard_tools.Arh.Trie.Room.{IsThere, IsRoomy}
use ard_tools.Arh.Strings.Reader.{little_endian}
use ard_tools.Fs.Sound.{IsSound}
use ard_tools.Arh.State
use ard_tools.Fs.Tree.{dir_node, directory, nil}
use ard_tools.Fs.System.{ArhFileSystem}

-- An archive without files: the root, and the block of its children. A byte stands at the front of
-- the string table.
abbrev pub blank : ArhFileSystem
blank = record {
  arh = record {
    str_table_len_dup = 0;
    offsets = record {
      path_dict_node_count = 128;
      str_table_offset = 0x30;
      str_table_len = 1;
      path_dict_offset = 0x40;
      path_dict_len = 1024;
      file_table_offset = 0x440;
      file_table_len = 0;
    };
    key = 0;
    arh_ext_offset = none;
    string_table = 0 ∷ [];
    path_dict = root 0 ∷ replicate 127 free;
    file_table = [];
    arh_ext_section = none;
  };
  opts = State.default_options;
  dir_tree = dir_node (b'/' ∷ []) (directory nil);
}

blank_tries : is_trie blank.arh.path_dict ≡ true
unfolding is_trie
blank_tries = refl

no_leaf : (n j p s : ℕ) → get_elem? (replicate n free) j ≡ some (leaf p s) → ⊥
no_leaf zero j p s e = cc
no_leaf (suc n) zero p s e = cc
no_leaf (suc n) (suc j) p s e = no_leaf n j p s e

-- The archive without files is sound.
pub blank-IsSound : IsSound little_endian blank
blank-IsSound = record {
  trie = is_trie-IsTrie blank.arh.path_dict blank_tries;
  top = (root 0, refl, refl);
  roomy = only_root;
  named = λ j p s there. absurd (none_there j p s there);
  recycled = tt;
  size = omega arith;
}
  where
    spare : (n k : ℕ) → k < n → get_elem? (replicate n free) k ≡ some free
    spare zero k lt = absurd (ground arith)
    spare (suc n) zero lt = refl
    spare (suc n) (suc k) lt = spare n k (ground arith)

    in_dict : (k : ℕ) → k < 128 → IsThere blank.arh.path_dict k
    in_dict zero lt = (root 0, refl)
    in_dict (suc k) lt = (free, spare 127 k (ground arith))

    only_free : (n k : ℕ) (x : DictNode) → get_elem? (replicate n free) k ≡ some x → x ≡ free
    only_free zero k x e = cc
    only_free (suc n) zero x e = cc
    only_free (suc n) (suc k) x e = only_free n k x e

    only_root : IsRoomy blank.arh.path_dict
    only_root zero n next here on = λ c lt.
        let same : root 0 ≡ n = cc in
        let own : 0 ≡ next = cc (ap get_next same) in
        let at : bit_xor 0 c ≡ c = bit_xor-zero_left c in rw (← own, at) (in_dict c lt)
    only_root (suc j) n next here on =
        let vacant : n ≡ free = only_free 127 j n here in cc (ap get_next vacant)

    none_there : (j p s : ℕ) → get_elem? blank.arh.path_dict j ≡ some (leaf p s) → ⊥
    none_there zero p s e = cc
    none_there (suc j) p s e = no_leaf 127 j p s e
