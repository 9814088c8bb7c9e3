-- ===== src/Fs/Total/Delete.antt =====
-- ardain/src/fs.rs: what lookups return after `delete_file` on a sound archive, panics included.
use ard_tools.Base.{
  ℕ, ◌≡◌, refl, sym, ap, ◌∙◌, inl, inr, true, false, Option, none, some, List, ◌∷◌, arith,
  if◌then◌else◌, get_elem?, Bool-cases, Option-cases, Run-cases, Run, ok, err, panic,
}
use ard_tools.Arh.Node.{DictNode, free, root, occupied, leaf, is_free}
use ard_tools.Arh.Dict.Free.{IsFreed, free_node_recursive_sound}
use ard_tools.Arh.Strings.{ReadLe}
use ard_tools.Path.{Text}
use ard_tools.Fs.Lookup.{text_eq}
use ard_tools.Fs.Lookup.Steps.{root_is_free}
use ard_tools.Fs.System.{ArhFileSystem, file_id, delete_file}
use ard_tools.Fs.Delete.{delete_file-eq-ok, file_id-free_root}
use ard_tools.Fs.Chain.Back.{IsTaken}
use ard_tools.Fs.Place.{IsTop}
use ard_tools.Fs.Sound.{IsSound}
use ard_tools.Fs.Sound.Files.{file_at}
use ard_tools.Fs.Sound.Delete.{kept_node, delete_file-IsSound, file_at-delete_file}
use ard_tools.Fs.Total.Lookup.{get_file_id-ne-panic}

freed_root : (nodes : List DictNode) → root_is_free nodes ≡ true → get_elem? nodes 0 ≡ some free
freed_root nodes vacant = elim (Option-cases (get_elem? nodes 0)) [
  | inl out ↦ absurd (ground (arith, vacant, out))
  | inr (free, here) ↦ here
  | inr (root m, here) ↦ absurd (ground (arith, vacant, here))
  | inr (occupied q m, here) ↦ absurd (ground (arith, vacant, here))
  | inr (leaf q s, here) ↦ absurd (ground (arith, vacant, here))
]

IsTaken-root : (nodes : List DictNode) → IsTop nodes → root_is_free nodes ≡ false → IsTaken nodes 0
IsTaken-root nodes (first, here, orphan) used = (first, here, ground (arith, used, here))

IsTaken-before :
    (nodes freed : List DictNode) → IsFreed nodes freed → IsTaken freed 0 → IsTaken nodes 0
IsTaken-before nodes freed parts (n, here, full) =
    (n, kept_node nodes freed 0 n parts here (λ vacant. cc (full, ap is_free vacant)), full)

abbrev found : Option ℕ → Run (Unit {0}) ℕ
found none = err tt
found (some id) = ok id

module _ (reader : ReadLe) where
  -- The id that a lookup finds, an error, or a panic.
  abbrev pub id_at : ArhFileSystem → Text → Run (Unit {0}) ℕ
  id_at fs path = elim (file_id reader fs path) [
    | ok (id, _) ↦ ok id
    | err e ↦ err e
    | panic ↦ panic
  ]

  id_at-found :
      (fs : ArhFileSystem) (path : Text)
      → IsSound reader fs
      → IsTaken fs.arh.path_dict 0
      → id_at fs path ≡ found (file_at reader fs path)
  id_at-found fs path sound first = elim (Run-cases (file_id reader fs path)) [
    | inl ((id, leaf_id), there) ↦ rw (there, id_at, file_at) refl
    | inr (inl (e, missed)) ↦ rw (missed, id_at, file_at) refl
    | inr (inr broken) ↦ absurd (
        get_file_id-ne-panic reader fs.arh.path_dict fs.arh.string_table path first sound.named
          broken)
  ]

  -- Where `delete_file` succeeds in a sound archive: if it has freed the first node, every later lookup of a path that is
  -- not empty panics; otherwise the lookup of the deleted path finds nothing and that of every other path returns what it
  -- returned before. A path that was found before is found after, with the same id, unless it is the deleted one.
  pub id_at-delete_file :
      (fs : ArhFileSystem) (path : Text) (c : ℕ) (cs : Text) {gone : ArhFileSystem}
      → IsSound reader fs
      → delete_file reader fs path ≡ ok gone
      → (id_at gone (c ∷ cs) ≡ (
          if root_is_free gone.arh.path_dict
          then panic
          else if text_eq (c ∷ cs) path
          then err tt
          else id_at fs (c ∷ cs)))
        × (file_at reader gone (c ∷ cs)
            ≡ (if text_eq (c ∷ cs) path then none else file_at reader fs (c ∷ cs)))
  id_at-delete_file fs path c cs {gone} sound e =
      let (id, leaf_id, was, freed, strings) = delete_file-eq-ok reader fs path e in
      let (parts, vacant) = free_node_recursive_sound fs.arh.path_dict leaf_id freed in
      let sound_gone = delete_file-IsSound reader fs path sound e in
      let kept = file_at-delete_file reader fs path (c ∷ cs) sound e in
      elim (Bool-cases (root_is_free gone.arh.path_dict)) [
        | inl lost ↦ (
          rw lost (
              rw (file_id-free_root reader gone c cs (freed_root gone.arh.path_dict lost), id_at)
                refl),
          kept,
        )
        | inr used ↦
            let first = IsTaken-root gone.arh.path_dict sound_gone.top used in
            let before = IsTaken-before fs.arh.path_dict gone.arh.path_dict parts first in
            let after = id_at-found gone (c ∷ cs) sound_gone first ∙ ap found kept in
            let past = id_at-found fs (c ∷ cs) sound before in
            elim (Bool-cases (text_eq (c ∷ cs) path)) [
              | inl same ↦ (rw (used, same) (after ∙ rw same refl), kept)
              | inr apart ↦ (rw (used, apart) (after ∙ rw apart (sym past)), kept)
            ]
      ]
