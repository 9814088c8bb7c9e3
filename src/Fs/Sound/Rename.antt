-- ===== src/Fs/Sound/Rename.antt =====
-- ardain/src/fs.rs: `rename_file`, and runs of the three operations.
use ard_tools.Base.{
  ℕ, ◌≡◌, ◌≢◌, ◌⊎◌, refl, sym, ap, ◌∙◌, inl, inr, true, Option, none, some, arith, All,
  if◌then◌else◌, length-set, Run-cases, Run, ok,
}
use ard_tools.Arh.Meta.{FileMeta}
use ard_tools.Arh.Strings.{ReadLe}
use ard_tools.Arh.Strings.Laws.{IsNameByte}
use ard_tools.Path.{Text}
use ard_tools.Fs.Error.{Error, fs_no_entry}
use ard_tools.Fs.Lookup.{text_eq}
use ard_tools.Fs.System.{
  ArhFileSystem, get_file_info, create_file, delete_file, rename_file, store_meta,
}
use ard_tools.Fs.Grow.Walk.{is_ascii}
use ard_tools.Fs.Sound.{IsSound}
use ard_tools.Fs.Sound.Files.{file_at, create_file-IsSound, file_at-create_file}
use ard_tools.Fs.Sound.Delete.{delete_file-IsSound, file_at-delete_file}

module _ (reader : ReadLe) where
  -- What `rename_file` has done: nothing, or a deletion and a creation, of the new path where it succeeds, and
  -- else of the old one again.
  record IsMoved (fs : ArhFileSystem) (path new_path : Text) (after : ArhFileSystem) : Type 0 where
    deleted : ArhFileSystem
    deletes : delete_file reader fs path ≡ ok deleted
    created : ArhFileSystem
    id : ℕ
    creates : create_file reader deleted new_path ≡ ok (created, id)
    meta : FileMeta
    stored : after ≡ store_meta reader created id meta

  ok_pair :
      {a b : ArhFileSystem} {e e' : Option Error}
      → ◌≡◌ {A = Run Error (ArhFileSystem × Option Error)} (ok (a, e)) (ok (b, e'))
      → (a ≡ b) × (e ≡ e')
  ok_pair h = (cc, cc)

  not_none : {x : Option Error} {e : Error} → some e ≡ x → x ≢ none
  not_none same missing = cc

  module _ (fs : ArhFileSystem) (path new_path : Text) {after : ArhFileSystem}
      {failed : Option Error} where
    rename_cases :
        rename_file reader fs path new_path ≡ ok (after, failed)
        → ((failed ≡ none) × IsMoved fs path new_path after)
          ⊎ ((failed ≢ none) × ((after ≡ fs) ⊎ IsMoved fs path path after))
    unfolding rename_file
    rename_cases e = elim (Run-cases (get_file_info reader fs path)) [
      | inr (inr broken) ↦ absurd (ground (arith, e))
      | inr (inl (_, missed)) ↦
          let run : ok (fs, some fs_no_entry) ≡ ok (after, failed) = ground (arith, e) in
          let (same, failure) = ok_pair run in inr (not_none failure, inl (sym same))
      | inl (meta, found) ↦ elim (Run-cases (delete_file reader fs path)) [
        | inr (inr broken) ↦ absurd (ground (arith, e))
        | inr (inl (why, refused)) ↦
            let run : ok (fs, some why) ≡ ok (after, failed) = ground (arith, e) in
            let (same, failure) = ok_pair run in inr (not_none failure, inl (sym same))
        | inl (deleted, deletes) ↦ elim (Run-cases (create_file reader deleted new_path)) [
          | inr (inr broken) ↦ absurd (ground (arith, e))
          | inl ((created, id), creates) ↦
              let run : ok (store_meta reader created id meta, none) ≡ ok (after, failed) =
                ground (arith, e) in
              let (same, success) = ok_pair run in
              inl (
                sym success,
                record {
                  deleted = deleted;
                  deletes = deletes;
                  created = created;
                  id = id;
                  creates = creates;
                  meta = meta;
                  stored = sym same;
                },
              )
          | inr (inl (why, refused)) ↦ elim (Run-cases (create_file reader deleted path)) [
            | inr (inr broken) ↦ absurd (ground (arith, e))
            | inr (inl (why', lost)) ↦ absurd (ground (arith, e))
            | inl ((restored, id), creates) ↦
                let run : ok (store_meta reader restored id meta, some why) ≡ ok (after, failed) =
                  ground (arith, e) in
                let (same, failure) = ok_pair run in
                inr (
                  not_none failure,
                  inr (record {
                    deleted = deleted;
                    deletes = deletes;
                    created = restored;
                    id = id;
                    creates = creates;
                    meta = meta;
                    stored = sym same;
                  }),
                )
          ]
        ]
      ]
    ]

  module _ (fs : ArhFileSystem) (path new_path : Text) {after : ArhFileSystem} where
    IsMoved-IsSound :
        IsSound reader fs
        → All IsNameByte new_path
        → IsMoved fs path new_path after
        → IsSound reader after
    IsMoved-IsSound sound bytes moved =
        let gone = delete_file-IsSound reader fs path sound moved.deletes in
        let made = create_file-IsSound reader moved.deleted new_path gone bytes moved.creates in
        rw moved.stored (record {
          trie = made.trie;
          top = made.top;
          roomy = made.roomy;
          named = made.named;
          recycled = rw (length-set moved.created.arh.file_table moved.id moved.meta) made.recycled;
          size = rw (length-set moved.created.arh.file_table moved.id moved.meta) made.size;
        })

    file_at-IsMoved :
        (other : Text)
        → IsSound reader fs
        → All IsNameByte new_path
        → is_ascii other ≡ true
        → (moved : IsMoved fs path new_path after)
        → file_at reader after other ≡ (
            if text_eq other new_path
            then some moved.id
            else if text_eq other path
            then none
            else file_at reader fs other)
    file_at-IsMoved other sound bytes ascii moved =
        let gone = delete_file-IsSound reader fs path sound moved.deletes in
        ap (λ f. file_at reader f other) moved.stored
        ∙ file_at-create_file reader moved.deleted new_path other gone bytes ascii moved.creates
        ∙ ap (λ o. if text_eq other new_path then some moved.id else o)
            (file_at-delete_file reader fs path other sound moved.deletes)

  -- For paths of ASCII characters other than zero: a sound archive is sound after `rename_file`, whether it
  -- succeeds or fails.
  pub rename_file-IsSound :
      (fs : ArhFileSystem) (path new_path : Text) {after : ArhFileSystem} {failed : Option Error}
      → IsSound reader fs
      → All IsNameByte path
      → All IsNameByte new_path
      → rename_file reader fs path new_path ≡ ok (after, failed)
      → IsSound reader after
  rename_file-IsSound fs path new_path sound bytes new_bytes e =
      elim (rename_cases fs path new_path e) [
        | inl (success, moved) ↦ IsMoved-IsSound fs path new_path sound new_bytes moved
        | inr (failure, inl same) ↦ rw same sound
        | inr (failure, inr moved) ↦ IsMoved-IsSound fs path path sound bytes moved
      ]

  -- For a new path of ASCII characters other than zero: where `rename_file` succeeds in a sound archive, the new
  -- path is found with one id, the old one is not found unless the two are the same, and every other ASCII path is found
  -- with the id it had, or is not found as it was not found before.
  pub file_at-rename_file :
      (fs : ArhFileSystem) (path new_path : Text) {after : ArhFileSystem}
      → IsSound reader fs
      → All IsNameByte new_path
      → rename_file reader fs path new_path ≡ ok (after, none)
      → (id : ℕ) × ((other : Text)
          → is_ascii other ≡ true
          → file_at reader after other ≡ (
              if text_eq other new_path
              then some id
              else if text_eq other path
              then none
              else file_at reader fs other))
  file_at-rename_file fs path new_path sound bytes e = elim (rename_cases fs path new_path e) [
    | inl (success, moved) ↦
        (moved.id, λ other ascii. file_at-IsMoved fs path new_path other sound bytes ascii moved)
    | inr (failure, what) ↦ absurd (failure refl)
  ]

  -- Calls of the three operations, one after the other.
  pub data Calls (fs : ArhFileSystem) : ArhFileSystem → Type 0 where
    start : Calls fs fs
    created :
        {at after : ArhFileSystem} {id : ℕ}
        → Calls fs at
        → (path : Text) → All IsNameByte path
        → create_file reader at path ≡ ok (after, id)
        → Calls fs after
    deleted :
        {at after : ArhFileSystem}
        → Calls fs at
        → (path : Text) → delete_file reader at path ≡ ok after
        → Calls fs after
    renamed :
        {at after : ArhFileSystem} {failed : Option Error}
        → Calls fs at
        → (path new_path : Text) → All IsNameByte path
        → All IsNameByte new_path
        → rename_file reader at path new_path ≡ ok (after, failed)
        → Calls fs after

  -- Whatever calls of `create_file`, `delete_file` and `rename_file` for paths of ASCII characters other than zero
  -- an archive has had, it is sound if it was at the start.
  pub Calls-IsSound :
      {fs after : ArhFileSystem} → IsSound reader fs → Calls fs after → IsSound reader after
  Calls-IsSound sound start = sound
  Calls-IsSound sound (created {at} before path bytes e) =
      create_file-IsSound reader at path (Calls-IsSound sound before) bytes e
  Calls-IsSound sound (deleted {at} before path e) =
      delete_file-IsSound reader at path (Calls-IsSound sound before) e
  Calls-IsSound sound (renamed {at} before path new_path bytes new_bytes e) =
      rename_file-IsSound at path new_path (Calls-IsSound sound before) bytes new_bytes e
