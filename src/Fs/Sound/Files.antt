-- ===== src/Fs/Sound/Files.antt =====
-- ardain/src/fs.rs: an archive as a map from paths to file ids.
use ard_tools.Base.{
  ℕ, ◌≡◌, ◌≢◌, ◌⊎◌, refl, sym, ap, ◌∙◌, inl, inr, true, Option, none, some, All, if◌then◌else◌,
  ℕ_discrete, Bool-cases, Run-cases, ok, err, panic,
}
use ard_tools.Arh.Strings.{ReadLe}
use ard_tools.Arh.Strings.Laws.{IsNameByte}
use ard_tools.Path.{Text}
use ard_tools.Fs.Lookup.{text_eq}
use ard_tools.Fs.Lookup.Steps.{text_eq-eq}
use ard_tools.Fs.System.{ArhFileSystem, file_id, create_file}
use ard_tools.Fs.Grow.Walk.{is_ascii}
use ard_tools.Fs.Held.{IsHeld, text_eq_self, get_file_id-IsHeld, IsHeld-get_file_id}
use ard_tools.Fs.Sound.{IsSound}
use ard_tools.Fs.Sound.Made.{create_file-IsMade}
use ard_tools.Fs.Sound.Create.{new-IsSound, new-IsHeld, new_keeps, new_adds, new_only}

module _ (reader : ReadLe) where
  -- The id that the archive has for a path.
  abbrev pub file_at : ArhFileSystem → Text → Option ℕ
  file_at fs path = elim (file_id reader fs path) [
    | ok (id, _) ↦ some id
    | err e ↦ none
    | panic ↦ none
  ]

  -- A file that an archive holds.
  abbrev pub Holds : ArhFileSystem → Text → ℕ → ℕ → Type 0
  Holds fs path id leaf_id = IsHeld reader fs.arh.path_dict fs.arh.string_table path id leaf_id

  pub file_id-Holds :
      (fs : ArhFileSystem) (path : Text) (id leaf_id : ℕ)
      → Holds fs path id leaf_id
      → file_id reader fs path ≡ ok (id, leaf_id)
  file_id-Holds fs path id leaf_id held =
      get_file_id-IsHeld reader fs.arh.path_dict fs.arh.string_table path id leaf_id held

  pub file_at-Holds :
      (fs : ArhFileSystem) (path : Text) (id leaf_id : ℕ)
      → Holds fs path id leaf_id
      → file_at fs path ≡ some id
  file_at-Holds fs path id leaf_id held = rw (file_id-Holds fs path id leaf_id held, file_at) refl

  pub Holds-cases :
      (fs : ArhFileSystem) (path : Text)
      → ((id : ℕ) × (leaf_id : ℕ) × Holds fs path id leaf_id)
        ⊎ ((file_at fs path ≡ none) × ((id leaf_id : ℕ) → ¬ Holds fs path id leaf_id))
  Holds-cases fs path = elim (Run-cases (file_id reader fs path)) [
    | inl ((id, leaf_id), found) ↦
        inl (id, leaf_id, IsHeld-get_file_id reader fs.arh.path_dict fs.arh.string_table path found)
    | inr (inl (e, missed)) ↦
        inr
          (rw (missed, file_at) refl, λ id leaf_id held. cc (file_id-Holds fs path id leaf_id held))
    | inr (inr broken) ↦
        inr
          (rw (broken, file_at) refl, λ id leaf_id held. cc (file_id-Holds fs path id leaf_id held))
  ]

  -- Two archives that hold the same files for a path.
  pub file_at-same :
      (fs after : ArhFileSystem) (path : Text)
      → ((id leaf_id : ℕ) → Holds fs path id leaf_id → (new : ℕ) × Holds after path id new)
      → ((id leaf_id : ℕ) → Holds after path id leaf_id → (old : ℕ) × Holds fs path id old)
      → file_at after path ≡ file_at fs path
  file_at-same fs after path keeps adds = elim (Holds-cases fs path) [
    | inl (id, leaf_id, held) ↦
        let (new, kept) = keeps id leaf_id held in
        file_at-Holds after path id new kept ∙ sym (file_at-Holds fs path id leaf_id held)
    | inr (missed, never) ↦ elim (Holds-cases after path) [
      | inl (id, leaf_id, held) ↦
          let (old, before) = adds id leaf_id held in absurd (never id old before)
      | inr (missed', never') ↦ missed' ∙ sym missed
    ]
  ]

  pub file_at-none :
      (fs : ArhFileSystem) (path : Text)
      → ((id leaf_id : ℕ) → ¬ Holds fs path id leaf_id)
      → file_at fs path ≡ none
  file_at-none fs path never = elim (Holds-cases fs path) [
    | inl (id, leaf_id, held) ↦ absurd (never id leaf_id held)
    | inr (missed, never') ↦ missed
  ]

  module _ (fs : ArhFileSystem) (path : Text) {made : ArhFileSystem} {id : ℕ} where
    -- For a path of ASCII characters other than zero: where `create_file` succeeds in a sound archive, the archive
    -- is sound after.
    pub create_file-IsSound :
        IsSound reader fs
        → All IsNameByte path
        → create_file reader fs path ≡ ok (made, id)
        → IsSound reader made
    create_file-IsSound sound bytes e =
        new-IsSound reader fs path made id sound bytes (create_file-IsMade reader fs path e)

    -- For a path of ASCII characters other than zero: where `create_file` succeeds in a sound archive, the path
    -- is found with the id that it returned, and every other ASCII path is found with the id it had, or is not found as
    -- it was not found before.
    pub file_at-create_file :
        (other : Text)
        → IsSound reader fs
        → All IsNameByte path
        → is_ascii other ≡ true
        → create_file reader fs path ≡ ok (made, id)
        → file_at made other ≡ (if text_eq other path then some id else file_at fs other)
    file_at-create_file other sound bytes ascii e =
        let run = create_file-IsMade reader fs path e in
        elim (Bool-cases (text_eq other path)) [
          | inl same ↦ rw same (
              ap (file_at made) (text_eq-eq other path same)
              ∙ file_at-Holds made path id run.place.index
                  (new-IsHeld reader fs path made id sound bytes run))
          | inr apart ↦
              let unlike : other ≢ path =
                λ same. cc (text_eq_self path, ap (λ t. text_eq t path) same) in
              rw apart (
                file_at-same fs made other
                  (λ id' leaf_id held.
                    new_keeps reader fs path made id sound bytes run other id' leaf_id ascii held)
                  (λ id' leaf_id held. elim (ℕ_discrete leaf_id run.place.index) [
                    | yes at ↦ absurd (
                        unlike
                          (new_only reader fs path made id sound bytes run other id' ascii
                            (rw (← at) held)).0)
                    | no at ↦
                        new_adds reader fs path made id sound bytes run other id' leaf_id ascii at
                          held
                  ]))
        ]
