-- ===== src/Mount/Listing.antt =====
-- fuse-ard/src/fs.rs: the pages of `readdir`.
use ard_tools.Base.{
  ℕ, zero, suc, ◌<◌, ◌≡◌, refl, sym, ap, ◌∙◌, inl, inr, Bool, true, false, not, ◌&&◌, Option, none,
  some, List, [], ◌∷◌, ◌++◌, arith, ◌==◌, length, Bool-cases, length-append,
}
use mathlib.Core.List.{append-nil, append_assoc}
use ard_tools.Path.{Text}
use ard_tools.Fs.Tree.{DirNodes, dir_node, directory}
use ard_tools.Fs.Tree
use ard_tools.Mount.{Mount, Listed, listing, get_path}
use ard_tools.Mount.Handlers.{behind, skip_sent, add_all, dir_entries, readdir}

-- Whether no entry stands at an offset, and whether no two entries share one.
abbrev pub none_at : ℕ → List Listed → Bool
none_at offset [] = true
none_at offset (e ∷ es) = not (e.offset == offset) && none_at offset es

abbrev pub all_apart : List Listed → Bool
all_apart [] = true
all_apart (e ∷ es) = none_at e.offset es && all_apart es

-- The offset of the last entry of a page, from which the next page is asked for.
abbrev pub last_offset : ℕ → List Listed → ℕ
last_offset offset [] = offset
last_offset offset (e ∷ es) = last_offset e.offset es

-- What a client does with a page: it asks for the next one from the last entry, unless the page is empty.
abbrev pub then_ask : (ℕ → Option (List Listed)) → List Listed → Option (List Listed)
then_ask ask [] = some []
then_ask ask (e ∷ es) = elim (ask (last_offset e.offset es)) [
  | none ↦ none
  | some rest ↦ some ((e ∷ es) ++ rest)
]

then_ask-eq :
    (ask ask' : ℕ → Option (List Listed))
    → ((next : ℕ) → ask next ≡ ask' next)
    → (page : List Listed) → then_ask ask page ≡ then_ask ask' page
then_ask-eq ask ask' same [] = refl
then_ask-eq ask ask' same (e ∷ es) = rw (then_ask, same (last_offset e.offset es)) refl

-- The pages of the entries, on fuel; `none` is a run that is out of fuel.
unfoldable read_pages : (List Listed → Listed → Bool) → List Listed → ℕ → ℕ → Option (List Listed)
read_pages full entries zero offset = none
read_pages full entries (suc fuel) offset =
    then_ask (λ next. read_pages full entries fuel next)
      (add_all full [] (skip_sent entries offset))

-- A page holds the first of the entries.
add_all-prefix :
    (full : List Listed → Listed → Bool) (sent entries : List Listed)
    → (page : List Listed) × (rest : List Listed) × (add_all full sent entries ≡ sent ++ page)
      × (entries ≡ page ++ rest)
unfolding add_all
add_all-prefix full sent [] = ([], [], sym (append-nil sent), refl)
add_all-prefix full sent (e ∷ es) =
    let (page, rest, sends, splits) = add_all-prefix full (sent ++ e ∷ []) es in
    elim (Bool-cases (full sent e)) [
      | inl stop ↦ ([], e ∷ es, ground (arith, append-nil sent), refl)
      | inr on ↦ (
        e ∷ page,
        rest,
        ground arith ∙ sends ∙ append_assoc sent (e ∷ []) page,
        ap (λ t. e ∷ t) splits,
      )
    ]

-- And at least one, if the first entry fits.
add_all-page :
    (full : List Listed → Listed → Bool) (e : Listed) (es : List Listed)
    → full [] e ≡ false
    → (page : List Listed) × (rest : List Listed) × (add_all full [] (e ∷ es) ≡ e ∷ page)
      × (es ≡ page ++ rest)
unfolding add_all
add_all-page full e es fits =
    let (page, rest, sends, splits) = add_all-prefix full (e ∷ []) es in
    (page, rest, ground arith ∙ sends, splits)

-- What is listed behind the last entry of a page.
none_at-append :
    (offset : ℕ) (xs ys : List Listed) → none_at offset (xs ++ ys) ≡ true → none_at offset ys ≡ true
none_at-append offset [] ys h = h
none_at-append offset (x ∷ xs) ys h = none_at-append offset xs ys (ground arith)

behind-entry :
    (front : List Listed) (e : Listed) (rest : List Listed)
    → all_apart (front ++ e ∷ rest) ≡ true
    → behind (front ++ e ∷ rest) e.offset ≡ some rest
behind-entry [] e rest apart = ground arith
behind-entry (x ∷ front) e rest apart =
    let later = behind-entry front e rest (ground arith) in
    let other = none_at-append x.offset front (e ∷ rest) (ground arith) in
    ground (arith, later, other)

behind-page :
    (front : List Listed) (e : Listed) (page rest : List Listed)
    → all_apart (front ++ e ∷ (page ++ rest)) ≡ true
    → behind (front ++ e ∷ (page ++ rest)) (last_offset e.offset page) ≡ some rest
behind-page front e [] rest apart = behind-entry front e rest apart
behind-page front e (x ∷ page) rest apart =
    let split = append_assoc front (e ∷ []) (x ∷ (page ++ rest)) in
    ap (λ t. behind t (last_offset x.offset page)) (sym split)
    ∙ behind-page (front ++ e ∷ []) x page rest (ap all_apart split ∙ apart)

module _ (full : List Listed → Listed → Bool) (entries : List Listed) (fuel offset : ℕ) where
  read_pages-end :
      skip_sent entries offset ≡ [] → read_pages full entries (suc fuel) offset ≡ some []
  unfolding read_pages add_all
  read_pages-end at_end = rw (read_pages, at_end) refl

  read_pages-page :
      (e : Listed) (page rest : List Listed)
      → add_all full [] (skip_sent entries offset) ≡ e ∷ page
      → read_pages full entries fuel (last_offset e.offset page) ≡ some rest
      → read_pages full entries (suc fuel) offset ≡ some (e ∷ (page ++ rest))
  unfolding read_pages
  read_pages-page e page rest sends later = rw (read_pages, sends, later) refl

-- The pages from an offset on are what is listed behind it.
read_pages-rest :
    (full : List Listed → Listed → Bool) (entries : List Listed) (fuel offset : ℕ)
    (front rest : List Listed)
    → ((e : Listed) → full [] e ≡ false)
    → all_apart entries ≡ true
    → entries ≡ front ++ rest
    → skip_sent entries offset ≡ rest
    → length rest < fuel
    → read_pages full entries fuel offset ≡ some rest
read_pages-rest full entries zero offset front rest fits apart splits at_rest enough =
    absurd (omega (arith, enough))
read_pages-rest full entries (suc fuel) offset front [] fits apart splits at_rest enough =
    read_pages-end full entries fuel offset at_rest
read_pages-rest full entries (suc fuel) offset front (e ∷ es) fits apart splits at_rest enough =
    let (page, rest, sends, cut) = add_all-page full e es (fits e) in
    let whole : entries ≡ front ++ e ∷ (page ++ rest) = splits ∙ ap (λ t. front ++ e ∷ t) cut in
    let behind_page = behind-page front e page rest (ap all_apart (sym whole) ∙ apart) in
    let later =
      read_pages-rest full entries fuel (last_offset e.offset page) (front ++ e ∷ page) rest fits
        apart (whole ∙ sym (append_assoc front (e ∷ page) rest))
        (ap (λ t. skip_sent t (last_offset e.offset page)) whole ∙ ground (arith, behind_page))
        (omega (arith, enough, ap length cut, length-append page rest)) in
    read_pages-page full entries fuel offset e page rest (ap (add_all full []) at_rest ∙ sends)
      later
    ∙ ap (λ t. some (e ∷ t)) (sym cut)

skip_sent-start : (entries : List Listed) → none_at 0 entries ≡ true → skip_sent entries 0 ≡ entries
skip_sent-start entries h = rw (skip_sent, start entries h) refl
  where
    start : (es : List Listed) → none_at 0 es ≡ true → behind es 0 ≡ none
    start [] h = refl
    start (e ∷ es) h = ground (arith, start es (ground arith))

module _ (hash : Text → ℕ) (full : List Listed → Listed → Bool) (m : Mount) (ino : ℕ) where
  -- A client that asks `readdir` for pages until one is empty, on fuel.
  unfoldable pub readdir_pages : ℕ → ℕ → Option (List Listed)
  readdir_pages zero offset = none
  readdir_pages (suc fuel) offset = elim ((readdir hash full m ino offset).1) [
    | listing page ↦ then_ask (λ next. readdir_pages fuel next) page
    | _ ↦ none
  ]

  module _ (full_path n : Text) (children : DirNodes) (known : get_path m ino ≡ some full_path)
      (there : Tree.get_dir m.arh.dir_tree full_path ≡ some (dir_node n (directory children))) where
    readdir-page :
        (offset : ℕ)
        → (readdir hash full m ino offset).1
          ≡ listing (add_all full [] (skip_sent (dir_entries hash children) offset))
    unfolding readdir
    readdir-page offset = rw (readdir, known, there) refl

    readdir_pages-read_pages :
        (fuel offset : ℕ)
        → readdir_pages fuel offset ≡ read_pages full (dir_entries hash children) fuel offset
    unfolding readdir_pages read_pages
    readdir_pages-read_pages zero offset = refl
    readdir_pages-read_pages (suc fuel) offset =
        let rest = λ (next : ℕ). readdir_pages-read_pages fuel next in
        ap
          (λ r. elim r as (λ r. Option (List Listed)) [
            | listing page ↦ then_ask (λ next. readdir_pages fuel next) page
            | _ ↦ none
          ])
          (readdir-page offset)
        ∙ (then_ask-eq (λ next. readdir_pages fuel next)
            (λ next. read_pages full (dir_entries hash children) fuel next) rest
            (add_all full [] (skip_sent (dir_entries hash children) offset)))

    -- A client that starts at offset 0 and asks for pages until one is empty gets each entry of the directory
    -- once, in order, and then stops, where no two entries have the same offset, none has offset 0, and
    -- a page has room for an entry.
    pub readdir_pages-all :
        ((e : Listed) → full [] e ≡ false)
        → all_apart (dir_entries hash children) ≡ true
        → none_at 0 (dir_entries hash children) ≡ true
        → readdir_pages (suc (length (dir_entries hash children))) 0
          ≡ some (dir_entries hash children)
    readdir_pages-all fits apart nonzero =
        let entries = dir_entries hash children in
        readdir_pages-read_pages (suc (length entries)) 0
        ∙ read_pages-rest full entries (suc (length entries)) 0 [] entries fits apart refl
            (skip_sent-start entries nonzero) (omega arith)
