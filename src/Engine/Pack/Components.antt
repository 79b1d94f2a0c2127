-- ===== src/Engine/Pack/Components.antt =====
-- crates/core/src/engine/pack.rs: the components of a pack against its top-level directories.
use pt_reseeder.Base.{
  ℕ, ◌≡◌, refl, ap, sym, ◌∙◌, List, [], ◌∷◌, map, arith, length, leb, if◌then◌else◌, Bool-cases,
  inl, inr,
}
use pt_reseeder.Base.Text.{Text, text_eq, contains_text}
use pt_reseeder.Torrent.Parser.{TorrentFile, TorrentMeta}
use pt_reseeder.Engine.Pack.{
  PackComponent, add_text, top_dirs, count_top_level_dirs, put_file, normalize_path, group_files,
  extract_components,
}

names : List PackComponent → List Text
names cs = map (λ c. c.name) cs

length-names : (cs : List PackComponent) → length (names cs) ≡ length cs
unfolding names
length-names [] = refl
length-names (c ∷ cs) = ground (arith, length-names cs)

names-put_file :
    (dir path : Text) (size : ℕ) (cs : List PackComponent)
    → names (put_file dir (path, size) cs) ≡ add_text (names cs) dir
unfolding names put_file add_text contains_text
names-put_file dir path size [] = refl
names-put_file dir path size (c ∷ cs) =
    let rest = names-put_file dir path size cs in
    elim (Bool-cases (text_eq dir c.name)) [
      | inl same ↦ rw same refl
      | inr other ↦ elim (Bool-cases (contains_text (names cs) dir)) [
        | inl found ↦ rw (other, found) (ap (λ ns. c.name ∷ ns) (rest ∙ rw found refl))
        | inr absent ↦ rw (other, absent) (ap (λ ns. c.name ∷ ns) (rest ∙ rw absent refl))
      ]
    ]

module _ (to_lowercase : Text → Text) where
  -- One step of the two loops, for a file with this path; `n` is the path's length.
  names_step :
      (path : List Text) (n size : ℕ) (cs : List PackComponent)
      → names (elim path [
        | [] ↦ cs
        | d ∷ rest ↦ if leb 2 n then put_file d (normalize_path to_lowercase rest, size) cs else cs
      ])
        ≡ elim path [
          | d ∷ rest ↦ if leb 2 n then add_text (names cs) d else names cs
          | [] ↦ names cs
        ]
  names_step [] n size cs = refl
  names_step (d ∷ rest) n size cs = elim (Bool-cases (leb 2 n)) [
    | inl deep ↦ rw deep (names-put_file d (normalize_path to_lowercase rest) size cs)
    | inr flat ↦ rw flat refl
  ]

  names-group_files :
      (fs : List TorrentFile) (cs : List PackComponent)
      → names (group_files to_lowercase cs fs) ≡ top_dirs (names cs) fs
  unfolding group_files top_dirs
  names-group_files [] cs = refl
  names-group_files (f ∷ fs) cs =
      names-group_files fs _
      ∙ ap (λ ds. top_dirs ds fs) (names_step f.path (length f.path) f.length cs)

  -- A torrent has as many components as it has top-level directories.
  pub extract_components-length :
      (meta : TorrentMeta)
      → length (extract_components to_lowercase meta) ≡ count_top_level_dirs meta.files
  unfolding extract_components count_top_level_dirs names
  extract_components-length meta =
      sym (length-names (group_files to_lowercase [] meta.files))
      ∙ ap length (names-group_files meta.files [])
