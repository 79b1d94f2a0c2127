-- ===== src/Engine/Pack.antt =====
-- crates/core/src/engine/pack.rs: packs, their components, and the check of a candidate. A set is a
-- list of its members, a map the list of its entries in order of first insertion; sums of sizes
-- wrap at 2^64, as in the release profile.
pub mod Components
use pt_reseeder.Base.{
  ℕ, ◌+◌, ◌-◌, ◌*◌, ◌/◌, ◌%◌, Bool, false, ◌&&◌, ◌||◌, List, [], ◌∷◌, ◌++◌, max, min, ltb, leb,
  ◌==◌, if◌then◌else◌, length, any,
}
use pt_reseeder.Base.Int.{u64_mod}
use pt_reseeder.Base.Text.{Text, text_eq, contains_text}
use pt_reseeder.Torrent.Parser.{TorrentFile, TorrentMeta}

abbrev pub pack_min_size : ℕ
pack_min_size = 10 * 1024 * 1024 * 1024

abbrev pub pack_min_top_dirs : ℕ
pack_min_top_dirs = 2

-- `HashSet::insert`.
unfoldable pub add_text : List Text → Text → List Text
add_text ts t = if contains_text ts t then ts else ts ++ t ∷ []

unfoldable pub top_dirs : List Text → List TorrentFile → List Text
unfolding add_text
top_dirs dirs [] = dirs
top_dirs dirs (f ∷ fs) =
    top_dirs
      (elim f.path [
        | d ∷ rest ↦ if leb 2 (length f.path) then add_text dirs d else dirs
        | [] ↦ dirs
      ])
      fs

unfoldable pub count_top_level_dirs : List TorrentFile → ℕ
unfolding top_dirs
count_top_level_dirs files = length (top_dirs [] files)

unfoldable pub is_pack : TorrentMeta → Bool
unfolding count_top_level_dirs
is_pack meta =
    if ltb meta.total_size pack_min_size
    then false
    else leb pack_min_top_dirs (count_top_level_dirs meta.files)

pub record PackComponent : Type 0 where
  pub name : Text
  pub size : ℕ
  pub files : List (Text × ℕ)

unfoldable pub join : List Text → Text
join [] = []
join (p ∷ ps) = elim ps [ [] ↦ p | q ∷ qs ↦ p ++ b'/' ∷ join ps ]

-- `entry(dir).or_insert_with(empty)`, with the file put in.
unfoldable pub put_file : Text → Text × ℕ → List PackComponent → List PackComponent
put_file dir (path, size) [] =
    record { name = dir; size = size % u64_mod; files = (path, size) ∷ [] } ∷ []
put_file dir (path, size) (c ∷ cs) =
    let later = c ∷ put_file dir (path, size) cs in
    if text_eq dir c.name
    then record c { size = (c.size + size) % u64_mod; files = c.files ++ (path, size) ∷ [] } ∷ cs
    else later

unfoldable pub abs_diff : ℕ → ℕ → ℕ
abs_diff a b = if ltb a b then b - a else a - b

abbrev pub saturating_mul : ℕ → ℕ → ℕ
saturating_mul a b = min (a * b) (u64_mod - 1)

module _ (to_lowercase : Text → Text) where
  unfoldable pub normalize_path : List Text → Text
  unfolding join
  normalize_path parts = to_lowercase (join parts)

  unfoldable pub group_files : List PackComponent → List TorrentFile → List PackComponent
  unfolding put_file normalize_path
  group_files cs [] = cs
  group_files cs (f ∷ fs) =
      group_files
        (elim f.path [
          | [] ↦ cs
          | d ∷ rest ↦
              if leb 2 (length f.path) then put_file d (normalize_path rest, f.length) cs else cs
        ])
        fs

  unfoldable pub extract_components : TorrentMeta → List PackComponent
  unfolding group_files
  extract_components meta = group_files [] meta.files

  unfoldable pub relative_path : List Text → Text
  unfolding normalize_path
  relative_path [] = normalize_path []
  relative_path (d ∷ rest) =
      if leb 2 (length (d ∷ rest)) then normalize_path rest else normalize_path (d ∷ rest)

  -- The loop over the candidate's files: how many match, and their bytes.
  unfoldable pub count_matches : List (Text × ℕ) → List TorrentFile → ℕ × ℕ → ℕ × ℕ
  unfolding relative_path
  count_matches known [] s = s
  count_matches known (f ∷ fs) (files, bytes) = count_matches known fs (
      if any (λ (p, n). text_eq (relative_path f.path) p && f.length == n) known
      then (files + 1, (bytes + f.length) % u64_mod)
      else (files, bytes))

  unfoldable pub component_overlaps : PackComponent → TorrentMeta → Bool
  unfolding abs_diff count_matches
  component_overlaps component candidate =
      let size_diff : ℕ = abs_diff component.size candidate.total_size in
      let size_tolerance : ℕ = max (component.size / 100) 10_737_418 in
      let (matched_files, matched_bytes) = count_matches component.files candidate.files (0, 0) in
      if ltb size_tolerance size_diff
      then false
      else ltb 0 matched_files
        && (matched_files == length candidate.files
            || leb (saturating_mul candidate.total_size 90 / 100) matched_bytes)
