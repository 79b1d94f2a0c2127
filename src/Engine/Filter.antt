-- ===== src/Engine/Filter.antt =====
-- crates/core/src/engine/filter.rs. A set of texts is a list of them; the case mapping of
-- `str::to_lowercase` is a parameter.
pub mod Hosts
use pt_reseeder.Base.{Bool, none, some, List, [], ◌∷◌, ◌||◌, ◌==◌, if◌then◌else◌, any, or_else}
use pt_reseeder.Base.Text.{Text, codes, text_eq, strip_prefix, contains_text}

unfoldable pub strip_protocol : Text → Text
strip_protocol url = elim (strip_prefix (codes "https://") url) [
  | some rest ↦ rest
  | none ↦ or_else (strip_prefix (codes "http://") url) url
]

-- Everything before the first `/` or `:`.
unfoldable pub before_separator : Text → Text
before_separator [] = []
before_separator (c ∷ cs) =
    let rest = before_separator cs in if c == b'/' || c == b':' then [] else c ∷ rest

module _ (to_lowercase : Text → Text) where
  unfoldable pub extract_domain : Text → Text
  unfolding strip_protocol before_separator
  extract_domain url = to_lowercase (before_separator (strip_protocol url))

  unfoldable pub filter_by_tracker : List Text → Text → Bool
  filter_by_tracker urls base = any (λ url. text_eq (extract_domain url) (extract_domain base)) urls

unfoldable pub filter_by_existing_hash : List Text → Text → Bool
filter_by_existing_hash hashes info_hash = contains_text hashes info_hash
