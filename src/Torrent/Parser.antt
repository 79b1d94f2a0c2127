-- ===== src/Torrent/Parser.antt =====
-- crates/core/src/torrent/parser.rs and models.rs. `sha1` is the digest of the sha1 crate. Sums of
-- sizes wrap at 2^64, as in the release profile.
pub mod Meta
use pt_reseeder.Base.{
  ℕ, ◌+◌, ◌-◌, ◌/◌, ◌%◌, Option, none, some, List, [], ◌∷◌, ◌++◌, ltb, ◌==◌, if◌then◌else◌,
  filter_map, and_then, or_else,
}
use pt_reseeder.Base.Int.{pos, u64_mod, as_u64}
use pt_reseeder.Base.Text.{Text, codes}
use pt_reseeder.Error.{internal, Outcome, returned}
use pt_reseeder.Error.Results.{or_fail, ◌>>=◌}
use pt_reseeder.Torrent.Bencode.{
  BencodeValue, Items, no_items, item, Fields, as_int, as_bytes, as_str, as_list, as_dict, get,
  encode, decode,
}

pub record TorrentFile : Type 0 where
  pub path : List Text
  pub length : ℕ

pub record TorrentMeta : Type 0 where
  pub info_hash : Text
  pub pieces_hash : Text
  pub name : Text
  pub total_size : ℕ
  pub files : List TorrentFile
  pub announce : Option Text
  pub announce_list : List (List Text)
  pub piece_length : ℕ
  pub pieces_count : ℕ

unfoldable pub hex_digit : ℕ → ℕ
hex_digit d = if ltb d 10 then b'0' + d else b'a' + (d - 10)

unfoldable pub hex_encode : Text → Text
unfolding hex_digit
hex_encode [] = []
hex_encode (b ∷ bs) = hex_digit (b / 16) ∷ hex_digit (b % 16) ∷ hex_encode bs

unfoldable pub items : Items → List BencodeValue
items no_items = []
items (item v xs) = v ∷ items xs

abbrev pub get_with {ℓ} : {A : Type ℓ} → Text → (BencodeValue → Option A) → Fields → Option A
get_with k as' fs = and_then (get k fs) as'

-- `.and_then(|v| v.as_int()).unwrap_or(0) as u64`.
unfoldable pub u64_field : Text → Fields → ℕ
u64_field k fs = as_u64 (or_else (get_with k as_int fs) (pos 0))

unfoldable pub file_path : Fields → List Text
unfolding items
file_path fd = elim (get_with (codes "path") as_list fd) [
  | none ↦ []
  | some xs ↦ filter_map as_str (items xs)
]

-- The loop over the `files` list; an entry that is no dict is passed over.
unfoldable pub parse_files : List BencodeValue → List TorrentFile × ℕ → List TorrentFile × ℕ
unfolding u64_field file_path
parse_files [] s = s
parse_files (f ∷ fs) (parsed, total) = parse_files fs (elim (as_dict f) [
  | none ↦ (parsed, total)
  | some fd ↦ (
    parsed ++ record { path = file_path fd; length = u64_field (codes "length") fd } ∷ [],
    (total + u64_field (codes "length") fd) % u64_mod,
  )
])

unfoldable pub torrent_files : Text → Fields → List TorrentFile × ℕ
unfolding parse_files items
torrent_files name info_dict = elim (get_with (codes "files") as_list info_dict) [
  | some xs ↦ parse_files (items xs) ([], 0)
  | none ↦
      let length = u64_field (codes "length") info_dict in
      (record { path = name ∷ []; length = length } ∷ [], length)
]

unfoldable pub div_ceil : ℕ → ℕ → ℕ
div_ceil a b = if a % b == 0 then a / b else a / b + 1

unfoldable pub count_pieces : ℕ → ℕ → ℕ
count_pieces total_size piece_length =
    if ltb 0 piece_length then div_ceil total_size piece_length else 0

unfoldable pub announce_tiers : Fields → List (List Text)
unfolding items
announce_tiers dict' = elim (get_with (codes "announce-list") as_list dict') [
  | none ↦ []
  | some tiers ↦
      filter_map
        (λ tier. elim (as_list tier) [
          | none ↦ none
          | some urls ↦ some (filter_map as_str (items urls))
        ])
        (items tiers)
]

module _ (sha1 : Text → Text) where
  -- What `parse_bytes` makes of the two dicts and the `pieces`, once these are found.
  unfoldable pub build_meta : Fields → BencodeValue → Fields → Text → TorrentMeta
  unfolding hex_encode torrent_files div_ceil announce_tiers u64_field
  build_meta dict' info info_dict pieces =
      let name : Text = or_else (get_with (codes "name") as_str info_dict) (codes "unknown") in
      let piece_length : ℕ = u64_field (codes "piece length") info_dict in
      let (files, total_size) = torrent_files name info_dict in
      record {
        info_hash = hex_encode (sha1 (encode info));
        pieces_hash = hex_encode (sha1 pieces);
        name = name;
        total_size = total_size;
        files = files;
        announce = get_with (codes "announce") as_str dict';
        announce_list = announce_tiers dict';
        piece_length = piece_length;
        pieces_count = count_pieces total_size piece_length;
      }

  unfoldable pub meta_of : BencodeValue → Outcome TorrentMeta
  unfolding build_meta
  meta_of value = do
    dict' ← or_fail (as_dict value) (internal (codes "Torrent is not a dict"))
    info ← or_fail (get (codes "info") dict') (internal (codes "Missing info dict"))
    info_dict ← or_fail (as_dict info) (internal (codes "info is not a dict"))
    pieces ←
        or_fail (get_with (codes "pieces") as_bytes info_dict) (internal (codes "Missing pieces"))
    returned (build_meta dict' info info_dict pieces)

  unfoldable pub parse_bytes : Text → Outcome TorrentMeta
  unfolding meta_of
  parse_bytes input = do value ← decode input; meta_of value
