-- ===== src/Tests/Adapter.antt =====
-- crates/core/src/repost/adapter.rs on a torrent and a mapping of two categories.
use pt_reseeder.Base.{
  ◌≡◌, refl, Bool, true, Option, none, some, [], ◌∷◌, ◌++◌, ◌&&◌, ◌||◌, is_some, is_empty,
}
use pt_reseeder.Base.Int.{pos}
use pt_reseeder.Base.Text.{Text, codes, text_eq, contains, contains_text, lower_byte}
use pt_reseeder.Error.{ok}
use pt_reseeder.Repost.Replace.{trim, replace, utf8}
use pt_reseeder.Repost.Format.{RawTorrentInfo, infer_medium, infer_codec, infer_resolution}
use pt_reseeder.Repost.Mapping.{
  AdapterMapping, CategoryMapping, names, eq_ignore_ascii_case, default_category_id,
  default_source_id,
}
use pt_reseeder.Repost.Adapter.{
  AdaptedTorrentInfo, adapt_torrent_info, category_of, source_of, codec_of, resolution_of,
}
use pt_reseeder.Repost.Adapter.Ids.{inferred_ids, first_category}
use pt_reseeder.Repost.Adapter.Cases.{lookups-lower}

-- Matches one pattern only, in texts that hold `1080p`; replaces and finds nothing.
abbrev matches : Text → Text → Bool
matches p t = text_eq p (codes "(?i)\\b1080p\\b") && contains t (codes "1080p")

abbrev unchanged : Text → Text → Text → Text
unchanged p w t = t

abbrev nowhere : Text → Text → Option Text
nowhere p t = none

abbrev show : RawTorrentInfo
show = record {
  name = codes "A Show 1080p";
  small_descr = [];
  descr = codes "text";
  imdb_url = none;
  douban_url = none;
  mediainfo = none;
  images = [];
  torrent_type = codes "Series";
  region = [];
  resolution = codes " ";
  video_codec = [];
  audio_codec = [];
  medium = [];
  source_site = codes "a";
  source_url = codes "https://a.org/1";
  torrent_file_data = none;
}

abbrev films : CategoryMapping
films = record { torrent_type = codes "film"; aliases = codes "movie" ∷ []; category_id = pos 1 }

abbrev series : CategoryMapping
series = record { torrent_type = codes "tv"; aliases = codes "SERIES" ∷ []; category_id = pos 2 }

abbrev target : AdapterMapping
target = record {
  site_name = codes "b";
  categories = films ∷ series ∷ [];
  codecs = [];
  resolutions = [];
  sources = [];
  description_template = some (codes "{name}: {descr}");
}

spaces_trimmed : trim ((0xE3 ∷ 0x80 ∷ 0x80 ∷ utf8 " \n电影" ++ 0xC2 ∷ 0xA0 ∷ [])) ≡ utf8 "电影"
unfolding trim
spaces_trimmed = refl

replaced_once : replace (codes "%2F") (codes "/") (codes "a%2Fb%2%2F") ≡ codes "a/b%2/"
unfolding replace
replaced_once = refl

chinese_category : default_category_id (utf8 "电影") ≡ some (pos 401)
unfolding default_category_id contains_text text_eq lower_byte
chinese_category = refl

spelled_source : default_source_id (codes "WEB DL") ≡ some (pos 5)
unfolding default_source_id contains_text text_eq lower_byte
spelled_source = refl

first_category_example :
    (a : AdaptedTorrentInfo) × (adapt_torrent_info matches unchanged nowhere show
        (codes "b")
        (some target)
      ≡ ok a)
    × (a.category_id ≡ some (pos 2))
unfolding names eq_ignore_ascii_case text_eq lower_byte
first_category_example =
    first_category matches unchanged nowhere show (codes "b") target (films ∷ []) series [] refl
      (refl, tt) refl

show_ends :
    (a : AdaptedTorrentInfo) × (adapt_torrent_info matches unchanged nowhere show
        (codes "b")
        (some target)
      ≡ ok a)
unfolding names eq_ignore_ascii_case text_eq lower_byte
show_ends =
    let k =
      first_category matches unchanged nowhere show (codes "b") target (films ∷ []) series [] refl
        (refl, tt) refl in
    (k.0, k.1)

abbrev adapted : AdaptedTorrentInfo
adapted = show_ends.0

inferred_ids_example :
    ((is_empty (infer_medium matches show.name) || is_some adapted.source_id) ≡ true)
    × ((is_empty (infer_codec matches show.name) || is_some adapted.codec_id) ≡ true)
    × ((is_empty (infer_resolution matches show.name) || is_some adapted.resolution_id) ≡ true)
unfolding trim
inferred_ids_example =
    inferred_ids matches unchanged nowhere show (codes "b") (some target) adapted show_ends.1 refl
      refl refl

lookups-lower_example :
    (category_of (some target) (codes "series") ≡ category_of (some target) (codes "Series"))
    × (source_of (some target) (codes "series") ≡ source_of (some target) (codes "Series"))
    × (codec_of (some target) (codes "series") ≡ codec_of (some target) (codes "Series"))
    × (resolution_of (some target) (codes "series") ≡ resolution_of (some target) (codes "Series"))
unfolding lower_byte
lookups-lower_example = lookups-lower (some target) (codes "Series")
