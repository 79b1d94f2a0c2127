-- ===== src/Repost/Mapping.antt =====
-- crates/core/src/repost: a target site's mapping of categories, sources, codecs and resolutions, and
-- the numbers of adapter.rs where the site has none.
use pt_reseeder.Base.{
  Bool, Option, none, some, List, [], ◌∷◌, ◌==◌, ◌||◌, not, ◌&&◌, if◌then◌else◌, any, is_some,
  is_empty, map, ◌++◌,
}
use pt_reseeder.Base.Int.{ℤ, pos}
use pt_reseeder.Base.Text.{Text, codes, text_eq, contains_text, to_ascii_lowercase}
use pt_reseeder.Base.Decimal.{parse_i64}
use pt_reseeder.Error.{Result, ok, err, repost, adaptation_failed}
use pt_reseeder.Repost.Replace.{trim, utf8}

pub record CategoryMapping : Type 0 where
  pub torrent_type : Text
  pub aliases : List Text
  pub category_id : ℤ

pub record CodecMapping : Type 0 where
  pub codec : Text
  pub aliases : List Text
  pub codec_id : ℤ

pub record ResolutionMapping : Type 0 where
  pub resolution : Text
  pub aliases : List Text
  pub resolution_id : ℤ

pub record SourceMapping : Type 0 where
  pub medium : Text
  pub aliases : List Text
  pub source_id : ℤ

pub record AdapterMapping : Type 0 where
  pub site_name : Text
  pub categories : List CategoryMapping
  pub codecs : List CodecMapping
  pub resolutions : List ResolutionMapping
  pub sources : List SourceMapping
  pub description_template : Option Text

unfoldable pub eq_ignore_ascii_case : Text → Text → Bool
eq_ignore_ascii_case s t = text_eq (to_ascii_lowercase s) (to_ascii_lowercase t)

-- The test of `find_mapping`: the entry's own name or one of its aliases.
unfoldable pub names : Text → Text × List Text → Bool
names value (primary, aliases) =
    eq_ignore_ascii_case primary value || any (λ a. eq_ignore_ascii_case a value) aliases

unfoldable pub find_mapping : {T : Type 0} → Text → List T → (T → Text × List Text) → Option T
find_mapping value [] fields = none
find_mapping value (e ∷ es) fields =
    let rest = find_mapping value es fields in if names value (fields e) then some e else rest

unfoldable pub require_mapping : Text → Text → Option ℤ → Result (Unit {0})
require_mapping kind value id =
    if not (is_some id) && not (is_empty (trim value))
    then err (
        repost (
          adaptation_failed
            (codes "missing " ++ kind ++ codes " mapping for '" ++ value ++ codes "'")))
    else ok tt

unfoldable pub default_category_id : Text → Option ℤ
default_category_id value =
    let lower = to_ascii_lowercase value in
    if contains_text (map utf8 ("401" ∷ "movie" ∷ "movies" ∷ "电影" ∷ "影片" ∷ [])) lower
    then some (pos 401)
    else if contains_text (map utf8 ("402" ∷ "tv" ∷ "series" ∷ "剧集" ∷ "电视剧" ∷ [])) lower
    then some (pos 402)
    else if contains_text (map utf8 ("403" ∷ "music" ∷ "音乐" ∷ [])) lower
    then some (pos 403)
    else if contains_text (map utf8 ("404" ∷ "documentary" ∷ "纪录" ∷ "纪录片" ∷ [])) lower
    then some (pos 404)
    else if contains_text (map utf8 ("405" ∷ "anime" ∷ "animation" ∷ "动画" ∷ "动漫" ∷ [])) lower
    then some (pos 405)
    else if contains_text (map utf8 ("406" ∷ "variety" ∷ "show" ∷ "综艺" ∷ [])) lower
    then some (pos 406)
    else if contains_text (map utf8 ("407" ∷ "sports" ∷ "体育" ∷ [])) lower
    then some (pos 407)
    else if contains_text (map utf8 ("408" ∷ "software" ∷ "软件" ∷ [])) lower
    then some (pos 408)
    else if contains_text (map utf8 ("409" ∷ "game" ∷ "games" ∷ "游戏" ∷ [])) lower
    then some (pos 409)
    else if contains_text (map utf8 ("410" ∷ "ebook" ∷ "book" ∷ "电子书" ∷ "书籍" ∷ [])) lower
    then some (pos 410)
    else parse_i64 value

unfoldable pub default_source_id : Text → Option ℤ
default_source_id value =
    let lower = map (λ c. if c == 0x5F || c == 0x20 then 0x2D else c) (to_ascii_lowercase value) in
    if contains_text (map codes ("1" ∷ "blu-ray" ∷ "bluray" ∷ "bdrip" ∷ "bdiso" ∷ [])) lower
    then some (pos 1)
    else if contains_text (map codes ("2" ∷ "uhd" ∷ "ultrahd" ∷ [])) lower
    then some (pos 2)
    else if contains_text (map codes ("3" ∷ "remux" ∷ [])) lower
    then some (pos 3)
    else if contains_text (map codes ("4" ∷ "hdtv" ∷ [])) lower
    then some (pos 4)
    else if contains_text (map codes ("5" ∷ "web-dl" ∷ "webdl" ∷ "web" ∷ "webrip" ∷ [])) lower
    then some (pos 5)
    else if contains_text (map codes ("6" ∷ "dvd" ∷ "dvdrip" ∷ "dvdiso" ∷ [])) lower
    then some (pos 6)
    else if contains_text (map codes ("7" ∷ "encode" ∷ [])) lower
    then some (pos 7)
    else parse_i64 value

unfoldable pub default_codec_id : Text → Option ℤ
default_codec_id value =
    let lower = to_ascii_lowercase value in
    if contains_text (map codes ("1" ∷ "h.264" ∷ "h264" ∷ "x264" ∷ "avc" ∷ [])) lower
    then some (pos 1)
    else if contains_text (map codes ("2" ∷ "h.265" ∷ "h265" ∷ "x265" ∷ "hevc" ∷ [])) lower
    then some (pos 2)
    else if contains_text (map codes ("3" ∷ "mpeg-2" ∷ "mpeg2" ∷ [])) lower
    then some (pos 3)
    else if contains_text (map codes ("4" ∷ "vc-1" ∷ "vc1" ∷ [])) lower
    then some (pos 4)
    else if contains_text (map codes ("5" ∷ "av1" ∷ [])) lower
    then some (pos 5)
    else parse_i64 value

unfoldable pub default_resolution_id : Text → Option ℤ
default_resolution_id value =
    let lower = to_ascii_lowercase value in
    if contains_text (map codes ("1" ∷ "4k" ∷ "2160p" ∷ "uhd" ∷ [])) lower
    then some (pos 1)
    else if contains_text (map codes ("2" ∷ "1080p" ∷ [])) lower
    then some (pos 2)
    else if contains_text (map codes ("3" ∷ "1080i" ∷ [])) lower
    then some (pos 3)
    else if contains_text (map codes ("4" ∷ "720p" ∷ [])) lower
    then some (pos 4)
    else if contains_text (map codes ("5" ∷ "sd" ∷ "480p" ∷ "576p" ∷ [])) lower
    then some (pos 5)
    else parse_i64 value
