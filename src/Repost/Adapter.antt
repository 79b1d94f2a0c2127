-- ===== src/Repost/Adapter.antt =====
-- crates/core/src/repost/adapter.rs: what a site's page says of a torrent, adapted for another site.
-- `regex_lite` is the parameters.
pub mod Ids
pub mod Cases
use pt_reseeder.Base.{Bool, Option, none, some, List, if◌then◌else◌, and_then, is_empty}
use pt_reseeder.Base.Int.{ℤ}
use pt_reseeder.Base.Text.{Text, codes}
use pt_reseeder.Error.{Result, ok, err}
use pt_reseeder.Repost.Replace.{trim}
use pt_reseeder.Repost.Format.{
  RawTorrentInfo, format_title, format_subtitle, clean_description, translate_bbcode,
  apply_description_template, infer_medium, infer_codec, infer_resolution, extract_imdb_url,
  extract_douban_url,
}
use pt_reseeder.Repost.Mapping.{
  AdapterMapping, find_mapping, require_mapping, default_category_id, default_source_id,
  default_codec_id, default_resolution_id,
}

pub record AdaptedTorrentInfo : Type 0 where
  pub name : Text
  pub small_descr : Text
  pub descr : Text
  pub imdb_url : Option Text
  pub douban_url : Option Text
  pub mediainfo : Option Text
  pub images : List Text
  pub category_id : Option ℤ
  pub source_id : Option ℤ
  pub codec_id : Option ℤ
  pub resolution_id : Option ℤ
  pub torrent_file_data : Option Text
  pub target_site : Text

-- `Option::or`.
abbrev pub or_id : Option ℤ → Option ℤ → Option ℤ
or_id none b = b
or_id (some a) b = some a

-- The lookups of a mapping, the site's own entries before the numbers of the module.
module _ (mapping : Option AdapterMapping) where
  unfoldable pub category_of : Text → Option ℤ
  category_of torrent_type = elim mapping [
    | some m ↦
        or_id
          (and_then (find_mapping torrent_type m.categories (λ c. (c.torrent_type, c.aliases)))
            (λ c. some c.category_id))
          (default_category_id torrent_type)
    | none ↦ default_category_id torrent_type
  ]

  unfoldable pub source_of : Text → Option ℤ
  source_of medium = elim mapping [
    | some m ↦
        or_id
          (and_then (find_mapping medium m.sources (λ s. (s.medium, s.aliases)))
            (λ s. some s.source_id))
          (default_source_id medium)
    | none ↦ default_source_id medium
  ]

  unfoldable pub codec_of : Text → Option ℤ
  codec_of video_codec = elim mapping [
    | some m ↦
        or_id
          (and_then (find_mapping video_codec m.codecs (λ c. (c.codec, c.aliases)))
            (λ c. some c.codec_id))
          (default_codec_id video_codec)
    | none ↦ default_codec_id video_codec
  ]

  unfoldable pub resolution_of : Text → Option ℤ
  resolution_of resolution = elim mapping [
    | some m ↦
        or_id
          (and_then (find_mapping resolution m.resolutions (λ r. (r.resolution, r.aliases)))
            (λ r. some r.resolution_id))
          (default_resolution_id resolution)
    | none ↦ default_resolution_id resolution
  ]

module _ (is_match : Text → Text → Bool) (replace_all : Text → Text → Text → Text)
    (find : Text → Text → Option Text) where
  unfoldable pub adapt_torrent_info :
      RawTorrentInfo → Text → Option AdapterMapping → Result AdaptedTorrentInfo
  adapt_torrent_info raw target_site mapping =
      let translated_descr =
        translate_bbcode replace_all (clean_description replace_all raw.descr) target_site in
      let template = and_then mapping (λ m. m.description_template) in
      let medium =
        if is_empty (trim raw.medium) then infer_medium is_match raw.name else raw.medium in
      let video_codec =
        if is_empty (trim raw.video_codec)
        then infer_codec is_match raw.name
        else raw.video_codec in
      let resolution =
        if is_empty (trim raw.resolution)
        then infer_resolution is_match raw.name
        else raw.resolution in
      let category_id = category_of mapping raw.torrent_type in
      let adapted : AdaptedTorrentInfo = record {
        name = format_title replace_all raw.name;
        small_descr = format_subtitle replace_all raw.small_descr;
        descr = elim template [
          | some t ↦ apply_description_template t raw translated_descr
          | none ↦ translated_descr
        ];
        imdb_url = elim raw.imdb_url [ some u ↦ some u | none ↦ extract_imdb_url find raw.descr ];
        douban_url = elim raw.douban_url [
          | some u ↦ some u
          | none ↦ extract_douban_url find raw.descr
        ];
        mediainfo = raw.mediainfo;
        images = raw.images;
        category_id = category_id;
        source_id = source_of mapping medium;
        codec_id = codec_of mapping video_codec;
        resolution_id = resolution_of mapping resolution;
        torrent_file_data = raw.torrent_file_data;
        target_site = target_site;
      } in
      elim (require_mapping (codes "category") raw.torrent_type category_id) [
        | ok _ ↦ ok adapted
        | err e ↦ err e
      ]
