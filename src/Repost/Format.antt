-- ===== src/Repost/Format.antt =====
-- crates/core/src/repost/adapter.rs: titles, subtitles and descriptions, and the fields that a title
-- names. `regex_lite` is the parameters, each given the source of a pattern.
use pt_reseeder.Base.{Bool, Option, List, [], ◌∷◌, ◌||◌, if◌then◌else◌, any, or_else}
use pt_reseeder.Base.Text.{Text, codes, contains, to_ascii_lowercase}
use pt_reseeder.Repost.Replace.{trim, replace}

pub record RawTorrentInfo : Type 0 where
  pub name : Text
  pub small_descr : Text
  pub descr : Text
  pub imdb_url : Option Text
  pub douban_url : Option Text
  pub mediainfo : Option Text
  pub images : List Text
  pub torrent_type : Text
  pub region : Text
  pub resolution : Text
  pub video_codec : Text
  pub audio_codec : Text
  pub medium : Text
  pub source_site : Text
  pub source_url : Text
  pub torrent_file_data : Option Text

abbrev sites_no_mediainfo : List Text
sites_no_mediainfo =
    codes "chdbits"
    ∷ codes "ourbits"
    ∷ codes "hdarea"
    ∷ codes "audiences"
    ∷ codes "hdtime"
    ∷ codes "ssd"
    ∷ codes "pthome"
    ∷ codes "ptsbao"
    ∷ codes "springsunday"
    ∷ codes "cmct"
    ∷ codes "tlfbits"
    ∷ codes "piggo"
    ∷ codes "beitai"
    ∷ codes "filelist"
    ∷ codes "torrentleech"
    ∷ codes "btschool"
    ∷ []

unfoldable pub apply_description_template : Text → RawTorrentInfo → Text → Text
unfolding replace
apply_description_template template raw descr =
    let t = replace (codes "{descr}") descr template in
    let t = replace (codes "{description}") descr t in
    let t = replace (codes "{source_site}") raw.source_site t in
    let t = replace (codes "{source_url}") raw.source_url t in
    let t = replace (codes "{name}") raw.name t in
    let t = replace (codes "{small_descr}") raw.small_descr t in
    let t = replace (codes "{imdb_url}") (or_else raw.imdb_url []) t in
    let t = replace (codes "{douban_url}") (or_else raw.douban_url []) t in
    replace (codes "{mediainfo}") (or_else raw.mediainfo []) t

-- `replace_all pattern with text`.
module _ (replace_all : Text → Text → Text → Text) where
  unfoldable pub format_title : Text → Text
  format_title title = trim (replace_all (codes " {2,}") (codes " ") (trim title))

  unfoldable pub format_subtitle : Text → Text
  format_subtitle subtitle =
      let result = replace_all (codes "(?i)\\[checked by.*?\\]") [] subtitle in
      let result = replace_all (codes "(?i)\\bautoup\\b") [] result in
      trim (replace_all (codes " {2,}") (codes " ") (trim result))

  unfoldable pub clean_description : Text → Text
  clean_description descr =
      let result = replace (codes "%2F") (codes "/") (replace (codes "%3A") (codes ":") descr) in
      let result = replace_all (codes "(?i)\\[quote\\]\\s*\\[/quote\\]") [] result in
      let result = replace_all (codes "(?i)\\[b\\]\\s*\\[/b\\]") [] result in
      replace_all (codes "\\n{3,}") (codes "\n\n") result

  unfoldable pub translate_bbcode : Text → Text → Text
  translate_bbcode content target_site =
      let result = replace_all (codes "(?i)\\[quote=[^\\]]*\\]") (codes "[quote]") content in
      let result = replace_all (codes "(?i)\\[img=[^\\]]*\\]") (codes "[img]") result in
      let target_lower = to_ascii_lowercase target_site in
      let coded = replace_all (codes "(?i)\\[mediainfo\\]") (codes "[code]") result in
      let coded = replace_all (codes "(?i)\\[/mediainfo\\]") (codes "[/code]") coded in
      let result =
        if any (λ s. contains target_lower s) sites_no_mediainfo then coded else result in
      let result = replace_all (codes "(?i)\\[hide(?:=[^\\]]*)?]") [] result in
      let result = replace_all (codes "(?i)\\[/hide\\]") [] result in
      replace_all (codes "\\n{4,}") (codes "\n\n\n") result

-- `is_match pattern text`.
module _ (is_match : Text → Text → Bool) where
  unfoldable pub infer_medium : Text → Text
  infer_medium title =
      if is_match (codes "(?i)(Web-?dl|WEB[. ])") title || is_match (codes "(?i)webrip") title
      then codes "WEB-DL"
      else if is_match (codes "(?i)\\bremux\\b") title
      then codes "Remux"
      else if is_match (codes "(?i)\\b(UHD|UltraHD)\\b") title
      then codes "UHD"
      else if is_match (codes "(?i)(Blu-?ray|BDISO|BDMV)") title
      then codes "Blu-ray"
      else if is_match (codes "(?i)\\bHDTV\\b") title
      then codes "HDTV"
      else if is_match (codes "(?i)\\b(Encode|BDRip)\\b") title
      then codes "Encode"
      else if is_match (codes "(?i)\\b(DVDRip|DVDISO|DVD)\\b") title
      then codes "DVD"
      else []

  unfoldable pub infer_codec : Text → Text
  infer_codec title =
      if is_match (codes "(?i)\\b(H\\.?264|x\\.?264|AVC)\\b") title
      then codes "H.264"
      else if is_match (codes "(?i)\\b(H\\.?265|x\\.?265|HEVC)\\b") title
      then codes "H.265"
      else if is_match (codes "(?i)\\bAV1\\b") title
      then codes "AV1"
      else if is_match (codes "(?i)\\bVC-?1\\b") title
      then codes "VC-1"
      else if is_match (codes "(?i)\\bMPEG-?2\\b") title
      then codes "MPEG-2"
      else []

  unfoldable pub infer_resolution : Text → Text
  infer_resolution title =
      if is_match (codes "(?i)\\b2160p\\b") title
      then codes "4K"
      else if is_match (codes "(?i)\\b1080p\\b") title
      then codes "1080p"
      else if is_match (codes "(?i)\\b1080i\\b") title
      then codes "1080i"
      else if is_match (codes "(?i)\\b720p\\b") title
      then codes "720p"
      else if is_match (codes "(?i)\\b(480p|576p)\\b") title
      then codes "SD"
      else []

-- `find pattern text`: the text of the first match.
module _ (find : Text → Text → Option Text) where
  unfoldable pub extract_imdb_url : Text → Option Text
  extract_imdb_url descr = find (codes "https?://(?:www\\.)?imdb\\.com/title/(tt\\d+)") descr

  unfoldable pub extract_douban_url : Text → Option Text
  extract_douban_url descr = find (codes "https?://(?:movie\\.)?douban\\.com/subject/(\\d+)") descr
