-- ===== src/Repost/Adapter/Ids.antt =====
-- crates/core/src/repost/adapter.rs: where the numbers of an adapted torrent come from.
use Prim.Native.String.{String}
use pt_reseeder.Base.{
  ◌≡◌, refl, sym, ap, Bool, true, false, Option, none, some, List, [], ◌∷◌, ◌++◌, ◌||◌, ◌∙◌,
  if◌then◌else◌, is_some, is_empty, All, arith,
}
use pt_reseeder.Base.Int.{ℤ}
use pt_reseeder.Base.Text.{Text, codes, text_eq, contains_text, lower_byte}
use pt_reseeder.Error.{Result, ok, err}
use pt_reseeder.Repost.Replace.{trim}
use pt_reseeder.Repost.Format.{RawTorrentInfo, infer_medium, infer_codec, infer_resolution}
use pt_reseeder.Repost.Mapping.{
  AdapterMapping, CategoryMapping, names, find_mapping, require_mapping, default_source_id,
  default_codec_id, default_resolution_id,
}
use pt_reseeder.Repost.Adapter.{
  AdaptedTorrentInfo, or_id, category_of, source_of, codec_of, resolution_of, adapt_torrent_info,
}

or_id-some : (a b : Option ℤ) → is_some b ≡ true → is_some (or_id a b) ≡ true
or_id-some none b h = h
or_id-some (some x) b h = refl

unless_err :
    {A B : Type 0} (r : Result A) (b c : B)
    → ◌≡◌ {A = Result B} (elim r [ ok _ ↦ ok b | err e ↦ err e ]) (ok c)
    → b ≡ c
unless_err (ok x) b c h = cc
unless_err (err e) b c h = cc

abbrev Known : (Text → Option ℤ) → String → Type 0
Known f s = is_some (f (codes s)) ≡ true

sources :
    Known default_source_id "WEB-DL"
    × Known default_source_id "Remux"
    × Known default_source_id "UHD"
    × Known default_source_id "Blu-ray"
    × Known default_source_id "HDTV"
    × Known default_source_id "Encode"
    × Known default_source_id "DVD"
unfolding default_source_id contains_text text_eq lower_byte
sources = (refl, refl, refl, refl, refl, refl, refl)

codecs :
    Known default_codec_id "H.264"
    × Known default_codec_id "H.265"
    × Known default_codec_id "AV1"
    × Known default_codec_id "VC-1"
    × Known default_codec_id "MPEG-2"
unfolding default_codec_id contains_text text_eq lower_byte
codecs = (refl, refl, refl, refl, refl)

resolutions :
    Known default_resolution_id "4K"
    × Known default_resolution_id "1080p"
    × Known default_resolution_id "1080i"
    × Known default_resolution_id "720p"
    × Known default_resolution_id "SD"
unfolding default_resolution_id contains_text text_eq lower_byte
resolutions = (refl, refl, refl, refl, refl)

source_of-default :
    (mapping : Option AdapterMapping) (t : Text)
    → (is_empty t || is_some (default_source_id t)) ≡ true
    → (is_empty t || is_some (source_of mapping t)) ≡ true
unfolding source_of
source_of-default none t h = h
source_of-default (some m) t h =
    ground (arith, λ (b : Option ℤ). or_id-some b (default_source_id t))

codec_of-default :
    (mapping : Option AdapterMapping) (t : Text)
    → (is_empty t || is_some (default_codec_id t)) ≡ true
    → (is_empty t || is_some (codec_of mapping t)) ≡ true
unfolding codec_of
codec_of-default none t h = h
codec_of-default (some m) t h = ground (arith, λ (b : Option ℤ). or_id-some b (default_codec_id t))

resolution_of-default :
    (mapping : Option AdapterMapping) (t : Text)
    → (is_empty t || is_some (default_resolution_id t)) ≡ true
    → (is_empty t || is_some (resolution_of mapping t)) ≡ true
unfolding resolution_of
resolution_of-default none t h = h
resolution_of-default (some m) t h =
    ground (arith, λ (b : Option ℤ). or_id-some b (default_resolution_id t))

module _ (is_match : Text → Text → Bool) (title : Text) where
  infer_medium-known :
      (is_empty (infer_medium is_match title)
        || is_some (default_source_id (infer_medium is_match title)))
      ≡ true
  unfolding infer_medium
  infer_medium-known = ground (arith, sources)

  infer_codec-known :
      (is_empty (infer_codec is_match title)
        || is_some (default_codec_id (infer_codec is_match title)))
      ≡ true
  unfolding infer_codec
  infer_codec-known = ground (arith, codecs)

  infer_resolution-known :
      (is_empty (infer_resolution is_match title)
        || is_some (default_resolution_id (infer_resolution is_match title)))
      ≡ true
  unfolding infer_resolution
  infer_resolution-known = ground (arith, resolutions)

when_ok :
    {A B : Type 0} (r : Result A) {a : A} (b : B)
    → r ≡ ok a
    → ◌≡◌ {A = Result B} (elim r [ ok _ ↦ ok b | err e ↦ err e ]) (ok b)
when_ok (ok x) b h = refl
when_ok (err e) b h = cc

find_mapping-first :
    {T : Type 0} (value : Text) (pre : List T) (e : T) (post : List T)
    (fields : T → Text × List Text)
    → All (λ x. names value (fields x) ≡ false) pre
    → names value (fields e) ≡ true
    → find_mapping value (pre ++ e ∷ post) fields ≡ some e
unfolding find_mapping
find_mapping-first value [] e post fields h k = ground arith
find_mapping-first value (x ∷ pre) e post fields h k =
    ground (arith, find_mapping-first value pre e post fields h.1 k)

category_of-first :
    (m : AdapterMapping) (t : Text) (pre : List CategoryMapping) (e : CategoryMapping)
    (post : List CategoryMapping)
    → m.categories ≡ pre ++ e ∷ post
    → All (λ c. names t (c.torrent_type, c.aliases) ≡ false) pre
    → names t (e.torrent_type, e.aliases) ≡ true
    → category_of (some m) t ≡ some e.category_id
unfolding category_of
category_of-first m t pre e post eq h k =
    let found = find_mapping-first t pre e post (λ c. (c.torrent_type, c.aliases)) h k in
    rw (eq, found) refl

module _ (is_match : Text → Text → Bool) (replace_all : Text → Text → Text → Text)
    (find : Text → Text → Option Text) where
  pub adapt-ids :
      (raw : RawTorrentInfo) (site : Text) (mapping : Option AdapterMapping)
      (a : AdaptedTorrentInfo)
      → adapt_torrent_info is_match replace_all find raw site mapping ≡ ok a
      → (a.category_id ≡ category_of mapping raw.torrent_type)
        × (a.source_id
            ≡ source_of mapping
                (if is_empty (trim raw.medium) then infer_medium is_match raw.name else raw.medium))
        × (a.codec_id
            ≡ codec_of mapping (
                if is_empty (trim raw.video_codec)
                then infer_codec is_match raw.name
                else raw.video_codec))
        × (a.resolution_id
            ≡ resolution_of mapping (
                if is_empty (trim raw.resolution)
                then infer_resolution is_match raw.name
                else raw.resolution))
  unfolding adapt_torrent_info
  adapt-ids raw site mapping a e =
      let k =
        unless_err
          (require_mapping (codes "category") raw.torrent_type
            (category_of mapping raw.torrent_type))
          _ a e in
      (
        ap (λ x. x.category_id) (sym k),
        ap (λ x. x.source_id) (sym k),
        ap (λ x. x.codec_id) (sym k),
        ap (λ x. x.resolution_id) (sym k),
      )

  adapt-mapped :
      (raw : RawTorrentInfo) (site : Text) (mapping : Option AdapterMapping) (c : ℤ)
      → category_of mapping raw.torrent_type ≡ some c
      → (a : AdaptedTorrentInfo) × (adapt_torrent_info is_match replace_all find raw site mapping
          ≡ ok a)
  unfolding adapt_torrent_info require_mapping
  adapt-mapped raw site mapping c e =
      let accepted : require_mapping (codes "category") raw.torrent_type
            (category_of mapping raw.torrent_type)
          ≡ ok tt =
        rw e refl in
      (_, when_ok _ _ accepted)

  -- When the page gives no medium, codec or resolution and the adaptation succeeds, each of them that the
  -- title names has a number in the adapted torrent, whatever the target's mapping is.
  pub inferred_ids :
      (raw : RawTorrentInfo) (site : Text) (mapping : Option AdapterMapping)
      (a : AdaptedTorrentInfo)
      → adapt_torrent_info is_match replace_all find raw site mapping ≡ ok a
      → is_empty (trim raw.medium) ≡ true
      → is_empty (trim raw.video_codec) ≡ true
      → is_empty (trim raw.resolution) ≡ true
      → ((is_empty (infer_medium is_match raw.name) || is_some a.source_id) ≡ true)
        × ((is_empty (infer_codec is_match raw.name) || is_some a.codec_id) ≡ true)
        × ((is_empty (infer_resolution is_match raw.name) || is_some a.resolution_id) ≡ true)
  inferred_ids raw site mapping a e m c r =
      let k = adapt-ids raw site mapping a e in
      let hm = source_of-default mapping _ (infer_medium-known is_match raw.name) in
      let hc = codec_of-default mapping _ (infer_codec-known is_match raw.name) in
      let hr = resolution_of-default mapping _ (infer_resolution-known is_match raw.name) in
      (ground arith, ground arith, ground arith)

  -- When an entry of the target's categories is the first to name the torrent's type, by its own name or
  -- an alias and whatever the case of letters, the adaptation succeeds with that entry's number.
  pub first_category :
      (raw : RawTorrentInfo) (site : Text) (m : AdapterMapping) (pre : List CategoryMapping)
      (e : CategoryMapping) (post : List CategoryMapping)
      → m.categories ≡ pre ++ e ∷ post
      → All (λ c. names raw.torrent_type (c.torrent_type, c.aliases) ≡ false) pre
      → names raw.torrent_type (e.torrent_type, e.aliases) ≡ true
      → (a : AdaptedTorrentInfo) × (adapt_torrent_info is_match replace_all find raw site (some m)
          ≡ ok a)
        × (a.category_id ≡ some e.category_id)
  first_category raw site m pre e post eq h k =
      let known = category_of-first m raw.torrent_type pre e post eq h k in
      let ends = adapt-mapped raw site (some m) e.category_id known in
      (ends.0, ends.1, (adapt-ids raw site (some m) ends.0 ends.1).0 ∙ known)
