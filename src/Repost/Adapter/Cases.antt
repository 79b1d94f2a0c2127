-- ===== src/Repost/Adapter/Cases.antt =====
-- crates/core/src/repost/adapter.rs: the lookups and the case of letters.
use pt_reseeder.Base.{ℕ, ◌≡◌, refl, Option, none, some, List, [], ◌∷◌, any, arith}
use pt_reseeder.Base.Text.{Text, lower_byte, to_ascii_lowercase}
use pt_reseeder.Base.Decimal.{parse_i64-lower}
use pt_reseeder.Repost.Mapping.{
  AdapterMapping, eq_ignore_ascii_case, names, find_mapping, default_category_id, default_source_id,
  default_codec_id, default_resolution_id,
}
use pt_reseeder.Repost.Adapter.{category_of, source_of, codec_of, resolution_of}

lower_byte-lower_byte : (c : ℕ) → lower_byte (lower_byte c) ≡ lower_byte c
unfolding lower_byte
lower_byte-lower_byte c = ground arith

lower-lower : (t : Text) → to_ascii_lowercase (to_ascii_lowercase t) ≡ to_ascii_lowercase t
lower-lower [] = refl
lower-lower (c ∷ cs) = ground (arith, lower-lower cs, lower_byte-lower_byte c)

eq_ignore_ascii_case-lower :
    (s t : Text) → eq_ignore_ascii_case s (to_ascii_lowercase t) ≡ eq_ignore_ascii_case s t
unfolding eq_ignore_ascii_case
eq_ignore_ascii_case-lower s t = rw (lower-lower t) refl

any-lower :
    (t : Text) (ss : List Text)
    → any (λ s. eq_ignore_ascii_case s (to_ascii_lowercase t)) ss
      ≡ any (λ s. eq_ignore_ascii_case s t) ss
any-lower t [] = refl
any-lower t (s ∷ ss) = ground (arith, any-lower t ss, eq_ignore_ascii_case-lower s t)

names-lower : (t : Text) (f : Text × List Text) → names (to_ascii_lowercase t) f ≡ names t f
unfolding names
names-lower t (p, ss) = ground (arith, any-lower t ss, eq_ignore_ascii_case-lower p t)

find_mapping-lower :
    {T : Type 0} (t : Text) (es : List T) (fields : T → Text × List Text)
    → find_mapping (to_ascii_lowercase t) es fields ≡ find_mapping t es fields
unfolding find_mapping
find_mapping-lower t [] fields = refl
find_mapping-lower t (e ∷ es) fields =
    ground (arith, find_mapping-lower t es fields, names-lower t (fields e))

default_category_id-lower :
    (t : Text) → default_category_id (to_ascii_lowercase t) ≡ default_category_id t
unfolding default_category_id
default_category_id-lower t = rw (lower-lower t, parse_i64-lower t) refl

default_source_id-lower :
    (t : Text) → default_source_id (to_ascii_lowercase t) ≡ default_source_id t
unfolding default_source_id
default_source_id-lower t = rw (lower-lower t, parse_i64-lower t) refl

default_codec_id-lower : (t : Text) → default_codec_id (to_ascii_lowercase t) ≡ default_codec_id t
unfolding default_codec_id
default_codec_id-lower t = rw (lower-lower t, parse_i64-lower t) refl

default_resolution_id-lower :
    (t : Text) → default_resolution_id (to_ascii_lowercase t) ≡ default_resolution_id t
unfolding default_resolution_id
default_resolution_id-lower t = rw (lower-lower t, parse_i64-lower t) refl

category_of-lower :
    (mapping : Option AdapterMapping) (t : Text)
    → category_of mapping (to_ascii_lowercase t) ≡ category_of mapping t
unfolding category_of
category_of-lower none t = default_category_id-lower t
category_of-lower (some m) t =
    rw
      (
        find_mapping-lower t m.categories (λ c. (c.torrent_type, c.aliases)),
        default_category_id-lower t,
      )
      refl

source_of-lower :
    (mapping : Option AdapterMapping) (t : Text)
    → source_of mapping (to_ascii_lowercase t) ≡ source_of mapping t
unfolding source_of
source_of-lower none t = default_source_id-lower t
source_of-lower (some m) t =
    rw (find_mapping-lower t m.sources (λ s. (s.medium, s.aliases)), default_source_id-lower t) refl

codec_of-lower :
    (mapping : Option AdapterMapping) (t : Text)
    → codec_of mapping (to_ascii_lowercase t) ≡ codec_of mapping t
unfolding codec_of
codec_of-lower none t = default_codec_id-lower t
codec_of-lower (some m) t =
    rw (find_mapping-lower t m.codecs (λ c. (c.codec, c.aliases)), default_codec_id-lower t) refl

resolution_of-lower :
    (mapping : Option AdapterMapping) (t : Text)
    → resolution_of mapping (to_ascii_lowercase t) ≡ resolution_of mapping t
unfolding resolution_of
resolution_of-lower none t = default_resolution_id-lower t
resolution_of-lower (some m) t =
    rw
      (
        find_mapping-lower t m.resolutions (λ r. (r.resolution, r.aliases)),
        default_resolution_id-lower t,
      )
      refl

-- The case of ASCII letters in a torrent's type, medium, codec and resolution changes none of the four
-- numbers, whether they come from the target's mapping or from the default tables.
pub lookups-lower :
    (mapping : Option AdapterMapping) (t : Text)
    → (category_of mapping (to_ascii_lowercase t) ≡ category_of mapping t)
      × (source_of mapping (to_ascii_lowercase t) ≡ source_of mapping t)
      × (codec_of mapping (to_ascii_lowercase t) ≡ codec_of mapping t)
      × (resolution_of mapping (to_ascii_lowercase t) ≡ resolution_of mapping t)
lookups-lower mapping t = (
  category_of-lower mapping t,
  source_of-lower mapping t,
  codec_of-lower mapping t,
  resolution_of-lower mapping t,
)
