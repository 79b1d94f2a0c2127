-- ===== src/Repost/Replace.antt =====
-- Rust's `str::trim` and `str::replace` on UTF-8 bytes, and literals that are not ASCII.
use Prim.Native.Char.{code}
use Prim.Native.String.{String}
use pt_reseeder.Base.{
  ℕ, ◌+◌, ◌-◌, ◌/◌, ◌%◌, suc, zero, none, some, List, [], ◌∷◌, ◌++◌, if◌then◌else◌, ltb, length,
  is_some, map,
}
use pt_reseeder.Base.Text.{Text, strip_prefix}
use mathlib.Core.List.{reverse}

-- The encodings of the characters that Unicode calls white space.
abbrev spaces : List Text
spaces =
    (9 ∷ [])
    ∷ (10 ∷ [])
    ∷ (11 ∷ [])
    ∷ (12 ∷ [])
    ∷ (13 ∷ [])
    ∷ (32 ∷ [])
    ∷ (0xC2 ∷ 0x85 ∷ [])
    ∷ (0xC2 ∷ 0xA0 ∷ [])
    ∷ (0xE1 ∷ 0x9A ∷ 0x80 ∷ [])
    ∷ (0xE2 ∷ 0x80 ∷ 0x80 ∷ [])
    ∷ (0xE2 ∷ 0x80 ∷ 0x81 ∷ [])
    ∷ (0xE2 ∷ 0x80 ∷ 0x82 ∷ [])
    ∷ (0xE2 ∷ 0x80 ∷ 0x83 ∷ [])
    ∷ (0xE2 ∷ 0x80 ∷ 0x84 ∷ [])
    ∷ (0xE2 ∷ 0x80 ∷ 0x85 ∷ [])
    ∷ (0xE2 ∷ 0x80 ∷ 0x86 ∷ [])
    ∷ (0xE2 ∷ 0x80 ∷ 0x87 ∷ [])
    ∷ (0xE2 ∷ 0x80 ∷ 0x88 ∷ [])
    ∷ (0xE2 ∷ 0x80 ∷ 0x89 ∷ [])
    ∷ (0xE2 ∷ 0x80 ∷ 0x8A ∷ [])
    ∷ (0xE2 ∷ 0x80 ∷ 0xA8 ∷ [])
    ∷ (0xE2 ∷ 0x80 ∷ 0xA9 ∷ [])
    ∷ (0xE2 ∷ 0x80 ∷ 0xAF ∷ [])
    ∷ (0xE2 ∷ 0x81 ∷ 0x9F ∷ [])
    ∷ (0xE3 ∷ 0x80 ∷ 0x80 ∷ [])
    ∷ []

-- The length of the first of the texts that the text begins with, 0 if none.
unfoldable prefix_width : List Text → Text → ℕ
prefix_width [] t = 0
prefix_width (p ∷ ps) t =
    let rest = prefix_width ps t in if is_some (strip_prefix p t) then length p else rest

-- Drop n bytes, then every text of the list that comes next.
unfoldable drop_all : List Text → ℕ → Text → Text
unfolding prefix_width strip_prefix
drop_all ps n [] = []
drop_all ps (suc n) (c ∷ cs) = drop_all ps n cs
drop_all ps zero (c ∷ cs) = elim (prefix_width ps (c ∷ cs)) [
  | zero ↦ c ∷ cs
  | suc n ↦ drop_all ps n cs
]

unfoldable pub trim : Text → Text
unfolding drop_all
trim t = reverse (drop_all (map reverse spaces) 0 (reverse (drop_all spaces 0 t)))

-- Drop n bytes, then put `to` for each `from`, the leftmost first; `from` is not empty.
unfoldable replace_at : Text → Text → ℕ → Text → Text
unfolding strip_prefix
replace_at from to n [] = []
replace_at from to (suc n) (c ∷ cs) = replace_at from to n cs
replace_at from to zero (c ∷ cs) = elim (strip_prefix from (c ∷ cs)) [
  | none ↦ c ∷ replace_at from to 0 cs
  | some _ ↦ to ++ replace_at from to (length from - 1) cs
]

unfoldable pub replace : Text → Text → Text → Text
unfolding replace_at
replace from to t = replace_at from to 0 t

-- The UTF-8 bytes of a character below U+10000.
abbrev utf8_bytes : ℕ → Text
utf8_bytes c =
    if ltb c 0x80
    then c ∷ []
    else if ltb c 0x800
    then (0xC0 + c / 64) ∷ (0x80 + c % 64) ∷ []
    else (0xE0 + c / 4096) ∷ (0x80 + c / 64 % 64) ∷ (0x80 + c % 64) ∷ []

abbrev pub utf8 : String → Text
utf8 String.[] = []
utf8 (String.◌∷◌ c s) = utf8_bytes (code c) ++ utf8 s
