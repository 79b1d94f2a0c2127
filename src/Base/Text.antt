-- ===== src/Base/Text.antt =====
-- Rust's `&[u8]`, `String` and `&str`: lists of bytes.
use Prim.Native.Char.{code}
use Prim.Native.String.{String}
use Prim.Native.Nat.{ℕ, ◌+◌, ◌-◌, ◌<◌}
use mathlib.Core.Path.{◌≡◌, refl}
use mathlib.Core.Logic.{◌↔◌}
use mathlib.Core.Bool.{Bool, true, false, ◌&&◌, ◌||◌}
use mathlib.Core.Option.{Option, none, some}
use mathlib.Core.List.{List, [], ◌∷◌, ◌++◌, map}
use native.Mathlib.Omega.{arith}
use pt_reseeder.Base.Tests.{ltb, leb, ◌==◌, if◌then◌else◌, ==_iff}
use pt_reseeder.Base.Lists.{All}

abbrev pub Text : Type 0
Text = List ℕ

-- A literal's bytes; the program's literals are ASCII where this is used.
abbrev pub codes : String → Text
codes String.[] = []
codes (String.◌∷◌ c s) = code c ∷ codes s

unfoldable pub text_eq : Text → Text → Bool
text_eq [] [] = true
text_eq (x ∷ xs) (y ∷ ys) = x == y && text_eq xs ys
text_eq _ _ = false

pub text_eq_iff : (s t : Text) → (text_eq s t ≡ true) ↔ (s ≡ t)
unfolding text_eq
text_eq_iff [] [] = ((λ _. refl), (λ _. refl))
text_eq_iff [] (y ∷ ys) = ((λ h. cc), (λ h. cc))
text_eq_iff (x ∷ xs) [] = ((λ h. cc), (λ h. cc))
text_eq_iff (x ∷ xs) (y ∷ ys) = (
  (λ h. ground (arith, (text_eq_iff xs ys).0)),
  (λ h. ground (arith, ==_iff x y, (text_eq_iff xs ys).1 (cc))),
)

pub text_eq_refl : (s : Text) → text_eq s s ≡ true
text_eq_refl s = (text_eq_iff s s).1 refl

unfoldable pub contains_text : List Text → Text → Bool
contains_text [] t = false
contains_text (s ∷ ss) t = text_eq t s || contains_text ss t

-- Where a UTF-8 decoder stands: at a character's start, within one, or past an error.
pub data Utf8 : Type 0 where
  start : Utf8
  within : ℕ → ℕ → ℕ → Utf8
  bad : Utf8

abbrev between : ℕ → ℕ → ℕ → Bool
between lo hi c = leb lo c && leb c hi

-- `within n lo hi`: n more continuation bytes, the next between `lo` and `hi`.
lead_byte : ℕ → Utf8
lead_byte c =
    if ltb c 0x80
    then start
    else if between 0xC2 0xDF c
    then within 1 0x80 0xBF
    else if c == 0xE0
    then within 2 0xA0 0xBF
    else if c == 0xED
    then within 2 0x80 0x9F
    else if between 0xE1 0xEF c
    then within 2 0x80 0xBF
    else if c == 0xF0
    then within 3 0x90 0xBF
    else if between 0xF1 0xF3 c
    then within 3 0x80 0xBF
    else if c == 0xF4
    then within 3 0x80 0x8F
    else bad

utf8_step : Utf8 → ℕ → Utf8
unfolding lead_byte
utf8_step start c = lead_byte c
utf8_step (within n lo hi) c =
    if between lo hi c then (if leb n 1 then start else within (n - 1) 0x80 0xBF) else bad
utf8_step bad c = bad

utf8_run : Utf8 → Text → Bool
unfolding utf8_step
utf8_run start [] = true
utf8_run (within n lo hi) [] = false
utf8_run bad [] = false
utf8_run s (c ∷ cs) = utf8_run (utf8_step s c) cs

-- `std::str::from_utf8(v).is_ok()`.
unfoldable pub is_utf8 : Text → Bool
unfolding utf8_run
is_utf8 s = utf8_run start s

abbrev pub IsAscii : Text → Type 0
IsAscii = All (λ c. c < 0x80)

pub is_utf8-IsAscii : (s : Text) → IsAscii s → is_utf8 s ≡ true
unfolding is_utf8
is_utf8-IsAscii [] h = refl
is_utf8-IsAscii (c ∷ cs) h = ground (arith, is_utf8-IsAscii cs h.1)

-- `str::to_ascii_lowercase`.
unfoldable pub lower_byte : ℕ → ℕ
lower_byte c = if between b'A' b'Z' c then c + 32 else c

abbrev pub to_ascii_lowercase : Text → Text
to_ascii_lowercase = map lower_byte

unfoldable pub strip_prefix : Text → Text → Option Text
strip_prefix [] s = some s
strip_prefix (p ∷ ps) [] = none
strip_prefix (p ∷ ps) (c ∷ cs) = if p == c then strip_prefix ps cs else none

-- What follows the first occurrence of a marker: the second part of `str::split_once`.
unfoldable pub after_first : Text → Text → Option Text
unfolding strip_prefix
after_first marker [] = strip_prefix marker []
after_first marker (c ∷ cs) = elim (strip_prefix marker (c ∷ cs)) [
  | some rest ↦ some rest
  | none ↦ after_first marker cs
]

-- `str::contains`.
unfoldable pub contains : Text → Text → Bool
unfolding after_first
contains s marker = elim (after_first marker s) [ none ↦ false | some rest ↦ true ]

pub strip_prefix-append : (p s : Text) → strip_prefix p (p ++ s) ≡ some s
unfolding strip_prefix
strip_prefix-append [] s = refl
strip_prefix-append (x ∷ xs) s = ground (arith, strip_prefix-append xs s)
