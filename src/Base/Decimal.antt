-- ===== src/Base/Decimal.antt =====
-- Rust's `to_string` and `parse` of integers: decimal text with a sign and a range check.
use Prim.Native.Nat.{ℕ, zero, suc, ◌+◌, ◌-◌, ◌*◌, ◌/◌, ◌%◌, ◌≤◌, ◌<◌}
use mathlib.Core.Path.{◌≡◌, refl, ◌∙◌}
use mathlib.Core.Bool.{Bool, true, false, ◌&&◌}
use mathlib.Core.Option.{Option, none, some}
use mathlib.Core.List.{[], ◌∷◌}
use native.Mathlib.Omega.{arith}
use pt_reseeder.Base.Tests.{ltb, leb, ◌==◌, if◌then◌else◌, and_then}
use pt_reseeder.Base.Lists.{length, All}
use pt_reseeder.Base.Int.{ℤ, pos, negsuc, IsI64, u64_mod, i64_bound}
use pt_reseeder.Base.Text.{lower_byte, to_ascii_lowercase, Text}

-- The quotients fall, so `suc n` rounds are enough.
digits : ℕ → ℕ → Text → Text
digits zero n acc = acc
digits (suc f) n acc =
    let more = digits f (n / 10) ((48 + n % 10) ∷ acc) in if ltb n 10 then (48 + n) ∷ acc else more

unfoldable pub to_decimal : ℕ → Text
unfolding digits
to_decimal n = digits (suc n) n []

unfoldable pub int_to_string : ℤ → Text
unfolding to_decimal
int_to_string (pos n) = to_decimal n
int_to_string (negsuc n) = b'-' ∷ to_decimal (suc n)

abbrev pub is_digit : ℕ → Bool
is_digit c = leb 48 c && leb c 57

scan_digits : ℕ → Text → Option ℕ
scan_digits n [] = some n
scan_digits n (c ∷ cs) = elim (is_digit c) [
  | true ↦ scan_digits (10 * n + (c - 48)) cs
  | false ↦ none
]

parse_digits : Text → Option ℕ
unfolding scan_digits
parse_digits [] = none
parse_digits (c ∷ cs) = scan_digits 0 (c ∷ cs)

abbrev strip_plus : Text → Text
strip_plus [] = []
strip_plus (c ∷ cs) = if c == b'+' then cs else c ∷ cs

-- `s.parse::<usize>().ok()`, on a 64-bit machine; `parse::<u64>` is the same.
unfoldable pub parse_usize : Text → Option ℕ
unfolding parse_digits
parse_usize s = and_then (parse_digits (strip_plus s)) (λ n. if ltb n u64_mod then some n else none)

positive : ℕ → Option ℤ
positive n = if ltb n i64_bound then some (pos n) else none

negative : ℕ → Option ℤ
negative n =
    if n == 0 then some (pos 0) else if leb n i64_bound then some (negsuc (n - 1)) else none

-- `s.parse::<i64>().ok()`.
unfoldable pub parse_i64 : Text → Option ℤ
unfolding parse_digits positive negative
parse_i64 [] = none
parse_i64 (c ∷ cs) =
    if c == b'-'
    then and_then (parse_digits cs) negative
    else and_then (parse_digits (strip_plus (c ∷ cs))) positive

abbrev pub IsDigit : ℕ → Type 0
IsDigit c = (48 ≤ c) × (c ≤ 57)

digits-IsDigit : (f n : ℕ) (acc : Text) → All IsDigit acc → All IsDigit (digits f n acc)
unfolding digits
digits-IsDigit zero n acc h = h
digits-IsDigit (suc f) n acc h = ground (
  arith,
  λ (k : (48 ≤ 48 + n % 10) × (48 + n % 10 ≤ 57)).
      digits-IsDigit f (n / 10) ((48 + n % 10) ∷ acc) (k, h),
)

pub to_decimal-IsDigit : (n : ℕ) → All IsDigit (to_decimal n)
unfolding to_decimal
to_decimal-IsDigit n = digits-IsDigit (suc n) n [] tt

length-digits-le : (f n : ℕ) (acc : Text) → length acc ≤ length (digits f n acc)
unfolding digits
length-digits-le zero n acc = omega arith
length-digits-le (suc f) n acc = ground (arith, length-digits-le f (n / 10) ((48 + n % 10) ∷ acc))

length-digits_pos : (f n : ℕ) (acc : Text) → length acc < length (digits (suc f) n acc)
unfolding digits
length-digits_pos f n acc = ground (arith, length-digits-le f (n / 10) ((48 + n % 10) ∷ acc))

pub to_decimal_pos : (n : ℕ) → 0 < length (to_decimal n)
unfolding to_decimal
to_decimal_pos n = length-digits_pos n n []

scan_digits-digits :
    (f n : ℕ) (acc : Text) → n < f → scan_digits 0 (digits f n acc) ≡ scan_digits n acc
unfolding digits scan_digits
scan_digits-digits zero n acc h = absurd (omega arith)
scan_digits-digits (suc f) n acc h =
    ground (arith, scan_digits-digits f (n / 10) ((48 + n % 10) ∷ acc))

parse_digits-eq : (s : Text) → 0 < length s → parse_digits s ≡ scan_digits 0 s
unfolding parse_digits
parse_digits-eq [] h = absurd (omega arith)
parse_digits-eq (c ∷ cs) h = refl

parse_digits-to_decimal : (n : ℕ) → parse_digits (to_decimal n) ≡ some n
parse_digits-to_decimal n =
    parse_digits-eq (to_decimal n) (to_decimal_pos n)
    ∙ (unfold to_decimal scan_digits in scan_digits-digits (suc n) n [] (omega arith))

strip_plus-IsDigit : (s : Text) → All IsDigit s → strip_plus s ≡ s
strip_plus-IsDigit [] h = refl
strip_plus-IsDigit (c ∷ cs) h = ground arith

-- Printing a number below 2^64 and parsing it gives the number.
pub parse_usize-to_decimal : (n : ℕ) → n < u64_mod → parse_usize (to_decimal n) ≡ some n
unfolding parse_usize
parse_usize-to_decimal n h =
    rw (strip_plus-IsDigit (to_decimal n) (to_decimal-IsDigit n), parse_digits-to_decimal n)
      (ground arith)

parse_i64_digits :
    (s : Text) → 0 < length s → All IsDigit s → parse_i64 s ≡ and_then (parse_digits s) positive
unfolding parse_i64
parse_i64_digits [] h d = absurd (omega arith)
parse_i64_digits (c ∷ cs) h d = ground arith

-- The same for an `i64`, its sign included.
pub parse_i64-int_to_string : (i : ℤ) → IsI64 i → parse_i64 (int_to_string i) ≡ some i
unfolding int_to_string parse_i64
parse_i64-int_to_string (pos n) h =
    rw
      (
        parse_i64_digits (to_decimal n) (to_decimal_pos n) (to_decimal-IsDigit n),
        parse_digits-to_decimal n,
      )
      (ground arith)
parse_i64-int_to_string (negsuc n) h = rw (parse_digits-to_decimal (suc n)) (ground arith)

-- What parses as an `i64` is in its range.
pub parse_i64-IsI64 : (s : Text) (i : ℤ) → parse_i64 s ≡ some i → IsI64 i
unfolding parse_i64
parse_i64-IsI64 [] i e = cc
parse_i64-IsI64 (c ∷ cs) (pos n) e = ground arith
parse_i64-IsI64 (c ∷ cs) (negsuc n) e = ground arith

scan_digits-lower : (n : ℕ) (s : Text) → scan_digits n (to_ascii_lowercase s) ≡ scan_digits n s
unfolding scan_digits lower_byte
scan_digits-lower n [] = refl
scan_digits-lower n (c ∷ cs) = ground (arith, scan_digits-lower (10 * n + (c - 48)) cs)

parse_digits-lower : (s : Text) → parse_digits (to_ascii_lowercase s) ≡ parse_digits s
unfolding parse_digits
parse_digits-lower [] = refl
parse_digits-lower (c ∷ cs) = scan_digits-lower 0 (c ∷ cs)

pub parse_i64-lower : (s : Text) → parse_i64 (to_ascii_lowercase s) ≡ parse_i64 s
unfolding parse_i64 lower_byte
parse_i64-lower [] = refl
parse_i64-lower (c ∷ cs) = ground (arith, parse_digits-lower cs, parse_digits-lower (c ∷ cs))
