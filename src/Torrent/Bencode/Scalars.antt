-- ===== src/Torrent/Bencode/Scalars.antt =====
-- crates/core/src/torrent/bencode.rs: reading back an integer, a length and a byte string.
use pt_reseeder.Base.{
  ℕ, suc, ◌+◌, ◌≤◌, ◌<◌, ◌≡◌, refl, ap, true, some, [], ◌∷◌, ◌++◌, append_assoc, arith, length,
  length-append, take-length, drop-length, All,
}
use pt_reseeder.Base.Int.{ℤ, pos, negsuc, IsI64, u64_mod}
use pt_reseeder.Base.Text.{Text, IsAscii, is_utf8, is_utf8-IsAscii}
use pt_reseeder.Base.Decimal.{
  to_decimal, int_to_string, IsDigit, to_decimal-IsDigit, to_decimal_pos, parse_usize-to_decimal,
  parse_i64-int_to_string,
}
use pt_reseeder.Error.{Outcome, returned}
use pt_reseeder.Torrent.Bencode.{
  int, bytes, split_at, encode_bytes, encode_value, decode_int, decode_bytes, read_bytes,
  decode_value,
}

-- The bytes of a number's text stand below `:` and letters.
abbrev IsNumeric : Text → Type 0
IsNumeric = All (λ c. c < 58)

IsNumeric-IsDigit : (s : Text) → All IsDigit s → IsNumeric s
IsNumeric-IsDigit [] h = tt
IsNumeric-IsDigit (c ∷ cs) h = (omega arith, IsNumeric-IsDigit cs h.1)

IsAscii-IsNumeric : (s : Text) → IsNumeric s → IsAscii s
IsAscii-IsNumeric [] h = tt
IsAscii-IsNumeric (c ∷ cs) h = (omega arith, IsAscii-IsNumeric cs h.1)

int_to_string-IsNumeric : (n : ℤ) → IsNumeric (int_to_string n)
unfolding int_to_string
int_to_string-IsNumeric (pos n) = IsNumeric-IsDigit _ (to_decimal-IsDigit n)
int_to_string-IsNumeric (negsuc n) = (omega arith, IsNumeric-IsDigit _ (to_decimal-IsDigit (suc n)))

split_at-append :
    (c : ℕ) (s rest : Text) → 58 ≤ c → IsNumeric s → split_at c (s ++ c ∷ rest) ≡ some (s, rest)
unfolding split_at
split_at-append c [] rest le h = ground arith
split_at-append c (b ∷ s) rest le h = rw (split_at-append c s rest le h.1) (ground arith)

utf8_numeric : (s : Text) → IsNumeric s → is_utf8 s ≡ true
utf8_numeric s h = is_utf8-IsAscii s (IsAscii-IsNumeric s h)

-- A position may be given by any term for the same number.
pub at {ℓ} :
    {A : Type ℓ} (a : A) (rest : Text) {p q : ℕ}
    → p ≡ q
    → ◌≡◌ {A = Outcome (A × ℕ × Text)} (returned (a, p, rest)) (returned (a, q, rest))
at a rest e = ap (λ p. returned (a, p, rest)) e

pub decode_int-encode :
    (p : ℕ) (n : ℤ) (rest : Text)
    → IsI64 n
    → decode_int p (encode_value (int n) ++ rest)
      ≡ returned (int n, p + length (encode_value (int n)), rest)
unfolding decode_int encode_value
decode_int-encode p n rest h =
    rw
      (
        append_assoc (int_to_string n) (b'e' ∷ []) rest,
        split_at-append b'e' (int_to_string n) rest (omega arith) (int_to_string-IsNumeric n),
        utf8_numeric (int_to_string n) (int_to_string-IsNumeric n),
        parse_i64-int_to_string n h,
      )
      (at (int n) rest (omega (arith, length-append (int_to_string n) (b'e' ∷ []))))

read_bytes_lem :
    (start : ℕ) (s rest : Text)
    → start + length s < u64_mod
    → read_bytes start (length s) (s ++ rest) ≡ returned (bytes s, start + length s, rest)
unfolding read_bytes
read_bytes_lem start s rest h =
    rw (take-length s rest, drop-length s rest) (ground (arith, length-append s rest))

pub decode_bytes-to_decimal :
    (p n : ℕ) (rest : Text)
    → n < u64_mod
    → decode_bytes p (to_decimal n ++ b':' ∷ rest)
      ≡ read_bytes (p + length (to_decimal n) + 1) n rest
unfolding decode_bytes
decode_bytes-to_decimal p n rest h =
    let numeric = IsNumeric-IsDigit _ (to_decimal-IsDigit n) in
    rw
      (
        split_at-append b':' (to_decimal n) rest (omega arith) numeric,
        utf8_numeric (to_decimal n) numeric,
        parse_usize-to_decimal n h,
      )
      refl

-- A byte string is read back from any position where its end has an index.
pub decode_bytes-encode_bytes :
    (p : ℕ) (s rest : Text)
    → p + length (encode_bytes s) < u64_mod
    → decode_bytes p (encode_bytes s ++ rest)
      ≡ returned (bytes s, p + length (encode_bytes s), rest)
unfolding encode_bytes
decode_bytes-encode_bytes p s rest h =
    let size = length-append (to_decimal (length s)) (b':' ∷ s) in
    rw
      (
        append_assoc (to_decimal (length s)) (b':' ∷ s) rest,
        decode_bytes-to_decimal p (length s) (s ++ rest) (omega arith),
        read_bytes_lem (p + length (to_decimal (length s)) + 1) s rest (omega arith),
      )
      (at (bytes s) rest (omega arith))

pub decode_value_digits :
    (f p : ℕ) (d rest : Text)
    → All IsDigit d
    → 0 < length d
    → decode_value (suc f) p (d ++ rest) ≡ decode_bytes p (d ++ rest)
unfolding decode_value
decode_value_digits f p [] rest h l = absurd (omega arith)
decode_value_digits f p (c ∷ cs) rest h l = ground arith

pub decode_value-encode_bytes :
    (f p : ℕ) (s rest : Text)
    → decode_value (suc f) p (encode_bytes s ++ rest) ≡ decode_bytes p (encode_bytes s ++ rest)
unfolding encode_bytes
decode_value-encode_bytes f p s rest = rw (append_assoc (to_decimal (length s)) (b':' ∷ s) rest) (
    decode_value_digits f p (to_decimal (length s)) (b':' ∷ s ++ rest)
      (to_decimal-IsDigit (length s)) (to_decimal_pos (length s)))
