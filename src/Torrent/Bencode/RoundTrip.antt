-- ===== src/Torrent/Bencode/RoundTrip.antt =====
-- What `encode` prints, `decode` reads back.
use pt_reseeder.Base.{
  ℕ, zero, suc, ◌+◌, ◌*◌, ◌<◌, ◌≡◌, refl, ◌∙◌, false, [], ◌∷◌, ◌++◌, append_assoc, arith, length,
  length-append, All, ◌==◌,
}
use pt_reseeder.Base.Int.{ℤ, IsI64, u64_mod}
use pt_reseeder.Base.Text.{Text}
use pt_reseeder.Base.Decimal.{to_decimal, IsDigit, to_decimal-IsDigit, to_decimal_pos}
use pt_reseeder.Error.{Outcome, returned}
use pt_reseeder.Error.Results.{◌>>=◌}
use pt_reseeder.Torrent.Bencode.{
  BencodeValue, int, bytes, list, dict, Items, no_items, item, Fields, no_fields, field, insert,
  encode_bytes, encode_value, encode_items, encode_fields, encode, decode_bytes, key_of,
  decode_value, decode_list, decode_dict, decode,
}
use pt_reseeder.Torrent.Bencode.Order.{IsSorted, insert_all, insert_all-IsSorted}
use pt_reseeder.Torrent.Bencode.Scalars.{
  at, decode_int-encode, decode_bytes-encode_bytes, decode_value-encode_bytes,
}

-- Integers fit an `i64`, and the keys of every dict are in order: what the Rust types hold.
mutual
  pub data IsValid : BencodeValue → Type 0 where
    valid_int : {n : ℤ} → IsI64 n → IsValid (int n)
    valid_bytes : {s : Text} → IsValid (bytes s)
    valid_list : {xs : Items} → AreValid xs → IsValid (list xs)
    valid_dict : {fs : Fields} → HaveValid fs → IsSorted fs → IsValid (dict fs)

  pub data AreValid : Items → Type 0 where
    valid_none : AreValid no_items
    valid_item : {v : BencodeValue} {xs : Items} → IsValid v → AreValid xs → AreValid (item v xs)

  pub data HaveValid : Fields → Type 0 where
    valid_end : HaveValid no_fields
    valid_field :
        {k : Text} {v : BencodeValue} {fs : Fields}
        → IsValid v
        → HaveValid fs
        → HaveValid (field k v fs)

-- Input that goes on: it is not at an end, nor at the byte that closes a list or a dict.
abbrev GoesOn : Text → Type 0
GoesOn [] = ⊥
GoesOn (c ∷ cs) = (c == b'e') ≡ false

GoesOn-digits : (d rest : Text) → All IsDigit d → 0 < length d → GoesOn (d ++ rest)
GoesOn-digits [] rest h l = absurd (omega arith)
GoesOn-digits (c ∷ cs) rest h l = ground arith

GoesOn-encode_bytes : (s rest : Text) → GoesOn (encode_bytes s ++ rest)
unfolding encode_bytes
GoesOn-encode_bytes s rest = rw (append_assoc (to_decimal (length s)) (b':' ∷ s) rest) (
    GoesOn-digits (to_decimal (length s)) (b':' ∷ s ++ rest) (to_decimal-IsDigit (length s))
      (to_decimal_pos (length s)))

GoesOn-encode_value : (v : BencodeValue) (rest : Text) → GoesOn (encode_value v ++ rest)
unfolding encode_value
GoesOn-encode_value (int n) rest = refl
GoesOn-encode_value (bytes s) rest = GoesOn-encode_bytes s rest
GoesOn-encode_value (list xs) rest = refl
GoesOn-encode_value (dict fs) rest = refl

decode_list_step :
    (f cur : ℕ) (ts : Text)
    → GoesOn ts
    → decode_list (suc f) cur ts ≡ (
        decode_value f cur ts >>= λ (v, next, rest).
        decode_list f next rest >>= λ (xs, end, rest'). returned (item v xs, end, rest'))
unfolding decode_list
decode_list_step f cur [] h = absurd h
decode_list_step f cur (c ∷ cs) h = rw h

decode_dict_step :
    (f : ℕ) (m : Fields) (cur : ℕ) (ts : Text)
    → GoesOn ts
    → decode_dict (suc f) m cur ts ≡ (
        decode_bytes cur ts >>= λ (key_val, next, rest). key_of key_val >>= λ key.
        decode_value f next rest >>= λ (v, next', rest').
        decode_dict f (insert key v m) next' rest')
unfolding decode_dict
decode_dict_step f m cur [] h = absurd h
decode_dict_step f m cur (c ∷ cs) h = rw h

length-encode_bytes_pos : (s : Text) → 0 < length (encode_bytes s)
unfolding encode_bytes
length-encode_bytes_pos s =
    omega (arith, length-append (to_decimal (length s)) (b':' ∷ s), to_decimal_pos (length s))

pub length-encode_value_pos : (v : BencodeValue) → 0 < length (encode_value v)
unfolding encode_value
length-encode_value_pos (bytes s) = length-encode_bytes_pos s
length-encode_value_pos _ = omega arith

abbrev Reads {ℓ} : {A : Type ℓ} → (ℕ → Text → Outcome (A × ℕ × Text)) → Text → A → Type ℓ
Reads read printed a =
    (p : ℕ) (rest : Text)
    → p + length printed < u64_mod
    → read p (printed ++ rest) ≡ returned (a, p + length printed, rest)

mutual
  unfolding encode_value decode_value insert_all key_of

  decode_value-Reads :
      {v : BencodeValue}
      → IsValid v
      → (f : ℕ) → 2 * length (encode_value v) < f
      → Reads (decode_value f) (encode_value v) v
  decode_value-Reads valid zero h p rest l = absurd (omega arith)
  decode_value-Reads (valid_int {n} r) (suc f) h p rest l = decode_int-encode p n rest r
  decode_value-Reads (valid_bytes {s}) (suc f) h p rest l =
      decode_value-encode_bytes f p s rest ∙ decode_bytes-encode_bytes p s rest l
  decode_value-Reads (valid_list {xs} r) (suc f) h p rest l =
      rw (decode_list-Reads r f (omega arith) (p + 1) rest (omega arith))
        (at (list xs) rest (omega arith))
  decode_value-Reads (valid_dict {fs} r s) (suc f) h p rest l =
      rw
        (
          decode_dict-Reads r f (omega arith) no_fields (p + 1) rest (omega arith),
          insert_all-IsSorted fs s,
        )
        (at (dict fs) rest (omega arith))

  decode_list-Reads :
      {xs : Items}
      → AreValid xs
      → (f : ℕ) → 2 * length (encode_items xs) + 1 < f
      → Reads (decode_list f) (encode_items xs) xs
  decode_list-Reads valid zero h p rest l = absurd (omega arith)
  decode_list-Reads valid_none (suc f) h p rest l = refl
  decode_list-Reads (valid_item {v} {xs} r rs) (suc f) h p rest l =
      let size = length-append (encode_value v) (encode_items xs) in
      let pos = length-encode_value_pos v in
      rw
        (
          append_assoc (encode_value v) (encode_items xs) rest,
          decode_list_step f p _ (GoesOn-encode_value v (encode_items xs ++ rest)),
          decode_value-Reads r f (omega arith) p (encode_items xs ++ rest) (omega arith),
          decode_list-Reads rs f (omega arith) (p + length (encode_value v)) rest (omega arith),
        )
        (at (item v xs) rest (omega arith))

  decode_dict-Reads :
      {fs : Fields}
      → HaveValid fs
      → (f : ℕ) → 2 * length (encode_fields fs) + 1 < f
      → (m : Fields) → Reads (decode_dict f m) (encode_fields fs) (insert_all m fs)
  decode_dict-Reads valid zero h m p rest l = absurd (omega arith)
  decode_dict-Reads valid_end (suc f) h m p rest l = refl
  decode_dict-Reads (valid_field {k} {v} {fs} r rs) (suc f) h m p rest l =
      let size = length-append (encode_bytes k) (encode_value v ++ encode_fields fs) in
      let size' = length-append (encode_value v) (encode_fields fs) in
      let pos = length-encode_bytes_pos k in
      let pos' = length-encode_value_pos v in
      rw
        (
          append_assoc (encode_bytes k) (encode_value v ++ encode_fields fs) rest,
          append_assoc (encode_value v) (encode_fields fs) rest,
          decode_dict_step f m p _
              (GoesOn-encode_bytes k (encode_value v ++ (encode_fields fs ++ rest))),
          decode_bytes-encode_bytes p k (encode_value v ++ (encode_fields fs ++ rest))
              (omega arith),
          decode_value-Reads r f (omega arith) (p + length (encode_bytes k))
              (encode_fields fs ++ rest) (omega arith),
          decode_dict-Reads rs f (omega arith) (insert k v m)
              (p + length (encode_bytes k) + length (encode_value v)) rest (omega arith),
        )
        (at (insert_all (insert k v m) fs) rest (omega arith))

-- Reading a printed value gives the value back, whatever bytes follow it, if the value is one that
-- the Rust types hold and the text is shorter than 2^64 bytes.
pub decode-encode :
    (v : BencodeValue) (rest : Text)
    → IsValid v
    → length (encode v) < u64_mod
    → decode (encode v ++ rest) ≡ returned v
unfolding decode encode
decode-encode v rest valid h = rw (
    decode_value-Reads valid (2 * length (encode_value v ++ rest) + 1)
      (omega (arith, length-append (encode_value v) rest)) 0 rest (omega arith))
