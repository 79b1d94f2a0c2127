-- ===== src/Torrent/Bencode/Ends.antt =====
-- Decoding ends on every input, stays within it, and gives values that the Rust types hold.
use pt_reseeder.Base.{
  ℕ, zero, suc, ◌+◌, ◌*◌, ◌≤◌, ◌<◌, ◌≡◌, refl, Bool, true, false, some, [], ◌∷◌, ◌++◌, ◌==◌, ◌&&◌,
  leb, ltb, Option-cases, Bool-cases, inl, inr, arith, length, length-drop, drop, take,
}
use pt_reseeder.Base.Int.{u64_mod}
use pt_reseeder.Base.Text.{Text, text_eq, is_utf8}
use pt_reseeder.Base.Decimal.{parse_usize, parse_i64, parse_i64-IsI64}
use pt_reseeder.Error.{Outcome, returned}
use pt_reseeder.Error.Ends.{
  Ends, returns, fails, panics, Ends-returned, Ends-if, Ends-or_fail, Ends-bind, Ends-weaken,
}
use pt_reseeder.Torrent.Bencode.{
  BencodeValue, bytes, list, dict, no_items, item, Fields, no_fields, check, split_at, key_lt,
  insert, encode, decode_int, decode_bytes, read_bytes, key_of, decode_value, decode_list,
  decode_dict, decode,
}
use pt_reseeder.Torrent.Bencode.Order.{IsSorted, insert-IsSorted}
use pt_reseeder.Torrent.Bencode.RoundTrip.{
  IsValid, valid_int, valid_bytes, valid_list, valid_dict, AreValid, valid_none, valid_item,
  HaveValid, valid_end, valid_field, decode-encode,
}

-- From index `p` at `input`, reading moves to a later index with the bytes that stand there.
abbrev pub Advances : ℕ → Text → ℕ → Text → Type 0
Advances p input q rest = (q + length rest ≡ p + length input) × (length rest < length input)

abbrev Gives {ℓ} : {A : Type ℓ} → (A → Type 0) → ℕ → Text → Outcome (A × ℕ × Text) → Type ℓ
Gives P p input = Ends (λ (a, q, rest). P a × Advances p input q rest)

length-split_at :
    (c : ℕ) (s pre post : Text)
    → split_at c s ≡ some (pre, post)
    → length pre + length post + 1 ≡ length s
unfolding split_at
length-split_at c [] pre post e = cc
length-split_at c (b ∷ bs) pre post e = elim (Option-cases (split_at c bs)) [
  | inl n ↦ ground arith
  | inr ((pre', post'), y) ↦ ground (arith, length-split_at c bs pre' post' y)
]

check-Ends : (b : Bool) (message : Text) → Ends (λ _. Unit {0}) (check b message)
check-Ends true message = returns tt
check-Ends false message = fails

decode_int-Gives : (p c : ℕ) (cs : Text) → Gives IsValid p (c ∷ cs) (decode_int p (c ∷ cs))
unfolding decode_int
decode_int-Gives p c cs =
    Ends-bind (Ends-or_fail (split_at b'e' cs) _ (λ _ e. e)) λ (num_str, after) e.
      Ends-bind (check-Ends (is_utf8 num_str) _) λ _ _.
        Ends-bind (Ends-or_fail (parse_i64 num_str) _ (parse_i64-IsI64 num_str)) λ n r.
          let size = length-split_at b'e' cs num_str after e in
          returns (valid_int r, (omega arith, omega arith))

abbrev IsBytes : BencodeValue → Type 0
IsBytes v = (k : Text) × (v ≡ bytes k)

read_bytes-Ends :
    (start len : ℕ) (after : Text)
    → Ends
        (λ (v, q, rest).
          IsBytes v × (q + length rest ≡ start + length after) × (length rest ≤ length after))
        (read_bytes start len after)
unfolding read_bytes
read_bytes-Ends start len after =
    let size = length-drop len after in
    Ends-if (leb u64_mod (start + len)) (λ _. panics)
      λ _.
        Ends-if (ltb (start + length after) (start + len)) (λ _. fails)
          λ fits.
            returns {a = (bytes (take len after), start + len, drop len after)}
              ((take len after, refl), ground arith, omega arith)

decode_bytes-Gives : (p : ℕ) (input : Text) → Gives IsBytes p input (decode_bytes p input)
unfolding decode_bytes
decode_bytes-Gives p input =
    Ends-bind (Ends-or_fail (split_at b':' input) _ (λ _ e. e)) λ (len_str, after) e.
      Ends-bind (check-Ends (is_utf8 len_str) _) λ _ _.
        Ends-bind (Ends-or_fail {P = λ _. Unit {0}} (parse_usize len_str) _ (λ _ _. tt)) λ len _.
          let size = length-split_at b':' input len_str after e in
          Ends-weaken (read_bytes-Ends (p + length len_str + 1) len after)
            λ (v, q, rest) (b, e', l). returns {a = (v, q, rest)} (b, (omega arith, omega arith))

insert-HaveValid :
    (k : Text) {v : BencodeValue} {fs : Fields}
    → IsValid v
    → HaveValid fs
    → HaveValid (insert k v fs)
unfolding insert
insert-HaveValid k r valid_end = valid_field r valid_end
insert-HaveValid k r (valid_field {k = j} {fs = gs} s rs) =
    let later = insert-HaveValid k r rs in
    elim (Bool-cases (text_eq k j)) [
      | inl same ↦ rw same (valid_field r rs)
      | inr other ↦ rw other (elim (Bool-cases (key_lt k j)) [
        | inl below ↦ rw below (valid_field r (valid_field s rs))
        | inr above ↦ rw above (valid_field s later)
      ])
    ]

abbrev ValidMap : Fields → Type 0
ValidMap fs = HaveValid fs × IsSorted fs

key_of-Ends : (v : BencodeValue) → Ends (λ _. Unit {0}) (key_of v)
unfolding key_of
key_of-Ends (bytes k) = returns tt
key_of-Ends _ = fails

mutual
  unfolding decode_value

  decode_value-Gives :
      (f p : ℕ) (input : Text)
      → 2 * length input < f
      → Gives IsValid p input (decode_value f p input)
  decode_value-Gives zero p input h = absurd (omega arith)
  decode_value-Gives (suc f) p [] h = fails
  decode_value-Gives (suc f) p (c ∷ cs) h =
      Ends-if (c == b'i') (λ _. decode_int-Gives p c cs)
        λ _.
          Ends-if (c == b'l')
            (λ _.
              Ends-bind (decode_list-Gives f (p + 1) cs (omega arith)) λ (xs, q, rest) (r, (e, l)).
                returns {a = (list xs, q, rest)} (valid_list r, (omega arith, omega arith)))
            λ _.
              Ends-if (c == b'd')
                (λ _.
                  Ends-bind (decode_dict-Gives f no_fields (p + 1) cs (valid_end, tt) (omega arith))
                    λ (fs, q, rest) ((r, s), (e, l)).
                      returns {a = (dict fs, q, rest)} (valid_dict r s, (omega arith, omega arith)))
                λ _.
                  Ends-if (leb b'0' c && leb c b'9')
                    (λ _.
                      Ends-weaken (decode_bytes-Gives p (c ∷ cs))
                        λ (v, q, rest) (b, a). returns {a = (v, q, rest)} (rw b.1 valid_bytes, a))
                    λ _. fails

  decode_list-Gives :
      (f p : ℕ) (input : Text)
      → 2 * length input + 1 < f
      → Gives AreValid p input (decode_list f p input)
  decode_list-Gives zero p input h = absurd (omega arith)
  decode_list-Gives (suc f) p [] h = fails
  decode_list-Gives (suc f) p (c ∷ cs) h =
      Ends-if (c == b'e')
        (λ _. returns {a = (no_items, p + 1, cs)} (valid_none, (omega arith, omega arith)))
        λ _. Ends-bind (decode_value-Gives f p (c ∷ cs) (omega arith)) λ (v, q, rest) (r, (e, l)).
          Ends-bind (decode_list-Gives f q rest (omega arith)) λ (xs, q', rest') (rs, (e', l')).
            returns {a = (item v xs, q', rest')} (valid_item r rs, (omega arith, omega arith))

  decode_dict-Gives :
      (f : ℕ) (m : Fields) (p : ℕ) (input : Text)
      → ValidMap m
      → 2 * length input + 1 < f
      → Gives ValidMap p input (decode_dict f m p input)
  decode_dict-Gives zero m p input s h = absurd (omega arith)
  decode_dict-Gives (suc f) m p [] s h = fails
  decode_dict-Gives (suc f) m p (c ∷ cs) s h =
      Ends-if (c == b'e') (λ _. returns {a = (m, p + 1, cs)} (s, (omega arith, omega arith)))
        λ _. Ends-bind (decode_bytes-Gives p (c ∷ cs)) λ (k, q, rest) (_, (e, l)).
          Ends-bind (key_of-Ends k) λ key _.
            Ends-bind (decode_value-Gives f q rest (omega arith)) λ (v, q', rest') (r, (e', l')).
              Ends-weaken
                (decode_dict-Gives f (insert key v m) q' rest'
                  (insert-HaveValid key r s.0, insert-IsSorted key v m s.1) (omega arith))
                λ (fs, q'', rest'') (t, (e'', l'')).
                  returns {a = (fs, q'', rest'')} (t, (omega arith, omega arith))

-- On every input `decode` ends within its fuel, and a value that it returns is one that the Rust
-- types hold: each integer fits an `i64`, and the keys of each dict rise, each once.
pub decode-Ends : (input : Text) → Ends IsValid (decode input)
unfolding decode
decode-Ends input =
    Ends-bind (decode_value-Gives (2 * length input + 1) 0 input (omega arith))
      λ (v, _, _) (r, _). returns r

-- For every input that decodes, encoding the value and decoding again gives the same value, if the
-- text is shorter than 2^64 bytes: so the hash of a re-encoded dict is well defined.
pub decode-encode-decode :
    (input : Text) (v : BencodeValue)
    → decode input ≡ returned v
    → length (encode v) < u64_mod
    → decode (encode v ++ []) ≡ returned v
decode-encode-decode input v e h = decode-encode v [] (Ends-returned (decode-Ends input) e) h
