-- ===== src/Torrent/Bencode.antt =====
-- crates/core/src/torrent/bencode.rs. A position in the input is the pair of its index and the
-- bytes from there on (`data[pos..]`); what a function appends to the buffer is its result.

pub mod Order
pub mod Ends
pub mod Scalars
pub mod RoundTrip
pub mod Overflow
use pt_reseeder.Base.{
  ℕ, zero, suc, ◌+◌, ◌-◌, ◌*◌, ◌/◌, ◌%◌, Bool, true, false, Option, none, some, [], ◌∷◌, ◌++◌, ltb,
  leb, ◌==◌, ◌&&◌, if◌then◌else◌, length, take, drop,
}
use pt_reseeder.Base.Int.{ℤ, u64_mod}
use pt_reseeder.Base.Text.{Text, codes, text_eq, is_utf8}
use pt_reseeder.Base.Decimal.{to_decimal, int_to_string, parse_i64, parse_usize}
use pt_reseeder.Error.{CoreError, internal, Outcome, returned, failed, panicked, out_of_fuel}
use pt_reseeder.Error.Results.{or_fail, ◌>>=◌}

-- `Items` is a `Vec` of values, and `Fields` a `BTreeMap` as the list of its entries in key order.
mutual
  pub data BencodeValue : Type 0 where
    int : ℤ → BencodeValue
    bytes : Text → BencodeValue
    list : Items → BencodeValue
    dict : Fields → BencodeValue

  pub data Items : Type 0 where
    no_items : Items
    item : BencodeValue → Items → Items

  pub data Fields : Type 0 where
    no_fields : Fields
    field : Text → BencodeValue → Fields → Fields

unfoldable pub as_int : BencodeValue → Option ℤ
as_int (int n) = some n
as_int _ = none

unfoldable pub as_bytes : BencodeValue → Option Text
as_bytes (bytes s) = some s
as_bytes _ = none

unfoldable pub as_str : BencodeValue → Option Text
as_str (bytes s) = if is_utf8 s then some s else none
as_str _ = none

unfoldable pub as_list : BencodeValue → Option Items
as_list (list xs) = some xs
as_list _ = none

unfoldable pub as_dict : BencodeValue → Option Fields
as_dict (dict fs) = some fs
as_dict _ = none

-- The order of `Vec<u8>`.
unfoldable pub key_lt : Text → Text → Bool
key_lt [] [] = false
key_lt [] (y ∷ ys) = true
key_lt (x ∷ xs) [] = false
key_lt (x ∷ xs) (y ∷ ys) = if ltb x y then true else if x == y then key_lt xs ys else false

-- `BTreeMap::insert`: an old value of the key is replaced.
unfoldable pub insert : Text → BencodeValue → Fields → Fields
insert k v no_fields = field k v no_fields
insert k v (field j w fs) =
    let rest = insert k v fs in
    if text_eq k j
    then field k v fs
    else if key_lt k j
    then field k v (field j w fs)
    else field j w rest

unfoldable pub get : Text → Fields → Option BencodeValue
get k no_fields = none
get k (field j w fs) = if text_eq k j then some w else get k fs

unfoldable pub encode_bytes : Text → Text
encode_bytes s = to_decimal (length s) ++ b':' ∷ s

unfoldable mutual
  pub encode_value : BencodeValue → Text
  encode_value (int n) = b'i' ∷ (int_to_string n ++ b'e' ∷ [])
  encode_value (bytes s) = encode_bytes s
  encode_value (list xs) = b'l' ∷ encode_items xs
  encode_value (dict fs) = b'd' ∷ encode_fields fs

  pub encode_items : Items → Text
  encode_items no_items = b'e' ∷ []
  encode_items (item v xs) = encode_value v ++ encode_items xs

  pub encode_fields : Fields → Text
  encode_fields no_fields = b'e' ∷ []
  encode_fields (field k v fs) = encode_bytes k ++ (encode_value v ++ encode_fields fs)

unfoldable pub encode : BencodeValue → Text
unfolding encode_value
encode v = encode_value v

-- `position(|&b| b == c)`: what stands before and behind the first such byte.
unfoldable pub split_at : ℕ → Text → Option (Text × Text)
split_at c [] = none
split_at c (b ∷ bs) =
    let later : Option (Text × Text) = elim (split_at c bs) [
      | none ↦ none
      | some (pre, post) ↦ some (b ∷ pre, post)
    ] in
    if b == c then some ([], bs) else later

abbrev pub Read : Type 0 → Type 0
Read A = Outcome (A × ℕ × Text)

abbrev fault {ℓ} : {A : Type ℓ} → Text → Outcome A
fault message = failed (internal message)

abbrev pub check : Bool → Text → Outcome (Unit {0})
check true message = returned tt
check false message = failed (internal message)

-- A byte as a `char`, in UTF-8.
unfoldable pub char_text : ℕ → Text
char_text c = if ltb c 0x80 then c ∷ [] else (0xC0 + c / 64) ∷ (0x80 + c % 64) ∷ []

unfoldable pub decode_int : ℕ → Text → Read BencodeValue
decode_int pos input = do
  (num_str, after) ←
      or_fail (split_at b'e' (drop 1 input)) (internal (codes "Unterminated integer"))
  _ ← check (is_utf8 num_str) (codes "Invalid integer encoding")
  num ← or_fail (parse_i64 num_str) (internal (codes "Invalid integer: " ++ num_str))
  returned (int num, pos + 1 + length num_str + 1, after)

-- `start + len` may pass the range of `usize`. With overflow checks that panics; without them the
-- sum wraps to an end below `start`, and then the slice panics.
unfoldable pub read_bytes : ℕ → ℕ → Text → Read BencodeValue
read_bytes start len after =
    if leb u64_mod (start + len)
    then panicked
    else if ltb (start + length after) (start + len)
    then failed (internal (codes "Byte string exceeds data length"))
    else returned (bytes (take len after), start + len, drop len after)

unfoldable pub decode_bytes : ℕ → Text → Read BencodeValue
unfolding read_bytes
decode_bytes pos input = do
  (len_str, after) ← or_fail (split_at b':' input) (internal (codes "Missing colon in byte string"))
  _ ← check (is_utf8 len_str) (codes "Invalid byte string length")
  len ← or_fail (parse_usize len_str) (internal (codes "Invalid byte string length: " ++ len_str))
  read_bytes (pos + length len_str + 1) len after

unfoldable pub key_of : BencodeValue → Outcome Text
key_of (bytes k) = returned k
key_of _ = fault (codes "Dict key is not a byte string")

unfoldable mutual
  pub decode_value : ℕ → ℕ → Text → Read BencodeValue
  decode_value zero pos input = out_of_fuel
  decode_value (suc f) pos [] = fault (codes "Unexpected end of bencode data")
  decode_value (suc f) pos (c ∷ cs) =
      let as_items = do
        (xs, next, rest) ← decode_list f (pos + 1) cs
        returned (list xs, next, rest)
      in let as_fields = do
        (fs, next, rest) ← decode_dict f no_fields (pos + 1) cs
        returned (dict fs, next, rest)
        in if c == b'i'
          then decode_int pos (c ∷ cs)
          else if c == b'l'
          then as_items
          else if c == b'd'
          then as_fields
          else if leb b'0' c && leb c b'9'
          then decode_bytes pos (c ∷ cs)
          else fault (
              codes "Invalid bencode byte '"
              ++ (char_text c ++ (codes "' at position " ++ to_decimal pos)))

  -- The loop of `decode_list`; it returns the items that it pushes.
  pub decode_list : ℕ → ℕ → Text → Read Items
  decode_list zero cur input = out_of_fuel
  decode_list (suc f) cur [] = fault (codes "Unterminated list")
  decode_list (suc f) cur (c ∷ cs) =
      let more = do
        (v, next, rest) ← decode_value f cur (c ∷ cs)
        (xs, end, rest') ← decode_list f next rest
        returned (item v xs, end, rest')
      in if c == b'e' then returned (no_items, cur + 1, cs) else more

  -- The loop of `decode_dict`, over the map that it has built.
  pub decode_dict : ℕ → Fields → ℕ → Text → Read Fields
  decode_dict zero m cur input = out_of_fuel
  decode_dict (suc f) m cur [] = fault (codes "Unterminated dict")
  decode_dict (suc f) m cur (c ∷ cs) =
      let more = do
        (key_val, next, rest) ← decode_bytes cur (c ∷ cs)
        key ← key_of key_val
        (v, next', rest') ← decode_value f next rest
        decode_dict f (insert key v m) next' rest'
      in if c == b'e' then returned (m, cur + 1, cs) else more

-- Each call consumes a byte or ends a loop, so twice the length is enough.
unfoldable pub decode : Text → Outcome BencodeValue
unfolding decode_value
decode input = do (value, _, _) ← decode_value (2 * length input + 1) 0 input; returned value
