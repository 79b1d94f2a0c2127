-- ===== src/Torrent/Bencode/Overflow.antt =====
-- crates/core/src/torrent/bencode.rs: a byte string whose declared end has no index.
use pt_reseeder.Base.{ℕ, zero, suc, ◌+◌, ◌*◌, ◌≤◌, ◌<◌, ◌≡◌, refl, ◌∙◌, ◌∷◌, ◌++◌, arith, length}
use pt_reseeder.Base.Int.{u64_mod}
use pt_reseeder.Base.Text.{Text}
use pt_reseeder.Base.Decimal.{to_decimal, to_decimal-IsDigit, to_decimal_pos}
use pt_reseeder.Error.{panicked}
use pt_reseeder.Torrent.Bencode.{read_bytes, decode_value, decode}
use pt_reseeder.Torrent.Bencode.Scalars.{decode_value_digits, decode_bytes-to_decimal}

read_bytes-overflow :
    (start len : ℕ) (after : Text) → u64_mod ≤ start + len → read_bytes start len after ≡ panicked
unfolding read_bytes
read_bytes-overflow start len after h = ground arith

decode_value-overflow :
    (f n : ℕ) (rest : Text)
    → 0 < f
    → n < u64_mod
    → u64_mod ≤ length (to_decimal n) + 1 + n
    → decode_value f 0 (to_decimal n ++ b':' ∷ rest) ≡ panicked
decode_value-overflow zero n rest h fits passes = absurd (omega arith)
decode_value-overflow (suc f) n rest h fits passes =
    decode_value_digits f 0 (to_decimal n) (b':' ∷ rest) (to_decimal-IsDigit n) (to_decimal_pos n)
    ∙ decode_bytes-to_decimal 0 n rest fits
    ∙ read_bytes-overflow (0 + length (to_decimal n) + 1) n rest (omega arith)

-- A byte string at the front of the input, whose length is a `usize` but whose end, counted from
-- the front, is not, makes decoding panic, whatever bytes follow.
pub decode-overflow :
    (n : ℕ) (rest : Text)
    → n < u64_mod
    → u64_mod ≤ length (to_decimal n) + 1 + n
    → decode (to_decimal n ++ b':' ∷ rest) ≡ panicked
unfolding decode
decode-overflow n rest fits passes =
    let fuel = 2 * length (to_decimal n ++ b':' ∷ rest) + 1 in
    rw (decode_value-overflow fuel n rest (omega arith) fits passes) refl
