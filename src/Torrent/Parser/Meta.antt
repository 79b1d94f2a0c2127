-- ===== src/Torrent/Parser/Meta.antt =====
-- The metadata that crates/core/src/torrent/parser.rs computes: hashes, sizes and counts.
use pt_reseeder.Base.{
  lt→ltb, ℕ, ◌+◌, ◌*◌, ◌%◌, ◌≤◌, ◌<◌, ◌≡◌, refl, some, List, [], ◌∷◌, ◌++◌, arith, length, ◌==◌,
  Bool-cases, Option-cases, inl, inr,
}
use pt_reseeder.Base.Int.{u64_mod}
use pt_reseeder.Base.Text.{Text, codes}
use pt_reseeder.Error.{returned}
use pt_reseeder.Error.Ends.{Ends, returns, Ends-or_fail, Ends-bind}
use pt_reseeder.Torrent.Bencode.{
  BencodeValue, dict, Fields, as_dict, as_bytes, as_list, get, encode,
}
use pt_reseeder.Torrent.Bencode.RoundTrip.{IsValid, decode-encode}
use pt_reseeder.Torrent.Bencode.Ends.{decode-Ends}
use pt_reseeder.Torrent.Parser.{
  count_pieces, TorrentFile, TorrentMeta, hex_encode, items, get_with, parse_files, torrent_files,
  div_ceil, build_meta, meta_of, parse_bytes,
}

abbrev pub sum_lengths : List TorrentFile → ℕ
sum_lengths [] = 0
sum_lengths (f ∷ fs) = f.length + sum_lengths fs

sum_lengths-snoc :
    (fs : List TorrentFile) (f : TorrentFile)
    → sum_lengths (fs ++ f ∷ []) ≡ sum_lengths fs + f.length
sum_lengths-snoc [] f = omega arith
sum_lengths-snoc (g ∷ fs) f = omega (arith, sum_lengths-snoc fs f)

parse_files-total :
    (fs : List BencodeValue) (parsed : List TorrentFile) (total : ℕ)
    → total ≡ sum_lengths parsed % u64_mod
    → (parse_files fs (parsed, total)).1 ≡ sum_lengths (parse_files fs (parsed, total)).0 % u64_mod
unfolding parse_files
parse_files-total [] parsed total h = h
parse_files-total (f ∷ fs) parsed total h = elim (Option-cases (as_dict f)) [
  | inl e ↦ rw (e, parse_files) (parse_files-total fs parsed total h)
  | inr (fd, e) ↦
      rw (e, parse_files) (parse_files-total fs _ _ (omega (arith, sum_lengths-snoc parsed _)))
]

torrent_files-total :
    (name : Text) (i : Fields)
    → (torrent_files name i).1 % u64_mod ≡ sum_lengths (torrent_files name i).0 % u64_mod
unfolding torrent_files
torrent_files-total name i = elim (Option-cases (get_with (codes "files") as_list i)) [
  | inl e ↦ rw (e, torrent_files) (omega arith)
  | inr (xs, e) ↦ rw (e, torrent_files) (omega (arith, parse_files-total (items xs) [] 0 refl))
]

div_ceil_bounds : (a b : ℕ) → 0 < b → (a ≤ div_ceil a b * b) × (div_ceil a b * b < a + b)
unfolding div_ceil
div_ceil_bounds a b h = elim (Bool-cases (a % b == 0)) [
  | inl e ↦ rw e (grind arith)
  | inr e ↦ rw e (grind arith)
]

count_pieces_bounds :
    (t p : ℕ)
    → (0 < p → (t ≤ count_pieces t p * p) × (count_pieces t p * p < t + p))
      × (p ≡ 0 → count_pieces t p ≡ 0)
unfolding count_pieces
count_pieces_bounds t p = ((λ h. rw (lt→ltb 0 p h) (div_ceil_bounds t p h)), (λ h. ground arith))

-- The pieces cover the content, and the last one is not empty of it; and a torrent with no piece
-- length counts no pieces.
abbrev pub IsCounted : TorrentMeta → Type 0
IsCounted meta =
    (0 < meta.piece_length
      → (meta.total_size ≤ meta.pieces_count * meta.piece_length)
        × (meta.pieces_count * meta.piece_length < meta.total_size + meta.piece_length))
    × (meta.piece_length ≡ 0 → meta.pieces_count ≡ 0)

module _ (sha1 : Text → Text) where
  build_meta-IsCounted :
      (d : Fields) (info : BencodeValue) (i : Fields) (pieces : Text)
      → IsCounted (build_meta sha1 d info i pieces)
  unfolding build_meta
  build_meta-IsCounted d info i pieces = count_pieces_bounds _ _

  meta_of-Ends : (v : BencodeValue) → Ends IsCounted (meta_of sha1 v)
  unfolding meta_of
  meta_of-Ends v = Ends-bind (Ends-or_fail {P = λ _. Unit {0}} (as_dict v) _ (λ _ _. tt)) λ d _.
      Ends-bind (Ends-or_fail {P = λ _. Unit {0}} (get (codes "info") d) _ (λ _ _. tt)) λ info _.
        Ends-bind (Ends-or_fail {P = λ _. Unit {0}} (as_dict info) _ (λ _ _. tt)) λ i _.
          Ends-bind
            (Ends-or_fail {P = λ _. Unit {0}} (get_with (codes "pieces") as_bytes i) _ (λ _ _. tt))
            λ pieces _. returns (build_meta-IsCounted d info i pieces)

  -- Parsing ends on every input. A torrent that it accepts has as many pieces as cover its size, one
  -- fewer would not, if its piece length is not zero; and it has none if that is zero.
  pub parse_bytes-Ends : (input : Text) → Ends IsCounted (parse_bytes sha1 input)
  unfolding parse_bytes
  parse_bytes-Ends input = Ends-bind (decode-Ends input) λ v _. meta_of-Ends v

  -- Where a file is the encoding of a dict that the Rust types hold, in less than 2^64 bytes and followed
  -- by anything, with an info dict and pieces in it: it is parsed, its info hash is the digest of the
  -- bytes that stand for the info dict, and its pieces hash that of the pieces.
  pub info_hash-encode :
      (fs i : Fields) (rest pieces : Text)
      → IsValid (dict fs)
      → length (encode (dict fs)) < u64_mod
      → get (codes "info") fs ≡ some (dict i)
      → get_with (codes "pieces") as_bytes i ≡ some pieces
      → (meta : TorrentMeta) × (parse_bytes sha1 (encode (dict fs) ++ rest) ≡ returned meta)
        × (meta.info_hash ≡ hex_encode (sha1 (encode (dict i))))
        × (meta.pieces_hash ≡ hex_encode (sha1 pieces))
  unfolding parse_bytes meta_of as_dict build_meta
  info_hash-encode fs i rest pieces valid h g p = (
    build_meta sha1 fs (dict i) i pieces,
    rw (decode-encode (dict fs) rest valid h) (ground arith),
    refl,
    refl,
  )

  -- The size of a torrent is the sum of the lengths of the files that are listed, modulo 2^64.
  pub total_size-files :
      (d : Fields) (info : BencodeValue) (i : Fields) (pieces : Text)
      → (build_meta sha1 d info i pieces).total_size % u64_mod
        ≡ sum_lengths (build_meta sha1 d info i pieces).files % u64_mod
  unfolding build_meta
  total_size-files d info i pieces = torrent_files-total _ i
