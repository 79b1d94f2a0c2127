-- ===== src/Tests/Torrent.antt =====
-- crates/core/src/torrent and crates/core/src/site/rate_limiter.rs at concrete inputs.
use pt_reseeder.Base.{
  ◌+◌, ◌≤◌, ◌<◌, ◌≡◌, ◌↔◌, refl, true, none, List, [], ◌∷◌, ◌++◌, arith, ltb, if◌then◌else◌,
}
use pt_reseeder.Base.Int.{pos, negsuc}
use pt_reseeder.Base.Text.{is_utf8, Text, codes, text_eq}
use pt_reseeder.Base.Decimal.{int_to_string, to_decimal, parse_i64, parse_usize}
use pt_reseeder.Error.{returned, panicked, ok, err, site, SiteError}
use pt_reseeder.Error.Ends.{Ends}
use pt_reseeder.Torrent.Bencode.{
  key_of, as_bytes, as_dict, as_int, int, bytes, dict, Fields, no_fields, field, encode,
  encode_bytes, decode, decode_int, decode_bytes, split_at, insert, key_lt, get,
}
use pt_reseeder.Torrent.Bencode.Order.{IsSorted, insert-IsSorted}
use pt_reseeder.Torrent.Bencode.RoundTrip.{
  IsValid, valid_int, valid_bytes, valid_dict, valid_field, valid_end, decode-encode,
}
use pt_reseeder.Torrent.Bencode.Ends.{decode-Ends}
use pt_reseeder.Torrent.Bencode.Overflow.{decode-overflow}
use pt_reseeder.Torrent.Parser.{TorrentMeta, count_pieces, parse_bytes, hex_encode}
use pt_reseeder.Torrent.Parser.Meta.{IsCounted, parse_bytes-Ends, info_hash-encode}
use pt_reseeder.Site.RateLimiter.{
  Limiter, record_error, record_success, acquire, acquire_download, is_circuit_open, circuit_ms,
  Wait, api_permit, download_permit, sleep_error_backoff,
}
use pt_reseeder.Site.RateLimiter.Backoff.{errors, trip-errors, tripped_refuses}

-- d1:ai-7e1:b2:hie
abbrev sample_fields : Fields
sample_fields =
    field (codes "a") (int (negsuc 6)) (field (codes "b") (bytes (codes "hi")) no_fields)

sample_encode : encode (dict sample_fields) ≡ codes "d1:ai-7e1:b2:hie"
unfolding encode encode_bytes int_to_string
sample_encode = refl

sample_decode : decode (codes "d1:b2:hi1:ai-7ee!") ≡ returned (dict sample_fields)
unfolding decode decode_int decode_bytes split_at insert key_lt text_eq parse_i64 parse_usize
    is_utf8 key_of
sample_decode = refl

sample-IsValid : IsValid (dict sample_fields)
unfolding key_lt
sample-IsValid =
    valid_dict (valid_field (valid_int (omega arith)) (valid_field valid_bytes valid_end))
      ((refl, tt), (tt, tt))

decode-encode_example :
    decode (encode (dict sample_fields) ++ codes "!") ≡ returned (dict sample_fields)
unfolding encode encode_bytes int_to_string
decode-encode_example = decode-encode (dict sample_fields) (codes "!") sample-IsValid (omega arith)

decode-Ends_example : Ends IsValid (decode (codes "li1e"))
decode-Ends_example = decode-Ends (codes "li1e")

insert-IsSorted_example : IsSorted (insert (codes "b") (int (pos 1)) no_fields)
insert-IsSorted_example = insert-IsSorted (codes "b") (int (pos 1)) no_fields tt

abbrev digest : Text → Text
digest s = 0xAB ∷ []

-- Five bytes in pieces of two.
abbrev five_bytes : Text
five_bytes = codes "d4:infod6:lengthi5e4:name1:t12:piece lengthi2e6:pieces3:xyzee"

three_pieces :
    (meta : TorrentMeta) × (parse_bytes digest five_bytes ≡ returned meta)
    × (meta.total_size ≡ 5)
    × (meta.pieces_count ≡ 3)
unfolding parse_bytes decode decode_int decode_bytes split_at insert key_lt text_eq parse_i64
    parse_usize as_bytes get is_utf8 key_of as_dict as_int count_pieces
three_pieces = (_, refl, refl, refl)

parse_bytes-Ends_example : Ends IsCounted (parse_bytes digest five_bytes)
parse_bytes-Ends_example = parse_bytes-Ends digest five_bytes

abbrev tiny_info : Fields
tiny_info = field (codes "pieces") (bytes (codes "xyz")) no_fields

abbrev tiny : Fields
tiny = field (codes "info") (dict tiny_info) no_fields

tiny-IsValid : IsValid (dict tiny)
tiny-IsValid =
    valid_dict (valid_field (valid_dict (valid_field valid_bytes valid_end) (tt, tt)) valid_end)
      (tt, tt)

info_hash-encode_example :
    (meta : TorrentMeta) × (parse_bytes digest (encode (dict tiny) ++ []) ≡ returned meta)
    × (meta.info_hash ≡ hex_encode (digest (encode (dict tiny_info))))
    × (meta.pieces_hash ≡ hex_encode (digest (codes "xyz")))
unfolding encode encode_bytes get text_eq as_bytes to_decimal
info_hash-encode_example =
    info_hash-encode digest tiny tiny_info [] (codes "xyz") tiny-IsValid (omega arith) refl refl

abbrev calm : Limiter
calm = record {
  consecutive_errors = 0;
  current_interval_ms = 1000;
  base_interval_ms = 1000;
  extra_download_wait_ms = 0;
  circuit_open_until = none;
}

abbrev shaky : Limiter
shaky = record calm { consecutive_errors = 4; current_interval_ms = 16_000 }

trip-errors_example :
    ((record_error (errors (record_success calm) (1 ∷ 2 ∷ 3 ∷ 4 ∷ [])) 5).1 ≡ true) ↔ (5 ≤ 5)
trip-errors_example = trip-errors calm (1 ∷ 2 ∷ 3 ∷ 4 ∷ []) 5 (omega arith)

tripped_refuses_example :
    let q = (record_error shaky 10).0 in
    ((is_circuit_open q 20 ≡ ltb 20 (10 + circuit_ms))
      × (acquire q 20 ≡ (
          if ltb 20 (10 + circuit_ms)
          then err (site SiteError.circuit_open)
          else ok (api_permit ∷ sleep_error_backoff q)))
      × (20 < 10 + circuit_ms → acquire_download q 20 ≡ (q, err (site SiteError.circuit_open)))
      × (10 + circuit_ms ≤ 20
          → (waits : List Wait) × ((acquire_download q 20).1 ≡ ok (download_permit ∷ waits))))
unfolding record_error
tripped_refuses_example = tripped_refuses shaky 10 20 refl

decode-overflow_example : decode (codes "18446744073709551615:hi") ≡ panicked
unfolding to_decimal
decode-overflow_example =
    decode-overflow 18446744073709551615 (codes "hi") (omega arith) (omega arith)
