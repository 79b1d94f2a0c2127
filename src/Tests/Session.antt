-- ===== src/Tests/Session.antt =====
-- crates/core/src/session.rs on one session and the cookies of a proxy.
use pt_reseeder.Base.{ℕ, ◌≡◌, refl, true, false, Option, none, some, [], ◌∷◌, if◌then◌else◌}
use pt_reseeder.Base.Text.{Text, codes, text_eq, is_utf8, strip_prefix}
use pt_reseeder.Repost.Replace.{trim}
use pt_reseeder.Session.{
  Session, Sessions, valid, unauthenticated, first_with_hash, create_session, delete_session,
  find_token, all_parts, split, split_once, to_digit, escape, percent_decode, unquote,
  decode_cookie_value, token_from_cookie_headers, hash_token, is_session_expired,
  find_session_by_hash, settle_session, resolve_session,
}
use pt_reseeder.Session.Resolved.{resolve_session-valid, create_session-resolve_session}

-- The hash puts a byte in front; the year 2099 is the instant 99, and now is 50.
abbrev as_is : Text → Option Text
as_is t = some t

abbrev salted : Text → Text
salted t = 0 ∷ t

abbrev no_rfc : Text → Option ℕ
no_rfc t = none

abbrev year : Text → Option ℕ
year t = if text_eq t (codes "2099") then some 99 else some 0

abbrev shown : ℕ → Text
shown n = codes "2050"

abbrev live : Session
live = record {
  id = 4;
  user_id = 1;
  token_hash = salted (codes "ab");
  expires_at = codes "2099";
  created_at = codes "2040";
}

abbrev past : Session
past = record live { id = 5; token_hash = salted (codes "cd"); expires_at = codes "2000" }

abbrev before : Sessions
before = record { rows = past ∷ []; next_id = 4 }

abbrev after : Sessions
after = record { rows = past ∷ live ∷ []; next_id = 5 }

cookie_found :
    token_from_cookie_headers (codes "a=1" ∷ codes "b; pt_reseeder_session=\"%61b\"" ∷ [])
    ≡ some (codes "ab")
unfolding token_from_cookie_headers find_token all_parts split split_once trim decode_cookie_value
    unquote percent_decode escape to_digit is_utf8 strip_prefix text_eq
cookie_found = refl

-- An expired session is refused, and its row is deleted.
expired_deleted :
    resolve_session as_is salted no_rfc year shown 50 none none after
      (codes "pt_reseeder_session=cd" ∷ [])
    ≡ (record after { rows = live ∷ [] }, unauthenticated)
unfolding token_from_cookie_headers find_token all_parts split split_once trim decode_cookie_value
    unquote percent_decode escape to_digit is_utf8 strip_prefix text_eq resolve_session
    find_session_by_hash settle_session hash_token first_with_hash is_session_expired delete_session
expired_deleted = refl

create_session-resolve_session_example :
    resolve_session as_is salted no_rfc year shown 50 none none after
      (codes "a=1" ∷ codes "b; pt_reseeder_session=\"%61b\"" ∷ [])
    ≡ (after, valid live)
unfolding create_session hash_token first_with_hash is_session_expired text_eq
create_session-resolve_session_example =
    create_session-resolve_session as_is salted no_rfc year shown 50 none (λ _. true) (codes "2040")
      before after 1 4 (codes "ab") (salted (codes "ab")) (codes "2099")
      (codes "a=1" ∷ codes "b; pt_reseeder_session=\"%61b\"" ∷ []) refl refl cookie_found refl

let_in :
    resolve_session as_is salted no_rfc year shown 50 none none after
      (codes "a=1" ∷ codes "b; pt_reseeder_session=\"%61b\"" ∷ [])
    ≡ (after, valid live)
unfolding token_from_cookie_headers find_token all_parts split split_once trim decode_cookie_value
    unquote percent_decode escape to_digit is_utf8 strip_prefix text_eq resolve_session
    find_session_by_hash settle_session hash_token first_with_hash is_session_expired
let_in = refl

resolve_session-valid_example :
    (raw : Text) × (token_from_cookie_headers
        (codes "a=1" ∷ codes "b; pt_reseeder_session=\"%61b\"" ∷ [])
      ≡ some raw)
    × (hash_token as_is salted raw ≡ some live.token_hash)
    × (first_with_hash live.token_hash after.rows ≡ some live)
    × (is_session_expired no_rfc year shown 50 live.expires_at ≡ false)
    × (after ≡ after)
resolve_session-valid_example =
    resolve_session-valid as_is salted no_rfc year shown 50 none none after after
      (codes "a=1" ∷ codes "b; pt_reseeder_session=\"%61b\"" ∷ []) live let_in
