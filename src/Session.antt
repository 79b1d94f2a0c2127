-- ===== src/Session.antt =====
-- crates/core/src/session.rs and the statements of crates/core/src/db/repo.rs on sessions. The hash,
-- the hex codec and chrono are parameters, as are the errors of the database.
pub mod Resolved
use pt_reseeder.Base.{
  ℕ, ◌+◌, ◌*◌, ◌-◌, Bool, true, false, Option, none, some, List, [], ◌∷◌, ◌++◌, ◌==◌, ◌&&◌, not,
  if◌then◌else◌, ltb, leb, keep, or_else, and_then,
}
use pt_reseeder.Base.Text.{Text, codes, text_eq, is_utf8, strip_prefix}
use pt_reseeder.Error.{CoreError, db, Result, ok, err}
use pt_reseeder.Repost.Replace.{trim}
use mathlib.Core.List.{reverse}

pub record Session : Type 0 where
  pub id : ℕ
  pub user_id : ℕ
  pub token_hash : Text
  pub expires_at : Text
  pub created_at : Text

-- The table, with the id that the next row takes.
pub record Sessions : Type 0 where
  pub rows : List Session
  pub next_id : ℕ

unfoldable pub first_with_hash : Text → List Session → Option Session
first_with_hash h [] = none
first_with_hash h (s ∷ ss) =
    let rest = first_with_hash h ss in if text_eq s.token_hash h then some s else rest

-- `UNIQUE` on the hash refuses a second row, and the foreign key a user that is not there; the row's creation time is the database's.
unfoldable pub create_session :
    (ℕ → Bool) → Text → Sessions → ℕ → Text → Text → Result (Sessions × ℕ)
create_session user_exists created_at t user_id token_hash expires_at =
    elim (first_with_hash token_hash t.rows) [
      | some _ ↦ err (db (codes "UNIQUE constraint failed: sessions.token_hash"))
      | none ↦
          let row : Session = record {
            id = t.next_id;
            user_id = user_id;
            token_hash = token_hash;
            expires_at = expires_at;
            created_at = created_at;
          } in
          if user_exists user_id
          then ok (record { rows = t.rows ++ row ∷ []; next_id = t.next_id + 1 }, t.next_id)
          else err (db (codes "FOREIGN KEY constraint failed"))
    ]

unfoldable pub delete_session : ℕ → Sessions → Sessions
delete_session id t = record t { rows = keep (λ s. not (s.id == id)) t.rows }

abbrev pub session_cookie_name : Text
session_cookie_name = codes "pt_reseeder_session"

-- `str::split` at a byte.
unfoldable pub split : ℕ → Text → List Text
split b [] = [] ∷ []
split b (c ∷ cs) =
    let rest = split b cs in
    if c == b then [] ∷ rest else elim rest [ [] ↦ (c ∷ []) ∷ [] | p ∷ ps ↦ (c ∷ p) ∷ ps ]

-- `str::split_once` at a byte.
unfoldable pub split_once : ℕ → Text → Option (Text × Text)
split_once b [] = none
split_once b (c ∷ cs) =
    let rest = split_once b cs in
    if c == b then some ([], cs) else elim rest [ none ↦ none | some (l, r) ↦ some (c ∷ l, r) ]

-- `char::to_digit(16)` of a byte.
unfoldable pub to_digit : ℕ → Option ℕ
to_digit c =
    if leb b'0' c && leb c b'9'
    then some (c - b'0')
    else if leb b'a' c && leb c b'f'
    then some (c - b'a' + 10)
    else if leb b'A' c && leb c b'F'
    then some (c - b'A' + 10)
    else none

unfoldable pub escape : ℕ → ℕ → ℕ → Option ℕ
unfolding to_digit
escape c h l =
    if c == b'%'
    then and_then (to_digit h) (λ x. and_then (to_digit l) (λ y. some (x * 16 + y)))
    else none

unfoldable pub percent_decode : Text → Text
percent_decode [] = []
percent_decode (c ∷ []) = c ∷ []
percent_decode (c ∷ h ∷ []) = c ∷ h ∷ []
percent_decode (c ∷ h ∷ l ∷ cs) = elim (escape c h l) [
  | some b ↦ b ∷ percent_decode cs
  | none ↦ c ∷ percent_decode (h ∷ l ∷ cs)
]

unfoldable pub unquote : Text → Text
unquote value =
    or_else
      (and_then (strip_prefix (codes "\"") value)
        (λ v. and_then (strip_prefix (codes "\"") (reverse v)) (λ r. some (reverse r))))
      value

unfoldable pub decode_cookie_value : Text → Text
unfolding unquote percent_decode
decode_cookie_value value =
    let unquoted = unquote value in
    let out = percent_decode unquoted in if is_utf8 out then out else unquoted

-- The first of the parts that is named for the session.
unfoldable pub find_token : List Text → Option Text
unfolding split_once
find_token [] = none
find_token (p ∷ ps) =
    let rest = find_token ps in
    elim (split_once b'=' (trim p)) [
      | none ↦ rest
      | some (name, value) ↦
          if text_eq name session_cookie_name then some (decode_cookie_value value) else rest
    ]

unfoldable pub all_parts : List Text → List Text
all_parts [] = []
all_parts (h ∷ hs) = split b';' h ++ all_parts hs

unfoldable pub token_from_cookie_headers : List Text → Option Text
token_from_cookie_headers headers = find_token (all_parts headers)

unfoldable pub text_leb : Text → Text → Bool
text_leb [] t = true
text_leb (c ∷ cs) [] = false
text_leb (c ∷ cs) (d ∷ ds) =
    let rest = text_leb cs ds in if ltb c d then true else if c == d then rest else false

pub data SessionOutcome : Type 0 where
  valid : Session → SessionOutcome
  unauthenticated : SessionOutcome
  failed : CoreError → SessionOutcome

unfoldable pub hash_token : (Text → Option Text) → (Text → Text) → Text → Option Text
hash_token hex_decode sha256 raw_hex = and_then (hex_decode raw_hex) (λ raw. some (sha256 raw))

-- Instants are seconds since a start; `parse_from_str` reads the form of SQLite.
module _ (parse_from_rfc3339 parse_from_str : Text → Option ℕ) (format_sqlite_utc : ℕ → Text)
    (now : ℕ) where
  unfoldable pub is_session_expired : Text → Bool
  is_session_expired expires_at = elim (parse_from_rfc3339 expires_at) [
    | some t ↦ leb t now
    | none ↦ elim (parse_from_str expires_at) [
      | some t ↦ leb t now
      | none ↦ text_leb expires_at (format_sqlite_utc now)
    ]
  ]

-- `find_fails` and `delete_fails`: what the two statements fail with, if they do.
module _ (hex_decode : Text → Option Text) (sha256 : Text → Text)
    (parse_from_rfc3339 parse_from_str : Text → Option ℕ) (format_sqlite_utc : ℕ → Text) (now : ℕ)
    (find_fails delete_fails : Option CoreError) where
  unfoldable pub find_session_by_hash : Sessions → Text → Result (Option Session)
  find_session_by_hash t h = elim find_fails [
    | some e ↦ err e
    | none ↦ ok (first_with_hash h t.rows)
  ]

  unfoldable pub settle_session : Sessions → Option Session → Sessions × SessionOutcome
  settle_session t none = (t, unauthenticated)
  settle_session t (some session) =
      if is_session_expired parse_from_rfc3339 parse_from_str format_sqlite_utc now
        session.expires_at
      then (elim delete_fails [ some _ ↦ t | none ↦ delete_session session.id t ], unauthenticated)
      else (t, valid session)

  unfoldable pub resolve_session : Sessions → List Text → Sessions × SessionOutcome
  unfolding find_session_by_hash settle_session
  resolve_session t cookie_headers = elim (token_from_cookie_headers cookie_headers) [
    | none ↦ (t, unauthenticated)
    | some raw_token ↦ elim (hash_token hex_decode sha256 raw_token) [
      | none ↦ (t, unauthenticated)
      | some token_hash ↦ elim (find_session_by_hash t token_hash) [
        | err e ↦ (t, failed e)
        | ok found ↦ settle_session t found
      ]
    ]
  ]
