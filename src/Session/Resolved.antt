-- ===== src/Session/Resolved.antt =====
-- crates/core/src/session.rs: which requests are let in.
use pt_reseeder.Base.{
  ℕ, ◌≡◌, refl, Bool, false, Option, none, some, List, [], ◌∷◌, ◌++◌, arith, Option-cases,
  Bool-cases, inl, inr, sym, ap, ◌∙◌,
}
use pt_reseeder.Base.Text.{Text, text_eq_iff, text_eq_refl}
use pt_reseeder.Error.{CoreError, ok}
use pt_reseeder.Session.{
  Session, Sessions, SessionOutcome, valid, first_with_hash, create_session,
  token_from_cookie_headers, hash_token, is_session_expired, find_session_by_hash, settle_session,
  resolve_session,
}

first_with_hash-some :
    (h : Text) (ss : List Session) (s : Session) → first_with_hash h ss ≡ some s → s.token_hash ≡ h
unfolding first_with_hash
first_with_hash-some h [] s e = cc
first_with_hash-some h (x ∷ ss) s e =
    ground (arith, first_with_hash-some h ss s, text_eq_iff x.token_hash h)

first_with_hash-append :
    (ss : List Session) (s : Session)
    → first_with_hash s.token_hash ss ≡ none
    → first_with_hash s.token_hash (ss ++ s ∷ []) ≡ some s
unfolding first_with_hash
first_with_hash-append [] s e = ground (arith, text_eq_refl s.token_hash)
first_with_hash-append (x ∷ ss) s e = ground (arith, first_with_hash-append ss s)

module _ (hex_decode : Text → Option Text) (sha256 : Text → Text)
    (parse_from_rfc3339 parse_from_str : Text → Option ℕ) (format_sqlite_utc : ℕ → Text)
    (now : ℕ) where
  abbrev expired : Text → Bool
  expired = is_session_expired parse_from_rfc3339 parse_from_str format_sqlite_utc now

  abbrev resolve :
      Option CoreError → Option CoreError → Sessions → List Text → Sessions × SessionOutcome
  resolve =
      resolve_session hex_decode sha256 parse_from_rfc3339 parse_from_str format_sqlite_utc now

  settle_session-valid :
      (df : Option CoreError) (t u : Sessions) (o : Option Session) (s : Session)
      → settle_session hex_decode sha256 parse_from_rfc3339 parse_from_str format_sqlite_utc now
          none df t o
        ≡ (u, valid s)
      → (o ≡ some s) × (expired s.expires_at ≡ false) × (u ≡ t)
  unfolding settle_session
  settle_session-valid df t u none s e = absurd (ground arith)
  settle_session-valid df t u (some x) s e = elim (Bool-cases (expired x.expires_at)) [
    | inl y ↦ absurd (ground arith)
    | inr n ↦ ground arith
  ]

  settled_of :
      (ff df : Option CoreError) (t u : Sessions) (headers : List Text) (raw h : Text) (s : Session)
      → token_from_cookie_headers headers ≡ some raw
      → hash_token hex_decode sha256 raw ≡ some h
      → resolve ff df t headers ≡ (u, valid s)
      → settle_session hex_decode sha256 parse_from_rfc3339 parse_from_str format_sqlite_utc now
          none df t
          (first_with_hash h t.rows)
        ≡ (u, valid s)
  unfolding resolve_session find_session_by_hash settle_session
  settled_of none df t u headers raw h s k m e = ground arith
  settled_of (some x) df t u headers raw h s k m e = absurd (ground arith)

  -- A request is let in only with the row whose hash is that of a token in its cookies, in hex, and
  -- only while that row has not expired; the table is then as it was.
  pub resolve_session-valid :
      (find_fails delete_fails : Option CoreError) (t u : Sessions) (headers : List Text)
      (s : Session)
      → resolve find_fails delete_fails t headers ≡ (u, valid s)
      → (raw : Text) × (token_from_cookie_headers headers ≡ some raw)
        × (hash_token hex_decode sha256 raw ≡ some s.token_hash)
        × (first_with_hash s.token_hash t.rows ≡ some s)
        × (is_session_expired parse_from_rfc3339 parse_from_str format_sqlite_utc now s.expires_at
            ≡ false)
        × (u ≡ t)
  unfolding resolve_session find_session_by_hash settle_session
  resolve_session-valid ff df t u headers s e =
      elim (Option-cases (token_from_cookie_headers headers)) [
        | inl n ↦ absurd (ground arith)
        | inr (raw, k) ↦ elim (Option-cases (hash_token hex_decode sha256 raw)) [
          | inl n ↦ absurd (ground arith)
          | inr (h, m) ↦
              let settled = settled_of ff df t u headers raw h s k m e in
              let ends = settle_session-valid df t u (first_with_hash h t.rows) s settled in
              let same = first_with_hash-some h t.rows s ends.0 in
              (
                raw,
                k,
                m ∙ ap some (sym same),
                ap (λ x. first_with_hash x t.rows) same ∙ ends.0,
                ends.1,
                ends.2,
              )
        ]
      ]

  create_session-row :
      (users : ℕ → Bool) (c : Text) (t u : Sessions) (user id : ℕ) (h x : Text)
      → create_session users c t user h x ≡ ok (u, id)
      → first_with_hash h u.rows
        ≡ some (record { id = id; user_id = user; token_hash = h; expires_at = x; created_at = c })
  unfolding create_session
  create_session-row users c t u user id h x e = elim (Option-cases (first_with_hash h t.rows)) [
    | inl n ↦
        let k =
          first_with_hash-append t.rows
            (record {
              id = t.next_id;
              user_id = user;
              token_hash = h;
              expires_at = x;
              created_at = c;
            })
            n in
        ground arith
    | inr (s, y) ↦ absurd (ground arith)
  ]

  -- A session that was created is what a request resolves to whose cookies carry its token, until it
  -- expires, where the lookup does not fail.
  pub create_session-resolve_session :
      (delete_fails : Option CoreError) (user_exists : ℕ → Bool) (created_at : Text)
      (t u : Sessions) (user_id id : ℕ) (raw h expires_at : Text) (headers : List Text)
      → create_session user_exists created_at t user_id h expires_at ≡ ok (u, id)
      → hash_token hex_decode sha256 raw ≡ some h
      → token_from_cookie_headers headers ≡ some raw
      → is_session_expired parse_from_rfc3339 parse_from_str format_sqlite_utc now expires_at
        ≡ false
      → resolve none delete_fails u headers ≡ (
        u,
        valid (record {
          id = id;
          user_id = user_id;
          token_hash = h;
          expires_at = expires_at;
          created_at = created_at;
        }),
      )
  unfolding create_session resolve_session find_session_by_hash settle_session
  create_session-resolve_session df users c t u user id raw h x headers e kh kt kx =
      let row : Session = record {
        id = id;
        user_id = user;
        token_hash = h;
        expires_at = x;
        created_at = c;
      } in
      let found : first_with_hash h u.rows ≡ some row =
        create_session-row users c t u user id h x e in
      rw (resolve_session, kt, kh, found, kx) refl
