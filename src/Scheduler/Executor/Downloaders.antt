-- ===== src/Scheduler/Executor/Downloaders.antt =====
-- crates/core/src/scheduler/executor.rs: `build_downloader`. The clients, the vault and UTF-8 are
-- parameters.
use pt_reseeder.Base.{
  ℕ, Bool, ◌==◌, if◌then◌else◌, Option, none, some, [], ◌++◌, length, or_else, ◌⊎◌, inl, inr,
}
use pt_reseeder.Base.Int.{ℤ}
use pt_reseeder.Base.Text.{Text, codes, text_eq}
use pt_reseeder.Error.{Result, ok, err}
use pt_reseeder.Scheduler.Executor.{executor_failure}

pub record DownloaderRow : Type 0 where
  pub id : ℕ
  pub dl_type : Text
  pub host : Text
  pub port : ℤ
  pub encrypted_username : Option Text
  pub username_nonce : Option Text
  pub encrypted_password : Option Text
  pub password_nonce : Option Text
  pub torrent_dir : Option Text
  pub auto_start : Option Bool
  pub enabled : Bool

-- `decrypt` is the vault, `none` while it is locked; `from_utf8` gives the text or what is wrong with
-- the bytes.
module _ (decrypt : Option (Text → Text → Result Text)) (from_utf8 : Text → Text ⊎ Text) where
  unfoldable pub decrypt_optional : Option Text → Option Text → Text → Result (Option Text)
  decrypt_optional none _ label = ok none
  decrypt_optional (some encrypted) none label = ok none
  decrypt_optional (some encrypted) (some nonce) label = elim decrypt [
    | none ↦ err (executor_failure (codes "vault is locked; cannot decrypt downloader " ++ label))
    | some opened ↦
        if length nonce == 12
        then elim (opened encrypted nonce) [
          | err e ↦ err e
          | ok plaintext ↦ elim (from_utf8 plaintext) [
            | inl text ↦ ok (some text)
            | inr problem ↦ err (
                executor_failure
                  (codes "downloader " ++ (label ++ (codes " is not valid UTF-8: " ++ problem))))
          ]
        ]
        else err
            (executor_failure (codes "invalid downloader " ++ (label ++ codes " nonce length")))
  ]

  -- `connect` makes a client of this type and connects it.
  module _ {D : Type 0}
      (connect : Text → DownloaderRow → Option Text → Option Text → Result D) where
    unfoldable pub build_downloader : DownloaderRow → Result D
    unfolding decrypt_optional
    build_downloader row =
        elim (decrypt_optional row.encrypted_username row.username_nonce (codes "username")) [
          | err e ↦ err e
          | ok username ↦
              elim (decrypt_optional row.encrypted_password row.password_nonce (codes "password")) [
                | err e ↦ err e
                | ok password ↦
                    if text_eq row.dl_type (codes "qbittorrent")
                    then connect (codes "qbittorrent") row (some (or_else username []))
                        (some (or_else password []))
                    else if text_eq row.dl_type (codes "transmission")
                    then connect (codes "transmission") row username password
                    else err
                        (executor_failure (codes "unsupported downloader type: " ++ row.dl_type))
              ]
        ]
