-- ===== src/Engine/Adder.antt =====
-- crates/core/src/engine/adder.rs. The state is the claimed hashes, the history that is written, the
-- counters, the site's limiter, and the torrents that the downloader was told to resume. The HTTP client and the destination downloader are parameters:
-- the answers they give. `task_id`, the log lines and the sleep with no limiter have no state.
pub mod Claims
pub mod Concurrent
use pt_reseeder.Base.{
  ℕ, zero, suc, Bool, true, false, not, Option, none, some, List, [], ◌∷◌, ◌++◌, ◌==◌,
  if◌then◌else◌, or_else,
}
use pt_reseeder.Base.Int.{ℤ}
use pt_reseeder.Base.Text.{Text, codes, text_eq, contains_text}
use pt_reseeder.Error.{
  CoreError, engine, EngineError, Result, ok, err, Outcome, returned, failed, panicked, out_of_fuel,
}
use pt_reseeder.Db.Tables.{History}
use pt_reseeder.Torrent.Parser.{TorrentMeta, parse_bytes}
use pt_reseeder.Engine.Stats.{ReseedStats, add_to}
use pt_reseeder.Site.RateLimiter.{
  Limiter, acquire_download, record_success, record_extra_wait, record_error,
  is_download_rate_limited, parse_wait_seconds,
}

abbrev pub download_rate_limit_retries : ℕ
download_rate_limit_retries = 3

pub record MatchedTorrent : Type 0 where
  pub pieces_hash : Text
  pub site_id : ℕ
  pub torrent_id : Option ℤ
  pub download_url : Text
  pub save_path : Text
  pub skip_hash_check : Bool
  pub tag : Option Text

pub record AddTorrentOpts : Type 0 where
  pub torrent_data : Text
  pub save_path : Text
  pub skip_hash_check : Bool
  pub paused : Bool
  pub tag : Option Text

pub record AdderState : Type 0 where
  pub dest_hashes : List Text
  pub history : List History
  pub stats : ReseedStats
  pub limiter : Option Limiter
  pub resumed : List Text

-- One `GET`: no answer, a success with its body or with a failure to read it, or another status with
-- its number, its text in full (`StatusCode`'s `Display`) and the body.
pub data Response : Type 0 where
  no_answer : Text → Response
  success : Text → Response
  broken_body : Text → Response
  refused : ℕ → Text → Text → Response

unfoldable pub redact_url : Text → Text
redact_url [] = []
redact_url (c ∷ cs) =
    let rest = redact_url cs in if c == b'?' then [] else if c == b'#' then [] else c ∷ rest

abbrev add_error : Text → CoreError
add_error message = engine (EngineError.add_failed message)

-- `if let Some(limiter) = …` for a call that changes the limiter.
abbrev pub with_limiter : (Limiter → Limiter) → Option Limiter → Option Limiter
with_limiter f none = none
with_limiter f (some l) = some (f l)

unfoldable pub permit : Option Limiter → ℕ → Option Limiter × Result (Unit {0})
permit none now = (none, ok tt)
permit (some l) now =
    let (l', answer) = acquire_download l now in
    (some l', elim answer [ ok _ ↦ ok tt | err e ↦ err e ])

-- The message for a status that is no reason to try again.
unfoldable pub http_error : Text → Text → CoreError
unfolding redact_url
http_error status url =
    add_error (codes "download torrent HTTP " ++ (status ++ (codes " from " ++ redact_url url)))

-- The loop of `download_torrent`, with the attempts that are left after this one; the answers of
-- the server come one to an attempt, at the times given. The retry that would follow the last
-- attempt is never taken, so the code after the loop is not reached.
unfoldable pub attempts :
    ℕ → List (ℕ × Response) → Text → Option Limiter → Option Limiter × Result Text
unfolding permit http_error
attempts left [] url limiter = (limiter, err (add_error (codes "no more answers")))
attempts left ((now, response) ∷ later) url limiter =
    let (limiter₁, permitted) = permit limiter now in
    elim permitted [
      | err e ↦ (limiter₁, err e)
      | ok _ ↦ elim response [
        | no_answer e ↦ (limiter₁, err (add_error (codes "download torrent: " ++ e)))
        | success bytes ↦ (with_limiter record_success limiter₁, ok bytes)
        | broken_body e ↦ (
          with_limiter record_success limiter₁,
          err (add_error (codes "read torrent body: " ++ e)),
        )
        | refused code status text ↦
            let failing : Option Limiter × Result Text =
              (with_limiter (λ l. (record_error l now).0) limiter₁, err (http_error status url)) in
            let retrying : Option Limiter =
              with_limiter
                (λ l.
                  (record_error (record_extra_wait l (or_else (parse_wait_seconds text) 5)) now).0)
                limiter₁ in
            elim left [
              | zero ↦ failing
              | suc n ↦ elim (is_download_rate_limited code text) [
                | true ↦ attempts n later url retrying
                | false ↦ failing
              ]
            ]
      ]
    ]

unfoldable pub download_torrent :
    List (ℕ × Response) → Text → Option Limiter → Option Limiter × Result Text
unfolding attempts
download_torrent answers url limiter = attempts download_rate_limit_retries answers url limiter

unfoldable pub record_history : AdderState → MatchedTorrent → Text → Text → Option Text → AdderState
record_history s m info_hash status reason = record s {
  history =
      s.history
      ++ record {
        pieces_hash = m.pieces_hash;
        site_id = m.site_id;
        torrent_id = m.torrent_id;
        info_hash = some info_hash;
        status = status;
        error_reason = reason;
      }
        ∷ [];
}

unfoldable pub add_opts : MatchedTorrent → Text → Bool → AddTorrentOpts
add_opts m torrent_data auto_start = record {
  torrent_data = torrent_data;
  save_path = m.save_path;
  skip_hash_check = m.skip_hash_check;
  paused = not auto_start;
  tag = m.tag;
}

-- Where an attempt is after the claim: done, or about to call the downloader.
pub data Claim : Type 0 where
  settled : Bool → Claim
  adding : AddTorrentOpts → Claim

unfoldable pub remove_hash : Text → List Text → List Text
remove_hash h [] = []
remove_hash h (x ∷ xs) = let rest = remove_hash h xs in if text_eq h x then rest else x ∷ rest

module _ (sha1 : Text → Text) (display : CoreError → Text)
    (add : AddTorrentOpts → Result Bool) where
  -- From the downloader's answer on.
  unfoldable pub conclude : AdderState → MatchedTorrent → Text → Result Bool → AdderState × Bool
  unfolding record_history remove_hash
  conclude s m info_hash (ok true) =
      let s' = record_history s m info_hash (codes "success") none in
      (record s' { stats = record (s'.stats) { added = add_to s'.stats.added 1 } }, true)
  conclude s m info_hash (ok false) =
      let s' =
        record_history s m info_hash (codes "skipped")
          (some (codes "downloader rejected (likely duplicate)")) in
      (
        record s' {
          stats = record (s'.stats) { skipped_exists = add_to s'.stats.skipped_exists 1 };
        },
        false,
      )
  conclude s m info_hash (err e) =
      let freed = record s { dest_hashes = remove_hash info_hash s.dest_hashes } in
      let s' =
        record_history freed m info_hash (codes "failed")
          (some (codes "add failed: " ++ display e)) in
      (record s' { stats = record (s'.stats) { failed = add_to s'.stats.failed 1 } }, false)

  -- From the parsed torrent to the call of the downloader: the check of the pieces hash, and the claim
  -- under the lock.
  unfoldable pub claim :
      AdderState → MatchedTorrent → Text → Bool → TorrentMeta → AdderState × Claim
  unfolding record_history add_opts
  claim s m torrent_data auto_start meta =
      let mismatch =
        record_history s m meta.info_hash (codes "failed")
          (some (codes "pieces_hash mismatch after download")) in
      let known =
        record_history s m meta.info_hash (codes "skipped")
          (some (codes "already in destination downloader")) in
      if not (text_eq meta.pieces_hash m.pieces_hash)
      then (
        record mismatch { stats = record (s.stats) { failed = add_to s.stats.failed 1 } },
        settled false,
      )
      else if contains_text s.dest_hashes meta.info_hash
      then (
        record known {
          stats = record (s.stats) { skipped_exists = add_to s.stats.skipped_exists 1 };
        },
        settled false,
      )
      else (
        record s { dest_hashes = meta.info_hash ∷ s.dest_hashes },
        adding (add_opts m torrent_data auto_start),
      )

  -- An added torrent that is to start is resumed; a failure of the resume is only logged.
  unfoldable pub resume_added : Bool → Text → AdderState × Bool → AdderState × Bool
  resume_added true info_hash (s, true) = (record s { resumed = s.resumed ++ info_hash ∷ [] }, true)
  resume_added true info_hash (s, false) = (s, false)
  resume_added false info_hash (s, added) = (s, added)

  unfoldable pub add_parsed :
      AdderState → MatchedTorrent → Text → Bool → TorrentMeta → AdderState × Bool
  unfolding claim conclude resume_added
  add_parsed s m torrent_data auto_start meta =
      let (s', claimed) = claim s m torrent_data auto_start meta in
      elim claimed [
        | settled added ↦ (s', added)
        | adding opts ↦
            resume_added auto_start meta.info_hash (conclude s' m meta.info_hash (add opts))
      ]

  unfoldable pub add_torrent :
      AdderState → MatchedTorrent → List (ℕ × Response) → Bool → AdderState × Outcome Bool
  unfolding download_torrent add_parsed
  add_torrent s m answers auto_start =
      let (limiter, downloaded) = download_torrent answers m.download_url s.limiter in
      let s₁ = record s { limiter = limiter } in
      elim downloaded [
        | err e ↦ (s₁, failed e)
        | ok torrent_data ↦ elim (parse_bytes sha1 torrent_data) [
          | failed e ↦ (s₁, failed e)
          | panicked ↦ (s₁, panicked)
          | out_of_fuel ↦ (s₁, out_of_fuel)
          | returned meta ↦
              let (s₂, added) = add_parsed s₁ m torrent_data auto_start meta in (s₂, returned added)
        ]
      ]
