-- ===== src/Repost/Extract.antt =====
-- crates/core/src/repost/extractor.rs: the page of a torrent on its site, read through the limiter of
-- that site. The site's adapter and the text of an error are parameters.
use pt_reseeder.Base.{ℕ, Option, none, some, ◌++◌}
use pt_reseeder.Base.Text.{Text, codes}
use pt_reseeder.Base.Decimal.{to_decimal}
use pt_reseeder.Error.{CoreError, Result, ok, err, repost, site_not_capable, extraction_failed}
use pt_reseeder.Site.RateLimiter.{Limiter, acquire}
use pt_reseeder.Repost.Format.{RawTorrentInfo}

-- What the registry holds of a site: its name, its limiter, and its adapter's extraction if any.
pub record SourceHandle : Type 0 where
  pub name : Text
  pub rate_limiter : Limiter
  pub repost : Option (Text → Result RawTorrentInfo)

module _ (display : CoreError → Text) (registry : ℕ → Option SourceHandle) (now_ms : ℕ) where
  unfoldable pub extract_torrent_info : ℕ → Text → Result RawTorrentInfo
  extract_torrent_info source torrent_id = elim (registry source) [
    | none ↦ err (
        repost (
          site_not_capable
            (codes "source site " ++ to_decimal source ++ codes " not found in registry")))
    | some handle ↦ elim handle.repost [
      | none ↦ err (
          repost (
            site_not_capable
              (codes "site " ++ handle.name ++ codes " does not support repost extraction")))
      | some extract ↦ elim (acquire handle.rate_limiter now_ms) [
        | err e ↦ err e
        | ok _ ↦ elim (extract torrent_id) [
          | ok raw_info ↦ ok raw_info
          | err e ↦ err (
              repost (
                extraction_failed
                  (codes "failed to extract from site " ++ handle.name ++ codes ": " ++ display e)))
        ]
      ]
    ]
  ]
