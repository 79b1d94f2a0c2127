-- ===== src/Error.antt =====
-- crates/core/src/error.rs: the error enums that the modelled parts raise, and results.
pub mod Results
pub mod Ends
use pt_reseeder.Base.Int.{ℤ}
use pt_reseeder.Base.Text.{Text}

pub data SiteError : Type 0 where
  http_error parse_error : Text → SiteError
  rate_limited circuit_open : SiteError
  auth_failed not_found : Text → SiteError
  http : Text → SiteError

pub data DownloaderError : Type 0 where
  connection_failed auth_failed add_failed transport : Text → DownloaderError

pub data EngineError : Type 0 where
  scan_failed match_failed add_failed : Text → EngineError
  cancelled : EngineError

pub data RepostError : Type 0 where
  extraction_failed adaptation_failed submission_failed invalid_state not_found site_not_capable :
      Text → RepostError

pub data SchedulerError : Type 0 where
  task_not_found : ℤ → SchedulerError
  invalid_cron watcher_error executor_error invalid_config : Text → SchedulerError
  folder_not_found task_running : ℤ → SchedulerError

-- `crypto` and `db` carry the text of an error of a library.
pub data CoreError : Type 0 where
  crypto db : Text → CoreError
  site : SiteError → CoreError
  downloader : DownloaderError → CoreError
  engine : EngineError → CoreError
  repost : RepostError → CoreError
  scheduler : SchedulerError → CoreError
  config internal : Text → CoreError

pub data Result {ℓ} (A : Type ℓ) : Type ℓ where
  ok : A → Result A
  err : CoreError → Result A

-- A computation that may also panic, and that the model cuts off when its fuel is used up.
pub data Outcome {ℓ} (A : Type ℓ) : Type ℓ where
  returned : A → Outcome A
  failed : CoreError → Outcome A
  panicked out_of_fuel : Outcome A
