-- ===== src/Engine/Pipeline/Run/Dry.antt =====
-- crates/core/src/engine/pipeline.rs: a dry run leaves the destination and the history alone.
use pt_reseeder.Base.{ℕ, ◌≡◌, refl, Bool, true, Option, List, is_empty, arith, Bool-cases, inl, inr}
use pt_reseeder.Error.{Result}
use pt_reseeder.Error.Results.{Result-cases}
use pt_reseeder.Db.Tables.{History, WriteOp}
use pt_reseeder.Engine.Stats.{ReseedStats, new}
use pt_reseeder.Engine.Scanner.{ScanResult, empty_scan_result}
use pt_reseeder.Engine.Adder.{MatchedTorrent, AddTorrentOpts, Response}
use pt_reseeder.Engine.Matcher.{MatchPhaseOutput}
use pt_reseeder.Engine.DryRun.{run_preview}
use pt_reseeder.Engine.Pipeline.{scan_all}
use pt_reseeder.Engine.Pipeline.Run.{Environment, Run, show, finish_run, match_phase, run_pipeline}
use pt_reseeder.Site.RateLimiter.{Limiter}

module _ (env : Environment) (log_id : Option ℕ) (auto_start : Bool) where
  finish_run-show :
      (history : List History) (sent : List WriteOp) (stats : ReseedStats) (scan : ScanResult)
      (output : MatchPhaseOutput)
      → finish_run env log_id auto_start true history sent stats scan output
        ≡ show env log_id auto_start true history sent stats
            (run_preview scan env.registry output.history_skipped output.matched true)
  unfolding finish_run
  finish_run-show history sent stats scan output = ground arith

module _ (env : Environment) (log_id : Option ℕ) (auto_start : Bool)
    (add : AddTorrentOpts → Result Bool)
    (site_of : MatchedTorrent → List (ℕ × Response) × Option Limiter) where
  -- The same run with another destination, and with other answers to downloads.
  abbrev elsewhere : Environment
  elsewhere = record env { add = add; site_of = site_of }

  -- A dry run keeps the history and does not ask.
  abbrev IsDry : List History → Run → Run → Type 0
  IsDry history here there = (here.history ≡ history) × (there ≡ here)

  finish_run-IsDry :
      (history : List History) (sent : List WriteOp) (stats : ReseedStats) (scan : ScanResult)
      (output : MatchPhaseOutput)
      → IsDry history
          (finish_run env log_id auto_start true history sent stats scan output)
          (finish_run elsewhere log_id auto_start true history sent stats scan output)
  unfolding show
  finish_run-IsDry history sent stats scan output =
      rw
        (
          finish_run-show env log_id auto_start history sent stats scan output,
          finish_run-show elsewhere log_id auto_start history sent stats scan output,
        )
        (refl, refl)

  match_phase-IsDry :
      (history : List History) (sent : List WriteOp) (stats : ReseedStats) (scan : ScanResult)
      → IsDry history
          (match_phase env log_id auto_start true history sent stats scan)
          (match_phase elsewhere log_id auto_start true history sent stats scan)
  unfolding match_phase show
  match_phase-IsDry history sent stats scan = elim (Bool-cases (is_empty scan.pieces_groups)) [
    | inl none_found ↦ rw none_found (refl, refl)
    | inr some_found ↦ elim (Result-cases env.http_client) [
      | inr (e, y) ↦ rw (some_found, y) (refl, refl)
      | inl (v, y) ↦ elim (Bool-cases env.stop_match) [
        | inl stop ↦ rw (some_found, y, stop) (refl, refl)
        | inr go ↦
            let (stats', answer) = env.match_sites scan stats in
            elim (Result-cases answer) [
              | inr (e, z) ↦ rw (some_found, y, go, z) (refl, refl)
              | inl (output, z) ↦
                  rw (some_found, y, go, z) (finish_run-IsDry history sent stats' scan output)
            ]
      ]
    ]
  ]

  -- A dry run leaves the history as it was, and is the same run whatever the destination would say to
  -- an addition and the sites to a download: it asks neither.
  pub run_pipeline-IsDry :
      (history : List History) (sent : List WriteOp)
      → ((run_pipeline env log_id auto_start true history sent).history ≡ history)
        × (run_pipeline
              (record env { add = add; site_of = site_of })
              log_id
              auto_start
              true
              history
              sent
            ≡ run_pipeline env log_id auto_start true history sent)
  unfolding run_pipeline
  run_pipeline-IsDry history sent = elim (Bool-cases (is_empty env.scans)) [
    | inl none_given ↦ rw none_given (refl, refl)
    | inr some_given ↦ elim (Result-cases env.dest_hashes) [
      | inr (e, y) ↦ rw (some_given, y) (refl, refl)
      | inl (hashes, y) ↦
          let (sent', stats, scanned) =
            scan_all env.stop_scan 0 env.scans (record empty_scan_result { dest_hashes = hashes })
              sent new in
          elim (Result-cases scanned) [
            | inr (e, z) ↦ rw (some_given, y, z) (refl, refl)
            | inl (scan, z) ↦ rw (some_given, y, z) (match_phase-IsDry history sent' stats scan)
          ]
    ]
  ]
