-- ===== src/Engine/Pipeline/Run.antt =====
-- crates/core/src/engine/pipeline.rs: the phases of `run_pipeline`. What the
-- phases need from outside is one record.
pub mod Dry
use pt_reseeder.Base.{
  ℕ, ◌+◌, ◌≡◌, refl, Bool, true, false, not, ◌&&◌, Option, none, some, List, [], ◌∷◌, ◌++◌,
  if◌then◌else◌, is_empty, arith, Bool-cases, inl, inr,
}
use pt_reseeder.Base.Int.{ℤ}
use pt_reseeder.Base.Text.{Text, codes}
use pt_reseeder.Error.{
  CoreError, engine, EngineError, Result, ok, err, Outcome, returned, failed, panicked, out_of_fuel,
}
use pt_reseeder.Error.Results.{Result-cases}
use pt_reseeder.Db.Tables.{History, WriteOp}
use pt_reseeder.Engine.Stats.{ReseedStats, new}
use pt_reseeder.Engine.Scanner.{ScanResult, empty_scan_result}
use pt_reseeder.Engine.Adder.{MatchedTorrent, AddTorrentOpts, Response}
use pt_reseeder.Engine.Matcher.{MatchPhaseOutput}
use pt_reseeder.Engine.DryRun.{DryRunPreview, Registry, build_preview, run_preview}
use pt_reseeder.Engine.Pipeline.{Scan, scan_all, Channel, persist_run_progress, add_phase}
use pt_reseeder.Site.RateLimiter.{Limiter}

-- `stop` is the cancel token at the n-th look of a phase; `match_sites` is `match_all_sites` at the
-- sites and options of the run, and `site_of` what a site says to the download of a match.
pub record Environment : Type 0 where
  pub sha1 : Text → Text
  pub display : CoreError → Text
  pub add : AddTorrentOpts → Result Bool
  pub to_json : DryRunPreview → Option Text
  pub channel : Channel
  pub elapsed_ms : ℤ
  pub registry : Registry
  pub site_of : MatchedTorrent → List (ℕ × Response) × Option Limiter
  pub scans : List Scan
  pub dest_hashes : Result (List Text)
  pub match_sites : ScanResult → ReseedStats → ReseedStats × Result MatchPhaseOutput
  pub http_client : Result (Unit {0})
  pub stop_scan : ℕ → Bool
  pub stop_match : Bool
  pub stop_add : ℕ → Bool

-- What a run leaves: the history, what was sent to the writer, the counters, and the answer.
pub record Run : Type 0 where
  pub history : List History
  pub sent : List WriteOp
  pub stats : ReseedStats
  pub answer : Outcome DryRunPreview

module _ (env : Environment) (log_id : Option ℕ) (auto_start dry_run : Bool) where
  -- A preview is written and the run ends with it, unless the writer fails.
  unfoldable pub show : List History → List WriteOp → ReseedStats → DryRunPreview → Run
  unfolding persist_run_progress
  show history sent stats preview =
      let (sent', shown) =
        persist_run_progress env.to_json env.channel log_id env.elapsed_ms stats preview sent in
      record {
        history = history;
        sent = sent';
        stats = stats;
        answer = elim shown [ err e ↦ failed e | ok _ ↦ returned preview ];
      }

  -- From the matches on.
  unfoldable pub finish_run :
      List History → List WriteOp → ReseedStats → ScanResult → MatchPhaseOutput → Run
  unfolding show add_phase run_preview
  finish_run history sent stats scan output =
      let preview = run_preview scan env.registry output.history_skipped output.matched dry_run in
      let shown = show history sent stats preview in
      let (added, ended) =
        add_phase env.sha1 env.display env.add env.to_json env.channel log_id env.elapsed_ms
          env.registry env.site_of auto_start env.stop_add scan output.matched preview history stats
          shown.sent in
      elim shown.answer [
        | failed e ↦ shown
        | panicked ↦ shown
        | out_of_fuel ↦ shown
        | returned _ ↦
            if is_empty output.matched then shown else if dry_run then shown else record {
              history = added.adder.history;
              sent = added.sent;
              stats = added.adder.stats;
              answer = ended;
            }
      ]

  unfoldable pub match_phase : List History → List WriteOp → ReseedStats → ScanResult → Run
  unfolding show finish_run build_preview
  match_phase history sent stats scan =
      let stopped : CoreError → ReseedStats → Run =
        λ e stats. record { history = history; sent = sent; stats = stats; answer = failed e } in
      if is_empty scan.pieces_groups
      then show history sent stats (build_preview scan env.registry [] dry_run)
      else elim env.http_client [
        | err e ↦ stopped e stats
        | ok _ ↦ elim env.stop_match [
          | true ↦ stopped (engine EngineError.cancelled) stats
          | false ↦
              let (stats', answer) = env.match_sites scan stats in
              elim answer [
                | err e ↦ stopped e stats'
                | ok output ↦ finish_run history sent stats' scan output
              ]
        ]
      ]

  unfoldable pub run_pipeline : List History → List WriteOp → Run
  unfolding scan_all match_phase new
  run_pipeline history sent =
      let stopped : CoreError → List WriteOp → ReseedStats → Run = λ e sent stats. record {
        history = history;
        sent = sent;
        stats = stats;
        answer = failed e;
      } in
      if is_empty env.scans
      then stopped
          (engine
            (EngineError.scan_failed (codes "no scan folders or source downloaders configured")))
          sent new
      else elim env.dest_hashes [
        | err e ↦ stopped e sent new
        | ok hashes ↦
            let (sent', stats, scanned) =
              scan_all env.stop_scan 0 env.scans (record empty_scan_result { dest_hashes = hashes })
                sent new in
            elim scanned [
              | err e ↦ stopped e sent' stats
              | ok scan ↦ match_phase history sent' stats scan
            ]
      ]
