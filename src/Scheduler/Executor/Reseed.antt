-- ===== src/Scheduler/Executor/Reseed.antt =====
-- crates/core/src/scheduler/executor.rs: `execute_reseed` and its helpers, up to the call of the engine.
-- The queries are functions to their answers; how a client is built and JSON are parameters.
use pt_reseeder.Base.{
  ℕ, Bool, false, not, ◌&&◌, if◌then◌else◌, Option, none, some, List, [], ◌∷◌, ◌++◌, any, is_empty,
  or_else, ◌⊎◌, inl, inr,
}
use pt_reseeder.Base.Int.{pos, as_i64}
use pt_reseeder.Base.Text.{Text, codes}
use pt_reseeder.Base.Decimal.{to_decimal}
use pt_reseeder.Error.{CoreError, Result, ok, err}
use pt_reseeder.Db.Tables.{WriteOp}
use pt_reseeder.Db.Tasks.{TaskRow}
use pt_reseeder.Engine.Stats.{ReseedStats}
use pt_reseeder.Engine.DryRun.{DryRunPreview}
use pt_reseeder.Scheduler.Executor.{Counts, executor_failure}
use pt_reseeder.Scheduler.Executor.Sources.{FolderRow, Sources, collect_folders}
use pt_reseeder.Scheduler.Executor.Downloaders.{DownloaderRow}

pub record ReseedTaskConfig : Type 0 where
  pub default_save_path : Option Text
  pub skip_hash_check : Option Bool
  pub tag : Option Text

-- `parse_task_config::<T>`.
unfoldable pub parse_task_config :
    {A : Type 0} (trim : Text → Text) (from_json : Text → A ⊎ Text) (default : A)
    → Option Text
    → Result A
parse_task_config trim from_json default none = ok default
parse_task_config trim from_json default (some json) =
    if is_empty (trim json) then ok default else elim (from_json json) [
      | inl config ↦ ok config
      | inr problem ↦ err (executor_failure (codes "invalid task config_json: " ++ problem))
    ]

unfoldable pub resolve_destination_downloader_id : TaskRow → Result ℕ
resolve_destination_downloader_id task = elim task.destination_downloader_id [
  | some id ↦ ok id
  | none ↦ err (executor_failure (codes "destination_downloader_id is required for reseed tasks"))
]

-- The engine's configuration; `jackett_config` is `None` here.
pub record ReseedConfig (D : Type 0) : Type 0 where
  pub scan_folders : List Text
  pub source_downloaders : List (D × Option Text)
  pub target_site_ids : List ℕ
  pub default_save_path : Text
  pub skip_hash_check : Bool
  pub auto_start : Bool
  pub tag : Option Text

-- What the task and the repository hold, and whether a site is registered for reseeding.
pub record Setup : Type 0 where
  pub folders : Result (List ℕ)
  pub sites : Result (List ℕ)
  pub source_downloaders : Result (List ℕ)
  pub get_folder : ℕ → Result (Option FolderRow)
  pub update_folder_scanned : ℕ → Option CoreError
  pub get_downloader : ℕ → Result (Option DownloaderRow)
  pub can_reseed : ℕ → Bool

-- The queries, then the folders in their order; the answer has the sites and the sources.
unfoldable pub gather : Setup → Sources × Result (List ℕ)
unfolding collect_folders
gather setup =
    let empty : List ℕ → Sources =
      λ ids. record { scan_folders = []; source_downloader_ids = ids; scanned = [] } in
    elim setup.folders [
      | err e ↦ (empty [], err e)
      | ok folder_ids ↦ elim setup.sites [
        | err e ↦ (empty [], err e)
        | ok site_ids ↦ elim setup.source_downloaders [
          | err e ↦ (empty [], err e)
          | ok ids ↦
              let (s, answer) =
                collect_folders setup.get_folder setup.update_folder_scanned folder_ids
                  (empty ids) in
              elim answer [ err e ↦ (s, err e) | ok _ ↦ (s, ok site_ids) ]
        ]
      ]
    ]

module _ {D : Type 0} (build : DownloaderRow → Result D) (setup : Setup) where
  unfoldable pub collect_downloaders : List ℕ → Result (List (D × Option Text))
  collect_downloaders [] = ok []
  collect_downloaders (id ∷ ids) =
      let rest = collect_downloaders ids in
      elim (setup.get_downloader id) [
        | err e ↦ err e
        | ok none ↦
            err (
              executor_failure
                (codes "source downloader " ++ (to_decimal id ++ codes " not found")))
        | ok (some row) ↦ if not row.enabled then rest else elim (build row) [
          | err e ↦ err e
          | ok downloader ↦ elim rest [
            | err e ↦ err e
            | ok targets ↦ ok ((downloader, row.torrent_dir) ∷ targets)
          ]
        ]
      ]

  unfoldable pub build_destination_downloader : TaskRow → Result (D × Bool)
  unfolding resolve_destination_downloader_id
  build_destination_downloader task = elim (resolve_destination_downloader_id task) [
    | err e ↦ err e
    | ok id ↦ elim (setup.get_downloader id) [
      | err e ↦ err e
      | ok none ↦ err (
          executor_failure
            (codes "destination downloader " ++ (to_decimal id ++ codes " not found")))
      | ok (some row) ↦
          if not row.enabled
          then err (
              executor_failure
                (codes "destination downloader " ++ (to_decimal row.id ++ codes " is disabled")))
          else elim (build row) [
            | err e ↦ err e
            | ok downloader ↦ ok (downloader, or_else row.auto_start false)
          ]
    ]
  ]

  module _ (trim : Text → Text) (from_json : Text → ReseedTaskConfig ⊎ Text) where
    -- From the collected sources to the engine's configuration and the destination.
    unfoldable pub configure : TaskRow → List ℕ → Sources → Result (ReseedConfig D × D)
    unfolding collect_downloaders build_destination_downloader parse_task_config
    configure task site_ids s = elim (collect_downloaders s.source_downloader_ids) [
      | err e ↦ err e
      | ok targets ↦
          if is_empty s.scan_folders && is_empty targets
          then err (
              executor_failure
                (codes "no enabled sources configured for task (folders or source downloaders)"))
          else if is_empty site_ids
          then err (executor_failure (codes "no target sites configured for task"))
          else if not (any setup.can_reseed site_ids)
          then err (executor_failure (codes "no target sites registered with reseed capability"))
          else elim (build_destination_downloader task) [
            | err e ↦ err e
            | ok (destination, auto_start) ↦
                elim (parse_task_config trim from_json
                  (record { default_save_path = none; skip_hash_check = none; tag = none })
                  task.config_json) [
                    | err e ↦ err e
                    | ok c ↦ ok (
                      record {
                        scan_folders = s.scan_folders;
                        source_downloaders = targets;
                        target_site_ids = site_ids;
                        default_save_path = or_else c.default_save_path (codes "/downloads");
                        skip_hash_check = or_else c.skip_hash_check false;
                        auto_start = auto_start;
                        tag = c.tag;
                      },
                      destination,
                    )
                  ]
          ]
    ]

    -- `run_sync` is the engine; the folders that were noted are returned with the answer.
    unfoldable pub execute_reseed :
        (ReseedConfig D
          → D
          → Bool
          → Option ℕ
          → List WriteOp
          → List WriteOp × Result (ReseedStats × Option DryRunPreview))
        → TaskRow
        → Bool
        → Option ℕ
        → List WriteOp
        → List ℕ × List WriteOp × Result Counts
    unfolding gather configure
    execute_reseed run_sync task dry_run log_id sent =
        let (s, gathered) = gather setup in
        elim gathered [
          | err e ↦ (s.scanned, sent, err e)
          | ok site_ids ↦ elim (configure task site_ids s) [
            | err e ↦ (s.scanned, sent, err e)
            | ok (config, destination) ↦
                let (sent', ran) = run_sync config destination dry_run log_id sent in
                elim ran [
                  | err e ↦ (s.scanned, sent', err e)
                  | ok (stats, preview) ↦ (
                    s.scanned,
                    sent',
                    ok (record {
                      matched = as_i64 stats.matched;
                      succeeded = if dry_run then pos 0 else as_i64 stats.added;
                      failed = as_i64 stats.failed;
                      preview = preview;
                    }),
                  )
                ]
          ]
        ]
