-- ===== src/Scheduler/Executor/Sources.antt =====
-- crates/core/src/scheduler/executor.rs: where a reseed task scans, from its folders and downloaders. The
-- queries are functions to their answers.
pub mod Once
use pt_reseeder.Base.{
  ℕ, ◌+◌, Bool, true, false, not, ◌&&◌, ◌==◌, if◌then◌else◌, Option, none, some, List, [], ◌∷◌,
  ◌++◌, length, any, is_empty, or_else, ◌⊎◌, inl, inr,
}
use pt_reseeder.Base.Int.{ℤ, pos, as_i64}
use pt_reseeder.Base.Text.{Text, codes, text_eq}
use pt_reseeder.Base.Decimal.{to_decimal}
use pt_reseeder.Error.{CoreError, Result, ok, err}
use pt_reseeder.Db.Tables.{WriteOp}
use pt_reseeder.Db.Tasks.{TaskRow}
use pt_reseeder.Engine.Stats.{ReseedStats}
use pt_reseeder.Engine.DryRun.{DryRunPreview}
use pt_reseeder.Scheduler.Task.{is_blank, ◌>>=◌, lift}
use pt_reseeder.Scheduler.Executor.{Counts, executor_failure}

pub record FolderRow : Type 0 where
  pub id : ℕ
  pub path : Text
  pub scan_mode : Text
  pub downloader_id : Option ℕ
  pub enabled : Bool

-- Where to scan, and the folders that are noted as scanned.
pub record Sources : Type 0 where
  pub scan_folders : List Text
  pub source_downloader_ids : List ℕ
  pub scanned : List ℕ

abbrev pub has_id : ℕ → List ℕ → Bool
has_id id ids = any (λ i. i == id) ids

-- A folder that names a downloader adds it, once.
unfoldable pub add_source : ℕ → Sources → Sources
add_source id s =
    if has_id id s.source_downloader_ids
    then s
    else record s { source_downloader_ids = s.source_downloader_ids ++ id ∷ [] }

module _ (get_folder : ℕ → Result (Option FolderRow))
    (update_folder_scanned : ℕ → Option CoreError) where
  unfoldable pub note_scanned : ℕ → Sources → Sources × Result (Unit {0})
  note_scanned id s = elim (update_folder_scanned id) [
    | some e ↦ (s, err e)
    | none ↦ (record s { scanned = s.scanned ++ id ∷ [] }, ok tt)
  ]

  unfoldable pub collect_folder : ℕ → FolderRow → Sources → Sources × Result (Unit {0})
  unfolding note_scanned add_source
  collect_folder id folder s =
      if not folder.enabled
      then (s, ok tt)
      else if text_eq folder.scan_mode (codes "local")
      then note_scanned id (record s { scan_folders = s.scan_folders ++ folder.path ∷ [] })
      else if text_eq folder.scan_mode (codes "downloader")
      then elim folder.downloader_id [
        | none ↦ (s, ok tt)
        | some downloader_id ↦ note_scanned id (add_source downloader_id s)
      ]
      else (
        s,
        err (
            executor_failure (
              codes "folder "
              ++ (to_decimal folder.id ++ (codes " has invalid scan_mode: " ++ folder.scan_mode)))),
      )

  unfoldable pub collect_folders : List ℕ → Sources → Sources × Result (Unit {0})
  unfolding collect_folder
  collect_folders [] s = (s, ok tt)
  collect_folders (id ∷ ids) s = elim (get_folder id) [
    | err e ↦ (s, err e)
    | ok none ↦ collect_folders ids s
    | ok (some folder) ↦
        let (s', answer) = collect_folder id folder s in
        elim answer [ err e ↦ (s', err e) | ok _ ↦ collect_folders ids s' ]
  ]
