-- ===== src/Scheduler/Task/Store/Created.antt =====
-- crates/core/src/scheduler/task.rs over the statements of db/repo.rs: a creation that succeeds.
use pt_reseeder.Base.{ℕ, ◌≡◌, Option, none}
use pt_reseeder.Base.Text.{Text}
use pt_reseeder.Error.{Result}
use pt_reseeder.Db.Tasks.{TaskRow}
use pt_reseeder.Scheduler.Task.{TaskCreateRequest}
use pt_reseeder.Scheduler.Task.Store.{TaskStore, Refusals, set_task_assoc}

-- Nothing that the request asks for is refused.
pub record Allows (refusals : Refusals) (req : TaskCreateRequest) : Type 0 where
  pub create : refusals.create req ≡ none
  pub folders : refusals.folders req.folder_ids ≡ none
  pub sites : refusals.sites req.site_ids ≡ none
  pub source_downloaders : refusals.source_downloaders req.source_downloader_ids ≡ none
  pub next_run_at : refusals.next_run_at ≡ none

module _ (trim : Text → Text) (cron : Text → Result Text) (refusals : Refusals) where
  abbrev planned : Option Text → TaskRow → TaskRow
  planned next row = record row { next_run_at = next }

  -- The store after the associations of the task are written.
  abbrev linked : ℕ → TaskCreateRequest → TaskStore → TaskStore
  linked id req s = record s {
    task_folders = set_task_assoc id req.folder_ids s.task_folders;
    task_sites = set_task_assoc id req.site_ids s.task_sites;
    task_source_downloaders = set_task_assoc id req.source_downloader_ids s.task_source_downloaders;
  }
