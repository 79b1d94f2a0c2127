-- ===== src/Tests/Store.antt =====
-- crates/core/src/scheduler/task.rs on concrete tables.
use pt_reseeder.Base.{◌≡◌, refl, none, some, [], ◌∷◌, arith}
use pt_reseeder.Base.Text.{Text, codes, text_eq}
use pt_reseeder.Error.{Result, ok, internal}
use pt_reseeder.Scheduler.Task.{TaskCreateRequest, create_task, validate_task_request}
use pt_reseeder.Scheduler.Task.Store.{TaskStore, Refusals, store_repo, new_row}
use pt_reseeder.Scheduler.Task.Store.Atomic.{IsFresh, create_task-SameRows}

abbrev same : Text → Text
same s = s

-- Every cron expression fires at noon next.
abbrev noon : Text → Result Text
noon s = ok (codes "12:00")

abbrev request : TaskCreateRequest
request = record {
  name = codes "t";
  task_type = codes "reseed";
  trigger_type = codes "cron";
  cron_expression = some (codes "0 12 * * *");
  destination_downloader_id = some 3;
  config_json = none;
  folder_ids = 2 ∷ [];
  site_ids = 9 ∷ 1 ∷ [];
  source_downloader_ids = [];
}

abbrev store : TaskStore
store = record {
  tasks = new_row 1 request ∷ [];
  next_id = 2;
  task_folders = (1, 2) ∷ [];
  task_sites = (1, 1) ∷ [];
  task_source_downloaders = [];
}

store-IsFresh : IsFresh store
unfolding new_row
store-IsFresh = record {
  tasks = (omega arith, tt);
  folders = (omega arith, tt);
  sites = (omega arith, tt);
  source_downloaders = tt;
}

abbrev nothing_refused : Refusals
nothing_refused = record {
  create = λ _. none;
  get = none;
  update = none;
  delete = none;
  folders = λ _. none;
  sites = λ _. none;
  source_downloaders = λ _. none;
  next_run_at = none;
}

-- A site is not there: its foreign key is refused.
abbrev sites_refused : Refusals
sites_refused = record nothing_refused { sites = λ _. some (internal (codes "FOREIGN KEY")) }

create_task-SameRows_example :
    (let t : TaskStore = (create_task same noon (store_repo sites_refused) request store).0 in
      (t.tasks ≡ store.tasks)
      × (t.task_folders ≡ store.task_folders)
      × (t.task_sites ≡ store.task_sites)
      × (t.task_source_downloaders ≡ store.task_source_downloaders))
unfolding create_task validate_task_request text_eq store_repo
create_task-SameRows_example =
    create_task-SameRows same noon sites_refused request store (internal (codes "FOREIGN KEY"))
      store-IsFresh refl refl
