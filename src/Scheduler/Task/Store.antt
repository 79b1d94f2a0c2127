-- ===== src/Scheduler/Task/Store.antt =====
-- The statements of crates/core/src/db/repo.rs on the tasks and their associations, as an implementation
-- of the interface of Scheduler.Task. A table is the list of its rows.
pub mod Atomic
pub mod Assoc
pub mod Created
use pt_reseeder.Base.{
  ℕ, ◌+◌, Bool, true, false, not, ◌==◌, leb, if◌then◌else◌, Option, none, some, List, [], ◌∷◌, ◌++◌,
  map, keep,
}
use pt_reseeder.Base.Text.{Text, codes}
use pt_reseeder.Error.{CoreError, Result, ok, err}
use pt_reseeder.Db.Tasks.{TaskRow, change}
use pt_reseeder.Db.Tasks
use pt_reseeder.Scheduler.Task.{TaskCreateRequest, TaskRepo}

-- A row of an association: a task and what belongs to it.
abbrev pub Links : Type 0
Links = List (ℕ × ℕ)

pub record TaskStore : Type 0 where
  pub tasks : List TaskRow
  pub next_id : ℕ
  pub task_folders : Links
  pub task_sites : Links
  pub task_source_downloaders : Links

-- What SQLite says to a statement besides carrying it out: a foreign key, a repeated pair, a full disk.
pub record Refusals : Type 0 where
  pub create : TaskCreateRequest → Option CoreError
  pub get : Option CoreError
  pub update : Option CoreError
  pub delete : Option CoreError
  pub folders : List ℕ → Option CoreError
  pub sites : List ℕ → Option CoreError
  pub source_downloaders : List ℕ → Option CoreError
  pub next_run_at : Option CoreError

abbrev pub attempt :
    Option CoreError → (TaskStore → TaskStore) → TaskStore → TaskStore × Result (Unit {0})
attempt none f s = (f s, ok tt)
attempt (some e) f s = (s, err e)

-- `DELETE FROM … WHERE task_id = ?`.
unfoldable pub unlink : ℕ → Links → Links
unlink id [] = []
unlink id ((task, child) ∷ links) =
    let rest = unlink id links in if task == id then rest else (task, child) ∷ rest

-- `set_task_assoc`, a transaction: the chunks of the insertion are in the order of the ids.
unfoldable pub set_task_assoc : ℕ → List ℕ → Links → Links
unfolding unlink
set_task_assoc id children links = unlink id links ++ map (λ child. (id, child)) children

-- The children of a task, as they were written.
unfoldable pub children_of : ℕ → Links → List ℕ
children_of id [] = []
children_of id ((task, child) ∷ links) =
    let rest = children_of id links in if task == id then child ∷ rest else rest

unfoldable pub place : ℕ → List ℕ → List ℕ
place n [] = n ∷ []
place n (x ∷ xs) = let rest = place n xs in if leb n x then n ∷ x ∷ xs else x ∷ rest

unfoldable pub in_order : List ℕ → List ℕ
unfolding place
in_order [] = []
in_order (n ∷ ns) = place n (in_order ns)

-- `get_task_assoc`: the query has no order of its own, and is answered from the index of the primary key
-- (task, child), in the order of the children.
unfoldable pub get_task_assoc : ℕ → Links → List ℕ
unfolding children_of in_order
get_task_assoc id links = in_order (children_of id links)

-- A new row has the defaults of the schema.
unfoldable pub new_row : ℕ → TaskCreateRequest → TaskRow
new_row id req = record {
  id = id;
  name = req.name;
  task_type = req.task_type;
  trigger_type = req.trigger_type;
  cron_expression = req.cron_expression;
  status = codes "idle";
  destination_downloader_id = req.destination_downloader_id;
  last_run_at = none;
  next_run_at = none;
  run_count = some 0;
  config_json = req.config_json;
}

unfoldable pub edit_row : TaskCreateRequest → TaskRow → TaskRow
edit_row req row = record row {
  name = req.name;
  task_type = req.task_type;
  trigger_type = req.trigger_type;
  cron_expression = req.cron_expression;
  destination_downloader_id = req.destination_downloader_id;
  config_json = req.config_json;
}

-- `delete_by_id`.
unfoldable pub remove_row : ℕ → List TaskRow → List TaskRow
remove_row id [] = []
remove_row id (row ∷ rows) =
    let rest = remove_row id rows in if row.id == id then rest else row ∷ rest

-- The associations go with their task.
unfoldable pub delete_row : ℕ → TaskStore → TaskStore
unfolding remove_row unlink
delete_row id s = record s {
  tasks = remove_row id s.tasks;
  task_folders = unlink id s.task_folders;
  task_sites = unlink id s.task_sites;
  task_source_downloaders = unlink id s.task_source_downloaders;
}

unfoldable pub store_repo : Refusals → TaskRepo TaskStore
unfolding change set_task_assoc new_row edit_row delete_row Tasks.get_task
    Tasks.update_task_next_run_at
store_repo refusals = record {
  create_task = λ req s. elim (refusals.create req) [
    | some e ↦ (s, err e)
    | none ↦ (
      record s { tasks = s.tasks ++ new_row s.next_id req ∷ []; next_id = s.next_id + 1 },
      ok s.next_id,
    )
  ];
  get_task = λ id s. elim refusals.get [ some e ↦ err e | none ↦ ok (Tasks.get_task s.tasks id) ];
  update_task = λ id req.
      attempt refusals.update
        (λ (s : TaskStore). record s { tasks = change id (edit_row req) s.tasks });
  delete_task = λ id. attempt refusals.delete (delete_row id);
  set_task_folders = λ id ids.
      attempt (refusals.folders ids)
        (λ (s : TaskStore). record s { task_folders = set_task_assoc id ids s.task_folders });
  set_task_sites = λ id ids.
      attempt (refusals.sites ids)
        (λ (s : TaskStore). record s { task_sites = set_task_assoc id ids s.task_sites });
  set_task_source_downloaders = λ id ids.
      attempt (refusals.source_downloaders ids) (λ (s : TaskStore). record s {
        task_source_downloaders = set_task_assoc id ids s.task_source_downloaders;
      });
  update_task_next_run_at = λ id next.
      attempt refusals.next_run_at
        (λ (s : TaskStore). record s { tasks = Tasks.update_task_next_run_at id next s.tasks });
}
