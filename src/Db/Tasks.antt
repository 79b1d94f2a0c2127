-- ===== src/Db/Tasks.antt =====
-- The rows of `tasks`, and the statements of crates/core/src/db/repo.rs on them and on the logs of the
-- runs. The ids of rows are natural numbers, and `updated_at` is left out.
pub mod Updates
use pt_reseeder.Base.{
  ℕ, ◌+◌, Bool, true, false, not, ◌&&◌, ◌||◌, ◌==◌, if◌then◌else◌, Option, none, some, List, [],
  ◌∷◌, ◌++◌, map, keep, length, or_else,
}
use pt_reseeder.Base.Int.{ℤ}
use pt_reseeder.Base.Text.{Text, codes, text_eq}
use pt_reseeder.Db.Tables.{Tables, TaskLog, RunResult}

pub record TaskRow : Type 0 where
  pub id : ℕ
  pub name : Text
  pub task_type : Text
  pub trigger_type : Text
  pub cron_expression : Option Text
  pub status : Text
  pub destination_downloader_id : Option ℕ
  pub last_run_at : Option Text
  pub next_run_at : Option Text
  pub run_count : Option ℕ
  pub config_json : Option Text

abbrev pub is_running : Text → Bool
is_running status = text_eq status (codes "running")

unfoldable pub get_task : List TaskRow → ℕ → Option TaskRow
get_task [] id = none
get_task (row ∷ rows) id = if row.id == id then some row else get_task rows id

-- `UPDATE tasks SET … WHERE id = ?`.
unfoldable pub change : ℕ → (TaskRow → TaskRow) → List TaskRow → List TaskRow
change id f [] = []
change id f (row ∷ rows) = (if row.id == id then f row else row) ∷ change id f rows

abbrev pub set_status : Text → TaskRow → TaskRow
set_status status row = record row { status = status }

unfoldable pub update_task_status : ℕ → Text → List TaskRow → List TaskRow
unfolding change
update_task_status id status rows = change id (set_status status) rows

-- `rows_affected() > 0` of the update below; the id is the primary key, so that one row has it.
unfoldable pub startable : ℕ → List TaskRow → Bool
unfolding get_task
startable id rows = elim (get_task rows id) [
  | none ↦ false
  | some row ↦ not (is_running row.status)
]

-- `… SET status = 'running' … WHERE id = ? AND status != 'running'`; where the status is 'running', it is
-- so afterwards too.
unfoldable pub try_mark_task_running : ℕ → List TaskRow → List TaskRow × Bool
unfolding startable change
try_mark_task_running id rows = (change id (set_status (codes "running")) rows, startable id rows)

unfoldable pub update_task_next_run_at : ℕ → Option Text → List TaskRow → List TaskRow
unfolding change
update_task_next_run_at id next rows =
    change id (λ (row : TaskRow). record row { next_run_at = next }) rows

abbrev pub set_run_times : Text → Option Text → TaskRow → TaskRow
set_run_times last next row = record row {
  last_run_at = some last;
  next_run_at = next;
  run_count = some (or_else row.run_count 0 + 1);
}

unfoldable pub update_task_run_times : ℕ → Text → Option Text → List TaskRow → List TaskRow
unfolding change
update_task_run_times id last next rows = change id (set_run_times last next) rows

unfoldable pub interrupt_task : TaskRow → TaskRow
interrupt_task row = if is_running row.status then set_status (codes "error") row else row

unfoldable pub interrupt_log : TaskLog → TaskLog
interrupt_log log =
    if is_running log.result.status
    then record log {
      result = record (log.result) {
        status = codes "failed";
        log_text = some (or_else log.result.log_text (codes "error: interrupted by restart"));
      };
    }
    else log

-- At the start of the server: nothing runs yet, so what is marked as running was interrupted.
unfoldable pub recover_interrupted_tasks :
    List TaskRow → List TaskLog → List TaskRow × List TaskLog × ℕ
unfolding interrupt_task interrupt_log
recover_interrupted_tasks rows logs = (
  map interrupt_task rows,
  map interrupt_log logs,
  length (keep (λ (row : TaskRow). is_running row.status) rows),
)

-- Returns the id of the new log.
unfoldable pub insert_task_log : ℕ → RunResult → Tables → Tables × ℕ
insert_task_log task_id result t = (
  record t {
    task_logs =
        t.task_logs ++ record { id = t.next_log_id; task_id = task_id; result = result } ∷ [];
    next_log_id = t.next_log_id + 1;
  },
  t.next_log_id,
)
