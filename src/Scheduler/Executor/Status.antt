-- ===== src/Scheduler/Executor/Status.antt =====
-- crates/core/src/scheduler/executor.rs: the status of a task after an execution.
use pt_reseeder.Base.{ℕ, ◌≡◌, refl, Bool, false, not, ◌&&◌, Option, none, some, List}
use pt_reseeder.Base.Int.{ℤ}
use pt_reseeder.Base.Text.{Text, codes, text_eq}
use pt_reseeder.Error.{CoreError, Result, ok, err}
use pt_reseeder.Db.Tables.{WriteOp}
use pt_reseeder.Db.Tasks.{
  TaskRow, get_task, try_mark_task_running, update_task_status, update_task_run_times,
}
use pt_reseeder.Engine.DryRun.{DryRunPreview}
use pt_reseeder.Scheduler.Executor.{Counts, World, Faults, trigger, execute}

-- The status that a run ends with.
abbrev pub final_status : Result (Unit {0}) → Text
final_status (ok _) = codes "idle"
final_status (err _) = codes "error"

-- The calls that set the row of a task succeed.
abbrev pub Settles : Faults → Type 0
Settles faults = (faults.update_task_status ≡ none) × (faults.update_task_run_times ≡ none)

-- An execution comes to the mark: its task is there, it may be run in this way, and it is marked.
pub record Comes {S : Type 0} (faults : Faults) (id : ℕ) (dry_run : Bool) (w : World S)
    (task : TaskRow) : Type 0 where
  pub found : get_task w.tasks id ≡ some task
  pub allowed : (dry_run && not (text_eq task.task_type (codes "reseed"))) ≡ false
  pub reads : faults.get_task ≡ none
  pub marks : faults.try_mark_task_running ≡ none

module _ {S : Type 0} (faults : Faults) (trim : Text → Text) (cron : Text → Result Text)
    (to_json : DryRunPreview → Option Text) (display : CoreError → Text) (duration_ms : ℤ)
    (now : Text) where
  module _
      (run : TaskRow → Bool → Option ℕ → S → List WriteOp → S × List WriteOp × Result Counts) where
    pub execute-trigger :
        (id : ℕ) (dry_run : Bool) (w : World S) (task : TaskRow)
        → Comes faults id dry_run w task
        → execute faults trim cron to_json display duration_ms now run id dry_run w
          ≡ trigger faults trim cron to_json display duration_ms now run id task dry_run w
    unfolding execute
    execute-trigger id dry_run w task c = rw (c.reads, c.found, c.allowed, execute) refl
