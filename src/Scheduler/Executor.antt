-- ===== src/Scheduler/Executor.antt =====
-- crates/core/src/scheduler/executor.rs: `execute`. What a task does is a parameter that may use a state
-- of its own and the writer's channel; so are the clock and `serde_json`. An answer of `flush` is only
-- logged, and what was sent is written by the writer later.
pub mod Others
pub mod Status
pub mod Skips
pub mod Sources
pub mod Downloaders
pub mod Reseed
pub mod Jobs
use pt_reseeder.Base.{
  ℕ, ◌+◌, Bool, true, false, not, ◌&&◌, ltb, if◌then◌else◌, Option, none, some, List, [], ◌∷◌, ◌++◌,
  and_then,
}
use pt_reseeder.Base.Int.{ℤ, pos, negsuc}
use pt_reseeder.Base.Text.{Text, codes, text_eq}
use pt_reseeder.Error.{
  CoreError, scheduler, SchedulerError, task_not_found, executor_error, Result, ok, err,
}
use pt_reseeder.Db.Tables.{Tables, WriteOp, RunResult, insert_task_log, update_task_log}
use pt_reseeder.Db.Tasks.{
  TaskRow, get_task, try_mark_task_running, update_task_status, update_task_next_run_at,
  update_task_run_times,
}
use pt_reseeder.Db.Tasks
use pt_reseeder.Engine.DryRun.{DryRunPreview, dry_run_preview_version}
use pt_reseeder.Scheduler.Task.{next_run_at_for, lift, ◌>>=◌}

-- What a run reports: how much it matched, did and could not do, and a preview.
pub record Counts : Type 0 where
  pub matched : ℤ
  pub succeeded : ℤ
  pub failed : ℤ
  pub preview : Option DryRunPreview

-- The database, what the writer was sent, and what the runs use besides.
pub record World (S : Type 0) : Type 0 where
  pub tasks : List TaskRow
  pub tables : Tables
  pub sent : List WriteOp
  pub rest : S

-- The calls on the database and the writer that fail, with their errors; each is made once at most.
pub record Faults : Type 0 where
  pub get_task : Option CoreError
  pub try_mark_task_running : Option CoreError
  pub insert_task_log : Option CoreError
  pub send : Option CoreError
  pub update_task_status : Option CoreError
  pub update_task_next_run_at : Option CoreError
  pub update_task_run_times : Option CoreError

-- A call that fails changes nothing.
abbrev pub call {ℓ} : {S : Type ℓ} → Option CoreError → (S → S) → S → S × Result (Unit {ℓ})
call none f s = (f s, ok tt)
call (some e) f s = (s, err e)

unfoldable pub is_positive : ℤ → Bool
is_positive (pos n) = ltb 0 n
is_positive (negsuc n) = false

abbrev pub executor_failure : Text → CoreError
executor_failure message = scheduler (SchedulerError.executor_error message)

abbrev pub on_tasks : {S : Type 0} → (List TaskRow → List TaskRow) → World S → World S
on_tasks f w = record w { tasks = f w.tasks }

module _ {S : Type 0} (faults : Faults) where
  unfoldable pub write_log : ℕ → RunResult → World S → World S × Result (Unit {0})
  write_log task_id result =
      call faults.send
        (λ (w : World S). record w { sent = w.sent ++ WriteOp.insert_task_log task_id result ∷ [] })

  unfoldable pub update_log : ℕ → RunResult → World S → World S × Result (Unit {0})
  update_log log_id result =
      call faults.send
        (λ (w : World S). record w { sent = w.sent ++ WriteOp.update_task_log log_id result ∷ [] })

  -- The log of a run that is over: its own row if it has one. A failure is only logged.
  unfoldable pub close_log : Option ℕ → ℕ → RunResult → World S → World S
  unfolding write_log update_log
  close_log (some log_id) task_id result w = (update_log log_id result w).0
  close_log none task_id result w = (write_log task_id result w).0

abbrev pub skipped_log : RunResult
skipped_log = record {
  status = codes "skipped";
  matched_count = pos 0;
  succeeded_count = pos 0;
  failed_count = pos 0;
  duration_ms = none;
  log_text = some (codes "skipped: task already running");
}

module _ (trim : Text → Text) (cron : Text → Result Text) where
  unfoldable pub next_run : TaskRow → Result (Option Text)
  unfolding next_run_at_for
  next_run task =
      if text_eq task.trigger_type (codes "cron")
      then next_run_at_for trim cron task.cron_expression
      else ok none

module _ (duration_ms : ℤ) where
  unfoldable pub failed_log : Text → RunResult
  failed_log text = record {
    status = codes "failed";
    matched_count = pos 0;
    succeeded_count = pos 0;
    failed_count = pos 1;
    duration_ms = some duration_ms;
    log_text = some text;
  }

module _ (to_json : DryRunPreview → Option Text) (duration_ms : ℤ) where
  unfoldable pub completed_log : Bool → Counts → RunResult
  unfolding is_positive
  completed_log dry_run c = record {
    status =
        if dry_run
        then codes "dry_run"
        else if is_positive c.failed
        then codes "partial"
        else codes "success";
    matched_count = c.matched;
    succeeded_count = if dry_run then pos 0 else c.succeeded;
    failed_count = c.failed;
    duration_ms = some duration_ms;
    log_text = and_then c.preview to_json;
  }

module _ {S : Type 0} (faults : Faults) (trim : Text → Text) (cron : Text → Result Text) where
  unfoldable pub skip_next : TaskRow → World S → World S × Result (Unit {0})
  unfolding next_run_at_for update_task_next_run_at
  skip_next task w =
      if text_eq task.trigger_type (codes "cron")
      then (do
        next ← lift (next_run_at_for trim cron task.cron_expression)
        call faults.update_task_next_run_at (on_tasks (update_task_next_run_at task.id next)))
          w
      else (w, ok tt)

  -- The task is running already: the trigger is logged, and the next one of a cron task is set.
  unfoldable pub skip : TaskRow → World S → World S × Result (Unit {0})
  unfolding write_log skip_next
  skip task = do _ ← write_log faults task.id skipped_log; skip_next task

module _ {S : Type 0} (faults : Faults) (to_json : DryRunPreview → Option Text) where
  -- A reseed run starts with a row in the logs, that holds an empty preview.
  unfoldable pub open_log : TaskRow → Bool → World S → World S × Result (Option ℕ)
  unfolding Tasks.insert_task_log
  open_log task dry_run w =
      let starter : DryRunPreview = record {
        version = dry_run_preview_version;
        would_add_count = 0;
        dry_run = dry_run;
        history_skipped_count = 0;
        items = [];
      } in
      let (tables, log_id) =
        Tasks.insert_task_log task.id
          (record {
            status = codes "running";
            matched_count = pos 0;
            succeeded_count = pos 0;
            failed_count = pos 0;
            duration_ms = none;
            log_text = to_json starter;
          })
          w.tables in
      if text_eq task.task_type (codes "reseed")
      then elim faults.insert_task_log [
        | some e ↦ (w, err e)
        | none ↦ (record w { tables = tables }, ok (some log_id))
      ]
      else (w, ok none)

module _ {S : Type 0} (faults : Faults) (now : Text) where
  -- The status of the task, and when it ran and runs next.
  unfoldable pub settle : ℕ → Text → Option Text → World S → World S × Result (Unit {0})
  unfolding update_task_status update_task_run_times
  settle id status next = do
    _ ← call faults.update_task_status (on_tasks (update_task_status id status))
    call faults.update_task_run_times (on_tasks (update_task_run_times id now next))

-- `trim` is `str::trim`, `cron` the croner crate at the present time and `to_json` `serde_json`; the run
-- took `duration_ms` and was over at `now`.
module _ {S : Type 0} (faults : Faults) (trim : Text → Text) (cron : Text → Result Text)
    (to_json : DryRunPreview → Option Text) (display : CoreError → Text) (duration_ms : ℤ)
    (now : Text) where
  -- The cron expression is invalid by now.
  unfoldable pub abandon : TaskRow → Option ℕ → CoreError → World S → World S × Result (Unit {0})
  unfolding update_log failed_log update_task_status
  abandon task log_id e w =
      let w₁ : World S = elim log_id [
        | none ↦ w
        | some id ↦
            (update_log faults id (failed_log duration_ms (codes "error: invalid cron expression"))
              w).0
      ] in
      (do
        _ ← call faults.update_task_status (on_tasks (update_task_status task.id (codes "error")))
        lift (err e))
        w₁

  unfoldable pub complete :
      TaskRow
      → Bool
      → Option ℕ
      → Option Text
      → Result Counts
      → World S
      → World S × Result (Unit {0})
  unfolding close_log failed_log completed_log settle
  complete task dry_run log_id next (ok c) w =
      settle faults now task.id (codes "idle") next
        (close_log faults log_id task.id (completed_log to_json duration_ms dry_run c) w)
  complete task dry_run log_id next (err e) w =
      (do _ ← settle faults now task.id (codes "error") next; lift (err e))
        (close_log faults log_id task.id (failed_log duration_ms (codes "error: " ++ display e)) w)

  -- From the end of the run on.
  unfoldable pub finish :
      TaskRow → Bool → Option ℕ → Result Counts → World S → World S × Result (Unit {0})
  unfolding next_run abandon complete
  finish task dry_run log_id result w = elim (next_run trim cron task) [
    | err e ↦ abandon task log_id e w
    | ok next ↦ complete task dry_run log_id next result w
  ]

  module _
      (run : TaskRow → Bool → Option ℕ → S → List WriteOp → S × List WriteOp × Result Counts) where
    -- From the mark on that the task is running.
    unfoldable pub run_marked : TaskRow → Bool → World S → World S × Result (Unit {0})
    unfolding open_log finish
    run_marked task dry_run = do
      log_id ← open_log faults to_json task dry_run
      λ (w : World S).
          let (rest, sent, result) = run task dry_run log_id w.rest w.sent in
          finish task dry_run log_id result (record w { rest = rest; sent = sent })

    -- From the reading of the task on.
    unfoldable pub trigger : ℕ → TaskRow → Bool → World S → World S × Result (Unit {0})
    unfolding try_mark_task_running skip run_marked
    trigger id task dry_run w = elim faults.try_mark_task_running [
      | some e ↦ (w, err e)
      | none ↦
          let (tasks, started) = try_mark_task_running id w.tasks in
          let marked : World S = record w { tasks = tasks } in
          elim started [
            | true ↦ run_marked task dry_run marked
            | false ↦ skip faults trim cron task marked
          ]
    ]

    unfoldable pub execute : ℕ → Bool → World S → World S × Result (Unit {0})
    unfolding get_task trigger
    execute id dry_run w = elim faults.get_task [
      | some e ↦ (w, err e)
      | none ↦ elim (get_task w.tasks id) [
        | none ↦ (w, err (scheduler (SchedulerError.task_not_found (pos id))))
        | some task ↦ elim (dry_run && not (text_eq task.task_type (codes "reseed"))) [
          | true ↦ (w, err (executor_failure (codes "dry-run is only supported for reseed tasks")))
          | false ↦ trigger id task dry_run w
        ]
      ]
    ]
