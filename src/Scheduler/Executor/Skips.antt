-- ===== src/Scheduler/Executor/Skips.antt =====
-- crates/core/src/scheduler/executor.rs: a trigger of a task that is marked as running.
use pt_reseeder.Base.{
  ℕ, ◌≡◌, refl, sym, ap, subst, Bool, true, false, Option, none, some, List, [], ◌∷◌, ◌++◌,
  Bool-cases, Option-cases, inl, inr,
}
use pt_reseeder.Base.Int.{ℤ}
use pt_reseeder.Base.Text.{Text, codes, text_eq}
use pt_reseeder.Error.{CoreError, Result, err}
use pt_reseeder.Error.Results.{Result-cases}
use pt_reseeder.Db.Tables.{WriteOp, insert_task_log}
use pt_reseeder.Db.Tasks.{
  TaskRow, is_running, get_task, set_status, startable, try_mark_task_running,
  update_task_next_run_at,
}
use pt_reseeder.Db.Tasks.Updates.{get_task-id, get_task-change_same}
use pt_reseeder.Engine.DryRun.{DryRunPreview}
use pt_reseeder.Scheduler.Task.{next_run_at_for, ◌>>=◌}
use pt_reseeder.Scheduler.Executor.{
  Counts, World, Faults, skipped_log, write_log, skip_next, skip, open_log, run_marked, trigger,
  execute,
}
use pt_reseeder.Scheduler.Executor.Status.{Comes, execute-trigger}

-- The row of the task is marked as running.
abbrev pub IsRunning : ℕ → List TaskRow → Type 0
IsRunning id rows = (row : TaskRow) × (get_task rows id ≡ some row) × (is_running row.status ≡ true)

module _ {S : Type 0} (faults : Faults) (trim : Text → Text) (cron : Text → Result Text) where
  -- What a skipped trigger leaves: nothing ran, and the writer has the lines `sent`.
  abbrev Skipped : ℕ → World S → List WriteOp → World S → Type 0
  Skipped id w sent w' = (w'.rest ≡ w.rest) × (w'.sent ≡ sent) × IsRunning id w'.tasks

  skip_next-Skipped :
      (task : TaskRow) (w : World S)
      → IsRunning task.id w.tasks
      → Skipped task.id w w.sent (skip_next faults trim cron task w).0
  unfolding skip_next update_task_next_run_at
  skip_next-Skipped task w (row, found, runs) =
      let unchanged : Skipped task.id w w.sent w = (refl, refl, (row, found, runs)) in
      elim (Bool-cases (text_eq task.trigger_type (codes "cron"))) [
        | inr b ↦ rw b unchanged
        | inl b ↦ elim (Result-cases (next_run_at_for trim cron task.cron_expression)) [
          | inr (e, y) ↦ rw (b, y) unchanged
          | inl (next, y) ↦ elim (Option-cases faults.update_task_next_run_at) [
            | inr (e, z) ↦ rw (b, y, z) unchanged
            | inl z ↦
                let planned : TaskRow → TaskRow =
                  λ (r : TaskRow). record r { next_run_at = next } in
                rw (b, y, z)
                  (
                    refl,
                    refl,
                    (
                      planned row,
                      get_task-change_same task.id planned w.tasks row (λ r. refl) found,
                      runs,
                    ),
                  )
          ]
        ]
      ]

  skip-Skipped :
      (task : TaskRow) (w : World S)
      → faults.send ≡ none
      → IsRunning task.id w.tasks
      → Skipped task.id w
          (w.sent ++ insert_task_log task.id skipped_log ∷ [])
          (skip faults trim cron task w).0
  unfolding skip write_log
  skip-Skipped task w sends runs =
      let logged : World S = record w {
        sent = w.sent ++ insert_task_log task.id skipped_log ∷ [];
      } in
      rw (sends, skip) (skip_next-Skipped task logged runs)

  module _ (to_json : DryRunPreview → Option Text) (display : CoreError → Text) (duration_ms : ℤ)
      (now : Text)
      (run : TaskRow → Bool → Option ℕ → S → List WriteOp → S × List WriteOp × Result Counts) where
    -- A trigger of a task that is marked as running runs nothing, whatever the run would do: it only
    -- sends a line for the log, and the task stays marked.
    pub execute-skip :
        (id : ℕ) (dry_run : Bool) (w : World S) (task : TaskRow)
        → Comes faults id dry_run w task
        → is_running task.status ≡ true
        → faults.send ≡ none
        → (let w' = (execute faults trim cron to_json display duration_ms now run id dry_run w).0 in
            (w'.rest ≡ w.rest)
            × (w'.sent ≡ w.sent ++ insert_task_log id skipped_log ∷ [])
            × IsRunning id w'.tasks)
    unfolding trigger try_mark_task_running startable text_eq
    execute-skip id dry_run w task c runs sends =
        let marked : World S = record w { tasks = (try_mark_task_running id w.tasks).0 } in
        let same = get_task-id w.tasks id task c.found in
        let still : IsRunning id marked.tasks = (
          set_status (codes "running") task,
          get_task-change_same id (set_status (codes "running")) w.tasks task (λ r. refl) c.found,
          refl,
        ) in
        rw
          (
            execute-trigger faults trim cron to_json display duration_ms now run id dry_run w task
                c,
            c.marks,
            c.found,
            runs,
            trigger,
          )
          (subst
            (λ i.
              Skipped i marked (w.sent ++ insert_task_log i skipped_log ∷ [])
                (skip faults trim cron task marked).0)
            same
            (skip-Skipped task marked sends
              (subst (λ i. IsRunning i marked.tasks) (sym same) still)))

    -- Where the first log row of a reseed run cannot be inserted, the execution returns that error with
    -- nothing run, and leaves the task marked as running.
    pub execute_lost_log :
        (id : ℕ) (dry_run : Bool) (w : World S) (task : TaskRow) (e : CoreError)
        → Comes faults id dry_run w task
        → is_running task.status ≡ false
        → text_eq task.task_type (codes "reseed") ≡ true
        → faults.insert_task_log ≡ some e
        → (let (w', answer) =
              execute faults trim cron to_json display duration_ms now run id dry_run w in
            (answer ≡ err e) × (w'.rest ≡ w.rest) × IsRunning id w'.tasks)
    unfolding trigger try_mark_task_running startable run_marked open_log text_eq
    execute_lost_log id dry_run w task e c rests reseed lost =
        let marked : World S = record w { tasks = (try_mark_task_running id w.tasks).0 } in
        let still : IsRunning id marked.tasks = (
          set_status (codes "running") task,
          get_task-change_same id (set_status (codes "running")) w.tasks task (λ r. refl) c.found,
          refl,
        ) in
        let unopened : open_log faults to_json task dry_run marked ≡ (marked, err e) =
          rw (reseed, lost, open_log) refl in
        let lost_run : run_marked faults trim cron to_json display duration_ms now run task dry_run
              marked
            ≡ (marked, err e) =
          rw (run_marked, ◌>>=◌, ap (λ x. x.1) unopened) (ap (λ x. (x.0, err e)) unopened) in
        rw
          (
            execute-trigger faults trim cron to_json display duration_ms now run id dry_run w task
                c,
            c.marks,
            c.found,
            rests,
            trigger,
            lost_run,
          )
          (refl, refl, still)
