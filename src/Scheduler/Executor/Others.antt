-- ===== src/Scheduler/Executor/Others.antt =====
-- crates/core/src/scheduler/executor.rs: what an execution leaves of the rows of other tasks. A call
-- that keeps a row has a rule for each way it is put together.
use pt_reseeder.Base.{
  ℕ, ◌≡◌, ◌≢◌, refl, ◌∙◌, Bool, Option, none, some, List, ◌++◌, ap, arith, Bool-cases, Option-cases,
  inl, inr,
}
use pt_reseeder.Base.Int.{ℤ}
use pt_reseeder.Base.Text.{Text, codes, text_eq}
use pt_reseeder.Error.{CoreError, Result, ok, err}
use pt_reseeder.Error.Results.{Result-cases}
use pt_reseeder.Db.Tables.{WriteOp, RunResult}
use pt_reseeder.Db.Tasks.{
  TaskRow, get_task, change, set_status, set_run_times, startable, try_mark_task_running,
  update_task_status, update_task_next_run_at, update_task_run_times,
}
use pt_reseeder.Db.Tasks.Updates.{KeepsId, get_task-id, get_task-change_other}
use pt_reseeder.Engine.DryRun.{DryRunPreview}
use pt_reseeder.Scheduler.Task.{next_run_at_for, lift, ◌>>=◌}
use pt_reseeder.Scheduler.Executor.{
  Counts, World, Faults, call, on_tasks, skipped_log, write_log, update_log, close_log, next_run,
  skip_next, skip, open_log, settle, failed_log, completed_log, abandon, complete, finish,
  run_marked, trigger, execute,
}

pub close_log-tasks :
    {S : Type 0} (faults : Faults) (log_id : Option ℕ) (id : ℕ) (r : RunResult) (w : World S)
    → (close_log faults log_id id r w).tasks ≡ w.tasks
unfolding close_log write_log update_log
close_log-tasks faults none id r w = ground arith
close_log-tasks faults (some log_id) id r w = ground arith

module _ {S : Type 0} (j : ℕ) where
  -- A call that keeps the row of the task j.
  abbrev pub Keeps : {A : Type 0} → (World S → World S × A) → Type 0
  Keeps m = (w : World S) → get_task (m w).0.tasks j ≡ get_task w.tasks j

  bind-Keeps :
      {A B : Type 0} (m : World S → World S × Result A) (f : A → World S → World S × Result B)
      → Keeps m
      → ((a : A) → Keeps (f a))
      → Keeps (m >>= f)
  bind-Keeps m f km kf w =
      let (w', answer) = m w in
      elim (Result-cases answer) [
        | inl (a, e) ↦ rw (e, ◌>>=◌) (kf a w' ∙ km w)
        | inr (x, e) ↦ rw (e, ◌>>=◌) (km w)
      ]

  change-Keeps :
      (id : ℕ) (fault : Option CoreError) (f : TaskRow → TaskRow)
      → KeepsId f
      → j ≢ id
      → Keeps (call fault (on_tasks (change id f)))
  change-Keeps id none f k ne w = get_task-change_other id j f w.tasks k ne
  change-Keeps id (some e) f k ne w = refl

  module _ (faults : Faults) (trim : Text → Text) (cron : Text → Result Text) where
    write_log-Keeps : (id : ℕ) (r : RunResult) → Keeps (write_log faults id r)
    unfolding write_log
    write_log-Keeps id r w = ground arith

    skip-Keeps : (task : TaskRow) → j ≢ task.id → Keeps (skip faults trim cron task)
    unfolding skip skip_next update_task_next_run_at
    skip-Keeps task ne =
        bind-Keeps (write_log faults task.id skipped_log) (λ _. skip_next faults trim cron task)
          (write_log-Keeps task.id skipped_log)
          (λ _ w. elim (Bool-cases (text_eq task.trigger_type (codes "cron"))) [
            | inr other ↦ rw other refl
            | inl cron_task ↦ rw cron_task (
                bind-Keeps (lift (next_run_at_for trim cron task.cron_expression))
                  (λ next.
                    call faults.update_task_next_run_at
                      (on_tasks (update_task_next_run_at task.id next)))
                  (λ w. refl)
                  (λ next.
                    change-Keeps task.id faults.update_task_next_run_at
                      (λ (row : TaskRow). record row { next_run_at = next }) (λ r. refl) ne)
                  w)
          ])

  module _ (faults : Faults) (trim : Text → Text) (cron : Text → Result Text)
      (to_json : DryRunPreview → Option Text) (display : CoreError → Text) (duration_ms : ℤ)
      (now : Text) where
    pub open_log-Keeps :
        (task : TaskRow) (dry_run : Bool) → Keeps (open_log faults to_json task dry_run)
    unfolding open_log
    open_log-Keeps task dry_run w = ground arith

    settle-Keeps :
        (id : ℕ) (status : Text) (next : Option Text)
        → j ≢ id
        → Keeps (settle faults now id status next)
    unfolding settle update_task_status update_task_run_times
    settle-Keeps id status next ne =
        bind-Keeps (call faults.update_task_status (on_tasks (update_task_status id status)))
          (λ _. call faults.update_task_run_times (on_tasks (update_task_run_times id now next)))
          (change-Keeps id faults.update_task_status (set_status status) (λ r. refl) ne)
          (λ _.
            change-Keeps id faults.update_task_run_times (set_run_times now next) (λ r. refl) ne)

    fail-Keeps :
        (task : TaskRow) (e : CoreError)
        → j ≢ task.id
        → Keeps (
            call faults.update_task_status (on_tasks (change task.id (set_status (codes "error"))))
            >>= λ _. lift {A = Unit {0}} (err e))
    fail-Keeps task e ne =
        bind-Keeps
          (call faults.update_task_status (on_tasks (change task.id (set_status (codes "error")))))
          (λ _. lift (err e))
          (change-Keeps task.id faults.update_task_status (set_status (codes "error")) (λ r. refl)
            ne)
          (λ _ w. refl)

    abandon-Keeps :
        (task : TaskRow) (log_id : Option ℕ) (e : CoreError)
        → j ≢ task.id
        → Keeps (abandon faults trim cron to_json display duration_ms now task log_id e)
    unfolding abandon update_task_status close_log
    abandon-Keeps task none e ne w = fail-Keeps task e ne w
    abandon-Keeps task (some id) e ne w =
        fail-Keeps task e ne _
        ∙ ap (λ t. get_task t j)
            (close_log-tasks faults (some id) task.id
              (failed_log duration_ms (codes "error: invalid cron expression")) w)

    complete-Keeps :
        (task : TaskRow) (dry_run : Bool) (log_id : Option ℕ) (next : Option Text)
        (result : Result Counts)
        → j ≢ task.id
        → Keeps (
            complete faults trim cron to_json display duration_ms now task dry_run log_id next
              result)
    unfolding complete
    complete-Keeps task dry_run log_id next (ok c) ne w =
        settle-Keeps task.id (codes "idle") next ne _
        ∙ ap (λ t. get_task t j)
            (close_log-tasks faults log_id task.id (completed_log to_json duration_ms dry_run c) w)
    complete-Keeps task dry_run log_id next (err e) ne w =
        bind-Keeps (settle faults now task.id (codes "error") next) (λ _. lift (err e))
          (settle-Keeps task.id (codes "error") next ne) (λ _ w. refl) _
        ∙ ap (λ t. get_task t j)
            (close_log-tasks faults log_id task.id
              (failed_log duration_ms (codes "error: " ++ display e)) w)

    finish-Keeps :
        (task : TaskRow) (dry_run : Bool) (log_id : Option ℕ) (result : Result Counts)
        → j ≢ task.id
        → Keeps (finish faults trim cron to_json display duration_ms now task dry_run log_id result)
    unfolding finish
    finish-Keeps task dry_run log_id result ne w = elim (Result-cases (next_run trim cron task)) [
      | inl (next, e) ↦ rw (e, finish) (complete-Keeps task dry_run log_id next result ne w)
      | inr (x, e) ↦ rw (e, finish) (abandon-Keeps task log_id x ne w)
    ]

    module _
        (run : TaskRow
          → Bool
          → Option ℕ
          → S
          → List WriteOp
          → S × List WriteOp × Result Counts) where
      run_marked-Keeps :
          (task : TaskRow) (dry_run : Bool)
          → j ≢ task.id
          → Keeps (run_marked faults trim cron to_json display duration_ms now run task dry_run)
      unfolding run_marked
      run_marked-Keeps task dry_run ne =
          bind-Keeps (open_log faults to_json task dry_run)
            (λ (log_id : Option ℕ) (w : World S).
              let (rest, sent, result) = run task dry_run log_id w.rest w.sent in
              finish faults trim cron to_json display duration_ms now task dry_run log_id result
                (record w { rest = rest; sent = sent }))
            (open_log-Keeps task dry_run)
            (λ log_id w.
              finish-Keeps task dry_run log_id (run task dry_run log_id w.rest w.sent).2 ne _)

      trigger-Keeps :
          (id : ℕ) (task : TaskRow) (dry_run : Bool)
          → task.id ≡ id
          → j ≢ id
          → Keeps (trigger faults trim cron to_json display duration_ms now run id task dry_run)
      unfolding trigger try_mark_task_running
      trigger-Keeps id task dry_run same ne w =
          let other : j ≢ task.id = λ e. ne (e ∙ same) in
          let marked : World S = record w { tasks = (try_mark_task_running id w.tasks).0 } in
          let kept =
            get_task-change_other id j (set_status (codes "running")) w.tasks (λ r. refl) ne in
          elim (Option-cases faults.try_mark_task_running) [
            | inr (e, y) ↦ rw (y, trigger) refl
            | inl y ↦ elim (Bool-cases (startable id w.tasks)) [
              | inl z ↦ rw (y, z, trigger) (run_marked-Keeps task dry_run other marked ∙ kept)
              | inr z ↦ rw (y, z, trigger) (skip-Keeps faults trim cron task other marked ∙ kept)
            ]
          ]

      -- Whatever a run does and whichever calls on the database and the writer fail: an execution keeps
      -- the row of every other task.
      pub execute-others :
          (id : ℕ) (dry_run : Bool) (w : World S)
          → j ≢ id
          → get_task
              (execute faults trim cron to_json display duration_ms now run id dry_run w).0.tasks
              j
            ≡ get_task w.tasks j
      unfolding execute
      execute-others id dry_run w ne = elim (Option-cases (get_task w.tasks id)) [
        | inl none_found ↦ ground arith
        | inr (task, e) ↦
            ground (arith, trigger-Keeps id task dry_run (get_task-id w.tasks id task e) ne w)
      ]
