-- ===== src/Scheduler/Task/Validation.antt =====
-- What crates/core/src/scheduler/task.rs accepts, and what it leaves alone when it refuses.
use pt_reseeder.Base.{ℕ, true, is_some, ◌≡◌, ◌≢◌, ◌⊎◌, some, [], arith}
use pt_reseeder.Base.Int.{pos}
use pt_reseeder.Base.Text.{Text, codes, text_eq_iff}
use pt_reseeder.Error.{CoreError, scheduler, SchedulerError, Result, ok, err}
use pt_reseeder.Db.Tasks.{TaskRow}
use pt_reseeder.Scheduler.Task.{
  TaskCreateRequest, TaskRepo, validate_task_request, create_task, clean_up, get_task, update_task,
  not_running, persist_associations_and_schedule,
}

-- A reseed task is accepted exactly with a site, a source of either kind, and a destination.
abbrev pub Complete : TaskCreateRequest → Type 0
Complete req =
    (req.site_ids ≢ [])
    × ((req.source_downloader_ids ≢ []) ⊎ (req.folder_ids ≢ []))
    × (is_some req.destination_downloader_id ≡ true)

module _ (trim : Text → Text) (cron : Text → Result Text) where
  -- A reseed request that is accepted names a site, a source (a folder or a downloader) and a
  -- destination, whatever triggers it.
  pub validate-Complete :
      (req : TaskCreateRequest)
      → req.task_type ≡ codes "reseed"
      → validate_task_request trim cron req ≡ ok tt
      → Complete req
  unfolding validate_task_request
  validate-Complete req kind e = ground (arith, text_eq_iff req.task_type (codes "reseed"))

  module _ {S : Type 0} (repo : TaskRepo S) where
    -- A request that is not valid is answered with the same error by creation and by update, and
    -- reaches no call that changes the database.
    pub invalid_changes_nothing :
        (req : TaskCreateRequest) (id : ℕ) (s : S) (e : CoreError)
        → validate_task_request trim cron req ≡ err e
        → (create_task trim cron repo req s ≡ (s, err e))
          × (update_task trim cron repo id req s ≡ (s, err e))
    unfolding create_task update_task
    invalid_changes_nothing req id s e h = (rw h, rw h)

    -- A running task is not edited: a valid update of it is refused, and changes nothing.
    pub running_changes_nothing :
        (req : TaskCreateRequest) (id : ℕ) (s : S) (row : TaskRow)
        → validate_task_request trim cron req ≡ ok tt
        → repo.get_task id s ≡ ok (some row)
        → row.status ≡ codes "running"
        → update_task trim cron repo id req s
          ≡ (s, err (scheduler (SchedulerError.task_running (pos id))))
    unfolding update_task get_task not_running
    running_changes_nothing req id s row h g r =
        ground (arith, text_eq_iff row.status (codes "running"))

    -- When the associations of a new task cannot be written, the task is deleted again, and the
    -- caller gets the error that came first, also when the deletion fails.
    pub failed_create_cleans_up :
        (req : TaskCreateRequest) (id : ℕ) (s s₁ s₂ : S) (e : CoreError)
        → validate_task_request trim cron req ≡ ok tt
        → repo.create_task req s ≡ (s₁, ok id)
        → persist_associations_and_schedule trim cron repo id req s₁ ≡ (s₂, err e)
        → create_task trim cron repo req s ≡ ((repo.delete_task id s₂).0, err e)
    unfolding create_task clean_up
    failed_create_cleans_up req id s s₁ s₂ e h c p = ground arith

    -- When they are written, the new task is the answer.
    pub persisted_create :
        (req : TaskCreateRequest) (id : ℕ) (s s₁ s₂ : S)
        → validate_task_request trim cron req ≡ ok tt
        → repo.create_task req s ≡ (s₁, ok id)
        → persist_associations_and_schedule trim cron repo id req s₁ ≡ (s₂, ok tt)
        → create_task trim cron repo req s ≡ (s₂, ok id)
    unfolding create_task
    persisted_create req id s s₁ s₂ h c p = ground arith

    -- When the row cannot be inserted, nothing else is tried.
    pub refused_create :
        (req : TaskCreateRequest) (s s₁ : S) (e : CoreError)
        → validate_task_request trim cron req ≡ ok tt
        → repo.create_task req s ≡ (s₁, err e)
        → create_task trim cron repo req s ≡ (s₁, err e)
    unfolding create_task
    refused_create req s s₁ e h c = ground arith
