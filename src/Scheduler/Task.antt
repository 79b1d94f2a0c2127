-- ===== src/Scheduler/Task.antt =====
-- crates/core/src/scheduler/task.rs. The repository is an interface over a state of its own type;
-- `cron` is the croner crate at the present time, and `trim` is `str::trim`.
pub mod Validation
pub mod Store
use pt_reseeder.Base.{
  ℕ, Bool, true, false, ◌&&◌, Option, none, some, List, [], ◌∷◌, ◌++◌, if◌then◌else◌, is_empty,
  is_some, not,
}
use pt_reseeder.Base.Int.{pos}
use pt_reseeder.Base.Text.{Text, codes, text_eq}
use pt_reseeder.Error.{
  CoreError, scheduler, SchedulerError, task_running, task_not_found, invalid_config, invalid_cron,
  Result, ok, err,
}
use pt_reseeder.Db.Tasks.{TaskRow}

pub record TaskCreateRequest : Type 0 where
  pub name : Text
  pub task_type : Text
  pub trigger_type : Text
  pub cron_expression : Option Text
  pub destination_downloader_id : Option ℕ
  pub config_json : Option Text
  pub folder_ids : List ℕ
  pub site_ids : List ℕ
  pub source_downloader_ids : List ℕ

-- The calls on `crate::db::repo::Repository`: each may change the database, and may fail.
pub record TaskRepo (S : Type 0) : Type 0 where
  pub create_task : TaskCreateRequest → S → S × Result ℕ
  pub get_task : ℕ → S → Result (Option TaskRow)
  pub update_task : ℕ → TaskCreateRequest → S → S × Result (Unit {0})
  pub delete_task : ℕ → S → S × Result (Unit {0})
  pub set_task_folders : ℕ → List ℕ → S → S × Result (Unit {0})
  pub set_task_sites : ℕ → List ℕ → S → S × Result (Unit {0})
  pub set_task_source_downloaders : ℕ → List ℕ → S → S × Result (Unit {0})
  pub update_task_next_run_at : ℕ → Option Text → S → S × Result (Unit {0})

-- The `?` operator on calls that change the database.
infixl 5 ◌>>=◌
abbrev pub ◌>>=◌ {ℓ} :
    {S A B : Type ℓ} → (S → S × Result A) → (A → S → S × Result B) → S → S × Result B
◌>>=◌ m f s = let (s', answer) = m s in elim answer [ ok a ↦ f a s' | err e ↦ (s', err e) ]

abbrev pub lift {ℓ} : {S A : Type ℓ} → Result A → S → S × Result A
lift r s = (s, r)

abbrev pub config_error : Text → CoreError
config_error message = scheduler (SchedulerError.invalid_config message)

module _ (trim : Text → Text) (cron : Text → Result Text) where
  unfoldable pub is_blank : Option Text → Bool
  is_blank none = true
  is_blank (some s) = is_empty (trim s)

  unfoldable pub next_run_at_for : Option Text → Result (Option Text)
  next_run_at_for none = ok none
  next_run_at_for (some expr) =
      if is_empty (trim expr)
      then ok none
      else elim (cron expr) [ ok next ↦ ok (some next) | err e ↦ err e ]

  unfoldable pub validate_kind : TaskCreateRequest → Result (Unit {0})
  validate_kind req =
      if text_eq req.task_type (codes "reseed")
      then if is_empty req.site_ids
        then err (config_error (codes "reseed tasks require at least one site"))
        else if is_empty req.source_downloader_ids && is_empty req.folder_ids
        then err (
            config_error
              (codes "reseed tasks require at least one source (folder or source downloader)"))
        else if is_some req.destination_downloader_id
        then ok tt
        else err (config_error (codes "reseed tasks require destination_downloader_id"))
      else if text_eq req.task_type (codes "repost")
      then ok tt
      else if text_eq req.task_type (codes "sync_stats")
      then ok tt
      else err (config_error (codes "unsupported task_type: " ++ req.task_type))

  unfoldable pub validate_task_request : TaskCreateRequest → Result (Unit {0})
  unfolding is_blank next_run_at_for validate_kind
  validate_task_request req =
      if text_eq req.trigger_type (codes "cron")
      then elim (next_run_at_for req.cron_expression) [
        | err e ↦ err e
        | ok _ ↦
            if is_blank req.cron_expression
            then err
                (config_error (codes "cron_expression is required when trigger_type is 'cron'"))
            else validate_kind req
      ]
      else validate_kind req

  module _ {S : Type 0} (repo : TaskRepo S) where
    -- A new task's next run is written if there is one.
    unfoldable pub schedule_new : ℕ → Option Text → S → S × Result (Unit {0})
    schedule_new id none s = (s, ok tt)
    schedule_new id (some next) s = repo.update_task_next_run_at id (some next) s

    unfoldable pub persist_associations_and_schedule :
        ℕ → TaskCreateRequest → S → S × Result (Unit {0})
    unfolding next_run_at_for schedule_new
    persist_associations_and_schedule id req = do
      _ ← repo.set_task_folders id req.folder_ids
      _ ← repo.set_task_sites id req.site_ids
      _ ← repo.set_task_source_downloaders id req.source_downloader_ids
      next ← lift (next_run_at_for req.cron_expression)
      schedule_new id next

    -- After a failure the task is deleted again, and the first error is the answer.
    unfoldable pub clean_up : ℕ → CoreError → S → S × Result ℕ
    clean_up id e s = ((repo.delete_task id s).0, err e)

    unfoldable pub create_task : TaskCreateRequest → S → S × Result ℕ
    unfolding validate_task_request persist_associations_and_schedule clean_up
    create_task req = do
      _ ← lift (validate_task_request req)
      id ← repo.create_task req
      λ s.
          let (s', answer) = persist_associations_and_schedule id req s in
          elim answer [ ok _ ↦ (s', ok id) | err e ↦ clean_up id e s' ]

    unfoldable pub get_task : ℕ → S → Result TaskRow
    get_task id s = elim (repo.get_task id s) [
      | err e ↦ err e
      | ok none ↦ err (scheduler (SchedulerError.task_not_found (pos id)))
      | ok (some row) ↦ ok row
    ]

    unfoldable pub not_running : ℕ → TaskRow → Result (Unit {0})
    not_running id row =
        if text_eq row.status (codes "running")
        then err (scheduler (SchedulerError.task_running (pos id)))
        else ok tt

    unfoldable pub update_task : ℕ → TaskCreateRequest → S → S × Result (Unit {0})
    unfolding validate_task_request get_task not_running next_run_at_for
    update_task id req = do
      _ ← lift (validate_task_request req)
      existing ← λ s. (s, get_task id s)
      _ ← lift (not_running id existing)
      _ ← repo.update_task id req
      _ ← repo.set_task_folders id req.folder_ids
      _ ← repo.set_task_sites id req.site_ids
      _ ← repo.set_task_source_downloaders id req.source_downloader_ids
      next ← lift (next_run_at_for req.cron_expression)
      repo.update_task_next_run_at id next

    unfoldable pub delete_task : ℕ → S → S × Result (Unit {0})
    unfolding get_task
    delete_task id = do _ ← λ s. (s, get_task id s); repo.delete_task id
