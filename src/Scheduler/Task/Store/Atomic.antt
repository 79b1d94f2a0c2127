-- ===== src/Scheduler/Task/Store/Atomic.antt =====
-- crates/core/src/scheduler/task.rs over the statements of db/repo.rs: a creation that fails.
use pt_reseeder.Base.{
  ℕ, ◌+◌, ◌<◌, ◌≡◌, refl, sym, ap, subst, ◌∙◌, ==_iff, Option, none, some, List, [], ◌∷◌, ◌++◌,
  append-nil, map, All, arith, Option-cases, inl, inr,
}
use pt_reseeder.Base.Text.{Text}
use pt_reseeder.Error.{CoreError, Result, ok, err}
use pt_reseeder.Error.Results.{Result-cases, err-ne-ok}
use pt_reseeder.Db.Tasks.{TaskRow, change, update_task_next_run_at}
use pt_reseeder.Scheduler.Task.{
  TaskCreateRequest, TaskRepo, ◌>>=◌, lift, validate_task_request, next_run_at_for, schedule_new,
  persist_associations_and_schedule, clean_up, create_task,
}
use pt_reseeder.Scheduler.Task.Validation.{
  failed_create_cleans_up, persisted_create, refused_create,
}
use pt_reseeder.Scheduler.Task.Store.{
  Links, TaskStore, Refusals, attempt, unlink, set_task_assoc, new_row, remove_row, delete_row,
  store_repo,
}

-- The next id is not in use.
pub record IsFresh (s : TaskStore) : Type 0 where
  pub tasks : All (λ (row : TaskRow). row.id < s.next_id) s.tasks
  pub folders : All (λ (l : ℕ × ℕ). l.0 < s.next_id) s.task_folders
  pub sites : All (λ (l : ℕ × ℕ). l.0 < s.next_id) s.task_sites
  pub source_downloaders : All (λ (l : ℕ × ℕ). l.0 < s.next_id) s.task_source_downloaders

unlink-append : (id : ℕ) (ls ms : Links) → unlink id (ls ++ ms) ≡ unlink id ls ++ unlink id ms
unfolding unlink
unlink-append id [] ms = refl
unlink-append id ((t, c) ∷ ls) ms = ground (arith, unlink-append id ls ms)

unlink-own : (id : ℕ) (children : List ℕ) → unlink id (map (λ child. (id, child)) children) ≡ []
unfolding unlink
unlink-own id [] = refl
unlink-own id (c ∷ cs) = ground (arith, ==_iff id id, unlink-own id cs)

unlink-twice : (id : ℕ) (ls : Links) → unlink id (unlink id ls) ≡ unlink id ls
unfolding unlink
unlink-twice id [] = refl
unlink-twice id ((t, c) ∷ ls) = ground (arith, unlink-twice id ls)

unlink-set_task_assoc :
    (id : ℕ) (children : List ℕ) (ls : Links)
    → unlink id (set_task_assoc id children ls) ≡ unlink id ls
unfolding set_task_assoc
unlink-set_task_assoc id children ls =
    unlink-append id (unlink id ls) (map (λ child. (id, child)) children)
    ∙ ap (λ rest. unlink id (unlink id ls) ++ rest) (unlink-own id children)
    ∙ append-nil (unlink id (unlink id ls))
    ∙ unlink-twice id ls

unlink-fresh : (id : ℕ) (ls : Links) → All (λ (l : ℕ × ℕ). l.0 < id) ls → unlink id ls ≡ ls
unfolding unlink
unlink-fresh id [] all = refl
unlink-fresh id ((t, c) ∷ ls) (lt, all) = ground (arith, ==_iff t id, unlink-fresh id ls all)

remove_row-fresh :
    (id : ℕ) (row : TaskRow) (rows : List TaskRow)
    → row.id ≡ id
    → All (λ (r : TaskRow). r.id < id) rows
    → remove_row id (rows ++ row ∷ []) ≡ rows
unfolding remove_row
remove_row-fresh id row [] e all = ground (arith, ==_iff row.id id)
remove_row-fresh id row (r ∷ rows) e (lt, all) =
    ground (arith, ==_iff r.id id, remove_row-fresh id row rows e all)

remove_row-change :
    (id : ℕ) (f : TaskRow → TaskRow) (rows : List TaskRow)
    → ((row : TaskRow) → (f row).id ≡ row.id)
    → remove_row id (change id f rows) ≡ remove_row id rows
unfolding remove_row change
remove_row-change id f [] k = refl
remove_row-change id f (r ∷ rows) k =
    ground (arith, k r, ==_iff r.id id, ==_iff (f r).id id, remove_row-change id f rows k)

-- A call that changes nothing but the task `id` and what belongs to it.
abbrev Spares : {A : Type 0} → ℕ → (TaskStore → TaskStore × A) → Type 0
Spares id m = (s : TaskStore) → delete_row id (m s).0 ≡ delete_row id s

attempt-Spares :
    (id : ℕ) (refusal : Option CoreError) (f : TaskStore → TaskStore)
    → ((s : TaskStore) → delete_row id (f s) ≡ delete_row id s)
    → Spares id (attempt refusal f)
attempt-Spares id none f k s = k s
attempt-Spares id (some e) f k s = refl

bind-Spares :
    {A B : Type 0} (id : ℕ) (m : TaskStore → TaskStore × Result A)
    (f : A → TaskStore → TaskStore × Result B)
    → Spares id m
    → ((a : A) → Spares id (f a))
    → Spares id (m >>= f)
bind-Spares id m f km kf s =
    let (s', answer) = m s in
    elim (Result-cases answer) [
      | inl (a, e) ↦ rw (e, ◌>>=◌) (kf a s' ∙ km s)
      | inr (x, e) ↦ rw (e, ◌>>=◌) (km s)
    ]

module _ (trim : Text → Text) (cron : Text → Result Text) (refusals : Refusals) where
  abbrev repo : TaskRepo TaskStore
  repo = store_repo refusals

  folders-Spares : (id : ℕ) (ids : List ℕ) → Spares id (repo.set_task_folders id ids)
  unfolding store_repo delete_row
  folders-Spares id ids = attempt-Spares id (refusals.folders ids) _ (λ s.
      ap (λ ls. record (delete_row id s) { task_folders = ls })
        (unlink-set_task_assoc id ids s.task_folders))

  sites-Spares : (id : ℕ) (ids : List ℕ) → Spares id (repo.set_task_sites id ids)
  unfolding store_repo delete_row
  sites-Spares id ids = attempt-Spares id (refusals.sites ids) _ (λ s.
      ap (λ ls. record (delete_row id s) { task_sites = ls })
        (unlink-set_task_assoc id ids s.task_sites))

  sources-Spares : (id : ℕ) (ids : List ℕ) → Spares id (repo.set_task_source_downloaders id ids)
  unfolding store_repo delete_row
  sources-Spares id ids = attempt-Spares id (refusals.source_downloaders ids) _ (λ s.
      ap (λ ls. record (delete_row id s) { task_source_downloaders = ls })
        (unlink-set_task_assoc id ids s.task_source_downloaders))

  schedule-Spares : (id : ℕ) (next : Option Text) → Spares id (schedule_new trim cron repo id next)
  unfolding schedule_new store_repo delete_row update_task_next_run_at
  schedule-Spares id none s = refl
  schedule-Spares id (some next) s =
      attempt-Spares id refusals.next_run_at _
        (λ s.
          ap (λ rows. record (delete_row id s) { tasks = rows })
            (remove_row-change id (λ (row : TaskRow). record row { next_run_at = some next })
              s.tasks (λ r. refl)))
        s

  persist-Spares :
      (id : ℕ) (req : TaskCreateRequest)
      → Spares id (persist_associations_and_schedule trim cron repo id req)
  unfolding persist_associations_and_schedule
  persist-Spares id req =
      let timed : TaskStore → TaskStore × Result (Unit {0}) =
        lift (next_run_at_for trim cron req.cron_expression) >>= schedule_new trim cron repo id in
      let sourced : TaskStore → TaskStore × Result (Unit {0}) =
        repo.set_task_source_downloaders id req.source_downloader_ids >>= λ _. timed in
      let sited : TaskStore → TaskStore × Result (Unit {0}) =
        repo.set_task_sites id req.site_ids >>= λ _. sourced in
      bind-Spares id (repo.set_task_folders id req.folder_ids) (λ _. sited)
        (folders-Spares id req.folder_ids)
        (λ _.
          bind-Spares id (repo.set_task_sites id req.site_ids) (λ _. sourced)
            (sites-Spares id req.site_ids)
            (λ _.
              bind-Spares id (repo.set_task_source_downloaders id req.source_downloader_ids)
                (λ _. timed) (sources-Spares id req.source_downloader_ids)
                (λ _.
                  bind-Spares id (lift (next_run_at_for trim cron req.cron_expression))
                    (schedule_new trim cron repo id) (λ s. refl)
                    (λ next. schedule-Spares id next))))

  -- The tables of `t` have the rows of those of `s`.
  abbrev SameRows : TaskStore → TaskStore → Type 0
  SameRows s t =
      (t.tasks ≡ s.tasks)
      × (t.task_folders ≡ s.task_folders)
      × (t.task_sites ≡ s.task_sites)
      × (t.task_source_downloaders ≡ s.task_source_downloaders)

  delete-SameRows :
      (req : TaskCreateRequest) (s : TaskStore)
      → IsFresh s
      → SameRows s (
          delete_row s.next_id
            (record s { tasks = s.tasks ++ new_row s.next_id req ∷ []; next_id = s.next_id + 1 }))
  unfolding delete_row new_row
  delete-SameRows req s fresh = (
    remove_row-fresh s.next_id (new_row s.next_id req) s.tasks refl fresh.tasks,
    unlink-fresh s.next_id s.task_folders fresh.folders,
    unlink-fresh s.next_id s.task_sites fresh.sites,
    unlink-fresh s.next_id s.task_source_downloaders fresh.source_downloaders,
  )

  -- Whatever the database refuses but the deletion: a creation that fails, where the next id is not in
  -- use, leaves the rows of the tasks and of their associations as they were.
  pub create_task-SameRows :
      (req : TaskCreateRequest) (s : TaskStore) (e : CoreError)
      → IsFresh s
      → refusals.delete ≡ none
      → (create_task trim cron (store_repo refusals) req s).1 ≡ err e
      → SameRows s (create_task trim cron (store_repo refusals) req s).0
  unfolding create_task store_repo clean_up
  create_task-SameRows req s e fresh deletes failed =
      elim (Result-cases (validate_task_request trim cron req)) [
        | inr (x, v) ↦ rw (v, create_task) (refl, refl, refl, refl)
        | inl (v, valid) ↦ elim (Option-cases (refusals.create req)) [
          | inr (x, c) ↦
              subst (λ r. SameRows s r.0)
                (sym (refused_create trim cron repo req s s x valid (rw c refl)))
                (refl, refl, refl, refl)
          | inl c ↦
              let created : TaskStore = record s {
                tasks = s.tasks ++ new_row s.next_id req ∷ [];
                next_id = s.next_id + 1;
              } in
              let (s', answer) =
                persist_associations_and_schedule trim cron repo s.next_id req created in
              let inserted : repo.create_task req s ≡ (created, ok s.next_id) = rw c refl in
              elim (Result-cases answer) [
                | inl (w, p) ↦ absurd (
                    err-ne-ok e s.next_id (
                      sym failed
                      ∙ ap (λ r. r.1)
                          (persisted_create trim cron repo req s.next_id s created s' valid inserted
                            (ap (λ a. (s', a)) p))))
                | inr (x, p) ↦
                    let gone = persist-Spares s.next_id req created in
                    let same = delete-SameRows req s fresh in
                    let deleted : (repo.delete_task s.next_id s').0 ≡ delete_row s.next_id s' =
                      rw deletes refl in
                    let cleaned =
                      failed_create_cleans_up trim cron repo req s.next_id s created s' x valid
                        inserted (ap (λ a. (s', a)) p) in
                    subst (SameRows s) (sym (ap (λ r. r.0) cleaned ∙ deleted ∙ gone)) same
              ]
        ]
      ]
