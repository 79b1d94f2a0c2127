-- ===== src/Db/Tasks/Updates.antt =====
-- crates/core/src/db/repo.rs: what the statements on `tasks` leave of a row.
use pt_reseeder.Base.{
  ℕ, ◌≡◌, ◌≢◌, refl, ap, ◌∙◌, true, false, ==_iff, some, List, [], ◌∷◌, map, arith, Bool-cases, inl,
  inr,
}
use pt_reseeder.Base.Text.{codes, text_eq}
use pt_reseeder.Db.Tables.{TaskLog}
use pt_reseeder.Db.Tasks.{
  TaskRow, is_running, get_task, set_status, change, startable, try_mark_task_running,
  interrupt_task, recover_interrupted_tasks,
}

-- `f` keeps the id of a row.
abbrev pub KeepsId : (TaskRow → TaskRow) → Type 0
KeepsId f = (row : TaskRow) → (f row).id ≡ row.id

pub get_task-id :
    (rows : List TaskRow) (id : ℕ) (row : TaskRow) → get_task rows id ≡ some row → row.id ≡ id
unfolding get_task
get_task-id [] id row h = ground arith
get_task-id (r ∷ rows) id row h = ground (arith, ==_iff r.id id, get_task-id rows id row)

pub get_task-change_same :
    (id : ℕ) (f : TaskRow → TaskRow) (rows : List TaskRow) (row : TaskRow)
    → KeepsId f
    → get_task rows id ≡ some row
    → get_task (change id f rows) id ≡ some (f row)
unfolding get_task change
get_task-change_same id f [] row k h = ground arith
get_task-change_same id f (r ∷ rows) row k h =
    ground (arith, k r, ==_iff r.id id, ==_iff (f r).id id, get_task-change_same id f rows row k)

pub get_task-change_other :
    (id j : ℕ) (f : TaskRow → TaskRow) (rows : List TaskRow)
    → KeepsId f
    → j ≢ id
    → get_task (change id f rows) j ≡ get_task rows j
unfolding get_task change
get_task-change_other id j f [] k ne = refl
get_task-change_other id j f (r ∷ rows) k ne = ground (
  arith,
  k r,
  ==_iff r.id id,
  ==_iff r.id j,
  ==_iff (f r).id j,
  get_task-change_other id j f rows k ne,
)

get_task-map :
    (f : TaskRow → TaskRow) (rows : List TaskRow) (id : ℕ) (row : TaskRow)
    → KeepsId f
    → get_task rows id ≡ some row
    → get_task (map f rows) id ≡ some (f row)
unfolding get_task
get_task-map f [] id row k h = ground arith
get_task-map f (r ∷ rows) id row k h =
    ground (arith, k r, ==_iff r.id id, ==_iff (f r).id id, get_task-map f rows id row k)

interrupt_task-rests : (row : TaskRow) → is_running (interrupt_task row).status ≡ false
unfolding interrupt_task text_eq
interrupt_task-rests row = elim (Bool-cases (is_running row.status)) [
  | inl r ↦ rw (r, interrupt_task) refl
  | inr r ↦ rw (r, interrupt_task) r
]

-- The recovery changes the status of a row only.
running-interrupt_task :
    (row : TaskRow)
    → set_status (codes "running") (interrupt_task row) ≡ set_status (codes "running") row
unfolding interrupt_task
running-interrupt_task row = elim (Bool-cases (is_running row.status)) [
  | inl r ↦ rw (r, interrupt_task) refl
  | inr r ↦ rw (r, interrupt_task) refl
]

-- After the recovery at the start of the server, the next trigger of a task that exists finds it
-- startable, whatever state a crash left it in, and its row is then marked as running and otherwise as
-- it was before the crash.
pub recovered_startable :
    (rows : List TaskRow) (logs : List TaskLog) (id : ℕ) (row : TaskRow)
    → get_task rows id ≡ some row
    → (let (marked, started) = try_mark_task_running id (recover_interrupted_tasks rows logs).0 in
        (started ≡ true) × (get_task marked id ≡ some (set_status (codes "running") row)))
unfolding try_mark_task_running recover_interrupted_tasks startable interrupt_task
recovered_startable rows logs id row h =
    let found = get_task-map interrupt_task rows id row (λ r. ground arith) h in
    (
      ground (arith, found, interrupt_task-rests row),
      get_task-change_same id (set_status (codes "running")) (map interrupt_task rows)
            (interrupt_task row) (λ r. refl) found
          ∙ ap some (running-interrupt_task row),
    )
