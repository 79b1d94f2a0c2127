-- ===== src/Tests/Executor.antt =====
-- crates/core/src/scheduler/executor.rs at concrete inputs.
use pt_reseeder.Base.{
  ℕ, ◌+◌, ◌≤◌, ◌≡◌, refl, Bool, true, false, Option, none, some, List, [], ◌∷◌, length,
  if◌then◌else◌, arith,
}
use pt_reseeder.Base.Int.{pos}
use pt_reseeder.Base.Text.{Text, codes, text_eq}
use pt_reseeder.Error.{CoreError, Result, ok, err, internal}
use pt_reseeder.Db.Tables.{Tables, WriteOp, UserStatsRow, insert_task_log}
use pt_reseeder.Db.Tasks.{
  TaskRow, get_task, startable, try_mark_task_running, recover_interrupted_tasks,
}
use pt_reseeder.Db.Tasks.Updates.{recovered_startable}
use pt_reseeder.Engine.DryRun.{DryRunPreview}
use pt_reseeder.Site.RateLimiter
use pt_reseeder.Scheduler.Executor.{World, Faults, Counts, execute, skipped_log}
use pt_reseeder.Scheduler.Executor.Others.{execute-others}
use pt_reseeder.Scheduler.Executor.Status.{Comes, final_status}
use pt_reseeder.Scheduler.Executor.Skips.{IsRunning, execute-skip, execute_lost_log}
use pt_reseeder.Scheduler.Executor.Sources.{FolderRow, Sources, collect_folders}
use pt_reseeder.Scheduler.Executor.Jobs.{run_task, plain_counts, execute_sync_stats, Snapshots}
use pt_reseeder.Scheduler.Executor.Jobs.Synced.{sync_stats-Counted}

abbrev task : ℕ → Text → Text → TaskRow
task id kind status = record {
  id = id;
  name = codes "t";
  task_type = kind;
  trigger_type = codes "manual";
  cron_expression = none;
  status = status;
  destination_downloader_id = none;
  last_run_at = none;
  next_run_at = none;
  run_count = none;
  config_json = none;
}

abbrev no_tables : Tables
no_tables = record {
  reseed_history = [];
  pieces_cache = [];
  task_logs = [];
  next_log_id = 1;
  user_stats = [];
}

-- A reseed task 1, which is idle, and a statistics task 2, which runs. The state of the runs counts them.
abbrev world : World ℕ
world = record {
  tasks =
      task 1 (codes "reseed") (codes "idle") ∷ task 2 (codes "sync_stats") (codes "running") ∷ [];
  tables = no_tables;
  sent = [];
  rest = 0;
}

abbrev no_faults : Faults
no_faults = record {
  get_task = none;
  try_mark_task_running = none;
  insert_task_log = none;
  send = none;
  update_task_status = none;
  update_task_next_run_at = none;
  update_task_run_times = none;
}

abbrev keep_text : Text → Text
keep_text t = t

abbrev no_cron : Text → Result Text
no_cron t = err (internal t)

abbrev no_json : DryRunPreview → Option Text
no_json p = none

abbrev no_display : CoreError → Text
no_display e = []

-- A reseed run fails, and the others succeed.
abbrev run : TaskRow → Bool → Option ℕ → ℕ → List WriteOp → ℕ × List WriteOp × Result Counts
run =
    run_task (λ t dry_run log_id n sent. (n + 1, sent, err (internal (codes "down"))))
      (λ t n. (n + 1, ok (plain_counts 0 0 0))) (λ t n. (n + 1, ok (plain_counts 0 0 0)))

running_Comes : Comes no_faults 2 false world (task 2 (codes "sync_stats") (codes "running"))
unfolding get_task text_eq
running_Comes = record { found = refl; allowed = refl; reads = refl; marks = refl }

-- The reseed run above fails.
failed_run_status :
    final_status
      (execute no_faults keep_text no_cron no_json no_display
        (pos 5)
        (codes "now")
        run
        1
        false
        world).1
    ≡ codes "error"
unfolding execute text_eq startable run_task
failed_run_status = refl

execute-others_example :
    get_task
      (execute no_faults keep_text no_cron no_json no_display
        (pos 5)
        (codes "now")
        run
        1
        false
        world).0.tasks
      2
    ≡ some (task 2 (codes "sync_stats") (codes "running"))
unfolding get_task
execute-others_example =
    execute-others 2 no_faults keep_text no_cron no_json no_display (pos 5) (codes "now") run 1
      false world (omega arith)

execute-skip_example :
    let w' : World ℕ =
      (execute no_faults keep_text no_cron no_json no_display
        (pos 5)
        (codes "now")
        run
        2
        false
        world).0 in
    (w'.rest ≡ 0) × (w'.sent ≡ insert_task_log 2 skipped_log ∷ []) × IsRunning 2 w'.tasks
unfolding text_eq
execute-skip_example =
    execute-skip no_faults keep_text no_cron no_json no_display (pos 5) (codes "now") run 2 false
      world (task 2 (codes "sync_stats") (codes "running")) running_Comes refl refl

abbrev no_log : Faults
no_log = record no_faults { insert_task_log = some (internal (codes "disk full")) }

lost_log_Comes : Comes no_log 1 false world (task 1 (codes "reseed") (codes "idle"))
unfolding get_task text_eq
lost_log_Comes = record { found = refl; allowed = refl; reads = refl; marks = refl }

execute_lost_log_example :
    let (w', answer) =
      execute no_log keep_text no_cron no_json no_display (pos 5) (codes "now") run 1 false world in
    (answer ≡ err (internal (codes "disk full"))) × (w'.rest ≡ 0) × IsRunning 1 w'.tasks
unfolding text_eq
execute_lost_log_example =
    execute_lost_log no_log keep_text no_cron no_json no_display (pos 5) (codes "now") run 1 false
      world (task 1 (codes "reseed") (codes "idle")) (internal (codes "disk full")) lost_log_Comes
      refl refl refl

recovered_startable_example :
    (let (marked, started) = try_mark_task_running 2 (recover_interrupted_tasks world.tasks []).0 in
      (started ≡ true) × (get_task marked 2 ≡ some (task 2 (codes "sync_stats") (codes "running"))))
unfolding get_task
recovered_startable_example =
    recovered_startable world.tasks [] 2 (task 2 (codes "sync_stats") (codes "running")) refl

abbrev shared_folder : ℕ → Result (Option FolderRow)
shared_folder id = ok (
    some (record {
      id = id;
      path = [];
      scan_mode = codes "downloader";
      downloader_id = some 7;
      enabled = true;
    }))

abbrev no_sources : Sources
no_sources = record { scan_folders = []; source_downloader_ids = 4 ∷ []; scanned = [] }

two_folders_once :
    (collect_folders shared_folder (λ _. none) (1 ∷ 2 ∷ []) no_sources).0.source_downloader_ids
    ≡ 4 ∷ 7 ∷ []
unfolding collect_folders text_eq
two_folders_once = refl

abbrev no_stats : UserStatsRow
no_stats = record {
  site_id = 0;
  uploaded = none;
  downloaded = none;
  ratio = none;
  bonus = none;
  user_class = none;
  seeding_count = none;
  leeching_count = none;
  seeding_size = none;
  upload_time_seconds = none;
}

-- The site 1 answers, and no other is registered.
abbrev one_site : Snapshots
one_site = record {
  sites = λ i.
      if text_eq (i ∷ []) (1 ∷ [])
      then some (record { rate_limiter = RateLimiter.new 1000 1; user_info = some (ok no_stats) })
      else none;
  user_stats = [];
}

sync_stats-Counted_example :
    let (s', result) =
      execute_sync_stats (λ _. false) (λ _. none) 0 (ok []) (1 ∷ 2 ∷ []) one_site in
    (succeeded : ℕ) × (failed : ℕ) × (result ≡ ok (plain_counts 2 succeeded failed))
    × (succeeded + failed ≤ 2)
    × (length s'.user_stats ≡ 0 + succeeded)
sync_stats-Counted_example = sync_stats-Counted (λ _. false) (λ _. none) 0 [] (1 ∷ 2 ∷ []) one_site

one_done_one_failed :
    (execute_sync_stats (λ _. false) (λ _. none) 0 (ok []) (1 ∷ 2 ∷ []) one_site).1
    ≡ ok (plain_counts 2 1 1)
unfolding execute_sync_stats text_eq RateLimiter.new RateLimiter.is_circuit_open
one_done_one_failed = refl
