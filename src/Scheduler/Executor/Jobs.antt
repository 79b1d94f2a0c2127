-- ===== src/Scheduler/Executor/Jobs.antt =====
-- crates/core/src/scheduler/executor.rs: repost and statistics tasks, and what `execute` runs by the type
-- of a task. The adapters, JSON and the clock are parameters.
pub mod Synced
use pt_reseeder.Base.{
  ℕ, ◌+◌, Bool, true, false, ◌==◌, if◌then◌else◌, Option, none, some, List, [], ◌∷◌, ◌++◌, length,
  is_empty, ◌⊎◌,
}
use pt_reseeder.Base.Int.{ℤ, pos}
use pt_reseeder.Base.Text.{Text, codes, text_eq}
use pt_reseeder.Error.{CoreError, Result, ok, err}
use pt_reseeder.Db.Tables.{WriteOp, UserStatsRow}
use pt_reseeder.Db.Tasks.{TaskRow}
use pt_reseeder.Site.RateLimiter.{Limiter, acquire, record_success, record_error}
use pt_reseeder.Repost.Queue.{Rows}
use pt_reseeder.Repost.Submit.{Handle, submit_batch}
use pt_reseeder.Scheduler.Executor.{Counts, executor_failure}
use pt_reseeder.Scheduler.Executor.Reseed.{parse_task_config}

pub record RepostTaskConfig : Type 0 where
  pub entry_ids : Option (List ℕ)
  pub limit : Option ℕ

unfoldable pub plain_counts : ℕ → ℕ → ℕ → Counts
plain_counts matched succeeded failed = record {
  matched = pos matched;
  succeeded = pos succeeded;
  failed = pos failed;
  preview = none;
}

module _ {Adapted : Type 0} (from_json : Text → Result Adapted) (display : CoreError → Text)
    (registry : ℕ → Option (Handle Adapted)) (now_ms : ℕ) (now : Text) (trim : Text → Text)
    (config_from_json : Text → RepostTaskConfig ⊎ Text) where
  -- `sites` is the answer of `get_task_sites`.
  unfoldable pub execute_repost : Result (List ℕ) → TaskRow → Rows → Rows × Result Counts
  unfolding parse_task_config submit_batch plain_counts
  execute_repost sites task rows = elim sites [
    | err e ↦ (rows, err e)
    | ok site_ids ↦
        if is_empty site_ids
        then (rows, err (executor_failure (codes "no target sites configured for repost task")))
        else elim (parse_task_config trim config_from_json
            (record { entry_ids = none; limit = none }) task.config_json) [
              | err e ↦ (rows, err e)
              | ok c ↦
                  let (rows', r) = submit_batch from_json display registry now_ms now rows (record {
                    entry_ids = c.entry_ids;
                    target_site_ids = some site_ids;
                    limit = c.limit;
                  }) in
                  (
                    rows',
                    ok (
                        plain_counts r.candidate_count r.submitted_count
                          (r.failed_count + r.skipped_count)),
                  )
            ]
  ]

-- A registered site: its limiter, and what its user page answers if it can be asked.
pub record StatsSite : Type 0 where
  pub rate_limiter : Limiter
  pub user_info : Option (Result UserStatsRow)

-- The registry, and the statistics that are stored, the latest last.
pub record Snapshots : Type 0 where
  pub sites : ℕ → Option StatsSite
  pub user_stats : List UserStatsRow

unfoldable pub set_limiter : ℕ → Limiter → StatsSite → Snapshots → Snapshots
set_limiter id l site s = record s {
  sites = λ i. if i == id then some (record site { rate_limiter = l }) else s.sites i;
}

-- The flag of the task is looked at when each fetch begins, and `insert_fails` is what the database
-- says to the row of a site. The fetches share nothing but the limiter of a site that is listed twice,
-- so that they are run in the order of the list.
module _ (cancelled : ℕ → Bool) (insert_fails : ℕ → Option CoreError) (now_ms : ℕ) where
  -- Returns how many succeeded and how many failed: at most one of them.
  unfoldable pub store : ℕ → UserStatsRow → Snapshots → Snapshots × ℕ × ℕ
  store id stats s = elim (insert_fails id) [
    | some e ↦ (s, 0, 1)
    | none ↦ (record s { user_stats = s.user_stats ++ record stats { site_id = id } ∷ [] }, 1, 0)
  ]

  unfoldable pub note_fetched : ℕ → StatsSite → Result UserStatsRow → Snapshots → Snapshots × ℕ × ℕ
  unfolding record_success record_error set_limiter store
  note_fetched id site (err e) s =
      (set_limiter id (record_error site.rate_limiter now_ms).0 site s, 0, 1)
  note_fetched id site (ok stats) s =
      store id stats (set_limiter id (record_success site.rate_limiter) site s)

  unfoldable pub fetch_site : ℕ → ℕ → Snapshots → Snapshots × ℕ × ℕ
  unfolding acquire note_fetched
  fetch_site clock id s = elim (cancelled clock) [
    | true ↦ (s, 0, 0)
    | false ↦ elim (s.sites id) [
      | none ↦ (s, 0, 1)
      | some site ↦ elim site.user_info [
        | none ↦ (s, 0, 0)
        | some fetched ↦ elim (acquire site.rate_limiter now_ms) [
          | err e ↦ (s, 0, 1)
          | ok waits ↦ note_fetched id site fetched s
        ]
      ]
    ]
  ]

  unfoldable pub fetch_sites : ℕ → List ℕ → Snapshots → Snapshots × ℕ × ℕ
  unfolding fetch_site
  fetch_sites clock [] s = (s, 0, 0)
  fetch_sites clock (id ∷ ids) s =
      let (s₁, succeeded, failed) = fetch_site clock id s in
      let (s₂, more, less) = fetch_sites (clock + 1) ids s₁ in (s₂, succeeded + more, failed + less)

  -- `listed` are the registered sites, which are asked where the task names none.
  unfoldable pub execute_sync_stats :
      Result (List ℕ) → List ℕ → Snapshots → Snapshots × Result Counts
  unfolding fetch_sites plain_counts
  execute_sync_stats task_sites listed s = elim task_sites [
    | err e ↦ (s, err e)
    | ok chosen ↦
        let site_ids : List ℕ = if is_empty chosen then listed else chosen in
        elim (cancelled 0) [
          | true ↦ (s, ok (plain_counts (length site_ids) 0 0))
          | false ↦
              let (s', succeeded, failed) = fetch_sites 1 site_ids s in
              (s', ok (plain_counts (length site_ids) succeeded failed))
        ]
  ]

-- The run of a task by its type, over the three kinds of runs.
unfoldable pub run_task :
    {S : Type 0}
    (reseed : TaskRow → Bool → Option ℕ → S → List WriteOp → S × List WriteOp × Result Counts)
    (repost sync_stats : TaskRow → S → S × Result Counts)
    → TaskRow
    → Bool
    → Option ℕ
    → S
    → List WriteOp
    → S × List WriteOp × Result Counts
run_task reseed repost sync_stats task dry_run log_id s sent =
    if text_eq task.task_type (codes "reseed")
    then reseed task dry_run log_id s sent
    else if text_eq task.task_type (codes "repost")
    then (let (s', result) = repost task s in (s', sent, result))
    else if text_eq task.task_type (codes "sync_stats")
    then (let (s', result) = sync_stats task s in (s', sent, result))
    else (s, sent, err (executor_failure (codes "unknown task type: " ++ task.task_type)))
