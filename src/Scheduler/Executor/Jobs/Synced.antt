-- ===== src/Scheduler/Executor/Jobs/Synced.antt =====
-- crates/core/src/scheduler/executor.rs: what a statistics task counts and stores.
use pt_reseeder.Base.{
  ℕ, ◌+◌, ◌≤◌, ◌≡◌, refl, Bool, if◌then◌else◌, Option, List, [], ◌∷◌, length, length-append,
  is_empty, arith, Bool-cases, Option-cases, inl, inr,
}
use pt_reseeder.Error.{CoreError, Result, ok, err}
use pt_reseeder.Error.Results.{Result-cases}
use pt_reseeder.Site.RateLimiter.{acquire}
use pt_reseeder.Db.Tables.{UserStatsRow}
use pt_reseeder.Scheduler.Executor.Jobs.{
  Snapshots, StatsSite, store, note_fetched, fetch_site, fetch_sites, execute_sync_stats,
  plain_counts, set_limiter,
}

module _ (cancelled : ℕ → Bool) (insert_fails : ℕ → Option CoreError) (now_ms : ℕ) where
  -- `n` sites were asked: what was counted of them, and the rows that were stored.
  abbrev Counted : ℕ → Snapshots → Snapshots × ℕ × ℕ → Type 0
  Counted n s r = (r.1 + r.2 ≤ n) × (length r.0.user_stats ≡ length s.user_stats + r.1)

  note_fetched-Counted :
      (id : ℕ) (site : StatsSite) (fetched : Result UserStatsRow) (s : Snapshots)
      → Counted 1 s (note_fetched cancelled insert_fails now_ms id site fetched s)
  unfolding note_fetched store set_limiter
  note_fetched-Counted id site (err e) s = (omega arith, omega arith)
  note_fetched-Counted id site (ok stats) s = elim (Option-cases (insert_fails id)) [
    | inr (e, y) ↦ rw (y, store) (omega arith, omega arith)
    | inl y ↦
        let row : UserStatsRow = record stats { site_id = id } in
        rw (y, store) (omega arith, omega (arith, length-append s.user_stats (row ∷ [])))
  ]

  fetch_site-Counted :
      (clock id : ℕ) (s : Snapshots)
      → Counted 1 s (fetch_site cancelled insert_fails now_ms clock id s)
  unfolding fetch_site
  fetch_site-Counted clock id s = elim (Bool-cases (cancelled clock)) [
    | inl b ↦ rw (b, fetch_site) (omega arith, omega arith)
    | inr b ↦ elim (Option-cases (s.sites id)) [
      | inl n ↦ rw (b, n, fetch_site) (omega arith, omega arith)
      | inr (site, n) ↦ elim (Option-cases site.user_info) [
        | inl m ↦ rw (b, n, m, fetch_site) (omega arith, omega arith)
        | inr (fetched, m) ↦ elim (Result-cases (acquire site.rate_limiter now_ms)) [
          | inr (e, y) ↦ rw (b, n, m, y, fetch_site) (omega arith, omega arith)
          | inl (waits, y) ↦ rw (b, n, m, y, fetch_site) (note_fetched-Counted id site fetched s)
        ]
      ]
    ]
  ]

  fetch_sites-Counted :
      (clock : ℕ) (ids : List ℕ) (s : Snapshots)
      → Counted (length ids) s (fetch_sites cancelled insert_fails now_ms clock ids s)
  unfolding fetch_sites
  fetch_sites-Counted clock [] s = (omega arith, omega arith)
  fetch_sites-Counted clock (id ∷ ids) s =
      let (s', one, other) = fetch_site cancelled insert_fails now_ms clock id s in
      let first = fetch_site-Counted clock id s in
      let later = fetch_sites-Counted (clock + 1) ids s' in
      (omega (arith, first.0, later.0), omega (arith, first.1, later.1))

  -- A statistics task whose sites can be read counts as matched the sites that it asks, counts each of
  -- them once at most as done or failed, and stores one row for each that is done.
  pub sync_stats-Counted :
      (chosen listed : List ℕ) (s : Snapshots)
      → (let sites : ℕ = length (if is_empty chosen then listed else chosen) in
          let (s', result) =
            execute_sync_stats cancelled insert_fails now_ms (ok chosen) listed s in
          (succeeded : ℕ) × (failed : ℕ) × (result ≡ ok (plain_counts sites succeeded failed))
          × (succeeded + failed ≤ sites)
          × (length s'.user_stats ≡ length s.user_stats + succeeded))
  unfolding execute_sync_stats
  sync_stats-Counted chosen listed s =
      let ids : List ℕ = if is_empty chosen then listed else chosen in
      let (s', succeeded, failed) = fetch_sites cancelled insert_fails now_ms 1 ids s in
      let counted = fetch_sites-Counted 1 ids s in
      elim (Bool-cases (cancelled 0)) [
        | inl b ↦ rw (b, execute_sync_stats) (0, 0, refl, omega arith, omega arith)
        | inr b ↦ rw (b, execute_sync_stats) (succeeded, failed, refl, counted.0, counted.1)
      ]
