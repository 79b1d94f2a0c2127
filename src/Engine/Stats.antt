-- ===== src/Engine/Stats.antt =====
-- crates/core/src/engine/stats.rs. An atomic counter is a number that wraps at 2^64.
use pt_reseeder.Base.{ℕ, ◌+◌, ◌%◌}
use pt_reseeder.Base.Int.{u64_mod}

pub record ReseedStats : Type 0 where
  pub scanned : ℕ
  pub cached_skip : ℕ
  pub matched : ℕ
  pub added : ℕ
  pub failed : ℕ
  pub skipped_tracker : ℕ
  pub skipped_history : ℕ
  pub skipped_exists : ℕ

unfoldable pub new : ReseedStats
new = record {
  scanned = 0;
  cached_skip = 0;
  matched = 0;
  added = 0;
  failed = 0;
  skipped_tracker = 0;
  skipped_history = 0;
  skipped_exists = 0;
}

-- `fetch_add(n)`.
abbrev pub add_to : ℕ → ℕ → ℕ
add_to counter n = (counter + n) % u64_mod

unfoldable pub total_processed : ReseedStats → ℕ
total_processed s =
    (s.added + s.failed + s.skipped_tracker + s.skipped_history + s.skipped_exists) % u64_mod
