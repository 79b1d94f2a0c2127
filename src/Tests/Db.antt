-- ===== src/Tests/Db.antt =====
-- crates/core/src/db/writer.rs at concrete inputs.
use pt_reseeder.Base.{◌≡◌, refl, Option, none, some, List, [], ◌∷◌, map, if◌then◌else◌}
use pt_reseeder.Base.Int.{pos}
use pt_reseeder.Base.Text.{Text, codes, text_eq}
use pt_reseeder.Error.{CoreError, ok, err, db}
use pt_reseeder.Db.Tables.{
  History, BulkPiecesCacheItem, RunResult, Tables, WriteOp, insert_reseed_history,
  upsert_pieces_cache, bulk_upsert_pieces_cache, insert_task_log, update_task_log, statement,
}
use pt_reseeder.Db.Writer.{Event, write, flush, idle, Sqlite, flush_buffer, run_loop}
use pt_reseeder.Db.Writer.Batches.{apply_all, writes, flushes, run_loop-apply_all}
use pt_reseeder.Db.Writer.Refusals.{
  passing_over, first_refusal, flush_buffer-passing_over, refused_ends, run_loop-delivers,
}
use pt_reseeder.Db.Writer.Bulk.{bulk-upserts}

abbrev empty_tables : Tables
empty_tables = record {
  reseed_history = [];
  pieces_cache = [];
  task_logs = [];
  next_log_id = 1;
  user_stats = [];
}

abbrev line : Text → History
line status = record {
  pieces_hash = codes "p";
  site_id = 1;
  torrent_id = none;
  info_hash = none;
  status = status;
  error_reason = none;
}

abbrev good : WriteOp
good = insert_reseed_history (line (codes "success"))

abbrev bad : WriteOp
bad = insert_reseed_history (line (codes "unknown"))

abbrev healthy : Sqlite
healthy = record { refuses = λ t op. none; transaction_fails = λ t ops. none }

-- A database that takes no history line with the status "unknown".
abbrev refuses_unknown : WriteOp → Option CoreError
refuses_unknown (insert_reseed_history h) =
    if text_eq h.status (codes "unknown") then some (db (codes "CHECK constraint failed")) else none
refuses_unknown (upsert_pieces_cache item) = none
refuses_unknown _ = none

abbrev strict : Sqlite
strict = record { refuses = λ t op. refuses_unknown op; transaction_fails = λ t ops. none }

abbrev events : List Event
events = write good ∷ idle ∷ write good ∷ flush ∷ write good ∷ []

run_loop-apply_all_example :
    ((run_loop healthy 2 events empty_tables).tables ≡ apply_all (writes events) empty_tables)
    × ((run_loop healthy 2 events empty_tables).answered ≡ flushes events)
run_loop-apply_all_example =
    run_loop-apply_all healthy 2 events empty_tables
      (run_loop-delivers healthy 2 events empty_tables (λ t ops. refl) (λ t op. refl)).0

run_loop-delivers_example :
    ((run_loop healthy 2 events empty_tables).ending ≡ ok tt)
    × ((run_loop healthy 2 events empty_tables).tables ≡ apply_all (writes events) empty_tables)
    × ((run_loop healthy 2 events empty_tables).answered ≡ flushes events)
run_loop-delivers_example =
    run_loop-delivers healthy 2 events empty_tables (λ t ops. refl) (λ t op. refl)

flush_buffer-passing_over_example : flush_buffer strict (good ∷ bad ∷ good ∷ []) empty_tables ≡ (
  record empty_tables { reseed_history = line (codes "success") ∷ line (codes "success") ∷ [] },
  err (db (codes "CHECK constraint failed")),
)
unfolding passing_over first_refusal statement text_eq
flush_buffer-passing_over_example =
    flush_buffer-passing_over strict (λ t ops. refl) (good ∷ bad ∷ good ∷ []) empty_tables

refused_ends_example :
    run_loop strict 8 (write bad ∷ idle ∷ write good ∷ flush ∷ []) empty_tables ≡ record {
      tables = empty_tables;
      answered = 0;
      ending = err (db (codes "CHECK constraint failed"));
    }
unfolding text_eq
refused_ends_example =
    refused_ends strict 8 bad (write good ∷ flush ∷ []) empty_tables
      (db (codes "CHECK constraint failed")) (λ t ops. refl) refl

abbrev row : Text → Text → BulkPiecesCacheItem
row pieces info = record {
  pieces_hash = pieces;
  info_hash = info;
  torrent_name = none;
  file_path = none;
  total_size = none;
  announce_url = none;
}

abbrev rows : List BulkPiecesCacheItem
rows = row (codes "p") (codes "i") ∷ row (codes "q") (codes "i") ∷ []

bulk-upserts_example :
    statement (bulk_upsert_pieces_cache rows) empty_tables
    ≡ apply_all (map upsert_pieces_cache rows) empty_tables
bulk-upserts_example = bulk-upserts rows empty_tables

-- Of two rows with one info hash the last one stays.
last_row_stays :
    statement (bulk_upsert_pieces_cache rows) empty_tables
    ≡ record empty_tables { pieces_cache = row (codes "q") (codes "i") ∷ [] }
unfolding statement text_eq
last_row_stays = refl

abbrev result : Text → RunResult
result status = record {
  status = status;
  matched_count = pos 0;
  succeeded_count = pos 0;
  failed_count = pos 0;
  duration_ms = none;
  log_text = none;
}

-- A finished run keeps its result: only a row that is running is updated.
finished_log_stays :
    apply_all
      (insert_task_log 4 (result (codes "running"))
        ∷ update_task_log 1 (result (codes "failed"))
        ∷ update_task_log 1 (result (codes "success"))
        ∷ [])
      empty_tables
    ≡ record empty_tables {
      task_logs = record { id = 1; task_id = 4; result = result (codes "failed") } ∷ [];
      next_log_id = 2;
    }
unfolding apply_all statement text_eq
finished_log_stays = refl
