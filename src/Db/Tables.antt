-- ===== src/Db/Tables.antt =====
-- The tables that crates/core/src/db/writer.rs writes, and its statements on them. A table is the list
-- of its rows in the order of insertion; a float is the number of its bit pattern, and the times
-- that SQLite fills in are left out.
use pt_reseeder.Base.{
  ℕ, zero, suc, ◌+◌, ◌&&◌, ◌==◌, if◌then◌else◌, Option, List, [], ◌∷◌, ◌++◌, length, take, drop,
}
use pt_reseeder.Base.Int.{ℤ}
use pt_reseeder.Base.Text.{Text, codes, text_eq}

pub record History : Type 0 where
  pub pieces_hash : Text
  pub site_id : ℕ
  pub torrent_id : Option ℤ
  pub info_hash : Option Text
  pub status : Text
  pub error_reason : Option Text

pub record BulkPiecesCacheItem : Type 0 where
  pub pieces_hash : Text
  pub info_hash : Text
  pub torrent_name : Option Text
  pub file_path : Option Text
  pub total_size : Option ℤ
  pub announce_url : Option Text

-- What a run of a task has to show so far.
pub record RunResult : Type 0 where
  pub status : Text
  pub matched_count : ℤ
  pub succeeded_count : ℤ
  pub failed_count : ℤ
  pub duration_ms : Option ℤ
  pub log_text : Option Text

pub record TaskLog : Type 0 where
  pub id : ℕ
  pub task_id : ℕ
  pub result : RunResult

pub record UserStatsRow : Type 0 where
  pub site_id : ℕ
  pub uploaded : Option ℤ
  pub downloaded : Option ℤ
  pub ratio : Option ℕ
  pub bonus : Option ℕ
  pub user_class : Option Text
  pub seeding_count : Option ℤ
  pub leeching_count : Option ℤ
  pub seeding_size : Option ℤ
  pub upload_time_seconds : Option ℤ

pub record Tables : Type 0 where
  pub reseed_history : List History
  pub pieces_cache : List BulkPiecesCacheItem
  pub task_logs : List TaskLog
  pub next_log_id : ℕ
  pub user_stats : List UserStatsRow

-- The operations that are written; `WriteOp::Flush`, which is none, is an event of the writer.
pub data WriteOp : Type 0 where
  insert_reseed_history : History → WriteOp
  upsert_pieces_cache : BulkPiecesCacheItem → WriteOp
  insert_task_log : ℕ → RunResult → WriteOp
  update_task_log : ℕ → RunResult → WriteOp
  insert_user_stats : UserStatsRow → WriteOp
  bulk_upsert_pieces_cache : List BulkPiecesCacheItem → WriteOp

-- `INSERT … ON CONFLICT(info_hash) DO UPDATE SET` of every other column.
unfoldable pub upsert : BulkPiecesCacheItem → List BulkPiecesCacheItem → List BulkPiecesCacheItem
upsert item [] = item ∷ []
upsert item (row ∷ rows) =
    let rest = upsert item rows in
    if text_eq item.info_hash row.info_hash then item ∷ rows else row ∷ rest

-- One multi-row statement: SQLite applies its rows in order.
unfoldable pub upsert_rows :
    List BulkPiecesCacheItem → List BulkPiecesCacheItem → List BulkPiecesCacheItem
unfolding upsert
upsert_rows [] rows = rows
upsert_rows (item ∷ items) rows = upsert_rows items (upsert item rows)

-- `items.chunks(n)`; a chunk takes an item or more, so as many rounds as items are enough.
unfoldable pub chunks {ℓ} : {A : Type ℓ} → ℕ → ℕ → List A → List (List A)
chunks zero n xs = []
chunks (suc f) n [] = []
chunks (suc f) n (x ∷ xs) = take n (x ∷ xs) ∷ chunks f n (drop n (x ∷ xs))

abbrev pub chunk_rows : ℕ
chunk_rows = 150

unfoldable pub upsert_chunks :
    List (List BulkPiecesCacheItem) → List BulkPiecesCacheItem → List BulkPiecesCacheItem
unfolding upsert_rows
upsert_chunks [] rows = rows
upsert_chunks (c ∷ cs) rows = upsert_chunks cs (upsert_rows c rows)

-- `UPDATE task_logs … WHERE id = ? AND status = 'running'`.
unfoldable pub update_running : ℕ → RunResult → List TaskLog → List TaskLog
update_running id result [] = []
update_running id result (l ∷ ls) =
    (if l.id == id && text_eq l.result.status (codes "running")
      then record l { result = result }
      else l)
    ∷ update_running id result ls

unfoldable pub statement : WriteOp → Tables → Tables
unfolding upsert upsert_chunks chunks update_running
statement (insert_reseed_history h) t = record t { reseed_history = t.reseed_history ++ h ∷ [] }
statement (upsert_pieces_cache item) t = record t { pieces_cache = upsert item t.pieces_cache }
statement (insert_task_log task_id result) t = record t {
  task_logs = t.task_logs ++ record { id = t.next_log_id; task_id = task_id; result = result } ∷ [];
  next_log_id = t.next_log_id + 1;
}
statement (update_task_log id result) t = record t {
  task_logs = update_running id result t.task_logs;
}
statement (insert_user_stats row) t = record t { user_stats = t.user_stats ++ row ∷ [] }
statement (bulk_upsert_pieces_cache items) t = record t {
  pieces_cache = upsert_chunks (chunks (length items) chunk_rows items) t.pieces_cache;
}
