-- ===== src/Db/Writer.antt =====
-- crates/core/src/db/writer.rs: the task that writes to the database in batches. What the channel
-- brings is a list of events; where it is at an end, all senders are gone.
pub mod Batches
pub mod Refusals
pub mod Bulk
use pt_reseeder.Base.{
  ℕ, ◌+◌, Bool, true, false, ltb, if◌then◌else◌, Option, none, some, List, [], ◌∷◌, ◌++◌, length,
}
use pt_reseeder.Error.{CoreError, Result, ok, err}
use pt_reseeder.Db.Tables.{Tables, WriteOp, statement}

-- A message, or the channel being empty when the writer asks for more without waiting.
pub data Event : Type 0 where
  write : WriteOp → Event
  flush : Event
  idle : Event

-- What SQLite may do besides carrying out a statement: refuse it (a constraint, a full disk), or fail
-- to begin or commit a transaction of these operations.
pub record Sqlite : Type 0 where
  pub refuses : Tables → WriteOp → Option CoreError
  pub transaction_fails : Tables → List WriteOp → Option CoreError

-- What the writer leaves behind: the tables, the flush requests answered, and how it ended.
pub record WriterRun : Type 0 where
  pub tables : Tables
  pub answered : ℕ
  pub ending : Result (Unit {0})

module _ (db : Sqlite) where
  -- The statements of a transaction, up to the first that is refused.
  unfoldable pub run_statements : List WriteOp → Tables → Result Tables
  run_statements [] t = ok t
  run_statements (op ∷ ops) t = elim (db.refuses t op) [
    | some e ↦ err e
    | none ↦ run_statements ops (statement op t)
  ]

  unfoldable pub execute_ops_in_transaction : List WriteOp → Tables → Result Tables
  unfolding run_statements
  execute_ops_in_transaction ops t = elim (run_statements ops t) [
    | err e ↦ err e
    | ok t' ↦ elim (db.transaction_fails t ops) [ some e ↦ err e | none ↦ ok t' ]
  ]

  -- Each operation in a transaction of its own, keeping the first error.
  unfoldable pub one_by_one : List WriteOp → Tables → Option CoreError → Tables × Option CoreError
  one_by_one [] t first = (t, first)
  one_by_one (op ∷ ops) t first = elim (execute_ops_in_transaction (op ∷ []) t) [
    | ok t' ↦ one_by_one ops t' first
    | err e ↦ one_by_one ops t (elim first [ none ↦ some e | some e' ↦ some e' ])
  ]

  unfoldable pub flush_buffer : List WriteOp → Tables → Tables × Result (Unit {0})
  flush_buffer [] t = (t, ok tt)
  flush_buffer (op ∷ ops) t = elim (execute_ops_in_transaction (op ∷ ops) t) [
    | ok t' ↦ (t', ok tt)
    | err _ ↦
        let (t', first) = one_by_one (op ∷ ops) t none in
        (t', elim first [ none ↦ ok tt | some e ↦ err e ])
  ]

  -- `run_loop`: `collecting` is the inner loop, which takes what is there; the outer one waits with an
  -- empty buffer, so that being idle changes nothing there.
  unfoldable pub serve : ℕ → Bool → List WriteOp → List Event → Tables → ℕ → WriterRun
  serve batch_size collecting buffer [] t answered =
      let (t', ending) = flush_buffer buffer t in
      record { tables = t'; answered = answered; ending = ending }
  serve batch_size collecting buffer (idle ∷ es) t answered =
      let (t', ending) = flush_buffer buffer t in
      elim ending [
        | err e ↦ record { tables = t'; answered = answered; ending = err e }
        | ok _ ↦ serve batch_size false [] es t' answered
      ]
  serve batch_size collecting buffer (flush ∷ es) t answered =
      let (t', ending) = flush_buffer buffer t in
      elim ending [
        | err e ↦ record { tables = t'; answered = answered; ending = err e }
        | ok _ ↦ serve batch_size collecting [] es t' (answered + 1)
      ]
  serve batch_size collecting buffer (write op ∷ es) t answered =
      let buffer' = buffer ++ op ∷ [] in
      let (t', ending) = flush_buffer buffer' t in
      elim (ltb (length buffer') batch_size) [
        | true ↦ serve batch_size true buffer' es t answered
        | false ↦ elim ending [
          | err e ↦ record { tables = t'; answered = answered; ending = err e }
          | ok _ ↦ serve batch_size false [] es t' answered
        ]
      ]

  unfoldable pub run_loop : ℕ → List Event → Tables → WriterRun
  unfolding serve
  run_loop batch_size events t = serve batch_size false [] events t 0
