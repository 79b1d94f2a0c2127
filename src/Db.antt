-- ===== src/Db.antt =====
-- crates/core/src/db: the tables and the writer task.
pub mod Tables
pub mod Tasks
pub mod Writer
