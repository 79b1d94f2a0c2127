-- ===== src/Scheduler.antt =====
-- crates/core/src/scheduler: the tasks that the program runs.
pub mod Task
pub mod Executor
