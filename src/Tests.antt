-- ===== src/Tests.antt =====
-- Runs of the definitions at concrete inputs, and the theorems at inputs that meet their conditions.
pub mod Torrent
pub mod Repost
pub mod Engine
pub mod Executor
pub mod Db
pub mod Scan
pub mod Pipeline
pub mod Store
pub mod Adapter
pub mod Session
