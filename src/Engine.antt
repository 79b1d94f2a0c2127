-- ===== src/Engine.antt =====
-- crates/core/src/engine: the reseed pipeline's filters, matching and adding.
pub mod Stats
pub mod Filter
pub mod Scanner
pub mod Matcher
pub mod Adder
pub mod Pack
pub mod DryRun
pub mod Pipeline
