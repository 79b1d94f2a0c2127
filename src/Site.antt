-- ===== src/Site.antt =====
-- crates/core/src/site: what the engine asks of a site.
pub mod RateLimiter
