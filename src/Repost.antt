-- ===== src/Repost.antt =====
-- crates/core/src/repost: the queue of torrents to post again, its states, review and submission.
pub mod Status
pub mod Replace
pub mod Format
pub mod Mapping
pub mod Adapter
pub mod Extract
pub mod Queue
pub mod Review
pub mod Submit
