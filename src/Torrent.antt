-- ===== src/Torrent.antt =====
-- crates/core/src/torrent: .torrent files.
pub mod Bencode
pub mod Parser
