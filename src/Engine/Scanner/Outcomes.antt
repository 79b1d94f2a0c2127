-- ===== src/Engine/Scanner/Outcomes.antt =====
-- crates/core/src/engine/scanner.rs: what a scan of a downloader returns.
use pt_reseeder.Base.{◌≡◌}
use pt_reseeder.Base.Text.{Text}
use pt_reseeder.Engine.Scanner.{Loop}
use pt_reseeder.Engine.Scanner.Materialize.Seen.{Distinct, info_hashes}

-- Before the loop over the hashes: nothing is counted yet.
abbrev Uncounted : Loop → Type 0
Uncounted s =
    (s.seen_info_hashes ≡ info_hashes s.parsed)
    × Distinct s.seen_info_hashes
    × (s.local_file_hits ≡ 0)
    × (s.export_hits ≡ 0)
    × (s.pieces_hash_hits ≡ 0)
