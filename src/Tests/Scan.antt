-- ===== src/Tests/Scan.antt =====
-- crates/core/src/engine/scanner.rs and the adders of engine/adder.rs at concrete inputs.
use pt_reseeder.Base.{
  ℕ, ◌≤◌, ◌≡◌, refl, Bool, true, false, none, some, List, [], ◌∷◌, ◌++◌, arith, All, if◌then◌else◌,
}
use pt_reseeder.Base.Text.{Text, codes, text_eq, contains_text}
use pt_reseeder.Base.Maps.{find}
use pt_reseeder.Error.{CoreError, Result, ok, err, internal}
use pt_reseeder.Torrent.Parser.{TorrentMeta}
use pt_reseeder.Engine.Stats.{ReseedStats}
use pt_reseeder.Engine.Adder.{AdderState, MatchedTorrent, AddTorrentOpts, claim}
use pt_reseeder.Engine.Adder.Concurrent.{arrive, take, begin, next, holds, after_claim}
use pt_reseeder.Engine.Adder.Concurrent.Exclusion.{one_holder}
use pt_reseeder.Engine.Scanner.{
  ScanResult, ScanState, Parsed, Client, Listing, Loop, ingest_parsed_metas, listing,
}
use pt_reseeder.Engine.Scanner.Ingest.{rows_of, new_rows, ingest-rows}
use pt_reseeder.Engine.Scanner.Batches.{FitsBatch, ingest-FitsBatch}
use pt_reseeder.Engine.Scanner.Materialize.{
  try_local, try_export, try_pieces_hash, materialize, materialize_all, keep_parsed, hopeless,
}
use pt_reseeder.Engine.Scanner.Materialize.Misses.{materialize_all-attempts}
use pt_reseeder.Engine.Scanner.Sources.{scan_downloader}

abbrev torrent : Text → Text → TorrentMeta
torrent info pieces = record {
  info_hash = info;
  pieces_hash = pieces;
  name = [];
  total_size = 1;
  files = [];
  announce = none;
  announce_list = [];
  piece_length = 1;
  pieces_count = 1;
}

abbrev no_stats : ReseedStats
no_stats = record {
  scanned = 0;
  cached_skip = 0;
  matched = 0;
  added = 0;
  failed = 0;
  skipped_tracker = 0;
  skipped_history = 0;
  skipped_exists = 0;
}

abbrev never : ℕ → Bool
never n = false

abbrev cache_knows : List Text → Result (List Text)
cache_knows hashes = ok (codes "b" ∷ [])

abbrev found : List Parsed
found = (none, torrent (codes "a") (codes "p")) ∷ (none, torrent (codes "b") (codes "p")) ∷ []

abbrev scan_start : ScanState
scan_start = record {
  result = record { torrents = []; pieces_groups = []; dest_hashes = []; save_paths = [] };
  sent = [];
  cache_batch = [];
  stats = no_stats;
}

ingest-rows_example :
    rows_of (ingest_parsed_metas never never cache_knows 0 found scan_start).0.sent
    ≡ rows_of [] ++ new_rows (codes "b" ∷ []) found
unfolding ingest_parsed_metas contains_text text_eq
ingest-rows_example =
    ingest-rows never never cache_knows 0 found scan_start (codes "b" ∷ []) refl refl

ingest-FitsBatch_example :
    All FitsBatch (ingest_parsed_metas never never cache_knows 0 found scan_start).0.sent
ingest-FitsBatch_example = ingest-FitsBatch never never cache_knows 0 found scan_start tt

-- A client that lists two torrents and can give the pieces hash of one.
abbrev client : Client
client = record {
  list_torrents = err (internal []);
  get_all_info_hashes = ok (codes "a" ∷ codes "b" ∷ []);
  export_torrent = λ h. ok none;
  get_pieces_hash = λ h. if text_eq h (codes "b") then ok (some (codes "p")) else ok none;
  read = λ path. err (internal []);
  parse = λ bytes. err (internal []);
}

abbrev same : Text → Text
same t = t

abbrev result : ScanResult
result = record {
  torrents =
      (
        codes "b",
        record (torrent (codes "b") (codes "p")) {
          name = codes "b";
          total_size = 0;
          files = record { path = codes "b" ∷ []; length = 0 } ∷ [];
          piece_length = 0;
          pieces_count = 0;
        },
      )
      ∷ [];
  pieces_groups = (codes "p", codes "b" ∷ []) ∷ [];
  dest_hashes = [];
  save_paths = [];
}

scan_result :
    (scan_downloader never never client cache_knows same none none [] no_stats).1 ≡ ok result
unfolding scan_downloader materialize_all materialize hopeless try_local try_export try_pieces_hash
    keep_parsed ingest_parsed_metas contains_text text_eq listing find
scan_result = refl

-- A client that gives a pieces hash for all, beside a directory with the file of a third torrent.
abbrev answering : Client
answering = record client {
  get_pieces_hash = λ h. ok (some (codes "p"));
  read = λ path. ok path;
  parse = λ bytes. ok (torrent (codes "c") (codes "p"));
}

abbrev two_listed : Listing
two_listed = record {
  hashes = codes "a" ∷ codes "b" ∷ [];
  save_paths = [];
  listed_names = [];
  listed_sizes = [];
  listed_torrent_files = [];
}

abbrev nothing : Client
nothing = record client { get_pieces_hash = λ h. ok none }

abbrev listed : Listing
listed = record {
  hashes = [];
  save_paths = [];
  listed_names = [];
  listed_sizes = [];
  listed_torrent_files = [];
}

abbrev loop_start : Loop
loop_start = record {
  parsed = [];
  seen_info_hashes = [];
  export_attempts = 0;
  export_hits = 0;
  local_file_hits = 0;
  pieces_hash_hits = 0;
  consecutive_misses = 0;
  export_available = true;
  local_file_available = false;
}

abbrev many : List Text
many = codes "a" ∷ codes "b" ∷ codes "c" ∷ codes "d" ∷ codes "e" ∷ []

materialize_all-attempts_example :
    (materialize_all nothing listed never 0 many loop_start no_stats).0.export_attempts ≤ 3
unfolding materialize_all materialize hopeless try_local try_export try_pieces_hash contains_text
materialize_all-attempts_example =
    materialize_all-attempts nothing listed never 0 many loop_start no_stats
      (λ z. (omega arith, omega arith)) refl

abbrev digest : Text → Text
digest s = []

abbrev plain : CoreError → Text
plain e = []

abbrev takes : AddTorrentOpts → Result Bool
takes opts = ok true

abbrev wanted : MatchedTorrent
wanted = record {
  pieces_hash = codes "p";
  site_id = 1;
  torrent_id = none;
  download_url = [];
  save_path = [];
  skip_hash_check = false;
  tag = none;
}

abbrev shared : AdderState
shared = record { dest_hashes = []; history = []; stats = no_stats; limiter = none; resumed = [] }

-- Two adders get the same torrent; the first has claimed it.
one_holder_example :
    (◌≡◌ {A = ℕ} 0 0)
    × (contains_text
          (claim digest plain takes shared wanted [] true
            (torrent (codes "a") (codes "p"))).0.dest_hashes
          (codes "a")
        ≡ true)
unfolding claim after_claim holds contains_text text_eq
one_holder_example =
    let meta = torrent (codes "a") (codes "p") in
    one_holder digest plain takes {start = shared}
      (next
        (next (next (begin refl) (arrive 0 wanted [] true meta refl refl))
          (arrive 1 wanted [] true meta refl refl))
        (take 0 wanted [] true meta refl refl))
      0 0 (codes "a") refl refl
