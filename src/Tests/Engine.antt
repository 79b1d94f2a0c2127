-- ===== src/Tests/Engine.antt =====
-- crates/core/src/engine at concrete inputs.
use pt_reseeder.Base.{◌+◌, ◌≡◌, ◌≢◌, refl, Bool, true, false, some, none, [], ◌∷◌, arith, length}
use pt_reseeder.Base.Int.{pos}
use pt_reseeder.Base.Text.{Text, codes, text_eq, contains_text, to_ascii_lowercase}
use pt_reseeder.Error.{CoreError, Result, err, ok, internal}
use pt_reseeder.Torrent.Parser.{TorrentMeta}
use pt_reseeder.Engine.Stats.{ReseedStats}
use pt_reseeder.Engine.Adder.{add_opts, AdderState, MatchedTorrent, AddTorrentOpts, add_parsed}
use pt_reseeder.Engine.Adder.Claims.{add_parsed-history, added_claims}
use pt_reseeder.Base.Maps.{find}
use pt_reseeder.Engine.Scanner.{ScanResult}
use pt_reseeder.Engine.Matcher.{HistorySkippedTorrent, Reseed, match_single_site, out_of_fuel}
use pt_reseeder.Engine.Matcher.Loop.{match_single_site-ends}
use pt_reseeder.Engine.Pack.{count_top_level_dirs, extract_components}
use pt_reseeder.Engine.Pack.Components.{extract_components-length}
use pt_reseeder.Engine.DryRun.{Registry, run_preview, meta_from_scan}
use pt_reseeder.Engine.DryRun.Rows.{run_preview-counts}
use pt_reseeder.Site.RateLimiter.{Limiter}

abbrev limiter : Limiter
limiter = record {
  consecutive_errors = 0;
  current_interval_ms = 10;
  base_interval_ms = 10;
  extra_download_wait_ms = 0;
  circuit_open_until = none;
}

abbrev zero_stats : ReseedStats
zero_stats = record {
  scanned = 0;
  cached_skip = 0;
  matched = 0;
  added = 0;
  failed = 0;
  skipped_tracker = 0;
  skipped_history = 0;
  skipped_exists = 0;
}

abbrev start : AdderState
start = record {
  dest_hashes = codes "aa" ∷ [];
  history = [];
  stats = zero_stats;
  limiter = none;
  resumed = [];
}

abbrev wanted : MatchedTorrent
wanted = record {
  pieces_hash = codes "cc";
  site_id = 1;
  torrent_id = some (pos 9);
  download_url = [];
  save_path = [];
  skip_hash_check = false;
  tag = none;
}

abbrev meta : Text → TorrentMeta
meta hash = record {
  info_hash = hash;
  pieces_hash = codes "cc";
  name = [];
  total_size = 1;
  files = [];
  announce = none;
  announce_list = [];
  piece_length = 1;
  pieces_count = 1;
}

abbrev digest : Text → Text
digest s = []

abbrev plain : CoreError → Text
plain e = []

abbrev takes : AddTorrentOpts → Result Bool
takes opts = ok true

add_parsed-history_example :
    length (add_parsed digest plain takes start wanted [] true (meta (codes "bb"))).0.history
    ≡ 0 + 1
add_parsed-history_example =
    add_parsed-history digest plain takes start wanted [] true (meta (codes "bb"))

added_claims_example :
    (codes "cc" ≡ codes "cc")
    × (contains_text (codes "aa" ∷ []) (codes "bb") ≡ false)
    × (takes (add_opts wanted [] true) ≡ ok true)
    × ((add_parsed digest plain takes start wanted [] true (meta (codes "bb"))).0.dest_hashes
        ≡ codes "bb" ∷ codes "aa" ∷ [])
    × ((add_parsed digest plain takes start wanted [] true (meta (codes "bb"))).0.resumed
        ≡ codes "bb" ∷ [])
unfolding add_parsed contains_text text_eq
added_claims_example = added_claims digest plain takes start wanted [] true (meta (codes "bb")) refl

abbrev refusing : Reseed
refusing = record {
  batch_size = 200;
  query = λ clock hashes. err (internal []);
  build_download_url = λ id. [];
}

match_single_site-ends_example :
    match_single_site
      (record { default_save_path = []; skip_hash_check = true; tag = none })
      []
      1
      refusing
      (λ clock. clock)
      (λ clock. false)
      limiter
      200
      (codes "a" ∷ codes "b" ∷ [])
    ≢ out_of_fuel
match_single_site-ends_example =
    match_single_site-ends (record { default_save_path = []; skip_hash_check = true; tag = none })
      [] 1 refusing (λ clock. clock) (λ clock. false) limiter 200 (codes "a" ∷ codes "b" ∷ [])
      (omega arith)

abbrev pack_meta : TorrentMeta
pack_meta = record (meta (codes "bb")) {
  files =
      record { path = codes "A" ∷ codes "1" ∷ []; length = 5 }
      ∷ record { path = codes "B" ∷ codes "2" ∷ []; length = 5 }
      ∷ record { path = codes "A" ∷ codes "3" ∷ []; length = 5 }
      ∷ [];
}

extract_components-length_example :
    length (extract_components to_ascii_lowercase pack_meta) ≡ count_top_level_dirs pack_meta.files
extract_components-length_example = extract_components-length to_ascii_lowercase pack_meta

abbrev scanned : ScanResult
scanned = record {
  torrents = (codes "i", meta (codes "i")) ∷ (codes "j", pack_meta) ∷ [];
  pieces_groups = (codes "p", codes "x" ∷ codes "i" ∷ codes "j" ∷ []) ∷ [];
  dest_hashes = [];
  save_paths = [];
}

abbrev no_sites : Registry
no_sites i = none

abbrev skip : HistorySkippedTorrent
skip = record { pieces_hash = codes "p"; site_id = 2; torrent_id = none; save_path = [] }

run_preview-counts_example :
    ((run_preview scanned no_sites (skip ∷ []) (wanted ∷ []) true).would_add_count ≡ 1)
    × ((run_preview scanned no_sites (skip ∷ []) (wanted ∷ []) true).history_skipped_count ≡ 1)
    × (length (run_preview scanned no_sites (skip ∷ []) (wanted ∷ []) true).items ≡ 2)
run_preview-counts_example = run_preview-counts scanned no_sites (skip ∷ []) (wanted ∷ []) true

-- The first torrent has a size but no name, the second neither.
sample_meta : meta_from_scan scanned (codes "p") ≡ (none, some (pos 1))
unfolding meta_from_scan find text_eq
sample_meta = refl
