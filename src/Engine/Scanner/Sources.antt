-- ===== src/Engine/Scanner/Sources.antt =====
-- crates/core/src/engine/scanner.rs: `scan_folder` and `scan_downloader`. The paths of the .torrent files
-- below a directory are given by `entries`, an error where the walk fails.
use pt_reseeder.Base.{
  ℕ, ◌+◌, Bool, true, false, not, ◌&&◌, Option, none, some, List, [], ◌∷◌, ◌++◌, if◌then◌else◌,
  length, is_empty,
}
use pt_reseeder.Base.Text.{Text, codes}
use pt_reseeder.Base.Decimal.{to_decimal}
use pt_reseeder.Error.{CoreError, engine, EngineError, Result, ok, err}
use pt_reseeder.Db.Tables.{WriteOp}
use pt_reseeder.Torrent.Parser.{TorrentMeta}
use pt_reseeder.Engine.Stats.{ReseedStats, add_to}
use pt_reseeder.Engine.Scanner.{
  ScanResult, ScanState, Parsed, Client, Listing, Loop, empty_scan_result, listing,
  ingest_parsed_metas,
}
use pt_reseeder.Engine.Scanner.Materialize.{keep_parsed, materialize_all}

unfoldable pub parse_file : Client → Text → Result TorrentMeta
parse_file client path = elim (client.read path) [ err e ↦ err e | ok bytes ↦ client.parse bytes ]

-- Nothing collected yet, with what was sent and counted before.
unfoldable pub fresh_scan : List WriteOp → ReseedStats → ScanState
unfolding empty_scan_result
fresh_scan sent stats = record {
  result = empty_scan_result;
  sent = sent;
  cache_batch = [];
  stats = stats;
}

abbrev one_more : ReseedStats → ReseedStats
one_more stats = record stats { scanned = add_to stats.scanned 1 }

module _ (cancelled : ℕ → Bool) (closed : ℕ → Bool) (client : Client)
    (find_existing : List Text → Result (List Text)) where
  -- The first loop of `scan_folder`: files that do not parse are passed over.
  unfoldable pub parse_entries :
      ℕ → List Text → List Parsed → ReseedStats → List Parsed × ReseedStats × Result (Unit {0})
  unfolding parse_file
  parse_entries clock [] parsed stats = (parsed, stats, ok tt)
  parse_entries clock (path ∷ paths) parsed stats =
      if cancelled clock
      then (parsed, stats, err (engine EngineError.cancelled))
      else elim (parse_file client path) [
        | ok meta ↦
            parse_entries (clock + 1) paths (parsed ++ (some path, meta) ∷ []) (one_more stats)
        | err _ ↦ parse_entries (clock + 1) paths parsed (one_more stats)
      ]

  -- `dest` is the destination's answer to `get_all_info_hashes`.
  unfoldable pub scan_folder :
      Result (List Text)
      → Result (List Text)
      → List WriteOp
      → ReseedStats
      → ScanState × Result ScanResult
  unfolding parse_entries fresh_scan
  scan_folder entries dest sent stats = elim entries [
    | err e ↦ (fresh_scan sent stats, err e)
    | ok paths ↦
        let (parsed, stats', answer) = parse_entries 0 paths [] stats in
        elim answer [
          | err e ↦ (fresh_scan sent stats', err e)
          | ok _ ↦
              let (s, ingested) =
                ingest_parsed_metas cancelled closed find_existing (length paths) parsed
                  (fresh_scan sent stats') in
              elim ingested [
                | err e ↦ (s, err e)
                | ok _ ↦ elim dest [
                  | err e ↦ (s, err e)
                  | ok hashes ↦ (s, ok (record (s.result) { dest_hashes = hashes }))
                ]
              ]
        ]
  ]

  -- The loop over `torrent_dir`, which keeps a torrent once.
  unfoldable pub parse_dir :
      ℕ → List Text → Loop → ReseedStats → Loop × ReseedStats × Result (Unit {0})
  unfolding parse_file keep_parsed
  parse_dir clock [] s stats = (s, stats, ok tt)
  parse_dir clock (path ∷ paths) s stats =
      if cancelled clock
      then (s, stats, err (engine EngineError.cancelled))
      else elim (parse_file client path) [
        | ok meta ↦ parse_dir (clock + 1) paths (keep_parsed (some path, meta) s).0 (one_more stats)
        | err _ ↦ parse_dir (clock + 1) paths s (one_more stats)
      ]

  abbrev pub empty_loop : Loop
  empty_loop = record {
    parsed = [];
    seen_info_hashes = [];
    export_attempts = 0;
    export_hits = 0;
    local_file_hits = 0;
    pieces_hash_hits = 0;
    consecutive_misses = 0;
    export_available = true;
    local_file_available = false;
  }

  -- The scan of `torrent_dir`; `none` where it is not configured or no directory.
  unfoldable pub scan_dir :
      Option (Result (List Text)) → ReseedStats → Loop × ReseedStats × Result ℕ
  unfolding parse_dir
  scan_dir none stats = (empty_loop, stats, ok 0)
  scan_dir (some (err e)) stats = (empty_loop, stats, err e)
  scan_dir (some (ok paths)) stats =
      let (s, stats', answer) = parse_dir 0 paths empty_loop stats in
      (s, stats', elim answer [ ok _ ↦ ok (length paths) | err e ↦ err e ])

  unfoldable pub nothing_found : Listing → Loop → CoreError
  nothing_found l s = engine (
      EngineError.scan_failed (
        codes "downloader source has "
        ++ (to_decimal (length l.hashes)
            ++ (codes
                  " torrents but none were materializable via torrent_dir, torrentFile, export, or pieces_hash (export_attempts="
                ++ (to_decimal s.export_attempts
                    ++ (codes ", export_hits="
                        ++ (to_decimal s.export_hits
                            ++ (codes ", local_file_hits="
                                ++ (to_decimal s.local_file_hits
                                    ++ (codes ", pieces_hash_hits="
                                        ++ (to_decimal s.pieces_hash_hits
                                            ++ codes
                                                "); configure torrent_dir / share Transmission torrents dir, or use a client that supports export/pieceHashes")))))))))))

  -- From the collected torrents on.
  unfoldable pub finish_scan :
      Option (Result (List Text)) → ℕ → Listing → Loop → ScanState → ScanState × Result ScanResult
  unfolding nothing_found
  finish_scan dest clock l s state =
      if not (is_empty l.hashes) && is_empty s.parsed
      then (state, err (nothing_found l s))
      else let (state', ingested) =
          ingest_parsed_metas cancelled closed find_existing clock s.parsed state in
        elim ingested [
          | err e ↦ (state', err e)
          | ok _ ↦
              let found : ScanResult = record (state'.result) { save_paths = l.save_paths } in
              elim dest [
                | none ↦ (state', ok found)
                | some (err e) ↦ (state', err e)
                | some (ok hashes) ↦ (state', ok (record found { dest_hashes = hashes }))
              ]
        ]

  unfoldable pub scan_downloader :
      (Text → Text)
      → Option (Result (List Text))
      → Option (Result (List Text))
      → List WriteOp
      → ReseedStats
      → ScanState × Result ScanResult
  unfolding scan_dir listing materialize_all finish_scan fresh_scan
  scan_downloader trim torrent_dir dest sent stats =
      let (s₀, stats₀, scanned_dir) = scan_dir torrent_dir stats in
      elim scanned_dir [
        | err e ↦ (fresh_scan sent stats₀, err e)
        | ok clock ↦ elim (listing trim client) [
          | err e ↦ (fresh_scan sent stats₀, err e)
          | ok l ↦
              let start : Loop = record s₀ {
                local_file_available = not (is_empty l.listed_torrent_files);
              } in
              let (s₁, stats₁, looped) =
                materialize_all client l cancelled clock l.hashes start stats₀ in
              elim looped [
                | err e ↦ (fresh_scan sent stats₁, err e)
                | ok _ ↦ finish_scan dest (clock + length l.hashes) l s₁ (fresh_scan sent stats₁)
              ]
        ]
      ]
