-- ===== src/Engine/Scanner.antt =====
-- crates/core/src/engine/scanner.rs. The files, the client and the cache's answer are parameters, and
-- `parse` stands for `parser::parse_bytes` (where that panics, so does the scan). A set is iterated in
-- some order, which is that of its list.
pub mod Ingest
pub mod Batches
pub mod Materialize
pub mod Sources
pub mod Files
pub mod Outcomes
use pt_reseeder.Base.{
  ℕ, ◌+◌, Bool, true, false, not, ◌&&◌, Option, none, some, List, [], ◌∷◌, ◌++◌, map, leb, ltb,
  ◌==◌, if◌then◌else◌, length, is_empty, or_else,
}
use pt_reseeder.Base.Int.{as_i64}
use pt_reseeder.Base.Text.{Text, codes, text_eq, contains_text}
use pt_reseeder.Base.Maps.{TextMap, find, put, push_to}
use pt_reseeder.Base.Decimal.{to_decimal}
use pt_reseeder.Error.{CoreError, engine, EngineError, db, Result, ok, err}
use pt_reseeder.Db.Tables.{BulkPiecesCacheItem, WriteOp, bulk_upsert_pieces_cache}
use pt_reseeder.Torrent.Parser.{TorrentMeta, TorrentFile}
use pt_reseeder.Engine.Stats.{ReseedStats, add_to}

pub record ScanResult : Type 0 where
  pub torrents : TextMap TorrentMeta
  pub pieces_groups : TextMap (List Text)
  pub dest_hashes : List Text
  pub save_paths : TextMap Text

unfoldable pub empty_scan_result : ScanResult
empty_scan_result = record { torrents = []; pieces_groups = []; dest_hashes = []; save_paths = [] }

-- A torrent that was parsed, with the path of its file if it has one.
abbrev pub Parsed : Type 0
Parsed = Option Text × TorrentMeta

-- What a scan changes: its result, the operations it sent to the writer, the batch it collects for
-- the next one, and the counters.
pub record ScanState : Type 0 where
  pub result : ScanResult
  pub sent : List WriteOp
  pub cache_batch : List BulkPiecesCacheItem
  pub stats : ReseedStats

abbrev pub batch_limit : ℕ
batch_limit = 500

unfoldable pub first_tracker : List (List Text) → Option Text
first_tracker [] = none
first_tracker ([] ∷ tiers) = none
first_tracker ((url ∷ urls) ∷ tiers) = some url

unfoldable pub announce_url : TorrentMeta → Option Text
unfolding first_tracker
announce_url meta = elim meta.announce [
  | some url ↦ some url
  | none ↦ first_tracker meta.announce_list
]

unfoldable pub cache_item : Parsed → BulkPiecesCacheItem
unfolding announce_url
cache_item (path, meta) = record {
  pieces_hash = meta.pieces_hash;
  info_hash = meta.info_hash;
  torrent_name = some meta.name;
  file_path = path;
  total_size = some (as_i64 meta.total_size);
  announce_url = announce_url meta;
}

-- The torrent joins the group of its pieces hash, and is kept under its info hash.
unfoldable pub add_to_result : TorrentMeta → ScanResult → ScanResult
unfolding push_to put
add_to_result meta r = record r {
  pieces_groups = push_to meta.pieces_hash meta.info_hash r.pieces_groups;
  torrents = put meta.info_hash meta r.torrents;
}

-- The two ways a scan is stopped: the flag at its n-th look at it, and the writer's channel, which may
-- be closed when the n-th operation is sent.
module _ (cancelled : ℕ → Bool) (closed : ℕ → Bool) where
  unfoldable pub send : WriteOp → ScanState → ScanState × Result (Unit {0})
  send op s =
      if closed (length s.sent)
      then (s, err (db (codes "writer channel closed")))
      else (record s { sent = s.sent ++ op ∷ [] }, ok tt)

  -- `std::mem::take(&mut cache_batch)`, and the batch is sent.
  unfoldable pub send_batch : ScanState → ScanState × Result (Unit {0})
  unfolding send
  send_batch s = send (bulk_upsert_pieces_cache s.cache_batch) (record s { cache_batch = [] })

  -- One torrent that is not in the cache.
  unfoldable pub ingest_new : Parsed → ScanState → ScanState × Result (Unit {0})
  unfolding cache_item add_to_result send_batch
  ingest_new (path, meta) s =
      let s' : ScanState = record s {
        cache_batch = s.cache_batch ++ cache_item (path, meta) ∷ [];
        result = add_to_result meta s.result;
      } in
      if leb batch_limit (length s'.cache_batch) then send_batch s' else (s', ok tt)

  unfoldable pub ingest_known : Parsed → ScanState → ScanState
  unfolding add_to_result
  ingest_known (path, meta) s = record s {
    stats = record (s.stats) { cached_skip = add_to s.stats.cached_skip 1 };
    result = add_to_result meta s.result;
  }

  unfoldable pub ingest_loop :
      List Text → ℕ → List Parsed → ScanState → ScanState × Result (Unit {0})
  unfolding ingest_new ingest_known
  ingest_loop existing clock [] s = if is_empty s.cache_batch then (s, ok tt) else send_batch s
  ingest_loop existing clock (p ∷ ps) s =
      if cancelled clock
      then (s, err (engine EngineError.cancelled))
      else elim (contains_text existing p.1.info_hash) [
        | true ↦ ingest_loop existing (clock + 1) ps (ingest_known p s)
        | false ↦
            let (s', answer) = ingest_new p s in
            elim answer [ err e ↦ (s', err e) | ok _ ↦ ingest_loop existing (clock + 1) ps s' ]
      ]

  -- `find_existing` asks the cache which of these info hashes it has.
  unfoldable pub ingest_parsed_metas :
      (List Text → Result (List Text)) → ℕ → List Parsed → ScanState → ScanState × Result (Unit {0})
  unfolding ingest_loop
  ingest_parsed_metas find_existing clock parsed s =
      elim (find_existing (map (λ p. p.1.info_hash) parsed)) [
        | err e ↦ (s, err e)
        | ok existing ↦ ingest_loop existing clock parsed (record s { cache_batch = [] })
      ]

-- A `TorrentInfo`: what the client lists of a torrent that the scan reads.
pub record Listed : Type 0 where
  pub info_hash : Text
  pub name : Text
  pub save_path : Text
  pub total_size : ℕ
  pub torrent_file : Option Text

-- The source client, and reading and parsing a file.
pub record Client : Type 0 where
  pub list_torrents : Result (List Listed)
  pub get_all_info_hashes : Result (List Text)
  pub export_torrent : Text → Result (Option Text)
  pub get_pieces_hash : Text → Result (Option Text)
  pub read : Text → Result Text
  pub parse : Text → Result TorrentMeta

-- What the scan knows from the list.
pub record Listing : Type 0 where
  pub hashes : List Text
  pub save_paths : TextMap Text
  pub listed_names : TextMap Text
  pub listed_sizes : TextMap ℕ
  pub listed_torrent_files : TextMap Text

-- The variables of the loop over the hashes.
pub record Loop : Type 0 where
  pub parsed : List Parsed
  pub seen_info_hashes : List Text
  pub export_attempts : ℕ
  pub export_hits : ℕ
  pub local_file_hits : ℕ
  pub pieces_hash_hits : ℕ
  pub consecutive_misses : ℕ
  pub export_available : Bool
  pub local_file_available : Bool

module _ (trim : Text → Text) where
  -- `t.torrent_file…map(trim).filter(…)`: a path that is not blank.
  unfoldable pub usable_path : Option Text → Option Text
  usable_path none = none
  usable_path (some path) = if is_empty (trim path) then none else some (trim path)

  unfoldable pub note_listed : Listed → Listing → Listing
  unfolding usable_path put
  note_listed t l = record l {
    hashes = if contains_text l.hashes t.info_hash then l.hashes else l.hashes ++ t.info_hash ∷ [];
    save_paths =
        if is_empty t.save_path then l.save_paths else put t.info_hash t.save_path l.save_paths;
    listed_names =
        if is_empty t.name then l.listed_names else put t.info_hash t.name l.listed_names;
    listed_sizes =
        if ltb 0 t.total_size then put t.info_hash t.total_size l.listed_sizes else l.listed_sizes;
    listed_torrent_files = elim (usable_path t.torrent_file) [
      | none ↦ l.listed_torrent_files
      | some path ↦ put t.info_hash path l.listed_torrent_files
    ];
  }

  unfoldable pub note_all : List Listed → Listing → Listing
  unfolding note_listed
  note_all [] l = l
  note_all (t ∷ ts) l = note_all ts (note_listed t l)

  unfoldable pub listing : Client → Result Listing
  unfolding note_all
  listing client =
      let none_listed : List Text → Listing = λ hashes. record {
        hashes = hashes;
        save_paths = [];
        listed_names = [];
        listed_sizes = [];
        listed_torrent_files = [];
      } in
      let from_hashes : Result Listing = elim client.get_all_info_hashes [
        | err e ↦ err e
        | ok hashes ↦ ok (none_listed hashes)
      ] in
      elim client.list_torrents [
        | err e ↦ from_hashes
        | ok listed ↦ if is_empty listed then from_hashes else ok (note_all listed (none_listed []))
      ]
