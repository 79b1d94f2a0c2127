-- ===== src/Engine/Scanner/Materialize.antt =====
-- crates/core/src/engine/scanner.rs: the loop of `scan_downloader` over the hashes of the client, which
-- tries a local file, then the export, then the pieces hash alone.
pub mod Seen
pub mod Misses
pub mod Complete
use pt_reseeder.Base.{
  ℕ, ◌+◌, Bool, true, false, not, ◌&&◌, Option, none, some, List, [], ◌∷◌, ◌++◌, leb, ◌==◌,
  if◌then◌else◌, is_empty, or_else,
}
use pt_reseeder.Base.Text.{Text, contains_text}
use pt_reseeder.Base.Maps.{find}
use pt_reseeder.Error.{CoreError, engine, EngineError, Result, ok, err}
use pt_reseeder.Torrent.Parser.{TorrentMeta, TorrentFile}
use pt_reseeder.Engine.Stats.{ReseedStats, add_to}
use pt_reseeder.Engine.Scanner.{Parsed, Client, Listing, Loop}

-- `if seen_info_hashes.insert(…) { parsed.push(…) }`: whether it was new.
unfoldable pub keep_parsed : Parsed → Loop → Loop × Bool
keep_parsed p s = if contains_text s.seen_info_hashes p.1.info_hash then (s, false) else (
  record s {
    parsed = s.parsed ++ p ∷ [];
    seen_info_hashes = s.seen_info_hashes ++ p.1.info_hash ∷ [];
  },
  true,
)

-- What is known of a torrent whose pieces hash alone is known.
unfoldable pub meta_from_hash : Listing → Text → Text → TorrentMeta
unfolding find
meta_from_hash l hash pieces_hash =
    let name : Text = or_else (find hash l.listed_names) hash in
    let total_size : ℕ = or_else (find hash l.listed_sizes) 0 in
    record {
      info_hash = hash;
      pieces_hash = pieces_hash;
      name = name;
      total_size = total_size;
      files = record { path = name ∷ []; length = total_size } ∷ [];
      announce = none;
      announce_list = [];
      piece_length = 0;
      pieces_count = 0;
    }

module _ (client : Client) (l : Listing) where
  -- The path of a local file is unreadable: while no file was read, local paths are given up, and the
  -- export with them unless it has worked.
  unfoldable pub give_up_local : Loop → Loop
  give_up_local s =
      if s.local_file_hits == 0
      then record s {
        local_file_available = false;
        export_available = if s.export_hits == 0 then false else s.export_available;
      }
      else s

  unfoldable pub try_local : Text → Loop → Loop × Bool
  unfolding find keep_parsed give_up_local
  try_local hash s = elim s.local_file_available [
    | false ↦ (s, false)
    | true ↦ elim (find hash l.listed_torrent_files) [
      | none ↦ (s, false)
      | some path ↦ elim (client.read path) [
        | err e ↦ (give_up_local s, false)
        | ok bytes ↦ elim (is_empty bytes) [
          | true ↦ (s, false)
          | false ↦ elim (client.parse bytes) [
            | err e ↦ (s, false)
            | ok meta ↦
                let (s', fresh) = keep_parsed (some path, meta) s in
                if fresh
                then (record s' { local_file_hits = s'.local_file_hits + 1 }, true)
                else (s', false)
          ]
        ]
      ]
    ]
  ]

  unfoldable pub try_export : Text → Loop → Loop × Bool
  unfolding keep_parsed
  try_export hash s = elim s.export_available [
    | false ↦ (s, false)
    | true ↦
        let s₁ : Loop = record s { export_attempts = s.export_attempts + 1 } in
        elim (client.export_torrent hash) [
          | err e ↦ (s₁, false)
          | ok exported ↦ elim exported [
            | none ↦ (s₁, false)
            | some bytes ↦ elim (client.parse bytes) [
              | err e ↦ (s₁, false)
              | ok meta ↦
                  let (s', fresh) = keep_parsed (none, meta) s₁ in
                  if fresh
                  then (record s' { export_hits = s'.export_hits + 1 }, true)
                  else (s', false)
            ]
          ]
        ]
  ]

  unfoldable pub try_pieces_hash : Text → Loop → Loop × Bool
  unfolding keep_parsed meta_from_hash
  try_pieces_hash hash s = elim (client.get_pieces_hash hash) [
    | err e ↦ (s, false)
    | ok found ↦ elim found [
      | none ↦ (s, false)
      | some pieces_hash ↦
          let (s', fresh) = keep_parsed (none, meta_from_hash l hash pieces_hash) s in
          if fresh
          then (
            record s' {
              pieces_hash_hits = s'.pieces_hash_hits + 1;
              export_available =
                  s'.export_available && not (s'.export_hits == 0 && s'.local_file_hits == 0);
            },
            true,
          )
          else (s', false)
    ]
  ]

  -- `if !materialized { … }`.
  abbrev pub or_try : (Loop → Loop × Bool) → Loop × Bool → Loop × Bool
  or_try next (s, true) = (s, true)
  or_try next (s, false) = next s

  unfoldable pub materialize : Text → Loop → Loop
  materialize hash s =
      let (s', found) =
        or_try (try_pieces_hash hash) (or_try (try_export hash) (try_local hash s)) in
      record s' { consecutive_misses = if found then 0 else s'.consecutive_misses + 1 }

  -- Three misses in a row before anything was found.
  unfoldable pub hopeless : Loop → Bool
  hopeless s =
      leb 3 s.consecutive_misses
      && s.export_hits == 0
      && s.pieces_hash_hits == 0
      && s.local_file_hits == 0

  module _ (cancelled : ℕ → Bool) where
    -- How many hashes were looked at is counted in `stats`.
    unfoldable pub materialize_all :
        ℕ → List Text → Loop → ReseedStats → Loop × ReseedStats × Result (Unit {0})
    unfolding materialize hopeless
    materialize_all clock [] s stats = (s, stats, ok tt)
    materialize_all clock (hash ∷ hashes) s stats =
        if cancelled clock
        then (s, stats, err (engine EngineError.cancelled))
        else elim (contains_text s.seen_info_hashes hash) [
          | true ↦ materialize_all (clock + 1) hashes s stats
          | false ↦
              let stats' : ReseedStats = record stats { scanned = add_to stats.scanned 1 } in
              let s' = materialize hash s in
              elim (hopeless s') [
                | true ↦ (s', stats', ok tt)
                | false ↦ materialize_all (clock + 1) hashes s' stats'
              ]
        ]
