-- ===== src/Engine/DryRun.antt =====
-- crates/core/src/engine/dry_run.rs, and the part of engine/pipeline.rs that puts the preview of a
-- run together. The registry gives a site's name and base URL.
pub mod Rows
use pt_reseeder.Base.{
  ℕ, ◌-◌, ◌==◌, ltb, not, ◌&&◌, Bool, true, false, Option, none, some, List, [], ◌∷◌, ◌++◌, map,
  if◌then◌else◌, length, take, is_empty, is_some, or_else,
}
use pt_reseeder.Base.Int.{ℤ, as_i64}
use pt_reseeder.Base.Text.{Text, codes}
use pt_reseeder.Base.Decimal.{to_decimal, int_to_string}
use pt_reseeder.Torrent.Parser.{TorrentMeta}
use pt_reseeder.Engine.Adder.{MatchedTorrent}
use pt_reseeder.Base.Maps.{TextMap, find}
use pt_reseeder.Engine.Scanner.{ScanResult}
use pt_reseeder.Engine.Matcher.{HistorySkippedTorrent}

pub record DryRunPreviewItem : Type 0 where
  pub site_id : ℕ
  pub site_name : Text
  pub pieces_hash : Text
  pub torrent_id : Option ℤ
  pub title : Option Text
  pub save_path : Text
  pub total_size : Option ℤ
  pub detail_url : Option Text
  pub outcome : Option Text

pub record DryRunPreview : Type 0 where
  pub version : ℕ
  pub would_add_count : ℕ
  pub dry_run : Bool
  pub history_skipped_count : ℕ
  pub items : List DryRunPreviewItem

abbrev pub dry_run_preview_version : ℕ
dry_run_preview_version = 4

abbrev pub history_skip_item_cap : ℕ
history_skip_item_cap = 200

pub record SiteCore : Type 0 where
  pub name : Text
  pub base_url : Text

abbrev pub Registry : Type 0
Registry = ℕ → Option SiteCore

-- `trim_end_matches`.
unfoldable pub trim_end : ℕ → Text → Text
trim_end c [] = []
trim_end c (x ∷ xs) = let rest = trim_end c xs in if x == c && is_empty rest then [] else x ∷ rest

unfoldable pub site_name : Registry → ℕ → Text
site_name registry i = elim (registry i) [
  | none ↦ to_decimal i
  | some core ↦ if is_empty core.name then to_decimal i else core.name
]

unfoldable pub site_base_url : Registry → ℕ → Option Text
unfolding trim_end
site_base_url registry i = elim (registry i) [
  | none ↦ none
  | some core ↦ let url = trim_end b'/' core.base_url in if is_empty url then none else some url
]

unfoldable pub detail_url : Registry → ℕ → Option ℤ → Option Text
detail_url registry i none = none
detail_url registry i (some id) = elim (site_base_url registry i) [
  | none ↦ none
  | some base ↦ some (base ++ (codes "/details.php?id=" ++ int_to_string id))
]

-- What one torrent adds to the title and the size that were found so far.
unfoldable pub note_meta : TorrentMeta → Option Text × Option ℤ → Option Text × Option ℤ
note_meta meta (title, total_size) = (
  (if not (is_some title) && not (is_empty meta.name) then some meta.name else title),
  (if not (is_some total_size) && ltb 0 meta.total_size
      then some (as_i64 meta.total_size)
      else total_size),
)

-- The loop over the info hashes of a group, which stops when both are found.
unfoldable pub meta_loop :
    TextMap TorrentMeta → List Text → Option Text × Option ℤ → Option Text × Option ℤ
unfolding find note_meta
meta_loop torrents [] s = s
meta_loop torrents (h ∷ hs) s = elim (find h torrents) [
  | none ↦ meta_loop torrents hs s
  | some meta ↦
      let s' = note_meta meta s in
      elim (is_some s'.0 && is_some s'.1) [ true ↦ s' | false ↦ meta_loop torrents hs s' ]
]

unfoldable pub meta_from_scan : ScanResult → Text → Option Text × Option ℤ
unfolding meta_loop find
meta_from_scan scan pieces_hash = elim (find pieces_hash scan.pieces_groups) [
  | none ↦ (none, none)
  | some info_hashes ↦ meta_loop scan.torrents info_hashes (none, none)
]

module _ (scan : ScanResult) (registry : Registry) where
  unfoldable pub preview_item_from_match : MatchedTorrent → Option Text → DryRunPreviewItem
  unfolding meta_from_scan site_name detail_url
  preview_item_from_match matched outcome =
      let found : Option Text × Option ℤ = meta_from_scan scan matched.pieces_hash in
      record {
        site_id = matched.site_id;
        site_name = site_name registry matched.site_id;
        pieces_hash = matched.pieces_hash;
        torrent_id = matched.torrent_id;
        title = found.0;
        save_path = matched.save_path;
        total_size = found.1;
        detail_url = detail_url registry matched.site_id matched.torrent_id;
        outcome = outcome;
      }

  unfoldable pub preview_item_from_history_skip : HistorySkippedTorrent → DryRunPreviewItem
  unfolding meta_from_scan site_name detail_url
  preview_item_from_history_skip skip =
      let found : Option Text × Option ℤ = meta_from_scan scan skip.pieces_hash in
      record {
        site_id = skip.site_id;
        site_name = site_name registry skip.site_id;
        pieces_hash = skip.pieces_hash;
        torrent_id = skip.torrent_id;
        title = found.0;
        save_path = skip.save_path;
        total_size = found.1;
        detail_url = detail_url registry skip.site_id skip.torrent_id;
        outcome = some (codes "skipped");
      }

  unfoldable pub build_preview : List MatchedTorrent → Bool → DryRunPreview
  unfolding preview_item_from_match
  build_preview matched dry_run =
      let items = map (λ m. preview_item_from_match m none) matched in
      record {
        version = dry_run_preview_version;
        would_add_count = length items;
        dry_run = dry_run;
        history_skipped_count = 0;
        items = items;
      }

  -- The preview of a run: rows for the matches of a dry run, then rows for the skipped pairs.
  unfoldable pub run_preview :
      List HistorySkippedTorrent → List MatchedTorrent → Bool → DryRunPreview
  unfolding build_preview preview_item_from_history_skip
  run_preview history_skipped matched dry_run =
      let skipped_items =
        map preview_item_from_history_skip (take history_skip_item_cap history_skipped) in
      let preview = build_preview matched true in
      if dry_run
      then record preview {
        history_skipped_count = length history_skipped;
        items = preview.items ++ skipped_items;
      }
      else record {
        version = dry_run_preview_version;
        would_add_count = length matched;
        dry_run = false;
        history_skipped_count = length history_skipped;
        items = skipped_items;
      }
