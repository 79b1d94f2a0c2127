-- ===== src/Engine/Pipeline.antt =====
-- crates/core/src/engine/pipeline.rs: `run_pipeline` without Jackett, which no caller sets. The scans and
-- the matching are taken at their arguments, and the adders of the third phase are run in the order in
-- which they end. `to_json` is `serde_json`; the progress channel of the interface has no state.
pub mod Ends
pub mod Rows
pub mod Run
use pt_reseeder.Base.{
  ℕ, ◌+◌, Bool, true, false, not, ◌&&◌, ◌==◌, ltb, Option, none, some, List, [], ◌∷◌, ◌++◌,
  if◌then◌else◌, length, is_empty, or_else, and_then,
}
use pt_reseeder.Base.Int.{ℤ, as_i64}
use pt_reseeder.Base.Text.{Text, codes, text_eq, contains_text}
use pt_reseeder.Base.Maps.{TextMap, find, put}
use pt_reseeder.Error.{
  CoreError, engine, EngineError, scan_failed, cancelled, db, Result, ok, err, Outcome, returned,
  failed, panicked, out_of_fuel,
}
use pt_reseeder.Db.Tables.{WriteOp, RunResult, History, update_task_log}
use pt_reseeder.Engine.Stats.{ReseedStats, add_to}
use pt_reseeder.Engine.Scanner.{ScanResult, ScanState, empty_scan_result}
use pt_reseeder.Engine.Adder.{AdderState, MatchedTorrent, AddTorrentOpts, Response, add_torrent}
use pt_reseeder.Engine.Matcher.{MatchPhaseOutput}
use pt_reseeder.Engine.DryRun.{
  DryRunPreview, DryRunPreviewItem, Registry, build_preview, run_preview, preview_item_from_match,
}
use pt_reseeder.Site.RateLimiter.{Limiter}

-- `HashMap::extend`.
unfoldable pub extend : {V : Type 0} → TextMap V → TextMap V → TextMap V
unfolding put
extend m [] = m
extend m ((k, v) ∷ rest) = extend (put k v m) rest

-- `entry(ph).or_default().extend(hashes)` for each group.
unfoldable pub extend_groups : TextMap (List Text) → TextMap (List Text) → TextMap (List Text)
unfolding find put
extend_groups m [] = m
extend_groups m ((k, hashes) ∷ rest) =
    extend_groups (put k (or_else (find k m) [] ++ hashes) m) rest

unfoldable pub merge : ScanResult → ScanResult → ScanResult
unfolding extend extend_groups
merge merged scan = record merged {
  torrents = extend merged.torrents scan.torrents;
  save_paths = extend merged.save_paths scan.save_paths;
  pieces_groups = extend_groups merged.pieces_groups scan.pieces_groups;
}

-- `scan_folder` or `scan_downloader` at a source, from what was sent and counted so far.
abbrev pub Scan : Type 0
Scan = List WriteOp → ReseedStats → ScanState × Result ScanResult

unfoldable pub scan_all :
    (ℕ → Bool)
    → ℕ
    → List Scan
    → ScanResult
    → List WriteOp
    → ReseedStats
    → List WriteOp × ReseedStats × Result ScanResult
unfolding merge
scan_all stop clock [] merged sent stats = (sent, stats, ok merged)
scan_all stop clock (scan ∷ scans) merged sent stats = elim (stop clock) [
  | true ↦ (sent, stats, err (engine EngineError.cancelled))
  | false ↦
      let (s, scanned) = scan sent stats in
      elim scanned [
        | err e ↦ (s.sent, s.stats, err e)
        | ok found ↦ scan_all stop (clock + 1) scans (merge merged found) s.sent s.stats
      ]
]

-- Whether the writer's channel is closed when so many operations were sent, and what it then answers to
-- a flush.
pub record Channel : Type 0 where
  pub closed : ℕ → Bool
  pub flushed : ℕ → Result (Unit {0})

module _ (to_json : DryRunPreview → Option Text) (channel : Channel) (log_id : Option ℕ)
    (elapsed_ms : ℤ) where
  unfoldable pub persist_run_progress :
      ReseedStats → DryRunPreview → List WriteOp → List WriteOp × Result (Unit {0})
  persist_run_progress stats preview sent = elim log_id [
    | none ↦ (sent, ok tt)
    | some id ↦
        let sent' : List WriteOp =
          sent
          ++ update_task_log id (record {
            status = codes "running";
            matched_count = as_i64 stats.matched;
            succeeded_count = as_i64 stats.added;
            failed_count = as_i64 stats.failed;
            duration_ms = some elapsed_ms;
            log_text = to_json preview;
          })
            ∷ [] in
        elim (channel.closed (length sent)) [
          | true ↦ (sent, err (db (codes "writer channel closed")))
          | false ↦ (sent', channel.flushed (length sent'))
        ]
  ]

abbrev pub same_pair : DryRunPreviewItem → DryRunPreviewItem → Bool
same_pair row item = text_eq row.pieces_hash item.pieces_hash && row.site_id == item.site_id

-- The first row of the pair is replaced, or the item is a new row.
unfoldable pub put_item : DryRunPreviewItem → List DryRunPreviewItem → List DryRunPreviewItem
put_item item [] = item ∷ []
put_item item (row ∷ rows) =
    let rest = put_item item rows in if same_pair row item then item ∷ rows else row ∷ rest

-- The adders' shared state, the preview under its lock, what was sent, and the limiters of the sites that
-- adders have changed.
pub record Adding : Type 0 where
  pub adder : AdderState
  pub preview : DryRunPreview
  pub sent : List WriteOp
  pub limiters : List (ℕ × Option Limiter)

-- An adder's torrent, its row so far, the answers of the site to its download, and the limiter of
-- the site before the phase.
pub record Pending : Type 0 where
  pub matched : MatchedTorrent
  pub item : DryRunPreviewItem
  pub answers : List (ℕ × Response)
  pub limiter : Option Limiter

-- The adders of a site share its limiter.
unfoldable pub limiter_of : List (ℕ × Option Limiter) → ℕ → Option Limiter → Option Limiter
limiter_of [] site fresh = fresh
limiter_of ((i, l) ∷ ls) site fresh =
    let rest = limiter_of ls site fresh in if i == site then l else rest

unfoldable pub outcome_of : ReseedStats → ReseedStats → Bool → Text
outcome_of before after true = codes "added"
outcome_of before after false =
    if ltb before.failed after.failed then codes "failed" else codes "skipped"

module _ (sha1 : Text → Text) (display : CoreError → Text) (add : AddTorrentOpts → Result Bool)
    (to_json : DryRunPreview → Option Text) (channel : Channel) (log_id : Option ℕ)
    (elapsed_ms : ℤ) where
  -- An adder is done: its row is put into the preview, which is written.
  unfoldable pub note_outcome : Text → Pending → AdderState → Adding → Adding × Outcome (Unit {0})
  unfolding put_item persist_run_progress
  note_outcome outcome p adder s =
      let item : DryRunPreviewItem = record (p.item) { outcome = some outcome } in
      let preview : DryRunPreview = record (s.preview) { items = put_item item s.preview.items } in
      let (sent, answer) =
        persist_run_progress to_json channel log_id elapsed_ms adder.stats preview s.sent in
      (
        record {
          adder = adder;
          preview = preview;
          sent = sent;
          limiters = (p.matched.site_id, adder.limiter) ∷ s.limiters;
        },
        elim answer [ ok _ ↦ returned tt | err e ↦ failed e ],
      )

  unfoldable pub note_added :
      Pending → AdderState → Outcome Bool → Adding → Adding × Outcome (Unit {0})
  unfolding note_outcome outcome_of
  note_added p after (returned added) s =
      note_outcome (outcome_of s.adder.stats after.stats added) p after s
  note_added p after (failed e) s =
      note_outcome (codes "failed") p
        (record after { stats = record (after.stats) { failed = add_to after.stats.failed 1 } }) s
  note_added p after panicked s = (record s { adder = after }, panicked)
  note_added p after out_of_fuel s = (record s { adder = after }, out_of_fuel)

  unfoldable pub add_one : Bool → Bool → Pending → Adding → Adding × Outcome (Unit {0})
  unfolding add_torrent note_added limiter_of
  add_one auto_start stopped p s = elim stopped [
    | true ↦ (s, failed (engine EngineError.cancelled))
    | false ↦
        let start : AdderState = record (s.adder) {
          limiter = limiter_of s.limiters p.matched.site_id p.limiter;
        } in
        let (after, added) = add_torrent sha1 display add start p.matched p.answers auto_start in
        note_added p after added s
  ]

  -- All adders end before the first error is returned, unless one panics.
  unfoldable pub add_all :
      Bool → (ℕ → Bool) → ℕ → List Pending → Adding → Option CoreError → Adding × Outcome (Unit {0})
  unfolding add_one
  add_all auto_start stop clock [] s first =
      (s, elim first [ none ↦ returned tt | some e ↦ failed e ])
  add_all auto_start stop clock (p ∷ ps) s first =
      let (s', ended) = add_one auto_start (stop clock) p s in
      elim ended [
        | panicked ↦ (s', panicked)
        | out_of_fuel ↦ (s', out_of_fuel)
        | returned _ ↦ add_all auto_start stop (clock + 1) ps s' first
        | failed e ↦
            add_all auto_start stop (clock + 1) ps s'
              (elim first [ none ↦ some e | some e' ↦ some e' ])
      ]

  -- The answers of the site to the download of a match, and the site's limiter.
  module _ (registry : Registry)
      (site_of : MatchedTorrent → List (ℕ × Response) × Option Limiter) where
    unfoldable pub pending_items : ScanResult → List MatchedTorrent → List Pending
    unfolding preview_item_from_match
    pending_items scan [] = []
    pending_items scan (m ∷ ms) =
        record {
          matched = m;
          item = preview_item_from_match scan registry m none;
          answers = (site_of m).0;
          limiter = (site_of m).1;
        }
        ∷ pending_items scan ms

    -- The third phase. The claims begin with the hashes of the destination.
    unfoldable pub add_phase :
        Bool
        → (ℕ → Bool)
        → ScanResult
        → List MatchedTorrent
        → DryRunPreview
        → List History
        → ReseedStats
        → List WriteOp
        → Adding × Outcome DryRunPreview
    unfolding add_all pending_items
    add_phase auto_start stop scan matched preview history stats sent =
        let start : Adding = record {
          adder = record {
            dest_hashes = scan.dest_hashes;
            history = history;
            stats = stats;
            limiter = none;
            resumed = [];
          };
          preview = preview;
          sent = sent;
          limiters = [];
        } in
        let (s, ended) = add_all auto_start stop 0 (pending_items scan matched) start none in
        (
          s,
          elim ended [
            | failed e ↦ failed e
            | panicked ↦ panicked
            | out_of_fuel ↦ out_of_fuel
            | returned _ ↦ elim (channel.flushed (length s.sent)) [
              | err e ↦ failed e
              | ok _ ↦ returned s.preview
            ]
          ],
        )
