-- ===== src/Engine/Matcher/Sites.antt =====
-- crates/core/src/engine/matcher.rs: `match_all_sites`. The database's answers and the registry are
-- parameters; the tasks of the sites are awaited in the order of the sites.
pub mod Filtered
use pt_reseeder.Base.{
  ℕ, ◌+◌, Bool, true, false, not, Option, none, some, List, [], ◌∷◌, ◌++◌, max, if◌then◌else◌,
  length, map, keep, is_empty,
}
use pt_reseeder.Base.Int.{ℤ}
use pt_reseeder.Base.Text.{Text}
use pt_reseeder.Base.Maps.{TextMap}
use pt_reseeder.Error.{CoreError, Result, ok, err}
use pt_reseeder.Engine.Stats.{ReseedStats, add_to}
use pt_reseeder.Engine.Scanner.{ScanResult}
use pt_reseeder.Engine.Adder.{MatchedTorrent}
use pt_reseeder.Engine.Matcher.{
  HistorySkippedTorrent, MatchPhaseOutput, Reseed, SiteHandle, MatchOptions, MatchEnd, complete,
  tripped, failed, out_of_fuel, match_single_site, save_paths_by_pieces, split_history,
  tracker_passes,
}

-- What the two filters make of the hashes for one site.
pub record Plan : Type 0 where
  pub tracker_filtered : List Text
  pub history_skipped : List HistorySkippedTorrent
  pub query_hashes : List Text

-- A task that was launched.
pub record SiteTask : Type 0 where
  pub site_id : ℕ
  pub handle : SiteHandle
  pub reseed : Reseed
  pub query_hashes : List Text

pub record Launched : Type 0 where
  pub stats : ReseedStats
  pub history_skipped : List HistorySkippedTorrent
  pub tasks : List SiteTask

-- `announce` are the announce URLs of each hash, and `history` answers which hashes a site has taken.
module _ (to_lowercase : Text → Text) (announce : TextMap (List Text))
    (history : List Text → ℕ → Result (TextMap (Option ℤ))) (paths : TextMap Text)
    (o : MatchOptions) where
  unfoldable pub plan_site : List Text → ℕ → Text → Result Plan
  unfolding tracker_passes split_history
  plan_site hashes site_id base_url =
      let passes : Text → Bool = tracker_passes to_lowercase announce base_url in
      let remaining = keep passes hashes in
      elim (history remaining site_id) [
        | err e ↦ err e
        | ok found ↦
            let (skipped, queried) =
              split_history found paths o.default_save_path site_id remaining in
            ok (record {
              tracker_filtered = keep (λ h. not (passes h)) hashes;
              history_skipped = skipped;
              query_hashes = queried;
            })
      ]

  unfoldable pub note_plan : ℕ → SiteHandle → Reseed → Plan → Launched → Launched
  note_plan site_id handle reseed plan l = record l {
    stats = record (l.stats) {
      skipped_tracker = add_to l.stats.skipped_tracker (length plan.tracker_filtered);
      skipped_history = add_to l.stats.skipped_history (length plan.history_skipped);
    };
    history_skipped = l.history_skipped ++ plan.history_skipped;
    tasks =
        if is_empty plan.query_hashes
        then l.tasks
        else l.tasks
          ++ record {
            site_id = site_id;
            handle = handle;
            reseed = reseed;
            query_hashes = plan.query_hashes;
          }
            ∷ [];
  }

  -- A site that is not registered or cannot reseed is passed over; a failed query ends the phase.
  unfoldable pub launch :
      (ℕ → Option SiteHandle) → List Text → List ℕ → Launched → Launched × Result (Unit {0})
  unfolding plan_site note_plan
  launch registry hashes [] l = (l, ok tt)
  launch registry hashes (site_id ∷ ids) l = elim (registry site_id) [
    | none ↦ launch registry hashes ids l
    | some handle ↦ elim handle.reseed [
      | none ↦ launch registry hashes ids l
      | some reseed ↦ elim (plan_site hashes site_id handle.base_url) [
        | err e ↦ (l, err e)
        | ok plan ↦ launch registry hashes ids (note_plan site_id handle reseed plan l)
      ]
    ]
  ]

module _ (paths : TextMap Text) (o : MatchOptions) where
  -- The matches of a task; the error of a site is only logged.
  unfoldable pub matches_of : MatchEnd → List MatchedTorrent
  matches_of (complete s) = s.all_matches
  matches_of (tripped s) = s.all_matches
  matches_of (failed e) = []
  matches_of out_of_fuel = []

  unfoldable pub await_all :
      (ℕ → ℕ)
      → (ℕ → Bool)
      → List SiteTask
      → ReseedStats × List MatchedTorrent
      → ReseedStats × List MatchedTorrent
  unfolding match_single_site matches_of
  await_all time cancelled [] s = s
  await_all time cancelled (t ∷ ts) (stats, matched) =
      let found = matches_of (
        match_single_site o paths t.site_id t.reseed time cancelled t.handle.rate_limiter
          (max t.reseed.batch_size 1) t.query_hashes) in
      await_all time cancelled ts
        (record stats { matched = add_to stats.matched (length found) }, matched ++ found)

-- `find_announce` is `find_announce_urls_by_pieces_hashes`.
unfoldable pub match_all_sites :
    (to_lowercase : Text → Text) (find_announce : List Text → Result (TextMap (List Text)))
    (history : List Text → ℕ → Result (TextMap (Option ℤ))) (registry : ℕ → Option SiteHandle)
    (time : ℕ → ℕ) (cancelled : ℕ → Bool) (o : MatchOptions)
    → ScanResult
    → List ℕ
    → ReseedStats
    → ReseedStats × Result MatchPhaseOutput
unfolding save_paths_by_pieces launch await_all
match_all_sites to_lowercase find_announce history registry time cancelled o scan ids stats =
    let hashes = map (λ (g : Text × List Text). g.0) scan.pieces_groups in
    let paths = save_paths_by_pieces scan.save_paths scan.pieces_groups in
    if is_empty scan.pieces_groups
    then (stats, ok (record { matched = []; history_skipped = [] }))
    else elim (find_announce hashes) [
      | err e ↦ (stats, err e)
      | ok announce ↦
          let (l, launched) =
            launch to_lowercase announce history paths o registry hashes ids
              (record { stats = stats; history_skipped = []; tasks = [] }) in
          elim launched [
            | err e ↦ (l.stats, err e)
            | ok _ ↦
                let (stats', matched) = await_all paths o time cancelled l.tasks (l.stats, []) in
                (stats', ok (record { matched = matched; history_skipped = l.history_skipped }))
          ]
    ]
