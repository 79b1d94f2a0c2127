-- ===== src/Tests/Pipeline.antt =====
-- crates/core/src/engine/pipeline.rs and the filters of engine/matcher.rs at concrete inputs.
use pt_reseeder.Base.{
  ℕ, ◌+◌, ◌≡◌, ◌≢◌, refl, Bool, true, false, Option, none, some, List, [], ◌∷◌, All, map, or_else,
}
use pt_reseeder.Base.Int.{ℤ, pos}
use pt_reseeder.Base.Text.{Text, codes, text_eq, to_ascii_lowercase}
use pt_reseeder.Base.Maps.{TextMap, find, put}
use pt_reseeder.Error.{CoreError, Result, ok, err, internal, returned}
use pt_reseeder.Site.RateLimiter.{Limiter}
use pt_reseeder.Engine.Stats.{new}
use pt_reseeder.Engine.Scanner.{empty_scan_result}
use pt_reseeder.Engine.Adder.{MatchedTorrent, AddTorrentOpts, Response}
use pt_reseeder.Engine.Filter.{extract_domain}
use pt_reseeder.Engine.Matcher.{MatchOptions, HistorySkippedTorrent}
use pt_reseeder.Engine.Matcher.Sites.{Plan, plan_site}
use pt_reseeder.Engine.Matcher.Sites.Filtered.{Announced, count, plan_site-All}
use pt_reseeder.Engine.DryRun.{DryRunPreview, Registry, run_preview}
use pt_reseeder.Engine.Pipeline.{Channel, add_phase}
use pt_reseeder.Engine.Pipeline.Run.{Environment, run_pipeline}
use pt_reseeder.Engine.Pipeline.Run.Dry.{run_pipeline-IsDry}

abbrev options : MatchOptions
options = record { default_save_path = codes "/d"; skip_hash_check = false; tag = none }

-- The hash 1 is seeded on the site's own tracker, and 2 was taken before.
abbrev announced : TextMap (List Text)
announced = ((1 ∷ []), codes "http://a.org/x" ∷ []) ∷ []

abbrev two_taken : TextMap (Option ℤ)
two_taken = ((2 ∷ []), none) ∷ []

abbrev taken : List Text → ℕ → Result (TextMap (Option ℤ))
taken hashes site_id = ok two_taken

abbrev three_hashes : List Text
three_hashes = (1 ∷ []) ∷ (2 ∷ []) ∷ (3 ∷ []) ∷ []

plan_site-All_example :
    (plan : Plan) × (plan_site to_ascii_lowercase announced taken [] options three_hashes 7
        (codes "https://a.org/")
      ≡ ok plan)
    × All
        (λ h.
          All
            (λ url.
              extract_domain to_ascii_lowercase url
              ≢ extract_domain to_ascii_lowercase (codes "https://a.org/"))
            (or_else (find h announced) [])
          × (find h two_taken ≡ none))
        plan.query_hashes
    × All
        (λ h.
          Announced
            (extract_domain to_ascii_lowercase)
            (extract_domain to_ascii_lowercase (codes "https://a.org/"))
            (or_else (find h announced) []))
        plan.tracker_filtered
    × All
        (λ (k : HistorySkippedTorrent).
          (find k.pieces_hash two_taken ≡ some k.torrent_id) × (k.site_id ≡ 7))
        plan.history_skipped
    × ((t : Text)
        → count t plan.tracker_filtered
            + count t (map (λ (k : HistorySkippedTorrent). k.pieces_hash) plan.history_skipped)
            + count t plan.query_hashes
          ≡ count t three_hashes)
plan_site-All_example =
    plan_site-All to_ascii_lowercase announced taken [] options three_hashes 7
      (codes "https://a.org/") (((2 ∷ []), none) ∷ []) refl

abbrev open_channel : Channel
open_channel = record { closed = λ _. false; flushed = λ _. ok tt }

abbrev match : MatchedTorrent
match = record {
  pieces_hash = codes "p";
  site_id = 7;
  torrent_id = none;
  download_url = [];
  save_path = [];
  skip_hash_check = false;
  tag = none;
}

abbrev no_preview : DryRunPreview
no_preview = record {
  version = 4;
  would_add_count = 1;
  dry_run = false;
  history_skipped_count = 0;
  items = [];
}

abbrev no_site : Registry
no_site i = none

abbrev no_add : AddTorrentOpts → Result Bool
no_add opts = err (internal [])

abbrev same : Text → Text
same t = t

abbrev plain : CoreError → Text
plain e = []

abbrev no_json : DryRunPreview → Option Text
no_json p = none

abbrev no_answers : MatchedTorrent → List (ℕ × Response) × Option Limiter
no_answers m = ([], none)

-- The site does not answer, so that the adder fails.
abbrev after_adding : DryRunPreview
after_adding =
    (add_phase same plain no_add no_json open_channel (some 1) (pos 9) no_site no_answers false
      (λ _. false) empty_scan_result (match ∷ []) no_preview [] new []).0.preview

abbrev environment : Environment
environment = record {
  sha1 = same;
  display = plain;
  add = no_add;
  to_json = no_json;
  channel = open_channel;
  elapsed_ms = pos 9;
  registry = no_site;
  site_of = no_answers;
  scans =
      (λ sent stats. (
        record { result = empty_scan_result; sent = sent; cache_batch = []; stats = stats },
        ok (record {
          torrents = [];
          pieces_groups = (codes "p", codes "h" ∷ []) ∷ [];
          dest_hashes = [];
          save_paths = [];
        }),
      ))
      ∷ [];
  dest_hashes = ok [];
  match_sites = λ scan stats. (stats, ok (record { matched = match ∷ []; history_skipped = [] }));
  http_client = ok tt;
  stop_scan = λ _. false;
  stop_match = false;
  stop_add = λ _. false;
}

abbrev yes : AddTorrentOpts → Result Bool
yes opts = ok true

run_pipeline-IsDry_example :
    ((run_pipeline environment (some 1) false true [] []).history ≡ [])
    × (run_pipeline
          (record environment { add = yes; site_of = no_answers })
          (some 1)
          false
          true
          []
          []
        ≡ run_pipeline environment (some 1) false true [] [])
run_pipeline-IsDry_example = run_pipeline-IsDry environment (some 1) false yes no_answers [] []

-- That run shows its match.
dry_run_shows :
    (run_pipeline environment (some 1) false true [] []).answer
    ≡ returned (
        run_preview
          (record empty_scan_result { pieces_groups = (codes "p", codes "h" ∷ []) ∷ [] })
          no_site
          []
          (match ∷ [])
          true)
unfolding run_pipeline find put text_eq empty_scan_result
dry_run_shows = refl
