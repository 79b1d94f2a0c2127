-- ===== src/Engine/Matcher.antt =====
-- crates/core/src/engine/matcher.rs. Maps and sets are association lists and lists; the answers of
-- a site, the registry and the database are parameters. The tasks of the sites share nothing but
-- the counters, so they are run one after the other.
pub mod Loop
pub mod Sites
use pt_reseeder.Base.{
  ℕ, zero, suc, ◌+◌, ◌/◌, Bool, true, false, not, ◌&&◌, ◌||◌, Option, none, some, List, [], ◌∷◌,
  ◌++◌, max, ltb, if◌then◌else◌, or_else, length, take, drop, map,
}
use pt_reseeder.Base.Int.{ℤ}
use pt_reseeder.Base.Text.{Text, codes, text_eq, contains}
use pt_reseeder.Base.Maps.{TextMap, find}
use pt_reseeder.Error.{CoreError, engine, EngineError, site, SiteError, Result, ok, err}
use pt_reseeder.Torrent.Parser.{TorrentMeta}
use pt_reseeder.Engine.Filter.{filter_by_tracker}
use pt_reseeder.Engine.Adder.{MatchedTorrent}
use pt_reseeder.Site.RateLimiter.{Limiter, acquire, record_success, record_error}

pub record SiteBatchState : Type 0 where
  pub batch_size : ℕ
  pub min_batch_size : ℕ

unfoldable pub new_batch : ℕ → SiteBatchState
new_batch initial = record { batch_size = initial; min_batch_size = 50 }

unfoldable pub halve : SiteBatchState → SiteBatchState
halve b = record b { batch_size = max (b.batch_size / 2) b.min_batch_size }

pub record HistorySkippedTorrent : Type 0 where
  pub pieces_hash : Text
  pub site_id : ℕ
  pub torrent_id : Option ℤ
  pub save_path : Text

pub record MatchPhaseOutput : Type 0 where
  pub matched : List MatchedTorrent
  pub history_skipped : List HistorySkippedTorrent

-- What a site's adapter offers: its batch size, its answer to a batch at a step, and its links.
pub record Reseed : Type 0 where
  pub batch_size : ℕ
  pub query : ℕ → List Text → Result (List (Text × ℤ))
  pub build_download_url : ℤ → Text

pub record SiteHandle : Type 0 where
  pub base_url : Text
  pub reseed : Option Reseed
  pub rate_limiter : Limiter

-- The options of a run that reach every match.
pub record MatchOptions : Type 0 where
  pub default_save_path : Text
  pub skip_hash_check : Bool
  pub tag : Option Text

unfoldable pub batch_too_large : CoreError → Bool
batch_too_large (site (SiteError.http_error msg)) =
    contains msg (codes "413") || contains msg (codes "400") || contains msg (codes "500")
batch_too_large _ = false

unfoldable pub save_path_for : TextMap Text → Text → Text → Text
unfolding find
save_path_for paths default h = or_else (find h paths) default

unfoldable pub to_matched : MatchOptions → TextMap Text → ℕ → Reseed → Text × ℤ → MatchedTorrent
unfolding save_path_for
to_matched o paths site_id r (h, torrent_id) = record {
  pieces_hash = h;
  site_id = site_id;
  torrent_id = some torrent_id;
  download_url = r.build_download_url torrent_id;
  save_path = save_path_for paths o.default_save_path h;
  skip_hash_check = o.skip_hash_check;
  tag = o.tag;
}

pub record LoopState : Type 0 where
  pub batch : SiteBatchState
  pub limiter : Limiter
  pub all_matches : List MatchedTorrent

-- How the loop of `match_single_site` ends; `out_of_fuel` has no counterpart in the program.
pub data MatchEnd : Type 0 where
  complete : LoopState → MatchEnd
  tripped : LoopState → MatchEnd
  failed : CoreError → MatchEnd
  out_of_fuel : MatchEnd

module _ (o : MatchOptions) (paths : TextMap Text) (site_id : ℕ) (r : Reseed) where
  -- The loop; `hashes[cursor..]` stands for the cursor, and `clock` is the round: the time of the
  -- round and whether the run has been cancelled by then depend on it.
  unfoldable pub match_loop : (ℕ → ℕ) → (ℕ → Bool) → ℕ → ℕ → LoopState → List Text → MatchEnd
  unfolding halve batch_too_large
  match_loop time cancelled zero clock s hashes = out_of_fuel
  match_loop time cancelled (suc f) clock s [] = complete s
  match_loop time cancelled (suc f) clock s (h ∷ hs) =
      let chunk = take s.batch.batch_size (h ∷ hs) in
      let later = drop s.batch.batch_size (h ∷ hs) in
      elim (cancelled clock) [
        | true ↦ failed (engine EngineError.cancelled)
        | false ↦ elim (acquire s.limiter (time clock)) [
          | err e ↦ failed e
          | ok _ ↦ elim (r.query clock chunk) [
            | ok matches ↦
                match_loop time cancelled f (clock + 1)
                  (record s {
                    limiter = record_success s.limiter;
                    all_matches = s.all_matches ++ map (to_matched o paths site_id r) matches;
                  })
                  later
            | err e ↦ elim (batch_too_large e && ltb s.batch.min_batch_size s.batch.batch_size) [
              | true ↦
                  match_loop time cancelled f (clock + 1) (record s { batch = halve s.batch })
                    (h ∷ hs)
              | false ↦ elim (record_error s.limiter (time clock)).1 [
                | true ↦ tripped (record s { limiter = (record_error s.limiter (time clock)).0 })
                | false ↦
                    match_loop time cancelled f (clock + 1)
                      (record s { limiter = (record_error s.limiter (time clock)).0 }) later
              ]
            ]
          ]
        ]
      ]

  -- Each round takes a hash or more, or makes the batch smaller.
  unfoldable pub match_single_site : (ℕ → ℕ) → (ℕ → Bool) → Limiter → ℕ → List Text → MatchEnd
  unfolding match_loop new_batch
  match_single_site time cancelled limiter initial_batch_size hashes =
      match_loop time cancelled (length hashes + initial_batch_size + 1) 0
        (record { batch = new_batch initial_batch_size; limiter = limiter; all_matches = [] })
        hashes

-- The first save path that any source info hash of a group has.
unfoldable pub first_path : TextMap Text → List Text → Option Text
unfolding find
first_path paths [] = none
first_path paths (ih ∷ ihs) = elim (find ih paths) [ some p ↦ some p | none ↦ first_path paths ihs ]

unfoldable pub save_paths_by_pieces : TextMap Text → TextMap (List Text) → TextMap Text
unfolding first_path
save_paths_by_pieces paths [] = []
save_paths_by_pieces paths ((h, ihs) ∷ groups) =
    let rest = save_paths_by_pieces paths groups in
    elim (first_path paths ihs) [ some p ↦ (h, p) ∷ rest | none ↦ rest ]

-- Filter 2 on the hashes that passed filter 1: those with a success in the history are set aside.
unfoldable pub split_history :
    TextMap (Option ℤ)
    → TextMap Text
    → Text
    → ℕ
    → List Text
    → List HistorySkippedTorrent × List Text
unfolding find save_path_for
split_history history paths default site_id [] = ([], [])
split_history history paths default site_id (h ∷ hs) =
    let (skipped, queried) = split_history history paths default site_id hs in
    elim (find h history) [
      | some torrent_id ↦ (
        record {
          pieces_hash = h;
          site_id = site_id;
          torrent_id = torrent_id;
          save_path = save_path_for paths default h;
        }
            ∷ skipped,
        queried,
      )
      | none ↦ (skipped, h ∷ queried)
    ]

module _ (to_lowercase : Text → Text) where
  -- Filter 1 keeps the hashes that are not seeded on the site's own tracker.
  unfoldable pub tracker_passes : TextMap (List Text) → Text → Text → Bool
  unfolding find
  tracker_passes announce base_url h =
      not (filter_by_tracker to_lowercase (or_else (find h announce) []) base_url)
