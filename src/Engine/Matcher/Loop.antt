-- ===== src/Engine/Matcher/Loop.antt =====
-- The loop of `match_single_site` in crates/core/src/engine/matcher.rs: its rounds and its batches.
use pt_reseeder.Base.{
  ltb, Bool-cases, ◌&&◌, take, inl, inr, ℕ, zero, suc, ◌+◌, ◌≤◌, ◌<◌, ◌≢◌, Bool, List, [], ◌∷◌,
  ◌++◌, arith, length, drop, length-drop, map,
}
use pt_reseeder.Base.Text.{Text}
use pt_reseeder.Error.Results.{Result-cases}
use pt_reseeder.Site.RateLimiter.{Limiter, record_error, record_success}
use pt_reseeder.Base.Maps.{TextMap}
use pt_reseeder.Engine.Matcher.{
  SiteBatchState, halve, LoopState, out_of_fuel, batch_too_large, MatchOptions, Reseed, match_loop,
  match_single_site, to_matched,
}

-- Halving a batch that is above the least size makes it smaller, and keeps it at that size or above.
pub halve_bounds :
    (b : SiteBatchState)
    → b.min_batch_size < b.batch_size
    → ((halve b).batch_size < b.batch_size) × (b.min_batch_size ≤ (halve b).batch_size)
unfolding halve
halve_bounds b h = ground arith

module _ (o : MatchOptions) (paths : TextMap Text) (site_id : ℕ) (r : Reseed) (time : ℕ → ℕ)
    (cancelled : ℕ → Bool) where
  match_loop-ends :
      (f clock : ℕ) (s : LoopState) (hashes : List Text)
      → 1 ≤ s.batch.batch_size
      → 1 ≤ s.batch.min_batch_size
      → length hashes + s.batch.batch_size < f
      → match_loop o paths site_id r time cancelled f clock s hashes ≢ out_of_fuel
  unfolding match_loop halve
  match_loop-ends zero clock s hashes h k l = absurd (omega arith)
  match_loop-ends (suc f) clock s [] h k l = cc
  match_loop-ends (suc f) clock s (x ∷ xs) h k l =
      let b = s.batch.batch_size in
      let size = length-drop b (x ∷ xs) in
      elim (Result-cases (r.query clock (take b (x ∷ xs)))) [
        | inl (matches, q) ↦ ground (
          arith,
          size,
          match_loop-ends f (clock + 1)
              (record s {
                limiter = record_success s.limiter;
                all_matches = s.all_matches ++ map (to_matched o paths site_id r) matches;
              })
              (drop b (x ∷ xs)),
        )
        | inr (e, q) ↦
            elim (Bool-cases (batch_too_large e && ltb s.batch.min_batch_size s.batch.batch_size)) [
              | inl large ↦ ground (
                arith,
                match_loop-ends f (clock + 1) (record s { batch = halve s.batch }) (x ∷ xs),
              )
              | inr other ↦ ground (
                arith,
                size,
                match_loop-ends f (clock + 1)
                    (record s { limiter = (record_error s.limiter (time clock)).0 })
                    (drop b (x ∷ xs)),
              )
            ]
      ]

-- The rounds that `match_single_site` is given are enough: with a batch of at least one it always
-- ends by itself, whatever the site answers, however often a batch is refused as too large, and
-- whenever the run is cancelled.
pub match_single_site-ends :
    (o : MatchOptions) (paths : TextMap Text) (site_id : ℕ) (r : Reseed) (time : ℕ → ℕ)
    (cancelled : ℕ → Bool) (limiter : Limiter) (initial_batch_size : ℕ) (hashes : List Text)
    → 1 ≤ initial_batch_size
    → match_single_site o paths site_id r time cancelled limiter initial_batch_size hashes
      ≢ out_of_fuel
unfolding match_single_site
match_single_site-ends o paths site_id r time cancelled limiter initial_batch_size hashes h =
    match_loop-ends o paths site_id r time cancelled (length hashes + initial_batch_size + 1) 0 _
      hashes h (omega arith) (omega arith)
