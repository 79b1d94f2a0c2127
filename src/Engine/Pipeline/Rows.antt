-- ===== src/Engine/Pipeline/Rows.antt =====
-- crates/core/src/engine/pipeline.rs: the rows of the preview after the third phase.
use pt_reseeder.Base.{ℕ, ◌≡◌, Bool, Option, List}
use pt_reseeder.Base.Int.{ℤ}
use pt_reseeder.Base.Text.{Text}
use pt_reseeder.Error.{CoreError, Result, Outcome, returned}
use pt_reseeder.Engine.Adder.{AdderState, MatchedTorrent, AddTorrentOpts, Response, add_torrent}
use pt_reseeder.Engine.DryRun.{DryRunPreview, DryRunPreviewItem, Registry}
use pt_reseeder.Engine.Pipeline.{Channel, Pending, Adding}
use pt_reseeder.Site.RateLimiter.{Limiter}
use pt_reseeder.Engine.Pipeline.Ends.{Tells, HasEnd}

module _ (sha1 : Text → Text) (display : CoreError → Text) (add : AddTorrentOpts → Result Bool)
    (to_json : DryRunPreview → Option Text) (channel : Channel) (log_id : Option ℕ)
    (elapsed_ms : ℤ) where
  -- `o` says how some adder of the pair ended.
  abbrev pub Ended : Bool → Text → ℕ → Text → Type 0
  Ended auto_start hash site o =
      (start : AdderState) × (m : MatchedTorrent) × (answers : List (ℕ × Response)) × (m.pieces_hash
        ≡ hash)
      × (m.site_id ≡ site)
      × (let (after, added) = add_torrent sha1 display add start m answers auto_start in
          Tells start.stats after.stats added o)

  -- What `s'` has more than `s`: every row that says how an adder ended is kept.
  abbrev Keeps : Bool → Adding → Adding → Type 0
  Keeps auto_start s s' =
      (hash : Text) (site : ℕ)
      → HasEnd (Ended auto_start) hash site s.preview.items
      → HasEnd (Ended auto_start) hash site s'.preview.items

  -- `r` comes from `s` by the adder of `p`.
  abbrev Notes : Bool → Pending → Adding → Adding × Outcome (Unit {0}) → Type 0
  Notes auto_start p s r =
      Keeps auto_start s r.0
      × (r.1 ≡ returned tt
          → HasEnd (Ended auto_start) p.item.pieces_hash p.item.site_id r.0.preview.items)

  -- The row of an adder is of its torrent's pair.
  abbrev Fits : Pending → Type 0
  Fits p = (p.matched.pieces_hash ≡ p.item.pieces_hash) × (p.matched.site_id ≡ p.item.site_id)

  abbrev HasRow : Bool → Adding → Pending → Type 0
  HasRow auto_start s p =
      HasEnd (Ended auto_start) p.item.pieces_hash p.item.site_id s.preview.items

  module _ (registry : Registry)
      (site_of : MatchedTorrent → List (ℕ × Response) × Option Limiter) where
    abbrev Shown : Bool → List DryRunPreviewItem → MatchedTorrent → Type 0
    Shown auto_start items m = HasEnd (Ended auto_start) m.pieces_hash m.site_id items
