-- ===== src/Engine/Adder/Concurrent.antt =====
-- crates/core/src/engine/pipeline.rs, phase 3: the adders of all matches run at once over the shared
-- claims, history and counters. An adder takes the lock for its claim, and has it no more while the
-- downloader is called; any adder may go on between two such steps of another.
-- The resume after an addition touches none of these, and is left out.
pub mod Exclusion
use pt_reseeder.Base.{
  ℕ, ◌≡◌, ◌≢◌, refl, sym, Bool, true, false, ◌||◌, Option, none, some, List, [], ◌∷◌, ◌==◌,
  if◌then◌else◌, arith, ==_iff, Bool-cases, inl, inr,
}
use pt_reseeder.Base.Text.{Text, text_eq, text_eq_iff, contains_text}
use pt_reseeder.Error.{CoreError, Result, ok, err}
use pt_reseeder.Torrent.Parser.{TorrentMeta}
use pt_reseeder.Engine.Adder.{
  AdderState, MatchedTorrent, AddTorrentOpts, Claim, settled, adding, claim, conclude,
  record_history, remove_hash,
}

-- One adder: it has its torrent downloaded and parsed, has claimed its info hash and waits for the
-- downloader, or is done. It holds a hash from the claim on, and for good if the torrent was added.
pub data Phase : Type 0 where
  waiting : Phase
  parsed : MatchedTorrent → Text → Bool → TorrentMeta → Phase
  calling : MatchedTorrent → AddTorrentOpts → TorrentMeta → Phase
  done : TorrentMeta → Bool → Phase

unfoldable pub holds : Phase → Option Text
holds (calling m opts meta) = some meta.info_hash
holds (done meta true) = some meta.info_hash
holds _ = none

pub record System : Type 0 where
  pub shared : AdderState
  pub phase : ℕ → Phase

abbrev pub update : (ℕ → Phase) → ℕ → Phase → ℕ → Phase
update f i p j = if j == i then p else f j

unfoldable pub after_claim : MatchedTorrent → TorrentMeta → Claim → Phase
after_claim m meta (settled b) = done meta b
after_claim m meta (adding opts) = calling m opts meta

module _ (sha1 : Text → Text) (display : CoreError → Text)
    (add : AddTorrentOpts → Result Bool) where
  -- The i-th adder moves: its torrent arrives, it claims, or the downloader answers, as it pleases.
  pub data Step (s : System) (t : System) : Type 0 where
    arrive :
        (i : ℕ) (m : MatchedTorrent) (bytes : Text) (auto_start : Bool) (meta : TorrentMeta)
        → s.phase i ≡ waiting
        → t ≡ record s { phase = update s.phase i (parsed m bytes auto_start meta) }
        → Step s t
    take :
        (i : ℕ) (m : MatchedTorrent) (bytes : Text) (auto_start : Bool) (meta : TorrentMeta)
        → s.phase i ≡ parsed m bytes auto_start meta
        → t ≡ record {
          shared = (claim sha1 display add s.shared m bytes auto_start meta).0;
          phase =
              update s.phase i
                (after_claim m meta (claim sha1 display add s.shared m bytes auto_start meta).1);
        }
        → Step s t
    answer :
        (i : ℕ) (m : MatchedTorrent) (opts : AddTorrentOpts) (meta : TorrentMeta)
        (reply : Result Bool)
        → s.phase i ≡ calling m opts meta
        → t ≡ record {
          shared = (conclude sha1 display add s.shared m meta.info_hash reply).0;
          phase =
              update s.phase i
                (done meta (conclude sha1 display add s.shared m meta.info_hash reply).1);
        }
        → Step s t

  pub data Reach (start : AdderState) : System → Type 0 where
    begin : {s : System} → s ≡ record { shared = start; phase = λ _. waiting } → Reach start s
    next : {s t : System} → Reach start s → Step s t → Reach start t
