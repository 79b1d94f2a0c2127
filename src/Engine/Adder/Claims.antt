-- ===== src/Engine/Adder/Claims.antt =====
-- The claims on info hashes and the history of crates/core/src/engine/adder.rs.
use pt_reseeder.Base.{
  ℕ, ◌⊎◌, refl, inl, inr, Bool-cases, length-append, ◌+◌, ◌≡◌, Bool, true, false, ◌∷◌, [], ◌++◌,
  arith, length, if◌then◌else◌,
}
use pt_reseeder.Base.Text.{Text, text_eq, text_eq_iff, contains_text}
use pt_reseeder.Error.{CoreError, Result, ok, err}
use pt_reseeder.Torrent.Parser.{TorrentMeta}
use pt_reseeder.Engine.Adder.{
  AdderState, MatchedTorrent, AddTorrentOpts, Claim, settled, adding, claim, add_parsed, conclude,
  record_history, add_opts, resume_added,
}

-- The lines of history that a claim has written.
abbrev logged : Claim → ℕ
logged (settled b) = 1
logged (adding opts) = 0

Claim-cases :
    (c : Claim) → ((b : Bool) × (c ≡ settled b)) ⊎ ((opts : AddTorrentOpts) × (c ≡ adding opts))
Claim-cases (settled b) = inl (b, refl)
Claim-cases (adding opts) = inr (opts, refl)

module _ (sha1 : Text → Text) (display : CoreError → Text)
    (add : AddTorrentOpts → Result Bool) where
  conclude-history :
      (s : AdderState) (m : MatchedTorrent) (info_hash : Text) (answer : Result Bool)
      → length (conclude sha1 display add s m info_hash answer).0.history ≡ length s.history + 1
  unfolding conclude
  conclude-history s m info_hash (ok true) = length-append s.history _
  conclude-history s m info_hash (ok false) = length-append s.history _
  conclude-history s m info_hash (err e) = length-append s.history _

  claim-history :
      (s : AdderState) (m : MatchedTorrent) (bytes : Text) (auto_start : Bool) (meta : TorrentMeta)
      → let (s', claimed) = claim sha1 display add s m bytes auto_start meta in
        length s'.history ≡ length s.history + logged claimed
  unfolding claim record_history
  claim-history s m bytes auto_start meta =
      elim (Bool-cases (text_eq meta.pieces_hash m.pieces_hash)) [
        | inr other ↦ rw (other, length) (length-append s.history _)
        | inl same ↦ elim (Bool-cases (contains_text s.dest_hashes meta.info_hash)) [
          | inl known ↦ rw (same, known, length) (length-append s.history _)
          | inr new ↦ rw (same, new, length) (omega arith)
        ]
      ]

  -- Whatever the outcome, an attempt that got as far as a parsed torrent writes one line of history.
  pub add_parsed-history :
      (s : AdderState) (m : MatchedTorrent) (bytes : Text) (auto_start : Bool) (meta : TorrentMeta)
      → length (add_parsed sha1 display add s m bytes auto_start meta).0.history
        ≡ length s.history + 1
  unfolding add_parsed resume_added
  add_parsed-history s m bytes auto_start meta =
      let (s', claimed) = claim sha1 display add s m bytes auto_start meta in
      let written = claim-history s m bytes auto_start meta in
      elim (Claim-cases claimed) [
        | inl (b, e) ↦ ground (arith, e, written)
        | inr (opts, e) ↦
            ground (arith, e, written, conclude-history s' m meta.info_hash (add opts))
      ]

  -- A torrent that the destination already has is not added again: the state keeps its claims, and
  -- the answer is that nothing was added, whatever the downloader would say.
  pub claimed_not_added :
      (s : AdderState) (m : MatchedTorrent) (bytes : Text) (auto_start : Bool) (meta : TorrentMeta)
      → contains_text s.dest_hashes meta.info_hash ≡ true
      → let (q, added) = add_parsed sha1 display add s m bytes auto_start meta in
        (added ≡ false) × (q.dest_hashes ≡ s.dest_hashes)
  unfolding add_parsed resume_added
  claimed_not_added s m bytes auto_start meta h = ground arith

  conclude-true :
      (s : AdderState) (m : MatchedTorrent) (info_hash : Text) (answer : Result Bool)
      → (conclude sha1 display add s m info_hash answer).1 ≡ true
      → answer ≡ ok true
  unfolding conclude
  conclude-true s m info_hash (ok true) e = refl
  conclude-true s m info_hash (ok false) e = ground arith
  conclude-true s m info_hash (err x) e = ground arith

  -- A torrent is reported as added only if its pieces are those that were matched, no earlier claim
  -- on its info hash stands, and the downloader took it; the claim then stands, and the torrent is
  -- resumed if it is to start. Where the downloader
  -- says that it did not take it, or fails, the torrent is not reported as added.
  pub added_claims :
      (s : AdderState) (m : MatchedTorrent) (bytes : Text) (auto_start : Bool) (meta : TorrentMeta)
      → (add_parsed sha1 display add s m bytes auto_start meta).1 ≡ true
      → (meta.pieces_hash ≡ m.pieces_hash)
        × (contains_text s.dest_hashes meta.info_hash ≡ false)
        × (add (add_opts m bytes auto_start) ≡ ok true)
        × ((add_parsed sha1 display add s m bytes auto_start meta).0.dest_hashes
            ≡ meta.info_hash ∷ s.dest_hashes)
        × ((add_parsed sha1 display add s m bytes auto_start meta).0.resumed
            ≡ (if auto_start then s.resumed ++ meta.info_hash ∷ [] else s.resumed))
  unfolding add_parsed conclude record_history resume_added
  added_claims s m bytes auto_start meta h = ground (
    arith,
    text_eq_iff meta.pieces_hash m.pieces_hash,
    conclude-true s m meta.info_hash (add (add_opts m bytes auto_start)),
  )
