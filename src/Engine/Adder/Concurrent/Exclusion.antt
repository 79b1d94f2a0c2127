-- ===== src/Engine/Adder/Concurrent/Exclusion.antt =====
-- Adders that run at once, crates/core/src/engine/adder.rs: an info hash has one holder at most.
use pt_reseeder.Base.{
  ℕ, ◌≡◌, ◌≢◌, ◌⊎◌, refl, sym, subst, Bool, true, false, some, List, [], ◌∷◌, ◌==◌, arith,
  Bool-cases, inl, inr,
}
use pt_reseeder.Base.Text.{Text, text_eq, text_eq_iff, text_eq_refl, contains_text}
use pt_reseeder.Error.{CoreError, Result, ok, err}
use pt_reseeder.Torrent.Parser.{TorrentMeta}
use pt_reseeder.Engine.Adder.{
  AdderState, MatchedTorrent, AddTorrentOpts, settled, adding, claim, conclude, record_history,
  add_opts, remove_hash,
}
use pt_reseeder.Engine.Adder.Concurrent.{
  Phase, parsed, calling, done, holds, System, update, after_claim, Step, arrive, take, answer,
  Reach, begin, next,
}

-- Who holds a hash has it claimed, and holds it alone.
pub record Exclusive (s : System) : Type 0 where
  pub claimed :
      (i : ℕ) (h : Text) → holds (s.phase i) ≡ some h → contains_text s.shared.dest_hashes h ≡ true
  pub alone : (i j : ℕ) (h : Text) → holds (s.phase i) ≡ some h → holds (s.phase j) ≡ some h → i ≡ j

-- One adder moves to the phase `p`, with what that asks of the others and of the claims.
update-Exclusive :
    (s : System) (shared : AdderState) (i : ℕ) (p : Phase)
    → Exclusive s
    → ((j : ℕ) (h : Text)
        → j ≢ i
        → holds (s.phase j) ≡ some h
        → contains_text shared.dest_hashes h ≡ true)
    → ((h : Text) → holds p ≡ some h → contains_text shared.dest_hashes h ≡ true)
    → ((j : ℕ) (h : Text) → j ≢ i → holds p ≡ some h → holds (s.phase j) ≢ some h)
    → Exclusive (record { shared = shared; phase = update s.phase i p })
update-Exclusive s shared i p ex others own apart = record {
  claimed = λ j h e. elim (Bool-cases (j == i)) [
    | inl same ↦ own h (rw same at e)
    | inr other ↦ others j h (ground arith) (rw other at e)
  ];
  alone = λ j k h e f. elim (Bool-cases (j == i)) [
    | inl same ↦ elim (Bool-cases (k == i)) [
      | inl same' ↦ ground arith
      | inr other' ↦ absurd (apart k h (ground arith) (rw same at e) (rw other' at f))
    ]
    | inr other ↦ elim (Bool-cases (k == i)) [
      | inl same' ↦ absurd (apart j h (ground arith) (rw same' at f) (rw other at e))
      | inr other' ↦ ex.alone j k h (rw other at e) (rw other' at f)
    ]
  ];
}

contains_text-remove_hash :
    (h k : Text) (hs : List Text) → h ≢ k → contains_text (remove_hash h hs) k ≡ contains_text hs k
unfolding remove_hash contains_text
contains_text-remove_hash h k [] ne = refl
contains_text-remove_hash h k (x ∷ xs) ne =
    ground (arith, contains_text-remove_hash h k xs ne, text_eq_iff h x, text_eq_iff k x)

module _ (sha1 : Text → Text) (display : CoreError → Text)
    (add : AddTorrentOpts → Result Bool) where
  -- A claim settles at once and leaves the claims, or takes a hash that nobody has.
  claim-cases :
      (s : AdderState) (m : MatchedTorrent) (bytes : Text) (auto_start : Bool) (meta : TorrentMeta)
      → let (s', c) = claim sha1 display add s m bytes auto_start meta in
        ((c ≡ settled false) × (s'.dest_hashes ≡ s.dest_hashes))
        ⊎ ((opts : AddTorrentOpts) × (c ≡ adding opts)
            × (contains_text s.dest_hashes meta.info_hash ≡ false)
            × (s'.dest_hashes ≡ meta.info_hash ∷ s.dest_hashes))
  unfolding claim record_history
  claim-cases s m bytes auto_start meta =
      elim (Bool-cases (text_eq meta.pieces_hash m.pieces_hash)) [
        | inr other ↦ inl (rw other refl, rw other refl)
        | inl same ↦ elim (Bool-cases (contains_text s.dest_hashes meta.info_hash)) [
          | inl known ↦ inl (rw (same, known) refl, rw (same, known) refl)
          | inr new ↦
              inr (add_opts m bytes auto_start, rw (same, new) refl, new, rw (same, new) refl)
        ]
      ]

  take-Exclusive :
      (s : System) (i : ℕ) (m : MatchedTorrent) (bytes : Text) (auto_start : Bool)
      (meta : TorrentMeta)
      → Exclusive s
      → Exclusive (record {
        shared = (claim sha1 display add s.shared m bytes auto_start meta).0;
        phase =
            update s.phase i
              (after_claim m meta (claim sha1 display add s.shared m bytes auto_start meta).1);
      })
  unfolding after_claim holds contains_text
  take-Exclusive s i m bytes auto_start meta ex =
      let (s', c) = claim sha1 display add s.shared m bytes auto_start meta in
      elim (claim-cases s.shared m bytes auto_start meta) [
        | inl (e, kept) ↦
            update-Exclusive s s' i (after_claim m meta c) ex
              (λ j h ne hold. rw kept (ex.claimed j h hold)) (λ h hold. cc) (λ j h ne hold. cc)
        | inr (opts, e, new, took) ↦
            update-Exclusive s s' i (after_claim m meta c) ex
              (λ j h ne hold. ground (arith, ex.claimed j h hold))
              (λ h hold. ground (arith, text_eq_refl h))
              (λ j h ne hold. λ hold'. ground (arith, ex.claimed j h hold'))
      ]

  -- What the downloader's answer does to the claims, and whether the torrent counts as added.
  conclude-claims :
      (s : AdderState) (m : MatchedTorrent) (h : Text) (reply : Result Bool)
      → let (s', added) = conclude sha1 display add s m h reply in
        (s'.dest_hashes ≡ s.dest_hashes)
        ⊎ ((added ≡ false) × (s'.dest_hashes ≡ remove_hash h s.dest_hashes))
  unfolding conclude record_history
  conclude-claims s m h (ok true) = inl refl
  conclude-claims s m h (ok false) = inl refl
  conclude-claims s m h (err e) = inr (refl, refl)

  answer-Exclusive :
      (s : System) (i : ℕ) (m : MatchedTorrent) (opts : AddTorrentOpts) (meta : TorrentMeta)
      (reply : Result Bool)
      → s.phase i ≡ calling m opts meta
      → Exclusive s
      → Exclusive (record {
        shared = (conclude sha1 display add s.shared m meta.info_hash reply).0;
        phase =
            update s.phase i
              (done meta (conclude sha1 display add s.shared m meta.info_hash reply).1);
      })
  unfolding holds
  answer-Exclusive s i m opts meta reply e ex =
      let (s', added) = conclude sha1 display add s.shared m meta.info_hash reply in
      let held : holds (s.phase i) ≡ some meta.info_hash = rw e refl in
      let own : (h : Text) → holds (done meta added) ≡ some h → h ≡ meta.info_hash =
        λ h hold. ground arith in
      elim (conclude-claims s.shared m meta.info_hash reply) [
        | inl kept ↦
            update-Exclusive s s' i (done meta added) ex
              (λ j h ne hold. rw kept (ex.claimed j h hold))
              (λ h hold. rw (kept, own h hold) (ex.claimed i meta.info_hash held))
              (λ j h ne hold. λ hold'. ne (ex.alone j i h hold' (rw (own h hold) held)))
        | inr (failed', freed) ↦
            update-Exclusive s s' i (done meta added) ex
              (λ j h ne hold.
                rw
                  (
                    freed,
                    contains_text-remove_hash meta.info_hash h s.shared.dest_hashes
                        (λ same. ne (ex.alone j i h hold (rw (← same) held))),
                  )
                  (ex.claimed j h hold))
              (λ h hold. ground arith) (λ j h ne hold. ground arith)
      ]

  arrive-Exclusive :
      (s : System) (i : ℕ) (m : MatchedTorrent) (bytes : Text) (auto_start : Bool)
      (meta : TorrentMeta)
      → Exclusive s
      → Exclusive (record s { phase = update s.phase i (parsed m bytes auto_start meta) })
  unfolding holds
  arrive-Exclusive s i m bytes auto_start meta ex =
      update-Exclusive s s.shared i (parsed m bytes auto_start meta) ex
        (λ j h ne hold. ex.claimed j h hold) (λ h hold. cc) (λ j h ne hold. cc)

  Step-Exclusive : {s t : System} → Step sha1 display add s t → Exclusive s → Exclusive t
  Step-Exclusive {s} (arrive i m bytes auto_start meta was e) ex =
      subst Exclusive (sym e) (arrive-Exclusive s i m bytes auto_start meta ex)
  Step-Exclusive {s} (take i m bytes auto_start meta was e) ex =
      subst Exclusive (sym e) (take-Exclusive s i m bytes auto_start meta ex)
  Step-Exclusive {s} (answer i m opts meta reply was e) ex =
      subst Exclusive (sym e) (answer-Exclusive s i m opts meta reply was ex)

  Reach-Exclusive : {start : AdderState} {s : System} → Reach sha1 display add start s → Exclusive s
  unfolding holds
  Reach-Exclusive {start} (begin e) =
      subst Exclusive (sym e) (record { claimed = λ i h f. cc; alone = λ i j h f g. cc })
  Reach-Exclusive (next r st) = Step-Exclusive st (Reach-Exclusive r)

  -- However the steps of the adders are interleaved and whatever the downloader answers: two adders that
  -- have one info hash with the downloader, or have added it, are the same adder, and the hash is claimed.
  pub one_holder :
      {start : AdderState} {s : System}
      → Reach sha1 display add start s
      → (i j : ℕ) (h : Text) → holds (s.phase i) ≡ some h
      → holds (s.phase j) ≡ some h
      → (i ≡ j) × (contains_text s.shared.dest_hashes h ≡ true)
  one_holder r i j h e f = let ex = Reach-Exclusive r in (ex.alone i j h e f, ex.claimed i h e)
