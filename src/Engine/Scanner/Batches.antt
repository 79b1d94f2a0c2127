-- ===== src/Engine/Scanner/Batches.antt =====
-- crates/core/src/engine/scanner.rs: the sizes of the bulk writes, and the groups of the result.
use pt_reseeder.Base.{
  ℕ, ◌+◌, ◌≤◌, ◌<◌, ◌≡◌, refl, ap, sym, ◌∙◌, Bool, List, [], ◌∷◌, ◌++◌, append_assoc, append-nil,
  map, leb, if◌then◌else◌, length, length-append, is_empty, or_else, All, arith, Bool-cases, inl,
  inr,
}
use pt_reseeder.Base.Text.{Text, text_eq, contains_text}
use pt_reseeder.Base.Maps.{find, find-push_to}
use pt_reseeder.Error.{Result, ok}
use pt_reseeder.Error.Results.{Result-cases}
use pt_reseeder.Db.Tables.{WriteOp, bulk_upsert_pieces_cache}
use pt_reseeder.Torrent.Parser.{TorrentMeta}
use pt_reseeder.Engine.Scanner.{
  ScanResult, ScanState, Parsed, cache_item, add_to_result, send, send_batch, ingest_new,
  ingest_known, ingest_loop, ingest_parsed_metas,
}

-- A bulk write of a scan has a row or more, and at most 500.
abbrev pub FitsBatch : WriteOp → Type 0
FitsBatch (bulk_upsert_pieces_cache items) = (0 < length items) × (length items ≤ 500)
FitsBatch _ = Unit

module _ (cancelled : ℕ → Bool) (closed : ℕ → Bool) where
  FitsBatch-append :
      (xs : List WriteOp) (op : WriteOp)
      → All FitsBatch xs
      → FitsBatch op
      → All FitsBatch (xs ++ op ∷ [])
  FitsBatch-append [] op all one = (one, tt)
  FitsBatch-append (x ∷ xs) op all one = (all.0, FitsBatch-append xs op all.1 one)

  -- The operations sent so far are good, and the batch has room.
  abbrev Filling : ScanState → Type 0
  Filling s = All FitsBatch s.sent × (length s.cache_batch < 500)

  send_batch-Filling :
      (s : ScanState)
      → All FitsBatch s.sent
      → 0 < length s.cache_batch
      → length s.cache_batch ≤ 500
      → Filling (send_batch cancelled closed s).0
  unfolding send_batch send
  send_batch-Filling s all row few = elim (Bool-cases (closed (length s.sent))) [
    | inl shut ↦ rw shut (all, omega arith)
    | inr open' ↦ rw open' (FitsBatch-append s.sent _ all (row, few), omega arith)
  ]

  ingest_new-Filling :
      (p : Parsed) (s : ScanState) → Filling s → Filling (ingest_new cancelled closed p s).0
  unfolding ingest_new
  ingest_new-Filling (path, meta) s (all, room) =
      let s' : ScanState = record s {
        cache_batch = s.cache_batch ++ cache_item (path, meta) ∷ [];
        result = add_to_result meta s.result;
      } in
      let size = length-append s.cache_batch (cache_item (path, meta) ∷ []) in
      elim (Bool-cases (leb 500 (length s'.cache_batch))) [
        | inl full ↦ rw full (send_batch-Filling s' all (omega (arith, size)) (omega (arith, size)))
        | inr more ↦ rw more (all, ground (arith, size))
      ]

  ingest_loop-FitsBatch :
      (existing : List Text) (clock : ℕ) (ps : List Parsed) (s : ScanState)
      → Filling s
      → All FitsBatch (ingest_loop cancelled closed existing clock ps s).0.sent
  unfolding ingest_loop ingest_known
  ingest_loop-FitsBatch existing n [] s (all, room) = elim (Bool-cases (is_empty s.cache_batch)) [
    | inl none_left ↦ rw none_left all
    | inr left ↦ rw left (send_batch-Filling s all (ground arith) (omega arith)).0
  ]
  ingest_loop-FitsBatch existing n (p ∷ ps) s (all, room) = elim (Bool-cases (cancelled n)) [
    | inl stop ↦ rw stop all
    | inr go ↦ elim (Bool-cases (contains_text existing p.1.info_hash)) [
      | inl known ↦
          rw (go, known, ingest_loop)
            (ingest_loop-FitsBatch existing (n + 1) ps (ingest_known cancelled closed p s)
              (all, room))
      | inr new ↦
          let kept = ingest_new-Filling p s (all, room) in
          elim (Result-cases (ingest_new cancelled closed p s).1) [
            | inl (u, e) ↦
                rw (go, new, e, ingest_loop)
                  (ingest_loop-FitsBatch existing (n + 1) ps (ingest_new cancelled closed p s).0
                    kept)
            | inr (f, e) ↦ rw (go, new, e, ingest_loop) kept.0
          ]
    ]
  ]

  -- However the scan goes, also where it is stopped or cut off half way, a bulk write that it sends has
  -- at least one row and at most 500.
  pub ingest-FitsBatch :
      (find_existing : List Text → Result (List Text)) (clock : ℕ) (ps : List Parsed)
      (s : ScanState)
      → All FitsBatch s.sent
      → All FitsBatch (ingest_parsed_metas cancelled closed find_existing clock ps s).0.sent
  unfolding ingest_parsed_metas
  ingest-FitsBatch find_existing n ps s all =
      elim (Result-cases (find_existing (map (λ p. p.1.info_hash) ps))) [
        | inl (existing, e) ↦
            rw (e, All)
              (ingest_loop-FitsBatch existing n ps (record s { cache_batch = [] })
                (all, omega arith))
        | inr (f, e) ↦ rw (e, All) all
      ]

-- The info hashes of the torrents with a pieces hash, in order.
unfoldable pub members : Text → List Parsed → List Text
members h [] = []
members h (p ∷ ps) =
    if text_eq h p.1.pieces_hash then p.1.info_hash ∷ members h ps else members h ps

-- `pieces_groups[h]`, or nothing.
unfoldable pub group : Text → ScanResult → List Text
unfolding find
group h r = or_else (find h r.pieces_groups) []

group-add_to_result :
    (h : Text) (meta : TorrentMeta) (r : ScanResult)
    → group h (add_to_result meta r)
      ≡ (if text_eq h meta.pieces_hash then group h r ++ meta.info_hash ∷ [] else group h r)
unfolding group add_to_result
group-add_to_result h meta r = find-push_to meta.pieces_hash h meta.info_hash r.pieces_groups

module _ (cancelled : ℕ → Bool) (closed : ℕ → Bool) where
  ingest_new-result :
      (p : Parsed) (s : ScanState)
      → (ingest_new cancelled closed p s).0.result ≡ add_to_result p.1 s.result
  unfolding ingest_new send_batch send
  ingest_new-result (path, meta) s = ground arith

  ingest_known-result :
      (p : Parsed) (s : ScanState)
      → (ingest_known cancelled closed p s).result ≡ add_to_result p.1 s.result
  unfolding ingest_known
  ingest_known-result (path, meta) s = refl

  ingest_end-result :
      (existing : List Text) (clock : ℕ) (s : ScanState)
      → (ingest_loop cancelled closed existing clock [] s).0.result ≡ s.result
  unfolding ingest_loop send_batch send
  ingest_end-result existing n s = ground arith

  ingest_loop-group :
      (h : Text) (existing : List Text) (clock : ℕ) (ps : List Parsed) (s : ScanState)
      → (ingest_loop cancelled closed existing clock ps s).1 ≡ ok tt
      → group h (ingest_loop cancelled closed existing clock ps s).0.result
        ≡ group h s.result ++ members h ps
  unfolding ingest_loop members
  ingest_loop-group h existing n [] s well =
      ap (group h) (ingest_end-result existing n s) ∙ sym (append-nil (group h s.result))
  ingest_loop-group h existing n (p ∷ ps) s well =
      let s' = (ingest_new cancelled closed p s).0 in
      ground (
        arith,
        ingest_known-result p s,
        ingest_new-result p s,
        group-add_to_result h p.1 s.result,
        ingest_loop-group h existing (n + 1) ps (ingest_known cancelled closed p s),
        ingest_loop-group h existing (n + 1) ps s',
        append_assoc (group h s.result) (p.1.info_hash ∷ []) (members h ps),
      )

  -- Where the scan is not stopped, cached or not, the torrents of each pieces hash are in its group:
  -- behind those already there, in the order of the scan and as often as they were parsed.
  pub ingest-group :
      (find_existing : List Text → Result (List Text)) (clock : ℕ) (ps : List Parsed)
      (s : ScanState) (h : Text)
      → (ingest_parsed_metas cancelled closed find_existing clock ps s).1 ≡ ok tt
      → group h (ingest_parsed_metas cancelled closed find_existing clock ps s).0.result
        ≡ group h s.result ++ members h ps
  unfolding ingest_parsed_metas
  ingest-group find_existing n ps s h well =
      elim (Result-cases (find_existing (map (λ p. p.1.info_hash) ps))) [
        | inl (existing, e) ↦
            ground (arith, e, ingest_loop-group h existing n ps (record s { cache_batch = [] }))
        | inr (f, e) ↦ ground (arith, e)
      ]
