-- ===== src/Engine/Scanner/Ingest.antt =====
-- crates/core/src/engine/scanner.rs: what `ingest_parsed_metas` sends to the cache, and its groups.
use pt_reseeder.Base.{
  ℕ, ◌+◌, ◌≡◌, refl, ap, sym, ◌∙◌, Bool, List, [], ◌∷◌, ◌++◌, append_assoc, append-nil, map, leb,
  if◌then◌else◌, length, arith, Bool-cases, inl, inr,
}
use pt_reseeder.Base.Text.{Text, contains_text}
use pt_reseeder.Error.{Result, ok}
use pt_reseeder.Db.Tables.{BulkPiecesCacheItem, WriteOp, bulk_upsert_pieces_cache}
use pt_reseeder.Engine.Scanner.{
  ScanState, Parsed, cache_item, add_to_result, send, send_batch, ingest_new, ingest_known,
  ingest_loop, ingest_parsed_metas,
}

-- The rows that operations of the scan write.
unfoldable pub rows_of : List WriteOp → List BulkPiecesCacheItem
rows_of [] = []
rows_of (bulk_upsert_pieces_cache items ∷ ops) = items ++ rows_of ops
rows_of (_ ∷ ops) = rows_of ops

rows_of-append : (xs ys : List WriteOp) → rows_of (xs ++ ys) ≡ rows_of xs ++ rows_of ys
unfolding rows_of
rows_of-append [] ys = refl
rows_of-append (bulk_upsert_pieces_cache items ∷ xs) ys =
    ap (λ rows. items ++ rows) (rows_of-append xs ys)
    ∙ sym (append_assoc items (rows_of xs) (rows_of ys))
rows_of-append (WriteOp.insert_reseed_history h ∷ xs) ys = rows_of-append xs ys
rows_of-append (WriteOp.upsert_pieces_cache h ∷ xs) ys = rows_of-append xs ys
rows_of-append (WriteOp.insert_task_log i h ∷ xs) ys = rows_of-append xs ys
rows_of-append (WriteOp.update_task_log i h ∷ xs) ys = rows_of-append xs ys
rows_of-append (WriteOp.insert_user_stats h ∷ xs) ys = rows_of-append xs ys

unfoldable pub new_rows : List Text → List Parsed → List BulkPiecesCacheItem
unfolding cache_item
new_rows existing [] = []
new_rows existing (p ∷ ps) =
    if contains_text existing p.1.info_hash
    then new_rows existing ps
    else cache_item p ∷ new_rows existing ps

-- What is sent, and then what waits in the batch.
pending : ScanState → List BulkPiecesCacheItem
pending s = rows_of s.sent ++ s.cache_batch

module _ (cancelled : ℕ → Bool) (closed : ℕ → Bool) where
  send_batch-ok :
      (s : ScanState)
      → (send_batch cancelled closed s).1 ≡ ok tt
      → ((send_batch cancelled closed s).0.cache_batch ≡ [])
        × ((send_batch cancelled closed s).0.sent
            ≡ s.sent ++ bulk_upsert_pieces_cache s.cache_batch ∷ [])
        × ((send_batch cancelled closed s).0.result ≡ s.result)
  unfolding send_batch send
  send_batch-ok s h = ground arith

  send_batch-pending :
      (s : ScanState)
      → (send_batch cancelled closed s).1 ≡ ok tt
      → pending (send_batch cancelled closed s).0 ≡ pending s
  unfolding pending rows_of
  send_batch-pending s h = ground (
    arith,
    send_batch-ok s h,
    rows_of-append s.sent (bulk_upsert_pieces_cache s.cache_batch ∷ []),
    append-nil s.cache_batch,
    append-nil (rows_of s.sent ++ s.cache_batch),
  )

  ingest_new-pending :
      (p : Parsed) (s : ScanState)
      → (ingest_new cancelled closed p s).1 ≡ ok tt
      → pending (ingest_new cancelled closed p s).0 ≡ pending s ++ cache_item p ∷ []
  unfolding ingest_new pending
  ingest_new-pending (path, meta) s h =
      let item = cache_item (path, meta) in
      let s' : ScanState = record s {
        cache_batch = s.cache_batch ++ item ∷ [];
        result = add_to_result meta s.result;
      } in
      elim (Bool-cases (leb 500 (length s'.cache_batch))) [
        | inl full ↦
            ground (
              arith,
              send_batch-pending s',
              append_assoc (rows_of s.sent) s.cache_batch (item ∷ []),
            )
        | inr room ↦ ground (arith, append_assoc (rows_of s.sent) s.cache_batch (item ∷ []))
      ]

  ingest_known-pending :
      (p : Parsed) (s : ScanState) → pending (ingest_known cancelled closed p s) ≡ pending s
  unfolding ingest_known pending
  ingest_known-pending p s = refl

  ingest_end-rows :
      (existing : List Text) (clock : ℕ) (s : ScanState)
      → (ingest_loop cancelled closed existing clock [] s).1 ≡ ok tt
      → rows_of (ingest_loop cancelled closed existing clock [] s).0.sent ≡ pending s
  unfolding ingest_loop pending
  ingest_end-rows existing n s h =
      let sent = (send_batch cancelled closed s).0.sent in
      ground (
        arith,
        send_batch-ok s,
        send_batch-pending s,
        append-nil (rows_of s.sent),
        append-nil (rows_of sent),
      )

  ingest_loop-rows :
      (existing : List Text) (clock : ℕ) (ps : List Parsed) (s : ScanState)
      → (ingest_loop cancelled closed existing clock ps s).1 ≡ ok tt
      → rows_of (ingest_loop cancelled closed existing clock ps s).0.sent
        ≡ pending s ++ new_rows existing ps
  unfolding ingest_loop new_rows
  ingest_loop-rows existing n [] s h = ingest_end-rows existing n s h ∙ sym (append-nil (pending s))
  ingest_loop-rows existing n (p ∷ ps) s h =
      let s' = (ingest_new cancelled closed p s).0 in
      ground (
        arith,
        ingest_known-pending p s,
        ingest_loop-rows existing (n + 1) ps (ingest_known cancelled closed p s),
        ingest_new-pending p s,
        ingest_loop-rows existing (n + 1) ps s',
        append_assoc (pending s) (cache_item p ∷ []) (new_rows existing ps),
      )

  -- Where the cache answers and the scan is neither stopped nor cut off from the writer, it writes a
  -- row for each parsed torrent that the cache does not have, once each and in order.
  pub ingest-rows :
      (find_existing : List Text → Result (List Text)) (clock : ℕ) (ps : List Parsed)
      (s : ScanState) (existing : List Text)
      → find_existing (map (λ p. p.1.info_hash) ps) ≡ ok existing
      → (ingest_parsed_metas cancelled closed find_existing clock ps s).1 ≡ ok tt
      → rows_of (ingest_parsed_metas cancelled closed find_existing clock ps s).0.sent
        ≡ rows_of s.sent ++ new_rows existing ps
  unfolding ingest_parsed_metas pending
  ingest-rows find_existing n ps s existing e h =
      let s' : ScanState = record s { cache_batch = [] } in
      ground (arith, ingest_loop-rows existing n ps s', append-nil (rows_of s.sent))
