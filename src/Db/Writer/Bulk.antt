-- ===== src/Db/Writer/Bulk.antt =====
-- crates/core/src/db/writer.rs: the statements of 150 rows against one row at a time.
use pt_reseeder.Base.{
  ℕ, zero, suc, ◌≤◌, ◌<◌, ◌≡◌, refl, ap, sym, ◌∙◌, List, [], ◌∷◌, ◌++◌, map, length, take, drop,
  length-drop, arith,
}
use pt_reseeder.Db.Tables.{
  BulkPiecesCacheItem, Tables, upsert_pieces_cache, bulk_upsert_pieces_cache, upsert, upsert_rows,
  chunks, chunk_rows, upsert_chunks, statement,
}
use pt_reseeder.Db.Writer.Batches.{apply_all}

append-take-drop {ℓ} : {A : Type ℓ} (n : ℕ) (xs : List A) → take n xs ++ drop n xs ≡ xs
append-take-drop zero xs = refl
append-take-drop (suc n) [] = refl
append-take-drop (suc n) (x ∷ xs) = ap (◌∷◌ x) (append-take-drop n xs)

upsert_rows-append :
    (xs ys rows : List BulkPiecesCacheItem)
    → upsert_rows (xs ++ ys) rows ≡ upsert_rows ys (upsert_rows xs rows)
unfolding upsert_rows
upsert_rows-append [] ys rows = refl
upsert_rows-append (x ∷ xs) ys rows = upsert_rows-append xs ys (upsert x rows)

upsert_chunks_lem :
    (f n : ℕ) (items rows : List BulkPiecesCacheItem)
    → 0 < n
    → length items ≤ f
    → upsert_chunks (chunks f n items) rows ≡ upsert_rows items rows
unfolding chunks upsert_chunks
upsert_chunks_lem zero n [] rows h l = refl
upsert_chunks_lem zero n (x ∷ xs) rows h l = absurd (omega arith)
upsert_chunks_lem (suc f) n [] rows h l = refl
upsert_chunks_lem (suc f) n (x ∷ xs) rows h l =
    let items = x ∷ xs in
    upsert_chunks_lem f n (drop n items) (upsert_rows (take n items) rows) h
      (omega (arith, length-drop n items))
    ∙ sym (upsert_rows-append (take n items) (drop n items) rows)
    ∙ ap (λ is. upsert_rows is rows) (append-take-drop n items)

upserts_lem :
    (items : List BulkPiecesCacheItem) (t : Tables)
    → apply_all (map upsert_pieces_cache items) t
      ≡ record t { pieces_cache = upsert_rows items t.pieces_cache }
unfolding apply_all statement upsert_rows
upserts_lem [] t = refl
upserts_lem (x ∷ xs) t = upserts_lem xs (statement (upsert_pieces_cache x) t)

-- A bulk write of any number of rows, in statements of 150, leaves the tables as the writes of its
-- rows one after the other do, also where two rows have the same info hash.
pub bulk-upserts :
    (items : List BulkPiecesCacheItem) (t : Tables)
    → statement (bulk_upsert_pieces_cache items) t ≡ apply_all (map upsert_pieces_cache items) t
unfolding statement
bulk-upserts items t =
    ap (λ rows. record t { pieces_cache = rows })
      (upsert_chunks_lem (length items) chunk_rows items t.pieces_cache (omega arith) (omega arith))
    ∙ sym (upserts_lem items t)
