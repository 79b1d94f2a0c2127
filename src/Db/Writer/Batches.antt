-- ===== src/Db/Writer/Batches.antt =====
-- crates/core/src/db/writer.rs: batches against the operations one after the other.
use pt_reseeder.Base.{
  ℕ, suc, ◌+◌, ◌≡◌, refl, Bool, true, false, none, some, List, [], ◌∷◌, ◌++◌, append_assoc,
  append-nil, arith, inl, inr,
}
use pt_reseeder.Error.{CoreError, ok}
use pt_reseeder.Error.Results.{Result-cases}
use pt_reseeder.Db.Tables.{Tables, WriteOp, statement}
use pt_reseeder.Db.Writer.{
  Event, write, flush, idle, Sqlite, run_statements, execute_ops_in_transaction, one_by_one,
  flush_buffer, serve, run_loop,
}

-- The operations one after the other, each carried out.
unfoldable pub apply_all : List WriteOp → Tables → Tables
apply_all [] t = t
apply_all (op ∷ ops) t = apply_all ops (statement op t)

unfoldable pub writes : List Event → List WriteOp
writes [] = []
writes (write op ∷ es) = op ∷ writes es
writes (flush ∷ es) = writes es
writes (idle ∷ es) = writes es

unfoldable pub flushes : List Event → ℕ
flushes [] = 0
flushes (write op ∷ es) = flushes es
flushes (flush ∷ es) = suc (flushes es)
flushes (idle ∷ es) = flushes es

apply_all-append :
    (xs ys : List WriteOp) (t : Tables) → apply_all (xs ++ ys) t ≡ apply_all ys (apply_all xs t)
unfolding apply_all
apply_all-append [] ys t = refl
apply_all-append (x ∷ xs) ys t = apply_all-append xs ys (statement x t)

module _ (db : Sqlite) where
  run_statements-ok :
      (ops : List WriteOp) (t t' : Tables) → run_statements db ops t ≡ ok t' → t' ≡ apply_all ops t
  unfolding run_statements apply_all
  run_statements-ok [] t t' h = cc
  run_statements-ok (op ∷ ops) t t' h = ground (arith, run_statements-ok ops (statement op t) t')

  execute-ok :
      (ops : List WriteOp) (t t' : Tables)
      → execute_ops_in_transaction db ops t ≡ ok t'
      → t' ≡ apply_all ops t
  unfolding execute_ops_in_transaction
  execute-ok ops t t' h = ground (arith, run_statements-ok ops t t')

  one_by_one-some :
      (ops : List WriteOp) (t : Tables) (e : CoreError) → (one_by_one db ops t (some e)).1 ≡ some e
  unfolding one_by_one
  one_by_one-some [] t e = refl
  one_by_one-some (op ∷ ops) t e = elim (Result-cases (execute_ops_in_transaction db (op ∷ []) t)) [
    | inl (t', y) ↦ rw (y, one_by_one) (one_by_one-some ops t' e)
    | inr (e', y) ↦ rw (y, one_by_one) (one_by_one-some ops t e)
  ]

  one_by_one-none :
      (ops : List WriteOp) (t : Tables)
      → (one_by_one db ops t none).1 ≡ none
      → (one_by_one db ops t none).0 ≡ apply_all ops t
  unfolding one_by_one apply_all
  one_by_one-none [] t h = refl
  one_by_one-none (op ∷ ops) t h = elim (Result-cases (execute_ops_in_transaction db (op ∷ []) t)) [
    | inl (t', y) ↦ ground (arith, execute-ok (op ∷ []) t t' y, one_by_one-none ops t')
    | inr (e, y) ↦ ground (arith, one_by_one-some ops t e)
  ]

  flush_buffer-ok :
      (ops : List WriteOp) (t : Tables)
      → (flush_buffer db ops t).1 ≡ ok tt
      → (flush_buffer db ops t).0 ≡ apply_all ops t
  unfolding flush_buffer apply_all
  flush_buffer-ok [] t h = refl
  flush_buffer-ok (op ∷ ops) t h =
      elim (Result-cases (execute_ops_in_transaction db (op ∷ ops) t)) [
        | inl (t', y) ↦ ground (arith, execute-ok (op ∷ ops) t t' y)
        | inr (e, y) ↦ ground (arith, one_by_one-none (op ∷ ops) t)
      ]

  serve-ok :
      (batch_size : ℕ) (collecting : Bool) (buffer : List WriteOp) (es : List Event) (t : Tables)
      (answered : ℕ)
      → (serve db batch_size collecting buffer es t answered).ending ≡ ok tt
      → ((serve db batch_size collecting buffer es t answered).tables
          ≡ apply_all (buffer ++ writes es) t)
        × ((serve db batch_size collecting buffer es t answered).answered ≡ answered + flushes es)
  unfolding serve writes flushes
  serve-ok n m buffer [] t a h = (rw (append-nil buffer) (flush_buffer-ok buffer t h), omega arith)
  serve-ok n m buffer (idle ∷ es) t a h =
      let t' = (flush_buffer db buffer t).0 in
      ground (
        arith,
        flush_buffer-ok buffer t,
        serve-ok n false [] es t' a,
        apply_all-append buffer (writes es) t,
      )
  serve-ok n m buffer (flush ∷ es) t a h =
      let t' = (flush_buffer db buffer t).0 in
      ground (
        arith,
        flush_buffer-ok buffer t,
        serve-ok n m [] es t' (a + 1),
        apply_all-append buffer (writes es) t,
      )
  serve-ok n m buffer (write op ∷ es) t a h =
      let buffer' = buffer ++ op ∷ [] in
      let t' = (flush_buffer db buffer' t).0 in
      ground (
        arith,
        flush_buffer-ok buffer' t,
        serve-ok n true buffer' es t a,
        serve-ok n false [] es t' a,
        append_assoc buffer (op ∷ []) (writes es),
        apply_all-append buffer' (writes es) t,
      )

  -- Where the writer ends well, the tables hold every operation that was sent, in that order, and
  -- every flush request was answered: the size of the batches and the pauses do not matter.
  pub run_loop-apply_all :
      (batch_size : ℕ) (es : List Event) (t : Tables)
      → (run_loop db batch_size es t).ending ≡ ok tt
      → ((run_loop db batch_size es t).tables ≡ apply_all (writes es) t)
        × ((run_loop db batch_size es t).answered ≡ flushes es)
  unfolding run_loop
  run_loop-apply_all n es t h =
      let all = serve-ok n false [] es t 0 h in (all.0, omega (arith, all.1))
