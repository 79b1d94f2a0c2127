-- ===== src/Db/Writer/Refusals.antt =====
-- crates/core/src/db/writer.rs: what becomes of a batch with an operation that SQLite refuses.
use pt_reseeder.Base.{
  ℕ, ◌+◌, ◌≡◌, refl, Bool, true, false, Option, none, some, List, [], ◌∷◌, ◌++◌, arith,
  Option-cases, inl, inr,
}
use pt_reseeder.Error.{CoreError, Result, ok, err}
use pt_reseeder.Db.Tables.{Tables, WriteOp, statement}
use pt_reseeder.Db.Writer.{
  Event, write, flush, idle, Sqlite, run_statements, execute_ops_in_transaction, one_by_one,
  flush_buffer, serve, run_loop,
}
use pt_reseeder.Db.Writer.Batches.{apply_all, writes, flushes, run_loop-apply_all}

module _ (db : Sqlite) where
  -- The operations one after the other, where a refused one is passed over.
  unfoldable pub passing_over : List WriteOp → Tables → Tables
  passing_over [] t = t
  passing_over (op ∷ ops) t = elim (db.refuses t op) [
    | some e ↦ passing_over ops t
    | none ↦ passing_over ops (statement op t)
  ]

  unfoldable pub first_refusal : List WriteOp → Tables → Option CoreError
  first_refusal [] t = none
  first_refusal (op ∷ ops) t = elim (db.refuses t op) [
    | some e ↦ some e
    | none ↦ first_refusal ops (statement op t)
  ]

  run_statements_lem :
      (ops : List WriteOp) (t : Tables)
      → run_statements db ops t
        ≡ elim (first_refusal ops t) [ none ↦ ok (passing_over ops t) | some e ↦ err e ]
  unfolding run_statements first_refusal passing_over
  run_statements_lem [] t = refl
  run_statements_lem (op ∷ ops) t = ground (arith, run_statements_lem ops (statement op t))

  abbrev pub answer_of : Option CoreError → Result (Unit {0})
  answer_of none = ok tt
  answer_of (some e) = err e

  -- No transaction fails to begin or to commit.
  abbrev pub Commits : Type 0
  Commits = (t : Tables) (ops : List WriteOp) → db.transaction_fails t ops ≡ none

  execute_one :
      Commits
      → (op : WriteOp) (t : Tables)
      → execute_ops_in_transaction db (op ∷ []) t
        ≡ elim (db.refuses t op) [ some e ↦ err e | none ↦ ok (statement op t) ]
  unfolding execute_ops_in_transaction run_statements
  execute_one safe op t = ground (arith, safe t (op ∷ []))

  one_by_one-some :
      Commits
      → (ops : List WriteOp) (t : Tables) (e : CoreError)
      → one_by_one db ops t (some e) ≡ (passing_over ops t, some e)
  unfolding one_by_one passing_over
  one_by_one-some safe [] t e = refl
  one_by_one-some safe (op ∷ ops) t e = ground (
    arith,
    execute_one safe op t,
    one_by_one-some safe ops t e,
    one_by_one-some safe ops (statement op t) e,
  )

  one_by_one-none :
      Commits
      → (ops : List WriteOp) (t : Tables)
      → one_by_one db ops t none ≡ (passing_over ops t, first_refusal ops t)
  unfolding one_by_one passing_over first_refusal
  one_by_one-none safe [] t = refl
  one_by_one-none safe (op ∷ ops) t = elim (Option-cases (db.refuses t op)) [
    | inl n ↦ ground (arith, execute_one safe op t, one_by_one-none safe ops (statement op t))
    | inr (e, y) ↦ ground (arith, execute_one safe op t, one_by_one-some safe ops t e)
  ]

  -- Where transactions commit, a batch leaves the tables as its operations do one after the other
  -- with the refused ones passed over, and fails with the first refusal, if there is one.
  pub flush_buffer-passing_over :
      Commits
      → (ops : List WriteOp) (t : Tables)
      → flush_buffer db ops t ≡ (passing_over ops t, answer_of (first_refusal ops t))
  unfolding flush_buffer passing_over first_refusal execute_ops_in_transaction
  flush_buffer-passing_over safe [] t = refl
  flush_buffer-passing_over safe (op ∷ ops) t =
      ground (
        arith,
        safe t (op ∷ ops),
        run_statements_lem (op ∷ ops) t,
        one_by_one-none safe (op ∷ ops) t,
      )

  -- A refused operation that is flushed on its own ends the writer: where transactions commit, the
  -- tables stay as they were, whatever is sent afterwards.
  pub refused_ends :
      (batch_size : ℕ) (op : WriteOp) (rest : List Event) (t : Tables) (e : CoreError)
      → Commits
      → db.refuses t op ≡ some e
      → run_loop db batch_size (write op ∷ idle ∷ rest) t
        ≡ record { tables = t; answered = 0; ending = err e }
  unfolding run_loop serve passing_over first_refusal
  refused_ends n op rest t e safe r = ground (arith, flush_buffer-passing_over safe (op ∷ []) t)

  abbrev pub Accepts : Type 0
  Accepts = (t : Tables) (op : WriteOp) → db.refuses t op ≡ none

  first_refusal-Accepts : Accepts → (ops : List WriteOp) (t : Tables) → first_refusal ops t ≡ none
  unfolding first_refusal
  first_refusal-Accepts never [] t = refl
  first_refusal-Accepts never (op ∷ ops) t =
      ground (arith, never t op, first_refusal-Accepts never ops (statement op t))

  flush_buffer-Accepts :
      Commits → Accepts → (ops : List WriteOp) (t : Tables) → (flush_buffer db ops t).1 ≡ ok tt
  flush_buffer-Accepts safe never ops t =
      ground (arith, flush_buffer-passing_over safe ops t, first_refusal-Accepts never ops t)

  serve-Accepts :
      Commits
      → Accepts
      → (batch_size : ℕ) (collecting : Bool) (buffer : List WriteOp) (es : List Event) (t : Tables)
        (answered : ℕ)
      → (serve db batch_size collecting buffer es t answered).ending ≡ ok tt
  unfolding serve
  serve-Accepts safe never n m buffer [] t a = flush_buffer-Accepts safe never buffer t
  serve-Accepts safe never n m buffer (idle ∷ es) t a =
      let t' = (flush_buffer db buffer t).0 in
      ground (
        arith,
        flush_buffer-Accepts safe never buffer t,
        serve-Accepts safe never n false [] es t' a,
      )
  serve-Accepts safe never n m buffer (flush ∷ es) t a =
      let t' = (flush_buffer db buffer t).0 in
      ground (
        arith,
        flush_buffer-Accepts safe never buffer t,
        serve-Accepts safe never n m [] es t' (a + 1),
      )
  serve-Accepts safe never n m buffer (write op ∷ es) t a =
      let buffer' = buffer ++ op ∷ [] in
      let t' = (flush_buffer db buffer' t).0 in
      ground (
        arith,
        flush_buffer-Accepts safe never buffer' t,
        serve-Accepts safe never n true buffer' es t a,
        serve-Accepts safe never n false [] es t' a,
      )

  -- Where no operation is refused and transactions commit, the writer ends well; then every operation
  -- is in the tables and every flush request is answered.
  pub run_loop-delivers :
      (batch_size : ℕ) (es : List Event) (t : Tables)
      → Commits
      → Accepts
      → ((run_loop db batch_size es t).ending ≡ ok tt)
        × ((run_loop db batch_size es t).tables ≡ apply_all (writes es) t)
        × ((run_loop db batch_size es t).answered ≡ flushes es)
  unfolding run_loop
  run_loop-delivers n es t safe never =
      let well = serve-Accepts safe never n false [] es t 0 in
      let all = run_loop-apply_all db n es t well in (well, all.0, all.1)
