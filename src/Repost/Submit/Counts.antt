-- ===== src/Repost/Submit/Counts.antt =====
-- The counts and the states of a batch submission (crates/core/src/repost/submitter.rs).
use pt_reseeder.Base.{
  ℕ, ◌+◌, ◌≡◌, refl, Option, [], ◌∷◌, arith, length, length-append, Bool-cases, inl, inr,
}
use pt_reseeder.Base.Text.{Text, text_eq}
use pt_reseeder.Error.{CoreError, Result}
use pt_reseeder.Error.Results.{Result-cases}
use pt_reseeder.Repost.Status.{approved, as_str}
use pt_reseeder.Repost.Queue.{RepostQueueEntry, Rows}
use pt_reseeder.Repost.Submit.{
  Handle, SubmitBatchCriteria, SubmitBatchResult, candidates, no_results, submit_entry, submit_one,
  submit_all, submit_batch,
}

abbrev pub counted : SubmitBatchResult → ℕ
counted r = r.submitted_count + r.failed_count + r.skipped_count

module _ {Adapted : Type 0} (from_json : Text → Result Adapted) (display : CoreError → Text)
    (registry : ℕ → Option (Handle Adapted)) (now_ms : ℕ) (now : Text) where
  abbrev Steps : SubmitBatchResult → ℕ → SubmitBatchResult → Type 0
  Steps r n q =
      (counted q ≡ counted r + n)
      × (length q.entries ≡ length r.entries + n)
      × (q.candidate_count ≡ r.candidate_count)

  submit_one-Steps :
      (rows : Rows) (r : SubmitBatchResult) (entry : RepostQueueEntry)
      → Steps r 1 (submit_one from_json display registry now_ms now (rows, r) entry).1
  unfolding submit_one
  submit_one-Steps rows r entry = elim (Bool-cases (text_eq entry.status (as_str approved))) [
    | inr other ↦ rw other (omega arith, length-append r.entries _, refl)
    | inl same ↦
        rw same
          (elim (Result-cases
            (submit_entry from_json display registry now_ms now rows entry.id).1) [
              | inl (u, e) ↦ rw e (omega arith, length-append r.entries _, refl)
              | inr (x, e) ↦ rw e (omega arith, length-append r.entries _, refl)
            ])
  ]

  submit_all-Steps :
      (rows : Rows) (r : SubmitBatchResult) (es : Rows)
      → Steps r (length es) (submit_all from_json display registry now_ms now (rows, r) es).1
  unfolding submit_all
  submit_all-Steps rows r [] = omega arith
  submit_all-Steps rows r (e ∷ es) =
      let one = submit_one-Steps rows r e in
      let s = submit_one from_json display registry now_ms now (rows, r) e in
      let rest = submit_all-Steps s.0 s.1 es in omega arith

  -- A batch deals with each of its candidates once: the submitted, the failed and the skipped ones
  -- make up the candidates, and there is one result for each, also where submissions fail.
  pub batch_counts :
      (rows : Rows) (c : SubmitBatchCriteria)
      → let q = (submit_batch from_json display registry now_ms now rows c).1 in
        (q.candidate_count ≡ length (candidates rows c))
        × (counted q ≡ length (candidates rows c))
        × (length q.entries ≡ length (candidates rows c))
  unfolding submit_batch no_results
  batch_counts rows c =
      let steps =
        submit_all-Steps rows (no_results (length (candidates rows c))) (candidates rows c) in
      omega arith
