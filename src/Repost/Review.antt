-- ===== src/Repost/Review.antt =====
-- crates/core/src/repost/review.rs, over the rows of the queue; the database answers every query.
pub mod Terminal
use pt_reseeder.Base.{ℕ, Option, none, some, ◌++◌, if◌then◌else◌, is_some}
use pt_reseeder.Base.Text.{Text, codes}
use pt_reseeder.Base.Decimal.{to_decimal}
use pt_reseeder.Error.{CoreError, repost, invalid_state, not_found, Result, ok, err}
use pt_reseeder.Error.Results.{ok_or}
use pt_reseeder.Repost.Status.{
  RepostStatus, approved, rejected, as_str, from_str, can_transition_to, ReviewAction, approve,
  reject,
}
use pt_reseeder.Repost.Queue.{
  RepostQueueEntry, Rows, get_repost_entry, update_repost_status, list_repost_entries,
}

unfoldable pub missing : ℕ → Text → CoreError
missing i tail = repost (not_found (codes "repost entry " ++ (to_decimal i ++ tail)))

unfoldable pub load_status : Rows → ℕ → Result (RepostQueueEntry × RepostStatus)
unfolding missing
load_status rows i = elim (get_repost_entry rows i) [
  | none ↦ err (missing i (codes " not found"))
  | some entry ↦ elim (from_str entry.status) [
    | none ↦ err (repost (invalid_state (codes "unknown status '" ++ (entry.status ++ codes "'"))))
    | some current ↦ ok (entry, current)
  ]
]

unfoldable pub no_transition : RepostStatus → RepostStatus → CoreError
no_transition current target = repost (
    invalid_state (
      codes "cannot transition from '"
      ++ (as_str current ++ (codes "' to '" ++ (as_str target ++ codes "'")))))

unfoldable pub target_of : ReviewAction → RepostStatus
target_of approve = approved
target_of reject = rejected

unfoldable pub reread : Rows → ℕ → Rows × Result RepostQueueEntry
unfolding missing
reread rows i =
    (rows, ok_or (get_repost_entry rows i) (missing i (codes " not found after update")))

unfoldable pub review_entry : Rows → ℕ → ReviewAction → Option Text → Rows × Result RepostQueueEntry
unfolding load_status no_transition target_of reread
review_entry rows i action notes = elim (load_status rows i) [
  | err e ↦ (rows, err e)
  | ok (entry, current) ↦
      let target = target_of action in
      if can_transition_to current target
      then reread (update_repost_status rows i (as_str target) notes entry.adapted_info_json none) i
      else (rows, err (no_transition current target))
]

unfoldable pub or_option : Option Text → Option Text → Option Text
or_option none b = b
or_option (some a) b = some a

unfoldable pub retry_entry : Rows → ℕ → Option Text → Rows × Result RepostQueueEntry
unfolding load_status no_transition reread or_option
retry_entry rows i notes = elim (load_status rows i) [
  | err e ↦ (rows, err e)
  | ok (entry, current) ↦
      if can_transition_to current approved
      then reread
          (update_repost_status rows i (as_str approved) (or_option notes entry.review_notes)
            entry.adapted_info_json none)
          i
      else (rows, err (no_transition current approved))
]

unfoldable pub list_entries : Rows → Option Text → Result Rows
list_entries rows none = ok (list_repost_entries rows none)
list_entries rows (some status) =
    if is_some (from_str status)
    then ok (list_repost_entries rows (some status))
    else err (repost (invalid_state (codes "unknown status filter '" ++ (status ++ codes "'"))))

unfoldable pub get_entry : Rows → ℕ → Result RepostQueueEntry
unfolding missing
get_entry rows i = ok_or (get_repost_entry rows i) (missing i (codes " not found"))
