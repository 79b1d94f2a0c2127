-- ===== src/Repost/Review/Terminal.antt =====
-- What review, retry and submission do to the states of the queue (crates/core/src/repost).
use pt_reseeder.Base.{ℕ, ◌≡◌, ◌⊎◌, Option, none, some, arith}
use pt_reseeder.Base.Text.{Text}
use pt_reseeder.Error.{ok, err}
use pt_reseeder.Repost.Status.{
  RepostStatus, pending, approved, rejected, submitted, as_str, can_transition_to, ReviewAction,
  approve, reject, from_str-as_str,
}
use pt_reseeder.Repost.Queue.{RepostQueueEntry, Rows, get_repost_entry, get-update}
use pt_reseeder.Repost.Review.{
  load_status, review_entry, retry_entry, target_of, no_transition, reread,
}

load-status :
    (rows : Rows) (i : ℕ) (entry : RepostQueueEntry) (s : RepostStatus)
    → get_repost_entry rows i ≡ some entry
    → entry.status ≡ as_str s
    → load_status rows i ≡ ok (entry, s)
unfolding load_status
load-status rows i entry s g e = ground (arith, from_str-as_str s)

-- An entry that is rejected or submitted stays as it is: no review and no retry of it changes the
-- queue, and each is refused with the transition that is not allowed.
pub terminal_stays :
    (rows : Rows) (i : ℕ) (entry : RepostQueueEntry) (s : RepostStatus) (action : ReviewAction)
    (notes : Option Text)
    → get_repost_entry rows i ≡ some entry
    → entry.status ≡ as_str s
    → (s ≡ rejected) ⊎ (s ≡ submitted)
    → (review_entry rows i action notes ≡ (rows, err (no_transition s (target_of action))))
      × (retry_entry rows i notes ≡ (rows, err (no_transition s approved)))
unfolding review_entry retry_entry target_of can_transition_to
terminal_stays rows i entry s action notes g e t = ground (arith, load-status rows i entry s)

-- A pending entry takes the reviewer's decision: the entry that is returned has the status and the
-- notes of the review, no submission time, and the row of every other id is as it was.
pub review_pending :
    (rows : Rows) (i : ℕ) (entry : RepostQueueEntry) (action : ReviewAction) (notes : Option Text)
    → get_repost_entry rows i ≡ some entry
    → entry.status ≡ as_str pending
    → (review_entry rows i action notes).1
      ≡ ok (record entry {
        status = as_str (target_of action);
        review_notes = notes;
        submitted_at = none;
      })
unfolding review_entry target_of can_transition_to reread
review_pending rows i entry approve notes g e = ground (
  arith,
  load-status rows i entry pending,
  get-update rows i i (as_str approved) notes entry.adapted_info_json none,
)
review_pending rows i entry reject notes g e = ground (
  arith,
  load-status rows i entry pending,
  get-update rows i i (as_str rejected) notes entry.adapted_info_json none,
)
