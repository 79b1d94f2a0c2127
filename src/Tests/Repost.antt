-- ===== src/Tests/Repost.antt =====
-- crates/core/src/repost and crates/core/src/scheduler/task.rs at concrete inputs.
use pt_reseeder.Base.{ℕ, ◌≡◌, inl, refl, Option, some, none, [], ◌∷◌}
use pt_reseeder.Base.Text.{Text, codes}
use pt_reseeder.Error.{CoreError, Result, err, internal}
use pt_reseeder.Repost.Status.{approved, rejected, as_str, approve}
use pt_reseeder.Repost.Queue.{RepostQueueEntry, get_repost_entry}
use pt_reseeder.Repost.Review.{retry_entry, no_transition}
use pt_reseeder.Repost.Review.Terminal.{terminal_stays}
use pt_reseeder.Repost.Submit.{Handle, SubmitBatchCriteria, candidates, submit_batch}
use pt_reseeder.Repost.Submit.Counts.{counted, batch_counts}

abbrev row : Text → RepostQueueEntry
row status = record {
  id = 3;
  source_site_id = 1;
  source_torrent_id = codes "7";
  target_site_id = 2;
  raw_info_json = [];
  adapted_info_json = none;
  status = status;
  review_notes = none;
  submitted_at = none;
  created_at = [];
}

terminal_stays_example :
    retry_entry (row (codes "rejected") ∷ []) 3 none
    ≡ (row (codes "rejected") ∷ [], err (no_transition rejected approved))
unfolding get_repost_entry as_str
terminal_stays_example =
    (terminal_stays (row (codes "rejected") ∷ []) 3 (row (codes "rejected")) rejected approve none
      refl refl (inl refl)).1

abbrev all_entries : SubmitBatchCriteria
all_entries = record { entry_ids = some (3 ∷ 4 ∷ []); target_site_ids = none; limit = none }

abbrev no_json : Text → Result (Unit {0})
no_json s = err (internal s)

abbrev plain : CoreError → Text
plain e = []

abbrev no_site : ℕ → Option (Handle (Unit {0}))
no_site n = none

batch_counts_example :
    counted (submit_batch no_json plain no_site 0 [] (row (codes "approved") ∷ []) all_entries).1
    ≡ 1
unfolding candidates get_repost_entry
batch_counts_example =
    (batch_counts no_json plain no_site 0 [] (row (codes "approved") ∷ []) all_entries).1
