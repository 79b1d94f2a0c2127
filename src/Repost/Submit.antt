-- ===== src/Repost/Submit.antt =====
-- crates/core/src/repost/submitter.rs. A site's adapter, `serde_json`, the text of an error and the
-- clock are parameters; the database answers every query.
pub mod Counts
use pt_reseeder.Base.{
  ℕ, ◌+◌, Bool, true, false, Option, none, some, List, [], ◌∷◌, ◌++◌, ◌==◌, ◌||◌, if◌then◌else◌,
  keep, take, length, filter_map,
}
use pt_reseeder.Base.Text.{Text, codes, text_eq}
use pt_reseeder.Base.Decimal.{to_decimal}
use pt_reseeder.Error.{
  CoreError, repost, invalid_state, submission_failed, site_not_capable, Result, ok, err,
}
use pt_reseeder.Site.RateLimiter.{Limiter, acquire}
use pt_reseeder.Repost.Status.{RepostStatus, approved, submitted, failed, as_str}
use pt_reseeder.Repost.Queue.{
  RepostQueueEntry, Rows, get_repost_entry, update_repost_status, list_repost_entries,
}
use pt_reseeder.Repost.Review.{load_status, reread}

-- What the registry holds of a site: its name, its limiter, and its adapter's submission if any.
pub record Handle (Adapted : Type 0) : Type 0 where
  pub name : Text
  pub rate_limiter : Limiter
  pub repost_adapter : Option (Adapted → Result Text)

pub record SubmitBatchCriteria : Type 0 where
  pub entry_ids : Option (List ℕ)
  pub target_site_ids : Option (List ℕ)
  pub limit : Option ℕ

pub record SubmitBatchEntryResult : Type 0 where
  pub entry_id : ℕ
  pub status : Text
  pub message : Text

pub record SubmitBatchResult : Type 0 where
  pub candidate_count : ℕ
  pub submitted_count : ℕ
  pub failed_count : ℕ
  pub skipped_count : ℕ
  pub entries : List SubmitBatchEntryResult

unfoldable pub member : List ℕ → ℕ → Bool
member [] n = false
member (x ∷ xs) n = x == n || member xs n

-- The candidates of a batch: the rows asked for, or all approved ones; then the sites; then the limit.
unfoldable pub candidates : Rows → SubmitBatchCriteria → Rows
unfolding member
candidates rows c =
    let picked : Rows = elim c.entry_ids [
      | some ids ↦ filter_map (get_repost_entry rows) ids
      | none ↦ list_repost_entries rows (some (as_str approved))
    ] in
    let aimed : Rows = elim c.target_site_ids [
      | some sites ↦ keep (λ r. member sites r.target_site_id) picked
      | none ↦ picked
    ] in
    elim c.limit [ some n ↦ take n aimed | none ↦ aimed ]

unfoldable pub no_results : ℕ → SubmitBatchResult
no_results n = record {
  candidate_count = n;
  submitted_count = 0;
  failed_count = 0;
  skipped_count = 0;
  entries = [];
}

module _ {Adapted : Type 0} (from_json : Text → Result Adapted) (display : CoreError → Text)
    (registry : ℕ → Option (Handle Adapted)) (now_ms : ℕ) (now : Text) where
  unfoldable pub submit_torrent : ℕ → Adapted → Result Text
  submit_torrent target adapted = elim (registry target) [
    | none ↦ err (
        repost (
          site_not_capable
            (codes "target site " ++ (to_decimal target ++ codes " not found in registry"))))
    | some handle ↦ elim handle.repost_adapter [
      | none ↦ err (
          repost (
            site_not_capable
              (codes "site " ++ (handle.name ++ codes " does not support repost submission"))))
      | some submit ↦ elim (acquire handle.rate_limiter now_ms) [
        | err e ↦ err e
        | ok _ ↦ elim (submit adapted) [
          | ok result_id ↦ ok result_id
          | err e ↦ err (
              repost (
                submission_failed (
                  codes "failed to submit to site " ++ (handle.name ++ (codes ": " ++ display e)))))
        ]
      ]
    ]
  ]

  unfoldable pub parse_adapted : RepostQueueEntry → Result Adapted
  parse_adapted entry = elim entry.adapted_info_json [
    | none ↦ err (repost (invalid_state (codes "entry has no adapted info; approve it first")))
    | some json ↦ elim (from_json json) [
      | ok adapted ↦ ok adapted
      | err e ↦
          err (repost (submission_failed (codes "failed to parse adapted info: " ++ display e)))
    ]
  ]

  unfoldable pub is_approved : RepostStatus → Bool
  is_approved approved = true
  is_approved _ = false

  unfoldable pub submit_entry : Rows → ℕ → Rows × Result RepostQueueEntry
  unfolding load_status is_approved parse_adapted reread
  submit_entry rows i = elim (load_status rows i) [
    | err e ↦ (rows, err e)
    | ok (entry, current) ↦
        if is_approved current
        then elim (parse_adapted entry) [
          | err e ↦ (rows, err e)
          | ok adapted ↦ elim (submit_torrent entry.target_site_id adapted) [
            | ok _ ↦
                reread
                  (update_repost_status rows i (as_str submitted) entry.review_notes
                    entry.adapted_info_json (some now))
                  i
            | err e ↦ (
              update_repost_status rows i (as_str failed)
                  (some (codes "submission failed: " ++ display e)) entry.adapted_info_json none,
              err e,
            )
          ]
        ]
        else (
          rows,
          err (
              repost (
                invalid_state (
                  codes "entry must be approved before submission; current status: '"
                  ++ (entry.status ++ codes "'")))),
        )
  ]

  -- The body of the loop for one candidate.
  unfoldable pub submit_one : Rows × SubmitBatchResult → RepostQueueEntry → Rows × SubmitBatchResult
  submit_one (rows, result) entry =
      let skipped : SubmitBatchEntryResult = record {
        entry_id = entry.id;
        status = codes "skipped";
        message = codes "entry status is '" ++ (entry.status ++ codes "'");
      } in
      if text_eq entry.status (as_str approved)
      then (let (rows', outcome) = submit_entry rows entry.id in
          elim outcome [
            | ok updated ↦ (
              rows',
              record result {
                submitted_count = result.submitted_count + 1;
                entries =
                    result.entries
                    ++ record {
                      entry_id = updated.id;
                      status = updated.status;
                      message = codes "submitted";
                    }
                      ∷ [];
              },
            )
            | err e ↦ (
              rows',
              record result {
                failed_count = result.failed_count + 1;
                entries =
                    result.entries
                    ++ record { entry_id = entry.id; status = as_str failed; message = display e }
                      ∷ [];
              },
            )
          ])
      else (
        rows,
        record result {
          skipped_count = result.skipped_count + 1;
          entries = result.entries ++ skipped ∷ [];
        },
      )

  unfoldable pub submit_all : Rows × SubmitBatchResult → Rows → Rows × SubmitBatchResult
  unfolding submit_one
  submit_all s [] = s
  submit_all s (entry ∷ rest) = submit_all (submit_one s entry) rest

  unfoldable pub submit_batch : Rows → SubmitBatchCriteria → Rows × SubmitBatchResult
  unfolding submit_all no_results candidates
  submit_batch rows c =
      let chosen : Rows = candidates rows c in submit_all (rows, no_results (length chosen)) chosen
