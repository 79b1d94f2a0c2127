-- ===== src/Repost/Queue.antt =====
-- The repost queue of crates/core/src/db/repo.rs and db/models.rs: its rows, newest first, and the
-- SQL statements on them, each as it reads when the database answers.
use pt_reseeder.Base.{
  ℕ, Option, none, some, List, [], ◌∷◌, ◌≡◌, refl, ◌==◌, if◌then◌else◌, arith, keep,
}
use pt_reseeder.Base.Text.{Text, text_eq}

pub record RepostQueueEntry : Type 0 where
  pub id : ℕ
  pub source_site_id : ℕ
  pub source_torrent_id : Text
  pub target_site_id : ℕ
  pub raw_info_json : Text
  pub adapted_info_json : Option Text
  pub status : Text
  pub review_notes : Option Text
  pub submitted_at : Option Text
  pub created_at : Text

abbrev pub Rows : Type 0
Rows = List RepostQueueEntry

unfoldable pub get_repost_entry : Rows → ℕ → Option RepostQueueEntry
get_repost_entry [] i = none
get_repost_entry (r ∷ rs) i = if r.id == i then some r else get_repost_entry rs i

unfoldable pub list_repost_entries : Rows → Option Text → Rows
list_repost_entries rows none = rows
list_repost_entries rows (some status) = keep (λ r. text_eq r.status status) rows

unfoldable pub update_repost_status :
    Rows → ℕ → Text → Option Text → Option Text → Option Text → Rows
update_repost_status [] i status notes adapted at = []
update_repost_status (r ∷ rs) i status notes adapted at =
    (if r.id == i
      then record r {
        status = status;
        review_notes = notes;
        adapted_info_json = adapted;
        submitted_at = at;
      }
      else r)
    ∷ update_repost_status rs i status notes adapted at

unfoldable pub delete_repost_entry : Rows → ℕ → Rows
delete_repost_entry [] i = []
delete_repost_entry (r ∷ rs) i =
    if r.id == i then delete_repost_entry rs i else r ∷ delete_repost_entry rs i

-- Looking up after an update: the row itself is changed, and no other row is.
pub get-update :
    (rows : Rows) (i j : ℕ) (status : Text) (notes adapted at : Option Text)
    → get_repost_entry (update_repost_status rows i status notes adapted at) j
      ≡ elim (get_repost_entry rows j) [
        | none ↦ none
        | some r ↦ some (
            if j == i
            then record r {
              status = status;
              review_notes = notes;
              adapted_info_json = adapted;
              submitted_at = at;
            }
            else r)
      ]
unfolding get_repost_entry update_repost_status
get-update [] i j status notes adapted at = refl
get-update (r ∷ rs) i j status notes adapted at =
    ground (arith, get-update rs i j status notes adapted at)
