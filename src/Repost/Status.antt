-- ===== src/Repost/Status.antt =====
-- crates/core/src/repost/models.rs: the states of a queue entry.
use pt_reseeder.Base.{Bool, true, false, Option, none, some, ◌≡◌, refl, if◌then◌else◌, arith}
use pt_reseeder.Base.Text.{Text, codes, text_eq, text_eq_iff}

pub data RepostStatus : Type 0 where
  pending approved rejected submitted failed : RepostStatus

unfoldable pub as_str : RepostStatus → Text
as_str pending = codes "pending"
as_str approved = codes "approved"
as_str rejected = codes "rejected"
as_str submitted = codes "submitted"
as_str failed = codes "failed"

unfoldable pub from_str : Text → Option RepostStatus
from_str s =
    if text_eq s (codes "pending")
    then some pending
    else if text_eq s (codes "approved")
    then some approved
    else if text_eq s (codes "rejected")
    then some rejected
    else if text_eq s (codes "submitted")
    then some submitted
    else if text_eq s (codes "failed")
    then some failed
    else none

unfoldable pub can_transition_to : RepostStatus → RepostStatus → Bool
can_transition_to pending approved = true
can_transition_to pending rejected = true
can_transition_to approved submitted = true
can_transition_to approved failed = true
can_transition_to failed approved = true
can_transition_to _ _ = false

pub data ReviewAction : Type 0 where
  approve reject : ReviewAction

-- The name of a status reads back as that status.
pub from_str-as_str : (s : RepostStatus) → from_str (as_str s) ≡ some s
unfolding from_str as_str text_eq
from_str-as_str pending = refl
from_str-as_str _ = refl

-- Only a status's own name reads as it.
pub from_str_sound : (t : Text) (s : RepostStatus) → from_str t ≡ some s → t ≡ as_str s
unfolding from_str as_str
from_str_sound t pending e = ground (arith, text_eq_iff t (codes "pending"))
from_str_sound t approved e = ground (arith, text_eq_iff t (codes "approved"))
from_str_sound t rejected e = ground (arith, text_eq_iff t (codes "rejected"))
from_str_sound t submitted e = ground (arith, text_eq_iff t (codes "submitted"))
from_str_sound t failed e = ground (arith, text_eq_iff t (codes "failed"))
