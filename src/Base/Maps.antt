-- ===== src/Base/Maps.antt =====
-- Rust's `HashMap<String, V>` and `HashSet<String>`: association lists and lists in order of first
-- insertion.
use mathlib.Core.Option.{Option, none, some}
use mathlib.Core.Path.{◌≡◌, refl}
use mathlib.Core.List.{List, [], ◌∷◌, ◌++◌}
use native.Mathlib.Omega.{arith}
use pt_reseeder.Base.Tests.{if◌then◌else◌, or_else}
use pt_reseeder.Base.Text.{Text, text_eq, text_eq_iff}

abbrev pub TextMap : Type 0 → Type 0
TextMap V = List (Text × V)

module _ {V : Type 0} where
  unfoldable pub find : Text → TextMap V → Option V
  find k [] = none
  find k ((j, v) ∷ m) = if text_eq k j then some v else find k m

  -- `HashMap::insert`.
  unfoldable pub put : Text → V → TextMap V → TextMap V
  put k v [] = (k, v) ∷ []
  put k v ((j, w) ∷ m) = let rest = put k v m in if text_eq k j then (k, v) ∷ m else (j, w) ∷ rest

  pub find-put :
      (k j : Text) (v : V) (m : TextMap V)
      → find j (put k v m) ≡ (if text_eq j k then some v else find j m)
  unfolding find put
  find-put k j v [] = refl
  find-put k j v ((i, w) ∷ m) =
      ground (arith, text_eq_iff j k, text_eq_iff k i, text_eq_iff j i, find-put k j v m)

-- `entry(k).or_default().push(t)`.
unfoldable pub push_to : Text → Text → TextMap (List Text) → TextMap (List Text)
unfolding find put
push_to k t m = put k (or_else (find k m) [] ++ t ∷ []) m

pub find-push_to :
    (k j t : Text) (m : TextMap (List Text))
    → or_else (find j (push_to k t m)) []
      ≡ (if text_eq j k then or_else (find j m) [] ++ t ∷ [] else or_else (find j m) [])
unfolding push_to
find-push_to k j t m =
    ground (arith, find-put k j (or_else (find k m) [] ++ t ∷ []) m, text_eq_iff j k)
