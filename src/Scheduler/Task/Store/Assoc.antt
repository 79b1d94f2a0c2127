-- ===== src/Scheduler/Task/Store/Assoc.antt =====
-- The associations of a task in crates/core/src/db/repo.rs: what is read of what was written.
use pt_reseeder.Base.{
  ℕ, ◌+◌, ◌≡◌, refl, sym, ap, subst, ◌∙◌, ==_iff, List, [], ◌∷◌, ◌++◌, map, All, arith, ◌≤◌, ◌==◌,
  leb, if◌then◌else◌, Bool-cases, inl, inr,
}
use pt_reseeder.Scheduler.Task.Store.{
  Links, unlink, set_task_assoc, children_of, place, in_order, get_task_assoc,
}

children_of-append :
    (id : ℕ) (ls ms : Links) → children_of id (ls ++ ms) ≡ children_of id ls ++ children_of id ms
unfolding children_of
children_of-append id [] ms = refl
children_of-append id ((t, c) ∷ ls) ms = ground (arith, children_of-append id ls ms)

children_of-unlink : (id : ℕ) (ls : Links) → children_of id (unlink id ls) ≡ []
unfolding children_of unlink
children_of-unlink id [] = refl
children_of-unlink id ((t, c) ∷ ls) = ground (arith, children_of-unlink id ls)

children_of-own :
    (id : ℕ) (children : List ℕ) → children_of id (map (λ child. (id, child)) children) ≡ children
unfolding children_of
children_of-own id [] = refl
children_of-own id (c ∷ cs) = ground (arith, ==_iff id id, children_of-own id cs)

children_of-set_task_assoc :
    (id : ℕ) (children : List ℕ) (ls : Links)
    → children_of id (set_task_assoc id children ls) ≡ children
unfolding set_task_assoc
children_of-set_task_assoc id children ls =
    children_of-append id (unlink id ls) (map (λ child. (id, child)) children)
    ∙ ap (λ own. own ++ children_of id (map (λ child. (id, child)) children))
        (children_of-unlink id ls)
    ∙ children_of-own id children

-- How often a number occurs.
abbrev pub count : ℕ → List ℕ → ℕ
count n [] = 0
count n (x ∷ xs) = (if x == n then 1 else 0) + count n xs

abbrev pub Ascending : List ℕ → Type 0
Ascending [] = Unit
Ascending (x ∷ xs) = All (λ y. x ≤ y) xs × Ascending xs

count-place : (n m : ℕ) (xs : List ℕ) → count n (place m xs) ≡ count n (m ∷ xs)
unfolding place
count-place n m [] = refl
count-place n m (x ∷ xs) = ground (arith, count-place n m xs)

count-in_order : (n : ℕ) (xs : List ℕ) → count n (in_order xs) ≡ count n xs
unfolding in_order
count-in_order n [] = refl
count-in_order n (x ∷ xs) = omega (arith, count-place n x (in_order xs), count-in_order n xs)

All-le : (m x : ℕ) (xs : List ℕ) → m ≤ x → All (λ y. x ≤ y) xs → All (λ y. m ≤ y) xs
All-le m x [] le all = tt
All-le m x (y ∷ ys) le (h, all) = (omega arith, All-le m x ys le all)

All-place : (b n : ℕ) (xs : List ℕ) → b ≤ n → All (λ y. b ≤ y) xs → All (λ y. b ≤ y) (place n xs)
unfolding place
All-place b n [] le all = (le, tt)
All-place b n (x ∷ xs) le (h, all) = elim (Bool-cases (leb n x)) [
  | inl y ↦ rw (y, place) (le, (h, all))
  | inr y ↦ rw (y, place) (h, All-place b n xs le all)
]

place-Ascending : (n : ℕ) (xs : List ℕ) → Ascending xs → Ascending (place n xs)
unfolding place
place-Ascending n [] h = (tt, tt)
place-Ascending n (x ∷ xs) (all, h) = elim (Bool-cases (leb n x)) [
  | inl y ↦ rw (y, place) ((ground arith, All-le n x xs (ground arith) all), (all, h))
  | inr y ↦ rw (y, place) (All-place x n xs (ground arith) all, place-Ascending n xs h)
]

in_order-Ascending : (xs : List ℕ) → Ascending (in_order xs)
unfolding in_order
in_order-Ascending [] = tt
in_order-Ascending (x ∷ xs) = place-Ascending x (in_order xs) (in_order-Ascending xs)

-- The ids that are read are those that were asked for, each as often, in their order.
abbrev pub SameIds : List ℕ → List ℕ → Type 0
SameIds read asked = Ascending read × ((n : ℕ) → count n read ≡ count n asked)

-- What is written for a task is read for it.
pub get-set_task_assoc :
    (id : ℕ) (children : List ℕ) (ls : Links)
    → SameIds (get_task_assoc id (set_task_assoc id children ls)) children
unfolding get_task_assoc
get-set_task_assoc id children ls =
    subst (λ own. SameIds (in_order own) children) (sym (children_of-set_task_assoc id children ls))
      (in_order-Ascending children, λ n. count-in_order n children)
