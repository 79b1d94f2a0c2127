-- ===== src/Engine/Pipeline/Ends.antt =====
-- crates/core/src/engine/pipeline.rs: a row of the preview and the end of an adder.
use pt_reseeder.Base.{
  ℕ, ◌≤◌, ◌<◌, ◌≡◌, ◌∙◌, refl, sym, subst, Bool, true, false, ==_iff, some, List, [], ◌∷◌, ◌⊎◌,
  arith, inl, inr, Bool-cases, ltb, ltb→lt,
}
use pt_reseeder.Base.Text.{Text, codes, text_eq_iff}
use pt_reseeder.Error.{Outcome, returned, failed, panicked, out_of_fuel}
use pt_reseeder.Engine.Stats.{ReseedStats}
use pt_reseeder.Engine.DryRun.{DryRunPreviewItem}
use pt_reseeder.Engine.Pipeline.{same_pair, outcome_of, put_item}

-- What a row says is how an adder ended that began and ended with these counters: `failed` for an error
-- and for a failure that was counted, and `skipped` for one that was not.
abbrev pub Tells : ReseedStats → ReseedStats → Outcome Bool → Text → Type 0
Tells before after (returned true) o = o ≡ codes "added"
Tells before after (returned false) o =
    ((o ≡ codes "failed") × (before.failed < after.failed))
    ⊎ ((o ≡ codes "skipped") × (after.failed ≤ before.failed))
Tells before after (failed e) o = o ≡ codes "failed"
Tells before after panicked o = ⊥
Tells before after out_of_fuel o = ⊥

pub outcome_of-Tells :
    (before after : ReseedStats) (added : Bool)
    → Tells before after (returned added) (outcome_of before after added)
unfolding outcome_of
outcome_of-Tells before after true = refl
outcome_of-Tells before after false = elim (Bool-cases (ltb before.failed after.failed)) [
  | inl y ↦ rw y (inl (refl, ltb→lt before.failed after.failed y))
  | inr n ↦ rw n (inr (refl, ground arith))
]

-- There is a row of this pair whose outcome is one that `Q` has for the pair.
abbrev pub HasEnd : (Text → ℕ → Text → Type 0) → Text → ℕ → List DryRunPreviewItem → Type 0
HasEnd Q hash site [] = ⊥
HasEnd Q hash site (row ∷ rows) =
    ((row.pieces_hash ≡ hash)
      × (row.site_id ≡ site)
      × (o : Text) × (row.outcome ≡ some o)
      × Q hash site o)
    ⊎ HasEnd Q hash site rows

same_pair-eq :
    (row item : DryRunPreviewItem)
    → same_pair row item ≡ true
    → (row.pieces_hash ≡ item.pieces_hash) × (row.site_id ≡ item.site_id)
same_pair-eq row item h = (
  (text_eq_iff row.pieces_hash item.pieces_hash).0 (ground arith),
  ground (arith, ==_iff row.site_id item.site_id),
)

module _ (Q : Text → ℕ → Text → Type 0) (item : DryRunPreviewItem) (o : Text) where
  pub put_item-HasEnd :
      (rows : List DryRunPreviewItem)
      → item.outcome ≡ some o
      → Q item.pieces_hash item.site_id o
      → HasEnd Q item.pieces_hash item.site_id (put_item item rows)
  unfolding put_item
  put_item-HasEnd [] e q = inl (refl, refl, o, e, q)
  put_item-HasEnd (row ∷ rows) e q = elim (Bool-cases (same_pair row item)) [
    | inl y ↦ rw (y, put_item) (inl (refl, refl, o, e, q))
    | inr n ↦ rw (n, put_item) (inr (put_item-HasEnd rows e q))
  ]

  pub put_item-keeps :
      (rows : List DryRunPreviewItem) (hash : Text) (site : ℕ)
      → item.outcome ≡ some o
      → Q item.pieces_hash item.site_id o
      → HasEnd Q hash site rows
      → HasEnd Q hash site (put_item item rows)
  unfolding put_item
  put_item-keeps [] hash site e q h = elim h [ ]
  put_item-keeps (row ∷ rows) hash site e q (inl (a, b, o', e', q')) =
      elim (Bool-cases (same_pair row item)) [
        | inl y ↦
            let (c, d) = same_pair-eq row item y in
            let hashes : item.pieces_hash ≡ hash = sym c ∙ a in
            let sites : item.site_id ≡ site = sym d ∙ b in
            rw (y, put_item)
              (inl (
                hashes,
                sites,
                o,
                e,
                subst (λ h. Q h site o) hashes (subst (λ i. Q item.pieces_hash i o) sites q),
              ))
        | inr n ↦ rw (n, put_item) (inl (a, b, o', e', q'))
      ]
  put_item-keeps (row ∷ rows) hash site e q (inr h) = elim (Bool-cases (same_pair row item)) [
    | inl y ↦ rw (y, put_item) (inr h)
    | inr n ↦ rw (n, put_item) (inr (put_item-keeps rows hash site e q h))
  ]
