-- ===== src/Engine/Matcher/Sites/Filtered.antt =====
-- crates/core/src/engine/matcher.rs: what the filters let through to a site.
use pt_reseeder.Base.{
  ℕ, ◌+◌, ◌≡◌, ◌≢◌, ◌⊎◌, refl, Bool, true, not, Option, none, some, List, [], ◌∷◌, keep, map, All,
  arith, if◌then◌else◌, or_else, Bool-cases, Option-cases, inl, inr,
}
use pt_reseeder.Base.Int.{ℤ}
use pt_reseeder.Base.Text.{Text, text_eq, text_eq_iff}
use pt_reseeder.Base.Maps.{TextMap, find}
use pt_reseeder.Error.{Result, ok}
use pt_reseeder.Engine.Filter.{extract_domain, filter_by_tracker}
use pt_reseeder.Engine.Filter.Hosts.{filter_by_tracker-false}
use pt_reseeder.Engine.Matcher.{HistorySkippedTorrent, MatchOptions, split_history, tracker_passes}
use pt_reseeder.Engine.Matcher.Sites.{Plan, plan_site}

keep-All : {A : Type 0} (p : A → Bool) (xs : List A) → All (λ x. p x ≡ true) (keep p xs)
keep-All p [] = tt
keep-All p (x ∷ xs) = elim (Bool-cases (p x)) [
  | inl y ↦ rw (y, All) (y, keep-All p xs)
  | inr n ↦ rw (n, All) (keep-All p xs)
]

-- How often a text occurs.
abbrev pub count : Text → List Text → ℕ
count t [] = 0
count t (x ∷ xs) = (if text_eq t x then 1 else 0) + count t xs

count-keep_split :
    (p : Text → Bool) (t : Text) (xs : List Text)
    → count t (keep (λ x. not (p x)) xs) + count t (keep p xs) ≡ count t xs
count-keep_split p t [] = omega arith
count-keep_split p t (x ∷ xs) = ground (arith, count-keep_split p t xs)

All-map :
    {A : Type 0} {P Q : A → Type 0} (xs : List A) → ((x : A) → P x → Q x) → All P xs → All Q xs
All-map [] f all = tt
All-map (x ∷ xs) f (p, all) = (f x p, All-map xs f all)

module _ (found : TextMap (Option ℤ)) (paths : TextMap Text) (default : Text) (site_id : ℕ) where
  split_history-count :
      (t : Text) (hs : List Text)
      → (let (skipped, queried) = split_history found paths default site_id hs in
          count t (map (λ (k : HistorySkippedTorrent). k.pieces_hash) skipped) + count t queried
          ≡ count t hs)
  unfolding split_history
  split_history-count t [] = omega arith
  split_history-count t (h ∷ hs) = elim (Option-cases (find h found)) [
    | inl n ↦ rw (n, split_history) (omega (arith, split_history-count t hs))
    | inr (id, y) ↦ rw (y, split_history) (omega (arith, split_history-count t hs))
  ]

  -- What is set aside was taken from this site before, by the torrent noted.
  split_history-taken :
      (hs : List Text)
      → All
          (λ (k : HistorySkippedTorrent).
            (find k.pieces_hash found ≡ some k.torrent_id) × (k.site_id ≡ site_id))
          (split_history found paths default site_id hs).0
  unfolding split_history
  split_history-taken [] = tt
  split_history-taken (h ∷ hs) = elim (Option-cases (find h found)) [
    | inl n ↦ rw (n, split_history) (split_history-taken hs)
    | inr (id, y) ↦ rw (y, split_history) ((y, refl), split_history-taken hs)
  ]

  split_history-All :
      (P : Text → Type 0) (hs : List Text)
      → All P hs
      → All (λ h. P h × (find h found ≡ none)) (split_history found paths default site_id hs).1
  unfolding split_history
  split_history-All P [] all = tt
  split_history-All P (h ∷ hs) (p, all) = elim (Option-cases (find h found)) [
    | inl n ↦ rw (n, All) ((p, n), split_history-All P hs all)
    | inr (id, y) ↦ rw (y, All) (split_history-All P hs all)
  ]

-- One of the URLs has the domain.
abbrev pub Announced : (Text → Text) → Text → List Text → Type 0
Announced domain_of domain [] = ⊥
Announced domain_of domain (url ∷ urls) = (domain_of url ≡ domain) ⊎ Announced domain_of domain urls

module _ (to_lowercase : Text → Text) where
  filter_by_tracker-true :
      (urls : List Text) (base : Text)
      → filter_by_tracker to_lowercase urls base ≡ true
      → Announced (extract_domain to_lowercase) (extract_domain to_lowercase base) urls
  unfolding filter_by_tracker
  filter_by_tracker-true [] base h = ground arith
  filter_by_tracker-true (u ∷ us) base h =
      elim (Bool-cases
        (text_eq (extract_domain to_lowercase u) (extract_domain to_lowercase base))) [
          | inl y ↦
              inl (
                (text_eq_iff (extract_domain to_lowercase u) (extract_domain to_lowercase base)).0
                  y)
          | inr n ↦ inr (filter_by_tracker-true us base (ground arith))
        ]

module _ (to_lowercase : Text → Text) (announce : TextMap (List Text))
    (history : List Text → ℕ → Result (TextMap (Option ℤ))) (paths : TextMap Text)
    (o : MatchOptions) where
  -- The announce URLs of a hash that the database knows.
  abbrev urls_of : Text → List Text
  urls_of h = or_else (find h announce) []

  -- Where the history answers with `found`: a site is asked only for hashes none of whose announce URLs
  -- has the site's domain and that `found` lacks; each hash that is filtered out has an announce URL
  -- with that domain; each that is set aside was taken from this site, by the torrent noted; and each
  -- hash is filtered out, set aside or asked for, as often as it was given.
  pub plan_site-All :
      (hashes : List Text) (site_id : ℕ) (base_url : Text) (found : TextMap (Option ℤ))
      → history (keep (tracker_passes to_lowercase announce base_url) hashes) site_id ≡ ok found
      → (plan : Plan) × (plan_site to_lowercase announce history paths o hashes site_id base_url
          ≡ ok plan)
        × All
            (λ h.
              All
                (λ url. extract_domain to_lowercase url ≢ extract_domain to_lowercase base_url)
                (or_else (find h announce) [])
              × (find h found ≡ none))
            plan.query_hashes
        × All
            (λ h.
              Announced
                (extract_domain to_lowercase)
                (extract_domain to_lowercase base_url)
                (or_else (find h announce) []))
            plan.tracker_filtered
        × All
            (λ (k : HistorySkippedTorrent).
              (find k.pieces_hash found ≡ some k.torrent_id) × (k.site_id ≡ site_id))
            plan.history_skipped
        × ((t : Text)
            → count t plan.tracker_filtered
                + count t (map (λ (k : HistorySkippedTorrent). k.pieces_hash) plan.history_skipped)
                + count t plan.query_hashes
              ≡ count t hashes)
  unfolding plan_site tracker_passes
  plan_site-All hashes site_id base_url found e =
      let passes : Text → Bool = tracker_passes to_lowercase announce base_url in
      let remaining = keep passes hashes in
      let (skipped, queried) = split_history found paths o.default_save_path site_id remaining in
      (
        record {
          tracker_filtered = keep (λ h. not (passes h)) hashes;
          history_skipped = skipped;
          query_hashes = queried;
        },
        rw (e, plan_site) refl,
        All-map queried
            (λ h (p, n).
              ((filter_by_tracker-false to_lowercase (urls_of h) base_url).0 (ground arith), n))
            (split_history-All found paths o.default_save_path site_id (λ h. passes h ≡ true)
              remaining (keep-All passes hashes)),
        All-map (keep (λ h. not (passes h)) hashes)
            (λ h p. filter_by_tracker-true to_lowercase (urls_of h) base_url (ground arith))
            (keep-All (λ h. not (passes h)) hashes),
        split_history-taken found paths o.default_save_path site_id remaining,
        λ t. omega (
          arith,
          split_history-count found paths o.default_save_path site_id t remaining,
          count-keep_split passes t hashes,
        ),
      )
