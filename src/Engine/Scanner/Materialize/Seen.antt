-- ===== src/Engine/Scanner/Materialize/Seen.antt =====
-- crates/core/src/engine/scanner.rs: what the loop of `scan_downloader` keeps.
use pt_reseeder.Base.{
  ℕ, ◌+◌, ◌≡◌, refl, ap, Bool, false, ◌||◌, List, [], ◌∷◌, ◌++◌, map, if◌then◌else◌, length,
  length-append, arith, Bool-cases, inl, inr,
}
use pt_reseeder.Base.Text.{Text, text_eq_iff, contains_text}
use pt_reseeder.Engine.Stats.{ReseedStats, add_to}
use pt_reseeder.Engine.Scanner.{Parsed, Client, Listing, Loop}
use pt_reseeder.Engine.Scanner.Materialize.{
  keep_parsed, give_up_local, try_local, try_export, try_pieces_hash, materialize, materialize_all,
}

abbrev pub Distinct : List Text → Type 0
Distinct [] = Unit
Distinct (x ∷ xs) = (contains_text xs x ≡ false) × Distinct xs

pub contains_text-append :
    (xs ys : List Text) (t : Text)
    → contains_text (xs ++ ys) t ≡ (contains_text xs t || contains_text ys t)
unfolding contains_text
contains_text-append [] ys t = refl
contains_text-append (x ∷ xs) ys t = ground (arith, contains_text-append xs ys t)

Distinct-append :
    (xs : List Text) (t : Text) → Distinct xs → contains_text xs t ≡ false → Distinct (xs ++ t ∷ [])
unfolding contains_text
Distinct-append [] t d h = (refl, tt)
Distinct-append (x ∷ xs) t (new, d) h = (
  ground (arith, contains_text-append xs (t ∷ []) x, text_eq_iff x t, text_eq_iff t x),
  Distinct-append xs t d (ground arith),
)

unfoldable pub info_hashes : List Parsed → List Text
info_hashes ps = map (λ p. p.1.info_hash) ps

map-append_one :
    (ps : List Parsed) (p : Parsed)
    → info_hashes (ps ++ p ∷ []) ≡ info_hashes ps ++ p.1.info_hash ∷ []
unfolding info_hashes
map-append_one [] p = refl
map-append_one (q ∷ ps) p = ap (◌∷◌ q.1.info_hash) (map-append_one ps p)

-- The info hashes seen are those of the torrents kept, each once; those kept beyond the first `n` came
-- by one of the three ways.
pub record IsSound (n : ℕ) (s : Loop) : Type 0 where
  pub seen : s.seen_info_hashes ≡ info_hashes s.parsed
  pub distinct : Distinct s.seen_info_hashes
  pub counted : length s.parsed ≡ n + s.local_file_hits + s.export_hits + s.pieces_hash_hits

pub keep_parsed-seen :
    (p : Parsed) (s : Loop)
    → s.seen_info_hashes ≡ info_hashes s.parsed
    → (keep_parsed p s).0.seen_info_hashes ≡ info_hashes (keep_parsed p s).0.parsed
unfolding keep_parsed
keep_parsed-seen p s h = ground (arith, map-append_one s.parsed p)

pub keep_parsed-Distinct :
    (p : Parsed) (s : Loop)
    → Distinct s.seen_info_hashes
    → Distinct (keep_parsed p s).0.seen_info_hashes
unfolding keep_parsed
keep_parsed-Distinct p s d = elim (Bool-cases (contains_text s.seen_info_hashes p.1.info_hash)) [
  | inl old ↦ rw (old, Distinct) d
  | inr new ↦ rw (new, Distinct) (Distinct-append s.seen_info_hashes p.1.info_hash d new)
]

pub keep_parsed-counted :
    (p : Parsed) (s : Loop)
    → let (s', fresh) = keep_parsed p s in
      (length s'.parsed ≡ length s.parsed + (if fresh then 1 else 0))
      × (s'.local_file_hits ≡ s.local_file_hits)
      × (s'.export_hits ≡ s.export_hits)
      × (s'.pieces_hash_hits ≡ s.pieces_hash_hits)
      × (s'.export_attempts ≡ s.export_attempts)
      × (s'.consecutive_misses ≡ s.consecutive_misses)
unfolding keep_parsed
keep_parsed-counted p s = ground (arith, length-append s.parsed (p ∷ []))

module _ (client : Client) (l : Listing) where
  try_local-IsSound :
      (n : ℕ) (hash : Text) (s : Loop) → IsSound n s → IsSound n (try_local client l hash s).0
  unfolding try_local give_up_local
  try_local-IsSound n hash s sound =
      grind (arith, keep_parsed-seen, keep_parsed-Distinct, keep_parsed-counted)

  try_export-IsSound :
      (n : ℕ) (hash : Text) (s : Loop) → IsSound n s → IsSound n (try_export client l hash s).0
  unfolding try_export
  try_export-IsSound n hash s sound =
      grind (arith, keep_parsed-seen, keep_parsed-Distinct, keep_parsed-counted)

  try_pieces_hash-IsSound :
      (n : ℕ) (hash : Text) (s : Loop) → IsSound n s → IsSound n (try_pieces_hash client l hash s).0
  unfolding try_pieces_hash
  try_pieces_hash-IsSound n hash s sound =
      grind (arith, keep_parsed-seen, keep_parsed-Distinct, keep_parsed-counted)

  materialize-IsSound :
      (n : ℕ) (hash : Text) (s : Loop) → IsSound n s → IsSound n (materialize client l hash s)
  unfolding materialize
  materialize-IsSound n hash s sound =
      let s₁ = (try_local client l hash s).0 in
      let s₂ = (try_export client l hash s₁).0 in
      let sound₁ = try_local-IsSound n hash s sound in
      let sound₂ = try_export-IsSound n hash s₁ sound₁ in
      let sound₃ = try_pieces_hash-IsSound n hash s₂ sound₂ in
      let sound₄ = try_pieces_hash-IsSound n hash s₁ sound₁ in ground arith

  -- The loop over the hashes keeps a torrent once and counts it once, however it ends.
  pub materialize_all-IsSound :
      (cancelled : ℕ → Bool) (n clock : ℕ) (hashes : List Text) (s : Loop) (stats : ReseedStats)
      → IsSound n s
      → IsSound n (materialize_all client l cancelled clock hashes s stats).0
  unfolding materialize_all
  materialize_all-IsSound cancelled n clock [] s stats sound = sound
  materialize_all-IsSound cancelled n clock (h ∷ hs) s stats sound =
      let s' = materialize client l h s in
      let stats' : ReseedStats = record stats { scanned = add_to stats.scanned 1 } in
      ground (
        arith,
        materialize-IsSound n h s sound,
        materialize_all-IsSound cancelled n (clock + 1) hs s stats,
        materialize_all-IsSound cancelled n (clock + 1) hs s' stats',
      )
