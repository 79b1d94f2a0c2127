-- ===== src/Engine/Scanner/Materialize/Misses.antt =====
-- crates/core/src/engine/scanner.rs: how long the loop of `scan_downloader` goes on finding nothing.
use pt_reseeder.Base.{
  ℕ, ◌+◌, ◌≤◌, ◌<◌, ◌≡◌, Bool, false, List, [], ◌∷◌, if◌then◌else◌, arith, Bool-cases, inl, inr,
}
use pt_reseeder.Base.Text.{Text, contains_text}
use pt_reseeder.Engine.Stats.{ReseedStats, add_to}
use pt_reseeder.Engine.Scanner.{Client, Listing, Loop}
use pt_reseeder.Engine.Scanner.Materialize.{
  give_up_local, try_local, try_export, try_pieces_hash, materialize, hopeless, materialize_all,
}
use pt_reseeder.Engine.Scanner.Materialize.Seen.{keep_parsed-counted}

abbrev pub hits : Loop → ℕ
hits s = s.local_file_hits + s.export_hits + s.pieces_hash_hits

-- What one way does to the counters: a hit is counted, a failure counts an attempt at most.
abbrev Counts : Loop → Loop × Bool → Type 0
Counts s (s', found) =
    (hits s' ≡ hits s + (if found then 1 else 0))
    × (s'.export_attempts ≤ s.export_attempts + 1)
    × (s'.consecutive_misses ≡ s.consecutive_misses)

module _ (client : Client) (l : Listing) where
  try_local-Counts : (hash : Text) (s : Loop) → Counts s (try_local client l hash s)
  unfolding try_local give_up_local
  try_local-Counts hash s = grind (arith, keep_parsed-counted)

  try_local-attempts :
      (hash : Text) (s : Loop) → (try_local client l hash s).0.export_attempts ≡ s.export_attempts
  unfolding try_local give_up_local
  try_local-attempts hash s = grind (arith, keep_parsed-counted)

  try_export-Counts : (hash : Text) (s : Loop) → Counts s (try_export client l hash s)
  unfolding try_export
  try_export-Counts hash s = grind (arith, keep_parsed-counted)

  try_pieces_hash-Counts : (hash : Text) (s : Loop) → Counts s (try_pieces_hash client l hash s)
  unfolding try_pieces_hash
  try_pieces_hash-Counts hash s = grind (arith, keep_parsed-counted)

  try_pieces_hash-attempts :
      (hash : Text) (s : Loop)
      → (try_pieces_hash client l hash s).0.export_attempts ≡ s.export_attempts
  unfolding try_pieces_hash
  try_pieces_hash-attempts hash s = grind (arith, keep_parsed-counted)

  materialize_miss :
      (hash : Text) (s : Loop)
      → hits (materialize client l hash s) ≡ 0
      → (hits s ≡ 0)
        × ((materialize client l hash s).consecutive_misses ≡ s.consecutive_misses + 1)
        × ((materialize client l hash s).export_attempts ≤ s.export_attempts + 1)
  unfolding materialize
  materialize_miss hash s h =
      let s₁ = (try_local client l hash s).0 in
      let s₂ = (try_export client l hash s₁).0 in
      ground (
        arith,
        try_local-Counts hash s,
        try_local-attempts hash s,
        try_export-Counts hash s₁,
        try_pieces_hash-Counts hash s₂,
        try_pieces_hash-Counts hash s₁,
        try_pieces_hash-attempts hash s₂,
        try_pieces_hash-attempts hash s₁,
      )

  -- While nothing is found there were at most as many exports as misses, and fewer than three.
  abbrev pub Trying : Loop → Type 0
  Trying s = hits s ≡ 0 → (s.export_attempts ≤ s.consecutive_misses) × (s.consecutive_misses < 3)

  hopeless-false : (s : Loop) → hits s ≡ 0 → hopeless client l s ≡ false → s.consecutive_misses < 3
  unfolding hopeless
  hopeless-false s z h = ground arith

  -- From a loop that is still trying: a scan that finds nothing asks the client for at most three
  -- exports, however many hashes it names.
  pub materialize_all-attempts :
      (cancelled : ℕ → Bool) (clock : ℕ) (hashes : List Text) (s : Loop) (stats : ReseedStats)
      → Trying s
      → hits (materialize_all client l cancelled clock hashes s stats).0 ≡ 0
      → (materialize_all client l cancelled clock hashes s stats).0.export_attempts ≤ 3
  unfolding materialize_all
  materialize_all-attempts cancelled clock [] s stats t h = ground (arith, t h)
  materialize_all-attempts cancelled clock (x ∷ xs) s stats t h =
      let s' = materialize client l x s in
      let stats' : ReseedStats = record stats { scanned = add_to stats.scanned 1 } in
      let missed : (hits s' ≡ 0)
          → (s'.export_attempts ≤ s'.consecutive_misses) × (s'.consecutive_misses ≤ 3) =
        λ (z : hits s' ≡ 0).
          let m = materialize_miss x s z in let kept = t m.0 in (omega arith, omega arith) in
      elim (Bool-cases (cancelled clock)) [
        | inl stop ↦
            rw (stop, materialize_all)
              (let kept = t (rw (stop, materialize_all) at h) in omega arith)
        | inr go ↦ elim (Bool-cases (contains_text s.seen_info_hashes x)) [
          | inl old ↦
              rw (go, old, materialize_all)
                (materialize_all-attempts cancelled (clock + 1) xs s stats t
                  (rw (go, old, materialize_all) at h))
          | inr new ↦ elim (Bool-cases (hopeless client l s')) [
            | inl stop ↦
                rw (go, new, stop, materialize_all)
                  (let kept = missed (rw (go, new, stop, materialize_all) at h) in omega arith)
            | inr more ↦
                rw (go, new, more, materialize_all)
                  (materialize_all-attempts cancelled (clock + 1) xs s' stats'
                    (λ z. let kept = missed z in (kept.0, hopeless-false s' z more))
                    (rw (go, new, more, materialize_all) at h))
          ]
        ]
      ]
